-- ===== src/Dialer/Rewriting/Suffix.antt =====
-- A name below the suffix reaches the dialer below without it.
use mathlib.Core.List.{reverse-append, reverse-reverse}
use flakes.Common.{
  ℕ, ◌≡◌, refl, ◌∷◌, ◌++◌, [], reverse, some, Bytes, cut_prefix, cut_suffix, to_lower, lower,
  join_host_port, arith, false, has, IsPlain, split_host_port-join_host_port, has-append,
}
use flakes.Dialer.Context.{ContextDialer}
use flakes.Dialer.Rewriting.{dial_context}

cut_prefix-append : (p s : Bytes) → cut_prefix (p ++ s) p ≡ some s
unfolding cut_prefix
cut_prefix-append [] [] = refl
cut_prefix-append [] (x ∷ s) = refl
cut_prefix-append (c ∷ p) s = ground (arith, cut_prefix-append p s)

cut_suffix-append : (s p : Bytes) → cut_suffix (s ++ p) p ≡ some s
unfolding cut_suffix
cut_suffix-append s p =
    rw
      (cut_suffix, reverse-append s p, cut_prefix-append (reverse p) (reverse s), reverse-reverse s)

to_lower-append : (s t : Bytes) → to_lower (s ++ t) ≡ to_lower s ++ to_lower t
unfolding to_lower
to_lower-append [] t = refl
to_lower-append (c ∷ s) t = rw (to_lower, to_lower-append s t)

to_lower-cons : (c : ℕ) (s : Bytes) → to_lower (c ∷ s) ≡ lower c ∷ to_lower s
unfolding to_lower
to_lower-cons c s = refl

IsPlain-append : (s t : Bytes) → IsPlain s → IsPlain t → IsPlain (s ++ b'.' ∷ t)
unfolding has
IsPlain-append s t p q = record {
  no_open = ground (arith, has-append b'[' s (b'.' ∷ t), p.no_open, q.no_open);
  no_close = ground (arith, has-append b']' s (b'.' ∷ t), p.no_close, q.no_close);
}

module _ {ℓ κ} {W : Type ℓ} {C : Type κ} where
  -- A name that ends in the suffix, where the cases of the letters of both may differ, is dialed as
  -- its subdomain in lower case at the same port, where the subdomain is not empty, no part of the
  -- name has brackets and the port no colon. A subdomain with colons, an IPv6 address, gets its
  -- brackets back.
  pub dial_context-subdomain :
      (dialer : ContextDialer W C) (c : ℕ) (subdomain zone suffix network port : Bytes) (w : W)
      → to_lower zone ≡ to_lower suffix
      → IsPlain (c ∷ subdomain)
      → IsPlain zone
      → IsPlain port
      → has b':' port ≡ false
      → dial_context dialer suffix network (join_host_port (c ∷ subdomain ++ b'.' ∷ zone) port) w
        ≡ dialer network (join_host_port (to_lower (c ∷ subdomain)) port) w
  unfolding dial_context
  dial_context-subdomain dialer c subdomain zone suffix network port w same ps pf pp np = ground (
    arith,
    split_host_port-join_host_port (c ∷ subdomain ++ b'.' ∷ zone) port
        (IsPlain-append (c ∷ subdomain) zone ps pf) pp np,
    to_lower-append (c ∷ subdomain) (b'.' ∷ zone),
    to_lower-cons c subdomain,
    to_lower-cons b'.' zone,
    to_lower-cons b'.' suffix,
    same,
    cut_suffix-append (to_lower (c ∷ subdomain)) (to_lower (b'.' ∷ suffix)),
  )
