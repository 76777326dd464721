-- ===== src/Netutil/Hpkp/Pins.antt =====
-- Which chains of certificates a pin accepts.
use flakes.Common.{
  ◌≡◌, refl, Bool, true, false, if◌then◌else◌, List, [], ◌∷◌, ◌++◌, Option, none, Bytes, bytes_eq,
  bytes_eq_refl, All, ◌⊎◌, inr,
}
use flakes.Netutil.Hpkp.{PinError, verify_peer_certificate}

either-none : (b : Bool) (r : Option PinError) → r ≡ none → (if b then none else r) ≡ none
either-none true r e = refl
either-none false r e = e

module _ (key_of : Bytes → Bytes ⊎ Bytes) (sum256 : Bytes → Bytes) where
  -- A chain passes where its last certificate has the pinned key and the ones in front of it can be
  -- read, whoever they are of.
  chain-passes :
      (fp raw der : Bytes) (front : List Bytes)
      → key_of raw ≡ inr der
      → sum256 der ≡ fp
      → All (λ (c : Bytes). (k : Bytes) × (key_of c ≡ inr k)) front
      → verify_peer_certificate key_of sum256 fp (front ++ raw ∷ []) ≡ none
  unfolding verify_peer_certificate
  chain-passes fp raw der [] e h all = rw (verify_peer_certificate, e, h, bytes_eq_refl fp) refl
  chain-passes fp raw der (c ∷ front) e h all =
      let (k, read) = all.0 in
      rw (verify_peer_certificate, read, chain-passes fp raw der front e h all.1)
        (either-none (bytes_eq (sum256 k) fp) none refl)
