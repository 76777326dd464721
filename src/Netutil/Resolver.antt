-- ===== src/Netutil/Resolver.antt =====
-- pkg/netutil/resolver.go: a resolver that asks given DNS servers.
--
-- What the dial function and the resolver of package net answer are parameters.
use flakes.Common.{
  ℕ, zero, suc, ◌-◌, List, [], ◌∷◌, ◌++◌, Option, none, some, Bytes, codes, length, cut_prefix, ◌⊎◌,
  inl, inr,
}

-- The errors of the dial: those of `errors.Join`, or that there is no server.
pub data DialError : Type 0 where
  no_servers : DialError
  joined : List Bytes → DialError

-- The loop over the servers: `dial` gives a connection or an error, and changes the world.
unfoldable pub dial_each {ℓ κ} :
    {W : Type ℓ} {C : Type κ}
    → (Bytes → W → (Bytes ⊎ C) × W)
    → List Bytes
    → List Bytes
    → W
    → (DialError ⊎ C) × W
dial_each dial errs [] w = (inl (joined errs), w)
dial_each dial errs (addr ∷ servers) w =
    let (got, w') = dial addr w in
    let on_error : Bytes → (DialError ⊎ _) × _ =
      λ err. dial_each dial (errs ++ err ∷ []) servers w' in
    elim got [ inr conn ↦ (inr conn, w') | inl err ↦ on_error err ]

-- `Dial` of the resolver
unfoldable pub dial_servers {ℓ κ} :
    {W : Type ℓ} {C : Type κ} → (Bytes → W → (Bytes ⊎ C) × W) → List Bytes → W → (DialError ⊎ C) × W
unfolding dial_each
dial_servers dial [] w = (inl no_servers, w)
dial_servers dial (addr ∷ servers) w = dial_each dial [] (addr ∷ servers) w

-- `strings.ReplaceAll` of a text that is not empty; `skip` bytes are part of a replaced one.
unfoldable pub replace_from : Bytes → Bytes → ℕ → Bytes → Bytes
unfolding cut_prefix
replace_from old new skip [] = []
replace_from old new (suc skip) (c ∷ s) = replace_from old new skip s
replace_from old new zero (c ∷ s) =
    let rest = replace_from old new (length old - 1) s in
    let kept = c ∷ replace_from old new zero s in
    elim (cut_prefix (c ∷ s) old) [ none ↦ kept | some t ↦ new ++ rest ]

-- What the lookup of package net gives, and the server that was attempted, if any.
pub record Lookup : Type 0 where
  pub ips : List Bytes
  pub err : Option Bytes
  pub attempted : Bytes

-- `resolver.LookupIP`
unfoldable pub lookup_ip : Lookup → List Bytes × Option Bytes
unfolding replace_from
lookup_ip r = elim r.err [
  | none ↦ (r.ips, none)
  | some err ↦ elim r.attempted [
    | [] ↦ (r.ips, none)
    | c ∷ s ↦ ([], some (replace_from (c ∷ s) (codes "x.x.x.x") 0 err))
  ]
]
