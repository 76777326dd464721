-- ===== src/Dialer/Rewriting.antt =====
-- pkg/dialer/rewriting.go: a dialer for the names `*.<label>.pacman`.
pub mod Suffix
use flakes.Common.{
  ◌∷◌, [], ◌≡◌, none, some, Bytes, cut_suffix, to_lower, split_host_port, join_host_port, Option,
}
use flakes.Dialer.Context.{Error, bad_address, invalid_hostname, ContextDialer}

-- What `DialContext` hands to the dialer below: an address, or an error.
pub data Rewritten : Type 0 where
  address_is : Bytes → Rewritten
  refused : Error → Rewritten

unfoldable pub rewrite_host : Bytes → Bytes → Bytes → Bytes → Rewritten
rewrite_host suffix host port address =
    elim (cut_suffix (to_lower host) (to_lower (b'.' ∷ suffix))) [
      | none ↦ address_is address
      | some [] ↦ refused invalid_hostname
      | some (c ∷ subdomain) ↦ address_is (join_host_port (c ∷ subdomain) port)
    ]

unfoldable pub rewrite : Bytes → Bytes → Rewritten
unfolding rewrite_host
rewrite suffix address = elim (split_host_port address) [
  | none ↦ refused bad_address
  | some (host, port) ↦ rewrite_host suffix host port address
]

module _ {ℓ κ} {W : Type ℓ} {C : Type κ} where
  -- `RewritingDialer.DialContext`
  unfoldable pub dial_context : ContextDialer W C → Bytes → ContextDialer W C
  unfolding rewrite
  dial_context dialer suffix network address w = elim (rewrite suffix address) [
    | refused err ↦ ((none, some err), w)
    | address_is address' ↦ dialer network address' w
  ]
