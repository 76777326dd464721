-- ===== src/Dialer/ByHost/Route.antt =====
-- The dialer and the address of a connection, from the list of rules.
use flakes.Common.{
  ◌≡◌, refl, if◌then◌else◌, List, [], ◌∷◌, Option, none, some, Bytes, bytes_eq, split_host_port,
  join_host_port, arith, Option-cases, inl, inr,
}
use flakes.Trie.Table.{Runtime, empty}
use flakes.Trie.Table.Rules.{table_spec, insert_all, find-table_spec}
use flakes.Dialer.Context.{bad_address, ContextDialer}
use flakes.Dialer.ByHost.{find_rule, resolved, chosen, dial_context}

-- The address that replaces a host, if the resolver has another one for it.
unfoldable pub replacement : Bytes → Option (List Bytes) → Option Bytes
replacement host none = none
replacement host (some []) = none
replacement host (some (ip ∷ ips)) = if bytes_eq ip host then none else some ip

module _ {ℓ} {D : Type ℓ} (rt : Runtime) (rules : List (Bytes × Option D)) where
  -- A rule for the host goes before a rule for the address that replaces it.
  unfoldable pub rule_for : Bytes → Option Bytes → Option (Option D)
  rule_for host none = table_spec rt rules host
  rule_for host (some ip) = elim (table_spec rt rules host) [
    | some pd ↦ some pd
    | none ↦ table_spec rt rules ip
  ]

-- The dialer of a rule, the default where there is no rule or its dialer is nil, and the direct one
-- where there is no default.
unfoldable pub dialer_of {ℓ} : {D : Type ℓ} → D → Option D → Option (Option D) → D
dialer_of direct by_default (some (some d)) = d
dialer_of direct (some d) (some none) = d
dialer_of direct (some d) none = d
dialer_of direct none (some none) = direct
dialer_of direct none none = direct

chosen-dialer_of {ℓ} :
    {D : Type ℓ} (direct : D) (by_default : Option D) (found : Option (Option D))
    → chosen by_default direct found ≡ dialer_of direct by_default found
unfolding chosen dialer_of
chosen-dialer_of direct by_default (some (some d)) = refl
chosen-dialer_of direct (some d) (some none) = refl
chosen-dialer_of direct (some d) none = refl
chosen-dialer_of direct none (some none) = refl
chosen-dialer_of direct none none = refl

-- The address that is dialed.
unfoldable pub target : Bytes → Bytes → Option Bytes → Bytes
target address port none = address
target address port (some ip) = join_host_port ip port

module _ {ℓ κ ι} {D : Type ℓ} {W : Type κ} {C : Type ι} (rt : Runtime) (by_default : Option D)
    (direct : D) (lookup_ip : Bytes → W → Option (List Bytes) × W)
    (dial : D → ContextDialer W C) where
  resolved-route :
      (rules : List (Bytes × Option D)) (address host port : Bytes) (ips : Option (List Bytes))
      → let rs = some (insert_all rt empty rules) in
        resolved rt rs address host port (find_rule rt rs host) ips ≡ (
          target address port (replacement host ips),
          rule_for rt rules host (replacement host ips),
        )
  unfolding resolved find_rule target rule_for replacement
  resolved-route rules address host port none = rw (find-table_spec rt rules none host)
  resolved-route rules address host port (some []) = rw (find-table_spec rt rules none host)
  resolved-route rules address host port (some (ip ∷ ips)) =
      ground (arith, find-table_spec rt rules none host, find-table_spec rt rules none ip)

  -- With the rule set that a list of rules gives, a connection goes to the dialer of the rule for
  -- its host, failing that to the dialer of the rule for the address that the resolver puts in the
  -- host's place, and failing both, or where the rule's dialer is nil, to the default, or to
  -- `proxy.Direct` if there is none; the address is the resolver's where it differs from the host.
  -- An address that does not split is an error, and nothing is looked up or dialed. The resolver is
  -- the local one: a name that it does not resolve is not looked up again through a proxy.
  pub dial_context-rules :
      (rules : List (Bytes × Option D)) (network address : Bytes) (w : W)
      → dial_context rt by_default direct lookup_ip dial
          (some (insert_all rt empty rules))
          network
          address
          w
        ≡ (elim (split_host_port address) [
          | none ↦ ((none, some bad_address), w)
          | some (host, port) ↦
              let (ips, w') = lookup_ip host w in
              let other = replacement host ips in
              dial
                (dialer_of direct by_default (rule_for rt rules host other))
                network
                (target address port other)
                w'
        ])
  unfolding dial_context
  dial_context-rules rules network address w = elim (Option-cases (split_host_port address)) [
    | inl bad ↦ rw (dial_context, bad)
    | inr ((host, port), e) ↦ rw (
      dial_context,
      e,
      resolved-route rules address host port (lookup_ip host w).0,
      chosen-dialer_of direct by_default
          (rule_for rt rules host (replacement host (lookup_ip host w).0)),
    )
  ]
