-- ===== src/Dialer/ByHost.antt =====
-- pkg/dialer/by_host.go and pkg/dialer/ruleset.go: the dialer that the rules choose.
--
-- A dialer is a handle of a type D, and a rule's dialer may be nil. Package net's resolver is a
-- parameter: `lookup_ip` gives the addresses of a host in their text form, or an error.
pub mod Route
use flakes.Common.{
  if◌then◌else◌, List, [], ◌∷◌, map, Option, none, some, Bytes, bytes_eq, split_host_port,
  join_host_port,
}
use flakes.Trie.Table.{Trie, Runtime, insert, find, walk}
use flakes.Dialer.Context.{bad_address, ContextDialer, Returned}

abbrev pub RuleSet {ℓ} : Type ℓ → Type ℓ
RuleSet D = Trie (Option D)

module _ {ℓ} {D : Type ℓ} (rt : Runtime) where
  -- `RuleSet.Add`
  unfoldable pub add : RuleSet D → Bytes → Option D → RuleSet D
  add rs host p = insert rt rs host p

  -- `RuleSet.Hosts`, to the end, of a rule set that may be nil.
  unfoldable pub hosts : Option (RuleSet D) → List Bytes
  hosts none = []
  hosts (some rs) = map (λ e. e.0) (walk rt rs)

  -- `RuleSet.Match`, likewise; `some none` is the result `(nil, true)`.
  unfoldable pub find_rule : Option (RuleSet D) → Bytes → Option (Option D)
  find_rule none host = none
  find_rule (some rs) host = find rt none rs host

  -- The address to dial and the rule, after the local resolver.
  unfoldable pub resolved :
      Option (RuleSet D)
      → Bytes
      → Bytes
      → Bytes
      → Option (Option D)
      → Option (List Bytes)
      → Bytes × Option (Option D)
  resolved rs address host port found none = (address, found)
  resolved rs address host port found (some []) = (address, found)
  resolved rs address host port found (some (ip ∷ ips)) =
      if bytes_eq ip host
      then (address, found)
      else (join_host_port ip port, elim found [ some pd ↦ some pd | none ↦ find_rule rs ip ])

module _ {ℓ} {D : Type ℓ} (by_default : Option D) (direct : D) where
  -- The dialer where `pd` is nil, and where it is not.
  unfoldable pub chosen : Option (Option D) → D
  chosen (some (some pd)) = pd
  chosen (some none) = elim by_default [ some pd ↦ pd | none ↦ direct ]
  chosen none = elim by_default [ some pd ↦ pd | none ↦ direct ]

module _ {ℓ κ ι} {D : Type ℓ} {W : Type κ} {C : Type ι} (rt : Runtime) (by_default : Option D)
    (direct : D) (lookup_ip : Bytes → W → Option (List Bytes) × W)
    (dial : D → ContextDialer W C) where
  -- `ByHost.DialContext`
  unfoldable pub dial_context : Option (RuleSet D) → ContextDialer W C
  unfolding find_rule resolved chosen
  dial_context rs network address w = elim (split_host_port address) [
    | none ↦ ((none, some bad_address), w)
    | some (host, port) ↦
        let (ips, w') = lookup_ip host w in
        let (address', found) = resolved rt rs address host port (find_rule rt rs host) ips in
        dial (chosen by_default direct found) network address' w'
  ]
