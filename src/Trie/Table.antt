-- ===== src/Trie/Table.antt =====
-- pkg/trie/trie.go: the rule table, and pkg/dialer/ruleset.go, which wraps it.
--
-- `net.ParseCIDR` and `net.ParseIP` are parameters: the theorems hold whatever they accept.
pub mod Rules
use flakes.Common.{
  ℕ, ◌++◌, if◌then◌else◌, Bool, List, [], ◌∷◌, map, Option, none, some, Bytes, Map, cut_prefix,
  codes,
}
use flakes.Trie.Net.{IpNet}
use flakes.Trie.Cidr.{Cidr, CidrNode}
use flakes.Trie.Cidr
use flakes.Trie.Host
use flakes.Trie.Zone.{Zone}
use flakes.Trie.Zone

pub record Trie {ℓ} (V : Type ℓ) : Type ℓ where
  pub host : Map V
  pub zone : Zone V
  pub cidr : Cidr V

-- What the table takes from the runtime and from package net.
pub record Runtime : Type 0 where
  pub grow : ℕ → ℕ → ℕ
  pub parse_cidr : Bytes → Option IpNet
  pub parse_ip : Bytes → Option Bytes
  pub show_net : IpNet → Bytes

-- The forms of a rule, in the order in which `Insert` tries them.
pub data Form : Type 0 where
  network : IpNet → Form
  domain : Bytes → Form
  wildcard : Bytes → Form
  exact : Bytes → Form

module _ {ℓ} {V : Type ℓ} where
  unfoldable pub empty : Trie V
  unfolding Zone.empty Cidr.empty
  empty = record { host = []; zone = Zone.empty; cidr = Cidr.empty }

  module _ (rt : Runtime) where
    -- `Trie.Insert`
    unfoldable pub insert : Trie V → Bytes → V → Trie V
    insert m host value = elim (rt.parse_cidr host) [
      | some ipnet ↦ record m { cidr = Cidr.insert rt.grow m.cidr ipnet value }
      | none ↦ elim (cut_prefix host (codes ".")) [
        | some base ↦ record m {
          zone = Zone.insert m.zone base value;
          host = Host.insert m.host base value;
        }
        | none ↦ elim (cut_prefix host (codes "*.")) [
          | some base ↦ record m { zone = Zone.insert m.zone base value }
          | none ↦ record m { host = Host.insert m.host host value }
        ]
      ]
    ]

    -- `Trie.Match`; `zero_value` is V's.
    unfoldable pub find : V → Trie V → Bytes → Option V
    find zero_value m host = elim (Host.find m.host host) [
      | some v ↦ some v
      | none ↦ elim (rt.parse_ip host) [
        | some ip ↦ Cidr.find_value m.cidr ip
        | none ↦ Zone.find zero_value m.zone host
      ]
    ]

    -- `Trie.Walk`, to the end: the keys and values that it yields.
    unfoldable pub walk : Trie V → List (Bytes × V)
    walk m =
        m.host
        ++ (map (λ e. (codes "*." ++ e.0, e.1)) m.zone.values
            ++ map (λ n. (rt.show_net n.network, n.value)) m.cidr.items)
