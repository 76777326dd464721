-- ===== src/Tests/Dialers.antt =====
-- pkg/dialer: the chain, the rewriting dialer and the rules, where a world counts the calls.
use flakes.Common.{
  ℕ, suc, ◌+◌, ◌≡◌, refl, List, [], ◌∷◌, Option, none, some, Bytes, codes, has, join_host_port,
  split_host_port, to_lower, bytes_eq, last_index,
}
use flakes.Dialer.Context.{Error, other, ContextDialer}
use flakes.Dialer.Chain
use flakes.Dialer.Chain.Order.{Tries, dial_context-Tries}
use flakes.Dialer.Rewriting
use flakes.Dialer.Rewriting.Suffix.{dial_context-subdomain}
use flakes.Dialer.ByHost
use flakes.Dialer.ByHost.Route.{rule_for, dialer_of, target, replacement, dial_context-rules}
use flakes.Trie.Table.{Runtime, empty}
use flakes.Trie.Table.Rules.{insert_all}

abbrev refuses : ContextDialer ℕ Bytes
refuses network address w = ((none, some (other 1)), suc w)

-- The connection is its address.
abbrev accepts : ContextDialer ℕ Bytes
accepts network address w = ((some address, none), suc w)

abbrev live : ℕ → Option Error
live w = none

abbrev three : List (ContextDialer ℕ Bytes)
three = refuses ∷ accepts ∷ refuses ∷ []

second : Chain.dial_context live three [] (codes "h:1") 0 ≡ ((some (codes "h:1"), none), 2)
unfolding Chain.dial_context
second = refl

dial_context-Tries_example :
    let result = Chain.dial_context live three [] (codes "h:1") 0 in
    Tries live [] (codes "h:1") 0 three [] result.0 result.1
dial_context-Tries_example = dial_context-Tries live [] (codes "h:1") three 0

dial_context-subdomain_example :
    Rewriting.dial_context accepts
      (codes "ocna.pacman")
      []
      (join_host_port (codes "DB.OCNA.pacman") (codes "80"))
      0
    ≡ accepts [] (join_host_port (to_lower (codes "DB")) (codes "80")) 0
unfolding has to_lower
dial_context-subdomain_example =
    dial_context-subdomain accepts b'D' (codes "B") (codes "OCNA.pacman") (codes "ocna.pacman") []
      (codes "80") 0 refl (record { no_open = refl; no_close = refl })
      (record { no_open = refl; no_close = refl }) (record { no_open = refl; no_close = refl }) refl

-- A runtime that takes no text for a network or an address.
abbrev plain : Runtime
plain = record {
  grow = λ old need. need + old;
  parse_cidr = λ s. none;
  parse_ip = λ s. none;
  show_net = λ n. [];
}

-- The resolver has one address for every host.
abbrev lookup : Bytes → ℕ → Option (List Bytes) × ℕ
lookup host w = (some (codes "10.0.0.1" ∷ []), suc w)

abbrev dial : ℕ → ContextDialer ℕ ℕ
dial d network address w = ((some d, none), suc w)

abbrev rules : List (Bytes × Option ℕ)
rules = (codes "a.b", some 7) ∷ (codes "c.d", none) ∷ []

dial_context-rules_example :
    ByHost.dial_context plain
      (some 1)
      0
      lookup
      dial
      (some (insert_all plain empty rules))
      []
      (codes "a.b:80")
      0
    ≡ dial
        (dialer_of 0 (some 1) (rule_for plain rules (codes "a.b") (some (codes "10.0.0.1"))))
        []
        (target (codes "a.b:80") (codes "80") (some (codes "10.0.0.1")))
        1
unfolding split_host_port last_index bytes_eq replacement has
dial_context-rules_example =
    dial_context-rules plain (some 1) 0 lookup dial rules [] (codes "a.b:80") 0
