-- ===== src/Tests/Trie.antt =====
-- pkg/trie on the rules of trie_test.go and on small networks.
use flakes.Common.{
  ℕ, ◌+◌, ◌^◌, ◌≡◌, refl, List, [], ◌∷◌, none, some, arith, Bytes, codes, get, put, bytes_eq, split,
  join, to_lower, trim_space, cut_prefix, length,
}
use flakes.Trie.Net.{IpNet, to_4, mask_size, contains}
use flakes.Trie.Cidr.{
  Cidr, CidrNode, find_value, insert_at, ranged, left_behind, slices_insert, insert_round,
  insert_loop, append_node,
}
use flakes.Trie.Cidr
use flakes.Trie.Cidr.Match as CidrMatch
use flakes.Trie.Cidr.Growth as CidrGrowth
use flakes.Trie.Zone.{
  Zone, canonocalize_host, split_host, child, set_child, look_up, wrap, insert_path, made, walk,
  backtrack, sum_offset, after_walk,
}
use flakes.Trie.Zone
use flakes.Trie.Zone.Spec.{zone_spec}
use flakes.Trie.Zone.Match as ZoneMatch
use flakes.Trie.Host
use flakes.Trie.Table.{Runtime, empty, insert, find}
use flakes.Trie.Table.Rules.{table_spec, insert_all, find-table_spec}

program : Unit {0}
unfolding get put bytes_eq split join to_lower trim_space cut_prefix to_4 mask_size contains
    Cidr.empty Cidr.insert Cidr.find_value insert_round slices_insert insert_at ranged left_behind
    CidrMatch.insert_all Zone.empty Zone.insert Zone.find ZoneMatch.insert_all Host.insert Host.find
    empty insert find insert_all look_up
program = tt

-- A runtime that doubles the capacity and takes no text for a network or an address.
abbrev plain : Runtime
plain = record {
  grow = λ old need. need + old;
  parse_cidr = λ s. none;
  parse_ip = λ s. none;
  show_net = λ n. [];
}

abbrev rules : List (Bytes × ℕ)
rules =
    (codes "*.example.com", 1)
    ∷ (codes "*.test.example.com", 2)
    ∷ (codes "api.test.example.com", 3)
    ∷ (codes "*.Example.ORG", 4)
    ∷ []

wild : find plain 0 (insert_all plain empty rules) (codes "no.match.example.com") ≡ some 1
unfolding program
wild = refl

literal : find plain 0 (insert_all plain empty rules) (codes "api.test.example.com") ≡ some 3
unfolding program
literal = refl

upper_case : find plain 0 (insert_all plain empty rules) (codes "FOO.EXAMPLE.ORG") ≡ some 4
unfolding program
upper_case = refl

-- A zone's own name is found while no zone lies below it, and not afterwards.
apex_found : find plain 0 (insert_all plain empty rules) (codes "example.org") ≡ some 4
unfolding program
apex_found = refl

apex_hidden : find plain 0 (insert_all plain empty rules) (codes "example.com") ≡ none
unfolding program
apex_hidden = refl

find-table_spec_example :
    find plain 0 (insert_all plain empty rules) (codes "x.test.example.com")
    ≡ table_spec plain rules (codes "x.test.example.com")
find-table_spec_example = find-table_spec plain rules 0 (codes "x.test.example.com")

abbrev zones : List (Bytes × ℕ)
zones = (codes "b.c", 1) ∷ (codes "a.b.c", 2) ∷ []

find-zone_spec_example :
    let w = ZoneMatch.insert_all Zone.empty zones in
    Zone.find 0 w (codes "b.c") ≡ zone_spec w.values (split_host (canonocalize_host (codes "b.c")))
find-zone_spec_example = ZoneMatch.find-zone_spec zones 0 (codes "b.c")

abbrev ten : IpNet
ten = record { ip = 10 ∷ 0 ∷ 0 ∷ 0 ∷ []; mask = 255 ∷ 0 ∷ 0 ∷ 0 ∷ [] }

abbrev ten_one : IpNet
ten_one = record { ip = 10 ∷ 1 ∷ 0 ∷ 0 ∷ []; mask = 255 ∷ 255 ∷ 0 ∷ 0 ∷ [] }

abbrev networks : List (IpNet × ℕ)
networks = (ten, 1) ∷ (ten_one, 2) ∷ []

abbrev doubling : ℕ → ℕ → ℕ
doubling old need = need + old

longest :
    find_value (CidrMatch.insert_all doubling Cidr.empty networks) (10 ∷ 1 ∷ 2 ∷ 3 ∷ []) ≡ some 2
unfolding program
longest = refl

find_value-longest_example :
    find_value (CidrMatch.insert_all doubling Cidr.empty networks) (10 ∷ 1 ∷ 2 ∷ 3 ∷ [])
    ≡ CidrMatch.longest_prefix networks (10 ∷ 1 ∷ 2 ∷ 3 ∷ [])
find_value-longest_example = CidrMatch.find_value-longest doubling (10 ∷ 1 ∷ 2 ∷ 3 ∷ []) networks

length-insert_all_example :
    length (CidrMatch.insert_all doubling Cidr.empty networks).items + 1 ≡ 2 ^ 2
unfolding mask_size
length-insert_all_example = CidrGrowth.length-insert_all doubling networks (omega arith)
