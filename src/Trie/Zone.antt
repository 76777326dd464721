-- ===== src/Trie/Zone.antt =====
-- pkg/trie/zone.go: wildcard zones, as a tree of labels beside a map of values.
pub mod Status
pub mod Spec
pub mod Loops
pub mod Match
use flakes.Common.{
  ℕ, zero, suc, ◌+◌, if◌then◌else◌, List, [], ◌∷◌, reverse, Option, none, some, Bytes, Map, get,
  put, bytes_eq, split, join, to_lower, trim_space, length, take, drop,
}

-- `node`: a Go map from labels to nodes, or nil.
mutual
  pub data Node : Type 0 where
    nil : Node
    node : Entries → Node

  pub data Entries : Type 0 where
    end : Entries
    entry : Bytes → Node → Entries → Entries

-- `child, ok := n[l]`
unfoldable pub child : Bytes → Entries → Option Node
child l end = none
child l (entry k c es) = if bytes_eq k l then some c else child l es

-- `n[l] = c`
unfoldable pub set_child : Bytes → Node → Entries → Entries
set_child l c end = entry l c end
set_child l c (entry k d es) = if bytes_eq k l then entry k c es else entry k d (set_child l c es)

-- `child, ok := n[l]`, where `n` may be the nil map.
unfoldable pub look_up : Bytes → Node → Option Node
unfolding child
look_up l nil = none
look_up l (node es) = child l es

-- `for j := range i { child = node{labels[j]: child} }`
unfoldable pub wrap : Node → List Bytes → Node
wrap c [] = c
wrap c (l ∷ ls) = wrap (node (entry l c end)) ls

-- The loop of `Insert` over the labels from the last to the first, in the map `n`.
unfoldable pub insert_path : Entries → List Bytes → Entries
unfolding child set_child wrap
insert_path n [] = n
insert_path n (l ∷ before) = elim (child l n) [
  | none ↦ set_child l (wrap nil (reverse before)) n
  | some nil ↦ set_child l (wrap nil (reverse before)) n
  | some (node m) ↦ set_child l (node (insert_path m before)) n
]

pub record Zone {ℓ} (V : Type ℓ) : Type ℓ where
  pub root : Node
  pub values : Map V

-- The separator of `splitHost`.
abbrev pub dot : ℕ
dot = b'.'

unfoldable pub split_host : Bytes → List Bytes
split_host = split dot

unfoldable pub canonocalize_host : Bytes → Bytes
canonocalize_host host = to_lower (trim_space host)

-- The entries of the root, which `Insert` makes where the map is nil.
unfoldable pub made : Node → Entries
made nil = end
made (node es) = es

-- How the loop of `Match` ends: at a label that has no entry, at a nil entry, or at label 0.
pub data Walk : Type 0 where
  missing : ℕ → Walk
  leaf : ℕ → Walk
  through : Walk

-- The loop of `Match` over the labels from the last to the first.
unfoldable pub walk : Node → List Bytes → Walk
walk n [] = through
walk n (l ∷ before) = elim (look_up l n) [
  | none ↦ missing (length before)
  | some nil ↦ leaf (length before)
  | some (node m) ↦ walk (node m) before
]

-- `for i := 0; i <= j; i++ { offset += len(labels[i]) + 1 }`
unfoldable pub sum_offset : List Bytes → ℕ
sum_offset [] = 0
sum_offset (l ∷ ls) = length l + 1 + sum_offset ls

module _ {ℓ} {V : Type ℓ} where
  unfoldable pub empty : Zone V
  empty = record { root = nil; values = [] }

  -- `Zone.Insert`
  unfoldable pub insert : Zone V → Bytes → V → Zone V
  unfolding insert_path made canonocalize_host split_host
  insert w zone value =
      let zone' = canonocalize_host zone in
      record {
        root = node (insert_path (made w.root) (reverse (split_host zone')));
        values = put zone' value w.values;
      }

  -- The second loop of `Match`, at the labels that are left.
  unfoldable pub backtrack : Map V → Bytes → ℕ → List Bytes → Option V
  backtrack values host offset [] = none
  backtrack values host offset (l ∷ ls) =
      let rest = backtrack values host (offset + (length l + 1)) ls in
      elim (get (drop offset host) values) [ none ↦ rest | some v ↦ some v ]

  -- What follows the first loop of `Match`; `zero_value` is V's.
  unfoldable pub after_walk : V → Map V → Bytes → List Bytes → Walk → Option V
  unfolding backtrack sum_offset
  after_walk zero_value values host labels (leaf i) = elim (get (join dot (drop i labels)) values) [
    | none ↦ some zero_value
    | some v ↦ some v
  ]
  after_walk zero_value values host labels (missing j) =
      backtrack values host (sum_offset (take (suc j) labels)) (drop (suc j) labels)
  after_walk zero_value values host labels through =
      backtrack values host (sum_offset (take 1 labels)) (drop 1 labels)

  -- `Zone.Match`
  unfoldable pub find : V → Zone V → Bytes → Option V
  unfolding walk after_walk canonocalize_host split_host
  find zero_value w host =
      let host' = canonocalize_host host in
      let labels = split_host host' in
      after_walk zero_value w.values host' labels (walk w.root (reverse labels))
