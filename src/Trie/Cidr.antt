-- ===== src/Trie/Cidr.antt =====
-- pkg/trie/cidr.go: the list of networks, with Go's slices as they are.
--
-- `range *t` reads the slice header once, and `slices.Insert` writes into the ranged array while
-- that has room. So the loop keeps what it ranges over: the slice itself, or the array that a
-- reallocation left behind.
pub mod Placed
pub mod Match
pub mod Growth
use flakes.Common.{
  ℕ, zero, suc, ◌+◌, if◌then◌else◌, ltb, List, [], ◌∷◌, ◌++◌, Option, none, some, Bytes, length,
  get_elem?,
}
use flakes.Trie.Net.{IpNet, mask_size, contains}

pub record CidrNode {ℓ} (V : Type ℓ) : Type ℓ where
  pub network : IpNet
  pub value : V

-- `CIDR[V]`: its elements and the capacity of the array.
pub record Cidr {ℓ} (V : Type ℓ) : Type ℓ where
  pub items : List (CidrNode V)
  pub capacity : ℕ

-- The array that the loop reads, where it is no longer that of the slice.
abbrev pub Ranged {ℓ} : Type ℓ → Type ℓ
Ranged V = Option (List (CidrNode V))

module _ {ℓ} {V : Type ℓ} where
  unfoldable pub empty : Cidr V
  empty = record { items = []; capacity = 0 }

  -- The first result of `Network.Mask.Size()`.
  abbrev pub ones : CidrNode V → ℕ
  ones n = mask_size n.network.mask

  unfoldable pub insert_at : ℕ → CidrNode V → List (CidrNode V) → List (CidrNode V)
  insert_at zero m t = m ∷ t
  insert_at (suc i) m [] = m ∷ []
  insert_at (suc i) m (e ∷ t) = e ∷ insert_at i m t

  unfoldable pub ranged : Ranged V → Cidr V → List (CidrNode V)
  ranged none t = t.items
  ranged (some old) t = old

  -- The array that the loop reads after `t` is reallocated.
  unfoldable pub left_behind : Ranged V → Cidr V → Ranged V
  left_behind none t = some t.items
  left_behind (some old) t = some old

-- `grow` is the runtime's choice of a new capacity, from the old one and the length needed.
module _ {ℓ} {V : Type ℓ} (grow : ℕ → ℕ → ℕ) where
  -- `slices.Insert(*t, i, m)`
  unfoldable pub slices_insert : ℕ → CidrNode V → Ranged V × Cidr V → Ranged V × Cidr V
  slices_insert i m (r, t) =
      if ltb (length t.items) t.capacity then (r, record t { items = insert_at i m t.items }) else (
        left_behind r t,
        record { items = insert_at i m t.items; capacity = grow t.capacity (length t.items + 1) },
      )

  -- One round of the loop, at index `i`.
  unfoldable pub insert_round : ℕ → CidrNode V → Ranged V × Cidr V → Ranged V × Cidr V
  unfolding slices_insert
  insert_round i m (r, t) = elim (get_elem? (ranged r t) i) [
    | none ↦ (r, t)
    | some existing ↦ if ltb (ones existing) (ones m) then slices_insert i m (r, t) else (r, t)
  ]

  -- The rounds `i`, `i + 1`, … that are left.
  unfoldable pub insert_loop : ℕ → ℕ → CidrNode V → Ranged V × Cidr V → Ranged V × Cidr V
  insert_loop zero i m s = s
  insert_loop (suc left) i m s = insert_loop left (suc i) m (insert_round i m s)

  -- `append(*t, m)`
  unfoldable pub append_node : Cidr V → CidrNode V → Cidr V
  append_node t m = record {
    items = t.items ++ m ∷ [];
    capacity =
        if ltb (length t.items) t.capacity
        then t.capacity
        else grow t.capacity (length t.items + 1);
  }

  unfoldable pub insert : Cidr V → IpNet → V → Cidr V
  unfolding insert_loop append_node
  insert t cidr value =
      let m : CidrNode V = record { network = cidr; value = value } in
      append_node (insert_loop (length t.items) 0 m (none, t)).1 m

module _ {ℓ} {V : Type ℓ} where
  -- The loop of `Match`: the first entry that contains the address.
  unfoldable pub first_match : List (CidrNode V) → Bytes → Option (CidrNode V)
  first_match [] ip = none
  first_match (n ∷ t) ip = if contains n.network ip then some n else first_match t ip

  -- `CIDR.Match`
  unfoldable pub find_value : Cidr V → Bytes → Option V
  unfolding first_match
  find_value t ip = elim (first_match t.items ip) [ none ↦ none | some n ↦ some n.value ]
