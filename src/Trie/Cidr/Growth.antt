-- ===== src/Trie/Cidr/Growth.antt =====
-- How many entries `CIDR.Insert` adds: its loop has no `break` after `slices.Insert`.
use native.Mathlib.Nat.{pow-suc}
use flakes.Common.{
  ℕ, zero, suc, ◌+◌, ◌*◌, ◌^◌, ◌≤◌, ◌<◌, ◌≡◌, refl, ap, List, [], ◌∷◌, ◌++◌, none, some, arith,
  length, length-append, get_elem?, replicate, length-replicate, All, inl, inr, Bool-cases, ltb,
}
use flakes.Trie.Net.{IpNet, mask_size}
use flakes.Trie.Cidr.{
  CidrNode, Cidr, Ranged, empty, ones, insert_at, ranged, left_behind, slices_insert, insert_round,
  insert_loop, append_node, insert,
}
use flakes.Trie.Cidr.Placed.{insert-Placed, Placed-All}
use flakes.Trie.Cidr.Match.{insert_all}

module _ {ℓ} {V : Type ℓ} where
  length-insert_at :
      (i : ℕ) (m : CidrNode V) (t : List (CidrNode V)) → length (insert_at i m t) ≡ suc (length t)
  unfolding insert_at
  length-insert_at zero m t = refl
  length-insert_at (suc i) m [] = refl
  length-insert_at (suc i) m (e ∷ t) = ap suc (length-insert_at i m t)

  insert_at-replicate :
      (i : ℕ) (m : CidrNode V) (t : List (CidrNode V))
      → insert_at i m (replicate i m ++ t) ≡ replicate (suc i) m ++ t
  unfolding insert_at
  insert_at-replicate zero m t = refl
  insert_at-replicate (suc i) m t = ap (◌∷◌ m) (insert_at-replicate i m t)

  -- All entries of the table have a shorter prefix than `m`.
  abbrev pub Shorter : CidrNode V → List (CidrNode V) → Type 0
  Shorter m = All (λ e. ones e < ones m)

  get_elem?-Shorter :
      (m : CidrNode V) (t : List (CidrNode V)) (i : ℕ)
      → Shorter m t
      → i < length t
      → (e : CidrNode V) × (get_elem? t i ≡ some e) × (ones e < ones m)
  get_elem?-Shorter m [] i s h = absurd (omega arith)
  get_elem?-Shorter m (e ∷ t) zero s h = (e, refl, s.0)
  get_elem?-Shorter m (e ∷ t) (suc i) s h = get_elem?-Shorter m t i s.1 (omega arith)

  get_elem?-replicate :
      (d : ℕ) (m : CidrNode V) (t : List (CidrNode V)) (i : ℕ)
      → Shorter m t
      → d ≤ i
      → i < d + length t
      → (e : CidrNode V) × (get_elem? (replicate d m ++ t) i ≡ some e) × (ones e < ones m)
  get_elem?-replicate zero m t i s h k = get_elem?-Shorter m t i s (omega arith)
  get_elem?-replicate (suc d) m t zero s h k = absurd (omega arith)
  get_elem?-replicate (suc d) m t (suc i) s h k =
      get_elem?-replicate d m t i s (omega arith) (omega arith)

  -- After `i` rounds on the table `t`, each of which inserted `m`.
  Stuffed : CidrNode V → List (CidrNode V) → ℕ → Ranged V → Cidr V → Type ℓ
  Stuffed m t i none c = c.items ≡ replicate i m ++ t
  Stuffed m t i (some old) c =
      (d : ℕ) × (d ≤ i) × (old ≡ replicate d m ++ t) × (length c.items ≡ i + length t)

module _ {ℓ} {V : Type ℓ} (grow : ℕ → ℕ → ℕ) where
  insert_round-hit :
      (i : ℕ) (m e : CidrNode V) (r : Ranged V) (c : Cidr V)
      → get_elem? (ranged r c) i ≡ some e
      → ones e < ones m
      → insert_round grow i m (r, c) ≡ slices_insert grow i m (r, c)
  unfolding insert_round
  insert_round-hit i m e r c found less = rw (insert_round, found) (ground arith)

  slices_insert-Stuffed :
      (m : CidrNode V) (t : List (CidrNode V)) (i : ℕ) (r : Ranged V) (c : Cidr V)
      → Stuffed m t i r c
      → Stuffed m t (suc i) (slices_insert grow i m (r, c)).0 (slices_insert grow i m (r, c)).1
  unfolding Stuffed slices_insert left_behind
  slices_insert-Stuffed m t i none c st = elim (Bool-cases (ltb (length c.items) c.capacity)) [
    | inl room ↦ rw (room, st) (insert_at-replicate i m t)
    | inr full ↦ rw full (
      i,
      omega arith,
      st,
      omega (
        arith,
        length-insert_at i m c.items,
        ap length st,
        length-append (replicate i m) t,
        length-replicate i m,
      ),
    )
  ]
  slices_insert-Stuffed m t i (some old) c (d, low, e, len) =
      elim (Bool-cases (ltb (length c.items) c.capacity)) [
        | inl room ↦ rw room (d, omega arith, e, omega (arith, length-insert_at i m c.items))
        | inr full ↦ rw full (d, omega arith, e, omega (arith, length-insert_at i m c.items))
      ]

  -- Whichever array is read, the slot of a round holds an old entry.
  Stuffed-slot :
      (m : CidrNode V) (t : List (CidrNode V)) (i : ℕ) (r : Ranged V) (c : Cidr V)
      → Shorter m t
      → i < length t
      → Stuffed m t i r c
      → (e : CidrNode V) × (get_elem? (ranged r c) i ≡ some e) × (ones e < ones m)
  unfolding Stuffed ranged
  Stuffed-slot m t i none c sh h st =
      rw st (get_elem?-replicate i m t i sh (omega arith) (omega arith))
  Stuffed-slot m t i (some old) c sh h (d, low, e, len) =
      rw e (get_elem?-replicate d m t i sh low (omega arith))

  Stuffed-length :
      (m : CidrNode V) (t : List (CidrNode V)) (i : ℕ) (r : Ranged V) (c : Cidr V)
      → Stuffed m t i r c
      → length c.items ≡ i + length t
  unfolding Stuffed
  Stuffed-length m t i none c st =
      omega (arith, ap length st, length-append (replicate i m) t, length-replicate i m)
  Stuffed-length m t i (some old) c (d, low, e, len) = len

  insert_loop-Stuffed :
      (left i : ℕ) (m : CidrNode V) (t : List (CidrNode V)) (s : Ranged V × Cidr V)
      → Shorter m t
      → i + left ≡ length t
      → Stuffed m t i s.0 s.1
      → length (insert_loop grow left i m s).1.items ≡ length t + length t
  unfolding insert_loop
  insert_loop-Stuffed zero i m t (r, c) sh h st = omega (arith, Stuffed-length m t i r c st)
  insert_loop-Stuffed (suc left) i m t (r, c) sh h st =
      let (e, found, less) = Stuffed-slot m t i r c sh (omega arith) st in
      rw (insert_loop, insert_round-hit i m e r c found less)
        (insert_loop-Stuffed left (suc i) m t (slices_insert grow i m (r, c)) sh (omega arith)
          (slices_insert-Stuffed m t i r c st))

  -- If every entry of the table has a shorter prefix than the new network, then whatever the
  -- capacities are, `Insert` takes the table from n entries to 2n + 1.
  pub insert-doubles :
      (c : Cidr V) (n : IpNet) (v : V)
      → Shorter (record { network = n; value = v }) c.items
      → length (insert grow c n v).items ≡ length c.items + length c.items + 1
  unfolding insert append_node Stuffed
  insert-doubles c n v sh =
      let m : CidrNode V = record { network = n; value = v } in
      omega (
        arith,
        length-append (insert_loop grow (length c.items) 0 m (none, c)).1.items (m ∷ []),
        insert_loop-Stuffed (length c.items) 0 m c.items (none, c) sh (omega arith) refl,
      )

  -- The prefixes grow from rule to rule, from `k` on.
  abbrev pub Ascending : ℕ → List (IpNet × V) → Type 0
  Ascending k [] = Unit
  Ascending k ((n, v) ∷ rules) = (k ≤ mask_size n.mask) × Ascending (suc (mask_size n.mask)) rules

  abbrev Lower : ℕ → List (CidrNode V) → Type 0
  Lower k = All (λ e. ones e < k)

  Lower-mono : (j k : ℕ) (t : List (CidrNode V)) → j ≤ k → Lower j t → Lower k t
  Lower-mono j k [] h l = tt
  Lower-mono j k (e ∷ t) h l = (omega (arith, l.0), Lower-mono j k t h l.1)

  insert-Lower :
      (c : Cidr V) (n : IpNet) (v : V)
      → Lower (mask_size n.mask) c.items
      → Lower (suc (mask_size n.mask)) (insert grow c n v).items
  insert-Lower c n v low =
      let (before, p) = insert-Placed grow c n v in
      Placed-All (λ e. ones e < suc (mask_size n.mask)) (record { network = n; value = v }) before
        c.items (insert grow c n v).items p (omega arith)
        (Lower-mono (mask_size n.mask) (suc (mask_size n.mask)) c.items (omega arith) low)

  insert_all-doubles :
      (k : ℕ) (rules : List (IpNet × V)) (c : Cidr V)
      → Ascending k rules
      → Lower k c.items
      → suc (length (insert_all grow c rules).items) ≡ suc (length c.items) * 2 ^ length rules
  unfolding insert_all
  insert_all-doubles k [] c a low = omega arith
  insert_all-doubles k ((n, v) ∷ rules) c a low =
      let low' = Lower-mono k (mask_size n.mask) c.items a.0 low in
      rw
        (
          insert_all-doubles (suc (mask_size n.mask)) rules (insert grow c n v) a.1
              (insert-Lower c n v low'),
          insert-doubles c n v low',
          pow-suc,
        )
        (omega arith)

  -- So k networks inserted from the shortest prefix to the longest take 2^k - 1 entries.
  pub length-insert_all :
      (rules : List (IpNet × V))
      → Ascending 0 rules
      → length (insert_all grow empty rules).items + 1 ≡ 2 ^ length rules
  unfolding empty
  length-insert_all rules a = omega (arith, insert_all-doubles 0 rules empty a tt)
