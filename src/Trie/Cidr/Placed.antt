-- ===== src/Trie/Cidr/Placed.antt =====
-- Where `CIDR.Insert` puts an entry, and the copies that it leaves behind it.

use flakes.Common.{
  ℕ, zero, suc, ◌≤◌, ◌<◌, ◌≡◌, refl, sym, ap, ◌∙◌, ◌⊎◌, inl, inr, List, [], ◌∷◌, ◌++◌, append_assoc,
  append-nil, dec_lt, none, some, arith, length, length-append, get_elem?, All, All-append,
  All-split,
}
use flakes.Trie.Net.{IpNet}
use flakes.Trie.Cidr.{
  CidrNode, Cidr, Ranged, ones, insert_at, ranged, slices_insert, insert_round, insert_loop,
  append_node, insert,
}

module _ {ℓ} {V : Type ℓ} where
  -- The second list is the first with copies of `m` put in anywhere.
  pub data Copies (m : CidrNode V) : List (CidrNode V) → List (CidrNode V) → Type ℓ where
    done : Copies m [] []
    keep : {t r : List (CidrNode V)} (e : CidrNode V) → Copies m t r → Copies m (e ∷ t) (e ∷ r)
    copy : {t r : List (CidrNode V)} → Copies m t r → Copies m t (m ∷ r)

  Copies-self : (m : CidrNode V) (t : List (CidrNode V)) → Copies m t t
  Copies-self m [] = done
  Copies-self m (e ∷ t) = keep e (Copies-self m t)

  Copies-insert_at :
      {m : CidrNode V} (i : ℕ) {t r : List (CidrNode V)}
      → Copies m t r
      → Copies m t (insert_at i m r)
  unfolding insert_at
  Copies-insert_at zero c = copy c
  Copies-insert_at (suc i) done = copy done
  Copies-insert_at (suc i) (keep e c) = keep e (Copies-insert_at i c)
  Copies-insert_at (suc i) (copy c) = copy (Copies-insert_at i c)

  Copies-append :
      {m : CidrNode V} {t r : List (CidrNode V)} → Copies m t r → Copies m t (r ++ m ∷ [])
  Copies-append done = copy done
  Copies-append (keep e c) = keep e (Copies-append c)
  Copies-append (copy c) = copy (Copies-append c)

  abbrev pub HeadBelow : CidrNode V → List (CidrNode V) → Type 0
  HeadBelow m [] = Unit
  HeadBelow m (e ∷ t) = ones e < ones m

  -- `m` stands behind all longer or equal prefixes at the head, and only copies follow.
  pub record Placed (m : CidrNode V) (before t r : List (CidrNode V)) : Type ℓ where
    pub after : List (CidrNode V)
    pub rest : List (CidrNode V)
    pub split : t ≡ before ++ after
    pub placed : r ≡ before ++ m ∷ rest
    pub longer : All (λ e. ones m ≤ ones e) before
    pub shorter : HeadBelow m after
    pub copies : Copies m after rest

  insert_at-length :
      (pre : List (CidrNode V)) (m : CidrNode V) (r : List (CidrNode V))
      → insert_at (length pre) m (pre ++ r) ≡ pre ++ m ∷ r
  unfolding insert_at
  insert_at-length [] m r = refl
  insert_at-length (e ∷ pre) m r = ap (◌∷◌ e) (insert_at-length pre m r)

  get_elem?-length :
      (pre : List (CidrNode V)) (e : CidrNode V) (r : List (CidrNode V))
      → get_elem? (pre ++ e ∷ r) (length pre) ≡ some e
  get_elem?-length [] e r = refl
  get_elem?-length (x ∷ pre) e r = get_elem?-length pre e r

  insert_at_behind :
      (pre : List (CidrNode V)) (m x : CidrNode V) (r : List (CidrNode V)) (i : ℕ)
      → length pre < i
      → (k : ℕ) × (insert_at i m (pre ++ x ∷ r) ≡ pre ++ x ∷ insert_at k m r)
  unfolding insert_at
  insert_at_behind pre m x r zero h = absurd (omega arith)
  insert_at_behind [] m x r (suc i) h = (i, refl)
  insert_at_behind (e ∷ pre) m x r (suc i) h =
      let (k, p) = insert_at_behind pre m x r i (omega arith) in (k, ap (◌∷◌ e) p)

  Placed-insert_at :
      {m : CidrNode V} {before t r : List (CidrNode V)} (i : ℕ)
      → Placed m before t r
      → length before < i
      → Placed m before t (insert_at i m r)
  Placed-insert_at {m} {before} i p h =
      let (k, e) = insert_at_behind before m m p.rest i h in
      record {
        after = p.after;
        rest = insert_at k m p.rest;
        split = p.split;
        placed = rw p.placed e;
        longer = p.longer;
        shorter = p.shorter;
        copies = Copies-insert_at k p.copies;
      }

  Placed-append :
      {m : CidrNode V} {before t r : List (CidrNode V)}
      → Placed m before t r
      → Placed m before t (r ++ m ∷ [])
  Placed-append {m} {before} p = record {
    after = p.after;
    rest = p.rest ++ m ∷ [];
    split = p.split;
    placed = rw p.placed (append_assoc before (m ∷ p.rest) (m ∷ []));
    longer = p.longer;
    shorter = p.shorter;
    copies = Copies-append p.copies;
  }

module _ {ℓ} {V : Type ℓ} (grow : ℕ → ℕ → ℕ) where
  insert_round-items :
      (i : ℕ) (m : CidrNode V) (r : Ranged V) (c : Cidr V)
      → ((insert_round grow i m (r, c)).1.items ≡ c.items)
        ⊎ ((insert_round grow i m (r, c)).1.items ≡ insert_at i m c.items)
  unfolding insert_round
  insert_round-items i m r c = ground arith

  -- In the slots behind the first copy only copies are added, whatever array is read.
  insert_loop-behind :
      (left i : ℕ) (m : CidrNode V) (before t : List (CidrNode V)) (s : Ranged V × Cidr V)
      → Placed m before t s.1.items
      → length before < i
      → Placed m before t (insert_loop grow left i m s).1.items
  unfolding insert_loop
  insert_loop-behind zero i m before t s p h = p
  insert_loop-behind (suc left) i m before t s p h =
      insert_loop-behind left (suc i) m before t (insert_round grow i m s)
        (elim (insert_round-items i m s.0 s.1) [
          | inl e ↦ rw e p
          | inr e ↦ rw e (Placed-insert_at i p h)
        ])
        (omega arith)

  module _ (m : CidrNode V) (c : Cidr V) where
    abbrev At : ℕ → List (CidrNode V) → List (CidrNode V) → Type ℓ
    At i before after = (c.items ≡ before ++ after) × (i ≡ length before)

    insert_round-skip :
        (e : CidrNode V) (i : ℕ) (before after : List (CidrNode V))
        → At i before (e ∷ after)
        → ones m ≤ ones e
        → insert_round grow i m (none, c) ≡ (none, c)
    unfolding insert_round ranged
    insert_round-skip e i before after at h =
        rw (insert_round, at.0, at.1, get_elem?-length before e after) (ground arith)

    insert_round-hit :
        (e : CidrNode V) (i : ℕ) (before after : List (CidrNode V))
        → At i before (e ∷ after)
        → ones e < ones m
        → (insert_round grow i m (none, c)).1.items ≡ before ++ m ∷ e ∷ after
    unfolding insert_round ranged slices_insert
    insert_round-hit e i before after at h =
        ground (arith, at, get_elem?-length before e after, insert_at-length before m (e ∷ after))

    -- From the front: slots are passed over until one holds a shorter prefix.
    insert_loop-ahead :
        (i : ℕ) (before after : List (CidrNode V))
        → At i before after
        → All (λ e. ones m ≤ ones e) before
        → (pre : List (CidrNode V)) × Placed m pre c.items
            ((insert_loop grow (length after) i m (none, c)).1.items ++ m ∷ [])
    unfolding insert_loop
    insert_loop-ahead i before [] at longer = (
      before,
      record {
        after = [];
        rest = [];
        split = at.0;
        placed = rw (at.0, append-nil);
        longer = longer;
        shorter = tt;
        copies = done;
      },
    )
    insert_loop-ahead i before (e ∷ after) at longer = elim (dec_lt (ones e) (ones m)) [
      | yes less ↦ (
        before,
        Placed-append (
            insert_loop-behind (length after) (suc i) m before c.items _
              (record {
                after = e ∷ after;
                rest = e ∷ after;
                split = at.0;
                placed = insert_round-hit e i before after at less;
                longer = longer;
                shorter = less;
                copies = Copies-self m (e ∷ after);
              })
              (omega (arith, at.1))),
      )
      | no more ↦
          rw (insert_loop, insert_round-skip e i before after at (omega arith))
            (insert_loop-ahead (suc i) (before ++ e ∷ []) after
              (
                at.0 ∙ sym (append_assoc before (e ∷ []) after),
                omega (arith, at.1, length-append before (e ∷ [])),
              )
              (All-append (λ x. ones m ≤ ones x) before (e ∷ []) longer (omega arith, tt)))
    ]

  -- Whatever the capacities are, one insertion leaves this shape.
  pub insert-Placed :
      (c : Cidr V) (n : IpNet) (v : V)
      → (before : List (CidrNode V)) × Placed
          (record { network = n; value = v })
          before
          c.items
          (insert grow c n v).items
  unfolding insert append_node
  insert-Placed c n v = insert_loop-ahead _ c 0 [] c.items (refl, refl) tt

module _ {ℓ κ} {V : Type ℓ} (P : CidrNode V → Type κ) where
  Copies-All : {m : CidrNode V} {t r : List (CidrNode V)} → Copies m t r → P m → All P t → All P r
  Copies-All done pm h = tt
  Copies-All (keep e c) pm h = (h.0, Copies-All c pm h.1)
  Copies-All (copy c) pm h = (pm, Copies-All c pm h)

  -- An insertion brings in no entry but its own.
  pub Placed-All :
      (m : CidrNode V) (before t r : List (CidrNode V))
      → Placed m before t r
      → P m
      → All P t
      → All P r
  Placed-All m before t r p pm h =
      let (front, back) = All-split P before p.after (rw p.split at h) in
      rw p.placed (All-append P before (m ∷ p.rest) front (pm, Copies-All p.copies pm back))
