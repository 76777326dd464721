-- ===== src/Trie/Zone/Loops.antt =====
-- The tree that `Zone.Insert` builds, and the two loops of `Zone.Match`.
use mathlib.Core.List.{reverse-cons}
use flakes.Common.{
  ℕ, zero, suc, ◌+◌, ◌≡◌, refl, ap, ◌∙◌, sym, ◌≢◌, inl, inr, List, [], ◌∷◌, ◌++◌, append_assoc,
  append-nil, reverse, none, some, arith, Bytes, Option-cases, Map, get, join, drop, take, length,
  drop-drop, drop_nil, length-append,
}
use flakes.Common.Labels.{drop-label}
use flakes.Trie.Zone.{
  Node, nil, node, Entries, child, look_up, made, dot, canonocalize_host, Walk, missing, leaf,
  through, walk, Zone, empty, insert, backtrack, sum_offset,
}
use flakes.Trie.Zone.Status.{
  Status, absent, bottom, inner, status, status-child, status-insert_path,
}
use flakes.Trie.Zone.Spec.{path_of, deeper, listed, spec_status, first_zone, spec_status-put}

pub drop-sum_offset :
    (n : ℕ) (ls : List Bytes)
    → drop n ls ≢ []
    → drop (sum_offset (take n ls)) (join dot ls) ≡ join dot (drop n ls)
unfolding sum_offset
drop-sum_offset zero ls h = refl
drop-sum_offset (suc n) [] h = absurd (h refl)
drop-sum_offset (suc n) (l ∷ []) h = absurd (h (drop_nil n))
drop-sum_offset (suc n) (l ∷ k ∷ ls) h =
    rw
      (
        drop-drop (length l + 1) (sum_offset (take n (k ∷ ls))) (join dot (l ∷ k ∷ ls)),
        drop-label dot l k ls,
      )
      (drop-sum_offset n (k ∷ ls) h)

length-reverse {ℓ} : {A : Type ℓ} (xs : List A) → length (reverse xs) ≡ length xs
length-reverse [] = refl
length-reverse (x ∷ xs) =
    rw reverse-cons (omega (arith, length-append (reverse xs) (x ∷ []), length-reverse xs))

pub drop-length {ℓ} : {A : Type ℓ} (xs ys : List A) → drop (length xs) (xs ++ ys) ≡ ys
drop-length [] ys = refl
drop-length (x ∷ xs) ys = drop-length xs ys

-- Below a nil entry, or where there is none, no path is in the tree.
pub status-extend :
    (n : Node) (q r : List Bytes) (x : Bytes) → status n q ≢ inner → status n (q ++ x ∷ r) ≡ absent
unfolding status look_up
status-extend nil [] r x h = refl
status-extend (node es) [] r x h = absurd (h refl)
status-extend nil (l ∷ q) r x h = refl
status-extend (node es) (l ∷ q) r x h = elim (Option-cases (child l es)) [
  | inl e ↦ rw (status-child, e)
  | inr (c, e) ↦
      rw (status-child, e) (status-extend c q r x (λ i. h (rw (status-child l q es, e) i)))
]

-- Where the loop of `Match` ends, with the labels split there.
abbrev pub SplitAt : Node → List Bytes → ℕ → Status → Type 0
SplitAt root ls i s =
    (front : List Bytes) × (l : Bytes) × (back : List Bytes) × (ls ≡ front ++ l ∷ back)
    × (length front ≡ i)
    × (status root (reverse (l ∷ back)) ≡ s)

abbrev pub Ends : Node → List Bytes → Walk → Type 0
Ends root ls (missing j) = SplitAt root ls j absent
Ends root ls (leaf i) = SplitAt root ls i bottom
Ends root ls through = status root (reverse ls) ≡ inner

labels_split :
    (l : Bytes) (before acc : List Bytes) → reverse (l ∷ before) ++ acc ≡ reverse before ++ l ∷ acc
labels_split l before acc = rw reverse-cons (append_assoc (reverse before) (l ∷ []) acc)

pub walk-Ends :
    (root : Node) (m : Entries) (rest acc : List Bytes)
    → ((q : List Bytes) → status root (reverse acc ++ q) ≡ status (node m) q)
    → Ends root (reverse rest ++ acc) (walk (node m) rest)
unfolding walk look_up
walk-Ends root m [] acc h =
    ap (status root) (sym (append-nil (reverse acc))) ∙ h [] ∙ unfold status in refl
walk-Ends root m (l ∷ before) acc h = elim (Option-cases (child l m)) [
  | inl e ↦ rw (walk, look_up, e) (split_at absent (rw (status-child, e)))
  | inr (nil, e) ↦
      rw (walk, look_up, e) (split_at bottom (rw (status-child, e) (unfold status in refl)))
  | inr (node m', e) ↦
      rw (walk, look_up, e, labels_split l before acc)
        (walk-Ends root m' before (l ∷ acc)
          (λ q. ap (status root) (deeper_path q) ∙ h (l ∷ q) ∙ rw (status-child, e)))
]
  where
    deeper_path : (q : List Bytes) → reverse (l ∷ acc) ++ q ≡ reverse acc ++ l ∷ q
    deeper_path q = rw (reverse-cons l acc) (append_assoc (reverse acc) (l ∷ []) q)

    split_at :
        (s : Status)
        → status (node m) (l ∷ []) ≡ s
        → SplitAt root (reverse (l ∷ before) ++ acc) (length before) s
    split_at s e = (
      reverse before,
      l,
      acc,
      labels_split l before acc,
      length-reverse before,
      ap (status root) (reverse-cons l acc) ∙ h (l ∷ []) ∙ e,
    )

module _ {ℓ} {V : Type ℓ} where
  -- The tree holds exactly the paths of the keys.
  pub record IsTree (w : Zone V) : Type 0 where
    pub holds :
        (l : Bytes) (p : List Bytes)
        → status (node (made w.root)) (l ∷ p) ≡ spec_status (l ∷ p) w.values

  pub empty-IsTree : IsTree empty
  unfolding empty made status spec_status deeper listed look_up
  empty-IsTree = record { holds = λ l p. refl }

  pub insert-IsTree : (w : Zone V) (z : Bytes) (v : V) → IsTree w → IsTree (insert w z v)
  unfolding insert made path_of
  insert-IsTree w z v t = record {
    holds = λ l p.
        status-insert_path (path_of (canonocalize_host z)) (l ∷ p) (made w.root)
        ∙ rw (t.holds l p) (sym (spec_status-put (l ∷ p) (canonocalize_host z) v w.values));
  }

  -- The second loop, wherever its offset points at the labels left.
  pub backtrack_lem :
      (m : Map V) (host : Bytes) (offset : ℕ) (ls : List Bytes)
      → (ls ≢ [] → drop offset host ≡ join dot ls)
      → backtrack m host offset ls ≡ first_zone m ls
  unfolding backtrack first_zone
  backtrack_lem m host offset [] h = refl
  backtrack_lem m host offset (l ∷ ls) h =
      rw (backtrack, first_zone, h (λ e. cc))
        (ap (λ rest. elim (get (join dot (l ∷ ls)) m) [ none ↦ rest | some v ↦ some v ])
          (backtrack_lem m host (offset + (length l + 1)) ls (next ls h)))
    where
      next :
          (ls : List Bytes)
          → (l ∷ ls ≢ [] → drop offset host ≡ join dot (l ∷ ls))
          → ls ≢ []
          → drop (offset + (length l + 1)) host ≡ join dot ls
      next [] h ne = absurd (ne refl)
      next (k ∷ ls) h ne =
          rw (drop-drop offset (length l + 1) host, h (λ e. cc)) (drop-label dot l k ls)
