-- ===== src/Trie/Zone/Status.antt =====
-- What the tree of labels says of a path, read from the last label of a host.
use mathlib.Core.List.{reverse-cons}
use flakes.Common.{
  ◌≡◌, refl, ap, ◌∙◌, inl, inr, Bool, true, false, ◌&&◌, if◌then◌else◌, List, [], ◌∷◌, ◌++◌,
  reverse, Option, none, some, arith, Bytes, bytes_eq, bytes_eq_iff, bytes_cases, bytes_eq_refl,
  bytes_eq-false, sym, Option-cases,
}
use flakes.Trie.Zone.{
  Node, nil, node, Entries, end, entry, child, set_child, look_up, wrap, insert_path,
}

-- No entry, the nil entry, or a map.
pub data Status : Type 0 where
  absent bottom inner : Status

unfoldable pub status : Node → List Bytes → Status
status nil [] = bottom
status (node es) [] = inner
status n (l ∷ p) = elim (look_up l n) [ none ↦ absent | some c ↦ status c p ]

-- The status below an entry that is looked up.
abbrev pub status_of : Option Node → List Bytes → Status
status_of none p = absent
status_of (some c) p = status c p

pub status-child :
    (l : Bytes) (p : List Bytes) (es : Entries)
    → status (node es) (l ∷ p) ≡ status_of (child l es) p
unfolding status look_up
status-child l p es = ground arith

-- The first path ends above the second.
unfoldable pub strict_prefix : List Bytes → List Bytes → Bool
strict_prefix p [] = false
strict_prefix [] (k ∷ z) = true
strict_prefix (l ∷ p) (k ∷ z) = bytes_eq l k && strict_prefix p z

unfoldable pub path_eq : List Bytes → List Bytes → Bool
path_eq [] [] = true
path_eq [] (k ∷ z) = false
path_eq (l ∷ p) [] = false
path_eq (l ∷ p) (k ∷ z) = bytes_eq l k && path_eq p z

-- A map stays a map when its path becomes a zone.
unfoldable pub mark : Status → Status
mark inner = inner
mark absent = bottom
mark bottom = bottom

-- What the insertion of the zone `z` makes of the status `s` of the path `p`.
unfoldable pub after_insert : List Bytes → List Bytes → Status → Status
unfolding mark
after_insert z p s = if strict_prefix p z then inner else if path_eq p z then mark s else s

child-set_child :
    (l k : Bytes) (c : Node) (es : Entries)
    → child k (set_child l c es) ≡ (if bytes_eq l k then some c else child k es)
unfolding child set_child
child-set_child l k c end = refl
child-set_child l k c (entry j d es) =
    ground (arith, bytes_eq_iff l k, bytes_eq_iff j l, bytes_eq_iff j k, child-set_child l k c es)

-- The nodes that `Insert` makes for the labels below a new entry.
chain : List Bytes → Node
chain [] = nil
chain (l ∷ p) = node (entry l (chain p) end)

wrap-append : (c : Node) (ls ks : List Bytes) → wrap c (ls ++ ks) ≡ wrap (wrap c ls) ks
unfolding wrap
wrap-append c [] ks = refl
wrap-append c (l ∷ ls) ks = wrap-append (node (entry l c end)) ls ks

wrap-reverse : (ls : List Bytes) → wrap nil (reverse ls) ≡ chain ls
unfolding wrap chain
wrap-reverse [] = refl
wrap-reverse (l ∷ ls) =
    rw (reverse-cons l ls, wrap-append nil (reverse ls) (l ∷ []), wrap-reverse ls)

after_insert-cons :
    (k l : Bytes) (z p : List Bytes) (s : Status)
    → after_insert (k ∷ z) (l ∷ p) s ≡ (if bytes_eq l k then after_insert z p s else s)
unfolding after_insert strict_prefix path_eq
after_insert-cons k l z p s = ground arith

status-chain : (z p : List Bytes) → status (chain z) p ≡ after_insert z p absent
unfolding status chain look_up child
status-chain [] [] = unfold after_insert strict_prefix path_eq in refl
status-chain [] (l ∷ p) = unfold after_insert strict_prefix path_eq in refl
status-chain (k ∷ z) [] = unfold after_insert strict_prefix path_eq in refl
status-chain (k ∷ z) (l ∷ p) = rw after_insert-cons (elim (bytes_cases k l) [
  | inl (e, _) ↦ rw (e, status-child, child, bytes_eq_refl l) (status-chain z p)
  | inr (e, f) ↦ rw (bytes_eq-false l k (λ h. e (sym h)), status-child, child, f)
])

-- A zone below a nil entry: the entry is overwritten, and no path below it was there.
after_insert-nil : (z p : List Bytes) → after_insert z p absent ≡ after_insert z p (status nil p)
unfolding after_insert status look_up strict_prefix path_eq
after_insert-nil [] [] = refl
after_insert-nil (k ∷ z) [] = refl
after_insert-nil z (l ∷ p) = refl

-- The path's first label is that of the zone.
status-set_child :
    (l : Bytes) (p : List Bytes) (c : Node) (es : Entries)
    → status (node (set_child l c es)) (l ∷ p) ≡ status c p
status-set_child l p c es = rw (status-child, child-set_child l l c es, bytes_eq_refl l)

status-set_child_ne :
    (k l : Bytes) (p : List Bytes) (c : Node) (es : Entries)
    → bytes_eq k l ≡ false
    → status (node (set_child k c es)) (l ∷ p) ≡ status (node es) (l ∷ p)
status-set_child_ne k l p c es h =
    rw (status-child, child-set_child k l c es, h) (sym (status-child l p es))

-- What stands at the zone's first label after the insertion.
step : Bytes → List Bytes → Entries → Node
step k z es = elim (child k es) [
  | none ↦ chain z
  | some nil ↦ chain z
  | some (node m) ↦ node (insert_path m z)
]

insert_path-step :
    (k : Bytes) (z : List Bytes) (es : Entries)
    → insert_path es (k ∷ z) ≡ set_child k (step k z es) es
unfolding insert_path step
insert_path-step k z es = elim (Option-cases (child k es)) [
  | inl e ↦ rw (insert_path, step, e) (ap (λ c. set_child k c es) (wrap-reverse z))
  | inr (nil, e) ↦ rw (insert_path, step, e) (ap (λ c. set_child k c es) (wrap-reverse z))
  | inr (node m, e) ↦ rw (insert_path, step, e)
]

step-none :
    (k : Bytes) (z p : List Bytes) (es : Entries)
    → child k es ≡ none
    → status (step k z es) p ≡ after_insert z p (status_of (child k es) p)
unfolding step
step-none k z p es e = rw (step, e) (status-chain z p)

step-nil :
    (k : Bytes) (z p : List Bytes) (es : Entries)
    → child k es ≡ some nil
    → status (step k z es) p ≡ after_insert z p (status_of (child k es) p)
unfolding step
step-nil k z p es e = rw (step, e) (status-chain z p ∙ after_insert-nil z p)

-- The tree after an insertion, at every path.
pub status-insert_path :
    (z p : List Bytes) (es : Entries)
    → status (node (insert_path es z)) p ≡ after_insert z p (status (node es) p)
unfolding status step
status-insert_path [] [] es = unfold after_insert strict_prefix path_eq insert_path mark in refl
status-insert_path [] (l ∷ p) es = unfold after_insert strict_prefix path_eq insert_path in refl
status-insert_path (k ∷ z) [] es = unfold after_insert strict_prefix in refl
status-insert_path (k ∷ z) (l ∷ p) es =
    rw (insert_path-step k z es, after_insert-cons k l z p)
      (elim (bytes_cases k l) [
        | inl (e, _) ↦
            rw (e, status-set_child l p (step l z es) es, bytes_eq_refl l, status-child l p es)
              (elim (Option-cases (child l es)) [
                | inl c ↦ step-none l z p es c
                | inr (nil, c) ↦ step-nil l z p es c
                | inr (node m, c) ↦ rw (step, c) (status-insert_path z p m)
              ])
        | inr (e, f) ↦
            rw (status-set_child_ne k l p (step k z es) es f, bytes_eq-false l k (λ h. e (sym h)))
      ])
