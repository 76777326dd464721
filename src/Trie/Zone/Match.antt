-- ===== src/Trie/Zone/Match.antt =====
-- `Zone.Match` against the key list, for every table that `Insert` builds.
use mathlib.Core.List.{reverse-cons, reverse-append, reverse-reverse}
use flakes.Common.{
  ℕ, suc, ◌≡◌, refl, ap, ◌∙◌, sym, ◌≢◌, inl, inr, true, false, List, [], ◌∷◌, ◌++◌, append-nil,
  reverse, none, some, arith, Bytes, Option-cases, get, split, join, drop, take, length, All,
  All-split,
}
use flakes.Common.Labels.{IsLabel, split-ne, join-split, split-IsLabel, split-join}
use flakes.Trie.Zone.{
  Node, nil, node, child, look_up, made, dot, split_host, canonocalize_host, Walk, missing, leaf,
  through, walk, Zone, empty, insert, sum_offset, after_walk, find,
}
use flakes.Trie.Zone.Status.{Status, absent, bottom, inner, status}
use flakes.Trie.Zone.Spec.{
  path_of, deeper, listed, spec_status, first_zone, zone_spec, get-listed, listed-get,
}
use flakes.Trie.Zone.Loops.{
  IsTree, empty-IsTree, insert-IsTree, backtrack_lem, drop-sum_offset, drop-length, status-extend,
  Ends, walk-Ends,
}

append-ne {ℓ} : {A : Type ℓ} (xs : List A) (x : A) → xs ++ x ∷ [] ≢ []
append-ne [] x = λ e. cc
append-ne (y ∷ xs) x = λ e. cc

reverse-ne {ℓ} : {A : Type ℓ} (x : A) (xs : List A) → reverse (x ∷ xs) ≢ []
reverse-ne x xs = rw reverse-cons (append-ne (reverse xs) x)

status_below :
    (n : Node) (q r : List Bytes) → r ≢ [] → status n q ≢ inner → status n (q ++ r) ≡ absent
status_below n q [] ne h = absurd (ne refl)
status_below n q (x ∷ r) ne h = status-extend n q r x h

drop_past :
    (front : List Bytes) (l : Bytes) (back : List Bytes)
    → drop (suc (length front)) (front ++ l ∷ back) ≡ back
drop_past [] l back = refl
drop_past (f ∷ front) l back = drop_past front l back

walk-made : (root : Node) (p : List Bytes) → walk root p ≡ walk (node (made root)) p
unfolding walk made look_up child
walk-made nil [] = refl
walk-made nil (l ∷ p) = refl
walk-made (node es) p = refl

module _ {ℓ} {V : Type ℓ} (w : Zone V) (t : IsTree w) where
  root : Node
  root = node (made w.root)

  holds_at : (p : List Bytes) → p ≢ [] → status root p ≡ spec_status p w.values
  unfolding root
  holds_at [] ne = absurd (ne refl)
  holds_at (l ∷ p) ne = t.holds l p

  status_labels :
      (l : Bytes) (ls : List Bytes)
      → status root (reverse (l ∷ ls)) ≡ spec_status (reverse (l ∷ ls)) w.values
  status_labels l ls = holds_at (reverse (l ∷ ls)) (reverse-ne l ls)

  not-listed :
      (l : Bytes) (ls : List Bytes)
      → status root (reverse (l ∷ ls)) ≡ absent
      → listed (reverse (l ∷ ls)) w.values ≡ false
  not-listed l ls h = spec-not-listed (reverse (l ∷ ls)) (sym (status_labels l ls) ∙ h)
    where
      spec-not-listed :
          (p : List Bytes) → spec_status p w.values ≡ absent → listed p w.values ≡ false
      spec-not-listed p e = unfold spec_status in ground arith

  -- A path that is not in the tree is no key.
  get-absent :
      (l : Bytes) (ls : List Bytes)
      → All (IsLabel dot) (l ∷ ls)
      → status root (reverse (l ∷ ls)) ≡ absent
      → get (join dot (l ∷ ls)) w.values ≡ none
  get-absent l ls labels h = elim (Option-cases (get (join dot (l ∷ ls)) w.values)) [
    | inl e ↦ e
    | inr (v, e) ↦
        let out = not-listed l ls h in
        let in_table : listed (reverse (l ∷ ls)) w.values ≡ true =
          rw (← key) (get-listed (join dot (l ∷ ls)) v w.values e) in
        cc
  ]
    where
      key : path_of (join dot (l ∷ ls)) ≡ reverse (l ∷ ls)
      key = unfold path_of split_host in ap reverse (split-join dot l ls labels)

  status_longer :
      (f : Bytes) (front ls : List Bytes)
      → status root (reverse ls) ≢ inner
      → status root (reverse (f ∷ front ++ ls)) ≡ absent
  status_longer f front ls h =
      rw (reverse-append (f ∷ front) ls)
        (status_below root (reverse ls) (reverse (f ∷ front)) (reverse-ne f front) h)

  -- Labels in front of a path that is no map name no key.
  first_zone-skip :
      (front ls : List Bytes)
      → All (IsLabel dot) (front ++ ls)
      → status root (reverse ls) ≢ inner
      → first_zone w.values (front ++ ls) ≡ first_zone w.values ls
  unfolding first_zone
  first_zone-skip [] ls labels h = refl
  first_zone-skip (f ∷ front) ls labels h =
      rw (first_zone, get-absent f (front ++ ls) labels (status_longer f front ls h))
        (first_zone-skip front ls labels.1 h)

  status-deeper :
      (p : List Bytes) (s : Status)
      → spec_status p w.values ≡ s
      → s ≢ inner
      → deeper p w.values ≡ false
  unfolding spec_status
  status-deeper p s e h = ground arith

  status_front :
      (front : List Bytes) (l : Bytes) (back : List Bytes)
      → status root (reverse (l ∷ back)) ≢ inner
      → deeper (reverse (front ++ l ∷ back)) w.values ≡ false
  status_front [] l back h = status-deeper (reverse (l ∷ back)) _ (sym (status_labels l back)) h
  status_front (f ∷ front) l back h =
      status-deeper (reverse (f ∷ front ++ l ∷ back)) absent
        (sym (status_labels f (front ++ l ∷ back)) ∙ status_longer f front (l ∷ back) h) (λ e. cc)

  -- The specification where the walk stops short of a map.
  zone_spec-skip :
      (front : List Bytes) (l : Bytes) (back : List Bytes)
      → All (IsLabel dot) (front ++ l ∷ back)
      → status root (reverse (l ∷ back)) ≢ inner
      → zone_spec w.values (front ++ l ∷ back) ≡ first_zone w.values (l ∷ back)
  unfolding zone_spec
  zone_spec-skip front l back labels h =
      rw (zone_spec, status_front front l back h) (first_zone-skip front (l ∷ back) labels h)

  bottom-listed : (p : List Bytes) → spec_status p w.values ≡ bottom → listed p w.values ≡ true
  unfolding spec_status
  bottom-listed p e = ground arith

  inner-deeper : (p : List Bytes) → spec_status p w.values ≡ inner → deeper p w.values ≡ true
  unfolding spec_status
  inner-deeper p e = ground arith

  module _ (zero_value : V) where
    after_leaf :
        (front : List Bytes) (l : Bytes) (back : List Bytes) (host : Bytes) (i : ℕ)
        → All (IsLabel dot) (front ++ l ∷ back)
        → drop i (front ++ l ∷ back) ≡ l ∷ back
        → status root (reverse (l ∷ back)) ≡ bottom
        → after_walk zero_value w.values host (front ++ l ∷ back) (leaf i)
          ≡ zone_spec w.values (front ++ l ∷ back)
    unfolding after_walk first_zone
    after_leaf front l back host i labels at st =
        let (v, e) =
          listed-get (reverse (l ∷ back)) w.values
            (bottom-listed (reverse (l ∷ back)) (sym (status_labels l back) ∙ st)) in
        let found : get (join dot (l ∷ back)) w.values ≡ some v = rw reverse-reverse at e in
        rw (zone_spec-skip front l back labels (rw st (λ e. cc)), after_walk, at, first_zone, found)

    after_missing :
        (front : List Bytes) (l : Bytes) (back : List Bytes) (j : ℕ)
        → All (IsLabel dot) (front ++ l ∷ back)
        → drop (suc j) (front ++ l ∷ back) ≡ back
        → status root (reverse (l ∷ back)) ≡ absent
        → after_walk zero_value w.values
            (join dot (front ++ l ∷ back))
            (front ++ l ∷ back)
            (missing j)
          ≡ zone_spec w.values (front ++ l ∷ back)
    unfolding after_walk first_zone
    after_missing front l back j labels at st =
        let ls = front ++ l ∷ back in
        backtrack_lem w.values (join dot ls) (sum_offset (take (suc j) ls)) (drop (suc j) ls)
          (drop-sum_offset (suc j) ls)
        ∙ rw (
          zone_spec-skip front l back labels (rw st (λ e. cc)),
          at,
          first_zone,
          get-absent l back (All-split (IsLabel dot) front (l ∷ back) labels).1 st,
        )

    after_through :
        (l : Bytes) (ls : List Bytes)
        → status root (reverse (l ∷ ls)) ≡ inner
        → after_walk zero_value w.values (join dot (l ∷ ls)) (l ∷ ls) through
          ≡ zone_spec w.values (l ∷ ls)
    unfolding after_walk zone_spec
    after_through l ls st =
        backtrack_lem w.values (join dot (l ∷ ls)) (sum_offset (take 1 (l ∷ ls))) ls
          (drop-sum_offset 1 (l ∷ ls))
        ∙ rw (zone_spec, inner-deeper (reverse (l ∷ ls)) (sym (status_labels l ls) ∙ st))

    -- However the first loop ends.
    after_walk-spec :
        (ls : List Bytes) (end_of : Walk)
        → ls ≢ []
        → All (IsLabel dot) ls
        → Ends root ls end_of
        → after_walk zero_value w.values (join dot ls) ls end_of ≡ zone_spec w.values ls
    after_walk-spec ls (leaf i) ne labels (front, l, back, e, len, st) = rw e (
        after_leaf front l back (join dot (front ++ l ∷ back)) i (rw e at labels)
          (rw (← len) (drop-length front (l ∷ back))) st)
    after_walk-spec ls (missing j) ne labels (front, l, back, e, len, st) =
        rw e
          (after_missing front l back j (rw e at labels) (rw (← len) (drop_past front l back)) st)
    after_walk-spec [] through ne labels st = absurd (ne refl)
    after_walk-spec (l ∷ ls) through ne labels st = after_through l ls st

    find-spec :
        (host : Bytes)
        → find zero_value w host ≡ zone_spec w.values (split_host (canonocalize_host host))
    unfolding find split_host root
    find-spec host =
        let host' = canonocalize_host host in
        let ls = split dot host' in
        ap (λ h. after_walk zero_value w.values h ls (walk w.root (reverse ls)))
          (sym (join-split dot host'))
        ∙ rw (walk-made w.root (reverse ls)) (
            after_walk-spec ls (walk (node (made w.root)) (reverse ls)) (split-ne dot host')
              (split-IsLabel dot host')
              (rw (append-nil, reverse-reverse) at
                (walk-Ends root (made w.root) (reverse ls) [] (λ q. refl))))

module _ {ℓ} {V : Type ℓ} where
  -- `Insert`, for each rule in order.
  unfoldable pub insert_all : Zone V → List (Bytes × V) → Zone V
  insert_all w [] = w
  insert_all w ((z, v) ∷ rules) = insert_all (insert w z v) rules

  pub insert_all-IsTree :
      (w : Zone V) (rules : List (Bytes × V)) → IsTree w → IsTree (insert_all w rules)
  unfolding insert_all
  insert_all-IsTree w [] t = t
  insert_all-IsTree w ((z, v) ∷ rules) t =
      insert_all-IsTree (insert w z v) rules (insert-IsTree w z v t)

  -- For every table that insertions build, and every host: `Match` tries the host's labels, then
  -- its tails from the longest to the shortest, and returns the value of the first that is a zone
  -- of the table, or nothing; the host itself is tried only if no zone of the table lies below it.
  -- The zero value that the code would return for a nil entry with no value is never used.
  pub find-zone_spec :
      (rules : List (Bytes × V)) (zero_value : V) (host : Bytes)
      → let w = insert_all empty rules in
        find zero_value w host ≡ zone_spec w.values (split_host (canonocalize_host host))
  find-zone_spec rules zero_value host =
      find-spec (insert_all empty rules) (insert_all-IsTree empty rules empty-IsTree) zero_value
        host
