-- ===== src/Trie/Zone/Spec.antt =====
-- The zones of a table as a list of keys: what the tree stands for, and which key a host takes.
use mathlib.Core.List.{reverse-reverse}
use flakes.Common.{
  ◌≡◌, refl, inl, inr, Bool, true, false, ◌||◌, if◌then◌else◌, List, [], ◌∷◌, reverse, Option, none,
  some, arith, Bytes, bytes_eq, bytes_eq_iff, bytes_cases, bytes_eq_refl, Bool-cases, Map, get, put,
  split, join, drop,
}
use flakes.Common.Labels.{join-split}
use flakes.Trie.Zone.{dot, split_host}
use flakes.Trie.Zone.Status.{
  Status, absent, bottom, inner, strict_prefix, path_eq, mark, after_insert,
}

-- The labels of a zone from the last to the first.
unfoldable pub path_of : Bytes → List Bytes
path_of zone = reverse (split_host zone)

path_eq_refl : (p : List Bytes) → path_eq p p ≡ true
unfolding path_eq
path_eq_refl [] = refl
path_eq_refl (l ∷ p) = rw (path_eq, bytes_eq_refl l) (path_eq_refl p)

pub path_eq→eq : (p q : List Bytes) → path_eq p q ≡ true → p ≡ q
unfolding path_eq
path_eq→eq [] [] h = refl
path_eq→eq [] (k ∷ q) h = cc
path_eq→eq (l ∷ p) [] h = cc
path_eq→eq (l ∷ p) (k ∷ q) h = ground (arith, bytes_eq_iff l k, path_eq→eq p q)

path_of-injective : (p : List Bytes) (k : Bytes) → p ≡ path_of k → join dot (reverse p) ≡ k
unfolding path_of split_host
path_of-injective p k e = rw (e, reverse-reverse (split dot k)) (join-split dot k)

module _ {ℓ} {V : Type ℓ} where
  -- Some zone of the table lies below the path.
  unfoldable pub deeper : List Bytes → Map V → Bool
  deeper p [] = false
  deeper p ((k, v) ∷ m) = strict_prefix p (path_of k) || deeper p m

  -- Some zone of the table has the path.
  unfoldable pub listed : List Bytes → Map V → Bool
  listed p [] = false
  listed p ((k, v) ∷ m) = path_eq p (path_of k) || listed p m

  unfoldable pub spec_status : List Bytes → Map V → Status
  spec_status p m = if deeper p m then inner else if listed p m then bottom else absent

  -- The value of the longest zone among the labels and their tails.
  unfoldable pub first_zone : Map V → List Bytes → Option V
  first_zone m [] = none
  first_zone m (l ∷ ls) =
      let rest = first_zone m ls in
      elim (get (join dot (l ∷ ls)) m) [ none ↦ rest | some v ↦ some v ]

  -- The labels themselves are tried only if no zone of the table lies below them.
  unfoldable pub zone_spec : Map V → List Bytes → Option V
  unfolding first_zone deeper
  zone_spec m ls = first_zone m (if deeper (reverse ls) m then drop 1 ls else ls)

  deeper-put :
      (p : List Bytes) (z : Bytes) (v : V) (m : Map V)
      → deeper p (put z v m) ≡ (strict_prefix p (path_of z) || deeper p m)
  unfolding deeper put
  deeper-put p z v [] = refl
  deeper-put p z v ((k, w) ∷ m) = elim (bytes_cases k z) [
    | inl (e, f) ↦ rw (f, e) (ground arith)
    | inr (e, f) ↦ rw (f, deeper-put p z v m) (ground arith)
  ]

  listed-put :
      (p : List Bytes) (z : Bytes) (v : V) (m : Map V)
      → listed p (put z v m) ≡ (path_eq p (path_of z) || listed p m)
  unfolding listed put
  listed-put p z v [] = refl
  listed-put p z v ((k, w) ∷ m) = elim (bytes_cases k z) [
    | inl (e, f) ↦ rw (f, e) (ground arith)
    | inr (e, f) ↦ rw (f, listed-put p z v m) (ground arith)
  ]

  -- One insertion changes the status of every path as the key list changes.
  pub spec_status-put :
      (p : List Bytes) (z : Bytes) (v : V) (m : Map V)
      → spec_status p (put z v m) ≡ after_insert (path_of z) p (spec_status p m)
  unfolding spec_status after_insert mark
  spec_status-put p z v m = rw (spec_status, deeper-put p z v m, listed-put p z v m) (ground arith)

  pub get-listed : (k : Bytes) (v : V) (m : Map V) → get k m ≡ some v → listed (path_of k) m ≡ true
  unfolding get listed
  get-listed k v [] h = cc
  get-listed k v ((j, w) ∷ m) h = elim (bytes_cases j k) [
    | inl (e, f) ↦ rw (listed, e, path_eq_refl (path_of k))
    | inr (e, f) ↦ rw (listed, get-listed k v m (rw f at h)) (ground arith)
  ]

  pub listed-get :
      (p : List Bytes) (m : Map V)
      → listed p m ≡ true
      → (v : V) × (get (join dot (reverse p)) m ≡ some v)
  unfolding get listed
  listed-get p [] h = cc
  listed-get p ((k, w) ∷ m) h = elim (Bool-cases (path_eq p (path_of k))) [
    | inl e ↦ (w, rw (path_of-injective p k (path_eq→eq p (path_of k) e), get, bytes_eq_refl k))
    | inr e ↦
        let (v, found) = listed-get p m (rw (listed, e) at h) in
        elim (Bool-cases (bytes_eq k (join dot (reverse p)))) [
          | inl same ↦ (w, rw (get, same))
          | inr other ↦ (v, rw (get, other) found)
        ]
  ]
