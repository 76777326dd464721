-- ===== src/Trie/Cidr/Match.antt =====
-- `CIDR.Match` against a longest-prefix specification.
use flakes.Common.{
  ℕ, ◌≤◌, ◌<◌, ◌≡◌, refl, sym, ◌∙◌, ◌⊎◌, inl, inr, true, false, if◌then◌else◌, ltb, Bool-cases,
  List, [], ◌∷◌, ◌++◌, Option, none, some, arith, Bytes, All,
}
use flakes.Trie.Net.{IpNet, contains}
use flakes.Trie.Cidr.{CidrNode, Cidr, empty, ones, insert, first_match, find_value}
use flakes.Trie.Cidr.Placed.{Copies, done, keep, copy, HeadBelow, Placed, insert-Placed}

module _ {ℓ} {V : Type ℓ} where
  -- A later rule wins only with a longer prefix.
  unfoldable pub better : Bytes → Option (CidrNode V) → CidrNode V → Option (CidrNode V)
  better ip best m =
      if contains m.network ip
      then elim best [ none ↦ some m | some b ↦ if ltb (ones b) (ones m) then some m else some b ]
      else best

  -- The rule with the longest prefix among those that contain the address; the earliest of these.
  unfoldable pub longest_from : Option (CidrNode V) → List (IpNet × V) → Bytes → Option (CidrNode V)
  longest_from best [] ip = best
  longest_from best ((n, v) ∷ rules) ip =
      longest_from (better ip best (record { network = n; value = v })) rules ip

  unfoldable pub longest_prefix : List (IpNet × V) → Bytes → Option V
  longest_prefix rules ip = elim (longest_from none rules ip) [
    | none ↦ none
    | some n ↦ some n.value
  ]

  -- `Insert`, for each rule in order.
  unfoldable pub insert_all : (ℕ → ℕ → ℕ) → Cidr V → List (IpNet × V) → Cidr V
  insert_all grow t [] = t
  insert_all grow t ((n, v) ∷ rules) = insert_all grow (insert grow t n v) rules

  module _ (ip : Bytes) where
    abbrev AtMost : ℕ → Option (CidrNode V) → Type 0
    AtMost k none = Unit
    AtMost k (some f) = ones f ≤ k

    -- Up to the entry that matches, nothing is shorter than it.
    abbrev Good : List (CidrNode V) → Type 0
    Good [] = Unit
    Good (e ∷ t) = (contains e.network ip ≡ true) ⊎ (AtMost (ones e) (first_match t ip) × Good t)

    Good-tail :
        (e : CidrNode V) (t : List (CidrNode V))
        → contains e.network ip ≡ false
        → Good (e ∷ t)
        → AtMost (ones e) (first_match t ip) × Good t
    Good-tail e t miss (inl hit) = cc
    Good-tail e t miss (inr g) = g

    Copies-Good :
        {m : CidrNode V} {t r : List (CidrNode V)}
        → Copies m t r
        → contains m.network ip ≡ false
        → AtMost (ones m) (first_match t ip)
        → Good t
        → Good r × (first_match r ip ≡ first_match t ip)
    unfolding first_match
    Copies-Good done miss h g = (tt, refl)
    Copies-Good {m} (keep {t = t} {r = r} e c) miss h g =
        elim (Bool-cases (contains e.network ip)) [
          | inl hit ↦ (inl hit, rw hit)
          | inr other ↦
              let (low, g') = Good-tail e t other g in
              let (g'', same) = Copies-Good c miss (rw other at h) g' in
              (inr (rw same low, g''), rw (other, same))
        ]
    Copies-Good {m} {t} {r} (copy c) miss h g =
        let (g', same) = Copies-Good c miss h g in (inr (rw same h, g'), rw (miss, same))

    abbrev Under : ℕ → Option (CidrNode V) → Type 0
    Under k none = Unit
    Under k (some f) = ones f < k

    Under-trans : (j k : ℕ) (o : Option (CidrNode V)) → j < k → AtMost j o → Under k o
    Under-trans j k none h a = tt
    Under-trans j k (some f) h a = omega arith

    AtMost-Under : (k : ℕ) (o : Option (CidrNode V)) → Under k o → AtMost k o
    AtMost-Under k none u = tt
    AtMost-Under k (some f) u = omega arith

    Under-after :
        (m : CidrNode V) (t : List (CidrNode V))
        → HeadBelow m t
        → Good t
        → Under (ones m) (first_match t ip)
    unfolding first_match
    Under-after m [] low g = tt
    Under-after m (e ∷ t) low g = elim (Bool-cases (contains e.network ip)) [
      | inl hit ↦ rw hit low
      | inr other ↦
          rw other (Under-trans (ones e) (ones m) (first_match t ip) low (Good-tail e t other g).0)
    ]

    AtMost-better :
        (k : ℕ) (m : CidrNode V) (o : Option (CidrNode V))
        → ones m ≤ k
        → AtMost k o
        → AtMost k (better ip o m)
    unfolding better
    AtMost-better k m none h a = elim (Bool-cases (contains m.network ip)) [
      | inl e ↦ rw e h
      | inr e ↦ rw e a
    ]
    AtMost-better k m (some b) h a = elim (Bool-cases (contains m.network ip)) [
      | inl e ↦ rw e (elim (Bool-cases (ltb (ones b) (ones m))) [ inl f ↦ rw f h | inr f ↦ rw f a ])
      | inr e ↦ rw e a
    ]

    better-hit :
        (m : CidrNode V) (o : Option (CidrNode V))
        → contains m.network ip ≡ true
        → Under (ones m) o
        → better ip o m ≡ some m
    unfolding better
    better-hit m none hit u = ground arith
    better-hit m (some b) hit u = ground arith

    better-miss :
        (m : CidrNode V) (o : Option (CidrNode V))
        → contains m.network ip ≡ false
        → better ip o m ≡ o
    unfolding better
    better-miss m o miss = rw miss

    better-keeps : (m e : CidrNode V) → ones m ≤ ones e → better ip (some e) m ≡ some e
    unfolding better
    better-keeps m e h = ground arith

    placed-Good :
        (m : CidrNode V) (before after rest : List (CidrNode V))
        → All (λ e. ones m ≤ ones e) before
        → HeadBelow m after
        → Copies m after rest
        → Good (before ++ after)
        → Good (before ++ m ∷ rest)
          × (first_match (before ++ m ∷ rest) ip ≡ better ip (first_match (before ++ after) ip) m)
    unfolding first_match
    placed-Good m [] after rest longer low c g =
        let under = Under-after m after low g in
        elim (Bool-cases (contains m.network ip)) [
          | inl hit ↦ (inl hit, rw hit (sym (better-hit m _ hit under)))
          | inr miss ↦
              let (g', same) =
                Copies-Good c miss (AtMost-Under (ones m) (first_match after ip) under) g in
              (
                inr (rw same (AtMost-Under (ones m) (first_match after ip) under), g'),
                rw miss (same ∙ sym (better-miss m _ miss)),
              )
        ]
    placed-Good m (e ∷ before) after rest longer low c g =
        elim (Bool-cases (contains e.network ip)) [
          | inl hit ↦ (inl hit, rw hit (sym (better-keeps m e longer.0)))
          | inr other ↦
              let (bound, g') = Good-tail e (before ++ after) other g in
              let (g'', same) = placed-Good m before after rest longer.1 low c g' in
              (
                inr (
                  rw same
                      (AtMost-better (ones e) m (first_match (before ++ after) ip) longer.0 bound),
                  g'',
                ),
                rw other same,
              )
        ]

    Placed-Good :
        (m : CidrNode V) (before t r : List (CidrNode V))
        → Placed m before t r
        → Good t
        → Good r × (first_match r ip ≡ better ip (first_match t ip) m)
    Placed-Good m before t r p g =
        rw (p.placed, p.split)
          (placed-Good m before p.after p.rest p.longer p.shorter p.copies (rw p.split at g))

  module _ (grow : ℕ → ℕ → ℕ) (ip : Bytes) where
    insert-Good :
        (t : Cidr V) (n : IpNet) (v : V)
        → Good ip t.items
        → Good ip (insert grow t n v).items
          × (first_match (insert grow t n v).items ip
              ≡ better ip (first_match t.items ip) (record { network = n; value = v }))
    insert-Good t n v g =
        let (before, p) = insert-Placed grow t n v in
        Placed-Good ip (record { network = n; value = v }) before t.items (insert grow t n v).items
          p g

    insert_all-longest :
        (t : Cidr V) (rules : List (IpNet × V))
        → Good ip t.items
        → first_match (insert_all grow t rules).items ip
          ≡ longest_from (first_match t.items ip) rules ip
    unfolding insert_all longest_from
    insert_all-longest t [] g = refl
    insert_all-longest t ((n, v) ∷ rules) g =
        let (g', step) = insert-Good t n v g in
        rw (← step) (insert_all-longest (insert grow t n v) rules g')

    -- Whatever capacities the runtime chooses, `Match` after a sequence of `Insert`s on an empty
    -- table returns the value of the rule with the longest prefix among those that contain the
    -- address, the earliest of these where several are as long, and nothing if none contains it.
    pub find_value-longest :
        (rules : List (IpNet × V))
        → find_value (insert_all grow empty rules) ip ≡ longest_prefix rules ip
    unfolding find_value longest_prefix first_match empty
    find_value-longest rules = rw (find_value, insert_all-longest empty rules tt)
