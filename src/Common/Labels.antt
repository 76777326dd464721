-- ===== src/Common/Labels.antt =====
-- Text split at a separator, and joined again.
use flakes.Common.Tests.{◌==◌, ==_iff, Bool-cases}
use flakes.Common.Lists.{All, length, drop}
use flakes.Common.Strings.{Bytes}
use flakes.Common.Text.{split, onto_first, join}
use Prim.Native.Nat.{ℕ, ◌+◌}
use mathlib.Core.Path.{◌≡◌, refl, ap, sym, ◌∙◌}
use mathlib.Core.Bool.{false}
use mathlib.Core.Logic.{◌≢◌, inl, inr}
use mathlib.Core.List.{List, [], ◌∷◌, ◌++◌}
use native.Mathlib.Nat.{suc-add}

-- No byte of the label is the separator.
abbrev pub IsLabel : ℕ → Bytes → Type 0
IsLabel sep = All (λ c. (c == sep) ≡ false)

onto_first-ne : (c : ℕ) (ls : List Bytes) → onto_first c ls ≢ []
unfolding onto_first
onto_first-ne c [] = λ h. cc
onto_first-ne c (l ∷ ls) = λ h. cc

pub split-ne : (sep : ℕ) (s : Bytes) → split sep s ≢ []
unfolding split onto_first
split-ne sep [] = λ e. cc
split-ne sep (c ∷ s) = elim (Bool-cases (c == sep)) [
  | inl e ↦ rw e (λ h. cc)
  | inr e ↦ rw e (onto_first-ne c (split sep s))
]

join-onto_first :
    (sep c : ℕ) (ls : List Bytes) → ls ≢ [] → join sep (onto_first c ls) ≡ c ∷ join sep ls
unfolding join onto_first
join-onto_first sep c [] h = absurd (h refl)
join-onto_first sep c (l ∷ []) h = refl
join-onto_first sep c (l ∷ k ∷ ls) h = refl

join-cons :
    (sep : ℕ) (l : Bytes) (ls : List Bytes) → ls ≢ [] → join sep (l ∷ ls) ≡ l ++ sep ∷ join sep ls
unfolding join
join-cons sep l [] h = absurd (h refl)
join-cons sep l (k ∷ ls) h = refl

pub join-split : (sep : ℕ) (s : Bytes) → join sep (split sep s) ≡ s
unfolding join split
join-split sep [] = refl
join-split sep (c ∷ s) = elim (Bool-cases (c == sep)) [
  | inl e ↦
      rw (e, join-cons sep [] (split sep s) (split-ne sep s), join-split sep s)
        (ap (λ x. x ∷ s) (sym ((==_iff c sep).0 e)))
  | inr e ↦ rw (e, join-onto_first sep c (split sep s) (split-ne sep s), join-split sep s)
]

onto_first-IsLabel :
    (sep c : ℕ) (ls : List Bytes)
    → (c == sep) ≡ false
    → All (IsLabel sep) ls
    → All (IsLabel sep) (onto_first c ls)
unfolding onto_first
onto_first-IsLabel sep c [] e h = ((e, tt), tt)
onto_first-IsLabel sep c (l ∷ ls) e h = ((e, h.0), h.1)

pub split-IsLabel : (sep : ℕ) (s : Bytes) → All (IsLabel sep) (split sep s)
unfolding split onto_first
split-IsLabel sep [] = (tt, tt)
split-IsLabel sep (c ∷ s) = elim (Bool-cases (c == sep)) [
  | inl e ↦ rw e (tt, split-IsLabel sep s)
  | inr e ↦ rw e (onto_first-IsLabel sep c (split sep s) e (split-IsLabel sep s))
]

-- A text that begins with a label and the separator.
pub split-label :
    (sep : ℕ) (l s : Bytes) → IsLabel sep l → split sep (l ++ sep ∷ s) ≡ l ∷ split sep s
unfolding split onto_first
split-label sep [] s h = rw ((==_iff sep sep).1 refl)
split-label sep (c ∷ l) s h = rw (h.0, split-label sep l s h.1)

split-one : (sep : ℕ) (l : Bytes) → IsLabel sep l → split sep l ≡ l ∷ []
unfolding split onto_first
split-one sep [] h = refl
split-one sep (c ∷ l) h = rw (h.0, split-one sep l h.1)

pub split-join :
    (sep : ℕ) (l : Bytes) (ls : List Bytes)
    → All (IsLabel sep) (l ∷ ls)
    → split sep (join sep (l ∷ ls)) ≡ l ∷ ls
unfolding join
split-join sep l [] h = split-one sep l h.0
split-join sep l (k ∷ ls) h =
    split-label sep l (join sep (k ∷ ls)) h.0 ∙ ap (◌∷◌ l) (split-join sep k ls h.1)

drop_behind : (sep : ℕ) (l s : Bytes) → drop (length l + 1) (l ++ sep ∷ s) ≡ s
drop_behind sep [] s = refl
drop_behind sep (c ∷ l) s = rw suc-add (drop_behind sep l s)

-- Behind the first label and the separator stand the others.
pub drop-label :
    (sep : ℕ) (l k : Bytes) (ls : List Bytes)
    → drop (length l + 1) (join sep (l ∷ k ∷ ls)) ≡ join sep (k ∷ ls)
unfolding join
drop-label sep l k ls = drop_behind sep l (join sep (k ∷ ls))
