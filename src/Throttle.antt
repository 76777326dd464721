-- ===== src/Throttle.antt =====
-- pkg/throttle/counter.go: a count of events within a sliding window.
--
-- A time is its distance from a fixed instant, in nanoseconds; `ts.After(now.Add(-Window))` is
-- written without the subtraction.
pub mod Window
use flakes.Common.{
  ℕ, zero, suc, ◌+◌, Bool, true, if◌then◌else◌, ltb, List, [], ◌∷◌, ◌++◌, Option, none, some,
  length, drop, replicate,
}

pub record Counter {ℓ} (T : Type ℓ) : Type ℓ where
  pub max_count : ℕ
  pub window : ℕ
  pub last_value : T
  pub timestamps : List ℕ

-- `ts.After(cutoff)`
abbrev pub after_cutoff : ℕ → ℕ → ℕ → Bool
after_cutoff window now ts = ltb now (ts + window)

-- The loop of `prune`, at index `i`: the first timestamp within the window, or 0.
unfoldable pub cut_index : ℕ → ℕ → ℕ → List ℕ → ℕ
cut_index window now i [] = 0
cut_index window now i (ts ∷ rest) =
    let next = cut_index window now (suc i) rest in if after_cutoff window now ts then i else next

-- The last of the timestamps.
unfoldable pub last_of : List ℕ → Option ℕ
last_of [] = none
last_of (ts ∷ []) = some ts
last_of (ts ∷ next ∷ rest) = last_of (next ∷ rest)

module _ {ℓ} {T : Type ℓ} where
  -- `prune`
  unfoldable pub prune : ℕ → Counter T → Counter T
  unfolding cut_index
  prune now c = record c { timestamps = drop (cut_index c.window now 0 c.timestamps) c.timestamps }

  -- `Increment`, at the time `now`.
  unfoldable pub increment : ℕ → T → Counter T → Bool × Counter T
  increment now value c =
      let stamps = (prune now c).timestamps ++ now ∷ [] in
      (ltb c.max_count (length stamps), record c { timestamps = stamps; last_value = value })

  -- `Count`
  unfoldable pub count : ℕ → Counter T → ℕ × Counter T
  count now c = let c' = prune now c in (length c'.timestamps, c')

  -- `Reset`; `zero_value` is T's.
  unfoldable pub reset : T → Counter T → Counter T
  reset zero_value c = record c { timestamps = []; last_value = zero_value }

  -- `Throttled`
  unfoldable pub throttled : ℕ → Counter T → Bool × Counter T
  throttled now c = let c' = prune now c in (ltb c.max_count (length c'.timestamps), c')

  -- `Force`
  unfoldable pub force : ℕ → T → Counter T → Counter T
  force now value c = record c { last_value = value; timestamps = replicate (suc c.max_count) now }

  -- `Last`
  unfoldable pub last : ℕ → Counter T → Option (T × ℕ) × Counter T
  unfolding last_of
  last now c =
      let c' = prune now c in
      (elim (last_of c'.timestamps) [ none ↦ none | some ts ↦ some (c'.last_value, ts) ], c')
