-- ===== src/Throttle/Window.antt =====
-- What `prune` leaves, and how long `Force` lasts.
use flakes.Common.{
  ℕ, zero, suc, ◌≤◌, ◌≡◌, ◌≢◌, refl, true, false, if◌then◌else◌, List, [], ◌∷◌, length-replicate,
  drop, replicate, All, arith,
}
use flakes.Throttle.{Counter, after_cutoff, cut_index, prune, throttled, force}

-- The events within the window.
unfoldable pub fresh : ℕ → ℕ → List ℕ → List ℕ
fresh window now [] = []
fresh window now (ts ∷ rest) =
    let kept = fresh window now rest in if after_cutoff window now ts then ts ∷ kept else kept

-- Timestamps in the order in which a clock that does not go back gives them.
abbrev pub Ordered : List ℕ → Type 0
Ordered [] = Unit
Ordered (ts ∷ rest) = All (λ later. ts ≤ later) rest × Ordered rest

fresh_of_rest :
    (window now ts : ℕ) (rest : List ℕ)
    → after_cutoff window now ts ≡ true
    → All (λ later. ts ≤ later) rest
    → fresh window now rest ≡ rest
unfolding fresh
fresh_of_rest window now ts [] h a = refl
fresh_of_rest window now ts (t ∷ rest) h a = ground (arith, fresh_of_rest window now ts rest h a.1)

fresh-none :
    (window now i : ℕ) (stamps : List ℕ)
    → fresh window now stamps ≡ []
    → cut_index window now i stamps ≡ 0
unfolding fresh cut_index
fresh-none window now i [] h = refl
fresh-none window now i (ts ∷ rest) h = ground (arith, fresh-none window now (suc i) rest)

cut-suc :
    (window now i : ℕ) (stamps : List ℕ)
    → fresh window now stamps ≢ []
    → cut_index window now (suc i) stamps ≡ suc (cut_index window now i stamps)
unfolding fresh cut_index
cut-suc window now i [] h = absurd (h refl)
cut-suc window now i (ts ∷ rest) h = ground (arith, cut-suc window now (suc i) rest)

drop-fresh :
    (window now : ℕ) (stamps : List ℕ)
    → Ordered stamps
    → fresh window now stamps ≢ []
    → drop (cut_index window now 0 stamps) stamps ≡ fresh window now stamps
unfolding fresh cut_index
drop-fresh window now [] o h = absurd (h refl)
drop-fresh window now (ts ∷ rest) o h =
    ground (
      arith,
      fresh_of_rest window now ts rest,
      cut-suc window now 0 rest,
      drop-fresh window now rest,
    )

cut-stale :
    (window now i ts n : ℕ)
    → after_cutoff window now ts ≡ false
    → cut_index window now i (replicate n ts) ≡ 0
unfolding cut_index
cut-stale window now i ts zero h = refl
cut-stale window now i ts (suc n) h = ground (arith, cut-stale window now (suc i) ts n)

-- What the loop keeps.
unfoldable pub pruned : ℕ → ℕ → List ℕ → List ℕ
pruned window now stamps = elim (fresh window now stamps) [ [] ↦ stamps | ts ∷ rest ↦ ts ∷ rest ]

module _ {ℓ} {T : Type ℓ} where
  -- Where the timestamps are in order, `prune` leaves exactly those within the window if there is
  -- one, and all of them, stale as they are, if there is none.
  pub prune-window :
      (now : ℕ) (c : Counter T)
      → Ordered c.timestamps
      → (prune now c).timestamps ≡ pruned c.window now c.timestamps
  unfolding prune pruned
  prune-window now c o =
      ground (arith, fresh-none c.window now 0 c.timestamps, drop-fresh c.window now c.timestamps o)

  -- After `Force`, a counter is throttled at every time, within the window and after it.
  pub throttled-force :
      (start now : ℕ) (value : T) (c : Counter T) → (throttled now (force start value c)).0 ≡ true
  unfolding throttled force prune
  throttled-force start now value c =
      ground (arith, cut-stale c.window now 1 start c.max_count, length-replicate c.max_count start)
