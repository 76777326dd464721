-- ===== src/Tests/Throttle.antt =====
-- pkg/throttle on a counter of at most 2 events in a window of 100.
use flakes.Common.{ℕ, ◌≡◌, refl, [], ◌∷◌, true, false, arith}
use flakes.Throttle.{Counter, prune, cut_index, increment}
use flakes.Throttle.Window.{pruned, prune-window}

abbrev counter : Counter ℕ
counter = record { max_count = 2; window = 100; last_value = 0; timestamps = 10 ∷ 50 ∷ 190 ∷ [] }

over : (increment 200 7 counter).0 ≡ false
unfolding increment prune cut_index
over = refl

-- When every event is stale none is pruned.
stale : (increment 1000 7 counter).0 ≡ true
unfolding increment prune cut_index
stale = refl

prune-window_example : (prune 200 counter).timestamps ≡ pruned 100 200 counter.timestamps
prune-window_example =
    prune-window 200 counter ((omega arith, (omega arith, tt)), ((omega arith, tt), (tt, tt)))
