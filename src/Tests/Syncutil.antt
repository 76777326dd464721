-- ===== src/Tests/Syncutil.antt =====
-- pkg/syncutil: three subscribers, of which the first leaves.
use flakes.Syncutil.Timeout.{run_with_lock, pass, reset, stop, new_timeout}
use flakes.Common.{ℕ, ◌≡◌, refl, List, [], ◌∷◌}
use flakes.Syncutil.Signal.{
  Op, subscribes, cancels, publishes, run, step, new_signal, subscribe, cancel, publish, position,
  remove_at, publish_to, send,
}
use flakes.Syncutil.Signal.Cancel.{cancel-run}

abbrev ops : List (Op ℕ)
ops = subscribes ∷ subscribes ∷ subscribes ∷ publishes 7 ∷ cancels 0 0 ∷ []

-- The third channel is at position 1 now, and its index is 2.
cancel-run_example :
    let s' = cancel 2 2 (run ops new_signal) in
    (s'.chs ≡ remove_at 1 (run ops new_signal).chs) × (s'.closed ≡ 2 ∷ (run ops new_signal).closed)
unfolding run step new_signal subscribe cancel publish position remove_at publish_to send
cancel-run_example = cancel-run ops 1 (record { number = 2; index = 2; buffer = 7 ∷ [] }) refl

-- A run that waits for the lock is overtaken by a reset, whose own run is then due as well: the
-- callback runs twice.
overtaken :
    (run_with_lock (run_with_lock (pass 10 (reset 10 (pass 10 (new_timeout 0 10)))))).calls
    ≡ 20 ∷ 20 ∷ []
unfolding run_with_lock pass reset new_timeout
overtaken = refl

-- A run that is due when the timeout is stopped does not call.
stopped : (run_with_lock (stop (pass 10 (new_timeout 0 10)))).calls ≡ []
unfolding run_with_lock pass stop new_timeout
stopped = refl
