-- ===== src/Tests/Lazy.antt =====
-- pkg/dialer/lazy.go on short schedules.
use flakes.Common.{◌≡◌, refl, true, false, [], ◌∷◌, none, some, arith}
use flakes.Dialer.Lazy.{
  Lazy, online, offline, ok, panics, dials, conn_ends, begins, registers, closes, timer_fires,
  connects, new_lazy, idle, step, run,
}
use flakes.Dialer.Lazy.Safe.{IsSafe, run-new_lazy-IsSafe}
use flakes.Dialer.Lazy.Idle.{busy-closed}

run-new_lazy-IsSafe_example :
    IsSafe (run (dials ∷ begins ∷ connects 7 ∷ registers ∷ dials ∷ closes ∷ []) (new_lazy 0))
run-new_lazy-IsSafe_example =
    run-new_lazy-IsSafe (dials ∷ begins ∷ connects 7 ∷ registers ∷ dials ∷ closes ∷ [])

-- After one connection: online, with the dialer 7 on the context 0.
abbrev connected : Lazy
connected = record {
  duration = 3600;
  initing = false;
  xd = some 7;
  err = none;
  state = online;
  ctx = some 0;
  timeout = some true;
  readers = 0;
  contexts = 1;
  cause = λ c. none;
  init = idle;
  registering = 0;
  hooks = 0 ∷ [];
  closed = [];
}

connected_lem : run (dials ∷ begins ∷ connects 7 ∷ registers ∷ []) (new_lazy 3600) ≡ ok connected
unfolding run step new_lazy
connected_lem = refl

-- Two connections are open.
abbrev busy : Lazy
busy = record connected { timeout = some false; readers = 2 }

busy-closed_example :
    (d' : Lazy) × (run (conn_ends ∷ timer_fires ∷ []) busy ≡ ok d')
    × (d'.state ≡ offline)
    × (d'.closed ≡ 7 ∷ [])
    × (d'.readers ≡ 1)
    × (step conn_ends d' ≡ panics)
busy-closed_example = busy-closed busy 0 7 0 refl refl refl refl (omega arith) refl
