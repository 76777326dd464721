-- ===== src/Dialer/Lazy/Idle.antt =====
-- The dialer with an idle timeout: what the timer's callback leaves for the context's callback and
-- for connections that are still open.
use flakes.Common.{ℕ, suc, ◌-◌, ◌<◌, ◌≡◌, refl, true, false, [], ◌∷◌, none, some, arith}
use flakes.Dialer.Lazy.{
  Lazy, online, offline, ok, panics, conn_ends, timer_fires, hook_runs, cancelled, idle_timeout,
  conn_done, timer, hook, after_cancel, step, run, mem, remove, close_dialer,
}

-- An idle dialer: online, its timer set, its callback registered, no connection open.
pub record IsIdle (d : Lazy) (c x : ℕ) : Type 0 where
  pub is_online : d.state ≡ online
  pub dialer_set : d.xd ≡ some x
  pub context_set : d.ctx ≡ some c
  pub armed : d.timeout ≡ some true
  pub unused : d.readers ≡ 0
  pub hooked : d.hooks ≡ c ∷ []

-- When the timer of an idle dialer fires, the context's callback that this cancellation starts
-- panics: the timer has cleared `d.ctx`.
pub idle-panics :
    (d : Lazy) (c x : ℕ) → IsIdle d c x → run (timer_fires ∷ hook_runs c ∷ []) d ≡ panics
unfolding run step timer hook cancelled mem remove after_cancel
idle-panics d c x v = ground arith

-- While a connection is open, the end of another one starts the timer, and when it fires the
-- dialer below is closed and the state is offline with the connection still open.
pub busy-closed :
    (d : Lazy) (c x n : ℕ)
    → d.state ≡ online
    → d.xd ≡ some x
    → d.ctx ≡ some c
    → d.timeout ≡ some false
    → 0 < d.duration
    → d.readers ≡ suc (suc n)
    → (d' : Lazy) × (run (conn_ends ∷ timer_fires ∷ []) d ≡ ok d')
      × (d'.state ≡ offline)
      × (d'.closed ≡ x ∷ d.closed)
      × (d'.readers ≡ suc n)
      × (step conn_ends d' ≡ panics)
unfolding run step timer conn_done cancelled close_dialer
busy-closed d c x n e1 e2 e3 e4 e5 e6 = (
  record d {
    cause = cancelled c idle_timeout d.cause;
    closed = x ∷ d.closed;
    xd = none;
    state = offline;
    err = cancelled c idle_timeout d.cause c;
    ctx = none;
    timeout = none;
    readers = d.readers - 1;
  },
  ground arith,
  refl,
  refl,
  omega arith,
  ground arith,
)
