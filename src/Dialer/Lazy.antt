-- ===== src/Dialer/Lazy.antt =====
-- pkg/dialer/lazy.go: a dialer that connects on first use.
--
-- A step is a section of the code that runs under `d.mu`, taken whole: an iteration of the loop of
-- `DialContext`, the sections of `init`, the callbacks, `Reset` and `Close`. A connection keeps the
-- read lock until its context ends, so `readers` counts the connections, and a section that takes
-- the write lock waits for them. The order of the steps is free.
pub mod Safe
pub mod Idle
use flakes.Common.{
  ℕ, suc, ◌-◌, Bool, true, false, ◌&&◌, ◌||◌, if◌then◌else◌, ◌==◌, ltb, List, [], ◌∷◌, Option, none,
  some,
}

pub data ConnectionState : Type 0 where
  offline connecting failed online : ConnectionState

-- The errors that end a context: `ErrCloseRequested`, `ErrIdleTimeout`, an error of `new`, and the
-- end of the dialer below.
pub data Cause : Type 0 where
  close_requested idle_timeout : Cause
  setup_failed dialer_closed : ℕ → Cause

-- What a goroutine of `init` does next.
pub data Init : Type 0 where
  idle started dialing : Init

pub record Lazy : Type 0 where
  pub duration : ℕ
  pub initing : Bool
  pub xd : Option ℕ
  pub err : Option Cause
  pub state : ConnectionState
  -- `d.ctx` and `d.cancel`, which are set and cleared together: the context's number.
  pub ctx : Option ℕ
  -- `d.timeout`: nil, or whether its deadline stands.
  pub timeout : Option Bool
  -- The connections that hold the read lock.
  pub readers : ℕ
  -- The contexts made so far, and how each was cancelled.
  pub contexts : ℕ
  pub cause : ℕ → Option Cause
  -- The goroutine of `init` that has set `initing`, and how many have yet to call `AfterFunc`.
  pub init : Init
  pub registering : ℕ
  -- The contexts whose `AfterFunc` callback has not run.
  pub hooks : List ℕ
  -- The dialers that were closed.
  pub closed : List ℕ

unfoldable pub new_lazy : ℕ → Lazy
new_lazy duration = record {
  duration = duration;
  initing = false;
  xd = none;
  err = none;
  state = offline;
  ctx = none;
  timeout = none;
  readers = 0;
  contexts = 0;
  cause = λ c. none;
  init = idle;
  registering = 0;
  hooks = [];
  closed = [];
}

-- `panics`: a nil context, function or timer is used. `waits`: the step is not enabled.
pub data Result : Type 0 where
  ok : Lazy → Result
  panics : Result
  waits : Result

-- A context keeps its first cause.
unfoldable pub cancelled : ℕ → Cause → (ℕ → Option Cause) → ℕ → Option Cause
cancelled c e cause k =
    if k == c then elim (cause c) [ none ↦ some e | some first ↦ some first ] else cause k

unfoldable pub is_close_requested : Option Cause → Bool
is_close_requested (some close_requested) = true
is_close_requested _ = false

-- `go c.Close()`, if the dialer is a closer, which all of the program's are.
unfoldable pub close_dialer : Option ℕ → List ℕ → List ℕ
close_dialer none closed = closed
close_dialer (some x) closed = x ∷ closed

-- One iteration of the loop of `DialContext`.
unfoldable pub dial_in : ConnectionState → Lazy → Result
dial_in offline d = if d.initing then ok d else ok (record d { initing = true; init = started })
dial_in connecting d = ok d
dial_in failed d = ok d
dial_in online d =
    if ltb 0 d.duration
    then elim d.timeout [
      | none ↦ panics
      | some _ ↦ ok (record d { timeout = some false; readers = suc d.readers })
    ]
    else ok (record d { readers = suc d.readers })

unfoldable pub dial : Lazy → Result
unfolding dial_in
dial d = dial_in d.state d

-- The context of a connection ends: the deferred unlock, and the timer starts again.
unfoldable pub conn_done : Lazy → Result
conn_done d =
    if d.readers == 0
    then waits
    else if ltb 0 d.duration
    then elim d.timeout [
      | none ↦ panics
      | some _ ↦ ok (record d { timeout = some true; readers = d.readers - 1 })
    ]
    else ok (record d { readers = d.readers - 1 })

unfoldable pub reset_in : ConnectionState → Lazy → Lazy
reset_in failed d = record d { state = offline; err = none }
reset_in offline d = d
reset_in connecting d = d
reset_in online d = d

-- `Reset`
unfoldable pub reset : Lazy → Result
unfolding reset_in
reset d = if d.readers == 0 then ok (reset_in d.state d) else waits

-- `Close`
unfoldable pub close : Lazy → Result
unfolding cancelled
close d = elim d.ctx [
  | none ↦ ok d
  | some c ↦ ok (record d { cause = cancelled c close_requested d.cause })
]

-- The first section of `init`.
unfoldable pub init_begin_in : Init → Lazy → Result
init_begin_in started d = ok (record d {
  xd = none;
  state = connecting;
  err = none;
  ctx = some d.contexts;
  contexts = suc d.contexts;
  init = dialing;
})
init_begin_in idle d = waits
init_begin_in dialing d = waits

unfoldable pub init_begin : Lazy → Result
unfolding init_begin_in
init_begin d = if d.readers == 0 then init_begin_in d.init d else waits

-- The section of `init` after `new` has failed with `e`.
unfoldable pub init_failed_in : Init → ℕ → Lazy → Result
unfolding cancelled
init_failed_in dialing e d = elim d.ctx [
  | none ↦ panics
  | some c ↦
      let cause' = cancelled c (setup_failed e) d.cause in
      ok (record d {
        cause = cause';
        xd = none;
        state = failed;
        err = cause' c;
        ctx = none;
        timeout = none;
        initing = false;
        init = idle;
      })
]
init_failed_in idle e d = waits
init_failed_in started e d = waits

unfoldable pub init_failed : ℕ → Lazy → Result
unfolding init_failed_in
init_failed e d = if d.readers == 0 then init_failed_in d.init e d else waits

-- The section of `init` after `new` has returned the dialer `x`.
unfoldable pub init_done_in : Init → ℕ → Lazy → Result
init_done_in dialing x d = ok (record d {
  xd = some x;
  state = online;
  err = none;
  timeout = if ltb 0 d.duration then some true else d.timeout;
  initing = false;
  init = idle;
  registering = suc d.registering;
})
init_done_in idle x d = waits
init_done_in started x d = waits

unfoldable pub init_done : ℕ → Lazy → Result
unfolding init_done_in
init_done x d = if d.readers == 0 then init_done_in d.init x d else waits

-- `context.AfterFunc(d.ctx, …)`, behind the unlock at the end of `init`.
unfoldable pub register : Lazy → Result
register d = if d.registering == 0 then waits else elim d.ctx [
  | none ↦ panics
  | some c ↦ ok (record d { registering = d.registering - 1; hooks = c ∷ d.hooks })
]

-- The timer of `syncutil.Timeout` fires with its deadline reached.
unfoldable pub timer_in : ConnectionState → Lazy → Result
unfolding cancelled close_dialer
timer_in online d = elim d.ctx [
  | none ↦ panics
  | some c ↦
      let cause' = cancelled c idle_timeout d.cause in
      ok (record d {
        cause = cause';
        closed = close_dialer d.xd d.closed;
        xd = none;
        state = offline;
        err = cause' c;
        ctx = none;
        timeout = none;
      })
]
timer_in offline d = ok d
timer_in connecting d = ok d
timer_in failed d = ok d

unfoldable pub timer : Lazy → Result
unfolding timer_in
timer d = elim d.timeout [ none ↦ waits | some armed ↦ if armed then timer_in d.state d else waits ]

unfoldable pub mem : ℕ → List ℕ → Bool
mem c [] = false
mem c (k ∷ ks) = k == c || mem c ks

unfoldable pub remove : ℕ → List ℕ → List ℕ
remove c [] = []
remove c (k ∷ ks) = if k == c then ks else k ∷ remove c ks

-- The `AfterFunc` callback of the context `c`, under the write lock.
unfoldable pub after_cancel : Lazy → Result
unfolding close_dialer is_close_requested
after_cancel d = elim d.ctx [
  | none ↦ panics
  | some k ↦ ok (record d {
    closed = if is_close_requested (d.cause k) then close_dialer d.xd d.closed else d.closed;
    xd = none;
    state = offline;
    err = d.cause k;
    ctx = none;
    timeout = none;
  })
]

unfoldable pub hook : ℕ → Lazy → Result
unfolding after_cancel mem remove
hook c d = elim (d.cause c) [
  | none ↦ waits
  | some _ ↦
      if d.readers == 0 && mem c d.hooks
      then after_cancel (record d { hooks = remove c d.hooks })
      else waits
]

-- `cancel(fmt.Errorf("underlying dialer closed: …"))`, from the goroutine that waits for it.
unfoldable pub below_closed : ℕ → ℕ → Lazy → Result
unfolding cancelled
below_closed c e d = ok (record d { cause = cancelled c (dialer_closed e) d.cause })

pub data Event : Type 0 where
  dials conn_ends resets closes begins registers timer_fires : Event
  fails connects hook_runs : ℕ → Event
  ends_below : ℕ → ℕ → Event

unfoldable pub step : Event → Lazy → Result
unfolding dial conn_done reset close init_begin init_failed init_done register timer hook
    below_closed
step dials d = dial d
step conn_ends d = conn_done d
step resets d = reset d
step closes d = close d
step begins d = init_begin d
step registers d = register d
step timer_fires d = timer d
step (fails e) d = init_failed e d
step (connects x) d = init_done x d
step (hook_runs c) d = hook c d
step (ends_below c e) d = below_closed c e d

-- A sequence of steps; one that waits leaves the dialer as it is.
unfoldable pub run : List Event → Lazy → Result
run [] d = ok d
run (e ∷ es) d = elim (step e d) [ ok d' ↦ run es d' | panics ↦ panics | waits ↦ run es d ]
