-- ===== src/Dialer/Lazy/Safe.antt =====
-- The dialer with no idle timeout: no order of the steps makes it panic.
use flakes.Common.{
  ℕ, ◌≡◌, ◌≢◌, refl, ◌⊎◌, Bool, true, false, List, [], ◌∷◌, Option, none, some, arith,
}
use flakes.Dialer.Lazy.{
  Lazy, ConnectionState, offline, connecting, failed, online, Cause, Init, idle, started, dialing,
  Result, ok, panics, waits, Event, dials, conn_ends, resets, closes, begins, registers,
  timer_fires, fails, connects, hook_runs, ends_below, setup_failed, new_lazy, cancelled, dial,
  conn_done, reset, close, init_begin, init_failed, init_done, register, timer, hook, below_closed,
  step, run, remove, dial_in, reset_in, init_begin_in, init_failed_in, init_done_in,
}

-- The callback that is registered on a context.
abbrev pub callbacks : Option ℕ → List ℕ
callbacks none = []
callbacks (some c) = c ∷ []

abbrev pub Quiet : Lazy → Type 0
Quiet d = (d.registering ≡ 0) × (d.hooks ≡ [])

-- What goes with each state.
abbrev pub Goes : ConnectionState → Lazy → Type 0
Goes offline d = (d.ctx ≡ none) × (d.xd ≡ none) × (d.init ≢ dialing) × Quiet d
Goes connecting d = (d.ctx ≢ none) × (d.xd ≡ none) × (d.init ≡ dialing) × Quiet d
Goes failed d = (d.ctx ≡ none) × (d.xd ≡ none) × (d.init ≡ idle) × (d.err ≢ none) × Quiet d
Goes online d =
    (d.ctx ≢ none)
    × (d.xd ≢ none)
    × (d.init ≡ idle)
    × (((d.registering ≡ 1) × (d.hooks ≡ [])) ⊎ ((d.registering ≡ 0) × (d.hooks ≡ callbacks d.ctx)))

abbrev pub Pending : Bool → Init → Type 0
Pending initing idle = initing ≡ false
Pending initing started = initing ≡ true
Pending initing dialing = initing ≡ true

pub record Inv (d : Lazy) : Type 0 where
  pub no_timeout : (d.duration ≡ 0) × (d.timeout ≡ none)
  pub pending : Pending d.initing d.init
  pub goes : Goes d.state d

abbrev pub IsSafe : Result → Type 0
IsSafe (ok d) = Inv d
IsSafe panics = ⊥
IsSafe waits = Unit

dial-IsSafe : (s : ConnectionState) (d : Lazy) → d.state ≡ s → Inv d → IsSafe (dial_in s d)
unfolding dial_in
dial-IsSafe offline d e v = ground arith
dial-IsSafe connecting d e v = v
dial-IsSafe failed d e v = v
dial-IsSafe online d e v = ground arith

conn_done-IsSafe : (d : Lazy) → Inv d → IsSafe (conn_done d)
unfolding conn_done
conn_done-IsSafe d v = ground arith

reset-IsSafe : (s : ConnectionState) (d : Lazy) → d.state ≡ s → Inv d → Inv (reset_in s d)
unfolding reset_in
reset-IsSafe failed d e v = ground arith
reset-IsSafe offline d e v = v
reset-IsSafe connecting d e v = v
reset-IsSafe online d e v = v

close-IsSafe : (d : Lazy) → Inv d → IsSafe (close d)
unfolding close
close-IsSafe d v = ground arith

begin-IsSafe : (i : Init) (d : Lazy) → d.init ≡ i → Inv d → IsSafe (init_begin_in i d)
unfolding init_begin_in
begin-IsSafe started d e v = ground arith
begin-IsSafe idle d e v = tt
begin-IsSafe dialing d e v = tt

cancelled-ne : (c : ℕ) (e : Cause) (cause : ℕ → Option Cause) → cancelled c e cause c ≢ none
unfolding cancelled
cancelled-ne c e cause = ground arith

failed-IsSafe : (i : Init) (n : ℕ) (d : Lazy) → d.init ≡ i → Inv d → IsSafe (init_failed_in i n d)
unfolding init_failed_in
failed-IsSafe dialing n d e v = ground (arith, λ (c : ℕ). cancelled-ne c (setup_failed n) d.cause)
failed-IsSafe idle n d e v = tt
failed-IsSafe started n d e v = tt

done-IsSafe : (i : Init) (x : ℕ) (d : Lazy) → d.init ≡ i → Inv d → IsSafe (init_done_in i x d)
unfolding init_done_in
done-IsSafe dialing x d e v = ground arith
done-IsSafe idle x d e v = tt
done-IsSafe started x d e v = tt

register-IsSafe : (d : Lazy) → Inv d → IsSafe (register d)
unfolding register
register-IsSafe d v = ground arith

hook-IsSafe : (c : ℕ) (d : Lazy) → Inv d → IsSafe (hook c d)
unfolding hook remove
hook-IsSafe c d v = ground arith

timer-IsSafe : (d : Lazy) → Inv d → IsSafe (timer d)
unfolding timer
timer-IsSafe d v = ground arith

-- No step of a dialer without an idle timeout panics, and each keeps the invariant: a context and a
-- dialer stand exactly while it is online or, the context alone, connecting, `initing` is set
-- exactly while `init` runs, a failed dialer has an error, and an online one has its callback.
pub step-IsSafe : (e : Event) (d : Lazy) → Inv d → IsSafe (step e d)
unfolding step dial reset init_begin init_failed init_done below_closed
step-IsSafe dials d v = dial-IsSafe d.state d refl v
step-IsSafe conn_ends d v = conn_done-IsSafe d v
step-IsSafe resets d v = ground (arith, reset-IsSafe d.state d refl v)
step-IsSafe closes d v = close-IsSafe d v
step-IsSafe begins d v = ground (arith, begin-IsSafe d.init d refl v)
step-IsSafe registers d v = register-IsSafe d v
step-IsSafe timer_fires d v = timer-IsSafe d v
step-IsSafe (fails n) d v = ground (arith, failed-IsSafe d.init n d refl v)
step-IsSafe (connects x) d v = ground (arith, done-IsSafe d.init x d refl v)
step-IsSafe (hook_runs c) d v = hook-IsSafe c d v
step-IsSafe (ends_below c n) d v = record {
  no_timeout = v.no_timeout;
  pending = v.pending;
  goes = ground arith;
}

run_after :
    (e : Event) (es : List Event) (d : Lazy) (r : Result)
    → IsSafe r
    → step e d ≡ r
    → ((d' : Lazy) → Inv d' → IsSafe (run es d'))
    → IsSafe (run es d)
    → IsSafe (run (e ∷ es) d)
unfolding run
run_after e es d (ok d') v p rest here = rw (run, p) (rest d' v)
run_after e es d panics v p rest here = absurd v
run_after e es d waits v p rest here = rw (run, p) here

run-IsSafe : (es : List Event) (d : Lazy) → Inv d → IsSafe (run es d)
unfolding run
run-IsSafe [] d v = v
run-IsSafe (e ∷ es) d v =
    run_after e es d (step e d) (step-IsSafe e d v) refl (run-IsSafe es) (run-IsSafe es d v)

new_lazy-Inv : Inv (new_lazy 0)
unfolding new_lazy
new_lazy-Inv = record {
  no_timeout = (refl, refl);
  pending = refl;
  goes = (refl, refl, (λ e. cc), (refl, refl));
}

-- A new dialer without an idle timeout panics in no order of its steps, however many there are, and
-- the invariant holds at the end.
pub run-new_lazy-IsSafe : (es : List Event) → IsSafe (run es (new_lazy 0))
run-new_lazy-IsSafe es = run-IsSafe es (new_lazy 0) new_lazy-Inv
