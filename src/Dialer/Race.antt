-- ===== src/Dialer/Race.antt =====
-- pkg/dialer/common.go and pkg/dialer/dailer.go: a call without a context, in a race with the end of
-- the context.
--
-- `dialContext` races a dial, `FromURLContext` the set-up of a dialer, with the same code: `C` is the
-- connection, or the dialer that can be closed. The goroutines run in any order.
pub mod Owned
use flakes.Common.{ℕ, Bool, true, false, if◌then◌else◌, List, [], ◌∷◌, ◌++◌, Option, none, some}

-- What a call returns, by the number of the connection and of the error; `none` is nil.
abbrev pub Got : Type 0
Got = Option ℕ × Option ℕ

-- What the goroutine has got, the error of the context once it is done, what the call has returned, whether the
-- goroutine that closes waits, and what it has closed.
pub record Race : Type 0 where
  pub got : Option Got
  pub ended : Option ℕ
  pub returned : Option Got
  pub is_waiting : Bool
  pub closed : List ℕ

unfoldable pub new_race : Race
new_race = record { got = none; ended = none; returned = none; is_waiting = false; closed = [] }

-- `conn, err = d.Dial(…)` with `close(done)`
unfoldable pub finish : Got → Race → Race
finish r s = elim s.got [ none ↦ record s { got = some r } | some r' ↦ s ]

-- The context ends, with its error; it does so once.
unfoldable pub end : ℕ → Race → Race
end err s = elim s.ended [ none ↦ record s { ended = some err } | some err' ↦ s ]

-- The case `<-ctx.Done()`, which returns `ctx.Err()`.
unfoldable pub select_done : Race → Race
select_done s = elim s.ended [
  | none ↦ s
  | some err ↦ elim s.returned [
    | none ↦ record s { returned = some (none, some err); is_waiting = true }
    | some r ↦ s
  ]
]

-- The case `<-done`
unfoldable pub select_got : Race → Race
select_got s = elim s.returned [
  | none ↦ elim s.got [ none ↦ s | some r ↦ record s { returned = some r } ]
  | some r ↦ s
]

-- The close of a connection that is not nil.
unfoldable pub close_got : Got → Race → Race
close_got (none, err) s = record s { is_waiting = false }
close_got (some c, err) s = record s { is_waiting = false; closed = s.closed ++ c ∷ [] }

-- The goroutine that waits for `done`.
unfoldable pub wait_got : Race → Race
unfolding close_got
wait_got s = if s.is_waiting then elim s.got [ none ↦ s | some r ↦ close_got r s ] else s

pub data Event : Type 0 where
  finishes : Got → Event
  ends : ℕ → Event
  takes_done takes_got waits : Event

unfoldable pub step : Event → Race → Race
unfolding finish end select_done select_got wait_got
step (finishes r) s = finish r s
step (ends err) s = end err s
step takes_done s = select_done s
step takes_got s = select_got s
step waits s = wait_got s

unfoldable pub run : List Event → Race → Race
unfolding step
run [] s = s
run (e ∷ events) s = run events (step e s)
