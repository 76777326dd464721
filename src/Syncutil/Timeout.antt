-- ===== src/Syncutil/Timeout.antt =====
-- pkg/syncutil/timeout.go: a timeout that can be stopped and set again.
--
-- Times are in nanoseconds. The runs of the timer that are due but have not got the lock yet are
-- counted, as `Stop` and `Reset` do not take them back.
use flakes.Common.{
  ℕ, suc, zero, ◌+◌, if◌then◌else◌, ltb, leb, ◌==◌, ◌||◌, List, [], ◌∷◌, Option, none, some,
}

pub record Timeout : Type 0 where
  pub now : ℕ
  -- When the timer fires, if it does.
  pub timer : Option ℕ
  pub deadline : ℕ
  pub due : ℕ
  -- The times at which the callback ran, the last one first.
  pub calls : List ℕ

-- `NewTimeout` at a time
unfoldable pub new_timeout : ℕ → ℕ → Timeout
new_timeout now d = record {
  now = now;
  timer = some (now + d);
  deadline = now + d;
  due = 0;
  calls = [];
}

-- `Stop`
unfoldable pub stop : Timeout → Timeout
stop t = record t { timer = none; deadline = 0 }

-- `Reset`
unfoldable pub reset : ℕ → Timeout → Timeout
reset d t = record t { timer = some (t.now + d); deadline = t.now + d }

-- Time passes, and the timer may fire.
unfoldable pub pass : ℕ → Timeout → Timeout
pass d t =
    let t' = record t { now = t.now + d } in
    elim t.timer [
      | none ↦ t'
      | some at ↦ if leb at (t.now + d) then record t' { timer = none; due = suc t.due } else t'
    ]

-- `runWithLock`, of a run that is due
unfoldable pub run_with_lock : Timeout → Timeout
run_with_lock t = elim t.due [
  | zero ↦ t
  | suc k ↦
      let t' = record t { due = k } in
      if (t.deadline == 0) || ltb t.now t.deadline
      then t'
      else record t' { calls = t.now ∷ t.calls }
]
