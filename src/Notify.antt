-- ===== src/Notify.antt =====
-- pkg/notify/notify.go: notifications, and the channels that wait for their responses.
--
-- The map of channels is a `sync.Map`, whose operations are atomic, and nothing else is locked. So
-- a call is cut where it has taken a channel out of the map: what it then does with that channel,
-- to send the response and to close it, is a task that runs at any later time, in any order.
pub mod Channels
use flakes.Common.{
  ℕ, suc, ◌+◌, ◌==◌, if◌then◌else◌, Bool, true, false, List, [], ◌∷◌, ◌++◌, Option, none, some,
  Bytes, codes, Map, get, put, delete, decimal, bytes_eq, zero,
}

pub record Response : Type 0 where
  pub identifier : Bytes
  pub action : Bytes
  pub text : Bytes

-- What is left of a call that took a channel: `close(ch)`, or the send before it.
pub data Task : Type 0 where
  closing : ℕ → Task
  sending : ℕ → Response → Task

-- A channel is its number. It has room for one response.
pub record Notify : Type 0 where
  pub chans : Map ℕ
  pub counter : ℕ
  pub made : ℕ
  pub tasks : List Task
  pub closed : List ℕ
  pub received : ℕ → Option Response
  -- The identifiers that the application shows, the last one first.
  pub shown : List Bytes

unfoldable pub new_notify : Notify
new_notify = record {
  chans = [];
  counter = 0;
  made = 0;
  tasks = [];
  closed = [];
  received = λ c. none;
  shown = [];
}

unfoldable pub removed : Bytes → List Bytes → List Bytes
removed id [] = []
removed id (i ∷ ids) = let rest = removed id ids in if bytes_eq i id then rest else i ∷ rest

-- `Remove`, of one identifier.
unfoldable pub remove : Bytes → List Bytes → List Bytes
unfolding removed
remove [] shown = shown
remove (c ∷ id) shown = removed (c ∷ id) shown

-- The identifier of a notification, the counter then, and what is shown after the `Remove`.
unfoldable pub identified : Bytes → Notify → Bytes × Notify
unfolding remove
identified [] s = (codes "auto-" ++ decimal (suc s.counter), record s { counter = suc s.counter })
identified (c ∷ id) s = (c ∷ id, record s { shown = remove (c ∷ id) s.shown })

-- `if loaded { close(prev) }`
unfoldable pub close_loaded : Option ℕ → List Task → List Task
close_loaded none tasks = tasks
close_loaded (some prev) tasks = closing prev ∷ tasks

-- `Notify`: the call of `notify` without a channel.
unfoldable pub notify : Bytes → Notify → Notify
unfolding identified close_loaded
notify identifier s =
    let (id, s') = identified identifier s in
    record s' {
      chans = delete id s'.chans;
      tasks = close_loaded (get id s'.chans) s'.tasks;
      shown = id ∷ s'.shown;
    }

-- `NotifyCh`, whose channel gets the next number.
unfoldable pub notify_ch : Bytes → Notify → Notify
unfolding identified close_loaded
notify_ch identifier s =
    let (id, s') = identified identifier s in
    record s' {
      chans = put id s'.made s'.chans;
      made = suc s'.made;
      tasks = close_loaded (get id s'.chans) s'.tasks;
      shown = id ∷ s'.shown;
    }

-- The `cleanup` of the notification `id` with the channel `ch`.
unfoldable pub cleanup : Bytes → ℕ → Notify → Notify
unfolding remove
cleanup id ch s = elim (get id s.chans) [
  | none ↦ s
  | some c ↦
      if c == ch
      then record s {
        chans = delete id s.chans;
        tasks = closing ch ∷ s.tasks;
        shown = remove id s.shown;
      }
      else s
]

-- `ResponseHandler`
unfoldable pub response_handler : Response → Notify → Notify
unfolding remove
response_handler resp s = elim (get resp.identifier s.chans) [
  | none ↦ record s { shown = remove resp.identifier s.shown }
  | some ch ↦ record s {
    chans = delete resp.identifier s.chans;
    tasks = sending ch resp ∷ s.tasks;
    shown = remove resp.identifier s.shown;
  }
]

-- `panics`: a channel that is closed is closed again, or is sent to.
pub data Result : Type 0 where
  ok : Notify → Result
  panics : Result

unfoldable pub is_closed : ℕ → List ℕ → Bool
is_closed ch [] = false
is_closed ch (c ∷ closed) = if c == ch then true else is_closed ch closed

unfoldable pub close : ℕ → Notify → Result
unfolding is_closed
close ch s = if is_closed ch s.closed then panics else ok (record s { closed = ch ∷ s.closed })

-- `select { case ch <- resp: default: return }`
unfoldable pub send : ℕ → Response → Notify → Result
unfolding is_closed
send ch resp s = if is_closed ch s.closed then panics else elim (s.received ch) [
  | none ↦ ok (record s { received = λ c. if c == ch then some resp else s.received c })
  | some first ↦ ok s
]

unfoldable pub run_task : Task → Notify → Result
unfolding close send
run_task (closing ch) s = close ch s
run_task (sending ch resp) s = elim (send ch resp s) [ panics ↦ panics | ok s' ↦ close ch s' ]

-- The task at an index, and the others.
unfoldable pub take_task : ℕ → List Task → Option (Task × List Task)
take_task i [] = none
take_task zero (t ∷ tasks) = some (t, tasks)
take_task (suc i) (t ∷ tasks) = elim (take_task i tasks) [
  | none ↦ none
  | some (u, rest) ↦ some (u, t ∷ rest)
]

pub data Event : Type 0 where
  notifies notifies_ch : Bytes → Event
  cleans : Bytes → ℕ → Event
  responds : Response → Event
  runs : ℕ → Event

unfoldable pub step : Event → Notify → Result
unfolding notify notify_ch cleanup response_handler run_task take_task
step (notifies id) s = ok (notify id s)
step (notifies_ch id) s = ok (notify_ch id s)
step (cleans id ch) s = ok (cleanup id ch s)
step (responds resp) s = ok (response_handler resp s)
step (runs i) s = elim (take_task i s.tasks) [
  | none ↦ ok s
  | some (t, tasks) ↦ run_task t (record s { tasks = tasks })
]

unfoldable pub run : List Event → Notify → Result
run [] s = ok s
run (e ∷ events) s = elim (step e s) [ panics ↦ panics | ok s' ↦ run events s' ]
