-- ===== src/Notify/Channels.antt =====
-- No channel is closed twice, and none is sent to when it is closed.
use flakes.Common.{
  ℕ, zero, suc, ◌+◌, ◌≤◌, ◌==◌, if◌then◌else◌, ltb, true, false, ◌≡◌, refl, subst, List, [], ◌∷◌,
  Option, none, some, Bytes, Map, get, put, delete, codes, ◌++◌, decimal, arith, Option-cases, inl,
  inr,
}
use flakes.Notify.{
  Notify, Task, closing, sending, Result, ok, panics, Event, notify, notify_ch, cleanup,
  response_handler, run_task, take_task, step, run, new_notify, remove, identified, close_loaded,
  is_closed, close, send, notifies, notifies_ch, cleans, responds, runs, Response,
}

-- 1 at the number `c`.
abbrev pub one : ℕ → ℕ → ℕ
one c d = if d == c then 1 else 0

unfoldable pub in_map : ℕ → Map ℕ → ℕ
in_map c [] = 0
in_map c ((k, d) ∷ m) = one c d + in_map c m

abbrev pub task_channel : Task → ℕ
task_channel (closing ch) = ch
task_channel (sending ch resp) = ch

unfoldable pub in_tasks : ℕ → List Task → ℕ
in_tasks c [] = 0
in_tasks c (t ∷ tasks) = one c (task_channel t) + in_tasks c tasks

unfoldable pub in_list : ℕ → List ℕ → ℕ
in_list c [] = 0
in_list c (d ∷ ds) = one c d + in_list c ds

abbrev loaded : ℕ → Option ℕ → ℕ
loaded c none = 0
loaded c (some d) = one c d

in_map-delete :
    (c : ℕ) (k : Bytes) (m : Map ℕ) → in_map c (delete k m) + loaded c (get k m) ≤ in_map c m
unfolding in_map delete get
in_map-delete c k [] = omega arith
in_map-delete c k ((j, d) ∷ m) = ground (arith, in_map-delete c k m)

in_map-put :
    (c : ℕ) (k : Bytes) (v : ℕ) (m : Map ℕ)
    → in_map c (put k v m) + loaded c (get k m) ≤ in_map c m + one c v
unfolding in_map put get
in_map-put c k v [] = omega arith
in_map-put c k v ((j, d) ∷ m) = ground (arith, in_map-put c k v m)

in_tasks-take_task :
    (c i : ℕ) (tasks rest : List Task) (t : Task)
    → take_task i tasks ≡ some (t, rest)
    → in_tasks c tasks ≡ one c (task_channel t) + in_tasks c rest
unfolding in_tasks take_task
in_tasks-take_task c i [] rest t h = absurd cc
in_tasks-take_task c zero (u ∷ tasks) rest t h = ground (arith, h)
in_tasks-take_task c (suc i) (u ∷ tasks) rest t h = elim (Option-cases (take_task i tasks)) [
  | inl miss ↦ absurd (cc (miss, h))
  | inr ((v, others), hit) ↦ ground (arith, hit, h, in_tasks-take_task c i tasks others v hit)
]

is_closed-in_list : (c : ℕ) (closed : List ℕ) → in_list c closed ≡ 0 → is_closed c closed ≡ false
unfolding in_list is_closed
is_closed-in_list c [] h = refl
is_closed-in_list c (d ∷ closed) h = ground (arith, is_closed-in_list c closed)

-- The places where a channel is held: the map, the tasks, and those closed.
unfoldable pub holders : ℕ → Notify → ℕ
unfolding in_map in_tasks in_list
holders c s = in_map c s.chans + in_tasks c s.tasks + in_list c s.closed

-- 1 where the channel has got a response.
unfoldable pub got : ℕ → Notify → ℕ
got c s = elim (s.received c) [ none ↦ 0 | some resp ↦ 1 ]

-- Each channel that was made is held at one place at most, no other channel is held, and one that
-- has got a response is closed.
abbrev pub Owned : Notify → Type 0
Owned s = (c : ℕ) → (holders c s ≤ (if ltb c s.made then 1 else 0)) × (got c s ≤ in_list c s.closed)

abbrev pub IsSafe : Result → Type 0
IsSafe (ok s) = Owned s
IsSafe panics = ⊥

in_tasks-close_loaded :
    (c : ℕ) (prev : Option ℕ) (tasks : List Task)
    → in_tasks c (close_loaded prev tasks) ≡ loaded c prev + in_tasks c tasks
unfolding in_tasks close_loaded
in_tasks-close_loaded c none tasks = omega arith
in_tasks-close_loaded c (some prev) tasks = refl

notify-Owned : (id : Bytes) (s : Notify) → Owned s → Owned (notify id s)
unfolding notify identified holders got
notify-Owned [] s o c =
    let id = codes "auto-" ++ decimal (suc s.counter) in
    ground
      (arith, o c, in_map-delete c id s.chans, in_tasks-close_loaded c (get id s.chans) s.tasks)
notify-Owned (b ∷ id) s o c = ground (
  arith,
  o c,
  in_map-delete c (b ∷ id) s.chans,
  in_tasks-close_loaded c (get (b ∷ id) s.chans) s.tasks,
)

notify_ch-Owned : (id : Bytes) (s : Notify) → Owned s → Owned (notify_ch id s)
unfolding notify_ch identified holders got
notify_ch-Owned [] s o c =
    let id = codes "auto-" ++ decimal (suc s.counter) in
    ground
      (arith, o c, in_map-put c id s.made s.chans, in_tasks-close_loaded c (get id s.chans) s.tasks)
notify_ch-Owned (b ∷ id) s o c = ground (
  arith,
  o c,
  in_map-put c (b ∷ id) s.made s.chans,
  in_tasks-close_loaded c (get (b ∷ id) s.chans) s.tasks,
)

cleanup-Owned : (id : Bytes) (ch : ℕ) (s : Notify) → Owned s → Owned (cleanup id ch s)
unfolding cleanup holders in_tasks got
cleanup-Owned id ch s o c = elim (Option-cases (get id s.chans)) [
  | inl miss ↦ ground (arith, o c, miss)
  | inr (d, hit) ↦ ground (arith, o c, hit, in_map-delete c id s.chans)
]

response_handler-Owned : (resp : Response) (s : Notify) → Owned s → Owned (response_handler resp s)
unfolding response_handler holders in_tasks got
response_handler-Owned resp s o c = elim (Option-cases (get resp.identifier s.chans)) [
  | inl miss ↦ ground (arith, o c, miss)
  | inr (d, hit) ↦ ground (arith, o c, hit, in_map-delete c resp.identifier s.chans)
]

-- A channel that a task holds is not closed.
task_open :
    (ch : ℕ) (s : Notify) (rest : ℕ)
    → Owned s
    → in_tasks ch s.tasks ≡ suc rest
    → is_closed ch s.closed ≡ false
unfolding holders
task_open ch s rest o h = is_closed-in_list ch s.closed (ground (arith, o ch, h))

runs-IsSafe : (i : ℕ) (s : Notify) → Owned s → IsSafe (step (runs i) s)
unfolding step run_task close send holders in_list got
runs-IsSafe i s o = elim (Option-cases (take_task i s.tasks)) [
  | inl miss ↦ rw (step, miss) o
  | inr ((closing ch, rest), hit) ↦
      let free =
        task_open ch s (in_tasks ch rest) o
          (ground (arith, in_tasks-take_task ch i s.tasks rest (closing ch) hit)) in
      rw (step, hit, run_task, close, free)
        (λ c. ground (arith, o c, in_tasks-take_task c i s.tasks rest (closing ch) hit))
  | inr ((sending ch resp, rest), hit) ↦
      let free =
        task_open ch s (in_tasks ch rest) o
          (ground (arith, in_tasks-take_task ch i s.tasks rest (sending ch resp) hit)) in
      let left = λ (c : ℕ). in_tasks-take_task c i s.tasks rest (sending ch resp) hit in
      elim (Option-cases (s.received ch)) [
        | inl first ↦
            rw (step, hit, run_task, send, free, first, close, free)
              (λ c. ground (arith, o c, left c, first))
        | inr (other, later) ↦
            rw (step, hit, run_task, send, free, later, close, free)
              (λ c. ground (arith, o c, left c, later))
      ]
]

step-IsSafe : (e : Event) (s : Notify) → Owned s → IsSafe (step e s)
unfolding step
step-IsSafe (notifies id) s o = notify-Owned id s o
step-IsSafe (notifies_ch id) s o = notify_ch-Owned id s o
step-IsSafe (cleans id ch) s o = cleanup-Owned id ch s o
step-IsSafe (responds resp) s o = response_handler-Owned resp s o
step-IsSafe (runs i) s o = runs-IsSafe i s o

rest-IsSafe :
    (events : List Event) (r : Result)
    → IsSafe r
    → ((s : Notify) → Owned s → IsSafe (run events s))
    → IsSafe (elim r [ panics ↦ panics | ok s ↦ run events s ])
rest-IsSafe events (ok s) safe ih = ih s safe
rest-IsSafe events panics safe ih = safe

run-IsSafe : (events : List Event) (s : Notify) → Owned s → IsSafe (run events s)
unfolding run
run-IsSafe [] s o = o
run-IsSafe (e ∷ events) s o =
    rest-IsSafe events (step e s) (step-IsSafe e s o) (λ s'. run-IsSafe events s')

-- In no order of the calls and of what they leave to do is a channel closed twice or sent to when
-- it is closed, and at the end each channel is held by the map, by one task or by none.
pub run-new_notify-IsSafe : (events : List Event) → IsSafe (run events new_notify)
unfolding new_notify holders in_map in_tasks in_list got
run-new_notify-IsSafe events = run-IsSafe events new_notify (λ c. ground arith)

-- A channel in the map is not closed and has got no response.
waiting :
    (s : Notify) (id : Bytes) (ch : ℕ)
    → Owned s
    → get id s.chans ≡ some ch
    → (is_closed ch s.closed ≡ false) × (s.received ch ≡ none)
unfolding holders got
waiting s id ch o h =
    let apart : in_list ch s.closed ≡ 0 = ground (arith, o ch, h, in_map-delete ch id s.chans) in
    (is_closed-in_list ch s.closed apart, ground (arith, o ch, apart))

-- A notification that waits for its response gets it: in every state that is reached, a response
-- to an identifier that has a channel is put into this channel, which is then closed.
pub response-delivered :
    (events : List Event) (s : Notify) (ch : ℕ) (resp : Response)
    → run events new_notify ≡ ok s
    → get resp.identifier s.chans ≡ some ch
    → (s' : Notify) × (run (responds resp ∷ runs 0 ∷ []) s ≡ ok s')
      × (s'.received ch ≡ some resp)
      × (is_closed ch s'.closed ≡ true)
unfolding run step response_handler run_task take_task is_closed close send
response-delivered events s ch resp e h =
    let o : Owned s = subst IsSafe e (run-new_notify-IsSafe events) in
    let (free, unsent) = waiting s resp.identifier ch o h in
    (
      record s {
        chans = delete resp.identifier s.chans;
        closed = ch ∷ s.closed;
        received = λ c. if c == ch then some resp else s.received c;
        shown = remove resp.identifier s.shown;
      },
      ground (arith, h, free, unsent),
      ground arith,
      ground arith,
    )
