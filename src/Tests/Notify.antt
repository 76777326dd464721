-- ===== src/Tests/Notify.antt =====
-- pkg/notify/notify.go on short sequences.
use flakes.Common.{◌≡◌, refl, true, [], ◌∷◌, codes, some, get, put, bytes_eq, decimal}
use flakes.Notify.{
  Notify, Response, new_notify, run, ok, notifies_ch, cleans, responds, runs, is_closed, step,
  notify_ch, identified,
}
use flakes.Notify.Channels.{IsSafe, run-new_notify-IsSafe, response-delivered}

abbrev response : Response
response = record { identifier = codes "auto-1"; action = codes "open"; text = [] }

run-new_notify-IsSafe_example :
    IsSafe (
      run (notifies_ch [] ∷ cleans (codes "auto-1") 0 ∷ responds response ∷ runs 0 ∷ []) new_notify)
run-new_notify-IsSafe_example =
    run-new_notify-IsSafe
      (notifies_ch [] ∷ cleans (codes "auto-1") 0 ∷ responds response ∷ runs 0 ∷ [])

-- After the first notification with a channel: it is the channel 0.
abbrev waiting_state : Notify
waiting_state = record new_notify {
  chans = (codes "auto-1", 0) ∷ [];
  counter = 1;
  made = 1;
  shown = codes "auto-1" ∷ [];
}

waiting_lem : run (notifies_ch [] ∷ []) new_notify ≡ ok waiting_state
unfolding run step notify_ch new_notify identified decimal put get
waiting_lem = refl

found_lem : get (codes "auto-1") waiting_state.chans ≡ some 0
unfolding get bytes_eq
found_lem = refl

response-delivered_example :
    (s' : Notify) × (run (responds response ∷ runs 0 ∷ []) waiting_state ≡ ok s')
    × (s'.received 0 ≡ some response)
    × (is_closed 0 s'.closed ≡ true)
response-delivered_example =
    response-delivered (notifies_ch [] ∷ []) waiting_state 0 response waiting_lem found_lem
