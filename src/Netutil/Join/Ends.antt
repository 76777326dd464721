-- ===== src/Netutil/Join/Ends.antt =====
-- A copy between two connections ends in both directions.
use flakes.Common.{
  ℕ, zero, suc, ◌≤◌, ◌<◌, ◌≡◌, ◌≢◌, refl, ◌⊎◌, inl, inr, Bool, true, false, List, [], ◌∷◌, ◌++◌,
  Bytes, length, append_assoc, append-nil, arith, if◌then◌else◌, Bool-cases,
}
use flakes.Netutil.Join.{
  running, ended, failed, Join, new_join, flip, finish, copy_round, pipe_turn, arrive, end_input,
  Direction, forth, back, opposite, view, Event, turn, arrives, ends, step, run,
}

-- The turns of the pipe of a direction.
unfoldable pub takes : Direction → Event → Bool
takes forth (turn forth) = true
takes back (turn back) = true
takes d e = false

unfoldable pub turns : Direction → List Event → ℕ
unfolding takes
turns d [] = 0
turns d (e ∷ events) = if takes d e then suc (turns d events) else turns d events

-- What a pipe owes: the close of its destination once it has ended, and what is sent, in its order.
record IsKept (s : Join) : Type 0 where
  closes : (s.ab ≡ running) ⊎ (s.b.is_closed ≡ true)
  copies : (s.ab ≡ failed) ⊎ (s.b.written ++ s.a.incoming ≡ s.a.sent)
  ends_with : (s.ab ≢ ended) ⊎ ((s.a.incoming ≡ []) × (s.a.is_eof ≡ true))

turn-IsKept : (s : Join) → IsKept s → IsKept (pipe_turn s)
unfolding pipe_turn copy_round finish
turn-IsKept s kept = grind (arith, kept.closes, kept.copies, kept.ends_with, append_assoc)

flip-turn-IsKept : (s : Join) → IsKept (flip s) → IsKept (flip (pipe_turn s))
unfolding pipe_turn copy_round finish flip
flip-turn-IsKept s kept = ground (arith, kept.closes, kept.copies, kept.ends_with)

arrive-IsKept : (c : Bytes) (s : Join) → IsKept s → IsKept (arrive c s)
unfolding arrive
arrive-IsKept c s kept = ground (
  arith,
  kept.closes,
  kept.copies,
  kept.ends_with,
  append_assoc s.b.written s.a.incoming (c ∷ []),
)

flip-arrive-IsKept : (c : Bytes) (s : Join) → IsKept (flip s) → IsKept (flip (arrive c s))
unfolding arrive flip
flip-arrive-IsKept c s kept = ground (arith, kept.closes, kept.copies, kept.ends_with)

end-IsKept : (s : Join) → IsKept s → IsKept (end_input s)
unfolding end_input
end-IsKept s kept = ground (arith, kept.closes, kept.copies, kept.ends_with)

flip-end-IsKept : (s : Join) → IsKept (flip s) → IsKept (flip (end_input s))
unfolding end_input flip
flip-end-IsKept s kept = ground (arith, kept.closes, kept.copies, kept.ends_with)

-- Both pipes do.
IsJoined : Join → Type 0
IsJoined s = IsKept s × IsKept (flip s)

step-IsJoined : (e : Event) (s : Join) → IsJoined s → IsJoined (step e s)
unfolding step view IsJoined flip
step-IsJoined (turn forth) s (k, k') = (turn-IsKept s k, flip-turn-IsKept s k')
step-IsJoined (turn back) s (k, k') = (flip-turn-IsKept (flip s) k, turn-IsKept (flip s) k')
step-IsJoined (arrives forth c) s (k, k') = (arrive-IsKept c s k, flip-arrive-IsKept c s k')
step-IsJoined (arrives back c) s (k, k') =
    (flip-arrive-IsKept c (flip s) k, arrive-IsKept c (flip s) k')
step-IsJoined (ends forth) s (k, k') = (end-IsKept s k, flip-end-IsKept s k')
step-IsJoined (ends back) s (k, k') = (flip-end-IsKept (flip s) k, end-IsKept (flip s) k')

run-IsJoined : (events : List Event) (s : Join) → IsJoined s → IsJoined (run events s)
unfolding run
run-IsJoined [] s j = j
run-IsJoined (e ∷ events) s j = run-IsJoined events (step e s) (step-IsJoined e s j)

-- At most `k` rounds are left to the pipe from `a` to `b`: it has ended, or its source has sent its
-- end, with less than `k` chunks before it.
abbrev Left : ℕ → Join → Type 0
Left zero s = s.ab ≢ running
Left (suc k) s = (s.ab ≢ running) ⊎ ((s.a.is_eof ≡ true) × (length s.a.incoming ≤ k))

turn-Left : (k : ℕ) (s : Join) → Left (suc k) s → Left k (pipe_turn s)
unfolding pipe_turn copy_round finish
turn-Left zero s left = ground (arith, left)
turn-Left (suc k) s left = ground (arith, left)

turn-Left_over : (s : Join) → Left zero s → Left zero (pipe_turn s)
unfolding pipe_turn copy_round finish
turn-Left_over s left = ground (arith, left)

flip-turn-Left : (k : ℕ) (s : Join) → Left k (flip s) → Left k (flip (pipe_turn s))
unfolding pipe_turn copy_round finish flip
flip-turn-Left zero s left = ground (arith, left)
flip-turn-Left (suc k) s left = ground (arith, left)

arrive-Left : (k : ℕ) (c : Bytes) (s : Join) → Left k s → Left k (arrive c s)
unfolding arrive
arrive-Left zero c s left = ground (arith, left)
arrive-Left (suc k) c s left = ground (arith, left)

flip-arrive-Left : (k : ℕ) (c : Bytes) (s : Join) → Left k (flip s) → Left k (flip (arrive c s))
unfolding arrive flip
flip-arrive-Left zero c s left = ground (arith, left)
flip-arrive-Left (suc k) c s left = ground (arith, left)

end-Left : (k : ℕ) (s : Join) → Left k s → Left k (end_input s)
unfolding end_input
end-Left zero s left = left
end-Left (suc k) s left = ground (arith, left)

flip-end-Left : (k : ℕ) (s : Join) → Left k (flip s) → Left k (flip (end_input s))
unfolding end_input flip
flip-end-Left zero s left = left
flip-end-Left (suc k) s left = left

-- A turn of the pipe leaves one round less, and no other event leaves more.
step-Left :
    (d : Direction) (k : ℕ) (e : Event) (s : Join)
    → Left (if takes d e then suc k else k) (view d s)
    → Left k (view d (step e s))
unfolding takes step view flip
step-Left forth k (turn forth) s left = turn-Left k s left
step-Left forth k (turn back) s left = flip-turn-Left k (flip s) left
step-Left back k (turn forth) s left = flip-turn-Left k s left
step-Left back k (turn back) s left = turn-Left k (flip s) left
step-Left forth k (arrives forth c) s left = arrive-Left k c s left
step-Left forth k (arrives back c) s left = flip-arrive-Left k c (flip s) left
step-Left back k (arrives forth c) s left = flip-arrive-Left k c s left
step-Left back k (arrives back c) s left = arrive-Left k c (flip s) left
step-Left forth k (ends forth) s left = end-Left k s left
step-Left forth k (ends back) s left = flip-end-Left k (flip s) left
step-Left back k (ends forth) s left = flip-end-Left k s left
step-Left back k (ends back) s left = end-Left k (flip s) left

step-Left_over :
    (d : Direction) (e : Event) (s : Join) → Left zero (view d s) → Left zero (view d (step e s))
unfolding takes
step-Left_over d e s left = elim (Bool-cases (takes d e)) [
  | inl mine ↦ step-Left d zero e s (rw (mine) (inl left))
  | inr others ↦ step-Left d zero e s (rw (others) left)
]

run-Left :
    (d : Direction) (k : ℕ) (events : List Event) (s : Join)
    → Left k (view d s)
    → k ≤ turns d events
    → Left zero (view d (run events s))
unfolding run turns
run-Left d zero [] s left enough = left
run-Left d (suc k) [] s left enough = absurd (omega arith)
run-Left d zero (e ∷ events) s left enough =
    run-Left d zero events (step e s) (step-Left_over d e s left) (omega arith)
run-Left d (suc k) (e ∷ events) s left enough = elim (Bool-cases (takes d e)) [
  | inl mine ↦
      run-Left d k events (step e s) (step-Left d k e s (rw (mine) left))
        (ground (arith, enough, mine))
  | inr others ↦
      run-Left d (suc k) events (step e s) (step-Left d (suc k) e s (rw (others) left))
        (ground (arith, enough, others))
]

-- A pipe whose source is closed ends at its next turn.
closed-Left : (s : Join) → s.a.is_closed ≡ true → Left zero (pipe_turn s)
unfolding pipe_turn copy_round finish
closed-Left s closed = ground (arith, closed)

opposite_turn-Left :
    (d : Direction) (s : Join)
    → (view d s).b.is_closed ≡ true
    → Left zero (view (opposite d) (step (turn (opposite d)) s))
unfolding step view flip opposite
opposite_turn-Left forth s closed = closed-Left (flip s) closed
opposite_turn-Left back s closed = closed-Left s closed

view-IsKept : (d : Direction) (s : Join) → IsJoined s → IsKept (view d s)
unfolding view IsJoined
view-IsKept forth s (k, k') = k
view-IsKept back s (k, k') = k'

-- How the pipe from `a` to `b` has ended: without an error, when all that was sent is written to
-- `b` in its order, or with one.
pub IsEnded : Join → Type 0
IsEnded s = ((s.ab ≡ ended) × (s.b.written ≡ s.a.sent)) ⊎ (s.ab ≡ failed)

kept-IsEnded : (s : Join) → IsKept s → Left zero s → IsEnded s
unfolding IsEnded
kept-IsEnded s kept left = ground (arith, kept.copies, kept.ends_with, left, append-nil s.b.written)

new_join-IsJoined : IsJoined new_join
unfolding IsJoined new_join flip
new_join-IsJoined = (
  record { closes = inl refl; copies = inr refl; ends_with = inl cc },
  record { closes = inl refl; copies = inr refl; ends_with = inl cc },
)

run-append : (xs ys : List Event) (s : Join) → run (xs ++ ys) s ≡ run ys (run xs s)
unfolding run
run-append [] ys s = refl
run-append (x ∷ xs) ys s = run-append xs ys (step x s)

stays-Left :
    (d : Direction) (events : List Event) (s : Join)
    → Left zero (view d s)
    → Left zero (view d (run events s))
stays-Left d events s left = run-Left d zero events s left (omega arith)

-- Once the peer of one side sends no more, `Join` returns in both directions, in every order of the
-- reads, the writes and what the peers send: it is enough that the pipe from that side has a round
-- for each chunk that is left and one more, and that the other pipe then has one, whose source is
-- closed by then. A pipe that ends without an error has written all that was sent, in its order.
pub run-IsEnded :
    (d : Direction) (before events after : List Event)
    → (view d (run before new_join)).a.is_eof ≡ true
    → length (view d (run before new_join)).a.incoming < turns d events
    → let s = run (events ++ turn (opposite d) ∷ after) (run before new_join) in
      IsEnded (view d s) × IsEnded (view (opposite d) s)
unfolding run
run-IsEnded d before events after eof enough =
    let s = run before new_join in
    let joined : IsJoined s = run-IsJoined before new_join new_join-IsJoined in
    let s' = run events s in
    let joined' : IsJoined s' = run-IsJoined events s joined in
    let left : Left zero (view d s') =
      run-Left d (suc (length (view d s).a.incoming)) events s (inr (eof, omega arith))
        (omega arith) in
    let closed : (view d s').b.is_closed ≡ true =
      ground (arith, left, (view-IsKept d s' joined').closes) in
    let last = step (turn (opposite d)) s' in
    let joined'' : IsJoined (run after last) =
      run-IsJoined after last (step-IsJoined (turn (opposite d)) s' joined') in
    rw (run-append events (turn (opposite d) ∷ after) s) (
      kept-IsEnded _ (view-IsKept d (run after last) joined'')
          (stays-Left d after last (step-Left_over d (turn (opposite d)) s' left)),
      kept-IsEnded _ (view-IsKept (opposite d) (run after last) joined'')
          (stays-Left (opposite d) after last (opposite_turn-Left d s' closed)),
    )
