-- ===== src/Netutil/Join.antt =====
-- pkg/netutil/io.go: `JoinBuffer`, which copies between two connections.
--
-- Each direction is a goroutine, whose reads and writes come in any order with those of the other
-- one and with what the peers send.
pub mod Ends
use flakes.Common.{Bool, true, false, if◌then◌else◌, List, [], ◌∷◌, ◌++◌, Bytes}

-- A connection: what its peer has sent and is not read yet, whether the peer sends no more, what is
-- written to it, and whether it is closed. `sent` is all that the peer has sent.
pub record Side : Type 0 where
  pub sent : List Bytes
  pub incoming : List Bytes
  pub is_eof : Bool
  pub written : List Bytes
  pub is_closed : Bool

unfoldable pub new_side : Side
new_side = record { sent = []; incoming = []; is_eof = false; written = []; is_closed = false }

-- A goroutine of `pipe`; `ended` is without an error.
pub data Pipe : Type 0 where
  running ended failed : Pipe

-- The connections, with the pipe from `a` to `b` and the one from `b` to `a`.
pub record Join : Type 0 where
  pub a : Side
  pub b : Side
  pub ab : Pipe
  pub ba : Pipe

unfoldable pub new_join : Join
unfolding new_side
new_join = record { a = new_side; b = new_side; ab = running; ba = running }

-- The same connections, named the other way round.
unfoldable pub flip : Join → Join
flip s = record { a = s.b; b = s.a; ab = s.ba; ba = s.ab }

-- The end of the pipe from `a` to `b`, with its deferred close.
unfoldable pub finish : Pipe → Join → Join
finish how s = record s { ab = how; b = record s.b { is_closed = true } }

-- One round of `io.CopyBuffer` from `a` to `b`: a read that waits changes nothing.
unfoldable pub copy_round : Join → Join
unfolding finish
copy_round s = if s.a.is_closed then finish failed s else elim s.a.incoming [
  | [] ↦ if s.a.is_eof then finish ended s else s
  | chunk ∷ chunks ↦
      let s' = record s { a = record s.a { incoming = chunks } } in
      if s.b.is_closed
      then finish failed s'
      else record s' { b = record s.b { written = s.b.written ++ chunk ∷ [] } }
]

unfoldable pub pipe_turn : Join → Join
unfolding copy_round
pipe_turn s = elim s.ab [ running ↦ copy_round s | ended ↦ s | failed ↦ s ]

-- The peer of `a` sends a chunk, or the end.
unfoldable pub arrive : Bytes → Join → Join
arrive chunk s = if s.a.is_eof then s else record s {
  a = record s.a { sent = s.a.sent ++ chunk ∷ []; incoming = s.a.incoming ++ chunk ∷ [] };
}

unfoldable pub end_input : Join → Join
end_input s = record s { a = record s.a { is_eof = true } }

-- From `a` to `b`, and back.
pub data Direction : Type 0 where
  forth back : Direction

unfoldable pub opposite : Direction → Direction
opposite forth = back
opposite back = forth

-- The connections, where the direction is the one from `a` to `b`.
unfoldable pub view : Direction → Join → Join
unfolding flip
view forth s = s
view back s = flip s

pub data Event : Type 0 where
  turn : Direction → Event
  arrives : Direction → Bytes → Event
  ends : Direction → Event

unfoldable pub step : Event → Join → Join
unfolding view pipe_turn arrive end_input
step (turn d) s = view d (pipe_turn (view d s))
step (arrives d chunk) s = view d (arrive chunk (view d s))
step (ends d) s = view d (end_input (view d s))

unfoldable pub run : List Event → Join → Join
run [] s = s
run (e ∷ events) s = run events (step e s)
