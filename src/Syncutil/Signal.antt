-- ===== src/Syncutil/Signal.antt =====
-- pkg/syncutil/signal.go: subscribers with buffered channels.
--
-- Each operation runs under `s.mu`, so it is one step. A channel has a number, and beside its
-- buffer the `index` that the `cancel` function of its subscription holds.
pub mod Cancel
use flakes.Common.{
  ℕ, zero, suc, ◌-◌, Bool, if◌then◌else◌, ltb, ◌==◌, List, [], ◌∷◌, ◌++◌, Option, none, some,
  length, get_elem?, min,
}

pub record Channel {ℓ} (T : Type ℓ) : Type ℓ where
  pub number : ℕ
  pub index : ℕ
  pub buffer : List T

pub record Signal {ℓ} (T : Type ℓ) : Type ℓ where
  pub chs : List (Channel T)
  -- The channels made so far, and the numbers of those closed, the last one first.
  pub made : ℕ
  pub closed : List ℕ

-- The capacity of a channel.
abbrev pub room : ℕ
room = 10

module _ {ℓ} {T : Type ℓ} where
  unfoldable pub new_signal : Signal T
  new_signal = record { chs = []; made = 0; closed = [] }

  -- `Subscribe`
  unfoldable pub subscribe : Signal T → Signal T
  subscribe s = record s {
    chs = s.chs ++ record { number = s.made; index = length s.chs; buffer = [] } ∷ [];
    made = suc s.made;
  }

  -- The loop of `cancel`, where the indices below `i` are left.
  unfoldable pub position : ℕ → ℕ → List (Channel T) → Option ℕ
  position number zero chs = none
  position number (suc i) chs =
      let rest = position number i chs in
      elim (get_elem? chs i) [
        | none ↦ rest
        | some ch ↦ if ch.number == number then some i else rest
      ]

  -- `append(s.chs[:i], s.chs[i+1:]...)`
  unfoldable pub remove_at : ℕ → List (Channel T) → List (Channel T)
  remove_at i [] = []
  remove_at zero (ch ∷ chs) = chs
  remove_at (suc i) (ch ∷ chs) = ch ∷ remove_at i chs

  -- `cancel`, of a subscription to the channel `number` at `index`. The loop starts from
  -- `min(index, len(s.chs)-1)`, so that many indices and one are left, or none.
  unfoldable pub cancel : ℕ → ℕ → Signal T → Signal T
  unfolding position remove_at
  cancel number index s = elim (position number (min (suc index) (length s.chs)) s.chs) [
    | none ↦ s
    | some i ↦ record s { chs = remove_at i s.chs; closed = number ∷ s.closed }
  ]

  unfoldable pub send : T → Channel T → Channel T
  send msg ch =
      if ltb (length ch.buffer) room then record ch { buffer = ch.buffer ++ msg ∷ [] } else ch

  -- `Publish`
  unfoldable pub publish_to : T → List (Channel T) → List (Channel T)
  unfolding send
  publish_to msg [] = []
  publish_to msg (ch ∷ chs) = send msg ch ∷ publish_to msg chs

  unfoldable pub publish : T → Signal T → Signal T
  unfolding publish_to
  publish msg s = record s { chs = publish_to msg s.chs }

pub data Op {ℓ} (T : Type ℓ) : Type ℓ where
  subscribes : Op T
  cancels : ℕ → ℕ → Op T
  publishes : T → Op T

module _ {ℓ} {T : Type ℓ} where
  unfoldable pub step : Op T → Signal T → Signal T
  unfolding subscribe cancel publish
  step subscribes s = subscribe s
  step (cancels number index) s = cancel number index s
  step (publishes msg) s = publish msg s

  unfoldable pub run : List (Op T) → Signal T → Signal T
  run [] s = s
  run (op ∷ ops) s = run ops (step op s)
