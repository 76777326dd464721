-- ===== src/Syncutil/Signal/Cancel.antt =====
-- `cancel` finds its channel: it never moves to a greater index.
use flakes.Common.{
  ℕ, zero, suc, ◌+◌, ◌≤◌, ◌<◌, min, ◌≡◌, refl, ap, ◌==◌, List, [], ◌∷◌, ◌++◌, some, length,
  get_elem?, arith, Option-cases, Bool-cases, ==_iff, inl, inr, length-append,
}
use native.Mathlib.Nat.{zero-add}
use flakes.Syncutil.Signal.{
  Channel, Signal, new_signal, subscribe, position, remove_at, cancel, send, publish_to, publish,
  Op, subscribes, cancels, publishes, step, run, room,
}

add_suc : (i n : ℕ) → i + suc n ≡ suc i + n
add_suc i n = omega arith

module _ {ℓ} {T : Type ℓ} where
  -- From position `i` on: no channel is beyond its index, the numbers rise from `lo` on and stay
  -- below `made`, and no buffer is over its room.
  abbrev pub Placed : ℕ → ℕ → ℕ → List (Channel T) → Type 0
  Placed i lo made [] = lo ≤ made
  Placed i lo made (ch ∷ chs) =
      (i ≤ ch.index)
      × (lo ≤ ch.number)
      × (length ch.buffer ≤ room)
      × Placed (suc i) (suc ch.number) made chs

  Placed-le : (i lo made : ℕ) (chs : List (Channel T)) → Placed i lo made chs → lo ≤ made
  Placed-le i lo made [] p = p
  Placed-le i lo made (ch ∷ chs) p =
      omega (arith, Placed-le (suc i) (suc ch.number) made chs p.3, p.1)

  Placed-mono :
      (i j lo low made : ℕ) (chs : List (Channel T))
      → j ≤ i
      → low ≤ lo
      → Placed i lo made chs
      → Placed j low made chs
  Placed-mono i j lo low made [] h l p = omega (arith, p)
  Placed-mono i j lo low made (ch ∷ chs) h l p = (
    omega (arith, p.0),
    omega (arith, p.1),
    p.2,
    Placed-mono (suc i) (suc j) (suc ch.number) (suc ch.number) made chs (omega arith) (omega arith)
        p.3,
  )

  Placed-subscribe :
      (i lo made : ℕ) (chs : List (Channel T))
      → Placed i lo made chs
      → Placed i lo
          (suc made)
          (chs ++ record { number = made; index = i + length chs; buffer = [] } ∷ [])
  Placed-subscribe i lo made [] p = (omega arith, p, omega arith, omega arith)
  Placed-subscribe i lo made (ch ∷ chs) p = (
    p.0,
    p.1,
    p.2,
    rw (add_suc i (length chs)) (Placed-subscribe (suc i) (suc ch.number) made chs p.3),
  )

  Placed-remove_at :
      (k i lo made : ℕ) (chs : List (Channel T))
      → Placed i lo made chs
      → Placed i lo made (remove_at k chs)
  unfolding remove_at
  Placed-remove_at zero i lo made [] p = p
  Placed-remove_at (suc k) i lo made [] p = p
  Placed-remove_at zero i lo made (ch ∷ chs) p =
      Placed-mono (suc i) i (suc ch.number) lo made chs (omega arith) (omega (arith, p.1)) p.3
  Placed-remove_at (suc k) i lo made (ch ∷ chs) p =
      (p.0, p.1, p.2, Placed-remove_at k (suc i) (suc ch.number) made chs p.3)

  send_index : (msg : T) (ch : Channel T) → (send msg ch).index ≡ ch.index
  unfolding send
  send_index msg ch = ground arith

  send_number : (msg : T) (ch : Channel T) → (send msg ch).number ≡ ch.number
  unfolding send
  send_number msg ch = ground arith

  send-room :
      (msg : T) (ch : Channel T) → length ch.buffer ≤ room → length (send msg ch).buffer ≤ room
  unfolding send
  send-room msg ch h = ground (arith, length-append ch.buffer (msg ∷ []))

  Placed-publish_to :
      (msg : T) (i lo made : ℕ) (chs : List (Channel T))
      → Placed i lo made chs
      → Placed i lo made (publish_to msg chs)
  unfolding publish_to
  Placed-publish_to msg i lo made [] p = p
  Placed-publish_to msg i lo made (ch ∷ chs) p = (
    rw (send_index msg ch) p.0,
    rw (send_number msg ch) p.1,
    send-room msg ch p.2,
    rw (send_number msg ch) (Placed-publish_to msg (suc i) (suc ch.number) made chs p.3),
  )

  pub step-Placed :
      (op : Op T) (s : Signal T)
      → Placed 0 0 s.made s.chs
      → Placed 0 0 (step op s).made (step op s).chs
  unfolding step subscribe publish cancel
  step-Placed subscribes s p = rw (← zero-add (length s.chs)) (Placed-subscribe 0 0 s.made s.chs p)
  step-Placed (publishes msg) s p = Placed-publish_to msg 0 0 s.made s.chs p
  step-Placed (cancels number index) s p =
      elim (Option-cases (position number (min (suc index) (length s.chs)) s.chs)) [
        | inl miss ↦ rw (cancel, miss) p
        | inr (i, hit) ↦ rw (cancel, hit) (Placed-remove_at i 0 0 s.made s.chs p)
      ]

  run-Placed :
      (ops : List (Op T)) (s : Signal T)
      → Placed 0 0 s.made s.chs
      → Placed 0 0 (run ops s).made (run ops s).chs
  unfolding run
  run-Placed [] s p = p
  run-Placed (op ∷ ops) s p = run-Placed ops (step op s) (step-Placed op s p)

  at-index :
      (k i lo made : ℕ) (chs : List (Channel T)) (ch : Channel T)
      → Placed i lo made chs
      → get_elem? chs k ≡ some ch
      → (i + k ≤ ch.index) × (lo + k ≤ ch.number) × (k < length chs)
  at-index k i lo made [] ch p h = absurd cc
  at-index zero i lo made (c ∷ chs) ch p h =
      (ground (arith, p.0, h), ground (arith, p.1, h), omega arith)
  at-index (suc k) i lo made (c ∷ chs) ch p h =
      omega (arith, at-index k (suc i) (suc c.number) made chs ch p.3 h, p.1)

  distinct :
      (k j i lo made : ℕ) (chs : List (Channel T)) (ch other : Channel T)
      → Placed i lo made chs
      → get_elem? chs k ≡ some ch
      → get_elem? chs j ≡ some other
      → other.number ≡ ch.number
      → j ≡ k
  distinct k j i lo made [] ch other p h g e = absurd cc
  distinct zero zero i lo made (c ∷ chs) ch other p h g e = refl
  distinct (suc k) (suc j) i lo made (c ∷ chs) ch other p h g e =
      ap suc (distinct k j (suc i) (suc c.number) made chs ch other p.3 h g e)
  distinct zero (suc j) i lo made (c ∷ chs) ch other p h g e =
      absurd (ground (arith, (at-index j (suc i) (suc c.number) made chs other p.3 g).1, e, h))
  distinct (suc k) zero i lo made (c ∷ chs) ch other p h g e =
      absurd (ground (arith, (at-index k (suc i) (suc c.number) made chs ch p.3 h).1, e, g))

  position-finds :
      (k n i lo made : ℕ) (chs : List (Channel T)) (ch : Channel T)
      → Placed i lo made chs
      → get_elem? chs k ≡ some ch
      → k < n
      → position ch.number n chs ≡ some k
  unfolding position
  position-finds k zero i lo made chs ch p h lt = absurd (omega arith)
  position-finds k (suc n) i lo made chs ch p h lt = elim (Option-cases (get_elem? chs n)) [
    | inl miss ↦
        rw (position, miss) (position-finds k n i lo made chs ch p h (ground (arith, miss, h, lt)))
    | inr (c, at) ↦ elim (Bool-cases (c.number == ch.number)) [
      | inl same ↦
          rw (position, at, same)
            (ap some (distinct k n i lo made chs ch c p h at ((==_iff c.number ch.number).0 same)))
      | inr apart ↦
          rw (position, at, apart)
            (position-finds k n i lo made chs ch p h (ground (arith, at, h, apart, lt)))
    ]
  ]

  -- After any operations, `cancel` of a subscription whose channel is still subscribed removes
  -- that channel and no other one, and closes it and no other one.
  pub cancel-run :
      (ops : List (Op T)) (k : ℕ) (ch : Channel T)
      → get_elem? (run ops new_signal).chs k ≡ some ch
      → let s' = cancel ch.number ch.index (run ops new_signal) in
        (s'.chs ≡ remove_at k (run ops new_signal).chs)
        × (s'.closed ≡ ch.number ∷ (run ops new_signal).closed)
  unfolding cancel new_signal
  cancel-run ops k ch h =
      let s = run ops new_signal in
      let placed = run-Placed ops new_signal (omega arith) in
      let bound = at-index k 0 0 s.made s.chs ch placed h in
      let n = min (suc ch.index) (length s.chs) in
      let inside : k < n = omega (arith, bound.0, bound.2) in
      rw (cancel, position-finds k n 0 0 s.made s.chs ch placed h inside) (refl, refl)
