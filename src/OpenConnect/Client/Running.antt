-- ===== src/OpenConnect/Client/Running.antt =====
-- A connection over all sequences of its events.
use flakes.Common.{
  ℕ, ◌≡◌, refl, true, false, List, [], ◌∷◌, Option, none, some, inl, inr, ◌⊎◌, arith, Option-cases,
}
use flakes.OpenConnect.Vpn.{OpError, Library, Session, free, without, main_loop, checked}
use flakes.OpenConnect.Bridge.{go_mainloop_result}
use flakes.OpenConnect.Client.{
  Conn, conn_of, cancel, close, watch, stop_watch, loop_ended, started, run_conn, run_free, Event,
  runs, closes, watches, stops, frees, loop_ends, step, run,
}
use flakes.OpenConnect.Client.Release.{owned, call-owned}

-- The session is open until `Free`, which is due or done only when there is a cause.
pub record IsOnce {ℓ} {W : Type ℓ} (p : ℕ) (c : Conn W) : Type ℓ where
  pub once :
      (owned c.session ≡ (some p, (p ∷ [], (p ∷ [], []))))
      ⊎ (owned c.session ≡ (none, ([], (p ∷ [], p ∷ []))))
  pub uncaused : c.cause ≡ none → owned c.session ≡ (some p, (p ∷ [], (p ∷ [], [])))
  pub undue : c.cause ≡ none → c.free_due ≡ false
  pub freed_or_due :
      (owned c.session ≡ (none, ([], (p ∷ [], p ∷ [])))) ⊎ (c.cause ≡ none ⊎ c.free_due ≡ true)

module _ {ℓ} {W : Type ℓ} (lib : Library W) (p : ℕ) where
  cancel-IsOnce : (err : Option OpError) (c : Conn W) → IsOnce p c → IsOnce p (cancel err c)
  unfolding cancel owned
  cancel-IsOnce err c i = ground (arith, i.once, i.uncaused, i.undue, i.freed_or_due)

  close-IsOnce : (c : Conn W) → IsOnce p c → IsOnce p (close c)
  unfolding close cancel owned
  close-IsOnce c i = ground (arith, i.once, i.uncaused, i.undue, i.freed_or_due)

  watch-IsOnce : (c : Conn W) → IsOnce p c → IsOnce p (watch c)
  unfolding watch cancel owned
  watch-IsOnce c i = ground (arith, i.once, i.uncaused, i.undue, i.freed_or_due)

  loop_ended-IsOnce : (q rc : ℕ) (c : Conn W) → IsOnce p c → IsOnce p (loop_ended q rc c)
  unfolding loop_ended owned go_mainloop_result
  loop_ended-IsOnce q rc c i = ground (arith, i.once, i.uncaused, i.undue, i.freed_or_due)

  run_free-IsOnce : (c : Conn W) → IsOnce p c → IsOnce p (run_free lib c)
  unfolding run_free owned free without
  run_free-IsOnce c i = ground (arith, i.once, i.uncaused, i.undue, i.freed_or_due)

  -- What changes only the session, and nothing it owns.
  session-IsOnce :
      (c c' : Conn W)
      → owned c'.session ≡ owned c.session
      → c'.cause ≡ c.cause
      → c'.free_due ≡ c.free_due
      → IsOnce p c
      → IsOnce p c'
  session-IsOnce c c' same cause due i = record {
    once = rw (same) i.once;
    uncaused = rw (same, cause) i.uncaused;
    undue = rw (cause, due) i.undue;
    freed_or_due = rw (same, cause, due) i.freed_or_due;
  }

  started-IsOnce :
      (r : Option OpError × Session W) (c : Conn W)
      → owned r.1 ≡ owned c.session
      → IsOnce p c
      → IsOnce p (started lib c r).1
  unfolding started
  started-IsOnce (none, s) c same i = session-IsOnce c _ same refl refl i
  started-IsOnce (some e, s) c same i =
      cancel-IsOnce (some e) _ (session-IsOnce c _ same refl refl i)

  step-IsOnce : (e : Event) (c : Conn W) → IsOnce p c → IsOnce p (step lib e c)
  unfolding step run_conn main_loop checked stop_watch owned
  step-IsOnce runs c i = started-IsOnce (main_loop lib c.session) c (call-owned lib _ c.session) i
  step-IsOnce closes c i = close-IsOnce c i
  step-IsOnce watches c i = watch-IsOnce c i
  step-IsOnce stops c i = ground (arith, i.once, i.uncaused, i.undue, i.freed_or_due)
  step-IsOnce frees c i = run_free-IsOnce c i
  step-IsOnce (loop_ends q rc) c i = loop_ended-IsOnce q rc c i

  run-IsOnce : (events : List Event) (c : Conn W) → IsOnce p c → IsOnce p (run lib events c)
  unfolding run
  run-IsOnce [] c i = i
  run-IsOnce (e ∷ events) c i = run-IsOnce events (step lib e c) (step-IsOnce e c i)

  freed_after :
      (c : Conn W)
      → IsOnce p c
      → ¬ (c.cause ≡ none)
      → owned (run_free lib c).session ≡ (none, ([], (p ∷ [], p ∷ [])))
  unfolding run_free owned free without
  freed_after c i caused = ground (arith, i.once, i.freed_or_due, caused)

  conn_of-IsOnce :
      (s : Session W) → owned s ≡ (some p, (p ∷ [], (p ∷ [], []))) → IsOnce p (conn_of s)
  unfolding conn_of
  conn_of-IsOnce s held = record {
    once = inl held;
    uncaused = λ _. held;
    undue = λ _. refl;
    freed_or_due = inr (inl refl);
  }

  -- Whatever follows `Connect`, in any order and any number of times (`Run`, `Close`, the errors
  -- that its goroutine receives, `Free`, the end of the main loop): the session is open while
  -- nothing has cancelled the connection; once something has, it has been freed at most once, and
  -- is freed, with its handle removed, as soon as the `Free` that waits has run.
  pub run_conn-freed :
      (events : List Event) (s : Session W)
      → owned s ≡ (some p, (p ∷ [], (p ∷ [], [])))
      → let c = run lib events (conn_of s) in
        ((c.cause ≡ none) × (owned c.session ≡ (some p, (p ∷ [], (p ∷ [], [])))))
        ⊎ ((¬ (c.cause ≡ none))
            × (((owned c.session ≡ (some p, (p ∷ [], (p ∷ [], []))))
                  ⊎ (owned c.session ≡ (none, ([], (p ∷ [], p ∷ [])))))
                × (owned (run_free lib c).session ≡ (none, ([], (p ∷ [], p ∷ []))))))
  run_conn-freed events s held =
      let c = run lib events (conn_of s) in
      let i = run-IsOnce events (conn_of s) (conn_of-IsOnce s held) in
      elim (Option-cases c.cause) [
        | inl uncaused ↦ inl (uncaused, i.uncaused uncaused)
        | inr (e, caused) ↦
            let not_none : ¬ (c.cause ≡ none) = ground (arith, caused) in
            inr (not_none, (i.once, freed_after c i not_none))
      ]
