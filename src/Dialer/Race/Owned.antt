-- ===== src/Dialer/Race/Owned.antt =====
-- A connection that is made is returned, or closed once.
use flakes.Common.{
  ℕ, ◌≡◌, ◌≢◌, refl, true, false, List, [], ◌∷◌, Option, none, some, ◌⊎◌, inl, arith,
}
use flakes.Dialer.Race.{
  Got, Race, new_race, finish, select_done, end, select_got, close_got, wait_got, Event, finishes,
  ends, takes_done, takes_got, waits, step, run,
}

-- The connections of a result.
unfoldable pub made_by : Option Got → List ℕ
made_by none = []
made_by (some (none, err)) = []
made_by (some (some c, err)) = c ∷ []

-- Before the return nothing waits and nothing is closed. Afterwards what is made is what is
-- returned, or the context's error alone is returned, and what is made is closed, or waits for it.
IsOwned : Race → Type 0
IsOwned s =
    ((s.returned ≡ none) × (s.is_waiting ≡ false) × (s.closed ≡ []))
    ⊎ (((s.returned ≡ s.got) × (s.got ≢ none) × (s.is_waiting ≡ false) × (s.closed ≡ []))
        ⊎ ((s.ended ≢ none)
            × (s.returned ≡ some (none, s.ended))
            × (((s.is_waiting ≡ true) × (s.closed ≡ []))
                ⊎ ((s.is_waiting ≡ false) × (s.got ≢ none) × (s.closed ≡ made_by s.got)))))

finish-IsOwned : (r : Got) (s : Race) → IsOwned s → IsOwned (finish r s)
unfolding finish IsOwned
finish-IsOwned r s owned = ground (arith, owned)

end-IsOwned : (err : ℕ) (s : Race) → IsOwned s → IsOwned (end err s)
unfolding end IsOwned
end-IsOwned err s owned = ground (arith, owned)

done-IsOwned : (s : Race) → IsOwned s → IsOwned (select_done s)
unfolding select_done IsOwned made_by
done-IsOwned s owned = ground (arith, owned)

got-IsOwned : (s : Race) → IsOwned s → IsOwned (select_got s)
unfolding select_got IsOwned
got-IsOwned s owned = ground (arith, owned)

wait-IsOwned : (s : Race) → IsOwned s → IsOwned (wait_got s)
unfolding wait_got close_got IsOwned made_by
wait-IsOwned s owned = ground (arith, owned)

step-IsOwned : (e : Event) (s : Race) → IsOwned s → IsOwned (step e s)
unfolding step IsOwned
step-IsOwned (finishes r) s owned = finish-IsOwned r s owned
step-IsOwned (ends err) s owned = end-IsOwned err s owned
step-IsOwned takes_done s owned = done-IsOwned s owned
step-IsOwned takes_got s owned = got-IsOwned s owned
step-IsOwned waits s owned = wait-IsOwned s owned

loop-IsOwned : (events : List Event) (s : Race) → IsOwned s → IsOwned (run events s)
unfolding run
loop-IsOwned [] s owned = owned
loop-IsOwned (e ∷ events) s owned = loop-IsOwned events (step e s) (step-IsOwned e s owned)

new_race-IsOwned : IsOwned new_race
unfolding IsOwned new_race
new_race-IsOwned = inl (refl, refl, refl)

closed-once : (s : Race) → IsOwned s → (s.closed ≡ []) ⊎ (s.closed ≡ made_by s.got)
unfolding IsOwned
closed-once s owned = ground (arith, owned)

settled :
    (s : Race)
    → IsOwned s
    → ((s.returned ≡ none) ⊎ ((s.returned ≡ s.got) × (s.closed ≡ [])))
      ⊎ ((s.ended ≢ none)
          × (s.returned ≡ some (none, s.ended))
          × ((s.got ≡ none) ⊎ ((step waits s).closed ≡ made_by s.got)))
unfolding IsOwned step wait_got close_got made_by
settled s owned = ground (arith, owned)

-- In every order of the dial, the end of the context, the return and what the goroutines do: what the
-- dial makes is closed at most once; once the call has returned, either it has returned what the dial
-- made, which is not closed, or the context is done, it has returned its error and no connection,
-- and what the dial made is closed as soon as the goroutine that waits for it runs.
pub run-IsOwned :
    (events : List Event)
    → let s = run events new_race in
      ((s.closed ≡ []) ⊎ (s.closed ≡ made_by s.got))
      × (((s.returned ≡ none) ⊎ ((s.returned ≡ s.got) × (s.closed ≡ [])))
          ⊎ ((s.ended ≢ none)
              × (s.returned ≡ some (none, s.ended))
              × ((s.got ≡ none) ⊎ ((step waits s).closed ≡ made_by s.got))))
run-IsOwned events =
    let owned = loop-IsOwned events new_race new_race-IsOwned in
    (closed-once (run events new_race) owned, settled (run events new_race) owned)
