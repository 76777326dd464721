-- ===== src/Tests/Join.antt =====
-- pkg/netutil/io.go: a copy in which one peer ends.
use flakes.Common.{List, ◌≡◌, refl, ◌∷◌, [], ◌++◌, codes, true, length, arith, ◌<◌}
use flakes.Netutil.Join.{new_join, forth, opposite, view, Event, turn, arrives, ends, run, step}
use flakes.Netutil.Join.Ends.{IsEnded, turns, run-IsEnded}

abbrev asked : List Event
asked = arrives forth (codes "ask") ∷ ends forth ∷ []

ask_ended : (view forth (run asked new_join)).a.is_eof ≡ true
unfolding view run step new_join
ask_ended = refl

ask_enough :
    length (view forth (run asked new_join)).a.incoming < turns forth (turn forth ∷ turn forth ∷ [])
unfolding view run step new_join turns
ask_enough = omega arith

run-IsEnded_example :
    let s =
      run ((turn forth ∷ turn forth ∷ []) ++ turn (opposite forth) ∷ []) (run asked new_join) in
    IsEnded (view forth s) × IsEnded (view (opposite forth) s)
run-IsEnded_example = run-IsEnded forth asked (turn forth ∷ turn forth ∷ []) [] ask_ended ask_enough
