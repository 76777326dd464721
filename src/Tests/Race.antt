-- ===== src/Tests/Race.antt =====
-- pkg/dialer/common.go and pkg/stackutil/fdbased.go on short sequences.
use flakes.Common.{◌≢◌, ◌≡◌, [], ◌∷◌, some, none, codes, ◌⊎◌, List}
use flakes.Dialer.Race.{Event, finishes, ends, takes_done, waits, new_race, run, step}
use flakes.Dialer.Race.Owned.{made_by, run-IsOwned}
use flakes.Stackutil.Tun.{NetOptions, Parsers}

-- The context ends, and the dial connects afterwards.
abbrev late : List Event
late = ends 9 ∷ takes_done ∷ finishes (some 4, none) ∷ []

run-IsOwned_example :
    let s = run late new_race in
    ((s.closed ≡ []) ⊎ (s.closed ≡ made_by s.got))
    × (((s.returned ≡ none) ⊎ ((s.returned ≡ s.got) × (s.closed ≡ [])))
        ⊎ ((s.ended ≢ none)
            × (s.returned ≡ some (none, s.ended))
            × ((s.got ≡ none) ⊎ ((step waits s).closed ≡ made_by s.got))))
run-IsOwned_example = run-IsOwned late

abbrev options : NetOptions
options = record {
  addr = codes "10.0.0.2";
  netmask = codes "255.255.255.0";
  netmask6 = [];
  dns = codes "10.0.0.1" ∷ [];
  mtu = 1400;
}

abbrev parsers : Parsers
parsers = record { parse_ip4 = λ s. some (255 ∷ 255 ∷ 255 ∷ 0 ∷ []); parse_cidr = λ s. none }
