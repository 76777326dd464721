-- ===== src/Tests/OpenConnect.antt =====
-- pkg/openconnect with a small library, whose world counts the calls.
use flakes.Common.{
  ℕ, suc, ◌==◌, if◌then◌else◌, ◌≡◌, refl, true, false, [], ◌∷◌, codes, none, some, ◌⊎◌,
}
use flakes.OpenConnect.Vpn.{Library, Options, Session, parse_opts}
use flakes.OpenConnect.Vpn.Parse.{parse_opts-calls_of, Makes, calls_of}
use flakes.OpenConnect.Client.{
  connect, conn_of, run, runs, closes, watches, frees, loop_ends, run_free,
}
use flakes.OpenConnect.Client.Release.{IsHeld, connect-IsHeld, owned}
use flakes.OpenConnect.Client.Running.{run_conn-freed}

-- A library whose call `bad` fails with 22.
abbrev library : ℕ → Library ℕ
library bad = record {
  new = λ user_agent w. (some 7, suc w);
  free = λ p w. suc w;
  call = λ p c w. (([], if w == bad then 4294967274 else 0), suc w);
}

abbrev options : Options
options = record {
  user_agent = [];
  version_string = codes "5";
  protocol = codes "anyconnect";
  server = codes "vpn.example.com";
  csd = [];
  log_level = 1;
  force_dpd = 5;
  allow_insecure_crypto = true;
  has_csd = true;
}

abbrev session : Session ℕ
session = record {
  vpninfo = some 7;
  err_ch = none;
  process_csd = false;
  handles = 7 ∷ [];
  allocated = 7 ∷ [];
  freed = [];
  world = 0;
}

parse_opts-calls_of_example :
    let (err, s') = parse_opts (library 3) 501 options session in
    Makes (library 3) (calls_of 501 options) (record session { process_csd = true }) err s'
parse_opts-calls_of_example = parse_opts-calls_of (library 3) 501 options session

connect-IsHeld_example : IsHeld (connect (library 9) 501 options 0)
connect-IsHeld_example = connect-IsHeld (library 9) 501 options 0

held_lem : owned session ≡ (some 7, (7 ∷ [], (7 ∷ [], [])))
unfolding owned
held_lem = refl

run_conn-freed_example :
    let c =
      run (library 99) (runs ∷ loop_ends 7 22 ∷ watches ∷ frees ∷ closes ∷ []) (conn_of session) in
    ((c.cause ≡ none) × (owned c.session ≡ (some 7, (7 ∷ [], (7 ∷ [], [])))))
    ⊎ ((¬ (c.cause ≡ none))
        × (((owned c.session ≡ (some 7, (7 ∷ [], (7 ∷ [], []))))
              ⊎ (owned c.session ≡ (none, ([], (7 ∷ [], 7 ∷ [])))))
            × (owned (run_free (library 99) c).session ≡ (none, ([], (7 ∷ [], 7 ∷ []))))))
run_conn-freed_example =
    run_conn-freed (library 99) 7 (runs ∷ loop_ends 7 22 ∷ watches ∷ frees ∷ closes ∷ []) session
      held_lem
