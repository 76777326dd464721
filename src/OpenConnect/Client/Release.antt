-- ===== src/OpenConnect/Client/Release.antt =====
-- What the errors of `Connect` do to the session: it is freed once, or stays open.
use flakes.Common.{ℕ, ◌≡◌, refl, ◌∙◌, ap, List, [], ◌∷◌, Option, none, some, arith}
use flakes.OpenConnect.Vpn.{
  OpError, Call, Library, Options, Session, Action, and_then, call, checked, unchecked, parse_opts,
  free, without, obtain, callback_error, setup_pipe, make_cstp,
}
use flakes.OpenConnect.Vpn.Parse.{Made, make_one, make_all, calls_of, parse_opts-make_all}
use flakes.OpenConnect.Client.{
  Error, failed, not_created, completed, with_agent, parsed, created, new, connect_session, connect,
}

-- What no call of the library changes: the pointer, the handles, the allocated and the freed.
unfoldable pub owned {ℓ} : {W : Type ℓ} → Session W → Option ℕ × (List ℕ × (List ℕ × List ℕ))
owned s = (s.vpninfo, (s.handles, (s.allocated, s.freed)))

module _ {ℓ} {W : Type ℓ} (lib : Library W) where
  pub call-owned : (c : Call) (s : Session W) → owned (call lib c s).1 ≡ owned s
  unfolding call owned
  call-owned c s = ground arith

  rest-owned :
      (r : Option OpError × Session W) (b : Action W) (s : Session W)
      → owned r.1 ≡ owned s
      → ((s' : Session W) → owned (b s').1 ≡ owned s')
      → owned
          (elim r.0 as (λ (e : Option OpError). Option OpError × Session W) [
            | some e ↦ (some e, r.1)
            | none ↦ b r.1
          ]).1
        ≡ owned s
  rest-owned (none, s') b s p q = q s' ∙ p
  rest-owned (some e, s') b s p q = p

  and_then-owned :
      (a b : Action W) (s : Session W)
      → owned (a s).1 ≡ owned s
      → ((s' : Session W) → owned (b s').1 ≡ owned s')
      → owned (and_then a b s).1 ≡ owned s
  unfolding and_then
  and_then-owned a b s p q = rest-owned (a s) b s p q

  make_one-owned : (m : Made) (s : Session W) → owned (make_one lib m s).1 ≡ owned s
  unfolding make_one checked unchecked
  make_one-owned (none, c) s = call-owned c s
  make_one-owned (some op, c) s = call-owned c s

  make_all-owned : (made : List Made) (s : Session W) → owned (make_all lib made s).1 ≡ owned s
  unfolding make_all
  make_all-owned [] s = refl
  make_all-owned (m ∷ made) s =
      and_then-owned (make_one lib m) (make_all lib made) s (make_one-owned m s)
        (make_all-owned made)

  parse_opts-owned :
      (uid : ℕ) (opts : Options) (s : Session W) → owned (parse_opts lib uid opts s).1 ≡ owned s
  unfolding owned
  parse_opts-owned uid opts s =
      ap (λ (r : Option OpError × Session W). owned r.1) (parse_opts-make_all lib uid opts s)
      ∙ make_all-owned (calls_of uid opts) (record s { process_csd = opts.has_csd })

  callback_error-owned : (e : OpError) (s : Session W) → owned (callback_error lib e s).1 ≡ owned s
  unfolding callback_error owned
  callback_error-owned e s = ground arith

  obtain-owned : (s : Session W) → owned (obtain lib s).1 ≡ owned s
  unfolding obtain checked unchecked
  obtain-owned s = grind (arith, callback_error-owned, call-owned)

  setup_pipe-owned : (s : Session W) → owned (setup_pipe lib s).1 ≡ owned s
  unfolding setup_pipe
  setup_pipe-owned s = grind (arith, call-owned)

  make_cstp-owned : (s : Session W) → owned (make_cstp lib s).1 ≡ owned s
  unfolding make_cstp checked
  make_cstp-owned s = call-owned _ s

  connect_session-owned : (uid : ℕ) (s : Session W) → owned (connect_session lib uid s).1 ≡ owned s
  unfolding connect_session
  connect_session-owned uid s =
      and_then-owned (setup_pipe lib) (and_then (obtain lib) (make_cstp lib)) s (setup_pipe-owned s)
        λ s'. and_then-owned (obtain lib) (make_cstp lib) s' (obtain-owned s') make_cstp-owned

-- A session that stays open, one that was freed once, and one that was never created.
unfoldable pub IsHeld {ℓ} : {W : Type ℓ} → Option Error × Session W → Type 0
IsHeld (none, s) = (p : ℕ) × owned s ≡ (some p, (p ∷ [], (p ∷ [], [])))
IsHeld (some (failed e), s) = (p : ℕ) × owned s ≡ (none, ([], (p ∷ [], p ∷ [])))
IsHeld (some not_created, s) = owned s ≡ (none, ([], ([], [])))

module _ {ℓ} {W : Type ℓ} (lib : Library W) (uid : ℕ) where
  free-owned :
      (p : ℕ) (s : Session W)
      → owned s ≡ (some p, (p ∷ [], (p ∷ [], [])))
      → owned (free lib s) ≡ (none, ([], (p ∷ [], p ∷ [])))
  unfolding owned free without
  free-owned p s held = ground (arith, held)

  parsed-IsHeld :
      (p : ℕ) (r : Option OpError × Session W)
      → owned r.1 ≡ (some p, (p ∷ [], (p ∷ [], [])))
      → IsHeld (parsed lib uid r)
  unfolding parsed IsHeld
  parsed-IsHeld p (none, s) held = (p, held)
  parsed-IsHeld p (some e, s) held = (p, free-owned p s held)

  created-IsHeld : (opts : Options) (r : Option ℕ × W) → IsHeld (created lib uid opts r)
  unfolding created IsHeld owned
  created-IsHeld opts (none, w) = refl
  created-IsHeld opts (some p, w) = parsed-IsHeld p _ (parse_opts-owned lib uid opts _)

  new-IsHeld : (opts : Options) (w : W) → IsHeld (new lib uid opts w)
  unfolding new
  new-IsHeld opts w = created-IsHeld (with_agent opts) (lib.new (with_agent opts).user_agent w)

  connected-IsHeld :
      (r : Option Error × Session W)
      → IsHeld r
      → IsHeld (elim r.0 as (λ (e : Option Error). Option Error × Session W) [
        | some e ↦ (some e, r.1)
        | none ↦ parsed lib uid (connect_session lib uid r.1)
      ])
  unfolding IsHeld
  connected-IsHeld (none, s) (p, held) =
      parsed-IsHeld p (connect_session lib uid s) (connect_session-owned lib uid s ∙ held)
  connected-IsHeld (some e, s) held = held

  -- `Connect` that succeeds has a session whose handle is stored and which is not freed; `Connect`
  -- that fails after the library made a session has freed it once and removed its handle, whichever
  -- step failed; otherwise there was no session.
  pub connect-IsHeld : (opts : Options) (w : W) → IsHeld (connect lib uid opts w)
  unfolding connect
  connect-IsHeld opts w =
      connected-IsHeld (new lib uid (completed opts) w) (new-IsHeld (completed opts) w)
