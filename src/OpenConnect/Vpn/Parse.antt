-- ===== src/OpenConnect/Vpn/Parse.antt =====
-- The calls of the library that `ParseOpts` makes.
use flakes.Common.{
  ℕ, ◌==◌, ◌≢◌, sym, ◌∙◌, Option-cases, Bool-cases, inl, inr, arith, ltb, ap, if◌then◌else◌, ◌≡◌,
  refl, Bool, true, false, List, [], ◌∷◌, ◌++◌, Option, none, some, Bytes, codes,
}
use mathlib.Core.Path.{fun_ext}
use flakes.OpenConnect.Vpn.{
  OpError, errno, negated, call, oc_errno, Call, Library, Options, Session, Action, and_then, when,
  done, is_set, checked, unchecked, set_log_level, set_user_agent, set_version, set_proto,
  parse_server, setup_wrapper, set_dpd_seconds, allow_crypto, parse_opts, set_loglevel,
  set_useragent, set_version_string, set_protocol, parse_url, setup_csd, set_dpd,
  set_allow_insecure_crypto,
}

-- A call, with the name of its operation where its result is checked.
abbrev pub Made : Type 0
Made = Option Bytes × Call

-- The calls for an option that is given.
abbrev pub given : Bool → Bytes → Call → List Made
given true op c = (some op, c) ∷ []
given false op c = []

-- The calls for a set of options, in their order.
unfoldable pub calls_of : ℕ → Options → List Made
calls_of uid opts =
    (none, set_loglevel opts.log_level)
    ∷ (given (is_set opts.user_agent) (codes "set user agent") (set_useragent opts.user_agent)
        ++ (given (is_set opts.version_string) (codes "set version string")
              (set_version_string opts.version_string)
            ++ (given (is_set opts.protocol) (codes "set protocol") (set_protocol opts.protocol)
                ++ (given (is_set opts.server) (codes "parse URL") (parse_url opts.server)
                    ++ (given (is_set opts.csd) (codes "setup CSD") (setup_csd uid true opts.csd)
                        ++ ((if ltb 0 opts.force_dpd
                              then (none, set_dpd opts.force_dpd) ∷ []
                              else [])
                            ++ given opts.allow_insecure_crypto (codes "set allow-insecure-crypto")
                                (set_allow_insecure_crypto true)))))))

-- A last step, with nothing behind it.
ended {ℓ} :
    {W : Type ℓ} (r : Option OpError × Session W)
    → r ≡ (elim r.0 [ some e ↦ (some e, r.1) | none ↦ (none, r.1) ])
ended (none, s) = refl
ended (some e, s) = refl

module _ {ℓ} {W : Type ℓ} (lib : Library W) where
  -- What the library returns, and 0 without a session.
  unfoldable pub rc_of : Call → Session W → ℕ
  rc_of c s = elim s.vpninfo [ none ↦ 0 | some p ↦ (lib.call p c s.world).0.1 ]

  call-rc : (c : Call) (s : Session W) → (call lib c s).0 ≡ rc_of c s
  unfolding call rc_of
  call-rc c s = elim (Option-cases s.vpninfo) [
    | inl gone ↦ rw (call, rc_of, gone) refl
    | inr (p, held) ↦ rw (call, rc_of, held) refl
  ]

  -- How calls are made: the result of a call that is not checked does not matter, and a checked call
  -- with a result other than 0 ends them with the error of its operation and its negated result.
  pub data Makes : List Made → Session W → Option OpError → Session W → Type ℓ where
    no_calls : {s : Session W} → Makes [] s none s
    unchecked_call :
        {c : Call} {made : List Made} {s s' : Session W} {err : Option OpError}
        → Makes made (call lib c s).1 err s'
        → Makes ((none, c) ∷ made) s err s'
    goes_on :
        {op : Bytes} {c : Call} {made : List Made} {s s' : Session W} {err : Option OpError}
        → rc_of c s ≡ 0
        → Makes made (call lib c s).1 err s'
        → Makes ((some op, c) ∷ made) s err s'
    ends_with :
        {op : Bytes} {c : Call} {made : List Made} {s : Session W}
        → rc_of c s ≢ 0
        → Makes
            ((some op, c) ∷ made)
            s
            (some (record { op = op; err = errno (negated (rc_of c s)) }))
            (call lib c s).1

  unfoldable pub make_one : Made → Action W
  make_one (none, c) = unchecked lib c
  make_one (some op, c) = checked lib op c

  -- The calls up to the first one with an error.
  unfoldable pub make_all : List Made → Action W
  make_all [] s = (none, s)
  make_all (m ∷ made) s = and_then (make_one m) (make_all made) s

  checked-Makes :
      (op : Bytes) (c : Call) (made : List Made) (s : Session W)
      → (let r = make_all made (call lib c s).1 in Makes made (call lib c s).1 r.0 r.1)
      → let r = and_then (checked lib op c) (make_all made) s in
        Makes ((some op, c) ∷ made) s r.0 r.1
  unfolding and_then checked oc_errno
  checked-Makes op c made s rest = elim (Bool-cases ((call lib c s).0 == 0)) [
    | inl fine ↦
        rw (and_then, checked, oc_errno, fine)
          (goes_on (sym (call-rc c s) ∙ ground (arith, fine)) rest)
    | inr wrong ↦
        rw (and_then, checked, oc_errno, wrong, call-rc c s)
          (ends_with (λ h. ground (arith, wrong, h, call-rc c s)))
  ]

  make_all-Makes :
      (made : List Made) (s : Session W) → let r = make_all made s in Makes made s r.0 r.1
  unfolding make_all make_one and_then unchecked
  make_all-Makes [] s = no_calls
  make_all-Makes ((none, c) ∷ made) s = unchecked_call (make_all-Makes made (call lib c s).1)
  make_all-Makes ((some op, c) ∷ made) s =
      checked-Makes op c made s (make_all-Makes made (call lib c s).1)

  and_then-same :
      (a first second : Action W) (s : Session W)
      → ((s' : Session W) → first s' ≡ second s')
      → and_then a first s ≡ and_then a second s
  and_then-same a first second s h = ap (λ (r : Action W). and_then a r s) (fun_ext h)

  -- An option's step, before steps that make the calls `made`.
  when-given :
      (b : Bool) (op : Bytes) (c : Call) (made : List Made) (rest : Action W) (s : Session W)
      → ((s' : Session W) → rest s' ≡ make_all made s')
      → and_then (when b (checked lib op c)) rest s ≡ make_all (given b op c ++ made) s
  unfolding make_all when done make_one and_then
  when-given true op c made rest s h = and_then-same (checked lib op c) rest (make_all made) s h
  when-given false op c made rest s h = h s

  when-dpd :
      (b : Bool) (c : Call) (made : List Made) (rest : Action W) (s : Session W)
      → ((s' : Session W) → rest s' ≡ make_all made s')
      → and_then (when b (unchecked lib c)) rest s
        ≡ make_all ((if b then (none, c) ∷ [] else []) ++ made) s
  unfolding make_all when done make_one and_then
  when-dpd true c made rest s h = and_then-same (unchecked lib c) rest (make_all made) s h
  when-dpd false c made rest s h = h s

  when_last :
      (b : Bool) (op : Bytes) (c : Call) (s : Session W)
      → when b (checked lib op c) s ≡ make_all (given b op c) s
  unfolding make_all when done make_one and_then
  when_last true op c s = ended (checked lib op c s)
  when_last false op c s = refl

  pub parse_opts-make_all :
      (uid : ℕ) (opts : Options) (s : Session W)
      → parse_opts lib uid opts s
        ≡ make_all (calls_of uid opts) (record s { process_csd = opts.has_csd })
  unfolding parse_opts calls_of make_all make_one set_log_level set_user_agent set_version set_proto
      parse_server setup_wrapper set_dpd_seconds allow_crypto
  parse_opts-make_all uid opts s =
      and_then-same (unchecked lib (set_loglevel opts.log_level)) _ _ _ λ s1.
        when-given (is_set opts.user_agent) _ _ _ _ s1 λ s2.
          when-given (is_set opts.version_string) _ _ _ _ s2 λ s3.
            when-given (is_set opts.protocol) _ _ _ _ s3 λ s4.
              when-given (is_set opts.server) _ _ _ _ s4 λ s5.
                when-given (is_set opts.csd) _ _ _ _ s5 λ s6.
                  when-dpd (ltb 0 opts.force_dpd) _ _ _ s6
                    λ s7. when_last opts.allow_insecure_crypto _ _ s7

  -- `ParseOpts` makes the calls for the options that are given, in a fixed order. The first checked
  -- call with a result other than 0 ends it with the error of that call; without one all of the calls
  -- are made, and there is no error.
  pub parse_opts-calls_of :
      (uid : ℕ) (opts : Options) (s : Session W)
      → let (err, s') = parse_opts lib uid opts s in
        Makes (calls_of uid opts) (record s { process_csd = opts.has_csd }) err s'
  parse_opts-calls_of uid opts s =
      rw (parse_opts-make_all uid opts s)
        (make_all-Makes (calls_of uid opts) (record s { process_csd = opts.has_csd }))
