-- ===== src/OpenConnect/Vpn.antt =====
-- pkg/openconnect/vpninfo.go: a session of the OpenConnect library.
--
-- The library is a parameter: a call changes its world, returns a C int, here by its 32 bits, and
-- may call back, where the callbacks offer errors to the session's channel.
pub mod Parse
use flakes.Common.{
  ℕ, ◌+◌, ◌-◌, ◌%◌, ◌^◌, ◌==◌, Bool, true, false, not, if◌then◌else◌, ltb, List, [], ◌∷◌, Option,
  none, some, Bytes, codes,
}

-- An error: an errno, that of `errors.New`, or that of `fmt.Errorf` with `%w` at its end.
pub data Cause : Type 0 where
  errno : ℕ → Cause
  other : Bytes → Cause
  wrapped : Bytes → Cause → Cause

-- A result with an error.
pub data Outcome {ℓ} (A : Type ℓ) : Type ℓ where
  breaks : Cause → Outcome A
  gives : A → Outcome A

pub record OpError : Type 0 where
  pub op : Bytes
  pub err : Cause

-- The functions of the library that the session calls, with their arguments.
pub data Call : Type 0 where
  set_useragent set_version_string parse_url set_hostname set_protocol setup_tun_script :
      Bytes → Call
  setup_tun_fd set_loglevel set_dpd setup_dtls : ℕ → Call
  setup_csd : ℕ → Bool → Bytes → Call
  set_allow_insecure_crypto set_csd_callback : Bool → Call
  disable_dtls obtain_cookie setup_cmd_pipe make_cstp_connection mainloop get_tun_fd : Call

pub record Library {ℓ} (W : Type ℓ) : Type ℓ where
  -- `go_vpninfo_new` at a user agent; `none` is NULL.
  pub new : Bytes → W → Option ℕ × W
  pub free : ℕ → W → W
  -- The errors that the callbacks offer during a call, and what it returns.
  pub call : ℕ → Call → W → (List OpError × ℕ) × W

pub record Options : Type 0 where
  pub user_agent : Bytes
  pub version_string : Bytes
  pub protocol : Bytes
  pub server : Bytes
  pub csd : Bytes
  pub log_level : ℕ
  -- The seconds of `ForceDPD`, 0 where it is not positive.
  pub force_dpd : ℕ
  pub allow_insecure_crypto : Bool
  -- Whether `Callbacks.ProcessCSD` is set.
  pub has_csd : Bool

-- The session, with the map `handles` and what the library has allocated and freed.
pub record Session {ℓ} (W : Type ℓ) : Type ℓ where
  -- `v.vpninfo`; `none` is nil.
  pub vpninfo : Option ℕ
  -- `v.errCh`, which has room for one error.
  pub err_ch : Option OpError
  pub process_csd : Bool
  pub handles : List ℕ
  pub allocated : List ℕ
  pub freed : List ℕ
  pub world : W

-- `syscall.Errno(-rc)`
unfoldable pub negated : ℕ → ℕ
negated rc = let n = (2 ^ 32 - rc) % 2 ^ 32 in if ltb n (2 ^ 31) then n else n + (2 ^ 64 - 2 ^ 32)

-- `ocErrno`
unfoldable pub oc_errno : Bytes → ℕ → Option OpError
unfolding negated
oc_errno op rc = if rc == 0 then none else some (record { op = op; err = errno (negated rc) })

-- `select { case v.errCh <- err: default: }`, for each error in turn.
unfoldable pub offer : List OpError → Option OpError → Option OpError
offer errs (some first) = some first
offer [] none = none
offer (e ∷ errs) none = some e

-- `handles.Delete`
unfoldable pub without : ℕ → List ℕ → List ℕ
without p [] = []
without p (q ∷ ps) = let rest = without p ps in if q == p then rest else q ∷ rest

-- `os.Getuid()`
abbrev pub Uid : Type 0
Uid = ℕ

-- A step that may return an error.
abbrev pub Action {ℓ} : Type ℓ → Type ℓ
Action W = Session W → Option OpError × Session W

module _ {ℓ} {W : Type ℓ} where
  unfoldable pub done : Action W
  done s = (none, s)

  -- `if err := …; err != nil { return err }`
  unfoldable pub and_then : Action W → Action W → Action W
  and_then first second s =
      let (err, s') = first s in elim err [ some e ↦ (some e, s') | none ↦ second s' ]

  unfoldable pub when : Bool → Action W → Action W
  unfolding done
  when true act = act
  when false act = done

unfoldable pub is_set : Bytes → Bool
is_set [] = false
is_set (c ∷ s) = true

module _ {ℓ} {W : Type ℓ} (lib : Library W) where
  -- A call of the library; with a nil pointer it does nothing here.
  unfoldable pub call : Call → Session W → ℕ × Session W
  unfolding offer
  call c s = elim s.vpninfo [
    | none ↦ (0, s)
    | some p ↦
        let ((errs, rc), w) = lib.call p c s.world in
        (rc, record s { err_ch = offer errs s.err_ch; world = w })
  ]

  -- `return ocErrno(op, C.…)`
  unfoldable pub checked : Bytes → Call → Action W
  unfolding call oc_errno
  checked op c s = let (rc, s') = call c s in (oc_errno op rc, s')

  -- A call whose result is not used.
  unfoldable pub unchecked : Call → Action W
  unfolding call
  unchecked c s = (none, (call c s).1)

  unfoldable pub set_user_agent : Bytes → Action W
  set_user_agent user_agent = checked (codes "set user agent") (set_useragent user_agent)

  unfoldable pub set_version : Bytes → Action W
  set_version version = checked (codes "set version string") (set_version_string version)

  unfoldable pub parse_server : Bytes → Action W
  parse_server url = checked (codes "parse URL") (parse_url url)

  unfoldable pub set_host : Bytes → Action W
  set_host hostname = checked (codes "set hostname") (set_hostname hostname)

  unfoldable pub set_proto : Bytes → Action W
  set_proto protocol = checked (codes "set protocol") (set_protocol protocol)

  unfoldable pub setup_script : Bytes → Action W
  setup_script script = checked (codes "setup tun script") (setup_tun_script script)

  unfoldable pub setup_fd : ℕ → Action W
  setup_fd fd = checked (codes "setup tun fd") (setup_tun_fd fd)

  unfoldable pub set_log_level : ℕ → Action W
  set_log_level level = unchecked (set_loglevel level)

  unfoldable pub setup_wrapper : ℕ → Bool → Bytes → Action W
  setup_wrapper uid silent wrapper = checked (codes "setup CSD") (setup_csd uid silent wrapper)

  unfoldable pub allow_crypto : Bool → Action W
  allow_crypto allowed =
      checked (codes "set allow-insecure-crypto") (set_allow_insecure_crypto allowed)

  unfoldable pub start_dtls : ℕ → Action W
  start_dtls period = checked (codes "setup DTLS") (setup_dtls period)

  unfoldable pub stop_dtls : Action W
  stop_dtls = checked (codes "disable DTLS") disable_dtls

  unfoldable pub set_dpd_seconds : ℕ → Action W
  set_dpd_seconds seconds = unchecked (set_dpd seconds)

  -- `ParseOpts`, for the user `uid`.
  unfoldable pub parse_opts : ℕ → Options → Action W
  parse_opts uid opts s =
      and_then (set_log_level opts.log_level)
        (and_then (when (is_set opts.user_agent) (set_user_agent opts.user_agent)) (
          and_then (when (is_set opts.version_string) (set_version opts.version_string)) (
            and_then (when (is_set opts.protocol) (set_proto opts.protocol)) (
              and_then (when (is_set opts.server) (parse_server opts.server)) (
                and_then (when (is_set opts.csd) (setup_wrapper uid true opts.csd)) (
                  and_then (when (ltb 0 opts.force_dpd) (set_dpd_seconds opts.force_dpd))
                    (when opts.allow_insecure_crypto (allow_crypto true))))))))
        (record s { process_csd = opts.has_csd })

  -- `Free`
  unfoldable pub free : Session W → Session W
  unfolding without
  free s = elim s.vpninfo [
    | none ↦ s
    | some p ↦ record s {
      vpninfo = none;
      handles = without p s.handles;
      freed = p ∷ s.freed;
      world = lib.free p s.world;
    }
  ]

  -- The first result of the receive in `ObtainCookie`, which empties the channel.
  unfoldable pub callback_error : OpError → Action W
  callback_error err s = elim s.err_ch [
    | none ↦ (some err, s)
    | some first ↦ (some first, record s { err_ch = none })
  ]

  -- `ObtainCookie`
  unfoldable pub obtain : Action W
  unfolding callback_error checked unchecked
  obtain s =
      let (err, s') =
        checked (codes "obtain cookie") obtain_cookie
          (unchecked (set_csd_callback s.process_csd) s).1 in
      elim err [ none ↦ (none, s') | some e ↦ callback_error e s' ]

  -- `SetupCmdPipe`: a descriptor below 0 is an error.
  unfoldable pub setup_pipe : Action W
  unfolding call oc_errno
  setup_pipe s =
      let (fd, s') = call setup_cmd_pipe s in
      if ltb fd (2 ^ 31) then (none, s') else (oc_errno (codes "setup cmd pipe") fd, s')

  -- `MakeCSTPConnection`
  unfoldable pub make_cstp : Action W
  make_cstp = checked (codes "make CSTP connection") make_cstp_connection

  -- `MainLoop`
  unfoldable pub main_loop : Action W
  main_loop = checked (codes "main loop") mainloop

  -- `GetTunFd`; `none` is its error.
  unfoldable pub tun_fd : Session W → Option ℕ × Session W
  unfolding call
  tun_fd s = let (fd, s') = call get_tun_fd s in (if ltb fd (2 ^ 31) then some fd else none, s')
