-- ===== src/OpenConnect/Client.antt =====
-- pkg/openconnect/client.go: a connection over a session.
pub mod Release
pub mod Running
pub mod Tun
use flakes.Common.{
  ℕ, suc, Bool, true, false, if◌then◌else◌, List, [], ◌∷◌, Option, none, some, Bytes, codes,
  bytes_eq,
}
use flakes.OpenConnect.Vpn.{
  OpError, Library, Options, Session, Action, and_then, is_set, parse_opts, free, obtain,
  setup_pipe, make_cstp, main_loop, oc_errno, offer,
}
use flakes.OpenConnect.Bridge.{go_mainloop_result}

-- The errors of `New` and of `Connect`.
pub data Error : Type 0 where
  not_created : Error
  failed : OpError → Error

abbrev pub or_default : Bytes → Bytes → Bytes
or_default [] text = text
or_default (c ∷ s) text = c ∷ s

-- The options of `Connect` for the protocols that it knows.
unfoldable pub completed : Options → Options
completed opts =
    if bytes_eq opts.protocol (codes "anyconnect")
    then record opts {
      user_agent = or_default opts.user_agent (codes "AnyConnect Darwin_i386 5.1.8.122");
      version_string = or_default opts.version_string (codes "5.1.8.122");
    }
    else if bytes_eq opts.protocol (codes "gp")
    then record opts { user_agent = or_default opts.user_agent (codes "Global Protect") }
    else opts

-- `opts.UserAgent = DefaultUserAgent`
unfoldable pub with_agent : Options → Options
with_agent opts = record opts {
  user_agent = or_default opts.user_agent (codes "AnyConnect-compatible OpenConnect VPN Agent");
}

module _ {ℓ} {W : Type ℓ} (lib : Library W) (uid : ℕ) where
  -- `New`, in a process with no other session.
  unfoldable pub parsed : Option OpError × Session W → Option Error × Session W
  unfolding free
  parsed (none, s) = (none, s)
  parsed (some e, s) = (some (failed e), free lib s)

  -- What follows `go_vpninfo_new`.
  unfoldable pub created : Options → Option ℕ × W → Option Error × Session W
  unfolding parsed
  created opts (none, w) = (
    some not_created,
    record {
      vpninfo = none;
      err_ch = none;
      process_csd = false;
      handles = [];
      allocated = [];
      freed = [];
      world = w;
    },
  )
  created opts (some p, w) = parsed (
      parse_opts lib uid opts (record {
        vpninfo = some p;
        err_ch = none;
        process_csd = false;
        handles = p ∷ [];
        allocated = p ∷ [];
        freed = [];
        world = w;
      }))

  unfoldable pub new : Options → W → Option Error × Session W
  unfolding created
  new opts w = let opts' = with_agent opts in created opts' (lib.new opts'.user_agent w)

  -- `connect`
  unfoldable pub connect_session : Action W
  connect_session s = and_then (setup_pipe lib) (and_then (obtain lib) (make_cstp lib)) s

  -- `Connect`
  unfoldable pub connect : Options → W → Option Error × Session W
  unfolding parsed connect_session
  connect opts w =
      let (err, s) = new (completed opts) w in
      elim err [ some e ↦ (some e, s) | none ↦ parsed (connect_session s) ]

-- `Conn`, with the context's cause, where `some none` is `cancel(nil)`.
pub record Conn {ℓ} (W : Type ℓ) : Type ℓ where
  pub session : Session W
  pub main_loop : Bool
  pub cause : Option (Option OpError)
  -- The goroutine of `Run` waits, and `done` is closed.
  pub watching : Bool
  pub is_done : Bool
  -- `context.AfterFunc(ctx, vpn.Free)` has yet to run.
  pub free_due : Bool
  -- The `OC_CMD_CANCEL`s written to the pipe.
  pub cancels : ℕ

unfoldable pub conn_of {ℓ} : {W : Type ℓ} → Session W → Conn W
conn_of s = record {
  session = s;
  main_loop = false;
  cause = none;
  watching = false;
  is_done = false;
  free_due = false;
  cancels = 0;
}

-- `c.cancel(err)`: the first cause stays, and starts `Free`.
unfoldable pub cancel {ℓ} : {W : Type ℓ} → Option OpError → Conn W → Conn W
cancel err c = elim c.cause [
  | some first ↦ c
  | none ↦ record c { cause = some err; free_due = true }
]

-- `Close`
unfoldable pub close {ℓ} : {W : Type ℓ} → Conn W → Conn W
unfolding cancel
close c = if c.main_loop then record c { cancels = suc c.cancels } else cancel none c

-- The goroutine of `Run`, where an error waits in the channel.
unfoldable pub watch {ℓ} : {W : Type ℓ} → Conn W → Conn W
unfolding cancel
watch c =
    if c.watching
    then elim c.session.err_ch [
      | none ↦ c
      | some e ↦
          cancel (some e)
            (record c { watching = false; session = record c.session { err_ch = none } })
    ]
    else c

-- The same goroutine, where `done` is closed.
unfoldable pub stop_watch {ℓ} : {W : Type ℓ} → Conn W → Conn W
stop_watch c = if c.watching then if c.is_done then record c { watching = false } else c else c

-- The end of the main loop's thread, which calls `go_mainloop_result` with the session's pointer.
unfoldable pub loop_ended {ℓ} : {W : Type ℓ} → ℕ → ℕ → Conn W → Conn W
loop_ended p rc c = record c { session = go_mainloop_result p rc c.session }

module _ {ℓ} {W : Type ℓ} (lib : Library W) where
  -- What follows `MainLoop` in `Run`.
  unfoldable pub started : Conn W → Option OpError × Session W → Option OpError × Conn W
  unfolding cancel
  started c (none, s) = (none, record c { watching = true; session = s; main_loop = true })
  started c (some e, s) =
      (some e, cancel (some e) (record c { watching = true; session = s; is_done = true }))

  -- `Run`
  unfoldable pub run_conn : Conn W → Option OpError × Conn W
  unfolding started
  run_conn c = started c (main_loop lib c.session)

  -- The function of `context.AfterFunc(ctx, vpn.Free)`.
  unfoldable pub run_free : Conn W → Conn W
  run_free c = if c.free_due then record c { session = free lib c.session; free_due = false } else c

pub data Event : Type 0 where
  runs closes watches stops frees : Event
  loop_ends : ℕ → ℕ → Event

module _ {ℓ} {W : Type ℓ} (lib : Library W) where
  unfoldable pub step : Event → Conn W → Conn W
  unfolding run_conn close watch stop_watch run_free loop_ended
  step runs c = (run_conn lib c).1
  step closes c = close c
  step watches c = watch c
  step stops c = stop_watch c
  step frees c = run_free lib c
  step (loop_ends p rc) c = loop_ended p rc c

  unfoldable pub run : List Event → Conn W → Conn W
  run [] c = c
  run (e ∷ events) c = run events (step e c)
