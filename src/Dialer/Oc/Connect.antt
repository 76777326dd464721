-- ===== src/Dialer/Oc/Connect.antt =====
-- pkg/dialer/oc/oc.go: NewDialer and WithConn.
pub mod Ends
use flakes.Common.{
  ℕ, ◌==◌, ◌≡◌, refl, sym, ◌∙◌, ap, Bool, true, false, if◌then◌else◌, List, [], ◌∷◌, ◌++◌, Option,
  none, some, Bytes, codes, bytes_eq, inl, inr, Option-cases, arith, ◌⊎◌,
}
use flakes.OpenConnect.Vpn.{Cause, Outcome, breaks, gives, OpError, Library, Options, Session}
use flakes.OpenConnect.Client.{Error, Conn, conn_of, connect, run_conn, close}
use flakes.OpenConnect.Client.Tun.{TunSystem, Tunnel, IpInfo, tun_client, close_fd, with_session}
use flakes.Dialer.Oc.{Url}

-- `stackutil.NewTunDialer`, which gives a dialer by its number.
pub record Stack {ℓ} (W : Type ℓ) : Type ℓ where
  pub new_tun_dialer : ℕ → IpInfo → W → Outcome ℕ × W

-- The levels that the default logger prints.
pub record Enabled : Type 0 where
  pub debug : Bool
  pub info : Bool
  pub error : Bool

-- `openconnect.LogLevel`, 0 where nothing is printed.
unfoldable pub log_level_of : Enabled → ℕ
log_level_of on = if on.debug then 3 else if on.info then 1 else 0

pub data DialError : Type 0 where
  not_connected : Error → DialError
  no_tunnel : Cause → DialError

-- A dialer, with the descriptor that a goroutine closes after `conn.Wait`.
pub record Dialed : Type 0 where
  pub dialer : ℕ
  pub rwc : ℕ

pub data NewDialer {ℓ} (W : Type ℓ) : Type ℓ where
  refused : Error → Session W → NewDialer W
  ended : Outcome Dialed × Tunnel W → NewDialer W

-- The options of `NewDialer`; `fmt.Sprintf("%s%s", u.Host, u.Path)` is the server.
unfoldable pub options_for : Enabled → Url → Options
unfolding log_level_of
options_for on u = record {
  user_agent = [];
  version_string = [];
  protocol = u.scheme;
  server = u.host ++ u.path;
  csd = [];
  log_level = log_level_of on;
  force_dpd = 5;
  allow_insecure_crypto = true;
  has_csd = bytes_eq u.scheme (codes "anyconnect");
}

-- `NewDialer` closes the connection where `WithConn` fails.
unfoldable pub finish {ℓ} : {W : Type ℓ} → Outcome Dialed × Tunnel W → Outcome Dialed × Tunnel W
finish (breaks e, t) = (breaks e, record t { conn = close t.conn })
finish (gives d, t) = (gives d, t)

module _ {ℓ} {W : Type ℓ} (lib : Library W) (sys : TunSystem W) (stack : Stack W) where
  -- What follows `Run`, with the deferred close of the descriptor.
  unfoldable pub after_run : ℕ → ℕ → List ℕ → Option OpError × Conn W → Outcome Dialed × Tunnel W
  unfolding close_fd
  after_run d fd fds (some e, c) = (breaks e.err, close_fd fd (record { conn = c; fds = fds }))
  after_run d fd fds (none, c) =
      (gives (record { dialer = d; rwc = fd }), record { conn = c; fds = fds })

  unfoldable pub after_made : ℕ → Tunnel W → Outcome ℕ × W → Outcome Dialed × Tunnel W
  unfolding after_run close_fd with_session
  after_made fd t (breaks e, w) =
      (breaks e, close_fd fd (with_session (record t.conn.session { world = w }) t))
  after_made fd t (gives d, w) =
      let t' = with_session (record t.conn.session { world = w }) t in
      after_run d fd t'.fds (run_conn lib t'.conn)

  unfoldable pub with_client : Outcome (ℕ × IpInfo) × Tunnel W → Outcome Dialed × Tunnel W
  unfolding after_made
  with_client (breaks e, t) = (breaks e, t)
  with_client (gives (fd, ip), t) =
      after_made fd t (stack.new_tun_dialer fd ip t.conn.session.world)

  -- `WithConn`
  unfoldable pub with_conn : Tunnel W → Outcome Dialed × Tunnel W
  unfolding with_client
  with_conn t = with_client (tun_client lib sys t)

  -- `NewDialer`, in a process with the descriptors `fds` of earlier tunnels.
  unfoldable pub after_connect : List ℕ → Option Error × Session W → NewDialer W
  unfolding finish with_conn
  after_connect fds (some e, s) = refused e s
  after_connect fds (none, s) = ended (finish (with_conn (record { conn = conn_of s; fds = fds })))

  unfoldable pub new_dialer : ℕ → Enabled → Url → List ℕ → W → NewDialer W
  unfolding after_connect options_for
  new_dialer uid on u fds w = after_connect fds (connect lib uid (options_for on u) w)
