-- ===== src/OpenConnect/Client/Tun.antt =====
-- pkg/openconnect/client.go: TunClient, with the descriptors that it opens.
use flakes.Common.{ℕ, List, ◌∷◌, Option, none, some, Bytes, codes}
use flakes.OpenConnect.Vpn.{
  Outcome, breaks, gives, OpError, Library, Session, setup_script, setup_fd, tun_fd, without,
}
use flakes.OpenConnect.Client.{Conn}

-- `IPInfo`, of which the dialer uses these fields.
pub record IpInfo : Type 0 where
  pub addr : Bytes
  pub netmask : Bytes
  pub addr6 : Bytes
  pub netmask6 : Bytes
  pub dns : List Bytes
  pub domain : Bytes
  pub mtu : ℕ

-- `socketpair` with its two options, and `openconnect_get_ip_info`.
pub record TunSystem {ℓ} (W : Type ℓ) : Type ℓ where
  pub socketpair : W → Outcome (ℕ × ℕ) × W
  pub ip_info : Session W → Outcome IpInfo × W

-- A connection, with the descriptors that are open of those `socketpair` gave.
pub record Tunnel {ℓ} (W : Type ℓ) : Type ℓ where
  pub conn : Conn W
  pub fds : List ℕ

module _ {ℓ} {W : Type ℓ} where
  -- The connection after a call of its session.
  unfoldable pub with_session : Session W → Tunnel W → Tunnel W
  with_session s t = record t { conn = record t.conn { session = s } }

  -- `unix.Close`
  unfoldable pub close_fd : ℕ → Tunnel W → Tunnel W
  unfolding without
  close_fd fd t = record t { fds = without fd t.fds }

  -- The old descriptor of the tunnel, where there is one.
  unfoldable pub close_old : Option ℕ → Tunnel W → Tunnel W
  unfolding close_fd
  close_old none t = t
  close_old (some fd) t = close_fd fd t

module _ {ℓ} {W : Type ℓ} (lib : Library W) (sys : TunSystem W) where
  -- What follows `SetupTunFd`: both ends are closed where the information is missing.
  unfoldable pub with_info : ℕ → ℕ → Tunnel W → Outcome (ℕ × IpInfo) × Tunnel W
  unfolding close_fd with_session
  with_info a b t =
      let (info, w) = sys.ip_info t.conn.session in
      let t' = with_session (record t.conn.session { world = w }) t in
      elim info [ breaks e ↦ (breaks e, close_fd b (close_fd a t')) | gives i ↦ (gives (b, i), t') ]

  unfoldable pub after_setup :
      ℕ → ℕ → Tunnel W → Option OpError × Session W → Outcome (ℕ × IpInfo) × Tunnel W
  unfolding close_fd with_session with_info
  after_setup a b t (some e, s) = (breaks e.err, close_fd b (close_fd a (with_session s t)))
  after_setup a b t (none, s) = with_info a b (with_session s t)

  -- What follows `GetTunFd`.
  unfoldable pub after_old :
      ℕ → ℕ → Tunnel W → Option ℕ × Session W → Outcome (ℕ × IpInfo) × Tunnel W
  unfolding close_old with_session after_setup
  after_old a b t (old, s) =
      let t' = close_old old (with_session s t) in
      after_setup a b t' (setup_fd lib a t'.conn.session)

  -- What follows `Socketpair`.
  unfoldable pub after_pair : Tunnel W → Outcome (ℕ × ℕ) × W → Outcome (ℕ × IpInfo) × Tunnel W
  unfolding with_session after_old
  after_pair t (breaks e, w) = (breaks e, with_session (record t.conn.session { world = w }) t)
  after_pair t (gives (a, b), w) =
      let t' = with_session (record t.conn.session { world = w }) t in
      after_old a b (record t' { fds = a ∷ b ∷ t.fds }) (tun_fd lib t'.conn.session)

  unfoldable pub after_script :
      Tunnel W → Option OpError × Session W → Outcome (ℕ × IpInfo) × Tunnel W
  unfolding with_session after_pair
  after_script t (some e, s) = (breaks e.err, with_session s t)
  after_script t (none, s) = after_pair (with_session s t) (sys.socketpair s.world)

  -- `TunClient`, with `TunScript` of one argument, which `strconv.Quote` puts into quotes.
  unfoldable pub tun_client : Tunnel W → Outcome (ℕ × IpInfo) × Tunnel W
  unfolding after_script
  tun_client t = after_script t (setup_script lib (codes "\"builtin\"") t.conn.session)
