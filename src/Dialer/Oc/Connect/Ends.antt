-- ===== src/Dialer/Oc/Connect/Ends.antt =====
-- How NewDialer leaves the session of its connection.
use flakes.Common.{
  ℕ, ◌≡◌, refl, ◌∙◌, true, false, List, [], ◌∷◌, Option, none, some, inl, inr, arith, ◌⊎◌,
}
use flakes.OpenConnect.Vpn.{
  Cause, Outcome, breaks, gives, OpError, Library, Session, setup_script, setup_fd, tun_fd, checked,
  without, free, main_loop,
}
use flakes.OpenConnect.Client.{
  Error, Conn, conn_of, connect, started, run_conn, run_free, close, cancel,
}
use flakes.OpenConnect.Client.Release.{owned, call-owned, IsHeld, connect-IsHeld}
use flakes.OpenConnect.Client.Tun.{
  TunSystem, Tunnel, IpInfo, tun_client, after_setup, after_old, after_pair, after_script,
  with_info, close_fd, close_old, with_session,
}
use flakes.Dialer.Oc.{Url}
use flakes.Dialer.Oc.Connect.{
  Stack, Enabled, Dialed, NewDialer, refused, ended, after_run, after_made, with_client, with_conn,
  finish, after_connect, options_for, new_dialer,
}

-- A connection before `Run`, whose session is `p`.
abbrev Idle {ℓ} : {W : Type ℓ} → ℕ → Conn W → Type 0
Idle p c =
    (owned c.session ≡ (some p, (p ∷ [], (p ∷ [], []))))
    × ((c.main_loop ≡ false) × ((c.cause ≡ none) × (c.free_due ≡ false)))

module _ {ℓ} {W : Type ℓ} (lib : Library W) (sys : TunSystem W) where
  with_info-Idle :
      (p a b : ℕ) (t : Tunnel W) → Idle p t.conn → Idle p (with_info lib sys a b t).1.conn
  unfolding with_info close_fd with_session owned
  with_info-Idle p a b t idle = ground (arith, idle)

  with_session-Idle :
      (p : ℕ) (t : Tunnel W) (s : Session W)
      → owned s ≡ owned t.conn.session
      → Idle p t.conn
      → Idle p (with_session s t).conn
  unfolding with_session
  with_session-Idle p t s same (held, rest) = (same ∙ held, rest)

  close_old-Idle :
      (p : ℕ) (old : Option ℕ) (t : Tunnel W) → Idle p t.conn → Idle p (close_old old t).conn
  unfolding close_old close_fd
  close_old-Idle p none t idle = idle
  close_old-Idle p (some fd) t idle = idle

  after_setup-Idle :
      (p a b : ℕ) (t : Tunnel W) (r : Option OpError × Session W)
      → owned r.1 ≡ owned t.conn.session
      → Idle p t.conn
      → Idle p (after_setup lib sys a b t r).1.conn
  unfolding after_setup close_fd
  after_setup-Idle p a b t (none, s) same idle =
      with_info-Idle p a b (with_session s t) (with_session-Idle p t s same idle)
  after_setup-Idle p a b t (some e, s) same idle = with_session-Idle p t s same idle

  after_old-Idle :
      (p a b : ℕ) (t : Tunnel W) (r : Option ℕ × Session W)
      → owned r.1 ≡ owned t.conn.session
      → Idle p t.conn
      → Idle p (after_old lib sys a b t r).1.conn
  unfolding after_old setup_fd checked
  after_old-Idle p a b t (old, s) same idle =
      let t' = close_old old (with_session s t) in
      after_setup-Idle p a b t' (setup_fd lib a t'.conn.session) (call-owned lib _ t'.conn.session)
        (close_old-Idle p old (with_session s t) (with_session-Idle p t s same idle))

  after_pair-Idle :
      (p : ℕ) (t : Tunnel W) (r : Outcome (ℕ × ℕ) × W)
      → Idle p t.conn
      → Idle p (after_pair lib sys t r).1.conn
  unfolding after_pair tun_fd with_session owned
  after_pair-Idle p t (breaks e, w) idle = idle
  after_pair-Idle p t (gives (a, b), w) idle =
      let t' = with_session (record t.conn.session { world = w }) t in
      after_old-Idle p a b (record t' { fds = a ∷ b ∷ t.fds }) (tun_fd lib t'.conn.session)
        (call-owned lib _ t'.conn.session) idle

  after_script-Idle :
      (p : ℕ) (t : Tunnel W) (r : Option OpError × Session W)
      → owned r.1 ≡ owned t.conn.session
      → Idle p t.conn
      → Idle p (after_script lib sys t r).1.conn
  unfolding after_script
  after_script-Idle p t (some e, s) same idle = with_session-Idle p t s same idle
  after_script-Idle p t (none, s) same idle =
      after_pair-Idle p (with_session s t) (sys.socketpair s.world)
        (with_session-Idle p t s same idle)

  tun_client-Idle : (p : ℕ) (t : Tunnel W) → Idle p t.conn → Idle p (tun_client lib sys t).1.conn
  unfolding tun_client setup_script checked
  tun_client-Idle p t idle = after_script-Idle p t _ (call-owned lib _ t.conn.session) idle

-- How a connection ends: it has no cause and runs its main loop over the open session, or it has a
-- cause, and `Free` waits to free the session.
abbrev Running {ℓ} : {W : Type ℓ} → ℕ → Conn W → Type 0
Running p c =
    (owned c.session ≡ (some p, (p ∷ [], (p ∷ [], [])))) × ((c.main_loop ≡ true) × (c.cause ≡ none))

abbrev Doomed {ℓ} : {W : Type ℓ} → ℕ → Conn W → Type 0
Doomed p c =
    (owned c.session ≡ (some p, (p ∷ [], (p ∷ [], []))))
    × ((c.main_loop ≡ false) × (c.free_due ≡ true))

abbrev WellEnded {ℓ} : {W : Type ℓ} → ℕ → Outcome Dialed × Tunnel W → Type 0
WellEnded p (breaks e, t) = Idle p t.conn ⊎ Doomed p t.conn
WellEnded p (gives d, t) = Running p t.conn

-- What `NewDialer` leaves of the session.
pub Leaves {ℓ} : {W : Type ℓ} → Library W → NewDialer W → Type 0
Leaves lib (refused e s) = IsHeld (some e, s)
Leaves lib (ended (breaks e, t)) =
    (p : ℕ) × (owned (run_free lib t.conn).session ≡ (none, ([], (p ∷ [], p ∷ []))))
Leaves lib (ended (gives d, t)) = (p : ℕ) × Running p t.conn

module _ {ℓ} {W : Type ℓ} (lib : Library W) (sys : TunSystem W) (stack : Stack W) where
  after_run-WellEnded :
      (p d fd : ℕ) (fds : List ℕ) (c : Conn W) (r : Option OpError × Session W)
      → owned r.1 ≡ owned c.session
      → Idle p c
      → WellEnded p (after_run lib sys stack d fd fds (started lib c r))
  unfolding after_run started cancel close_fd
  after_run-WellEnded p d fd fds c (none, s) same (held, (off, (uncaused, undue))) =
      (same ∙ held, (refl, uncaused))
  after_run-WellEnded p d fd fds c (some e, s) same (held, (off, (uncaused, undue))) =
      ground (arith, same, held, off, uncaused, undue)

  after_made-WellEnded :
      (p fd : ℕ) (t : Tunnel W) (r : Outcome ℕ × W)
      → Idle p t.conn
      → WellEnded p (after_made lib sys stack fd t r)
  unfolding after_made run_conn main_loop checked close_fd with_session owned
  after_made-WellEnded p fd t (breaks e, w) idle = inl idle
  after_made-WellEnded p fd t (gives d, w) idle =
      let t' = with_session (record t.conn.session { world = w }) t in
      after_run-WellEnded p d fd t'.fds t'.conn (main_loop lib t'.conn.session)
        (call-owned lib _ t'.conn.session) idle

  with_client-WellEnded :
      (p : ℕ) (r : Outcome (ℕ × IpInfo) × Tunnel W)
      → Idle p r.1.conn
      → WellEnded p (with_client lib sys stack r)
  unfolding with_client
  with_client-WellEnded p (breaks e, t) idle = inl idle
  with_client-WellEnded p (gives (fd, ip), t) idle =
      after_made-WellEnded p fd t (stack.new_tun_dialer fd ip t.conn.session.world) idle

  finish-Doomed :
      (p : ℕ) (e : Cause) (t : Tunnel W) → WellEnded p (breaks e, t) → Doomed p (close t.conn)
  unfolding close cancel
  finish-Doomed p e t (inl idle) = ground (arith, idle)
  finish-Doomed p e t (inr doomed) = ground (arith, doomed)

  Doomed-freed :
      (p : ℕ) (c : Conn W)
      → Doomed p c
      → owned (run_free lib c).session ≡ (none, ([], (p ∷ [], p ∷ [])))
  unfolding run_free free without owned
  Doomed-freed p c doomed = ground (arith, doomed)

  finish-Leaves :
      (p : ℕ) (r : Outcome Dialed × Tunnel W) → WellEnded p r → Leaves lib (ended (finish r))
  unfolding finish Leaves
  finish-Leaves p (breaks e, t) ends = (p, Doomed-freed p (close t.conn) (finish-Doomed p e t ends))
  finish-Leaves p (gives d, t) ends = (p, ends)

  after_connect-Leaves :
      (fds : List ℕ) (r : Option Error × Session W)
      → IsHeld r
      → Leaves lib (after_connect lib sys stack fds r)
  unfolding after_connect with_conn conn_of IsHeld Leaves
  after_connect-Leaves fds (some e, s) held = held
  after_connect-Leaves fds (none, s) (p, held) = finish-Leaves p _ (
      with_client-WellEnded p _ (
        tun_client-Idle lib sys p (record { conn = conn_of s; fds = fds })
          (held, (refl, (refl, refl)))))

  -- `NewDialer` leaves no session behind: where it succeeds, the session is open and its main loop
  -- runs, with no cause to cancel it; where a step behind `Connect` fails, the connection is
  -- cancelled and the `Free` that waits frees the session once and removes its handle; where
  -- `Connect` fails, the session is freed, or there was none.
  pub new_dialer-Leaves :
      (uid : ℕ) (on : Enabled) (u : Url) (fds : List ℕ) (w : W)
      → Leaves lib (new_dialer lib sys stack uid on u fds w)
  unfolding new_dialer
  new_dialer-Leaves uid on u fds w =
      after_connect-Leaves fds (connect lib uid (options_for on u) w)
        (connect-IsHeld lib uid (options_for on u) w)
