-- ===== src/Dialer/Oc.antt =====
-- pkg/dialer/oc/oc.go: the dialer of an OpenConnect tunnel, with its callbacks.
--
-- The notifications, the alerts, the browser and the user-space stack are parameters. The debug
-- log is that of the forms, and in Csd that of the response; other lines are left out.
pub mod Fill
pub mod Csd
pub mod Connect
use flakes.Common.{
  ℕ, ◌==◌, Bool, true, false, if◌then◌else◌, List, [], ◌∷◌, ◌++◌, Option, none, some, Bytes, codes,
  bytes_eq,
}
use flakes.Notify.{Response}
use flakes.OpenConnect.Vpn.{Cause, other, Outcome, breaks, gives, is_set}
use flakes.OpenConnect.Forms.{AuthForm, Credentials, FormLibrary, fill_form, log_form, aggregate}
use flakes.OpenConnect.Bridge.{CsdInfo, Callbacks}

-- The parts of a URL that the dialer reads.
pub record Url : Type 0 where
  pub scheme : Bytes
  pub username : Bytes
  -- The empty text where there is no password.
  pub password : Bytes
  pub host : Bytes
  pub path : Bytes
  -- `Query().Get("token")`
  pub token : Bytes

-- `AlertResponse` of an alert with one input: the window answers with one text for it.
pub record AlertResponse : Type 0 where
  pub button : ℕ
  pub input : Bytes

pub data SlogLevel : Type 0 where
  level_error level_info level_debug : SlogLevel

pub record Desktop {ℓ} (W : Type ℓ) : Type ℓ where
  -- `NotifyCtx`, at a category.
  pub notify : Bytes → W → Outcome Response × W
  pub display : W → Outcome AlertResponse × W
  -- `xdg.Run`
  pub open_uri : Bytes → W → Option Cause × W
  -- `slog.Log`
  pub progress : SlogLevel → Bytes → W → W
  pub dismiss_action : Bytes
  pub default_action : Bytes

-- The credentials, which the callbacks change, and the rest of the world.
pub record State {ℓ} (W : Type ℓ) : Type ℓ where
  pub cp : Credentials
  pub world : W

abbrev cancelled : Cause
cancelled = other (codes "auth form user cancelled")

module _ {ℓ} {W : Type ℓ} (desk : Desktop W) where
  -- `ExternalBrowser`
  unfoldable pub external_browser : Bytes → W → Option Cause × W
  external_browser uri w =
      let (resp, w') = desk.notify (codes "external-browser-auth") w in
      elim resp [
        | breaks e ↦ (some e, w')
        | gives r ↦
            if bytes_eq r.action desk.dismiss_action
            then (some (other (codes "ExternalBrowser user cancelled")), w')
            else desk.open_uri uri w'
      ]

  -- The answer of the alert.
  unfoldable pub alert_answer : Outcome AlertResponse → Outcome Bytes
  alert_answer (breaks e) = breaks e
  alert_answer (gives r) = if r.button == 1 then breaks cancelled else gives r.input

  -- What `ProcessForm` adds to the password for a one-time password.
  unfoldable pub ask_otp : W → Outcome Bytes × W
  unfolding alert_answer
  ask_otp w =
      let (resp, w') = desk.notify (codes "yubi-auth") w in
      elim resp [
        | breaks e ↦ (breaks e, w')
        | gives r ↦
            if bytes_eq r.action desk.dismiss_action
            then (breaks cancelled, w')
            else if bytes_eq r.action desk.default_action
            then (let (alert, w'') = desk.display w' in (alert_answer alert, w''))
            else if bytes_eq r.action (codes "yubi-auth-token")
            then (gives r.text, w')
            else (gives [], w')
      ]

  unfoldable pub asked : Url → W → Outcome Bytes × W
  unfolding ask_otp
  asked u w = if bytes_eq u.token (codes "otp") then ask_otp w else (gives [], w)

  -- What follows the question in `ProcessForm`.
  unfoldable pub with_otp :
      FormLibrary W → Url → AuthForm → Outcome Bytes × W → Option Cause × State W
  with_otp lib u form (breaks e, w) =
      (some e, record { cp = record { username = u.username; password = u.password }; world = w })
  with_otp lib u form (gives text, w) =
      let cp : Credentials = record { username = u.username; password = u.password ++ text } in
      let (err, w') = fill_form lib cp form w in (err, record { cp = cp; world = w' })

  -- `ProcessForm`
  unfoldable pub process_form : FormLibrary W → Url → AuthForm → State W → Option Cause × State W
  unfolding asked with_otp
  process_form lib u form s =
      if is_set form.error
      then (some (other form.error), s)
      else with_otp lib u form (asked u s.world)

  -- `callbacks.Progress`, where the levels are 0 for errors, 1 for information and 2 and 3 below.
  unfoldable pub progress_level : ℕ → SlogLevel
  progress_level level =
      if level == 0 then level_error else if level == 1 then level_info else level_debug

  -- `LoggerFunc(cb.DebugLog)`
  unfoldable pub log_state : FormLibrary W → AuthForm → State W → Option Cause × State W
  log_state lib form s = let (err, w) = log_form lib form s.world in (err, record s { world = w })

  unfoldable pub browse_state : Bytes → State W → Option Cause × State W
  unfolding external_browser
  browse_state uri s = let (err, w) = external_browser uri s.world in (err, record s { world = w })

  -- The callbacks of `NewDialer`, where `csd` is `ProcessCSD`.
  unfoldable pub callbacks_of :
      FormLibrary W → (CsdInfo → State W → Option Cause × State W) → Url → Callbacks (State W)
  unfolding progress_level log_state browse_state process_form
  callbacks_of lib csd u = record {
    validate_peer_cert = some (λ cert s. (true, s));
    process_auth_form = some (aggregate (log_state lib ∷ process_form lib u ∷ []));
    process_csd = if bytes_eq u.scheme (codes "anyconnect") then some csd else none;
    progress = some (λ level message s. record s {
      world = desk.progress (progress_level level) message s.world;
    });
    external_browser = some browse_state;
    reconnected_handler = none;
  }
