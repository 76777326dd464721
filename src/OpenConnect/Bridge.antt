-- ===== src/OpenConnect/Bridge.antt =====
-- pkg/openconnect/bridge.go: the callbacks of the library.
--
-- A callback finds the session of its context in the map `handles`, and reports an error to the
-- session's channel, where only the first one stays.
use flakes.Common.{
  ℕ, ◌==◌, Bool, true, false, if◌then◌else◌, List, [], ◌∷◌, Option, none, some, Bytes, codes, ◌-◌,
  ◌^◌,
}
use flakes.OpenConnect.Vpn.{Cause, other, Session, offer, oc_errno}
use flakes.OpenConnect.Forms.{FormChoice, FormOption, AuthForm}

-- `struct oc_form_opt`, with the choices that a select has, and the C form.
pub record COption : Type 0 where
  pub handle : ℕ
  -- `flags&C.OC_FORM_OPT_IGNORE != 0`
  pub is_ignored : Bool
  pub name : Bytes
  pub label : Bytes
  pub kind : ℕ
  pub choices : List FormChoice

pub record CForm : Type 0 where
  pub banner : Bytes
  pub message : Bytes
  pub error : Bytes
  pub authgroup_opt : Option COption
  -- The list behind `opts`.
  pub opts : List COption

-- `OC_FORM_OPT_SELECT`
abbrev pub select_type : ℕ
select_type = 3

pub data FormResult : Type 0 where
  result_ok result_cancelled result_err : FormResult

-- `CSDInfo`
pub record CsdInfo : Type 0 where
  pub hostname : Bytes
  pub sha256 : Bytes
  pub token : Bytes
  pub ticket : Bytes
  pub stub : Bytes

-- `Callbacks`, where `none` is nil.
pub record Callbacks {ℓ} (W : Type ℓ) : Type ℓ where
  pub validate_peer_cert : Option (Bytes → W → Bool × W)
  pub process_auth_form : Option (AuthForm → W → Option Cause × W)
  pub process_csd : Option (CsdInfo → W → Option Cause × W)
  pub progress : Option (ℕ → Bytes → W → W)
  pub external_browser : Option (Bytes → W → Option Cause × W)
  pub reconnected_handler : Option (W → W)

unfoldable pub has_handle : ℕ → List ℕ → Bool
has_handle p [] = false
has_handle p (q ∷ ps) = let rest = has_handle p ps in if q == p then true else rest

unfoldable pub auth_group_of : COption → FormOption
auth_group_of opt = record {
  handle = 0;
  name = opt.name;
  label = opt.label;
  kind = 0;
  choices = opt.choices;
}

unfoldable pub option_of : COption → FormOption
option_of opt = record {
  handle = opt.handle;
  name = opt.name;
  label = opt.label;
  kind = opt.kind;
  choices = if opt.kind == select_type then opt.choices else [];
}

-- The loop over the form's fields.
unfoldable pub options_of : List COption → List FormOption
unfolding option_of
options_of [] = []
options_of (o ∷ os) = let rest = options_of os in if o.is_ignored then rest else option_of o ∷ rest

unfoldable pub form_of : CForm → AuthForm
unfolding auth_group_of options_of
form_of form = record {
  banner = form.banner;
  message = form.message;
  error = form.error;
  auth_group = elim form.authgroup_opt [ none ↦ none | some opt ↦ some (auth_group_of opt) ];
  options = options_of form.opts;
}

-- A callback's error, as an operation of the session.
unfoldable pub report {ℓ} : {W : Type ℓ} → Bytes → Option Cause → Session W → Session W
unfolding offer
report op none s = s
report op (some e) s = record s { err_ch = offer (record { op = op; err = e } ∷ []) s.err_ch }

unfoldable pub form_result : Option Cause → FormResult
form_result none = result_ok
form_result (some e) = result_cancelled

unfoldable pub go_process_form_error {ℓ} : {W : Type ℓ} → ℕ → Bytes → Session W → Session W
unfolding has_handle report
go_process_form_error p message s =
    if has_handle p s.handles then report (codes "auth") (some (other message)) s else s

-- -22 is written as its 32 bits.
unfoldable pub csd_result : Option Cause → ℕ
csd_result none = 0
csd_result (some e) = 2 ^ 32 - 22

unfoldable pub browser_result : Option Cause → ℕ
browser_result none = 0
browser_result (some e) = 1

unfoldable pub go_mainloop_result {ℓ} : {W : Type ℓ} → ℕ → ℕ → Session W → Session W
unfolding has_handle oc_errno offer
go_mainloop_result p rc s =
    if has_handle p s.handles
    then elim (oc_errno (codes "main loop") rc) [
      | none ↦ s
      | some e ↦ record s { err_ch = offer (e ∷ []) s.err_ch }
    ]
    else s

module _ {ℓ} {W : Type ℓ} (cb : Callbacks W) where
  unfoldable pub go_validate_peer_cert : ℕ → Bytes → Session W → ℕ × Session W
  unfolding has_handle
  go_validate_peer_cert p cert s =
      if has_handle p s.handles
      then elim cb.validate_peer_cert [
        | none ↦ (1, s)
        | some validate ↦
            let (ok, w) = validate cert s.world in (if ok then 0 else 1, record s { world = w })
      ]
      else (1, s)

  unfoldable pub go_process_auth_form : ℕ → CForm → Session W → FormResult × Session W
  unfolding has_handle form_of report form_result
  go_process_auth_form p form s =
      if has_handle p s.handles
      then elim cb.process_auth_form [
        | none ↦ (result_err, s)
        | some process ↦
            let (err, w) = process (form_of form) s.world in
            (form_result err, report (codes "auth") err (record s { world = w }))
      ]
      else (result_err, s)

  unfoldable pub go_process_csd : ℕ → CsdInfo → Session W → ℕ × Session W
  unfolding has_handle report csd_result
  go_process_csd p info s =
      if has_handle p s.handles
      then elim cb.process_csd [
        | none ↦ (2 ^ 32 - 22, s)
        | some process ↦
            let (err, w) = process info s.world in
            (csd_result err, report (codes "hostscan") err (record s { world = w }))
      ]
      else (2 ^ 32 - 22, s)

  unfoldable pub go_progress : ℕ → ℕ → Bytes → Session W → Session W
  unfolding has_handle
  go_progress p level message s =
      if has_handle p s.handles
      then elim cb.progress [
        | none ↦ s
        | some progress ↦ record s { world = progress level message s.world }
      ]
      else s

  unfoldable pub go_external_browser_callback : ℕ → Bytes → Session W → ℕ × Session W
  unfolding has_handle browser_result
  go_external_browser_callback p uri s =
      if has_handle p s.handles
      then elim cb.external_browser [
        | none ↦ (1, s)
        | some open_uri ↦
            let (err, w) = open_uri uri s.world in (browser_result err, record s { world = w })
      ]
      else (1, s)

  unfoldable pub go_reconnected_handler : ℕ → Session W → Session W
  unfolding has_handle
  go_reconnected_handler p s =
      if has_handle p s.handles
      then elim cb.reconnected_handler [
        | none ↦ s
        | some reconnected ↦ record s { world = reconnected s.world }
      ]
      else s
