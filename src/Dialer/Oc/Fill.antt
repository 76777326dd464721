-- ===== src/Dialer/Oc/Fill.antt =====
-- What an authentication form is filled with.
use flakes.Common.{
  ℕ, ◌==◌, if◌then◌else◌, List, [], ◌∷◌, ◌++◌, Option, none, some, Bytes, bytes_eq, codes, to_lower,
}
use flakes.OpenConnect.Vpn.{Cause, other, Outcome, breaks, gives, is_set}
use flakes.OpenConnect.Forms.{Credentials, FormLibrary, starts_with, text_type, password_type}
use flakes.OpenConnect.Bridge.{COption, CForm}
use flakes.Dialer.Oc.{Url, Desktop, State, ask_otp}

-- The value for a field: the user name for a text field whose name starts with "user", in any case,
-- and the password for a password field.
unfoldable pub value_for : Credentials → COption → Option Bytes
unfolding starts_with
value_for cp o =
    if o.kind == text_type
    then (if starts_with (to_lower o.name) (codes "user") then some cp.username else none)
    else if o.kind == password_type
    then some cp.password
    else none

-- The values for the fields that are not ignored, by their handles.
unfoldable pub assignments : Credentials → List COption → List (ℕ × Bytes)
unfolding value_for
assignments cp [] = []
assignments cp (o ∷ os) =
    let rest = assignments cp os in
    if o.is_ignored
    then rest
    else elim (value_for cp o) [ none ↦ rest | some v ↦ (o.handle, v) ∷ rest ]

module _ {ℓ} {W : Type ℓ} (lib : FormLibrary W) where
  -- The values are set in turn, up to the first that the library refuses.
  unfoldable pub set_all : List (ℕ × Bytes) → W → Option Cause × W
  set_all [] w = (none, w)
  set_all ((h, v) ∷ rest) w =
      let (rc, w') = lib.set_option_value h v w in
      if rc == 0 then set_all rest w' else (some (other (codes "failed to set option value")), w')

  filled_then : Option Cause × W → (W → Option Cause × W) → Option Cause × W
  filled_then r next = elim r.0 [ some e ↦ (some e, r.1) | none ↦ next r.1 ]

-- The credentials of a URL with a one-time password behind the password.
abbrev credentials_of : Url → Bytes → Credentials
credentials_of u otp = record { username = u.username; password = u.password ++ otp }

-- The values that are set once the one-time password is known, or its error.
unfoldable pub filled_with {ℓ} :
    {W : Type ℓ} → FormLibrary W → Url → CForm → Outcome Bytes × W → Option Cause × W
filled_with lib u form (breaks e, w) = (some e, w)
filled_with lib u form (gives otp, w) = set_all lib (assignments (credentials_of u otp) form.opts) w

-- How a form is answered: with the error that the form has, with that of the one-time password, or
-- with the values for the fields. Only where the token is `otp` is the user asked for one.
unfoldable pub filled {ℓ} :
    {W : Type ℓ} → FormLibrary W → Desktop W → Url → CForm → W → Option Cause × W
unfolding filled_with
filled lib desk u form w =
    if is_set form.error
    then (some (other form.error), w)
    else if bytes_eq u.token (codes "otp")
    then filled_with lib u form (ask_otp desk w)
    else filled_with lib u form (gives [], w)

-- The result and the world of a callback.
abbrev seen {ℓ} : {W : Type ℓ} → Option Cause × State W → Option Cause × W
seen r = (r.0, r.1.world)
