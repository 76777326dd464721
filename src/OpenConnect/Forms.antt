-- ===== src/OpenConnect/Forms.antt =====
-- pkg/openconnect/form.go and processor.go: the forms of an authentication and what fills them.
use flakes.Common.{
  ℕ, ◌==◌, Bool, true, false, if◌then◌else◌, List, [], ◌∷◌, Option, none, some, Bytes, codes,
  to_lower, cut_prefix,
}
use flakes.OpenConnect.Vpn.{Cause, other}

-- `FormOptionText` and `FormOptionPassword`
abbrev pub text_type : ℕ
text_type = 1

abbrev pub password_type : ℕ
password_type = 2

pub record FormChoice : Type 0 where
  pub name : Bytes
  pub label : Bytes

pub record FormOption : Type 0 where
  -- The pointer to the option of the library's form.
  pub handle : ℕ
  pub name : Bytes
  pub label : Bytes
  pub kind : ℕ
  pub choices : List FormChoice

pub record AuthForm : Type 0 where
  pub banner : Bytes
  pub message : Bytes
  pub error : Bytes
  pub auth_group : Option FormOption
  pub options : List FormOption

-- `FormProcessor`, which may change the world.
abbrev pub FormProcessor {ℓ} : Type ℓ → Type ℓ
FormProcessor W = AuthForm → W → Option Cause × W

-- `CredentialsProcessor`
pub record Credentials : Type 0 where
  pub username : Bytes
  pub password : Bytes

-- `openconnect_set_option_value`, at a handle, and the printing of a log entry.
pub record FormLibrary {ℓ} (W : Type ℓ) : Type ℓ where
  pub set_option_value : ℕ → Bytes → W → ℕ × W
  pub log : Bytes → List (Bytes × Bytes) → W → W
  pub type_name : ℕ → Bytes

-- `strings.HasPrefix`
unfoldable pub starts_with : Bytes → Bytes → Bool
starts_with s p = elim (cut_prefix s p) [ none ↦ false | some rest ↦ true ]

module _ {ℓ} {W : Type ℓ} (lib : FormLibrary W) where
  -- `FormOption.SetValue`
  unfoldable pub set_value : FormOption → Bytes → W → Option Cause × W
  set_value o val w =
      let (rc, w') = lib.set_option_value o.handle val w in
      (if rc == 0 then none else some (other (codes "failed to set option value")), w')

  -- The `switch` on the type of one option.
  unfoldable pub fill_option : Credentials → FormOption → W → Option Cause × W
  unfolding set_value starts_with
  fill_option cp o w =
      if o.kind == text_type
      then (if starts_with (to_lower o.name) (codes "user")
          then set_value o cp.username w
          else (none, w))
      else if o.kind == password_type
      then set_value o cp.password w
      else (none, w)

  -- Its loop over the options.
  unfoldable pub fill_options : Credentials → List FormOption → W → Option Cause × W
  unfolding fill_option
  fill_options cp [] w = (none, w)
  fill_options cp (o ∷ os) w =
      let (err, w') = fill_option cp o w in
      elim err [ some e ↦ (some e, w') | none ↦ fill_options cp os w' ]

  -- `CredentialsProcessor.ProcessForm`
  unfoldable pub fill_form : Credentials → FormProcessor W
  fill_form cp form w = fill_options cp form.options w

  unfoldable pub log_choices : List FormChoice → W → W
  log_choices [] w = w
  log_choices (c ∷ cs) w =
      log_choices cs
        (lib.log (codes "choice") ((codes "name", c.name) ∷ (codes "label", c.label) ∷ []) w)

  unfoldable pub log_options : List FormOption → W → W
  unfolding log_choices
  log_options [] w = w
  log_options (o ∷ os) w =
      let attrs =
        (codes "name", o.name)
        ∷ (codes "label", o.label)
        ∷ (codes "type", lib.type_name o.kind)
        ∷ [] in
      log_options os (log_choices o.choices (lib.log (codes "option") attrs w))

  -- `LoggerFunc.ProcessForm`
  unfoldable pub log_form : FormProcessor W
  unfolding log_options
  log_form form w =
      let attrs =
        (codes "banner", form.banner)
        ∷ (codes "message", form.message)
        ∷ (codes "error", form.error)
        ∷ [] in
      (none, log_options form.options (lib.log (codes "Processing Auth Form") attrs w))

-- `AggregateProcessor.ProcessForm`
unfoldable pub aggregate {ℓ} : {W : Type ℓ} → List (FormProcessor W) → FormProcessor W
aggregate [] form w = (none, w)
aggregate (p ∷ ps) form w =
    let (err, w') = p form w in elim err [ some e ↦ (some e, w') | none ↦ aggregate ps form w' ]
