-- ===== src/Env/Fields.antt =====
-- The environment's last entry for a key counts, and a struct is filled field by field.
use flakes.Common.{
  ℕ, ◌≡◌, inl, inr, refl, if◌then◌else◌, List, [], ◌∷◌, Option, none, some, Option-cases, Bytes,
  Map, get, put, get-put, bytes_eq, index, take, drop, ◌+◌, Bool, true, false, split, ◌≢◌,
  Bool-cases, arith, subst,
}
use flakes.Common.Labels.{split-ne}
use flakes.Env.Reading.{known, requires, read, left, options-known, unmarshal-read}
use flakes.Env.{
  decoder_from, new_decoder, Field, Error, unknown_option, required_missing, not_set, Value,
  load_tagged, load_field, unmarshal_fields,
}

-- The value of a key in a list of entries: that of the last entry that has it.
unfoldable pub last_value : Bytes → Option Bytes → List Bytes → Option Bytes
last_value key found [] = found
last_value key found (e ∷ environ) = elim (index b'=' e) [
  | none ↦ last_value key found environ
  | some i ↦
      last_value key (if bytes_eq (take i e) key then some (drop (i + 1) e) else found) environ
]

get-decoder_from :
    (key : Bytes) (env : Map Bytes) (environ : List Bytes)
    → get key (decoder_from env environ) ≡ last_value key (get key env) environ
unfolding decoder_from last_value
get-decoder_from key env [] = refl
get-decoder_from key env (e ∷ environ) = elim (Option-cases (index b'=' e)) [
  | inl none_at ↦ rw (decoder_from, last_value, none_at) (get-decoder_from key env environ)
  | inr (i, at) ↦
      rw (decoder_from, last_value, at, ← get-put (take i e) key (drop (i + 1) e) env)
        (get-decoder_from key (put (take i e) (drop (i + 1) e) env) environ)
]

-- The decoder holds for each key the text behind the first `=` of the last entry with that key.
pub get-new_decoder :
    (key : Bytes) (environ : List Bytes)
    → get key (new_decoder environ) ≡ last_value key none environ
unfolding new_decoder get
get-new_decoder key environ = get-decoder_from key [] environ

cons-cases : (ls : List Bytes) → ls ≢ [] → (key : Bytes) × (opts : List Bytes) × (ls ≡ key ∷ opts)
cons-cases [] ne = absurd (ne refl)
cons-cases (key ∷ opts) ne = (key, opts, refl)

module _ (unmarshal_text : Bytes → Option Bytes) (parse_float : ℕ → Bytes → Option ℕ)
    (env : Map Bytes) where
  -- A field that can be set, with a tag of a key and options.
  pub record IsTagged (f : Field) (key : Bytes) (opts : List Bytes) : Type 0 where
    can_set : f.can_set ≡ true
    has_tag : f.tag ≢ []
    parts : split b',' f.tag ≡ key ∷ opts

  -- How a field is filled.
  pub data Loads (f : Field) : Option Error → Field → Type 0 where
    left_alone : f.can_set ≡ false → Loads f none f
    untagged : f.tag ≡ [] → Loads f none f
    bad_tag :
        (key : Bytes) (opts : List Bytes)
        → IsTagged f key opts
        → known opts ≡ false
        → Loads f (some (unknown_option f.name)) f
    absent :
        (key : Bytes) (opts : List Bytes)
        → IsTagged f key opts
        → known opts ≡ true
        → requires opts ≡ false
        → get key env ≡ none
        → Loads f none f
    missing :
        (key : Bytes) (opts : List Bytes)
        → IsTagged f key opts
        → known opts ≡ true
        → requires opts ≡ true
        → get key env ≡ none
        → Loads f (some (required_missing f.name)) f
    gets :
        (key : Bytes) (opts : List Bytes) (val : Bytes) (v : Value)
        → IsTagged f key opts
        → known opts ≡ true
        → get key env ≡ some val
        → read unmarshal_text parse_float f.kind val ≡ some v
        → Loads f none (record f { value = v })
    refuses :
        (key : Bytes) (opts : List Bytes) (val : Bytes)
        → IsTagged f key opts
        → known opts ≡ true
        → get key env ≡ some val
        → read unmarshal_text parse_float f.kind val ≡ none
        → Loads f (some (not_set f.name)) (record f { value = left f.kind f.value })

  abbrev Loaded : Field → Type 0
  Loaded f = let result = load_field unmarshal_text parse_float env f in Loads f result.0 result.1

  tagged-Loads :
      (f : Field) (key : Bytes) (opts : List Bytes)
      → IsTagged f key opts
      → let result = load_tagged unmarshal_text parse_float env f key opts in
        Loads f result.0 result.1
  unfolding load_tagged
  tagged-Loads f key opts tag = elim (Bool-cases (known opts)) [
    | inr bad ↦ rw (load_tagged, options-known false opts, bad) (bad_tag key opts tag bad)
    | inl good ↦ elim (Option-cases (get key env)) [
      | inl gone ↦ elim (Bool-cases (requires opts)) [
        | inl need ↦
            rw (load_tagged, options-known false opts, good, gone, need)
              (missing key opts tag good need gone)
        | inr free ↦
            rw (load_tagged, options-known false opts, good, gone, free)
              (absent key opts tag good free gone)
      ]
      | inr (val, there) ↦ elim (Option-cases (read unmarshal_text parse_float f.kind val)) [
        | inl none_read ↦
            rw
              (
                load_tagged,
                options-known false opts,
                good,
                there,
                unmarshal-read unmarshal_text parse_float f.kind f.value val,
                none_read,
              )
              (refuses key opts val tag good there none_read)
        | inr (v, is_read) ↦
            rw
              (
                load_tagged,
                options-known false opts,
                good,
                there,
                unmarshal-read unmarshal_text parse_float f.kind f.value val,
                is_read,
              )
              (gets key opts val v tag good there is_read)
      ]
    ]
  ]

  tag-Loads :
      (f : Field) (s : Bytes)
      → f.can_set ≡ true
      → f.tag ≡ s
      → let result : Option Error × Field = elim s [
        | [] ↦ (none, f)
        | c ∷ tag ↦ elim (split b',' (c ∷ tag)) [
          | [] ↦ (none, f)
          | key ∷ opts ↦ load_tagged unmarshal_text parse_float env f key opts
        ]
      ] in
        Loads f result.0 result.1
  tag-Loads f [] free there = untagged there
  tag-Loads f (c ∷ tag) free there =
      let (key, opts, parts) = cons-cases (split b',' (c ∷ tag)) (split-ne b',' (c ∷ tag)) in
      rw (parts) (
        tagged-Loads f key opts (record {
          can_set = free;
          has_tag = λ e. absurd (ground (arith, there, e));
          parts = rw (there) parts;
        }))

  guarded-Loads :
      (f : Field) (b : Bool) (r : Option Error × Field)
      → (b ≡ true → Loads f r.0 r.1)
      → (b ≡ false → Loads f none f)
      → let q : Option Error × Field = if b then r else (none, f) in Loads f q.0 q.1
  guarded-Loads f true r free fixed = free refl
  guarded-Loads f false r free fixed = fixed refl

  field-Loads : (f : Field) → Loaded f
  unfolding load_field
  field-Loads f =
      guarded-Loads f f.can_set _ (λ free. tag-Loads f f.tag free refl) (λ e. left_alone e)

  -- How a struct is filled: all fields are, or those before the first one with an error, which
  -- itself is left with what was set, and those behind it are as they were.
  pub data Fills : List Field → Option Error → List Field → Type 0 where
    done : Fills [] none []
    stops :
        {f f' : Field} {fields : List Field} {e : Error}
        → Loads f (some e) f'
        → Fills (f ∷ fields) (some e) (f' ∷ fields)
    fills :
        {f f' : Field} {fields fields' : List Field} {err : Option Error}
        → Loads f none f'
        → Fills fields err fields'
        → Fills (f ∷ fields) err (f' ∷ fields')

  -- `Unmarshal` of a struct ends at the first field with an error, and leaves the ones behind it.
  -- A field that cannot be set, or without a tag, is left alone. A field whose tag has an option
  -- other than `required` is an error. A field whose key the environment does not have is left
  -- alone, or an error where it is required. Any other field gets the value that the text of the
  -- environment stands for, by its kind or by its `UnmarshalText`, or is an error where the text
  -- stands for none, and then a pointer that was nil is left with a zero value.
  pub unmarshal_fields-Fills :
      (fields : List Field)
      → let result = unmarshal_fields unmarshal_text parse_float env fields in
        Fills fields result.0 result.1
  unfolding unmarshal_fields
  unmarshal_fields-Fills [] = done
  unmarshal_fields-Fills (f ∷ fields) =
      let (err, f') = load_field unmarshal_text parse_float env f in
      let this = field-Loads f in
      elim (Option-cases err) [
        | inl ok ↦
            rw (unmarshal_fields, ok)
              (fills (subst (λ e. Loads f e f') ok this) (unmarshal_fields-Fills fields))
        | inr (e, bad) ↦ rw (unmarshal_fields, bad) (stops (subst (λ e. Loads f e f') bad this))
      ]
