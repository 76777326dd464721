-- ===== src/Env.antt =====
-- pkg/env: a struct filled from the environment.
--
-- A struct is the list of its fields. `strconv.ParseFloat` and the `UnmarshalText` of a field's
-- type are parameters.
pub mod Reading
pub mod Fields
use flakes.Common.{
  ℕ, ◌+◌, ◌-◌, ◌*◌, ◌^◌, Bool, true, false, ◌&&◌, if◌then◌else◌, ltb, leb, ◌==◌, List, [], ◌∷◌,
  Option, unsigned, none, some, Bytes, codes, Map, get, put, bytes_eq, split, index, take, drop,
}

-- `NewDecoder`: an entry without `=` is skipped, and a later one replaces an earlier one.
unfoldable pub decoder_from : Map Bytes → List Bytes → Map Bytes
decoder_from env [] = env
decoder_from env (e ∷ environ) = elim (index b'=' e) [
  | none ↦ decoder_from env environ
  | some i ↦ decoder_from (put (take i e) (drop (i + 1) e) env) environ
]

unfoldable pub new_decoder : List Bytes → Map Bytes
unfolding decoder_from
new_decoder environ = decoder_from [] environ

-- The kinds of a field's type that `unmarshal` tells apart; the numbers have their bits.
pub data Kind : Type 0 where
  string boolean unsupported : Kind
  int uint float : ℕ → Kind
  pointer : Kind → Kind
  -- A type whose pointer has `UnmarshalText`, over its own kind.
  text : Kind → Kind

-- An integer is its sign and its size.
pub data Value : Type 0 where
  nil : Value
  text_value string_value : Bytes → Value
  int_value : Bool → ℕ → Value
  uint_value float_value : ℕ → Value
  bool_value : Bool → Value
  pointer_to : Value → Value
  other_value : ℕ → Value

-- The value that `reflect.New` gives.
unfoldable pub zero_of : Kind → Value
zero_of string = string_value []
zero_of boolean = bool_value false
zero_of unsupported = other_value 0
zero_of (int bits) = int_value false 0
zero_of (uint bits) = uint_value 0
zero_of (float bits) = float_value 0
zero_of (pointer k) = nil
zero_of (text k) = zero_of k

-- `strconv.ParseUint(s, 10, bits)`
unfoldable pub parse_uint : ℕ → Bytes → Option ℕ
unfolding unsigned
parse_uint bits s = elim (unsigned s) [
  | none ↦ none
  | some n ↦ if ltb n (2 ^ bits) then some n else none
]

-- `strconv.ParseInt(s, 10, bits)`, from the sign on.
unfoldable pub signed : ℕ → Bool → Bytes → Option (Bool × ℕ)
unfolding unsigned
signed bits true s = elim (unsigned s) [
  | none ↦ none
  | some n ↦ if leb n (2 ^ (bits - 1)) then some (ltb 0 n, n) else none
]
signed bits false s = elim (unsigned s) [
  | none ↦ none
  | some n ↦ if ltb n (2 ^ (bits - 1)) then some (false, n) else none
]

unfoldable pub parse_int : ℕ → Bytes → Option (Bool × ℕ)
unfolding signed
parse_int bits [] = none
parse_int bits (c ∷ s) =
    if c == b'-'
    then signed bits true s
    else if c == b'+'
    then signed bits false s
    else signed bits false (c ∷ s)

unfoldable pub one_of : Bytes → List Bytes → Bool
one_of s [] = false
one_of s (t ∷ ts) = if bytes_eq s t then true else one_of s ts

-- `strconv.ParseBool`
unfoldable pub parse_bool : Bytes → Option Bool
unfolding one_of
parse_bool s =
    if one_of s
      (codes "1" ∷ codes "t" ∷ codes "T" ∷ codes "true" ∷ codes "TRUE" ∷ codes "True" ∷ [])
    then some true
    else if one_of s
        (codes "0" ∷ codes "f" ∷ codes "F" ∷ codes "false" ∷ codes "FALSE" ∷ codes "False" ∷ [])
    then some false
    else none

-- The pointee of a pointer, which is made where it is nil.
unfoldable pub pointee : Kind → Value → Value
unfolding zero_of
pointee k (pointer_to v) = v
pointee k nil = zero_of k
pointee k _ = zero_of k

-- A value that was set, or an error beside the old value.
abbrev pub set_or {ℓ} : {A : Type ℓ} → Option A → (A → Value) → Value → Bool × Value
set_or none make old = (false, old)
set_or (some a) make old = (true, make a)

pub record Field : Type 0 where
  pub name : Bytes
  pub can_set : Bool
  pub tag : Bytes
  pub kind : Kind
  pub value : Value

-- The errors of `Decoder.Unmarshal` on a struct.
pub data Error : Type 0 where
  unknown_option required_missing not_set : Bytes → Error

-- `for _, opt := range parts[1:]`: whether the field is required, or an unknown option.
unfoldable pub options : Bool → List Bytes → Option Bool
options required [] = some required
options required (opt ∷ opts) =
    let on = options true opts in
    let same = options required opts in
    if bytes_eq opt (codes "required") then on else if bytes_eq opt [] then same else none

module _ (unmarshal_text : Bytes → Option Bytes) (parse_float : ℕ → Bytes → Option ℕ) where
  -- `unmarshal` behind the test for `UnmarshalText`, which a pointer's element does not get.
  unfoldable pub fill : Kind → Value → Bytes → Bool × Value
  unfolding pointee parse_int parse_uint parse_bool
  fill string old s = (true, string_value s)
  fill boolean old s = set_or (parse_bool s) bool_value old
  fill unsupported old s = (false, old)
  fill (int bits) old s = set_or (parse_int bits s) (λ i. int_value i.0 i.1) old
  fill (uint bits) old s = set_or (parse_uint bits s) uint_value old
  fill (float bits) old s = set_or (parse_float bits s) float_value old
  fill (pointer k) old s = let (set, v) = fill k (pointee k old) s in (set, pointer_to v)
  fill (text k) old s = fill k old s

  -- `unmarshal`: whether it returned nil, and the value then.
  unfoldable pub unmarshal : Kind → Value → Bytes → Bool × Value
  unfolding fill
  unmarshal string old s = fill string old s
  unmarshal boolean old s = fill boolean old s
  unmarshal unsupported old s = fill unsupported old s
  unmarshal (int bits) old s = fill (int bits) old s
  unmarshal (uint bits) old s = fill (uint bits) old s
  unmarshal (float bits) old s = fill (float bits) old s
  unmarshal (pointer k) old s = fill (pointer k) old s
  unmarshal (text k) old s = set_or (unmarshal_text s) text_value old

  -- A field whose tag has the key `key` and the options `opts`.
  unfoldable pub load_tagged : Map Bytes → Field → Bytes → List Bytes → Option Error × Field
  unfolding options
  load_tagged env f key opts = elim (options false opts) [
    | none ↦ (some (unknown_option f.name), f)
    | some required ↦ elim (get key env) [
      | none ↦ if required then (some (required_missing f.name), f) else (none, f)
      | some val ↦
          let (set, v) = unmarshal f.kind f.value val in
          if set
          then (none, record f { value = v })
          else (some (not_set f.name), record f { value = v })
    ]
  ]

  -- A round of the loop over the fields.
  unfoldable pub load_field : Map Bytes → Field → Option Error × Field
  unfolding load_tagged
  load_field env f =
      if f.can_set
      then elim f.tag [
        | [] ↦ (none, f)
        | c ∷ tag ↦ elim (split b',' (c ∷ tag)) [
          | [] ↦ (none, f)
          | key ∷ opts ↦ load_tagged env f key opts
        ]
      ]
      else (none, f)

  -- `Decoder.Unmarshal` on a struct: the loop ends at the first error.
  unfoldable pub unmarshal_fields : Map Bytes → List Field → Option Error × List Field
  unmarshal_fields env [] = (none, [])
  unmarshal_fields env (f ∷ fields) =
      let (err, f') = load_field env f in
      let (err', fields') = unmarshal_fields env fields in
      elim err [ some e ↦ (some e, f' ∷ fields) | none ↦ (err', f' ∷ fields') ]
