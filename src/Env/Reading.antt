-- ===== src/Env/Reading.antt =====
-- What a field of a struct is filled with, by its tag and its type.
use flakes.Common.{
  ℕ, ◌≡◌, refl, if◌then◌else◌, List, [], ◌∷◌, Option, none, some, Bytes, bytes_eq, Bool, true,
  false, codes, ◌||◌, ◌&&◌, arith,
}
use flakes.Env.{
  Kind, string, boolean, unsupported, int, uint, float, pointer, text, Value, text_value,
  string_value, int_value, uint_value, float_value, bool_value, pointer_to, pointee, set_or,
  parse_int, parse_uint, parse_bool, options, fill, unmarshal,
}

-- The options that a tag may have, and whether one of them is `required`.
unfoldable pub known : List Bytes → Bool
known [] = true
known (opt ∷ opts) = (bytes_eq opt (codes "required") || bytes_eq opt []) && known opts

unfoldable pub requires : List Bytes → Bool
requires [] = false
requires (opt ∷ opts) = bytes_eq opt (codes "required") || requires opts

pub options-known :
    (required : Bool) (opts : List Bytes)
    → options required opts ≡ (if known opts then some (required || requires opts) else none)
unfolding options known requires
options-known false [] = refl
options-known true [] = refl
options-known false (opt ∷ opts) = ground (arith, options-known true opts, options-known false opts)
options-known true (opt ∷ opts) = ground (arith, options-known true opts, options-known true opts)

unfoldable pub made : {A : Type 0} → Option A → (A → Value) → Option Value
made none make = none
made (some a) make = some (make a)

-- The value of a kind that a text stands for, by package strconv, where there is one.
unfoldable pub read_plain : (ℕ → Bytes → Option ℕ) → Kind → Bytes → Option Value
unfolding made parse_int parse_uint parse_bool
read_plain parse_float string s = some (string_value s)
read_plain parse_float boolean s = made (parse_bool s) bool_value
read_plain parse_float unsupported s = none
read_plain parse_float (int bits) s = made (parse_int bits s) (λ i. int_value i.0 i.1)
read_plain parse_float (uint bits) s = made (parse_uint bits s) uint_value
read_plain parse_float (float bits) s = made (parse_float bits s) float_value
read_plain parse_float (pointer k) s = made (read_plain parse_float k s) pointer_to
read_plain parse_float (text k) s = read_plain parse_float k s

-- That of a type with `UnmarshalText` is by that.
unfoldable pub read : (Bytes → Option Bytes) → (ℕ → Bytes → Option ℕ) → Kind → Bytes → Option Value
unfolding read_plain made
read unmarshal_text parse_float (text k) s = made (unmarshal_text s) text_value
read unmarshal_text parse_float k s = read_plain parse_float k s

-- What is left where a text cannot be read: a pointer that was nil points to a zero value.
unfoldable pub plain_left : Kind → Value → Value
unfolding pointee
plain_left (pointer k) old = pointer_to (plain_left k (pointee k old))
plain_left (text k) old = plain_left k old
plain_left k old = old

unfoldable pub left : Kind → Value → Value
unfolding plain_left
left (text k) old = old
left k old = plain_left k old

abbrev outcome : Option Value → Value → Bool × Value
outcome none old = (false, old)
outcome (some v) old = (true, v)

set_or-made :
    {A : Type 0} (a : Option A) (make : A → Value) (old : Value)
    → set_or a make old ≡ outcome (made a make) old
unfolding made
set_or-made none make old = refl
set_or-made (some a) make old = refl

outcome-pointer :
    (v : Option Value) (old : Value)
    → (let (set, w) = outcome v old in (set, pointer_to w))
      ≡ outcome (made v pointer_to) (pointer_to old)
unfolding made
outcome-pointer none old = refl
outcome-pointer (some v) old = refl

module _ (unmarshal_text : Bytes → Option Bytes) (parse_float : ℕ → Bytes → Option ℕ) where
  fill-read :
      (k : Kind) (old : Value) (s : Bytes)
      → fill unmarshal_text parse_float k old s
        ≡ outcome (read_plain parse_float k s) (plain_left k old)
  unfolding fill read_plain plain_left
  fill-read string old s = refl
  fill-read boolean old s = set_or-made (parse_bool s) bool_value old
  fill-read unsupported old s = refl
  fill-read (int bits) old s = set_or-made (parse_int bits s) (λ i. int_value i.0 i.1) old
  fill-read (uint bits) old s = set_or-made (parse_uint bits s) uint_value old
  fill-read (float bits) old s = set_or-made (parse_float bits s) float_value old
  fill-read (pointer k) old s =
      rw (fill, fill-read k (pointee k old) s)
        (outcome-pointer (read_plain parse_float k s) (plain_left k (pointee k old)))
  fill-read (text k) old s = fill-read k old s

  pub unmarshal-read :
      (k : Kind) (old : Value) (s : Bytes)
      → unmarshal unmarshal_text parse_float k old s
        ≡ outcome (read unmarshal_text parse_float k s) (left k old)
  unfolding unmarshal read left
  unmarshal-read string old s = fill-read string old s
  unmarshal-read boolean old s = fill-read boolean old s
  unmarshal-read unsupported old s = fill-read unsupported old s
  unmarshal-read (int bits) old s = fill-read (int bits) old s
  unmarshal-read (uint bits) old s = fill-read (uint bits) old s
  unmarshal-read (float bits) old s = fill-read (float bits) old s
  unmarshal-read (pointer k) old s = fill-read (pointer k) old s
  unmarshal-read (text k) old s = set_or-made (unmarshal_text s) text_value old
