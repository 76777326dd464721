-- ===== src/Hostscan/Marshal.antt =====
-- pkg/openconnect/hostscan/internal/marshaler: the text of a report.
--
-- `reflect.Type` and `reflect.Value` are data types; a type stands for its kind, and a value of a
-- kind that the package does not read is `opaque`. A map's entries are in the order of `MapKeys`.
pub mod Typed
pub mod Lines
use flakes.Common.{
  ℕ, zero, suc, ◌+◌, if◌then◌else◌, List, [], ◌∷◌, ◌++◌, Option, none, some, Bytes, Bool, true,
  false, codes, decimal,
}

mutual
  pub data GoType : Type 0 where
    string_type bool_type int_type uint_type float32_type float64_type other_type : GoType
    struct_type : StructFields → GoType
    -- Whether the keys are strings, and the type of the elements.
    map_type : Bool → GoType → GoType

  -- A field's `csd` tag, where it has one, and its type.
  pub data StructFields : Type 0 where
    no_field : StructFields
    field : Option Bytes → GoType → StructFields → StructFields

mutual
  pub data GoValue : Type 0 where
    text : Bytes → GoValue
    truth : Bool → GoValue
    -- Whether it is negative, and the amount.
    integer : Bool → ℕ → GoValue
    natural floating : ℕ → GoValue
    structure : Values → GoValue
    mapping : Entries → GoValue
    opaque : GoValue

  pub data Values : Type 0 where
    no_value : Values
    value : GoValue → Values → Values

  pub data Entries : Type 0 where
    no_entry : Entries
    entry : Bytes → GoValue → Entries → Entries

-- The functions of primitive.go.
pub data Primitive : Type 0 where
  marshal_string marshal_bool marshal_int marshal_uint marshal_float32 marshal_float64 : Primitive

mutual
  pub data Marshaler : Type 0 where
    primitive : Primitive → Marshaler
    struct_marshaler : FieldMarshalers → Marshaler
    map_marshaler : Marshaler → Marshaler

  -- The index, the tag and the marshaler of each field.
  pub data FieldMarshalers : Type 0 where
    no_marshaler : FieldMarshalers
    field_marshaler : ℕ → Bytes → Marshaler → FieldMarshalers → FieldMarshalers

-- `newMapMarshaler`, once there is the marshaler of its elements.
unfoldable pub new_map_marshaler : Bool → Option Marshaler → Option Marshaler
new_map_marshaler false elem = none
new_map_marshaler true none = none
new_map_marshaler true (some m) = some (map_marshaler m)

-- `newFieldMarshaler` at an index, before the fields behind it.
unfoldable pub add_field : ℕ → Option Bytes → Option Marshaler → FieldMarshalers → FieldMarshalers
add_field i none m rest = rest
add_field i (some tag) none rest = rest
add_field i (some tag) (some m) rest = field_marshaler i tag m rest

unfoldable mutual
  unfolding new_map_marshaler add_field

  -- `newMarshaler`
  pub new_marshaler : GoType → Option Marshaler
  new_marshaler string_type = some (primitive marshal_string)
  new_marshaler bool_type = some (primitive marshal_bool)
  new_marshaler int_type = some (primitive marshal_int)
  new_marshaler uint_type = some (primitive marshal_uint)
  new_marshaler float32_type = some (primitive marshal_float32)
  new_marshaler float64_type = some (primitive marshal_float64)
  new_marshaler other_type = none
  new_marshaler (struct_type fs) = some (struct_marshaler (new_field_marshalers 0 fs))
  new_marshaler (map_type keys t) = new_map_marshaler keys (new_marshaler t)

  -- The loop of `newStructMarshaler` from an index on.
  pub new_field_marshalers : ℕ → StructFields → FieldMarshalers
  new_field_marshalers i no_field = no_marshaler
  new_field_marshalers i (field tag t fs) =
      add_field i tag (new_marshaler t) (new_field_marshalers (suc i) fs)

-- What `Marshal` does to the writer: a panic of package reflect, or an error or none.
pub data Marshaled {ℓ} (W : Type ℓ) : Type ℓ where
  panics : Marshaled W
  done : Option ℕ → W → Marshaled W

-- `if err := …; err != nil { return err }`
unfoldable pub and_then {ℓ} : {W : Type ℓ} → Marshaled W → (W → Marshaled W) → Marshaled W
and_then panics next = panics
and_then (done (some e) w) next = done (some e) w
and_then (done none w) next = next w

-- `v.Field(i)`; `none` is out of range.
unfoldable pub nth_value : ℕ → Values → Option GoValue
nth_value i no_value = none
nth_value zero (value v vs) = some v
nth_value (suc i) (value v vs) = nth_value i vs

-- `if p != "" { p += "." }`
unfoldable pub dotted : Bytes → Bytes
dotted [] = []
dotted (c ∷ p) = (c ∷ p) ++ codes "."

-- The lines `p="s";` and `p["k"]`.
unfoldable pub assignment : Bytes → Bytes → Bytes
assignment p s = p ++ codes "=\"" ++ s ++ codes "\";\n"

unfoldable pub at_key : Bytes → Bytes → Bytes
at_key p k = p ++ codes "[\"" ++ k ++ codes "\"]"

-- `strconv.FormatFloat`, for a number of bits, with the format `f` and as few digits as needed.
module _ (format_float : ℕ → ℕ → Bytes) where
  unfoldable pub format_bool : Bool → Bytes
  format_bool b = if b then codes "true" else codes "false"

  unfoldable pub format_int : Bool → ℕ → Bytes
  format_int negative n = if negative then codes "-" ++ decimal n else decimal n

  -- The text of a primitive value; `none` is the panic at another kind.
  unfoldable pub format : Primitive → GoValue → Option Bytes
  unfolding format_bool format_int
  format marshal_string (text s) = some s
  format marshal_bool (truth b) = some (format_bool b)
  format marshal_int (integer negative n) = some (format_int negative n)
  format marshal_uint (natural n) = some (decimal n)
  format marshal_float32 (floating x) = some (format_float 32 x)
  format marshal_float64 (floating x) = some (format_float 64 x)
  format f v = none

  module _ {ℓ} {W : Type ℓ} (write : Bytes → W → Option ℕ × W) where
    -- `io.WriteString`
    unfoldable pub write_string : Bytes → W → Marshaled W
    write_string s w = let (err, w') = write s w in done err w'

    -- `marshalerFunc.Marshal`
    unfoldable pub marshal_text : Option Bytes → Bytes → W → Marshaled W
    unfolding write_string
    marshal_text none p w = panics
    marshal_text (some s) p w = write_string (assignment p s) w

    -- The loop of `mapMarshaler.Marshal`.
    unfoldable pub each_entry :
        (GoValue → Bytes → W → Marshaled W) → Entries → Bytes → W → Marshaled W
    unfolding write_string and_then
    each_entry marshal_elem no_entry p w = done none w
    each_entry marshal_elem (entry k v es) p w =
        and_then (write_string (at_key p k ++ codes "={};\n") w)
          λ w1. and_then (marshal_elem v (at_key p k) w1) λ w2. each_entry marshal_elem es p w2

    -- A field's value and its marshaler.
    unfoldable pub marshal_field :
        Option GoValue → (GoValue → Bytes → W → Marshaled W) → Bytes → W → Marshaled W
    marshal_field none m p w = panics
    marshal_field (some v) m p w = m v p w

    unfoldable mutual
      unfolding marshal_text each_entry marshal_field and_then

      -- `Marshal` of each marshaler.
      pub marshal : Marshaler → GoValue → Bytes → W → Marshaled W
      marshal (primitive f) v p w = marshal_text (format f v) p w
      marshal (struct_marshaler fms) (structure vs) p w = marshal_fields fms vs (dotted p) w
      marshal (map_marshaler m) (mapping es) p w = each_entry (marshal m) es p w
      marshal (struct_marshaler fms) v p w = panics
      marshal (map_marshaler m) v p w = panics

      -- The loop of `structMarshaler.Marshal`.
      pub marshal_fields : FieldMarshalers → Values → Bytes → W → Marshaled W
      marshal_fields no_marshaler vs p w = done none w
      marshal_fields (field_marshaler i tag m fms) vs p w =
          and_then (marshal_field (nth_value i vs) (marshal m) (p ++ tag) w)
            λ w'. marshal_fields fms vs p w'

    -- `Encoder.Encode`; the last case is the error for a type without a marshaler.
    unfoldable pub encode : ℕ → GoType → GoValue → Bytes → W → Marshaled W
    unfolding marshal new_marshaler
    encode no_type t v p w = elim (new_marshaler t) [
      | some m ↦ marshal m v p w
      | none ↦ done (some no_type) w
    ]
