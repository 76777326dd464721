-- ===== src/Hostscan/Marshal/Typed.antt =====
-- The values of a type, as the marshaler reads them.
use flakes.Common.{
  ℕ, zero, suc, ◌≡◌, refl, List, [], ◌∷◌, ◌++◌, Option, none, some, Bytes, Bool, true, false, codes,
}
use flakes.Hostscan.Marshal.{
  GoType, string_type, bool_type, int_type, uint_type, float32_type, float64_type, other_type,
  struct_type, map_type, StructFields, no_field, field, GoValue, text, truth, integer, natural,
  floating, structure, mapping, Values, no_value, value, Entries, no_entry, entry, Marshaled,
  panics, done, and_then, nth_value, at_key,
}

-- The values of a type. A field without a tag, or of a type that has no marshaler, has any value.
mutual
  pub data Typed : GoType → GoValue → Type 0 where
    typed_text : (s : Bytes) → Typed string_type (text s)
    typed_truth : (b : Bool) → Typed bool_type (truth b)
    typed_integer : (negative : Bool) (n : ℕ) → Typed int_type (integer negative n)
    typed_natural : (n : ℕ) → Typed uint_type (natural n)
    typed_float32 : (x : ℕ) → Typed float32_type (floating x)
    typed_float64 : (x : ℕ) → Typed float64_type (floating x)
    typed_structure :
        (fs : StructFields) (vs : Values)
        → TypedFields fs vs
        → Typed (struct_type fs) (structure vs)
    typed_mapping :
        (t : GoType) (es : Entries) → TypedEntries t es → Typed (map_type true t) (mapping es)
    typed_other : (v : GoValue) → Typed other_type v
    typed_keys : (t : GoType) (v : GoValue) → Typed (map_type false t) v

  pub data TypedFields : StructFields → Values → Type 0 where
    typed_end : TypedFields no_field no_value
    typed_field :
        (tag : Option Bytes) (t : GoType) (fs : StructFields) (v : GoValue) (vs : Values)
        → Typed t v
        → TypedFields fs vs
        → TypedFields (field tag t fs) (value v vs)

  pub data TypedEntries : GoType → Entries → Type 0 where
    typed_none : (t : GoType) → TypedEntries t no_entry
    typed_entry :
        (t : GoType) (k : Bytes) (v : GoValue) (es : Entries)
        → Typed t v
        → TypedEntries t es
        → TypedEntries t (entry k v es)

-- The types that have a marshaler.
unfoldable pub supported : GoType → Bool
supported other_type = false
supported (map_type false t) = false
supported (map_type true t) = supported t
supported t = true

-- The lines for each entry, with those of its value.
unfoldable pub entry_lines : (GoValue → Bytes → List Bytes) → Entries → Bytes → List Bytes
entry_lines elem no_entry p = []
entry_lines elem (entry k v es) p =
    (at_key p k ++ codes "={};\n") ∷ (elem v (at_key p k) ++ entry_lines elem es p)

-- The values from an index on.
unfoldable pub drop_values : ℕ → Values → Values
drop_values zero vs = vs
drop_values (suc i) no_value = no_value
drop_values (suc i) (value v vs) = drop_values i vs

pub nth_value-drop_values :
    (i : ℕ) (all : Values) (v : GoValue) (vs : Values)
    → drop_values i all ≡ value v vs
    → (nth_value i all ≡ some v) × (drop_values (suc i) all ≡ vs)
unfolding drop_values nth_value
nth_value-drop_values zero no_value v vs e = absurd cc
nth_value-drop_values zero (value u us) v vs e = (cc, cc)
nth_value-drop_values (suc i) no_value v vs e = absurd cc
nth_value-drop_values (suc i) (value u us) v vs e = nth_value-drop_values i us v vs e

module _ {ℓ} {W : Type ℓ} where
  pub and_then_assoc :
      (r : Marshaled W) (f g : W → Marshaled W)
      → and_then (and_then r f) g ≡ and_then r (λ w. and_then (f w) g)
  unfolding and_then
  and_then_assoc panics f g = refl
  and_then_assoc (done none w) f g = refl
  and_then_assoc (done (some e) w) f g = refl

  pub ended : (r : Marshaled W) → r ≡ and_then r (done none)
  unfolding and_then
  ended panics = refl
  ended (done none w) = refl
  ended (done (some e) w) = refl
