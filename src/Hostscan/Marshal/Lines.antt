-- ===== src/Hostscan/Marshal/Lines.antt =====
-- The lines that the marshaler writes.
use flakes.Common.{
  ℕ, suc, if◌then◌else◌, ◌≡◌, refl, sym, ◌∙◌, ap, List, [], ◌∷◌, ◌++◌, Option, none, some, Bytes,
  Bool, true, false, codes, decimal,
}
use mathlib.Core.Path.{fun_ext}
use flakes.Hostscan.Marshal.{
  GoType, string_type, bool_type, int_type, uint_type, float32_type, float64_type, other_type,
  struct_type, map_type, StructFields, no_field, field, GoValue, text, truth, integer, natural,
  floating, structure, mapping, Values, no_value, value, Entries, marshal_string, marshal_bool,
  marshal_int, marshal_uint, marshal_float32, marshal_float64, Marshaler, primitive,
  struct_marshaler, map_marshaler, FieldMarshalers, new_map_marshaler, add_field, new_marshaler,
  new_field_marshalers, Marshaled, done, and_then, nth_value, dotted, assignment, at_key,
  format_bool, format_int, format, write_string, marshal_text, each_entry, marshal_field, marshal,
  marshal_fields, encode,
}
use flakes.Hostscan.Marshal.Typed.{
  Typed, typed_text, typed_truth, typed_integer, typed_natural, typed_float32, typed_float64,
  typed_structure, typed_mapping, TypedFields, typed_end, typed_field, TypedEntries, typed_none,
  typed_entry, supported, entry_lines, drop_values, nth_value-drop_values, and_then_assoc, ended,
}

module _ (format_float : ℕ → ℕ → Bytes) where
  unfoldable mutual
    unfolding entry_lines supported

    -- The lines for a value of a type: one for each primitive value that is reached over fields with
    -- a tag and over entries, and one for each entry.
    pub lines : GoType → GoValue → Bytes → List Bytes
    lines string_type (text s) p = assignment p s ∷ []
    lines bool_type (truth b) p = assignment p (format_bool format_float b) ∷ []
    lines int_type (integer negative n) p = assignment p (format_int format_float negative n) ∷ []
    lines uint_type (natural n) p = assignment p (decimal n) ∷ []
    lines float32_type (floating x) p = assignment p (format_float 32 x) ∷ []
    lines float64_type (floating x) p = assignment p (format_float 64 x) ∷ []
    lines (struct_type fs) (structure vs) p = field_lines fs vs (dotted p)
    lines (map_type keys t) (mapping es) p = entry_lines (lines t) es p
    lines t v p = []

    pub field_lines : StructFields → Values → Bytes → List Bytes
    field_lines no_field vs p = []
    field_lines fs no_value p = []
    field_lines (field none t fs) (value v vs) p = field_lines fs vs p
    field_lines (field (some tag) t fs) (value v vs) p =
        (if supported t then lines t v (p ++ tag) else []) ++ field_lines fs vs p

  module _ {ℓ} {W : Type ℓ} (write : Bytes → W → Option ℕ × W) where
    -- The lines are written in turn, up to the first error.
    unfoldable pub write_lines : List Bytes → W → Marshaled W
    write_lines [] w = done none w
    write_lines (l ∷ ls) w = and_then (write_string format_float write l w) (write_lines ls)

    write_lines-append :
        (first rest : List Bytes) (w : W)
        → write_lines (first ++ rest) w ≡ and_then (write_lines first w) (write_lines rest)
    unfolding write_lines and_then
    write_lines-append [] rest w = refl
    write_lines-append (l ∷ first) rest w =
        ap (and_then (write_string format_float write l w))
          (fun_ext (write_lines-append first rest))
        ∙ sym (
            and_then_assoc (write_string format_float write l w) (write_lines first)
              (write_lines rest))

    Writes : GoType → Marshaler → Type ℓ
    Writes t m =
        (v : GoValue) (p : Bytes) (w : W)
        → Typed t v
        → marshal format_float write m v p w ≡ write_lines (lines t v p) w

    -- The marshaler of a type writes its lines, and there is one where the type is supported.
    data IsGood (t : GoType) : Option Marshaler → Type ℓ where
      good_none : supported t ≡ false → IsGood t none
      good_some : (m : Marshaler) → supported t ≡ true → Writes t m → IsGood t (some m)

    -- A step that writes the lines `first`, before one that writes the lines `rest`.
    lines_then :
        (r : Marshaled W) (next : W → Marshaled W) (first rest : List Bytes) (w : W)
        → r ≡ write_lines first w
        → ((w' : W) → next w' ≡ write_lines rest w')
        → and_then r next ≡ write_lines (first ++ rest) w
    lines_then r next first rest w e h =
        ap (λ (q : Marshaled W). and_then q next) e
        ∙ ap (and_then (write_lines first w)) (fun_ext h)
        ∙ sym (write_lines-append first rest w)

    assignment-Writes :
        (p s : Bytes) (w : W)
        → write_string format_float write (assignment p s) w ≡ write_lines (assignment p s ∷ []) w
    unfolding write_lines
    assignment-Writes p s w = ended (write_string format_float write (assignment p s) w)

    string-Writes : Writes string_type (primitive marshal_string)
    unfolding Writes marshal lines format marshal_text write_lines
    string-Writes _ p w (typed_text s) = assignment-Writes p (s) w

    bool-Writes : Writes bool_type (primitive marshal_bool)
    unfolding Writes marshal lines format marshal_text write_lines
    bool-Writes _ p w (typed_truth b) = assignment-Writes p (format_bool format_float b) w

    int-Writes : Writes int_type (primitive marshal_int)
    unfolding Writes marshal lines format marshal_text write_lines
    int-Writes _ p w (typed_integer negative n) =
        assignment-Writes p (format_int format_float negative n) w

    uint-Writes : Writes uint_type (primitive marshal_uint)
    unfolding Writes marshal lines format marshal_text write_lines
    uint-Writes _ p w (typed_natural n) = assignment-Writes p (decimal n) w

    float32-Writes : Writes float32_type (primitive marshal_float32)
    unfolding Writes marshal lines format marshal_text write_lines
    float32-Writes _ p w (typed_float32 x) = assignment-Writes p (format_float 32 x) w

    float64-Writes : Writes float64_type (primitive marshal_float64)
    unfolding Writes marshal lines format marshal_text write_lines
    float64-Writes _ p w (typed_float64 x) = assignment-Writes p (format_float 64 x) w

    entries-Writes :
        (t : GoType) (m : Marshaler) (es : Entries) (p : Bytes) (w : W)
        → Writes t m
        → TypedEntries t es
        → each_entry format_float write (marshal format_float write m) es p w
          ≡ write_lines (entry_lines (lines t) es p) w
    unfolding Writes each_entry entry_lines write_lines
    entries-Writes t m _ p w writes (typed_none _) = refl
    entries-Writes t m _ p w writes (typed_entry _ k v es tv tes) =
        ap (and_then (write_string format_float write (at_key p k ++ codes "={};\n") w)) (
          fun_ext λ w1.
            lines_then _ _ (lines t v (at_key p k)) (entry_lines (lines t) es p) w1
              (writes v (at_key p k) w1 tv) (λ w2. entries-Writes t m es p w2 writes tes))

    map-Writes :
        (t : GoType) (m : Marshaler) → Writes t m → Writes (map_type true t) (map_marshaler m)
    unfolding Writes marshal lines
    map-Writes t m writes _ p w (typed_mapping _ es tes) = entries-Writes t m es p w writes tes

    map-IsGood :
        (keys : Bool) (t : GoType) (m : Option Marshaler)
        → IsGood t m
        → IsGood (map_type keys t) (new_map_marshaler keys m)
    unfolding new_map_marshaler supported
    map-IsGood false t m good = good_none refl
    map-IsGood true t _ (good_none unknown) = good_none unknown
    map-IsGood true t _ (good_some m known writes) =
        good_some (map_marshaler m) known (map-Writes t m writes)

    field-Writes :
        (tag : Option Bytes) (t : GoType) (fs : StructFields) (m : Option Marshaler)
        (rest : FieldMarshalers) (i : ℕ) (all : Values) (v : GoValue) (vs : Values) (p : Bytes)
        (w : W)
        → IsGood t m
        → nth_value i all ≡ some v
        → Typed t v
        → ((w' : W)
            → marshal_fields format_float write rest all p w'
              ≡ write_lines (field_lines fs vs p) w')
        → marshal_fields format_float write (add_field i tag m rest) all p w
          ≡ write_lines (field_lines (field tag t fs) (value v vs) p) w
    unfolding add_field marshal field_lines marshal_field Writes
    field-Writes none t fs m rest i all v vs p w good nth tv ih = ih w
    field-Writes (some tag) t fs _ rest i all v vs p w (good_none unknown) nth tv ih =
        rw (unknown) (ih w)
    field-Writes (some tag) t fs _ rest i all v vs p w (good_some m known writes) nth tv ih =
        rw (known, nth)
          (lines_then _ _ (lines t v (p ++ tag)) (field_lines fs vs p) w (writes v (p ++ tag) w tv)
            ih)

    struct-Writes :
        (fs : StructFields) (fms : FieldMarshalers)
        → ((vs : Values) (p : Bytes) (w : W)
            → TypedFields fs vs
            → marshal_fields format_float write fms vs p w ≡ write_lines (field_lines fs vs p) w)
        → Writes (struct_type fs) (struct_marshaler fms)
    unfolding Writes marshal lines
    struct-Writes fs fms writes _ p w (typed_structure _ vs tvs) = writes vs (dotted p) w tvs

    mutual
      unfolding new_marshaler supported marshal field_lines lines Writes write_lines drop_values

      new_marshaler-IsGood : (t : GoType) → IsGood t (new_marshaler t)
      new_marshaler-IsGood string_type = good_some _ refl string-Writes
      new_marshaler-IsGood bool_type = good_some _ refl bool-Writes
      new_marshaler-IsGood int_type = good_some _ refl int-Writes
      new_marshaler-IsGood uint_type = good_some _ refl uint-Writes
      new_marshaler-IsGood float32_type = good_some _ refl float32-Writes
      new_marshaler-IsGood float64_type = good_some _ refl float64-Writes
      new_marshaler-IsGood other_type = good_none refl
      new_marshaler-IsGood (map_type keys t) =
          map-IsGood keys t (new_marshaler t) (new_marshaler-IsGood t)
      new_marshaler-IsGood (struct_type fs) = good_some _ refl (
          struct-Writes fs (new_field_marshalers 0 fs)
            (λ vs p w tvs. fields-Writes fs 0 vs vs p w refl tvs))

      fields-Writes :
          (fs : StructFields) (i : ℕ) (all vs : Values) (p : Bytes) (w : W)
          → drop_values i all ≡ vs
          → TypedFields fs vs
          → marshal_fields format_float write (new_field_marshalers i fs) all p w
            ≡ write_lines (field_lines fs vs p) w
      fields-Writes no_field i all _ p w e typed_end = refl
      fields-Writes (field tag t fs) i all _ p w e (typed_field _ _ _ v vs tv tvs) =
          let (nth, e') = nth_value-drop_values i all v vs e in
          field-Writes tag t fs (new_marshaler t) (new_field_marshalers (suc i) fs) i all v vs p w
            (new_marshaler-IsGood t) nth tv (λ w'. fields-Writes fs (suc i) all vs p w' e' tvs)

    encoded :
        (no_type : ℕ) (t : GoType) (m : Option Marshaler) (v : GoValue) (p : Bytes) (w : W)
        → IsGood t m
        → Typed t v
        → (elim m as (λ (o : Option Marshaler). Marshaled W) [
          | some m' ↦ marshal format_float write m' v p w
          | none ↦ done (some no_type) w
        ])
          ≡ (if supported t then write_lines (lines t v p) w else done (some no_type) w)
    unfolding Writes
    encoded no_type t _ v p w (good_none unknown) tv = rw (unknown) refl
    encoded no_type t _ v p w (good_some m known writes) tv = rw (known) (writes v p w tv)

    -- `Encode` never panics on a value of its type. Where the type is supported (a map needs string
    -- keys and elements that are), it writes the lines of the value in turn, up to the writer's
    -- first error, which it returns; the marshaler that is built from the type and the indices of
    -- its fields does not matter. Otherwise it is the error for the type, and nothing is written.
    pub encode-lines :
        (no_type : ℕ) (t : GoType) (v : GoValue) (p : Bytes) (w : W)
        → Typed t v
        → encode format_float write no_type t v p w
          ≡ (if supported t then write_lines (lines t v p) w else done (some no_type) w)
    unfolding encode
    encode-lines no_type t v p w tv =
        encoded no_type t (new_marshaler t) v p w (new_marshaler-IsGood t) tv
