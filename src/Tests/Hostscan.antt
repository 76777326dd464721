-- ===== src/Tests/Hostscan.antt =====
-- pkg/openconnect/hostscan on a small report.
use flakes.Hostscan.Scan.{find_submatch}
use flakes.Common.{
  ℕ, ◌≡◌, refl, true, [], Bytes, codes, none, some, Option, ◌++◌, if◌then◌else◌, cut_prefix,
}
use flakes.Hostscan.Marshal.{
  GoType, string_type, bool_type, int_type, other_type, struct_type, map_type, no_field, field,
  GoValue, text, truth, integer, structure, mapping, opaque, no_value, value, no_entry, entry,
  encode, done, nth_value, format, at_key, dotted, assignment,
}
use flakes.Hostscan.Marshal.Typed.{
  Typed, typed_text, typed_truth, typed_integer, typed_structure, typed_mapping, typed_end,
  typed_field, typed_none, typed_entry, typed_other, supported,
}
use flakes.Hostscan.Marshal.Lines.{lines, write_lines, encode-lines}

abbrev file_type : GoType
file_type = struct_type (
    field (some (codes "name")) string_type
      (field (some (codes "exists")) bool_type (field none int_type no_field)))

abbrev report_type : GoType
report_type = struct_type (
    field (some (codes "file")) (map_type true file_type)
      (field (some (codes "hook")) other_type no_field))

abbrev file : GoValue
file = structure (value (text (codes "a")) (value (truth true) (value (integer true 3) no_value)))

abbrev report : GoValue
report = structure (value (mapping (entry (codes "k") file no_entry)) (value opaque no_value))

-- A writer that keeps what it gets.
abbrev keep : Bytes → Bytes → Option ℕ × Bytes
keep s w = (none, w ++ s)

abbrev no_float : ℕ → ℕ → Bytes
no_float bits x = []

encode_lem :
    encode no_float keep 1 report_type report (codes "endpoint") []
    ≡ done none (
        codes
          "endpoint.file[\"k\"]={};\nendpoint.file[\"k\"].name=\"a\";\nendpoint.file[\"k\"].exists=\"true\";\n")
unfolding encode nth_value format at_key dotted assignment
encode_lem = refl

file-Typed : Typed file_type file
file-Typed = typed_structure _ _ (
    typed_field _ _ _ _ _ (typed_text _)
      (typed_field _ _ _ _ _ (typed_truth _) (typed_field _ _ _ _ _ (typed_integer _ _) typed_end)))

report-Typed : Typed report_type report
report-Typed = typed_structure _ _ (
    typed_field _ _ _ _ _ (typed_mapping _ _ (typed_entry _ _ _ _ file-Typed (typed_none _)))
      (typed_field _ _ _ _ _ (typed_other _) typed_end))

encode-lines_example : encode no_float keep 1 report_type report (codes "endpoint") [] ≡ (
    if supported report_type
    then write_lines no_float keep (lines no_float report_type report (codes "endpoint")) []
    else done (some 1) [])
encode-lines_example =
    encode-lines no_float keep 1 report_type report (codes "endpoint") [] report-Typed

file_field :
    find_submatch (codes "'File','a','/x'")
    ≡ some (record { field_type = codes "File"; label = codes "a"; value = codes "/x" })
unfolding find_submatch cut_prefix
file_field = refl

unquoted : find_submatch (codes "'File','','/x'") ≡ none
unfolding find_submatch cut_prefix
unquoted = refl
