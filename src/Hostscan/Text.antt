-- ===== src/Hostscan/Text.antt =====
-- pkg/openconnect/hostscan/report.go: the text of a report, by package marshaler.
use flakes.Common.{ℕ, true, false, List, [], ◌∷◌, ◌++◌, some, none, Option, Bytes, codes, Map}
use flakes.Hostscan.Scan.{Report, PersonalFireWall, AntiMalware, File, Process}
use flakes.Hostscan.Marshal.{
  GoType, StructFields, string_type, bool_type, int_type, struct_type, map_type, no_field, field,
  GoValue, Values, Entries, text, truth, integer, structure, mapping, no_value, value, no_entry,
  entry, Marshaled, done, panics, encode,
}

-- A field with a `csd` tag.
abbrev tagged : Bytes → GoType → StructFields → StructFields
tagged tag t fields = field (some tag) t fields

-- The types of report.go, with the tags of their fields.
abbrev os_type : GoType
os_type = struct_type (
    tagged (codes "version") string_type (
      tagged (codes "servicepack") string_type
        (tagged (codes "architecture") string_type no_field)))

abbrev policy_type : GoType
policy_type = struct_type (tagged (codes "location") string_type no_field)

abbrev device_type : GoType
device_type = struct_type (
    tagged (codes "protection") string_type (
      tagged (codes "protection_version") string_type
        (tagged (codes "protection_extension") string_type no_field)))

abbrev fire_wall_type : GoType
fire_wall_type = struct_type (
    tagged (codes "exists") bool_type (
      tagged (codes "description") string_type
        (tagged (codes "version") string_type (tagged (codes "enabled") string_type no_field))))

abbrev malware_type : GoType
malware_type = struct_type (
    tagged (codes "exists") bool_type (
      tagged (codes "description") string_type (
        tagged (codes "version") string_type (
          tagged (codes "activescan") string_type (
            tagged (codes "lastupdate") int_type (tagged (codes "timestamp") int_type no_field))))))

abbrev file_type : GoType
file_type = struct_type (
    tagged (codes "name") string_type (
      tagged (codes "path") string_type (
        tagged (codes "exists") bool_type
          (tagged (codes "lastmodified") int_type (tagged (codes "timestamp") int_type no_field)))))

abbrev process_type : GoType
process_type =
    struct_type (tagged (codes "name") string_type (tagged (codes "exists") bool_type no_field))

abbrev pub report_type : GoType
report_type = struct_type (
    tagged (codes "os") os_type (
      tagged (codes "policy") policy_type (
        tagged (codes "device") device_type (
          tagged (codes "enforce") string_type (
            tagged (codes "pfw") (map_type true fire_wall_type) (
              tagged (codes "am") (map_type true malware_type) (
                tagged (codes "file") (map_type true file_type)
                  (tagged (codes "process") (map_type true process_type) no_field))))))))

-- The values of the fields of a struct.
unfoldable pub values : List GoValue → Values
values [] = no_value
values (v ∷ vs) = value v (values vs)

-- The entries of a map, in the order of its list.
unfoldable pub entries {ℓ} : {A : Type ℓ} → (A → GoValue) → Map A → Entries
entries make [] = no_entry
entries make ((k, a) ∷ m) = entry k (make a) (entries make m)

unfoldable pub fire_wall_value : PersonalFireWall → GoValue
unfolding values
fire_wall_value f =
    structure (values (truth f.exists ∷ text f.description ∷ text f.version ∷ text f.enabled ∷ []))

unfoldable pub malware_value : AntiMalware → GoValue
unfolding values
malware_value m = structure (
    values (
      truth m.exists
      ∷ text m.description
      ∷ text m.version
      ∷ text m.activescan
      ∷ integer false m.last_update
      ∷ integer false m.timestamp
      ∷ []))

unfoldable pub file_value : File → GoValue
unfolding values
file_value f = structure (
    values (
      text f.name
      ∷ text f.path
      ∷ truth f.exists
      ∷ integer false f.last_modified
      ∷ integer false f.timestamp
      ∷ []))

unfoldable pub process_value : Process → GoValue
unfolding values
process_value p = structure (values (text p.name ∷ truth p.exists ∷ []))

unfoldable pub report_value : Report → GoValue
unfolding values entries fire_wall_value malware_value file_value process_value
report_value r = structure (
    values (
      structure (values (text r.os_version ∷ text r.os_service_pack ∷ text r.os_architecture ∷ []))
      ∷ structure (values (text r.location ∷ []))
      ∷ structure (
          values (text r.protection ∷ text r.protection_version ∷ text r.protection_extension ∷ []))
      ∷ text r.enforce
      ∷ mapping (entries fire_wall_value r.personal_fire_wall)
      ∷ mapping (entries malware_value r.anti_malware)
      ∷ mapping (entries file_value r.files)
      ∷ mapping (entries process_value r.processes)
      ∷ []))

-- What a writer into memory does.
unfoldable pub write_buffer : Bytes → Bytes → Option ℕ × Bytes
write_buffer s written = (none, written ++ s)

-- The text that `marshaler.Marshal` gives; a report of its type is one without a panic.
unfoldable pub written_text : Marshaled Bytes → Bytes
written_text (done err s) = s
written_text panics = []

-- `Report.String`, where `format_float` is `strconv.FormatFloat`
unfoldable pub report_string : (ℕ → ℕ → Bytes) → Report → Bytes
unfolding encode report_value write_buffer written_text
report_string format_float r =
    written_text
      (encode format_float write_buffer 0 report_type (report_value r) (codes "endpoint") [])
