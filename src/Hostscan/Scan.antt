-- ===== src/Hostscan/Scan.antt =====
-- pkg/openconnect/hostscan: manifest.go, the report of report.go, and scanner.go.
--
-- The decoder of package xml gives the two attributes of a field. The time is in seconds, and is
-- later than the ages that the report names.
use flakes.Common.{
  ℕ, ◌-◌, ◌==◌, Bool, true, false, if◌then◌else◌, List, [], ◌∷◌, Option, none, some, Bytes, codes,
  bytes_eq, Map, put, cut_prefix, map,
}

pub record Field : Type 0 where
  pub field_type : Bytes
  pub label : Bytes
  pub value : Bytes

-- The attributes that a field is decoded from.
pub record Attributes : Type 0 where
  pub name : Bytes
  pub value : Bytes

-- The text in front of the next quote and the one behind it, for `[^']+'`.
unfoldable pub to_quote : Bytes → Option (Bytes × Bytes)
to_quote [] = none
to_quote (c ∷ s) =
    let rest = to_quote s in
    if c == 39 then some ([], s) else elim rest [ none ↦ none | some (t, u) ↦ some (c ∷ t, u) ]

unfoldable pub not_empty : Option (Bytes × Bytes) → Option (Bytes × Bytes)
not_empty none = none
not_empty (some ([], u)) = none
not_empty (some (c ∷ t, u)) = some (c ∷ t, u)

-- A part of `re`: the text that it starts with, and `[^']+'`.
unfoldable pub group_behind : Bytes → Bytes → Option (Bytes × Bytes)
unfolding to_quote not_empty cut_prefix
group_behind start s = elim (cut_prefix s start) [ none ↦ none | some t ↦ not_empty (to_quote t) ]

unfoldable pub matched : Bytes → Bytes → Option (Bytes × Bytes) → Option Field
matched t l none = none
matched t l (some (v, [])) = some (record { field_type = t; label = l; value = v })
matched t l (some (v, c ∷ rest)) = none

-- `re.FindStringSubmatch`
unfoldable pub find_submatch : Bytes → Option Field
unfolding group_behind matched
find_submatch s = elim (group_behind (codes "'") s) [
  | none ↦ none
  | some (t, u) ↦ elim (group_behind (codes ",'") u) [
    | none ↦ none
    | some (l, w) ↦ matched t l (group_behind (codes ",'") w)
  ]
]

unfoldable pub has_prefix : Bytes → Bytes → Bool
unfolding cut_prefix
has_prefix s p = elim (cut_prefix s p) [ none ↦ false | some t ↦ true ]

-- `Field.UnmarshalXML` of decoded attributes
unfoldable pub unmarshal_xml : Attributes → Field → Field
unfolding find_submatch has_prefix
unmarshal_xml v f =
    if has_prefix v.name (codes "lHostScanList")
    then elim (find_submatch v.value) [ none ↦ f | some m ↦ m ]
    else if has_prefix v.name (codes "cInspectorExtension")
    then record { field_type = codes "Inspector"; label = v.value; value = v.value }
    else f

abbrev pub empty_field : Field
empty_field = record { field_type = []; label = []; value = [] }

-- `ReadManifest` of the decoded fields
unfoldable pub read_manifest : List Attributes → List Field
unfolding unmarshal_xml
read_manifest vs = map (λ v. unmarshal_xml v empty_field) vs

pub record PersonalFireWall : Type 0 where
  pub exists : Bool
  pub description : Bytes
  pub version : Bytes
  pub enabled : Bytes

pub record AntiMalware : Type 0 where
  pub exists : Bool
  pub description : Bytes
  pub version : Bytes
  pub activescan : Bytes
  pub last_update : ℕ
  pub timestamp : ℕ

pub record File : Type 0 where
  pub name : Bytes
  pub path : Bytes
  pub exists : Bool
  pub last_modified : ℕ
  pub timestamp : ℕ

pub record Process : Type 0 where
  pub name : Bytes
  pub exists : Bool

-- `Report`, with the fields of its structs `OS`, `Policy` and `Device` among its own.
pub record Report : Type 0 where
  pub os_version : Bytes
  pub os_service_pack : Bytes
  pub os_architecture : Bytes
  pub location : Bytes
  pub protection : Bytes
  pub protection_version : Bytes
  pub protection_extension : Bytes
  pub enforce : Bytes
  pub personal_fire_wall : Map PersonalFireWall
  pub anti_malware : Map AntiMalware
  pub files : Map File
  pub processes : Map Process

unfoldable pub fire_wall : Bytes → Bytes → PersonalFireWall
fire_wall description version = record {
  exists = true;
  description = description;
  version = version;
  enabled = codes "ok";
}

-- A scanner with an update that many seconds ago.
unfoldable pub updated : ℕ → Bytes → Bytes → ℕ → AntiMalware
updated now description version age = record {
  exists = true;
  description = description;
  version = version;
  activescan = codes "ok";
  last_update = age;
  timestamp = now - age;
}

-- The report in front of the loop.
unfoldable pub mock_report : ℕ → Report
unfolding fire_wall updated
mock_report now = record {
  os_version = codes "Mac OS X";
  os_service_pack = codes "26.3";
  os_architecture = codes "arm64";
  location = codes "Default";
  protection = codes "none";
  protection_version = codes "5.1.8.122";
  protection_extension = [];
  enforce = codes "success";
  personal_fire_wall =
      (codes "100386", fire_wall (codes "Packet Filter (Mac)") (codes "26.3"))
      ∷ (codes "100250", fire_wall (codes "CrowdStrike Falcon (Mac)") (codes "7.33.20503.0"))
      ∷ (codes "100022", fire_wall (codes "Mac OS X Builtin Firewall (Mac)") (codes "26.3"))
      ∷ [];
  anti_malware =
      (codes "100366", updated now (codes "Xprotect (Mac)") (codes "5325") 545119)
      ∷ (codes "100250", updated now (codes "CrowdStrike Falcon (Mac)") (codes "7.29.20103.0") 9447)
      ∷ (
        codes "100137",
        record {
          exists = true;
          description = codes "Gatekeeper (Mac)";
          version = codes "26.3";
          activescan = codes "ok";
          last_update = 0;
          timestamp = 0;
        },
      )
      ∷ [];
  files = [];
  processes = [];
}

-- A round of the loop over the fields.
unfoldable pub add_field : ℕ → Field → Report → Report
add_field now i r =
    if bytes_eq i.field_type (codes "File")
    then record r {
      files =
          put i.label
            (record {
              name = i.value;
              path = i.value;
              exists = true;
              last_modified = 39115924;
              timestamp = now - 39115924;
            })
            r.files;
    }
    else if bytes_eq i.field_type (codes "Process")
    then record r { processes = put i.label (record { name = i.value; exists = true }) r.processes }
    else r

unfoldable pub add_fields : ℕ → List Field → Report → Report
unfolding add_field
add_fields now [] r = r
add_fields now (i ∷ fields) r = add_fields now fields (add_field now i r)

-- `mockScanner.Scan` of a manifest
unfoldable pub scan : ℕ → List Field → Report
unfolding add_fields mock_report
scan now fields = add_fields now fields (mock_report now)
