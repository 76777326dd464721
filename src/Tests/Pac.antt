-- ===== src/Tests/Pac.antt =====
-- pkg/httpproxy/pac.go on a few hosts.
use flakes.Common.{
  ◌≡◌, refl, [], ◌∷◌, ◌++◌, Bytes, codes, none, some, if◌then◌else◌, bytes_eq, cut_prefix, Bool,
  true, List,
}
use flakes.Httpproxy.Pac.{ParseCidr, serve_pac}
use flakes.Httpproxy.Pac.Script.{
  render, script_of, checks_of, check_of, cases_of, decides, all_names, any_host,
  serve_pac-script_of,
}

abbrev quoted : Bytes → Bytes
quoted s = codes "\"" ++ s ++ codes "\""

abbrev parse_cidr : ParseCidr
parse_cidr h =
    if bytes_eq h (codes "10.0.0.0/8") then some (codes "10.0.0.0", codes "255.0.0.0") else none

-- `isInNet`, where only this address is in the network.
abbrev in_net : Bytes → Bytes → Bytes → Bool
in_net host ip mask = bytes_eq host (codes "10.1.2.3")

abbrev hosts : List Bytes
hosts = codes "a.com" ∷ codes "*.b.com" ∷ codes "10.0.0.0/8" ∷ []

decides_lem : decides in_net (script_of parse_cidr hosts) (codes "x.b.com") ≡ some true
unfolding decides script_of checks_of check_of cut_prefix bytes_eq cases_of
decides_lem = refl

names_lem : decides in_net (script_of parse_cidr (codes "a.com" ∷ [])) (codes "a.com") ≡ none
unfolding decides script_of checks_of check_of cut_prefix bytes_eq cases_of
names_lem = refl

serve_pac-script_of_example :
    (serve_pac quoted parse_cidr hosts (codes "localhost:8080")
      ≡ render quoted parse_cidr (script_of parse_cidr hosts) (codes "localhost:8080"))
    × (decides in_net (script_of parse_cidr hosts) (codes "x.b.com") ≡ (
        if all_names parse_cidr hosts
        then none
        else some (any_host parse_cidr in_net hosts (codes "x.b.com"))))
serve_pac-script_of_example =
    serve_pac-script_of parse_cidr in_net (codes "x.b.com") quoted hosts (codes "localhost:8080")
