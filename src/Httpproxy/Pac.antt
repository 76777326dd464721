-- ===== src/Httpproxy/Pac.antt =====
-- pkg/httpproxy/pac.go: the PAC file for the hosts of the rules.
--
-- `json.Marshal` of a text is a parameter, and so is `net.ParseCIDR`, which gives the texts of the
-- network's address and of its mask.
pub mod Script
use flakes.Common.{
  ℕ, if◌then◌else◌, List, [], ◌∷◌, ◌++◌, Option, none, some, Bytes, codes, decimal, length,
  cut_prefix,
}

abbrev pub ParseCidr : Type 0
ParseCidr = Bytes → Option (Bytes × Bytes)

-- `strings.Join(checks, " || ")`
unfoldable pub join_or : List Bytes → Bytes
join_or [] = []
join_or (c ∷ []) = c
join_or (c ∷ d ∷ cs) = c ++ codes " || " ++ join_or (d ∷ cs)

module _ (js_string : Bytes → Bytes) (parse_cidr : ParseCidr) where
  unfoldable pub suffix_check : Bytes → Bytes
  suffix_check host =
      codes "host.substring(host.length - "
      ++ decimal (length host)
      ++ codes ") === "
      ++ js_string host

  unfoldable pub net_check : Bytes → Bytes → Bytes
  net_check ip mask = codes "isInNet(host, \"" ++ ip ++ codes "\", \"" ++ mask ++ codes "\")"

  unfoldable pub case_line : Bytes → Bytes
  case_line host = codes "\tcase " ++ js_string host ++ codes ":\n"

  -- One host of the loop, with what is written and the checks.
  unfoldable pub add_host : Bytes → Bytes × List Bytes → Bytes × List Bytes
  unfolding suffix_check net_check case_line
  add_host host (out, checks) = elim (cut_prefix host (codes "*.")) [
    | some rest ↦ (out, checks ++ suffix_check (codes "." ++ rest) ∷ [])
    | none ↦ elim (parse_cidr host) [
      | some net ↦ (out, checks ++ net_check net.0 net.1 ∷ [])
      | none ↦ (out ++ case_line host, checks)
    ]
  ]

  unfoldable pub add_hosts : List Bytes → Bytes × List Bytes → Bytes × List Bytes
  unfolding add_host
  add_hosts [] st = st
  add_hosts (host ∷ hosts) st = add_hosts hosts (add_host host st)

  unfoldable pub return_proxy : Bytes → Bytes
  return_proxy proxy = codes "\t\treturn \"PROXY " ++ proxy ++ codes "\";\n"

  -- `PacHandler.ServeHTTP`: the body, for the host `proxy` of the request.
  unfoldable pub serve_pac : List Bytes → Bytes → Bytes
  unfolding add_hosts join_or return_proxy
  serve_pac hosts proxy =
      let head =
        codes "function FindProxyForURL(url, host) {\n"
        ++ codes "\tswitch (host) {\n"
        ++ codes "\tdefault:\n"
        ++ codes "\t\tbreak;\n" in
      let (out, checks) = add_hosts hosts (head, []) in
      out
      ++ return_proxy proxy
      ++ codes "\t}\n"
      ++ codes "\tif ("
      ++ join_or checks
      ++ codes ") {\n"
      ++ return_proxy proxy
      ++ codes "\t}\n"
      ++ codes "\treturn \"DIRECT\";\n"
      ++ codes "}\n"
