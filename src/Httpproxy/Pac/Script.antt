-- ===== src/Httpproxy/Pac/Script.antt =====
-- What the PAC file decides.
use flakes.Common.{
  ℕ, suc, decimal, ◌-◌, if◌then◌else◌, ◌≡◌, refl, sym, ◌∙◌, ap, List, [], ◌∷◌, ◌++◌, append_assoc,
  append-nil, map, Option, none, some, Option-cases, inl, inr, Bool, true, false, ◌||◌, Bytes,
  codes, length, drop, cut_prefix, bytes_eq, ◌⊎◌,
}
use flakes.Httpproxy.Pac.{
  ParseCidr, join_or, suffix_check, net_check, case_line, add_host, add_hosts, return_proxy,
  serve_pac,
}

-- The expressions of JavaScript in the condition of a PAC file:
-- `host.substring(host.length - n) === s`, and `isInNet(host, ip, mask)`.
pub data Check : Type 0 where
  suffix : ℕ → Bytes → Check
  net : Bytes → Bytes → Check

-- A PAC file: the cases of its `switch`, and the expressions of its `if`, joined by `||`.
pub record Script : Type 0 where
  pub cases : List Bytes
  pub checks : List Check

-- What a host of the rules becomes: a check, or else a case.
unfoldable pub check_of : ParseCidr → Bytes → Option Check
check_of parse_cidr h = elim (cut_prefix h (codes "*.")) [
  | some rest ↦ some (suffix (suc (length rest)) (b'.' ∷ rest))
  | none ↦ elim (parse_cidr h) [ some n ↦ some (net n.0 n.1) | none ↦ none ]
]

unfoldable pub add_case : Option Check → Bytes → List Bytes → List Bytes
add_case none h hs = h ∷ hs
add_case (some c) h hs = hs

unfoldable pub add_check : Option Check → List Check → List Check
add_check none cs = cs
add_check (some c) cs = c ∷ cs

unfoldable pub cases_of : ParseCidr → List Bytes → List Bytes
unfolding add_case
cases_of parse_cidr [] = []
cases_of parse_cidr (h ∷ hs) = add_case (check_of parse_cidr h) h (cases_of parse_cidr hs)

unfoldable pub checks_of : ParseCidr → List Bytes → List Check
unfolding add_check
checks_of parse_cidr [] = []
checks_of parse_cidr (h ∷ hs) = add_check (check_of parse_cidr h) (checks_of parse_cidr hs)

-- The hosts that are checks and those that are cases, each in their order.
unfoldable pub script_of : ParseCidr → List Bytes → Script
script_of parse_cidr hosts = record {
  cases = cases_of parse_cidr hosts;
  checks = checks_of parse_cidr hosts;
}

module _ (js_string : Bytes → Bytes) (parse_cidr : ParseCidr) where
  unfoldable pub case_lines : List Bytes → Bytes
  case_lines [] = []
  case_lines (h ∷ hs) = (codes "\tcase " ++ js_string h ++ codes ":\n") ++ case_lines hs

  -- How expressions are written in JavaScript.
  unfoldable pub check_text : Check → Bytes
  check_text (suffix n s) =
      codes "host.substring(host.length - " ++ decimal n ++ codes ") === " ++ js_string s
  check_text (net ip mask) = codes "isInNet(host, \"" ++ ip ++ codes "\", \"" ++ mask ++ codes "\")"

  unfoldable pub disjunction : List Check → Bytes
  unfolding check_text
  disjunction [] = []
  disjunction (c ∷ []) = check_text c
  disjunction (c ∷ d ∷ cs) = check_text c ++ codes " || " ++ disjunction (d ∷ cs)

  disjunction-join_or : (cs : List Check) → join_or (map check_text cs) ≡ disjunction cs
  unfolding join_or disjunction
  disjunction-join_or [] = refl
  disjunction-join_or (c ∷ []) = refl
  disjunction-join_or (c ∷ d ∷ cs) =
      ap (λ (t : Bytes). check_text c ++ codes " || " ++ t) (disjunction-join_or (d ∷ cs))

  -- The text of a PAC file that answers with the proxy.
  unfoldable pub render : Script → Bytes → Bytes
  unfolding case_lines disjunction
  render s proxy =
      ((codes "function FindProxyForURL(url, host) {\n"
          ++ codes "\tswitch (host) {\n"
          ++ codes "\tdefault:\n"
          ++ codes "\t\tbreak;\n")
        ++ case_lines s.cases)
      ++ (codes "\t\treturn \"PROXY " ++ proxy ++ codes "\";\n")
      ++ codes "\t}\n"
      ++ codes "\tif ("
      ++ disjunction s.checks
      ++ codes ") {\n"
      ++ (codes "\t\treturn \"PROXY " ++ proxy ++ codes "\";\n")
      ++ codes "\t}\n"
      ++ codes "\treturn \"DIRECT\";\n"
      ++ codes "}\n"

  -- One host, before the hosts behind it.
  add_host-check_of :
      (h : Bytes) (hs : List Bytes) (cs : List Check) (out : Bytes) (checks : List Bytes)
      → let st = add_host js_string parse_cidr h (out, checks) in
        (st.0 ++ case_lines hs ≡ out ++ case_lines (add_case (check_of parse_cidr h) h hs))
        × (st.1 ++ map check_text cs
            ≡ checks ++ map check_text (add_check (check_of parse_cidr h) cs))
  unfolding add_host check_of cut_prefix case_lines add_check add_case check_text suffix_check
      net_check case_line
  add_host-check_of h hs cs out checks = elim (Option-cases (cut_prefix h (codes "*."))) [
    | inr (rest, wild) ↦ rw (wild) (refl, append_assoc checks _ (map check_text cs))
    | inl plain ↦ rw (plain) (elim (Option-cases (parse_cidr h)) [
      | inr (n, parsed) ↦ rw (parsed) (refl, append_assoc checks _ (map check_text cs))
      | inl not_net ↦
          rw (not_net) (append_assoc out (case_line js_string parse_cidr h) (case_lines hs), refl)
    ])
  ]

  add_hosts-script_of :
      (hosts : List Bytes) (out : Bytes) (checks : List Bytes)
      → add_hosts js_string parse_cidr hosts (out, checks) ≡ (
        out ++ case_lines (cases_of parse_cidr hosts),
        checks ++ map check_text (checks_of parse_cidr hosts),
      )
  unfolding add_hosts case_lines cases_of checks_of
  add_hosts-script_of [] out checks = rw (append-nil out, append-nil checks) refl
  add_hosts-script_of (h ∷ hs) out checks =
      let (e, f) =
        add_host-check_of h (cases_of parse_cidr hs) (checks_of parse_cidr hs) out checks in
      let st = add_host js_string parse_cidr h (out, checks) in
      add_hosts-script_of hs st.0 st.1
      ∙ ap (λ (o : Bytes). (o, st.1 ++ map check_text (checks_of parse_cidr hs))) e
      ∙ ap (λ (cs : List Bytes). (out ++ case_lines (cases_of parse_cidr (h ∷ hs)), cs)) f

-- The value of an expression for a browser's host, where `in_net` is its `isInNet`: `substring` takes
-- an index below 0 as 0.
unfoldable pub check_matches : (Bytes → Bytes → Bytes → Bool) → Check → Bytes → Bool
check_matches in_net (suffix n s) host = bytes_eq (drop (length host - n) host) s
check_matches in_net (net ip mask) host = in_net host ip mask

unfoldable pub any_check : (Bytes → Bytes → Bytes → Bool) → List Check → Bytes → Bool
unfolding check_matches
any_check in_net [] host = false
any_check in_net (c ∷ cs) host = check_matches in_net c host || any_check in_net cs host

unfoldable pub any_case : List Bytes → Bytes → Bool
any_case [] host = false
any_case (h ∷ hs) host = bytes_eq h host || any_case hs host

-- Whether the file sends a host to the proxy; `none` is a file that is no program, as `if ()` is
-- not.
unfoldable pub decides : (Bytes → Bytes → Bytes → Bool) → Script → Bytes → Option Bool
unfolding any_check any_case
decides in_net s host = elim s.checks [
  | [] ↦ none
  | c ∷ cs ↦ some (any_case s.cases host || any_check in_net (c ∷ cs) host)
]

-- Whether a text ends with another one.
unfoldable pub ends_with : Bytes → Bytes → Bool
ends_with s end = bytes_eq (drop (length s - length end) s) end

-- Whether a host of the rules is the host, or is a wildcard or a network for it.
unfoldable pub host_matches : ParseCidr → (Bytes → Bytes → Bytes → Bool) → Bytes → Bytes → Bool
unfolding ends_with
host_matches parse_cidr in_net h host = elim (cut_prefix h (codes "*.")) [
  | some zone ↦ ends_with host (b'.' ∷ zone)
  | none ↦ elim (parse_cidr h) [ some n ↦ in_net host n.0 n.1 | none ↦ bytes_eq h host ]
]

unfoldable pub any_host : ParseCidr → (Bytes → Bytes → Bytes → Bool) → List Bytes → Bytes → Bool
unfolding host_matches
any_host parse_cidr in_net [] host = false
any_host parse_cidr in_net (h ∷ hs) host =
    host_matches parse_cidr in_net h host || any_host parse_cidr in_net hs host

-- Whether all hosts of the rules are names.
unfoldable pub all_names : ParseCidr → List Bytes → Bool
unfolding check_of
all_names parse_cidr [] = true
all_names parse_cidr (h ∷ hs) = elim (check_of parse_cidr h) [
  | none ↦ all_names parse_cidr hs
  | some c ↦ false
]

or_middle : (a b c : Bool) → b || (a || c) ≡ a || (b || c)
or_middle true true c = refl
or_middle true false c = refl
or_middle false true c = refl
or_middle false false c = refl

module _ (parse_cidr : ParseCidr) (in_net : Bytes → Bytes → Bytes → Bool) (host : Bytes) where
  -- A host of the rules by what it becomes.
  by_check : Option Check → Bytes → Bool
  by_check none h = bytes_eq h host
  by_check (some c) h = check_matches in_net c host

  host_matches-check_of :
      (h : Bytes) → host_matches parse_cidr in_net h host ≡ by_check (check_of parse_cidr h) h
  unfolding host_matches check_of by_check check_matches ends_with cut_prefix
  host_matches-check_of h = elim (Option-cases (cut_prefix h (codes "*."))) [
    | inr (zone, wild) ↦ rw (wild) refl
    | inl plain ↦ elim (Option-cases (parse_cidr h)) [
      | inr (n, parsed) ↦ rw (plain, parsed) refl
      | inl name ↦ rw (plain, name) refl
    ]
  ]

  or_assoc : (a b c : Bool) → (a || b) || c ≡ a || (b || c)
  or_assoc true b c = refl
  or_assoc false b c = refl

  any-script_of :
      (hosts : List Bytes)
      → any_case (cases_of parse_cidr hosts) host
          || any_check in_net (checks_of parse_cidr hosts) host
        ≡ any_host parse_cidr in_net hosts host
  unfolding any_case any_check any_host by_check cases_of checks_of add_case add_check cut_prefix
      bytes_eq
  any-script_of [] = refl
  any-script_of (h ∷ hs) = elim (Option-cases (check_of parse_cidr h)) [
    | inl name ↦
        rw
          (
            host_matches-check_of h,
            name,
            or_assoc (bytes_eq h host) (any_case (cases_of parse_cidr hs) host)
                (any_check in_net (checks_of parse_cidr hs) host),
          )
          (ap (λ (b : Bool). bytes_eq h host || b) (any-script_of hs))
    | inr (c, check) ↦
        rw
          (
            host_matches-check_of h,
            check,
            or_middle (check_matches in_net c host) (any_case (cases_of parse_cidr hs) host)
                (any_check in_net (checks_of parse_cidr hs) host),
          )
          (ap (λ (b : Bool). check_matches in_net c host || b) (any-script_of hs))
  ]

  no_checks :
      (hosts : List Bytes)
      → (all_names parse_cidr hosts ≡ true × (checks_of parse_cidr hosts ≡ []))
        ⊎ (all_names parse_cidr hosts ≡ false
            × ((c : Check) × (cs : List Check) × (checks_of parse_cidr hosts ≡ c ∷ cs)))
  unfolding all_names checks_of add_check cut_prefix
  no_checks [] = inl (refl, refl)
  no_checks (h ∷ hs) = elim (Option-cases (check_of parse_cidr h)) [
    | inl name ↦ rw (name) (no_checks hs)
    | inr (c, check) ↦ rw (check) (inr (refl, (c, checks_of parse_cidr hs, refl)))
  ]

  decides-script_of :
      (hosts : List Bytes)
      → decides in_net (script_of parse_cidr hosts) host ≡ (
          if all_names parse_cidr hosts then none else some (any_host parse_cidr in_net hosts host))
  unfolding decides script_of
  decides-script_of hosts = elim (no_checks hosts) [
    | inl (names, empty) ↦ rw (names, empty) refl
    | inr (special, (c, cs, full)) ↦ rw (special, sym (any-script_of hosts), full) refl
  ]

  -- The body that `ServeHTTP` writes is the JavaScript text of the script with a case for each host
  -- that is a name and an expression for each wildcard and each network, in their order, joined by
  -- `||`. Where there is an expression, the script as a browser evaluates it, with a case for its host
  -- or an expression that is true, sends a host to the proxy exactly where a host of the rules is it,
  -- is a wildcard whose zone it ends in, or is a network that has it, whatever their order. Where all
  -- hosts of the rules are names, it is no program.
  pub serve_pac-script_of :
      (js_string : Bytes → Bytes) (hosts : List Bytes) (proxy : Bytes)
      → (serve_pac js_string parse_cidr hosts proxy
          ≡ render js_string parse_cidr (script_of parse_cidr hosts) proxy)
        × (decides in_net (script_of parse_cidr hosts) host ≡ (
            if all_names parse_cidr hosts
            then none
            else some (any_host parse_cidr in_net hosts host)))
  unfolding serve_pac render script_of return_proxy
  serve_pac-script_of js_string hosts proxy = (
    rw
        (
          add_hosts-script_of js_string parse_cidr hosts,
          disjunction-join_or js_string parse_cidr (checks_of parse_cidr hosts),
        )
        refl,
    decides-script_of hosts,
  )
