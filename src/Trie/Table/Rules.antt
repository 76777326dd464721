-- ===== src/Trie/Table/Rules.antt =====
-- The whole table against the list of rules that were inserted.
use flakes.Common.{
  ◌≡◌, refl, ap, ◌∙◌, if◌then◌else◌, List, [], ◌∷◌, Option, none, some, inl, inr, arith, Bytes, Map,
  get, put, get-put, bytes_eq, cut_prefix, codes, Option-cases,
}
use flakes.Trie.Net.{IpNet}
use flakes.Trie.Cidr.{Cidr, find_value}
use flakes.Trie.Cidr
use flakes.Trie.Cidr.Match as CidrMatch
use flakes.Trie.Cidr.Match.{longest_prefix, find_value-longest}
use flakes.Trie.Host
use flakes.Trie.Zone.{Zone, canonocalize_host, split_host}
use flakes.Trie.Zone
use flakes.Trie.Zone.Spec.{zone_spec}
use flakes.Trie.Zone.Match as ZoneMatch
use flakes.Trie.Zone.Match.{find-zone_spec}
use flakes.Trie.Table.{Trie, Runtime, Form, network, domain, wildcard, exact, empty, insert, find}

-- How a rule is read: a network, a domain with its apex, a wildcard, or a host name.
unfoldable pub form_of : Runtime → Bytes → Form
form_of rt rule = elim (rt.parse_cidr rule) [
  | some ipnet ↦ network ipnet
  | none ↦ elim (cut_prefix rule (codes ".")) [
    | some base ↦ domain base
    | none ↦ elim (cut_prefix rule (codes "*.")) [ some base ↦ wildcard base | none ↦ exact rule ]
  ]
]

module _ {ℓ} {V : Type ℓ} where
  -- The value of the last rule for the canonical name `key`, or `found` if there is none.
  unfoldable pub last_from : Option V → List (Bytes × V) → Bytes → Option V
  last_from found [] key = found
  last_from found ((name, v) ∷ rules) key =
      last_from (if bytes_eq (canonocalize_host name) key then some v else found) rules key

  -- The zones of the rules, each with the value of its last rule.
  unfoldable pub zone_values : Map V → List (Bytes × V) → Map V
  zone_values m [] = m
  zone_values m ((zone, v) ∷ rules) = zone_values (put (canonocalize_host zone) v m) rules

  module _ (rt : Runtime) where
    abbrev network_rule : Form → V → List (IpNet × V) → List (IpNet × V)
    network_rule (network n) v rest = (n, v) ∷ rest
    network_rule (domain b) v rest = rest
    network_rule (wildcard b) v rest = rest
    network_rule (exact h) v rest = rest

    abbrev zone_rule : Form → V → List (Bytes × V) → List (Bytes × V)
    zone_rule (network n) v rest = rest
    zone_rule (domain b) v rest = (b, v) ∷ rest
    zone_rule (wildcard b) v rest = (b, v) ∷ rest
    zone_rule (exact h) v rest = rest

    abbrev host_rule : Form → V → List (Bytes × V) → List (Bytes × V)
    host_rule (network n) v rest = rest
    host_rule (domain b) v rest = (b, v) ∷ rest
    host_rule (wildcard b) v rest = rest
    host_rule (exact h) v rest = (h, v) ∷ rest

    unfoldable pub network_rules : List (Bytes × V) → List (IpNet × V)
    network_rules [] = []
    network_rules ((r, v) ∷ rules) = network_rule (form_of rt r) v (network_rules rules)

    unfoldable pub zone_rules : List (Bytes × V) → List (Bytes × V)
    zone_rules [] = []
    zone_rules ((r, v) ∷ rules) = zone_rule (form_of rt r) v (zone_rules rules)

    unfoldable pub host_rules : List (Bytes × V) → List (Bytes × V)
    host_rules [] = []
    host_rules ((r, v) ∷ rules) = host_rule (form_of rt r) v (host_rules rules)

    -- The answer that the list of rules calls for.
    unfoldable pub table_spec : List (Bytes × V) → Bytes → Option V
    table_spec rules host = elim (last_from none (host_rules rules) (canonocalize_host host)) [
      | some v ↦ some v
      | none ↦ elim (rt.parse_ip host) [
        | some ip ↦ longest_prefix (network_rules rules) ip
        | none ↦ zone_spec (zone_values [] (zone_rules rules)) (split_host (canonocalize_host host))
      ]
    ]

    -- `Trie.Insert`, for each rule in order.
    unfoldable pub insert_all : Trie V → List (Bytes × V) → Trie V
    insert_all m [] = m
    insert_all m ((r, v) ∷ rules) = insert_all (insert rt m r v) rules

    insert_form : Trie V → Form → V → Trie V
    insert_form m (network n) v = record m { cidr = Cidr.insert rt.grow m.cidr n v }
    insert_form m (domain b) v = record m {
      zone = Zone.insert m.zone b v;
      host = Host.insert m.host b v;
    }
    insert_form m (wildcard b) v = record m { zone = Zone.insert m.zone b v }
    insert_form m (exact h) v = record m { host = Host.insert m.host h v }

    insert-insert_form :
        (m : Trie V) (r : Bytes) (v : V) → insert rt m r v ≡ insert_form m (form_of rt r) v
    unfolding insert insert_form form_of
    insert-insert_form m r v = ground arith

    insert_hosts : Map V → List (Bytes × V) → Map V
    insert_hosts m [] = m
    insert_hosts m ((h, v) ∷ rules) = insert_hosts (Host.insert m h v) rules

    -- The three parts of the table do not meet.
    parts : Trie V → List (Bytes × V) → Trie V
    parts m rules = record {
      host = insert_hosts m.host (host_rules rules);
      zone = ZoneMatch.insert_all m.zone (zone_rules rules);
      cidr = CidrMatch.insert_all rt.grow m.cidr (network_rules rules);
    }

    parts_rule :
        (m : Trie V) (r : Bytes) (v : V) (rules : List (Bytes × V)) (f : Form)
        → form_of rt r ≡ f
        → parts (insert_form m f v) rules ≡ parts m ((r, v) ∷ rules)
    unfolding parts insert_form network_rules zone_rules host_rules insert_hosts
        ZoneMatch.insert_all CidrMatch.insert_all
    parts_rule m r v rules (network n) e = rw e
    parts_rule m r v rules (domain b) e = rw e
    parts_rule m r v rules (wildcard b) e = rw e
    parts_rule m r v rules (exact h) e = rw e

    insert_all-parts : (m : Trie V) (rules : List (Bytes × V)) → insert_all m rules ≡ parts m rules
    unfolding insert_all parts network_rules zone_rules host_rules insert_hosts ZoneMatch.insert_all
        CidrMatch.insert_all
    insert_all-parts m [] = refl
    insert_all-parts m ((r, v) ∷ rules) =
        rw (insert_all, insert-insert_form)
          (insert_all-parts (insert_form m (form_of rt r) v) rules
            ∙ parts_rule m r v rules (form_of rt r) refl)

    get-insert_hosts :
        (m : Map V) (rules : List (Bytes × V)) (key : Bytes)
        → get key (insert_hosts m rules) ≡ last_from (get key m) rules key
    unfolding insert_hosts last_from Host.insert
    get-insert_hosts m [] key = refl
    get-insert_hosts m ((h, v) ∷ rules) key =
        get-insert_hosts (put (canonocalize_host h) v m) rules key
        ∙ ap (λ found. last_from found rules key) (get-put (canonocalize_host h) key v m)

    values-insert_all :
        (w : Zone V) (rules : List (Bytes × V))
        → (ZoneMatch.insert_all w rules).values ≡ zone_values w.values rules
    unfolding ZoneMatch.insert_all zone_values Zone.insert
    values-insert_all w [] = refl
    values-insert_all w ((z, v) ∷ rules) = values-insert_all (Zone.insert w z v) rules

    find_zone :
        (rules : List (Bytes × V)) (zero_value : V) (host : Bytes)
        → Zone.find zero_value (ZoneMatch.insert_all Zone.empty rules) host
          ≡ zone_spec (zone_values [] rules) (split_host (canonocalize_host host))
    find_zone rules zero_value host =
        find-zone_spec rules zero_value host
        ∙ ap (λ m. zone_spec m (split_host (canonocalize_host host)))
            (unfold Zone.empty in values-insert_all Zone.empty rules)

    find_host :
        (rules : List (Bytes × V)) (host : Bytes)
        → Host.find (insert_hosts [] rules) host ≡ last_from none rules (canonocalize_host host)
    unfolding Host.find get
    find_host rules host = get-insert_hosts [] rules (canonocalize_host host)

    -- What `Match` and the specification do where no host rule fits.
    find-other :
        (rules : List (Bytes × V)) (zero_value : V) (host : Bytes)
        → last_from none (host_rules rules) (canonocalize_host host) ≡ none
        → find rt zero_value (parts empty rules) host ≡ table_spec rules host
    unfolding find table_spec parts empty
    find-other rules zero_value host miss = elim (Option-cases (rt.parse_ip host)) [
      | inl e ↦
          rw (find, table_spec, parts, find_host (host_rules rules) host, miss, e)
            (find_zone (zone_rules rules) zero_value host)
      | inr (ip, e) ↦
          rw (find, table_spec, parts, find_host (host_rules rules) host, miss, e)
            (find_value-longest rt.grow ip (network_rules rules))
    ]

    -- For every list of rules and every host, `Match` on the table that `Insert` builds from the
    -- empty one gives the value of the last rule that names the host exactly or as a domain's apex;
    -- failing that, for an address the value of the longest network that holds it, and for a name
    -- the value of its longest zone, where the name itself counts as a zone only if no zone of the
    -- rules lies below it.
    pub find-table_spec :
        (rules : List (Bytes × V)) (zero_value : V) (host : Bytes)
        → find rt zero_value (insert_all empty rules) host ≡ table_spec rules host
    unfolding find table_spec parts empty
    find-table_spec rules zero_value host =
        rw insert_all-parts
          (elim (Option-cases (last_from none (host_rules rules) (canonocalize_host host))) [
            | inl miss ↦ find-other rules zero_value host miss
            | inr (v, hit) ↦ rw (find, table_spec, parts, find_host (host_rules rules) host, hit)
          ])
