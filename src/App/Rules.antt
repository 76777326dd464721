-- ===== src/App/Rules.antt =====
-- The rule set that a load of a configuration builds.
use flakes.Common.{
  ℕ, ◌==◌, ◌&&◌, if◌then◌else◌, length, Bool, true, false, ◌≡◌, refl, List, [], ◌∷◌, ◌++◌, map,
  Option, none, some, Bytes, Map, get, get-put, bytes_eq_refl, arith, Option-cases, Bool-cases,
  bytes_eq, inl, inr,
}
use flakes.Trie.Table.{Runtime, empty, insert}
use flakes.Trie.Table.Rules.{insert_all}
use flakes.Dialer.ByHost.{RuleSet, add}
use flakes.App.Pool.{PooledDialer, new_pooled_dialer}
use flakes.App.Load.{
  Config, PacMan, Rule, Dialer, rewriting, lazy, chain, Loading, pacman_of, subdomain, add_label,
  make_proxy, load_proxy, load_proxies, members, chained, add_hosts, load_rules, finish,
  load_config,
}
use flakes.App.Reload.{IsMap, get-load_proxies, rule_set-load_proxies}

-- The rules of the names `*.<label>.pacman`.
unfoldable pub labels : Map PooledDialer → Map Bytes → List (Bytes × Option Dialer)
labels pool [] = []
labels pool ((k, u) ∷ proxies) =
    let rest = labels pool proxies in
    elim (get k pool) [
      | none ↦ rest
      | some pd ↦ (b'.' ∷ subdomain k, some (rewriting pd.dialer (subdomain k))) ∷ rest
    ]

-- Whether the pool has all of some proxies, and those of all rules.
unfoldable pub all_known : Map PooledDialer → List Bytes → Bool
all_known pool [] = true
all_known pool (proxy ∷ proxies) = elim (get proxy pool) [
  | none ↦ false
  | some pd ↦ all_known pool proxies
]

unfoldable pub rules_known : Map PooledDialer → List Rule → Bool
unfolding all_known
rules_known pool [] = true
rules_known pool (r ∷ rules) = all_known pool r.proxies && rules_known pool rules

-- The dialers that the pool has for some proxies, in their order.
unfoldable pub dialers_for : Map PooledDialer → List Bytes → List ℕ
dialers_for pool [] = []
dialers_for pool (proxy ∷ proxies) =
    let rest = dialers_for pool proxies in
    elim (get proxy pool) [ none ↦ rest | some pd ↦ pd.dialer ∷ rest ]

-- What a rule with these dialers dials with: with nil for none, with the one, or with the chain of
-- all of them.
unfoldable pub rule_dialer : List ℕ → Option Dialer
rule_dialer ds = if length ds == 0 then none else elim ds [
  | [] ↦ none
  | d ∷ more ↦ if length more == 0 then some (lazy d) else some (chain (d ∷ more))
]

-- The rules of the configuration, each host with the dialer of the proxies of its rule.
unfoldable pub entries : Map PooledDialer → List Rule → List (Bytes × Option Dialer)
unfolding dialers_for rule_dialer
entries pool [] = []
entries pool (r ∷ rules) =
    map (λ h. (h, rule_dialer (dialers_for pool r.proxies))) r.hosts ++ entries pool rules

chained-rule_dialer : (ds : List ℕ) → chained ds ≡ rule_dialer ds
unfolding chained rule_dialer
chained-rule_dialer [] = refl
chained-rule_dialer (d ∷ []) = refl
chained-rule_dialer (d ∷ e ∷ ds) = ground arith

members-dialers_for :
    (pool : Map PooledDialer) (proxies : List Bytes)
    → members pool proxies
      ≡ (if all_known pool proxies then some (dialers_for pool proxies) else none)
unfolding members all_known dialers_for
members-dialers_for pool [] = refl
members-dialers_for pool (proxy ∷ proxies) = elim (Option-cases (get proxy pool)) [
  | inl gone ↦ rw (members, all_known, gone) refl
  | inr (pd, there) ↦ elim (Bool-cases (all_known pool proxies)) [
    | inl known ↦
        rw (members, all_known, dialers_for, there, members-dialers_for pool proxies, known) refl
    | inr unknown ↦
        rw (members, all_known, dialers_for, there, members-dialers_for pool proxies, unknown) refl
  ]
]

finish_rule_set :
    (proxies : Map Bytes) (rs : Option (RuleSet Dialer)) (s : Loading)
    → (pacman_of (finish proxies rs s)).rule_set
      ≡ (elim rs [ none ↦ s.app.rule_set | some built ↦ some built ])
unfolding finish pacman_of
finish_rule_set proxies none s = refl
finish_rule_set proxies (some rs) s = refl

module _ (rt : Runtime) where
  insert_all-append :
      (rs : RuleSet Dialer) (xs ys : List (Bytes × Option Dialer))
      → insert_all rt rs (xs ++ ys) ≡ insert_all rt (insert_all rt rs xs) ys
  unfolding insert_all
  insert_all-append rs [] ys = refl
  insert_all-append rs ((h, d) ∷ xs) ys = insert_all-append (insert rt rs h d) xs ys

  add_hosts_lem :
      (hosts : List Bytes) (xd : Option Dialer) (rs : RuleSet Dialer)
      → add_hosts rt hosts xd rs ≡ insert_all rt rs (map (λ h. (h, xd)) hosts)
  unfolding add_hosts add insert_all
  add_hosts_lem [] xd rs = refl
  add_hosts_lem (h ∷ hosts) xd rs = add_hosts_lem hosts xd (insert rt rs h xd)

  pub load_rules-entries :
      (pool : Map PooledDialer) (rules : List Rule) (rs : RuleSet Dialer)
      → load_rules rt pool rules rs
        ≡ (if rules_known pool rules then some (insert_all rt rs (entries pool rules)) else none)
  unfolding load_rules entries rules_known insert_all
  load_rules-entries pool [] rs = refl
  load_rules-entries pool (r ∷ rules) rs =
      let ds = dialers_for pool r.proxies in
      elim (Bool-cases (all_known pool r.proxies)) [
        | inr miss ↦ rw (load_rules, rules_known, members-dialers_for pool r.proxies, miss) refl
        | inl hit ↦
            rw
              (
                load_rules,
                rules_known,
                entries,
                members-dialers_for pool r.proxies,
                hit,
                chained-rule_dialer ds,
                load_rules-entries pool rules (add_hosts rt r.hosts (rule_dialer ds) rs),
                add_hosts_lem r.hosts (rule_dialer ds) rs,
                insert_all-append rs (map (λ h. (h, rule_dialer ds)) r.hosts) (entries pool rules),
              )
              refl
      ]

  module _ (query_timeout : Bytes → Bytes) where
    load_proxy_rs :
        (k u : Bytes) (s : Loading)
        → (pd : PooledDialer) × (get k (load_proxy rt query_timeout k u s).app.pool ≡ some pd)
          × ((load_proxy rt query_timeout k u s).rs ≡ add_label rt query_timeout k pd.dialer s.rs)
    unfolding load_proxy make_proxy new_pooled_dialer
    load_proxy_rs k u s =
        let fresh = new_pooled_dialer query_timeout s.app.made k u in
        let put_it = get-put k k fresh s.app.pool in
        let same = bytes_eq_refl k in
        elim (Option-cases (get k s.app.pool)) [
          | inl new ↦ (fresh, ground (arith, put_it, same, new), ground (arith, new))
          | inr (pd, old) ↦ elim (Bool-cases (bytes_eq pd.url u)) [
            | inl e ↦ (pd, ground (arith, old, e), ground (arith, old, e))
            | inr e ↦ (fresh, ground (arith, put_it, same, old, e), ground (arith, old, e))
          ]
        ]

    load_proxies_rs :
        (proxies : Map Bytes) (s : Loading)
        → IsMap proxies
        → let s' = load_proxies rt query_timeout proxies s in
          s'.rs ≡ insert_all rt s.rs (labels s'.app.pool proxies)
    unfolding load_proxies labels insert_all add_label add
    load_proxies_rs [] s m = refl
    load_proxies_rs ((k, u) ∷ proxies) s m =
        let (pd, at, made) = load_proxy_rs k u s in
        let final =
          get-load_proxies rt query_timeout k pd proxies (load_proxy rt query_timeout k u s) m.1 at
            (inl m.0) in
        rw
          (
            load_proxies,
            labels,
            final,
            load_proxies_rs proxies (load_proxy rt query_timeout k u s) m.1,
            made,
          )
          refl

    -- The rule set after a load: unchanged where a proxy of a rule is not found, and else the table
    -- of the rules for the labels, each with the dialer that the pool now has for it, followed by
    -- the configuration's rules, each host with the dialer of its proxies: nil, the one, or the
    -- chain of them.
    pub rule_set-load_config :
        (cfg : Config) (p : PacMan)
        → IsMap cfg.proxies
        → let start : Loading = record { app = p; rs = empty; deferred = [] } in
          let pool = (load_proxies rt query_timeout cfg.proxies start).app.pool in
          (pacman_of (load_config rt query_timeout cfg p)).rule_set ≡ (
            if rules_known pool cfg.rules
            then some (insert_all rt empty (labels pool cfg.proxies ++ entries pool cfg.rules))
            else p.rule_set)
    unfolding load_config
    rule_set-load_config cfg p m =
        let start : Loading = record { app = p; rs = empty; deferred = [] } in
        let s = load_proxies rt query_timeout cfg.proxies start in
        let rules = load_rules-entries s.app.pool cfg.rules s.rs in
        elim (Bool-cases (rules_known s.app.pool cfg.rules)) [
          | inr bad ↦ rw (
            load_config,
            finish_rule_set cfg.proxies (load_rules rt s.app.pool cfg.rules s.rs) s,
            rules,
            bad,
            rule_set-load_proxies rt query_timeout cfg.proxies start,
          )
          | inl good ↦ rw (
            load_config,
            finish_rule_set cfg.proxies (load_rules rt s.app.pool cfg.rules s.rs) s,
            rules,
            good,
            load_proxies_rs cfg.proxies start m,
            insert_all-append empty (labels s.app.pool cfg.proxies) (entries s.app.pool cfg.rules),
          )
        ]
