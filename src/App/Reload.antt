-- ===== src/App/Reload.antt =====
-- The pool after a configuration is loaded.
use flakes.Common.{
  ◌≡◌, ◌≢◌, ◌⊎◌, refl, if◌then◌else◌, [], ◌∷◌, Option, none, some, Bytes, Map, get, get-put,
  bytes_eq, bytes_eq_iff, bytes_eq_refl, bytes_cases, arith, Option-cases, inl, inr,
}
use flakes.Trie.Table.{Runtime, empty}
use flakes.Dialer.ByHost.{RuleSet}
use flakes.App.Pool.{PooledDialer, new_pooled_dialer}
use flakes.App.Load.{
  Config, PacMan, Loading, Loaded, ok, proxy_not_found, pacman_of, make_proxy, load_proxy,
  load_proxies, kept, finish, load_config, load_rules, Dialer,
}

-- No key twice, as in every Go map.
abbrev pub IsMap : Map Bytes → Type 0
IsMap [] = Unit
IsMap ((k, u) ∷ m) = (get k m ≡ none) × IsMap m

-- The URL of a label's dialer.
unfoldable pub url_at : Bytes → Map PooledDialer → Option Bytes
url_at k pool = elim (get k pool) [ none ↦ none | some pd ↦ some pd.url ]

module _ (rt : Runtime) (query_timeout : Bytes → Bytes) where
  url_at-load_proxy :
      (k j u : Bytes) (s : Loading)
      → url_at k (load_proxy rt query_timeout j u s).app.pool
        ≡ (if bytes_eq j k then some u else url_at k s.app.pool)
  unfolding url_at load_proxy make_proxy new_pooled_dialer
  url_at-load_proxy k j u s =
      let put_it = get-put j k (new_pooled_dialer query_timeout s.app.made j u) s.app.pool in
      elim (Option-cases (get j s.app.pool)) [
        | inl new ↦ ground (arith, bytes_eq_iff j k, put_it, new)
        | inr (pd, old) ↦ ground (arith, bytes_eq_iff j k, bytes_eq_iff pd.url u, put_it, old)
      ]

  url_at-load_proxies :
      (k : Bytes) (proxies : Map Bytes) (s : Loading)
      → IsMap proxies
      → url_at k (load_proxies rt query_timeout proxies s).app.pool
        ≡ (elim (get k proxies) [ none ↦ url_at k s.app.pool | some u ↦ some u ])
  unfolding load_proxies get
  url_at-load_proxies k [] s m = refl
  url_at-load_proxies k ((j, u) ∷ proxies) s m = ground (
    arith,
    bytes_eq_iff j k,
    m.0,
    url_at-load_proxies k proxies (load_proxy rt query_timeout j u s) m.1,
    url_at-load_proxy k j u s,
  )

  -- A label whose URL stays keeps its dialer.
  pub get-load_proxy :
      (k j u : Bytes) (pd : PooledDialer) (s : Loading)
      → get k s.app.pool ≡ some pd
      → (j ≡ k → u ≡ pd.url)
      → get k (load_proxy rt query_timeout j u s).app.pool ≡ some pd
  unfolding load_proxy make_proxy
  get-load_proxy k j u pd s h same =
      let put_it = get-put j k (new_pooled_dialer query_timeout s.app.made j u) s.app.pool in
      elim (bytes_cases j k) [
        | inl (e, _) ↦ ground (arith, e, h, same e, bytes_eq_refl pd.url)
        | inr (ne, eb) ↦ elim (Option-cases (get j s.app.pool)) [
          | inl new ↦ ground (arith, put_it, new, h, eb)
          | inr (other, old) ↦ ground (arith, put_it, old, h, eb)
        ]
      ]

  pub get-load_proxies :
      (k : Bytes) (pd : PooledDialer) (proxies : Map Bytes) (s : Loading)
      → IsMap proxies
      → get k s.app.pool ≡ some pd
      → ((get k proxies ≡ none) ⊎ (get k proxies ≡ some pd.url))
      → get k (load_proxies rt query_timeout proxies s).app.pool ≡ some pd
  unfolding load_proxies get
  get-load_proxies k pd [] s m h e = h
  get-load_proxies k pd ((j, u) ∷ proxies) s m h e =
      get-load_proxies k pd proxies (load_proxy rt query_timeout j u s) m.1
        (get-load_proxy k j u pd s h (λ je. ground (arith, bytes_eq_iff j k, je, e)))
        (ground (arith, bytes_eq_iff j k, e, m.0))

get-kept :
    (k : Bytes) (proxies : Map Bytes) (pool : Map PooledDialer)
    → get k (kept proxies pool) ≡ (elim (get k proxies) [ none ↦ none | some u ↦ get k pool ])
unfolding kept get
get-kept k proxies [] = ground arith
get-kept k proxies ((j, pd) ∷ pool) = ground (arith, get-kept k proxies pool, bytes_eq_iff j k)

module _ (rt : Runtime) (query_timeout : Bytes → Bytes) where
  pub rule_set-load_proxies :
      (proxies : Map Bytes) (s : Loading)
      → (load_proxies rt query_timeout proxies s).app.rule_set ≡ s.app.rule_set
  unfolding load_proxies load_proxy make_proxy
  rule_set-load_proxies [] s = refl
  rule_set-load_proxies ((k, u) ∷ proxies) s =
      rw (rule_set-load_proxies proxies (load_proxy rt query_timeout k u s))
        (elim (Option-cases (get k s.app.pool)) [
          | inl new ↦ ground (arith, new)
          | inr (pd, old) ↦ ground (arith, old)
        ])

-- The result of a load of `cfg` into `p`.
abbrev pub Reloads : Config → PacMan → Loaded → Type 0
Reloads cfg p (ok p') = ((k : Bytes) → url_at k p'.pool ≡ get k cfg.proxies) × (p'.rule_set ≢ none)
Reloads cfg p (proxy_not_found p') =
    ((k : Bytes)
      → url_at k p'.pool ≡ (elim (get k cfg.proxies) [ none ↦ url_at k p.pool | some u ↦ some u ]))
    × (p'.rule_set ≡ p.rule_set)

module _ (rt : Runtime) (query_timeout : Bytes → Bytes) where
  finish-Reloads :
      (cfg : Config) (p : PacMan) (rs : Option (RuleSet Dialer)) (s : Loading)
      → ((k : Bytes)
          → url_at k s.app.pool
            ≡ (elim (get k cfg.proxies) [ none ↦ url_at k p.pool | some u ↦ some u ]))
      → s.app.rule_set ≡ p.rule_set
      → Reloads cfg p (finish cfg.proxies rs s)
  unfolding finish url_at
  finish-Reloads cfg p none s urls same = (urls, same)
  finish-Reloads cfg p (some rs) s urls same =
      (λ k. ground (arith, get-kept k cfg.proxies s.app.pool, urls k), λ e. cc)

  -- A load that succeeds leaves in the pool exactly the labels of the configuration, each with its
  -- URL, and sets the rule set. One that fails keeps the rule set that is in use, but the labels of
  -- the configuration have been put into the pool beside those that were there.
  pub load_config-Reloads :
      (cfg : Config) (p : PacMan)
      → IsMap cfg.proxies
      → Reloads cfg p (load_config rt query_timeout cfg p)
  unfolding load_config
  load_config-Reloads cfg p m =
      let start : Loading = record { app = p; rs = empty; deferred = [] } in
      let s = load_proxies rt query_timeout cfg.proxies start in
      finish-Reloads cfg p (load_rules rt s.app.pool cfg.rules s.rs) s
        (λ k. url_at-load_proxies rt query_timeout k cfg.proxies start m)
        (rule_set-load_proxies rt query_timeout cfg.proxies start)

  get-finish :
      (k u : Bytes) (pd : PooledDialer) (proxies : Map Bytes) (rs : Option (RuleSet Dialer))
      (s : Loading)
      → get k proxies ≡ some u
      → get k s.app.pool ≡ some pd
      → get k (pacman_of (finish proxies rs s)).pool ≡ some pd
  unfolding finish pacman_of
  get-finish k u pd proxies none s h e = e
  get-finish k u pd proxies (some rs) s h e = rw (get-kept k proxies s.app.pool, h, e)

  -- A dialer whose label keeps its URL is kept as it is, with its connections, whether or not the
  -- load succeeds.
  pub get-load_config :
      (cfg : Config) (p : PacMan) (k : Bytes) (pd : PooledDialer)
      → IsMap cfg.proxies
      → get k p.pool ≡ some pd
      → get k cfg.proxies ≡ some pd.url
      → get k (pacman_of (load_config rt query_timeout cfg p)).pool ≡ some pd
  unfolding load_config
  get-load_config cfg p k pd m h e =
      let start : Loading = record { app = p; rs = empty; deferred = [] } in
      let s = load_proxies rt query_timeout cfg.proxies start in
      get-finish k pd.url pd cfg.proxies (load_rules rt s.app.pool cfg.rules s.rs) s e
        (get-load_proxies rt query_timeout k pd cfg.proxies start m h (inr e))
