-- ===== src/App/Closing.antt =====
-- Which dialers a load of a configuration closes.
use flakes.Common.{
  ℕ, ◌≡◌, ◌≢◌, refl, ap, sym, ◌∙◌, Bool, true, false, ◌||◌, List, [], ◌∷◌, Option, none, some,
  Bytes, Map, get, bytes_eq-false, bytes_cases, arith, Option-cases, inl, inr,
}
use flakes.Trie.Table.{Runtime, empty}
use flakes.Dialer.ByHost.{RuleSet}
use flakes.Dialer.Lazy.{mem}
use flakes.App.Pool.{PooledDialer}
use flakes.App.Load.{
  Config, PacMan, Loading, Loaded, ok, proxy_not_found, pacman_of, make_proxy, load_proxy,
  load_proxies, load_rules, dropped, close_all, finish, load_config, Dialer,
}
use flakes.App.Reload.{IsMap, get-load_proxy, get-load_proxies}

mem-close_all :
    (d : ℕ) (ds closed : List ℕ) → mem d (close_all ds closed) ≡ (mem d ds || mem d closed)
unfolding mem close_all
mem-close_all d [] closed = refl
mem-close_all d (e ∷ ds) closed = ground (arith, mem-close_all d ds (e ∷ closed))

mem-dropped_lem :
    (d : ℕ) (proxies : Map Bytes) (pool : Map PooledDialer) (ds : List ℕ)
    → mem d ds ≡ true
    → mem d (dropped proxies pool ds) ≡ true
unfolding mem dropped
mem-dropped_lem d proxies [] ds h = h
mem-dropped_lem d proxies ((k, pd) ∷ pool) ds h = elim (Option-cases (get k proxies)) [
  | inl gone ↦
      rw (dropped, gone) (mem-dropped_lem d proxies pool (pd.dialer ∷ ds) (ground (arith, h)))
  | inr (u, there) ↦ rw (dropped, there) (mem-dropped_lem d proxies pool ds h)
]

mem-dropped :
    (k : Bytes) (pd : PooledDialer) (proxies : Map Bytes) (pool : Map PooledDialer) (ds : List ℕ)
    → get k pool ≡ some pd
    → get k proxies ≡ none
    → mem pd.dialer (dropped proxies pool ds) ≡ true
unfolding get dropped mem
mem-dropped k pd proxies [] ds h gone = absurd cc
mem-dropped k pd proxies ((j, other) ∷ pool) ds h gone = elim (bytes_cases j k) [
  | inl (e, eb) ↦
      rw (dropped, ap (λ x. get x proxies) e ∙ gone)
        (mem-dropped_lem pd.dialer proxies pool (other.dialer ∷ ds) (ground (arith, h, eb)))
  | inr (ne, eb) ↦ mem-dropped k pd proxies pool _ (ground (arith, h, eb)) gone
]

mem-finish :
    (d : ℕ) (proxies : Map Bytes) (rs : Option (RuleSet Dialer)) (s : Loading)
    → mem d s.deferred ≡ true
    → mem d (pacman_of (finish proxies rs s)).closed ≡ true
unfolding finish pacman_of
mem-finish d proxies none s h = ground (arith, mem-close_all d s.deferred s.app.closed, h)
mem-finish d proxies (some rs) s h = ground (
  arith,
  mem-close_all d (dropped proxies s.app.pool s.deferred) s.app.closed,
  mem-dropped_lem d proxies s.app.pool s.deferred h,
)

module _ (rt : Runtime) (query_timeout : Bytes → Bytes) where
  mem-load_proxy :
      (d : ℕ) (k u : Bytes) (s : Loading)
      → mem d s.deferred ≡ true
      → mem d (load_proxy rt query_timeout k u s).deferred ≡ true
  unfolding load_proxy make_proxy mem
  mem-load_proxy d k u s h = elim (Option-cases (get k s.app.pool)) [
    | inl new ↦ ground (arith, new, h)
    | inr (pd, old) ↦ ground (arith, old, h)
  ]

  mem-load_proxies :
      (d : ℕ) (proxies : Map Bytes) (s : Loading)
      → mem d s.deferred ≡ true
      → mem d (load_proxies rt query_timeout proxies s).deferred ≡ true
  unfolding load_proxies
  mem-load_proxies d [] s h = h
  mem-load_proxies d ((k, u) ∷ proxies) s h =
      mem-load_proxies d proxies (load_proxy rt query_timeout k u s) (mem-load_proxy d k u s h)

  load_proxy_replaced :
      (k u : Bytes) (pd : PooledDialer) (s : Loading)
      → get k s.app.pool ≡ some pd
      → u ≢ pd.url
      → mem pd.dialer (load_proxy rt query_timeout k u s).deferred ≡ true
  unfolding load_proxy make_proxy mem
  load_proxy_replaced k u pd s h ne = ground (arith, h, bytes_eq-false pd.url u (λ e. ne (sym e)))

  load_proxies_replaced :
      (k u : Bytes) (pd : PooledDialer) (proxies : Map Bytes) (s : Loading)
      → get k s.app.pool ≡ some pd
      → get k proxies ≡ some u
      → u ≢ pd.url
      → mem pd.dialer (load_proxies rt query_timeout proxies s).deferred ≡ true
  unfolding load_proxies get
  load_proxies_replaced k u pd [] s h e ne = absurd cc
  load_proxies_replaced k u pd ((j, v) ∷ proxies) s h e ne = elim (bytes_cases j k) [
    | inl (at, eb) ↦ mem-load_proxies pd.dialer proxies (load_proxy rt query_timeout j v s) (
        load_proxy_replaced j v pd s (ap (λ x. get x s.app.pool) at ∙ h)
          (λ same. ground (arith, same, ne, e, eb)))
    | inr (off, eb) ↦
        load_proxies_replaced k u pd proxies (load_proxy rt query_timeout j v s)
          (get-load_proxy rt query_timeout k j v pd s h (λ x. absurd (off x)))
          (ground (arith, e, eb)) ne
  ]

  -- A dialer whose label gets another URL is closed, also where the load then fails and the rule set
  -- in use still names it.
  pub load_config_replaced :
      (cfg : Config) (p : PacMan) (k u : Bytes) (pd : PooledDialer)
      → get k p.pool ≡ some pd
      → get k cfg.proxies ≡ some u
      → u ≢ pd.url
      → mem pd.dialer (pacman_of (load_config rt query_timeout cfg p)).closed ≡ true
  unfolding load_config
  load_config_replaced cfg p k u pd h e ne =
      let start : Loading = record { app = p; rs = empty; deferred = [] } in
      let s = load_proxies rt query_timeout cfg.proxies start in
      mem-finish pd.dialer cfg.proxies (load_rules rt s.app.pool cfg.rules s.rs) s
        (load_proxies_replaced k u pd cfg.proxies start h e ne)

-- Whether the load returned no error.
unfoldable pub is_ok : Loaded → Bool
is_ok (ok p) = true
is_ok (proxy_not_found p) = false

finish_dropped :
    (k : Bytes) (pd : PooledDialer) (proxies : Map Bytes) (rs : Option (RuleSet Dialer))
    (s : Loading)
    → is_ok (finish proxies rs s) ≡ true
    → get k s.app.pool ≡ some pd
    → get k proxies ≡ none
    → mem pd.dialer (pacman_of (finish proxies rs s)).closed ≡ true
unfolding finish pacman_of is_ok
finish_dropped k pd proxies none s o h e = absurd cc
finish_dropped k pd proxies (some rs) s o h e = ground (
  arith,
  mem-close_all pd.dialer (dropped proxies s.app.pool s.deferred) s.app.closed,
  mem-dropped k pd proxies s.app.pool s.deferred h e,
)

-- A load that succeeds closes every dialer whose label the configuration no longer has, or has with
-- another URL.
pub load_config-closes :
    (rt : Runtime) (query_timeout : Bytes → Bytes) (cfg : Config) (p : PacMan) (k : Bytes)
    (pd : PooledDialer)
    → IsMap cfg.proxies
    → get k p.pool ≡ some pd
    → get k cfg.proxies ≢ some pd.url
    → is_ok (load_config rt query_timeout cfg p) ≡ true
    → mem pd.dialer (pacman_of (load_config rt query_timeout cfg p)).closed ≡ true
unfolding load_config
load_config-closes rt query_timeout cfg p k pd m h ne o =
    let start : Loading = record { app = p; rs = empty; deferred = [] } in
    let s = load_proxies rt query_timeout cfg.proxies start in
    elim (Option-cases (get k cfg.proxies)) [
      | inl gone ↦
          finish_dropped k pd cfg.proxies (load_rules rt s.app.pool cfg.rules s.rs) s o
            (get-load_proxies rt query_timeout k pd cfg.proxies start m h (inl gone)) gone
      | inr (u, there) ↦
          load_config_replaced rt query_timeout cfg p k u pd h there
            (λ same. ne (there ∙ ap (λ x. some x) same))
    ]
