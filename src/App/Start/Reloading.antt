-- ===== src/App/Start/Reloading.antt =====
-- How a reload ends.
use flakes.Common.{
  ◌≡◌, true, false, List, [], ◌∷◌, ◌++◌, map, Bytes, Map, Option, some, none, ◌⊎◌, inl, inr,
}
use flakes.Trie.Table.{Runtime, empty}
use flakes.App.Pool.{PooledDialer}
use flakes.App.Load.{PacMan, Rule, Dialer, ok, proxy_not_found, load_config, load_proxies}
use flakes.App.Rules.{rules_known}
use flakes.App.Config.{Error, ConfigFile}
use flakes.App.Start.{of_file, unknown_proxy, Running, reload_error, reloaded}

-- The configuration's proxies, where no URL is nil.
abbrev pub with_urls : Map Bytes → Map (Option Bytes)
with_urls us = map (λ e. (e.0, some e.1)) us

module _ (rt : Runtime) (query_timeout : Bytes → Bytes)
    (unmarshal : Bytes → Bytes ⊎ ConfigFile) where
  -- The pool that the loop over the proxies leaves.
  abbrev pub pool_after : Map Bytes → PacMan → Map PooledDialer
  pool_after us p =
      (load_proxies rt query_timeout us (record { app = p; rs = empty; deferred = [] })).app.pool

  -- How a reload ends, by what `ParseConfigFile` gives; a panic is `none`.
  pub data Reports (got : Error ⊎ ConfigFile) (s : Running) : Option Running → Type 0 where
    no_file :
        (err : Error)
        → got ≡ inl err
        → Reports got s
            (some (record s { notifications = s.notifications ++ reload_error (of_file err) ∷ [] }))
    nil_url :
        (cfg : ConfigFile) (front back : Map (Option Bytes)) (k : Bytes)
        → got ≡ inr cfg
        → cfg.proxies ≡ front ++ (k, none) ∷ back
        → Reports got s none
    nil_rule :
        (cfg : ConfigFile) (us : Map Bytes) (rules : List Rule) (back : List (Option Rule))
        → got ≡ inr cfg
        → cfg.proxies ≡ with_urls us
        → cfg.rules ≡ map some rules ++ none ∷ back
        → rules_known (pool_after us s.app) rules ≡ true
        → Reports got s none
    not_found :
        (cfg : ConfigFile) (us : Map Bytes) (rules : List Rule) (back : List (Option Rule))
        (p : PacMan)
        → got ≡ inr cfg
        → cfg.proxies ≡ with_urls us
        → cfg.rules ≡ map some rules ++ back
        → rules_known (pool_after us s.app) rules ≡ false
        → load_config rt query_timeout (record { proxies = us; rules = rules }) s.app
          ≡ proxy_not_found p
        → p.rule_set ≡ s.app.rule_set
        → Reports got s (
            some (record s {
              app = p;
              notifications = s.notifications ++ reload_error unknown_proxy ∷ [];
            }))
    loads :
        (cfg : ConfigFile) (us : Map Bytes) (rules : List Rule) (p : PacMan)
        → got ≡ inr cfg
        → cfg.proxies ≡ with_urls us
        → cfg.rules ≡ map some rules
        → rules_known (pool_after us s.app) rules ≡ true
        → load_config rt query_timeout (record { proxies = us; rules = rules }) s.app ≡ ok p
        → Reports got s
            (some (record s { app = p; notifications = s.notifications ++ reloaded ∷ [] }))
