-- ===== src/App/Load.antt =====
-- internal/app/app.go: the configuration that is loaded into the pool and the rule set.
--
-- The map `cfg.Proxies` is listed in the order in which `range` takes it, which may be any. The
-- closing of a dialer that `LoadConfig` defers is done where it returns, in the reverse order.
use flakes.Common.{
  ℕ, suc, if◌then◌else◌, List, [], ◌∷◌, ◌++◌, Option, none, some, Bytes, codes, Map, get, put,
  bytes_eq,
}
use flakes.Trie.Table.{Runtime, empty}
use flakes.Dialer.ByHost.{RuleSet, add}
use flakes.App.Pool.{PooledDialer, new_pooled_dialer}

-- The dialers that rules name, by the numbers of the pool's.
pub data Dialer : Type 0 where
  lazy : ℕ → Dialer
  rewriting : ℕ → Bytes → Dialer
  chain : List ℕ → Dialer

pub record Rule : Type 0 where
  pub hosts : List Bytes
  pub proxies : List Bytes

-- `Config`, once no pointer in it is nil: see `App.Start.load_file`.
pub record Config : Type 0 where
  pub proxies : Map Bytes
  pub rules : List Rule

pub record PacMan : Type 0 where
  pub pool : Map PooledDialer
  -- `dialer.rs`
  pub rule_set : Option (RuleSet Dialer)
  -- The dialers made so far, and those closed, the last one first.
  pub made : ℕ
  pub closed : List ℕ

-- The state of the first loop of `LoadConfig`: `rs`, and the deferred calls, the last one first.
pub record Loading : Type 0 where
  pub app : PacMan
  pub rs : RuleSet Dialer
  pub deferred : List ℕ

abbrev pub subdomain : Bytes → Bytes
subdomain k = k ++ codes ".pacman"

module _ (rt : Runtime) (query_timeout : Bytes → Bytes) where
  -- `rs.Add("."+subdomain, …)`
  unfoldable pub add_label : Bytes → ℕ → RuleSet Dialer → RuleSet Dialer
  add_label k n rs = add rt rs (b'.' ∷ subdomain k) (some (rewriting n (subdomain k)))

  -- A round of the loop that makes a dialer.
  unfoldable pub make_proxy : Bytes → Bytes → List ℕ → Loading → Loading
  unfolding add_label
  make_proxy k u deferred s = record {
    app = record s.app {
      pool = put k (new_pooled_dialer query_timeout s.app.made k u) s.app.pool;
      made = suc s.app.made;
    };
    rs = add_label k s.app.made s.rs;
    deferred = deferred;
  }

  -- One round of the loop over the proxies.
  unfoldable pub load_proxy : Bytes → Bytes → Loading → Loading
  unfolding make_proxy add_label
  load_proxy k u s = elim (get k s.app.pool) [
    | none ↦ make_proxy k u s.deferred s
    | some pd ↦
        if bytes_eq pd.url u
        then record s { rs = add_label k pd.dialer s.rs }
        else make_proxy k u (pd.dialer ∷ s.deferred) s
  ]

  unfoldable pub load_proxies : Map Bytes → Loading → Loading
  load_proxies [] s = s
  load_proxies ((k, u) ∷ proxies) s = load_proxies proxies (load_proxy k u s)

-- The dialers of a rule; `none` where a proxy is not found.
unfoldable pub members : Map PooledDialer → List Bytes → Option (List ℕ)
members pool [] = some []
members pool (proxy ∷ proxies) =
    let rest = members pool proxies in
    elim (get proxy pool) [
      | none ↦ none
      | some pd ↦ elim rest [ none ↦ none | some ds ↦ some (pd.dialer ∷ ds) ]
    ]

-- `switch len(chain)`
unfoldable pub chained : List ℕ → Option Dialer
chained [] = none
chained (d ∷ []) = some (lazy d)
chained (d ∷ e ∷ ds) = some (chain (d ∷ e ∷ ds))

-- `delete` of the entries whose key `cfg.Proxies` does not have.
unfoldable pub kept : Map Bytes → Map PooledDialer → Map PooledDialer
kept proxies [] = []
kept proxies ((k, pd) ∷ pool) =
    let rest = kept proxies pool in elim (get k proxies) [ none ↦ rest | some u ↦ (k, pd) ∷ rest ]

-- The dialers of the entries that are deleted, the last one first.
unfoldable pub dropped : Map Bytes → Map PooledDialer → List ℕ → List ℕ
dropped proxies [] deferred = deferred
dropped proxies ((k, pd) ∷ pool) deferred =
    dropped proxies pool (elim (get k proxies) [ none ↦ pd.dialer ∷ deferred | some u ↦ deferred ])

-- The deferred calls, at the return.
unfoldable pub close_all : List ℕ → List ℕ → List ℕ
close_all [] closed = closed
close_all (d ∷ deferred) closed = close_all deferred (d ∷ closed)

module _ (rt : Runtime) where
  unfoldable pub add_hosts : List Bytes → Option Dialer → RuleSet Dialer → RuleSet Dialer
  add_hosts [] xd rs = rs
  add_hosts (h ∷ hosts) xd rs = add_hosts hosts xd (add rt rs h xd)

  -- The loop over the rules; `none` is the error that a proxy is not found.
  unfoldable pub load_rules :
      Map PooledDialer → List Rule → RuleSet Dialer → Option (RuleSet Dialer)
  load_rules pool [] rs = some rs
  load_rules pool (r ∷ rules) rs = elim (members pool r.proxies) [
    | none ↦ none
    | some ds ↦ load_rules pool rules (add_hosts r.hosts (chained ds) rs)
  ]

-- What `LoadConfig` leaves, and whether it returned an error.
pub data Loaded : Type 0 where
  ok : PacMan → Loaded
  proxy_not_found : PacMan → Loaded

unfoldable pub pacman_of : Loaded → PacMan
pacman_of (ok p) = p
pacman_of (proxy_not_found p) = p

-- From the rules on.
unfoldable pub finish : Map Bytes → Option (RuleSet Dialer) → Loading → Loaded
unfolding kept dropped close_all
finish proxies none s =
    proxy_not_found (record s.app { closed = close_all s.deferred s.app.closed })
finish proxies (some rs) s = ok (record s.app {
  pool = kept proxies s.app.pool;
  rule_set = some rs;
  closed = close_all (dropped proxies s.app.pool s.deferred) s.app.closed;
})

-- `LoadConfig`
unfoldable pub load_config : Runtime → (Bytes → Bytes) → Config → PacMan → Loaded
unfolding load_proxies load_rules finish
load_config rt query_timeout cfg p =
    let s =
      load_proxies rt query_timeout cfg.proxies (record { app = p; rs = empty; deferred = [] }) in
    finish cfg.proxies (load_rules rt s.app.pool cfg.rules s.rs) s
