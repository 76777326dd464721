-- ===== src/App/Start.antt =====
-- internal/app/app.go: the start, and the reload of the configuration.
--
-- The lock of `PACMan` makes a load one step. The listener is a parameter: the one that is given to
-- `run`, or the one of the configuration, which may fail.
pub mod Reloading
use flakes.Common.{
  ℕ, Bool, true, false, if◌then◌else◌, List, [], ◌∷◌, ◌++◌, Option, none, some, Bytes, codes, ◌⊎◌,
  inl, inr, Map,
}
use flakes.Trie.Table.{Runtime}
use flakes.App.Pool.{PooledDialer}
use flakes.App.Load.{PacMan, Rule, Loaded, ok, proxy_not_found, load_config}
use flakes.App.Config.{Error, Disk, ConfigFile, is_empty, parse_config_file, expand_user}

-- Why a start or a reload fails.
pub data Failure : Type 0 where
  of_file : Error → Failure
  no_listener listen_failed unknown_proxy : Failure

-- The body of a notification: a text, or that of an error.
pub data Body : Type 0 where
  error_text : Failure → Body
  text : Bytes → Body

pub record Notification : Type 0 where
  pub title : Bytes
  pub subtitle : Bytes
  pub body : Body

-- The program that runs, with its disk, the notifications so far, and what the desktop opens.
pub record Running : Type 0 where
  pub config : Bytes
  pub app : PacMan
  pub disk : Disk
  pub notifications : List Notification
  pub opened : List Bytes

unfoldable pub notify : Notification → Running → Running
notify n s = record s { notifications = s.notifications ++ n ∷ [] }

unfoldable pub reload_error : Failure → Notification
reload_error err = record {
  title = codes "Config Reload Error";
  subtitle = [];
  body = error_text err;
}

unfoldable pub reloaded : Notification
reloaded = record {
  title = [];
  subtitle = codes "Config Reloaded";
  body = text (codes "The configuration was successfully reloaded.");
}

-- `OpenConfig`
unfoldable pub open_config : Running → Running
unfolding expand_user
open_config s = elim (expand_user s.config s.disk) [
  | inl err ↦ s
  | inr p ↦ record s { opened = s.opened ++ p ∷ [] }
]

-- A listener that `net.Listen` makes at an address, and the listener of `run`.
unfoldable pub listener_of : (Bytes → Option ℕ) → Option ℕ → Bytes → Failure ⊎ ℕ
unfolding is_empty
listener_of listen (some l) address = inr l
listener_of listen none address =
    if is_empty address
    then inl no_listener
    else elim (listen address) [ none ↦ inl listen_failed | some l ↦ inr l ]

unfoldable pub new_pacman : PacMan
new_pacman = record { pool = []; rule_set = none; made = 0; closed = [] }

-- The texts of the URLs; `none` where one of them is nil.
unfoldable pub urls : Map (Option Bytes) → Option (Map Bytes)
urls [] = some []
urls ((k, u) ∷ proxies) =
    let rest = urls proxies in
    elim u [ none ↦ none | some t ↦ elim rest [ none ↦ none | some us ↦ some ((k, t) ∷ us) ] ]

-- The rules in front of the first one that is nil, and whether there is one that is nil.
unfoldable pub until_nil : List (Option Rule) → List Rule × Bool
until_nil [] = ([], false)
until_nil (none ∷ rules) = ([], true)
until_nil (some r ∷ rules) = let (rs, has_nil) = until_nil rules in (r ∷ rs, has_nil)

-- The end of the loop over the rules at one that is nil: `r.Proxies` panics, if the loop gets there.
unfoldable pub at_nil : Bool → Loaded → Option Loaded
at_nil false l = some l
at_nil true (ok p) = none
at_nil true (proxy_not_found p) = some (proxy_not_found p)

module _ (rt : Runtime) (query_timeout : Bytes → Bytes)
    (unmarshal : Bytes → Bytes ⊎ ConfigFile) where
  -- `LoadConfig` of a configuration whose pointers may be nil; `none` is a panic, which ends the
  -- program: `u.String()` and `&u.URL` panic for a URL that is nil.
  unfoldable pub load_file : ConfigFile → PacMan → Option Loaded
  unfolding load_config urls until_nil at_nil
  load_file cfg p = elim (urls cfg.proxies) [
    | none ↦ none
    | some us ↦
        let (rules, has_nil) = until_nil cfg.rules in
        at_nil has_nil (load_config rt query_timeout (record { proxies = us; rules = rules }) p)
  ]

  -- The end of `ReloadConfig`
  unfoldable pub report : Loaded → Running → Running
  unfolding notify reload_error reloaded
  report (ok p) s = notify reloaded (record s { app = p })
  report (proxy_not_found p) s = notify (reload_error unknown_proxy) (record s { app = p })

  unfoldable pub reload_parsed : Error ⊎ ConfigFile → Running → Option Running
  unfolding load_file report notify reload_error
  reload_parsed (inl err) s = some (notify (reload_error (of_file err)) s)
  reload_parsed (inr cfg) s = elim (load_file cfg s.app) [
    | none ↦ none
    | some l ↦ some (report l s)
  ]

  -- `ReloadConfig`; `none` is a panic.
  unfoldable pub reload_config : Running → Option Running
  unfolding parse_config_file reload_parsed
  reload_config s =
      let (cfg, disk) = parse_config_file unmarshal s.config s.disk in
      reload_parsed cfg (record s { disk = disk })

  unfoldable pub started : ℕ → Loaded → Failure ⊎ (ℕ × PacMan)
  started l (ok p) = inr (l, p)
  started l (proxy_not_found p) = inl unknown_proxy

  unfoldable pub listening : ConfigFile → Failure ⊎ ℕ → Option (Failure ⊎ (ℕ × PacMan))
  unfolding load_file started new_pacman
  listening cfg (inl err) = some (inl err)
  listening cfg (inr l) = elim (load_file cfg new_pacman) [
    | none ↦ none
    | some how ↦ some (started l how)
  ]

  unfoldable pub start_parsed :
      (Bytes → Option ℕ) → Option ℕ → Error ⊎ ConfigFile → Option (Failure ⊎ (ℕ × PacMan))
  unfolding listening listener_of
  start_parsed listen l (inl err) = some (inl (of_file err))
  start_parsed listen l (inr cfg) = listening cfg (listener_of listen l cfg.listen)

  -- `run`, up to the server that serves the listener; `none` is a panic.
  unfoldable pub start :
      (Bytes → Option ℕ) → Option ℕ → Bytes → Disk → Option (Failure ⊎ (ℕ × PacMan))
  unfolding start_parsed parse_config_file
  start listen l config disk = start_parsed listen l (parse_config_file unmarshal config disk).0
