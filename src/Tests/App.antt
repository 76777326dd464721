-- ===== src/Tests/App.antt =====
-- internal/app: a reload that changes one URL, drops a label and adds one.
use flakes.Common.{
  atoi_signed, digits, unsigned, atoi, ◌++◌, ℕ, ◌+◌, ◌≡◌, refl, true, [], ◌∷◌, none, some, Bytes,
  codes, get, bytes_eq, if◌then◌else◌,
}
use flakes.Trie.Table.{Runtime}
use flakes.App.Pool.{PooledDialer, timeout_of, positive, hour}
use flakes.App.Load.{Config, PacMan, load_config, pacman_of, finish, load_rules}
use flakes.Dialer.Lazy.{mem}
use flakes.App.Closing.{load_config_replaced, load_config-closes, is_ok}
use flakes.Trie.Table.{empty}
use flakes.Trie.Table.Rules.{insert_all}
use flakes.App.Rules.{labels, entries, rules_known, rule_set-load_config}
use flakes.App.Load.{Loading, load_proxies}
use flakes.App.Reload.{IsMap, Reloads, load_config-Reloads}

abbrev plain : Runtime
plain = record {
  grow = λ old need. need + old;
  parse_cidr = λ s. none;
  parse_ip = λ s. none;
  show_net = λ n. [];
}

abbrev no_timeout : Bytes → Bytes
no_timeout u = []

thirty : timeout_of (codes "30") ≡ 30000000000
unfolding timeout_of atoi unsigned digits atoi_signed positive
thirty = refl

below_zero : timeout_of (codes "-5") ≡ 0
unfolding timeout_of atoi unsigned digits atoi_signed positive
below_zero = refl

no_number : timeout_of (codes "5s") ≡ hour
unfolding timeout_of atoi unsigned digits atoi_signed
no_number = refl

abbrev pooled : Bytes → Bytes → ℕ → PooledDialer
pooled l u n = record { label = l; url = u; dialer = n; timeout = 0 }

abbrev before : PacMan
before = record {
  pool =
      (codes "a", pooled (codes "a") (codes "ssh://a") 0)
      ∷ (codes "b", pooled (codes "b") (codes "ssh://b") 1)
      ∷ [];
  rule_set = none;
  made = 2;
  closed = [];
}

abbrev config : Config
config = record {
  proxies = (codes "a", codes "ssh://a") ∷ (codes "c", codes "ssh://c") ∷ [];
  rules = record { hosts = codes "h" ∷ []; proxies = codes "a" ∷ codes "x" ∷ [] } ∷ [];
}

config-IsMap : IsMap config.proxies
unfolding get bytes_eq
config-IsMap = (refl, (refl, tt))

load_config-Reloads_example : Reloads config before (load_config plain no_timeout config before)
load_config-Reloads_example = load_config-Reloads plain no_timeout config before config-IsMap

abbrev changed : Config
changed = record { proxies = (codes "a", codes "ssh://a2") ∷ []; rules = [] }

changed-IsMap : IsMap changed.proxies
unfolding get
changed-IsMap = (refl, tt)

load_config_replaced_example :
    mem 0 (pacman_of (load_config plain no_timeout changed before)).closed ≡ true
unfolding get bytes_eq
load_config_replaced_example =
    load_config_replaced plain no_timeout changed before (codes "a") (codes "ssh://a2")
      (pooled (codes "a") (codes "ssh://a") 0) refl refl (λ e. cc)

load_config-closes_example :
    mem 1 (pacman_of (load_config plain no_timeout changed before)).closed ≡ true
unfolding get bytes_eq load_config finish is_ok load_rules
load_config-closes_example =
    load_config-closes plain no_timeout changed before (codes "b")
      (pooled (codes "b") (codes "ssh://b") 1) changed-IsMap refl (λ e. cc) refl

rule_set-load_config_example :
    let start : Loading = record { app = before; rs = empty; deferred = [] } in
    let pool = (load_proxies plain no_timeout config.proxies start).app.pool in
    (pacman_of (load_config plain no_timeout config before)).rule_set ≡ (
      if rules_known pool config.rules
      then some (insert_all plain empty (labels pool config.proxies ++ entries pool config.rules))
      else before.rule_set)
rule_set-load_config_example = rule_set-load_config plain no_timeout config before config-IsMap
