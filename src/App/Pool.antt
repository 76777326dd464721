-- ===== src/App/Pool.antt =====
-- internal/app/pool.go: a proxy of the configuration with its dialer, and what its menu shows.
--
-- A `*url.URL` is its text. Package net/url is a parameter: `query_timeout` is
-- `u.Query().Get("timeout")`.
use flakes.Common.{
  ℕ, ◌*◌, ◌%◌, ◌^◌, if◌then◌else◌, ltb, [], ◌∷◌, Option, none, some, atoi, Bytes, codes,
}
use flakes.Dialer.Lazy.{ConnectionState, offline, connecting, failed, online}

pub record PooledDialer : Type 0 where
  pub label : Bytes
  pub url : Bytes
  -- The number of its `dialer.Lazy`, and that one's timeout in nanoseconds.
  pub dialer : ℕ
  pub timeout : ℕ

-- `1 * time.Hour`
abbrev pub hour : ℕ
hour = 3600 * 10 ^ 9

-- A duration of 64 bits as the dialer uses it, which asks only whether it is positive.
unfoldable pub positive : ℕ → ℕ
positive d = if ltb d (2 ^ 63) then d else 0

-- `time.Duration(i) * time.Second`, where `t` is a number.
unfoldable pub timeout_of : Bytes → ℕ
unfolding atoi positive
timeout_of [] = hour
timeout_of (c ∷ t) = elim (atoi (c ∷ t)) [ none ↦ hour | some i ↦ positive (i * 10 ^ 9 % 2 ^ 64) ]

-- `NewPooledDialer`, whose dialer has the number `n`.
unfoldable pub new_pooled_dialer : (Bytes → Bytes) → ℕ → Bytes → Bytes → PooledDialer
unfolding timeout_of
new_pooled_dialer query_timeout n l u = record {
  label = l;
  url = u;
  dialer = n;
  timeout = timeout_of (query_timeout u);
}

-- `icon`, by the colour of its circle.
pub data Icon : Type 0 where
  white green red yellow : Icon

unfoldable pub icon : ConnectionState → Icon
icon offline = white
icon online = green
icon failed = red
icon connecting = yellow

pub data Clicked : Type 0 where
  nothing resets closes : Clicked

unfoldable pub action : ConnectionState → Bytes × Clicked
action offline = (codes "Offline", nothing)
action failed = (codes "Reset", resets)
action online = (codes "Disconnect", closes)
action connecting = (codes "Disconnect", closes)

pub record Menu : Type 0 where
  pub shown : Icon
  pub text : Bytes
  pub badge : ConnectionState
  pub submenu : Option (Bytes × Clicked)

-- `updateMenu`
unfoldable pub update_menu : Bytes → ConnectionState → Menu
unfolding icon action
update_menu label state = record {
  shown = icon state;
  text = label;
  badge = state;
  submenu = elim state [
    | offline ↦ none
    | online ↦ some (action online)
    | failed ↦ some (action failed)
    | connecting ↦ some (action connecting)
  ];
}
