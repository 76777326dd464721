-- ===== src/App/StatusMenu.antt =====
-- internal/app/pool.go and app.go: what the menu and the notifications show of the proxies, with
-- pkg/iterutil/maps.go.
--
-- The circles of the icons and the names of the states are parameters. A menu item is at a pointer.
use flakes.Common.{
  ℕ, ltb, Bool, true, false, ◌==◌, if◌then◌else◌, List, [], ◌∷◌, ◌++◌, Option, none, some, Bytes,
  codes, Map,
}
use flakes.Dialer.Lazy.{ConnectionState, offline, connecting, failed, online}
use flakes.App.Pool.{Icon, Menu, update_menu}
use flakes.Menuet.Menu.{
  Face, Itemer, menu_item, separator_item, section, sections, menu_items, dynamic_item, Submenu,
  no_submenu, submenu, Itemers, no_items, items,
}

-- `<` of strings
unfoldable pub bytes_lt : Bytes → Bytes → Bool
bytes_lt a [] = false
bytes_lt [] (d ∷ b) = true
bytes_lt (c ∷ a) (d ∷ b) =
    let rest = bytes_lt a b in if ltb c d then true else if c == d then rest else false

unfoldable pub insert_sorted {ℓ} : {V : Type ℓ} → Bytes × V → Map V → Map V
unfolding bytes_lt
insert_sorted e [] = e ∷ []
insert_sorted e (f ∷ m) =
    let rest = insert_sorted e m in if bytes_lt f.0 e.0 then f ∷ rest else e ∷ f ∷ m

-- `SortedMapIter`: the entries in the order of their keys.
unfoldable pub sorted_map_iter {ℓ} : {V : Type ℓ} → Map V → Map V
unfolding insert_sorted
sorted_map_iter [] = []
sorted_map_iter (e ∷ m) = insert_sorted e (sorted_map_iter m)

-- A `MenuItem` with a text only.
unfoldable pub text_face : Bytes → Face
text_face text = record {
  image = [];
  text = text;
  font_size = 0;
  font_weight = 0;
  is_checked = false;
  subtitle = [];
  badge = [];
}

-- A pooled dialer's `menu` and `child`, by their pointers, with what they show.
pub record Shown : Type 0 where
  pub pointer : ℕ
  pub child : ℕ
  pub menu : Menu

pub record Names : Type 0 where
  pub circle : Icon → Bytes
  pub state_name : ConnectionState → Bytes

unfoldable pub child_submenu : Shown → Submenu
unfolding text_face
child_submenu s = elim s.menu.submenu [
  | none ↦ no_submenu
  | some (text, clicked) ↦ submenu (menu_item s.child (text_face text) no_submenu)
]

unfoldable pub pooled_item : Names → Shown → Itemer
unfolding child_submenu
pooled_item names s =
    menu_item s.pointer
      (record {
        image = [];
        text = names.circle s.menu.shown ++ codes " " ++ s.menu.text;
        font_size = 0;
        font_weight = 0;
        is_checked = false;
        subtitle = [];
        badge = names.state_name s.menu.badge;
      })
      (child_submenu s)

unfoldable pub pooled_items : Names → Map Shown → Itemers
unfolding pooled_item
pooled_items names [] = no_items
pooled_items names ((k, s) ∷ m) = items (pooled_item names s) (pooled_items names m)

-- `DialerPool.MenuItems`
unfoldable pub pool_menu : Names → Map Shown → Itemer
unfolding sorted_map_iter pooled_items
pool_menu names pool = menu_items (pooled_items names (sorted_map_iter pool))

-- The items of the status menu that are made anew each time, or once, by their pointers.
pub record Pointers : Type 0 where
  pub address : ℕ
  pub no_proxies : ℕ
  pub settings : ℕ
  pub edit : ℕ
  pub reload : ℕ
  pub help : ℕ
  pub check_updates : ℕ
  pub quit : ℕ

unfoldable pub proxies_item : Names → Pointers → Map Shown → Itemer
unfolding pool_menu text_face
proxies_item names at [] =
    menu_item at.no_proxies (text_face (codes "No Proxies Configured")) no_submenu
proxies_item names at (e ∷ pool) = section (codes "Proxies") (pool_menu names (e ∷ pool))

-- The item for updates, where the application has the action.
unfoldable pub update_items : Bool → Pointers → Submenu
unfolding text_face
update_items false at = no_submenu
update_items true at = submenu (
    menu_items (
      items separator_item (
        items (menu_item at.check_updates (text_face (codes "Check for Updates...")) no_submenu)
          no_items)))

unfoldable pub settings_items : Bool → Pointers → Itemer
unfolding update_items text_face
settings_items has_update at = menu_items (
    items (menu_item at.edit (text_face (codes "Edit")) no_submenu) (
      items (menu_item at.reload (text_face (codes "Reload")) no_submenu) (
        items separator_item (
          items (menu_item at.help (text_face (codes "Help")) no_submenu)
            (items (dynamic_item (update_items has_update at)) no_items)))))

-- `pacman.menu.Submenu`
unfoldable pub status_menu : Names → Pointers → Bool → Bytes → Map Shown → Itemer
unfolding proxies_item settings_items text_face
status_menu names at has_update address pool = sections (
    items
      (section (codes "Server Address")
        (dynamic_item (submenu (menu_item at.address (text_face address) no_submenu))))
      (items (dynamic_item (submenu (proxies_item names at pool))) (
        items
          (menu_item at.settings (text_face (codes "Settings"))
            (submenu (settings_items has_update at)))
          (items (menu_item at.quit (text_face (codes "Quit")) no_submenu) no_items))))

pub record StateNotification : Type 0 where
  pub identifier : Bytes
  pub title : Bytes
  pub subtitle : Bytes
  pub body : Bytes

unfoldable pub subtitle_of : ConnectionState → Bytes
subtitle_of offline = codes "Proxy disconnected"
subtitle_of connecting = codes "Connecting to proxy"
subtitle_of online = codes "Proxy connected"
subtitle_of failed = codes "Proxy connection failed"

unfoldable pub body_of : ConnectionState → Bytes
body_of offline = codes "The connection was terminated."
body_of connecting = codes "The connection to the proxy is being established."
body_of online = codes "The proxy connection has been established."
body_of failed = []

-- The text of an error, on a line of its own where there is a text in front of it.
unfoldable pub with_error : Bytes → Option Bytes → Bytes
with_error body none = body
with_error [] (some err) = err
with_error (c ∷ body) (some err) = c ∷ body ++ b'\n' ∷ err

-- `PooledDialer.notification`
unfoldable pub notification : Bytes → ConnectionState → Option Bytes → StateNotification
unfolding subtitle_of body_of with_error
notification label state err = record {
  identifier = codes "status:" ++ label;
  title = label;
  subtitle = subtitle_of state;
  body = with_error (body_of state) err;
}

-- `Track`: what each state shows, up to the first that comes when the dialer is closed. A change is
-- the state, its error, and whether the context is cancelled by then.
unfoldable pub track :
    Bytes → List (ConnectionState × (Option Bytes × Bool)) → List (Menu × StateNotification)
unfolding update_menu notification
track label [] = []
track label ((state, (err, is_cancelled)) ∷ changes) =
    let rest = track label changes in
    (update_menu label state, notification label state err) ∷ (if is_cancelled then [] else rest)
