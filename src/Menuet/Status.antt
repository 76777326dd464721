-- ===== src/Menuet/Status.antt =====
-- pkg/menuet/menu.go: the items of the status bar.
use flakes.Common.{ℕ, List, [], ◌∷◌, ◌++◌, Option, none, some, Bytes}
use flakes.Syncutil.WeakMap.{remove}
use flakes.Menuet.Menu.{Submenu, Nodes, State, unique_of, submenu_item}

pub record StatusItem : Type 0 where
  pub pointer : ℕ
  pub title : Bytes
  pub image : Bytes
  pub menu : Submenu

-- `C.StatusItem`
pub record StatusNode : Type 0 where
  pub unique : Bytes
  pub title : Bytes
  pub image_name : Bytes
  pub menu : Nodes

-- What the status bar is told to do, in its order.
pub data Order : Type 0 where
  updates : StatusNode → Order
  removes : Bytes → Order

-- `statusItems` with the `unique` of each item, which are kept the way the ones of menu items are.
pub record Bar : Type 0 where
  pub status_items : State
  pub menu_items : State
  pub orders : List Order

-- `StatusItem.item`, where the two maps draw their keys from `keys` and `menu_keys`.
unfoldable pub status_item :
    (ℕ → Bytes) → (ℕ → Bytes) → StatusItem → Bar → Option (StatusNode × Bar)
unfolding unique_of submenu_item
status_item keys menu_keys i bar = elim (unique_of keys i.pointer bar.status_items) [
  | none ↦ none
  | some (key, s) ↦ elim (submenu_item menu_keys i.menu bar.menu_items) [
    | none ↦ none
    | some (ns, s') ↦ some (
      record { unique = key; title = i.title; image_name = i.image; menu = ns },
      record bar { status_items = s; menu_items = s' },
    )
  ]
]

-- `UpdateStatusItem`
unfoldable pub update_status_item : (ℕ → Bytes) → (ℕ → Bytes) → StatusItem → Bar → Option Bar
unfolding status_item
update_status_item keys menu_keys i bar = elim (status_item keys menu_keys i bar) [
  | none ↦ none
  | some (node, bar') ↦ some (record bar' { orders = bar'.orders ++ updates node ∷ [] })
]

-- `RemoveStatusItem`
unfoldable pub remove_status_item : StatusItem → Bar → Bar
unfolding remove
remove_status_item i bar = elim (bar.status_items.unique i.pointer) [
  | none ↦ bar
  | some key ↦
      let s = bar.status_items in
      record bar {
        orders = bar.orders ++ removes key ∷ [];
        status_items = record s { menuitems = remove key s.menuitems };
      }
]
