-- ===== src/Menuet/Menu.antt =====
-- pkg/menuet/menu.go: items, and the nodes of the native menu that they become.
--
-- A list of nodes stands for the linked list behind its first node, so that the walk to the tail in
-- `toMenuItems` is an append. A `DynamicItem` is what its function gives now.
pub mod Click
use flakes.Common.{
  ℕ, zero, suc, ◌==◌, Bool, true, false, if◌then◌else◌, List, [], ◌∷◌, ◌++◌, Option, none, some,
  Bytes, length,
}
use flakes.Syncutil.WeakMap.{WeakMap, load, remove, store_random}

-- The fields of a `MenuItem` that are shown.
pub record Face : Type 0 where
  pub image : Bytes
  pub text : Bytes
  pub font_size : ℕ
  pub font_weight : ℕ
  pub is_checked : Bool
  pub subtitle : Bytes
  pub badge : Bytes

mutual
  -- The implementations of `Itemer`. A `MenuItem` is at a pointer, and may have a submenu.
  pub data Itemer : Type 0 where
    menu_item : ℕ → Face → Submenu → Itemer
    separator_item : Itemer
    header_item : Bytes → Itemer
    section : Bytes → Itemer → Itemer
    sections menu_items : Itemers → Itemer
    dynamic_item : Submenu → Itemer

  pub data Submenu : Type 0 where
    no_submenu : Submenu
    submenu : Itemer → Submenu

  pub data Itemers : Type 0 where
    no_items : Itemers
    items : Itemer → Itemers → Itemers

mutual
  -- `C.MenuItem`: a regular node has its `unique`, and whether it is clickable.
  pub data Node : Type 0 where
    separator : Node
    section_header : Bytes → Node
    regular : Bytes → Face → Bool → Nodes → Node

  pub data Nodes : Type 0 where
    no_nodes : Nodes
    nodes : Node → Nodes → Nodes

unfoldable pub append : Nodes → Nodes → Nodes
append no_nodes ms = ms
append (nodes n ns) ms = nodes n (append ns ms)

-- `menuitems`, the `unique` of each item, its `Clicked` (the number of a function), and how many keys
-- `rand.Text` has given.
pub record State : Type 0 where
  pub menuitems : WeakMap
  pub unique : ℕ → Option Bytes
  pub clicked : ℕ → Option ℕ
  pub draws : ℕ

-- What is drawn so far, or `none` where `StoreRandom` still runs.
abbrev pub Drawn {ℓ} : Type ℓ → Type ℓ
Drawn A = Option (A × State)

unfoldable pub and_then : {A B : Type 0} → Drawn A → (A → State → Drawn B) → Drawn B
and_then none next = none
and_then (some (a, s)) next = next a s

unfoldable pub set_unique : ℕ → Bytes → State → State
set_unique p key s = record s { unique = λ q. if q == p then some key else s.unique q }

-- `i.unique.CompareAndSwap(nil, &key)`, and what follows where another key is set already.
unfoldable pub claim : ℕ → Bytes → State → Bytes × State
unfolding remove set_unique
claim p key s = elim (s.unique p) [
  | none ↦ (key, set_unique p key s)
  | some u ↦ (u, record s { menuitems = remove key s.menuitems })
]

-- `i.Clicked != nil`
unfoldable pub is_some : Option ℕ → Bool
is_some none = false
is_some (some f) = true

module _ (keys : ℕ → Bytes) where
  -- The `unique` of an item, which gets a random key at first.
  unfoldable pub unique_of : ℕ → State → Drawn Bytes
  unfolding store_random claim
  unique_of p s = elim (s.unique p) [
    | some u ↦ some (u, s)
    | none ↦ elim (store_random keys (suc (length s.menuitems.m)) s.draws p s.menuitems) [
      | none ↦ none
      | some (key, (n, m)) ↦ some (claim p key (record s { menuitems = m; draws = n }))
    ]
  ]

  unfoldable mutual
    unfolding unique_of and_then append is_some

    -- `item` of each implementation.
    pub item : Itemer → State → Drawn Nodes
    item (menu_item p face sub) s = and_then (unique_of p s) λ u s'.
        and_then (submenu_item sub s')
          λ ns s''. some (nodes (regular u face (is_some (s'.clicked p)) ns) no_nodes, s'')
    item separator_item s = some (nodes separator no_nodes, s)
    item (header_item text) s = some (nodes (section_header text) no_nodes, s)
    item (section title content) s =
        and_then (item content s) λ ns s'. some (nodes (section_header title) ns, s')
    item (sections its) s = section_items its s
    item (menu_items its) s = to_menu_items its s
    item (dynamic_item sub) s = submenu_item sub s

    pub submenu_item : Submenu → State → Drawn Nodes
    submenu_item no_submenu s = some (no_nodes, s)
    submenu_item (submenu it) s = item it s

    -- `toMenuItems`
    pub to_menu_items : Itemers → State → Drawn Nodes
    to_menu_items no_items s = some (no_nodes, s)
    to_menu_items (items it its) s =
        and_then (item it s)
          λ ns s'. and_then (to_menu_items its s') λ ms s''. some (append ns ms, s'')

    -- `Sections.item`: a separator behind each item, but not behind the last.
    pub section_items : Itemers → State → Drawn Nodes
    section_items no_items s = some (no_nodes, s)
    section_items (items it no_items) s = item it s
    section_items (items it its) s = and_then (item it s) λ ns s'.
        and_then (section_items its s') λ ms s''. some (append ns (nodes separator ms), s'')

-- `goItemClicked`: the function that runs.
unfoldable pub go_item_clicked : Bytes → State → Option ℕ × State
unfolding load
go_item_clicked key s =
    let (found, m) = load key s.menuitems in
    let s' = record s { menuitems = m } in
    elim found [ none ↦ (none, s') | some p ↦ (s.clicked p, s') ]
