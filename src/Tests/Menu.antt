-- ===== src/Tests/Menu.antt =====
-- pkg/menuet/menu.go on a small menu.
use flakes.Menuet.Notification.{set_notification_categories}
use flakes.Common.{
  ℕ, ◌+◌, ◌≡◌, refl, ◌∷◌, [], Bool, true, false, Option, some, none, Bytes, codes, get,
  if◌then◌else◌,
}
use flakes.Menuet.Menu.{
  Face, Itemer, menu_item, section, sections, menu_items, no_submenu, submenu, no_items, items,
  Nodes, State, item, go_item_clicked,
}
use flakes.Menuet.Menu.Click.{IsKeyed, item-shows, rows_of, IsShown}

abbrev key_of : ℕ → Bytes
key_of n = n ∷ []

abbrev function_of : ℕ → Option ℕ
function_of p = some (p + 100)

abbrev all_alive : ℕ → Bool
all_alive p = true

abbrev first_state : State
first_state = record {
  menuitems = record { m = []; is_alive = all_alive; cleanups = [] };
  unique = λ p. none;
  clicked = function_of;
  draws = 0;
}

first_state-IsKeyed : IsKeyed key_of function_of all_alive first_state
unfolding get
first_state-IsKeyed = record {
  same_clicked = refl;
  same_alive = refl;
  uniques = λ p u e. absurd cc;
  drawn = λ u p e. absurd cc;
}

abbrev face : Face
face = record {
  image = [];
  text = codes "connect";
  font_size = 14;
  font_weight = 0;
  is_checked = false;
  subtitle = [];
  badge = [];
}

abbrev two_sections : Itemer
two_sections = sections (
    items (section (codes "proxies") (menu_items (items (menu_item 1 face no_submenu) no_items)))
      (items (menu_item 2 face (submenu (menu_item 1 face no_submenu))) no_items))

item-shows_example :
    (ns : Nodes) × (s' : State) × (item key_of two_sections first_state ≡ some (ns, s'))
    × IsKeyed key_of function_of all_alive s'
    × ((u : Bytes) (p : ℕ) → get u first_state.menuitems.m ≡ some p → get u s'.menuitems.m ≡ some p)
    × IsShown function_of
        (λ u p. (go_item_clicked u s').0 ≡ (if all_alive p then function_of p else none))
        ns
        (rows_of two_sections)
item-shows_example =
    item-shows key_of (λ i j e. cc) function_of all_alive two_sections first_state
      first_state-IsKeyed

-- The node of a category stays allocated.
kept_node :
    (set_notification_categories
      (record { identifier = codes "otp"; actions = []; options = 0 } ∷ [])
      (record { categories = []; shown = []; removed = []; allocated = 0; freed = 0 })).freed
    ≡ 0
unfolding set_notification_categories
kept_node = refl
