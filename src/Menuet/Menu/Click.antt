-- ===== src/Menuet/Menu/Click.antt =====
-- The menu that is built shows the items, and a click runs the function of its item.
use flakes.Common.{
  inl, inr, ℕ, suc, ◌<◌, ◌≡◌, refl, ap, Bool, if◌then◌else◌, Option, none, some, Bytes, get, put,
  get-put, bytes_cases, bytes_eq_iff, arith,
}
use flakes.Syncutil.WeakMap.{load, store_random, value_of, delete_if}
use flakes.Menuet.Menu.{
  Face, Itemer, menu_item, separator_item, header_item, section, sections, menu_items, dynamic_item,
  Submenu, no_submenu, submenu, Itemers, no_items, items, Node, separator, section_header, regular,
  Nodes, no_nodes, nodes, append, State, Drawn, and_then, set_unique, claim, unique_of, is_some,
  item, submenu_item, to_menu_items, section_items, go_item_clicked,
}

mutual
  -- What a menu shows, in its order: an item by its pointer.
  pub data Row : Type 0 where
    line : Row
    title : Bytes → Row
    entry : ℕ → Face → Rows → Row

  pub data Rows : Type 0 where
    no_rows : Rows
    rows : Row → Rows → Rows

unfoldable pub above : Rows → Rows → Rows
above no_rows below = below
above (rows r rs) below = rows r (above rs below)

unfoldable mutual
  unfolding above

  -- The rows of an item: a section is its title and its rows, and sections have a line between them.
  pub rows_of : Itemer → Rows
  rows_of (menu_item p face sub) = rows (entry p face (rows_below sub)) no_rows
  rows_of separator_item = rows line no_rows
  rows_of (header_item text) = rows (title text) no_rows
  rows_of (section text content) = rows (title text) (rows_of content)
  rows_of (sections its) = between its
  rows_of (menu_items its) = all_rows its
  rows_of (dynamic_item sub) = rows_below sub

  pub rows_below : Submenu → Rows
  rows_below no_submenu = no_rows
  rows_below (submenu it) = rows_of it

  pub all_rows : Itemers → Rows
  all_rows no_items = no_rows
  all_rows (items it its) = above (rows_of it) (all_rows its)

  pub between : Itemers → Rows
  between no_items = no_rows
  between (items it its) = above (rows_of it) (with_lines its)

  pub with_lines : Itemers → Rows
  with_lines no_items = no_rows
  with_lines (items it its) = rows line (above (rows_of it) (with_lines its))

-- The nodes of rows, where the `unique` of each item is one that `P` holds of.
mutual
  pub data IsShown (clicked : ℕ → Option ℕ) (P : Bytes → ℕ → Type 0) : Nodes → Rows → Type 0 where
    shown_none : IsShown clicked P no_nodes no_rows
    shown_rows :
        {n : Node} {ns : Nodes} {r : Row} {rs : Rows}
        → IsShownAs clicked P n r
        → IsShown clicked P ns rs
        → IsShown clicked P (nodes n ns) (rows r rs)

  pub data IsShownAs (clicked : ℕ → Option ℕ) (P : Bytes → ℕ → Type 0) : Node → Row → Type 0 where
    as_line : IsShownAs clicked P separator line
    as_title : {text : Bytes} → IsShownAs clicked P (section_header text) (title text)
    as_entry :
        {u : Bytes} {p : ℕ} {face : Face} {ns : Nodes} {rs : Rows}
        → P u p
        → IsShown clicked P ns rs
        → IsShownAs clicked P (regular u face (is_some (clicked p)) ns) (entry p face rs)

module _ {c : ℕ → Option ℕ} where
  mutual
    map-IsShown :
        {P Q : Bytes → ℕ → Type 0} {ns : Nodes} {rs : Rows}
        → ((u : Bytes) (p : ℕ) → P u p → Q u p)
        → IsShown c P ns rs
        → IsShown c Q ns rs
    map-IsShown f shown_none = shown_none
    map-IsShown f (shown_rows a b) = shown_rows (map-IsShownAs f a) (map-IsShown f b)

    map-IsShownAs :
        {P Q : Bytes → ℕ → Type 0} {n : Node} {r : Row}
        → ((u : Bytes) (p : ℕ) → P u p → Q u p)
        → IsShownAs c P n r
        → IsShownAs c Q n r
    map-IsShownAs f as_line = as_line
    map-IsShownAs f as_title = as_title
    map-IsShownAs f (as_entry x a) = as_entry (f _ _ x) (map-IsShown f a)

  append-IsShown :
      {P : Bytes → ℕ → Type 0} {ns ms : Nodes} {rs qs : Rows}
      → IsShown c P ns rs
      → IsShown c P ms qs
      → IsShown c P (append ns ms) (above rs qs)
  unfolding append above
  append-IsShown shown_none b = b
  append-IsShown (shown_rows a as') b = shown_rows a (append-IsShown as' b)

above-no_rows : (rs : Rows) → above rs no_rows ≡ rs
unfolding above
above-no_rows no_rows = refl
above-no_rows (rows r rs) = ap (λ q. rows r q) (above-no_rows rs)

and_then-some :
    {A B : Type 0} {d : Drawn A} (next : A → State → Drawn B) {a : A} {s : State} {r : Drawn B}
    → d ≡ some (a, s)
    → next a s ≡ r
    → and_then d next ≡ r
unfolding and_then
and_then-some next e e' = rw (e) e'

-- The keys in use are drawn ones, and the one of an item is its own; no item changes its function,
-- and what is alive stays the same, while a menu is built.
pub record IsKeyed (keys : ℕ → Bytes) (clicked : ℕ → Option ℕ) (alive : ℕ → Bool) (s : State)
    : Type 0 where
  pub same_clicked : s.clicked ≡ clicked
  pub same_alive : s.menuitems.is_alive ≡ alive
  pub uniques : (p : ℕ) (u : Bytes) → s.unique p ≡ some u → get u s.menuitems.m ≡ some p
  pub drawn :
      (u : Bytes) (p : ℕ) → get u s.menuitems.m ≡ some p → (i : ℕ) × (i < s.draws) × (keys i ≡ u)

-- The key `u` leads to the item at `p`.
abbrev Has : State → Bytes → ℕ → Type 0
Has s u p = get u s.menuitems.m ≡ some p

abbrev Grows : State → State → Type 0
Grows s s' = (u : Bytes) (p : ℕ) → Has s u p → Has s' u p

module _ (keys : ℕ → Bytes) (no_repeat : (i j : ℕ) → keys i ≡ keys j → i ≡ j)
    (clicked : ℕ → Option ℕ) (alive : ℕ → Bool) where
  -- The next key is free.
  drawn-free :
      (s : State) (o : Option ℕ)
      → get (keys s.draws) s.menuitems.m ≡ o
      → IsKeyed keys clicked alive s
      → o ≡ none
  drawn-free s none e keyed = refl
  drawn-free s (some p) e keyed =
      let (i, below, same) = keyed.drawn (keys s.draws) p e in
      absurd (ground (arith, below, no_repeat i s.draws same))

  next-free : (s : State) → IsKeyed keys clicked alive s → get (keys s.draws) s.menuitems.m ≡ none
  next-free s keyed = drawn-free s _ refl keyed

  -- The state behind the first drawing of an item.
  abbrev keyed_at : ℕ → State → State
  keyed_at p s = set_unique p (keys s.draws) (record s {
    menuitems = record s.menuitems { m = put (keys s.draws) p s.menuitems.m };
    draws = suc s.draws;
  })

  claimed-IsKeyed :
      (p : ℕ) (s : State)
      → s.unique p ≡ none
      → IsKeyed keys clicked alive s
      → IsKeyed keys clicked alive (keyed_at p s)
  unfolding set_unique
  claimed-IsKeyed p s unset keyed = record {
    same_clicked = keyed.same_clicked;
    same_alive = keyed.same_alive;
    uniques = λ q u e. ground (
      arith,
      get-put (keys s.draws) u p s.menuitems.m,
      bytes_eq_iff (keys s.draws) u,
      e,
      unset,
      keyed.uniques q u,
      next-free s keyed,
    );
    drawn = λ u q e. elim (bytes_cases (keys s.draws) u) [
      | inl (same, _) ↦ (s.draws, omega arith, same)
      | inr (_, other) ↦
          let (i, below, h) =
            keyed.drawn u q (ground (arith, get-put (keys s.draws) u p s.menuitems.m, other, e)) in
          (i, omega arith, h)
    ];
  }

  unique_of-IsKeyed :
      (p : ℕ) (s : State) (o : Option Bytes)
      → s.unique p ≡ o
      → IsKeyed keys clicked alive s
      → (u : Bytes) × (s' : State) × (unique_of keys p s ≡ some (u, s'))
        × IsKeyed keys clicked alive s'
        × Has s' u p
        × Grows s s'
  unfolding unique_of claim store_random
  unique_of-IsKeyed p s (some u) e keyed =
      (u, s, rw (unique_of, e) refl, keyed, keyed.uniques p u e, λ v q h. h)
  unique_of-IsKeyed p s none e keyed = (
    keys s.draws,
    keyed_at p s,
    rw (unique_of, e, store_random, next-free s keyed, claim, e) refl,
    claimed-IsKeyed p s e keyed,
    ground (
      arith,
      get-put (keys s.draws) (keys s.draws) p s.menuitems.m,
      bytes_eq_iff (keys s.draws) (keys s.draws),
    ),
    λ v q h. ground (
      arith,
      get-put (keys s.draws) v p s.menuitems.m,
      bytes_eq_iff (keys s.draws) v,
      next-free s keyed,
      h,
    ),
  )

  -- `d` draws these rows, into a state in which every key still leads to its item.
  abbrev Draws : State → Drawn Nodes → Rows → Type 0
  Draws s d rs =
      (ns : Nodes) × (s' : State) × (d ≡ some (ns, s'))
      × IsKeyed keys clicked alive s'
      × Grows s s'
      × IsShown clicked (Has s') ns rs

  mutual
    unfolding item append rows_of above

    item-Draws :
        (it : Itemer) (s : State)
        → IsKeyed keys clicked alive s
        → Draws s (item keys it s) (rows_of it)
    item-Draws (menu_item p face sub) s keyed =
        let (u, s', e, keyed', has, grows) = unique_of-IsKeyed p s (s.unique p) refl keyed in
        let (ns, s'', e', keyed'', grows', shown) = submenu-Draws sub s' keyed' in
        (
          nodes (regular u face (is_some (clicked p)) ns) no_nodes,
          s'',
          and_then-some _ e (
              and_then-some _ e' (
                ap (λ c. some (nodes (regular u face (is_some (c p)) ns) no_nodes, s''))
                  keyed'.same_clicked)),
          keyed'',
          (λ v q h. grows' v q (grows v q h)),
          shown_rows (as_entry (grows' u p has) shown) shown_none,
        )
    item-Draws separator_item s keyed =
        (nodes separator no_nodes, s, refl, keyed, (λ v q h. h), shown_rows as_line shown_none)
    item-Draws (header_item text) s keyed = (
      nodes (section_header text) no_nodes,
      s,
      refl,
      keyed,
      (λ v q h. h),
      shown_rows as_title shown_none,
    )
    item-Draws (section text content) s keyed =
        let (ns, s', e, keyed', grows, shown) = item-Draws content s keyed in
        (
          nodes (section_header text) ns,
          s',
          and_then-some _ e refl,
          keyed',
          grows,
          shown_rows as_title shown,
        )
    item-Draws (sections its) s keyed = sections-Draws its s keyed
    item-Draws (menu_items its) s keyed = items-Draws its s keyed
    item-Draws (dynamic_item sub) s keyed = submenu-Draws sub s keyed

    submenu-Draws :
        (sub : Submenu) (s : State)
        → IsKeyed keys clicked alive s
        → Draws s (submenu_item keys sub s) (rows_below sub)
    submenu-Draws no_submenu s keyed = (no_nodes, s, refl, keyed, (λ v q h. h), shown_none)
    submenu-Draws (submenu it) s keyed = item-Draws it s keyed

    items-Draws :
        (its : Itemers) (s : State)
        → IsKeyed keys clicked alive s
        → Draws s (to_menu_items keys its s) (all_rows its)
    items-Draws no_items s keyed = (no_nodes, s, refl, keyed, (λ v q h. h), shown_none)
    items-Draws (items it its) s keyed =
        let (ns, s', e, keyed', grows, shown) = item-Draws it s keyed in
        let (ms, s'', e', keyed'', grows', shown') = items-Draws its s' keyed' in
        (
          append ns ms,
          s'',
          and_then-some _ e (and_then-some _ e' refl),
          keyed'',
          (λ v q h. grows' v q (grows v q h)),
          append-IsShown (map-IsShown grows' shown) shown',
        )

    sections-Draws :
        (its : Itemers) (s : State)
        → IsKeyed keys clicked alive s
        → Draws s (section_items keys its s) (between its)
    sections-Draws no_items s keyed = (no_nodes, s, refl, keyed, (λ v q h. h), shown_none)
    sections-Draws (items it no_items) s keyed =
        rw (above-no_rows (rows_of it)) (item-Draws it s keyed)
    sections-Draws (items it (items it' its)) s keyed =
        let (ns, s', e, keyed', grows, shown) = item-Draws it s keyed in
        let (ms, s'', e', keyed'', grows', shown') = sections-Draws (items it' its) s' keyed' in
        (
          append ns (nodes separator ms),
          s'',
          and_then-some _ e (and_then-some _ e' refl),
          keyed'',
          (λ v q h. grows' v q (grows v q h)),
          append-IsShown (map-IsShown grows' shown) (shown_rows as_line shown'),
        )

  click-function :
      (s : State)
      → IsKeyed keys clicked alive s
      → (u : Bytes) (p : ℕ) → Has s u p
      → (go_item_clicked u s).0 ≡ (if alive p then clicked p else none)
  unfolding go_item_clicked load value_of delete_if
  click-function s keyed u p has =
      ground (arith, has, ap (λ f. f p) keyed.same_alive, ap (λ f. f p) keyed.same_clicked)

  -- Every menu is drawn, with a key for each item that has none yet. Where the keys of `rand.Text` do
  -- not repeat, it shows the rows of the items, in their order, and a click at a node runs the function
  -- of the item at its place, as long as that item is alive; keys of menus drawn before stay good.
  pub item-shows :
      (it : Itemer) (s : State)
      → IsKeyed keys clicked alive s
      → (ns : Nodes) × (s' : State) × (item keys it s ≡ some (ns, s'))
        × IsKeyed keys clicked alive s'
        × ((u : Bytes) (p : ℕ) → Has s u p → Has s' u p)
        × IsShown clicked
            (λ u p. (go_item_clicked u s').0 ≡ (if alive p then clicked p else none))
            ns
            (rows_of it)
  item-shows it s keyed =
      let (ns, s', e, keyed', grows, shown) = item-Draws it s keyed in
      (ns, s', e, keyed', grows, map-IsShown (click-function s' keyed') shown)
