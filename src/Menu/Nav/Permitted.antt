-- ===== src/Menu/Nav/Permitted.antt =====
-- What GetNavMenus shows to a user.
use ai_dandelion.Base.{
  String, ◌≡◌, refl, sym, subst, ◌⊎◌, inl, inr, true, ◌&&◌, List, [], ◌∷◌, map, select, any, str_eq,
  is_empty, trim_space, arith, Bool-cases, Option, some, ◌==◌,
}
use mathlib.Core.List.{Memᴰ}
use mathlib.Core.List.Memᴰ.{head, tail}
use ai_dandelion.Db.{World, ok, query}
use ai_dandelion.Menu.Model.{
  Menu, RoleMenu, Tables, Effect, menu_status_enabled, menu_visible_yes, placement_module_nav,
}
use ai_dandelion.Menu.Access.{has, by_id, is_platform_of, menu_ids_to_set, expand_allowed_menu_ids}
use ai_dandelion.Menu.Access.Closure.{Climbs, has_cons}
use ai_dandelion.Menu.Access.Allowed.{expand_allowed_menu_ids-Granted}
use ai_dandelion.Menu.Tree.{MenuView, Forest, no_trees, model_menu_to_proto}
use ai_dandelion.Menu.Tree.Rooted.{InForest}
use ai_dandelion.Menu.Tree.Whole.{IsOrder}
use ai_dandelion.Menu.Nav.{
  rows_of, passes, list_menu_rows, is_granted, distinct_ids, granted_ids, list_menu_ids_by_user,
  filter_proto_menus_by_allowed, visible_views, nav_user, nav_tree_for, nav_tree_of, get_nav_menus,
  MenuListFilter,
}
use ai_dandelion.Menu.Nav.Shown.{part_member}
use ai_dandelion.Menu.Nav.Members.{
  kept_cases, select_member, sort_rows_member, IsMadeUp, unified_member,
}

visible_member :
    (ms : List Menu) (v : MenuView)
    → Memᴰ v (visible_views ms)
    → (m : Menu) × Memᴰ m ms × (v ≡ model_menu_to_proto m) × (m.visible ≡ menu_visible_yes)
unfolding visible_views
visible_member [] v m = elim m [ ]
visible_member (x ∷ ms) v m =
    elim (kept_cases (x.visible == menu_visible_yes) v (model_menu_to_proto x) (visible_views ms)
      m) [
        | inl (e, h) ↦ (x, head refl, e, ground arith)
        | inr rest ↦ let (y, member, e, h) = visible_member ms v rest in (y, tail member, e, h)
      ]

allowed_member :
    (items : List MenuView) (allowed : List String) (v : MenuView)
    → Memᴰ v (filter_proto_menus_by_allowed items allowed)
    → Memᴰ v items × (has v.id allowed ≡ true)
unfolding filter_proto_menus_by_allowed
allowed_member items [] v m = elim m [ ]
allowed_member items (id ∷ ids) v m = select_member (λ u. has u.id (id ∷ ids)) items v m

has_set :
    (id : String) (ids : List String) → has id (menu_ids_to_set ids) ≡ true → has id ids ≡ true
unfolding menu_ids_to_set has
has_set id [] h = h
has_set id (x ∷ ids) h = ground (arith, has_set id ids)

has_distinct :
    (id : String) (ids : List String) → has id (distinct_ids ids) ≡ true → has id ids ≡ true
unfolding distinct_ids has
has_distinct id [] h = h
has_distinct id (x ∷ ids) h = ground (arith, has_distinct id ids)

has_menu_id :
    (id : String) (grants : List RoleMenu)
    → has id (map (λ g. g.menu_id) grants) ≡ true
    → (g : RoleMenu) × Memᴰ g grants × (g.menu_id ≡ id)
unfolding has
has_menu_id id [] h = ground arith
has_menu_id id (g ∷ grants) h = elim (has_cons id g.menu_id (map (λ g. g.menu_id) grants) h) [
  | inl same ↦ (g, head refl, same)
  | inr rest ↦ let (g', member, same) = has_menu_id id grants rest in (g', tail member, same)
]

nothing_in : {v : MenuView} → InForest v no_trees → ⊥
nothing_in m = elim m [ ]

-- An enabled role of the user grants the menu.
abbrev pub Grants : String → Tables → String → Type 0
Grants user t id =
    (g : RoleMenu) × Memᴰ g t.role_menus × (g.menu_id ≡ id) × (is_granted user t g ≡ true)

granted_ids-Grants :
    (user : String) (t : Tables) (id : String)
    → has id (menu_ids_to_set (granted_ids user t)) ≡ true
    → Grants user t id
unfolding granted_ids
granted_ids-Grants user t id h =
    let (g, member, same) =
      has_menu_id id (select (is_granted user t) t.role_menus)
        (has_distinct id _ (has_set id (granted_ids user t) h)) in
    let (inside, granted) = select_member (is_granted user t) t.role_menus g member in
    (g, inside, same, granted)

abbrev pub enabled_menus : MenuListFilter
enabled_menus = record { module_name = ""; placement = ""; status = menu_status_enabled }

-- A menu that is granted to the user, or above one that is, along enabled menus.
abbrev pub Reached : String → Tables → String → Type 0
Reached user t x = (id : String) × Grants user t id × Climbs (rows_of enabled_menus t) x id

-- A platform menu of a module with a navigation menu that the user reaches.
abbrev pub ReachedModule : String → Tables → String → Type 0
ReachedModule user t x =
    (id : String) × (m : Menu) × Reached user t id
    × (by_id (rows_of enabled_menus t) id ≡ some m)
    × (m.placement ≡ placement_module_nav)
    × (any (λ p. is_platform_of m.module_name p && str_eq p.id x) (rows_of enabled_menus t) ≡ true)

-- A menu as the database has it, that the user may see.
abbrev pub Permitted : String → Tables → MenuView → Type 0
Permitted user t v =
    (m : Menu) × Memᴰ m t.menus
    × (v ≡ model_menu_to_proto m)
    × (m.status ≡ menu_status_enabled)
    × (m.visible ≡ menu_visible_yes)
    × (Reached user t v.id ⊎ ReachedModule user t v.id)

allowed-Reached :
    (user : String) (t : Tables) (x : String)
    → has x
        (expand_allowed_menu_ids (rows_of enabled_menus t) (menu_ids_to_set (granted_ids user t)))
      ≡ true
    → Reached user t x ⊎ ReachedModule user t x
allowed-Reached user t x h =
    elim ((expand_allowed_menu_ids-Granted (rows_of enabled_menus t)
        (menu_ids_to_set (granted_ids user t)) x).0
      h) [
        | inl (id, member, above) ↦ inl (id, granted_ids-Grants user t id member, above)
        | inr (id, m, (seed, member, above), row, nav, found) ↦
            inr (id, m, (seed, granted_ids-Grants user t seed member, above), row, nav, found)
      ]

rows_member :
    (t : Tables) (m : Menu)
    → Memᴰ m (rows_of enabled_menus t)
    → Memᴰ m t.menus × (m.status ≡ menu_status_enabled)
unfolding rows_of
rows_member t m h =
    let (member, p) = select_member (passes enabled_menus) t.menus m (sort_rows_member m _ h) in
    (member, ground arith)

module _ (order : List MenuView → List MenuView) (whole : IsOrder order) where
  items-Permitted :
      (user : String) (t : Tables) (v : MenuView)
      → Memᴰ v (
          filter_proto_menus_by_allowed (visible_views (rows_of enabled_menus t)) (
            expand_allowed_menu_ids
              (rows_of enabled_menus t)
              (menu_ids_to_set (granted_ids user t))))
      → Permitted user t v
  items-Permitted user t v m =
      let (seen, allowed) = allowed_member _ _ v m in
      let (row, member, same, visible) = visible_member (rows_of enabled_menus t) v seen in
      let (inside, enabled) = rows_member t row member in
      (row, inside, same, enabled, visible, allowed-Reached user t v.id allowed)

  nav_tree-Permitted :
      (user name : String) (t : Tables) (v : MenuView)
      → InForest v (nav_tree_for order (rows_of enabled_menus t) (granted_ids user t) name)
      → Permitted user t v ⊎ IsMadeUp v
  unfolding nav_tree_for
  nav_tree-Permitted user name t v m = elim (part_member order whole _ (trim_space name) v m) [
    | inl inside ↦ elim (unified_member order whole _ v inside) [
      | inl member ↦ inl (items-Permitted user t v member)
      | inr made ↦ inr made
    ]
    | inr made ↦ inr made
  ]

  nav_tree_of-Permitted :
      (user name : String) (t : Tables) (v : MenuView) (ids : List String)
      → granted_ids user t ≡ ids
      → InForest v (nav_tree_of order (rows_of enabled_menus t) name ids)
      → Permitted user t v ⊎ IsMadeUp v
  nav_tree_of-Permitted user name t v [] e m = elim m [ ]
  nav_tree_of-Permitted user name t v (id ∷ ids) e m =
      nav_tree-Permitted user name t v
        (subst (λ l. InForest v (nav_tree_for order (rows_of enabled_menus t) l name)) (sym e) m)

  get_nav_menus_ok :
      (caller : Option String) (requested name : String) (w : World Tables Effect) {f : Forest}
      → (get_nav_menus order caller requested name w).0 ≡ ok f
      → (f ≡ no_trees)
        ⊎ (f
            ≡ nav_tree_of order
                (rows_of enabled_menus w.tables)
                name
                (granted_ids (nav_user caller requested) w.tables))
  unfolding get_nav_menus list_menu_rows list_menu_ids_by_user query
  get_nav_menus_ok caller requested name w h =
      elim (Bool-cases (is_empty (nav_user caller requested))) [
        | inl e ↦ inl (ground arith)
        | inr e ↦ inr (ground arith)
      ]

  -- GetNavMenus shows a user only menus as the database has them, enabled and visible, that an
  -- enabled role of the user grants, or that lie above a granted one, or that are the platform menu
  -- of a module with such a navigation menu, and the roots that it makes up for a module. The user
  -- is the one of the request's metadata; without one, it is the one that the request names.
  pub get_nav_menus-Permitted :
      (caller : Option String) (requested name : String) (w : World Tables Effect) {f : Forest}
      → (get_nav_menus order caller requested name w).0 ≡ ok f
      → (v : MenuView) → InForest v f
      → Permitted (nav_user caller requested) w.tables v ⊎ IsMadeUp v
  get_nav_menus-Permitted caller requested name w {f} h v m =
      elim (get_nav_menus_ok caller requested name w h) [
        | inl e ↦ absurd (nothing_in (subst (InForest v) e m))
        | inr e ↦
            nav_tree_of-Permitted (nav_user caller requested) name w.tables v _ refl
              (subst (InForest v) e m)
      ]
