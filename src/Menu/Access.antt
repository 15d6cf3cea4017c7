-- ===== src/Menu/Access.antt =====
-- system/internal/logic/menu_access.go: the menus that the grants of a user allow. A set of ids is
-- a list of them, in the order in which they were added: the order of iteration of a map is the
-- order of the list `seed`, and the theorems hold for any.
pub mod Count
pub mod Closure
pub mod Allowed
use ai_dandelion.Base.{
  ℕ, zero, suc, String, Bool, true, false, not, ◌&&◌, ◌||◌, Option, none, some, List, [], ◌∷◌, ◌++◌,
  map, length, find_last, select, str_eq, is_empty, if◌then◌else◌,
}
use ai_dandelion.Menu.Model.{Menu, menu_is, placement_platform, placement_module_nav}

unfoldable pub has : String → List String → Bool
has x [] = false
has x (y ∷ ys) = if str_eq y x then true else has x ys

-- The map `byID`: a later row replaces an earlier one with the same id.
unfoldable pub by_id : List Menu → String → Option Menu
by_id all id = find_last (menu_is id) all

abbrev pub is_platform_of : String → Menu → Bool
is_platform_of name m =
    str_eq m.placement placement_platform
    && not (is_empty m.module_name)
    && str_eq m.module_name name

-- `platformByModule[module]`
unfoldable pub platform_by_module : List Menu → String → List Menu
platform_by_module all name = select (is_platform_of name) all

unfoldable pub menu_ids_to_set : List String → List String
unfolding has
menu_ids_to_set [] = []
menu_ids_to_set (id ∷ ids) =
    let rest = menu_ids_to_set ids in
    if is_empty id then rest else if has id rest then rest else id ∷ rest

abbrev pub ids_of : List Menu → List String
ids_of = map (λ m. m.id)

module _ (all : List Menu) where
  -- `visitUp`: the fuel bounds the depth of the recursion.
  unfoldable pub visit_up : ℕ → String → List String → List String
  unfolding has
  visit_up zero id allowed = allowed
  visit_up (suc n) id allowed = elim (is_empty id || has id allowed) [
    | true ↦ allowed
    | false ↦ elim (by_id all id) [
      | none ↦ allowed
      | some m ↦ visit_up n m.parent_id (id ∷ allowed)
    ]
  ]

  unfoldable pub visit_seeds : ℕ → List String → List String → List String
  visit_seeds n [] allowed = allowed
  visit_seeds n (id ∷ seed) allowed = visit_seeds n seed (visit_up n id allowed)

  abbrev pub nav_platforms : Option Menu → List String
  nav_platforms none = []
  nav_platforms (some m) =
      if not (str_eq m.placement placement_module_nav) || is_empty m.module_name
      then []
      else ids_of (platform_by_module all m.module_name)

  -- The second loop, over the ids allowed so far. The ids that it adds are platform menus, at which
  -- it does nothing, so that it does not matter whether the iteration meets them.
  unfoldable pub add_platforms : List String → List String → List String
  add_platforms [] allowed = allowed
  add_platforms (id ∷ ids) allowed = add_platforms ids (nav_platforms (by_id all id) ++ allowed)

  unfoldable pub expand_allowed_menu_ids : List String → List String
  expand_allowed_menu_ids seed =
      let up = visit_seeds (suc (length all)) seed [] in add_platforms up up
