-- ===== src/Menu/Nav.antt =====
-- system/internal/logic/menu_nav.go: the navigation that a user sees, and the queries that it makes,
-- of system/internal/dao/menu.go and role.go.

pub mod Members
pub mod Shown
pub mod Permitted
use ai_dandelion.Base.{
  ℕ, String, Bool, true, false, not, ◌&&◌, ◌||◌, Option, none, some, List, [], ◌∷◌, ◌++◌, ◌==◌, ltb,
  if◌then◌else◌, str_eq, str_less, is_empty, trim_space, any, select, map,
}
use Prim.Native.String.{◌++◌ as ◌<>◌}
use ai_dandelion.Db.{query, pure, ◌>>=◌}
use ai_dandelion.Auth.Model.{Role, UserRole, role_status_enabled}
use ai_dandelion.Menu.Model.{
  Menu, RoleMenu, Tables, MenuAction, menu_status_enabled, menu_visible_yes, placement_platform,
  placement_module_nav,
}
use ai_dandelion.Menu.Access.{has, menu_ids_to_set, expand_allowed_menu_ids}
use ai_dandelion.Menu.Tree.{
  MenuView, Forest, no_trees, tree, Tree, node, view_of, model_menu_to_proto, sort_menus,
  sort_trees, build_menu_tree,
}

-- dao.MenuListFilter; an empty text and the status 0 are no condition.
pub record MenuListFilter : Type 0 where
  pub module_name : String
  pub placement : String
  pub status : ℕ

abbrev pub passes : MenuListFilter → Menu → Bool
passes f m =
    (is_empty f.module_name || str_eq m.module_name f.module_name)
    && (is_empty f.placement || str_eq m.placement f.placement)
    && (f.status == 0 || m.status == f.status)

-- ORDER BY sort ASC, created_at ASC
unfoldable pub row_before : Menu → Menu → Bool
row_before a b = if a.sort == b.sort then ltb a.created_at b.created_at else ltb a.sort b.sort

unfoldable pub insert_row : Menu → List Menu → List Menu
unfolding row_before
insert_row m [] = m ∷ []
insert_row m (x ∷ xs) =
    let rest = insert_row m xs in if row_before x m then x ∷ rest else m ∷ x ∷ xs

unfoldable pub sort_rows : List Menu → List Menu
unfolding insert_row
sort_rows [] = []
sort_rows (m ∷ ms) = insert_row m (sort_rows ms)

unfoldable pub rows_of : MenuListFilter → Tables → List Menu
unfolding sort_rows
rows_of f t = sort_rows (select (passes f) t.menus)

unfoldable pub list_menu_rows : MenuListFilter → MenuAction (List Menu)
unfolding rows_of
list_menu_rows f = query (rows_of f)

abbrev pub role_enabled_in : List Role → String → Bool
role_enabled_in roles id = any (λ r. str_eq r.id id && r.status == role_status_enabled) roles

-- The join of a grant with the roles of the user that are enabled.
abbrev pub is_granted : String → Tables → RoleMenu → Bool
is_granted user t g =
    any
      (λ x.
        str_eq x.role_id g.role_id && role_enabled_in t.roles x.role_id && str_eq x.user_id user)
      t.user_roles

-- DISTINCT
unfoldable pub distinct_ids : List String → List String
unfolding has
distinct_ids [] = []
distinct_ids (id ∷ ids) = let rest = distinct_ids ids in if has id rest then rest else id ∷ rest

unfoldable pub granted_ids : String → Tables → List String
unfolding distinct_ids
granted_ids user t = distinct_ids (map (λ g. g.menu_id) (select (is_granted user t) t.role_menus))

unfoldable pub list_menu_ids_by_user : String → MenuAction (List String)
unfolding granted_ids
list_menu_ids_by_user user = query (granted_ids user)

unfoldable pub filter_proto_menus_by_allowed : List MenuView → List String → List MenuView
unfolding has
filter_proto_menus_by_allowed items [] = []
filter_proto_menus_by_allowed items (id ∷ ids) = select (λ v. has v.id (id ∷ ids)) items

-- A menu that the code makes up, with its id, its module and its view.
abbrev pub made_up : String → String → String → MenuView
made_up id name view_key = record {
  id = id;
  parent_id = "";
  module_name = name;
  placement = "";
  name = name;
  code = "";
  view_key = view_key;
  icon = "";
  menu_type = 0;
  sort = 0;
  status = 0;
  visible = 0;
  is_default = false;
  remark = "";
  source_type = "";
  source_id = "";
  created_at = 0;
}

abbrev pub orphan_view : String → MenuView
orphan_view name = made_up ("orphan:" <> name) name ""

abbrev pub module_view : String → MenuView
module_view name = made_up ("module:" <> name) name name

-- The keys of the map `navByModule`, sorted.
unfoldable pub insert_name : String → List String → List String
insert_name x [] = x ∷ []
insert_name x (y ∷ ys) =
    let rest = insert_name x ys in
    if str_eq x y then y ∷ ys else if str_less y x then y ∷ rest else x ∷ y ∷ ys

unfoldable pub module_names : List MenuView → List String
unfolding insert_name
module_names [] = []
module_names (v ∷ vs) = insert_name v.module_name (module_names vs)

abbrev pub of_module : String → MenuView → Bool
of_module name v = str_eq v.module_name name

unfoldable mutual
  pub collect_nav_menus_by_module : String → Forest → List MenuView
  collect_nav_menus_by_module name no_trees = []
  collect_nav_menus_by_module name (tree t ts) =
      collect_tree name t ++ collect_nav_menus_by_module name ts

  pub collect_tree : String → Tree → List MenuView
  collect_tree name (node v children) =
      (if str_eq v.placement placement_module_nav && of_module name v then v ∷ [] else [])
      ++ collect_nav_menus_by_module name children

abbrev pub leads_to : String → MenuView → Bool
leads_to name v = str_eq v.module_name name || str_eq v.view_key name

-- The first root that leads to a module.
unfoldable pub root_of : String → Forest → Option Tree
root_of name no_trees = none
root_of name (tree t ts) =
    let rest = root_of name ts in if leads_to name (view_of t) then some t else rest

abbrev pub under_module : String → Forest → Forest
under_module name no_trees = no_trees
under_module name (tree t ts) = tree (node (module_view name) (sort_trees (tree t ts))) no_trees

unfoldable pub visible_views : List Menu → List MenuView
unfolding model_menu_to_proto
visible_views [] = []
visible_views (m ∷ ms) =
    let rest = visible_views ms in
    if m.visible == menu_visible_yes then model_menu_to_proto m ∷ rest else rest

-- `userID`: the user of the request's metadata, before the one that the request names.
abbrev pub nav_user : Option String → String → String
nav_user none requested = trim_space requested
nav_user (some id) requested = id

module _ (order : List MenuView → List MenuView) where
  -- `children := buildMenuTree(items); sortMenus(children)`
  unfoldable pub children_of : List MenuView → Forest
  children_of items = sort_trees (build_menu_tree order items)

  unfoldable pub orphan_roots : List MenuView → List String → Forest
  unfolding children_of
  orphan_roots nav [] = no_trees
  orphan_roots nav (name ∷ names) =
      tree (node (orphan_view name) (children_of (select (of_module name) nav)))
        (orphan_roots nav names)

  -- The loop over the platform menus takes the entries of their modules out of the map, and the rest
  -- is shown after it.
  unfoldable pub nav_roots : List MenuView → List MenuView → Forest
  unfolding orphan_roots children_of module_names
  nav_roots [] nav = orphan_roots nav (module_names nav)
  nav_roots (p ∷ platforms) nav =
      tree (node p (children_of (select (of_module p.module_name) nav)))
        (nav_roots platforms (select (λ v. not (of_module p.module_name v)) nav))

  unfoldable pub build_unified_nav_tree : List MenuView → Forest
  unfolding nav_roots sort_menus
  build_unified_nav_tree items =
      nav_roots (sort_menus (select (λ v. str_eq v.placement placement_platform) items))
        (select (λ v. str_eq v.placement placement_module_nav) items)

  unfoldable pub found_or_collected : Forest → String → Option Tree → Forest
  unfolding collect_nav_menus_by_module
  found_or_collected roots name (some t) = tree t no_trees
  found_or_collected roots name none =
      under_module name (build_menu_tree order (collect_nav_menus_by_module name roots))

  unfoldable pub filter_nav_tree_by_module : Forest → String → Forest
  unfolding root_of found_or_collected
  filter_nav_tree_by_module roots name = found_or_collected roots name (root_of name roots)

  abbrev pub part_of : Forest → String → Forest
  part_of roots name = if is_empty name then roots else filter_nav_tree_by_module roots name

  unfoldable pub nav_tree_for : List Menu → List String → String → Forest
  unfolding visible_views filter_proto_menus_by_allowed build_unified_nav_tree
      filter_nav_tree_by_module menu_ids_to_set
  nav_tree_for menus ids name =
      let allowed = expand_allowed_menu_ids menus (menu_ids_to_set ids) in
      part_of (build_unified_nav_tree (filter_proto_menus_by_allowed (visible_views menus) allowed))
        (trim_space name)

  abbrev pub nav_tree_of : List Menu → String → List String → Forest
  nav_tree_of menus name [] = no_trees
  nav_tree_of menus name (id ∷ ids) = nav_tree_for menus (id ∷ ids) name

  -- `caller` is the user of the request's metadata.
  unfoldable pub get_nav_menus : Option String → String → String → MenuAction Forest
  unfolding list_menu_rows list_menu_ids_by_user nav_tree_for
  get_nav_menus caller requested name =
      list_menu_rows (record { module_name = ""; placement = ""; status = menu_status_enabled })
      >>= λ menus.
          if is_empty (nav_user caller requested)
          then pure no_trees
          else list_menu_ids_by_user (nav_user caller requested) >>= λ ids.
              pure (nav_tree_of menus name ids)
