-- ===== src/Navigation/Tests.antt =====
-- The theorems on navigation at concrete inputs.
use ai_dandelion.Base.{
  String, ◌≡◌, refl, true, false, some, [], ◌∷◌, any, find_last, find_first, select, take, length,
  trim_space, str_less, contains, has_prefix,
}
use mathlib.Core.List.Memᴰ.{head}
use ai_dandelion.Db.{ok, query}
use ai_dandelion.Json.{Entries, no_entries, entry, of_text, of_number, value_at, get, string_value}
use ai_dandelion.Menu.Model.{menu_type_menu}
use ai_dandelion.Menu.Access.{
  has, by_id, platform_by_module, menu_ids_to_set, visit_up, visit_seeds, add_platforms,
  expand_allowed_menu_ids,
}
use ai_dandelion.Menu.Tree.{
  MenuView, Forest, no_trees, tree, node, model_menu_to_proto, menu_less, insert_menu, sort_menus,
  insert_tree, sort_trees, distinct, no_links, link, link_all, trees_of, tree_at, links_of,
  build_menu_tree,
}
use ai_dandelion.Menu.Nav.{
  rows_of, sort_rows, insert_row, row_before, list_menu_rows, list_menu_ids_by_user, granted_ids,
  distinct_ids, filter_proto_menus_by_allowed, module_names, insert_name, children_of, orphan_roots,
  nav_roots, build_unified_nav_tree, visible_views, nav_tree_for, get_nav_menus,
  filter_nav_tree_by_module, found_or_collected, root_of, collect_nav_menus_by_module,
}
use ai_dandelion.Menu.Nav.Permitted.{Permitted}
use ai_dandelion.Menu.Sample.{platform, console, users, in_order, in_order-IsOrder, calm}
use ai_dandelion.Navigation.{
  Target, target_of, accepted, targets, string_input, flatten_navigation_targets,
  navigation_target_matches, listed, nav_menus, list_targets, navigate,
}
use ai_dandelion.Navigation.Targets.{navigate-Permitted}
use ai_dandelion.Navigation.Offered.{list_targets-navigate}

abbrev go_there : Entries
go_there = entry "targetId" (of_text " users") no_entries

abbrev search : Entries
search =
    entry "query" (of_text "user")
      (entry "module" (of_text "system") (entry "limit" (of_number 3) no_entries))

abbrev as_is : String → String
as_is s = s

abbrev users_page : Target
users_page = target_of (model_menu_to_proto users)

abbrev shown : Forest
shown =
    tree
      (node (model_menu_to_proto platform) (
        tree
          (node (model_menu_to_proto console)
            (tree (node (model_menu_to_proto users) no_trees) no_trees))
          no_trees))
      no_trees

nav_shows : (get_nav_menus in_order (some "u1") "u1" "" calm).0 ≡ ok shown
unfolding get_nav_menus list_menu_rows query rows_of sort_rows insert_row row_before select
    list_menu_ids_by_user granted_ids distinct_ids any nav_tree_for visible_views
    filter_proto_menus_by_allowed menu_ids_to_set has expand_allowed_menu_ids visit_seeds visit_up
    by_id find_last add_platforms platform_by_module build_unified_nav_tree nav_roots sort_menus
    insert_menu menu_less children_of sort_trees insert_tree build_menu_tree links_of link_all link
    no_links distinct trees_of tree_at orphan_roots module_names insert_name model_menu_to_proto
    trim_space str_less
nav_shows = refl

goes :
    (navigate in_order true false (some "u1") go_there calm).0
    ≡ ok (accepted "users" "system" "users" "static" "")
unfolding get_nav_menus list_menu_rows query rows_of sort_rows insert_row row_before select
    list_menu_ids_by_user granted_ids distinct_ids any nav_tree_for visible_views
    filter_proto_menus_by_allowed menu_ids_to_set has expand_allowed_menu_ids visit_seeds visit_up
    by_id find_last add_platforms platform_by_module build_unified_nav_tree nav_roots sort_menus
    insert_menu menu_less children_of sort_trees insert_tree build_menu_tree links_of link_all link
    no_links distinct trees_of tree_at orphan_roots module_names insert_name model_menu_to_proto
    trim_space str_less navigate nav_menus flatten_navigation_targets find_first value_at get
    string_value
goes = refl

navigate-Permitted_example :
    (v : MenuView) × Permitted "u1" calm.tables v
    × (v.menu_type ≡ menu_type_menu)
    × (v.id ≡ trim_space (string_input "targetId" go_there))
    × (accepted "users" "system" "users" "static" ""
        ≡ accepted v.id v.module_name v.view_key v.source_type v.source_id)
navigate-Permitted_example =
    navigate-Permitted in_order in_order-IsOrder true false (some "u1") go_there calm goes

finds :
    (list_targets in_order true false as_is (some "u1") search calm).0
    ≡ ok (targets (users_page ∷ []) 1)
unfolding get_nav_menus list_menu_rows query rows_of sort_rows insert_row row_before select
    list_menu_ids_by_user granted_ids distinct_ids any nav_tree_for visible_views
    filter_proto_menus_by_allowed menu_ids_to_set has expand_allowed_menu_ids visit_seeds visit_up
    by_id find_last add_platforms platform_by_module build_unified_nav_tree nav_roots sort_menus
    insert_menu menu_less children_of sort_trees insert_tree build_menu_tree links_of link_all link
    no_links distinct trees_of tree_at orphan_roots module_names insert_name model_menu_to_proto
    trim_space str_less list_targets nav_menus flatten_navigation_targets listed
    navigation_target_matches take length value_at get string_value filter_nav_tree_by_module
    root_of found_or_collected collect_nav_menus_by_module contains has_prefix
finds = refl

plain_id : trim_space users_page.id ≡ users_page.id
unfolding trim_space model_menu_to_proto
plain_id = refl

names_it : string_input "targetId" go_there ≡ users_page.id
unfolding trim_space model_menu_to_proto value_at get string_value
names_it = refl

list_targets-navigate_example :
    (m : String) × (k : String) × (st : String) × (si : String) × ((navigate in_order true false
        (some "u1")
        go_there
        calm).0
      ≡ ok (accepted users_page.id m k st si))
list_targets-navigate_example =
    list_targets-navigate in_order in_order-IsOrder as_is (some "u1") search go_there calm calm
      finds nav_shows refl users_page (head refl) plain_id names_it
