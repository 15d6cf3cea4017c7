-- ===== src/Menu/Tests.antt =====
-- The theorems on menus at concrete inputs.
use ai_dandelion.Base.{
  count_where, update_where, ℕ, ◌≡◌, refl, sym, subst, ◌↔◌, ◌⊎◌, true, false, none, some, List, [],
  ◌∷◌, ◌++◌, any, find_first, find_last, select, is_empty, trim_space, str_less, arith,
}
use mathlib.Core.List.Memᴰ.{head, tail}
use ai_dandelion.Db.{ok, first as first_row, query, exec, insert, transaction, commit}
use ai_dandelion.Menu.Model.{pos, Menu, MenuInput, menu_visible_yes}
use ai_dandelion.Menu.Access.{
  has, by_id, platform_by_module, menu_ids_to_set, visit_up, visit_seeds, add_platforms,
  expand_allowed_menu_ids,
}
use ai_dandelion.Menu.Access.Allowed.{
  Granted, Platform, expand_allowed_menu_ids-Granted, visit_up_enough,
}
use ai_dandelion.Menu.Tree.{
  MenuView, Forest, no_trees, tree, node, model_menu_to_proto, menu_less, insert_menu, sort_menus,
  insert_tree, sort_trees, distinct, no_links, link, link_all, trees_of, tree_at, links_of,
  build_menu_tree,
}
use ai_dandelion.Menu.Tree.Rooted.{InForest, first, root, Rooted}
use ai_dandelion.Menu.Tree.Whole.{build_menu_tree-Rooted}
use ai_dandelion.Menu.Nav.{
  rows_of, sort_rows, insert_row, row_before, list_menu_rows, list_menu_ids_by_user, granted_ids,
  distinct_ids, filter_proto_menus_by_allowed, module_names, insert_name, children_of, orphan_roots,
  nav_roots, build_unified_nav_tree, visible_views, nav_tree_for, get_nav_menus,
}
use ai_dandelion.Menu.Nav.Members.{IsMadeUp}
use ai_dandelion.Menu.Nav.Permitted.{Permitted, get_nav_menus-Permitted}
use ai_dandelion.Menu.Input.{
  check_parent, suits, sort_of, required, menu_type_of, status_of, visible_of, validate_placement,
  menu_row, trimmed, operation_log, menu_audit,
}
use ai_dandelion.Menu.Edit.{
  MenuLogic, record_menu_change, numbers_of, complete_row, build_menu_from_input, store_new,
  create_menu, update_menu, delete_menu, enable_menu, disable_menu,
}
use ai_dandelion.Menu.Edit.Parents.{HasParent, HasParents}
use ai_dandelion.Menu.Edit.Invariant.{edits-HasParents}
use ai_dandelion.Menu.Edit.Created.{IsComplete, SuitsParent, create_menu_ok}
use ai_dandelion.Menu.Sample.{
  row, platform, console, users, menus, in_order, in_order-IsOrder, calm,
}
use ai_dandelion.Menu.Store.{
  get_menu, create, max_sort, greatest, create_log, clashes, reassign_id, reassign_rows,
  move_grants, move_grant, copy_grant, rename_row,
}
use ai_dandelion.Menu.Store.Reassigned.{IsReassigned, reassign_id-IsReassigned}

-- Two menus, each the parent of the other.
abbrev circle : List Menu
circle = row "a" "b" 1 1 ∷ row "b" "a" 1 1 ∷ []

visit_up_enough_example : visit_up circle 5 "a" [] ≡ visit_up circle 3 "a" []
visit_up_enough_example = visit_up_enough circle 5 "a" [] (omega arith)

expand_allowed_menu_ids-Granted_example :
    (has "sys" (expand_allowed_menu_ids menus ("users" ∷ [])) ≡ true)
    ↔ (Granted menus ("users" ∷ []) "sys" ⊎ Platform menus ("users" ∷ []) "sys")
expand_allowed_menu_ids-Granted_example = expand_allowed_menu_ids-Granted menus ("users" ∷ []) "sys"

sys_is_allowed : has "sys" (expand_allowed_menu_ids menus ("users" ∷ [])) ≡ true
unfolding has expand_allowed_menu_ids visit_seeds visit_up by_id find_last add_platforms
    platform_by_module select
sys_is_allowed = refl

hidden_is_not : has "hidden" (expand_allowed_menu_ids menus ("users" ∷ [])) ≡ false
unfolding has expand_allowed_menu_ids visit_seeds visit_up by_id find_last add_platforms
    platform_by_module select
hidden_is_not = refl

abbrev views : List MenuView
views = model_menu_to_proto users ∷ model_menu_to_proto console ∷ []

build_menu_tree-Rooted_example :
    InForest (model_menu_to_proto users) (build_menu_tree in_order views)
    ↔ Rooted (distinct views) (model_menu_to_proto users)
build_menu_tree-Rooted_example =
    build_menu_tree-Rooted in_order in_order-IsOrder views (model_menu_to_proto users)

abbrev circle_views : List MenuView
circle_views = model_menu_to_proto (row "a" "b" 1 1) ∷ model_menu_to_proto (row "b" "a" 1 1) ∷ []

-- Menus whose parents form a circle are not shown.
circle_is_lost : build_menu_tree in_order circle_views ≡ no_trees
unfolding build_menu_tree links_of link_all link no_links distinct any trees_of tree_at sort_trees
    model_menu_to_proto
circle_is_lost = refl

abbrev shown : Forest
shown =
    tree
      (node (model_menu_to_proto platform) (
        tree
          (node (model_menu_to_proto console)
            (tree (node (model_menu_to_proto users) no_trees) no_trees))
          no_trees))
      no_trees

nav_runs : (get_nav_menus in_order (some "u1") "" "" calm).0 ≡ ok shown
unfolding get_nav_menus list_menu_rows query rows_of sort_rows insert_row row_before select
    list_menu_ids_by_user granted_ids distinct_ids any nav_tree_for visible_views
    filter_proto_menus_by_allowed menu_ids_to_set has expand_allowed_menu_ids visit_seeds visit_up
    by_id find_last add_platforms platform_by_module build_unified_nav_tree nav_roots sort_menus
    insert_menu menu_less children_of sort_trees insert_tree build_menu_tree links_of link_all link
    no_links distinct trees_of tree_at orphan_roots module_names insert_name model_menu_to_proto
    trim_space str_less
nav_runs = refl

get_nav_menus-Permitted_example :
    Permitted "u1" calm.tables (model_menu_to_proto platform)
    ⊎ IsMadeUp (model_menu_to_proto platform)
get_nav_menus-Permitted_example =
    get_nav_menus-Permitted in_order in_order-IsOrder (some "u1") "" "" calm nav_runs
      (model_menu_to_proto platform) (first root)

abbrev request : MenuInput
request = record {
  parent_id = "console";
  module_name = " system";
  placement = "module_nav";
  name = "roles ";
  code = "roles";
  view_key = "";
  icon = "";
  menu_type = pos 2;
  sort = pos 0;
  status = pos 0;
  visible = pos 0;
  is_default = false;
  remark = "";
}

abbrev with_log : MenuLogic
with_log = record { has_log = true }

abbrev clock : ℕ → ℕ
clock n = n

abbrev created : Menu
created = record (row "m1" "console" 2 30) {
  name = "roles";
  code = "roles";
  view_key = "roles";
  created_at = 2;
  updated_at = 2;
}

create_runs :
    (create_menu with_log clock none "log1" "m1" request calm).0 ≡ ok (model_menu_to_proto created)
unfolding create_menu build_menu_from_input numbers_of required menu_type_of validate_placement
    status_of visible_of trimmed trim_space complete_row check_parent suits get_menu first_row
    find_first sort_of max_sort query greatest select menu_row store_new transaction commit create
    insert any record_menu_change create_log exec operation_log menu_audit model_menu_to_proto
create_runs = refl

create_menu_ok_example :
    (m : Menu) × (model_menu_to_proto created ≡ model_menu_to_proto m)
    × ((create_menu with_log clock none "log1" "m1" request calm).1.tables.menus
        ≡ menus ++ (m ∷ []))
    × (m.id ≡ "m1")
    × (any (clashes m) menus ≡ false)
    × IsComplete m
    × (m.visible ≡ menu_visible_yes)
    × ((is_empty m.parent_id ≡ true) ⊎ SuitsParent menus m)
create_menu_ok_example = create_menu_ok with_log clock none "log1" "m1" request calm create_runs

rootless : (rows : List Menu) → HasParent rows ""
rootless rows full = ground arith

console_there : HasParent menus "console"
unfolding any
console_there full = refl

menus-HasParents : HasParents menus
menus-HasParents m (head e) = subst (λ x. HasParent menus x.parent_id) (sym e) (rootless menus)
menus-HasParents m (tail (head e)) =
    subst (λ x. HasParent menus x.parent_id) (sym e) (rootless menus)
menus-HasParents m (tail (tail (head e))) =
    subst (λ x. HasParent menus x.parent_id) (sym e) console_there
menus-HasParents m (tail (tail (tail (head e)))) =
    subst (λ x. HasParent menus x.parent_id) (sym e) (rootless menus)
menus-HasParents m (tail (tail (tail (tail n)))) = elim n [ ]

edits-HasParents_example :
    HasParents (create_menu with_log clock none "log1" "m1" request calm).1.tables.menus
    × HasParents (update_menu with_log clock none "log1" "console" request calm).1.tables.menus
    × HasParents (delete_menu with_log clock none "log1" "console" calm).1.tables.menus
    × HasParents (enable_menu with_log clock none "log1" "console" calm).1.tables.menus
    × HasParents (disable_menu with_log clock none "log1" "console" calm).1.tables.menus
edits-HasParents_example =
    edits-HasParents with_log clock none "log1" "m1" "console" request calm menus-HasParents

reassigns : (reassign_id "users" "people" calm).0 ≡ ok tt
unfolding reassign_id transaction commit reassign_rows query exec count_where select move_grants
    move_grant copy_grant rename_row update_where
reassigns = refl

reassign_id-IsReassigned_example :
    IsReassigned "users" "people" calm.tables (reassign_id "users" "people" calm).1.tables
reassign_id-IsReassigned_example = reassign_id-IsReassigned "users" "people" calm refl reassigns
