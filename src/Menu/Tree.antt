-- ===== src/Menu/Tree.antt =====
-- Trees of menus: systemproto.Menu with its children, and buildMenuTree and sortMenus of
-- system/internal/logic/menu.go and menu_nav.go. A menu without its children is a `MenuView`.
-- buildMenuTree ranges over a map: `order` is the order in which it meets the entries.
pub mod Rooted
pub mod Whole
use ai_dandelion.Base.{
  ℕ, zero, suc, ◌+◌, String, Bool, true, false, Option, none, some, List, [], ◌∷◌, ◌++◌, ◌==◌, ◌&&◌,
  ltb, if◌then◌else◌, str_eq, str_less, is_empty, length, find_first, any,
}
use ai_dandelion.Menu.Model.{Menu}

pub record MenuView : Type 0 where
  pub id : String
  pub parent_id : String
  pub module_name : String
  pub placement : String
  pub name : String
  pub code : String
  pub view_key : String
  pub icon : String
  pub menu_type : ℕ
  pub sort : ℕ
  pub status : ℕ
  pub visible : ℕ
  pub is_default : Bool
  pub remark : String
  pub source_type : String
  pub source_id : String
  pub created_at : ℕ

mutual
  pub data Forest : Type 0 where
    no_trees : Forest
    tree : (t : Tree) (ts : Forest) → Forest

  pub data Tree : Type 0 where
    node : (v : MenuView) (children : Forest) → Tree

abbrev pub view_of : Tree → MenuView
view_of (node v children) = v

unfoldable pub model_menu_to_proto : Menu → MenuView
model_menu_to_proto m = record {
  id = m.id;
  parent_id = m.parent_id;
  module_name = m.module_name;
  placement = m.placement;
  name = m.name;
  code = m.code;
  view_key = m.view_key;
  icon = m.icon;
  menu_type = m.menu_type;
  sort = m.sort;
  status = m.status;
  visible = m.visible;
  is_default = m.is_default;
  remark = m.remark;
  source_type = m.source_type;
  source_id = m.source_id;
  created_at = m.created_at;
}

-- The order of sortMenus.
unfoldable pub menu_less : MenuView → MenuView → Bool
menu_less a b = if a.sort == b.sort then str_less a.name b.name else ltb a.sort b.sort

unfoldable pub insert_menu : MenuView → List MenuView → List MenuView
unfolding menu_less
insert_menu v [] = v ∷ []
insert_menu v (x ∷ xs) =
    let rest = insert_menu v xs in if menu_less x v then x ∷ rest else v ∷ x ∷ xs

-- sortMenus of menus that have no children yet; the sort is stable.
unfoldable pub sort_menus : List MenuView → List MenuView
unfolding insert_menu
sort_menus [] = []
sort_menus (v ∷ vs) = insert_menu v (sort_menus vs)

unfoldable pub insert_tree : Tree → Forest → Forest
unfolding menu_less
insert_tree t no_trees = tree t no_trees
insert_tree t (tree x xs) =
    let rest = insert_tree t xs in
    if menu_less (view_of x) (view_of t) then tree x rest else tree t (tree x xs)

unfoldable pub sort_trees : Forest → Forest
unfolding insert_tree
sort_trees no_trees = no_trees
sort_trees (tree t ts) = insert_tree t (sort_trees ts)

abbrev pub view_is : String → MenuView → Bool
view_is id v = str_eq v.id id

-- The values of the map `byID`: a later menu replaces an earlier one with the same id.
unfoldable pub distinct : List MenuView → List MenuView
distinct [] = []
distinct (v ∷ vs) = let rest = distinct vs in if any (view_is v.id) vs then rest else v ∷ rest

-- The pointers that the loop makes: the roots, and the children of each id.
pub record Links : Type 0 where
  pub roots : List MenuView
  pub children : String → List MenuView

unfoldable pub no_links : Links
no_links = record { roots = []; children = λ id. [] }

-- One round of the loop, at the entry `v` of the map `nodes`.
unfoldable pub link : List MenuView → MenuView → Links → Links
link nodes v l =
    if is_empty v.parent_id
    then record l { roots = l.roots ++ (v ∷ []) }
    else if any (view_is v.parent_id) nodes
    then record l {
      children = λ id. if str_eq id v.parent_id then l.children id ++ (v ∷ []) else l.children id;
    }
    else record l { roots = l.roots ++ (v ∷ []) }

unfoldable pub link_all : List MenuView → List MenuView → Links → Links
unfolding link
link_all nodes [] l = l
link_all nodes (v ∷ vs) l = link_all nodes vs (link nodes v l)

unfoldable pub trees_of : (MenuView → Tree) → List MenuView → Forest
trees_of f [] = no_trees
trees_of f (v ∷ vs) = tree (f v) (trees_of f vs)

-- The tree that hangs at a pointer; the fuel bounds its depth.
unfoldable pub tree_at : (String → List MenuView) → ℕ → MenuView → Tree
unfolding trees_of
tree_at children zero v = node v no_trees
tree_at children (suc n) v = node v (trees_of (tree_at children n) (children v.id))

module _ (order : List MenuView → List MenuView) where
  unfoldable pub links_of : List MenuView → Links
  unfolding link_all distinct no_links
  links_of items = let nodes = order (distinct items) in link_all nodes nodes no_links

  unfoldable pub build_menu_tree : List MenuView → Forest
  unfolding links_of trees_of tree_at sort_trees
  build_menu_tree items =
      let l = links_of items in sort_trees (trees_of (tree_at l.children (length items)) l.roots)
