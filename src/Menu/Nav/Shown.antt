-- ===== src/Menu/Nav/Shown.antt =====
-- What filterNavTreeByModule keeps of the tree that it is given.
use ai_dandelion.Base.{
  String, ◌≡◌, refl, sym, subst, ◌⊎◌, inl, inr, ◌&&◌, List, [], ◌∷◌, str_eq, is_empty, arith,
  Bool-cases, Option, some, none, if◌then◌else◌,
}
use mathlib.Core.List.{Memᴰ}
use mathlib.Core.List.Memᴰ.{append_cases}
use ai_dandelion.Menu.Model.{placement_module_nav}
use ai_dandelion.Menu.Tree.{MenuView, Forest, no_trees, tree, Tree, node, view_of, build_menu_tree}
use ai_dandelion.Menu.Tree.Rooted.{InForest, first, later, InTree, root, below}
use ai_dandelion.Menu.Tree.Whole.{IsOrder, sort_trees_iff}
use ai_dandelion.Menu.Nav.{
  of_module, collect_nav_menus_by_module, collect_tree, root_of, leads_to, under_module,
  found_or_collected, filter_nav_tree_by_module, part_of,
}
use ai_dandelion.Menu.Nav.Members.{kept_cases, IsMadeUp, build_member}

mutual
  unfolding collect_nav_menus_by_module

  collected :
      (name : String) (f : Forest) (v : MenuView)
      → Memᴰ v (collect_nav_menus_by_module name f)
      → InForest v f
  collected name no_trees v m = elim m [ ]
  collected name (tree t ts) v m = elim (append_cases (collect_tree name t) m) [
    | inl here ↦ first (collected_tree name t v here)
    | inr there ↦ later (collected name ts v there)
  ]

  collected_tree :
      (name : String) (t : Tree) (v : MenuView) → Memᴰ v (collect_tree name t) → InTree v t
  collected_tree name (node u children) v m =
      elim (append_cases
        (if str_eq u.placement placement_module_nav && of_module name u then u ∷ [] else []) m) [
          | inl here ↦
              elim (kept_cases (str_eq u.placement placement_module_nav && of_module name u) v u []
                here) [
                  | inl (e, _) ↦ subst (λ x. InTree v (node x children)) e root
                  | inr none_more ↦ elim none_more [ ]
                ]
          | inr there ↦ below (collected name children v there)
        ]

root_of_member :
    (name : String) (f : Forest) {t : Tree} (v : MenuView)
    → root_of name f ≡ some t
    → InTree v t
    → InForest v f
unfolding root_of
root_of_member name no_trees v h m = ground arith
root_of_member name (tree u us) {t} v h m = elim (Bool-cases (leads_to name (view_of u))) [
  | inl e ↦ let same : u ≡ t = ground arith in first (subst (InTree v) (sym same) m)
  | inr e ↦ later (root_of_member name us v (ground arith) m)
]

under_module_member :
    (name : String) (f : Forest) (v : MenuView)
    → InForest v (under_module name f)
    → InForest v f ⊎ IsMadeUp v
under_module_member name no_trees v m = elim m [ ]
under_module_member name (tree t ts) _ (first root) = inr (name, inr refl)
under_module_member name (tree t ts) v (first (below m)) = inl ((sort_trees_iff v (tree t ts)).0 m)
under_module_member name (tree t ts) v (later m) = elim m [ ]

module _ (order : List MenuView → List MenuView) (whole : IsOrder order) where
  found_member :
      (f : Forest) (name : String) (v : MenuView) (o : Option Tree)
      → root_of name f ≡ o
      → InForest v (found_or_collected order f name o)
      → InForest v f ⊎ IsMadeUp v
  unfolding found_or_collected
  found_member f name v (some t) e (first m) = inl (root_of_member name f v e m)
  found_member f name v (some t) e (later m) = elim m [ ]
  found_member f name v none e m =
      elim (under_module_member name (build_menu_tree order (collect_nav_menus_by_module name f)) v
        m) [
          | inl inside ↦ inl (
              collected name f v
                (build_member order whole (collect_nav_menus_by_module name f) v inside))
          | inr made ↦ inr made
        ]

  filter_member :
      (f : Forest) (name : String) (v : MenuView)
      → InForest v (filter_nav_tree_by_module order f name)
      → InForest v f ⊎ IsMadeUp v
  unfolding filter_nav_tree_by_module
  filter_member f name v m = found_member f name v (root_of name f) refl m

  pub part_member :
      (f : Forest) (name : String) (v : MenuView)
      → InForest v (part_of order f name)
      → InForest v f ⊎ IsMadeUp v
  part_member f name v m = elim (Bool-cases (is_empty name)) [
    | inl e ↦
        inl (subst (λ b. InForest v (if b then f else filter_nav_tree_by_module order f name)) e m)
    | inr e ↦
        filter_member f name v
          (subst (λ b. InForest v (if b then f else filter_nav_tree_by_module order f name)) e m)
  ]
