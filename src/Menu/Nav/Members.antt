-- ===== src/Menu/Nav/Members.antt =====
-- What the steps of GetNavMenus keep: each menu of their result is one of their input, or made up.
use ai_dandelion.Base.{
  String, ◌≡◌, refl, ap, ◌∙◌, subst, ◌⊎◌, inl, inr, Bool, true, false, not, List, [], ◌∷◌, select,
  str_eq, Bool-cases, if◌then◌else◌,
}
use mathlib.Core.List.{Memᴰ}
use mathlib.Core.List.Memᴰ.{head, tail, cases_cons}
use ai_dandelion.Menu.Model.{Menu, placement_platform, placement_module_nav}
use ai_dandelion.Menu.Tree.{MenuView, menu_less, insert_menu, sort_menus, build_menu_tree}
use ai_dandelion.Menu.Tree.Rooted.{InForest, first, later, root, below, rooted_member}
use ai_dandelion.Menu.Tree.Whole.{IsOrder, build_menu_tree-Rooted, distinct_member, sort_trees_iff}
use ai_dandelion.Menu.Nav.{
  row_before, insert_row, sort_rows, orphan_view, module_view, module_names, of_module, children_of,
  orphan_roots, nav_roots, build_unified_nav_tree,
}

module _ {A : Type 0} where
  pub kept_cases :
      (b : Bool) (x y : A) (rest : List A)
      → Memᴰ x (if b then y ∷ rest else rest)
      → ((x ≡ y) × (b ≡ true)) ⊎ Memᴰ x rest
  kept_cases false x y rest m = inr m
  kept_cases true x y rest m = elim (cases_cons m) [ inl e ↦ inl (e, refl) | inr m' ↦ inr m' ]

  pub select_member :
      (p : A → Bool) (xs : List A) (x : A) → Memᴰ x (select p xs) → Memᴰ x xs × (p x ≡ true)
  unfolding select
  select_member p [] x m = elim m [ ]
  select_member p (y ∷ ys) x m = elim (kept_cases (p y) x y (select p ys) m) [
    | inl (e, h) ↦ (head e, ap p e ∙ h)
    | inr rest ↦ let (member, h) = select_member p ys x rest in (tail member, h)
  ]

  -- Insertion sort keeps the members, whatever the order.
  module _ (test : A → A → Bool) (insert : A → List A → List A)
      (insert_nil : (v : A) → insert v [] ≡ v ∷ [])
      (insert_cons : (v x : A) (xs : List A)
        → insert v (x ∷ xs) ≡ (if test x v then x ∷ insert v xs else v ∷ x ∷ xs)) where
    pub insert_member : (v u : A) (xs : List A) → Memᴰ u (insert v xs) → (u ≡ v) ⊎ Memᴰ u xs
    insert_member v u [] m = cases_cons (subst (Memᴰ u) (insert_nil v) m)
    insert_member v u (x ∷ xs) m =
        let m' = subst (Memᴰ u) (insert_cons v x xs) m in
        elim (Bool-cases (test x v)) [
          | inl e ↦
              elim (cases_cons
                (subst (λ b. Memᴰ u (if b then x ∷ insert v xs else v ∷ x ∷ xs)) e m')) [
                  | inl same ↦ inr (head same)
                  | inr rest ↦ elim (insert_member v u xs rest) [
                    | inl same ↦ inl same
                    | inr member ↦ inr (tail member)
                  ]
                ]
          | inr e ↦
              cases_cons (subst (λ b. Memᴰ u (if b then x ∷ insert v xs else v ∷ x ∷ xs)) e m')
        ]

sort_menus_member : (u : MenuView) (vs : List MenuView) → Memᴰ u (sort_menus vs) → Memᴰ u vs
unfolding sort_menus insert_menu
sort_menus_member u [] m = m
sort_menus_member u (v ∷ vs) m =
    elim (insert_member menu_less insert_menu (λ v. refl) (λ v x xs. refl) v u (sort_menus vs) m) [
      | inl same ↦ head same
      | inr rest ↦ tail (sort_menus_member u vs rest)
    ]

pub sort_rows_member : (u : Menu) (ms : List Menu) → Memᴰ u (sort_rows ms) → Memᴰ u ms
unfolding sort_rows insert_row
sort_rows_member u [] m = m
sort_rows_member u (v ∷ vs) m =
    elim (insert_member row_before insert_row (λ v. refl) (λ v x xs. refl) v u (sort_rows vs) m) [
      | inl same ↦ head same
      | inr rest ↦ tail (sort_rows_member u vs rest)
    ]

-- A menu that the code makes up.
abbrev pub IsMadeUp : MenuView → Type 0
IsMadeUp v = (name : String) × ((v ≡ orphan_view name) ⊎ (v ≡ module_view name))

module _ (order : List MenuView → List MenuView) (whole : IsOrder order) where
  pub build_member :
      (items : List MenuView) (v : MenuView)
      → InForest v (build_menu_tree order items)
      → Memᴰ v items
  build_member items v m =
      distinct_member v items (rooted_member ((build_menu_tree-Rooted order whole items v).0 m))

  children_member :
      (items : List MenuView) (v : MenuView) → InForest v (children_of order items) → Memᴰ v items
  unfolding children_of
  children_member items v m =
      build_member items v ((sort_trees_iff v (build_menu_tree order items)).0 m)

  orphan_member :
      (nav : List MenuView) (names : List String) (v : MenuView)
      → InForest v (orphan_roots order nav names)
      → Memᴰ v nav ⊎ IsMadeUp v
  unfolding orphan_roots
  orphan_member nav [] v m = elim m [ ]
  orphan_member nav (name ∷ names) _ (first root) = inr (name, inl refl)
  orphan_member nav (name ∷ names) v (first (below m)) =
      inl (select_member (of_module name) nav v (children_member _ v m)).0
  orphan_member nav (name ∷ names) v (later m) = orphan_member nav names v m

  nav_roots_member :
      (platforms nav : List MenuView) (v : MenuView)
      → InForest v (nav_roots order platforms nav)
      → (Memᴰ v platforms ⊎ Memᴰ v nav) ⊎ IsMadeUp v
  unfolding nav_roots
  nav_roots_member [] nav v m = elim (orphan_member nav (module_names nav) v m) [
    | inl member ↦ inl (inr member)
    | inr made ↦ inr made
  ]
  nav_roots_member (p ∷ platforms) nav _ (first root) = inl (inl (head refl))
  nav_roots_member (p ∷ platforms) nav v (first (below m)) =
      inl (inr (select_member (of_module p.module_name) nav v (children_member _ v m)).0)
  nav_roots_member (p ∷ platforms) nav v (later m) =
      elim (nav_roots_member platforms (select (λ u. not (of_module p.module_name u)) nav) v m) [
        | inl (inl member) ↦ inl (inl (tail member))
        | inl (inr member) ↦
            inl (inr (select_member (λ u. not (of_module p.module_name u)) nav v member).0)
        | inr made ↦ inr made
      ]

  pub unified_member :
      (items : List MenuView) (v : MenuView)
      → InForest v (build_unified_nav_tree order items)
      → Memᴰ v items ⊎ IsMadeUp v
  unfolding build_unified_nav_tree
  unified_member items v m =
      elim (nav_roots_member
        (sort_menus (select (λ u. str_eq u.placement placement_platform) items))
        (select (λ u. str_eq u.placement placement_module_nav) items) v m) [
          | inl (inl member) ↦
              inl
                (select_member (λ u. str_eq u.placement placement_platform) items v
                  (sort_menus_member v _ member)).0
          | inl (inr member) ↦
              inl (select_member (λ u. str_eq u.placement placement_module_nav) items v member).0
          | inr made ↦ inr made
        ]
