-- ===== src/Navigation/Offered.antt =====
-- That an agent may go to each page that it was offered.
use ai_dandelion.Base.{
  ℕ, zero, suc, if◌then◌else◌, String, ◌≡◌, refl, ap, sym, ◌∙◌, subst, inl, inr, Bool, true, false,
  Option, some, List, [], ◌∷◌, eq_iff, is_empty, trim_space, arith, Bool-cases, select, find_first,
  take,
}
use mathlib.Core.List.{Memᴰ}
use mathlib.Core.List.Memᴰ.{head, tail, append_left, append_right}
use ai_dandelion.Db.{World, ok, query}
use ai_dandelion.Db.Rules.{Result-cases}
use ai_dandelion.Json.{Entries}
use ai_dandelion.Menu.Model.{Menu, Tables, Effect}
use ai_dandelion.Menu.Tree.{MenuView, Forest, no_trees, tree, Tree, node}
use ai_dandelion.Menu.Tree.Rooted.{InForest, first, later, InTree, root, below}
use ai_dandelion.Menu.Tree.Whole.{IsOrder}
use ai_dandelion.Menu.Nav.{
  get_nav_menus, nav_tree_of, nav_tree_for, rows_of, granted_ids, list_menu_rows,
  list_menu_ids_by_user,
}
use ai_dandelion.Menu.Nav.Members.{select_member}
use ai_dandelion.Menu.Nav.Shown.{part_member}
use ai_dandelion.Menu.Nav.Permitted.{enabled_menus}
use ai_dandelion.Navigation.{
  Target, accepted, targets, is_page, target_of, flatten_navigation_targets, flatten_tree,
  is_target, user_or_empty, listed, nav_menus, navigate, list_targets, string_input, int_input,
  limit_of, navigation_target_matches,
}
use ai_dandelion.Navigation.Targets.{flattened, kept, not_made_up, same_user}

mutual
  unfolding flatten_navigation_targets

  flattens :
      (f : Forest) (v : MenuView)
      → InForest v f
      → is_page v ≡ true
      → Memᴰ (target_of v) (flatten_navigation_targets f)
  flattens no_trees v m page = elim m [ ]
  flattens (tree x xs) v (first m) page = append_left _ (flattens_tree x v m page)
  flattens (tree x xs) v (later m) page = append_right _ (flattens xs v m page)

  flattens_tree :
      (x : Tree) (v : MenuView)
      → InTree v x
      → is_page v ≡ true
      → Memᴰ (target_of v) (flatten_tree x)
  flattens_tree (node u children) _ root page =
      append_left _ (
        subst (λ b. Memᴰ (target_of u) (if b then target_of u ∷ [] else [])) (sym page) (head refl))
  flattens_tree (node u children) v (below m) page = append_right _ (flattens children v m page)

take_member : {A : Type 0} (n : ℕ) (xs : List A) (x : A) → Memᴰ x (take n xs) → Memᴰ x xs
unfolding take
take_member zero xs x m = elim m [ ]
take_member (suc n) [] x m = elim m [ ]
take_member (suc n) (y ∷ ys) x (head e) = head e
take_member (suc n) (y ∷ ys) x (tail m) = tail (take_member n ys x m)

listed_member :
    (to_lower : String → String) (query : String) (limit : ℕ) (f : Forest) (t : Target)
    → Memᴰ t (listed to_lower query limit f)
    → Memᴰ t (flatten_navigation_targets f)
unfolding listed
listed_member to_lower query limit f t m =
    let m' = take_member limit _ t m in
    let all = flatten_navigation_targets f in
    elim (Bool-cases (is_empty query)) [
      | inl e ↦
          subst
            (λ b. Memᴰ t (if b then all else select (navigation_target_matches to_lower query) all))
            e m'
      | inr e ↦
          (select_member (navigation_target_matches to_lower query) all t (
            subst
              (λ b.
                Memᴰ t (if b then all else select (navigation_target_matches to_lower query) all))
              e m')).0
    ]

module _ (order : List MenuView → List MenuView) (whole : IsOrder order) where
  -- What GetNavMenus shows at a state.
  abbrev shown_at : Option String → String → Tables → Forest
  shown_at caller name t =
      if is_empty (user_or_empty caller)
      then no_trees
      else nav_tree_of order (rows_of enabled_menus t) name (granted_ids (user_or_empty caller) t)

  get_nav_menus_shows :
      (caller : Option String) (name : String) (w : World Tables Effect) {f : Forest}
      → (get_nav_menus order caller (user_or_empty caller) name w).0 ≡ ok f
      → f ≡ shown_at caller name w.tables
  unfolding get_nav_menus list_menu_rows list_menu_ids_by_user query
  get_nav_menus_shows caller name w h = ground (arith, same_user caller)

  whole_tree :
      (rows : List Menu) (name : String) (ids : List String) (v : MenuView)
      → is_page v ≡ true
      → InForest v (nav_tree_of order rows name ids)
      → InForest v (nav_tree_of order rows "" ids)
  unfolding nav_tree_for trim_space
  whole_tree rows name [] v page m = m
  whole_tree rows name (id ∷ ids) v page m =
      elim (part_member order whole _ (trim_space name) v m) [
        | inl inside ↦ inside
        | inr made ↦ absurd (not_made_up v page made)
      ]

  -- A call that succeeds where the tables are the same shows every page of the first one.
  shown_again :
      (caller : Option String) (name : String) (w w' : World Tables Effect) {f f' : Forest}
      (v : MenuView)
      → (get_nav_menus order caller (user_or_empty caller) name w).0 ≡ ok f
      → (get_nav_menus order caller (user_or_empty caller) "" w').0 ≡ ok f'
      → w'.tables ≡ w.tables
      → is_page v ≡ true
      → InForest v f
      → InForest v f'
  shown_again caller name w w' v h h' same page m =
      let before = subst (InForest v) (get_nav_menus_shows caller name w h) m in
      let user = user_or_empty caller in
      let rows = rows_of enabled_menus w.tables in
      let ids = granted_ids user w.tables in
      let now : InForest v (shown_at caller "" w.tables) = elim (Bool-cases (is_empty user)) [
        | inl e ↦
            subst (λ b. InForest v (if b then no_trees else nav_tree_of order rows "" ids)) (sym e)
              (subst (λ b. InForest v (if b then no_trees else nav_tree_of order rows name ids)) e
                before)
        | inr e ↦
            subst (λ b. InForest v (if b then no_trees else nav_tree_of order rows "" ids)) (sym e)
              (whole_tree rows name ids v page (
                subst (λ b. InForest v (if b then no_trees else nav_tree_of order rows name ids)) e
                  before))
      ] in
      subst (InForest v) (sym (get_nav_menus_shows caller "" w' h'))
        (subst (λ t. InForest v (shown_at caller "" t)) (sym same) now)

  listed_from :
      (to_lower : String → String) (has_client call_fails : Bool) (caller : Option String)
      (input : Entries) (w : World Tables Effect) {ts : List Target} {n : ℕ}
      → (list_targets order has_client call_fails to_lower caller input w).0 ≡ ok (targets ts n)
      → (f : Forest) × ((get_nav_menus order caller
            (user_or_empty caller)
            (string_input "module" input)
            w).0
          ≡ ok f)
        × (ts
            ≡ listed to_lower
                (to_lower (trim_space (string_input "query" input)))
                (limit_of (int_input "limit" 10 input))
                f)
        × (has_client ≡ true)
  unfolding list_targets nav_menus
  listed_from to_lower has_client call_fails caller input w h =
      elim (Result-cases
        (get_nav_menus order caller (user_or_empty caller) (string_input "module" input) w).0) [
          | inl (f, e) ↦ (f, e, ground arith, ground arith)
          | inr (e, fails) ↦ let no : ⊥ = ground arith in absurd no
        ]

  goes :
      (caller : Option String) (input : Entries) (w : World Tables Effect) {f : Forest} {t : Target}
      → is_empty (trim_space (string_input "targetId" input)) ≡ false
      → (get_nav_menus order caller (user_or_empty caller) "" w).0 ≡ ok f
      → find_first
          (is_target (trim_space (string_input "targetId" input)))
          (flatten_navigation_targets f)
        ≡ some t
      → (navigate order true false caller input w).0
        ≡ ok (
            accepted
              (trim_space (string_input "targetId" input))
              t.module_name
              t.view_key
              t.source_type
              t.source_id)
  unfolding navigate nav_menus
  goes caller input w full shown kept = ground arith

  -- Each page that list_navigation_targets has offered can be gone to: naming its id,
  -- navigate_to_target accepts it, while the tables are as they were and the calls of the system
  -- service do not fail, whatever module, query and limit it was found with. Both calls of the system
  -- service range over their maps of menus in the same order, and the id has no space at
  -- its ends.
  pub list_targets-navigate :
      (to_lower : String → String) (caller : Option String) (input input' : Entries)
      (w w' : World Tables Effect) {ts : List Target} {n : ℕ} {f : Forest}
      → (list_targets order true false to_lower caller input w).0 ≡ ok (targets ts n)
      → (get_nav_menus order caller (user_or_empty caller) "" w').0 ≡ ok f
      → w'.tables ≡ w.tables
      → (t : Target) → Memᴰ t ts
      → trim_space t.id ≡ t.id
      → string_input "targetId" input' ≡ t.id
      → (m : String) × (k : String) × (st : String) × (si : String) × ((navigate order true false
            caller input' w').0
          ≡ ok (accepted t.id m k st si))
  list_targets-navigate to_lower caller input input' w w' h h' same t m plain asked =
      let (f, shown, e, _) = listed_from to_lower true false caller input w h in
      let (v, inside, page, is_v) =
        flattened f t (listed_member to_lower _ _ f t (subst (Memᴰ t) e m)) in
      let again =
        shown_again caller (string_input "module" input) w w' v shown h' same page inside in
      let is_id : v.id ≡ t.id = sym (ap (λ x. x.id) is_v) in
      let id : trim_space (string_input "targetId" input') ≡ t.id = ap trim_space asked ∙ plain in
      let (y, first_one) =
        kept (is_target (trim_space (string_input "targetId" input'))) _ (target_of v)
          (flattens _ v again page)
          ((eq_iff v.id (trim_space (string_input "targetId" input'))).1 (is_id ∙ sym id)) in
      let full : is_empty (trim_space (string_input "targetId" input')) ≡ false =
        ground (arith, ap (λ x. is_empty (trim_space x)) is_id) in
      (
        y.module_name,
        y.view_key,
        y.source_type,
        y.source_id,
        goes caller input' w' full h' first_one
            ∙ ap (λ x. ok (accepted x y.module_name y.view_key y.source_type y.source_id)) id,
      )
