-- ===== src/Menu/Edit/Created.antt =====
-- What CreateMenu has done when it returns no error.
use ai_dandelion.Base.{
  ℕ, ◌≤◌, String, ◌≡◌, ap, sym, ◌∙◌, subst, ◌⊎◌, inl, inr, true, false, Option, none, some, List,
  [], ◌∷◌, ◌++◌, any, find_first, eq_iff, is_empty, arith, Bool-cases, Option-cases,
}
use ai_dandelion.Db.{ok, World, first, insert, transaction, fail_as, ticked, pure, ◌>>◌}
use ai_dandelion.Db.Rules.{bind_ok, transaction_ok, fail_as_ok}
use ai_dandelion.Menu.Model.{
  ℤ, pos, negsuc, Menu, Tables, Effect, MenuInput, Operator, menu_is, placement_module_nav,
  menu_visible_yes,
}
use ai_dandelion.Menu.Tree.{MenuView, model_menu_to_proto}
use ai_dandelion.Menu.Store.{get_menu, create, clashes}
use ai_dandelion.Menu.Input.{
  wrap_menu_duplicate_error, menu_audit, check_parent, suits, may_have_children, required,
  menu_type_of, status_of, visible_of, validate_placement, Numbers, menu_row, trimmed, Change,
}
use ai_dandelion.Menu.Edit.{
  MenuLogic, record_menu_change, numbers_of, build_menu_from_input, store_new, create_menu,
}
use ai_dandelion.Menu.Edit.Keeping.{record_menus}
use ai_dandelion.Menu.Edit.Invariant.{build_tables, build_ok}

-- The parent that a menu names: of its module and placement, and a directory or the menu under which
-- functions are used.
abbrev pub SuitsParent : List Menu → Menu → Type 0
SuitsParent rows m =
    (p : Menu) × (find_first (menu_is m.parent_id) rows ≡ some p)
    × (p.module_name ≡ m.module_name)
    × (p.placement ≡ m.placement)
    × (may_have_children p ≡ true)

-- A row that passes every check.
abbrev pub IsComplete : Menu → Type 0
IsComplete m =
    (is_empty m.module_name ≡ false)
    × (is_empty m.name ≡ false)
    × (is_empty m.code ≡ false)
    × (m.placement ≡ placement_module_nav)
    × (1 ≤ m.menu_type)
    × (m.menu_type ≤ 3)
    × (1 ≤ m.status)
    × (m.status ≤ 2)

required_ok :
    (i : MenuInput) {u : Unit {0}}
    → required i ≡ ok u
    → (is_empty i.module_name ≡ false) × (is_empty i.name ≡ false) × (is_empty i.code ≡ false)
unfolding required
required_ok i h = ground arith

menu_type_ok : (n : ℤ) {k : ℕ} → menu_type_of n ≡ ok k → (1 ≤ k) × (k ≤ 3)
unfolding menu_type_of
menu_type_ok (negsuc n) h = ground arith
menu_type_ok (pos n) h = ground arith

status_ok : (n : ℤ) {k : ℕ} → status_of n ≡ ok k → (1 ≤ k) × (k ≤ 2)
unfolding status_of
status_ok (negsuc n) h = ground arith
status_ok (pos n) h = ground arith

visible_ok : (n : ℤ) {k : ℕ} → visible_of n ≡ ok k → k ≡ menu_visible_yes
unfolding visible_of
visible_ok (negsuc n) h = ground arith
visible_ok (pos n) h = ground arith

suits_ok :
    (i : MenuInput) (p : Menu) (w : World Tables Effect) {u : Unit {0}}
    → (suits i p w).0 ≡ ok u
    → (p.module_name ≡ i.module_name) × (p.placement ≡ i.placement) × (may_have_children p ≡ true)
unfolding suits
suits_ok i p w h =
    ground (arith, eq_iff p.module_name i.module_name, eq_iff p.placement i.placement)

check_parent_suits :
    (w : World Tables Effect) (id : String) (i : MenuInput) {u : Unit {0}}
    → (check_parent id i w).0 ≡ ok u
    → is_empty i.parent_id ≡ false
    → (p : Menu) × (find_first (menu_is i.parent_id) w.tables.menus ≡ some p)
      × (p.module_name ≡ i.module_name)
      × (p.placement ≡ i.placement)
      × (may_have_children p ≡ true)
unfolding check_parent get_menu first
check_parent_suits w id i h full =
    elim (Option-cases (find_first (menu_is i.parent_id) w.tables.menus)) [
      | inl (p, e) ↦
          let (same, place, parent) = suits_ok i p (ticked w) (ground arith) in
          (p, e, same, place, parent)
      | inr e ↦ absurd (ground arith)
    ]

module _ (l : MenuLogic) (clock : ℕ → ℕ) (operator : Option Operator) (log_id : String) where
  numbers_ok :
      (r i : MenuInput) {n : Numbers}
      → numbers_of l clock operator log_id r i ≡ ok n
      → (required i ≡ ok tt)
        × (menu_type_of r.menu_type ≡ ok n.menu_type)
        × (validate_placement i.placement ≡ ok tt)
        × (status_of r.status ≡ ok n.status)
        × (visible_of r.visible ≡ ok n.visible)
  unfolding numbers_of
  numbers_ok r i h = ground arith

  numbers_Complete :
      (r i : MenuInput) (n : Numbers) (sort now : ℕ) (id : String)
      → numbers_of l clock operator log_id r i ≡ ok n
      → IsComplete (menu_row i n sort id now) × (n.visible ≡ menu_visible_yes)
  unfolding validate_placement menu_row
  numbers_Complete r i n sort now id h =
      let (all, kind, place, status, visible) = numbers_ok r i h in
      let (named, called, coded) = required_ok i all in
      let (one, three) = menu_type_ok r.menu_type kind in
      let (least, most) = status_ok r.status status in
      (
        (
          named,
          called,
          coded,
          ground (arith, eq_iff i.placement placement_module_nav),
          one,
          three,
          least,
          most,
        ),
        visible_ok r.visible visible,
      )

  create_ok :
      (m : Menu) (w : World Tables Effect) {u : Unit {0}}
      → (create m w).0 ≡ ok u
      → (any (clashes m) w.tables.menus ≡ false)
        × ((create m w).1.tables.menus ≡ w.tables.menus ++ (m ∷ []))
  unfolding create insert
  create_ok m w h = ground arith

  store_new_ok :
      (m : Menu) (w : World Tables Effect) {v : MenuView}
      → (store_new l clock operator log_id m w).0 ≡ ok v
      → (v ≡ model_menu_to_proto m)
        × (any (clashes m) w.tables.menus ≡ false)
        × ((store_new l clock operator log_id m w).1.tables.menus ≡ w.tables.menus ++ (m ∷ []))
  unfolding store_new
  store_new_ok m w {v} h =
      let c : Change = record {
        action = "menu.create";
        action_label = "创建菜单";
        before = none;
        after = some (menu_audit m);
      } in
      let body = create m >> record_menu_change l clock operator log_id c m in
      let (u, stored, e) =
        bind_ok (λ _. pure (model_menu_to_proto m))
          (fail_as wrap_menu_duplicate_error (transaction body)) w h in
      let (committed, same) = fail_as_ok wrap_menu_duplicate_error (transaction body) w stored in
      let (ran, kept) = transaction_ok body w committed in
      let (u', created, e') =
        bind_ok (λ _. record_menu_change l clock operator log_id c m) (create m) (ticked w) ran in
      let (apart, added) = create_ok m (ticked w) created in
      let recorded = record_menus l clock operator log_id c m (create m (ticked w)).1 in
      (
        ground (arith, subst (λ p. p.0 ≡ ok v) e h),
        apart,
        ap (λ p. p.1.tables.menus) e
            ∙ ap (λ x. x.tables.menus) same
            ∙ ap (λ t. t.menus) kept
            ∙ ap (λ p. p.1.tables.menus) e'
            ∙ recorded
            ∙ added,
      )

  -- When CreateMenu returns no error it has added one row, with a new id, and changed no other. The
  -- row is complete: it has a module, a name and a code that no other menu has, the placement
  -- module_nav, a type and a status that exist, and its parent, if it names one, suits it. The row
  -- is visible whatever the request says: a request for a hidden menu creates a visible one.
  pub create_menu_ok :
      (fresh : String) (r : MenuInput) (w : World Tables Effect) {v : MenuView}
      → (create_menu l clock operator log_id fresh r w).0 ≡ ok v
      → (m : Menu) × (v ≡ model_menu_to_proto m)
        × ((create_menu l clock operator log_id fresh r w).1.tables.menus
            ≡ w.tables.menus ++ (m ∷ []))
        × (m.id ≡ fresh)
        × (any (clashes m) w.tables.menus ≡ false)
        × IsComplete m
        × (m.visible ≡ menu_visible_yes)
        × ((is_empty m.parent_id ≡ true) ⊎ SuitsParent w.tables.menus m)
  unfolding create_menu menu_row
  create_menu_ok fresh r w {v} h =
      let (m, built, e) =
        bind_ok (store_new l clock operator log_id)
          (build_menu_from_input l clock operator log_id fresh "" r) w h in
      let (n, numbers, parent, sort, now, row) =
        build_ok l clock operator log_id fresh "" r w built in
      let same = build_tables l clock operator log_id fresh "" r w in
      let after = (build_menu_from_input l clock operator log_id fresh "" r w).1 in
      let (shown, apart, added) = store_new_ok m after (subst (λ p. p.0 ≡ ok v) e h) in
      let (complete, visible) = numbers_Complete r (trimmed r) n sort now fresh numbers in
      (
        m,
        shown,
        ap (λ p. p.1.tables.menus) e ∙ added ∙ ap (λ t. t.menus ++ (m ∷ [])) same,
        ap (λ x. x.id) row,
        sym (ap (λ t. any (clashes m) t.menus) same) ∙ apart,
        subst IsComplete (sym row) complete,
        ap (λ x. x.visible) row ∙ visible,
        elim (Bool-cases (is_empty m.parent_id)) [
          | inl none_named ↦ inl none_named
          | inr full ↦ inr (
              subst (SuitsParent w.tables.menus) (sym row) (
                check_parent_suits w "" (trimmed r) parent
                  (ap (λ x. is_empty x.parent_id) (sym row) ∙ full)))
        ],
      )
