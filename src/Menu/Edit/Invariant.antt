-- ===== src/Menu/Edit/Invariant.antt =====
-- That the handlers of menus keep the parents of the menus there.
use ai_dandelion.Base.{
  ℕ, zero, suc, String, ◌≡◌, refl, ap, sym, ◌∙◌, subst, inl, inr, false, Option, none, some, List,
  [], ◌∷◌, any, count_where, find_first, ltb, is_empty, trim_space, arith, Bool-cases,
  if◌then◌else◌,
}
use ai_dandelion.Db.{ok, World, first, query, ticked, pure, lift, at_time, ◌>>=◌}
use ai_dandelion.Db.Rules.{bind_after, bind_ok, guard_after}
use ai_dandelion.Menu.Model.{
  ℤ, pos, negsuc, Menu, Tables, Effect, MenuInput, Operator, menu_is, is_generated_function_menu,
  menu_status_enabled, menu_status_disabled,
}
use ai_dandelion.Menu.Tree.{model_menu_to_proto}
use ai_dandelion.Menu.Store.{
  get_menu, create, update, update_status, delete, count_children, max_sort, with_status, is_child,
}
use ai_dandelion.Menu.Input.{
  wrap_menu_not_found_error, wrap_menu_duplicate_error, check_parent, suits, sort_of, next_sort,
  Numbers, menu_row, trimmed,
}
use ai_dandelion.Menu.Edit.{
  MenuLogic, numbers_of, complete_row, build_menu_from_input, store_new, create_menu, store_changed,
  change_menu, find_menu, update_menu, delete_found, delete_known, delete_menu, switch_found,
  set_menu_status, enable_menu, disable_menu, keep_of,
}
use ai_dandelion.Menu.Edit.Parents.{HasParent, HasParents}
use ai_dandelion.Menu.Edit.Keeping.{
  Kept, create-Kept, update-Kept, update_status-Kept, delete-Kept, stored_Kept, deleted_Kept,
}

find_none :
    (id : String) (rows : List Menu)
    → any (menu_is id) rows ≡ false
    → find_first (menu_is id) rows ≡ none
unfolding any find_first
find_none id [] h = refl
find_none id (x ∷ rows) h = ground (arith, find_none id rows)

module _ (w : World Tables Effect) where
  get_menu_tables : (id : String) → (get_menu id w).1.tables ≡ w.tables
  unfolding get_menu first
  get_menu_tables id = ground arith

  get_menu_ok :
      (id : String) {m : Menu}
      → (get_menu id w).0 ≡ ok m
      → find_first (menu_is id) w.tables.menus ≡ some m
  unfolding get_menu first
  get_menu_ok id h = ground arith

  check_parent_tables : (id : String) (i : MenuInput) → (check_parent id i w).1.tables ≡ w.tables
  unfolding check_parent suits get_menu first
  check_parent_tables id i = ground arith

  check_parent_ok :
      (id : String) (i : MenuInput) {u : Unit {0}}
      → (check_parent id i w).0 ≡ ok u
      → HasParent w.tables.menus i.parent_id
  unfolding check_parent get_menu first
  check_parent_ok id i h full = elim (Bool-cases (any (menu_is i.parent_id) w.tables.menus)) [
    | inl e ↦ e
    | inr e ↦ absurd (ground (arith, find_none i.parent_id w.tables.menus))
  ]

  next_sort_tables : (i : MenuInput) → (next_sort i w).1.tables ≡ w.tables
  unfolding max_sort query
  next_sort_tables i = ground arith

  sort_of_tables : (i : MenuInput) (n : ℤ) → (sort_of i n w).1.tables ≡ w.tables
  unfolding sort_of
  sort_of_tables i (negsuc n) = next_sort_tables i
  sort_of_tables i (pos zero) = next_sort_tables i
  sort_of_tables i (pos (suc n)) = refl

  count_tables : (id : String) → (count_children id w).1.tables ≡ w.tables
  unfolding count_children query
  count_tables id = ground arith

  count_ok :
      (id : String) {n : ℕ}
      → (count_children id w).0 ≡ ok n
      → count_where (is_child id) w.tables.menus ≡ n
  unfolding count_children query
  count_ok id h = ground arith

module _ (l : MenuLogic) (clock : ℕ → ℕ) (operator : Option Operator) (log_id : String) where
  complete_tables :
      (fresh id : String) (i : MenuInput) (n : Numbers) (w : World Tables Effect)
      → (complete_row l clock operator log_id fresh id i n w).1.tables ≡ w.tables
  unfolding complete_row
  complete_tables fresh id i n w =
      bind_after (λ t. t ≡ w.tables) _ (check_parent id i) w (λ _ _. check_parent_tables w id i)
        (λ _ _.
          bind_after (λ t. t ≡ w.tables) _ (sort_of i i.sort) (check_parent id i w).1
            (λ _ _. sort_of_tables _ i i.sort ∙ check_parent_tables w id i)
            (λ _ _. sort_of_tables _ i i.sort ∙ check_parent_tables w id i))

  pub build_tables :
      (fresh id : String) (r : MenuInput) (w : World Tables Effect)
      → (build_menu_from_input l clock operator log_id fresh id r w).1.tables ≡ w.tables
  unfolding build_menu_from_input
  build_tables fresh id r w =
      bind_after (λ t. t ≡ w.tables) _ (lift (numbers_of l clock operator log_id r (trimmed r))) w
        (λ _ _. refl) (λ n _. complete_tables fresh id (trimmed r) n w)

  complete_ok :
      (fresh id : String) (i : MenuInput) (n : Numbers) (w : World Tables Effect) {m : Menu}
      → (complete_row l clock operator log_id fresh id i n w).0 ≡ ok m
      → ((check_parent id i w).0 ≡ ok tt)
        × (sort : ℕ) × (now : ℕ) × (m ≡ menu_row i n sort (if is_empty id then fresh else id) now)
  unfolding complete_row
  complete_ok fresh id i n w {m} h =
      let rest = λ (sort : ℕ). at_time clock (λ now.
        pure {S = Tables} {E = Effect}
          (menu_row i n sort (if is_empty id then fresh else id) now)) in
      let (u, parent, e) = bind_ok (λ _. sort_of i i.sort >>= rest) (check_parent id i) w h in
      let (sort, _, e') =
        bind_ok rest (sort_of i i.sort) (check_parent id i w).1 (subst (λ p. p.0 ≡ ok m) e h) in
      let last = subst (λ p. p.0 ≡ ok m) (e ∙ e') h in
      (parent, sort, clock (sort_of i i.sort (check_parent id i w).1).1.calls, ground arith)

  -- What a row that the checks let through is made of.
  pub build_ok :
      (fresh id : String) (r : MenuInput) (w : World Tables Effect) {m : Menu}
      → (build_menu_from_input l clock operator log_id fresh id r w).0 ≡ ok m
      → (n : Numbers) × (numbers_of l clock operator log_id r (trimmed r) ≡ ok n)
        × ((check_parent id (trimmed r) w).0 ≡ ok tt)
        × (sort : ℕ) × (now : ℕ) × (m
            ≡ menu_row (trimmed r) n sort (if is_empty id then fresh else id) now)
  unfolding build_menu_from_input
  build_ok fresh id r w {m} h =
      let (n, checked, e) =
        bind_ok (complete_row l clock operator log_id fresh id (trimmed r))
          (lift (numbers_of l clock operator log_id r (trimmed r))) w h in
      let (parent, sort, now, same) =
        complete_ok fresh id (trimmed r) n w (subst (λ p. p.0 ≡ ok m) e h) in
      (n, checked, parent, sort, now, same)

  build_parent :
      (fresh id : String) (r : MenuInput) (w : World Tables Effect) {m : Menu}
      → (build_menu_from_input l clock operator log_id fresh id r w).0 ≡ ok m
      → HasParent w.tables.menus m.parent_id
  unfolding menu_row
  build_parent fresh id r w h =
      let (n, _, checked, sort, now, e) = build_ok fresh id r w h in
      subst (λ x. HasParent w.tables.menus x.parent_id) (sym e)
        (check_parent_ok w id (trimmed r) checked)

  find_tables :
      (id : String) (w : World Tables Effect)
      → (find_menu l clock operator log_id id w).1.tables ≡ w.tables
  unfolding get_menu first
  find_tables id w = ground arith

  store_new-Kept :
      (m : Menu) (w : World Tables Effect)
      → Kept w.tables
      → HasParent w.tables.menus m.parent_id
      → Kept (store_new l clock operator log_id m w).1.tables
  unfolding store_new
  store_new-Kept m w h new =
      stored_Kept l clock operator log_id wrap_menu_duplicate_error (create m) _ m
        (λ _. pure (model_menu_to_proto m)) w (λ _ _. refl) h (create-Kept (ticked w) m h new)

  create_menu-Kept :
      (fresh : String) (r : MenuInput) (w : World Tables Effect)
      → Kept w.tables
      → Kept (create_menu l clock operator log_id fresh r w).1.tables
  unfolding create_menu
  create_menu-Kept fresh r w h =
      let same = build_tables fresh "" r w in
      let before = subst Kept (sym same) h in
      bind_after Kept (store_new l clock operator log_id)
        (build_menu_from_input l clock operator log_id fresh "" r) w (λ _ _. before)
        (λ m e.
          store_new-Kept m _ before
            (subst (λ t. HasParent t.menus m.parent_id) (sym same) (build_parent fresh "" r w e)))

  store_changed-Kept :
      (existing m : Menu) (w : World Tables Effect)
      → Kept w.tables
      → HasParent w.tables.menus m.parent_id
      → Kept (store_changed l clock operator log_id existing m w).1.tables
  unfolding store_changed
  store_changed-Kept existing m w h new =
      stored_Kept l clock operator log_id wrap_menu_duplicate_error (update m) _ m
        (λ _. pure (model_menu_to_proto m)) w (λ _ _. refl) h (update-Kept (ticked w) m h new)

  change_menu-Kept :
      (id : String) (r : MenuInput) (existing : Menu) (w : World Tables Effect)
      → Kept w.tables
      → Kept (change_menu l clock operator log_id id r existing w).1.tables
  unfolding change_menu
  change_menu-Kept id r existing w h =
      let same = build_tables "" id r w in
      let before = subst Kept (sym same) h in
      guard_after Kept (is_generated_function_menu existing) _ _ w h (λ _.
        bind_after Kept _ (build_menu_from_input l clock operator log_id "" id r) w (λ _ _. before)
          (λ m e.
            store_changed-Kept existing (keep_of l clock operator log_id existing m) _ before
              (subst (λ t. HasParent t.menus m.parent_id) (sym same) (build_parent "" id r w e))))

  update_menu-Kept :
      (raw : String) (r : MenuInput) (w : World Tables Effect)
      → Kept w.tables
      → Kept (update_menu l clock operator log_id raw r w).1.tables
  unfolding update_menu
  update_menu-Kept raw r w h =
      let before = subst Kept (sym (find_tables (trim_space raw) w)) h in
      guard_after Kept (is_empty (trim_space raw)) _ _ w h (λ _.
        bind_after Kept (change_menu l clock operator log_id (trim_space raw) r)
          (find_menu l clock operator log_id (trim_space raw)) w (λ _ _. before)
          (λ m _. change_menu-Kept (trim_space raw) r m _ before))

  delete_found-Kept :
      (id : String) (existing : Menu) (children : ℕ) (w : World Tables Effect)
      → count_where (is_child id) w.tables.menus ≡ children
      → Kept w.tables
      → Kept (delete_found l clock operator log_id id existing children w).1.tables
  unfolding delete_found
  delete_found-Kept id existing children w count h = guard_after Kept (ltb 0 children) _ _ w h (λ e.
      let lone : children ≡ 0 = ground arith in
      deleted_Kept l clock operator log_id wrap_menu_not_found_error (delete id) _ existing w h
        (delete-Kept (ticked w) id (count ∙ lone) h))

  delete_known-Kept :
      (id : String) (existing : Menu) (w : World Tables Effect)
      → Kept w.tables
      → Kept (delete_known l clock operator log_id id existing w).1.tables
  unfolding delete_known
  delete_known-Kept id existing w h =
      let same = count_tables w id in
      let before = subst Kept (sym same) h in
      guard_after Kept (is_generated_function_menu existing) _ _ w h (λ _.
        bind_after Kept (delete_found l clock operator log_id id existing) (count_children id) w
          (λ _ _. before)
          (λ n e.
            delete_found-Kept id existing n _
              (ap (λ t. count_where (is_child id) t.menus) same ∙ count_ok w id e) before))

  delete_menu-Kept :
      (raw : String) (w : World Tables Effect)
      → Kept w.tables
      → Kept (delete_menu l clock operator log_id raw w).1.tables
  unfolding delete_menu
  delete_menu-Kept raw w h =
      let before = subst Kept (sym (find_tables (trim_space raw) w)) h in
      guard_after Kept (is_empty (trim_space raw)) _ _ w h (λ _.
        bind_after Kept (delete_known l clock operator log_id (trim_space raw))
          (find_menu l clock operator log_id (trim_space raw)) w (λ _ _. before)
          (λ m _. delete_known-Kept (trim_space raw) m _ before))

  switch_Kept :
      (raw : String) (status : ℕ) (w : World Tables Effect)
      → Kept w.tables
      → Kept (set_menu_status l clock operator log_id raw status w).1.tables
  unfolding set_menu_status switch_found
  switch_Kept raw status w h =
      let before = subst Kept (sym (find_tables (trim_space raw) w)) h in
      guard_after Kept (is_empty (trim_space raw)) _ _ w h (λ _.
        bind_after Kept _ (find_menu l clock operator log_id (trim_space raw)) w (λ _ _. before)
          (λ m _.
            stored_Kept l clock operator log_id wrap_menu_not_found_error
              (update_status (trim_space raw) status _) _ (with_status status _ m) _ _ (λ _ _. refl)
              before (update_status-Kept (ticked _) (trim_space raw) status _ before)))

  -- Every menu that names a parent has it, and goes on to have it whatever CreateMenu, UpdateMenu,
  -- DeleteMenu, EnableMenu or DisableMenu is called with, whatever calls fail on the way, and
  -- whether they return an error or not.
  pub edits-HasParents :
      (fresh raw : String) (r : MenuInput) (w : World Tables Effect)
      → HasParents w.tables.menus
      → HasParents (create_menu l clock operator log_id fresh r w).1.tables.menus
        × HasParents (update_menu l clock operator log_id raw r w).1.tables.menus
        × HasParents (delete_menu l clock operator log_id raw w).1.tables.menus
        × HasParents (enable_menu l clock operator log_id raw w).1.tables.menus
        × HasParents (disable_menu l clock operator log_id raw w).1.tables.menus
  edits-HasParents fresh raw r w h = (
    create_menu-Kept fresh r w h,
    update_menu-Kept raw r w h,
    delete_menu-Kept raw w h,
    switch_Kept raw menu_status_enabled w h,
    switch_Kept raw menu_status_disabled w h,
  )
