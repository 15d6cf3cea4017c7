-- ===== src/Menu/Edit/Keeping.antt =====
-- That the operations on menus keep the parents of the menus there.
use ai_dandelion.Base.{
  ℕ, String, ◌≡◌, refl, sym, subst, ◌⊎◌, inl, inr, not, Option, List, [], ◌∷◌, ◌++◌, select,
  count_where, update_where, arith,
}
use ai_dandelion.Db.{World, Err, exec, insert, savepoint, transaction, fail_as, ticked, ◌>>=◌, ◌>>◌}
use ai_dandelion.Db.Rules.{transaction_after, fail_as_after, bind_after}
use ai_dandelion.Menu.Model.{Menu, Tables, Effect, MenuAction, Operator, menu_is}
use ai_dandelion.Menu.Store.{
  create, update, update_status, delete, delete_grants, delete_row, create_log, overwrite,
  with_status, is_child,
}
use ai_dandelion.Menu.Input.{Change}
use ai_dandelion.Menu.Edit.{MenuLogic, record_menu_change}
use ai_dandelion.Menu.Edit.Parents.{
  HasParent, HasParents, append-HasParents, update-HasParents, select-HasParents,
}

abbrev pub Kept : Tables → Type 0
Kept t = HasParents t.menus

module _ (w : World Tables Effect) where
  create_menus :
      (m : Menu)
      → ((create m w).1.tables.menus ≡ w.tables.menus)
        ⊎ ((create m w).1.tables.menus ≡ w.tables.menus ++ (m ∷ []))
  unfolding create insert
  create_menus m = ground arith

  update_menus :
      (m : Menu)
      → ((update m w).1.tables.menus ≡ w.tables.menus)
        ⊎ ((update m w).1.tables.menus ≡ update_where (menu_is m.id) (overwrite m) w.tables.menus)
  unfolding update insert
  update_menus m = ground arith

  update_status_menus :
      (id : String) (status now : ℕ)
      → ((update_status id status now w).1.tables.menus ≡ w.tables.menus)
        ⊎ ((update_status id status now w).1.tables.menus
            ≡ update_where (menu_is id) (with_status status now) w.tables.menus)
  unfolding update_status exec
  update_status_menus id status now = ground arith

  delete_menus :
      (id : String)
      → ((delete id w).1.tables.menus ≡ w.tables.menus)
        ⊎ ((delete id w).1.tables.menus ≡ select (λ m. not (menu_is id m)) w.tables.menus)
  unfolding delete savepoint delete_grants delete_row exec
  delete_menus id = ground arith

  either_kept :
      {rows after : List Menu}
      → (after ≡ w.tables.menus) ⊎ (after ≡ rows)
      → HasParents w.tables.menus
      → HasParents rows
      → HasParents after
  either_kept (inl e) before h = subst HasParents (sym e) before
  either_kept (inr e) before h = subst HasParents (sym e) h

  pub create-Kept :
      (m : Menu) → Kept w.tables → HasParent w.tables.menus m.parent_id → Kept (create m w).1.tables
  create-Kept m h new = either_kept (create_menus m) h (append-HasParents w.tables.menus m h new)

  pub update-Kept :
      (m : Menu) → Kept w.tables → HasParent w.tables.menus m.parent_id → Kept (update m w).1.tables
  update-Kept m h new =
      either_kept (update_menus m) h
        (update-HasParents m.id (overwrite m) (λ x. refl) w.tables.menus h (λ x _. new))

  pub update_status-Kept :
      (id : String) (status now : ℕ) → Kept w.tables → Kept (update_status id status now w).1.tables
  update_status-Kept id status now h =
      either_kept (update_status_menus id status now) h
        (update-HasParents id (with_status status now) (λ x. refl) w.tables.menus h h)

  pub delete-Kept :
      (id : String)
      → count_where (is_child id) w.tables.menus ≡ 0
      → Kept w.tables
      → Kept (delete id w).1.tables
  delete-Kept id lone h =
      either_kept (delete_menus id) h (select-HasParents id w.tables.menus lone h)

module _ (l : MenuLogic) (clock : ℕ → ℕ) (operator : Option Operator) (log_id : String) where
  pub record_menus :
      (c : Change) (m : Menu) (w : World Tables Effect)
      → (record_menu_change l clock operator log_id c m w).1.tables.menus ≡ w.tables.menus
  unfolding record_menu_change create_log exec
  record_menus c m w = ground arith

  -- An action and the record of it, as one transaction.
  pub deleted_Kept :
      (f : Err → Err) (step : MenuAction Unit) (c : Change) (m : Menu) (w : World Tables Effect)
      → Kept w.tables
      → Kept (step (ticked w)).1.tables
      → Kept
          (fail_as f
            (transaction (step >> record_menu_change l clock operator log_id c m))
            w).1.tables
  deleted_Kept f step c m w before after =
      fail_as_after Kept f (transaction (step >> record_menu_change l clock operator log_id c m)) w
        (transaction_after Kept (step >> record_menu_change l clock operator log_id c m) w before (
          bind_after Kept (λ _. record_menu_change l clock operator log_id c m) step (ticked w)
            (λ _ _. after)
            (λ _ _. subst HasParents (sym (record_menus c m (step (ticked w)).1)) after)))

  pub stored_Kept :
      {A : Type 0} (f : Err → Err) (step : MenuAction Unit) (c : Change) (m : Menu)
      (next : Unit → MenuAction A) (w : World Tables Effect)
      → ((u : Unit) (w : World Tables Effect) → (next u w).1.tables ≡ w.tables)
      → Kept w.tables
      → Kept (step (ticked w)).1.tables
      → Kept
          ((fail_as f (transaction (step >> record_menu_change l clock operator log_id c m))
              >>= next)
            w).1.tables
  stored_Kept f step c m next w still before after =
      let kept = deleted_Kept f step c m w before after in
      bind_after Kept next
        (fail_as f (transaction (step >> record_menu_change l clock operator log_id c m))) w
        (λ _ _. kept) (λ u _. subst Kept (sym (still u _)) kept)
