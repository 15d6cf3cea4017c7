-- ===== src/Menu/Edit.antt =====
-- system/internal/logic/menu.go: how a menu is created, changed, switched and deleted.
-- `clock` gives the time after a number of calls, `fresh` and `log_id` are what uuid.NewString
-- returns, and `operator` is the user of the metadata of the request.
pub mod Parents
pub mod Keeping
pub mod Invariant
pub mod Created
use ai_dandelion.Base.{
  ℕ, String, Bool, true, false, Option, none, some, ◌==◌, ltb, if◌then◌else◌, is_empty, trim_space,
}
use ai_dandelion.Db.{
  Err, msg, Result, ok, err, lift, at_time, fail_as, transaction, pure, raise, ◌>>=◌, ◌>>◌,
}
use ai_dandelion.Menu.Model.{
  Menu, MenuAction, MenuInput, Operator, menu_status_enabled, menu_status_disabled,
  is_generated_function_menu,
}
use ai_dandelion.Menu.Tree.{MenuView, model_menu_to_proto}
use ai_dandelion.Menu.Store.{
  get_menu, create, update, update_status, delete, count_children, create_log, with_status,
}
use ai_dandelion.Menu.Input.{
  wrap_menu_not_found_error, wrap_menu_duplicate_error, menu_audit, Change, operation_log,
  menu_type_of, status_of, visible_of, trimmed, required, validate_placement, check_parent, sort_of,
  Numbers, menu_row,
}

-- Whether the logic has a log of operations.
pub record MenuLogic : Type 0 where
  pub has_log : Bool

module _ (l : MenuLogic) (clock : ℕ → ℕ) (operator : Option Operator) (log_id : String) where
  unfoldable pub record_menu_change : Change → Menu → MenuAction Unit
  record_menu_change c m =
      if l.has_log
      then at_time clock (λ now. create_log (operation_log log_id operator c m now))
      else pure tt

  -- The checks that need no database.
  unfoldable pub numbers_of : MenuInput → MenuInput → Result Numbers
  unfolding required menu_type_of validate_placement status_of visible_of
  numbers_of request i = elim (required i) [
    | err e ↦ err e
    | ok _ ↦ elim (menu_type_of request.menu_type) [
      | err e ↦ err e
      | ok menu_type ↦ elim (validate_placement i.placement) [
        | err e ↦ err e
        | ok _ ↦ elim (status_of request.status) [
          | err e ↦ err e
          | ok status ↦ elim (visible_of request.visible) [
            | err e ↦ err e
            | ok visible ↦ ok (record { menu_type = menu_type; status = status; visible = visible })
          ]
        ]
      ]
    ]
  ]

  -- `id` is empty for a new menu.
  unfoldable pub complete_row : String → String → MenuInput → Numbers → MenuAction Menu
  unfolding check_parent sort_of
  complete_row fresh id i n =
      check_parent id i
      >> (sort_of i i.sort >>= λ sort.
          at_time clock (λ now. pure (menu_row i n sort (if is_empty id then fresh else id) now)))

  unfoldable pub build_menu_from_input : String → String → MenuInput → MenuAction Menu
  unfolding numbers_of complete_row trimmed
  build_menu_from_input fresh id request =
      lift (numbers_of request (trimmed request)) >>= complete_row fresh id (trimmed request)

  unfoldable pub store_new : Menu → MenuAction MenuView
  unfolding record_menu_change
  store_new m =
      fail_as wrap_menu_duplicate_error (
        transaction (
          create m
          >> record_menu_change
              (record {
                action = "menu.create";
                action_label = "创建菜单";
                before = none;
                after = some (menu_audit m);
              })
              m))
      >> pure (model_menu_to_proto m)

  unfoldable pub create_menu : String → MenuInput → MenuAction MenuView
  unfolding build_menu_from_input store_new
  create_menu fresh request = build_menu_from_input fresh "" request >>= store_new

  unfoldable pub store_changed : Menu → Menu → MenuAction MenuView
  unfolding record_menu_change
  store_changed existing m =
      fail_as wrap_menu_duplicate_error (
        transaction (
          update m
          >> record_menu_change
              (record {
                action = "menu.update";
                action_label = "更新菜单";
                before = some (menu_audit existing);
                after = some (menu_audit m);
              })
              m))
      >> pure (model_menu_to_proto m)

  abbrev pub keep_of : Menu → Menu → Menu
  keep_of existing m = record m {
    created_at = existing.created_at;
    sort = if m.sort == 0 then existing.sort else m.sort;
  }

  unfoldable pub change_menu : String → MenuInput → Menu → MenuAction MenuView
  unfolding build_menu_from_input store_changed
  change_menu id request existing =
      if is_generated_function_menu existing
      then raise (msg "generated function menu is read-only")
      else build_menu_from_input "" id request >>= λ m. store_changed existing (keep_of existing m)

  abbrev pub find_menu : String → MenuAction Menu
  find_menu id = fail_as wrap_menu_not_found_error (get_menu id)

  unfoldable pub update_menu : String → MenuInput → MenuAction MenuView
  unfolding change_menu
  update_menu raw request =
      if is_empty (trim_space raw)
      then raise (msg "id is required")
      else find_menu (trim_space raw) >>= change_menu (trim_space raw) request

  unfoldable pub delete_found : String → Menu → ℕ → MenuAction Unit
  unfolding record_menu_change
  delete_found id existing children =
      if ltb 0 children
      then raise (msg "menu has children")
      else fail_as wrap_menu_not_found_error (
          transaction (
            delete id
            >> record_menu_change
                (record {
                  action = "menu.delete";
                  action_label = "删除菜单";
                  before = some (menu_audit existing);
                  after = none;
                })
                existing))

  unfoldable pub delete_known : String → Menu → MenuAction Unit
  unfolding delete_found
  delete_known id existing =
      if is_generated_function_menu existing
      then raise (msg "generated function menu cannot be deleted manually")
      else count_children id >>= delete_found id existing

  unfoldable pub delete_menu : String → MenuAction Unit
  unfolding delete_known
  delete_menu raw =
      if is_empty (trim_space raw)
      then raise (msg "id is required")
      else find_menu (trim_space raw) >>= delete_known (trim_space raw)

  unfoldable pub switch_found : String → ℕ → Menu → ℕ → MenuAction MenuView
  unfolding record_menu_change
  switch_found id status existing now =
      fail_as wrap_menu_not_found_error (
        transaction (
          update_status id status now
          >> record_menu_change
              (record {
                action = if status == menu_status_disabled then "menu.disable" else "menu.enable";
                action_label = if status == menu_status_disabled then "禁用菜单" else "启用菜单";
                before = some (menu_audit existing);
                after = some (menu_audit (with_status status now existing));
              })
              (with_status status now existing)))
      >> pure (model_menu_to_proto (with_status status now existing))

  unfoldable pub set_menu_status : String → ℕ → MenuAction MenuView
  unfolding switch_found
  set_menu_status raw status =
      if is_empty (trim_space raw)
      then raise (msg "id is required")
      else find_menu (trim_space raw) >>= λ m.
          at_time clock (switch_found (trim_space raw) status m)

  abbrev pub enable_menu : String → MenuAction MenuView
  enable_menu raw = set_menu_status raw menu_status_enabled

  abbrev pub disable_menu : String → MenuAction MenuView
  disable_menu raw = set_menu_status raw menu_status_disabled
