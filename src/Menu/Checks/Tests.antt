-- ===== src/Menu/Checks/Tests.antt =====
-- The theorems on the checks at concrete inputs.
use ai_dandelion.Base.{
  ◌≡◌, refl, ◌↔◌, true, false, some, [], ◌∷◌, any, find_last, find_first, select, trim_space,
  is_empty,
}
use ai_dandelion.Db.{World, ok, err, msg, query, first}
use ai_dandelion.Menu.Model.{Menu, Tables, Effect, source_generated_function}
use ai_dandelion.Menu.Access.{
  has, by_id, platform_by_module, menu_ids_to_set, visit_up, visit_seeds, add_platforms,
  expand_allowed_menu_ids,
}
use ai_dandelion.Menu.Nav.{
  rows_of, sort_rows, insert_row, row_before, list_menu_rows, list_menu_ids_by_user, granted_ids,
  distinct_ids,
}
use ai_dandelion.Menu.Sample.{row, console, calm}
use ai_dandelion.Menu.Checks.{
  require, check_access, check_function_menu_access, lookup_generated_function_menu,
  get_by_source_id_and_menu_type, first_by_id, get_by_code,
}
use ai_dandelion.Menu.Checks.Granting.{Authorized, require-Authorized}
use ai_dandelion.Menu.Checks.Actions.{MayRun, check_access-MayRun}

u1_is_named : is_empty (trim_space "u1") ≡ false
unfolding trim_space
u1_is_named = refl

plain_code : trim_space "users" ≡ "users"
unfolding trim_space
plain_code = refl

require-Authorized_example :
    (((require true false (some "u1") "users" calm).0 ≡ ok tt)
      ↔ Authorized "u1" "users" calm.tables)
    × (((require true false (some "u1") "users" calm).0 ≡ err (msg "permission denied"))
        ↔ (¬ Authorized "u1" "users" calm.tables))
require-Authorized_example =
    require-Authorized "u1" "users" calm (λ n. refl) u1_is_named refl plain_code

abbrev app : Menu
app = record (row "app" "console" 2 30) {
  code = "func-operation.app.f1";
  source_type = source_generated_function;
  source_id = "f1";
}

abbrev run : Menu
run = record (row "run" "app" 3 40) { code = "func-operation.app.f1.run" }

-- The role of the user has the action, not the function.
abbrev with_app : World Tables Effect
with_app = record calm {
  tables = record calm.tables {
    menus = console ∷ app ∷ run ∷ [];
    role_menus = record { role_id = "r1"; menu_id = "run"; created_at = 1 } ∷ [];
  };
}

may_run : (check_access true false (some "u1") "u2" "f1" "run" with_app).0 ≡ ok true
unfolding check_access check_function_menu_access list_menu_rows query rows_of sort_rows insert_row
    row_before select list_menu_ids_by_user granted_ids distinct_ids any menu_ids_to_set has
    expand_allowed_menu_ids visit_seeds visit_up by_id find_last add_platforms platform_by_module
    lookup_generated_function_menu get_by_source_id_and_menu_type first_by_id get_by_code first
    find_first trim_space
may_run = refl

plain_id : trim_space "f1" ≡ "f1"
unfolding trim_space
plain_id = refl

plain_key : trim_space "run" ≡ "run"
unfolding trim_space
plain_key = refl

check_access-MayRun_example : MayRun "u1" "f1" "run" with_app.tables
check_access-MayRun_example =
    check_access-MayRun true false "u1" "u2" "f1" "run" with_app plain_id plain_key may_run
