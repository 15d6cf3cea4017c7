-- ===== src/Menu/Sample.antt =====
-- Menus, grants and a state of the database, for the tests.
use ai_dandelion.Base.{ℕ, String, refl, false, none, List, [], ◌∷◌}
use ai_dandelion.Db.{World}
use ai_dandelion.Menu.Model.{Menu, Tables, Effect}
use ai_dandelion.Menu.Tree.{MenuView}
use ai_dandelion.Menu.Tree.Whole.{IsOrder}

abbrev pub row : String → String → ℕ → ℕ → Menu
row id parent kind sort = record {
  id = id;
  parent_id = parent;
  module_name = "system";
  placement = "module_nav";
  name = id;
  code = id;
  view_key = id;
  icon = "";
  menu_type = kind;
  sort = sort;
  status = 1;
  visible = 1;
  is_default = false;
  remark = "";
  source_type = "static";
  source_id = "";
  created_at = 1;
  updated_at = 1;
}

abbrev pub platform : Menu
platform = record (row "sys" "" 1 1) { placement = "platform" }

abbrev pub console : Menu
console = row "console" "" 1 10

abbrev pub users : Menu
users = row "users" "console" 2 20

abbrev pub menus : List Menu
menus = platform ∷ console ∷ users ∷ row "hidden" "" 2 30 ∷ []

-- The map is met in the order of the list.
abbrev pub in_order : List MenuView → List MenuView
in_order l = l

pub in_order-IsOrder : IsOrder in_order
in_order-IsOrder l = (λ x. (λ m. m, λ m. m), refl)

abbrev pub calm : World Tables Effect
calm = record {
  tables = record {
    menus = menus;
    role_menus = record { role_id = "r1"; menu_id = "users"; created_at = 1 } ∷ [];
    roles =
        record {
          id = "r1";
          name = "editor";
          code = "editor";
          status = 1;
          remark = "";
          sort = 0;
          created_at = 1;
          updated_at = 1;
        }
        ∷ [];
    user_roles = record { user_id = "u1"; role_id = "r1" } ∷ [];
    operation_logs = [];
  };
  calls = 0;
  faults = λ n. none;
  log = [];
}
