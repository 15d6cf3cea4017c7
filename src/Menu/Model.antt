-- ===== src/Menu/Model.antt =====
-- The rows of system/internal/model/menu.go, role.go and operation_log.go that the menus read and
-- write, and the requests of system/internal/logic/menu.go. A number of a request may be negative;
-- the columns hold what the code writes, which is not.
use ai_dandelion.Base.{ℕ, String, Bool, Option, List, str_eq, ◌||◌, has_prefix}
use ai_dandelion.Db.{Action}
use ai_dandelion.Auth.Model.{Role, UserRole}

-- A signed integer: `pos n` is n and `negsuc n` is -(n + 1).
pub data ℤ : Type 0 where
  pos : ℕ → ℤ
  negsuc : ℕ → ℤ

pub record Menu : Type 0 where
  pub id : String
  pub parent_id : String
  pub module_name : String
  pub placement : String
  pub name : String
  pub code : String
  pub view_key : String
  pub icon : String
  pub menu_type : ℕ
  pub sort : ℕ
  pub status : ℕ
  pub visible : ℕ
  pub is_default : Bool
  pub remark : String
  pub source_type : String
  pub source_id : String
  pub created_at : ℕ
  pub updated_at : ℕ

abbrev pub menu_type_directory : ℕ
menu_type_directory = 1

abbrev pub menu_type_menu : ℕ
menu_type_menu = 2

abbrev pub menu_type_button : ℕ
menu_type_button = 3

abbrev pub menu_status_enabled : ℕ
menu_status_enabled = 1

abbrev pub menu_status_disabled : ℕ
menu_status_disabled = 2

abbrev pub menu_visible_yes : ℕ
menu_visible_yes = 1

abbrev pub menu_visible_no : ℕ
menu_visible_no = 0

abbrev pub placement_platform : String
placement_platform = "platform"

abbrev pub placement_module_nav : String
placement_module_nav = "module_nav"

abbrev pub source_static : String
source_static = "static"

abbrev pub source_generated_function : String
source_generated_function = "generated_function"

abbrev pub func_use_menu_code : String
func_use_menu_code = "func-operation.use"

pub record RoleMenu : Type 0 where
  pub role_id : String
  pub menu_id : String
  pub created_at : ℕ

-- What an operation log keeps of a menu: the row holds its JSON text.
pub record MenuAuditSnapshot : Type 0 where
  pub parent_id : String
  pub module_name : String
  pub placement : String
  pub name : String
  pub code : String
  pub view_key : String
  pub menu_type : ℕ
  pub sort : ℕ
  pub status : ℕ
  pub visible : ℕ
  pub is_default : Bool
  pub remark : String

-- `none` is the text "{}" of a change that has no such side.
pub record OperationLog : Type 0 where
  pub id : String
  pub module_name : String
  pub action : String
  pub action_label : String
  pub resource_type : String
  pub resource_id : String
  pub resource_name : String
  pub operator_id : String
  pub operator_name : String
  pub summary : String
  pub before_data : Option MenuAuditSnapshot
  pub after_data : Option MenuAuditSnapshot
  pub created_at : ℕ

pub record Tables : Type 0 where
  pub menus : List Menu
  pub role_menus : List RoleMenu
  pub roles : List Role
  pub user_roles : List UserRole
  pub operation_logs : List OperationLog

pub data Effect : Type 0 where

abbrev pub MenuAction : Type 0 → Type 0
MenuAction A = Action Tables Effect A

-- CreateMenuReq, and UpdateMenuReq with its id.
pub record MenuInput : Type 0 where
  pub parent_id : String
  pub module_name : String
  pub placement : String
  pub name : String
  pub code : String
  pub view_key : String
  pub icon : String
  pub menu_type : ℤ
  pub sort : ℤ
  pub status : ℤ
  pub visible : ℤ
  pub is_default : Bool
  pub remark : String

-- authctx.User, of the request's metadata.
pub record Operator : Type 0 where
  pub id : String
  pub username : String

abbrev pub menu_is : String → Menu → Bool
menu_is id m = str_eq m.id id

-- isGeneratedFunctionMenu
abbrev pub is_generated_function_menu : Menu → Bool
is_generated_function_menu m =
    str_eq m.source_type source_generated_function || has_prefix m.code "func-operation.app."
