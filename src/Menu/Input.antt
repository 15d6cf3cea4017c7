-- ===== src/Menu/Input.antt =====
-- system/internal/logic/menu.go: the checks of a request for a menu, the row that it makes, and what
-- is recorded of a change. `operator` is the user of the metadata of the request.
use ai_dandelion.Base.{
  ℕ, zero, suc, ◌+◌, String, Bool, not, ◌&&◌, ◌||◌, Option, none, some, ◌==◌, if◌then◌else◌, str_eq,
  is_empty, trim_space, lower_contains,
}
use Prim.Native.String.{◌++◌ as ◌<>◌}
use ai_dandelion.Db.{Err, not_found, fault, msg, Result, ok, err, fail_as, pure, raise, ◌>>=◌}
use ai_dandelion.Menu.Model.{
  ℤ, pos, negsuc, Menu, MenuAuditSnapshot, OperationLog, MenuAction, MenuInput, Operator,
  menu_type_directory, menu_type_menu, menu_type_button, menu_status_enabled, menu_status_disabled,
  menu_visible_yes, menu_visible_no, placement_module_nav, source_static, func_use_menu_code,
}
use ai_dandelion.Menu.Store.{get_menu, max_sort}

abbrev pub error_text : Err → String
error_text not_found = "record not found"
error_text (fault m) = m
error_text (msg m) = m

unfoldable pub wrap_menu_not_found_error : Err → Err
wrap_menu_not_found_error not_found = msg "menu not found"
wrap_menu_not_found_error (fault m) = fault m
wrap_menu_not_found_error (msg m) = msg m

unfoldable pub wrap_menu_duplicate_error : Err → Err
wrap_menu_duplicate_error e =
    if lower_contains (error_text e) "duplicate" || lower_contains (error_text e) "unique"
    then msg "menu code already exists"
    else e

unfoldable pub menu_audit : Menu → MenuAuditSnapshot
menu_audit m = record {
  parent_id = m.parent_id;
  module_name = m.module_name;
  placement = m.placement;
  name = m.name;
  code = m.code;
  view_key = m.view_key;
  menu_type = m.menu_type;
  sort = m.sort;
  status = m.status;
  visible = m.visible;
  is_default = m.is_default;
  remark = m.remark;
}

abbrev pub operator_id : Option Operator → String
operator_id none = "system"
operator_id (some o) = o.id

abbrev pub operator_name : Option Operator → String
operator_name none = "系统"
operator_name (some o) = if is_empty (trim_space o.username) then "系统" else o.username

-- What is recorded of a change, but for its two sides.
pub record Change : Type 0 where
  pub action : String
  pub action_label : String
  pub before : Option MenuAuditSnapshot
  pub after : Option MenuAuditSnapshot

unfoldable pub operation_log : String → Option Operator → Change → Menu → ℕ → OperationLog
operation_log log_id operator c m now = record {
  id = log_id;
  module_name = "system";
  action = c.action;
  action_label = c.action_label;
  resource_type = "menu";
  resource_id = trim_space m.id;
  resource_name = trim_space m.name;
  operator_id = operator_id operator;
  operator_name = operator_name operator;
  summary = trim_space (operator_name operator <> c.action_label <> "「" <> m.name <> "」");
  before_data = c.before;
  after_data = c.after;
  created_at = now;
}

-- The checks that need no database, in their order.

unfoldable pub menu_type_of : ℤ → Result ℕ
menu_type_of (negsuc n) = err (msg "menu_type must be 1 (directory), 2 (menu) or 3 (button)")
menu_type_of (pos n) =
    if n == 0
    then ok menu_type_menu
    else if n == menu_type_directory || n == menu_type_menu || n == menu_type_button
    then ok n
    else err (msg "menu_type must be 1 (directory), 2 (menu) or 3 (button)")

unfoldable pub status_of : ℤ → Result ℕ
status_of (negsuc n) = err (msg "status must be 1 (enabled) or 2 (disabled)")
status_of (pos n) =
    if n == 0
    then ok menu_status_enabled
    else if n == menu_status_enabled || n == menu_status_disabled
    then ok n
    else err (msg "status must be 1 (enabled) or 2 (disabled)")

abbrev pub checked_visible : ℕ → Result ℕ
checked_visible n =
    if n == menu_visible_yes || n == menu_visible_no
    then ok n
    else err (msg "visible must be 1 or 0")

unfoldable pub visible_of : ℤ → Result ℕ
visible_of (negsuc n) = err (msg "visible must be 1 or 0")
visible_of (pos n) = checked_visible (if n == 0 then menu_visible_yes else n)

unfoldable pub trimmed : MenuInput → MenuInput
trimmed i = record i {
  parent_id = trim_space i.parent_id;
  module_name = trim_space i.module_name;
  placement = trim_space i.placement;
  name = trim_space i.name;
  code = trim_space i.code;
  view_key = if is_empty (trim_space i.view_key) then trim_space i.code else trim_space i.view_key;
  icon = trim_space i.icon;
  remark = trim_space i.remark;
}

unfoldable pub required : MenuInput → Result (Unit {0})
required i =
    if is_empty i.module_name
    then err (msg "module is required")
    else if is_empty i.placement
    then err (msg "placement is required")
    else if is_empty i.name
    then err (msg "name is required")
    else if is_empty i.code
    then err (msg "code is required")
    else ok tt

unfoldable pub validate_placement : String → Result (Unit {0})
validate_placement placement =
    if str_eq placement placement_module_nav
    then ok tt
    else err (msg "placement must be module_nav")

abbrev pub may_have_children : Menu → Bool
may_have_children p =
    p.menu_type == menu_type_directory
    || (p.menu_type == menu_type_menu && str_eq p.code func_use_menu_code)

unfoldable pub suits : MenuInput → Menu → MenuAction Unit
suits i p =
    if not (str_eq p.module_name i.module_name) || not (str_eq p.placement i.placement)
    then raise (msg "parent menu module or placement mismatch")
    else if not (may_have_children p)
    then raise (msg "parent menu must be directory")
    else pure tt

-- Any error of the query is a parent that is not found.
abbrev pub parent_not_found : Err → Err
parent_not_found e = msg "parent menu not found"

unfoldable pub check_parent : String → MenuInput → MenuAction Unit
unfolding suits
check_parent id i =
    if is_empty i.parent_id
    then pure tt
    else if not (is_empty id) && str_eq i.parent_id id
    then raise (msg "parent_id cannot be self")
    else fail_as parent_not_found (get_menu i.parent_id) >>= suits i

abbrev pub next_sort : MenuInput → MenuAction ℕ
next_sort i = max_sort i.parent_id i.module_name i.placement >>= λ m. pure (m + 10)

unfoldable pub sort_of : MenuInput → ℤ → MenuAction ℕ
sort_of i (negsuc n) = next_sort i
sort_of i (pos zero) = next_sort i
sort_of i (pos (suc n)) = pure (suc n)

-- The fields of the new row.
pub record Numbers : Type 0 where
  pub menu_type : ℕ
  pub status : ℕ
  pub visible : ℕ

unfoldable pub menu_row : MenuInput → Numbers → ℕ → String → ℕ → Menu
menu_row i n sort id now = record {
  id = id;
  parent_id = i.parent_id;
  module_name = i.module_name;
  placement = i.placement;
  name = i.name;
  code = i.code;
  view_key = i.view_key;
  icon = i.icon;
  menu_type = n.menu_type;
  sort = sort;
  status = n.status;
  visible = n.visible;
  is_default = i.is_default;
  remark = i.remark;
  source_type = source_static;
  source_id = "";
  created_at = now;
  updated_at = now;
}
