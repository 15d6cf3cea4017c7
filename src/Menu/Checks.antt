-- ===== src/Menu/Checks.antt =====
-- Whether a user may use a menu or an action of a function: CheckMenuAccess and
-- CheckFunctionMenuAccess of system/internal/logic/menu_function_sync.go, and the code of
-- func-operation/internal/logic that asks them, authorization.go and CheckAccess of
-- function_menu_sync.go. `caller` is the user of the metadata, which is sent along.
pub mod Granting
pub mod Actions
mod Tests
use Prim.Native.String.{◌++◌ as ◌<>◌}
use ai_dandelion.Base.{
  ℕ, String, Bool, true, false, not, ◌&&◌, ◌||◌, Option, none, some, List, [], ◌∷◌, ◌==◌,
  if◌then◌else◌, str_eq, str_less, is_empty, trim_space, find_first,
}
use ai_dandelion.Db.{
  Result, ok, err, Err, not_found, fault, msg, first, pure, raise, attempt, ◌>>=◌,
}
use ai_dandelion.Menu.Model.{
  Menu, MenuAction, menu_status_enabled, menu_visible_yes, menu_type_menu,
  source_generated_function,
}
use ai_dandelion.Menu.Access.{has, menu_ids_to_set, expand_allowed_menu_ids}
use ai_dandelion.Menu.Nav.{MenuListFilter, list_menu_rows, list_menu_ids_by_user, nav_user}

abbrev pub has_code : String → Menu → Bool
has_code code m = str_eq m.code code

unfoldable pub get_by_code : String → MenuAction Menu
get_by_code code = first (λ t. find_first (has_code code) t.menus)

abbrev pub is_made_from : String → String → ℕ → Menu → Bool
is_made_from source_type source_id kind m =
    str_eq m.source_type source_type && str_eq m.source_id source_id && m.menu_type == kind

abbrev lesser : Menu → Option Menu → Menu
lesser m none = m
lesser m (some x) = if str_less x.id m.id then x else m

-- gorm's `First` orders by the primary key: of the rows that a test accepts, the one with the least
-- id.
unfoldable pub first_by_id : (Menu → Bool) → List Menu → Option Menu
first_by_id p [] = none
first_by_id p (m ∷ ms) = let rest = first_by_id p ms in if p m then some (lesser m rest) else rest

unfoldable pub get_by_source_id_and_menu_type : String → String → ℕ → MenuAction Menu
unfolding first_by_id
get_by_source_id_and_menu_type source_type source_id kind =
    first (λ t. first_by_id (is_made_from source_type source_id kind) t.menus)

abbrev pub function_menu_code : String → String
function_menu_code id = "func-operation.app." <> trim_space id

abbrev pub function_action_menu_code : String → String → String
function_action_menu_code id action_key =
    if is_empty (trim_space id) || is_empty (trim_space action_key)
    then ""
    else function_menu_code (trim_space id) <> "." <> trim_space action_key

abbrev pub or_by_code : String → Result Menu → MenuAction Menu
or_by_code id (ok m) = pure m
or_by_code id (err not_found) = get_by_code (function_menu_code id)
or_by_code id (err e) = raise e

unfoldable pub lookup_generated_function_menu : String → MenuAction Menu
unfolding get_by_source_id_and_menu_type get_by_code
lookup_generated_function_menu id =
    attempt (get_by_source_id_and_menu_type source_generated_function id menu_type_menu)
    >>= or_by_code id

abbrev pub lookup_generated_function_action_menu : String → String → MenuAction Menu
lookup_generated_function_action_menu id action_key =
    get_by_code (function_action_menu_code id action_key)

abbrev pub no_filter : MenuListFilter
no_filter = record { module_name = ""; placement = ""; status = 0 }

abbrev pub is_shown : Menu → Bool
is_shown m = m.status == menu_status_enabled && m.visible == menu_visible_yes

-- A menu that is not there or not shown is not allowed; another error is returned.
abbrev pub if_shown : (Menu → MenuAction Bool) → Result Menu → MenuAction Bool
if_shown f (err not_found) = pure false
if_shown f (err e) = raise e
if_shown f (ok m) = if is_shown m then f m else pure false

abbrev pub is_allowed : List String → Menu → MenuAction Bool
is_allowed allowed m = pure (has m.id allowed)

unfoldable pub check_menu_access : Option String → String → String → MenuAction Bool
unfolding list_menu_rows list_menu_ids_by_user get_by_code
check_menu_access caller requested code =
    if is_empty (nav_user caller requested) || is_empty (trim_space code)
    then pure false
    else list_menu_rows no_filter >>= λ menus.
        list_menu_ids_by_user (nav_user caller requested) >>= λ ids.
        attempt (get_by_code (trim_space code))
        >>= if_shown (is_allowed (expand_allowed_menu_ids menus (menu_ids_to_set ids)))

abbrev pub check_action : String → String → List String → Menu → MenuAction Bool
check_action id action_key allowed target =
    if is_empty action_key
    then is_allowed allowed target
    else attempt (lookup_generated_function_action_menu id action_key)
      >>= if_shown (is_allowed allowed)

abbrev pub check_function : String → String → List Menu → List String → MenuAction Bool
check_function id action_key menus [] = pure false
check_function id action_key menus (m ∷ ids) =
    attempt (lookup_generated_function_menu id)
    >>= if_shown
        (check_action id action_key (expand_allowed_menu_ids menus (menu_ids_to_set (m ∷ ids))))

unfoldable pub check_function_menu_access :
    Option String → String → String → String → MenuAction Bool
unfolding list_menu_rows list_menu_ids_by_user lookup_generated_function_menu
check_function_menu_access caller requested id action_key =
    if is_empty (trim_space id)
    then raise (msg "function_id is required")
    else if is_empty (nav_user caller requested)
    then pure false
    else list_menu_rows no_filter >>= λ menus.
        list_menu_ids_by_user (nav_user caller requested) >>= λ ids.
        check_function (trim_space id) (trim_space action_key) menus ids

-- Whether there is a client of the system service, and whether its call fails.
module _ (has_system call_fails : Bool) where
  abbrev pub call_of : MenuAction Bool → MenuAction Bool
  call_of m = if call_fails then raise (fault "call failed") else m

  abbrev pub allowed_for : Option String → String → MenuAction Bool
  allowed_for none code = pure false
  allowed_for (some user) code =
      if is_empty (trim_space user)
      then pure false
      else call_of (check_menu_access (some user) user (trim_space code))

  -- FunctionAuthorizer.Allowed and Require
  unfoldable pub allowed : Option String → String → MenuAction Bool
  unfolding check_menu_access
  allowed caller code =
      if not has_system
      then raise (msg "function authorization is not configured")
      else allowed_for caller code

  unfoldable pub require : Option String → String → MenuAction Unit
  unfolding allowed
  require caller code =
      allowed caller code >>= λ yes. if yes then pure tt else raise (msg "permission denied")

  abbrev pub user_named : Option String → String → String
  user_named none requested = requested
  user_named (some user) requested = user

  -- FunctionMenuSync.CheckAccess
  unfoldable pub check_access : Option String → String → String → String → MenuAction Bool
  unfolding check_function_menu_access
  check_access caller requested id action_key =
      if not has_system
      then raise (msg "function menu authorization is not configured")
      else if is_empty (trim_space (user_named caller requested))
      then pure false
      else call_of (
          check_function_menu_access caller (trim_space (user_named caller requested))
            (trim_space id) (trim_space action_key))
