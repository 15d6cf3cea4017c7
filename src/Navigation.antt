-- ===== src/Navigation.antt =====
-- ai-agent/internal/logic/navigation.go: the pages that an agent may send the browser to. The system
-- service answers by its GetNavMenus (Menu.Nav); `call_fails` tells whether the call itself fails,
-- and `to_lower` is `strings.ToLower`. A result of a tool is the value that is encoded as JSON,
-- which does not fail on texts. The number of an input is a natural one: the code takes a negative
-- limit for 1, as it does 0.
pub mod Targets
pub mod Offered
mod Tests
use ai_dandelion.Base.{
  ℕ, String, Bool, true, false, ◌&&◌, ◌||◌, not, Option, none, some, List, [], ◌∷◌, ◌++◌, ◌==◌, ltb,
  if◌then◌else◌, str_eq, is_empty, trim_space, contains, select, find_first, take, length,
}
use ai_dandelion.Db.{Result, ok, err, Err, fault, pure, attempt, raise, ◌>>=◌}
use ai_dandelion.Json.{Value, Entries, value_at, string_value, of_number}
use ai_dandelion.Menu.Model.{MenuAction, menu_type_menu}
use ai_dandelion.Menu.Tree.{MenuView, Forest, no_trees, tree, Tree, node}
use ai_dandelion.Menu.Nav.{get_nav_menus}

pub record Target : Type 0 where
  pub id : String
  pub label : String
  pub description : String
  pub module_name : String
  pub view_key : String
  pub code : String
  pub source_type : String
  pub source_id : String

-- navigationResult: an error, with the id that was asked for where there is one; the targets and
-- their count; or the action that the browser takes.
pub data ToolResult : Type 0 where
  refused : String → ToolResult
  failed : Err → ToolResult
  not_permitted : String → ToolResult
  targets : List Target → ℕ → ToolResult
  accepted : (target_id module_name view_key source_type source_id : String) → ToolResult

abbrev pub string_input : String → Entries → String
string_input key input = trim_space (string_value (value_at key input))

abbrev pub number_or : ℕ → Value → ℕ
number_or fallback (of_number n) = n
number_or fallback _ = fallback

abbrev pub int_input : String → ℕ → Entries → ℕ
int_input key fallback input = number_or fallback (value_at key input)

abbrev pub limit_of : ℕ → ℕ
limit_of n = if ltb n 1 then 1 else if ltb 20 n then 20 else n

-- A page with an id.
abbrev pub is_page : MenuView → Bool
is_page v = v.menu_type == menu_type_menu && not (is_empty (trim_space v.id))

abbrev pub target_of : MenuView → Target
target_of v = record {
  id = v.id;
  label = v.name;
  description = v.remark;
  module_name = v.module_name;
  view_key = v.view_key;
  code = v.code;
  source_type = v.source_type;
  source_id = v.source_id;
}

unfoldable mutual
  pub flatten_navigation_targets : Forest → List Target
  flatten_navigation_targets no_trees = []
  flatten_navigation_targets (tree t ts) = flatten_tree t ++ flatten_navigation_targets ts

  pub flatten_tree : Tree → List Target
  flatten_tree (node v children) =
      (if is_page v then target_of v ∷ [] else []) ++ flatten_navigation_targets children

abbrev pub is_target : String → Target → Bool
is_target id t = str_eq t.id id

-- `RequireUserID`, whose error is not looked at.
abbrev pub user_or_empty : Option String → String
user_or_empty none = ""
user_or_empty (some id) = id

module _ (to_lower : String → String) where
  abbrev pub shows : String → String → Bool
  shows query text = contains (to_lower (trim_space text)) query

  unfoldable pub navigation_target_matches : String → Target → Bool
  navigation_target_matches query t =
      shows query t.label
      || shows query t.description
      || shows query t.module_name
      || shows query t.view_key
      || shows query t.code
      || shows query t.source_id

  abbrev pub searched : String → List Target → List Target
  searched query ts = if is_empty query then ts else select (navigation_target_matches query) ts

  unfoldable pub listed : String → ℕ → Forest → List Target
  unfolding navigation_target_matches flatten_navigation_targets
  listed query limit f = take limit (searched query (flatten_navigation_targets f))

module _ (order : List MenuView → List MenuView) (has_client call_fails : Bool) where
  -- The call of the system service: the user of the context is sent along as metadata.
  unfoldable pub nav_menus : Option String → String → MenuAction Forest
  nav_menus caller name =
      if call_fails
      then raise (fault "call failed")
      else get_nav_menus order caller (user_or_empty caller) name

  abbrev pub list_result : (String → String) → Entries → Result Forest → ToolResult
  list_result to_lower input (err e) = failed e
  list_result to_lower input (ok f) =
      let ts =
        listed to_lower (to_lower (trim_space (string_input "query" input)))
          (limit_of (int_input "limit" 10 input)) f in
      targets ts (length ts)

  unfoldable pub list_targets : (String → String) → Option String → Entries → MenuAction ToolResult
  unfolding nav_menus listed
  list_targets to_lower caller input =
      if not has_client
      then pure (refused "navigation service is unavailable")
      else attempt (nav_menus caller (string_input "module" input)) >>= λ answer.
          pure (list_result to_lower input answer)

  abbrev pub go_to : String → Option Target → ToolResult
  go_to id none = not_permitted id
  go_to id (some t) = accepted id t.module_name t.view_key t.source_type t.source_id

  abbrev pub navigate_result : String → Result Forest → ToolResult
  navigate_result id (err e) = failed e
  navigate_result id (ok f) = go_to id (find_first (is_target id) (flatten_navigation_targets f))

  unfoldable pub navigate : Option String → Entries → MenuAction ToolResult
  unfolding nav_menus flatten_navigation_targets
  navigate caller input =
      if not has_client
      then pure (refused "navigation service is unavailable")
      else if is_empty (trim_space (string_input "targetId" input))
      then pure (refused "targetId is required")
      else attempt (nav_menus caller "") >>= λ answer.
          pure (navigate_result (trim_space (string_input "targetId" input)) answer)
