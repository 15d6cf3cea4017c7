-- ===== src/Menu/Checks/Actions.antt =====
-- Who may run a function, and which of its actions.
use ai_dandelion.Base.{
  String, ◌≡◌, refl, ap, sym, ◌∙◌, subst, ◌⊎◌, Bool, true, false, none, some, List, [], ◌∷◌,
  is_empty, trim_space, find_first, arith,
}
use ai_dandelion.Db.{World, Result, ok, err, not_found, fault, msg, first, query, ticked}
use ai_dandelion.Menu.Model.{
  Menu, MenuAction, Tables, Effect, menu_status_enabled, menu_visible_yes, menu_type_menu,
  source_generated_function,
}
use ai_dandelion.Menu.Access.{menu_ids_to_set, expand_allowed_menu_ids}
use ai_dandelion.Menu.Access.Allowed.{expand_allowed_menu_ids-Granted}
use ai_dandelion.Menu.Nav.{list_menu_rows, list_menu_ids_by_user, rows_of, granted_ids}
use ai_dandelion.Menu.Checks.{
  has_code, get_by_code, no_filter, if_shown, is_allowed, check_action, check_function,
  check_function_menu_access, check_access, lookup_generated_function_menu,
  lookup_generated_function_action_menu, get_by_source_id_and_menu_type, first_by_id, is_made_from,
  function_menu_code, function_action_menu_code,
}
use ai_dandelion.Menu.Checks.Granting.{Allows}

-- The menu of the function: the row that was made from it, with the least id, or else the one with its code.
abbrev pub IsMenuOf : String → Tables → Menu → Type 0
IsMenuOf id t m =
    (first_by_id (is_made_from source_generated_function id menu_type_menu) t.menus ≡ some m)
    ⊎ ((first_by_id (is_made_from source_generated_function id menu_type_menu) t.menus ≡ none)
        × (find_first (has_code (function_menu_code id)) t.menus ≡ some m))

-- An enabled, visible menu that the user is let to use.
abbrev pub Usable : String → Tables → Menu → Type 0
Usable user t m =
    (m.status ≡ menu_status_enabled) × (m.visible ≡ menu_visible_yes) × Allows user t m.id

lookup_ok :
    (id : String) (w : World Tables Effect) {m : Menu}
    → (lookup_generated_function_menu id w).0 ≡ ok m
    → IsMenuOf id w.tables m × ((lookup_generated_function_menu id w).1.tables ≡ w.tables)
unfolding lookup_generated_function_menu get_by_source_id_and_menu_type get_by_code first
lookup_ok id w h = ground arith

action_ok :
    (id key : String) (w : World Tables Effect) {m : Menu}
    → (lookup_generated_function_action_menu id key w).0 ≡ ok m
    → (find_first (has_code (function_action_menu_code id key)) w.tables.menus ≡ some m)
unfolding get_by_code first
action_ok id key w h = ground arith

shown_ok :
    (f : Menu → MenuAction Bool) (r : Result Menu) (w : World Tables Effect)
    → (if_shown f r w).0 ≡ ok true
    → (m : Menu) × (r ≡ ok m)
      × (m.status ≡ menu_status_enabled)
      × (m.visible ≡ menu_visible_yes)
      × ((f m w).0 ≡ ok true)
shown_ok f (err not_found) w h = let no : ⊥ = ground arith in absurd no
shown_ok f (err (fault e)) w h = let no : ⊥ = ground arith in absurd no
shown_ok f (err (msg e)) w h = let no : ⊥ = ground arith in absurd no
shown_ok f (ok m) w h = (m, refl, ground arith, ground arith, ground arith)

abbrev allowed_at : String → Tables → List String
allowed_at user t =
    expand_allowed_menu_ids (rows_of no_filter t) (menu_ids_to_set (granted_ids user t))

action_step :
    (user id key : String) (target : Menu) (t : Tables) (w : World Tables Effect)
    → w.tables ≡ t
    → (check_action id key (allowed_at user t) target w).0 ≡ ok true
    → (is_empty key ≡ true → Allows user t target.id)
      × (is_empty key ≡ false
          → (a : Menu) × (find_first (has_code (function_action_menu_code id key)) t.menus ≡ some a)
            × Usable user t a)
action_step user id key target t w same h = (
  λ e. (expand_allowed_menu_ids-Granted _ _ target.id).0 (ground arith),
  λ e.
      let (a, row, enabled, visible, may) =
        shown_ok (is_allowed (allowed_at user t)) (lookup_generated_function_action_menu id key w).0
          (lookup_generated_function_action_menu id key w).1 (ground arith) in
      (
        a,
        subst (λ s. find_first (has_code (function_action_menu_code id key)) s.menus ≡ some a) same
            (action_ok id key w row),
        (enabled, visible, (expand_allowed_menu_ids-Granted _ _ a.id).0 (ground arith)),
      ),
)

-- What CheckAccess answers yes to.
abbrev pub MayRun : String → String → String → Tables → Type 0
MayRun user id key t =
    (target : Menu) × IsMenuOf id t target
    × (target.status ≡ menu_status_enabled)
    × (target.visible ≡ menu_visible_yes)
    × ((is_empty key ≡ true → Allows user t target.id)
        × (is_empty key ≡ false
            → (a : Menu) × (find_first (has_code (function_action_menu_code id key)) t.menus
                ≡ some a)
              × Usable user t a))

function_step :
    (user id key : String) (ids : List String) (t : Tables) (w : World Tables Effect)
    → w.tables ≡ t
    → granted_ids user t ≡ ids
    → (check_function id key (rows_of no_filter t) ids w).0 ≡ ok true
    → MayRun user id key t
function_step user id key [] t w same e h = let no : ⊥ = ground arith in absurd no
function_step user id key (x ∷ ids) t w same e h =
    let allowed_ids =
      λ (l : List String). expand_allowed_menu_ids (rows_of no_filter t) (menu_ids_to_set l) in
    let w' = (lookup_generated_function_menu id w).1 in
    let (m, row, enabled, visible, may) =
      shown_ok (check_action id key (allowed_ids (x ∷ ids))) (lookup_generated_function_menu id w).0
        w' h in
    let (is_menu, after) = lookup_ok id w row in
    (
      m,
      subst (λ s. IsMenuOf id s m) same is_menu,
      enabled,
      visible,
      action_step user id key m t w' (after ∙ same)
          (subst (λ l. (check_action id key (allowed_ids l) m w').0 ≡ ok true) (sym e) may),
    )

asked :
    (user requested id key : String) (w : World Tables Effect)
    → (check_function_menu_access (some user) requested id key w).0 ≡ ok true
    → (check_function
        (trim_space id)
        (trim_space key)
        (rows_of no_filter w.tables)
        (granted_ids user w.tables)
        (ticked (ticked w))).0
      ≡ ok true
unfolding check_function_menu_access list_menu_rows list_menu_ids_by_user query
asked user requested id key w h = ground arith

asks :
    (has_system call_fails : Bool) (user requested id key : String) (w : World Tables Effect)
    → (check_access has_system call_fails (some user) requested id key w).0 ≡ ok true
    → (check_function_menu_access
        (some user)
        (trim_space user)
        (trim_space id)
        (trim_space key)
        w).0
      ≡ ok true
unfolding check_access
asks has_system call_fails user requested id key w h = ground arith

-- CheckAccess says yes to the user of the metadata, whatever user is named besides and whatever
-- fails, only where the menu of the function is enabled and visible, and, if no action is named, the
-- grants of the user allow that menu; if an action is named, the menu of that very action must be
-- there, enabled and visible, and allowed by the grants. The ids have no space at their ends.
pub check_access-MayRun :
    (has_system call_fails : Bool) (user requested id key : String) (w : World Tables Effect)
    → trim_space id ≡ id
    → trim_space key ≡ key
    → (check_access has_system call_fails (some user) requested id key w).0 ≡ ok true
    → MayRun user id key w.tables
check_access-MayRun has_system call_fails user requested id key w plain plain' h =
    let a =
      asked user (trim_space user) (trim_space id) (trim_space key) w
        (asks has_system call_fails user requested id key w h) in
    let b =
      subst
        (λ i.
          (check_function i (trim_space (trim_space key)) (rows_of no_filter w.tables)
            (granted_ids user w.tables) (ticked (ticked w))).0
          ≡ ok true)
        (ap trim_space plain ∙ plain) a in
    let c =
      subst
        (λ k.
          (check_function id k (rows_of no_filter w.tables) (granted_ids user w.tables)
            (ticked (ticked w))).0
          ≡ ok true)
        (ap trim_space plain' ∙ plain') b in
    function_step user id key (granted_ids user w.tables) w.tables (ticked (ticked w)) refl refl c
