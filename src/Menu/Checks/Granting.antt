-- ===== src/Menu/Checks/Granting.antt =====
-- Which menus and actions a user is let to use, with the grants of the roles of the user.
use ai_dandelion.Base.{
  ℕ, suc, String, ◌≡◌, refl, ap, sym, ◌∙◌, ◌↔◌, ◌⊎◌, inl, inr, Bool, true, false, ◌&&◌, Option,
  none, some, if◌then◌else◌, is_empty, trim_space, find_first, arith, Bool-cases, Option-cases,
}
use ai_dandelion.Db.{World, ok, err, msg, first, query}
use ai_dandelion.Menu.Model.{Menu, Tables, Effect, menu_status_enabled, menu_visible_yes}
use ai_dandelion.Menu.Access.{has, menu_ids_to_set, expand_allowed_menu_ids}
use ai_dandelion.Menu.Access.Allowed.{Granted, Platform, expand_allowed_menu_ids-Granted}
use ai_dandelion.Menu.Nav.{list_menu_rows, list_menu_ids_by_user, rows_of, granted_ids}
use ai_dandelion.Menu.Checks.{
  has_code, get_by_code, no_filter, is_shown, check_menu_access, allowed, require,
}

-- No call fails.
abbrev pub IsCalm : World Tables Effect → Type 0
IsCalm w = (n : ℕ) → w.faults n ≡ none

-- The roles of the user grant the menu, or a menu below it, or it is the platform menu of a module
-- with a navigation menu that they grant.
abbrev pub Allows : String → Tables → String → Type 0
Allows user t id =
    Granted (rows_of no_filter t) (menu_ids_to_set (granted_ids user t)) id
    ⊎ Platform (rows_of no_filter t) (menu_ids_to_set (granted_ids user t)) id

-- The menu with the code is enabled and visible, and the user is let to use it.
abbrev pub Authorized : String → String → Tables → Type 0
Authorized user code t =
    (m : Menu) × (find_first (has_code code) t.menus ≡ some m)
    × (m.status ≡ menu_status_enabled)
    × (m.visible ≡ menu_visible_yes)
    × Allows user t m.id

abbrev allows : String → Tables → Menu → Bool
allows user t m =
    has m.id (expand_allowed_menu_ids (rows_of no_filter t) (menu_ids_to_set (granted_ids user t)))

abbrev decided : String → Tables → Option Menu → Bool
decided user t none = false
decided user t (some m) = is_shown m && allows user t m

not_blank : (s : String) → is_empty (trim_space s) ≡ false → is_empty s ≡ false
unfolding trim_space
not_blank String.[] h = h
not_blank (String.◌∷◌ c s) h = refl

check_menu_access_runs :
    (user requested code : String) (w : World Tables Effect)
    → IsCalm w
    → is_empty user ≡ false
    → is_empty (trim_space code) ≡ false
    → (check_menu_access (some user) requested code w).0
      ≡ ok (decided user w.tables (find_first (has_code (trim_space code)) w.tables.menus))
unfolding check_menu_access list_menu_rows list_menu_ids_by_user get_by_code query first
check_menu_access_runs user requested code w calm named full =
    ground (arith, calm w.calls, calm (suc w.calls), calm (suc (suc w.calls)))

decided_iff :
    (user code : String) (t : Tables)
    → (decided user t (find_first (has_code code) t.menus) ≡ true) ↔ Authorized user code t
decided_iff user code t = (
  λ h. elim (Option-cases (find_first (has_code code) t.menus)) [
    | inl (m, e) ↦
        let holds : (is_shown m && allows user t m) ≡ true = ap (decided user t) (sym e) ∙ h in
        (
          m,
          e,
          ground arith,
          ground arith,
          (expand_allowed_menu_ids-Granted (rows_of no_filter t)
                (menu_ids_to_set (granted_ids user t)) m.id).0
              (ground arith),
        )
    | inr e ↦ let no : ⊥ = ground arith in absurd no
  ],
  λ (m, e, enabled, visible, may).
      let yes =
        (expand_allowed_menu_ids-Granted (rows_of no_filter t)
            (menu_ids_to_set (granted_ids user t)) m.id).1
          may in
      ap (decided user t) e ∙ ground arith,
)

require_runs :
    (user code : String) (w : World Tables Effect)
    → IsCalm w
    → is_empty (trim_space user) ≡ false
    → is_empty (trim_space code) ≡ false
    → trim_space code ≡ code
    → (require true false (some user) code w).0 ≡ (
        if decided user w.tables (find_first (has_code code) w.tables.menus)
        then ok tt
        else err (msg "permission denied"))
unfolding require allowed
require_runs user code w calm named full plain =
    let full' = ap (λ c. is_empty (trim_space c)) plain ∙ full in
    let runs =
      check_menu_access_runs user user (trim_space code) w calm (not_blank user named) full'
      ∙ ap (λ c. ok (decided user w.tables (find_first (has_code c) w.tables.menus)))
          (ap trim_space plain ∙ plain) in
    ground (arith, runs)

-- While no call fails, Require lets a user pass exactly where a menu has the code, is enabled and
-- visible, and the enabled roles of the user grant it, or a menu below it, or a navigation menu of
-- the module whose platform menu it is; anyone else gets "permission denied". The user of the
-- metadata is not blank, nor is the code, which has no space at its ends.
pub require-Authorized :
    (user code : String) (w : World Tables Effect)
    → IsCalm w
    → is_empty (trim_space user) ≡ false
    → is_empty code ≡ false
    → trim_space code ≡ code
    → (((require true false (some user) code w).0 ≡ ok tt) ↔ Authorized user code w.tables)
      × (((require true false (some user) code w).0 ≡ err (msg "permission denied"))
          ↔ (¬ Authorized user code w.tables))
require-Authorized user code w calm named full plain =
    let runs = require_runs user code w calm named (ap is_empty plain ∙ full) plain in
    let (there, back) = decided_iff user code w.tables in
    let d = decided user w.tables (find_first (has_code code) w.tables.menus) in
    (
      (λ h. there (ground (arith, runs)), λ a. let yes = back a in ground (arith, runs)),
      (
        λ h a. let yes = back a in let no : ⊥ = ground (arith, runs) in no,
        λ n. elim (Bool-cases d) [ inl e ↦ absurd (n (there e)) | inr e ↦ ground (arith, runs) ],
      ),
    )
