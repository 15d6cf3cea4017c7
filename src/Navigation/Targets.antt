-- ===== src/Navigation/Targets.antt =====
-- Which pages an agent is shown, and which ones it may go to.
use ai_dandelion.Base.{
  if◌then◌else◌, String, ◌≡◌, refl, ap, sym, ◌∙◌, subst, inl, inr, Bool, true, Option, some, none,
  List, [], ◌∷◌, eq_iff, trim_space, arith, Bool-cases, Option-cases, find_first,
}
use mathlib.Core.List.{Memᴰ}
use mathlib.Core.List.Memᴰ.{head, tail, append_cases}
use ai_dandelion.Db.{World, ok}
use ai_dandelion.Db.Rules.{Result-cases}
use ai_dandelion.Json.{Entries}
use ai_dandelion.Menu.Model.{Tables, Effect, menu_type_menu}
use ai_dandelion.Menu.Tree.{MenuView, Forest, no_trees, tree, Tree, node}
use ai_dandelion.Menu.Tree.Rooted.{InForest, first, later, InTree, root, below}
use ai_dandelion.Menu.Tree.Whole.{IsOrder}
use ai_dandelion.Menu.Nav.{get_nav_menus, nav_user}
use ai_dandelion.Menu.Nav.Members.{IsMadeUp, kept_cases}
use ai_dandelion.Menu.Nav.Permitted.{Permitted, get_nav_menus-Permitted}
use ai_dandelion.Navigation.{
  Target, accepted, is_page, target_of, flatten_navigation_targets, flatten_tree, is_target,
  user_or_empty, nav_menus, navigate, string_input, navigate_result,
}

mutual
  unfolding flatten_navigation_targets

  pub flattened :
      (f : Forest) (t : Target)
      → Memᴰ t (flatten_navigation_targets f)
      → (v : MenuView) × InForest v f × (is_page v ≡ true) × (t ≡ target_of v)
  flattened no_trees t m = elim m [ ]
  flattened (tree x xs) t m = elim (append_cases (flatten_tree x) m) [
    | inl here ↦ let (v, inside, page, e) = flattened_tree x t here in (v, first inside, page, e)
    | inr there ↦ let (v, inside, page, e) = flattened xs t there in (v, later inside, page, e)
  ]

  flattened_tree :
      (x : Tree) (t : Target)
      → Memᴰ t (flatten_tree x)
      → (v : MenuView) × InTree v x × (is_page v ≡ true) × (t ≡ target_of v)
  flattened_tree (node u children) t m =
      elim (append_cases (if is_page u then target_of u ∷ [] else []) m) [
        | inl here ↦ elim (kept_cases (is_page u) t (target_of u) [] here) [
          | inl (e, page) ↦ (u, root, page, e)
          | inr none_more ↦ elim none_more [ ]
        ]
        | inr there ↦
            let (v, inside, page, e) = flattened children t there in (v, below inside, page, e)
      ]

found :
    {A : Type 0} (p : A → Bool) (xs : List A) {x : A}
    → find_first p xs ≡ some x
    → Memᴰ x xs × (p x ≡ true)
unfolding find_first
found p [] h = ground arith
found p (y ∷ ys) {x} h = elim (Bool-cases (p y)) [
  | inl e ↦ let same : x ≡ y = ground arith in (head same, ap p same ∙ e)
  | inr e ↦ let (m, holds) = found p ys (ground arith) in (tail m, holds)
]

pub kept :
    (p : Target → Bool) (xs : List Target) (x : Target)
    → Memᴰ x xs
    → p x ≡ true
    → (y : Target) × (find_first p xs ≡ some y)
unfolding find_first
kept p [] x m h = elim m [ ]
kept p (y ∷ ys) x (head e) h =
    (y, ap (λ b. if b then some y else find_first p ys) (ap p (sym e) ∙ h))
kept p (y ∷ ys) x (tail m) h = elim (Bool-cases (p y)) [
  | inl e ↦ (y, ground arith)
  | inr e ↦ let (z, same) = kept p ys x m h in (z, ground arith)
]

pub not_made_up : (v : MenuView) → is_page v ≡ true → IsMadeUp v → ⊥
not_made_up v page (name, inl e) = ground arith
not_made_up v page (name, inr e) = ground arith

pub same_user :
    (caller : Option String) → nav_user caller (user_or_empty caller) ≡ user_or_empty caller
unfolding trim_space
same_user none = refl
same_user (some id) = refl

module _ (order : List MenuView → List MenuView) (whole : IsOrder order)
    (has_client call_fails : Bool) where
  -- What an accepted id stands for.
  went :
      (id : String) (f : Forest) {id' m k st si : String}
      → navigate_result order has_client call_fails id (ok f) ≡ accepted id' m k st si
      → (v : MenuView) × InForest v f
        × (is_page v ≡ true)
        × (v.id ≡ id)
        × (accepted id' m k st si
            ≡ accepted v.id v.module_name v.view_key v.source_type v.source_id)
  went id f {id'} {m} {k} {st} {si} h =
      elim (Option-cases (find_first (is_target id) (flatten_navigation_targets f))) [
        | inl (t, e) ↦
            let (member, same) = found (is_target id) _ e in
            let (v, inside, page, is_v) = flattened f t member in
            let is_id = (eq_iff t.id id).0 same in
            (v, inside, page, sym (ap (λ x. x.id) is_v) ∙ is_id, ground arith)
        | inr e ↦ let no : ⊥ = ground arith in absurd no
      ]

  navigate_needs :
      (caller : Option String) (input : Entries) (w : World Tables Effect) {id m k st si : String}
      → (navigate order has_client call_fails caller input w).0 ≡ ok (accepted id m k st si)
      → (f : Forest) × ((get_nav_menus order caller (user_or_empty caller) "" w).0 ≡ ok f)
        × (navigate_result order has_client call_fails
              (trim_space (string_input "targetId" input))
              (ok f)
            ≡ accepted id m k st si)
  unfolding navigate nav_menus
  navigate_needs caller input w {id} {m} {k} {st} {si} h =
      elim (Result-cases (get_nav_menus order caller (user_or_empty caller) "" w).0) [
        | inl (f, e) ↦ (f, e, ground arith)
        | inr (e, fails) ↦ let no : ⊥ = ground arith in absurd no
      ]

  -- An agent can send the browser only to a page that GetNavMenus may show to the user: an enabled,
  -- visible menu of the kind of a page, as the database has it, that an enabled role of the user
  -- grants or that lies above or beside a granted one. It is the page with the id that the agent
  -- named, and the browser is given the module, the view and the source of that row.
  pub navigate-Permitted :
      (caller : Option String) (input : Entries) (w : World Tables Effect) {id m k st si : String}
      → (navigate order has_client call_fails caller input w).0 ≡ ok (accepted id m k st si)
      → (v : MenuView) × Permitted (user_or_empty caller) w.tables v
        × (v.menu_type ≡ menu_type_menu)
        × (v.id ≡ trim_space (string_input "targetId" input))
        × (accepted id m k st si ≡ accepted v.id v.module_name v.view_key v.source_type v.source_id)
  navigate-Permitted caller input w h =
      let (f, shown, e) = navigate_needs caller input w h in
      let (v, inside, page, named, same) = went _ f e in
      elim (get_nav_menus-Permitted order whole caller (user_or_empty caller) "" w shown v inside) [
        | inl permitted ↦ (
          v,
          subst (λ user. Permitted user w.tables v) (same_user caller) permitted,
          ground arith,
          named,
          same,
        )
        | inr made ↦ absurd (not_made_up v page made)
      ]
