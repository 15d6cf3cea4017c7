-- ===== src/Menu/Edit/Parents.antt =====
-- That every menu of a table has its parent, where rows are added, changed and taken away.
use ai_dandelion.Base.{
  String, ◌≡◌, refl, ap, sym, ◌∙◌, ◌⊎◌, inl, inr, true, false, not, ◌||◌, List, [], ◌∷◌, ◌++◌, any,
  select, count_where, update_where, str_eq, eq_iff, is_empty, arith, Bool-cases, if◌then◌else◌,
}
use mathlib.Core.List.{Memᴰ}
use mathlib.Core.List.Memᴰ.{head, tail, append_cases, cases_cons}
use ai_dandelion.Menu.Model.{Menu, menu_is}
use ai_dandelion.Menu.Store.{is_child}
use ai_dandelion.Menu.Nav.Members.{select_member}

abbrev pub HasParent : List Menu → String → Type 0
HasParent rows id = is_empty id ≡ false → any (menu_is id) rows ≡ true

-- Every menu that names a parent has it among the rows.
abbrev pub HasParents : List Menu → Type 0
HasParents rows = (m : Menu) → Memᴰ m rows → HasParent rows m.parent_id

any-append :
    (id : String) (xs ys : List Menu)
    → any (menu_is id) (xs ++ ys) ≡ any (menu_is id) xs || any (menu_is id) ys
unfolding any
any-append id [] ys = refl
any-append id (x ∷ xs) ys = ground (arith, any-append id xs ys)

pub append-HasParents :
    (rows : List Menu) (m : Menu)
    → HasParents rows
    → HasParent rows m.parent_id
    → HasParents (rows ++ (m ∷ []))
unfolding any
append-HasParents rows m h new x member full = elim (append_cases rows member) [
  | inl old ↦ let there = h x old full in ground (arith, any-append x.parent_id rows (m ∷ []))
  | inr last ↦ elim (cases_cons last) [
    | inl same ↦
        let there = new (ap (λ y. is_empty y.parent_id) (sym same) ∙ full) in
        let there' = ap (λ y. any (menu_is y.parent_id) rows) same ∙ there in
        ground (arith, any-append x.parent_id rows (m ∷ []))
    | inr none_more ↦ elim none_more [ ]
  ]
]

module _ (id : String) (f : Menu → Menu) (keeps : (m : Menu) → (f m).id ≡ m.id) where
  any-update :
      (x : String) (rows : List Menu)
      → any (menu_is x) (update_where (menu_is id) f rows) ≡ any (menu_is x) rows
  unfolding any update_where
  any-update x [] = refl
  any-update x (m ∷ rows) = ground (arith, any-update x rows, keeps m)

  update_member :
      (rows : List Menu) (x : Menu)
      → Memᴰ x (update_where (menu_is id) f rows)
      → Memᴰ x rows ⊎ ((m : Menu) × Memᴰ m rows × (x ≡ f m))
  unfolding update_where
  update_member [] x m = elim m [ ]
  update_member (y ∷ rows) x member = elim (cases_cons member) [
    | inl e ↦ elim (Bool-cases (menu_is id y)) [
      | inl t ↦ inr (y, head refl, e ∙ ap (λ b. if b then f y else y) t)
      | inr t ↦ inl (head (e ∙ ap (λ b. if b then f y else y) t))
    ]
    | inr later ↦ elim (update_member rows x later) [
      | inl old ↦ inl (tail old)
      | inr (m, old, e) ↦ inr (m, tail old, e)
    ]
  ]

  pub update-HasParents :
      (rows : List Menu)
      → HasParents rows
      → ((m : Menu) → Memᴰ m rows → HasParent rows (f m).parent_id)
      → HasParents (update_where (menu_is id) f rows)
  update-HasParents rows h new x member full =
      any-update x.parent_id rows ∙ (elim (update_member rows x member) [
        | inl old ↦ h x old full
        | inr (m, old, e) ↦
            ap (λ y. any (menu_is y.parent_id) rows) e
            ∙ new m old (ap (λ y. is_empty y.parent_id) (sym e) ∙ full)
      ])

any-select :
    (id x : String) (rows : List Menu)
    → str_eq id x ≡ false
    → any (menu_is x) (select (λ m. not (menu_is id m)) rows) ≡ any (menu_is x) rows
unfolding any select
any-select id x [] other = refl
any-select id x (m ∷ rows) other =
    ground (arith, any-select id x rows other, eq_iff m.id id, eq_iff m.id x, eq_iff id x)

no_child :
    (id : String) (rows : List Menu) (m : Menu)
    → Memᴰ m rows
    → count_where (is_child id) rows ≡ 0
    → is_child id m ≡ false
unfolding count_where
no_child id [] m member h = elim member [ ]
no_child id (x ∷ rows) m (head e) h = ap (is_child id) e ∙ ground arith
no_child id (x ∷ rows) m (tail later) h = no_child id rows m later (ground arith)

-- A row without children may go.
pub select-HasParents :
    (id : String) (rows : List Menu)
    → count_where (is_child id) rows ≡ 0
    → HasParents rows
    → HasParents (select (λ m. not (menu_is id m)) rows)
select-HasParents id rows h whole x member full =
    let (old, _) = select_member (λ m. not (menu_is id m)) rows x member in
    let apart : str_eq id x.parent_id ≡ false =
      ground (arith, no_child id rows x old h, eq_iff id x.parent_id, eq_iff x.parent_id id) in
    any-select id x.parent_id rows apart ∙ whole x old full
