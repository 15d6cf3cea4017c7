-- ===== src/Menu/Access/Closure.antt =====
-- The set that expandAllowedMenuIDs computes, by an independent description of it.
use ai_dandelion.Base.{
  ℕ, zero, suc, ◌≤◌, ◌<◌, String, ◌≡◌, refl, ap, subst, ◌⊎◌, inl, inr, sym, ◌∙◌, true, false, ◌||◌,
  none, some, List, [], ◌∷◌, find_last, str_eq, eq_iff, is_empty, arith, Bool-cases, Option-cases,
}
use mathlib.Core.Bool.{false≢true}
use mathlib.Core.List.{Memᴰ}
use mathlib.Core.List.Memᴰ.{head, tail}
use ai_dandelion.Menu.Model.{Menu, menu_is}
use ai_dandelion.Menu.Access.Count.{unvisited, unvisited_lt}
use ai_dandelion.Menu.Access.{has, by_id, visit_up}

find_last_found :
    (id : String) (all : List Menu) {m : Menu}
    → find_last (menu_is id) all ≡ some m
    → Memᴰ m all × (m.id ≡ id)
unfolding find_last
find_last_found id [] h = ground arith
find_last_found id (x ∷ all) {m} h = elim (Option-cases (find_last (menu_is id) all)) [
  | inl (y, e) ↦
      let (member, same) = find_last_found id all e in
      let eq : y ≡ m = ground arith in
      (tail (subst (λ z. Memᴰ z all) eq member), subst (λ z. z.id ≡ id) eq same)
  | inr e ↦
      let eq : x ≡ m = ground arith in
      (head (sym eq), subst (λ z. z.id ≡ id) eq (ground (arith, eq_iff x.id id)))
]

-- A visit of a menu that is there leaves fewer unvisited.
visit_lt :
    (all : List Menu) (id : String) (allowed : List String) {m : Menu}
    → find_last (menu_is id) all ≡ some m
    → has id allowed ≡ false
    → unvisited (λ m. m.id) all (id ∷ allowed) < unvisited (λ m. m.id) all allowed
visit_lt all id allowed {m} h new =
    let (member, same) = find_last_found id all h in
    subst (λ x. unvisited (λ m. m.id) all (x ∷ allowed) < unvisited (λ m. m.id) all allowed) same
      (unvisited_lt (λ m. m.id) all m allowed member
        (subst (λ x. has x allowed ≡ false) (sym same) new))

-- From `id` up the parents to `x`, through rows that are there.
pub data Climbs (all : List Menu) (x : String) : String → Type 0 where
  here : {m : Menu} → is_empty x ≡ false → by_id all x ≡ some m → Climbs all x x
  up :
      {m : Menu} (id : String)
      → is_empty id ≡ false
      → by_id all id ≡ some m
      → Climbs all x m.parent_id
      → Climbs all x id

pub Climbs-row :
    {all : List Menu} (x id : String)
    → Climbs all x id
    → (p : Menu) × (by_id all id ≡ some p) × (is_empty id ≡ false)
Climbs-row x _ (here {m} full row) = (m, row, full)
Climbs-row x id (up {m} _ full row above) = (m, row, full)

pub nonempty_neq : (s : String) → is_empty s ≡ false → str_eq s "" ≡ false
nonempty_neq s h = elim (Bool-cases (str_eq s "")) [
  | inl e ↦ let same = (eq_iff s "").0 e in absurd (false≢true (sym h ∙ ap is_empty same))
  | inr e ↦ e
]

pub has_cons :
    (x y : String) (ys : List String) → has x (y ∷ ys) ≡ true → (y ≡ x) ⊎ (has x ys ≡ true)
unfolding has
has_cons x y ys h = ground (arith, eq_iff y x)

-- Each menu of the set has its parent in the set, where there is one and it is not `pending`.
abbrev pub Closed : List Menu → String → List String → Type 0
Closed all pending allowed =
    (x : String) (m p : Menu)
    → has x allowed ≡ true
    → by_id all x ≡ some m
    → is_empty m.parent_id ≡ false
    → by_id all m.parent_id ≡ some p
    → str_eq m.parent_id pending ≡ false
    → has m.parent_id allowed ≡ true

module _ (all : List Menu) where
  visit_up_stop :
      (n : ℕ) (id : String) (allowed : List String)
      → (is_empty id || has id allowed) ≡ true
      → visit_up all n id allowed ≡ allowed
  unfolding visit_up
  visit_up_stop zero id allowed h = refl
  visit_up_stop (suc n) id allowed h = ground arith

  visit_up_missing :
      (n : ℕ) (id : String) (allowed : List String)
      → by_id all id ≡ none
      → visit_up all n id allowed ≡ allowed
  unfolding visit_up
  visit_up_missing zero id allowed h = refl
  visit_up_missing (suc n) id allowed h = ground arith

  visit_up_step :
      (n : ℕ) (id : String) (allowed : List String) {m : Menu}
      → (is_empty id || has id allowed) ≡ false
      → by_id all id ≡ some m
      → visit_up all (suc n) id allowed ≡ visit_up all n m.parent_id (id ∷ allowed)
  unfolding visit_up
  visit_up_step n id allowed new h = ground arith

  -- How a visit goes.
  visit_up_cases :
      (id : String) (allowed : List String)
      → (((is_empty id || has id allowed) ≡ true) ⊎ (by_id all id ≡ none))
        ⊎ ((m : Menu) × (by_id all id ≡ some m)
            × (is_empty id ≡ false)
            × (has id allowed ≡ false)
            × ((is_empty id || has id allowed) ≡ false))
  visit_up_cases id allowed = elim (Bool-cases (is_empty id || has id allowed)) [
    | inl e ↦ inl (inl e)
    | inr e ↦ elim (Option-cases (by_id all id)) [
      | inl (m, f) ↦ inr (m, f, ground arith, ground arith, e)
      | inr f ↦ inl (inr f)
    ]
  ]

  pub visit_up_fuel :
      (n k : ℕ) (id : String) (allowed : List String)
      → unvisited (λ m. m.id) all allowed < n
      → n ≤ k
      → visit_up all k id allowed ≡ visit_up all n id allowed
  unfolding by_id
  visit_up_fuel zero k id allowed h more = ground arith
  visit_up_fuel (suc n) zero id allowed h more = ground arith
  visit_up_fuel (suc n) (suc k) id allowed h more = elim (visit_up_cases id allowed) [
    | inl (inl e) ↦ visit_up_stop (suc k) id allowed e ∙ sym (visit_up_stop (suc n) id allowed e)
    | inl (inr e) ↦
        visit_up_missing (suc k) id allowed e ∙ sym (visit_up_missing (suc n) id allowed e)
    | inr (m, f, full, new, e) ↦
        let less = visit_lt all id allowed f new in
        visit_up_step k id allowed e f
        ∙ visit_up_fuel n k m.parent_id (id ∷ allowed) (omega arith) (omega arith)
        ∙ sym (visit_up_step n id allowed e f)
  ]

  pub visit_up_keeps :
      (n : ℕ) (id x : String) (allowed : List String)
      → has x allowed ≡ true
      → has x (visit_up all n id allowed) ≡ true
  unfolding has
  visit_up_keeps zero id x allowed h = unfold visit_up in h
  visit_up_keeps (suc n) id x allowed h = elim (visit_up_cases id allowed) [
    | inl (inl e) ↦ rw (visit_up_stop (suc n) id allowed e) h
    | inl (inr e) ↦ rw (visit_up_missing (suc n) id allowed e) h
    | inr (m, f, full, new, e) ↦
        rw (visit_up_step n id allowed e f)
          (visit_up_keeps n m.parent_id x (id ∷ allowed) (ground arith))
  ]

  pub visit_up-has :
      (n : ℕ) (id : String) (allowed : List String) {m : Menu}
      → is_empty id ≡ false
      → by_id all id ≡ some m
      → has id (visit_up all (suc n) id allowed) ≡ true
  unfolding has
  visit_up-has n id allowed full f = elim (visit_up_cases id allowed) [
    | inl (inl e) ↦ rw (visit_up_stop (suc n) id allowed e) (ground arith)
    | inl (inr e) ↦ ground arith
    | inr (m, g, _, new, e) ↦
        rw (visit_up_step n id allowed e g)
          (visit_up_keeps n m.parent_id id (id ∷ allowed) (ground (arith, eq_iff id id)))
  ]

  pending_step :
      (id : String) (allowed : List String) (m : Menu)
      → by_id all id ≡ some m
      → Closed all id allowed
      → Closed all m.parent_id (id ∷ allowed)
  unfolding has
  pending_step id allowed m f closed x y p inside row full there other = ground (
    arith,
    closed x y p,
    eq_iff id x,
    eq_iff id y.parent_id,
    eq_iff y.parent_id id,
    eq_iff y.parent_id m.parent_id,
  )

  no_pending :
      (id : String) (allowed : List String)
      → ((is_empty id || has id allowed) ≡ true) ⊎ (by_id all id ≡ none)
      → Closed all id allowed
      → Closed all "" allowed
  no_pending id allowed stop closed x y p inside row full there other =
      ground (arith, closed x y p, eq_iff y.parent_id id)

  pub visit_up-Closed :
      (n : ℕ) (id : String) (allowed : List String)
      → unvisited (λ m. m.id) all allowed < n
      → Closed all id allowed
      → Closed all "" (visit_up all n id allowed)
  unfolding by_id
  visit_up-Closed zero id allowed h closed = absurd (omega arith)
  visit_up-Closed (suc n) id allowed h closed = elim (visit_up_cases id allowed) [
    | inl (inl e) ↦ rw (visit_up_stop (suc n) id allowed e) (no_pending id allowed (inl e) closed)
    | inl (inr e) ↦
        rw (visit_up_missing (suc n) id allowed e) (no_pending id allowed (inr e) closed)
    | inr (m, f, full, new, e) ↦
        let less = visit_lt all id allowed f new in
        rw (visit_up_step n id allowed e f) (
          visit_up-Closed n m.parent_id (id ∷ allowed) (omega arith)
            (pending_step id allowed m f closed))
  ]

  -- What a visit adds lies above its start.
  pub visit_up-Climbs :
      (n : ℕ) (id x : String) (allowed : List String)
      → has x (visit_up all n id allowed) ≡ true
      → (has x allowed ≡ true) ⊎ Climbs all x id
  visit_up-Climbs zero id x allowed h = inl (unfold visit_up in h)
  visit_up-Climbs (suc n) id x allowed h = elim (visit_up_cases id allowed) [
    | inl (inl e) ↦ inl (subst (λ l. has x l ≡ true) (visit_up_stop (suc n) id allowed e) h)
    | inl (inr e) ↦ inl (subst (λ l. has x l ≡ true) (visit_up_missing (suc n) id allowed e) h)
    | inr (m, f, full, new, e) ↦
        elim (visit_up-Climbs n m.parent_id x (id ∷ allowed)
          (subst (λ l. has x l ≡ true) (visit_up_step n id allowed e f) h)) [
            | inl old ↦ elim (has_cons x id allowed old) [
              | inl same ↦ inr (subst (λ y. Climbs all y id) same (here full f))
              | inr before ↦ inl before
            ]
            | inr above ↦ inr (up id full f above)
          ]
  ]

  -- A set that is closed has all that lies above its members.
  pub Closed-Climbs :
      (x id : String) (allowed : List String)
      → Closed all "" allowed
      → Climbs all x id
      → has id allowed ≡ true
      → has x allowed ≡ true
  Closed-Climbs x _ allowed closed (here full row) h = h
  Closed-Climbs x id allowed closed (up {m} _ full row above) h =
      let (p, there, inside) = Climbs-row x m.parent_id above in
      Closed-Climbs x m.parent_id allowed closed above
        (closed id m p h row inside there (nonempty_neq m.parent_id inside))
