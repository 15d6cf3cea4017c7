-- ===== src/Menu/Access/Allowed.antt =====
-- expandAllowedMenuIDs and an independent description of the menus that it allows.
use ai_dandelion.Base.{
  ℕ, suc, ◌≤◌, ◌<◌, String, ◌≡◌, refl, sym, subst, ◌↔◌, ◌⊎◌, inl, inr, true, false, ◌&&◌, some,
  List, [], ◌∷◌, ◌++◌, length, select, any, str_eq, eq_iff, is_empty, arith, Bool-cases,
  Option-cases,
}
use ai_dandelion.Menu.Model.{Menu, placement_module_nav}
use ai_dandelion.Menu.Access.{
  has, by_id, is_platform_of, platform_by_module, visit_up, visit_seeds, ids_of, nav_platforms,
  add_platforms, expand_allowed_menu_ids,
}
use ai_dandelion.Menu.Access.Count.{unvisited, unvisited_bound}
use ai_dandelion.Menu.Access.Closure.{
  Climbs, Closed, Climbs-row, has_cons, nonempty_neq, visit_up_fuel, visit_up_keeps, visit_up-has,
  visit_up-Closed, visit_up-Climbs, Closed-Climbs,
}

-- A menu that is there, granted itself or above one that is.
abbrev pub Granted : List Menu → List String → String → Type 0
Granted all seed x = (id : String) × (has id seed ≡ true) × Climbs all x id

-- A platform menu of a module that has a granted navigation menu.
abbrev pub Platform : List Menu → List String → String → Type 0
Platform all seed x =
    (id : String) × (m : Menu) × Granted all seed id
    × (by_id all id ≡ some m)
    × (m.placement ≡ placement_module_nav)
    × (any (λ p. is_platform_of m.module_name p && str_eq p.id x) all ≡ true)

has-append :
    (x : String) (ys zs : List String)
    → (has x (ys ++ zs) ≡ true) ↔ ((has x ys ≡ true) ⊎ (has x zs ≡ true))
unfolding has
has-append x [] zs = (λ h. inr h, λ h. ground arith)
has-append x (y ∷ ys) zs =
    let (there, back) = has-append x ys zs in
    (λ h. ground (arith, there), λ h. ground (arith, back))

has-ids_of :
    (name x : String) (all : List Menu)
    → has x (ids_of (select (is_platform_of name) all))
      ≡ any (λ p. is_platform_of name p && str_eq p.id x) all
unfolding has select any
has-ids_of name x [] = refl
has-ids_of name x (m ∷ all) = ground (arith, has-ids_of name x all)

module _ (all : List Menu) where
  enough : (allowed : List String) → unvisited (λ m. m.id) all allowed < suc (length all)
  enough allowed = omega (arith, unvisited_bound (λ m. m.id) all allowed)

  seeds_keep :
      (n : ℕ) (seed : List String) (x : String) (allowed : List String)
      → has x allowed ≡ true
      → has x (visit_seeds all n seed allowed) ≡ true
  unfolding visit_seeds
  seeds_keep n [] x allowed h = h
  seeds_keep n (id ∷ seed) x allowed h =
      seeds_keep n seed x (visit_up all n id allowed) (visit_up_keeps all n id x allowed h)

  weaken : (id : String) (allowed : List String) → Closed all "" allowed → Closed all id allowed
  weaken id allowed closed x m p inside row full there other =
      closed x m p inside row full there (nonempty_neq m.parent_id full)

  seeds-Closed :
      (seed allowed : List String)
      → Closed all "" allowed
      → Closed all "" (visit_seeds all (suc (length all)) seed allowed)
  unfolding visit_seeds
  seeds-Closed [] allowed closed = closed
  seeds-Closed (id ∷ seed) allowed closed =
      seeds-Closed seed (visit_up all (suc (length all)) id allowed) (
        visit_up-Closed all (suc (length all)) id allowed (enough allowed)
          (weaken id allowed closed))

  seeds-Climbs :
      (n : ℕ) (seed : List String) (x : String) (allowed : List String)
      → has x (visit_seeds all n seed allowed) ≡ true
      → (has x allowed ≡ true) ⊎ Granted all seed x
  unfolding visit_seeds has
  seeds-Climbs n [] x allowed h = inl h
  seeds-Climbs n (id ∷ seed) x allowed h =
      elim (seeds-Climbs n seed x (visit_up all n id allowed) h) [
        | inl old ↦ elim (visit_up-Climbs all n id x allowed old) [
          | inl before ↦ inl before
          | inr above ↦ inr (id, ground (arith, eq_iff id id), above)
        ]
        | inr (y, member, above) ↦ inr (y, ground arith, above)
      ]

  seeds_have :
      (seed : List String) (id : String) (m : Menu) (allowed : List String)
      → has id seed ≡ true
      → is_empty id ≡ false
      → by_id all id ≡ some m
      → has id (visit_seeds all (suc (length all)) seed allowed) ≡ true
  unfolding visit_seeds has
  seeds_have [] id m allowed h full row = ground arith
  seeds_have (y ∷ seed) id m allowed h full row =
      let after = visit_up all (suc (length all)) y allowed in
      elim (has_cons id y seed h) [
        | inl same ↦ seeds_keep (suc (length all)) seed id after (
            subst (λ z. has id (visit_up all (suc (length all)) z allowed) ≡ true) (sym same)
              (visit_up-has all (length all) id allowed full row))
        | inr later ↦ seeds_have seed id m after later full row
      ]

  empty-Closed : Closed all "" []
  unfolding has
  empty-Closed x m p inside row full there other = ground arith

  -- After the first loop the set is the granted menus.
  seeds-Granted :
      (seed : List String) (x : String)
      → (has x (visit_seeds all (suc (length all)) seed []) ≡ true) ↔ Granted all seed x
  seeds-Granted seed x = (
    λ h. elim (seeds-Climbs (suc (length all)) seed x [] h) [
      | inl none_yet ↦ absurd (unfold has in (ground arith))
      | inr granted ↦ granted
    ],
    λ (id, member, above).
        let (m, row, full) = Climbs-row x id above in
        Closed-Climbs all x id (visit_seeds all (suc (length all)) seed [])
          (seeds-Closed seed [] empty-Closed) above (seeds_have seed id m [] member full row),
  )

  -- What the second loop adds for one id.
  Adds : String → String → Type 0
  Adds x id =
      (m : Menu) × (by_id all id ≡ some m)
      × (m.placement ≡ placement_module_nav)
      × (any (λ p. is_platform_of m.module_name p && str_eq p.id x) all ≡ true)

  same_module :
      (name x : String) (rows : List Menu)
      → any (λ p. is_platform_of name p && str_eq p.id x) rows ≡ true
      → is_empty name ≡ false
  unfolding any
  same_module name x [] h = ground arith
  same_module name x (p ∷ rows) h =
      elim (Bool-cases (any (λ q. is_platform_of name q && str_eq q.id x) rows)) [
        | inl later ↦ same_module name x rows later
        | inr none_later ↦
            let same : p.module_name ≡ name = ground (arith, eq_iff p.module_name name) in
            subst (λ s. is_empty s ≡ false) same (ground arith)
      ]

  Adds-iff : (id x : String) → (has x (nav_platforms all (by_id all id)) ≡ true) ↔ Adds x id
  unfolding Adds has platform_by_module
  Adds-iff id x = elim (Option-cases (by_id all id)) [
    | inl (m, e) ↦ (
      λ h. (
        m,
        e,
        ground (arith, eq_iff m.placement placement_module_nav),
        ground (arith, has-ids_of m.module_name x all),
      ),
      λ (m', row, nav, found). ground (
        arith,
        eq_iff m'.placement placement_module_nav,
        has-ids_of m'.module_name x all,
        same_module m'.module_name x all,
      ),
    )
    | inr e ↦ (λ h. ground arith, λ (m', row, nav, found). ground arith)
  ]

  platforms_iff :
      (ids allowed : List String) (x : String)
      → (has x (add_platforms all ids allowed) ≡ true)
        ↔ ((has x allowed ≡ true) ⊎ ((id : String) × (has id ids ≡ true) × Adds x id))
  unfolding add_platforms has
  platforms_iff [] allowed x =
      (λ h. inl h, λ h. elim h [ inl old ↦ old | inr (id, member, adds) ↦ absurd (ground arith) ])
  platforms_iff (y ∷ ids) allowed x =
      let more = nav_platforms all (by_id all y) ++ allowed in
      let (there, back) = platforms_iff ids more x in
      let (split, join) = has-append x (nav_platforms all (by_id all y)) allowed in
      (
        λ h. elim (there h) [
          | inl old ↦ elim (split old) [
            | inl new ↦ inr (y, ground (arith, eq_iff y y), (Adds-iff y x).0 new)
            | inr before ↦ inl before
          ]
          | inr (id, member, adds) ↦ inr (id, ground arith, adds)
        ],
        λ h. elim h [
          | inl old ↦ back (inl (join (inr old)))
          | inr (id, member, adds) ↦ elim (has_cons id y ids member) [
            | inl same ↦ back (inl (join (inl ((Adds-iff y x).1 (subst (Adds x) (sym same) adds)))))
            | inr later ↦ back (inr (id, later, adds))
          ]
        ],
      )

  -- The set that expandAllowedMenuIDs computes has an id exactly when it is granted, or that of a
  -- menu above a granted one, or that of a platform menu of a module that has such a navigation
  -- menu: whatever the order of the grants, also when the parents of the menus form a circle.
  pub expand_allowed_menu_ids-Granted :
      (seed : List String) (x : String)
      → (has x (expand_allowed_menu_ids all seed) ≡ true)
        ↔ (Granted all seed x ⊎ Platform all seed x)
  unfolding expand_allowed_menu_ids Adds
  expand_allowed_menu_ids-Granted seed x =
      let first = visit_seeds all (suc (length all)) seed [] in
      let (there, back) = platforms_iff first first x in
      (
        λ h. elim (there h) [
          | inl up ↦ inl ((seeds-Granted seed x).0 up)
          | inr (id, member, (m, row, nav, found)) ↦
              inr (id, m, (seeds-Granted seed id).0 member, row, nav, found)
        ],
        λ h. elim h [
          | inl granted ↦ back (inl ((seeds-Granted seed x).1 granted))
          | inr (id, m, granted, row, nav, found) ↦
              back (inr (id, (seeds-Granted seed id).1 granted, (m, row, nav, found)))
        ],
      )

  -- visitUp ends: from any set, also when the parents form a circle, a recursion that may go deeper
  -- than there are menus computes no more than one that goes as deep as that.
  pub visit_up_enough :
      (k : ℕ) (id : String) (allowed : List String)
      → suc (length all) ≤ k
      → visit_up all k id allowed ≡ visit_up all (suc (length all)) id allowed
  visit_up_enough k id allowed more =
      visit_up_fuel all (suc (length all)) k id allowed (enough allowed) more
