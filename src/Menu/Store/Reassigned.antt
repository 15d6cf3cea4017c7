-- ===== src/Menu/Store/Reassigned.antt =====
-- What ReassignID of system/internal/dao/menu.go makes of the grants.
use ai_dandelion.Base.{
  String, ◌≡◌, ◌≢◌, refl, ap, sym, ◌∙◌, subst, Bool, true, false, not, ◌&&◌, ◌||◌, List, [], ◌∷◌,
  ◌++◌, if◌then◌else◌, str_eq, eq_iff, any, select, count_where, update_where, arith, ◌==◌,
}
use ai_dandelion.Db.{World, ok, query, exec, ticked, transaction, ◌>>=◌, ◌>>◌}
use ai_dandelion.Db.Rules.{bind_ok, transaction_ok}
use ai_dandelion.Menu.Model.{RoleMenu, Tables, Effect, menu_is}
use ai_dandelion.Menu.Store.{
  grants, is_grant, copy_grant, move_grant, move_grants, rename_row, free_target, found_rows,
  reassign_rows, reassign_id,
}

-- Whether a role has a grant of a menu.
abbrev pub granted : Tables → String → String → Bool
granted t role menu = any (is_grant role menu) t.role_menus

any_append :
    (role menu : String) (gs : List RoleMenu) (g : RoleMenu)
    → any (is_grant role menu) (gs ++ (g ∷ []))
      ≡ any (is_grant role menu) gs || is_grant role menu g
unfolding any
any_append role menu [] g = ground arith
any_append role menu (x ∷ gs) g = ground (arith, any_append role menu gs g)

any_counted :
    (role menu : String) (gs : List RoleMenu)
    → any (is_grant role menu) gs ≡ not (count_where (is_grant role menu) gs == 0)
unfolding any count_where
any_counted role menu [] = refl
any_counted role menu (x ∷ gs) = ground (arith, any_counted role menu gs)

any_removed :
    (role old r m : String) (gs : List RoleMenu)
    → any (is_grant r m) (select (λ x. not (is_grant role old x)) gs)
      ≡ (if str_eq r role && str_eq m old then false else any (is_grant r m) gs)
unfolding any select
any_removed role old r m [] = ground arith
any_removed role old r m (x ∷ gs) = ground (
  arith,
  any_removed role old r m gs,
  eq_iff x.role_id r,
  eq_iff x.menu_id m,
  eq_iff x.role_id role,
  eq_iff x.menu_id old,
  eq_iff r role,
  eq_iff m old,
)

abbrev copied : String → RoleMenu → List RoleMenu → List RoleMenu
copied new g gs =
    if count_where (is_grant g.role_id new) gs == 0
    then gs ++ (record g { menu_id = new } ∷ [])
    else gs

copied_lem :
    (new : String) (g : RoleMenu) (r m : String) (gs : List RoleMenu)
    → any (is_grant r m) (copied new g gs)
      ≡ (any (is_grant r m) gs || (str_eq g.role_id r && str_eq new m))
copied_lem new g r m gs = ground (
  arith,
  any_append r m gs (record g { menu_id = new }),
  any_counted g.role_id new gs,
  eq_iff g.role_id r,
  eq_iff new m,
)

move_grant_tables :
    (old new : String) (g : RoleMenu) (w : World Tables Effect)
    → (move_grant old new g w).0 ≡ ok tt
    → (move_grant old new g w).1.tables ≡ record w.tables {
      role_menus = select (λ x. not (is_grant g.role_id old x)) (copied new g w.tables.role_menus);
    }
unfolding move_grant copy_grant query exec
move_grant_tables old new g w h = ground arith

-- The grants of a role that has had the old menu, once they are moved.
abbrev moved : String → String → String → Bool → Bool
moved old new m before = if str_eq m new then true else if str_eq m old then false else before

move_grant_ok :
    (old new : String) (g : RoleMenu) (w : World Tables Effect)
    → str_eq old new ≡ false
    → (move_grant old new g w).0 ≡ ok tt
    → (r m : String)
    → granted (move_grant old new g w).1.tables r m ≡ (
        if str_eq g.role_id r then moved old new m (granted w.tables r m) else granted w.tables r m)
move_grant_ok old new g w differ h r m =
    ap (λ t. granted t r m) (move_grant_tables old new g w h)
    ∙ any_removed g.role_id old r m (copied new g w.tables.role_menus)
    ∙ ap (λ b. if str_eq r g.role_id && str_eq m old then false else b)
        (copied_lem new g r m w.tables.role_menus)
    ∙ ground (
      arith,
      eq_iff g.role_id r,
      eq_iff r g.role_id,
      eq_iff new m,
      eq_iff m new,
      eq_iff m old,
      eq_iff old new,
    )

move_grant_menus :
    (old new : String) (g : RoleMenu) (w : World Tables Effect)
    → (move_grant old new g w).0 ≡ ok tt
    → (move_grant old new g w).1.tables.menus ≡ w.tables.menus
move_grant_menus old new g w h = ap (λ t. t.menus) (move_grant_tables old new g w h)

abbrev is_of : String → RoleMenu → Bool
is_of role g = str_eq g.role_id role

move_grants_ok :
    (old new : String) (gs : List RoleMenu) (w : World Tables Effect)
    → str_eq old new ≡ false
    → (move_grants old new gs w).0 ≡ ok tt
    → ((r m : String)
        → granted (move_grants old new gs w).1.tables r m ≡ (
            if any (is_of r) gs
            then moved old new m (granted w.tables r m)
            else granted w.tables r m))
      × ((move_grants old new gs w).1.tables.menus ≡ w.tables.menus)
unfolding move_grants any
move_grants_ok old new [] w differ h = (λ r m. refl, refl)
move_grants_ok old new (g ∷ gs) w differ h =
    let (_, first_step, e) = bind_ok (λ u. move_grants old new gs) (move_grant old new g) w h in
    let w1 = (move_grant old new g w).1 in
    let (rest, menus) = move_grants_ok old new gs w1 differ (ap (λ p. p.0) (sym e) ∙ h) in
    (
      λ r m.
          let before = move_grant_ok old new g w differ first_step r m in
          ap (λ p. granted p.1.tables r m) e ∙ rest r m ∙ ground (arith, before),
      ap (λ p. p.1.tables.menus) e ∙ menus ∙ move_grant_menus old new g w first_step,
    )

any_of_old :
    (r old : String) (gs : List RoleMenu)
    → any (is_of r) (select (grants old) gs) ≡ any (is_grant r old) gs
unfolding any select
any_of_old r old [] = refl
any_of_old r old (g ∷ gs) = ground (arith, any_of_old r old gs)

-- Every grant of the old menu is one of the new menu, and the row has the new id.
abbrev pub IsReassigned : String → String → Tables → Tables → Type 0
IsReassigned old new t t' =
    ((r m : String)
      → granted t' r m ≡ (
          if granted t r old
          then (if str_eq m new then true else if str_eq m old then false else granted t r m)
          else granted t r m))
    × (t'.menus ≡ update_where (menu_is old) (λ m. record m { id = new }) t.menus)
    × (count_where (menu_is new) t.menus ≡ 0)
    × (count_where (menu_is old) t.menus ≢ 0)

rename_ok :
    (old new : String) (w : World Tables Effect)
    → ((rename_row old new >>= found_rows) w).0 ≡ ok tt
    → ((rename_row old new >>= found_rows) w).1.tables ≡ record w.tables {
      menus = update_where (menu_is old) (λ m. record m { id = new }) w.tables.menus;
    }
      × (count_where (menu_is old) w.tables.menus ≢ 0)
unfolding rename_row exec
rename_ok old new w h = (ground arith, λ e. let no : ⊥ = ground arith in no)

free_ok :
    (new : String) (w : World Tables Effect)
    → ((query (λ t. count_where (menu_is new) t.menus) >>= free_target) w).0 ≡ ok tt
    → (count_where (menu_is new) w.tables.menus ≡ 0)
      × (((query (λ t. count_where (menu_is new) t.menus) >>= free_target) w).1.tables ≡ w.tables)
unfolding query
free_ok new w h = ground arith

after_loop :
    (old new : String) (w : World Tables Effect)
    → str_eq old new ≡ false
    → ((query (λ t. select (grants old) t.role_menus) >>= move_grants old new) w).0 ≡ ok tt
    → ((r m : String)
        → granted
            ((query (λ t. select (grants old) t.role_menus) >>= move_grants old new) w).1.tables
            r
            m
          ≡ (if granted w.tables r old
              then moved old new m (granted w.tables r m)
              else granted w.tables r m))
      × (((query (λ t. select (grants old) t.role_menus) >>= move_grants old new) w).1.tables.menus
          ≡ w.tables.menus)
unfolding query
after_loop old new w differ h =
    let gs = select (grants old) w.tables.role_menus in
    let e : (query (λ t. select (grants old) t.role_menus) >>= move_grants old new) w
        ≡ move_grants old new gs (ticked w) =
      ground arith in
    let (there, menus) = move_grants_ok old new gs (ticked w) differ (ap (λ p. p.0) (sym e) ∙ h) in
    (
      λ r m.
          ap (λ p. granted p.1.tables r m) e
          ∙ there r m
          ∙ ap (λ b. if b then moved old new m (granted w.tables r m) else granted w.tables r m)
              (any_of_old r old w.tables.role_menus),
      ap (λ p. p.1.tables.menus) e ∙ menus,
    )

rows_ok :
    (old new : String) (w : World Tables Effect)
    → str_eq old new ≡ false
    → (reassign_rows old new w).0 ≡ ok tt
    → IsReassigned old new w.tables (reassign_rows old new w).1.tables
unfolding reassign_rows
rows_ok old new w differ h =
    let free = query (λ t. count_where (menu_is new) t.menus) >>= free_target in
    let move = query (λ t. select (grants old) t.role_menus) >>= move_grants old new in
    let rename = rename_row old new >>= found_rows in
    let (_, before, e) = bind_ok (λ u. rename) (free >> move) w h in
    let (_, is_free, e') = bind_ok (λ u. move) free w before in
    let w1 = (free w).1 in
    let (none_there, same) = free_ok new w is_free in
    let (there, menus) = after_loop old new w1 differ (ap (λ p. p.0) (sym e') ∙ before) in
    let w2 = ((free >> move) w).1 in
    let (last, some_there) = rename_ok old new w2 (ap (λ p. p.0) (sym e) ∙ h) in
    let rows = ap (λ p. p.1.tables.menus) e' ∙ menus ∙ ap (λ t. t.menus) same in
    (
      λ r m.
          ap (λ p. granted p.1.tables r m) e
          ∙ ap (λ t. granted t r m) last
          ∙ ap (λ p. granted p.1.tables r m) e'
          ∙ there r m
          ∙ ap (λ t. if granted t r old then moved old new m (granted t r m) else granted t r m)
              same,
      ap (λ p. p.1.tables.menus) e
          ∙ ap (λ t. t.menus) last
          ∙ ap (update_where (menu_is old) (λ m. record m { id = new })) rows,
      none_there,
      λ z. some_there (ap (count_where (menu_is old)) rows ∙ z),
    )

-- A ReassignID to another id that returns no error keeps the grants: a role has the new menu if it
-- had the old one, or the new one already, and no role has the old menu any more; every other grant
-- is as it was. No menu had the new id; the rows with the old id, of which there was one, have the
-- new id now, and nothing else of the menus has changed.
pub reassign_id-IsReassigned :
    (old new : String) (w : World Tables Effect)
    → str_eq old new ≡ false
    → (reassign_id old new w).0 ≡ ok tt
    → IsReassigned old new w.tables (reassign_id old new w).1.tables
unfolding reassign_id
reassign_id-IsReassigned old new w differ h =
    let e : reassign_id old new w ≡ transaction (reassign_rows old new) w = ground arith in
    let (inside, tables) = transaction_ok (reassign_rows old new) w (ap (λ p. p.0) (sym e) ∙ h) in
    subst (IsReassigned old new w.tables) (sym (ap (λ p. p.1.tables) e ∙ tables))
      (rows_ok old new (ticked w) differ inside)
