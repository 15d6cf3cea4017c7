-- ===== src/Menu/Store.antt =====
-- system/internal/dao/menu.go: the rows of menus and of the grants of roles.
pub mod Reassigned
use ai_dandelion.Base.{
  ℕ, zero, suc, String, Bool, not, ◌&&◌, ◌||◌, none, some, List, [], ◌∷◌, ◌++◌, ltb, if◌then◌else◌,
  str_eq, any, select, count_where, update_where, find_first,
}
use ai_dandelion.Db.{
  not_found, msg, first, query, exec, insert, savepoint, transaction, pure, raise, ◌>>=◌, ◌>>◌,
}
use ai_dandelion.Menu.Model.{Menu, RoleMenu, OperationLog, MenuAction, menu_is}

unfoldable pub get_menu : String → MenuAction Menu
get_menu id = first (λ t. find_first (menu_is id) t.menus)

-- The primary key and the unique index of the codes refuse a duplicate.
abbrev pub clashes : Menu → Menu → Bool
clashes m x = str_eq x.id m.id || str_eq x.code m.code

unfoldable pub create : Menu → MenuAction Unit
create m = insert (λ t.
    if any (clashes m) t.menus then none else some (tt, record t { menus = t.menus ++ (m ∷ []) }))

abbrev pub has_code_of : Menu → Menu → Bool
has_code_of m x = not (str_eq x.id m.id) && str_eq x.code m.code

-- Every column but the id and the time of creation.
abbrev pub overwrite : Menu → Menu → Menu
overwrite m old = record m { id = old.id; created_at = old.created_at }

-- The number of rows affected is not looked at.
unfoldable pub update : Menu → MenuAction Unit
update m = insert (λ t.
    if any (has_code_of m) t.menus && any (menu_is m.id) t.menus
    then none
    else some (tt, record t { menus = update_where (menu_is m.id) (overwrite m) t.menus }))

abbrev pub found_rows : ℕ → MenuAction Unit
found_rows zero = raise not_found
found_rows (suc n) = pure tt

abbrev pub with_status : ℕ → ℕ → Menu → Menu
with_status status now m = record m { status = status; updated_at = now }

unfoldable pub update_status : String → ℕ → ℕ → MenuAction Unit
update_status id status now =
    exec (λ t. (
      count_where (menu_is id) t.menus,
      record t { menus = update_where (menu_is id) (with_status status now) t.menus },
    ))
    >>= found_rows

abbrev pub grants : String → RoleMenu → Bool
grants id g = str_eq g.menu_id id

unfoldable pub delete_grants : String → MenuAction Unit
delete_grants id =
    exec (λ t. (tt, record t { role_menus = select (λ g. not (grants id g)) t.role_menus }))

unfoldable pub delete_row : String → MenuAction ℕ
delete_row id = exec (λ t. (
  count_where (menu_is id) t.menus,
  record t { menus = select (λ m. not (menu_is id m)) t.menus },
))

unfoldable pub delete : String → MenuAction Unit
unfolding delete_grants delete_row
delete id = savepoint (delete_grants id >> (delete_row id >>= found_rows))

abbrev pub is_child : String → Menu → Bool
is_child id m = str_eq m.parent_id id

unfoldable pub count_children : String → MenuAction ℕ
count_children id = query (λ t. count_where (is_child id) t.menus)

unfoldable pub greatest : List Menu → ℕ
greatest [] = 0
greatest (m ∷ ms) = let rest = greatest ms in if ltb rest m.sort then m.sort else rest

abbrev pub is_sibling : String → String → String → Menu → Bool
is_sibling parent name placement m =
    str_eq m.parent_id parent && str_eq m.module_name name && str_eq m.placement placement

-- MAX(sort), and 0 where there is no row.
unfoldable pub max_sort : String → String → String → MenuAction ℕ
unfolding greatest
max_sort parent name placement =
    query (λ t. greatest (select (is_sibling parent name placement) t.menus))

-- operationLogDao.Create
unfoldable pub create_log : OperationLog → MenuAction Unit
create_log l = exec (λ t. (tt, record t { operation_logs = t.operation_logs ++ (l ∷ []) }))

-- ReassignID

abbrev pub is_grant : String → String → RoleMenu → Bool
is_grant role menu g = str_eq g.role_id role && str_eq g.menu_id menu

unfoldable pub copy_grant : String → RoleMenu → ℕ → MenuAction Unit
copy_grant new g zero =
    exec (λ t. (tt, record t { role_menus = t.role_menus ++ (record g { menu_id = new } ∷ []) }))
copy_grant new g (suc n) = pure tt

unfoldable pub move_grant : String → String → RoleMenu → MenuAction Unit
unfolding copy_grant
move_grant old new g =
    (query (λ t. count_where (is_grant g.role_id new) t.role_menus) >>= copy_grant new g)
    >> exec (λ t.
      (tt, record t { role_menus = select (λ x. not (is_grant g.role_id old x)) t.role_menus }))

unfoldable pub move_grants : String → String → List RoleMenu → MenuAction Unit
unfolding move_grant
move_grants old new [] = pure tt
move_grants old new (g ∷ gs) = move_grant old new g >> move_grants old new gs

unfoldable pub rename_row : String → String → MenuAction ℕ
rename_row old new = exec (λ t. (
  count_where (menu_is old) t.menus,
  record t { menus = update_where (menu_is old) (λ m. record m { id = new }) t.menus },
))

abbrev pub free_target : ℕ → MenuAction Unit
free_target zero = pure tt
free_target (suc n) = raise (msg "cannot reassign menu ID: target already exists")

unfoldable pub reassign_rows : String → String → MenuAction Unit
unfolding move_grants rename_row
reassign_rows old new =
    (query (λ t. count_where (menu_is new) t.menus) >>= free_target)
    >> (query (λ t. select (grants old) t.role_menus) >>= move_grants old new)
    >> (rename_row old new >>= found_rows)

unfoldable pub reassign_id : String → String → MenuAction Unit
unfolding reassign_rows
reassign_id old new = if str_eq old new then pure tt else transaction (reassign_rows old new)
