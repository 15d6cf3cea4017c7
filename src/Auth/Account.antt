-- ===== src/Auth/Account.antt =====
-- The users and roles that signing in reads: `Get` and `GetByUsername` of
-- system/internal/dao/user.go, `ListRolesByUser` of system/internal/dao/role.go, and the checks of
-- system/internal/logic/user.go.
use ai_dandelion.Base.{
  ℕ, ◌+◌, String, Bool, true, false, not, ◌&&◌, ◌||◌, List, [], ◌∷◌, if◌then◌else◌, ltb, leb, ◌==◌,
  str_eq, any, select, find_first, is_empty, trim_space, byte_count,
}
use ai_dandelion.Db.{Result, ok, err, msg, not_found, first, query}
use ai_dandelion.Auth.Model.{User, Role, UserRole, Tables, AuthAction, role_status_enabled}
use Prim.Native.Char.{code}

abbrev pub has_username : String → User → Bool
has_username name u = str_eq u.username name

abbrev pub user_is : String → User → Bool
user_is id u = str_eq u.id id

unfoldable pub get_by_username : String → AuthAction User
get_by_username name = first (λ t. find_first (has_username name) t.users)

unfoldable pub get_user : String → AuthAction User
get_user id = first (λ t. find_first (user_is id) t.users)

-- ORDER BY sort, created_at
abbrev role_before : Role → Role → Bool
role_before a b =
    if ltb a.sort b.sort
    then true
    else if a.sort == b.sort
    then leb a.created_at b.created_at
    else false

unfoldable insert_role : Role → List Role → List Role
insert_role r [] = r ∷ []
insert_role r (x ∷ xs) =
    let rest = insert_role r xs in if role_before r x then r ∷ x ∷ xs else x ∷ rest

unfoldable pub sort_roles : List Role → List Role
unfolding insert_role
sort_roles [] = []
sort_roles (r ∷ rs) = insert_role r (sort_roles rs)

abbrev has_role : List UserRole → String → Role → Bool
has_role rows id r = any (λ x. str_eq x.user_id id && str_eq x.role_id r.id) rows

-- The pair of a user and a role is the primary key of `sys_user_roles`, so that the join has every
-- role at most once.
unfoldable pub roles_of : String → Tables → List Role
unfolding sort_roles
roles_of id t = sort_roles (select (has_role t.user_roles id) t.roles)

unfoldable pub list_user_roles : String → AuthAction (List Role)
unfolding roles_of
list_user_roles id = query (roles_of id)

abbrev pub role_enabled : Role → Bool
role_enabled r = r.status == role_status_enabled

unfoldable pub has_enabled_roles : List Role → Bool
has_enabled_roles rs = any role_enabled rs

unfoldable pub role_ids_of : List Role → List String
role_ids_of [] = []
role_ids_of (r ∷ rs) =
    let rest = role_ids_of rs in if is_empty r.id || not (role_enabled r) then rest else r.id ∷ rest

unfoldable byte_length : String → ℕ
byte_length String.[] = 0
byte_length (String.◌∷◌ c s) = byte_count (code c) + byte_length s

unfoldable pub validate_username : String → Result String
unfolding byte_length
validate_username raw =
    let name = trim_space raw in
    if is_empty name
    then err (msg "username is required")
    else if ltb (byte_length name) 3 || ltb 64 (byte_length name)
    then err (msg "username length must be between 3 and 64")
    else ok name

unfoldable pub validate_password : String → Bool → Result String
unfolding byte_length
validate_password raw required =
    let password = trim_space raw in
    if is_empty password
    then (if required then err (msg "password is required") else ok "")
    else if ltb (byte_length password) 6
    then err (msg "password length must be at least 6")
    else ok password

abbrev pub user_not_found : Result User → Result User
user_not_found (err not_found) = err (msg "user not found")
user_not_found r = r

-- What the response says of a user: the password hash stays behind.
pub record UserView : Type 0 where
  pub id : String
  pub username : String
  pub email : String
  pub phone : String
  pub status : ℕ
  pub created_at : ℕ
  pub role_ids : List String

abbrev pub user_to_proto : User → List String → UserView
user_to_proto u ids = record {
  id = u.id;
  username = u.username;
  email = u.email;
  phone = u.phone;
  status = u.status;
  created_at = u.created_at;
  role_ids = ids;
}
