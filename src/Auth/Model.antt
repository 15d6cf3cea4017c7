-- ===== src/Auth/Model.antt =====
-- The rows and the keys that signing in reads and writes: system/internal/model/user.go and
-- role.go, and the records of system/internal/dao/auth_token.go. Redis is three maps, one for
-- each prefix of a key ("auth:session:", "auth:access:", "auth:refresh:": none begins with another);
-- a key that has expired is read as one that is not there. Durations and times are in nanoseconds,
-- and the fields that the source names in seconds are in seconds.
use ai_dandelion.Base.{ℕ, String, Option, none, some, List, ltb, if◌then◌else◌, str_eq}
use ai_dandelion.Db.{Action}

pub record User : Type 0 where
  pub id : String
  pub username : String
  pub email : String
  pub phone : String
  pub password_hash : String
  pub status : ℕ
  pub created_at : ℕ
  pub updated_at : ℕ

pub record Role : Type 0 where
  pub id : String
  pub name : String
  pub code : String
  pub status : ℕ
  pub remark : String
  pub sort : ℕ
  pub created_at : ℕ
  pub updated_at : ℕ

pub record UserRole : Type 0 where
  pub user_id : String
  pub role_id : String

abbrev pub user_status_enabled : ℕ
user_status_enabled = 1

abbrev pub role_status_enabled : ℕ
role_status_enabled = 1

pub record AuthTokenSession : Type 0 where
  pub id : String
  pub user_id : String
  pub username : String
  pub expires_at : ℕ

-- A value of Redis with the time at which it expires.
pub record Entry (A : Type 0) : Type 0 where
  pub value : A
  pub expires : ℕ

abbrev pub Keys : Type 0 → Type 0
Keys A = String → Option (Entry A)

module _ {A : Type 0} where
  -- SET with a time to live
  abbrev pub put : String → Entry A → Keys A → Keys A
  put k e m k' = if str_eq k' k then some e else m k'

  -- DEL
  abbrev pub drop : String → Keys A → Keys A
  drop k m k' = if str_eq k' k then none else m k'

  abbrev pub unexpired : ℕ → Option (Entry A) → Option A
  unexpired now none = none
  unexpired now (some e) = if ltb now e.expires then some e.value else none

  -- GET
  abbrev pub live : ℕ → String → Keys A → Option A
  live now k m = unexpired now (m k)

pub record Tables : Type 0 where
  pub users : List User
  pub roles : List Role
  pub user_roles : List UserRole
  pub sessions : Keys AuthTokenSession
  pub accesses : Keys String
  pub refreshes : Keys String

pub data Effect : Type 0 where

abbrev pub AuthAction : Type 0 → Type 0
AuthAction A = Action Tables Effect A

abbrev pub second : ℕ
second = 1000000000
