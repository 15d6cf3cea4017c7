-- ===== src/Auth/Refreshing.antt =====
-- Refresh tokens of system/internal/logic/user.go are used once.
use ai_dandelion.Base.{
  ℕ, ◌*◌, ◌-◌, subst, sym, inl, inr, String, ◌≡◌, ◌≢◌, none, some, List, eq_iff, arith, trim_space,
}
use ai_dandelion.Db.{ok, World, Err, exec, first, query}
use ai_dandelion.Db.Rules.{Result-cases, Retains, bind-Retains}
use ai_dandelion.Auth.Model.{User, Role, AuthTokenSession, live, Tables, Effect, second}
use ai_dandelion.Auth.Token.{Library, hash_token, sign_access_token}
use ai_dandelion.Auth.Store.{
  take_refresh, consume_refresh_session_id, get_session, save_rotated_tokens, set_access,
  set_refresh, delete_access,
}
use ai_dandelion.Auth.Account.{get_user, list_user_roles}
use ai_dandelion.Auth.Session.{
  UserLogic, Fresh, AuthResult, consume_refresh, refresh_session, refresh_token, session_or,
  session_user, admitted_roles, issue_rotated_tokens, sign, save_rotated, rotate, rotate_as,
  rotate_with, keep_rotated, issue_rotated, min_duration,
}

module _ (l : Library) (u : UserLogic) (clock : ℕ → ℕ) where
  -- A key that is not there, whatever fails.
  pub consume_refresh-none :
      (token : String) (w : World Tables Effect) {id : String}
      → w.tables.refreshes (hash_token l token) ≡ none
      → (consume_refresh l u clock token w).0 ≢ ok id
  unfolding consume_refresh consume_refresh_session_id take_refresh exec
  consume_refresh-none token w h e = ground arith

  pub consume_refresh_ok :
      (token : String) (w : World Tables Effect) {id : String}
      → (consume_refresh l u clock token w).0 ≡ ok id
      → (live (clock w.calls) (hash_token l token) w.tables.refreshes ≡ some id)
        × ((consume_refresh l u clock token w).1.tables.refreshes (hash_token l token) ≡ none)
  unfolding consume_refresh consume_refresh_session_id take_refresh exec
  consume_refresh_ok token w h = ground (arith, eq_iff (hash_token l token) (hash_token l token))

module _ (l : Library) (u : UserLogic) (clock : ℕ → ℕ) (key : String) where
  abbrev Gone : Tables → Type 0
  Gone t = t.refreshes key ≡ none

  session_or-Retains : (e : Err) (id : String) → Retains Gone (session_or l u clock e id)
  unfolding session_or get_session query
  session_or-Retains e id w h = ground arith

  session_user-Retains : (s : AuthTokenSession) → Retains Gone (session_user l u clock s)
  unfolding session_user get_user first
  session_user-Retains s w h = ground arith

  admitted_roles-Retains : (s : User) → Retains Gone (admitted_roles s)
  unfolding admitted_roles list_user_roles query
  admitted_roles-Retains s w h = ground arith

  sign-Retains :
      (s : User) (id : String) (ttl : ℕ) (f : Fresh) → Retains Gone (sign l u clock s id ttl f)
  unfolding sign sign_access_token query
  sign-Retains s id ttl f w h = ground arith

  save_rotated-Retains :
      (id jti token : String) (a r : ℕ)
      → hash_token l token ≢ key
      → Retains Gone (save_rotated l u clock id jti token a r)
  unfolding save_rotated save_rotated_tokens set_access set_refresh delete_access exec
  save_rotated-Retains id jti token a r fresh w h = ground (arith, eq_iff key (hash_token l token))

  keep_rotated-Retains :
      (s : User) (roles : List Role) (id : String) (a r : ℕ) (f : Fresh) (signed : String × String)
      → hash_token l f.refresh_token ≢ key
      → Retains Gone (keep_rotated l u clock a s roles id r f signed)
  unfolding keep_rotated save_rotated save_rotated_tokens set_access set_refresh delete_access exec
      query
  keep_rotated-Retains s roles id a r f signed fresh w h =
      ground (arith, eq_iff key (hash_token l f.refresh_token))

  issue_rotated-Retains :
      (s : User) (roles : List Role) (id : String) (a r : ℕ) (f : Fresh)
      → hash_token l f.refresh_token ≢ key
      → Retains Gone (issue_rotated l u clock a s roles id r f)
  unfolding issue_rotated
  issue_rotated-Retains s roles id a r f fresh =
      bind-Retains Gone (keep_rotated l u clock a s roles id r f) (sign l u clock s id a f)
        (sign-Retains s id a f) λ signed. keep_rotated-Retains s roles id a r f signed fresh

  rotate_with-Retains :
      (id : String) (s : AuthTokenSession) (f : Fresh) (user : User) (roles : List Role)
      → hash_token l f.refresh_token ≢ key
      → Retains Gone (rotate_with l u clock id s f user roles)
  unfolding rotate_with issue_rotated_tokens
  rotate_with-Retains id s f user roles fresh w h =
      let ttl = s.expires_at * second - clock w.calls in
      ground (
        arith,
        issue_rotated-Retains user roles id (min_duration u.access_token_ttl ttl) ttl f fresh w h,
      )

  pub refresh_session-Retains :
      (id : String) (f : Fresh)
      → hash_token l f.refresh_token ≢ key
      → Retains Gone (refresh_session l u clock id f)
  unfolding refresh_session rotate rotate_as
  refresh_session-Retains id f fresh =
      bind-Retains Gone (λ s. rotate l u clock id s f) (session_or l u clock _ id)
        (session_or-Retains _ id)
        λ s.
          bind-Retains Gone (rotate_as l u clock id s f) (session_user l u clock s)
            (session_user-Retains s)
            λ user.
              bind-Retains Gone (rotate_with l u clock id s f user) (admitted_roles user)
                (admitted_roles-Retains user) λ roles. rotate_with-Retains id s f user roles fresh

module _ (l : Library) (u : UserLogic) (clock : ℕ → ℕ) (raw : String) where
  refresh_token_parts :
      (f : Fresh) (w : World Tables Effect) {a : AuthResult}
      → (refresh_token l u clock raw f w).0 ≡ ok a
      → (id : String) × ((consume_refresh l u clock (trim_space raw) w).0 ≡ ok id)
        × (refresh_token l u clock raw f w
            ≡ refresh_session l u clock id f (consume_refresh l u clock (trim_space raw) w).1)
  unfolding refresh_token
  refresh_token_parts f w h = elim (Result-cases (consume_refresh l u clock (trim_space raw) w).0) [
    | inl (id, e) ↦ (id, e, ground arith)
    | inr (x, e) ↦ absurd (ground arith)
  ]

  -- A refresh token is good for one exchange: after RefreshToken has returned a new pair, any later
  -- exchange of the same token is refused, whatever fails then, if the new token has another hash.
  pub refresh_token_once :
      (f f' : Fresh) (w : World Tables Effect) {a b : AuthResult}
      → hash_token l f.refresh_token ≢ hash_token l (trim_space raw)
      → (refresh_token l u clock raw f w).0 ≡ ok a
      → (refresh_token l u clock raw f' (refresh_token l u clock raw f w).1).0 ≢ ok b
  refresh_token_once f f' w fresh h again =
      let key = hash_token l (trim_space raw) in
      let (id, consumed, e) = refresh_token_parts f w h in
      let gone =
        refresh_session-Retains l u clock key id f fresh
          (consume_refresh l u clock (trim_space raw) w).1
          (consume_refresh_ok l u clock (trim_space raw) w consumed).1 in
      let w2 = (refresh_token l u clock raw f w).1 in
      let (id', consumed', e') = refresh_token_parts f' w2 again in
      consume_refresh-none l u clock (trim_space raw) w2
        (subst (λ p. p.1.tables.refreshes key ≡ none) (sym e) gone) consumed'
