-- ===== src/Gateway/Check/Passing.antt =====
-- Which requests pass the check of the gateway, and as whom.
use ai_dandelion.Base.{
  ℕ, suc, String, ◌≡◌, refl, ◌⊎◌, inl, inr, Bool, true, false, some, List, eq_iff, is_empty,
  trim_space, arith, Bool-cases,
}
use ai_dandelion.Db.{Result, ok, err, World}
use ai_dandelion.Auth.Model.{Role, AuthTokenSession, live, Tables, Effect}
use ai_dandelion.Auth.Token.{Library, Claims, verify_access_token}
use ai_dandelion.Auth.Account.{UserView}
use ai_dandelion.Auth.Session.{UserLogic, validate_token}
use ai_dandelion.Auth.Ending.{validate_token_ok, Admitted}
use ai_dandelion.Gateway.Check.{
  Request, next, is_public_request, token_of, is_bridge_token, as_bridge, as_user, admit,
  ask_system, auth,
}

-- The request goes on as the bridge's: the configuration has a bridge token, and the request has it.
abbrev pub AsBridge : String → Request → Request → Type 0
AsBridge expected r r' =
    (is_empty (trim_space expected) ≡ false)
    × ((trim_space r.bridge_token ≡ trim_space expected)
        ⊎ ((is_empty (trim_space r.bridge_token) ≡ true)
            × (trim_space (token_of r) ≡ trim_space expected)))
    × (r'.user_id ≡ some "bridge")

-- The request goes on as that of a user whom the database has, enabled and with an enabled role,
-- and of whose sessions the token names one.
abbrev pub AsUser : Library → UserLogic → (ℕ → ℕ) → World Tables Effect → Request → Request → Type 0
AsUser l u clock w r r' =
    (v : UserView) × (roles : List Role) × (c : Claims) × (s : AuthTokenSession)
    × (verify_access_token l u.secret (token_of r) (clock w.calls) ≡ ok c)
    × (live (clock (suc w.calls)) (trim_space c.session_id) w.tables.sessions ≡ some s)
    × Admitted s v roles w.tables
    × (r'.user_id ≡ some (trim_space v.id))

module _ (l : Library) (u : UserLogic) (clock : ℕ → ℕ) (expected : String)
    (conn_fails call_fails : Bool) where
  admit_next :
      (r r' : Request) (answer : Result (UserView × List Role))
      → admit r answer ≡ next r'
      → (v : UserView) × (roles : List Role) × (answer ≡ ok (v, roles))
        × (r'.user_id ≡ some (trim_space v.id))
        × (r'.authorization ≡ "")
        × (r'.access_token ≡ "")
  unfolding as_user
  admit_next r r' (err e) h = ground arith
  admit_next r r' (ok (v, roles)) h = (v, roles, refl, ground arith, ground arith, ground arith)

  ask_next :
      (token : String) (r r' : Request) (w : World Tables Effect)
      → (ask_system l u clock expected conn_fails call_fails token r w).0 ≡ ok (next r')
      → (v : UserView) × (roles : List Role) × ((validate_token l u clock token w).0
          ≡ ok (v, roles))
        × (r'.user_id ≡ some (trim_space v.id))
        × (r'.authorization ≡ "")
        × (r'.access_token ≡ "")
  unfolding ask_system
  ask_next token r r' w h = admit_next r r' (validate_token l u clock token w).0 (ground arith)

  bridge_token_ok :
      (r : Request) (bearer : String)
      → is_bridge_token expected r bearer ≡ true
      → (is_empty (trim_space expected) ≡ false)
        × ((trim_space r.bridge_token ≡ trim_space expected)
            ⊎ ((is_empty (trim_space r.bridge_token) ≡ true)
                × (trim_space bearer ≡ trim_space expected)))
  unfolding is_bridge_token
  bridge_token_ok r bearer h = (
    ground arith,
    elim (Bool-cases (is_empty (trim_space r.bridge_token))) [
      | inl e ↦ inr (e, ground (arith, eq_iff (trim_space bearer) (trim_space expected)))
      | inr e ↦ inl (ground (arith, eq_iff (trim_space r.bridge_token) (trim_space expected)))
    ],
  )

  valid_user :
      (r r' : Request) (w : World Tables Effect) (v : UserView) (roles : List Role)
      → (validate_token l u clock (token_of r) w).0 ≡ ok (v, roles)
      → r'.user_id ≡ some (trim_space v.id)
      → AsUser l u clock w r r'
  valid_user r r' w v roles valid named =
      let (c, verified, access, (s, kept, time, admitted)) =
        validate_token_ok l u clock (token_of r) w {v = v} {roles = roles} valid in
      (v, roles, c, s, verified, kept, admitted, named)

  -- A request passes the check only if it is public, and then as it came, or without its credentials
  -- as the bridge's or as that of a user: the one that its token, verified and of a session that is
  -- kept in Redis, stands for, enabled and with an enabled role in the database of the system
  -- service. Whatever fails on the way, no other request passes.
  pub auth_next :
      (r r' : Request) (w : World Tables Effect)
      → (auth l u clock expected conn_fails call_fails r w).0 ≡ ok (next r')
      → ((is_public_request r ≡ true) × (r' ≡ r))
        ⊎ ((AsBridge expected r r' ⊎ AsUser l u clock w r r')
            × (r'.authorization ≡ "")
            × (r'.access_token ≡ ""))
  unfolding auth as_bridge
  auth_next r r' w h = elim (Bool-cases (is_public_request r)) [
    | inl public ↦ inl (public, ground arith)
    | inr private ↦ elim (Bool-cases (is_bridge_token expected r (token_of r))) [
      | inl bridge ↦
          let (configured, given) = bridge_token_ok r (token_of r) bridge in
          inr (inl (configured, given, ground arith), ground arith, ground arith)
      | inr other ↦
          let (v, roles, valid, named, cleared, cleared') =
            ask_next (token_of r) r r' w (ground arith) in
          inr (inr (valid_user r r' w v roles valid named), cleared, cleared')
    ]
  ]
