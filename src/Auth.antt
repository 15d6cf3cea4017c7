-- ===== src/Auth.antt =====
-- Sessions and tokens of a signed-in user: toolbox/authctx/authctx.go, the Redis store of
-- system/internal/dao/auth_token.go and the operations of system/internal/logic/user.go.
pub mod Model
pub mod Token
pub mod Store
pub mod Account
pub mod Session
pub mod Refreshing
pub mod Ending
pub mod Issuing
pub mod Accepting
pub mod Making
pub mod RoundTrip
pub mod Sample
pub mod Signing
mod Tests
