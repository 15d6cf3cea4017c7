-- ===== src/Gateway/Ticket.antt =====
-- inner-gateway/internal/realtime/ticket.go: tickets that are good for one connection, kept in the
-- memory of the process or in Redis. Times are in nanoseconds. A key of Redis is there until its
-- time to live is over; the keys are read without their prefix "realtime:ticket:", and the JSON of
-- a user is the user: what Marshal has written Unmarshal reads.
pub mod History
use ai_dandelion.Base.{
  ℕ, ◌+◌, ◌*◌, ◌/◌, String, Bool, true, false, not, ◌||◌, Option, none, some, List, [], ◌∷◌, ◌==◌,
  ltb, leb, if◌then◌else◌, str_eq, is_empty, trim_space,
}
use ai_dandelion.Db.{Err, msg, Result, ok, err}
use ai_dandelion.Auth.Model.{Entry, Keys, put, drop, live, second}
use ai_dandelion.Auth.Token.{UserRef}

pub record TicketRecord : Type 0 where
  pub user : UserRef
  pub expires_at : ℕ

-- `has_store` tells whether the manager has a client of Redis.
pub record TicketManager : Type 0 where
  pub ttl : ℕ
  pub has_store : Bool

-- What is kept in memory and what is kept in Redis.
pub record Tickets : Type 0 where
  pub records : String → Option TicketRecord
  pub store : Keys UserRef

unfoldable pub new_ticket_manager : ℕ → TicketManager
new_ticket_manager ttl = record { ttl = if ttl == 0 then 60 * second else ttl; has_store = false }

unfoldable pub new_redis_ticket_manager : ℕ → TicketManager
unfolding new_ticket_manager
new_redis_ticket_manager ttl = record (new_ticket_manager ttl) { has_store = true }

abbrev pub no_tickets : Tickets
no_tickets = record { records = λ t. none; store = λ t. none }

abbrev pub invalid_or_expired : Err
invalid_or_expired = msg "invalid or expired realtime ticket"

module _ (m : TicketManager) where
  unfoldable pub keep_ticket : String → UserRef → ℕ → Bool → Tickets → Result (String × ℕ) × Tickets
  keep_ticket ticket user now set_fails s =
      if m.has_store
      then if set_fails then (err (Err.fault "redis"), s) else (
        ok (ticket, m.ttl / second),
        record s { store = put ticket (record { value = user; expires = now + m.ttl }) s.store },
      )
      else (
        ok (ticket, m.ttl / second),
        record s {
          records = λ t.
              if str_eq t ticket
              then some (record { user = user; expires_at = now + m.ttl })
              else s.records t;
        },
      )

  -- `drawn` is the text of the random bytes, or none when they cannot be read; `set_fails` tells
  -- whether the call of Redis fails.
  unfoldable pub issue :
      UserRef → Option String → ℕ → Bool → Tickets → Result (String × ℕ) × Tickets
  unfolding keep_ticket
  issue user drawn now set_fails s =
      if is_empty (trim_space user.id) then (err (msg "user is required"), s) else elim drawn [
        | none ↦ (err (Err.fault "random"), s)
        | some ticket ↦ keep_ticket ticket user now set_fails s
      ]

  abbrev pub user_or_invalid : Option UserRef → Result UserRef
  user_or_invalid none = err invalid_or_expired
  user_or_invalid (some u) = ok u

  -- `time.Now().After(record.expiresAt)`
  abbrev pub unless_over : ℕ → Option TicketRecord → Result UserRef
  unless_over now none = err invalid_or_expired
  unless_over now (some r) = if ltb r.expires_at now then err invalid_or_expired else ok r.user

  unfoldable pub take_ticket : String → ℕ → Bool → Tickets → Result UserRef × Tickets
  take_ticket ticket now get_fails s =
      if m.has_store
      then if get_fails
        then (err invalid_or_expired, s)
        else (user_or_invalid (live now ticket s.store), record s { store = drop ticket s.store })
      else (
        unless_over now (s.records ticket),
        record s { records = λ t. if str_eq t ticket then none else s.records t },
      )

  unfoldable pub consume : String → ℕ → Bool → Tickets → Result UserRef × Tickets
  unfolding take_ticket
  consume raw now get_fails s =
      if is_empty (trim_space raw)
      then (err invalid_or_expired, s)
      else take_ticket (trim_space raw) now get_fails s
