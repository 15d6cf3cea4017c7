-- ===== src/Gateway/Ticket/History.antt =====
-- The tickets as a contract: what a ticket is good for is told by the calls made so far, and both
-- ways of keeping them implement it.
use ai_dandelion.Base.{
  ℕ, ◌+◌, ◌/◌, ◌<◌, String, ◌≡◌, refl, ◌∙◌, inl, inr, Bool, true, false, not, ◌&&◌, ◌||◌, Option,
  none, some, List, [], ◌∷◌, ◌++◌, All, ltb, leb, if◌then◌else◌, str_eq, eq_iff, is_empty,
  trim_space, arith, Bool-cases,
}
use ai_dandelion.Db.{Result, ok, err}
use ai_dandelion.Auth.Model.{Entry, second}
use ai_dandelion.Auth.Token.{UserRef}
use ai_dandelion.Gateway.Ticket.{
  TicketRecord, TicketManager, Tickets, no_tickets, invalid_or_expired, keep_ticket, issue,
  take_ticket, consume,
}

-- A call, with its time and whether the call of Redis in it fails.
pub data Call : Type 0 where
  issuing : (user : UserRef) (drawn : Option String) (now : ℕ) (fails : Bool) → Call
  consuming : (raw : String) (now : ℕ) (fails : Bool) → Call

module _ (m : TicketManager) where
  abbrev pub after_call : Call → Tickets → Tickets
  after_call (issuing user drawn now fails) s = (issue m user drawn now fails s).1
  after_call (consuming raw now fails) s = (consume m raw now fails s).1

  -- The state after some calls, the last one first.
  unfoldable pub after_calls : List Call → Tickets
  after_calls [] = no_tickets
  after_calls (c ∷ cs) = after_call c (after_calls cs)

  -- Whether a call takes effect on the ticket `t`, and which.

  abbrev pub issues : String → UserRef → Option String → Bool → Bool
  issues t user none fails = false
  issues t user (some ticket) fails =
      not (is_empty (trim_space user.id)) && not (m.has_store && fails) && str_eq ticket t

  abbrev pub consumes : String → String → Bool → Bool
  consumes t raw fails =
      not (is_empty (trim_space raw)) && not (m.has_store && fails) && str_eq (trim_space raw) t

  -- The contract: the user for whom the ticket was issued last, unless it was consumed since.
  abbrev pub holder_after : String → Call → Option TicketRecord → Option TicketRecord
  holder_after t (issuing user drawn now fails) before =
      if issues t user drawn fails
      then some (record { user = user; expires_at = now + m.ttl })
      else before
  holder_after t (consuming raw now fails) before = if consumes t raw fails then none else before

  unfoldable pub holder : String → List Call → Option TicketRecord
  holder t [] = none
  holder t (c ∷ cs) = holder_after t c (holder t cs)

  -- A ticket of Redis is over at the end of its life, and one in memory after it.
  abbrev pub is_open : ℕ → TicketRecord → Bool
  is_open now r = if m.has_store then ltb now r.expires_at else leb now r.expires_at

  abbrev pub granted : ℕ → Option TicketRecord → Result UserRef
  granted now none = err invalid_or_expired
  granted now (some r) = if is_open now r then ok r.user else err invalid_or_expired

  abbrev pub promised : String → ℕ → Bool → List Call → Result UserRef
  promised raw now fails calls =
      if is_empty (trim_space raw) || (m.has_store && fails)
      then err invalid_or_expired
      else granted now (holder (trim_space raw) calls)

  abbrev as_entry : Option TicketRecord → Option (Entry UserRef)
  as_entry none = none
  as_entry (some r) = some (record { value = r.user; expires = r.expires_at })

  in_memory :
      m.has_store ≡ false
      → (calls : List Call) (t : String) → (after_calls calls).records t ≡ holder t calls
  unfolding after_calls holder issue keep_ticket consume take_ticket
  in_memory memory [] t = refl
  in_memory memory (issuing user none now fails ∷ cs) t = ground (arith, in_memory memory cs t)
  in_memory memory (issuing user (some ticket) now fails ∷ cs) t =
      ground (arith, in_memory memory cs t, eq_iff t ticket, eq_iff ticket t)
  in_memory memory (consuming raw now fails ∷ cs) t =
      ground (arith, in_memory memory cs t, eq_iff t (trim_space raw), eq_iff (trim_space raw) t)

  in_store :
      m.has_store ≡ true
      → (calls : List Call) (t : String) → (after_calls calls).store t ≡ as_entry (holder t calls)
  unfolding after_calls holder issue keep_ticket consume take_ticket
  in_store stored [] t = refl
  in_store stored (issuing user none now fails ∷ cs) t = ground (arith, in_store stored cs t)
  in_store stored (issuing user (some ticket) now fails ∷ cs) t =
      ground (arith, in_store stored cs t, eq_iff t ticket, eq_iff ticket t)
  in_store stored (consuming raw now fails ∷ cs) t =
      ground (arith, in_store stored cs t, eq_iff t (trim_space raw), eq_iff (trim_space raw) t)

  -- Whatever has been called before, Consume returns the user for whom the ticket was issued last,
  -- while its life is not over and if it has not been consumed since, and otherwise the one error:
  -- in memory and in Redis alike, which differ in the last instant of its life. A call of Redis
  -- that fails has no effect.
  pub consume-promised :
      (calls : List Call) (raw : String) (now : ℕ) (fails : Bool)
      → (consume m raw now fails (after_calls calls)).0 ≡ promised raw now fails calls
  unfolding consume take_ticket
  consume-promised calls raw now fails = elim (Bool-cases m.has_store) [
    | inl stored ↦ ground (arith, in_store stored calls (trim_space raw))
    | inr memory ↦ ground (arith, in_memory memory calls (trim_space raw))
  ]

  -- Whether a call issues or consumes the ticket `t`.
  abbrev pub touches : String → Call → Bool
  touches t (issuing user drawn now fails) = issues t user drawn fails
  touches t (consuming raw now fails) = consumes t raw fails

  abbrev pub Spares : String → Call → Type 0
  Spares t c = touches t c ≡ false

  holder-spared :
      (t : String) (between calls : List Call)
      → All (Spares t) between
      → holder t (between ++ calls) ≡ holder t calls
  unfolding holder
  holder-spared t [] calls spared = refl
  holder-spared t (issuing user drawn now fails ∷ cs) calls (e, spared) =
      rw e (holder-spared t cs calls spared)
  holder-spared t (consuming raw now fails ∷ cs) calls (e, spared) =
      rw e (holder-spared t cs calls spared)

  -- A ticket that is issued is good once: however many other tickets are issued and consumed in the
  -- meantime, the first Consume of it before its life is over returns the user for whom it was
  -- issued, and the next one, at any time, returns the error.
  issue-consume :
      (before between : List Call) (user : UserRef) (ticket : String) (now later : ℕ)
      → is_empty (trim_space user.id) ≡ false
      → is_empty ticket ≡ false
      → trim_space ticket ≡ ticket
      → later < now + m.ttl
      → All (Spares ticket) between
      → ((issue m user (some ticket) now false (after_calls before)).0
          ≡ ok (ticket, m.ttl / second))
        × ((consume m ticket later false
              (after_calls (between ++ (issuing user (some ticket) now false ∷ before)))).0
            ≡ ok user)
        × ((again : ℕ) (fails : Bool)
            → (consume m ticket again fails (
                after_calls (
                  consuming ticket later false
                  ∷ (between ++ (issuing user (some ticket) now false ∷ before))))).0
              ≡ err invalid_or_expired)
  unfolding holder issue keep_ticket
  issue-consume before between user ticket now later named drawn plain in_time spared =
      let calls = issuing user (some ticket) now false ∷ before in
      let kept = holder-spared ticket between calls spared in
      (
        ground arith,
        consume-promised (between ++ calls) ticket later false
            ∙ ground (arith, kept, eq_iff ticket ticket, plain),
        λ again fails.
            consume-promised (consuming ticket later false ∷ (between ++ calls)) ticket again fails
            ∙ ground (arith, eq_iff ticket ticket, plain),
      )
