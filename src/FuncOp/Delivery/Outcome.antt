-- ===== src/FuncOp/Delivery/Outcome.antt =====
-- What delivering an event and processing the outbox do, with every error path.
use ai_dandelion.Base.{
  ℕ, ◌+◌, ◌*◌, ◌==◌, String, ◌≡◌, ◌⊎◌, inl, inr, refl, Bool, true, false, some, List, ◌∷◌, arith,
  update_where, trim_space, truncate_bytes, is_empty, Option-cases,
}
use ai_dandelion.Db.{Err, Result, ok, err, World, first, exec, remote}
use ai_dandelion.FuncOp.Model.{OutboxEvent, done, failed, Tables, Effect, event_sent}
use ai_dandelion.FuncOp.Outbox.{mark_done, mark_retry, error_text}
use ai_dandelion.FuncOp.Delivery.{
  deliver, process_one, is_realtime, payload_function_id, with_function_id,
}

module _ (bus : Bool) (event : OutboxEvent) (w : World Tables Effect) where
  abbrev delivered : Result (Unit {0}) × World Tables Effect
  delivered = deliver bus event w

  delivered_failed : (e : Err) → delivered.0 ≡ err e → delivered.1.log ≡ w.log
  unfolding deliver first remote
  delivered_failed e h = ground arith

  delivered_sent :
      delivered.0 ≡ ok tt
      → is_realtime event ≡ true
      → (f : String) × (payload_function_id event.payload ≡ some f)
        × (is_empty (trim_space f) ≡ false)
        × (delivered.1.log
            ≡ event_sent event.event_type
                (trim_space f)
                (with_function_id (trim_space f) event.payload)
              ∷ w.log)
  unfolding deliver remote
  delivered_sent h r = elim (Option-cases (payload_function_id event.payload)) [
    | inl (f, e) ↦ (f, e, ground arith, ground arith)
    | inr e ↦ absurd (ground arith)
  ]

  pub tables-deliver : delivered.1.tables ≡ w.tables
  unfolding deliver first remote
  tables-deliver = ground arith

  -- Delivering an event never changes the tables. When it returns an error, no other component
  -- was called with success; when it returns none for an event of a realtime type, its payload
  -- was decoded, and it was sent to the bus once, under the trimmed and not empty function id.
  pub deliver_effects :
      (delivered.1.tables ≡ w.tables)
      × ((e : Err) → delivered.0 ≡ err e → delivered.1.log ≡ w.log)
      × (delivered.0 ≡ ok tt
          → is_realtime event ≡ true
          → (f : String) × (payload_function_id event.payload ≡ some f)
            × (is_empty (trim_space f) ≡ false)
            × (delivered.1.log
                ≡ event_sent event.event_type
                    (trim_space f)
                    (with_function_id (trim_space f) event.payload)
                  ∷ w.log))
  deliver_effects = (tables-deliver, delivered_failed, delivered_sent)

  -- Where each part of the loop of `ProcessReady` leaves the outbox.
  abbrev pub Settled : ℕ → Result (Unit {0}) → List OutboxEvent → Type 0
  Settled now (ok x) rows =
      rows
      ≡ update_where (λ y. y.id == event.id)
          (λ y. record y { status = done; last_error = ""; next_attempt_at = 0; updated_at = now })
          w.tables.outbox
  Settled now (err e) rows =
      (rows
        ≡ update_where (λ y. y.id == event.id)
            (λ y. record y {
              status = failed;
              last_error = truncate_bytes 1000 (trim_space (error_text e));
              next_attempt_at = now + event.attempts * 5 * 1000000;
              updated_at = now;
            })
            w.tables.outbox)
      ⊎ ((rows ≡ w.tables.outbox)
          × ((message : String) × (delivered.1.faults delivered.1.calls ≡ some message)))

  Settled-by :
      (now : ℕ) (r : Result (Unit {0}))
      → delivered.0 ≡ r
      → (process_one bus now event w).0 ≡ ok tt
      → Settled now r (process_one bus now event w).1.tables.outbox
  unfolding process_one mark_done mark_retry exec
  Settled-by now (ok x) e h = ground (arith, tables-deliver)
  Settled-by now (err x) e h = elim (Option-cases (delivered.1.faults delivered.1.calls)) [
    | inl (message, broken) ↦ inr (ground (arith, tables-deliver), (message, broken))
    | inr fine ↦ inl (ground (arith, tables-deliver))
  ]

  -- When the loop of `ProcessReady` goes on after an event, its row is done if the delivery
  -- succeeded, with no error and no next attempt; and else failed, with the first 1000 bytes of the
  -- error's text and a next attempt five seconds later for each attempt so far. Only where the very
  -- call that writes this fails too is the row as before. All other rows are as before.
  pub process_one_settles :
      (now : ℕ)
      → (process_one bus now event w).0 ≡ ok tt
      → Settled now delivered.0 (process_one bus now event w).1.tables.outbox
  process_one_settles now h = Settled-by now delivered.0 refl h
