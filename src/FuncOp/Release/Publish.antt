-- ===== src/FuncOp/Release/Publish.antt =====
-- What `publish` does to the release rows.
use ai_dandelion.Base.{
  ℕ, String, ◌≡◌, Option, none, some, inl, inr, Option-cases, arith, find_first,
}
use ai_dandelion.Db.{ticked, ok, World, first, exec, insert, transaction}
use ai_dandelion.FuncOp.Model.{FunctionRelease, OutboxEvent, Tables, Effect}
use ai_dandelion.FuncOp.Outbox.{create, add_event, new_event}
use ai_dandelion.FuncOp.Release.{
  publish_body, publish_found, mark_found, activate_found, uuid_is, revoke_releases,
  publish_release, activate, publish_row,
}

abbrev pub with_event : String → Option OutboxEvent → Tables → Tables
with_event fresh none t = t
with_event fresh (some e) t = add_event (new_event fresh e t) t

-- The tables after a committed publish of the row `r`.
abbrev pub published_tables :
    FunctionRelease → String → ℕ → String → Option OutboxEvent → Tables → Tables
published_tables r u now fresh event t =
    with_event fresh event
      (activate r.function_id u now (publish_release u now (revoke_releases r.function_id now t)))

activate_found_ok :
    (u : String) (now : ℕ) (fresh : String) (event : Option OutboxEvent) (r : FunctionRelease)
    (w : World Tables Effect)
    → (activate_found u now fresh event r w).0 ≡ ok tt
    → (activate_found u now fresh event r w).1.tables
      ≡ with_event fresh event (activate r.function_id u now w.tables)
unfolding activate_found exec create insert
activate_found_ok u now fresh event r w h = ground arith

mark_found_ok :
    (u : String) (now : ℕ) (fresh : String) (event : Option OutboxEvent) (r : FunctionRelease)
    (w : World Tables Effect)
    → (mark_found u now fresh event r w).0 ≡ ok tt
    → (mark_found u now fresh event r w).1.tables
      ≡ with_event fresh event (activate r.function_id u now (publish_release u now w.tables))
unfolding mark_found exec
mark_found_ok u now fresh event r w h =
    let w1 = record (ticked w) { tables = publish_release u now w.tables } in
    ground (arith, activate_found_ok u now fresh event r w1)

publish_found_ok :
    (u : String) (now : ℕ) (fresh : String) (event : Option OutboxEvent) (r : FunctionRelease)
    (w : World Tables Effect)
    → (publish_found u now fresh event r w).0 ≡ ok tt
    → (publish_found u now fresh event r w).1.tables ≡ published_tables r u now fresh event w.tables
unfolding publish_found exec
publish_found_ok u now fresh event r w h =
    let w1 = record (ticked w) { tables = revoke_releases r.function_id now w.tables } in
    ground (arith, mark_found_ok u now fresh event r w1)

publish_body_ok :
    (u : String) (now : ℕ) (fresh : String) (event : Option OutboxEvent) (w : World Tables Effect)
    → (publish_body u now fresh event w).0 ≡ ok tt
    → (r : FunctionRelease) × (find_first (uuid_is u) w.tables.releases ≡ some r)
      × ((publish_body u now fresh event w).1.tables
          ≡ published_tables r u now fresh event w.tables)
unfolding publish_body first
publish_body_ok u now fresh event w h =
    elim (Option-cases (find_first (uuid_is u) w.tables.releases)) [
      | inl (r, e) ↦ (r, e, ground (arith, publish_found_ok u now fresh event r (ticked w)))
      | inr e ↦ absurd (ground arith)
    ]

pub publish_row_ok :
    (u : String) (now : ℕ) (fresh : String) (event : Option OutboxEvent) (w : World Tables Effect)
    → (publish_row u now fresh event w).0 ≡ ok tt
    → (r : FunctionRelease) × (find_first (uuid_is u) w.tables.releases ≡ some r)
      × ((publish_row u now fresh event w).1.tables ≡ published_tables r u now fresh event w.tables)
unfolding publish_row transaction
publish_row_ok u now fresh event w h =
    let (r, found, tables) = publish_body_ok u now fresh event (ticked w) (ground arith) in
    (r, found, ground arith)
