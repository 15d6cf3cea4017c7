-- ===== src/FuncOp/Delivery/Durable.antt =====
-- The processor never loses an event, and marks none as done that it has not delivered.
use ai_dandelion.Base.{ℕ, ◌≤◌, String, ◌≡◌, ◌⊎◌, Bool, List, [], ◌∷◌}
use mathlib.Core.List.{Memᴰ}
use ai_dandelion.Db.{ok, World}
use ai_dandelion.FuncOp.Model.{OutboxEvent, Payload, done, Tables, Effect, FuncAction}
use ai_dandelion.FuncOp.Delivery.{deliver}

-- What identifies an event, and everything that it says.
pub record Identity : Type 0 where
  pub id : ℕ
  pub uuid : String
  pub function_id : String
  pub release_id : String
  pub event_type : String
  pub payload : Payload
  pub created_at : ℕ

abbrev pub identity : OutboxEvent → Identity
identity e = record {
  id = e.id;
  uuid = e.uuid;
  function_id = e.function_id;
  release_id = e.release_id;
  event_type = e.event_type;
  payload = e.payload;
  created_at = e.created_at;
}

-- An event of the outbox with the id was delivered without an error after the world `w`, with the
-- functions and the failures of `w`.
abbrev pub WasDelivered : Bool → World Tables Effect → ℕ → Type 0
WasDelivered bus w i =
    (e : OutboxEvent) × (x : OutboxEvent) × Memᴰ x w.tables.outbox
    × (identity e ≡ identity x)
    × (e.id ≡ i)
    × ((v : World Tables Effect) × (v.faults ≡ w.faults)
        × (w.calls ≤ v.calls)
        × (v.tables.functions ≡ w.tables.functions)
        × ((deliver bus e v).0 ≡ ok tt))

-- Each event stands in its place, as it was but for its status, its attempts, its error and its
-- times; and where it is done now, it was done before, or `D` holds of its id.
abbrev pub Kept : (ℕ → Type 0) → List OutboxEvent → List OutboxEvent → Type 0
Kept D [] [] = Unit
Kept D (x ∷ xs) (y ∷ ys) =
    (identity y ≡ identity x) × (y.status ≡ done → (x.status ≡ done) ⊎ D x.id) × Kept D xs ys
Kept D _ _ = ⊥

module _ (bus : Bool) (start : World Tables Effect) where
  -- The state of a run that began at `start`.
  abbrev Run : World Tables Effect → Type 0
  Run w =
      Kept (WasDelivered bus start) start.tables.outbox w.tables.outbox
      × (w.faults ≡ start.faults)
      × (start.calls ≤ w.calls)
      × (w.tables.functions ≡ start.tables.functions)

  -- An action keeps the run, whether it returns or fails.
  abbrev Keeps : {A : Type 0} → FuncAction A → Type 0
  Keeps m = (w : World Tables Effect) → Run w → Run (m w).1

  -- An event that was read from the outbox at the start.
  abbrev Claimed : OutboxEvent → Type 0
  Claimed e = (x : OutboxEvent) × Memᴰ x start.tables.outbox × (identity e ≡ identity x)
