-- ===== src/FuncOp/Tests/Events.antt =====
-- The theorems on the outbox at concrete inputs.
use ai_dandelion.Base.{
  ◌+◌, ◌≤◌, ◌<◌, String, List, ◌≡◌, ◌≢◌, refl, true, false, some, [], ◌∷◌, arith, All, length,
  count_where, update_where, select, take, trim_space, is_empty,
}
use ai_dandelion.Db.{World, Err, ok, err, exec, query, remote}
use ai_dandelion.FuncOp.Model.{OutboxEvent, Tables, Effect, done, event_sent}
use ai_dandelion.FuncOp.Outbox.{
  claim_one, claim_all, claim_ready, clamp_limit, claimed_event, is_ready, lease, mark_done,
}
use ai_dandelion.FuncOp.Delivery.{
  deliver, process_one, is_realtime, payload_function_id, with_function_id,
}
use ai_dandelion.FuncOp.Delivery.Claims.{
  UniqueIds, Meanwhile, nothing_yet, claims as claims_too, marks_done, ready_unless_done,
  claim_one_exclusive, claim_ready_ok,
}
use ai_dandelion.FuncOp.Delivery.Rows.{FromReady, Marked, Free, Read}
use ai_dandelion.FuncOp.Delivery.Outcome.{Settled, deliver_effects, process_one_settles}
use ai_dandelion.FuncOp.Tests.{waiting_event, sample, calm}

ready_unless_done_example :
    (waiting_event.status ≢ done
      → 0 + 5 + lease ≤ 60000005
      → is_ready 60000005 waiting_event ≡ true)
    × (waiting_event.status ≡ done → is_ready 60000005 waiting_event ≡ false)
ready_unless_done_example = ready_unless_done waiting_event 60000005

sample-UniqueIds : UniqueIds sample
unfolding count_where
sample-UniqueIds i = ground arith

claims : (claim_one 100 waiting_event calm).0 ≡ ok (some (claimed_event waiting_event))
unfolding claim_one exec count_where
claims = refl

-- Another processor claims the same snapshot, in vain, and the first one marks it as done.
between :
    Meanwhile 1
      (100 + lease)
      (claim_one 100 waiting_event calm).1
      (mark_done 1 160 (claim_one 150 waiting_event (claim_one 100 waiting_event calm).1).1).1
between = marks_done (claims_too nothing_yet 150 waiting_event (omega arith)) 1 160

claim_one_exclusive_example :
    (claim_one 200 waiting_event
      (mark_done 1 160 (claim_one 150 waiting_event (claim_one 100 waiting_event calm).1).1).1).0
    ≢ ok (some (claimed_event waiting_event))
claim_one_exclusive_example =
    claim_one_exclusive 100 200 waiting_event waiting_event calm (claimed_event waiting_event)
      (claimed_event waiting_event) sample-UniqueIds claims between refl (omega arith)

claims_ready : (claim_ready 100 10 calm).0 ≡ ok (claimed_event waiting_event ∷ [])
unfolding claim_ready claim_all claim_one exec query count_where update_where select take is_ready
    clamp_limit
claims_ready = refl

claim_ready_ok_example :
    (length (claimed_event waiting_event ∷ []) ≤ 100)
    × (0 < 10 → 10 ≤ 100 → length (claimed_event waiting_event ∷ []) ≤ 10)
    × All
        (λ e. FromReady 100 sample e × Marked 100 (claim_ready 100 10 calm).1.tables e)
        (claimed_event waiting_event ∷ [])
    × ((events es' : List OutboxEvent) (v : World Tables Effect)
        → Read 100 sample events
        → (claim_all 100 events v).0 ≡ ok es'
        → All (Free 100 v.tables) es')
claim_ready_ok_example = claim_ready_ok 100 10 (claimed_event waiting_event ∷ []) calm claims_ready

deliver_effects_example :
    ((deliver true waiting_event calm).1.tables ≡ sample)
    × ((e : Err)
        → (deliver true waiting_event calm).0 ≡ err e
        → (deliver true waiting_event calm).1.log ≡ [])
    × ((deliver true waiting_event calm).0 ≡ ok tt
        → is_realtime waiting_event ≡ true
        → (f : String) × (payload_function_id waiting_event.payload ≡ some f)
          × (is_empty (trim_space f) ≡ false)
          × ((deliver true waiting_event calm).1.log
              ≡ event_sent waiting_event.event_type
                  (trim_space f)
                  (with_function_id (trim_space f) waiting_event.payload)
                ∷ []))
deliver_effects_example = deliver_effects true waiting_event calm

processes : (process_one true 100 waiting_event calm).0 ≡ ok tt
unfolding process_one deliver remote mark_done exec trim_space
processes = refl

process_one_settles_example :
    Settled true waiting_event calm 100
      (deliver true waiting_event calm).0
      (process_one true 100 waiting_event calm).1.tables.outbox
process_one_settles_example = process_one_settles true waiting_event calm 100 processes
