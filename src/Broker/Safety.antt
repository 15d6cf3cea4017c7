-- ===== src/Broker/Safety.antt =====
-- Invariants of the map of pending calls, for both brokers.
use ai_dandelion.Base.{ℕ, String, none, some, ◌≡◌, ◌<◌, eq_iff, arith}
use ai_dandelion.Db.{ok, Err}
use ai_dandelion.Broker.State.{
  Event, Phase, Broker, register, remove, deliver, move, announce, receive, leave, returned,
}

module _ {D Q : Type 0} where
  -- An entry of the map is the number of a call that was made for this id, and its channel is empty.
  pub record Pends (b : Broker D Q) (t : String) (i : ℕ) : Type 0 where
    pub made : i < b.next
    pub own : (b.waiters i).tool_id ≡ t
    pub room : (b.waiters i).channel ≡ none

  abbrev pub Consistent : Broker D Q → Type 0
  Consistent b = (t : String) (i : ℕ) → b.pending t ≡ some i → Pends b t i

  pub register-Consistent :
      (already : Err) (session tool : String) (q : Q) (e : Event) (b b' : Broker D Q)
      → Consistent b
      → register already session tool q e b ≡ ok b'
      → Consistent b'
  unfolding register
  register-Consistent already session tool q e b b' c h t i p = record {
    made = ground (arith, c t i);
    own = ground (arith, c t i, eq_iff t tool);
    room = ground (arith, c t i);
  }

  pub remove-Consistent :
      (tool : String) (b : Broker D Q) → Consistent b → Consistent (remove tool b)
  unfolding remove
  remove-Consistent tool b c t i p = record {
    made = ground (arith, c t i);
    own = ground (arith, c t i);
    room = ground (arith, c t i);
  }

  pub deliver-Consistent :
      (tool : String) (i : ℕ) (d : D) (b : Broker D Q)
      → Consistent b
      → b.pending tool ≡ some i
      → Consistent (deliver tool i d b)
  unfolding deliver remove
  deliver-Consistent tool i d b c h t j p = record {
    made = ground (arith, c t j);
    own = ground (arith, c t j);
    room = ground (arith, c t j, c tool i, eq_iff t tool);
  }

  pub move-Consistent :
      (i : ℕ) (p : Phase) (b : Broker D Q) → Consistent b → Consistent (move i p b)
  move-Consistent i p b c t j h = record {
    made = ground (arith, c t j);
    own = ground (arith, c t j);
    room = ground (arith, c t j);
  }

  pub announce-Consistent : (i : ℕ) (b : Broker D Q) → Consistent b → Consistent (announce i b)
  announce-Consistent i b c t j h = record {
    made = ground (arith, c t j);
    own = ground (arith, c t j);
    room = ground (arith, c t j);
  }

  pub receive-Consistent :
      (i : ℕ) (d : D) (b : Broker D Q) → Consistent b → Consistent (receive i d b)
  receive-Consistent i d b c t j h = record {
    made = ground (arith, c t j);
    own = ground (arith, c t j);
    room = ground (arith, c t j);
  }

  pub leave-Consistent : (i : ℕ) (b : Broker D Q) → Consistent b → Consistent (leave i b)
  leave-Consistent i b c =
      move-Consistent i returned (remove (b.waiters i).tool_id b)
        (remove-Consistent (b.waiters i).tool_id b c)
