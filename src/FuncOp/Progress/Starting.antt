-- ===== src/FuncOp/Progress/Starting.antt =====
-- What `Start` leaves in the table of conversation operations.
use ai_dandelion.Base.{
  ℕ, ◌+◌, String, str_eq, ◌⊎◌, ◌≡◌, refl, ap, subst, true, some, List, [], ◌∷◌, ◌++◌, arith,
  count_where, update_where, find_first, eq_iff, if◌then◌else◌,
}
use ai_dandelion.Db.{ok, World, exec, first, insert}
use ai_dandelion.FuncOp.Model.{
  Function, ConversationOperation, OperationState, running, awaiting_user, needs_continue,
  terminal_none, Tables, Effect,
}
use ai_dandelion.FuncOp.Conversation.{
  Scope, active_in, supersede, supersede_active, create, operation_is, get, resume, numbered,
}
use ai_dandelion.FuncOp.Progress.Ending.{find-update}
use ai_dandelion.FuncOp.Wording.{can_resume}
use ai_dandelion.FuncOp.Progress.{start_new, start_again, new_operation, scope_matches}

count-superseded :
    (s : Scope) (now : ℕ) (os : List ConversationOperation)
    → count_where (active_in s) (update_where (active_in s) (supersede now) os) ≡ 0
unfolding count_where update_where
count-superseded s now [] = refl
count-superseded s now (o ∷ os) = ground (arith, count-superseded s now os)

count-append :
    (s : Scope) (o : ConversationOperation) (os : List ConversationOperation)
    → count_where (active_in s) (os ++ o ∷ [])
      ≡ count_where (active_in s) os + (if active_in s o then 1 else 0)
unfolding count_where
count-append s o [] = ground arith
count-append s o (x ∷ os) = ground (arith, count-append s o os)

module _ (uuid : String) (f : Function) (s : Scope) (now : ℕ) (o : ConversationOperation)
    (w : World Tables Effect) where
  abbrev started : World Tables Effect
  started = (start_new uuid f s now w).1

  -- The rows after `Start` made an operation.
  started_rows :
      (start_new uuid f s now w).0 ≡ ok o
      → (o ≡ numbered (new_operation uuid f s now) w.tables)
        × (started.tables.operations
            ≡ update_where (active_in s) (supersede now) w.tables.operations ++ o ∷ [])
  unfolding start_new supersede_active create exec insert
  started_rows h = ground arith

  -- `Start` for a request that names no operation, when it returns one: every active operation of
  -- the same function, session, conversation and user is superseded, the others are untouched, the
  -- new one is running and stands at the end, and it is the only active one of its scope.
  pub start_new_one_active :
      (start_new uuid f s now w).0 ≡ ok o
      → (o.state ≡ running)
        × (started.tables.operations
            ≡ update_where (active_in s) (supersede now) w.tables.operations ++ o ∷ [])
        × (count_where (active_in s) started.tables.operations ≡ 1)
  start_new_one_active h =
      let (same, rows) = started_rows h in
      (
        rw same,
        rows,
        rw rows (
            ground (
              arith,
              same,
              count-append s o (update_where (active_in s) (supersede now) w.tables.operations),
              count-superseded s now w.tables.operations,
              eq_iff s.function_id s.function_id,
              eq_iff s.session_id s.session_id,
              eq_iff s.conversation s.conversation,
              eq_iff s.user_id s.user_id,
            )),
      )

resumable_cases :
    (state : OperationState)
    → can_resume state ≡ true
    → (state ≡ awaiting_user) ⊎ (state ≡ needs_continue)
resumable_cases state h = ground arith

-- An operation that runs again.
abbrev pub runs_again : ℕ → ConversationOperation → ConversationOperation
runs_again now before = record before {
  state = running;
  terminal_status = terminal_none;
  terminal_reason = "";
  finished_at = 0;
  updated_at = now;
}

module _ (id : String) (s : Scope) (now : ℕ) (o : ConversationOperation)
    (w : World Tables Effect) where
  again_rows :
      (start_again id s now w).0 ≡ ok o
      → (before : ConversationOperation) × (find_first (operation_is id) w.tables.operations
          ≡ some before)
        × (scope_matches before s ≡ true)
        × (can_resume before.state ≡ true)
        × ((start_again id s now w).1.tables ≡ record w.tables {
          operations = update_where (operation_is before.uuid) (runs_again now) w.tables.operations;
        })
        × (find_first (operation_is before.uuid) (start_again id s now w).1.tables.operations
            ≡ some o)
  unfolding start_again get resume first exec
  again_rows h = ground arith

  -- `Start` for a request that names an operation succeeds only on one that exists, belongs to the
  -- user, function, session and conversation of the request, and waits for its user or for more
  -- turns. The rows with its uuid then run again, without a terminal status, a reason or an end;
  -- what is returned is the operation as it stands then, in the state running; and nothing else in
  -- the tables has changed.
  pub start_again_ok :
      (start_again id s now w).0 ≡ ok o
      → (before : ConversationOperation) × (find_first (operation_is id) w.tables.operations
          ≡ some before)
        × ((before.user_id ≡ s.user_id)
            × (before.function_id ≡ s.function_id)
            × (before.session_id ≡ s.session_id)
            × (before.conversation ≡ s.conversation))
        × ((before.state ≡ awaiting_user) ⊎ (before.state ≡ needs_continue))
        × ((start_again id s now w).1.tables ≡ record w.tables {
          operations =
              update_where (λ x. str_eq x.uuid before.uuid) (runs_again now) w.tables.operations;
        })
        × (find_first (λ x. str_eq x.uuid before.uuid) (start_again id s now w).1.tables.operations
            ≡ some o)
        × (o.state ≡ running)
  start_again_ok h =
      let (before, was, matches, resumable, tables, now_found) = again_rows h in
      let found =
        subst (λ t. find_first (operation_is before.uuid) t.operations ≡ some o) tables now_found in
      let (x, _, same) =
        find-update before.uuid (runs_again now) (λ x. refl) w.tables.operations o found in
      (
        before,
        was,
        (
          (eq_iff before.user_id s.user_id).0 (ground (arith, matches)),
          (eq_iff before.function_id s.function_id).0 (ground (arith, matches)),
          (eq_iff before.session_id s.session_id).0 (ground (arith, matches)),
          (eq_iff before.conversation s.conversation).0 (ground (arith, matches)),
        ),
        resumable_cases before.state resumable,
        tables,
        now_found,
        ap (λ y. y.state) same,
      )
