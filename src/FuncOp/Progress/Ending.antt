-- ===== src/FuncOp/Progress/Ending.antt =====
-- What `Finish` and `SubmitProgress` do to the conversation operations.
use ai_dandelion.Base.{
  ℕ, ◌+◌, ◌++◌, String, ◌≡◌, ◌⊎◌, inl, inr, refl, subst, Bool, true, false, none, some, List, [],
  ◌∷◌, arith, trim_space, is_empty, Bool-cases, Option-cases, update_where, find_first, str_eq, any,
  suc,
}
use ai_dandelion.Db.{Result, ok, err, World, continue, exec, first, insert, transaction}
use ai_dandelion.Db.Rules.{bind_ok}
use ai_dandelion.FuncOp.Model.{
  ConversationOperation, OperationState, TerminalStatus, completed, terminal_submitted,
  ProgressExecution, Tables, Effect,
}
use ai_dandelion.FuncOp.Conversation.{
  is_active, active_named, finished, finish_if_active, get, operation_is, complete_execution,
  execution_is, submitted_row, submit_rows, add_execution,
}
use ai_dandelion.FuncOp.Progress.{
  ProgressReq, check_progress, settle_progress, new_execution, end_operation, finish_owned,
  submit_progress, scope_matches, scope_of_req,
}
use ai_dandelion.FuncOp.Wording.{normalize_terminal, state_for_terminal, tool_matches, compact_text}

-- Each operation of the first list that is not active stands unchanged in the second.
abbrev pub Untouched : List ConversationOperation → List ConversationOperation → Type 0
Untouched [] [] = Unit
Untouched (x ∷ xs) (y ∷ ys) = (is_active x.state ≡ false → y ≡ x) × Untouched xs ys
Untouched _ _ = ⊥

Untouched-refl : (os : List ConversationOperation) → Untouched os os
Untouched-refl [] = tt
Untouched-refl (o ∷ os) = (λ h. refl, Untouched-refl os)

Untouched-finish :
    (u : String) (f : ConversationOperation → ConversationOperation)
    (os : List ConversationOperation)
    → Untouched os (update_where (active_named u) f os)
unfolding update_where
Untouched-finish u f [] = tt
Untouched-finish u f (o ∷ os) = (λ h. ground arith, Untouched-finish u f os)

tables-get : (id : String) (w : World Tables Effect) → (get id w).1.tables ≡ w.tables
unfolding get first
tables-get id w = ground arith

finish_if_active_rows :
    (u : String) (state : OperationState) (t : TerminalStatus) (text : String) (now : ℕ)
    (w : World Tables Effect)
    → ((finish_if_active u state t text now w).1.tables.operations ≡ w.tables.operations)
      ⊎ ((finish_if_active u state t text now w).1.tables.operations
          ≡ update_where (active_named u) (finished state t text none now) w.tables.operations)
unfolding finish_if_active exec get first
finish_if_active_rows u state t text now w = ground arith

finish_owned-Untouched :
    (user status reason : String) (now : ℕ) (o : ConversationOperation) (w : World Tables Effect)
    → Untouched w.tables.operations (finish_owned user status reason now o w).1.tables.operations
unfolding finish_owned
finish_owned-Untouched user status reason now o w =
    elim (Bool-cases (str_eq (trim_space o.user_id) user)) [
      | inl y ↦
          rw y
            (elim (finish_if_active_rows o.uuid (state_for_terminal (normalize_terminal status))
              (normalize_terminal status) (compact_text reason 1000) now w) [
                | inl same ↦ rw same (Untouched-refl w.tables.operations)
                | inr done ↦ rw done (Untouched-finish o.uuid _ w.tables.operations)
              ])
      | inr n ↦ rw n (Untouched-refl w.tables.operations)
    ]

-- `Finish`, whatever it returns and whichever calls fail, changes no operation that is completed,
-- cancelled or superseded: an operation ends once.
pub end_operation-Untouched :
    (user : Result String) (id status reason : String) (now : ℕ) (w : World Tables Effect)
    → Untouched w.tables.operations (end_operation user id status reason now w).1.tables.operations
unfolding end_operation
end_operation-Untouched (err e) id status reason now w = Untouched-refl w.tables.operations
end_operation-Untouched (ok user) id status reason now w =
    subst
      (λ (t : Tables).
        Untouched t.operations (end_operation (ok user) id status reason now w).1.tables.operations)
      (tables-get (trim_space id) w) (after (get (trim_space id) w).0 (get (trim_space id) w).1)
  where
    after :
        (r : Result ConversationOperation) (v : World Tables Effect)
        → Untouched v.tables.operations
            (continue (finish_owned user status reason now) (r, v)).1.tables.operations
    after (ok o) v = finish_owned-Untouched user status reason now o v
    after (err e) v = Untouched-refl v.tables.operations

-- An update of the rows with a uuid reaches the row that the uuid finds.
pub find-update :
    (u : String) (f : ConversationOperation → ConversationOperation)
    → ((o : ConversationOperation) → (f o).uuid ≡ o.uuid)
    → (os : List ConversationOperation) (y : ConversationOperation)
    → find_first (operation_is u) (update_where (operation_is u) f os) ≡ some y
    → (x : ConversationOperation) × (find_first (operation_is u) os ≡ some x) × (y ≡ f x)
unfolding find_first update_where
find-update u f keep [] y h = cc
find-update u f keep (o ∷ os) y h = elim (Bool-cases (operation_is u o)) [
  | inl e ↦ (o, rw e, ground (arith, e, keep o))
  | inr n ↦
      let (x, found, eq) = find-update u f keep os y (ground (arith, n)) in (x, rw n found, eq)
]

module _ (e : ProgressExecution) (u : String) (o : ConversationOperation)
    (w : World Tables Effect) where
  abbrev submitted : World Tables Effect
  submitted = (complete_execution e u w).1

  first_rows :
      (complete_execution e u w).0 ≡ ok (o, false)
      → (find_first (execution_is e.tool_use_id) w.tables.executions ≡ none)
        × (submitted.tables ≡ submit_rows u e (add_execution e w.tables))
        × (find_first (operation_is u) submitted.tables.operations ≡ some o)
  unfolding complete_execution transaction get first exec insert
  first_rows h = ground arith

  -- The first submission of a tool use, when `Complete` returns it: the operation with the given
  -- uuid existed, in any state whatever, and is now completed with the outcome of the submission.
  complete_execution_first :
      (complete_execution e u w).0 ≡ ok (o, false)
      → (before : ConversationOperation) × (find_first (operation_is u) w.tables.operations
          ≡ some before)
        × (o ≡ submitted_row e before)
        × (o.state ≡ completed)
        × (submitted.tables ≡ submit_rows u e (add_execution e w.tables))
  complete_execution_first h =
      let (_, tables, found) = first_rows h in
      let (before, was, same) =
        find-update u (submitted_row e) (λ x. refl) w.tables.operations o (rw tables at found) in
      (before, was, same, rw same, tables)

  -- A tool use that was submitted before changes nothing: the operation of the first submission is
  -- returned as it stands.
  complete_execution_again :
      (existing : ProgressExecution)
      → find_first (execution_is e.tool_use_id) w.tables.executions ≡ some existing
      → (submitted.tables ≡ w.tables)
        × ((complete_execution e u w).0 ≡ ok (o, true)
            → find_first (operation_is existing.operation_id) w.tables.operations ≡ some o)
  unfolding complete_execution transaction get first exec insert
  complete_execution_again existing found = (ground arith, (λ h. ground arith))

-- An operation that a submission completes.
abbrev pub completes_with : ProgressExecution → ConversationOperation → ConversationOperation
completes_with e before = record before {
  state = completed;
  terminal_status = terminal_submitted;
  terminal_reason = "";
  outcome = e.outcome;
  updated_at = e.updated_at;
  finished_at = e.updated_at;
}

-- No call fails.
abbrev pub IsCalm : World Tables Effect → Type 0
IsCalm w = (n : ℕ) → w.faults n ≡ none

find-updated :
    (u : String) (f : ConversationOperation → ConversationOperation)
    → ((o : ConversationOperation) → (f o).uuid ≡ o.uuid)
    → (os : List ConversationOperation) (x : ConversationOperation)
    → find_first (operation_is u) os ≡ some x
    → find_first (operation_is u) (update_where (operation_is u) f os) ≡ some (f x)
unfolding find_first update_where
find-updated u f keep [] x h = cc
find-updated u f keep (o ∷ os) x h = elim (Bool-cases (operation_is u o)) [
  | inl e ↦ let same : o ≡ x = ground (arith, e) in ground (arith, e, keep o, same)
  | inr n ↦ ground (arith, n, find-updated u f keep os x)
]

none-any :
    (tool : String) (es : List ProgressExecution)
    → find_first (execution_is tool) es ≡ none
    → any (execution_is tool) es ≡ false
unfolding find_first any
none-any tool [] h = refl
none-any tool (e ∷ es) h = ground (arith, none-any tool es)

module _ (e : ProgressExecution) (u : String) (o : ConversationOperation)
    (w : World Tables Effect) where
  seen_before :
      (seen : Bool)
      → (complete_execution e u w).0 ≡ ok (o, seen)
      → ((seen ≡ false) × (find_first (execution_is e.tool_use_id) w.tables.executions ≡ none))
        ⊎ ((seen ≡ true)
            × ((existing : ProgressExecution) × (find_first
                    (execution_is e.tool_use_id)
                    w.tables.executions
                  ≡ some existing)))
  unfolding complete_execution transaction get first exec insert
  seen_before seen h =
      elim (Option-cases (find_first (execution_is e.tool_use_id) w.tables.executions)) [
        | inl (existing, found) ↦ inr (ground arith, (existing, found))
        | inr none_yet ↦ inl (ground arith, none_yet)
      ]

  -- What a Complete without an error has done.
  first_or_again :
      (seen : Bool)
      → (complete_execution e u w).0 ≡ ok (o, seen)
      → ((seen ≡ false)
          × (find_first (execution_is e.tool_use_id) w.tables.executions ≡ none)
          × ((before : ConversationOperation) × (find_first (operation_is u) w.tables.operations
                ≡ some before)
              × (o ≡ completes_with e before)
              × ((complete_execution e u w).1.tables ≡ record w.tables {
                operations = update_where (operation_is u) (completes_with e) w.tables.operations;
                executions =
                    w.tables.executions ++ record e { id = w.tables.next_execution_id } ∷ [];
                next_execution_id = w.tables.next_execution_id + 1;
              })))
        ⊎ ((seen ≡ true)
            × ((existing : ProgressExecution) × (find_first
                    (execution_is e.tool_use_id)
                    w.tables.executions
                  ≡ some existing)
                × ((complete_execution e u w).1.tables ≡ w.tables)
                × (find_first (operation_is existing.operation_id) w.tables.operations ≡ some o)))
  first_or_again seen h = elim (seen_before seen h) [
    | inl (first_time, none_yet) ↦
        let (before, was, same, _, tables) =
          complete_execution_first e u o w
            (subst (λ b. (complete_execution e u w).0 ≡ ok (o, b)) first_time h) in
        inl (first_time, none_yet, (before, was, same, tables))
    | inr (again, (existing, found)) ↦
        let (still, known) = complete_execution_again e u o w existing found in
        let kept = known (subst (λ b. (complete_execution e u w).0 ≡ ok (o, b)) again h) in
        inr (again, (existing, found, still, kept))
  ]

  again_answers :
      (existing : ProgressExecution)
      → IsCalm w
      → find_first (execution_is e.tool_use_id) w.tables.executions ≡ some existing
      → find_first (operation_is existing.operation_id) w.tables.operations ≡ some o
      → (complete_execution e u w).0 ≡ ok (o, true)
  unfolding complete_execution transaction get first exec insert
  again_answers existing calm found known = ground (
    arith,
    calm w.calls,
    calm (suc w.calls),
    calm (suc (suc w.calls)),
    calm (suc (suc (suc w.calls))),
  )

  first_answers :
      IsCalm w
      → find_first (execution_is e.tool_use_id) w.tables.executions ≡ none
      → find_first (operation_is u) w.tables.operations ≡ some o
      → (complete_execution e u w).0 ≡ ok (completes_with e o, false)
  unfolding complete_execution transaction get first exec insert
  first_answers calm none_yet known = ground (
    arith,
    calm w.calls,
    calm (suc w.calls),
    calm (suc (suc w.calls)),
    calm (suc (suc (suc w.calls))),
    calm (suc (suc (suc (suc w.calls)))),
    calm (suc (suc (suc (suc (suc w.calls))))),
    none-any e.tool_use_id w.tables.executions none_yet,
    find-updated u (submitted_row e) (λ x. refl) w.tables.operations o known,
  )

  -- When Complete returns no error, it is the first submission of its tool use, or a repeated one.
  -- By the first, no execution of the tool use was there; one is added at the end, with the next id;
  -- the operation with the given uuid, in any state whatever, is completed with the outcome of the
  -- submission, and nothing else in the tables has changed. A repeated one changes nothing: the
  -- operation of the submission that is there is returned as it stands. While no call fails, the
  -- first submission for an operation that is there, and a repeated one whose operation is there,
  -- do return so, without an error.
  pub complete_execution_once :
      ((seen : Bool)
        → (complete_execution e u w).0 ≡ ok (o, seen)
        → ((seen ≡ false)
            × (find_first (execution_is e.tool_use_id) w.tables.executions ≡ none)
            × ((before : ConversationOperation) × (find_first (operation_is u) w.tables.operations
                  ≡ some before)
                × (o ≡ completes_with e before)
                × ((complete_execution e u w).1.tables ≡ record w.tables {
                  operations = update_where (operation_is u) (completes_with e) w.tables.operations;
                  executions =
                      w.tables.executions ++ record e { id = w.tables.next_execution_id } ∷ [];
                  next_execution_id = w.tables.next_execution_id + 1;
                })))
          ⊎ ((seen ≡ true)
              × ((existing : ProgressExecution) × (find_first
                      (execution_is e.tool_use_id)
                      w.tables.executions
                    ≡ some existing)
                  × ((complete_execution e u w).1.tables ≡ w.tables)
                  × (find_first (operation_is existing.operation_id) w.tables.operations
                      ≡ some o))))
      × ((existing : ProgressExecution)
          → IsCalm w
          → find_first (execution_is e.tool_use_id) w.tables.executions ≡ some existing
          → find_first (operation_is existing.operation_id) w.tables.operations ≡ some o
          → (complete_execution e u w).0 ≡ ok (o, true))
      × (IsCalm w
          → find_first (execution_is e.tool_use_id) w.tables.executions ≡ none
          → find_first (operation_is u) w.tables.operations ≡ some o
          → (complete_execution e u w).0 ≡ ok (completes_with e o, false))
  complete_execution_once = (first_or_again, again_answers, first_answers)

found_by_get :
    (id : String) (o : ConversationOperation) (w : World Tables Effect)
    → (get id w).0 ≡ ok o
    → find_first (operation_is id) w.tables.operations ≡ some o
unfolding get first
found_by_get id o w h = ground arith

checked :
    (user : String) (op : ConversationOperation) (req : ProgressReq) (w : World Tables Effect)
    → (check_progress user op req w).0 ≡ ok tt
    → (scope_matches op (scope_of_req user req) ≡ true)
      × (tool_matches (trim_space req.tool_name) op.conversation ≡ true)
      × (is_empty (trim_space req.tool_use_id) ≡ false)
      × (is_empty (compact_text req.summary 2000) ≡ false)
unfolding check_progress
checked user op req w h = ground arith

settled :
    (now : ℕ) (pair : ConversationOperation × Bool) (o : ConversationOperation) (before : Bool)
    (w : World Tables Effect)
    → (settle_progress now pair w).0 ≡ ok (o, before)
    → o.state ≡ completed
unfolding settle_progress
settled now pair o before w h = ground arith

module _ (user uuid : String) (req : ProgressReq) (now : ℕ) (o : ConversationOperation)
    (before : Bool) (w : World Tables Effect) where
  -- `SubmitProgress` returns an operation only if the named one exists and belongs to the request's
  -- function, session, conversation and user, the tool is the one of its conversation, and the tool
  -- use id and the summary are not empty; what it returns is completed.
  pub submit_progress_ok :
      (submit_progress (ok user) uuid req now w).0 ≡ ok (o, before)
      → (op : ConversationOperation) × (find_first
            (operation_is (trim_space req.operation_id))
            w.tables.operations
          ≡ some op)
        × (scope_matches op (scope_of_req user req) ≡ true)
        × (tool_matches (trim_space req.tool_name) op.conversation ≡ true)
        × (is_empty (trim_space req.tool_use_id) ≡ false)
        × (is_empty (compact_text req.summary 2000) ≡ false)
        × (o.state ≡ completed)
  unfolding submit_progress
  submit_progress_ok h =
      let (op, read, e) = bind_ok _ (get (trim_space req.operation_id)) w h in
      let v = (get (trim_space req.operation_id) w).1 in
      let (_, checks, e') = bind_ok _ (check_progress user op req) v (rw e at h) in
      let (owned, right_tool, named, summed) = checked user op req v checks in
      let execution = new_execution uuid user op req now in
      let (pair, _, e'') =
        bind_ok _ (complete_execution execution op.uuid) (check_progress user op req v).1
          (rw (e, e') at h) in
      (
        op,
        found_by_get (trim_space req.operation_id) op w read,
        owned,
        right_tool,
        named,
        summed,
        settled now pair o before _ (rw (e, e', e'') at h),
      )
