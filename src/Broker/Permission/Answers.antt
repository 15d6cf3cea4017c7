-- ===== src/Broker/Permission/Answers.antt =====
-- The answers of the tool permission broker go to the call that is pending, once.
use ai_dandelion.Base.{
  ℕ, String, Bool, none, some, ◌≡◌, ◌≢◌, ◌<◌, inl, inr, sym, subst, Option-cases, eq_iff, arith,
  trim_space,
}
use ai_dandelion.Db.{ok, err, msg}
use ai_dandelion.Broker.State.{register, remove, deliver, leave, leaving, emitting}
use ai_dandelion.Broker.Safety.{
  Consistent, register-Consistent, deliver-Consistent, move-Consistent, announce-Consistent,
  receive-Consistent, leave-Consistent,
}
use ai_dandelion.Broker.Permission.{
  Decision, PermissionRequest, Permissions, wait, submit, permission_event, permission_not_pending,
  Step, waits, submits, emits, fails, receives, cancels, leaves, Reachable, started, step,
}

-- What a submission that is accepted does.
pub record Delivered (session tool : String) (d : Decision) (b b' : Permissions) : Type 0 where
  pub waiter : ℕ
  pub found : b.pending tool ≡ some waiter
  pub same_session : (b.waiters waiter).session_id ≡ session
  pub effect : b' ≡ deliver tool waiter d b

submit_ok :
    (session tool : String) (allow : Bool) (message : String) (b b' : Permissions)
    → submit session tool allow message b ≡ ok b'
    → Delivered session tool (record { allow = allow; message = trim_space message }) b b'
unfolding submit
submit_ok session tool allow message b b' h = elim (Option-cases (b.pending tool)) [
  | inl (i, e) ↦ record {
    waiter = i;
    found = e;
    same_session = ground (arith, eq_iff (b.waiters i).session_id session);
    effect = ground arith;
  }
  | inr e ↦ absurd (ground arith)
]

submit-none :
    (session tool : String) (allow : Bool) (message : String) (b : Permissions)
    → b.pending tool ≡ none
    → submit session tool allow message b ≡ err permission_not_pending
unfolding submit
submit-none session tool allow message b h = ground arith

wait_ok :
    (session : String) (r : PermissionRequest) (b b' : Permissions)
    → wait session r b ≡ ok b'
    → register
        (msg "tool permission request is already pending")
        session
        r.tool_id
        tt
        (permission_event r)
        b
      ≡ ok b'
unfolding wait
wait_ok session r b b' h = ground arith

Step-Consistent : (b b' : Permissions) → Consistent b → Step b b' → Consistent b'
Step-Consistent b b' c (waits session r h) =
    register-Consistent _ session r.tool_id tt (permission_event r) b b' c
      (wait_ok session r b b' h)
Step-Consistent b b' c (submits session tool allow message h) =
    let d = submit_ok session tool allow message b b' h in
    subst Consistent (sym d.effect) (deliver-Consistent tool d.waiter _ b c d.found)
Step-Consistent b _ c (emits i h) = announce-Consistent i b c
Step-Consistent b _ c (fails i h) = move-Consistent i leaving b c
Step-Consistent b _ c (receives i d h e) = receive-Consistent i d b c
Step-Consistent b _ c (cancels i h) = move-Consistent i leaving b c
Step-Consistent b _ c (leaves i h) = leave-Consistent i b c

reachable-Consistent : (b : Permissions) → Reachable b → Consistent b
reachable-Consistent _ started = λ t i h. absurd (ground arith)
reachable-Consistent b (step r s) = Step-Consistent _ b (reachable-Consistent _ r) s

-- A submission for the session of the pending call is accepted, be it a consent or a refusal.
submit_pending :
    (session tool : String) (allow : Bool) (message : String) (b : Permissions) (i : ℕ)
    → b.pending tool ≡ some i
    → (b.waiters i).session_id ≡ session
    → (b' : Permissions) × (submit session tool allow message b ≡ ok b')
unfolding submit
submit_pending session tool allow message b i h same = (
  deliver tool i (record { allow = allow; message = trim_space message }) b,
  ground (arith, (eq_iff (b.waiters i).session_id session).1 same),
)

submit_other :
    (session tool : String) (allow : Bool) (message : String) (b : Permissions)
    → ((i : ℕ) → b.pending tool ≡ some i → (b.waiters i).session_id ≢ session)
    → submit session tool allow message b ≡ err permission_not_pending
unfolding submit
submit_other session tool allow message b h = elim (Option-cases (b.pending tool)) [
  | inl (i, e) ↦ let other = h i e in ground (arith, eq_iff (b.waiters i).session_id session, other)
  | inr e ↦ ground arith
]

-- What an accepted submission does in a reachable state.
accepted :
    (b b' : Permissions) (session tool : String) (allow : Bool) (message : String)
    → Reachable b
    → submit session tool allow message b ≡ ok b'
    → (i : ℕ) × (b.pending tool ≡ some i)
      × ((b.waiters i).tool_id ≡ tool)
      × ((b.waiters i).session_id ≡ session)
      × ((b.waiters i).channel ≡ none)
      × ((b'.waiters i).channel ≡ some (record { allow = allow; message = trim_space message }))
      × ((j : ℕ) → j ≢ i → b'.waiters j ≡ b.waiters j)
      × ((session' : String) (allow' : Bool) (message' : String)
          → submit session' tool allow' message' b' ≡ err permission_not_pending)
unfolding submit deliver remove
accepted b b' session tool allow message r h =
    let d = submit_ok session tool allow message b b' h in
    let p = reachable-Consistent b r tool d.waiter d.found in
    (
      d.waiter,
      d.found,
      p.own,
      d.same_session,
      p.room,
      subst
          (λ x.
            (x.waiters d.waiter).channel
            ≡ some (record { allow = allow; message = trim_space message }))
          (sym d.effect) (ground arith),
      λ j n. rw d.effect (ground arith),
      λ s a m.
          submit-none s tool a m b'
            (subst (λ x. x.pending tool ≡ none) (sym d.effect) (ground (arith, eq_iff tool tool))),
    )

-- In a reachable state, Submit is accepted exactly for the session of the call that is pending
-- under the id, whether it consents or refuses, and is an error otherwise. When it is accepted, its
-- send finds the channel of that call empty, so that it does not block while the caller waits; the
-- decision is in the channel then; no other call is touched, and the id is free, so that a second
-- answer is refused.
pub submit_once :
    (b : Permissions) (session tool : String) (allow : Bool) (message : String)
    → Reachable b
    → ((i : ℕ)
        → b.pending tool ≡ some i
        → (b.waiters i).session_id ≡ session
        → (b' : Permissions) × (submit session tool allow message b ≡ ok b'))
      × (((i : ℕ) → b.pending tool ≡ some i → (b.waiters i).session_id ≢ session)
          → submit session tool allow message b ≡ err permission_not_pending)
      × ((b' : Permissions)
          → submit session tool allow message b ≡ ok b'
          → (i : ℕ) × (b.pending tool ≡ some i)
            × ((b.waiters i).tool_id ≡ tool)
            × ((b.waiters i).session_id ≡ session)
            × ((b.waiters i).channel ≡ none)
            × ((b'.waiters i).channel
                ≡ some (record { allow = allow; message = trim_space message }))
            × ((j : ℕ) → j ≢ i → b'.waiters j ≡ b.waiters j)
            × ((session' : String) (allow' : Bool) (message' : String)
                → submit session' tool allow' message' b' ≡ err permission_not_pending))
submit_once b session tool allow message r = (
  submit_pending session tool allow message b,
  submit_other session tool allow message b,
  λ b'. accepted b b' session tool allow message r,
)

-- A call that returns deletes the entry of its id, whoever made it. So when a second call for the
-- same id has begun before the first one has returned, the return of the first leaves the second
-- without an entry: it goes on waiting, and every answer to it is refused.
leave_drops_successor :
    (b b' : Permissions) (i : ℕ) (session : String) (r : PermissionRequest)
    → i < b.next
    → (b.waiters i).tool_id ≡ r.tool_id
    → wait session r b ≡ ok b'
    → (((leave i b').waiters b.next).tool_id ≡ r.tool_id)
      × (((leave i b').waiters b.next).phase ≡ emitting)
      × ((session' : String) (allow : Bool) (message : String)
          → submit session' r.tool_id allow message (leave i b') ≡ err permission_not_pending)
unfolding wait register remove
leave_drops_successor b b' i session r old same h = (
  ground arith,
  ground arith,
  λ s a m.
      submit-none s r.tool_id a m (leave i b')
        (ground (arith, eq_iff r.tool_id (b'.waiters i).tool_id)),
)
