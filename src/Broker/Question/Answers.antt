-- ===== src/Broker/Question/Answers.antt =====
-- The answers of the question broker: complete, to the call that is pending, and without a panic.
use ai_dandelion.Base.{
  ℕ, String, true, false, Option, none, some, ◌≡◌, ◌≢◌, ◌<◌, ◌⊎◌, inl, inr, refl, sym, subst,
  Option-cases, Bool-cases, eq_iff, arith, is_empty,
}
use ai_dandelion.Db.{ok, msg, Err}
use ai_dandelion.Json.{
  Value, nil, of_bool, of_number, of_text, slice, mapping, Elements, no_elements, element, Entries,
  get,
}
use ai_dandelion.Broker.State.{
  Event, Phase, register, remove, deliver, move, announce, receive, leave, leaving,
}
use ai_dandelion.Broker.Safety.{
  Consistent, register-Consistent, deliver-Consistent, move-Consistent, announce-Consistent,
  receive-Consistent, leave-Consistent,
}
use ai_dandelion.Broker.Question.{
  valid_question, all_valid, valid_questions, valid_answer, accepted, panicked, check_answers,
  check_all, validate_answers, Reply, reply_of, QuestionRequest, Questions, wait, submit,
  submit_decoded, sent, crashed, question_event, Step, waits, submits, emits, fails, receives,
  cancels, leaves, Reachable, started, step,
}

-- Every question has an answer of the kind that it asks for.
abbrev pub Answered : Elements → Entries → Type 0
Answered no_elements answers = Unit
Answered (element (mapping q) qs) answers = (valid_answer answers q ≡ true) × Answered qs answers
Answered (element _ qs) answers = ⊥

abbrev pub AllAnswered : Value → Entries → Type 0
AllAnswered (slice qs) answers = Answered qs answers
AllAnswered _ answers = ⊥

check_ok :
    (qs : Elements) (answers : Entries) → check_answers qs answers ≡ accepted → Answered qs answers
unfolding check_answers
check_ok no_elements answers h = tt
check_ok (element (mapping q) qs) answers h = (ground arith, check_ok qs answers (ground arith))
check_ok (element nil qs) answers h = ground arith
check_ok (element (of_bool b) qs) answers h = ground arith
check_ok (element (of_number n) qs) answers h = ground arith
check_ok (element (of_text s) qs) answers h = ground arith
check_ok (element (slice vs) qs) answers h = ground arith

check_safe :
    (qs : Elements) (answers : Entries) → all_valid qs ≡ true → check_answers qs answers ≢ panicked
unfolding check_answers all_valid valid_question
check_safe no_elements answers h e = ground arith
check_safe (element (mapping q) qs) answers h e =
    check_safe qs answers (ground arith) (ground arith)
check_safe (element nil qs) answers h e = ground arith
check_safe (element (of_bool b) qs) answers h e = ground arith
check_safe (element (of_number n) qs) answers h e = ground arith
check_safe (element (of_text s) qs) answers h e = ground arith
check_safe (element (slice vs) qs) answers h e = ground arith

validate_safe :
    (q : Value) (answers : Entries) (response : String)
    → valid_questions q ≡ true
    → validate_answers q answers response ≢ panicked
unfolding validate_answers valid_questions
validate_safe (slice qs) answers response h e = check_safe qs answers (ground arith) (ground arith)
validate_safe nil answers response h e = ground arith
validate_safe (of_bool b) answers response h e = ground arith
validate_safe (of_number n) answers response h e = ground arith
validate_safe (of_text s) answers response h e = ground arith
validate_safe (mapping o) answers response h e = ground arith

all_checked :
    (q : Value) (answers : Entries) → check_all q answers ≡ accepted → AllAnswered q answers
all_checked (slice qs) answers h = check_ok qs answers h
all_checked nil answers h = ground arith
all_checked (of_bool b) answers h = ground arith
all_checked (of_number n) answers h = ground arith
all_checked (of_text t) answers h = ground arith
all_checked (mapping o) answers h = ground arith

validate_ok :
    (q : Value) (answers : Entries) (response : String)
    → validate_answers q answers response ≡ accepted
    → (is_empty response ≡ false) ⊎ AllAnswered q answers
unfolding validate_answers
validate_ok q answers response h = elim (Bool-cases (is_empty response)) [
  | inr full ↦ inl full
  | inl blank ↦ inr (all_checked q answers (ground arith))
]

-- Every call that was ever made has questions of the right shape.
abbrev Shaped : Questions → Type 0
Shaped b = (i : ℕ) → i < b.next → valid_questions (b.waiters i).question ≡ true

abbrev Sound : Questions → Type 0
Sound b = Consistent b × Shaped b

wait_ok :
    (session : String) (r : QuestionRequest) (b b' : Questions)
    → wait session r b ≡ ok b'
    → (q : Value) × (valid_questions q ≡ true)
      × (register
            (msg "ask user question is already pending")
            session
            r.tool_id
            q
            (question_event r)
            b
          ≡ ok b')
unfolding wait
wait_ok session r b b' h = elim (Option-cases (get "questions" r.input)) [
  | inl (q, e) ↦ (q, ground arith, ground arith)
  | inr e ↦ absurd (ground arith)
]

register-Shaped :
    (already : Err) (session tool : String) (q : Value) (e : Event) (b b' : Questions)
    → Shaped b
    → valid_questions q ≡ true
    → register already session tool q e b ≡ ok b'
    → Shaped b'
unfolding register
register-Shaped already session tool q e b b' s v h i n = ground (arith, s i)

-- What a submission that is accepted does.
pub record Delivered (session tool : String) (decoded : Option Entries) (response : String)
    (b b' : Questions) : Type 0 where
  pub waiter : ℕ
  pub answers : Entries
  pub given : decoded ≡ some answers
  pub found : b.pending tool ≡ some waiter
  pub same_session : (b.waiters waiter).session_id ≡ session
  pub complete : validate_answers (b.waiters waiter).question answers response ≡ accepted
  pub effect : b' ≡ deliver tool waiter (reply_of (b.waiters waiter).question answers response) b

submit_decoded_ok :
    (session tool : String) (answers : Entries) (response : String) (b b' : Questions)
    → submit_decoded session tool answers response b ≡ sent b'
    → Delivered session tool (some answers) response b b'
unfolding submit_decoded
submit_decoded_ok session tool answers response b b' h = elim (Option-cases (b.pending tool)) [
  | inl (i, e) ↦ record {
    waiter = i;
    answers = answers;
    given = refl;
    found = e;
    same_session = ground (arith, eq_iff (b.waiters i).session_id session);
    complete = ground arith;
    effect = ground arith;
  }
  | inr e ↦ absurd (ground arith)
]

submit_ok :
    (session tool : String) (decoded : Option Entries) (response : String) (b b' : Questions)
    → submit session tool decoded response b ≡ sent b'
    → Delivered session tool decoded response b b'
unfolding submit
submit_ok session tool none response b b' h = absurd (ground arith)
submit_ok session tool (some answers) response b b' h =
    submit_decoded_ok session tool answers response b b' h

move-Shaped : (i : ℕ) (p : Phase) (b : Questions) → Shaped b → Shaped (move i p b)
move-Shaped i p b s j n = ground (arith, s j)

announce-Shaped : (i : ℕ) (b : Questions) → Shaped b → Shaped (announce i b)
announce-Shaped i b s j n = ground (arith, s j)

receive-Shaped : (i : ℕ) (d : Reply) (b : Questions) → Shaped b → Shaped (receive i d b)
receive-Shaped i d b s j n = ground (arith, s j)

leave-Shaped : (i : ℕ) (b : Questions) → Shaped b → Shaped (leave i b)
unfolding remove
leave-Shaped i b s j n = ground (arith, s j)

deliver-Shaped :
    (tool : String) (i : ℕ) (d : Reply) (b : Questions) → Shaped b → Shaped (deliver tool i d b)
unfolding deliver remove
deliver-Shaped tool i d b s j n = ground (arith, s j)

Step-Sound : (b b' : Questions) → Sound b → Step b b' → Sound b'
Step-Sound b b' (c, s) (waits session r h) =
    let (q, v, e) = wait_ok session r b b' h in
    (
      register-Consistent _ session r.tool_id q (question_event r) b b' c e,
      register-Shaped _ session r.tool_id q (question_event r) b b' s v e,
    )
Step-Sound b b' (c, s) (submits session tool decoded response h) =
    let d = submit_ok session tool decoded response b b' h in
    subst Sound (sym d.effect)
      (deliver-Consistent tool d.waiter _ b c d.found, deliver-Shaped tool d.waiter _ b s)
Step-Sound b _ (c, s) (emits i h) = (announce-Consistent i b c, announce-Shaped i b s)
Step-Sound b _ (c, s) (fails i h) = (move-Consistent i leaving b c, move-Shaped i leaving b s)
Step-Sound b _ (c, s) (receives i d h e) = (receive-Consistent i d b c, receive-Shaped i d b s)
Step-Sound b _ (c, s) (cancels i h) = (move-Consistent i leaving b c, move-Shaped i leaving b s)
Step-Sound b _ (c, s) (leaves i h) = (leave-Consistent i b c, leave-Shaped i b s)

reachable-Sound : (b : Questions) → Reachable b → Sound b
reachable-Sound _ started = (λ t i h. absurd (ground arith), λ i n. absurd (omega (arith, n)))
reachable-Sound b (step r s) = Step-Sound _ b (reachable-Sound _ r) s

-- In a reachable state Submit never panics, whatever the session, the id and the answers are:
-- the type assertions of validateAnswers hold of the questions of every pending call.
submit_never_panics :
    (b : Questions) (session tool : String) (decoded : Option Entries) (response : String)
    → Reachable b
    → submit session tool decoded response b ≢ crashed
unfolding submit submit_decoded
submit_never_panics b session tool none response r h = ground arith
submit_never_panics b session tool (some answers) response r h =
    let (c, s) = reachable-Sound b r in
    elim (Option-cases (b.pending tool)) [
      | inl (i, e) ↦
          validate_safe (b.waiters i).question answers response (s i (c tool i e).made)
            (ground arith)
      | inr e ↦ ground arith
    ]

-- A Submit that is accepted in a reachable state answers the call that is pending under the id, of
-- the same session: either there is a response, or every question of the call has an answer of
-- its kind; the channel of the call was empty and now has the questions, the answers and the
-- response, and the id is free.
pub submit_complete :
    (b b' : Questions) (session tool : String) (decoded : Option Entries) (response : String)
    → Reachable b
    → submit session tool decoded response b ≡ sent b'
    → (i : ℕ) × (answers : Entries) × (decoded ≡ some answers)
      × (b.pending tool ≡ some i)
      × ((b.waiters i).session_id ≡ session)
      × ((is_empty response ≡ false) ⊎ AllAnswered (b.waiters i).question answers)
      × ((b.waiters i).channel ≡ none)
      × ((b'.waiters i).channel ≡ some (reply_of (b.waiters i).question answers response))
      × (b'.pending tool ≡ none)
unfolding deliver remove
submit_complete b b' session tool decoded response r h =
    let d = submit_ok session tool decoded response b b' h in
    let (c, s) = reachable-Sound b r in
    (
      d.waiter,
      d.answers,
      d.given,
      d.found,
      d.same_session,
      validate_ok (b.waiters d.waiter).question d.answers response d.complete,
      (c tool d.waiter d.found).room,
      subst
          (λ x.
            (x.waiters d.waiter).channel
            ≡ some (reply_of (b.waiters d.waiter).question d.answers response))
          (sym d.effect) (ground arith),
      subst (λ x. x.pending tool ≡ none) (sym d.effect) (ground (arith, eq_iff tool tool)),
    )
