-- ===== src/FuncOp/Delivery/Claims.antt =====
-- Which events `ClaimReady` takes, and that two processors do not take the same one.
use ai_dandelion.Base.{
  ℕ, zero, suc, ap, subst, ◌+◌, ◌≤◌, ◌<◌, ◌≡◌, ◌≢◌, ◌⊎◌, inl, inr, refl, Bool, true, false, some,
  List, [], ◌∷◌, arith, All, length, count_where, select, update_where, take, Bool-cases,
}
use ai_dandelion.Db.{ok, Err, World, query, exec}
use ai_dandelion.Db.Rules.{bind_ok, query_ok, exec_tables}
use ai_dandelion.FuncOp.Model.{OutboxEvent, done, processing, Tables, Effect}
use ai_dandelion.FuncOp.Outbox.{
  clamp_limit, is_ready, is_claimable, lease, claim_target, event_id_is, claimed_row, claim_one,
  claim_rows, claim_all, claim_ready, claimed_event, mark_done, mark_retry, requeue,
}
use mathlib.Core.List.{Memᴰ}
use mathlib.Core.List.Memᴰ.{head, tail}
use ai_dandelion.FuncOp.Delivery.{deliver}
use ai_dandelion.FuncOp.Delivery.Rows.{FromReady, Marked, Free, Read, All-map, claim_all_ok}
use ai_dandelion.FuncOp.Delivery.Outcome.{tables-deliver}

-- An event is ready at some time exactly if it is not done, and from then on it stays ready.
pub ready_unless_done :
    (e : OutboxEvent) (now : ℕ)
    → (e.status ≢ done → e.next_attempt_at + e.updated_at + lease ≤ now → is_ready now e ≡ true)
      × (e.status ≡ done → is_ready now e ≡ false)
unfolding is_ready
ready_unless_done e now = (λ h k. ground arith, λ h. ground arith)

-- Until a time, no claim can take a row with the id `i`: it is done, or its lease lasts till then.
abbrev Held : ℕ → ℕ → OutboxEvent → Type 0
Held i until e =
    event_id_is i e ≡ true
    → (e.status ≡ done) ⊎ ((e.status ≡ processing) × (until ≤ e.updated_at + lease))

Held-update :
    (i until : ℕ) (p : OutboxEvent → Bool) (f : OutboxEvent → OutboxEvent) (es : List OutboxEvent)
    → ((e : OutboxEvent) → p e ≡ true → Held i until e → Held i until (f e))
    → All (Held i until) es
    → All (Held i until) (update_where p f es)
unfolding update_where
Held-update i until p f [] step a = tt
Held-update i until p f (e ∷ es) step a = elim (Bool-cases (p e)) [
  | inl y ↦ rw y (step e y a.0, Held-update i until p f es step a.1)
  | inr n ↦ rw n (a.0, Held-update i until p f es step a.1)
]

-- No row that is held can be claimed.
none_claimable :
    (i until now : ℕ) (es : List OutboxEvent)
    → now < until
    → All (Held i until) es
    → count_where (claim_target now i) es ≡ 0
unfolding count_where
none_claimable i until now [] h a = refl
none_claimable i until now (e ∷ es) h a = ground (arith, none_claimable i until now es h a.1, a.0)

-- A claim of the id `i` at `now` holds its rows, if all of them could be claimed.
claim_rows-Held :
    (i now n : ℕ) (es : List OutboxEvent)
    → All (λ e. event_id_is i e ≡ true → is_claimable now e ≡ true) es
    → All (Held i (now + lease)) (update_where (claim_target now i) (claimed_row now n) es)
unfolding update_where
claim_rows-Held i now n [] a = tt
claim_rows-Held i now n (e ∷ es) a = elim (Bool-cases (claim_target now i e)) [
  | inl y ↦ rw y (λ h. inr (refl, omega arith), claim_rows-Held i now n es a.1)
  | inr missed ↦ rw missed (
    λ h. let yes = a.0 h in let wrong : ⊥ = ground (arith, yes, h, missed) in absurd wrong,
    claim_rows-Held i now n es a.1,
  )
]

-- What may go on after a claim of the id `i`, whichever calls fail: other claims, of any snapshot, at
-- times before `until`; deliveries; the marks of events as done, and as failed but for that id; and
-- a replay of the failed events.
pub data Meanwhile (i until : ℕ) (w : World Tables Effect) : World Tables Effect → Type 0 where
  nothing_yet : Meanwhile i until w w
  claims :
      {v : World Tables Effect} (before : Meanwhile i until w v) (now : ℕ) (event : OutboxEvent)
      → now < until
      → Meanwhile i until w (claim_one now event v).1
  delivers :
      {v : World Tables Effect} (before : Meanwhile i until w v) (bus : Bool) (event : OutboxEvent)
      → Meanwhile i until w (deliver bus event v).1
  marks_done :
      {v : World Tables Effect} (before : Meanwhile i until w v) (j now : ℕ)
      → Meanwhile i until w (mark_done j now v).1
  marks_failed :
      {v : World Tables Effect} (before : Meanwhile i until w v) (j next : ℕ) (cause : Err)
      (now : ℕ)
      → j ≢ i
      → Meanwhile i until w (mark_retry j next cause now v).1
  requeues :
      {v : World Tables Effect} (before : Meanwhile i until w v) (now : ℕ)
      → Meanwhile i until w (requeue now v).1

-- Each of them keeps the rows held.
module _ (i until : ℕ) where
  abbrev AllHeld : World Tables Effect → Type 0
  AllHeld w = All (Held i until) w.tables.outbox

  exec-AllHeld :
      {A : Type 0} (f : Tables → A × Tables) (w : World Tables Effect)
      → (AllHeld w → All (Held i until) (f w.tables).1.outbox)
      → AllHeld w
      → AllHeld (exec f w).1
  exec-AllHeld f w step h = elim (exec_tables w f) [
    | inl same ↦ rw same h
    | inr changed ↦ rw changed (step h)
  ]

  tables-claim_one :
      (now : ℕ) (event : OutboxEvent) (w : World Tables Effect)
      → (claim_one now event w).1.tables
        ≡ (exec
            (λ t. (count_where (claim_target now event.id) t.outbox, claim_rows now event t))
            w).1.tables
  unfolding claim_one exec
  tables-claim_one now event w = ground arith

  Meanwhile-AllHeld : {w v : World Tables Effect} → Meanwhile i until w v → AllHeld w → AllHeld v
  unfolding mark_done mark_retry requeue
  Meanwhile-AllHeld nothing_yet h = h
  Meanwhile-AllHeld (claims {v} before now event soon) h = rw (tables-claim_one now event v) (
      exec-AllHeld _ v
        (λ a.
          Held-update i until _ _ v.tables.outbox (λ e y held named. ground (arith, held, y, soon))
            a)
        (Meanwhile-AllHeld before h))
  Meanwhile-AllHeld (delivers {v} before bus event) h =
      rw (tables-deliver bus event v) (Meanwhile-AllHeld before h)
  Meanwhile-AllHeld (marks_done {v} before j now) h =
      exec-AllHeld _ v (λ a. Held-update i until _ _ v.tables.outbox (λ e y held named. inl refl) a)
        (Meanwhile-AllHeld before h)
  Meanwhile-AllHeld (marks_failed {v} before j next cause now other) h =
      exec-AllHeld _ v
        (λ a.
          Held-update i until _ _ v.tables.outbox
            (λ e y held named. let no : ⊥ = ground (arith, y, named, other) in absurd no) a)
        (Meanwhile-AllHeld before h)
  Meanwhile-AllHeld (requeues {v} before now) h =
      exec-AllHeld _ v
        (λ a. Held-update i until _ _ v.tables.outbox (λ e y held named. ground (arith, held, y)) a)
        (Meanwhile-AllHeld before h)

-- The ids stand once each, so that a row found by its id is the only one.
abbrev pub UniqueIds : Tables → Type 0
UniqueIds t = (i : ℕ) → count_where (event_id_is i) t.outbox ≤ 1

count-claim_le :
    (i now : ℕ) (es : List OutboxEvent)
    → count_where (claim_target now i) es ≤ count_where (event_id_is i) es
unfolding count_where
count-claim_le i now [] = omega arith
count-claim_le i now (e ∷ es) = ground (arith, count-claim_le i now es)

All-claimable :
    (i now : ℕ) (es : List OutboxEvent)
    → count_where (event_id_is i) es ≤ count_where (claim_target now i) es
    → All (λ e. event_id_is i e ≡ true → is_claimable now e ≡ true) es
unfolding count_where
All-claimable i now [] h = tt
All-claimable i now (e ∷ es) h = (
  λ q. ground (arith, count-claim_le i now es),
  All-claimable i now es (ground (arith, count-claim_le i now es)),
)

claim_one_reached :
    (now : ℕ) (event : OutboxEvent) (w : World Tables Effect) {e : OutboxEvent}
    → (claim_one now event w).0 ≡ ok (some e)
    → (e ≡ claimed_event event)
      × (count_where (claim_target now event.id) w.tables.outbox ≡ 1)
      × ((claim_one now event w).1.tables ≡ claim_rows now event w.tables)
unfolding claim_one exec
claim_one_reached now event w h = ground arith

claim_one_missed :
    (now : ℕ) (event : OutboxEvent) (w : World Tables Effect) (e : OutboxEvent)
    → count_where (claim_target now event.id) w.tables.outbox ≡ 0
    → (claim_one now event w).0 ≢ ok (some e)
unfolding claim_one exec
claim_one_missed now event w e h = ground arith

module _ (now now' : ℕ) (event again : OutboxEvent) (w : World Tables Effect) where
  abbrev claimed : World Tables Effect
  claimed = (claim_one now event w).1

  -- Once `ClaimReady` has claimed an event (the ids of the outbox being unique), no claim of its row
  -- within the lease, from any snapshot of the row, yields an event: its UPDATE fails or reaches no
  -- row. That holds right after the claim, and whatever claims, deliveries, marks and replays follow
  -- it before the lease is over, as long as the event itself is not marked as failed.
  pub claim_one_exclusive :
      (e e' : OutboxEvent) {v : World Tables Effect}
      → UniqueIds w.tables
      → (claim_one now event w).0 ≡ ok (some e)
      → Meanwhile event.id (now + lease) claimed v
      → again.id ≡ event.id
      → now' < now + lease
      → (claim_one now' again v).0 ≢ ok (some e')
  claim_one_exclusive e e' {v} u h between same soon =
      let (_, one, tables) = claim_one_reached now event w h in
      let held =
        claim_rows-Held event.id now (event.attempts + 1) w.tables.outbox
          (All-claimable event.id now w.tables.outbox (omega (arith, one, u event.id))) in
      let still = Meanwhile-AllHeld event.id (now + lease) between (rw tables held) in
      claim_one_missed now' again v e'
        (rw same (none_claimable event.id (now + lease) now' v.tables.outbox soon still))

select_ready :
    (now : ℕ) (es : List OutboxEvent)
    → All (λ e. Memᴰ e es × (is_ready now e ≡ true)) (select (is_ready now) es)
unfolding select
select_ready now [] = tt
select_ready now (e ∷ es) =
    let rest = All-map (select (is_ready now) es) (λ x (m, y). (tail m, y)) (select_ready now es) in
    elim (Bool-cases (is_ready now e)) [
      | inl y ↦ rw y ((head refl, y), rest)
      | inr missed ↦ rw missed rest
    ]

take-All : (P : OutboxEvent → Type 0) (n : ℕ) (es : List OutboxEvent) → All P es → All P (take n es)
unfolding take
take-All P zero es a = tt
take-All P (suc n) [] a = tt
take-All P (suc n) (e ∷ es) a = (a.0, take-All P n es a.1)

length-take : (n : ℕ) (es : List OutboxEvent) → length (take n es) ≤ n
unfolding take
length-take zero es = omega arith
length-take (suc n) [] = omega arith
length-take (suc n) (e ∷ es) = omega (arith, length-take n es)

-- A limit is at most 100, and as given where it is from 1 to 100.
clamp_limit_lem :
    (limit : ℕ) → (clamp_limit limit ≤ 100) × (0 < limit → limit ≤ 100 → clamp_limit limit ≤ limit)
unfolding clamp_limit
clamp_limit_lem limit = (ground arith, λ p h. ground arith)

-- What `ClaimReady` returns without an error are at most 100 events, and at most as many as its
-- limit where that is from 1 to 100. Each is a row of the outbox as it was read, ready at that time,
-- with the status processing and one attempt more, and the outbox says the same: a row with its id is
-- in processing since that time, with as many attempts. Whatever others have done to the outbox
-- between the reading and the claims, no event is returned but one with a row that, when the claims
-- begin, still waits or has been in processing for a lease.
pub claim_ready_ok :
    (now limit : ℕ) (es : List OutboxEvent) (w : World Tables Effect)
    → (claim_ready now limit w).0 ≡ ok es
    → (length es ≤ 100)
      × (0 < limit → limit ≤ 100 → length es ≤ limit)
      × All (λ e. FromReady now w.tables e × Marked now (claim_ready now limit w).1.tables e) es
      × ((events es' : List OutboxEvent) (v : World Tables Effect)
          → Read now w.tables events
          → (claim_all now events v).0 ≡ ok es'
          → All (Free now v.tables) es')
unfolding claim_ready
claim_ready_ok now limit es w h =
    let rows = λ (t : Tables). take (clamp_limit limit) (select (is_ready now) t.outbox) in
    let (events, read, next) = bind_ok _ (query rows) w h in
    let from : rows w.tables ≡ events = query_ok rows w read in
    let ready =
      take-All (λ e. Memᴰ e w.tables.outbox × (is_ready now e ≡ true)) (clamp_limit limit) _
        (select_ready now w.tables.outbox) in
    let (short, taken) =
      claim_all_ok now w.tables events es (query rows w).1 (subst (Read now w.tables) from ready)
        (rw next at h) in
    let bound = length-take (clamp_limit limit) (select (is_ready now) w.tables.outbox) in
    let few : length es ≤ clamp_limit limit = omega (arith, short, ap length from, bound) in
    let (most, given) = clamp_limit_lem limit in
    (
      omega (arith, few, most),
      λ p h. omega (arith, few, given p h),
      rw next (All-map es (λ e (ready_row, _, marked). (ready_row, marked)) taken),
      λ events es' v reads returned.
          All-map es' (λ e (_, free, _). free)
            (claim_all_ok now w.tables events es' v reads returned).1,
    )
