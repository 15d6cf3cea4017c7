-- ===== src/Gateway/Hub/Replay.antt =====
-- What a connection that comes back is written again.
use ai_dandelion.Base.{
  ℕ, zero, suc, ◌+◌, ◌-◌, ◌≤◌, ◌<◌, String, ◌≡◌, refl, ap, sym, ◌∙◌, inl, inr, true, false, List,
  [], ◌∷◌, ◌++◌, All, length, map, select, ltb, str_eq, eq_iff, is_empty, trim_space, arith,
  Bool-cases, if◌then◌else◌,
}
use mathlib.Core.List.{append-nil, append_assoc}
use ai_dandelion.Gateway.Hub.{
  Envelope, Event, HistoryEvent, Client, Hub, Delivery, history_limit, drop, target_of, envelope_of,
  history_event_of, is_written_to, remember, write_all, publish_event, is_for, replay_from, replay,
}

-- Events that are published one after the other.
unfoldable pub publish_all : List Event → Hub → List Delivery × Hub
unfolding publish_event
publish_all [] h = ([], h)
publish_all (e ∷ es) h =
    let rest = publish_all es (publish_event e h).1 in ((publish_event e h).0 ++ rest.0, rest.1)

-- What was written to a connection.
unfoldable pub written : String → List Delivery → List Envelope
written connection [] = []
written connection (d ∷ ds) =
    let rest = written connection ds in
    if str_eq d.connection_id connection then d.envelope ∷ rest else rest

-- The envelopes of the events that are for a user.
unfoldable envelopes_for : String → List HistoryEvent → List Envelope
envelopes_for user [] = []
envelopes_for user (e ∷ es) =
    let rest = envelopes_for user es in if is_for user e then e.envelope ∷ rest else rest

abbrev OtherThan : String → HistoryEvent → Type 0
OtherThan id e = str_eq e.envelope.event_id id ≡ false

module _ {A : Type 0} where
  length-append : (xs ys : List A) → length (xs ++ ys) ≡ length xs + length ys
  length-append [] ys = omega arith
  length-append (x ∷ xs) ys = let ih = length-append xs ys in omega (arith, ih)

  drop-append : (k : ℕ) (xs ys : List A) → k ≤ length xs → drop k (xs ++ ys) ≡ drop k xs ++ ys
  unfolding drop
  drop-append zero xs ys h = refl
  drop-append (suc k) [] ys h = absurd (omega arith)
  drop-append (suc k) (x ∷ xs) ys h = drop-append k xs ys (omega arith)

  drop-All : (P : A → Type 0) (k : ℕ) (xs : List A) → All P xs → All P (drop k xs)
  unfolding drop
  drop-All P zero xs h = h
  drop-All P (suc k) [] h = h
  drop-All P (suc k) (x ∷ xs) (p, h) = drop-All P k xs h

-- A history that ends in the events `q` goes on to end in them and the new one, while there are few.
remember_keeps :
    (P : HistoryEvent → Type 0) (e : HistoryEvent) (pre q : List HistoryEvent)
    → All P pre
    → length q < history_limit
    → (pre' : List HistoryEvent) × All P pre' × (remember e (pre ++ q) ≡ pre' ++ (q ++ (e ∷ [])))
unfolding remember
remember_keeps P e pre q all few =
    let whole = append_assoc pre q (e ∷ []) in
    let size = length-append pre (q ++ (e ∷ [])) in
    let size' = length-append q (e ∷ []) in
    let k = length ((pre ++ q) ++ (e ∷ [])) - history_limit in
    elim (Bool-cases (ltb history_limit (length ((pre ++ q) ++ (e ∷ []))))) [
      | inl full ↦ (
        drop k pre,
        drop-All P k pre all,
        rw full (
            ap (drop k) whole
            ∙ drop-append k pre (q ++ (e ∷ [])) (omega (arith, size, size', ap length whole))),
      )
      | inr room ↦ (pre, all, rw room whole)
    ]

publish_all-history :
    (P : HistoryEvent → Type 0) (es : List Event) (h : Hub) (pre q : List HistoryEvent)
    → All P pre
    → h.history ≡ pre ++ q
    → length q + length es ≤ history_limit
    → (pre' : List HistoryEvent) × All P pre'
      × ((publish_all es h).1.history ≡ pre' ++ (q ++ map history_event_of es))
unfolding publish_all publish_event
publish_all-history P [] h pre q all e few = (pre, all, e ∙ ap (λ l. pre ++ l) (sym (append-nil q)))
publish_all-history P (x ∷ es) h pre q all e few =
    let (pre1, all1, e1) = remember_keeps P (history_event_of x) pre q all (omega arith) in
    let size = length-append q (history_event_of x ∷ []) in
    let (pre2, all2, e2) =
      publish_all-history P es (publish_event x h).1 pre1 (q ++ (history_event_of x ∷ [])) all1
        (ap (remember (history_event_of x)) e ∙ e1) (omega (arith, size)) in
    (
      pre2,
      all2,
      e2 ∙ ap (λ l. pre2 ++ l) (append_assoc q (history_event_of x ∷ []) (map history_event_of es)),
    )

publish_all-clients : (es : List Event) (h : Hub) → (publish_all es h).1.clients ≡ h.clients
unfolding publish_all publish_event
publish_all-clients [] h = refl
publish_all-clients (e ∷ es) h = publish_all-clients es (publish_event e h).1

-- The loop over the history, after the cursor and before it.

replay_after :
    (cursor user : String) (es : List HistoryEvent)
    → All (OtherThan cursor) es
    → replay_from cursor user true es ≡ envelopes_for user es
unfolding replay_from envelopes_for
replay_after cursor user [] other = refl
replay_after cursor user (e ∷ es) (o, other) = ground (arith, replay_after cursor user es other)

replay_before :
    (cursor user : String) (pre : List HistoryEvent) (x : HistoryEvent) (es : List HistoryEvent)
    → is_empty cursor ≡ false
    → All (OtherThan cursor) pre
    → str_eq x.envelope.event_id cursor ≡ true
    → replay_from cursor user false (pre ++ (x ∷ es)) ≡ replay_from cursor user true es
unfolding replay_from
replay_before cursor user [] x es full other here = ground arith
replay_before cursor user (e ∷ pre) x es full (o, other) here =
    ground (arith, replay_before cursor user pre x es full other here)

-- What the loop over the writers writes to one connection.

written-append :
    (connection : String) (ds ds' : List Delivery)
    → written connection (ds ++ ds') ≡ written connection ds ++ written connection ds'
unfolding written
written-append connection [] ds' = refl
written-append connection (d ∷ ds) ds' = ground (arith, written-append connection ds ds')

abbrev copies : Envelope → List Client → List Envelope
copies e cs = map (λ c. e) cs

written-write_all :
    (connection target : String) (e : Envelope) (cs : List Client)
    → written connection (write_all e (select (is_written_to target) cs))
      ≡ copies e
          (select (is_written_to target) (select (λ c. str_eq c.connection_id connection) cs))
unfolding written write_all select
written-write_all connection target e [] = refl
written-write_all connection target e (c ∷ cs) =
    ground (arith, written-write_all connection target e cs)

abbrev pub IsConnected : String → String → Hub → Type 0
IsConnected user connection h =
    select (λ c. str_eq c.connection_id connection) h.clients
    ≡ record { user_id = user; connection_id = connection } ∷ []

published_written :
    (user connection : String) (e : Event) (h : Hub)
    → IsConnected user connection h
    → written connection (publish_event e h).0 ≡ envelopes_for user (history_event_of e ∷ [])
unfolding publish_event envelopes_for select
published_written user connection e h connected =
    written-write_all connection (target_of e) (envelope_of e) h.clients
    ∙ ap (λ cs. copies (envelope_of e) (select (is_written_to (target_of e)) cs)) connected
    ∙ ground (arith, eq_iff user (target_of e), eq_iff (target_of e) user)

all_written :
    (user connection : String) (es : List Event) (h : Hub)
    → IsConnected user connection h
    → written connection (publish_all es h).0 ≡ envelopes_for user (map history_event_of es)
unfolding publish_all envelopes_for
all_written user connection [] h connected = unfold written in refl
all_written user connection (e ∷ es) h connected =
    let still : IsConnected user connection (publish_event e h).1 =
      unfold publish_event in connected in
    written-append connection (publish_event e h).0 (publish_all es (publish_event e h).1).0
    ∙ ground (
      arith,
      published_written user connection e h connected,
      all_written user connection es (publish_event e h).1 still,
    )

other_events :
    (id : String) (es : List Event)
    → All (λ e. str_eq e.id id ≡ false) es
    → All (OtherThan id) (map history_event_of es)
unfolding envelope_of
other_events id [] other = other
other_events id (e ∷ es) (o, other) = (o, other_events id es other)

-- A connection that comes back with the id of the event `e` as its last one is written what it
-- missed: after at most 255 more events it gets, in their order, just those of them that a connection
-- of the same user has been written which was there all the time. The id of `e` is not blank and is
-- that of no other event.
pub replay-written :
    (h : Hub) (e : Event) (es : List Event) (user connection : String)
    → IsConnected user connection h
    → is_empty e.id ≡ false
    → trim_space e.id ≡ e.id
    → All (λ x. str_eq x.envelope.event_id e.id ≡ false) h.history
    → All (λ x. str_eq x.id e.id ≡ false) es
    → length es < history_limit
    → replay e.id user (publish_all es (publish_event e h).1).1
      ≡ written connection (publish_all es (publish_event e h).1).0
unfolding replay
replay-written h e es user connection connected full plain before other few =
    let x = history_event_of e in
    let h1 = (publish_event e h).1 in
    let still : IsConnected user connection h1 = unfold publish_event in connected in
    let (pre, all, e1) = remember_keeps (OtherThan e.id) x h.history [] before (omega arith) in
    let start : h1.history ≡ pre ++ (x ∷ []) =
      unfold publish_event in (ap (remember x) (sym (append-nil h.history)) ∙ e1) in
    let (pre', all', e2) =
      publish_all-history (OtherThan e.id) es h1 pre (x ∷ []) all start (omega arith) in
    let here : str_eq x.envelope.event_id e.id ≡ true =
      unfold envelope_of in (ground (arith, eq_iff e.id e.id)) in
    let later = other_events e.id es other in
    ap (λ s. if is_empty s then [] else replay_from s user false (publish_all es h1).1.history)
      plain
    ∙ ap (λ b. if b then [] else replay_from e.id user false (publish_all es h1).1.history) full
    ∙ ap (replay_from e.id user false) e2
    ∙ replay_before e.id user pre' x (map history_event_of es) full all' here
    ∙ replay_after e.id user (map history_event_of es) later
    ∙ sym (all_written user connection es h1 still)
