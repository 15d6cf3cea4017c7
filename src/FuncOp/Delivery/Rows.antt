-- ===== src/FuncOp/Delivery/Rows.antt =====
-- What a claim does to the rows, and what the events that `ClaimReady` returns say of them.
use ai_dandelion.Base.{
  ℕ, ap, sym, ◌∙◌, if◌then◌else◌, subst, ◌+◌, ◌≤◌, ◌≡◌, ◌⊎◌, inl, inr, refl, Bool, true, false,
  Option, none, some, List, [], ◌∷◌, arith, All, length, count_where, update_where, Bool-cases,
}
use mathlib.Core.List.{Memᴰ}
use mathlib.Core.List.Memᴰ.{head, tail, cases_cons}
use ai_dandelion.Db.{ok, World, exec}
use ai_dandelion.Db.Rules.{bind_ok, Retains, bind-Retains}
use ai_dandelion.FuncOp.Model.{OutboxEvent, pending, failed, processing, Tables, Effect}
use ai_dandelion.FuncOp.Outbox.{
  is_ready, is_claimable, lease, claim_target, claimed_row, claim_one, claim_rows, claim_all,
  keep_claimed,
}

-- A claimed event is a row of the outbox as it was read, ready then, with one attempt more and in
-- processing.
abbrev pub FromReady : ℕ → Tables → OutboxEvent → Type 0
FromReady now t e =
    (x : OutboxEvent) × Memᴰ x t.outbox
    × (is_ready now x ≡ true)
    × (e ≡ record x { attempts = x.attempts + 1; status = processing })

-- A row says that its event was claimed at `now`, with as many attempts as the event says.
abbrev pub Marked : ℕ → Tables → OutboxEvent → Type 0
Marked now t e =
    (y : OutboxEvent) × Memᴰ y t.outbox
    × (y.id ≡ e.id)
    × (y.status ≡ processing)
    × (y.attempts ≡ e.attempts)
    × (y.updated_at ≡ now)

-- A row with the id of the event waits, or its lease is over.
abbrev pub Free : ℕ → Tables → OutboxEvent → Type 0
Free now t e =
    (x : OutboxEvent) × Memᴰ x t.outbox
    × (x.id ≡ e.id)
    × ((x.status ≡ pending)
        ⊎ (x.status ≡ failed)
        ⊎ ((x.status ≡ processing) × (x.updated_at + lease ≤ now)))

claimable_cases :
    (now : ℕ) (x : OutboxEvent)
    → is_claimable now x ≡ true
    → (x.status ≡ pending)
      ⊎ (x.status ≡ failed)
      ⊎ ((x.status ≡ processing) × (x.updated_at + lease ≤ now))
claimable_cases now x h = ground arith

-- The row that an UPDATE of one row reaches, before and after it.
pub reached :
    (now i n : ℕ) (es : List OutboxEvent)
    → count_where (claim_target now i) es ≡ 1
    → (x : OutboxEvent) × Memᴰ x es
      × (x.id ≡ i)
      × (is_claimable now x ≡ true)
      × Memᴰ (claimed_row now n x) (update_where (claim_target now i) (claimed_row now n) es)
unfolding count_where update_where
reached now i n [] h = let wrong : ⊥ = ground arith in absurd wrong
reached now i n (e ∷ es) h = elim (Bool-cases (claim_target now i e)) [
  | inl y ↦ (e, head refl, ground (arith, y), ground (arith, y), rw y (head refl))
  | inr missed ↦
      let (x, member, named, free, after) = reached now i n es (ground (arith, missed)) in
      (x, tail member, named, free, rw missed (tail after))
]

kept_member :
    (p : OutboxEvent → Bool) (f : OutboxEvent → OutboxEvent) (es : List OutboxEvent)
    (y : OutboxEvent)
    → p y ≡ false
    → Memᴰ y es
    → Memᴰ y (update_where p f es)
unfolding update_where
kept_member p f [] y h m = elim m [ ]
kept_member p f (e ∷ es) y h (head same) =
    let missed : p e ≡ false = ap p (sym same) ∙ h in rw missed (head same)
kept_member p f (e ∷ es) y h (tail m) = tail (kept_member p f es y h m)

-- A later claim at the same time leaves the marked rows, and makes no row free.
Marked-claim :
    (now : ℕ) (event e : OutboxEvent) (t : Tables)
    → Marked now t e
    → Marked now (claim_rows now event t) e
Marked-claim now event e t (y, member, named, status, attempts, at) = (
  y,
  kept_member (claim_target now event.id) (claimed_row now (event.attempts + 1)) t.outbox y
      (ground (arith, status, at)) member,
  named,
  status,
  attempts,
  at,
)

member_before :
    (p : OutboxEvent → Bool) (f : OutboxEvent → OutboxEvent) (es : List OutboxEvent)
    (x : OutboxEvent)
    → Memᴰ x (update_where p f es)
    → Memᴰ x es ⊎ ((y : OutboxEvent) × (x ≡ f y))
unfolding update_where
member_before p f [] x m = elim m [ ]
member_before p f (e ∷ es) x m = elim (cases_cons m) [
  | inl same ↦ elim (Bool-cases (p e)) [
    | inl y ↦ inr (e, same ∙ ap (λ b. if b then f e else e) y)
    | inr missed ↦ inl (head (same ∙ ap (λ b. if b then f e else e) missed))
  ]
  | inr later ↦ elim (member_before p f es x later) [ inl old ↦ inl (tail old) | inr new ↦ inr new ]
]

Free-before :
    (now : ℕ) (event e : OutboxEvent) (t : Tables)
    → Free now (claim_rows now event t) e
    → Free now t e
Free-before now event e t (x, member, named, free) =
    elim (member_before (claim_target now event.id) (claimed_row now (event.attempts + 1)) t.outbox
      x member) [
        | inl old ↦ (x, old, named, free)
        | inr (y, same) ↦
            let wrong : ⊥ =
              ground (arith, free, ap (λ z. z.status) same, ap (λ z. z.updated_at) same) in
            absurd wrong
      ]

-- One claim: the tables are as before or have the rows marked; what is returned is the snapshot,
-- claimed, of a row that was free and is marked now.
claim_one_tables :
    (now : ℕ) (event : OutboxEvent) (w : World Tables Effect)
    → ((claim_one now event w).1.tables ≡ w.tables)
      ⊎ ((claim_one now event w).1.tables ≡ claim_rows now event w.tables)
unfolding claim_one exec
claim_one_tables now event w = ground arith

claim_one-some :
    (now : ℕ) (event e : OutboxEvent) (w : World Tables Effect)
    → (claim_one now event w).0 ≡ ok (some e)
    → (e ≡ record event { attempts = event.attempts + 1; status = processing })
      × (count_where (claim_target now event.id) w.tables.outbox ≡ 1)
      × ((claim_one now event w).1.tables ≡ claim_rows now event w.tables)
unfolding claim_one exec
claim_one-some now event e w h = ground arith

claim_one-Marked :
    (now : ℕ) (event e : OutboxEvent) (w : World Tables Effect)
    → (claim_one now event w).0 ≡ ok (some e)
    → Free now w.tables e × Marked now (claim_one now event w).1.tables e
claim_one-Marked now event e w h =
    let (same, one, tables) = claim_one-some now event e w h in
    let (x, member, named, free, after) =
      reached now event.id (event.attempts + 1) w.tables.outbox one in
    let id : x.id ≡ e.id = named ∙ sym (ap (λ y. y.id) same) in
    (
      (x, member, id, claimable_cases now x free),
      rw tables (
        claimed_row now (event.attempts + 1) x,
        after,
        id,
        refl,
        sym (ap (λ y. y.attempts) same),
        refl,
      ),
    )

-- What a whole loop returns.
abbrev pub Taken : ℕ → Tables → World Tables Effect → World Tables Effect → OutboxEvent → Type 0
Taken now read w w' e = FromReady now read e × Free now w.tables e × Marked now w'.tables e

claim_all_step :
    (now : ℕ) (event : OutboxEvent) (events es : List OutboxEvent) (w : World Tables Effect)
    → (claim_all now (event ∷ events) w).0 ≡ ok es
    → (o : Option OutboxEvent) × (rest : List OutboxEvent) × ((claim_one now event w).0 ≡ ok o)
      × ((claim_all now events (claim_one now event w).1).0 ≡ ok rest)
      × (keep_claimed o rest ≡ es)
      × ((claim_all now (event ∷ events) w).1 ≡ (claim_all now events (claim_one now event w).1).1)
unfolding claim_all
claim_all_step now event events es w h =
    let (o, first, next) = bind_ok _ (claim_one now event) w h in
    let (rest, others, last) =
      bind_ok _ (claim_all now events) (claim_one now event w).1 (rw next at h) in
    (o, rest, first, others, cc (rw (next, last) at h), ap (λ p. p.1) (next ∙ last))

pub All-map :
    {P Q : OutboxEvent → Type 0} (es : List OutboxEvent)
    → ((e : OutboxEvent) → P e → Q e)
    → All P es
    → All Q es
All-map [] f a = tt
All-map (e ∷ es) f a = (f e a.0, All-map es f a.1)

module _ (now : ℕ) (read : Tables) where
  -- The events that were read are ready rows.
  abbrev pub Read : List OutboxEvent → Type 0
  Read = All (λ e. Memᴰ e read.outbox × (is_ready now e ≡ true))

  claim_one_keeps :
      (event e : OutboxEvent) → Retains (λ (t : Tables). Marked now t e) (claim_one now event)
  claim_one_keeps event e w m = elim (claim_one_tables now event w) [
    | inl same ↦ rw same m
    | inr changed ↦ rw changed (Marked-claim now event e w.tables m)
  ]

  claim_all_keeps :
      (events : List OutboxEvent) (e : OutboxEvent)
      → Retains (λ (t : Tables). Marked now t e) (claim_all now events)
  unfolding claim_all
  claim_all_keeps [] e = λ w m. m
  claim_all_keeps (x ∷ events) e =
      bind-Retains (λ (t : Tables). Marked now t e) _ (claim_one now x) (claim_one_keeps x e)
        (λ o.
          bind-Retains (λ (t : Tables). Marked now t e) _ (claim_all now events)
            (claim_all_keeps events e) (λ rest w m. m))

  Free-earlier :
      (event e : OutboxEvent) (w : World Tables Effect)
      → Free now (claim_one now event w).1.tables e
      → Free now w.tables e
  Free-earlier event e w free = elim (claim_one_tables now event w) [
    | inl same ↦ subst (λ t. Free now t e) same free
    | inr changed ↦ Free-before now event e w.tables (subst (λ t. Free now t e) changed free)
  ]

  first-Taken :
      (event : OutboxEvent) (events rest : List OutboxEvent) (w : World Tables Effect)
      (o : Option OutboxEvent)
      → Memᴰ event read.outbox × (is_ready now event ≡ true)
      → (claim_one now event w).0 ≡ ok o
      → (length rest ≤ length events)
        × All (Taken now read w (claim_all now events (claim_one now event w).1).1) rest
      → (length (keep_claimed o rest) ≤ length (event ∷ events))
        × All
            (Taken now read w (claim_all now events (claim_one now event w).1).1)
            (keep_claimed o rest)
  first-Taken event events rest w none from first (n, a) = (omega (arith, n), a)
  first-Taken event events rest w (some e) (member, ready) first (n, a) =
      let (same, _, _) = claim_one-some now event e w first in
      let (free, marked) = claim_one-Marked now event e w first in
      (
        omega (arith, n),
        (
          (
            (event, member, ready, same),
            free,
            claim_all_keeps events e (claim_one now event w).1 marked,
          ),
          a,
        ),
      )

  pub claim_all_ok :
      (events es : List OutboxEvent) (w : World Tables Effect)
      → Read events
      → (claim_all now events w).0 ≡ ok es
      → (length es ≤ length events) × All (Taken now read w (claim_all now events w).1) es
  unfolding claim_all
  claim_all_ok [] es w a h = let e : [] ≡ es = cc in rw (← e) (omega arith, tt)
  claim_all_ok (event ∷ events) es w a h =
      let (o, rest, first, others, same, last) = claim_all_step now event events es w h in
      let w1 = (claim_one now event w).1 in
      let (n, taken) = claim_all_ok events rest w1 a.1 others in
      let taken' =
        All-map rest (λ e (from, free, marked). (from, Free-earlier event e w free, marked))
          taken in
      rw last (
        subst
          (λ l.
            (length l ≤ length (event ∷ events))
            × All (Taken now read w (claim_all now events w1).1) l)
          same (first-Taken event events rest w o a.0 first (n, taken')))
