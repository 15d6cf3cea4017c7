-- ===== src/Db/Rules.antt =====
-- What the actions of Db.antt keep.
use ai_dandelion.Base.{
  ◌≡◌, refl, sym, ◌∙◌, Option, subst, ◌⊎◌, inl, inr, Bool, true, false, if◌then◌else◌, arith,
}
use ai_dandelion.Db.{
  Err, Result, ok, err, World, Action, continue, ◌>>=◌, query, exec, first, insert, ticked,
  transaction, fail_as, reworded, raise,
}

module _ {S E A : Type 0} where
  -- A transaction that returns an error has left the tables as they were.
  pub transaction_atomic :
      (body : Action S E A) (w : World S E) {e : Err}
      → (transaction body w).0 ≡ err e
      → (transaction body w).1.tables ≡ w.tables
  unfolding transaction
  transaction_atomic body w h = ground arith

module _ {S E A : Type 0} where
  transaction_tables :
      (body : Action S E A) (w : World S E)
      → ((transaction body w).1.tables ≡ w.tables)
        ⊎ ((transaction body w).1.tables ≡ (body (ticked w)).1.tables)
  unfolding transaction
  transaction_tables body w = ground arith

  -- A transaction without an error ran its body without one, and kept what that did.
  pub transaction_ok :
      (body : Action S E A) (w : World S E) {a : A}
      → (transaction body w).0 ≡ ok a
      → ((body (ticked w)).0 ≡ ok a) × ((transaction body w).1.tables ≡ (body (ticked w)).1.tables)
  unfolding transaction
  transaction_ok body w h = ground arith

  pub fail_as_ok :
      (f : Err → Err) (m : Action S E A) (w : World S E) {a : A}
      → (fail_as f m w).0 ≡ ok a
      → ((m w).0 ≡ ok a) × ((fail_as f m w).1 ≡ (m w).1)
  fail_as_ok f m w h = ground arith

-- To split on what an action returned and keep the equation.
pub Result-cases : {A : Type 0} (r : Result A) → ((a : A) × (r ≡ ok a)) ⊎ ((x : Err) × (r ≡ err x))
Result-cases (err failure) = inr (failure, refl)
Result-cases (ok value) = inl (value, refl)

module _ {S E A : Type 0} (P : S → Type 0) (body : Action S E A) (w : World S E) where
  -- What a transaction keeps when it commits, it keeps.
  pub transaction_keeps :
      P w.tables
      → ((a : A) → (transaction body w).0 ≡ ok a → P (transaction body w).1.tables)
      → P (transaction body w).1.tables
  transaction_keeps h good = elim (Result-cases (transaction body w).0) [
    | inl (a, e) ↦ good a e
    | inr (x, e) ↦ subst P (sym (transaction_atomic body w e)) h
  ]

module _ {S E A : Type 0} (w : World S E) where
  -- A failed call changes nothing.
  pub exec_tables :
      (f : S → A × S) → ((exec f w).1.tables ≡ w.tables) ⊎ ((exec f w).1.tables ≡ (f w.tables).1)
  unfolding exec
  exec_tables f = ground arith

module _ {S E A B : Type 0} (f : A → Action S E B) where
  continue_ok :
      (p : Result A × World S E) {b : B}
      → (continue f p).0 ≡ ok b
      → (a : A) × (p.0 ≡ ok a) × (continue f p ≡ f a p.1)
  continue_ok (ok a, w) h = (a, refl, refl)
  continue_ok (err e, w) h = cc

  -- A chain without an error ran its first step without one, and went on from there.
  pub bind_ok :
      (m : Action S E A) (w : World S E) {b : B}
      → ((m >>= f) w).0 ≡ ok b
      → (a : A) × ((m w).0 ≡ ok a) × ((m >>= f) w ≡ f a (m w).1)
  bind_ok m w h = continue_ok (m w) h

module _ {S E A : Type 0} where
  -- What a SELECT returns is what the tables held.
  pub query_ok : (f : S → A) (w : World S E) {a : A} → (query f w).0 ≡ ok a → f w.tables ≡ a
  unfolding query
  query_ok f w h = ground arith

  pub tables-query : (f : S → A) (w : World S E) → (query f w).1.tables ≡ w.tables
  unfolding query
  tables-query f w = ground arith

-- What an action keeps, whatever fails and whatever it returns.
abbrev pub Retains {κ} : {S E A : Type 0} → (S → Type κ) → Action S E A → Type κ
Retains {S} {E} P m = (w : World S E) → P w.tables → P (m w).1.tables

module _ {κ} {S E A B : Type 0} (P : S → Type κ) (f : A → Action S E B) where
  continue-Retains :
      (p : Result A × World S E)
      → P p.1.tables
      → ((a : A) → Retains P (f a))
      → P (continue f p).1.tables
  continue-Retains (ok a, w) h keeps = keeps a w h
  continue-Retains (err e, w) h keeps = h

  pub bind-Retains :
      (m : Action S E A) → Retains P m → ((a : A) → Retains P (f a)) → Retains P (m >>= f)
  bind-Retains m first rest w h = continue-Retains (m w) (first w h) rest

-- An action that has no effect elsewhere.
abbrev pub Silent : {S E A : Type 0} → Action S E A → Type 0
Silent {S} {E} m = (w : World S E) → (m w).1.log ≡ w.log

module _ {S E A : Type 0} where
  pub first-Silent : (f : S → Option A) → Silent {S = S} {E = E} (first f)
  unfolding first
  first-Silent f w = ground arith

  pub exec-Silent : (f : S → A × S) → Silent {S = S} {E = E} (exec f)
  unfolding exec
  exec-Silent f w = ground arith

  pub insert-Silent : (f : S → Option (A × S)) → Silent {S = S} {E = E} (insert f)
  unfolding insert
  insert-Silent f w = ground arith

  pub transaction-Silent : (body : Action S E A) → Silent body → Silent (transaction body)
  unfolding transaction
  transaction-Silent body quiet w = ground (arith, quiet (ticked w))

module _ {S E A B : Type 0} (f : A → Action S E B) where
  continue-Silent :
      (p : Result A × World S E) → ((a : A) → Silent (f a)) → (continue f p).1.log ≡ p.1.log
  continue-Silent (ok a, w) quiet = quiet a w
  continue-Silent (err e, w) quiet = refl

  pub bind-Silent : (m : Action S E A) → Silent m → ((a : A) → Silent (f a)) → Silent (m >>= f)
  bind-Silent m first rest w = continue-Silent (m w) rest ∙ first w

-- Where an action leaves the tables.
module _ {κ} {S E A : Type 0} (P : S → Type κ) where
  pub transaction_after :
      (body : Action S E A) (w : World S E)
      → P w.tables
      → P (body (ticked w)).1.tables
      → P (transaction body w).1.tables
  transaction_after body w before after = elim (transaction_tables body w) [
    | inl e ↦ subst P (sym e) before
    | inr e ↦ subst P (sym e) after
  ]

  pub fail_as_after :
      (f : Err → Err) (m : Action S E A) (w : World S E)
      → P (m w).1.tables
      → P (fail_as f m w).1.tables
  fail_as_after f m w h = reworded_after f (m w) h
    where
      reworded_after :
          (f : Err → Err) (p : Result A × World S E) → P p.1.tables → P (reworded f p).1.tables
      reworded_after f (ok a, w) h = h
      reworded_after f (err e, w) h = h

module _ {κ} {S E A B : Type 0} (P : S → Type κ) (f : A → Action S E B) where
  continue_after :
      (p : Result A × World S E)
      → ((x : Err) → p.0 ≡ err x → P p.1.tables)
      → ((a : A) → p.0 ≡ ok a → P (f a p.1).1.tables)
      → P (continue f p).1.tables
  continue_after (ok a, w) failed went = went a refl
  continue_after (err e, w) failed went = failed e refl

  -- A chain ends after its first step, which failed, or after its second.
  pub bind_after :
      (m : Action S E A) (w : World S E)
      → ((x : Err) → (m w).0 ≡ err x → P (m w).1.tables)
      → ((a : A) → (m w).0 ≡ ok a → P (f a (m w).1).1.tables)
      → P ((m >>= f) w).1.tables
  bind_after m w failed went = continue_after (m w) failed went

module _ {κ} {S E A : Type 0} (P : S → Type κ) where
  -- A guard changes nothing.
  pub guard_after :
      (b : Bool) (e : Err) (m : Action S E A) (w : World S E)
      → P w.tables
      → (b ≡ false → P (m w).1.tables)
      → P ((if b then raise e else m) w).1.tables
  guard_after true e m w h go = h
  guard_after false e m w h go = go refl
