-- ===== src/Db.antt =====
-- Calls of the database (gorm) and of other services, as actions on a world.
-- A world has the tables, the calls made so far, which of them fail (`faults`, chosen by the
-- environment: every call may return an error), and the calls that took effect elsewhere.
pub mod Rules
use ai_dandelion.Base.{
  ℕ, suc, ◌+◌, String, ◌≡◌, Bool, Option, none, some, List, [], ◌∷◌, if◌then◌else◌,
}

-- `not_found` is gorm.ErrRecordNotFound, `fault` an error that the environment returned, and `msg`
-- an error that the program makes with errors.New or fmt.Errorf.
pub data Err : Type 0 where
  not_found : Err
  fault : String → Err
  msg : String → Err

pub data Result {ℓ} (A : Type ℓ) : Type ℓ where
  ok : A → Result A
  err : Err → Result A

pub record World (S E : Type 0) : Type 0 where
  pub tables : S
  pub calls : ℕ
  pub faults : ℕ → Option String
  pub log : List E

abbrev pub Action : Type 0 → Type 0 → Type 0 → Type 0
Action S E A = World S E → Result A × World S E

abbrev pub ticked : {S E : Type 0} → World S E → World S E
ticked w = record w { calls = suc w.calls }

abbrev pub or_not_found : {A : Type 0} → Option A → Result A
or_not_found none = err not_found
or_not_found (some a) = ok a

module _ {S E A : Type 0} where
  abbrev pub pure : A → Action S E A
  pure a w = (ok a, w)

  abbrev pub raise : Err → Action S E A
  raise e w = (err e, w)

  abbrev pub lift : Result A → Action S E A
  lift r w = (r, w)

  -- A reading of the clock, which gives the time at each number of calls made.
  abbrev pub at_time : (ℕ → ℕ) → (ℕ → Action S E A) → Action S E A
  at_time clock m w = m (clock w.calls) w

  abbrev pub answer : Option String → Result A × World S E → World S E → Result A × World S E
  answer none good w = good
  answer (some m) good w = (err (fault m), w)

  -- One call: it fails and changes nothing, or has the result and the effect given.
  unfoldable pub call : (World S E → Result A × World S E) → Action S E A
  call effect w = answer (w.faults w.calls) (effect (ticked w)) (ticked w)

  -- SELECT: a read of the tables.
  unfoldable pub query : (S → A) → Action S E A
  unfolding call
  query f = call (λ w. (ok (f w.tables), w))

  -- `First`: the row that a query finds, or gorm.ErrRecordNotFound.
  unfoldable pub first : (S → Option A) → Action S E A
  unfolding call
  first f = call (λ w. (or_not_found (f w.tables), w))

  -- INSERT, UPDATE and DELETE: a new state with a value, such as RowsAffected.
  unfoldable pub exec : (S → A × S) → Action S E A
  unfolding call
  exec f = call (λ w. (ok (f w.tables).0, record w { tables = (f w.tables).1 }))

  -- INSERT where the database may refuse a duplicate key.
  unfoldable pub insert : (S → Option (A × S)) → Action S E A
  unfolding call
  insert f = call (λ w. elim (f w.tables) [
    | none ↦ (err (fault "duplicate key"), w)
    | some (a, s) ↦ (ok a, record w { tables = s })
  ])

  -- A call of another service, which is noted in the log when it succeeds.
  unfoldable pub remote : E → A → Action S E A
  unfolding call
  remote e a = call (λ w. (ok a, record w { log = e ∷ w.log }))

  -- The result as a value: the caller looks at the error itself.
  abbrev pub attempt : Action S E A → Action S E (Result A)
  attempt m w = (ok (m w).0, (m w).1)

module _ {S E A B : Type 0} where
  abbrev pub continue : (A → Action S E B) → Result A × World S E → Result B × World S E
  continue f (ok a, w) = f a w
  continue f (err e, w) = (err e, w)

  infixl 10 ◌>>=◌ ◌>>◌
  abbrev pub ◌>>=◌ : Action S E A → (A → Action S E B) → Action S E B
  ◌>>=◌ m f w = continue f (m w)

  abbrev pub ◌>>◌ : Action S E A → Action S E B → Action S E B
  m >> n = m >>= λ _. n

module _ {S E A : Type 0} where
  -- The end of a transaction that began in the state `s`: COMMIT, or ROLLBACK to `s`.
  unfoldable pub commit : S → Result A × World S E → Result A × World S E
  commit s (err e, w) = (err e, record w { tables = s })
  commit s (ok a, w) = answer (w.faults w.calls) (ok a, ticked w) (record (ticked w) { tables = s })

  -- `db.Transaction(fn)`: BEGIN, the body, and COMMIT, or ROLLBACK at an error.
  unfoldable pub transaction : Action S E A → Action S E A
  unfolding commit
  transaction body w = answer (w.faults w.calls) (commit w.tables (body (ticked w))) (ticked w)

  abbrev pub restore : S → Result A × World S E → Result A × World S E
  restore s (err e, w) = (err e, record w { tables = s })
  restore s (ok a, w) = (ok a, w)

  -- `tx.Transaction(fn)` inside a transaction: SAVEPOINT, the body, and ROLLBACK TO at an error.
  unfoldable pub savepoint : Action S E A → Action S E A
  savepoint body w = answer (w.faults w.calls) (restore w.tables (body (ticked w))) (ticked w)

  -- The error as the caller words it.
  abbrev pub reworded : (Err → Err) → Result A × World S E → Result A × World S E
  reworded f (ok a, w) = (ok a, w)
  reworded f (err e, w) = (err (f e), w)

  abbrev pub fail_as : (Err → Err) → Action S E A → Action S E A
  fail_as f m w = reworded f (m w)
