-- ===== src/FuncOp/Publishing/Staging.antt =====
-- `Stage` reuses the latest release of an artifact, or makes a new version above all others.
use ai_dandelion.Base.{
  ℕ, ◌+◌, ◌≤◌, String, ◌≡◌, ◌≢◌, ◌↔◌, eq_iff, sym, subst, ◌∙◌, ◌⊎◌, inl, inr, Bool, true, false,
  none, some, List, [], ◌∷◌, arith, All, str_eq, any, trim_space, Option-cases,
}
use mathlib.Core.Bool.{false≢true}
use mathlib.Core.Option.{some-injective}
use ai_dandelion.Db.{Result, ok, World, ticked, first, insert}
use ai_dandelion.FuncOp.Model.{FunctionRelease, Function, staged, revoked, Tables, Effect}
use ai_dandelion.FuncOp.Release.{newest, add_release, create_staged, latest, uuid_is}
use ai_dandelion.FuncOp.Publishing.{Services, Snapshot, stage, stage_app, staged_release, reusable}

abbrev pub of_function : String → FunctionRelease → Bool
of_function f r = str_eq r.function_id f

-- The rows that a test accepts have a version of at most `v`.
abbrev pub Below : (FunctionRelease → Bool) → ℕ → List FunctionRelease → Type 0
Below p v = All (λ x. p x ≡ true → x.version ≤ v)

Below-mono :
    (p : FunctionRelease → Bool) (v k : ℕ) (rs : List FunctionRelease)
    → v ≤ k
    → Below p v rs
    → Below p k rs
Below-mono p v k [] h b = tt
Below-mono p v k (r ∷ rs) h b = (λ e. omega (arith, b.0 e), Below-mono p v k rs h b.1)

newest-none :
    (p : FunctionRelease → Bool) (v : ℕ) (rs : List FunctionRelease)
    → newest p rs ≡ none
    → Below p v rs
unfolding newest
newest-none p v [] h = tt
newest-none p v (r ∷ rs) h = (λ e. ground arith, newest-none p v rs (ground arith))

newest-le :
    (p : FunctionRelease → Bool) (l : FunctionRelease) (rs : List FunctionRelease)
    → newest p rs ≡ some l
    → Below p l.version rs
unfolding newest
newest-le p l [] h = tt
newest-le p l (r ∷ rs) h = elim (Option-cases (newest p rs)) [
  | inl (s, e) ↦
      (λ q. ground arith, Below-mono p s.version l.version rs (ground arith) (newest-le p s rs e))
  | inr e ↦ (λ q. ground arith, newest-none p l.version rs e)
]

-- A release of an artifact that is not revoked.
abbrev pub IsOf : String → Snapshot → FunctionRelease → Type 0
IsOf app snapshot r =
    (r.app_id ≡ app) × (r.artifact_sha256 ≡ snapshot.sha256) × (r.status ≢ revoked)

-- What `Stage` returned without an error, for an artifact: the latest release of the function, which
-- has that artifact and is not revoked, and nothing changed; or, where the latest one is not such a
-- release or there is none, a new staged row for the artifact, whose version is one above a bound of
-- all versions of the function.
abbrev pub StagedFor : String → Snapshot → Function → FunctionRelease → Tables → Tables → Type 0
StagedFor app snapshot function r before after =
    (newest (of_function function.uuid) before.releases ≡ some r)
      × IsOf app snapshot r
      × (after ≡ before)
    ⊎ ((v : ℕ) × Below (of_function function.uuid) v before.releases
        × ((l : FunctionRelease)
            → newest (of_function function.uuid) before.releases ≡ some l
            → ¬ IsOf app snapshot l)
        × (r.version ≡ v + 1)
        × (r.function_id ≡ function.uuid)
        × (r.app_id ≡ app)
        × (r.artifact_sha256 ≡ snapshot.sha256)
        × (r.manifest_json ≡ snapshot.manifest_json)
        × (r.status ≡ staged)
        × (any (uuid_is r.uuid) before.releases ≡ false)
        × (after ≡ add_release r before))

-- The artifact is the one that the runtime has of the function's app.
abbrev pub Staged : Services → Function → FunctionRelease → Tables → Tables → Type 0
Staged sv function r before after =
    (snapshot : Snapshot) × (sv.artifact_snapshot (trim_space function.generated_app_id)
      ≡ ok snapshot)
    × StagedFor (trim_space function.generated_app_id) snapshot function r before after

reusable_iff :
    (l : FunctionRelease) (app : String) (snapshot : Snapshot)
    → (reusable l app snapshot ≡ true) ↔ IsOf app snapshot l
reusable_iff l app snapshot = (
  λ h. (
    (eq_iff l.app_id app).0 (ground (arith, h)),
    (eq_iff l.artifact_sha256 snapshot.sha256).0 (ground (arith, h)),
    λ e. let no : ⊥ = ground (arith, h) in no,
  ),
  λ (a, b, c).
      ground (arith, (eq_iff l.app_id app).1 a, (eq_iff l.artifact_sha256 snapshot.sha256).1 b, c),
)

module _ (sv : Services) (user : String) (now : ℕ) (fresh : String) (function : Function)
    (r : FunctionRelease) (w : World Tables Effect) where
  created :
      (v : ℕ) (app : String) (snapshot : Snapshot) (x : World Tables Effect)
      → (create_staged fresh (staged_release function app snapshot (v + 1) user now) x).0 ≡ ok r
      → (r.version ≡ v + 1)
        × (r.function_id ≡ function.uuid)
        × (r.app_id ≡ app)
        × (r.artifact_sha256 ≡ snapshot.sha256)
        × (r.manifest_json ≡ snapshot.manifest_json)
        × (r.status ≡ staged)
        × (any (uuid_is r.uuid) x.tables.releases ≡ false)
        × ((create_staged fresh (staged_release function app snapshot (v + 1) user now) x).1.tables
            ≡ add_release r x.tables)
  unfolding create_staged insert
  created v app snapshot x h = ground arith

  module _ (app : String) (snapshot : Snapshot) where
    abbrev next : ℕ → World Tables Effect → Result FunctionRelease × World Tables Effect
    next v = create_staged fresh (staged_release function app snapshot (v + 1) user now)

    abbrev result : Result FunctionRelease × World Tables Effect
    result = stage_app function app snapshot user now fresh w

    -- One branch of `Stage` for each answer to the query of the latest release.
    branches :
        result.0 ≡ ok r
        → (l : FunctionRelease) → (newest (of_function function.uuid) w.tables.releases ≡ some l)
        → (newest (of_function function.uuid) w.tables.releases ≡ some r)
            × (reusable r app snapshot ≡ true)
            × (result.1.tables ≡ w.tables)
          ⊎ (reusable l app snapshot ≡ false)
            × ((next l.version (ticked w)).0 ≡ ok r)
            × (result ≡ next l.version (ticked w))
    unfolding latest first
    branches h l e = ground arith

    first_branch :
        result.0 ≡ ok r
        → newest (of_function function.uuid) w.tables.releases ≡ none
        → ((next 0 (ticked w)).0 ≡ ok r) × (result ≡ next 0 (ticked w))
    unfolding latest first
    first_branch h e = ground arith

    stage_app_ok : result.0 ≡ ok r → StagedFor app snapshot function r w.tables result.1.tables
    stage_app_ok h = elim (Option-cases (newest (of_function function.uuid) w.tables.releases)) [
      | inl (l, e) ↦ elim (branches h l e) [
        | inl (newest_is, reused, same) ↦
            inl (newest_is, (reusable_iff r app snapshot).0 reused, same)
        | inr (other, good, eq) ↦
            let (a, b, c, d, m, f, g, added) = created l.version app snapshot (ticked w) good in
            inr (
              l.version,
              newest-le _ l w.tables.releases e,
              λ x h is_of.
                  let is_l : l ≡ x = some-injective l x (sym e ∙ h) in
                  let no =
                    (reusable_iff l app snapshot).1 (subst (IsOf app snapshot) (sym is_l) is_of) in
                  false≢true (sym other ∙ no),
              a,
              b,
              c,
              d,
              m,
              f,
              g,
              rw eq added,
            )
      ]
      | inr e ↦
          let (good, eq) = first_branch h e in
          let (a, b, c, d, m, f, g, added) = created 0 app snapshot (ticked w) good in
          inr (
            0,
            newest-none _ 0 w.tables.releases e,
            λ x h is_of. let no : ⊥ = ground (arith, e, h) in no,
            a,
            b,
            c,
            d,
            m,
            f,
            g,
            rw eq added,
          )
    ]

  stage_runs :
      (stage sv user now fresh function w).0 ≡ ok r
      → (snapshot : Snapshot) × (sv.artifact_snapshot (trim_space function.generated_app_id)
          ≡ ok snapshot)
        × (stage sv user now fresh function w
            ≡ stage_app function (trim_space function.generated_app_id) snapshot user now fresh w)
  unfolding stage
  stage_runs h = ground arith

  -- `Stage` without an error, for the artifact that the runtime has of the function's app: either
  -- the latest release of the function is of that artifact, by its app and its hash, and not revoked,
  -- and is returned with the tables as before; or the latest release is not such a one, or there is
  -- none, and a row for that artifact and its manifest is added, with the status staged and a version
  -- that is one above a bound of the versions of all releases of the function.
  pub stage_ok :
      (stage sv user now fresh function w).0 ≡ ok r
      → Staged sv function r w.tables (stage sv user now fresh function w).1.tables
  stage_ok h =
      let (snapshot, known, e) = stage_runs h in
      (
        snapshot,
        known,
        rw e (stage_app_ok (trim_space function.generated_app_id) snapshot (rw e at h)),
      )
