-- ===== src/FuncOp/Release/Outcome.antt =====
-- What a successful publish leaves in the tables.
use ai_dandelion.Base.{
  ℕ, ◌≤◌, String, ◌≡◌, refl, sym, subst, true, Option, none, some, List, [], ◌∷◌, ◌++◌, arith, All,
  find_first, count_where, update_where, str_eq, eq_iff,
}
use ai_dandelion.Db.{ok, World}
use ai_dandelion.FuncOp.Model.{FunctionRelease, Function, OutboxEvent, Tables, Effect}
use ai_dandelion.FuncOp.Outbox.{new_event}
use ai_dandelion.FuncOp.Release.{uuid_is, published_of, revoke, set_published, publish_row}
use ai_dandelion.FuncOp.Release.Publish.{publish_row_ok, published_tables}
use ai_dandelion.FuncOp.Release.Soundness.{IsSound, publish_row-IsSound}

abbrev release_rows : String → String → ℕ → List FunctionRelease → List FunctionRelease
release_rows f u now rs =
    update_where (uuid_is u) (set_published now) (update_where (published_of f) (revoke now) rs)

only_live :
    (f u : String) (now : ℕ) (rs : List FunctionRelease)
    → All (λ x. published_of f x ≡ true → uuid_is u x ≡ true) (release_rows f u now rs)
unfolding update_where
only_live f u now [] = tt
only_live f u now (r ∷ rs) = (λ h. ground arith, only_live f u now rs)

some_live :
    (f u : String) (now : ℕ) (r : FunctionRelease) (rs : List FunctionRelease)
    → find_first (uuid_is u) rs ≡ some r
    → 1 ≤ count_where (published_of r.function_id) (release_rows f u now rs)
unfolding update_where count_where find_first
some_live f u now r [] h = absurd (ground arith)
some_live f u now r (x ∷ rs) h =
    ground (arith, some_live f u now r rs, eq_iff r.function_id r.function_id)

activated :
    (f u : String) (now : ℕ) (xs : List Function)
    → All
        (λ x. str_eq x.uuid f ≡ true → x.active_release_id ≡ u)
        (update_where
          (λ x. str_eq x.uuid f)
          (λ x. record x { active_release_id = u; updated_at = now })
          xs)
unfolding update_where
activated f u now [] = tt
activated f u now (x ∷ xs) = (λ h. ground arith, activated f u now xs)

-- The state after the release `r` with the uuid `u` became the published one of its function.
pub record IsLive (u : String) (r : FunctionRelease) (t : Tables) : Type 0 where
  pub one : count_where (published_of r.function_id) t.releases ≡ 1
  pub only : All (λ x. published_of r.function_id x ≡ true → uuid_is u x ≡ true) t.releases
  pub active : All (λ x. str_eq x.uuid r.function_id ≡ true → x.active_release_id ≡ u) t.functions

abbrev pub queued : String → Option OutboxEvent → Tables → List OutboxEvent
queued fresh none t = t.outbox
queued fresh (some e) t = t.outbox ++ new_event fresh e t ∷ []

IsLive-published_tables :
    (u : String) (now : ℕ) (fresh : String) (event : Option OutboxEvent) (r : FunctionRelease)
    (t : Tables)
    → find_first (uuid_is u) t.releases ≡ some r
    → IsSound (published_tables r u now fresh event t)
    → IsLive u r (published_tables r u now fresh event t)
      × ((published_tables r u now fresh event t).outbox ≡ queued fresh event t)
IsLive-published_tables u now fresh none r t found s = (
  record {
    one = omega (arith, s.one_live r.function_id, some_live r.function_id u now r t.releases found);
    only = only_live r.function_id u now t.releases;
    active = activated r.function_id u now t.functions;
  },
  refl,
)
IsLive-published_tables u now fresh (some e) r t found s = (
  record {
    one = omega (arith, s.one_live r.function_id, some_live r.function_id u now r t.releases found);
    only = only_live r.function_id u now t.releases;
    active = activated r.function_id u now t.functions;
  },
  refl,
)

-- When `publish` returns no error, the release with the given uuid existed, it is now the one
-- published release of its function, every row of the function names it as the active release,
-- and the event given, if any, stands at the end of the outbox. The release table had no two rows
-- with one uuid and no function with two published releases.
pub publish_row-IsLive :
    (u : String) (now : ℕ) (fresh : String) (event : Option OutboxEvent) (w : World Tables Effect)
    → IsSound w.tables
    → (publish_row u now fresh event w).0 ≡ ok tt
    → (r : FunctionRelease) × (find_first (uuid_is u) w.tables.releases ≡ some r)
      × IsLive u r (publish_row u now fresh event w).1.tables
      × ((publish_row u now fresh event w).1.tables.outbox ≡ queued fresh event w.tables)
publish_row-IsLive u now fresh event w s h =
    let (r, found, e) = publish_row_ok u now fresh event w h in
    let sound = publish_row-IsSound u now fresh event w s in
    let (is_live, sent) =
      IsLive-published_tables u now fresh event r w.tables found (subst IsSound e sound) in
    (r, found, subst (IsLive u r) (sym e) is_live, rw e sent)
