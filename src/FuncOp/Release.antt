-- ===== src/FuncOp/Release.antt =====
-- func-operation/internal/dao/function_release.go, the type FunctionRelease: the release rows.
mod Counts
pub mod Publish
pub mod Soundness
pub mod Outcome
use ai_dandelion.Base.{
  ℕ, ◌+◌, String, Bool, true, false, ◌&&◌, ◌||◌, Option, none, some, List, [], ◌∷◌, ◌++◌, ltb, ◌==◌,
  if◌then◌else◌, str_eq, is_empty, any, count_where, select, find_first, update_where,
}
use ai_dandelion.Db.{
  Result, ok, err, not_found, msg, attempt, pure, raise, query, first, exec, insert, ◌>>=◌, ◌>>◌,
  transaction,
}
use ai_dandelion.FuncOp.Model.{
  ReleaseStatus, published, revoked, FunctionRelease, OutboxEvent, Tables, FuncAction,
}
use ai_dandelion.FuncOp.Outbox.{create}

abbrev pub is_published : ReleaseStatus → Bool
is_published published = true
is_published _ = false

abbrev pub uuid_is : String → FunctionRelease → Bool
uuid_is u r = str_eq r.uuid u

-- function_id = ? AND status = 'published'
abbrev pub published_of : String → FunctionRelease → Bool
published_of f r = str_eq r.function_id f && is_published r.status

-- ORDER BY version DESC, id DESC
abbrev pub newer : FunctionRelease → FunctionRelease → Bool
newer a b = ltb b.version a.version || (a.version == b.version && ltb b.id a.id)

abbrev pub pick_newer : FunctionRelease → Option FunctionRelease → FunctionRelease
pick_newer r none = r
pick_newer r (some s) = if newer s r then s else r

-- The first row of an ordered query.
unfoldable pub newest : (FunctionRelease → Bool) → List FunctionRelease → Option FunctionRelease
newest p [] = none
newest p (r ∷ rs) = let rest = newest p rs in if p r then some (pick_newer r rest) else rest

abbrev pub add_release : FunctionRelease → Tables → Tables
add_release r t = record t {
  releases = t.releases ++ r ∷ [];
  next_release_id = t.next_release_id + 1;
}

-- An insert that the unique index on `uuid` may refuse.
abbrev pub insert_release : FunctionRelease → FuncAction FunctionRelease
insert_release release = insert (λ t.
    let row = record release { id = t.next_release_id } in
    if any (uuid_is row.uuid) t.releases then none else some (row, add_release row t))

unfoldable pub create_staged : String → FunctionRelease → FuncAction FunctionRelease
create_staged fresh release =
    insert_release (record release { uuid = if is_empty release.uuid then fresh else release.uuid })

unfoldable pub latest : String → FuncAction FunctionRelease
latest f = first (λ t. newest (λ r. str_eq r.function_id f) t.releases)

unfoldable pub active_for_app : String → FuncAction FunctionRelease
active_for_app app =
    first (λ t. newest (λ r. str_eq r.app_id app && is_published r.status) t.releases)

unfoldable pub list_published : FuncAction (List FunctionRelease)
list_published = query (λ t. select (λ r. is_published r.status) t.releases)

unfoldable pub list_all : FuncAction (List FunctionRelease)
list_all = query (λ t. t.releases)

abbrev pub revoke : ℕ → FunctionRelease → FunctionRelease
revoke now r = record r { status = revoked; updated_at = now }

abbrev pub revoke_releases : String → ℕ → Tables → Tables
revoke_releases f now t = record t {
  releases = update_where (published_of f) (revoke now) t.releases;
}

unfoldable pub revoke_by_function_id : String → ℕ → FuncAction (Unit {0})
revoke_by_function_id f now = exec (λ t. (tt, revoke_releases f now t))

abbrev pub set_published : ℕ → FunctionRelease → FunctionRelease
set_published now r = record r { status = published; published_at = now; updated_at = now }

abbrev pub publish_release : String → ℕ → Tables → Tables
publish_release u now t = record t {
  releases = update_where (uuid_is u) (set_published now) t.releases;
}

abbrev pub activate : String → String → ℕ → Tables → Tables
activate f u now t = record t {
  functions =
      update_where (λ x. str_eq x.uuid f)
        (λ x. record x { active_release_id = u; updated_at = now }) t.functions;
}

abbrev pub create_event : String → Option OutboxEvent → FuncAction (Unit {0})
create_event fresh none = pure tt
create_event fresh (some event) = create fresh event

abbrev pub checked : ℕ → FuncAction (Unit {0})
checked affected w = if affected == 1 then (ok tt, w) else (err (msg "release not found"), w)

unfoldable pub activate_found :
    String → ℕ → String → Option OutboxEvent → FunctionRelease → FuncAction (Unit {0})
activate_found u now fresh event release =
    exec (λ t. (tt, activate release.function_id u now t)) >> create_event fresh event

-- `affected` is RowsAffected.
unfoldable pub mark_found :
    String → ℕ → String → Option OutboxEvent → FunctionRelease → FuncAction (Unit {0})
mark_found u now fresh event release = do
  affected ← exec (λ t. (count_where (uuid_is u) t.releases, publish_release u now t))
  checked affected
  activate_found u now fresh event release

unfoldable pub publish_found :
    String → ℕ → String → Option OutboxEvent → FunctionRelease → FuncAction (Unit {0})
publish_found u now fresh event release =
    exec (λ t. (tt, revoke_releases release.function_id now t))
    >> mark_found u now fresh event release

-- The body of the transaction of `publish`.
unfoldable pub publish_body : String → ℕ → String → Option OutboxEvent → FuncAction (Unit {0})
publish_body u now fresh event =
    first (λ t. find_first (uuid_is u) t.releases) >>= publish_found u now fresh event

unfoldable pub publish_row : String → ℕ → String → Option OutboxEvent → FuncAction (Unit {0})
publish_row u now fresh event = transaction (publish_body u now fresh event)

unfoldable pub publish : String → ℕ → FuncAction (Unit {0})
unfolding publish_row
publish u now = publish_row u now "" none

unfoldable pub publish_with_outbox :
    String → ℕ → String → Option OutboxEvent → FuncAction (Unit {0})
unfolding publish_row
publish_with_outbox u now fresh none = raise (msg "outbox event is required")
publish_with_outbox u now fresh (some event) = publish_row u now fresh (some event)

abbrev pub backfilled : String → String → String → String → String → ℕ → FunctionRelease
backfilled fresh f app sha manifest now = record {
  id = 0;
  uuid = fresh;
  function_id = f;
  app_id = app;
  version = 1;
  artifact_sha256 = sha;
  manifest_json = manifest;
  status = published;
  created_by = "";
  created_at = now;
  published_at = now;
  updated_at = now;
}

abbrev pub activate_row : ℕ → String → ℕ → Tables → Tables
activate_row i u now t = record t {
  functions =
      update_where (λ x. x.id == i) (λ x. record x { active_release_id = u; updated_at = now })
        t.functions;
}

-- The end of the body of `BackfillPublished`, for the published row that was found, if any.
abbrev backfill_existing :
    ℕ → FunctionRelease → ℕ → Result FunctionRelease → FuncAction (Option FunctionRelease)
backfill_existing i row now (ok existing) = do
  exec (λ t. (tt, activate_row i existing.uuid now t))
  pure (some existing)
backfill_existing i row now (err not_found) = do
  out ← insert_release row
  exec (λ t. (tt, activate_row i out.uuid now t))
  pure (some out)
backfill_existing i row now (err e) = raise e

abbrev backfill_inactive : ℕ → String → FunctionRelease → ℕ → FuncAction (Option FunctionRelease)
backfill_inactive i f row now = do
  existing ← attempt (first (λ t. newest (published_of f) t.releases))
  backfill_existing i row now existing

abbrev pub backfill_body :
    String → String → String → String → String → ℕ → FuncAction (Option FunctionRelease)
backfill_body fresh f app sha manifest now = do
  function ← first (λ t. find_first (λ x. str_eq x.uuid f) t.functions)
  if is_empty function.active_release_id
      then backfill_inactive function.id f (backfilled fresh f app sha manifest now) now
      else pure none

-- `none` is the zero release that the source returns for a function with an active release.
unfoldable pub backfill_published :
    String → String → String → String → String → ℕ → FuncAction (Option FunctionRelease)
backfill_published fresh f app sha manifest now =
    transaction (backfill_body fresh f app sha manifest now)
