-- ===== src/FuncOp/Publishing.antt =====
-- func-operation/internal/logic/release.go: staging, publishing and revoking releases.
pub mod Staging
pub mod Outcome
use ai_dandelion.Base.{
  ℕ, ◌+◌, String, Bool, true, false, not, ◌&&◌, Option, none, some, List, [], ◌∷◌, if◌then◌else◌,
  str_eq, is_empty, trim_space, any, select, map,
}
use ai_dandelion.Db.{
  Err, Result, ok, err, not_found, msg, attempt, fail_as, pure, raise, lift, at_time, query, remote,
  ◌>>=◌, ◌>>◌,
}
use ai_dandelion.FuncOp.Model.{
  ReleaseStatus, staged, published, revoked, FunctionRelease, OutboxEvent, pending, Payload,
  version_published, FunctionStatus, Function, Tables, Effect, models_applied, artifact_promoted,
  artifacts_loaded, skill_synced, skill_revoked, FuncAction,
}
use ai_dandelion.FuncOp.Release
use ai_dandelion.FuncOp.Release.{
  create_staged, latest, active_for_app, list_published, revoke_by_function_id, publish_with_outbox,
  backfill_published,
}

pub record Snapshot : Type 0 where
  pub app_id : String
  pub sha256 : String
  pub manifest_json : String

-- The parts that a ReleaseLogic was built with: `ready` is the nil checks of the release table
-- and the runtime, `skills` that a skill synchroniser was set. The runtime's answers about
-- artifacts are functions of the ids.
pub record Services : Type 0 where
  pub ready : Bool
  pub functions_ready : Bool
  pub outbox : Bool
  pub skills : Bool
  pub artifact_snapshot : String → Result Snapshot
  pub has_approved_artifact : String → String → Bool

abbrev pub not_configured : Err
not_configured = msg "release runtime is not configured"

-- approvals[release.AppID] = release.ArtifactSHA256, for each release in turn.
abbrev pub approve : String → String → List (String × String) → List (String × String)
approve k v [] = (k, v) ∷ []
approve k v ((j, w) ∷ m) = if str_eq j k then (k, v) ∷ m else (j, w) ∷ approve k v m

unfoldable pub approvals : List FunctionRelease → List (String × String) → List (String × String)
approvals [] m = m
approvals (r ∷ rs) m = approvals rs (approve r.app_id r.artifact_sha256 m)

abbrev is_live : FunctionStatus → Bool
is_live FunctionStatus.published = true
is_live FunctionStatus.draft = false

unfoldable pub restore_published : Services → FuncAction (Unit {0})
restore_published sv =
    if not sv.ready
    then raise not_configured
    else do releases ← list_published; remote (artifacts_loaded (approvals releases [])) tt

-- The staged release of a function, for the version that follows.
abbrev pub staged_release : Function → String → Snapshot → ℕ → String → ℕ → FunctionRelease
staged_release function app snapshot version user now = record {
  id = 0;
  uuid = "";
  function_id = function.uuid;
  app_id = app;
  version = version;
  artifact_sha256 = snapshot.sha256;
  manifest_json = snapshot.manifest_json;
  status = staged;
  created_by = user;
  created_at = now;
  published_at = 0;
  updated_at = now;
}

abbrev pub is_revoked : ReleaseStatus → Bool
is_revoked revoked = true
is_revoked _ = false

abbrev pub reusable : FunctionRelease → String → Snapshot → Bool
reusable l app snapshot =
    str_eq l.app_id app && str_eq l.artifact_sha256 snapshot.sha256 && not (is_revoked l.status)

-- The rest of `Stage`, by what the query of the latest release returned.
abbrev stage_after :
    Function
    → String
    → Snapshot
    → String
    → ℕ
    → String
    → Result FunctionRelease
    → FuncAction FunctionRelease
stage_after function app snapshot user now fresh (ok l) =
    if reusable l app snapshot
    then pure l
    else create_staged fresh (staged_release function app snapshot (l.version + 1) user now)
stage_after function app snapshot user now fresh (err not_found) =
    create_staged fresh (staged_release function app snapshot 1 user now)
stage_after function app snapshot user now fresh (err e) = raise e

abbrev stage_app : Function → String → Snapshot → String → ℕ → String → FuncAction FunctionRelease
stage_app function app snapshot user now fresh = do
  found ← attempt (latest function.uuid)
  stage_after function app snapshot user now fresh found

unfoldable pub stage : Services → String → ℕ → String → Function → FuncAction FunctionRelease
stage sv user now fresh function =
    if not sv.ready
    then raise not_configured
    else if is_empty (trim_space function.generated_app_id)
    then raise (msg "generated app is not ready")
    else do
      snapshot ← lift (sv.artifact_snapshot (trim_space function.generated_app_id))
      stage_app function (trim_space function.generated_app_id) snapshot user now fresh

abbrev pub version_published_type : String
version_published_type = "func-operation.function.version-published"

abbrev pub unpublished_type : String
unpublished_type = "func-operation.function.unpublished"

abbrev pub pending_event : String → String → String → Payload → ℕ → OutboxEvent
pending_event f r type payload now = record {
  id = 0;
  uuid = "";
  function_id = f;
  release_id = r;
  event_type = type;
  payload = payload;
  status = pending;
  attempts = 0;
  next_attempt_at = 0;
  last_error = "";
  created_at = now;
  updated_at = now;
}

abbrev pub published_event : Function → FunctionRelease → ℕ → OutboxEvent
published_event function release now =
    pending_event function.uuid release.uuid version_published_type
      (version_published function.uuid function.name release.version release.uuid now) now

abbrev record_publish : Services → Function → FunctionRelease → ℕ → String → FuncAction (Unit {0})
record_publish sv function release now fresh_event =
    if sv.outbox
    then fail_as (λ e. msg "publish function release")
        (publish_with_outbox release.uuid now fresh_event
          (some (published_event function release now)))
    else Release.publish release.uuid now

abbrev when : Bool → FuncAction (Unit {0}) → FuncAction (Unit {0})
when b m = if b then m else pure tt

abbrev pub published_release : FunctionRelease → ℕ → FunctionRelease
published_release release now = record release {
  status = published;
  published_at = now;
  updated_at = now;
}

-- `Publish` after the transaction: the published artifacts are loaded again, and the skill follows.
unfoldable pub finish_publish :
    Services → ℕ → Function → FunctionRelease → FuncAction (Function × FunctionRelease)
finish_publish sv now function release = do
  restore_published sv
  when sv.skills (remote (skill_synced function.uuid release.uuid) tt)
  pure (record function { active_release_id = release.uuid }, published_release release now)

-- `Publish` after `Stage` returned a release; `now` is the time after the artifact was promoted.
unfoldable pub publish_staged :
    Services → ℕ → String → Function → FunctionRelease → FuncAction (Function × FunctionRelease)
publish_staged sv now fresh_event function release = do
  remote (models_applied release.app_id) tt
  remote (artifact_promoted release.app_id release.artifact_sha256) tt
  record_publish sv function release now fresh_event
  finish_publish sv now function release

-- The result is the function with its new active release, and the release. `now` is the time in
-- `Stage`, and `now'` the time after the artifact was promoted.
unfoldable pub publish :
    Services → String → ℕ → ℕ → String → String → Function → FuncAction (Function × FunctionRelease)
publish sv user now now' fresh fresh_event function = do
  release ← stage sv user now fresh function
  publish_staged sv now' fresh_event function release

unfoldable pub revoke_function_releases : Services → String → ℕ → FuncAction (Unit {0})
revoke_function_releases sv f now =
    if not sv.ready
    then pure tt
    else do revoke_by_function_id f now; when sv.skills (remote (skill_revoked f) tt)

-- The body of the loop of `RevokeOrphanedPublished`, for a function that exists or not.
abbrev revoke_orphan : Services → (ℕ → ℕ) → String → Bool → FuncAction (Unit {0})
revoke_orphan sv clock f true = pure tt
revoke_orphan sv clock f false = do
  at_time clock (revoke_by_function_id f)
  when sv.skills (remote (skill_revoked f) tt)

-- `functions.Exists`
abbrev function_exists : String → FuncAction Bool
function_exists f = query (λ t. any (λ x. str_eq x.uuid f) t.functions)

revoke_orphans : Services → (ℕ → ℕ) → List FunctionRelease → FuncAction (Unit {0})
revoke_orphans sv clock [] = pure tt
revoke_orphans sv clock (r ∷ rs) = do
  exists ← function_exists r.function_id
  revoke_orphan sv clock r.function_id exists
  revoke_orphans sv clock rs

unfoldable pub revoke_orphaned_published : Services → (ℕ → ℕ) → FuncAction (Unit {0})
unfolding revoke_orphans
revoke_orphaned_published sv clock =
    if not (sv.ready && sv.functions_ready)
    then raise not_configured
    else do releases ← list_published; revoke_orphans sv clock releases

-- `functions.ListLegacyPublished`
abbrev is_legacy : Function → Bool
is_legacy x = is_live x.status && not (is_empty x.generated_app_id) && is_empty x.active_release_id

-- The body of the loop of `BackfillLegacyPublished`; `fresh` gives the uuid of each new row.
abbrev backfill_function : Services → (ℕ → ℕ) → (ℕ → String) → Function → FuncAction (Unit {0})
backfill_function sv clock fresh function = do
  snapshot ← lift (sv.artifact_snapshot function.generated_app_id)
  remote (artifact_promoted snapshot.app_id snapshot.sha256) tt
  at_time clock (λ now.
      backfill_published (fresh function.id) function.uuid snapshot.app_id snapshot.sha256
        snapshot.manifest_json now)
  pure tt

backfill_functions : Services → (ℕ → ℕ) → (ℕ → String) → List Function → FuncAction (Unit {0})
backfill_functions sv clock fresh [] = pure tt
backfill_functions sv clock fresh (x ∷ xs) = do
  backfill_function sv clock fresh x
  backfill_functions sv clock fresh xs

unfoldable pub backfill_legacy_published : Services → (ℕ → ℕ) → (ℕ → String) → FuncAction (Unit {0})
unfolding backfill_functions
backfill_legacy_published sv clock fresh =
    if not (sv.ready && sv.functions_ready) then raise not_configured else do
      functions ← query (λ t. select is_legacy t.functions)
      backfill_functions sv clock fresh functions

unfoldable pub require_active_artifact : Services → String → FuncAction FunctionRelease
require_active_artifact sv app = if not sv.ready then raise not_configured else do
  release ← active_for_app (trim_space app)
  if sv.has_approved_artifact release.app_id release.artifact_sha256
      then pure release
      else raise (msg "active artifact does not match its published release")

unfoldable pub published_app_ids : Services → FuncAction (List String)
published_app_ids sv =
    if not sv.ready
    then raise not_configured
    else do releases ← list_published; pure (map (λ r. r.app_id) releases)
