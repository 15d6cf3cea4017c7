-- ===== src/FuncOp/Tests/Releases.antt =====
-- The theorems on releases and readiness at concrete inputs.
use ai_dandelion.Base.{
  ◌≡◌, ◌⊎◌, refl, true, none, some, arith, count_where, update_where, select, find_first, any,
  trim_space,
}
use ai_dandelion.Db.{ok, exec, first, insert, query, remote, transaction}
use ai_dandelion.FuncOp.Model.{FunctionRelease, Function, published}
use ai_dandelion.FuncOp.Outbox.{create}
use ai_dandelion.FuncOp.Release
use ai_dandelion.FuncOp.Release.{
  uuid_is, published_of, publish_row, publish_with_outbox, latest, newest, list_published,
}
use ai_dandelion.FuncOp.Release.Soundness.{IsSound, none_yet, and_then, publishing, calls-IsSound}
use ai_dandelion.FuncOp.Release.Outcome.{IsLive, queued, publish_row-IsLive}
use ai_dandelion.FuncOp.Publishing.{
  Services, stage, publish, publish_staged, finish_publish, restore_published, approvals,
}
use ai_dandelion.FuncOp.Publishing.Staging.{Staged, stage_ok}
use ai_dandelion.FuncOp.Publishing.Outcome.{WasPublished, publish_ok}
use ai_dandelion.FuncOp.Readiness.{
  IsComplete, build_readiness, version_flags, publish_function, open_published_function,
  build_readiness_iff,
}
use ai_dandelion.FuncOp.Tests.{orders, first_release, sample, calm}

sample-IsSound : IsSound sample
unfolding count_where
sample-IsSound = record { unique = λ u. ground arith; one_live = λ f. ground arith }

calls-IsSound_example : IsSound (publish_row "r1" 20 "" none calm).1.tables
calls-IsSound_example =
    calls-IsSound sample-IsSound (and_then none_yet (publishing "r1" 20 "" none calm))

publishes : (publish_row "r1" 20 "" none calm).0 ≡ ok tt
unfolding publish_row transaction first exec find_first count_where update_where
    Release.publish_body Release.publish_found Release.mark_found Release.activate_found
publishes = refl

publish_row-IsLive_example :
    (r : FunctionRelease) × (find_first (uuid_is "r1") sample.releases ≡ some r)
    × IsLive "r1" r (publish_row "r1" 20 "" none calm).1.tables
    × ((publish_row "r1" 20 "" none calm).1.tables.outbox ≡ queued "" none sample)
publish_row-IsLive_example = publish_row-IsLive "r1" 20 "" none calm sample-IsSound publishes

abbrev services : Services
services = record {
  ready = true;
  functions_ready = true;
  outbox = true;
  skills = true;
  artifact_snapshot = λ app. ok (record { app_id = app; sha256 = "bb"; manifest_json = "{}" });
  has_approved_artifact = λ app sha. true;
}

abbrev second_release : FunctionRelease
second_release = record first_release {
  id = 2;
  uuid = "r2";
  version = 2;
  artifact_sha256 = "bb";
  created_at = 30;
  updated_at = 30;
}

stages : (stage services "u1" 30 "r2" orders calm).0 ≡ ok second_release
unfolding stage latest newest first insert Release.create_staged any trim_space
stages = refl

stage_ok_example :
    Staged services orders second_release sample (stage services "u1" 30 "r2" orders calm).1.tables
stage_ok_example = stage_ok services "u1" 30 "r2" orders second_release calm stages

abbrev result : Function × FunctionRelease
result = (
  record orders { active_release_id = "r2" },
  record second_release { status = published; published_at = 40; updated_at = 40 },
)

publishes_second : (publish services "u1" 30 40 "r2" "e2" orders calm).0 ≡ ok result
unfolding publish stage latest newest first insert Release.create_staged any trim_space
    publish_staged finish_publish restore_published list_published query remote publish_with_outbox
    Release.publish_body Release.publish_found Release.mark_found Release.activate_found transaction
    exec find_first count_where update_where select create approvals
publishes_second = refl

publish_ok_example :
    WasPublished services orders calm (publish services "u1" 30 40 "r2" "e2" orders calm).1 result
publish_ok_example =
    publish_ok services "u1" 30 40 "r2" "e2" orders calm result sample-IsSound publishes_second

orders-IsComplete : IsComplete orders
unfolding version_flags trim_space
orders-IsComplete = ground arith

build_readiness_iff_example :
    (((build_readiness orders).next_action ≡ publish_function)
        ⊎ ((build_readiness orders).next_action ≡ open_published_function)
      → IsComplete orders)
    × (IsComplete orders → (build_readiness orders).next_action ≡ publish_function)
build_readiness_iff_example = build_readiness_iff orders
