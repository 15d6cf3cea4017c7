-- ===== src/FuncOp/Publishing/Outcome.antt =====
-- What `Publish` of logic/release.go leaves behind when it returns no error.
use ai_dandelion.Base.{
  ℕ, suc, String, ◌≡◌, sym, subst, inl, inr, Option, none, some, List, [], ◌∷◌, arith, select,
  if◌then◌else◌,
}
use ai_dandelion.Db.{Result, ok, World, first, insert, query, exec, remote}
use ai_dandelion.Db.Rules.{
  bind_ok, Silent, bind-Silent, first-Silent, exec-Silent, transaction-Silent,
}
use ai_dandelion.FuncOp.Model.{
  FunctionRelease, Function, OutboxEvent, Tables, Effect, models_applied, artifact_promoted,
  artifacts_loaded, skill_synced,
}
use ai_dandelion.FuncOp.Outbox.{create}
use ai_dandelion.FuncOp.Release
use ai_dandelion.FuncOp.Release.{
  is_published, publish_body, publish_found, mark_found, activate_found, publish_row,
  publish_with_outbox, create_staged, latest, list_published,
}
use ai_dandelion.FuncOp.Release.Soundness.{IsSound, add_release-IsSound, publish_row-IsSound}
use ai_dandelion.FuncOp.Release.Outcome.{IsLive, publish_row-IsLive}
use ai_dandelion.FuncOp.Publishing.{
  Services, stage, publish, publish_staged, finish_publish, published_event, approvals,
  restore_published,
}
use ai_dandelion.FuncOp.Publishing.Staging.{Staged, stage_ok}

log-stage :
    (sv : Services) (user : String) (now : ℕ) (fresh : String) (function : Function)
    (w : World Tables Effect)
    → (stage sv user now fresh function w).1.log ≡ w.log
unfolding stage latest create_staged first insert
log-stage sv user now fresh function w = ground arith

-- The event that `Publish` records, if the outbox is configured.
abbrev event_of : Services → Function → FunctionRelease → ℕ → Option OutboxEvent
event_of sv function r now = if sv.outbox then some (published_event function r now) else none

abbrev event_id : Services → String → String
event_id sv fresh = if sv.outbox then fresh else ""

-- The world in which `Publish` begins its transaction.
abbrev prepared : FunctionRelease → World Tables Effect → World Tables Effect
prepared r w = record w {
  calls = suc (suc w.calls);
  log = artifact_promoted r.app_id r.artifact_sha256 ∷ models_applied r.app_id ∷ w.log;
}

-- What the runtime is given to load: the artifact of each published release.
abbrev pub live_artifacts : Tables → List (String × String)
live_artifacts t = approvals (select (λ x. is_published x.status) t.releases) []

module _ (sv : Services) (now : ℕ) (fresh : String) (function : Function) (r : FunctionRelease)
    (w : World Tables Effect) where
  abbrev row_published : Result (Unit {0}) × World Tables Effect
  row_published =
      publish_row r.uuid now (event_id sv fresh) (event_of sv function r now) (prepared r w)

  finished :
      {out : Function × FunctionRelease}
      → (finish_publish sv now function r w).0 ≡ ok out
      → (out.0.active_release_id ≡ r.uuid)
        × (out.1.uuid ≡ r.uuid)
        × ((finish_publish sv now function r w).1.tables ≡ w.tables)
        × ((finish_publish sv now function r w).1.log ≡ (
            if sv.skills
            then skill_synced function.uuid r.uuid
              ∷ artifacts_loaded (live_artifacts w.tables)
              ∷ w.log
            else artifacts_loaded (live_artifacts w.tables) ∷ w.log))
  unfolding finish_publish restore_published list_published query remote
  finished h = ground arith

  committed :
      {out : Function × FunctionRelease}
      → (publish_staged sv now fresh function r w).0 ≡ ok out
      → (row_published.0 ≡ ok tt)
        × (publish_staged sv now fresh function r w
            ≡ finish_publish sv now function r row_published.1)
  unfolding publish_staged publish_with_outbox Release.publish remote
  committed h = ground arith

activate_found-Silent :
    (u : String) (now : ℕ) (fresh : String) (event : Option OutboxEvent) (r : FunctionRelease)
    → Silent (activate_found u now fresh event r)
unfolding activate_found exec create insert
activate_found-Silent u now fresh event r w = ground arith

mark_found-Silent :
    (u : String) (now : ℕ) (fresh : String) (event : Option OutboxEvent) (r : FunctionRelease)
    → Silent (mark_found u now fresh event r)
unfolding mark_found exec
mark_found-Silent u now fresh event r w = ground (
  arith,
  activate_found-Silent u now fresh event r (exec (λ t. (tt, Release.publish_release u now t)) w).1,
)

publish_found-Silent :
    (u : String) (now : ℕ) (fresh : String) (event : Option OutboxEvent) (r : FunctionRelease)
    → Silent (publish_found u now fresh event r)
unfolding publish_found
publish_found-Silent u now fresh event r =
    bind-Silent (λ _. mark_found u now fresh event r)
      (exec (λ t. (tt, Release.revoke_releases r.function_id now t)))
      (exec-Silent (λ t. (tt, Release.revoke_releases r.function_id now t)))
      λ _. mark_found-Silent u now fresh event r

log-publish_row :
    (u : String) (now : ℕ) (fresh : String) (event : Option OutboxEvent) (w : World Tables Effect)
    → (publish_row u now fresh event w).1.log ≡ w.log
unfolding publish_row publish_body
log-publish_row u now fresh event = transaction-Silent (publish_body u now fresh event) (
    bind-Silent (publish_found u now fresh event) _ (first-Silent _)
      (publish_found-Silent u now fresh event))

Staged-IsSound :
    (sv : Services) (function : Function) (r : FunctionRelease) (before after : Tables)
    → IsSound before
    → Staged sv function r before after
    → IsSound after
Staged-IsSound sv function r before after s (_, _, inl (_, _, same)) = subst IsSound (sym same) s
Staged-IsSound sv function r before after s
      (_, _, inr (_, _, _, _, _, _, _, _, quiet, fits, added)) =
    subst IsSound (sym added) (add_release-IsSound r before s fits (λ e. ground arith))

-- The calls that `Publish` made of the other components, the last one first.
abbrev pub publish_log : Services → Function → FunctionRelease → Tables → List Effect → List Effect
publish_log sv function r after before =
    let calls =
      artifacts_loaded (live_artifacts after)
      ∷ artifact_promoted r.app_id r.artifact_sha256
      ∷ models_applied r.app_id
      ∷ before in
    if sv.skills then skill_synced function.uuid r.uuid ∷ calls else calls

abbrev pub WasPublished :
    Services
    → Function
    → World Tables Effect
    → World Tables Effect
    → Function × FunctionRelease
    → Type 0
WasPublished sv function before after out =
    (r : FunctionRelease) × (staged : Tables) × Staged sv function r before.tables staged
    × (out.0.active_release_id ≡ r.uuid)
    × (out.1.uuid ≡ r.uuid)
    × IsSound after.tables
    × ((row : FunctionRelease) × IsLive r.uuid row after.tables)
    × (after.log ≡ publish_log sv function r after.tables before.log)

abbrev Done :
    Services
    → Function
    → FunctionRelease
    → World Tables Effect
    → List Effect
    → Function × FunctionRelease
    → Type 0
Done sv function r after before out =
    (out.0.active_release_id ≡ r.uuid)
    × (out.1.uuid ≡ r.uuid)
    × IsSound after.tables
    × ((row : FunctionRelease) × IsLive r.uuid row after.tables)
    × (after.log ≡ publish_log sv function r after.tables before)

module _ (sv : Services) (now : ℕ) (fresh : String) (function : Function) (r : FunctionRelease)
    (w : World Tables Effect) (out : Function × FunctionRelease) where
  abbrev row_world : World Tables Effect
  row_world = (row_published sv now fresh function r w).1

  finished_log :
      (finish_publish sv now function r row_world).0 ≡ ok out
      → (finish_publish sv now function r row_world).1.log
        ≡ publish_log sv function r (finish_publish sv now function r row_world).1.tables w.log
  finished_log h =
      let (_, _, tables, log) = finished sv now fresh function r row_world {out = out} h in
      ground (
        arith,
        tables,
        log,
        log-publish_row r.uuid now (event_id sv fresh) (event_of sv function r now) (prepared r w),
      )

  publish_staged-Done :
      IsSound w.tables
      → (publish_staged sv now fresh function r w).0 ≡ ok out
      → Done sv function r (publish_staged sv now fresh function r w).1 w.log out
  publish_staged-Done s h =
      let (row, e) = committed sv now fresh function r w h in
      let (a, b, tables, _) = finished sv now fresh function r row_world (rw e at h) in
      let (found, _, is_live, _) =
        publish_row-IsLive r.uuid now (event_id sv fresh) (event_of sv function r now)
          (prepared r w) s row in
      rw e (
        a,
        b,
        subst IsSound (sym tables) (
            publish_row-IsSound r.uuid now (event_id sv fresh) (event_of sv function r now)
              (prepared r w) s),
        (found, subst (IsLive r.uuid found) (sym tables) is_live),
        finished_log (rw e at h),
      )

module _ (sv : Services) (user : String) (now now' : ℕ) (fresh fresh_event : String)
    (function : Function) (w : World Tables Effect) (out : Function × FunctionRelease) where
  -- `Publish` without an error, on a release table in which no two rows share a uuid and no
  -- function has two published releases: `Stage` reused or made a release, which is now the one
  -- published release of its function and the active release of the function; the table is still
  -- of that kind; and the runtime applied the data models, promoted the artifact and then loaded
  -- exactly the artifacts of the published releases, in this order, before the skill followed.
  pub publish_ok :
      IsSound w.tables
      → (publish sv user now now' fresh fresh_event function w).0 ≡ ok out
      → WasPublished sv function w (publish sv user now now' fresh fresh_event function w).1 out
  unfolding publish
  publish_ok s h =
      let (r, st, e) = bind_ok _ (stage sv user now fresh function) w h in
      let x : World Tables Effect = (stage sv user now fresh function w).1 in
      let kept = stage_ok sv user now fresh function r w st in
      let sound = Staged-IsSound sv function r w.tables x.tables s kept in
      let (a, b, c, d, log) =
        publish_staged-Done sv now' fresh_event function r x out sound (rw e at h) in
      rw e (r, x.tables, kept, a, b, c, d, rw log-stage at log)
