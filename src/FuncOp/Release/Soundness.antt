-- ===== src/FuncOp/Release/Soundness.antt =====
-- No function ever has two published releases.
use ai_dandelion.Base.{
  ℕ, ◌≤◌, String, ◌≡◌, ◌⊎◌, refl, List, [], ◌∷◌, if◌then◌else◌, sym, subst, inl, inr, true, false,
  Option, none, some, arith, Bool-cases, find_first, count_where, any, str_eq, eq_iff, is_empty,
}
use ai_dandelion.Db.{ok, World, first, insert, exec, transaction}
use ai_dandelion.Db.Rules.{exec_tables, transaction_keeps}
use ai_dandelion.FuncOp.Model.{FunctionRelease, OutboxEvent, Tables, Effect}
use ai_dandelion.FuncOp.Release.{
  uuid_is, backfill_body, backfill_published, backfilled, newest, published_of, add_release,
  is_published, create_staged, revoke_by_function_id, revoke_releases, publish_release,
  publish_body, publish_row,
}
use ai_dandelion.FuncOp.Release.Counts.{
  count-revoke_self, count-revoke_le, count-revoke_uuid, count-revoke-both, count-publish_uuid,
  count-publish_le, count-both_le, count-both_other, count-append_uuid, count-append_published,
  count-any-false,
}
use ai_dandelion.FuncOp.Release.Publish.{publish_row_ok, published_tables}

pub record IsSound (t : Tables) : Type 0 where
  pub unique : (u : String) → count_where (uuid_is u) t.releases ≤ 1
  pub one_live : (f : String) → count_where (published_of f) t.releases ≤ 1

-- Only the release rows matter.
pub IsSound-same : {a b : Tables} → b.releases ≡ a.releases → IsSound a → IsSound b
IsSound-same e s = record { unique = λ u. rw e (s.unique u); one_live = λ f. rw e (s.one_live f) }

module _ (now : ℕ) {t : Tables} (s : IsSound t) where
  pub revoke_releases-IsSound : (f : String) → IsSound (revoke_releases f now t)
  revoke_releases-IsSound f = record {
    unique = λ u. omega (arith, s.unique u, count-revoke_uuid now f u t.releases);
    one_live = λ g. omega (arith, s.one_live g, count-revoke_le now f g t.releases);
  }

module _ (u : String) (now : ℕ) (r : FunctionRelease) (t : Tables) (s : IsSound t)
    (found : find_first (uuid_is u) t.releases ≡ some r) where
  abbrev republished : Tables
  republished = publish_release u now (revoke_releases r.function_id now t)

  live_self : count_where (published_of r.function_id) republished.releases ≤ 1
  live_self = omega (
    arith,
    s.unique u,
    count-revoke_self now r.function_id t.releases,
    count-publish_le now u r.function_id (revoke_releases r.function_id now t).releases,
    count-revoke-both now r.function_id u r.function_id t.releases,
    count-both_le u r.function_id t.releases,
  )

  live_other :
      (g : String)
      → str_eq r.function_id g ≡ false
      → count_where (published_of g) republished.releases ≤ 1
  live_other g n = omega (
    arith,
    s.one_live g,
    count-revoke_le now r.function_id g t.releases,
    count-publish_le now u g (revoke_releases r.function_id now t).releases,
    count-revoke-both now r.function_id u g t.releases,
    count-both_other u g r t.releases found (s.unique u) n,
  )

  live_any : (g : String) → count_where (published_of g) republished.releases ≤ 1
  live_any g = elim (Bool-cases (str_eq r.function_id g)) [
    | inl e ↦
        subst (λ x. count_where (published_of x) republished.releases ≤ 1)
          ((eq_iff r.function_id g).0 e) live_self
    | inr n ↦ live_other g n
  ]

  published_tables-IsSound :
      (fresh : String) (event : Option OutboxEvent)
      → IsSound (published_tables r u now fresh event t)
  published_tables-IsSound fresh none = record {
    unique = λ v. omega (
      arith,
      s.unique v,
      count-revoke_uuid now r.function_id v t.releases,
      count-publish_uuid now u v (revoke_releases r.function_id now t).releases,
    );
    one_live = live_any;
  }
  published_tables-IsSound fresh (some e) = record {
    unique = λ v. omega (
      arith,
      s.unique v,
      count-revoke_uuid now r.function_id v t.releases,
      count-publish_uuid now u v (revoke_releases r.function_id now t).releases,
    );
    one_live = live_any;
  }

-- Whatever calls fail, `publish` keeps at most one row for each uuid and at most one published
-- release for each function.
pub publish_row-IsSound :
    (u : String) (now : ℕ) (fresh : String) (event : Option OutboxEvent) (w : World Tables Effect)
    → IsSound w.tables
    → IsSound (publish_row u now fresh event w).1.tables
unfolding publish_row
publish_row-IsSound u now fresh event w s =
    transaction_keeps IsSound (publish_body u now fresh event) w s (λ _ h.
      let (r, found, tables) = publish_row_ok u now fresh event w h in
      subst IsSound (sym tables) (published_tables-IsSound u now r w.tables s found fresh event))

module _ (r : FunctionRelease) (t : Tables) (s : IsSound t)
    (fits : any (uuid_is r.uuid) t.releases ≡ false) where
  pub add_release-IsSound :
      (published_of r.function_id r ≡ true
        → count_where (published_of r.function_id) t.releases ≡ 0)
      → IsSound (add_release r t)
  add_release-IsSound room = record {
    unique = λ u. ground (
      arith,
      s.unique u,
      count-append_uuid u r t.releases,
      count-any-false r.uuid t.releases fits,
      eq_iff r.uuid u,
    );
    one_live = λ f. ground (
      arith,
      s.one_live f,
      count-append_published f r t.releases,
      eq_iff r.function_id f,
      eq_iff r.function_id r.function_id,
      room,
    );
  }

create_staged_row : String → FunctionRelease → Tables → FunctionRelease
create_staged_row fresh r t = record r {
  id = t.next_release_id;
  uuid = if is_empty r.uuid then fresh else r.uuid;
}

create_staged_tables :
    (fresh : String) (r : FunctionRelease) (w : World Tables Effect)
    → ((create_staged fresh r w).1.tables ≡ w.tables)
      ⊎ (any (uuid_is (create_staged_row fresh r w.tables).uuid) w.tables.releases ≡ false)
        × ((create_staged fresh r w).1.tables
            ≡ add_release (create_staged_row fresh r w.tables) w.tables)
unfolding create_staged insert create_staged_row
create_staged_tables fresh r w = ground arith

pub create_staged-IsSound :
    (fresh : String) (r : FunctionRelease) (w : World Tables Effect)
    → is_published r.status ≡ false
    → IsSound w.tables
    → IsSound (create_staged fresh r w).1.tables
unfolding create_staged_row
create_staged-IsSound fresh r w quiet s = elim (create_staged_tables fresh r w) [
  | inl same ↦ subst IsSound (sym same) s
  | inr (fits, added) ↦
      subst IsSound (sym added) (
        add_release-IsSound (create_staged_row fresh r w.tables) w.tables s fits
          (λ e. ground arith))
]

pub revoke_by_function_id-IsSound :
    (f : String) (now : ℕ) (w : World Tables Effect)
    → IsSound w.tables
    → IsSound (revoke_by_function_id f now w).1.tables
unfolding revoke_by_function_id
revoke_by_function_id-IsSound f now w s =
    elim (exec_tables w (λ t. (tt, revoke_releases f now t))) [
      | inl same ↦ subst IsSound (sym same) s
      | inr done ↦ subst IsSound (sym done) (revoke_releases-IsSound now s f)
    ]

newest-none :
    (f : String) (rs : List FunctionRelease)
    → newest (published_of f) rs ≡ none
    → count_where (published_of f) rs ≡ 0
unfolding newest count_where
newest-none f [] h = refl
newest-none f (r ∷ rs) h = ground (arith, newest-none f rs)

backfill_ok :
    (fresh f app sha manifest : String) (now : ℕ) (w : World Tables Effect)
    (o : Option FunctionRelease)
    → (backfill_published fresh f app sha manifest now w).0 ≡ ok o
    → ((backfill_published fresh f app sha manifest now w).1.tables.releases ≡ w.tables.releases)
      ⊎ (any (uuid_is fresh) w.tables.releases ≡ false)
        × (newest (published_of f) w.tables.releases ≡ none)
        × ((backfill_published fresh f app sha manifest now w).1.tables.releases
            ≡ (add_release
                (record (backfilled fresh f app sha manifest now) { id = w.tables.next_release_id })
                w.tables).releases)
unfolding backfill_published transaction first exec insert
backfill_ok fresh f app sha manifest now w o h = ground arith

pub backfill_published-IsSound :
    (fresh f app sha manifest : String) (now : ℕ) (w : World Tables Effect)
    → IsSound w.tables
    → IsSound (backfill_published fresh f app sha manifest now w).1.tables
unfolding backfill_published
backfill_published-IsSound fresh f app sha manifest now w s =
    transaction_keeps IsSound (backfill_body fresh f app sha manifest now) w s (λ o h.
      elim (backfill_ok fresh f app sha manifest now w o h) [
        | inl same ↦ IsSound-same same s
        | inr (fits, quiet, added) ↦ IsSound-same added (
            add_release-IsSound
              (record (backfilled fresh f app sha manifest now) { id = w.tables.next_release_id })
              w.tables s fits (λ _. newest-none f w.tables.releases quiet))
      ])

-- A call of the release table, with the arguments that the callers give.
pub data ReleaseCall : World Tables Effect → World Tables Effect → Type 0 where
  staging :
      (fresh : String) (r : FunctionRelease) (w : World Tables Effect)
      → is_published r.status ≡ false
      → ReleaseCall w (create_staged fresh r w).1
  publishing :
      (u : String) (now : ℕ) (fresh : String) (event : Option OutboxEvent) (w : World Tables Effect)
      → ReleaseCall w (publish_row u now fresh event w).1
  revoking :
      (f : String) (now : ℕ) (w : World Tables Effect)
      → ReleaseCall w (revoke_by_function_id f now w).1
  backfilling :
      (fresh f app sha manifest : String) (now : ℕ) (w : World Tables Effect)
      → ReleaseCall w (backfill_published fresh f app sha manifest now w).1

pub data ReleaseCalls (w : World Tables Effect) : World Tables Effect → Type 0 where
  none_yet : ReleaseCalls w w
  and_then : {v x : World Tables Effect} → ReleaseCalls w v → ReleaseCall v x → ReleaseCalls w x

ReleaseCall-IsSound :
    {v x : World Tables Effect} → ReleaseCall v x → IsSound v.tables → IsSound x.tables
ReleaseCall-IsSound (staging fresh r w quiet) s = create_staged-IsSound fresh r w quiet s
ReleaseCall-IsSound (publishing u now fresh event w) s = publish_row-IsSound u now fresh event w s
ReleaseCall-IsSound (revoking f now w) s = revoke_by_function_id-IsSound f now w s
ReleaseCall-IsSound (backfilling fresh f app sha manifest now w) s =
    backfill_published-IsSound fresh f app sha manifest now w s

-- Over any sequence of calls of the release table (create staged, publish with or without an
-- event, revoke, backfill), whichever of their database calls fail, no two release rows share a
-- uuid and no function has two published releases, if that held at the start.
pub calls-IsSound :
    {w x : World Tables Effect} → IsSound w.tables → ReleaseCalls w x → IsSound x.tables
calls-IsSound s none_yet = s
calls-IsSound s (and_then before call) = ReleaseCall-IsSound call (calls-IsSound s before)
