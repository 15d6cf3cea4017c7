-- ===== src/FuncOp/Release/Counts.antt =====
-- How the updates of release rows change the counts of rows by uuid and by published function.
use ai_dandelion.Base.{
  ℕ, ◌+◌, ◌≤◌, String, ◌≡◌, refl, Bool, false, ◌&&◌, some, List, [], ◌∷◌, ◌++◌, arith, find_first,
  count_where, update_where, any, str_eq, if◌then◌else◌,
}
use ai_dandelion.FuncOp.Model.{FunctionRelease}
use ai_dandelion.FuncOp.Release.{uuid_is, published_of, revoke, set_published}

-- Rows with the uuid `u` that belong to the function `f`.
abbrev pub both : String → String → FunctionRelease → Bool
both u f r = uuid_is u r && str_eq r.function_id f

module _ (now : ℕ) (f : String) where
  pub count-revoke_self :
      (rs : List FunctionRelease)
      → count_where (published_of f) (update_where (published_of f) (revoke now) rs) ≡ 0
  unfolding count_where update_where
  count-revoke_self [] = refl
  count-revoke_self (r ∷ rs) = ground (arith, count-revoke_self rs)

  pub count-revoke_le :
      (g : String) (rs : List FunctionRelease)
      → count_where (published_of g) (update_where (published_of f) (revoke now) rs)
        ≤ count_where (published_of g) rs
  unfolding count_where update_where
  count-revoke_le g [] = omega arith
  count-revoke_le g (r ∷ rs) = ground (arith, count-revoke_le g rs)

  pub count-revoke_uuid :
      (u : String) (rs : List FunctionRelease)
      → count_where (uuid_is u) (update_where (published_of f) (revoke now) rs)
        ≡ count_where (uuid_is u) rs
  unfolding count_where update_where
  count-revoke_uuid u [] = refl
  count-revoke_uuid u (r ∷ rs) = ground (arith, count-revoke_uuid u rs)

  pub count-revoke-both :
      (u g : String) (rs : List FunctionRelease)
      → count_where (both u g) (update_where (published_of f) (revoke now) rs)
        ≡ count_where (both u g) rs
  unfolding count_where update_where
  count-revoke-both u g [] = refl
  count-revoke-both u g (r ∷ rs) = ground (arith, count-revoke-both u g rs)

module _ (now : ℕ) (u : String) where
  pub count-publish_uuid :
      (v : String) (rs : List FunctionRelease)
      → count_where (uuid_is v) (update_where (uuid_is u) (set_published now) rs)
        ≡ count_where (uuid_is v) rs
  unfolding count_where update_where
  count-publish_uuid v [] = refl
  count-publish_uuid v (r ∷ rs) = ground (arith, count-publish_uuid v rs)

  pub count-publish_le :
      (g : String) (rs : List FunctionRelease)
      → count_where (published_of g) (update_where (uuid_is u) (set_published now) rs)
        ≤ count_where (published_of g) rs + count_where (both u g) rs
  unfolding count_where update_where
  count-publish_le g [] = omega arith
  count-publish_le g (r ∷ rs) = ground (arith, count-publish_le g rs)

module _ (u : String) where
  pub count-both_le :
      (g : String) (rs : List FunctionRelease)
      → count_where (both u g) rs ≤ count_where (uuid_is u) rs
  unfolding count_where
  count-both_le g [] = omega arith
  count-both_le g (r ∷ rs) = ground (arith, count-both_le g rs)

  -- Under a unique uuid, the row found is the only one with it, so no other function has one.
  pub count-both_other :
      (g : String) (r : FunctionRelease) (rs : List FunctionRelease)
      → find_first (uuid_is u) rs ≡ some r
      → count_where (uuid_is u) rs ≤ 1
      → str_eq r.function_id g ≡ false
      → count_where (both u g) rs ≡ 0
  unfolding count_where find_first
  count-both_other g r [] h k n = refl
  count-both_other g r (s ∷ rs) h k n = ground (arith, count-both_other g r rs, count-both_le g rs)

  pub count-append_uuid :
      (r : FunctionRelease) (rs : List FunctionRelease)
      → count_where (uuid_is u) (rs ++ r ∷ [])
        ≡ count_where (uuid_is u) rs + (if uuid_is u r then 1 else 0)
  unfolding count_where
  count-append_uuid r [] = ground arith
  count-append_uuid r (s ∷ rs) = ground (arith, count-append_uuid r rs)

  pub count-append_published :
      (r : FunctionRelease) (rs : List FunctionRelease)
      → count_where (published_of u) (rs ++ r ∷ [])
        ≡ count_where (published_of u) rs + (if published_of u r then 1 else 0)
  unfolding count_where
  count-append_published r [] = ground arith
  count-append_published r (s ∷ rs) = ground (arith, count-append_published r rs)

  -- What the unique index refuses an insert for.
  pub count-any-false :
      (rs : List FunctionRelease) → any (uuid_is u) rs ≡ false → count_where (uuid_is u) rs ≡ 0
  unfolding count_where any
  count-any-false [] h = refl
  count-any-false (s ∷ rs) h = ground (arith, count-any-false rs)
