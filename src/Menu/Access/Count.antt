-- ===== src/Menu/Access/Count.antt =====
-- How many members of a list have a key that a set of ids lacks: what bounds a walk that marks the
-- ids which it has met.
use ai_dandelion.Base.{
  ℕ, ◌≤◌, ◌<◌, String, ◌≡◌, false, not, List, [], ◌∷◌, length, count_where, eq_iff, arith,
}
use mathlib.Core.List.{Memᴰ}
use mathlib.Core.List.Memᴰ.{head, tail}
use ai_dandelion.Menu.Access.{has}

module _ {A : Type 0} (key : A → String) where
  abbrev pub unvisited : List A → List String → ℕ
  unvisited all allowed = count_where (λ m. not (has (key m) allowed)) all

  pub unvisited_le :
      (all : List A) (id : String) (allowed : List String)
      → unvisited all (id ∷ allowed) ≤ unvisited all allowed
  unfolding count_where has
  unvisited_le [] id allowed = ground arith
  unvisited_le (m ∷ all) id allowed = ground (arith, unvisited_le all id allowed)

  pub unvisited_lt :
      (all : List A) (x : A) (allowed : List String)
      → Memᴰ x all
      → has (key x) allowed ≡ false
      → unvisited all (key x ∷ allowed) < unvisited all allowed
  unfolding count_where has
  unvisited_lt [] x allowed h new = elim h [ ]
  unvisited_lt (m ∷ all) x allowed (head e) new =
      ground (arith, unvisited_le all (key x) allowed, eq_iff (key x) (key m), e)
  unvisited_lt (m ∷ all) x allowed (tail later) new =
      ground (arith, unvisited_lt all x allowed later new)

  pub unvisited_bound : (all : List A) (allowed : List String) → unvisited all allowed ≤ length all
  unfolding count_where
  unvisited_bound [] allowed = ground arith
  unvisited_bound (m ∷ all) allowed = ground (arith, unvisited_bound all allowed)
