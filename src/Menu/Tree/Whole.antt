-- ===== src/Menu/Tree/Whole.antt =====
-- buildMenuTree returns the menus that hang from a root, and all of them.
use ai_dandelion.Base.{
  ℕ, zero, suc, ◌≤◌, String, ◌≡◌, refl, ap, sym, ◌∙◌, subst, ◌↔◌, ◌⊎◌, inl, inr, true, false, List,
  [], ◌∷◌, length, any, str_eq, eq_iff, arith, Bool-cases, if◌then◌else◌,
}
use mathlib.Core.Bool.{false≢true}
use mathlib.Core.List.{Memᴰ}
use mathlib.Core.List.Memᴰ.{head, tail, cases_cons}
use ai_dandelion.Menu.Access.{has}
use ai_dandelion.Menu.Access.Count.{unvisited, unvisited_lt, unvisited_bound}
use ai_dandelion.Menu.Tree.{
  MenuView, view_of, Forest, no_trees, tree, Tree, menu_less, view_is, trees_of, tree_at,
  insert_tree, sort_trees, distinct, links_of, build_menu_tree,
}
use ai_dandelion.Menu.Tree.Rooted.{
  InForest, first, later, InTree, root, below, Rooted, top, child, rooted_member, Parentless-root,
  any_member, is_root, made, roots_iff, children_iff, child_of,
}

insert_tree_iff :
    (v : MenuView) (t : Tree) (ts : Forest)
    → InForest v (insert_tree t ts) ↔ (InTree v t ⊎ InForest v ts)
unfolding insert_tree
insert_tree_iff v t no_trees = (
  λ m. elim m [ first i ↦ inl i | later f ↦ inr f ],
  λ h. elim h [ inl i ↦ first i | inr f ↦ later f ],
)
insert_tree_iff v t (tree x xs) = elim (Bool-cases (menu_less (view_of x) (view_of t))) [
  | inl e ↦ rw e (
      let (there, back) = insert_tree_iff v t xs in
      (
        λ m. elim m [
          | first i ↦ inr (first i)
          | later f ↦ elim (there f) [ inl i ↦ inl i | inr g ↦ inr (later g) ]
        ],
        λ h. elim h [
          | inl i ↦ later (back (inl i))
          | inr (first i) ↦ first i
          | inr (later f) ↦ later (back (inr f))
        ],
      ))
  | inr e ↦ rw e (
    (λ m. elim m [ first i ↦ inl i | later f ↦ inr f ]),
    λ h. elim h [ inl i ↦ first i | inr f ↦ later f ],
  )
]

pub sort_trees_iff : (v : MenuView) (ts : Forest) → InForest v (sort_trees ts) ↔ InForest v ts
unfolding sort_trees
sort_trees_iff v no_trees = (λ m. m, λ m. m)
sort_trees_iff v (tree t ts) =
    let (there, back) = sort_trees_iff v ts in
    let (split, join) = insert_tree_iff v t (sort_trees ts) in
    (
      λ m. elim (split m) [ inl i ↦ first i | inr f ↦ later (there f) ],
      λ m. elim m [ first i ↦ join (inl i) | later f ↦ join (inr (back f)) ],
    )

module _ (f : MenuView → Tree) (v : MenuView) where
  in_trees :
      (vs : List MenuView)
      → InForest v (trees_of f vs)
      → (u : MenuView) × Memᴰ u vs × InTree v (f u)
  unfolding trees_of
  in_trees [] m = elim m [ ]
  in_trees (u ∷ vs) (first i) = (u, head refl, i)
  in_trees (u ∷ vs) (later m) = let (x, member, i) = in_trees vs m in (x, tail member, i)

  trees_have :
      (vs : List MenuView) (u : MenuView) → Memᴰ u vs → InTree v (f u) → InForest v (trees_of f vs)
  unfolding trees_of
  trees_have [] u m i = elim m [ ]
  trees_have (x ∷ vs) u (head e) i = first (subst (λ y. InTree v (f y)) e i)
  trees_have (x ∷ vs) u (tail m) i = later (trees_have vs u m i)

at_root :
    (children : String → List MenuView) (n : ℕ) (v : MenuView) → InTree v (tree_at children n v)
unfolding tree_at
at_root children zero v = root
at_root children (suc n) v = root

-- The ids of a list are of one menu each.
abbrev pub Unique : List MenuView → Type 0
Unique nodes = (a b : MenuView) → Memᴰ a nodes → Memᴰ b nodes → a.id ≡ b.id → a ≡ b

module _ (nodes : List MenuView) where
  below-Rooted :
      (n : ℕ) (v x : MenuView)
      → Rooted nodes v
      → InTree x (tree_at (made nodes).children n v)
      → Rooted nodes x
  unfolding tree_at
  below-Rooted zero v _ r root = r
  below-Rooted zero v x r (below m) = elim m [ ]
  below-Rooted (suc n) v _ r root = r
  below-Rooted (suc n) v x r (below m) =
      let (u, member, i) = in_trees (tree_at (made nodes).children n) x _ m in
      let (mu, e, lone) = (children_iff nodes v.id u).0 member in
      below-Rooted n u x (child v r mu (ground arith) e) i

  -- On the way down from a root: the ids above `v` do not have its own, and those of them that
  -- have a parent have it above `v` too, as has `v`.
  record PathTo (v : MenuView) (above : List String) : Type 0 where
    member : Memᴰ v nodes
    new : has v.id above ≡ false
    upward : is_root nodes v ≡ false → has v.parent_id above ≡ true
    closed :
        (x : MenuView)
        → Memᴰ x nodes
        → has x.id above ≡ true
        → is_root nodes x ≡ false
        → has x.parent_id above ≡ true

  path_down :
      Unique nodes
      → (v c : MenuView) (above : List String) → PathTo v above
      → Memᴰ c ((made nodes).children v.id)
      → PathTo c (v.id ∷ above)
  unfolding has
  path_down unique v c above p m =
      let (mc, e, lone) = (children_iff nodes v.id c).0 m in
      record {
        member = mc;
        new = elim (Bool-cases (has c.id (v.id ∷ above))) [
          | inl h ↦ elim (Bool-cases (str_eq v.id c.id)) [
            | inl s ↦
                let same = unique c v mc p.member (sym ((eq_iff v.id c.id).0 s)) in
                let up = p.upward (subst (λ x. is_root nodes x ≡ false) same lone) in
                let own : v.parent_id ≡ v.id = sym (ap (λ x. x.parent_id) same) ∙ e in
                absurd (false≢true (sym p.new ∙ sym (ap (λ x. has x above) own) ∙ up))
            | inr s ↦
                let up = p.closed c mc (ground arith) lone in
                absurd (false≢true (sym p.new ∙ sym (ap (λ x. has x above) e) ∙ up))
          ]
          | inr h ↦ h
        ];
        upward = λ _. ground (arith, eq_iff v.id c.parent_id);
        closed = λ x mx h other. elim (Bool-cases (str_eq v.id x.id)) [
          | inl s ↦
              let same = unique x v mx p.member (sym ((eq_iff v.id x.id).0 s)) in
              let up = p.upward (subst (λ y. is_root nodes y ≡ false) same other) in
              let up' = subst (λ y. has y.parent_id above ≡ true) (sym same) up in ground arith
          | inr s ↦ let up = p.closed x mx (ground arith) other in ground arith
        ];
      }

  -- With enough fuel a tree has the children of each of its menus.
  tree_at-closed :
      Unique nodes
      → (n : ℕ) (v : MenuView) (above : List String) → PathTo v above
      → unvisited (λ x. x.id) nodes above ≤ n
      → (p c : MenuView) → InTree p (tree_at (made nodes).children n v)
      → Memᴰ c ((made nodes).children p.id)
      → InTree c (tree_at (made nodes).children n v)
  unfolding tree_at
  tree_at-closed unique zero v above path h p c i m =
      absurd (omega (arith, unvisited_lt (λ x. x.id) nodes v above path.member path.new))
  tree_at-closed unique (suc n) v above path h p c root m =
      below (trees_have (tree_at (made nodes).children n) c _ c m (at_root _ n c))
  tree_at-closed unique (suc n) v above path h p c (below f) m =
      let (u, member, i) = in_trees (tree_at (made nodes).children n) p _ f in
      let less = unvisited_lt (λ x. x.id) nodes v above path.member path.new in
      let inside =
        tree_at-closed unique n u (v.id ∷ above) (path_down unique v u above path member)
          (omega arith) p c i m in
      below (trees_have (tree_at (made nodes).children n) c _ u member inside)

  root_path : (v : MenuView) → Memᴰ v (made nodes).roots → PathTo v []
  unfolding has
  root_path v m =
      let (member, lone) = (roots_iff nodes v).0 m in
      record {
        member = member;
        new = refl;
        upward = λ h. absurd (false≢true (sym h ∙ Parentless-root nodes v lone));
        closed = λ x mx h other. absurd (false≢true h);
      }

  -- What the pointers of a list make of it, for any fuel that is at least its length.
  made_iff :
      Unique nodes
      → (n : ℕ) → length nodes ≤ n
      → (v : MenuView)
      → InForest v (trees_of (tree_at (made nodes).children n) (made nodes).roots) ↔ Rooted nodes v
  made_iff unique n h v = (
    λ m.
        let (u, member, i) = in_trees (tree_at (made nodes).children n) v _ m in
        let (mu, lone) = (roots_iff nodes u).0 member in below-Rooted n u v (top mu lone) i,
    made_all,
  )
    where
      made_all :
          {x : MenuView}
          → Rooted nodes x
          → InForest x (trees_of (tree_at (made nodes).children n) (made nodes).roots)
      made_all {x} (top m lone) =
          trees_have (tree_at (made nodes).children n) x _ x ((roots_iff nodes x).1 (m, lone))
            (at_root _ n x)
      made_all {x} (child p r m full e) =
          let (u, member, i) = in_trees (tree_at (made nodes).children n) p _ (made_all r) in
          let c = child_of nodes p x (rooted_member r) m full e in
          let bound = unvisited_bound (λ y. y.id) nodes [] in
          trees_have (tree_at (made nodes).children n) x _ u member
            (tree_at-closed unique n u [] (root_path u member) (omega arith) p x i c)

pub distinct_member : (v : MenuView) (vs : List MenuView) → Memᴰ v (distinct vs) → Memᴰ v vs
unfolding distinct
distinct_member v [] m = m
distinct_member v (x ∷ vs) m = elim (Bool-cases (any (view_is x.id) vs)) [
  | inl e ↦
      tail (
        distinct_member v vs (subst (λ b. Memᴰ v (if b then distinct vs else x ∷ distinct vs)) e m))
  | inr e ↦
      elim (cases_cons (subst (λ b. Memᴰ v (if b then distinct vs else x ∷ distinct vs)) e m)) [
        | inl same ↦ head same
        | inr m' ↦ tail (distinct_member v vs m')
      ]
]

distinct-Unique : (vs : List MenuView) → Unique (distinct vs)
unfolding distinct
distinct-Unique [] = λ a b ma mb e. elim ma [ ]
distinct-Unique (x ∷ vs) = elim (Bool-cases (any (view_is x.id) vs)) [
  | inl h ↦ rw h (distinct-Unique vs)
  | inr h ↦ rw h (λ a b ma mb e. elim (cases_cons ma) [
    | inl sa ↦ elim (cases_cons mb) [
      | inl sb ↦ sa ∙ sym sb
      | inr lb ↦ absurd (
          false≢true
            (sym h ∙ any_member x.id vs b (distinct_member b vs lb) (sym e ∙ ap (λ y. y.id) sa)))
    ]
    | inr la ↦ elim (cases_cons mb) [
      | inl sb ↦ absurd (
          false≢true
            (sym h ∙ any_member x.id vs a (distinct_member a vs la) (e ∙ ap (λ y. y.id) sb)))
      | inr lb ↦ distinct-Unique vs a b la lb e
    ]
  ])
]

distinct_le : (vs : List MenuView) → length (distinct vs) ≤ length vs
unfolding distinct
distinct_le [] = omega arith
distinct_le (x ∷ vs) = ground (arith, distinct_le vs)

Rooted-same :
    (a b : List MenuView)
    → ((x : MenuView) → Memᴰ x a ↔ Memᴰ x b)
    → {v : MenuView} → Rooted a v
    → Rooted b v
Rooted-same a b same {v} (top m (inl e)) = top ((same v).0 m) (inl e)
Rooted-same a b same {v} (top m (inr lone)) =
    top ((same v).0 m) (inr (λ p mp. lone p ((same p).1 mp)))
Rooted-same a b same {v} (child p r m full e) =
    child p (Rooted-same a b same r) ((same v).0 m) full e

-- The order in which a loop ranges over a map meets each entry once.
abbrev pub IsOrder : (List MenuView → List MenuView) → Type 0
IsOrder order =
    (l : List MenuView)
    → ((x : MenuView) → Memᴰ x (order l) ↔ Memᴰ x l) × (length (order l) ≡ length l)

module _ (order : List MenuView → List MenuView) where
  -- buildMenuTree returns, at some depth, exactly the menus that hang from a root: those of the map
  -- whose parent is not in it, and those whose parent is in the tree. It does so whatever the order
  -- in which the loop ranges over the map, and leaves out the menus whose parents form a circle.
  pub build_menu_tree-Rooted :
      IsOrder order
      → (items : List MenuView) (v : MenuView)
      → InForest v (build_menu_tree order items) ↔ Rooted (distinct items) v
  unfolding build_menu_tree links_of
  build_menu_tree-Rooted whole items v =
      let (same, size) = whole (distinct items) in
      let nodes = order (distinct items) in
      let unique : Unique nodes =
        λ a b ma mb e. distinct-Unique items a b ((same a).0 ma) ((same b).0 mb) e in
      let small = distinct_le items in
      let (there, back) = made_iff nodes unique (length items) (omega arith) v in
      let (unsort, sort) =
        sort_trees_iff v
          (trees_of (tree_at (made nodes).children (length items)) (made nodes).roots) in
      (
        λ m. Rooted-same nodes (distinct items) same (there (unsort m)),
        λ r. sort (back (Rooted-same (distinct items) nodes (λ x. ((same x).1, (same x).0)) r)),
      )
