-- ===== src/Menu/Tree/Rooted.antt =====
-- The pointers that the loop of buildMenuTree makes, and what hangs below the roots.
use ai_dandelion.Base.{
  String, ◌≡◌, ◌≢◌, refl, ap, sym, ◌∙◌, subst, ◌↔◌, ◌⊎◌, inl, inr, Bool, true, false, not, ◌&&◌,
  ◌||◌, List, [], ◌∷◌, ◌++◌, any, str_eq, eq_iff, is_empty, arith, Bool-cases, if◌then◌else◌,
}
use mathlib.Core.List.{Memᴰ}
use mathlib.Core.List.Memᴰ.{
  head, tail, append_left, append_right, append_cases, cases_cons, eq_of_singleton,
}
use ai_dandelion.Menu.Tree.{
  MenuView, Forest, tree, Tree, node, view_is, Links, no_links, link, link_all,
}

mutual
  -- A menu of a forest or of a tree, at any depth.
  pub data InForest (v : MenuView) : Forest → Type 0 where
    first : {t : Tree} {ts : Forest} → InTree v t → InForest v (tree t ts)
    later : {t : Tree} {ts : Forest} → InForest v ts → InForest v (tree t ts)

  pub data InTree (v : MenuView) : Tree → Type 0 where
    root : {children : Forest} → InTree v (node v children)
    below : {u : MenuView} {children : Forest} → InForest v children → InTree v (node u children)

-- No menu of the list is its parent.
abbrev pub Parentless : List MenuView → MenuView → Type 0
Parentless nodes v =
    (is_empty v.parent_id ≡ true) ⊎ ((p : MenuView) → Memᴰ p nodes → p.id ≢ v.parent_id)

-- A menu of the list with no parent in it, or with one that is rooted itself.
pub data Rooted (nodes : List MenuView) : MenuView → Type 0 where
  top : {v : MenuView} → Memᴰ v nodes → Parentless nodes v → Rooted nodes v
  child :
      {v : MenuView} (p : MenuView)
      → Rooted nodes p
      → Memᴰ v nodes
      → is_empty v.parent_id ≡ false
      → v.parent_id ≡ p.id
      → Rooted nodes v

pub rooted_member : {nodes : List MenuView} {v : MenuView} → Rooted nodes v → Memᴰ v nodes
rooted_member (top m _) = m
rooted_member (child p r m full e) = m

any_found :
    (id : String) (nodes : List MenuView)
    → any (view_is id) nodes ≡ true
    → (p : MenuView) × Memᴰ p nodes × (p.id ≡ id)
unfolding any
any_found id [] h = ground arith
any_found id (v ∷ nodes) h = elim (Bool-cases (str_eq v.id id)) [
  | inl e ↦ (v, head refl, (eq_iff v.id id).0 e)
  | inr e ↦ let (p, m, same) = any_found id nodes (ground arith) in (p, tail m, same)
]

pub any_member :
    (id : String) (nodes : List MenuView) (p : MenuView)
    → Memᴰ p nodes
    → p.id ≡ id
    → any (view_is id) nodes ≡ true
unfolding any
any_member id [] p h e = elim h [ ]
any_member id (v ∷ nodes) p (head same) e = ground (arith, eq_iff v.id id)
any_member id (v ∷ nodes) p (tail m) e = ground (arith, any_member id nodes p m e)

abbrev pub is_root : List MenuView → MenuView → Bool
is_root nodes v = is_empty v.parent_id || not (any (view_is v.parent_id) nodes)

root-Parentless :
    (nodes : List MenuView) (v : MenuView) → is_root nodes v ≡ true → Parentless nodes v
root-Parentless nodes v h = elim (Bool-cases (is_empty v.parent_id)) [
  | inl e ↦ inl e
  | inr e ↦ inr (λ p m same. let found = any_member v.parent_id nodes p m same in ground arith)
]

pub Parentless-root :
    (nodes : List MenuView) (v : MenuView) → Parentless nodes v → is_root nodes v ≡ true
Parentless-root nodes v (inl e) = ground arith
Parentless-root nodes v (inr lone) = elim (Bool-cases (any (view_is v.parent_id) nodes)) [
  | inl e ↦ let (p, m, same) = any_found v.parent_id nodes e in absurd (lone p m same)
  | inr e ↦ ground arith
]

-- The two halves of a round of the loop.
link_roots :
    (nodes : List MenuView) (v : MenuView) (l : Links)
    → (link nodes v l).roots ≡ (if is_root nodes v then l.roots ++ (v ∷ []) else l.roots)
unfolding link
link_roots nodes v l = ground arith

link_children :
    (nodes : List MenuView) (v : MenuView) (l : Links) (id : String)
    → (link nodes v l).children id ≡ (
        if not (is_root nodes v) && str_eq id v.parent_id
        then l.children id ++ (v ∷ [])
        else l.children id)
unfolding link
link_children nodes v l id = ground arith

appended_iff :
    (b : Bool) (c v : MenuView) (l : List MenuView)
    → Memᴰ c (if b then l ++ (v ∷ []) else l) ↔ (Memᴰ c l ⊎ ((c ≡ v) × (b ≡ true)))
appended_iff false c v l = (λ m. inl m, λ h. elim h [ inl m ↦ m | inr (_, e) ↦ cc ])
appended_iff true c v l = (
  λ m. elim (append_cases l m) [ inl old ↦ inl old | inr new ↦ inr (eq_of_singleton new, refl) ],
  λ h. elim h [ inl old ↦ append_left (v ∷ []) old | inr (e, _) ↦ append_right l (head e) ],
)

-- A fold that adds to a list the members that a test accepts.
module _ (nodes : List MenuView) (read : Links → List MenuView) (test : MenuView → Bool)
    (step : (v : MenuView) (l : Links)
      → read (link nodes v l) ≡ (if test v then read l ++ (v ∷ []) else read l)) where
  collected_iff :
      (vs : List MenuView) (l : Links) (c : MenuView)
      → Memᴰ c (read (link_all nodes vs l)) ↔ (Memᴰ c (read l) ⊎ (Memᴰ c vs × (test c ≡ true)))
  unfolding link_all
  collected_iff [] l c = (λ m. inl m, λ h. elim h [ inl m ↦ m | inr (m, _) ↦ elim m [ ] ])
  collected_iff (v ∷ vs) l c =
      let (there, back) = collected_iff vs (link nodes v l) c in
      let (split, join) = appended_iff (test v) c v (read l) in
      let before = λ (m : Memᴰ c (read (link nodes v l))). split (subst (Memᴰ c) (step v l) m) in
      let after = λ (m : Memᴰ c (read l) ⊎ ((c ≡ v) × (test v ≡ true))).
        subst (Memᴰ c) (sym (step v l)) (join m) in
      (
        λ m. elim (there m) [
          | inl old ↦ elim (before old) [
            | inl older ↦ inl older
            | inr (e, t) ↦ inr (head e, ap test e ∙ t)
          ]
          | inr (m', t) ↦ inr (tail m', t)
        ],
        λ h. elim h [
          | inl old ↦ back (inl (after (inl old)))
          | inr (m', t) ↦ elim (cases_cons m') [
            | inl e ↦ back (inl (after (inr (e, sym (ap test e) ∙ t))))
            | inr m'' ↦ back (inr (m'', t))
          ]
        ],
      )

-- What the loop makes of all the nodes: the roots are those without a parent, and the children of
-- an id are those that name it.
module _ (nodes : List MenuView) where
  abbrev pub made : Links
  made = link_all nodes nodes no_links

  pub roots_iff : (c : MenuView) → Memᴰ c made.roots ↔ (Memᴰ c nodes × Parentless nodes c)
  unfolding no_links
  roots_iff c =
      let (there, back) =
        collected_iff nodes (λ l. l.roots) (is_root nodes) (link_roots nodes) nodes no_links c in
      (
        λ m. elim (there m) [ inl n ↦ elim n [ ] | inr (m', t) ↦ (m', root-Parentless nodes c t) ],
        λ (m, lone). back (inr (m, Parentless-root nodes c lone)),
      )

  pub children_iff :
      (id : String) (c : MenuView)
      → Memᴰ c (made.children id) ↔ (Memᴰ c nodes × (c.parent_id ≡ id) × (is_root nodes c ≡ false))
  unfolding no_links
  children_iff id c =
      let (there, back) =
        collected_iff nodes (λ l. l.children id)
          (λ v. not (is_root nodes v) && str_eq id v.parent_id) (λ v l. link_children nodes v l id)
          nodes no_links c in
      (
        λ m. elim (there m) [
          | inl n ↦ elim n [ ]
          | inr (m', t) ↦ (m', ground (arith, eq_iff id c.parent_id), ground arith)
        ],
        λ (m, e, lone). back (inr (m, ground (arith, eq_iff id c.parent_id))),
      )

  pub child_of :
      (p c : MenuView)
      → Memᴰ p nodes
      → Memᴰ c nodes
      → is_empty c.parent_id ≡ false
      → c.parent_id ≡ p.id
      → Memᴰ c (made.children p.id)
  child_of p c mp mc full e =
      (children_iff p.id c).1 (mc, e, ground (arith, any_member c.parent_id nodes p mp (sym e)))
