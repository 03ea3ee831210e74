-- ===== src/Router/Routes/Leaving.antt =====
-- A route that comes and goes leaves no trace.
use caesium_cxx.Base.{
  ℕ, ◌+◌, ◌≡◌, refl, sym, ap, ◌∙◌, inl, inr, Bool, true, false, ◌||◌, Option, some, List, [], ◌∷◌,
  arith, ltb, ◌==◌, Bool-cases, Option-cases,
}
use caesium_cxx.Node.{link}
use caesium_cxx.Node.Links.{unlink_by_target-link}
use caesium_cxx.Router.{Table, insert}
use caesium_cxx.Router.Lookup.{AtLeast, Sorted, insert-Sorted}
use caesium_cxx.Router.Routes.{Routes, erase, filter_equals, leave}

-- Whether an entry has the node.
unfoldable pub routes_to : ℕ → Table → Bool
routes_to n [] = false
routes_to n ((k, m) ∷ rest) = (m == n) || routes_to n rest

-- More routes, the first one first.
unfoldable pub insert_all : List (ℕ × ℕ) → Table → Table
unfolding insert
insert_all [] t = t
insert_all ((k, m) ∷ ks) t = insert_all ks (insert k m t)

insert_below : (k m x : ℕ) (t : Table) → AtLeast x t → ltb k x ≡ true → insert k m t ≡ (k, m) ∷ t
unfolding insert AtLeast
insert_below k m x [] h p = refl
insert_below k m x ((y, n) ∷ rest) (le, h) p = ground (arith, p, le)

erase-absent : (n : ℕ) (t : Table) → routes_to n t ≡ false → erase n t ≡ t
unfolding erase routes_to
erase-absent n [] h = refl
erase-absent n ((k, m) ∷ rest) h = ground (arith, h, erase-absent n rest)

erase-own : (k n : ℕ) (t : Table) → routes_to n t ≡ false → erase n (insert k n t) ≡ t
unfolding erase routes_to insert
erase-own k n [] h = ground arith
erase-own k n ((y, m) ∷ rest) h = elim (Bool-cases (ltb k y)) [
  | inl e ↦ ground (arith, e, h)
  | inr e ↦ ground (arith, e, h, erase-own k n rest)
]

erase-other :
    (n k m : ℕ) (t : Table)
    → Sorted t
    → (m == n) ≡ false
    → erase n (insert k m t) ≡ insert k m (erase n t)
unfolding erase insert Sorted
erase-other n k m [] s h = ground (arith, h)
erase-other n k m ((y, p) ∷ rest) (s, s') h = elim (Bool-cases (ltb k y)) [
  | inl e ↦ ground (arith, e, h, insert_below k m y rest s)
  | inr e ↦ ground (arith, e, h, erase-other n k m rest s')
]

erase-insert_all :
    (ks : List (ℕ × ℕ)) (n : ℕ) (t : Table)
    → Sorted t
    → routes_to n ks ≡ false
    → erase n (insert_all ks t) ≡ insert_all ks (erase n t)
unfolding insert_all routes_to
erase-insert_all [] n t s h = refl
erase-insert_all ((k, m) ∷ ks) n t s h =
    erase-insert_all ks n (insert k m t) (insert-Sorted k m t s) (ground (arith, h))
    ∙ ap (insert_all ks) (erase-other n k m t s (ground (arith, h)))

filter_equals-parts :
    (fuel sel target : ℕ) (r r' : Routes)
    → filter_equals fuel sel r ≡ some (target, r')
    → (target ≡ r.next_node)
      × (r'.table ≡ insert sel r.next_node r.table)
      × (r'.node ≡ r.node)
      × (changed : Bool) × (link fuel r.node 0 (some r.next_node) r.graph
          ≡ some (changed, r'.graph))
unfolding filter_equals
filter_equals-parts fuel sel target r r' e =
    elim (Option-cases (link fuel r.node 0 (some r.next_node) r.graph)) [
      | inl stuck ↦ absurd (ground (arith, stuck, e))
      | inr ((changed, g), k) ↦
          let made : Routes = record r {
            table = insert sel r.next_node r.table;
            graph = g;
            next_node = r.next_node + 1;
            to_regen = r.to_regen || changed;
          } in
          let here : ◌≡◌ {A = Option (ℕ × Routes)} (some (r.next_node, made)) (some (target, r')) =
            ground (arith, k, e) in
          (
            ground (arith, here),
            ground (arith, here),
            ground (arith, here),
            changed,
            ground (arith, k, here),
          )
    ]

-- When `filter_equals` returns, on a table whose selectors do not go down and which has no entry
-- for the new node: a clean-up at once gives the node of the router, and every other node, the
-- targets that it had; and a clean-up after any more routes to other nodes leaves the table as if
-- only those had been added.
pub filter_equals-leave :
    (fuel sel target : ℕ) (r r' : Routes) (ks : List (ℕ × ℕ))
    → Sorted r.table
    → routes_to r.next_node r.table ≡ false
    → filter_equals fuel sel r ≡ some (target, r')
    → routes_to target ks ≡ false
    → ((m : ℕ) → (leave target r').graph.targets m ≡ r.graph.targets m)
      × ((leave target (record r' { table = insert_all ks r'.table })).table
          ≡ insert_all ks r.table)
unfolding leave
filter_equals-leave fuel sel target r r' ks s h e h' =
    let (et, eb, en, changed, el) = filter_equals-parts fuel sel target r r' e in
    let others : routes_to r.next_node ks ≡ false = rw (sym et) h' in
    (
      λ m.
          rw (et, en)
            (unlink_by_target-link fuel r.node 0 r.next_node r.graph r'.graph changed el m),
      rw (et, eb)
          (erase-insert_all ks r.next_node (insert sel r.next_node r.table)
              (insert-Sorted sel r.next_node r.table s) others
            ∙ ap (insert_all ks) (erase-own sel r.next_node r.table h)),
    )
