-- ===== src/Router/Examples.antt =====
-- A second node for a selector that has one, and a route that goes again.
use caesium_cxx.Base.{ℕ, ◌≡◌, refl, false, none, some, [], ◌∷◌, ◌==◌, if◌then◌else◌, arith}
use caesium_cxx.Node.{ensure_bigger_than}
use caesium_cxx.Router.{Table, insert, targets}
use caesium_cxx.Router.Lookup.{AtLeast, Sorted, entries_of, targets-insert}
use caesium_cxx.Router.Routes.{Routes, filter_equals, leave}
use caesium_cxx.Router.Routes.Leaving.{routes_to, insert_all, filter_equals-leave}

abbrev routes : Table
routes = (1, 10) ∷ (2, 20) ∷ (3, 30) ∷ []

targets-insert_example :
    (targets 2 routes ≡ 20 ∷ [])
    × Sorted (insert 2 21 routes)
    × (targets 2 (insert 2 21 routes) ≡ 20 ∷ 21 ∷ [])
unfolding Sorted AtLeast entries_of targets
targets-insert_example =
    targets-insert 2 2 21 routes ((omega arith, (omega arith, tt)), ((omega arith, tt), (tt, tt)))

-- Node 0 is the router's, and no node has a listener but it.
abbrev router : Routes
router = record {
  node = 0;
  table = routes;
  graph = record {
    rank = λ n. n;
    targets = λ n. if n == 0 then record { h = 0; n = some 10 } ∷ [] else [];
    sources = λ n. [];
    listen_impl = λ n. some n;
  };
  next_node = 40;
  to_regen = false;
}

abbrev routed : Routes
unfolding filter_equals
routed = elim (filter_equals 9 2 router) [ none ↦ router | some (_, r) ↦ r ]

filter_equals-leave_example :
    ((m : ℕ) → (leave 40 routed).graph.targets m ≡ router.graph.targets m)
    × ((leave 40 (record routed { table = insert_all ((2, 41) ∷ []) routed.table })).table
        ≡ insert_all ((2, 41) ∷ []) routes)
unfolding Sorted AtLeast filter_equals routes_to ensure_bigger_than
filter_equals-leave_example =
    filter_equals-leave 9 2 40 router routed ((2, 41) ∷ [])
      ((omega arith, (omega arith, tt)), ((omega arith, tt), (tt, tt))) refl refl refl
