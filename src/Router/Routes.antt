-- ===== src/Router/Routes.antt =====
-- `filter_equals` of sodium/router.h, with the clean-up of the stream that it gives.
pub mod Leaving
use caesium_cxx.Base.{ℕ, ◌+◌, Bool, ◌||◌, Option, none, some, List, [], ◌∷◌, ◌==◌, if◌then◌else◌}
use caesium_cxx.Node.{Graph, link, unlink_by_target}
use caesium_cxx.Router.{Table, insert}

-- A `routing_table` whose `node` is `node`, the graph of all nodes, and whether the transaction
-- is to sort its queue again. Nodes are made in the order of their numbers.
pub record Routes : Type 0 where
  pub node : ℕ
  pub table : Table
  pub graph : Graph
  pub next_node : ℕ
  pub to_regen : Bool

-- `table->table.erase(it)`; the iterator is that of the entry with the node, which only one has.
unfoldable pub erase : ℕ → Table → Table
erase n [] = []
erase n ((k, m) ∷ rest) = let erased = erase n rest in if m == n then rest else (k, m) ∷ erased

-- A router that has its table; the node of the new stream is given back, as the key of the
-- clean-up. The holder of the link is null, which has address 0.
unfoldable pub filter_equals : ℕ → ℕ → Routes → Option (ℕ × Routes)
unfolding insert link
filter_equals fuel sel r = elim (link fuel r.node 0 (some r.next_node) r.graph) [
  | none ↦ none
  | some (changed, g) ↦ some (
    r.next_node,
    record r {
      table = insert sel r.next_node r.table;
      graph = g;
      next_node = r.next_node + 1;
      to_regen = r.to_regen || changed;
    },
  )
]

-- What the clean-up leaves to the end of its transaction.
unfoldable pub leave : ℕ → Routes → Routes
unfolding erase unlink_by_target
leave target r = record r {
  table = erase target r.table;
  graph = unlink_by_target r.node (some target) r.graph;
}
