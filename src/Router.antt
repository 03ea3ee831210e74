-- ===== src/Router.antt =====
-- The routing table of sodium/router.h: a multimap from selectors to nodes, and the handler that
-- looks an event's selector up in it. Selectors are natural numbers.
pub mod Lookup
pub mod Routes
pub mod Examples
use caesium_cxx.Base.{ℕ, Bool, true, false, List, [], ◌∷◌, ltb, ◌==◌, if◌then◌else◌}
use caesium_cxx.Network.{Net, send}

-- `table` of `routing_table`, in the order of a `std::multimap`
abbrev pub Table : Type 0
Table = List (ℕ × ℕ)

-- `table->table.insert` in `filter_equals`: behind the entries with the same selector.
unfoldable pub insert : ℕ → ℕ → Table → Table
insert sel n [] = (sel, n) ∷ []
insert sel n ((k, m) ∷ rest) =
    let inserted = insert sel n rest in
    if ltb sel k then (sel, n) ∷ (k, m) ∷ rest else (k, m) ∷ inserted

unfoldable pub lower_bound : ℕ → Table → Table
lower_bound sel [] = []
lower_bound sel ((k, m) ∷ rest) =
    let below = lower_bound sel rest in if ltb k sel then below else (k, m) ∷ rest

-- The loop of `router_handler::handle` from an iterator on.
unfoldable pub take_equal : ℕ → Table → List ℕ
take_equal sel [] = []
take_equal sel ((k, m) ∷ rest) = let more = take_equal sel rest in if k == sel then m ∷ more else []

unfoldable pub targets : ℕ → Table → List ℕ
unfolding lower_bound take_equal
targets sel table = take_equal sel (lower_bound sel table)

module _ {V : Type 0} where
  unfoldable pub send_each : List ℕ → V → Net V → Net V
  unfolding send
  send_each [] a s = s
  send_each (n ∷ ns) a s = send_each ns a (send n a s)

  -- `router_handler::handle`
  unfoldable pub handle : (V → ℕ) → Table → V → Net V → Net V
  unfolding targets send_each
  handle f table a s = send_each (targets (f a) table) a s
