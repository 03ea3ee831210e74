-- ===== src/Prioritized/Nodes.antt =====
-- `node_t` of experimental/sodium/transaction.h and `link_to`, `unlink_to` and
-- `ensure_bigger_than` of experimental/sodium/transaction.cpp. Nodes and actions are named by
-- numbers.
use caesium_cxx.Base.{
  ℕ, zero, suc, ◌+◌, ◌%◌, ◌^◌, Bool, true, false, ◌||◌, Option, none, some, List, [], ◌∷◌, ◌++◌,
  ltb, ◌==◌, if◌then◌else◌, contains, update,
}
use caesium_cxx.Node.{Walk}

-- `rank_t` and `target_ref_t` have 32 bits.
abbrev pub word_mod : ℕ
word_mod = 2 ^ 32

-- `node_t::target_t`
pub record Listener : Type 0 where
  pub action : ℕ
  pub node : ℕ
  pub target_ref : ℕ

-- All nodes, whether the reference to each has been assigned, and the static `next_target_ref`.
pub record Nodes : Type 0 where
  pub rank : ℕ → ℕ
  pub listeners : ℕ → List Listener
  pub has_node : ℕ → Bool
  pub next_target_ref : ℕ

module _ (listeners : ℕ → List Listener) where
  -- The loop over the listeners of `this`
  unfoldable pub raise_listeners :
      (ℕ → ℕ → Walk → Option (Bool × Walk)) → ℕ → List Listener → Walk → Option Walk
  raise_listeners raise this [] w = some w
  raise_listeners raise this (t ∷ ts) w = elim (raise t.node (w.rank this) w) [
    | none ↦ none
    | some (_, w') ↦ raise_listeners raise this ts w'
  ]

  -- `ensure_bigger_than` with the set of visited nodes; the fuel bounds the depth of the walk.
  unfoldable pub ensure_bigger : ℕ → ℕ → ℕ → Walk → Option (Bool × Walk)
  unfolding raise_listeners
  ensure_bigger zero this limit w = none
  ensure_bigger (suc fuel) this limit w =
      elim (ltb limit (w.rank this) || contains this w.visited) [
        | true ↦ some (false, w)
        | false ↦
            elim (raise_listeners (ensure_bigger fuel) this (listeners this) (record {
              rank = update w.rank this ((limit + 1) % word_mod);
              visited = this ∷ w.visited;
            })) [ none ↦ none | some w' ↦ some (true, w') ]
      ]

-- `link_to`: whether ranks changed, and the new `target_ref`.
unfoldable pub link_to : ℕ → ℕ → ℕ → ℕ → Nodes → Option (Bool × ℕ × Nodes)
unfolding ensure_bigger
link_to fuel node action target s =
    elim (ensure_bigger s.listeners fuel target (s.rank node)
      (record { rank = s.rank; visited = [] })) [
        | none ↦ none
        | some (changed, w) ↦
            let ref = (s.next_target_ref + 1) % word_mod in
            some (
              changed,
              ref,
              record {
                rank = w.rank;
                listeners = update s.listeners node (
                    s.listeners node
                    ++ (record { action = action; node = target; target_ref = ref } ∷ []));
                has_node = s.has_node;
                next_target_ref = ref;
              },
            )
      ]

-- The loop of `unlink_to`: whether a listener was left out, and the others.
unfoldable pub leave_out : ℕ → List Listener → Bool × List Listener
leave_out ref [] = (false, [])
leave_out ref (t ∷ ts) =
    let (changed, rest) = leave_out ref ts in
    if t.target_ref == ref then (true, rest) else (changed, t ∷ rest)

unfoldable pub unlink_to : ℕ → ℕ → Nodes → Nodes
unfolding leave_out
unlink_to node ref s = elim (s.has_node node) [
  | false ↦ s
  | true ↦
      let (changed, kept) = leave_out ref (s.listeners node) in
      if changed then (record s { listeners = update s.listeners node kept }) else s
]
