-- ===== src/Dynamic/Stale.antt =====
-- `switch_c` when the cell that it leaves is updated in the same transaction.
use caesium_cxx.Base.{ℕ, zero, suc, ◌≡◌, refl, Option, none, some, List, [], ◌∷◌}
use caesium_cxx.Network.{map_handler, send, handle, process, post}
use caesium_cxx.Wiring.{Stream, Cell, Build, hold, map_, value_}
use caesium_cxx.Wiring.Late.{one_node, listen_to}
use caesium_cxx.Dynamic.{Reads, plain, Machine, absorb, absorb_net, switch_c_updates, close}

pub data Value (A : Type 0) : Type 0 where
  plain_value : A → Value A
  a_cell : Cell → Value A
  unit_value : Value A

module _ {A : Type 0} (call : Value A → Value A → Value A) where
  unfoldable pub reads : Reads (Value A)
  reads = record {
    as_stream = λ v. none;
    as_cell = λ v. elim v [ a_cell c ↦ c | _ ↦ record { state = 0; updates = none } ];
    as_list = λ v. [];
    unit = unit_value;
  }

  -- A stream through as many maps that change nothing.
  abbrev pub chain : ℕ → Stream → Build (Value A) → Stream × Build (Value A)
  chain zero s b = (s, b)
  chain (suc n) s b = let (s', b') = map_ (map_handler (λ v. v)) s b in chain n s' b'

  -- Nodes 0, 1 and 2 are sources.
  abbrev pub start : Build (Value A)
  unfolding one_node
  start = record (one_node unit_value) { next_node = 3 }

  -- The cell of cells holds what node 0 fires; it starts with the cell of node 1, behind a chain
  -- of maps.
  unfoldable pub wired : ℕ → A → A → Cell × Cell × Machine (Value A)
  unfolding hold map_ switch_c_updates absorb
  wired k x y =
      let (delayed, b₀) = chain k (some 1) start in
      let (cx, b₁) = hold (plain_value x) delayed b₀ in
      let (cy, b₂) = hold (plain_value y) (some 2) b₁ in
      let (cells, b₃) = hold (a_cell cx) (some 0) b₂ in
      let (out, m) =
        switch_c_updates unit_value cells
          (record { build = b₃; kinds = λ h. plain; work = []; later = [] }) in
      let (result, b₄) = hold (plain_value x) out m.build in
      (cy, result, record m { build = listen_to unit_value out b₄ })

  -- What the listener has heard, and the values of the result and of the other cell.
  abbrev pub seen :
      Cell → Cell → Option (Machine (Value A)) → Option (List (ℕ × Value A) × Value A × Value A)
  seen result cy none = none
  seen result cy (some m) = some (
    m.build.net.heard,
    (m.build.net.cells result.state).current,
    (m.build.net.cells cy.state).current,
  )

  -- First the transaction in which all this is built; then one in which node 0 fires the cell of
  -- node 2, and node 1 fires `x'`.
  abbrev pub switching : ℕ → A → A → A → Option (List (ℕ × Value A) × Value A × Value A)
  unfolding absorb_net send close reads
  switching k x y x' =
      let (cy, result, m₀) = wired k x y in
      elim (close reads call 60 m₀) [
        | none ↦ none
        | some m₁ ↦
            let m₂ = absorb_net (send 0 (a_cell cy) m₁.build.net) m₁ in
            let m₃ = absorb_net (send 1 (plain_value x') m₂.build.net) m₂ in
            seen result cy (close reads call 60 m₃)
      ]

  -- A cell of cells goes over from a cell with the value `x` to one with the value `y`, in a
  -- transaction in which the first cell is updated to `x'`. Where the update has a short way,
  -- `switch_c` fires it first and `y` last, and the result has the value `y`, as it should. Where
  -- the update comes through eight maps, `switch_c` fires `x'` last, and the result keeps the
  -- value `x'` of the cell that it has left, while the cell that it has gone over to has the
  -- value `y`.
  pub switching-stale :
      (x y x' : A)
      → (switching 0 x y x'
          ≡ some (
            (0, plain_value x) ∷ (0, plain_value x') ∷ (0, plain_value y) ∷ [],
            plain_value y,
            plain_value y,
          ))
        × (switching 8 x y x'
            ≡ some (
              (0, plain_value x) ∷ (0, plain_value y) ∷ (0, plain_value x') ∷ [],
              plain_value x',
              plain_value y,
            ))
  unfolding absorb_net send close reads wired value_ start handle process post
  switching-stale x y x' = (refl, refl)
