-- ===== src/Streams/Cells.antt =====
-- What a cell of experimental/sodium/sodium.h holds when it has been updated.
use caesium_cxx.Base.{ℕ, ◌≡◌, refl, true, false, none, some, [], ◌∷◌, arith, ◌==◌}
use caesium_cxx.Prioritized.{ask_last}
use caesium_cxx.Streams.{World, finalize, sample, hold_update, finalize_cell}

-- An update of a cell whose receptacle for updates holds nothing and is not that of its value:
-- the cell asks for `finalize`, and its value stays what it was until then. When `finalize` has
-- run, the cell refers to one receptacle for its value and for updates, which is empty, and its
-- lazy value is gone, so sampling it reads a value that is not there.
finalize_cell-loses :
    (c a : ℕ) (w : World)
    → ((w.cells c).value == (w.cells c).value_update) ≡ false
    → w.receptacles (w.cells c).value_update ≡ none
    → ((hold_update c a w).1 ≡ ask_last (finalize c) ∷ [])
      × (sample c (hold_update c a w).0 ≡ sample c w)
      × (sample c (finalize_cell c (hold_update c a w).0) ≡ none)
unfolding hold_update sample finalize_cell
finalize_cell-loses c a w apart empty =
    let flip : ((w.cells c).value_update == (w.cells c).value) ≡ false = ground (arith, apart) in
    let own : (c == c) ≡ true = ground arith in
    let hit : ((w.cells c).value_update == (w.cells c).value_update) ≡ true = ground arith in
    (
      rw empty refl,
      rw (flip, sample, hold_update) refl,
      rw (own, hit, sample, finalize_cell, hold_update) (rw (own, finalize_cell) refl),
    )

-- An update of a cell that has been updated in an earlier transaction: its value changes at once.
pub hold_update-at_once :
    (c a : ℕ) (w : World)
    → (w.cells c).value ≡ (w.cells c).value_update
    → sample c (hold_update c a w).0 ≡ some a
unfolding hold_update sample
hold_update-at_once c a w one =
    let hit : ((w.cells c).value == (w.cells c).value) ≡ true = ground arith in
    rw (← one, hit, sample, hold_update) refl
