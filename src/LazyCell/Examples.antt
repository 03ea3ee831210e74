-- ===== src/LazyCell/Examples.antt =====
-- A cell that is read, updated and read again.
use caesium_cxx.Base.{ℕ, ◌≤◌, ◌≡◌, refl, some, List, [], ◌∷◌}
use caesium_cxx.LazyCell.{
  CellStateLazy, Op, do_sample, do_new_value, do_handle, do_finalize, new_value, finalize,
  hold_handle, lazy_state, run, run_lazy,
}
use caesium_cxx.LazyCell.Forcing.{run_lazy-eq-run}

abbrev two_updates : List (Op ℕ)
two_updates =
    do_sample ∷ do_handle 5 ∷ do_sample ∷ do_new_value ∷ do_handle 6 ∷ do_finalize ∷ do_sample ∷ []

run_lazy-eq-run_example :
    (l : CellStateLazy ℕ) × (run_lazy two_updates (lazy_state 4) ≡ some (4 ∷ 4 ∷ 5 ∷ 6 ∷ [], l))
    × (l.calls ≤ 1)
unfolding run new_value finalize hold_handle
run_lazy-eq-run_example = run_lazy-eq-run 4 two_updates (4 ∷ 4 ∷ 5 ∷ 6 ∷ []) refl
