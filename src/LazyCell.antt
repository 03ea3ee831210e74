-- ===== src/LazyCell.antt =====
-- `cell_state`, `cell_state_lazy` and `cell_impl_loop` of sodium/sodium_base.h, with the handlers
-- of `hold` and `hold_lazy` of sodium/sodium.h. `none` as the result of an operation is a null
-- pointer or an empty optional that is followed, or an exception.
pub mod Forcing
pub mod Examples
use caesium_cxx.Base.{ℕ, ◌+◌, Bool, Option, none, some, List, [], ◌∷◌, is_some, not}

module _ (V : Type 0) where
  -- `cell_state`
  pub record CellState : Type 0 where
    pub current : V
    pub update : Option V

  -- `cell_state_lazy`; `p_init_a` (pInitA) has the value that its function gives, and `calls`
  -- counts how often that function was called.
  pub record CellStateLazy : Type 0 where
    pub p_init_a : Option V
    pub current : Option V
    pub update : Option V
    pub calls : ℕ

  -- The operations; the handler gives the update.
  pub data Op : Type 0 where
    do_sample : Op
    do_new_value : Op
    do_handle : V → Op
    do_finalize : Op

-- `cell_impl_loop`, for either of the two readers: `pLooped` is the cell that it was looped to.
unfoldable pub loop_sample : {C R : Type 0} → (C → Option R) → Option C → Option R
loop_sample sample none = none
loop_sample sample (some c) = sample c

module _ {V : Type 0} where
  unfoldable pub new_value : CellState V → V
  new_value s = elim s.update [ some a ↦ a | none ↦ s.current ]

  unfoldable pub finalize : CellState V → Option (CellState V)
  finalize s = elim s.update [ none ↦ none | some a ↦ some (record { current = a; update = none }) ]

  -- The handlers: whether `finalize` is asked for, and the update.
  unfoldable pub hold_handle : V → CellState V → Bool × CellState V
  hold_handle a s = (not (is_some s.update), record s { update = some a })

  unfoldable pub hold_lazy_handle : V → CellStateLazy V → Bool × CellStateLazy V
  hold_lazy_handle a s = (not (is_some s.update), record s { update = some a })

  -- `cell_state_lazy(initA)`
  unfoldable pub lazy_state : V → CellStateLazy V
  lazy_state v = record { p_init_a = some v; current = none; update = none; calls = 0 }

  -- `cell_state_lazy(cell_state_lazy&&)`: what was moved, and what is left.
  unfoldable pub move_lazy : CellStateLazy V → CellStateLazy V × CellStateLazy V
  move_lazy s = (s, record s { p_init_a = none })

  unfoldable pub sample_lazy : CellStateLazy V → Option (V × CellStateLazy V)
  sample_lazy s = elim s.current [
    | some a ↦ some (a, s)
    | none ↦ elim s.p_init_a [
      | none ↦ none
      | some v ↦ some (v, record s { p_init_a = none; current = some v; calls = s.calls + 1 })
    ]
  ]

  unfoldable pub new_value_lazy : CellStateLazy V → Option (V × CellStateLazy V)
  unfolding sample_lazy
  new_value_lazy s = elim s.update [ some a ↦ some (a, s) | none ↦ sample_lazy s ]

  unfoldable pub finalize_lazy : CellStateLazy V → CellStateLazy V
  finalize_lazy s = record s { current = s.update; update = none }

  -- What the readers of a cell see, in order, of a list of operations.
  unfoldable pub run : List (Op V) → CellState V → Option (List V)
  unfolding new_value finalize hold_handle
  run [] s = some []
  run (do_sample ∷ ops) s = elim (run ops s) [ none ↦ none | some seen ↦ some (s.current ∷ seen) ]
  run (do_new_value ∷ ops) s = elim (run ops s) [
    | none ↦ none
    | some seen ↦ some (new_value s ∷ seen)
  ]
  run (do_handle a ∷ ops) s = run ops (hold_handle a s).1
  run (do_finalize ∷ ops) s = elim (finalize s) [ none ↦ none | some s' ↦ run ops s' ]

  unfoldable pub run_lazy : List (Op V) → CellStateLazy V → Option (List V × CellStateLazy V)
  unfolding sample_lazy new_value_lazy finalize_lazy hold_lazy_handle
  run_lazy [] s = some ([], s)
  run_lazy (do_sample ∷ ops) s = elim (sample_lazy s) [
    | none ↦ none
    | some (a, s') ↦ elim (run_lazy ops s') [
      | none ↦ none
      | some (seen, end) ↦ some (a ∷ seen, end)
    ]
  ]
  run_lazy (do_new_value ∷ ops) s = elim (new_value_lazy s) [
    | none ↦ none
    | some (a, s') ↦ elim (run_lazy ops s') [
      | none ↦ none
      | some (seen, end) ↦ some (a ∷ seen, end)
    ]
  ]
  run_lazy (do_handle a ∷ ops) s = run_lazy ops (hold_lazy_handle a s).1
  run_lazy (do_finalize ∷ ops) s = run_lazy ops (finalize_lazy s)
