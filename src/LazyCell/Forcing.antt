-- ===== src/LazyCell/Forcing.antt =====
-- A lazy cell against one whose initial value was computed at once.
use caesium_cxx.Base.{
  ◌+◌, ◌≤◌, ◌≡◌, refl, ◌∙◌, ◌⊎◌, inl, inr, none, some, List, [], ◌∷◌, arith, Option-cases,
}
use caesium_cxx.LazyCell.{
  CellState, CellStateLazy, Op, do_sample, do_new_value, do_handle, do_finalize, new_value,
  finalize, hold_handle, hold_lazy_handle, lazy_state, sample_lazy, new_value_lazy, finalize_lazy,
  run, run_lazy,
}

module _ {V : Type 0} where
  -- A lazy state that stands for `s`: its value is there, or is still to be computed.
  record Stands (s : CellState V) (l : CellStateLazy V) : Type 0 where
    same_update : l.update ≡ s.update
    value :
        (l.current ≡ some s.current)
        ⊎ ((l.current ≡ none) × (l.p_init_a ≡ some s.current) × (l.calls ≡ 0))
    once : l.calls ≤ 1

  sample_lazy-Stands :
      (s : CellState V) (l : CellStateLazy V)
      → Stands s l
      → (l' : CellStateLazy V) × (sample_lazy l ≡ some (s.current, l')) × Stands s l'
  unfolding sample_lazy
  sample_lazy-Stands s l h = elim h.value [
    | inl there ↦ (l, rw there refl, h)
    | inr (missing, init, fresh) ↦ (
      record l { p_init_a = none; current = some s.current; calls = l.calls + 1 },
      rw (missing, init) refl,
      record { same_update = h.same_update; value = inl refl; once = omega (arith, fresh) },
    )
  ]

  new_value_lazy-Stands :
      (s : CellState V) (l : CellStateLazy V)
      → Stands s l
      → (l' : CellStateLazy V) × (new_value_lazy l ≡ some (new_value s, l')) × Stands s l'
  unfolding new_value_lazy new_value
  new_value_lazy-Stands s l h = elim (Option-cases s.update) [
    | inl none_yet ↦
        let (l', e, h') = sample_lazy-Stands s l h in
        let lazy_none : l.update ≡ none = h.same_update ∙ none_yet in
        (l', rw (lazy_none, none_yet, new_value_lazy, new_value) e, h')
    | inr (a, some_update) ↦
        let lazy_some : l.update ≡ some a = h.same_update ∙ some_update in
        (l, ground (arith, lazy_some, some_update), h)
  ]

  run_lazy-Stands :
      (ops : List (Op V)) (s : CellState V) (l : CellStateLazy V) (seen : List V)
      → Stands s l
      → run ops s ≡ some seen
      → (l' : CellStateLazy V) × (run_lazy ops l ≡ some (seen, l')) × (l'.calls ≤ 1)
  unfolding run run_lazy finalize finalize_lazy hold_handle hold_lazy_handle
  run_lazy-Stands [] s l seen h e = (l, ground (arith, e), h.once)
  run_lazy-Stands (do_sample ∷ ops) s l seen h e = elim (Option-cases (run ops s)) [
    | inl stuck ↦ absurd (ground (arith, stuck, e))
    | inr (rest, k) ↦
        let (l', e', h') = sample_lazy-Stands s l h in
        let (end, e'', once) = run_lazy-Stands ops s l' rest h' k in
        let shown : s.current ∷ rest ≡ seen = ground (arith, k, e) in
        (end, ground (arith, e', e'', shown), once)
  ]
  run_lazy-Stands (do_new_value ∷ ops) s l seen h e = elim (Option-cases (run ops s)) [
    | inl stuck ↦ absurd (ground (arith, stuck, e))
    | inr (rest, k) ↦
        let (l', e', h') = new_value_lazy-Stands s l h in
        let (end, e'', once) = run_lazy-Stands ops s l' rest h' k in
        let shown : new_value s ∷ rest ≡ seen = ground (arith, k, e) in
        (end, ground (arith, e', e'', shown), once)
  ]
  run_lazy-Stands (do_handle a ∷ ops) s l seen h e =
      run_lazy-Stands ops (hold_handle a s).1 (hold_lazy_handle a l).1 seen
        (record { same_update = refl; value = h.value; once = h.once }) e
  run_lazy-Stands (do_finalize ∷ ops) s l seen h e = elim (Option-cases s.update) [
    | inl missing ↦ absurd (ground (arith, missing, e))
    | inr (a, here) ↦
        run_lazy-Stands ops (record { current = a; update = none }) (finalize_lazy l) seen
          (record { same_update = refl; value = inl (h.same_update ∙ here); once = h.once })
          (ground (arith, here, e))
  ]

-- When a cell whose initial value was computed at once gives its readers the values `seen`, for
-- some updates, readings and finalizations, none of which finds no update, a lazy cell with the
-- same initial value gives them the same values, and has called the function for its initial
-- value at most once.
pub run_lazy-eq-run :
    {V : Type 0} (v : V) (ops : List (Op V)) (seen : List V)
    → run ops (record { current = v; update = none }) ≡ some seen
    → (l : CellStateLazy V) × (run_lazy ops (lazy_state v) ≡ some (seen, l)) × (l.calls ≤ 1)
unfolding lazy_state
run_lazy-eq-run v ops seen e =
    run_lazy-Stands ops (record { current = v; update = none }) (lazy_state v) seen
      (record { same_update = refl; value = inr (refl, refl, refl); once = omega arith }) e
