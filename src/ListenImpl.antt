-- ===== src/ListenImpl.antt =====
-- `listen_impl_func` of sodium/sodium_base.h: what keeps a stream's listen function, and the
-- clean-ups that run when nobody can reach the stream any more. The reference counting is that of
-- `intrusive_ptr_add_ref` and `intrusive_ptr_release` in sodium/transaction.cpp. The spin lock
-- makes each stretch between `lock` and `unlock` one step and has no state of its own here.
pub mod Teardown
pub mod Examples
use caesium_cxx.Base.{
  ℕ, zero, suc, Bool, true, false, not, ◌&&◌, Option, none, some, List, [], ◌∷◌, ◌++◌,
  if◌then◌else◌,
}
use caesium_cxx.CountSet.{CountSet, Widths, Kind, strong, active, alive, inc, dec, Op, incs, decs}

-- A clean-up function: its name, and the references to this same object that it takes (`incs`)
-- and drops (`decs`) while it runs.
pub record Cleanup : Type 0 where
  pub name : ℕ
  pub refs : List Op

pub record ListenImpl : Type 0 where
  pub counts : CountSet
  -- `func != NULL`
  pub func : Bool
  pub cleanups : List Cleanup
  -- The clean-ups that have run, oldest first, and whether `delete this` has been reached.
  pub ran : List ℕ
  pub freed : Bool

infixl 5 ◌>>=◌
abbrev ◌>>=◌ : Option ListenImpl → (ListenImpl → Option ListenImpl) → Option ListenImpl
none >>= f = none
some s >>= f = f s

module _ (w : Widths) where
  -- `intrusive_ptr_add_ref`, and `intrusive_ptr_release` over the given `update_and_unlock`
  apply_ref : (ListenImpl → Option ListenImpl) → Op → ListenImpl → Option ListenImpl
  apply_ref update (incs k) s = some (record s { counts = inc w k s.counts })
  apply_ref update (decs k) s = update (record s { counts = dec w k s.counts })

  run_refs : (ListenImpl → Option ListenImpl) → List Op → ListenImpl → Option ListenImpl
  run_refs update [] s = some s
  run_refs update (r ∷ rs) s = apply_ref update r s >>= λ t. run_refs update rs t

  -- `(**it)(); delete *it;` for each clean-up
  run_cleanups : (ListenImpl → Option ListenImpl) → List Cleanup → ListenImpl → Option ListenImpl
  run_cleanups update [] s = some s
  run_cleanups update (c ∷ cs) s = run_refs update c.refs s >>= λ t.
      run_cleanups update cs (record t { ran = t.ran ++ c.name ∷ [] })

  tear_down : (ListenImpl → Option ListenImpl) → ListenImpl → Option ListenImpl
  unfolding run_cleanups run_refs apply_ref
  tear_down update s =
      run_cleanups update s.cleanups (record s { counts = inc w strong s.counts }) >>= λ t.
      some (record t { cleanups = []; func = false; counts = dec w strong t.counts })

  -- `if (!counts.alive()) { l->unlock(); delete this; }`
  free_dead : ListenImpl → Option ListenImpl
  free_dead s = some (if alive s.counts then s else record s { freed = true })

  -- `update_and_unlock`. The fuel bounds how deep clean-ups release references to their own
  -- object; `none` means that it ran out.
  pub update_and_unlock : ℕ → ListenImpl → Option ListenImpl
  unfolding tear_down free_dead
  update_and_unlock zero s = none
  update_and_unlock (suc fuel) s = elim (s.func && not (active s.counts)) [
    | true ↦ tear_down (update_and_unlock fuel) s >>= free_dead
    | false ↦ free_dead s
  ]

  pub release : ℕ → Kind → ListenImpl → Option ListenImpl
  release fuel k s = update_and_unlock fuel (record s { counts = dec w k s.counts })

  -- `stream_::unsafe_add_cleanup` with one clean-up; the forms with two and three do this for each
  -- in turn. On a dead stream the clean-up runs at once.
  pub unsafe_add_cleanup : ℕ → Cleanup → ListenImpl → Option ListenImpl
  unfolding run_cleanups
  unsafe_add_cleanup fuel c s = elim s.func [
    | true ↦ some (record s { cleanups = c ∷ s.cleanups })
    | false ↦ run_cleanups (update_and_unlock fuel) (c ∷ []) s
  ]
