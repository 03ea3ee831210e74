-- ===== src/LightPtr/Examples.antt =====
-- Runs of light_ptr.
use caesium_cxx.Base.{
  ℕ, ◌≡◌, refl, Option, none, some, List, [], ◌∷◌, arith, ◌==◌, if◌then◌else◌, zero, suc, get_elem?,
  count,
}
use caesium_cxx.LightPtr.{LightPtr, Store, creates, copies, destroys, Program, call, run}
use caesium_cxx.LightPtr.Counting.{holders}
use caesium_cxx.LightPtr.Calls.{Inv, call-Inv}

abbrev ptr : ℕ → LightPtr
ptr b = record { value = b; count = some b }

abbrev one_block : Store
one_block = record { blocks = λ b. if 0 == b then some 1 else none; next = 1; deleted = [] }

abbrev one_var : Program
one_var = record { vars = ptr 0 ∷ []; store = one_block }

one_var-Inv : Inv one_var
unfolding holders count
one_var-Inv = record {
  store = record {
    counted = λ b. ground arith;
    positive = λ b. ground arith;
    fresh = λ b h. ground arith;
    logged = λ b. ground arith;
  };
  owned = λ i x b e f. first i x b e f;
}
  where
    first :
        (i : ℕ) (x : LightPtr) (b : ℕ)
        → get_elem? (ptr 0 ∷ []) i ≡ some x
        → x.count ≡ some b
        → x.value ≡ b
    first zero x b e f = ground arith
    first (suc i) x b e f = cc

-- The last pointer to the value goes, and the value with it.
call-Inv_example : (q : Program) × (call (destroys 0) one_var ≡ some q) × Inv q
call-Inv_example = call-Inv (destroys 0) one_var one_var-Inv (ptr 0, refl)

-- Two pointers share a value until both have gone; then its deleter has run once.
abbrev after_calls : Option Program → List ℕ
after_calls none = []
after_calls (some p) = p.store.deleted

abbrev empty_program : Program
empty_program = record { vars = []; store = record { blocks = λ _. none; next = 0; deleted = [] } }

shared_then_deleted :
    after_calls (run (creates ∷ copies 0 ∷ destroys 0 ∷ destroys 1 ∷ []) empty_program) ≡ 0 ∷ []
unfolding run
shared_then_deleted = refl
