-- ===== src/Api/Examples.antt =====
-- The operators at concrete inputs.
use caesium_cxx.Base.{ℕ, ◌+◌, ◌≡◌, refl, Bool, not, Option, none, some, List, [], ◌∷◌}
use caesium_cxx.Network.{Net, is_empty}
use caesium_cxx.Api.Folding.{summed, total, fire_each, accum-folds}
use caesium_cxx.Api.Gating.{gated, run_all, let_through, gate-sees_old}

abbrev second : ℕ → ℕ → ℕ
second x y = y

accum-folds_example :
    (s : Net ℕ) × (fire_each second 3 (4 ∷ 5 ∷ 6 ∷ []) (summed (λ a total. a + total) 1).net
      ≡ some s)
    × (s.cells 0 ≡ record { current = 16; update = none })
unfolding total
accum-folds_example = accum-folds second (λ a total. a + total) 0 1 (4 ∷ 5 ∷ 6 ∷ [])

-- Lists of numbers carry a truth value, and an optional list.
abbrev as_bool : List ℕ → Bool
as_bool v = not (is_empty v)

abbrev wrap : Option (List ℕ) → List ℕ
wrap none = []
wrap (some v) = 0 ∷ v

abbrev contents : List ℕ → Option (List ℕ)
contents [] = none
contents (_ ∷ v) = some v

contents-wrap : (o : Option (List ℕ)) → contents (wrap o) ≡ o
contents-wrap none = refl
contents-wrap (some v) = refl

abbrev yes : List ℕ
yes = 1 ∷ []

abbrev first : List ℕ → List ℕ → List ℕ
first v w = v

-- The gate is closed, then open twice, then closed.
gate-sees_old_example :
    (s : Net (List ℕ)) × (run_all first 5
        ((yes, 5 ∷ []) ∷ (yes, 6 ∷ []) ∷ ([], 7 ∷ []) ∷ (yes, 8 ∷ []) ∷ [])
        (gated as_bool wrap contents [] []).net
      ≡ some s)
    × (s.heard ≡ (0, 6 ∷ []) ∷ (0, 7 ∷ []) ∷ [])
unfolding let_through
gate-sees_old_example =
    gate-sees_old first as_bool wrap contents contents-wrap 0 [] []
      ((yes, 5 ∷ []) ∷ (yes, 6 ∷ []) ∷ ([], 7 ∷ []) ∷ (yes, 8 ∷ []) ∷ [])
