-- ===== src/Promise/Examples.antt =====
-- A promise of numbers.
use caesium_cxx.Base.{ℕ, ◌≡◌, none, some, [], ◌∷◌}
use caesium_cxx.Network.{Net}
use caesium_cxx.Api.Folding.{fire_each}
use caesium_cxx.Promise.{Value, plain, optional}
use caesium_cxx.Promise.Delivery.{promised, promise-keeps_first}

-- No value is a function here.
abbrev ignore : Value ℕ → Value ℕ → Value ℕ
ignore f x = x

promise-keeps_first_example :
    (((promised {A = ℕ}).net.cells 0).current ≡ optional none)
    × (s : Net (Value ℕ)) × (fire_each ignore 5
          (plain 7 ∷ plain 8 ∷ plain 9 ∷ [])
          (promised {A = ℕ}).net
        ≡ some s)
    × (s.cells 0 ≡ record { current = optional (some 7); update = none })
    × (s.heard ≡ (0, plain 7) ∷ [])
promise-keeps_first_example = promise-keeps_first ignore 0 7 (8 ∷ 9 ∷ [])
