-- ===== src/CountSet/Examples.antt =====
-- Runs of sodium/count_set.h.
use caesium_cxx.Base.{◌≡◌, refl, true, [], ◌∷◌, arith}
use caesium_cxx.CountSet.{
  CountSet, word_64, large, empty, strong, inc, dec, active, alive, incs, decs, run,
}
use caesium_cxx.CountSet.Refine.{view, IsValid, run-refines, IsConfig-word_64, empty-IsValid}

-- The second strong reference makes the set large, and it stays so.
abbrev three_steps : CountSet
three_steps = run word_64 (incs strong ∷ incs strong ∷ decs strong ∷ []) empty

turns_large : three_steps ≡ large (record { strong_count = 1; stream_count = 0; node_count = 0 })
unfolding empty inc dec
turns_large = refl

run-refines_example :
    (view three_steps ≡ record { strong_count = 1; stream_count = 0; node_count = 0 })
    × IsValid word_64 three_steps
    × (active three_steps ≡ true)
    × (alive three_steps ≡ true)
unfolding empty
run-refines_example =
    run-refines word_64 (incs strong ∷ incs strong ∷ decs strong ∷ []) empty IsConfig-word_64
      empty-IsValid (omega arith)
