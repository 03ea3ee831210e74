-- ===== src/MergeTree/Examples.antt =====
-- Five streams, merged by `merge` of two.
use caesium_cxx.Base.{ℕ, ◌+◌, none, some}
use caesium_cxx.Wiring.{Stream, Build}
use caesium_cxx.Api.{merge}

-- A stream, and what is built for it.
abbrev Built : Type 0
Built = Build ℕ → Stream × Build ℕ

abbrev never : Built
never b = (none, b)

abbrev merge2 : Built → Built → Built
merge2 left right b = let (l, b₁) = left b in let (r, b₂) = right b₁ in merge (λ x y. x + y) l r b₂

abbrev sas : ℕ → Built
sas i b = (some i, b)
