-- ===== src/MergeTree/Fold.antt =====
-- The tree of merges: which streams it merges, in which order, and how deep it is.
use caesium_cxx.Base.{ℕ, zero, suc, ◌+◌, List, [], ◌∷◌, ◌++◌, leb, if◌then◌else◌}

-- Which merges are made of the streams of a collection.
pub data Merges : Type 0 where
  nothing : Merges
  only : ℕ → Merges
  both : Merges → Merges → Merges

-- The streams, from left to right.
unfoldable pub streams : Merges → List ℕ
streams nothing = []
streams (only i) = i ∷ []
streams (both l r) = streams l ++ streams r

-- How many merges a firing goes through at most.
unfoldable pub depth : Merges → ℕ
depth nothing = 0
depth (only i) = 0
depth (both l r) = (if leb (depth l) (depth r) then depth r else depth l) + 1

unfoldable pub range : ℕ → ℕ → List ℕ
range start zero = []
range start (suc n) = let rest = range (start + 1) n in start ∷ rest

module _ {S : Type 0} (never : S) (merge2 : S → S → S) (sas : ℕ → S) where
  -- The stream that they give.
  unfoldable pub merged : Merges → S
  merged nothing = never
  merged (only i) = sas i
  merged (both l r) = merge2 (merged l) (merged r)
