-- ===== src/Network/Owed.antt =====
-- What is owed to the state of a running transaction, counted: the posted actions for its firings
-- and updates, the entries for its coalesced values and for the applies that have fired.
use caesium_cxx.Base.{ℕ, ◌+◌, ◌≡◌, refl, Bool, List, [], ◌∷◌, ◌++◌, map, arith, ◌==◌, if◌then◌else◌}
use caesium_cxx.Network.{
  Link, Entry, send_entry, coalesce_entry, firing_entry, apply_entry, Post, clear_firings, finalize,
  unlink,
}

-- How often an action stands in the queue of posted actions.
unfoldable pub clears : ℕ → List Post → ℕ
clears n [] = 0
clears n (clear_firings m ∷ ps) = (if n == m then 1 else 0) + clears n ps
clears n (p ∷ ps) = clears n ps

unfoldable pub finals : ℕ → List Post → ℕ
finals c [] = 0
finals c (finalize m ∷ ps) = (if c == m then 1 else 0) + finals c ps
finals c (p ∷ ps) = finals c ps

pub clears-concat :
    (n : ℕ) (ps : List Post) (p : Post) → clears n (ps ++ p ∷ []) ≡ clears n ps + clears n (p ∷ [])
unfolding clears
clears-concat n [] p = omega arith
clears-concat n (clear_firings m ∷ ps) p = omega (arith, clears-concat n ps p)
clears-concat n (finalize m ∷ ps) p = clears-concat n ps p
clears-concat n (unlink m h ∷ ps) p = clears-concat n ps p

pub finals-concat :
    (c : ℕ) (ps : List Post) (p : Post) → finals c (ps ++ p ∷ []) ≡ finals c ps + finals c (p ∷ [])
unfolding finals
finals-concat c [] p = omega arith
finals-concat c (clear_firings m ∷ ps) p = finals-concat c ps p
finals-concat c (finalize m ∷ ps) p = omega (arith, finals-concat c ps p)
finals-concat c (unlink m h ∷ ps) p = finals-concat c ps p

abbrev pub tally : Bool → ℕ
tally b = if b then 1 else 0

module _ {V : Type 0} where
  -- How many entries will send the coalesced value `st`, or the result of the apply `st`.
  unfoldable pub coalescers : ℕ → List (Entry V) → ℕ
  coalescers st [] = 0
  coalescers st (coalesce_entry t x ∷ es) = (if st == x then 1 else 0) + coalescers st es
  coalescers st (e ∷ es) = coalescers st es

  unfoldable pub appliers : ℕ → List (Entry V) → ℕ
  appliers st [] = 0
  appliers st (apply_entry t x ∷ es) = (if st == x then 1 else 0) + appliers st es
  appliers st (e ∷ es) = appliers st es

  pub coalescers-append :
      (st : ℕ) (xs ys : List (Entry V))
      → coalescers st (xs ++ ys) ≡ coalescers st xs + coalescers st ys
  unfolding coalescers
  coalescers-append st [] ys = omega arith
  coalescers-append st (coalesce_entry t x ∷ xs) ys = omega (arith, coalescers-append st xs ys)
  coalescers-append st (send_entry l a ∷ xs) ys = coalescers-append st xs ys
  coalescers-append st (firing_entry t h a ∷ xs) ys = coalescers-append st xs ys
  coalescers-append st (apply_entry t x ∷ xs) ys = coalescers-append st xs ys

  pub appliers-append :
      (st : ℕ) (xs ys : List (Entry V)) → appliers st (xs ++ ys) ≡ appliers st xs + appliers st ys
  unfolding appliers
  appliers-append st [] ys = omega arith
  appliers-append st (apply_entry t x ∷ xs) ys = omega (arith, appliers-append st xs ys)
  appliers-append st (send_entry l a ∷ xs) ys = appliers-append st xs ys
  appliers-append st (firing_entry t h a ∷ xs) ys = appliers-append st xs ys
  appliers-append st (coalesce_entry t x ∷ xs) ys = appliers-append st xs ys

  pub no_coalescers :
      (st : ℕ) (a : V) (ls : List Link) → coalescers st (map (λ l. send_entry l a) ls) ≡ 0
  unfolding coalescers
  no_coalescers st a [] = refl
  no_coalescers st a (l ∷ ls) = no_coalescers st a ls

  pub no_appliers :
      (st : ℕ) (a : V) (ls : List Link) → appliers st (map (λ l. send_entry l a) ls) ≡ 0
  unfolding appliers
  no_appliers st a [] = refl
  no_appliers st a (l ∷ ls) = no_appliers st a ls
