-- ===== src/Api/Folding.antt =====
-- `accum` as a fold over what has been fired.
use caesium_cxx.Base.{
  ℕ, suc, ◌≡◌, refl, ap, true, false, Option, none, some, List, [], ◌∷◌, update, is_some,
}
use caesium_cxx.Network.{CellState, Net, is_empty, send, close, run_posts}
use caesium_cxx.Wiring.{Build}
use caesium_cxx.Wiring.Late.{one_node}
use caesium_cxx.Api.{accum}

module _ {V : Type 0} (f : V → V → V) (v : V) where
  -- A cell that accumulates what node 0 fires.
  unfoldable pub summed : Build V
  unfolding one_node accum
  summed = (accum v f (some 0) (one_node v)).1

  abbrev since : (ℕ → List V) → (ℕ → CellState V) → (ℕ → V) → Net V
  unfolding summed
  since firings cells states = record (summed).net {
    firings = firings;
    cells = cells;
    states = states;
  }

module _ {V : Type 0} (f : V → V → V) where
  -- What a list of values adds up to.
  unfoldable pub total : V → List V → V
  total sum [] = sum
  total sum (a ∷ fired) = total (f a sum) fired

module _ {V : Type 0} (call : V → V → V) where
  -- A transaction for each value that node 0 fires.
  unfoldable pub fire_each : ℕ → List V → Net V → Option (Net V)
  unfolding close send
  fire_each fuel [] s = some s
  fire_each fuel (a ∷ fired) s = elim (close call fuel (send 0 a s)) [
    | none ↦ none
    | some t ↦ fire_each fuel fired t
  ]

module _ {V : Type 0} (call f : V → V → V) where
  after_firing : V → (ℕ → List V) → (ℕ → V) → ℕ → List V
  after_firing a F S =
      let sum = f a (S 0) in
      update
        (update (update (update (update (update F 0 (a ∷ F 0)) 1 (sum ∷ F 1)) 2 (sum ∷ F 2)) 0 []) 1
          [])
        2 []

  after_update : V → (ℕ → CellState V) → (ℕ → V) → ℕ → CellState V
  after_update a C S =
      let sum = f a (S 0) in
      update (update C 0 (record { current = (C 0).current; update = some sum })) 0
        (record { current = sum; update = none })

  -- One transaction in which node 0 fires once, when nothing has been fired and no update waits.
  close-send :
      (fuel : ℕ) (v a : V) (F : ℕ → List V) (C : ℕ → CellState V) (S : ℕ → V)
      → is_empty (F 0) ≡ true
      → is_empty (F 1) ≡ true
      → is_empty (F 2) ≡ true
      → is_some (C 0).update ≡ false
      → close call (suc (suc (suc fuel))) (send 0 a (since f v F C S))
        ≡ some (since f v (after_firing a F S) (after_update a C S) (update S 0 (f a (S 0))))
  unfolding close send summed after_firing after_update
  close-send fuel v a F C S e₀ e₁ e₂ u = rw (e₀, e₁, e₂, u, run_posts) refl

  fire_each-totals :
      (fuel : ℕ) (v : V) (fired : List V) (F : ℕ → List V) (C : ℕ → CellState V) (S : ℕ → V)
      → is_empty (F 0) ≡ true
      → is_empty (F 1) ≡ true
      → is_empty (F 2) ≡ true
      → C 0 ≡ record { current = S 0; update = none }
      → (s : Net V) × (fire_each call (suc (suc (suc fuel))) fired (since f v F C S) ≡ some s)
        × (s.cells 0 ≡ record { current = total f (S 0) fired; update = none })
  unfolding fire_each total after_firing after_update summed
  fire_each-totals fuel v [] F C S e₀ e₁ e₂ c = (_, refl, c)
  fire_each-totals fuel v (a ∷ fired) F C S e₀ e₁ e₂ c =
      let (s, run, sum) =
        fire_each-totals fuel v fired (after_firing a F S) (after_update a C S)
          (update S 0 (f a (S 0))) refl refl refl refl in
      (s, rw (close-send fuel v a F C S e₀ e₁ e₂ (ap (λ x. is_some x.update) c)) run, sum)

  -- The cell that `accum` makes holds, after any number of transactions in each of which its
  -- stream fires once, the initial value combined with every value fired, in the order of the
  -- transactions, and no update waits for it; a loop bound of 3 for each transaction is enough.
  pub accum-folds :
      (fuel : ℕ) (v : V) (fired : List V)
      → (s : Net V) × (fire_each call (suc (suc (suc fuel))) fired (summed f v).net ≡ some s)
        × (s.cells 0 ≡ record { current = total f v fired; update = none })
  unfolding summed
  accum-folds fuel v fired = fire_each-totals fuel v fired _ _ _ refl refl refl refl
