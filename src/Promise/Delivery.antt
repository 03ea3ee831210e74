-- ===== src/Promise/Delivery.antt =====
-- A promise keeps what is delivered first.
use caesium_cxx.Base.{
  ℕ, suc, ◌≡◌, refl, ap, ◌∙◌, Bool, true, if◌then◌else◌, Option, none, some, List, [], ◌∷◌, map,
  update,
}
use caesium_cxx.Network.{clear_firings, send_entry, Link, CellState, Net, is_empty, send, close}
use caesium_cxx.Wiring.{Build}
use caesium_cxx.Wiring.Late.{one_node}
use caesium_cxx.Listening.{listen}
use caesium_cxx.Api.Folding.{fire_each}
use caesium_cxx.Promise.{Value, plain, optional, unit, promise}

module _ {A : Type 0} where
  -- A promise of what node 0 fires, and a listener of its `sDeliver`.
  unfoldable pub promised : Build (Value A)
  unfolding one_node promise listen
  promised = let (p, b) = promise (some 0) (one_node unit) in (listen 0 p.s_deliver b).1

module _ {A : Type 0} (call : Value A → Value A → Value A) where
  -- The network after the first delivery.
  abbrev kept :
      A
      → (ℕ → List Link)
      → (ℕ → CellState (Value A))
      → (ℕ → Option (ℕ × ℕ))
      → (ℕ → List (Value A))
      → Net (Value A)
  kept a T C K F = record (promised {A = A}).net {
    targets = T;
    firings = F;
    kills = K;
    cells = C;
    heard = (0, plain a) ∷ [];
  }

  first_delivery :
      (fuel : ℕ) (a : A)
      → (T : ℕ → List Link) × (C : ℕ → CellState (Value A)) × (K : ℕ → Option (ℕ × ℕ)) × (F : ℕ
          → List (Value A))
        × (close call (suc (suc (suc (suc (suc fuel))))) (send 0 (plain a) (promised {A = A}).net)
            ≡ some (kept a T C K F))
        × (T 0 ≡ [])
        × (C 0 ≡ record { current = optional (some a); update = none })
        × (is_empty (F 0) ≡ true)
  unfolding close send promised
  first_delivery fuel a = (_, _, _, _, refl, refl, refl, refl)

  later_delivery :
      (fuel : ℕ) (a b : A) (T : ℕ → List Link) (C : ℕ → CellState (Value A))
      (K : ℕ → Option (ℕ × ℕ)) (F : ℕ → List (Value A))
      → T 0 ≡ []
      → is_empty (F 0) ≡ true
      → close call (suc fuel) (send 0 (plain b) (kept a T C K F))
        ≡ some (kept a T C K (update (update F 0 (plain b ∷ F 0)) 0 []))
  unfolding close send promised
  later_delivery fuel a b T C K F t e =
      let sent : List Link → Bool → Net (Value A) = λ ls silent. record (kept a T C K F) {
        posts = if silent then clear_firings 0 ∷ [] else [];
        firings = update F 0 (plain b ∷ F 0);
        queue = map (λ l. send_entry l (plain b)) ls;
      } in
      ap (λ ls. close call (suc fuel) (sent ls (is_empty (F 0)))) t
      ∙ ap (λ x. close call (suc fuel) (sent [] x)) e

  abbrev goes_on : ℕ → List (Value A) → Option (Net (Value A)) → Option (Net (Value A))
  goes_on fuel vs none = none
  goes_on fuel vs (some t) = fire_each call fuel vs t

  later_deliveries :
      (fuel : ℕ) (a : A) (fired : List A) (T : ℕ → List Link) (C : ℕ → CellState (Value A))
      (K : ℕ → Option (ℕ × ℕ)) (F : ℕ → List (Value A))
      → T 0 ≡ []
      → is_empty (F 0) ≡ true
      → (G : ℕ → List (Value A)) × (fire_each call (suc fuel) (map plain fired) (kept a T C K F)
          ≡ some (kept a T C K G))
  unfolding fire_each promised
  later_deliveries fuel a [] T C K F t e = (F, refl)
  later_deliveries fuel a (b ∷ fired) T C K F t e =
      let (G, run) =
        later_deliveries fuel a fired T C K (update (update F 0 (plain b ∷ F 0)) 0 []) t refl in
      (G, ap (goes_on (suc fuel) (map plain fired)) (later_delivery fuel a b T C K F t e) ∙ run)

  -- A promise of what a node fires, and a listener of its `sDeliver`, before the node has fired;
  -- then any number of transactions, but at least one, in each of which the node fires once. The
  -- cell of the promise has no value at first and the value of the first firing in the end, and
  -- the listener has been called once, with that value; a loop bound of 5 for each transaction is
  -- enough.
  pub promise-keeps_first :
      (fuel : ℕ) (a : A) (fired : List A)
      → (((promised {A = A}).net.cells 0).current ≡ optional none)
        × (s : Net (Value A)) × (fire_each call
              (suc (suc (suc (suc (suc fuel)))))
              (map plain (a ∷ fired))
              promised.net
            ≡ some s)
        × (s.cells 0 ≡ record { current = optional (some a); update = none })
        × (s.heard ≡ (0, plain a) ∷ [])
  unfolding fire_each promised one_node
  promise-keeps_first fuel a fired =
      let (T, C, K, F, first, t, c, e) = first_delivery fuel a in
      let (G, rest) = later_deliveries (suc (suc (suc (suc fuel)))) a fired T C K F t e in
      (
        refl,
        kept a T C K G,
        ap (goes_on (suc (suc (suc (suc (suc fuel))))) (map plain fired)) first ∙ rest,
        c,
        refl,
      )
