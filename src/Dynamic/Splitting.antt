-- ===== src/Dynamic/Splitting.antt =====
-- What the transactions of `split` see of each other.
use caesium_cxx.Base.{
  ℕ, suc, ◌+◌, ◌≡◌, refl, ap, subst, ◌∙◌, true, false, Option, none, some, List, [], ◌∷◌, ◌++◌, map,
  arith, update, is_some,
}
use mathlib.Core.List.{append-nil, append_assoc}
use caesium_cxx.Network
use caesium_cxx.Network.{CellState, Handler, Net, Post, clear_firings, finalize, is_empty, send}
use caesium_cxx.Wiring.{hold, snapshot_, listen_raw}
use caesium_cxx.Wiring.Late.{one_node, listen_to}
use caesium_cxx.Dynamic.{
  Reads, plain, Machine, Later, posted, absorb, absorb_net, drain, send_items, run_action,
  run_later, close, split,
}

module _ {V : Type 0} (f : V → V → V) (v : V) where
  -- Node 0 carries lists, which are split; a cell holds the items, with `v` at first; and a
  -- listener hears each item combined with what a snapshot sees of the cell.
  unfoldable pub watched : Machine V
  unfolding one_node split hold snapshot_ listen_raw absorb
  watched =
      let m =
        (split (some 0)
          (record { build = one_node v; kinds = λ h. plain; work = []; later = [] })).1 in
      let (cell, b) = hold v (some 1) m.build in
      let (s, b') = snapshot_ cell f (some 1) b in record m { build = listen_to v s b' }

  -- The same, with a history.
  abbrev since : (ℕ → List V) → (ℕ → CellState V) → List (Later V) → List (ℕ × V) → Machine V
  unfolding watched
  since firings cells later heard = record watched {
    build = record watched.build {
      net = record watched.build.net { firings = firings; cells = cells; heard = heard };
    };
    later = later;
  }

-- The last item of a list that is not empty.
unfoldable pub last_item : {V : Type 0} → V → List V → V
last_item a [] = a
last_item a (b ∷ bs) = last_item b bs

module _ {V : Type 0} (reads : Reads V) (call f : V → V → V) (v : V) where
  abbrev sent : V → (ℕ → List V) → (ℕ → CellState V) → ℕ → List V
  sent a F C = update (update (update F 1 (a ∷ F 1)) 4 (f a (C 0).current ∷ F 4)) 3 (a ∷ F 3)

  abbrev held : V → (ℕ → CellState V) → ℕ → CellState V
  held a C = update C 0 (record { current = (C 0).current; update = some a })

  -- One transaction. When it is not the first, it posts nothing.
  one_item :
      (fuel : ℕ) (a : V) (F : ℕ → List V) (C : ℕ → CellState V) (L : List (Later V))
      (H : List (ℕ × V))
      → is_empty (F 1) ≡ false
      → is_empty (F 4) ≡ false
      → is_empty (F 3) ≡ false
      → is_some (C 0).update ≡ true
      → let m = since f v F C L H in
        (L' : List (Later V)) × (drain reads call
            (suc (suc (suc (suc fuel))))
            (absorb_net (send 1 a m.build.net) m)
          ≡ some (since f v (sent a F C) (held a C) L' (H ++ (0, f a (C 0).current) ∷ [])))
        × (L' ≡ L)
  unfolding drain absorb_net send watched Network.handle
  one_item fuel a F C L H e₁ e₄ e₃ u = (_, refl, rw (e₁, e₄, e₃, u) (simp append-nil))

  first_item :
      (fuel : ℕ) (a : V) (F : ℕ → List V) (C : ℕ → CellState V) (L : List (Later V))
      (H : List (ℕ × V))
      → is_empty (F 1) ≡ true
      → is_empty (F 4) ≡ true
      → is_empty (F 3) ≡ true
      → is_some (C 0).update ≡ false
      → let m = since f v F C L H in
        (L' : List (Later V)) × (drain reads call
            (suc (suc (suc (suc fuel))))
            (absorb_net (send 1 a m.build.net) m)
          ≡ some (since f v (sent a F C) (held a C) L' (H ++ (0, f a (C 0).current) ∷ [])))
        × (L'
            ≡ L
              ++ posted (clear_firings 1)
                ∷ posted (clear_firings 4)
                ∷ posted (finalize 0)
                ∷ posted (clear_firings 3)
                ∷ [])
  unfolding drain absorb_net send watched Network.handle
  first_item fuel a F C L H e₁ e₄ e₃ u =
      (_, refl, rw (e₁, e₄, e₃, u) (simp (append-nil, append_assoc)))

  more_items :
      (fuel : ℕ) (as' : List V) (u : V) (F : ℕ → List V) (C : ℕ → CellState V) (L : List (Later V))
      (H : List (ℕ × V))
      → is_empty (F 1) ≡ false
      → is_empty (F 4) ≡ false
      → is_empty (F 3) ≡ false
      → (C 0).update ≡ some u
      → (F' : ℕ → List V) × (C' : ℕ → CellState V) × (send_items reads call
            (suc (suc (suc (suc fuel))))
            1
            as'
            (since f v F C L H)
          ≡ some (since f v F' C' L (H ++ map (λ x. (0, f x (C 0).current)) as')))
        × (C' 0 ≡ record { current = (C 0).current; update = some (last_item u as') })
  unfolding send_items last_item
  more_items fuel [] u F C L H e₁ e₄ e₃ k = (F, C, simp append-nil, ground (arith, k))
  more_items fuel (a ∷ as') u F C L H e₁ e₄ e₃ k =
      let (L', e, l) = one_item fuel a F C L H e₁ e₄ e₃ (ground (arith, k)) in
      let (F', C', e', k') =
        more_items fuel as' a (sent a F C) (held a C) L (H ++ (0, f a (C 0).current) ∷ []) refl refl
          refl refl in
      let next : Option (Machine V) → Option (Machine V) = λ d. elim d [
        | none ↦ none
        | some t ↦ send_items reads call (suc (suc (suc (suc fuel)))) 1 as' t
      ] in
      (
        F',
        C',
        ap next e
            ∙ ap
                (λ K.
                  send_items reads call (suc (suc (suc (suc fuel)))) 1 as'
                    (since f v (sent a F C) (held a C) K (H ++ (0, f a (C 0).current) ∷ [])))
                l
            ∙ e'
            ∙ simp append_assoc,
        k',
      )

  -- Node 0 fires the list in `p`, and the transaction ends.
  abbrev pub fire : ℕ → V → Option (Machine V)
  unfolding absorb_net send watched
  fire fuel p = let m = watched f v in close reads call fuel (absorb_net (send 0 p m.build.net) m)

  abbrev waiting : List (Later V)
  waiting =
      posted (clear_firings 1)
      ∷ posted (clear_firings 4)
      ∷ posted (finalize 0)
      ∷ posted (clear_firings 3)
      ∷ []

  abbrev settled : V → (ℕ → List V) → (ℕ → CellState V) → List (ℕ × V) → Machine V
  settled w F C H =
      since f v (update (update (update F 1 []) 4 []) 3 [])
        (update C 0 (record { current = w; update = none })) [] H

  settles :
      (fuel : ℕ) (w : V) (F : ℕ → List V) (C : ℕ → CellState V) (H : List (ℕ × V))
      → (C 0).update ≡ some w
      → run_later reads call (suc (suc (suc (suc (suc fuel))))) (since f v F C waiting H)
        ≡ some (settled w F C H)
  unfolding run_later absorb_net Network.post watched
  settles fuel w F C H k = rw (k, run_later, run_action) refl

  fired_items :
      (fuel : ℕ) (p a : V) (as' : List V)
      → reads.as_list p ≡ a ∷ as'
      → (m : Machine V) × (fire (suc (suc (suc (suc (suc (suc (suc (suc fuel)))))))) p ≡ some m)
        × (m.build.net.heard ≡ map (λ x. (0, f x v)) (a ∷ as'))
        × ((m.build.net.cells 0).current ≡ last_item a as')
        × (m.later ≡ [])
  unfolding close drain run_later send_items absorb_net send watched Network.handle Network.post
  fired_items fuel p a as' e = rw e (
      let F₀ : ℕ → List V = update (update (λ n. []) 0 (p ∷ [])) 0 [] in
      let C₀ : ℕ → CellState V = (watched f v).build.net.cells in
      let (F, C, sends, last) =
        more_items (suc (suc fuel)) as' a (sent a F₀ C₀) (held a C₀) waiting ((0, f a v) ∷ []) refl
          refl refl refl in
      let next : Option (Machine V) → Option (Machine V) = λ d. elim d [
        | none ↦ none
        | some t ↦ run_later reads call (suc (suc (suc (suc (suc (suc fuel)))))) t
      ] in
      (
        settled (last_item a as') F C ((0, f a v) ∷ map (λ x. (0, f x v)) as'),
        ap next sends
            ∙ settles (suc fuel) (last_item a as') F C ((0, f a v) ∷ map (λ x. (0, f x v)) as')
                (ground (arith, last)),
        refl,
        refl,
        refl,
      ))

  -- `split` sends the items of a list in their order, each in a transaction of its own. But a
  -- snapshot of a cell that holds the items sees the value from before the list at every item,
  -- and not the item before; the cell takes on the last item when all have been sent.
  pub split-sees_old :
      (fuel : ℕ) (p a : V) (as' : List V)
      → reads.as_list p ≡ a ∷ as'
      → (m : Machine V) × (fire (fuel + 8) p ≡ some m)
        × (m.build.net.heard ≡ map (λ x. (0, f x v)) (a ∷ as'))
        × ((m.build.net.cells 0).current ≡ last_item a as')
        × (m.later ≡ [])
  unfolding close drain run_later send_items absorb_net send watched Network.handle Network.post
  split-sees_old fuel p a as' e =
      let enough : suc (suc (suc (suc (suc (suc (suc (suc fuel))))))) ≡ fuel + 8 = omega arith in
      subst
        (λ n.
          (m : Machine V) × (fire n p ≡ some m)
          × (m.build.net.heard ≡ map (λ x. (0, f x v)) (a ∷ as'))
          × ((m.build.net.cells 0).current ≡ last_item a as')
          × (m.later ≡ []))
        enough (fired_items fuel p a as' e)
