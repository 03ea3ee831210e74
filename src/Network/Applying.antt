-- ===== src/Network/Applying.antt =====
-- `apply`: two cells that are updated in one transaction.
use caesium_cxx.Base.{
  ℕ, ◌≡◌, refl, ap, ◌∙◌, Bool, true, false, some, List, [], ◌∷◌, ◌++◌, arith, update, sym, none,
  Option, map,
}
use mathlib.Core.List.{reverse, reverse-cons, append-nil, append_assoc}
use caesium_cxx.Network.{
  apply_f_handler, apply_a_handler, Link, Entry, send_entry, ApplyState, Net, apply_entry, handle,
  send, process,
}

-- An update of the cell of functions, or of the cell of arguments.
pub data Input (V : Type 0) : Type 0 where
  of_f of_a : V → Input V

module _ {V : Type 0} where
  unfoldable pub last_f : V → List (Input V) → V
  last_f f [] = f
  last_f f (of_f g ∷ us) = last_f g us
  last_f f (of_a a ∷ us) = last_f f us

  unfoldable pub last_a : V → List (Input V) → V
  last_a a [] = a
  last_a a (of_f g ∷ us) = last_a a us
  last_a a (of_a b ∷ us) = last_a b us

  abbrev waits : Bool → V → V → ApplyState V
  waits fired f a = record { fired = fired; f = some f; a = some a }

module _ {V : Type 0} (out st target : ℕ) where
  unfoldable pub feed : List (Input V) → Net V → Net V
  unfolding handle
  feed [] s = s
  feed (of_f f ∷ us) s = feed us (handle (apply_f_handler out st) target f s)
  feed (of_a a ∷ us) s = feed us (handle (apply_a_handler out st) target a s)

  -- Once the entry is queued, updates are only remembered.
  feed_more :
      (us : List (Input V)) (s : Net V) (f a : V)
      → s.applies st ≡ waits true f a
      → ((feed us s).applies st ≡ waits true (last_f f us) (last_a a us))
        × ((feed us s).queue ≡ s.queue)
        × ((feed us s).firings ≡ s.firings)
  unfolding feed handle last_f last_a
  feed_more [] s f a e = (e, refl, refl)
  feed_more (of_f g ∷ us) s f a e =
      let t = handle (apply_f_handler out st) target g s in
      let (now, queue, firings) = feed_more us t g a (ground (arith, e)) in
      (now, queue ∙ ground (arith, e), firings ∙ ground (arith, e))
  feed_more (of_a b ∷ us) s f a e =
      let t = handle (apply_a_handler out st) target b s in
      let (now, queue, firings) = feed_more us t f b (ground (arith, e)) in
      (now, queue ∙ ground (arith, e), firings ∙ ground (arith, e))

  feed_first :
      (u : Input V) (s : Net V) (f a : V)
      → s.applies st ≡ waits false f a
      → ((feed (u ∷ []) s).applies st ≡ waits true (last_f f (u ∷ [])) (last_a a (u ∷ [])))
        × ((feed (u ∷ []) s).queue ≡ s.queue ++ apply_entry out st ∷ [])
        × ((feed (u ∷ []) s).firings ≡ s.firings)
  unfolding feed handle last_f last_a
  feed_first (of_f g) s f a e = (ground (arith, e), ground (arith, e), ground (arith, e))
  feed_first (of_a b) s f a e = (ground (arith, e), ground (arith, e), ground (arith, e))

  feed_all :
      (u : Input V) (us : List (Input V)) (s : Net V) (f a : V)
      → s.applies st ≡ waits false f a
      → ((feed (u ∷ us) s).applies st ≡ waits true (last_f f (u ∷ us)) (last_a a (u ∷ us)))
        × ((feed (u ∷ us) s).queue ≡ s.queue ++ apply_entry out st ∷ [])
        × ((feed (u ∷ us) s).firings ≡ s.firings)
  unfolding feed last_f last_a
  feed_all (of_f g) us s f a e =
      let (e₁, q₁, w₁) = feed_first (of_f g) s f a e in
      let (now, queue, firings) = feed_more us (feed (of_f g ∷ []) s) g a e₁ in
      (now, queue ∙ q₁, firings ∙ w₁)
  feed_all (of_a b) us s f a e =
      let (e₁, q₁, w₁) = feed_first (of_a b) s f a e in
      let (now, queue, firings) = feed_more us (feed (of_a b ∷ []) s) f b e₁ in
      (now, queue ∙ q₁, firings ∙ w₁)

  feed-targets : (us : List (Input V)) (s : Net V) → (feed us s).targets ≡ s.targets
  unfolding feed handle
  feed-targets [] s = refl
  feed-targets (of_f g ∷ us) s =
      feed-targets us (handle (apply_f_handler out st) target g s) ∙ ground arith
  feed-targets (of_a b ∷ us) s =
      feed-targets us (handle (apply_a_handler out st) target b s) ∙ ground arith

  -- One batch.
  feed-fires_once :
      (call : V → V → V) (u : Input V) (us : List (Input V)) (s : Net V) (f a : V)
      → s.applies st ≡ waits false f a
      → let s' = feed (u ∷ us) s in
        let g = last_f f (u ∷ us) in
        let b = last_a a (u ∷ us) in
        (s'.queue ≡ s.queue ++ apply_entry out st ∷ [])
        × (t : Net V) × (process call (apply_entry out st) s' ≡ some t)
        × (t.firings ≡ update s.firings out (call g b ∷ s.firings out))
        × (t.applies st ≡ waits false g b)
        × (t.queue ≡ s'.queue ++ map (λ l. send_entry l (call g b)) (s.targets out))
        × (t.targets ≡ s.targets)
  unfolding process send
  feed-fires_once call u us s f a e =
      let (now, queue, firings) = feed_all u us s f a e in
      let s' = feed (u ∷ us) s in
      let g = last_f f (u ∷ us) in
      let b = last_a a (u ∷ us) in
      (
        queue,
        record (send out (call g b) s') {
          applies = update s'.applies st (record (s'.applies st) { fired = false });
        },
        ground (arith, now),
        ap (λ w. update w out (call g b ∷ w out)) firings,
        ground (arith, now),
        ap (λ T. s'.queue ++ map (λ l. send_entry l (call g b)) (T out)) (feed-targets (u ∷ us) s),
        feed-targets (u ∷ us) s,
      )

  -- Batches of updates; after each, the entry of `apply` is processed.
  unfoldable pub feed_batches :
      (V → V → V) → List (Input V × List (Input V)) → Net V → Option (Net V)
  unfolding process
  feed_batches call [] s = some s
  feed_batches call ((u, us) ∷ rest) s =
      elim (process call (apply_entry out st) (feed (u ∷ us) s)) [
        | none ↦ none
        | some t ↦ feed_batches call rest t
      ]

  -- What the result fires for each batch, and what is queued.
  unfoldable pub results : (V → V → V) → V → V → List (Input V × List (Input V)) → List V
  results call f a [] = []
  results call f a ((u, us) ∷ rest) =
      let g = last_f f (u ∷ us) in let b = last_a a (u ∷ us) in call g b ∷ results call g b rest

  unfoldable pub queued : List Link → List V → List (Entry V)
  queued ls [] = []
  queued ls (v ∷ vs) = apply_entry out st ∷ (map (λ l. send_entry l v) ls ++ queued ls vs)

  abbrev goes_on : (V → V → V) → List (Input V × List (Input V)) → Option (Net V) → Option (Net V)
  goes_on call rest none = none
  goes_on call rest (some t) = feed_batches call rest t

  fires_at : (F : ℕ → List V) (vs : List V) → update F out vs out ≡ vs
  fires_at F vs = ground arith

  feed_next :
      (call : V → V → V) (u : Input V) (us : List (Input V))
      (rest : List (Input V × List (Input V))) (s t : Net V)
      → process call (apply_entry out st) (feed (u ∷ us) s) ≡ some t
      → feed_batches call ((u, us) ∷ rest) s ≡ feed_batches call rest t
  unfolding feed_batches
  feed_next call u us rest s t e = ap (goes_on call rest) e

  -- The two cells of an `apply` that has a function `f` and an argument `a` are updated in
  -- batches, in any order within each; the entry of `apply` is processed at the end of each
  -- batch. A batch of any number of updates queues one entry, and when this is processed, the
  -- result fires once, with the last function so far applied to the last argument so far. So the
  -- result fires as often as there are batches: once in a transaction in which all updates come
  -- before the entry is processed, and more often in one in which an update comes later.
  pub feed_batches-fires :
      (call : V → V → V) (batches : List (Input V × List (Input V))) (s : Net V) (f a : V)
      → s.applies st ≡ waits false f a
      → (t : Net V) × (feed_batches call batches s ≡ some t)
        × (t.firings out ≡ reverse (results call f a batches) ++ s.firings out)
        × (t.queue ≡ s.queue ++ queued (s.targets out) (results call f a batches))
        × ((t.applies st).fired ≡ false)
  unfolding feed_batches results queued
  feed_batches-fires call [] s f a e =
      (s, refl, refl, sym (append-nil s.queue), ap (λ x. x.fired) e)
  feed_batches-fires call ((u, us) ∷ rest) s f a e =
      let (q, t, run, fires, now, q', targets) = feed-fires_once call u us s f a e in
      let g = last_f f (u ∷ us) in
      let b = last_a a (u ∷ us) in
      let (z, runs, firings, queue, idle) = feed_batches-fires call rest t g b now in
      let vs = results call g b rest in
      let sends = map (λ l. send_entry l (call g b)) (s.targets out) in
      (
        z,
        feed_next call u us rest s t run ∙ runs,
        firings
            ∙ ap (λ w. reverse vs ++ w out) fires
            ∙ ap (λ w. reverse vs ++ w) (fires_at s.firings (call g b ∷ s.firings out))
            ∙ sym (append_assoc (reverse vs) (call g b ∷ []) (s.firings out))
            ∙ ap (λ w. w ++ s.firings out) (sym (reverse-cons (call g b) vs)),
        queue
            ∙ ap (λ T. t.queue ++ queued (T out) vs) targets
            ∙ ap (λ x. x ++ queued (s.targets out) vs) (q' ∙ ap (λ x. x ++ sends) q)
            ∙ append_assoc (s.queue ++ apply_entry out st ∷ []) sends (queued (s.targets out) vs)
            ∙ append_assoc s.queue (apply_entry out st ∷ []) (sends ++ queued (s.targets out) vs),
        idle,
      )
