-- ===== src/Network/Spends.antt =====
-- What the handling of an entry costs: how many entries it can give rise to.
use caesium_cxx.Base.{
  ℕ, suc, ◌+◌, ◌≤◌, ◌≡◌, refl, ap, ◌∙◌, inl, inr, Option, none, some, List, [], ◌∷◌, ◌++◌, map,
  arith, Option-cases, Bool-cases, update,
}
use caesium_cxx.Network.{
  Handler, forward, map_handler, filter_handler, filter_optional_handler, merge_handler,
  snapshot_handler, once_handler, coalesce_handler, last_firing_only_handler, hold_handler,
  collect_handler, accum_s_handler, apply_f_handler, apply_a_handler, listener_handler, Link, Entry,
  send_entry, coalesce_entry, firing_entry, apply_entry, Net, send, kill_once, coalesce, set_update,
  fire_apply, handle, handle_all,
}

module _ {V : Type 0} (cost : ℕ → ℕ) where
  -- What one call of a handler may cost, in entries, when a firing of node `n` costs `cost n`.
  unfoldable pub out : Handler V → ℕ → ℕ
  out (merge_handler right) target = cost right
  out (coalesce_handler st f) target = suc (cost target)
  out (last_firing_only_handler st) target = suc (cost target)
  out (apply_f_handler o st) target = suc (cost o)
  out (apply_a_handler o st) target = suc (cost o)
  out h target = cost target

  pub times : List V → ℕ → ℕ
  times [] n = 0
  times (x ∷ xs) n = n + times xs n

  unfoldable pub entry_cost : (ℕ → Handler V) → Entry V → ℕ
  unfolding out times
  entry_cost hs (send_entry l a) = suc (out (hs l.h) l.n)
  entry_cost hs (coalesce_entry target st) = suc (cost target)
  entry_cost hs (firing_entry target h as') = suc (times as' (out (hs h) target))
  entry_cost hs (apply_entry target st) = suc (cost target)

  unfoldable pub queue_cost : (ℕ → Handler V) → List (Entry V) → ℕ
  unfolding entry_cost
  queue_cost hs [] = 0
  queue_cost hs (e ∷ es) = entry_cost hs e + queue_cost hs es

  unfoldable pub links_cost : (ℕ → Handler V) → List Link → ℕ
  unfolding out
  links_cost hs [] = 0
  links_cost hs (l ∷ ls) = suc (out (hs l.h) l.n) + links_cost hs ls

  -- A firing of a node costs at least what its links cost: there is such a `cost` when the links
  -- have no cycle.
  abbrev pub Bounded : Net V → Type 0
  Bounded s = (n : ℕ) → links_cost s.handlers (s.targets n) ≤ cost n

  pub queue_cost-append :
      (hs : ℕ → Handler V) (xs ys : List (Entry V))
      → queue_cost hs (xs ++ ys) ≡ queue_cost hs xs + queue_cost hs ys
  unfolding queue_cost
  queue_cost-append hs [] ys = omega arith
  queue_cost-append hs (e ∷ xs) ys = omega (arith, queue_cost-append hs xs ys)

  queue_cost-sends :
      (hs : ℕ → Handler V) (a : V) (ls : List Link)
      → queue_cost hs (map (λ l. send_entry l a) ls) ≡ links_cost hs ls
  unfolding queue_cost links_cost
  queue_cost-sends hs a [] = refl
  queue_cost-sends hs a (l ∷ ls) = omega (arith, queue_cost-sends hs a ls)

  -- `t` is `s` after a call that queued at most `n` worth of entries and linked nothing.
  unfoldable pub Spends : ℕ → Net V → Net V → Type 0
  Spends n s t =
      (t.handlers ≡ s.handlers)
      × (t.targets ≡ s.targets)
      × (queue_cost s.handlers t.queue ≤ queue_cost s.handlers s.queue + n)

  pub send-Spends : (n : ℕ) (a : V) (s : Net V) → Bounded s → Spends (cost n) s (send n a s)
  unfolding send Spends
  send-Spends n a s b = (
    refl,
    refl,
    omega (
      arith,
      b n,
      queue_cost-append s.handlers s.queue (map (λ l. send_entry l a) (s.targets n)),
      queue_cost-sends s.handlers a (s.targets n),
    ),
  )

  queued :
      (e : Entry V) (s : Net V)
      → queue_cost s.handlers (s.queue ++ e ∷ [])
        ≤ queue_cost s.handlers s.queue + entry_cost s.handlers e
  unfolding queue_cost
  queued e s = omega (arith, queue_cost-append s.handlers s.queue (e ∷ []))

  coalesce-Spends :
      (st : ℕ) (f : V → V → V) (target : ℕ) (a : V) (s : Net V)
      → Spends (suc (cost target)) s (coalesce st f target a s)
  unfolding coalesce Spends entry_cost
  coalesce-Spends st f target a s = elim (Option-cases (s.coalesced st)) [
    | inl e ↦ rw (e, coalesce) (refl, refl, queued (coalesce_entry target st) s)
    | inr (old, e) ↦ rw (e, coalesce) (refl, refl, omega arith)
  ]

  fire_apply-Spends :
      (o : Option V) (target st : ℕ) (s : Net V)
      → Spends (suc (cost target)) s (fire_apply o target st s)
  unfolding fire_apply Spends entry_cost
  fire_apply-Spends none target st s = (refl, refl, omega arith)
  fire_apply-Spends (some w) target st s = elim (Bool-cases (s.applies st).fired) [
    | inl e ↦ rw e (refl, refl, omega arith)
    | inr e ↦ rw e (refl, refl, queued (apply_entry target st) s)
  ]

  kill_once-Spends : (k n : ℕ) (s t : Net V) → Spends n s t → Spends n s (kill_once k t)
  unfolding kill_once Spends
  kill_once-Spends k n s t p = elim (Option-cases (t.kills k)) [
    | inl e ↦ rw (e, kill_once) p
    | inr ((m, h), e) ↦ rw (e, kill_once) p
  ]

  pub handle-Spends :
      (h : Handler V) (target : ℕ) (a : V) (s : Net V)
      → Bounded s
      → Spends (out h target) s (handle h target a s)
  unfolding handle out Spends
  handle-Spends forward target a s b = send-Spends target a s b
  handle-Spends (map_handler f) target a s b = send-Spends target (f a) s b
  handle-Spends (filter_handler p) target a s b = elim (Bool-cases (p a)) [
    | inl e ↦ rw e (send-Spends target a s b)
    | inr e ↦ rw e (refl, refl, omega arith)
  ]
  handle-Spends (filter_optional_handler f) target a s b = elim (Option-cases (f a)) [
    | inl e ↦ rw (e, handle) (refl, refl, omega arith)
    | inr (w, e) ↦ rw (e, handle) (send-Spends target w s b)
  ]
  handle-Spends (merge_handler right) target a s b = send-Spends right a s b
  handle-Spends (snapshot_handler x f) target a s b =
      send-Spends target (f a (s.cells x).current) s b
  handle-Spends (once_handler k) target a s b = elim (Option-cases (s.kills k)) [
    | inl e ↦ rw (e, handle) (refl, refl, omega arith)
    | inr (l, e) ↦
        rw (e, handle)
          (kill_once-Spends k (cost target) s (send target a s) (send-Spends target a s b))
  ]
  handle-Spends (coalesce_handler st f) target a s b = coalesce-Spends st f target a s
  handle-Spends (last_firing_only_handler st) target a s b =
      coalesce-Spends st (λ old new. new) target a s
  handle-Spends (hold_handler x) target a s b = send-Spends target a (set_update x a s) b
  handle-Spends (collect_handler st f) target a s b =
      send-Spends target (f a (s.states st)).0
        (record s { states = update s.states st (f a (s.states st)).1 }) b
  handle-Spends (accum_s_handler st f) target a s b =
      send-Spends target (f a (s.states st))
        (record s { states = update s.states st (f a (s.states st)) }) b
  handle-Spends (apply_f_handler o st) target f s b =
      fire_apply-Spends (s.applies st).a o st
        (record s { applies = update s.applies st (record (s.applies st) { f = some f }) })
  handle-Spends (apply_a_handler o st) target a s b =
      fire_apply-Spends (s.applies st).f o st
        (record s { applies = update s.applies st (record (s.applies st) { a = some a }) })
  handle-Spends (listener_handler l) target a s b = (refl, refl, omega arith)

  pub Bounded-Spends : (n : ℕ) (s t : Net V) → Spends n s t → Bounded s → Bounded t
  unfolding Spends
  Bounded-Spends n s t (h, g, q) b m = ground (arith, b m, h, g)

  Spends-trans : (m n : ℕ) (s t u : Net V) → Spends m s t → Spends n t u → Spends (m + n) s u
  unfolding Spends
  Spends-trans m n s t u (h, g, q) (h', g', q') = (
    h' ∙ h,
    g' ∙ g,
    ground (arith, q, ap (λ hs. queue_cost hs u.queue) h, ap (λ hs. queue_cost hs t.queue) h, q'),
  )

  pub handle_all-Spends :
      (h : Handler V) (target : ℕ) (as' : List V) (s : Net V)
      → Bounded s
      → Spends (times as' (out h target)) s (handle_all h target as' s)
  unfolding handle_all times Spends
  handle_all-Spends h target [] s b = (refl, refl, omega arith)
  handle_all-Spends h target (a ∷ as') s b =
      let p = handle-Spends h target a s b in
      Spends-trans (out h target) (times as' (out h target)) s (handle h target a s)
        (handle_all h target as' (handle h target a s)) p
        (handle_all-Spends h target as' (handle h target a s)
          (Bounded-Spends (out h target) s (handle h target a s) p b))
