-- ===== src/Network/Callback.antt =====
-- Sending from outside and from inside a callback.
use caesium_cxx.Base.{
  ℕ, zero, suc, ◌+◌, ◌≡◌, refl, ap, ◌∙◌, inl, inr, Option, none, some, List, [], ◌∷◌, arith, ltb,
  if◌then◌else◌, Option-cases, Bool-cases, List-cases,
}
use caesium_cxx.Network.{
  Handler, forward, map_handler, filter_handler, filter_optional_handler, merge_handler,
  snapshot_handler, once_handler, coalesce_handler, last_firing_only_handler, hold_handler,
  collect_handler, accum_s_handler, apply_f_handler, apply_a_handler, listener_handler, Entry,
  send_entry, coalesce_entry, firing_entry, apply_entry, Net, send, kill_once, coalesce, set_update,
  fire_apply, handle, handle_all, process, drain, sink_send,
}

module _ {V : Type 0} where
  coalesce-in_callback :
      (st : ℕ) (f : V → V → V) (target : ℕ) (a : V) (s : Net V)
      → (coalesce st f target a s).in_callback ≡ s.in_callback
  unfolding coalesce
  coalesce-in_callback st f target a s = elim (Option-cases (s.coalesced st)) [
    | inl e ↦ rw (e, coalesce) refl
    | inr (old, e) ↦ rw (e, coalesce) refl
  ]

  kill_once-in_callback : (k : ℕ) (s : Net V) → (kill_once k s).in_callback ≡ s.in_callback
  unfolding kill_once
  kill_once-in_callback k s = elim (Option-cases (s.kills k)) [
    | inl e ↦ rw (e, kill_once) refl
    | inr ((n, h), e) ↦ rw (e, kill_once) refl
  ]

  fire_apply-in_callback :
      (o : Option V) (out st : ℕ) (s : Net V) → (fire_apply o out st s).in_callback ≡ s.in_callback
  unfolding fire_apply
  fire_apply-in_callback none out st s = refl
  fire_apply-in_callback (some v) out st s = elim (Bool-cases (s.applies st).fired) [
    | inl e ↦ rw e refl
    | inr e ↦ rw e refl
  ]

  handle-in_callback :
      (h : Handler V) (target : ℕ) (a : V) (s : Net V)
      → (handle h target a s).in_callback ≡ s.in_callback
  unfolding handle send set_update
  handle-in_callback forward target a s = refl
  handle-in_callback (map_handler f) target a s = refl
  handle-in_callback (filter_handler p) target a s = elim (Bool-cases (p a)) [
    | inl e ↦ rw e refl
    | inr e ↦ rw e refl
  ]
  handle-in_callback (filter_optional_handler f) target a s = elim (Option-cases (f a)) [
    | inl e ↦ rw (e, handle) refl
    | inr (b, e) ↦ rw (e, handle) refl
  ]
  handle-in_callback (merge_handler right) target a s = refl
  handle-in_callback (snapshot_handler x f) target a s = refl
  handle-in_callback (once_handler k) target a s = elim (Option-cases (s.kills k)) [
    | inl e ↦ rw (e, handle) refl
    | inr (l, e) ↦ rw (e, handle) (kill_once-in_callback k (send target a s))
  ]
  handle-in_callback (coalesce_handler st f) target a s = coalesce-in_callback st f target a s
  handle-in_callback (last_firing_only_handler st) target a s =
      coalesce-in_callback st (λ old new. new) target a s
  handle-in_callback (hold_handler x) target a s = refl
  handle-in_callback (collect_handler st f) target a s = refl
  handle-in_callback (accum_s_handler st f) target a s = refl
  handle-in_callback (apply_f_handler out st) target a s =
      fire_apply-in_callback (s.applies st).a out st _
  handle-in_callback (apply_a_handler out st) target a s =
      fire_apply-in_callback (s.applies st).f out st _
  handle-in_callback (listener_handler l) target a s = refl

  handle_all-in_callback :
      (h : Handler V) (target : ℕ) (as' : List V) (s : Net V)
      → (handle_all h target as' s).in_callback ≡ s.in_callback
  unfolding handle_all
  handle_all-in_callback h target [] s = refl
  handle_all-in_callback h target (a ∷ as') s =
      handle_all-in_callback h target as' (handle h target a s) ∙ handle-in_callback h target a s

module _ {V : Type 0} (call : V → V → V) where
  process-in_callback :
      (e : Entry V) (s t : Net V) → process call e s ≡ some t → t.in_callback ≡ s.in_callback
  unfolding process send
  process-in_callback (send_entry l a) s t e = ground (
    arith,
    e,
    handle-in_callback (s.handlers l.h) l.n a (record s { in_callback = s.in_callback + 1 }),
  )
  process-in_callback (coalesce_entry target st) s t e = elim (Option-cases (s.coalesced st)) [
    | inl f ↦ absurd (ground (arith, e, f))
    | inr (v, f) ↦ ground (arith, e, f)
  ]
  process-in_callback (firing_entry target h as') s t e =
      ground (arith, e, handle_all-in_callback (s.handlers h) target as' s)
  process-in_callback (apply_entry target st) s t e = elim (Option-cases (s.applies st).f) [
    | inl f ↦ absurd (ground (arith, e, f))
    | inr (v, f) ↦ elim (Option-cases (s.applies st).a) [
      | inl g ↦ absurd (ground (arith, e, f, g))
      | inr (w, g) ↦ ground (arith, e, f, g)
    ]
  ]

  drain-in_callback :
      (fuel : ℕ) (s t : Net V) → drain call fuel s ≡ some t → t.in_callback ≡ s.in_callback
  unfolding drain
  drain-in_callback zero s t e = cc
  drain-in_callback (suc fuel) s t e = elim (List-cases s.queue) [
    | inl none_left ↦ ground (arith, none_left, e)
    | inr (x, rest, q) ↦ elim (Option-cases (process call x (record s { queue = rest }))) [
      | inl f ↦ absurd (ground (arith, q, f, e))
      | inr (u, f) ↦
          drain-in_callback fuel u t (ground (arith, q, f, e))
          ∙ process-in_callback x (record s { queue = rest }) u f
    ]
  ]

  -- `send` of a sink throws in the state of every callback that the loop of the worker makes,
  -- which has `in_callback` raised by one; after the loop it throws just when it would have
  -- thrown before it.
  sink_send-after_drain :
      (fuel : ℕ) (s t : Net V) (target : ℕ) (a : V)
      → drain call fuel s ≡ some t
      → (sink_send target a (record s { in_callback = s.in_callback + 1 }) ≡ none)
        × (sink_send target a t ≡ (if ltb 0 s.in_callback then none else some (send target a t)))
  unfolding sink_send
  sink_send-after_drain fuel s t target a e =
      let k = drain-in_callback fuel s t e in
      (ground arith, ap (λ n. if ltb 0 n then none else some (send target a t)) k)
