-- ===== src/Network/Delay.antt =====
-- Cells change between transactions only.
use caesium_cxx.Base.{
  ℕ, zero, suc, ◌+◌, ◌≡◌, refl, ◌∙◌, inl, inr, Option, none, some, List, [], ◌∷◌, arith,
  Option-cases, List-cases,
}
use caesium_cxx.Network.{
  Handler, forward, map_handler, filter_handler, filter_optional_handler, merge_handler,
  snapshot_handler, once_handler, coalesce_handler, last_firing_only_handler, hold_handler,
  collect_handler, accum_s_handler, apply_f_handler, apply_a_handler, listener_handler, Entry,
  send_entry, coalesce_entry, firing_entry, apply_entry, Net, sample, send, kill_once, coalesce,
  set_update, fire_apply, handle, handle_all, process, drain,
}

module _ {V : Type 0} where
  -- Every cell of `t` has the value that it has in `s`.
  abbrev pub SameSamples : Net V → Net V → Type 0
  SameSamples s t = (c : ℕ) → sample (t.cells c) ≡ sample (s.cells c)

  send-samples : (n : ℕ) (a : V) (s : Net V) → SameSamples s (send n a s)
  unfolding send
  send-samples n a s c = ground arith

  coalesce-samples :
      (st : ℕ) (f : V → V → V) (target : ℕ) (a : V) (s : Net V)
      → SameSamples s (coalesce st f target a s)
  unfolding coalesce
  coalesce-samples st f target a s c = ground arith

  set_update-samples : (x : ℕ) (a : V) (s : Net V) → SameSamples s (set_update x a s)
  unfolding set_update
  set_update-samples x a s c = ground arith

  kill_once-samples : (k : ℕ) (s : Net V) → SameSamples s (kill_once k s)
  unfolding kill_once
  kill_once-samples k s c = elim (Option-cases (s.kills k)) [
    | inl e ↦ ground (arith, e)
    | inr ((n, h), e) ↦ ground (arith, e)
  ]

  fire_apply-samples :
      (o : Option V) (out st : ℕ) (s : Net V) → SameSamples s (fire_apply o out st s)
  unfolding fire_apply
  fire_apply-samples none out st s c = refl
  fire_apply-samples (some v) out st s c = ground arith

  handle-samples :
      (h : Handler V) (target : ℕ) (a : V) (s : Net V) → SameSamples s (handle h target a s)
  unfolding handle send
  handle-samples forward target a s c = send-samples target a s c
  handle-samples (map_handler f) target a s c = send-samples target (f a) s c
  handle-samples (filter_handler p) target a s c = ground (arith, send-samples target a s c)
  handle-samples (filter_optional_handler f) target a s c = elim (Option-cases (f a)) [
    | inl e ↦ ground (arith, e)
    | inr (b, e) ↦ ground (arith, e, send-samples target b s c)
  ]
  handle-samples (merge_handler right) target a s c = send-samples right a s c
  handle-samples (snapshot_handler x f) target a s c = refl
  handle-samples (once_handler k) target a s c = elim (Option-cases (s.kills k)) [
    | inl e ↦ ground (arith, e)
    | inr (l, e) ↦
        ground (arith, e, kill_once-samples k (send target a s) c, send-samples target a s c)
  ]
  handle-samples (coalesce_handler st f) target a s c = coalesce-samples st f target a s c
  handle-samples (last_firing_only_handler st) target a s c =
      coalesce-samples st (λ old new. new) target a s c
  handle-samples (hold_handler x) target a s c =
      send-samples target a (set_update x a s) c ∙ set_update-samples x a s c
  handle-samples (collect_handler st f) target a s c = ground arith
  handle-samples (accum_s_handler st f) target a s c = refl
  handle-samples (apply_f_handler out st) target a s c =
      fire_apply-samples (s.applies st).a out st _ c
  handle-samples (apply_a_handler out st) target a s c =
      fire_apply-samples (s.applies st).f out st _ c
  handle-samples (listener_handler l) target a s c = refl

  handle_all-samples :
      (h : Handler V) (target : ℕ) (as' : List V) (s : Net V)
      → SameSamples s (handle_all h target as' s)
  unfolding handle_all
  handle_all-samples h target [] s c = refl
  handle_all-samples h target (a ∷ as') s c =
      handle_all-samples h target as' (handle h target a s) c ∙ handle-samples h target a s c

module _ {V : Type 0} (call : V → V → V) where
  process-samples : (e : Entry V) (s t : Net V) → process call e s ≡ some t → SameSamples s t
  unfolding process
  process-samples (send_entry l a) s t e c = ground (
    arith,
    e,
    handle-samples (s.handlers l.h) l.n a (record s { in_callback = s.in_callback + 1 }) c,
  )
  process-samples (coalesce_entry target st) s t e c = elim (Option-cases (s.coalesced st)) [
    | inl f ↦ absurd (ground (arith, e, f))
    | inr (v, f) ↦ ground (arith, e, f, send-samples target v s c)
  ]
  process-samples (firing_entry target h as') s t e c =
      ground (arith, e, handle_all-samples (s.handlers h) target as' s c)
  process-samples (apply_entry target st) s t e c = elim (Option-cases (s.applies st).f) [
    | inl f ↦ absurd (ground (arith, e, f))
    | inr (v, f) ↦ elim (Option-cases (s.applies st).a) [
      | inl g ↦ absurd (ground (arith, e, f, g))
      | inr (w, g) ↦ ground (arith, e, f, g, send-samples target (call v w) s c)
    ]
  ]

  -- The delay of cells: while the queue of a transaction is worked off, and whatever fires, no cell
  -- changes its value. So every snapshot of the transaction reads what the cell held before it.
  pub drain-samples :
      (fuel : ℕ) (s t : Net V)
      → drain call fuel s ≡ some t
      → (c : ℕ) → sample (t.cells c) ≡ sample (s.cells c)
  unfolding drain
  drain-samples zero s t e c = cc
  drain-samples (suc fuel) s t e c = elim (List-cases s.queue) [
    | inl none_left ↦ ground (arith, none_left, e)
    | inr (x, rest, q) ↦ elim (Option-cases (process call x (record s { queue = rest }))) [
      | inl f ↦ absurd (ground (arith, q, f, e))
      | inr (u, f) ↦
          drain-samples fuel u t (ground (arith, q, f, e)) c
          ∙ process-samples x (record s { queue = rest }) u f c
    ]
  ]
