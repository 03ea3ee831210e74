-- ===== src/Network/Handle.antt =====
-- What is owed to the state of a running transaction: a posted action for every firing and for
-- every update, and an entry for every coalesced value and every apply that has fired.
use caesium_cxx.Base.{
  ℕ, ◌<◌, ◌≡◌, refl, ◌⊎◌, inl, inr, true, Option, none, some, List, [], ◌∷◌, ◌++◌, map, arith,
  is_some, Option-cases, Bool-cases, update,
}
use caesium_cxx.Network.{
  Handler, forward, map_handler, filter_handler, filter_optional_handler, merge_handler,
  snapshot_handler, once_handler, coalesce_handler, last_firing_only_handler, hold_handler,
  collect_handler, accum_s_handler, apply_f_handler, apply_a_handler, listener_handler, send_entry,
  coalesce_entry, apply_entry, clear_firings, finalize, unlink, Net, is_empty, send, kill_once,
  coalesce, set_update, fire_apply, handle, handle_all,
}
use caesium_cxx.Network.Owed.{
  clears, finals, clears-concat, finals-concat, tally, coalescers, appliers, coalescers-append,
  appliers-append, no_coalescers, no_appliers,
}

module _ {V : Type 0} where
  pub record Inv (s : Net V) : Type 0 where
    pub cleared : (n : ℕ) → (is_empty (s.firings n) ≡ true) ⊎ (0 < clears n s.posts)
    pub finalized : (c : ℕ) → finals c s.posts ≡ tally (is_some (s.cells c).update)
    pub sent : (st : ℕ) → coalescers st s.queue ≡ tally (is_some (s.coalesced st))
    pub applied : (st : ℕ) → appliers st s.queue ≡ tally (s.applies st).fired
    pub ready :
        (st : ℕ)
        → (s.applies st).fired ≡ true
        → (is_some (s.applies st).f ≡ true) × (is_some (s.applies st).a ≡ true)

  pub send-Inv : (n : ℕ) (a : V) (s : Net V) → Inv s → Inv (send n a s)
  unfolding send clears finals
  send-Inv n a s v = record {
    cleared = λ m. ground (arith, v.cleared m, clears-concat m s.posts (clear_firings n));
    finalized = λ c. ground (arith, v.finalized c, finals-concat c s.posts (clear_firings n));
    sent = λ st. ground (
      arith,
      v.sent st,
      coalescers-append st s.queue (map (λ l. send_entry l a) (s.targets n)),
      no_coalescers st a (s.targets n),
    );
    applied = λ st. ground (
      arith,
      v.applied st,
      appliers-append st s.queue (map (λ l. send_entry l a) (s.targets n)),
      no_appliers st a (s.targets n),
    );
    ready = v.ready;
  }

  set_update-Inv : (x : ℕ) (a : V) (s : Net V) → Inv s → Inv (set_update x a s)
  unfolding set_update clears finals
  set_update-Inv x a s v = record {
    cleared = λ m. ground (arith, v.cleared m, clears-concat m s.posts (finalize x));
    finalized =
        λ c. ground (arith, v.finalized c, v.finalized x, finals-concat c s.posts (finalize x));
    sent = v.sent;
    applied = v.applied;
    ready = v.ready;
  }

  kill_once-Inv : (k : ℕ) (s : Net V) → Inv s → Inv (kill_once k s)
  unfolding kill_once clears finals
  kill_once-Inv k s v = elim (Option-cases (s.kills k)) [
    | inl e ↦ rw (e, kill_once) v
    | inr ((n, h), e) ↦
        rw (e, kill_once)
          (record {
            cleared = λ m. ground (arith, v.cleared m, clears-concat m s.posts (unlink n h));
            finalized = λ c. ground (arith, v.finalized c, finals-concat c s.posts (unlink n h));
            sent = v.sent;
            applied = v.applied;
            ready = v.ready;
          })
  ]

  coalesce-Inv :
      (st : ℕ) (f : V → V → V) (target : ℕ) (a : V) (s : Net V)
      → Inv s
      → Inv (coalesce st f target a s)
  unfolding coalesce coalescers appliers
  coalesce-Inv st f target a s v = elim (Option-cases (s.coalesced st)) [
    | inl e ↦
        rw (e, coalesce)
          (record {
            cleared = v.cleared;
            finalized = v.finalized;
            sent = λ x.
                ground
                  (arith, e, v.sent x, coalescers-append x s.queue (coalesce_entry target st ∷ []));
            applied = λ x.
                ground
                  (arith, v.applied x, appliers-append x s.queue (coalesce_entry target st ∷ []));
            ready = v.ready;
          })
    | inr (old, e) ↦
        rw (e, coalesce)
          (record {
            cleared = v.cleared;
            finalized = v.finalized;
            sent = λ x. ground (arith, e, v.sent x);
            applied = v.applied;
            ready = v.ready;
          })
  ]

  fire_apply-Inv :
      (o : Option V) (out st : ℕ) (s : Net V)
      → Inv s
      → (is_some o ≡ true → (is_some (s.applies st).f ≡ true) × (is_some (s.applies st).a ≡ true))
      → Inv (fire_apply o out st s)
  unfolding fire_apply appliers coalescers
  fire_apply-Inv none out st s v both = v
  fire_apply-Inv (some w) out st s v both = elim (Bool-cases (s.applies st).fired) [
    | inl e ↦ rw e v
    | inr e ↦ rw e (record {
      cleared = v.cleared;
      finalized = v.finalized;
      sent = λ x. ground (arith, v.sent x, coalescers-append x s.queue (apply_entry out st ∷ []));
      applied =
          λ x. ground (arith, e, v.applied x, appliers-append x s.queue (apply_entry out st ∷ []));
      ready = λ x. ground (arith, v.ready x, both refl);
    })
  ]

  set_f : ℕ → V → Net V → Net V
  set_f st f s = record s { applies = update s.applies st (record (s.applies st) { f = some f }) }

  set_a : ℕ → V → Net V → Net V
  set_a st a s = record s { applies = update s.applies st (record (s.applies st) { a = some a }) }

  set_f-Inv : (st : ℕ) (f : V) (s : Net V) → Inv s → Inv (set_f st f s)
  unfolding set_f
  set_f-Inv st f s v = record {
    cleared = v.cleared;
    finalized = v.finalized;
    sent = v.sent;
    applied = λ x. ground (arith, v.applied x);
    ready = λ x. ground (arith, v.ready x);
  }

  set_a-Inv : (st : ℕ) (a : V) (s : Net V) → Inv s → Inv (set_a st a s)
  unfolding set_a
  set_a-Inv st a s v = record {
    cleared = v.cleared;
    finalized = v.finalized;
    sent = v.sent;
    applied = λ x. ground (arith, v.applied x);
    ready = λ x. ground (arith, v.ready x);
  }

  -- The parts of the state that nothing is owed to.
  pub beside-Inv :
      (s : Net V) (states : ℕ → V) (n : ℕ) (heard : List (ℕ × V))
      → Inv s
      → Inv (record s { states = states; in_callback = n; heard = heard })
  beside-Inv s states n heard v = record {
    cleared = v.cleared;
    finalized = v.finalized;
    sent = v.sent;
    applied = v.applied;
    ready = v.ready;
  }

  pub handle-Inv :
      (h : Handler V) (target : ℕ) (a : V) (s : Net V) → Inv s → Inv (handle h target a s)
  unfolding handle set_f set_a
  handle-Inv forward target a s v = send-Inv target a s v
  handle-Inv (map_handler f) target a s v = send-Inv target (f a) s v
  handle-Inv (filter_handler p) target a s v = elim (Bool-cases (p a)) [
    | inl e ↦ rw e (send-Inv target a s v)
    | inr e ↦ rw e v
  ]
  handle-Inv (filter_optional_handler f) target a s v = elim (Option-cases (f a)) [
    | inl e ↦ rw (e, handle) v
    | inr (b, e) ↦ rw (e, handle) (send-Inv target b s v)
  ]
  handle-Inv (merge_handler right) target a s v = send-Inv right a s v
  handle-Inv (snapshot_handler x f) target a s v = send-Inv target (f a (s.cells x).current) s v
  handle-Inv (once_handler k) target a s v = elim (Option-cases (s.kills k)) [
    | inl e ↦ rw (e, handle) v
    | inr (l, e) ↦ rw (e, handle) (kill_once-Inv k (send target a s) (send-Inv target a s v))
  ]
  handle-Inv (coalesce_handler st f) target a s v = coalesce-Inv st f target a s v
  handle-Inv (last_firing_only_handler st) target a s v =
      coalesce-Inv st (λ old new. new) target a s v
  handle-Inv (hold_handler x) target a s v =
      send-Inv target a (set_update x a s) (set_update-Inv x a s v)
  handle-Inv (collect_handler st f) target a s v =
      send-Inv target (f a (s.states st)).0 _
        (beside-Inv s (update s.states st (f a (s.states st)).1) s.in_callback s.heard v)
  handle-Inv (accum_s_handler st f) target a s v =
      send-Inv target (f a (s.states st)) _
        (beside-Inv s (update s.states st (f a (s.states st))) s.in_callback s.heard v)
  handle-Inv (apply_f_handler out st) target f s v =
      fire_apply-Inv (s.applies st).a out st (set_f st f s) (set_f-Inv st f s v)
        (λ h. ground (arith, h))
  handle-Inv (apply_a_handler out st) target a s v =
      fire_apply-Inv (s.applies st).f out st (set_a st a s) (set_a-Inv st a s v)
        (λ h. ground (arith, h))
  handle-Inv (listener_handler l) target a s v =
      beside-Inv s s.states s.in_callback (s.heard ++ (l, a) ∷ []) v

  pub handle_all-Inv :
      (h : Handler V) (target : ℕ) (as' : List V) (s : Net V)
      → Inv s
      → Inv (handle_all h target as' s)
  unfolding handle_all
  handle_all-Inv h target [] s v = v
  handle_all-Inv h target (a ∷ as') s v =
      handle_all-Inv h target as' (handle h target a s) (handle-Inv h target a s v)
