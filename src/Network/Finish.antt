-- ===== src/Network/Finish.antt =====
-- The end of a transaction.
use caesium_cxx.Base.{
  ℕ, zero, suc, ◌+◌, ◌-◌, ◌<◌, ◌≡◌, refl, sym, ap, subst, ◌∙◌, ◌⊎◌, inl, inr, Bool, true, false,
  Option, none, some, List, [], ◌∷◌, arith, is_some, Option-cases, List-cases, update,
}
use caesium_cxx.Network.{
  CellState, new_value, unlink_link, Entry, send_entry, coalesce_entry, firing_entry, apply_entry,
  Post, clear_firings, finalize, unlink, Net, is_empty, send, handle, handle_all, process, drain,
  post, run_posts, close,
}
use caesium_cxx.Network.Owed.{clears, finals, tally, coalescers, appliers}
use caesium_cxx.Network.Handle.{Inv, send-Inv, handle-Inv, handle_all-Inv, beside-Inv}

module _ {V : Type 0} (call : V → V → V) where
  -- Taking an entry from the queue never reads an empty `optional`, and keeps what is owed.
  pub process-Inv :
      (e : Entry V) (rest : List (Entry V)) (s : Net V)
      → s.queue ≡ e ∷ rest
      → Inv s
      → (t : Net V) × (process call e (record s { queue = rest }) ≡ some t) × Inv t
  unfolding process coalescers appliers
  process-Inv (send_entry l a) rest s q v =
      let u =
        handle (s.handlers l.h) l.n a
          (record s { queue = rest; in_callback = s.in_callback + 1 }) in
      (
        record u { in_callback = u.in_callback - 1 },
        refl,
        beside-Inv u u.states (u.in_callback - 1) u.heard (
            handle-Inv (s.handlers l.h) l.n a _ (record {
              cleared = v.cleared;
              finalized = v.finalized;
              sent = λ st. ground (arith, v.sent st, q);
              applied = λ st. ground (arith, v.applied st, q);
              ready = v.ready;
            })),
      )
  process-Inv (coalesce_entry target st) rest s q v = elim (Option-cases (s.coalesced st)) [
    | inl e ↦ absurd (ground (arith, e, q, v.sent st))
    | inr (w, e) ↦ (
      record (send target w (record s { queue = rest })) { coalesced = update s.coalesced st none },
      ground (arith, e),
      send-Inv target w (record s { queue = rest; coalesced = update s.coalesced st none })
          (record {
            cleared = v.cleared;
            finalized = v.finalized;
            sent = λ x. ground (arith, v.sent x, e, q);
            applied = λ x. ground (arith, v.applied x, q);
            ready = v.ready;
          }),
    )
  ]
  process-Inv (firing_entry target h as') rest s q v = (
    handle_all (s.handlers h) target as' (record s { queue = rest }),
    refl,
    handle_all-Inv (s.handlers h) target as' _ (record {
      cleared = v.cleared;
      finalized = v.finalized;
      sent = λ st. ground (arith, v.sent st, q);
      applied = λ st. ground (arith, v.applied st, q);
      ready = v.ready;
    }),
  )
  process-Inv (apply_entry target st) rest s q v = elim (Option-cases (s.applies st).f) [
    | inl e ↦ absurd (ground (arith, e, q, v.applied st, v.ready st))
    | inr (f, e) ↦ elim (Option-cases (s.applies st).a) [
      | inl e' ↦ absurd (ground (arith, e', q, v.applied st, v.ready st))
      | inr (a, e') ↦ (
        record (send target (call f a) (record s { queue = rest })) {
          applies = update s.applies st (record (s.applies st) { fired = false });
        },
        ground (arith, e, e'),
        send-Inv target (call f a)
            (record s {
              queue = rest;
              applies = update s.applies st (record (s.applies st) { fired = false });
            })
            (record {
              cleared = v.cleared;
              finalized = v.finalized;
              sent = λ x. ground (arith, v.sent x, q);
              applied = λ x. ground (arith, v.applied x, e, e', q);
              ready = λ x. ground (arith, v.ready x);
            }),
      )
    ]
  ]

  -- The loop of the worker keeps what is owed, and leaves no entry.
  pub drain-Inv :
      (fuel : ℕ) (s t : Net V) → drain call fuel s ≡ some t → Inv s → Inv t × (t.queue ≡ [])
  unfolding drain
  drain-Inv zero s t e v = absurd (ground (arith, e))
  drain-Inv (suc fuel) s t e v = elim (List-cases s.queue) [
    | inl none_left ↦
        subst {A = Net V} (λ u. Inv u × (u.queue ≡ [])) (ground (arith, none_left, e))
          (v, none_left)
    | inr (x, rest, q) ↦
        let (u, f, w) = process-Inv x rest s q v in drain-Inv fuel u t (ground (arith, q, f, e)) w
  ]

module _ {V : Type 0} where
  -- All firings are taken back, each update is the current value of its cell, the rest is as it
  -- was.
  Finished : Net V → Net V → Type 0
  Finished s t =
      ((n : ℕ) → t.firings n ≡ [])
      × ((c : ℕ) → t.cells c ≡ record { current = new_value (s.cells c); update = none })
      × (t.queue ≡ s.queue)
      × (t.posts ≡ s.posts)
      × (t.coalesced ≡ s.coalesced)
      × (t.applies ≡ s.applies)

  empty_lem : (xs : List V) → is_empty xs ≡ true → xs ≡ []
  empty_lem [] e = refl
  empty_lem (x ∷ xs) e = absurd (ground (arith, e))

  no_update :
      (x : CellState V)
      → tally (is_some x.update) ≡ 0
      → x ≡ record { current = new_value x; update = none }
  no_update x e = elim (Option-cases x.update) [
    | inl e' ↦ ground (arith, e')
    | inr (v, e') ↦ absurd (ground (arith, e, e'))
  ]

  tally-none : (o : Option V) → tally (is_some o) ≡ 0 → o ≡ none
  tally-none none e = refl
  tally-none (some v) e = absurd (ground (arith, e))

  run_posts-ok :
      (ps : List Post) (s : Net V)
      → ((n : ℕ) → (is_empty (s.firings n) ≡ true) ⊎ (0 < clears n ps))
      → ((c : ℕ) → finals c ps ≡ tally (is_some (s.cells c).update))
      → (t : Net V) × (run_posts ps s ≡ some t) × Finished s t
  unfolding run_posts post clears finals Finished
  run_posts-ok [] s cl fi = (
    s,
    refl,
    (
      (λ n. empty_lem (s.firings n) (ground (arith, cl n))),
      (λ c. no_update (s.cells c) (sym (fi c))),
      refl,
      refl,
      refl,
      refl,
    ),
  )
  run_posts-ok (clear_firings m ∷ ps) s cl fi =
      run_posts-ok ps (record s { firings = update s.firings m [] }) (λ n. ground (arith, cl n)) fi
  run_posts-ok (finalize m ∷ ps) s cl fi = elim (Option-cases (s.cells m).update) [
    | inl e ↦ absurd (ground (arith, e, fi m))
    | inr (v, e) ↦
        let (t, e', (f, g, k, p, co, ap')) =
          run_posts-ok ps
            (record s { cells = update s.cells m (record { current = v; update = none }) }) cl
            (λ c. ground (arith, e, fi c)) in
        (t, ground (arith, e, e'), (f, (λ c. g c ∙ ground (arith, e)), k, p, co, ap'))
  ]
  run_posts-ok (unlink m h ∷ ps) s cl fi =
      run_posts-ok ps (record s { targets = update s.targets m (unlink_link h (s.targets m)) }) cl
        fi

tally-false : (b : Bool) → tally b ≡ 0 → b ≡ false
tally-false false e = refl
tally-false true e = absurd (ground (arith, e))

module _ {V : Type 0} (call : V → V → V) where
  -- The end of a transaction: when nothing is owed that is not posted or queued, and the queue is
  -- worked off, then the posted actions run to their end (no empty `optional` is read), and after
  -- them no node holds a firing, each cell has the value of its last update or else its old one,
  -- no update, no coalesced value and no fired apply is left, and neither an entry nor an action.
  pub close-finishes :
      (fuel : ℕ) (s t : Net V)
      → Inv s
      → drain call fuel s ≡ some t
      → (u : Net V) × (close call fuel s ≡ some u)
        × ((n : ℕ) → u.firings n ≡ [])
        × ((c : ℕ) → u.cells c ≡ record { current = new_value (t.cells c); update = none })
        × (u.queue ≡ [])
        × (u.posts ≡ [])
        × ((st : ℕ) → u.coalesced st ≡ none)
        × ((st : ℕ) → (u.applies st).fired ≡ false)
  unfolding close Finished coalescers appliers
  close-finishes fuel s t v e =
      let (w, q) = drain-Inv call fuel s t e v in
      let (u, e', (f, g, k, p, co, ap')) =
        run_posts-ok t.posts (record t { posts = [] }) w.cleared w.finalized in
      (
        u,
        ground (arith, e, e'),
        f,
        g,
        k ∙ q,
        p,
        (λ st. ap (λ m. m st) co ∙ tally-none (t.coalesced st) (ground (arith, w.sent st, q))),
        (λ st.
            ap (λ m. (m st).fired) ap'
            ∙ tally-false (t.applies st).fired (ground (arith, w.applied st, q))),
      )
