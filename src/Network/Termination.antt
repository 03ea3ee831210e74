-- ===== src/Network/Termination.antt =====
-- The loop of a worker ends when no node can reach itself.
use caesium_cxx.Base.{
  ℕ, zero, suc, ◌+◌, ◌<◌, ◌≤◌, ◌≡◌, ap, subst, inl, inr, false, none, some, arith, Option-cases,
  List-cases, update,
}
use caesium_cxx.Network.{
  Entry, send_entry, coalesce_entry, firing_entry, apply_entry, Net, send, process, drain,
}
use caesium_cxx.Network.Handle.{Inv}
use caesium_cxx.Network.Finish.{process-Inv}
use caesium_cxx.Network.Spends.{
  out, times, entry_cost, queue_cost, Bounded, Spends, send-Spends, handle-Spends,
  handle_all-Spends, Bounded-Spends,
}

some-inj : {V : Type 0} (s t : Net V) → some s ≡ some t → s ≡ t
some-inj s t e = ground (arith, e)

module _ {V : Type 0} (call : V → V → V) (cost : ℕ → ℕ) where
  -- One round of the loop costs at least one of what the entry was worth.
  process-Spends :
      (e : Entry V) (s t : Net V)
      → process call e s ≡ some t
      → Bounded cost s
      → (n : ℕ) × (suc n ≤ entry_cost cost s.handlers e) × Spends cost n s t
  unfolding process Spends entry_cost
  process-Spends (send_entry l a) s t e b = (
    out cost (s.handlers l.h) l.n,
    omega arith,
    subst {A = Net V} (λ u. Spends cost (out cost (s.handlers l.h) l.n) s u) (some-inj _ t e)
        (handle-Spends cost (s.handlers l.h) l.n a (record s { in_callback = s.in_callback + 1 })
          b),
  )
  process-Spends (coalesce_entry target st) s t e b = elim (Option-cases (s.coalesced st)) [
    | inl f ↦ absurd (ground (arith, e, f))
    | inr (v, f) ↦ (
      cost target,
      omega arith,
      subst {A = Net V} (λ u. Spends cost (cost target) s u)
          (some-inj (record (send target v s) { coalesced = update s.coalesced st none }) t
            (ground (arith, e, f)))
          (send-Spends cost target v s b),
    )
  ]
  process-Spends (firing_entry target h as') s t e b = (
    times cost as' (out cost (s.handlers h) target),
    omega arith,
    subst {A = Net V} (λ u. Spends cost (times cost as' (out cost (s.handlers h) target)) s u)
        (some-inj _ t e) (handle_all-Spends cost (s.handlers h) target as' s b),
  )
  process-Spends (apply_entry target st) s t e b = elim (Option-cases (s.applies st).f) [
    | inl f ↦ absurd (ground (arith, e, f))
    | inr (v, f) ↦ elim (Option-cases (s.applies st).a) [
      | inl g ↦ absurd (ground (arith, e, f, g))
      | inr (w, g) ↦ (
        cost target,
        omega arith,
        subst {A = Net V} (λ u. Spends cost (cost target) s u)
            (some-inj
              (record (send target (call v w) s) {
                applies = update s.applies st (record (s.applies st) { fired = false });
              })
              t (ground (arith, e, f, g)))
            (send-Spends cost target (call v w) s b),
      )
    ]
  ]

  -- The loop of the worker ends: when the links have no cycle (a firing of each node costs at least
  -- what its links cost), and nothing is owed that is not queued or posted, then as many rounds as
  -- the queue costs, and one to see it empty, work it off without reading an empty `optional`.
  pub drain-terminates :
      (fuel : ℕ) (s : Net V)
      → Inv s
      → Bounded cost s
      → queue_cost cost s.handlers s.queue < fuel
      → (t : Net V) × (drain call fuel s ≡ some t)
  unfolding drain queue_cost Spends
  drain-terminates zero s v b le = absurd (ground (arith, le))
  drain-terminates (suc fuel) s v b le = elim (List-cases s.queue) [
    | inl none_left ↦ (s, ground (arith, none_left))
    | inr (x, rest, q) ↦
        let (u, e, w) = process-Inv call x rest s q v in
        let (n, lt, sp) = process-Spends x (record s { queue = rest }) u e b in
        let (hh, gg, qq) = sp in
        let (t, e') =
          drain-terminates fuel u w (Bounded-Spends cost n (record s { queue = rest }) u sp b)
            (ground (arith, le, q, lt, qq, ap (λ hs. queue_cost cost hs u.queue) hh)) in
        (t, ground (arith, q, e, e'))
  ]
