-- ===== src/Timer/Due.antt =====
-- What fires when timers are due, and what a cancelled timer leaves.
use mathlib.Core.List.{append_assoc}
use caesium_cxx.Base.{
  ℕ, zero, suc, ◌+◌, ◌<◌, ◌≡◌, refl, ap, ◌∙◌, inl, inr, true, false, Option, none, some, List, [],
  ◌∷◌, ◌++◌, leb, if◌then◌else◌, update, length, arith, Bool-cases,
}
use caesium_cxx.Timer.{
  Event, before, push, pop_if, remove, Timers, do_cancel, alarm, alarms, send_to, run_due,
}

-- The events of a queue up to the first that is not due, the rest, and what they send.
unfoldable pub due : ℕ → List Event → List Event
due now [] = []
due now (e ∷ es) = let rest = due now es in if leb e.t now then e ∷ rest else []

unfoldable pub not_due : ℕ → List Event → List Event
not_due now [] = []
not_due now (e ∷ es) = let rest = not_due now es in if leb e.t now then rest else e ∷ es

unfoldable pub firings : List Event → List (Option ℕ × ℕ)
firings [] = []
firings (e ∷ es) = (none, e.t) ∷ (some e.sink, e.t) ∷ firings es

run_due_go :
    (now fuel : ℕ) (q : List Event) (s : Timers)
    → length q < fuel
    → run_due (λ o t. []) now fuel (record s { event_queue = q })
      ≡ some (record s {
        event_queue = not_due now q;
        sent = s.sent ++ (firings (due now q) ++ (none, now) ∷ []);
      })
unfolding run_due pop_if send_to alarms due not_due firings
run_due_go now zero q s le = absurd (ground (arith, le))
run_due_go now (suc fuel) [] s le = refl
run_due_go now (suc fuel) (e ∷ q) s le = elim (Bool-cases (leb e.t now)) [
  | inl d ↦
      rw (d, run_due, pop_if)
        (run_due_go now fuel q
            (record s { sent = (s.sent ++ (none, e.t) ∷ []) ++ (some e.sink, e.t) ∷ [] })
            (omega (arith, le))
          ∙ simp append_assoc)
  | inr d ↦ rw (d, run_due, pop_if) refl
]

-- When nothing reacts to a firing, and there is fuel for one round more than there are events,
-- then the hook fires the events at the head of the queue that are due, in their order, the time
-- cell with the time of each first, then sets the time cell to the present time, and leaves the
-- rest of the queue.
run_due-firings :
    (now fuel : ℕ) (s : Timers)
    → length s.event_queue < fuel
    → run_due (λ o t. []) now fuel s
      ≡ some (record s {
        event_queue = not_due now s.event_queue;
        sent = s.sent ++ (firings (due now s.event_queue) ++ (none, now) ∷ []);
      })
run_due-firings now fuel s le = run_due_go now fuel s.event_queue s le

unfoldable pub All : (Event → Type 0) → List Event → Type 0
All P [] = Unit
All P (e ∷ es) = P e × All P es

before_irrefl : (e : Event) → before e e ≡ false
unfolding before
before_irrefl e = ground arith

newer_lem : (e x : Event) → before e x ≡ false → before x e ≡ false → x.seq < e.seq → ⊥
unfolding before
newer_lem e x b c h = ground (arith, b, c, h)

remove-push : (e : Event) (q : List Event) → All (λ x. x.seq < e.seq) q → remove e (push e q) ≡ q
unfolding All remove push
remove-push e [] h = ground arith
remove-push e (x ∷ xs) (h, hs) = elim (Bool-cases (before e x)) [
  | inl b ↦ rw (b, before_irrefl e) refl
  | inr b ↦ elim (Bool-cases (before x e)) [
    | inl c ↦ rw (b, c) (rw (b, c) (ap (λ l. x ∷ l) (remove-push e xs hs)))
    | inr c ↦ absurd (newer_lem e x b c h)
  ]
]

do_cancel_idle :
    (i : ℕ) (s : Timers)
    → (s.states i).cancel_current ≡ false
    → do_cancel i s
      ≡ some (record s {
        states = update s.states i (record { current = none; cancel_current = false });
      })
unfolding do_cancel
do_cancel_idle i s e = simp (e, do_cancel) refl

pub do_cancel_set :
    (i : ℕ) (e : Event) (s : Timers)
    → (s.states i).cancel_current ≡ true
    → (s.states i).current ≡ some e
    → do_cancel i s
      ≡ some (record s {
        event_queue = remove e s.event_queue;
        states = update s.states i (record { current = none; cancel_current = false });
        cancelled = s.cancelled + 1;
      })
unfolding do_cancel
do_cancel_set i e s c h = simp (c, h, do_cancel) refl

pub alarm_set :
    (i τ : ℕ) (s s' : Timers)
    → do_cancel i s ≡ some s'
    → let e : Event = record { t = τ; sink = i; seq = s'.next_seq + 1 } in
      alarm i (some τ) s
      ≡ some (record s' {
        event_queue = push e s'.event_queue;
        next_seq = s'.next_seq + 1;
        states = update s'.states i (record { current = some e; cancel_current = true });
        set_timers = s'.set_timers + 1;
      })
unfolding alarm
alarm_set i τ s s' h = rw (h, alarm) refl

-- One pending event for each alarm: when no timer is set for the `i`-th alarm, and no event in
-- the queue is newer than the last one made, then setting the alarm succeeds, and after that,
-- taking the alarm back gives the old queue again, and setting it to another time gives the old
-- queue with an event at that time only.
alarm-replaces :
    (i τ τ' : ℕ) (s : Timers)
    → (s.states i).cancel_current ≡ false
    → All (λ x. x.seq < s.next_seq + 1) s.event_queue
    → (t : Timers) × (alarm i (some τ) s ≡ some t)
      × ((u : Timers) × (alarm i none t ≡ some u) × (u.event_queue ≡ s.event_queue))
      × ((u : Timers) × (alarm i (some τ') t ≡ some u)
          × (u.event_queue
              ≡ push (record { t = τ'; sink = i; seq = s.next_seq + 1 + 1 }) s.event_queue))
unfolding alarm
alarm-replaces i τ τ' s c h =
    let e : Event = record { t = τ; sink = i; seq = s.next_seq + 1 } in
    let t = record s {
      event_queue = push e s.event_queue;
      next_seq = s.next_seq + 1;
      states =
          update (update s.states i (record { current = none; cancel_current = false })) i
            (record { current = some e; cancel_current = true });
      set_timers = s.set_timers + 1;
    } in
    let back : remove e (push e s.event_queue) ≡ s.event_queue = remove-push e s.event_queue h in
    let set : do_cancel i t ≡ some _ = do_cancel_set i e t (ground arith) (ground arith) in
    (
      t,
      alarm_set i τ s _ (do_cancel_idle i s c),
      (_, set, back),
      (_, alarm_set i τ' t _ set, ap (push _) back),
    )
