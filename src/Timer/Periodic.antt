-- ===== src/Timer/Periodic.antt =====
-- `periodic_timer` of sodium/time.h with a period that does not change.
use mathlib.Core.List.{append_assoc}
use caesium_cxx.Base.{
  ℕ, zero, suc, ◌+◌, ◌*◌, ◌≤◌, ◌<◌, ◌≡◌, refl, ap, subst, ◌∙◌, inl, inr, true, false, Option, none,
  some, List, [], ◌∷◌, ◌++◌, leb, ◌==◌, if◌then◌else◌, update, arith, Bool-cases,
}
use caesium_cxx.Timer.Due.{do_cancel_set, alarm_set}
use caesium_cxx.Timer.{Event, push, pop_if, remove, Timers, alarms, send_to, run_due}

-- What the program does: when the alarm fires, `t_zero` holds its time, and the alarm is set to the
-- period after that.
unfoldable pub periodic : (i p : ℕ) → Option ℕ → ℕ → List (ℕ × Option ℕ)
periodic i p none t = []
periodic i p (some j) t = if j == i then (i, some (t + p)) ∷ [] else []

-- Only the alarm `i` is set, to `t`.
pub record IsArmed (i t : ℕ) (s : Timers) : Type 0 where
  pub seq : ℕ
  pub queue : s.event_queue ≡ record { t = t; sink = i; seq = seq } ∷ []
  pub current :
      s.states i
      ≡ record { current = some (record { t = t; sink = i; seq = seq }); cancel_current = true }

unfoldable pub ticks : (i p t n : ℕ) → List (Option ℕ × ℕ)
ticks i p t zero = []
ticks i p t (suc n) = (none, t) ∷ (some i, t) ∷ ticks i p (t + p) n

own_alarm : (i p t : ℕ) → periodic i p (some i) t ≡ (i, some (t + p)) ∷ []
unfolding periodic
own_alarm i p t = ground arith

module _ (i p t seq : ℕ) where
  abbrev old : Event
  old = record { t = t; sink = i; seq = seq }

  -- The state after the alarm, which was not in the queue, has been set again.
  abbrev again : Timers → Timers
  again s =
      let e' : Event = record { t = t + p; sink = i; seq = s.next_seq + 1 } in
      record s {
        event_queue = e' ∷ [];
        next_seq = s.next_seq + 1;
        states =
            update (update s.states i (record { current = none; cancel_current = false })) i
              (record { current = some e'; cancel_current = true });
        set_timers = s.set_timers + 1;
        cancelled = s.cancelled + 1;
      }

  sets_again :
      (s : Timers)
      → s.states i ≡ record { current = some old; cancel_current = true }
      → send_to (periodic i p) (some i) t (record s { event_queue = [] })
        ≡ some (again (record s { sent = s.sent ++ (some i, t) ∷ [] }))
  unfolding send_to alarms remove push
  sets_again s h =
      let s₁ : Timers = record s { event_queue = []; sent = s.sent ++ (some i, t) ∷ [] } in
      let s₂ : Timers = record s₁ {
        states = update s.states i (record { current = none; cancel_current = false });
        cancelled = s.cancelled + 1;
      } in
      let next : Option Timers → Option Timers = λ d. elim d [ none ↦ none | some s' ↦ some s' ] in
      ap (λ c. alarms c s₁) (own_alarm i p t)
      ∙ ap next (
          alarm_set i (t + p) s₁ s₂
            (do_cancel_set i old s₁ (ap (λ x. x.cancel_current) h) (ap (λ x. x.current) h)))

  fires :
      (now fuel : ℕ) (s : Timers)
      → s.event_queue ≡ old ∷ []
      → s.states i ≡ record { current = some old; cancel_current = true }
      → t ≤ now
      → run_due (periodic i p) now (suc fuel) s
        ≡ run_due
            (periodic i p)
            now
            fuel
            (again (record s { sent = (s.sent ++ (none, t) ∷ []) ++ (some i, t) ∷ [] }))
  unfolding run_due periodic send_to alarms pop_if
  fires now fuel s q h le =
      let d : leb t now ≡ true = ground arith in
      let next : Option Timers → Option Timers =
        λ d. elim d [ none ↦ none | some s' ↦ run_due (periodic i p) now fuel s' ] in
      ap (λ q. run_due (periodic i p) now (suc fuel) (record s { event_queue = q })) q
      ∙ rw (d, run_due, pop_if)
          (ap next (sets_again (record s { sent = s.sent ++ (none, t) ∷ [] }) h))

-- How many ticks from `t` on are due.
abbrev Count : (now p t n : ℕ) → Type 0
Count now p t zero = now < t
Count now p t (suc n) = (t ≤ now) × Count now p (t + p) n

Count-exists : (gap now p t : ℕ) → 0 < p → now < t + gap → (n : ℕ) × Count now p t n × (n ≤ gap)
Count-exists zero now p t pos h = (0, omega (arith, h), omega arith)
Count-exists (suc gap) now p t pos h = elim (Bool-cases (leb t now)) [
  | inl d ↦
      let (n, c, le) = Count-exists gap now p (t + p) pos (omega (arith, pos, h)) in
      (suc n, (ground (arith, d), c), omega (arith, le))
  | inr d ↦ (0, ground (arith, d), omega arith)
]

Count-first :
    (n now p t : ℕ) → Count now p t n → (now < t + n * p) × ((k : ℕ) → k < n → t + k * p ≤ now)
Count-first zero now p t c = (omega (arith, c), λ k h. absurd (omega (arith, h)))
Count-first (suc n) now p t (le, c) =
    let (after, within) = Count-first n now p (t + p) c in
    (grind (arith, after), λ k h. earlier k h within)
  where
    earlier : (k : ℕ) → k < suc n → ((j : ℕ) → j < n → t + p + j * p ≤ now) → t + k * p ≤ now
    earlier zero h within = omega (arith, le)
    earlier (suc k) h within = grind (arith, within k (omega (arith, h)))

module _ (i p now : ℕ) where
  -- The alarm is not due yet.
  stops :
      (fuel t : ℕ) (s : Timers) (h : IsArmed i t s)
      → now < t
      → (run_due (periodic i p) now (suc fuel) s
          ≡ some (record s {
            event_queue = record { t = t; sink = i; seq = h.seq } ∷ [];
            sent = s.sent ++ (none, now) ∷ [];
          }))
  unfolding run_due pop_if send_to alarms periodic
  stops fuel t s h c =
      let d : leb t now ≡ false = ground arith in
      ap (λ q. run_due (periodic i p) now (suc fuel) (record s { event_queue = q })) h.queue
      ∙ rw (d, run_due, pop_if) refl

  run_ticks :
      (n fuel t : ℕ) (s : Timers)
      → IsArmed i t s
      → Count now p t n
      → n < fuel
      → (s' : Timers) × (run_due (periodic i p) now fuel s ≡ some s')
        × (s'.sent ≡ s.sent ++ (ticks i p t n ++ (none, now) ∷ []))
        × IsArmed i (t + n * p) s'
  unfolding ticks
  run_ticks n zero t s h c le = absurd (omega (arith, le))
  run_ticks zero (suc fuel) t s h c le = (
    _,
    stops fuel t s h c,
    refl,
    record {
      seq = h.seq;
      queue = ap (λ k. record { t = k; sink = i; seq = h.seq } ∷ []) (omega arith);
      current =
          h.current
          ∙ ap
              (λ k. record {
                current = some (record { t = k; sink = i; seq = h.seq });
                cancel_current = true;
              })
              (omega arith);
    },
  )
  run_ticks (suc n) (suc fuel) t s h (d, c) le =
      let s₁ =
        again i p t h.seq (record s { sent = (s.sent ++ (none, t) ∷ []) ++ (some i, t) ∷ [] }) in
      let (s', e, sent, set) =
        run_ticks n fuel (t + p) s₁
          (record { seq = s.next_seq + 1; queue = refl; current = ground arith }) c
          (omega (arith, le)) in
      (
        s',
        fires i p t h.seq now fuel s h.queue h.current d ∙ e,
        sent ∙ simp append_assoc,
        subst (λ k. IsArmed i k s') (grind arith) set,
      )

-- A periodic timer whose alarm is the only event, with a period that is not 0: with more rounds
-- than the present time has units, the hook returns. It has fired the alarm, and before it the
-- time cell, at `t`, `t + p` and so on up to the last of these times that is not after the
-- present, and then the time cell with the present time; and the alarm is set to the first of
-- them that is after it.
pub run_due-ticks :
    (i p now fuel t : ℕ) (s : Timers)
    → 0 < p
    → IsArmed i t s
    → now + 1 < fuel
    → (n : ℕ) × (s' : Timers) × (run_due (periodic i p) now fuel s ≡ some s')
      × (s'.sent ≡ s.sent ++ (ticks i p t n ++ (none, now) ∷ []))
      × ((k : ℕ) → k < n → t + k * p ≤ now)
      × (now < t + n * p)
      × IsArmed i (t + n * p) s'
run_due-ticks i p now fuel t s pos h le =
    let (n, c, below) = Count-exists (now + 1) now p t pos (omega arith) in
    let (s', e, sent, set) = run_ticks i p now n fuel t s h c (omega (arith, below, le)) in
    let (after, within) = Count-first n now p t c in (n, s', e, sent, within, after, set)

-- With the period 0 the hook never returns once the alarm is due.
run_due-zero_period :
    (i now fuel t : ℕ) (s : Timers)
    → IsArmed i t s
    → t ≤ now
    → run_due (periodic i 0) now fuel s ≡ none
unfolding run_due
run_due-zero_period i now zero t s h le = refl
run_due-zero_period i now (suc fuel) t s h le =
    fires i 0 t h.seq now fuel s h.queue h.current le
    ∙ run_due-zero_period i now fuel (t + 0)
        (again i 0 t h.seq (record s { sent = (s.sent ++ (none, t) ∷ []) ++ (some i, t) ∷ [] }))
        (record { seq = s.next_seq + 1; queue = refl; current = ground arith }) (omega arith)
