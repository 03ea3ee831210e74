-- ===== src/Timer.antt =====
-- The timer system of sodium/time.h over times that are natural numbers: the queue of events, the
-- alarms of `at`, and the hook that fires due events when a transaction starts.
pub mod Due
pub mod Periodic
pub mod Examples
use caesium_cxx.Base.{
  ℕ, zero, suc, ◌+◌, Bool, true, false, Option, none, some, List, [], ◌∷◌, ◌++◌, ltb, leb, ◌==◌,
  ◌||◌, ◌&&◌, if◌then◌else◌, update,
}

-- `event`; the sinks are named by the calls of `at` that they belong to.
pub record Event : Type 0 where
  pub t : ℕ
  pub sink : ℕ
  pub seq : ℕ

-- `event::operator <`
unfoldable pub before : Event → Event → Bool
before x y = if ltb x.t y.t then true else if ltb y.t x.t then false else ltb x.seq y.seq

-- `thread_safe_priority_queue` keeps a `std::set`: a list that is sorted by `before`, in which a
-- value is found when neither it nor the other is before.
unfoldable pub push : Event → List Event → List Event
unfolding before
push e [] = e ∷ []
push e (x ∷ xs) =
    let rest = push e xs in
    if before e x then e ∷ x ∷ xs else if before x e then x ∷ rest else x ∷ xs

unfoldable pub pop_if : (Event → Bool) → List Event → Option (Event × List Event)
pop_if f [] = none
pop_if f (x ∷ xs) = if f x then some (x, xs) else none

unfoldable pub remove : Event → List Event → List Event
unfolding before
remove e [] = []
remove e (x ∷ xs) =
    let rest = remove e xs in if before e x then x ∷ xs else if before x e then x ∷ rest else xs

-- `at_state`; whether there is a `cancel_current` to call.
pub record AtState : Type 0 where
  pub current : Option Event
  pub cancel_current : Bool

-- The event queue, `next_seq`, and the state of each call of `at`. `sent` lists what the time
-- cell (`none`) and the alarm streams (`some`, with the call of `at`) were sent, oldest first;
-- `set` and `cancelled` count the timers that were set and cancelled.
pub record Timers : Type 0 where
  pub event_queue : List Event
  pub next_seq : ℕ
  pub states : ℕ → AtState
  pub sent : List (Option ℕ × ℕ)
  pub set_timers : ℕ
  pub cancelled : ℕ

-- `at_state::do_cancel`; `none` where `current` is read and holds nothing.
unfoldable pub do_cancel : ℕ → Timers → Option Timers
unfolding remove
do_cancel i s =
    let cleared = update s.states i (record { current = none; cancel_current = false }) in
    if (s.states i).cancel_current
    then (elim (s.states i).current [
      | none ↦ none
      | some e ↦ some (record s {
        event_queue = remove e s.event_queue;
        states = cleared;
        cancelled = s.cancelled + 1;
      })
    ])
    else some (record s { states = cleared })

-- The listener of `at`, when the cell of the `i`-th alarm has a new value.
unfoldable pub alarm : ℕ → Option ℕ → Timers → Option Timers
unfolding do_cancel push
alarm i none s = do_cancel i s
alarm i (some t) s = elim (do_cancel i s) [
  | none ↦ none
  | some s' ↦
      let e : Event = record { t = t; sink = i; seq = s'.next_seq + 1 } in
      some (record s' {
        event_queue = push e s'.event_queue;
        next_seq = s'.next_seq + 1;
        states = update s'.states i (record { current = some e; cancel_current = true });
        set_timers = s'.set_timers + 1;
      })
]

unfoldable pub alarms : List (ℕ × Option ℕ) → Timers → Option Timers
unfolding alarm
alarms [] s = some s
alarms ((i, o) ∷ rest) s = elim (alarm i o s) [ none ↦ none | some s' ↦ alarms rest s' ]

-- `send` of the time cell (`none`) or of the `i`-th alarm stream. `reacts` is what the program
-- does then: the alarm cells that it gives a new value.
unfoldable pub send_to :
    (Option ℕ → ℕ → List (ℕ × Option ℕ)) → Option ℕ → ℕ → Timers → Option Timers
unfolding alarms
send_to reacts o t s = alarms (reacts o t) (record s { sent = s.sent ++ (o, t) ∷ [] })

-- The hook that `timer_system::construct` registers, from the loop on, at the time `now`.
unfoldable pub run_due : (Option ℕ → ℕ → List (ℕ × Option ℕ)) → ℕ → ℕ → Timers → Option Timers
unfolding pop_if send_to
run_due reacts now zero s = none
run_due reacts now (suc fuel) s = elim (pop_if (λ e. leb e.t now) s.event_queue) [
  | none ↦ send_to reacts none now s
  | some (e, rest) ↦ elim (send_to reacts none e.t (record s { event_queue = rest })) [
    | none ↦ none
    | some s' ↦ elim (send_to reacts (some e.sink) e.t s') [
      | none ↦ none
      | some s'' ↦ run_due reacts now fuel s''
    ]
  ]
]
