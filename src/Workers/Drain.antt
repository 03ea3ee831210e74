-- ===== src/Workers/Drain.antt =====
-- When all workers have gone, the queue is empty and every entry was processed, once.
use mathlib.Core.List.{reverse, reverse-cons}
use caesium_cxx.Base.{
  ℕ, zero, suc, ◌+◌, ◌≤◌, ◌<◌, ◌≡◌, refl, ap, ◌≢◌, ◌⊎◌, inl, inr, Option, none, some, List, [], ◌∷◌,
  ◌++◌, arith, ◌==◌, if◌then◌else◌, Bool-cases, count, count-append, update,
}
use caesium_cxx.Workers.{
  n_threads, Pc, waiting, asleep, busy, pushing, returning, exited, Pool, put_results, wake,
  notify_all, Step, finish, signal, sleep, wake_up, take, leave, push, notify_one, notify_none,
  complete, notify, started, Reach, start, later,
}

abbrev holds : ℕ → Pc → ℕ
holds e (busy x) = if e == x then 1 else 0
holds e (pushing x) = if e == x then 1 else 0
holds e waiting = 0
holds e asleep = 0
holds e returning = 0
holds e exited = 0

-- How many of the first `n` workers are processing `e`.
in_flight : ℕ → ℕ → (ℕ → Pc) → ℕ
in_flight e zero pc = 0
in_flight e (suc n) pc = in_flight e n pc + holds e (pc n)

in_flight-update_of_le :
    (e n : ℕ) (pc : ℕ → Pc) (i : ℕ) (p : Pc)
    → n ≤ i
    → in_flight e n (update pc i p) ≡ in_flight e n pc
unfolding in_flight
in_flight-update_of_le e zero pc i p h = refl
in_flight-update_of_le e (suc n) pc i p h = ground (arith, in_flight-update_of_le e n pc i p)

in_flight-update :
    (e n : ℕ) (pc : ℕ → Pc) (i : ℕ) (p : Pc)
    → i < n
    → in_flight e n (update pc i p) + holds e (pc i) ≡ in_flight e n pc + holds e p
unfolding in_flight
in_flight-update e zero pc i p h = absurd (omega arith)
in_flight-update e (suc n) pc i p h = elim (Bool-cases (i == n)) [
  | inl last ↦ ground (arith, in_flight-update_of_le e n pc i p)
  | inr below ↦ ground (arith, in_flight-update e n pc i p)
]

in_flight-eq-zero :
    (e n : ℕ) (pc : ℕ → Pc) → ((i : ℕ) → i < n → holds e (pc i) ≡ 0) → in_flight e n pc ≡ 0
unfolding in_flight
in_flight-eq-zero e zero pc h = refl
in_flight-eq-zero e (suc n) pc h =
    omega (arith, h n, in_flight-eq-zero e n pc (λ i lt. h i (omega arith)))

holds-wake : (e : ℕ) (p : Pc) → holds e (wake p) ≡ holds e p
unfolding wake
holds-wake e waiting = refl
holds-wake e asleep = refl
holds-wake e (busy x) = refl
holds-wake e (pushing x) = refl
holds-wake e returning = refl
holds-wake e exited = refl

in_flight-notify_all : (e n : ℕ) (pc : ℕ → Pc) → in_flight e n (notify_all pc) ≡ in_flight e n pc
unfolding in_flight notify_all
in_flight-notify_all e zero pc = refl
in_flight-notify_all e (suc n) pc = omega (arith, in_flight-notify_all e n pc, holds-wake e (pc n))

wake-not_exited : (p : Pc) → p ≢ exited → wake p ≢ exited
unfolding wake
wake-not_exited waiting h = λ e. cc
wake-not_exited asleep h = λ e. cc
wake-not_exited (busy x) h = λ e. cc
wake-not_exited (pushing x) h = λ e. cc
wake-not_exited returning h = λ e. cc
wake-not_exited exited h = h

count-reverse : (e : ℕ) (xs : List ℕ) → count e (reverse xs) ≡ count e xs
unfolding count
count-reverse e [] = refl
count-reverse e (x ∷ xs) = omega (
  arith,
  ap (count e) (reverse-cons x xs),
  count-append e (reverse xs) (x ∷ []),
  count-reverse e xs,
)

count-put_results :
    (e : ℕ) (single queued q : List ℕ)
    → count e (put_results single queued q) ≡ count e single + count e q + count e queued
unfolding put_results
count-put_results e single queued q = omega (
  arith,
  count-append e (reverse single ++ q) queued,
  count-append e (reverse single) q,
  count-reverse e single,
)

record Inv (n : ℕ) (s : Pool) : Type 0 where
  balance : (e : ℕ) → count e s.given ≡ count e s.queue + in_flight e n s.pc + count e s.done
  manned : (s.queue ≡ []) ⊎ ((i : ℕ) × (i < n) × (s.pc i ≢ exited))

holds_at : (x i : ℕ) (pc : ℕ → Pc) → holds x (notify_all pc i) ≡ holds x (wake (pc i))
unfolding notify_all
holds_at x i pc = refl

update-other :
    {e : ℕ} (pc : ℕ → Pc) (j i : ℕ)
    → pc i ≡ pushing e
    → pc j ≡ asleep
    → update pc j waiting i ≡ pushing e
update-other pc j i at sleeps = ground (arith, at, sleeps)

start-Inv : (n : ℕ) (q : List ℕ) → 0 < n → Inv n (started q)
unfolding count
start-Inv n q some_worker = record {
  balance = λ e. omega (arith, in_flight-eq-zero e n (λ _. waiting) (λ i lt. refl));
  manned = inr (0, some_worker, λ h. cc);
}

Step-Inv : {n : ℕ} {s t : Pool} → Step n s t → Inv n s → Inv n t
unfolding count notify_all wake
Step-Inv (finish not_yet) inv = record { balance = inv.balance; manned = inv.manned }
Step-Inv {n} {s} (signal over not_yet) inv = record {
  balance = λ x. omega (arith, inv.balance x, in_flight-notify_all x n s.pc);
  manned = elim inv.manned [
    | inl e ↦ inl e
    | inr (i, lt, here) ↦ inr (i, lt, wake-not_exited (s.pc i) here)
  ];
}
Step-Inv {n} {s} (sleep i lt at q over) inv = record {
  balance = λ x. ground (arith, inv.balance x, in_flight-update x n s.pc i asleep, at);
  manned = inl q;
}
Step-Inv {n} {s} (wake_up i lt at) inv = record {
  balance = λ x. ground (arith, inv.balance x, in_flight-update x n s.pc i waiting, at);
  manned = inr (i, lt, ground arith);
}
Step-Inv {n} {s} (take i e rest lt at q) inv = record {
  balance = λ x. ground (arith, inv.balance x, in_flight-update x n s.pc i (busy e), at, q);
  manned = inr (i, lt, ground arith);
}
Step-Inv {n} {s} (leave i lt at q over) inv = record {
  balance = λ x. ground (arith, inv.balance x, in_flight-update x n s.pc i exited, at);
  manned = inl q;
}
Step-Inv {n} {s} (push i e new lt at) inv = record {
  balance = λ x. ground (
    arith,
    inv.balance x,
    at,
    in_flight-update x n s.pc i (pushing e),
    count-append x s.queue (new ∷ []),
    count-append x s.given (new ∷ []),
  );
  manned = inr (i, lt, ground arith);
}
Step-Inv {n} {s} (notify_one i e j lt lt' at sleeps) inv = record {
  balance = λ x. omega (
    arith,
    inv.balance x,
    in_flight-update x n s.pc j waiting,
    ap (holds x) sleeps,
    in_flight-update x n (update s.pc j waiting) i (busy e),
    ap (holds x) (update-other s.pc j i at sleeps),
  );
  manned = inr (i, lt, ground arith);
}
Step-Inv {n} {s} (notify_none i e lt at none_sleeps) inv = record {
  balance = λ x. ground (arith, inv.balance x, in_flight-update x n s.pc i (busy e), at);
  manned = inr (i, lt, ground arith);
}
Step-Inv {n} {s} (complete i e single queued lt at) inv = record {
  balance = λ x. omega (
    arith,
    inv.balance x,
    ap (holds x) at,
    in_flight-update x n s.pc i returning,
    count-put_results x single queued s.queue,
    count-append x s.given (single ++ queued),
    count-append x single queued,
    count-append x s.done (e ∷ []),
  );
  manned = inr (i, lt, ground arith);
}
Step-Inv {n} {s} (notify i lt at) inv = record {
  balance = λ x. omega (
    arith,
    inv.balance x,
    in_flight-update x n (notify_all s.pc) i waiting,
    in_flight-notify_all x n s.pc,
    holds-wake x (s.pc i),
    ap (holds x) at,
    holds_at x i s.pc,
  );
  manned = inr (i, lt, ground arith);
}

Reach-Inv : {n : ℕ} {q : List ℕ} {s : Pool} → 0 < n → Reach n q s → Inv n s
Reach-Inv {n} {q} h start = start-Inv n q h
Reach-Inv h (later r st) = Step-Inv st (Reach-Inv h r)

abbrev pub AllExited : ℕ → Pool → Type 0
AllExited n s = (i : ℕ) → i < n → s.pc i ≡ exited

-- With at least one worker, in whatever order the threads run and whatever the entries add while
-- they are processed: when all workers have exited, the queue is empty, and each entry that was
-- ever queued has been processed as often as it was queued.
pub workers_drain :
    {n : ℕ} {q : List ℕ} {s : Pool}
    → 0 < n
    → Reach n q s
    → AllExited n s
    → (s.queue ≡ []) × ((e : ℕ) → count e s.done ≡ count e s.given)
unfolding count
workers_drain {n} {q} {s} h r gone = (empty, balanced)
  where
    inv : Inv n s
    inv = Reach-Inv h r

    empty : s.queue ≡ []
    empty = elim inv.manned [ inl e ↦ e | inr (i, lt, here) ↦ absurd (here (gone i lt)) ]

    balanced : (e : ℕ) → count e s.done ≡ count e s.given
    balanced e = omega (
      arith,
      inv.balance e,
      ap (count e) empty,
      in_flight-eq-zero e n s.pc (λ i lt. ap (holds e) (gone i lt)),
    )

idle_without : {n : ℕ} {q : List ℕ} {s : Pool} → n ≡ 0 → Reach n q s → (s.queue ≡ q) × (s.done ≡ [])
idle_without h start = (refl, refl)
idle_without h (later r (finish not_yet)) = idle_without h r
idle_without h (later r (signal over not_yet)) = idle_without h r
idle_without h (later r (sleep i lt at q over)) = absurd (omega arith)
idle_without h (later r (wake_up i lt at)) = absurd (omega arith)
idle_without h (later r (take i e rest lt at q)) = absurd (omega arith)
idle_without h (later r (leave i lt at q over)) = absurd (omega arith)
idle_without h (later r (push i e new lt at)) = absurd (omega arith)
idle_without h (later r (notify_one i e j lt lt' at sleeps)) = absurd (omega arith)
idle_without h (later r (notify_none i e lt at none_sleeps)) = absurd (omega arith)
idle_without h (later r (complete i e single queued lt at)) = absurd (omega arith)
idle_without h (later r (notify i lt at)) = absurd (omega arith)

-- Where SODIUM_THREADS is not set and `hardware_concurrency` answers 0, nothing is ever processed:
-- the queue stays as it was.
pub no_workers :
    {q : List ℕ} {s : Pool} → Reach (n_threads none 0) q s → (s.queue ≡ q) × (s.done ≡ [])
unfolding n_threads
no_workers r = idle_without refl r

-- Otherwise there is a worker: SODIUM_THREADS gives at least one, and so does any answer but 0.
pub n_threads_pos :
    (env : Option ℕ) (hardware : ℕ) → (env ≢ none) ⊎ (0 < hardware) → 0 < n_threads env hardware
unfolding n_threads
n_threads_pos none hardware (inl h) = absurd (h refl)
n_threads_pos none hardware (inr h) = h
n_threads_pos (some v) hardware h = ground arith
