-- ===== src/ThreadPool/Barrier.antt =====
-- `barrier` waits until no job is in flight.
use caesium_cxx.Base.{
  ℕ, zero, suc, ◌+◌, ◌≤◌, ◌<◌, ◌≡◌, refl, ap, inl, inr, [], ◌∷◌, arith, ◌==◌, if◌then◌else◌,
  Bool-cases, List-cases, count, count-append, length, length-append, update,
}
use caesium_cxx.ThreadPool.{
  Pc, testing, waiting, calling, counting, exited, ThreadPool, Step, submit, stop, enter, leave,
  give_up, take, run, count_off, Reach, start, later,
}

-- The sum of a weight over the first `n` workers.
unfoldable sum : (Pc → ℕ) → ℕ → (ℕ → Pc) → ℕ
sum w zero pc = 0
sum w (suc n) pc = sum w n pc + w (pc n)

sum-update_of_le :
    (w : Pc → ℕ) (n : ℕ) (pc : ℕ → Pc) (i : ℕ) (p : Pc)
    → n ≤ i
    → sum w n (update pc i p) ≡ sum w n pc
unfolding sum
sum-update_of_le w zero pc i p h = refl
sum-update_of_le w (suc n) pc i p h = ground (arith, sum-update_of_le w n pc i p)

sum-update :
    (w : Pc → ℕ) (n : ℕ) (pc : ℕ → Pc) (i : ℕ) (p : Pc)
    → i < n
    → sum w n (update pc i p) + w (pc i) ≡ sum w n pc + w p
unfolding sum
sum-update w zero pc i p h = absurd (omega arith)
sum-update w (suc n) pc i p h = elim (Bool-cases (i == n)) [
  | inl last ↦ ground (arith, sum-update_of_le w n pc i p)
  | inr below ↦ ground (arith, sum-update w n pc i p)
]

-- Whether a worker has a job that is not counted off, and whether it is about to call job `e`.
abbrev holds : Pc → ℕ
holds (calling x) = 1
holds counting = 1
holds testing = 0
holds waiting = 0
holds exited = 0

abbrev calls : ℕ → Pc → ℕ
calls e (calling x) = if e == x then 1 else 0
calls e counting = 0
calls e testing = 0
calls e waiting = 0
calls e exited = 0

sum-new : (w : Pc → ℕ) (n : ℕ) → w testing ≡ 0 → sum w n (λ i. testing) ≡ 0
unfolding sum
sum-new w zero h = refl
sum-new w (suc n) h = omega (arith, h, sum-new w n h)

calls_le : (e : ℕ) (p : Pc) → calls e p ≤ holds p
calls_le e (calling x) = ground arith
calls_le e counting = omega arith
calls_le e testing = omega arith
calls_le e waiting = omega arith
calls_le e exited = omega arith

sum-calls_le : (e n : ℕ) (pc : ℕ → Pc) → sum (calls e) n pc ≤ sum holds n pc
unfolding sum
sum-calls_le e zero pc = omega arith
sum-calls_le e (suc n) pc = omega (arith, sum-calls_le e n pc, calls_le e (pc n))

record Inv (n : ℕ) (s : ThreadPool) : Type 0 where
  flying : s.in_flight ≡ length s.q + sum holds n s.pc
  balance : (e : ℕ) → count e s.submitted ≡ count e s.q + sum (calls e) n s.pc + count e s.ran

Step-Inv : {n : ℕ} {s t : ThreadPool} → Step n s t → Inv n s → Inv n t
unfolding count
Step-Inv {n} {s} (submit job) v = record {
  flying = omega (arith, v.flying, length-append s.q (job ∷ []));
  balance = λ e.
      omega
        (arith, v.balance e, count-append e s.q (job ∷ []), count-append e s.submitted (job ∷ []));
}
Step-Inv stop v = record { flying = v.flying; balance = v.balance }
Step-Inv {n} {s} (enter i lt at f) v = record {
  flying = ground (arith, v.flying, sum-update holds n s.pc i waiting, at);
  balance = λ e. ground (arith, v.balance e, sum-update (calls e) n s.pc i waiting, at);
}
Step-Inv {n} {s} (leave i lt at f) v = record {
  flying = ground (arith, v.flying, sum-update holds n s.pc i exited, at);
  balance = λ e. ground (arith, v.balance e, sum-update (calls e) n s.pc i exited, at);
}
Step-Inv {n} {s} (give_up i lt at f q) v = record {
  flying = ground (arith, v.flying, sum-update holds n s.pc i exited, at);
  balance = λ e. ground (arith, v.balance e, sum-update (calls e) n s.pc i exited, at);
}
Step-Inv {n} {s} (take i job rest lt at q) v = record {
  flying = ground (arith, v.flying, sum-update holds n s.pc i (calling job), at, q);
  balance = λ e. ground (arith, v.balance e, sum-update (calls e) n s.pc i (calling job), at, q);
}
Step-Inv {n} {s} (run i job lt at) v = record {
  flying = ground (arith, v.flying, sum-update holds n s.pc i counting, at);
  balance = λ e. ground (
    arith,
    v.balance e,
    sum-update (calls e) n s.pc i counting,
    at,
    count-append e s.ran (job ∷ []),
  );
}
Step-Inv {n} {s} (count_off i lt at) v = record {
  flying = ground (arith, v.flying, sum-update holds n s.pc i testing, at);
  balance = λ e. ground (arith, v.balance e, sum-update (calls e) n s.pc i testing, at);
}

Reach-Inv : {n : ℕ} {s : ThreadPool} → Reach n s → Inv n s
unfolding count
Reach-Inv {n} start = record {
  flying = omega (arith, sum-new holds n refl);
  balance = λ e. omega (arith, sum-new (calls e) n refl);
}
Reach-Inv (later r st) = Step-Inv st (Reach-Inv r)

-- Whatever the order of the steps: when `barrier` sees that no job is in flight, then the queue is
-- empty, and every job has been called as often as it was submitted.
pub barrier-all_ran :
    {n : ℕ} {s : ThreadPool}
    → Reach n s
    → s.in_flight ≡ 0
    → (s.q ≡ []) × ((e : ℕ) → count e s.ran ≡ count e s.submitted)
unfolding count
barrier-all_ran {n} {s} r z =
    let v = Reach-Inv r in
    let empty : s.q ≡ [] = elim (List-cases s.q) [
      | inl e ↦ e
      | inr (x, rest, e) ↦ absurd (ground (arith, e, z, v.flying))
    ] in
    (empty, λ e. omega (arith, v.balance e, v.flying, z, ap (count e) empty, sum-calls_le e n s.pc))
