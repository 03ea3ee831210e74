-- ===== src/ThreadPool/Shutdown.antt =====
-- What the destructor leaves undone.
use caesium_cxx.Base.{
  ℕ, zero, suc, ◌<◌, ◌≤◌, ◌≡◌, refl, inl, inr, true, [], ◌∷◌, arith, ◌==◌, update, Bool-cases,
}
use caesium_cxx.ThreadPool.{exited, ThreadPool, submit, stop, leave, new, Reach, start, later}

-- The pool after a job has been submitted and the destructor has set `done`, before any worker has
-- made a step.
abbrev stopped : ℕ → ThreadPool
stopped job = record new { q = job ∷ []; done = true; in_flight = 1; submitted = job ∷ [] }

-- The first `k` workers have left.
unfoldable left : ℕ → ThreadPool → ThreadPool
left zero s = s
left (suc k) s = let t = left k s in record t { pc = update t.pc k exited }

left-pc : (k : ℕ) (s : ThreadPool) (i : ℕ) → k ≤ i → (left k s).pc i ≡ s.pc i
unfolding left
left-pc zero s i h = refl
left-pc (suc k) s i h = ground (arith, left-pc k s i)

left-exited : (k : ℕ) (s : ThreadPool) (i : ℕ) → i < k → (left k s).pc i ≡ exited
unfolding left
left-exited zero s i h = absurd (omega arith)
left-exited (suc k) s i h = elim (Bool-cases (k == i)) [
  | inl e ↦ rw e refl
  | inr e ↦ rw e (left-exited k s i (ground (arith, e)))
]

left-done :
    (k : ℕ) (s : ThreadPool)
    → ((left k s).done ≡ s.done) × ((left k s).q ≡ s.q) × ((left k s).ran ≡ s.ran)
unfolding left
left-done zero s = (refl, refl, refl)
left-done (suc k) s = left-done k s

left-Reach : (n job k : ℕ) → k ≤ n → Reach n (left k (stopped job))
unfolding left
left-Reach n job zero h = later (later start (submit job)) stop
left-Reach n job (suc k) h =
    later (left-Reach n job k (omega arith)) (
      leave k (omega arith) (left-pc k (stopped job) k (omega arith)) (left-done k (stopped job)).0)

-- A pool of any number of workers that is destroyed right after a job has been submitted can end
-- with all workers gone and the job still in the queue, never called.
pub stop-drops_job :
    (n job : ℕ)
    → (s : ThreadPool) × Reach n s
      × ((i : ℕ) → i < n → s.pc i ≡ exited)
      × (s.q ≡ job ∷ [])
      × (s.ran ≡ [])
stop-drops_job n job =
    let (d, q, r) = left-done n (stopped job) in
    (left n (stopped job), left-Reach n job n (omega arith), left-exited n (stopped job), q, r)
