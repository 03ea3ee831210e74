-- ===== src/ThreadPool.antt =====
-- `conc::thread_pool` of sodium/concurrency: jobs that are submitted and run by worker threads, in
-- any interleaving. Each stretch under `mx`, and each access to an atomic, is one step. Jobs are
-- named by numbers.
pub mod Barrier
pub mod Shutdown
pub mod Examples
use caesium_cxx.Base.{
  ℕ, ◌+◌, ◌-◌, ◌<◌, ◌≡◌, ◌≢◌, Bool, true, false, List, [], ◌∷◌, ◌++◌, ◌==◌, if◌then◌else◌, update,
}

-- The number of workers that the constructor starts.
unfoldable pub workers : ℕ → ℕ
workers n = if n == 0 then 1 else n

-- Where a worker is: before the test of its loop, at the wait, about to call a job, about to
-- count it off, or gone.
pub data Pc : Type 0 where
  testing : Pc
  waiting : Pc
  calling : ℕ → Pc
  counting : Pc
  exited : Pc

-- `submitted` and `ran` list the jobs that were submitted and called, oldest first.
pub record ThreadPool : Type 0 where
  pub q : List ℕ
  pub done : Bool
  pub in_flight : ℕ
  pub pc : ℕ → Pc
  pub submitted : List ℕ
  pub ran : List ℕ

-- One step of a thread that submits or destroys, or of one of `n` workers.
pub data Step (n : ℕ) (s : ThreadPool) : ThreadPool → Type 0 where
  submit :
      (job : ℕ)
      → Step n s (record s {
        q = s.q ++ job ∷ [];
        in_flight = s.in_flight + 1;
        submitted = s.submitted ++ job ∷ [];
      })
  stop : Step n s (record s { done = true })
  enter :
      (i : ℕ)
      → i < n
      → s.pc i ≡ testing
      → s.done ≡ false
      → Step n s (record s { pc = update s.pc i waiting })
  leave :
      (i : ℕ)
      → i < n
      → s.pc i ≡ testing
      → s.done ≡ true
      → Step n s (record s { pc = update s.pc i exited })
  give_up :
      (i : ℕ)
      → i < n
      → s.pc i ≡ waiting
      → s.done ≡ true
      → s.q ≡ []
      → Step n s (record s { pc = update s.pc i exited })
  take :
      (i job : ℕ) (rest : List ℕ)
      → i < n
      → s.pc i ≡ waiting
      → s.q ≡ job ∷ rest
      → Step n s (record s { q = rest; pc = update s.pc i (calling job) })
  run :
      (i job : ℕ)
      → i < n
      → s.pc i ≡ calling job
      → Step n s (record s { pc = update s.pc i counting; ran = s.ran ++ job ∷ [] })
  count_off :
      (i : ℕ)
      → i < n
      → s.pc i ≡ counting
      → Step n s (record s { pc = update s.pc i testing; in_flight = s.in_flight - 1 })

abbrev pub new : ThreadPool
new = record { q = []; done = false; in_flight = 0; pc = λ i. testing; submitted = []; ran = [] }

pub data Reach (n : ℕ) : ThreadPool → Type 0 where
  start : Reach n new
  later : {s t : ThreadPool} → Reach n s → Step n s t → Reach n t
