-- ===== src/ThreadPool/Examples.antt =====
-- One worker, one job, from the submission to the barrier.
use caesium_cxx.Base.{ℕ, ◌<◌, ◌≡◌, refl, [], ◌∷◌, arith, count}
use caesium_cxx.ThreadPool.{
  exited, ThreadPool, submit, enter, take, run, count_off, Reach, start, later,
}
use caesium_cxx.ThreadPool.Barrier.{barrier-all_ran}
use caesium_cxx.ThreadPool.Shutdown.{stop-drops_job}

one_job :
    (s : ThreadPool) × Reach 1 s × (s.in_flight ≡ 0) × (s.ran ≡ 7 ∷ []) × (s.submitted ≡ 7 ∷ [])
one_job = (
  _,
  later
      (later
        (later (later (later start (submit 7)) (enter 0 (omega arith) refl refl))
          (take 0 7 [] (omega arith) refl refl))
        (run 0 7 (omega arith) refl))
      (count_off 0 (omega arith) refl),
  refl,
  refl,
  refl,
)

barrier-all_ran_example :
    (one_job.0.q ≡ []) × ((e : ℕ) → count e one_job.0.ran ≡ count e one_job.0.submitted)
barrier-all_ran_example = barrier-all_ran one_job.1 one_job.2

stop-drops_job_example :
    (s : ThreadPool) × Reach 4 s
    × ((i : ℕ) → i < 4 → s.pc i ≡ exited)
    × (s.q ≡ 7 ∷ [])
    × (s.ran ≡ [])
stop-drops_job_example = stop-drops_job 4 7
