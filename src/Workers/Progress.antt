-- ===== src/Workers/Progress.antt =====
-- That no worker sleeps for ever: the wake-ups of `queue_cv`.
use caesium_cxx.Base.{ℕ, ◌≡◌, ◌≢◌, true}
use caesium_cxx.Workers.{asleep, Pool}

-- Once the main thread has notified, nobody sleeps.
record Awake (s : Pool) : Type 0 where
  over : s.notified ≡ true → s.finished ≡ true
  awake : s.notified ≡ true → (j : ℕ) → s.pc j ≢ asleep
