-- ===== src/Timer/Examples.antt =====
-- A periodic timer.
use caesium_cxx.Base.{ℕ, ◌+◌, ◌*◌, ◌≤◌, ◌<◌, ◌≡◌, refl, true, none, some, [], ◌∷◌, ◌++◌, arith}
use caesium_cxx.Timer.{Timers, run_due}
use caesium_cxx.Timer.Periodic.{IsArmed, periodic, ticks, run_due-ticks}

-- The alarm 0 is set to 5.
abbrev ticking : Timers
ticking = record {
  event_queue = record { t = 5; sink = 0; seq = 1 } ∷ [];
  next_seq = 1;
  states =
      λ i. record { current = some (record { t = 5; sink = 0; seq = 1 }); cancel_current = true };
  sent = [];
  set_timers = 1;
  cancelled = 0;
}

ticking-IsArmed : IsArmed 0 5 ticking
ticking-IsArmed = record { seq = 1; queue = refl; current = refl }

run_due-ticks_example :
    (n : ℕ) × (s' : Timers) × (run_due (periodic 0 3) 12 14 ticking ≡ some s')
    × (s'.sent ≡ ticks 0 3 5 n ++ (none, 12) ∷ [])
    × ((k : ℕ) → k < n → 5 + k * 3 ≤ 12)
    × (12 < 5 + n * 3)
    × IsArmed 0 (5 + n * 3) s'
run_due-ticks_example =
    run_due-ticks 0 3 12 14 5 ticking (omega arith) ticking-IsArmed (omega arith)
