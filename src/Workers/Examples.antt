-- ===== src/Workers/Examples.antt =====
-- One worker and a queue of one entry, which adds another.
use caesium_cxx.Base.{ℕ, ◌≡◌, refl, true, false, [], ◌∷◌, arith, count, update}
use caesium_cxx.Workers.{
  waiting, busy, pushing, returning, exited, Pool, put_results, wake, notify_all, finish, signal,
  take, leave, push, notify_none, complete, notify, Reach, start, later,
}
use caesium_cxx.Workers.Drain.{workers_drain}

abbrev after_push : Pool
after_push = record {
  queue = 9 ∷ [];
  finished = false;
  notified = false;
  pc = update (update (update (λ _. waiting) 0 (busy 4)) 0 (pushing 4)) 0 (busy 4);
  given = 4 ∷ 9 ∷ [];
  done = [];
}

Reach-after_push : Reach 1 (4 ∷ []) after_push
Reach-after_push =
    later
      (later (later start (take 0 4 [] (omega arith) refl refl)) (push 0 4 9 (omega arith) refl))
      (notify_none 0 4 (omega arith) refl (λ j lt. ground arith))

-- The main thread notifies while the worker is about to notify.
abbrev told : Pool
told = record {
  queue = 9 ∷ [];
  finished = true;
  notified = true;
  pc = notify_all (update after_push.pc 0 returning);
  given = 4 ∷ 9 ∷ [];
  done = 4 ∷ [];
}

Reach-told : Reach 1 (4 ∷ []) told
unfolding put_results
Reach-told =
    later (later (later Reach-after_push (complete 0 4 [] [] (omega arith) refl)) (finish refl))
      (signal refl refl)

abbrev all_done : Pool
all_done = record {
  queue = [];
  finished = true;
  notified = true;
  pc =
      update
        (update
          (notify_all
            (update (update (update (notify_all told.pc) 0 waiting) 0 (busy 9)) 0 returning))
          0 waiting)
        0 exited;
  given = 4 ∷ 9 ∷ [];
  done = 4 ∷ 9 ∷ [];
}

Reach-all_done : Reach 1 (4 ∷ []) all_done
unfolding put_results notify_all wake
Reach-all_done =
    later
      (later
        (later
          (later (later Reach-told (notify 0 (omega arith) refl))
            (take 0 9 [] (omega arith) refl refl))
          (complete 0 9 [] [] (omega arith) refl))
        (notify 0 (omega arith) refl))
      (leave 0 (omega arith) refl refl refl)

workers_drain_example :
    (all_done.queue ≡ []) × ((e : ℕ) → count e all_done.done ≡ count e all_done.given)
unfolding notify_all wake
workers_drain_example = workers_drain (omega arith) Reach-all_done (λ i lt. ground arith)
