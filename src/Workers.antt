-- ===== src/Workers.antt =====
-- `transaction_impl::process_transactional` of sodium/transaction.cpp: worker threads that empty
-- the queue of a transaction. Entries are named by numbers. Each stretch under `queue_mu` is one
-- step, and so is each call that notifies `queue_cv`; the steps of the threads interleave in any
-- order.
pub mod Drain
pub mod Progress
pub mod Examples
use mathlib.Core.List.{reverse}
use caesium_cxx.Base.{
  ℕ, ◌+◌, ◌<◌, ◌≡◌, Bool, true, false, Option, none, some, List, [], ◌∷◌, ◌++◌, leb, if◌then◌else◌,
  length, update, ◌≢◌,
}

-- The number of threads of `partition`: the number in SODIUM_THREADS, at least one, or without
-- that variable what `hardware_concurrency` answers. `atoi` gives 0 for a text or a negative value.
unfoldable pub n_threads : Option ℕ → ℕ → ℕ
n_threads none hardware = hardware
n_threads (some v) hardware = if leb v 1 then 1 else v

-- The fields of `transaction_impl` that hold work; `entries` in the order of the map.
pub record Pending : Type 0 where
  pub prioritized_single : Option ℕ
  pub entries : List ℕ
  pub queue : List ℕ
  pub all_txn_sizes : List ℕ

-- `transaction_impl::prioritized`
unfoldable pub prioritized : ℕ → Pending → Pending
prioritized e p = record p { queue = p.queue ++ e ∷ [] }

abbrev singles : Option ℕ → List ℕ
singles none = []
singles (some e) = e ∷ []

-- The batch size that is recorded, and the move of all pending entries into the queue.
unfoldable pub begin : Pending → Pending
begin p = record {
  prioritized_single = none;
  entries = [];
  queue = p.queue ++ singles p.prioritized_single ++ p.entries;
  all_txn_sizes =
      p.all_txn_sizes ++ (length (singles p.prioritized_single) + length p.entries) ∷ [];
}

-- Where a worker is: about to lock `queue_mu` and look at the queue, asleep in `queue_cv.wait`,
-- inside `ent->process`, there between the insertion and `notify_one` of `prioritized`, between the
-- insertion of the results and `notify_all`, or gone.
pub data Pc : Type 0 where
  waiting asleep : Pc
  busy pushing : ℕ → Pc
  returning : Pc
  exited : Pc

-- `given` lists what was ever in the queue and `done` what has been processed and deleted;
-- `notified` is whether the main thread has come to its joins.
pub record Pool : Type 0 where
  pub queue : List ℕ
  pub finished : Bool
  pub notified : Bool
  pub pc : ℕ → Pc
  pub given : List ℕ
  pub done : List ℕ

-- The results of an entry: `push_front` of each single one, then `push_back` of the queued ones.
unfoldable pub put_results : List ℕ → List ℕ → List ℕ → List ℕ
put_results single queued queue = (reverse single ++ queue) ++ queued

-- A thread that wakes up tests its predicate again.
unfoldable pub wake : Pc → Pc
wake waiting = waiting
wake asleep = waiting
wake (busy e) = busy e
wake (pushing e) = pushing e
wake returning = returning
wake exited = exited

-- `queue_cv.notify_all`
unfoldable pub notify_all : (ℕ → Pc) → ℕ → Pc
unfolding wake
notify_all pc i = wake (pc i)

-- One step of the main thread or of one of `n` workers.
pub data Step (n : ℕ) (s : Pool) : Pool → Type 0 where
  -- the main thread sets `finished` under the mutex, and then notifies
  finish : s.finished ≡ false → Step n s (record s { finished = true })
  signal :
      s.finished ≡ true
      → s.notified ≡ false
      → Step n s (record s { notified = true; pc = notify_all s.pc })
  sleep :
      (i : ℕ)
      → i < n
      → s.pc i ≡ waiting
      → s.queue ≡ []
      → s.finished ≡ false
      → Step n s (record s { pc = update s.pc i asleep })
  -- a condition variable may wake a thread up for no reason
  wake_up : (i : ℕ) → i < n → s.pc i ≡ asleep → Step n s (record s { pc = update s.pc i waiting })
  take :
      (i e : ℕ) (rest : List ℕ)
      → i < n
      → s.pc i ≡ waiting
      → s.queue ≡ e ∷ rest
      → Step n s (record s { queue = rest; pc = update s.pc i (busy e) })
  leave :
      (i : ℕ)
      → i < n
      → s.pc i ≡ waiting
      → s.queue ≡ []
      → s.finished ≡ true
      → Step n s (record s { pc = update s.pc i exited })
  -- an entry calls `prioritized` while it is processed, which notifies one thread or finds none
  push :
      (i e new : ℕ)
      → i < n
      → s.pc i ≡ busy e
      → Step n s (record s {
        queue = s.queue ++ new ∷ [];
        pc = update s.pc i (pushing e);
        given = s.given ++ new ∷ [];
      })
  notify_one :
      (i e j : ℕ)
      → i < n
      → j < n
      → s.pc i ≡ pushing e
      → s.pc j ≡ asleep
      → Step n s (record s { pc = update (update s.pc j waiting) i (busy e) })
  notify_none :
      (i e : ℕ)
      → i < n
      → s.pc i ≡ pushing e
      → ((j : ℕ) → j < n → s.pc j ≢ asleep)
      → Step n s (record s { pc = update s.pc i (busy e) })
  complete :
      (i e : ℕ) (single queued : List ℕ)
      → i < n
      → s.pc i ≡ busy e
      → Step n s (record s {
        queue = put_results single queued s.queue;
        pc = update s.pc i returning;
        given = s.given ++ (single ++ queued);
        done = s.done ++ e ∷ [];
      })
  notify :
      (i : ℕ)
      → i < n
      → s.pc i ≡ returning
      → Step n s (record s { pc = update (notify_all s.pc) i waiting })

-- The pool when the workers have been started on a queue.
abbrev pub started : List ℕ → Pool
started q = record {
  queue = q;
  finished = false;
  notified = false;
  pc = λ _. waiting;
  given = q;
  done = [];
}

pub data Reach (n : ℕ) (q : List ℕ) : Pool → Type 0 where
  start : Reach n q (started q)
  later : {s t : Pool} → Reach n q s → Step n s t → Reach n q t
