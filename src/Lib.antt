-- ===== src/Lib.antt =====
-- Verification of caesium, a C++ library for functional reactive programming (the sources are in
-- sodium/). Streams and cells are nodes of a graph of listeners; a transaction sends values along
-- the links of the graph, entry by entry, and ends with posted actions.
--
-- The parts and the files that model them:
--   CountSet     `count_set` of sodium/count_set.h: three counters in one word while they fit.
--   ListenImpl   `listen_impl_func` of sodium/sodium_base.h with `intrusive_ptr_release` of
--                sodium/transaction.cpp: what a stream runs when nobody can reach it.
--   LockPool     `spin_get_and_lock` of sodium/lock_pool.h.
--   LightPtr     `light_ptr` of sodium/light_ptr.h and light_ptr.cpp: `create`, `copy`, `destroy`
--                and `assign` on a heap of counts; `none` is a followed null or dangling pointer.
--   Node         `node` of sodium/transaction.cpp: `link`, `unlink`, `unlink_by_target`, `destroy`
--                (the destructor) and `ensure_bigger_than`.
--   Workers      the threads of `transaction_impl::process_transactional`; every stretch under
--                `queue_mu` is one step of `Step`, and so is each call that notifies `queue_cv`; the
--                steps interleave in any order.
--   Network      `send` of sodium/sodium.cpp, `handle` of the handlers in sodium/sodium_base.h and
--                sodium/sodium.h, `process` of the entries, `drain` for the loop of one worker, and
--                `close`, which works off the queue and then runs the posted actions.
--   Partition    `partition` and `transaction_` of sodium/transaction.cpp: `construct`, `close`,
--                `process_post`, the hooks, exceptions and the calls on the mutex `mx`, for user code
--                that is a parameter (`Program`).
--   Timer        `thread_safe_priority_queue`, `event`, `at_state` and the hook of sodium/time.h; `reacts`
--                is what the program does when something fires, `periodic` in `periodic_timer`.
--   Wiring       `unsafe_new_stream`, `listen_raw` and the primitive operators of sodium/sodium.cpp, which
--                build a `Net`; `collect_lazy` of a cell (Wiring/Collecting).
--   ThreadPool   `thread_pool` of sodium/concurrency/thread_pool.cpp, as a step relation like `Workers`.
--   MergeTree    `impl::merge` of a collection, in sodium/sodium.h, over any merge of two.
--   Router       the routing table, `router_handler::handle` and `filter_equals` of sodium/router.h; `leave` is
--                what the clean-up of a route does.
--   MagicRef     `link` and `magic_ref` of experimental/sodium/impl/magic_ref.cpp and magic_ref.h: the
--                counts, `collect_cycles` (MagicRef/Cycles) and `assign` (MagicRef/Values).
--   Prioritized  `transaction_impl` of experimental/sodium/transaction.cpp: entries, `check_regen` and
--                `close`; `link_to` and `unlink_to` (Prioritized/Nodes); which transaction is
--                open (Prioritized/Current).
--   Streams      `send`, `listen` and the listeners of experimental/sodium/sodium.h, as what the actions of
--                `Prioritized` do; the listener of a cell (`hold_update`, `finalize_cell`); how the
--                operators and `hold` build a network (Streams/Operators).
--   LazyCell     `cell_state`, `cell_state_lazy` and `cell_impl_loop` of sodium/sodium_base.h, and how the
--                handlers of `hold` and `hold_lazy` in sodium/sodium.h update them.
--   Dynamic      transactions that change the network: the handlers and the entry of `switch_s` and
--                `switch_c`, `split`, and the queue of posted actions that they use (`run_later`);
--                `stream_loop` and `cell_loop` (Dynamic/Looping).
--   Lift         the functions `lift` of sodium/sodium.h, over any `map` and `apply` of cells.
--   Listening    `listen` and `listen_once` of sodium/sodium.h, with the memory that the function which
--                unlinks a listener deletes (`keepalive`).
--   Api          operators of sodium/sodium.h that are made of others: `merge`, `gate`, `accum`, `count`,
--                the sinks, `value` and `listen` of a cell.
--   Promise      the constructor of `promise` of sodium/promise.h from a stream, on the networks of
--                `Wiring`.
--
-- They use each other: the posted actions of `Network` are those that `Partition` calls; `Network`
-- is what the entries of `Workers` do; its links are those of `Node`, whose ranks it does not read,
-- as the code does not; the counts of `ListenImpl` are a `CountSet`; `Streams` is what the actions of
-- `Prioritized` do, whose walk over ranks is shown to be that of `Node`.
--
-- Numbers. The fields of a count set are as wide as config.h says, and a rank has 64 bits; sums wrap
-- around (`% 2 ^ w`). The counts of a `light_ptr` are `int` in the source and natural numbers here.
-- The loops of `Partition` and `Timer` run on fuel too, for user code that may never end.
-- Loops without a bound run on fuel: `ensure_bigger_than` needs one more than there are nodes, `drain`
-- one more than the entries that the queue can give rise to, for which `Termination` has a measure; the
-- walks of `MagicRef` need one more than twice as many as there are links.
--
-- Not modelled: the constructor and loops of routers, `then_do`, `map` and `lift` of promises, `apply`, `map_`
-- and `hold_lazy` of cells, the wrappers of sodium/sodium.h that only open a transaction and call one
-- untyped operator, the loops and `sample_lazy` of experimental/sodium/sodium.h, tests and benchmarks.
-- Exceptions are part of `Partition` only, and the failure of an allocation is not modelled.
pub mod Base
pub mod CountSet
pub mod ListenImpl
pub mod LockPool
pub mod LightPtr
pub mod Node
pub mod Workers
pub mod Network
pub mod Partition
pub mod Timer
pub mod Wiring
pub mod ThreadPool
pub mod MergeTree
pub mod Router
pub mod MagicRef
pub mod Prioritized
pub mod Streams
pub mod LazyCell
pub mod Dynamic
pub mod Lift
pub mod Listening
pub mod Api
pub mod Promise
