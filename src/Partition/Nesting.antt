-- ===== src/Partition/Nesting.antt =====
-- Transactions inside transactions, actions and hooks.
use mathlib.Core.List.{append-nil}
use caesium_cxx.Base.{
  ℕ, zero, suc, ◌+◌, ◌≡◌, refl, ap, ◌∙◌, true, false, List, [], ◌∷◌, ◌++◌, arith, ltb,
}
use caesium_cxx.Partition.{
  Cmd, posts, registers, transacts, throws, Program, Partition, Result, returns, thrown, terminated,
  out_of_fuel, ◌and_then◌, post, on_start, post_all, end_posts, post_loop, process_post, run_hooks,
  unlock_guard, construct, last_unlock, end_transaction, close, close_by_destructor, close_after,
  exec,
}
use caesium_cxx.Partition.Keeps.{
  Fifo-refl, Fifo-given, Ends, Keeps, Keeps-refl, Ends-and_then, Ends-map, post-Keeps,
}
use caesium_cxx.Partition.Calls.{runs_from, close-Ends}
use caesium_cxx.Partition.Hooks.{construct-Ends}

destructor-Ends :
    (P P' Q : Partition → Type 0) (r : Result)
    → Ends (λ u. Q u × P u) Q r
    → Ends P' Q (close_by_destructor r)
unfolding Ends close_by_destructor
destructor-Ends P P' Q (returns t) e = e.0
destructor-Ends P P' Q (thrown t) e = tt
destructor-Ends P P' Q terminated e = tt
destructor-Ends P P' Q out_of_fuel e = tt

close_after-Ends :
    (program : Program) (run : List Cmd → Partition → Result)
    (runs : (cs : List Cmd) (s : Partition)
      → s.current ≡ ltb 0 s.depth
      → Ends (Keeps s.depth 0 s) (Keeps s.depth 0 s) (run cs s))
    (fuel b : ℕ) (s : Partition) (r : Result)
    → Ends (Keeps (s.depth + 1) 0 s) (Keeps (s.depth + 1) 0 s) r
    → Ends
        (λ u. Keeps s.depth 0 s u × (s.depth ≡ 0 → s.processing_post ≡ false → u.post_q ≡ []))
        (Keeps s.depth 0 s)
        (close_after program run fuel b r)
unfolding close_after Ends
close_after-Ends program run runs fuel b s (returns t) k = close-Ends program run runs fuel b s t k
close_after-Ends program run runs fuel b s (thrown t) k =
    destructor-Ends (λ u. s.depth ≡ 0 → s.processing_post ≡ false → u.post_q ≡ []) _
      (Keeps s.depth 0 s) (close program run fuel b t) (close-Ends program run runs fuel b s t k)
close_after-Ends program run runs fuel b s terminated k = tt
close_after-Ends program run runs fuel b s out_of_fuel k = tt

transacts-Ends :
    (program : Program) (run : List Cmd → Partition → Result)
    (runs : (cs : List Cmd) (s : Partition)
      → s.current ≡ ltb 0 s.depth
      → Ends (Keeps s.depth 0 s) (Keeps s.depth 0 s) (run cs s))
    (fuel b : ℕ) (s : Partition)
    → s.current ≡ ltb 0 s.depth
    → Ends
        (λ u. Keeps s.depth 0 s u × (s.depth ≡ 0 → s.processing_post ≡ false → u.post_q ≡ []))
        (Keeps s.depth 0 s)
        (construct program run fuel s and_then λ q.
          close_after program run fuel b (run (program.body b) q))
transacts-Ends program run runs fuel b s c =
    Ends-and_then (Keeps (s.depth + 1) 0 s) _ (Keeps s.depth 0 s) (construct program run fuel s) _
      (construct-Ends program run runs fuel s c)
      (λ t k.
        close_after-Ends program run runs fuel b s (run (program.body b) t)
          (runs_from program run runs (s.depth + 1) 0 (program.body b) s t k))

-- Whatever user code does with transactions, posted actions, hooks and exceptions: when it returns,
-- and when it throws, the depth is the one before, there is a current transaction just when the
-- depth is not 0, posted actions are being run just when they were before, the list of the actions
-- called so far with the queue behind it has grown at its end by just the actions that were posted
-- meanwhile, in their order (so they are called in the order of posting, none is lost or called
-- twice), and `mx` has been unlocked once more than it was locked for each outermost transaction
-- that has been closed meanwhile.
pub exec-Keeps :
    (program : Program) (fuel : ℕ) (cs : List Cmd) (s : Partition)
    → s.current ≡ ltb 0 s.depth
    → Ends (Keeps s.depth 0 s) (Keeps s.depth 0 s) (exec program fuel cs s)
unfolding exec Ends
exec-Keeps program zero cs s c = tt
exec-Keeps program (suc fuel) [] s c = Keeps-refl s c
exec-Keeps program (suc fuel) (throws ∷ cs) s c = Keeps-refl s c
exec-Keeps program (suc fuel) (posts a ∷ cs) s c =
    runs_from program (exec program fuel) (exec-Keeps program fuel) s.depth 0 cs s (post a s)
      (post-Keeps a s.depth 0 s s (Keeps-refl s c))
exec-Keeps program (suc fuel) (registers h ∷ cs) s c =
    runs_from program (exec program fuel) (exec-Keeps program fuel) s.depth 0 cs s (on_start h s)
      (record {
        depth = refl;
        current = c;
        processing = refl;
        fifo = Fifo-refl s;
        balance = omega arith;
      })
exec-Keeps program (suc fuel) (transacts b ∷ cs) s c =
    let run = exec program fuel in
    Ends-and_then
      (λ u. Keeps s.depth 0 s u × (s.depth ≡ 0 → s.processing_post ≡ false → u.post_q ≡ []))
      (Keeps s.depth 0 s) (Keeps s.depth 0 s) _ _
      (transacts-Ends program run (exec-Keeps program fuel) fuel b s c)
      (λ u (w, q). runs_from program run (exec-Keeps program fuel) s.depth 0 cs s u w)

nothing-Ends :
    (program : Program) (P Q : Partition → Type 0) (fuel : ℕ) (s : Partition)
    → P s
    → Ends P Q (exec program fuel [] s)
unfolding exec Ends
nothing-Ends program P Q zero s h = tt
nothing-Ends program P Q (suc fuel) s h = h

-- An outermost transaction, outside any posted action, with no action left over from before: when
-- it returns, every action ever posted has been called, in the order of posting, and none is
-- left; when it throws, the actions that were not called yet stay in the queue.
pub transaction-calls_posts :
    (program : Program) (fuel b : ℕ) (s : Partition)
    → s.depth ≡ 0
    → s.current ≡ false
    → s.processing_post ≡ false
    → s.given ≡ s.ran ++ s.post_q
    → Ends
        (λ u. (u.post_q ≡ []) × (u.given ≡ u.ran) × (u.processing_post ≡ false))
        (λ u. (u.given ≡ u.ran ++ u.post_q) × (u.processing_post ≡ false))
        (exec program fuel (transacts b ∷ []) s)
unfolding exec Ends
transaction-calls_posts program zero b s d c p g = tt
transaction-calls_posts program (suc fuel) b s d c p g =
    let run = exec program fuel in
    let P : Partition → Type 0 =
      λ u. (u.post_q ≡ []) × (u.given ≡ u.ran) × (u.processing_post ≡ false) in
    let Q : Partition → Type 0 = λ u. (u.given ≡ u.ran ++ u.post_q) × (u.processing_post ≡ false) in
    Ends-and_then P P Q _ _
      (Ends-map
        (λ u. Keeps s.depth 0 s u × (s.depth ≡ 0 → s.processing_post ≡ false → u.post_q ≡ [])) P
        (Keeps s.depth 0 s) Q _
        (λ u (w, q).
          let e = q d p in
          (
            e,
            Fifo-given s u w.fifo g ∙ ap (λ l. u.ran ++ l) e ∙ append-nil u.ran,
            w.processing ∙ p,
          ))
        (λ u w. (Fifo-given s u w.fifo g, w.processing ∙ p))
        (transacts-Ends program run (exec-Keeps program fuel) fuel b s (c ∙ ground (arith, d))))
      (λ u h. nothing-Ends program P Q fuel u h)

-- `p` with no transaction open and nothing going on.
abbrev pub at_rest : List ℕ → Partition → Partition
at_rest hooks p = record p {
  depth = 0;
  current = false;
  processing_post = false;
  processing_on_start_hooks = false;
  on_start_hooks = hooks;
  post_q = [];
}

-- A transaction that does nothing at all, while nothing is posted and there is no hook, returns,
-- and `mx` has been locked once and unlocked twice.
empty_transaction-unlocks :
    (program : Program) (fuel b : ℕ) (p : Partition)
    → program.body b ≡ []
    → program.entries b ≡ []
    → program.fails b ≡ false
    → let s = at_rest [] p in
      exec program (suc (suc fuel)) (transacts b ∷ []) s
      ≡ returns
          (record s { locks = s.locks + 1; unlocks = s.unlocks + 1 + 1; closed = s.closed + 1 })
unfolding exec construct run_hooks unlock_guard close_after close end_transaction process_post
    post_loop end_posts last_unlock post_all ◌and_then◌
empty_transaction-unlocks program fuel b p body es f = rw (body, es, f) refl

-- When the first hook throws, no transaction is opened, but the hooks count as being called
-- for good: the next outermost transaction opens without calling any.
hook_throws-skips :
    (program : Program) (fuel b h : ℕ) (hs : List ℕ) (cs cs' : List Cmd) (p : Partition)
    → program.hook h ≡ throws ∷ cs
    → let s = at_rest (h ∷ hs) p in
      let t = record s {
        processing_on_start_hooks = true;
        locks = s.locks + 1;
        unlocks = s.unlocks + 1;
      } in
      (exec program (suc (suc fuel)) (transacts b ∷ cs') s ≡ thrown t)
      × (construct program (exec program fuel) fuel t
          ≡ returns (record t {
            locks = t.locks + 1;
            unlocks = t.unlocks + 1;
            current = true;
            depth = 1;
          }))
unfolding exec construct run_hooks unlock_guard ◌and_then◌
hook_throws-skips program fuel b h hs cs cs' p e = (rw e refl, refl)
