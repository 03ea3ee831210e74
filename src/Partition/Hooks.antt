-- ===== src/Partition/Hooks.antt =====
-- The constructor of a transaction and its hooks.
use caesium_cxx.Base.{
  ℕ, zero, suc, ◌+◌, ◌≡◌, refl, subst, ap, inl, inr, true, false, List, arith, ltb, get_elem?,
  Option-cases, Bool-cases,
}
use caesium_cxx.Partition.{
  Cmd, Program, Partition, Result, returns, ◌and_then◌, run_hooks, unlock_guard, construct,
}
use caesium_cxx.Partition.Keeps.{Fifo-refl, Ends, Keeps, Ends-and_then, Ends-map, unlock_guard-Ends}
use caesium_cxx.Partition.Calls.{runs_from}

-- `run` is the user code that the calls below may make.
module _ (program : Program) (run : List Cmd → Partition → Result)
    (runs : (cs : List Cmd) (s : Partition)
      → s.current ≡ ltb 0 s.depth
      → Ends (Keeps s.depth 0 s) (Keeps s.depth 0 s) (run cs s)) where
  run_hooks-Ends :
      (fuel i d n : ℕ) (s t : Partition)
      → Keeps d n s t
      → Ends (Keeps d n s) (Keeps d n s) (run_hooks program run fuel i t)
  unfolding run_hooks Ends
  run_hooks-Ends zero i d n s t k = tt
  run_hooks-Ends (suc fuel) i d n s t k = elim (Option-cases (get_elem? t.on_start_hooks i)) [
    | inl e ↦ rw (e, run_hooks) k
    | inr (h, e) ↦
        rw (e, run_hooks)
          (Ends-and_then (Keeps d n s) (Keeps d n s) (Keeps d n s) (run (program.hook h) t) _
            (runs_from program run runs d n (program.hook h) s t k)
            (λ u w. run_hooks-Ends fuel (i + 1) d n s u w))
  ]

  deeper :
      (n : ℕ) (s t : Partition)
      → Keeps s.depth n s t
      → Keeps (s.depth + 1) n s (record t { current = true; depth = t.depth + 1 })
  deeper n s t k = record {
    depth = ap (λ d. d + 1) k.depth;
    current = ground arith;
    processing = k.processing;
    fifo = k.fifo;
    balance = k.balance;
  }

  unlocked :
      (d : ℕ) (s t : Partition) → Keeps d 1 (record s { locks = s.locks + 1 }) t → Keeps d 0 s t
  unlocked d s t k = record {
    depth = k.depth;
    current = k.current;
    processing = k.processing;
    fifo = k.fifo;
    balance = omega (arith, k.balance);
  }

  hooks-Ends :
      (fuel : ℕ) (s : Partition)
      → s.current ≡ ltb 0 s.depth
      → Ends (Keeps s.depth 0 s) (Keeps s.depth 0 s) (
          unlock_guard (
            run_hooks program run fuel 0
              (record s { locks = s.locks + 1; processing_on_start_hooks = true })
            and_then λ q. returns (record q { processing_on_start_hooks = false })))
  unfolding Ends
  hooks-Ends fuel s c =
      let l = record s { locks = s.locks + 1 } in
      let h = run_hooks program run fuel 0 (record l { processing_on_start_hooks = true }) in
      Ends-map (Keeps s.depth 1 l) (Keeps s.depth 0 s) (Keeps s.depth 1 l) (Keeps s.depth 0 s) _
        (unlocked s.depth s) (unlocked s.depth s)
        (unlock_guard-Ends s.depth 0 l _ (
          Ends-and_then (Keeps s.depth 0 l) (Keeps s.depth 0 l) (Keeps s.depth 0 l) h _
            (run_hooks-Ends fuel 0 s.depth 0 l _ (record {
              depth = refl;
              current = c;
              processing = refl;
              fifo = Fifo-refl s;
              balance = omega arith;
            }))
            (λ u w. record {
              depth = w.depth;
              current = w.current;
              processing = w.processing;
              fifo = w.fifo;
              balance = w.balance;
            })))

  nested_lem :
      (fuel : ℕ) (s : Partition)
      → s.current ≡ true
      → returns (record s { depth = s.depth + 1 }) ≡ construct program run fuel s
  unfolding construct
  nested_lem fuel s e = simp (e, construct) refl

  in_hooks_lem :
      (fuel : ℕ) (s : Partition)
      → s.current ≡ false
      → s.processing_on_start_hooks ≡ true
      → returns (record s {
        current = true;
        depth = s.depth + 1;
        locks = s.locks + 1;
        unlocks = s.unlocks + 1;
      })
        ≡ construct program run fuel s
  unfolding construct ◌and_then◌
  in_hooks_lem fuel s e e' = simp (e, e', construct) refl

  outermost_lem :
      (fuel : ℕ) (s : Partition)
      → s.current ≡ false
      → s.processing_on_start_hooks ≡ false
      → (unlock_guard (
            run_hooks program run fuel 0
              (record s { locks = s.locks + 1; processing_on_start_hooks = true })
            and_then λ q. returns (record q { processing_on_start_hooks = false }))
          and_then λ q. returns (record q { current = true; depth = q.depth + 1 }))
        ≡ construct program run fuel s
  unfolding construct
  outermost_lem fuel s e e' = simp (e, e', construct) refl

  -- The constructor goes one deeper; if a hook throws, nothing is opened.
  pub construct-Ends :
      (fuel : ℕ) (s : Partition)
      → s.current ≡ ltb 0 s.depth
      → Ends (Keeps (s.depth + 1) 0 s) (Keeps s.depth 0 s) (construct program run fuel s)
  unfolding Ends
  construct-Ends fuel s c =
      let Goal : Result → Type 0 = Ends (Keeps (s.depth + 1) 0 s) (Keeps s.depth 0 s) in
      elim (Bool-cases s.current) [
        | inl e ↦ subst Goal (nested_lem fuel s e) (record {
          depth = refl;
          current = ground (arith, e);
          processing = refl;
          fifo = Fifo-refl s;
          balance = omega arith;
        })
        | inr e ↦ elim (Bool-cases s.processing_on_start_hooks) [
          | inl e' ↦ subst Goal (in_hooks_lem fuel s e e') (
              deeper 0 s (record s { locks = s.locks + 1; unlocks = s.unlocks + 1 })
                (record {
                  depth = refl;
                  current = c;
                  processing = refl;
                  fifo = Fifo-refl s;
                  balance = omega arith;
                }))
          | inr e' ↦ subst Goal (outermost_lem fuel s e e') (
              Ends-and_then (Keeps s.depth 0 s) (Keeps (s.depth + 1) 0 s) (Keeps s.depth 0 s) _ _
                (hooks-Ends fuel s c) (λ u w. deeper 0 s u w))
        ]
      ]
