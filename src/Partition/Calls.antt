-- ===== src/Partition/Calls.antt =====
-- The loop of `process_post`, and `close`.
use mathlib.Core.List.{append_assoc}
use caesium_cxx.Base.{
  ℕ, zero, suc, ◌+◌, ◌≡◌, refl, sym, ap, ◌∙◌, inl, inr, true, false, List, [], ◌∷◌, ◌++◌, arith,
  ltb, ◌==◌, Bool-cases, List-cases,
}
use caesium_cxx.Partition.{
  Cmd, Program, Partition, Result, post_all, post_loop, process_post, last_unlock, end_transaction,
  close,
}
use caesium_cxx.Partition.Keeps.{
  Ends, Keeps, Keeps-then, Ends-and_then, Ends-map, end_posts-Ends, reset, last_unlock-Keeps,
  post_all-Keeps,
}

-- `run` is the user code that the calls below may make.
module _ (program : Program) (run : List Cmd → Partition → Result)
    (runs : (cs : List Cmd) (s : Partition)
      → s.current ≡ ltb 0 s.depth
      → Ends (Keeps s.depth 0 s) (Keeps s.depth 0 s) (run cs s)) where
  pub runs_from :
      (d n : ℕ) (cs : List Cmd) (s t : Partition)
      → Keeps d n s t
      → Ends (Keeps d n s) (Keeps d n s) (run cs t)
  runs_from d n cs s t k =
      Ends-map (Keeps t.depth 0 t) (Keeps d n s) (Keeps t.depth 0 t) (Keeps d n s) (run cs t)
        (λ u w. Keeps-then d n s t u k w) (λ u w. Keeps-then d n s t u k w)
        (runs cs t (k.current ∙ ap (ltb 0) (sym k.depth)))

  relock :
      (d : ℕ) (s u : Partition) → Keeps d 1 s u → Keeps d 0 s (record u { locks = u.locks + 1 })
  relock d s u w = record {
    depth = w.depth;
    current = w.current;
    processing = w.processing;
    fifo = w.fifo;
    balance = omega (arith, w.balance);
  }

  -- The loop ends with an empty queue, or in an action that has thrown, with `mx` unlocked.
  post_loop-Ends :
      (fuel d : ℕ) (s t : Partition)
      → Keeps d 0 s t
      → Ends (λ u. Keeps d 0 s u × (u.post_q ≡ [])) (Keeps d 1 s) (post_loop program run fuel t)
  unfolding post_loop Ends
  post_loop-Ends zero d s t k = tt
  post_loop-Ends (suc fuel) d s t k = elim (List-cases t.post_q) [
    | inl e ↦ rw (e, post_loop) (k, e)
    | inr (a, rest, e) ↦
        let p = record t { post_q = rest; unlocks = t.unlocks + 1; ran = t.ran ++ a ∷ [] } in
        let k' : Keeps d 1 s p = record {
          depth = k.depth;
          current = k.current;
          processing = k.processing;
          fifo =
              let (new, g, r) = k.fifo in
              (new, g, append_assoc t.ran (a ∷ []) rest ∙ ap (λ q. t.ran ++ q) (sym e) ∙ r);
          balance = omega (arith, k.balance);
        } in
        rw (e, post_loop)
          (Ends-and_then (Keeps d 1 s) (λ u. Keeps d 0 s u × (u.post_q ≡ [])) (Keeps d 1 s)
            (run (program.action a) p) _ (runs_from d 1 (program.action a) s p k')
            (λ u w. post_loop-Ends fuel d s (record u { locks = u.locks + 1 }) (relock d s u w)))
  ]

  -- `process_post` either returns at once, or empties the queue, or throws with `mx` unlocked.
  process_post-Ends :
      (fuel d : ℕ) (s t : Partition)
      → Keeps d 0 s t
      → Ends
          (λ u. Keeps d 0 s u × (t.processing_post ≡ false → u.post_q ≡ []))
          (Keeps d 1 s)
          (process_post program run fuel t)
  unfolding process_post Ends
  process_post-Ends fuel d s t k = elim (Bool-cases t.processing_post) [
    | inl e ↦ rw (e, process_post) (k, λ h. absurd (ground (arith, h)))
    | inr e ↦
        rw (e, process_post)
          (end_posts-Ends (λ u. Keeps d 0 (record s { processing_post = true }) u × (u.post_q ≡ []))
            (λ u. Keeps d 0 s u × (false ≡ false → u.post_q ≡ []))
            (Keeps d 1 (record s { processing_post = true })) (Keeps d 1 s)
            (post_loop program run fuel (record t { processing_post = true }))
            (λ u (w, q). (reset d 0 s u (sym k.processing ∙ e) w, λ h. q))
            (λ u w. reset d 1 s u (sym k.processing ∙ e) w)
            (post_loop-Ends fuel d (record s { processing_post = true })
              (record t { processing_post = true })
              (record {
                depth = k.depth;
                current = k.current;
                processing = refl;
                fifo = k.fifo;
                balance = k.balance;
              })))
  ]

  ended :
      (s t : Partition)
      → s.depth ≡ 0
      → Keeps (s.depth + 1) 0 s t
      → Keeps s.depth 0 (record s { closed = s.closed + 1 }) (end_transaction t)
  unfolding end_transaction
  ended s t z k = record {
    depth = omega (arith, k.depth);
    current = ground (arith, z);
    processing = k.processing;
    fifo = k.fifo;
    balance = omega (arith, k.balance);
  }

  counted :
      (d : ℕ) (s t : Partition) → Keeps d 1 (record s { closed = s.closed + 1 }) t → Keeps d 0 s t
  counted d s t k = record {
    depth = k.depth;
    current = k.current;
    processing = k.processing;
    fifo = k.fifo;
    balance = omega (arith, k.balance);
  }

  -- `close` goes back to the depth before the constructor, also where it throws; if that ends the
  -- outermost transaction, and it returns, then all posted actions have been called.
  pub close-Ends :
      (fuel b : ℕ) (s t : Partition)
      → Keeps (s.depth + 1) 0 s t
      → Ends
          (λ u. Keeps s.depth 0 s u × (s.depth ≡ 0 → s.processing_post ≡ false → u.post_q ≡ []))
          (Keeps s.depth 0 s)
          (close program run fuel b t)
  unfolding close Ends last_unlock
  close-Ends fuel b s t k = elim (Bool-cases (t.depth == 1)) [
    | inl e ↦
        let z : s.depth ≡ 0 = ground (arith, e, k.depth) in
        elim (Bool-cases (program.fails b)) [
          | inl e' ↦
              rw (e, e') (counted s.depth s _ (last_unlock-Keeps s.depth 0 _ _ (ended s t z k)))
          | inr e' ↦
              rw (e, e')
                (let es = post_all-Keeps (program.entries b) (s.depth + 1) 0 s t k in
                  let p = end_transaction (post_all (program.entries b) t) in
                  let l = record s { closed = s.closed + 1 } in
                  Ends-and_then
                    (λ u. Keeps s.depth 0 l u × (p.processing_post ≡ false → u.post_q ≡ []))
                    (λ u.
                      Keeps s.depth 0 s u
                      × (s.depth ≡ 0 → s.processing_post ≡ false → u.post_q ≡ []))
                    (Keeps s.depth 0 s) (process_post program run fuel p) _
                    (Ends-map
                      (λ u. Keeps s.depth 0 l u × (p.processing_post ≡ false → u.post_q ≡ []))
                      (λ u. Keeps s.depth 0 l u × (p.processing_post ≡ false → u.post_q ≡ []))
                      (Keeps s.depth 1 l) (Keeps s.depth 0 s) _ (λ u w. w) (counted s.depth s)
                      (process_post-Ends fuel s.depth l p (ended s _ z es)))
                    (λ u (w, q). (
                      counted s.depth s (last_unlock u) (last_unlock-Keeps s.depth 0 l u w),
                      λ h h'. q (es.processing ∙ h'),
                    )))
        ]
    | inr e ↦ rw e (
      record {
        depth = omega (arith, k.depth);
        current = ground (arith, e, k.depth, k.current);
        processing = k.processing;
        fifo = k.fifo;
        balance = k.balance;
      },
      λ z. ground (arith, e, k.depth, z),
    )
  ]
