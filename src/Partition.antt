-- ===== src/Partition.antt =====
-- `partition` and `transaction_` of sodium/transaction.cpp, for one thread: nesting, the hooks
-- that a transaction starts with, the actions that are posted, and the mutex `mx`.
pub mod Keeps
pub mod Calls
pub mod Hooks
pub mod Nesting
pub mod Examples
use caesium_cxx.Base.{
  ℕ, zero, suc, ◌+◌, ◌-◌, Bool, true, false, Option, none, some, List, [], ◌∷◌, ◌++◌, ◌==◌,
  if◌then◌else◌, get_elem?,
}

-- What user code does: it posts an action, registers a hook, runs a transaction (by the number of
-- its body), or throws. Actions and hooks are named by numbers.
pub data Cmd : Type 0 where
  posts registers transacts : ℕ → Cmd
  throws : Cmd

-- The user code: what an action, a hook and the body of a transaction do; what the entries of a
-- transaction post while they are processed; and whether its threads cannot be started, which makes
-- `process_transactional` throw.
pub record Program : Type 0 where
  pub action : ℕ → List Cmd
  pub hook : ℕ → List Cmd
  pub body : ℕ → List Cmd
  pub entries : ℕ → List ℕ
  pub fails : ℕ → Bool

-- `current` says whether there is a current transaction. `locks` and `unlocks` count the calls on
-- `mx`. `ran` lists the posted actions that were called, and `given` those that were posted, oldest
-- first; `closed` counts the closes of outermost transactions.
pub record Partition : Type 0 where
  pub depth : ℕ
  pub current : Bool
  pub processing_post : Bool
  pub processing_on_start_hooks : Bool
  pub post_q : List ℕ
  pub on_start_hooks : List ℕ
  pub locks : ℕ
  pub unlocks : ℕ
  pub ran : List ℕ
  pub given : List ℕ
  pub closed : ℕ

-- How user code ends: it returns, throws, or the program is terminated by an exception out of a
-- destructor. `out_of_fuel` is not an end.
pub data Result : Type 0 where
  returns thrown : Partition → Result
  terminated out_of_fuel : Result

infixr 5 ◌and_then◌
-- `a; b`
unfoldable pub ◌and_then◌ : Result → (Partition → Result) → Result
returns s and_then k = k s
thrown s and_then k = thrown s
terminated and_then k = terminated
out_of_fuel and_then k = out_of_fuel

-- `partition::post` and `partition::on_start`
abbrev pub post : ℕ → Partition → Partition
post a p = record p {
  locks = p.locks + 1;
  unlocks = p.unlocks + 1;
  post_q = p.post_q ++ a ∷ [];
  given = p.given ++ a ∷ [];
}

abbrev pub on_start : ℕ → Partition → Partition
on_start h p = record p {
  locks = p.locks + 1;
  unlocks = p.unlocks + 1;
  on_start_hooks = p.on_start_hooks ++ h ∷ [];
}

unfoldable pub post_all : List ℕ → Partition → Partition
post_all [] p = p
post_all (a ∷ as') p = post_all as' (post a p)

-- `catch (...) { processing_post = false; throw; }`
unfoldable pub end_posts : Result → Result
end_posts (returns p) = returns (record p { processing_post = false })
end_posts (thrown p) = thrown (record p { processing_post = false })
end_posts terminated = terminated
end_posts out_of_fuel = out_of_fuel

-- The lock guard of the constructor unlocks on both ways out.
unfoldable pub unlock_guard : Result → Result
unlock_guard (returns p) = returns (record p { unlocks = p.unlocks + 1 })
unlock_guard (thrown p) = thrown (record p { unlocks = p.unlocks + 1 })
unlock_guard terminated = terminated
unlock_guard out_of_fuel = out_of_fuel

-- `mx.unlock()` at the end of `close`
unfoldable pub last_unlock : Partition → Partition
last_unlock p = record p { unlocks = p.unlocks + 1 }

-- `part->depth--; global_current_transaction = NULL;`
unfoldable pub end_transaction : Partition → Partition
end_transaction p = record p { depth = p.depth - 1; current = false; closed = p.closed + 1 }

-- The destructor closes too while the exception goes on.
unfoldable pub close_by_destructor : Result → Result
close_by_destructor (returns p) = thrown p
close_by_destructor (thrown p) = terminated
close_by_destructor terminated = terminated
close_by_destructor out_of_fuel = out_of_fuel

module _ (program : Program) (exec : List Cmd → Partition → Result) where
  -- The loop of `process_post`, which has `mx` unlocked while an action runs.
  unfoldable pub post_loop : ℕ → Partition → Result
  unfolding ◌and_then◌
  post_loop zero p = out_of_fuel
  post_loop (suc fuel) p = elim p.post_q [
    | [] ↦ returns p
    | a ∷ rest ↦
        exec (program.action a)
          (record p { post_q = rest; unlocks = p.unlocks + 1; ran = p.ran ++ a ∷ [] })
        and_then λ q. post_loop fuel (record q { locks = q.locks + 1 })
  ]

  -- `partition::process_post`
  unfoldable pub process_post : ℕ → Partition → Result
  unfolding post_loop end_posts
  process_post fuel p = elim p.processing_post [
    | true ↦ returns p
    | false ↦ end_posts (post_loop fuel (record p { processing_post = true }))
  ]

  -- The hooks from the `i`-th on; one that is registered meanwhile is met too.
  unfoldable pub run_hooks : ℕ → ℕ → Partition → Result
  unfolding ◌and_then◌
  run_hooks zero i p = out_of_fuel
  run_hooks (suc fuel) i p = elim (get_elem? p.on_start_hooks i) [
    | none ↦ returns p
    | some h ↦ exec (program.hook h) p and_then λ q. run_hooks fuel (i + 1) q
  ]

  -- `transaction_::transaction_`
  unfoldable pub construct : ℕ → Partition → Result
  unfolding run_hooks unlock_guard ◌and_then◌
  construct fuel p = elim p.current [
    | true ↦ returns (record p { depth = p.depth + 1 })
    | false ↦
        elim p.processing_on_start_hooks [
          | true ↦ returns (record p { locks = p.locks + 1; unlocks = p.unlocks + 1 })
          | false ↦ unlock_guard (
              run_hooks fuel 0 (record p { locks = p.locks + 1; processing_on_start_hooks = true })
              and_then λ q. returns (record q { processing_on_start_hooks = false }))
        ]
        and_then λ q. returns (record q { current = true; depth = q.depth + 1 })
  ]

  -- `transaction_::close` of the transaction with body `b`
  unfoldable pub close : ℕ → ℕ → Partition → Result
  unfolding process_post last_unlock end_transaction post_all ◌and_then◌
  close fuel b p =
      if p.depth == 1
      then (if program.fails b
          then thrown (last_unlock (end_transaction p))
          else process_post fuel (end_transaction (post_all (program.entries b) p)) and_then λ r.
              returns (last_unlock r))
      else returns (record p { depth = p.depth - 1 })

  unfoldable pub close_after : ℕ → ℕ → Result → Result
  unfolding close close_by_destructor
  close_after fuel b (returns p) = close fuel b p
  close_after fuel b (thrown p) = close_by_destructor (close fuel b p)
  close_after fuel b terminated = terminated
  close_after fuel b out_of_fuel = out_of_fuel

-- User code; the fuel bounds the depth of the calls and the rounds of each loop.
unfoldable pub exec : Program → ℕ → List Cmd → Partition → Result
unfolding construct close_after ◌and_then◌
exec program zero cs p = out_of_fuel
exec program (suc fuel) [] p = returns p
exec program (suc fuel) (throws ∷ cs) p = thrown p
exec program (suc fuel) (posts a ∷ cs) p = exec program fuel cs (post a p)
exec program (suc fuel) (registers h ∷ cs) p = exec program fuel cs (on_start h p)
exec program (suc fuel) (transacts b ∷ cs) p =
    let run = exec program fuel in
    (construct program run fuel p and_then λ q.
    close_after program run fuel b (run (program.body b) q))
    and_then λ q. run cs q
