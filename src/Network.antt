-- ===== src/Network.antt =====
-- Firing propagation: `send` of sodium/sodium.cpp, the `listen_handler`s of sodium/sodium_base.h
-- and sodium/sodium.h, and the entries of sodium/transaction.cpp, with one worker thread, which
-- takes the entries in the order of the queue. The listener graph is fixed but for unlinking.
pub mod Owed
pub mod Handle
pub mod Finish
pub mod Spends
pub mod Termination
pub mod Delay
pub mod Operators
pub mod Callback
pub mod Glitch
pub mod Applying
pub mod Examples
use caesium_cxx.Base.{
  ℕ, zero, suc, ◌+◌, ◌-◌, Bool, true, false, Option, none, some, List, [], ◌∷◌, ◌++◌, map, ltb,
  ◌==◌, if◌then◌else◌, is_some, update,
}

-- The handlers; nodes, cells and shared states are named by numbers. A holder without a handler is
-- `forward`. The state of `collect_handler` and of `accum_s_handler` is the value of its `lazy`.
pub data Handler (V : Type 0) : Type 0 where
  forward : Handler V
  map_handler : (V → V) → Handler V
  filter_handler : (V → Bool) → Handler V
  filter_optional_handler : (V → Option V) → Handler V
  merge_handler : (right : ℕ) → Handler V
  snapshot_handler : (cell : ℕ) → (V → V → V) → Handler V
  once_handler : (kill : ℕ) → Handler V
  coalesce_handler : (state : ℕ) → (V → V → V) → Handler V
  last_firing_only_handler : (state : ℕ) → Handler V
  hold_handler : (cell : ℕ) → Handler V
  collect_handler : (state : ℕ) → (V → V → V × V) → Handler V
  accum_s_handler : (state : ℕ) → (V → V → V) → Handler V
  apply_f_handler apply_a_handler : (out_target state : ℕ) → Handler V
  listener_handler : (listener : ℕ) → Handler V

-- `node::target`, whose node is not null here: every `listen_raw` gives one.
pub record Link : Type 0 where
  pub h : ℕ
  pub n : ℕ

-- `cell_state`
pub record CellState (V : Type 0) : Type 0 where
  pub current : V
  pub update : Option V

-- `applicative_state`
pub record ApplyState (V : Type 0) : Type 0 where
  pub fired : Bool
  pub f : Option V
  pub a : Option V

pub data Entry (V : Type 0) : Type 0 where
  send_entry : Link → V → Entry V
  coalesce_entry : (target state : ℕ) → Entry V
  firing_entry : (target holder : ℕ) → List V → Entry V
  apply_entry : (target state : ℕ) → Entry V

-- The actions that `last` puts into the queue of the partition.
pub data Post : Type 0 where
  clear_firings : (node : ℕ) → Post
  finalize : (cell : ℕ) → Post
  unlink : (node holder : ℕ) → Post

-- `handlers` is what each holder holds; `heard` lists what the listeners were called with, oldest
-- first. `kills` says which link a kill slot unlinks, while `*ppKill` is not null.
pub record Net (V : Type 0) : Type 0 where
  pub handlers : ℕ → Handler V
  pub targets : ℕ → List Link
  pub firings : ℕ → List V
  pub coalesced : ℕ → Option V
  pub cells : ℕ → CellState V
  pub states : ℕ → V
  pub applies : ℕ → ApplyState V
  pub kills : ℕ → Option (ℕ × ℕ)
  pub queue : List (Entry V)
  pub posts : List Post
  pub in_callback : ℕ
  pub heard : List (ℕ × V)

abbrev pub is_empty {ℓ} : {A : Type ℓ} → List A → Bool
is_empty [] = true
is_empty (x ∷ xs) = false

-- `node::unlink`: the first target with this holder goes.
unfoldable pub unlink_link : ℕ → List Link → List Link
unlink_link h [] = []
unlink_link h (l ∷ ls) = if l.h == h then ls else l ∷ unlink_link h ls

module _ {V : Type 0} where
  -- `cell_impl_concrete<cell_state>::sample` and `newValue`
  abbrev pub sample : CellState V → V
  sample c = c.current

  abbrev pub new_value : CellState V → V
  new_value c = elim c.update [ none ↦ c.current | some v ↦ v ]

  -- `transaction_impl::last` and `prioritized`
  abbrev last : Post → Net V → Net V
  last p s = record s { posts = s.posts ++ p ∷ [] }

  abbrev prioritized : Entry V → Net V → Net V
  prioritized e s = record s { queue = s.queue ++ e ∷ [] }

  -- The first firing of a node in a transaction also posts the action that clears its firings.
  unfoldable pub send : ℕ → V → Net V → Net V
  send n a s = record s {
    posts = if is_empty (s.firings n) then s.posts ++ clear_firings n ∷ [] else s.posts;
    firings = update s.firings n (a ∷ s.firings n);
    queue = s.queue ++ map (λ l. send_entry l a) (s.targets n);
  }

  -- `kill_once` on a slot whose function is the one that `unsafe_new_stream` returns.
  unfoldable pub kill_once : ℕ → Net V → Net V
  kill_once k s = elim (s.kills k) [
    | none ↦ s
    | some (n, h) ↦ last (unlink n h) (record s { kills = update s.kills k none })
  ]

  abbrev set_coalesced : ℕ → V → Net V → Net V
  set_coalesced st v s = record s { coalesced = update s.coalesced st (some v) }

  -- Both coalescing handlers: the first firing also queues the entry that will send the result.
  coalesce : ℕ → (V → V → V) → ℕ → V → Net V → Net V
  coalesce st combine target a s = elim (s.coalesced st) [
    | none ↦ prioritized (coalesce_entry target st) (set_coalesced st a s)
    | some old ↦ set_coalesced st (combine old a) s
  ]

  -- `state.update = a`; the first update also posts `finalize`.
  set_update : ℕ → V → Net V → Net V
  set_update c a s = record s {
    cells = update s.cells c (record (s.cells c) { update = some a });
    posts = if is_some (s.cells c).update then s.posts else s.posts ++ finalize c ∷ [];
  }

  -- The second half of both `apply` handlers, when the other side has a value or not.
  fire_apply : Option V → ℕ → ℕ → Net V → Net V
  fire_apply none out st s = s
  fire_apply (some other) out st s =
      if (s.applies st).fired
      then s
      else prioritized (apply_entry out st)
          (record s { applies = update s.applies st (record (s.applies st) { fired = true }) })

  unfoldable pub handle : Handler V → ℕ → V → Net V → Net V
  unfolding send kill_once coalesce set_update fire_apply
  handle forward target a s = send target a s
  handle (map_handler f) target a s = send target (f a) s
  handle (filter_handler pred) target a s = if pred a then send target a s else s
  handle (filter_optional_handler f) target a s = elim (f a) [ none ↦ s | some b ↦ send target b s ]
  handle (merge_handler right) target a s = send right a s
  handle (snapshot_handler c combine) target a s = send target (combine a (sample (s.cells c))) s
  handle (once_handler k) target a s = elim (s.kills k) [
    | none ↦ s
    | some _ ↦ kill_once k (send target a s)
  ]
  handle (coalesce_handler st combine) target a s = coalesce st combine target a s
  handle (last_firing_only_handler st) target a s = coalesce st (λ old new. new) target a s
  handle (hold_handler c) target a s = send target a (set_update c a s)
  handle (collect_handler st f) target a s =
      let (b, next) = f a (s.states st) in
      send target b (record s { states = update s.states st next })
  handle (accum_s_handler st f) target a s =
      let b = f a (s.states st) in send target b (record s { states = update s.states st b })
  handle (apply_f_handler out st) target f s =
      let s' = record s { applies = update s.applies st (record (s.applies st) { f = some f }) } in
      fire_apply (s.applies st).a out st s'
  handle (apply_a_handler out st) target a s =
      let s' = record s { applies = update s.applies st (record (s.applies st) { a = some a }) } in
      fire_apply (s.applies st).f out st s'
  handle (listener_handler l) target a s = record s { heard = s.heard ++ (l, a) ∷ [] }

  -- The firings that a late listener has missed, newest first.
  unfoldable pub handle_all : Handler V → ℕ → List V → Net V → Net V
  unfolding handle
  handle_all h target [] s = s
  handle_all h target (a ∷ as') s = handle_all h target as' (handle h target a s)

module _ {V : Type 0} (call : V → V → V) where
  -- `process` of each kind of entry; `none` where an `optional` is read that holds nothing. A value
  -- that is a function is applied by `call`.
  unfoldable pub process : Entry V → Net V → Option (Net V)
  unfolding handle handle_all
  process (send_entry l a) s =
      let t = handle (s.handlers l.h) l.n a (record s { in_callback = s.in_callback + 1 }) in
      some (record t { in_callback = t.in_callback - 1 })
  process (coalesce_entry target st) s = elim (s.coalesced st) [
    | none ↦ none
    | some v ↦ let t = send target v s in some (record t { coalesced = update t.coalesced st none })
  ]
  process (firing_entry target h firings) s = some (handle_all (s.handlers h) target firings s)
  process (apply_entry target st) s = elim (s.applies st).f [
    | none ↦ none
    | some f ↦ elim (s.applies st).a [
      | none ↦ none
      | some a ↦
          let t = send target (call f a) s in
          some
            (record t { applies = update t.applies st (record (t.applies st) { fired = false }) })
    ]
  ]

  -- The loop of a worker, which ends when the queue is empty.
  unfoldable pub drain : ℕ → Net V → Option (Net V)
  unfolding process
  drain zero s = none
  drain (suc fuel) s = elim s.queue [
    | [] ↦ some s
    | e ∷ rest ↦ elim (process e (record s { queue = rest })) [
      | none ↦ none
      | some t ↦ drain fuel t
    ]
  ]

module _ {V : Type 0} where
  -- The posted actions; `cell_state::finalize` reads the update.
  unfoldable pub post : Post → Net V → Option (Net V)
  unfolding unlink_link
  post (clear_firings n) s = some (record s { firings = update s.firings n [] })
  post (finalize c) s = elim (s.cells c).update [
    | none ↦ none
    | some v ↦ some (record s { cells = update s.cells c (record { current = v; update = none }) })
  ]
  post (unlink n h) s =
      some (record s { targets = update s.targets n (unlink_link h (s.targets n)) })

  unfoldable pub run_posts : List Post → Net V → Option (Net V)
  unfolding post
  run_posts [] s = some s
  run_posts (p ∷ ps) s = elim (post p s) [ none ↦ none | some t ↦ run_posts ps t ]

  -- The end of an outermost transaction: the queue, then the posted actions.
  unfoldable pub close : (V → V → V) → ℕ → Net V → Option (Net V)
  unfolding drain run_posts
  close call fuel s = elim (drain call fuel s) [
    | none ↦ none
    | some t ↦ run_posts t.posts (record t { posts = [] })
  ]

  -- `stream_sink::send` inside an open transaction; `none` is the exception it throws.
  unfoldable pub sink_send : ℕ → V → Net V → Option (Net V)
  unfolding send
  sink_send target a s = if ltb 0 s.in_callback then none else some (send target a s)
