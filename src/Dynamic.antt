-- ===== src/Dynamic.antt =====
-- Transactions that change the network while they run: `switch_s` and `switch_c` of
-- sodium/sodium.cpp, `split`, `stream_loop` and `cell_loop` of sodium/sodium.h, with the handlers
-- and entries that they use. The state is what `Wiring` builds, with the partition's queue of
-- posted actions; one worker takes the entries in the order of their queue.
pub mod Links
pub mod Switching
pub mod Posted
pub mod Splitting
pub mod Looping
pub mod Stale
pub mod Examples
use caesium_cxx.Base.{
  ℕ, zero, suc, ◌+◌, ◌-◌, Bool, true, false, Option, none, some, List, [], ◌∷◌, ◌++◌, map, update,
}
use caesium_cxx.Network
use caesium_cxx.Network.{
  Handler, forward, Entry, send_entry, firing_entry, coalesce_entry, apply_entry, Post, Net,
  kill_once, send,
}
use caesium_cxx.Wiring.{
  Stream, Cell, Cleanup, unlinks, kills_once, Build, unsafe_new_stream, listen_raw,
  unsafe_add_cleanup, value_,
}

-- What `cast_ptr` reads out of a value.
pub record Reads (V : Type 0) : Type 0 where
  pub as_stream : V → Stream
  pub as_cell : V → Cell
  pub as_list : V → List V
  pub unit : V

-- The handler of a holder: one of `Network`, the two of the switches, whose slot is `pKillInner`,
-- or the listener of `split`, which has the node of its sink.
pub data Kind : Type 0 where
  plain : Kind
  switch_s_handler switch_c_handler : (slot : ℕ) → Kind
  split_listener : (sink : ℕ) → Kind

pub data Work (V : Type 0) : Type 0 where
  plain_entry : Entry V → Work V
  switch_entry : (target slot cell : ℕ) → Work V

-- The actions in the queue of the partition.
pub data Later (V : Type 0) : Type 0 where
  posted : Post → Later V
  relinks : (slot target : ℕ) → Stream → Later V
  sends_each : (sink : ℕ) → List V → Later V

-- The queues of `net` are empty but inside a call of `Network` or `Wiring`, which appends to them;
-- `absorb` takes over what it has appended.
pub record Machine (V : Type 0) : Type 0 where
  pub build : Build V
  pub kinds : ℕ → Kind
  pub work : List (Work V)
  pub later : List (Later V)

module _ {V : Type 0} where
  unfoldable pub absorb : Build V → Machine V → Machine V
  absorb b m = record m {
    build = record b { net = record b.net { queue = []; posts = [] } };
    work = m.work ++ map plain_entry b.net.queue;
    later = m.later ++ map posted b.net.posts;
  }

  unfoldable pub absorb_net : Net V → Machine V → Machine V
  unfolding absorb
  absorb_net s m = absorb (record m.build { net = s }) m

  -- `*pKillInner = …`; what a listen function returns is null or unlinks.
  unfoldable pub set_kill : ℕ → Option Cleanup → Build V → Build V
  set_kill slot kill b = record b {
    net = record b.net {
      kills = update b.net.kills slot (elim kill [ some (unlinks n h) ↦ some (n, h) | _ ↦ none ]);
    };
  }

  -- A stream that is sent on to `target`, in place of the one that the slot unlinks.
  unfoldable pub relink : ℕ → ℕ → Stream → Bool → Build V → Build V
  unfolding listen_raw set_kill
  relink slot target s suppress b =
      let (kill, b') = listen_raw s target forward suppress b in set_kill slot kill b'

  -- The action of `switch_s_handler`
  unfoldable pub switch_over : ℕ → ℕ → Stream → Machine V → Machine V
  unfolding relink absorb
  switch_over slot target s m =
      absorb (relink slot target s true (record m.build { net = kill_once slot m.build.net })) m

module _ {V : Type 0} (reads : Reads V) where
  -- `handle` of whatever a holder holds.
  unfoldable pub handle : ℕ → ℕ → V → Machine V → Machine V
  unfolding absorb_net absorb relink
  handle h target a m = elim (m.kinds h) [
    | plain ↦ absorb_net (Network.handle (m.build.net.handlers h) target a m.build.net) m
    | switch_s_handler slot ↦ record m {
      later = m.later ++ relinks slot target (reads.as_stream a) ∷ [];
    }
    | switch_c_handler slot ↦
        let b = record m.build { net = kill_once slot m.build.net } in
        let (value, b') = value_ reads.unit (reads.as_cell a) b in
        absorb (relink slot target value false b') m
    | split_listener sink ↦ record m { later = m.later ++ sends_each sink (reads.as_list a) ∷ [] }
  ]

  unfoldable pub handle_all : ℕ → ℕ → List V → Machine V → Machine V
  unfolding handle
  handle_all h target [] m = m
  handle_all h target (a ∷ as') m = handle_all h target as' (handle h target a m)

  abbrev in_callback : ℕ → Machine V → Machine V
  in_callback n m = record m {
    build = record m.build { net = record m.build.net { in_callback = n } };
  }

module _ {V : Type 0} (reads : Reads V) (call : V → V → V) where
  process_plain : Entry V → Machine V → Option (Machine V)
  unfolding absorb_net absorb
  process_plain e m = elim (Network.process call e m.build.net) [
    | none ↦ none
    | some t ↦ some (absorb_net t m)
  ]

  -- `process`; a cell whose value is a stream is sampled by `switch_entry`.
  unfoldable pub process : Work V → Machine V → Option (Machine V)
  unfolding handle handle_all relink absorb process_plain
  process (plain_entry (send_entry l a)) m =
      let t = handle reads l.h l.n a (in_callback reads (m.build.net.in_callback + 1) m) in
      some (in_callback reads (t.build.net.in_callback - 1) t)
  process (plain_entry (firing_entry target h firings)) m =
      some (handle_all reads h target firings m)
  process (plain_entry (coalesce_entry target st)) m = process_plain (coalesce_entry target st) m
  process (plain_entry (apply_entry target st)) m = process_plain (apply_entry target st) m
  process (switch_entry target slot cell) m = elim (m.build.net.kills slot) [
    | some _ ↦ some m
    | none ↦
        let inner = reads.as_stream (Network.sample (m.build.net.cells cell)) in
        some (absorb (relink slot target inner false m.build) m)
  ]

  unfoldable pub drain : ℕ → Machine V → Option (Machine V)
  unfolding process
  drain zero m = none
  drain (suc fuel) m = elim m.work [
    | [] ↦ some m
    | w ∷ rest ↦ elim (process w (record m { work = rest })) [ none ↦ none | some t ↦ drain fuel t ]
  ]

  -- The loop of the action that `split` posts: a transaction for each item. Posted actions are
  -- being run, so the end of such a transaction leaves those that it posts to the loop that is
  -- under way.
  unfoldable pub send_items : ℕ → ℕ → List V → Machine V → Option (Machine V)
  unfolding drain absorb_net absorb send
  send_items fuel sink [] m = some m
  send_items fuel sink (a ∷ as') m = elim (drain fuel (absorb_net (send sink a m.build.net) m)) [
    | none ↦ none
    | some t ↦ send_items fuel sink as' t
  ]

  unfoldable pub run_action : ℕ → Later V → Machine V → Option (Machine V)
  unfolding absorb_net absorb switch_over send_items
  run_action fuel (posted p) m = elim (Network.post p m.build.net) [
    | none ↦ none
    | some t ↦ some (absorb_net t m)
  ]
  run_action fuel (relinks slot target s) m = some (switch_over slot target s m)
  run_action fuel (sends_each sink items) m = send_items fuel sink items m

  -- `partition::process_post`; the fuel bounds the rounds, and the entries of each inner
  -- transaction.
  unfoldable pub run_later : ℕ → Machine V → Option (Machine V)
  unfolding run_action
  run_later zero m = none
  run_later (suc fuel) m = elim m.later [
    | [] ↦ some m
    | l ∷ rest ↦ elim (run_action fuel l (record m { later = rest })) [
      | none ↦ none
      | some t ↦ run_later fuel t
    ]
  ]

  -- The end of an outermost transaction.
  unfoldable pub close : ℕ → Machine V → Option (Machine V)
  unfolding drain run_later
  close fuel m = elim (drain fuel m) [ none ↦ none | some t ↦ run_later fuel t ]

module _ {V : Type 0} where
  -- `listen_raw` with a handler that is not of `Network`.
  listen_kind : Stream → ℕ → Kind → Machine V → Option Cleanup × Machine V
  unfolding listen_raw absorb
  listen_kind s target kind m =
      let (kill, b) = listen_raw s target forward false m.build in
      (kill, absorb b (record m { kinds = update m.kinds m.build.next_holder kind }))

  fresh_stream : Machine V → ℕ × Machine V
  unfolding unsafe_new_stream
  fresh_stream m = let (n, b) = unsafe_new_stream m.build in (n, record m { build = b })

  -- A new `pKillInner`, which is null.
  new_slot : Machine V → ℕ × Machine V
  unfolding set_kill
  new_slot m =
      let slot = m.build.next_slot in
      (slot, record m { build = set_kill slot none (record m.build { next_slot = slot + 1 }) })

  unfoldable pub add_cleanups : ℕ → List (Option Cleanup) → Machine V → Machine V
  unfolding unsafe_add_cleanup
  add_cleanups n [] m = m
  add_cleanups n (c ∷ cs) m =
      add_cleanups n cs (record m { build = unsafe_add_cleanup n c m.build })

  unfoldable pub switch_s : Cell → Machine V → Stream × Machine V
  unfolding listen_kind fresh_stream new_slot add_cleanups
  switch_s bea m =
      let (target, m₁) = fresh_stream m in
      let (slot, m₂) = new_slot m₁ in
      let m₃ = record m₂ { work = m₂.work ++ switch_entry target slot bea.state ∷ [] } in
      let (kill_outer, m₄) = listen_kind bea.updates target (switch_s_handler slot) m₃ in
      (some target, add_cleanups target (some (kills_once slot) ∷ kill_outer ∷ []) m₄)

  -- The stream that `switch_c` holds.
  unfoldable pub switch_c_updates : V → Cell → Machine V → Stream × Machine V
  unfolding listen_kind fresh_stream new_slot add_cleanups absorb
  switch_c_updates unit bba m =
      let (slot, m₁) = new_slot m in
      let (target, m₂) = fresh_stream m₁ in
      let (value, b) = value_ unit bba m₂.build in
      let (kill_outer, m₃) = listen_kind value target (switch_c_handler slot) (absorb b m₂) in
      (some target, add_cleanups target (some (kills_once slot) ∷ kill_outer ∷ []) m₃)

  -- `split`, up to the clean-up of its result: the sink, and the function that unlinks the
  -- listener, which sits in a node of its own.
  unfoldable pub split : Stream → Machine V → (ℕ × Option Cleanup) × Machine V
  unfolding listen_kind fresh_stream
  split e m =
      let (sink, m₁) = fresh_stream m in
      let (own, m₂) = fresh_stream m₁ in
      let (kill, m₃) = listen_kind e own (split_listener sink) m₂ in ((sink, kill), m₃)
