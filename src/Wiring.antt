-- ===== src/Wiring.antt =====
-- How streams and cells are wired: `unsafe_new_stream`, `listen_raw` and the primitive operators of
-- sodium/sodium.cpp, and `coalesce_` of sodium/sodium.h. A stream is a node, or `none` when its
-- listen function is gone (a stream that never fires).
pub mod Unlinking
pub mod Late
pub mod Collecting
pub mod Examples
use caesium_cxx.Base.{
  ℕ, ◌+◌, Bool, true, false, Option, none, some, List, [], ◌∷◌, ◌++◌, if◌then◌else◌, not, ◌&&◌,
  update,
}
use caesium_cxx.Network.{
  Handler, forward, filter_handler, filter_optional_handler, merge_handler, snapshot_handler,
  once_handler, coalesce_handler, last_firing_only_handler, hold_handler, Link, Entry, firing_entry,
  Net, is_empty, send,
}

abbrev pub Stream : Type 0
Stream = Option ℕ

-- `cell_impl_concrete`: the number of its state, and the stream of its updates.
pub record Cell : Type 0 where
  pub state : ℕ
  pub updates : Stream

-- Functions that undo a link: the one that a listen function returns, `kill_once` on a slot, and
-- the one that takes the link of a merge's left node away.
pub data Cleanup : Type 0 where
  unlinks : (node holder : ℕ) → Cleanup
  kills_once : (slot : ℕ) → Cleanup
  unlinks_left : (node holder : ℕ) → Cleanup

-- What has been built. `cleanups` lists what a node's stream will run when it is torn down, newest
-- first; `cell_kills` has the `kill` of each cell.
pub record Build (V : Type 0) : Type 0 where
  pub net : Net V
  pub next_node : ℕ
  pub next_holder : ℕ
  pub next_state : ℕ
  pub next_cell : ℕ
  pub next_slot : ℕ
  pub cleanups : ℕ → List Cleanup
  pub cell_kills : ℕ → Option Cleanup

module _ {V : Type 0} where
  -- `unsafe_new_stream`: a new node, and the stream of it.
  unfoldable pub unsafe_new_stream : Build V → ℕ × Build V
  unsafe_new_stream b = (b.next_node, record b { next_node = b.next_node + 1 })

  -- The listen function that `unsafe_new_stream` makes: the link goes to the front, and the
  -- firings of this transaction, if there are any and they are not suppressed, are queued.
  unfoldable pub listen_function : ℕ → ℕ → ℕ → Bool → Net V → Net V
  listen_function n target h suppress s = record s {
    targets = update s.targets n (record { h = h; n = target } ∷ s.targets n);
    queue =
        if not suppress && not (is_empty (s.firings n))
        then s.queue ++ firing_entry target h (s.firings n) ∷ []
        else s.queue;
  }

  -- `stream_::listen_raw` with a handler, or `forward` for the version without one; the holder is
  -- made before `listen_impl` looks whether the stream is alive. `none` is NULL.
  unfoldable pub listen_raw : Stream → ℕ → Handler V → Bool → Build V → Option Cleanup × Build V
  unfolding listen_function
  listen_raw s target handler suppress b =
      let h = b.next_holder in
      let held = record b {
        net = record b.net { handlers = update b.net.handlers h handler };
        next_holder = h + 1;
      } in
      elim s [
        | none ↦ (none, held)
        | some n ↦
            (some (unlinks n h), record held { net = listen_function n target h suppress held.net })
      ]

  -- `stream_::unsafe_add_cleanup` on a stream that is alive; NULL is passed over.
  unfoldable pub unsafe_add_cleanup : ℕ → Option Cleanup → Build V → Build V
  unsafe_add_cleanup n none b = b
  unsafe_add_cleanup n (some c) b = record b { cleanups = update b.cleanups n (c ∷ b.cleanups n) }

  -- A new stream that is fed from `s` through a handler: `map_`.
  unfoldable pub map_ : Handler V → Stream → Build V → Stream × Build V
  unfolding unsafe_new_stream listen_raw unsafe_add_cleanup
  map_ handler s b =
      let (n, b₁) = unsafe_new_stream b in
      let (kill, b₂) = listen_raw s n handler false b₁ in (some n, unsafe_add_cleanup n kill b₂)

  -- `filter_`, `filter_optional_` and `snapshot_`
  unfoldable pub filter_ : (V → Bool) → Stream → Build V → Stream × Build V
  unfolding map_
  filter_ pred s b = map_ (filter_handler pred) s b

  unfoldable pub filter_optional_ : (V → Option V) → Stream → Build V → Stream × Build V
  unfolding map_
  filter_optional_ f s b = map_ (filter_optional_handler f) s b

  unfoldable pub snapshot_ : Cell → (V → V → V) → Stream → Build V → Stream × Build V
  unfolding map_
  snapshot_ cell combine s b = map_ (snapshot_handler cell.state combine) s b

  -- `add_cleanup_`
  unfoldable pub add_cleanup_ : Option Cleanup → Stream → Build V → Stream × Build V
  unfolding unsafe_new_stream listen_raw unsafe_add_cleanup
  add_cleanup_ cleanup s b =
      let (n, b₁) = unsafe_new_stream b in
      let (kill, b₂) = listen_raw s n forward false b₁ in
      (some n, unsafe_add_cleanup n cleanup (unsafe_add_cleanup n kill b₂))

  -- A new `coalesce_state`, which holds nothing.
  unfoldable pub new_coalesce_state : Build V → ℕ × Build V
  new_coalesce_state b = (
    b.next_state,
    record b {
      net = record b.net { coalesced = update b.net.coalesced b.next_state none };
      next_state = b.next_state + 1;
    },
  )

  -- `coalesce_` and `last_firing_only_`
  unfoldable pub coalesce_ : (V → V → V) → Stream → Build V → Stream × Build V
  unfolding new_coalesce_state map_
  coalesce_ combine s b =
      let (st, b₁) = new_coalesce_state b in map_ (coalesce_handler st combine) s b₁

  unfoldable pub last_firing_only_ : Stream → Build V → Stream × Build V
  unfolding new_coalesce_state map_
  last_firing_only_ s b =
      let (st, b₁) = new_coalesce_state b in map_ (last_firing_only_handler st) s b₁

  -- `once_`: the handler's slot holds the function that unlinks it.
  unfoldable pub once_ : Stream → Build V → Stream × Build V
  unfolding unsafe_new_stream listen_raw unsafe_add_cleanup
  once_ s b =
      let k = b.next_slot in
      let (n, b₁) = unsafe_new_stream (record b { next_slot = k + 1 }) in
      let (kill, b₂) = listen_raw s n (once_handler k) false b₁ in
      let slot : Option (ℕ × ℕ) = elim kill [ some (unlinks m h) ↦ some (m, h) | _ ↦ none ] in
      (
        some n,
        unsafe_add_cleanup n (some (kills_once k))
            (record b₂ { net = record b₂.net { kills = update b₂.net.kills k slot } }),
      )

  -- `merge_`: the left node is only there to have a rank.
  unfoldable pub merge_ : Stream → Stream → Build V → Stream × Build V
  unfolding unsafe_new_stream listen_raw unsafe_add_cleanup
  merge_ this other b =
      let (right, b₁) = unsafe_new_stream b in
      let left = b₁.next_node in
      let h = b₁.next_holder in
      let b₂ = record b₁ {
        net = record b₁.net {
          targets = update b₁.net.targets left (record { h = h; n = right } ∷ []);
        };
        next_node = left + 1;
        next_holder = h + 1;
      } in
      let (kill₁, b₃) = listen_raw this left (merge_handler right) false b₂ in
      let (kill₂, b₄) = listen_raw other right forward false b₃ in
      (
        some right,
        unsafe_add_cleanup right (some (unlinks_left left h))
            (unsafe_add_cleanup right kill₂ (unsafe_add_cleanup right kill₁ b₄)),
      )

  -- `hold`: a constant where the stream never fires; or else the handler of the cell sits in a
  -- node of its own.
  unfoldable pub hold : V → Stream → Build V → Cell × Build V
  unfolding listen_raw
  hold init none b = (
    record { state = b.next_cell; updates = none },
    record b {
      net = record b.net {
        cells = update b.net.cells b.next_cell (record { current = init; update = none });
      };
      next_cell = b.next_cell + 1;
    },
  )
  hold init (some m) b =
      let c = b.next_cell in
      let (kill, b₁) = listen_raw (some m) b.next_node (hold_handler c) false (record b {
        net = record b.net {
          cells = update b.net.cells c (record { current = init; update = none });
        };
        next_node = b.next_node + 1;
        next_cell = c + 1;
      }) in
      (
        record { state = c; updates = some m },
        record b₁ { cell_kills = update b₁.cell_kills c kill },
      )

  -- `value_`: a firing now with the value of the cell, or the update of this transaction.
  unfoldable pub value_ : V → Cell → Build V → Stream × Build V
  unfolding unsafe_new_stream snapshot_ merge_ last_firing_only_ send
  value_ unit cell b =
      let (n, b₁) = unsafe_new_stream b in
      let (initial, b₂) =
        snapshot_ cell (λ a c. c) (some n) (record b₁ { net = send n unit b₁.net }) in
      let (merged, b₃) = merge_ initial cell.updates b₂ in last_firing_only_ merged b₃
