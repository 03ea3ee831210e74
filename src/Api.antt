-- ===== src/Api.antt =====
-- Operators of sodium/sodium.h that are made of others: `or_else`, `merge`, `gate`,
-- `map_optional`, `map_to`, `accum`, `count`, `collect` of a stream, the sinks, and `value` and
-- `listen` of a cell. The transaction that each opens is the one that is open already.
pub mod Folding
pub mod Gating
pub mod Examples
use caesium_cxx.Base.{ℕ, ◌+◌, Bool, Option, none, some, List, [], ◌∷◌, if◌then◌else◌, update}
use caesium_cxx.Network.{Handler, map_handler, collect_handler, accum_s_handler}
use caesium_cxx.Wiring.{
  Stream, Cell, Cleanup, Build, unsafe_new_stream, map_, filter_optional_, snapshot_, coalesce_,
  merge_, hold, value_,
}
use caesium_cxx.Listening
use caesium_cxx.Listening.{listen}

module _ {V : Type 0} where
  unfoldable pub merge : (V → V → V) → Stream → Stream → Build V → Stream × Build V
  unfolding merge_ coalesce_
  merge f this s b = let (merged, b₁) = merge_ this s b in coalesce_ f merged b₁

  unfoldable pub or_else : Stream → Stream → Build V → Stream × Build V
  unfolding merge
  or_else this s b = merge (λ l r. l) this s b

  unfoldable pub map_to : V → Stream → Build V → Stream × Build V
  unfolding map_
  map_to v s b = map_ (map_handler (λ a. v)) s b

  -- `snapshot` of a cell alone.
  unfoldable pub snapshot_value : Cell → Stream → Build V → Stream × Build V
  unfolding snapshot_
  snapshot_value cell s b = snapshot_ cell (λ a c. c) s b

  -- A stream with a state of its own, which starts with `init`.
  with_state : V → (ℕ → Handler V) → Stream → Build V → Stream × Build V
  unfolding map_
  with_state init handler s b =
      let st = b.next_state in
      map_ (handler st) s (record b {
        net = record b.net { states = update b.net.states st init };
        next_state = st + 1;
      })

  unfoldable pub accum_s_lazy : V → (V → V → V) → Stream → Build V → Stream × Build V
  unfolding with_state
  accum_s_lazy init f s b = with_state init (λ st. accum_s_handler st f) s b

  unfoldable pub collect_lazy : V → (V → V → V × V) → Stream → Build V → Stream × Build V
  unfolding with_state
  collect_lazy init f s b = with_state init (λ st. collect_handler st f) s b

  unfoldable pub accum : V → (V → V → V) → Stream → Build V → Cell × Build V
  unfolding accum_s_lazy hold
  accum init f s b = let (sums, b₁) = accum_s_lazy init f s b in hold init sums b₁

  -- `count`, where `next` adds 1.
  unfoldable pub count : (V → V) → V → Stream → Build V → Cell × Build V
  unfolding accum
  count next initial s b = accum initial (λ a total. next total) s b

  -- The constructors of `stream_sink` and `cell_sink`; a sink has the node that it sends to.
  unfoldable pub stream_sink : (V → V → V) → Build V → (ℕ × Stream) × Build V
  unfolding unsafe_new_stream coalesce_
  stream_sink f b =
      let (target, b₁) = unsafe_new_stream b in
      let (s, b₂) = coalesce_ f (some target) b₁ in ((target, s), b₂)

  unfoldable pub cell_sink : V → Build V → (ℕ × Cell) × Build V
  unfolding stream_sink hold
  cell_sink init b =
      let ((target, s), b₁) = stream_sink (λ x y. y) b in
      let (cell, b₂) = hold init s b₁ in ((target, cell), b₂)

  -- `value` and `listen` of a cell.
  unfoldable pub cell_value : V → Cell → Build V → Stream × Build V
  unfolding value_ coalesce_
  cell_value unit cell b = let (s, b₁) = value_ unit cell b in coalesce_ (λ x y. y) s b₁

  unfoldable pub listen_cell : V → ℕ → Cell → Build V → Option Cleanup × Build V
  unfolding cell_value listen
  listen_cell unit l cell b = let (s, b₁) = cell_value unit cell b in listen l s b₁

-- How a value carries a truth value, or an optional value.
module _ {V : Type 0} (as_bool : V → Bool) (wrap : Option V → V) (contents : V → Option V) where
  unfoldable pub gate : Cell → Stream → Build V → Stream × Build V
  unfolding snapshot_ filter_optional_
  gate g s b =
      let (x, b₁) = snapshot_ g (λ a gated. wrap (if as_bool gated then some a else none)) s b in
      filter_optional_ contents x b₁

  unfoldable pub map_optional : (V → Option V) → Stream → Build V → Stream × Build V
  unfolding map_ filter_optional_
  map_optional f s b =
      let (x, b₁) = map_ (map_handler (λ a. wrap (f a))) s b in filter_optional_ contents x b₁
