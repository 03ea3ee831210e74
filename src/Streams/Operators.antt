-- ===== src/Streams/Operators.antt =====
-- How the operators of experimental/sodium/sodium.h build streams, in a transaction that is open.
use caesium_cxx.Base.{ℕ, ◌+◌, Bool, true, false, Option, none, some, List, [], ◌∷◌, ◌++◌, update}
use caesium_cxx.Prioritized.{Request, ask}
use caesium_cxx.Prioritized.Nodes.{link_to}
use caesium_cxx.Streams.{
  Handler, map_to, merge_to, filter_to, filter_optional_to, coalesce_to, snapshot_to, accum_to,
  collect_to, hold_in, call, spark, Act, StreamImpl, World, listen,
}

-- The world, the next numbers of a node, a stream, an action, a state, a cell and a receptacle, and
-- what was asked of the transaction, the oldest first.
pub record Build : Type 0 where
  pub world : World
  pub next_node : ℕ
  pub next_stream : ℕ
  pub next_action : ℕ
  pub next_state : ℕ
  pub next_cell : ℕ
  pub next_receptacle : ℕ
  pub asks : List (Request Act)

-- `magic_ref<node_t>(node_t(0))`
unfoldable pub new_node : Build → ℕ × Build
new_node b =
    let n = b.next_node in
    let nodes = b.world.nodes in
    (
      n,
      record b {
        next_node = n + 1;
        world = record b.world {
          nodes = record nodes {
            rank = update nodes.rank n 0;
            listeners = update nodes.listeners n [];
            has_node = update nodes.has_node n true;
          };
        };
      },
    )

unfoldable pub put_stream : StreamImpl → Build → ℕ × Build
put_stream i b = (
  b.next_stream,
  record b {
    next_stream = b.next_stream + 1;
    world = record b.world { streams = update b.world.streams b.next_stream i };
  },
)

-- `stream_impl()`
unfoldable pub new_stream : Build → ℕ × Build
unfolding new_node put_stream
new_stream b =
    let (n, b') = new_node b in put_stream (record { finalizers = []; node = n; firings = [] }) b'

-- `listen` for the transaction that is open; what it gives back is the finalizer.
unfoldable pub listen_ : ℕ → ℕ → ℕ → Handler → Build → Option ((ℕ × ℕ) × Build)
unfolding listen
listen_ fuel s target h b = elim (listen fuel s target b.next_action h false b.world) [
  | none ↦ none
  | some (ref, asked) ↦ some (
    ((b.world.streams s).node, ref),
    record b { next_action = b.next_action + 1; world = asked.0; asks = b.asks ++ asked.1 },
  )
]

-- `add_cleanup_impl`: a copy with one more finalizer
unfoldable pub add_cleanup_impl : ℕ → List (ℕ × ℕ) → World → StreamImpl
add_cleanup_impl s kill w = let i = w.streams s in record i { finalizers = kill ∷ i.finalizers }

-- The copy takes the place of the original, or is a stream of its own.
unfoldable pub unsafe_add_cleanup : ℕ → List (ℕ × ℕ) → Build → Build
unfolding add_cleanup_impl
unsafe_add_cleanup s kill b = record b {
  world = record b.world { streams = update b.world.streams s (add_cleanup_impl s kill b.world) };
}

unfoldable pub add_cleanup : ℕ → List (ℕ × ℕ) → Build → ℕ × Build
unfolding add_cleanup_impl put_stream
add_cleanup s kill b = put_stream (add_cleanup_impl s kill b.world) b

-- A new stream whose node listens to `s`, and the finalizer.
unfoldable pub listening : ℕ → ℕ → (ℕ → Handler) → Build → Option (ℕ × (ℕ × ℕ) × Build)
unfolding new_stream listen_
listening fuel s h b =
    let (out, b1) = new_stream b in
    elim (listen_ fuel s (b1.world.streams out).node (h out) b1) [
      | none ↦ none
      | some (kill, b2) ↦ some (out, kill, b2)
    ]

-- The operators whose listener is cleaned up with `unsafe_add_cleanup`, and those with
-- `add_cleanup`.
unfoldable pub in_place : Option (ℕ × (ℕ × ℕ) × Build) → Option (ℕ × Build)
unfolding unsafe_add_cleanup
in_place none = none
in_place (some (out, kill, b)) = some (out, unsafe_add_cleanup out (kill ∷ []) b)

unfoldable pub in_copy : Option (ℕ × (ℕ × ℕ) × Build) → Option (ℕ × Build)
unfolding add_cleanup
in_copy none = none
in_copy (some (out, kill, b)) = some (add_cleanup out (kill ∷ []) b)

unfoldable pub map_ : ℕ → (ℕ → ℕ) → ℕ → Build → Option (ℕ × Build)
unfolding listening in_place
map_ fuel f s b = in_place (listening fuel s (map_to f) b)

unfoldable pub filter : ℕ → (ℕ → Bool) → ℕ → Build → Option (ℕ × Build)
unfolding listening in_copy
filter fuel p s b = in_copy (listening fuel s (filter_to p) b)

unfoldable pub filter_optional : ℕ → (ℕ → Option ℕ) → ℕ → Build → Option (ℕ × Build)
unfolding listening in_place
filter_optional fuel f s b = in_place (listening fuel s (filter_optional_to f) b)

unfoldable pub snapshot : ℕ → ℕ → (ℕ → ℕ → ℕ) → ℕ → Build → Option (ℕ × Build)
unfolding listening in_place
snapshot fuel c f s b = in_place (listening fuel s (snapshot_to f c) b)

-- A new `p_state` or `collect_state`
new_state : Option ℕ → ℕ → Build → ℕ × Build
new_state p s b = (
  b.next_state,
  record b {
    next_state = b.next_state + 1;
    world = record b.world {
      p_state = update b.world.p_state b.next_state p;
      s_lazy = update b.world.s_lazy b.next_state s;
    };
  },
)

unfoldable pub coalesce : ℕ → (ℕ → ℕ → ℕ) → ℕ → Build → Option (ℕ × Build)
unfolding listening in_copy new_state
coalesce fuel f s b =
    let (st, b1) = new_state none 0 b in in_copy (listening fuel s (coalesce_to f st) b1)

unfoldable pub last_firing_only : ℕ → ℕ → Build → Option (ℕ × Build)
unfolding coalesce
last_firing_only fuel s b = coalesce fuel (λ first second. second) s b

unfoldable pub accum_e_lazy : ℕ → ℕ → (ℕ → ℕ → ℕ) → ℕ → Build → Option (ℕ × Build)
unfolding listening in_place new_state
accum_e_lazy fuel initial f s b =
    let (st, b1) = new_state none initial b in in_place (listening fuel s (accum_to f st) b1)

unfoldable pub collect_lazy : ℕ → ℕ → (ℕ → ℕ → ℕ × ℕ) → ℕ → Build → Option (ℕ × Build)
unfolding listening in_place new_state
collect_lazy fuel initial f s b =
    let (st, b1) = new_state none initial b in in_place (listening fuel s (collect_to f st) b1)

-- `link_to` with an action that is never called
unfoldable pub link_null : ℕ → ℕ → ℕ → Build → Option ((ℕ × ℕ) × Build)
unfolding link_to
link_null fuel left right b = elim (link_to fuel left b.next_action right b.world.nodes) [
  | none ↦ none
  | some (changed, ref, nodes) ↦ some (
    (left, ref),
    record b {
      next_action = b.next_action + 1;
      world = record b.world {
        nodes = nodes;
        handlers = update b.world.handlers b.next_action call;
      };
    },
  )
]

-- Both listeners send on the result, of whose node `left` comes before.
unfoldable pub merge : ℕ → ℕ → ℕ → Build → Option (ℕ × Build)
unfolding new_stream new_node link_null listen_ add_cleanup
merge fuel s t b =
    let (out, b1) = new_stream b in
    let (left, b2) = new_node b1 in
    let right = (b2.world.streams out).node in
    elim (link_null fuel left right b2) [
      | none ↦ none
      | some (target_ref, b3) ↦ elim (listen_ fuel s left (merge_to left out) b3) [
        | none ↦ none
        | some (kill1, b4) ↦ elim (listen_ fuel t right (merge_to right out) b4) [
          | none ↦ none
          | some (kill2, b5) ↦ some (add_cleanup out (kill1 ∷ kill2 ∷ target_ref ∷ []) b5)
        ]
      ]
    ]

-- The constructor of `cell` with a stream; `null` is the node `node_t::null`.
unfoldable pub new_cell : ℕ → ℕ → ℕ → Option ℕ → Option ℕ → Build → Option (ℕ × Build)
unfolding listen_
new_cell fuel null s init_a lazy_init_value b =
    let c = b.next_cell in
    let r = b.next_receptacle in
    elim (listen_ fuel s null (hold_in c) b) [
      | none ↦ none
      | some (kill, b') ↦
          let w = b'.world in
          some (
            c,
            record b' {
              next_cell = c + 1;
              next_receptacle = r + 2;
              world = record w {
                cells = update w.cells c (record {
                  str = s;
                  value = r;
                  value_update = r + 1;
                  lazy_init_value = lazy_init_value;
                  cleanup = kill ∷ [];
                });
                receptacles = update (update w.receptacles r init_a) (r + 1) none;
              };
            },
          )
    ]

unfoldable pub hold : ℕ → ℕ → ℕ → ℕ → Build → Option (ℕ × Build)
unfolding new_cell
hold fuel null init_a s b = new_cell fuel null s (some init_a) none b

unfoldable pub hold_lazy : ℕ → ℕ → ℕ → ℕ → Build → Option (ℕ × Build)
unfolding new_cell
hold_lazy fuel null lazy_init_a s b = new_cell fuel null s none (some lazy_init_a) b

-- `cell::value` of a transaction
unfoldable pub value : ℕ → ℕ → Build → Option (ℕ × Build)
unfolding new_stream snapshot merge last_firing_only
value fuel c b =
    let (spark_stream, b1) = new_stream b in
    let asked = ask (b1.world.streams spark_stream).node (spark spark_stream) ∷ [] in
    elim (snapshot fuel c (λ a v. v) spark_stream (record b1 { asks = b1.asks ++ asked })) [
      | none ↦ none
      | some (initial, b2) ↦ elim (merge fuel initial (b2.world.cells c).str b2) [
        | none ↦ none
        | some (merged, b3) ↦ last_firing_only fuel merged b3
      ]
    ]
