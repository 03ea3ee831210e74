-- ===== src/Streams.antt =====
-- The streams and cells of experimental/sodium/sodium.h, as what the actions of a transaction of
-- `Prioritized` do. Streams, cells and states are named by numbers, a stream by that of its node,
-- and values are numbers. A `magic_ref` is the number of its receptacle.
pub mod Operators
pub mod Sending
pub mod Cells
pub mod Examples
pub mod Networks
use caesium_cxx.Base.{
  ℕ, zero, suc, ◌+◌, Bool, true, false, Option, none, some, List, [], ◌∷◌, ◌++◌, if◌then◌else◌,
  update,
}
use caesium_cxx.Prioritized.{Request, ask, ask_last, ask_regen}
use caesium_cxx.Prioritized.Nodes.{Listener, Nodes, link_to}

-- The functions that listeners are made of, each with the stream that it sends on;
-- that of `merge` has the node that it listens at before it.
pub data Handler : Type 0 where
  map_to : (ℕ → ℕ) → ℕ → Handler
  merge_to : ℕ → ℕ → Handler
  filter_to : (ℕ → Bool) → ℕ → Handler
  filter_optional_to : (ℕ → Option ℕ) → ℕ → Handler
  coalesce_to : (ℕ → ℕ → ℕ) → ℕ → ℕ → Handler
  snapshot_to : (ℕ → ℕ → ℕ) → ℕ → ℕ → Handler
  accum_to : (ℕ → ℕ → ℕ) → ℕ → ℕ → Handler
  collect_to : (ℕ → ℕ → ℕ × ℕ) → ℕ → ℕ → Handler
  hold_in : ℕ → Handler
  call : Handler

-- What is queued: the action of a listener with a value, or with the earlier firings of its
-- stream; a value that was coalesced; and what `last` is given.
pub data Act : Type 0 where
  fire : ℕ → ℕ → Act
  fire_all : ℕ → List ℕ → Act
  send_coalesced : ℕ → ℕ → Act
  spark : ℕ → Act
  clear_firings : ℕ → Act
  finalize : ℕ → Act

-- `cell_impl`; `value` and `value_update` are receptacles, and `lazy_init_value` holds the initial
-- value of a cell that has one that is lazy.
pub record CellImpl : Type 0 where
  pub str : ℕ
  pub value : ℕ
  pub value_update : ℕ
  pub lazy_init_value : Option ℕ
  pub cleanup : List (ℕ × ℕ)

-- `stream_impl`; a finalizer lists what it unlinks, each by the node and the reference.
pub record StreamImpl : Type 0 where
  pub finalizers : List (List (ℕ × ℕ))
  pub node : ℕ
  pub firings : List ℕ

-- `handlers` gives the function of each action, `p_state` and `s_lazy` the states of `coalesce` and
-- of `collect`, `receptacles` the values of the receptacles, `heard` what listeners were called
-- with, the last one first. `failed` says that a value was read that is not there.
pub record World : Type 0 where
  pub nodes : Nodes
  pub handlers : ℕ → Handler
  pub streams : ℕ → StreamImpl
  pub p_state : ℕ → Option ℕ
  pub s_lazy : ℕ → ℕ
  pub cells : ℕ → CellImpl
  pub receptacles : ℕ → Option ℕ
  pub heard : List ℕ
  pub failed : Bool

abbrev pub Asks : Type 0
Asks = World × List (Request Act)

unfoldable pub set_firings : ℕ → List ℕ → World → World
set_firings s values w = record w {
  streams = update w.streams s (record (w.streams s) { firings = values });
}

-- `prioritized` for each of the listeners
unfoldable pub ask_each : List Listener → ℕ → List (Request Act)
ask_each [] a = []
ask_each (t ∷ ts) a = ask t.node (fire t.action a) ∷ ask_each ts a

-- `last`, unless the stream has fired
unfoldable pub ask_clear : ℕ → List ℕ → List (Request Act)
ask_clear s [] = ask_last (clear_firings s) ∷ []
ask_clear s (_ ∷ _) = []

-- `stream_with_send::send`
unfoldable pub send : ℕ → ℕ → World → Asks
unfolding ask_each ask_clear set_firings
send s a w =
    let i = w.streams s in
    (
      set_firings s (a ∷ i.firings) w,
      ask_clear s i.firings ++ ask_each (w.nodes.listeners i.node) a,
    )

-- `cell_impl::sample`; `none` where it calls a function that is not there.
unfoldable pub sample : ℕ → World → Option ℕ
sample c w = elim (w.receptacles (w.cells c).value) [
  | some a ↦ some a
  | none ↦ (w.cells c).lazy_init_value
]

-- The listener of a cell: the first update of a transaction asks for `finalize`.
unfoldable pub hold_update : ℕ → ℕ → World → Asks
hold_update c a w =
    let r = (w.cells c).value_update in
    (
      record w { receptacles = update w.receptacles r (some a) },
      elim (w.receptacles r) [ none ↦ ask_last (finalize c) ∷ [] | some _ ↦ [] ],
    )

-- `value = value_update` makes one refer to the receptacle of the other; then that is reset.
unfoldable pub finalize_cell : ℕ → World → World
finalize_cell c w =
    let r = (w.cells c).value_update in
    record w {
      cells = update w.cells c (record (w.cells c) { value = r; lazy_init_value = none });
      receptacles = update w.receptacles r none;
    }

-- The functions that the operators give to `listen`.
unfoldable pub map_fires : (ℕ → ℕ) → ℕ → ℕ → World → Asks
unfolding send
map_fires f out a w = send out (f a) w

unfoldable pub merge_fires : ℕ → ℕ → World → Asks
unfolding send
merge_fires out a w = send out a w

unfoldable pub coalesce_fires : (ℕ → ℕ → ℕ) → ℕ → ℕ → ℕ → World → Asks
coalesce_fires f st out a w = elim (w.p_state st) [
  | some b ↦ (record w { p_state = update w.p_state st (some (f b a)) }, [])
  | none ↦ (
    record w { p_state = update w.p_state st (some a) },
    ask (w.streams out).node (send_coalesced st out) ∷ [],
  )
]

unfoldable pub filter_fires : (ℕ → Bool) → ℕ → ℕ → World → Asks
unfolding send
filter_fires p out a w = if p a then send out a w else (w, [])

unfoldable pub filter_optional_fires : (ℕ → Option ℕ) → ℕ → ℕ → World → Asks
unfolding send
filter_optional_fires f out a w = elim (f a) [ none ↦ (w, []) | some b ↦ send out b w ]

unfoldable pub snapshot_fires : (ℕ → ℕ → ℕ) → ℕ → ℕ → ℕ → World → Asks
unfolding send sample
snapshot_fires f c out a w = elim (sample c w) [
  | none ↦ (record w { failed = true }, [])
  | some b ↦ send out (f a b) w
]

unfoldable pub accum_fires : (ℕ → ℕ → ℕ) → ℕ → ℕ → ℕ → World → Asks
unfolding send
accum_fires f st out a w =
    let b = f a (w.s_lazy st) in send out b (record w { s_lazy = update w.s_lazy st b })

unfoldable pub collect_fires : (ℕ → ℕ → ℕ × ℕ) → ℕ → ℕ → ℕ → World → Asks
unfolding send
collect_fires f st out a w =
    let (b, s) = f a (w.s_lazy st) in send out b (record w { s_lazy = update w.s_lazy st s })

-- The call of the function of an action with a value.
unfoldable pub handle : Handler → ℕ → World → Asks
unfolding map_fires merge_fires coalesce_fires filter_fires filter_optional_fires snapshot_fires
    accum_fires collect_fires hold_update
handle (map_to f out) = map_fires f out
handle (merge_to at out) = merge_fires out
handle (filter_to p out) = filter_fires p out
handle (filter_optional_to f out) = filter_optional_fires f out
handle (coalesce_to f st out) = coalesce_fires f st out
handle (snapshot_to f c out) = snapshot_fires f c out
handle (accum_to f st out) = accum_fires f st out
handle (collect_to f st out) = collect_fires f st out
handle (hold_in c) = hold_update c
handle call = λ a w. (record w { heard = a ∷ w.heard }, [])

-- The loop over earlier firings.
unfoldable pub handle_all : Handler → List ℕ → World → Asks
unfolding handle
handle_all h [] w = (w, [])
handle_all h (a ∷ rest) w =
    let (w', rs) = handle h a w in let (w'', rs') = handle_all h rest w' in (w'', rs ++ rs')

unfoldable pub run : Act → World → Asks
unfolding handle handle_all send set_firings finalize_cell
run (fire k a) w = handle (w.handlers k) a w
run (fire_all k values) w = handle_all (w.handlers k) values w
run (send_coalesced st out) w = elim (w.p_state st) [
  | none ↦ (record w { failed = true }, [])
  | some a ↦ let (w', rs) = send out a w in (record w' { p_state = update w'.p_state st none }, rs)
]
run (spark s) w = send s 0 w
run (clear_firings s) w = (set_firings s [] w, [])
run (finalize c) w = (finalize_cell c w, [])

-- `reverse order` of the copy that `listen` makes
oldest_first : List ℕ → List ℕ → List ℕ
oldest_first [] done = done
oldest_first (a ∷ rest) done = oldest_first rest (a ∷ done)

-- `stream::listen`, with the number `k` for the action: what is asked, and the new `target_ref`.
unfoldable pub listen : ℕ → ℕ → ℕ → ℕ → Handler → Bool → World → Option (ℕ × Asks)
unfolding link_to oldest_first
listen fuel s target k h suppress_earlier_firings w =
    elim (link_to fuel (w.streams s).node k target w.nodes) [
      | none ↦ none
      | some (changed, ref, nodes) ↦
          let earlier : List (Request Act) = elim suppress_earlier_firings [
            | true ↦ []
            | false ↦ elim (w.streams s).firings [
              | [] ↦ []
              | a ∷ rest ↦ ask target (fire_all k (oldest_first (a ∷ rest) [])) ∷ []
            ]
          ] in
          some (
            ref,
            (
              record w { nodes = nodes; handlers = update w.handlers k h },
              (if changed then ask_regen ∷ [] else []) ++ earlier,
            ),
          )
    ]
