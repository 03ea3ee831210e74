-- ===== src/Wiring/Collecting.antt =====
-- `collect_lazy` of a cell, in sodium/sodium.h, up to the `hold_lazy` of its result. The two lazy
-- values are computed when it is built: they are computed from a value that the cell keeps until
-- the first update has reached the handler.
use caesium_cxx.Base.{ℕ, ◌+◌, ◌≡◌, refl, false, Option, none, some, List, [], ◌∷◌, update}
use caesium_cxx.Network.{collect_handler, Link, Net, sample, send, drain}
use caesium_cxx.Wiring.{
  Stream, Cell, Build, unsafe_new_stream, listen_raw, unsafe_add_cleanup, coalesce_, hold,
}
use caesium_cxx.Wiring.Late.{one_node, send_to, listen_to}

-- What it builds: the stream `ea`, the updates and the first value of the result, and the number of
-- its state.
pub record Collected (V : Type 0) : Type 0 where
  pub ea : Stream
  pub updates : Stream
  pub first : V
  pub state : ℕ

module _ {V : Type 0} where
  unfoldable pub collect_cell : V → (V → V → V × V) → Cell → Build V → Collected V × Build V
  unfolding unsafe_new_stream listen_raw unsafe_add_cleanup coalesce_
  collect_cell init f cell b =
      let (ea, b₁) = coalesce_ (λ x y. y) cell.updates b in
      let zbs = f (sample (b₁.net.cells cell.state)) init in
      let st = b₁.next_state in
      let (n, b₂) = unsafe_new_stream (record b₁ {
        net = record b₁.net { states = update b₁.net.states st zbs.1 };
        next_state = st + 1;
      }) in
      let (kill, b₃) = listen_raw cell.updates n (collect_handler st f) false b₂ in
      (
        record { ea = ea; updates = some n; first = zbs.0; state = st },
        unsafe_add_cleanup n kill b₃,
      )

  -- A cell that holds what node 0 fires, with `v` at first; a listener on what is collected from
  -- it; and two firings of node 0 in one transaction.
  abbrev pub collecting : V → V → (V → V → V × V) → V → V → Collected V × Build V
  collecting v init f a b =
      let (cell, b₁) = hold v (some 0) (one_node v) in
      let (c, b₂) = collect_cell init f cell b₁ in
      (c, send_to v 0 b (send_to v 0 a (listen_to v c.updates b₂)))

  -- What the listeners have heard, a state, and the links of a stream.
  abbrev pub outcome : ℕ → Stream → Option (Net V) → Option (List (ℕ × V) × V × List Link)
  outcome st s none = none
  outcome st none (some t) = none
  outcome st (some n) (some t) = some (t.heard, t.states st, t.targets n)

  -- When a cell is updated twice in a transaction, `collect` of it steps at both updates, and its
  -- result fires twice: the stream `ea`, which combines the updates into the last of them, is built
  -- but has no listener. The first value of the result comes from the value of the cell before.
  collect_cell-steps_twice :
      (v init a b : V) (f : V → V → V × V) (call : V → V → V)
      → let (c, m) = collecting v init f a b in
        let next = λ (x : V). (f x (f v init).1) in
        (outcome c.state c.ea (drain call 20 m.net)
          ≡ some ((0, (next a).0) ∷ (0, (f b (next a).1).0) ∷ [], (f b (next a).1).1, []))
        × (c.first ≡ (f v init).0)
  unfolding drain collect_cell hold one_node listen_raw coalesce_ send
  collect_cell-steps_twice v init a b f call = (refl, refl)
