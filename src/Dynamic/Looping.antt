-- ===== src/Dynamic/Looping.antt =====
-- `stream_loop` and `cell_loop` of sodium/sodium.h: streams and cells that are used before they are
-- there. `none` as a result is the exception that is thrown.
use caesium_cxx.Base.{
  ℕ, ◌+◌, ◌-◌, ◌≡◌, refl, ap, ◌∙◌, Bool, true, false, Option, none, some, [], ◌∷◌, ◌++◌, arith,
}
use caesium_cxx.Network.{forward, Link, send_entry, unlink, Net, handle, send, Post, post, process}
use caesium_cxx.Wiring.{Stream, Cell, Cleanup, unlinks, Build, unsafe_new_stream, listen_raw}
use caesium_cxx.Wiring.Unlinking.{update_at}
use caesium_cxx.LazyCell.{loop_sample}

-- `stream_loop<A>::info`; `kill` is `none` where `*pKill` does nothing or is null.
pub record Info : Type 0 where
  pub target : ℕ
  pub kill : Option Cleanup
  pub looped : Bool

-- `cell_loop`: its stream loop, and `*pLooped`.
pub record CellLoop : Type 0 where
  pub elp : Info
  pub looped_to : Option Cell

module _ {V : Type 0} where
  unfoldable pub stream_loop : Build V → Info × Build V
  unfolding unsafe_new_stream
  stream_loop b =
      let (n, b') = unsafe_new_stream b in (record { target = n; kill = none; looped = false }, b')

  -- `stream_loop::loop`
  unfoldable pub loop : Stream → Info → Build V → Option (Info × Build V)
  unfolding listen_raw
  loop e i b = elim i.looped [
    | true ↦ none
    | false ↦
        let (kill, b') = listen_raw e i.target forward false b in
        some (record i { kill = kill; looped = true }, b')
  ]

  -- What the clean-up of a stream loop posts.
  unfoldable pub loop_cleanup : Info → Net V → Net V
  loop_cleanup i s = elim i.kill [
    | some (unlinks n h) ↦ record s { posts = s.posts ++ unlink n h ∷ [] }
    | _ ↦ s
  ]

  unfoldable pub cell_loop : Build V → CellLoop × Build V
  unfolding stream_loop
  cell_loop b = let (i, b') = stream_loop b in (record { elp = i; looped_to = none }, b')

  -- `cell_loop::loop`
  unfoldable pub loop_cell : Cell → CellLoop → Build V → Option (CellLoop × Build V)
  unfolding loop
  loop_cell c l b = elim (loop c.updates l.elp b) [
    | none ↦ none
    | some (i, b') ↦ some (record { elp = i; looped_to = some c }, b')
  ]

  -- The value of a looped cell, given how a cell is sampled.
  unfoldable pub sample_loop : (Cell → Option V) → CellLoop → Option V
  unfolding loop_sample
  sample_loop sample l = loop_sample sample l.looped_to

  forwards :
      (call : V → V → V) (l : Link) (a : V) (s : Net V)
      → s.handlers l.h ≡ forward
      → process call (send_entry l a) s ≡ some (send l.n a s)
  unfolding process handle send
  forwards call l a s e =
      let s₁ : Net V = record s { in_callback = s.in_callback + 1 } in
      ap
        (λ h.
          some (record (handle h l.n a s₁) { in_callback = (handle h l.n a s₁).in_callback - 1 }))
        e
      ∙ ap (λ k. some (record (send l.n a s) { in_callback = k })) (omega arith)

  -- A cell loop that has just been made has no value. Once it is looped to a cell with the
  -- updates of node `n`, which has not fired in this transaction, it has the value of that
  -- cell, and each firing of `n` is sent on by its own node. Its clean-up posts one action and does
  -- nothing else, and that action takes the link away again. To loop it once more throws.
  pub loop_cell-loops :
      (b b₁ : Build V) (c n : ℕ) (sample : Cell → Option V) (call : V → V → V)
      → b₁.net.firings n ≡ []
      → let l = (cell_loop b).0 in
        let cell : Cell = record { state = c; updates = some n } in
        let link : Link = record { h = b₁.next_holder; n = b.next_node } in
        (sample_loop sample l ≡ none)
        × (l' : CellLoop) × (b' : Build V) × (loop_cell cell l b₁ ≡ some (l', b'))
        × (sample_loop sample l' ≡ sample cell)
        × (b'.net.targets n ≡ link ∷ b₁.net.targets n)
        × ((a : V) → process call (send_entry link a) b'.net ≡ some (send b.next_node a b'.net))
        × (b'.net.queue ≡ b₁.net.queue)
        × ((p : Post) × (t : Net V) × (loop_cleanup l'.elp b'.net
              ≡ record b'.net { posts = b'.net.posts ++ p ∷ [] })
            × (post p b'.net ≡ some t)
            × ((m : ℕ) → t.targets m ≡ b₁.net.targets m))
        × ((c' : Cell) (b₂ : Build V) → loop_cell c' l' b₂ ≡ none)
  unfolding loop_cell cell_loop sample_loop loop_cleanup listen_raw process post send
  loop_cell-loops b b₁ c n sample call f = (
    refl,
    _,
    _,
    refl,
    refl,
    ground arith,
    λ a.
        forwards call (record { h = b₁.next_holder; n = b.next_node }) a _
          (update_at b₁.net.handlers b₁.next_holder forward),
    rw f refl,
    (unlink n b₁.next_holder, _, refl, refl, λ m. ground arith),
    λ c' b₂. refl,
  )
