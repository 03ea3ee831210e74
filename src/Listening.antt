-- ===== src/Listening.antt =====
-- `listen` and `listen_once` of sodium/sodium.h, and the function that takes a listener away,
-- which `unsafe_new_stream` of sodium/sodium.cpp makes. `none` is an access to memory that has
-- been freed.
pub mod Once
pub mod Examples
use caesium_cxx.Base.{ℕ, ◌+◌, Bool, true, false, Option, none, some, List, [], ◌∷◌, ◌++◌, update}
use caesium_cxx.Network.{listener_handler, unlink_link, Net}
use caesium_cxx.Wiring.{Stream, Cleanup, Build, listen_raw}

-- `h_keepalive`: whether that of a holder is allocated; and the actions of `kill`, with the node
-- and the holder that they have captured.
pub record Listening (V : Type 0) : Type 0 where
  pub net : Net V
  pub keepalive : ℕ → Bool
  pub posted : List (ℕ × ℕ)

module _ {V : Type 0} where
  -- `stream::listen`: the listener sits in a node of its own.
  unfoldable pub listen : ℕ → Stream → Build V → Option Cleanup × Build V
  unfolding listen_raw
  listen l s b =
      listen_raw s b.next_node (listener_handler l) false (record b { next_node = b.next_node + 1 })

  -- The function that `listen_impl` returns: it posts an action.
  unfoldable pub kill : ℕ × ℕ → Listening V → Listening V
  kill c s = record s { posted = s.posted ++ c ∷ [] }

  -- What the listener of `listen_once` does; its `lRef` unlinks its own link.
  unfoldable pub call_once : ℕ → ℕ × ℕ → V → Listening V → Listening V
  unfolding kill
  call_once l c a s =
      kill c (record s { net = record s.net { heard = s.net.heard ++ (l, a) ∷ [] } })

  unfoldable pub call_all : ℕ → ℕ × ℕ → List V → Listening V → Listening V
  unfolding call_once
  call_all l c [] s = s
  call_all l c (a ∷ as') s = call_all l c as' (call_once l c a s)

  -- The posted action reads `h_keepalive` and deletes it; the node is still there.
  unfoldable pub run_kill : ℕ × ℕ → Listening V → Option (Listening V)
  unfolding unlink_link
  run_kill (n, h) s = elim (s.keepalive h) [
    | false ↦ none
    | true ↦ some (record s {
      net = record s.net { targets = update s.net.targets n (unlink_link h (s.net.targets n)) };
      keepalive = update s.keepalive h false;
    })
  ]

  unfoldable pub run_kills : List (ℕ × ℕ) → Listening V → Option (Listening V)
  unfolding run_kill
  run_kills [] s = some s
  run_kills (c ∷ cs) s = elim (run_kill c s) [ none ↦ none | some t ↦ run_kills cs t ]

  -- The end of the transaction.
  unfoldable pub finish_transaction : Listening V → Option (Listening V)
  unfolding run_kills
  finish_transaction s = run_kills s.posted (record s { posted = [] })
