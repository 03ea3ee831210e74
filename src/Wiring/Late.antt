-- ===== src/Wiring/Late.antt =====
-- Listening in the middle of a transaction, in the smallest network that shows it.
use caesium_cxx.Base.{ℕ, ◌≡◌, refl, false, Option, none, some, List, [], ◌∷◌}
use caesium_cxx.Network.{forward, listener_handler, Net, new_value, send, drain}
use caesium_cxx.Wiring.{Build, Cell, listen_raw, hold, value_}

module _ {V : Type 0} (v : V) where
  -- Nothing but node 0, which has its stream.
  unfoldable pub one_node : Build V
  one_node = record {
    net = record {
      handlers = λ h. forward;
      targets = λ n. [];
      firings = λ n. [];
      coalesced = λ st. none;
      cells = λ c. record { current = v; update = none };
      states = λ st. v;
      applies = λ st. record { fired = false; f = none; a = none };
      kills = λ k. none;
      queue = [];
      posts = [];
      in_callback = 0;
      heard = [];
    };
    next_node = 1;
    next_holder = 0;
    next_state = 0;
    next_cell = 0;
    next_slot = 0;
    cleanups = λ n. [];
    cell_kills = λ c. none;
  }

  abbrev pub send_to : ℕ → V → Build V → Build V
  send_to n a b = record b { net = send n a b.net }

  abbrev pub listen_to : Option ℕ → Build V → Build V
  listen_to s b = (listen_raw s 99 (listener_handler 0) false b).1

  -- A listener that is linked before a stream fires `a` and then `b` in one transaction hears
  -- them in that order; one that is linked after them hears both, but `b` first.
  late_listener-reversed :
      (call : V → V → V) (a b : V)
      → ((t : Net V) × (drain call 3 (send_to 0 b (send_to 0 a (listen_to (some 0) one_node))).net
            ≡ some t)
          × (t.heard ≡ (0, a) ∷ (0, b) ∷ []))
        × ((t : Net V) × (drain call 3 (listen_to (some 0) (send_to 0 b (send_to 0 a one_node))).net
              ≡ some t)
            × (t.heard ≡ (0, b) ∷ (0, a) ∷ []))
  unfolding drain send listen_raw one_node
  late_listener-reversed call a b = ((_, refl, refl), (_, refl, refl))

  -- What the listeners have heard, and the new value of cell 0.
  abbrev pub seen : Option (Net V) → Option (List (ℕ × V) × V)
  seen none = none
  seen (some t) = some (t.heard, new_value (t.cells 0))

  abbrev pub watch : V → Cell × Build V → Build V
  watch unit (cell, b) = let (s, b') = value_ unit cell b in listen_to s b'

  abbrev pub send_after : V → Cell × Build V → Cell × Build V
  send_after a (cell, b) = (cell, send_to 0 a b)

  -- The value of a cell that holds the firings of node 0, with `v` at first, when it is asked for
  -- and listened to in a transaction: the listener hears one value, `v`; and where node 0 has
  -- fired `a` before in that transaction it still hears `v` only, while the cell has the update
  -- `a`.
  value_-stale :
      (call : V → V → V) (unit a : V)
      → (seen (drain call 20 (watch unit (hold v (some 0) one_node)).net) ≡ some ((0, v) ∷ [], v))
        × (seen (drain call 20 (watch unit (send_after a (hold v (some 0) one_node))).net)
            ≡ some ((0, v) ∷ [], a))
  unfolding drain send listen_raw one_node hold value_
  value_-stale call unit a = (refl, refl)
