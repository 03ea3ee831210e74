-- ===== src/Network/Examples.antt =====
-- A source (node 0) that is held by a cell (node 1) and snapshot with it (node 2), coalesced
-- (node 3) and listened to.
use caesium_cxx.Base.{
  ℕ, zero, suc, ◌+◌, ◌-◌, ◌≡◌, refl, inl, false, none, some, List, [], ◌∷◌, arith,
}
use caesium_cxx.Network.{
  apply_entry, send_entry, Handler, snapshot_handler, coalesce_handler, hold_handler,
  listener_handler, Link, Net, new_value, sample, send, drain, close,
}
use caesium_cxx.Network.Applying.{
  of_f, of_a, last_f, last_a, feed_batches, results, queued, feed_batches-fires,
}
use caesium_cxx.Network.Glitch.{fresh, self_links, merge_glitches}
use caesium_cxx.Network.Delay.{drain-samples}
use caesium_cxx.Network.Handle.{Inv, send-Inv}
use caesium_cxx.Network.Finish.{close-finishes}
use caesium_cxx.Network.Owed.{clears, finals, coalescers, appliers}
use caesium_cxx.Network.Spends.{Bounded, queue_cost, links_cost}
use caesium_cxx.Network.Termination.{drain-terminates}

add : ℕ → ℕ → ℕ
add x y = x + y

minus : ℕ → ℕ → ℕ
minus x y = x - y

unfoldable holders : ℕ → Handler ℕ
unfolding add
holders zero = hold_handler 0
holders (suc zero) = snapshot_handler 0 add
holders (suc (suc zero)) = coalesce_handler 0 add
holders (suc (suc (suc n))) = listener_handler 0

unfoldable links : ℕ → List Link
links zero = record { h = 0; n = 1 } ∷ record { h = 1; n = 2 } ∷ []
links (suc zero) = []
links (suc (suc zero)) = record { h = 2; n = 3 } ∷ []
links (suc (suc (suc zero))) = record { h = 3; n = 4 } ∷ []
links (suc (suc (suc (suc n)))) = []

unfoldable costs : ℕ → ℕ
costs zero = 5
costs (suc zero) = 0
costs (suc (suc zero)) = 3
costs (suc (suc (suc zero))) = 1
costs (suc (suc (suc (suc n)))) = 0

abbrev idle : Net ℕ
idle = record {
  handlers = holders;
  targets = links;
  firings = λ n. [];
  coalesced = λ st. none;
  cells = λ c. record { current = 10; update = none };
  states = λ st. 0;
  applies = λ st. record { fired = false; f = none; a = none };
  kills = λ k. none;
  queue = [];
  posts = [];
  in_callback = 0;
  heard = [];
}

idle-Inv : Inv idle
unfolding clears finals coalescers appliers
idle-Inv = record {
  cleared = λ n. inl refl;
  finalized = λ c. refl;
  sent = λ st. refl;
  applied = λ st. refl;
  ready = λ st e. absurd (ground (arith, e));
}

abbrev sent : Net ℕ
sent = send 0 5 idle

links-Bounded : Bounded costs sent
unfolding links costs send links_cost holders
links-Bounded zero = omega arith
links-Bounded (suc zero) = omega arith
links-Bounded (suc (suc zero)) = omega arith
links-Bounded (suc (suc (suc zero))) = omega arith
links-Bounded (suc (suc (suc (suc n)))) = omega arith

drain-terminates_example : (t : Net ℕ) × (drain add 6 sent ≡ some t)
unfolding queue_cost send holders links costs
drain-terminates_example =
    drain-terminates add costs 6 sent (send-Inv 0 5 idle idle-Inv) links-Bounded (omega arith)

abbrev settled : Net ℕ
settled = elim (drain add 6 sent) [ none ↦ idle | some t ↦ t ]

drain-sent : drain add 6 sent ≡ some settled
unfolding drain send holders links add
drain-sent = refl

-- The snapshot has read the old value of the cell.
heard_lem : settled.heard ≡ (0, 15) ∷ []
unfolding drain send holders links add
heard_lem = refl

drain-samples_example : sample (settled.cells 0) ≡ 10
unfolding send
drain-samples_example = drain-samples add 6 sent settled drain-sent 0

close-finishes_example :
    (u : Net ℕ) × (close add 6 sent ≡ some u)
    × ((n : ℕ) → u.firings n ≡ [])
    × ((c : ℕ) → u.cells c ≡ record { current = new_value (settled.cells c); update = none })
    × (u.queue ≡ [])
    × (u.posts ≡ [])
    × ((st : ℕ) → u.coalesced st ≡ none)
    × ((st : ℕ) → (u.applies st).fired ≡ false)
close-finishes_example = close-finishes add 6 sent settled (send-Inv 0 5 idle idle-Inv) drain-sent

merge_glitches_example :
    (t : Net ℕ) × (drain add 10 (send 0 1 (fresh add (λ n. n + n) 0 self_links)) ≡ some t)
    × (t.heard ≡ (0, 1) ∷ (0, 2) ∷ [])
    × (t.firings 4 ≡ 2 ∷ 1 ∷ [])
merge_glitches_example = merge_glitches add (λ n. n + n) add 0 1

-- A function 2 and an argument 3, and a listener of the result.
abbrev ready : Net ℕ
ready = record idle {
  applies = λ st. record { fired = false; f = some 2; a = some 3 };
  targets = λ n. record { h = 9; n = 4 } ∷ [];
}

feed_batches-fires_example :
    (t : Net ℕ) × (feed_batches 3 0 1 add ((of_f 4, of_a 6 ∷ of_f 5 ∷ []) ∷ (of_a 1, []) ∷ []) ready
      ≡ some t)
    × (t.firings 3 ≡ 6 ∷ 11 ∷ [])
    × (t.queue
        ≡ apply_entry 3 0
          ∷ send_entry (record { h = 9; n = 4 }) 11
          ∷ apply_entry 3 0
          ∷ send_entry (record { h = 9; n = 4 }) 6
          ∷ [])
    × ((t.applies 0).fired ≡ false)
unfolding last_f last_a add results queued
feed_batches-fires_example =
    feed_batches-fires 3 0 1 add ((of_f 4, of_a 6 ∷ of_f 5 ∷ []) ∷ (of_a 1, []) ∷ []) ready 2 3 refl
