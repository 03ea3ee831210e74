-- ===== src/Listening/Examples.antt =====
-- A listener on node 0, by holder 3.
use caesium_cxx.Base.{ℕ, ◌≡◌, refl, true, none, some, List, [], ◌∷◌, map, update}
use caesium_cxx.Network.{unlink_link}
use caesium_cxx.Wiring.Late.{one_node}
use caesium_cxx.Listening.{Listening, kill, call_all, finish_transaction}
use caesium_cxx.Listening.Once.{call_all-once}

abbrev linked : Listening ℕ
unfolding one_node
linked = record {
  net = record (one_node 7).net { targets = λ n. record { h = 3; n = 9 } ∷ [] };
  keepalive = λ h. true;
  posted = [];
}

call_all-once_example :
    ((t : Listening ℕ) × (finish_transaction (call_all 1 (0, 3) (5 ∷ []) linked) ≡ some t)
      × (t.net.heard ≡ (1, 5) ∷ [])
      × (t.net.targets ≡ update linked.net.targets 0 [])
      × (finish_transaction (kill (0, 3) t) ≡ none))
    × ((b : ℕ) (bs : List ℕ)
        → ((call_all 1 (0, 3) (5 ∷ b ∷ bs) linked).net.heard ≡ map (λ x. (1, x)) (5 ∷ b ∷ bs))
          × (finish_transaction (call_all 1 (0, 3) (5 ∷ b ∷ bs) linked) ≡ none))
unfolding one_node unlink_link
call_all-once_example = call_all-once 1 0 3 linked 5 refl refl
