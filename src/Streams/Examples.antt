-- ===== src/Streams/Examples.antt =====
-- A stream that is merged with a function of itself, and a cell.
use caesium_cxx.Base.{
  ℕ, zero, suc, ◌+◌, ◌^◌, ◌≤◌, ◌≡◌, refl, ap, Bool, true, false, Option, none, some, List, [], ◌∷◌,
  arith,
}
use caesium_cxx.Prioritized.{Transaction, before, request, run_entries, close}
use caesium_cxx.Prioritized.Order.{ranked, rises, has, all_after}
use caesium_cxx.Prioritized.Closing.{levels, numbered, queued}
use caesium_cxx.Prioritized.Nodes.{Listener, Nodes}
use caesium_cxx.Streams.{
  Handler, map_to, merge_to, coalesce_to, call, Act, World, send, set_firings, run,
}
use caesium_cxx.Streams.Sending.{rank_now, Rising, above, burden, sends-ranked}

-- Stream 0 is mapped to 1; 0 and 1 are merged in 3, by way of the node 2, and coalesced in 4, which
-- a listener hears. The node 5 is the one of listeners that send on nothing.
abbrev pick {ℓ} : {A : Type ℓ} → List A → A → ℕ → A
pick [] d n = d
pick (x ∷ xs) d zero = x
pick (x ∷ xs) d (suc n) = pick xs d n

abbrev diamond_rank : ℕ → ℕ
diamond_rank = pick (0 ∷ 1 ∷ 1 ∷ 2 ∷ 3 ∷ []) (2 ^ 31)

abbrev diamond_handlers : ℕ → Handler
diamond_handlers =
    pick (map_to (λ a. a + 1) 1 ∷ merge_to 2 3 ∷ merge_to 3 3 ∷ coalesce_to (λ a b. a + b) 0 4 ∷ [])
      call

abbrev at_node : ℕ → ℕ → Listener
at_node k n = record { action = k; node = n; target_ref = k }

abbrev diamond_listeners : ℕ → List Listener
diamond_listeners =
    pick
      ((at_node 0 1 ∷ at_node 1 2 ∷ [])
        ∷ (at_node 2 3 ∷ [])
        ∷ (at_node 2 3 ∷ [])
        ∷ (at_node 3 4 ∷ [])
        ∷ (at_node 4 5 ∷ [])
        ∷ [])
      []

abbrev diamond_weight : ℕ → ℕ
diamond_weight = pick (18 ∷ 8 ∷ 8 ∷ 6 ∷ 2 ∷ []) 0

abbrev diamond : Nodes
diamond = record {
  rank = diamond_rank;
  listeners = diamond_listeners;
  has_node = λ n. true;
  next_target_ref = 5;
}

-- No stream has fired; the cell 0 holds 7 in receptacle 0, and has 1 for updates.
abbrev quiet : World
quiet = record {
  nodes = diamond;
  handlers = diamond_handlers;
  streams = λ s. record { finalizers = []; node = s; firings = [] };
  p_state = λ st. none;
  s_lazy = λ st. 0;
  cells =
      λ c. record { str = 9; value = 0; value_update = 1; lazy_init_value = none; cleanup = [] };
  receptacles = pick (some 7 ∷ []) none;
  heard = [];
  failed = false;
}

abbrev opened : Transaction World Act
opened = record {
  active = true;
  to_regen = false;
  prioritized_q = [];
  last_q = [];
  post_q = [];
  next_seq = 0;
  world = quiet;
  taken = [];
  finished = [];
}

-- A transaction in which 5 was sent on stream 0.
sent : Transaction World Act
sent = request rank_now (send 0 5 quiet).1 (record opened { world = (send 0 5 quiet).0 })

abbrev ends : Option (Transaction World Act) → Option (List ℕ × (List ℕ) × Bool)
ends none = none
ends (some t) = some (t.world.heard, (t.world.streams 4).firings, t.world.failed)

-- The listener hears the sum of both values, once.
diamond_once : ends (close rank_now run 20 sent) ≡ some (11 ∷ [], [], false)
unfolding sent close send request run
diamond_once = refl

abbrev merged_at : Handler → ℕ
merged_at (merge_to at out) = at
merged_at _ = 0

abbrev merged_out : Handler → ℕ
merged_out (merge_to at out) = out
merged_out _ = 0

diamond-Rising : Rising diamond diamond_handlers (λ s. s) 5 diamond_weight
unfolding above burden
diamond-Rising = record { links = links; merges = merges; loads = loads }
  where
    links :
        (s : ℕ)
        → above diamond diamond_handlers
            (λ s. s)
            5
            diamond_weight
            (diamond_rank s)
            (diamond_listeners s)
          ≡ true
    links zero = refl
    links (suc zero) = refl
    links (suc (suc zero)) = refl
    links (suc (suc (suc zero))) = refl
    links (suc (suc (suc (suc zero)))) = refl
    links (suc (suc (suc (suc (suc s))))) = refl

    merges :
        (k at out : ℕ) → diamond_handlers k ≡ merge_to at out → diamond_rank at ≤ diamond_rank out
    merges zero at out e = cc
    merges (suc zero) at out e =
        let a : 2 ≡ at = ap merged_at e in
        let b : 3 ≡ out = ap merged_out e in rw (← a, ← b) (omega arith)
    merges (suc (suc zero)) at out e =
        let a : 3 ≡ at = ap merged_at e in
        let b : 3 ≡ out = ap merged_out e in rw (← a, ← b) (omega arith)
    merges (suc (suc (suc zero))) at out e = cc
    merges (suc (suc (suc (suc k)))) at out e = cc

    loads :
        (s : ℕ)
        → burden diamond diamond_handlers (λ s. s) 5 diamond_weight (diamond_listeners s)
          ≤ diamond_weight s
    loads zero = omega arith
    loads (suc zero) = omega arith
    loads (suc (suc zero)) = omega arith
    loads (suc (suc (suc zero))) = omega arith
    loads (suc (suc (suc (suc zero)))) = omega arith
    loads (suc (suc (suc (suc (suc s))))) = omega arith

sends-ranked_example :
    (t' : Transaction World Act) × (run_entries rank_now run 60 sent ≡ some t')
    × (t'.prioritized_q ≡ [])
    × ((s : ℕ) → has s sent.prioritized_q ≡ true → has s t'.taken ≡ true)
    × (ranked t'.taken ≡ true)
unfolding sent send set_firings request rises all_after levels numbered queued before
sends-ranked_example =
    sends-ranked diamond diamond_handlers (λ s. s) 5 diamond_weight 60 sent diamond-Rising
      (record { same_nodes = refl; same_handlers = refl; same_streams = λ s. ground arith })
      (record { rising = refl; level_ranks = refl; calm = refl; numbers = refl }) refl (omega arith)
      (omega arith)
