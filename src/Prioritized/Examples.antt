-- ===== src/Prioritized/Examples.antt =====
-- Queues, lists of actions and links on small inputs.
use caesium_cxx.Base.{
  ℕ, zero, suc, ◌+◌, ◌≤◌, ◌<◌, ◌≡◌, refl, Bool, true, false, Option, none, some, List, [], ◌∷◌,
  arith, ◌==◌, if◌then◌else◌, length,
}
use caesium_cxx.Node.Raise.{leads_to}
use caesium_cxx.Prioritized.{
  Entry, Request, ask, ask_last, ask_post, Transaction, run_entries, check_regen, close,
}
use caesium_cxx.Prioritized.Order.{ranked, rises, has, all_after}
use caesium_cxx.Prioritized.Closing.{
  levels, numbered, queued, Climbs, Ordered, asked, climbs, run_entries-falls,
}
use caesium_cxx.Prioritized.Regen.{distinct, current, check_regen-sorts}
use caesium_cxx.Prioritized.Nodes.{Nodes, link_to, unlink_to}
use caesium_cxx.Prioritized.Current.{
  Current, lock_first, get_current_transaction_impl, done, scope, run_scopes, destroy_impl,
  outermost,
}
use caesium_cxx.Prioritized.Opening.{run_scopes-opens}
use caesium_cxx.Prioritized.Linking.{as_targets, link_to-unlink_to}

-- The node of an action is its number, and so is the rank of a node.
abbrev rank_is_number : ℕ → ℕ → ℕ
rank_is_number w n = n

-- Action 0 asks for entries of the nodes 2 and 1, action 1 for one of the node 2.
abbrev cascade : ℕ → ℕ → ℕ × List (Request ℕ)
cascade zero w = (w, ask 2 2 ∷ ask 1 1 ∷ ask_last 7 ∷ [])
cascade (suc zero) w = (w + 1, ask 2 2 ∷ ask_post 8 ∷ [])
cascade (suc (suc a)) w = (w, [])

abbrev cascade_work : ℕ → ℕ
cascade_work zero = 7
cascade_work (suc zero) = 3
cascade_work (suc (suc a)) = 1

abbrev number : ℕ → ℕ
number a = a

abbrev one_queued : Transaction ℕ ℕ
one_queued = record {
  active = true;
  to_regen = false;
  prioritized_q = record { rank = 0; node = 0; action = 0; seq = 1 } ∷ [];
  last_q = [];
  post_q = [];
  next_seq = 1;
  world = 0;
  taken = [];
  finished = [];
}

abbrev Any : ℕ → Type 0
Any w = w ≡ w

cascade-Climbs : Climbs rank_is_number number cascade_work cascade Any
unfolding climbs asked
cascade-Climbs = record {
  keeps = λ a w h. refl;
  up = λ a w h. rising a w;
  less = λ a w h. lessening a w;
}
  where
    rising :
        (a w : ℕ)
        → climbs rank_is_number number cascade_work (cascade a w).0 a (cascade a w).1 ≡ true
    rising zero w = refl
    rising (suc zero) w = refl
    rising (suc (suc a)) w = refl

    lessening :
        (a w : ℕ) → asked rank_is_number number cascade_work (cascade a w).1 < cascade_work a
    lessening zero w = omega arith
    lessening (suc zero) w = omega arith
    lessening (suc (suc a)) w = omega arith

one_queued-Ordered : Ordered rank_is_number number cascade_work one_queued
unfolding rises all_after levels numbered
one_queued-Ordered = record { rising = refl; level_ranks = refl; calm = refl; numbers = refl }

run_entries-falls_example :
    (t' : Transaction ℕ ℕ) × (run_entries rank_is_number cascade 8 one_queued ≡ some t')
    × (t'.prioritized_q ≡ [])
    × ((s : ℕ) → has s one_queued.prioritized_q ≡ true → has s t'.taken ≡ true)
    × (ranked t'.taken ≡ true)
unfolding queued
run_entries-falls_example =
    run_entries-falls rank_is_number number cascade_work cascade Any 8 one_queued cascade-Climbs
      refl one_queued-Ordered refl (omega arith) (omega arith)

abbrev order_of : Option (Transaction ℕ ℕ) → Option (List ℕ × (List ℕ))
order_of none = none
order_of (some t) = some (actions t.taken, t.finished)
  where
    actions : List (Entry ℕ) → List ℕ
    actions [] = []
    actions (e ∷ es) = e.action ∷ actions es

-- Both entries of node 2 come after that of node 1; `last` runs before `post`.
runs_by_rank :
    order_of (close rank_is_number cascade 9 one_queued) ≡ some (2 ∷ 2 ∷ 1 ∷ 0 ∷ [], 8 ∷ 7 ∷ [])
unfolding close
runs_by_rank = refl

-- Two entries whose nodes have changed places in rank.
abbrev out_of_date : Transaction ℕ ℕ
out_of_date = record one_queued {
  to_regen = true;
  prioritized_q =
      record { rank = 0; node = 9; action = 0; seq = 1 }
      ∷ record { rank = 3; node = 2; action = 0; seq = 2 }
      ∷ [];
}

check_regen-sorts_example :
    (rises (check_regen rank_is_number out_of_date).prioritized_q ≡ true)
    × (current rank_is_number 0 (check_regen rank_is_number out_of_date).prioritized_q ≡ true)
    × (length (check_regen rank_is_number out_of_date).prioritized_q ≡ 2)
    × ((s : ℕ)
        → has s (check_regen rank_is_number out_of_date).prioritized_q
          ≡ has s out_of_date.prioritized_q)
    × ((check_regen rank_is_number out_of_date).to_regen ≡ false)
unfolding distinct has
check_regen-sorts_example = check_regen-sorts rank_is_number out_of_date refl refl

-- Node 0 has a listener at node 1.
abbrev one_link : Nodes
one_link = record {
  rank = λ n. n;
  listeners = λ n. if n == 0 then record { action = 4; node = 1; target_ref = 1 } ∷ [] else [];
  has_node = λ n. true;
  next_target_ref = 1;
}

link_to-unlink_to_example :
    (changed : Bool) × (ref : ℕ) × (s' : Nodes) × (link_to 3 1 5 0 one_link
      ≡ some (changed, ref, s'))
    × (changed ≡ true)
    × (1 < s'.rank 0)
    × ((m : ℕ) → m ≤ s'.rank m)
    × ((unlink_to 1 ref s').listeners 1 ≡ [])
unfolding leads_to as_targets
link_to-unlink_to_example =
    link_to-unlink_to 2 1 5 0 one_link bounded ordered (omega arith) (omega arith) refl refl
  where
    bounded : (u v : ℕ) → leads_to v (as_targets (one_link.listeners u)) ≡ true → v < 2
    bounded zero v h = ground (arith, h)
    bounded (suc u) v h = ground (arith, h)

    ordered : (u v : ℕ) → leads_to v (as_targets (one_link.listeners u)) ≡ true → u < v
    ordered zero v h = ground (arith, h)
    ordered (suc u) v h = ground (arith, h)

-- Nothing has been opened yet.
abbrev fresh : Current
fresh = record {
  current_transaction_1 = none;
  current_transaction_2 = none;
  refs = λ i. 0;
  active = λ i. false;
  next = 0;
  lock = 0;
}

-- Two scopes, the first with one inside; what is called at the end opens a scope too.
run_scopes-opens_example :
    (t : Current) × (run_scopes
        (destroy_impl (scope done done) 1)
        (scope (scope done done) (scope done done))
        fresh
      ≡ some t)
    × (get_current_transaction_impl t ≡ none)
    × (t.next ≡ 2)
    × (t.lock ≡ 0)
unfolding outermost lock_first
run_scopes-opens_example =
    run_scopes-opens (scope done done) (scope (scope done done) (scope done done)) 0 none (λ i. 0)
      (λ i. false) 0 0 refl
