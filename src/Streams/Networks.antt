-- ===== src/Streams/Networks.antt =====
-- Networks that the operators build from nothing, and transactions that run in them.
use caesium_cxx.Base.{
  ℕ, ◌+◌, ◌*◌, ◌^◌, ◌≡◌, refl, Bool, true, false, Option, none, some, List, [], ◌∷◌, ◌==◌, contains,
}
use caesium_cxx.Prioritized.{Transaction, request, close, run_entries}
use caesium_cxx.Streams.{Act, World, call, send, run}
use caesium_cxx.Streams.Sending.{rank_now}
use caesium_cxx.Streams.Operators.{Build, new_stream, listen_, map_, filter, merge, coalesce}

-- Node 0 is `node_t::null`.
abbrev nothing : Build
nothing = record {
  world = record {
    nodes = record {
      rank = λ n. 2 ^ 31;
      listeners = λ n. [];
      has_node = λ n. n == 0;
      next_target_ref = 0;
    };
    handlers = λ k. call;
    streams = λ s. record { finalizers = []; node = 0; firings = [] };
    p_state = λ st. none;
    s_lazy = λ st. 0;
    cells =
        λ c. record { str = 0; value = 0; value_update = 0; lazy_init_value = none; cleanup = [] };
    receptacles = λ r. none;
    heard = [];
    failed = false;
  };
  next_node = 1;
  next_stream = 0;
  next_action = 0;
  next_state = 0;
  next_cell = 0;
  next_receptacle = 0;
  asks = [];
}

abbrev source : ℕ × Build
source = new_stream nothing

abbrev heard_at : ℕ → Option (ℕ × Build) → Option Build
heard_at fuel none = none
heard_at fuel (some (s, b)) = elim (listen_ fuel s 0 call b) [
  | none ↦ none
  | some (kill, b') ↦ some b'
]

-- A transaction in which `a` is sent on the stream 0.
abbrev started : ℕ → Option Build → Option (Transaction World Act)
started a none = none
started a (some b) =
    let (w, asked) = send 0 a b.world in
    some (
      request rank_now asked (record {
        active = true;
        to_regen = false;
        prioritized_q = [];
        last_q = [];
        post_q = [];
        next_seq = 0;
        world = w;
        taken = [];
        finished = [];
      }))

abbrev closed : Option (Transaction World Act) → Option (List ℕ × Bool)
closed none = none
closed (some t) = elim (close rank_now run 40 t) [
  | none ↦ none
  | some t' ↦ some (t'.world.heard, t'.world.failed)
]

-- `s.merge(s.map(double), add)`
abbrev doubled : Option (ℕ × Build)
doubled = elim (map_ 9 (λ a. a * 2) 0 source.1) [
  | none ↦ none
  | some (m, b) ↦ elim (merge 9 0 m b) [
    | none ↦ none
    | some (both, b') ↦ coalesce 9 (λ x y. x + y) both b'
  ]
]

-- Both values arrive before the sum is sent, once.
doubled_sum : closed (started 5 (heard_at 9 doubled)) ≡ some (15 ∷ [], false)
unfolding new_stream map_ merge coalesce listen_ send request close run contains
doubled_sum = refl

abbrev kept_even : Option (ℕ × Build)
kept_even = filter 9 (λ a. a == 4) 0 source.1

abbrev fired_in : ℕ → Option (Transaction World Act) → Option (List ℕ)
fired_in s none = none
fired_in s (some t) = elim (run_entries rank_now run 20 t) [
  | none ↦ none
  | some t' ↦ some (t'.world.streams s).firings
]

abbrev built : Option (ℕ × Build) → Option Build
built none = none
built (some (s, b)) = some b

-- `filter` sends on the stream 1 and gives back the stream 2, a copy, on which the firing is not
-- found by a listener that comes later in the transaction.
filter_forgets_firing : fired_in 1 (started 4 (built kept_even)) ≡ some (4 ∷ [])
unfolding new_stream filter send request run_entries run contains
filter_forgets_firing = refl

copy_has_no_firing : fired_in 2 (started 4 (built kept_even)) ≡ some []
unfolding new_stream filter send request run_entries run contains
copy_has_no_firing = refl
