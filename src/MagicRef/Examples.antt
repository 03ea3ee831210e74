-- ===== src/MagicRef/Examples.antt =====
-- Links that refer to one another in circles.
use caesium_cxx.Base.{
  ℕ, zero, suc, ◌+◌, ◌<◌, ◌≡◌, refl, inl, inr, Bool, true, false, Option, none, some, List, [], ◌∷◌,
  arith, ◌==◌, if◌then◌else◌, Bool-cases, count, contains,
}
use caesium_cxx.MagicRef.{count_mod, same_colour, black, white, purple, Links}
use caesium_cxx.MagicRef.Cycles.{collect_cycles, trace_cycles, collect_roots}
use caesium_cxx.MagicRef.Edges.{IsBounded, tally, from_any, from_live}
use caesium_cxx.MagicRef.Values.{assign}
use caesium_cxx.MagicRef.Marking.{is_grey}
use caesium_cxx.MagicRef.Roots.{Ready}
use caesium_cxx.MagicRef.Garbage.{FromWhite, trace_cycles-white}
use caesium_cxx.MagicRef.Collection.{is_white, collect_roots-unreferenced}
use caesium_cxx.MagicRef.Capture.{assign-captures}

-- Links 0 and 1 refer to each other, 1 refers to 2, and 2 is referred to from outside.
abbrev refers : ℕ → List ℕ
refers zero = 1 ∷ []
refers (suc zero) = 0 ∷ 2 ∷ []
refers (suc (suc n)) = []

abbrev counts : ℕ → ℕ
counts zero = 1
counts (suc zero) = 1
counts (suc (suc zero)) = 2
counts (suc (suc (suc n))) = 0

abbrev held_outside : ℕ → ℕ
held_outside x = if x == 2 then 1 else 0

abbrev dropped_cycle : Links
dropped_cycle = record {
  trace = record { ref_count = counts; colour = λ x. if x == 0 then purple else black };
  buffered = λ x. x == 0;
  children = refers;
  oa = λ x. if x == 0 then some (1 ∷ []) else if x == 1 then some (0 ∷ 2 ∷ []) else some [];
  capturer = none;
  roots = 0 ∷ [];
  to_delete = [];
  deleted = [];
}

abbrev seen : Option (Bool × Links) → Option (Bool × (List ℕ) × (List ℕ) × ℕ)
seen none = none
seen (some (b, s)) = some (b, s.deleted, s.roots, s.trace.ref_count 2)

-- The collection deletes 0 and 1, and then 2, to which a reference outside remains.
collect_drops_live : seen (collect_cycles 10 dropped_cycle) ≡ some (true, 1 ∷ 2 ∷ 0 ∷ [], [], 0)
unfolding collect_cycles contains
collect_drops_live = refl

refers-IsBounded : (m : ℕ) → IsBounded 3 (refers m)
unfolding count
refers-IsBounded zero x h = ground arith
refers-IsBounded (suc zero) x h = ground arith
refers-IsBounded (suc (suc m)) x h = absurd (omega arith)

counts-exact :
    (x : ℕ)
    → counts x
      ≡ held_outside x + tally (from_live refers x) 3 (λ y. if y == 0 then purple else black) + 0
unfolding tally count
counts-exact zero = refl
counts-exact (suc zero) = refl
counts-exact (suc (suc zero)) = refl
counts-exact (suc (suc (suc x))) = ground arith

counts_small : (x : ℕ) → counts x < count_mod
counts_small zero = omega arith
counts_small (suc zero) = omega arith
counts_small (suc (suc zero)) = omega arith
counts_small (suc (suc (suc x))) = omega arith

dropped_cycle-Ready : Ready 3 held_outside dropped_cycle
unfolding contains
dropped_cycle-Ready = record {
  counted = record {
    exact = counts-exact;
    small = counts_small;
    no_white = λ x. elim (Bool-cases (x == 0)) [ inl hit ↦ rw hit refl | inr miss ↦ rw miss refl ];
  };
  low = λ x h. ground (arith, h);
  referred = λ x h b. let same : x ≡ 0 = ground (arith, h) in rw same (omega arith);
}

no_grey : (x : ℕ) → is_grey dropped_cycle.trace x ≡ false
no_grey x = elim (Bool-cases (x == 0)) [ inl hit ↦ rw hit refl | inr miss ↦ rw miss refl ]

refers_fit :
    (x : ℕ) → held_outside x + tally (from_any refers x) 3 dropped_cycle.trace.colour < count_mod
unfolding tally count
refers_fit x = ground arith

trace_cycles-white_example :
    (s' : Links) × (trace_cycles 7 dropped_cycle ≡ some s')
    × (s'.children ≡ refers)
    × (s'.to_delete ≡ [])
    × ((x : ℕ) → contains x s'.roots ≡ true → x < 3)
    × ((x : ℕ) → is_grey s'.trace x ≡ false)
    × ((x : ℕ)
        → same_colour (s'.trace.colour x) white ≡ true
        → (held_outside x ≡ 0) × FromWhite 3 s' x)
    × ((x : ℕ)
        → s'.trace.ref_count x ≡ held_outside x + tally (from_live s'.children x) 3 s'.trace.colour)
trace_cycles-white_example =
    trace_cycles-white 3 held_outside dropped_cycle 7 refers-IsBounded dropped_cycle-Ready no_grey
      refers_fit (omega arith)

collect_roots-unreferenced_example :
    (u : Links) × (v : Links) × (trace_cycles 7 dropped_cycle ≡ some u)
    × (collect_roots 7 u ≡ some v)
    × (v.children ≡ refers)
    × ((x : ℕ)
        → contains x v.to_delete ≡ true
        → (is_white u x ≡ true) × (held_outside x ≡ 0) × FromWhite 3 u x)
collect_roots-unreferenced_example =
    collect_roots-unreferenced 3 held_outside dropped_cycle 7 refers-IsBounded dropped_cycle-Ready
      no_grey refers_fit refl (omega arith)

abbrev chosen : Option Links → Option (List ℕ)
chosen none = none
chosen (some s) = some s.to_delete

abbrev found : ℕ → Links → Option Links
found fuel s = elim (trace_cycles fuel s) [ none ↦ none | some u ↦ collect_roots fuel u ]

-- The cycle is found, and the link that is held outside is not.
finds_the_cycle : chosen (found 7 dropped_cycle) ≡ some (0 ∷ 1 ∷ [])
unfolding trace_cycles collect_roots contains
finds_the_cycle = refl

-- Link 3 takes a value that refers to 2 twice and to 3.
abbrev new_holder : Links
new_holder = record {
  trace = record { ref_count = λ x. 1; colour = λ x. black };
  buffered = λ x. false;
  children = λ x. [];
  oa = λ x. none;
  capturer = none;
  roots = [];
  to_delete = [];
  deleted = [];
}

assign-captures_example :
    (s' : Links) × (assign 1 3 (2 ∷ 3 ∷ 2 ∷ []) new_holder ≡ some s')
    × ((x : ℕ) → count x (s'.children 3) ≡ count x (2 ∷ 3 ∷ 2 ∷ []))
    × ((x : ℕ) → s'.trace.ref_count x ≡ 1 + count x (2 ∷ 3 ∷ 2 ∷ []))
    × (s'.oa 3 ≡ some (2 ∷ 3 ∷ 2 ∷ []))
    × (s'.capturer ≡ none)
    × (s'.deleted ≡ [])
unfolding contains count
assign-captures_example =
    assign-captures 1 3 (2 ∷ 3 ∷ 2 ∷ []) new_holder (omega arith) refl not_chosen
      (λ x h. omega arith) few
  where
    not_chosen : (x : ℕ) → 0 < count x (2 ∷ 3 ∷ 2 ∷ []) → contains x [] ≡ false
    not_chosen x h = refl

    few : (x : ℕ) → 1 + (count x (2 ∷ 3 ∷ 2 ∷ []) + count x (2 ∷ 3 ∷ 2 ∷ [])) < count_mod
    few x = ground arith
