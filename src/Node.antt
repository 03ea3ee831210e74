-- ===== src/Node.antt =====
-- `node` of sodium/transaction.h and transaction.cpp: the listener graph, its links and its ranks.
-- Nodes are named by numbers.
pub mod Raise
pub mod Order
pub mod Links
pub mod Examples
use caesium_cxx.Base.{
  ℕ, zero, suc, ◌+◌, ◌-◌, ◌%◌, ◌^◌, Bool, true, false, ◌||◌, Option, none, some, List, [], ◌∷◌, ltb,
  ◌==◌, if◌then◌else◌, contains, update,
}

-- `rank_t` is an `unsigned long` of 64 bits.
abbrev pub rank_mod : ℕ
rank_mod = 2 ^ 64

-- SODIUM_IMPL_RANK_T_MAX
abbrev pub rank_max : ℕ
rank_max = rank_mod - 1

-- `node::target`: the address of a holder, and the target node unless it is null.
pub record Target : Type 0 where
  pub h : ℕ
  pub n : Option ℕ

-- All nodes. `listen_impl` and the elements of `sources` are listen functions, by number, or null.
pub record Graph : Type 0 where
  pub rank : ℕ → ℕ
  pub targets : ℕ → List Target
  pub sources : ℕ → List (Option ℕ)
  pub listen_impl : ℕ → Option ℕ

-- What a walk of `ensure_bigger_than` changes.
pub record Walk : Type 0 where
  pub rank : ℕ → ℕ
  pub visited : List ℕ

module _ (targets : ℕ → List Target) where
  -- The loop over the targets of `this`; a target that is null is passed over.
  unfoldable pub raise_targets :
      (ℕ → ℕ → Walk → Option (Bool × Walk)) → ℕ → List Target → Walk → Option Walk
  raise_targets raise this [] w = some w
  raise_targets raise this (t ∷ ts) w = elim t.n [
    | none ↦ raise_targets raise this ts w
    | some n ↦ elim (raise n (w.rank this) w) [
      | none ↦ none
      | some (_, w') ↦ raise_targets raise this ts w'
    ]
  ]

  -- `ensure_bigger_than`; the fuel bounds the depth of the walk, and `none` means that it ran out.
  unfoldable pub ensure_bigger_than : ℕ → ℕ → ℕ → Walk → Option (Bool × Walk)
  unfolding raise_targets
  ensure_bigger_than zero this limit w = none
  ensure_bigger_than (suc fuel) this limit w =
      elim (ltb limit (w.rank this) || contains this w.visited) [
        | true ↦ some (false, w)
        | false ↦
            elim (raise_targets (ensure_bigger_than fuel) this (targets this) (record {
              rank = update w.rank this ((limit + 1) % rank_mod);
              visited = this ∷ w.visited;
            })) [ none ↦ none | some w' ↦ some (true, w') ]
      ]

-- `rankOf`
unfoldable pub rank_of : Graph → Option ℕ → ℕ
rank_of g none = rank_max
rank_of g (some n) = g.rank n

-- `forward_list::remove` takes out every element that is equal.
same_listener : Option ℕ → Option ℕ → Bool
same_listener none none = true
same_listener (some a) (some b) = a == b
same_listener _ _ = false

unfoldable pub remove_all : Option ℕ → List (Option ℕ) → List (Option ℕ)
unfolding same_listener
remove_all li [] = []
remove_all li (x ∷ xs) =
    let rest = remove_all li xs in if same_listener x li then rest else x ∷ rest

-- `targ->sources.remove(li)` where there is a target
remove_source : Option ℕ → Option ℕ → Graph → Graph
unfolding remove_all
remove_source li none g = g
remove_source li (some t) g = record g {
  sources = update g.sources t (remove_all li (g.sources t));
}

unfoldable pub link : ℕ → ℕ → ℕ → Option ℕ → Graph → Option (Bool × Graph)
link fuel this holder none g = some (
  false,
  record g { targets = update g.targets this (record { h = holder; n = none } ∷ g.targets this) },
)
link fuel this holder (some t) g =
    elim (ensure_bigger_than g.targets fuel t (g.rank this)
      (record { rank = g.rank; visited = [] })) [
        | none ↦ none
        | some (changed, w) ↦ some (
          changed,
          record g {
            rank = w.rank;
            sources = update g.sources t (g.listen_impl this ∷ g.sources t);
            targets = update g.targets this (record { h = holder; n = some t } ∷ g.targets this);
          },
        )
      ]

-- The first target that passes a test, and the list without it.
take_first : (Target → Bool) → List Target → Option (Target × List Target)
take_first p [] = none
take_first p (t ∷ ts) =
    let rest = take_first p ts in
    if p t then some (t, ts) else elim rest [ none ↦ none | some (u, us) ↦ some (u, t ∷ us) ]

unlink_first : (Target → Bool) → ℕ → Graph → Graph
unfolding take_first remove_source
unlink_first p this g = elim (take_first p (g.targets this)) [
  | none ↦ g
  | some (t, ts) ↦
      remove_source (g.listen_impl this) t.n (record g { targets = update g.targets this ts })
]

unfoldable pub unlink : ℕ → ℕ → Graph → Graph
unfolding unlink_first
unlink this holder = unlink_first (λ t. t.h == holder) this

unfoldable pub unlink_by_target : ℕ → Option ℕ → Graph → Graph
unfolding unlink_first same_listener
unlink_by_target this targ = unlink_first (λ t. same_listener t.n targ) this

-- `~node`: the node's listen function leaves the sources of every target.
unfoldable pub destroy : ℕ → Graph → Graph
unfolding remove_source
destroy this g = go (g.targets this) g
  where
    go : List Target → Graph → Graph
    go [] g' = g'
    go (t ∷ ts) g' = go ts (remove_source (g.listen_impl this) t.n g')
