-- ===== src/Node/Examples.antt =====
-- Small listener graphs.
use caesium_cxx.Base.{
  ℕ, zero, suc, ◌≤◌, ◌<◌, ◌≡◌, refl, ◌⊎◌, Bool, true, false, some, List, [], ◌∷◌, arith, contains,
}
use caesium_cxx.Node.{Target, Walk, ensure_bigger_than}
use caesium_cxx.Node.Raise.{leads_to}
use caesium_cxx.Node.Order.{
  IsBounded, IsOrdered, fresh_walk, ensure_bigger_than-order, diamond_flat,
}

abbrev to : ℕ → Target
to n = record { h = n; n = some n }

-- 0 → 1 → 2
abbrev chain : ℕ → List Target
chain zero = to 1 ∷ []
chain (suc zero) = to 2 ∷ []
chain (suc (suc n)) = []

chain-IsBounded : IsBounded 3 chain
unfolding leads_to
chain-IsBounded zero v h = ground arith
chain-IsBounded (suc zero) v h = ground arith
chain-IsBounded (suc (suc n)) v h = cc

chain-IsOrdered : IsOrdered chain (λ n. n)
unfolding leads_to
chain-IsOrdered zero v h = ground arith
chain-IsOrdered (suc zero) v h = ground arith
chain-IsOrdered (suc (suc n)) v h = cc

ensure_bigger_than-order_example :
    (b : Bool) × (w : Walk) × (ensure_bigger_than chain 4 0 10 (fresh_walk (λ n. n)) ≡ some (b, w))
    × (10 < w.rank 0)
    × ((m : ℕ) → m ≤ w.rank m)
    × ((m : ℕ) → contains m w.visited ≡ false → w.rank m ≡ m)
    × (b ≡ true)
    × ((u v : ℕ)
        → leads_to v (chain u) ≡ true
        → (w.rank u < w.rank v) ⊎ ((contains u w.visited ≡ true) × (contains v w.visited ≡ true)))
ensure_bigger_than-order_example =
    ensure_bigger_than-order 3 chain (λ n. n) 0 10 chain-IsBounded chain-IsOrdered (omega arith)
      (omega arith)

-- 0 → 2, 0 → 1 → 2
abbrev diamond : ℕ → List Target
diamond zero = to 2 ∷ to 1 ∷ []
diamond (suc zero) = to 2 ∷ []
diamond (suc (suc n)) = []

diamond_flat_example :
    (w : Walk) × (ensure_bigger_than diamond 4 0 10 (fresh_walk (λ n. n)) ≡ some (true, w))
    × (w.rank 1 ≡ 12)
    × (w.rank 2 ≡ 12)
diamond_flat_example =
    diamond_flat diamond (λ n. n) 0 1 2 2 1 2 10 (omega arith) (omega arith) (omega arith) refl refl
      refl (omega arith) (omega arith) (omega arith) (omega arith)
