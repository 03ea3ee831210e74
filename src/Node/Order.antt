-- ===== src/Node/Order.antt =====
-- Whether `ensure_bigger_than` ends, and whether edges still go up in rank when it has.
use caesium_cxx.Base.{
  ℕ, zero, suc, ◌+◌, ◌≤◌, ◌<◌, ◌≡◌, refl, ◌∙◌, ◌⊎◌, ◌≢◌, inl, inr, Bool, true, false, ◌||◌, Option,
  some, List, [], ◌∷◌, arith, ltb, ◌==◌, if◌then◌else◌, contains, contains-cons_self, Bool-cases,
  Option-cases,
}
use caesium_cxx.Node.{rank_mod, Target, Walk, raise_targets, ensure_bigger_than}
use caesium_cxx.Node.Raise.{leads_to, entered, Raises, ensure_bigger_than-Raised}

-- How many of the nodes below `n` have not been visited.
unvisited : ℕ → List ℕ → ℕ
unvisited zero vs = 0
unvisited (suc n) vs = (if contains n vs then 0 else 1) + unvisited n vs

unvisited-le :
    (n : ℕ) (vs ws : List ℕ)
    → ((m : ℕ) → contains m vs ≡ true → contains m ws ≡ true)
    → unvisited n ws ≤ unvisited n vs
unfolding unvisited
unvisited-le zero vs ws h = omega arith
unvisited-le (suc n) vs ws h = ground (arith, h n, unvisited-le n vs ws h)

unvisited-cons_of_le :
    (n this : ℕ) (vs : List ℕ) → n ≤ this → unvisited n (this ∷ vs) ≡ unvisited n vs
unfolding unvisited contains
unvisited-cons_of_le zero this vs h = refl
unvisited-cons_of_le (suc n) this vs h = ground (arith, unvisited-cons_of_le n this vs)

unvisited-cons :
    (n this : ℕ) (vs : List ℕ)
    → this < n
    → contains this vs ≡ false
    → unvisited n (this ∷ vs) + 1 ≡ unvisited n vs
unfolding unvisited contains
unvisited-cons zero this vs h e = absurd (omega arith)
unvisited-cons (suc n) this vs h e = elim (Bool-cases (n == this)) [
  | inl last ↦ ground (arith, unvisited-cons_of_le n this vs)
  | inr more ↦ ground (arith, unvisited-cons n this vs)
]

unvisited_nil : (n : ℕ) → unvisited n [] ≡ n
unfolding unvisited contains
unvisited_nil zero = refl
unvisited_nil (suc n) = omega (arith, unvisited_nil n)

-- All nodes are below `n`.
abbrev pub IsBounded : ℕ → (ℕ → List Target) → Type 0
IsBounded n targets = (u v : ℕ) → leads_to v (targets u) ≡ true → v < n

-- Every edge goes up in rank.
abbrev pub IsOrdered : (ℕ → List Target) → (ℕ → ℕ) → Type 0
IsOrdered targets rank = (u v : ℕ) → leads_to v (targets u) ≡ true → rank u < rank v

module _ (n : ℕ) (targets : ℕ → List Target) (bounded : IsBounded n targets) where
  abbrev Returns : (ℕ → ℕ → Walk → Option (Bool × Walk)) → ℕ → Type 0
  Returns raise room =
      (this limit : ℕ) (w : Walk)
      → this < n
      → unvisited n w.visited < room
      → limit + room < rank_mod
      → (b : Bool) × (w' : Walk) × (raise this limit w ≡ some (b, w'))

  raise_targets_total :
      (raise : ℕ → ℕ → Walk → Option (Bool × Walk)) (room : ℕ)
      → Raises targets raise room
      → Returns raise room
      → (this : ℕ) (ts : List Target) (w : Walk) → ((v : ℕ) → leads_to v ts ≡ true → v < n)
      → contains this w.visited ≡ true
      → unvisited n w.visited < room
      → w.rank this + room < rank_mod
      → (w' : Walk) × (raise_targets targets raise this ts w ≡ some w')
  unfolding raise_targets leads_to
  raise_targets_total raise room ih returns this [] w low seen few fits = (w, refl)
  raise_targets_total raise room ih returns this (t ∷ ts) w low seen few fits =
      elim (Option-cases t.n) [
        | inl null ↦
            let (w', e) =
              raise_targets_total raise room ih returns this ts w
                (λ v h. low v (ground (arith, null, h))) seen few fits in
            (w', ground (arith, null, e))
        | inr (x, here) ↦
            let (b, v, r) = returns x (w.rank this) w (low x (ground (arith, here))) few fits in
            let up = ih x (w.rank this) w b v fits r in
            let (w', e) =
              raise_targets_total raise room ih returns this ts v
                (λ y h. low y (ground (arith, here, h))) (up.grew.keeps this seen)
                (omega (arith, unvisited-le n w.visited v.visited up.grew.keeps))
                (omega (arith, up.grew.fixed this seen)) in
            (w', ground (arith, here, r, e))
      ]

  ensure_bigger_than_total : (fuel : ℕ) → Returns (ensure_bigger_than targets fuel) fuel
  unfolding ensure_bigger_than
  ensure_bigger_than_total zero this limit w low few fits = absurd (omega arith)
  ensure_bigger_than_total (suc fuel) this limit w low few fits =
      elim (Bool-cases (ltb limit (w.rank this) || contains this w.visited)) [
        | inl stop ↦ (false, w, ground (arith, stop))
        | inr go ↦
            let unseen : contains this w.visited ≡ false = ground arith in
            let (w', e) =
              raise_targets_total (ensure_bigger_than targets fuel) fuel
                (ensure_bigger_than-Raised targets fuel) (ensure_bigger_than_total fuel) this
                (targets this) (entered this limit w) (bounded this)
                (contains-cons_self this w.visited)
                (omega (arith, unvisited-cons n this w.visited low unseen)) (ground arith) in
            (true, w', ground (arith, go, e))
      ]

abbrev pub fresh_walk : (ℕ → ℕ) → Walk
fresh_walk rank = record { rank = rank; visited = [] }

-- In a graph of `n` nodes whose edges go up in rank, with room for `n + 1` ranks above the limit,
-- the walk from node `this` returns, having fuel for `n + 1` nested calls. Then `this` ranks above
-- the limit, no rank has fallen, nodes that were not visited keep their ranks, the answer is
-- whether the rank of `this` was not above the limit before, and each edge still goes up in rank
-- unless both of its ends were visited.
pub ensure_bigger_than-order :
    (n : ℕ) (targets : ℕ → List Target) (rank : ℕ → ℕ) (this limit : ℕ)
    → IsBounded n targets
    → IsOrdered targets rank
    → this < n
    → limit + n + 1 < rank_mod
    → (b : Bool) × (w : Walk) × (ensure_bigger_than targets (n + 1) this limit (fresh_walk rank)
        ≡ some (b, w))
      × (limit < w.rank this)
      × ((m : ℕ) → rank m ≤ w.rank m)
      × ((m : ℕ) → contains m w.visited ≡ false → w.rank m ≡ rank m)
      × (b ≡ (if ltb limit (rank this) then false else true))
      × ((u v : ℕ)
          → leads_to v (targets u) ≡ true
          → (w.rank u < w.rank v) ⊎ ((contains u w.visited ≡ true) × (contains v w.visited ≡ true)))
unfolding contains
ensure_bigger_than-order n targets rank this limit bounded ordered low fits =
    let (b, w, e) =
      ensure_bigger_than_total n targets bounded (n + 1) this limit (fresh_walk rank) low
        (omega (arith, unvisited_nil n)) (omega arith) in
    let up =
      ensure_bigger_than-Raised targets (n + 1) this limit (fresh_walk rank) b w (omega arith) e in
    (
      b,
      w,
      e,
      elim up.above [ inl lt ↦ lt | inr seen ↦ cc ],
      up.grew.mono,
      up.grew.still,
      ground (arith, up.told),
      λ u v h. elim (Bool-cases (contains u w.visited)) [
        | inr out ↦ inl (omega (arith, up.grew.still u out, up.grew.mono v, ordered u v h))
        | inl in_u ↦ elim (up.grew.edges u refl in_u v h) [
          | inl lt ↦ inl lt
          | inr in_v ↦ inr (in_u, in_v)
        ]
      ],
    )

module _ (targets : ℕ → List Target) where
  ensure_skip :
      (f this limit : ℕ) (w : Walk)
      → (ltb limit (w.rank this) || contains this w.visited) ≡ true
      → ensure_bigger_than targets (suc f) this limit w ≡ some (false, w)
  unfolding ensure_bigger_than
  ensure_skip f this limit w stop = ground (arith, stop)

  ensure_enter :
      (f this limit : ℕ) (w w' : Walk)
      → (ltb limit (w.rank this) || contains this w.visited) ≡ false
      → raise_targets targets
          (ensure_bigger_than targets f)
          this
          (targets this)
          (entered this limit w)
        ≡ some w'
      → ensure_bigger_than targets (suc f) this limit w ≡ some (true, w')
  unfolding ensure_bigger_than
  ensure_enter f this limit w w' go r = ground (arith, go, r)

  raise_next :
      (raise : ℕ → ℕ → Walk → Option (Bool × Walk)) (this h n : ℕ) (ts : List Target) (w w' : Walk)
      (b : Bool)
      → raise n (w.rank this) w ≡ some (b, w')
      → raise_targets targets raise this (record { h = h; n = some n } ∷ ts) w
        ≡ raise_targets targets raise this ts w'
  unfolding raise_targets
  raise_next raise this h n ts w w' b e = rw (e, raise_targets)

-- Let `this`, `a` and `b` be three different nodes: `this` has the targets `b` and then `a`, `a`
-- has the one target `b`, and `b` has none. If the rank of `this` is at most `limit`, those of
-- `a` and `b` are at most `limit + 1`, and `limit + 3` is below `2 ^ 64`, then
-- `ensure_bigger_than` answers that it has changed ranks and leaves both `a` and `b` with the
-- rank `limit + 2`: it raises `b` first and does not come back to it, and the edge from `a` to
-- `b` is flat.
pub diamond_flat :
    (targets : ℕ → List Target) (rank : ℕ → ℕ) (this a b h h' h'' limit : ℕ)
    → this ≢ a
    → this ≢ b
    → a ≢ b
    → targets this ≡ record { h = h; n = some b } ∷ record { h = h'; n = some a } ∷ []
    → targets a ≡ record { h = h''; n = some b } ∷ []
    → targets b ≡ []
    → rank this ≤ limit
    → rank a ≤ limit + 1
    → rank b ≤ limit + 1
    → limit + 3 < rank_mod
    → (w : Walk) × (ensure_bigger_than targets 4 this limit (fresh_walk rank) ≡ some (true, w))
      × (w.rank a ≡ limit + 2)
      × (w.rank b ≡ limit + 2)
unfolding raise_targets contains
diamond_flat targets rank this a b h h' h'' limit ta tb ab et ea eb rt ra rb fits =
    let w = fresh_walk rank in
    let w' = entered this limit w in
    let w'' = entered b (w'.rank this) w' in
    let w3 = entered a (w''.rank this) w'' in
    let raise = ensure_bigger_than targets 3 in
    let to_b = ensure_enter targets 2 b (w'.rank this) w' w'' (ground arith) (rw eb) in
    let again =
      raise_next targets (ensure_bigger_than targets 2) a h'' b [] w3 w3 false
        (ensure_skip targets 1 b (w3.rank a) w3 (ground arith)) in
    let to_a = ensure_enter targets 2 a (w''.rank this) w'' w3 (ground arith) (rw ea again) in
    (
      w3,
      ensure_enter targets 3 this limit w w3 (ground arith) (
          rw et (
            raise_next targets raise this h b (record { h = h'; n = some a } ∷ []) w' w'' true to_b
            ∙ raise_next targets raise this h' a [] w'' w3 true to_a)),
      ground arith,
      ground arith,
    )
