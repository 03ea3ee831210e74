-- ===== src/Node/Raise.antt =====
-- What `ensure_bigger_than` does to the ranks.
use caesium_cxx.Base.{
  ℕ, zero, suc, ◌+◌, ◌%◌, ◌≤◌, ◌<◌, ◌≡◌, refl, subst, ◌∙◌, ◌⊎◌, inl, inr, Bool, true, false, ◌||◌,
  Option, none, some, List, [], ◌∷◌, arith, ltb, ◌==◌, if◌then◌else◌, contains, Bool-cases,
  Option-cases, update,
}
use caesium_cxx.Node.{rank_mod, Target, Walk, raise_targets, ensure_bigger_than}

-- Whether node `v` is among the targets.
unfoldable pub leads_to : ℕ → List Target → Bool
leads_to v [] = false
leads_to v (t ∷ ts) = elim t.n [ none ↦ leads_to v ts | some n ↦ (n == v) || leads_to v ts ]

-- Every target of `u` has a greater rank, or has been visited.
abbrev pub Beats : Walk → ℕ → List Target → Type 0
Beats w u ts =
    (v : ℕ) → leads_to v ts ≡ true → (w.rank u < w.rank v) ⊎ (contains v w.visited ≡ true)

-- The walk when it has marked and raised `this`.
abbrev pub entered : ℕ → ℕ → Walk → Walk
entered this limit w = record {
  rank = update w.rank this ((limit + 1) % rank_mod);
  visited = this ∷ w.visited;
}

module _ (targets : ℕ → List Target) where
  -- From `w` to `w'` ranks grow, only at nodes newly visited, and these beat their targets.
  pub record Grew (w w' : Walk) : Type 0 where
    pub mono : (m : ℕ) → w.rank m ≤ w'.rank m
    pub keeps : (m : ℕ) → contains m w.visited ≡ true → contains m w'.visited ≡ true
    pub fixed : (m : ℕ) → contains m w.visited ≡ true → w'.rank m ≡ w.rank m
    pub still : (m : ℕ) → contains m w'.visited ≡ false → w'.rank m ≡ w.rank m
    pub edges :
        (u : ℕ)
        → contains u w.visited ≡ false
        → contains u w'.visited ≡ true
        → Beats w' u (targets u)

  Grew-refl : (w : Walk) → Grew w w
  Grew-refl w = record {
    mono = λ m. omega arith;
    keeps = λ m h. h;
    fixed = λ m h. refl;
    still = λ m h. refl;
    edges = λ u h k. cc;
  }

  -- A node that beats a target still does when the walk goes on.
  beats-later :
      (w w' : Walk) (u v : ℕ)
      → Grew w w'
      → contains u w.visited ≡ true
      → (w.rank u < w.rank v) ⊎ (contains v w.visited ≡ true)
      → (w'.rank u < w'.rank v) ⊎ (contains v w'.visited ≡ true)
  beats-later w w' u v g seen (inl lt) = inl (omega (arith, g.mono v, g.fixed u seen))
  beats-later w w' u v g seen (inr old) = inr (g.keeps v old)

  Grew-trans : (w w' w'' : Walk) → Grew w w' → Grew w' w'' → Grew w w''
  Grew-trans w w' w'' g g' = record {
    mono = λ m. omega (arith, g.mono m, g'.mono m);
    keeps = λ m h. g'.keeps m (g.keeps m h);
    fixed = λ m h. g'.fixed m (g.keeps m h) ∙ g.fixed m h;
    still = λ m h. elim (Bool-cases (contains m w'.visited)) [
      | inl seen ↦ cc (g'.keeps m seen)
      | inr not_yet ↦ g'.still m h ∙ g.still m not_yet
    ];
    edges = λ u h k. elim (Bool-cases (contains u w'.visited)) [
      | inl seen ↦ λ v l. beats-later w' w'' u v g' seen (g.edges u h seen v l)
      | inr not_yet ↦ g'.edges u not_yet k
    ];
  }

  -- The walk from `this` with `limit`: `this` ends above the limit unless it had been visited, and
  -- the answer says whether it was raised.
  pub record Raised (this limit : ℕ) (w : Walk) (b : Bool) (w' : Walk) : Type 0 where
    pub grew : Grew w w'
    pub above : (limit < w'.rank this) ⊎ (contains this w.visited ≡ true)
    pub told : b ≡ (if ltb limit (w.rank this) || contains this w.visited then false else true)

  abbrev pub Raises : (ℕ → ℕ → Walk → Option (Bool × Walk)) → ℕ → Type 0
  Raises raise room =
      (this limit : ℕ) (w : Walk) (b : Bool) (w' : Walk)
      → limit + room < rank_mod
      → raise this limit w ≡ some (b, w')
      → Raised this limit w b w'

  raise_targets-Grew :
      (raise : ℕ → ℕ → Walk → Option (Bool × Walk)) (room : ℕ)
      → Raises raise room
      → (this : ℕ) (ts : List Target) (w w' : Walk) → contains this w.visited ≡ true
      → w.rank this + room < rank_mod
      → raise_targets targets raise this ts w ≡ some w'
      → Grew w w' × Beats w' this ts
  unfolding raise_targets leads_to
  raise_targets-Grew raise room ih this [] w w' seen fits e =
      let p : w ≡ w' = cc in (subst (Grew w) p (Grew-refl w), λ v h. cc)
  raise_targets-Grew raise room ih this (t ∷ ts) w w' seen fits e = elim (Option-cases t.n) [
    | inl null ↦
        rw null (raise_targets-Grew raise room ih this ts w w' seen fits (ground (arith, null, e)))
    | inr (n, here) ↦ elim (Option-cases (raise n (w.rank this) w)) [
      | inl stuck ↦ absurd (ground (arith, here, stuck, e))
      | inr ((b, v), r) ↦
          let up = ih n (w.rank this) w b v fits r in
          let kept = up.grew.fixed this seen in
          let (rest, beats) =
            raise_targets-Grew raise room ih this ts v w' (up.grew.keeps this seen)
              (omega (arith, kept)) (ground (arith, here, r, e)) in
          (
            Grew-trans w v w' up.grew rest,
            rw here (λ x h. elim (Bool-cases (n == x)) [
              | inl hit ↦
                  let same : n ≡ x = ground arith in
                  let seen' = up.grew.keeps this seen in
                  rw (← same) (
                    beats-later v w' this n rest seen' (elim up.above [
                      | inl lt ↦ inl (omega (arith, kept))
                      | inr old ↦ inr (up.grew.keeps n old)
                    ]))
              | inr miss ↦ beats x (ground (arith, miss, h))
            ]),
          )
    ]
  ]

  enter-Grew :
      (this limit : ℕ) (w v : Walk)
      → limit + 1 < rank_mod
      → (ltb limit (w.rank this) || contains this w.visited) ≡ false
      → Grew (entered this limit w) v
      → Beats v this (targets this)
      → Grew w v
  unfolding contains
  enter-Grew this limit w v fits go g beats = record {
    mono = λ m. ground (arith, g.mono m);
    keeps = λ m h. g.keeps m (ground arith);
    fixed = λ m h. ground (arith, g.fixed m);
    still = λ m h. ground (arith, g.still m, g.keeps m);
    edges = λ u h k. elim (Bool-cases (u == this)) [
      | inl here ↦
          let same : this ≡ u = ground arith in subst (λ x. Beats v x (targets x)) same beats
      | inr other ↦ g.edges u (ground arith) k
    ];
  }

  -- `none` apart, every walk with room for its ranks does this.
  pub ensure_bigger_than-Raised : (fuel : ℕ) → Raises (ensure_bigger_than targets fuel) fuel
  unfolding ensure_bigger_than contains
  ensure_bigger_than-Raised zero this limit w b w' fits e = cc
  ensure_bigger_than-Raised (suc fuel) this limit w b w' fits e =
      elim (Bool-cases (ltb limit (w.rank this) || contains this w.visited)) [
        | inl stop ↦
            let p : w ≡ w' = ground (arith, stop, e) in
            let told : b ≡ false = ground (arith, stop, e) in
            record {
              grew = subst (Grew w) p (Grew-refl w);
              above = rw (← p) (ground (arith, stop));
              told = rw (stop, told);
            }
        | inr go ↦
            elim (Option-cases (
              raise_targets targets (ensure_bigger_than targets fuel) this (targets this)
                (entered this limit w))) [
                  | inl stuck ↦ absurd (ground (arith, go, stuck, e))
                  | inr (v, r) ↦
                      let p : v ≡ w' = ground (arith, go, r, e) in
                      let told : b ≡ true = ground (arith, go, r, e) in
                      let (g, beats) =
                        raise_targets-Grew (ensure_bigger_than targets fuel) fuel
                          (ensure_bigger_than-Raised fuel) this (targets this)
                          (entered this limit w) v (ground arith) (ground arith) r in
                      subst (Raised this limit w b) p (record {
                        grew = enter-Grew this limit w v (omega arith) go g beats;
                        above = inl (ground (arith, g.fixed this));
                        told = rw (go, told);
                      })
                ]
      ]
