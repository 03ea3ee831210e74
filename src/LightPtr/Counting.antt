-- ===== src/LightPtr/Counting.antt =====
-- A count is the number of pointers that share it, so a value is deleted with its last pointer.
use caesium_cxx.Base.{
  ℕ, ◌+◌, ◌-◌, ◌≤◌, ◌<◌, ◌≡◌, refl, ◌≢◌, inl, inr, Option, none, some, List, [], ◌∷◌, ◌++◌, arith,
  ltb, ◌==◌, if◌then◌else◌, is_some, Option-cases, Bool-cases, count, count-append, update,
}
use caesium_cxx.LightPtr.{LightPtr, Store, load, create, retain, put_back}

abbrev pub hits : ℕ → ℕ → ℕ
hits b a = if b == a then 1 else 0

-- Whether a pointer shares block `a`.
abbrev pub shares : Option ℕ → ℕ → ℕ
shares none a = 0
shares (some b) a = hits b a

-- How many of the variables do.
unfoldable pub holders : ℕ → List LightPtr → ℕ
holders a [] = 0
holders a (x ∷ xs) = shares x.count a + holders a xs

abbrev pub count_of : Option ℕ → ℕ
count_of none = 0
count_of (some c) = c

-- Store `s` counts `h b` pointers to each block `b`. Blocks are numbered below `next`, and each of
-- them is either allocated or has had its value deleted, once.
pub record Counted (h : ℕ → ℕ) (s : Store) : Type 0 where
  pub counted : (b : ℕ) → count_of (s.blocks b) ≡ h b
  pub positive : (b : ℕ) → s.blocks b ≢ some 0
  pub fresh : (b : ℕ) → s.next ≤ b → s.blocks b ≡ none
  pub logged :
      (b : ℕ)
      → count b s.deleted + (if is_some (s.blocks b) then 1 else 0)
        ≡ (if ltb b s.next then 1 else 0)

-- The same count under an equal name.
pub Counted-ext : (h h' : ℕ → ℕ) (s : Store) → Counted h s → ((a : ℕ) → h' a ≡ h a) → Counted h' s
Counted-ext h h' s inv e = record {
  counted = λ b. ground (arith, e b, inv.counted b);
  positive = inv.positive;
  fresh = inv.fresh;
  logged = inv.logged;
}

module _ (h h' : ℕ → ℕ) (s : Store) (inv : Counted h s) where
  open inv use {counted, positive, fresh, logged}

  pub create-Counted : ((a : ℕ) → h' a ≡ h a + hits s.next a) → Counted h' (create s).1
  unfolding create
  create-Counted e = record {
    counted = λ b. ground (arith, e b, counted b, fresh b);
    positive = λ b. ground (arith, positive b);
    fresh = λ b q. ground (arith, fresh b);
    logged = λ b. ground (arith, logged b, fresh b);
  }

  pub retain-Counted :
      (b : ℕ)
      → 0 < h b
      → ((a : ℕ) → h' a ≡ h a + hits b a)
      → (t : Store) × (retain (some b) s ≡ some t) × Counted h' t × (t.next ≡ s.next)
  unfolding retain load
  retain-Counted b held e = elim (Option-cases (s.blocks b)) [
    | inl gone ↦ absurd (ground (arith, counted b))
    | inr (c, here) ↦ (
      record s { blocks = update s.blocks b (some (c + 1)) },
      rw here,
      record {
        counted = λ a. ground (arith, e a, counted a);
        positive = λ a. ground (arith, positive a);
        fresh = λ a q. ground (arith, fresh a);
        logged = λ a. ground (arith, logged a);
      },
      refl,
    )
  ]

  pub put_back-Counted :
      (x : LightPtr) (b : ℕ)
      → x.count ≡ some b
      → x.value ≡ b
      → 0 < h b
      → ((a : ℕ) → h' a + hits b a ≡ h a)
      → (t : Store) × (put_back x s ≡ some t) × Counted h' t × (t.next ≡ s.next)
  unfolding put_back load count
  put_back-Counted x b here own held e = elim (Option-cases (s.blocks b)) [
    | inl gone ↦ absurd (ground (arith, counted b))
    | inr (c, found) ↦ elim (Bool-cases (c == 1)) [
      | inl last ↦ (
        record s { blocks = update s.blocks b none; deleted = s.deleted ++ x.value ∷ [] },
        ground (arith, here, found, last),
        record {
          counted = λ a. ground (arith, e a, counted a);
          positive = λ a. ground (arith, positive a);
          fresh = λ a q. ground (arith, fresh a);
          logged = λ a. ground (arith, logged a, count-append a s.deleted (x.value ∷ []));
        },
        refl,
      )
      | inr more ↦ (
        record s { blocks = update s.blocks b (some (c - 1)) },
        ground (arith, here, found, more),
        record {
          counted = λ a. ground (arith, e a, counted a);
          positive = λ a. ground (arith, positive a, positive b);
          fresh = λ a q. ground (arith, fresh a);
          logged = λ a. ground (arith, logged a);
        },
        refl,
      )
    ]
  ]
