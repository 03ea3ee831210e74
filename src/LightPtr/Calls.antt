-- ===== src/LightPtr/Calls.antt =====
-- Programs over pointers of sodium/light_ptr.h: no fault, no leak, no double deletion.
use caesium_cxx.Base.{
  ℕ, zero, suc, ◌+◌, ◌-◌, ◌<◌, ◌≡◌, refl, ◌⊎◌, inl, inr, none, some, List, [], ◌∷◌, ◌++◌, arith,
  ◌==◌, Option-cases, Bool-cases, get_elem?, set,
}
use caesium_cxx.LightPtr.{
  LightPtr, null_ptr, Store, create, load, retain, put_back, copy, destroy, same_count, assign,
  Call, creates, copies, destroys, moves, assigns, Program, call,
}
use caesium_cxx.LightPtr.Counting.{
  hits, shares, holders, Counted, Counted-ext, create-Counted, retain-Counted, put_back-Counted,
}

abbrev Vars : Type 0
Vars = List LightPtr

holders-append :
    (a : ℕ) (xs : Vars) (x : LightPtr) → holders a (xs ++ x ∷ []) ≡ holders a xs + shares x.count a
unfolding holders
holders-append a [] x = omega arith
holders-append a (y ∷ xs) x = omega (arith, holders-append a xs x)

holders-set :
    (a : ℕ) (xs : Vars) (i : ℕ) (x y : LightPtr)
    → get_elem? xs i ≡ some x
    → holders a (set xs i y) + shares x.count a ≡ holders a xs + shares y.count a
unfolding holders
holders-set a [] i x y e = cc
holders-set a (z ∷ xs) zero x y e = ground arith
holders-set a (z ∷ xs) (suc i) x y e = omega (arith, holders-set a xs i x y e)

holders-pos :
    (xs : Vars) (i : ℕ) (x : LightPtr) (b : ℕ)
    → get_elem? xs i ≡ some x
    → x.count ≡ some b
    → 0 < holders b xs
unfolding holders
holders-pos [] i x b e f = cc
holders-pos (z ∷ xs) zero x b e f = ground arith
holders-pos (z ∷ xs) (suc i) x b e f = omega (arith, holders-pos xs i x b e f)

get-append_last :
    (xs : Vars) (y : LightPtr) (j : ℕ) (x : LightPtr)
    → get_elem? (xs ++ y ∷ []) j ≡ some x
    → (get_elem? xs j ≡ some x) ⊎ (x ≡ y)
get-append_last [] y zero x e = ground arith
get-append_last [] y (suc j) x e = cc
get-append_last (z ∷ xs) y zero x e = inl e
get-append_last (z ∷ xs) y (suc j) x e = get-append_last xs y j x e

get-set :
    (xs : Vars) (i : ℕ) (y : LightPtr) (j : ℕ) (x : LightPtr)
    → get_elem? (set xs i y) j ≡ some x
    → (get_elem? xs j ≡ some x) ⊎ (x ≡ y)
get-set [] i y j x e = cc
get-set (z ∷ xs) zero y zero x e = ground arith
get-set (z ∷ xs) zero y (suc j) x e = inl e
get-set (z ∷ xs) (suc i) y zero x e = inl e
get-set (z ∷ xs) (suc i) y (suc j) x e = get-set xs i y j x e

-- The store counts the program's variables, and a pointer to block `b` points to value `b`.
pub record Inv (p : Program) : Type 0 where
  pub store : Counted (λ a. holders a p.vars) p.store
  pub owned :
      (i : ℕ) (x : LightPtr) (b : ℕ) → get_elem? p.vars i ≡ some x → x.count ≡ some b → x.value ≡ b

abbrev pub Var : Vars → ℕ → Type 0
Var xs i = (x : LightPtr) × (get_elem? xs i ≡ some x)

abbrev pub NonNull : Vars → ℕ → Type 0
NonNull xs i = (x : LightPtr) × (b : ℕ) × (get_elem? xs i ≡ some x) × (x.count ≡ some b)

-- A call names variables that there are, and assigns only between pointers that are not null.
abbrev pub IsSafe : Call → Vars → Type 0
IsSafe creates xs = Unit {0}
IsSafe (copies i) xs = Var xs i
IsSafe (destroys i) xs = Var xs i
IsSafe (moves i) xs = Var xs i
IsSafe (assigns i j) xs = NonNull xs i × NonNull xs j

abbrev Kept : Call → Program → Type 0
Kept c p = (q : Program) × (call c p ≡ some q) × Inv q

module _ (p : Program) (inv : Inv p) where
  open inv use {store, owned}

  abbrev h : ℕ → ℕ
  h a = holders a p.vars

  owned-append :
      (y : LightPtr)
      → ((b : ℕ) → y.count ≡ some b → y.value ≡ b)
      → (i : ℕ) (x : LightPtr) (b : ℕ) → get_elem? (p.vars ++ y ∷ []) i ≡ some x
      → x.count ≡ some b
      → x.value ≡ b
  owned-append y own i x b e f = elim (get-append_last p.vars y i x e) [
    | inl old ↦ owned i x b old f
    | inr new ↦ rw new (own b (rw (← new) f))
  ]

  owned-set :
      (k : ℕ) (y : LightPtr)
      → ((b : ℕ) → y.count ≡ some b → y.value ≡ b)
      → (i : ℕ) (x : LightPtr) (b : ℕ) → get_elem? (set p.vars k y) i ≡ some x
      → x.count ≡ some b
      → x.value ≡ b
  owned-set k y own i x b e f = elim (get-set p.vars k y i x e) [
    | inl old ↦ owned i x b old f
    | inr new ↦ rw new (own b (rw (← new) f))
  ]

  append-Inv :
      (y : LightPtr) (t : Store)
      → ((b : ℕ) → y.count ≡ some b → y.value ≡ b)
      → Counted (λ a. holders a (p.vars ++ y ∷ [])) t
      → Inv (record { vars = p.vars ++ y ∷ []; store = t })
  append-Inv y t own c = record { store = c; owned = owned-append y own }

  set-Inv :
      (k : ℕ) (y : LightPtr) (t : Store)
      → ((b : ℕ) → y.count ≡ some b → y.value ≡ b)
      → Counted (λ a. holders a (set p.vars k y)) t
      → Inv (record { vars = set p.vars k y; store = t })
  set-Inv k y t own c = record { store = c; owned = owned-set k y own }

  call-creates : Kept creates p
  unfolding call create
  call-creates = (
    _,
    refl,
    append-Inv _ _ (λ b e. ground arith)
        (create-Counted h _ p.store store (λ a. holders-append a p.vars _)),
  )

  call-copies : (i : ℕ) → Var p.vars i → Kept (copies i) p
  unfolding call copy
  call-copies i (x, e) = elim (Option-cases x.count) [
    | inl null ↦ (
      record p { vars = p.vars ++ x ∷ [] },
      ground (arith, e, null),
      append-Inv x p.store (λ b. owned i x b e)
          (Counted-ext h _ p.store store (λ a. ground (arith, holders-append a p.vars x))),
    )
    | inr (b, here) ↦
        let (t, r, c, _) =
          retain-Counted h (λ a. holders a (p.vars ++ x ∷ [])) p.store store b
            (holders-pos p.vars i x b e here) (λ a. ground (arith, holders-append a p.vars x)) in
        (
          record { vars = p.vars ++ x ∷ []; store = t },
          ground (arith, e, here, r),
          append-Inv x t (λ b'. owned i x b' e) c,
        )
  ]

  call-destroys : (i : ℕ) → Var p.vars i → Kept (destroys i) p
  unfolding call destroy
  call-destroys i (x, e) = elim (Option-cases x.count) [
    | inl null ↦ (
      record p { vars = set p.vars i null_ptr },
      ground (arith, e, null),
      set-Inv i null_ptr p.store (λ b f. cc)
          (Counted-ext h _ p.store store
            (λ a. ground (arith, null, holders-set a p.vars i x null_ptr e))),
    )
    | inr (b, here) ↦
        let (t, r, c, _) =
          put_back-Counted h (λ a. holders a (set p.vars i null_ptr)) p.store store x b here
            (owned i x b e here) (holders-pos p.vars i x b e here)
            (λ a. ground (arith, here, holders-set a p.vars i x null_ptr e)) in
        (
          record { vars = set p.vars i null_ptr; store = t },
          ground (arith, e, here, r),
          set-Inv i null_ptr t (λ b' f. cc) c,
        )
  ]

  call-moves : (i : ℕ) → Var p.vars i → Kept (moves i) p
  unfolding call
  call-moves i (x, e) = (
    record p { vars = set p.vars i null_ptr ++ x ∷ [] },
    ground (arith, e),
    record {
      store = Counted-ext h _ p.store store (λ a.
          ground (
            arith,
            holders-set a p.vars i x null_ptr e,
            holders-append a (set p.vars i null_ptr) x,
          ));
      owned = λ j y b f g. elim (get-append_last (set p.vars i null_ptr) x j y f) [
        | inl old ↦ owned-set i null_ptr (λ b' k. cc) j y b old g
        | inr new ↦ rw new (owned i x b e (rw (← new) g))
      ];
    },
  )

  call-assigns : (i j : ℕ) → NonNull p.vars i → NonNull p.vars j → Kept (assigns i j) p
  unfolding call assign same_count
  call-assigns i j (x, b, e, here) (y, c, f, there) = elim (Bool-cases (b == c)) [
    | inl same ↦ (
      record p { vars = set p.vars i x },
      ground (arith, e, f, here, there, same),
      set-Inv i x p.store (λ b'. owned i x b' e)
          (Counted-ext h _ p.store store (λ a. ground (arith, holders-set a p.vars i x x e))),
    )
    | inr apart ↦
        let less : ℕ → ℕ = λ a. h a - hits b a in
        let held = holders-pos p.vars i x b e here in
        let held' = holders-pos p.vars j y c f there in
        let (t, r, n, _) =
          put_back-Counted h less p.store store x b here (owned i x b e here) held
            (λ a. ground (arith, held)) in
        let (u, r', n', _) =
          retain-Counted less (λ a. holders a (set p.vars i y)) t n c (ground (arith, held'))
            (λ a. ground (arith, held, here, there, holders-set a p.vars i x y e)) in
        (
          record { vars = set p.vars i y; store = u },
          ground (arith, e, f, here, there, apart, r, r'),
          set-Inv i y u (λ b'. owned j y b' f) n',
        )
  ]

-- Every safe call returns, with the counts right again: block `b` is allocated exactly while some
-- variable shares it, its count is their number, and the value of each block that has gone was
-- deleted exactly once.
pub call-Inv :
    (c : Call) (p : Program) → Inv p → IsSafe c p.vars → (q : Program) × (call c p ≡ some q) × Inv q
call-Inv creates p inv safe = call-creates p inv
call-Inv (copies i) p inv safe = call-copies p inv i safe
call-Inv (destroys i) p inv safe = call-destroys p inv i safe
call-Inv (moves i) p inv safe = call-moves p inv i safe
call-Inv (assigns i j) p inv (a, b) = call-assigns p inv i j a b

-- An assignment with a null on exactly one side follows the null pointer, whatever the store.
assign-null_faults :
    (x y : LightPtr) (s : Store) (b : ℕ)
    → ((x.count ≡ none) × (y.count ≡ some b)) ⊎ ((x.count ≡ some b) × (y.count ≡ none))
    → assign x y s ≡ none
unfolding assign same_count put_back retain load
assign-null_faults x y s b (inl (e, f)) = ground (arith, e, f)
assign-null_faults x y s b (inr (e, f)) = ground (arith, e, f)
