-- ===== src/Prioritized/Order.antt =====
-- The order of entries in the queue, which is the order of `entry::operator <`.
use caesium_cxx.Base.{
  ltb, ℕ, ◌≡◌, refl, inl, inr, Bool, true, false, ◌&&◌, ◌||◌, List, [], ◌∷◌, arith, ◌==◌,
  Bool-cases,
}
use caesium_cxx.Prioritized.{Entry, before, insert_entry}

module _ {A : Type 0} where
  -- All entries of a list come after `e`, or all come before it.
  unfoldable pub all_after : Entry A → List (Entry A) → Bool
  all_after e [] = true
  all_after e (x ∷ xs) = before e x && all_after e xs

  unfoldable pub all_before : Entry A → List (Entry A) → Bool
  all_before e [] = true
  all_before e (x ∷ xs) = before x e && all_before e xs

  unfoldable pub rises : List (Entry A) → Bool
  rises [] = true
  rises (x ∷ xs) = all_after x xs && rises xs

  unfoldable pub falls : List (Entry A) → Bool
  falls [] = true
  falls (x ∷ xs) = all_before x xs && falls xs

  -- Whether an entry with a number is in the list.
  unfoldable pub has : ℕ → List (Entry A) → Bool
  has s [] = false
  has s (x ∷ xs) = (x.seq == s) || has s xs

  pub before_trans : (x y z : Entry A) → before x y ≡ true → before y z ≡ true → before x z ≡ true
  unfolding before
  before_trans x y z h k = ground (arith, h, k)

  pub all_after_trans :
      (x y : Entry A) (es : List (Entry A))
      → before x y ≡ true
      → all_after y es ≡ true
      → all_after x es ≡ true
  unfolding all_after
  all_after_trans x y [] h k = refl
  all_after_trans x y (e ∷ es) h k =
      ground (arith, k, before_trans x y e h, all_after_trans x y es h)

  pub all_before_trans :
      (x y : Entry A) (es : List (Entry A))
      → before x y ≡ true
      → all_before x es ≡ true
      → all_before y es ≡ true
  unfolding all_before
  all_before_trans x y [] h k = refl
  all_before_trans x y (e ∷ es) h k =
      ground (arith, k, before_trans e x y, all_before_trans x y es h)

  pub all_after-insert_entry :
      (x e : Entry A) (es : List (Entry A))
      → before x e ≡ true
      → all_after x es ≡ true
      → all_after x (insert_entry e es) ≡ true
  unfolding all_after insert_entry
  all_after-insert_entry x e [] h k = ground (arith, h)
  all_after-insert_entry x e (y ∷ ys) h k = elim (Bool-cases (before e y)) [
    | inl first ↦ rw first (ground (arith, h, k))
    | inr later ↦ elim (Bool-cases (before y e)) [
      | inl after ↦ rw (later, after) (ground (arith, k, all_after-insert_entry x e ys h))
      | inr equal ↦ rw (later, equal) k
    ]
  ]

  pub rises-insert_entry :
      (e : Entry A) (es : List (Entry A)) → rises es ≡ true → rises (insert_entry e es) ≡ true
  unfolding rises all_after insert_entry
  rises-insert_entry e [] h = refl
  rises-insert_entry e (y ∷ ys) h = elim (Bool-cases (before e y)) [
    | inl first ↦ rw first (ground (arith, first, h, all_after_trans e y ys first))
    | inr later ↦ elim (Bool-cases (before y e)) [
      | inl after ↦
          rw (later, after)
            (ground (arith, h, all_after-insert_entry y e ys after, rises-insert_entry e ys))
      | inr equal ↦ rw (later, equal) h
    ]
  ]

  pub has-insert_entry :
      (s : ℕ) (e : Entry A) (es : List (Entry A))
      → has s es ≡ true
      → has s (insert_entry e es) ≡ true
  unfolding has insert_entry
  has-insert_entry s e [] h = cc
  has-insert_entry s e (y ∷ ys) h = elim (Bool-cases (before e y)) [
    | inl first ↦ rw first (ground (arith, h))
    | inr later ↦ elim (Bool-cases (before y e)) [
      | inl after ↦ rw (later, after) (ground (arith, h, has-insert_entry s e ys))
      | inr equal ↦ rw (later, equal) h
    ]
  ]

  -- Lesser ranks first, and lesser numbers first where the ranks are equal.
  abbrev pub earlier : Entry A → Entry A → Bool
  earlier x y = ltb x.rank y.rank || ((x.rank == y.rank) && ltb x.seq y.seq)

  abbrev pub all_earlier : Entry A → List (Entry A) → Bool
  all_earlier e [] = true
  all_earlier e (x ∷ xs) = earlier x e && all_earlier e xs

  -- A list, the last one first, that went from lesser to greater ranks and, at one rank, numbers.
  abbrev pub ranked : List (Entry A) → Bool
  ranked [] = true
  ranked (x ∷ xs) = all_earlier x xs && ranked xs

  before-earlier : (x y : Entry A) → before x y ≡ earlier x y
  unfolding before
  before-earlier x y = ground arith

  all_before-all_earlier :
      (e : Entry A) (es : List (Entry A)) → all_before e es ≡ true → all_earlier e es ≡ true
  unfolding all_before
  all_before-all_earlier e [] h = refl
  all_before-all_earlier e (x ∷ xs) h =
      ground (arith, h, before-earlier x e, all_before-all_earlier e xs)

  pub falls-ranked : (es : List (Entry A)) → falls es ≡ true → ranked es ≡ true
  unfolding falls
  falls-ranked [] h = refl
  falls-ranked (x ∷ xs) h = ground (arith, h, all_before-all_earlier x xs, falls-ranked xs)
