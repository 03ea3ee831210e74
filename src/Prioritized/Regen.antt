-- ===== src/Prioritized/Regen.antt =====
-- What `check_regen` makes of the queue.
use caesium_cxx.Base.{
  ℕ, suc, ◌+◌, ◌≡◌, refl, ap, subst, inl, inr, Bool, true, false, not, ◌&&◌, ◌||◌, List, [], ◌∷◌,
  arith, ◌==◌, Bool-cases, length,
}
use caesium_cxx.Prioritized.{Entry, Transaction, before, insert_entry, entry, refill, check_regen}
use caesium_cxx.Prioritized.Order.{rises, has, rises-insert_entry}

-- No two entries have the same number.
unfoldable pub distinct : {A : Type 0} → List (Entry A) → Bool
unfolding has
distinct [] = true
distinct (e ∷ es) = not (has e.seq es) && distinct es

-- An entry with a new number is before or after every other.
fresh_before :
    {A : Type 0} (x y : Entry A) → (x.seq == y.seq) ≡ false → before x y ≡ false → before y x ≡ true
unfolding before
fresh_before x y h k = ground (arith, h, k)

module _ {A : Type 0} where
  length-insert_entry :
      (e : Entry A) (es : List (Entry A))
      → has e.seq es ≡ false
      → length (insert_entry e es) ≡ suc (length es)
  unfolding has insert_entry
  length-insert_entry e [] h = refl
  length-insert_entry e (y ∷ ys) h = elim (Bool-cases (before e y)) [
    | inl first ↦ rw first refl
    | inr later ↦
        let after = fresh_before e y (ground (arith, h)) later in
        rw (later, after) (ap suc (length-insert_entry e ys (ground (arith, h))))
  ]

  has-insert_entry_fresh :
      (s : ℕ) (e : Entry A) (es : List (Entry A))
      → has e.seq es ≡ false
      → has s (insert_entry e es) ≡ ((e.seq == s) || has s es)
  unfolding has insert_entry
  has-insert_entry_fresh s e [] h = refl
  has-insert_entry_fresh s e (y ∷ ys) h = elim (Bool-cases (before e y)) [
    | inl first ↦ rw first refl
    | inr later ↦
        let after = fresh_before e y (ground (arith, h)) later in
        rw (later, after) (ground (arith, has-insert_entry_fresh s e ys))
  ]

module _ {W A : Type 0} (rank : W → ℕ → ℕ) (w : W) where
  -- Every entry has the rank of its node.
  unfoldable pub current : List (Entry A) → Bool
  current [] = true
  current (e ∷ es) = (e.rank == rank w e.node) && current es

  current-insert_entry :
      (e : Entry A) (es : List (Entry A))
      → (e.rank == rank w e.node) ≡ true
      → current es ≡ true
      → current (insert_entry e es) ≡ true
  unfolding current insert_entry
  current-insert_entry e [] h k = ground (arith, h)
  current-insert_entry e (y ∷ ys) h k = elim (Bool-cases (before e y)) [
    | inl first ↦ rw first (ground (arith, h, k))
    | inr later ↦ elim (Bool-cases (before y e)) [
      | inl after ↦ rw (later, after) (ground (arith, k, current-insert_entry e ys h))
      | inr equal ↦ rw (later, equal) k
    ]
  ]

  record Refilled (es neu neu' : List (Entry A)) : Type 0 where
    rising : rises neu' ≡ true
    ranks : current neu' ≡ true
    size : length neu' ≡ length es + length neu
    members : (s : ℕ) → has s neu' ≡ (has s es || has s neu)

  refill-Refilled :
      (es neu : List (Entry A))
      → distinct es ≡ true
      → ((s : ℕ) → has s es ≡ true → has s neu ≡ false)
      → rises neu ≡ true
      → current neu ≡ true
      → Refilled es neu (refill rank w es neu)
  unfolding refill distinct has entry
  refill-Refilled [] neu d apart r c = record {
    rising = r;
    ranks = c;
    size = omega arith;
    members = λ s. refl;
  }
  refill-Refilled (e ∷ es) neu d apart r c =
      let x = entry rank w e.node e.action e.seq in
      let fresh : has e.seq neu ≡ false = apart e.seq (ground arith) in
      let rest =
        refill-Refilled es (insert_entry x neu) (ground (arith, d))
          (λ s h. elim (Bool-cases (e.seq == s)) [
            | inl hit ↦
                let same : e.seq ≡ s = ground arith in
                let old : has e.seq es ≡ false = ground (arith, d) in
                cc (subst (λ m. has m es ≡ false) same old)
            | inr miss ↦ ground (arith, miss, has-insert_entry_fresh s x neu fresh, apart s, h)
          ])
          (rises-insert_entry x neu r) (current-insert_entry x neu (ground arith) c) in
      record {
        rising = rest.rising;
        ranks = rest.ranks;
        size = omega (arith, rest.size, length-insert_entry x neu fresh);
        members = λ s. ground (arith, rest.members s, has-insert_entry_fresh s x neu fresh);
      }

-- When the queue is to be sorted again and its entries have different numbers, `check_regen` leaves
-- a queue that is in order, in which every entry has the rank that its node has now, with as many
-- entries of the same numbers, and it is not to be sorted again.
pub check_regen-sorts :
    {W A : Type 0} (rank : W → ℕ → ℕ) (t : Transaction W A)
    → t.to_regen ≡ true
    → distinct t.prioritized_q ≡ true
    → (rises (check_regen rank t).prioritized_q ≡ true)
      × (current rank t.world (check_regen rank t).prioritized_q ≡ true)
      × (length (check_regen rank t).prioritized_q ≡ length t.prioritized_q)
      × ((s : ℕ) → has s (check_regen rank t).prioritized_q ≡ has s t.prioritized_q)
      × ((check_regen rank t).to_regen ≡ false)
unfolding check_regen rises current has
check_regen-sorts rank t on d =
    let r = refill-Refilled rank t.world t.prioritized_q [] d (λ s h. refl) refl refl in
    rw on (r.rising, r.ranks, omega (arith, r.size), λ s. ground (arith, r.members s), refl)
