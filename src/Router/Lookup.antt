-- ===== src/Router/Lookup.antt =====
-- What a new route changes of the look-up.
use caesium_cxx.Base.{
  ℕ, ◌≤◌, ◌≡◌, refl, sym, ap, ◌∙◌, inl, inr, true, List, [], ◌∷◌, ◌++◌, arith, ltb, ◌==◌,
  if◌then◌else◌, Bool-cases,
}
use caesium_cxx.Router.{Table, insert, lower_bound, take_equal, targets}

unfoldable pub AtLeast : ℕ → Table → Type 0
AtLeast x [] = Unit
AtLeast x ((k, m) ∷ rest) = (x ≤ k) × AtLeast x rest

-- The selectors do not go down, as in every multimap.
unfoldable pub Sorted : Table → Type 0
Sorted [] = Unit
Sorted ((k, m) ∷ rest) = AtLeast k rest × Sorted rest

-- The nodes of all entries with the selector, wherever they stand.
unfoldable pub entries_of : ℕ → Table → List ℕ
entries_of sel [] = []
entries_of sel ((k, m) ∷ rest) =
    let more = entries_of sel rest in if k == sel then m ∷ more else more

above_lem : (sel x : ℕ) (t : Table) → AtLeast x t → ltb sel x ≡ true → entries_of sel t ≡ []
unfolding AtLeast entries_of
above_lem sel x [] h p = refl
above_lem sel x ((k, m) ∷ rest) (le, h) p = ground (arith, p, le, above_lem sel x rest h p)

take_equal-entries :
    (sel : ℕ) (t : Table) → Sorted t → AtLeast sel t → take_equal sel t ≡ entries_of sel t
unfolding take_equal entries_of Sorted AtLeast
take_equal-entries sel [] s h = refl
take_equal-entries sel ((k, m) ∷ rest) (s, s') (le, h) = elim (Bool-cases (k == sel)) [
  | inl e ↦ ground (arith, e, take_equal-entries sel rest s' h)
  | inr e ↦ ground (arith, e, le, above_lem sel k rest s)
]

AtLeast-of_le : (x y : ℕ) (t : Table) → x ≤ y → AtLeast y t → AtLeast x t
unfolding AtLeast
AtLeast-of_le x y [] le h = tt
AtLeast-of_le x y ((k, m) ∷ rest) le (h, hs) = (omega (arith, le, h), AtLeast-of_le x y rest le hs)

targets-entries : (sel : ℕ) (t : Table) → Sorted t → targets sel t ≡ entries_of sel t
unfolding targets lower_bound entries_of Sorted take_equal AtLeast
targets-entries sel [] s = refl
targets-entries sel ((k, m) ∷ rest) (s, s') = elim (Bool-cases (ltb k sel)) [
  | inl e ↦ ground (arith, e, targets-entries sel rest s')
  | inr e ↦
      let le : sel ≤ k = ground (arith, e) in
      rw (e, targets)
        (take_equal-entries sel ((k, m) ∷ rest) (s, s') (le, AtLeast-of_le sel k rest le s))
]

entries_of-insert :
    (sel new n : ℕ) (t : Table)
    → Sorted t
    → entries_of sel (insert new n t)
      ≡ (if new == sel then entries_of sel t ++ n ∷ [] else entries_of sel t)
unfolding entries_of insert Sorted
entries_of-insert sel new n [] s = refl
entries_of-insert sel new n ((k, m) ∷ rest) (s, s') = elim (Bool-cases (ltb new k)) [
  | inl e ↦ ground (arith, e, above_lem new k rest s)
  | inr e ↦ ground (arith, e, entries_of-insert sel new n rest s')
]

insert-AtLeast : (x new n : ℕ) (t : Table) → x ≤ new → AtLeast x t → AtLeast x (insert new n t)
unfolding insert AtLeast
insert-AtLeast x new n [] le h = (le, tt)
insert-AtLeast x new n ((k, m) ∷ rest) le (h, hs) = elim (Bool-cases (ltb new k)) [
  | inl e ↦ rw e (le, (h, hs))
  | inr e ↦ rw e (h, insert-AtLeast x new n rest le hs)
]

pub insert-Sorted : (new n : ℕ) (t : Table) → Sorted t → Sorted (insert new n t)
unfolding insert Sorted AtLeast
insert-Sorted new n [] s = (tt, tt)
insert-Sorted new n ((k, m) ∷ rest) (s, s') = elim (Bool-cases (ltb new k)) [
  | inl e ↦
      let le : new ≤ k = ground (arith, e) in rw e ((le, AtLeast-of_le new k rest le s), (s, s'))
  | inr e ↦ rw e (insert-AtLeast k new n rest (ground (arith, e)) s, insert-Sorted new n rest s')
]

-- In a table whose selectors do not go down, the look-up finds just the nodes of the entries with
-- an equal selector, in their order; and a new entry keeps the order of the table, comes last of
-- those that are found for its selector, and changes nothing for any other selector.
pub targets-insert :
    (sel new n : ℕ) (t : Table)
    → Sorted t
    → (targets sel t ≡ entries_of sel t)
      × Sorted (insert new n t)
      × (targets sel (insert new n t)
          ≡ (if new == sel then targets sel t ++ n ∷ [] else targets sel t))
targets-insert sel new n t s =
    let found = targets-entries sel t s in
    (
      found,
      insert-Sorted new n t s,
      targets-entries sel (insert new n t) (insert-Sorted new n t s)
          ∙ entries_of-insert sel new n t s
          ∙ ap (λ l. if new == sel then l ++ n ∷ [] else l) (sym found),
    )
