-- ===== src/MagicRef/Roots.antt =====
-- What `mark_roots` keeps of the counts.
use caesium_cxx.Base.{
  ℕ, zero, suc, ◌+◌, ◌-◌, ◌≤◌, ◌<◌, ◌≡◌, refl, sym, subst, ◌∙◌, inl, inr, Bool, true, false, ◌&&◌,
  Option, none, some, List, [], ◌∷◌, arith, ltb, ◌==◌, Bool-cases, Option-cases, contains, update,
}
use caesium_cxx.MagicRef.{black, purple, same_colour, Trace, Links, erase_link, next_link}
use caesium_cxx.MagicRef.Cycles.{first_link, mark_root, mark_from, mark_roots}
use caesium_cxx.MagicRef.Edges.{Chain, IsBounded, black_not_grey}
use caesium_cxx.MagicRef.Marking.{
  Counted, is_grey, Marked, Marked-refl, Marked-trans, mark_grey-Marks, unmarked_le,
}

contains-erase_link :
    (x l : ℕ) (xs : List ℕ) → contains x (erase_link l xs) ≡ true → contains x xs ≡ true
unfolding contains erase_link
contains-erase_link x l [] h = h
contains-erase_link x l (y ∷ ys) h = ground (arith, contains-erase_link x l ys, h)

contains-erase_link_other :
    (x l : ℕ) (xs : List ℕ)
    → contains x xs ≡ true
    → (x == l) ≡ false
    → contains x (erase_link l xs) ≡ true
unfolding contains erase_link
contains-erase_link_other x l [] h k = h
contains-erase_link_other x l (y ∷ ys) h k = ground (arith, contains-erase_link_other x l ys, h, k)

next_link_lem : (l y : ℕ) (xs : List ℕ) → next_link l xs ≡ some y → (l < y) × (contains y xs ≡ true)
unfolding contains next_link
next_link_lem l y [] e = cc
next_link_lem l y (x ∷ xs) e = ground (arith, next_link_lem l y xs, e)

-- Whether a link comes before the iterator.
abbrev pub behind : ℕ → Option ℕ → Bool
behind x none = true
behind x (some l) = ltb x l

-- How far the iterator is from the end, at most.
remaining : ℕ → Option ℕ → ℕ
remaining n none = 0
remaining n (some l) = n - l

remaining_le : (n : ℕ) (it : Option ℕ) → remaining n it ≤ n
unfolding remaining
remaining_le n none = omega arith
remaining_le n (some l) = omega arith

contains-first_link : (l : ℕ) (xs : List ℕ) → first_link xs ≡ some l → contains l xs ≡ true
unfolding contains
contains-first_link l [] e = cc
contains-first_link l (x ∷ xs) e = ground (arith, e)

-- The iterator moves on to a greater link.
ahead : (x l : ℕ) (xs : List ℕ) → x ≤ l → behind x (next_link l xs) ≡ true
ahead x l xs h = elim (Option-cases (next_link l xs)) [
  | inl end ↦ rw end refl
  | inr (y, k) ↦ let (up, there) = next_link_lem l y xs k in rw k (ground arith)
]

module _ (n : ℕ) (ext : ℕ → ℕ) where
  -- Counts are exact, and roots that are not being traced are referred to.
  pub record Ready (s : Links) : Type 0 where
    pub counted : Counted n ext s.children (λ x. 0) s.trace
    pub low : (x : ℕ) → contains x s.roots ≡ true → x < n
    pub referred :
        (x : ℕ)
        → contains x s.roots ≡ true
        → same_colour (s.trace.colour x) black ≡ true
        → 0 < s.trace.ref_count x

  -- What the loop changes from `s` to `s'`, starting at `it`: what turns grey is under a root that
  -- it came to, and roots behind it stay.
  pub record Stepped (it : Option ℕ) (s s' : Links) : Type 0 where
    pub ready : Ready s'
    pub marked : Marked n ext s.children s.trace s'.trace
    pub same : s'.children ≡ s.children
    pub chosen : s'.to_delete ≡ s.to_delete
    pub kept : (x : ℕ) → contains x s.roots ≡ true → behind x it ≡ true → contains x s'.roots ≡ true
    pub chains :
        (x : ℕ)
        → is_grey s.trace x ≡ false
        → is_grey s'.trace x ≡ true
        → (r : ℕ) × (contains r s'.roots ≡ true)
          × (is_grey s'.trace r ≡ true)
          × Chain s.children r x

  -- What one turn of the loop does with root `l`.
  record Turned (l : ℕ) (s s' : Links) : Type 0 where
    ready : Ready s'
    marked : Marked n ext s.children s.trace s'.trace
    same : s'.children ≡ s.children
    chosen : s'.to_delete ≡ s.to_delete
    kept : (x : ℕ) → contains x s.roots ≡ true → (x == l) ≡ false → contains x s'.roots ≡ true
    chains :
        (x : ℕ)
        → is_grey s.trace x ≡ false
        → is_grey s'.trace x ≡ true
        → (contains l s'.roots ≡ true) × (is_grey s'.trace l ≡ true) × Chain s.children l x

  mark_grey-Ready :
      (s : Links) (t : Trace)
      → Ready s
      → Counted n ext s.children (λ x. 0) t
      → Marked n ext s.children s.trace t
      → Ready (record s { trace = t })
  mark_grey-Ready s t r v a = record {
    counted = v;
    low = r.low;
    referred = λ x h b.
        let (c, k) = a.others x (black_not_grey (t.colour x) b) in
        omega (arith, k, r.referred x h (subst (λ d. same_colour d black ≡ true) c b));
  }

  erase-Ready :
      (s : Links) (l : ℕ)
      → Ready s
      → Ready (record s { buffered = update s.buffered l false; roots = erase_link l s.roots })
  erase-Ready s l r = record {
    counted = r.counted;
    low = λ x h. r.low x (contains-erase_link x l s.roots h);
    referred = λ x h. r.referred x (contains-erase_link x l s.roots h);
  }

  mark_root-Turned :
      (fuel l : ℕ) (s : Links)
      → ((m : ℕ) → IsBounded n (s.children m))
      → Ready s
      → contains l s.roots ≡ true
      → n < fuel
      → (s' : Links) × (mark_root fuel l s ≡ some s') × Turned l s s'
  unfolding mark_root
  mark_root-Turned fuel l s bounded r found few =
      elim (Bool-cases (same_colour (s.trace.colour l) purple && ltb 0 (s.trace.ref_count l))) [
        | inl go ↦
            let (t, e, v, a, g, chain) =
              mark_grey-Marks n ext s.children bounded fuel l (λ x. 0) s.trace (r.low l found)
                r.counted (omega (arith, unmarked_le n s.trace.colour)) in
            (
              record s { trace = t },
              ground (arith, go, e),
              record {
                ready = mark_grey-Ready s t r v a;
                marked = a;
                same = refl;
                chosen = refl;
                kept = λ x h k. h;
                chains = λ x h k. (found, g, chain x h k);
              },
            )
        | inr stop ↦ (
          record s { buffered = update s.buffered l false; roots = erase_link l s.roots },
          ground (arith, stop, r.referred l found),
          record {
            ready = erase-Ready s l r;
            marked = Marked-refl n ext s.children s.trace;
            same = refl;
            chosen = refl;
            kept = λ x h k. contains-erase_link_other x l s.roots h k;
            chains = λ x h k. cc;
          },
        )
      ]

  -- The rest of the loop after a turn.
  Stepped-turn :
      (l : ℕ) (s u v : Links)
      → contains l s.roots ≡ true
      → Turned l s u
      → Stepped (next_link l s.roots) u v
      → Stepped (some l) s v
  Stepped-turn l s u v found a b = record {
    ready = b.ready;
    marked =
        Marked-trans n ext s.children s.trace u.trace v.trace a.marked
          (subst (λ ch. Marked n ext ch u.trace v.trace) a.same b.marked);
    same = b.same ∙ a.same;
    chosen = b.chosen ∙ a.chosen;
    kept = λ x h k. b.kept x (a.kept x h (ground arith)) (ahead x l s.roots (ground arith));
    chains = λ x h k. elim (Bool-cases (is_grey u.trace x)) [
      | inl early ↦
          let (still, g, c) = a.chains x h early in
          (l, b.kept l still (ahead l l s.roots (omega arith)), b.marked.keeps l g, c)
      | inr late ↦
          let (r, still, g, c) = b.chains x late k in
          (r, still, g, subst (λ ch. Chain ch r x) a.same c)
    ];
  }

  mark_from-Stepped :
      (fuel : ℕ) (it : Option ℕ) (s : Links)
      → ((m : ℕ) → IsBounded n (s.children m))
      → Ready s
      → ((l : ℕ) → it ≡ some l → contains l s.roots ≡ true)
      → n + remaining n it < fuel
      → (s' : Links) × (mark_from fuel it s ≡ some s') × Stepped it s s'
  unfolding mark_from remaining
  mark_from-Stepped zero it s bounded r at few = absurd (omega arith)
  mark_from-Stepped (suc fuel) none s bounded r at few = (
    s,
    refl,
    record {
      ready = r;
      marked = Marked-refl n ext s.children s.trace;
      same = refl;
      chosen = refl;
      kept = λ x h k. h;
      chains = λ x h k. cc;
    },
  )
  mark_from-Stepped (suc fuel) (some l) s bounded r at few =
      let found = at l refl in
      let (u, e, a) = mark_root-Turned fuel l s bounded r found (omega (arith, r.low l found)) in
      let (v, e', b) =
        mark_from-Stepped fuel (next_link l s.roots) u
          (subst (λ ch. (m : ℕ) → IsBounded n (ch m)) (sym a.same) bounded) a.ready
          (λ y k. let (up, there) = next_link_lem l y s.roots k in a.kept y there (ground arith))
          (elim (Option-cases (next_link l s.roots)) [
            | inl end ↦ rw end (omega (arith, r.low l found))
            | inr (y, k) ↦
                let (up, there) = next_link_lem l y s.roots k in rw k (omega (arith, r.low y there))
          ]) in
      (v, ground (arith, e, e'), Stepped-turn l s u v found a b)

  pub mark_roots-Stepped :
      (fuel : ℕ) (s : Links)
      → ((m : ℕ) → IsBounded n (s.children m))
      → Ready s
      → n + n < fuel
      → (s' : Links) × (mark_roots fuel s ≡ some s') × Stepped (first_link s.roots) s s'
  unfolding mark_roots
  mark_roots-Stepped fuel s bounded r few =
      mark_from-Stepped fuel (first_link s.roots) s bounded r
        (λ l e. contains-first_link l s.roots e)
        (omega (arith, remaining_le n (first_link s.roots)))
