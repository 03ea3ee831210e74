-- ===== src/MagicRef/Scanning.antt =====
-- What `scan` and `scan_black` keep of the counts.
use caesium_cxx.Base.{
  ℕ, zero, suc, ◌+◌, ◌≤◌, ◌<◌, ◌≡◌, refl, subst, inl, inr, true, false, Option, some, List, [], ◌∷◌,
  arith, ltb, ◌==◌, Bool-cases, count, mod_up,
}
use caesium_cxx.MagicRef.{
  count_mod, Colour, black, grey, white, purple, same_colour, Trace, set_colour, count_up,
  blacken_children, scan_black, scan_children, scan,
}
use caesium_cxx.MagicRef.Edges.{
  tally, tally-update, tally_le, from_live, from_any, live, IsBounded, black_not_grey,
  black_not_white, grey_not_black, grey_dead, dead_lem,
}
use caesium_cxx.MagicRef.Marking.{is_grey}

-- What a link may still be recoloured.
abbrev pub unsettled : ℕ → Colour → ℕ
unsettled m black = 0
unsettled m grey = 2
unsettled m white = 1
unsettled m purple = 1

-- A colour that is not black costs at least one step, and grey two.
black_lem : (m : ℕ) (c : Colour) → same_colour c black ≡ false → 1 ≤ unsettled m c
black_lem m black h = cc
black_lem m grey h = omega arith
black_lem m white h = omega arith
black_lem m purple h = omega arith

grey_costs : (m : ℕ) (c : Colour) → same_colour c grey ≡ true → 1 < unsettled m c
grey_costs m black h = cc
grey_costs m grey h = omega arith
grey_costs m white h = cc
grey_costs m purple h = cc

module _ (n : ℕ) (ext : ℕ → ℕ) (children : ℕ → List ℕ) where
  -- A count and `pend`, what is still to be added to it, are the number of references from outside
  -- and from live links.
  pub record Scanned (pend : ℕ → ℕ) (t : Trace) : Type 0 where
    pub exact : (x : ℕ) → t.ref_count x + pend x ≡ ext x + tally (from_live children x) n t.colour
    pub fits : (x : ℕ) → ext x + tally (from_any children x) n t.colour < count_mod
    pub free : (x : ℕ) → same_colour (t.colour x) white ≡ true → t.ref_count x ≡ 0
    pub traced :
        (m x : ℕ)
        → live (t.colour m) ≡ false
        → 0 < count x (children m)
        → same_colour (t.colour x) purple ≡ false

  -- What scanning changes from `t` to `t'`.
  pub record Swept (t t' : Trace) : Type 0 where
    pub unpurple :
        (x : ℕ) → same_colour (t.colour x) purple ≡ false → same_colour (t'.colour x) purple ≡ false
    pub settled : (x : ℕ) → is_grey t x ≡ false → is_grey t' x ≡ false
    pub under :
        (m x : ℕ)
        → is_grey t m ≡ true
        → is_grey t' m ≡ false
        → 0 < count x (children m)
        → is_grey t' x ≡ false
    pub fewer : tally unsettled n t'.colour ≤ tally unsettled n t.colour

  pub Swept-refl : (t : Trace) → Swept t t
  Swept-refl t = record {
    unpurple = λ x h. h;
    settled = λ x h. h;
    under = λ m x h k. cc;
    fewer = omega arith;
  }

  pub Swept-trans : (t u v : Trace) → Swept t u → Swept u v → Swept t v
  Swept-trans t u v a b = record {
    unpurple = λ x h. b.unpurple x (a.unpurple x h);
    settled = λ x h. b.settled x (a.settled x h);
    under = λ m x h k e. elim (Bool-cases (is_grey u m)) [
      | inl late ↦ b.under m x late k e
      | inr early ↦ b.settled x (a.under m x h early e)
    ];
    fewer = omega (arith, a.fewer, b.fewer);
  }

  live_le :
      (x : ℕ) (t : Trace)
      → tally (from_live children x) n t.colour ≤ tally (from_any children x) n t.colour
  live_le x t = tally_le (from_live children x) (from_any children x) n t.colour (λ m. ground arith)

  -- The loop counts a reference to a link that is black.
  count_up-Scanned :
      (l : ℕ) (pend : ℕ → ℕ) (ls : List ℕ) (t : Trace)
      → same_colour (t.colour l) black ≡ true
      → Scanned (λ x. count x (l ∷ ls) + pend x) t
      → Scanned (λ x. count x ls + pend x) (count_up l t)
  unfolding count
  count_up-Scanned l pend ls t dark v = record {
    exact = λ x. elim (Bool-cases (x == l)) [
      | inl here ↦
          let same : x ≡ l = ground arith in
          rw same
            (ground (arith, v.exact l, live_le l t, v.fits l, mod_up (t.ref_count l) count_mod))
      | inr other ↦ ground (arith, v.exact x)
    ];
    fits = v.fits;
    free = λ x h. ground (arith, v.free x h, h, black_not_white (t.colour l) dark);
    traced = v.traced;
  }

  -- A link that is neither black nor purple turns black when a reference to it is counted.
  blacken-Scanned :
      (l : ℕ) (pend : ℕ → ℕ) (ls : List ℕ) (t : Trace)
      → l < n
      → live (t.colour l) ≡ false
      → Scanned (λ x. count x (l ∷ ls) + pend x) t
      → Scanned
          (λ x. count x (children l) + (count x ls + pend x))
          (set_colour l black (count_up l t))
  unfolding count
  blacken-Scanned l pend ls t low dead v = record {
    exact = λ x. elim (Bool-cases (x == l)) [
      | inl here ↦
          let same : x ≡ l = ground arith in
          rw same (
            ground (
              arith,
              v.exact l,
              live_le l t,
              v.fits l,
              mod_up (t.ref_count l) count_mod,
              dead,
              tally-update (from_live children l) n t.colour l black low,
            ))
      | inr other ↦
          ground
            (arith, v.exact x, dead, tally-update (from_live children x) n t.colour l black low)
    ];
    fits = λ x. ground (arith, v.fits x, tally-update (from_any children x) n t.colour l black low);
    free = λ x h. ground (arith, v.free x, h);
    traced = λ m x h k. ground (arith, v.traced m x, h, k);
  }

  -- A grey link whose count is not zero turns black.
  start-Scanned :
      (l : ℕ) (pend : ℕ → ℕ) (t : Trace)
      → l < n
      → is_grey t l ≡ true
      → Scanned pend t
      → Scanned (λ x. count x (children l) + pend x) (set_colour l black t)
  start-Scanned l pend t low g v = record {
    exact = λ x.
        let dead : live (t.colour l) ≡ false = grey_dead (t.colour l) g in
        ground (arith, v.exact x, dead, tally-update (from_live children x) n t.colour l black low);
    fits = λ x. ground (arith, v.fits x, tally-update (from_any children x) n t.colour l black low);
    free = λ x h. ground (arith, v.free x, h);
    traced = λ m x h k. ground (arith, v.traced m x, h, k);
  }

  -- A grey link whose count is zero turns white.
  whiten-Scanned :
      (l : ℕ) (pend : ℕ → ℕ) (t : Trace)
      → l < n
      → is_grey t l ≡ true
      → ltb 0 (t.ref_count l) ≡ false
      → Scanned pend t
      → Scanned pend (set_colour l white t)
  whiten-Scanned l pend t low g zero_count v = record {
    exact = λ x.
        let dead : live (t.colour l) ≡ false = grey_dead (t.colour l) g in
        ground (arith, v.exact x, dead, tally-update (from_live children x) n t.colour l white low);
    fits = λ x. ground (arith, v.fits x, tally-update (from_any children x) n t.colour l white low);
    free = λ x h. ground (arith, v.free x, h, zero_count);
    traced = λ m x h k.
        let dead : live (t.colour l) ≡ false = grey_dead (t.colour l) g in
        ground (arith, v.traced m x, h, k, dead);
  }

  -- Blackening links, when what is still grey, white or purple is less than `bound`, returns, and
  -- keeps the counts.
  abbrev Blackens : (ℕ → Trace → Option Trace) → ℕ → Type 0
  Blackens black_scan bound =
      (l : ℕ) (pend : ℕ → ℕ) (t : Trace)
      → l < n
      → same_colour (t.colour l) black ≡ false
      → Scanned (λ x. count x (children l) + pend x) (set_colour l black t)
      → ((x : ℕ) → 0 < count x (children l) → same_colour (t.colour x) purple ≡ false)
      → tally unsettled n t.colour < bound
      → (t' : Trace) × (black_scan l t ≡ some t')
        × Scanned pend t'
        × Swept t t'
        × (is_grey t' l ≡ false)

  abbrev SweptAll : List ℕ → Trace → Type 0
  SweptAll ls t' = (x : ℕ) → 0 < count x ls → is_grey t' x ≡ false

  count_up-Swept : (l : ℕ) (t t' : Trace) → Swept (count_up l t) t' → Swept t t'
  count_up-Swept l t t' a = record {
    unpurple = a.unpurple;
    settled = a.settled;
    under = a.under;
    fewer = a.fewer;
  }

  SweptAll-cons :
      (l : ℕ) (ls : List ℕ) (u t' : Trace)
      → is_grey u l ≡ false
      → Swept u t'
      → SweptAll ls t'
      → SweptAll (l ∷ ls) t'
  unfolding count
  SweptAll-cons l ls u t' done b all x h = elim (Bool-cases (x == l)) [
    | inl here ↦ let same : x ≡ l = ground arith in rw same (b.settled l done)
    | inr other ↦ all x (ground (arith, h))
  ]

  blacken_children-Scanned :
      (black_scan : ℕ → Trace → Option Trace) (bound : ℕ)
      → Blackens black_scan bound
      → (ls : List ℕ) (pend : ℕ → ℕ) (t : Trace) → IsBounded n ls
      → Scanned (λ x. count x ls + pend x) t
      → ((x : ℕ) → 0 < count x ls → same_colour (t.colour x) purple ≡ false)
      → tally unsettled n t.colour < bound
      → (t' : Trace) × (blacken_children children black_scan ls t ≡ some t')
        × Scanned pend t'
        × Swept t t'
        × SweptAll ls t'
  unfolding blacken_children count
  blacken_children-Scanned f bound ih [] pend t low v plain few = (
    t,
    refl,
    record {
      exact = λ x. omega (arith, v.exact x);
      fits = v.fits;
      free = v.free;
      traced = v.traced;
    },
    Swept-refl t,
    λ x h. absurd (omega arith),
  )
  blacken_children-Scanned f bound ih (l ∷ ls) pend t low v plain few =
      elim (Bool-cases (same_colour (t.colour l) black)) [
        | inl dark ↦
            let (t', e, w, a, all) =
              blacken_children-Scanned f bound ih ls pend (count_up l t)
                (λ x h. low x (ground arith)) (count_up-Scanned l pend ls t dark v)
                (λ x h. plain x (ground arith)) few in
            (
              t',
              ground (arith, dark, e),
              w,
              count_up-Swept l t t' a,
              SweptAll-cons l ls (count_up l t) t' (black_not_grey (t.colour l) dark) a all,
            )
        | inr pale ↦
            let dead : live (t.colour l) ≡ false =
              dead_lem (t.colour l) pale (plain l (ground arith)) in
            let below : l < n = low l (ground arith) in
            let (u, e, w, a, done) =
              ih l (λ x. count x ls + pend x) (count_up l t) below pale
                (blacken-Scanned l pend ls t below dead v) (λ x h. v.traced l x dead h) few in
            let (t', e', w', b, all) =
              blacken_children-Scanned f bound ih ls pend u (λ x h. low x (ground arith)) w
                (λ x h. a.unpurple x (plain x (ground arith))) (omega (arith, a.fewer)) in
            (
              t',
              ground (arith, pale, e, e'),
              w',
              Swept-trans t u t' (count_up-Swept l t u a) b,
              SweptAll-cons l ls u t' done b all,
            )
      ]

  -- A link is recoloured black or white, and its children are settled.
  settle-Swept :
      (l : ℕ) (c : Colour) (t t' : Trace)
      → is_grey (set_colour l c t) l ≡ false
      → same_colour c purple ≡ false
      → l < n
      → unsettled l c < unsettled l (t.colour l)
      → Swept (set_colour l c t) t'
      → SweptAll (children l) t'
      → Swept t t'
  settle-Swept l c t t' pale plain low less a all = record {
    unpurple = λ x h. a.unpurple x (ground (arith, h, plain));
    settled = λ x h. a.settled x (ground (arith, h, pale));
    under = λ m x h k e. elim (Bool-cases (m == l)) [
      | inl here ↦
          let same : m ≡ l = ground arith in all x (subst (λ y. 0 < count x (children y)) same e)
      | inr other ↦ a.under m x (ground (arith, h)) k e
    ];
    fewer = omega (arith, a.fewer, tally-update unsettled n t.colour l c low);
  }

  scan_black-Blackens :
      ((m : ℕ) → IsBounded n (children m)) → (fuel : ℕ) → Blackens (scan_black children fuel) fuel
  unfolding scan_black
  scan_black-Blackens bounded zero l pend t low pale v plain few = absurd (omega arith)
  scan_black-Blackens bounded (suc fuel) l pend t low pale v plain few =
      let less = black_lem l (t.colour l) pale in
      let (t', e, w, a, all) =
        blacken_children-Scanned (scan_black children fuel) fuel (scan_black-Blackens bounded fuel)
          (children l) pend (set_colour l black t) (bounded l) v (λ x h. ground (arith, plain x h))
          (omega (arith, tally-update unsettled n t.colour l black low, less)) in
      (
        t',
        e,
        w,
        settle-Swept l black t t' (ground arith) refl low (omega (arith, less)) a all,
        a.settled l (ground arith),
      )

  -- Scanning from links, when what is still grey, white or purple is less than `bound`.
  abbrev Scans : (ℕ → Trace → Option Trace) → ℕ → Type 0
  Scans scan_one bound =
      (l : ℕ) (pend : ℕ → ℕ) (t : Trace)
      → l < n
      → Scanned pend t
      → tally unsettled n t.colour < bound
      → (t' : Trace) × (scan_one l t ≡ some t')
        × Scanned pend t'
        × Swept t t'
        × (is_grey t' l ≡ false)

  scan_children-Scanned :
      (scan_one : ℕ → Trace → Option Trace) (bound : ℕ)
      → Scans scan_one bound
      → (ls : List ℕ) (pend : ℕ → ℕ) (t : Trace) → IsBounded n ls
      → Scanned pend t
      → tally unsettled n t.colour < bound
      → (t' : Trace) × (scan_children children scan_one ls t ≡ some t')
        × Scanned pend t'
        × Swept t t'
        × SweptAll ls t'
  unfolding scan_children count
  scan_children-Scanned f bound ih [] pend t low v few =
      (t, refl, v, Swept-refl t, λ x h. absurd (omega arith))
  scan_children-Scanned f bound ih (l ∷ ls) pend t low v few =
      let (u, e, w, a, done) = ih l pend t (low l (ground arith)) v few in
      let (t', e', w', b, all) =
        scan_children-Scanned f bound ih ls pend u (λ x h. low x (ground arith)) w
          (omega (arith, a.fewer)) in
      (t', ground (arith, e, e'), w', Swept-trans t u t' a b, SweptAll-cons l ls u t' done b all)

  pub scan-Scans :
      ((m : ℕ) → IsBounded n (children m)) → (fuel : ℕ) → Scans (scan children fuel) fuel
  unfolding scan
  scan-Scans bounded zero l pend t low v few = absurd (omega arith)
  scan-Scans bounded (suc fuel) l pend t low v few = elim (Bool-cases (is_grey t l)) [
    | inr pale ↦ (t, ground (arith, pale), v, Swept-refl t, pale)
    | inl g ↦ elim (Bool-cases (ltb 0 (t.ref_count l))) [
      | inl used ↦
          let dead = grey_dead (t.colour l) g in
          let (t', e, w, a, done) =
            scan_black-Blackens bounded (suc fuel) l pend t low (grey_not_black (t.colour l) g)
              (start-Scanned l pend t low g v) (λ x h. v.traced l x dead h) few in
          (t', ground (arith, g, used, e), w, a, done)
      | inr unused ↦
          let less = grey_costs l (t.colour l) g in
          let (t', e, w, a, all) =
            scan_children-Scanned (scan children fuel) fuel (scan-Scans bounded fuel) (children l)
              pend (set_colour l white t) (bounded l) (whiten-Scanned l pend t low g unused v)
              (omega (arith, tally-update unsettled n t.colour l white low, less)) in
          (
            t',
            ground (arith, g, unused, e),
            w,
            settle-Swept l white t t' (ground arith) refl low less a all,
            a.settled l (ground arith),
          )
    ]
  ]
