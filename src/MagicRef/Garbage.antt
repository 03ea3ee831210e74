-- ===== src/MagicRef/Garbage.antt =====
-- What the links that `mark_roots` and `scan_roots` leave white have in common.
use caesium_cxx.Base.{
  ℕ, zero, suc, ◌+◌, ◌≤◌, ◌<◌, ◌≡◌, refl, sym, subst, inl, inr, true, false, some, List, [], ◌∷◌,
  arith, ◌==◌, Bool-cases, count, contains,
}
use caesium_cxx.MagicRef.{
  count_mod, Colour, black, grey, white, purple, same_colour, Trace, Links, scan_roots,
}
use caesium_cxx.MagicRef.Cycles.{first_link, trace_cycles}
use caesium_cxx.MagicRef.Edges.{
  Chain, done, into, tally, tally-member, from_live, from_any, live, IsBounded, dead_grey,
  dead_white, grey_not_purple,
}
use caesium_cxx.MagicRef.Marking.{is_grey, Counted, Marked}
use caesium_cxx.MagicRef.Roots.{Ready, Stepped, mark_roots-Stepped}
use caesium_cxx.MagicRef.Scanning.{unsettled, Scanned, Swept, Swept-refl, Swept-trans, scan-Scans}

unsettled_le : (n : ℕ) (colour : ℕ → Colour) → tally unsettled n colour ≤ n + n
unfolding tally
unsettled_le zero colour = omega arith
unsettled_le (suc n) colour = omega (arith, unsettled_le n colour, cost n (colour n))
  where
    cost : (m : ℕ) (c : Colour) → unsettled m c ≤ 2
    cost m black = omega arith
    cost m grey = omega arith
    cost m white = omega arith
    cost m purple = omega arith

module _ (n : ℕ) (ext : ℕ → ℕ) (children : ℕ → List ℕ)
    (bounded : (m : ℕ) → IsBounded n (children m)) where
  scan_roots-Scanned :
      (fuel : ℕ) (ls : List ℕ) (pend : ℕ → ℕ) (t : Trace)
      → ((x : ℕ) → contains x ls ≡ true → x < n)
      → Scanned n ext children pend t
      → tally unsettled n t.colour < fuel
      → (t' : Trace) × (scan_roots children fuel ls t ≡ some t')
        × Scanned n ext children pend t'
        × Swept n ext children t t'
        × ((x : ℕ) → contains x ls ≡ true → is_grey t' x ≡ false)
  unfolding scan_roots contains
  scan_roots-Scanned fuel [] pend t low v few = (t, refl, v, Swept-refl n ext children t, λ x h. cc)
  scan_roots-Scanned fuel (l ∷ ls) pend t low v few =
      let (u, e, w, a, pale) =
        scan-Scans n ext children bounded fuel l pend t (low l (ground arith)) v few in
      let (t', e', w', b, all) =
        scan_roots-Scanned fuel ls pend u (λ x h. low x (ground (arith, h))) w
          (omega (arith, a.fewer)) in
      (
        t',
        ground (arith, e, e'),
        w',
        Swept-trans n ext children t u t' a b,
        λ x h. elim (Bool-cases (x == l)) [
          | inl hit ↦ let same : x ≡ l = ground arith in rw same (b.settled l pale)
          | inr other ↦ all x (ground (arith, h))
        ],
      )

  any_colour :
      (x k : ℕ) (c d : ℕ → Colour)
      → tally (from_any children x) k c ≡ tally (from_any children x) k d
  unfolding tally
  any_colour x zero c d = refl
  any_colour x (suc k) c d = omega (arith, any_colour x k c d)

  -- After marking, the scan can start.
  Marked-Scanned :
      (t t' : Trace)
      → ((x : ℕ) → is_grey t x ≡ false)
      → ((x : ℕ) → ext x + tally (from_any children x) n t.colour < count_mod)
      → Counted n ext children (λ x. 0) t'
      → Marked n ext children t t'
      → Scanned n ext children (λ x. 0) t'
  Marked-Scanned t t' clean fits v a = record {
    exact = λ x. omega (arith, v.exact x);
    fits = λ x. omega (arith, fits x, any_colour x n t.colour t'.colour);
    free = λ x h. cc (v.no_white x);
    traced = λ m x dead h.
        let g = dead_grey (t'.colour m) dead (v.no_white m) in
        grey_not_purple (t'.colour x) (a.under m x (clean m) g h);
  }

  -- What is below a grey link that the scan settled is settled.
  Chain-Swept :
      (t u v : Trace) {r x : ℕ}
      → ((y : ℕ) → is_grey t y ≡ false)
      → Marked n ext children t u
      → Swept n ext children u v
      → is_grey u r ≡ true
      → is_grey v r ≡ false
      → Chain children r x
      → is_grey v x ≡ false
  Chain-Swept t u v clean a b g pale done = pale
  Chain-Swept t u v {r} clean a b g pale (into {c = c} h rest) =
      Chain-Swept t u v clean a b (a.under r c (clean r) g h) (b.under r c g pale h) rest

-- All references to a link below `n` come from links that are white.
abbrev pub FromWhite : ℕ → Links → ℕ → Type 0
FromWhite n s x =
    (m : ℕ) → m < n → 0 < count x (s.children m) → same_colour (s.trace.colour m) white ≡ true

white_lem :
    (n : ℕ) (ext : ℕ → ℕ) (s : Links)
    → Scanned n ext s.children (λ x. 0) s.trace
    → ((x : ℕ) → is_grey s.trace x ≡ false)
    → (x : ℕ) → same_colour (s.trace.colour x) white ≡ true
    → (ext x ≡ 0) × FromWhite n s x
white_lem n ext s v pale x h = (
  omega (arith, v.exact x, v.free x h),
  λ m low k. elim (Bool-cases (live (s.trace.colour m))) [
    | inl alive ↦ absurd (
        ground (
          arith,
          alive,
          v.exact x,
          v.free x h,
          tally-member (from_live s.children x) n s.trace.colour m low,
        ))
    | inr dead ↦ dead_white (s.trace.colour m) dead (pale m)
  ],
)

pale_lem :
    (n : ℕ) (ext : ℕ → ℕ) (s u : Links) (t : Trace)
    → ((m : ℕ) → IsBounded n (s.children m))
    → ((x : ℕ) → is_grey s.trace x ≡ false)
    → Stepped n ext (first_link s.roots) s u
    → Swept n ext u.children u.trace t
    → ((x : ℕ) → contains x u.roots ≡ true → is_grey t x ≡ false)
    → (x : ℕ) → is_grey t x ≡ false
pale_lem n ext s u t bounded clean a b all x = elim (Bool-cases (is_grey u.trace x)) [
  | inr pale ↦ b.settled x pale
  | inl g ↦
      let (r, still, gr, c) = a.chains x (clean x) g in
      let b' = subst (λ ch. Swept n ext ch u.trace t) a.same b in
      Chain-Swept n ext s.children bounded s.trace u.trace t clean a.marked b' gr (all r still) c
]

-- Between collections, when no link is grey or white, each count is the number of references from
-- outside (`ext`) and from the links below `n`, no count overflows, children are below `n`, and
-- black roots have a count: given fuel for more than `2 n` nested calls, `mark_roots` and
-- `scan_roots` return, and leave the children and `to_delete`, and roots are below `n`. Then no
-- link is grey; a link is white only if there is no reference to it from outside and every
-- reference to it from a link comes from a white link; and the count of each link is the number
-- of references to it from outside and from links that are not white.
pub trace_cycles-white :
    (n : ℕ) (ext : ℕ → ℕ) (s : Links) (fuel : ℕ)
    → ((m : ℕ) → IsBounded n (s.children m))
    → Ready n ext s
    → ((x : ℕ) → is_grey s.trace x ≡ false)
    → ((x : ℕ) → ext x + tally (from_any s.children x) n s.trace.colour < count_mod)
    → n + n < fuel
    → (s' : Links) × (trace_cycles fuel s ≡ some s')
      × (s'.children ≡ s.children)
      × (s'.to_delete ≡ s.to_delete)
      × ((x : ℕ) → contains x s'.roots ≡ true → x < n)
      × ((x : ℕ) → is_grey s'.trace x ≡ false)
      × ((x : ℕ) → same_colour (s'.trace.colour x) white ≡ true → (ext x ≡ 0) × FromWhite n s' x)
      × ((x : ℕ) → s'.trace.ref_count x ≡ ext x + tally (from_live s'.children x) n s'.trace.colour)
unfolding trace_cycles
trace_cycles-white n ext s fuel bounded ready clean fits few =
    let (u, e, a) = mark_roots-Stepped n ext fuel s bounded ready few in
    let bounded' = subst (λ ch. (m : ℕ) → IsBounded n (ch m)) (sym a.same) bounded in
    let marked' = subst (λ ch. Marked n ext ch s.trace u.trace) (sym a.same) a.marked in
    let fits' =
      subst (λ ch. (x : ℕ) → ext x + tally (from_any ch x) n s.trace.colour < count_mod)
        (sym a.same) fits in
    let (t, e', v, b, all) =
      scan_roots-Scanned n ext u.children bounded' fuel u.roots (λ x. 0) u.trace a.ready.low
        (Marked-Scanned n ext u.children bounded' s.trace u.trace clean fits' a.ready.counted
          marked')
        (omega (arith, unsettled_le n u.trace.colour)) in
    let pale = pale_lem n ext s u t bounded clean a b all in
    let s' = record u { trace = t } in
    (
      s',
      ground (arith, e, e'),
      a.same,
      a.chosen,
      a.ready.low,
      pale,
      white_lem n ext s' v pale,
      λ x. omega (arith, v.exact x),
    )
