-- ===== src/MagicRef/Marking.antt =====
-- What `mark_grey` keeps of the counts.
use caesium_cxx.Base.{
  ℕ, zero, suc, ◌+◌, ◌≤◌, ◌<◌, ◌≡◌, refl, subst, ◌∙◌, inl, inr, Bool, true, false, Option, some,
  List, [], ◌∷◌, arith, ◌==◌, if◌then◌else◌, Bool-cases, count, mod_down,
}
use caesium_cxx.MagicRef.{
  count_mod, Colour, grey, white, same_colour, Trace, set_colour, count_down, mark_children,
  mark_grey,
}
use caesium_cxx.MagicRef.Edges.{
  Chain, done, into, tally, tally-update, from_live, live, IsBounded, live_of,
}

abbrev pub is_grey : Trace → ℕ → Bool
is_grey t l = same_colour (t.colour l) grey

abbrev pub unmarked : ℕ → Colour → ℕ
unmarked m c = if same_colour c grey then 0 else 1

pub unmarked_le : (n : ℕ) (colour : ℕ → Colour) → tally unmarked n colour ≤ n
unfolding tally
unmarked_le zero colour = omega arith
unmarked_le (suc n) colour = ground (arith, unmarked_le n colour)

module _ (n : ℕ) (ext : ℕ → ℕ) (children : ℕ → List ℕ) where
  -- A count is the number of references from outside and from live links, and `pend`.
  pub record Counted (pend : ℕ → ℕ) (t : Trace) : Type 0 where
    pub exact : (x : ℕ) → t.ref_count x ≡ ext x + tally (from_live children x) n t.colour + pend x
    pub small : (x : ℕ) → t.ref_count x < count_mod
    pub no_white : (x : ℕ) → same_colour (t.colour x) white ≡ false

  -- What marking changes from `t` to `t'`.
  pub record Marked (t t' : Trace) : Type 0 where
    pub keeps : (x : ℕ) → is_grey t x ≡ true → is_grey t' x ≡ true
    pub others :
        (x : ℕ)
        → is_grey t' x ≡ false
        → (t'.colour x ≡ t.colour x) × (t'.ref_count x ≡ t.ref_count x)
    pub under :
        (m x : ℕ)
        → is_grey t m ≡ false
        → is_grey t' m ≡ true
        → 0 < count x (children m)
        → is_grey t' x ≡ true
    pub fewer : tally unmarked n t'.colour ≤ tally unmarked n t.colour

  pub Marked-refl : (t : Trace) → Marked t t
  Marked-refl t = record {
    keeps = λ x h. h;
    others = λ x h. (refl, refl);
    under = λ m x h k. cc;
    fewer = omega arith;
  }

  pub Marked-trans : (t u v : Trace) → Marked t u → Marked u v → Marked t v
  Marked-trans t u v a b = record {
    keeps = λ x h. b.keeps x (a.keeps x h);
    others = λ x h. elim (Bool-cases (is_grey u x)) [
      | inl early ↦ cc (b.keeps x early)
      | inr late ↦ let (c, r) = b.others x h in let (c', r') = a.others x late in (c ∙ c', r ∙ r')
    ];
    under = λ m x h k e. elim (Bool-cases (is_grey u m)) [
      | inl early ↦ b.keeps x (a.under m x h early e)
      | inr late ↦ b.under m x late k e
    ];
    fewer = omega (arith, a.fewer, b.fewer);
  }

  -- A child whose count went down and that ends grey.
  count_down-Marked :
      (l : ℕ) (t u : Trace) → is_grey u l ≡ true → Marked (count_down l t) u → Marked t u
  count_down-Marked l t u h a = record {
    keeps = a.keeps;
    others = λ x e. ground (arith, a.others x e, h);
    under = a.under;
    fewer = a.fewer;
  }

  count_down-Counted :
      (l : ℕ) (pend : ℕ → ℕ) (ls : List ℕ) (t : Trace)
      → Counted (λ x. count x (l ∷ ls) + pend x) t
      → Counted (λ x. count x ls + pend x) (count_down l t)
  unfolding count
  count_down-Counted l pend ls t v = record {
    exact = λ x. elim (Bool-cases (x == l)) [
      | inl here ↦
          let same : x ≡ l = ground arith in
          rw same (ground (arith, v.exact l, mod_down (t.ref_count l) count_mod, v.small l))
      | inr other ↦ ground (arith, v.exact x)
    ];
    small = λ x. ground (arith, v.small x);
    no_white = v.no_white;
  }

  enter-Counted :
      (l : ℕ) (pend : ℕ → ℕ) (t : Trace)
      → l < n
      → is_grey t l ≡ false
      → Counted pend t
      → Counted (λ x. count x (children l) + pend x) (set_colour l grey t)
  enter-Counted l pend t low new v = record {
    exact = λ x.
        let is_live : live (t.colour l) ≡ true = live_of (t.colour l) new (v.no_white l) in
        ground
          (arith, v.exact x, tally-update (from_live children x) n t.colour l grey low, is_live);
    small = v.small;
    no_white = λ x. ground (arith, v.no_white x);
  }

  -- Walks from links with fewer than `bound` unmarked links return, and keep the counts.
  abbrev pub Marks : (ℕ → Trace → Option Trace) → ℕ → Type 0
  Marks mark bound =
      (l : ℕ) (pend : ℕ → ℕ) (t : Trace)
      → l < n
      → Counted pend t
      → tally unmarked n t.colour < bound
      → (t' : Trace) × (mark l t ≡ some t')
        × Counted pend t'
        × Marked t t'
        × (is_grey t' l ≡ true)
        × ((x : ℕ) → is_grey t x ≡ false → is_grey t' x ≡ true → Chain children l x)

  mark_children-Marks :
      (mark : ℕ → Trace → Option Trace) (bound : ℕ)
      → Marks mark bound
      → (ls : List ℕ) (pend : ℕ → ℕ) (t : Trace) → IsBounded n ls
      → Counted (λ x. count x ls + pend x) t
      → tally unmarked n t.colour < bound
      → (t' : Trace) × (mark_children children mark ls t ≡ some t')
        × Counted pend t'
        × Marked t t'
        × ((x : ℕ) → 0 < count x ls → is_grey t' x ≡ true)
        × ((x : ℕ)
            → is_grey t x ≡ false
            → is_grey t' x ≡ true
            → (c : ℕ) × (0 < count c ls) × Chain children c x)
  unfolding mark_children count
  mark_children-Marks mark bound ih [] pend t low v few = (
    t,
    refl,
    record { exact = λ x. omega (arith, v.exact x); small = v.small; no_white = v.no_white },
    Marked-refl t,
    λ x h. absurd (omega arith),
    λ x h k. cc,
  )
  mark_children-Marks mark bound ih (l ∷ ls) pend t low v few =
      let (u, e, v', a, g, chain) =
        ih l (λ x. count x ls + pend x) (count_down l t) (low l (ground arith))
          (count_down-Counted l pend ls t v) few in
      let b = count_down-Marked l t u g a in
      let (t', e', w, c, all, chains) =
        mark_children-Marks mark bound ih ls pend u (λ x h. low x (ground arith)) v'
          (omega (arith, b.fewer)) in
      (
        t',
        ground (arith, e, e'),
        w,
        Marked-trans t u t' b c,
        λ x h. elim (Bool-cases (x == l)) [
          | inl here ↦ let same : x ≡ l = ground arith in rw same (c.keeps l g)
          | inr other ↦ all x (ground arith)
        ],
        λ x h k. elim (Bool-cases (is_grey u x)) [
          | inl early ↦ (l, ground arith, chain x h early)
          | inr late ↦ let (d, found, rest) = chains x late k in (d, ground arith, rest)
        ],
      )

  enter_fewer :
      (l : ℕ) (t : Trace)
      → is_grey t l ≡ false
      → l < n
      → tally unmarked n (set_colour l grey t).colour + 1 ≡ tally unmarked n t.colour
  enter_fewer l t new low = ground (arith, tally-update unmarked n t.colour l grey low, new)

  -- A link that is marked with its children.
  enter-Marked :
      (l : ℕ) (t t' : Trace)
      → is_grey t l ≡ false
      → l < n
      → Marked (set_colour l grey t) t'
      → is_grey t' l ≡ true
      → ((x : ℕ) → 0 < count x (children l) → is_grey t' x ≡ true)
      → Marked t t'
  enter-Marked l t t' new low a g all = record {
    keeps = λ x h. a.keeps x (ground (arith, h));
    others = λ x h. ground (arith, a.others x h, g, h);
    under = λ m x h k e. elim (Bool-cases (m == l)) [
      | inl here ↦
          let same : m ≡ l = ground arith in all x (subst (λ y. 0 < count x (children y)) same e)
      | inr other ↦ a.under m x (ground (arith, h)) k e
    ];
    fewer = omega (arith, a.fewer, enter_fewer l t new low);
  }

  pub mark_grey-Marks :
      ((m : ℕ) → IsBounded n (children m)) → (fuel : ℕ) → Marks (mark_grey children fuel) fuel
  unfolding mark_grey
  mark_grey-Marks bounded zero l pend t low v few = absurd (omega arith)
  mark_grey-Marks bounded (suc fuel) l pend t low v few = elim (Bool-cases (is_grey t l)) [
    | inl old ↦ (t, ground (arith, old), v, Marked-refl t, old, λ x h k. cc)
    | inr new ↦
        let (t', e, v', a, all, chains) =
          mark_children-Marks (mark_grey children fuel) fuel (mark_grey-Marks bounded fuel)
            (children l) pend (set_colour l grey t) (bounded l) (enter-Counted l pend t low new v)
            (omega (arith, enter_fewer l t new low)) in
        let g : is_grey t' l ≡ true = a.keeps l (ground arith) in
        (
          t',
          ground (arith, new, e),
          v',
          enter-Marked l t t' new low a g all,
          g,
          λ x h k. elim (Bool-cases (x == l)) [
            | inl same_link ↦ let same : x ≡ l = ground arith in rw same done
            | inr other ↦ let (d, found, rest) = chains x (ground (arith, h)) k in into found rest
          ],
        )
  ]
