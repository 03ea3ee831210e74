-- ===== src/MagicRef/Capture.antt =====
-- How `magic_ref::assign` captures the links that a value refers to.
use caesium_cxx.Base.{
  ℕ, zero, suc, ◌+◌, ◌≤◌, ◌<◌, ◌≡◌, refl, sym, ap, subst, ◌∙◌, inl, inr, true, false, Option, some,
  none, List, [], ◌∷◌, ◌++◌, arith, ◌==◌, if◌then◌else◌, Bool-cases, count, count-append, contains,
  update, mod_up, mod_down,
}
use caesium_cxx.MagicRef.{
  count_mod, black, purple, same_colour, Links, set_colour, count_up, count_down, erase_link,
  capturer_acquire, capturer_release, increment, possible_root, drop_refs, release, decrement,
}
use caesium_cxx.MagicRef.Values.{copy_refs, clear_value, reset, store_value, assign}

count-erase_link :
    (x l : ℕ) (xs : List ℕ)
    → 0 < count l xs
    → count x (erase_link l xs) + (if x == l then 1 else 0) ≡ count x xs
unfolding count erase_link
count-erase_link x l [] h = absurd (omega arith)
count-erase_link x l (y ∷ ys) h = ground (arith, count-erase_link x l ys, h)

module _ (r : ℕ) where
  -- What copying or dropping references leaves as it is.
  record SameRest (s s' : Links) : Type 0 where
    capturing : s'.capturer ≡ some r
    chosen : s'.to_delete ≡ s.to_delete
    values : s'.oa ≡ s.oa
    living : s'.deleted ≡ s.deleted

  SameRest-trans : (s u v : Links) → SameRest s u → SameRest u v → SameRest s v
  SameRest-trans s u v a b = record {
    capturing = b.capturing;
    chosen = b.chosen ∙ a.chosen;
    values = b.values ∙ a.values;
    living = b.living ∙ a.living;
  }

  record Grew (ls : List ℕ) (s s' : Links) : Type 0 where
    rest : SameRest s s'
    children : (x : ℕ) → count x (s'.children r) ≡ count x (s.children r) + count x ls
    counts : (x : ℕ) → s'.trace.ref_count x ≡ s.trace.ref_count x + count x ls

  captured_increment :
      (l : ℕ) (s : Links)
      → s.capturer ≡ some r
      → increment l s ≡ record s {
        children = update s.children r (s.children r ++ (l ∷ []));
        trace = set_colour l black (count_up l s.trace);
      }
  unfolding increment capturer_acquire
  captured_increment l s on =
      ap {A = Links} (λ u. record u { trace = set_colour l black (count_up l u.trace) })
        (ap {A = Option ℕ}
          (λ o. elim o [
            | none ↦ s
            | some c ↦ record s { children = update s.children c (s.children c ++ (l ∷ [])) }
          ])
          on)

  captured_release :
      (l : ℕ) (s : Links)
      → s.capturer ≡ some r
      → capturer_release l s
        ≡ record s { children = update s.children r (erase_link l (s.children r)) }
  unfolding capturer_release
  captured_release l s on =
      ap {A = Option ℕ}
        (λ o. elim o [
          | none ↦ s
          | some c ↦ record s { children = update s.children c (erase_link l (s.children c)) }
        ])
        on

  increment-Grew :
      (l : ℕ) (s : Links)
      → s.capturer ≡ some r
      → s.trace.ref_count l + 1 < count_mod
      → Grew (l ∷ []) s (increment l s)
  unfolding count
  increment-Grew l s on fits = subst (Grew (l ∷ []) s) (sym (captured_increment l s on)) (record {
    rest = record { capturing = on; chosen = refl; values = refl; living = refl };
    children = λ x. ground (arith, count-append x (s.children r) (l ∷ []));
    counts = λ x. elim (Bool-cases (x == l)) [
      | inl hit ↦
          let same : x ≡ l = ground arith in
          rw same (ground (arith, mod_up (s.trace.ref_count l) count_mod fits))
      | inr other ↦ ground (arith, other)
    ];
  })

  copy_refs-Grew :
      (ls : List ℕ) (s : Links)
      → s.capturer ≡ some r
      → ((x : ℕ) → s.trace.ref_count x + count x ls < count_mod)
      → Grew ls s (copy_refs ls s)
  unfolding copy_refs count
  copy_refs-Grew [] s on fits = record {
    rest = record { capturing = on; chosen = refl; values = refl; living = refl };
    children = λ x. omega arith;
    counts = λ x. omega arith;
  }
  copy_refs-Grew (l ∷ ls) s on fits =
      let a = increment-Grew l s on (ground (arith, fits l)) in
      let b =
        copy_refs-Grew ls (increment l s) a.rest.capturing
          (λ x. omega (arith, a.counts x, fits x)) in
      record {
        rest = SameRest-trans s (increment l s) (copy_refs ls (increment l s)) a.rest b.rest;
        children = λ x. omega (arith, a.children x, b.children x);
        counts = λ x. omega (arith, a.counts x, b.counts x);
      }

  -- From `s` to `s'` one reference to each link of the list is dropped.
  record Dropped (ls : List ℕ) (s s' : Links) : Type 0 where
    rest : SameRest s s'
    children : (x : ℕ) → count x (s'.children r) + count x ls ≡ count x (s.children r)
    counts : (x : ℕ) → s'.trace.ref_count x + count x ls ≡ s.trace.ref_count x

  possible_root-Dropped :
      (l : ℕ) (s u : Links) → Dropped (l ∷ []) s u → Dropped (l ∷ []) s (possible_root l u)
  unfolding possible_root
  possible_root-Dropped l s u d = elim (Bool-cases (same_colour (u.trace.colour l) purple)) [
    | inl old ↦ rw (old, possible_root) d
    | inr new ↦ elim (Bool-cases (u.buffered l)) [
      | inl held ↦
          rw (new, held, possible_root)
            (record {
              rest = record {
                capturing = d.rest.capturing;
                chosen = d.rest.chosen;
                values = d.rest.values;
                living = d.rest.living;
              };
              children = d.children;
              counts = d.counts;
            })
      | inr free ↦
          rw (new, free, possible_root)
            (record {
              rest = record {
                capturing = d.rest.capturing;
                chosen = d.rest.chosen;
                values = d.rest.values;
                living = d.rest.living;
              };
              children = d.children;
              counts = d.counts;
            })
    ]
  ]

  decrement-Dropped :
      (fuel l : ℕ) (s : Links)
      → 0 < fuel
      → s.capturer ≡ some r
      → contains l s.to_delete ≡ false
      → 1 < s.trace.ref_count l
      → s.trace.ref_count l < count_mod
      → 0 < count l (s.children r)
      → (s' : Links) × (decrement fuel l s ≡ some s') × Dropped (l ∷ []) s s'
  unfolding decrement count
  decrement-Dropped zero l s some_fuel on new used small inside = absurd (omega arith)
  decrement-Dropped (suc fuel) l s some_fuel on new used small inside =
      let u = record s {
        children = update s.children r (erase_link l (s.children r));
        trace = count_down l s.trace;
      } in
      let down = mod_down (s.trace.ref_count l) count_mod (omega arith) small in
      let kept : (u.trace.ref_count l == 0) ≡ false = ground (arith, down) in
      let body : Links → Option Links = λ c. elim ((count_down l c.trace).ref_count l == 0) [
        | true ↦ release (decrement fuel) l (record c { trace = count_down l c.trace })
        | false ↦ some (possible_root l (record c { trace = count_down l c.trace }))
      ] in
      let last : body (record s { children = update s.children r (erase_link l (s.children r)) })
          ≡ some (possible_root l u) =
        rw kept refl in
      (
        possible_root l u,
        rw (new, decrement) (ap {A = Links} body (captured_release l s on) ∙ last),
        possible_root-Dropped l s u (record {
          rest = record { capturing = on; chosen = refl; values = refl; living = refl };
          children = λ x. ground (arith, count-erase_link x l (s.children r) inside);
          counts = λ x. elim (Bool-cases (x == l)) [
            | inl hit ↦ let same : x ≡ l = ground arith in rw same (ground (arith, down))
            | inr other ↦ ground (arith, other)
          ];
        }),
      )

  drop_refs-Dropped :
      (fuel : ℕ) (ls : List ℕ) (s : Links)
      → 0 < fuel
      → s.capturer ≡ some r
      → ((x : ℕ) → 0 < count x ls → contains x s.to_delete ≡ false)
      → ((x : ℕ) → 0 < count x ls → count x ls < s.trace.ref_count x)
      → ((x : ℕ) → s.trace.ref_count x < count_mod)
      → ((x : ℕ) → count x ls ≤ count x (s.children r))
      → (s' : Links) × (drop_refs (decrement fuel) ls s ≡ some s') × Dropped ls s s'
  unfolding drop_refs count
  drop_refs-Dropped fuel [] s some_fuel on new used small inside = (
    s,
    refl,
    record {
      rest = record { capturing = on; chosen = refl; values = refl; living = refl };
      children = λ x. omega arith;
      counts = λ x. omega arith;
    },
  )
  drop_refs-Dropped fuel (l ∷ ls) s some_fuel on new used small inside =
      let (u, e, a) =
        decrement-Dropped fuel l s some_fuel on (new l (ground arith)) (ground (arith, used l))
          (small l) (ground (arith, inside l)) in
      let (v, e', b) =
        drop_refs-Dropped fuel ls u some_fuel a.rest.capturing
          (λ x h. subst (λ d. contains x d ≡ false) (sym a.rest.chosen) (new x (ground arith)))
          (λ x h. ground (arith, used x, a.counts x)) (λ x. omega (arith, small x, a.counts x))
          (λ x. ground (arith, inside x, a.children x)) in
      (
        v,
        ground (arith, e, e'),
        record {
          rest = SameRest-trans s u v a.rest b.rest;
          children = λ x. omega (arith, a.children x, b.children x);
          counts = λ x. omega (arith, a.counts x, b.counts x);
        },
      )

-- What storing the value `a` in `r` leaves.
pub record Captured (r : ℕ) (a : List ℕ) (s s' : Links) : Type 0 where
  pub children : (x : ℕ) → count x (s'.children r) ≡ count x (s.children r) + count x a
  pub counts : (x : ℕ) → s'.trace.ref_count x ≡ s.trace.ref_count x + count x a
  pub value : s'.oa r ≡ some a
  pub capturer : s'.capturer ≡ s.capturer
  pub deleted : s'.deleted ≡ s.deleted

store_value-Captured :
    (fuel r : ℕ) (a : List ℕ) (s : Links)
    → 0 < fuel
    → ((x : ℕ) → 0 < count x a → contains x s.to_delete ≡ false)
    → ((x : ℕ) → 0 < count x a → 0 < s.trace.ref_count x)
    → ((x : ℕ) → s.trace.ref_count x + (count x a + count x a) < count_mod)
    → (s' : Links) × (store_value fuel r a s ≡ some s') × Captured r a s s'
unfolding store_value
store_value-Captured fuel r a s some_fuel new used fits =
    let start = record s { capturer = some r } in
    let once = copy_refs a start in
    let g = copy_refs-Grew r a start refl (λ x. omega (arith, fits x)) in
    let g' = copy_refs-Grew r a once g.rest.capturing (λ x. omega (arith, fits x, g.counts x)) in
    let twice = copy_refs a once in
    let full = record twice { oa = update twice.oa r (some a) } in
    let (v, e, d) =
      drop_refs-Dropped r fuel a full some_fuel g'.rest.capturing
        (λ x h. subst (λ q. contains x q ≡ false) (sym (g'.rest.chosen ∙ g.rest.chosen)) (new x h))
        (λ x h. omega (arith, used x h, g.counts x, g'.counts x))
        (λ x. omega (arith, fits x, g.counts x, g'.counts x))
        (λ x. omega (arith, g.children x, g'.children x)) in
    (
      record v { capturer = s.capturer },
      ground (arith, e),
      record {
        children = λ x. omega (arith, d.children x, g.children x, g'.children x);
        counts = λ x. omega (arith, d.counts x, g.counts x, g'.counts x);
        value = ap (λ f. f r) d.rest.values ∙ ground arith;
        capturer = refl;
        deleted = d.rest.living ∙ g'.rest.living ∙ g.rest.living;
      },
    )

-- Assigning a value to a reference that holds none, with some fuel, when the links that the value
-- refers to have references, are not to be deleted, and have room for twice these references in
-- their counts: the assignment returns. The children of the receptacle are then the links that the
-- value refers to, each as often as the value does, whatever they were before; the count of each
-- link grew by as much; the value is stored; and the capturer and the deleted links are as before.
pub assign-captures :
    (fuel r : ℕ) (a : List ℕ) (s : Links)
    → 0 < fuel
    → s.oa r ≡ none
    → ((x : ℕ) → 0 < count x a → contains x s.to_delete ≡ false)
    → ((x : ℕ) → 0 < count x a → 0 < s.trace.ref_count x)
    → ((x : ℕ) → s.trace.ref_count x + (count x a + count x a) < count_mod)
    → (s' : Links) × (assign fuel r a s ≡ some s')
      × ((x : ℕ) → count x (s'.children r) ≡ count x a)
      × ((x : ℕ) → s'.trace.ref_count x ≡ s.trace.ref_count x + count x a)
      × (s'.oa r ≡ some a)
      × (s'.capturer ≡ s.capturer)
      × (s'.deleted ≡ s.deleted)
unfolding assign reset clear_value count
assign-captures fuel r a s some_fuel empty new used fits =
    let cleared = record s { children = update s.children r [] } in
    let (s', e, c) = store_value-Captured fuel r a cleared some_fuel new used fits in
    (
      s',
      rw (empty, assign, reset, clear_value) e,
      λ x. ground (arith, c.children x),
      c.counts,
      c.value,
      c.capturer,
      c.deleted,
    )
