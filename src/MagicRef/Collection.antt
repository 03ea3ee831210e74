-- ===== src/MagicRef/Collection.antt =====
-- What `collect_white` and `collect_roots` choose for deletion.
use caesium_cxx.Base.{
  ℕ, zero, suc, ◌+◌, ◌≤◌, ◌<◌, ◌≡◌, refl, sym, subst, ◌∙◌, ◌⊎◌, inl, inr, Bool, true, false, not,
  ◌&&◌, Option, some, List, [], ◌∷◌, arith, if◌then◌else◌, Bool-cases, count, contains, update,
}
use caesium_cxx.MagicRef.{
  count_mod, Colour, black, white, same_colour, Links, set_colour, insert_link,
}
use caesium_cxx.MagicRef.Cycles.{
  collect_children, collect_white, collect_each, collect_roots, trace_cycles,
}
use caesium_cxx.MagicRef.Edges.{tally, tally-update, from_any, IsBounded}
use caesium_cxx.MagicRef.Marking.{is_grey}
use caesium_cxx.MagicRef.Roots.{Ready}
use caesium_cxx.MagicRef.Garbage.{FromWhite, trace_cycles-white}

abbrev pub is_white : Links → ℕ → Bool
is_white s x = same_colour (s.trace.colour x) white

abbrev whites : ℕ → Colour → ℕ
whites m c = if same_colour c white then 1 else 0

whites_le : (n : ℕ) (colour : ℕ → Colour) → tally whites n colour ≤ n
unfolding tally
whites_le zero colour = omega arith
whites_le (suc n) colour = ground (arith, whites_le n colour)

contains-insert_link :
    (x l : ℕ) (xs : List ℕ)
    → contains x (insert_link l xs) ≡ true
    → (x ≡ l) ⊎ (contains x xs ≡ true)
unfolding contains insert_link
contains-insert_link x l [] h = inl (ground (arith, h))
contains-insert_link x l (y ∷ ys) h = ground (arith, contains-insert_link x l ys, h)

fresh_empty : (x : ℕ) (xs : List ℕ) → xs ≡ [] → contains x xs ≡ true → ⊥
unfolding contains
fresh_empty x [] e h = cc
fresh_empty x (y ∷ ys) e h = cc

module _ (n : ℕ) where
  -- From `s` to `s'` only links that were white are chosen, and no link turns white.
  record Chose (s s' : Links) : Type 0 where
    same : s'.children ≡ s.children
    only :
        (x : ℕ)
        → contains x s'.to_delete ≡ true
        → (contains x s.to_delete ≡ true) ⊎ (is_white s x ≡ true)
    was : (x : ℕ) → is_white s' x ≡ true → is_white s x ≡ true
    fewer : tally whites n s'.trace.colour ≤ tally whites n s.trace.colour

  Chose-refl : (s : Links) → Chose s s
  Chose-refl s = record { same = refl; only = λ x h. inl h; was = λ x h. h; fewer = omega arith }

  Chose-trans : (s u v : Links) → Chose s u → Chose u v → Chose s v
  Chose-trans s u v a b = record {
    same = b.same ∙ a.same;
    only = λ x h. elim (b.only x h) [ inl early ↦ a.only x early | inr late ↦ inr (a.was x late) ];
    was = λ x h. a.was x (b.was x h);
    fewer = omega (arith, a.fewer, b.fewer);
  }

  module _ (children : ℕ → List ℕ) (bounded : (m : ℕ) → IsBounded n (children m)) where
    abbrev Chooses : (ℕ → Links → Option Links) → ℕ → Type 0
    Chooses collect bound =
        (l : ℕ) (s : Links)
        → l < n
        → s.children ≡ children
        → tally whites n s.trace.colour < bound
        → (s' : Links) × (collect l s ≡ some s') × Chose s s'

    collect_children-Chose :
        (collect : ℕ → Links → Option Links) (bound : ℕ)
        → Chooses collect bound
        → (ls : List ℕ) (s : Links) → IsBounded n ls
        → s.children ≡ children
        → tally whites n s.trace.colour < bound
        → (s' : Links) × (collect_children collect ls s ≡ some s') × Chose s s'
    unfolding collect_children count
    collect_children-Chose f bound ih [] s low same few = (s, refl, Chose-refl s)
    collect_children-Chose f bound ih (l ∷ ls) s low same few =
        let (u, e, a) = ih l s (low l (ground arith)) same few in
        let (v, e', b) =
          collect_children-Chose f bound ih ls u (λ x h. low x (ground arith)) (a.same ∙ same)
            (omega (arith, a.fewer)) in
        (v, ground (arith, e, e'), Chose-trans s u v a b)

    take_white-Chose :
        (l : ℕ) (s u : Links)
        → l < n
        → is_white s l ≡ true
        → Chose (record s { trace = set_colour l black s.trace }) u
        → Chose s (record u { to_delete = insert_link l u.to_delete })
    take_white-Chose l s u low pale a = record {
      same = a.same;
      only = λ x h. elim (contains-insert_link x l u.to_delete h) [
        | inl here ↦ inr (rw here pale)
        | inr old ↦ elim (a.only x old) [
          | inl older ↦ inl older
          | inr late ↦ inr (ground (arith, late, pale))
        ]
      ];
      was = λ x h. ground (arith, a.was x h);
      fewer = ground (arith, a.fewer, tally-update whites n s.trace.colour l black low);
    }

    collect_white-Chooses : (fuel : ℕ) → Chooses (collect_white fuel) fuel
    unfolding collect_white
    collect_white-Chooses zero l s low same few = absurd (omega arith)
    collect_white-Chooses (suc fuel) l s low same few =
        elim (Bool-cases (is_white s l && not (s.buffered l))) [
          | inr stop ↦ (s, ground (arith, stop), Chose-refl s)
          | inl go ↦
              let pale : is_white s l ≡ true = ground (arith, go) in
              let (u, e, a) =
                collect_children-Chose (collect_white fuel) fuel (collect_white-Chooses fuel)
                  (s.children l) (record s { trace = set_colour l black s.trace })
                  (subst (λ ch. IsBounded n (ch l)) (sym same) (bounded l)) same
                  (ground (arith, tally-update whites n s.trace.colour l black low, pale)) in
              (
                record u { to_delete = insert_link l u.to_delete },
                ground (arith, go, e),
                take_white-Chose l s u low pale a,
              )
        ]

    collect_each-Chose :
        (fuel : ℕ) (ls : List ℕ) (s : Links)
        → ((x : ℕ) → contains x ls ≡ true → x < n)
        → s.children ≡ children
        → tally whites n s.trace.colour < fuel
        → (s' : Links) × (collect_each fuel ls s ≡ some s') × Chose s s'
    unfolding collect_each contains
    collect_each-Chose fuel [] s low same few = (s, refl, Chose-refl s)
    collect_each-Chose fuel (l ∷ ls) s low same few =
        let (u, e, a) =
          collect_white-Chooses fuel l (record s { buffered = update s.buffered l false })
            (low l (ground arith)) same few in
        let (v, e', b) =
          collect_each-Chose fuel ls u (λ x h. low x (ground (arith, h))) (a.same ∙ same)
            (omega (arith, a.fewer)) in
        let c = Chose-trans (record s { buffered = update s.buffered l false }) u v a b in
        (
          v,
          ground (arith, e, e'),
          record { same = c.same; only = c.only; was = c.was; fewer = c.fewer },
        )

-- Between collections, as for the walks of `mark_roots` and `scan_roots`, when `to_delete` is
-- empty: with fuel for more than `2 n` nested calls, these walks and `collect_roots` return. Each
-- link that is then in `to_delete` was white when `collect_roots` began, there is no reference to
-- it from outside, and every reference to it from a link comes from a link that was white too.
pub collect_roots-unreferenced :
    (n : ℕ) (ext : ℕ → ℕ) (s : Links) (fuel : ℕ)
    → ((m : ℕ) → IsBounded n (s.children m))
    → Ready n ext s
    → ((x : ℕ) → is_grey s.trace x ≡ false)
    → ((x : ℕ) → ext x + tally (from_any s.children x) n s.trace.colour < count_mod)
    → s.to_delete ≡ []
    → n + n < fuel
    → (u : Links) × (v : Links) × (trace_cycles fuel s ≡ some u)
      × (collect_roots fuel u ≡ some v)
      × (v.children ≡ s.children)
      × ((x : ℕ)
          → contains x v.to_delete ≡ true
          → (is_white u x ≡ true) × (ext x ≡ 0) × FromWhite n u x)
unfolding collect_roots contains
collect_roots-unreferenced n ext s fuel bounded ready clean fits empty few =
    let (u, e, same, fresh, low, pale, garbage, exact) =
      trace_cycles-white n ext s fuel bounded ready clean fits few in
    let (v, e', a) =
      collect_each-Chose n s.children bounded fuel u.roots u low same
        (omega (arith, whites_le n u.trace.colour)) in
    (
      u,
      record v { roots = [] },
      e,
      ground (arith, e'),
      a.same ∙ same,
      λ x h. elim (a.only x h) [
        | inl old ↦ absurd (fresh_empty x u.to_delete (fresh ∙ empty) old)
        | inr w ↦ let (outside, inside) = garbage x w in (w, outside, inside)
      ],
    )
