-- ===== src/ListenImpl/Teardown.antt =====
-- Clean-ups run once, in order, and before the object goes.
use caesium_cxx.Base.{
  ℕ, suc, ◌<◌, ◌≡◌, refl, sym, ap, ◌∙◌, inl, inr, true, false, not, ◌&&◌, ◌||◌, Option, some, List,
  [], ◌∷◌, ◌++◌, map, arith, Bool-cases, Option-cases, if◌then◌else◌,
}
use mathlib.Core.List.{append_assoc, append-nil}
use caesium_cxx.CountSet.{
  Widths, Counts, CountSet, strong, active, alive, active_counts, alive_counts, inc, dec, Op, incs,
  decs, step, run,
}
use caesium_cxx.CountSet.Refine.{
  view, IsValid, IsConfig, Room, count_up, count_all, step-refines, active-view, alive-view,
}
use caesium_cxx.ListenImpl.{
  Cleanup, ListenImpl, apply_ref, run_refs, run_cleanups, tear_down, free_dead, update_and_unlock,
}

-- Clean-ups wait only while there is a listen function.
abbrev pub IsTidy : ListenImpl → Type 0
IsTidy s = s.func ≡ false → s.cleanups ≡ []

abbrev pub all_refs : List Cleanup → List Op
all_refs [] = []
all_refs (c ∷ cs) = c.refs ++ all_refs cs

-- Through all these steps a strong reference is left and no counter overflows or underflows.
abbrev pub KeepsStrong : List Op → Counts → Type 0
KeepsStrong [] c = 0 < c.strong_count
KeepsStrong (op ∷ ops) c = (0 < c.strong_count) × Room op c × KeepsStrong ops (count_up op c)

strong-of : (ops : List Op) (c : Counts) → KeepsStrong ops c → 0 < c.strong_count
strong-of [] c h = h
strong-of (op ∷ ops) c h = h.0

strong-active : (c : Counts) → 0 < c.strong_count → active_counts c ≡ true
strong-active c h = ground arith

strong-alive : (c : Counts) → 0 < c.strong_count → alive_counts c ≡ true
strong-alive c h = ground arith

alive_of_active : (c : Counts) → alive_counts c ≡ false → active_counts c ≡ false
alive_of_active c h = ground arith

KeepsStrong-left : (xs ys : List Op) (c : Counts) → KeepsStrong (xs ++ ys) c → KeepsStrong xs c
KeepsStrong-left [] ys c h = strong-of ys c h
KeepsStrong-left (x ∷ xs) ys c (h0, r, h) = (h0, r, KeepsStrong-left xs ys (count_up x c) h)

KeepsStrong-right :
    (xs ys : List Op) (c : Counts) → KeepsStrong (xs ++ ys) c → KeepsStrong ys (count_all xs c)
KeepsStrong-right [] ys c h = h
KeepsStrong-right (x ∷ xs) ys c (h0, r, h) = KeepsStrong-right xs ys (count_up x c) h

strong-after : (ops : List Op) (c : Counts) → KeepsStrong ops c → 0 < (count_all ops c).strong_count
strong-after [] c h = h
strong-after (op ∷ ops) c (h0, r, h) = strong-after ops (count_up op c) h

run-append :
    (w : Widths) (xs ys : List Op) (s : CountSet) → run w (xs ++ ys) s ≡ run w ys (run w xs s)
run-append w [] ys s = refl
run-append w (x ∷ xs) ys s = run-append w xs ys (step w x s)

module _ (w : Widths) where
  run-counts :
      (cfg : IsConfig w) (ops : List Op) (s : CountSet)
      → IsValid w s
      → KeepsStrong ops (view s)
      → (view (run w ops s) ≡ count_all ops (view s)) × IsValid w (run w ops s)
  run-counts cfg [] s v h = (refl, v)
  run-counts cfg (op ∷ ops) s v (h0, r, h) =
      let (e, v') = step-refines w op s cfg v r in
      rw e at (run-counts cfg ops (step w op s) v' (rw e h))

  -- While a strong reference is held, an update does nothing.
  update-strong :
      (f : ℕ) (s : ListenImpl)
      → 0 < (view s.counts).strong_count
      → update_and_unlock w (suc f) s ≡ some s
  unfolding update_and_unlock
  update-strong f s h =
      let a = active-view s.counts ∙ strong-active (view s.counts) h in
      let b = alive-view s.counts ∙ strong-alive (view s.counts) h in ground (arith, a, b)

  run_refs-strong :
      (cfg : IsConfig w) (f : ℕ) (ops : List Op) (s : ListenImpl)
      → IsValid w s.counts
      → KeepsStrong ops (view s.counts)
      → run_refs w (update_and_unlock w (suc f)) ops s
        ≡ some (record s { counts = run w ops s.counts })
  unfolding run_refs apply_ref
  run_refs-strong cfg f [] s v h = refl
  run_refs-strong cfg f (incs k ∷ ops) s v (h0, r, h) =
      let (e, v') = step-refines w (incs k) s.counts cfg v r in
      run_refs-strong cfg f ops (record s { counts = inc w k s.counts }) v' (rw e h)
  run_refs-strong cfg f (decs k ∷ ops) s v (h0, r, h) =
      let (e, v') = step-refines w (decs k) s.counts cfg v r in
      let t = record s { counts = dec w k s.counts } in
      rw (update-strong f t (rw e (strong-of ops _ h))) (run_refs-strong cfg f ops t v' (rw e h))

  run_cleanups-strong :
      (cfg : IsConfig w) (f : ℕ) (cs : List Cleanup) (s : ListenImpl)
      → IsValid w s.counts
      → KeepsStrong (all_refs cs) (view s.counts)
      → run_cleanups w (update_and_unlock w (suc f)) cs s
        ≡ some (record s {
          counts = run w (all_refs cs) s.counts;
          ran = s.ran ++ map (λ c. c.name) cs;
        })
  unfolding run_cleanups
  run_cleanups-strong cfg f [] s v h = simp append-nil
  run_cleanups-strong cfg f (c ∷ cs) s v h =
      let (e, v') = run-counts cfg c.refs s.counts v (KeepsStrong-left c.refs (all_refs cs) _ h) in
      let t = record s { counts = run w c.refs s.counts; ran = s.ran ++ c.name ∷ [] } in
      let later = rw (← e) at (KeepsStrong-right c.refs (all_refs cs) (view s.counts) h) in
      rw (run_refs-strong cfg f c.refs s v (KeepsStrong-left c.refs (all_refs cs) _ h))
        (run_cleanups-strong cfg f cs t v' later ∙ simp (run-append, append_assoc))

  -- What is left when the clean-ups have run.
  abbrev torn_down : ListenImpl → ListenImpl
  torn_down s = record s {
    counts = dec w strong (run w (all_refs s.cleanups) (inc w strong s.counts));
    ran = s.ran ++ map (λ c. c.name) s.cleanups;
    cleanups = [];
    func = false;
  }

  -- The references while the clean-ups run (`guarded`) and after (`left_over`).
  abbrev pub guarded : ListenImpl → Counts
  guarded s = count_up (incs strong) (view s.counts)

  abbrev pub left_over : ListenImpl → Counts
  left_over s = count_up (decs strong) (count_all (all_refs s.cleanups) (guarded s))

  module _ (cfg : IsConfig w) where
    inc-guarded :
        (s : ListenImpl)
        → IsValid w s.counts
        → active s.counts ≡ false
        → (view (inc w strong s.counts) ≡ guarded s) × IsValid w (inc w strong s.counts)
    inc-guarded s v idle =
        let none_strong : active_counts (view s.counts) ≡ false =
          sym (active-view s.counts) ∙ idle in
        step-refines w (incs strong) s.counts cfg v (ground arith)

    tear_down-torn_down :
        (f : ℕ) (s : ListenImpl)
        → IsValid w s.counts
        → active s.counts ≡ false
        → KeepsStrong (all_refs s.cleanups) (guarded s)
        → tear_down w (update_and_unlock w (suc f)) s ≡ some (torn_down s)
    unfolding tear_down
    tear_down-torn_down f s v idle h =
        let (e, v') = inc-guarded s v idle in
        rw (
          run_cleanups-strong cfg f s.cleanups (record s { counts = inc w strong s.counts }) v'
            (rw e h))

    view-torn_down :
        (s : ListenImpl)
        → IsValid w s.counts
        → active s.counts ≡ false
        → KeepsStrong (all_refs s.cleanups) (guarded s)
        → view (torn_down s).counts ≡ left_over s
    view-torn_down s v idle h =
        let (e, v') = inc-guarded s v idle in
        let (e', v'') = run-counts cfg (all_refs s.cleanups) (inc w strong s.counts) v' (rw e h) in
        let total = e' ∙ ap (count_all (all_refs s.cleanups)) e in
        let held = strong-after (all_refs s.cleanups) (guarded s) h in
        (step-refines w (decs strong) (run w (all_refs s.cleanups) (inc w strong s.counts)) cfg v''
          (rw total held)).0
        ∙ ap (count_up (decs strong)) total

    -- When the last active reference goes, the clean-ups run once each, in the order of the list,
    -- whatever references to the object they take and drop as long as the guard's strong one is
    -- kept; the listen function goes with them, and the object is freed if and only if no
    -- reference is left.
    pub update-tears_down :
        (f : ℕ) (s : ListenImpl)
        → IsValid w s.counts
        → s.func ≡ true
        → active s.counts ≡ false
        → KeepsStrong (all_refs s.cleanups) (guarded s)
        → (t : ListenImpl) × (update_and_unlock w (suc (suc f)) s ≡ some t)
          × (t.ran ≡ s.ran ++ map (λ c. c.name) s.cleanups)
          × (t.func ≡ false)
          × (t.cleanups ≡ [])
          × (t.freed ≡ (s.freed || not (alive_counts (left_over s))))
    unfolding update_and_unlock free_dead
    update-tears_down f s v live idle h =
        let down = tear_down-torn_down f s v idle h in
        let left = alive-view (torn_down s).counts ∙ ap alive_counts (view-torn_down s v idle h) in
        (
          (if alive_counts (left_over s)
              then torn_down s
              else record (torn_down s) { freed = true }),
          ground (arith, down, left),
          ground arith,
          ground arith,
          ground arith,
          ground arith,
        )

  -- A dead listen function stays dead: no clean-up ever runs a second time.
  pub update-dead :
      (f : ℕ) (s : ListenImpl)
      → s.func ≡ false
      → update_and_unlock w (suc f) s ≡ some (record s { freed = s.freed || not (alive s.counts) })
  unfolding update_and_unlock free_dead
  update-dead f s dead = ground arith

  tear_down-tidy :
      (update : ListenImpl → Option ListenImpl) (s t : ListenImpl)
      → tear_down w update s ≡ some t
      → (t.func ≡ false) × (t.cleanups ≡ [])
  unfolding tear_down
  tear_down-tidy update s t h =
      elim (Option-cases
        (run_cleanups w update s.cleanups (record s { counts = inc w strong s.counts }))) [
          | inl e ↦ ground (arith, e)
          | inr (u, e) ↦ ground (arith, e)
        ]

  -- The assertion of `~listen_impl_func`: an update that frees the object leaves neither clean-ups
  -- nor a listen function behind, whatever its clean-ups do.
  update-frees-IsTidy :
      (f : ℕ) (s t : ListenImpl)
      → IsTidy s
      → s.freed ≡ false
      → update_and_unlock w (suc f) s ≡ some t
      → IsTidy t × (t.freed ≡ true → (t.func ≡ false) × (t.cleanups ≡ []))
  unfolding update_and_unlock free_dead
  update-frees-IsTidy f s t tidy fresh h = elim (Bool-cases (s.func && not (active s.counts))) [
    | inl e ↦ elim (Option-cases (tear_down w (update_and_unlock w f) s)) [
      | inl stuck ↦ ground (arith, e, stuck)
      | inr (u, down) ↦
          let (gone, empty) = tear_down-tidy (update_and_unlock w f) s u down in
          ground (arith, e, down, gone, empty)
    ]
    | inr e ↦
        ground
          (arith, e, active-view s.counts, alive-view s.counts, alive_of_active (view s.counts))
  ]
