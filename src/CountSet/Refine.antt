-- ===== src/CountSet/Refine.antt =====
-- The two representations of sodium/count_set.h count alike, and like three unbounded counters.
use caesium_cxx.Base.{
  ℕ, ◌+◌, ◌-◌, ◌^◌, ◌≤◌, ◌<◌, ◌≡◌, refl, ap, ◌∙◌, inl, inr, List, [], ◌∷◌, arith, ◌==◌, Bool-cases,
  mod_up, mod_down,
}
use caesium_cxx.CountSet.{
  Widths, word_32, word_64, Counts, CountSet, small, large, empty, Kind, strong, stream, node,
  get_count, set_count, bits, active, alive, active_counts, alive_counts, bump, drop_one, inc, dec,
  Op, incs, decs, step, run,
}

-- The counters, whichever way they are held.
abbrev pub view : CountSet → Counts
view (small c) = c
view (large c) = c

-- Every counter is below the modulus of its field.
abbrev pub Below : (Kind → ℕ) → Counts → Type 0
Below m c = (k : Kind) → get_count k c < m k

abbrev pub IsValid : Widths → CountSet → Type 0
IsValid w (small c) = Below (λ k. 2 ^ bits w k) c
IsValid w (large c) = Below (λ _. 2 ^ 32) c

-- No field is wider than an `unsigned`.
abbrev pub IsConfig : Widths → Type 0
IsConfig w = (k : Kind) → 2 ^ bits w k ≤ 2 ^ 32

-- Counting without bounds.
abbrev pub count_up : Op → Counts → Counts
count_up (incs k) c = set_count k (get_count k c + 1) c
count_up (decs k) c = set_count k (get_count k c - 1) c

-- No reference too many for 32 bits, and none released that is not held.
abbrev pub Room : Op → Counts → Type 0
Room (incs k) c = get_count k c + 1 < 2 ^ 32
Room (decs k) c = 0 < get_count k c

get_count-set_count :
    (m : Kind → ℕ) (k : Kind) (n : ℕ) (c : Counts) → Below m c → n < m k → Below m (set_count k n c)
get_count-set_count m strong n c b h strong = h
get_count-set_count m strong n c b h stream = b stream
get_count-set_count m strong n c b h node = b node
get_count-set_count m stream n c b h strong = b strong
get_count-set_count m stream n c b h stream = h
get_count-set_count m stream n c b h node = b node
get_count-set_count m node n c b h strong = b strong
get_count-set_count m node n c b h stream = b stream
get_count-set_count m node n c b h node = h

-- What a step on counters of moduli `m` does, and that it stays within them.
abbrev Counted : (Kind → ℕ) → Op → Counts → Counts → Type 0
Counted m op c d = (d ≡ count_up op c) × Below m d

set_count-Counted :
    (m : Kind → ℕ) (op : Op) (k : Kind) (n n' : ℕ) (c : Counts)
    → Below m c
    → n' < m k
    → n ≡ n'
    → set_count k n' c ≡ count_up op c
    → Counted m op c (set_count k n c)
set_count-Counted m op k n n' c b h e spec =
    (ap (λ x. set_count k x c) e ∙ spec, get_count-set_count m k n c b (omega arith))

bump-Counted :
    (m : Kind → ℕ) (width : ℕ) (k : Kind) (c : Counts)
    → Below m c
    → m k ≡ 2 ^ width
    → get_count k c + 1 < 2 ^ width
    → Counted m (incs k) c (bump width k c)
bump-Counted m width k c b e h =
    set_count-Counted m (incs k) k _ (get_count k c + 1) c b (omega arith)
      (mod_up (get_count k c) (2 ^ width) h) refl

drop_one-Counted :
    (m : Kind → ℕ) (width : ℕ) (k : Kind) (c : Counts)
    → Below m c
    → m k ≡ 2 ^ width
    → 0 < get_count k c
    → Counted m (decs k) c (drop_one width k c)
drop_one-Counted m width k c b e h =
    let fits : get_count k c < 2 ^ width = omega (arith, b k) in
    set_count-Counted m (decs k) k _ (get_count k c - 1) c b (omega arith)
      (mod_down (get_count k c) (2 ^ width) h fits) refl

widen : (w : Widths) (c : Counts) → IsConfig w → IsValid w (small c) → IsValid w (large c)
widen w c cfg v k = omega (arith, cfg k, v k)

-- One step of a valid set: its counters are the unbounded ones, and it stays valid.
pub step-refines :
    (w : Widths) (op : Op) (s : CountSet)
    → IsConfig w
    → IsValid w s
    → Room op (view s)
    → (view (step w op s) ≡ count_up op (view s)) × IsValid w (step w op s)
unfolding inc dec
step-refines w (incs k) (small c) cfg v r = elim (Bool-cases (get_count k c == 2 ^ bits w k - 1)) [
  | inl full ↦ rw full (bump-Counted (λ _. 2 ^ 32) 32 k c (widen w c cfg v) refl r)
  | inr free ↦
      rw free (bump-Counted (λ j. 2 ^ bits w j) (bits w k) k c v refl (ground (arith, v k)))
]
step-refines w (incs k) (large c) cfg v r = bump-Counted (λ _. 2 ^ 32) 32 k c v refl r
step-refines w (decs k) (small c) cfg v r =
    drop_one-Counted (λ j. 2 ^ bits w j) (bits w k) k c v refl r
step-refines w (decs k) (large c) cfg v r = drop_one-Counted (λ _. 2 ^ 32) 32 k c v refl r

abbrev pub count_all : List Op → Counts → Counts
count_all [] c = c
count_all (op ∷ ops) c = count_all ops (count_up op c)

-- There is room for every step of a run.
abbrev pub RoomFor : List Op → Counts → Type 0
RoomFor [] c = Unit {0}
RoomFor (op ∷ ops) c = Room op c × RoomFor ops (count_up op c)

-- Any run of increments and decrements that neither overflows 32 bits nor releases what is not
-- held leaves the packed set valid, holding the counters that unbounded counting gives; and
-- `active` and `alive` read these: `active` is set when there is a strong reference, or both a
-- node and a stream reference, and `alive` when there is any reference.
pub run-refines :
    (w : Widths) (ops : List Op) (s : CountSet)
    → IsConfig w
    → IsValid w s
    → RoomFor ops (view s)
    → (view (run w ops s) ≡ count_all ops (view s))
      × IsValid w (run w ops s)
      × (active (run w ops s) ≡ active_counts (count_all ops (view s)))
      × (alive (run w ops s) ≡ alive_counts (count_all ops (view s)))
unfolding active alive
run-refines w [] (small c) cfg v r = (refl, v, refl, refl)
run-refines w [] (large c) cfg v r = (refl, v, refl, refl)
run-refines w (op ∷ ops) s cfg v r =
    let (e, v') = step-refines w op s cfg v r.0 in
    rw e at (run-refines w ops (step w op s) cfg v' (rw e r.1))

-- What the clients of a count set use.
pub alive-view : (s : CountSet) → alive s ≡ alive_counts (view s)
unfolding alive
alive-view (small c) = refl
alive-view (large c) = refl

pub active-view : (s : CountSet) → active s ≡ active_counts (view s)
unfolding active
active-view (small c) = refl
active-view (large c) = refl

pub IsConfig-word_32 : IsConfig word_32
IsConfig-word_32 strong = omega arith
IsConfig-word_32 stream = omega arith
IsConfig-word_32 node = omega arith

pub IsConfig-word_64 : IsConfig word_64
IsConfig-word_64 strong = omega arith
IsConfig-word_64 stream = omega arith
IsConfig-word_64 node = omega arith

pub empty-IsValid : IsValid word_64 empty
unfolding empty
empty-IsValid strong = omega arith
empty-IsValid stream = omega arith
empty-IsValid node = omega arith
