-- ===== src/MagicRef.antt =====
-- `link` and `magic_ref` of experimental/sodium/impl/magic_ref.h and magic_ref.cpp: reference
-- counts, and the collection of cycles in three walks. Links are named by numbers, in the order of
-- their addresses. A walk takes fuel that bounds its depth, and `none` means that it ran out.
pub mod Cycles
pub mod Values
pub mod Edges
pub mod Marking
pub mod Roots
pub mod Scanning
pub mod Garbage
pub mod Collection
pub mod Capture
pub mod Examples
use caesium_cxx.Base.{
  ℕ, zero, suc, ◌+◌, ◌-◌, ◌%◌, ◌^◌, Bool, true, false, not, ◌&&◌, Option, none, some, List, [], ◌∷◌,
  ◌++◌, ltb, ◌==◌, if◌then◌else◌, contains, update,
}

-- `ref_count` is a bit field of 28 bits.
abbrev pub count_mod : ℕ
count_mod = 2 ^ 28

-- `link::colour_t`
pub data Colour : Type 0 where
  black : Colour
  grey : Colour
  white : Colour
  purple : Colour

abbrev pub same_colour : Colour → Colour → Bool
same_colour black black = true
same_colour grey grey = true
same_colour white white = true
same_colour purple purple = true
same_colour _ _ = false

-- What the walks change of the links.
pub record Trace : Type 0 where
  pub ref_count : ℕ → ℕ
  pub colour : ℕ → Colour

-- All links, and the static members of `link`. `oa` lists the links that the references in the
-- value of a receptacle refer to. `capturer` is the link whose `children` it points at. `deleted`
-- lists the links that were deleted, the last one first.
pub record Links : Type 0 where
  pub trace : Trace
  pub buffered : ℕ → Bool
  pub children : ℕ → List ℕ
  pub oa : ℕ → Option (List ℕ)
  pub capturer : Option ℕ
  pub roots : List ℕ
  pub to_delete : List ℕ
  pub deleted : List ℕ

abbrev pub set_count : ℕ → ℕ → Trace → Trace
set_count l c t = record { ref_count = update t.ref_count l c; colour = t.colour }

abbrev pub set_colour : ℕ → Colour → Trace → Trace
set_colour l c t = record { ref_count = t.ref_count; colour = update t.colour l c }

-- `ref_count++` and `ref_count--`
abbrev pub count_up : ℕ → Trace → Trace
count_up l t = set_count l ((t.ref_count l + 1) % count_mod) t

abbrev pub count_down : ℕ → Trace → Trace
count_down l t = set_count l ((t.ref_count l + count_mod - 1) % count_mod) t

-- A `std::set` of links: in order, without duplicates.
unfoldable pub insert_link : ℕ → List ℕ → List ℕ
insert_link l [] = l ∷ []
insert_link l (x ∷ xs) =
    let rest = insert_link l xs in
    if ltb l x then l ∷ x ∷ xs else if l == x then x ∷ xs else x ∷ rest

unfoldable pub erase_link : ℕ → List ℕ → List ℕ
erase_link l [] = []
erase_link l (x ∷ xs) = let rest = erase_link l xs in if l == x then xs else x ∷ rest

-- The element after `l`.
unfoldable pub next_link : ℕ → List ℕ → Option ℕ
next_link l [] = none
next_link l (x ∷ xs) = let rest = next_link l xs in if ltb l x then some x else rest

module _ (children : ℕ → List ℕ) where
  -- `link::mark_grey` and its loop
  unfoldable pub mark_children : (ℕ → Trace → Option Trace) → List ℕ → Trace → Option Trace
  mark_children mark [] t = some t
  mark_children mark (l ∷ ls) t = elim (mark l (count_down l t)) [
    | none ↦ none
    | some t' ↦ mark_children mark ls t'
  ]

  unfoldable pub mark_grey : ℕ → ℕ → Trace → Option Trace
  unfolding mark_children
  mark_grey zero this t = none
  mark_grey (suc fuel) this t = elim (same_colour (t.colour this) grey) [
    | true ↦ some t
    | false ↦ mark_children (mark_grey fuel) (children this) (set_colour this grey t)
  ]

  -- `link::scan_black` and its loop
  unfoldable pub blacken_children : (ℕ → Trace → Option Trace) → List ℕ → Trace → Option Trace
  blacken_children black_scan [] t = some t
  blacken_children black_scan (l ∷ ls) t = elim (same_colour (t.colour l) black) [
    | true ↦ blacken_children black_scan ls (count_up l t)
    | false ↦ elim (black_scan l (count_up l t)) [
      | none ↦ none
      | some t' ↦ blacken_children black_scan ls t'
    ]
  ]

  unfoldable pub scan_black : ℕ → ℕ → Trace → Option Trace
  unfolding blacken_children
  scan_black zero this t = none
  scan_black (suc fuel) this t =
      blacken_children (scan_black fuel) (children this) (set_colour this black t)

  -- `link::scan` and its loop
  unfoldable pub scan_children : (ℕ → Trace → Option Trace) → List ℕ → Trace → Option Trace
  scan_children scan_one [] t = some t
  scan_children scan_one (l ∷ ls) t = elim (scan_one l t) [
    | none ↦ none
    | some t' ↦ scan_children scan_one ls t'
  ]

  unfoldable pub scan : ℕ → ℕ → Trace → Option Trace
  unfolding scan_children scan_black
  scan zero this t = none
  scan (suc fuel) this t = elim (same_colour (t.colour this) grey) [
    | false ↦ some t
    | true ↦ elim (ltb 0 (t.ref_count this)) [
      | true ↦ scan_black (suc fuel) this t
      | false ↦ scan_children (scan fuel) (children this) (set_colour this white t)
    ]
  ]

  -- The loop of `link::scan_roots`; a scan leaves the set as it is.
  unfoldable pub scan_roots : ℕ → List ℕ → Trace → Option Trace
  unfolding scan
  scan_roots fuel [] t = some t
  scan_roots fuel (l ∷ ls) t = elim (scan fuel l t) [
    | none ↦ none
    | some t' ↦ scan_roots fuel ls t'
  ]

-- `capturer->push_back(this)`
unfoldable pub capturer_acquire : ℕ → Links → Links
capturer_acquire l s = elim s.capturer [
  | none ↦ s
  | some c ↦ record s { children = update s.children c (s.children c ++ (l ∷ [])) }
]

-- The loop erases the first element that is `this`, if any.
unfoldable pub capturer_release : ℕ → Links → Links
unfolding erase_link
capturer_release l s = elim s.capturer [
  | none ↦ s
  | some c ↦ record s { children = update s.children c (erase_link l (s.children c)) }
]

unfoldable pub increment : ℕ → Links → Links
unfolding capturer_acquire
increment l s =
    let s' = capturer_acquire l s in record s' { trace = set_colour l black (count_up l s'.trace) }

unfoldable pub possible_root : ℕ → Links → Links
unfolding insert_link
possible_root l s = elim (same_colour (s.trace.colour l) purple) [
  | true ↦ s
  | false ↦ elim (s.buffered l) [
    | true ↦ record s { trace = set_colour l purple s.trace }
    | false ↦ record s {
      trace = set_colour l purple s.trace;
      buffered = update s.buffered l true;
      roots = insert_link l s.roots;
    }
  ]
]

-- The references that a value holds are destroyed one after another.
unfoldable pub drop_refs : (ℕ → Links → Option Links) → List ℕ → Links → Option Links
drop_refs drop [] s = some s
drop_refs drop (l ∷ ls) s = elim (drop l s) [ none ↦ none | some s' ↦ drop_refs drop ls s' ]

-- `delete this`: `~receptacle` destroys the value.
unfoldable pub delete_link : (ℕ → Links → Option Links) → ℕ → Links → Option Links
unfolding drop_refs
delete_link drop l s = elim (s.oa l) [
  | none ↦ some (record s { deleted = l ∷ s.deleted })
  | some held ↦ elim (drop_refs drop held s) [
    | none ↦ none
    | some s' ↦ some (record s' { deleted = l ∷ s'.deleted })
  ]
]

unfoldable pub release : (ℕ → Links → Option Links) → ℕ → Links → Option Links
unfolding delete_link erase_link
release drop l s = elim (s.buffered l) [
  | true ↦ delete_link drop l (record s { roots = erase_link l s.roots })
  | false ↦ delete_link drop l s
]

unfoldable pub decrement : ℕ → ℕ → Links → Option Links
unfolding capturer_release release possible_root
decrement zero l s = none
decrement (suc fuel) l s = elim (contains l s.to_delete) [
  | true ↦ some s
  | false ↦
      let released = capturer_release l s in
      let s' = record released { trace = count_down l released.trace } in
      elim (s'.trace.ref_count l == 0) [
        | true ↦ release (decrement fuel) l s'
        | false ↦ some (possible_root l s')
      ]
]
