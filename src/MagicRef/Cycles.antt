-- ===== src/MagicRef/Cycles.antt =====
-- `link::collect_cycles` of experimental/sodium/impl/magic_ref.cpp, of the three walks.
use caesium_cxx.Base.{
  ℕ, zero, suc, Bool, true, false, not, ◌&&◌, Option, none, some, List, [], ◌∷◌, ltb, ◌==◌, update,
}
use caesium_cxx.MagicRef.{
  black, white, purple, same_colour, Links, set_colour, insert_link, erase_link, next_link,
  mark_grey, scan_roots, delete_link, decrement,
}

-- The body of the loop of `mark_roots`.
unfoldable pub mark_root : ℕ → ℕ → Links → Option Links
unfolding mark_grey erase_link delete_link decrement
mark_root fuel l s =
    let c = s.trace.colour l in
    let kept = record s { buffered = update s.buffered l false; roots = erase_link l s.roots } in
    elim (same_colour c purple && ltb 0 (s.trace.ref_count l)) [
      | true ↦ elim (mark_grey s.children fuel l s.trace) [
        | none ↦ none
        | some t ↦ some (record s { trace = t })
      ]
      | false ↦ elim (same_colour c black && (s.trace.ref_count l == 0)) [
        | true ↦ delete_link (decrement fuel) l kept
        | false ↦ some kept
      ]
    ]

-- The loop from `it`; the iterator moves on before the element is erased.
unfoldable pub mark_from : ℕ → Option ℕ → Links → Option Links
unfolding mark_root next_link
mark_from zero it s = none
mark_from (suc fuel) none s = some s
mark_from (suc fuel) (some l) s = elim (mark_root fuel l s) [
  | none ↦ none
  | some s' ↦ mark_from fuel (next_link l s.roots) s'
]

-- `begin()`
abbrev pub first_link : List ℕ → Option ℕ
first_link [] = none
first_link (x ∷ xs) = some x

unfoldable pub mark_roots : ℕ → Links → Option Links
unfolding mark_from
mark_roots fuel s = mark_from fuel (first_link s.roots) s

-- `link::collect_white` and its loop
unfoldable pub collect_children : (ℕ → Links → Option Links) → List ℕ → Links → Option Links
collect_children collect [] s = some s
collect_children collect (l ∷ ls) s = elim (collect l s) [
  | none ↦ none
  | some s' ↦ collect_children collect ls s'
]

unfoldable pub collect_white : ℕ → ℕ → Links → Option Links
unfolding collect_children insert_link
collect_white zero this s = none
collect_white (suc fuel) this s =
    elim (same_colour (s.trace.colour this) white && not (s.buffered this)) [
      | false ↦ some s
      | true ↦
          elim (collect_children (collect_white fuel) (s.children this)
            (record s { trace = set_colour this black s.trace })) [
              | none ↦ none
              | some s' ↦ some (record s' { to_delete = insert_link this s'.to_delete })
            ]
    ]

-- The loop of `collect_roots`, which ends with an empty set.
unfoldable pub collect_each : ℕ → List ℕ → Links → Option Links
unfolding collect_white
collect_each fuel [] s = some s
collect_each fuel (l ∷ ls) s =
    elim (collect_white fuel l (record s { buffered = update s.buffered l false })) [
      | none ↦ none
      | some s' ↦ collect_each fuel ls s'
    ]

unfoldable pub collect_roots : ℕ → Links → Option Links
unfolding collect_each
collect_roots fuel s = elim (collect_each fuel s.roots s) [
  | none ↦ none
  | some s' ↦ some (record s' { roots = [] })
]

-- The loop that deletes the links of `to_delete`.
unfoldable pub delete_each : ℕ → List ℕ → Links → Option Links
unfolding delete_link decrement
delete_each fuel [] s = some s
delete_each fuel (l ∷ ls) s = elim (delete_link (decrement fuel) l s) [
  | none ↦ none
  | some s' ↦ delete_each fuel ls s'
]

-- The walks of `mark_roots` and `scan_roots`, after which garbage is white.
unfoldable pub trace_cycles : ℕ → Links → Option Links
unfolding mark_roots scan_roots
trace_cycles fuel s = elim (mark_roots fuel s) [
  | none ↦ none
  | some s' ↦ elim (scan_roots s'.children fuel s'.roots s'.trace) [
    | none ↦ none
    | some t ↦ some (record s' { trace = t })
  ]
]

-- `collect_cycles`, with whether its last assertion holds.
unfoldable pub collect_cycles : ℕ → Links → Option (Bool × Links)
unfolding trace_cycles collect_roots delete_each
collect_cycles fuel s = elim (trace_cycles fuel s) [
  | none ↦ none
  | some traced ↦ elim (collect_roots fuel traced) [
    | none ↦ none
    | some found ↦ elim (delete_each fuel found.to_delete found) [
      | none ↦ none
      | some s' ↦ some (elim s'.roots [ [] ↦ true | _ ∷ _ ↦ false ], record s' { to_delete = [] })
    ]
  ]
]
