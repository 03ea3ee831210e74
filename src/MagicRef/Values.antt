-- ===== src/MagicRef/Values.antt =====
-- The operations of `magic_ref` of experimental/sodium/impl/magic_ref.h. A value is the list of the
-- links that the references in it refer to; copying it copies these references.
use caesium_cxx.Base.{
  ℕ, Bool, true, false, Option, none, some, List, [], ◌∷◌, ◌==◌, update, is_some,
}
use caesium_cxx.MagicRef.{black, Links, set_count, set_colour, drop_refs, increment, decrement}

-- `new receptacle<A>`, at the number `l`
unfoldable pub new_link : ℕ → Links → Links
new_link l s = record s {
  trace = set_count l 1 (set_colour l black s.trace);
  buffered = update s.buffered l false;
  children = update s.children l [];
  oa = update s.oa l none;
}

unfoldable pub copy_refs : List ℕ → Links → Links
unfolding increment
copy_refs [] s = s
copy_refs (l ∷ ls) s = copy_refs ls (increment l s)

-- `r->oa = boost::optional<A>()`
unfoldable pub clear_value : ℕ → ℕ → Links → Option Links
unfolding drop_refs decrement
clear_value fuel r s = elim (s.oa r) [
  | none ↦ some s
  | some held ↦ elim (drop_refs (decrement fuel) held s) [
    | none ↦ none
    | some s' ↦ some (record s' { oa = update s'.oa r none })
  ]
]

unfoldable pub reset : ℕ → ℕ → Links → Option Links
unfolding clear_value
reset fuel r s = clear_value fuel r (record s { children = update s.children r [] })

-- While the value is copied, the links that it refers to become children of `r`: a temporary
-- `optional` takes a copy, the receptacle takes a copy of that, and the temporary is destroyed.
unfoldable pub store_value : ℕ → ℕ → List ℕ → Links → Option Links
unfolding copy_refs drop_refs decrement
store_value fuel r a s =
    let copied = copy_refs a (copy_refs a (record s { capturer = some r })) in
    elim (drop_refs (decrement fuel) a (record copied { oa = update copied.oa r (some a) })) [
      | none ↦ none
      | some s' ↦ some (record s' { capturer = s.capturer })
    ]

unfoldable pub assign : ℕ → ℕ → List ℕ → Links → Option Links
unfolding reset store_value
assign fuel r a s = elim (reset fuel r s) [ none ↦ none | some s' ↦ store_value fuel r a s' ]

-- `magic_ref(const magic_ref<A>&)` and `~magic_ref`
unfoldable pub copy_ref : ℕ → Links → Links
unfolding increment
copy_ref r s = increment r s

unfoldable pub destroy_ref : ℕ → ℕ → Links → Option Links
unfolding decrement
destroy_ref fuel r s = decrement fuel r s

-- `operator =`: the reference at `r` is made to refer to `other`.
unfoldable pub assign_ref : ℕ → ℕ → ℕ → Links → Option Links
unfolding increment decrement
assign_ref fuel r other s = elim (r == other) [
  | true ↦ some s
  | false ↦ elim (decrement fuel r s) [ none ↦ none | some s' ↦ some (increment other s') ]
]

-- `operator bool`
unfoldable pub assigned : ℕ → Links → Bool
assigned r s = is_some (s.oa r)
