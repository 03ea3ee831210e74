-- ===== src/MergeTree.antt =====
-- `impl::merge` and `merge` of sodium/sodium.h, over a collection of streams: a balanced tree of
-- merges of two. `merge2` is the merge of two streams and `never` the stream that never fires.
pub mod Fold
pub mod Examples
use caesium_cxx.Base.{ℕ, zero, suc, ◌+◌, ◌-◌, ◌/◌, Option, none, some}

module _ {S : Type 0} (never : S) (merge2 : S → S → S) (sas : ℕ → S) where
  -- From `start` to before `end`; the fuel bounds the depth, and `none` means that it ran out.
  unfoldable pub merge_tree : ℕ → ℕ → ℕ → Option S
  merge_tree zero start end = none
  merge_tree (suc fuel) start end =
      let mid = (start + end) / 2 in
      let left = merge_tree fuel start mid in
      let right = merge_tree fuel mid end in
      elim (end - start) [
        | zero ↦ some never
        | suc zero ↦ some (sas start)
        | suc (suc zero) ↦ some (merge2 (sas start) (sas (start + 1)))
        | suc (suc (suc n)) ↦ elim left [
          | none ↦ none
          | some l ↦ elim right [ none ↦ none | some r ↦ some (merge2 l r) ]
        ]
      ]

  -- `merge` of a collection of `size` streams
  unfoldable pub merge_all : ℕ → ℕ → Option S
  unfolding merge_tree
  merge_all fuel size = merge_tree fuel 0 size
