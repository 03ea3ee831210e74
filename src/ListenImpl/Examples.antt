-- ===== src/ListenImpl/Examples.antt =====
-- A stream whose last strong reference goes, with two clean-ups.
use caesium_cxx.Base.{◌≡◌, refl, true, false, some, [], ◌∷◌, arith}
use caesium_cxx.CountSet.{
  CountSet, word_64, small, strong, stream, node, active, alive_counts, inc, dec, incs, decs,
}
use caesium_cxx.CountSet.Refine.{IsValid, IsConfig-word_64}
use caesium_cxx.ListenImpl.{ListenImpl, update_and_unlock}
use caesium_cxx.ListenImpl.Teardown.{update-tears_down}

-- Only the node holds it; the first clean-up takes a stream reference and drops it again.
abbrev dropped : ListenImpl
dropped = record {
  counts = small (record { strong_count = 0; stream_count = 0; node_count = 1 });
  func = true;
  cleanups =
      record { name = 7; refs = incs stream ∷ decs stream ∷ [] }
      ∷ record { name = 8; refs = [] }
      ∷ [];
  ran = [];
  freed = false;
}

dropped-IsValid : IsValid word_64 dropped.counts
dropped-IsValid strong = omega arith
dropped-IsValid stream = omega arith
dropped-IsValid node = omega arith

dropped_idle : active dropped.counts ≡ false
unfolding active
dropped_idle = refl

update-tears_down_example :
    (t : ListenImpl) × (update_and_unlock word_64 2 dropped ≡ some t)
    × (t.ran ≡ 7 ∷ 8 ∷ [])
    × (t.func ≡ false)
    × (t.cleanups ≡ [])
    × (t.freed ≡ false)
update-tears_down_example =
    update-tears_down word_64 IsConfig-word_64 0 dropped dropped-IsValid refl dropped_idle
      (omega arith)

-- The same without the node: the object is freed.
abbrev unreachable : ListenImpl
unreachable = record dropped {
  counts = small (record { strong_count = 0; stream_count = 0; node_count = 0 });
  cleanups = record { name = 8; refs = [] } ∷ [];
}

abbrev remains : ListenImpl
remains = record unreachable { func = false; cleanups = []; ran = 8 ∷ []; freed = true }

unreachable_freed : update_and_unlock word_64 2 unreachable ≡ some remains
unfolding update_and_unlock active caesium_cxx.CountSet.alive inc dec
unreachable_freed = refl
