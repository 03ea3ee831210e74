-- ===== src/Wiring/Examples.antt =====
-- A mapped stream on node 0, to which a listener is linked afterwards.
use caesium_cxx.Base.{ℕ, ◌+◌, ◌≡◌, refl, some, [], ◌∷◌}
use caesium_cxx.Network.{map_handler, unlink, Net, post}
use caesium_cxx.Wiring.{
  Build, unlinks, map_, unsafe_new_stream, listen_raw, listen_function, unsafe_add_cleanup,
}
use caesium_cxx.Wiring.Unlinking.{holds, map_-unlinks}
use caesium_cxx.Wiring.Late.{one_node, listen_to}

abbrev mapped : Build ℕ
mapped = (map_ (map_handler (λ n. n + 1)) (some 0) (one_node 7)).1

abbrev listened : Build ℕ
listened = listen_to 7 (some 0) mapped

map_-unlinks_example :
    (mapped.cleanups 1 ≡ unlinks 0 0 ∷ [])
    × ((t : Net ℕ) × (post (unlink 0 0) listened.net ≡ some t)
        × (t.targets 0 ≡ record { h = 1; n = 99 } ∷ []))
unfolding map_ unsafe_new_stream listen_raw listen_function unsafe_add_cleanup one_node holds
map_-unlinks_example =
    map_-unlinks (map_handler (λ n. n + 1)) 0 (one_node 7) (record { h = 1; n = 99 } ∷ [])
      listened.net refl refl refl
