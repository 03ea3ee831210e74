-- ===== src/Wiring/Unlinking.antt =====
-- What the clean-up of a derived stream undoes.
use caesium_cxx.Base.{
  ℕ, ◌≡◌, refl, ap, ◌∙◌, inl, inr, Bool, true, false, some, List, [], ◌∷◌, ◌++◌, arith, ◌==◌,
  if◌then◌else◌, update, Bool-cases,
}
use caesium_cxx.Network.{Handler, Link, unlink, Net, unlink_link, post}
use caesium_cxx.Wiring.{
  unlinks, Build, unsafe_new_stream, listen_function, listen_raw, unsafe_add_cleanup, map_,
}

pub update_at : {A : Type 0} (f : ℕ → A) (i : ℕ) (v : A) → update f i v i ≡ v
update_at f i v = ground arith

-- Whether a link with the holder is in the list.
unfoldable pub holds : ℕ → List Link → Bool
holds h [] = false
holds h (l ∷ ls) = let rest = holds h ls in if l.h == h then true else rest

unlink_link-append :
    (h n : ℕ) (ls rest : List Link)
    → holds h ls ≡ false
    → unlink_link h (ls ++ record { h = h; n = n } ∷ rest) ≡ ls ++ rest
unfolding unlink_link holds
unlink_link-append h n [] rest e = ground arith
unlink_link-append h n (l ∷ ls) rest e = elim (Bool-cases (l.h == h)) [
  | inl f ↦ absurd (ground (arith, e, f))
  | inr f ↦ rw f (ap (λ xs. l ∷ xs) (unlink_link-append h n ls rest (ground (arith, e, f))))
]

-- A stream that is derived from the stream of node `m` through a handler (`map_`, and so
-- `filter_`, `filter_optional_`, `snapshot_`, `coalesce_` and `last_firing_only_`) has one
-- clean-up, which unlinks the new holder from `m`; when its posted action runs, whatever else has
-- been linked to `m` meanwhile with other holders, `m` has the links that it would have without
-- the derived stream.
pub map_-unlinks :
    {V : Type 0} (handler : Handler V) (m : ℕ) (b : Build V) (ls : List Link) (s : Net V)
    → b.cleanups b.next_node ≡ []
    → holds b.next_holder ls ≡ false
    → let b' = (map_ handler (some m) b).1 in
      s.targets m ≡ ls ++ b'.net.targets m
      → (b'.cleanups b.next_node ≡ unlinks m b.next_holder ∷ [])
        × ((t : Net V) × (post (unlink m b.next_holder) s ≡ some t)
            × (t.targets m ≡ ls ++ b.net.targets m))
unfolding map_ unsafe_new_stream listen_raw listen_function unsafe_add_cleanup post
map_-unlinks handler m b ls s c h e = (
  update_at b.cleanups b.next_node (unlinks m b.next_holder ∷ b.cleanups b.next_node)
      ∙ ap (λ l. unlinks m b.next_holder ∷ l) c,
  (
    _,
    refl,
    update_at s.targets m (unlink_link b.next_holder (s.targets m))
        ∙ ap (unlink_link b.next_holder) (
            e
            ∙ ap (λ l. ls ++ l)
                (update_at b.net.targets m
                  (record { h = b.next_holder; n = b.next_node } ∷ b.net.targets m)))
        ∙ unlink_link-append b.next_holder b.next_node ls (b.net.targets m) h,
  ),
)
