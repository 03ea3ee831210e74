-- ===== src/Dynamic/Posted.antt =====
-- The action of a `switch_s` behind the actions that were posted before it.
use caesium_cxx.Base.{
  ℕ, ◌+◌, ◌-◌, ◌≤◌, ◌≡◌, refl, sym, ap, subst, ◌∙◌, Option, none, some, List, [], ◌∷◌, ◌++◌, map,
  update, arith, length,
}
use mathlib.Core.List.{append-nil}
use caesium_cxx.Network
use caesium_cxx.Network.{Post, clear_firings, finalize, unlink, unlink_link, Link, Net, run_posts}
use caesium_cxx.Wiring.{Stream}
use caesium_cxx.Dynamic.{
  Reads, switch_s_handler, Machine, Later, posted, handle_all, relinks, absorb, absorb_net,
  run_action, run_later,
}
use caesium_cxx.Dynamic.Links.{
  with_link, without, kill_of, IsOlder, rounds, rounds-length, length-map,
}
use caesium_cxx.Dynamic.Splitting.{last_item}
use caesium_cxx.Dynamic.Switching.{relinked, handle_all-switches}

module _ {V : Type 0} (reads : Reads V) (call : V → V → V) (m : Machine V) where
  abbrev bare : Net V → Net V
  bare s = record s { queue = []; posts = [] }

  abbrev with_net : Net V → List (Later V) → Machine V
  with_net s L = record m { build = record m.build { net = s }; later = L }

  -- What is run after the posted actions, if they come to their end.
  abbrev after : ℕ → List (Later V) → Option (Net V) → Option (Machine V)
  after fuel L none = none
  after fuel L (some t) = run_later reads call fuel (with_net t L)

  absorbs :
      (fuel : ℕ) (s : Net V) (L : List (Later V))
      → run_later reads call fuel (record (with_net (bare s) (L ++ [])) { work = m.work ++ [] })
        ≡ run_later reads call fuel (with_net (bare s) L)
  absorbs fuel s L =
      ap (λ w. run_later reads call fuel (record (with_net (bare s) (L ++ [])) { work = w }))
        (append-nil m.work)
      ∙ ap (λ x. run_later reads call fuel (with_net (bare s) x)) (append-nil L)

  -- `finalize` of a cell that has, or has not, an update.
  abbrev settled : ℕ → Net V → V → Net V
  settled c s v = record s { cells = update s.cells c (record { current = v; update = none }) }

  abbrev cleared : ℕ → Net V → Net V
  cleared n s = record s { firings = update s.firings n [] }

  abbrev unlinked : ℕ → ℕ → Net V → Net V
  unlinked n h s = record s { targets = update s.targets n (unlink_link h (s.targets n)) }

  abbrev settles : ℕ → Net V → Option V → Option (Net V)
  settles c s none = none
  settles c s (some v) = some (settled c s v)

  abbrev goes_on : List Post → Option (Net V) → Option (Net V)
  goes_on ps none = none
  goes_on ps (some t) = run_posts ps t

  abbrev takes_over : List (Later V) → Option (Net V) → Option (Machine V)
  takes_over L none = none
  takes_over L (some t) = some (absorb_net t (record m { later = L }))

  abbrev goes_on_later : ℕ → Option (Machine V) → Option (Machine V)
  goes_on_later fuel none = none
  goes_on_later fuel (some t) = run_later reads call fuel t

  finalized :
      (c : ℕ) (ps : List Post) (fuel : ℕ) (s : Net V) (L : List (Later V)) (o : Option V)
      → ((s : Net V) (L : List (Later V))
          → run_later reads call (rounds ps fuel) (with_net (bare s) (map posted ps ++ L))
            ≡ after fuel L (run_posts ps (bare s)))
      → goes_on_later (rounds ps fuel) (takes_over (map posted ps ++ L) (settles c (bare s) o))
        ≡ after fuel L (goes_on ps (settles c (bare s) o))
  unfolding absorb_net absorb
  finalized c ps fuel s L none more = refl
  finalized c ps fuel s L (some v) more =
      absorbs (rounds ps fuel) (settled c s v) (map posted ps ++ L) ∙ more (settled c s v) L

  run_later-posted :
      (ps : List Post) (fuel : ℕ) (s : Net V) (L : List (Later V))
      → run_later reads call (rounds ps fuel) (with_net (bare s) (map posted ps ++ L))
        ≡ after fuel L (run_posts ps (bare s))
  unfolding run_later run_action absorb_net absorb rounds run_posts Network.post
  run_later-posted [] fuel s L = refl
  run_later-posted (clear_firings n ∷ ps) fuel s L =
      absorbs (rounds ps fuel) (cleared n s) (map posted ps ++ L)
      ∙ run_later-posted ps fuel (cleared n s) L
  run_later-posted (finalize c ∷ ps) fuel s L =
      finalized c ps fuel s L (s.cells c).update (run_later-posted ps fuel)
  run_later-posted (unlink n h ∷ ps) fuel s L =
      absorbs (rounds ps fuel) (unlinked n h s) (map posted ps ++ L)
      ∙ run_later-posted ps fuel (unlinked n h s) L

  -- What posted actions leave as it was.
  abbrev Keeps : (ℕ → Option (ℕ × ℕ)) → Option (Net V) → Type 0
  Keeps K none = Unit
  Keeps K (some t) = (t.kills ≡ K) × (t.queue ≡ []) × (t.posts ≡ [])

  finalized-Keeps :
      (c : ℕ) (ps : List Post) (s : Net V) (o : Option V)
      → ((s : Net V) → Keeps s.kills (run_posts ps (bare s)))
      → Keeps s.kills (goes_on ps (settles c (bare s) o))
  finalized-Keeps c ps s none more = tt
  finalized-Keeps c ps s (some v) more = more (settled c s v)

  run_posts-Keeps : (ps : List Post) (s : Net V) → Keeps s.kills (run_posts ps (bare s))
  unfolding run_posts Network.post
  run_posts-Keeps [] s = (refl, refl, refl)
  run_posts-Keeps (clear_firings n ∷ ps) s = run_posts-Keeps ps (cleared n s)
  run_posts-Keeps (finalize c ∷ ps) s =
      finalized-Keeps c ps s (s.cells c).update (run_posts-Keeps ps)
  run_posts-Keeps (unlink n h ∷ ps) s = run_posts-Keeps ps (unlinked n h s)

module _ {V : Type 0} (reads : Reads V) (call : V → V → V) (slot target : ℕ) where
  relinked-posted :
      (ps : List Post) (fuel : ℕ) (m : Machine V) (t : Net V) (s : Stream) (ss : List Stream)
      → m.build.net.queue ≡ []
      → m.build.net.posts ≡ []
      → run_posts ps m.build.net ≡ some t
      → length ps ≤ fuel
      → (run_later reads call fuel
            (record m { later = map posted ps ++ map (relinks slot target) (s ∷ ss) })
          ≡ run_later reads call (fuel - length ps) (record m {
            build = record m.build { net = t };
            later = map (relinks slot target) (s ∷ ss);
          }))
        × (t.kills ≡ m.build.net.kills)
        × (t.queue ≡ [])
        × (t.posts ≡ [])
  relinked-posted ps fuel m t s ss q p run le =
      let L : List (Later V) = map posted ps ++ map (relinks slot target) (s ∷ ss) in
      let same : bare reads call m m.build.net ≡ m.build.net =
        ap (λ x. record m.build.net { queue = x; posts = [] }) (sym q)
        ∙ ap (λ x. record m.build.net { posts = x }) (sym p) in
      let enough : fuel ≡ rounds ps (fuel - length ps) =
        omega (arith, le, rounds-length ps (fuel - length ps)) in
      let run' : run_posts ps (bare reads call m m.build.net) ≡ some t =
        ap (run_posts ps) same ∙ run in
      let (kills, queue, posts) =
        subst (Keeps reads call m m.build.net.kills) run'
          (run_posts-Keeps reads call m ps m.build.net) in
      (
        ap (λ n. run_later reads call fuel (with_net reads call m n L)) (sym same)
            ∙ ap
                (λ k.
                  run_later reads call k (with_net reads call m (bare reads call m m.build.net) L))
                enough
            ∙ run_later-posted reads call m ps (fuel - length ps) m.build.net
                (map (relinks slot target) (s ∷ ss))
            ∙ ap (after reads call m (fuel - length ps) (map (relinks slot target) (s ∷ ss))) run',
        kills,
        queue,
        posts,
      )

  -- When `switch_s` is told of streams, the last of which is `last`, in a transaction that has
  -- posted actions `ps` of any kind but those of `switch_s` and `split`, such as the clearing of
  -- firings and the finalizing of cells; between two calls of handlers, when the network's own
  -- queues have been taken over; when the slot holds nothing
  -- or an older link; when `ps` leave the network as `t`, and with a round for each of them and for
  -- each link to make and to take away: all these actions run to an end. Then the target is linked
  -- to `last` by a new holder, the link that the slot had is gone, and all other links, the cells
  -- and the firings are as in `t`; the slot has the new link; and no entry is queued, so that a
  -- firing of `last` earlier in the transaction does not come through.
  pub handle_all-relinks :
      (ps : List Post) (fuel h : ℕ) (a : V) (as' : List V) (m : Machine V) (t : Net V)
      → m.kinds h ≡ switch_s_handler slot
      → m.later ≡ map posted ps
      → m.build.net.queue ≡ []
      → m.build.net.posts ≡ []
      → run_posts ps m.build.net ≡ some t
      → IsOlder (m.build.net.kills slot) m.build.next_holder
      → length ps + length as' + length as' + 3 ≤ fuel
      → let last = last_item (reads.as_stream a) (map reads.as_stream as') in
        let holder = m.build.next_holder + length as' in
        (m' : Machine V) × (run_later reads call fuel (handle_all reads h target (a ∷ as') m)
          ≡ some m')
        × (m'.build.net.targets
            ≡ with_link last holder target (without (m.build.net.kills slot) t.targets))
        × (m'.build.net.kills slot ≡ kill_of last holder)
        × (m'.build.net.cells ≡ t.cells)
        × (m'.build.net.firings ≡ t.firings)
        × (m'.work ≡ m.work)
        × (m'.later ≡ [])
  handle_all-relinks ps fuel h a as' m t k l q p run o le =
      let s = reads.as_stream a in
      let ss = map reads.as_stream as' in
      let same : length ss ≡ length as' = length-map reads.as_stream as' in
      let (skip, kills, tq, tp) = relinked-posted ps fuel m t s ss q p run (omega (arith, le)) in
      let mt : Machine V = record m { build = record m.build { net = t } } in
      let (m', e, links, kill, cells, firings, work, later) =
        relinked reads call mt slot target (fuel - length ps) s ss tq tp
          (subst (λ K. IsOlder (K slot) m.build.next_holder) (sym kills) o)
          (omega (arith, same, le)) in
      (
        m',
        ap (run_later reads call fuel) (
              handle_all-switches reads call m slot target h (a ∷ as') m k
              ∙ ap (λ x. record m { later = x ++ map (relinks slot target) (s ∷ ss) }) l)
            ∙ skip
            ∙ e,
        links
            ∙ ap
                (λ n.
                  with_link (last_item s ss) (m.build.next_holder + n) target
                    (without (t.kills slot) t.targets))
                same
            ∙ ap
                (λ K.
                  with_link (last_item s ss) (m.build.next_holder + length as') target
                    (without (K slot) t.targets))
                kills,
        kill ∙ ap (λ n. kill_of (last_item s ss) (m.build.next_holder + n)) same,
        cells,
        firings,
        work,
        later,
      )
