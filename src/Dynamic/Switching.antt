-- ===== src/Dynamic/Switching.antt =====
-- Where the inner link of a `switch_s` goes when the cell of streams changes.
use caesium_cxx.Base.{
  ℕ, suc, ◌+◌, ◌-◌, ◌≤◌, ◌≡◌, refl, sym, ap, ◌∙◌, true, Option, none, some, List, [], ◌∷◌, ◌++◌,
  map, arith, update, inl, inr, Option-cases, length,
}
use caesium_cxx.Dynamic.Splitting.{last_item}
use mathlib.Core.List.{append-nil, append_assoc}
use caesium_cxx.Network
use caesium_cxx.Network.{Entry, Handler, forward, Link, Post, unlink, unlink_link, Net, kill_once}
use caesium_cxx.Wiring.{Stream}
use caesium_cxx.Dynamic.{
  Reads, switch_s_handler, Machine, Later, posted, handle, handle_all, relinks, absorb, absorb_net,
  relink, switch_over, run_later,
}
use caesium_cxx.Dynamic.Links.{
  without, with_link, kill_of, IsOlder, link_all, add_kill, pending, unlink_all,
  unlink_all-link_all, rounds, rounds-length, length-pending,
}

module _ {V : Type 0} (reads : Reads V) (call : V → V → V) (m : Machine V) where
  -- The machine with other links, kills, handlers and actions.
  abbrev at :
      (ℕ → List Link) → (ℕ → Option (ℕ × ℕ)) → (ℕ → Handler V) → ℕ → List (Later V) → Machine V
  at T K handlers N later = record m {
    build = record m.build {
      net = record m.build.net {
        targets = T;
        kills = K;
        handlers = handlers;
        queue = [];
        posts = [];
      };
      next_holder = N;
    };
    later = later;
  }

  abbrev unlinking : List (ℕ × ℕ) → List (Later V)
  unlinking [] = []
  unlinking ((n, h) ∷ cs) = posted (unlink n h) ∷ unlinking cs

  unlinking-add_kill :
      (c : Option (ℕ × ℕ)) (cs : List (ℕ × ℕ))
      → unlinking (add_kill c cs) ≡ unlinking (add_kill c []) ++ unlinking cs
  unfolding add_kill
  unlinking-add_kill none cs = refl
  unlinking-add_kill (some (n, h)) cs = refl

  kills_old :
      (slot : ℕ) (T : ℕ → List Link) (K : ℕ → Option (ℕ × ℕ)) (Hd : ℕ → Handler V) (N : ℕ)
      (L : List (Later V))
      → (K' : ℕ → Option (ℕ × ℕ)) × (ps : List Post) × (kill_once slot (at T K Hd N L).build.net
          ≡ record (at T K' Hd N L).build.net { posts = ps })
        × (map posted ps ≡ unlinking (add_kill (K slot) []))
  unfolding kill_once add_kill
  kills_old slot T K Hd N L = elim (Option-cases (K slot)) [
    | inl e ↦ (K, [], rw e refl, rw e refl)
    | inr ((n, h), e) ↦ (update K slot none, unlink n h ∷ [], rw e refl, rw e refl)
  ]

  absorbed :
      (f : ℕ) (T : ℕ → List Link) (K : ℕ → Option (ℕ × ℕ)) (Hd : ℕ → Handler V) (N : ℕ)
      (L cs : List (Later V)) (ps : List Post)
      → map posted ps ≡ cs
      → run_later reads call f (record (at T K Hd N (L ++ map posted ps)) { work = m.work ++ [] })
        ≡ run_later reads call f (at T K Hd N (L ++ cs))
  absorbed f T K Hd N L cs ps e =
      ap (λ w. run_later reads call f (record (at T K Hd N (L ++ map posted ps)) { work = w }))
        (append-nil m.work)
      ∙ ap (λ x. run_later reads call f (at T K Hd N (L ++ x))) e

  link_step :
      (f slot target : ℕ) (s : Stream) (T : ℕ → List Link) (K : ℕ → Option (ℕ × ℕ))
      (Hd : ℕ → Handler V) (N : ℕ) (L : List (Later V))
      → (K' : ℕ → Option (ℕ × ℕ)) × (run_later reads call
            (suc f)
            (at T K Hd N (relinks slot target s ∷ L))
          ≡ run_later reads call f (
              at
                (with_link s N target T)
                K'
                (update Hd N forward)
                (N + 1)
                (L ++ unlinking (add_kill (K slot) []))))
        × (K' slot ≡ kill_of s N)
  unfolding run_later switch_over relink absorb with_link kill_of
  link_step f slot target none T K Hd N L =
      let (K', ps, e, e') = kills_old slot T K Hd N L in
      (
        update K' slot none,
        ap
              (λ n. run_later reads call f (
                absorb (relink slot target none true (record (at T K Hd N L).build { net = n }))
                  (at T K Hd N L)))
              e
            ∙ absorbed f T (update K' slot none) (update Hd N forward) (N + 1) L
                (unlinking (add_kill (K slot) [])) ps e',
        ground arith,
      )
  link_step f slot target (some k) T K Hd N L =
      let (K', ps, e, e') = kills_old slot T K Hd N L in
      (
        update K' slot (some (k, N)),
        ap
              (λ n. run_later reads call f (
                absorb (relink slot target (some k) true (record (at T K Hd N L).build { net = n }))
                  (at T K Hd N L)))
              e
            ∙ absorbed f (update T k (record { h = N; n = target } ∷ T k))
                (update K' slot (some (k, N))) (update Hd N forward) (N + 1) L
                (unlinking (add_kill (K slot) [])) ps e',
        ground arith,
      )

  link_steps :
      (ss : List Stream) (f slot target : ℕ) (T : ℕ → List Link) (K : ℕ → Option (ℕ × ℕ))
      (Hd : ℕ → Handler V) (N : ℕ) (L : List (Later V)) (s : Stream)
      → (K' : ℕ → Option (ℕ × ℕ)) × (Hd' : ℕ → Handler V) × (run_later reads call
            (suc (rounds ss f))
            (at T K Hd N (relinks slot target s ∷ map (relinks slot target) ss ++ L))
          ≡ run_later reads call f (
              at
                (link_all N target (s ∷ ss) T)
                K'
                Hd'
                (N + suc (length ss))
                (L ++ unlinking (pending (K slot) N (s ∷ ss)))))
        × (K' slot ≡ kill_of (last_item s ss) (N + length ss))
  unfolding link_all pending last_item rounds
  link_steps [] f slot target T K Hd N L s =
      let (K', e, k) = link_step f slot target s T K Hd N L in
      (K', update Hd N forward, e, k ∙ ap (kill_of s) (omega arith))
  link_steps (r ∷ ss) f slot target T K Hd N L s =
      let (K₁, e₁, k₁) =
        link_step (suc (rounds ss f)) slot target s T K Hd N
          (relinks slot target r ∷ map (relinks slot target) ss ++ L) in
      let (K', Hd', e, k) =
        link_steps ss f slot target (with_link s N target T) K₁ (update Hd N forward) (N + 1)
          (L ++ unlinking (add_kill (K slot) [])) r in
      let T' = link_all (N + 1) target (r ∷ ss) (with_link s N target T) in
      let rest = pending (kill_of s N) (N + 1) (r ∷ ss) in
      (
        K',
        Hd',
        e₁
            ∙ ap
                (λ X.
                  run_later reads call (suc (rounds ss f))
                    (at (with_link s N target T) K₁ (update Hd N forward) (N + 1) X))
                (append_assoc (relinks slot target r ∷ map (relinks slot target) ss) L
                  (unlinking (add_kill (K slot) [])))
            ∙ e
            ∙ ap
                (λ c. run_later reads call f (
                  at T' K' Hd' (N + 1 + suc (length ss)) (
                    (L ++ unlinking (add_kill (K slot) []))
                    ++ unlinking (pending c (N + 1) (r ∷ ss)))))
                k₁
            ∙ ap (λ X. run_later reads call f (at T' K' Hd' (N + 1 + suc (length ss)) X))
                (append_assoc L (unlinking (add_kill (K slot) [])) (unlinking rest)
                  ∙ ap (λ X. L ++ X) (sym (unlinking-add_kill (K slot) rest)))
            ∙ ap
                (λ n.
                  run_later reads call f (at T' K' Hd' n (L ++ unlinking (add_kill (K slot) rest))))
                (omega arith),
        k ∙ ap (kill_of (last_item r ss)) (omega arith),
      )

  unlink_steps :
      (cs : List (ℕ × ℕ)) (f : ℕ) (T : ℕ → List Link) (K : ℕ → Option (ℕ × ℕ)) (Hd : ℕ → Handler V)
      (N : ℕ)
      → run_later reads call (rounds cs (suc f)) (at T K Hd N (unlinking cs))
        ≡ some (at (unlink_all cs T) K Hd N [])
  unfolding run_later absorb_net unlink_all without rounds Network.post
  unlink_steps [] f T K Hd N = refl
  unlink_steps ((n, h) ∷ cs) f T K Hd N =
      absorbed (rounds cs (suc f)) (update T n (unlink_link h (T n))) K Hd N (unlinking cs) [] []
        refl
      ∙ ap
          (λ X.
            run_later reads call (rounds cs (suc f))
              (at (update T n (unlink_link h (T n))) K Hd N X))
          (append-nil (unlinking cs))
      ∙ unlink_steps cs f (update T n (unlink_link h (T n))) K Hd N

module _ {V : Type 0} (reads : Reads V) (call : V → V → V) (m : Machine V) (slot target : ℕ) where
  handle-switches :
      (h : ℕ) (a : V) (m : Machine V)
      → m.kinds h ≡ switch_s_handler slot
      → handle reads h target a m
        ≡ record m { later = m.later ++ relinks slot target (reads.as_stream a) ∷ [] }
  unfolding handle
  handle-switches h a m k = rw (k, handle) refl

  pub handle_all-switches :
      (h : ℕ) (as' : List V) (m : Machine V)
      → m.kinds h ≡ switch_s_handler slot
      → handle_all reads h target as' m
        ≡ record m { later = m.later ++ map (relinks slot target) (map reads.as_stream as') }
  unfolding handle_all
  handle_all-switches h [] m k = ap (λ l. record m { later = l }) (sym (append-nil m.later))
  handle_all-switches h (a ∷ as') m k =
      let m₁ : Machine V = record m {
        later = m.later ++ relinks slot target (reads.as_stream a) ∷ [];
      } in
      ap (handle_all reads h target as') (handle-switches h a m k)
      ∙ handle_all-switches h as' m₁ k
      ∙ ap (λ l. record m { later = l })
          (append_assoc m.later (relinks slot target (reads.as_stream a) ∷ [])
            (map (relinks slot target) (map reads.as_stream as')))

  -- The links after the switch to `last`, by a holder of its own.
  abbrev switched : Stream → ℕ → ℕ → List Link
  switched last h = with_link last h target (without (m.build.net.kills slot) m.build.net.targets)

  pub relinked :
      (fuel : ℕ) (s : Stream) (ss : List Stream)
      → m.build.net.queue ≡ []
      → m.build.net.posts ≡ []
      → IsOlder (m.build.net.kills slot) m.build.next_holder
      → length ss + length ss + 3 ≤ fuel
      → (m' : Machine V) × (run_later reads call fuel
            (record m { later = map (relinks slot target) (s ∷ ss) })
          ≡ some m')
        × (m'.build.net.targets ≡ switched (last_item s ss) (m.build.next_holder + length ss))
        × (m'.build.net.kills slot ≡ kill_of (last_item s ss) (m.build.next_holder + length ss))
        × (m'.build.net.cells ≡ m.build.net.cells)
        × (m'.build.net.firings ≡ m.build.net.firings)
        × (m'.work ≡ m.work)
        × (m'.later ≡ [])
  relinked fuel s ss q p o le =
      let T = m.build.net.targets in
      let K = m.build.net.kills in
      let N = m.build.next_holder in
      let cs = pending (K slot) N (s ∷ ss) in
      let rest : ℕ = fuel - (length ss + length cs + 2) in
      let enough : fuel ≡ suc (rounds ss (rounds cs (suc rest))) = omega (
        arith,
        le,
        rounds-length ss (rounds cs (suc rest)),
        rounds-length cs (suc rest),
        length-pending (s ∷ ss) (K slot) N,
      ) in
      let actions : List (Later V) = map (relinks slot target) (s ∷ ss) in
      let bare : List (Entry V) → List Post → Machine V = λ q p. record m {
        build = record m.build { net = record m.build.net { queue = q; posts = p } };
        later = actions;
      } in
      let (K', Hd', e, k) =
        link_steps reads call m ss (rounds cs (suc rest)) slot target T K m.build.net.handlers N []
          s in
      (
        at reads call m (unlink_all cs (link_all N target (s ∷ ss) T)) K' Hd' (N + suc (length ss))
            [],
        ap (λ n. run_later reads call n (bare m.build.net.queue m.build.net.posts)) enough
            ∙ ap
                (λ q.
                  run_later reads call (suc (rounds ss (rounds cs (suc rest))))
                    (bare q m.build.net.posts))
                q
            ∙ ap (λ p. run_later reads call (suc (rounds ss (rounds cs (suc rest)))) (bare [] p)) p
            ∙ ap
                (λ L.
                  run_later reads call (suc (rounds ss (rounds cs (suc rest))))
                    (at reads call m T K m.build.net.handlers N L))
                (sym (append-nil actions))
            ∙ e
            ∙ unlink_steps reads call m cs rest (link_all N target (s ∷ ss) T) K' Hd'
                (N + suc (length ss)),
        unlink_all-link_all ss s (K slot) N target T o,
        k,
        refl,
        refl,
        refl,
        refl,
      )
