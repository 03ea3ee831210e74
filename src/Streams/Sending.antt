-- ===== src/Streams/Sending.antt =====
-- The order in which the sends of a transaction run.
use caesium_cxx.Base.{
  ℕ, suc, ◌+◌, ◌*◌, ◌≤◌, ◌<◌, ◌≡◌, refl, sym, ap, subst, ◌∙◌, inl, inr, Bool, true, ◌&&◌, some,
  List, [], ◌∷◌, ◌++◌, arith, ltb, ◌==◌, Bool-cases, Option-cases, length, update,
}
use caesium_cxx.Prioritized.{
  seq_mod, Request, ask, ask_last, ask_post, ask_regen, Transaction, run_entries,
}
use caesium_cxx.Prioritized.Order.{ranked, has}
use caesium_cxx.Prioritized.Closing.{Climbs, Ordered, climbs, asked, queued, run_entries-falls}
use caesium_cxx.Prioritized.Nodes.{Listener, Nodes}
use caesium_cxx.Streams.{
  Handler, map_to, merge_to, filter_to, filter_optional_to, coalesce_to, snapshot_to, accum_to,
  collect_to, hold_in, call, Act, fire, fire_all, send_coalesced, spark, clear_firings, finalize,
  World, set_firings, ask_each, ask_clear, send, handle, map_fires, merge_fires, coalesce_fires,
  filter_fires, filter_optional_fires, snapshot_fires, accum_fires, collect_fires, handle_all, run,
  sample, hold_update, finalize_cell,
}

-- The rank that an entry has when it is made.
abbrev pub rank_now : World → ℕ → ℕ
rank_now w n = w.nodes.rank n

-- A graph of listeners that does not change. `null` is the node of listeners that send on nothing.
module _ (nodes : Nodes) (handlers : ℕ → Handler) (node_of : ℕ → ℕ) (null : ℕ)
    (weight : ℕ → ℕ) where
  -- The node that a listener is queued at.
  abbrev pub listens_at : Handler → ℕ
  listens_at (map_to f out) = node_of out
  listens_at (merge_to at out) = at
  listens_at (filter_to p out) = node_of out
  listens_at (filter_optional_to f out) = node_of out
  listens_at (coalesce_to f st out) = node_of out
  listens_at (snapshot_to f c out) = node_of out
  listens_at (accum_to f st out) = node_of out
  listens_at (collect_to f st out) = node_of out
  listens_at (hold_in c) = null
  listens_at call = null

  -- The work of one call of a listener, where `weight` bounds that of a send on each stream.
  abbrev pub cost : Handler → ℕ
  cost (map_to f out) = weight out
  cost (merge_to at out) = weight out
  cost (filter_to p out) = weight out
  cost (filter_optional_to f out) = weight out
  cost (coalesce_to f st out) = suc (suc (weight out))
  cost (snapshot_to f c out) = weight out
  cost (accum_to f st out) = weight out
  cost (collect_to f st out) = weight out
  cost (hold_in c) = 0
  cost call = 0

  abbrev pub room : Act → ℕ
  room (fire k a) = cost (handlers k)
  room (fire_all k values) = length values * cost (handlers k)
  room (send_coalesced st out) = weight out
  room (spark s) = weight s
  room (clear_firings s) = 0
  room (finalize c) = 0

  abbrev pub work : Act → ℕ
  work a = suc (room a)

  abbrev pub level : Act → ℕ
  level (fire k a) = nodes.rank (listens_at (handlers k))
  level (fire_all k values) = nodes.rank (listens_at (handlers k))
  level (send_coalesced st out) = nodes.rank (node_of out)
  level (spark s) = nodes.rank (node_of s)
  level (clear_firings s) = 0
  level (finalize c) = 0

  -- The listeners of a stream of rank `r` stand at nodes of greater ranks, and know their nodes;
  -- their work together.
  unfoldable pub above : ℕ → List Listener → Bool
  above r [] = true
  above r (t ∷ ts) =
      (t.node == listens_at (handlers t.action)) && ltb r (nodes.rank t.node) && above r ts

  unfoldable pub burden : List Listener → ℕ
  burden [] = 0
  burden (t ∷ ts) = suc (suc (cost (handlers t.action))) + burden ts

  -- Ranks go up along listeners, from the node that a handler listens at to the stream that it
  -- sends on, and weights bound the work of the listeners.
  pub record Rising : Type 0 where
    pub links : (s : ℕ) → above (nodes.rank (node_of s)) (nodes.listeners (node_of s)) ≡ true
    pub merges :
        (k at out : ℕ) → handlers k ≡ merge_to at out → nodes.rank at ≤ nodes.rank (node_of out)
    pub loads : (s : ℕ) → burden (nodes.listeners (node_of s)) ≤ weight s

  -- The world has this graph.
  pub record Fixed (w : World) : Type 0 where
    pub same_nodes : w.nodes ≡ nodes
    pub same_handlers : w.handlers ≡ handlers
    pub same_streams : (s : ℕ) → (w.streams s).node ≡ node_of s

  ask_each-climbs :
      (w : World) (a : Act) (ts : List Listener) (v r : ℕ)
      → w.nodes ≡ nodes
      → level a ≤ r
      → above r ts ≡ true
      → climbs rank_now level work w a (ask_each ts v) ≡ true
  unfolding climbs ask_each above
  ask_each-climbs w a [] v r e le h = refl
  ask_each-climbs w a (t ∷ ts) v r e le h =
      let same : t.node ≡ listens_at (handlers t.action) = ground (arith, h) in
      let here : nodes.rank t.node ≡ nodes.rank (listens_at (handlers t.action)) =
        ap nodes.rank same in
      let now : w.nodes.rank t.node ≡ nodes.rank t.node = ap (λ m. m.rank t.node) e in
      ground (arith, h, le, here, now, ask_each-climbs w a ts v r e le)

  asked-ask_each :
      (ts : List Listener) (v : ℕ) → asked rank_now level work (ask_each ts v) ≡ burden ts
  unfolding asked ask_each burden
  asked-ask_each [] v = refl
  asked-ask_each (t ∷ ts) v = omega (arith, asked-ask_each ts v)

  climbs-append :
      (w : World) (a : Act) (xs ys : List (Request Act))
      → climbs rank_now level work w a xs ≡ true
      → climbs rank_now level work w a ys ≡ true
      → climbs rank_now level work w a (xs ++ ys) ≡ true
  unfolding climbs
  climbs-append w a [] ys h k = k
  climbs-append w a (ask n b ∷ xs) ys h k = ground (arith, h, climbs-append w a xs ys, k)
  climbs-append w a (ask_last b ∷ xs) ys h k = climbs-append w a xs ys h k
  climbs-append w a (ask_post b ∷ xs) ys h k = climbs-append w a xs ys h k
  climbs-append w a (ask_regen ∷ xs) ys h k = cc

  asked-append :
      (xs ys : List (Request Act))
      → asked rank_now level work (xs ++ ys)
        ≡ asked rank_now level work xs + asked rank_now level work ys
  unfolding asked
  asked-append [] ys = omega arith
  asked-append (ask n b ∷ xs) ys = omega (arith, asked-append xs ys)
  asked-append (ask_last b ∷ xs) ys = asked-append xs ys
  asked-append (ask_post b ∷ xs) ys = asked-append xs ys
  asked-append (ask_regen ∷ xs) ys = asked-append xs ys

  -- What an action asks for and leaves, when it may ask for the work `most` and was queued as `a`.
  record Does (a : Act) (most : ℕ) (r : World × List (Request Act)) : Type 0 where
    fixed : Fixed r.0
    up : (u : World) → Fixed u → climbs rank_now level work u a r.1 ≡ true
    load : asked rank_now level work r.1 ≤ most

  ask_clear-climbs :
      (w : World) (a : Act) (s : ℕ) (xs : List ℕ)
      → climbs rank_now level work w a (ask_clear s xs) ≡ true
  unfolding climbs ask_clear
  ask_clear-climbs w a s [] = refl
  ask_clear-climbs w a s (x ∷ xs) = refl

  asked-ask_clear : (s : ℕ) (xs : List ℕ) → asked rank_now level work (ask_clear s xs) ≡ 0
  unfolding asked ask_clear
  asked-ask_clear s [] = refl
  asked-ask_clear s (x ∷ xs) = refl

  set_firings-Fixed :
      (s : ℕ) (values : List ℕ) (w : World) → Fixed w → Fixed (set_firings s values w)
  unfolding set_firings
  set_firings-Fixed s values w f = record {
    same_nodes = f.same_nodes;
    same_handlers = f.same_handlers;
    same_streams = λ x. elim (Bool-cases (s == x)) [
      | inl hit ↦ let same : s ≡ x = ground arith in rw (hit, ← same) (f.same_streams s)
      | inr miss ↦ rw miss (f.same_streams x)
    ];
  }

  send-Does :
      Rising
      → (a : Act) (s v : ℕ) (w : World) → Fixed w
      → level a ≤ nodes.rank (node_of s)
      → Does a (weight s) (send s v w)
  unfolding send
  send-Does g a s v w f le =
      let i = w.streams s in
      let ls : w.nodes.listeners i.node ≡ nodes.listeners (node_of s) =
        ap (λ m. m.listeners i.node) f.same_nodes ∙ ap nodes.listeners (f.same_streams s) in
      record {
        fixed = set_firings-Fixed s (v ∷ i.firings) w f;
        up = λ u fu.
            climbs-append u a (ask_clear s i.firings) (ask_each (w.nodes.listeners i.node) v)
              (ask_clear-climbs u a s i.firings)
              (subst (λ ts. climbs rank_now level work u a (ask_each ts v) ≡ true) (sym ls)
                (ask_each-climbs u a (nodes.listeners (node_of s)) v (nodes.rank (node_of s))
                  fu.same_nodes le (g.links s)));
        load = omega (
          arith,
          asked-append (ask_clear s i.firings) (ask_each (w.nodes.listeners i.node) v),
          asked-ask_clear s i.firings,
          asked-ask_each (w.nodes.listeners i.node) v,
          ap burden ls,
          g.loads s,
        );
      }

  -- An action that asks for nothing.
  idle-Does : (a : Act) (most : ℕ) (w : World) → Fixed w → Does a most (w, [])
  unfolding climbs asked
  idle-Does a most w f = record { fixed = f; up = λ u fu. refl; load = omega arith }

  coalesce-Does :
      Rising
      → (a : Act) (f : ℕ → ℕ → ℕ) (st out v : ℕ) (w : World) → Fixed w
      → level a ≤ nodes.rank (node_of out)
      → Does a (suc (suc (weight out))) (coalesce_fires f st out v w)
  unfolding coalesce_fires climbs asked
  coalesce-Does g a f st out v w fx le = elim (Option-cases (w.p_state st)) [
    | inl new ↦
        rw (new, coalesce_fires)
          (record {
            fixed = record {
              same_nodes = fx.same_nodes;
              same_handlers = fx.same_handlers;
              same_streams = fx.same_streams;
            };
            up = λ u fu.
                let now : u.nodes.rank (w.streams out).node ≡ nodes.rank (node_of out) =
                  ap (λ m. m.rank (w.streams out).node) fu.same_nodes
                  ∙ ap nodes.rank (fx.same_streams out) in
                ground (arith, now, le);
            load = omega arith;
          })
    | inr (b, old) ↦
        rw (old, coalesce_fires)
          (record {
            fixed = record {
              same_nodes = fx.same_nodes;
              same_handlers = fx.same_handlers;
              same_streams = fx.same_streams;
            };
            up = λ u fu. refl;
            load = omega arith;
          })
  ]

  hold-Does : (a : Act) (c v : ℕ) (w : World) → Fixed w → Does a 0 (hold_update c v w)
  unfolding hold_update climbs asked
  hold-Does a c v w f = elim (Option-cases (w.receptacles (w.cells c).value_update)) [
    | inl first ↦
        rw (first, hold_update)
          (record {
            fixed = record {
              same_nodes = f.same_nodes;
              same_handlers = f.same_handlers;
              same_streams = f.same_streams;
            };
            up = λ u fu. refl;
            load = omega arith;
          })
    | inr (b, again) ↦
        rw (again, hold_update)
          (record {
            fixed = record {
              same_nodes = f.same_nodes;
              same_handlers = f.same_handlers;
              same_streams = f.same_streams;
            };
            up = λ u fu. refl;
            load = omega arith;
          })
  ]

  -- Every listener, when its node has the rank of the action or a greater one.
  handle-Does :
      Rising
      → (k : ℕ) (h : Handler) (v : ℕ) (a : Act) (w : World) → handlers k ≡ h
      → Fixed w
      → level a ≤ nodes.rank (listens_at h)
      → Does a (cost h) (handle h v w)
  unfolding handle map_fires merge_fires filter_fires filter_optional_fires snapshot_fires
      accum_fires collect_fires
  handle-Does g k (map_to m out) v a w e f le = send-Does g a out (m v) w f le
  handle-Does g k (merge_to at out) v a w e f le =
      send-Does g a out v w f (omega (arith, g.merges k at out e))
  handle-Does g k (filter_to p out) v a w e f le = elim (Bool-cases (p v)) [
    | inl found ↦ rw (found, filter_fires) (send-Does g a out v w f le)
    | inr missing ↦ rw (missing, filter_fires) (idle-Does a (weight out) w f)
  ]
  handle-Does g k (filter_optional_to m out) v a w e f le = elim (Option-cases (m v)) [
    | inl missing ↦ rw (missing, filter_optional_fires) (idle-Does a (weight out) w f)
    | inr (b, found) ↦ rw (found, filter_optional_fires) (send-Does g a out b w f le)
  ]
  handle-Does g k (coalesce_to m st out) v a w e f le = coalesce-Does g a m st out v w f le
  handle-Does g k (snapshot_to m c out) v a w e f le = elim (Option-cases (sample c w)) [
    | inl missing ↦
        rw (missing, snapshot_fires)
          (idle-Does a (weight out) (record w { failed = true })
            (record {
              same_nodes = f.same_nodes;
              same_handlers = f.same_handlers;
              same_streams = f.same_streams;
            }))
    | inr (b, found) ↦ rw (found, snapshot_fires) (send-Does g a out (m v b) w f le)
  ]
  handle-Does g k (accum_to m st out) v a w e f le =
      let b = m v (w.s_lazy st) in
      send-Does g a out b (record w { s_lazy = update w.s_lazy st b })
        (record {
          same_nodes = f.same_nodes;
          same_handlers = f.same_handlers;
          same_streams = f.same_streams;
        })
        le
  handle-Does g k (collect_to m st out) v a w e f le =
      let p = m v (w.s_lazy st) in
      send-Does g a out p.0 (record w { s_lazy = update w.s_lazy st p.1 })
        (record {
          same_nodes = f.same_nodes;
          same_handlers = f.same_handlers;
          same_streams = f.same_streams;
        })
        le
  handle-Does g k (hold_in c) v a w e f le = hold-Does a c v w f
  handle-Does g k call v a w e f le =
      idle-Does a 0 (record w { heard = v ∷ w.heard })
        (record {
          same_nodes = f.same_nodes;
          same_handlers = f.same_handlers;
          same_streams = f.same_streams;
        })

  handle_all-Does :
      Rising
      → (k : ℕ) (values : List ℕ) (a : Act) (w : World) → Fixed w
      → level a ≤ nodes.rank (listens_at (handlers k))
      → Does a (length values * cost (handlers k)) (handle_all (handlers k) values w)
  unfolding handle_all
  handle_all-Does g k [] a w f le = idle-Does a (0 * cost (handlers k)) w f
  handle_all-Does g k (v ∷ vs) a w f le =
      let one = handle-Does g k (handlers k) v a w refl f le in
      let p = handle (handlers k) v w in
      let rest = handle_all-Does g k vs a p.0 one.fixed le in
      let q = handle_all (handlers k) vs p.0 in
      record {
        fixed = rest.fixed;
        up = λ u fu. climbs-append u a p.1 q.1 (one.up u fu) (rest.up u fu);
        load = grind (arith, asked-append p.1 q.1, one.load, rest.load);
      }

  run-Does : Rising → (a : Act) (w : World) → Fixed w → Does a (room a) (run a w)
  unfolding run finalize_cell
  run-Does g (fire k v) w f =
      subst (λ h. Does (fire k v) (cost (handlers k)) (handle h v w))
        (sym (ap (λ m. m k) f.same_handlers))
        (handle-Does g k (handlers k) v (fire k v) w refl f (omega arith))
  run-Does g (fire_all k values) w f =
      subst (λ h. Does (fire_all k values) (room (fire_all k values)) (handle_all h values w))
        (sym (ap (λ m. m k) f.same_handlers))
        (handle_all-Does g k values (fire_all k values) w f (omega arith))
  run-Does g (send_coalesced st out) w f = elim (Option-cases (w.p_state st)) [
    | inl missing ↦
        rw (missing, run)
          (idle-Does (send_coalesced st out) (weight out) (record w { failed = true })
            (record {
              same_nodes = f.same_nodes;
              same_handlers = f.same_handlers;
              same_streams = f.same_streams;
            }))
    | inr (b, found) ↦
        let d = send-Does g (send_coalesced st out) out b w f (omega arith) in
        rw (found, run)
          (record {
            fixed = record {
              same_nodes = d.fixed.same_nodes;
              same_handlers = d.fixed.same_handlers;
              same_streams = d.fixed.same_streams;
            };
            up = d.up;
            load = d.load;
          })
  ]
  run-Does g (spark s) w f = send-Does g (spark s) s 0 w f (omega arith)
  run-Does g (clear_firings s) w f =
      idle-Does (clear_firings s) 0 (set_firings s [] w) (set_firings-Fixed s [] w f)
  run-Does g (finalize c) w f = idle-Does (finalize c) 0 (finalize_cell c w) (record {
    same_nodes = f.same_nodes;
    same_handlers = f.same_handlers;
    same_streams = f.same_streams;
  })

  run-Climbs : Rising → Climbs rank_now level work run Fixed
  run-Climbs g = record {
    keeps = λ a w f. (run-Does g a w f).fixed;
    up = λ a w f. let d = run-Does g a w f in d.up (run a w).0 d.fixed;
    less = λ a w f. let d = run-Does g a w f in omega (arith, d.load);
  }

-- In a graph in which ranks go up from each stream to the nodes of its listeners and do not go down
-- from the node that a listener of `merge` is queued at to its stream, where `weight` bounds the
-- work that a send on each stream leads to: with more fuel than the work that is queued, in a
-- transaction whose queue is in order, from which nothing was taken yet and whose numbers do not
-- overflow, the loop over the queue returns. Then the queue is empty, every entry that was queued
-- was taken, and the entries were taken in the order of the ranks of their nodes.
pub sends-ranked :
    (nodes : Nodes) (handlers : ℕ → Handler) (node_of : ℕ → ℕ) (null : ℕ) (weight : ℕ → ℕ)
    (fuel : ℕ) (t : Transaction World Act)
    → Rising nodes handlers node_of null weight
    → Fixed nodes handlers node_of null weight t.world
    → Ordered rank_now
        (level nodes handlers node_of null weight)
        (work nodes handlers node_of null weight)
        t
    → t.taken ≡ []
    → queued rank_now
        (level nodes handlers node_of null weight)
        (work nodes handlers node_of null weight)
        t.prioritized_q
      < fuel
    → t.next_seq
        + queued rank_now
            (level nodes handlers node_of null weight)
            (work nodes handlers node_of null weight)
            t.prioritized_q
      < seq_mod
    → (t' : Transaction World Act) × (run_entries rank_now run fuel t ≡ some t')
      × (t'.prioritized_q ≡ [])
      × ((s : ℕ) → has s t.prioritized_q ≡ true → has s t'.taken ≡ true)
      × (ranked t'.taken ≡ true)
sends-ranked nodes handlers node_of null weight fuel t g f o new few fits =
    run_entries-falls rank_now (level nodes handlers node_of null weight)
      (work nodes handlers node_of null weight) run (Fixed nodes handlers node_of null weight) fuel
      t (run-Climbs nodes handlers node_of null weight g) f o new few fits
