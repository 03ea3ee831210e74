-- ===== src/Prioritized/Closing.antt =====
-- The order in which `close` takes the entries of its queue.
use caesium_cxx.Base.{
  ℕ, zero, suc, ◌+◌, ◌%◌, ◌≤◌, ◌<◌, ◌≡◌, refl, sym, ap, subst, ◌∙◌, inl, inr, Bool, true, false,
  ◌&&◌, ◌||◌, Option, some, List, [], ◌∷◌, arith, leb, ◌==◌, if◌then◌else◌, Bool-cases, List-cases,
  mod_up,
}
use caesium_cxx.Prioritized.{
  seq_mod, Entry, Request, ask, ask_last, ask_post, ask_regen, Transaction, before, insert_entry,
  entry, prioritized, post, last, request, refill, check_regen, perform, run_entries,
}
use caesium_cxx.Prioritized.Order.{
  ranked, falls-ranked, all_after, all_before, rises, falls, has, all_before_trans,
  all_after-insert_entry, rises-insert_entry, has-insert_entry,
}

module _ {W A : Type 0} (rank : W → ℕ → ℕ) (level work : A → ℕ) where
  -- What action `a` asks for goes to nodes of no lesser ranks, and ranks are those that `level`
  -- says.
  unfoldable pub climbs : W → A → List (Request A) → Bool
  climbs w a [] = true
  climbs w a (ask n b ∷ rs) = (rank w n == level b) && leb (level a) (level b) && climbs w a rs
  climbs w a (ask_last b ∷ rs) = climbs w a rs
  climbs w a (ask_post b ∷ rs) = climbs w a rs
  climbs w a (ask_regen ∷ rs) = false

  -- The work of the entries that are asked for, and one for each, and the work of those that are
  -- queued.
  unfoldable pub asked : List (Request A) → ℕ
  asked [] = 0
  asked (ask n b ∷ rs) = suc (work b) + asked rs
  asked (ask_last b ∷ rs) = asked rs
  asked (ask_post b ∷ rs) = asked rs
  asked (ask_regen ∷ rs) = asked rs

  unfoldable pub queued : List (Entry A) → ℕ
  queued [] = 0
  queued (e ∷ es) = work e.action + queued es

  unfoldable pub levels : List (Entry A) → Bool
  levels [] = true
  levels (e ∷ es) = (e.rank == level e.action) && levels es

  levels-insert_entry :
      (e : Entry A) (es : List (Entry A))
      → (e.rank == level e.action) ≡ true
      → levels es ≡ true
      → levels (insert_entry e es) ≡ true
  unfolding levels insert_entry
  levels-insert_entry e [] h k = ground (arith, h)
  levels-insert_entry e (y ∷ ys) h k = elim (Bool-cases (before e y)) [
    | inl first ↦ rw first (ground (arith, h, k))
    | inr later ↦ elim (Bool-cases (before y e)) [
      | inl after ↦ rw (later, after) (ground (arith, k, levels-insert_entry e ys h))
      | inr equal ↦ rw (later, equal) k
    ]
  ]

  queued-insert_entry_le :
      (e : Entry A) (es : List (Entry A)) → queued (insert_entry e es) ≤ work e.action + queued es
  unfolding queued insert_entry
  queued-insert_entry_le e [] = omega arith
  queued-insert_entry_le e (y ∷ ys) = elim (Bool-cases (before e y)) [
    | inl first ↦ rw first (omega arith)
    | inr later ↦ elim (Bool-cases (before y e)) [
      | inl after ↦ rw (later, after) (omega (arith, queued-insert_entry_le e ys))
      | inr equal ↦ rw (later, equal) (omega arith)
    ]
  ]

  -- Numbers are up to `m`.
  unfoldable pub numbered : ℕ → List (Entry A) → Bool
  numbered m [] = true
  numbered m (e ∷ es) = leb e.seq m && numbered m es

  numbered-insert_entry :
      (m k : ℕ) (e : Entry A) (es : List (Entry A))
      → e.seq ≤ k
      → m ≤ k
      → numbered m es ≡ true
      → numbered k (insert_entry e es) ≡ true
  unfolding numbered insert_entry
  numbered-insert_entry m k e [] h le n = ground (arith, h)
  numbered-insert_entry m k e (y ∷ ys) h le n = elim (Bool-cases (before e y)) [
    | inl first ↦ rw first (ground (arith, h, n, numbered_mono ys))
    | inr later ↦ elim (Bool-cases (before y e)) [
      | inl after ↦ rw (later, after) (ground (arith, n, numbered-insert_entry m k e ys h le))
      | inr equal ↦ rw (later, equal) (ground (arith, n, numbered_mono ys))
    ]
  ]
    where
      numbered_mono : (zs : List (Entry A)) → numbered m zs ≡ true → numbered k zs ≡ true
      numbered_mono [] j = refl
      numbered_mono (z ∷ zs) j = ground (arith, j, numbered_mono zs)

  -- The queue is in order, at the levels, and is not to be sorted again.
  pub record Ordered (t : Transaction W A) : Type 0 where
    pub rising : rises t.prioritized_q ≡ true
    pub level_ranks : levels t.prioritized_q ≡ true
    pub calm : t.to_regen ≡ false
    pub numbers : numbered t.next_seq t.prioritized_q ≡ true

  -- What the requests of action `a` change, when `e` was taken last.
  record Asked (e : Entry A) (rs : List (Request A)) (t t' : Transaction W A) : Type 0 where
    ordered : Ordered t'
    after : all_after e t'.prioritized_q ≡ true
    later_numbers : t.next_seq ≤ t'.next_seq
    few : t'.next_seq + queued t'.prioritized_q ≤ asked rs + t.next_seq + queued t.prioritized_q
    more : queued t'.prioritized_q ≤ asked rs + queued t.prioritized_q
    same : t'.taken ≡ t.taken
    world_same : t'.world ≡ t.world
    kept : (s : ℕ) → has s t.prioritized_q ≡ true → has s t'.prioritized_q ≡ true

  prioritized-Asked :
      (e : Entry A) (n : ℕ) (b : A) (t : Transaction W A)
      → e.rank ≤ level b
      → e.seq ≤ t.next_seq
      → t.next_seq + 1 < seq_mod
      → (rank t.world n == level b) ≡ true
      → Ordered t
      → all_after e t.prioritized_q ≡ true
      → Asked e (ask n b ∷ []) t (prioritized rank n b t)
  unfolding prioritized entry asked before
  prioritized-Asked e n b t up old room is o h =
      let next = mod_up t.next_seq seq_mod room in
      let new = entry rank t.world n b ((t.next_seq + 1) % seq_mod) in
      record {
        ordered = record {
          rising = rises-insert_entry new t.prioritized_q o.rising;
          level_ranks = levels-insert_entry new t.prioritized_q is o.level_ranks;
          calm = o.calm;
          numbers =
              numbered-insert_entry t.next_seq ((t.next_seq + 1) % seq_mod) new t.prioritized_q
                (omega arith) (omega (arith, next)) o.numbers;
        };
        after = all_after-insert_entry e new t.prioritized_q (ground (arith, is, up, old, next)) h;
        later_numbers = omega (arith, next);
        few = omega (arith, next, queued-insert_entry_le new t.prioritized_q);
        more = omega (arith, queued-insert_entry_le new t.prioritized_q);
        same = refl;
        world_same = refl;
        kept = λ s k. has-insert_entry s new t.prioritized_q k;
      }

  request-Asked :
      (a : A) (e : Entry A) (rs : List (Request A)) (t : Transaction W A)
      → e.rank ≡ level a
      → e.seq ≤ t.next_seq
      → asked rs + t.next_seq < seq_mod
      → climbs t.world a rs ≡ true
      → Ordered t
      → all_after e t.prioritized_q ≡ true
      → Asked e rs t (request rank rs t)
  unfolding request asked climbs prioritized last post
  request-Asked a e [] t at old room up o h = record {
    ordered = o;
    after = h;
    later_numbers = omega arith;
    few = omega arith;
    more = omega arith;
    same = refl;
    world_same = refl;
    kept = λ s k. k;
  }
  request-Asked a e (ask n b ∷ rs) t at old room up o h =
      let one =
        prioritized-Asked e n b t (ground (arith, at, up)) old (omega arith) (ground (arith, up)) o
          h in
      let next = mod_up t.next_seq seq_mod (omega arith) in
      let rest =
        request-Asked a e rs (prioritized rank n b t) at (omega (arith, one.later_numbers))
          (omega (arith, next)) (ground (arith, up)) one.ordered one.after in
      record {
        ordered = rest.ordered;
        after = rest.after;
        later_numbers = omega (arith, rest.later_numbers, one.later_numbers);
        few = omega (arith, rest.few, one.few);
        more = omega (arith, rest.more, one.more);
        same = rest.same;
        world_same = rest.world_same;
        kept = λ s k. rest.kept s (one.kept s k);
      }
  request-Asked a e (ask_last b ∷ rs) t at old room up o h =
      let same_queue : Ordered (last rank b t) = record {
        rising = o.rising;
        level_ranks = o.level_ranks;
        calm = o.calm;
        numbers = o.numbers;
      } in
      let rest = request-Asked a e rs (last rank b t) at old room up same_queue h in
      record {
        ordered = rest.ordered;
        after = rest.after;
        later_numbers = rest.later_numbers;
        few = rest.few;
        more = rest.more;
        same = rest.same;
        world_same = rest.world_same;
        kept = rest.kept;
      }
  request-Asked a e (ask_post b ∷ rs) t at old room up o h =
      let same_queue : Ordered (post rank b t) = record {
        rising = o.rising;
        level_ranks = o.level_ranks;
        calm = o.calm;
        numbers = o.numbers;
      } in
      let rest = request-Asked a e rs (post rank b t) at old room up same_queue h in
      record {
        ordered = rest.ordered;
        after = rest.after;
        later_numbers = rest.later_numbers;
        few = rest.few;
        more = rest.more;
        same = rest.same;
        world_same = rest.world_same;
        kept = rest.kept;
      }
  request-Asked a e (ask_regen ∷ rs) t at old room up o h = cc

-- The entry that was taken last comes before those that are queued.
unfoldable pub front : {A : Type 0} → List (Entry A) → List (Entry A) → Bool
unfolding all_after
front [] q = true
front (e ∷ es) q = all_after e q

all_before-front :
    {A : Type 0} (e : Entry A) (es taken : List (Entry A))
    → front taken (e ∷ es) ≡ true
    → falls taken ≡ true
    → all_before e taken ≡ true
unfolding front falls all_before all_after
all_before-front e es [] h k = refl
all_before-front e es (x ∷ xs) h k =
    let first : before x e ≡ true = ground (arith, h) in
    ground (arith, first, k, all_before_trans x e xs first)

-- Taking an entry from the queue loses none.
has-take :
    {A : Type 0} (s : ℕ) (e : Entry A) (es taken taken' q' : List (Entry A))
    → (has s taken || has s (e ∷ es)) ≡ true
    → taken' ≡ e ∷ taken
    → (has s es ≡ true → has s q' ≡ true)
    → (has s taken' || has s q') ≡ true
unfolding has
has-take s e es taken taken' q' h same kept = elim (Bool-cases (has s es)) [
  | inl queued_on ↦ ground (arith, kept queued_on)
  | inr gone ↦ rw same (ground (arith, h, gone))
]

module _ {W A : Type 0} (rank : W → ℕ → ℕ) (level work : A → ℕ)
    (run : A → W → W × List (Request A)) where
  -- Each action asks only for entries of no lesser ranks, with less work together than its own.
  pub record Climbs (P : W → Type 0) : Type 0 where
    pub keeps : (a : A) (w : W) → P w → P (run a w).0
    pub up : (a : A) (w : W) → P w → climbs rank level work (run a w).0 a (run a w).1 ≡ true
    pub less : (a : A) (w : W) → P w → asked rank level work (run a w).1 < work a

  -- What a turn of the loop does, when the queue need not be sorted again, by what is queued.
  turn : ℕ → Transaction W A → List (Entry A) → Option (Transaction W A)
  turn fuel t [] = some t
  turn fuel t (e ∷ es) =
      run_entries rank run fuel
        (perform rank run e.action (record t { prioritized_q = es; taken = e ∷ t.taken }))

  calm_turn :
      (fuel : ℕ) (t : Transaction W A)
      → t.to_regen ≡ false
      → run_entries rank run (suc fuel) t ≡ turn fuel t t.prioritized_q
  unfolding run_entries check_regen turn
  calm_turn fuel t calm =
      let body : Transaction W A → Option (Transaction W A) = λ u. elim u.prioritized_q [
        | [] ↦ some u
        | e ∷ es ↦
            run_entries rank run fuel
              (perform rank run e.action (record u { prioritized_q = es; taken = e ∷ u.taken }))
      ] in
      let same : check_regen rank t ≡ t =
        ap {A = Bool}
          (λ b.
            if b
            then (record t {
              to_regen = false;
              prioritized_q = refill rank t.world t.prioritized_q [];
            })
            else t)
          calm in
      ap {A = Transaction W A} body same

  run_entries-Ordered :
      (P : W → Type 0)
      → Climbs P
      → (fuel : ℕ) (t : Transaction W A) → Ordered rank level work t
      → falls t.taken ≡ true
      → front t.taken t.prioritized_q ≡ true
      → queued rank level work t.prioritized_q < fuel
      → t.next_seq + queued rank level work t.prioritized_q < seq_mod
      → P t.world
      → (t' : Transaction W A) × (run_entries rank run fuel t ≡ some t')
        × (t'.prioritized_q ≡ [])
        × (falls t'.taken ≡ true)
        × ((s : ℕ) → (has s t.taken || has s t.prioritized_q) ≡ true → has s t'.taken ≡ true)
  unfolding turn perform front rises levels numbered queued falls has all_after
  run_entries-Ordered P c zero t o f h few room good = absurd (omega arith)
  run_entries-Ordered P c (suc fuel) t o f h few room good = elim (List-cases t.prioritized_q) [
    | inl none_left ↦ (
      t,
      calm_turn fuel t o.calm ∙ ap (turn fuel t) none_left,
      none_left,
      f,
      λ s k. ground (arith, subst (λ q. (has s t.taken || has s q) ≡ true) none_left k),
    )
    | inr (e, es, k) ↦
        let t1 = record t {
          prioritized_q = es;
          taken = e ∷ t.taken;
          world = (run e.action t.world).0;
        } in
        let risen : rises (e ∷ es) ≡ true = subst (λ q. rises q ≡ true) k o.rising in
        let at : levels rank level work (e ∷ es) ≡ true =
          subst (λ q. levels rank level work q ≡ true) k o.level_ranks in
        let fits : queued rank level work (e ∷ es) < suc fuel =
          subst (λ q. queued rank level work q < suc fuel) k few in
        let spare : t.next_seq + queued rank level work (e ∷ es) < seq_mod =
          subst (λ q. t.next_seq + queued rank level work q < seq_mod) k room in
        let low : numbered rank level work t.next_seq (e ∷ es) ≡ true =
          subst (λ q. numbered rank level work t.next_seq q ≡ true) k o.numbers in
        let less = c.less e.action t.world good in
        let ahead : front t.taken (e ∷ es) ≡ true = subst (λ q. front t.taken q ≡ true) k h in
        let start : Ordered rank level work t1 = record {
          rising = ground (arith, risen);
          level_ranks = ground (arith, at);
          calm = o.calm;
          numbers = ground (arith, low);
        } in
        let p =
          request-Asked rank level work e.action e (run e.action t.world).1 t1 (ground (arith, at))
            (ground (arith, low)) (omega (arith, less, spare)) (c.up e.action t.world good) start
            (ground (arith, risen)) in
        let t2 = request rank (run e.action t.world).1 t1 in
        let (t', eq, empty, fell, all) =
          run_entries-Ordered P c fuel t2 p.ordered
            (rw (p.same) (ground (arith, f, all_before-front e es t.taken ahead f)))
            (rw (p.same) p.after) (omega (arith, p.more, less, fits))
            (omega (arith, p.few, less, spare))
            (subst P (sym p.world_same) (c.keeps e.action t.world good)) in
        (
          t',
          calm_turn fuel t o.calm ∙ ap (turn fuel t) k ∙ eq,
          empty,
          fell,
          λ s j. all s (
              has-take s e es t.taken t2.taken t2.prioritized_q
                (subst (λ q. (has s t.taken || has s q) ≡ true) k j) p.same (p.kept s)),
        )
  ]

-- When `P` holds of what actions read and write, and keeps holding, each action asks only for
-- entries of nodes whose ranks are not less than its own, with less work together (and one for
-- each) than it has itself, the queue is in order, nothing was taken yet and the numbers of
-- entries do not overflow: with more fuel than the work that is queued, the loop over the queue
-- returns. Then the queue is empty, each entry that was queued was taken, and whatever was taken
-- came out in the order of rank and number.
pub run_entries-falls :
    {W A : Type 0} (rank : W → ℕ → ℕ) (level work : A → ℕ) (run : A → W → W × List (Request A))
    (P : W → Type 0) (fuel : ℕ) (t : Transaction W A)
    → Climbs rank level work run P
    → P t.world
    → Ordered rank level work t
    → t.taken ≡ []
    → queued rank level work t.prioritized_q < fuel
    → t.next_seq + queued rank level work t.prioritized_q < seq_mod
    → (t' : Transaction W A) × (run_entries rank run fuel t ≡ some t')
      × (t'.prioritized_q ≡ [])
      × ((s : ℕ) → has s t.prioritized_q ≡ true → has s t'.taken ≡ true)
      × (ranked t'.taken ≡ true)
unfolding falls front
run_entries-falls rank level work run P fuel t c good o new few room =
    let (t', e, empty, fell, all) =
      run_entries-Ordered rank level work run P c fuel t o (rw new refl) (rw new refl) few room
        good in
    (t', e, empty, λ s h. all s (ground (arith, h)), falls-ranked t'.taken fell)
