-- ===== src/Prioritized/Linking.antt =====
-- What `link_to` does to the ranks, and how `unlink_to` undoes it.
use caesium_cxx.Base.{
  ℕ, zero, suc, ◌+◌, ◌%◌, ◌≤◌, ◌<◌, ◌≡◌, refl, ap, ◌∙◌, inl, inr, Bool, true, false, not, ◌&&◌,
  ◌||◌, Option, none, some, List, [], ◌∷◌, ◌++◌, arith, ltb, ◌==◌, if◌then◌else◌, contains,
  contains-cons_self, Bool-cases, Option-cases, update,
}
use caesium_cxx.Node.{rank_mod, Walk, Target, raise_targets, ensure_bigger_than}
use caesium_cxx.Node.Raise.{entered, Raises, ensure_bigger_than-Raised}
use caesium_cxx.Node.Order.{IsBounded, IsOrdered, fresh_walk, ensure_bigger_than-order}
use caesium_cxx.Prioritized.Nodes.{
  word_mod, Listener, Nodes, raise_listeners, ensure_bigger, link_to, leave_out, unlink_to,
}

-- The listeners as targets of a `node` of sodium/transaction.h.
unfoldable pub as_targets : List Listener → List Target
as_targets [] = []
as_targets (t ∷ ts) = record { h = t.target_ref; n = some t.node } ∷ as_targets ts

module _ (listeners : ℕ → List Listener) where
  abbrev targets : ℕ → List Target
  targets n = as_targets (listeners n)

  raise_listeners-eq-raise_targets :
      (f g : ℕ → ℕ → Walk → Option (Bool × Walk)) (room : ℕ)
      → ((x limit : ℕ) (w : Walk) → limit + room < word_mod → f x limit w ≡ g x limit w)
      → Raises targets g room
      → (this : ℕ) (ts : List Listener) (w : Walk) → contains this w.visited ≡ true
      → w.rank this + room < word_mod
      → raise_listeners listeners f this ts w ≡ raise_targets targets g this (as_targets ts) w
  unfolding raise_listeners raise_targets as_targets
  raise_listeners-eq-raise_targets f g room same up this [] w seen fits = refl
  raise_listeners-eq-raise_targets f g room same up this (t ∷ ts) w seen fits =
      elim (Option-cases (g t.node (w.rank this) w)) [
        | inl stuck ↦ ground (arith, stuck, same t.node (w.rank this) w)
        | inr ((b, v), r) ↦
            let a = up t.node (w.rank this) w b v (omega arith) r in
            let kept = a.grew.fixed this seen in
            let rest =
              raise_listeners-eq-raise_targets f g room same up this ts v (a.grew.keeps this seen)
                (omega (arith, kept)) in
            ground (arith, r, same t.node (w.rank this) w, rest)
      ]

  ensure_bigger-eq-ensure_bigger_than :
      (fuel this limit : ℕ) (w : Walk)
      → limit + fuel < word_mod
      → ensure_bigger listeners fuel this limit w ≡ ensure_bigger_than targets fuel this limit w
  unfolding ensure_bigger ensure_bigger_than
  ensure_bigger-eq-ensure_bigger_than zero this limit w fits = refl
  ensure_bigger-eq-ensure_bigger_than (suc fuel) this limit w fits =
      elim (Bool-cases (ltb limit (w.rank this) || contains this w.visited)) [
        | inl stop ↦ ground (arith, stop)
        | inr go ↦
            let rest =
              raise_listeners-eq-raise_targets (ensure_bigger listeners fuel)
                (ensure_bigger_than targets fuel) fuel
                (λ x l v h. ensure_bigger-eq-ensure_bigger_than fuel x l v h)
                (ensure_bigger_than-Raised targets fuel) this (listeners this)
                (entered this limit w) (contains-cons_self this w.visited) (ground arith) in
            let same_rank : (limit + 1) % word_mod ≡ (limit + 1) % rank_mod = omega arith in
            let reply : Option Walk → Option (Bool × Walk) =
              λ o. elim o [ none ↦ none | some w' ↦ some (true, w') ] in
            let marked : ℕ → Option (Bool × Walk) = λ k. reply (
              raise_listeners listeners (ensure_bigger listeners fuel) this (listeners this)
                (record { rank = update w.rank this k; visited = this ∷ w.visited })) in
            rw (go, ensure_bigger, ensure_bigger_than)
              (ap {A = ℕ} marked same_rank ∙ ap {A = Option Walk} reply rest)
      ]

-- Whether no listener has the reference.
abbrev pub fresh_ref : ℕ → List Listener → Bool
fresh_ref ref [] = true
fresh_ref ref (t ∷ ts) = not (t.target_ref == ref) && fresh_ref ref ts

leave_out-append :
    (ref : ℕ) (ts : List Listener) (t : Listener)
    → fresh_ref ref ts ≡ true
    → (t.target_ref == ref) ≡ true
    → leave_out ref (ts ++ (t ∷ [])) ≡ (true, ts)
unfolding leave_out
leave_out-append ref [] t h k = rw k refl
leave_out-append ref (x ∷ xs) t h k =
    let other : (x.target_ref == ref) ≡ false = ground (arith, h) in
    rw (other, leave_out-append ref xs t (ground (arith, h)) k) refl

unlink_added :
    (node ref : ℕ) (s : Nodes) (ts : List Listener) (t : Listener)
    → s.has_node node ≡ true
    → s.listeners node ≡ ts ++ (t ∷ [])
    → fresh_ref ref ts ≡ true
    → (t.target_ref == ref) ≡ true
    → (unlink_to node ref s).listeners node ≡ ts
unfolding unlink_to
unlink_added node ref s ts t on at fresh hit =
    let without : Bool × List Listener → List Listener = λ p.
      (if p.0 then (record s { listeners = update s.listeners node p.1 }) else s).listeners node in
    let kept : Bool → List Listener = λ b.
      let after : Nodes = elim b [
        | false ↦ s
        | true ↦
            let (changed, rest) = leave_out ref (s.listeners node) in
            if changed then (record s { listeners = update s.listeners node rest }) else s
      ] in
      after.listeners node in
    let out : leave_out ref (s.listeners node) ≡ (true, ts) =
      ap (leave_out ref) at ∙ leave_out-append ref ts t fresh hit in
    ap {A = Bool} kept on ∙ ap {A = Bool × List Listener} without out ∙ ground arith

-- In a graph of `n` nodes whose links go up in rank, with room in 32 bits for `n + 1` ranks above
-- that of `node`, where the reference to `node` has been assigned and none of its listeners has the
-- next reference number: `link_to` returns, having fuel for `n + 1` nested calls. It says whether
-- the rank of the target was not above that of the node; the target ranks above what the node did;
-- no rank has fallen; and `unlink_to` with the reference that it gave restores the listeners.
pub link_to-unlink_to :
    (n node action target : ℕ) (s : Nodes)
    → IsBounded n (targets s.listeners)
    → IsOrdered (targets s.listeners) s.rank
    → target < n
    → s.rank node + n + 1 < word_mod
    → s.has_node node ≡ true
    → fresh_ref ((s.next_target_ref + 1) % word_mod) (s.listeners node) ≡ true
    → (changed : Bool) × (ref : ℕ) × (s' : Nodes) × (link_to (n + 1) node action target s
        ≡ some (changed, ref, s'))
      × (changed ≡ (if ltb (s.rank node) (s.rank target) then false else true))
      × (s.rank node < s'.rank target)
      × ((m : ℕ) → s.rank m ≤ s'.rank m)
      × ((unlink_to node ref s').listeners node ≡ s.listeners node)
unfolding link_to unlink_to
link_to-unlink_to n node action target s bounded ordered low fits on fresh =
    let (b, w, e, above, mono, still, told, edges) =
      ensure_bigger_than-order n (targets s.listeners) s.rank target (s.rank node) bounded ordered
        low (omega arith) in
    let same =
      ensure_bigger-eq-ensure_bigger_than s.listeners (n + 1) target (s.rank node)
        (fresh_walk s.rank) (omega arith) in
    let ref = (s.next_target_ref + 1) % word_mod in
    let new : Listener = record { action = action; node = target; target_ref = ref } in
    let s' : Nodes = record {
      rank = w.rank;
      listeners = update s.listeners node (s.listeners node ++ (new ∷ []));
      has_node = s.has_node;
      next_target_ref = ref;
    } in
    let linked : Option (Bool × Walk) → Option (Bool × ℕ × Nodes) = λ o. elim o [
      | none ↦ none
      | some (changed, v) ↦ some (
        changed,
        ref,
        record {
          rank = v.rank;
          listeners = update s.listeners node (s.listeners node ++ (new ∷ []));
          has_node = s.has_node;
          next_target_ref = ref;
        },
      )
    ] in
    (
      b,
      ref,
      s',
      ap {A = Option (Bool × Walk)} linked (same ∙ e),
      told,
      above,
      mono,
      unlink_added node ref s' (s.listeners node) new on (ground arith) fresh (ground arith),
    )
