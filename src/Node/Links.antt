-- ===== src/Node/Links.antt =====
-- `link`, `unlink` and `unlink_by_target` undo one another, but for the sources of a double link.
use caesium_cxx.Base.{
  ℕ, ◌≡◌, refl, ◌≢◌, inl, inr, Bool, true, false, ◌||◌, Option, none, some, List, [], ◌∷◌, arith,
  Bool-cases, Option-cases, update,
}
use caesium_cxx.Node.{
  Target, Graph, ensure_bigger_than, same_listener, remove_all, remove_source, link, take_first,
  unlink_first, unlink, unlink_by_target,
}
use caesium_cxx.Node.Raise.{leads_to}

unfoldable pub listens : Option ℕ → List (Option ℕ) → Bool
unfolding same_listener
listens li [] = false
listens li (x ∷ xs) = same_listener x li || listens li xs

pub listens-remove_all :
    (li : Option ℕ) (xs : List (Option ℕ)) → listens li (remove_all li xs) ≡ false
unfolding listens remove_all
listens-remove_all li [] = refl
listens-remove_all li (x ∷ xs) = elim (Bool-cases (same_listener x li)) [
  | inl hit ↦ rw hit (listens-remove_all li xs)
  | inr miss ↦ rw (miss, listens) (rw miss (listens-remove_all li xs))
]

same_listener_self : (li : Option ℕ) → same_listener li li ≡ true
unfolding same_listener
same_listener_self none = refl
same_listener_self (some a) = ground arith

-- What `link` changes besides the ranks.
pub link-shape :
    (fuel this holder t : ℕ) (g g' : Graph) (changed : Bool)
    → link fuel this holder (some t) g ≡ some (changed, g')
    → (g'.targets ≡ update g.targets this (record { h = holder; n = some t } ∷ g.targets this))
      × (g'.sources ≡ update g.sources t (g.listen_impl this ∷ g.sources t))
      × (g'.listen_impl ≡ g.listen_impl)
unfolding link
link-shape fuel this holder t g g' changed e =
    elim (Option-cases (
      ensure_bigger_than g.targets fuel t (g.rank this) (record { rank = g.rank; visited = [] }))) [
        | inl stuck ↦ absurd (ground (arith, stuck, e))
        | inr ((b, w), r) ↦ ground (arith, r, e)
      ]

-- `unlink` at a holder that heads the targets.
unlink_head :
    (this holder t : ℕ) (ts : List Target) (g : Graph)
    → g.targets this ≡ record { h = holder; n = some t } ∷ ts
    → unlink this holder g ≡ record g {
      targets = update g.targets this ts;
      sources = update g.sources t (remove_all (g.listen_impl this) (g.sources t));
    }
unfolding unlink unlink_first take_first remove_source
unlink_head this holder t ts g e = ground (arith, e)

unlink_by_target_head :
    (this holder t : ℕ) (ts : List Target) (g : Graph)
    → g.targets this ≡ record { h = holder; n = some t } ∷ ts
    → unlink_by_target this (some t) g ≡ record g {
      targets = update g.targets this ts;
      sources = update g.sources t (remove_all (g.listen_impl this) (g.sources t));
    }
unfolding unlink_by_target unlink_first take_first remove_source same_listener
unlink_by_target_head this holder t ts g e = ground (arith, e)

-- Unlinking the holder that `link` has just linked gives every node its targets back, takes the
-- listen function of `this` out of the sources of the target altogether, and leaves the sources of
-- the other nodes and all ranks as the link left them.
unlink-link :
    (fuel this holder t : ℕ) (g g' : Graph) (changed : Bool)
    → link fuel this holder (some t) g ≡ some (changed, g')
    → ((m : ℕ) → (unlink this holder g').targets m ≡ g.targets m)
      × (listens (g.listen_impl this) ((unlink this holder g').sources t) ≡ false)
      × ((m : ℕ) → m ≢ t → (unlink this holder g').sources m ≡ g.sources m)
      × ((unlink this holder g').rank ≡ g'.rank)
unlink-link fuel this holder t g g' changed e =
    let (et, es, el) = link-shape fuel this holder t g g' changed e in
    let cut = unlink_head this holder t (g.targets this) g' (ground (arith, et)) in
    (
      λ m. ground (arith, cut, et),
      gone g g' el cut,
      λ m h. ground (arith, cut, es),
      ground (arith, cut),
    )
  where
    gone :
        (g g' : Graph)
        → g'.listen_impl ≡ g.listen_impl
        → unlink this holder g' ≡ record g' {
          targets = update g'.targets this (g.targets this);
          sources = update g'.sources t (remove_all (g'.listen_impl this) (g'.sources t));
        }
        → listens (g.listen_impl this) ((unlink this holder g').sources t) ≡ false
    gone g g' el cut =
        ground (arith, cut, el, listens-remove_all (g'.listen_impl this) (g'.sources t))

-- After two links from `this` to `t` by different holders, unlinking the newer one leaves `t` a
-- target of `this`, but `t` no longer has the listen function of `this` among its sources.
unlink_forgets_source :
    (fuel this first second t : ℕ) (g g' g'' : Graph) (b b' : Bool)
    → link fuel this first (some t) g ≡ some (b, g')
    → link fuel this second (some t) g' ≡ some (b', g'')
    → (leads_to t ((unlink this second g'').targets this) ≡ true)
      × (listens (g.listen_impl this) ((unlink this second g'').sources t) ≡ false)
unfolding leads_to
unlink_forgets_source fuel this first second t g g' g'' b b' e e' =
    let (et, _, el) = link-shape fuel this first t g g' b e in
    let (back, lost, _, _) = unlink-link fuel this second t g' g'' b' e' in
    (ground (arith, back this, et), rw el at lost)

pub unlink_by_target-link :
    (fuel this holder t : ℕ) (g g' : Graph) (changed : Bool)
    → link fuel this holder (some t) g ≡ some (changed, g')
    → (m : ℕ) → (unlink_by_target this (some t) g').targets m ≡ g.targets m
unlink_by_target-link fuel this holder t g g' changed e m =
    let (et, _, _) = link-shape fuel this holder t g g' changed e in
    ground (arith, unlink_by_target_head this holder t (g.targets this) g' (ground (arith, et)), et)
