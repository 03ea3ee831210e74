-- ===== src/Network/Operators.antt =====
-- What the handlers make of several firings that arrive one after the other.
use caesium_cxx.Base.{
  ℕ, ◌≡◌, refl, sym, subst, ap, ◌∙◌, none, some, List, [], ◌∷◌, ◌++◌, arith, update,
}
use caesium_cxx.Network.{
  once_handler, coalesce_handler, collect_handler, coalesce_entry, Net, send, kill_once,
  set_coalesced, unlink, coalesce, handle, handle_all,
}

module _ {V : Type 0} where
  -- The left fold of the values that a coalescing handler is given.
  unfoldable pub combined : (V → V → V) → V → List V → V
  combined f a [] = a
  combined f a (b ∷ bs) = combined f (f a b) bs

  coalesce_again :
      (st : ℕ) (f : V → V → V) (target : ℕ) (old b : V) (s : Net V)
      → s.coalesced st ≡ some old
      → coalesce st f target b s ≡ set_coalesced st (f old b) s
  unfolding coalesce
  coalesce_again st f target old b s e = rw (e, coalesce) refl

  coalesce_first :
      (st : ℕ) (f : V → V → V) (target : ℕ) (b : V) (s : Net V)
      → s.coalesced st ≡ none
      → coalesce st f target b s ≡ record s {
        coalesced = update s.coalesced st (some b);
        queue = s.queue ++ coalesce_entry target st ∷ [];
      }
  unfolding coalesce
  coalesce_first st f target b s e = rw (e, coalesce) refl

  coalesce_more :
      (st : ℕ) (f : V → V → V) (target : ℕ) (old : V) (as' : List V) (s : Net V)
      → s.coalesced st ≡ some old
      → let t = handle_all (coalesce_handler st f) target as' s in
        (t.coalesced st ≡ some (combined f old as')) × (t.queue ≡ s.queue) × (t.firings ≡ s.firings)
  unfolding handle_all handle combined
  coalesce_more st f target old [] s e = (e, refl, refl)
  coalesce_more st f target old (b ∷ bs) s e =
      subst {A = Net V}
        (λ u.
          let t = handle_all (coalesce_handler st f) target bs u in
          (t.coalesced st ≡ some (combined f (f old b) bs))
          × (t.queue ≡ s.queue)
          × (t.firings ≡ s.firings))
        (sym (coalesce_again st f target old b s e))
        (coalesce_more st f target (f old b) bs (set_coalesced st (f old b) s) (ground arith))

  -- Coalescing: where nothing is coalesced yet, and values reach the handler one after the other,
  -- at least one, it holds back the left fold of all of them, and queues one entry, which will send
  -- that fold; it sends nothing itself.
  coalesce-combined :
      (st : ℕ) (f : V → V → V) (target : ℕ) (a : V) (as' : List V) (s : Net V)
      → s.coalesced st ≡ none
      → let t = handle_all (coalesce_handler st f) target (a ∷ as') s in
        (t.coalesced st ≡ some (combined f a as'))
        × (t.queue ≡ s.queue ++ coalesce_entry target st ∷ [])
        × (t.firings ≡ s.firings)
  unfolding handle_all handle
  coalesce-combined st f target a as' s e =
      subst {A = Net V}
        (λ u.
          let t = handle_all (coalesce_handler st f) target as' u in
          (t.coalesced st ≡ some (combined f a as'))
          × (t.queue ≡ s.queue ++ coalesce_entry target st ∷ [])
          × (t.firings ≡ s.firings))
        (sym (coalesce_first st f target a s e))
        (coalesce_more st f target a as'
          (record s {
            coalesced = update s.coalesced st (some a);
            queue = s.queue ++ coalesce_entry target st ∷ [];
          })
          (ground arith))

  once_spent :
      (k target : ℕ) (as' : List V) (s : Net V)
      → s.kills k ≡ none
      → handle_all (once_handler k) target as' s ≡ s
  unfolding handle_all handle
  once_spent k target [] s e = refl
  once_spent k target (a ∷ as') s e = rw (e, handle) (once_spent k target as' s e)

  kill_once_fires :
      (k n h : ℕ) (s : Net V)
      → s.kills k ≡ some (n, h)
      → kill_once k s
        ≡ record s { kills = update s.kills k none; posts = s.posts ++ unlink n h ∷ [] }
  unfolding kill_once
  kill_once_fires k n h s e = rw (e, kill_once) refl

  once_fires :
      (k n h target : ℕ) (a : V) (s : Net V)
      → s.kills k ≡ some (n, h)
      → let t = send target a s in
        handle (once_handler k) target a s
        ≡ record t { kills = update s.kills k none; posts = t.posts ++ unlink n h ∷ [] }
  unfolding handle send
  once_fires k n h target a s e = rw (e, handle) (kill_once_fires k n h (send target a s) e)

  -- `once`: while its kill function is there, of several values that reach the handler one after
  -- the other the first is sent, and the rest changes nothing: the link is unlinked by one posted
  -- action, and the kill function is gone.
  pub once-first :
      (k n h target : ℕ) (a : V) (as' : List V) (s : Net V)
      → s.kills k ≡ some (n, h)
      → let t = send target a s in
        handle_all (once_handler k) target (a ∷ as') s
        ≡ record t { kills = update s.kills k none; posts = t.posts ++ unlink n h ∷ [] }
  unfolding handle_all send
  once-first k n h target a as' s e =
      ap (handle_all (once_handler k) target as') (once_fires k n h target a s e)
      ∙ once_spent k target as' _ (ground arith)

  -- The outputs of a state machine, newest first, in front of `out`.
  unfoldable pub outputs : (V → V → V × V) → V → List V → List V → List V
  outputs f x [] out = out
  outputs f x (a ∷ as') out = outputs f (f a x).1 as' ((f a x).0 ∷ out)

  unfoldable pub last_state : (V → V → V × V) → V → List V → V
  last_state f x [] = x
  last_state f x (a ∷ as') = last_state f (f a x).1 as'

  -- `collect` is a state machine (as a Mealy machine): from values that reach the handler one
  -- after the other it fires the outputs of the machine in their order, and keeps its last state.
  collect-outputs :
      (st : ℕ) (f : V → V → V × V) (target : ℕ) (as' : List V) (s : Net V)
      → let t = handle_all (collect_handler st f) target as' s in
        (t.firings target ≡ outputs f (s.states st) as' (s.firings target))
        × (t.states st ≡ last_state f (s.states st) as')
  unfolding handle_all handle send outputs last_state
  collect-outputs st f target [] s = (refl, refl)
  collect-outputs st f target (a ∷ as') s =
      let x = (f a (s.states st)).1 in
      let b = (f a (s.states st)).0 in
      let u = send target b (record s { states = update s.states st x }) in
      let (p, q) = collect-outputs st f target as' u in
      let p' : u.states st ≡ x = ground arith in
      let q' : u.firings target ≡ b ∷ s.firings target = ground arith in
      (
        p ∙ ap (λ y. outputs f y as' (u.firings target)) p' ∙ ap (outputs f x as') q',
        q ∙ ap (λ y. last_state f y as') p',
      )
