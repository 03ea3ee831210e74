-- ===== src/Partition/Keeps.antt =====
-- What every piece of user code keeps of the partition, however it ends.
use mathlib.Core.List.{append_assoc, append-nil}
use caesium_cxx.Base.{ℕ, ◌+◌, ◌≡◌, refl, sym, ap, ◌∙◌, true, false, List, [], ◌∷◌, ◌++◌, arith, ltb}
use caesium_cxx.Partition.{
  Partition, Result, returns, thrown, terminated, out_of_fuel, ◌and_then◌, post, post_all,
  end_posts, unlock_guard, last_unlock,
}

-- A result returns in a state with `P`, or throws in one with `Q`, if it is an end at all.
unfoldable pub Ends : (Partition → Type 0) → (Partition → Type 0) → Result → Type 0
Ends P Q (returns t) = P t
Ends P Q (thrown t) = Q t
Ends P Q terminated = Unit
Ends P Q out_of_fuel = Unit

-- Since `s` some actions were posted, in some order; those that have been called, and after them
-- those in the queue, are the same as in `s` with the new ones behind.
abbrev pub Fifo : Partition → Partition → Type 0
Fifo s t =
    (new : List ℕ) × (t.given ≡ s.given ++ new) × (t.ran ++ t.post_q ≡ (s.ran ++ s.post_q) ++ new)

pub Fifo-refl : (s : Partition) → Fifo s s
Fifo-refl s = ([], sym (append-nil s.given), sym (append-nil (s.ran ++ s.post_q)))

pub Fifo-trans : (s t u : Partition) → Fifo s t → Fifo t u → Fifo s u
Fifo-trans s t u (xs, g, r) (ys, g', r') = (
  xs ++ ys,
  g' ∙ ap (λ l. l ++ ys) g ∙ append_assoc s.given xs ys,
  r' ∙ ap (λ l. l ++ ys) r ∙ append_assoc (s.ran ++ s.post_q) xs ys,
)

-- Where all posted actions are accounted for before, they are after.
pub Fifo-given :
    (s t : Partition) → Fifo s t → s.given ≡ s.ran ++ s.post_q → t.given ≡ t.ran ++ t.post_q
Fifo-given s t (xs, g, r) h = g ∙ ap (λ l. l ++ xs) h ∙ sym r

-- `t` has depth `d`, runs posted actions if `s` does, has the actions posted since `s` behind
-- those of `s`, and has `n` more unlocks, against locks and closed transactions.
pub record Keeps (d n : ℕ) (s t : Partition) : Type 0 where
  pub depth : t.depth ≡ d
  pub current : t.current ≡ ltb 0 d
  pub processing : t.processing_post ≡ s.processing_post
  pub fifo : Fifo s t
  pub balance : t.unlocks + s.locks + s.closed ≡ s.unlocks + t.locks + t.closed + n

pub Keeps-then : (d n : ℕ) (s t u : Partition) → Keeps d n s t → Keeps t.depth 0 t u → Keeps d n s u
Keeps-then d n s t u p q = record {
  depth = q.depth ∙ p.depth;
  current = q.current ∙ ap (ltb 0) p.depth;
  processing = q.processing ∙ p.processing;
  fifo = Fifo-trans s t u p.fifo q.fifo;
  balance = omega (arith, p.balance, q.balance);
}

pub Keeps-refl : (s : Partition) → s.current ≡ ltb 0 s.depth → Keeps s.depth 0 s s
Keeps-refl s c = record {
  depth = refl;
  current = c;
  processing = refl;
  fifo = Fifo-refl s;
  balance = omega arith;
}

pub Ends-and_then :
    (P P' Q : Partition → Type 0) (r : Result) (k : Partition → Result)
    → Ends P Q r
    → ((t : Partition) → P t → Ends P' Q (k t))
    → Ends P' Q (r and_then k)
unfolding Ends ◌and_then◌
Ends-and_then P P' Q (returns t) k e f = f t e
Ends-and_then P P' Q (thrown t) k e f = e
Ends-and_then P P' Q terminated k e f = tt
Ends-and_then P P' Q out_of_fuel k e f = tt

pub Ends-map :
    (P P' Q Q' : Partition → Type 0) (r : Result)
    → ((t : Partition) → P t → P' t)
    → ((t : Partition) → Q t → Q' t)
    → Ends P Q r
    → Ends P' Q' r
unfolding Ends
Ends-map P P' Q Q' (returns t) f g e = f t e
Ends-map P P' Q Q' (thrown t) f g e = g t e
Ends-map P P' Q Q' terminated f g e = tt
Ends-map P P' Q Q' out_of_fuel f g e = tt

pub end_posts-Ends :
    (P P' Q Q' : Partition → Type 0) (r : Result)
    → ((t : Partition) → P t → P' (record t { processing_post = false }))
    → ((t : Partition) → Q t → Q' (record t { processing_post = false }))
    → Ends P Q r
    → Ends P' Q' (end_posts r)
unfolding Ends end_posts
end_posts-Ends P P' Q Q' (returns t) f g e = f t e
end_posts-Ends P P' Q Q' (thrown t) f g e = g t e
end_posts-Ends P P' Q Q' terminated f g e = tt
end_posts-Ends P P' Q Q' out_of_fuel f g e = tt

pub reset :
    (d n : ℕ) (s u : Partition)
    → s.processing_post ≡ false
    → Keeps d n (record s { processing_post = true }) u
    → Keeps d n s (record u { processing_post = false })
reset d n s u e k = record {
  depth = k.depth;
  current = k.current;
  processing = sym e;
  fifo = k.fifo;
  balance = k.balance;
}

pub last_unlock-Keeps :
    (d n : ℕ) (s t : Partition) → Keeps d n s t → Keeps d (n + 1) s (last_unlock t)
unfolding last_unlock
last_unlock-Keeps d n s t k = record {
  depth = k.depth;
  current = k.current;
  processing = k.processing;
  fifo = k.fifo;
  balance = omega (arith, k.balance);
}

pub unlock_guard-Ends :
    (d n : ℕ) (s : Partition) (r : Result)
    → Ends (Keeps d n s) (Keeps d n s) r
    → Ends (Keeps d (n + 1) s) (Keeps d (n + 1) s) (unlock_guard r)
unfolding Ends unlock_guard last_unlock
unlock_guard-Ends d n s (returns t) k = last_unlock-Keeps d n s t k
unlock_guard-Ends d n s (thrown t) k = last_unlock-Keeps d n s t k
unlock_guard-Ends d n s terminated k = tt
unlock_guard-Ends d n s out_of_fuel k = tt

pub post-Keeps : (a d n : ℕ) (s t : Partition) → Keeps d n s t → Keeps d n s (post a t)
post-Keeps a d n s t p = record {
  depth = p.depth;
  current = p.current;
  processing = p.processing;
  fifo =
      Fifo-trans s t (post a t) p.fifo (a ∷ [], refl, sym (append_assoc t.ran t.post_q (a ∷ [])));
  balance = omega (arith, p.balance);
}

pub post_all-Keeps :
    (as' : List ℕ) (d n : ℕ) (s t : Partition) → Keeps d n s t → Keeps d n s (post_all as' t)
unfolding post_all
post_all-Keeps [] d n s t p = p
post_all-Keeps (a ∷ as') d n s t p = post_all-Keeps as' d n s (post a t) (post-Keeps a d n s t p)
