-- ===== src/Dynamic/Links.antt =====
-- Links that are made one after the other and taken away again later.
use caesium_cxx.Base.{
  ℕ, suc, ◌+◌, ◌≤◌, ◌<◌, ◌≡◌, refl, ap, ◌∙◌, Option, none, some, List, [], ◌∷◌, map, arith, update,
  length,
}
use caesium_cxx.Dynamic.Splitting.{last_item}
use mathlib.Core.Path.{fun_ext}
use caesium_cxx.Network.{Link, unlink_link}
use caesium_cxx.Wiring.{Stream}

-- The links of all nodes, when a link is taken away, and when a stream gets one.
unfoldable pub without : Option (ℕ × ℕ) → (ℕ → List Link) → ℕ → List Link
without none T = T
without (some (n, h)) T = update T n (unlink_link h (T n))

unfoldable pub with_link : Stream → (holder target : ℕ) → (ℕ → List Link) → ℕ → List Link
with_link none h target T = T
with_link (some n) h target T = update T n (record { h = h; n = target } ∷ T n)

-- What the slot unlinks then.
unfoldable pub kill_of : Stream → ℕ → Option (ℕ × ℕ)
kill_of none h = none
kill_of (some n) h = some (n, h)

pub unlink-link :
    (s : Stream) (h target : ℕ) (T : ℕ → List Link)
    → without (kill_of s h) (with_link s h target T) ≡ T
unfolding without with_link kill_of unlink_link
unlink-link none h target T = refl
unlink-link (some n) h target T = fun_ext (λ j. ground arith)

-- Whether the holder is an older one than `bound`.
abbrev pub IsOlder : Option (ℕ × ℕ) → ℕ → Type 0
IsOlder none bound = Unit
IsOlder (some (n, h)) bound = h < bound

pub without-with_link :
    (c : Option (ℕ × ℕ)) (s : Stream) (h target : ℕ) (T : ℕ → List Link)
    → IsOlder c h
    → without c (with_link s h target T) ≡ with_link s h target (without c T)
unfolding without with_link unlink_link
without-with_link none s h target T o = refl
without-with_link (some c) none h target T o = refl
without-with_link (some (n, g)) (some m) h target T o = fun_ext (λ j. ground arith)

unfoldable pub link_all : ℕ → ℕ → List Stream → (ℕ → List Link) → ℕ → List Link
unfolding with_link
link_all N target [] T = T
link_all N target (s ∷ ss) T = link_all (N + 1) target ss (with_link s N target T)

unfoldable pub add_kill : Option (ℕ × ℕ) → List (ℕ × ℕ) → List (ℕ × ℕ)
add_kill none cs = cs
add_kill (some c) cs = c ∷ cs

-- The links that are to be taken away when each stream of a list has got one.
unfoldable pub pending : Option (ℕ × ℕ) → ℕ → List Stream → List (ℕ × ℕ)
unfolding add_kill
pending c N [] = []
pending c N (s ∷ ss) = add_kill c (pending (kill_of s N) (N + 1) ss)

unfoldable pub unlink_all : List (ℕ × ℕ) → (ℕ → List Link) → ℕ → List Link
unfolding without
unlink_all [] T = T
unlink_all (c ∷ cs) T = unlink_all cs (without (some c) T)

pub unlink_all-add_kill :
    (c : Option (ℕ × ℕ)) (cs : List (ℕ × ℕ)) (T : ℕ → List Link)
    → unlink_all (add_kill c cs) T ≡ unlink_all cs (without c T)
unfolding unlink_all add_kill without
unlink_all-add_kill none cs T = refl
unlink_all-add_kill (some c) cs T = refl

pub IsOlder-next : (c : Option (ℕ × ℕ)) (N : ℕ) → IsOlder c N → IsOlder c (N + 1)
IsOlder-next none N o = tt
IsOlder-next (some (n, h)) N o = omega arith

pub kill_of-IsOlder : (s : Stream) (N : ℕ) → IsOlder (kill_of s N) (N + 1)
unfolding kill_of
kill_of-IsOlder none N = tt
kill_of-IsOlder (some n) N = omega arith

pub without-link_all :
    (ss : List Stream) (c : Option (ℕ × ℕ)) (N target : ℕ) (T : ℕ → List Link)
    → IsOlder c N
    → without c (link_all N target ss T) ≡ link_all N target ss (without c T)
unfolding link_all
without-link_all [] c N target T o = refl
without-link_all (s ∷ ss) c N target T o =
    without-link_all ss c (N + 1) target (with_link s N target T) (IsOlder-next c N o)
    ∙ ap (link_all (N + 1) target ss) (without-with_link c s N target T o)

-- Only the last link stays, and the old one is gone.
pub unlink_all-link_all :
    (ss : List Stream) (s : Stream) (c : Option (ℕ × ℕ)) (N target : ℕ) (T : ℕ → List Link)
    → IsOlder c N
    → unlink_all (pending c N (s ∷ ss)) (link_all N target (s ∷ ss) T)
      ≡ with_link (last_item s ss) (N + length ss) target (without c T)
unfolding pending link_all last_item unlink_all
unlink_all-link_all [] s c N target T o =
    unlink_all-add_kill c [] (with_link s N target T)
    ∙ without-with_link c s N target T o
    ∙ ap (λ k. with_link s k target (without c T)) (omega arith)
unlink_all-link_all (r ∷ ss) s c N target T o =
    let own = kill_of s N in
    let X = with_link s N target T in
    unlink_all-add_kill c (pending own (N + 1) (r ∷ ss)) (link_all (N + 1) target (r ∷ ss) X)
    ∙ ap (unlink_all (pending own (N + 1) (r ∷ ss)))
        (without-link_all (r ∷ ss) c (N + 1) target X (IsOlder-next c N o))
    ∙ unlink_all-link_all ss r own (N + 1) target (without c X) (kill_of-IsOlder s N)
    ∙ ap (λ Y. with_link (last_item r ss) (N + 1 + length ss) target (without own Y))
        (without-with_link c s N target T o)
    ∙ ap (with_link (last_item r ss) (N + 1 + length ss) target)
        (unlink-link s N target (without c T))
    ∙ ap (λ k. with_link (last_item r ss) k target (without c T)) (omega arith)

-- More fuel, for a round for each item.
unfoldable pub rounds : {A : Type 0} → List A → ℕ → ℕ
rounds [] f = f
rounds (x ∷ xs) f = suc (rounds xs f)

pub rounds-length : {A : Type 0} (xs : List A) (f : ℕ) → rounds xs f ≡ length xs + f
unfolding rounds
rounds-length [] f = omega arith
rounds-length (x ∷ xs) f = omega (arith, rounds-length xs f)

pub length-pending :
    (ss : List Stream) (c : Option (ℕ × ℕ)) (N : ℕ) → length (pending c N ss) ≤ length ss
unfolding pending add_kill
length-pending [] c N = omega arith
length-pending (s ∷ ss) none N = omega (arith, length-pending ss (kill_of s N) (N + 1))
length-pending (s ∷ ss) (some c) N = omega (arith, length-pending ss (kill_of s N) (N + 1))

pub length-map : {A B : Type 0} (f : A → B) (xs : List A) → length (map f xs) ≡ length xs
length-map f [] = refl
length-map f (x ∷ xs) = ap suc (length-map f xs)
