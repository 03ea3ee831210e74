-- ===== src/MagicRef/Edges.antt =====
-- What the walks over links are measured by: how many references a colour lets count, and sums of
-- a weight over all links.
use caesium_cxx.Base.{
  ℕ, zero, suc, ◌+◌, ◌≤◌, ◌<◌, ◌≡◌, refl, inl, inr, Bool, true, false, List, arith, ◌==◌,
  if◌then◌else◌, Bool-cases, count, update,
}
use caesium_cxx.MagicRef.{Colour, black, grey, white, purple, same_colour}

-- The sum of a weight over the links below `n`.
unfoldable pub tally : (ℕ → Colour → ℕ) → ℕ → (ℕ → Colour) → ℕ
tally w zero colour = 0
tally w (suc n) colour = tally w n colour + w n (colour n)

tally-update_of_le :
    (w : ℕ → Colour → ℕ) (n : ℕ) (colour : ℕ → Colour) (l : ℕ) (c : Colour)
    → n ≤ l
    → tally w n (update colour l c) ≡ tally w n colour
unfolding tally
tally-update_of_le w zero colour l c h = refl
tally-update_of_le w (suc n) colour l c h = ground (arith, tally-update_of_le w n colour l c)

pub tally-update :
    (w : ℕ → Colour → ℕ) (n : ℕ) (colour : ℕ → Colour) (l : ℕ) (c : Colour)
    → l < n
    → tally w n (update colour l c) + w l (colour l) ≡ tally w n colour + w l c
unfolding tally
tally-update w zero colour l c h = absurd (omega arith)
tally-update w (suc n) colour l c h = elim (Bool-cases (n == l)) [
  | inl last ↦
      let same : n ≡ l = ground arith in
      rw (← same) (ground (arith, tally-update_of_le w n colour n c))
  | inr below ↦ ground (arith, tally-update w n colour l c)
]

pub tally_le :
    (v w : ℕ → Colour → ℕ) (n : ℕ) (colour : ℕ → Colour)
    → ((m : ℕ) → v m (colour m) ≤ w m (colour m))
    → tally v n colour ≤ tally w n colour
unfolding tally
tally_le v w zero colour h = omega arith
tally_le v w (suc n) colour h = omega (arith, h n, tally_le v w n colour h)

pub tally-member :
    (w : ℕ → Colour → ℕ) (n : ℕ) (colour : ℕ → Colour) (m : ℕ)
    → m < n
    → w m (colour m) ≤ tally w n colour
unfolding tally
tally-member w zero colour m h = absurd (omega arith)
tally-member w (suc n) colour m h = elim (Bool-cases (m == n)) [
  | inl last ↦ let same : m ≡ n = ground arith in rw same (omega arith)
  | inr below ↦ ground (arith, tally-member w n colour m)
]

-- The links whose references count: those that no walk has taken for garbage.
abbrev pub live : Colour → Bool
live black = true
live purple = true
live grey = false
live white = false

abbrev pub from_live : (ℕ → List ℕ) → ℕ → ℕ → Colour → ℕ
from_live children x m c = if live c then count x (children m) else 0

abbrev pub from_any : (ℕ → List ℕ) → ℕ → ℕ → Colour → ℕ
from_any children x m c = count x (children m)

-- A chain of children.
pub data Chain (children : ℕ → List ℕ) : ℕ → ℕ → Type 0 where
  done : {l : ℕ} → Chain children l l
  into : {l c x : ℕ} → 0 < count c (children l) → Chain children c x → Chain children l x

-- Children are below `n`.
abbrev pub IsBounded : ℕ → List ℕ → Type 0
IsBounded n ls = (x : ℕ) → 0 < count x ls → x < n

-- What one test of a colour says of another.
pub black_not_grey : (c : Colour) → same_colour c black ≡ true → same_colour c grey ≡ false
black_not_grey black h = refl
black_not_grey grey h = cc
black_not_grey white h = cc
black_not_grey purple h = cc

pub black_not_white : (c : Colour) → same_colour c black ≡ true → same_colour c white ≡ false
black_not_white black h = refl
black_not_white grey h = cc
black_not_white white h = cc
black_not_white purple h = cc

pub grey_not_black : (c : Colour) → same_colour c grey ≡ true → same_colour c black ≡ false
grey_not_black black h = cc
grey_not_black grey h = refl
grey_not_black white h = cc
grey_not_black purple h = cc

pub grey_dead : (c : Colour) → same_colour c grey ≡ true → live c ≡ false
grey_dead black h = cc
grey_dead grey h = refl
grey_dead white h = cc
grey_dead purple h = cc

pub white_dead : (c : Colour) → same_colour c white ≡ true → live c ≡ false
white_dead black h = cc
white_dead grey h = cc
white_dead white h = refl
white_dead purple h = cc

pub dead_grey :
    (c : Colour) → live c ≡ false → same_colour c white ≡ false → same_colour c grey ≡ true
dead_grey black h k = cc
dead_grey grey h k = refl
dead_grey white h k = cc
dead_grey purple h k = cc

pub dead_white :
    (c : Colour) → live c ≡ false → same_colour c grey ≡ false → same_colour c white ≡ true
dead_white black h k = cc
dead_white grey h k = cc
dead_white white h k = refl
dead_white purple h k = cc

pub dead_lem :
    (c : Colour) → same_colour c black ≡ false → same_colour c purple ≡ false → live c ≡ false
dead_lem black h k = cc
dead_lem grey h k = refl
dead_lem white h k = refl
dead_lem purple h k = cc

pub grey_not_purple : (c : Colour) → same_colour c grey ≡ true → same_colour c purple ≡ false
grey_not_purple black h = cc
grey_not_purple grey h = refl
grey_not_purple white h = cc
grey_not_purple purple h = cc

pub live_of :
    (c : Colour) → same_colour c grey ≡ false → same_colour c white ≡ false → live c ≡ true
live_of black h k = refl
live_of grey h k = cc
live_of white h k = cc
live_of purple h k = refl
