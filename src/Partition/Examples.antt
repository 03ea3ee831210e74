-- ===== src/Partition/Examples.antt =====
-- A transaction whose body posts an action and runs a transaction; the action posts another one,
-- and that one throws.
use caesium_cxx.Base.{ℕ, zero, suc, ◌≡◌, refl, false, List, [], ◌∷◌, ◌++◌}
use caesium_cxx.Partition.{Cmd, posts, transacts, throws, Program, Partition, thrown, exec}
use caesium_cxx.Partition.Keeps.{Ends, Keeps}
use caesium_cxx.Partition.Nesting.{at_rest, exec-Keeps, transaction-calls_posts}

unfoldable actions : ℕ → List Cmd
actions zero = posts 1 ∷ []
actions (suc zero) = throws ∷ []
actions (suc (suc n)) = transacts 1 ∷ []

unfoldable bodies : ℕ → List Cmd
bodies zero = posts 2 ∷ posts 0 ∷ transacts 1 ∷ []
bodies (suc n) = []

abbrev program : Program
program = record {
  action = actions;
  hook = λ h. throws ∷ [];
  body = bodies;
  entries = λ b. [];
  fails = λ b. false;
}

abbrev first : Partition
first = at_rest [] (record {
  depth = 0;
  current = false;
  processing_post = false;
  processing_on_start_hooks = false;
  post_q = [];
  on_start_hooks = [];
  locks = 0;
  unlocks = 0;
  ran = [];
  given = [];
  closed = 0;
})

-- All three actions are called, in the order of posting, and the exception of the last goes on.
exec-first :
    exec program 9 (transacts 0 ∷ []) first
    ≡ thrown (record first {
      locks = 7;
      unlocks = 9;
      ran = 2 ∷ 0 ∷ 1 ∷ [];
      given = 2 ∷ 0 ∷ 1 ∷ [];
      closed = 2;
    })
unfolding exec actions bodies
exec-first = refl

exec-Keeps_example :
    Ends (Keeps 0 0 first) (Keeps 0 0 first) (exec program 9 (transacts 0 ∷ []) first)
exec-Keeps_example = exec-Keeps program 9 (transacts 0 ∷ []) first refl

transaction-calls_posts_example :
    Ends
      (λ u. (u.post_q ≡ []) × (u.given ≡ u.ran) × (u.processing_post ≡ false))
      (λ u. (u.given ≡ u.ran ++ u.post_q) × (u.processing_post ≡ false))
      (exec program 9 (transacts 0 ∷ []) first)
transaction-calls_posts_example = transaction-calls_posts program 9 0 first refl refl refl refl
