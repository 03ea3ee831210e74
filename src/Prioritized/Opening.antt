-- ===== src/Prioritized/Opening.antt =====
-- Scopes that open transactions: the outermost ones make one each.
use caesium_cxx.Base.{
  ℕ, suc, ◌+◌, ◌-◌, ◌<◌, ◌≡◌, refl, ap, ◌∙◌, Bool, true, false, Option, none, some, update, ◌==◌,
  arith,
}
use caesium_cxx.Prioritized.Current.{
  Handle, Current, lock_first, get_current_transaction_impl, share, construct_transaction, Code,
  done, scope, close_impl, release_handle, run_scopes, destroy_impl, outermost,
}

abbrev owner : ℕ → Handle
owner i = record { impl = i; owning = true }

abbrev this_handle : ℕ → Handle
this_handle i = record { impl = i; owning = false }

-- What comes after a scope, and the end of a scope.
abbrev continue : (ℕ → Current → Option Current) → Code → Option Current → Option Current
continue d rest none = none
continue d rest (some s) = run_scopes d rest s

abbrev leave : (ℕ → Current → Option Current) → Code → Handle → Option Current → Option Current
leave d rest h none = none
leave d rest h (some s) = continue d rest (release_handle d h s)

run_scopes-scope :
    (d : ℕ → Current → Option Current) (body rest : Code) (s s₁ s₂ s₃ : Current) (h : Handle)
    → construct_transaction s ≡ (h, s₁)
    → run_scopes d body s₁ ≡ some s₂
    → release_handle d h s₂ ≡ some s₃
    → run_scopes d (scope body rest) s ≡ run_scopes d rest s₃
unfolding run_scopes
run_scopes-scope d body rest s s₁ s₂ s₃ h e₁ e₂ e₃ =
    ap (λ x. leave d rest x.0 (run_scopes d body x.1)) e₁
    ∙ ap (leave d rest h) e₂
    ∙ ap (continue d rest) e₃

module _ (A : ℕ → Bool) (n l : ℕ) where
  -- Transaction `i` was opened last, and it is closing when `second` points to it.
  abbrev at : ℕ → Option Handle → (ℕ → ℕ) → Current
  at i second R = record {
    current_transaction_1 = some i;
    current_transaction_2 = second;
    refs = R;
    active = A;
    next = n;
    lock = l;
  }

  construct_transaction-open :
      (i : ℕ) (R : ℕ → ℕ)
      → 0 < R i
      → A i ≡ true
      → construct_transaction (at i none R) ≡ (owner i, at i none (update R i (R i + 1)))
  unfolding construct_transaction get_current_transaction_impl lock_first share
  construct_transaction-open i R p a = ground (arith, a)

  release_handle-open :
      (d : ℕ → Current → Option Current) (i : ℕ) (R : ℕ → ℕ)
      → (R i == 1) ≡ false
      → release_handle d (owner i) (at i none R) ≡ some (at i none (update R i (R i - 1)))
  unfolding release_handle
  release_handle-open d i R p = rw p refl

  construct_transaction-closing :
      (i : ℕ) (R : ℕ → ℕ)
      → A i ≡ true
      → construct_transaction (at i (some (this_handle i)) R)
        ≡ (this_handle i, at i (some (this_handle i)) R)
  unfolding construct_transaction get_current_transaction_impl share
  construct_transaction-closing i R a = rw a refl

  -- No scope in an open transaction makes another, or closes it.
  run_scopes-open :
      (d : ℕ → Current → Option Current) (c : Code) (i : ℕ) (R : ℕ → ℕ)
      → 0 < R i
      → A i ≡ true
      → (R' : ℕ → ℕ) × (run_scopes d c (at i none R) ≡ some (at i none R')) × (R' i ≡ R i)
  unfolding run_scopes
  run_scopes-open d done i R p a = (R, refl, refl)
  run_scopes-open d (scope body rest) i R p a =
      let (R₁, e₁, k₁) = run_scopes-open d body i (update R i (R i + 1)) (ground arith) a in
      let R₂ = update R₁ i (R₁ i - 1) in
      let (R₃, e₃, k₃) = run_scopes-open d rest i R₂ (ground (arith, k₁)) a in
      (
        R₃,
        run_scopes-scope d body rest (at i none R) (at i none (update R i (R i + 1))) (at i none R₁)
              (at i none R₂) (owner i) (construct_transaction-open i R p a) e₁
              (release_handle-open d i R₁ (ground (arith, k₁)))
            ∙ e₃,
        ground (arith, k₁, k₃),
      )

  -- Nor does a scope in the code that a closing transaction calls.
  run_scopes-closing :
      (d : ℕ → Current → Option Current) (c : Code) (i : ℕ) (R : ℕ → ℕ)
      → A i ≡ true
      → run_scopes d c (at i (some (this_handle i)) R) ≡ some (at i (some (this_handle i)) R)
  unfolding run_scopes release_handle
  run_scopes-closing d done i R a = refl
  run_scopes-closing d (scope body rest) i R a =
      run_scopes-scope d body rest (at i (some (this_handle i)) R) (at i (some (this_handle i)) R)
        (at i (some (this_handle i)) R) (at i (some (this_handle i)) R) (this_handle i)
        (construct_transaction-closing i R a) (run_scopes-closing d body i R a) refl
      ∙ run_scopes-closing d rest i R a

-- No transaction closes.
abbrev idle : Option ℕ → (ℕ → ℕ) → (ℕ → Bool) → ℕ → ℕ → Current
idle first R A n l = record {
  current_transaction_1 = first;
  current_transaction_2 = none;
  refs = R;
  active = A;
  next = n;
  lock = l;
}

construct_transaction-idle :
    (first : Option ℕ) (R : ℕ → ℕ) (A : ℕ → Bool) (n l : ℕ)
    → lock_first (idle first R A n l) ≡ none
    → construct_transaction (idle first R A n l)
      ≡ (owner n, at (update A n true) (n + 1) (l + 1) n none (update R n 1))
unfolding construct_transaction get_current_transaction_impl
construct_transaction-idle first R A n l e =
    ap
      (λ o. elim o as (λ _. Handle × Current) [
        | some h ↦ (h, share h (idle first R A n l))
        | none ↦ (owner n, at (update A n true) (n + 1) (l + 1) n none (update R n 1))
      ])
      e

-- How the destructor ends, when what it calls has changed nothing.
abbrev ended : ℕ → Option Current → Option Current
ended i none = none
ended i (some t) =
    some (record t {
      current_transaction_2 = none;
      active = update t.active i false;
      lock = t.lock - 1;
    })

destroy_impl-unlocks :
    (actions : Code) (fuel n l i : ℕ) (R : ℕ → ℕ) (A : ℕ → Bool)
    → A i ≡ true
    → destroy_impl actions (suc fuel) i (at A n l i none R)
      ≡ some (idle (some i) R (update A i false) n (l - 1))
unfolding destroy_impl close_impl
destroy_impl-unlocks actions fuel n l i R A a =
    rw a (ap (ended i) (run_scopes-closing A n l (destroy_impl actions fuel) actions i R a))

destroy_impl-ends :
    (actions : Code) (fuel n l i : ℕ) (R : ℕ → ℕ) (A : ℕ → Bool)
    → A i ≡ true
    → destroy_impl actions (suc fuel) i (at A n (l + 1) i none R)
      ≡ some (idle (some i) R (update A i false) n l)
destroy_impl-ends actions fuel n l i R A a =
    destroy_impl-unlocks actions fuel n (l + 1) i R A a
    ∙ ap (λ k. some (idle (some i) R (update A i false) n k)) (omega arith)

-- The last owner of a transaction closes it; the code that is called then finds it open.
release_handle-last :
    (actions : Code) (fuel n l i : ℕ) (R : ℕ → ℕ) (A : ℕ → Bool)
    → R i ≡ 1
    → A i ≡ true
    → release_handle (destroy_impl actions (suc fuel)) (owner i) (at A n (l + 1) i none R)
      ≡ some (idle (some i) (update R i (R i - 1)) (update A i false) n l)
unfolding release_handle
release_handle-last actions fuel n l i R A o a =
    rw o (destroy_impl-ends actions fuel n l i (update R i (1 - 1)) A a)

-- In code that opens transactions in scopes, when none is open yet: each outermost scope makes one
-- transaction, which the scopes inside it share and which ends with it, also when the
-- actions that are called at its end open transactions themselves; the code comes to its end, with
-- no transaction open and `transaction_lock` as often locked as before. One level of destructors is
-- enough.
pub run_scopes-opens :
    (actions c : Code) (fuel : ℕ) (first : Option ℕ) (R : ℕ → ℕ) (A : ℕ → Bool) (n l : ℕ)
    → lock_first (idle first R A n l) ≡ none
    → (t : Current) × (run_scopes (destroy_impl actions (suc fuel)) c (idle first R A n l) ≡ some t)
      × (get_current_transaction_impl t ≡ none)
      × (t.next ≡ n + outermost c)
      × (t.lock ≡ l)
unfolding run_scopes get_current_transaction_impl outermost lock_first
run_scopes-opens actions done fuel first R A n l e = (_, refl, e, omega arith, refl)
run_scopes-opens actions (scope body rest) fuel first R A n l e =
    let A₁ = update A n true in
    let d = destroy_impl actions (suc fuel) in
    let (R₁, e₁, k₁) =
      run_scopes-open A₁ (n + 1) (l + 1) d body n (update R n 1) (ground arith) (ground arith) in
    let R₂ = update R₁ n (R₁ n - 1) in
    let A₂ = update A₁ n false in
    let (t, e₃, none_open, next, lock) =
      run_scopes-opens actions rest fuel (some n) R₂ A₂ (n + 1) l (ground arith) in
    (
      t,
      run_scopes-scope d body rest (idle first R A n l)
            (at A₁ (n + 1) (l + 1) n none (update R n 1)) (at A₁ (n + 1) (l + 1) n none R₁)
            (idle (some n) R₂ A₂ (n + 1) l) (owner n) (construct_transaction-idle first R A n l e)
            e₁
            (release_handle-last actions fuel (n + 1) l n R₁ A₁ (ground (arith, k₁)) (ground arith))
          ∙ e₃,
      none_open,
      omega (arith, next),
      lock,
    )
