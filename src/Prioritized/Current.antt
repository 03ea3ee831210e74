-- ===== src/Prioritized/Current.antt =====
-- Which transaction is open: the constructor of `transaction`, its destructor, `close` and
-- `get_current_transaction` of experimental/sodium/transaction.cpp, where code opens transactions
-- in scopes. One thread has `transaction_lock`.
use caesium_cxx.Base.{
  ℕ, zero, suc, ◌+◌, ◌-◌, Bool, true, false, Option, none, some, update, ◌==◌, ltb, ◌&&◌,
  if◌then◌else◌,
}

-- A `shared_ptr` to a `transaction_impl`; the one that a destructor makes of `this` owns nothing.
pub record Handle : Type 0 where
  pub impl : ℕ
  pub owning : Bool

-- `current_transaction_1` is weak. `refs` counts the pointers that own each implementation, `lock`
-- how often `transaction_lock` is locked.
pub record Current : Type 0 where
  pub current_transaction_1 : Option ℕ
  pub current_transaction_2 : Option Handle
  pub refs : ℕ → ℕ
  pub active : ℕ → Bool
  pub next : ℕ
  pub lock : ℕ

-- The second half of `get_current_transaction_impl`, with `current_transaction_1.lock()`.
unfoldable pub lock_first : Current → Option Handle
lock_first s = elim s.current_transaction_1 [
  | none ↦ none
  | some i ↦
      if ltb 0 (s.refs i) && s.active i then some (record { impl = i; owning = true }) else none
]

unfoldable pub get_current_transaction_impl : Current → Option Handle
unfolding lock_first
get_current_transaction_impl s = elim s.current_transaction_2 [
  | none ↦ lock_first s
  | some h ↦ if s.active h.impl then some h else lock_first s
]

-- A copy of a pointer.
unfoldable pub share : Handle → Current → Current
share h s = if h.owning then (record s { refs = update s.refs h.impl (s.refs h.impl + 1) }) else s

-- `transaction::transaction`; a new implementation keeps the lock.
unfoldable pub construct_transaction : Current → Handle × Current
unfolding get_current_transaction_impl share
construct_transaction s = elim (get_current_transaction_impl s) [
  | some h ↦ (h, share h s)
  | none ↦ (
    record { impl = s.next; owning = true },
    record s {
      current_transaction_1 = some s.next;
      refs = update s.refs s.next 1;
      active = update s.active s.next true;
      next = s.next + 1;
      lock = s.lock + 1;
    },
  )
]

-- `get_current_transaction`
unfoldable pub get_current_transaction : Current → Option Handle × Current
unfolding get_current_transaction_impl share
get_current_transaction s = elim (get_current_transaction_impl s) [
  | none ↦ (none, s)
  | some h ↦ (some h, share h s)
]

-- Code that opens transactions: a scope with a body, and what comes after it.
pub data Code : Type 0 where
  done : Code
  scope : Code → Code → Code

-- `transaction_impl::close`, whose queues call the code `actions`.
unfoldable pub close_impl : (Current → Option Current) → Handle → Current → Option Current
close_impl actions h s =
    if s.active h.impl
    then (elim (actions (record s { current_transaction_2 = some h })) [
      | none ↦ none
      | some t ↦ some (record t {
        current_transaction_2 = none;
        active = update t.active h.impl false;
        lock = t.lock - 1;
      })
    ])
    else some s

-- The destructor of `transaction`; `destroy_impl` is that of the implementation.
unfoldable pub release_handle : (ℕ → Current → Option Current) → Handle → Current → Option Current
release_handle destroy_impl h s =
    let s' = record s { refs = update s.refs h.impl (s.refs h.impl - 1) } in
    if h.owning then (if s.refs h.impl == 1 then destroy_impl h.impl s' else some s') else some s

unfoldable pub run_scopes : (ℕ → Current → Option Current) → Code → Current → Option Current
unfolding construct_transaction release_handle
run_scopes destroy_impl done s = some s
run_scopes destroy_impl (scope body rest) s =
    let (h, s₁) = construct_transaction s in
    elim (run_scopes destroy_impl body s₁) [
      | none ↦ none
      | some s₂ ↦ elim (release_handle destroy_impl h s₂) [
        | none ↦ none
        | some s₃ ↦ run_scopes destroy_impl rest s₃
      ]
    ]

-- `~transaction_impl`, when what its queues call is `actions`; the fuel is how deep destructors
-- nest.
unfoldable pub destroy_impl : Code → ℕ → ℕ → Current → Option Current
unfolding close_impl run_scopes
destroy_impl actions zero i s = none
destroy_impl actions (suc fuel) i s =
    close_impl (run_scopes (destroy_impl actions fuel) actions)
      (record { impl = i; owning = false }) s

-- `transaction::close`; the copies of the pointer that it has meanwhile are not counted.
unfoldable pub close_transaction : Code → ℕ → Handle → Current → Option Current
unfolding close_impl run_scopes release_handle destroy_impl
close_transaction actions fuel h s =
    elim (close_impl (run_scopes (destroy_impl actions fuel) actions) h s) [
      | none ↦ none
      | some t ↦ release_handle (destroy_impl actions fuel) h t
    ]

-- The scopes that no other scope contains.
unfoldable pub outermost : Code → ℕ
outermost done = 0
outermost (scope body rest) = outermost rest + 1
