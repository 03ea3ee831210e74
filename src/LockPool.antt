-- ===== src/LockPool.antt =====
-- `spin_get_and_lock` of sodium/lock_pool.h: which lock of the pool guards an address.
pub mod Examples
use caesium_cxx.Base.{ℕ, ◌*◌, ◌-◌, ◌/◌, ◌%◌, ◌^◌, ◌<◌, ◌≡◌, arith}

-- SODIUM_IMPL_LOCK_POOL_BITS, when threads are on
abbrev pub lock_pool_bits : ℕ
lock_pool_bits = 7

abbrev pub pool_size : ℕ
pool_size = 2 ^ lock_pool_bits

abbrev u32 : ℕ → ℕ
u32 n = n % 2 ^ 32

-- The 32-bit product of the cast address and Knuth's constant, and the slot that its top bits name.
pub knuth_hash : ℕ → ℕ
knuth_hash addr = u32 (u32 addr * 2654435761)

pub slot : ℕ → ℕ
slot addr = knuth_hash addr / 2 ^ (32 - lock_pool_bits)

-- The inverse of the constant modulo 2^32.
abbrev pub knuth_inverse : ℕ
knuth_inverse = 244002641

-- Every address is guarded by a lock of the pool; each lock guards some address; and the hash
-- keeps different 32-bit addresses apart.
pub slot_spread :
    ((addr : ℕ) → slot addr < pool_size)
    × ((i : ℕ) → i < pool_size → (addr : ℕ) × (slot addr ≡ i))
    × ((a b : ℕ) → a < 2 ^ 32 → b < 2 ^ 32 → knuth_hash a ≡ knuth_hash b → a ≡ b)
unfolding slot knuth_hash
slot_spread = (
  λ addr. omega arith,
  λ i h. (i * 2 ^ 25 * knuth_inverse % 2 ^ 32, omega arith),
  λ a b ha hb e. omega arith,
)
