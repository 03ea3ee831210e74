-- ===== src/LockPool/Examples.antt =====
-- Runs of the hash of sodium/lock_pool.h.
use caesium_cxx.Base.{◌≡◌, refl}
use caesium_cxx.LockPool.{slot, knuth_hash}

slot_run : slot 0x7fff_0000_1000 ≡ 59
unfolding slot knuth_hash
slot_run = refl
