-- ===== src/CountSet.antt =====
-- sodium/count_set.h under SODIUM_CONSERVE_MEMORY, with the field widths of sodium/config.h.
pub mod Refine
pub mod Examples
use caesium_cxx.Base.{
  ℕ, suc, ◌+◌, ◌-◌, ◌%◌, ◌^◌, Bool, true, false, not, ◌&&◌, ◌||◌, List, [], ◌∷◌, ◌==◌,
  if◌then◌else◌,
}

-- SODIUM_STRONG_BITS, SODIUM_STREAM_BITS and SODIUM_NODE_BITS
pub record Widths : Type 0 where
  pub strong_bits : ℕ
  pub stream_bits : ℕ
  pub node_bits : ℕ

abbrev pub word_32 : Widths
word_32 = record { strong_bits = 1; stream_bits = 14; node_bits = 14 }

abbrev pub word_64 : Widths
word_64 = record { strong_bits = 1; stream_bits = 31; node_bits = 31 }

-- Three counters, as `large_count_set` and the bit-fields of `small_count_set` hold them.
pub record Counts : Type 0 where
  pub strong_count : ℕ
  pub stream_count : ℕ
  pub node_count : ℕ

-- The union `count_set_impl`: `is_small` is set in a small one, and clear in the address of a
-- large one, which is aligned.
pub data CountSet : Type 0 where
  small : Counts → CountSet
  large : Counts → CountSet

unfoldable pub empty : CountSet
empty = small (record { strong_count = 0; stream_count = 0; node_count = 0 })

pub data Kind : Type 0 where
  strong stream node : Kind

abbrev pub get_count : Kind → Counts → ℕ
get_count strong c = c.strong_count
get_count stream c = c.stream_count
get_count node c = c.node_count

abbrev pub set_count : Kind → ℕ → Counts → Counts
set_count strong n c = record c { strong_count = n }
set_count stream n c = record c { stream_count = n }
set_count node n c = record c { node_count = n }

abbrev pub bits : Widths → Kind → ℕ
bits w strong = w.strong_bits
bits w stream = w.stream_bits
bits w node = w.node_bits

-- `x != 0` of an unsigned
abbrev pub nonzero : ℕ → Bool
nonzero n = not (n == 0)

abbrev pub active_counts : Counts → Bool
active_counts c = nonzero c.strong_count || nonzero c.node_count && nonzero c.stream_count

abbrev pub alive_counts : Counts → Bool
alive_counts c = nonzero c.strong_count || nonzero c.node_count || nonzero c.stream_count

unfoldable pub active : CountSet → Bool
active (small c) = active_counts c
active (large c) = active_counts c

unfoldable pub alive : CountSet → Bool
alive (small c) = alive_counts c
alive (large c) = alive_counts c

-- `unsigned` fields of the large set are 32 bits wide.
abbrev bump : ℕ → Kind → Counts → Counts
bump width k c = set_count k ((get_count k c + 1) % 2 ^ width) c

abbrev drop_one : ℕ → Kind → Counts → Counts
drop_one width k c = set_count k ((get_count k c + 2 ^ width - 1) % 2 ^ width) c

-- `inc_strong`, `inc_stream` and `inc_node`: a small set whose field is at its maximum is copied
-- to a large one first.
unfoldable pub inc : Widths → Kind → CountSet → CountSet
inc w k (small c) =
    if get_count k c == 2 ^ bits w k - 1 then large (bump 32 k c) else small (bump (bits w k) k c)
inc w k (large c) = large (bump 32 k c)

-- `dec_strong`, `dec_stream` and `dec_node`
unfoldable pub dec : Widths → Kind → CountSet → CountSet
dec w k (small c) = small (drop_one (bits w k) k c)
dec w k (large c) = large (drop_one 32 k c)

-- A call of one of the six, and the calls in order.
pub data Op : Type 0 where
  incs decs : Kind → Op

abbrev pub step : Widths → Op → CountSet → CountSet
step w (incs k) = inc w k
step w (decs k) = dec w k

abbrev pub run : Widths → List Op → CountSet → CountSet
run w [] s = s
run w (op ∷ ops) s = run w ops (step w op s)
