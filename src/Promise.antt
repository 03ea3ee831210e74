-- ===== src/Promise.antt =====
-- `promise` of sodium/promise.h, from a stream, made of the operators of `Wiring`.
pub mod Delivery
pub mod Examples
use caesium_cxx.Base.{ℕ, ◌+◌, Option, none, some, List, [], ◌∷◌}
use caesium_cxx.Network.{map_handler}
use caesium_cxx.Wiring.{Stream, Cell, Build, map_, once_, hold}

-- What streams and cells carry: the values of the promise, optional ones, and the unit.
pub data Value (A : Type 0) : Type 0 where
  plain : A → Value A
  optional : Option A → Value A
  unit : Value A

pub record Promise : Type 0 where
  pub s_deliver : Stream
  pub o_value : Cell

module _ {A : Type 0} where
  -- `boost::optional<A>(a)`
  abbrev pub present : Value A → Value A
  present (plain a) = optional (some a)
  present v = v

  -- `promise(sDeliver_)`
  unfoldable pub promise : Stream → Build (Value A) → Promise × Build (Value A)
  unfolding once_ map_ hold
  promise s b =
      let (s_deliver, b₁) = once_ s b in
      let (s_value, b₂) = map_ (map_handler present) s_deliver b₁ in
      let (o_value, b₃) = hold (optional none) s_value b₂ in
      (record { s_deliver = s_deliver; o_value = o_value }, b₃)
