-- ===== src/Network/Glitch.antt =====
-- Merging in an order that the ranks of the nodes do not decide: the queue is worked off first
-- in, first out. The streams of a merge come to node 2, where the coalescing starts; its result
-- is fired by node 4.
use caesium_cxx.Base.{ℕ, zero, suc, ◌≡◌, refl, false, none, some, List, [], ◌∷◌}
use caesium_cxx.Network.{
  Handler, forward, map_handler, merge_handler, coalesce_handler, listener_handler, Link, Net, send,
  drain,
}

-- `s.merge(s.map(g), f)`: node 0 is that of `s`, node 1 that of the mapped stream.
unfoldable pub self_links : ℕ → List Link
self_links zero = record { h = 0; n = 3 } ∷ record { h = 4; n = 1 } ∷ []
self_links (suc zero) = record { h = 1; n = 2 } ∷ []
self_links (suc (suc zero)) = record { h = 2; n = 4 } ∷ []
self_links (suc (suc (suc zero))) = []
self_links (suc (suc (suc (suc zero)))) = record { h = 3; n = 5 } ∷ []
self_links (suc (suc (suc (suc (suc n))))) = []

-- `s.merge(t, f)`: node 0 is that of `s`, node 1 that of `t`.
unfoldable pub pair_links : ℕ → List Link
pair_links zero = record { h = 0; n = 3 } ∷ []
pair_links (suc zero) = record { h = 1; n = 2 } ∷ []
pair_links (suc (suc zero)) = record { h = 2; n = 4 } ∷ []
pair_links (suc (suc (suc zero))) = []
pair_links (suc (suc (suc (suc zero)))) = record { h = 3; n = 5 } ∷ []
pair_links (suc (suc (suc (suc (suc n))))) = []

module _ {V : Type 0} (f : V → V → V) (g : V → V) where
  -- `s.merge(t, f)` with a listener: holders 0 and 1 are those of `merge_`, 2 coalesces, 3 listens;
  -- 4 maps.
  unfoldable pub holders : ℕ → Handler V
  holders zero = merge_handler 2
  holders (suc zero) = forward
  holders (suc (suc zero)) = coalesce_handler 0 f
  holders (suc (suc (suc zero))) = listener_handler 0
  holders (suc (suc (suc (suc n)))) = map_handler g

  abbrev pub fresh : V → (ℕ → List Link) → Net V
  fresh v links = record {
    handlers = holders;
    targets = links;
    firings = λ n. [];
    coalesced = λ st. none;
    cells = λ c. record { current = v; update = none };
    states = λ st. v;
    applies = λ st. record { fired = false; f = none; a = none };
    kills = λ k. none;
    queue = [];
    posts = [];
    in_callback = 0;
    heard = [];
  }

  -- One value of `s` makes `s.merge(s.map(g), f)` fire twice in one transaction, whatever `f` and
  -- `g` are: first the value itself, then its image under `g`; `f` is never called.
  pub merge_glitches :
      (call : V → V → V) (v a : V)
      → (t : Net V) × (drain call 10 (send 0 a (fresh v self_links)) ≡ some t)
        × (t.heard ≡ (0, a) ∷ (0, g a) ∷ [])
        × (t.firings 4 ≡ g a ∷ a ∷ [])
  unfolding drain send holders self_links
  merge_glitches call v a = (_, refl, refl, refl)

  -- When `t` has fired before `s` in a transaction, `s.merge(t, f)` fires once, but with the
  -- value of `t` at the left input of `f`.
  pub merge_order :
      (call : V → V → V) (v a b : V)
      → (t : Net V) × (drain call 9 (send 0 a (send 1 b (fresh v pair_links))) ≡ some t)
        × (t.heard ≡ (0, f b a) ∷ [])
  unfolding drain send holders pair_links
  merge_order call v a b = (_, refl, refl)
