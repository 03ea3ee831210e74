-- ===== src/Listening/Once.antt =====
-- How often the listener of `listen_once` is called.
use caesium_cxx.Base.{
  ℕ, ◌≡◌, refl, sym, ap, ◌∙◌, true, false, none, some, List, [], ◌∷◌, ◌++◌, map, arith, update,
}
use mathlib.Core.List.{append-nil, append_assoc}
use caesium_cxx.Network.{unlink_link}
use caesium_cxx.Listening.{Listening, kill, call_all, finish_transaction}

module _ {V : Type 0} (l n h : ℕ) where
  call_all-shape :
      (as' : List V) (s : Listening V)
      → call_all l (n, h) as' s ≡ record s {
        net = record s.net { heard = s.net.heard ++ map (λ x. (l, x)) as' };
        posted = s.posted ++ map (λ x. (n, h)) as';
      }
  unfolding call_all
  call_all-shape [] s =
      ap (λ k. record s { net = record s.net { heard = k }; posted = s.posted })
        (sym (append-nil s.net.heard))
      ∙ ap (λ k. record s { net = record s.net { heard = s.net.heard ++ [] }; posted = k })
          (sym (append-nil s.posted))
  call_all-shape (a ∷ as') s =
      call_all-shape as' (record s {
        net = record s.net { heard = s.net.heard ++ (l, a) ∷ [] };
        posted = s.posted ++ (n, h) ∷ [];
      })
      ∙ ap
          (λ k. record s {
            net = record s.net { heard = k };
            posted = (s.posted ++ (n, h) ∷ []) ++ map (λ x. (n, h)) as';
          })
          (append_assoc s.net.heard ((l, a) ∷ []) (map (λ x. (l, x)) as'))
      ∙ ap
          (λ k. record s {
            net = record s.net { heard = s.net.heard ++ map (λ x. (l, x)) (a ∷ as') };
            posted = k;
          })
          (append_assoc s.posted ((n, h) ∷ []) (map (λ x. (n, h)) as'))

  -- A listener of `listen_once` that is linked to `n` by `h`, while nothing is posted. When the
  -- stream fires once in a transaction, it is called once, and its link is gone at the end; to
  -- call the function that `listen_once` returned after that reads freed memory. When the stream
  -- fires more often, the listener is called at each firing, and the end of the transaction reads
  -- freed memory.
  pub call_all-once :
      (s : Listening V) (a : V)
      → s.posted ≡ []
      → s.keepalive h ≡ true
      → ((t : Listening V) × (finish_transaction (call_all l (n, h) (a ∷ []) s) ≡ some t)
          × (t.net.heard ≡ s.net.heard ++ (l, a) ∷ [])
          × (t.net.targets ≡ update s.net.targets n (unlink_link h (s.net.targets n)))
          × (finish_transaction (kill (n, h) t) ≡ none))
        × ((b : V) (bs : List V)
            → ((call_all l (n, h) (a ∷ b ∷ bs) s).net.heard
                ≡ s.net.heard ++ map (λ x. (l, x)) (a ∷ b ∷ bs))
              × (finish_transaction (call_all l (n, h) (a ∷ b ∷ bs) s) ≡ none))
  unfolding finish_transaction kill call_all
  call_all-once s a p k = (
    (
      record s {
        net = record s.net {
          heard = s.net.heard ++ (l, a) ∷ [];
          targets = update s.net.targets n (unlink_link h (s.net.targets n));
        };
        keepalive = update s.keepalive h false;
        posted = [];
      },
      ground (arith, p, k),
      refl,
      refl,
      ground arith,
    ),
    λ b bs. (
      ap (λ t. t.net.heard) (call_all-shape (a ∷ b ∷ bs) s),
      ap finish_transaction (call_all-shape (a ∷ b ∷ bs) s) ∙ ground (arith, p, k),
    ),
  )
