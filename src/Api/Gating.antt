-- ===== src/Api/Gating.antt =====
-- `gate` while the cell that it asks is updated.
use caesium_cxx.Base.{
  ℕ, suc, ◌≡◌, refl, ap, sym, ◌∙◌, ◌-◌, Bool, true, Option, none, some, List, [], ◌∷◌, ◌++◌,
  if◌then◌else◌, update, Bool-cases, inl, inr,
}
use caesium_cxx.Network.{
  Net, CellState, Post, clear_firings, finalize, send_entry, send, drain, close, run_posts,
  is_empty,
}
use caesium_cxx.Wiring.{Build, listen_function, unsafe_new_stream, hold}
use caesium_cxx.Wiring.Late.{one_node, listen_to}
use caesium_cxx.Api.{gate}
use mathlib.Core.List.{append-nil, append_assoc}

module _ {V : Type 0} (call : V → V → V) where
  -- A transaction for each pair: node 1 fires the flag, then node 0 its value.
  unfoldable pub run_all : ℕ → List (V × V) → Net V → Option (Net V)
  unfolding close send
  run_all fuel [] s = some s
  run_all fuel ((flag, a) ∷ rest) s = elim (close call fuel (send 0 a (send 1 flag s))) [
    | none ↦ none
    | some t ↦ run_all fuel rest t
  ]

module _ {V : Type 0} (as_bool : V → Bool) where
  -- What gets through a gate that starts with a flag and lags one transaction behind.
  unfoldable pub let_through : V → List (V × V) → List (ℕ × V)
  let_through old [] = []
  let_through old ((flag, a) ∷ rest) =
      (if as_bool old then (0, a) ∷ [] else []) ++ let_through flag rest

module _ {V : Type 0} (as_bool : V → Bool) (wrap : Option V → V) (contents : V → Option V) where
  -- Node 0 goes through a gate that opens and closes with a cell, which holds what node 1 fires.
  unfoldable pub gated : V → V → Build V
  unfolding one_node unsafe_new_stream hold gate
  gated v flag =
      let (n, b₁) = unsafe_new_stream (one_node v) in
      let (cell, b₂) = hold flag (some n) b₁ in
      let (s, b₃) = gate as_bool wrap contents cell (some 0) b₂ in listen_to v s b₃

module _ {V : Type 0} (call : V → V → V) (as_bool : V → Bool) (wrap : Option V → V)
    (contents : V → Option V) where
  abbrev standing : (ℕ → List V) → (ℕ → CellState V) → List (ℕ × V) → Build V → Net V
  standing F C heard b = record b.net { firings = F; cells = C; heard = heard }

  -- The value that goes to the filter, when the sources and the cell have been handled.
  decided : V → V → Option V
  decided old a = if as_bool old then some a else none

  fired_up : V → V → V → (ℕ → List V) → ℕ → List V
  fired_up old flag a F =
      update (update (update (update F 1 (flag ∷ F 1)) 0 (a ∷ F 0)) 2 (flag ∷ F 2)) 3
        (wrap (decided old a) ∷ F 3)

  abbrev changed : V → V → (ℕ → CellState V) → ℕ → CellState V
  changed old flag C = update C 0 (record { current = old; update = some flag })

  abbrev asked : V → Option V → (ℕ → List V) → (ℕ → CellState V) → List (ℕ × V) → Net V
  asked v o F C heard = record (standing F C heard (gated as_bool wrap contents v v)) {
    posts = clear_firings 1 ∷ clear_firings 0 ∷ finalize 0 ∷ clear_firings 2 ∷ clear_firings 3 ∷ [];
    queue = send_entry (record { h = 2; n = 4 }) (wrap o) ∷ [];
  }

  drain-asked :
      (fuel : ℕ) (v old flag a : V) (F : ℕ → List V) (C : ℕ → CellState V) (heard : List (ℕ × V))
      → is_empty (F 0) ≡ true
      → is_empty (F 1) ≡ true
      → is_empty (F 2) ≡ true
      → is_empty (F 3) ≡ true
      → C 0 ≡ record { current = old; update = none }
      → drain call
          (suc (suc fuel))
          (send 0 a (send 1 flag (standing F C heard (gated as_bool wrap contents v v))))
        ≡ drain call fuel
            (asked v (decided old a) (fired_up old flag a F) (changed old flag C) heard)
  unfolding gated one_node listen_function send drain fired_up decided
  drain-asked fuel v old flag a F C heard e₀ e₁ e₂ e₃ c = rw (e₀, e₁, e₂, e₃, c) refl

  -- What a listener of the gate hears of one firing.
  passed : Option V → List (ℕ × V)
  passed none = []
  passed (some a) = (0, a) ∷ []

  lists : Option V → (ℕ → List V) → ℕ → List V
  lists none F = F
  lists (some a) F = update F 4 (a ∷ F 4)

  actions : Option V → List Post
  actions none =
      clear_firings 1 ∷ clear_firings 0 ∷ finalize 0 ∷ clear_firings 2 ∷ clear_firings 3 ∷ []
  actions (some a) =
      clear_firings 1
      ∷ clear_firings 0
      ∷ finalize 0
      ∷ clear_firings 2
      ∷ clear_firings 3
      ∷ clear_firings 4
      ∷ []

  -- What is left when the filter has had its entry.
  abbrev after_filter : V → Option V → (ℕ → List V) → (ℕ → CellState V) → List (ℕ × V) → Net V
  after_filter v o F C heard =
      let s = record (asked v none F C heard) { queue = []; in_callback = 1 } in
      let t = elim o as (λ _. Net V) [ none ↦ s | some b ↦ send 4 b s ] in
      record t { in_callback = t.in_callback - 1 }

  drain-filter :
      (law : (o : Option V) → contents (wrap o) ≡ o) (fuel : ℕ) (v : V) (o : Option V)
      (F : ℕ → List V) (C : ℕ → CellState V) (heard : List (ℕ × V))
      → drain call (suc fuel) (asked v o F C heard) ≡ drain call fuel (after_filter v o F C heard)
  unfolding gated one_node listen_function drain send
  drain-filter law fuel v o F C heard =
      ap (λ x. drain call fuel (after_filter v x F C heard)) (law o)

  drain-filtered :
      (law : (o : Option V) → contents (wrap o) ≡ o) (fuel : ℕ) (v : V) (o : Option V)
      (F : ℕ → List V) (C : ℕ → CellState V) (heard : List (ℕ × V))
      → is_empty (F 4) ≡ true
      → drain call (suc (suc (suc fuel))) (asked v o F C heard)
        ≡ some
            (record (asked v o (lists o F) C (heard ++ passed o)) { queue = []; posts = actions o })
  unfolding gated one_node listen_function send drain passed lists actions
  drain-filtered law fuel v none F C heard e =
      drain-filter law (suc (suc fuel)) v none F C heard
      ∙ ap (λ h. some (record (asked v none F C h) { queue = []; posts = actions none }))
          (sym (append-nil heard))
  drain-filtered law fuel v (some a) F C heard e =
      drain-filter law (suc (suc fuel)) v (some a) F C heard ∙ rw e refl

  cleared : Option V → (ℕ → List V) → ℕ → List V
  cleared none F = update (update (update (update F 1 []) 0 []) 2 []) 3 []
  cleared (some a) F = update (update (update (update (update F 1 []) 0 []) 2 []) 3 []) 4 []

  -- The cell has its update.
  settled : V → (ℕ → CellState V) → ℕ → CellState V
  settled flag C = update C 0 (record { current = flag; update = none })

  run_posts-actions :
      (v flag : V) (o : Option V) (F : ℕ → List V) (C : ℕ → CellState V) (heard : List (ℕ × V))
      → (C 0).update ≡ some flag
      → run_posts (actions o) (record (asked v o F C heard) { queue = []; posts = [] })
        ≡ some (standing (cleared o F) (settled flag C) heard (gated as_bool wrap contents v v))
  unfolding gated one_node listen_function run_posts actions cleared settled
  run_posts-actions v flag none F C heard e = rw e refl
  run_posts-actions v flag (some a) F C heard e = rw e refl

  passed-decided : (old a : V) → passed (decided old a) ≡ (if as_bool old then (0, a) ∷ [] else [])
  unfolding passed decided
  passed-decided old a = elim (Bool-cases (as_bool old)) [ inl e ↦ rw e refl | inr e ↦ rw e refl ]

  -- The nodes have no firings.
  record Rests (F : ℕ → List V) : Type 0 where
    source : is_empty (F 0) ≡ true
    flags : is_empty (F 1) ≡ true
    held : is_empty (F 2) ≡ true
    asks : is_empty (F 3) ≡ true
    filtered : is_empty (F 4) ≡ true

  close-gated :
      (law : (o : Option V) → contents (wrap o) ≡ o) (fuel : ℕ) (v old flag a : V) (F : ℕ → List V)
      (C : ℕ → CellState V) (heard : List (ℕ × V))
      → Rests F
      → C 0 ≡ record { current = old; update = none }
      → close call
          (suc (suc (suc (suc (suc fuel)))))
          (send 0 a (send 1 flag (standing F C heard (gated as_bool wrap contents v v))))
        ≡ some (
            standing
              (cleared (decided old a) (lists (decided old a) (fired_up old flag a F)))
              (settled flag (changed old flag C))
              (heard ++ passed (decided old a))
              (gated as_bool wrap contents v v))
  unfolding close fired_up gated cleared settled passed
  close-gated law fuel v old flag a F C heard r c =
      rw
        (drain-asked (suc (suc (suc fuel))) v old flag a F C heard r.source r.flags r.held r.asks c)
        (rw
          (drain-filtered law fuel v (decided old a) (fired_up old flag a F) (changed old flag C)
            heard r.filtered)
          (run_posts-actions v flag (decided old a) _ _ _ refl))

  Rests-cleared :
      (o : Option V) (old flag a : V) (F : ℕ → List V)
      → is_empty (F 4) ≡ true
      → Rests (cleared o (lists o (fired_up old flag a F)))
  unfolding cleared lists fired_up
  Rests-cleared none old flag a F e = record {
    source = refl;
    flags = refl;
    held = refl;
    asks = refl;
    filtered = e;
  }
  Rests-cleared (some b) old flag a F e = record {
    source = refl;
    flags = refl;
    held = refl;
    asks = refl;
    filtered = refl;
  }

  run_all-gated :
      (law : (o : Option V) → contents (wrap o) ≡ o) (fuel : ℕ) (v old : V) (rest : List (V × V))
      (F : ℕ → List V) (C : ℕ → CellState V) (heard : List (ℕ × V))
      → Rests F
      → C 0 ≡ record { current = old; update = none }
      → (s : Net V) × (run_all call
            (suc (suc (suc (suc (suc fuel)))))
            rest
            (standing F C heard (gated as_bool wrap contents v v))
          ≡ some s)
        × (s.heard ≡ heard ++ let_through as_bool old rest)
  unfolding run_all let_through gated settled
  run_all-gated law fuel v old [] F C heard r c = (_, refl, sym (append-nil heard))
  run_all-gated law fuel v old ((flag, a) ∷ rest) F C heard r c =
      let o = decided old a in
      let (s, run, hears) =
        run_all-gated law fuel v flag rest (cleared o (lists o (fired_up old flag a F)))
          (settled flag (changed old flag C)) (heard ++ passed o)
          (Rests-cleared o old flag a F r.filtered) refl in
      (
        s,
        rw (close-gated law fuel v old flag a F C heard r c) run,
        hears
            ∙ append_assoc heard (passed o) (let_through as_bool flag rest)
            ∙ ap (λ p. heard ++ (p ++ let_through as_bool flag rest)) (passed-decided old a),
      )

  -- When an optional value survives being carried by a value: a gate lets a firing through if the
  -- value that its cell had before the transaction is true, whatever the cell is updated to in that
  -- transaction; so in any sequence of transactions, in each of which the cell is updated and then
  -- the stream fires, a listener of the gate hears exactly those firings, in their order. A loop
  -- bound of 5 for each transaction is enough.
  pub gate-sees_old :
      (law : (o : Option V) → contents (wrap o) ≡ o) (fuel : ℕ) (v old : V) (rest : List (V × V))
      → (s : Net V) × (run_all call
            (suc (suc (suc (suc (suc fuel)))))
            rest
            (gated as_bool wrap contents v old).net
          ≡ some s)
        × (s.heard ≡ let_through as_bool old rest)
  unfolding gated one_node listen_function
  gate-sees_old law fuel v old rest =
      run_all-gated law fuel v old rest (λ _. []) _ []
        (record { source = refl; flags = refl; held = refl; asks = refl; filtered = refl }) refl
