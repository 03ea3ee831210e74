-- ===== src/Lift.antt =====
-- The functions `lift` of sodium/sodium.h, as methods of a cell and as functions, for two to
-- seven cells, over what they use: `map` of a cell and `apply`, of which nothing is assumed. A
-- function of several arguments takes a tuple, which `lift` turns into functions of one argument
-- each.

-- What `lift` uses of cells.
pub record Cells : Type 1 where
  pub Cell : Type 0 → Type 0
  pub map_cell : {A B : Type 0} → (A → B) → Cell A → Cell B
  pub apply : {A B : Type 0} → Cell (A → B) → Cell A → Cell B

module _ (cells : Cells) where
  open cells use {Cell, map_cell, apply}

  unfoldable pub lift2 : {A B H : Type 0} → Cell A → Cell B → (A × B → H) → Cell H
  lift2 ba bb fn = apply (map_cell (λ a. λ b. fn (a, b)) ba) bb

  unfoldable pub lift3 : {A B C H : Type 0} → Cell A → Cell B → Cell C → (A × B × C → H) → Cell H
  lift3 ba bb bc fn = apply (apply (map_cell (λ a. λ b. λ c. fn (a, b, c)) ba) bb) bc

  unfoldable pub lift4 :
      {A B C D H : Type 0} → Cell A → Cell B → Cell C → Cell D → (A × B × C × D → H) → Cell H
  lift4 ba bb bc bd fn =
      apply (apply (apply (map_cell (λ a. λ b. λ c. λ d. fn (a, b, c, d)) ba) bb) bc) bd

  unfoldable pub lift5 :
      {A B C D E H : Type 0}
      → Cell A
      → Cell B
      → Cell C
      → Cell D
      → Cell E
      → (A × B × C × D × E → H)
      → Cell H
  lift5 ba bb bc bd be fn =
      apply
        (apply (apply (apply (map_cell (λ a. λ b. λ c. λ d. λ e. fn (a, b, c, d, e)) ba) bb) bc) bd)
        be

  -- The method has one cell more, which it ignores: `this` is the first one that is lifted.
  unfoldable pub lift6 :
      {A B C D E F H : Type 0}
      → Cell A
      → Cell A
      → Cell B
      → Cell C
      → Cell D
      → Cell E
      → Cell F
      → (A × B × C × D × E × F → H)
      → Cell H
  lift6 this ba bb bc bd be bf fn =
      apply
        (apply
          (apply
            (apply (apply (map_cell (λ a. λ b. λ c. λ d. λ e. λ f. fn (a, b, c, d, e, f)) this) bb)
              bc)
            bd)
          be)
        bf

  -- The method has one cell more, which it ignores: `this` is the first one that is lifted.
  unfoldable pub lift7 :
      {A B C D E F G H : Type 0}
      → Cell A
      → Cell A
      → Cell B
      → Cell C
      → Cell D
      → Cell E
      → Cell F
      → Cell G
      → (A × B × C × D × E × F × G → H)
      → Cell H
  lift7 this ba bb bc bd be bf bg fn =
      apply
        (apply
          (apply
            (apply
              (apply
                (apply (map_cell (λ a. λ b. λ c. λ d. λ e. λ f. λ g. fn (a, b, c, d, e, f, g)) this)
                  bb)
                bc)
              bd)
            be)
          bf)
        bg

  unfoldable pub lift_function2 : {A B H : Type 0} → (A × B → H) → Cell A → Cell B → Cell H
  lift_function2 fn ba bb = apply (map_cell (λ a. λ b. fn (a, b)) ba) bb

  unfoldable pub lift_function3 :
      {A B C H : Type 0} → (A × B × C → H) → Cell A → Cell B → Cell C → Cell H
  lift_function3 fn ba bb bc = apply (apply (map_cell (λ a. λ b. λ c. fn (a, b, c)) ba) bb) bc

  unfoldable pub lift_function4 :
      {A B C D H : Type 0} → (A × B × C × D → H) → Cell A → Cell B → Cell C → Cell D → Cell H
  lift_function4 fn ba bb bc bd =
      apply (apply (apply (map_cell (λ a. λ b. λ c. λ d. fn (a, b, c, d)) ba) bb) bc) bd

  unfoldable pub lift_function5 :
      {A B C D E H : Type 0}
      → (A × B × C × D × E → H)
      → Cell A
      → Cell B
      → Cell C
      → Cell D
      → Cell E
      → Cell H
  lift_function5 fn ba bb bc bd be =
      apply
        (apply (apply (apply (map_cell (λ a. λ b. λ c. λ d. λ e. fn (a, b, c, d, e)) ba) bb) bc) bd)
        be

  unfoldable pub lift_function6 :
      {A B C D E F H : Type 0}
      → (A × B × C × D × E × F → H)
      → Cell A
      → Cell B
      → Cell C
      → Cell D
      → Cell E
      → Cell F
      → Cell H
  lift_function6 fn ba bb bc bd be bf =
      apply
        (apply
          (apply
            (apply (apply (map_cell (λ a. λ b. λ c. λ d. λ e. λ f. fn (a, b, c, d, e, f)) ba) bb)
              bc)
            bd)
          be)
        bf

  unfoldable pub lift_function7 :
      {A B C D E F G H : Type 0}
      → (A × B × C × D × E × F × G → H)
      → Cell A
      → Cell B
      → Cell C
      → Cell D
      → Cell E
      → Cell F
      → Cell G
      → Cell H
  lift_function7 fn ba bb bc bd be bf bg =
      apply
        (apply
          (apply
            (apply
              (apply
                (apply (map_cell (λ a. λ b. λ c. λ d. λ e. λ f. λ g. fn (a, b, c, d, e, f, g)) ba)
                  bb)
                bc)
              bd)
            be)
          bf)
        bg
