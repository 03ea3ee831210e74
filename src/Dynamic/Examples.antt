-- ===== src/Dynamic/Examples.antt =====
-- Small machines.
use caesium_cxx.Base.{
  ℕ, ◌+◌, ◌≡◌, refl, none, some, [], ◌∷◌, ◌++◌, ◌==◌, if◌then◌else◌, arith, update,
}
use caesium_cxx.Network.{
  clear_firings, finalize, run_posts, Link, Net, send, send_entry, process, Post, post,
}
use caesium_cxx.Wiring.{Cell, Build}
use caesium_cxx.Wiring.Late.{one_node}
use caesium_cxx.Dynamic.Links.{kill_of, with_link, without}
use caesium_cxx.Dynamic.Posted.{handle_all-relinks}
use caesium_cxx.Dynamic.Stale.{plain_value, switching, switching-stale}
use caesium_cxx.Dynamic.Looping.{
  CellLoop, cell_loop, loop_cell, sample_loop, loop_cleanup, loop_cell-loops,
}
use caesium_cxx.Dynamic.{Reads, switch_s_handler, Machine, posted, handle_all, run_later}
use caesium_cxx.Dynamic.Splitting.{last_item, fire, split-sees_old}

-- Values are numbers; 0 carries the list of 5 and 6.
abbrev reads : Reads ℕ
reads = record {
  as_stream = λ v. some v;
  as_cell = λ v. record { state = v; updates = none };
  as_list = λ v. 5 ∷ 6 ∷ [];
  unit = 0;
}

split-sees_old_example :
    (m : Machine ℕ) × (fire reads (λ g x. x) (λ x y. x + y) 100 8 0 ≡ some m)
    × (m.build.net.heard ≡ (0, 105) ∷ (0, 106) ∷ [])
    × ((m.build.net.cells 0).current ≡ 6)
    × (m.later ≡ [])
unfolding last_item
split-sees_old_example = split-sees_old reads (λ g x. x) (λ x y. x + y) 100 0 0 5 (6 ∷ []) refl

-- Node 2 has fired in this transaction, and sends to node 5 through a `switch_s`; node 5 is linked
-- to node 0 by holder 0, which slot 0 unlinks; node 1 has another listener.
abbrev on_zero : Machine ℕ
unfolding one_node
on_zero = record {
  build = record (one_node 100) {
    net = record (one_node 100).net {
      targets = λ n.
          if n == 0
          then record { h = 0; n = 5 } ∷ []
          else (if n == 1 then record { h = 7; n = 9 } ∷ [] else []);
      firings = λ n. if n == 2 then 4 ∷ [] else [];
      cells = λ c. record { current = 1; update = if c == 0 then some 4 else none };
      kills = λ k. some (0, 0);
    };
    next_holder = 8;
  };
  kinds = λ h. switch_s_handler 0;
  work = [];
  later = posted (clear_firings 2) ∷ posted (finalize 0) ∷ [];
}

abbrev settled_zero : Net ℕ
settled_zero = record on_zero.build.net {
  firings = update on_zero.build.net.firings 2 [];
  cells = update on_zero.build.net.cells 0 (record { current = 4; update = none });
}

handle_all-relinks_example :
    (m : Machine ℕ) × (run_later reads (λ g x. x) 9 (handle_all reads 3 5 (2 ∷ 1 ∷ []) on_zero)
      ≡ some m)
    × (m.build.net.targets
        ≡ with_link (some 1) 9 5 (without (some (0, 0)) on_zero.build.net.targets))
    × (m.build.net.kills 0 ≡ some (1, 9))
    × (m.build.net.cells ≡ settled_zero.cells)
    × (m.build.net.firings ≡ settled_zero.firings)
    × (m.work ≡ [])
    × (m.later ≡ [])
unfolding last_item kill_of one_node run_posts
handle_all-relinks_example =
    handle_all-relinks reads (λ g x. x) 0 5 (clear_firings 2 ∷ finalize 0 ∷ []) 9 3 2 (1 ∷ [])
      on_zero settled_zero refl refl refl refl refl (omega arith) (omega arith)

loop_cell-loops_example :
    let l = (cell_loop {V = ℕ} (one_node 100)).0 in
    let cell : Cell = record { state = 3; updates = some 0 } in
    let link : Link = record { h = 0; n = 1 } in
    (sample_loop (λ c. some (c.state + 40)) l ≡ none)
    × (l' : CellLoop) × (b' : Build ℕ) × (loop_cell cell l (one_node 100) ≡ some (l', b'))
    × (sample_loop (λ c. some (c.state + 40)) l' ≡ some 43)
    × (b'.net.targets 0 ≡ link ∷ [])
    × ((a : ℕ) → process (λ g x. x) (send_entry link a) b'.net ≡ some (send 1 a b'.net))
    × (b'.net.queue ≡ [])
    × ((p : Post) × (t : Net ℕ) × (loop_cleanup l'.elp b'.net
          ≡ record b'.net { posts = b'.net.posts ++ p ∷ [] })
        × (post p b'.net ≡ some t)
        × ((m : ℕ) → t.targets m ≡ []))
    × ((c' : Cell) (b₂ : Build ℕ) → loop_cell c' l' b₂ ≡ none)
unfolding one_node
loop_cell-loops_example =
    loop_cell-loops (one_node 100) (one_node 100) 3 0 (λ c. some (c.state + 40)) (λ g x. x) refl

switching-stale_example :
    (switching {A = ℕ} (λ g x. x) 0 1 2 3
      ≡ some (
        (0, plain_value 1) ∷ (0, plain_value 3) ∷ (0, plain_value 2) ∷ [],
        plain_value 2,
        plain_value 2,
      ))
    × (switching {A = ℕ} (λ g x. x) 8 1 2 3
        ≡ some (
          (0, plain_value 1) ∷ (0, plain_value 2) ∷ (0, plain_value 3) ∷ [],
          plain_value 3,
          plain_value 2,
        ))
switching-stale_example = switching-stale (λ g x. x) 1 2 3
