-- ===== src/Prioritized.antt =====
-- `transaction_impl` and `transaction` of experimental/sodium/transaction.h and transaction.cpp:
-- the queue of entries in the order of their ranks, the two lists of actions that run after it,
-- and `close`. `W` is what actions read and write, `A` names them, and `run` is what they do.
pub mod Order
pub mod Closing
pub mod Regen
pub mod Nodes
pub mod Linking
pub mod Current
pub mod Opening
pub mod Examples
use caesium_cxx.Base.{
  ℕ, zero, suc, ◌+◌, ◌%◌, ◌^◌, Bool, true, false, Option, none, some, List, [], ◌∷◌, ◌++◌, ltb,
  ◌==◌, if◌then◌else◌, get_elem?,
}

-- `seq_t` has 64 bits.
abbrev pub seq_mod : ℕ
seq_mod = 2 ^ 64

module _ (A : Type 0) where
  -- `transaction_impl::entry`
  pub record Entry : Type 0 where
    pub rank : ℕ
    pub node : ℕ
    pub action : A
    pub seq : ℕ

  -- What an action asks of its transaction: `prioritized`, `last`, `post`, or `to_regen = true`.
  pub data Request : Type 0 where
    ask : ℕ → A → Request
    ask_last : A → Request
    ask_post : A → Request
    ask_regen : Request

-- `transaction_impl`, with the static `next_seq`. `taken` lists the entries that were taken from
-- the queue, `finished` the actions of the two lists that were called, the last one first.
pub record Transaction (W A : Type 0) : Type 0 where
  pub active : Bool
  pub to_regen : Bool
  pub prioritized_q : List (Entry A)
  pub last_q : List A
  pub post_q : List A
  pub next_seq : ℕ
  pub world : W
  pub taken : List (Entry A)
  pub finished : List A

-- `entry::operator <`
unfoldable pub before : {A : Type 0} → Entry A → Entry A → Bool
before x y = if x.rank == y.rank then ltb x.seq y.seq else ltb x.rank y.rank

-- `std::set::insert`; an entry that is neither before nor after another is not put in beside it.
unfoldable pub insert_entry : {A : Type 0} → Entry A → List (Entry A) → List (Entry A)
unfolding before
insert_entry e [] = e ∷ []
insert_entry e (x ∷ xs) =
    let rest = insert_entry e xs in
    if before e x then e ∷ x ∷ xs else if before x e then x ∷ rest else x ∷ xs

module _ {W A : Type 0} (rank : W → ℕ → ℕ) where
  -- The constructors of `entry`: the rank is read from the node.
  unfoldable pub entry : W → ℕ → A → ℕ → Entry A
  entry w node a seq = record { rank = rank w node; node = node; action = a; seq = seq }

  unfoldable pub prioritized : ℕ → A → Transaction W A → Transaction W A
  unfolding entry insert_entry
  prioritized node a t =
      let seq = (t.next_seq + 1) % seq_mod in
      record t {
        next_seq = seq;
        prioritized_q = insert_entry (entry t.world node a seq) t.prioritized_q;
      }

  unfoldable pub post : A → Transaction W A → Transaction W A
  post a t = record t { post_q = t.post_q ++ (a ∷ []) }

  unfoldable pub last : A → Transaction W A → Transaction W A
  last a t = record t { last_q = t.last_q ++ (a ∷ []) }

  unfoldable pub request : List (Request A) → Transaction W A → Transaction W A
  unfolding prioritized post last
  request [] t = t
  request (ask node a ∷ rs) t = request rs (prioritized node a t)
  request (ask_last a ∷ rs) t = request rs (last a t)
  request (ask_post a ∷ rs) t = request rs (post a t)
  request (ask_regen ∷ rs) t = request rs (record t { to_regen = true })

  -- The loop of `check_regen`, which fills `neu`.
  unfoldable pub refill : W → List (Entry A) → List (Entry A) → List (Entry A)
  unfolding entry insert_entry
  refill w [] neu = neu
  refill w (e ∷ es) neu = refill w es (insert_entry (entry w e.node e.action e.seq) neu)

  unfoldable pub check_regen : Transaction W A → Transaction W A
  unfolding refill
  check_regen t =
      if t.to_regen
      then (record t { to_regen = false; prioritized_q = refill t.world t.prioritized_q [] })
      else t

  module _ (run : A → W → W × List (Request A)) where
    unfoldable pub perform : A → Transaction W A → Transaction W A
    unfolding request
    perform a t = let (w, rs) = run a t.world in request rs (record t { world = w })

    -- The loop of `close` over the queue.
    unfoldable pub run_entries : ℕ → Transaction W A → Option (Transaction W A)
    unfolding check_regen perform
    run_entries zero t = none
    run_entries (suc fuel) t =
        let t' = check_regen t in
        elim t'.prioritized_q [
          | [] ↦ some t'
          | e ∷ es ↦
              run_entries fuel
                (perform e.action (record t' { prioritized_q = es; taken = e ∷ t'.taken }))
        ]

    -- The loop over `last_q`, from its element `i`; the list may grow at its end meanwhile.
    unfoldable pub run_last : ℕ → ℕ → Transaction W A → Option (Transaction W A)
    unfolding perform
    run_last zero i t = none
    run_last (suc fuel) i t = elim (get_elem? t.last_q i) [
      | none ↦ some (record t { last_q = [] })
      | some a ↦ run_last fuel (i + 1) (perform a (record t { finished = a ∷ t.finished }))
    ]

    unfoldable pub run_post : ℕ → ℕ → Transaction W A → Option (Transaction W A)
    unfolding perform
    run_post zero i t = none
    run_post (suc fuel) i t = elim (get_elem? t.post_q i) [
      | none ↦ some (record t { post_q = [] })
      | some a ↦ run_post fuel (i + 1) (perform a (record t { finished = a ∷ t.finished }))
    ]

    -- `transaction_impl::close`
    unfoldable pub close : ℕ → Transaction W A → Option (Transaction W A)
    unfolding run_entries run_last run_post
    close fuel t = elim t.active [
      | false ↦ some t
      | true ↦ elim (run_entries fuel t) [
        | none ↦ none
        | some ranked ↦ elim (run_last fuel 0 ranked) [
          | none ↦ none
          | some lasted ↦ elim (run_post fuel 0 lasted) [
            | none ↦ none
            | some posted ↦ some (record posted { active = false })
          ]
        ]
      ]
    ]
