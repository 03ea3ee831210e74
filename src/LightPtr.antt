-- ===== src/LightPtr.antt =====
-- sodium/light_ptr.h and light_ptr.cpp: the untyped reference-counting pointer. The spin lock makes
-- each update of a count one step. A value and its count block are allocated together, and both
-- are named by the number of the allocation.
pub mod Counting
pub mod Calls
pub mod Examples
use caesium_cxx.Base.{
  ℕ, zero, suc, ◌+◌, ◌-◌, ◌≡◌, Bool, true, false, Option, none, some, List, [], ◌∷◌, ◌++◌, ◌==◌,
  if◌then◌else◌, get_elem?, set, update,
}

-- `count` is a null pointer or the number of a block.
pub record LightPtr : Type 0 where
  pub value : ℕ
  pub count : Option ℕ

abbrev pub null_ptr : LightPtr
null_ptr = record { value = 0; count = none }

-- `blocks b` is the `c` of block `b`, or `none` where it is not allocated. `deleted` lists the
-- values whose deleter has run, oldest first.
pub record Store : Type 0 where
  pub blocks : ℕ → Option ℕ
  pub next : ℕ
  pub deleted : List ℕ

infixl 5 ◌>>=◌
abbrev ◌>>=◌ {ℓ κ} : {A : Type ℓ} {B : Type κ} → Option A → (A → Option B) → Option B
none >>= f = none
some a >>= f = f a

-- Following a null pointer, or one to a freed block, is a fault, `none`.
load : Option ℕ → Store → Option (ℕ × ℕ)
load none s = none
load (some b) s = s.blocks b >>= λ c. some (b, c)

-- `light_ptr::create`
pub create : Store → LightPtr × Store
create s = (
  record { value = s.next; count = some s.next },
  record s { blocks = update s.blocks s.next (some 1); next = s.next + 1 },
)

-- `count->c++`
pub retain : Option ℕ → Store → Option Store
unfolding load
retain p s = load p s >>= λ (b, c). some (record s { blocks = update s.blocks b (some (c + 1)) })

-- `if (--count->c == 0) { count->del(value); delete count; }`
pub put_back : LightPtr → Store → Option Store
unfolding load
put_back p s = load p.count s >>= λ (b, c).
    if c == 1
    then some (record s { blocks = update s.blocks b none; deleted = s.deleted ++ p.value ∷ [] })
    else some (record s { blocks = update s.blocks b (some (c - 1)) })

-- The copy constructor.
pub copy : LightPtr → Store → Option (LightPtr × Store)
unfolding retain
copy other s = elim other.count [
  | none ↦ some (other, s)
  | some b ↦ retain other.count s >>= λ t. some (other, t)
]

-- The destructor.
pub destroy : LightPtr → Store → Option Store
unfolding put_back
destroy p s = elim p.count [ none ↦ some s | some b ↦ put_back p s ]

same_count : Option ℕ → Option ℕ → Bool
same_count none none = true
same_count (some a) (some b) = a == b
same_count _ _ = false

-- `operator =`, with the new value of the left side. It looks at no null.
pub assign : LightPtr → LightPtr → Store → Option (LightPtr × Store)
unfolding same_count put_back retain
assign this other s =
    if same_count this.count other.count
    then some (this, s)
    else put_back this s >>= λ t. retain other.count t >>= λ u. some (other, u)

-- What a program does with its pointer variables, which are numbered. A variable that has been
-- destroyed, or moved from, reads as null.
pub data Call : Type 0 where
  creates : Call
  copies destroys moves : ℕ → Call
  assigns : ℕ → ℕ → Call

pub record Program : Type 0 where
  pub vars : List LightPtr
  pub store : Store

pub call : Call → Program → Option Program
unfolding create copy destroy assign
call creates p =
    let (new, s) = create p.store in some (record { vars = p.vars ++ new ∷ []; store = s })
call (copies i) p = get_elem? p.vars i >>= λ x.
    copy x p.store >>= λ (new, s). some (record { vars = p.vars ++ new ∷ []; store = s })
call (destroys i) p = get_elem? p.vars i >>= λ x.
    destroy x p.store >>= λ s. some (record { vars = set p.vars i null_ptr; store = s })
call (moves i) p =
    get_elem? p.vars i >>= λ x. some (record p { vars = set p.vars i null_ptr ++ x ∷ [] })
call (assigns i j) p = get_elem? p.vars i >>= λ x. get_elem? p.vars j >>= λ y.
    assign x y p.store >>= λ (new, s). some (record { vars = set p.vars i new; store = s })

pub run : List Call → Program → Option Program
unfolding call
run [] p = some p
run (c ∷ cs) p = call c p >>= λ q. run cs q
