-- ===== src/Heap.antt =====
-- The C heap that the queues of ezq.c and mtezq.c live in: queue nodes at addresses, and the
-- commands that read, link and free them. A command on an address that holds no node (NULL, or a
-- node already freed) faults.
pub mod Chain
use getmatvar.Common.{
  ℕ, ◌≡◌, Bool, true, false, Option, none, some, List, [], ◌∷◌, ◌==◌, if◌then◌else◌,
}

abbrev pub Ptr : Type 0
Ptr = ℕ

abbrev pub null : Ptr
null = 0

-- `struct QueueNode_`; the `data` pointer is only moved, so it is any number, NULL being 0.
pub record QueueNode : Type 0 where
  pub prev : Ptr
  pub next : Ptr
  pub data_ptr : Ptr

abbrev pub node : Ptr → Ptr → Ptr → QueueNode
node p n d = record { prev = p; next = n; data_ptr = d }

abbrev pub Cell : Type 0
Cell = Ptr → Option QueueNode

-- `released` lists the data handed to a queue's `free_function`, the last one first.
pub record Mem : Type 0 where
  pub cell : Cell
  pub released : List Ptr

unfoldable pub write : Cell → Ptr → Option QueueNode → Cell
write h p c a = if a == p then c else h a

-- `none` is a fault: undefined behaviour in C.
abbrev pub M : Type 0 → Type 0
M A = Mem → Option (A × Mem)

abbrev pub pure : {A : Type 0} → A → M A
pure a m = some (a, m)

abbrev pub fault : {A : Type 0} → M A
fault m = none

module _ {A B : Type 0} where
  abbrev pub and_then : Option (A × Mem) → (A → M B) → Option (B × Mem)
  and_then none k = none
  and_then (some (a, m)) k = k a m

  infixl 5 ◌>>=◌ ◌>>◌
  abbrev pub ◌>>=◌ : M A → (A → M B) → M B
  m >>= k = λ h. and_then (m h) k

  abbrev pub ◌>>◌ : M A → M B → M B
  m >> n = m >>= λ _. n

-- `*p`
unfoldable pub load : Ptr → M QueueNode
load p m = if p == null then none else elim (m.cell p) [ none ↦ none | some n ↦ some (n, m) ]

-- a node filled in at an address that `malloc` returned, or written back
unfoldable pub put : Ptr → QueueNode → M (Unit {0})
put p n m = some (tt, record m { cell = write m.cell p (some n) })

-- `p->next = q`
unfoldable pub set_next : Ptr → Ptr → M (Unit {0})
unfolding load put
set_next p q = do n ← load p; put p (record n { next = q })

-- `p->prev = q`
unfoldable pub set_prev : Ptr → Ptr → M (Unit {0})
unfolding load put
set_prev p q = do n ← load p; put p (record n { prev = q })

-- `free(p)` of a node
unfoldable pub free : Ptr → M (Unit {0})
unfolding load
free p = load p >> λ m. some (tt, record m { cell = write m.cell p none })

-- a call of the queue's `free_function`; calling a NULL function pointer faults
unfoldable pub call_free : Bool → Ptr → M (Unit {0})
call_free true d m = some (tt, record m { released = d ∷ m.released })
call_free false d m = none
