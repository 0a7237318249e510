-- ===== src/Ezq/Inv.antt =====
-- The representation invariant of a queue of ezq.c, and how the run of a command is described.
use getmatvar.Common.{ℕ, ◌≡◌, refl, ◌⊎◌, inl, Option, none, some, [], ◌++◌, length, false}
use getmatvar.Heap.{Ptr, null, Mem, and_then, pure}
use getmatvar.Heap.Chain.{Cells, first, last, has, Distinct, Chain, not-has_of_none}
use getmatvar.Ezq.{Ends, no_ends}

-- The run does not fault, and its result and final memory meet `P`.
abbrev pub Ensures : {A : Type 0} → (A → Mem → Type 0) → Option (A × Mem) → Type 0
Ensures P none = ⊥
Ensures P (some (a, m)) = P a m

pub Ensures-mono :
    {A : Type 0} (P Q : A → Mem → Type 0) (r : _)
    → Ensures P r
    → ((a : A) (g : Mem) → P a g → Q a g)
    → Ensures Q r
Ensures-mono P Q none p f = p
Ensures-mono P Q (some (a, g)) p f = f a g p

pub Ensures-bind :
    {A B : Type 0} (P : A → Mem → Type 0) (Q : B → Mem → Type 0) (r : Option (A × Mem))
    (k : A → Mem → Option (B × Mem))
    → Ensures P r
    → ((a : A) (g : Mem) → P a g → Ensures Q (k a g))
    → Ensures Q (and_then r k)
Ensures-bind P Q none k p next = p
Ensures-bind P Q (some (a, g)) k p next = next a g p

pub Ensures-with_code :
    (P : Ends → Mem → Type 0) (r : Option (Ends × Mem))
    → Ensures P r
    → Ensures {A = ℕ × Ends} (λ (code, e) g. (code ≡ 0) × P e g) (and_then r (λ e. pure (0, e)))
Ensures-with_code P none p = p
Ensures-with_code P (some (e, g)) p = (refl, p)

-- `old` are the nodes handed out, `act` those still queued. `front` is the first node of `act`; when
-- there is none it is NULL, or the last node (after a reset). `before` is what the `prev` pointer of
-- the first node holds.
pub record IsQueue (m : Mem) (e : Ends) (before : Ptr) (old act : Cells) : Type 0 where
  pub chain : Chain m.cell before (old ++ act) null
  pub distinct : Distinct (old ++ act)
  pub abs_front : e.abs_front ≡ first (old ++ act) null
  pub back : e.back ≡ last null (old ++ act)
  pub front : (e.front ≡ first act null) ⊎ ((act ≡ []) × (e.front ≡ e.back))
  pub count : e.length ≡ length act
  pub abs_count : e.abs_length ≡ length (old ++ act)
  pub empty : length (old ++ act) ≡ 0 → before ≡ null

-- `g` is `m` but at the nodes of `xs`.
abbrev pub SameOutside : Cells → Mem → Mem → Type 0
SameOutside xs m g = (a : Ptr) → has a xs ≡ false → g.cell a ≡ m.cell a

pub no_ends-IsQueue : (m : Mem) → IsQueue m no_ends null [] []
no_ends-IsQueue m = record {
  chain = tt;
  distinct = tt;
  abs_front = refl;
  back = refl;
  front = inl refl;
  count = refl;
  abs_count = refl;
  empty = λ _. refl;
}

pub fresh-has :
    {m : Mem} {e : Ends} {before : Ptr} {old act : Cells} (fresh : Ptr)
    → IsQueue m e before old act
    → m.cell fresh ≡ none
    → has fresh (old ++ act) ≡ false
fresh-has {m} {before} {old} {act} fresh is unused =
    not-has_of_none m.cell fresh before (old ++ act) null is.chain unused
