-- ===== src/Heap/Chain.antt =====
-- Doubly linked chains of nodes: what a queue's nodes look like in the heap.
use getmatvar.Common.{
  ◌≡◌, ◌≢◌, refl, Bool, true, false, ◌||◌, none, some, List, [], ◌∷◌, ◌++◌, arith, ◌==◌, length,
}
use getmatvar.Heap.{Ptr, null, node, Cell}

-- address and data pointer of each node, in order
abbrev pub Cells : Type 0
Cells = List (Ptr × Ptr)

abbrev pub first : Cells → Ptr → Ptr
first [] nx = nx
first ((p, d) ∷ xs) nx = p

abbrev pub last : Ptr → Cells → Ptr
last pv [] = pv
last pv ((p, d) ∷ xs) = last p xs

abbrev pub has : Ptr → Cells → Bool
has a [] = false
has a ((p, d) ∷ xs) = (a == p) || has a xs

abbrev pub Distinct : Cells → Type 0
Distinct [] = Unit
Distinct ((p, d) ∷ xs) = (has p xs ≡ false) × Distinct xs

-- From `first xs nx` the `next` pointers lead through `xs` to `nx`; the `prev` pointers lead back,
-- that of the first node to `pv`.
abbrev pub Chain : Cell → Ptr → Cells → Ptr → Type 0
Chain h pv [] nx = Unit
Chain h pv ((p, d) ∷ xs) nx = (p ≢ null) × (h p ≡ some (node pv (first xs nx) d)) × Chain h p xs nx

pub first-append : (xs ys : Cells) (nx : Ptr) → first (xs ++ ys) nx ≡ first xs (first ys nx)
first-append [] ys nx = refl
first-append (x ∷ xs) ys nx = refl

pub last-append : (pv : Ptr) (xs ys : Cells) → last pv (xs ++ ys) ≡ last (last pv xs) ys
last-append pv [] ys = refl
last-append pv ((p, d) ∷ xs) ys = last-append p xs ys

pub has-append : (a : Ptr) (xs ys : Cells) → has a (xs ++ ys) ≡ (has a xs || has a ys)
has-append a [] ys = refl
has-append a ((p, d) ∷ xs) ys = ground (arith, has-append a xs ys)

pub not-has-append :
    (a : Ptr) (xs ys : Cells) → has a (xs ++ ys) ≡ false → (has a xs ≡ false) × (has a ys ≡ false)
not-has-append a [] ys h = (refl, h)
not-has-append a ((p, d) ∷ xs) ys h = ground (arith, not-has-append a xs ys)

pub ne_of_not-has : (a p d : Ptr) (xs : Cells) → has a ((p, d) ∷ xs) ≡ false → a ≢ p
ne_of_not-has a p d xs h = ground arith

pub Chain-append :
    (h : Cell) (pv : Ptr) (xs ys : Cells) (nx : Ptr)
    → Chain h pv xs (first ys nx)
    → Chain h (last pv xs) ys nx
    → Chain h pv (xs ++ ys) nx
Chain-append h pv [] ys nx a b = b
Chain-append h pv ((p, d) ∷ xs) ys nx (ne, e, a) b =
    (ne, ground (arith, first-append xs ys nx), Chain-append h p xs ys nx a b)

pub Chain-left :
    (h : Cell) (pv : Ptr) (xs ys : Cells) (nx : Ptr)
    → Chain h pv (xs ++ ys) nx
    → Chain h pv xs (first ys nx)
Chain-left h pv [] ys nx c = tt
Chain-left h pv ((p, d) ∷ xs) ys nx (ne, e, c) =
    (ne, ground (arith, first-append xs ys nx), Chain-left h p xs ys nx c)

pub Chain-right :
    (h : Cell) (pv : Ptr) (xs ys : Cells) (nx : Ptr)
    → Chain h pv (xs ++ ys) nx
    → Chain h (last pv xs) ys nx
Chain-right h pv [] ys nx c = c
Chain-right h pv ((p, d) ∷ xs) ys nx (ne, e, c) = Chain-right h p xs ys nx c

-- A chain survives any change that spares its own addresses.
pub Chain-frame :
    (h g : Cell) (pv : Ptr) (xs : Cells) (nx : Ptr)
    → ((a : Ptr) → has a xs ≡ true → g a ≡ h a)
    → Chain h pv xs nx
    → Chain g pv xs nx
Chain-frame h g pv [] nx same c = tt
Chain-frame h g pv ((p, d) ∷ xs) nx same (ne, e, c) =
    (ne, ground (arith, same p), Chain-frame h g p xs nx (λ a i. ground (arith, same a)) c)

-- An address where nothing is allocated is on no chain.
pub not-has_of_none :
    (h : Cell) (a pv : Ptr) (xs : Cells) (nx : Ptr)
    → Chain h pv xs nx
    → h a ≡ none
    → has a xs ≡ false
not-has_of_none h a pv [] nx c e = refl
not-has_of_none h a pv ((p, d) ∷ xs) nx (ne, e', c) e =
    ground (arith, not-has_of_none h a p xs nx c e)

pub Distinct-append :
    (xs ys : Cells)
    → Distinct xs
    → Distinct ys
    → ((a : Ptr) → has a xs ≡ true → has a ys ≡ false)
    → Distinct (xs ++ ys)
Distinct-append [] ys dx dy apart = dy
Distinct-append ((p, d) ∷ xs) ys (out, dx) dy apart = (
  ground (arith, has-append p xs ys, apart p),
  Distinct-append xs ys dx dy (λ a i. ground (arith, apart a)),
)

pub Distinct-left : (xs ys : Cells) → Distinct (xs ++ ys) → Distinct xs
Distinct-left [] ys dd = tt
Distinct-left ((p, d) ∷ xs) ys (out, dd) =
    (ground (arith, has-append p xs ys), Distinct-left xs ys dd)

pub Distinct-right : (xs ys : Cells) → Distinct (xs ++ ys) → Distinct ys
Distinct-right [] ys dd = dd
Distinct-right ((p, d) ∷ xs) ys (out, dd) = Distinct-right xs ys dd

pub Distinct-apart :
    (xs ys : Cells) (a : Ptr) → Distinct (xs ++ ys) → has a xs ≡ true → has a ys ≡ false
Distinct-apart [] ys a dd i = cc
Distinct-apart ((p, d) ∷ xs) ys a (out, dd) i =
    ground (arith, has-append p xs ys, Distinct-apart xs ys a dd)

pub Distinct-snoc :
    (xs : Cells) (p d : Ptr) → Distinct xs → has p xs ≡ false → Distinct (xs ++ ((p, d) ∷ []))
Distinct-snoc [] p d dd out = (refl, tt)
Distinct-snoc ((q, c) ∷ xs) p d (o, dd) out =
    (ground (arith, has-append q xs ((p, d) ∷ [])), Distinct-snoc xs p d dd (ground arith))

pub first_of_ne : (xs : Cells) (a b : Ptr) → length xs ≢ 0 → first xs a ≡ first xs b
first_of_ne [] a b h = absurd (h refl)
first_of_ne (x ∷ xs) a b h = refl

pub Distinct-apart_left :
    (xs ys : Cells) (a : Ptr) → Distinct (xs ++ ys) → has a ys ≡ true → has a xs ≡ false
Distinct-apart_left [] ys a dd i = refl
Distinct-apart_left ((p, d) ∷ xs) ys a (out, dd) i =
    ground (arith, has-append p xs ys, Distinct-apart_left xs ys a dd)

pub Distinct-insert :
    (xs ys : Cells) (p d : Ptr)
    → Distinct (xs ++ ys)
    → (has p xs ≡ false) × (has p ys ≡ false)
    → Distinct (xs ++ ((p, d) ∷ ys))
Distinct-insert [] ys p d dd out = (out.1, dd)
Distinct-insert ((q, c) ∷ xs) ys p d (o, dd) out = (
  ground (arith, has-append q xs ((p, d) ∷ ys), has-append q xs ys),
  Distinct-insert xs ys p d dd (ground arith),
)

pub has-first : (xs : Cells) (nx : Ptr) → length xs ≢ 0 → has (first xs nx) xs ≡ true
has-first [] nx h = absurd (h refl)
has-first ((p, d) ∷ xs) nx h = ground arith

-- A chain that is not empty has a last node.
pub record Snoc (xs : Cells) : Type 0 where
  pub front : Cells
  pub ptr : Ptr
  pub dat : Ptr
  pub splits : xs ≡ front ++ ((ptr, dat) ∷ [])

pub snoc : (x : Ptr × Ptr) (xs : Cells) → Snoc (x ∷ xs)
snoc (p, d) [] = record { front = []; ptr = p; dat = d; splits = refl }
snoc x (y ∷ xs) = record {
  front = x ∷ (snoc y xs).front;
  ptr = (snoc y xs).ptr;
  dat = (snoc y xs).dat;
  splits = cc ((snoc y xs).splits);
}

pub Snoc-of_ne : (xs : Cells) → length xs ≢ 0 → Snoc xs
Snoc-of_ne [] h = absurd (h refl)
Snoc-of_ne (x ∷ xs) h = snoc x xs
