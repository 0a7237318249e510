-- ===== src/Ezq/Walk/Search.antt =====
-- src/utils.c: the searches through a queue of objects.
use getmatvar.Common.{
  ℕ, zero, suc, ◌<◌, ◌≡◌, ◌≢◌, ◌↔◌, refl, Bool, true, false, ◌&&◌, Option, none, some, List, [],
  ◌∷◌, arith, length, ◌==◌, ltb, if◌then◌else◌, Bool-cases, inl, inr,
}
use getmatvar.Heap.{Ptr, null, Mem, M, pure, fault, ◌>>=◌, node, load}
use getmatvar.Heap.Chain.{Cells, Chain, Chain-right, first, last}
use getmatvar.Ezq.{Queue, decrease}
use getmatvar.Ezq.Inv.{IsQueue}
use getmatvar.Ezq.Refine.{values}
use getmatvar.Ezq.Walk.{init_traversal, traverse_queue}

-- `while(sub_objects->traverse_length > 0) { obj = traverseQueue(sub_objects); if(...) return obj; }`
-- with the test on the object as a parameter, since the objects lie outside the queue. The test reads
-- the object, so NULL is a fault. The queue comes back as the traversal leaves it.
search_loop : (Ptr → Bool) → ℕ → Option Queue → M (Ptr × Option Queue)
search_loop test zero queue = fault
search_loop test (suc fuel) none = fault
search_loop test (suc fuel) (some q) =
    if ltb 0 q.traverse_length
    then (do
      (obj, q') ← traverse_queue (some q)
      if obj == null then fault else if test obj then pure (obj, q') else search_loop test fuel q')
    else pure (null, some q)

-- Each round lowers `traverse_length`, so that many rounds and one for the last test are enough.
search : (Ptr → Bool) → Queue → M (Ptr × Option Queue)
search test q = search_loop test (suc q.ends.length) (init_traversal (some q)).1

unfoldable pub same_text : List ℕ → List ℕ → Bool
same_text [] [] = true
same_text [] (d ∷ ds) = false
same_text (c ∷ cs) [] = false
same_text (c ∷ cs) (d ∷ ds) = (c == d) && same_text cs ds

-- What the searches read of a `Data` object.
pub record Objects : Type 0 where
  pub short_name : Ptr → List ℕ
  pub s_c_array_index : Ptr → ℕ
  pub this_obj_address : Ptr → ℕ

pub find_sub_object_by_short_name : Objects → Queue → List ℕ → M (Ptr × Option Queue)
find_sub_object_by_short_name o q name = search (λ obj. same_text (o.short_name obj) name) q

pub find_sub_object_by_sc_index : Objects → Queue → ℕ → M (Ptr × Option Queue)
find_sub_object_by_sc_index o q index = search (λ obj. o.s_c_array_index obj == index) q

pub find_object_by_header_address : Objects → Queue → ℕ → M (Ptr × Option Queue)
find_object_by_header_address o q address = search (λ obj. o.this_obj_address obj == address) q

-- The first datum that passes the test, NULL if none does.
abbrev pub first_with : (Ptr → Bool) → List Ptr → Ptr
first_with test [] = null
first_with test (d ∷ ds) = if test d then d else first_with test ds

-- The cells behind that datum.
abbrev pub behind : (Ptr → Bool) → Cells → Cells
behind test [] = []
behind test ((p, d) ∷ xs) = if test d then xs else behind test xs

-- A queue whose traversal has come to the cells `xs`.
abbrev pub at_cells : Queue → Cells → Queue
at_cells q xs = record q { traverse_front = first xs null; traverse_length = length xs }

-- The queue after a search of the cells still queued: in an empty queue the traversal only begins.
abbrev pub searched : (Ptr → Bool) → Queue → Cells → Queue
searched test q [] = record q { traverse_front = q.ends.front; traverse_length = 0 }
searched test q (x ∷ xs) = at_cells q (behind test (x ∷ xs))

-- No datum is NULL.
abbrev pub NoNull : Cells → Type 0
NoNull [] = Unit
NoNull ((p, d) ∷ xs) = (d ≢ null) × NoNull xs

traverse-cons :
    (m : Mem) (q : Queue) (p pv nx d : Ptr)
    → p ≢ null
    → q.traverse_front ≡ p
    → m.cell p ≡ some (node pv nx d)
    → traverse_queue (some q) m
      ≡ some (
        (d, some (record q { traverse_front = nx; traverse_length = decrease q.traverse_length })),
        m,
      )
unfolding traverse_queue load
traverse-cons m q p pv nx d ne at n = ground arith

search_loop-first_with :
    (test : Ptr → Bool) (m : Mem) (fuel : ℕ) (q : Queue) (pv : Ptr) (xs : Cells)
    → Chain m.cell pv xs null
    → NoNull xs
    → length xs < fuel
    → search_loop test fuel (some (at_cells q xs)) m
      ≡ some ((first_with test (values xs), some (at_cells q (behind test xs))), m)
unfolding search_loop
search_loop-first_with test m zero q pv xs c objects h = absurd (omega arith)
search_loop-first_with test m (suc fuel) q pv [] c objects h = refl
search_loop-first_with test m (suc fuel) q pv ((p, d) ∷ xs) (ne, e, c) (real, objects) h =
    rw
      (
        positive (length xs),
        traverse-cons m (at_cells q ((p, d) ∷ xs)) p pv (first xs null) d ne refl e,
        not_null d real,
      )
      (elim (Bool-cases (test d)) [
        | inl hit ↦ rw hit refl
        | inr miss ↦ rw miss (search_loop-first_with test m fuel q p xs c objects (omega arith))
      ])
  where
    positive : (n : ℕ) → ltb 0 (suc n) ≡ true
    positive n = ground arith

    not_null : (d : Ptr) → d ≢ null → (d == null) ≡ false
    not_null d real = ground arith

-- `initTraversal` on a valid queue with a node still queued.
init_at_cells :
    (m : Mem) (q : Queue) (before : Ptr) (old : Cells) (p d : Ptr) (act : Cells)
    → IsQueue m q.ends before old ((p, d) ∷ act)
    → (init_traversal (some q)).1 ≡ some (at_cells q ((p, d) ∷ act))
unfolding init_traversal
init_at_cells m q before old p d act is = ground (arith, is.front, is.count)

search-first_with :
    (m : Mem) (q : Queue) (before : Ptr) (old act : Cells) (test : Ptr → Bool)
    → IsQueue m q.ends before old act
    → NoNull act
    → search test q m ≡ some ((first_with test (values act), some (searched test q act)), m)
unfolding search
search-first_with m q before old [] test is objects =
    unfold search_loop init_traversal in ground (arith, is.count)
search-first_with m q before old ((p, d) ∷ act) test is objects =
    rw (init_at_cells m q before old p d act is) (
      search_loop-first_with test m (suc q.ends.length) q (last before old) ((p, d) ∷ act)
        (Chain-right m.cell before old ((p, d) ∷ act) null is.chain) objects
        (omega (arith, is.count)))

-- On a valid queue of which no datum still queued is NULL, the three searches return the first object
-- still queued with the short name, the struct or cell index or the header address that is looked
-- for, NULL when there is none; they leave the memory as it was, and of the queue they change only
-- the traversal, which then stands behind that object, or at the end when there is none.
pub find-first_with :
    (o : Objects) {m : Mem} (q : Queue) {before : Ptr} {old act : Cells} (name : List ℕ) (n : ℕ)
    → IsQueue m q.ends before old act
    → NoNull act
    → (find_sub_object_by_short_name o q name m
        ≡ some (
          (
            first_with (λ obj. same_text (o.short_name obj) name) (values act),
            some (searched (λ obj. same_text (o.short_name obj) name) q act),
          ),
          m,
        ))
      × (find_sub_object_by_sc_index o q n m
          ≡ some (
            (
              first_with (λ obj. o.s_c_array_index obj == n) (values act),
              some (searched (λ obj. o.s_c_array_index obj == n) q act),
            ),
            m,
          ))
      × (find_object_by_header_address o q n m
          ≡ some (
            (
              first_with (λ obj. o.this_obj_address obj == n) (values act),
              some (searched (λ obj. o.this_obj_address obj == n) q act),
            ),
            m,
          ))
unfolding find_sub_object_by_short_name find_sub_object_by_sc_index find_object_by_header_address
find-first_with o {m} q {before} {old} {act} name n is objects = (
  search-first_with m q before old act _ is objects,
  search-first_with m q before old act _ is objects,
  search-first_with m q before old act _ is objects,
)

-- `strcmp(a, b) == 0`, as modelled, decides equality.
pub same_text_iff : (a b : List ℕ) → (same_text a b ≡ true) ↔ (a ≡ b)
unfolding same_text
same_text_iff [] [] = ground arith
same_text_iff [] (d ∷ ds) = ground arith
same_text_iff (c ∷ cs) [] = ground arith
same_text_iff (c ∷ cs) (d ∷ ds) = ground (arith, same_text_iff cs ds)
