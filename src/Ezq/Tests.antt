-- ===== src/Ezq/Tests.antt =====
-- A queue of three nodes, one of them handed out, and the theorems on it.
use getmatvar.Common.{
  ℕ, ◌+◌, ◌≡◌, refl, inl, true, false, if◌then◌else◌, none, some, List, [], ◌∷◌, arith, ◌==◌,
}
use getmatvar.Heap.{Ptr, null, Mem, node}
use getmatvar.Heap.Chain.{Cells}
use getmatvar.Ezq.{
  Ends, Queue, no_ends, enqueue_ends, priority_enqueue_ends, dequeue_ends, restart_ends, flush_ends,
  clean_ends,
}
use getmatvar.Ezq.Inv.{Ensures, IsQueue}
use getmatvar.Ezq.Enqueue.{Added, enqueue-append}
use getmatvar.Ezq.Front.{Pushed}
use getmatvar.Ezq.Priority.{priority_enqueue-cons}
use getmatvar.Ezq.Dequeue.{dequeue-cons}
use getmatvar.Ezq.Flush.{Without, flush-Without}
use getmatvar.Ezq.Clean.{clean-IsQueue}
use getmatvar.Ezq.Spec.{Op, put_back, put_front, take_front, peek_front, restart, reset}
use getmatvar.Ezq.Refine.{IsFresh, calls, calls_refines}
use getmatvar.Ezq.Walk.Search.{
  Objects, find_sub_object_by_short_name, find_sub_object_by_sc_index,
  find_object_by_header_address, find-first_with,
}

abbrev pub three_nodes : Mem
three_nodes = record {
  cell = λ a.
      if a == 10
      then some (node 0 20 100)
      else if a == 20
      then some (node 10 30 200)
      else if a == 30
      then some (node 20 0 300)
      else none;
  released = [];
}

abbrev pub three_ends : Ends
three_ends = record { abs_front = 10; front = 20; back = 30; length = 2; abs_length = 3 }

abbrev pub handed_out : Cells
handed_out = (10, 100) ∷ []

abbrev pub still_queued : Cells
still_queued = (20, 200) ∷ (30, 300) ∷ []

pub three-IsQueue : IsQueue three_nodes three_ends null handed_out still_queued
three-IsQueue = record {
  chain = (omega arith, refl, (omega arith, refl, (omega arith, refl, tt)));
  distinct = (refl, (refl, (refl, tt)));
  abs_front = refl;
  back = refl;
  front = inl refl;
  count = refl;
  abs_count = refl;
  empty = λ z. omega (arith, z);
}

abbrev pub malloc_from_100 : ℕ → Ptr
malloc_from_100 j = 100 + j

pub IsFresh-from_100 : IsFresh malloc_from_100 0 three_nodes
IsFresh-from_100 = record {
  ne_null = λ j h. omega arith;
  unused = λ j h. ground arith;
  injective = λ i j e. omega (arith, e);
}

abbrev some_calls : List Op
some_calls =
    put_back 400
    ∷ take_front
    ∷ put_front 500
    ∷ peek_front
    ∷ take_front
    ∷ take_front
    ∷ restart
    ∷ take_front
    ∷ reset
    ∷ take_front
    ∷ []

-- The replies are 0, 200, 0, 500, 500, 300, 0, 100, 0 and NULL.
calls_refines_example :
    Ensures
      (λ rs _. rs ≡ 0 ∷ 200 ∷ 0 ∷ 500 ∷ 500 ∷ 300 ∷ 0 ∷ 100 ∷ 0 ∷ 0 ∷ [])
      (calls malloc_from_100 0 three_ends some_calls three_nodes)
unfolding getmatvar.Ezq.Spec.step getmatvar.Ezq.Spec.replies
calls_refines_example = calls_refines malloc_from_100 0 some_calls three-IsQueue IsFresh-from_100

unused_40 : three_nodes.cell 40 ≡ none
unused_40 = refl

enqueue-append_example :
    Ensures
      (λ (code, e') g.
        ◌≡◌ {A = ℕ} code 0 × Added null 40 400 handed_out still_queued e' three_nodes g)
      (enqueue_ends 40 400 three_ends three_nodes)
enqueue-append_example = enqueue-append 40 400 three-IsQueue (omega arith) unused_40

priority_enqueue-cons_example :
    Ensures
      (λ (code, e') g.
        ◌≡◌ {A = ℕ} code 0 × Pushed null 40 400 handed_out still_queued e' three_nodes g)
      (priority_enqueue_ends 40 400 three_ends three_nodes)
priority_enqueue-cons_example = priority_enqueue-cons 40 400 three-IsQueue (omega arith) unused_40

dequeue-cons_example :
    Ensures
      (λ (d, e') g.
        (d ≡ 200)
        × (g ≡ three_nodes)
        × IsQueue g e' null ((10, 100) ∷ (20, 200) ∷ []) ((30, 300) ∷ []))
      (dequeue_ends three_ends three_nodes)
dequeue-cons_example = dequeue-cons three-IsQueue

flush-Without_example :
    Ensures
      (λ (code, e') g.
        ◌≡◌ {A = ℕ} code 0
        × (e' ≡ no_ends)
        × Without ((10, 100) ∷ (20, 200) ∷ (30, 300) ∷ []) three_nodes g
        × (g.released ≡ 300 ∷ 200 ∷ 100 ∷ []))
      (flush_ends true three_ends three_nodes)
flush-Without_example = flush-Without true three-IsQueue

clean-IsQueue_example :
    Ensures
      (λ (code, e') g.
        ◌≡◌ {A = ℕ} code 0
        × IsQueue g e' 10 [] still_queued
        × Without handed_out three_nodes g
        × (g.released ≡ 100 ∷ []))
      (clean_ends true three_ends three_nodes)
clean-IsQueue_example = clean-IsQueue three-IsQueue

abbrev three_objects : Objects
three_objects = record {
  short_name = λ p. (if p == 200 then 97 else 98) ∷ [];
  s_c_array_index = λ p. if p == 200 then 0 else 1;
  this_obj_address = λ p. p + 7;
}

abbrev object_queue : Queue
object_queue = record {
  ends = three_ends;
  traverse_front = null;
  traverse_length = 0;
  has_free = false;
}

find-first_with_example :
    (find_sub_object_by_short_name three_objects object_queue (98 ∷ []) three_nodes
      ≡ some ((300, some object_queue), three_nodes))
    × (find_sub_object_by_sc_index three_objects object_queue 107 three_nodes
        ≡ some ((null, some object_queue), three_nodes))
    × (find_object_by_header_address three_objects object_queue 107 three_nodes
        ≡ some ((null, some object_queue), three_nodes))
unfolding getmatvar.Ezq.Walk.Search.same_text
find-first_with_example =
    find-first_with three_objects object_queue (98 ∷ []) 107 three-IsQueue (omega arith)
