-- ===== src/Ezq/Walk.antt =====
-- src/ezq.c: the traversal of a queue, the removal of the node that it has reached, `mergeQueue` and
-- `freeQueue`; and the three searches of src/utils.c, which traverse a queue of objects.
pub mod Search
use getmatvar.Common.{
  ℕ, zero, suc, ◌+◌, Bool, true, Option, none, some, List, [], ◌∷◌, ◌==◌, ltb, if◌then◌else◌,
}
use getmatvar.Heap.{
  Ptr, null, M, pure, fault, ◌>>=◌, ◌>>◌, load, set_next, set_prev, free, call_free,
}
use getmatvar.Ezq.{Ends, Queue, decrease, enqueue_ends, dequeue_ends, restart_ends, flush_ends}

-- A NULL queue is the error 2.
unfoldable pub init_traversal : Option Queue → ℕ × Option Queue
init_traversal none = (2, none)
init_traversal (some q) =
    (0, some (record q { traverse_front = q.ends.front; traverse_length = q.ends.length }))

unfoldable pub init_abs_traversal : Option Queue → ℕ × Option Queue
init_abs_traversal none = (2, none)
init_abs_traversal (some q) =
    (0, some (record q { traverse_front = q.ends.abs_front; traverse_length = q.ends.abs_length }))

unfoldable pub traverse_queue : Option Queue → M (Ptr × Option Queue)
traverse_queue none = pure (null, none)
traverse_queue (some q) = if q.traverse_front == null then pure (null, some q) else (do
  n ← load q.traverse_front
  pure (
    n.data_ptr,
    some (record q { traverse_front = n.next; traverse_length = decrease q.traverse_length }),
  ))

unfoldable pub peek_traverse : Option Queue → M Ptr
peek_traverse none = pure null
peek_traverse (some q) =
    if q.traverse_front == null then pure null else (do n ← load q.traverse_front; pure n.data_ptr)

-- The fields of the queue after the node `tf`, followed by `nx`, was unlinked.
abbrev pub unlinked : Ends → Ptr → Ptr → Ends
unlinked e tf nx = record {
  abs_front = if tf == e.abs_front then nx else e.abs_front;
  front = if tf == e.front then nx else e.front;
  back = e.back;
  length = if ltb (decrease e.abs_length) e.length then decrease e.length else e.length;
  abs_length = decrease e.abs_length;
}

unfoldable pub remove_at_traverse_node : Option Queue → M (Ptr × Option Queue)
remove_at_traverse_node none = pure (null, none)
remove_at_traverse_node (some q) = if q.traverse_front == null then pure (null, some q) else (do
  t ← load q.traverse_front
  (if t.prev == null then pure tt else set_next t.prev t.next)
  (if t.next == null then pure tt else set_prev t.next t.prev)
  call_free q.has_free t.data_ptr
  free q.traverse_front
  d ← (if t.next == null then pure null else (do n ← load t.next; pure n.data_ptr))
  pure (
    d,
    some (record q { ends = unlinked q.ends q.traverse_front t.next; traverse_front = t.next }),
  ))

-- `freeQueue`: the handle is gone afterwards. NULL is no error.
unfoldable pub free_queue : Option Queue → M (Option Queue)
free_queue none = pure none
free_queue (some q) = do flush_ends q.has_free q.ends; pure none

-- The inner loop of `mergeQueue`, with the rounds left. The code that `enqueue` returns is dropped.
-- `malloc j` is what the j-th call of `malloc` returns, and `k` the number of the next call.
unfoldable pub merge_one : (ℕ → Ptr) → ℕ → ℕ → Ends → Ends → M (ℕ × Ends × Ends)
merge_one malloc zero k new q = pure (k, new, q)
merge_one malloc (suc left) k new q = do
  (d, q') ← dequeue_ends q
  (code, new') ← enqueue_ends (malloc k) d new
  merge_one malloc left (k + 1) new' q'

unfoldable pub merge_all : (ℕ → Ptr) → ℕ → Ends → List Ends → M (ℕ × Ends × List Ends)
unfolding merge_one
merge_all malloc k new [] = pure (k, new, [])
merge_all malloc k new (q ∷ qs) = do
  (k', new', q') ← merge_one malloc q.length k new q
  (code, q'') ← restart_ends q'
  (k'', new'', qs') ← merge_all malloc k' new' qs
  pure (k'', new'', q'' ∷ qs')

-- The queues merged from are not tested for NULL.
unfoldable pub merge_queue :
    (ℕ → Ptr) → ℕ → Option Queue → List Ends → M (ℕ × Option Queue × List Ends)
unfolding merge_all
merge_queue malloc k none qs = pure (2, none, qs)
merge_queue malloc k (some q) qs = do
  (k', e, qs') ← merge_all malloc k q.ends qs
  pure (0, some (record q { ends = e }), qs')
