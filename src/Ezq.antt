-- ===== src/Ezq.antt =====
-- src/ezq.c: a queue as a doubly linked list of nodes that keeps what it has handed out, so that it
-- can be restarted. `abs_front` is the first node held, `front` the first not yet handed out.
-- The build modelled is the one with NO_MEX, which checks what `malloc` returns: `fresh` is that
-- address. A `Queue*` that may be NULL is an option, and a function that updates `*queue` returns
-- it. mtezq.c repeats the bodies, so they are stated over the fields that both structs have.
pub mod Inv
pub mod Enqueue
pub mod Front
pub mod Priority
pub mod Dequeue
pub mod Flush
pub mod Clean
pub mod Spec
pub mod Refine
pub mod Walk
pub mod Tests
use getmatvar.Common.{
  ℕ, zero, suc, ◌+◌, ◌-◌, ◌^◌, Bool, true, not, ◌&&◌, Option, none, some, ◌==◌, ltb, if◌then◌else◌,
}
use getmatvar.Heap.{
  Ptr, null, node, M, pure, fault, ◌>>=◌, ◌>>◌, load, put, set_next, set_prev, free, call_free,
}

-- A `size_t` counter that is decreased; one that is increased counts allocated nodes and fits.
abbrev pub decrease : ℕ → ℕ
decrease zero = 2 ^ 64 - 1
decrease (suc n) = n

pub record Ends : Type 0 where
  pub abs_front : Ptr
  pub front : Ptr
  pub back : Ptr
  pub length : ℕ
  pub abs_length : ℕ

-- `has_free` says that `free_function` is not NULL.
pub record Queue : Type 0 where
  pub ends : Ends
  pub traverse_front : Ptr
  pub traverse_length : ℕ
  pub has_free : Bool

abbrev pub no_ends : Ends
no_ends = record { abs_front = null; front = null; back = null; length = 0; abs_length = 0 }

-- `fresh` is what `malloc` gave for the queue; `traverse_length` is left as it was found there.
unfoldable pub init_queue : Ptr → Bool → ℕ → Option Queue
init_queue fresh has_free garbage =
    if fresh == null
    then none
    else some (record {
      ends = no_ends;
      traverse_front = null;
      traverse_length = garbage;
      has_free = has_free;
    })

-- The first node of a queue that holds none.
unfoldable pub enqueue_first : Ptr → Ptr → Ends → M Ends
enqueue_first fresh d e = do
  put fresh (node null null d)
  pure (record {
    abs_front = fresh;
    front = fresh;
    back = fresh;
    length = e.length + 1;
    abs_length = e.abs_length + 1;
  })

-- A node linked in behind `back`; a queue that has handed out all it holds gets a new `front`.
unfoldable pub enqueue_back : Ptr → Ptr → Ends → M Ends
enqueue_back fresh d e = do
  b ← load e.back
  put fresh (node e.back b.next d)
  (if b.next == null then pure tt else set_prev b.next fresh)
  set_next e.back fresh
  pure (record {
    abs_front = e.abs_front;
    front = if e.length == 0 then fresh else e.front;
    back = fresh;
    length = e.length + 1;
    abs_length = e.abs_length + 1;
  })

-- A node linked in before `front`.
unfoldable pub enqueue_front : Ptr → Ptr → Ends → M Ends
enqueue_front fresh d e = do
  f ← load e.front
  put fresh (node f.prev e.front d)
  (if e.front == e.abs_front then pure tt else set_next f.prev fresh)
  set_prev e.front fresh
  pure (record {
    abs_front = if e.front == e.abs_front then fresh else e.abs_front;
    front = fresh;
    back = e.back;
    length = e.length + 1;
    abs_length = e.abs_length + 1;
  })

abbrev pub with_code : M Ends → M (ℕ × Ends)
with_code m = do e ← m; pure (0, e)

unfoldable pub enqueue_ends : Ptr → Ptr → Ends → M (ℕ × Ends)
enqueue_ends fresh d e =
    if fresh == null
    then pure (1, e)
    else with_code (if e.abs_length == 0 then enqueue_first fresh d e else enqueue_back fresh d e)

unfoldable pub priority_enqueue_ends : Ptr → Ptr → Ends → M (ℕ × Ends)
priority_enqueue_ends fresh d e =
    if fresh == null
    then pure (1, e)
    else with_code (
        if e.abs_length == 0
        then enqueue_first fresh d e
        else if e.length == 0
        then enqueue_back fresh d e
        else enqueue_front fresh d e)

unfoldable pub reset_ends : Ends → M (ℕ × Ends)
reset_ends e = pure (0, record e { front = e.back; length = 0 })

unfoldable pub restart_ends : Ends → M (ℕ × Ends)
restart_ends e = pure (0, record e { front = e.abs_front; length = e.abs_length })

-- Whether there is something to hand out.
abbrev pub ready : Ends → Bool
ready e = not (e.front == null) && ltb 0 e.length

-- The result is the data pointer, NULL when there is nothing to hand out.
unfoldable pub dequeue_ends : Ends → M (Ptr × Ends)
dequeue_ends e =
    if ready e
    then (do
      n ← load e.front
      pure (n.data_ptr, record e { front = n.next; length = decrease e.length }))
    else pure (null, e)

abbrev pub queue_front : ℕ
queue_front = 0

abbrev pub queue_back : ℕ
queue_back = 1

unfoldable pub peek_ends : ℕ → Ends → M Ptr
peek_ends location e =
    if ready e
    then if location == queue_front
      then (do n ← load e.front; pure n.data_ptr)
      else if location == queue_back
      then (do n ← load e.back; pure n.data_ptr)
      else pure null
    else pure null

-- `while(queue->abs_length > 0)`: the counter is the number of rounds left.
unfoldable pub flush_loop : Bool → ℕ → Ptr → M (Unit {0})
flush_loop has_free zero p = pure tt
flush_loop has_free (suc left) p = do
  n ← load p
  (if not (n.data_ptr == null) && has_free then call_free true n.data_ptr else pure tt)
  free p
  flush_loop has_free left n.next

unfoldable pub flush_ends : Bool → Ends → M (ℕ × Ends)
unfolding flush_loop
flush_ends has_free e = do flush_loop has_free e.abs_length e.abs_front; pure (0, no_ends)

-- `while(queue->abs_front != queue->front)`, on fuel; running out is a fault.
unfoldable pub clean_loop : ℕ → Bool → Ends → M Ends
clean_loop zero has_free e = fault
clean_loop (suc fuel) has_free e = if e.abs_front == e.front then pure e else do
  n ← load e.abs_front
  (if n.data_ptr == null then pure tt else call_free has_free n.data_ptr)
  free e.abs_front
  clean_loop fuel has_free (record e { abs_front = n.next; abs_length = decrease e.abs_length })

-- The queue holds `abs_length` nodes, so that many rounds and one for the last test are enough.
unfoldable pub clean_ends : Bool → Ends → M (ℕ × Ends)
unfolding clean_loop
clean_ends has_free e = with_code (clean_loop (e.abs_length + 1) has_free e)

-- The functions of ezq.c: a NULL queue is the error 2.
abbrev pub on_ends : Option Queue → (Queue → M (ℕ × Ends)) → M (ℕ × Option Queue)
on_ends none f = pure (2, none)
on_ends (some q) f = do (code, e) ← f q; pure (code, some (record q { ends = e }))

unfoldable pub enqueue : Ptr → Option Queue → Ptr → M (ℕ × Option Queue)
unfolding enqueue_ends
enqueue fresh queue d = on_ends queue (λ q. enqueue_ends fresh d q.ends)

unfoldable pub priority_enqueue : Ptr → Option Queue → Ptr → M (ℕ × Option Queue)
unfolding priority_enqueue_ends
priority_enqueue fresh queue d = on_ends queue (λ q. priority_enqueue_ends fresh d q.ends)

unfoldable pub reset_queue : Option Queue → M (ℕ × Option Queue)
unfolding reset_ends
reset_queue queue = on_ends queue (λ q. reset_ends q.ends)

unfoldable pub restart_queue : Option Queue → M (ℕ × Option Queue)
unfolding restart_ends
restart_queue queue = on_ends queue (λ q. restart_ends q.ends)

-- `dequeue` and `peekQueue` do not test for NULL.
unfoldable pub dequeue : Option Queue → M (Ptr × Option Queue)
unfolding dequeue_ends
dequeue none = fault
dequeue (some q) = do (d, e) ← dequeue_ends q.ends; pure (d, some (record q { ends = e }))

unfoldable pub peek_queue : Option Queue → ℕ → M Ptr
unfolding peek_ends
peek_queue none location = fault
peek_queue (some q) location = peek_ends location q.ends

unfoldable pub flush_queue : Option Queue → M (ℕ × Option Queue)
unfolding flush_ends
flush_queue none = pure (2, none)
flush_queue (some q) = do
  (code, e) ← flush_ends q.has_free q.ends
  pure (code, some (record q { ends = e; traverse_front = null }))

unfoldable pub clean_queue : Option Queue → M (ℕ × Option Queue)
unfolding clean_ends
clean_queue queue = on_ends queue (λ q. clean_ends q.has_free q.ends)
