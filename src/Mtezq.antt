-- ===== src/Mtezq.antt =====
-- src/mtezq.c: the queue of ezq.c behind a lock, for the threads that inflate chunks. Its struct has
-- no traversal fields, and the bodies between `lock` and `unlock` are those of ezq.c, which Ezq
-- states over the fields that both structs have.
pub mod Locked
pub mod Tests
use mathlib.Core.Option
use getmatvar.Common.{
  ℕ, zero, suc, ◌+◌, Bool, true, false, Option, none, some, List, [], ◌∷◌, map, ◌==◌, if◌then◌else◌,
}
use getmatvar.Heap.{Ptr, null, M, pure, fault, ◌>>=◌, ◌>>◌}
use getmatvar.Ezq.{
  Ends, Queue, no_ends, enqueue_ends, priority_enqueue_ends, reset_ends, restart_ends, dequeue_ends,
  peek_ends, flush_ends, clean_ends, on_ends, restart_queue,
}

-- `locked`: a thread is between the two calls on the lock.
pub record MtQueue : Type 0 where
  pub ends : Ends
  pub has_free : Bool
  pub locked : Bool

-- `fresh` is what `malloc` gave for the queue.
unfoldable pub mt_init_queue : Ptr → Bool → Option MtQueue
mt_init_queue fresh has_free =
    if fresh == null
    then none
    else some (record { ends = no_ends; has_free = has_free; locked = false })

-- The nodes are shared with the queue converted.
unfoldable pub mt_convert_queue : Ptr → Queue → Option MtQueue
unfolding mt_init_queue
mt_convert_queue fresh q =
    Option.map (λ (n : MtQueue). record n { ends = q.ends }) (mt_init_queue fresh q.has_free)

-- One thread that takes a lock that it holds waits for ever; that is a fault of the model.
unfoldable pub lock : MtQueue → M MtQueue
lock q = if q.locked then fault else pure (record q { locked = true })

unfoldable pub unlock : MtQueue → M MtQueue
unlock q = pure (record q { locked = false })

-- Lock, a body of ezq.c on the queue's fields, unlock.
unfoldable pub under_lock : {A : Type 0} → MtQueue → (Ends → M (A × Ends)) → M (A × Option MtQueue)
unfolding lock unlock
under_lock q body = do
  q' ← lock q
  (a, e) ← body q'.ends
  q'' ← unlock (record q' { ends = e })
  pure (a, some q'')

-- `malloc` is called, and its failure returned, before the lock is taken.
unfoldable pub mt_enqueue : Ptr → Option MtQueue → Ptr → M (ℕ × Option MtQueue)
unfolding under_lock
mt_enqueue fresh none d = pure (2, none)
mt_enqueue fresh (some q) d =
    if fresh == null then pure (1, some q) else under_lock q (enqueue_ends fresh d)

unfoldable pub mt_priority_enqueue : Ptr → Option MtQueue → Ptr → M (ℕ × Option MtQueue)
unfolding under_lock
mt_priority_enqueue fresh none d = pure (2, none)
mt_priority_enqueue fresh (some q) d =
    if fresh == null then pure (1, some q) else under_lock q (priority_enqueue_ends fresh d)

unfoldable pub mt_reset_queue : Option MtQueue → M (ℕ × Option MtQueue)
unfolding under_lock
mt_reset_queue none = pure (2, none)
mt_reset_queue (some q) = under_lock q reset_ends

unfoldable pub mt_restart_queue : Option MtQueue → M (ℕ × Option MtQueue)
unfolding under_lock
mt_restart_queue none = pure (2, none)
mt_restart_queue (some q) = under_lock q restart_ends

-- Unlike `dequeue`, `mt_dequeue` tests for NULL.
unfoldable pub mt_dequeue : Option MtQueue → M (Ptr × Option MtQueue)
unfolding under_lock
mt_dequeue none = pure (null, none)
mt_dequeue (some q) = under_lock q dequeue_ends

unfoldable pub mt_peek_queue : Option MtQueue → ℕ → M (Ptr × Option MtQueue)
unfolding under_lock
mt_peek_queue none location = fault
mt_peek_queue (some q) location = under_lock q (λ e. do d ← peek_ends location e; pure (d, e))

unfoldable pub mt_flush_queue : Option MtQueue → M (ℕ × Option MtQueue)
unfolding under_lock
mt_flush_queue none = pure (2, none)
mt_flush_queue (some q) = under_lock q (flush_ends q.has_free)

unfoldable pub mt_clean_queue : Option MtQueue → M (ℕ × Option MtQueue)
unfolding under_lock
mt_clean_queue none = pure (2, none)
mt_clean_queue (some q) = under_lock q (clean_ends q.has_free)

-- The queue is gone afterwards. NULL is no error.
unfoldable pub mt_free_queue : Option MtQueue → M (Option MtQueue)
unfolding mt_flush_queue
mt_free_queue none = pure none
mt_free_queue (some q) = do mt_flush_queue (some q); pure none

-- The inner loop of `mt_mergeQueue`, with the rounds left; `k` numbers the next call of `malloc`.
unfoldable pub mt_merge_one :
    (ℕ → Ptr) → ℕ → ℕ → Option MtQueue → Ends → M (ℕ × Option MtQueue × Ends)
unfolding mt_enqueue
mt_merge_one malloc zero k new q = pure (k, new, q)
mt_merge_one malloc (suc left) k new q = do
  (d, q') ← dequeue_ends q
  (code, new') ← mt_enqueue (malloc k) new d
  mt_merge_one malloc left (k + 1) new' q'

unfoldable pub mt_merge_all :
    (ℕ → Ptr) → ℕ → Option MtQueue → List Ends → M (ℕ × Option MtQueue × List Ends)
unfolding mt_merge_one
mt_merge_all malloc k new [] = pure (k, new, [])
mt_merge_all malloc k new (q ∷ qs) = do
  (k', new', q') ← mt_merge_one malloc q.length k new q
  (code, q'') ← restart_ends q'
  (k'', new'', qs') ← mt_merge_all malloc k' new' qs
  pure (k'', new'', q'' ∷ qs')

unfoldable pub mt_merge_queue :
    (ℕ → Ptr) → ℕ → Option MtQueue → List Ends → M (ℕ × Option MtQueue × List Ends)
unfolding mt_merge_all
mt_merge_queue malloc k none qs = pure (2, none, qs)
mt_merge_queue malloc k (some q) qs = do
  (k', new, qs') ← mt_merge_all malloc k (some q) qs
  pure (0, new, qs')

-- The inner loop of `mt_mergeMTQueue`.
unfoldable pub mt_merge_one_mt :
    (ℕ → Ptr) → ℕ → ℕ → Option MtQueue → Option MtQueue → M (ℕ × Option MtQueue × Option MtQueue)
unfolding mt_enqueue mt_dequeue
mt_merge_one_mt malloc zero k new q = pure (k, new, q)
mt_merge_one_mt malloc (suc left) k new q = do
  (d, q') ← mt_dequeue q
  (code, new') ← mt_enqueue (malloc k) new d
  mt_merge_one_mt malloc left (k + 1) new' q'

unfoldable pub mt_merge_all_mt :
    (ℕ → Ptr) → ℕ → Option MtQueue → List MtQueue → M (ℕ × Option MtQueue × List (Option MtQueue))
unfolding mt_merge_one_mt mt_restart_queue
mt_merge_all_mt malloc k new [] = pure (k, new, [])
mt_merge_all_mt malloc k new (q ∷ qs) = do
  (k', new', q') ← mt_merge_one_mt malloc q.ends.length k new (some q)
  (code, q'') ← mt_restart_queue q'
  (k'', new'', qs') ← mt_merge_all_mt malloc k' new' qs
  pure (k'', new'', q'' ∷ qs')

unfoldable pub mt_merge_mt_queue :
    (ℕ → Ptr) → ℕ → Option MtQueue → List MtQueue → M (ℕ × Option MtQueue × List (Option MtQueue))
unfolding mt_merge_all_mt
mt_merge_mt_queue malloc k none qs = pure (2, none, map some qs)
mt_merge_mt_queue malloc k (some q) qs = do
  (k', new, qs') ← mt_merge_all_mt malloc k (some q) qs
  pure (0, new, qs')
