-- ===== src/Mtezq/Locked.antt =====
-- Behind its lock a queue of mtezq.c answers as the queue of ezq.c, and no call keeps the lock.
use getmatvar.Common.{
  ℕ, ◌+◌, ◌≡◌, refl, ap, ◌∙◌, false, Option, none, some, List, [], ◌∷◌, arith, ◌==◌, Bool-cases,
  inl, inr,
}
use getmatvar.Heap.{Ptr, null, Mem, M, pure, and_then, ◌>>=◌}
use getmatvar.Heap.Chain.{Cells}
use getmatvar.Ezq.{Ends, enqueue_ends, priority_enqueue_ends, queue_front}
use getmatvar.Ezq.Inv.{Ensures, IsQueue}
use getmatvar.Ezq.Spec.{Op, put_back, put_front, take_front, peek_front, restart, reset, replies}
use getmatvar.Ezq.Refine.{call, calls, IsFresh, contents, calls_refines}
use getmatvar.Mtezq.{
  MtQueue, lock, unlock, under_lock, mt_enqueue, mt_priority_enqueue, mt_dequeue, mt_peek_queue,
  mt_restart_queue, mt_reset_queue,
}

-- The queue after a call: the lock is free.
abbrev pub released_queue : MtQueue → Ends → MtQueue
released_queue q e = record { ends = e; has_free = q.has_free; locked = false }

abbrev after :
    {A : Type 0} → MtQueue → Option ((A × Ends) × Mem) → Option ((A × Option MtQueue) × Mem)
after q r = and_then r (λ (a, e). pure (a, some (released_queue q e)))

under_lock-run :
    {A : Type 0} (q : MtQueue) (body : Ends → M (A × Ends)) (m : Mem)
    → q.locked ≡ false
    → under_lock q body m ≡ after q (body q.ends m)
unfolding under_lock lock unlock
under_lock-run q body m free = rw free refl

released_self : (q : MtQueue) → q.locked ≡ false → q ≡ released_queue q q.ends
released_self q free = ground arith

module _ (malloc : ℕ → Ptr) where
  abbrev mt_call : ℕ → Option MtQueue → Op → M (ℕ × Option MtQueue)
  mt_call k queue (put_back d) = mt_enqueue (malloc k) queue d
  mt_call k queue (put_front d) = mt_priority_enqueue (malloc k) queue d
  mt_call k queue take_front = mt_dequeue queue
  mt_call k queue peek_front = mt_peek_queue queue queue_front
  mt_call k queue restart = mt_restart_queue queue
  mt_call k queue reset = mt_reset_queue queue

  pub mt_calls : ℕ → Option MtQueue → List Op → M (List ℕ)
  mt_calls k queue [] = pure []
  mt_calls k queue (op ∷ ops) = do
    (r, queue') ← mt_call k queue op
    rs ← mt_calls (k + 1) queue' ops
    pure (r ∷ rs)

  mt_call-run :
      (k : ℕ) (q : MtQueue) (op : Op) (m : Mem)
      → q.locked ≡ false
      → mt_call k (some q) op m ≡ after q (call malloc k q.ends op m)
  mt_call-run k q (put_back d) m free = elim (Bool-cases (malloc k == null)) [
    | inl z ↦
        unfold mt_enqueue enqueue_ends in
        rw z (ap (λ x. some ((1, some x), m)) (released_self q free))
    | inr nz ↦ unfold mt_enqueue in rw nz (under_lock-run q _ m free)
  ]
  mt_call-run k q (put_front d) m free = elim (Bool-cases (malloc k == null)) [
    | inl z ↦
        unfold mt_priority_enqueue priority_enqueue_ends in
        rw z (ap (λ x. some ((1, some x), m)) (released_self q free))
    | inr nz ↦ unfold mt_priority_enqueue in rw nz (under_lock-run q _ m free)
  ]
  mt_call-run k q take_front m free = unfold mt_dequeue in under_lock-run q _ m free
  mt_call-run k q peek_front m free = unfold mt_peek_queue in under_lock-run q _ m free
  mt_call-run k q restart m free = unfold mt_restart_queue in under_lock-run q _ m free
  mt_call-run k q reset m free = unfold mt_reset_queue in under_lock-run q _ m free

  mt_calls-calls :
      (k : ℕ) (ops : List Op) (q : MtQueue) (m : Mem)
      → q.locked ≡ false
      → mt_calls k (some q) ops m ≡ calls malloc k q.ends ops m
  unfolding mt_calls calls
  mt_calls-calls k [] q m free = refl
  mt_calls-calls k (op ∷ ops) q m free =
      ap (λ r. and_then r rest) (mt_call-run k q op m free)
      ∙ go (call malloc k q.ends op m)
          (λ e g. mt_calls-calls (k + 1) ops (released_queue q e) g refl)
    where
      rest : ℕ × Option MtQueue → M (List ℕ)
      rest = λ (r, queue'). do rs ← mt_calls (k + 1) queue' ops; pure (r ∷ rs)

      go :
          (r : Option ((ℕ × Ends) × Mem))
          → ((e : Ends) (g : Mem)
              → mt_calls (k + 1) (some (released_queue q e)) ops g ≡ calls malloc (k + 1) e ops g)
          → and_then (after q r) rest
            ≡ and_then r (λ (x, e). do rs ← calls malloc (k + 1) e ops; pure (x ∷ rs))
      go none same = refl
      go (some ((x, e), g)) same = ap (λ r. and_then r (λ rs. pure (x ∷ rs))) (same e g)

  -- On a valid queue whose lock is free, a thread's calls of `mt_enqueue`, `mt_priorityEnqueue`,
  -- `mt_dequeue`, `mt_peekQueue(QUEUE_FRONT)`, `mt_restartQueue` and `mt_resetQueue` neither fault
  -- nor wait for ever on the lock, and reply as the specification of ezq.c's queue does, as long as
  -- `malloc` keeps returning unused addresses.
  pub mt_calls_refines :
      (k : ℕ) (ops : List Op) (q : MtQueue) {m : Mem} {before : Ptr} {old act : Cells}
      → q.locked ≡ false
      → IsQueue m q.ends before old act
      → IsFresh malloc k m
      → Ensures (λ rs _. rs ≡ replies (contents old act) ops) (mt_calls k (some q) ops m)
  mt_calls_refines k ops q {m} free is f =
      rw (mt_calls-calls k ops q m free) (calls_refines malloc k ops is f)
