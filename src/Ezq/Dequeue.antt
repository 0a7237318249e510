-- ===== src/Ezq/Dequeue.antt =====
-- `dequeue`, `peekQueue`, `resetQueue` and `restartQueue`.
use getmatvar.Common.{
  ℕ, ◌≡◌, ◌≢◌, refl, inl, inr, some, [], ◌∷◌, ◌++◌, append_assoc, append-nil, arith,
}
use getmatvar.Heap.{Ptr, null, Mem, node, load}
use getmatvar.Heap.Chain.{Cells, Chain, first, last, Chain-right}
use getmatvar.Ezq.{Ends, decrease, dequeue_ends, peek_ends, reset_ends, restart_ends, queue_front}
use getmatvar.Ezq.Inv.{Ensures, IsQueue}

module _ {m : Mem} {e : Ends} {before f df : Ptr} {old act : Cells}
    (is : IsQueue m e before old ((f, df) ∷ act)) where
  at_front : e.front ≡ f
  at_front = ground (arith, is.front)

  front_node :
      (f ≢ null)
      × (m.cell f ≡ some (node (last before old) (first act null) df))
      × Chain m.cell f act null
  front_node = Chain-right m.cell before old ((f, df) ∷ act) null is.chain

  regroup : (old ++ ((f, df) ∷ [])) ++ act ≡ old ++ ((f, df) ∷ act)
  regroup = append_assoc old ((f, df) ∷ []) act

  -- On a valid queue with a node still queued, `dequeue` returns the first such node's data and
  -- moves that node behind those handed out; it frees and changes no node.
  pub dequeue-cons :
      Ensures
        (λ (d, e') g. (d ≡ df) × (g ≡ m) × IsQueue g e' before (old ++ ((f, df) ∷ [])) act)
        (dequeue_ends e m)
  dequeue-cons = rw dequeue_run (
    refl,
    refl,
    record {
      chain = rw regroup is.chain;
      distinct = rw regroup is.distinct;
      abs_front = rw regroup is.abs_front;
      back = rw regroup is.back;
      front = inl refl;
      count = ground (arith, is.count);
      abs_count = rw regroup is.abs_count;
      empty = rw regroup is.empty;
    },
  )
    where
      dequeue_run :
          dequeue_ends e m
          ≡ some ((df, record e { front = first act null; length = decrease e.length }), m)
      dequeue_run = unfold dequeue_ends load in ground (arith, front_node, at_front, is.count)

  -- `peekQueue` returns what `dequeue` would, and changes nothing.
  pub peek_front-cons : peek_ends queue_front e m ≡ some (df, m)
  unfolding peek_ends load
  peek_front-cons = ground (arith, front_node, at_front, is.count)

-- With nothing queued `dequeue` returns NULL and changes nothing.
pub dequeue-nil :
    {m : Mem} {e : Ends} {before : Ptr} {old : Cells}
    → IsQueue m e before old []
    → dequeue_ends e m ≡ some ((null, e), m)
unfolding dequeue_ends
dequeue-nil is = ground (arith, is.count)

pub peek_front-nil :
    {m : Mem} {e : Ends} {before : Ptr} {old : Cells}
    → IsQueue m e before old []
    → peek_ends queue_front e m ≡ some (null, m)
unfolding peek_ends
peek_front-nil is = ground (arith, is.count)

-- On a valid queue `restartQueue` returns 0 and queues again, before what is still queued, all that
-- was handed out, in the order of the chain; it changes no node.
pub restart-IsQueue :
    {m : Mem} {e : Ends} {before : Ptr} {old act : Cells}
    → IsQueue m e before old act
    → Ensures
        (λ (code, e') g. ◌≡◌ {A = ℕ} code 0 × (g ≡ m) × IsQueue g e' before [] (old ++ act))
        (restart_ends e m)
unfolding restart_ends
restart-IsQueue is = (
  refl,
  refl,
  record {
    chain = is.chain;
    distinct = is.distinct;
    abs_front = is.abs_front;
    back = is.back;
    front = inl is.abs_front;
    count = is.abs_count;
    abs_count = is.abs_count;
    empty = is.empty;
  },
)

-- `resetQueue` counts all as handed out.
pub reset-IsQueue :
    {m : Mem} {e : Ends} {before : Ptr} {old act : Cells}
    → IsQueue m e before old act
    → Ensures
        (λ (code, e') g. ◌≡◌ {A = ℕ} code 0 × (g ≡ m) × IsQueue g e' before (old ++ act) [])
        (reset_ends e m)
unfolding reset_ends
reset-IsQueue {old} {act} is = (
  refl,
  refl,
  record {
    chain = rw append-nil is.chain;
    distinct = rw append-nil is.distinct;
    abs_front = rw append-nil is.abs_front;
    back = rw append-nil is.back;
    front = inr (refl, refl);
    count = refl;
    abs_count = rw append-nil is.abs_count;
    empty = rw append-nil is.empty;
  },
)
