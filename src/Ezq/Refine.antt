-- ===== src/Ezq/Refine.antt =====
-- A queue of ezq.c behaves as the contents that it stands for, call after call.
use mathlib.Core.List.{map-append}
use getmatvar.Common.{
  ℕ, ◌+◌, ◌≤◌, ◌≡◌, ◌≢◌, refl, sym, ap, ◌∙◌, subst, false, none, List, [], ◌∷◌, ◌++◌, map, arith,
}
use getmatvar.Heap.{Ptr, null, Mem, M, pure, ◌>>=◌}
use getmatvar.Heap.Chain.{Cells, has, has-append}
use getmatvar.Ezq.{
  Ends, enqueue_ends, priority_enqueue_ends, dequeue_ends, peek_ends, restart_ends, reset_ends,
  queue_front,
}
use getmatvar.Ezq.Inv.{Ensures, Ensures-bind, Ensures-mono, IsQueue, SameOutside, fresh-has}
use getmatvar.Ezq.Enqueue.{Added, enqueue-append}
use getmatvar.Ezq.Front.{Pushed}
use getmatvar.Ezq.Priority.{priority_enqueue-cons}
use getmatvar.Ezq.Dequeue.{
  dequeue-cons, dequeue-nil, peek_front-cons, peek_front-nil, restart-IsQueue, reset-IsQueue,
}
use getmatvar.Ezq.Spec.{
  Contents, Op, put_back, put_front, take_front, peek_front, restart, reset, step, replies,
}

-- What the data pointers of the nodes are.
abbrev pub values : Cells → List Ptr
values = map (λ c. c.1)

abbrev pub contents : Cells → Cells → Contents
contents old act = record { handed = values old; queued = values act }

-- The calls of ezq.c that a list of operations makes. `malloc j` is what the j-th call of `malloc`
-- from the first returns.
module _ (malloc : ℕ → Ptr) where
  abbrev pub call : ℕ → Ends → Op → M (ℕ × Ends)
  call k e (put_back d) = enqueue_ends (malloc k) d e
  call k e (put_front d) = priority_enqueue_ends (malloc k) d e
  call k e take_front = dequeue_ends e
  call k e peek_front = do d ← peek_ends queue_front e; pure (d, e)
  call k e restart = restart_ends e
  call k e reset = reset_ends e

  unfoldable pub calls : ℕ → Ends → List Op → M (List ℕ)
  calls k e [] = pure []
  calls k e (op ∷ ops) = do (r, e') ← call k e op; rs ← calls (k + 1) e' ops; pure (r ∷ rs)

  -- From the k-th call on `malloc` succeeds, at distinct addresses that hold no node.
  pub record IsFresh (k : ℕ) (m : Mem) : Type 0 where
    pub ne_null : (j : ℕ) → k ≤ j → malloc j ≢ null
    pub unused : (j : ℕ) → k ≤ j → m.cell (malloc j) ≡ none
    pub injective : (i j : ℕ) → malloc i ≡ malloc j → i ≡ j

  IsFresh-suc : {k : ℕ} {m : Mem} → IsFresh k m → IsFresh (k + 1) m
  IsFresh-suc f = record {
    ne_null = λ j h. f.ne_null j (omega arith);
    unused = λ j h. f.unused j (omega arith);
    injective = f.injective;
  }

  IsFresh-same :
      {k : ℕ} {m g : Mem} (xs : Cells)
      → IsFresh k m
      → ((j : ℕ) → k + 1 ≤ j → has (malloc j) xs ≡ false)
      → SameOutside xs m g
      → IsFresh (k + 1) g
  IsFresh-same xs f out same = record {
    ne_null = λ j h. f.ne_null j (omega arith);
    unused = λ j h. same (malloc j) (out j h) ∙ f.unused j (omega arith);
    injective = f.injective;
  }

  -- One call: the reply and the contents that the specification gives.
  record Stepped (k : ℕ) (c : Contents) (op : Op) (r : ℕ) (e : Ends) (g : Mem) : Type 0 where
    before : Ptr
    old : Cells
    act : Cells
    valid : IsQueue g e before old act
    agrees : step c op ≡ (r, contents old act)
    fresh : IsFresh (k + 1) g

  module _ {m : Mem} {e : Ends} {before : Ptr} {old act : Cells} (k : ℕ)
      (is : IsQueue m e before old act) (f : IsFresh k m) where
    later : (j : ℕ) → k + 1 ≤ j → (has (malloc j) (old ++ act) ≡ false) × (malloc j ≢ malloc k)
    later j h =
        (fresh-has (malloc j) is (f.unused j (omega arith)), λ z. omega (arith, f.injective j k z))

    back-Stepped :
        (d : Ptr)
        → Ensures
            (λ (r, e') g. Stepped k (contents old act) (put_back d) r e' g)
            (enqueue_ends (malloc k) d e m)
    unfolding step
    back-Stepped d =
        Ensures-mono {A = ℕ × Ends}
          (λ (code, e') g. (code ≡ 0) × Added before (malloc k) d old act e' m g) _ _
          (enqueue-append (malloc k) d is (f.ne_null k (omega arith)) (f.unused k (omega arith)))
          (λ (r, e') g (z, p). record {
            before = before;
            old = old;
            act = act ++ ((malloc k, d) ∷ []);
            valid = p.valid;
            agrees = λ i. (
              sym z i,
              record {
                handed = values old;
                queued = sym (map-append (λ c. c.1) act ((malloc k, d) ∷ [])) i;
              },
            );
            fresh = IsFresh-same (old ++ (act ++ ((malloc k, d) ∷ []))) f (out d) p.same;
          })
      where
        out :
            (d : Ptr) (j : ℕ)
            → k + 1 ≤ j
            → has (malloc j) (old ++ (act ++ ((malloc k, d) ∷ []))) ≡ false
        out d j h = ground (
          arith,
          later j h,
          has-append (malloc j) old (act ++ ((malloc k, d) ∷ [])),
          has-append (malloc j) act ((malloc k, d) ∷ []),
          has-append (malloc j) old act,
        )

    front-Stepped :
        (d : Ptr)
        → Ensures
            (λ (r, e') g. Stepped k (contents old act) (put_front d) r e' g)
            (priority_enqueue_ends (malloc k) d e m)
    unfolding step
    front-Stepped d =
        Ensures-mono {A = ℕ × Ends}
          (λ (code, e') g. (code ≡ 0) × Pushed before (malloc k) d old act e' m g) _ _
          (priority_enqueue-cons (malloc k) d is (f.ne_null k (omega arith))
            (f.unused k (omega arith)))
          (λ (r, e') g (z, p). record {
            before = before;
            old = old;
            act = (malloc k, d) ∷ act;
            valid = p.valid;
            agrees = λ i. (sym z i, contents old ((malloc k, d) ∷ act));
            fresh = IsFresh-same (old ++ ((malloc k, d) ∷ act)) f (out d) p.same;
          })
      where
        out : (d : Ptr) (j : ℕ) → k + 1 ≤ j → has (malloc j) (old ++ ((malloc k, d) ∷ act)) ≡ false
        out d j h = ground (
          arith,
          later j h,
          has-append (malloc j) old ((malloc k, d) ∷ act),
          has-append (malloc j) old act,
        )

    restart-Stepped :
        Ensures (λ (r, e') g. Stepped k (contents old act) restart r e' g) (restart_ends e m)
    unfolding step
    restart-Stepped =
        Ensures-mono {A = ℕ × Ends}
          (λ (code, e') g. (code ≡ 0) × (g ≡ m) × IsQueue g e' before [] (old ++ act)) _ _
          (restart-IsQueue is)
          (λ (r, e') g (z, same, v). record {
            before = before;
            old = [];
            act = old ++ act;
            valid = v;
            agrees = λ i.
                (sym z i, record { handed = []; queued = sym (map-append (λ c. c.1) old act) i });
            fresh = subst (IsFresh (k + 1)) (sym same) (IsFresh-suc f);
          })

    reset-Stepped :
        Ensures (λ (r, e') g. Stepped k (contents old act) reset r e' g) (reset_ends e m)
    unfolding step
    reset-Stepped =
        Ensures-mono {A = ℕ × Ends}
          (λ (code, e') g. (code ≡ 0) × (g ≡ m) × IsQueue g e' before (old ++ act) []) _ _
          (reset-IsQueue is)
          (λ (r, e') g (z, same, v). record {
            before = before;
            old = old ++ act;
            act = [];
            valid = v;
            agrees = λ i.
                (sym z i, record { handed = sym (map-append (λ c. c.1) old act) i; queued = [] });
            fresh = subst (IsFresh (k + 1)) (sym same) (IsFresh-suc f);
          })

  take-Stepped :
      {m : Mem} {e : Ends} {before : Ptr} {old : Cells} (act : Cells) (k : ℕ)
      → IsQueue m e before old act
      → IsFresh k m
      → Ensures (λ (r, e') g. Stepped k (contents old act) take_front r e' g) (dequeue_ends e m)
  unfolding step
  take-Stepped {before} {old} [] k is f = rw (dequeue-nil is) (record {
    before = before;
    old = old;
    act = [];
    valid = is;
    agrees = refl;
    fresh = IsFresh-suc f;
  })
  take-Stepped {m} {before} {old} ((p, d) ∷ act) k is f =
      Ensures-mono {A = ℕ × Ends}
        (λ (d', e') g. (d' ≡ d) × (g ≡ m) × IsQueue g e' before (old ++ ((p, d) ∷ [])) act) _ _
        (dequeue-cons is)
        (λ (r, e') g (z, same, v). record {
          before = before;
          old = old ++ ((p, d) ∷ []);
          act = act;
          valid = v;
          agrees = λ i. (
            sym z i,
            record {
              handed = sym (map-append (λ c. c.1) old ((p, d) ∷ [])) i;
              queued = values act;
            },
          );
          fresh = subst (IsFresh (k + 1)) (sym same) (IsFresh-suc f);
        })

  peek-Stepped :
      {m : Mem} {e : Ends} {before : Ptr} {old : Cells} (act : Cells) (k : ℕ)
      → IsQueue m e before old act
      → IsFresh k m
      → Ensures
          (λ (r, e') g. Stepped k (contents old act) peek_front r e' g)
          (call k e peek_front m)
  unfolding step
  peek-Stepped {before} {old} [] k is f = rw (peek_front-nil is) (record {
    before = before;
    old = old;
    act = [];
    valid = is;
    agrees = refl;
    fresh = IsFresh-suc f;
  })
  peek-Stepped {before} {old} ((p, d) ∷ act) k is f = rw (peek_front-cons is) (record {
    before = before;
    old = old;
    act = (p, d) ∷ act;
    valid = is;
    agrees = refl;
    fresh = IsFresh-suc f;
  })

  call-Stepped :
      {m : Mem} {e : Ends} {before : Ptr} {old act : Cells} (k : ℕ) (op : Op)
      → IsQueue m e before old act
      → IsFresh k m
      → Ensures (λ (r, e') g. Stepped k (contents old act) op r e' g) (call k e op m)
  call-Stepped k (put_back d) is f = back-Stepped k is f d
  call-Stepped k (put_front d) is f = front-Stepped k is f d
  call-Stepped {act} k take_front is f = take-Stepped act k is f
  call-Stepped {act} k peek_front is f = peek-Stepped act k is f
  call-Stepped k restart is f = restart-Stepped k is f
  call-Stepped k reset is f = reset-Stepped k is f

  -- No sequence of `enqueue`, `priorityEnqueue`, `dequeue`, `peekQueue(QUEUE_FRONT)`,
  -- `restartQueue` and `resetQueue` on a valid queue faults, and its replies are those of the
  -- specification, as long as `malloc` keeps returning unused addresses.
  pub calls_refines :
      (k : ℕ) (ops : List Op) {m : Mem} {e : Ends} {before : Ptr} {old act : Cells}
      → IsQueue m e before old act
      → IsFresh k m
      → Ensures (λ rs _. rs ≡ replies (contents old act) ops) (calls k e ops m)
  unfolding calls replies
  calls_refines k [] is f = refl
  calls_refines k (op ∷ ops) {m} {e} {old} {act} is f =
      Ensures-bind _ _ (call k e op m) _ (call-Stepped k op is f) λ (r, e') g s.
        Ensures-bind _ _ (calls (k + 1) e' ops g) _ (calls_refines (k + 1) ops s.valid s.fresh)
          λ rs _ eq. rw s.agrees (ap (λ l. r ∷ l) eq)
