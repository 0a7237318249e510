-- ===== src/Ezq/Priority.antt =====
-- `priorityEnqueue` on every queue.
use getmatvar.Common.{
  ℕ, ◌≡◌, ◌≢◌, sym, subst, inl, inr, true, false, none, [], ◌∷◌, arith, length-append, ◌==◌,
  ==_false, Bool-cases,
}
use getmatvar.Heap.{Ptr, null, Mem}
use getmatvar.Heap.Chain.{Cells, snoc}
use getmatvar.Ezq.{Ends, enqueue_front, priority_enqueue_ends}
use getmatvar.Ezq.Inv.{Ensures, Ensures-mono, Ensures-with_code, IsQueue}
use getmatvar.Ezq.Enqueue.{Added, back-Added, first-Added_of_empty}
use getmatvar.Ezq.Front.{Pushed, front-Pushed_first, front-Pushed_inner}

Added-Pushed :
    {before fresh d : Ptr} {old : Cells} {m : Mem} (e : Ends) (g : Mem)
    → Added before fresh d old [] e m g
    → Pushed before fresh d old [] e m g
Added-Pushed e g p = record { valid = p.valid; same = p.same; log = p.log }

-- With every node handed out, `priorityEnqueue` appends.
nothing_queued :
    (m : Mem) (e : Ends) (before fresh d : Ptr) (old : Cells)
    → IsQueue m e before old []
    → fresh ≢ null
    → m.cell fresh ≡ none
    → Ensures
        (λ (code, e') g. ◌≡◌ {A = ℕ} code 0 × Pushed before fresh d old [] e' m g)
        (priority_enqueue_ends fresh d e m)
unfolding priority_enqueue_ends
nothing_queued m e before fresh d old is ne unused =
    rw (==_false fresh null ne) (elim (Bool-cases (e.abs_length == 0)) [
      | inl z ↦ rw z (
          Ensures-with_code _ _ (
            Ensures-mono _ _ _
              (first-Added_of_empty m e before fresh d old [] is (ground (arith, is.abs_count)) ne)
              Added-Pushed))
      | inr nz ↦
          rw (nz, no_length)
            (Ensures-with_code _ _ (
              Ensures-mono _ _ _ (back-Added fresh d is ne unused (ground (arith, is.abs_count)))
                Added-Pushed))
    ])
  where
    no_length : (e.length == 0) ≡ true
    no_length = ground (arith, is.count)

some_queued :
    (m : Mem) (e : Ends) (before f df fresh d : Ptr) (old act : Cells)
    → IsQueue m e before old ((f, df) ∷ act)
    → fresh ≢ null
    → m.cell fresh ≡ none
    → Ensures (λ e' g. Pushed before fresh d old ((f, df) ∷ act) e' m g) (enqueue_front fresh d e m)
some_queued m e before f df fresh d [] act is ne unused =
    front-Pushed_first m e before f df fresh d act is ne unused
some_queued m e before f df fresh d (x ∷ old) act is ne unused =
    let s = snoc x old in
    subst
      (λ o.
        Ensures (λ e' g. Pushed before fresh d o ((f, df) ∷ act) e' m g)
          (enqueue_front fresh d e m))
      (sym s.splits)
      (front-Pushed_inner m e before f df s.ptr s.dat s.front act fresh d
        (subst (λ o. IsQueue m e before o ((f, df) ∷ act)) s.splits is) ne unused)

-- On a valid queue and given an unused address, `priorityEnqueue` returns 0 and puts the node before all those still
-- queued and behind those handed out. Nothing outside the queue changes.
pub priority_enqueue-cons :
    {m : Mem} {e : Ends} {before : Ptr} {old act : Cells} (fresh d : Ptr)
    → IsQueue m e before old act
    → fresh ≢ null
    → m.cell fresh ≡ none
    → Ensures
        (λ (code, e') g. ◌≡◌ {A = ℕ} code 0 × Pushed before fresh d old act e' m g)
        (priority_enqueue_ends fresh d e m)
unfolding priority_enqueue_ends
priority_enqueue-cons {m} {e} {before} {old} {act = []} fresh d is ne unused =
    nothing_queued m e before fresh d old is ne unused
priority_enqueue-cons {m} {e} {before} {old} {act = (f, df) ∷ act} fresh d is ne unused =
    rw (==_false fresh null ne, held, queued)
      (Ensures-with_code _ _ (some_queued m e before f df fresh d old act is ne unused))
  where
    queued : (e.length == 0) ≡ false
    queued = ground (arith, is.count)

    held : (e.abs_length == 0) ≡ false
    held = ground (arith, is.abs_count, length-append old ((f, df) ∷ act))
