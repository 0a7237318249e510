-- ===== src/Ezq/Clean.antt =====
-- `cleanQueue`: the nodes handed out are freed.
use getmatvar.Common.{
  ℕ, zero, suc, ◌+◌, ◌-◌, ◌≤◌, ◌<◌, ◌≡◌, ◌≢◌, refl, ◌∙◌, inl, true, false, none, some, [], ◌∷◌,
  ◌++◌, arith, length, length-append,
}
use getmatvar.Heap.{Ptr, null, Mem, write, load, free, call_free, and_then, pure}
use getmatvar.Heap.Chain.{
  Cells, first, last, has, Distinct, Chain, Chain-frame, Chain-right, Distinct-right,
  Distinct-apart_left, last-append, has-append,
}
use getmatvar.Ezq.{Ends, decrease, clean_loop, clean_ends}
use getmatvar.Ezq.Inv.{Ensures, IsQueue}
use getmatvar.Ezq.Flush.{released_by, Without}

clean_round :
    (fuel : ℕ) (m : Mem) (e : Ends) (p pv nx d : Ptr)
    → p ≢ null
    → e.abs_front ≡ p
    → e.front ≢ p
    → m.cell p ≡ some (record { prev = pv; next = nx; data_ptr = d })
    → clean_loop (suc fuel) true e m
      ≡ clean_loop fuel true
          (record e { abs_front = nx; abs_length = decrease e.abs_length })
          (record {
            cell = write m.cell p none;
            released = released_by true ((p, d) ∷ []) m.released;
          })
unfolding clean_loop load free call_free
clean_round fuel m e p pv nx d ne at apart n = ground arith

decrease_of_pos : (n : ℕ) → 0 < n → decrease n ≡ n - 1
decrease_of_pos zero h = absurd (omega arith)
decrease_of_pos (suc n) h = omega arith

record Cleaned (old : Cells) (f : Ptr) (e : Ends) (m : Mem) (e' : Ends) (g : Mem) : Type 0 where
  ends : e' ≡ record e { abs_front = f; abs_length = e.abs_length - length old }
  without : Without old m g
  log : g.released ≡ released_by true old m.released

ne_of_out : (p f df : Ptr) (xs act : Cells) → has p (xs ++ ((f, df) ∷ act)) ≡ false → f ≢ p
ne_of_out p f df xs act out = ground (arith, has-append p xs ((f, df) ∷ act))

clean_loop-Cleaned :
    (fuel : ℕ) (m : Mem) (e : Ends) (pv : Ptr) (old : Cells) (f df : Ptr) (act : Cells)
    → Chain m.cell pv (old ++ ((f, df) ∷ act)) null
    → Distinct (old ++ ((f, df) ∷ act))
    → e.abs_front ≡ first (old ++ ((f, df) ∷ act)) null
    → e.front ≡ f
    → length old < fuel
    → length old ≤ e.abs_length
    → Ensures (λ e' g. Cleaned old f e m e' g) (clean_loop fuel true e m)
clean_loop-Cleaned zero m e pv old f df act c dd at front lt le = absurd (omega arith)
clean_loop-Cleaned (suc fuel) m e pv [] f df act c dd at front lt le =
    rw stops (record { ends = ground (arith, at); without = λ a. refl; log = refl })
  where
    stops : clean_loop (suc fuel) true e m ≡ some (e, m)
    stops = unfold clean_loop in ground (arith, at, front)
clean_loop-Cleaned (suc fuel) m e pv ((p, d) ∷ xs) f df act (ne, n, c) (out, dd) at front lt le =
    rw (clean_round fuel m e p pv (first (xs ++ ((f, df) ∷ act)) null) d ne at apart n) (
      widen _ (
        clean_loop-Cleaned fuel m' e' p xs f df act
          (Chain-frame m.cell m'.cell p (xs ++ ((f, df) ∷ act)) null spared c) dd refl front
          (omega arith) shorter))
  where
    apart : e.front ≢ p
    apart z = ne_of_out p f df xs act out (cc (front, z))

    m' : Mem
    m' = record { cell = write m.cell p none; released = released_by true ((p, d) ∷ []) m.released }

    e' : Ends
    e' = record e {
      abs_front = first (xs ++ ((f, df) ∷ act)) null;
      abs_length = decrease e.abs_length;
    }

    fewer : decrease e.abs_length ≡ e.abs_length - 1
    fewer = decrease_of_pos e.abs_length (omega arith)

    shorter : length xs ≤ decrease e.abs_length
    shorter = omega (arith, fewer)

    spared : (a : Ptr) → has a (xs ++ ((f, df) ∷ act)) ≡ true → write m.cell p none a ≡ m.cell a
    spared a i = unfold write in ground arith

    widen :
        (r : _)
        → Ensures {A = Ends} (λ e'' g. Cleaned xs f e' m' e'' g) r
        → Ensures {A = Ends} (λ e'' g. Cleaned ((p, d) ∷ xs) f e m e'' g) r
    widen none h = h
    widen (some (e'', g)) h = record {
      ends = ground (arith, h.ends, fewer);
      without = λ a. unfold write in ground (arith, h.without a);
      log = h.log;
    }

-- `cleanQueue` on a valid queue with nodes still queued and a `free_function`: it returns 0, frees exactly
-- the nodes handed out, hands their data that is not NULL to `free_function` in order, and leaves
-- the nodes still queued. The first of these keeps a `prev` pointer to a node that was freed.
pub clean-IsQueue :
    {m : Mem} {e : Ends} {before f df : Ptr} {old act : Cells}
    → IsQueue m e before old ((f, df) ∷ act)
    → Ensures
        (λ (code, e') g.
          ◌≡◌ {A = ℕ} code 0
          × IsQueue g e' (last before old) [] ((f, df) ∷ act)
          × Without old m g
          × (g.released ≡ released_by true old m.released))
        (clean_ends true e m)
unfolding clean_ends
clean-IsQueue {m} {e} {before} {f} {df} {old} {act} is = finish _ (
    clean_loop-Cleaned (e.abs_length + 1) m e before old f df act is.chain is.distinct is.abs_front
      at_front (omega (arith, enough)) enough)
  where
    at_front : e.front ≡ f
    at_front = ground (arith, is.front)

    enough : length old ≤ e.abs_length
    enough = omega (arith, is.abs_count, length-append old ((f, df) ∷ act))

    finish :
        (r : _)
        → Ensures {A = Ends} (λ e' g. Cleaned old f e m e' g) r
        → Ensures {A = ℕ × Ends}
            (λ (code, e') g.
              (code ≡ 0)
              × IsQueue g e' (last before old) [] ((f, df) ∷ act)
              × Without old m g
              × (g.released ≡ released_by true old m.released))
            (and_then r (λ e'. pure (0, e')))
    finish none h = h
    finish (some (e', g)) h = (
      refl,
      rw h.ends (record {
        chain =
            Chain-frame m.cell g.cell (last before old) ((f, df) ∷ act) null
              (λ a i.
                ground (arith, h.without a, Distinct-apart_left old ((f, df) ∷ act) a is.distinct))
              (Chain-right m.cell before old ((f, df) ∷ act) null is.chain);
        distinct = Distinct-right old ((f, df) ∷ act) is.distinct;
        abs_front = refl;
        back = is.back ∙ last-append null old ((f, df) ∷ act);
        front = inl at_front;
        count = is.count;
        abs_count = omega (arith, is.abs_count, length-append old ((f, df) ∷ act));
        empty = λ z. absurd (omega arith);
      }),
      h.without,
      h.log,
    )
