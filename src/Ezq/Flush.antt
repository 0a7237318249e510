-- ===== src/Ezq/Flush.antt =====
-- `flushQueue`: every node is freed, and every data pointer handed to `free_function` once.
use getmatvar.Common.{
  ℕ, suc, ◌≡◌, ◌≢◌, refl, Bool, true, not, ◌&&◌, none, some, List, [], ◌∷◌, ◌++◌, arith, length,
  ◌==◌, if◌then◌else◌,
}
use getmatvar.Heap.{Ptr, null, Mem, write, load, free, call_free, and_then, pure}
use getmatvar.Heap.Chain.{Cells, first, has, Distinct, Chain, Chain-frame}
use getmatvar.Ezq.{Ends, no_ends, flush_loop, flush_ends}
use getmatvar.Ezq.Inv.{Ensures, IsQueue}

-- What `free_function` was called with, the last first, `log` being what it was called with before.
abbrev pub released_by : Bool → Cells → List Ptr → List Ptr
released_by has_free [] log = log
released_by has_free ((p, d) ∷ xs) log =
    released_by has_free xs (if not (d == null) && has_free then d ∷ log else log)

-- `g` is `m` less the nodes of `xs`.
abbrev pub Without : Cells → Mem → Mem → Type 0
Without xs m g = (a : Ptr) → g.cell a ≡ (if has a xs then none else m.cell a)

flush_round :
    (has_free : Bool) (left : ℕ) (m : Mem) (p pv nx d : Ptr)
    → p ≢ null
    → m.cell p ≡ some (record { prev = pv; next = nx; data_ptr = d })
    → flush_loop has_free (suc left) p m
      ≡ flush_loop has_free left nx (record {
        cell = write m.cell p none;
        released = if not (d == null) && has_free then d ∷ m.released else m.released;
      })
unfolding flush_loop load free call_free
flush_round has_free left m p pv nx d ne e = ground arith

flush_loop-Without :
    (has_free : Bool) (m : Mem) (pv : Ptr) (xs : Cells)
    → Chain m.cell pv xs null
    → Distinct xs
    → Ensures
        (λ _ g. Without xs m g × (g.released ≡ released_by has_free xs m.released))
        (flush_loop has_free (length xs) (first xs null) m)
unfolding flush_loop
flush_loop-Without has_free m pv [] c dd = (λ a. refl, refl)
flush_loop-Without has_free m pv ((p, d) ∷ xs) (ne, e, c) (out, dd) =
    rw (flush_round has_free (length xs) m p pv (first xs null) d ne e) (
      Ensures-Without _
        (flush_loop-Without has_free m' p xs (Chain-frame m.cell m'.cell p xs null spared c) dd))
  where
    m' : Mem
    m' = record {
      cell = write m.cell p none;
      released = if not (d == null) && has_free then d ∷ m.released else m.released;
    }

    spared : (a : Ptr) → has a xs ≡ true → write m.cell p none a ≡ m.cell a
    spared a i = unfold write in ground arith

    Ensures-Without :
        (r : _)
        → Ensures {A = Unit {0}}
            (λ _ g. Without xs m' g × (g.released ≡ released_by has_free xs m'.released))
            r
        → Ensures {A = Unit {0}}
            (λ _ g.
              Without ((p, d) ∷ xs) m g
              × (g.released ≡ released_by has_free ((p, d) ∷ xs) m.released))
            r
    Ensures-Without none h = h
    Ensures-Without (some (a, g)) h = ((λ b. unfold write in ground (arith, h.0 b)), h.1)

-- On a valid queue `flushQueue` returns 0, frees exactly the nodes of the queue, hands each data pointer that is not NULL to
-- `free_function` in order, if there is one, and leaves the queue empty.
pub flush-Without :
    {m : Mem} {e : Ends} {before : Ptr} {old act : Cells} (has_free : Bool)
    → IsQueue m e before old act
    → Ensures
        (λ (code, e') g.
          ◌≡◌ {A = ℕ} code 0
          × (e' ≡ no_ends)
          × Without (old ++ act) m g
          × (g.released ≡ released_by has_free (old ++ act) m.released))
        (flush_ends has_free e m)
unfolding flush_ends
flush-Without {m} {e} {before} {old} {act} has_free is =
    rw (is.abs_count, is.abs_front)
      (finish _ (flush_loop-Without has_free m before (old ++ act) is.chain is.distinct))
  where
    finish :
        (r : _)
        → Ensures {A = Unit {0}}
            (λ _ g.
              Without (old ++ act) m g
              × (g.released ≡ released_by has_free (old ++ act) m.released))
            r
        → Ensures {A = ℕ × Ends}
            (λ (code, e') g.
              (code ≡ 0)
              × (e' ≡ no_ends)
              × Without (old ++ act) m g
              × (g.released ≡ released_by has_free (old ++ act) m.released))
            (and_then r (λ _. pure (0, no_ends)))
    finish none h = h
    finish (some (a, g)) h = (refl, refl, h.0, h.1)
