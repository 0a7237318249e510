-- ===== src/Ezq/Front.antt =====
-- `priorityEnqueue` with nodes still queued: the new node goes before `front`.
use getmatvar.Common.{
  ◌+◌, ◌≡◌, ◌≢◌, refl, sym, ◌∙◌, subst, inl, true, false, none, some, [], ◌∷◌, ◌++◌, arith,
  length-append,
}
use getmatvar.Heap.{Ptr, null, node, Cell, Mem, write, load, put, set_next, set_prev}
use getmatvar.Heap.Chain.{
  Cells, first, last, has, Chain, Chain-append, Chain-left, Chain-right, Chain-frame, first-append,
  last-append, has-append, not-has-append, ne_of_not-has, Distinct-left, Distinct-right,
  Distinct-apart, Distinct-apart_left, Distinct-insert, has-first, first_of_ne,
}
use getmatvar.Ezq.{Ends, enqueue_front}
use getmatvar.Ezq.Inv.{Ensures, IsQueue, SameOutside, fresh-has}

abbrev front_ends : Ptr → Ptr → Ends → Ends
front_ends fresh abs e = record {
  abs_front = abs;
  front = fresh;
  back = e.back;
  length = e.length + 1;
  abs_length = e.abs_length + 1;
}

-- With nothing handed out, `front` is the first node.
front_run_first :
    (m : Mem) (e : Ends) (fresh d f pf nf df : Ptr)
    → e.front ≡ f
    → e.abs_front ≡ f
    → f ≢ null
    → m.cell f ≡ some (node pf nf df)
    → fresh ≢ f
    → enqueue_front fresh d e m
      ≡ some (
        front_ends fresh fresh e,
        record m {
          cell = write (write m.cell fresh (some (node pf f d))) f (some (node fresh nf df));
        },
      )
unfolding enqueue_front load put set_next set_prev write
front_run_first m e fresh d f pf nf df at abs nn ef ne = ground arith

-- Otherwise the node before `front` is relinked too.
front_run_inner :
    (m : Mem) (e : Ends) (fresh d f nf df b pb db : Ptr)
    → e.front ≡ f
    → e.abs_front ≢ f
    → f ≢ null
    → m.cell f ≡ some (node b nf df)
    → m.cell b ≡ some (node pb f db)
    → b ≢ null
    → fresh ≢ f
    → fresh ≢ b
    → b ≢ f
    → enqueue_front fresh d e m
      ≡ some (
        front_ends fresh e.abs_front e,
        record m {
          cell =
              write
                (write (write m.cell fresh (some (node b f d))) b (some (node pb fresh db)))
                f
                (some (node fresh nf df));
        },
      )
unfolding enqueue_front load put set_next set_prev write
front_run_inner m e fresh d f nf df b pb db at abs nn ef eb nb n1 n2 n3 = ground arith

-- The new node becomes the first still queued.
pub record Pushed (before fresh d : Ptr) (old act : Cells) (e : Ends) (m g : Mem) : Type 0 where
  pub valid : IsQueue g e before old ((fresh, d) ∷ act)
  pub same : SameOutside (old ++ ((fresh, d) ∷ act)) m g
  pub log : g.released ≡ m.released

front-is :
    {m : Mem} {e : Ends} {before f df : Ptr} {old act : Cells}
    → IsQueue m e before old ((f, df) ∷ act)
    → e.front ≡ f
front-is is = ground (arith, is.front)

pub front-Pushed_first :
    (m : Mem) (e : Ends) (before f df fresh d : Ptr) (act : Cells)
    → IsQueue m e before [] ((f, df) ∷ act)
    → fresh ≢ null
    → m.cell fresh ≡ none
    → Ensures (λ e' g. Pushed before fresh d [] ((f, df) ∷ act) e' m g) (enqueue_front fresh d e m)
unfolding write
front-Pushed_first m e before f df fresh d act is ne unused =
    rw
      (front_run_first m e fresh d f before (first act null) df at is.abs_front is.chain.0
        is.chain.1 apart)
      (record {
        valid = record {
          chain = (
            ne,
            ground (arith, apart),
            (is.chain.0, ground arith, Chain-frame m.cell _ f act null spared is.chain.2),
          );
          distinct = (out, is.distinct);
          abs_front = refl;
          back = is.back;
          front = inl refl;
          count = omega (arith, is.count);
          abs_count = omega (arith, is.abs_count);
          empty = λ z. absurd (omega arith);
        };
        same = λ a o. ground (arith, at);
        log = refl;
      })
  where
    at : e.front ≡ f
    at = front-is is

    out : has fresh ((f, df) ∷ act) ≡ false
    out = fresh-has fresh is unused

    apart : fresh ≢ f
    apart = ne_of_not-has fresh f df act out

    spared :
        (a : Ptr)
        → has a act ≡ true
        → write
            (write m.cell fresh (some (node before f d)))
            f
            (some (node fresh (first act null) df))
            a
          ≡ m.cell a
    spared a i = ground (arith, is.distinct, out)

-- With nodes handed out, the last of them is `b`.
module _ (m : Mem) (e : Ends) (before f df b db : Ptr) (xs act : Cells) (fresh d : Ptr)
    (is : IsQueue m e before (xs ++ ((b, db) ∷ [])) ((f, df) ∷ act)) (ne : fresh ≢ null)
    (unused : m.cell fresh ≡ none) where
  last_old : (q : Ptr) → last q (xs ++ ((b, db) ∷ [])) ≡ b
  last_old q = last-append q xs ((b, db) ∷ [])

  left : Chain m.cell before (xs ++ ((b, db) ∷ [])) f
  left = Chain-left m.cell before (xs ++ ((b, db) ∷ [])) ((f, df) ∷ act) null is.chain

  at_b : (b ≢ null) × (m.cell b ≡ some (node (last before xs) f db)) × Unit {0}
  at_b = Chain-right m.cell before xs ((b, db) ∷ []) f left

  at_f : (f ≢ null) × (m.cell f ≡ some (node b (first act null) df)) × Chain m.cell f act null
  at_f =
      subst (λ q. Chain m.cell q ((f, df) ∷ act) null) (last_old before)
        (Chain-right m.cell before (xs ++ ((b, db) ∷ [])) ((f, df) ∷ act) null is.chain)

  out : (has fresh (xs ++ ((b, db) ∷ [])) ≡ false) × (has fresh ((f, df) ∷ act) ≡ false)
  out = not-has-append fresh (xs ++ ((b, db) ∷ [])) ((f, df) ∷ act) (fresh-has fresh is unused)

  out_left : (has fresh xs ≡ false) × (has fresh ((b, db) ∷ []) ≡ false)
  out_left = not-has-append fresh xs ((b, db) ∷ []) out.0

  b_out : has b ((f, df) ∷ act) ≡ false
  b_out =
      Distinct-apart (xs ++ ((b, db) ∷ [])) ((f, df) ∷ act) b is.distinct
        (ground (arith, has-append b xs ((b, db) ∷ [])))

  apart : (fresh ≢ b) × (fresh ≢ f) × (b ≢ f)
  apart = (
    ne_of_not-has fresh b db [] out_left.1,
    ne_of_not-has fresh f df act out.1,
    ne_of_not-has b f df act b_out,
  )

  new_cell : Cell
  new_cell =
      write
        (write (write m.cell fresh (some (node b f d))) b (some (node (last before xs) fresh db))) f
        (some (node fresh (first act null) df))

  new_cell-fresh : new_cell fresh ≡ some (node b f d)
  unfolding new_cell write
  new_cell-fresh = ground (arith, apart)

  new_cell-b : new_cell b ≡ some (node (last before xs) fresh db)
  unfolding new_cell write
  new_cell-b = ground (arith, apart)

  new_cell-f : new_cell f ≡ some (node fresh (first act null) df)
  unfolding new_cell write
  new_cell-f = ground arith

  new_cell-else : (a : Ptr) → a ≢ fresh → a ≢ b → a ≢ f → new_cell a ≡ m.cell a
  unfolding new_cell write
  new_cell-else a p q r = ground arith

  spared_left : (a : Ptr) → has a xs ≡ true → new_cell a ≡ m.cell a
  spared_left a i = ground (
    arith,
    new_cell-else a,
    out_left,
    Distinct-apart xs ((b, db) ∷ []) a
        (Distinct-left (xs ++ ((b, db) ∷ [])) ((f, df) ∷ act) is.distinct),
    Distinct-apart (xs ++ ((b, db) ∷ [])) ((f, df) ∷ act) a is.distinct,
    has-append a xs ((b, db) ∷ []),
  )

  spared_right : (a : Ptr) → has a act ≡ true → new_cell a ≡ m.cell a
  spared_right a i = ground (
    arith,
    new_cell-else a,
    out,
    b_out,
    Distinct-right (xs ++ ((b, db) ∷ [])) ((f, df) ∷ act) is.distinct,
  )

  new_chain : Chain new_cell before ((xs ++ ((b, db) ∷ [])) ++ ((fresh, d) ∷ (f, df) ∷ act)) null
  new_chain =
      Chain-append new_cell before (xs ++ ((b, db) ∷ [])) ((fresh, d) ∷ (f, df) ∷ act) null
        (Chain-append new_cell before xs ((b, db) ∷ []) fresh
          (Chain-frame m.cell new_cell before xs b spared_left
            (Chain-left m.cell before xs ((b, db) ∷ []) f left))
          (at_b.0, new_cell-b, tt))
        (rw last_old (
          ne,
          new_cell-fresh,
          (at_f.0, new_cell-f, Chain-frame m.cell new_cell f act null spared_right at_f.2),
        ))

  first_held : (nx : Ptr) → first (xs ++ ((b, db) ∷ [])) nx ≡ first (xs ++ ((b, db) ∷ [])) f
  first_held nx =
      first_of_ne (xs ++ ((b, db) ∷ [])) nx f (λ z. omega (arith, length-append xs ((b, db) ∷ [])))

  abs_first : e.abs_front ≡ first (xs ++ ((b, db) ∷ [])) f
  abs_first = is.abs_front ∙ first-append (xs ++ ((b, db) ∷ [])) ((f, df) ∷ act) null

  first_ne : e.abs_front ≢ f
  first_ne = λ z. ground (
    arith,
    has-first (xs ++ ((b, db) ∷ [])) f (λ z. omega (arith, length-append xs ((b, db) ∷ []))),
    abs_first,
    tail_apart,
  )
    where
      tail_apart : has f (xs ++ ((b, db) ∷ [])) ≡ false
      tail_apart =
          Distinct-apart_left (xs ++ ((b, db) ∷ [])) ((f, df) ∷ act) f is.distinct (ground arith)

  new_valid :
      IsQueue
        (record m { cell = new_cell })
        (front_ends fresh e.abs_front e)
        before
        (xs ++ ((b, db) ∷ []))
        ((fresh, d) ∷ (f, df) ∷ act)
  new_valid = record {
    chain = new_chain;
    distinct = Distinct-insert (xs ++ ((b, db) ∷ [])) ((f, df) ∷ act) fresh d is.distinct out;
    abs_front =
        abs_first
        ∙ sym (first_held fresh)
        ∙ sym (first-append (xs ++ ((b, db) ∷ [])) ((fresh, d) ∷ (f, df) ∷ act) null);
    back =
        is.back
        ∙ last-append null (xs ++ ((b, db) ∷ [])) ((f, df) ∷ act)
        ∙ sym (last-append null (xs ++ ((b, db) ∷ [])) ((fresh, d) ∷ (f, df) ∷ act));
    front = inl refl;
    count = omega (arith, is.count);
    abs_count = omega (
      arith,
      is.abs_count,
      length-append (xs ++ ((b, db) ∷ [])) ((f, df) ∷ act),
      length-append (xs ++ ((b, db) ∷ [])) ((fresh, d) ∷ (f, df) ∷ act),
    );
    empty = λ z.
        absurd (omega (arith, length-append (xs ++ ((b, db) ∷ [])) ((fresh, d) ∷ (f, df) ∷ act)));
  }

  new_same :
      SameOutside
        ((xs ++ ((b, db) ∷ [])) ++ ((fresh, d) ∷ (f, df) ∷ act))
        m
        (record m { cell = new_cell })
  new_same a o =
      new_cell-else a (ne_of_not-has a fresh d ((f, df) ∷ act) apart_new.1)
        (ne_of_not-has a b db [] (not-has-append a xs ((b, db) ∷ []) apart_new.0).1)
        (ground (arith, apart_new))
    where
      apart_new :
          (has a (xs ++ ((b, db) ∷ [])) ≡ false) × (has a ((fresh, d) ∷ (f, df) ∷ act) ≡ false)
      apart_new = not-has-append a (xs ++ ((b, db) ∷ [])) ((fresh, d) ∷ (f, df) ∷ act) o

  pub front-Pushed_inner :
      Ensures
        (λ e' g. Pushed before fresh d (xs ++ ((b, db) ∷ [])) ((f, df) ∷ act) e' m g)
        (enqueue_front fresh d e m)
  unfolding new_cell
  front-Pushed_inner =
      rw
        (front_run_inner m e fresh d f (first act null) df b (last before xs) db (front-is is)
          first_ne at_f.0 at_f.1 at_b.1 at_b.0 apart.1 apart.0 apart.2)
        (record { valid = new_valid; same = new_same; log = refl })
