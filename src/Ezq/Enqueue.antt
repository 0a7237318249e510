-- ===== src/Ezq/Enqueue.antt =====
-- `enqueue` and `priorityEnqueue`: where the new node goes.
use getmatvar.Common.{
  ◌+◌, ◌≡◌, ◌≢◌, refl, sym, ap, ◌∙◌, subst, ◌⊎◌, inl, inr, true, false, none, some, [], ◌∷◌, ◌++◌,
  append_assoc, arith, length, length-append, ◌==◌, if◌then◌else◌, ==_refl, ==_false, Bool-cases,
}
use getmatvar.Heap.{Ptr, null, node, Cell, Mem, write, load, put, set_next}
use getmatvar.Heap.Chain.{
  Cells, first, last, has, Distinct, Chain, Chain-append, Chain-left, Chain-right, Chain-frame,
  first-append, last-append, has-append, not-has-append, ne_of_not-has, Distinct-apart,
  Distinct-snoc, first_of_ne, Snoc-of_ne,
}
use getmatvar.Ezq.{Ends, enqueue_first, enqueue_back, enqueue_ends}
use getmatvar.Ezq.Inv.{Ensures, Ensures-with_code, IsQueue, SameOutside, fresh-has}

-- The heap after a node was linked in behind the last one.
Chain-link_back :
    (h g : Cell) (before : Ptr) (xs : Cells) (b db fresh d : Ptr)
    → Chain h before (xs ++ ((b, db) ∷ [])) null
    → Distinct (xs ++ ((b, db) ∷ []))
    → has fresh (xs ++ ((b, db) ∷ [])) ≡ false
    → fresh ≢ null
    → g fresh ≡ some (node b null d)
    → g b ≡ some (node (last before xs) fresh db)
    → ((a : Ptr) → a ≢ fresh → a ≢ b → g a ≡ h a)
    → Chain g before (xs ++ ((b, db) ∷ (fresh, d) ∷ [])) null
Chain-link_back h g before xs b db fresh d c dd out ne ef eb same =
    Chain-append g before xs ((b, db) ∷ (fresh, d) ∷ []) null
      (Chain-frame h g before xs b spared (Chain-left h before xs ((b, db) ∷ []) null c))
      (right.0, eb, (ne, ef, tt))
  where
    right : Chain h (last before xs) ((b, db) ∷ []) null
    right = Chain-right h before xs ((b, db) ∷ []) null c

    spared : (a : Ptr) → has a xs ≡ true → g a ≡ h a
    spared a i =
        ground
          (arith, same a, Distinct-apart xs ((b, db) ∷ []) a dd, has-append fresh xs ((b, db) ∷ []))

-- What linking behind `back` does to the memory.
enqueue_back-run :
    (m : Mem) (e : Ends) (fresh d pb db : Ptr)
    → e.back ≢ null
    → m.cell e.back ≡ some (node pb null db)
    → fresh ≢ e.back
    → enqueue_back fresh d e m
      ≡ some (
        record {
          abs_front = e.abs_front;
          front = if e.length == 0 then fresh else e.front;
          back = fresh;
          length = e.length + 1;
          abs_length = e.abs_length + 1;
        },
        record m {
          cell =
              write
                (write m.cell fresh (some (node e.back null d)))
                e.back
                (some (node pb fresh db));
        },
      )
unfolding enqueue_back load put set_next write
enqueue_back-run m e fresh d pb db nb eb ne = ground arith

front-added :
    (e : Ends) (act : Cells) (fresh d : Ptr)
    → (e.front ≡ first act null) ⊎ ((act ≡ []) × (e.front ≡ e.back))
    → e.length ≡ length act
    → (if e.length == 0 then fresh else e.front) ≡ first (act ++ ((fresh, d) ∷ [])) null
front-added e [] fresh d at n = ground arith
front-added e ((p, c) ∷ act) fresh d at n = ground arith

-- The fields of the invariant after a node was added at the back.
pub record Added (before fresh d : Ptr) (old act : Cells) (e : Ends) (m g : Mem) : Type 0 where
  pub valid : IsQueue g e before old (act ++ ((fresh, d) ∷ []))
  pub same : SameOutside (old ++ (act ++ ((fresh, d) ∷ []))) m g
  pub log : g.released ≡ m.released

module _ {m : Mem} {e : Ends} {before : Ptr} {old act : Cells} (fresh d : Ptr)
    (is : IsQueue m e before old act) (ne : fresh ≢ null) (unused : m.cell fresh ≡ none) where
  module _ (xs : Cells) (b db : Ptr) (splits : old ++ act ≡ xs ++ ((b, db) ∷ [])) where
    new_ends : Ends
    new_ends = record {
      abs_front = e.abs_front;
      front = if e.length == 0 then fresh else e.front;
      back = fresh;
      length = e.length + 1;
      abs_length = e.abs_length + 1;
    }

    new_cell : Cell
    new_cell =
        write (write m.cell fresh (some (node e.back null d))) e.back
          (some (node (last before xs) fresh db))

    old_chain : Chain m.cell before (xs ++ ((b, db) ∷ [])) null
    old_chain = subst (λ l. Chain m.cell before l null) splits is.chain

    old-Distinct : Distinct (xs ++ ((b, db) ∷ []))
    old-Distinct = subst Distinct splits is.distinct

    at_back : e.back ≡ b
    at_back = cc (is.back, ap (last null) splits, last-append null xs ((b, db) ∷ []))

    right : Chain m.cell (last before xs) ((b, db) ∷ []) null
    right = Chain-right m.cell before xs ((b, db) ∷ []) null old_chain

    out : has fresh (xs ++ ((b, db) ∷ [])) ≡ false
    out = sym (ap (has fresh) splits) ∙ fresh-has fresh is unused

    apart : fresh ≢ b
    apart = ne_of_not-has fresh b db [] (not-has-append fresh xs ((b, db) ∷ []) out).1

    regroup : old ++ (act ++ ((fresh, d) ∷ [])) ≡ xs ++ ((b, db) ∷ (fresh, d) ∷ [])
    regroup =
        sym (append_assoc old act ((fresh, d) ∷ []))
        ∙ ap (λ l. l ++ ((fresh, d) ∷ [])) splits
        ∙ append_assoc xs ((b, db) ∷ []) ((fresh, d) ∷ [])

    new_chain : Chain new_cell before (xs ++ ((b, db) ∷ (fresh, d) ∷ [])) null
    unfolding new_cell write
    new_chain = rw at_back (
        Chain-link_back m.cell
          (write (write m.cell fresh (some (node b null d))) b
            (some (node (last before xs) fresh db)))
          before xs b db fresh d old_chain old-Distinct out ne (ground (arith, apart))
          (ground arith) (λ a p q. ground arith))

    held : length (old ++ act) ≢ 0
    held z = omega (arith, ap length splits, length-append xs ((b, db) ∷ []))

    new_valid :
        IsQueue (record m { cell = new_cell }) new_ends before old (act ++ ((fresh, d) ∷ []))
    unfolding new_ends
    new_valid = record {
      chain = rw regroup new_chain;
      distinct =
          rw (← append_assoc)
            (Distinct-snoc (old ++ act) fresh d is.distinct (fresh-has fresh is unused));
      abs_front =
          is.abs_front
          ∙ first_of_ne (old ++ act) null fresh held
          ∙ sym (first-append (old ++ act) ((fresh, d) ∷ []) null)
          ∙ ap (λ l. first l null) (append_assoc old act ((fresh, d) ∷ []));
      back =
          sym (last-append null (old ++ act) ((fresh, d) ∷ []))
          ∙ ap (last null) (append_assoc old act ((fresh, d) ∷ []));
      front = inl (front-added e act fresh d is.front is.count);
      count = omega (arith, is.count, length-append act ((fresh, d) ∷ []));
      abs_count = omega (
        arith,
        is.abs_count,
        length-append old act,
        length-append act ((fresh, d) ∷ []),
        length-append old (act ++ ((fresh, d) ∷ [])),
      );
      empty = λ z. absurd (
          omega (
            arith,
            length-append act ((fresh, d) ∷ []),
            length-append old (act ++ ((fresh, d) ∷ [])),
          ));
    }

    new_same : SameOutside (old ++ (act ++ ((fresh, d) ∷ []))) m (record m { cell = new_cell })
    unfolding new_cell write
    new_same a o = ground (arith, spared, at_back)
      where
        o' : has a (xs ++ ((b, db) ∷ (fresh, d) ∷ [])) ≡ false
        o' = subst (λ l. has a l ≡ false) regroup o

        spared : (a ≢ b) × (a ≢ fresh)
        spared =
            let o'' = (not-has-append a xs ((b, db) ∷ (fresh, d) ∷ []) o').1 in
            (ground arith, ground arith)

    enqueue_back-Added :
        Ensures (λ e' g. Added before fresh d old act e' m g) (enqueue_back fresh d e m)
    unfolding new_ends new_cell
    enqueue_back-Added =
        rw
          (enqueue_back-run m e fresh d (last before xs) db (λ z. right.0 (sym at_back ∙ z))
            (rw at_back right.1) (λ z. apart (z ∙ at_back)))
          (record { valid = new_valid; same = new_same; log = refl })

  pub back-Added :
      length (old ++ act) ≢ 0
      → Ensures (λ e' g. Added before fresh d old act e' m g) (enqueue_back fresh d e m)
  back-Added held =
      let s = Snoc-of_ne (old ++ act) held in enqueue_back-Added s.front s.ptr s.dat s.splits

first-Added :
    (m : Mem) (e : Ends) (before fresh d : Ptr)
    → IsQueue m e before [] []
    → fresh ≢ null
    → Ensures (λ e' g. Added before fresh d [] [] e' m g) (enqueue_first fresh d e m)
unfolding enqueue_first put write
first-Added m e before fresh d is ne = record {
  valid = record {
    chain = (ne, rw (==_refl fresh) (ap (λ b. some (node b null d)) (sym (is.empty refl))), tt);
    distinct = (refl, tt);
    abs_front = refl;
    back = refl;
    front = inl refl;
    count = omega (arith, is.count);
    abs_count = omega (arith, is.abs_count);
    empty = λ z. absurd (omega arith);
  };
  same = λ a o. ground arith;
  log = refl;
}

pub first-Added_of_empty :
    (m : Mem) (e : Ends) (before fresh d : Ptr) (old act : Cells)
    → IsQueue m e before old act
    → length (old ++ act) ≡ 0
    → fresh ≢ null
    → Ensures (λ e' g. Added before fresh d old act e' m g) (enqueue_first fresh d e m)
first-Added_of_empty m e before fresh d [] [] is z ne = first-Added m e before fresh d is ne
first-Added_of_empty m e before fresh d [] (y ∷ act) is z ne = absurd (omega arith)
first-Added_of_empty m e before fresh d (x ∷ old) act is z ne = absurd (omega arith)

-- On a valid queue and given an unused address, `enqueue` returns 0 and appends the node to those still queued. Nodes
-- handed out stay in front of them, and nothing outside the queue changes.
pub enqueue-append :
    {m : Mem} {e : Ends} {before : Ptr} {old act : Cells} (fresh d : Ptr)
    → IsQueue m e before old act
    → fresh ≢ null
    → m.cell fresh ≡ none
    → Ensures
        (λ (code, e') g. (code ≡ 0) × Added before fresh d old act e' m g)
        (enqueue_ends fresh d e m)
unfolding enqueue_ends
enqueue-append {m} {e} {before} {old} {act} fresh d is ne unused =
    rw (==_false fresh null ne) (elim (Bool-cases (e.abs_length == 0)) [
      | inl z ↦ rw z (
          Ensures-with_code _ _
            (first-Added_of_empty m e before fresh d old act is (ground (arith, is.abs_count)) ne))
      | inr nz ↦
          rw nz
            (Ensures-with_code _ _ (back-Added fresh d is ne unused (ground (arith, is.abs_count))))
    ])

-- When `malloc` fails, `enqueue` returns 1 and changes nothing.
pub enqueue-null : (m : Mem) (e : Ends) (d : Ptr) → enqueue_ends null d e m ≡ some ((1, e), m)
unfolding enqueue_ends
enqueue-null m e d = refl
