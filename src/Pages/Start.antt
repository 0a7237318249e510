-- ===== src/Pages/Start.antt =====
-- Before the threads begin: a page that nobody uses, with the chunks that `fillNode` has counted in
-- it. `initializePageObjects` makes the pages once; an object after the first finds them as the
-- threads of the one before have left them.
use mathlib.Core.List.{Memᴰ}
use mathlib.Core.List.Memᴰ
use getmatvar.Common.{
  ℕ, ◌+◌, ◌%◌, ◌*◌, ◌^◌, ◌≤◌, ◌<◌, ◌≡◌, refl, sym, ◌∙◌, Bool, false, List, [], ◌∷◌, length, arith,
  subst,
}
use getmatvar.Pages.{
  PageObject, Shared, Pc, DataPair, Move, Reach, here, next, move, initial_page, count_chunk,
  count_chunks, free_page_object, map_page, enter_page, leave_page, count_mapping, take, take_super,
  small, read_pointer, done_super, fits, unused, busy, lock_use, use_map, too_small, lock_map,
  begin_map, in_use, unmap, map_new, done, lock_release, leave, count,
}
use getmatvar.Pages.Counts.{maps, checks, uses, busy_with, between}
use getmatvar.Pages.Invariant.{Inv, all_idle, total_idle}

-- The counts that `fillNode` leaves in a page.
count_chunks-fields :
    (alloc_gran : ℕ) (page : PageObject) (cs : List DataPair)
    → page.total_num_mappings + length cs < 2 ^ 32
    → record {
      counted :
          (count_chunks alloc_gran page cs).total_num_mappings
          ≡ page.total_num_mappings + length cs;
      grown : page.max_map_size ≤ (count_chunks alloc_gran page cs).max_map_size;
      same_start : (count_chunks alloc_gran page cs).pg_start_a ≡ page.pg_start_a;
      same_mapped : (count_chunks alloc_gran page cs).is_mapped ≡ page.is_mapped;
      same_size : (count_chunks alloc_gran page cs).map_size ≡ page.map_size;
      same_using : (count_chunks alloc_gran page cs).num_using ≡ page.num_using;
    }
unfolding count_chunks count_chunk
count_chunks-fields alloc_gran page [] few = ground arith
count_chunks-fields alloc_gran page (c ∷ cs) few =
    let rest = count_chunks-fields alloc_gran (count_chunk alloc_gran page c) cs (ground arith) in
    ground (arith, rest)

count_chunks-size :
    (alloc_gran : ℕ) (page : PageObject) (cs : List DataPair) (c : DataPair)
    → page.total_num_mappings + length cs < 2 ^ 32
    → Memᴰ c cs
    → c.address % alloc_gran + c.chunk_size ≤ (count_chunks alloc_gran page cs).max_map_size
unfolding count_chunks count_chunk
count_chunks-size alloc_gran page [] c few mem = absurd (Memᴰ.not-nil mem)
count_chunks-size alloc_gran page (first ∷ cs) c few (Memᴰ.head e) =
    let rest =
      count_chunks-fields alloc_gran (count_chunk alloc_gran page first) cs (ground arith) in
    subst
      (λ (x : DataPair).
        x.address % alloc_gran + x.chunk_size
        ≤ (count_chunks alloc_gran (count_chunk alloc_gran page first) cs).max_map_size)
      (sym e) (omega (arith, rest.grown))
count_chunks-size alloc_gran page (first ∷ cs) c few (Memᴰ.tail mem) =
    count_chunks-size alloc_gran (count_chunk alloc_gran page first) cs c (ground arith) mem

-- Page `index` as the threads find it before the chunks of an object are counted in it. The
-- `max_map_size` of an earlier object stays.
pub record IsAtRest (alloc_gran index : ℕ) (page : PageObject) : Type 0 where
  pub first : page.pg_start_a ≡ alloc_gran * index
  pub not_mapped : page.is_mapped ≡ false
  pub no_size : page.map_size ≡ 0
  pub nobody : page.num_using ≡ 0
  pub no_chunks : page.total_num_mappings ≡ 0

pub initial_page-IsAtRest :
    (alloc_gran file_size index : ℕ)
    → IsAtRest alloc_gran index (initial_page alloc_gran file_size index)
unfolding initial_page
initial_page-IsAtRest alloc_gran file_size index = ground arith

-- The page with the chunks `cs`, and every thread before its first chunk. The file is mapped whole
-- at `pointer` or not.
abbrev pub start : Bool → ℕ → ℕ → PageObject → List DataPair → ℕ → Shared
start whole pointer alloc_gran page cs usage = record {
  page = count_chunks alloc_gran page cs;
  locked = false;
  is_super_mapped = whole;
  super_pointer = pointer;
  curr_mmap_usage = usage;
  max_mmap_usage = usage;
  chunks = length cs;
}

-- There is a chunk, with at least one byte, and few enough of them to be counted.
pub record IsCounted (c : DataPair) (cs : List DataPair) : Type 0 where
  pub there : Memᴰ c cs
  pub some_size : 1 ≤ c.chunk_size
  pub few_chunks : length cs < 2 ^ 32

module _ (alloc_gran index : ℕ) (page : PageObject) (cs : List DataPair) (usage : ℕ) (c : DataPair)
    (rests : IsAtRest alloc_gran index page) (is : IsCounted c cs) where
  few : page.total_num_mappings + length cs < 2 ^ 32
  few = omega (arith, rests.no_chunks, is.few_chunks)

  pub start-size :
      (whole : Bool) (pointer : ℕ)
      → c.address % alloc_gran + c.chunk_size
        ≤ (start whole pointer alloc_gran page cs usage).page.max_map_size
  start-size whole pointer = count_chunks-size alloc_gran page cs c few is.there

  pub start-first :
      (whole : Bool) (pointer : ℕ)
      → (start whole pointer alloc_gran page cs usage).page.pg_start_a ≡ alloc_gran * index
  start-first whole pointer = (count_chunks-fields alloc_gran page cs few).same_start ∙ rests.first

  pub start-Inv : (n pointer : ℕ) → Inv n (start false pointer alloc_gran page cs usage) all_idle
  start-Inv n pointer =
      let fields = count_chunks-fields alloc_gran page cs few in
      record {
        counts = ground (
          arith,
          fields,
          rests,
          is.some_size,
          is.few_chunks,
          start-size false pointer,
          total_idle maps n all_idle refl (λ j lt. refl),
          total_idle checks n all_idle refl (λ j lt. refl),
          total_idle uses n all_idle refl (λ j lt. refl),
          total_idle busy_with n all_idle refl (λ j lt. refl),
          total_idle between n all_idle refl (λ j lt. refl),
        );
        pointers = λ j lt a p e. ground (arith, e);
      }

-- No move changes how much is to be mapped, nor where the page starts in the file.
abbrev pub SameExtent : Shared → Shared → Type 0
SameExtent s s' =
    (s'.page.max_map_size ≡ s.page.max_map_size) × (s'.page.pg_start_a ≡ s.page.pg_start_a)

Move-SameExtent : {s s' : Shared} {p p' : Pc} → Move s p s' p' → SameExtent s s'
unfolding enter_page leave_page map_page free_page_object count_mapping
Move-SameExtent (take w g) = ground arith
Move-SameExtent (take_super w g) = ground arith
Move-SameExtent (fits g) = ground arith
Move-SameExtent (small g) = ground arith
Move-SameExtent (unused g) = ground arith
Move-SameExtent (busy g) = ground arith
Move-SameExtent (lock_use g) = ground arith
Move-SameExtent (use_map g) = ground arith
Move-SameExtent (too_small g) = ground arith
Move-SameExtent (lock_map g) = ground arith
Move-SameExtent (begin_map g) = ground arith
Move-SameExtent (in_use g) = ground arith
Move-SameExtent unmap = ground arith
Move-SameExtent (map_new q h) = ground arith
Move-SameExtent read_pointer = ground arith
Move-SameExtent (done w) = ground arith
Move-SameExtent (done_super w) = ground arith
Move-SameExtent (lock_release g) = ground arith
Move-SameExtent leave = ground arith
Move-SameExtent count = ground arith

pub Reach-SameExtent :
    {n : ℕ} {s : Shared} {pc : ℕ → Pc} {s' : Shared} {pc' : ℕ → Pc}
    → Reach n s pc s' pc'
    → SameExtent s s'
Reach-SameExtent here = (refl, refl)
Reach-SameExtent (next r (move i lt mv)) =
    let before = Reach-SameExtent r in
    let after = Move-SameExtent mv in (after.0 ∙ before.0, after.1 ∙ before.1)
