-- ===== src/Pages/Tests.antt =====
-- Two threads and a page with two chunks.
use getmatvar.Common.{
  ℕ, zero, suc, ◌<◌, ◌≤◌, ◌≡◌, refl, true, false, ◌⊎◌, List, [], ◌∷◌, ◌+◌, arith,
}
use getmatvar.Pages.{
  DataPair, count_chunks, count_chunk, initial_page, here, next, move, free_page_object, map_page,
  enter_page, leave_page, count_mapping, Shared, Pc, Reach, idle, PageObject, take_chunk, using,
  take, take_super, small, read_pointer, unused, lock_map, begin_map, unmap, map_new, done,
  lock_release, leave, count,
}
use getmatvar.Pages.Family.{update}
use getmatvar.Pages.Invariant.{all_idle}
use getmatvar.Pages.Start.{start, IsAtRest, IsCounted, initial_page-IsAtRest}
use mathlib.Core.List.{Memᴰ}
use getmatvar.Pages.Safety.{using-mapped, finished-IsAtRest}
use getmatvar.Pages.Finish.{Leads, thread_ends}

abbrev some_chunk : DataPair
some_chunk = record { address = 100; chunk_size = 412 }

abbrev some_chunks : List DataPair
some_chunks = some_chunk ∷ []

some_chunk-IsCounted : IsCounted some_chunk some_chunks
some_chunk-IsCounted = record {
  there = Memᴰ.head refl;
  some_size = omega arith;
  few_chunks = omega arith;
}

-- A page of a file of two megabytes.
abbrev some_page : PageObject
some_page = initial_page 4096 2000000 0

some_page-IsAtRest : IsAtRest 4096 0 some_page
some_page-IsAtRest = initial_page-IsAtRest 4096 2000000 0

record Run : Type 0 where
  shared : Shared
  threads : ℕ → Pc
  way : Reach 2 (start false 0 4096 some_page some_chunks 0) all_idle shared threads

-- The first thread has the page mapped.
abbrev mapped : Run
unfolding count_chunks count_chunk initial_page enter_page free_page_object map_page
mapped = record {
  shared = _;
  threads = _;
  way =
      next
        (next
          (next
            (next
              (next
                (next
                  (next (next here (move 0 (omega arith) (take {a = 100} refl (ground arith))))
                    (move 0 (omega arith) (small (ground arith))))
                  (move 0 (omega arith) (unused refl)))
                (move 0 (omega arith) (lock_map refl)))
              (move 0 (omega arith) (begin_map refl)))
            (move 0 (omega arith) unmap))
          (move 0 (omega arith) (map_new 7 (omega arith))))
        (move 0 (omega arith) read_pointer);
}

-- It releases the page, whose only chunk it had.
abbrev finished : Run
unfolding leave_page count_mapping free_page_object mapped
finished = record {
  shared = _;
  threads = _;
  way =
      next
        (next
          (next (next mapped.way (move 0 (omega arith) (done refl)))
            (move 0 (omega arith) (lock_release refl)))
          (move 0 (omega arith) leave))
        (move 0 (omega arith) count);
}

using-mapped_example :
    ((false ≡ true)
      × (◌≡◌ {A = ℕ} 107 100)
      × (mapped.shared.page ≡ count_chunks 4096 some_page some_chunks))
    ⊎ ((false ≡ false)
        × (mapped.shared.page.is_mapped ≡ true)
        × (107 ≡ mapped.shared.page.pg_start_p + 100)
        × (107 + 412 ≤ mapped.shared.page.pg_start_p + mapped.shared.page.map_size))
unfolding mapped
using-mapped_example =
    using-mapped 2 4096 0 some_page some_chunks false 0 0 some_chunk mapped.shared mapped.threads 0
      107 (omega arith) some_page-IsAtRest some_chunk-IsCounted refl mapped.way (omega arith) refl

rest : (j : ℕ) → j < 2 → finished.threads j ≡ idle
unfolding finished mapped
rest zero lt = refl
rest (suc zero) lt = refl
rest (suc (suc j)) lt = absurd (omega (arith, lt))

finished-IsAtRest_example : IsAtRest 4096 0 finished.shared.page
unfolding finished mapped
finished-IsAtRest_example =
    finished-IsAtRest 2 4096 0 some_page some_chunks 0 0 some_chunk finished.shared finished.threads
      (omega arith) some_page-IsAtRest some_chunk-IsCounted finished.way refl rest

thread_ends_example : Leads (λ s' pc'. pc' 0 ≡ idle) 2 mapped.shared mapped.threads
thread_ends_example =
    thread_ends 2 4096 0 some_page some_chunks false 0 0 some_chunk mapped.shared mapped.threads 0
      (omega arith) some_page-IsAtRest some_chunk-IsCounted mapped.way (omega arith)

-- A thread with a chunk of a file that is mapped whole.
super_run :
    Reach 2
      (start true 5 4096 some_page some_chunks 0)
      all_idle
      (take_chunk (start true 5 4096 some_page some_chunks 0))
      (update all_idle 0 (using 100 105))
super_run = next here (move 0 (omega arith) (take_super {a = 100} refl (ground arith)))
