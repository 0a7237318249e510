-- ===== src/Pages.antt =====
-- src/navigate.c (`mt_navigateTo`, `mt_releasePages`, on Unix), `freePageObject` of src/cleanup.c
-- and the entries that `initializePageObjects` of src/init.c sets and `fillNode` of
-- src/placeChunkedData.c counts in: one page of the file, which the threads of `doInflate_` map and
-- release for their chunks, with `bytes_needed` 0. A `Move` is one action of a thread that others
-- can see: each read without the lock is one of its own, and what a thread does last with the lock
-- is one with the unlocking. `chunks` is the number of the chunks in the page that are still
-- queued. The pointer that `mmap` returns is any but NULL, which is 0; where it fails the program
-- stops. `is_super_mapped`, the file mapped whole, is set in src/getDataObjects.c before the
-- threads begin. An update of `curr_mmap_usage`, which has a lock of its own, is part of the move
-- that makes it.
pub mod Family
pub mod Counts
pub mod Invariant
pub mod Start
pub mod Super
pub mod Safety
pub mod Finish
mod Tests
use getmatvar.Common.{
  ℕ, zero, suc, ◌+◌, ◌-◌, ◌%◌, ◌^◌, ◌≤◌, ◌<◌, max, min, ◌*◌, ◌≡◌, ◌≢◌, Bool, true, false,
  if◌then◌else◌, ◌==◌, List, [], ◌∷◌,
}
use getmatvar.Pages.Family.{update}

pub record PageObject : Type 0 where
  pub is_mapped : Bool
  pub pg_start_a : ℕ
  pub pg_end_a : ℕ
  pub map_size : ℕ
  pub max_map_size : ℕ
  pub pg_start_p : ℕ
  pub num_using : ℕ
  pub total_num_mappings : ℕ

-- What the threads share, `locked` being the lock of the page.
pub record Shared : Type 0 where
  pub page : PageObject
  pub locked : Bool
  pub is_super_mapped : Bool
  pub super_pointer : ℕ
  pub curr_mmap_usage : ℕ
  pub max_mmap_usage : ℕ
  pub chunks : ℕ

-- Page `i` of the loop in `initializePageObjects`.
unfoldable pub initial_page : ℕ → ℕ → ℕ → PageObject
initial_page alloc_gran file_size i = record {
  is_mapped = false;
  pg_start_a = alloc_gran * i;
  pg_end_a = min (alloc_gran * (i + 1)) file_size;
  map_size = 0;
  max_map_size = 0;
  pg_start_p = 0;
  num_using = 0;
  total_num_mappings = 0;
}

-- A chunk in the file, without its place in the array.
pub record DataPair : Type 0 where
  pub address : ℕ
  pub chunk_size : ℕ

-- What `fillNode` notes of a chunk in its page, and the notes of all chunks in the page.
unfoldable pub count_chunk : ℕ → PageObject → DataPair → PageObject
count_chunk alloc_gran page c = record page {
  total_num_mappings = (page.total_num_mappings + 1) % 2 ^ 32;
  max_map_size = max page.max_map_size (c.address % alloc_gran + c.chunk_size);
}

unfoldable pub count_chunks : ℕ → PageObject → List DataPair → PageObject
unfolding count_chunk
count_chunks alloc_gran page [] = page
count_chunks alloc_gran page (c ∷ cs) = count_chunks alloc_gran (count_chunk alloc_gran page c) cs

unfoldable pub free_page_object : Shared → Shared
free_page_object s =
    if s.page.is_mapped
    then record s {
      page = record (s.page) { is_mapped = false; pg_start_p = 0; map_size = 0 };
      curr_mmap_usage = (s.curr_mmap_usage + (2 ^ 64 - s.page.map_size)) % 2 ^ 64;
    }
    else s

-- The call of `mmap`, which returned `p`, and what is set after it, the lock included.
unfoldable pub map_page : ℕ → Shared → Shared
map_page p s =
    let usage = (s.curr_mmap_usage + s.page.max_map_size) % 2 ^ 64 in
    record s {
      page = record (s.page) { is_mapped = true; pg_start_p = p; map_size = s.page.max_map_size };
      locked = false;
      curr_mmap_usage = usage;
      max_mmap_usage = max usage s.max_mmap_usage;
    }

unfoldable pub enter_page : Shared → Shared
enter_page s = record s { page = record (s.page) { num_using = (s.page.num_using + 1) % 2 ^ 8 } }

unfoldable pub leave_page : Shared → Shared
leave_page s = record s { page = record (s.page) { num_using = (s.page.num_using + 255) % 2 ^ 8 } }

unfoldable pub count_mapping : Shared → Shared
unfolding free_page_object
count_mapping s =
    let less = record s {
      page = record (s.page) {
        total_num_mappings = (s.page.total_num_mappings + (2 ^ 32 - 1)) % 2 ^ 32;
      };
    } in
    let freed = free_page_object less in if less.page.total_num_mappings == 0 then freed else less

abbrev pub set_locked : Bool → Shared → Shared
set_locked b s = record s { locked = b }

-- `pg_start_p + (address - pg_start_a)`
abbrev pub pointer_to : ℕ → PageObject → ℕ
pointer_to address page = page.pg_start_p + (address - page.pg_start_a)

-- Where a thread is, with the address that it needs.
pub data Pc : Type 0 where
  idle : Pc
  looking : ℕ → Pc
  too_large : ℕ → Pc
  want_use : ℕ → Pc
  confirm_use : ℕ → Pc
  want_map : ℕ → Pc
  confirm_map : ℕ → Pc
  mapping : ℕ → Pc
  freed : ℕ → Pc
  entered : ℕ → Pc
  using : ℕ → ℕ → Pc
  want_release : Pc
  releasing : Pc
  counting : Pc

abbrev pub take_chunk : Shared → Shared
take_chunk s = record s { chunks = s.chunks - 1 }

-- One action of a thread. `take` and `take_super` take a chunk and call `mt_navigateTo`, which
-- tests `is_super_mapped`; `fits`, `small`, `unused`, `busy` and `read_pointer` read without the
-- lock.
pub data Move (s : Shared) : Pc → Shared → Pc → Type 0 where
  take : {a : ℕ} → s.is_super_mapped ≡ false → 1 ≤ s.chunks → Move s idle (take_chunk s) (looking a)
  take_super :
      {a : ℕ}
      → s.is_super_mapped ≡ true
      → 1 ≤ s.chunks
      → Move s idle (take_chunk s) (using a (s.super_pointer + a))
  fits : {a : ℕ} → s.page.max_map_size ≤ s.page.map_size → Move s (looking a) s (want_use a)
  small : {a : ℕ} → s.page.map_size < s.page.max_map_size → Move s (looking a) s (too_large a)
  unused : {a : ℕ} → s.page.num_using ≡ 0 → Move s (too_large a) s (want_map a)
  busy : {a : ℕ} → s.page.num_using ≢ 0 → Move s (too_large a) s (looking a)
  lock_use : {a : ℕ} → s.locked ≡ false → Move s (want_use a) (set_locked true s) (confirm_use a)
  use_map :
      {a : ℕ}
      → s.page.max_map_size ≤ s.page.map_size
      → Move s (confirm_use a) (set_locked false (enter_page s)) (entered a)
  too_small :
      {a : ℕ}
      → s.page.map_size < s.page.max_map_size
      → Move s (confirm_use a) (set_locked false s) (looking a)
  lock_map : {a : ℕ} → s.locked ≡ false → Move s (want_map a) (set_locked true s) (confirm_map a)
  begin_map : {a : ℕ} → s.page.num_using ≡ 0 → Move s (confirm_map a) (enter_page s) (mapping a)
  in_use : {a : ℕ} → s.page.num_using ≢ 0 → Move s (confirm_map a) (set_locked false s) (looking a)
  unmap : {a : ℕ} → Move s (mapping a) (free_page_object s) (freed a)
  map_new : {a : ℕ} (p : ℕ) → p ≢ 0 → Move s (freed a) (map_page p s) (entered a)
  read_pointer : {a : ℕ} → Move s (entered a) s (using a (pointer_to a s.page))
  done : {a p : ℕ} → s.is_super_mapped ≡ false → Move s (using a p) s want_release
  done_super : {a p : ℕ} → s.is_super_mapped ≡ true → Move s (using a p) s idle
  lock_release : s.locked ≡ false → Move s want_release (set_locked true s) releasing
  leave : Move s releasing (leave_page s) counting
  count : Move s counting (set_locked false (count_mapping s)) idle

-- `n` threads, of which one moves in each step.
pub data Step (n : ℕ) : Shared → (ℕ → Pc) → Shared → (ℕ → Pc) → Type 0 where
  move :
      {s s' : Shared} {pc : ℕ → Pc} {p' : Pc} (i : ℕ)
      → i < n
      → Move s (pc i) s' p'
      → Step n s pc s' (update pc i p')

pub data Reach (n : ℕ) (s : Shared) (pc : ℕ → Pc) : Shared → (ℕ → Pc) → Type 0 where
  here : Reach n s pc s pc
  next :
      {s₁ s₂ : Shared} {pc₁ pc₂ : ℕ → Pc}
      → Reach n s pc s₁ pc₁
      → Step n s₁ pc₁ s₂ pc₂
      → Reach n s pc s₂ pc₂
