-- ===== src/Pages/Counts.antt =====
-- How many threads are where, and what the page counts of them.
use getmatvar.Common.{
  ℕ, zero, suc, ◌+◌, ◌-◌, ◌%◌, ◌^◌, ◌≤◌, ◌<◌, ◌≡◌, refl, sym, true, false, if◌then◌else◌, ◌==◌,
  arith, subst, Bool-cases, inl, inr, ◌⊎◌,
}
use getmatvar.Pages.{
  Shared, Pc, Move, free_page_object, map_page, enter_page, leave_page, count_mapping, set_locked,
  idle, confirm_use, confirm_map, mapping, freed, entered, using, want_release, releasing, counting,
  take, take_super, read_pointer, done_super, small, fits, unused, busy, lock_use, use_map,
  too_small, lock_map, begin_map, in_use, unmap, map_new, done, lock_release, leave, count,
}
use getmatvar.Pages.Family.{update, total, total-update, total-at}

-- A thread that maps the page, with the lock.
abbrev pub maps : Pc → ℕ
maps (mapping a) = 1
maps (freed a) = 1
maps _ = 0

-- Another thread that has the lock.
abbrev pub checks : Pc → ℕ
checks (confirm_use a) = 1
checks (confirm_map a) = 1
checks releasing = 1
checks counting = 1
checks _ = 0

-- A thread that has found the page mapped and is still counted in `num_using`.
abbrev pub uses : Pc → ℕ
uses (entered a) = 1
uses (using a p) = 1
uses want_release = 1
uses releasing = 1
uses _ = 0

-- A thread with a chunk that is still counted in `total_num_mappings`.
abbrev pub busy_with : Pc → ℕ
busy_with idle = 0
busy_with _ = 1

abbrev pub between : Pc → ℕ
between (freed a) = 1
between _ = 0

-- The sums over the threads.
pub record Counts (s : Shared) (m c u b f : ℕ) : Type 0 where
  pub by_pages : s.is_super_mapped ≡ false
  pub lock_held : m + c ≡ (if s.locked then 1 else 0)
  pub num_using_counts : s.page.num_using ≡ m + u
  pub mappings_left : s.page.total_num_mappings ≡ s.chunks + b
  pub few_mappings : s.page.total_num_mappings < 2 ^ 32
  pub mapped : 1 ≤ u → (s.page.is_mapped ≡ true) × (s.page.max_map_size ≤ s.page.map_size)
  pub some_size : 1 ≤ s.page.max_map_size
  pub alone : 1 ≤ m → u ≡ 0
  pub no_size : s.page.is_mapped ≡ false → s.page.map_size ≡ 0
  pub freed_between : 1 ≤ f → s.page.is_mapped ≡ false
  pub kept : s.page.is_mapped ≡ true → 1 ≤ s.page.total_num_mappings

abbrev pub CountsOf : ℕ → Shared → (ℕ → Pc) → Type 0
CountsOf n s pc =
    Counts s (total maps n pc) (total checks n pc) (total uses n pc) (total busy_with n pc)
      (total between n pc)

-- The sums after a move of a thread from `p` to `p'`.
record Moved (p p' : Pc) (m c u b f m' c' u' b' f' : ℕ) : Type 0 where
  m_moved : m' + maps p ≡ m + maps p'
  c_moved : c' + checks p ≡ c + checks p'
  u_moved : u' + uses p ≡ u + uses p'
  b_moved : b' + busy_with p ≡ b + busy_with p'
  f_moved : f' + between p ≡ f + between p'
  m_at : maps p ≤ m
  c_at : checks p ≤ c
  u_at : uses p ≤ u
  b_at : busy_with p ≤ b
  f_le : f ≤ m
  few : m' + u' < 256
  use_le : m' + u' ≤ b'

abbrev fewer : Shared → Shared
fewer s = record s {
  page = record (s.page) {
    total_num_mappings = (s.page.total_num_mappings + (2 ^ 32 - 1)) % 2 ^ 32;
  };
}

-- Only the last chunk of the page frees it.
pub count_mapping-cases :
    (s : Shared)
    → 1 ≤ s.page.total_num_mappings
    → s.page.total_num_mappings < 2 ^ 32
    → ((s.page.total_num_mappings ≡ 1) × (count_mapping s ≡ free_page_object (fewer s)))
      ⊎ ((2 ≤ s.page.total_num_mappings) × (count_mapping s ≡ fewer s))
unfolding count_mapping
count_mapping-cases s some few = elim (Bool-cases ((fewer s).page.total_num_mappings == 0)) [
  | inl last ↦ inl (ground (arith, last), rw last refl)
  | inr more ↦ inr (ground (arith, more), rw more refl)
]

counted-last :
    (s : Shared) (m c u b f m' c' u' b' f' : ℕ)
    → Moved counting idle m c u b f m' c' u' b' f'
    → Counts s m c u b f
    → s.page.total_num_mappings ≡ 1
    → Counts (set_locked false (free_page_object (fewer s))) m' c' u' b' f'
unfolding free_page_object
counted-last s m c u b f m' c' u' b' f' moved k last = ground arith

counted-more :
    (s : Shared) (m c u b f m' c' u' b' f' : ℕ)
    → Moved counting idle m c u b f m' c' u' b' f'
    → Counts s m c u b f
    → 2 ≤ s.page.total_num_mappings
    → Counts (set_locked false (fewer s)) m' c' u' b' f'
counted-more s m c u b f m' c' u' b' f' moved k more = ground arith

Move-Counts :
    (s s' : Shared) (p p' : Pc) (m c u b f m' c' u' b' f' : ℕ)
    → Move s p s' p'
    → Moved p p' m c u b f m' c' u' b' f'
    → Counts s m c u b f
    → Counts s' m' c' u' b' f'
unfolding free_page_object map_page enter_page leave_page count_mapping
Move-Counts s s' p p' m c u b f m' c' u' b' f' (take w g) moved k = ground arith
Move-Counts s s' p p' m c u b f m' c' u' b' f' (take_super w g) moved k = cc (k.by_pages)
Move-Counts s s' p p' m c u b f m' c' u' b' f' (fits g) moved k = ground arith
Move-Counts s s' p p' m c u b f m' c' u' b' f' (small g) moved k = ground arith
Move-Counts s s' p p' m c u b f m' c' u' b' f' (unused g) moved k = ground arith
Move-Counts s s' p p' m c u b f m' c' u' b' f' (busy g) moved k = ground arith
Move-Counts s s' p p' m c u b f m' c' u' b' f' (lock_use g) moved k = ground arith
Move-Counts s s' p p' m c u b f m' c' u' b' f' (use_map g) moved k = ground arith
Move-Counts s s' p p' m c u b f m' c' u' b' f' (too_small g) moved k = ground arith
Move-Counts s s' p p' m c u b f m' c' u' b' f' (lock_map g) moved k = ground arith
Move-Counts s s' p p' m c u b f m' c' u' b' f' (begin_map g) moved k = ground arith
Move-Counts s s' p p' m c u b f m' c' u' b' f' (in_use g) moved k = ground arith
Move-Counts s s' p p' m c u b f m' c' u' b' f' unmap moved k = ground arith
Move-Counts s s' p p' m c u b f m' c' u' b' f' (map_new q h) moved k = ground arith
Move-Counts s s' p p' m c u b f m' c' u' b' f' read_pointer moved k = ground arith
Move-Counts s s' p p' m c u b f m' c' u' b' f' (done w) moved k = ground arith
Move-Counts s s' p p' m c u b f m' c' u' b' f' (done_super w) moved k = cc (k.by_pages)
Move-Counts s s' p p' m c u b f m' c' u' b' f' (lock_release g) moved k = ground arith
Move-Counts s s' p p' m c u b f m' c' u' b' f' leave moved k = ground arith
Move-Counts s s' p p' m c u b f m' c' u' b' f' count moved k =
    elim (count_mapping-cases s (omega arith) k.few_mappings) [
      | inl last ↦
          subst (λ (t : Shared). Counts (set_locked false t) m' c' u' b' f') (sym last.1)
            (counted-last s m c u b f m' c' u' b' f' moved k last.0)
      | inr more ↦
          subst (λ (t : Shared). Counts (set_locked false t) m' c' u' b' f') (sym more.1)
            (counted-more s m c u b f m' c' u' b' f' moved k more.0)
    ]

total_le :
    (f g : Pc → ℕ) (n : ℕ) (pc : ℕ → Pc) → ((p : Pc) → f p ≤ g p) → total f n pc ≤ total g n pc
total_le f g zero pc le = omega arith
total_le f g (suc n) pc le = omega (arith, le (pc n), total_le f g n pc le)

total_users : (n : ℕ) (pc : ℕ → Pc) → total maps n pc + total uses n pc ≤ total busy_with n pc
total_users zero pc = omega arith
total_users (suc n) pc = omega (arith, total_users n pc, users (pc n))
  where
    users : (p : Pc) → maps p + uses p ≤ busy_with p
    users p = ground arith

total_busy : (n : ℕ) (pc : ℕ → Pc) → total busy_with n pc ≤ n
total_busy zero pc = omega arith
total_busy (suc n) pc = omega (arith, total_busy n pc, one (pc n))
  where
    one : (p : Pc) → busy_with p ≤ 1
    one p = ground arith

pub step-Counts :
    (n i : ℕ) (s s' : Shared) (pc : ℕ → Pc) (p' : Pc)
    → n < 256
    → i < n
    → Move s (pc i) s' p'
    → CountsOf n s pc
    → CountsOf n s' (update pc i p')
step-Counts n i s s' pc p' few lt mv counts =
    Move-Counts s s' (pc i) p' (total maps n pc) (total checks n pc) (total uses n pc)
      (total busy_with n pc) (total between n pc) _ _ _ _ _ mv
      (record {
        m_moved = total-update maps n i pc p' lt;
        c_moved = total-update checks n i pc p' lt;
        u_moved = total-update uses n i pc p' lt;
        b_moved = total-update busy_with n i pc p' lt;
        f_moved = total-update between n i pc p' lt;
        m_at = total-at maps n i pc lt;
        c_at = total-at checks n i pc lt;
        u_at = total-at uses n i pc lt;
        b_at = total-at busy_with n i pc lt;
        f_le = total_le between maps n pc (λ p. ground arith);
        few = omega (arith, few, total_users n (update pc i p'), total_busy n (update pc i p'));
        use_le = total_users n (update pc i p');
      })
      counts
