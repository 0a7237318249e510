-- ===== src/Pages/Invariant.antt =====
-- What holds of a page and its threads after any number of moves.
use getmatvar.Common.{
  ℕ, zero, suc, ◌+◌, ◌-◌, ◌^◌, ◌≤◌, ◌<◌, ◌≡◌, refl, sym, ap, ap₂, ◌∙◌, true, false, ◌==◌, arith,
  Bool-cases, inl, inr,
}
use getmatvar.Pages.{
  here, next, move, Shared, Pc, Move, Reach, enter_page, leave_page, pointer_to, idle, using,
  counting, take, take_super, small, read_pointer, done_super, fits, unused, busy, lock_use,
  use_map, too_small, lock_map, begin_map, in_use, unmap, map_new, done, lock_release, leave, count,
}
use getmatvar.Pages.Family.{update, total, total-at}
use getmatvar.Pages.Counts.{maps, uses, busy_with, CountsOf, count_mapping-cases, step-Counts}

pub record Inv (n : ℕ) (s : Shared) (pc : ℕ → Pc) : Type 0 where
  pub counts : CountsOf n s pc
  pub pointers : (j : ℕ) → j < n → (a p : ℕ) → pc j ≡ using a p → p ≡ pointer_to a s.page

own_pointer :
    {s s' : Shared} {p p' : Pc} {a q : ℕ}
    → s.is_super_mapped ≡ false
    → Move s p s' p'
    → p' ≡ using a q
    → q ≡ pointer_to a s'.page
unfolding enter_page
own_pointer pages (take w g) e = ground arith
own_pointer pages (take_super w g) e = cc
own_pointer pages (fits g) e = ground arith
own_pointer pages (small g) e = ground arith
own_pointer pages (unused g) e = ground arith
own_pointer pages (busy g) e = ground arith
own_pointer pages (lock_use g) e = ground arith
own_pointer pages (use_map g) e = ground arith
own_pointer pages (too_small g) e = ground arith
own_pointer pages (lock_map g) e = ground arith
own_pointer pages (begin_map g) e = ground arith
own_pointer pages (in_use g) e = ground arith
own_pointer pages unmap e = ground arith
own_pointer pages (map_new q h) e = ground arith
own_pointer pages read_pointer e = ground arith
own_pointer pages (done w) e = ground arith
own_pointer pages (done_super w) e = cc
own_pointer pages (lock_release g) e = ground arith
own_pointer pages leave e = ground arith
own_pointer pages count e = ground arith

-- A move of a thread that maps nothing, and does not release the last chunk, leaves the start.
same_start :
    {s s' : Shared} {p p' : Pc}
    → s.is_super_mapped ≡ false
    → Move s p s' p'
    → maps p ≡ 0
    → (p ≡ counting → (2 ≤ s.page.total_num_mappings) × (s.page.total_num_mappings < 2 ^ 32))
    → (s'.page.pg_start_p ≡ s.page.pg_start_p) × (s'.page.pg_start_a ≡ s.page.pg_start_a)
unfolding enter_page leave_page
same_start pages (take w g) no_map more = ground arith
same_start pages (take_super w g) no_map more = cc
same_start pages (fits g) no_map more = ground arith
same_start pages (small g) no_map more = ground arith
same_start pages (unused g) no_map more = ground arith
same_start pages (busy g) no_map more = ground arith
same_start pages (lock_use g) no_map more = ground arith
same_start pages (use_map g) no_map more = ground arith
same_start pages (too_small g) no_map more = ground arith
same_start pages (lock_map g) no_map more = ground arith
same_start pages (begin_map g) no_map more = ground arith
same_start pages (in_use g) no_map more = ground arith
same_start pages unmap no_map more = ground arith
same_start pages (map_new q h) no_map more = ground arith
same_start pages read_pointer no_map more = ground arith
same_start pages (done w) no_map more = ground arith
same_start pages (done_super w) no_map more = cc
same_start pages (lock_release g) no_map more = ground arith
same_start pages leave no_map more = ground arith
same_start {s = s} pages count no_map more =
    let two = more refl in
    elim (count_mapping-cases s (omega (arith, two.0)) two.1) [
      | inl last ↦ absurd (omega (arith, last.0, two.0))
      | inr kept ↦ (
        ap (λ (t : Shared). t.page.pg_start_p) kept.1,
        ap (λ (t : Shared). t.page.pg_start_a) kept.1,
      )
    ]

abbrev ends : Pc → ℕ
ends counting = 1
ends _ = 0

total_ends : (n : ℕ) (pc : ℕ → Pc) → total uses n pc + total ends n pc ≤ total busy_with n pc
total_ends zero pc = omega arith
total_ends (suc n) pc = omega (arith, total_ends n pc, apart (pc n))
  where
    apart : (p : Pc) → uses p + ends p ≤ busy_with p
    apart p = ground arith

-- A pointer that was given out stays good while its thread uses the page.
step-pointers :
    (n i : ℕ) (s s' : Shared) (pc : ℕ → Pc) (p' : Pc)
    → i < n
    → Move s (pc i) s' p'
    → Inv n s pc
    → CountsOf n s' (update pc i p')
    → (j : ℕ) → j < n
    → (a p : ℕ) → update pc i p' j ≡ using a p
    → p ≡ pointer_to a s'.page
step-pointers n i s s' pc p' lt mv inv counts j in_n a p e = elim (Bool-cases (j == i)) [
  | inl same ↦ own_pointer inv.counts.by_pages mv (sym (mover same) ∙ e)
  | inr other ↦
      inv.pointers j in_n a p (sym (stays other) ∙ e)
      ∙ sym (ap₂ (λ (x y : ℕ). x + (a - y)) (start other).0 (start other).1)
]
  where
    stays : (j == i) ≡ false → update pc i p' j ≡ pc j
    stays other = rw other refl

    used : (j == i) ≡ false → 1 ≤ total uses n pc
    used other = omega (arith, total-at uses n j pc in_n, ap uses (sym (stays other) ∙ e))

    used_after : 1 ≤ total uses n (update pc i p')
    used_after = omega (arith, total-at uses n j (update pc i p') in_n, ap uses e)

    no_map : (j == i) ≡ false → maps (pc i) ≡ 0
    no_map other = grind (arith, total-at maps n i pc lt, used other, inv.counts.alone)

    last_left :
        (j == i) ≡ false
        → pc i ≡ counting
        → (2 ≤ s.page.total_num_mappings) × (s.page.total_num_mappings < 2 ^ 32)
    last_left other e' = (
      omega (
        arith,
        inv.counts.mappings_left,
        total_ends n pc,
        used other,
        total-at ends n i pc lt,
        ap ends e',
      ),
      inv.counts.few_mappings,
    )

    start :
        (j == i) ≡ false
        → (s'.page.pg_start_p ≡ s.page.pg_start_p) × (s'.page.pg_start_a ≡ s.page.pg_start_a)
    start other = same_start inv.counts.by_pages mv (no_map other) (last_left other)

    mover : (j == i) ≡ true → update pc i p' j ≡ p'
    mover same = rw same refl

step-Inv :
    (n i : ℕ) (s s' : Shared) (pc : ℕ → Pc) (p' : Pc)
    → n < 256
    → i < n
    → Move s (pc i) s' p'
    → Inv n s pc
    → Inv n s' (update pc i p')
step-Inv n i s s' pc p' few lt mv inv =
    let counts = step-Counts n i s s' pc p' few lt mv inv.counts in
    record { counts = counts; pointers = step-pointers n i s s' pc p' lt mv inv counts }

pub Reach-Inv :
    {n : ℕ} {s : Shared} {pc : ℕ → Pc} {s' : Shared} {pc' : ℕ → Pc}
    → n < 256
    → Inv n s pc
    → Reach n s pc s' pc'
    → Inv n s' pc'
Reach-Inv few inv here = inv
Reach-Inv few inv (next r (move i lt mv)) = step-Inv _ i _ _ _ _ few lt mv (Reach-Inv few inv r)

abbrev pub all_idle : ℕ → Pc
all_idle i = idle

pub total_idle :
    (f : Pc → ℕ) (n : ℕ) (pc : ℕ → Pc)
    → f idle ≡ 0
    → ((j : ℕ) → j < n → pc j ≡ idle)
    → total f n pc ≡ 0
total_idle f zero pc e rest = refl
total_idle f (suc n) pc e rest = omega (
  arith,
  e,
  ap f (rest n (omega arith)),
  total_idle f n pc e (λ j lt. rest j (omega (arith, lt))),
)
