-- ===== src/Pages/Finish.antt =====
-- A thread is never stuck: whatever the others have done, it can come to the end of its chunk.
use getmatvar.Common.{
  ℕ, zero, suc, ◌+◌, ◌≤◌, ◌<◌, ◌≡◌, ◌≢◌, refl, sym, ap, ◌∙◌, ◌⊎◌, Bool, true, false, List, arith,
  Bool-cases, inl, inr, subst, if◌then◌else◌,
}
use getmatvar.Pages.{
  here, next, move, map_page, free_page_object, enter_page, leave_page, count_mapping, Shared, Pc,
  DataPair, Move, Step, Reach, idle, looking, want_use, confirm_use, want_map, confirm_map, mapping,
  freed, using, want_release, releasing, counting, PageObject, count_chunks, too_large, entered,
  take, take_super, fits, small, busy, read_pointer, done_super, unused, lock_use, use_map,
  too_small, lock_map, begin_map, in_use, unmap, map_new, done, lock_release, leave, count,
}
use getmatvar.Pages.Start.{start, IsAtRest, IsCounted, start-Inv}
use getmatvar.Pages.Super.{AtSuper, IsSuper, Reach-IsSuper}
use getmatvar.Pages.Family.{update, update_self, total, total-at}
use getmatvar.Pages.Counts.{maps, checks}
use getmatvar.Pages.Invariant.{Inv, Reach-Inv, all_idle}

Reach-first :
    {n : ℕ} {s s₁ : Shared} {pc pc₁ : ℕ → Pc} {s₂ : Shared} {pc₂ : ℕ → Pc}
    → Step n s pc s₁ pc₁
    → Reach n s₁ pc₁ s₂ pc₂
    → Reach n s pc s₂ pc₂
Reach-first step here = next here step
Reach-first step (next r last) = next (Reach-first step r) last

Reach-then :
    {n : ℕ} {s s₁ : Shared} {pc pc₁ : ℕ → Pc} {s₂ : Shared} {pc₂ : ℕ → Pc}
    → Reach n s pc s₁ pc₁
    → Reach n s₁ pc₁ s₂ pc₂
    → Reach n s pc s₂ pc₂
Reach-then r here = r
Reach-then r (next r' last) = next (Reach-then r r') last

fits_or_not :
    (s : Shared) → (s.page.max_map_size ≤ s.page.map_size) ⊎ (s.page.map_size < s.page.max_map_size)
fits_or_not s = omega arith

unused_or_not : (s : Shared) → (s.page.num_using ≡ 0) ⊎ (s.page.num_using ≢ 0)
unused_or_not s = ground arith

-- The threads can go on until `P` holds.
pub record Leads (P : Shared → (ℕ → Pc) → Type 0) (n : ℕ) (s : Shared) (pc : ℕ → Pc) : Type 0 where
  pub later : Shared
  pub threads : ℕ → Pc
  pub way : Reach n s pc later threads
  pub holds : P later threads

Move-same_whole :
    {s s' : Shared} {p p' : Pc} → Move s p s' p' → s'.is_super_mapped ≡ s.is_super_mapped
unfolding map_page free_page_object enter_page leave_page count_mapping
Move-same_whole (take w g) = refl
Move-same_whole (take_super w g) = refl
Move-same_whole (fits g) = refl
Move-same_whole (small g) = refl
Move-same_whole (unused g) = refl
Move-same_whole (busy g) = refl
Move-same_whole (lock_use g) = refl
Move-same_whole (use_map g) = refl
Move-same_whole (too_small g) = refl
Move-same_whole (lock_map g) = refl
Move-same_whole (begin_map g) = refl
Move-same_whole (in_use g) = refl
Move-same_whole unmap = ground arith
Move-same_whole (map_new q h) = refl
Move-same_whole read_pointer = refl
Move-same_whole (done w) = refl
Move-same_whole (done_super w) = refl
Move-same_whole (lock_release g) = refl
Move-same_whole leave = refl
Move-same_whole count = ground arith

-- The file is not mapped whole.
abbrev ByPages : Shared → Type 0
ByPages s = s.is_super_mapped ≡ false

module _ {P : Shared → (ℕ → Pc) → Type 0} {n i : ℕ} (lt : i < n) where
  by_move :
      {s s' : Shared} {pc : ℕ → Pc} {p p' : Pc}
      → ByPages s
      → pc i ≡ p
      → Move s p s' p'
      → (ByPages s' → ((update pc i p') i ≡ p') → Leads P n s' (update pc i p'))
      → Leads P n s pc
  by_move {s} {s'} {pc} {p} {p'} w e mv go =
      let rest = go (Move-same_whole mv ∙ w) (update_self pc i p') in
      record {
        later = rest.later;
        threads = rest.threads;
        way = Reach-first (move i lt (subst (λ (x : Pc). Move s x s' p') (sym e) mv)) rest.way;
        holds = rest.holds;
      }

module _ {n i : ℕ} (lt : i < n) where
  abbrev Ends : Shared → (ℕ → Pc) → Type 0
  Ends s pc = Leads (λ s' pc'. pc' i ≡ idle) n s pc

  from_counting : (s : Shared) (pc : ℕ → Pc) → ByPages s → pc i ≡ counting → Ends s pc
  from_counting s pc w e =
      by_move lt w e count (λ w' e'. record { later = _; threads = _; way = here; holds = e' })

  from_releasing : (s : Shared) (pc : ℕ → Pc) → ByPages s → pc i ≡ releasing → Ends s pc
  from_releasing s pc w e = by_move lt w e leave (λ w' e'. from_counting _ _ w' e')

  from_using :
      (s : Shared) (pc : ℕ → Pc) {a p : ℕ}
      → ByPages s
      → s.locked ≡ false
      → pc i ≡ using a p
      → Ends s pc
  from_using s pc w free e =
      by_move lt w e (done w)
        (λ w' e'. by_move lt w' e' (lock_release free) (λ w'' e''. from_releasing _ _ w'' e''))

  from_entered :
      (s : Shared) (pc : ℕ → Pc) {a : ℕ}
      → ByPages s
      → s.locked ≡ false
      → pc i ≡ entered a
      → Ends s pc
  from_entered s pc w free e = by_move lt w e read_pointer (λ w' e'. from_using _ _ w' free e')

  from_mapping : (s : Shared) (pc : ℕ → Pc) {a : ℕ} → ByPages s → pc i ≡ mapping a → Ends s pc
  unfolding map_page
  from_mapping s pc w e = by_move lt w e unmap (λ w' e'.
      by_move lt w' e' (map_new 1 (omega arith)) (λ w'' e''. from_entered _ _ w'' refl e''))

  from_want_map :
      (s : Shared) (pc : ℕ → Pc) {a : ℕ}
      → ByPages s
      → s.locked ≡ false
      → s.page.num_using ≡ 0
      → pc i ≡ want_map a
      → Ends s pc
  from_want_map s pc w free nobody e =
      by_move lt w e (lock_map free)
        (λ w' e'. by_move lt w' e' (begin_map nobody) (λ w'' e''. from_mapping _ _ w'' e''))

  from_want_use :
      (s : Shared) (pc : ℕ → Pc) {a : ℕ}
      → ByPages s
      → s.locked ≡ false
      → s.page.max_map_size ≤ s.page.map_size
      → pc i ≡ want_use a
      → Ends s pc
  from_want_use s pc w free enough e =
      by_move lt w e (lock_use free)
        (λ w' e'. by_move lt w' e' (use_map enough) (λ w'' e''. from_entered _ _ w'' refl e''))

  from_looking :
      (s : Shared) (pc : ℕ → Pc) {a : ℕ}
      → ByPages s
      → s.locked ≡ false
      → (s.page.map_size < s.page.max_map_size → s.page.num_using ≡ 0)
      → pc i ≡ looking a
      → Ends s pc
  from_looking s pc w free nobody e = elim (fits_or_not s) [
    | inl enough ↦ by_move lt w e (fits enough) (λ w' e'. from_want_use _ _ w' free enough e')
    | inr less ↦ by_move lt w e (small less) (λ w' e'.
        by_move lt w' e' (unused (nobody less))
          (λ w'' e''. from_want_map _ _ w'' free (nobody less) e''))
  ]

  -- With the lock free, from each place that a thread can be at.
  from_free :
      (s : Shared) (pc : ℕ → Pc)
      → ByPages s
      → s.locked ≡ false
      → (s.page.map_size < s.page.max_map_size → s.page.num_using ≡ 0)
      → maps (pc i) + checks (pc i) ≡ 0
      → (p : Pc) → pc i ≡ p
      → Ends s pc
  from_free s pc w free nobody out idle e = record {
    later = s;
    threads = pc;
    way = here;
    holds = e;
  }
  from_free s pc w free nobody out (looking a) e = from_looking s pc w free nobody e
  from_free s pc w free nobody out (want_use a) e = elim (fits_or_not s) [
    | inl enough ↦ from_want_use s pc w free enough e
    | inr less ↦ by_move lt w e (lock_use free) (λ w' e'.
        by_move lt w' e' (too_small less) (λ w'' e''. from_looking _ _ w'' refl nobody e''))
  ]
  from_free s pc w free nobody out (want_map a) e = elim (unused_or_not s) [
    | inl none ↦ from_want_map s pc w free none e
    | inr some ↦
        by_move lt w e (lock_map free) (λ w' e'.
          by_move lt w' e' (in_use some) (λ w'' e''. from_looking _ _ w'' refl nobody e''))
  ]
  from_free s pc w free nobody out (too_large a) e = elim (unused_or_not s) [
    | inl none ↦ by_move lt w e (unused none) (λ w' e'. from_want_map _ _ w' free none e')
    | inr some ↦ by_move lt w e (busy some) (λ w' e'. from_looking _ _ w' free nobody e')
  ]
  from_free s pc w free nobody out (entered a) e = from_entered s pc w free e
  from_free s pc w free nobody out (using a p) e = from_using s pc w free e
  from_free s pc w free nobody out want_release e =
      by_move lt w e (lock_release free) (λ w' e'. from_releasing _ _ w' e')
  from_free s pc w free nobody out (confirm_use a) e = absurd (omega (arith, out, ap checks e))
  from_free s pc w free nobody out (confirm_map a) e = absurd (omega (arith, out, ap checks e))
  from_free s pc w free nobody out (mapping a) e = absurd (omega (arith, out, ap maps e))
  from_free s pc w free nobody out (freed a) e = absurd (omega (arith, out, ap maps e))
  from_free s pc w free nobody out releasing e = absurd (omega (arith, out, ap checks e))
  from_free s pc w free nobody out counting e = absurd (omega (arith, out, ap checks e))

  abbrev Unlocks : Shared → (ℕ → Pc) → Type 0
  Unlocks s pc = Leads (λ s' pc'. s'.locked ≡ false) n s pc

  unlocked : {s : Shared} {pc : ℕ → Pc} → s.locked ≡ false → Unlocks s pc
  unlocked free = record { later = _; threads = _; way = here; holds = free }

  unlock_freed : (s : Shared) (pc : ℕ → Pc) {a : ℕ} → ByPages s → pc i ≡ freed a → Unlocks s pc
  unfolding map_page
  unlock_freed s pc w e = by_move lt w e (map_new 1 (omega arith)) (λ w' e'. unlocked refl)

  unlock_counting : (s : Shared) (pc : ℕ → Pc) → ByPages s → pc i ≡ counting → Unlocks s pc
  unlock_counting s pc w e = by_move lt w e count (λ w' e'. unlocked refl)

  -- The thread that has the lock gives it back.
  unlock :
      (s : Shared) (pc : ℕ → Pc)
      → ByPages s
      → 1 ≤ maps (pc i) + checks (pc i)
      → (p : Pc) → pc i ≡ p
      → Unlocks s pc
  unlock s pc w held (confirm_use a) e = elim (fits_or_not s) [
    | inl enough ↦ by_move lt w e (use_map enough) (λ w' e'. unlocked refl)
    | inr less ↦ by_move lt w e (too_small less) (λ w' e'. unlocked refl)
  ]
  unlock s pc w held (confirm_map a) e = elim (unused_or_not s) [
    | inl none ↦
        by_move lt w e (begin_map none)
          (λ w' e'. by_move lt w' e' unmap (λ w'' e''. unlock_freed _ _ w'' e''))
    | inr some ↦ by_move lt w e (in_use some) (λ w' e'. unlocked refl)
  ]
  unlock s pc w held (mapping a) e = by_move lt w e unmap (λ w' e'. unlock_freed _ _ w' e')
  unlock s pc w held (freed a) e = unlock_freed s pc w e
  unlock s pc w held releasing e = by_move lt w e leave (λ w' e'. unlock_counting _ _ w' e')
  unlock s pc w held counting e = unlock_counting s pc w e
  unlock s pc w held idle e = absurd (omega (arith, held, ap maps e, ap checks e))
  unlock s pc w held (looking a) e = absurd (omega (arith, held, ap maps e, ap checks e))
  unlock s pc w held (want_use a) e = absurd (omega (arith, held, ap maps e, ap checks e))
  unlock s pc w held (want_map a) e = absurd (omega (arith, held, ap maps e, ap checks e))
  unlock s pc w held (using a p) e = absurd (omega (arith, held, ap maps e, ap checks e))
  unlock s pc w held (too_large a) e = absurd (omega (arith, held, ap maps e, ap checks e))
  unlock s pc w held (entered a) e = absurd (omega (arith, held, ap maps e, ap checks e))
  unlock s pc w held want_release e = absurd (omega (arith, held, ap maps e, ap checks e))

-- Some thread has the lock.
holder :
    (n : ℕ) (pc : ℕ → Pc)
    → 1 ≤ total maps n pc + total checks n pc
    → (j : ℕ) × (j < n) × (1 ≤ maps (pc j) + checks (pc j))
holder zero pc held = absurd (omega (arith, held))
holder (suc n) pc held = elim (last_or_before held) [
  | inl last ↦ (n, omega arith, last)
  | inr before ↦ let (j, lt, found) = holder n pc before in (j, omega (arith, lt), found)
]
  where
    last_or_before :
        1 ≤ total maps (suc n) pc + total checks (suc n) pc
        → (1 ≤ maps (pc n) + checks (pc n)) ⊎ (1 ≤ total maps n pc + total checks n pc)
    last_or_before held = omega arith

ends_unlocked :
    {n i : ℕ} (lt : i < n) (s : Shared) (pc : ℕ → Pc)
    → Inv n s pc
    → s.locked ≡ false
    → Leads (λ s' pc'. pc' i ≡ idle) n s pc
ends_unlocked {n} {i} lt s pc inv free =
    from_free lt s pc inv.counts.by_pages free (λ less. grind (arith, none, inv.counts.mapped))
      (omega (arith, none, total-at maps n i pc lt, total-at checks n i pc lt)) (pc i) refl
  where
    none : total maps n pc + total checks n pc ≡ 0
    none = inv.counts.lock_held ∙ ap (λ (b : Bool). if◌then◌else◌ {A = ℕ} b 1 0) free

free_lock :
    {n : ℕ} (s : Shared) (pc : ℕ → Pc) → Inv n s pc → Leads (λ s' pc'. s'.locked ≡ false) n s pc
free_lock {n} s pc inv = elim (Bool-cases s.locked) [
  | inl locked ↦
      let (j, lt, held) = holder n pc (
        omega
          (arith, inv.counts.lock_held, ap (λ (b : Bool). if◌then◌else◌ {A = ℕ} b 1 0) locked)) in
      unlock lt s pc inv.counts.by_pages held (pc j) refl
  | inr free ↦ record { later = s; threads = pc; way = here; holds = free }
]

-- On a file that is mapped whole a thread with a chunk has its pointer.
ends_super :
    {n i : ℕ} (lt : i < n) (s : Shared) (pc : ℕ → Pc) (pointer : ℕ)
    → s.is_super_mapped ≡ true
    → (p : Pc) → pc i ≡ p
    → AtSuper pointer p
    → Leads (λ s' pc'. pc' i ≡ idle) n s pc
ends_super lt s pc pointer w idle e at = record { later = s; threads = pc; way = here; holds = e }
ends_super {i = i} lt s pc pointer w (using a p) e at = record {
  later = s;
  threads = update pc i idle;
  way = next here (move i lt (subst (λ (x : Pc). Move s x s idle) (sym e) (done_super w)));
  holds = update_self pc i idle;
}
ends_super lt s pc pointer w (looking a) e at = absurd at
ends_super lt s pc pointer w (too_large a) e at = absurd at
ends_super lt s pc pointer w (want_use a) e at = absurd at
ends_super lt s pc pointer w (confirm_use a) e at = absurd at
ends_super lt s pc pointer w (want_map a) e at = absurd at
ends_super lt s pc pointer w (confirm_map a) e at = absurd at
ends_super lt s pc pointer w (mapping a) e at = absurd at
ends_super lt s pc pointer w (freed a) e at = absurd at
ends_super lt s pc pointer w (entered a) e at = absurd at
ends_super lt s pc pointer w want_release e at = absurd at
ends_super lt s pc pointer w releasing e at = absurd at
ends_super lt s pc pointer w counting e at = absurd at

-- After any moves of fewer than 256 threads on a page at rest, of a file that is mapped whole or
-- not, in which `fillNode` has counted fewer than 2^32 chunks, one of them with a byte or more: the
-- threads can go on so that a given one of them comes to the end of its chunk.
pub thread_ends :
    (n alloc_gran index : ℕ) (page : PageObject) (cs : List DataPair) (whole : Bool)
    (pointer usage : ℕ) (c : DataPair) (s : Shared) (pc : ℕ → Pc) (i : ℕ)
    → n < 256
    → IsAtRest alloc_gran index page
    → IsCounted c cs
    → Reach n (start whole pointer alloc_gran page cs usage) all_idle s pc
    → i < n
    → Leads (λ s' pc'. pc' i ≡ idle) n s pc
thread_ends n alloc_gran index page cs true pointer usage c s pc i few rests is r lt =
    let super : IsSuper n pointer (count_chunks alloc_gran page cs) s pc =
      Reach-IsSuper
        (record { whole = refl; same_pointer = refl; same_page = refl; places = λ k in_n. tt }) r in
    ends_super lt s pc pointer super.whole (pc i) refl (super.places i lt)
thread_ends n alloc_gran index page cs false pointer usage c s pc i few rests is r lt =
    let inv = Reach-Inv few (start-Inv alloc_gran index page cs usage c rests is n pointer) r in
    let first = free_lock s pc inv in
    let last =
      ends_unlocked lt first.later first.threads (Reach-Inv few inv first.way) first.holds in
    record {
      later = last.later;
      threads = last.threads;
      way = Reach-then first.way last.way;
      holds = last.holds;
    }
