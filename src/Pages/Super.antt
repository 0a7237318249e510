-- ===== src/Pages/Super.antt =====
-- The threads on a file that is mapped whole.
use getmatvar.Common.{ℕ, ◌+◌, ◌<◌, ◌≡◌, refl, ap, ◌∙◌, true, ◌==◌, Bool-cases, inl, inr}
use getmatvar.Pages.{
  PageObject, Shared, Pc, Move, Reach, here, next, move, idle, using, take, take_super, done,
  done_super, fits, small, unused, busy, lock_use, use_map, too_small, lock_map, begin_map, in_use,
  unmap, map_new, read_pointer, lock_release, leave, count,
}
use getmatvar.Pages.Family.{update}

-- A thread has no chunk, or the pointer to its chunk in the map of the file.
abbrev pub AtSuper : ℕ → Pc → Type 0
AtSuper pointer idle = Unit
AtSuper pointer (using a p) = p ≡ pointer + a
AtSuper pointer _ = ⊥

-- No page is touched.
pub record IsSuper (n pointer : ℕ) (page : PageObject) (s : Shared) (pc : ℕ → Pc) : Type 0 where
  pub whole : s.is_super_mapped ≡ true
  pub same_pointer : s.super_pointer ≡ pointer
  pub same_page : s.page ≡ page
  pub places : (j : ℕ) → j < n → AtSuper pointer (pc j)

record Kept (s s' : Shared) (pointer : ℕ) (p' : Pc) : Type 0 where
  same_whole : s'.is_super_mapped ≡ s.is_super_mapped
  same_pointer : s'.super_pointer ≡ s.super_pointer
  same_page : s'.page ≡ s.page
  place : AtSuper pointer p'

Move-Kept :
    {s s' : Shared} {p p' : Pc} {pointer : ℕ}
    → s.is_super_mapped ≡ true
    → s.super_pointer ≡ pointer
    → Move s p s' p'
    → AtSuper pointer p
    → Kept s s' pointer p'
Move-Kept whole e (take w g) at = cc
Move-Kept {p' = p'} whole e (take_super {a = a} w g) at = record {
  same_whole = refl;
  same_pointer = refl;
  same_page = refl;
  place = ap (λ (k : ℕ). k + a) e;
}
Move-Kept whole e (fits g) at = absurd at
Move-Kept whole e (small g) at = absurd at
Move-Kept whole e (unused g) at = absurd at
Move-Kept whole e (busy g) at = absurd at
Move-Kept whole e (lock_use g) at = absurd at
Move-Kept whole e (use_map g) at = absurd at
Move-Kept whole e (too_small g) at = absurd at
Move-Kept whole e (lock_map g) at = absurd at
Move-Kept whole e (begin_map g) at = absurd at
Move-Kept whole e (in_use g) at = absurd at
Move-Kept whole e unmap at = absurd at
Move-Kept whole e (map_new q h) at = absurd at
Move-Kept whole e read_pointer at = absurd at
Move-Kept whole e (done w) at = cc
Move-Kept whole e (done_super w) at = record {
  same_whole = refl;
  same_pointer = refl;
  same_page = refl;
  place = tt;
}
Move-Kept whole e (lock_release g) at = absurd at
Move-Kept whole e leave at = absurd at
Move-Kept whole e count at = absurd at

step-IsSuper :
    (n i pointer : ℕ) (page : PageObject) (s s' : Shared) (pc : ℕ → Pc) (p' : Pc)
    → i < n
    → Move s (pc i) s' p'
    → IsSuper n pointer page s pc
    → IsSuper n pointer page s' (update pc i p')
step-IsSuper n i pointer page s s' pc p' lt mv is =
    let kept : Kept s s' pointer p' = Move-Kept is.whole is.same_pointer mv (is.places i lt) in
    record {
      whole = kept.same_whole ∙ is.whole;
      same_pointer = kept.same_pointer ∙ is.same_pointer;
      same_page = kept.same_page ∙ is.same_page;
      places = λ j in_n. elim (Bool-cases (j == i)) [
        | inl same ↦ rw same kept.place
        | inr other ↦ rw other (is.places j in_n)
      ];
    }

pub Reach-IsSuper :
    {n pointer : ℕ} {page : PageObject} {s : Shared} {pc : ℕ → Pc} {s' : Shared} {pc' : ℕ → Pc}
    → IsSuper n pointer page s pc
    → Reach n s pc s' pc'
    → IsSuper n pointer page s' pc'
Reach-IsSuper is here = is
Reach-IsSuper is (next r (move i lt mv)) = step-IsSuper _ i _ _ _ _ _ _ lt mv (Reach-IsSuper is r)
