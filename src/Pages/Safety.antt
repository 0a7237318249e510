-- ===== src/Pages/Safety.antt =====
-- What the threads of `doInflate_` can rely on while they share a page.
use native.Mathlib.Nat.{div-add-mod}
use getmatvar.Common.{
  ℕ, ◌+◌, ◌-◌, ◌*◌, ◌/◌, ◌%◌, ◌≤◌, ◌<◌, ◌≡◌, refl, sym, ap, ◌∙◌, true, false, List, arith,
  Bool-cases, Bool, inl, inr, ◌⊎◌, subst,
}
use getmatvar.Pages.{PageObject, Shared, Pc, DataPair, Reach, count_chunks, using, idle}
use getmatvar.Pages.Family.{total, total-at}
use getmatvar.Pages.Counts.{maps, uses, busy_with}
use getmatvar.Pages.Invariant.{Inv, Reach-Inv, all_idle, total_idle}
use getmatvar.Pages.Start.{
  start, IsAtRest, IsCounted, start-Inv, start-size, start-first, Reach-SameExtent,
}
use getmatvar.Pages.Super.{AtSuper, IsSuper, Reach-IsSuper}

in_page : (a g i start : ℕ) → a / g ≡ i → start ≡ g * i → a - start ≡ a % g
in_page a g i start e same = omega (arith, div-add-mod a g, same ∙ ap (λ (k : ℕ). g * k) (sym e))

module _ {n alloc_gran index : ℕ} {page : PageObject} {cs : List DataPair} {pointer usage : ℕ}
    {c : DataPair} {s : Shared} {pc : ℕ → Pc} (few : n < 256)
    (rests : IsAtRest alloc_gran index page) (is : IsCounted c cs) where
  Inv-after : Reach n (start false pointer alloc_gran page cs usage) all_idle s pc → Inv n s pc
  Inv-after r = Reach-Inv few (start-Inv alloc_gran index page cs usage c rests is n pointer) r

  -- On a file that is not mapped whole.
  page_mapped :
      (j p : ℕ)
      → c.address / alloc_gran ≡ index
      → Reach n (start false pointer alloc_gran page cs usage) all_idle s pc
      → j < n
      → pc j ≡ using c.address p
      → (s.page.is_mapped ≡ true)
        × (p ≡ s.page.pg_start_p + c.address % alloc_gran)
        × (p + c.chunk_size ≤ s.page.pg_start_p + s.page.map_size)
  page_mapped j p own r lt e = (good.0, place, omega (arith, place, good.1, size, extent.0))
    where
      inv : Inv n s pc
      inv = Inv-after r

      used : 1 ≤ total uses n pc
      used = omega (arith, total-at uses n j pc lt, ap uses e)

      good : (s.page.is_mapped ≡ true) × (s.page.max_map_size ≤ s.page.map_size)
      good = inv.counts.mapped used

      extent :
          (s.page.max_map_size ≡ (start false pointer alloc_gran page cs usage).page.max_map_size)
          × (s.page.pg_start_a ≡ (start false pointer alloc_gran page cs usage).page.pg_start_a)
      extent = Reach-SameExtent r

      size :
          c.address % alloc_gran + c.chunk_size
          ≤ (start false pointer alloc_gran page cs usage).page.max_map_size
      size = start-size alloc_gran index page cs usage c rests is false pointer

      place : p ≡ s.page.pg_start_p + c.address % alloc_gran
      place =
          inv.pointers j lt c.address p e
          ∙ ap (λ (k : ℕ). s.page.pg_start_p + k)
              (in_page c.address alloc_gran index s.page.pg_start_a own
                (extent.1 ∙ start-first alloc_gran index page cs usage c rests is false pointer))

-- On a file that is mapped whole.
super_mapped :
    (n alloc_gran : ℕ) (page : PageObject) (cs : List DataPair) (pointer usage a : ℕ) (s : Shared)
    (pc : ℕ → Pc) (j p : ℕ)
    → Reach n (start true pointer alloc_gran page cs usage) all_idle s pc
    → j < n
    → pc j ≡ using a p
    → (p ≡ pointer + a) × (s.page ≡ count_chunks alloc_gran page cs)
super_mapped n alloc_gran page cs pointer usage a s pc j p r lt e =
    let is : IsSuper n pointer (count_chunks alloc_gran page cs) s pc =
      Reach-IsSuper
        (record { whole = refl; same_pointer = refl; same_page = refl; places = λ k in_n. tt }) r in
    (subst (AtSuper pointer) e (is.places j lt), is.same_page)

-- After any moves of fewer than 256 threads on a page at rest in which `fillNode` has counted fewer
-- than 2^32 chunks, one of them with a byte or more: while a thread uses the pointer that
-- `mt_navigateTo` gave it for this chunk, either the file is mapped whole, the pointer is to the
-- chunk's address in that map and the page is as `fillNode` left it, or the file is not mapped
-- whole, the page is mapped, the pointer is to the chunk's place in the map, and the chunk's bytes
-- lie in the map.
pub using-mapped :
    (n alloc_gran index : ℕ) (page : PageObject) (cs : List DataPair) (whole : Bool)
    (pointer usage : ℕ) (c : DataPair) (s : Shared) (pc : ℕ → Pc) (j p : ℕ)
    → n < 256
    → IsAtRest alloc_gran index page
    → IsCounted c cs
    → c.address / alloc_gran ≡ index
    → Reach n (start whole pointer alloc_gran page cs usage) all_idle s pc
    → j < n
    → pc j ≡ using c.address p
    → ((whole ≡ true) × (p ≡ pointer + c.address) × (s.page ≡ count_chunks alloc_gran page cs))
      ⊎ ((whole ≡ false)
          × (s.page.is_mapped ≡ true)
          × (p ≡ s.page.pg_start_p + c.address % alloc_gran)
          × (p + c.chunk_size ≤ s.page.pg_start_p + s.page.map_size))
using-mapped n alloc_gran index page cs true pointer usage c s pc j p few rests is own r lt e =
    let (place, same) = super_mapped n alloc_gran page cs pointer usage c.address s pc j p r lt e in
    inl (refl, place, same)
using-mapped n alloc_gran index page cs false pointer usage c s pc j p few rests is own r lt e =
    let (mapped, place, inside) = page_mapped few rests is j p own r lt e in
    inr (refl, mapped, place, inside)

-- After any moves of fewer than 256 threads on a page at rest, of a file that is not mapped whole,
-- in which `fillNode` has counted fewer than 2^32 chunks, one of them with a byte or more: once
-- every chunk was taken and every thread is behind its last, the page is at rest again: not mapped,
-- with its start in the file, and no use and no chunk of it counted.
pub finished-IsAtRest :
    (n alloc_gran index : ℕ) (page : PageObject) (cs : List DataPair) (pointer usage : ℕ)
    (c : DataPair) (s : Shared) (pc : ℕ → Pc)
    → n < 256
    → IsAtRest alloc_gran index page
    → IsCounted c cs
    → Reach n (start false pointer alloc_gran page cs usage) all_idle s pc
    → s.chunks ≡ 0
    → ((j : ℕ) → j < n → pc j ≡ idle)
    → IsAtRest alloc_gran index s.page
finished-IsAtRest n alloc_gran index page cs pointer usage c s pc few rests is r none_left free =
    let inv = Inv-after few rests is r in
    let nobody : total busy_with n pc ≡ 0 = total_idle busy_with n pc refl free in
    let gone : s.page.is_mapped ≡ false = elim (Bool-cases s.page.is_mapped) [
      | inl still ↦ absurd (omega (arith, inv.counts.kept still, inv.counts.mappings_left))
      | inr gone ↦ gone
    ] in
    record {
      first =
          (Reach-SameExtent r).1
          ∙ start-first alloc_gran index page cs usage c rests is false pointer;
      not_mapped = gone;
      no_size = inv.counts.no_size gone;
      nobody = omega (
        arith,
        inv.counts.num_using_counts,
        total_idle maps n pc refl free,
        total_idle uses n pc refl free,
      );
      no_chunks = omega (arith, inv.counts.mappings_left);
    }
