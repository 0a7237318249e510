-- ===== src/ChunkedData/Copy/Sides.antt =====
-- The sides of a chunk that lies over the edge of the array.
use getmatvar.Common.{
  ℕ, zero, suc, ◌+◌, ◌-◌, ◌≤◌, ◌<◌, ◌≡◌, refl, sym, ap, ◌∙◌, ◌⊎◌, inl, inr, Bool, false, List, [],
  ◌∷◌, map, arith, length, get_or, get_or_ext, set, replicate, length-set, get_or-set_self,
  get_or-set_ne, ltb, if◌then◌else◌, min, ℤ, pos, +ℤ-pos, -ℤ-pos, Bool-cases, ltb→lt,
}
use getmatvar.ChunkedData.Position.{get_or-map_pos}
use getmatvar.ChunkedData.Copy.{ltb_ℤ, clamped, clamp_loop}

-- `f` at `count` places from `from` on.
abbrev pub entries : (ℕ → ℕ) → ℕ → ℕ → List ℕ
entries f zero from = []
entries f (suc count) from = f from ∷ entries f count (suc from)

length-entries : (f : ℕ → ℕ) (count from : ℕ) → length (entries f count from) ≡ count
length-entries f zero from = refl
length-entries f (suc count) from = ap suc (length-entries f count (suc from))

get_or-entries_from :
    (f : ℕ → ℕ) (count from k : ℕ) → k < count → get_or (entries f count from) k 0 ≡ f (from + k)
get_or-entries_from f zero from k lt = absurd (omega (arith, lt))
get_or-entries_from f (suc count) from zero lt = ap f (omega arith)
get_or-entries_from f (suc count) from (suc k) lt =
    get_or-entries_from f count (suc from) k (omega arith) ∙ ap f (omega arith)

pub get_or-entries : (f : ℕ → ℕ) (count k : ℕ) → k < count → get_or (entries f count 0) k 0 ≡ f k
get_or-entries f count k lt = get_or-entries_from f count 0 k lt ∙ ap f (omega arith)

pub get_or-entries_past :
    (f : ℕ → ℕ) (count from k : ℕ) → count ≤ k → get_or (entries f count from) k 0 ≡ 0
get_or-entries_past f zero from k past = refl
get_or-entries_past f (suc count) from zero past = absurd (omega (arith, past))
get_or-entries_past f (suc count) from (suc k) past =
    get_or-entries_past f count (suc from) k (omega arith)

pub get_or-zeros : (count k : ℕ) → get_or (replicate count (pos 0)) k (pos 0) ≡ pos 0
get_or-zeros zero k = refl
get_or-zeros (suc count) zero = refl
get_or-zeros (suc count) (suc k) = get_or-zeros count k

clamped-min :
    (side start size : ℕ)
    → start ≤ size
    → clamped (pos side) (pos start) (pos size) ≡ pos (min side (size - start))
unfolding clamped
clamped-min side start size le =
    rw (+ℤ-pos start side) (elim (Bool-cases (ltb_ℤ (pos size) (pos (start + side)))) [
      | inl over ↦
          rw
            (
              over,
              -ℤ-pos (start + side) size (ground arith),
              -ℤ-pos side (start + side - size) (ground arith),
            )
            (ap pos (ground arith))
      | inr within ↦ rw (within, -ℤ-pos side 0 (omega arith)) (ap pos (ground arith))
    ])

module _ (chunked_dims start dims : List ℕ) where
  -- The side of dimension `k`, of the first `n`.
  abbrev pub side_at : ℕ → ℕ → ℕ
  side_at n k =
      if ltb k n then min (get_or chunked_dims k 0) (get_or dims k 0 - get_or start k 0) else 0

  abbrev pub sides_of : ℕ → List ℕ
  sides_of n = entries (side_at n) 33 0

  abbrev clamp : ℕ → ℕ → List ℤ → List ℤ
  clamp left j these = clamp_loop left j these (map pos chunked_dims) (map pos start) (map pos dims)

  length-clamp : (left j : ℕ) (these : List ℤ) → length (clamp left j these) ≡ length these
  unfolding clamp_loop
  length-clamp zero j these = refl
  length-clamp (suc left) j these = length-clamp left (suc j) _ ∙ length-set these j _

  clamp-outside :
      (left j k : ℕ) (these : List ℤ)
      → (k < j) ⊎ (j + left ≤ k)
      → get_or (clamp left j these) k (pos 0) ≡ get_or these k (pos 0)
  unfolding clamp_loop
  clamp-outside zero j k these out = refl
  clamp-outside (suc left) j k these out =
      clamp-outside left (suc j) k _ (elim out [
        | inl before ↦ inl (omega (arith, before))
        | inr past ↦ inr (omega (arith, past))
      ])
      ∙ get_or-set_ne these j k _ (pos 0)
          (elim out [ inl before ↦ omega (arith, before) | inr past ↦ omega (arith, past) ])

  clamped_at :
      (j : ℕ)
      → get_or start j 0 ≤ get_or dims j 0
      → clamped
          (get_or (map pos chunked_dims) j (pos 0))
          (get_or (map pos start) j (pos 0))
          (get_or (map pos dims) j (pos 0))
        ≡ pos (min (get_or chunked_dims j 0) (get_or dims j 0 - get_or start j 0))
  clamped_at j le =
      rw (get_or-map_pos chunked_dims j, get_or-map_pos start j, get_or-map_pos dims j)
        (clamped-min (get_or chunked_dims j 0) (get_or start j 0) (get_or dims j 0) le)

  clamp-at :
      (left j k : ℕ) (these : List ℤ)
      → j + left ≤ length these
      → j ≤ k
      → k < j + left
      → get_or start k 0 ≤ get_or dims k 0
      → get_or (clamp left j these) k (pos 0)
        ≡ pos (min (get_or chunked_dims k 0) (get_or dims k 0 - get_or start k 0))
  unfolding clamp_loop
  clamp-at zero j k these room from to le = absurd (omega (arith, from, to))
  clamp-at (suc left) j k these room from to le = elim (first_or_after from) [
    | inl e ↦
        clamp-outside left (suc j) k _ (inl (omega (arith, e)))
        ∙ rw e
            (get_or-set_self these j _ (pos 0) (omega (arith, room)) ∙ clamped_at j (rw (sym e) le))
    | inr after ↦
        clamp-at left (suc j) k (set these j value) (omega (arith, room, length-set these j value))
          after (omega (arith, to)) le
  ]
    where
      value : ℤ
      value =
          clamped (get_or (map pos chunked_dims) j (pos 0)) (get_or (map pos start) j (pos 0))
            (get_or (map pos dims) j (pos 0))

      first_or_after : j ≤ k → (k ≡ j) ⊎ (suc j ≤ k)
      first_or_after le = omega arith

  -- The sides after the loop, for a chunk that starts in the array.
  pub clamp_loop-sides :
      (n : ℕ)
      → n ≤ 32
      → ((k : ℕ) → k < n → get_or start k 0 < get_or dims k 0)
      → clamp_loop n 0 (replicate 33 (pos 0)) (map pos chunked_dims) (map pos start) (map pos dims)
        ≡ map pos (sides_of n)
  clamp_loop-sides n few inside =
      get_or_ext (pos 0) (clamp n 0 (replicate 33 (pos 0))) (map pos (sides_of n))
        (length-clamp n 0 (replicate 33 (pos 0)) ∙ refl)
        (λ k lt.
          entry k (below_33 k lt)
          ∙ sym (
              get_or-map_pos (sides_of n) k
              ∙ ap pos (get_or-entries (side_at n) 33 k (below_33 k lt))))
    where
      below_33 : (k : ℕ) → k < length (clamp n 0 (replicate 33 (pos 0))) → k < 33
      below_33 k lt = omega (arith, lt, length-clamp n 0 (replicate 33 (pos 0)))

      past_end : (k : ℕ) → ltb k n ≡ false → n ≤ k
      past_end k past = ground arith

      entry :
          (k : ℕ) → k < 33 → get_or (clamp n 0 (replicate 33 (pos 0))) k (pos 0) ≡ pos (side_at n k)
      entry k lt = elim (Bool-cases (ltb k n)) [
        | inl below ↦
            clamp-at n 0 k (replicate 33 (pos 0)) (omega (arith, few)) (omega arith)
              (omega (arith, ltb→lt _ _ below)) (omega (arith, inside k (ltb→lt _ _ below)))
            ∙ ap
                (λ (t : Bool). pos (
                  if t
                  then min (get_or chunked_dims k 0) (get_or dims k 0 - get_or start k 0)
                  else 0))
                (sym below)
        | inr past ↦
            clamp-outside n 0 k (replicate 33 (pos 0)) (inr (omega (arith, past_end k past)))
            ∙ get_or-zeros 33 k
            ∙ ap
                (λ (t : Bool). pos (
                  if t
                  then min (get_or chunked_dims k 0) (get_or dims k 0 - get_or start k 0)
                  else 0))
                (sym past)
      ]
