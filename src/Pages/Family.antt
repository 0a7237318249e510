-- ===== src/Pages/Family.antt =====
-- The threads of a system as a family, of which one changes in each step.
use getmatvar.Common.{
  ℕ, zero, suc, ◌+◌, ◌≤◌, ◌<◌, ◌≡◌, ◌≢◌, refl, ap, if◌then◌else◌, ◌==◌, inl, inr, arith, ◌⊎◌,
}

module _ {ℓ} {A : Type ℓ} where
  abbrev pub update : (ℕ → A) → ℕ → A → ℕ → A
  update f i a j = if j == i then a else f j

  -- The sum of a number over the first `n` threads.
  abbrev pub total : (A → ℕ) → ℕ → (ℕ → A) → ℕ
  total g zero f = 0
  total g (suc n) f = g (f n) + total g n f

  pub update_self : (f : ℕ → A) (i : ℕ) (a : A) → update f i a i ≡ a
  update_self f i a = ground arith

  pub update_other : (f : ℕ → A) (i j : ℕ) (a : A) → j ≢ i → update f i a j ≡ f j
  update_other f i j a ne = ground arith

  total-past :
      (g : A → ℕ) (n i : ℕ) (f : ℕ → A) (a : A) → n ≤ i → total g n (update f i a) ≡ total g n f
  total-past g zero i f a le = refl
  total-past g (suc n) i f a le =
      rw (update_other f i n a (omega (arith, le)))
        (ap (λ (k : ℕ). g (f n) + k) (total-past g n i f a (omega (arith, le))))

  pub total-update :
      (g : A → ℕ) (n i : ℕ) (f : ℕ → A) (a : A)
      → i < n
      → total g n (update f i a) + g (f i) ≡ total g n f + g a
  total-update g zero i f a lt = absurd (omega (arith, lt))
  total-update g (suc n) i f a lt = elim (last_or_before lt) [
    | inl e ↦ rw (e, update_self f n a, total-past g n n f a (omega arith)) (omega arith)
    | inr before ↦
        rw (update_other f i n a (omega (arith, before)))
          (omega (arith, total-update g n i f a before))
  ]
    where
      last_or_before : i < suc n → (i ≡ n) ⊎ (i < n)
      last_or_before lt = omega arith

  pub total-at : (g : A → ℕ) (n i : ℕ) (f : ℕ → A) → i < n → g (f i) ≤ total g n f
  total-at g zero i f lt = absurd (omega (arith, lt))
  total-at g (suc n) i f lt = elim (last_or_before lt) [
    | inl e ↦ rw e (omega arith)
    | inr before ↦ omega (arith, total-at g n i f before)
  ]
    where
      last_or_before : i < suc n → (i ≡ n) ⊎ (i < n)
      last_or_before lt = omega arith
