-- ===== src/FillObject/Tracker.antt =====
-- The bits of `repeat_tracker` are the types of the messages that were read.
use getmatvar.Common.{
  ℕ, ◌+◌, ◌^◌, ◌≡◌, refl, sym, subst, ◌∙◌, Bool, true, false, ◌||◌, inl, inr, ◌⊎◌, List, [], ◌∷◌,
  arith, ◌==◌,
}
use getmatvar.FillObject.{is_once, is_repeated}

abbrev pub is_member : ℕ → List ℕ → Bool
is_member t [] = false
is_member t (s ∷ seen) = t == s || is_member t seen

abbrev Agrees : ℕ → List ℕ → ℕ → Type 0
Agrees tracker seen t = is_repeated tracker t ≡ is_member t seen

abbrev pub Tracks : ℕ → List ℕ → Type 0
Tracks tracker seen =
    (is_repeated tracker 1 ≡ is_member 1 seen)
    × (is_repeated tracker 3 ≡ is_member 3 seen)
    × (is_repeated tracker 8 ≡ is_member 8 seen)
    × (is_repeated tracker 11 ≡ is_member 11 seen)

pub once_cases : (t : ℕ) → is_once t ≡ true → (t ≡ 1) ⊎ (t ≡ 3) ⊎ (t ≡ 8) ⊎ (t ≡ 11)
once_cases t once = ground arith

pub Tracks-none : Tracks 0 []
Tracks-none = (refl, refl, refl, refl)

pub repeated-Tracks :
    (tracker t : ℕ) (seen : List ℕ)
    → Tracks tracker seen
    → is_once t ≡ true
    → is_repeated tracker t ≡ is_member t seen
repeated-Tracks tracker t seen tracks once = elim (once_cases t once) [
  | inl e ↦ subst (Agrees tracker seen) (sym e) tracks.0
  | inr (inl e) ↦ subst (Agrees tracker seen) (sym e) tracks.1
  | inr (inr (inl e)) ↦ subst (Agrees tracker seen) (sym e) tracks.2
  | inr (inr (inr e)) ↦ subst (Agrees tracker seen) (sym e) tracks.3
]

module _ (tracker : ℕ) where
  bits_1 :
      is_repeated tracker 1 ≡ false
      → (is_repeated (tracker + 2) 1 ≡ true)
        × (is_repeated (tracker + 2) 3 ≡ is_repeated tracker 3)
        × (is_repeated (tracker + 2) 8 ≡ is_repeated tracker 8)
        × (is_repeated (tracker + 2) 11 ≡ is_repeated tracker 11)
  bits_1 new = ground arith

  bits_3 :
      is_repeated tracker 3 ≡ false
      → (is_repeated (tracker + 8) 1 ≡ is_repeated tracker 1)
        × (is_repeated (tracker + 8) 3 ≡ true)
        × (is_repeated (tracker + 8) 8 ≡ is_repeated tracker 8)
        × (is_repeated (tracker + 8) 11 ≡ is_repeated tracker 11)
  bits_3 new = ground arith

  bits_8 :
      is_repeated tracker 8 ≡ false
      → (is_repeated (tracker + 256) 1 ≡ is_repeated tracker 1)
        × (is_repeated (tracker + 256) 3 ≡ is_repeated tracker 3)
        × (is_repeated (tracker + 256) 8 ≡ true)
        × (is_repeated (tracker + 256) 11 ≡ is_repeated tracker 11)
  bits_8 new = ground arith

  bits_11 :
      is_repeated tracker 11 ≡ false
      → (is_repeated (tracker + 2048) 1 ≡ is_repeated tracker 1)
        × (is_repeated (tracker + 2048) 3 ≡ is_repeated tracker 3)
        × (is_repeated (tracker + 2048) 8 ≡ is_repeated tracker 8)
        × (is_repeated (tracker + 2048) 11 ≡ true)
  bits_11 new = ground arith

pub track-Tracks :
    (tracker t : ℕ) (seen : List ℕ)
    → Tracks tracker seen
    → is_once t ≡ true
    → is_member t seen ≡ false
    → Tracks (tracker + 2 ^ t) (t ∷ seen)
track-Tracks tracker t seen tracks once new = elim (once_cases t once) [
  | inl e ↦
      subst (λ (k : ℕ). Tracks (tracker + 2 ^ k) (k ∷ seen)) (sym e)
        (let (one, three, eight, eleven) =
            bits_1 tracker (tracks.0 ∙ subst (λ (k : ℕ). is_member k seen ≡ false) e new) in
          (one, three ∙ tracks.1, eight ∙ tracks.2, eleven ∙ tracks.3))
  | inr (inl e) ↦
      subst (λ (k : ℕ). Tracks (tracker + 2 ^ k) (k ∷ seen)) (sym e)
        (let (one, three, eight, eleven) =
            bits_3 tracker (tracks.1 ∙ subst (λ (k : ℕ). is_member k seen ≡ false) e new) in
          (one ∙ tracks.0, three, eight ∙ tracks.2, eleven ∙ tracks.3))
  | inr (inr (inl e)) ↦
      subst (λ (k : ℕ). Tracks (tracker + 2 ^ k) (k ∷ seen)) (sym e)
        (let (one, three, eight, eleven) =
            bits_8 tracker (tracks.2 ∙ subst (λ (k : ℕ). is_member k seen ≡ false) e new) in
          (one ∙ tracks.0, three ∙ tracks.1, eight, eleven ∙ tracks.3))
  | inr (inr (inr e)) ↦
      subst (λ (k : ℕ). Tracks (tracker + 2 ^ k) (k ∷ seen)) (sym e)
        (let (one, three, eight, eleven) =
            bits_11 tracker (tracks.3 ∙ subst (λ (k : ℕ). is_member k seen ≡ false) e new) in
          (one ∙ tracks.0, three ∙ tracks.1, eight ∙ tracks.2, eleven))
]
