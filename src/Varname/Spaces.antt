-- ===== src/Varname/Spaces.antt =====
-- `removeSpaces` on a buffer.
use getmatvar.Common.{
  ℕ, zero, suc, ◌+◌, ◌<◌, ◌≡◌, ◌≢◌, refl, sym, ap, subst, ◌∙◌, inl, inr, true, false, List, [], ◌∷◌,
  ◌++◌, append_assoc, append-nil, arith, length, get_or, set, length-append, set-middle, ◌==◌,
  Bool-cases, if◌then◌else◌,
}
use getmatvar.Varname.{remove_loop, remove_spaces}

-- The string in a buffer: what stands before the zero.
abbrev pub c_string : List ℕ → List ℕ
c_string [] = []
c_string (c ∷ cs) = if c == 0 then [] else c ∷ c_string cs

abbrev pub without_spaces : List ℕ → List ℕ
without_spaces [] = []
without_spaces (c ∷ cs) = if c == 32 then without_spaces cs else c ∷ without_spaces cs

abbrev pub NoZero : List ℕ → Type 0
NoZero s = (i : ℕ) → i < length s → get_or s i 0 ≢ 0

get_or-middle : (xs ys : List ℕ) (y : ℕ) → get_or (xs ++ y ∷ ys) (length xs) 0 ≡ y
get_or-middle [] ys y = refl
get_or-middle (x ∷ xs) ys y = get_or-middle xs ys y

NoZero-head : (c : ℕ) (s : List ℕ) → NoZero (c ∷ s) → (c == 0) ≡ false
NoZero-head c s good = ground (arith, good 0)

NoZero-tail : (c : ℕ) (s : List ℕ) → NoZero (c ∷ s) → NoZero s
NoZero-tail c s good i lt = good (suc i) (omega arith)

c_string-cons : (c : ℕ) (s : List ℕ) → (c == 0) ≡ false → c_string (c ∷ s) ≡ c ∷ c_string s
c_string-cons c s e = ap (λ b. if b then [] else c ∷ c_string s) e

without_space : (c : ℕ) (s : List ℕ) → (c == 32) ≡ true → without_spaces (c ∷ s) ≡ without_spaces s
without_space c s e = ap (λ b. if b then without_spaces s else c ∷ without_spaces s) e

with_other :
    (c : ℕ) (s : List ℕ) → (c == 32) ≡ false → without_spaces (c ∷ s) ≡ c ∷ without_spaces s
with_other c s e = ap (λ b. if b then without_spaces s else c ∷ without_spaces s) e

c_string-zero : (s rest : List ℕ) → NoZero s → c_string (s ++ 0 ∷ rest) ≡ s
c_string-zero [] rest good = refl
c_string-zero (c ∷ s) rest good =
    c_string-cons c (s ++ 0 ∷ rest) (NoZero-head c s good)
    ∙ ap (λ l. c ∷ l) (c_string-zero s rest (NoZero-tail c s good))

NoZero-cons : (c : ℕ) (s : List ℕ) → c ≢ 0 → NoZero s → NoZero (c ∷ s)
NoZero-cons c s nonzero good zero lt = nonzero
NoZero-cons c s nonzero good (suc i) lt = good i (omega arith)

without_spaces-NoZero : (s : List ℕ) → NoZero s → NoZero (without_spaces s)
without_spaces-NoZero [] good = good
without_spaces-NoZero (c ∷ s) good =
    let rest = without_spaces-NoZero s (NoZero-tail c s good) in
    elim (Bool-cases (c == 32)) [
      | inl space ↦ subst NoZero (sym (without_space c s space)) rest
      | inr kept ↦
          subst NoZero (sym (with_other c s kept))
            (NoZero-cons c (without_spaces s) (good 0 (omega arith)) rest)
    ]

-- What stands between the two pointers once the character under the second has been written under
-- the first.
abbrev shift : List ℕ → ℕ → List ℕ
shift [] c = []
shift (x ∷ junk) c = junk ++ (c ∷ [])

length-shift : (junk : List ℕ) (c : ℕ) → length (shift junk c) ≡ length junk
length-shift [] c = refl
length-shift (x ∷ junk) c = omega (arith, length-append junk (c ∷ []))

set-shift :
    (done junk s : List ℕ) (c : ℕ)
    → set (done ++ (junk ++ c ∷ s)) (length done) c ≡ done ++ c ∷ (shift junk c ++ s)
set-shift done [] s c = set-middle done s c c
set-shift done (x ∷ junk) s c =
    set-middle done (junk ++ c ∷ s) x c
    ∙ ap (λ l. done ++ c ∷ l) (sym (append_assoc junk (c ∷ []) s))

get_or-pointer :
    (done junk s : List ℕ) (c : ℕ)
    → get_or (done ++ (junk ++ c ∷ s)) (length done + length junk) 0 ≡ c
get_or-pointer done junk s c =
    rw (sym (append_assoc done junk (c ∷ s)), sym (length-append done junk))
      (get_or-middle (done ++ junk) s c)

abbrev Result : List ℕ → List ℕ → Type 0
Result buf s = (rest : List ℕ) × (buf ≡ s ++ 0 ∷ rest)

remove_loop-run :
    (s done junk tail : List ℕ) (fuel i j : ℕ)
    → NoZero s
    → length s < fuel
    → i ≡ length done
    → j ≡ length done + length junk
    → Result (remove_loop fuel i j (done ++ (junk ++ (s ++ 0 ∷ tail)))) (done ++ without_spaces s)
unfolding remove_loop
remove_loop-run s done junk tail zero i j good enough ei ej = elim (not_less enough) [ ]
  where
    not_less : length s < 0 → ⊥
    not_less lt = omega arith
remove_loop-run [] done junk tail (suc fuel) i j good enough ei ej = (
  shift junk 0 ++ tail,
  rw (ei, ej, get_or-pointer done junk tail 0, set-shift done junk tail 0)
      (ap (λ l. l ++ 0 ∷ (shift junk 0 ++ tail)) (sym (append-nil done))),
)
remove_loop-run (c ∷ s) done junk tail (suc fuel) i j good enough ei ej =
    elim (Bool-cases (c == 32)) [
      | inl space ↦
          let p =
            remove_loop-run s done (c ∷ shift junk c) tail fuel i (j + 1) (NoZero-tail c s good)
              (omega arith) ei (omega (arith, ej, length-shift junk c)) in
          (
            p.0,
            step
                ∙ ap (λ b. remove_loop fuel (if b then i else i + 1) (j + 1) after) space
                ∙ p.1
                ∙ ap (λ l. (done ++ l) ++ 0 ∷ p.0) (sym (without_space c s space)),
          )
      | inr kept ↦
          let p =
            remove_loop-run s (done ++ (c ∷ [])) (shift junk c) tail fuel (i + 1) (j + 1)
              (NoZero-tail c s good) (omega arith) (omega (arith, ei, length-append done (c ∷ [])))
              (omega (arith, ej, length-shift junk c, length-append done (c ∷ []))) in
          (
            p.0,
            step
                ∙ ap (λ b. remove_loop fuel (if b then i else i + 1) (j + 1) after) kept
                ∙ ap (λ l. remove_loop fuel (i + 1) (j + 1) l)
                    (sym (append_assoc done (c ∷ []) (shift junk c ++ (s ++ 0 ∷ tail))))
                ∙ p.1
                ∙ ap (λ l. l ++ 0 ∷ p.0)
                    (append_assoc done (c ∷ []) (without_spaces s)
                      ∙ ap (λ l. done ++ l) (sym (with_other c s kept))),
          )
    ]
  where
    after : List ℕ
    after = done ++ c ∷ (shift junk c ++ (s ++ 0 ∷ tail))

    step :
        remove_loop (suc fuel) i j (done ++ (junk ++ (c ∷ (s ++ 0 ∷ tail))))
        ≡ remove_loop fuel (if c == 32 then i else i + 1) (j + 1) after
    step =
        rw (ei, ej, get_or-pointer done junk (s ++ 0 ∷ tail) c, NoZero-head c s good)
          (ap
            (λ l.
              remove_loop fuel (if c == 32 then length done else length done + 1)
                (length done + length junk + 1) l)
            (set-shift done junk (s ++ 0 ∷ tail) c))

-- `removeSpaces` on a buffer that holds a string and the zero that ends it leaves there that string
-- without its spaces.
pub remove_spaces-without :
    (s tail : List ℕ) → NoZero s → c_string (remove_spaces (s ++ 0 ∷ tail)) ≡ without_spaces s
unfolding remove_spaces
remove_spaces-without s tail good =
    let p =
      remove_loop-run s [] [] tail (length (s ++ 0 ∷ tail)) 0 0 good
        (omega (arith, length-append s (0 ∷ tail))) refl refl in
    rw p.1 (c_string-zero (without_spaces s) p.0 (without_spaces-NoZero s good))
