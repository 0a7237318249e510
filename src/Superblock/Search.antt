-- ===== src/Superblock/Search.antt =====
-- `getSuperblock` finds the first superblock of a file.
use getmatvar.Common.{
  ℕ, zero, suc, ◌+◌, ◌*◌, ◌<◌, ◌≡◌, refl, ap, ◌∙◌, true, false, Bool-cases, inl, inr, none, some,
  List, arith, length, take, drop, ltb, ltb→lt, lt→ltb,
}
use getmatvar.NumberHelper.{ByteOrder, ◌>>=◌}
use getmatvar.Superblock.{
  superblock_interval, is_signed, find_loop, find_superblock, fill_superblock, get_superblock,
}

-- The bytes that the `i`-th round looks at.
abbrev pub block : List ℕ → ℕ → List ℕ
block file i = take superblock_interval (drop (i * superblock_interval) file)

next : (i : ℕ) → i * 512 + 512 ≡ suc i * 512
next i = omega arith

module _ (file : List ℕ) where
  one_round :
      (fuel i : ℕ)
      → i * 512 < length file
      → is_signed (block file i) ≡ false
      → find_loop (suc fuel) file (i * 512) ≡ find_loop fuel file (suc i * 512)
  unfolding find_loop
  one_round fuel i inside unsigned =
      rw (lt→ltb (i * 512) (length file) inside, unsigned)
        (ap (λ (a : ℕ). find_loop fuel file a) (next i))

  find_loop-first :
      (n fuel left i : ℕ)
      → i + left ≡ n
      → left < fuel
      → n * 512 < length file
      → ((j : ℕ) → j < n → is_signed (block file j) ≡ false)
      → is_signed (block file n) ≡ true
      → find_loop fuel file (i * 512) ≡ some (some (block file n))
  unfolding find_loop
  find_loop-first n zero left i at_i enough inside before signed = absurd (omega arith)
  find_loop-first n (suc fuel) zero i at_i enough inside before signed =
      ap (λ (k : ℕ). find_loop (suc fuel) file (k * 512)) same
      ∙ rw (lt→ltb (n * 512) (length file) inside, signed) refl
    where
      same : i ≡ n
      same = omega (arith, at_i)
  find_loop-first n (suc fuel) (suc left) i at_i enough inside before signed =
      one_round fuel i (omega (arith, at_i, inside)) (before i (omega (arith, at_i)))
      ∙ find_loop-first n fuel left (suc i) (omega (arith, at_i)) (omega arith) inside before signed

  find_loop-none :
      (fuel i : ℕ)
      → 0 < fuel
      → length file < fuel + i * 512
      → ((j : ℕ) → j * 512 < length file → is_signed (block file j) ≡ false)
      → find_loop fuel file (i * 512) ≡ some none
  unfolding find_loop
  find_loop-none zero i some_fuel enough unsigned = absurd (omega arith)
  find_loop-none (suc fuel) i some_fuel enough unsigned =
      elim (Bool-cases (ltb (i * 512) (length file))) [
        | inl inside ↦
            one_round fuel i (ltb→lt _ _ inside) (unsigned i (ltb→lt _ _ inside))
            ∙ find_loop-none fuel (suc i) (omega (arith, ltb→lt _ _ inside, enough))
                (omega (arith, enough)) unsigned
        | inr outside ↦ rw outside refl
      ]

module _ (host : ByteOrder) (file : List ℕ) where
  -- If the signature stands at a multiple of 512 bytes in the file and at no smaller one, the search
  -- ends and `getSuperblock` gives what `fillSuperblock` reads there.
  pub get_superblock-first :
      (n : ℕ)
      → n * 512 < length file
      → ((j : ℕ) → j < n → is_signed (block file j) ≡ false)
      → is_signed (block file n) ≡ true
      → get_superblock host file ≡ (fill_superblock host (block file n) >>= λ s. some (some s))
  unfolding get_superblock find_superblock
  get_superblock-first n inside before signed =
      rw
        (find_loop-first file n (suc (length file)) n 0 (omega arith) (omega (arith, inside)) inside
          before signed)
        refl

  -- If the signature stands at no multiple of 512 bytes in the file, the search ends and the program
  -- stops with an error.
  pub get_superblock-none :
      ((j : ℕ) → j * 512 < length file → is_signed (block file j) ≡ false)
      → get_superblock host file ≡ some none
  unfolding get_superblock find_superblock
  get_superblock-none unsigned =
      rw (find_loop-none file (suc (length file)) 0 (omega arith) (omega arith) unsigned) refl
