-- ===== src/Varname/Coordinates.antt =====
-- Tokens of the request that are numbers.
use getmatvar.Common.{
  ℕ, zero, suc, ◌+◌, ◌-◌, ◌*◌, ◌%◌, ◌^◌, ◌≤◌, ◌<◌, ◌≡◌, refl, sym, ap, ◌∙◌, append-nil,
  append_assoc, Bool, true, false, ◌||◌, some, List, [], ◌∷◌, ◌++◌, map, arith, length, get_or,
  drop, set, replicate, set-middle, length-append, ltb, ◌==◌, ℤ, pos, in_int64-pos, +ℤ-pos, *ℤ-pos,
  -ℤ-pos,
}
use getmatvar.Varname.{
  VariableNameToken, local_index, digits_loop, next_digit, coords_loop, classify_loop, make_token,
  parse_coordinates, emit, strtok,
}

-- The number that decimal digits write, `acc` being the part read.
abbrev pub decimal : ℕ → List ℕ → ℕ
decimal acc [] = acc
decimal acc (c ∷ cs) = decimal (acc * 10 + (c - 48)) cs

abbrev pub Digits : List ℕ → Type 0
Digits s = (i : ℕ) → i < length s → (48 ≤ get_or s i 0) × (get_or s i 0 ≤ 57)

decimal-drop :
    (s : List ℕ) (j acc : ℕ)
    → j < length s
    → decimal acc (drop j s) ≡ decimal (acc * 10 + (get_or s j 0 - 48)) (drop (suc j) s)
decimal-drop [] j acc lt = ground arith
decimal-drop (c ∷ s) zero acc lt = refl
decimal-drop (c ∷ s) (suc j) acc lt = decimal-drop s j acc (omega arith)

decimal-end : (s : List ℕ) (acc : ℕ) → decimal acc (drop (length s) s) ≡ acc
decimal-end [] acc = refl
decimal-end (c ∷ s) acc = decimal-end s acc

le-decimal : (acc : ℕ) (s : List ℕ) → acc ≤ decimal acc s
le-decimal acc [] = omega arith
le-decimal acc (c ∷ cs) = omega (arith, le-decimal (acc * 10 + (c - 48)) cs)

shifted :
    (acc c : ℕ)
    → 48 ≤ c
    → acc * 10 + (c - 48) < 2 ^ 63
    → next_digit (pos acc) c ≡ some (pos (acc * 10 + (c - 48)))
unfolding next_digit
shifted acc c h small =
    rw
      (
        *ℤ-pos acc 10,
        in_int64-pos (acc * 10) (omega (arith, small)),
        -ℤ-pos c 48 h,
        +ℤ-pos (acc * 10) (c - 48),
      )
      (in_int64-pos (acc * 10 + (c - 48)) small)

next_counter : (j : ℕ) → j < 255 → (j + 1) % 256 ≡ suc j
next_counter j lt = omega arith

in_loop : (j : ℕ) (s : List ℕ) → j < length s → ltb j (length s) ≡ true
in_loop j s lt = ground arith

is_digit : (c : ℕ) → (48 ≤ c) × (c ≤ 57) → (ltb c 48 || ltb 57 c) ≡ false
is_digit c h = ground arith

past_loop : (s : List ℕ) → ltb (length s) (length s) ≡ false
past_loop s = ground arith

module _ (s : List ℕ) (short : length s ≤ 255) (digits : Digits s) where
  digits_loop-run :
      (fuel j acc : ℕ)
      → j + fuel ≡ length s
      → decimal acc (drop j s) < 2 ^ 63
      → digits_loop fuel j (pos acc) s ≡ some (pos (decimal acc (drop j s)))
  unfolding digits_loop
  digits_loop-run zero j acc e small =
      rw (at_end, past_loop s) (ap (λ (k : ℕ). some (pos k)) (sym (decimal-end s acc)))
    where
      at_end : j ≡ length s
      at_end = omega arith
  digits_loop-run (suc fuel) j acc e small =
      rw (in_loop j s more, shifted acc (get_or s j 0) (digits j more).0 next_fits)
        (ap (λ (k : ℕ). digits_loop fuel k (pos (acc * 10 + (get_or s j 0 - 48))) s)
            (next_counter j (omega (arith, short, more)))
          ∙ digits_loop-run fuel (suc j) (acc * 10 + (get_or s j 0 - 48)) (omega arith) rest_fits
          ∙ ap (λ (k : ℕ). some (pos k)) (sym (decimal-drop s j acc more)))
    where
      more : j < length s
      more = omega arith

      rest_fits : decimal (acc * 10 + (get_or s j 0 - 48)) (drop (suc j) s) < 2 ^ 63
      rest_fits = omega (arith, small, decimal-drop s j acc more)

      next_fits : acc * 10 + (get_or s j 0 - 48) < 2 ^ 63
      next_fits =
          omega (arith, rest_fits, le-decimal (acc * 10 + (get_or s j 0 - 48)) (drop (suc j) s))

  classify_loop-run :
      (fuel j acc : ℕ)
      → j + fuel ≡ length s
      → decimal acc (drop j s) < 2 ^ 63
      → classify_loop fuel j (pos acc) s ≡ some (pos (decimal acc (drop j s)), local_index)
  unfolding classify_loop
  classify_loop-run zero j acc e small =
      rw (at_end, past_loop s) (ap (λ (k : ℕ). some (pos k, local_index)) (sym (decimal-end s acc)))
    where
      at_end : j ≡ length s
      at_end = omega arith
  classify_loop-run (suc fuel) j acc e small =
      rw
        (
          in_loop j s more,
          is_digit (get_or s j 0) (digits j more),
          shifted acc (get_or s j 0) (digits j more).0 next_fits,
        )
        (ap (λ (k : ℕ). classify_loop fuel k (pos (acc * 10 + (get_or s j 0 - 48))) s)
            (next_counter j (omega (arith, short, more)))
          ∙ classify_loop-run fuel (suc j) (acc * 10 + (get_or s j 0 - 48)) (omega arith) rest_fits
          ∙ ap (λ (k : ℕ). some (pos k, local_index)) (sym (decimal-drop s j acc more)))
    where
      more : j < length s
      more = omega arith

      rest_fits : decimal (acc * 10 + (get_or s j 0 - 48)) (drop (suc j) s) < 2 ^ 63
      rest_fits = omega (arith, small, decimal-drop s j acc more)

      next_fits : acc * 10 + (get_or s j 0 - 48) < 2 ^ 63
      next_fits =
          omega (arith, rest_fits, le-decimal (acc * 10 + (get_or s j 0 - 48)) (drop (suc j) s))

  -- A token of at most 255 digits and nothing else, which writes a number above 0 and below 2^63, is made an index:
  -- one less than that number.
  pub make_token-index :
      1 ≤ decimal 0 s
      → decimal 0 s < 2 ^ 63
      → make_token s
        ≡ some (record {
          variable_name_type = local_index;
          variable_local_index = pos (decimal 0 s - 1);
          variable_local_coordinates = replicate 32 (pos 0);
          variable_local_name = s;
        })
  unfolding make_token
  make_token-index positive small =
      rw (classify_loop-run (length s) 0 0 (omega arith) small, -ℤ-pos (decimal 0 s) 1 positive)
        refl

  digits_loop-decimal :
      decimal 0 s < 2 ^ 63 → digits_loop (length s) 0 (pos 0) s ≡ some (pos (decimal 0 s))
  digits_loop-decimal small = digits_loop-run (length s) 0 0 (omega arith) small

-- Lists of nonempty tokens of at most 255 digits, each a number below 2^63.
pub data Numbers : List (List ℕ) → Type 0 where
  no_more : Numbers []
  one_more :
      (s : List ℕ) (ss : List (List ℕ))
      → 1 ≤ length s
      → length s ≤ 255
      → Digits s
      → decimal 0 s < 2 ^ 63
      → Numbers ss
      → Numbers (s ∷ ss)

-- The tokens with a comma between each and the next one.
abbrev pub comma_join : List (List ℕ) → List ℕ
comma_join [] = []
comma_join (s ∷ []) = s
comma_join (s ∷ t ∷ ss) = s ++ 44 ∷ comma_join (t ∷ ss)

is_comma : ℕ → Bool
is_comma c = c == 44

branch : List ℕ → ℕ → List ℕ → Bool → List (List ℕ)
branch run c cs true = emit run (strtok (λ c. c == 44) [] cs)
branch run c cs false = strtok (λ c. c == 44) (run ++ (c ∷ [])) cs

strtok-branch :
    (run : List ℕ) (c : ℕ) (cs : List ℕ)
    → strtok (λ c. c == 44) run (c ∷ cs) ≡ branch run c cs (c == 44)
unfolding branch
strtok-branch run c cs = refl

strtok-Digits :
    (s run rest : List ℕ)
    → Digits s
    → strtok (λ c. c == 44) run (s ++ rest) ≡ strtok (λ c. c == 44) (run ++ s) rest
unfolding branch
strtok-Digits [] run rest digits = ap (λ l. strtok (λ c. c == 44) l rest) (sym (append-nil run))
strtok-Digits (c ∷ s) run rest digits =
    strtok-branch run c (s ++ rest)
    ∙ ap (branch run c (s ++ rest)) (no_comma c (digits 0 (omega arith)))
    ∙ strtok-Digits s (run ++ (c ∷ [])) rest (λ i lt. digits (suc i) (omega arith))
    ∙ ap (λ l. strtok (λ c. c == 44) l rest) (append_assoc run (c ∷ []) s)
  where
    no_comma : (c : ℕ) → (48 ≤ c) × (c ≤ 57) → (c == 44) ≡ false
    no_comma c h = ground arith

emit-nonempty : (s : List ℕ) (ss : List (List ℕ)) → 1 ≤ length s → emit s ss ≡ s ∷ ss
emit-nonempty [] ss h = ground arith
emit-nonempty (c ∷ s) ss h = refl

strtok-comma_join :
    (ss : List (List ℕ)) → Numbers ss → strtok (λ c. c == 44) [] (comma_join ss) ≡ ss
strtok-comma_join [] no_more = refl
strtok-comma_join (s ∷ []) (one_more _ _ some_digits short digits fits more) =
    ap (λ l. strtok (λ c. c == 44) [] l) (sym (append-nil s))
    ∙ strtok-Digits s [] [] digits
    ∙ emit-nonempty s [] some_digits
strtok-comma_join (s ∷ t ∷ ss) (one_more _ _ some_digits short digits fits more) =
    strtok-Digits s [] (44 ∷ comma_join (t ∷ ss)) digits
    ∙ emit-nonempty s (strtok (λ c. c == 44) [] (comma_join (t ∷ ss))) some_digits
    ∙ ap (λ l. s ∷ l) (strtok-comma_join (t ∷ ss) more)

values : List (List ℕ) → List ℤ
values ss = map (λ s. pos (decimal 0 s)) ss

coords_loop-values :
    (ss : List (List ℕ)) (done old : List ℤ) (i : ℕ)
    → Numbers ss
    → i ≡ length done
    → i + length ss ≤ 32
    → length ss ≤ length old
    → coords_loop ss i (done ++ old) ≡ some (done ++ (values ss ++ drop (length ss) old))
unfolding coords_loop values
coords_loop-values [] done old i numbers at room enough = refl
coords_loop-values (s ∷ ss) done [] i numbers at room enough = ground arith
coords_loop-values (s ∷ ss) done (x ∷ old) i (one_more _ _ some_digits short digits fits more) at
      room enough =
    rw (below_32 i (omega arith), digits_loop-decimal s short digits fits)
      (ap (λ l. coords_loop ss (i + 1) l) (written at)
        ∙ coords_loop-values ss (done ++ (pos (decimal 0 s) ∷ [])) old (i + 1) more (next at)
            (omega arith) (omega arith)
        ∙ ap some (append_assoc done (pos (decimal 0 s) ∷ []) (values ss ++ drop (length ss) old)))
  where
    below_32 : (i : ℕ) → i < 32 → ltb i 32 ≡ true
    below_32 i lt = ground arith

    written :
        i ≡ length done
        → set (done ++ x ∷ old) i (pos (decimal 0 s)) ≡ (done ++ (pos (decimal 0 s) ∷ [])) ++ old
    written e = rw e (
        set-middle done old x (pos (decimal 0 s))
        ∙ sym (append_assoc done (pos (decimal 0 s) ∷ []) old))

    next : i ≡ length done → i + 1 ≡ length (done ++ (pos (decimal 0 s) ∷ []))
    next e = omega (arith, length-append done (pos (decimal 0 s) ∷ []))

-- For a token of up to 32 numbers below 2^63, of 1 to 255 digits each, with commas between them,
-- `parseCoordinates` ends and writes these numbers, in order, to the array of 32 coordinates; the
-- entries past them stay.
pub parse_coordinates-values :
    (vnt : VariableNameToken) (ss : List (List ℕ))
    → Numbers ss
    → length ss ≤ 32
    → length vnt.variable_local_coordinates ≡ 32
    → vnt.variable_local_name ≡ comma_join ss
    → parse_coordinates vnt
      ≡ some (record vnt {
        variable_local_coordinates =
            map (λ s. pos (decimal 0 s)) ss ++ drop (length ss) vnt.variable_local_coordinates;
      })
unfolding parse_coordinates values
parse_coordinates-values vnt ss numbers room entries name =
    rw
      (
        name,
        strtok-comma_join ss numbers,
        coords_loop-values ss [] vnt.variable_local_coordinates 0 numbers refl (omega arith)
            (omega arith),
      )
      refl
