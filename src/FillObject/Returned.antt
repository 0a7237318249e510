-- ===== src/FillObject/Returned.antt =====
-- The number that the loop of `interpretMessages` returns.
use getmatvar.Common.{
  if◌then◌else◌, ℕ, zero, suc, ◌+◌, ◌%◌, ◌^◌, ◌≤◌, ◌<◌, ◌≡◌, refl, subst, Bool, true, false, not,
  ◌&&◌, inl, inr, Option, none, some, List, drop, arith, ltb, ◌==◌, ℤ, pos, ◌+ℤ◌, ◌⊎◌,
}
use getmatvar.NumberHelper.{ByteOrder, little_endian, get_bytes_as_number, ◌>>=◌}
use getmatvar.Superblock.{Superblock, to_signed}
use getmatvar.Navigate.{at_address}
use getmatvar.Message.Attribute.{MetaData}
use getmatvar.FillObject.{is_once, is_repeated, is_version_2, read_message, messages_loop}

pub Option-cases {ℓ} : {A : Type ℓ} (m : Option A) → (m ≡ none) ⊎ ((a : A) × (m ≡ some a))
Option-cases none = inl refl
Option-cases (some a) = inr (a, refl)

-- A run that meets no error returns at least the number before `k`, and less than `n`.
abbrev pub InBounds : ℕ → ℕ → Option (MetaData × ℕ × ℕ) → Type 0
InBounds n k none = Unit
InBounds n k (some r) = (r.2 == 0) ≡ true → (k ≤ (r.1 + 1) % 2 ^ 16) × ((r.1 + 1) % 2 ^ 16 ≤ n)

pub record IsPast (n k : ℕ) (r : Option (MetaData × ℕ × ℕ)) : Type 0 where
  pub in_bounds : InBounds n k r

module _ (n k : ℕ) where
  bind-IsPast {ℓ} :
      {A : Type ℓ} (m : Option A) (f : A → Option (MetaData × ℕ × ℕ))
      → ((a : A) → m ≡ some a → IsPast n k (f a))
      → IsPast n k (m >>= f)
  bind-IsPast none f past = record { in_bounds = tt }
  bind-IsPast (some a) f past = past a refl

  if-IsPast :
      (b : Bool) (x y : Option (MetaData × ℕ × ℕ))
      → (b ≡ true → IsPast n k x)
      → (b ≡ false → IsPast n k y)
      → IsPast n k (if b then x else y)
  if-IsPast true x y past_x past_y = past_x refl
  if-IsPast false x y past_x past_y = past_y refl

opposite : (b : Bool) → not b ≡ true → b ≡ true → ⊥
opposite true refused fine = absurd (true_is_false refused)
  where
    true_is_false : false ≡ true → ⊥
    true_is_false e = ground arith
opposite false refused fine = ground arith

true_of_not : (b : Bool) → not b ≡ false → b ≡ true
true_of_not true h = refl
true_of_not false h = ground arith

step-IsPast :
    (n k : ℕ) (r : Option (MetaData × ℕ × ℕ))
    → k + 1 < 2 ^ 16
    → IsPast n ((k + 1) % 2 ^ 16) r
    → IsPast n k r
step-IsPast n k none small past = record { in_bounds = tt }
step-IsPast n k (some r) small past = record {
  in_bounds = λ fine. (omega (arith, (past.in_bounds fine).0), (past.in_bounds fine).1);
}

pub inner_bounds :
    (n k last err : ℕ)
    → k + 1 < 2 ^ 16
    → ((err == 0) ≡ true → ((k + 1) % 2 ^ 16 ≤ (last + 1) % 2 ^ 16) × ((last + 1) % 2 ^ 16 ≤ n))
    → not (err == 0) ≡ false
    → (k + 1 ≤ (last + 1) % 2 ^ 16) × ((last + 1) % 2 ^ 16 ≤ n)
inner_bounds n k last err small inner fine = (
  omega (arith, (inner (true_of_not (err == 0) fine)).0),
  (inner (true_of_not (err == 0) fine)).1,
)

after_inner-IsPast :
    (n k last : ℕ) (r : Option (MetaData × ℕ × ℕ))
    → (k + 1 ≤ (last + 1) % 2 ^ 16) × ((last + 1) % 2 ^ 16 ≤ n)
    → IsPast n ((last + 1) % 2 ^ 16) r
    → IsPast n k r
after_inner-IsPast n k last none inner past = record { in_bounds = tt }
after_inner-IsPast n k last (some r) inner past = record {
  in_bounds = λ fine. (omega (arith, (past.in_bounds fine).0, inner.0), (past.in_bounds fine).1);
}

module _ (host : ByteOrder) (has_memory : Bool) (s_block : Superblock) (file : List ℕ)
    (num_msgs : ℕ) (few : num_msgs < 2 ^ 16) where
  abbrev run : ℕ → List ℕ → ℤ → ℕ → ℕ → ℕ → ℕ → MetaData → Option (MetaData × ℕ × ℕ)
  run = messages_loop host has_memory s_block file num_msgs none

  pub going_on : (k len read : ℕ) → not (ltb k num_msgs && ltb read len) ≡ false → k < num_msgs
  going_on k len read going = ground arith

  pub next_in :
      (k len read : ℕ) → not (ltb k num_msgs && ltb read len) ≡ false → (k + 1) % 2 ^ 16 ≤ num_msgs
  next_in k len read going = omega (arith, going_on k len read going, few)

  pub run-IsPast :
      (fuel : ℕ) (start : List ℕ) (address : ℤ) (len read k tracker : ℕ) (object : MetaData)
      → k ≤ num_msgs
      → IsPast num_msgs k (run fuel start address len read k tracker object)
  unfolding messages_loop
  run-IsPast zero start address len read k tracker object small = record { in_bounds = tt }
  run-IsPast (suc fuel) start address len read k tracker object small =
      if-IsPast num_msgs k (not (ltb k num_msgs && ltb read len)) _ _
        (λ done. record {
          in_bounds = λ fine. (omega (arith, small, few), omega (arith, small, few));
        })
        λ going.
          bind-IsPast num_msgs k (get_bytes_as_number host (drop read start) 2 little_endian) _
            λ msg_type _.
              bind-IsPast num_msgs k
                (get_bytes_as_number host (drop 2 (drop read start)) 2 little_endian) _
                λ msg_size _.
                  if-IsPast num_msgs k (msg_type == 16) _ _
                    (λ continued.
                      if-IsPast num_msgs k (is_version_2 (drop 8 (drop read start))) _ _
                        (λ version_2. record { in_bounds = λ fine. ground arith })
                        λ version_1.
                          bind-IsPast num_msgs k
                            (get_bytes_as_number host (drop 8 (drop read start))
                              s_block.size_of_offsets little_endian)
                            _
                            λ cont _.
                              bind-IsPast num_msgs k
                                (get_bytes_as_number host
                                  (drop s_block.size_of_offsets (drop 8 (drop read start)))
                                  s_block.size_of_lengths little_endian)
                                _
                                λ cont_length _.
                                  bind-IsPast num_msgs k
                                    (at_address file (to_signed cont +ℤ s_block.base_address)
                                      (cont_length % 2 ^ 32))
                                    _
                                    λ cont_start _.
                                      bind-IsPast num_msgs k
                                        (run fuel cont_start
                                          (to_signed cont +ℤ s_block.base_address)
                                          (cont_length % 2 ^ 32) 0 ((k + 1) % 2 ^ 16) tracker
                                          object)
                                        _
                                        λ inner returned.
                                          if-IsPast num_msgs k (not (inner.2 == 0)) _ _
                                            (λ refused. record {
                                              in_bounds = λ fine. absurd (opposite _ refused fine);
                                            })
                                            λ fine.
                                              after_inner-IsPast num_msgs k inner.1 _
                                                (inner_bounds num_msgs k inner.1 inner.2
                                                  (omega (arith, going_on k len read going, few))
                                                  (subst (IsPast num_msgs ((k + 1) % 2 ^ 16))
                                                    returned
                                                    (run-IsPast fuel _ _ _ _ ((k + 1) % 2 ^ 16) _ _
                                                      (next_in k len read going))).in_bounds
                                                  fine)
                                                (run-IsPast fuel _ _ _ _ ((inner.1 + 1) % 2 ^ 16) _
                                                  _
                                                  (inner_bounds num_msgs k inner.1 inner.2
                                                    (omega (arith, going_on k len read going, few))
                                                    (subst (IsPast num_msgs ((k + 1) % 2 ^ 16))
                                                      returned
                                                      (run-IsPast fuel _ _ _ _ ((k + 1) % 2 ^ 16) _
                                                        _ (next_in k len read going))).in_bounds
                                                    fine).1))
                    (λ plain.
                      if-IsPast num_msgs k (is_once msg_type && is_repeated tracker msg_type) _ _
                        (λ repeated.
                          step-IsPast num_msgs k _ (omega (arith, going_on k len read going, few)) (
                            run-IsPast fuel _ _ _ _ ((k + 1) % 2 ^ 16) _ _
                              (next_in k len read going)))
                        λ new.
                          bind-IsPast num_msgs k
                            (read_message host has_memory s_block msg_type
                              (drop 8 (drop read start)) (address +ℤ pos (read + 8)) object)
                            _
                            λ r was_read.
                              if-IsPast num_msgs k (not (r.1 == 0)) _ _
                                (λ refused. record {
                                  in_bounds = λ fine. absurd (opposite _ refused fine);
                                })
                                λ fine.
                                  step-IsPast num_msgs k _
                                    (omega (arith, going_on k len read going, few))
                                    (run-IsPast fuel _ _ _ _ ((k + 1) % 2 ^ 16) _ _
                                      (next_in k len read going)))
