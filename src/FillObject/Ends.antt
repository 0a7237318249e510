-- ===== src/FillObject/Ends.antt =====
-- The loop of `interpretMessages`, with the calls for continuations in it, ends on any file.
use getmatvar.Common.{
  ap, ◌∙◌, if◌then◌else◌, ℕ, zero, suc, ◌+◌, ◌-◌, ◌%◌, ◌^◌, ◌≤◌, ◌<◌, ◌≡◌, refl, subst, Bool, true,
  false, not, ◌&&◌, inl, inr, Option, none, some, List, drop, arith, ltb, ◌==◌, ℤ, pos, ◌+ℤ◌,
}
use getmatvar.NumberHelper.{ByteOrder, little_endian, get_bytes_as_number, ◌>>=◌}
use getmatvar.Superblock.{Superblock, to_signed}
use getmatvar.Navigate.{at_address}
use getmatvar.Message.Attribute.{MetaData}
use getmatvar.FillObject.{
  is_once, is_repeated, is_version_2, read_message, messages_loop, interpret_messages,
}
use getmatvar.FillObject.Returned.{
  IsPast, Option-cases, inner_bounds, going_on, next_in, run-IsPast,
}

module _ {ℓ κ} {A : Type ℓ} {B : Type κ} where
  bind_same :
      (m : Option A) (f g : A → Option B)
      → ((a : A) → m ≡ some a → f a ≡ g a)
      → (m >>= f) ≡ (m >>= g)
  bind_same none f g same = refl
  bind_same (some a) f g same = same a refl

  bind_same_at :
      (m m' : Option A) (f g : A → Option B)
      → m ≡ m'
      → ((a : A) → m' ≡ some a → f a ≡ g a)
      → (m >>= f) ≡ (m' >>= g)
  bind_same_at m m' f g e same = ap (λ n. n >>= f) e ∙ bind_same m' f g same

if_same {κ} :
    {B : Type κ} (b : Bool) (x x' y y' : B)
    → (b ≡ true → x ≡ x')
    → (b ≡ false → y ≡ y')
    → (if b then x else y) ≡ (if b then x' else y')
if_same true x x' y y' same_x same_y = same_x refl
if_same false x x' y y' same_x same_y = same_y refl

module _ (host : ByteOrder) (has_memory : Bool) (s_block : Superblock) (file : List ℕ)
    (num_msgs : ℕ) (few : num_msgs < 2 ^ 16) where
  abbrev run :
      Option (MetaData × ℕ × ℕ)
      → ℕ
      → List ℕ
      → ℤ
      → ℕ
      → ℕ
      → ℕ
      → ℕ
      → MetaData
      → Option (MetaData × ℕ × ℕ)
  run = messages_loop host has_memory s_block file num_msgs

  left : (fuel k : ℕ) → k < num_msgs → num_msgs < suc fuel + k → num_msgs < fuel + (k + 1) % 2 ^ 16
  left fuel k more enough = omega (arith, few)

  -- With enough rounds it does not matter what comes when they have run out.
  run-same :
      (out : Option (MetaData × ℕ × ℕ)) (f g : ℕ) (start : List ℕ) (address : ℤ)
      (len read k tracker : ℕ) (object : MetaData)
      → k ≤ num_msgs
      → num_msgs < f + k
      → num_msgs < g + k
      → run out f start address len read k tracker object
        ≡ run none g start address len read k tracker object
  unfolding messages_loop
  run-same out zero zero start address len read k tracker object small f_left g_left =
      absurd (omega (arith, small, f_left))
  run-same out zero (suc g) start address len read k tracker object small f_left g_left =
      absurd (omega (arith, small, f_left, g_left))
  run-same out (suc f) zero start address len read k tracker object small f_left g_left =
      absurd (omega (arith, small, f_left, g_left))
  run-same out (suc f) (suc g) start address len read k tracker object small f_left g_left =
      if_same (not (ltb k num_msgs && ltb read len)) _ _ _ _ (λ done. refl)
        λ going.
          bind_same (get_bytes_as_number host (drop read start) 2 little_endian) _ _ λ msg_type _.
            bind_same (get_bytes_as_number host (drop 2 (drop read start)) 2 little_endian) _ _
              λ msg_size _.
                if_same (msg_type == 16) _ _ _ _
                  (λ continued.
                    if_same (is_version_2 (drop 8 (drop read start))) _ _ _ _ (λ version_2. refl)
                      λ version_1.
                        bind_same
                          (get_bytes_as_number host (drop 8 (drop read start))
                            s_block.size_of_offsets little_endian)
                          _ _
                          λ cont _.
                            bind_same
                              (get_bytes_as_number host
                                (drop s_block.size_of_offsets (drop 8 (drop read start)))
                                s_block.size_of_lengths little_endian)
                              _ _
                              λ cont_length _.
                                bind_same
                                  (at_address file (to_signed cont +ℤ s_block.base_address)
                                    (cont_length % 2 ^ 32))
                                  _ _
                                  λ cont_start _.
                                    bind_same_at
                                      (run out f cont_start (to_signed cont +ℤ s_block.base_address)
                                        (cont_length % 2 ^ 32) 0 ((k + 1) % 2 ^ 16) tracker object)
                                      _ _ _
                                      (run-same out f g _ _ _ _ ((k + 1) % 2 ^ 16) _ _
                                        (next_in host has_memory s_block file num_msgs few k len
                                          read going)
                                        (left f k
                                          (going_on host has_memory s_block file num_msgs few k len
                                            read going)
                                          f_left)
                                        (left g k
                                          (going_on host has_memory s_block file num_msgs few k len
                                            read going)
                                          g_left))
                                      λ inner returned.
                                        if_same (not (inner.2 == 0)) _ _ _ _ (λ refused. refl)
                                          λ fine.
                                            run-same out f g _ _ _ _ ((inner.1 + 1) % 2 ^ 16) _ _
                                              (inner_bounds num_msgs k inner.1 inner.2
                                                (omega (
                                                  arith,
                                                  going_on host has_memory s_block file num_msgs few
                                                      k len read going,
                                                  few,
                                                ))
                                                (subst (IsPast num_msgs ((k + 1) % 2 ^ 16)) returned
                                                  (run-IsPast host has_memory s_block file num_msgs
                                                    few g _ _ _ _ ((k + 1) % 2 ^ 16) _ _
                                                    (next_in host has_memory s_block file num_msgs
                                                      few k len read going))).in_bounds
                                                fine).1
                                              (omega (
                                                arith,
                                                f_left,
                                                (inner_bounds num_msgs k inner.1 inner.2
                                                    (omega (
                                                      arith,
                                                      going_on host has_memory s_block file num_msgs
                                                          few k len read going,
                                                      few,
                                                    ))
                                                    (subst (IsPast num_msgs ((k + 1) % 2 ^ 16))
                                                      returned
                                                      (run-IsPast host has_memory s_block file
                                                        num_msgs few g _ _ _ _ ((k + 1) % 2 ^ 16) _
                                                        _
                                                        (next_in host has_memory s_block file
                                                          num_msgs few k len read going))).in_bounds
                                                    fine).0,
                                              ))
                                              (omega (
                                                arith,
                                                g_left,
                                                (inner_bounds num_msgs k inner.1 inner.2
                                                    (omega (
                                                      arith,
                                                      going_on host has_memory s_block file num_msgs
                                                          few k len read going,
                                                      few,
                                                    ))
                                                    (subst (IsPast num_msgs ((k + 1) % 2 ^ 16))
                                                      returned
                                                      (run-IsPast host has_memory s_block file
                                                        num_msgs few g _ _ _ _ ((k + 1) % 2 ^ 16) _
                                                        _
                                                        (next_in host has_memory s_block file
                                                          num_msgs few k len read going))).in_bounds
                                                    fine).0,
                                              )))
                  (λ plain.
                    if_same (is_once msg_type && is_repeated tracker msg_type) _ _ _ _
                      (λ repeated.
                        run-same out f g _ _ _ _ ((k + 1) % 2 ^ 16) _ _
                          (next_in host has_memory s_block file num_msgs few k len read going)
                          (left f k
                            (going_on host has_memory s_block file num_msgs few k len read going)
                            f_left)
                          (left g k
                            (going_on host has_memory s_block file num_msgs few k len read going)
                            g_left))
                      λ new.
                        bind_same
                          (read_message host has_memory s_block msg_type (drop 8 (drop read start))
                            (address +ℤ pos (read + 8)) object)
                          _ _
                          λ r was_read.
                            if_same (not (r.1 == 0)) _ _ _ _ (λ refused. refl)
                              λ fine.
                                run-same out f g _ _ _ _ ((k + 1) % 2 ^ 16) _ _
                                  (next_in host has_memory s_block file num_msgs few k len read
                                    going)
                                  (left f k
                                    (going_on host has_memory s_block file num_msgs few k len read
                                      going)
                                    f_left)
                                  (left g k
                                    (going_on host has_memory s_block file num_msgs few k len read
                                      going)
                                    g_left))

  -- On any file and from any message on, up to the number of messages that is given: whatever the loop,
  -- and the calls for continuations in it, are taken to give when their rounds have run out, and with
  -- any number of rounds more, the result is that of `interpretMessages`. So the rounds never run out:
  -- a refusal put there would be returned. The loop ends by its own test, an error or a fault.
  pub interpret_messages-ends :
      (out : Option (MetaData × ℕ × ℕ)) (object : MetaData) (address : ℤ)
      (msgs_length message_num repeat_tracker more : ℕ)
      → message_num ≤ num_msgs
      → (at_address file address msgs_length >>= λ start.
          messages_loop host has_memory s_block file num_msgs out
            (suc (num_msgs - message_num) + more)
            start
            address
            msgs_length
            0
            message_num
            repeat_tracker
            object)
        ≡ interpret_messages host has_memory s_block file num_msgs object address msgs_length
            message_num repeat_tracker
  unfolding interpret_messages
  interpret_messages-ends out object address msgs_length message_num repeat_tracker more before =
      elim (Option-cases (at_address file address msgs_length)) [
        | inl fault ↦ rw fault refl
        | inr (start, there) ↦ rw there (
            run-same out (suc (num_msgs - message_num) + more) (suc (num_msgs - message_num)) start
              address msgs_length 0 message_num repeat_tracker object before (omega (arith, before))
              (omega (arith, before)))
      ]
