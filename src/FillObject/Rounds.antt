-- ===== src/FillObject/Rounds.antt =====
-- A round of the loop of `interpretMessages` on the first message of a written block.
use getmatvar.Common.{
  ℕ, suc, ◌+◌, ◌%◌, ◌^◌, ◌≤◌, ◌<◌, ◌≡◌, refl, sym, ap, ap₂, ◌∙◌, true, false, not, ◌&&◌, Bool-cases,
  inl, inr, Option, none, some, List, ◌∷◌, ◌++◌, arith, length, drop, ltb, ◌==◌, ==_false,
  if◌then◌else◌, ℤ, pos, ◌+ℤ◌,
}
use getmatvar.NumberHelper.{little_endian, ◌>>=◌}
use getmatvar.NumberHelper.Encoded.{read-le_bytes}
use getmatvar.Superblock.{Superblock}
use getmatvar.Message.Attribute.{MetaData}
use getmatvar.FillObject.{is_once, is_repeated, track, read_message, messages_loop}
use getmatvar.FillObject.Tracker.{is_member, Tracks, repeated-Tracks, track-Tracks}
use getmatvar.FillObject.Headers.{Block, end, plain, encode, count, process, IsWritten}
use getmatvar.FillObject.Behind.{drop-drop, body-plain, behind-plain, length-plain}

pub small_32 : (v : ℕ) → v < 2 ^ 32 → v % 2 ^ 32 ≡ v
small_32 v lt = omega (arith, lt)

pub small_16 : (v : ℕ) → v < 2 ^ 16 → v % 2 ^ 16 ≡ v
small_16 v lt = omega (arith, lt)

pub regroup : (read body : ℕ) → read + body + 8 ≡ read + (8 + body)
regroup read body = omega arith

-- The result of reading the messages before number `message_num`.
abbrev pub finish : ℕ → ℕ → MetaData × ℕ → Option (MetaData × ℕ × ℕ)
finish num_msgs message_num r =
    some (if r.1 == 0 then (r.0, (message_num + 65535) % 2 ^ 16, 0) else (r.0, num_msgs, r.1))

-- What follows a message, or the messages of a continuation, if none was refused.
module _ (num_msgs last : ℕ) (run : ℕ → MetaData → Option (MetaData × ℕ × ℕ))
    (rest : MetaData → Option (MetaData × ℕ)) where
  after_message :
      (k : ℕ)
      → ((object : MetaData) → run k object ≡ (rest object >>= finish num_msgs last))
      → (r : Option (MetaData × ℕ))
      → (r >>= λ r. if not (r.1 == 0) then some (r.0, num_msgs, r.1) else run k r.0)
        ≡ ((r >>= λ r. if r.1 == 0 then rest r.0 else some r) >>= finish num_msgs last)
  after_message k same none = refl
  after_message k same (some (object, err)) = elim (Bool-cases (err == 0)) [
    | inl fine ↦ rw fine (same object)
    | inr refused ↦ rw (refused, refused) refl
  ]

  pub after_continued :
      (before : ℕ)
      → ((object : MetaData)
          → run ((before + 65535) % 2 ^ 16) object ≡ (rest object >>= finish num_msgs last))
      → (r : Option (MetaData × ℕ))
      → ((r >>= finish num_msgs before) >>= λ inner.
          if not (inner.2 == 0) then some (inner.0, num_msgs, inner.2) else run inner.1 inner.0)
        ≡ ((r >>= λ r. if r.1 == 0 then rest r.0 else some r) >>= finish num_msgs last)
  after_continued before same none = refl
  after_continued before same (some (object, err)) = elim (Bool-cases (err == 0)) [
    | inl fine ↦ rw fine (same object)
    | inr refused ↦ rw (refused, refused) refl
  ]

module _ (s_block : Superblock) (file : List ℕ) (num_msgs : ℕ) where
  abbrev pub loop : ℕ → List ℕ → ℤ → ℕ → ℕ → ℕ → ℕ → MetaData → Option (MetaData × ℕ × ℕ)
  loop = messages_loop little_endian true s_block file num_msgs none

  -- That many rounds read the block, wherever it stands in the messages.
  abbrev pub IsRead : ℕ → Block → Type 0
  IsRead fuel b =
      (start : List ℕ) (address : ℤ) (len bytes_read message_num tracker : ℕ) (seen : List ℕ)
      (object : MetaData)
      → num_msgs < fuel + message_num
      → drop bytes_read start ≡ encode b
      → bytes_read + length (encode b) ≡ len
      → len < 2 ^ 32
      → message_num + count b ≤ num_msgs
      → Tracks tracker seen
      → loop fuel start address len bytes_read message_num tracker object ≡ (
          process s_block b address bytes_read seen object
          >>= finish num_msgs (message_num + count b))

  module _ (few : num_msgs < 2 ^ 16) (fuel : ℕ) where
    pub end_IsRead : IsRead (suc fuel) end
    unfolding messages_loop
    end_IsRead start address len bytes_read message_num tracker seen object enough at_b size short
          all tracks =
        rw done (ap (λ (k : ℕ). some (object, (k + 65535) % 2 ^ 16, 0)) (omega arith))
      where
        done : (ltb message_num num_msgs && ltb bytes_read len) ≡ false
        done = ground (arith, size)

    pub plain_IsRead :
        (msg_type : ℕ) (flags body : List ℕ) (b : Block)
        → IsRead fuel b
        → IsWritten s_block file (plain msg_type flags body b)
        → IsRead (suc fuel) (plain msg_type flags body b)
    unfolding messages_loop
    plain_IsRead msg_type flags body b after (type_fits, other, body_fits, four, written) start
          address len bytes_read message_num tracker seen object enough at_b size short all tracks =
        rw
          (
            going,
            at_b,
            read-le_bytes 2 msg_type _ (omega arith) type_fits,
            read-le_bytes 2 (length body) _ (omega arith) body_fits,
            ==_false msg_type 16 other,
            body-plain flags four msg_type body b,
            repeated,
          )
          (elim (Bool-cases (is_once msg_type && is_member msg_type seen)) [
            | inl skipped ↦ rw skipped (next tracker seen object tracks)
            | inr new ↦ rw new (
                after_message num_msgs last
                  (λ k o.
                    loop fuel start address len ((bytes_read + length body + 8) % 2 ^ 32)
                      ((message_num + 1) % 2 ^ 16) (track tracker msg_type) o)
                  (λ o.
                    process s_block b address (bytes_read + length body + 8)
                      (if is_once msg_type then msg_type ∷ seen else seen) o)
                  0
                  (λ o.
                    next (track tracker msg_type)
                      (if is_once msg_type then msg_type ∷ seen else seen) o (still_tracks new))
                  (read_message little_endian true s_block msg_type (body ++ encode b)
                    (address +ℤ pos (bytes_read + 8)) object))
          ])
      where
        last : ℕ
        last = message_num + suc (count b)

        going : (ltb message_num num_msgs && ltb bytes_read len) ≡ true
        going = ground (arith, all, size, length-plain flags four msg_type body b)

        repeated :
            (is_once msg_type && is_repeated tracker msg_type)
            ≡ (is_once msg_type && is_member msg_type seen)
        repeated = elim (Bool-cases (is_once msg_type)) [
          | inl once ↦ rw once (repeated-Tracks tracker msg_type seen tracks once)
          | inr any ↦ rw any refl
        ]

        not_seen :
            is_once msg_type ≡ true
            → (is_once msg_type && is_member msg_type seen) ≡ false
            → is_member msg_type seen ≡ false
        not_seen once new = sym (ap (λ c. c && is_member msg_type seen) once) ∙ new

        still_tracks :
            (is_once msg_type && is_member msg_type seen) ≡ false
            → Tracks (track tracker msg_type) (if is_once msg_type then msg_type ∷ seen else seen)
        still_tracks new = elim (Bool-cases (is_once msg_type)) [
          | inl once ↦ rw once (track-Tracks tracker msg_type seen tracks once (not_seen once new))
          | inr any ↦ rw any tracks
        ]

        length_is :
            length (encode (plain msg_type flags body b)) ≡ 8 + length body + length (encode b)
        length_is = length-plain flags four msg_type body b

        at_most : bytes_read + length body + 8 < 2 ^ 32
        at_most = omega (arith, length_is, size, short)

        behind : drop (bytes_read + length body + 8) start ≡ encode b
        behind =
            ap (λ (k : ℕ). drop k start) (regroup bytes_read (length body))
            ∙ drop-drop bytes_read (8 + length body) start
            ∙ ap (drop (8 + length body)) at_b
            ∙ behind-plain flags four msg_type body b

        next :
            (tracker : ℕ) (seen : List ℕ) (object : MetaData)
            → Tracks tracker seen
            → loop fuel start address len
                ((bytes_read + length body + 8) % 2 ^ 32)
                ((message_num + 1) % 2 ^ 16)
                tracker
                object
              ≡ (process s_block b address (bytes_read + length body + 8) seen object
                  >>= finish num_msgs last)
        next tracker seen object tracks =
            ap₂ (λ (r k : ℕ). loop fuel start address len r k tracker object)
              (small_32 _ (omega (arith, at_most))) (small_16 _ (omega (arith, all, few)))
            ∙ after start address len (bytes_read + length body + 8) (message_num + 1) tracker seen
                object (omega (arith, enough)) behind (omega (arith, length_is, size)) short
                (omega (arith, all)) tracks
            ∙ ap
                (λ (k : ℕ).
                  process s_block b address (bytes_read + length body + 8) seen object
                  >>= finish num_msgs k)
                (omega arith)
