-- ===== src/FillObject/Continued.antt =====
-- A round of the loop of `interpretMessages` on a continuation.
use getmatvar.Common.{
  ℕ, suc, ◌+◌, ◌%◌, ◌^◌, ◌<◌, ◌≡◌, refl, ap, ap₂, ◌∙◌, true, ◌&&◌, List, arith, length, drop, ltb,
  pos, ◌+ℤ◌,
}
use getmatvar.NumberHelper.{◌>>=◌}
use getmatvar.NumberHelper.Encoded.{read-le_bytes}
use getmatvar.Superblock.{Superblock}
use getmatvar.Superblock.Encoded.{to_signed-pos}
use getmatvar.Message.Attribute.{MetaData}
use getmatvar.FillObject.{messages_loop}
use getmatvar.FillObject.Headers.{Block, continued, encode, count, process, IsWritten}
use getmatvar.FillObject.Behind.{drop-drop, body-continued, behind-continued, length-continued}
use getmatvar.FillObject.Rounds.{small_32, small_16, regroup, finish, after_continued, loop, IsRead}

module _ (s_block : Superblock) (file : List ℕ) (num_msgs : ℕ) (few : num_msgs < 2 ^ 16)
    (fuel : ℕ) where
  pub continued_IsRead :
      (flags : List ℕ) (offset : ℕ) (inner b : Block)
      → s_block.size_of_offsets ≡ 8
      → s_block.size_of_lengths ≡ 8
      → IsRead s_block file num_msgs fuel inner
      → IsRead s_block file num_msgs fuel b
      → IsWritten s_block file (continued flags offset inner b)
      → IsRead s_block file num_msgs (suc fuel) (continued flags offset inner b)
  unfolding messages_loop
  continued_IsRead flags offset inner b offsets lengths within after
        (four, offset_fits, version_1, inner_short, placed, written_inner, written) start address
        len bytes_read message_num tracker seen object enough at_b size short all tracks =
      rw
        (
          going,
          at_b,
          read-le_bytes 2 16 _ (omega arith) (omega arith),
          read-le_bytes 2 16 _ (omega arith) (omega arith),
          body-continued flags four offset inner b,
          version_1,
          offsets,
          lengths,
          read-le_bytes 8 offset _ (omega arith) (omega (arith, offset_fits)),
          read-le_bytes 8 (length (encode inner)) _ (omega arith) (omega (arith, inner_short)),
          to_signed-pos offset offset_fits,
          small_32 (length (encode inner)) inner_short,
          placed,
          small_16 (message_num + 1) (omega (arith, all, few)),
          within (encode inner) (pos offset +ℤ s_block.base_address) (length (encode inner)) 0
              (message_num + 1) tracker seen object (omega (arith, enough)) refl (omega arith)
              inner_short (omega (arith, all)) tracks,
        )
        (after_continued num_msgs last
          (λ k o.
            loop s_block file num_msgs fuel start address len ((bytes_read + 16 + 8) % 2 ^ 32)
              ((k + 1) % 2 ^ 16) tracker o)
          (λ o. process s_block b address (bytes_read + 16 + 8) seen o)
          (message_num + 1 + count inner) next
          (process s_block inner (pos offset +ℤ s_block.base_address) 0 seen object))
    where
      last : ℕ
      last = message_num + suc (count inner + count b)

      length_is : length (encode (continued flags offset inner b)) ≡ 24 + length (encode b)
      length_is = length-continued flags four offset inner b

      going : (ltb message_num num_msgs && ltb bytes_read len) ≡ true
      going = ground (arith, all, size, length_is)

      at_most : bytes_read + 16 + 8 < 2 ^ 32
      at_most = omega (arith, length_is, size, short)

      behind : drop (bytes_read + 16 + 8) start ≡ encode b
      behind =
          ap (λ (k : ℕ). drop k start) (regroup bytes_read 16)
          ∙ drop-drop bytes_read 24 start
          ∙ ap (drop 24) at_b
          ∙ behind-continued flags four offset inner b

      back : (k : ℕ) → 0 < k → k < 2 ^ 16 → ((k + 65535) % 2 ^ 16 + 1) % 2 ^ 16 ≡ k
      back k some_read small = omega arith

      next :
          (o : MetaData)
          → loop s_block file num_msgs fuel start address len
              ((bytes_read + 16 + 8) % 2 ^ 32)
              (((message_num + 1 + count inner + 65535) % 2 ^ 16 + 1) % 2 ^ 16)
              tracker
              o
            ≡ (process s_block b address (bytes_read + 16 + 8) seen o >>= finish num_msgs last)
      next o =
          ap₂ (λ (r k : ℕ). loop s_block file num_msgs fuel start address len r k tracker o)
            (small_32 _ (omega (arith, at_most)))
            (back (message_num + 1 + count inner) (omega arith) (omega (arith, all, few)))
          ∙ after start address len (bytes_read + 16 + 8) (message_num + 1 + count inner) tracker
              seen o (omega (arith, enough)) behind (omega (arith, length_is, size)) short
              (omega (arith, all)) tracks
          ∙ ap
              (λ (k : ℕ).
                process s_block b address (bytes_read + 16 + 8) seen o >>= finish num_msgs k)
              (omega arith)
