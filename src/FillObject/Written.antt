-- ===== src/FillObject/Written.antt =====
-- `interpretMessages` on a header as it is written, on a little-endian machine with memory.
use getmatvar.Common.{
  ℕ, zero, suc, ◌-◌, ◌^◌, ◌<◌, ◌≡◌, refl, ap, ◌∙◌, true, some, List, [], arith, length, ℤ,
}
use getmatvar.NumberHelper.{little_endian, ◌>>=◌}
use getmatvar.Superblock.{Superblock}
use getmatvar.Navigate.{at_address}
use getmatvar.Message.Attribute.{MetaData}
use getmatvar.FillObject.{interpret_messages}
use getmatvar.FillObject.Tracker.{Tracks-none}
use getmatvar.FillObject.Headers.{Block, end, plain, continued, encode, count, process, IsWritten}
use getmatvar.FillObject.Rounds.{finish, IsRead, end_IsRead, plain_IsRead}
use getmatvar.FillObject.Continued.{continued_IsRead}

module _ (s_block : Superblock) (offsets : s_block.size_of_offsets ≡ 8)
    (lengths : s_block.size_of_lengths ≡ 8) (file : List ℕ) (num_msgs : ℕ)
    (few : num_msgs < 2 ^ 16) where
  written_IsRead :
      (fuel : ℕ) (b : Block) → IsWritten s_block file b → IsRead s_block file num_msgs fuel b
  written_IsRead zero b written =
      λ start address len bytes_read message_num tracker seen object enough at_b size short all
          tracks.
        absurd (omega (arith, enough, all))
  written_IsRead (suc fuel) end written = end_IsRead s_block file num_msgs few fuel
  written_IsRead (suc fuel) (plain msg_type flags body b) written =
      plain_IsRead s_block file num_msgs few fuel msg_type flags body b
        (written_IsRead fuel b written.4) written
  written_IsRead (suc fuel) (continued flags offset inner b) written =
      continued_IsRead s_block file num_msgs few fuel flags offset inner b offsets lengths
        (written_IsRead fuel inner written.5) (written_IsRead fuel b written.6) written

  -- A header that stands in the file as it is written, with all its continuations, and is said to
  -- have as many messages as they have, on a little-endian machine with memory and for offsets and
  -- lengths of eight bytes: `interpretMessages` reads the messages in their order, a continuation's
  -- in its place, up to the first that is refused. A message of dimensions, type, layout or filters is
  -- left out where one of its type stands before it in the same block or in a block that this one
  -- continues; one that stood only in a continuation does not count. It returns the number before that of the messages, or after a refusal the number itself.
  pub interpret_messages-process :
      (b : Block) (address : ℤ) (object : MetaData)
      → IsWritten s_block file b
      → length (encode b) < 2 ^ 32
      → at_address file address (length (encode b)) ≡ some (encode b)
      → num_msgs ≡ count b
      → interpret_messages little_endian true s_block file num_msgs object address
          (length (encode b))
          0
          0
        ≡ (process s_block b address 0 [] object >>= finish num_msgs num_msgs)
  unfolding interpret_messages
  interpret_messages-process b address object written short placed all = rw placed (
      written_IsRead (suc (num_msgs - 0)) b written (encode b) address (length (encode b)) 0 0 0 []
        object (omega arith) refl (omega arith) short (omega (arith, all)) Tracks-none
      ∙ ap (λ (k : ℕ). process s_block b address 0 [] object >>= finish num_msgs k)
          (omega (arith, all)))
