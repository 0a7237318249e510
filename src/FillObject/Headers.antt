-- ===== src/FillObject/Headers.antt =====
-- A header as it is written, with its continuations, and what reading it comes to.
use getmatvar.Common.{
  ℕ, suc, ◌+◌, ◌^◌, ◌<◌, ◌≡◌, ◌≢◌, true, false, ◌&&◌, Option, some, List, [], ◌∷◌, ◌++◌, length,
  ◌==◌, if◌then◌else◌, ℤ, pos, ◌+ℤ◌,
}
use getmatvar.NumberHelper.{little_endian, ◌>>=◌}
use getmatvar.NumberHelper.Encoded.{le_bytes}
use getmatvar.Superblock.{Superblock}
use getmatvar.Navigate.{at_address}
use getmatvar.Message.Attribute.{MetaData}
use getmatvar.FillObject.Tracker.{is_member}
use getmatvar.FillObject.{is_once, is_version_2, read_message}

-- Messages in a row. `flags` is the flags and the reserved bytes of a message, `offset` is where a
-- continuation stands, its messages being the inner ones.
pub data Block : Type 0 where
  end : Block
  plain : (msg_type : ℕ) (flags body : List ℕ) → Block → Block
  continued : (flags : List ℕ) (offset : ℕ) (inner after : Block) → Block

abbrev pub encode : Block → List ℕ
encode end = []
encode (plain msg_type flags body b) =
    le_bytes 2 msg_type ++ (le_bytes 2 (length body) ++ (flags ++ (body ++ encode b)))
encode (continued flags offset inner b) =
    le_bytes 2 16
    ++ (le_bytes 2 16
        ++ (flags ++ (le_bytes 8 offset ++ (le_bytes 8 (length (encode inner)) ++ encode b))))

-- A continuation counts as a message.
abbrev pub count : Block → ℕ
count end = 0
count (plain msg_type flags body b) = suc (count b)
count (continued flags offset inner b) = suc (count inner + count b)

module _ (s_block : Superblock) where
  -- Each message is read in its order, a continuation's in its place, but those of a type that is
  -- read once only if no message of that type stands before, in the same block or in one that this
  -- block continues. The reading ends with the first message that is refused.
  abbrev pub process : Block → ℤ → ℕ → List ℕ → MetaData → Option (MetaData × ℕ)
  process end address bytes_read seen object = some (object, 0)
  process (plain msg_type flags body b) address bytes_read seen object =
      if is_once msg_type && is_member msg_type seen
      then process b address (bytes_read + length body + 8) seen object
      else (do
        r ←
            read_message little_endian true s_block msg_type (body ++ encode b)
              (address +ℤ pos (bytes_read + 8)) object
        if r.1 == 0
            then process b address (bytes_read + length body + 8)
                (if is_once msg_type then msg_type ∷ seen else seen) r.0
            else some r)
  process (continued flags offset inner b) address bytes_read seen object = do
    r ← process inner (pos offset +ℤ s_block.base_address) 0 seen object
    if r.1 == 0 then process b address (bytes_read + 16 + 8) seen r.0 else some r

  module _ (file : List ℕ) where
    -- The parts fit their fields, and each continuation stands in the file where it is said to.
    abbrev pub IsWritten : Block → Type 0
    IsWritten end = Unit
    IsWritten (plain msg_type flags body b) =
        (msg_type < 256 ^ 2)
        × (msg_type ≢ 16)
        × (length body < 256 ^ 2)
        × (length flags ≡ 4)
        × IsWritten b
    IsWritten (continued flags offset inner b) =
        (length flags ≡ 4)
        × (offset < 2 ^ 63)
        × (is_version_2 (le_bytes 8 offset) ≡ false)
        × (length (encode inner) < 2 ^ 32)
        × (at_address file (pos offset +ℤ s_block.base_address) (length (encode inner))
            ≡ some (encode inner))
        × IsWritten inner
        × IsWritten b
