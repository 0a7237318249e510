-- ===== src/FillObject.antt =====
-- src/fillDataObjects.c (`interpretMessages`): the messages of the header of an object. `file` is the
-- bytes of the file; a message is read within the bytes that the header or its continuation has, and a
-- read past them is a fault.
pub mod Tracker
pub mod Headers
pub mod Behind
pub mod Rounds
pub mod Continued
pub mod Written
pub mod Returned
pub mod Ends
pub mod Collect
pub mod MatrixBytes
pub mod Matrix
mod Tests
use getmatvar.Common.{
  ℕ, zero, suc, ◌+◌, ◌-◌, ◌/◌, ◌%◌, ◌^◌, Bool, not, ◌&&◌, ◌||◌, Option, none, some, List, [], ◌∷◌,
  take, drop, ltb, ◌==◌, if◌then◌else◌, ℤ, pos, ◌+ℤ◌,
}
use getmatvar.NumberHelper.{ByteOrder, little_endian, get_bytes_as_number, ◌>>=◌}
use getmatvar.Superblock.{Superblock, to_signed}
use getmatvar.Navigate.{at_address}
use getmatvar.Message.{
  read_data_space_message, read_data_layout_message, read_data_storage_pipeline_message,
}
use getmatvar.Message.Datatype.{read_data_type_message}
use getmatvar.Message.Attribute.{MetaData, read_attribute_message}
use getmatvar.Ezq.Walk.Search.{same_text}

-- The messages of which only the first is read.
abbrev pub is_once : ℕ → Bool
is_once msg_type = msg_type == 1 || msg_type == 3 || msg_type == 8 || msg_type == 11

-- `repeat_tracker & (1 << msg_type)`.
abbrev pub is_repeated : ℕ → ℕ → Bool
is_repeated repeat_tracker msg_type = repeat_tracker / 2 ^ msg_type % 2 == 1

-- Bit `msg_type` of `repeat_tracker` is not set.
abbrev pub track : ℕ → ℕ → ℕ
track repeat_tracker msg_type =
    if is_once msg_type then repeat_tracker + 2 ^ msg_type else repeat_tracker

-- The four bytes `OCHK`.
abbrev pub is_version_2 : List ℕ → Bool
is_version_2 msg = same_text (take 4 msg) (79 ∷ 67 ∷ 72 ∷ 75 ∷ [])

module _ (host : ByteOrder) (has_memory : Bool) (s_block : Superblock) where
  -- The object and the error flag that reading one message gives.
  unfoldable pub read_message : ℕ → List ℕ → ℤ → MetaData → Option (MetaData × ℕ)
  read_message msg_type msg msg_address object =
      if msg_type == 1
      then (do
        r ← read_data_space_message host has_memory s_block msg object.shape
        some (record object { shape = r.0 }, r.1))
      else if msg_type == 3
      then (do
        r ← read_data_type_message host msg object.data_type
        some (record object { data_type = r.0 }, r.1))
      else if msg_type == 8
      then (do
        r ← read_data_layout_message host has_memory s_block msg msg_address object.shape
        some (record object { shape = r.0 }, r.1))
      else if msg_type == 11
      then (do
        r ← read_data_storage_pipeline_message host has_memory msg object.shape
        some (record object { shape = r.0 }, r.1))
      else if msg_type == 12
      then read_attribute_message host has_memory msg object
      else some (object, 0)

  module _ (file : List ℕ) (num_msgs : ℕ) (out_of_rounds : Option (MetaData × ℕ × ℕ)) where
    -- The loop of one call, and in it the call for a continuation: the object, the number returned
    -- and the error flag, or `out_of_rounds` where the rounds do not suffice. Each round and each
    -- call raises `message_num`.
    unfoldable pub messages_loop :
        ℕ → List ℕ → ℤ → ℕ → ℕ → ℕ → ℕ → MetaData → Option (MetaData × ℕ × ℕ)
    unfolding read_message
    messages_loop zero start address msgs_length bytes_read message_num repeat_tracker object =
        out_of_rounds
    messages_loop (suc fuel) start address msgs_length bytes_read message_num repeat_tracker
          object =
        if not (ltb message_num num_msgs && ltb bytes_read msgs_length)
        then some (object, (message_num + 65535) % 2 ^ 16, 0)
        else (do
          msg_type ← get_bytes_as_number host (drop bytes_read start) 2 little_endian
          msg_size ← get_bytes_as_number host (drop 2 (drop bytes_read start)) 2 little_endian
          let msg = drop 8 (drop bytes_read start) in
              if msg_type == 16
              then if is_version_2 msg then some (object, num_msgs, 1) else (do
                cont ← get_bytes_as_number host msg s_block.size_of_offsets little_endian
                cont_length ←
                    get_bytes_as_number host (drop s_block.size_of_offsets msg)
                      s_block.size_of_lengths little_endian
                cont_start ←
                    at_address file (to_signed cont +ℤ s_block.base_address) (cont_length % 2 ^ 32)
                inner ←
                    messages_loop fuel cont_start (to_signed cont +ℤ s_block.base_address)
                      (cont_length % 2 ^ 32) 0 ((message_num + 1) % 2 ^ 16) repeat_tracker object
                if not (inner.2 == 0)
                    then some (inner.0, num_msgs, inner.2)
                    else messages_loop fuel start address msgs_length
                        ((bytes_read + msg_size + 8) % 2 ^ 32) ((inner.1 + 1) % 2 ^ 16)
                        repeat_tracker inner.0)
              else if is_once msg_type && is_repeated repeat_tracker msg_type
              then messages_loop fuel start address msgs_length
                  ((bytes_read + msg_size + 8) % 2 ^ 32) ((message_num + 1) % 2 ^ 16) repeat_tracker
                  object
              else (do
                r ← read_message msg_type msg (address +ℤ pos (bytes_read + 8)) object
                if not (r.1 == 0)
                    then some (r.0, num_msgs, r.1)
                    else messages_loop fuel start address msgs_length
                        ((bytes_read + msg_size + 8) % 2 ^ 32) ((message_num + 1) % 2 ^ 16)
                        (track repeat_tracker msg_type) r.0))

  -- As many rounds as there are messages left, and one for the last test, are enough.
  unfoldable pub interpret_messages :
      List ℕ → ℕ → MetaData → ℤ → ℕ → ℕ → ℕ → Option (MetaData × ℕ × ℕ)
  unfolding messages_loop
  interpret_messages file num_msgs object address msgs_length message_num repeat_tracker = do
    start ← at_address file address msgs_length
    messages_loop file num_msgs none (suc (num_msgs - message_num)) start address msgs_length 0
        message_num repeat_tracker object
