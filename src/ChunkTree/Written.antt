-- ===== src/ChunkTree/Written.antt =====
-- A tree of chunks as it is written, and the chunks in it.
use getmatvar.Common.{
  ℕ, suc, ◌+◌, ◌*◌, ◌^◌, ◌<◌, max, ◌≡◌, false, Option, some, List, [], ◌∷◌, ◌++◌, map, reverse,
  length, pos,
}
use getmatvar.NumberHelper.{◌>>=◌}
use getmatvar.NumberHelper.Encoded.{le_bytes}
use getmatvar.Navigate.{at_address}
use getmatvar.ChunkTree.{QueuedChunk, Buckets, note_chunk, is_tree, is_snod}

-- What stands before the address of a chunk, or of a node further down: its first index in each
-- dimension is in `starts`, the last dimension first, and `last_start` is that in the element.
pub record Key : Type 0 where
  pub size : ℕ
  pub mask : List ℕ
  pub starts : List ℕ
  pub last_start : ℕ

abbrev pub words : List ℕ → List ℕ
words [] = []
words (v ∷ vs) = le_bytes 8 v ++ words vs

abbrev pub key_bytes : Key → List ℕ
key_bytes k = le_bytes 4 k.size ++ (k.mask ++ (words k.starts ++ le_bytes 8 k.last_start))

-- The entries of a node from one on: chunks, and nodes with entries of their own. `offset` is the
-- address less that of the superblock, `rest` what is behind the head of a node in the bytes that are
-- mapped for it, and `bound` the key behind its entries.
pub data Entries : Type 0 where
  end : Entries
  leaf : Key → (offset : ℕ) → Entries → Entries
  node : Key → (offset level : ℕ) (rest bound : List ℕ) → (children : Entries) → Entries → Entries

abbrev pub number : Entries → ℕ
number end = 0
number (leaf k offset e) = suc (number e)
number (node k offset level rest bound children e) = suc (number e)

abbrev pub depth : Entries → ℕ
depth end = 0
depth (leaf k offset e) = max 1 (depth e)
depth (node k offset level rest bound children e) = max (suc (depth children)) (depth e)

abbrev pub encode : Entries → List ℕ → List ℕ
encode end bound = bound
encode (leaf k offset e) bound = key_bytes k ++ (le_bytes 8 offset ++ encode e bound)
encode (node k offset level rest inner children e) bound =
    key_bytes k ++ (le_bytes 8 offset ++ encode e bound)

abbrev pub head_bytes : ℕ → ℕ → List ℕ → List ℕ
head_bytes level entries_used rest =
    84 ∷ 82 ∷ 69 ∷ 69 ∷ 1 ∷ level ∷ (le_bytes 2 entries_used ++ rest)

abbrev pub AllBelow : ℕ → List ℕ → Type 0
AllBelow n [] = Unit
AllBelow n (v ∷ vs) = (v < n) × AllBelow n vs

abbrev pub chunk_of : ℕ → Key → ℕ → QueuedChunk
chunk_of base k offset = record {
  pair = record { address = offset + base; chunk_size = k.size };
  chunk_start = map pos (reverse k.starts) ++ (pos 0 ∷ []);
}

-- The chunks from left to right.
abbrev pub chunks : ℕ → Entries → List QueuedChunk
chunks base end = []
chunks base (leaf k offset e) = chunk_of base k offset ∷ chunks base e
chunks base (node k offset level rest bound children e) = chunks base children ++ chunks base e

abbrev pub note_all : ℕ → List QueuedChunk → Buckets → Option Buckets
note_all alloc_gran [] b = some b
note_all alloc_gran (c ∷ cs) b = note_chunk alloc_gran c b >>= note_all alloc_gran cs

module _ (file : List ℕ) (alloc_gran num_chunked_dims base : ℕ) where
  abbrev pub IsKey : Key → Type 0
  IsKey k =
      (k.size < 256 ^ 4)
      × (length k.mask ≡ 4)
      × (length k.starts ≡ num_chunked_dims)
      × AllBelow (2 ^ 63) k.starts

  -- The parts fit their fields, and what an entry says is at an address is there: for a chunk any
  -- bytes that do not begin like a node.
  abbrev pub IsWritten : Entries → Type 0
  IsWritten end = Unit
  IsWritten (leaf k offset e) =
      IsKey k
      × (offset < 2 ^ 63)
      × ((p : List ℕ) × (at_address file (pos (offset + base)) alloc_gran ≡ some p)
          × (is_tree p ≡ false)
          × (is_snod p ≡ false))
      × IsWritten e
  IsWritten (node k offset level rest bound children e) =
      IsKey k
      × (offset < 2 ^ 63)
      × (number children < 256 ^ 2)
      × (at_address file (pos (offset + base)) alloc_gran
          ≡ some (head_bytes level (number children) rest))
      × (at_address file (pos (offset + base + 24))
            ((number children + 1) * (8 + (num_chunked_dims + 1) * 8) + number children * 8)
          ≡ some (encode children bound))
      × IsWritten children
      × IsWritten e
