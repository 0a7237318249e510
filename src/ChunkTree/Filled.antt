-- ===== src/ChunkTree/Filled.antt =====
-- `fillNode` on a tree of chunks as it is written, on a little-endian machine with memory.
use getmatvar.Common.{
  ℕ, zero, suc, ◌+◌, ◌*◌, ◌^◌, ◌≤◌, ◌<◌, ◌≡◌, refl, ◌∙◌, true, Option, none, some, List, arith, pos,
}
use getmatvar.NumberHelper.{little_endian, ◌>>=◌}
use getmatvar.Superblock.{Superblock}
use getmatvar.Navigate.{at_address}
use getmatvar.ChunkTree.{NodeType, chunk, Buckets, entries_loop, fill_node}
use getmatvar.ChunkTree.Written.{
  Entries, end, leaf, node, number, depth, encode, head_bytes, chunks, note_all, IsWritten,
}
use getmatvar.ChunkTree.Steps.{IsFilled, node_filled, leaf-IsFilled, node-IsFilled}

module _ (s_block : Superblock) (offsets : s_block.size_of_offsets ≡ 8) (base : ℕ)
    (base_is : s_block.base_address ≡ pos base) (file : List ℕ)
    (alloc_gran num_chunked_dims : ℕ) where
  entries_IsFilled :
      (e : Entries) (fuel : ℕ)
      → depth e ≤ fuel
      → IsWritten file alloc_gran num_chunked_dims base e
      → IsFilled s_block offsets base base_is file alloc_gran num_chunked_dims fuel e
  unfolding entries_loop
  entries_IsFilled end fuel deep written = λ bound b. refl
  entries_IsFilled (leaf k offset e) zero deep written = absurd (omega arith)
  entries_IsFilled (leaf k offset e) (suc fuel) deep
        (key, fits, (p, there, no_tree, no_snod), after) =
      leaf-IsFilled s_block offsets base base_is file alloc_gran num_chunked_dims k key offset fits
        fuel e p there no_tree no_snod (entries_IsFilled e (suc fuel) (omega arith) after)
  entries_IsFilled (node k offset level rest inner children e) zero deep written =
      absurd (omega arith)
  entries_IsFilled (node k offset level rest inner children e) (suc fuel) deep
        (key, fits, few, head, there, within, after) =
      node-IsFilled s_block offsets base base_is file alloc_gran num_chunked_dims k key offset fits
        fuel level rest inner children e few head there
        (entries_IsFilled children fuel (omega arith) within)
        (entries_IsFilled e (suc fuel) (omega arith) after)

  pub fill_node-note_all :
      (fuel offset level : ℕ) (rest bound : List ℕ) (e : Entries) (b : Buckets)
      → depth e < fuel
      → IsWritten file alloc_gran num_chunked_dims base e
      → number e < 256 ^ 2
      → at_address file (pos (offset + base)) alloc_gran ≡ some (head_bytes level (number e) rest)
      → at_address file
          (pos (offset + base + 24))
          ((number e + 1) * (8 + (num_chunked_dims + 1) * 8) + number e * 8)
        ≡ some (encode e bound)
      → fill_node little_endian true s_block file alloc_gran num_chunked_dims fuel
          (pos (offset + base))
          b
        ≡ (note_all alloc_gran (chunks base e) b >>= λ b'. some (chunk, b', 0))
  fill_node-note_all zero offset level rest bound e b deep written few head there =
      absurd (omega arith)
  fill_node-note_all (suc fuel) offset level rest bound e b deep written few head there =
      node_filled s_block offsets base base_is file alloc_gran num_chunked_dims offset fuel level
        rest bound e b few head there (entries_IsFilled e fuel (omega arith) written)
      ∙ drop_error (note_all alloc_gran (chunks base e) b)
    where
      drop_error :
          (r : Option Buckets)
          → ◌>>=◌ {A = Buckets × ℕ} {B = NodeType × Buckets × ℕ}
              (◌>>=◌ {A = Buckets} {B = Buckets × ℕ} r (λ b'. some (b', 0)))
              (λ r. some (chunk, r.0, r.1))
            ≡ ◌>>=◌ {A = Buckets} {B = NodeType × Buckets × ℕ} r (λ b'. some (chunk, b', 0))
      drop_error none = refl
      drop_error (some b') = refl
