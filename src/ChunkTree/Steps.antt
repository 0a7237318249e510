-- ===== src/ChunkTree/Steps.antt =====
-- A round of the loop of `fillNode` on a chunk, and on a node further down.
use getmatvar.Common.{
  ℕ, suc, ◌+◌, ◌*◌, ◌^◌, ◌<◌, ◌≡◌, refl, sym, ap, ap₂, subst, ◌∙◌, true, false, Option, none, some,
  List, [], ◌∷◌, ◌++◌, arith, drop, ℤ, pos, ◌+ℤ◌, +ℤ-pos,
}
use getmatvar.NumberHelper.{little_endian, get_bytes_as_number, ◌>>=◌}
use getmatvar.NumberHelper.Encoded.{le_bytes, read-le_bytes}
use getmatvar.Superblock.{Superblock, to_signed}
use getmatvar.Superblock.Encoded.{to_signed-pos}
use getmatvar.Navigate.{at_address}
use getmatvar.FillObject.Behind.{drop-drop}
use getmatvar.Ezq.Walk.Search.{same_text}
use getmatvar.ChunkTree.{
  NodeType, chunk, raw_data, QueuedChunk, Buckets, note_chunk, is_tree, is_snod, entries_loop,
  fill_node,
}
use getmatvar.ChunkTree.Written.{
  Key, key_bytes, Entries, leaf, node, number, encode, head_bytes, chunk_of, chunks, note_all,
  IsKey,
}
use getmatvar.ChunkTree.Keys.{behind-key_bytes, read_key-chunk_of}

bind_assoc :
    (f g h : Buckets → Option Buckets)
    → ((b : Buckets) → f b ≡ (g b >>= h))
    → (r : Option Buckets) → (r >>= f) ≡ ((r >>= g) >>= h)
bind_assoc f g h same none = refl
bind_assoc f g h same (some b) = same b

note_all-append :
    (alloc_gran : ℕ) (cs ds : List QueuedChunk) (b : Buckets)
    → note_all alloc_gran (cs ++ ds) b ≡ (note_all alloc_gran cs b >>= note_all alloc_gran ds)
note_all-append alloc_gran [] ds b = refl
note_all-append alloc_gran (c ∷ cs) ds b =
    bind_assoc (note_all alloc_gran (cs ++ ds)) (note_all alloc_gran cs) (note_all alloc_gran ds)
      (note_all-append alloc_gran cs ds) (note_chunk alloc_gran c b)

module _ (s_block : Superblock) (offsets : s_block.size_of_offsets ≡ 8) (base : ℕ)
    (base_is : s_block.base_address ≡ pos base) (file : List ℕ)
    (alloc_gran num_chunked_dims : ℕ) where
  abbrev pub fill : ℕ → ℤ → Buckets → Option (NodeType × Buckets × ℕ)
  fill = fill_node little_endian true s_block file alloc_gran num_chunked_dims

  abbrev pub walk : ℕ → ℕ → List ℕ → Buckets → Option (Buckets × ℕ)
  walk fuel = entries_loop little_endian true s_block file alloc_gran num_chunked_dims (fill fuel)

  abbrev pub all_noted : Entries → Buckets → Option (Buckets × ℕ)
  all_noted e b = note_all alloc_gran (chunks base e) b >>= λ b'. some (b', 0)

  abbrev pub IsFilled : ℕ → Entries → Type 0
  IsFilled fuel e =
      (bound : List ℕ) (b : Buckets) → walk fuel (number e) (encode e bound) b ≡ all_noted e b

  module _ (offset : ℕ) where
    leaf_filled :
        (fuel : ℕ) (p : List ℕ) (b : Buckets)
        → at_address file (pos (offset + base)) alloc_gran ≡ some p
        → is_tree p ≡ false
        → is_snod p ≡ false
        → fill (suc fuel) (pos (offset + base)) b ≡ some (raw_data, b, 0)
    unfolding fill_node
    leaf_filled fuel p b there no_tree no_snod = rw (there, no_tree, no_snod) refl

    pub node_filled :
        (fuel level : ℕ) (rest inner : List ℕ) (children : Entries) (b : Buckets)
        → number children < 256 ^ 2
        → at_address file (pos (offset + base)) alloc_gran
          ≡ some (head_bytes level (number children) rest)
        → at_address file
            (pos (offset + base + 24))
            ((number children + 1) * (8 + (num_chunked_dims + 1) * 8) + number children * 8)
          ≡ some (encode children inner)
        → IsFilled fuel children
        → fill (suc fuel) (pos (offset + base)) b
          ≡ (all_noted children b >>= λ r. some (chunk, r.0, r.1))
    unfolding fill_node same_text
    node_filled fuel level rest inner children b few head there within =
        rw
          (
            head,
            read-le_bytes 1 1 _ (omega arith) (omega arith),
            read-le_bytes 2 (number children) rest (omega arith) few,
            subst
                (λ (w : ℕ).
                  at_address file (pos (offset + base) +ℤ pos (8 + 2 * w))
                    ((number children + 1) * (8 + (num_chunked_dims + 1) * 8) + number children * w)
                  ≡ some (encode children inner))
                (sym offsets)
                (ap
                    (λ a. at_address file a (
                      (number children + 1) * (8 + (num_chunked_dims + 1) * 8)
                      + number children * 8))
                    (+ℤ-pos (offset + base) 24)
                  ∙ there),
            within inner b,
          )
          refl

  module _ (k : Key) (key : IsKey file alloc_gran num_chunked_dims base k) (offset : ℕ)
      (offset_fits : offset < 2 ^ 63) where
    address_read : to_signed offset +ℤ s_block.base_address ≡ pos (offset + base)
    address_read = ap₂ ◌+ℤ◌ (to_signed-pos offset offset_fits) base_is ∙ +ℤ-pos offset base

    behind_entry :
        (rest : List ℕ)
        → drop
            (8 + (num_chunked_dims + 1) * 8 + s_block.size_of_offsets)
            (key_bytes k ++ (le_bytes 8 offset ++ rest))
          ≡ rest
    behind_entry rest =
        drop-drop (8 + (num_chunked_dims + 1) * 8) s_block.size_of_offsets
          (key_bytes k ++ (le_bytes 8 offset ++ rest))
        ∙ ap₂ drop offsets (
            behind-key_bytes num_chunked_dims k file alloc_gran base key
              (le_bytes 8 offset ++ rest))

    offset_read :
        (rest : List ℕ)
        → get_bytes_as_number little_endian
            (le_bytes 8 offset ++ rest)
            s_block.size_of_offsets
            little_endian
          ≡ some offset
    offset_read rest =
        ap
          (λ (w : ℕ). get_bytes_as_number little_endian (le_bytes 8 offset ++ rest) w little_endian)
          offsets
        ∙ read-le_bytes 8 offset rest (omega arith) (omega (arith, offset_fits))

    pub leaf-IsFilled :
        (fuel : ℕ) (e : Entries) (p : List ℕ)
        → at_address file (pos (offset + base)) alloc_gran ≡ some p
        → is_tree p ≡ false
        → is_snod p ≡ false
        → IsFilled (suc fuel) e
        → IsFilled (suc fuel) (leaf k offset e)
    unfolding entries_loop
    leaf-IsFilled fuel e p there no_tree no_snod after bound b =
        rw
          (
            behind-key_bytes num_chunked_dims k file alloc_gran base key
                (le_bytes 8 offset ++ encode e bound),
            behind_entry (encode e bound),
            offset_read (encode e bound),
            address_read,
            leaf_filled offset fuel p b there no_tree no_snod,
            read_key-chunk_of num_chunked_dims k file alloc_gran base key offset s_block
                (le_bytes 8 offset ++ encode e bound),
          )
          (go_on (note_chunk alloc_gran (chunk_of base k offset) b))
      where
        go_on :
            (r : Option Buckets)
            → (r >>= λ noted. walk (suc fuel) (number e) (encode e bound) noted)
              ≡ ((r >>= note_all alloc_gran (chunks base e)) >>= λ b'. some (b', 0))
        go_on none = refl
        go_on (some noted) = after bound noted

    pub node-IsFilled :
        (fuel level : ℕ) (rest inner : List ℕ) (children e : Entries)
        → number children < 256 ^ 2
        → at_address file (pos (offset + base)) alloc_gran
          ≡ some (head_bytes level (number children) rest)
        → at_address file
            (pos (offset + base + 24))
            ((number children + 1) * (8 + (num_chunked_dims + 1) * 8) + number children * 8)
          ≡ some (encode children inner)
        → IsFilled fuel children
        → IsFilled (suc fuel) e
        → IsFilled (suc fuel) (node k offset level rest inner children e)
    unfolding entries_loop
    node-IsFilled fuel level rest inner children e few head there within after bound b =
        by_result (note_all alloc_gran (chunks base children) b) refl
      where
        by_result :
            (r : Option Buckets)
            → note_all alloc_gran (chunks base children) b ≡ r
            → walk
                (suc fuel)
                (suc (number e))
                (key_bytes k ++ (le_bytes 8 offset ++ encode e bound))
                b
              ≡ (note_all alloc_gran (chunks base children ++ chunks base e) b >>= λ b'.
                  some (b', 0))
        by_result none fault =
            rw
              (
                behind-key_bytes num_chunked_dims k file alloc_gran base key
                    (le_bytes 8 offset ++ encode e bound),
                offset_read (encode e bound),
                address_read,
                node_filled offset fuel level rest inner children b few head there within,
                note_all-append alloc_gran (chunks base children) (chunks base e) b,
                fault,
              )
              refl
        by_result (some noted) fine =
            rw
              (
                behind-key_bytes num_chunked_dims k file alloc_gran base key
                    (le_bytes 8 offset ++ encode e bound),
                behind_entry (encode e bound),
                offset_read (encode e bound),
                address_read,
                node_filled offset fuel level rest inner children b few head there within,
                note_all-append alloc_gran (chunks base children) (chunks base e) b,
                fine,
              )
              (after bound noted)
