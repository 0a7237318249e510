-- ===== src/ChunkTree/Keys.antt =====
-- The key of a chunk, read back from its bytes.
use getmatvar.Common.{
  ℕ, zero, suc, ◌+◌, ◌-◌, ◌*◌, ◌^◌, ◌≤◌, ◌<◌, ◌≡◌, refl, sym, ap, ap₂, subst, ◌∙◌, true, some, List,
  [], ◌∷◌, ◌++◌, map, reverse, arith, length, length-append, length-reverse, take, drop,
  drop-append_left, append_assoc, replicate, drop-replicate, set-middle, set, pos,
}
use mathlib.Core.List.{reverse-cons}
use getmatvar.NumberHelper.{little_endian, le_value}
use getmatvar.NumberHelper.Encoded.{le_bytes, read-le_bytes, le_value-le_bytes}
use getmatvar.Superblock.{Superblock}
use getmatvar.Message.{dims_loop}
use getmatvar.Message.Dataspace.{field, sizes, length-map_pos, length-replicate, dims_loop-sizes}
use getmatvar.FillObject.Behind.{drop-drop}
use getmatvar.ChunkTree.{read_key}
use getmatvar.ChunkTree.Written.{Key, words, key_bytes, AllBelow, chunk_of, IsKey}

length-words : (vs : List ℕ) → length (words vs) ≡ length vs * 8
length-words [] = refl
length-words (v ∷ vs) = omega (arith, length-words vs)

next_word :
    (v : ℕ) (vs rest p : List ℕ) (i : ℕ)
    → drop (i * 8) p ≡ words (v ∷ vs) ++ rest
    → drop (suc i * 8) p ≡ words vs ++ rest
next_word v vs rest p i here_is =
    ap (λ (k : ℕ). drop k p) (next i) ∙ drop-drop (i * 8) 8 p ∙ ap (drop 8) here_is
  where
    next : (i : ℕ) → suc i * 8 ≡ i * 8 + 8
    next i = omega arith

sizes-words :
    (vs rest p : List ℕ) (i : ℕ)
    → AllBelow (2 ^ 63) vs
    → drop (i * 8) p ≡ words vs ++ rest
    → sizes p 8 (length vs) i ≡ reverse vs
sizes-words [] rest p i small here_is = refl
sizes-words (v ∷ vs) rest p i small here_is =
    ap₂ ◌++◌ (sizes-words vs rest p (suc i) small.1 (next_word v vs rest p i here_is)) (
      ap (λ l. l ∷ [])
        (ap (λ l. le_value (take 8 l)) here_is ∙ le_value-le_bytes 8 v (omega (arith, small.0))))
    ∙ sym (reverse-cons v vs)

field-words :
    (vs rest p : List ℕ) (i j : ℕ)
    → AllBelow (2 ^ 63) vs
    → drop (i * 8) p ≡ words vs ++ rest
    → j < length vs
    → field p 8 (i + j) < 2 ^ 63
field-words [] rest p i j small here_is lt = absurd (omega arith)
field-words (v ∷ vs) rest p i zero small here_is lt = omega (arith, at_first, small.0)
  where
    plus_zero : (i : ℕ) → i + 0 ≡ i
    plus_zero i = omega arith

    at_first : field p 8 (i + 0) ≡ v
    at_first =
        ap (λ (n : ℕ). field p 8 n) (plus_zero i)
        ∙ ap (λ l. le_value (take 8 l)) here_is
        ∙ le_value-le_bytes 8 v (omega (arith, small.0))
field-words (v ∷ vs) rest p i (suc j) small here_is lt =
    subst (λ (n : ℕ). field p 8 n < 2 ^ 63) (plus_suc i j)
      (field-words vs rest p (suc i) j small.1 (next_word v vs rest p i here_is) (omega arith))
  where
    plus_suc : (i j : ℕ) → suc i + j ≡ i + suc j
    plus_suc i j = omega arith

module _ (num_chunked_dims : ℕ) (k : Key) (file : List ℕ) (alloc_gran base : ℕ)
    (key : IsKey file alloc_gran num_chunked_dims base k) where
  length-key_bytes : length (key_bytes k) ≡ 8 + (num_chunked_dims + 1) * 8
  length-key_bytes = omega (
    arith,
    length-append k.mask (words k.starts ++ le_bytes 8 k.last_start),
    length-append (words k.starts) (le_bytes 8 k.last_start),
    length-words k.starts,
    key.1,
    key.2,
  )

  pub behind-key_bytes :
      (rest : List ℕ) → drop (8 + (num_chunked_dims + 1) * 8) (key_bytes k ++ rest) ≡ rest
  behind-key_bytes rest = drop-append_left (key_bytes k) rest _ length-key_bytes

  starts_read :
      (rest : List ℕ)
      → dims_loop little_endian num_chunked_dims 0 num_chunked_dims 8
          (drop 8 (key_bytes k ++ rest))
          (replicate (num_chunked_dims + 1) (pos 0))
        ≡ some (map pos (reverse k.starts) ++ (pos 0 ∷ []))
  starts_read rest =
      dims_loop-sizes p 8 num_chunked_dims (omega arith) inside signed num_chunked_dims 0
        (replicate (num_chunked_dims + 1) (pos 0)) (omega arith)
        (omega (arith, length-replicate (num_chunked_dims + 1) (pos 0)))
      ∙ ap₂ (λ l m. some (map pos l ++ m)) sizes_are
          (drop-replicate num_chunked_dims (num_chunked_dims + 1) (pos 0)
            ∙ ap (λ (j : ℕ). replicate j (pos 0)) (next_less num_chunked_dims))
    where
      p : List ℕ
      p = drop 8 (key_bytes k ++ rest)

      p_is : p ≡ words k.starts ++ (le_bytes 8 k.last_start ++ rest)
      p_is =
          ap (drop 4) (append_assoc k.mask (words k.starts ++ le_bytes 8 k.last_start) rest)
          ∙ drop-append_left k.mask _ 4 key.1
          ∙ append_assoc (words k.starts) (le_bytes 8 k.last_start) rest

      inside : num_chunked_dims * 8 ≤ length p
      inside = omega (
        arith,
        ap length p_is,
        length-append (words k.starts) (le_bytes 8 k.last_start ++ rest),
        length-words k.starts,
        key.2,
      )

      signed : (i : ℕ) → i < num_chunked_dims → field p 8 i < 2 ^ 63
      signed i lt =
          subst (λ (n : ℕ). field p 8 n < 2 ^ 63) (zero_plus i)
            (field-words k.starts (le_bytes 8 k.last_start ++ rest) p 0 i key.3 p_is
              (omega (arith, key.2)))
        where
          zero_plus : (i : ℕ) → 0 + i ≡ i
          zero_plus i = omega arith

      sizes_are : sizes p 8 num_chunked_dims 0 ≡ reverse k.starts
      sizes_are =
          ap (λ (n : ℕ). sizes p 8 n 0) (sym key.2)
          ∙ sizes-words k.starts (le_bytes 8 k.last_start ++ rest) p 0 key.3 p_is

      next_less : (n : ℕ) → n + 1 - n ≡ 1
      next_less n = omega arith

  pub read_key-chunk_of :
      (offset : ℕ) (s_block : Superblock) (rest : List ℕ)
      → read_key little_endian true s_block file alloc_gran num_chunked_dims
          (key_bytes k ++ rest)
          (pos (offset + base))
        ≡ some (chunk_of base k offset)
  unfolding read_key
  read_key-chunk_of offset s_block rest =
      rw (read-le_bytes 4 k.size _ (omega arith) key.0, starts_read rest)
        (ap
          (λ l. some (record {
            pair = record { address = offset + base; chunk_size = k.size };
            chunk_start = l;
          }))
          last_written)
    where
      length_is : length (map pos (reverse k.starts)) ≡ num_chunked_dims
      length_is = length-map_pos (reverse k.starts) ∙ length-reverse k.starts ∙ key.2

      last_written :
          set (map pos (reverse k.starts) ++ (pos 0 ∷ [])) num_chunked_dims (pos 0)
          ≡ map pos (reverse k.starts) ++ (pos 0 ∷ [])
      last_written =
          ap (λ (n : ℕ). set (map pos (reverse k.starts) ++ (pos 0 ∷ [])) n (pos 0)) (sym length_is)
          ∙ set-middle (map pos (reverse k.starts)) [] (pos 0) (pos 0)
