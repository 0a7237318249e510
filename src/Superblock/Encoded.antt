-- ===== src/Superblock/Encoded.antt =====
-- A superblock with addresses of eight bytes, read back.
use getmatvar.Common.{
  ℕ, zero, suc, ◌+◌, ◌%◌, ◌^◌, ◌<◌, ◌≡◌, ap, ap₂, ◌∙◌, some, List, [], ◌∷◌, ◌++◌, arith, length,
  drop, pos, ◌+ℤ◌, +ℤ-pos,
}
use getmatvar.NumberHelper.{little_endian}
use getmatvar.NumberHelper.Encoded.{le_bytes, read-le_bytes}
use getmatvar.Superblock.{to_signed, fill_superblock}

pub to_signed-pos : (v : ℕ) → v < 2 ^ 63 → to_signed v ≡ pos v
to_signed-pos v lt = ground arith

pub drop-past {ℓ} :
    {A : Type ℓ} (before rest : List A) (n k : ℕ)
    → length before ≡ n
    → drop (n + k) (before ++ rest) ≡ drop k rest
drop-past [] rest zero k e = ap (λ (j : ℕ). drop j rest) (omega arith)
drop-past [] rest (suc n) k e = ground arith
drop-past (x ∷ before) rest zero k e = ground arith
drop-past (x ∷ before) rest (suc n) k e =
    ap (λ (j : ℕ). drop j (x ∷ (before ++ rest))) (past n k)
    ∙ drop-past before rest n k (omega (arith, e))
  where
    past : (n k : ℕ) → suc n + k ≡ suc (n + k)
    past n k = omega arith

-- `before` is the signature and the versions, `flags` and `gap` what the program does not read.
module _ (before flags gap rest : List ℕ) (lengths x leaf internal base root heap : ℕ) where
  abbrev pub root_bytes : List ℕ
  root_bytes = le_bytes 8 root ++ (le_bytes 8 heap ++ rest)

  abbrev pub base_bytes : List ℕ
  base_bytes = le_bytes 8 base ++ (gap ++ root_bytes)

  abbrev pub size_bytes : List ℕ
  size_bytes =
      le_bytes 1 8
      ++ (le_bytes 1 lengths
          ++ (x ∷ (le_bytes 2 leaf ++ (le_bytes 2 internal ++ (flags ++ base_bytes)))))

  abbrev pub superblock_bytes : List ℕ
  superblock_bytes = before ++ size_bytes

  module _ (thirteen : length before ≡ 13) (four : length flags ≡ 4) (wide : length gap ≡ 48) where
    at : (k : ℕ) → drop (13 + k) superblock_bytes ≡ drop k size_bytes
    at k = drop-past before size_bytes 13 k thirteen

    at_base : drop 24 superblock_bytes ≡ base_bytes
    at_base = at 11 ∙ drop-past flags base_bytes 4 0 four

    at_root : drop 80 superblock_bytes ≡ root_bytes
    at_root = at 67 ∙ drop-past flags base_bytes 4 56 four ∙ drop-past gap root_bytes 48 0 wide

    -- The bytes that give addresses of eight bytes: `fillSuperblock` does not fail and reads back
    -- what was written, with the base address added to the two others.
    pub fill_superblock-written :
        lengths < 256
        → leaf < 256 ^ 2
        → internal < 256 ^ 2
        → base < 2 ^ 63
        → root < 2 ^ 63
        → heap < 2 ^ 63
        → fill_superblock little_endian superblock_bytes
          ≡ some (record {
            size_of_offsets = 8;
            size_of_lengths = lengths;
            leaf_node_k = leaf;
            internal_node_k = internal;
            sym_table_entry_size = 40;
            base_address = pos base;
            root_tree_address = pos (root + base);
            root_heap_address = pos (heap + base);
          })
    unfolding fill_superblock
    fill_superblock-written lengths_fit leaf_fits internal_fits base_fits root_fits heap_fits =
        rw
          (
            at 0,
            read-le_bytes 1 8 _ (omega arith) (omega arith),
            at 1,
            read-le_bytes 1 lengths _ (omega arith) (omega (arith, lengths_fit)),
            at 3,
            read-le_bytes 2 leaf _ (omega arith) leaf_fits,
            at 5,
            read-le_bytes 2 internal _ (omega arith) internal_fits,
            at_base,
            at_root,
            read-le_bytes 8 base _ (omega arith) (omega (arith, base_fits)),
            read-le_bytes 8 root _ (omega arith) (omega (arith, root_fits)),
            read-le_bytes 8 heap _ (omega arith) (omega (arith, heap_fits)),
          )
          (λ i. some (record {
            size_of_offsets = 8;
            size_of_lengths = byte lengths lengths_fit i;
            leaf_node_k = half leaf leaf_fits i;
            internal_node_k = half internal internal_fits i;
            sym_table_entry_size = 40;
            base_address = to_signed-pos base base_fits i;
            root_tree_address = sum root root_fits i;
            root_heap_address = sum heap heap_fits i;
          }))
      where
        byte : (v : ℕ) → v < 256 → v % 2 ^ 8 ≡ v
        byte v small = omega (arith, small)

        half : (v : ℕ) → v < 256 ^ 2 → v % 2 ^ 16 ≡ v
        half v small = omega (arith, small)

        sum : (v : ℕ) → v < 2 ^ 63 → to_signed v +ℤ to_signed base ≡ pos (v + base)
        sum v small =
            ap₂ ◌+ℤ◌ (to_signed-pos v small) (to_signed-pos base base_fits) ∙ +ℤ-pos v base
