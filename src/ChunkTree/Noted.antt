-- ===== src/ChunkTree/Noted.antt =====
-- What `fillNode` has counted in each page of the file, and queued for it.
use getmatvar.Common.{
  ℕ, ◌+◌, ◌*◌, ◌/◌, ◌^◌, ◌<◌, ◌≡◌, ◌≢◌, refl, sym, ap, ◌∙◌, subst, true, false, Bool-cases, inl,
  inr, some, List, [], ◌∷◌, ◌++◌, map, append-nil, append_assoc, arith, length, get_or, set,
  length-set, get_or-set_self, get_or-set_ne, lt→ltb, ◌==◌, ==_iff, if◌then◌else◌, pos,
}
use getmatvar.NumberHelper.{little_endian, ◌>>=◌}
use getmatvar.Superblock.{Superblock}
use getmatvar.Navigate.{at_address}
use getmatvar.Pages.{count_chunk, count_chunks}
use getmatvar.ChunkTree.{NodeType, chunk, QueuedChunk, Buckets, new_page, note_chunk, fill_node}
use getmatvar.ChunkTree.Written.{
  Entries, number, depth, encode, head_bytes, chunks, note_all, IsWritten,
}
use getmatvar.ChunkTree.Filled.{fill_node-note_all}

differ : (a b : ℕ) → (a == b) ≡ false → a ≢ b
differ a b h e = ground arith

module _ (alloc_gran : ℕ) where
  abbrev pub page_of : QueuedChunk → ℕ
  page_of c = c.pair.address / alloc_gran

  -- The chunks that start in page `i`.
  abbrev pub in_page : ℕ → List QueuedChunk → List QueuedChunk
  in_page i [] = []
  in_page i (c ∷ cs) = if page_of c == i then c ∷ in_page i cs else in_page i cs

  abbrev pub AllInPages : ℕ → List QueuedChunk → Type 0
  AllInPages n [] = Unit
  AllInPages n (c ∷ cs) = (page_of c < n) × AllInPages n cs

  -- Page `i` and its queue have got what is in `cs` of page `i`, in its order.
  abbrev pub HasNoted : ℕ → List QueuedChunk → Buckets → Buckets → Type 0
  HasNoted i cs b b' =
      (get_or b'.page_objects i new_page
        ≡ count_chunks alloc_gran (get_or b.page_objects i new_page)
            (map (λ c. c.pair) (in_page i cs)))
      × (get_or b'.data_page_buckets i [] ≡ get_or b.data_page_buckets i [] ++ in_page i cs)

  abbrev noted : QueuedChunk → Buckets → Buckets
  noted c b = record {
    page_objects =
        set b.page_objects (page_of c)
          (count_chunk alloc_gran (get_or b.page_objects (page_of c) new_page) c.pair);
    data_page_buckets =
        set b.data_page_buckets (page_of c) (get_or b.data_page_buckets (page_of c) [] ++ (c ∷ []));
  }

  then_HasNoted :
      (c : QueuedChunk) (cs : List QueuedChunk) (b b' : Buckets) (i : ℕ)
      → length b.page_objects ≡ length b.data_page_buckets
      → i < length b.page_objects
      → HasNoted i cs (noted c b) b'
      → HasNoted i (c ∷ cs) b b'
  unfolding count_chunks
  then_HasNoted c cs b b' i same inside (pages, queues) = elim (Bool-cases (page_of c == i)) [
    | inl here_now ↦ rw here_now (
      pages
          ∙ ap (λ q. count_chunks alloc_gran q (map (λ (d : QueuedChunk). d.pair) (in_page i cs)))
              (here_page ((==_iff (page_of c) i).0 here_now)),
      queues
          ∙ ap (λ q. q ++ in_page i cs) (here_queue ((==_iff (page_of c) i).0 here_now))
          ∙ append_assoc (get_or b.data_page_buckets i []) (c ∷ []) (in_page i cs),
    )
    | inr elsewhere ↦ rw elsewhere (
      pages
          ∙ ap (λ q. count_chunks alloc_gran q (map (λ (d : QueuedChunk). d.pair) (in_page i cs)))
              (get_or-set_ne b.page_objects (page_of c) i _ new_page (other elsewhere)),
      queues
          ∙ ap (λ q. q ++ in_page i cs)
              (get_or-set_ne b.data_page_buckets (page_of c) i _ [] (other elsewhere)),
    )
  ]
    where
      here_page :
          page_of c ≡ i
          → get_or (noted c b).page_objects i new_page
            ≡ count_chunk alloc_gran (get_or b.page_objects i new_page) c.pair
      here_page at_i =
          subst
            (λ (j : ℕ).
              get_or (noted c b).page_objects j new_page
              ≡ count_chunk alloc_gran (get_or b.page_objects j new_page) c.pair)
            at_i (get_or-set_self b.page_objects (page_of c) _ new_page (omega (arith, at_i)))

      here_queue :
          page_of c ≡ i
          → get_or (noted c b).data_page_buckets i [] ≡ get_or b.data_page_buckets i [] ++ (c ∷ [])
      here_queue at_i =
          subst
            (λ (j : ℕ).
              get_or (noted c b).data_page_buckets j []
              ≡ get_or b.data_page_buckets j [] ++ (c ∷ []))
            at_i (get_or-set_self b.data_page_buckets (page_of c) _ [] (omega (arith, at_i)))

      other : (page_of c == i) ≡ false → page_of c ≢ i
      other elsewhere e = differ (page_of c) i elsewhere e

  pub note_all-HasNoted :
      (cs : List QueuedChunk) (b : Buckets)
      → length b.page_objects ≡ length b.data_page_buckets
      → AllInPages (length b.page_objects) cs
      → (b' : Buckets) × (note_all alloc_gran cs b ≡ some b')
        × ((i : ℕ) → i < length b.page_objects → HasNoted i cs b b')
  unfolding note_chunk count_chunks
  note_all-HasNoted [] b same all =
      (b, refl, λ i inside. (refl, sym (append-nil (get_or b.data_page_buckets i []))))
  note_all-HasNoted (c ∷ cs) b same (first_in, all) =
      let (b', result, counted) =
        note_all-HasNoted cs (noted c b)
          (length-set b.page_objects _ _ ∙ same ∙ sym (length-set b.data_page_buckets _ _))
          (subst (λ (n : ℕ). AllInPages n cs) (sym (length-set b.page_objects _ _)) all) in
      (
        b',
        rw (lt→ltb (page_of c) (length b.page_objects) first_in) result,
        λ i inside.
            then_HasNoted c cs b b' i same inside
              (counted i (subst (λ (n : ℕ). i < n) (sym (length-set b.page_objects _ _)) inside)),
      )

-- A tree of chunks that stands in the file as it is written, on a little-endian machine with memory
-- and for offsets of eight bytes, no chunk of it behind the pages and a queue for each page:
-- `fillNode` does not fail with as many calls inside each other as the tree is deep and one more. Each
-- page then has counted the chunks that start in it, and its queue has got them, with their sizes
-- and first indices, in the order of the tree.
pub fill_node-HasNoted :
    (s_block : Superblock) (base : ℕ) (file : List ℕ)
    (alloc_gran num_chunked_dims fuel offset level : ℕ) (rest bound : List ℕ) (e : Entries)
    (b : Buckets)
    → s_block.size_of_offsets ≡ 8
    → s_block.base_address ≡ pos base
    → depth e < fuel
    → IsWritten file alloc_gran num_chunked_dims base e
    → number e < 256 ^ 2
    → at_address file (pos (offset + base)) alloc_gran ≡ some (head_bytes level (number e) rest)
    → at_address file
        (pos (offset + base + 24))
        ((number e + 1) * (8 + (num_chunked_dims + 1) * 8) + number e * 8)
      ≡ some (encode e bound)
    → length b.page_objects ≡ length b.data_page_buckets
    → AllInPages alloc_gran (length b.page_objects) (chunks base e)
    → (b' : Buckets) × (fill_node little_endian true s_block file alloc_gran num_chunked_dims fuel
          (pos (offset + base))
          b
        ≡ some (chunk, b', 0))
      × ((i : ℕ) → i < length b.page_objects → HasNoted alloc_gran i (chunks base e) b b')
fill_node-HasNoted s_block base file alloc_gran num_chunked_dims fuel offset level rest bound e b
      offsets base_is deep written few head there same all =
    let (b', result, counted) = note_all-HasNoted alloc_gran (chunks base e) b same all in
    (
      b',
      fill_node-note_all s_block offsets base base_is file alloc_gran num_chunked_dims fuel offset
            level rest bound e b deep written few head there
          ∙ ap (λ r. ◌>>=◌ {A = Buckets} {B = NodeType × Buckets × ℕ} r (λ b'. some (chunk, b', 0)))
              result,
      counted,
    )
