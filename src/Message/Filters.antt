-- ===== src/Message/Filters.antt =====
-- The message of filters of version 1, which has a name for each filter, is read back.
use getmatvar.Common.{
  ℕ, suc, ◌+◌, ◌%◌, ◌^◌, ◌<◌, ◌≡◌, refl, sym, ap, ◌∙◌, true, false, ◌≤◌, ◌==◌, if◌then◌else◌, some,
  List, [], ◌∷◌, ◌++◌, arith, length, drop, drop-append_left, ltb,
}
use getmatvar.NumberHelper.{little_endian}
use getmatvar.NumberHelper.Encoded.{le_bytes, read-le_bytes}
use getmatvar.Message.{
  Data, Filter, byte_at, client_loop, filter_loop, read_data_storage_pipeline_message,
}

abbrev pub encode_values : List ℕ → List ℕ → List ℕ
encode_values [] rest = rest
encode_values (v ∷ vs) rest = le_bytes 4 v ++ encode_values vs rest

-- The format has four bytes behind an odd number of values in version 1, so that each filter has a
-- multiple of eight; the code does not skip them.
abbrev pub padded : ℕ → List ℕ → List ℕ
padded count rest = if count % 2 == 1 then 0 ∷ 0 ∷ 0 ∷ 0 ∷ rest else rest

-- The filters with the bytes of their names, before `rest`.
abbrev pub encode_filters : List (List ℕ × Filter) → List ℕ → List ℕ
encode_filters [] rest = rest
encode_filters ((name, f) ∷ fs) rest =
    le_bytes 2 f.filter_id
    ++ (le_bytes 2 (length name)
        ++ (le_bytes 2 f.optional_flag
            ++ (le_bytes 2 f.num_client_vals
                ++ (name
                    ++ encode_values f.client_data
                        (padded f.num_client_vals (encode_filters fs rest))))))

abbrev pub without_names : List (List ℕ × Filter) → List Filter
without_names [] = []
without_names ((name, f) ∷ fs) = f ∷ without_names fs

pub data Words : List ℕ → Type 0 where
  no_words : Words []
  a_word : (v : ℕ) (vs : List ℕ) → v < 256 ^ 4 → Words vs → Words (v ∷ vs)

-- Every filter but the last has an even number of values.
abbrev pub Unpadded : ℕ → List (List ℕ × Filter) → Type 0
Unpadded count [] = Unit
Unpadded count (f ∷ fs) = count % 2 ≡ 0

-- Each part of a filter fits the field that it is written to.
pub data Fitting : List (List ℕ × Filter) → Type 0 where
  no_filter : Fitting []
  a_filter :
      (name : List ℕ) (f : Filter) (fs : List (List ℕ × Filter))
      → f.filter_id < 256 ^ 2
      → length name < 256 ^ 2
      → f.optional_flag < 2
      → f.num_client_vals < 256 ^ 2
      → length f.client_data ≡ f.num_client_vals
      → Words f.client_data
      → Unpadded f.num_client_vals fs
      → Fitting fs
      → Fitting ((name, f) ∷ fs)

client_loop-values :
    (vs rest : List ℕ)
    → Words vs
    → client_loop little_endian (length vs) (encode_values vs rest) ≡ some (vs, rest)
unfolding client_loop
client_loop-values [] rest words = refl
client_loop-values (v ∷ vs) rest (a_word _ _ small words) =
    rw
      (
        read-le_bytes 4 v (encode_values vs rest) (omega arith) small,
        client_loop-values vs rest words,
      )
      (ap (λ (w : ℕ). some (w ∷ vs, rest)) (word v small))
  where
    word : (v : ℕ) → v < 256 ^ 4 → v % 2 ^ 32 ≡ v
    word v small = omega (arith, small)

half : (v : ℕ) → v < 256 ^ 2 → v % 2 ^ 16 ≡ v
half v small = omega (arith, small)

bit : (v : ℕ) → v < 2 → v % 2 ≡ v
bit v small = omega arith

pub eight : (n : ℕ) → 8 + n ≡ suc (suc (suc (suc (suc (suc (suc (suc n)))))))
eight n = omega arith

filter_loop-padded :
    (count : ℕ) (fs : List (List ℕ × Filter)) (rest : List ℕ)
    → Unpadded count fs
    → filter_loop little_endian true (length fs) (encode_filters fs rest) ≡ some (without_names fs)
    → filter_loop little_endian true (length fs) (padded count (encode_filters fs rest))
      ≡ some (without_names fs)
unfolding filter_loop
filter_loop-padded count [] rest even read = refl
filter_loop-padded count (f ∷ fs) rest even read = rw (not_odd count even) read
  where
    not_odd : (n : ℕ) → n % 2 ≡ 0 → (n % 2 == 1) ≡ false
    not_odd n h = ground arith

filter_loop-filters :
    (fs : List (List ℕ × Filter)) (rest : List ℕ)
    → Fitting fs
    → filter_loop little_endian true (length fs) (encode_filters fs rest) ≡ some (without_names fs)
unfolding filter_loop
filter_loop-filters [] rest fitting = refl
filter_loop-filters ((name, f) ∷ fs) rest
      (a_filter _ _ _ id_fits name_fits flag_fits count_fits count words even fitting) =
    rw
      (
        read-le_bytes 2 f.filter_id after_id (omega arith) id_fits,
        read-le_bytes 2 (length name) after_name_size (omega arith) name_fits,
        read-le_bytes 2 f.optional_flag after_flag (omega arith) (omega (arith, flag_fits)),
        read-le_bytes 2 f.num_client_vals after_count (omega arith) count_fits,
        half (length name) name_fits,
        half f.num_client_vals count_fits,
        bit f.optional_flag flag_fits,
        drop-header,
        behind_name,
        client,
        filter_loop-padded f.num_client_vals fs rest even (filter_loop-filters fs rest fitting),
      )
      refl
  where
    behind : List ℕ
    behind = padded f.num_client_vals (encode_filters fs rest)

    values : List ℕ
    values = encode_values f.client_data behind

    after_count : List ℕ
    after_count = name ++ values

    after_flag : List ℕ
    after_flag = le_bytes 2 f.num_client_vals ++ after_count

    after_name_size : List ℕ
    after_name_size = le_bytes 2 f.optional_flag ++ after_flag

    after_id : List ℕ
    after_id = le_bytes 2 (length name) ++ after_name_size

    drop-header :
        drop (8 + length name) (encode_filters ((name, f) ∷ fs) rest)
        ≡ drop (length name) after_count
    drop-header =
        ap (λ (k : ℕ). drop k (encode_filters ((name, f) ∷ fs) rest)) (eight (length name))

    behind_name : drop (length name) after_count ≡ values
    behind_name = drop-append_left name values (length name) refl

    client : client_loop little_endian f.num_client_vals values ≡ some (f.client_data, behind)
    client =
        ap (λ (k : ℕ). client_loop little_endian k values) (sym count)
        ∙ client_loop-values f.client_data behind words

-- On a little-endian machine with memory, a message of version 1 that writes one filter or more, each
-- with a name and values that fit their fields, every one but the last with an even number of
-- values: `readDataStoragePipelineMessage` does not fail and gives the object these filters.
pub read_data_storage_pipeline_message-filters :
    (fs : List (List ℕ × Filter)) (rest : List ℕ) (object : Data)
    → Fitting fs
    → 1 ≤ length fs
    → read_data_storage_pipeline_message little_endian true
        (1 ∷ length fs ∷ 0 ∷ 0 ∷ 0 ∷ 0 ∷ 0 ∷ 0 ∷ encode_filters fs rest)
        object
      ≡ some (record object { num_filters = length fs; filters = without_names fs }, 0)
unfolding read_data_storage_pipeline_message
read_data_storage_pipeline_message-filters [] rest object fitting one = absurd (omega (arith, one))
read_data_storage_pipeline_message-filters (f ∷ fs) rest object fitting one =
    rw (byte_1, byte_0, positive (length fs), filter_loop-filters (f ∷ fs) rest fitting) refl
  where
    msg : List ℕ
    msg = 1 ∷ suc (length fs) ∷ 0 ∷ 0 ∷ 0 ∷ 0 ∷ 0 ∷ 0 ∷ encode_filters (f ∷ fs) rest

    positive : (n : ℕ) → ltb 0 (suc n) ≡ true
    positive n = ground arith

    byte_0 : byte_at msg 0 ≡ some 1
    byte_0 = rw (nonempty (length msg) (omega arith)) refl
      where
        nonempty : (n : ℕ) → 0 < n → ltb 0 n ≡ true
        nonempty n lt = ground arith

    byte_1 : byte_at msg 1 ≡ some (suc (length fs))
    byte_1 = rw (at_least (length msg) (omega arith)) refl
      where
        at_least : (n : ℕ) → 1 < n → ltb 1 n ≡ true
        at_least n lt = ground arith
