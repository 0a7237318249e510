-- ===== src/PlaceData/Copies.antt =====
-- Which bytes of an array the calls of `placeData` set.
use mathlib.Core.List.{Memᴰ}
use mathlib.Core.List.Memᴰ
use getmatvar.Common.{
  ℕ, ◌+◌, ◌*◌, ◌-◌, ◌≤◌, ◌<◌, ◌≡◌, refl, sym, ap, ◌∙◌, ◌⊎◌, inl, inr, Bool, true, false, some, List,
  [], ◌∷◌, ◌++◌, length, take, drop, arith, get_or, get_or-append, get_or_at, get_or-take,
  get_or-drop, length-take, length-drop, length-append, leb, ltb, lt→ltb, if◌then◌else◌, ◌&&◌,
  pos_part, subst,
}
use getmatvar.NumberHelper.{ByteOrder, same_order}
use getmatvar.ChunkedData.Copy.{PlaceCall}
use getmatvar.PlaceData.{Object, case_of, numbers, memcpy, place_class, place_data, place_calls}

get_or-append_left :
    (xs ys : List ℕ) (k n : ℕ) → length xs ≡ n → k < n → get_or (xs ++ ys) k 0 ≡ get_or xs k 0
get_or-append_left xs ys k n e lt =
    get_or-append xs ys k 0
    ∙ ap (λ (b : Bool). if b then get_or xs k 0 else get_or ys (k - length xs) 0)
        (lt→ltb k (length xs) (omega (arith, e, lt)))

pub past-ltb : (k n : ℕ) → n ≤ k → ltb k n ≡ false
past-ltb k n le = ground (arith, le)

get_or-append_right :
    (xs ys : List ℕ) (k n : ℕ) → length xs ≡ n → n ≤ k → get_or (xs ++ ys) k 0 ≡ get_or ys (k - n) 0
get_or-append_right xs ys k n e le =
    get_or-append xs ys k 0
    ∙ ap (λ (b : Bool). if b then get_or xs k 0 else get_or ys (k - length xs) 0)
        (past-ltb k (length xs) (omega (arith, e, le)))
    ∙ ap (λ (x : ℕ). get_or ys (k - x) 0) e

record Copied (dst : List ℕ) (d : ℕ) (src : List ℕ) (s n : ℕ) (out : List ℕ) : Type 0 where
  same_length : length out ≡ length dst
  inside : (k : ℕ) → d ≤ k → k < d + n → get_or out k 0 ≡ get_or src (s + (k - d)) 0
  outside : (k : ℕ) → (k < d) ⊎ (d + n ≤ k) → get_or out k 0 ≡ get_or dst k 0

pub memcpy_fits :
    (dst : List ℕ) (d : ℕ) (src : List ℕ) (s n : ℕ)
    → d + n ≤ length dst
    → s + n ≤ length src
    → memcpy (some dst) d src s n ≡ some (take d dst ++ (take n (drop s src) ++ drop (d + n) dst))
unfolding memcpy
memcpy_fits dst d src s n fits fits' = rw (both fits fits') refl
  where
    both :
        d + n ≤ length dst
        → s + n ≤ length src
        → (leb (d + n) (length dst) && leb (s + n) (length src)) ≡ true
    both h h' = ground arith

memcpy-Copied :
    (dst : List ℕ) (d : ℕ) (src : List ℕ) (s n : ℕ)
    → d + n ≤ length dst
    → s + n ≤ length src
    → Copied dst d src s n (take d dst ++ (take n (drop s src) ++ drop (d + n) dst))
memcpy-Copied dst d src s n fits fits' = record {
  same_length = omega (
    arith,
    length-append (take d dst) (middle ++ end),
    length-append middle end,
    first_length,
    middle_length,
    length-drop (d + n) dst,
  );
  inside = λ k from to.
      get_or-append_right (take d dst) (middle ++ end) k d first_length from
      ∙ get_or-append_left middle end (k - d) n middle_length (omega (arith, from, to))
      ∙ get_or-take n (drop s src) (k - d) 0 (omega (arith, from, to))
      ∙ get_or-drop s src (k - d) 0;
  outside = λ k out. elim out [
    | inl before ↦
        get_or-append_left (take d dst) (middle ++ end) k d first_length before
        ∙ get_or-take d dst k 0 before
    | inr past ↦
        get_or-append_right (take d dst) (middle ++ end) k d first_length (omega (arith, past))
        ∙ get_or-append_right middle end (k - d) n middle_length (omega (arith, past))
        ∙ get_or-drop (d + n) dst (k - d - n) 0
        ∙ get_or_at dst (d + n + (k - d - n)) k 0 (omega (arith, past))
  ];
}
  where
    middle : List ℕ
    middle = take n (drop s src)

    end : List ℕ
    end = drop (d + n) dst

    first_length : length (take d dst) ≡ d
    first_length = length-take d dst (omega (arith, fits))

    middle_length : length (take n (drop s src)) ≡ n
    middle_length = length-take n (drop s src) (omega (arith, fits', length-drop s src))

-- What the byte `q` is after a call that writes it.
abbrev pub Writes : ℕ → PlaceCall → ℕ → Type 0
Writes size c q =
    (size * pos_part c.dst_ind ≤ q) × (q < size * pos_part c.dst_ind + pos_part c.num_elems * size)

abbrev pub byte_of : ℕ → PlaceCall → List ℕ → ℕ → ℕ
byte_of size c buffer q =
    get_or buffer (size * pos_part c.src_ind + (q - size * pos_part c.dst_ind)) 0

-- The call stays in the array and in the buffer.
abbrev pub Stays : ℕ → PlaceCall → ℕ → ℕ → Type 0
Stays size c whole part =
    (size * pos_part c.dst_ind + pos_part c.num_elems * size ≤ whole)
    × (size * pos_part c.src_ind + pos_part c.num_elems * size ≤ part)

-- An object of numbers with its array, and the order of its bytes that of the machine.
pub record IsReady (host : ByteOrder) (o : Object) (order : ByteOrder) : Type 0 where
  pub of_numbers : case_of o.matlab_internal_type ≡ numbers
  pub same_bytes : same_order host order ≡ true

placed_numbers :
    (host : ByteOrder) (o : Object) (order : ByteOrder) (array buffer : List ℕ) (c : PlaceCall)
    → IsReady host o order
    → Stays o.elem_size c (length array) (length buffer)
    → place_data host
        (record o { data_array = some array })
        buffer
        (pos_part c.dst_ind)
        (pos_part c.src_ind)
        (pos_part c.num_elems)
        o.elem_size
        order
      ≡ some (
        record o {
          data_array = some (
              take (o.elem_size * pos_part c.dst_ind) array
              ++ (take
                    (pos_part c.num_elems * o.elem_size)
                    (drop (o.elem_size * pos_part c.src_ind) buffer)
                  ++ drop
                      (o.elem_size * pos_part c.dst_ind + pos_part c.num_elems * o.elem_size)
                      array));
        },
        buffer,
      )
unfolding place_data place_class
placed_numbers host o order array buffer c is stays =
    rw
      (
        is.same_bytes,
        is.of_numbers,
        memcpy_fits array (o.elem_size * pos_part c.dst_ind) buffer
            (o.elem_size * pos_part c.src_ind) (pos_part c.num_elems * o.elem_size) stays.0 stays.1,
      )
      refl

within : (d n q : ℕ) → ((d ≤ q) × (q < d + n)) ⊎ ((q < d) ⊎ (d + n ≤ q))
within d n q = ground arith

-- After the first of the calls.
after_first :
    (size : ℕ) (c : PlaceCall) (calls : List PlaceCall) (array buffer out : List ℕ) (q v : ℕ)
    → Copied array
        (size * pos_part c.dst_ind)
        buffer
        (size * pos_part c.src_ind)
        (pos_part c.num_elems * size)
        out
    → ((c' : PlaceCall) → Memᴰ c' (c ∷ calls) → Writes size c' q → byte_of size c' buffer q ≡ v)
    → (get_or array q 0 ≡ v) ⊎ ((c' : PlaceCall) × Memᴰ c' (c ∷ calls) × Writes size c' q)
    → (get_or out q 0 ≡ v) ⊎ ((c' : PlaceCall) × Memᴰ c' calls × Writes size c' q)
after_first size c calls array buffer out q v first agree found =
    elim (within (size * pos_part c.dst_ind) (pos_part c.num_elems * size) q) [
      | inl w ↦ inl (first.inside q w.0 w.1 ∙ agree c (Memᴰ.head refl) w)
      | inr no_write ↦ elim found [
        | inl e ↦ inl (first.outside q no_write ∙ e)
        | inr writer ↦ elim (Memᴰ.cases_cons writer.1) [
          | inl same ↦
              absurd (apart no_write (subst (λ (x : PlaceCall). Writes size x q) same writer.2))
          | inr later ↦ inr (writer.0, later, writer.2)
        ]
      ]
    ]
  where
    apart :
        (q < size * pos_part c.dst_ind)
          ⊎ (size * pos_part c.dst_ind + pos_part c.num_elems * size ≤ q)
        → Writes size c q
        → ⊥
    apart no_write w = ground (arith, no_write, w)

-- The array after the calls: a byte that some call writes has its value in the buffer, if the calls
-- that write it agree, and one that none writes is as before.
pub record Placed (host : ByteOrder) (calls : List PlaceCall) (o : Object) (order : ByteOrder)
    (array buffer : List ℕ) : Type 0 where
  pub out : List ℕ
  pub runs :
      place_calls host calls (record o { data_array = some array }) buffer order
      ≡ some (record o { data_array = some out }, buffer)
  pub same_length : length out ≡ length array
  pub byte :
      (q v : ℕ)
      → ((c : PlaceCall)
          → Memᴰ c calls
          → Writes o.elem_size c q
          → byte_of o.elem_size c buffer q ≡ v)
      → (get_or array q 0 ≡ v) ⊎ ((c : PlaceCall) × Memᴰ c calls × Writes o.elem_size c q)
      → get_or out q 0 ≡ v

pub place_calls-Placed :
    (host : ByteOrder) (calls : List PlaceCall) (o : Object) (order : ByteOrder)
    (array buffer : List ℕ)
    → IsReady host o order
    → ((c : PlaceCall) → Memᴰ c calls → Stays o.elem_size c (length array) (length buffer))
    → Placed host calls o order array buffer
unfolding place_calls
place_calls-Placed host [] o order array buffer is stay = record {
  out = array;
  runs = refl;
  same_length = refl;
  byte = λ q v agree found. elim found [ inl e ↦ e | inr w ↦ absurd (Memᴰ.not-nil w.1) ];
}
place_calls-Placed host (c ∷ calls) o order array buffer is stay =
    let now = stay c (Memᴰ.head refl) in
    let first =
      memcpy-Copied array (o.elem_size * pos_part c.dst_ind) buffer
        (o.elem_size * pos_part c.src_ind) (pos_part c.num_elems * o.elem_size) now.0 now.1 in
    let rest = place_calls-Placed host calls o order _ buffer is (λ c' mem.
      subst (λ (whole : ℕ). Stays o.elem_size c' whole (length buffer)) (sym first.same_length)
        (stay c' (Memᴰ.tail mem))) in
    record {
      out = rest.out;
      runs = rw (placed_numbers host o order array buffer c is now) rest.runs;
      same_length = rest.same_length ∙ first.same_length;
      byte = λ q v agree found.
          rest.byte q v (λ c' mem. agree c' (Memᴰ.tail mem))
            (after_first o.elem_size c calls array buffer _ q v first agree found);
    }
