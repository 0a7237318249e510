-- ===== src/NumberHelper/Reverse.antt =====
-- `reverseBytes` reverses the first bytes of a buffer in place.
use getmatvar.Common.{
  ℕ, zero, suc, ◌+◌, ◌-◌, ◌≤◌, ◌<◌, ◌≡◌, refl, sym, ap, ◌∙◌, inl, inr, List, ◌++◌, reverse, arith,
  length, get_or, set, take, drop, length-set, get_or-set_self, get_or-set_ne, ltb, ltb→lt,
  get_or_ext, get_or_at, get_or-append, get_or-take, get_or-drop, get_or-reverse, length-append,
  length-reverse, length-take, length-drop, ◌==◌, ==_iff, if◌then◌else◌, Bool-cases,
}
use getmatvar.NumberHelper.{reverse_loop, reverse_bytes}

length-reverse_loop :
    (fuel start stop : ℕ) (buf : List ℕ) → length (reverse_loop fuel start stop buf) ≡ length buf
unfolding reverse_loop
length-reverse_loop zero start stop buf = refl
length-reverse_loop (suc fuel) start stop buf =
    let a = get_or buf (stop - 1) 0 in
    let b = get_or buf start 0 in
    ground (
      arith,
      length-reverse_loop fuel (start + 1) (stop - 1) (set (set buf start a) (stop - 1) b),
      length-set (set buf start a) (stop - 1) b,
      length-set buf start a,
    )

-- Where the byte that ends up at `j` stood: the bytes from `start` to `stop` change places.
mirror : ℕ → ℕ → ℕ → ℕ
mirror start stop j = if ltb j start then j else if ltb j stop then start + stop - 1 - j else j

get_or-swap :
    (buf : List ℕ) (a b j : ℕ)
    → a < b
    → b < length buf
    → get_or (set (set buf a (get_or buf b 0)) b (get_or buf a 0)) j 0
      ≡ get_or buf (if j == b then a else if j == a then b else j) 0
get_or-swap buf a b j lt fits = elim (Bool-cases (j == b)) [
  | inl eb ↦
      rw (eb, (==_iff j b).0 eb)
        (get_or-set_self (set buf a (get_or buf b 0)) b (get_or buf a 0) 0 (rw length-set fits))
  | inr nb ↦ rw nb (
      get_or-set_ne (set buf a (get_or buf b 0)) b j (get_or buf a 0) 0 (ground arith)
      ∙ elim (Bool-cases (j == a)) [
        | inl ea ↦
            rw (ea, (==_iff j a).0 ea) (get_or-set_self buf a (get_or buf b 0) 0 (omega arith))
        | inr na ↦ rw na (get_or-set_ne buf a j (get_or buf b 0) 0 (ground arith))
      ])
]

mirror-swap :
    (start stop j : ℕ)
    → start + 1 < stop
    → (let q = mirror (start + 1) (stop - 1) j in
        if q == stop - 1 then start else if q == start then stop - 1 else q)
      ≡ mirror start stop j
unfolding mirror
mirror-swap start stop j h = ground arith

reverse_loop-mirror :
    (fuel start stop : ℕ) (buf : List ℕ) (j : ℕ)
    → stop ≤ length buf
    → stop ≤ start + 1 + fuel
    → get_or (reverse_loop fuel start stop buf) j 0 ≡ get_or buf (mirror start stop j) 0
unfolding reverse_loop mirror
reverse_loop-mirror zero start stop buf j fits enough = get_or_at buf j _ 0 (ground arith)
reverse_loop-mirror (suc fuel) start stop buf j fits enough =
    elim (Bool-cases (ltb (start + 1) stop)) [
      | inl more ↦ rw more (
          reverse_loop-mirror fuel (start + 1) (stop - 1) swapped j (omega (arith, length-swapped))
            (omega arith)
          ∙ get_or-swap buf start (stop - 1) (mirror (start + 1) (stop - 1) j)
              (omega (arith, ltb→lt _ _ more)) (omega (arith, ltb→lt _ _ more))
          ∙ get_or_at buf _ _ 0 (mirror-swap start stop j (ltb→lt _ _ more)))
      | inr done ↦ rw done (get_or_at buf j _ 0 (ground arith))
    ]
  where
    swapped : List ℕ
    swapped = set (set buf start (get_or buf (stop - 1) 0)) (stop - 1) (get_or buf start 0)

    length-swapped : length swapped ≡ length buf
    length-swapped =
        length-set (set buf start (get_or buf (stop - 1) 0)) (stop - 1) (get_or buf start 0)
        ∙ length-set buf start (get_or buf (stop - 1) 0)

-- `reverseBytes` turns the first `n` bytes of a buffer of at least `n` bytes round and leaves the
-- others.
pub reverse_bytes-reverse :
    (buf : List ℕ) (n : ℕ)
    → n ≤ length buf
    → reverse_bytes buf n ≡ reverse (take n buf) ++ drop n buf
unfolding reverse_bytes
reverse_bytes-reverse buf n fits =
    get_or_ext 0 (reverse_loop n 0 n buf) (reverse (take n buf) ++ drop n buf)
      (length-reverse_loop n 0 n buf ∙ sym same_length)
      λ j lt. reverse_loop-mirror n 0 n buf j fits (omega arith) ∙ sym (at j)
  where
    same_length : length (reverse (take n buf) ++ drop n buf) ≡ length buf
    same_length = omega (
      arith,
      length-append (reverse (take n buf)) (drop n buf),
      length-reverse (take n buf),
      length-take n buf fits,
      length-drop n buf,
    )

    front : length (reverse (take n buf)) ≡ n
    front = length-reverse (take n buf) ∙ length-take n buf fits

    at : (j : ℕ) → get_or (reverse (take n buf) ++ drop n buf) j 0 ≡ get_or buf (mirror 0 n j) 0
    at j =
        get_or-append (reverse (take n buf)) (drop n buf) j 0
        ∙ rw front (elim (Bool-cases (ltb j n)) [
          | inl lt ↦ rw lt (
              get_or-reverse (take n buf) j 0 (rw (length-take n buf fits) (ltb→lt _ _ lt))
              ∙ get_or-take n buf (length (take n buf) - 1 - j) 0
                  (omega (arith, length-take n buf fits, ltb→lt _ _ lt))
              ∙ ap (λ (k : ℕ). get_or buf k 0)
                  (unfold mirror in ground (arith, length-take n buf fits)))
          | inr ge ↦ rw ge (
              get_or-drop n buf (j - n) 0
              ∙ ap (λ (k : ℕ). get_or buf k 0) (unfold mirror in ground arith))
        ])
