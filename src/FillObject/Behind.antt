-- ===== src/FillObject/Behind.antt =====
-- Where the parts of a written block stand in its bytes.
use getmatvar.Common.{
  ℕ, zero, suc, ◌+◌, ◌≡◌, refl, sym, ap, ◌∙◌, List, [], ◌∷◌, ◌++◌, arith, length, drop,
  length-append, drop-append_left,
}
use getmatvar.NumberHelper.Encoded.{le_bytes}
use getmatvar.FillObject.Headers.{Block, plain, continued, encode}

drop-nil {ℓ} : {A : Type ℓ} (n : ℕ) → drop {A = A} n [] ≡ []
drop-nil zero = refl
drop-nil (suc n) = refl

pub drop-drop {ℓ} : {A : Type ℓ} (a b : ℕ) (l : List A) → drop (a + b) l ≡ drop b (drop a l)
drop-drop zero b l = ap (λ (k : ℕ). drop k l) (omega arith)
drop-drop (suc a) b [] = drop-nil (suc a + b) ∙ sym (drop-nil b)
drop-drop (suc a) b (x ∷ l) = ap (λ (k : ℕ). drop k (x ∷ l)) (past a b) ∙ drop-drop a b l
  where
    past : (a b : ℕ) → suc a + b ≡ suc (a + b)
    past a b = omega arith

module _ (flags : List ℕ) (four : length flags ≡ 4) where
  pub body-plain :
      (msg_type : ℕ) (body : List ℕ) (b : Block)
      → drop 8 (encode (plain msg_type flags body b)) ≡ body ++ encode b
  body-plain msg_type body b = drop-append_left flags (body ++ encode b) 4 four

  pub behind-plain :
      (msg_type : ℕ) (body : List ℕ) (b : Block)
      → drop (8 + length body) (encode (plain msg_type flags body b)) ≡ encode b
  behind-plain msg_type body b =
      drop-drop 8 (length body) (encode (plain msg_type flags body b))
      ∙ ap (drop (length body)) (body-plain msg_type body b)
      ∙ drop-append_left body (encode b) (length body) refl

  pub length-plain :
      (msg_type : ℕ) (body : List ℕ) (b : Block)
      → length (encode (plain msg_type flags body b)) ≡ 8 + length body + length (encode b)
  length-plain msg_type body b =
      omega (arith, length-append flags (body ++ encode b), length-append body (encode b), four)

  pub body-continued :
      (offset : ℕ) (inner b : Block)
      → drop 8 (encode (continued flags offset inner b))
        ≡ le_bytes 8 offset ++ (le_bytes 8 (length (encode inner)) ++ encode b)
  body-continued offset inner b = drop-append_left flags _ 4 four

  pub behind-continued :
      (offset : ℕ) (inner b : Block) → drop 24 (encode (continued flags offset inner b)) ≡ encode b
  behind-continued offset inner b =
      drop-drop 8 16 (encode (continued flags offset inner b))
      ∙ ap (drop 16) (body-continued offset inner b)

  pub length-continued :
      (offset : ℕ) (inner b : Block)
      → length (encode (continued flags offset inner b)) ≡ 24 + length (encode b)
  length-continued offset inner b = omega (
    arith,
    length-append flags (le_bytes 8 offset ++ (le_bytes 8 (length (encode inner)) ++ encode b)),
    four,
  )
