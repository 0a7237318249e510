-- ===== src/Varname/Tests.antt =====
-- Requests such as `ab( 12,7 )`.
use getmatvar.Common.{ℕ, zero, suc, ◌≡◌, refl, some, [], ◌∷◌, List, arith, ℤ, pos, replicate}
use getmatvar.Varname.{VariableNameToken, local_coordinates, remove_spaces, parse_coordinates}
use getmatvar.Varname.Spaces.{c_string, remove_spaces-without}
use getmatvar.Varname.Coordinates.{Digits, no_more, one_more, parse_coordinates-values}

remove_spaces-without_example :
    c_string (remove_spaces (97 ∷ 32 ∷ 98 ∷ 32 ∷ 32 ∷ 99 ∷ 0 ∷ 77 ∷ [])) ≡ 97 ∷ 98 ∷ 99 ∷ []
remove_spaces-without_example =
    remove_spaces-without (97 ∷ 32 ∷ 98 ∷ 32 ∷ 32 ∷ 99 ∷ []) (77 ∷ []) (λ i lt. ground arith)

abbrev twelve : List ℕ
twelve = 49 ∷ 50 ∷ []

abbrev seven : List ℕ
seven = 55 ∷ []

twelve-Digits : Digits twelve
twelve-Digits zero lt = omega arith
twelve-Digits (suc zero) lt = omega arith
twelve-Digits (suc (suc i)) lt = omega arith

seven-Digits : Digits seven
seven-Digits zero lt = omega arith
seven-Digits (suc i) lt = omega arith

abbrev pair_token : List ℤ → VariableNameToken
pair_token coordinates = record {
  variable_name_type = local_coordinates;
  variable_local_index = pos 12;
  variable_local_coordinates = coordinates;
  variable_local_name = 49 ∷ 50 ∷ 44 ∷ 55 ∷ [];
}

parse_coordinates-values_example :
    parse_coordinates (pair_token (replicate 32 (pos 0)))
    ≡ some (pair_token (pos 12 ∷ pos 7 ∷ replicate 30 (pos 0)))
parse_coordinates-values_example =
    parse_coordinates-values (pair_token (replicate 32 (pos 0))) (twelve ∷ seven ∷ [])
      (one_more twelve (seven ∷ []) (omega arith) (omega arith) twelve-Digits (omega arith)
        (one_more seven [] (omega arith) (omega arith) seven-Digits (omega arith) no_more))
      (omega arith) refl refl
