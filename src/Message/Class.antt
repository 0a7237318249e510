-- ===== src/Message/Class.antt =====
-- `selectMatlabClass` of src/readMessage.c: the class of an object from the name that the file gives
-- it. A name is the list of its characters' codes.
use getmatvar.Common.{
  ℕ, ◌≡◌, ◌≢◌, refl, sym, false, List, [], ◌∷◌, Bool-cases, inl, inr, if◌then◌else◌,
}
use getmatvar.Ezq.Walk.Search.{same_text, same_text_iff}

-- `mxClassID`.
pub data MxClassId : Type 0 where
  unknown_class cell_class struct_class logical_class char_class void_class double_class
        single_class int8_class uint8_class int16_class uint16_class int32_class uint32_class
        int64_class uint64_class function_class opaque_class object_class :
      MxClassId

-- The name in the file, empty for the two classes that have none.
abbrev pub class_name : MxClassId → List ℕ
class_name double_class = 100 ∷ 111 ∷ 117 ∷ 98 ∷ 108 ∷ 101 ∷ []
class_name char_class = 99 ∷ 104 ∷ 97 ∷ 114 ∷ []
class_name logical_class = 108 ∷ 111 ∷ 103 ∷ 105 ∷ 99 ∷ 97 ∷ 108 ∷ []
class_name struct_class = 115 ∷ 116 ∷ 114 ∷ 117 ∷ 99 ∷ 116 ∷ []
class_name cell_class = 99 ∷ 101 ∷ 108 ∷ 108 ∷ []
class_name function_class =
    102 ∷ 117 ∷ 110 ∷ 99 ∷ 116 ∷ 105 ∷ 111 ∷ 110 ∷ 95 ∷ 104 ∷ 97 ∷ 110 ∷ 100 ∷ 108 ∷ 101 ∷ []
class_name object_class = 116 ∷ 97 ∷ 98 ∷ 108 ∷ 101 ∷ []
class_name uint8_class = 117 ∷ 105 ∷ 110 ∷ 116 ∷ 56 ∷ []
class_name uint16_class = 117 ∷ 105 ∷ 110 ∷ 116 ∷ 49 ∷ 54 ∷ []
class_name uint32_class = 117 ∷ 105 ∷ 110 ∷ 116 ∷ 51 ∷ 50 ∷ []
class_name uint64_class = 117 ∷ 105 ∷ 110 ∷ 116 ∷ 54 ∷ 52 ∷ []
class_name int8_class = 105 ∷ 110 ∷ 116 ∷ 56 ∷ []
class_name int16_class = 105 ∷ 110 ∷ 116 ∷ 49 ∷ 54 ∷ []
class_name int32_class = 105 ∷ 110 ∷ 116 ∷ 51 ∷ 50 ∷ []
class_name int64_class = 105 ∷ 110 ∷ 116 ∷ 54 ∷ 52 ∷ []
class_name single_class = 115 ∷ 105 ∷ 110 ∷ 103 ∷ 108 ∷ 101 ∷ []
class_name opaque_class = 111 ∷ 112 ∷ 97 ∷ 113 ∷ 117 ∷ 101 ∷ []
class_name unknown_class = []
class_name void_class = []

-- `matlab_internal_type` is kept if no name agrees.
unfoldable pub select_matlab_class : List ℕ → MxClassId → MxClassId
select_matlab_class matlab_class matlab_internal_type =
    if same_text (100 ∷ 111 ∷ 117 ∷ 98 ∷ 108 ∷ 101 ∷ []) matlab_class
    then double_class
    else if same_text (99 ∷ 104 ∷ 97 ∷ 114 ∷ []) matlab_class
    then char_class
    else if same_text (108 ∷ 111 ∷ 103 ∷ 105 ∷ 99 ∷ 97 ∷ 108 ∷ []) matlab_class
    then logical_class
    else if same_text (115 ∷ 116 ∷ 114 ∷ 117 ∷ 99 ∷ 116 ∷ []) matlab_class
    then struct_class
    else if same_text (99 ∷ 101 ∷ 108 ∷ 108 ∷ []) matlab_class
    then cell_class
    else if same_text
        (102 ∷ 117 ∷ 110 ∷ 99 ∷ 116 ∷ 105 ∷ 111 ∷ 110 ∷ 95 ∷ 104 ∷ 97 ∷ 110 ∷ 100 ∷ 108 ∷ 101 ∷ [])
        matlab_class
    then function_class
    else if same_text (116 ∷ 97 ∷ 98 ∷ 108 ∷ 101 ∷ []) matlab_class
    then object_class
    else if same_text (117 ∷ 105 ∷ 110 ∷ 116 ∷ 56 ∷ []) matlab_class
    then uint8_class
    else if same_text (117 ∷ 105 ∷ 110 ∷ 116 ∷ 49 ∷ 54 ∷ []) matlab_class
    then uint16_class
    else if same_text (117 ∷ 105 ∷ 110 ∷ 116 ∷ 51 ∷ 50 ∷ []) matlab_class
    then uint32_class
    else if same_text (117 ∷ 105 ∷ 110 ∷ 116 ∷ 54 ∷ 52 ∷ []) matlab_class
    then uint64_class
    else if same_text (105 ∷ 110 ∷ 116 ∷ 56 ∷ []) matlab_class
    then int8_class
    else if same_text (105 ∷ 110 ∷ 116 ∷ 49 ∷ 54 ∷ []) matlab_class
    then int16_class
    else if same_text (105 ∷ 110 ∷ 116 ∷ 51 ∷ 50 ∷ []) matlab_class
    then int32_class
    else if same_text (105 ∷ 110 ∷ 116 ∷ 54 ∷ 52 ∷ []) matlab_class
    then int64_class
    else if same_text (115 ∷ 105 ∷ 110 ∷ 103 ∷ 108 ∷ 101 ∷ []) matlab_class
    then single_class
    else if same_text (111 ∷ 112 ∷ 97 ∷ 113 ∷ 117 ∷ 101 ∷ []) matlab_class
    then opaque_class
    else matlab_internal_type

unlike : (a b : List ℕ) → a ≢ b → same_text b a ≡ false
unlike a b differ = elim (Bool-cases (same_text b a)) [
  | inl same ↦ absurd (differ (sym ((same_text_iff b a).0 same)))
  | inr other ↦ other
]

pub selected :
    (c old : MxClassId)
    → c ≢ unknown_class
    → c ≢ void_class
    → select_matlab_class (class_name c) old ≡ c
unfolding select_matlab_class same_text
selected double_class old known real = refl
selected char_class old known real = refl
selected logical_class old known real = refl
selected struct_class old known real = refl
selected cell_class old known real = refl
selected function_class old known real = refl
selected object_class old known real = refl
selected uint8_class old known real = refl
selected uint16_class old known real = refl
selected uint32_class old known real = refl
selected uint64_class old known real = refl
selected int8_class old known real = refl
selected int16_class old known real = refl
selected int32_class old known real = refl
selected int64_class old known real = refl
selected single_class old known real = refl
selected opaque_class old known real = refl
selected unknown_class old known real = absurd (known refl)
selected void_class old known real = absurd (real refl)

kept :
    (old : MxClassId) (name : List ℕ)
    → ((d : MxClassId) → name ≢ class_name d)
    → select_matlab_class name old ≡ old
unfolding select_matlab_class
kept old name unknown =
    rw
      (
        unlike name (class_name double_class) (unknown double_class),
        unlike name (class_name char_class) (unknown char_class),
        unlike name (class_name logical_class) (unknown logical_class),
        unlike name (class_name struct_class) (unknown struct_class),
        unlike name (class_name cell_class) (unknown cell_class),
        unlike name (class_name function_class) (unknown function_class),
        unlike name (class_name object_class) (unknown object_class),
        unlike name (class_name uint8_class) (unknown uint8_class),
        unlike name (class_name uint16_class) (unknown uint16_class),
        unlike name (class_name uint32_class) (unknown uint32_class),
        unlike name (class_name uint64_class) (unknown uint64_class),
        unlike name (class_name int8_class) (unknown int8_class),
        unlike name (class_name int16_class) (unknown int16_class),
        unlike name (class_name int32_class) (unknown int32_class),
        unlike name (class_name int64_class) (unknown int64_class),
        unlike name (class_name single_class) (unknown single_class),
        unlike name (class_name opaque_class) (unknown opaque_class),
      )
      refl

-- For a class that has a name, `selectMatlabClass` selects it by that name, whatever class the object
-- had; a name that is not empty and no class's leaves the class that it had.
pub select_matlab_class-class_name :
    (c old : MxClassId) (name : List ℕ)
    → c ≢ unknown_class
    → c ≢ void_class
    → ((d : MxClassId) → name ≢ class_name d)
    → (select_matlab_class (class_name c) old ≡ c) × (select_matlab_class name old ≡ old)
select_matlab_class-class_name c old name known real unknown =
    (selected c old known real, kept old name unknown)
