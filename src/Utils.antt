-- ===== src/Utils.antt =====
-- crates/crypto/src/utils.rs
pub mod Transpose
pub mod Involution
use seal.Base.{
  ℕ, List, [], ◌∷◌, map, length, get_elem?, range, none, some, U8, ◌⊕◌, Bool, true, false, not,
  ◌&&◌, ◌||◌, ◌==◌, if◌then◌else◌, Outcome, ok, err, panic, invalid_input, reject_if, ◌>>=◌, ◌>>◌,
  traverse,
}

-- Pairs of bytes, up to the end of the shorter slice.
unfoldable pub xor_unchecked : List U8 → List U8 → List U8
xor_unchecked [] b = []
xor_unchecked (x ∷ a) [] = []
xor_unchecked (x ∷ a) (y ∷ b) = (x ⊕ y) ∷ xor_unchecked a b

-- `xor` of two arrays; their lengths are equal by their type.
abbrev pub xor : List U8 → List U8 → List U8
xor = xor_unchecked

-- `row[i]`
unfoldable pub index {ℓ} : {A : Type ℓ} → List A → ℕ → Outcome A
index row i = elim (get_elem? row i) [ none ↦ panic | some x ↦ ok x ]

-- `all_equal_value` of the rows' lengths; it fails on an empty iterator too.
unfoldable pub all_equal_length : List (List U8) → Outcome ℕ
all_equal_length [] = err invalid_input
all_equal_length (row ∷ []) = ok (length row)
all_equal_length (row ∷ next ∷ rows) =
    let rest = all_equal_length (next ∷ rows) in
    if length row == length next then rest else err invalid_input

abbrev pub is_empty {ℓ} : {A : Type ℓ} → List A → Bool
is_empty [] = true
is_empty (x ∷ xs) = false

-- `transpose::<N>`
unfoldable pub transpose : ℕ → List (List U8) → Outcome (List (List U8))
transpose n matrix = do
  reject_if (not (length matrix == n) || is_empty matrix) invalid_input
  m ← all_equal_length matrix
  traverse (λ i. traverse (λ row. index row i) matrix) (range 0 m)
