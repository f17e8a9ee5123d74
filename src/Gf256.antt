-- ===== src/Gf256.antt =====
-- crates/crypto/src/gf256.rs: the field of 256 elements by tables of powers and logarithms of 0x03.
-- An element is its byte. `log` takes the proof that its `assert_ne!` holds; the sums of logarithms
-- are at most 508, far below the `u16` limit.
pub mod Tables
pub mod Powers
pub mod Field
pub mod Reference
pub mod Products
use Prim.Native.Nat.{◌+◌, ◌-◌, ◌%◌}
use seal.Base.{
  ℕ, ◌≡◌, ◌≢◌, U8, u8, ◌⊕◌, List, [], ◌∷◌, foldl, get_or, dite, ite, ℕ_discrete, Outcome, ok, err,
  invalid_input,
}
use Tables.{exp_table, log_table}

-- `GF256` is a newtype of `u8`.
abbrev pub Gf256 : Type 0
Gf256 = U8

abbrev pub zero : Gf256
zero = u8 0

abbrev pub one : Gf256
one = u8 1

-- `log`, and the precondition that it asserts.
unfoldable pub log : (x : Gf256) → x.val ≢ 0 → ℕ
log x nonzero = (get_or log_table (x.val - 1) zero).val

unfoldable pub exp : ℕ → Gf256
exp x = get_or exp_table (x % 255) zero

abbrev pub add : Gf256 → Gf256 → Gf256
add a b = a ⊕ b

-- Same as addition in binary fields.
abbrev pub sub : Gf256 → Gf256 → Gf256
sub a b = add a b

abbrev pub neg : Gf256 → Gf256
neg a = sub zero a

infixl 70 ◌⊗◌
unfoldable pub ◌⊗◌ : Gf256 → Gf256 → Gf256
a ⊗ b =
    dite (ℕ_discrete a.val 0) (λ _. zero)
      λ p. dite (ℕ_discrete b.val 0) (λ _. zero) λ q. exp (log a p + log b q)

unfoldable pub div : Gf256 → Gf256 → Outcome Gf256
div a b =
    dite (ℕ_discrete b.val 0) (λ _. err invalid_input)
      λ q. dite (ℕ_discrete a.val 0) (λ _. ok zero) λ p. ok (exp (255 + log a p - log b q))

-- `iter.product()` and `iter.sum()`.
abbrev pub product : List Gf256 → Gf256
product = foldl ◌⊗◌ one

abbrev pub sum : List Gf256 → Gf256
sum = foldl add zero
