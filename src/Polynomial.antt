-- ===== src/Polynomial.antt =====
-- crates/crypto/src/polynomial.rs: polynomials over GF256, lowest coefficient first. A call that
-- can panic returns an `Outcome`.
pub mod Eval
pub mod Product
pub mod Roots
pub mod Terms
pub mod Interpolation
pub mod Recovery
use seal.Base.{
  ℕ, ◌+◌, ◌-◌, List, [], ◌∷◌, map, foldl, reverse, length, get_or, range, filter, enumerate, Bool,
  true, false, not, ◌&&◌, leb, ◌==◌, ◌=8◌, if◌then◌else◌, ◌⊕◌, Outcome, ok, panic, expect, traverse,
  ◌>>=◌,
}
use seal.Gf256.{Gf256, ◌⊗◌, neg, sub}
use seal.Gf256

-- `Polynomial` is a newtype of `Vec<GF256>`.
abbrev pub Polynomial : Type 0
Polynomial = List Gf256

-- `len() - 1` underflows on the empty vector: a panic with overflow checks, while a build without
-- them wraps.
pub degree : Polynomial → Outcome ℕ
degree [] = panic
degree (c ∷ cs) = ok (length cs)

-- Horner's rule.
pub evaluate : Polynomial → Gf256 → Gf256
evaluate p x = foldl (λ sum coefficient. sum ⊗ x ⊕ coefficient) Gf256.zero (reverse p)

-- The loop of `strip_trailing_zeros`, on the vector read from its end.
pub pop_zeros : List Gf256 → List Gf256
pop_zeros [] = []
pop_zeros (c ∷ cs) = let rest = pop_zeros cs in if c =8 Gf256.zero then rest else c ∷ cs

pub strip_trailing_zeros : Polynomial → Polynomial
strip_trailing_zeros p = reverse (pop_zeros (reverse p))

abbrev pub monic_linear : Gf256 → Polynomial
monic_linear constant = constant ∷ Gf256.one ∷ []

-- `zip_longest`, adding where both sides have a coefficient.
pub add_longest : Polynomial → Polynomial → Polynomial
add_longest [] q = q
add_longest (a ∷ p) [] = a ∷ p
add_longest (a ∷ p) (b ∷ q) = (a ⊕ b) ∷ add_longest p q

pub add : Polynomial → Polynomial → Polynomial
add p q = strip_trailing_zeros (add_longest p q)

pub sum : List Polynomial → Polynomial
sum = foldl add []

-- `Mul<&GF256>`
pub scale : Polynomial → Gf256 → Polynomial
scale p s = strip_trailing_zeros (map (λ a. a ⊗ s) p)

-- Coefficient `i` of the product. The filter admits only indices that are in range.
pub coefficient : Polynomial → Polynomial → ℕ → ℕ → ℕ → Gf256
coefficient p q dp dq i = Gf256.sum (
    map (λ j. get_or p j Gf256.zero ⊗ get_or q (i - j) Gf256.zero)
      (filter (λ j. leb j dp && leb (i - j) dq) (range 0 (i + 1))))

-- `Mul for &Polynomial`
pub mul : Polynomial → Polynomial → Outcome Polynomial
mul p q = do dp ← degree p; dq ← degree q; ok (map (coefficient p q dp dq) (range 0 (dp + dq + 1)))

-- `Div<&GF256>`
pub div : Polynomial → Gf256 → Outcome Polynomial
div p divisor = do
  inverse ← Gf256.div Gf256.one divisor
  ok (strip_trailing_zeros (map (λ a. a ⊗ inverse) p))

-- The fold of `product` from a first factor.
pub product_from : Polynomial → List Polynomial → Outcome Polynomial
product_from acc [] = ok acc
product_from acc (f ∷ fs) = do acc' ← mul acc f; product_from acc' fs

pub product : List Polynomial → Outcome Polynomial
product = product_from (Gf256.one ∷ [])

-- One linear factor of the Lagrange basis: (X - x_i) / (x_j - x_i).
pub basis_factor : Gf256 → ℕ × (Gf256 × Gf256) → Outcome Polynomial
basis_factor x_j (i, (x_i, y_i)) = expect (div (monic_linear (neg x_i)) (sub x_j x_i))

-- The basis polynomial of point `j`, times its value.
pub interpolate_term : List (ℕ × (Gf256 × Gf256)) → ℕ × (Gf256 × Gf256) → Outcome Polynomial
interpolate_term points (j, (x_j, y_j)) = do
  factors ← traverse (basis_factor x_j) (filter (λ p. not (p.0 == j)) points)
  basis ← product factors
  ok (scale basis y_j)

pub interpolate : List (Gf256 × Gf256) → Outcome Polynomial
interpolate points = do
  terms ← traverse (interpolate_term (enumerate 0 points)) (enumerate 0 points)
  ok (sum terms)
