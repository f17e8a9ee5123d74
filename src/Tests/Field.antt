-- ===== src/Tests/Field.antt =====
-- GF256 and its polynomials on the vectors of gf256.rs and polynomial.rs.
use seal.Base.{
  length, Elem, ◌≤◌, ℕ, ◌≡◌, ◌≢◌, refl, ap, [], ◌∷◌, map, U8, u8, ok, ℕ_discrete, ◌%◌, arith,
}
use seal.Gf256.{Gf256, ◌⊗◌, exp, log}
use seal.Gf256.Reference.{mul_bits, ⊗-eq-mul_bits}
use seal.Polynomial.{Polynomial, evaluate, interpolate}
use seal.Polynomial.Recovery.{Points, interpolate_recovers, interpolate-ok}

-- `test_field_ops`
product_vector : (u8 0x53 ⊗ u8 0xca).val ≡ 0x01
unfolding ◌⊗◌ ℕ_discrete exp log
product_vector = refl

⊗-eq-mul_bits_example : u8 0x53 ⊗ u8 0xca ≡ mul_bits 8 0x53 (u8 0xca)
⊗-eq-mul_bits_example = ⊗-eq-mul_bits (u8 0x53) (u8 0xca)

apart : (a b : ℕ) → a % 256 ≢ b % 256 → u8 a ≢ u8 b
apart a b h e = h (ap (λ (x : U8). x.val) e)

abbrev quadratic : Polynomial
quadratic = u8 7 ∷ u8 11 ∷ u8 17 ∷ []

abbrev on_quadratic : Points
on_quadratic = map (λ x. (x, evaluate quadratic x)) (u8 1 ∷ u8 2 ∷ u8 3 ∷ [])

interpolate_recovers_example :
    (p : Polynomial) × (interpolate on_quadratic ≡ ok p)
    × ((t : Gf256) → evaluate p t ≡ evaluate quadratic t)
interpolate_recovers_example =
    interpolate_recovers quadratic on_quadratic
      (
        (apart 2 1 (omega arith), (apart 3 1 (omega arith), tt)),
        ((apart 3 2 (omega arith), tt), (tt, tt)),
      )
      (refl, (refl, (refl, tt))) (omega arith)

interpolate-ok_example :
    (p : Polynomial) × (interpolate on_quadratic ≡ ok p)
    × (length p ≤ length on_quadratic)
    × ((pt : Gf256 × Gf256) → Elem pt on_quadratic → evaluate p pt.0 ≡ pt.1)
interpolate-ok_example = interpolate-ok on_quadratic (
  (apart 2 1 (omega arith), (apart 3 1 (omega arith), tt)),
  ((apart 3 2 (omega arith), tt), (tt, tt)),
)
