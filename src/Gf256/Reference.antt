-- ===== src/Gf256/Reference.antt =====
-- The table multiplication against the textbook one: polynomials over F₂, bit by bit, modulo
-- x⁸ + x⁴ + x³ + x + 1.
use native.Mathlib.Nat.{pow-suc}
use seal.Base.{
  ℕ, zero as nat_zero, suc, ◌*◌, ◌/◌, ◌%◌, ◌^◌, ◌<◌, ◌≡◌, refl, ap, ◌∙◌, U8_ext, u8, ◌⊕◌, ⊕_assoc,
  zero-⊕, ⊕-self, xor_bit, xor_comm, zero-xor, arith, ◌==◌, if◌then◌else◌, lt→ltb,
}
use seal.Gf256.{Gf256, zero, one, exp, ◌⊗◌}
use seal.Gf256.Powers.{double, triple}
use seal.Gf256.Field.{exp-⊗, triples, add-⊗, one-⊗, zero-⊗, ⊗_assoc}

-- The product of the polynomial whose bits are `n`, of `k` terms, and `b`.
unfoldable pub mul_bits : ℕ → ℕ → Gf256 → Gf256
mul_bits nat_zero n b = zero
mul_bits (suc k) n b = (if n % 2 == 1 then b else zero) ⊕ double (mul_bits k (n / 2) b)

three : exp 1 ≡ u8 3
unfolding exp
three = refl

three-⊗ : (b : Gf256) → u8 3 ⊗ b ≡ b ⊕ double b
unfolding triples triple
three-⊗ b = rw (← three) (exp-⊗ 1 b)

two : u8 2 ≡ one ⊕ u8 3
unfolding ◌⊕◌
two = U8_ext refl

two-⊗ : (b : Gf256) → u8 2 ⊗ b ≡ double b
two-⊗ b =
    rw (two, add-⊗ one (u8 3) b, one-⊗ b, three-⊗ b, ← ⊕_assoc b b (double b), ⊕-self b)
      (zero-⊕ (double b))

double_small : (m : ℕ) → m < 128 → double (u8 m) ≡ u8 (m * 2)
unfolding double
double_small m h = U8_ext (
    let small : m % 256 ≡ m = omega arith in
    rw small
      (rw (lt→ltb m 128 h) (omega (arith, xor_comm (m * 2 % 256) 0, zero-xor (m * 2 % 256)))))

low_bit : (n : ℕ) → n < 256 → u8 n ≡ u8 (n % 2) ⊕ u8 (n / 2 * 2)
unfolding ◌⊕◌
low_bit n h = U8_ext (
    let odd : n % 2 % 256 ≡ n % 2 = omega arith in
    let even : n / 2 * 2 % 256 ≡ n / 2 * 2 = omega arith in
    rw (odd, even)
      (omega (arith, xor_comm (n % 2) (n / 2 * 2), xor_bit (n / 2) (n % 2) (omega arith))))

bit-⊗ : (m : ℕ) (b : Gf256) → m < 2 → u8 m ⊗ b ≡ (if m == 1 then b else zero)
bit-⊗ nat_zero b h = zero-⊗ b
bit-⊗ (suc nat_zero) b h = one-⊗ b
bit-⊗ (suc (suc m)) b h = absurd (omega arith)

mul_bits_lem : (k n : ℕ) (b : Gf256) → n < 2 ^ k → n < 256 → u8 n ⊗ b ≡ mul_bits k n b
unfolding mul_bits
mul_bits_lem nat_zero n b p q = let e : n ≡ 0 = omega arith in rw e (zero-⊗ b)
mul_bits_lem (suc k) n b p q =
    let half = mul_bits_lem k (n / 2) b (omega (arith, pow-suc 2 k)) (omega arith) in
    rw (
      low_bit n q,
      add-⊗ (u8 (n % 2)) (u8 (n / 2 * 2)) b,
      bit-⊗ (n % 2) b (omega arith),
      ← double_small (n / 2) (omega arith),
      ← two-⊗ (u8 (n / 2)),
      ⊗_assoc (u8 2) (u8 (n / 2)) b,
      two-⊗ (u8 (n / 2) ⊗ b),
      half,
    )

-- Multiplication by the tables is multiplication of polynomials over F₂ modulo
-- x⁸ + x⁴ + x³ + x + 1, for every pair of bytes.
pub ⊗-eq-mul_bits : (a b : Gf256) → a ⊗ b ≡ mul_bits 8 a.val b
⊗-eq-mul_bits a b =
    ap (λ (x : Gf256). x ⊗ b) (U8_ext (omega (arith, a.bound)))
    ∙ mul_bits_lem 8 a.val b a.bound a.bound
