-- ===== src/Base/Xor.antt =====
-- `^` of the source on unsigned integers is the native `bit_xor`; its laws, from the equation for
-- the lowest binary digit.
use Prim.Native.Nat.{
  ℕ, zero, suc, ◌+◌, ◌*◌, ◌/◌, ◌%◌, ◌^◌, ◌≤◌, ◌<◌, digits, differ, bit_xor, bit_xor-bitwise,
}
use mathlib.Core.Path.{◌≡◌, refl, ap, ◌∙◌}
use mathlib.Core.Logic.{◌⊎◌, inl, inr}
use native.Mathlib.Decide.{dec_lt}
use native.Mathlib.Nat.{pow-suc}
use native.Mathlib.Omega.{arith}

-- The exclusive or of `a` and `b` by at most `n` digits of `a`.
xor_within : ℕ → ℕ → ℕ → ℕ
xor_within n a b = digits (λ d. d) differ n a b

-- Once the count is that of the number, one digit more changes nothing.
one_digit_more : (n a b : ℕ) → a < suc n → xor_within (suc n) a b ≡ xor_within n a b
unfolding xor_within
one_digit_more zero zero b below = refl
one_digit_more (suc n) zero b below = refl
one_digit_more zero (suc a) b below = absurd (omega (arith, below))
one_digit_more (suc n) (suc a) b below =
    ap (λ d. d * 2 + differ (suc a % 2) (b % 2))
      (one_digit_more n (suc a / 2) (b / 2) (omega (arith, below)))

-- So every count that is enough agrees with the number itself.
xor_within_exact : (n a b : ℕ) → a ≤ n → xor_within n a b ≡ xor_within a a b
xor_within_exact zero a b le = ap (λ n. xor_within n a b) {x = 0} {y = a} (omega (arith, le))
xor_within_exact (suc n) a b le = elim (dec_lt a (suc n)) [
  | yes below ↦ one_digit_more n a b below ∙ xor_within_exact n a b (omega (arith, below))
  | no above ↦ ap (λ m. xor_within m a b) {x = suc n} {y = a} (omega (arith, le, above))
]

abbrev parity : ℕ → ℕ → ℕ
parity x y = (x + y) % 2

below_two : (x : ℕ) → x < 2 → (x ≡ 0) ⊎ (x ≡ 1)
below_two x h = omega (arith, h)

differ-parity : (x y : ℕ) → x < 2 → y < 2 → differ x y ≡ parity x y
differ-parity x y h k = elim (below_two x h) [
  | inl e ↦ elim (below_two y k) [ inl e' ↦ rw (e, e') refl | inr e' ↦ rw (e, e') refl ]
  | inr e ↦ elim (below_two y k) [ inl e' ↦ rw (e, e') refl | inr e' ↦ rw (e, e') refl ]
]

xor_digit : (a b : ℕ) → bit_xor a b ≡ bit_xor (a / 2) (b / 2) * 2 + differ (a % 2) (b % 2)
unfolding xor_within
xor_digit zero b = omega (arith, bit_xor-bitwise 0 b, bit_xor-bitwise 0 (b / 2))
xor_digit (suc a) b =
    let halves = xor_within_exact a (suc a / 2) (b / 2) (omega arith) in
    omega (arith, bit_xor-bitwise (suc a) b, bit_xor-bitwise (suc a / 2) (b / 2), halves)

xor_step : (a b : ℕ) → bit_xor a b ≡ bit_xor (a / 2) (b / 2) * 2 + (a + b) % 2
xor_step a b =
    omega (arith, xor_digit a b, differ-parity (a % 2) (b % 2) (omega arith) (omega arith))

xor-assoc_fuel :
    (n a b c : ℕ) → a ≤ n → b ≤ n → c ≤ n → bit_xor (bit_xor a b) c ≡ bit_xor a (bit_xor b c)
xor-assoc_fuel zero zero zero zero p q r = refl
xor-assoc_fuel zero zero zero (suc c) p q r = absurd (omega arith)
xor-assoc_fuel zero zero (suc b) c p q r = absurd (omega arith)
xor-assoc_fuel zero (suc a) b c p q r = absurd (omega arith)
xor-assoc_fuel (suc n) a b c p q r =
    let half_ab : bit_xor a b / 2 ≡ bit_xor (a / 2) (b / 2) = omega (arith, xor_step a b) in
    let half_bc : bit_xor b c / 2 ≡ bit_xor (b / 2) (c / 2) = omega (arith, xor_step b c) in
    let left = xor_step (bit_xor a b) c in
    let right = xor_step a (bit_xor b c) in
    omega (
      arith,
      (rw half_ab at left),
      (rw half_bc at right),
      xor_step a b,
      xor_step b c,
      xor-assoc_fuel n (a / 2) (b / 2) (c / 2) (omega arith) (omega arith) (omega arith),
    )

pub xor_assoc : (a b c : ℕ) → bit_xor (bit_xor a b) c ≡ bit_xor a (bit_xor b c)
xor_assoc a b c = xor-assoc_fuel (a + b + c) a b c (omega arith) (omega arith) (omega arith)

xor-comm_fuel : (n a b : ℕ) → a ≤ n → b ≤ n → bit_xor a b ≡ bit_xor b a
xor-comm_fuel zero zero zero p q = refl
xor-comm_fuel zero zero (suc b) p q = absurd (omega arith)
xor-comm_fuel zero (suc a) b p q = absurd (omega arith)
xor-comm_fuel (suc n) a b p q =
    omega (
      arith,
      xor_step a b,
      xor_step b a,
      xor-comm_fuel n (a / 2) (b / 2) (omega arith) (omega arith),
    )

pub xor_comm : (a b : ℕ) → bit_xor a b ≡ bit_xor b a
xor_comm a b = xor-comm_fuel (a + b) a b (omega arith) (omega arith)

pub zero-xor : (a : ℕ) → bit_xor 0 a ≡ a
zero-xor a = bit_xor-bitwise 0 a

xor-self_fuel : (n a : ℕ) → a ≤ n → bit_xor a a ≡ 0
xor-self_fuel zero zero p = refl
xor-self_fuel zero (suc a) p = absurd (omega arith)
xor-self_fuel (suc n) a p = omega (arith, xor_step a a, xor-self_fuel n (a / 2) (omega arith))

pub xor_self : (a : ℕ) → bit_xor a a ≡ 0
xor_self a = xor-self_fuel a a (omega arith)

-- The result has no more digits than its arguments.
pub xor-lt_pow : (w a b : ℕ) → a < 2 ^ w → b < 2 ^ w → bit_xor a b < 2 ^ w
xor-lt_pow zero zero zero p q = omega arith
xor-lt_pow zero zero (suc b) p q = absurd (omega arith)
xor-lt_pow zero (suc a) b p q = absurd (omega arith)
xor-lt_pow (suc w) a b p q =
    let twice = pow-suc 2 w in
    omega (
      arith,
      xor_step a b,
      twice,
      xor-lt_pow w (a / 2) (b / 2) (omega (arith, twice)) (omega (arith, twice)),
    )

-- The lowest digit of an even number is free.
pub xor_bit : (a b : ℕ) → b < 2 → bit_xor (a * 2) b ≡ a * 2 + b
xor_bit a b p =
    let half : b / 2 ≡ 0 = omega arith in
    let step = xor_step (a * 2) b in
    omega (arith, (rw half at step), xor_comm (a * 2 / 2) 0, zero-xor (a * 2 / 2))
