-- ===== src/Tss.antt =====
-- crates/crypto/src/tss.rs: Shamir's secret sharing over GF256, byte by byte. A share is its index
-- with its bytes; an array `[u8; N]` is a list, with `N` an argument.
pub mod Checks
pub mod Byte
pub mod Recovery
pub mod Splitting
pub mod Sharing
pub mod Interpolation
use seal.Base.{
  ℕ, zero, suc, ◌-◌, List, [], ◌∷◌, map, length, range, filter, U8, u8, ◌=8◌, Bool, true, false,
  not, ◌&&◌, ◌||◌, ◌==◌, ltb, if◌then◌else◌, Outcome, ok, err, invalid_input, reject_if, expect,
  ◌>>=◌, ◌>>◌, traverse,
}
use seal.Gf256.{Gf256, ◌⊗◌, sub}
use seal.Gf256
use seal.Polynomial.{Polynomial, evaluate}
use seal.Polynomial
use seal.Utils.{index, is_empty, transpose}

-- A share: the index, and one byte for each byte of the secret.
abbrev pub Share : Type 0
Share = U8 × List U8

pub record SecretSharing : Type 0 where
  pub secret : List U8
  pub indices : List U8
  pub shares : List (List U8)

-- `iter().contains(&x)`
unfoldable pub contains : U8 → List U8 → Bool
contains x [] = false
contains x (y ∷ ys) = (y =8 x) || contains x ys

-- `iter().all_unique()`
unfoldable pub all_unique : List U8 → Bool
all_unique [] = true
all_unique (x ∷ xs) = not (contains x xs) && all_unique xs

-- The random number generator is not part of the program: `rand` is `GF256::rand`.
module _ {R : Type 0} (rand : R → Gf256 × R) where
  -- `repeat_with(|| GF256::rand(rng)).take(k)`
  unfoldable pub draw : ℕ → R → List Gf256 × R
  draw zero rng = ([], rng)
  draw (suc k) rng = let (c, rng') = rand rng in let (cs, rng'') = draw k rng' in (c ∷ cs, rng'')

  unfoldable pub split_byte : R → U8 → U8 → List U8 → Outcome (List U8 × R)
  split_byte rng secret threshold indices = do
    let number_of_shares = u8 (length indices)
    reject_if
        (threshold.val == 0
          || number_of_shares.val == 0
          || ltb number_of_shares.val threshold.val
          || contains (u8 0) indices
          || not (all_unique indices))
        invalid_input
    let drawn = draw (threshold.val - 1) rng
    ok (map (evaluate (secret ∷ drawn.0)) indices, drawn.1)

  -- `secret.iter().map(|b| split_byte(rng, …)).collect()`: the generator goes from byte to byte.
  unfoldable pub split_bytes : R → List U8 → U8 → List U8 → Outcome (List (List U8) × R)
  split_bytes rng [] threshold indices = ok ([], rng)
  split_bytes rng (b ∷ bs) threshold indices = do
    row ← split_byte rng b threshold indices
    rows ← split_bytes row.1 bs threshold indices
    ok (row.0 ∷ rows.0, rows.1)

  -- `split::<N>`
  unfoldable pub split : ℕ → R → List U8 → U8 → U8 → Outcome (SecretSharing × R)
  split n rng secret threshold number_of_shares = do
    reject_if (ltb number_of_shares.val threshold.val || threshold.val == 0) invalid_input
    let indices = map u8 (range 1 number_of_shares.val)
    rows ← split_bytes rng secret threshold indices
    shares ← transpose n rows.0
    ok (record { secret = secret; indices = indices; shares = shares }, rows.1)

-- One summand of `combine_byte`: the share over i · Π (j - i), j the other indices.
unfoldable pub quotient_term : List (U8 × U8) → U8 × U8 → Outcome Gf256
quotient_term shares (i, share_i) =
    let denominator =
      i ⊗ Gf256.product (map (λ j. sub j i) (filter (λ j. not (j =8 i)) (map (λ s. s.0) shares))) in
    expect (Gf256.div share_i denominator)

unfoldable pub combine_byte : List (U8 × U8) → Outcome U8
combine_byte shares = do
  reject_if
      (is_empty shares
        || not (all_unique (map (λ s. s.0) shares))
        || contains (u8 0) (map (λ s. s.0) shares))
      invalid_input
  let product = Gf256.product (map (λ s. s.0) shares)
  terms ← traverse (quotient_term shares) shares
  ok (product ⊗ Gf256.sum terms)

-- Byte `i` of every share, with the share's index.
unfoldable pub bytes_at : List Share → ℕ → Outcome (List (U8 × U8))
bytes_at shares i = traverse (λ share. do b ← index share.1 i; ok (share.0, b)) shares

-- `combine::<N>`
unfoldable pub combine : ℕ → List Share → Outcome (List U8)
combine n shares = traverse (λ i. do bytes ← bytes_at shares i; combine_byte bytes) (range 0 n)

-- The closure that `interpolate` returns.
unfoldable pub evaluate_all : List Polynomial → U8 → List U8
evaluate_all polynomials x = map (λ p. evaluate p x) polynomials

-- `interpolate::<N>`
unfoldable pub interpolate : ℕ → List Share → Outcome (U8 → List U8)
interpolate n shares = do
  reject_if
      (is_empty shares
        || contains (u8 0) (map (λ s. s.0) shares)
        || not (all_unique (map (λ s. s.0) shares)))
      invalid_input
  polynomials ←
      traverse (λ i. do bytes ← bytes_at shares i; Polynomial.interpolate bytes) (range 0 n)
  ok (evaluate_all polynomials)
