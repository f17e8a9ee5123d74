-- ===== src/Tss/Splitting.antt =====
-- What `split` does: one polynomial for each byte of the secret, and a share for each index.
use seal.Base.{
  ℕ, zero as nat_zero, suc, ◌+◌, ◌-◌, ◌≤◌, ◌<◌, ◌%◌, List, [], ◌∷◌, map, length, length-map,
  length-range, range, All, Distinct, U8, u8, true, false, not, ◌||◌, ◌==◌, ltb, ◌≡◌, ◌≢◌, refl, ap,
  ap₂, ◌∙◌, arith, ok, err, invalid_input, ◌⊎◌,
}
use seal.Gf256.{Gf256}
use seal.Polynomial.{Polynomial, evaluate}
use seal.Utils.Transpose.{transpose-table}
use seal.Tss.{contains, all_unique, draw, split_byte, split_bytes, split}
use seal.Tss.Checks.{contains-false_iff, all_unique_iff}
use seal.Tss.Recovery.{evaluate-at_zero}

-- 1, 2, …, k as bytes.
abbrev pub indices_to : ℕ → List U8
indices_to k = map u8 (range 1 k)

range_apart : (s t n : ℕ) → s < t → t + n < 257 → All (λ j. j ≢ u8 s) (map u8 (range t n))
range_apart s t nat_zero h fits = tt
range_apart s t (suc n) h fits = (
  (λ e. absurd (omega (arith, ap (λ (b : U8). b.val) e))),
  range_apart s (suc t) n (omega arith) (omega arith),
)

range_distinct : (s n : ℕ) → s + n < 257 → Distinct (λ (b : U8). b) (map u8 (range s n))
range_distinct s nat_zero fits = tt
range_distinct s (suc n) fits =
    (range_apart s (suc s) n (omega arith) (omega arith), range_distinct (suc s) n (omega arith))

pub indices-Distinct : (k : U8) → Distinct (λ (b : U8). b) (indices_to k.val)
indices-Distinct k = range_distinct 1 k.val (omega (arith, k.bound))

pub indices-nonzero : (k : U8) → All (λ j. j ≢ u8 0) (indices_to k.val)
indices-nonzero k = range_apart 0 1 k.val (omega arith) (omega (arith, k.bound))

pub length-indices : (k : ℕ) → length (indices_to k) ≡ k
length-indices k = length-map u8 (range 1 k) ∙ length-range 1 k

-- The checks of `split_byte` pass on these indices.
checks_pass :
    (t k : U8)
    → 0 < t.val
    → t.val ≤ k.val
    → (t.val == 0
        || (u8 (length (indices_to k.val))).val == 0
        || ltb (u8 (length (indices_to k.val))).val t.val
        || contains (u8 0) (indices_to k.val)
        || not (all_unique (indices_to k.val)))
      ≡ false
checks_pass t k pos le =
    let count : length (indices_to k.val) % 256 ≡ k.val =
      omega (arith, length-indices k.val, k.bound) in
    rw
      (
        count,
        (contains-false_iff (u8 0) (indices_to k.val)).1 (indices-nonzero k),
        (all_unique_iff (indices_to k.val)).1 (indices-Distinct k),
      )
      (ground arith)

module _ {R : Type 0} (rand : R → Gf256 × R) where
  length-draw : (n : ℕ) (rng : R) → length (draw rand n rng).0 ≡ n
  unfolding draw
  length-draw nat_zero rng = refl
  length-draw (suc n) rng = ap suc (length-draw n (rand rng).1)

  -- The polynomials that `split` draws, one for each byte.
  pub polynomials : U8 → R → List U8 → List Polynomial
  polynomials t rng [] = []
  polynomials t rng (b ∷ bs) =
      let drawn = draw rand (t.val - 1) rng in (b ∷ drawn.0) ∷ polynomials t drawn.1 bs

  pub rng_after : U8 → R → List U8 → R
  rng_after t rng [] = rng
  rng_after t rng (b ∷ bs) = rng_after t (draw rand (t.val - 1) rng).1 bs

  pub length-polynomials :
      (t : U8) (rng : R) (secret : List U8) → length (polynomials t rng secret) ≡ length secret
  unfolding polynomials
  length-polynomials t rng [] = refl
  length-polynomials t rng (b ∷ bs) = ap suc (length-polynomials t (draw rand (t.val - 1) rng).1 bs)

  -- Each has as many coefficients as the threshold says.
  pub polynomials_size :
      (t : U8) (rng : R) (secret : List U8)
      → 0 < t.val
      → All (λ f. length f ≡ t.val) (polynomials t rng secret)
  unfolding polynomials
  polynomials_size t rng [] pos = tt
  polynomials_size t rng (b ∷ bs) pos = (
    omega (arith, length-draw (t.val - 1) rng),
    polynomials_size t (draw rand (t.val - 1) rng).1 bs pos,
  )

  -- And each hides its byte at zero.
  pub polynomials_at_zero :
      (t : U8) (rng : R) (secret : List U8)
      → map (λ f. evaluate f (u8 0)) (polynomials t rng secret) ≡ secret
  unfolding polynomials
  polynomials_at_zero t rng [] = refl
  polynomials_at_zero t rng (b ∷ bs) =
      ap₂ ◌∷◌ (evaluate-at_zero b (draw rand (t.val - 1) rng).0)
        (polynomials_at_zero t (draw rand (t.val - 1) rng).1 bs)

  split_bytes-ok :
      (t k : U8) (rng : R) (secret : List U8)
      → 0 < t.val
      → t.val ≤ k.val
      → split_bytes rand rng secret t (indices_to k.val)
        ≡ ok (
          map (λ f. map (evaluate f) (indices_to k.val)) (polynomials t rng secret),
          rng_after t rng secret,
        )
  unfolding split_bytes split_byte polynomials rng_after
  split_bytes-ok t k rng [] pos le = refl
  split_bytes-ok t k rng (b ∷ bs) pos le =
      rw (checks_pass t k pos le) (rw (split_bytes-ok t k (draw rand (t.val - 1) rng).1 bs pos le))

  -- `split`, on a threshold from 1 to the number of shares, in terms of those polynomials.
  pub split_lem :
      (n : ℕ) (rng : R) (secret : List U8) (t k : U8)
      → length secret ≡ n
      → 0 < n
      → 0 < t.val
      → t.val ≤ k.val
      → split rand n rng secret t k
        ≡ ok (
          record {
            secret = secret;
            indices = indices_to k.val;
            shares =
                map (λ i. map (λ f. evaluate f i) (polynomials t rng secret)) (indices_to k.val);
          },
          rng_after t rng secret,
        )
  unfolding split
  split_lem n rng secret t k size some_bytes pos le =
      let fits : (ltb k.val t.val || t.val == 0) ≡ false = ground arith in
      rw (fits, split_bytes-ok t k rng secret pos le)
        (rw (
          transpose-table evaluate (indices_to k.val) n (polynomials t rng secret)
            (length-polynomials t rng secret ∙ size) some_bytes))

-- Any other threshold is refused.
pub split_refused :
    {R : Type 0} (rand : R → Gf256 × R) (n : ℕ) (rng : R) (secret : List U8) (t k : U8)
    → (t.val ≡ 0) ⊎ (k.val < t.val)
    → split rand n rng secret t k ≡ err invalid_input
unfolding split
split_refused rand n rng secret t k h =
    let fails : (ltb k.val t.val || t.val == 0) ≡ true = ground arith in rw fails
