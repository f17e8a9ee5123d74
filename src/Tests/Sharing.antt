-- ===== src/Tests/Sharing.antt =====
-- A 2-out-of-3 sharing of two bytes, with a counter for the random number generator.
use seal.Base.{
  ℕ, ◌+◌, ◌*◌, ◌≡◌, ◌≢◌, refl, ap, List, [], ◌∷◌, map, length, U8, u8, ok, inl, inr, arith,
}
use seal.Gf256.{Gf256}
use seal.Polynomial.{Polynomial, evaluate}
use seal.Tss.{Share, SecretSharing, combine, split}
use seal.Tss.Splitting.{indices_to, polynomials, rng_after, split_lem}
use seal.Tss.Sharing.{combine-split, split-ok}

abbrev counter : ℕ → Gf256 × ℕ
counter n = (u8 (n * 7 + 3), n + 1)

abbrev secret : List U8
secret = u8 42 ∷ u8 0 ∷ []

abbrev hidden_by : List Polynomial
hidden_by = polynomials counter (u8 2) 5 secret

abbrev share_at : U8 → List U8
share_at i = map (λ f. evaluate f i) hidden_by

abbrev sharing : SecretSharing
sharing = record { secret = secret; indices = indices_to 3; shares = map share_at (indices_to 3) }

abbrev picked : List Share
picked = (u8 3, share_at (u8 3)) ∷ (u8 1, share_at (u8 1)) ∷ []

apart : u8 1 ≢ u8 3
apart e = absurd (omega (arith, ap (λ (x : U8). x.val) e))

combine-split_example : combine 2 picked ≡ ok secret
combine-split_example =
    combine-split counter 2 5 secret (u8 2) (u8 3) sharing (rng_after counter (u8 2) 5 secret)
      picked refl (omega arith)
      (split_lem counter 2 5 secret (u8 2) (u8 3) refl (omega arith) (omega arith) (omega arith))
      (inr (inr (inl refl)), (inl refl, tt)) ((apart, tt), (tt, tt)) (omega arith)

split-ok_example :
    (result : SecretSharing × ℕ) × (split counter 2 5 secret (u8 2) (u8 3) ≡ ok result)
    × (length result.0.shares ≡ 3)
split-ok_example =
    split-ok counter 2 5 secret (u8 2) (u8 3) refl (omega arith) (omega arith) (omega arith)
