-- ===== src/Elgamal/Refusal.antt =====
-- What the aggregation of encrypted shares refuses.
use seal.Base.{
  invalid_input, ltb, ◌==◌, ◌^◌, ◌%◌, ◌||◌, ℕ, ◌≡◌, List, [], ◌∷◌, ok, Outcome, All, ◌<◌, ◌≢◌, ◌≤◌,
  false, length, Distinct, reject_if-ok, >>=-ok, ||-false, arith, All-map,
}
use seal.Elgamal.{Encryption, collect_shares, aggregate_encrypted, seen}

module _ {E : Type 0} where
  -- The ids of collected shares are small, new and different.
  collect_shares-Distinct :
      (seen_ids : List ℕ) (shares : List (ℕ × Encryption E)) {halves : List (ℕ × E) × List (ℕ × E)}
      → collect_shares seen_ids shares ≡ ok halves
      → All (λ (s : ℕ × Encryption E). (s.0 ≢ 65535) × (seen s.0 seen_ids ≡ false)) shares
        × Distinct (λ (s : ℕ × Encryption E). s.0) shares
  unfolding collect_shares
  collect_shares-Distinct seen_ids [] h = (tt, tt)
  collect_shares-Distinct seen_ids ((id, e) ∷ shares) h =
      let (fresh, h1) = reject_if-ok ((id == 65535) || seen id seen_ids) invalid_input _ h in
      let (halves, rest, h2) = >>=-ok (collect_shares (id ∷ seen_ids) shares) _ h1 in
      let (small, new) = ||-false (id == 65535) (seen id seen_ids) fresh in
      let (all, distinct) = collect_shares-Distinct (id ∷ seen_ids) shares rest in
      (
        (
          (λ eq. ground (arith, small, eq), new),
          All-map {P = λ (s : ℕ × Encryption E). (s.0 ≢ 65535) × (seen s.0 (id ∷ seen_ids) ≡ false)}
              {Q = λ (s : ℕ × Encryption E). (s.0 ≢ 65535) × (seen s.0 seen_ids ≡ false)}
              (λ s p. (p.0, (||-false (s.0 == id) (seen s.0 seen_ids) p.1).1)) shares all,
        ),
        (
          All-map {P = λ (s : ℕ × Encryption E). (s.0 ≢ 65535) × (seen s.0 (id ∷ seen_ids) ≡ false)}
              {Q = λ (s : ℕ × Encryption E). s.0 ≢ id}
              (λ s p eq. ground (arith, (||-false (s.0 == id) (seen s.0 seen_ids) p.1).0, eq))
              shares all,
          distinct,
        ),
      )

  -- Aggregation returns only for a positive threshold and at least as many shares, at most 65535, of
  -- different parties, none with the id 65535.
  pub aggregate_encrypted-Distinct :
      (recover_c0 : ℕ → List (ℕ × E) → Outcome E) (threshold : ℕ) (shares : List (ℕ × Encryption E))
      (e : Encryption E)
      → aggregate_encrypted recover_c0 threshold shares ≡ ok e
      → (0 < threshold)
        × (threshold ≤ length shares)
        × (length shares ≤ 65535)
        × All (λ (s : ℕ × Encryption E). s.0 ≢ 65535) shares
        × Distinct (λ (s : ℕ × Encryption E). s.0) shares
  unfolding aggregate_encrypted
  aggregate_encrypted-Distinct recover_c0 threshold shares e h =
      let (passes, h1) =
        reject_if-ok
          ((threshold == 0) || ltb 65535 (length shares) || ltb (length shares % 2 ^ 16) threshold)
          invalid_input _ h in
      let (halves, collected, h2) = >>=-ok (collect_shares [] shares) _ h1 in
      let (all, distinct) = collect_shares-Distinct [] shares collected in
      (
        ground (arith, passes),
        ground (arith, passes),
        ground (arith, passes),
        All-map {P = λ (s : ℕ × Encryption E). (s.0 ≢ 65535) × (seen s.0 [] ≡ false)}
            {Q = λ (s : ℕ × Encryption E). s.0 ≢ 65535} (λ s p. p.0) shares all,
        distinct,
      )
