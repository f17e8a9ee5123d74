-- ===== src/Elgamal/Aggregation.antt =====
-- Aggregation of encrypted shares commutes with decryption.
use seal.Base.{
  ◌==◌, ◌^◌, ◌%◌, ◌||◌, Distinct-map_injective, ℕ, ◌+◌, ◌≡◌, List, [], ◌∷◌, map, refl, sym, ap, ap₂,
  ◌∙◌, All, ◌<◌, false, length, Distinct, ok, arith, length-map, All-map₂, ltb, ◌≢◌, All-of,
}
use seal.External.{Group, Recovery, combine}
use seal.Elgamal.{Encryption, decrypt, collect_shares, aggregate_encrypted, seen}

module _ {S : Type 0} (g : Group S) where
  open g use {
    Element, identity, plus, minus, times, minus-plus, plus-minus, times_comm, plus-times,
    plus_assoc, plus_comm, identity-plus, identity-times,
  }

  -- (a + b) + (c + d) = (a + c) + (b + d)
  plus_swap : (a b c d : Element) → plus (plus a b) (plus c d) ≡ plus (plus a c) (plus b d)
  plus_swap a b c d =
      plus_assoc a b (plus c d)
      ∙ ap (plus a) (sym (plus_assoc b c d) ∙ ap (λ x. plus x d) (plus_comm b c) ∙ plus_assoc c b d)
      ∙ sym (plus_assoc a c (plus b d))

  -- The second half is the masked message.
  second-decrypt :
      (sk : S) (e : Encryption Element) → e.second ≡ plus (times e.first sk) (decrypt g sk e)
  unfolding decrypt
  second-decrypt sk e = sym (plus-minus (times e.first sk) e.second)

  -- The two halves of encryptions with their indices.
  abbrev pub firsts : List (ℕ × Encryption Element) → List (ℕ × Element)
  firsts shares = map (λ (s : ℕ × Encryption Element). (s.0 + 1, s.1.first)) shares

  abbrev pub seconds : List (ℕ × Encryption Element) → List (ℕ × Element)
  seconds shares = map (λ (s : ℕ × Encryption Element). (s.0 + 1, s.1.second)) shares

  -- The decrypted shares with their indices.
  abbrev pub decrypted : S → List (ℕ × Encryption Element) → List (ℕ × Element)
  decrypted sk shares = map (λ (s : ℕ × Encryption Element). (s.0 + 1, decrypt g sk s.1)) shares

  combine-seconds :
      (w : ℕ → S) (sk : S) (shares : List (ℕ × Encryption Element))
      → combine g w (seconds shares)
        ≡ plus (times (combine g w (firsts shares)) sk) (combine g w (decrypted sk shares))
  combine-seconds w sk [] =
      sym (ap (λ x. plus x identity) (identity-times sk) ∙ identity-plus identity)
  combine-seconds w sk ((id, e) ∷ shares) =
      let c = w (id + 1) in
      let masked : times e.second c ≡ plus (times (times e.first c) sk) (times (decrypt g sk e) c) =
        ap (λ x. times x c) (second-decrypt sk e)
        ∙ plus-times (times e.first sk) (decrypt g sk e) c
        ∙ ap (λ x. plus x (times (decrypt g sk e) c)) (times_comm e.first sk c) in
      ap₂ plus masked (combine-seconds w sk shares)
      ∙ plus_swap (times (times e.first c) sk) (times (decrypt g sk e) c)
          (times (combine g w (firsts shares)) sk) (combine g w (decrypted sk shares))
      ∙ ap (λ x. plus x (plus (times (decrypt g sk e) c) (combine g w (decrypted sk shares))))
          (sym (plus-times (times e.first c) (combine g w (firsts shares)) sk))

  -- Decrypting a combination is combining what is decrypted.
  pub decrypt-combine :
      (w : ℕ → S) (sk : S) (shares : List (ℕ × Encryption Element))
      → decrypt g sk
          (record { first = combine g w (firsts shares); second = combine g w (seconds shares) })
        ≡ combine g w (decrypted sk shares)
  unfolding decrypt
  decrypt-combine w sk shares =
      ap (λ x. minus x (times (combine g w (firsts shares)) sk)) (combine-seconds w sk shares)
      ∙ minus-plus (times (combine g w (firsts shares)) sk) (combine g w (decrypted sk shares))

  abbrev pub indices : List (ℕ × Encryption Element) → List ℕ
  indices shares = map (λ (s : ℕ × Encryption Element). s.0 + 1) shares

  indices_of :
      (part : Encryption Element → Element) (shares : List (ℕ × Encryption Element))
      → map
          (λ (s : ℕ × Element). s.0)
          (map (λ (s : ℕ × Encryption Element). (s.0 + 1, part s.1)) shares)
        ≡ indices shares
  indices_of part [] = refl
  indices_of part ((id, e) ∷ shares) = ap (◌∷◌ (id + 1)) (indices_of part shares)

  -- Shares of different parties with an index of 16 bits are collected.
  collect_shares-ok :
      (seen_ids : List ℕ) (shares : List (ℕ × Encryption Element))
      → All (λ (s : ℕ × Encryption Element). s.0 < 65535) shares
      → All (λ (s : ℕ × Encryption Element). seen s.0 seen_ids ≡ false) shares
      → Distinct (λ (s : ℕ × Encryption Element). s.0) shares
      → collect_shares seen_ids shares ≡ ok (firsts shares, seconds shares)
  unfolding collect_shares
  collect_shares-ok seen_ids [] small new distinct = refl
  collect_shares-ok seen_ids ((id, e) ∷ shares) small new distinct =
      let not_max : (id == 65535) ≡ false = ground (arith, small.0) in
      let still_new =
        All-map₂ {P = λ (s : ℕ × Encryption Element). seen s.0 seen_ids ≡ false}
          {Q = λ (s : ℕ × Encryption Element). s.0 ≢ id}
          {R = λ (s : ℕ × Encryption Element). seen s.0 (id ∷ seen_ids) ≡ false}
          (λ s old other. ground (arith, old, other)) shares new.1 distinct.0 in
      let rest = collect_shares-ok (id ∷ seen_ids) shares small.1 still_new distinct.1 in
      rw (not_max, new.0, rest) refl

  module _ (r : Recovery g) where
    open r use {recover_c0, coefficient, recovers}

    recovers_part :
        (part : Encryption Element → Element) (t : ℕ) (shares : List (ℕ × Encryption Element))
        → 0 < t
        → length shares ≡ t
        → Distinct (λ (s : ℕ × Encryption Element). s.0) shares
        → recover_c0 t (map (λ (s : ℕ × Encryption Element). (s.0 + 1, part s.1)) shares)
          ≡ ok (
              combine g
                (coefficient (indices shares))
                (map (λ (s : ℕ × Encryption Element). (s.0 + 1, part s.1)) shares))
    recovers_part part t shares positive full distinct =
        let index_share : ℕ × Encryption Element → ℕ × Element = λ s. (s.0 + 1, part s.1) in
        recovers t (map index_share shares) positive (length-map index_share shares ∙ full)
          (Distinct-map_injective index_share (λ s. s.0) (λ s. s.0) shares
            (λ a b e. omega (arith, e)) distinct)
          (positive_indices shares)
        ∙ ap (λ is. ok (combine g (coefficient is) (map index_share shares)))
            (indices_of part shares)
      where
        positive_indices :
            (xs : List (ℕ × Encryption Element))
            → All
                (λ (s : ℕ × Element). 0 < s.0)
                (map (λ (s : ℕ × Encryption Element). (s.0 + 1, part s.1)) xs)
        positive_indices [] = tt
        positive_indices (x ∷ xs) = (omega arith, positive_indices xs)

    -- As many encrypted shares as the threshold, of different parties with ids below 65535, are
    -- aggregated, and what is returned decrypts to the interpolation of the decrypted shares.
    pub decrypt-aggregate_encrypted :
        (sk : S) (threshold : ℕ) (shares : List (ℕ × Encryption Element))
        → 0 < threshold
        → threshold < 2 ^ 16
        → length shares ≡ threshold
        → All (λ (s : ℕ × Encryption Element). s.0 < 65535) shares
        → Distinct (λ (s : ℕ × Encryption Element). s.0) shares
        → (e : Encryption Element) × (aggregate_encrypted recover_c0 threshold shares ≡ ok e)
          × (decrypt g sk e ≡ combine g (coefficient (indices shares)) (decrypted sk shares))
    unfolding aggregate_encrypted
    decrypt-aggregate_encrypted sk threshold shares positive fits full small distinct =
        let w = coefficient (indices shares) in
        let passes : ((threshold == 0)
              || ltb 65535 (length shares)
              || ltb (length shares % 2 ^ 16) threshold)
            ≡ false =
          rw full (ground (arith, positive, fits)) in
        let collected =
          collect_shares-ok [] shares small (All-of _ shares (λ s m. refl)) distinct in
        (
          record { first = combine g w (firsts shares); second = combine g w (seconds shares) },
          rw
              (
                passes,
                collected,
                recovers_part (λ e. e.first) threshold shares positive full distinct,
                recovers_part (λ e. e.second) threshold shares positive full distinct,
              )
              refl,
          decrypt-combine w sk shares,
        )
