-- ===== src/Seal/Consistency.antt =====
-- Decryption with public keys: all shares are recovered from the randomness and compared with the
-- interpolated polynomials.
use seal.Base.{
  ◌≤◌, ◌≡◌, refl, sym, ap, ◌∙◌, List, [], ◌∷◌, map, length, length-map, map-map, filter, zip,
  zip-map_both, All-of, traverse-map, traverse-of_map, Option, U8, u8, bytes_eq_iff, true, false,
  ◌==◌, ==_iff, ok, traverse,
}
use seal.External.{Group, Bls12381, Primitives}
use seal.Polynomial.{evaluate}
use seal.Tss.{Share, interpolate}
use seal.Tss.Splitting.{polynomials_at_zero}
use seal.Tss.Interpolation.{interpolate_lem}
use seal.Ibe.{Info, public_key_from_master_key}
use seal.Ibe.Batch.{Row, encrypted, decrypt_deterministic-encrypted}
use seal.Ibe.Keys.{decrypt-encrypt_randomness, verify_nonce-own}
use seal.Seal.{
  Rng, encrypted_randomness, recover_share, decrypt_all_shares_and_verify_nonce, any_off,
  combine_and_check_share_consistency,
}
use seal.Seal.Rows.{
  Server, Sealing, derive_key-ok, base_key, hidden_by, placed, row_of, rows, randomness, full_id,
  cts, key_for, sealed_object, ids_of, keys_of, ids-rows, keys-rows, length-cts, length-key,
}
use seal.Seal.Opening.{services, share_for, known, length-hidden, shares-IsShareSet}

module _ (b : Bls12381) (c : Primitives) (s : Sealing b c) where
  open b use {Scalar, g1, g2}
  open s use {g, rng, servers, threshold}

  abbrev share_of : Row b → Share
  share_of r = (r.info.1, r.plaintext)

  recover_share-ok :
      (p : Server b × U8)
      → recover_share b c (randomness b c s) (full_id b c s) (
        (
          public_key_from_master_key b (row_of b c s p).master_key,
          encrypted b c (randomness b c s) (full_id b c s) (row_of b c s p),
        ),
        (row_of b c s p).info,
      )
        ≡ ok (share_of (row_of b c s p))
  unfolding recover_share
  recover_share-ok p =
      rw
        (decrypt_deterministic-encrypted b c (randomness b c s) (full_id b c s) (row_of b c s p)
          (length-map (λ f. evaluate f p.1) (hidden_by b c s) ∙ length-hidden b c s))
        refl

  recovered :
      traverse
        (recover_share b c (randomness b c s) (full_id b c s))
        (zip (zip (keys_of b c servers) (cts b c s)) (services b c s))
      ≡ ok (map share_of (rows b c s))
  recovered =
      let f = recover_share b c (randomness b c s) (full_id b c s) in
      let pk = λ (r : Row b). public_key_from_master_key b r.master_key in
      let ct = encrypted b c (randomness b c s) (full_id b c s) in
      let pair : Row b → Group.Element g2 × List U8 = λ r. (pk r, ct r) in
      let triple : Row b → (Group.Element g2 × List U8) × Info = λ r. (pair r, r.info) in
      ap (traverse f) (
        ap (λ ks. zip (zip ks (cts b c s)) (services b c s)) (keys-rows b c s)
        ∙ ap (λ ps. zip ps (services b c s)) (zip-map_both pk ct (rows b c s))
        ∙ zip-map_both pair (λ (r : Row b). r.info) (rows b c s)
        ∙ map-map triple (row_of b c s) (placed b c s))
      ∙ traverse-of_map f (λ p. triple (row_of b c s p)) (placed b c s)
      ∙ traverse-map (λ p. f (triple (row_of b c s p))) (λ p. share_of (row_of b c s p))
          (placed b c s)
          (All-of (λ p. f (triple (row_of b c s p)) ≡ ok (share_of (row_of b c s p))) (placed b c s)
            (λ p m. recover_share-ok p))
      ∙ ap ok (sym (map-map share_of (row_of b c s) (placed b c s)))

  all_shares-ok :
      decrypt_all_shares_and_verify_nonce b c
        (sealed_object b c s).encrypted_shares
        (full_id b c s)
        (services b c s)
        (keys_of b c servers)
        (base_key b c s)
        threshold
      ≡ ok (map share_of (rows b c s))
  unfolding decrypt_all_shares_and_verify_nonce
  all_shares-ok =
      let counted : (length (keys_of b c servers) == length (cts b c s)) ≡ true =
        (==_iff (length (keys_of b c servers)) (length (cts b c s))).1 (
          ap length (keys-rows b c s)
          ∙ length-map (λ (r : Row b). public_key_from_master_key b r.master_key) (rows b c s)
          ∙ sym (length-map (encrypted b c (randomness b c s) (full_id b c s)) (rows b c s))) in
      rw
        (
          ids-rows b c s,
          derive_key-ok b c encrypted_randomness (base_key b c s) (cts b c s) threshold
              (ids_of b c servers) (length-cts b c s),
        )
        (rw
          (decrypt-encrypt_randomness b (randomness b c s) (key_for b c s encrypted_randomness)
            (length-key b c s encrypted_randomness))
          (rw (verify_nonce-own b (randomness b c s), counted) recovered))

  none_off :
      (polynomial : U8 → List U8) (ps : List (Server b × U8))
      → ((x : U8) → polynomial x ≡ map (λ f. evaluate f x) (hidden_by b c s))
      → any_off b c polynomial (map share_of (map (row_of b c s) ps)) ≡ false
  unfolding any_off
  none_off polynomial [] same = refl
  none_off polynomial (p ∷ ps) same =
      rw
        (
          (bytes_eq_iff (polynomial p.1) (map (λ f. evaluate f p.1) (hidden_by b c s))).1
              (same p.1),
          none_off polynomial ps same,
        )
        refl

  -- Interpolating enough genuine shares gives the base key, and every share is on the polynomials.
  pub combine_and_check_share_consistency-ok :
      (keys : List U8 → Option (Group.Element g1))
      → threshold.val ≤ length (filter (known b c s keys) (services b c s))
      → combine_and_check_share_consistency b c
          (sealed_object b c s).encrypted_shares
          (map (share_for b c s) (filter (known b c s keys) (services b c s)))
          (full_id b c s)
          (services b c s)
          threshold
          (keys_of b c servers)
        ≡ ok (base_key b c s)
  unfolding combine_and_check_share_consistency
  combine_and_check_share_consistency-ok keys enough =
      let shares = map (share_for b c s) (filter (known b c s keys) (services b c s)) in
      let (polynomial, returns, same) =
        interpolate_lem (hidden_by b c s) shares (shares-IsShareSet b c s keys enough) in
      let found : interpolate 32 shares ≡ ok polynomial =
        ap (λ n. interpolate n shares) (sym (length-hidden b c s)) ∙ returns in
      let base : polynomial (u8 0) ≡ base_key b c s =
        same (u8 0)
        ∙ polynomials_at_zero (Rng.gf256_rand g) threshold (Rng.random_bytes g rng).1
            (base_key b c s) in
      rw (found, base, all_shares-ok, none_off polynomial (placed b c s) same) refl
