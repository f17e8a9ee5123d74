-- ===== src/Seal/Opening.antt =====
-- The steps of `seal_decrypt` on an object that `seal_encrypt` made, with valid user secret keys.
use seal.Base.{
  ℕ, ◌≤◌, ◌+◌, ◌≡◌, ◌≢◌, refl, sym, ap, subst, ◌∙◌, List, map, length, length-map, filter,
  get_elem?, get_elem?-map_inv, Elem, Elem-get_elem?, zip-Elem, All, All-of, All-map, All-filter,
  Distinct, Distinct-filter, Distinct-zip_second, All-zip_second, Distinct-map_injective,
  traverse-positions, length-filter-map, length-filter-zip, Option, some, none, U8, u8, Bool, true,
  ok, arith, traverse,
}
use seal.External.{Group, Bls12381, Primitives}
use seal.Polynomial.{evaluate}
use seal.Utils.Transpose.{index-map}
use seal.Tss.{Share, combine}
use seal.Tss.Checks.{All-map_iff}
use seal.Tss.Splitting.{
  indices-Distinct, indices-nonzero, length-polynomials, polynomials_size, polynomials_at_zero,
}
use seal.Tss.Sharing.{IsShareOf, IsShareSet, combine-ok}
use seal.Ibe.{Info, extract}
use seal.Ibe.Batch.{Row, encrypted, decrypt-encrypted}
use seal.Ibe.Keys.{decrypt-encrypt_randomness, verify_nonce-own}
use seal.Seal.{
  Rng, contains_key, encrypted_randomness, service_indices, decrypt_share, combine_and_verify_nonce,
}
use seal.Seal.Rows.{
  Server, Sealing, derive_key-ok, base_key, hidden_by, number, indices, placed, row_of, rows,
  randomness, full_id, cts, key_for, sealed_object, length-placed, ids_of, ids-rows, length-cts,
  length-key,
}

module _ (b : Bls12381) (c : Primitives) (s : Sealing b c) where
  open b use {Scalar, g1, g2}
  open c use {length-sha3_256}
  open s use {g, rng, servers, threshold, pos}

  abbrev pub services : List Info
  services = map (λ (r : Row b). r.info) (rows b c s)

  abbrev pub share_for : Info → Share
  share_for info = (info.1, map (λ f. evaluate f info.1) (hidden_by b c s))

  pub length-hidden : length (hidden_by b c s) ≡ 32
  length-hidden =
      length-polynomials (Rng.gf256_rand g) threshold (Rng.random_bytes g rng).1 (base_key b c s)
      ∙ Rng.length-random_bytes g rng

  module _ (keys : List U8 → Option (Group.Element g1)) where
    -- The user secret keys at hand are those that the servers' master keys extract.
    abbrev pub Valid : Type 0
    Valid =
        (server : Server b)
        → Elem server servers
        → (usk : Group.Element g1) → keys server.object_id ≡ some usk
        → usk ≡ extract b server.master_key (full_id b c s)

    abbrev pub known : Info → Bool
    known info = contains_key keys info.0

    known-some :
        (id : List U8)
        → contains_key keys id ≡ true
        → (usk : Group.Element g1) × (keys id ≡ some usk)
    known-some id h = from (keys id) refl h
      where
        from :
            (k : Option (Group.Element g1))
            → keys id ≡ k
            → contains_key keys id ≡ true
            → (usk : Group.Element g1) × (keys id ≡ some usk)
        from none e t = absurd (no_key e t)
          where
            no_key : keys id ≡ none → contains_key keys id ≡ true → ⊥
            no_key e t = cc
        from (some usk) e t = (usk, e)

    pub row_at :
        (j : ℕ) (info : Info)
        → get_elem? services j ≡ some info
        → (row : Row b) × (server : Server b) × (get_elem? (rows b c s) j ≡ some row)
          × Elem server servers
          × (row.info ≡ info)
          × (row.master_key ≡ server.master_key)
          × (row.info.0 ≡ server.object_id)
          × (row.plaintext ≡ map (λ f. evaluate f row.info.1) (hidden_by b c s))
    row_at j info at =
        let (row, at_row, e) = get_elem?-map_inv (λ (r : Row b). r.info) (rows b c s) j info at in
        let (p, at_p, e') = get_elem?-map_inv (row_of b c s) (placed b c s) j row at_row in
        let m = zip-Elem servers (indices b c s) p.0 p.1 (Elem-get_elem? (placed b c s) j p at_p) in
        (
          row,
          p.0,
          at_row,
          m.0,
          e,
          sym (ap (λ (r : Row b). r.master_key) e'),
          sym (ap (λ (r : Row b). r.info.0) e'),
          subst (λ (r : Row b). r.plaintext ≡ map (λ f. evaluate f r.info.1) (hidden_by b c s)) e'
              refl,
        )

    decrypt_share-ok :
        Valid
        → (j : ℕ) (info : Info) → get_elem? services j ≡ some info
        → known info ≡ true
        → decrypt_share b c keys (sealed_object b c s) (full_id b c s) j ≡ ok (share_for info)
    unfolding decrypt_share
    decrypt_share-ok valid j info at has =
        let (row, server, at_row, m, e, e_key, e_id, e_plain) = row_at j info at in
        let (usk, e_usk) = known-some info.0 has in
        let genuine : usk ≡ extract b row.master_key (full_id b c s) =
          valid server m usk (ap keys (sym e_id ∙ ap (λ (i : Info). i.0) e) ∙ e_usk)
          ∙ ap (λ k. extract b k (full_id b c s)) (sym e_key) in
        let size : length row.plaintext ≡ 32 =
          ap length e_plain
          ∙ length-map (λ f. evaluate f row.info.1) (hidden_by b c s)
          ∙ length-hidden in
        rw
          (
            index-map (λ (r : Row b). r.info) (rows b c s) j row at_row,
            index-map (encrypted b c (randomness b c s) (full_id b c s)) (rows b c s) j row at_row,
            e,
            e_usk,
            genuine,
            ← e,
            decrypt-encrypted b c (randomness b c s) (full_id b c s) row size,
            e_plain,
          )
          refl

    -- Every service with a key gives its share.
    pub shares-ok :
        Valid
        → traverse
            (decrypt_share b c keys (sealed_object b c s) (full_id b c s))
            (service_indices b c keys services)
          ≡ ok (map share_for (filter known services))
    unfolding service_indices
    shares-ok valid =
        traverse-positions known (decrypt_share b c keys (sealed_object b c s) (full_id b c s))
          share_for services 0
          (λ j info at has.
            ap (decrypt_share b c keys (sealed_object b c s) (full_id b c s)) {x = 0 + j} {y = j}
              (omega arith)
            ∙ decrypt_share-ok valid j info at has)

    pub length-known :
        length (filter known services)
        ≡ length (filter (λ (server : Server b). contains_key keys server.object_id) servers)
    length-known =
        length-filter-map known (λ (r : Row b). r.info) (rows b c s)
        ∙ length-filter-map (λ (r : Row b). known r.info) (row_of b c s) (placed b c s)
        ∙ length-filter-zip (λ (server : Server b). contains_key keys server.object_id) servers
            (indices b c s) (length-placed b c s)

    on_services : (P : U8 → Type 0) → All P (indices b c s) → All (λ (i : Info). P i.1) services
    on_services P h = (All-map_iff (λ (r : Row b). r.info) (λ (i : Info). P i.1) (rows b c s)).1 (
        (All-map_iff (row_of b c s) (λ (r : Row b). P r.info.1) (placed b c s)).1
          (All-zip_second P servers (indices b c s) h))

    services-Distinct : Distinct (λ (i : Info). i.1) services
    services-Distinct =
        Distinct-map_injective (λ (r : Row b). r.info) (λ (i : Info). i.1) (λ (r : Row b). r.info.1)
          (rows b c s) (λ x y e. e)
          (Distinct-map_injective (row_of b c s) (λ (r : Row b). r.info.1)
            (λ (p : Server b × U8). p.1) (placed b c s) (λ x y e. e)
            (Distinct-zip_second servers (indices b c s) (indices-Distinct (number b c s))))

    -- The shares at hand are a set that combines to the base key.
    pub shares-IsShareSet :
        threshold.val ≤ length (filter known services)
        → IsShareSet (hidden_by b c s) (map share_for (filter known services))
    shares-IsShareSet enough =
        let count = length-map share_for (filter known services) in
        record {
          nonempty = omega (arith, count, enough, pos);
          distinct =
              Distinct-map_injective share_for (λ (x : Share). x.0) (λ (i : Info). i.1)
                (filter known services) (λ x y e. e)
                (Distinct-filter known (λ (i : Info). i.1) services services-Distinct);
          nonzero = (All-map_iff share_for (λ x. x.0 ≢ u8 0) (filter known services)).1 (
              All-filter known (λ (i : Info). i.1 ≢ u8 0) services
                (on_services (λ j. j ≢ u8 0) (indices-nonzero (number b c s))));
          genuine =
              (All-map_iff share_for (IsShareOf (hidden_by b c s)) (filter known services)).1 (
                All-of (λ i. IsShareOf (hidden_by b c s) (share_for i)) (filter known services)
                  (λ i m. refl));
          enough =
              All-map (λ f (e : length f ≡ threshold.val). omega (arith, e, count, enough))
                (hidden_by b c s)
                (polynomials_size (Rng.gf256_rand g) threshold (Rng.random_bytes g rng).1
                  (base_key b c s) pos);
        }

    -- Combining them gives the base key, and the nonce is the one of the encrypted randomness.
    pub combine_and_verify_nonce-ok :
        threshold.val ≤ length (filter known services)
        → combine_and_verify_nonce b c
            (sealed_object b c s).encrypted_shares
            (map share_for (filter known services))
            services
            threshold
          ≡ ok (base_key b c s)
    unfolding combine_and_verify_nonce
    combine_and_verify_nonce-ok enough =
        let combined : combine 32 (map share_for (filter known services)) ≡ ok (base_key b c s) =
          ap (λ n. combine n (map share_for (filter known services))) (sym length-hidden)
          ∙ combine-ok (hidden_by b c s) (map share_for (filter known services))
              (shares-IsShareSet enough)
          ∙ ap ok (
              polynomials_at_zero (Rng.gf256_rand g) threshold (Rng.random_bytes g rng).1
                (base_key b c s)) in
        rw
          (
            combined,
            ids-rows b c s,
            derive_key-ok b c encrypted_randomness (base_key b c s) (cts b c s) threshold
                (ids_of b c servers) (length-cts b c s),
          )
          (rw
            (decrypt-encrypt_randomness b (randomness b c s) (key_for b c s encrypted_randomness)
              (length-key b c s encrypted_randomness))
            (rw (verify_nonce-own b (randomness b c s)) refl))
