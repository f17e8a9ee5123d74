-- ===== src/Seal/Rows.antt =====
-- What `seal_encrypt` makes for servers with master keys, server by server.
use seal.Base.{
  ◌≤◌, ◌<◌, ◌≡◌, refl, sym, ◌∙◌, List, map, length, length-map, map-map, zip, zip-map,
  map-zip_first, map-zip_second, length-zip, U8, u8, ◌||◌, false, true, ◌==◌, ==_iff, ltb, ok,
  arith,
}
use seal.External.{Group, Bls12381, Primitives}
use seal.Polynomial.{Polynomial, evaluate}
use seal.Tss.Splitting.{indices_to, length-indices, polynomials, rng_after, split_lem}
use seal.Ibe.{Info, public_key_from_master_key, encrypt_randomness}
use seal.Ibe.Batch.{Row, nonce_of, encrypted, encrypt_batched_deterministic-ok}
use seal.Dem.{EncryptionInput}
use seal.Dem as Dem
use seal.Seal.{
  Rng, EncryptedObject, create_full_id, KeyPurpose, encrypted_randomness, dem, key_digest,
  derive_key, seal_encrypt,
}

-- A key server: its object id, and the master key behind its public key.
pub record Server (b : Bls12381) : Type 0 where
  pub object_id : List U8
  pub master_key : Bls12381.Scalar b

-- One call of `seal_encrypt` with a threshold that fits, for servers whose master keys are known.
pub record Sealing (b : Bls12381) (c : Primitives) : Type 1 where
  pub g : Rng b
  pub rng : Rng.State g
  pub servers : List (Server b)
  pub threshold : U8
  pub package_id : List U8
  pub id : List U8
  pub input : EncryptionInput
  pub few : length servers ≤ 255
  pub pos : 0 < threshold.val
  pub le : threshold.val ≤ length servers

module _ (b : Bls12381) (c : Primitives) where
  open b use {Scalar, g1, g2}

  pub derive_key-ok :
      (purpose : KeyPurpose) (base : List U8) (cts : List (List U8)) (threshold : U8)
      (ids : List (List U8))
      → length cts ≡ length ids
      → derive_key b c purpose base cts threshold ids
        ≡ ok (key_digest b c purpose base cts threshold ids)
  unfolding derive_key
  derive_key-ok purpose base cts threshold ids h = rw ((==_iff (length cts) (length ids)).1 h) refl

  abbrev pub ids_of : List (Server b) → List (List U8)
  ids_of servers = map (λ (s : Server b). s.object_id) servers

  abbrev pub keys_of : List (Server b) → List (Group.Element g2)
  keys_of servers = map (λ (s : Server b). public_key_from_master_key b s.master_key) servers

  module _ (s : Sealing b c) where
    open s use {g, rng, servers, threshold, package_id, id, input, few, pos, le}

    abbrev pub base_key : List U8
    base_key = (Rng.random_bytes g rng).0

    abbrev pub hidden_by : List Polynomial
    hidden_by = polynomials (Rng.gf256_rand g) threshold (Rng.random_bytes g rng).1 base_key

    abbrev pub number : U8
    number = u8 (length servers)

    abbrev pub indices : List U8
    indices = indices_to number.val

    -- The servers, each with the index of its share.
    abbrev pub placed : List (Server b × U8)
    placed = zip servers indices

    abbrev pub row_of : Server b × U8 → Row b
    row_of p = record {
      master_key = p.0.master_key;
      plaintext = map (λ f. evaluate f p.1) hidden_by;
      info = (p.0.object_id, p.1);
    }

    abbrev pub rows : List (Row b)
    rows = map row_of placed

    abbrev pub randomness : Scalar
    randomness =
        (Rng.scalar_rand g
          (rng_after (Rng.gf256_rand g) threshold (Rng.random_bytes g rng).1 base_key)).0

    abbrev pub full_id : List U8
    full_id = create_full_id package_id id

    abbrev pub cts : List (List U8)
    cts = map (encrypted b c randomness full_id) rows

    abbrev pub key_for : KeyPurpose → List U8
    key_for purpose = key_digest b c purpose base_key cts threshold (ids_of servers)

    abbrev pub sealed_object : EncryptedObject b
    sealed_object = record {
      version = u8 0;
      package_id = package_id;
      id = id;
      services = map (λ (r : Row b). r.info) rows;
      threshold = threshold;
      encrypted_shares = record {
        nonce = nonce_of b c randomness;
        encrypted_shares = cts;
        encrypted_randomness = encrypt_randomness b randomness (key_for encrypted_randomness);
      };
      ciphertext = Dem.encrypt c input (key_for dem);
    }

    pub number-val : number.val ≡ length servers
    number-val = omega (arith, few)

    pub length-placed : length servers ≡ length indices
    length-placed = sym (length-indices number.val ∙ number-val)

    services-rows : zip (ids_of servers) indices ≡ map (λ (r : Row b). r.info) rows
    services-rows =
        zip-map (λ (s : Server b). s.object_id) servers indices
        ∙ sym (map-map (λ (r : Row b). r.info) row_of placed)

    shares-rows :
        map (λ i. map (λ f. evaluate f i) hidden_by) indices ≡ map (λ (r : Row b). r.plaintext) rows
    shares-rows =
        sym (map-zip_second (λ i. map (λ f. evaluate f i) hidden_by) servers indices length-placed)
        ∙ sym (map-map (λ (r : Row b). r.plaintext) row_of placed)

    pub keys-rows :
        keys_of servers ≡ map (λ (r : Row b). public_key_from_master_key b r.master_key) rows
    keys-rows =
        sym (
          map-zip_first (λ (s : Server b). public_key_from_master_key b s.master_key) servers
            indices length-placed)
        ∙ sym (map-map (λ (r : Row b). public_key_from_master_key b r.master_key) row_of placed)

    pub ids-rows : map (λ (i : Info). i.0) (map (λ (r : Row b). r.info) rows) ≡ ids_of servers
    ids-rows =
        map-map (λ (i : Info). i.0) (λ (r : Row b). r.info) rows
        ∙ map-map (λ (r : Row b). r.info.0) row_of placed
        ∙ map-zip_first (λ (s : Server b). s.object_id) servers indices length-placed

    pub length-cts : length cts ≡ length (ids_of servers)
    length-cts =
        length-map (encrypted b c randomness full_id) rows
        ∙ length-map row_of placed
        ∙ length-zip servers indices length-placed
        ∙ sym (length-map (λ (s : Server b). s.object_id) servers)

    -- Encryption returns for every threshold from 1 to the number of servers.
    pub seal_encrypt-ok :
        seal_encrypt b c g rng package_id id (ids_of servers) (keys_of servers) threshold input
        ≡ ok (sealed_object, key_for dem)
    unfolding seal_encrypt
    seal_encrypt-ok =
        let fits : (ltb number.val threshold.val || threshold.val == 0) ≡ false =
          ground (arith, number-val) in
        let counted : (length (keys_of servers) == number.val) ≡ true =
          (==_iff (length (keys_of servers)) number.val).1 (
            length-map (λ (s : Server b). public_key_from_master_key b s.master_key) servers
            ∙ sym number-val) in
        let shared =
          split_lem (Rng.gf256_rand g) 32 (Rng.random_bytes g rng).1 base_key threshold number
            (Rng.length-random_bytes g rng) (omega arith) pos (omega (arith, number-val, le)) in
        rw (length-map (λ (s : Server b). s.object_id) servers, fits, shared, counted)
          (rw
            (
              services-rows,
              shares-rows,
              keys-rows,
              encrypt_batched_deterministic-ok b c randomness full_id rows,
            )
            (rw
              (
                derive_key-ok encrypted_randomness base_key cts threshold (ids_of servers)
                    length-cts,
                derive_key-ok dem base_key cts threshold (ids_of servers) length-cts,
              )
              refl))

    pub length-key : (purpose : KeyPurpose) → length (key_for purpose) ≡ 32
    unfolding key_digest
    length-key purpose = Primitives.length-sha3_256 c _
