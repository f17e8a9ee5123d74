-- ===== src/Ibe.antt =====
-- crates/crypto/src/ibe.rs: Boneh-Franklin identity-based encryption over BLS12-381. The curve and
-- the hashes are parameters; so is what a random number generator draws.
pub mod Keys
pub mod Batch
use seal.Base.{
  ℕ, ◌/◌, ◌^◌, List, [], ◌∷◌, ◌++◌, map, length, range, U8, u8, not, ◌&&◌, ◌||◌, ◌==◌, Outcome, ok,
  invalid_input, invalid_randomness, reject_if, traverse, ◌>>=◌, ◌>>◌,
}
use seal.External.{Group, Bls12381, Primitives}
use seal.Utils.{xor, index}
use seal.Elgamal.{Encryption}

-- The object id of a key server, 32 bytes, and the index of a share.
abbrev pub Info : Type 0
Info = List U8 × U8

-- b"SUI-SEAL-IBE-BLS12381-00"
abbrev pub dst_id : List U8
dst_id = map u8 (
    83 ∷ 85 ∷ 73 ∷ 45 ∷ 83 ∷ 69 ∷ 65 ∷ 76 ∷ 45 ∷ 73 ∷ 66 ∷ 69 ∷ 45 ∷ 66 ∷ 76 ∷ 83 ∷ 49 ∷ 50 ∷ 51
    ∷ 56 ∷ 49 ∷ 45 ∷ 48 ∷ 48 ∷ [])

-- b"SUI-SEAL-IBE-BLS12381-POP-00"
abbrev pub dst_pop : List U8
dst_pop = map u8 (
    83 ∷ 85 ∷ 73 ∷ 45 ∷ 83 ∷ 69 ∷ 65 ∷ 76 ∷ 45 ∷ 73 ∷ 66 ∷ 69 ∷ 45 ∷ 66 ∷ 76 ∷ 83 ∷ 49 ∷ 50 ∷ 51
    ∷ 56 ∷ 49 ∷ 45 ∷ 80 ∷ 79 ∷ 80 ∷ 45 ∷ 48 ∷ 48 ∷ [])

-- b"SUI-SEAL-IBE-BLS12381-H2-00"
abbrev pub dst_kdf : List U8
dst_kdf = map u8 (
    83 ∷ 85 ∷ 73 ∷ 45 ∷ 83 ∷ 69 ∷ 65 ∷ 76 ∷ 45 ∷ 73 ∷ 66 ∷ 69 ∷ 45 ∷ 66 ∷ 76 ∷ 83 ∷ 49 ∷ 50 ∷ 51
    ∷ 56 ∷ 49 ∷ 45 ∷ 72 ∷ 50 ∷ 45 ∷ 48 ∷ 48 ∷ [])

-- `u64::to_be_bytes`
abbrev pub to_be_bytes : ℕ → List U8
to_be_bytes n = map (λ k. u8 (n / 256 ^ k)) (7 ∷ 6 ∷ 5 ∷ 4 ∷ 3 ∷ 2 ∷ 1 ∷ 0 ∷ [])

module _ (b : Bls12381) where
  open b use {
    Scalar, g1, g2, Gt, gt_plus, gt_eq, gt_to_bytes, pairing, hash_to_group_element,
    scalar_to_bytes, scalar_from_bytes, buffer_to_scalar_mod_r, bcs_g2,
  }

  unfoldable pub public_key_from_master_key : Scalar → Group.Element g2
  public_key_from_master_key master_key = Group.times g2 (Group.generator g2) master_key

  unfoldable pub into_key_pair : Scalar → Scalar × Group.Element g2
  into_key_pair master_key = (master_key, public_key_from_master_key master_key)

  unfoldable pub hash_to_g1 : List U8 → Group.Element g1
  hash_to_g1 id = hash_to_group_element (dst_id ++ id)

  unfoldable pub extract : Scalar → List U8 → Group.Element g1
  extract master_key id = Group.times g1 (hash_to_g1 id) master_key

  unfoldable pub verify_user_secret_key :
      Group.Element g1 → List U8 → Group.Element g2 → Outcome (Unit {0})
  verify_user_secret_key user_secret_key id public_key =
      reject_if
        (not (
          gt_eq (pairing user_secret_key (Group.generator g2))
            (pairing (hash_to_g1 id) public_key)))
        invalid_input

  unfoldable pub verify_encrypted_signature :
      Encryption (Group.Element g1)
      → Group.Element g2
      → Group.Element g2
      → List U8
      → Outcome (Unit {0})
  verify_encrypted_signature encrypted_sig ephemeral_vk partial_pk id = do
    reject_if
        (Group.eq g1 encrypted_sig.first (Group.identity g1)
          || (Group.eq g1 encrypted_sig.second (Group.identity g1)
              || (Group.eq g2 ephemeral_vk (Group.identity g2)
                  || Group.eq g2 partial_pk (Group.identity g2))))
        invalid_input
    let lhs = pairing encrypted_sig.second (Group.generator g2)
    let rhs =
        gt_plus (pairing encrypted_sig.first ephemeral_vk) (pairing (hash_to_g1 id) partial_pk)
    reject_if (not (gt_eq lhs rhs)) invalid_input

  unfoldable pub verify_nonce : Scalar → Group.Element g2 → Outcome (Unit {0})
  verify_nonce randomness nonce =
      reject_if (not (Group.eq g2 (Group.times g2 (Group.generator g2) randomness) nonce))
        invalid_randomness

  unfoldable pub encrypt_randomness : Scalar → List U8 → List U8
  encrypt_randomness randomness key = xor key (scalar_to_bytes randomness)

  unfoldable pub decrypt_randomness : List U8 → List U8 → Outcome Scalar
  decrypt_randomness encrypted_randomness derived_key =
      scalar_from_bytes (xor derived_key encrypted_randomness)

  unfoldable pub create_proof_of_possession : Scalar → List U8 → Group.Element g1
  create_proof_of_possession master_key message =
      let public_key = public_key_from_master_key master_key in
      let full_msg = (dst_pop ++ bcs_g2 public_key) ++ message in
      Group.times g1 (hash_to_group_element full_msg) master_key

  module _ (c : Primitives) where
    open c use {sha3_256, hkdf_sha3_256}

    -- Key material, no salt, the index as info, 64 bytes.
    unfoldable pub derive_master_key : List U8 → ℕ → Scalar
    derive_master_key seed derivation_index =
        buffer_to_scalar_mod_r (hkdf_sha3_256 seed (to_be_bytes derivation_index))

    unfoldable pub kdf : Gt → Group.Element g2 → Group.Element g1 → Info → List U8
    kdf input nonce gid (object_id, index_byte) = sha3_256 (
        dst_kdf
        ++ (gt_to_bytes input
            ++ (Group.to_bytes g2 nonce
                ++ (Group.to_bytes g1 gid ++ (object_id ++ (index_byte ∷ []))))))

    -- The ciphertext at one position.
    unfoldable pub encrypt_one :
        Group.Element g1
        → Group.Element g1
        → Group.Element g2
        → List (List U8)
        → List (Group.Element g2)
        → List Info
        → ℕ
        → Outcome (List U8)
    encrypt_one gid gid_r nonce plaintexts public_keys infos i = do
      public_key ← index public_keys i
      info ← index infos i
      plaintext ← index plaintexts i
      ok (xor (kdf (pairing gid_r public_key) nonce gid info) plaintext)

    unfoldable pub encrypt_batched_deterministic :
        Scalar
        → List (List U8)
        → List (Group.Element g2)
        → List U8
        → List Info
        → Outcome (Group.Element g2 × List (List U8))
    encrypt_batched_deterministic randomness plaintexts public_keys id infos = do
      let batch_size = length plaintexts
      reject_if (not (batch_size == length public_keys) || not (batch_size == length infos))
          invalid_input
      let gid = hash_to_g1 id
      let gid_r = Group.times g1 gid randomness
      let nonce = Group.times g2 (Group.generator g2) randomness
      ciphertexts ←
          traverse (encrypt_one gid gid_r nonce plaintexts public_keys infos) (range 0 batch_size)
      ok (nonce, ciphertexts)

    unfoldable pub decrypt :
        Group.Element g2 → List U8 → Group.Element g1 → List U8 → Info → List U8
    decrypt nonce ciphertext secret_key id info =
        let gid = hash_to_g1 id in xor ciphertext (kdf (pairing secret_key nonce) nonce gid info)

    unfoldable pub decrypt_deterministic :
        Scalar → List U8 → Group.Element g2 → List U8 → Info → Outcome (List U8)
    decrypt_deterministic randomness ciphertext public_key id info =
        let gid = hash_to_g1 id in
        let gid_r = Group.times g1 gid randomness in
        let nonce = Group.times g2 (Group.generator g2) randomness in
        ok (xor ciphertext (kdf (pairing gid_r public_key) nonce gid info))
