-- ===== src/Seal.antt =====
-- crates/crypto/src/lib.rs: encryption of an object for a threshold of key servers, and decryption
-- with user secret keys. The curve, the hashes and the random number generator are parameters.
pub mod Rows
pub mod Opening
pub mod Consistency
pub mod RoundTrip
use seal.Base.{
  ℕ, ◌≤◌, ◌≡◌, List, [], ◌∷◌, ◌++◌, map, length, filter, enumerate, zip, flat_map, Option, none,
  some, U8, u8, bytes_eq, Bool, true, false, not, ◌||◌, ◌==◌, ltb, if◌then◌else◌, Outcome, ok,
  panic, expect_some, invalid_input, inconsistent_shares, reject_if, traverse, ◌>>=◌, ◌>>◌,
}
use seal.External.{Group, Bls12381, Primitives}
use seal.Gf256.{Gf256}
use seal.Utils.{index}
use seal.Tss.{Share, SecretSharing, split, combine, interpolate}
use seal.Ibe.{
  Info, encrypt_batched_deterministic, encrypt_randomness, decrypt_randomness, verify_nonce,
  decrypt_deterministic,
}
use seal.Ibe as Ibe
use seal.Dem.{EncryptionInput, Ciphertext}
use seal.Dem as Dem

-- b"SUI-SEAL-IBE-BLS12381-H3-00"
abbrev pub dst_derive_key : List U8
dst_derive_key = map u8 (
    83 ∷ 85 ∷ 73 ∷ 45 ∷ 83 ∷ 69 ∷ 65 ∷ 76 ∷ 45 ∷ 73 ∷ 66 ∷ 69 ∷ 45 ∷ 66 ∷ 76 ∷ 83 ∷ 49 ∷ 50 ∷ 51
    ∷ 56 ∷ 49 ∷ 45 ∷ 72 ∷ 51 ∷ 45 ∷ 48 ∷ 48 ∷ [])

pub data KeyPurpose : Type 0 where
  encrypted_randomness dem : KeyPurpose

abbrev pub tag : KeyPurpose → List U8
tag encrypted_randomness = u8 0 ∷ []
tag dem = u8 1 ∷ []

unfoldable pub create_full_id : List U8 → List U8 → List U8
create_full_id package_id id = package_id ++ id

-- `IBEEncryptions::BonehFranklinBLS12381`
pub record IbeEncryptions (b : Bls12381) : Type 0 where
  pub nonce : Group.Element (Bls12381.g2 b)
  pub encrypted_shares : List (List U8)
  pub encrypted_randomness : List U8

pub record EncryptedObject (b : Bls12381) : Type 0 where
  pub version : U8
  pub package_id : List U8
  pub id : List U8
  pub services : List Info
  pub threshold : U8
  pub encrypted_shares : IbeEncryptions b
  pub ciphertext : Ciphertext

-- What the program draws from its random number generator.
pub record Rng (b : Bls12381) : Type 1 where
  pub State : Type 0
  pub gf256_rand : State → Gf256 × State
  pub scalar_rand : State → Bls12381.Scalar b × State
  -- `generate_random_bytes::<32>`
  pub random_bytes : State → List U8 × State
  pub length-random_bytes : (s : State) → length (random_bytes s).0 ≡ 32

-- `user_secret_keys.contains_key(id)`
abbrev pub contains_key : {V : Type 0} → (List U8 → Option V) → List U8 → Bool
contains_key keys id = elim (keys id) [ none ↦ false | some v ↦ true ]

module _ (b : Bls12381) (c : Primitives) where
  open b use {Scalar, g1, g2}
  open c use {sha3_256}

  -- The digest that `derive_key` returns.
  unfoldable pub key_digest : KeyPurpose → List U8 → List (List U8) → U8 → List (List U8) → List U8
  key_digest purpose base_key encrypted_shares threshold key_servers = sha3_256 (
      dst_derive_key
      ++ (base_key
          ++ (tag purpose
              ++ ((threshold ∷ [])
                  ++ (flat_map (λ s. s) encrypted_shares ++ flat_map (λ s. s) key_servers)))))

  unfoldable pub derive_key :
      KeyPurpose → List U8 → List (List U8) → U8 → List (List U8) → Outcome (List U8)
  derive_key purpose base_key encrypted_shares threshold key_servers =
      if length encrypted_shares == length key_servers
      then ok (key_digest purpose base_key encrypted_shares threshold key_servers)
      else panic

  unfoldable pub seal_encrypt :
      (g : Rng b)
      → Rng.State g
      → List U8
      → List U8
      → List (List U8)
      → List (Group.Element g2)
      → U8
      → EncryptionInput
      → Outcome (EncryptedObject b × List U8)
  seal_encrypt g rng package_id id key_servers pks threshold encryption_input = do
    let number_of_shares = u8 (length key_servers)
    reject_if (ltb number_of_shares.val threshold.val || threshold.val == 0) invalid_input
    let full_id = create_full_id package_id id
    let base = Rng.random_bytes g rng
    sharing ← split (Rng.gf256_rand g) 32 base.1 base.0 threshold number_of_shares
    let services = zip key_servers sharing.0.indices
    reject_if (not (length pks == number_of_shares.val)) invalid_input
    let randomness = (Rng.scalar_rand g sharing.1).0
    batch ← encrypt_batched_deterministic b c randomness sharing.0.shares pks full_id services
    randomness_key ← derive_key encrypted_randomness base.0 batch.1 threshold key_servers
    dem_key ← derive_key dem base.0 batch.1 threshold key_servers
    ok (
      record {
        version = u8 0;
        package_id = package_id;
        id = id;
        services = services;
        threshold = threshold;
        encrypted_shares = record {
          nonce = batch.0;
          encrypted_shares = batch.1;
          encrypted_randomness = encrypt_randomness b randomness randomness_key;
        };
        ciphertext = Dem.encrypt c encryption_input dem_key;
      },
      dem_key,
    )

  -- The positions of the services whose user secret key is there.
  unfoldable pub service_indices : (List U8 → Option (Group.Element g1)) → List Info → List ℕ
  service_indices user_secret_keys services =
      map (λ (p : ℕ × Info). p.0)
        (filter (λ (p : ℕ × Info). contains_key user_secret_keys p.1.0) (enumerate 0 services))

  -- The share of the service at position `i`, with its index.
  unfoldable pub decrypt_share :
      (List U8 → Option (Group.Element g1)) → EncryptedObject b → List U8 → ℕ → Outcome Share
  decrypt_share user_secret_keys object full_id i = do
    service ← index object.services i
    encrypted_share ← index object.encrypted_shares.encrypted_shares i
    key ← expect_some (user_secret_keys service.0)
    ok (
      service.1,
      Ibe.decrypt b c object.encrypted_shares.nonce encrypted_share key full_id
          (service.0, service.1),
    )

  unfoldable pub combine_and_verify_nonce :
      IbeEncryptions b → List Share → List Info → U8 → Outcome (List U8)
  combine_and_verify_nonce e shares services threshold = do
    base_key ← combine 32 shares
    randomness_key ←
        derive_key encrypted_randomness base_key e.encrypted_shares threshold
          (map (λ (s : Info). s.0) services)
    randomness ← decrypt_randomness b e.encrypted_randomness randomness_key
    verify_nonce b randomness e.nonce
    ok base_key

  -- The share that one public key and one service's ciphertext give.
  unfoldable pub recover_share :
      Scalar → List U8 → (Group.Element g2 × List U8) × Info → Outcome Share
  recover_share randomness full_id ((pk, ciphertext), service) = do
    plaintext ← decrypt_deterministic b c randomness ciphertext pk full_id service
    ok (service.1, plaintext)

  unfoldable pub decrypt_all_shares_and_verify_nonce :
      IbeEncryptions b
      → List U8
      → List Info
      → List (Group.Element g2)
      → List U8
      → U8
      → Outcome (List Share)
  decrypt_all_shares_and_verify_nonce e full_id services public_keys base_key threshold = do
    randomness_key ←
        derive_key encrypted_randomness base_key e.encrypted_shares threshold
          (map (λ (s : Info). s.0) services)
    randomness ← decrypt_randomness b e.encrypted_randomness randomness_key
    verify_nonce b randomness e.nonce
    reject_if (not (length public_keys == length e.encrypted_shares)) invalid_input
    traverse (recover_share randomness full_id) (zip (zip public_keys e.encrypted_shares) services)

  -- `any(|(i, share)| polynomial(i) != share)`
  unfoldable pub any_off : (U8 → List U8) → List Share → Bool
  any_off polynomial [] = false
  any_off polynomial ((i, share) ∷ shares) =
      not (bytes_eq (polynomial i) share) || any_off polynomial shares

  unfoldable pub combine_and_check_share_consistency :
      IbeEncryptions b
      → List Share
      → List U8
      → List Info
      → U8
      → List (Group.Element g2)
      → Outcome (List U8)
  combine_and_check_share_consistency e shares full_id services threshold public_keys = do
    polynomial ← interpolate 32 shares
    let base_key = polynomial (u8 0)
    all_shares ←
        decrypt_all_shares_and_verify_nonce e full_id services public_keys base_key threshold
    reject_if (any_off polynomial all_shares) inconsistent_shares
    ok base_key

  -- The base key, checked against all the shares if there are public keys.
  unfoldable pub recover_base_key :
      EncryptedObject b
      → List U8
      → List Share
      → Option (List (Group.Element g2))
      → Outcome (List U8)
  recover_base_key object full_id shares none =
      combine_and_verify_nonce object.encrypted_shares shares object.services object.threshold
  recover_base_key object full_id shares (some public_keys) =
      combine_and_check_share_consistency object.encrypted_shares shares full_id object.services
        object.threshold public_keys

  unfoldable pub seal_decrypt :
      EncryptedObject b
      → (List U8 → Option (Group.Element g1))
      → Option (List (Group.Element g2))
      → Outcome (List U8)
  seal_decrypt object user_secret_keys public_keys = do
    reject_if (not (object.version.val == 0)) invalid_input
    let full_id = create_full_id object.package_id object.id
    reject_if (not (length object.encrypted_shares.encrypted_shares == length object.services))
        invalid_input
    let positions = service_indices user_secret_keys object.services
    reject_if (ltb (length positions) object.threshold.val) invalid_input
    shares ← traverse (decrypt_share user_secret_keys object full_id) positions
    base_key ← recover_base_key object full_id shares public_keys
    dem_key ←
        derive_key dem base_key object.encrypted_shares.encrypted_shares object.threshold
          (map (λ (s : Info). s.0) object.services)
    Dem.decrypt c object.ciphertext dem_key
