-- ===== src/Sdk.antt =====
-- crates/seal-sdk/src: what a client signs, and how it opens the replies of the key servers and the
-- objects. A `HashMap` of public keys is a lookup.
pub mod Cache
pub mod Gathering
pub mod Opening
use seal.Base.{
  ◌>>=◌, ◌>>◌, ok_or, reject_if, ltb, length, [], ◌∷◌, List, Option, some, none, Table, get, put,
  U8, Outcome, ok, general_error, [], ◌∷◌,
}
use seal.External.{Group, Bls12381, Primitives}
use seal.Elgamal.{Encryption}
use seal.Elgamal as Elgamal
use seal.Ibe.{Info, verify_user_secret_key}
use seal.Seal.{EncryptedObject, create_full_id, seal_decrypt}

pub record DecryptionKey (E : Type 0) : Type 0 where
  pub id : List U8
  pub encrypted_key : Encryption E

pub record FetchKeyResponse (E : Type 0) : Type 0 where
  pub decryption_keys : List (DecryptionKey E)

-- `entry(id).or_default()`
abbrev pub or_default : {V : Type 0} → Option (Table V) → Table V
or_default none = []
or_default (some table) = table

module _ (b : Bls12381) where
  open b use {Scalar, g1, g2}

  -- The user secret keys: full id, then server.
  abbrev pub CachedKeys : Type 0
  CachedKeys = Table (Table (Group.Element g1))

  -- The key of one server for one id.
  abbrev pub cached : CachedKeys → List U8 → List U8 → Option (Group.Element g1)
  cached keys id server = get (or_default (get keys id)) server

  abbrev pub cache : CachedKeys → List U8 → List U8 → Group.Element g1 → CachedKeys
  cache keys id server usk = put keys id (put (or_default (get keys id)) server usk)

  -- The loop over the keys of one reply.
  unfoldable pub decrypt_reply :
      Scalar
      → List U8
      → Group.Element g2
      → List (DecryptionKey (Group.Element g1))
      → CachedKeys
      → Outcome CachedKeys
  decrypt_reply enc_secret server_id public_key [] keys = ok keys
  decrypt_reply enc_secret server_id public_key (decryption_key ∷ rest) keys = do
    let user_secret_key = Elgamal.decrypt g1 enc_secret decryption_key.encrypted_key
    verify_user_secret_key b user_secret_key decryption_key.id public_key
    decrypt_reply enc_secret server_id public_key rest
        (cache keys decryption_key.id server_id user_secret_key)

  unfoldable pub decrypt_replies :
      Scalar
      → List (List U8 × FetchKeyResponse (Group.Element g1))
      → (List U8 → Option (Group.Element g2))
      → CachedKeys
      → Outcome CachedKeys
  decrypt_replies enc_secret [] server_pk_map keys = ok keys
  decrypt_replies enc_secret ((server_id, seal_response) ∷ rest) server_pk_map keys = do
    public_key ← ok_or (server_pk_map server_id) general_error
    keys' ← decrypt_reply enc_secret server_id public_key seal_response.decryption_keys keys
    decrypt_replies enc_secret rest server_pk_map keys'

  unfoldable pub decrypt_seal_responses :
      Scalar
      → List (List U8 × FetchKeyResponse (Group.Element g1))
      → (List U8 → Option (Group.Element g2))
      → Outcome CachedKeys
  decrypt_seal_responses enc_secret seal_responses server_pk_map =
      decrypt_replies enc_secret seal_responses server_pk_map []

  -- `if let Some(key) = keys_for_id.get(id) { usks.insert(id, key) }`
  unfoldable pub insert_known :
      Table (Group.Element g1) → List U8 → Table (Group.Element g1) → Table (Group.Element g1)
  insert_known keys_for_id server_id usks = elim (get keys_for_id server_id) [
    | none ↦ usks
    | some user_secret_key ↦ put usks server_id user_secret_key
  ]

  -- The loop over the services: the keys at hand, and all the public keys in order.
  unfoldable pub gather :
      Table (Group.Element g1)
      → (List U8 → Option (Group.Element g2))
      → List Info
      → Table (Group.Element g1)
      → Outcome (Table (Group.Element g1) × List (Group.Element g2))
  gather keys_for_id server_pk_map [] usks = ok (usks, [])
  gather keys_for_id server_pk_map ((server_id, index) ∷ services) usks = do
    let usks' = insert_known keys_for_id server_id usks
    pk ← ok_or (server_pk_map server_id) general_error
    (all_usks, pks) ← gather keys_for_id server_pk_map services usks'
    ok (all_usks, pk ∷ pks)

  unfoldable pub seal_decrypt_object :
      (c : Primitives)
      → EncryptedObject b
      → CachedKeys
      → (List U8 → Option (Group.Element g2))
      → Outcome (List U8)
  seal_decrypt_object c encrypted_object cached_keys server_pk_map = do
    let full_id = create_full_id encrypted_object.package_id encrypted_object.id
    keys_for_id ← ok_or (get cached_keys full_id) general_error
    (usks, pks) ← gather keys_for_id server_pk_map encrypted_object.services []
    reject_if (ltb (length usks) encrypted_object.threshold.val) general_error
    seal_decrypt b c encrypted_object (get usks) (some pks)
