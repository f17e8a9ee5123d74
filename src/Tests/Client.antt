-- ===== src/Tests/Client.antt =====
-- A client with the replies of two of three servers.
use seal.Base.{
  ℕ, zero, suc, ◌≡◌, refl, List, [], ◌∷◌, Bytes, U8, u8, Bool, true, false, ok, arith, Option, none,
  some, get, put, bytes_eq, ◌≤◌, length, filter, All, map,
}
use seal.Tests.Toy.{curve, hashes, counter, two}
use seal.Elgamal as Elgamal
use seal.Ibe.{hash_to_g1, public_key_from_master_key, verify_user_secret_key, extract}
use seal.Dem.{EncryptionInput}
use seal.Dem.RoundTrip.{payload}
use seal.Seal.{EncryptedObject, create_full_id, seal_encrypt, contains_key}
use seal.Seal.Rows.{Server, ids_of, keys_of}
use seal.Elgamal.{public_key}
use seal.KeyServer.MasterKeys.{MasterKeys, get_key_for_package}
use seal.KeyServer.Requests.{create_response, decryption_key}
use seal.KeyServer.Requests.Responses.{decrypt_seal_responses-create_response}
use seal.Sdk.{
  FetchKeyResponse, CachedKeys, cached, decrypt_seal_responses, decrypt_replies, decrypt_reply,
  seal_decrypt_object,
}
use seal.Sdk.Cache.{decrypt_seal_responses-AreVerified}
use seal.Sdk.Opening.{seal_decrypt_object-seal_encrypt}

abbrev servers : List (Server curve)
servers =
    record { object_id = u8 0 ∷ []; master_key = true }
    ∷ record { object_id = u8 1 ∷ []; master_key = false }
    ∷ record { object_id = u8 2 ∷ []; master_key = true }
    ∷ []

abbrev key_at : ℕ → Option Bool
key_at zero = some true
key_at (suc zero) = some false
key_at (suc (suc n)) = some true

abbrev public_keys : Bytes → Option Bool
public_keys [] = none
public_keys (x ∷ xs) = key_at x.val

abbrev package_id : Bytes
package_id = u8 9 ∷ []

abbrev inner_id : Bytes
inner_id = u8 4 ∷ []

abbrev full_id : Bytes
full_id = u8 9 ∷ u8 4 ∷ []

abbrev message : EncryptionInput
message = EncryptionInput.aes256_gcm (u8 1 ∷ u8 2 ∷ []) none

abbrev reply_with : Bool → FetchKeyResponse Bool
reply_with second = record {
  decryption_keys =
      record { id = full_id; encrypted_key = record { first = true; second = second } } ∷ [];
}

abbrev replies : List (Bytes × FetchKeyResponse Bool)
replies = (u8 0 ∷ [], reply_with false) ∷ (u8 1 ∷ [], reply_with true) ∷ []

abbrev keys : CachedKeys curve
keys = (full_id, (u8 0 ∷ [], true) ∷ (u8 1 ∷ [], false) ∷ []) ∷ []

accepted : decrypt_seal_responses curve true replies public_keys ≡ ok keys
unfolding decrypt_seal_responses decrypt_replies decrypt_reply verify_user_secret_key get put
    Elgamal.decrypt hash_to_g1 bytes_eq
accepted = refl

enough :
    2
    ≤ length (
        filter
          (λ (v : Server curve).
            contains_key (cached curve keys (create_full_id package_id inner_id)) v.object_id)
          servers)
unfolding get create_full_id bytes_eq
enough = omega arith

seal_decrypt_object-seal_encrypt_example :
    (object : EncryptedObject curve) × (key : List U8) × (seal_encrypt curve hashes counter 5
        package_id inner_id
        (ids_of curve hashes servers)
        (keys_of curve hashes servers)
        (u8 2)
        message
      ≡ ok (object, key))
    × (seal_decrypt_object curve hashes object keys public_keys ≡ ok (payload message key))
unfolding public_key_from_master_key
seal_decrypt_object-seal_encrypt_example =
    seal_decrypt_object-seal_encrypt curve hashes counter 5 package_id inner_id servers (u8 2)
      message true public_keys replies keys (omega arith) (omega arith) (omega arith)
      (((λ e. cc e), ((λ e. cc e), tt)), (((λ e. cc e), tt), (tt, tt))) (refl, (refl, (refl, tt)))
      accepted enough

decrypt_seal_responses-AreVerified_example :
    (pk : Bool) × (public_keys (u8 1 ∷ []) ≡ some pk)
    × (verify_user_secret_key curve false full_id pk ≡ ok tt)
unfolding get bytes_eq
decrypt_seal_responses-AreVerified_example =
    decrypt_seal_responses-AreVerified curve true public_keys replies keys full_id (u8 1 ∷ []) false
      accepted refl

-- All the servers have this master key.
abbrev requests : List (Bytes × List (Bytes × Bool))
requests = (u8 0 ∷ [], (full_id, true) ∷ []) ∷ (u8 2 ∷ [], (full_id, false) ∷ []) ∷ []

decrypt_seal_responses-create_response_example :
    (keys : CachedKeys curve) × All
      (λ (q : Bytes × List (Bytes × Bool)).
        create_response curve (MasterKeys.open_mode true) package_id q.1 (public_key two true)
        ≡ ok (record {
          decryption_keys = map (decryption_key curve true (public_key two true)) q.1;
        }))
      requests
    × (decrypt_seal_responses curve true
          (map
            (λ (q : Bytes × List (Bytes × Bool)). (
              q.0,
              record {
                decryption_keys = map (decryption_key curve true (public_key two true)) q.1;
              },
            ))
            requests)
          public_keys
        ≡ ok keys)
    × All
        (λ (q : Bytes × List (Bytes × Bool)).
          All (λ (i : Bytes × Bool). cached curve keys i.0 q.0 ≡ some (extract curve true i.0)) q.1)
        requests
unfolding public_key_from_master_key get_key_for_package
decrypt_seal_responses-create_response_example =
    decrypt_seal_responses-create_response curve true (λ server. true) public_keys
      (λ server. MasterKeys.open_mode true) package_id requests (refl, (refl, tt))
      (refl, (refl, tt))
