-- ===== src/Tests/Sealing.antt =====
-- Sealing for three servers of which two have given their keys, and the pieces of it.
use seal.Base.{
  ℕ, zero, suc, ◌≡◌, ◌↔◌, refl, sym, subst, List, [], ◌∷◌, map, range, Elem, inl, inr, Option, none,
  some, U8, u8, Bool, true, false, ok, arith,
}
use seal.Tests.Toy.{curve, hashes, counter, two}
use seal.Elgamal.{Encryption, public_key}
use seal.Elgamal as Elgamal
use seal.Elgamal.Inverse as Inverse
use seal.Ibe.{
  extract, hash_to_g1, public_key_from_master_key, verify_user_secret_key,
  verify_encrypted_signature,
}
use seal.Ibe.Keys.{
  NoIdentity, verify_user_secret_key-iff-extract, verify_encrypted_signature-iff-decrypt,
}
use seal.Dem.{EncryptionInput}
use seal.Dem.Hmac256Ctr as Ctr
use seal.Dem.Hmac256Ctr.Inverse.{decrypt-iff-encrypt}
use seal.Dem.RoundTrip.{payload}
use seal.Seal.{EncryptedObject, create_full_id, seal_encrypt, seal_decrypt}
use seal.Seal.Rows.{Server, ids_of, keys_of}
use seal.Seal.RoundTrip.{seal_decrypt-seal_encrypt}

abbrev servers : List (Server curve)
servers =
    record { object_id = u8 0 ∷ []; master_key = true }
    ∷ record { object_id = u8 1 ∷ []; master_key = false }
    ∷ record { object_id = u8 2 ∷ []; master_key = true }
    ∷ []

-- The first two servers have given the user a key.
abbrev key_at : ℕ → Option Bool
key_at zero = some true
key_at (suc zero) = some false
key_at (suc (suc n)) = none

abbrev user_keys : List U8 → Option Bool
user_keys [] = none
user_keys (x ∷ xs) = key_at x.val

package_id : List U8
package_id = map u8 (range 10 32)

abbrev inner_id : List U8
inner_id = u8 1 ∷ u8 2 ∷ []

abbrev message : EncryptionInput
message = EncryptionInput.hmac256_ctr (map u8 (range 0 40)) (some (u8 9 ∷ []))

some-injective : (a c : Bool) → some a ≡ some c → c ≡ a
some-injective false false e = refl
some-injective false true e = cc
some-injective true false e = cc
some-injective true true e = refl

genuine :
    (v : Server curve)
    → Elem v servers
    → (usk : Bool) → user_keys v.object_id ≡ some usk
    → usk ≡ extract curve v.master_key (create_full_id package_id inner_id)
unfolding extract hash_to_g1
genuine v (inl e) usk h =
    subst (λ (w : Server curve). user_keys w.object_id ≡ some usk → usk ≡ w.master_key) (sym e)
      (some-injective true usk) h
genuine v (inr (inl e)) usk h =
    subst (λ (w : Server curve). user_keys w.object_id ≡ some usk → usk ≡ w.master_key) (sym e)
      (some-injective false usk) h
genuine v (inr (inr (inl e))) usk h =
    subst (λ (w : Server curve). user_keys w.object_id ≡ some usk → usk ≡ w.master_key) (sym e)
      no_key h
  where
    no_key : none ≡ some usk → usk ≡ true
    no_key p = cc
genuine v (inr (inr (inr m))) usk h = absurd m

seal_decrypt-seal_encrypt_example :
    (object : EncryptedObject curve) × (key : List U8) × (seal_encrypt curve hashes counter 5
        package_id inner_id
        (ids_of curve hashes servers)
        (keys_of curve hashes servers)
        (u8 2)
        message
      ≡ ok (object, key))
    × (seal_decrypt curve hashes object user_keys (some (keys_of curve hashes servers))
        ≡ ok (payload message key))
seal_decrypt-seal_encrypt_example =
    seal_decrypt-seal_encrypt curve hashes counter 5 package_id inner_id servers (u8 2) message
      user_keys (some (keys_of curve hashes servers)) (omega arith) (omega arith) (omega arith)
      (inr refl) genuine (omega arith)

decrypt-iff-encrypt_example :
    Ctr.decrypt hashes
      (Ctr.encrypt hashes inner_id (u8 9 ∷ []) package_id).0
      (Ctr.encrypt hashes inner_id (u8 9 ∷ []) package_id).1
      (u8 9 ∷ [])
      package_id
    ≡ ok inner_id
decrypt-iff-encrypt_example =
    (decrypt-iff-encrypt hashes package_id (Ctr.encrypt hashes inner_id (u8 9 ∷ []) package_id).0
        (Ctr.encrypt hashes inner_id (u8 9 ∷ []) package_id).1 (u8 9 ∷ []) inner_id).1
      refl

verify_user_secret_key-iff-extract_example :
    verify_user_secret_key curve true inner_id (public_key_from_master_key curve true) ≡ ok tt
unfolding extract hash_to_g1
verify_user_secret_key-iff-extract_example =
    (verify_user_secret_key-iff-extract curve true inner_id true).1 refl

abbrev share_for_all : Encryption Bool
share_for_all = record { first = true; second = false }

verify_encrypted_signature-iff-decrypt_example :
    (verify_encrypted_signature curve share_for_all
        (public_key two true)
        (public_key_from_master_key curve true)
        inner_id
      ≡ ok tt)
    ↔ (NoIdentity curve share_for_all (public_key two true) (public_key_from_master_key curve true)
        × (Elgamal.decrypt two true share_for_all ≡ extract curve true inner_id))
verify_encrypted_signature-iff-decrypt_example =
    verify_encrypted_signature-iff-decrypt curve true true inner_id share_for_all

decrypt-encrypt_example :
    Elgamal.decrypt two true (Elgamal.encrypt two true false (public_key two true)) ≡ false
decrypt-encrypt_example = Inverse.decrypt-encrypt two true true false
