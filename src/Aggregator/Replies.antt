-- ===== src/Aggregator/Replies.antt =====
-- Which replies of a committee member the aggregator accepts.
use seal.Base.{
  ◌≡◌, ◌↔◌, List, [], ◌∷◌, Bytes, AreDistinct, unique, same_set, Elem, All, ok, >>=-ok, length-map,
  same_set_iff, map_err-ok, unique-Distinct, refl, reject_if-ok, ◌==◌, Bool, length-unique_iff,
  false, arith, true, Elem-unique_iff, length-covered, ==_iff,
}
use seal.External.{Group, Bls12381}
use seal.Elgamal.{Encryption, public_key}
use seal.Elgamal as Elgamal
use seal.Ibe.{extract, public_key_from_master_key, verify_encrypted_signature}
use seal.Ibe.Keys.{NoIdentity, verify_encrypted_signature-iff-decrypt}
use seal.Sdk.{DecryptionKey}
use seal.KeyServer.Errors.{failure}
use seal.Aggregator.{
  ids_in, verify_each, verify_decryption_keys, verification_failed, wrong_number_of_keys,
  duplicate_key_ids, unexpected_key_ids, map_err, not, length,
}

not-not : (t : Bool) → not t ≡ false → t ≡ true
not-not t h = ground (arith, h)

module _ (b : Bls12381) where
  open b use {Scalar, g1, g2}

  -- The share opens, with the ephemeral secret key, to the key that the member's master share extracts.
  abbrev pub OpensTo : Scalar → Scalar → DecryptionKey (Group.Element g1) → Type 0
  OpensTo sk master_share dk =
      NoIdentity b dk.encrypted_key (public_key g2 sk) (public_key_from_master_key b master_share)
      × (Elgamal.decrypt g1 sk dk.encrypted_key ≡ extract b master_share dk.id)

  verify_each_iff :
      (sk master_share : Scalar) (dks : List (DecryptionKey (Group.Element g1)))
      → (verify_each b dks (public_key_from_master_key b master_share) (public_key g2 sk) ≡ ok tt)
        ↔ All (OpensTo sk master_share) dks
  unfolding verify_each
  verify_each_iff sk master_share [] = ((λ h. tt), λ h. refl)
  verify_each_iff sk master_share (dk ∷ dks) =
      let call =
        verify_encrypted_signature b dk.encrypted_key (public_key g2 sk)
          (public_key_from_master_key b master_share) dk.id in
      let one = verify_encrypted_signature-iff-decrypt b sk master_share dk.id dk.encrypted_key in
      let rest = verify_each_iff sk master_share dks in
      (
        λ h.
            let (done, passes, h1) = >>=-ok (map_err (λ e. failure verification_failed) call) _ h in
            (one.0 (map_err-ok (λ e. failure verification_failed) call passes), rest.0 h1),
        λ all. rw (one.1 all.0, rest.1 all.1) refl,
      )

  -- For a set of expected ids, a member with a master share, and an ephemeral key pair: a reply is
  -- accepted exactly when its key ids are different and are the expected ones, no part of a key is
  -- the identity, and every key opens, with the ephemeral secret key, to what the master share
  -- extracts for its id.
  pub verify_decryption_keys_iff :
      (sk master_share : Scalar) (dks : List (DecryptionKey (Group.Element g1)))
      (expected : List Bytes)
      → AreDistinct expected
      → (verify_decryption_keys b dks
            (public_key_from_master_key b master_share)
            (public_key g2 sk)
            expected
          ≡ ok tt)
        ↔ (AreDistinct (ids_in dks)
            × ((id : Bytes) → Elem id (ids_in dks) ↔ Elem id expected)
            × All (OpensTo sk master_share) dks)
  unfolding verify_decryption_keys
  verify_decryption_keys_iff sk master_share dks expected distinct =
      let seen = unique (ids_in dks) in
      let size = length-map (λ (dk : DecryptionKey (Group.Element g1)). dk.id) dks in
      let each = verify_each_iff sk master_share dks in
      let same = same_set_iff seen expected (unique-Distinct (ids_in dks)) distinct in
      (
        λ h.
            let (number, h1) =
              reject_if-ok (not (length dks == length expected)) (failure wrong_number_of_keys) _
                h in
            let (once, h2) =
              reject_if-ok (not (length seen == length dks)) (failure duplicate_key_ids) _ h1 in
            let (equal, h3) =
              reject_if-ok (not (same_set seen expected)) (failure unexpected_key_ids) _ h2 in
            let members = same.0 (not-not (same_set seen expected) equal) in
            (
              (length-unique_iff (ids_in dks)).0 (ground (arith, once, size)),
              λ id.
                  let both = Elem-unique_iff (ids_in dks) id in
                  ((λ m. (members id).0 (both.1 m)), λ m. both.0 ((members id).1 m)),
              each.0 h3,
            ),
        λ (once, members, opens).
            let members' : (id : Bytes) → Elem id seen ↔ Elem id expected = λ id.
              let both = Elem-unique_iff (ids_in dks) id in
              ((λ m. (members id).0 (both.0 m)), λ m. both.1 ((members id).1 m)) in
            let number = (length-unique_iff (ids_in dks)).1 once in
            let one =
              length-covered seen expected (unique-Distinct (ids_in dks)) (λ id. (members' id).0) in
            let two = length-covered expected seen distinct (λ id. (members' id).1) in
            let as_many : (length dks == length expected) ≡ true =
              (==_iff (length dks) (length expected)).1 (omega (arith, size, number, one, two)) in
            let all_once : (length seen == length dks) ≡ true =
              (==_iff (length seen) (length dks)).1 (omega (arith, size, number)) in
            rw (as_many, all_once, same.1 members', each.1 opens) refl,
      )
