-- ===== src/Aggregator.antt =====
-- crates/key-server/src/aggregator/utils.rs: the checks of a member's reply, and the aggregation of
-- the replies. A `HashMap` that is iterated is in the order of insertion.
pub mod Replies
pub mod Grouping
pub mod Shares
pub mod Opening
pub mod Server
use Prim.Native.String.{String}
use seal.Base.{
  ℕ, List, [], ◌∷◌, ◌++◌, Option, some, none, Table, get, put, Bytes, unique, same_set, U8, Outcome,
  ok, invalid_input, map, ◌>>=◌, ◌>>◌, reject_if, map_err, not, length, ◌==◌, traverse,
}
use seal.External.{Group, Bls12381}
use seal.Elgamal.{Encryption, aggregate_encrypted}
use seal.Ibe.{verify_encrypted_signature}
use seal.KeyServer.Errors.{InternalError, failure, Answer}
use seal.Sdk.{DecryptionKey, FetchKeyResponse}

abbrev pub wrong_number_of_keys : String
wrong_number_of_keys = "party {party_id} returned {} key(s), expected {}"

abbrev pub duplicate_key_ids : String
duplicate_key_ids = "duplicate key ids from party {party_id}"

abbrev pub unexpected_key_ids : String
unexpected_key_ids =
    "returned key ids did not match expected ids for party {party_id}: returned={seen_ids:?}, expected={expected_ids:?}"

abbrev pub verification_failed : String
verification_failed = "verification failed for party {party_id} key_id={}: {e}"

abbrev pub ids_in : {E : Type 0} → List (DecryptionKey E) → List Bytes
ids_in {E} = map (λ (dk : DecryptionKey E). dk.id)

module _ {E : Type 0} where
  -- `entry(id).or_default().push((party_id, encrypted_key))`
  unfoldable pub shares_at : Table (List (ℕ × Encryption E)) → Bytes → List (ℕ × Encryption E)
  shares_at table id = or_empty (get table id)
    where
      or_empty : Option (List (ℕ × Encryption E)) → List (ℕ × Encryption E)
      or_empty none = []
      or_empty (some shares) = shares

  abbrev pub push_share :
      ℕ → DecryptionKey E → Table (List (ℕ × Encryption E)) → Table (List (ℕ × Encryption E))
  push_share party_id dk table =
      put table dk.id (shares_at table dk.id ++ ((party_id, dk.encrypted_key) ∷ []))

  -- The loop over the keys of one reply.
  unfoldable pub group_reply :
      ℕ → List (DecryptionKey E) → Table (List (ℕ × Encryption E)) → Table (List (ℕ × Encryption E))
  group_reply party_id [] table = table
  group_reply party_id (dk ∷ dks) table = group_reply party_id dks (push_share party_id dk table)

  unfoldable pub group_replies :
      List (ℕ × FetchKeyResponse E)
      → Table (List (ℕ × Encryption E))
      → Table (List (ℕ × Encryption E))
  group_replies [] table = table
  group_replies ((party_id, response) ∷ responses) table =
      group_replies responses (group_reply party_id response.decryption_keys table)

  -- The body of the loop over the key ids.
  unfoldable pub aggregate_key :
      (ℕ → List (ℕ × E) → Outcome E)
      → ℕ
      → Bytes × List (ℕ × Encryption E)
      → Outcome (DecryptionKey E)
  aggregate_key recover_c0 threshold (key_id, encrypted_shares) = do
    aggregated_encrypted ← aggregate_encrypted recover_c0 threshold encrypted_shares
    ok (record { id = key_id; encrypted_key = aggregated_encrypted })

  unfoldable pub aggregate_verified_encrypted_responses :
      (ℕ → List (ℕ × E) → Outcome E)
      → ℕ
      → List (ℕ × FetchKeyResponse E)
      → Outcome (FetchKeyResponse E)
  aggregate_verified_encrypted_responses recover_c0 threshold responses = do
    reject_if (not (length responses == threshold)) invalid_input
    decryption_keys ← traverse (aggregate_key recover_c0 threshold) (group_replies responses [])
    ok (record { decryption_keys = decryption_keys })

module _ (b : Bls12381) where
  open b use {g1, g2}

  -- The loop over the keys.
  unfoldable pub verify_each :
      List (DecryptionKey (Group.Element g1))
      → Group.Element g2
      → Group.Element g2
      → Answer (Unit {0})
  verify_each [] partial_pk ephemeral_vk = ok tt
  verify_each (dk ∷ dks) partial_pk ephemeral_vk = do
    map_err (λ e. failure verification_failed)
        (verify_encrypted_signature b dk.encrypted_key ephemeral_vk partial_pk dk.id)
    verify_each dks partial_pk ephemeral_vk

  unfoldable pub verify_decryption_keys :
      List (DecryptionKey (Group.Element g1))
      → Group.Element g2
      → Group.Element g2
      → List Bytes
      → Answer (Unit {0})
  verify_decryption_keys decryption_keys partial_pk ephemeral_vk expected_full_ids = do
    reject_if (not (length decryption_keys == length expected_full_ids))
        (failure wrong_number_of_keys)
    let seen = unique (ids_in decryption_keys)
    reject_if (not (length seen == length decryption_keys)) (failure duplicate_key_ids)
    reject_if (not (same_set seen expected_full_ids)) (failure unexpected_key_ids)
    verify_each decryption_keys partial_pk ephemeral_vk
