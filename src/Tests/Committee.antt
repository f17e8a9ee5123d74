-- ===== src/Tests/Committee.antt =====
-- Two members of a committee whose master shares add up, and their replies.
use seal.Base.{
  ◌+◌, ◌<◌, ◌≤◌, inl, inr, sym, ◌∙◌, map, length, Distinct, Option, some, none, err, ℕ, zero, suc,
  ◌≡◌, ◌↔◌, refl, List, [], ◌∷◌, Bytes, AreDistinct, Elem, All, u8, true, false, ok, arith, unique,
  same_set, ◌<◌, all_in, ◌≤◌, has, ◌≢◌, bytes_eq, Distinct,
}
use seal.External.{Group, Recovery, combine}
use seal.Tests.Square.{Pair, square, four, sum_up}
use seal.Elgamal.{Encryption, public_key, aggregate_encrypted, collect_shares}
use seal.Elgamal as Elgamal
use seal.Elgamal.Aggregation.{decrypted, indices, decrypt-aggregate_encrypted}
use seal.Elgamal.Refusal.{aggregate_encrypted-Distinct}
use seal.Ibe.{extract, public_key_from_master_key, verify_encrypted_signature, hash_to_g1}
use Prim.Native.String.{String}
use seal.Tests.Requests.{web}
use seal.KeyServer.Errors.{ErrorResponse}
use seal.KeyServer.Common.{rust, from_header, from_text}
use seal.Aggregator.Server.{Relayed, validate_client_sdk_headers, validate_client_sdk_version}
use seal.Aggregator.Server.Collection.{successes}
use seal.Aggregator.Server.Requests.{Member, HttpReply, member_task, handle_fetch_key}
use seal.Aggregator.Server.Handling.{OpensAll, handle_fetch_key-OpensAll}
use seal.Sdk.{DecryptionKey, FetchKeyResponse}
use seal.Aggregator.{
  ids_in, verify_decryption_keys, verify_each, aggregate_verified_encrypted_responses,
}
use seal.Aggregator.Replies.{OpensTo, verify_decryption_keys_iff}
use seal.Aggregator.Opening.{decrypt-aggregate_verified_encrypted_responses}

abbrev secret : Pair
secret = (true, false)

abbrev master : Pair
master = (true, false)

abbrev share_of : ℕ → Pair
share_of zero = (false, true)
share_of (suc n) = (true, true)

abbrev key_id : Bytes
key_id = u8 5 ∷ []

abbrev reply_with : Pair → FetchKeyResponse Pair
reply_with second = record {
  decryption_keys =
      record { id = key_id; encrypted_key = record { first = (true, true); second = second } } ∷ [];
}

abbrev first_reply : FetchKeyResponse Pair
first_reply = reply_with (true, true)

abbrev second_reply : FetchKeyResponse Pair
second_reply = reply_with (false, true)

abbrev replies : List (ℕ × FetchKeyResponse Pair)
replies = (0, first_reply) ∷ (1, second_reply) ∷ []

accepted_first :
    verify_decryption_keys square first_reply.decryption_keys
      (public_key_from_master_key square (share_of 0))
      (public_key four secret)
      (key_id ∷ [])
    ≡ ok tt
unfolding verify_decryption_keys verify_each verify_encrypted_signature hash_to_g1 public_key
    public_key_from_master_key unique same_set all_in has bytes_eq
accepted_first = refl

accepted_second :
    verify_decryption_keys square second_reply.decryption_keys
      (public_key_from_master_key square (share_of 1))
      (public_key four secret)
      (key_id ∷ [])
    ≡ ok tt
unfolding verify_decryption_keys verify_each verify_encrypted_signature hash_to_g1 public_key
    public_key_from_master_key unique same_set all_in has bytes_eq
accepted_second = refl

add_up :
    (p : Pair)
    → combine four
        (λ i. (true, true))
        ((1, Group.times four p (share_of 0)) ∷ (2, Group.times four p (share_of 1)) ∷ [])
      ≡ Group.times four p master
add_up (false, false) = refl
add_up (false, true) = refl
add_up (true, false) = refl
add_up (true, true) = refl

decrypt-aggregate_verified_encrypted_responses_example :
    (reply : FetchKeyResponse Pair) × (aggregate_verified_encrypted_responses
        (Recovery.recover_c0 sum_up)
        2
        replies
      ≡ ok reply)
    × AreDistinct (ids_in reply.decryption_keys)
    × ((id : Bytes) → Elem id (ids_in reply.decryption_keys) ↔ Elem id (key_id ∷ []))
    × All
        (λ (dk : DecryptionKey Pair).
          Elgamal.decrypt four secret dk.encrypted_key ≡ extract square master dk.id)
        reply.decryption_keys
decrypt-aggregate_verified_encrypted_responses_example =
    decrypt-aggregate_verified_encrypted_responses square secret share_of sum_up master 2
      (key_id ∷ []) replies add_up (omega arith) (omega arith) refl (omega arith, (omega arith, tt))
      ((λ e. absurd (omega (arith, e)), tt), (tt, tt)) (tt, tt)
      (accepted_first, (accepted_second, tt))

verify_decryption_keys_iff_example :
    (verify_decryption_keys square first_reply.decryption_keys
        (public_key_from_master_key square (share_of 0))
        (public_key four secret)
        (key_id ∷ [])
      ≡ ok tt)
    ↔ (AreDistinct (ids_in first_reply.decryption_keys)
        × ((id : Bytes) → Elem id (ids_in first_reply.decryption_keys) ↔ Elem id (key_id ∷ []))
        × All (OpensTo square secret (share_of 0)) first_reply.decryption_keys)
verify_decryption_keys_iff_example =
    verify_decryption_keys_iff square secret (share_of 0) first_reply.decryption_keys (key_id ∷ [])
      (tt, tt)

abbrev shares : List (ℕ × Encryption Pair)
shares =
    (4, record { first = (true, true); second = (true, false) })
    ∷ (7, record { first = (false, true); second = (true, true) })
    ∷ []

decrypt-aggregate_encrypted_example :
    (e : Encryption Pair) × (aggregate_encrypted (Recovery.recover_c0 sum_up) 2 shares ≡ ok e)
    × (Elgamal.decrypt four secret e
        ≡ combine four
            (Recovery.coefficient sum_up (indices four shares))
            (decrypted four secret shares))
decrypt-aggregate_encrypted_example =
    decrypt-aggregate_encrypted four sum_up secret 2 shares (omega arith) (omega arith) refl
      (omega arith, (omega arith, tt)) ((λ e. absurd (omega (arith, e)), tt), (tt, tt))

aggregate_encrypted-Distinct_example :
    (0 < 2)
    × (2 ≤ 2)
    × (2 ≤ 65535)
    × All (λ (s : ℕ × Encryption Pair). s.0 ≢ 65535) shares
    × Distinct (λ (s : ℕ × Encryption Pair). s.0) shares
unfolding aggregate_encrypted collect_shares
aggregate_encrypted-Distinct_example =
    aggregate_encrypted-Distinct (Recovery.recover_c0 sum_up) 2 shares
      (record {
        first = combine four (λ i. (true, true)) ((5, (true, true)) ∷ (8, (false, true)) ∷ []);
        second = combine four (λ i. (true, true)) ((5, (true, false)) ∷ (8, (true, true)) ∷ []);
      })
      refl

recombine :
    (parties : List ℕ)
    → length parties ≡ 2
    → Distinct (λ (i : ℕ). i) parties
    → All (λ i. Elem i (0 ∷ 1 ∷ [])) parties
    → (p : Pair)
    → combine four (λ i. (true, true)) (map (λ i. (i + 1, Group.times four p (share_of i))) parties)
      ≡ Group.times four p master
recombine [] h d m p = absurd (omega (arith, h))
recombine (a ∷ []) h d m p = absurd (omega (arith, h))
recombine (a ∷ c ∷ e ∷ rest) h d m p = absurd (omega (arith, h))
recombine (a ∷ c ∷ []) h d (first, (second, done)) p = elim first [
  | inl a0 ↦ elim second [
    | inl c0 ↦ absurd (d.0.0 (c0 ∙ sym a0))
    | inr c1 ↦ elim c1 [ inl one ↦ rw (a0, one) (add_up p) | inr never ↦ absurd never ]
  ]
  | inr a1 ↦ elim a1 [
    | inr never ↦ absurd never
    | inl one ↦ elim second [
      | inl c0 ↦ rw (one, c0) (added p)
      | inr c1 ↦ elim c1 [ inl also ↦ absurd (d.0.0 (also ∙ sym one)) | inr never ↦ absurd never ]
    ]
  ]
]
  where
    added :
        (q : Pair)
        → combine four
            (λ i. (true, true))
            ((2, Group.times four q (share_of 1)) ∷ (1, Group.times four q (share_of 0)) ∷ [])
          ≡ Group.times four q master
    added (false, false) = refl
    added (false, true) = refl
    added (true, false) = refl
    added (true, true) = refl

abbrev members : List (Member web square)
members =
    record { name = "one"; party_id = 0; partial_pk = (false, true) }
    ∷ record { name = "two"; party_id = 1; partial_pk = (true, true) }
    ∷ []

-- Both members answer.
abbrev answer : FetchKeyResponse Pair → HttpReply web square
answer reply = record {
  is_success = true;
  error_body = none;
  keyserver_version = some "1.0.0";
  body = some reply;
}

abbrev send : Member web square → Option (HttpReply web square)
send m = some (elim m.party_id [ zero ↦ answer first_reply | suc n ↦ answer second_reply ])

abbrev request_headers : String → Option String
request_headers name = some "rust"

headers_accepted : validate_client_sdk_headers web request_headers 1 1 ≡ ok (rust, "rust")
unfolding validate_client_sdk_headers validate_client_sdk_version from_header from_text
headers_accepted = refl

abbrev task : List Bytes → Member web square → Relayed (ℕ × FetchKeyResponse Pair)
task ids = member_task web square (λ name. true) send 1 (public_key four secret) ids

handle_fetch_key-OpensAll_example :
    ((2 ≤ length (successes (map (task (key_id ∷ [])) members)))
      → (reply : FetchKeyResponse Pair) × (handle_fetch_key web square
            (Recovery.recover_c0 sum_up)
            (λ t. t)
            1
            1
            request_headers
            (ok (key_id ∷ []))
            2
            (λ ids. map (task ids) members)
          ≡ ok reply)
        × OpensAll web square secret master (key_id ∷ []) reply)
    × ((length (successes (map (task (key_id ∷ [])) members)) < 2)
        → (e : ErrorResponse) × (handle_fetch_key web square
              (Recovery.recover_c0 sum_up)
              (λ t. t)
              1
              1
              request_headers
              (ok (key_id ∷ []))
              2
              (λ ids. map (task ids) members)
            ≡ err e))
unfolding public_key_from_master_key
handle_fetch_key-OpensAll_example =
    handle_fetch_key-OpensAll web square sum_up secret share_of master 2 members (key_id ∷ [])
      recombine (omega arith) (omega arith) ((omega arith, refl), ((omega arith, refl), tt))
      ((λ e. absurd (omega (arith, e)), tt), (tt, tt)) (tt, tt) refl (λ t. t) 1 1 1 request_headers
      (rust, "rust") (λ name. true) send headers_accepted
