-- ===== src/Aggregator/Shares.antt =====
-- What the aggregation of accepted replies opens to.
use seal.Base.{
  ℕ, ◌≡◌, List, [], ◌∷◌, Bytes, AreDistinct, Table, All, Elem, Distinct, All₂, ok, All-get, All-of,
  ◌≢◌, ap₂, ◌+◌, ◌∙◌, Elem-map, refl, ap,
}
use seal.External.{Group, Bls12381}
use seal.Elgamal.{Encryption, public_key, aggregate_encrypted}
use seal.Elgamal as Elgamal
use seal.Elgamal.Aggregation.{decrypted, indices}
use seal.Ibe.{extract, public_key_from_master_key}
use seal.Sdk.{DecryptionKey, FetchKeyResponse}
use seal.Aggregator.{ids_in, verify_decryption_keys, map}
use seal.Aggregator.Replies.{OpensTo, verify_decryption_keys_iff}
use seal.Aggregator.Grouping.{all_shares, tagged_once}
use seal.Tss.Checks.{All-map_iff}

pub Distinct-unmap :
    {A B : Type 0} (f : A → B) (xs : List A) → Distinct (λ (b : B). b) (map f xs) → Distinct f xs
Distinct-unmap f [] d = tt
Distinct-unmap f (x ∷ xs) d = ((All-map_iff f (λ b. b ≢ f x) xs).0 d.0, Distinct-unmap f xs d.1)

-- Related lists: the first components of entries are the ids of what they became.
pub ids_of_related :
    {E V : Type 0} (R : Bytes × V → DecryptionKey E → Type 0) (table : Table V)
    (dks : List (DecryptionKey E))
    → ((e : Bytes × V) (dk : DecryptionKey E) → R e dk → dk.id ≡ e.0)
    → All₂ R table dks
    → ids_in dks ≡ map (λ (e : Bytes × V). e.0) table
ids_of_related R [] [] same related = refl
ids_of_related R [] (dk ∷ dks) same related = absurd related
ids_of_related R (e ∷ table) [] same related = absurd related
ids_of_related R (e ∷ table) (dk ∷ dks) same related =
    ap₂ ◌∷◌ (same e dk related.0) (ids_of_related R table dks same related.1)

pub All-of_related :
    {A B : Type 0} (R : A → B → Type 0) (P : B → Type 0) (xs : List A) (ys : List B)
    → ((a : A) (c : B) → R a c → P c)
    → All₂ R xs ys
    → All P ys
All-of_related R P [] [] has related = tt
All-of_related R P [] (y ∷ ys) has related = absurd related
All-of_related R P (x ∷ xs) [] has related = absurd related
All-of_related R P (x ∷ xs) (y ∷ ys) has related =
    (has x y related.0, All-of_related R P xs ys has related.1)

module _ (b : Bls12381) (sk : Bls12381.Scalar b) (share_of : ℕ → Bls12381.Scalar b) where
  open b use {Scalar, g1, g2}

  -- A party with its reply.
  abbrev pub Reply : Type 0
  Reply = ℕ × FetchKeyResponse (Group.Element g1)

  abbrev pub party : Reply → ℕ
  party reply = reply.0

  -- The reply has passed the checks.
  abbrev pub IsAccepted : List Bytes → Reply → Type 0
  IsAccepted expected (party_id, response) =
      verify_decryption_keys b response.decryption_keys
        (public_key_from_master_key b (share_of party_id)) (public_key g2 sk) expected
      ≡ ok tt

  -- What the parties' master shares extract for an id, by index.
  abbrev pub extracted : Bytes → List Reply → List (ℕ × Group.Element g1)
  extracted id = map (λ (r : Reply). (r.0 + 1, extract b (share_of r.0) id))

  abbrev pub indices_of : List Reply → List ℕ
  indices_of = map (λ (r : Reply). r.0 + 1)

  abbrev pub SharesOf : Bytes → List Reply → List (ℕ × Encryption (Group.Element g1)) → Type 0
  SharesOf id replies shares =
      (map (λ (s : ℕ × Encryption (Group.Element g1)). s.0) shares ≡ map party replies)
      × (indices g1 shares ≡ indices_of replies)
      × (decrypted g1 sk shares ≡ extracted id replies)

  -- For an expected id there is one share from each party, which opens to the party's key.
  pub all_shares-SharesOf :
      (expected : List Bytes) (id : Bytes) (replies : List Reply)
      → AreDistinct expected
      → Elem id expected
      → All (IsAccepted expected) replies
      → SharesOf id replies (all_shares replies id)
  unfolding all_shares
  all_shares-SharesOf expected id [] distinct m accepted = (refl, refl, refl)
  all_shares-SharesOf expected id ((party_id, response) ∷ replies) distinct m accepted =
      let dks = response.decryption_keys in
      let (once, members, opens) =
        (verify_decryption_keys_iff b sk (share_of party_id) dks expected distinct).0 accepted.0 in
      let (dk, at, same, one) = tagged_once party_id dks id once ((members id).1 m) in
      let (ids, positions, opened) =
        all_shares-SharesOf expected id replies distinct m accepted.1 in
      let opens_to : Elgamal.decrypt g1 sk dk.encrypted_key ≡ extract b (share_of party_id) id =
        (All-get (OpensTo b sk (share_of party_id)) dks dk opens at).1
        ∙ ap (extract b (share_of party_id)) same in
      rw one (
        ap (◌∷◌ party_id) ids,
        ap (◌∷◌ (party_id + 1)) positions,
        ap₂ (λ k rest. (party_id + 1, k) ∷ rest) opens_to opened,
      )

  -- Every id of the map is an expected one.
  pub expected_ids :
      (expected : List Bytes) (replies : List Reply)
      → AreDistinct expected
      → All (IsAccepted expected) replies
      → All
          (λ (r : Reply).
            All
              (λ (dk : DecryptionKey (Group.Element g1)). Elem dk.id expected)
              r.1.decryption_keys)
          replies
  expected_ids expected [] distinct accepted = tt
  expected_ids expected ((party_id, response) ∷ replies) distinct accepted =
      let dks = response.decryption_keys in
      let (once, members, opens) =
        (verify_decryption_keys_iff b sk (share_of party_id) dks expected distinct).0 accepted.0 in
      (
        All-of _ dks (λ dk at.
            (members dk.id).0
              (Elem-map (λ (k : DecryptionKey (Group.Element g1)). k.id) dks dk at)),
        expected_ids expected replies distinct accepted.1,
      )
