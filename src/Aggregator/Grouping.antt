-- ===== src/Aggregator/Grouping.antt =====
-- The map from key ids to shares: what the loops over the replies put under an id.
use seal.Base.{
  ℕ, ◌≡◌, List, [], ◌∷◌, ◌++◌, Bytes, AreDistinct, Table, All, Elem, if◌then◌else◌, get-put_cases,
  Bool-cases, sym, HasKeysOnce, put-All, ◌≢◌, inl, bytes_eq, bytes_eq_iff, append_empty,
  put-HasKeysOnce, All-map, ap, inr, ◌∙◌, refl, append_assoc, All-get,
}
use seal.Elgamal.{Encryption}
use seal.Sdk.{DecryptionKey, FetchKeyResponse}
use seal.Aggregator.{ids_in, shares_at, push_share, group_reply, group_replies}

module _ {E : Type 0} where
  -- The keys of one reply for an id, with the party.
  unfoldable pub tagged : ℕ → List (DecryptionKey E) → Bytes → List (ℕ × Encryption E)
  tagged party_id [] id = []
  tagged party_id (dk ∷ dks) id =
      let rest = tagged party_id dks id in
      if bytes_eq dk.id id then (party_id, dk.encrypted_key) ∷ rest else rest

  unfoldable pub all_shares : List (ℕ × FetchKeyResponse E) → Bytes → List (ℕ × Encryption E)
  all_shares [] id = []
  all_shares ((party_id, response) ∷ responses) id =
      tagged party_id response.decryption_keys id ++ all_shares responses id

  shares_at-push_share :
      (party_id : ℕ) (dk : DecryptionKey E) (table : Table (List (ℕ × Encryption E))) (id : Bytes)
      → shares_at (push_share party_id dk table) id
        ≡ shares_at table id ++ tagged party_id (dk ∷ []) id
  unfolding shares_at tagged
  shares_at-push_share party_id dk table id =
      let added = shares_at table dk.id ++ ((party_id, dk.encrypted_key) ∷ []) in
      elim (get-put_cases table dk.id id added) [
        | inl (same, new) ↦
            rw (new, (bytes_eq_iff dk.id id).1 same)
              (ap (λ k. shares_at table k ++ ((party_id, dk.encrypted_key) ∷ [])) same)
        | inr (other, old) ↦ rw (old, other) (sym (append_empty (shares_at table id)))
      ]

  tagged_cons :
      (party_id : ℕ) (dk : DecryptionKey E) (dks : List (DecryptionKey E)) (id : Bytes)
      → tagged party_id (dk ∷ []) id ++ tagged party_id dks id ≡ tagged party_id (dk ∷ dks) id
  unfolding tagged
  tagged_cons party_id dk dks id = elim (Bool-cases (bytes_eq dk.id id)) [
    | inl p ↦ rw p refl
    | inr p ↦ rw p refl
  ]

  shares_at-group_reply :
      (party_id : ℕ) (dks : List (DecryptionKey E)) (table : Table (List (ℕ × Encryption E)))
      (id : Bytes)
      → shares_at (group_reply party_id dks table) id ≡ shares_at table id ++ tagged party_id dks id
  unfolding group_reply tagged
  shares_at-group_reply party_id [] table id = sym (append_empty (shares_at table id))
  shares_at-group_reply party_id (dk ∷ dks) table id =
      shares_at-group_reply party_id dks (push_share party_id dk table) id
      ∙ ap (λ s. s ++ tagged party_id dks id) (shares_at-push_share party_id dk table id)
      ∙ append_assoc (shares_at table id) (tagged party_id (dk ∷ []) id) (tagged party_id dks id)
      ∙ ap (◌++◌ (shares_at table id)) (tagged_cons party_id dk dks id)

  -- All the shares for an id stand under it, in the order of the replies.
  pub shares_at-group_replies :
      (responses : List (ℕ × FetchKeyResponse E)) (table : Table (List (ℕ × Encryption E)))
      (id : Bytes)
      → shares_at (group_replies responses table) id ≡ shares_at table id ++ all_shares responses id
  unfolding group_replies all_shares
  shares_at-group_replies [] table id = sym (append_empty (shares_at table id))
  shares_at-group_replies ((party_id, response) ∷ responses) table id =
      let dks = response.decryption_keys in
      shares_at-group_replies responses (group_reply party_id dks table) id
      ∙ ap (λ s. s ++ all_shares responses id) (shares_at-group_reply party_id dks table id)
      ∙ append_assoc (shares_at table id) (tagged party_id dks id) (all_shares responses id)

  group_reply-HasKeysOnce :
      (party_id : ℕ) (dks : List (DecryptionKey E)) (table : Table (List (ℕ × Encryption E)))
      → HasKeysOnce table
      → HasKeysOnce (group_reply party_id dks table)
  unfolding group_reply
  group_reply-HasKeysOnce party_id [] table once = once
  group_reply-HasKeysOnce party_id (dk ∷ dks) table once =
      group_reply-HasKeysOnce party_id dks (push_share party_id dk table) (
        put-HasKeysOnce table dk.id (shares_at table dk.id ++ ((party_id, dk.encrypted_key) ∷ []))
          once)

  pub group_replies-HasKeysOnce :
      (responses : List (ℕ × FetchKeyResponse E)) (table : Table (List (ℕ × Encryption E)))
      → HasKeysOnce table
      → HasKeysOnce (group_replies responses table)
  unfolding group_replies
  group_replies-HasKeysOnce [] table once = once
  group_replies-HasKeysOnce ((party_id, response) ∷ responses) table once =
      group_replies-HasKeysOnce responses (group_reply party_id response.decryption_keys table)
        (group_reply-HasKeysOnce party_id response.decryption_keys table once)

  module _ (P : Bytes → Type 0) where
    group_reply-All :
        (party_id : ℕ) (dks : List (DecryptionKey E)) (table : Table (List (ℕ × Encryption E)))
        → All (λ (dk : DecryptionKey E). P dk.id) dks
        → All (λ (e : Bytes × List (ℕ × Encryption E)). P e.0) table
        → All (λ (e : Bytes × List (ℕ × Encryption E)). P e.0) (group_reply party_id dks table)
    unfolding group_reply
    group_reply-All party_id [] table of_keys of_table = of_table
    group_reply-All party_id (dk ∷ dks) table of_keys of_table =
        group_reply-All party_id dks (push_share party_id dk table) of_keys.1 (
          put-All P table dk.id (shares_at table dk.id ++ ((party_id, dk.encrypted_key) ∷ []))
            of_keys.0 of_table)

    -- What all the ids of the replies have, the ids of the map have.
    pub group_replies-All :
        (responses : List (ℕ × FetchKeyResponse E)) (table : Table (List (ℕ × Encryption E)))
        → All
            (λ (r : ℕ × FetchKeyResponse E).
              All (λ (dk : DecryptionKey E). P dk.id) r.1.decryption_keys)
            responses
        → All (λ (e : Bytes × List (ℕ × Encryption E)). P e.0) table
        → All (λ (e : Bytes × List (ℕ × Encryption E)). P e.0) (group_replies responses table)
    unfolding group_replies
    group_replies-All [] table of_replies of_table = of_table
    group_replies-All ((party_id, response) ∷ responses) table of_replies of_table =
        group_replies-All responses (group_reply party_id response.decryption_keys table)
          of_replies.1
          (group_reply-All party_id response.decryption_keys table of_replies.0 of_table)

  -- In a reply whose ids differ, an id that is not there has no share.
  tagged_missing :
      (party_id : ℕ) (dks : List (DecryptionKey E)) (id : Bytes)
      → All (λ i. i ≢ id) (ids_in dks)
      → tagged party_id dks id ≡ []
  unfolding tagged
  tagged_missing party_id [] id none_is = refl
  tagged_missing party_id (dk ∷ dks) id none_is = elim (Bool-cases (bytes_eq dk.id id)) [
    | inl p ↦ absurd (none_is.0 ((bytes_eq_iff dk.id id).0 p))
    | inr p ↦ rw p (tagged_missing party_id dks id none_is.1)
  ]

  -- One that is there has one.
  pub tagged_once :
      (party_id : ℕ) (dks : List (DecryptionKey E)) (id : Bytes)
      → AreDistinct (ids_in dks)
      → Elem id (ids_in dks)
      → (dk : DecryptionKey E) × Elem dk dks
        × (dk.id ≡ id)
        × (tagged party_id dks id ≡ (party_id, dk.encrypted_key) ∷ [])
  unfolding tagged
  tagged_once party_id [] id distinct m = absurd m
  tagged_once party_id (dk ∷ dks) id distinct (inl e) =
      let none_is =
        All-map {P = λ i. i ≢ dk.id} {Q = λ i. i ≢ id} (λ i apart same. apart (same ∙ e))
          (ids_in dks) distinct.0 in
      (
        dk,
        inl refl,
        sym e,
        rw ((bytes_eq_iff dk.id id).1 (sym e))
            (ap (◌∷◌ (party_id, dk.encrypted_key)) (tagged_missing party_id dks id none_is)),
      )
  tagged_once party_id (dk ∷ dks) id distinct (inr m) = elim (Bool-cases (bytes_eq dk.id id)) [
    | inl p ↦
        absurd (
          All-get (λ i. i ≢ dk.id) (ids_in dks) id distinct.0 m (sym ((bytes_eq_iff dk.id id).0 p)))
    | inr p ↦
        let (found, at, same, one) = tagged_once party_id dks id distinct.1 m in
        (found, inr at, same, rw p one)
  ]
