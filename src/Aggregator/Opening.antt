-- ===== src/Aggregator/Opening.antt =====
-- The aggregation of accepted replies returns, and what it returns opens to the keys of the committee.
use seal.Base.{
  ℕ, ◌≡◌, List, [], Bytes, AreDistinct, Table, get, All, Elem, ◌+◌, sym, ◌<◌, ap, ◌^◌, ◌∙◌,
  Distinct, ok, subst, length-map, ap₂, refl, none, All-get, ◌↔◌, get-Elem, Option-cases,
  traverse-ok, inr, ◌==◌, Elem-map, true, Elem-get, ==_iff, inl, arith,
}
use seal.External.{Group, Bls12381, Recovery, combine}
use seal.Elgamal.{Encryption, aggregate_encrypted}
use seal.Elgamal as Elgamal
use seal.Elgamal.Aggregation.{decrypt-aggregate_encrypted}
use seal.Ibe.{extract, hash_to_g1}
use seal.Sdk.{DecryptionKey, FetchKeyResponse}
use seal.Aggregator.{
  ids_in, shares_at, group_replies, aggregate_key, aggregate_verified_encrypted_responses, some,
  map, length, none,
}
use seal.Aggregator.Grouping.{
  all_shares, shares_at-group_replies, group_replies-HasKeysOnce, group_replies-All,
}
use seal.Aggregator.Shares.{
  Distinct-unmap, ids_of_related, All-of_related, Reply, party, IsAccepted, indices_of, SharesOf,
  all_shares-SharesOf, expected_ids,
}
use seal.Tss.Checks.{All-map_iff, Distinct-map}

module _ (b : Bls12381) (sk : Bls12381.Scalar b) (share_of : ℕ → Bls12381.Scalar b) where
  open b use {Scalar, g1, g2}

  -- The shares under an id are all those in the replies.
  get-all_shares :
      (replies : List (Reply b sk share_of)) (id : Bytes)
      (shares : List (ℕ × Encryption (Group.Element g1)))
      → get (group_replies replies []) id ≡ some shares
      → shares ≡ all_shares replies id
  unfolding shares_at get
  get-all_shares replies id shares found =
      sym (of_found found) ∙ shares_at-group_replies replies [] id
    where
      of_found :
          get (group_replies replies []) id ≡ some shares
          → shares_at (group_replies replies []) id ≡ shares
      of_found f = rw f refl

  module _ (r : Recovery g1) (master_key : Scalar) (threshold : ℕ) (expected : List Bytes)
      (replies : List (Reply b sk share_of))
      (recombines : (p : Group.Element g1)
        → combine g1 (Recovery.coefficient r (indices_of b sk share_of replies)) (
            map
              (λ (reply : Reply b sk share_of). (reply.0 + 1, Group.times g1 p (share_of reply.0)))
              replies)
          ≡ Group.times g1 p master_key)
      (positive : 0 < threshold) (fits : threshold < 2 ^ 16) (full : length replies ≡ threshold)
      (small : All (λ (reply : Reply b sk share_of). reply.0 < 65535) replies)
      (apart : Distinct (λ (reply : Reply b sk share_of). reply.0) replies)
      (distinct : AreDistinct expected)
      (accepted : All (IsAccepted b sk share_of expected) replies) where
    open r use {recover_c0, coefficient}

    abbrev table : Table (List (ℕ × Encryption (Group.Element g1)))
    table = group_replies replies []

    -- The shares for one id aggregate to the key of the committee.
    aggregate_key-ok :
        (id : Bytes) (shares : List (ℕ × Encryption (Group.Element g1)))
        → Elem id expected
        → shares ≡ all_shares replies id
        → (dk : DecryptionKey (Group.Element g1)) × (aggregate_key recover_c0 threshold (id, shares)
            ≡ ok dk)
          × ((dk.id ≡ id) × (Elgamal.decrypt g1 sk dk.encrypted_key ≡ extract b master_key id))
    unfolding aggregate_key extract
    aggregate_key-ok id shares m all =
        let (ids, positions, opened) =
          subst (SharesOf b sk share_of id replies) (sym all)
            (all_shares-SharesOf b sk share_of expected id replies distinct m accepted) in
        let id_of : ℕ × Encryption (Group.Element g1) → ℕ = λ s. s.0 in
        let many : length shares ≡ threshold =
          sym (length-map id_of shares)
          ∙ ap length ids
          ∙ length-map (party b sk share_of) replies
          ∙ full in
        let all_small = (All-map_iff id_of (λ n. n < 65535) shares).0 (
          subst (All (λ n. n < 65535)) (sym ids)
            ((All-map_iff (party b sk share_of) (λ n. n < 65535) replies).1 small)) in
        let differ = Distinct-unmap id_of shares (
          subst (Distinct (λ (n : ℕ). n)) (sym ids)
            (Distinct-map (party b sk share_of) replies apart)) in
        let (e, returns, opens) =
          decrypt-aggregate_encrypted g1 r sk threshold shares positive fits many all_small
            differ in
        (
          record { id = id; encrypted_key = e },
          rw returns refl,
          (
            refl,
            opens
                ∙ ap₂ (λ is ks. combine g1 (coefficient is) ks) positions opened
                ∙ recombines (hash_to_g1 b id),
          ),
        )

    Elem-of_table :
        (entry : Bytes × List (ℕ × Encryption (Group.Element g1)))
        → Elem entry table
        → Elem entry.0 expected × (entry.1 ≡ all_shares replies entry.0)
    Elem-of_table (id, shares) m = (
      All-get (λ (e : Bytes × List (ℕ × Encryption (Group.Element g1))). Elem e.0 expected) table
          (id, shares)
          (group_replies-All (λ i. Elem i expected) replies []
            (expected_ids b sk share_of expected replies distinct accepted) tt)
          m,
      get-all_shares replies id shares
          (get-Elem table id shares (group_replies-HasKeysOnce replies [] tt) m),
    )

    -- Every expected id has an entry.
    table_has_expected :
        (id : Bytes)
        → Elem id expected
        → Elem id (map (λ (e : Bytes × List (ℕ × Encryption (Group.Element g1))). e.0) table)
    unfolding shares_at get
    table_has_expected id m = elim (Option-cases (get table id)) [
      | inr (shares, found) ↦
          Elem-map (λ (e : Bytes × List (ℕ × Encryption (Group.Element g1))). e.0) table
            (id, shares) (Elem-get table id shares found)
      | inl missing ↦
          let none_there : all_shares replies id ≡ [] =
            sym (shares_at-group_replies replies [] id) ∙ no_shares missing in
          let (ids, rest, more) =
            all_shares-SharesOf b sk share_of expected id replies distinct m accepted in
          let empty : length replies ≡ 0 =
            sym (length-map (party b sk share_of) replies)
            ∙ sym (ap length ids)
            ∙ ap (λ s. length (map (λ (s : ℕ × Encryption (Group.Element g1)). s.0) s))
                none_there in
          absurd (omega (arith, positive, full, empty))
    ]
      where
        no_shares : get table id ≡ none → shares_at table id ≡ []
        no_shares missing = rw missing refl

    -- Threshold many accepted replies of different parties, with ids below 65535, whose master shares
    -- recombine to the master key, are aggregated. The reply that is returned has one key for every
    -- expected id and no other, and each opens, with the ephemeral secret key, to what the master key
    -- extracts for its id.
    pub decrypt-aggregate_verified_encrypted_responses :
        (reply : FetchKeyResponse (Group.Element g1)) × (aggregate_verified_encrypted_responses
            recover_c0 threshold replies
          ≡ ok reply)
        × AreDistinct (ids_in reply.decryption_keys)
        × ((id : Bytes) → Elem id (ids_in reply.decryption_keys) ↔ Elem id expected)
        × All
            (λ (dk : DecryptionKey (Group.Element g1)).
              Elgamal.decrypt g1 sk dk.encrypted_key ≡ extract b master_key dk.id)
            reply.decryption_keys
    unfolding aggregate_verified_encrypted_responses
    decrypt-aggregate_verified_encrypted_responses =
        let Opens : Bytes × List (ℕ × Encryption (Group.Element g1))
            → DecryptionKey (Group.Element g1)
            → Type 0 =
          λ e dk.
            (dk.id ≡ e.0) × (Elgamal.decrypt g1 sk dk.encrypted_key ≡ extract b master_key e.0) in
        let (dks, returns, related) =
          traverse-ok Opens (aggregate_key recover_c0 threshold) table (λ e m.
            let (in_expected, all) = Elem-of_table e m in
            aggregate_key-ok e.0 e.1 in_expected all) in
        let ids = ids_of_related Opens table dks (λ e dk o. o.0) related in
        let once = group_replies-HasKeysOnce replies [] tt in
        let id_of : Bytes × List (ℕ × Encryption (Group.Element g1)) → Bytes = λ e. e.0 in
        let all_expected =
          group_replies-All (λ i. Elem i expected) replies []
            (expected_ids b sk share_of expected replies distinct accepted) tt in
        let as_many : (length replies == threshold) ≡ true =
          (==_iff (length replies) threshold).1 full in
        (
          record { decryption_keys = dks },
          rw (as_many, returns) refl,
          subst AreDistinct (sym ids) (Distinct-map id_of table once),
          λ id. (
            λ m.
                All-get (λ i. Elem i expected) (map id_of table) id
                  ((All-map_iff id_of (λ i. Elem i expected) table).1 all_expected)
                  (subst (Elem id) ids m),
            λ m. subst (Elem id) (sym ids) (table_has_expected id m),
          ),
          All-of_related Opens _ table dks (λ e dk o. o.1 ∙ ap (extract b master_key) (sym o.0))
              related,
        )
