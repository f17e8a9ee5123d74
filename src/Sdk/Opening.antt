-- ===== src/Sdk/Opening.antt =====
-- A client opens an object with the keys that it has accepted from the servers.
use seal.Base.{
  ◌≡◌, List, [], ◌∷◌, Option, some, none, U8, Table, map, false, All, ok, length, filter, inl, ap,
  inr, refl, Distinct, Elem, ◌≤◌, get, Option-cases, arith, length-filter_none, nothing_found,
  Distinct-map_injective, All-of, ◌∙◌, length-filter-map, length-filter_agree, All-map, ltb, ◌<◌,
  some-injective, sym, All-get,
}
use seal.External.{Group, Bls12381, Primitives}
use seal.Ibe.{Info, public_key_from_master_key, extract, verify_user_secret_key}
use seal.Ibe.Keys.{verify_user_secret_key-iff-extract}
use seal.Seal.{dem, contains_key, create_full_id, seal_encrypt, EncryptedObject, Rng}
use seal.Seal.Rows.{
  Server, Sealing, sealed_object, ids_of, keys_of, key_for, ids-rows, seal_encrypt-ok,
}
use seal.Seal.RoundTrip.{seal_decrypt-sealed}
use seal.Dem.{EncryptionInput}
use seal.Dem.RoundTrip.{payload}
use seal.Sdk.{
  gather, insert_known, seal_decrypt_object, decrypt_seal_responses, CachedKeys, cached,
  FetchKeyResponse, or_default,
}
use seal.Tss.Checks.{All-map_iff}
use seal.Sdk.Cache.{decrypt_seal_responses-AreVerified}
use seal.Sdk.Gathering.{known_keys, known_keys-AreKnown, known_keys-agrees, length-known_keys}

module _ (b : Bls12381) (c : Primitives) where
  open b use {Scalar, g1, g2}

  -- The public key configured for a server is that of its master key.
  abbrev HasPublicKey : (List U8 → Option (Group.Element g2)) → Server b → Type 0
  HasPublicKey server_pk_map v =
      server_pk_map v.object_id ≡ some (public_key_from_master_key b v.master_key)

  gather-ok :
      (keys : Table (Group.Element g1)) (server_pk_map : List U8 → Option (Group.Element g2))
      (services : List Info) (servers : List (Server b)) (usks : Table (Group.Element g1))
      → map (λ (i : Info). i.0) services ≡ ids_of b c servers
      → All (HasPublicKey server_pk_map) servers
      → gather b keys server_pk_map services usks
        ≡ ok (known_keys b keys (ids_of b c servers) usks, keys_of b c servers)
  unfolding gather
  gather-ok keys server_pk_map [] [] usks same has = refl
  gather-ok keys server_pk_map [] (v ∷ servers) usks same has = cc
  gather-ok keys server_pk_map (i ∷ services) [] usks same has = cc
  gather-ok keys server_pk_map ((id, index) ∷ services) (v ∷ servers) usks same has =
      let same_id : id ≡ v.object_id = cc same in
      let rest_ids : map (λ (i : Info). i.0) services ≡ ids_of b c servers = cc same in
      let rest =
        gather-ok keys server_pk_map services servers (insert_known b keys v.object_id usks)
          rest_ids has.1 in
      rw (same_id, has.0, rest) refl

  module _ (s : Sealing b c) where
    open s use {servers, threshold, package_id, id}

    full_id : List U8
    full_id = create_full_id package_id id

    -- With enough cached keys that have passed the check, the object opens.
    seal_decrypt_object-sealed :
        (server_pk_map : List U8 → Option (Group.Element g2)) (keys : CachedKeys b)
        → Distinct (λ (v : Server b). v.object_id) servers
        → All (HasPublicKey server_pk_map) servers
        → ((v : Server b)
            → Elem v servers
            → (usk : Group.Element g1)
            → cached b keys (create_full_id package_id id) v.object_id ≡ some usk
            → usk ≡ extract b v.master_key (create_full_id package_id id))
        → threshold.val
          ≤ length (
              filter
                (λ (v : Server b).
                  contains_key (cached b keys (create_full_id package_id id)) v.object_id)
                servers)
        → seal_decrypt_object b c (sealed_object b c s) keys server_pk_map
          ≡ ok (payload s.input (key_for b c s dem))
    unfolding seal_decrypt_object get
    seal_decrypt_object-sealed server_pk_map keys distinct has genuine enough =
        elim (Option-cases (get keys (create_full_id package_id id))) [
          | inl nothing ↦ absurd (
              omega (
                arith,
                enough,
                s.pos,
                length-filter_none
                    (λ (v : Server b).
                      contains_key (cached b keys (create_full_id package_id id)) v.object_id)
                    servers (λ v. ap (λ o. contains_key (get (or_default o)) v.object_id) nothing),
              ))
          | inr (for_id, found) ↦
              let ids = ids_of b c servers in
              let usks = known_keys b for_id ids [] in
              let at_id : (server : List U8)
                  → cached b keys (create_full_id package_id id) server ≡ get for_id server =
                λ server. ap (λ o. get (or_default o) server) found in
              let known =
                known_keys-AreKnown b for_id ids [] (λ i u h. absurd (nothing_found u h)) in
              let agrees =
                known_keys-agrees b for_id ids [] (λ i u h. absurd (nothing_found u h)) in
              let count : length usks
                  ≡ length
                      (filter (λ (v : Server b). contains_key (get for_id) v.object_id) servers) =
                omega (
                  arith,
                  length-known_keys b for_id ids []
                      (Distinct-map_injective (λ (v : Server b). v.object_id) (λ i. i)
                        (λ (v : Server b). v.object_id) servers (λ v w e. e) distinct)
                      (All-of (λ i. none ≡ none) ids (λ i m. refl)),
                  length-filter-map (contains_key (get for_id)) (λ (v : Server b). v.object_id)
                      servers,
                ) in
              let same_count =
                length-filter_agree
                  (λ (v : Server b).
                    contains_key (cached b keys (create_full_id package_id id)) v.object_id)
                  (λ (v : Server b). contains_key (get for_id) v.object_id) servers
                  (All-of _ servers
                    (λ v m. ap (λ o. contains_key (λ i. o) v.object_id) (at_id v.object_id))) in
              let gathered =
                length-filter_agree (λ (v : Server b). contains_key (get usks) v.object_id)
                  (λ (v : Server b). contains_key (get for_id) v.object_id) servers
                  (All-map (λ v e. ap (λ o. contains_key (λ i. o) v.object_id) e) servers
                    ((All-map_iff (λ (v : Server b). v.object_id) (λ i. get usks i ≡ get for_id i)
                        servers).0
                      agrees)) in
              let not_few : ltb (length usks) threshold.val ≡ false =
                ground (arith, enough, count, same_count) in
              rw
                (
                  found,
                  gather-ok for_id server_pk_map (sealed_object b c s).services servers []
                      (ids-rows b c s) has,
                  not_few,
                )
                (seal_decrypt-sealed b c s (get usks) (some (keys_of b c servers)) (inr refl)
                  (λ v m usk h. genuine v m usk (at_id v.object_id ∙ known v.object_id usk h))
                  (omega (arith, enough, gathered, same_count)))
        ]

  -- For 1 to 255 servers with distinct ids, all of whose public keys the client has configured, and a
  -- threshold between 1 and their number, `seal_encrypt` returns an object. If the client accepts the
  -- replies of servers, whatever they are, and has then a key for the object's id from at least
  -- `threshold` of the servers, `seal_decrypt_object` returns the message, or the key in plain mode.
  pub seal_decrypt_object-seal_encrypt :
      (g : Rng b) (rng : Rng.State g) (package_id id : List U8) (servers : List (Server b))
      (threshold : U8) (input : EncryptionInput) (enc_secret : Scalar)
      (server_pk_map : List U8 → Option (Group.Element g2))
      (replies : List (List U8 × FetchKeyResponse (Group.Element g1))) (keys : CachedKeys b)
      → length servers ≤ 255
      → 0 < threshold.val
      → threshold.val ≤ length servers
      → Distinct (λ (v : Server b). v.object_id) servers
      → All
          (λ (v : Server b).
            server_pk_map v.object_id ≡ some (public_key_from_master_key b v.master_key))
          servers
      → decrypt_seal_responses b enc_secret replies server_pk_map ≡ ok keys
      → threshold.val
        ≤ length (
            filter
              (λ (v : Server b).
                contains_key (cached b keys (create_full_id package_id id)) v.object_id)
              servers)
      → (object : EncryptedObject b) × (key : List U8) × (seal_encrypt b c g rng package_id id
            (ids_of b c servers)
            (keys_of b c servers)
            threshold
            input
          ≡ ok (object, key))
        × (seal_decrypt_object b c object keys server_pk_map ≡ ok (payload input key))
  seal_decrypt_object-seal_encrypt g rng package_id id servers threshold input enc_secret
        server_pk_map replies keys few pos le distinct has returns enough =
      let s : Sealing b c = record {
        g = g;
        rng = rng;
        servers = servers;
        threshold = threshold;
        package_id = package_id;
        id = id;
        input = input;
        few = few;
        pos = pos;
        le = le;
      } in
      (
        sealed_object b c s,
        key_for b c s dem,
        seal_encrypt-ok b c s,
        seal_decrypt_object-sealed s server_pk_map keys distinct has genuine enough,
      )
    where
      genuine :
          (v : Server b)
          → Elem v servers
          → (usk : Group.Element g1)
          → cached b keys (create_full_id package_id id) v.object_id ≡ some usk
          → usk ≡ extract b v.master_key (create_full_id package_id id)
      genuine v m usk h =
          let full = create_full_id package_id id in
          let own = public_key_from_master_key b v.master_key in
          let (pk, known, passes) =
            decrypt_seal_responses-AreVerified b enc_secret server_pk_map replies keys full
              v.object_id usk returns h in
          let same : pk ≡ own =
            some-injective pk own
              (sym known ∙ All-get (HasPublicKey server_pk_map) servers v has m) in
          (verify_user_secret_key-iff-extract b v.master_key full usk).0
            (ap (λ k. verify_user_secret_key b usk full k) (sym same) ∙ passes)
