-- ===== src/KeyServer/Requests/Responses.antt =====
-- The keys that servers hand out are the ones that a client accepts.
use seal.Base.{
  ◌≡◌, List, [], ◌∷◌, Option, some, Bytes, get, put, ok, map, All, ap, inr, refl, All-map,
  get-put_same, ◌∙◌, inl, ap₂,
}
use seal.External.{Bls12381, Group}
use seal.Elgamal.{public_key}
use seal.Elgamal.Inverse as Inverse
use seal.Ibe.{extract, public_key_from_master_key}
use seal.Ibe.Keys.{verify_user_secret_key-iff-extract}
use seal.Sdk.{
  DecryptionKey, FetchKeyResponse, CachedKeys, cached, cache, or_default, decrypt_reply,
  decrypt_replies, decrypt_seal_responses,
}
use seal.Sdk.Cache.{cached-cache_cases}
use seal.KeyServer.MasterKeys.{MasterKeys, get_key_for_package}
use seal.KeyServer.Requests.{decryption_key, create_response}

module _ (b : Bls12381) (sk : Bls12381.Scalar b) (master_key : Bytes → Bls12381.Scalar b) where
  open b use {Scalar, g1, g2}

  cached-cache :
      (keys : CachedKeys b) (id server : Bytes) (usk : Group.Element g1)
      → cached b (cache b keys id server usk) id server ≡ some usk
  cached-cache keys id server usk =
      let inner = put (or_default (get keys id)) server usk in
      ap (λ t. get (or_default t) server) (get-put_same keys id inner)
      ∙ get-put_same (or_default (get keys id)) server usk

  -- The key under this id and server is the one that the server's master key extracts.
  abbrev IsCached : CachedKeys b → Bytes → Bytes → Type 0
  IsCached keys server id = cached b keys id server ≡ some (extract b (master_key server) id)

  cache-IsCached :
      (keys : CachedKeys b) (server id server' id' : Bytes)
      → IsCached keys server' id'
      → IsCached (cache b keys id server (extract b (master_key server) id)) server' id'
  cache-IsCached keys server id server' id' there =
      elim (cached-cache_cases b keys id server (extract b (master_key server) id) id' server') [
        | inr old ↦ old ∙ there
        | inl (same, same_server, new) ↦
            new ∙ ap₂ (λ s i. some (extract b (master_key s) i)) same_server same
      ]

  -- The keys for some ids, encrypted with what was drawn.
  abbrev keys_for : Bytes → List (Bytes × Scalar) → List (DecryptionKey (Group.Element g1))
  keys_for server = map (decryption_key b (master_key server) (public_key g1 sk))

  decrypt_reply-keys_for :
      (server : Bytes) (ids : List (Bytes × Scalar)) (keys : CachedKeys b)
      → (last : CachedKeys b) × (decrypt_reply b sk server
            (public_key_from_master_key b (master_key server))
            (keys_for server ids)
            keys
          ≡ ok last)
        × ((server' id' : Bytes) → IsCached keys server' id' → IsCached last server' id')
        × All (λ (q : Bytes × Scalar). IsCached last server q.0) ids
  unfolding decrypt_reply decryption_key
  decrypt_reply-keys_for server [] keys = (keys, refl, (λ s i h. h), tt)
  decrypt_reply-keys_for server ((id, drawn) ∷ ids) keys =
      let usk = extract b (master_key server) id in
      let opened = Inverse.decrypt-encrypt g1 sk drawn usk in
      let passes = (verify_user_secret_key-iff-extract b (master_key server) id usk).1 refl in
      let (last, returns, keeps, all) =
        decrypt_reply-keys_for server ids (cache b keys id server usk) in
      (
        last,
        rw (opened, passes) returns,
        λ server' id' h. keeps server' id' (cache-IsCached keys server id server' id' h),
        (keeps server id (cached-cache keys id server usk), all),
      )

  abbrev reply_of : Bytes × List (Bytes × Scalar) → Bytes × FetchKeyResponse (Group.Element g1)
  reply_of (server, ids) = (server, record { decryption_keys = keys_for server ids })

  decrypt_replies-reply_of :
      (server_pk_map : Bytes → Option (Group.Element g2))
      (requests : List (Bytes × List (Bytes × Scalar))) (keys : CachedKeys b)
      → All
          (λ (q : Bytes × List (Bytes × Scalar)).
            server_pk_map q.0 ≡ some (public_key_from_master_key b (master_key q.0)))
          requests
      → (last : CachedKeys b) × (decrypt_replies b sk (map reply_of requests) server_pk_map keys
          ≡ ok last)
        × ((server' id' : Bytes) → IsCached keys server' id' → IsCached last server' id')
        × All
            (λ (q : Bytes × List (Bytes × Scalar)).
              All (λ (i : Bytes × Scalar). IsCached last q.0 i.0) q.1)
            requests
  unfolding decrypt_replies
  decrypt_replies-reply_of server_pk_map [] keys has = (keys, refl, (λ s i h. h), tt)
  decrypt_replies-reply_of server_pk_map ((server, ids) ∷ requests) keys has =
      let (middle, returns, keeps, all) = decrypt_reply-keys_for server ids keys in
      let (last, rest, keeps_rest, all_rest) =
        decrypt_replies-reply_of server_pk_map requests middle has.1 in
      (
        last,
        rw (has.0, returns) rest,
        λ server' id' h. keeps_rest server' id' (keeps server' id' h),
        (All-map (λ (i : Bytes × Scalar) h. keeps_rest server i.0 h) ids all, all_rest),
      )

  -- If the client has the public key of every server it asks, and `get_key_for_package` returns, for
  -- the package, the master key of that public key on each of them, then each server replies with the
  -- encrypted keys, and the client accepts all of the replies and has then the extracted key of each
  -- server for every id that it was asked for.
  pub decrypt_seal_responses-create_response :
      (server_pk_map : Bytes → Option (Group.Element g2)) (master_keys : Bytes → MasterKeys Scalar)
      (first_pkg_id : Bytes) (requests : List (Bytes × List (Bytes × Scalar)))
      → All
          (λ (q : Bytes × List (Bytes × Scalar)).
            server_pk_map q.0 ≡ some (public_key_from_master_key b (master_key q.0)))
          requests
      → All
          (λ (q : Bytes × List (Bytes × Scalar)).
            get_key_for_package (master_keys q.0) first_pkg_id ≡ ok (master_key q.0))
          requests
      → (keys : CachedKeys b) × All
          (λ (q : Bytes × List (Bytes × Scalar)).
            create_response b (master_keys q.0) first_pkg_id q.1 (public_key g1 sk)
            ≡ ok (record {
              decryption_keys = map (decryption_key b (master_key q.0) (public_key g1 sk)) q.1;
            }))
          requests
        × (decrypt_seal_responses b sk
              (map
                (λ (q : Bytes × List (Bytes × Scalar)). (
                  q.0,
                  record {
                    decryption_keys =
                        map (decryption_key b (master_key q.0) (public_key g1 sk)) q.1;
                  },
                ))
                requests)
              server_pk_map
            ≡ ok keys)
        × All
            (λ (q : Bytes × List (Bytes × Scalar)).
              All
                (λ (i : Bytes × Scalar).
                  cached b keys i.0 q.0 ≡ some (extract b (master_key q.0) i.0))
                q.1)
            requests
  unfolding decrypt_seal_responses create_response
  decrypt_seal_responses-create_response server_pk_map master_keys first_pkg_id requests has
        serves =
      let (keys, returns, keeps, all) = decrypt_replies-reply_of server_pk_map requests [] has in
      (keys, All-map (λ q h. rw h refl) requests serves, returns, all)
