-- ===== src/Sdk/Cache.antt =====
-- The keys that a client has accepted from the servers' replies.
use seal.Base.{
  ◌≡◌, List, [], ◌∷◌, Option, some, U8, ◌⊎◌, ok, put, inr, subst, get, sym, ok-injective,
  get-put_cases, ◌∙◌, >>=-ok, ap, inl, ok_or, some-injective, general_error, ap₂, ok_or-ok,
  nothing_found,
}
use seal.External.{Group, Bls12381}
use seal.Elgamal as Elgamal
use seal.Ibe.{verify_user_secret_key}
use seal.Sdk.{
  DecryptionKey, FetchKeyResponse, or_default, CachedKeys, cached, cache, decrypt_reply,
  decrypt_replies, decrypt_seal_responses,
}

module _ (b : Bls12381) where
  open b use {Scalar, g1, g2}

  -- A lookup after a key has been cached finds that key or what was there.
  pub cached-cache_cases :
      (keys : CachedKeys b) (id server : List U8) (usk : Group.Element g1) (id' server' : List U8)
      → ((id ≡ id')
          × (server ≡ server')
          × (cached b (cache b keys id server usk) id' server' ≡ some usk))
        ⊎ (cached b (cache b keys id server usk) id' server' ≡ cached b keys id' server')
  cached-cache_cases keys id server usk id' server' =
      let inner = put (or_default (get keys id)) server usk in
      elim (get-put_cases keys id id' inner) [
        | inr (other, old) ↦ inr (ap (λ t. get (or_default t) server') old)
        | inl (same, new) ↦
            let found = ap (λ t. get (or_default t) server') new in
            elim (get-put_cases (or_default (get keys id)) server server' usk) [
              | inl (same_server, key) ↦ inl (same, same_server, found ∙ key)
              | inr (other, old) ↦ inr (found ∙ old ∙ ap (λ k. cached b keys k server') same)
            ]
      ]

  -- Every cached key has passed the check against the public key of its server.
  abbrev pub AreVerified : (List U8 → Option (Group.Element g2)) → CachedKeys b → Type 0
  AreVerified server_pk_map keys =
      (id server : List U8) (usk : Group.Element g1)
      → cached b keys id server ≡ some usk
      → (pk : Group.Element g2) × (server_pk_map server ≡ some pk)
        × (verify_user_secret_key b usk id pk ≡ ok tt)

  cache-AreVerified :
      (server_pk_map : List U8 → Option (Group.Element g2)) (keys : CachedKeys b)
      (id server : List U8) (usk : Group.Element g1) (pk : Group.Element g2)
      → AreVerified server_pk_map keys
      → server_pk_map server ≡ some pk
      → verify_user_secret_key b usk id pk ≡ ok tt
      → AreVerified server_pk_map (cache b keys id server usk)
  cache-AreVerified server_pk_map keys id server usk pk verified known passes id' server' usk'
        found =
      elim (cached-cache_cases keys id server usk id' server') [
        | inr old ↦ verified id' server' usk' (sym old ∙ found)
        | inl (same, same_server, new) ↦
            let same_key : usk ≡ usk' = some-injective usk usk' (sym new ∙ found) in
            (
              pk,
              ap server_pk_map (sym same_server) ∙ known,
              ap₂ (λ k i. verify_user_secret_key b k i pk) (sym same_key) (sym same) ∙ passes,
            )
      ]

  decrypt_reply-AreVerified :
      (enc_secret : Scalar) (server_pk_map : List U8 → Option (Group.Element g2)) (server : List U8)
      (pk : Group.Element g2) (reply : List (DecryptionKey (Group.Element g1)))
      (keys last : CachedKeys b)
      → server_pk_map server ≡ some pk
      → AreVerified server_pk_map keys
      → decrypt_reply b enc_secret server pk reply keys ≡ ok last
      → AreVerified server_pk_map last
  unfolding decrypt_reply
  decrypt_reply-AreVerified enc_secret server_pk_map server pk [] keys last known verified returns =
      subst (AreVerified server_pk_map) (ok-injective keys last returns) verified
  decrypt_reply-AreVerified enc_secret server_pk_map server pk (dk ∷ reply) keys last known verified
        returns =
      let usk = Elgamal.decrypt g1 enc_secret dk.encrypted_key in
      let (done, passes, rest) = >>=-ok (verify_user_secret_key b usk dk.id pk) _ returns in
      decrypt_reply-AreVerified enc_secret server_pk_map server pk reply
        (cache b keys dk.id server usk) last known
        (cache-AreVerified server_pk_map keys dk.id server usk pk verified known passes) rest

  decrypt_replies-AreVerified :
      (enc_secret : Scalar) (server_pk_map : List U8 → Option (Group.Element g2))
      (replies : List (List U8 × FetchKeyResponse (Group.Element g1))) (keys last : CachedKeys b)
      → AreVerified server_pk_map keys
      → decrypt_replies b enc_secret replies server_pk_map keys ≡ ok last
      → AreVerified server_pk_map last
  unfolding decrypt_replies
  decrypt_replies-AreVerified enc_secret server_pk_map [] keys last verified returns =
      subst (AreVerified server_pk_map) (ok-injective keys last returns) verified
  decrypt_replies-AreVerified enc_secret server_pk_map ((server, reply) ∷ replies) keys last
        verified returns =
      let (pk, known, h1) = >>=-ok (ok_or (server_pk_map server) general_error) _ returns in
      let (keys', opened, h2) =
        >>=-ok (decrypt_reply b enc_secret server pk reply.decryption_keys keys) _ h1 in
      let has_key = ok_or-ok (server_pk_map server) general_error known in
      decrypt_replies-AreVerified enc_secret server_pk_map replies keys' last
        (decrypt_reply-AreVerified enc_secret server_pk_map server pk reply.decryption_keys keys
          keys' has_key verified opened)
        h2

  -- Whatever the servers reply, each key that the client accepts for a server and an id is one that
  -- the check accepts for that id under the public key configured for that server.
  pub decrypt_seal_responses-AreVerified :
      (enc_secret : Scalar) (server_pk_map : List U8 → Option (Group.Element g2))
      (replies : List (List U8 × FetchKeyResponse (Group.Element g1))) (keys : CachedKeys b)
      (id server : List U8) (usk : Group.Element g1)
      → decrypt_seal_responses b enc_secret replies server_pk_map ≡ ok keys
      → cached b keys id server ≡ some usk
      → (pk : Group.Element g2) × (server_pk_map server ≡ some pk)
        × (verify_user_secret_key b usk id pk ≡ ok tt)
  unfolding decrypt_seal_responses get
  decrypt_seal_responses-AreVerified enc_secret server_pk_map replies keys id server usk returns =
      decrypt_replies-AreVerified enc_secret server_pk_map replies [] keys
        (λ i s u h. absurd (nothing_found u h)) returns id server usk
