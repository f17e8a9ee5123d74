-- ===== src/Aggregator/Server/Tasks.antt =====
-- The tasks for the members: they do not panic, and what they return has passed the checks.
use seal.Base.{
  false, true, same_set, unique, invalid_input, ◌||◌, ◌==◌, not, length, ◌≡◌, ◌≢◌, List, [], ◌∷◌,
  Bytes, Result, ok, err, panic, ◌>>=◌, refl, true, none, ◌>>◌, Option-cases, >>=-ok, inl, subst,
  inr, ok-injective, map_err-ok,
}
use seal.External.{Group, Bls12381}
use seal.Sdk.{DecryptionKey, FetchKeyResponse}
use seal.Elgamal.{Encryption}
use seal.KeyServer.Errors.{error_response, failure}
use seal.KeyServer.Common.{Web}
use seal.Aggregator.{
  verify_each, verify_decryption_keys, verification_failed, wrong_number_of_keys, duplicate_key_ids,
  unexpected_key_ids, ids_in, Option, map_err, reject_if, some,
}
use seal.Aggregator.Server.{Relayed, relay, validate_key_server_version, Bool, ok_or}
use seal.Aggregator.Server.Requests.{Member, HttpReply, accept_reply}
use seal.Ibe.{hash_to_g1, verify_encrypted_signature}

-- A call that returns an error or a value.
abbrev pub Returns : {E A : Type 0} → Result E A → Type 0
Returns call = call ≢ panic

pub Returns->>= :
    {E A B : Type 0} (call : Result E A) (next : A → Result E B)
    → Returns call
    → ((a : A) → Returns (next a))
    → Returns (call >>= next)
Returns->>= (ok a) next first then = then a
Returns->>= (err e) next first then = λ h. cc h
Returns->>= panic next first then = λ h. first refl

pub Returns-reject_if : {E : Type 0} (t : Bool) (e : E) → Returns (reject_if t e)
Returns-reject_if true e = λ h. cc h
Returns-reject_if false e = λ h. cc h

pub Returns-ok_or : {E A : Type 0} (o : Option A) (e : E) → Returns (ok_or o e)
Returns-ok_or none e = λ h. cc h
Returns-ok_or (some a) e = λ h. cc h

pub Returns-map_err :
    {E F A : Type 0} (f : E → F) (call : Result E A) → Returns call → Returns (map_err f call)
Returns-map_err f (ok a) first = λ h. cc h
Returns-map_err f (err e) first = λ h. cc h
Returns-map_err f panic first = λ h. first refl

module _ (w : Web) (b : Bls12381) where
  open w use {VersionReq, matches, parse, to_str, HeaderValue}
  open b use {g1, g2}

  verify_encrypted_signature-Returns :
      (e : Encryption (Group.Element g1)) (vk pk : Group.Element g2) (id : Bytes)
      → Returns (verify_encrypted_signature b e vk pk id)
  unfolding verify_encrypted_signature
  verify_encrypted_signature-Returns e vk pk id =
      let lhs = Bls12381.pairing b e.second (Group.generator g2) in
      let rhs =
        Bls12381.gt_plus b (Bls12381.pairing b e.first vk)
          (Bls12381.pairing b (hash_to_g1 b id) pk) in
      Returns->>=
        (reject_if
          (Group.eq g1 e.first (Group.identity g1)
            || (Group.eq g1 e.second (Group.identity g1)
                || (Group.eq g2 vk (Group.identity g2) || Group.eq g2 pk (Group.identity g2))))
          invalid_input)
        (λ u. reject_if (not (Bls12381.gt_eq b lhs rhs)) invalid_input)
        (Returns-reject_if
          (Group.eq g1 e.first (Group.identity g1)
            || (Group.eq g1 e.second (Group.identity g1)
                || (Group.eq g2 vk (Group.identity g2) || Group.eq g2 pk (Group.identity g2))))
          invalid_input)
        (λ u. Returns-reject_if (not (Bls12381.gt_eq b lhs rhs)) invalid_input)

  verify_each-Returns :
      (dks : List (DecryptionKey (Group.Element g1))) (pk vk : Group.Element g2)
      → Returns (verify_each b dks pk vk)
  unfolding verify_each
  verify_each-Returns [] pk vk = λ h. cc h
  verify_each-Returns (dk ∷ dks) pk vk =
      let call = verify_encrypted_signature b dk.encrypted_key vk pk dk.id in
      Returns->>= (map_err (λ e. failure verification_failed) call) (λ u. verify_each b dks pk vk)
        (Returns-map_err (λ e. failure verification_failed) call
          (verify_encrypted_signature-Returns dk.encrypted_key vk pk dk.id))
        (λ u. verify_each-Returns dks pk vk)

  verify_decryption_keys-Returns :
      (dks : List (DecryptionKey (Group.Element g1))) (pk vk : Group.Element g2)
      (expected : List Bytes)
      → Returns (verify_decryption_keys b dks pk vk expected)
  unfolding verify_decryption_keys
  verify_decryption_keys-Returns dks pk vk expected =
      let seen = unique (ids_in dks) in
      let number = not (length dks == length expected) in
      let once = not (length seen == length dks) in
      let same = not (same_set seen expected) in
      let each = verify_each b dks pk vk in
      Returns->>= (reject_if number (failure wrong_number_of_keys))
        (λ u.
          reject_if once (failure duplicate_key_ids)
          >> (reject_if same (failure unexpected_key_ids) >> each))
        (Returns-reject_if number (failure wrong_number_of_keys))
        (λ u.
          Returns->>= (reject_if once (failure duplicate_key_ids))
            (λ v. reject_if same (failure unexpected_key_ids) >> each)
            (Returns-reject_if once (failure duplicate_key_ids))
            (λ v.
              Returns->>= (reject_if same (failure unexpected_key_ids)) (λ x. each)
                (Returns-reject_if same (failure unexpected_key_ids))
                (λ x. verify_each-Returns dks pk vk)))

  validate_key_server_version-Returns :
      (header : Option HeaderValue) (requirement : VersionReq)
      → Returns (validate_key_server_version w header requirement)
  unfolding validate_key_server_version
  validate_key_server_version-Returns none requirement = λ h. cc h
  validate_key_server_version-Returns (some value) requirement =
      elim (Option-cases (to_str value)) [
        | inl no_text ↦ rw no_text (λ h. cc h)
        | inr (text, is_text) ↦ elim (Option-cases (parse text)) [
          | inl no_version ↦ rw (is_text, no_version) (λ h. cc h)
          | inr (version, parsed) ↦
              rw (is_text, parsed)
                (Returns-reject_if (not (matches requirement version))
                  (failure "Key server version {} does not meet requirement {}"))
        ]
      ]

  pub accept_reply-Returns :
      (requirement : VersionReq) (vk : Group.Element g2) (expected : List Bytes) (m : Member w b)
      (response : HttpReply w b)
      → Returns (accept_reply w b requirement vk expected m response)
  unfolding accept_reply
  accept_reply-Returns requirement vk expected m response =
      let checked = relay (validate_key_server_version w response.keyserver_version requirement) in
      let parsed = relay (ok_or response.body (failure "Parse failed: {e} (req_id: {})")) in
      let verified : FetchKeyResponse (Group.Element g1) → Relayed (Unit {0}) =
        λ body. relay (verify_decryption_keys b body.decryption_keys m.partial_pk vk expected) in
      Returns->>= checked (λ u. parsed >>= λ body. (verified body >> ok body))
        (Returns-map_err error_response
          (validate_key_server_version w response.keyserver_version requirement)
          (validate_key_server_version-Returns response.keyserver_version requirement))
        (λ u.
          Returns->>= parsed (λ body. verified body >> ok body)
            (Returns-map_err error_response
              (ok_or response.body (failure "Parse failed: {e} (req_id: {})"))
              (Returns-ok_or response.body (failure "Parse failed: {e} (req_id: {})")))
            (λ body.
              Returns->>= (verified body) (λ v. ok body)
                (Returns-map_err error_response
                  (verify_decryption_keys b body.decryption_keys m.partial_pk vk expected)
                  (verify_decryption_keys-Returns body.decryption_keys m.partial_pk vk expected))
                (λ v h. cc h)))

  -- What passes has a reply with verified keys.
  pub accept_reply-ok :
      (requirement : VersionReq) (vk : Group.Element g2) (expected : List Bytes) (m : Member w b)
      (response : HttpReply w b) (reply : FetchKeyResponse (Group.Element g1))
      → accept_reply w b requirement vk expected m response ≡ ok reply
      → verify_decryption_keys b reply.decryption_keys m.partial_pk vk expected ≡ ok tt
  unfolding accept_reply
  accept_reply-ok requirement vk expected m response reply returns =
      let (u, checked, h1) =
        >>=-ok (relay (validate_key_server_version w response.keyserver_version requirement)) _
          returns in
      let (body, parsed, h2) =
        >>=-ok (relay (ok_or response.body (failure "Parse failed: {e} (req_id: {})"))) _ h1 in
      let (v, verified, h3) =
        >>=-ok (relay (verify_decryption_keys b body.decryption_keys m.partial_pk vk expected)) _
          h2 in
      subst
        (λ (r : FetchKeyResponse (Group.Element g1)).
          verify_decryption_keys b r.decryption_keys m.partial_pk vk expected ≡ ok tt)
        (ok-injective body reply h3)
        (map_err-ok error_response
          (verify_decryption_keys b body.decryption_keys m.partial_pk vk expected) verified)
