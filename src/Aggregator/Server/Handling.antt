-- ===== src/Aggregator/Server/Handling.antt =====
-- A request to the aggregator, from the headers to the reply.
use Prim.Native.String.{String}
use seal.Base.{
  ℕ, ◌+◌, ◌≡◌, List, Bytes, AreDistinct, ok, err, All, Elem, Distinct, take, map, Bool, true, false,
  ◌<◌, ◌↔◌, ◌^◌, ◌≤◌, arith, length-take, All-get, ap, ◌∙◌, sym, subst, Elem-map, length-map, ap₂,
  map-map, refl,
}
use seal.External.{Group, Bls12381, Recovery, combine}
use seal.Elgamal.{public_key}
use seal.Elgamal as Elgamal
use seal.Ibe.{extract, public_key_from_master_key}
use seal.Sdk.{DecryptionKey, FetchKeyResponse}
use seal.KeyServer.Errors.{ErrorResponse}
use seal.KeyServer.Common.{Web, Headers, ClientSdkType}
use seal.Aggregator.{
  verify_decryption_keys, ids_in, aggregate_verified_encrypted_responses, length, Option,
}
use seal.Aggregator.Shares.{IsAccepted}
use seal.Aggregator.Opening.{decrypt-aggregate_verified_encrypted_responses}
use seal.Aggregator.Server.{
  Tally, handle_insufficient_responses, validate_client_sdk_headers, is_empty, ltb,
}
use seal.Aggregator.Server.Collection.{successes, collect-successes}
use seal.Aggregator.Server.Requests.{
  Member, HttpReply, member_task, enough_responses, handle_fetch_key,
}
use seal.Aggregator.Server.Members.{
  All-successes, Distinct-successes, NoPanic-map, All-take, Distinct-take, member_task-Returns,
  member_task-ok,
}
use seal.Tss.Checks.{All-map_iff, Distinct-map}

module _ (w : Web) (b : Bls12381) where
  open w use {VersionReq}
  open b use {Scalar, g1, g2}

  -- A member with a small party id, whose partial public key is that of its master share.
  abbrev pub IsGenuine : (ℕ → Scalar) → Member w b → Type 0
  IsGenuine share_of m =
      (m.party_id < 65535) × (m.partial_pk ≡ public_key_from_master_key b (share_of m.party_id))

  -- One key for each expected id, which opens to what the master key extracts.
  abbrev pub OpensAll : Scalar → Scalar → List Bytes → FetchKeyResponse (Group.Element g1) → Type 0
  OpensAll sk master_key expected reply =
      AreDistinct (ids_in reply.decryption_keys)
      × ((id : Bytes) → Elem id (ids_in reply.decryption_keys) ↔ Elem id expected)
      × All
          (λ (dk : DecryptionKey (Group.Element g1)).
            Elgamal.decrypt g1 sk dk.encrypted_key ≡ extract b master_key dk.id)
          reply.decryption_keys

  module _ (r : Recovery g1) (sk : Scalar) (share_of : ℕ → Scalar) (master_key : Scalar)
      (threshold : ℕ) (members : List (Member w b)) (expected : List Bytes)
      (recombines : (parties : List ℕ)
        → length parties ≡ threshold
        → Distinct (λ (i : ℕ). i) parties
        → All (λ i. Elem i (map (λ (m : Member w b). m.party_id) members)) parties
        → (p : Group.Element g1)
        → combine g1
            (Recovery.coefficient r (map (λ i. i + 1) parties))
            (map (λ i. (i + 1, Group.times g1 p (share_of i))) parties)
          ≡ Group.times g1 p master_key)
      (positive : 0 < threshold) (fits : threshold < 2 ^ 16)
      (genuine : All (IsGenuine share_of) members)
      (apart : Distinct (λ (m : Member w b). m.party_id) members) (distinct : AreDistinct expected)
      (some_id : is_empty expected ≡ false) where
    open r use {recover_c0, coefficient}

    -- The replies that are aggregated: the first successes.
    replies_open :
        (has_credentials : String → Bool) (send : Member w b → Option (HttpReply w b))
        (requirement : VersionReq)
        → threshold
          ≤ length (
              successes (
                map
                  (member_task w b has_credentials send requirement (public_key g2 sk) expected)
                  members))
        → (reply : FetchKeyResponse (Group.Element g1)) × (aggregate_verified_encrypted_responses
              recover_c0 threshold
              (take threshold (
                successes (
                  map
                    (member_task w b has_credentials send requirement (public_key g2 sk) expected)
                    members)))
            ≡ ok reply)
          × OpensAll sk master_key expected reply
    replies_open has_credentials send requirement enough =
        let task = member_task w b has_credentials send requirement (public_key g2 sk) expected in
        let good = successes (map task members) in
        let replies = take threshold good in
        let party : ℕ × FetchKeyResponse (Group.Element g1) → ℕ = λ p. p.0 in
        let party_of : Member w b → ℕ = λ m. m.party_id in
        let of_task =
          member_task-ok w b has_credentials send requirement (public_key g2 sk) expected in
        let full : length replies ≡ threshold =
          ground (arith, length-take threshold good, enough) in
        let accepted = All-take (IsAccepted b sk share_of expected) threshold good (
          All-successes task (IsAccepted b sk share_of expected) members (λ m at y e.
            let (same, verified) = of_task m y e in
            let (small, own) = All-get (IsGenuine share_of) members m genuine at in
            ap (λ k. verify_decryption_keys b y.1.decryption_keys k (public_key g2 sk) expected)
              (ap (λ i. public_key_from_master_key b (share_of i)) same ∙ sym own)
            ∙ verified)) in
        let small =
          All-take (λ (p : ℕ × FetchKeyResponse (Group.Element g1)). p.0 < 65535) threshold good
            (All-successes task (λ p. p.0 < 65535) members
              (λ m at y e. omega (
                arith,
                (All-get (IsGenuine share_of) members m genuine at).0,
                (of_task m y e).0,
              ))) in
        let differ =
          Distinct-take party threshold good
            (Distinct-successes task party_of party members (λ m y e. (of_task m y e).0) apart) in
        let of_members =
          All-take
            (λ (p : ℕ × FetchKeyResponse (Group.Element g1)). Elem p.0 (map party_of members))
            threshold good
            (All-successes task (λ p. Elem p.0 (map party_of members)) members
              (λ m at y e.
                subst (λ i. Elem i (map party_of members)) (sym (of_task m y e).0)
                  (Elem-map party_of members m at))) in
        let parties = map party replies in
        let adds_up =
          recombines parties (length-map party replies ∙ full) (Distinct-map party replies differ)
            ((All-map_iff party (λ i. Elem i (map party_of members)) replies).1 of_members) in
        let (reply, returns, once, same_ids, opens) =
          decrypt-aggregate_verified_encrypted_responses b sk share_of r master_key threshold
            expected replies
            (λ p.
              ap₂ (λ is ks. combine g1 (coefficient is) ks)
                (sym (map-map (λ i. i + 1) party replies))
                (sym (map-map (λ i. (i + 1, Group.times g1 p (share_of i))) party replies))
              ∙ adds_up p)
            positive fits full small differ distinct accepted in
        (reply, returns, (once, same_ids, opens))

    -- For a committee of different parties with ids below 65535, whose partial public keys are those
    -- of their master shares, any threshold many of which recombine to the master key; for accepted
    -- headers and a set of expected ids that is not empty; whatever the members' servers send, and in
    -- whatever order the calls complete: if at least `threshold` of the calls return, the aggregator
    -- replies with one key for each expected id, which opens with the ephemeral secret key to what the
    -- master key extracts for the id; otherwise it returns an error.
    pub handle_fetch_key-OpensAll :
        (visit : Tally → Tally) (ts_requirement rust_requirement requirement : VersionReq)
        (headers : Headers w) (sdk : ClientSdkType × String) (has_credentials : String → Bool)
        (send : Member w b → Option (HttpReply w b))
        → validate_client_sdk_headers w headers ts_requirement rust_requirement ≡ ok sdk
        → ((threshold
              ≤ length (
                  successes (
                    map
                      (member_task w b has_credentials send requirement (public_key g2 sk) expected)
                      members)))
            → (reply : FetchKeyResponse (Group.Element g1)) × (handle_fetch_key w b recover_c0 visit
                  ts_requirement rust_requirement headers
                  (ok expected)
                  threshold
                  (λ ids.
                    map
                      (member_task w b has_credentials send requirement (public_key g2 sk) ids)
                      members)
                ≡ ok reply)
              × OpensAll sk master_key expected reply)
          × ((length (
                  successes (
                    map
                      (member_task w b has_credentials send requirement (public_key g2 sk) expected)
                      members))
                < threshold)
              → (e : ErrorResponse) × (handle_fetch_key w b recover_c0 visit ts_requirement
                    rust_requirement headers
                    (ok expected)
                    threshold
                    (λ ids.
                      map
                        (member_task w b has_credentials send requirement (public_key g2 sk) ids)
                        members)
                  ≡ err e))
    unfolding handle_fetch_key enough_responses
    handle_fetch_key-OpensAll visit ts_requirement rust_requirement requirement headers sdk
          has_credentials send accepted_headers =
        let task = member_task w b has_credentials send requirement (public_key g2 sk) expected in
        let results = map task members in
        let (responses, errors, collected, firsts, few) =
          collect-successes threshold results positive (
            NoPanic-map task members (
              member_task-Returns w b has_credentials send requirement (public_key g2 sk)
                expected)) in
        (
          λ enough.
              let (reply, returns, opens) = replies_open has_credentials send requirement enough in
              let full : ltb (length responses) threshold ≡ false = ground (
                arith,
                ap length (firsts enough),
                length-take threshold (successes results),
                enough,
              ) in
              (
                reply,
                rw (accepted_headers, some_id, collected, full, firsts enough, returns) refl,
                opens,
              ),
          λ missing.
              let short : ltb (length responses) threshold ≡ true = ground (arith, few missing) in
              (
                handle_insufficient_responses visit errors,
                rw (accepted_headers, some_id, collected, short) refl,
              ),
        )
