-- ===== src/Aggregator/Server/Requests.antt =====
-- crates/key-server/src/aggregator/server.rs: the call of one member's server, and the handler of a
-- request. What a server sends is a parameter, and so is what the chain says of the package.
use Prim.Native.String.{String}
use seal.Base.{if◌then◌else◌, ℕ, List, [], Option, some, none, Bool, Bytes, ok, err, ◌>>◌, ◌>>=◌}
use seal.Utils.{is_empty}
use seal.External.{Bls12381, Group}
use seal.Sdk.{FetchKeyResponse}
use seal.KeyServer.Errors.{failure, invalid_ptb, ErrorResponse, error_response, Answer}
use seal.KeyServer.Common.{Web, Headers}
use seal.Aggregator.{
  verify_decryption_keys, aggregate_verified_encrypted_responses, Outcome, reject_if, not, length,
  map_err,
}
use seal.Aggregator.Server.{
  Relayed, relay, Tally, handle_insufficient_responses, collect, validate_client_sdk_headers,
  validate_key_server_version, ok_or, ltb,
}

module _ (w : Web) (b : Bls12381) where
  open w use {HeaderValue, VersionReq}
  open b use {g1, g2}

  -- `PartialKeyServer`, the fields that are read.
  pub record Member : Type 0 where
    pub name : String
    pub party_id : ℕ
    pub partial_pk : Group.Element g2

  -- What a member's server sends; its body as the one or the other type, if it parses.
  pub record HttpReply : Type 0 where
    pub is_success : Bool
    pub error_body : Option ErrorResponse
    pub keyserver_version : Option HeaderValue
    pub body : Option (FetchKeyResponse (Group.Element g1))

  -- The error of a reply without success.
  unfoldable pub refused : Option ErrorResponse → ErrorResponse
  refused none = error_response (failure "HTTP {status} (req_id: {})")
  refused (some reply) = reply

  -- A success: its version, its body and its keys are checked.
  unfoldable pub accept_reply :
      VersionReq
      → Group.Element g2
      → List Bytes
      → Member
      → HttpReply
      → Relayed (FetchKeyResponse (Group.Element g1))
  accept_reply requirement ephemeral_vk expected member response = do
    relay (validate_key_server_version w response.keyserver_version requirement)
    body ← relay (ok_or response.body (failure "Parse failed: {e} (req_id: {})"))
    relay (verify_decryption_keys b body.decryption_keys member.partial_pk ephemeral_vk expected)
    ok body

  unfoldable pub fetch_from_member :
      (Member → Option HttpReply)
      → VersionReq
      → Group.Element g2
      → List Bytes
      → Member
      → Relayed (FetchKeyResponse (Group.Element g1))
  fetch_from_member send requirement ephemeral_vk expected member = do
    response ← relay (ok_or (send member) (failure "Request failed (req_id: {}): {}"))
    if response.is_success
        then accept_reply requirement ephemeral_vk expected member response
        else err (refused response.error_body)

  -- The task for one member: its credentials, then its reply with its party.
  unfoldable pub member_task :
      (String → Bool)
      → (Member → Option HttpReply)
      → VersionReq
      → Group.Element g2
      → List Bytes
      → Member
      → Relayed (ℕ × FetchKeyResponse (Group.Element g1))
  member_task has_credentials send requirement ephemeral_vk expected member = do
    relay (
        reject_if (not (has_credentials member.name))
          (failure "Missing API credentials config for server '{}' ({})"))
    response ← fetch_from_member send requirement ephemeral_vk expected member
    ok (member.party_id, response)

  -- The replies, if there are enough, or the error that most servers gave.
  unfoldable pub enough_responses :
      (Tally → Tally)
      → ℕ
      → List (ℕ × FetchKeyResponse (Group.Element g1)) × List ErrorResponse
      → Relayed (List (ℕ × FetchKeyResponse (Group.Element g1)))
  enough_responses visit threshold (responses, errors) =
      if ltb (length responses) threshold
      then err (handle_insufficient_responses visit errors)
      else ok responses

  -- `handle_fetch_key`, from the results of the tasks in the order of completion. The expected ids
  -- are what `get_expected_full_ids` returned.
  unfoldable pub handle_fetch_key :
      (ℕ → List (ℕ × Group.Element g1) → Outcome (Group.Element g1))
      → (Tally → Tally)
      → VersionReq
      → VersionReq
      → Headers w
      → Answer (List Bytes)
      → ℕ
      → (List Bytes → List (Relayed (ℕ × FetchKeyResponse (Group.Element g1))))
      → Relayed (FetchKeyResponse (Group.Element g1))
  handle_fetch_key recover_c0 visit ts_requirement rust_requirement headers full_ids threshold
        results =
      do
        sdk ← relay (validate_client_sdk_headers w headers ts_requirement rust_requirement)
        expected ← relay full_ids
        relay (reject_if (is_empty expected) (invalid_ptb "Empty key ids"))
        collected ← collect threshold (length (results expected)) (results expected) [] [] 0
        responses ← enough_responses visit threshold collected
        map_err (λ e. error_response (failure "Aggregating responses failed: {e}"))
            (aggregate_verified_encrypted_responses recover_c0 threshold responses)
