-- ===== src/Aggregator/Server.antt =====
-- crates/key-server/src/aggregator/server.rs: a request to the aggregator, from the check of its
-- headers to the aggregated reply. What the members' servers send, and the order in which the calls
-- complete, are parameters.
pub mod Majority
pub mod Versions
pub mod Collection
pub mod Requests
pub mod Tasks
pub mod Members
pub mod Handling
use Prim.Native.String.{String}
use text.Mathlib.Text.{◌==◌}
use seal.Base.{
  panic, ℕ, ◌+◌, ◌-◌, List, [], ◌∷◌, ◌++◌, length, Option, none, some, Bool, Bytes, unique, Result,
  Outcome, ok, err, if◌then◌else◌, ◌>>=◌, leb, ok_or, ◌||◌, ◌>>◌, ltb,
}
use seal.Utils.{is_empty}
use seal.External.{Group, Bls12381}
use seal.Sdk.{FetchKeyResponse}
use seal.KeyServer.Errors.{
  InternalError, failure, invalid_ptb, invalid_sdk_type, invalid_sdk_version,
  deprecated_sdk_version, missing_required_header, ErrorResponse, error_response, Answer,
}
use seal.KeyServer.Common.{
  Web, ClientSdkType, aggregator, type_script, rust, other, Headers, from_header,
  header_client_sdk_type, header_client_sdk_version, header_keyserver_version,
}
use seal.Aggregator.{
  verify_decryption_keys, aggregate_verified_encrypted_responses, map_err, reject_if, not,
}

-- `Result<A, ErrorResponse>`
abbrev pub Relayed {ℓ} : Type ℓ → Type ℓ
Relayed A = Result ErrorResponse A

-- The `?` on an `InternalError`.
abbrev pub relay : {A : Type 0} → Answer A → Relayed A
relay = map_err error_response

-- The entry of an error type: how often, and the first such error.
abbrev pub Tally : Type 0
Tally = List (ℕ × ErrorResponse)

-- `entry(error).and_modify(|(count, _)| *count += 1).or_insert((1, err))`; the key is the name of the
-- first error.
unfoldable pub count_error : ErrorResponse → Tally → Tally
count_error e [] = (1, e) ∷ []
count_error e ((n, first) ∷ tally) =
    let rest = count_error e tally in
    if first.error == e.error then (n + 1, first) ∷ tally else (n, first) ∷ rest

unfoldable pub count_errors : List ErrorResponse → Tally → Tally
count_errors [] tally = tally
count_errors (e ∷ errors) tally = count_errors errors (count_error e tally)

-- `max_by_key(count)` over the rest of the entries: the last of those with the greatest count.
unfoldable pub max_by_count : ℕ × ErrorResponse → Tally → ℕ × ErrorResponse
max_by_count best [] = best
max_by_count (m, e) ((n, f) ∷ tally) =
    let with_next = max_by_count (n, f) tally in
    let without = max_by_count (m, e) tally in if leb m n then with_next else without

abbrev pub insufficient_responses : String
insufficient_responses = "Insufficient responses: got {}, need {}. Errors: {:?}"

-- The error of the entry with the greatest count.
unfoldable pub majority_of : Tally → ErrorResponse
majority_of [] = error_response (failure insufficient_responses)
majority_of (entry ∷ tally) = (max_by_count entry tally).1

-- The entries are visited in an order that `HashMap` chooses.
unfoldable pub handle_insufficient_responses : (Tally → Tally) → List ErrorResponse → ErrorResponse
handle_insufficient_responses visit errors = majority_of (visit (count_errors errors []))

module _ {A : Type 0} where
  -- The loop over the results in the order of completion: responses, errors.
  unfoldable pub collect :
      ℕ
      → ℕ
      → List (Relayed A)
      → List A
      → List ErrorResponse
      → ℕ
      → Relayed (List A × List ErrorResponse)
  collect threshold committee_size [] responses errors completed = ok (responses, errors)
  collect threshold committee_size (ok response ∷ results) responses errors completed =
      let responses' = responses ++ (response ∷ []) in
      let completed' = completed + 1 in
      let rest = collect threshold committee_size results responses' errors completed' in
      if leb threshold (length responses')
        || ltb (length responses' + (committee_size - completed')) threshold
      then ok (responses', errors)
      else rest
  collect threshold committee_size (err e ∷ results) responses errors completed =
      let errors' = errors ++ (e ∷ []) in
      let completed' = completed + 1 in
      let rest = collect threshold committee_size results responses errors' completed' in
      if ltb (length responses + (committee_size - completed')) threshold
      then ok (responses, errors')
      else rest
  collect threshold committee_size (panic ∷ results) responses errors completed = panic

module _ (w : Web) where
  open w use {HeaderValue, to_str, Version, VersionReq, parse, matches}

  unfoldable pub validate_client_sdk_version :
      String → ClientSdkType → VersionReq → VersionReq → Answer (Unit {0})
  validate_client_sdk_version version_string sdk_type ts_requirement rust_requirement = do
    version ← ok_or (parse version_string) invalid_sdk_version
    elim sdk_type [
      | type_script ↦ reject_if (not (matches ts_requirement version)) deprecated_sdk_version
      | rust ↦ reject_if (not (matches rust_requirement version)) deprecated_sdk_version
      | aggregator ↦ err invalid_sdk_type
      | other ↦ err invalid_sdk_type
    ]

  unfoldable pub validate_client_sdk_headers :
      Headers w → VersionReq → VersionReq → Answer (ClientSdkType × String)
  validate_client_sdk_headers headers ts_requirement rust_requirement = do
    sdk_type_header ← ok_or (headers header_client_sdk_type) invalid_sdk_type
    type_text ← ok_or (to_str sdk_type_header) invalid_sdk_type
    sdk_type ← from_header (some type_text)
    version ←
        ok_or (headers header_client_sdk_version)
          (missing_required_header header_client_sdk_version)
    version_str ← ok_or (to_str version) invalid_sdk_version
    validate_client_sdk_version version_str sdk_type ts_requirement rust_requirement
    ok (sdk_type, version_str)

  unfoldable pub validate_key_server_version : Option HeaderValue → VersionReq → Answer (Unit {0})
  validate_key_server_version header requirement = do
    value ← ok_or header (failure "Missing key server version header: X-KeyServer-Version")
    text ← ok_or (to_str value) (failure "Invalid key server version header")
    version ← ok_or (parse text) (failure "Failed to parse key server version: {}")
    reject_if (not (matches requirement version))
        (failure "Key server version {} does not meet requirement {}")
