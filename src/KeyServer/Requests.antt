-- ===== src/KeyServer/Requests.antt =====
-- crates/key-server/src/server.rs, common.rs and externals.rs: the checks of a request, and the keys
-- that are handed out. The clock, the chain's answers, the signatures' checks and the texts that are
-- signed are parameters; a cache is the table of what was inserted.
pub mod Certificates
pub mod Responses
pub mod Checking
use Prim.Native.String.{String}
use text.Mathlib.Text.{◌==◌}
use seal.Base.{
  panic, true, false, ℕ, List, [], ◌∷◌, Option, some, none, Bool, Bytes, bytes_eq, Table, get, put,
  Result, ok, err, if◌then◌else◌, U8, ◌>>=◌, true, ok_or, ◌>>◌, reject_if, expect, ltb, not, map,
}
use seal.External.{Bls12381, Group}
use seal.Elgamal as Elgamal
use seal.Ibe.{extract}
use seal.Sdk.{DecryptionKey, FetchKeyResponse}
use seal.KeyServer.Errors.{
  Answer, failure, invalid_certificate, invalid_signature, invalid_session_signature,
  invalid_package, invalid_mvr_name, invalid_parameter, invalid_ptb, no_access,
}
use seal.KeyServer.Time.{from_mins, checked_duration_since}
use seal.KeyServer.MasterKeys.{MasterKeys, get_key_for_package}

-- What an RPC call fails with.
pub data RpcError : Type 0 where
  not_found no_code invalid_argument other_code : RpcError

-- The types and the checks of other crates.
pub record Platform : Type 1 where
  pub VerifyingKey : Type 0
  pub Signature : Type 0
  pub UserSignature : Type 0
  -- `derive_object_id` of the alias key
  pub derive_alias_id : Bytes → Option Bytes
  pub object_exists : Bytes → Option Bool
  -- user's signature, message, user
  pub verify_personal_message : UserSignature → String → Bytes → Bool
  -- session key, message, signature
  pub verify : VerifyingKey → List U8 → Signature → Bool
  -- package name, session key, creation time, minutes
  pub signed_message : String → VerifyingKey → ℕ → ℕ → String

module _ (p : Platform) where
  open p use {
    VerifyingKey, Signature, UserSignature, derive_alias_id, object_exists, verify_personal_message,
    verify, signed_message,
  }

  pub record Certificate : Type 0 where
    pub user : Bytes
    pub session_vk : VerifyingKey
    pub creation_time : ℕ
    pub ttl_min : ℕ
    pub signature : UserSignature
    pub mvr_name : Option String

  unfoldable pub has_address_aliases : Bytes → Answer Bool
  has_address_aliases address = do
    address_aliases_id ← ok_or (derive_alias_id address) invalid_signature
    ok_or (object_exists address_aliases_id) (failure "Failed to check address aliases: {}")

  -- `signed_msg` is the serialisation of the transaction and the user's keys.
  unfoldable pub check_signature :
      Bool → ℕ → ℕ → List U8 → Signature → Certificate → String → Answer (Unit {0})
  check_signature overflow_checks session_key_ttl_max now signed_msg session_sig cert package_name =
      do
        ttl ← from_mins overflow_checks cert.ttl_min
        reject_if (ltb session_key_ttl_max ttl) invalid_certificate
        duration ← ok_or (checked_duration_since now cert.creation_time) invalid_certificate
        reject_if (ltb ttl duration) invalid_certificate
        let msg = signed_message package_name cert.session_vk cert.creation_time cert.ttl_min
        aliased ← has_address_aliases cert.user
        reject_if aliased invalid_signature
        reject_if (not (verify_personal_message cert.signature msg cert.user)) invalid_signature
        reject_if (not (verify cert.session_vk signed_msg session_sig)) invalid_session_signature

-- The error of a failed resolution.
unfoldable pub package_error : RpcError → Answer Bytes
package_error not_found = err invalid_package
package_error no_code = err invalid_package
package_error invalid_argument = err (failure "Failed to resolve package id: {e}")
package_error other_code = err (failure "Failed to resolve package id: {e}")

-- `fetch_first_pkg_id`, with the cache before and after.
unfoldable pub fetch_first_pkg_id :
    (Bytes → Result RpcError Bytes) → Table Bytes → Bytes → Answer (Bytes × Table Bytes)
fetch_first_pkg_id fetch_package_original_id cache pkg_id = elim (get cache pkg_id) [
  | some first ↦ ok (first, cache)
  | none ↦ elim (fetch_package_original_id pkg_id) [
    | ok first ↦ ok (first, put cache pkg_id first)
    | err e ↦ do first ← package_error e; ok (first, cache)
    | panic ↦ panic
  ]
]

-- The package that a name points to: from the cache, or resolved and inserted.
unfoldable pub resolve_name :
    (String → Answer Bytes) → (String → Option Bytes) → String → Answer Bytes
resolve_name mvr_forward_resolution mvr_cache mvr_name = elim (mvr_cache mvr_name) [
  | none ↦ mvr_forward_resolution mvr_name
  | some mvr_package_id ↦ ok mvr_package_id
]

unfoldable pub check_mvr_package_id :
    (String → Answer Bytes) → (String → Option Bytes) → Option String → Bytes → Answer (Unit {0})
check_mvr_package_id mvr_forward_resolution mvr_cache none first_pkg_id = ok tt
check_mvr_package_id mvr_forward_resolution mvr_cache (some mvr_name) first_pkg_id = do
  mvr_package_id ← resolve_name mvr_forward_resolution mvr_cache mvr_name
  reject_if (not (bytes_eq mvr_package_id first_pkg_id)) invalid_mvr_name

-- The effects of a simulation: whether it failed for staleness, and the error if there is one.
pub record Simulation : Type 0 where
  pub is_stale : Bool
  pub error : Option (Bool × String)

-- A simulation that fails.
unfoldable pub simulation_error : RpcError → String → Answer Simulation
simulation_error invalid_argument message = err (invalid_parameter message)
simulation_error not_found message = err (invalid_parameter message)
simulation_error no_code message =
    err (failure "Simulate transaction failed ({e}) (req_id: {req_id:?})")
simulation_error other_code message =
    err (failure "Simulate transaction failed ({e}) (req_id: {req_id:?})")

-- The outcome of the policy: an error with the kind `FunctionNotFound` or another one.
unfoldable pub policy_outcome : Option (Bool × String) → Answer (Unit {0})
policy_outcome none = ok tt
policy_outcome (some (true, text)) =
    err (invalid_ptb "The seal_approve function was not found on the module")
policy_outcome (some (false, text)) = err (no_access text)

-- `check_policy`, from what the simulation of the transaction with its staleness check returned.
unfoldable pub check_policy : Result (RpcError × String) Simulation → Answer (Unit {0})
check_policy (err (e, message)) = do simulated ← simulation_error e message; ok tt
check_policy panic = panic
check_policy (ok simulated) = do
  reject_if simulated.is_stale (failure "Fullnode is stale")
  policy_outcome simulated.error

module _ (b : Bls12381) where
  open b use {Scalar, g1}

  -- The key for one id; `r` is drawn for its encryption.
  unfoldable pub decryption_key :
      Scalar → Group.Element g1 → Bytes × Scalar → DecryptionKey (Group.Element g1)
  decryption_key master_key enc_key (id, r) = record {
    id = id;
    encrypted_key = Elgamal.encrypt g1 r (extract b master_key id) enc_key;
  }

  -- `create_response`, for ids with what is drawn for them.
  unfoldable pub create_response :
      MasterKeys Scalar
      → Bytes
      → List (Bytes × Scalar)
      → Group.Element g1
      → Answer (FetchKeyResponse (Group.Element g1))
  create_response master_keys first_pkg_id ids enc_key = do
    master_key ← expect (get_key_for_package master_keys first_pkg_id)
    ok (record { decryption_keys = map (decryption_key master_key enc_key) ids })
