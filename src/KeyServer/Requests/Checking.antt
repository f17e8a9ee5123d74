-- ===== src/KeyServer/Requests/Checking.antt =====
-- crates/key-server/src/server.rs: the checks of a request in their order, and the handler.
use Prim.Native.String.{String}
use seal.Base.{
  panic, ℕ, ◌≡◌, List, Option, some, none, Bool, false, true, Bytes, bytes_eq, Table, Result, ok,
  err, ◌>>=◌, U8, reject_if, ◌>>◌, reject_if-ok, not, >>=-ok, refl, some-injective, ok-injective,
  ap, subst, sym, ◌∙◌, bytes_eq_iff,
}
use seal.KeyServer.Errors.{Answer, failure, invalid_mvr_name}
use seal.KeyServer.MasterKeys.{MasterKeys, get_key_for_package}
use seal.KeyServer.ValidPtb.{Sui, Ptb, pkg_id, full_ids}
use seal.KeyServer.Requests.{
  not_found, no_code, invalid_argument, other_code, Platform, Certificate, RpcError, Simulation,
  check_signature, fetch_first_pkg_id, resolve_name, check_mvr_package_id, check_policy,
  policy_outcome, simulation_error,
}

module _ {Key : Type 0} where
  unfoldable pub has_key_for_package : MasterKeys Key → Bytes → Answer (Unit {0})
  has_key_for_package master_keys id = do key ← get_key_for_package master_keys id; ok tt

-- `mvr_name.unwrap_or(first_pkg_id.to_hex_uncompressed())`
abbrev pub name_or : Option String → String → String
name_or none text = text
name_or (some name) text = name

-- What a server asks: the resolution of packages and names, the cached names, and the simulation of
-- the transaction with its staleness check.
pub record Chain (s : Sui) : Type 0 where
  pub fetch_package_original_id : Bytes → Result RpcError Bytes
  pub mvr_forward_resolution : String → Answer Bytes
  pub mvr_cache : String → Option Bytes
  pub simulate : Ptb s → Result (RpcError × String) Simulation

module _ (p : Platform) (s : Sui) (chain : Chain s) (to_hex_uncompressed : Bytes → String) where
  open p use {Signature}
  open chain use {fetch_package_original_id, mvr_forward_resolution, mvr_cache, simulate}

  module _ {Key : Type 0} where
    unfoldable pub check_request :
        MasterKeys Key
        → Table Bytes
        → Bool
        → ℕ
        → ℕ
        → Ptb s
        → List U8
        → Signature
        → Certificate p
        → Answer (Bytes × List Bytes)
    check_request master_keys cache overflow_checks session_key_ttl_max now valid_ptb signed_msg
          request_signature certificate =
        do
          own_pkg ← pkg_id s valid_ptb
          resolved ← fetch_first_pkg_id fetch_package_original_id cache own_pkg
          has_key_for_package master_keys resolved.0
          check_mvr_package_id mvr_forward_resolution mvr_cache certificate.mvr_name resolved.0
          check_signature p overflow_checks session_key_ttl_max now signed_msg request_signature
              certificate (name_or certificate.mvr_name (to_hex_uncompressed resolved.0))
          check_policy (simulate valid_ptb)
          ids ← full_ids s valid_ptb resolved.0
          ok (resolved.0, ids)

  -- A policy that passes: the simulation returned, not stale and without an error.
  check_policy-ok :
      (simulated : Result (RpcError × String) Simulation)
      → check_policy simulated ≡ ok tt
      → (result : Simulation) × (simulated ≡ ok result)
        × (result.is_stale ≡ false)
        × (result.error ≡ none)
  unfolding check_policy policy_outcome simulation_error
  check_policy-ok (ok result) h =
      let (fresh, h1) = reject_if-ok result.is_stale (failure "Fullnode is stale") _ h in
      (result, refl, fresh, no_error result.error h1)
    where
      no_error : (e : Option (Bool × String)) → policy_outcome e ≡ ok tt → e ≡ none
      no_error none h = refl
      no_error (some (true, text)) h = cc h
      no_error (some (false, text)) h = cc h
  check_policy-ok (err (not_found, text)) h = cc h
  check_policy-ok (err (no_code, text)) h = cc h
  check_policy-ok (err (invalid_argument, text)) h = cc h
  check_policy-ok (err (other_code, text)) h = cc h
  check_policy-ok panic h = cc h

  -- A name that passes points to the package.
  check_mvr_package_id-ok :
      (mvr_name : Option String) (first : Bytes) {done : Unit {0}}
      → check_mvr_package_id mvr_forward_resolution mvr_cache mvr_name first ≡ ok done
      → (name : String) → mvr_name ≡ some name
      → resolve_name mvr_forward_resolution mvr_cache name ≡ ok first
  unfolding check_mvr_package_id
  check_mvr_package_id-ok none first h name e = cc e
  check_mvr_package_id-ok (some given) first h name e =
      let same : given ≡ name = some-injective given name e in
      let (id, resolved, h1) = >>=-ok (resolve_name mvr_forward_resolution mvr_cache given) _ h in
      ap (resolve_name mvr_forward_resolution mvr_cache) (sym same)
      ∙ resolved
      ∙ ap (λ i. ok i) ((bytes_eq_iff id first).0 (passes (bytes_eq id first) h1))
    where
      passes : (t : Bool) {d : Unit {0}} → reject_if (not t) invalid_mvr_name ≡ ok d → t ≡ true
      passes true k = refl
      passes false k = cc k

  -- What an accepted request has passed.
  abbrev Passed :
      {Key : Type 0}
      → MasterKeys Key
      → Bool
      → ℕ
      → ℕ
      → Ptb s
      → List U8
      → Signature
      → Certificate p
      → Bytes × List Bytes
      → Type 0
  Passed {Key} master_keys overflow_checks session_key_ttl_max now valid_ptb signed_msg
        request_signature certificate (first, ids) =
      ((key : Key) × (get_key_for_package master_keys first ≡ ok key))
      × ((name : String)
          → certificate.mvr_name ≡ some name
          → resolve_name mvr_forward_resolution mvr_cache name ≡ ok first)
      × (check_signature p overflow_checks session_key_ttl_max now signed_msg request_signature
            certificate (name_or certificate.mvr_name (to_hex_uncompressed first))
          ≡ ok tt)
      × ((result : Simulation) × (simulate valid_ptb ≡ ok result)
          × (result.is_stale ≡ false)
          × (result.error ≡ none))
      × (full_ids s valid_ptb first ≡ ok ids)

  -- A request that is accepted has passed every check, for the package that it is answered for: the
  -- server has a key for that package, a name of the request points to it, the signatures hold for
  -- that name or package, and the simulation of the transaction returned, not stale and without an
  -- error; the keys are for the ids of the transaction in that package.
  pub check_request-ok :
      {Key : Type 0} (master_keys : MasterKeys Key) (cache : Table Bytes) (overflow_checks : Bool)
      (session_key_ttl_max now : ℕ) (valid_ptb : Ptb s) (signed_msg : List U8)
      (request_signature : Signature) (certificate : Certificate p) (first : Bytes)
      (ids : List Bytes)
      → check_request master_keys cache overflow_checks session_key_ttl_max now valid_ptb signed_msg
          request_signature certificate
        ≡ ok (first, ids)
      → ((key : Key) × (get_key_for_package master_keys first ≡ ok key))
        × ((name : String)
            → certificate.mvr_name ≡ some name
            → resolve_name mvr_forward_resolution mvr_cache name ≡ ok first)
        × (check_signature p overflow_checks session_key_ttl_max now signed_msg request_signature
              certificate
              (name_or certificate.mvr_name (to_hex_uncompressed first))
            ≡ ok tt)
        × ((result : Simulation) × (simulate valid_ptb ≡ ok result)
            × (result.is_stale ≡ false)
            × (result.error ≡ none))
        × (full_ids s valid_ptb first ≡ ok ids)
  unfolding check_request has_key_for_package
  check_request-ok {Key} master_keys cache overflow_checks session_key_ttl_max now valid_ptb
        signed_msg request_signature certificate first ids returns =
      let (own_pkg, of_ptb, h1) = >>=-ok (pkg_id s valid_ptb) _ returns in
      let (resolved, found, h2) =
        >>=-ok (fetch_first_pkg_id fetch_package_original_id cache own_pkg) _ h1 in
      let (u, served, h3) = >>=-ok (has_key_for_package master_keys resolved.0) _ h2 in
      let (key, there, h4) = >>=-ok (get_key_for_package master_keys resolved.0) _ served in
      let (v, named, h5) =
        >>=-ok
          (check_mvr_package_id mvr_forward_resolution mvr_cache certificate.mvr_name resolved.0) _
          h3 in
      let (x, signed, h6) =
        >>=-ok
          (check_signature p overflow_checks session_key_ttl_max now signed_msg request_signature
            certificate (name_or certificate.mvr_name (to_hex_uncompressed resolved.0)))
          _ h5 in
      let (y, policy, h7) = >>=-ok (check_policy (simulate valid_ptb)) _ h6 in
      let (own, all_ids, h8) = >>=-ok (full_ids s valid_ptb resolved.0) _ h7 in
      let same : (resolved.0, own) ≡ (first, ids) =
        ok-injective (resolved.0, own) (first, ids) h8 in
      subst
        (Passed master_keys overflow_checks session_key_ttl_max now valid_ptb signed_msg
          request_signature certificate)
        same
        (
          (key, there),
          check_mvr_package_id-ok certificate.mvr_name resolved.0 named,
          signed,
          check_policy-ok (simulate valid_ptb) policy,
          all_ids,
        )
