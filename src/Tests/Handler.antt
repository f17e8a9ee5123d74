-- ===== src/Tests/Handler.antt =====
-- A request that the key server accepts.
use Prim.Native.String.{String}
use seal.Base.{
  err, get, traverse, ◌≡◌, refl, List, [], ◌∷◌, some, none, true, false, Bytes, u8, ok, ℕ,
}
use seal.KeyServer.Errors.{failure}
use seal.KeyServer.MasterKeys.{MasterKeys, get_key_for_package}
use seal.KeyServer.ValidPtb.{full_ids, inner_ids, inner_id, pkg_id, get_key_id}
use seal.KeyServer.Requests.{
  has_address_aliases, policy_outcome, Simulation, check_signature, check_policy,
  fetch_first_pkg_id, check_mvr_package_id, resolve_name,
}
use seal.KeyServer.Requests.Checking.{
  Chain, check_request, check_request-ok, has_key_for_package, name_or,
}
use seal.KeyServer.Time.{from_mins, checked_duration_since, duration_since}
use seal.Seal.{create_full_id}
use seal.Tests.Server.{sui, transaction}
use seal.Tests.Requests.{platform, certificate}

abbrev chain : Chain sui
chain = record {
  fetch_package_original_id = λ id. ok id;
  mvr_forward_resolution = λ name. err (failure name);
  mvr_cache = λ name. none;
  simulate = λ ptb. ok (record { is_stale = false; error = none });
}

abbrev hex : Bytes → String
hex id = "0x01"

abbrev keys : MasterKeys ℕ
keys = MasterKeys.open_mode 12

abbrev first_pkg : Bytes
first_pkg = u8 1 ∷ []

abbrev ids : List Bytes
ids = (u8 1 ∷ u8 7 ∷ u8 8 ∷ []) ∷ (u8 1 ∷ u8 7 ∷ u8 8 ∷ []) ∷ []

accepted :
    check_request platform sui chain hex keys [] true 3600000 2000 transaction [] 5 certificate
    ≡ ok (first_pkg, ids)
unfolding check_request has_key_for_package get_key_for_package fetch_first_pkg_id get
    check_mvr_package_id check_signature from_mins checked_duration_since duration_since
    has_address_aliases check_policy policy_outcome full_ids inner_ids inner_id pkg_id get_key_id
    traverse create_full_id
accepted = refl

check_request-ok_example :
    ((key : ℕ) × (get_key_for_package keys first_pkg ≡ ok key))
    × ((name : String)
        → certificate.mvr_name ≡ some name
        → resolve_name chain.mvr_forward_resolution chain.mvr_cache name ≡ ok first_pkg)
    × (check_signature platform true 3600000 2000 [] 5 certificate
          (name_or certificate.mvr_name (hex first_pkg))
        ≡ ok tt)
    × ((result : Simulation) × (chain.simulate transaction ≡ ok result)
        × (result.is_stale ≡ false)
        × (result.error ≡ none))
    × (full_ids sui transaction first_pkg ≡ ok ids)
check_request-ok_example =
    check_request-ok platform sui chain hex keys [] true 3600000 2000 transaction [] 5 certificate
      first_pkg ids accepted
