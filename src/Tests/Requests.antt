-- ===== src/Tests/Requests.antt =====
-- Replies, durations and requests.
use Prim.Native.String.{String}
use seal.Base.{
  ◌==◌, ◌<◌, ◌⊎◌, leb, List, [], ◌∷◌, u8, false, none, err, Elem, length, ◌+◌, ◌*◌, ◌≤◌, ◌≡◌, ◌↔◌,
  some, ok, arith, true, ℕ, refl,
}
use seal.KeyServer.Errors.{InternalError, error_response, failure}
use seal.Aggregator.Server.{
  Relayed, collect, handle_insufficient_responses, validate_client_sdk_version,
}
use seal.Aggregator.Server.Versions.{validate_client_sdk_version_iff}
use seal.Aggregator.Server.Majority.{count, handle_insufficient_responses_majority}
use seal.Aggregator.Server.Collection.{collect-successes}
use seal.KeyServer.Common.{Web, rust, other, type_script, from_header, sdk_type_str}
use seal.KeyServer.Common.Versions.{from_header-sdk_type_str}
use seal.KeyServer.Errors.{ErrorResponse}
use seal.KeyServer.MasterKeys.{rotation, share_at}
use seal.KeyServer.Requests.{Platform, Certificate, check_signature}
use seal.KeyServer.Requests.Certificates.{check_signature_iff}
use seal.KeyServer.VersionUpdater.{
  Updater, watching, finished, observe, observe_all, Reach, Observation, version_changed, here,
  next, changed,
}
use seal.KeyServer.VersionUpdater.Progress.{IsOutcome, share_at-Reach, observe_all-finished}
use seal.KeyServer.Time.{checked_duration_since, from_mins}
use seal.KeyServer.Time.Bounds.{checked_duration_since_iff, from_mins_iff}

abbrev overloaded : InternalError
overloaded = failure "connection pool exhausted"

checked_duration_since_iff_example : (checked_duration_since 500 200 ≡ some 300) ↔ (200 + 300 ≡ 500)
checked_duration_since_iff_example = checked_duration_since_iff 500 200 300

from_mins_iff_example : (from_mins true 1093 ≡ ok (1093 * 60 * 1000)) ↔ (1093 ≤ 1092)
from_mins_iff_example = from_mins_iff true 1093 (omega arith)

-- Versions are numbers of characters, all texts are headers.
abbrev pub web : Web
web = record {
  HeaderValue = String;
  to_str = λ text. some text;
  Version = ℕ;
  VersionReq = ℕ;
  parse = λ text. some 3;
  matches = λ least version. leb least version;
}

validate_client_sdk_version_iff_example :
    (validate_client_sdk_version web "0.3.0" rust 2 1 ≡ ok tt) ↔ (
      (version : ℕ) × (some 3 ≡ some version)
      × (((rust ≡ type_script) × (leb 2 version ≡ true))
          ⊎ ((rust ≡ rust) × (leb 1 version ≡ true))))
validate_client_sdk_version_iff_example = validate_client_sdk_version_iff web "0.3.0" rust 2 1

from_header-sdk_type_str_example :
    (from_header (some (sdk_type_str rust)) ≡ ok rust) × (from_header none ≡ ok other)
from_header-sdk_type_str_example = from_header-sdk_type_str rust

abbrev stale : ErrorResponse
stale = error_response (failure "stale")

abbrev denied : ErrorResponse
denied = record { error = "NoAccess"; message = "no" }

handle_insufficient_responses_majority_example :
    Elem
      (handle_insufficient_responses (λ t. t) (denied ∷ stale ∷ denied ∷ []))
      (denied ∷ stale ∷ denied ∷ [])
    × (count "Failure" (denied ∷ stale ∷ denied ∷ [])
        ≤ count
            (handle_insufficient_responses (λ t. t) (denied ∷ stale ∷ denied ∷ [])).error
            (denied ∷ stale ∷ denied ∷ []))
handle_insufficient_responses_majority_example =
    handle_insufficient_responses_majority (λ t. t) denied (stale ∷ denied ∷ []) "Failure"
      (λ tally t. ((λ m. m), λ m. m))

abbrev results : List (Relayed ℕ)
results = ok 4 ∷ err stale ∷ ok 6 ∷ ok 8 ∷ []

collect-successes_example :
    (responses : List ℕ) × (errors : List ErrorResponse) × (collect 2 4 results [] [] 0
      ≡ ok (responses, errors))
    × ((2 ≤ 3) → responses ≡ 4 ∷ 6 ∷ [])
    × ((3 < 2) → length responses < 2)
collect-successes_example =
    collect-successes 2 results (omega arith)
      ((λ h. cc h), ((λ h. cc h), ((λ h. cc h), ((λ h. cc h), tt))))

-- Everything is signed, and nobody has an alias.
abbrev pub platform : Platform
platform = record {
  VerifyingKey = ℕ;
  Signature = ℕ;
  UserSignature = ℕ;
  derive_alias_id = λ user. some user;
  object_exists = λ id. some false;
  verify_personal_message = λ signature message user. signature == 7;
  verify = λ vk message signature. vk == signature;
  signed_message = λ name vk creation ttl. name;
}

abbrev pub certificate : Certificate platform
certificate = record {
  user = u8 1 ∷ [];
  session_vk = 5;
  creation_time = 1000;
  ttl_min = 10;
  signature = 7;
  mvr_name = none;
}

check_signature_iff_example :
    check_signature platform true 3600000 2000 [] 5 certificate "pkg" ≡ ok tt
check_signature_iff_example =
    (check_signature_iff platform true 3600000 2000 [] 5 certificate "pkg" (omega arith)).1
      (omega arith, omega arith, omega arith, (u8 1 ∷ [], refl, refl), refl, refl)

abbrev watching_from : Updater
watching_from = record { committee_version = 3; task = watching }

abbrev finished_at : Updater
finished_at = record { committee_version = 4; task = finished }

-- The version before the target, and then the target.
abbrev shown : List Observation
shown = version_changed 4 true ∷ version_changed 3 true ∷ []

reaches_target : Reach 4 watching_from shown finished_at
unfolding observe
reaches_target =
    next (next here (changed watching_from true 3 refl)) (changed watching_from true 4 refl)

share_at-Reach_example :
    IsOutcome 4 3 shown finished_at
    × ((finished_at.task ≡ finished → ⊥) → share_at {Key = ℕ} (rotation (some 10) 20 4) 4 ≡ ok 10)
    × (finished_at.task ≡ finished → share_at {Key = ℕ} (rotation (some 10) 20 4) 4 ≡ ok 20)
unfolding share_at
share_at-Reach_example =
    share_at-Reach (some 10) 20 10 4 shown watching_from finished_at (omega arith) refl refl
      reaches_target

observe_all-finished_example :
    observe_all 4 true (3 ∷ 3 ∷ 4 ∷ 9 ∷ []) watching_from
    ≡ record { committee_version = 4; task = finished }
observe_all-finished_example =
    observe_all-finished 4 (3 ∷ 3 ∷ []) (9 ∷ []) watching_from refl (omega arith) (refl, (refl, tt))
