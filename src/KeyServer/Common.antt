-- ===== src/KeyServer/Common.antt =====
-- crates/key-server/src/common.rs and the validation of SDK versions in crates/key-server/src/server.rs:
-- the kinds of clients and the versions that they must have. Header values are `axum`'s and versions
-- `semver`'s: parameters.
pub mod Versions
use Prim.Native.String.{String}
use text.Mathlib.Text.{◌==◌}
use seal.Base.{
  Option, some, none, Bool, not, if◌then◌else◌, ok, err, ◌>>=◌, ok_or, and_then, reject_if, ◌>>◌,
}
use seal.KeyServer.Errors.{
  Answer, missing_required_header, invalid_sdk_version, deprecated_sdk_version,
}

abbrev pub header_client_sdk_version : String
header_client_sdk_version = "Client-Sdk-Version"

abbrev pub header_client_sdk_type : String
header_client_sdk_type = "Client-Sdk-Type"

abbrev pub header_keyserver_version : String
header_keyserver_version = "X-KeyServer-Version"

abbrev pub sdk_type_aggregator : String
sdk_type_aggregator = "aggregator"

abbrev pub sdk_type_typescript : String
sdk_type_typescript = "typescript"

abbrev pub sdk_type_rust : String
sdk_type_rust = "rust"

pub data ClientSdkType : Type 0 where
  aggregator type_script rust other : ClientSdkType

-- The value of a header, as text if it is; versions and requirements.
pub record Web : Type 1 where
  pub HeaderValue : Type 0
  pub to_str : HeaderValue → Option String
  pub Version : Type 0
  pub VersionReq : Type 0
  pub parse : String → Option Version
  pub matches : VersionReq → Version → Bool

-- `from_header`, for a header that is there.
unfoldable pub from_text : String → ClientSdkType
from_text text =
    if text == sdk_type_aggregator
    then aggregator
    else (if text == sdk_type_typescript
        then type_script
        else (if text == sdk_type_rust then rust else other))

unfoldable pub from_header : Option String → Answer ClientSdkType
from_header none = ok other
from_header (some text) = ok (from_text text)

-- `ClientSdkType::as_str`
unfoldable pub sdk_type_str : ClientSdkType → String
sdk_type_str aggregator = sdk_type_aggregator
sdk_type_str type_script = sdk_type_typescript
sdk_type_str rust = sdk_type_rust
sdk_type_str other = "other"

module _ (w : Web) where
  open w use {HeaderValue, to_str, Version, VersionReq, parse, matches}

  -- `HeaderMap::get`
  abbrev pub Headers : Type 0
  Headers = String → Option HeaderValue

  -- The requirement for the kind of client, if there is one.
  abbrev pub requirement_for :
      ClientSdkType → VersionReq → VersionReq → VersionReq → Option VersionReq
  requirement_for aggregator aggregator_requirement ts_requirement rust_requirement =
      some aggregator_requirement
  requirement_for type_script aggregator_requirement ts_requirement rust_requirement =
      some ts_requirement
  requirement_for rust aggregator_requirement ts_requirement rust_requirement =
      some rust_requirement
  requirement_for other aggregator_requirement ts_requirement rust_requirement = none

  unfoldable pub validate_sdk_version_for_type :
      String → ClientSdkType → VersionReq → VersionReq → VersionReq → Answer (Unit {0})
  validate_sdk_version_for_type version_string sdk_type aggregator_requirement ts_requirement
        rust_requirement =
      do
        version ← ok_or (parse version_string) invalid_sdk_version
        elim (requirement_for sdk_type aggregator_requirement ts_requirement rust_requirement) [
          | none ↦ ok tt
          | some requirement ↦ reject_if (not (matches requirement version)) deprecated_sdk_version
        ]

  -- The checks of the middleware `handle_request_headers`, before the handler runs.
  unfoldable pub handle_request_headers :
      VersionReq → VersionReq → VersionReq → Headers → Answer (ClientSdkType × String)
  handle_request_headers aggregator_requirement ts_requirement rust_requirement headers = do
    sdk_type ← from_header (and_then (headers header_client_sdk_type) to_str)
    version ←
        ok_or (headers header_client_sdk_version)
          (missing_required_header header_client_sdk_version)
    version_str ← ok_or (to_str version) invalid_sdk_version
    validate_sdk_version_for_type version_str sdk_type aggregator_requirement ts_requirement
        rust_requirement
    ok (sdk_type, version_str)
