-- ===== src/KeyServer/Errors.antt =====
-- crates/key-server/src/errors.rs: the errors of the key server with their HTTP replies, and results
-- with them. A text that the source formats with numbers or ids is its format string.
pub mod Replies
use Prim.Native.String.{String, ◌++◌}
use text.Mathlib.Text.{◌==◌}
use seal.Base.{Result, ℕ, Bool, ◌||◌, if◌then◌else◌}

pub data InternalError : Type 0 where
  invalid_ptb no_access missing_required_header invalid_parameter failure : String → InternalError
  invalid_package invalid_signature invalid_session_signature invalid_certificate : InternalError
  invalid_sdk_type invalid_sdk_version deprecated_sdk_version : InternalError
  invalid_mvr_name invalid_service_id unsupported_package_id : InternalError

-- `Result<A, InternalError>`, or a panic.
abbrev pub Answer {ℓ} : Type ℓ → Type ℓ
Answer A = Result InternalError A

pub record ErrorResponse : Type 0 where
  pub error : String
  pub message : String

unfoldable pub as_str : InternalError → String
as_str (invalid_ptb inner) = "InvalidPTB"
as_str invalid_package = "InvalidPackage"
as_str (no_access inner) = "NoAccess"
as_str invalid_certificate = "InvalidCertificate"
as_str invalid_signature = "InvalidSignature"
as_str invalid_session_signature = "InvalidSessionSignature"
as_str invalid_sdk_type = "InvalidSDKType"
as_str invalid_sdk_version = "InvalidSDKVersion"
as_str deprecated_sdk_version = "DeprecatedSDKVersion"
as_str (missing_required_header inner) = "MissingRequiredHeader"
as_str (invalid_parameter inner) = "InvalidParameter"
as_str invalid_mvr_name = "InvalidMVRName"
as_str invalid_service_id = "InvalidServiceId"
as_str unsupported_package_id = "UnsupportedPackageId"
as_str (failure inner) = "Failure"

unfoldable pub message_of : InternalError → String
message_of (invalid_ptb inner) = "Invalid PTB: " ++ inner
message_of invalid_package = "Invalid package ID"
message_of (no_access inner) = "Access denied: " ++ inner
message_of invalid_certificate = "Invalid certificate time or ttl"
message_of invalid_signature = "Invalid user signature"
message_of invalid_sdk_type = "Invalid SDK type"
message_of invalid_sdk_version = "Invalid SDK version"
message_of deprecated_sdk_version = "Deprecated SDK version"
message_of (missing_required_header inner) = "Missing required header: " ++ inner
message_of invalid_session_signature = "Invalid session key signature"
message_of (invalid_parameter inner) = "Invalid parameter to PTB: " ++ inner
message_of invalid_mvr_name = "Invalid MVR name"
message_of invalid_service_id = "Invalid service ID"
message_of unsupported_package_id = "Unsupported package ID"
message_of (failure inner) = "Internal server error, please try again later"

-- `From<InternalError>`
unfoldable pub error_response : InternalError → ErrorResponse
error_response err = record { error = as_str err; message = message_of err }

-- `StatusCode`, the variants that are sent.
pub data StatusCode : Type 0 where
  forbidden bad_request upgrade_required service_unavailable : StatusCode

-- The status of `into_response`, by the name of the error.
unfoldable pub status : ErrorResponse → StatusCode
status reply =
    let name = reply.error in
    if (name == "InvalidPTB")
      || (name == "InvalidPackage")
      || (name == "NoAccess")
      || (name == "InvalidCertificate")
      || (name == "InvalidSignature")
      || (name == "InvalidSessionSignature")
      || (name == "InvalidParameter")
      || (name == "InvalidMVRName")
    then forbidden
    else (if (name == "InvalidSDKType")
          || (name == "InvalidSDKVersion")
          || (name == "InvalidServiceId")
          || (name == "UnsupportedPackageId")
          || (name == "MissingRequiredHeader")
        then bad_request
        else (if name == "DeprecatedSDKVersion" then upgrade_required else service_unavailable))
