-- ===== src/KeyServer/Errors/Replies.antt =====
-- The HTTP status of every error.
use Prim.Native.String.{String}
use seal.Base.{◌≡◌}
use seal.KeyServer.Errors.{InternalError, failure}

abbrev pub IsFailure : InternalError → Type 0
IsFailure e = (text : String) × (e ≡ failure text)
