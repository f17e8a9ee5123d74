-- ===== src/KeyServer/Common/Versions.antt =====
-- The names of the kinds of clients, and the versions that the aggregator's clients must have.
use seal.Base.{◌≡◌, refl, some, none, ok}
use seal.KeyServer.Common.{
  ClientSdkType, aggregator, type_script, rust, other, from_text, from_header, sdk_type_str,
}

-- The kind of a client is read back from its name in the header, and a header that is not there
-- gives the kind `other`.
pub from_header-sdk_type_str :
    (sdk_type : ClientSdkType)
    → (from_header (some (sdk_type_str sdk_type)) ≡ ok sdk_type) × (from_header none ≡ ok other)
unfolding from_header from_text sdk_type_str
from_header-sdk_type_str aggregator = (refl, refl)
from_header-sdk_type_str type_script = (refl, refl)
from_header-sdk_type_str rust = (refl, refl)
from_header-sdk_type_str other = (refl, refl)
