-- ===== src/Dem.antt =====
-- crates/crypto/src/dem.rs: the data encapsulation, by AES-256-GCM or by HMAC-SHA3-256 in counter
-- mode, and the two enumerations of crates/crypto/src/lib.rs that it works on. Keys are lists of 32
-- bytes. The primitives are a parameter.
pub mod Hmac256Ctr
pub mod RoundTrip
use seal.Base.{List, [], ◌∷◌, map, Option, none, some, U8, u8, Outcome, ok}
use seal.External.{Primitives}

pub data EncryptionInput : Type 0 where
  aes256_gcm hmac256_ctr : List U8 → Option (List U8) → EncryptionInput
  plain : EncryptionInput

pub data Ciphertext : Type 0 where
  aes256_gcm : List U8 → Option (List U8) → Ciphertext
  hmac256_ctr : List U8 → Option (List U8) → List U8 → Ciphertext
  plain : Ciphertext

-- `aad.as_ref().unwrap_or(&vec![])`
abbrev pub aad_or_empty : Option (List U8) → List U8
aad_or_empty none = []
aad_or_empty (some aad) = aad

-- `Aes256Gcm::IV`
abbrev pub fixed_iv : List U8
fixed_iv =
    map u8 (
      138 ∷ 55 ∷ 153 ∷ 253 ∷ 198 ∷ 46 ∷ 121 ∷ 219 ∷ 160 ∷ 128 ∷ 89 ∷ 7 ∷ 214 ∷ 156 ∷ 148 ∷ 220 ∷ [])

module _ (c : Primitives) where
  open c use {aes_encrypt, aes_decrypt}

  -- `Aes256Gcm::encrypt`, `Aes256Gcm::decrypt`
  unfoldable pub gcm_encrypt : List U8 → List U8 → List U8 → List U8
  gcm_encrypt msg aad key = aes_encrypt key fixed_iv aad msg

  unfoldable pub gcm_decrypt : List U8 → List U8 → List U8 → Outcome (List U8)
  gcm_decrypt ciphertext aad key = aes_decrypt key fixed_iv aad ciphertext

  -- `EncryptionInput::encrypt`
  unfoldable pub encrypt : EncryptionInput → List U8 → Ciphertext
  encrypt (EncryptionInput.aes256_gcm m aad) key =
      Ciphertext.aes256_gcm (gcm_encrypt m (aad_or_empty aad) key) aad
  encrypt (EncryptionInput.hmac256_ctr m aad) key =
      let (blob, mac) = Hmac256Ctr.encrypt c m (aad_or_empty aad) key in
      Ciphertext.hmac256_ctr blob aad mac
  encrypt EncryptionInput.plain key = Ciphertext.plain

  -- `Ciphertext::decrypt`
  unfoldable pub decrypt : Ciphertext → List U8 → Outcome (List U8)
  decrypt (Ciphertext.aes256_gcm blob aad) key = gcm_decrypt blob (aad_or_empty aad) key
  decrypt (Ciphertext.hmac256_ctr blob aad mac) key =
      Hmac256Ctr.decrypt c blob mac (aad_or_empty aad) key
  decrypt Ciphertext.plain key = ok key
