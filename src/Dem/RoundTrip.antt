-- ===== src/Dem/RoundTrip.antt =====
-- Data encapsulation: what was encapsulated comes back.
use seal.Base.{◌≡◌, refl, List, U8, ok}
use seal.External.{Primitives}
use seal.Dem.{EncryptionInput, aad_or_empty, fixed_iv, gcm_encrypt, gcm_decrypt, encrypt, decrypt}
use seal.Dem.Hmac256Ctr
use seal.Dem.Hmac256Ctr.Inverse.{decrypt-iff-encrypt}

-- What the receiver gets: the message, or the key itself in the mode without one.
abbrev pub payload : EncryptionInput → List U8 → List U8
payload (EncryptionInput.aes256_gcm m aad) key = m
payload (EncryptionInput.hmac256_ctr m aad) key = m
payload EncryptionInput.plain key = key

module _ (c : Primitives) where
  open c use {aes_round}

  -- Decrypting with the key what was encrypted with it gives the payload, in each of the modes.
  pub decrypt_lem :
      (input : EncryptionInput) (key : List U8)
      → decrypt c (encrypt c input key) key ≡ ok (payload input key)
  unfolding decrypt encrypt gcm_encrypt gcm_decrypt
  decrypt_lem (EncryptionInput.aes256_gcm m aad) key = aes_round key fixed_iv (aad_or_empty aad) m
  decrypt_lem (EncryptionInput.hmac256_ctr m aad) key =
      let (ct, mac) = Hmac256Ctr.encrypt c m (aad_or_empty aad) key in
      (decrypt-iff-encrypt c key ct mac (aad_or_empty aad) m).1 refl
  decrypt_lem EncryptionInput.plain key = refl
