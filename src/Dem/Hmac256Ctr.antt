-- ===== src/Dem/Hmac256Ctr.antt =====
-- crates/crypto/src/dem.rs, `Hmac256Ctr`: HMAC-SHA3-256 in counter mode with a MAC.
pub mod Inverse
use seal.Base.{
  ℕ, List, [], ◌∷◌, ◌++◌, map, length, chunks, flat_map, enumerate, U8, u8, bytes_eq, not, Outcome,
  ok, invalid_mac, reject_if, ◌>>=◌, ◌>>◌,
}
use seal.External.{Primitives}
use seal.Utils.{xor_unchecked}

pub data Purpose : Type 0 where
  encryption mac : Purpose

-- b"HMAC-CTR-ENC" and b"HMAC-CTR-MAC"
abbrev pub tag : Purpose → List U8
tag encryption = map u8 (72 ∷ 77 ∷ 65 ∷ 67 ∷ 45 ∷ 67 ∷ 84 ∷ 82 ∷ 45 ∷ 69 ∷ 78 ∷ 67 ∷ [])
tag mac = map u8 (72 ∷ 77 ∷ 65 ∷ 67 ∷ 45 ∷ 67 ∷ 84 ∷ 82 ∷ 45 ∷ 77 ∷ 65 ∷ 67 ∷ [])

module _ (c : Primitives) where
  open c use {hmac_sha3_256, bcs_u64}

  unfoldable pub hmac : Purpose → List U8 → List U8 → List U8
  hmac purpose key data_bytes = hmac_sha3_256 key (tag purpose ++ data_bytes)

  unfoldable pub compute_mac : List U8 → List U8 → List U8 → List U8
  compute_mac key aad ciphertext =
      hmac Purpose.mac key (bcs_u64 (length aad) ++ (aad ++ ciphertext))

  -- A chunk against the pseudo-random block of its position.
  unfoldable pub encrypt_chunk : List U8 → ℕ × List U8 → List U8
  encrypt_chunk key (i, ci) = xor_unchecked ci (hmac encryption key (bcs_u64 i))

  unfoldable pub encrypt_in_ctr_mode : List U8 → List U8 → List U8
  encrypt_in_ctr_mode key msg = flat_map (encrypt_chunk key) (enumerate 0 (chunks 32 msg))

  unfoldable pub encrypt : List U8 → List U8 → List U8 → List U8 × List U8
  encrypt msg aad key =
      let ciphertext = encrypt_in_ctr_mode key msg in (ciphertext, compute_mac key aad ciphertext)

  unfoldable pub decrypt : List U8 → List U8 → List U8 → List U8 → Outcome (List U8)
  decrypt ciphertext tag_bytes aad key = do
    let actual_mac = compute_mac key aad ciphertext
    reject_if (not (bytes_eq tag_bytes actual_mac)) invalid_mac
    ok (encrypt_in_ctr_mode key ciphertext)
