-- ===== src/Ibe/Batch.antt =====
-- A batch of encryptions: each ciphertext is opened by the user secret key of its server, and by
-- the randomness.
use seal.Base.{
  ℕ, ◌+◌, ◌≡◌, refl, sym, ap, ◌∙◌, List, map, length, length-map, get_elem?, some, U8, ==_iff, ok,
  traverse-range, arith,
}
use seal.External.{Group, Bls12381, Primitives}
use seal.Utils.{xor}
use seal.Utils.Transpose.{index-map}
use seal.Utils.Involution.{xor_twice, xor_comm}
use seal.Ibe.{
  Info, public_key_from_master_key, hash_to_g1, extract, kdf, encrypt_one,
  encrypt_batched_deterministic, decrypt, decrypt_deterministic,
}

-- What belongs to one server: its master key, the plaintext for it, and the info.
pub record Row (b : Bls12381) : Type 0 where
  pub master_key : Bls12381.Scalar b
  pub plaintext : List U8
  pub info : Info

module _ (b : Bls12381) (c : Primitives) where
  open b use {Scalar, g1, g2, pairing, bilinear}
  open c use {length-sha3_256}

  abbrev pub nonce_of : Scalar → Group.Element g2
  nonce_of r = Group.times g2 (Group.generator g2) r

  -- The key that hides the row's plaintext.
  unfoldable pub mask : Scalar → List U8 → Row b → List U8
  mask r id row =
      kdf b c
        (pairing (Group.times g1 (hash_to_g1 b id) r) (public_key_from_master_key b row.master_key))
        (nonce_of r) (hash_to_g1 b id) row.info

  abbrev pub encrypted : Scalar → List U8 → Row b → List U8
  encrypted r id row = xor (mask r id row) row.plaintext

  length-mask : (r : Scalar) (id : List U8) (row : Row b) → length (mask r id row) ≡ 32
  unfolding mask kdf
  length-mask r id row = length-sha3_256 _

  -- The pairing of the user secret key with the nonce is the one of the encryption.
  mask-extract :
      (r : Scalar) (id : List U8) (row : Row b)
      → kdf b c
          (pairing (extract b row.master_key id) (nonce_of r))
          (nonce_of r)
          (hash_to_g1 b id)
          row.info
        ≡ mask r id row
  unfolding mask extract public_key_from_master_key
  mask-extract r id row =
      let h = hash_to_g1 b id in
      let gen = Group.generator g2 in
      ap (λ e. kdf b c e (nonce_of r) h row.info)
        (bilinear h (Group.times g2 gen r) row.master_key
          ∙ ap (pairing h) (Group.times_comm g2 gen r row.master_key)
          ∙ sym (bilinear h (Group.times g2 gen row.master_key) r))

  unmask :
      (r : Scalar) (id : List U8) (row : Row b)
      → length row.plaintext ≡ 32
      → xor (encrypted r id row) (mask r id row) ≡ row.plaintext
  unmask r id row size =
      ap (λ m. xor m (mask r id row)) (xor_comm (mask r id row) row.plaintext)
      ∙ xor_twice row.plaintext (mask r id row) (omega (arith, size, length-mask r id row))

  -- The user secret key that the row's master key extracts opens the row's ciphertext.
  pub decrypt-encrypted :
      (r : Scalar) (id : List U8) (row : Row b)
      → length row.plaintext ≡ 32
      → decrypt b c (nonce_of r) (encrypted r id row) (extract b row.master_key id) id row.info
        ≡ row.plaintext
  unfolding decrypt
  decrypt-encrypted r id row size =
      ap (xor (encrypted r id row)) (mask-extract r id row) ∙ unmask r id row size

  -- So does the randomness with the public key.
  pub decrypt_deterministic-encrypted :
      (r : Scalar) (id : List U8) (row : Row b)
      → length row.plaintext ≡ 32
      → decrypt_deterministic b c r
          (encrypted r id row)
          (public_key_from_master_key b row.master_key)
          id
          row.info
        ≡ ok row.plaintext
  unfolding decrypt_deterministic mask
  decrypt_deterministic-encrypted r id row size = ap ok (unmask r id row size)

  encrypt_one-ok :
      (r : Scalar) (id : List U8) (rows : List (Row b)) (j : ℕ) (row : Row b)
      → get_elem? rows j ≡ some row
      → encrypt_one b c
          (hash_to_g1 b id)
          (Group.times g1 (hash_to_g1 b id) r)
          (nonce_of r)
          (map (λ (w : Row b). w.plaintext) rows)
          (map (λ (w : Row b). public_key_from_master_key b w.master_key) rows)
          (map (λ (w : Row b). w.info) rows)
          j
        ≡ ok (encrypted r id row)
  unfolding encrypt_one mask
  encrypt_one-ok r id rows j row at =
      rw
        (
          index-map (λ (w : Row b). public_key_from_master_key b w.master_key) rows j row at,
          index-map (λ (w : Row b). w.info) rows j row at,
          index-map (λ (w : Row b). w.plaintext) rows j row at,
        )
        refl

  -- A batch of equally many plaintexts, keys and infos is encrypted row by row.
  pub encrypt_batched_deterministic-ok :
      (r : Scalar) (id : List U8) (rows : List (Row b))
      → encrypt_batched_deterministic b c r
          (map (λ (w : Row b). w.plaintext) rows)
          (map (λ (w : Row b). public_key_from_master_key b w.master_key) rows)
          id
          (map (λ (w : Row b). w.info) rows)
        ≡ ok (nonce_of r, map (encrypted r id) rows)
  unfolding encrypt_batched_deterministic
  encrypt_batched_deterministic-ok r id rows =
      let lp = length-map (λ (w : Row b). w.plaintext) rows in
      let lk = length-map (λ (w : Row b). public_key_from_master_key b w.master_key) rows in
      let li = length-map (λ (w : Row b). w.info) rows in
      let each =
        traverse-range
          (encrypt_one b c (hash_to_g1 b id) (Group.times g1 (hash_to_g1 b id) r) (nonce_of r)
            (map (λ (w : Row b). w.plaintext) rows)
            (map (λ (w : Row b). public_key_from_master_key b w.master_key) rows)
            (map (λ (w : Row b). w.info) rows))
          (encrypted r id) rows 0
          (λ j row at.
            encrypt_one-ok r id rows (0 + j) row
              (ap (get_elem? rows) {x = 0 + j} {y = j} (omega arith) ∙ at)) in
      rw (lp, lk, li, (==_iff (length rows) (length rows)).1 refl, each) refl
