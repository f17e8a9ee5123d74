-- ===== src/Ibe/Keys.antt =====
-- User secret keys, encrypted signatures, nonces and encrypted randomness: what the checks accept.
use seal.Base.{
  ◌≡◌, refl, sym, ap, ap₂, ◌∙◌, ◌↔◌, Bool, true, false, not, ◌||◌, ||-false, List, U8, length, ok,
  invalid_input, reject_if, ◌>>◌, arith,
}
use seal.External.{Group, Bls12381}
use seal.Elgamal.{Encryption}
use seal.Elgamal as Elgamal
use seal.Utils.{xor}
use seal.Utils.Involution.{xor_twice, xor_comm}
use seal.Ibe.{
  public_key_from_master_key, hash_to_g1, extract, verify_user_secret_key,
  verify_encrypted_signature, verify_nonce, encrypt_randomness, decrypt_randomness,
}

-- `if !test { return Err }` passes exactly when the test holds.
check-ok : (t : Bool) → (reject_if (not t) invalid_input ≡ ok tt) ↔ (t ≡ true)
check-ok true = (λ h. refl, λ h. refl)
check-ok false = (λ h. cc, λ h. cc)

module _ (b : Bls12381) where
  open b use {
    Scalar, g1, g2, gt_plus, gt_eq, pairing, gt_eq_iff, bilinear, pairing-plus, nondegenerate,
    length-scalar, scalar_round, scalar_to_bytes, scalar_from_bytes,
  }

  -- Pairing what a master key signed with the generator is pairing the hash with the public key.
  pairing-extract :
      (master_key : Scalar) (id : List U8)
      → pairing (extract b master_key id) (Group.generator g2)
        ≡ pairing (hash_to_g1 b id) (public_key_from_master_key b master_key)
  unfolding extract public_key_from_master_key
  pairing-extract master_key id = bilinear (hash_to_g1 b id) (Group.generator g2) master_key

  -- The check of a user secret key accepts the key that the master key extracts for the id, and no
  -- other.
  pub verify_user_secret_key-iff-extract :
      (master_key : Scalar) (id : List U8) (usk : Group.Element g1)
      → (verify_user_secret_key b usk id (public_key_from_master_key b master_key) ≡ ok tt)
        ↔ (usk ≡ extract b master_key id)
  unfolding verify_user_secret_key
  verify_user_secret_key-iff-extract master_key id usk =
      let lhs = pairing usk (Group.generator g2) in
      let rhs = pairing (hash_to_g1 b id) (public_key_from_master_key b master_key) in
      (
        λ h. nondegenerate usk (extract b master_key id) (
            (gt_eq_iff lhs rhs).0 ((check-ok (gt_eq lhs rhs)).0 h)
            ∙ sym (pairing-extract master_key id)),
        λ e. (check-ok (gt_eq lhs rhs)).1 (
            (gt_eq_iff lhs rhs).1
              (ap (λ k. pairing k (Group.generator g2)) e ∙ pairing-extract master_key id)),
      )

  -- Nothing that the check refuses at once: no part is the identity.
  pub NoIdentity : Encryption (Group.Element g1) → Group.Element g2 → Group.Element g2 → Type 0
  NoIdentity e vk pk =
      (Group.eq g1 e.first (Group.identity g1) ≡ false)
      × (Group.eq g1 e.second (Group.identity g1) ≡ false)
      × (Group.eq g2 vk (Group.identity g2) ≡ false)
      × (Group.eq g2 pk (Group.identity g2) ≡ false)

  NoIdentity-test :
      (e : Encryption (Group.Element g1)) (vk pk : Group.Element g2)
      → ((Group.eq g1 e.first (Group.identity g1)
            || (Group.eq g1 e.second (Group.identity g1)
                || (Group.eq g2 vk (Group.identity g2) || Group.eq g2 pk (Group.identity g2))))
          ≡ false)
        ↔ NoIdentity e vk pk
  unfolding NoIdentity
  NoIdentity-test e vk pk = (
    λ h.
        let (p, h1) =
          ||-false (Group.eq g1 e.first (Group.identity g1))
            (Group.eq g1 e.second (Group.identity g1)
              || (Group.eq g2 vk (Group.identity g2) || Group.eq g2 pk (Group.identity g2)))
            h in
        let (q, h2) =
          ||-false (Group.eq g1 e.second (Group.identity g1))
            (Group.eq g2 vk (Group.identity g2) || Group.eq g2 pk (Group.identity g2)) h1 in
        let (r, s) =
          ||-false (Group.eq g2 vk (Group.identity g2)) (Group.eq g2 pk (Group.identity g2)) h2 in
        (p, q, r, s),
    λ (p, q, r, s). rw (p, q, r, s) refl,
  )

  -- The pairing equation is the equation of the decryption.
  pairing-decrypt :
      (sk master_key : Scalar) (id : List U8) (e : Encryption (Group.Element g1))
      → (pairing e.second (Group.generator g2)
          ≡ gt_plus
              (pairing e.first (Elgamal.public_key g2 sk))
              (pairing (hash_to_g1 b id) (public_key_from_master_key b master_key)))
        ↔ (Elgamal.decrypt g1 sk e ≡ extract b master_key id)
  unfolding Elgamal.public_key Elgamal.decrypt
  pairing-decrypt sk master_key id e =
      let a = Group.times g1 e.first sk in
      let x = extract b master_key id in
      let right : pairing (Group.plus g1 a x) (Group.generator g2)
          ≡ gt_plus (pairing e.first (Group.times g2 (Group.generator g2) sk))
              (pairing (hash_to_g1 b id) (public_key_from_master_key b master_key)) =
        pairing-plus a x (Group.generator g2)
        ∙ ap₂ gt_plus (bilinear e.first (Group.generator g2) sk) (pairing-extract master_key id) in
      (
        λ h.
            ap (λ s. Group.minus g1 s a)
              (nondegenerate e.second (Group.plus g1 a x) (h ∙ sym right))
            ∙ Group.minus-plus g1 a x,
        λ h.
            ap (λ s. pairing s (Group.generator g2))
              (sym (Group.plus-minus g1 a e.second) ∙ ap (Group.plus g1 a) h)
            ∙ right,
      )

  both_checks :
      (t s : Bool)
      → ((reject_if t invalid_input >> reject_if (not s) invalid_input) ≡ ok tt)
        ↔ ((t ≡ false) × (s ≡ true))
  both_checks true s = (λ h. cc, λ h. absurd (not_both h.0))
    where
      not_both : true ≡ false → ⊥
      not_both h = cc
  both_checks false true = (λ h. (refl, refl), λ h. refl)
  both_checks false false = (λ h. cc, λ h. cc)

  -- An encrypted signature share is accepted for the id, the member's public key and the ephemeral
  -- verification key exactly when none of them is the identity and the share decrypts, with the
  -- ephemeral secret key, to the user secret key that the member's master key extracts for the id.
  pub verify_encrypted_signature-iff-decrypt :
      (sk master_key : Scalar) (id : List U8) (e : Encryption (Group.Element g1))
      → (verify_encrypted_signature b e
            (Elgamal.public_key g2 sk)
            (public_key_from_master_key b master_key)
            id
          ≡ ok tt)
        ↔ (NoIdentity e (Elgamal.public_key g2 sk) (public_key_from_master_key b master_key)
            × (Elgamal.decrypt g1 sk e ≡ extract b master_key id))
  unfolding verify_encrypted_signature
  verify_encrypted_signature-iff-decrypt sk master_key id e =
      let vk = Elgamal.public_key g2 sk in
      let pk = public_key_from_master_key b master_key in
      let lhs = pairing e.second (Group.generator g2) in
      let rhs = gt_plus (pairing e.first vk) (pairing (hash_to_g1 b id) pk) in
      let t =
        Group.eq g1 e.first (Group.identity g1)
        || (Group.eq g1 e.second (Group.identity g1)
            || (Group.eq g2 vk (Group.identity g2) || Group.eq g2 pk (Group.identity g2))) in
      (
        λ h.
            let (p, q) = (both_checks t (gt_eq lhs rhs)).0 h in
            (
              (NoIdentity-test e vk pk).0 p,
              (pairing-decrypt sk master_key id e).0 ((gt_eq_iff lhs rhs).0 q),
            ),
        λ h. (both_checks t (gt_eq lhs rhs)).1 (
          (NoIdentity-test e vk pk).1 h.0,
          (gt_eq_iff lhs rhs).1 ((pairing-decrypt sk master_key id e).1 h.1),
        ),
      )

  -- Randomness that was encrypted under a key of at least 32 bytes comes back under the same key.
  pub decrypt-encrypt_randomness :
      (randomness : Scalar) (key : List U8)
      → length key ≡ 32
      → decrypt_randomness b (encrypt_randomness b randomness key) key ≡ ok randomness
  unfolding encrypt_randomness decrypt_randomness
  decrypt-encrypt_randomness randomness key h =
      let s = scalar_to_bytes randomness in
      ap scalar_from_bytes (
        xor_comm key (xor key s)
        ∙ ap (λ m. xor m key) (xor_comm key s)
        ∙ xor_twice s key (omega (arith, h, length-scalar randomness)))
      ∙ scalar_round randomness

  pub verify_nonce-own :
      (randomness : Scalar)
      → verify_nonce b randomness (Group.times g2 (Group.generator g2) randomness) ≡ ok tt
  unfolding verify_nonce
  verify_nonce-own randomness =
      let n = Group.times g2 (Group.generator g2) randomness in
      rw ((Group.eq_iff g2 n n).1 refl) refl
