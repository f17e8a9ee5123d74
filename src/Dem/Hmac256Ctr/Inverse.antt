-- ===== src/Dem/Hmac256Ctr/Inverse.antt =====
-- Encryption in counter mode is its own inverse, and keeps the length.
use Prim.Native.Nat.{min}
use seal.Base.{
  ℕ, zero, suc, ◌≤◌, ◌<◌, ◌+◌, ◌-◌, ◌≡◌, refl, sym, ap, ap₂, ◌∙◌, ◌⊎◌, inl, inr, List, [], ◌∷◌,
  ◌++◌, length, length-append, U8, chunks_fuel, flat_map, enumerate, take, drop, take-append-drop,
  length-take, length-drop, take-append, chunks_fuel-suc, arith, bytes_eq, bytes_eq_iff, ok, ◌↔◌,
  false, ok-injective, Bool-cases, dec_lt,
}
use seal.External.{Primitives}
use seal.Utils.Involution.{xor_twice, length-xor}
use seal.Dem.Hmac256Ctr.{
  encryption, tag, hmac, encrypt_chunk, encrypt_in_ctr_mode, compute_mac, encrypt, decrypt,
}

module _ (c : Primitives) (key : List U8) where
  open c use {bcs_u64, length-hmac}

  -- The chunks from position `i` on.
  ctr_from : ℕ → ℕ → List U8 → List U8
  ctr_from fuel i xs = flat_map (encrypt_chunk c key) (enumerate i (chunks_fuel fuel 32 xs))

  length-block : (i : ℕ) → length (hmac c encryption key (bcs_u64 i)) ≡ 32
  unfolding hmac
  length-block i = length-hmac key (tag encryption ++ bcs_u64 i)

  length-chunk :
      (i : ℕ) (xs : List U8) → length xs ≤ 32 → length (encrypt_chunk c key (i, xs)) ≡ length xs
  unfolding encrypt_chunk
  length-chunk i xs h =
      length-xor xs (hmac c encryption key (bcs_u64 i)) (omega (arith, h, length-block i))

  chunk_twice :
      (i : ℕ) (xs : List U8)
      → length xs ≤ 32
      → encrypt_chunk c key (i, encrypt_chunk c key (i, xs)) ≡ xs
  unfolding encrypt_chunk
  chunk_twice i xs h =
      xor_twice xs (hmac c encryption key (bcs_u64 i)) (omega (arith, h, length-block i))

  ctr_from-step :
      (fuel i : ℕ) (xs : List U8)
      → 0 < length xs
      → ctr_from (suc fuel) i xs
        ≡ encrypt_chunk c key (i, take 32 xs) ++ ctr_from fuel (suc i) (drop 32 xs)
  unfolding ctr_from
  ctr_from-step fuel i xs h =
      ap (λ cs. flat_map (encrypt_chunk c key) (enumerate i cs)) (chunks_fuel-suc fuel 32 xs h)

  length-ctr_from :
      (fuel i : ℕ) (xs : List U8) → length xs ≤ fuel → length (ctr_from fuel i xs) ≡ length xs
  unfolding ctr_from
  length-ctr_from zero i [] h = refl
  length-ctr_from zero i (x ∷ xs) h = absurd (omega (arith, h))
  length-ctr_from (suc fuel) i [] h = refl
  length-ctr_from (suc fuel) i (x ∷ xs) h =
      let first = take 32 (x ∷ xs) in
      let rest = drop 32 (x ∷ xs) in
      let lf : length first ≡ min 32 (length (x ∷ xs)) = length-take 32 (x ∷ xs) in
      let lr : length rest ≡ length (x ∷ xs) - 32 = length-drop 32 (x ∷ xs) in
      let hr : length rest ≤ fuel = omega (arith, h, lr) in
      length-append (encrypt_chunk c key (i, first)) (ctr_from fuel (suc i) rest)
      ∙ rw (length-chunk i first (omega (arith, lf)), length-ctr_from fuel (suc i) rest hr)
          (omega (arith, lf, lr))

  ctr_from_twice :
      (fuel i : ℕ) (xs : List U8) → length xs ≤ fuel → ctr_from fuel i (ctr_from fuel i xs) ≡ xs
  unfolding ctr_from
  ctr_from_twice zero i [] h = refl
  ctr_from_twice zero i (x ∷ xs) h = absurd (omega (arith, h))
  ctr_from_twice (suc fuel) i [] h = refl
  ctr_from_twice (suc fuel) i (x ∷ xs) h =
      let first = take 32 (x ∷ xs) in
      let rest = drop 32 (x ∷ xs) in
      let lf : length first ≡ min 32 (length (x ∷ xs)) = length-take 32 (x ∷ xs) in
      let lr : length rest ≡ length (x ∷ xs) - 32 = length-drop 32 (x ∷ xs) in
      let hr : length rest ≤ fuel = omega (arith, h, lr) in
      let a = encrypt_chunk c key (i, first) in
      let b = ctr_from fuel (suc i) rest in
      let la : length a ≡ length first = length-chunk i first (omega (arith, lf)) in
      let lb : length b ≡ length rest = length-ctr_from fuel (suc i) rest hr in
      let sum : length (a ++ b) ≡ length a + length b = length-append a b in
      let (p, q) = take-append 32 a b (omega (arith, la, lf)) (
        split_at (length a) (length b) (length (x ∷ xs)) (omega (arith, la, lf))
          (omega (arith, lb, lr))) in
      ctr_from-step fuel i (a ++ b) (omega (arith, sum, la, lf))
      ∙ ap₂ (λ u v. encrypt_chunk c key (i, u) ++ ctr_from fuel (suc i) v) p q
      ∙ ap₂ ◌++◌ (chunk_twice i first (omega (arith, lf))) (ctr_from_twice fuel (suc i) rest hr)
      ∙ take-append-drop 32 (x ∷ xs)
    where
      split_at : (m n t : ℕ) → m ≡ min 32 t → n ≡ t - 32 → (m ≡ 32) ⊎ (n ≡ 0)
      split_at m n t em en = elim (dec_lt t 32) [
        | yes l ↦ inr (omega (arith, en, l))
        | no g ↦ inl (omega (arith, em, g))
      ]

  pub length-ctr : (msg : List U8) → length (encrypt_in_ctr_mode c key msg) ≡ length msg
  unfolding encrypt_in_ctr_mode ctr_from
  length-ctr msg = length-ctr_from (length msg) 0 msg (omega arith)

  pub ctr_twice : (msg : List U8) → encrypt_in_ctr_mode c key (encrypt_in_ctr_mode c key msg) ≡ msg
  unfolding encrypt_in_ctr_mode ctr_from
  ctr_twice msg =
      let m = ctr_from (length msg) 0 msg in
      ap (λ n. ctr_from n 0 m) {x = length m} {y = length msg}
        (length-ctr_from (length msg) 0 msg (omega arith))
      ∙ ctr_from_twice (length msg) 0 msg (omega arith)

  decrypt-encrypt :
      (msg aad : List U8)
      → decrypt c (encrypt c msg aad key).0 (encrypt c msg aad key).1 aad key ≡ ok msg
  unfolding decrypt encrypt
  decrypt-encrypt msg aad =
      let ct = encrypt_in_ctr_mode c key msg in
      rw
        ((bytes_eq_iff (compute_mac c key aad ct) (compute_mac c key aad ct)).1 refl, ctr_twice msg)
        refl

  decrypt_accepts :
      (ct mac aad msg : List U8)
      → decrypt c ct mac aad key ≡ ok msg
      → (mac ≡ compute_mac c key aad ct) × (encrypt_in_ctr_mode c key ct ≡ msg)
  unfolding decrypt
  decrypt_accepts ct mac aad msg h = elim (Bool-cases (bytes_eq mac (compute_mac c key aad ct))) [
    | inl t ↦ (
      (bytes_eq_iff mac (compute_mac c key aad ct)).0 t,
      ok-injective (encrypt_in_ctr_mode c key ct) msg (sym (rw t refl) ∙ h),
    )
    | inr f ↦ absurd (contradiction f h)
  ]
    where
      contradiction :
          bytes_eq mac (compute_mac c key aad ct) ≡ false → decrypt c ct mac aad key ≡ ok msg → ⊥
      contradiction f e = cc

  -- Decryption with a key gives a message exactly for the ciphertext and the tag that encryption of
  -- that message under the same key and associated data gives; it rejects every other pair.
  pub decrypt-iff-encrypt :
      (ct mac aad msg : List U8)
      → (decrypt c ct mac aad key ≡ ok msg) ↔ ((ct, mac) ≡ encrypt c msg aad key)
  unfolding encrypt
  decrypt-iff-encrypt ct mac aad msg = (
    λ h.
        let (em, ec) = decrypt_accepts ct mac aad msg h in
        let back : ct ≡ encrypt_in_ctr_mode c key msg =
          sym (ctr_twice ct) ∙ ap (encrypt_in_ctr_mode c key) ec in
        ap₂ (λ a b. (a, b)) back (em ∙ ap (compute_mac c key aad) back),
    λ e. ap (λ p. decrypt c p.0 p.1 aad key) e ∙ decrypt-encrypt msg aad,
  )
