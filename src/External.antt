-- ===== src/External.antt =====
-- The cryptographic primitives of `fastcrypto`, `bcs` and `sha3`, which are not part of this
-- repository: what the program calls, with the documented behaviour that it relies on. Byte
-- arrays of 32 are lists with a length.
use seal.Base.{
  ℕ, ◌<◌, ◌≡◌, ◌↔◌, List, [], ◌∷◌, map, U8, Bool, true, length, Distinct, All, Outcome, ok,
}

-- A group with scalars in `S`, written additively.
pub record Group (S : Type 0) : Type 1 where
  pub Element : Type 0
  pub identity : Element
  pub generator : Element
  pub plus : Element → Element → Element
  pub minus : Element → Element → Element
  pub times : Element → S → Element
  pub eq : Element → Element → Bool
  pub to_bytes : Element → List U8
  pub eq_iff : (x y : Element) → (eq x y ≡ true) ↔ (x ≡ y)
  -- (x + y) - x = y
  pub minus-plus : (x y : Element) → minus (plus x y) x ≡ y
  -- x + (y - x) = y
  pub plus-minus : (x y : Element) → plus x (minus y x) ≡ y
  -- Multiplication by one scalar and another commutes.
  pub times_comm : (x : Element) (a b : S) → times (times x a) b ≡ times (times x b) a
  -- It is additive.
  pub plus-times : (x y : Element) (a : S) → times (plus x y) a ≡ plus (times x a) (times y a)
  pub plus_assoc : (x y z : Element) → plus (plus x y) z ≡ plus x (plus y z)
  pub plus_comm : (x y : Element) → plus x y ≡ plus y x
  pub identity-plus : (x : Element) → plus identity x ≡ x
  pub identity-times : (a : S) → times identity a ≡ identity

-- A combination of elements, each multiplied by the coefficient of its index.
abbrev pub combine :
    {S : Type 0} (g : Group S) → (ℕ → S) → List (ℕ × Group.Element g) → Group.Element g
combine g coefficient [] = Group.identity g
combine g coefficient ((i, v) ∷ shares) =
    Group.plus g (Group.times g v (coefficient i)) (combine g coefficient shares)

-- `Poly::recover_c0` of `fastcrypto_tbls`: Lagrange interpolation at 0 of as many shares as asked
-- for, whose indices are positive and different.
pub record Recovery {S : Type 0} (g : Group S) : Type 0 where
  pub recover_c0 : ℕ → List (ℕ × Group.Element g) → Outcome (Group.Element g)
  pub coefficient : List ℕ → ℕ → S
  pub recovers :
      (t : ℕ) (shares : List (ℕ × Group.Element g))
      → 0 < t
      → length shares ≡ t
      → Distinct (λ (share : ℕ × Group.Element g). share.0) shares
      → All (λ (share : ℕ × Group.Element g). 0 < share.0) shares
      → recover_c0 t shares
        ≡ ok
            (combine g (coefficient (map (λ (share : ℕ × Group.Element g). share.0) shares)) shares)

-- BLS12-381: two groups over one field of scalars, a pairing, and hashing to the first.
pub record Bls12381 : Type 1 where
  pub Scalar : Type 0
  pub g1 : Group Scalar
  pub g2 : Group Scalar
  pub Gt : Type 0
  pub gt_plus : Gt → Gt → Gt
  pub gt_eq : Gt → Gt → Bool
  pub gt_to_bytes : Gt → List U8
  pub pairing : Group.Element g1 → Group.Element g2 → Gt
  pub hash_to_group_element : List U8 → Group.Element g1
  pub scalar_to_bytes : Scalar → List U8
  pub scalar_from_bytes : List U8 → Outcome Scalar
  -- A buffer of 64 bytes, reduced modulo the order of the groups.
  pub buffer_to_scalar_mod_r : List U8 → Scalar
  -- `bcs::to_bytes` of a public key
  pub bcs_g2 : Group.Element g2 → List U8
  pub gt_eq_iff : (x y : Gt) → (gt_eq x y ≡ true) ↔ (x ≡ y)
  -- e(a P, Q) = e(P, a Q)
  pub bilinear :
      (p : Group.Element g1) (q : Group.Element g2) (a : Scalar)
      → pairing (Group.times g1 p a) q ≡ pairing p (Group.times g2 q a)
  -- e(P + P', Q) = e(P, Q) + e(P', Q)
  pub pairing-plus :
      (p p' : Group.Element g1) (q : Group.Element g2)
      → pairing (Group.plus g1 p p') q ≡ gt_plus (pairing p q) (pairing p' q)
  -- The pairing with the generator of the second group is injective.
  pub nondegenerate :
      (p p' : Group.Element g1)
      → pairing p (Group.generator g2) ≡ pairing p' (Group.generator g2)
      → p ≡ p'
  pub length-scalar : (a : Scalar) → length (scalar_to_bytes a) ≡ 32
  pub scalar_round : (a : Scalar) → scalar_from_bytes (scalar_to_bytes a) ≡ ok a

-- Hashes, the serialisation of a `u64`, and AES-256-GCM.
pub record Primitives : Type 0 where
  pub sha3_256 : List U8 → List U8
  pub hmac_sha3_256 : List U8 → List U8 → List U8
  -- `hkdf_sha3_256` of the key material and the info, 64 bytes.
  pub hkdf_sha3_256 : List U8 → List U8 → List U8
  pub bcs_u64 : ℕ → List U8
  -- key, initialisation vector, associated data, message
  pub aes_encrypt : List U8 → List U8 → List U8 → List U8 → List U8
  pub aes_decrypt : List U8 → List U8 → List U8 → List U8 → Outcome (List U8)
  pub length-sha3_256 : (m : List U8) → length (sha3_256 m) ≡ 32
  pub length-hmac : (key m : List U8) → length (hmac_sha3_256 key m) ≡ 32
  pub aes_round :
      (key iv aad m : List U8) → aes_decrypt key iv aad (aes_encrypt key iv aad m) ≡ ok m
