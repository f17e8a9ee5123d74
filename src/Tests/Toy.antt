-- ===== src/Tests/Toy.antt =====
-- Small concrete functions in place of the curve, the hashes and the generator: groups of two
-- elements with multiplication as the pairing, and a digest that keeps the first 32 bytes.
use seal.Base.{
  ℕ, zero, suc, ◌+◌, ◌*◌, ◌≡◌, ◌↔◌, refl, sym, ◌∙◌, List, [], ◌∷◌, ◌++◌, map, length, length-map,
  length-append, length-range, range, take, length-take, Bool, true, false, ◌&&◌, U8, u8, Outcome,
  ok, err, external, arith,
}
use seal.External.{Group, Recovery, combine, Bls12381, Primitives}
use seal.Seal.{Rng}

abbrev pub flip : Bool → Bool → Bool
flip false b = b
flip true false = true
flip true true = false

abbrev pub same : Bool → Bool → Bool
same false false = true
same false true = false
same true false = false
same true true = true

pub same_iff : (x y : Bool) → (same x y ≡ true) ↔ (x ≡ y)
same_iff false false = (λ h. refl, λ h. refl)
same_iff false true = (λ h. cc, λ h. cc)
same_iff true false = (λ h. cc, λ h. cc)
same_iff true true = (λ h. refl, λ h. refl)

abbrev pub bit : Bool → List U8
bit b = elim b [ false ↦ u8 0 ∷ map u8 (range 0 31) | true ↦ u8 1 ∷ map u8 (range 0 31) ]

abbrev pub of_bit : List U8 → Outcome Bool
of_bit [] = ok false
of_bit (x ∷ xs) = ok (elim x.val [ zero ↦ false | suc n ↦ true ])

pub flip_back : (x y : Bool) → flip (flip x y) x ≡ y
flip_back false false = refl
flip_back false true = refl
flip_back true false = refl
flip_back true true = refl

pub flip_forth : (x y : Bool) → flip x (flip y x) ≡ y
flip_forth false false = refl
flip_forth false true = refl
flip_forth true false = refl
flip_forth true true = refl

pub and_swap : (x a b : Bool) → ((x && a) && b) ≡ ((x && b) && a)
and_swap false a b = refl
and_swap true false false = refl
and_swap true false true = refl
and_swap true true false = refl
and_swap true true true = refl

pub flip_and : (x y a : Bool) → (flip x y && a) ≡ flip (x && a) (y && a)
flip_and false y a = refl
flip_and true false false = refl
flip_and true false true = refl
flip_and true true false = refl
flip_and true true true = refl

pub flip_assoc : (x y z : Bool) → flip (flip x y) z ≡ flip x (flip y z)
flip_assoc false y z = refl
flip_assoc true false z = refl
flip_assoc true true false = refl
flip_assoc true true true = refl

pub flip_comm : (x y : Bool) → flip x y ≡ flip y x
flip_comm false false = refl
flip_comm false true = refl
flip_comm true false = refl
flip_comm true true = refl

abbrev pub two : Group Bool
two = record {
  Element = Bool;
  identity = false;
  generator = true;
  plus = flip;
  minus = flip;
  times = λ x a. x && a;
  eq = same;
  to_bytes = bit;
  eq_iff = same_iff;
  minus-plus = flip_back;
  plus-minus = flip_forth;
  times_comm = and_swap;
  plus-times = flip_and;
  plus_assoc = flip_assoc;
  plus_comm = flip_comm;
  identity-plus = λ x. refl;
  identity-times = λ a. refl;
}

-- Interpolation with all coefficients one.
abbrev pub recovery : Recovery two
recovery = record {
  recover_c0 = λ t shares. ok (combine two (λ i. true) shares);
  coefficient = λ indices i. true;
  recovers = λ t shares positive full distinct nonzero. refl;
}

pub pair_move : (p q a : Bool) → ((p && a) && q) ≡ (p && (q && a))
pair_move false q a = refl
pair_move true false false = refl
pair_move true false true = refl
pair_move true true false = refl
pair_move true true true = refl

pub and_true : (p : Bool) → (p && true) ≡ p
and_true false = refl
and_true true = refl

pub length-bit : (a : Bool) → length (bit a) ≡ 32
length-bit false = refl
length-bit true = refl

pub bit_round : (a : Bool) → of_bit (bit a) ≡ ok a
bit_round false = refl
bit_round true = refl

abbrev pub curve : Bls12381
curve = record {
  Scalar = Bool;
  g1 = two;
  g2 = two;
  Gt = Bool;
  gt_plus = flip;
  gt_eq = same;
  gt_to_bytes = bit;
  pairing = λ p q. p && q;
  hash_to_group_element = λ m. true;
  scalar_to_bytes = bit;
  scalar_from_bytes = of_bit;
  buffer_to_scalar_mod_r = λ m. true;
  bcs_g2 = bit;
  gt_eq_iff = same_iff;
  bilinear = pair_move;
  pairing-plus = flip_and;
  nondegenerate = λ p p' e. sym (and_true p) ∙ e ∙ and_true p';
  length-scalar = length-bit;
  scalar_round = bit_round;
}

abbrev pub zeros : List U8
zeros = map (λ n. u8 0) (range 0 32)

abbrev pub digest : List U8 → List U8
digest m = take 32 (m ++ zeros)

pub length-digest : (m : List U8) → length (digest m) ≡ 32
length-digest m =
    let full : length zeros ≡ 32 = length-map (λ n. u8 0) (range 0 32) ∙ length-range 0 32 in
    omega (arith, length-take 32 (m ++ zeros), length-append m zeros, full)

-- A message behind a byte that marks it.
abbrev pub opened : List U8 → Outcome (List U8)
opened [] = err external
opened (x ∷ m) = ok m

abbrev pub hashes : Primitives
hashes = record {
  sha3_256 = digest;
  hmac_sha3_256 = λ key m. digest (key ++ m);
  hkdf_sha3_256 = λ key info. key ++ info;
  bcs_u64 = λ n. u8 n ∷ map u8 (range 0 7);
  aes_encrypt = λ key iv aad m. u8 7 ∷ m;
  aes_decrypt = λ key iv aad m. opened m;
  length-sha3_256 = length-digest;
  length-hmac = λ key m. length-digest (key ++ m);
  aes_round = λ key iv aad m. refl;
}

abbrev pub counter : Rng curve
counter = record {
  State = ℕ;
  gf256_rand = λ n. (u8 (n * 7 + 3), n + 1);
  scalar_rand = λ n. (true, n + 1);
  random_bytes = λ n. (map (λ i. u8 (i * 5 + n)) (range 0 32), n + 1);
  length-random_bytes = λ n. length-map (λ i. u8 (i * 5 + n)) (range 0 32) ∙ length-range 0 32;
}
