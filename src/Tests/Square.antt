-- ===== src/Tests/Square.antt =====
-- Groups of four elements, the square of the group of two: enough for encryptions none of whose
-- parts is the identity.
use seal.Base.{
  zero, suc, ◌≡◌, ◌↔◌, List, [], ◌∷◌, map, range, U8, u8, Bool, true, false, ◌&&◌, Outcome, ok, ap₂,
  &&-elim, refl, ap, sym, ◌∙◌,
}
use seal.External.{Group, Bls12381, Recovery, combine}
use seal.Tests.Toy.{
  flip, same, same_iff, flip_back, flip_forth, and_swap, flip_and, flip_assoc, flip_comm, pair_move,
  and_true,
}

abbrev pub Pair : Type 0
Pair = Bool × Bool

abbrev pub both : (Bool → Bool → Bool) → Pair → Pair → Pair
both f x y = (f x.0 y.0, f x.1 y.1)

abbrev pub and_both : Pair → Pair → Pair
and_both x a = (x.0 && a.0, x.1 && a.1)

abbrev pub same_pair : Pair → Pair → Bool
same_pair x y = same x.0 y.0 && same x.1 y.1

pub pair_path : (x y : Pair) → x.0 ≡ y.0 → x.1 ≡ y.1 → x ≡ y
pair_path x y p q = ap₂ (λ a b. (a, b)) p q

pub same_pair_iff : (x y : Pair) → (same_pair x y ≡ true) ↔ (x ≡ y)
same_pair_iff x y = (
  λ h.
      let (p, q) = &&-elim (same x.0 y.0) (same x.1 y.1) h in
      pair_path x y ((same_iff x.0 y.0).0 p) ((same_iff x.1 y.1).0 q),
  λ e.
      rw
        (
          (same_iff x.0 y.0).1 (ap (λ (p : Pair). p.0) e),
          (same_iff x.1 y.1).1 (ap (λ (p : Pair). p.1) e),
        )
        refl,
)

abbrev bit_of : Bool → U8
bit_of b = elim b [ false ↦ u8 0 | true ↦ u8 1 ]

abbrev of_bit : U8 → Bool
of_bit x = elim x.val [ zero ↦ false | suc n ↦ true ]

abbrev pub pair_bytes : Pair → List U8
pair_bytes x = bit_of x.0 ∷ bit_of x.1 ∷ map u8 (range 0 30)

abbrev pub of_pair_bytes : List U8 → Outcome Pair
of_pair_bytes [] = ok (false, false)
of_pair_bytes (x ∷ []) = ok (false, false)
of_pair_bytes (x ∷ y ∷ rest) = ok (of_bit x, of_bit y)

pub bit_round : (b : Bool) → of_bit (bit_of b) ≡ b
bit_round false = refl
bit_round true = refl

abbrev pub four : Group Pair
four = record {
  Element = Pair;
  identity = (false, false);
  generator = (true, true);
  plus = both flip;
  minus = both flip;
  times = and_both;
  eq = same_pair;
  to_bytes = pair_bytes;
  eq_iff = same_pair_iff;
  minus-plus = λ x y. ap₂ (λ a b. (a, b)) (flip_back x.0 y.0) (flip_back x.1 y.1);
  plus-minus = λ x y. ap₂ (λ a b. (a, b)) (flip_forth x.0 y.0) (flip_forth x.1 y.1);
  times_comm = λ x a c. ap₂ (λ a b. (a, b)) (and_swap x.0 a.0 c.0) (and_swap x.1 a.1 c.1);
  plus-times = λ x y a. ap₂ (λ a b. (a, b)) (flip_and x.0 y.0 a.0) (flip_and x.1 y.1 a.1);
  plus_assoc = λ x y z. ap₂ (λ a b. (a, b)) (flip_assoc x.0 y.0 z.0) (flip_assoc x.1 y.1 z.1);
  plus_comm = λ x y. ap₂ (λ a b. (a, b)) (flip_comm x.0 y.0) (flip_comm x.1 y.1);
  identity-plus = λ x. refl;
  identity-times = λ a. refl;
}

abbrev pub square : Bls12381
square = record {
  Scalar = Pair;
  g1 = four;
  g2 = four;
  Gt = Pair;
  gt_plus = both flip;
  gt_eq = same_pair;
  gt_to_bytes = pair_bytes;
  pairing = and_both;
  hash_to_group_element = λ m. (true, true);
  scalar_to_bytes = pair_bytes;
  scalar_from_bytes = of_pair_bytes;
  buffer_to_scalar_mod_r = λ m. (true, true);
  bcs_g2 = pair_bytes;
  gt_eq_iff = same_pair_iff;
  bilinear = λ p q a. ap₂ (λ a b. (a, b)) (pair_move p.0 q.0 a.0) (pair_move p.1 q.1 a.1);
  pairing-plus = λ p p' q. ap₂ (λ a b. (a, b)) (flip_and p.0 p'.0 q.0) (flip_and p.1 p'.1 q.1);
  nondegenerate = λ p p' e.
      pair_path p p' (sym (and_true p.0) ∙ ap (λ (z : Pair). z.0) e ∙ and_true p'.0)
        (sym (and_true p.1) ∙ ap (λ (z : Pair). z.1) e ∙ and_true p'.1);
  length-scalar = λ a. refl;
  scalar_round = λ a. ap₂ (λ x y. ok (x, y)) (bit_round a.0) (bit_round a.1);
}

-- Interpolation with all coefficients one.
abbrev pub sum_up : Recovery four
sum_up = record {
  recover_c0 = λ t shares. ok (combine four (λ i. (true, true)) shares);
  coefficient = λ indices i. (true, true);
  recovers = λ t shares positive full distinct nonzero. refl;
}
