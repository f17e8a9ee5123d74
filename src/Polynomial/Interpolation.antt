-- ===== src/Polynomial/Interpolation.antt =====
-- `Polynomial::interpolate` returns, and what it returns goes through the points.
use seal.Base.{
  ℕ, ◌+◌, ◌≤◌, ◌<◌, List, [], ◌∷◌, map, length, All, All-of, Elem, Distinct, All₂, ◌≡◌, ◌≢◌, refl,
  sym, ap, ap₂, ◌∙◌, ◌≡⟨◌⟩◌, ◌∎, inl, inr, ◌⊕◌, ⊕_comm, ⊕-self, zero-⊕, Bool-cases, ◌=8◌, =8_iff,
  true, false, not, ◌==◌, arith, ok, expect, traverse-ok, filter, Elem-filter, filter-Elem,
  length-filter-lt, Distinct_injective,
}
use seal.Gf256
use seal.Gf256.{Gf256, ◌⊗◌, zero, one, neg, sub}
use seal.Gf256.Field.{zero-⊗, ⊗-zero, ⊗-one, one-⊗, add-⊗, ⊗_assoc, ⊗_comm, div-ok}
use seal.Gf256.Products.{product-cons, ⊗-eq-zero}
use seal.Polynomial.{
  Polynomial, strip_trailing_zeros, pop_zeros, div, scale, product, product_from, basis_factor,
  interpolate_term,
}
use seal.Polynomial.Eval.{value, value-scale, ⊕-zero}
use seal.Polynomial.Product.{mul-ok}
use seal.Polynomial.Roots.{⊕-eq-zero}
use seal.Polynomial.Terms.{length-scale, IsTermAt}

-- A linear factor (X - r) / (a - r).
pub record IsFactor (a r : Gf256) (f : Polynomial) : Type 0 where
  pub two : length f ≡ 2
  pub slope : (t : Gf256) → value f t ⊗ (a ⊕ r) ≡ t ⊕ r

inverse_nonzero : (c d : Gf256) → c ⊗ d ≡ one → (c =8 zero) ≡ false
inverse_nonzero c d e = elim (Bool-cases (c =8 zero)) [
  | inr h ↦ h
  | inl h ↦
      let z : one ≡ zero = sym e ∙ ap (λ (u : Gf256). u ⊗ d) ((=8_iff c zero).0 h) ∙ zero-⊗ d in
      absurd (omega (arith, ap (λ (u : Gf256). u.val) z))
]

strip_linear :
    (b c : Gf256)
    → (one ⊗ c =8 zero) ≡ false
    → strip_trailing_zeros (b ⊗ c ∷ one ⊗ c ∷ []) ≡ b ⊗ c ∷ one ⊗ c ∷ []
unfolding strip_trailing_zeros pop_zeros
strip_linear b c h = rw h refl

value_linear : (b c t : Gf256) → value (b ⊗ c ∷ one ⊗ c ∷ []) t ≡ (b ⊕ t) ⊗ c
unfolding value
value_linear b c t = rw (⊗-zero t, ⊕-zero (one ⊗ c), one-⊗ c) (sym (add-⊗ b t c))

basis_factor-ok :
    (a : Gf256) (p : ℕ × (Gf256 × Gf256))
    → p.1.0 ≢ a
    → (f : Polynomial) × (basis_factor a p ≡ ok f) × IsFactor a p.1.0 f
unfolding basis_factor div
basis_factor-ok a (i, (r, y)) ne =
    let (c, returns, inverse) = div-ok one (a ⊕ r) (λ e. ne (sym (⊕-eq-zero a r e))) in
    let lead = rw (← one-⊗ c) at (inverse_nonzero c (a ⊕ r) inverse) in
    (
      (zero ⊕ r) ⊗ c ∷ one ⊗ c ∷ [],
      rw returns (ap (λ (l : Polynomial). expect (ok l)) (strip_linear (zero ⊕ r) c lead)),
      record {
        two = refl;
        slope = λ t.
            ap (λ (v : Gf256). v ⊗ (a ⊕ r)) (value_linear (zero ⊕ r) c t)
            ∙ ⊗_assoc _ c (a ⊕ r)
            ∙ ap (◌⊗◌ (zero ⊕ r ⊕ t)) inverse
            ∙ ⊗-one _
            ∙ ap (λ (v : Gf256). v ⊕ t) (zero-⊕ r)
            ∙ ⊕_comm r t;
      },
    )

-- Each factor has its root among the points of `ps`.
abbrev pub FactorOf : Gf256 → ℕ × (Gf256 × Gf256) → Polynomial → Type 0
FactorOf a p f = IsFactor a p.1.0 f

factor_at_own : (a r : Gf256) (f : Polynomial) → a ≢ r → IsFactor a r f → value f a ≡ one
factor_at_own a r f ne h = ⊕-eq-zero _ _ (
    ⊗-eq-zero (a ⊕ r) (value f a ⊕ one) (λ e. ne (⊕-eq-zero a r e))
      (⊗_comm _ _ ∙ add-⊗ (value f a) one (a ⊕ r) ∙ ap₂ ◌⊕◌ (h.slope a) (one-⊗ (a ⊕ r)) ∙ ⊕-self _))

factor_at_root : (a r : Gf256) (f : Polynomial) → a ≢ r → IsFactor a r f → value f r ≡ zero
factor_at_root a r f ne h =
    ⊗-eq-zero (a ⊕ r) (value f r) (λ e. ne (⊕-eq-zero a r e)) (⊗_comm _ _ ∙ h.slope r ∙ ⊕-self r)

-- The product of linear factors: one at the own point, zero at every root.
pub record IsBasis (a : Gf256) (ps : List (ℕ × (Gf256 × Gf256))) (acc r : Polynomial) : Type 0 where
  pub size : length r ≡ length acc + length ps
  pub at_own : value r a ≡ value acc a
  pub at_zero : (t : Gf256) → value acc t ≡ zero → value r t ≡ zero
  pub at_root : (p : ℕ × (Gf256 × Gf256)) → Elem p ps → value r p.1.0 ≡ zero
  pub weigh :
      (t : Gf256)
      → value r t ⊗ Gf256.product (map (λ p. a ⊕ p.1.0) ps)
        ≡ value acc t ⊗ Gf256.product (map (λ p. t ⊕ p.1.0) ps)

weigh_step :
    (r d down acc acc' f n up : Gf256)
    → r ⊗ down ≡ acc' ⊗ up
    → acc' ≡ acc ⊗ f
    → f ⊗ d ≡ n
    → r ⊗ (d ⊗ down) ≡ acc ⊗ (n ⊗ up)
weigh_step r d down acc acc' f n up h e k =
    r ⊗ (d ⊗ down)
    ≡⟨ ap (◌⊗◌ r) (⊗_comm d down) ∙ sym (⊗_assoc r down d) ⟩ r ⊗ down ⊗ d
    ≡⟨ ap (λ (v : Gf256). v ⊗ d) (h ∙ ap (λ (v : Gf256). v ⊗ up) e) ⟩ acc ⊗ f ⊗ up ⊗ d
    ≡⟨ ⊗_assoc (acc ⊗ f) up d ∙ ⊗_assoc acc f (up ⊗ d) ⟩ acc ⊗ (f ⊗ (up ⊗ d))
    ≡⟨ ap (λ (v : Gf256). acc ⊗ (f ⊗ v)) (⊗_comm up d) ∙ ap (◌⊗◌ acc) (sym (⊗_assoc f d up)) ⟩
      acc ⊗ (f ⊗ d ⊗ up)
    ≡⟨ ap (λ (v : Gf256). acc ⊗ (v ⊗ up)) k ⟩ acc ⊗ (n ⊗ up) ∎

product_from-ok :
    (a : Gf256) (ps : List (ℕ × (Gf256 × Gf256))) (fs : List Polynomial) (acc : Polynomial)
    → 0 < length acc
    → All₂ (FactorOf a) ps fs
    → All (λ p. p.1.0 ≢ a) ps
    → (r : Polynomial) × (product_from acc fs ≡ ok r) × IsBasis a ps acc r
unfolding product_from
product_from-ok a [] [] acc pos h ne = (
  acc,
  refl,
  record {
    size = omega arith;
    at_own = refl;
    at_zero = λ t e. e;
    at_root = λ p m. absurd m;
    weigh = λ t. refl;
  },
)
product_from-ok a [] (f ∷ fs) acc pos h ne = absurd h
product_from-ok a (p ∷ ps) [] acc pos h ne = absurd h
product_from-ok a (p ∷ ps) (f ∷ fs) acc pos h ne =
    let (acc', returns, values, size) = mul-ok acc f pos (omega (arith, h.0.two)) in
    let (r, rest, basis) = product_from-ok a ps fs acc' (omega (arith, h.0.two)) h.1 ne.1 in
    let apart : a ≢ p.1.0 = λ e. ne.0 (sym e) in
    (
      r,
      rw returns rest,
      record {
        size = omega (arith, basis.size, h.0.two);
        at_own =
            basis.at_own
            ∙ values a
            ∙ ap (◌⊗◌ (value acc a)) (factor_at_own a p.1.0 f apart h.0)
            ∙ ⊗-one _;
        at_zero =
            λ t e. basis.at_zero t (values t ∙ ap (λ (v : Gf256). v ⊗ value f t) e ∙ zero-⊗ _);
        at_root = λ q m. elim m [
          | inl e ↦ rw e (
              basis.at_zero p.1.0 (
                values p.1.0
                ∙ ap (◌⊗◌ (value acc p.1.0)) (factor_at_root a p.1.0 f apart h.0)
                ∙ ⊗-zero _))
          | inr n ↦ basis.at_root q n
        ];
        weigh = λ t.
            let down : Gf256 = Gf256.product (map (λ q. a ⊕ q.1.0) ps) in
            let up : Gf256 = Gf256.product (map (λ q. t ⊕ q.1.0) ps) in
            ap (◌⊗◌ (value r t)) (product-cons (a ⊕ p.1.0) (map (λ q. a ⊕ q.1.0) ps))
            ∙ weigh_step (value r t) (a ⊕ p.1.0) down (value acc t) (value acc' t) (value f t)
                (t ⊕ p.1.0) up (basis.weigh t) (values t) (h.0.slope t)
            ∙ sym (ap (◌⊗◌ (value acc t)) (product-cons (t ⊕ p.1.0) (map (λ q. t ⊕ q.1.0) ps)));
      },
    )

abbrev pub Point : Type 0
Point = ℕ × (Gf256 × Gf256)

abbrev pub others : List Point → Point → List Point
others all e = filter (λ p. not (p.0 == e.0)) all

value-one : (t : Gf256) → value (one ∷ []) t ≡ one
unfolding value
value-one t = ap (◌⊕◌ one) (⊗-zero t) ∙ ⊕-zero one

test_self : (n : ℕ) → not (n == n) ≡ false
test_self n = ground arith

test_ne : (m n : ℕ) → m ≢ n → not (m == n) ≡ true
test_ne m n h = ground arith

test_ne_inv : (m n : ℕ) → not (m == n) ≡ true → m ≢ n
test_ne_inv m n h = ground arith

-- What the term of one point is: at most as long as there are points, and right at each of them.
pub record IsTerm (all : List Point) (e : Point) (term : Polynomial) : Type 0 where
  pub short : length term ≤ length all
  pub weigh :
      (t : Gf256)
      → value term t ⊗ Gf256.product (map (λ p. e.1.0 ⊕ p.1.0) (others all e))
        ≡ Gf256.product (map (λ p. t ⊕ p.1.0) (others all e)) ⊗ e.1.1
  pub at : (i : Point) → Elem i all → IsTermAt (λ p. p.0) (λ p. p.1.0) (λ p. p.1.1) i e term

module _ (all : List Point) (keys : Distinct (λ (p : Point). p.0) all)
    (xs : Distinct (λ (p : Point). p.1.0) all) where
  other_apart : (e p : Point) → Elem e all → Elem p (others all e) → p.1.0 ≢ e.1.0
  other_apart e p me mp same =
      let (m, differs) = filter-Elem (λ p. not (p.0 == e.0)) all p mp in
      test_ne_inv p.0 e.0 differs
        (ap (λ (q : Point). q.0) (Distinct_injective (λ q. q.1.0) all p e xs m me same))

  pub interpolate_term-ok :
      (e : Point)
      → Elem e all
      → (term : Polynomial) × (interpolate_term all e ≡ ok term) × IsTerm all e term
  unfolding interpolate_term product
  interpolate_term-ok (j, (x, y)) me =
      let e : Point = (j, (x, y)) in
      let apart : (p : Point) → Elem p (others all e) → p.1.0 ≢ x = λ p m. other_apart e p me m in
      let (fs, factors, right) =
        traverse-ok (FactorOf x) (basis_factor x) (others all e)
          (λ p m. basis_factor-ok x p (apart p m)) in
      let (basis, returns, is_basis) =
        product_from-ok x (others all e) fs (one ∷ []) (omega arith) right
          (All-of (λ p. p.1.0 ≢ x) (others all e) apart) in
      (
        scale basis y,
        rw (factors, returns) refl,
        record {
          short = omega (
            arith,
            length-scale basis y,
            is_basis.size,
            length-filter-lt (λ (p : Point). not (p.0 == e.0)) all e (test_self j) me,
          );
          weigh = λ t.
              let down : Gf256 = Gf256.product (map (λ p. x ⊕ p.1.0) (others all e)) in
              let up : Gf256 = Gf256.product (map (λ p. t ⊕ p.1.0) (others all e)) in
              ap (λ (v : Gf256). v ⊗ down) (value-scale basis y t ∙ ⊗_comm _ y)
              ∙ ⊗_assoc y (value basis t) down
              ∙ ap (◌⊗◌ y) (is_basis.weigh t ∙ ap (λ (v : Gf256). v ⊗ up) (value-one t) ∙ one-⊗ up)
              ∙ ⊗_comm y up;
          at = λ i mi. record {
            own = λ k.
                let same : e ≡ i = Distinct_injective (λ (p : Point). p.0) all e i keys me mi k in
                value-scale basis y i.1.0
                ∙ ap₂ ◌⊗◌
                    (ap (value basis) (sym (ap (λ (p : Point). p.1.0) same))
                      ∙ is_basis.at_own
                      ∙ value-one x)
                    (ap (λ (p : Point). p.1.1) same)
                ∙ one-⊗ _;
            other = λ k.
                value-scale basis y i.1.0
                ∙ ap (λ (v : Gf256). v ⊗ y)
                    (is_basis.at_root i (
                      Elem-filter (λ p. not (p.0 == e.0)) all i (test_ne i.0 j (λ s. k (sym s)))
                        mi))
                ∙ zero-⊗ y;
          };
        },
      )
