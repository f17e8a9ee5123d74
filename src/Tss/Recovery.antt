-- ===== src/Tss/Recovery.antt =====
-- `combine_byte` on values of a polynomial gives the polynomial's value at zero.
use seal.Base.{
  ◌≤◌, List, ◌∷◌, map, length, length-map, All, All-get, All-of, Distinct, U8, U8_ext, u8, false,
  not, ◌||◌, ◌≡◌, ◌≢◌, refl, sym, ap, ◌∙◌, arith, ok, traverse-ok, Distinct-map_injective, All₂,
  ◌⊕◌,
}
use seal.Gf256
use seal.Gf256.{Gf256, ◌⊗◌, zero}
use seal.Gf256.Field.{zero-⊗}
use seal.Polynomial.{Polynomial, evaluate, sum, interpolate_term}
use seal.Polynomial.Eval.{value, evaluate-eq-value, ⊕-zero}
use seal.Polynomial.Roots.{value_unique}
use seal.Polynomial.Terms.{length-sum, value-sum, value-sum_terms}
use seal.Polynomial.Interpolation.{Point, IsTerm, interpolate_term-ok}
use seal.Polynomial.Recovery.{terms_at, terms_short}
use seal.Utils.{is_empty}
use seal.Tss.{quotient_term, combine_byte, contains, all_unique}
use seal.Tss.Checks.{contains-false_iff, all_unique_iff, All-map_iff, Distinct-map}
use seal.Tss.Byte.{index_of, point, IsQuotient, quotient_term-ok, weighted_sum}

-- The checks at the head of `combine_byte` and of `interpolate`.
pub record IsValid (shares : List (U8 × U8)) : Type 0 where
  pub nonempty : is_empty shares ≡ false
  pub distinct : Distinct index_of shares
  pub nonzero : All (λ s. s.0 ≢ zero) shares

-- Each share is a value of `f`, and there are at least as many as `f` has coefficients.
pub record Shares (f : Polynomial) (shares : List (U8 × U8)) : Type 0 where
  pub on_f : All (λ s. s.1 ≡ evaluate f s.0) shares
  pub enough : length f ≤ length shares

module _ (f : Polynomial) (shares : List (U8 × U8)) (valid : IsValid shares)
    (s : Shares f shares) where
  abbrev all : List Point
  all = map point shares

  keys : Distinct (λ (p : Point). p.0) all
  keys = Distinct-map_injective point (λ p. p.0) index_of shares (λ a b e. U8_ext e) valid.distinct

  xs : Distinct (λ (p : Point). p.1.0) all
  xs = Distinct-map_injective point (λ p. p.1.0) index_of shares (λ a b e. e) valid.distinct

  on_points : All (λ (p : Point). p.1.1 ≡ evaluate f p.1.0) all
  on_points = (All-map_iff point (λ p. p.1.1 ≡ evaluate f p.1.0) shares).1 s.on_f

  -- The terms of the interpolation, and their sum at zero.
  terms_at_zero :
      (ts : List Polynomial) × All₂ (IsTerm all) all ts
      × (Gf256.sum (map (λ t. value t zero) ts) ≡ evaluate f zero)
  terms_at_zero =
      let (ts, _, terms) =
        traverse-ok (IsTerm all) (interpolate_term all) all (interpolate_term-ok all keys xs) in
      (
        ts,
        terms,
        sym (value-sum ts zero)
            ∙ value_unique (λ (p : Point). p.1.0) all (sum ts) f
                (length-sum (length all) ts (terms_short all all ts terms))
                (omega (arith, length-map point shares, s.enough)) xs
                (All-of (λ p. value (sum ts) p.1.0 ≡ value f p.1.0) all
                  (λ p m.
                    value-sum_terms (λ (p : Point). p.0) (λ p. p.1.0) (λ p. p.1.1) p all ts
                      (terms_at all all ts p m terms) keys m
                    ∙ All-get (λ q. q.1.1 ≡ evaluate f q.1.0) all p on_points m
                    ∙ evaluate-eq-value f p.1.0))
                zero
            ∙ sym (evaluate-eq-value f zero),
      )

  checks_pass :
      (is_empty shares
        || not (all_unique (map (λ r. r.0) shares))
        || contains (u8 0) (map (λ r. r.0) shares))
      ≡ false
  checks_pass =
      rw
        (
          valid.nonempty,
          (all_unique_iff (map index_of shares)).1 (Distinct-map index_of shares valid.distinct),
          (contains-false_iff zero (map index_of shares)).1
              ((All-map_iff index_of (λ y. y ≢ zero) shares).1 valid.nonzero),
        )
        refl

  -- At least as many values of `f` as it has coefficients, at distinct nonzero indices: the byte
  -- that `combine_byte` returns is the value of `f` at zero.
  pub combine_byte-ok : combine_byte shares ≡ ok (evaluate f zero)
  unfolding combine_byte
  combine_byte-ok =
      let (qs, returns, quotients) =
        traverse-ok (IsQuotient shares) (quotient_term shares) shares
          (λ r m. quotient_term-ok shares r (All-get (λ p. p.0 ≢ zero) shares r valid.nonzero m)) in
      let (ts, terms, total) = terms_at_zero in
      rw checks_pass (
        rw returns (
          ap ok
            (weighted_sum shares valid.distinct shares qs ts (λ r m. m) quotients terms ∙ total)))

-- The value at zero is the constant term.
pub evaluate-at_zero : (c : Gf256) (cs : Polynomial) → evaluate (c ∷ cs) zero ≡ c
unfolding value
evaluate-at_zero c cs =
    evaluate-eq-value (c ∷ cs) zero ∙ ap (◌⊕◌ c) (zero-⊗ (value cs zero)) ∙ ⊕-zero c
