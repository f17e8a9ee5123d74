-- ===== src/Tss/Interpolation.antt =====
-- `interpolate` of enough genuine shares gives the polynomials back, as functions.
use seal.Base.{
  ℕ, ◌+◌, ◌<◌, ◌≤◌, List, [], ◌∷◌, map, length, length-map, get_elem?, some, All-get, All₂,
  Elem-get_elem?, U8, u8, ◌≡◌, ◌≢◌, refl, ap, ap₂, ◌∙◌, ok, ◌>>=◌, ◌||◌, not, false, arith,
  traverse-range_related, Distinct-map_injective,
}
use seal.Polynomial.{Polynomial, evaluate}
use seal.Polynomial
use seal.Polynomial.Recovery.{x_of, interpolate_recovers}
use seal.Utils.{is_empty}
use seal.Tss.{Share, bytes_at, contains, all_unique, evaluate_all, interpolate}
use seal.Tss.Checks.{All-map_iff, Distinct-map, contains-false_iff, all_unique_iff}
use seal.Tss.Sharing.{IsShareSet, bytes_at-ok, byte_share, on_polynomial}

-- Two polynomials with the same values.
abbrev pub SameValues : Polynomial → Polynomial → Type 0
SameValues f p = (x : U8) → evaluate p x ≡ evaluate f x

same_everywhere :
    (fs ps : List Polynomial) (x : U8)
    → All₂ SameValues fs ps
    → map (λ p. evaluate p x) ps ≡ map (λ f. evaluate f x) fs
same_everywhere [] [] x h = refl
same_everywhere [] (p ∷ ps) x h = absurd h
same_everywhere (f ∷ fs) [] x h = absurd h
same_everywhere (f ∷ fs) (p ∷ ps) x h = ap₂ ◌∷◌ (h.0 x) (same_everywhere fs ps x h.1)

module _ (fs : List Polynomial) (shares : List Share) (set : IsShareSet fs shares) where
  share_index : Share → U8
  share_index s = s.0

  nonempty-is_empty : (xs : List Share) → 0 < length xs → is_empty xs ≡ false
  nonempty-is_empty [] h = absurd (omega (arith, h))
  nonempty-is_empty (x ∷ xs) h = refl

  checks_pass :
      (is_empty shares
        || contains (u8 0) (map (λ s. s.0) shares)
        || not (all_unique (map (λ s. s.0) shares)))
      ≡ false
  checks_pass =
      rw
        (
          nonempty-is_empty shares set.nonempty,
          (contains-false_iff (u8 0) (map (λ (s : Share). s.0) shares)).1
              ((All-map_iff (λ (s : Share). s.0) (λ y. y ≢ u8 0) shares).1 set.nonzero),
          (all_unique_iff (map (λ (s : Share). s.0) shares)).1
              (Distinct-map (λ (s : Share). s.0) shares set.distinct),
        )
        refl

  byte_polynomial :
      (j : ℕ) (f : Polynomial)
      → get_elem? fs j ≡ some f
      → (p : Polynomial) × ((do bytes ← bytes_at shares j; Polynomial.interpolate bytes) ≡ ok p)
        × SameValues f p
  unfolding byte_share
  byte_polynomial j f at =
      let (p, returns, same) =
        interpolate_recovers f (map (byte_share f) shares)
          (Distinct-map_injective (byte_share f) x_of (λ (s : Share). s.0) shares (λ a b e. e)
            set.distinct)
          (on_polynomial f shares)
          (omega (
            arith,
            length-map (byte_share f) shares,
            All-get (λ g. length g ≤ length shares) fs f set.enough (Elem-get_elem? fs j f at),
          )) in
      (p, rw (bytes_at-ok fs shares j f set.genuine at) returns, same)

  -- The closure that `interpolate` returns gives, at every index, the share that the polynomials have
  -- there, for distinct genuine shares at least as many as each polynomial has coefficients.
  pub interpolate_lem :
      (polynomial : U8 → List U8) × (interpolate (length fs) shares ≡ ok polynomial)
      × ((x : U8) → polynomial x ≡ map (λ f. evaluate f x) fs)
  unfolding interpolate evaluate_all
  interpolate_lem =
      let (ps, returns, same) =
        traverse-range_related SameValues
          (λ i. do bytes ← bytes_at shares i; Polynomial.interpolate bytes) fs 0
          (λ j f at.
            let (p, e, r) = byte_polynomial j f at in
            (
              p,
              ap (λ (i : ℕ). bytes_at shares i >>= Polynomial.interpolate) {x = 0 + j} {y = j}
                    (omega arith)
                  ∙ e,
              r,
            )) in
      (evaluate_all ps, rw (checks_pass, returns) refl, λ x. same_everywhere fs ps x same)
