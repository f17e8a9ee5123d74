-- ===== src/Polynomial/Recovery.antt =====
-- `Polynomial::interpolate` as a whole: it goes through its points, and gives a polynomial back
-- from enough of its values.
use seal.Base.{
  ℕ, suc, ◌≤◌, ◌<◌, List, [], ◌∷◌, length, All, All-get, All-of, Elem, Distinct, All₂, ◌≡◌, ◌≢◌,
  refl, sym, ap, ◌∙◌, inl, inr, arith, ok, traverse-ok, enumerate,
}
use seal.Gf256.{Gf256}
use seal.Polynomial.{Polynomial, evaluate, sum, interpolate_term, interpolate}
use seal.Polynomial.Eval.{evaluate-eq-value}
use seal.Polynomial.Roots.{value_unique}
use seal.Polynomial.Terms.{length-sum, TermsAt, value-sum_terms}
use seal.Polynomial.Interpolation.{Point, IsTerm, interpolate_term-ok}

length-enumerate {ℓ} : {A : Type ℓ} (s : ℕ) (xs : List A) → length (enumerate s xs) ≡ length xs
length-enumerate s [] = refl
length-enumerate s (x ∷ xs) = ap suc (length-enumerate (suc s) xs)

enumerate_above {ℓ} :
    {A : Type ℓ} (s t : ℕ) (xs : List A) → s < t → All (λ e. e.0 ≢ s) (enumerate t xs)
enumerate_above s t [] h = tt
enumerate_above s t (x ∷ xs) h =
    ((λ (e : t ≡ s). absurd (omega arith)), enumerate_above s (suc t) xs (omega arith))

Distinct-enumerate_keys :
    {A : Type 0} (s : ℕ) (xs : List A) → Distinct (λ (e : ℕ × A). e.0) (enumerate s xs)
Distinct-enumerate_keys s [] = tt
Distinct-enumerate_keys s (x ∷ xs) =
    (enumerate_above s (suc s) xs (omega arith), Distinct-enumerate_keys (suc s) xs)

module _ {κ} {A : Type 0} {K : Type κ} (key : A → K) where
  All-enumerate :
      (P : A → Type κ) (s : ℕ) (xs : List A)
      → All P xs
      → All (λ (e : ℕ × A). P e.1) (enumerate s xs)
  All-enumerate P s [] h = tt
  All-enumerate P s (x ∷ xs) h = (h.0, All-enumerate P (suc s) xs h.1)

  Distinct-enumerate :
      (s : ℕ) (xs : List A) → Distinct key xs → Distinct (λ (e : ℕ × A). key e.1) (enumerate s xs)
  Distinct-enumerate s [] d = tt
  Distinct-enumerate s (x ∷ xs) d =
      (All-enumerate (λ y. key y ≢ key x) (suc s) xs d.0, Distinct-enumerate (suc s) xs d.1)

Elem-enumerate :
    {A : Type 0} (s : ℕ) (xs : List A) (a : A) → Elem a xs → (j : ℕ) × Elem (j, a) (enumerate s xs)
Elem-enumerate s [] a m = absurd m
Elem-enumerate s (x ∷ xs) a (inl e) = (s, inl (λ i. (s, e i)))
Elem-enumerate s (x ∷ xs) a (inr m) = let (j, n) = Elem-enumerate (suc s) xs a m in (j, inr n)

pub terms_at :
    (all es : List Point) (ts : List (Polynomial)) (i : Point)
    → Elem i all
    → All₂ (IsTerm all) es ts
    → TermsAt (λ p. p.0) (λ p. p.1.0) (λ p. p.1.1) i es ts
terms_at all [] [] i m h = tt
terms_at all [] (t ∷ ts) i m h = h
terms_at all (e ∷ es) [] i m h = h
terms_at all (e ∷ es) (t ∷ ts) i m h = (h.0.at i m, terms_at all es ts i m h.1)

pub terms_short :
    (all es : List Point) (ts : List Polynomial)
    → All₂ (IsTerm all) es ts
    → All (λ t. length t ≤ length all) ts
terms_short all [] [] h = tt
terms_short all [] (t ∷ ts) h = absurd h
terms_short all (e ∷ es) [] h = absurd h
terms_short all (e ∷ es) (t ∷ ts) h = (h.0.short, terms_short all es ts h.1)

abbrev pub Points : Type 0
Points = List (Gf256 × Gf256)

abbrev pub x_of : Gf256 × Gf256 → Gf256
x_of p = p.0

-- On points with distinct x-values `interpolate` does not panic, and returns a polynomial with at
-- most as many coefficients as there are points, whose value at each point's x is its y.
pub interpolate-ok :
    (points : Points)
    → Distinct x_of points
    → (p : Polynomial) × (interpolate points ≡ ok p)
      × (length p ≤ length points)
      × ((pt : Gf256 × Gf256) → Elem pt points → evaluate p pt.0 ≡ pt.1)
unfolding interpolate
interpolate-ok points distinct =
    let all : List Point = enumerate 0 points in
    let keys = Distinct-enumerate_keys 0 points in
    let xs = Distinct-enumerate x_of 0 points distinct in
    let (ts, returns, terms) =
      traverse-ok (IsTerm all) (interpolate_term all) all (interpolate_term-ok all keys xs) in
    (
      sum ts,
      rw returns refl,
      omega (
        arith,
        length-sum (length all) ts (terms_short all all ts terms),
        length-enumerate 0 points,
      ),
      λ pt m.
          let (j, n) = Elem-enumerate 0 points pt m in
          evaluate-eq-value (sum ts) pt.0
          ∙ value-sum_terms (λ (p : Point). p.0) (λ p. p.1.0) (λ p. p.1.1) (j, pt) all ts
              (terms_at all all ts (j, pt) n terms) keys n,
    )

-- Where the y-values are those of a polynomial with at most as many coefficients as there are
-- points, what `interpolate` returns has the values of that polynomial everywhere.
pub interpolate_recovers :
    (f : Polynomial) (points : Points)
    → Distinct x_of points
    → All (λ pt. pt.1 ≡ evaluate f pt.0) points
    → length f ≤ length points
    → (p : Polynomial) × (interpolate points ≡ ok p) × ((t : Gf256) → evaluate p t ≡ evaluate f t)
interpolate_recovers f points distinct on_f fits =
    let (p, returns, short, through) = interpolate-ok points distinct in
    (
      p,
      returns,
      λ t.
          evaluate-eq-value p t
          ∙ value_unique x_of points p f short fits distinct
              (All-of _ points (λ pt m.
                sym (evaluate-eq-value p pt.0)
                ∙ through pt m
                ∙ All-get (λ q. q.1 ≡ evaluate f q.0) points pt on_f m
                ∙ evaluate-eq-value f pt.0))
              t
          ∙ sym (evaluate-eq-value f t),
    )
