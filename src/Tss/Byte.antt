-- ===== src/Tss/Byte.antt =====
-- Recovery of one byte: `combine_byte` on values of a polynomial gives its constant term.
use seal.Base.{
  List, [], ◌∷◌, map, All-of, Elem, Distinct, All₂, U8, ◌=8◌, not, ◌≡◌, ◌≢◌, =8_iff, Bool-cases,
  map_congr, filter-Elem, Elem-map, refl, sym, ap, ap₂, ◌∙◌, ◌≡⟨◌⟩◌, ◌∎, inl, inr, ◌⊕◌, zero-⊕,
  ⊕_comm, ok, expect,
}
use seal.Gf256
use seal.Gf256.{Gf256, ◌⊗◌, zero, sub}
use seal.Gf256.Field.{⊗_assoc, ⊗_comm, ⊗-add, ⊗-zero, div-ok}
use seal.Gf256.Products.{⊗-eq-zero, ⊗_cancel, product-ne-zero, product-without, without}
use seal.Polynomial.{Polynomial}
use seal.Polynomial.Eval.{value}
use seal.Polynomial.Product.{sum-cons}
use seal.Polynomial.Roots.{⊕-eq-zero}
use seal.Polynomial.Interpolation.{Point, IsTerm, others}
use seal.Tss.{quotient_term}
use seal.Tss.Checks.{All-map_iff, Distinct-map}

abbrev pub index_of : U8 × U8 → U8
index_of s = s.0

-- A share as a point of `interpolate`, keyed by its own index.
abbrev pub point : U8 × U8 → Point
point s = (s.0.val, s)

-- The indices of the other shares, as `combine_byte` filters them, are those that the term of an
-- interpolation has.
map-others :
    (f : U8 → U8) (s : U8 × U8) (l : List (U8 × U8))
    → map (λ (p : Point). f p.1.0) (others (map point l) (point s))
      ≡ map f (without s.0 (map index_of l))
map-others f s [] = refl
map-others f s (x ∷ l) = elim (Bool-cases (x.0 =8 s.0)) [
  | inl e ↦ rw e (map-others f s l)
  | inr e ↦ rw e (ap (◌∷◌ (f x.0)) (map-others f s l))
]

-- The product in the denominator.
abbrev pub gaps : List (U8 × U8) → U8 × U8 → Gf256
gaps shares s = Gf256.product (map (λ j. sub j s.0) (without s.0 (map index_of shares)))

gaps-ne-zero : (shares : List (U8 × U8)) (s : U8 × U8) → gaps shares s ≢ zero
gaps-ne-zero shares s = product-ne-zero (map (λ j. sub j s.0) kept) (
    (All-map_iff (λ (j : U8). sub j s.0) (λ b. b ≢ zero) kept).1 (
      All-of (λ j. sub j s.0 ≢ zero) kept
        (λ j m e.
          let (_, differs) = filter-Elem (λ j'. not (j' =8 s.0)) (map index_of shares) j m in
          cc (sym differs ∙ ap not ((=8_iff j s.0).1 (⊕-eq-zero j s.0 e))))))
  where
    kept : List U8
    kept = without s.0 (map index_of shares)

-- What a summand is.
abbrev pub IsQuotient : List (U8 × U8) → U8 × U8 → Gf256 → Type 0
IsQuotient shares s q = q ⊗ (s.0 ⊗ gaps shares s) ≡ s.1

pub quotient_term-ok :
    (shares : List (U8 × U8)) (s : U8 × U8)
    → s.0 ≢ zero
    → (q : Gf256) × (quotient_term shares s ≡ ok q) × IsQuotient shares s q
unfolding quotient_term
quotient_term-ok shares (i, y) ne =
    let (q, returns, exact) =
      div-ok y (i ⊗ gaps shares (i, y))
        (λ e. gaps-ne-zero shares (i, y) (⊗-eq-zero i (gaps shares (i, y)) ne e)) in
    (q, ap expect returns, exact)

-- One summand times the product of all indices is one term of the interpolation at zero.
weight_step : (x n q d y v : Gf256) → d ≢ zero → q ⊗ (x ⊗ d) ≡ y → v ⊗ d ≡ n ⊗ y → x ⊗ n ⊗ q ≡ v
weight_step x n q d y v ne hq hv = ⊗_cancel (x ⊗ n ⊗ q) v d ne (
    x ⊗ n ⊗ q ⊗ d
    ≡⟨ ap (λ (u : Gf256). u ⊗ q ⊗ d) (⊗_comm x n) ⟩ n ⊗ x ⊗ q ⊗ d
    ≡⟨ ap (λ (u : Gf256). u ⊗ d) (⊗_assoc n x q ∙ ap (◌⊗◌ n) (⊗_comm x q)) ⟩ n ⊗ (q ⊗ x) ⊗ d
    ≡⟨ ⊗_assoc n (q ⊗ x) d ∙ ap (◌⊗◌ n) (⊗_assoc q x d) ⟩ n ⊗ (q ⊗ (x ⊗ d))
    ≡⟨ ap (◌⊗◌ n) hq ∙ sym hv ⟩ v ⊗ d ∎)

map-same : (l : List U8) → map (λ j. zero ⊕ j) l ≡ l
map-same [] = refl
map-same (x ∷ l) = ap₂ ◌∷◌ (zero-⊕ x) (map-same l)

module _ (shares : List (U8 × U8)) (distinct : Distinct index_of shares) where
  abbrev xs : List U8
  xs = map index_of shares

  weighted :
      (s : U8 × U8) (q : Gf256) (t : Polynomial)
      → Elem s shares
      → IsQuotient shares s q
      → IsTerm (map point shares) (point s) t
      → Gf256.product xs ⊗ q ≡ value t zero
  weighted s q t m hq ht =
      let n : Gf256 = Gf256.product (without s.0 xs) in
      let d_same = map_congr (λ j. sub j s.0) (λ j. s.0 ⊕ j) (λ j. ⊕_comm j s.0) (without s.0 xs) in
      let weigh =
        ap (λ (l : List U8). value t zero ⊗ Gf256.product l)
          (d_same ∙ sym (map-others (λ j. s.0 ⊕ j) s shares))
        ∙ ht.weigh zero
        ∙ ap (λ (l : List U8). Gf256.product l ⊗ s.1)
            (map-others (λ j. zero ⊕ j) s shares ∙ map-same (without s.0 xs)) in
      ap (λ (u : Gf256). u ⊗ q)
        (product-without s.0 xs (Distinct-map index_of shares distinct)
          (Elem-map index_of shares s m))
      ∙ weight_step s.0 n q (gaps shares s) s.1 (value t zero) (gaps-ne-zero shares s) hq weigh

  pub weighted_sum :
      (l : List (U8 × U8)) (qs : List Gf256) (ts : List Polynomial)
      → ((s : U8 × U8) → Elem s l → Elem s shares)
      → All₂ (IsQuotient shares) l qs
      → All₂ (IsTerm (map point shares)) (map point l) ts
      → Gf256.product xs ⊗ Gf256.sum qs ≡ Gf256.sum (map (λ t. value t zero) ts)
  weighted_sum [] [] [] inside hq ht = ⊗-zero _
  weighted_sum [] [] (t ∷ ts) inside hq ht = absurd ht
  weighted_sum [] (q ∷ qs) ts inside hq ht = absurd hq
  weighted_sum (s ∷ l) [] ts inside hq ht = absurd hq
  weighted_sum (s ∷ l) (q ∷ qs) [] inside hq ht = absurd ht
  weighted_sum (s ∷ l) (q ∷ qs) (t ∷ ts) inside hq ht =
      ap (◌⊗◌ (Gf256.product xs)) (sum-cons q qs)
      ∙ ⊗-add (Gf256.product xs) q (Gf256.sum qs)
      ∙ ap₂ ◌⊕◌ (weighted s q t (inside s (inl refl)) hq.0 ht.0)
          (weighted_sum l qs ts (λ r m. inside r (inr m)) hq.1 ht.1)
      ∙ sym (sum-cons (value t zero) (map (λ t'. value t' zero) ts))
