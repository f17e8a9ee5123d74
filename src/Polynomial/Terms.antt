-- ===== src/Polynomial/Terms.antt =====
-- A sum of Lagrange terms: each term has its own point's value there, and vanishes at the others.
use mathlib.Core.List.{reverse-cons}
use seal.Base.{
  ℕ, ◌≤◌, List, [], ◌∷◌, map, foldl, reverse, length, length-append, length-map, All, Elem,
  Distinct, ◌≡◌, ◌≢◌, refl, sym, ap, ap₂, ◌∙◌, inl, inr, ◌⊕◌, ⊕_assoc, zero-⊕, arith, All-get,
}
use seal.Gf256
use seal.Gf256.{Gf256, ◌⊗◌, zero}
use seal.Polynomial.{Polynomial, add, sum, scale, strip_trailing_zeros, pop_zeros, add_longest}
use seal.Polynomial.Eval.{value, value-add, ⊕-zero}
use seal.Polynomial.Product.{sum-cons}
use seal.Polynomial.Roots.{length-add_longest}

length-reverse {ℓ} : {A : Type ℓ} (xs : List A) → length (reverse xs) ≡ length xs
length-reverse [] = refl
length-reverse (x ∷ xs) =
    ap length (reverse-cons x xs)
    ∙ omega (arith, length-append (reverse xs) (x ∷ []), length-reverse xs)

length-pop_zeros : (cs : List Gf256) → length (pop_zeros cs) ≤ length cs
unfolding pop_zeros
length-pop_zeros [] = omega arith
length-pop_zeros (c ∷ cs) = ground (arith, length-pop_zeros cs)

length-strip : (p : Polynomial) → length (strip_trailing_zeros p) ≤ length p
unfolding strip_trailing_zeros
length-strip p =
    omega (
      arith,
      length-reverse (pop_zeros (reverse p)),
      length-pop_zeros (reverse p),
      length-reverse p,
    )

pub length-scale : (p : Polynomial) (s : Gf256) → length (scale p s) ≤ length p
unfolding scale
length-scale p s =
    omega (arith, length-strip (map (λ a. a ⊗ s) p), length-map (λ (a : Gf256). a ⊗ s) p)

length-add : (n : ℕ) (p q : Polynomial) → length p ≤ n → length q ≤ n → length (add p q) ≤ n
unfolding add
length-add n p q hp hq = omega (arith, length-strip (add_longest p q), length-add_longest p q)

length-sum_from :
    (n : ℕ) (acc : Polynomial) (ps : List Polynomial)
    → length acc ≤ n
    → All (λ p. length p ≤ n) ps
    → length (foldl add acc ps) ≤ n
length-sum_from n acc [] h hs = h
length-sum_from n acc (p ∷ ps) h hs =
    length-sum_from n (add acc p) ps (length-add n acc p h hs.0) hs.1

pub length-sum : (n : ℕ) (ps : List Polynomial) → All (λ p. length p ≤ n) ps → length (sum ps) ≤ n
unfolding sum
length-sum n ps h = length-sum_from n [] ps (omega arith) h

value-sum_from :
    (acc : Polynomial) (ps : List Polynomial) (t : Gf256)
    → value (foldl add acc ps) t ≡ value acc t ⊕ Gf256.sum (map (λ p. value p t) ps)
value-sum_from acc [] t = sym (⊕-zero _)
value-sum_from acc (p ∷ ps) t =
    value-sum_from (add acc p) ps t
    ∙ ap (λ (v : Gf256). v ⊕ Gf256.sum (map (λ p. value p t) ps)) (value-add acc p t)
    ∙ ⊕_assoc (value acc t) (value p t) _
    ∙ ap (◌⊕◌ (value acc t)) (sym (sum-cons (value p t) (map (λ p. value p t) ps)))

pub value-sum :
    (ps : List Polynomial) (t : Gf256) → value (sum ps) t ≡ Gf256.sum (map (λ p. value p t) ps)
unfolding sum
value-sum ps t = value-sum_from [] ps t ∙ unfold value in zero-⊕ _

module _ {A : Type 0} (key : A → ℕ) (x y : A → Gf256) where
  -- What the term of `e` is at the point of `i`.
  pub record IsTermAt (i e : A) (term : Polynomial) : Type 0 where
    pub own : key e ≡ key i → value term (x i) ≡ y i
    pub other : key e ≢ key i → value term (x i) ≡ zero

  abbrev pub TermsAt : A → List A → List Polynomial → Type 0
  TermsAt i [] [] = Unit {0}
  TermsAt i [] (t ∷ ts) = ⊥
  TermsAt i (e ∷ es) [] = ⊥
  TermsAt i (e ∷ es) (t ∷ ts) = IsTermAt i e t × TermsAt i es ts

  sum_absent :
      (i : A) (es : List A) (ts : List Polynomial)
      → TermsAt i es ts
      → All (λ e. key e ≢ key i) es
      → Gf256.sum (map (λ t. value t (x i)) ts) ≡ zero
  sum_absent i [] [] h ne = refl
  sum_absent i [] (t ∷ ts) h ne = absurd h
  sum_absent i (e ∷ es) [] h ne = absurd h
  sum_absent i (e ∷ es) (t ∷ ts) h ne =
      sum-cons (value t (x i)) (map (λ t'. value t' (x i)) ts)
      ∙ ap₂ ◌⊕◌ (h.0.other ne.0) (sum_absent i es ts h.1 ne.1)
      ∙ zero-⊕ zero

  sum_present :
      (i : A) (es : List A) (ts : List Polynomial)
      → TermsAt i es ts
      → Distinct key es
      → Elem i es
      → Gf256.sum (map (λ t. value t (x i)) ts) ≡ y i
  sum_present i [] ts h distinct m = absurd m
  sum_present i (e ∷ es) [] h distinct m = absurd h
  sum_present i (e ∷ es) (t ∷ ts) h distinct (inl here) =
      sum-cons (value t (x i)) (map (λ t'. value t' (x i)) ts)
      ∙ ap₂ ◌⊕◌ (h.0.own (ap key (sym here))) (sum_absent i es ts h.1 (rw here distinct.0))
      ∙ ⊕-zero _
  sum_present i (e ∷ es) (t ∷ ts) h distinct (inr m) =
      sum-cons (value t (x i)) (map (λ t'. value t' (x i)) ts)
      ∙ ap₂ ◌⊕◌ (h.0.other (λ k. All-get (λ e'. key e' ≢ key e) es i distinct.0 m (sym k)))
          (sum_present i es ts h.1 distinct.1 m)
      ∙ zero-⊕ _

  -- The sum of all terms takes the value of each point.
  pub value-sum_terms :
      (i : A) (es : List A) (ts : List Polynomial)
      → TermsAt i es ts
      → Distinct key es
      → Elem i es
      → value (sum ts) (x i) ≡ y i
  value-sum_terms i es ts h distinct m = value-sum ts (x i) ∙ sum_present i es ts h distinct m
