-- ===== src/Polynomial/Roots.antt =====
-- A polynomial with `n` coefficients and `n` roots is zero everywhere, so `n` points determine it.
use Prim.Native.Nat.{max}
use seal.Base.{
  ◌-◌, ◌≤◌, List, [], ◌∷◌, length, All, All-map, All-map₂, Distinct, ◌≡◌, ◌≢◌, refl, sym, ap, ap₂,
  ◌∙◌, ◌≡⟨◌⟩◌, ◌∎, ◌⊕◌, ⊕_assoc, ⊕_comm, zero-⊕, ⊕-self, arith,
}
use seal.Gf256.{Gf256, ◌⊗◌, zero}
use seal.Gf256.Field.{⊗-zero, ⊗-add, add-⊗, ⊗_assoc, ⊗_comm}
use seal.Gf256.Products.{⊗-eq-zero}
use seal.Polynomial.{Polynomial, add_longest}
use seal.Polynomial.Eval.{value, value-add_longest, ⊕-zero}

pub ⊕_cancel : (a b : Gf256) → a ⊕ b ⊕ b ≡ a
⊕_cancel a b = ⊕_assoc a b b ∙ ap (◌⊕◌ a) (⊕-self b) ∙ ⊕-zero a

pub ⊕-eq-zero : (a b : Gf256) → a ⊕ b ≡ zero → a ≡ b
⊕-eq-zero a b e = sym (⊕_cancel a b) ∙ ap (λ (u : Gf256). u ⊕ b) e ∙ zero-⊕ b

pub length-add_longest : (p q : Polynomial) → length (add_longest p q) ≡ max (length p) (length q)
unfolding add_longest
length-add_longest [] q = omega arith
length-add_longest (a ∷ p) [] = omega arith
length-add_longest (a ∷ p) (b ∷ q) = omega (arith, length-add_longest p q)

-- The quotient by X - a.
quotient : Gf256 → Polynomial → Polynomial
quotient a [] = []
quotient a (c ∷ []) = []
quotient a (c ∷ d ∷ cs) = value (d ∷ cs) a ∷ quotient a (d ∷ cs)

length-quotient : (a : Gf256) (p : Polynomial) → length (quotient a p) ≡ length p - 1
unfolding quotient
length-quotient a [] = refl
length-quotient a (c ∷ []) = refl
length-quotient a (c ∷ d ∷ cs) = omega (arith, length-quotient a (d ∷ cs))

factor_step : (a t c u v : Gf256) → c ⊕ t ⊗ (u ⊕ (t ⊕ a) ⊗ v) ≡ c ⊕ a ⊗ u ⊕ (t ⊕ a) ⊗ (u ⊕ t ⊗ v)
factor_step a t c u v =
    c ⊕ t ⊗ (u ⊕ (t ⊕ a) ⊗ v)
    ≡⟨ ap (◌⊕◌ c) (⊗-add t u ((t ⊕ a) ⊗ v)) ⟩ c ⊕ (t ⊗ u ⊕ t ⊗ ((t ⊕ a) ⊗ v))
    ≡⟨ ap (λ (w : Gf256). c ⊕ (t ⊗ u ⊕ w))
        (sym (⊗_assoc t (t ⊕ a) v)
          ∙ ap (λ (w : Gf256). w ⊗ v) (⊗_comm t (t ⊕ a))
          ∙ ⊗_assoc (t ⊕ a) t v) ⟩
      c ⊕ (t ⊗ u ⊕ (t ⊕ a) ⊗ (t ⊗ v))
    ≡⟨ ap (λ (w : Gf256). c ⊕ (w ⊕ (t ⊕ a) ⊗ (t ⊗ v))) split ⟩
      c ⊕ (a ⊗ u ⊕ (t ⊕ a) ⊗ u ⊕ (t ⊕ a) ⊗ (t ⊗ v))
    ≡⟨ (simp ⊕_assoc (ap (λ (w : Gf256). c ⊕ (a ⊗ u ⊕ w)) (sym (⊗-add (t ⊕ a) u (t ⊗ v))))) ⟩
      c ⊕ a ⊗ u ⊕ (t ⊕ a) ⊗ (u ⊕ t ⊗ v) ∎
  where
    split : t ⊗ u ≡ a ⊗ u ⊕ (t ⊕ a) ⊗ u
    split = sym (⊕_cancel (t ⊗ u) (a ⊗ u)) ∙ ⊕_comm _ _ ∙ ap (◌⊕◌ (a ⊗ u)) (sym (add-⊗ t a u))

-- Division with remainder by X - a.
value-quotient :
    (a t : Gf256) (p : Polynomial) → value p t ≡ value p a ⊕ (t ⊕ a) ⊗ value (quotient a p) t
unfolding value quotient
value-quotient a t [] = sym (zero-⊕ _ ∙ ⊗-zero _)
value-quotient a t (c ∷ []) =
    ap (◌⊕◌ c) (⊗-zero t ∙ sym (⊗-zero a))
    ∙ sym (ap (◌⊕◌ (c ⊕ a ⊗ zero)) (⊗-zero (t ⊕ a)) ∙ ⊕-zero _)
value-quotient a t (c ∷ d ∷ cs) =
    ap (λ (w : Gf256). c ⊕ t ⊗ w) (value-quotient a t (d ∷ cs))
    ∙ factor_step a t c (value (d ∷ cs) a) (value (quotient a (d ∷ cs)) t)

root_of_quotient :
    (a y : Gf256) (p : Polynomial)
    → value p a ≡ zero
    → value p y ≡ zero
    → y ≢ a
    → value (quotient a p) y ≡ zero
root_of_quotient a y p ha hy ne =
    ⊗-eq-zero (y ⊕ a) (value (quotient a p) y) (λ e. ne (⊕-eq-zero y a e))
      (sym (zero-⊕ _)
        ∙ ap (λ (w : Gf256). w ⊕ (y ⊕ a) ⊗ value (quotient a p) y) (sym ha)
        ∙ sym (value-quotient a y p)
        ∙ hy)

module _ {ℓ} {A : Type ℓ} (x : A → Gf256) where
  pub roots_bound :
      (l : List A) (p : Polynomial)
      → length p ≤ length l
      → Distinct x l
      → All (λ a. value p (x a) ≡ zero) l
      → (t : Gf256) → value p t ≡ zero
  roots_bound [] [] fits distinct roots t = unfold value in refl
  roots_bound [] (c ∷ p) fits distinct roots t = absurd (omega arith)
  roots_bound (a ∷ l) p fits distinct roots t =
      value-quotient (x a) t p
      ∙ ap₂ ◌⊕◌ roots.0 (
          ap (◌⊗◌ (t ⊕ x a)) (
            roots_bound l (quotient (x a) p) (omega (arith, length-quotient (x a) p)) distinct.1
              (All-map₂ (λ b hb ne. root_of_quotient (x a) (x b) p roots.0 hb ne) l roots.1
                distinct.0)
              t)
          ∙ ⊗-zero _)
      ∙ zero-⊕ zero

  -- Two polynomials with at most `n` coefficients that agree at `n` points agree everywhere.
  pub value_unique :
      (l : List A) (p q : Polynomial)
      → length p ≤ length l
      → length q ≤ length l
      → Distinct x l
      → All (λ a. value p (x a) ≡ value q (x a)) l
      → (t : Gf256) → value p t ≡ value q t
  value_unique l p q hp hq distinct agree t = ⊕-eq-zero _ _ (
      sym (value-add_longest p q t)
      ∙ roots_bound l (add_longest p q) (omega (arith, length-add_longest p q)) distinct
          (All-map (λ a e. value-add_longest p q (x a) ∙ rw e (⊕-self _)) l agree) t)
