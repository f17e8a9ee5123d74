-- ===== src/Polynomial/Eval.antt =====
-- What `evaluate` makes of each operation.
use mathlib.Core.List.{reverse-cons, reverse-reverse}
use seal.Base.{
  ℕ, suc, List, [], ◌∷◌, ◌++◌, map, foldl, reverse, get_or, ◌≡◌, refl, sym, ap, ◌∙◌, ◌≡⟨◌⟩◌, ◌∎,
  ◌⊕◌, ⊕_comm, zero-⊕, ⊕_interchange, =8_iff, ◌=8◌, Bool-cases, inl, inr,
}
use seal.Gf256.{Gf256, ◌⊗◌, zero}
use seal.Gf256.Field.{zero-⊗, ⊗-zero, ⊗-add, add-⊗, ⊗_assoc, ⊗_comm}
use seal.Polynomial.{Polynomial, evaluate, pop_zeros, strip_trailing_zeros, add_longest, add, scale}

-- The value at `x`, from the constant term on: c₀ + x (c₁ + x (c₂ + …)).
unfoldable pub value : Polynomial → Gf256 → Gf256
value [] x = zero
value (c ∷ cs) x = c ⊕ x ⊗ value cs x

-- Horner's rule on a vector that is read from its end.
horner : Gf256 → List Gf256 → Gf256
horner x = foldl (λ sum c. sum ⊗ x ⊕ c) zero

horner_step : Gf256 → Gf256 → List Gf256 → Gf256
horner_step x = foldl (λ sum c. sum ⊗ x ⊕ c)

horner-snoc :
    (x s c : Gf256) (cs : List Gf256) → horner_step x s (cs ++ c ∷ []) ≡ horner_step x s cs ⊗ x ⊕ c
unfolding horner_step
horner-snoc x s c [] = refl
horner-snoc x s c (d ∷ cs) = horner-snoc x (s ⊗ x ⊕ d) c cs

pub evaluate-eq-value : (p : Polynomial) (x : Gf256) → evaluate p x ≡ value p x
unfolding evaluate value horner_step
evaluate-eq-value [] x = refl
evaluate-eq-value (c ∷ cs) x =
    ap (horner_step x zero) (reverse-cons c cs)
    ∙ horner-snoc x zero c (reverse cs)
    ∙ ap (λ (v : Gf256). v ⊗ x ⊕ c) (evaluate-eq-value cs x)
    ∙ ⊕_comm _ c
    ∙ ap (◌⊕◌ c) (⊗_comm _ x)

pub ⊕-zero : (a : Gf256) → a ⊕ zero ≡ a
⊕-zero a = ⊕_comm a zero ∙ zero-⊕ a

horner_zero : (x c : Gf256) → c ≡ zero → zero ⊗ x ⊕ c ≡ zero
horner_zero x c e = rw (e, zero-⊗ x) (zero-⊕ zero)

-- Trailing zeros do not count.
horner-pop_zeros :
    (x : Gf256) (cs : List Gf256) → horner_step x zero (pop_zeros cs) ≡ horner_step x zero cs
unfolding horner_step pop_zeros
horner-pop_zeros x [] = refl
horner-pop_zeros x (c ∷ cs) = elim (Bool-cases (c =8 zero)) [
  | inl e ↦ rw e (
      horner-pop_zeros x cs
      ∙ ap (λ (s : Gf256). horner_step x s cs) (sym (horner_zero x c ((=8_iff c zero).0 e))))
  | inr e ↦ rw e refl
]

pub value-strip : (p : Polynomial) (x : Gf256) → value (strip_trailing_zeros p) x ≡ value p x
unfolding strip_trailing_zeros evaluate horner_step
value-strip p x =
    value (strip_trailing_zeros p) x
    ≡⟨ sym (evaluate-eq-value _ x) ⟩ horner_step x zero (reverse (reverse (pop_zeros (reverse p))))
    ≡⟨ ap (horner_step x zero) {y = pop_zeros (reverse p)} (reverse-reverse _) ⟩
      horner_step x zero (pop_zeros (reverse p))
    ≡⟨ horner-pop_zeros x (reverse p) ⟩ horner_step x zero (reverse p)
    ≡⟨ evaluate-eq-value p x ⟩ value p x ∎

pub value-add_longest :
    (p q : Polynomial) (x : Gf256) → value (add_longest p q) x ≡ value p x ⊕ value q x
unfolding value add_longest
value-add_longest [] q x = sym (zero-⊕ _)
value-add_longest (a ∷ p) [] x = sym (⊕-zero _)
value-add_longest (a ∷ p) (b ∷ q) x =
    rw (value-add_longest p q x, ⊗-add x (value p x) (value q x)) (⊕_interchange a b _ _)

pub value-add : (p q : Polynomial) (x : Gf256) → value (add p q) x ≡ value p x ⊕ value q x
unfolding add
value-add p q x = value-strip (add_longest p q) x ∙ value-add_longest p q x

value-map : (p : Polynomial) (s x : Gf256) → value (map (λ a. a ⊗ s) p) x ≡ value p x ⊗ s
unfolding value
value-map [] s x = sym (zero-⊗ s)
value-map (a ∷ p) s x = rw (value-map p s x, add-⊗ a (x ⊗ value p x) s, ⊗_assoc x (value p x) s)

pub value-scale : (p : Polynomial) (s x : Gf256) → value (scale p s) x ≡ value p x ⊗ s
unfolding scale
value-scale p s x = value-strip (map (λ a. a ⊗ s) p) x ∙ value-map p s x

-- Equal coefficients, missing ones read as zero, give equal values.
pub value_ext :
    (p q : Polynomial) (x : Gf256)
    → ((i : ℕ) → get_or p i zero ≡ get_or q i zero)
    → value p x ≡ value q x
unfolding value
value_ext [] [] x h = refl
value_ext [] (b ∷ q) x h =
    rw (← h 0, ← value_ext [] q x (λ i. h (suc i))) (sym (zero-⊕ _ ∙ ⊗-zero x))
value_ext (a ∷ p) [] x h = rw (h 0, value_ext p [] x (λ i. h (suc i))) (zero-⊕ _ ∙ ⊗-zero x)
value_ext (a ∷ p) (b ∷ q) x h = rw (h 0, value_ext p q x (λ i. h (suc i)))
