-- ===== src/Gf256/Field.antt =====
-- GF256 is a field: the laws of `+` and `*` on every element, and division.
use seal.Base.{
  ℕ, zero as nat_zero, suc, ◌+◌, ◌-◌, ◌≡◌, ◌≢◌, ◌⊎◌, inl, inr, refl, sym, ap, ◌∙◌, ◌≡⟨◌⟩◌, ◌∎,
  U8_ext, ◌⊕◌, zero-⊕, arith, ℕ_discrete, dite, dif_pos, dif_neg, ok, err, invalid_input,
}
use native.Mathlib.Nat.{ℕ_set}
use seal.Gf256.{Gf256, zero, one, log, exp, ◌⊗◌, div}
use seal.Gf256.Powers.{
  triple, triple-add, triple-zero, exp_congr, exp-suc, exp-log, exp-ne-zero, log-exp, log_lt,
}

pub val-ne-zero : {a : Gf256} → a ≢ zero → a.val ≢ 0
val-ne-zero h e = h (U8_ext e)

pub zero-cases : (a : Gf256) → (a ≡ zero) ⊎ (a ≢ zero)
zero-cases a = elim (ℕ_discrete a.val 0) [
  | yes e ↦ inl (U8_ext e)
  | no h ↦ inr (λ e. h (ap (λ (x : Gf256). x.val) e))
]

dite_same {ℓ κ} : {P : Type ℓ} {C : Type κ} (d : Dec P) (x : C) → dite d (λ _. x) (λ _. x) ≡ x
dite_same (yes p) x = refl
dite_same (no p) x = refl

pub zero-⊗ : (b : Gf256) → zero ⊗ b ≡ zero
unfolding ◌⊗◌ ℕ_discrete
zero-⊗ b = refl

pub ⊗-zero : (a : Gf256) → a ⊗ zero ≡ zero
unfolding ◌⊗◌ ℕ_discrete
⊗-zero a = dite_same (ℕ_discrete a.val 0) zero

⊗_pos : (a b : Gf256) (p : a.val ≢ 0) (q : b.val ≢ 0) → a ⊗ b ≡ exp (log a p + log b q)
unfolding ◌⊗◌ log
⊗_pos a b p q = rw (dif_neg _ p) (rw (dif_neg _ q) refl)

exp-⊗-exp : (m n : ℕ) → exp m ⊗ exp n ≡ exp (m + n)
exp-⊗-exp m n =
    ⊗_pos (exp m) (exp n) (exp-ne-zero m) (exp-ne-zero n)
    ∙ exp_congr _ _ (omega (arith, log-exp m (exp-ne-zero m), log-exp n (exp-ne-zero n)))

-- Every element but zero is a power of 0x03.
pub exp_surjective : (a : Gf256) → a ≢ zero → (n : ℕ) × (a ≡ exp n)
exp_surjective a h = (log a (val-ne-zero h), sym (exp-log a (val-ne-zero h)))

-- A law of two elements, or three, from its cases at zero and at powers.
comm_cases :
    (a b : Gf256)
    → (a ≡ zero) ⊎ ((n : ℕ) × (a ≡ exp n))
    → (b ≡ zero) ⊎ ((n : ℕ) × (b ≡ exp n))
    → a ⊗ b ≡ b ⊗ a
comm_cases a b (inl p) q = rw p (zero-⊗ b ∙ sym (⊗-zero b))
comm_cases a b (inr p) (inl q) = rw q (⊗-zero a ∙ sym (zero-⊗ a))
comm_cases a b (inr (m, p)) (inr (n, q)) =
    rw (p, q) (exp-⊗-exp m n ∙ exp_congr _ _ (omega arith) ∙ sym (exp-⊗-exp n m))

pub power-cases : (a : Gf256) → (a ≡ zero) ⊎ ((n : ℕ) × (a ≡ exp n))
power-cases a = elim (zero-cases a) [ inl e ↦ inl e | inr h ↦ inr (exp_surjective a h) ]

pub ⊗_comm : (a b : Gf256) → a ⊗ b ≡ b ⊗ a
⊗_comm a b = comm_cases a b (power-cases a) (power-cases b)

assoc_powers : (l m n : ℕ) → exp l ⊗ exp m ⊗ exp n ≡ exp l ⊗ (exp m ⊗ exp n)
assoc_powers l m n =
    rw (exp-⊗-exp l m, exp-⊗-exp m n, exp-⊗-exp (l + m) n, exp-⊗-exp l (m + n))
      (exp_congr _ _ (omega arith))

pub ⊗_assoc : (a b c : Gf256) → a ⊗ b ⊗ c ≡ a ⊗ (b ⊗ c)
⊗_assoc a b c = elim (power-cases a) [
  | inl p ↦ rw (p, zero-⊗ b, zero-⊗ c, zero-⊗ (b ⊗ c)) refl
  | inr (l, p) ↦ elim (power-cases b) [
    | inl q ↦ rw (q, ⊗-zero a, zero-⊗ c, ⊗-zero a) refl
    | inr (m, q) ↦ elim (power-cases c) [
      | inl r ↦ rw (r, ⊗-zero (a ⊗ b), ⊗-zero b, ⊗-zero a) refl
      | inr (n, r) ↦ rw (p, q, r) (assoc_powers l m n)
    ]
  ]
]

exp_at_zero : exp 0 ≡ one
unfolding exp
exp_at_zero = refl

pub one-⊗ : (b : Gf256) → one ⊗ b ≡ b
one-⊗ b = elim (power-cases b) [
  | inl e ↦ rw e (⊗-zero one)
  | inr (n, e) ↦ rw (e, ← exp_at_zero) (exp-⊗-exp 0 n ∙ exp_congr _ _ (omega arith))
]

pub ⊗-one : (b : Gf256) → b ⊗ one ≡ b
⊗-one b = ⊗_comm b one ∙ one-⊗ b

-- Multiplication by a power of 0x03 is that many steps of `triple`, and so is linear.
unfoldable pub triples : ℕ → Gf256 → Gf256
triples nat_zero b = b
triples (suc n) b = triple (triples n b)

triples-zero : (n : ℕ) → triples n zero ≡ zero
unfolding triples
triples-zero nat_zero = refl
triples-zero (suc n) = rw (triples-zero n) triple-zero

triples-add : (n : ℕ) (b c : Gf256) → triples n (b ⊕ c) ≡ triples n b ⊕ triples n c
unfolding triples
triples-add nat_zero b c = refl
triples-add (suc n) b c = rw (triples-add n b c) (triple-add _ _)

triples-exp : (n m : ℕ) → triples n (exp m) ≡ exp (n + m)
unfolding triples
triples-exp nat_zero m = exp_congr _ _ (omega arith)
triples-exp (suc n) m = rw (triples-exp n m, ← exp-suc (n + m)) (exp_congr _ _ (omega arith))

pub exp-⊗ : (n : ℕ) (b : Gf256) → exp n ⊗ b ≡ triples n b
exp-⊗ n b = elim (power-cases b) [
  | inl e ↦ rw (e, triples-zero n) (⊗-zero (exp n))
  | inr (m, e) ↦ rw (e, triples-exp n m) (exp-⊗-exp n m)
]

pub ⊗-add : (a b c : Gf256) → a ⊗ (b ⊕ c) ≡ a ⊗ b ⊕ a ⊗ c
⊗-add a b c = elim (power-cases a) [
  | inl e ↦ rw (e, zero-⊗ (b ⊕ c), zero-⊗ b, zero-⊗ c) (sym (zero-⊕ zero))
  | inr (n, e) ↦ rw (e, exp-⊗ n (b ⊕ c), exp-⊗ n b, exp-⊗ n c) (triples-add n b c)
]

pub add-⊗ : (a b c : Gf256) → (a ⊕ b) ⊗ c ≡ a ⊗ c ⊕ b ⊗ c
add-⊗ a b c = rw (⊗_comm (a ⊕ b) c, ⊗_comm a c, ⊗_comm b c) (⊗-add c a b)

-- Division undoes multiplication, and fails at zero alone.
pub div-zero : (a : Gf256) → div a zero ≡ err invalid_input
unfolding div ℕ_discrete
div-zero a = refl

quotient_pos : (a b : Gf256) (p : a.val ≢ 0) (q : b.val ≢ 0) → exp (255 + log a p - log b q) ⊗ b ≡ a
quotient_pos a b p q =
    exp (255 + log a p - log b q) ⊗ b
    ≡⟨ ap (◌⊗◌ (exp (255 + log a p - log b q))) (sym (exp-log b q)) ⟩
      exp (255 + log a p - log b q) ⊗ exp (log b q)
    ≡⟨ exp-⊗-exp _ _ ⟩ exp (255 + log a p - log b q + log b q)
    ≡⟨ exp_congr _ _ (omega (arith, log_lt b q)) ⟩ exp (log a p)
    ≡⟨ exp-log a p ⟩ a ∎

pub div-ok : (a b : Gf256) → b ≢ zero → (c : Gf256) × (div a b ≡ ok c) × (c ⊗ b ≡ a)
unfolding div
div-ok a b h = elim (ℕ_discrete a.val 0) [
  | yes e ↦ (
    zero,
    rw (dif_neg _ (val-ne-zero h)) (rw (dif_pos _ (ℕ_set _ _) e) refl),
    zero-⊗ b ∙ sym (U8_ext e),
  )
  | no p ↦ (
    exp (255 + log a p - log b (val-ne-zero h)),
    rw (dif_neg _ (val-ne-zero h)) (rw (dif_neg _ p) refl),
    quotient_pos a b p (val-ne-zero h),
  )
]
