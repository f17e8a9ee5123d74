-- ===== src/Polynomial/Product.antt =====
-- The convolution of `Mul for &Polynomial` computes the product.
use seal.Base.{
  ℕ, zero as nat_zero, suc, ◌+◌, ◌-◌, ◌<◌, ◌≤◌, List, [], ◌∷◌, map, foldl, length, length-map,
  get_or, range, filter, length-range, ◌≡◌, refl, sym, ap, ap₂, ◌∙◌, ◌⊎◌, ◌⊕◌, ⊕_assoc, zero-⊕,
  Bool, false, ◌&&◌, leb, Bool-cases, inl, inr, ok, arith, map_congr,
}
use seal.Gf256
use seal.Gf256.{Gf256, ◌⊗◌, zero}
use seal.Gf256.Field.{zero-⊗, ⊗-zero, ⊗-add, add-⊗, ⊗_assoc, ⊗_comm}
use seal.Polynomial.{Polynomial, degree, add_longest, coefficient, mul}
use seal.Polynomial.Eval.{value, value_ext, value-add_longest, ⊕-zero}

-- The product by recursion on the first factor.
times : Polynomial → Polynomial → Polynomial
times [] q = []
times (a ∷ p) q = add_longest (map (λ b. a ⊗ b) q) (zero ∷ times p q)

value-map_left :
    (a : Gf256) (q : Polynomial) (x : Gf256) → value (map (λ b. a ⊗ b) q) x ≡ a ⊗ value q x
unfolding value
value-map_left a [] x = sym (⊗-zero a)
value-map_left a (b ∷ q) x = rw (
  value-map_left a q x,
  ⊗-add a b (x ⊗ value q x),
  ← ⊗_assoc x a (value q x),
  ⊗_comm x a,
  ⊗_assoc a x (value q x),
)

value-times : (p q : Polynomial) (x : Gf256) → value (times p q) x ≡ value p x ⊗ value q x
unfolding times value
value-times [] q x = sym (zero-⊗ _)
value-times (a ∷ p) q x =
    value-add_longest (map (λ b. a ⊗ b) q) (zero ∷ times p q) x
    ∙ rw (
      value-map_left a q x,
      value-times p q x,
      zero-⊕ (x ⊗ (value p x ⊗ value q x)),
      add-⊗ a (x ⊗ value p x) (value q x),
      ⊗_assoc x (value p x) (value q x),
    )

sum_from : (acc : Gf256) (l : List Gf256) → foldl Gf256.add acc l ≡ acc ⊕ Gf256.sum l
sum_from acc [] = sym (⊕-zero acc)
sum_from acc (a ∷ l) =
    sum_from (acc ⊕ a) l
    ∙ ⊕_assoc acc a (Gf256.sum l)
    ∙ ap (◌⊕◌ acc) (sym (sum_from (zero ⊕ a) l ∙ ap (λ (b : Gf256). b ⊕ Gf256.sum l) (zero-⊕ a)))

pub sum-cons : (a : Gf256) (l : List Gf256) → Gf256.sum (a ∷ l) ≡ a ⊕ Gf256.sum l
sum-cons a l = sum_from (zero ⊕ a) l ∙ ap (λ (b : Gf256). b ⊕ Gf256.sum l) (zero-⊕ a)

sum_zeros : (f : ℕ → Gf256) → ((j : ℕ) → f j ≡ zero) → (l : List ℕ) → Gf256.sum (map f l) ≡ zero
sum_zeros f h [] = refl
sum_zeros f h (j ∷ l) = sum-cons (f j) (map f l) ∙ rw (h j, sum_zeros f h l) (zero-⊕ zero)

-- A filter that drops only zero terms does not change a sum.
sum-filter :
    (f : ℕ → Gf256) (t : ℕ → Bool)
    → ((j : ℕ) → t j ≡ false → f j ≡ zero)
    → (l : List ℕ) → Gf256.sum (map f (filter t l)) ≡ Gf256.sum (map f l)
sum-filter f t h [] = refl
sum-filter f t h (j ∷ l) = elim (Bool-cases (t j)) [
  | inl e ↦ rw e (
      sum-cons (f j) (map f (filter t l))
      ∙ ap (◌⊕◌ (f j)) (sum-filter f t h l)
      ∙ sym (sum-cons (f j) (map f l)))
  | inr e ↦ rw e (sum-filter f t h l ∙ sym (sum-cons (f j) (map f l) ∙ rw (h j e) (zero-⊕ _)))
]

get_or_out : (p : Polynomial) (i : ℕ) → length p ≤ i → get_or p i zero ≡ zero
get_or_out [] i h = refl
get_or_out (a ∷ p) nat_zero h = absurd (omega arith)
get_or_out (a ∷ p) (suc i) h = get_or_out p i (omega arith)

get_or-add_longest :
    (p q : Polynomial) (i : ℕ) → get_or (add_longest p q) i zero ≡ get_or p i zero ⊕ get_or q i zero
unfolding add_longest
get_or-add_longest [] q i = sym (zero-⊕ _)
get_or-add_longest (a ∷ p) [] i = sym (⊕-zero _)
get_or-add_longest (a ∷ p) (b ∷ q) nat_zero = refl
get_or-add_longest (a ∷ p) (b ∷ q) (suc i) = get_or-add_longest p q i

get_or-map_left :
    (a : Gf256) (q : Polynomial) (i : ℕ) → get_or (map (λ b. a ⊗ b) q) i zero ≡ a ⊗ get_or q i zero
get_or-map_left a [] i = sym (⊗-zero a)
get_or-map_left a (b ∷ q) nat_zero = refl
get_or-map_left a (b ∷ q) (suc i) = get_or-map_left a q i

map-range-suc :
    (f : ℕ → Gf256) (s n : ℕ) → map f (range (suc s) n) ≡ map (λ j. f (suc j)) (range s n)
map-range-suc f s nat_zero = refl
map-range-suc f s (suc n) = ap (◌∷◌ (f (suc s))) (map-range-suc f (suc s) n)

-- Coefficient `i`, with no filter.
abbrev conv : Polynomial → Polynomial → ℕ → Gf256
conv p q i = Gf256.sum (map (λ j. get_or p j zero ⊗ get_or q (i - j) zero) (range 0 (suc i)))

conv-cons-zero : (a : Gf256) (p q : Polynomial) → conv (a ∷ p) q 0 ≡ a ⊗ get_or q 0 zero
conv-cons-zero a p q = sum-cons _ [] ∙ ⊕-zero _

conv-cons-suc :
    (a : Gf256) (p q : Polynomial) (i : ℕ)
    → conv (a ∷ p) q (suc i) ≡ a ⊗ get_or q (suc i) zero ⊕ conv p q i
conv-cons-suc a p q i =
    let f : ℕ → Gf256 = λ j. get_or (a ∷ p) j zero ⊗ get_or q (suc i - j) zero in
    let first : suc i - 0 ≡ suc i = omega arith in
    let later : (j : ℕ) → suc i - suc j ≡ i - j = λ j. omega arith in
    sum-cons (f 0) (map f (range 1 (suc i)))
    ∙ ap₂ ◌⊕◌ (ap (λ (k : ℕ). a ⊗ get_or q k zero) first) (
        ap Gf256.sum (
          map-range-suc f 0 (suc i)
          ∙ map_congr _ _ (λ j. ap (λ (k : ℕ). get_or p j zero ⊗ get_or q k zero) (later j))
              (range 0 (suc i))))

get_or-times : (p q : Polynomial) (i : ℕ) → get_or (times p q) i zero ≡ conv p q i
unfolding times
get_or-times [] q i = sym (sum_zeros _ (λ j. zero-⊗ _) (range 0 (suc i)))
get_or-times (a ∷ p) q nat_zero =
    get_or-add_longest (map (λ b. a ⊗ b) q) (zero ∷ times p q) 0
    ∙ ⊕-zero _
    ∙ get_or-map_left a q 0
    ∙ sym (conv-cons-zero a p q)
get_or-times (a ∷ p) q (suc i) =
    get_or-add_longest (map (λ b. a ⊗ b) q) (zero ∷ times p q) (suc i)
    ∙ ap₂ ◌⊕◌ (get_or-map_left a q (suc i)) (get_or-times p q i)
    ∙ sym (conv-cons-suc a p q i)

-- A term that the filter drops, or that lies beyond the last coefficient, is zero.
term_zero :
    (p q : Polynomial) (dp dq i j : ℕ)
    → length p ≡ suc dp
    → length q ≡ suc dq
    → (dp < j) ⊎ (dq < i - j)
    → get_or p j zero ⊗ get_or q (i - j) zero ≡ zero
term_zero p q dp dq i j hp hq (inl h) = rw (get_or_out p j (omega arith)) (zero-⊗ _)
term_zero p q dp dq i j hp hq (inr h) = rw (get_or_out q (i - j) (omega arith)) (⊗-zero _)

leb_split : (dp dq i j : ℕ) → (leb j dp && leb (i - j) dq) ≡ false → (dp < j) ⊎ (dq < i - j)
leb_split dp dq i j h = ground arith

coefficient-eq-conv :
    (p q : Polynomial) (dp dq i : ℕ)
    → length p ≡ suc dp
    → length q ≡ suc dq
    → coefficient p q dp dq i ≡ conv p q i
unfolding coefficient
coefficient-eq-conv p q dp dq i hp hq =
    let next : i + 1 ≡ suc i = omega arith in
    rw next (
      sum-filter _ _ (λ j h. term_zero p q dp dq i j hp hq (leb_split dp dq i j h))
        (range 0 (suc i)))

conv_beyond :
    (p q : Polynomial) (dp dq i : ℕ)
    → length p ≡ suc dp
    → length q ≡ suc dq
    → dp + dq < i
    → conv p q i ≡ zero
conv_beyond p q dp dq i hp hq h =
    sum_zeros _ (λ j. term_zero p q dp dq i j hp hq (omega arith)) (range 0 (suc i))

get_or-map-range :
    (g h : ℕ → Gf256) (s n i : ℕ)
    → ((k : ℕ) → g k ≡ h k)
    → ((k : ℕ) → s + n ≤ k → h k ≡ zero)
    → get_or (map g (range s n)) i zero ≡ h (s + i)
get_or-map-range g h s nat_zero i same beyond = sym (beyond (s + i) (omega arith))
get_or-map-range g h s (suc n) nat_zero same beyond = same s ∙ ap h (omega arith)
get_or-map-range g h s (suc n) (suc i) same beyond =
    get_or-map-range g h (suc s) n i same (λ k le. beyond k (omega arith)) ∙ ap h (omega arith)

-- `*` returns on polynomials that have a coefficient, with the values multiplied.
pub mul-ok :
    (p q : Polynomial)
    → 0 < length p
    → 0 < length q
    → (r : Polynomial) × (mul p q ≡ ok r)
      × ((x : Gf256) → value r x ≡ value p x ⊗ value q x)
      × (length r + 1 ≡ length p + length q)
unfolding mul degree
mul-ok [] q hp hq = absurd (omega arith)
mul-ok (a ∷ p) [] hp hq = absurd (omega arith)
mul-ok (a ∷ p) (b ∷ q) hp hq = (
  map (coefficient (a ∷ p) (b ∷ q) (length p) (length q)) (range 0 (length p + length q + 1)),
  refl,
  λ x.
      value_ext _ (times (a ∷ p) (b ∷ q)) x (λ i.
        get_or-map-range _ (conv (a ∷ p) (b ∷ q)) 0 _ i
          (λ k. coefficient-eq-conv (a ∷ p) (b ∷ q) _ _ k refl refl)
          (λ k le. conv_beyond (a ∷ p) (b ∷ q) _ _ k refl refl (omega arith))
        ∙ ap (conv (a ∷ p) (b ∷ q)) {x = 0 + i} {y = i} (omega arith)
        ∙ sym (get_or-times (a ∷ p) (b ∷ q) i))
      ∙ value-times (a ∷ p) (b ∷ q) x,
  omega (
    arith,
    length-map (coefficient (a ∷ p) (b ∷ q) (length p) (length q))
        (range 0 (length p + length q + 1)),
    length-range 0 (length p + length q + 1),
  ),
)
