-- ===== src/Gf256/Products.antt =====
-- `iter().product()` and cancellation.
use seal.Base.{
  List, [], ◌∷◌, foldl, All, Elem, Distinct, filter, ◌≡◌, ◌≢◌, refl, sym, ap, subst, ◌∙◌, inl, inr,
  not, true, ◌=8◌, =8_iff, Bool-cases, All-get,
}
use seal.Gf256.{Gf256, ◌⊗◌, zero, one, product}
use seal.Gf256.Field.{⊗_assoc, ⊗_comm, one-⊗, ⊗-one, ⊗-zero, div-ok}

product_from : (acc : Gf256) (l : List Gf256) → foldl ◌⊗◌ acc l ≡ acc ⊗ product l
product_from acc [] = sym (⊗-one acc)
product_from acc (a ∷ l) =
    product_from (acc ⊗ a) l
    ∙ ⊗_assoc acc a (product l)
    ∙ ap (◌⊗◌ acc) (sym (product_from (one ⊗ a) l ∙ ap (λ (b : Gf256). b ⊗ product l) (one-⊗ a)))

pub product-cons : (a : Gf256) (l : List Gf256) → product (a ∷ l) ≡ a ⊗ product l
product-cons a l = product_from (one ⊗ a) l ∙ ap (λ (b : Gf256). b ⊗ product l) (one-⊗ a)

-- There are no zero divisors.
pub ⊗-eq-zero : (a b : Gf256) → a ≢ zero → a ⊗ b ≡ zero → b ≡ zero
⊗-eq-zero a b h e =
    let (c, returns, inverse) = div-ok one a h in
    sym (one-⊗ b)
    ∙ ap (λ (u : Gf256). u ⊗ b) (sym inverse)
    ∙ ⊗_assoc c a b
    ∙ ap (◌⊗◌ c) e
    ∙ ⊗-zero c

pub ⊗_cancel : (a b d : Gf256) → d ≢ zero → a ⊗ d ≡ b ⊗ d → a ≡ b
⊗_cancel a b d h e =
    let (c, returns, inverse) = div-ok one d h in
    let undo : (u : Gf256) → u ⊗ d ⊗ c ≡ u =
      λ u. ⊗_assoc u d c ∙ ap (◌⊗◌ u) (⊗_comm d c ∙ inverse) ∙ ⊗-one u in
    sym (undo a) ∙ ap (λ (v : Gf256). v ⊗ c) e ∙ undo b

pub product-ne-zero : (l : List Gf256) → All (λ a. a ≢ zero) l → product l ≢ zero
product-ne-zero [] h e = one_ne_zero e
  where
    one_ne_zero : one ≢ zero
    one_ne_zero z = cc (ap (λ (u : Gf256). u.val) z)
product-ne-zero (a ∷ l) h e =
    product-ne-zero l h.1 (⊗-eq-zero a (product l) h.0 (sym (product-cons a l) ∙ e))

abbrev pub without : Gf256 → List Gf256 → List Gf256
without a = filter (λ j. not (j =8 a))

pub =8_refl : (a : Gf256) → (a =8 a) ≡ true
=8_refl a = (=8_iff a a).1 refl

without-absent : (a : Gf256) (l : List Gf256) → All (λ b. b ≢ a) l → without a l ≡ l
without-absent a [] h = refl
without-absent a (b ∷ l) h = elim (Bool-cases (b =8 a)) [
  | inl e ↦ absurd (h.0 ((=8_iff b a).0 e))
  | inr e ↦ rw e (ap (◌∷◌ b) (without-absent a l h.1))
]

without-head : (a : Gf256) (l : List Gf256) → All (λ b. b ≢ a) l → without a (a ∷ l) ≡ l
without-head a l h = rw (=8_refl a) (without-absent a l h)

-- One element split off.
pub product-without :
    (a : Gf256) (l : List Gf256)
    → Distinct (λ (b : Gf256). b) l
    → Elem a l
    → product l ≡ a ⊗ product (without a l)
product-without a [] d m = absurd m
product-without a (b ∷ l) d (inl e) =
    subst (λ c. product (b ∷ l) ≡ c ⊗ product (without c (b ∷ l))) (sym e)
      (product-cons b l ∙ ap (λ (r : List Gf256). b ⊗ product r) (sym (without-head b l d.0)))
product-without a (b ∷ l) d (inr m) = elim (Bool-cases (b =8 a)) [
  | inl e ↦ absurd (All-get (λ c. c ≢ b) l a d.0 m (sym ((=8_iff b a).0 e)))
  | inr e ↦
      product-cons b l
      ∙ ap (◌⊗◌ b) (product-without a l d.1 m)
      ∙ sym (⊗_assoc b a _)
      ∙ ap (λ (v : Gf256). v ⊗ product (without a l)) (⊗_comm b a)
      ∙ ⊗_assoc a b _
      ∙ rw e (ap (◌⊗◌ a) (sym (product-cons b (without a l))))
]
