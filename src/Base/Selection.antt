-- ===== src/Base/Selection.antt =====
-- Positions of the elements that a test selects, and what holds of the selected elements.
use Prim.Native.Nat.{ℕ, zero, suc, ◌+◌}
use mathlib.Core.Path.{◌≡◌, refl, ap, ◌∙◌}
use mathlib.Core.Logic.{◌≢◌, inl, inr}
use mathlib.Core.Bool.{Bool, true, false}
use mathlib.Core.Option.{Option, none, some}
use mathlib.Core.List.{List, [], ◌∷◌, map}
use native.Mathlib.Omega.{arith}
use seal.Base.Tests.{Bool-cases}
use seal.Base.Lists.{length, get_elem?, All, All₂, range, Elem, Distinct, filter, enumerate}
use seal.Base.Slices.{zip}
use seal.Base.Fallible.{Outcome, ok, traverse}

pub get_elem?-map_inv :
    {A B : Type 0} (f : A → B) (xs : List A) (j : ℕ) (y : B)
    → get_elem? (map f xs) j ≡ some y
    → (x : A) × (get_elem? xs j ≡ some x) × (f x ≡ y)
get_elem?-map_inv f [] j y e = cc
get_elem?-map_inv f (x ∷ xs) zero y e = (x, refl, some-injective (f x) y e)
  where
    some-injective : {C : Type 0} (a c : C) → some a ≡ some c → a ≡ c
    some-injective {C} a c h = ap from h
      where
        from : Option C → C
        from none = a
        from (some d) = d
get_elem?-map_inv f (x ∷ xs) (suc j) y e = get_elem?-map_inv f xs j y e

pub Elem-get_elem? :
    {A : Type 0} (xs : List A) (j : ℕ) (x : A) → get_elem? xs j ≡ some x → Elem x xs
Elem-get_elem? [] j x e = cc
Elem-get_elem? (y ∷ xs) zero x e = inl (ground arith)
Elem-get_elem? (y ∷ xs) (suc j) x e = inr (Elem-get_elem? xs j x e)

pub zip-Elem :
    {A B : Type 0} (xs : List A) (ys : List B) (a : A) (b : B)
    → Elem (a, b) (zip xs ys)
    → Elem a xs × Elem b ys
zip-Elem [] ys a b m = absurd m
zip-Elem (x ∷ xs) [] a b m = absurd m
zip-Elem {A} {B} (x ∷ xs) (y ∷ ys) a b (inl e) =
    (inl (ap (λ (p : A × B). p.0) e), inl (ap (λ (p : A × B). p.1) e))
zip-Elem (x ∷ xs) (y ∷ ys) a b (inr m) = let (p, q) = zip-Elem xs ys a b m in (inr p, inr q)

-- What `filter` keeps, with the positions.
abbrev pub positions {ℓ} : {A : Type ℓ} → (A → Bool) → ℕ → List A → List ℕ
positions {A} t s xs = map (λ (p : ℕ × A). p.0) (filter (λ (p : ℕ × A). t p.1) (enumerate s xs))

module _ {A : Type 0} (t : A → Bool) where
  pub traverse-positions :
      {B : Type 0} (g : ℕ → Outcome B) (h : A → B) (xs : List A) (s : ℕ)
      → ((j : ℕ) (x : A) → get_elem? xs j ≡ some x → t x ≡ true → g (s + j) ≡ ok (h x))
      → traverse g (positions t s xs) ≡ ok (map h (filter t xs))
  unfolding traverse
  traverse-positions g h [] s each = refl
  traverse-positions g h (x ∷ xs) s each =
      let rest =
        traverse-positions g h xs (suc s)
          (λ j y e k. ap g {x = suc s + j} {y = s + suc j} (omega arith) ∙ each (suc j) y e k) in
      elim (Bool-cases (t x)) [
        | inl p ↦ rw p (rw (ap g {x = s} {y = s + 0} (omega arith) ∙ each 0 x refl p, rest) refl)
        | inr p ↦ rw p rest
      ]

  pub length-positions : (s : ℕ) (xs : List A) → length (positions t s xs) ≡ length (filter t xs)
  length-positions s [] = refl
  length-positions s (x ∷ xs) = elim (Bool-cases (t x)) [
    | inl p ↦ rw p (ap suc (length-positions (suc s) xs))
    | inr p ↦ rw p (length-positions (suc s) xs)
  ]

  pub All-filter {κ} : (P : A → Type κ) (xs : List A) → All P xs → All P (filter t xs)
  All-filter P [] h = tt
  All-filter P (x ∷ xs) h = elim (Bool-cases (t x)) [
    | inl p ↦ rw p (h.0, All-filter P xs h.1)
    | inr p ↦ rw p (All-filter P xs h.1)
  ]

  pub Distinct-filter {κ} :
      {K : Type κ} (key : A → K) (xs : List A) → Distinct key xs → Distinct key (filter t xs)
  Distinct-filter key [] d = tt
  Distinct-filter key (x ∷ xs) d = elim (Bool-cases (t x)) [
    | inl p ↦ rw p (All-filter (λ y. key y ≢ key x) xs d.0, Distinct-filter key xs d.1)
    | inr p ↦ rw p (Distinct-filter key xs d.1)
  ]

pub All-zip_second {κ} :
    {A B : Type 0} (P : B → Type κ) (xs : List A) (ys : List B)
    → All P ys
    → All (λ (p : A × B). P p.1) (zip xs ys)
All-zip_second P [] ys h = tt
All-zip_second P (x ∷ xs) [] h = tt
All-zip_second P (x ∷ xs) (y ∷ ys) h = (h.0, All-zip_second P xs ys h.1)

pub Distinct-zip_second :
    {A B : Type 0} (xs : List A) (ys : List B)
    → Distinct (λ (y : B). y) ys
    → Distinct (λ (p : A × B). p.1) (zip xs ys)
Distinct-zip_second [] ys d = tt
Distinct-zip_second (x ∷ xs) [] d = tt
Distinct-zip_second (x ∷ xs) (y ∷ ys) d =
    (All-zip_second (λ z. z ≢ y) xs ys d.0, Distinct-zip_second xs ys d.1)

pub length-filter-map :
    {A B : Type 0} (t : B → Bool) (f : A → B) (xs : List A)
    → length (filter t (map f xs)) ≡ length (filter (λ x. t (f x)) xs)
length-filter-map t f [] = refl
length-filter-map t f (x ∷ xs) = elim (Bool-cases (t (f x))) [
  | inl p ↦ rw p (ap suc (length-filter-map t f xs))
  | inr p ↦ rw p (length-filter-map t f xs)
]

pub length-filter-zip :
    {A B : Type 0} (t : A → Bool) (xs : List A) (ys : List B)
    → length xs ≡ length ys
    → length (filter (λ (p : A × B). t p.0) (zip xs ys)) ≡ length (filter t xs)
length-filter-zip t [] ys h = refl
length-filter-zip t (x ∷ xs) [] h = absurd (omega (arith, h))
length-filter-zip t (x ∷ xs) (y ∷ ys) h =
    let rest = length-filter-zip t xs ys (omega (arith, h)) in
    elim (Bool-cases (t x)) [ inl p ↦ rw p (ap suc rest) | inr p ↦ rw p rest ]

-- A traversal of the positions of a list, whose calls return what is related to the elements.
pub traverse-range_related :
    {A B : Type 0} (R : A → B → Type 0) (g : ℕ → Outcome B) (xs : List A) (s : ℕ)
    → ((j : ℕ) (x : A) → get_elem? xs j ≡ some x → (y : B) × (g (s + j) ≡ ok y) × R x y)
    → (ys : List B) × (traverse g (range s (length xs)) ≡ ok ys) × All₂ R xs ys
unfolding traverse
traverse-range_related R g [] s each = ([], refl, tt)
traverse-range_related R g (x ∷ xs) s each =
    let (y, e, r) = each 0 x refl in
    let (ys, es, rs) = traverse-range_related R g xs (suc s) (λ j z at.
      let (w, e', r') = each (suc j) z at in
      (w, ap g {x = suc s + j} {y = s + suc j} (omega arith) ∙ e', r')) in
    (y ∷ ys, rw (ap g {x = s} {y = s + 0} (omega arith) ∙ e, es) refl, (r, rs))

pub zip-map_both :
    {A B C : Type 0} (f : A → B) (g : A → C) (xs : List A)
    → zip (map f xs) (map g xs) ≡ map (λ x. (f x, g x)) xs
zip-map_both f g [] = refl
zip-map_both f g (x ∷ xs) = ap (◌∷◌ (f x, g x)) (zip-map_both f g xs)

pub traverse-of_map :
    {A B C : Type 0} (f : B → Outcome C) (k : A → B) (xs : List A)
    → traverse f (map k xs) ≡ traverse (λ x. f (k x)) xs
unfolding traverse
traverse-of_map f k [] = refl
traverse-of_map f k (x ∷ xs) = rw (traverse-of_map f k xs) refl

pub length-filter_none :
    {A : Type 0} (t : A → Bool) (xs : List A) → ((a : A) → t a ≡ false) → length (filter t xs) ≡ 0
length-filter_none t [] never = refl
length-filter_none t (x ∷ xs) never = rw (never x) (length-filter_none t xs never)

pub length-filter_agree :
    {A : Type 0} (t s : A → Bool) (xs : List A)
    → All (λ a. t a ≡ s a) xs
    → length (filter t xs) ≡ length (filter s xs)
length-filter_agree t s [] same = refl
length-filter_agree t s (x ∷ xs) same = elim (Bool-cases (s x)) [
  | inl p ↦ rw (same.0, p) (ap suc (length-filter_agree t s xs same.1))
  | inr p ↦ rw (same.0, p) (length-filter_agree t s xs same.1)
]
