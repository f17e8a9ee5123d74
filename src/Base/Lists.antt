-- ===== src/Base/Lists.antt =====
-- Lists measured and indexed by native numbers, under the library's names.
use Prim.Native.Nat.{ℕ, zero, suc, ◌+◌, ◌≤◌, ◌<◌}
use mathlib.Core.Path.{◌≡◌, refl, sym, ap, ◌∙◌}
use mathlib.Core.Logic.{◌≢◌, ◌⊎◌, inl, inr}
use mathlib.Core.List.{List, [], ◌∷◌, ◌++◌, map}
use mathlib.Core.Bool.{Bool, true, false}
use mathlib.Core.Option.{Option, none, some}
use native.Mathlib.Omega.{arith}
use seal.Base.Tests.{if◌then◌else◌, Bool-cases}

module _ {ℓ} {A : Type ℓ} where
  abbrev pub length : List A → ℕ
  length [] = 0
  length (x ∷ xs) = suc (length xs)

  abbrev pub get_elem? : List A → ℕ → Option A
  get_elem? [] i = none
  get_elem? (x ∷ xs) zero = some x
  get_elem? (x ∷ xs) (suc i) = get_elem? xs i

  abbrev pub get_or : List A → ℕ → A → A
  get_or [] i d = d
  get_or (x ∷ xs) zero d = x
  get_or (x ∷ xs) (suc i) d = get_or xs i d

  pub length-append : (xs ys : List A) → length (xs ++ ys) ≡ length xs + length ys
  length-append [] ys = omega arith
  length-append (x ∷ xs) ys = omega (arith, length-append xs ys)

module _ {ℓ κ} {A : Type ℓ} {B : Type κ} where
  pub length-map : (f : A → B) (xs : List A) → length (map f xs) ≡ length xs
  length-map f [] = refl
  length-map f (x ∷ xs) = ap suc (length-map f xs)

  pub map_congr : (f g : A → B) → ((a : A) → f a ≡ g a) → (xs : List A) → map f xs ≡ map g xs
  map_congr f g h [] = refl
  map_congr f g h (x ∷ xs) = rw (h x, map_congr f g h xs)

-- A predicate at every element; it computes to a tuple.
abbrev pub All {ℓ κ} : {A : Type ℓ} → (A → Type κ) → List A → Type κ
All P [] = Unit
All P (x ∷ xs) = P x × All P xs

-- Membership that keeps the place.
abbrev pub Elem : {A : Type 0} → A → List A → Type 0
Elem a [] = ⊥
Elem a (x ∷ xs) = (a ≡ x) ⊎ Elem a xs

module _ {κ} {A : Type 0} (P : A → Type κ) where
  pub All-of : (xs : List A) → ((a : A) → Elem a xs → P a) → All P xs
  All-of [] h = tt
  All-of (x ∷ xs) h = (h x (inl refl), All-of xs (λ a m. h a (inr m)))

  pub All-get : (xs : List A) (a : A) → All P xs → Elem a xs → P a
  All-get [] a h m = absurd m
  All-get (x ∷ xs) a h (inl e) = rw e h.0
  All-get (x ∷ xs) a h (inr m) = All-get xs a h.1 m

module _ {ℓ κ μ} {A : Type ℓ} {P : A → Type κ} {Q : A → Type μ} where
  pub All-map : ((a : A) → P a → Q a) → (xs : List A) → All P xs → All Q xs
  All-map f [] h = tt
  All-map f (x ∷ xs) h = (f x h.0, All-map f xs h.1)

  pub All-map₂ {ν} :
      {R : A → Type ν}
      → ((a : A) → P a → Q a → R a)
      → (xs : List A) → All P xs
      → All Q xs
      → All R xs
  All-map₂ f [] h k = tt
  All-map₂ f (x ∷ xs) h k = (f x h.0 k.0, All-map₂ f xs h.1 k.1)

-- No two elements have one key.
abbrev pub Distinct {ℓ κ} : {A : Type ℓ} {K : Type κ} → (A → K) → List A → Type κ
Distinct key [] = Unit
Distinct key (x ∷ xs) = All (λ y. key y ≢ key x) xs × Distinct key xs

-- `n` numbers from `s` on.
abbrev pub range : ℕ → ℕ → List ℕ
range s zero = []
range s (suc n) = s ∷ range (suc s) n

abbrev pub filter {ℓ} : {A : Type ℓ} → (A → Bool) → List A → List A
filter t [] = []
filter t (x ∷ xs) = if t x then x ∷ filter t xs else filter t xs

-- `iter().enumerate()`, counting from `s`.
abbrev pub enumerate {ℓ} : {A : Type ℓ} → ℕ → List A → List (ℕ × A)
enumerate s [] = []
enumerate s (x ∷ xs) = (s, x) ∷ enumerate (suc s) xs

module _ {A : Type 0} (t : A → Bool) where
  pub Elem-filter : (xs : List A) (a : A) → t a ≡ true → Elem a xs → Elem a (filter t xs)
  Elem-filter [] a h m = absurd m
  Elem-filter (x ∷ xs) a h (inl e) = rw (← e, h) (inl refl)
  Elem-filter (x ∷ xs) a h (inr m) = elim (Bool-cases (t x)) [
    | inl p ↦ rw p (inr (Elem-filter xs a h m))
    | inr p ↦ rw p (Elem-filter xs a h m)
  ]

  pub filter-Elem : (xs : List A) (a : A) → Elem a (filter t xs) → Elem a xs × (t a ≡ true)
  filter-Elem [] a m = absurd m
  filter-Elem (x ∷ xs) a m = elim (Bool-cases (t x)) [
    | inl p ↦
        let m' : (a ≡ x) ⊎ Elem a (filter t xs) = rw p at m in
        elim m' [
          | inl e ↦ (inl e, rw e p)
          | inr n ↦ let rest = filter-Elem xs a n in (inr rest.0, rest.1)
        ]
    | inr p ↦ let rest = filter-Elem xs a (rw p at m) in (inr rest.0, rest.1)
  ]

  pub length-filter-le : (xs : List A) → length (filter t xs) ≤ length xs
  length-filter-le [] = omega arith
  length-filter-le (x ∷ xs) = ground (arith, length-filter-le xs)

  -- A filter that drops an element is shorter.
  pub length-filter-lt :
      (xs : List A) (a : A) → t a ≡ false → Elem a xs → length (filter t xs) < length xs
  length-filter-lt [] a h m = absurd m
  length-filter-lt (x ∷ xs) a h (inl e) = rw (← e, h) (omega (arith, length-filter-le xs))
  length-filter-lt (x ∷ xs) a h (inr m) = ground (arith, length-filter-lt xs a h m)

-- A key that is nowhere twice finds its element.
pub Distinct_injective {κ} :
    {A : Type 0} {K : Type κ} (key : A → K) (xs : List A) (a b : A)
    → Distinct key xs
    → Elem a xs
    → Elem b xs
    → key a ≡ key b
    → a ≡ b
Distinct_injective key [] a b d m n e = absurd m
Distinct_injective key (x ∷ xs) a b d (inl p) (inl q) e = p ∙ sym q
Distinct_injective key (x ∷ xs) a b d (inl p) (inr n) e =
    absurd (All-get (λ y. key y ≢ key x) xs b d.0 n (sym e ∙ ap key p))
Distinct_injective key (x ∷ xs) a b d (inr m) (inl q) e =
    absurd (All-get (λ y. key y ≢ key x) xs a d.0 m (e ∙ ap key q))
Distinct_injective key (x ∷ xs) a b d (inr m) (inr n) e = Distinct_injective key xs a b d.1 m n e

-- Two lists of one length, related place by place.
abbrev pub All₂ {ℓ κ} : {A : Type ℓ} {B : Type κ} → (A → B → Type 0) → List A → List B → Type 0
All₂ R [] [] = Unit {0}
All₂ R [] (y ∷ ys) = ⊥
All₂ R (x ∷ xs) [] = ⊥
All₂ R (x ∷ xs) (y ∷ ys) = R x y × All₂ R xs ys

pub Elem-map : {A B : Type 0} (f : A → B) (xs : List A) (a : A) → Elem a xs → Elem (f a) (map f xs)
Elem-map f [] a m = absurd m
Elem-map f (x ∷ xs) a (inl e) = inl (ap f e)
Elem-map f (x ∷ xs) a (inr m) = inr (Elem-map f xs a m)

pub Distinct-map_injective {κ μ} :
    {A B : Type 0} {K : Type κ} {L : Type μ} (f : A → B) (key : B → K) (key' : A → L) (xs : List A)
    → ((a b : A) → key (f a) ≡ key (f b) → key' a ≡ key' b)
    → Distinct key' xs
    → Distinct key (map f xs)
Distinct-map_injective f key key' [] inj d = tt
Distinct-map_injective {A} f key key' (x ∷ xs) inj d =
    (apart xs d.0, Distinct-map_injective f key key' xs inj d.1)
  where
    apart : (ys : List A) → All (λ y. key' y ≢ key' x) ys → All (λ y. key y ≢ key (f x)) (map f ys)
    apart [] h = tt
    apart (y ∷ ys) h = ((λ e. h.0 (inj y x e)), apart ys h.1)

pub append_assoc {ℓ} : {A : Type ℓ} (xs ys zs : List A) → (xs ++ ys) ++ zs ≡ xs ++ (ys ++ zs)
append_assoc [] ys zs = refl
append_assoc (x ∷ xs) ys zs = ap (◌∷◌ x) (append_assoc xs ys zs)

pub append_empty {ℓ} : {A : Type ℓ} (xs : List A) → xs ++ [] ≡ xs
append_empty [] = refl
append_empty (x ∷ xs) = ap (◌∷◌ x) (append_empty xs)
