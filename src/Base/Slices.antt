-- ===== src/Base/Slices.antt =====
-- Parts of lists and lists side by side: `zip`, `take`, `drop`, `chunks`.
use Prim.Native.Nat.{ℕ, zero, suc, ◌-◌, ◌≤◌, ◌<◌, min}
use mathlib.Core.Path.{◌≡◌, refl, sym, ap, ◌∙◌}
use mathlib.Core.Logic.{◌⊎◌, inl, inr}
use mathlib.Core.List.{List, [], ◌∷◌, ◌++◌, map}
use native.Mathlib.Omega.{arith}
use seal.Base.Lists.{length, Elem, range}

-- `iter().zip(…)`, up to the end of the shorter list.
abbrev pub zip {ℓ κ} : {A : Type ℓ} {B : Type κ} → List A → List B → List (A × B)
zip [] ys = []
zip (x ∷ xs) [] = []
zip (x ∷ xs) (y ∷ ys) = (x, y) ∷ zip xs ys

-- A list beside a map of it.
pub Elem-zip-map :
    {A B : Type 0} (f : A → B) (xs : List A) (a : A) (b : B)
    → Elem (a, b) (zip xs (map f xs))
    → Elem a xs × (b ≡ f a)
Elem-zip-map f [] a b m = absurd m
Elem-zip-map {A} {B} f (x ∷ xs) a b (inl e) =
    let same : a ≡ x = ap (λ (p : A × B). p.0) e in
    (inl same, ap (λ (p : A × B). p.1) e ∙ ap f (sym same))
Elem-zip-map f (x ∷ xs) a b (inr m) = let (n, e) = Elem-zip-map f xs a b m in (inr n, e)

pub length-range : (s n : ℕ) → length (range s n) ≡ n
length-range s zero = refl
length-range s (suc n) = ap suc (length-range (suc s) n)

module _ {ℓ} {A : Type ℓ} where
  abbrev pub take : ℕ → List A → List A
  take zero xs = []
  take (suc n) [] = []
  take (suc n) (x ∷ xs) = x ∷ take n xs

  abbrev pub drop : ℕ → List A → List A
  drop zero xs = xs
  drop (suc n) [] = []
  drop (suc n) (x ∷ xs) = drop n xs

  pub take-append-drop : (n : ℕ) (xs : List A) → take n xs ++ drop n xs ≡ xs
  take-append-drop zero xs = refl
  take-append-drop (suc n) [] = refl
  take-append-drop (suc n) (x ∷ xs) = rw (take-append-drop n xs)

  pub length-take : (n : ℕ) (xs : List A) → length (take n xs) ≡ min n (length xs)
  length-take zero xs = omega arith
  length-take (suc n) [] = omega arith
  length-take (suc n) (x ∷ xs) = omega (arith, length-take n xs)

  pub length-drop : (n : ℕ) (xs : List A) → length (drop n xs) ≡ length xs - n
  length-drop zero xs = omega arith
  length-drop (suc n) [] = omega arith
  length-drop (suc n) (x ∷ xs) = omega (arith, length-drop n xs)

-- `slice.chunks(n)`; `fuel` is at least the number of elements.
abbrev pub chunks_fuel {ℓ} : {A : Type ℓ} → ℕ → ℕ → List A → List (List A)
chunks_fuel zero n xs = []
chunks_fuel (suc fuel) n [] = []
chunks_fuel (suc fuel) n (x ∷ xs) = take n (x ∷ xs) ∷ chunks_fuel fuel n (drop n (x ∷ xs))

abbrev pub chunks {ℓ} : {A : Type ℓ} → ℕ → List A → List (List A)
chunks n xs = chunks_fuel (length xs) n xs

abbrev pub flat_map {ℓ κ} : {A : Type ℓ} {B : Type κ} → (A → List B) → List A → List B
flat_map f [] = []
flat_map f (x ∷ xs) = f x ++ flat_map f xs

-- A first part of `n` elements, or of fewer with nothing after it, is what `take` gives.
pub take-append {ℓ} :
    {A : Type ℓ} (n : ℕ) (a b : List A)
    → length a ≤ n
    → (length a ≡ n) ⊎ (length b ≡ 0)
    → (take n (a ++ b) ≡ a) × (drop n (a ++ b) ≡ b)
take-append zero [] b h k = (refl, refl)
take-append zero (x ∷ a) b h k = absurd (omega (arith, h))
take-append (suc n) [] [] h k = (refl, refl)
take-append (suc n) [] (y ∷ b) h k =
    absurd (elim k [ inl e ↦ omega (arith, e) | inr e ↦ omega (arith, e) ])
take-append (suc n) (x ∷ a) b h k =
    let (p, q) =
      take-append n a b (omega (arith, h))
        (elim k [ inl e ↦ inl (omega (arith, e)) | inr e ↦ inr e ]) in
    (rw p refl, q)

pub chunks_fuel-suc {ℓ} :
    {A : Type ℓ} (fuel n : ℕ) (xs : List A)
    → 0 < length xs
    → chunks_fuel (suc fuel) n xs ≡ take n xs ∷ chunks_fuel fuel n (drop n xs)
chunks_fuel-suc fuel n [] h = absurd (omega (arith, h))
chunks_fuel-suc fuel n (x ∷ xs) h = refl

module _ {A B C : Type 0} where
  pub map-map : (f : B → C) (g : A → B) (xs : List A) → map f (map g xs) ≡ map (λ x. f (g x)) xs
  map-map f g [] = refl
  map-map f g (x ∷ xs) = ap (◌∷◌ (f (g x))) (map-map f g xs)

  pub zip-map :
      (f : A → C) (xs : List A) (ys : List B)
      → zip (map f xs) ys ≡ map (λ p. (f p.0, p.1)) (zip xs ys)
  zip-map f [] ys = refl
  zip-map f (x ∷ xs) [] = refl
  zip-map f (x ∷ xs) (y ∷ ys) = ap (◌∷◌ (f x, y)) (zip-map f xs ys)

  pub map-zip_first :
      (f : A → C) (xs : List A) (ys : List B)
      → length xs ≡ length ys
      → map (λ (p : A × B). f p.0) (zip xs ys) ≡ map f xs
  map-zip_first f [] ys h = refl
  map-zip_first f (x ∷ xs) [] h = absurd (omega (arith, h))
  map-zip_first f (x ∷ xs) (y ∷ ys) h = ap (◌∷◌ (f x)) (map-zip_first f xs ys (omega (arith, h)))

  pub map-zip_second :
      (f : B → C) (xs : List A) (ys : List B)
      → length xs ≡ length ys
      → map (λ (p : A × B). f p.1) (zip xs ys) ≡ map f ys
  map-zip_second f [] [] h = refl
  map-zip_second f [] (y ∷ ys) h = absurd (omega (arith, h))
  map-zip_second f (x ∷ xs) [] h = absurd (omega (arith, h))
  map-zip_second f (x ∷ xs) (y ∷ ys) h = ap (◌∷◌ (f y)) (map-zip_second f xs ys (omega (arith, h)))

pub length-zip :
    {A B : Type 0} (xs : List A) (ys : List B)
    → length xs ≡ length ys
    → length (zip xs ys) ≡ length xs
length-zip [] ys h = refl
length-zip (x ∷ xs) [] h = absurd (omega (arith, h))
length-zip (x ∷ xs) (y ∷ ys) h = ap suc (length-zip xs ys (omega (arith, h)))
