-- ===== src/Tss/Checks.antt =====
-- What the checks on the indices of a set of shares say.
use seal.Base.{
  List, [], ◌∷◌, map, All, Distinct, U8, ◌=8◌, =8_iff, true, false, ◌≡◌, ◌≢◌, ◌↔◌, refl, sym, ◌∙◌,
  inl, inr, Bool-cases,
}
use seal.Tss.{contains, all_unique}

contains-false : (x : U8) (ys : List U8) → contains x ys ≡ false → All (λ y. y ≢ x) ys
unfolding contains
contains-false x [] h = tt
contains-false x (y ∷ ys) h = elim (Bool-cases (y =8 x)) [
  | inl e ↦ cc (rw e at h)
  | inr e ↦ ((λ p. cc (sym e ∙ (=8_iff y x).1 p)), contains-false x ys (rw e at h))
]

absent-contains : (x : U8) (ys : List U8) → All (λ y. y ≢ x) ys → contains x ys ≡ false
unfolding contains
absent-contains x [] h = refl
absent-contains x (y ∷ ys) h = elim (Bool-cases (y =8 x)) [
  | inl e ↦ absurd (h.0 ((=8_iff y x).0 e))
  | inr e ↦ rw e (absent-contains x ys h.1)
]

-- `contains` finds an element exactly when it is there.
pub contains-false_iff : (x : U8) (ys : List U8) → (contains x ys ≡ false) ↔ All (λ y. y ≢ x) ys
contains-false_iff x ys = (contains-false x ys, absent-contains x ys)

unique-Distinct : (xs : List U8) → all_unique xs ≡ true → Distinct (λ (x : U8). x) xs
unfolding all_unique
unique-Distinct [] h = tt
unique-Distinct (x ∷ xs) h = elim (Bool-cases (contains x xs)) [
  | inl e ↦ cc (rw e at h)
  | inr e ↦ (contains-false x xs e, unique-Distinct xs (rw e at h))
]

Distinct-unique : (xs : List U8) → Distinct (λ (x : U8). x) xs → all_unique xs ≡ true
unfolding all_unique
Distinct-unique [] h = refl
Distinct-unique (x ∷ xs) h = rw (absent-contains x xs h.0) (Distinct-unique xs h.1)

pub all_unique_iff : (xs : List U8) → (all_unique xs ≡ true) ↔ Distinct (λ (x : U8). x) xs
all_unique_iff xs = (unique-Distinct xs, Distinct-unique xs)

module _ {A B : Type 0} (f : A → B) where
  pub All-map_iff {κ} : (P : B → Type κ) (xs : List A) → All P (map f xs) ↔ All (λ a. P (f a)) xs
  All-map_iff P [] = ((λ h. tt), (λ h. tt))
  All-map_iff P (x ∷ xs) =
      let rest = All-map_iff P xs in ((λ h. (h.0, rest.0 h.1)), (λ h. (h.0, rest.1 h.1)))

  pub Distinct-map : (xs : List A) → Distinct f xs → Distinct (λ (b : B). b) (map f xs)
  Distinct-map [] d = tt
  Distinct-map (x ∷ xs) d = ((All-map_iff (λ b. b ≢ f x) xs).1 d.0, Distinct-map xs d.1)
