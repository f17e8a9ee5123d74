-- ===== src/Base/Sets.antt =====
-- Sets of byte strings, as lists: collecting, equality, and what they say of the members.
use Prim.Native.Nat.{suc, ◌≤◌}
use mathlib.Core.Path.{◌≡◌, refl, sym, ap, ◌∙◌, subst}
use mathlib.Core.Logic.{◌≢◌, ◌↔◌, inl, inr}
use mathlib.Core.Bool.{Bool, true, false, not, ◌&&◌, ◌||◌}
use mathlib.Core.List.{List, [], ◌∷◌}
use native.Mathlib.Omega.{arith}
use seal.Base.Tests.{if◌then◌else◌, Bool-cases, ◌==◌, ==_iff, &&-elim}
use seal.Base.Lists.{All-of, All-get, Elem, Distinct, length, filter, Elem-filter, length-filter-lt}
use seal.Base.Word.{U8, bytes_eq, bytes_eq_iff}

abbrev pub Bytes : Type 0
Bytes = List U8

abbrev pub AreDistinct : List Bytes → Type 0
AreDistinct = Distinct (λ (id : Bytes). id)

-- `set.contains(&id)`
unfoldable pub has : List Bytes → Bytes → Bool
has [] id = false
has (x ∷ set) id = bytes_eq x id || has set id

-- `.collect::<HashSet<_>>()`
unfoldable pub unique : List Bytes → List Bytes
unique [] = []
unique (x ∷ xs) = let rest = unique xs in if has rest x then rest else x ∷ rest

unfoldable pub all_in : List Bytes → List Bytes → Bool
all_in set [] = true
all_in set (x ∷ xs) = has set x && all_in set xs

-- `==` on two sets: as many members, and those of the one are in the other.
unfoldable pub same_set : List Bytes → List Bytes → Bool
same_set xs ys = (length xs == length ys) && all_in ys xs

pub has_iff : (set : List Bytes) (id : Bytes) → (has set id ≡ true) ↔ Elem id set
unfolding has
has_iff [] id = ((λ h. absurd (never h)), λ m. absurd m)
  where
    never : false ≡ true → ⊥
    never h = cc
has_iff (x ∷ set) id = elim (Bool-cases (bytes_eq x id)) [
  | inl p ↦ ((λ h. inl (sym ((bytes_eq_iff x id).0 p))), λ m. rw p refl)
  | inr p ↦ (
    (λ h. inr ((has_iff set id).0 (rw p at h))),
    λ m. elim m [
      | inl e ↦ rw ((bytes_eq_iff x id).1 (sym e)) refl
      | inr n ↦ rw p ((has_iff set id).1 n)
    ],
  )
]

not_has : (set : List Bytes) (id : Bytes) → has set id ≡ false → (x : Bytes) → Elem x set → x ≢ id
not_has set id h x m e = clash (sym h ∙ (has_iff set id).1 (subst (λ y. Elem y set) e m))
  where
    clash : false ≡ true → ⊥
    clash p = cc

pub Elem-unique_iff : (xs : List Bytes) (id : Bytes) → Elem id (unique xs) ↔ Elem id xs
unfolding unique
Elem-unique_iff [] id = ((λ m. m), λ m. m)
Elem-unique_iff (x ∷ xs) id =
    let rest = Elem-unique_iff xs id in
    elim (Bool-cases (has (unique xs) x)) [
      | inl p ↦ rw p (
        (λ m. inr (rest.0 m)),
        λ m. elim m [
          | inl e ↦ subst (λ y. Elem y (unique xs)) (sym e) ((has_iff (unique xs) x).0 p)
          | inr n ↦ rest.1 n
        ],
      )
      | inr p ↦ rw p (
        (λ m. elim m [ inl e ↦ inl e | inr n ↦ inr (rest.0 n) ]),
        λ m. elim m [ inl e ↦ inl e | inr n ↦ inr (rest.1 n) ],
      )
    ]

pub unique-Distinct : (xs : List Bytes) → AreDistinct (unique xs)
unfolding unique
unique-Distinct [] = tt
unique-Distinct (x ∷ xs) = elim (Bool-cases (has (unique xs) x)) [
  | inl p ↦ rw p (unique-Distinct xs)
  | inr p ↦ rw p (All-of _ (unique xs) (not_has (unique xs) x p), unique-Distinct xs)
]

length-unique_le : (xs : List Bytes) → length (unique xs) ≤ length xs
unfolding unique
length-unique_le [] = omega arith
length-unique_le (x ∷ xs) = elim (Bool-cases (has (unique xs) x)) [
  | inl p ↦ rw p (omega (arith, length-unique_le xs))
  | inr p ↦ rw p (omega (arith, length-unique_le xs))
]

-- As many members as entries: the entries differ.
pub length-unique_iff : (xs : List Bytes) → (length (unique xs) ≡ length xs) ↔ AreDistinct xs
unfolding unique
length-unique_iff [] = ((λ h. tt), λ d. refl)
length-unique_iff (x ∷ xs) =
    let rest = length-unique_iff xs in
    elim (Bool-cases (has (unique xs) x)) [
      | inl p ↦ rw p (
        (λ h. absurd (omega (arith, h, length-unique_le xs))),
        λ d. absurd (
            All-get (λ y. y ≢ x) xs x d.0 ((Elem-unique_iff xs x).0 ((has_iff (unique xs) x).0 p))
              refl),
      )
      | inr p ↦ rw p (
        (λ h. (
          All-of _ xs (λ y m. not_has (unique xs) x p y ((Elem-unique_iff xs y).1 m)),
          rest.0 (omega (arith, h)),
        )),
        λ d. ap suc (rest.1 d.1),
      )
    ]

-- A list without repetitions is no longer than one that has its members.
pub length-covered :
    (xs ys : List Bytes)
    → AreDistinct xs
    → ((id : Bytes) → Elem id xs → Elem id ys)
    → length xs ≤ length ys
length-covered [] ys d sub = omega arith
length-covered (x ∷ xs) ys d sub =
    let others = filter (λ y. not (bytes_eq y x)) ys in
    let rest = length-covered xs others d.1 (λ id m.
      Elem-filter (λ y. not (bytes_eq y x)) ys id
        (elim (Bool-cases (bytes_eq id x)) [
          | inl p ↦ absurd (All-get (λ y. y ≢ x) xs id d.0 m ((bytes_eq_iff id x).0 p))
          | inr p ↦ rw p refl
        ])
        (sub id (inr m))) in
    let shorter =
      length-filter-lt (λ y. not (bytes_eq y x)) ys x (rw ((bytes_eq_iff x x).1 refl) refl)
        (sub x (inl refl)) in
    omega (arith, rest, shorter)

-- If it is as long, it has all of them.
pub covered_all :
    (xs ys : List Bytes)
    → AreDistinct xs
    → ((id : Bytes) → Elem id xs → Elem id ys)
    → length xs ≡ length ys
    → (id : Bytes) → Elem id ys
    → Elem id xs
covered_all xs ys d sub same id m = elim (Bool-cases (has xs id)) [
  | inl p ↦ (has_iff xs id).0 p
  | inr p ↦ absurd (
      omega (
        arith,
        same,
        length-covered (id ∷ xs) ys (All-of _ xs (not_has xs id p), d)
            (λ y n. elim n [ inl e ↦ subst (λ z. Elem z ys) (sym e) m | inr k ↦ sub y k ]),
      ))
]

all_in_iff :
    (set xs : List Bytes) → (all_in set xs ≡ true) ↔ ((id : Bytes) → Elem id xs → Elem id set)
unfolding all_in
all_in_iff set [] = ((λ h id m. absurd m), λ h. refl)
all_in_iff set (x ∷ xs) =
    let rest = all_in_iff set xs in
    (
      (λ h id m.
          let (p, q) = &&-elim (has set x) (all_in set xs) h in
          elim m [
            | inl e ↦ subst (λ y. Elem y set) (sym e) ((has_iff set x).0 p)
            | inr n ↦ rest.0 q id n
          ]),
      λ h. rw ((has_iff set x).1 (h x (inl refl)), rest.1 (λ id m. h id (inr m))) refl,
    )

-- Two sets are equal exactly when they have the same members.
pub same_set_iff :
    (xs ys : List Bytes)
    → AreDistinct xs
    → AreDistinct ys
    → (same_set xs ys ≡ true) ↔ ((id : Bytes) → Elem id xs ↔ Elem id ys)
unfolding same_set
same_set_iff xs ys d e = (
  (λ h id.
      let (p, q) = &&-elim (length xs == length ys) (all_in ys xs) h in
      let sub = (all_in_iff ys xs).0 q in
      (sub id, covered_all xs ys d sub ((==_iff (length xs) (length ys)).0 p) id)),
  λ h.
      let one = length-covered xs ys d (λ id. (h id).0) in
      let two = length-covered ys xs e (λ id. (h id).1) in
      rw
        (
          (==_iff (length xs) (length ys)).1 (omega (arith, one, two)),
          (all_in_iff ys xs).1 (λ id. (h id).0),
        )
        refl,
)
