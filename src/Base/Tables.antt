-- ===== src/Base/Tables.antt =====
-- Maps from byte strings, as lists of entries: insertion, lookup and what they say of one another.
use Prim.Native.Nat.{suc}
use mathlib.Core.Path.{◌≡◌, refl, ap, ◌∙◌, subst}
use mathlib.Core.Logic.{◌⊎◌, inl, inr}
use mathlib.Core.Bool.{false}
use mathlib.Core.Option.{Option, none, some}
use mathlib.Core.List.{List, [], ◌∷◌}
use seal.Base.Tests.{if◌then◌else◌, Bool-cases}
use seal.Base.Lists.{length}
use seal.Base.Word.{U8, bytes_eq, bytes_eq_iff}

-- `HashMap<Vec<u8>, V>`
abbrev pub Table {ℓ} : Type ℓ → Type ℓ
Table V = List (List U8 × V)

module _ {ℓ} {V : Type ℓ} where
  unfoldable pub get : Table V → List U8 → Option V
  get [] id = none
  get ((key, v) ∷ table) id = if bytes_eq key id then some v else get table id

  -- `map.insert(id, v)`
  unfoldable pub put : Table V → List U8 → V → Table V
  put [] id v = (id, v) ∷ []
  put ((key, w) ∷ table) id v =
      let rest = put table id v in if bytes_eq key id then (key, v) ∷ table else (key, w) ∷ rest

  pub get-put_same : (table : Table V) (id : List U8) (v : V) → get (put table id v) id ≡ some v
  unfolding get put
  get-put_same [] id v = rw ((bytes_eq_iff id id).1 refl) refl
  get-put_same ((key, w) ∷ table) id v = elim (Bool-cases (bytes_eq key id)) [
    | inl p ↦ rw (p, p) refl
    | inr p ↦ rw (p, p) (get-put_same table id v)
  ]

  pub get-put_other :
      (table : Table V) (id other : List U8) (v : V)
      → bytes_eq id other ≡ false
      → get (put table id v) other ≡ get table other
  unfolding get put
  get-put_other [] id other v h = rw h refl
  get-put_other ((key, w) ∷ table) id other v h = elim (Bool-cases (bytes_eq key id)) [
    | inl p ↦
        let same : key ≡ id = (bytes_eq_iff key id).0 p in
        let h' : bytes_eq key other ≡ false = ap (λ k. bytes_eq k other) same ∙ h in rw (p, h') refl
    | inr p ↦ rw p (elim (Bool-cases (bytes_eq key other)) [
      | inl q ↦ rw q refl
      | inr q ↦ rw q (get-put_other table id other v h)
    ])
  ]

  -- A lookup after an insertion finds what was inserted or what was there.
  pub get-put_cases :
      (table : Table V) (id other : List U8) (v : V)
      → ((id ≡ other) × (get (put table id v) other ≡ some v))
        ⊎ ((bytes_eq id other ≡ false) × (get (put table id v) other ≡ get table other))
  get-put_cases table id other v = elim (Bool-cases (bytes_eq id other)) [
    | inl p ↦
        let same = (bytes_eq_iff id other).0 p in
        inl (same, subst (λ k. get (put table id v) k ≡ some v) same (get-put_same table id v))
    | inr p ↦ inr (p, get-put_other table id other v p)
  ]

  -- A new key makes a table longer.
  pub length-put_new :
      (table : Table V) (id : List U8) (v : V)
      → get table id ≡ none
      → length (put table id v) ≡ suc (length table)
  unfolding get put
  length-put_new [] id v h = refl
  length-put_new ((key, w) ∷ table) id v h = elim (Bool-cases (bytes_eq key id)) [
    | inl p ↦ cc (rw p at h)
    | inr p ↦ rw p (ap suc (length-put_new table id v (rw p at h)))
  ]
