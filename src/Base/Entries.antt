-- ===== src/Base/Entries.antt =====
-- The entries of a map: their keys differ, and each is what a lookup finds.
use mathlib.Core.Path.{◌≡◌, sym, ap, ◌∙◌}
use mathlib.Core.Logic.{◌≢◌, inl, inr}
use mathlib.Core.Bool.{true, false}
use mathlib.Core.Option.{some}
use mathlib.Core.List.{List, [], ◌∷◌}
use seal.Base.Tests.{Bool-cases}
use seal.Base.Lists.{All, All-get, Elem, Distinct}
use seal.Base.Word.{U8, bytes_eq, bytes_eq_iff}
use seal.Base.Tables.{Table, get, put}

module _ {V : Type 0} where
  -- No key has two entries.
  abbrev pub HasKeysOnce : Table V → Type 0
  HasKeysOnce = Distinct (λ (e : List U8 × V). e.0)

  -- A predicate of all the keys is kept by the insertion of a key that has it.
  pub put-All :
      (P : List U8 → Type 0) (table : Table V) (id : List U8) (v : V)
      → P id
      → All (λ (e : List U8 × V). P e.0) table
      → All (λ (e : List U8 × V). P e.0) (put table id v)
  unfolding put
  put-All P [] id v p all = (p, tt)
  put-All P ((key, w) ∷ table) id v p all = elim (Bool-cases (bytes_eq key id)) [
    | inl q ↦ rw q (all.0, all.1)
    | inr q ↦ rw q (all.0, put-All P table id v p all.1)
  ]

  pub put-HasKeysOnce :
      (table : Table V) (id : List U8) (v : V) → HasKeysOnce table → HasKeysOnce (put table id v)
  unfolding put
  put-HasKeysOnce [] id v once = (tt, tt)
  put-HasKeysOnce ((key, w) ∷ table) id v once = elim (Bool-cases (bytes_eq key id)) [
    | inl q ↦ rw q (once.0, once.1)
    | inr q ↦ rw q (
      put-All (λ k. k ≢ key) table id v (λ e. clash (sym q ∙ (bytes_eq_iff key id).1 (sym e)))
          once.0,
      put-HasKeysOnce table id v once.1,
    )
  ]
    where
      clash : false ≡ true → ⊥
      clash p = cc

  -- A lookup finds the entry.
  pub get-Elem :
      (table : Table V) (id : List U8) (v : V)
      → HasKeysOnce table
      → Elem (id, v) table
      → get table id ≡ some v
  unfolding get
  get-Elem [] id v once m = absurd m
  get-Elem ((key, w) ∷ table) id v once (inl e) =
      let same_key : id ≡ key = ap (λ (p : List U8 × V). p.0) e in
      let same : v ≡ w = ap (λ (p : List U8 × V). p.1) e in
      rw ((bytes_eq_iff key id).1 (sym same_key)) (ap (λ x. some x) (sym same))
  get-Elem ((key, w) ∷ table) id v once (inr m) = elim (Bool-cases (bytes_eq key id)) [
    | inl q ↦ absurd (
        All-get (λ (e : List U8 × V). e.0 ≢ key) table (id, v) once.0 m
          (sym ((bytes_eq_iff key id).0 q)))
    | inr q ↦ rw q (get-Elem table id v once.1 m)
  ]

  -- What a lookup finds is an entry.
  pub Elem-get :
      (table : Table V) (id : List U8) (v : V) → get table id ≡ some v → Elem (id, v) table
  unfolding get
  Elem-get [] id v h = cc
  Elem-get ((key, w) ∷ table) id v h = elim (Bool-cases (bytes_eq key id)) [
    | inl q ↦
        let same_key : id ≡ key = sym ((bytes_eq_iff key id).0 q) in
        let same : some w ≡ some v = rw q at h in inl (cc (same_key, same))
    | inr q ↦ inr (Elem-get table id v (rw q at h))
  ]
