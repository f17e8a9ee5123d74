-- ===== src/Utils/Transpose.antt =====
-- `transpose` of a table: rows by `a`, columns by `b`.
use seal.Base.{
  ℕ, suc, ◌+◌, ◌<◌, List, [], ◌∷◌, map, length, length-map, get_elem?, All-of, U8, some, ==_iff,
  ◌≡◌, refl, sym, ap, ◌∙◌, arith, Outcome, ok, traverse, traverse-range, traverse-map,
}
use seal.Utils.{index, all_equal_length, transpose}

get_elem?-map :
    {A B : Type 0} (f : A → B) (xs : List A) (j : ℕ) (x : A)
    → get_elem? xs j ≡ some x
    → get_elem? (map f xs) j ≡ some (f x)
get_elem?-map f [] j x e = cc
get_elem?-map f (y ∷ xs) ℕ.zero x e = ground arith
get_elem?-map f (y ∷ xs) (suc j) x e = get_elem?-map f xs j x e

pub index-map :
    {A B : Type 0} (f : A → B) (xs : List A) (j : ℕ) (x : A)
    → get_elem? xs j ≡ some x
    → index (map f xs) j ≡ ok (f x)
unfolding index
index-map f xs j x e = rw (get_elem?-map f xs j x e, index)

traverse-of_map :
    {A B C : Type 0} (f : B → Outcome C) (k : A → B) (xs : List A)
    → traverse f (map k xs) ≡ traverse (λ x. f (k x)) xs
unfolding traverse
traverse-of_map f k [] = refl
traverse-of_map f k (x ∷ xs) = rw (traverse-of_map f k xs)

module _ {A B : Type 0} (g : A → B → U8) (columns : List B) where
  abbrev rows_of : List A → List (List U8)
  rows_of rows = map (λ a. map (g a) columns) rows

  all_equal_length-table :
      (a : A) (rows : List A) → all_equal_length (rows_of (a ∷ rows)) ≡ ok (length columns)
  unfolding all_equal_length
  all_equal_length-table a [] = ap ok (length-map (g a) columns)
  all_equal_length-table a (b ∷ rows) =
      rw
        ((==_iff (length (map (g a) columns)) (length (map (g b) columns))).1
          (length-map (g a) columns ∙ sym (length-map (g b) columns)))
        (all_equal_length-table b rows)

  column :
      (rows : List A) (j : ℕ) (b : B)
      → get_elem? columns j ≡ some b
      → traverse (λ row. index row j) (rows_of rows) ≡ ok (map (λ a. g a b) rows)
  column rows j b e =
      traverse-of_map (λ row. index row j) (λ a. map (g a) columns) rows
      ∙ traverse-map _ (λ a. g a b) rows (All-of _ rows (λ a m. index-map (g a) columns j b e))

  -- The rows of a table, transposed, are its columns.
  pub transpose-table :
      (n : ℕ) (rows : List A)
      → length rows ≡ n
      → 0 < n
      → transpose n (rows_of rows) ≡ ok (map (λ b. map (λ a. g a b) rows) columns)
  unfolding transpose
  transpose-table n [] e pos = absurd (omega arith)
  transpose-table n (a ∷ rows) e pos =
      rw
        (
          (==_iff (length (rows_of (a ∷ rows))) n).1
              (length-map (λ r. map (g r) columns) (a ∷ rows) ∙ e),
          all_equal_length-table a rows,
        )
        (traverse-range _ (λ b. map (λ r. g r b) (a ∷ rows)) columns 0
          (λ j b e'.
            ap (λ (i : ℕ). traverse (λ row. index row i) (rows_of (a ∷ rows))) {x = 0 + j} {y = j}
              (omega arith)
            ∙ column (a ∷ rows) j b e'))
