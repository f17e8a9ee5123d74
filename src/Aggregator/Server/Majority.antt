-- ===== src/Aggregator/Server/Majority.antt =====
-- The error that the aggregator returns when too few members answered.
use Prim.Native.String.{String}
use text.Mathlib.Text.{◌==◌}
use text.Mathlib.TextEquality.{eq_iff}
use seal.Base.{
  ℕ, ◌+◌, ◌≤◌, ◌≡◌, ◌↔◌, ◌≢◌, List, [], ◌∷◌, Elem, All, Distinct, Bool-cases, inl, inr, arith, sym,
  if◌then◌else◌, suc, refl, ap, ◌⊎◌, All-get, subst, ◌∙◌, All-of, ◌<◌,
}
use seal.KeyServer.Errors.{ErrorResponse}
use seal.Aggregator.Server.{
  Tally, count_error, count_errors, max_by_count, majority_of, handle_insufficient_responses, leb,
}

-- How many of the errors have this name.
unfoldable pub count : String → List ErrorResponse → ℕ
count name [] = 0
count name (e ∷ errors) = let rest = count name errors in if e.error == name then suc rest else rest

-- The count under a name.
counted : String → Tally → ℕ
counted name [] = 0
counted name ((n, e) ∷ tally) = let rest = counted name tally in if e.error == name then n else rest

abbrev name_of : ℕ × ErrorResponse → String
name_of entry = entry.1.error

-- What the error and the first errors have, the first errors have after it is counted.
count_error-All :
    (P : ErrorResponse → Type 0) (e : ErrorResponse) (tally : Tally)
    → P e
    → All (λ (t : ℕ × ErrorResponse). P t.1) tally
    → All (λ (t : ℕ × ErrorResponse). P t.1) (count_error e tally)
unfolding count_error
count_error-All P e [] p all = (p, tt)
count_error-All P e ((n, f) ∷ tally) p all = elim (Bool-cases (f.error == e.error)) [
  | inl q ↦ rw q (all.0, all.1)
  | inr q ↦ rw q (all.0, count_error-All P e tally p all.1)
]

count_error-Distinct :
    (e : ErrorResponse) (tally : Tally)
    → Distinct name_of tally
    → Distinct name_of (count_error e tally)
unfolding count_error
count_error-Distinct e [] d = (tt, tt)
count_error-Distinct e ((n, f) ∷ tally) d = elim (Bool-cases (f.error == e.error)) [
  | inl q ↦ rw q (d.0, d.1)
  | inr q ↦ rw q (
    count_error-All (λ s. s.error ≢ f.error) e tally
        (λ same. ground (arith, q, (eq_iff f.error e.error).1 (sym same))) d.0,
    count_error-Distinct e tally d.1,
  )
]

counted-count_error :
    (name : String) (e : ErrorResponse) (tally : Tally)
    → counted name (count_error e tally)
      ≡ (if e.error == name then suc (counted name tally) else counted name tally)
unfolding counted count_error
counted-count_error name e [] = refl
counted-count_error name e ((n, f) ∷ tally) = ground (
  arith,
  counted-count_error name e tally,
  eq_iff f.error e.error,
  eq_iff f.error name,
  eq_iff e.error name,
)

count_errors-All :
    (P : ErrorResponse → Type 0) (errors : List ErrorResponse) (tally : Tally)
    → All P errors
    → All (λ (t : ℕ × ErrorResponse). P t.1) tally
    → All (λ (t : ℕ × ErrorResponse). P t.1) (count_errors errors tally)
unfolding count_errors
count_errors-All P [] tally of_errors all = all
count_errors-All P (e ∷ errors) tally of_errors all =
    count_errors-All P errors (count_error e tally) of_errors.1
      (count_error-All P e tally of_errors.0 all)

count_errors-Distinct :
    (errors : List ErrorResponse) (tally : Tally)
    → Distinct name_of tally
    → Distinct name_of (count_errors errors tally)
unfolding count_errors
count_errors-Distinct [] tally d = d
count_errors-Distinct (e ∷ errors) tally d =
    count_errors-Distinct errors (count_error e tally) (count_error-Distinct e tally d)

counted-count_errors :
    (name : String) (errors : List ErrorResponse) (tally : Tally)
    → counted name (count_errors errors tally) ≡ counted name tally + count name errors
unfolding count_errors count
counted-count_errors name [] tally = omega arith
counted-count_errors name (e ∷ errors) tally = ground (
  arith,
  counted-count_errors name errors (count_error e tally),
  counted-count_error name e tally,
)

-- The count of an entry is that under its name.
counted_entry :
    (tally : Tally) (n : ℕ) (e : ErrorResponse)
    → Distinct name_of tally
    → Elem (n, e) tally
    → counted e.error tally ≡ n
unfolding counted
counted_entry [] n e d m = absurd m
counted_entry ((k, f) ∷ tally) n e d (inl same) =
    let same_error : e ≡ f = ap (λ (p : ℕ × ErrorResponse). p.1) same in
    let same_count : n ≡ k = ap (λ (p : ℕ × ErrorResponse). p.0) same in
    rw ((eq_iff f.error e.error).1 (ap (λ (r : ErrorResponse). r.error) (sym same_error)))
      (sym same_count)
counted_entry ((k, f) ∷ tally) n e d (inr m) =
    let apart = All-get (λ (t : ℕ × ErrorResponse). t.1.error ≢ f.error) tally (n, e) d.0 m in
    elim (Bool-cases (f.error == e.error)) [
      | inl q ↦ absurd (apart (sym ((eq_iff f.error e.error).0 q)))
      | inr q ↦ rw q (counted_entry tally n e d.1 m)
    ]

-- A name that has been counted has an entry.
counted_cases :
    (tally : Tally) (name : String)
    → (counted name tally ≡ 0)
      ⊎ ((n : ℕ) × (e : ErrorResponse) × Elem (n, e) tally × (counted name tally ≡ n))
unfolding counted
counted_cases [] name = inl refl
counted_cases ((k, f) ∷ tally) name = elim (Bool-cases (f.error == name)) [
  | inl q ↦ inr (k, f, inl refl, rw q refl)
  | inr q ↦ elim (counted_cases tally name) [
    | inl zero_there ↦ inl (rw q zero_there)
    | inr (n, e, m, same) ↦ inr (n, e, inr m, rw q same)
  ]
]

-- One of the entries, and none has a greater count.
abbrev IsGreatest : Tally → ℕ × ErrorResponse → Type 0
IsGreatest entries result =
    Elem result entries × All (λ (t : ℕ × ErrorResponse). t.0 ≤ result.0) entries

max_by_count-IsGreatest :
    (best : ℕ × ErrorResponse) (tally : Tally)
    → Elem (max_by_count best tally) (best ∷ tally)
      × All (λ (t : ℕ × ErrorResponse). t.0 ≤ (max_by_count best tally).0) (best ∷ tally)
unfolding max_by_count
max_by_count-IsGreatest best [] = (inl refl, (omega arith, tt))
max_by_count-IsGreatest (m, e) ((n, f) ∷ tally) = elim (Bool-cases (leb m n)) [
  | inl q ↦
      let (at, all) = max_by_count-IsGreatest (n, f) tally in
      let chosen : max_by_count (m, e) ((n, f) ∷ tally) ≡ max_by_count (n, f) tally = rw q refl in
      subst (IsGreatest ((m, e) ∷ (n, f) ∷ tally)) (sym chosen)
        (inr at, (ground (arith, q, all.0), all))
  | inr q ↦
      let (at, all) = max_by_count-IsGreatest (m, e) tally in
      let chosen : max_by_count (m, e) ((n, f) ∷ tally) ≡ max_by_count (m, e) tally = rw q refl in
      subst (IsGreatest ((m, e) ∷ (n, f) ∷ tally)) (sym chosen) (
        elim at [ inl here ↦ inl here | inr there ↦ inr (inr there) ],
        (all.0, (ground (arith, q, all.0), all.1)),
      )
]

counted_nothing : (name : String) → counted name [] ≡ 0
unfolding counted
counted_nothing name = refl

count_first : (e : ErrorResponse) (errors : List ErrorResponse) → 0 < count e.error (e ∷ errors)
unfolding count
count_first e errors = rw ((eq_iff e.error e.error).1 refl) (omega arith)

majority_of_greatest :
    (entries : Tally) (e : ErrorResponse) (errors : List ErrorResponse) (name : String)
    → ((t : ℕ × ErrorResponse) → Elem t entries ↔ Elem t (count_errors (e ∷ errors) []))
    → Elem (majority_of entries) (e ∷ errors)
      × (count name (e ∷ errors) ≤ count (majority_of entries).error (e ∷ errors))
unfolding majority_of
majority_of_greatest [] e errors name same =
    let table = count_errors (e ∷ errors) [] in
    elim (counted_cases table e.error) [
      | inl zero_there ↦
          absurd (counted_once (sym zero_there ∙ counted-count_errors e.error (e ∷ errors) []))
      | inr (n, f, m, count_there) ↦ absurd ((same (n, f)).1 m)
    ]
  where
    counted_once : 0 ≡ counted e.error [] + count e.error (e ∷ errors) → ⊥
    counted_once h = omega (arith, h, counted_nothing e.error, count_first e errors)
majority_of_greatest (entry ∷ entries) e errors name same =
    let all_errors = e ∷ errors in
    let table = count_errors all_errors [] in
    let best = max_by_count entry entries in
    let (at, greatest) = max_by_count-IsGreatest entry entries in
    let in_table = (same best).0 at in
    let total : (s : String) → counted s table ≡ count s all_errors =
      λ s. omega (arith, counted-count_errors s all_errors [], counted_nothing s) in
    let best_count : counted best.1.error table ≡ best.0 =
      counted_entry table best.0 best.1 (count_errors-Distinct all_errors [] tt) in_table in
    (
      All-get (λ (t : ℕ × ErrorResponse). Elem t.1 all_errors) table best
          (count_errors-All (λ f. Elem f all_errors) all_errors [] (All-of _ all_errors (λ f m. m))
            tt)
          in_table,
      elim (counted_cases table name) [
        | inl zero_there ↦ omega (arith, total name, zero_there)
        | inr (n, f, m, count_there) ↦ omega (
          arith,
          total name,
          total best.1.error,
          best_count,
          count_there,
          All-get (λ (t : ℕ × ErrorResponse). t.0 ≤ best.0) (entry ∷ entries) (n, f) greatest
              ((same (n, f)).1 m),
        )
      ],
    )

-- With errors from the members, and however the map of the error types is visited, the error that
-- is returned is one of them, and no other error type was given more often.
pub handle_insufficient_responses_majority :
    (visit : Tally → Tally) (e : ErrorResponse) (errors : List ErrorResponse) (name : String)
    → ((tally : Tally) (t : ℕ × ErrorResponse) → Elem t (visit tally) ↔ Elem t tally)
    → Elem (handle_insufficient_responses visit (e ∷ errors)) (e ∷ errors)
      × (count name (e ∷ errors)
          ≤ count (handle_insufficient_responses visit (e ∷ errors)).error (e ∷ errors))
unfolding handle_insufficient_responses
handle_insufficient_responses_majority visit e errors name same =
    majority_of_greatest (visit (count_errors (e ∷ errors) [])) e errors name
      (same (count_errors (e ∷ errors) []))
