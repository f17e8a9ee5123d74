-- ===== src/Aggregator/Server/Collection.antt =====
-- The collection of results stops as soon as the outcome is settled, and does not change it.
use seal.Base.{
  ℕ, ◌+◌, ◌-◌, ◌≡◌, ◌≢◌, List, [], ◌∷◌, ◌++◌, length, take, ok, err, panic, All, ◌≤◌, ◌<◌, arith,
  Bool-cases, ◌∙◌, ap, inl, inr, suc, length-append, append_assoc, refl,
}
use seal.KeyServer.Errors.{ErrorResponse}
use seal.Aggregator.Server.{Relayed, collect, ltb, leb}

module _ {A : Type 0} where
  -- The successes, in the order of completion.
  abbrev pub successes : List (Relayed A) → List A
  successes [] = []
  successes (ok a ∷ results) = a ∷ successes results
  successes (err e ∷ results) = successes results
  successes (panic ∷ results) = successes results

  length-successes_le : (results : List (Relayed A)) → length (successes results) ≤ length results
  length-successes_le [] = omega arith
  length-successes_le (ok a ∷ results) = omega (arith, length-successes_le results)
  length-successes_le (err e ∷ results) = omega (arith, length-successes_le results)
  length-successes_le (panic ∷ results) = omega (arith, length-successes_le results)

  abbrev pub NoPanic : List (Relayed A) → Type 0
  NoPanic = All (λ r. r ≢ panic)

  -- What the loop has when it ends.
  abbrev Settled : ℕ → List A → List A → List A → Type 0
  Settled threshold so_far rest responses =
      ((threshold ≤ length so_far + length rest)
        → responses ≡ so_far ++ take (threshold - length so_far) rest)
      × ((length so_far + length rest < threshold) → length responses < threshold)

  collect-Settled :
      (threshold committee_size : ℕ) (results : List (Relayed A)) (responses : List A)
      (errors : List ErrorResponse) (completed : ℕ)
      → completed + length results ≡ committee_size
      → length responses < threshold
      → NoPanic results
      → (last : List A) × (errors' : List ErrorResponse) × (collect threshold committee_size results
            responses errors completed
          ≡ ok (last, errors'))
        × Settled threshold responses (successes results) last
  unfolding collect
  collect-Settled threshold size [] responses errors completed all few calm =
      (responses, errors, refl, ((λ h. absurd (omega (arith, h, few))), λ h. few))
  collect-Settled threshold size (panic ∷ results) responses errors completed all few calm =
      absurd (calm.0 refl)
  collect-Settled threshold size (err e ∷ results) responses errors completed all few calm =
      let more = length-successes_le results in
      elim (Bool-cases (ltb (length responses + (size - (completed + 1))) threshold)) [
        | inl hopeless ↦ (
          responses,
          errors ++ (e ∷ []),
          rw hopeless refl,
          ((λ h. absurd (ground (arith, h, hopeless, more, all))), λ h. few),
        )
        | inr going ↦
            let (last, errors', returns, settled) =
              collect-Settled threshold size results responses (errors ++ (e ∷ [])) (completed + 1)
                (omega (arith, all)) few calm.1 in
            (last, errors', rw going returns, settled)
      ]
  collect-Settled threshold size (ok a ∷ results) responses errors completed all few calm =
      let more = length-successes_le results in
      let n = length responses in
      let s = successes results in
      let responses' = responses ++ (a ∷ []) in
      let longer : length responses' ≡ suc n = omega (arith, length-append responses (a ∷ [])) in
      elim (Bool-cases (leb threshold (length responses'))) [
        | inl full ↦ (
          responses',
          errors,
          rw full refl,
          (
            (λ h.
                ap (λ k. responses ++ take k (a ∷ s)) {x = 1} {y = threshold - n}
                  (ground (arith, full, longer, few))),
            λ h. absurd (ground (arith, h, full, longer)),
          ),
        )
        | inr wanting ↦
            elim (Bool-cases (ltb (length responses' + (size - (completed + 1))) threshold)) [
              | inl hopeless ↦ (
                responses',
                errors,
                rw (wanting, hopeless) refl,
                (
                  (λ h. absurd (ground (arith, h, hopeless, more, all, longer))),
                  λ h. ground (arith, wanting),
                ),
              )
              | inr going ↦
                  let (last, errors', returns, settled) =
                    collect-Settled threshold size results responses' errors (completed + 1)
                      (omega (arith, all)) (ground (arith, wanting)) calm.1 in
                  (
                    last,
                    errors',
                    rw (wanting, going) returns,
                    (
                      (λ h.
                          settled.0 (omega (arith, h, longer))
                          ∙ append_assoc responses (a ∷ []) (take (threshold - length responses') s)
                          ∙ ap (λ k. responses ++ (a ∷ take k s)) {y = threshold - suc n}
                              (omega (arith, longer))
                          ∙ ap (λ k. responses ++ take k (a ∷ s)) {x = suc (threshold - suc n)}
                              {y = threshold - n} (omega (arith, few))),
                      λ h. settled.1 (omega (arith, h, longer)),
                    ),
                  )
            ]
      ]

  -- For a positive threshold, and tasks that do not panic, the loop ends with the first `threshold`
  -- successes, in the order of completion, if there are as many among the results, and with fewer
  -- than `threshold` otherwise.
  pub collect-successes :
      (threshold : ℕ) (results : List (Relayed A))
      → 0 < threshold
      → NoPanic results
      → (responses : List A) × (errors : List ErrorResponse) × (collect threshold
            (length results)
            results
            []
            []
            0
          ≡ ok (responses, errors))
        × ((threshold ≤ length (successes results))
            → responses ≡ take threshold (successes results))
        × ((length (successes results) < threshold) → length responses < threshold)
  collect-successes threshold results positive calm =
      let (responses, errors, returns, settled) =
        collect-Settled threshold (length results) results [] [] 0 (omega arith) positive calm in
      (
        responses,
        errors,
        returns,
        (λ h.
            settled.0 (omega (arith, h))
            ∙ ap (λ k. take k (successes results)) {x = threshold - 0} {y = threshold}
                (omega arith)),
        λ h. settled.1 (omega (arith, h)),
      )
