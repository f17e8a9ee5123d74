-- ===== src/Sdk/Gathering.antt =====
-- The user secret keys that a client gathers for the services of an object.
use seal.Base.{
  ◌≡◌, List, [], ◌∷◌, Option, some, none, U8, Table, get, Option-cases, All, ◌≢◌, Distinct, inl,
  length, inr, ◌+◌, put, nothing_found, get-put_cases, filter, ap, sym, arith, ◌∙◌, All-map₂,
  get-put_same, length-put_new, ◌⊎◌, suc, ℕ, if◌then◌else◌, false, true,
}
use seal.External.{Group, Bls12381}
use seal.Seal.{contains_key}
use seal.Sdk.{insert_known}

module _ (b : Bls12381) where
  open b use {g1, g2}

  module _ (keys : Table (Group.Element g1)) where
    -- The keys for a list of servers, added to those at hand.
    abbrev pub known_keys : List (List U8) → Table (Group.Element g1) → Table (Group.Element g1)
    known_keys [] usks = usks
    known_keys (id ∷ ids) usks = known_keys ids (insert_known b keys id usks)

    insert_known_cases :
        (id : List U8) (usks : Table (Group.Element g1))
        → ((get keys id ≡ none) × (insert_known b keys id usks ≡ usks))
          ⊎ ((new : Group.Element g1) × (get keys id ≡ some new)
              × (insert_known b keys id usks ≡ put usks id new))
    unfolding insert_known
    insert_known_cases id usks = elim (Option-cases (get keys id)) [
      | inl missing ↦
          inl (missing, ap (λ o. elim o [ none ↦ usks | some u ↦ put usks id u ]) missing)
      | inr (new, there) ↦
          inr (new, there, ap (λ o. elim o [ none ↦ usks | some u ↦ put usks id u ]) there)
    ]

    -- What is gathered are keys at hand.
    abbrev pub AreKnown : Table (Group.Element g1) → Type 0
    AreKnown usks =
        (id : List U8) (usk : Group.Element g1) → get usks id ≡ some usk → get keys id ≡ some usk

    insert_known-AreKnown :
        (id : List U8) (usks : Table (Group.Element g1))
        → AreKnown usks
        → AreKnown (insert_known b keys id usks)
    insert_known-AreKnown id usks known other usk found = elim (insert_known_cases id usks) [
      | inl (missing, same) ↦ known other usk (ap (λ t. get t other) (sym same) ∙ found)
      | inr (new, there, added) ↦
          let found' = ap (λ t. get t other) (sym added) ∙ found in
          elim (get-put_cases usks id other new) [
            | inl (same, put_there) ↦ ap (get keys) (sym same) ∙ there ∙ sym put_there ∙ found'
            | inr (apart, old) ↦ known other usk (sym old ∙ found')
          ]
    ]

    insert_known-agrees :
        (id : List U8) (usks : Table (Group.Element g1))
        → AreKnown usks
        → get (insert_known b keys id usks) id ≡ get keys id
    insert_known-agrees id usks known = elim (insert_known_cases id usks) [
      | inl (missing, same) ↦ ap (λ t. get t id) same ∙ elim (Option-cases (get usks id)) [
        | inl none_yet ↦ none_yet ∙ sym missing
        | inr (usk, there) ↦ absurd (nothing_found usk (sym missing ∙ known id usk there))
      ]
      | inr (new, there, added) ↦ ap (λ t. get t id) added ∙ get-put_same usks id new ∙ sym there
    ]

    insert_known-agrees_other :
        (id other : List U8) (usks : Table (Group.Element g1))
        → get usks other ≡ get keys other
        → get (insert_known b keys id usks) other ≡ get keys other
    insert_known-agrees_other id other usks agrees = elim (insert_known_cases id usks) [
      | inl (missing, same) ↦ ap (λ t. get t other) same ∙ agrees
      | inr (new, there, added) ↦
          ap (λ t. get t other) added ∙ elim (get-put_cases usks id other new) [
            | inl (same, put_there) ↦ put_there ∙ sym there ∙ ap (get keys) same
            | inr (apart, old) ↦ old ∙ agrees
          ]
    ]

    pub known_keys-AreKnown :
        (ids : List (List U8)) (usks : Table (Group.Element g1))
        → AreKnown usks
        → AreKnown (known_keys ids usks)
    known_keys-AreKnown [] usks known = known
    known_keys-AreKnown (id ∷ ids) usks known =
        known_keys-AreKnown ids (insert_known b keys id usks) (insert_known-AreKnown id usks known)

    known_keys-agrees_other :
        (ids : List (List U8)) (other : List U8) (usks : Table (Group.Element g1))
        → get usks other ≡ get keys other
        → get (known_keys ids usks) other ≡ get keys other
    known_keys-agrees_other [] other usks agrees = agrees
    known_keys-agrees_other (id ∷ ids) other usks agrees =
        known_keys-agrees_other ids other (insert_known b keys id usks)
          (insert_known-agrees_other id other usks agrees)

    -- The gathered keys are those at hand, for every server asked.
    pub known_keys-agrees :
        (ids : List (List U8)) (usks : Table (Group.Element g1))
        → AreKnown usks
        → All (λ id. get (known_keys ids usks) id ≡ get keys id) ids
    known_keys-agrees [] usks known = tt
    known_keys-agrees (id ∷ ids) usks known = (
      known_keys-agrees_other ids id (insert_known b keys id usks)
          (insert_known-agrees id usks known),
      known_keys-agrees ids (insert_known b keys id usks) (insert_known-AreKnown id usks known),
    )

    insert_known-missing :
        (id other : List U8) (usks : Table (Group.Element g1))
        → other ≢ id
        → get usks other ≡ none
        → get (insert_known b keys id usks) other ≡ none
    insert_known-missing id other usks apart missing = elim (insert_known_cases id usks) [
      | inl (no_key, same) ↦ ap (λ t. get t other) same ∙ missing
      | inr (new, there, added) ↦ elim (get-put_cases usks id other new) [
        | inl (same, put_there) ↦ absurd (apart (sym same))
        | inr (differs, old) ↦ ap (λ t. get t other) added ∙ old ∙ missing
      ]
    ]

    -- A filter over one more server.
    length-filter_known :
        (id : List U8) (ids : List (List U8))
        → ((get keys id ≡ none)
            → length (filter (contains_key (get keys)) (id ∷ ids))
              ≡ length (filter (contains_key (get keys)) ids))
          × ((usk : Group.Element g1)
              → get keys id ≡ some usk
              → length (filter (contains_key (get keys)) (id ∷ ids))
                ≡ suc (length (filter (contains_key (get keys)) ids)))
    length-filter_known id ids = (
      λ h. ap (choose (filter (contains_key (get keys)) ids)) h,
      λ usk h. ap (choose (filter (contains_key (get keys)) ids)) h,
    )
      where
        choose : List (List U8) → Option (Group.Element g1) → ℕ
        choose rest o = length (if elim o [ none ↦ false | some v ↦ true ] then id ∷ rest else rest)

    -- For different servers, there are as many keys as servers whose key is at hand.
    pub length-known_keys :
        (ids : List (List U8)) (usks : Table (Group.Element g1))
        → Distinct (λ (id : List U8). id) ids
        → All (λ id. get usks id ≡ none) ids
        → length (known_keys ids usks) ≡ length usks + length (filter (contains_key (get keys)) ids)
    length-known_keys [] usks distinct missing = omega arith
    length-known_keys (id ∷ ids) usks distinct missing =
        let missing' =
          All-map₂ {P = λ other. other ≢ id} {Q = λ other. get usks other ≡ none}
            {R = λ other. get (insert_known b keys id usks) other ≡ none}
            (λ other. insert_known-missing id other usks) ids distinct.0 missing.1 in
        let rest = length-known_keys ids (insert_known b keys id usks) distinct.1 missing' in
        elim (insert_known_cases id usks) [
          | inl (no_key, same) ↦
              omega (arith, rest, ap length same, (length-filter_known id ids).0 no_key)
          | inr (new, there, added) ↦ omega (
            arith,
            rest,
            ap length added,
            length-put_new usks id new missing.0,
            (length-filter_known id ids).1 new there,
          )
        ]
