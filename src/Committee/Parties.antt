-- ===== src/Committee/Parties.antt =====
-- The party ids of the members of a committee.
use seal.Base.{
  ℕ, ◌%◌, ◌^◌, ◌≡◌, ◌⊎◌, inl, inr, List, [], ◌∷◌, some, none, Bytes, AreDistinct, Elem, Table, get,
  put, enumerate, ok, traverse, get-put_cases, subst, some-injective, sym, ◌∙◌, ok-injective, ap₂,
  >>=-ok, suc, ok_or, bytes_eq, false, refl, ap, nothing_found, bytes_eq_iff, Bool-cases, All-get,
  ◌≢◌,
}
use seal.Committee.{
  MemberInfo, ParsedMemberInfo, SealCommittee, position_from, get_party_id, parse_member,
  members_info_of, get_members_info, collect_entries, not_registered,
}

-- What a collected map has comes from the entries, or was there.
get-collect_entries :
    {V : Type 0} (entries : List (Bytes × V)) (table : Table V) (key : Bytes) (v : V)
    → get (collect_entries entries table) key ≡ some v
    → Elem (key, v) entries ⊎ (get table key ≡ some v)
unfolding collect_entries
get-collect_entries [] table key v found = inr found
get-collect_entries ((k, w) ∷ entries) table key v found =
    elim (get-collect_entries entries (put table k w) key v found) [
      | inl m ↦ inl (inr m)
      | inr there ↦ elim (get-put_cases table k key w) [
        | inl (same, new) ↦
            let value : w ≡ v = some-injective w v (sym new ∙ there) in
            inl (inl (ap₂ (λ a c. (a, c)) (sym same) (sym value)))
        | inr (other, old) ↦ inr (sym old ∙ there)
      ]
    ]

get_empty : {V : Type 0} (key : Bytes) → get {V = V} [] key ≡ none
unfolding get
get_empty key = refl

module _ (Enc Sig : Type 0) where
  -- The entries of the members have their positions.
  parse_member-position :
      (info_map : Table (MemberInfo Enc Sig)) (members : List Bytes) (s : ℕ)
      (entries : List (Bytes × ParsedMemberInfo Enc Sig))
      → AreDistinct members
      → traverse (parse_member Enc Sig info_map) (enumerate s members) ≡ ok entries
      → (key : Bytes) (info : ParsedMemberInfo Enc Sig) → Elem (key, info) entries
      → (i : ℕ) × (position_from Enc Sig s members key ≡ some i)
        × (info.party_id ≡ i % 2 ^ 16)
        × (info.address ≡ key)
        × Elem key members
  unfolding traverse parse_member position_from
  parse_member-position info_map [] s entries d returns key info m =
      absurd (subst (Elem (key, info)) (sym (ok-injective [] entries returns)) m)
  parse_member-position info_map (x ∷ members) s entries d returns key info m =
      let (first, parsed, h1) = >>=-ok (parse_member Enc Sig info_map (s, x)) _ returns in
      let (rest, others, h2) =
        >>=-ok (traverse (parse_member Enc Sig info_map) (enumerate (suc s) members)) _ h1 in
      let (raw, there, h3) = >>=-ok (ok_or (get info_map x) not_registered) _ parsed in
      let m' = subst (Elem (key, info)) (sym (ok-injective (first ∷ rest) entries h2)) m in
      elim m' [
        | inl e ↦
            let built : Bytes × ParsedMemberInfo Enc Sig = (
              x,
              record {
                name = raw.name;
                party_id = s % 2 ^ 16;
                address = x;
                enc_pk = raw.enc_pk;
                signing_pk = raw.signing_pk;
              },
            ) in
            let same : built ≡ (key, info) = ok-injective built first h3 ∙ sym e in
            let same_key : x ≡ key = ap (λ (p : Bytes × ParsedMemberInfo Enc Sig). p.0) same in
            (
              s,
              rw ((bytes_eq_iff x key).1 same_key) refl,
              ap (λ (p : Bytes × ParsedMemberInfo Enc Sig). p.1.party_id) (sym same),
              ap (λ (p : Bytes × ParsedMemberInfo Enc Sig). p.1.address) (sym same) ∙ same_key,
              inl (sym same_key),
            )
        | inr n ↦
            let (i, at, id, own, inside) =
              parse_member-position info_map members (suc s) rest d.1 others key info n in
            let apart : bytes_eq x key ≡ false = elim (Bool-cases (bytes_eq x key)) [
              | inl p ↦
                  absurd
                    (All-get (λ y. y ≢ x) members key d.0 inside (sym ((bytes_eq_iff x key).0 p)))
              | inr p ↦ p
            ] in
            (i, rw apart at, id, own, inr inside)
      ]

  -- In a committee of different members, the party id in a member's information is the one that
  -- `get_party_id` returns for the member, and the address is the member's.
  pub get_members_info-get_party_id :
      (c : SealCommittee Enc Sig) (infos : Table (ParsedMemberInfo Enc Sig)) (member : Bytes)
      (info : ParsedMemberInfo Enc Sig)
      → AreDistinct c.members
      → get_members_info Enc Sig c ≡ ok infos
      → get infos member ≡ some info
      → (get_party_id Enc Sig c member ≡ ok info.party_id) × (info.address ≡ member)
  unfolding get_members_info get_party_id
  get_members_info-get_party_id c infos member info distinct returns found =
      let (contents, extracted, h1) = >>=-ok (members_info_of Enc Sig c.state) _ returns in
      let info_map = collect_entries contents [] in
      let (entries, parsed, h2) =
        >>=-ok (traverse (parse_member Enc Sig info_map) (enumerate 0 c.members)) _ h1 in
      let found' : get (collect_entries entries []) member ≡ some info =
        ap (λ t. get t member) (ok-injective (collect_entries entries []) infos h2) ∙ found in
      elim (get-collect_entries entries [] member info found') [
        | inr there ↦ absurd (nothing_in_empty there)
        | inl m ↦
            let (i, at, id, own, inside) =
              parse_member-position info_map c.members 0 entries distinct parsed member info m in
            (rw at (ap (λ n. ok n) (sym id)), own)
      ]
    where
      nothing_in_empty : get {V = ParsedMemberInfo Enc Sig} [] member ≡ some info → ⊥
      nothing_in_empty h = nothing_found info (sym (get_empty member) ∙ h)
