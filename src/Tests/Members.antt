-- ===== src/Tests/Members.antt =====
-- A committee of two members.
use seal.Base.{ℕ, ◌≡◌, refl, [], ◌∷◌, Bytes, u8, some, ok, get, Table, traverse, put, bytes_eq}
use seal.Committee.{
  MemberInfo, ParsedMemberInfo, SealCommittee, CommitteeState, get_party_id, get_members_info,
  members_info_of, parse_member, collect_entries,
}
use seal.Committee.Parties.{get_members_info-get_party_id}

abbrev ann : Bytes
ann = u8 1 ∷ []

abbrev bob : Bytes
bob = u8 2 ∷ []

abbrev info_of : ℕ → MemberInfo ℕ ℕ
info_of n = record { enc_pk = n; signing_pk = n; url = "url"; name = "name" }

abbrev two_members : SealCommittee ℕ ℕ
two_members = record {
  id = u8 9 ∷ [];
  threshold = 2;
  members = ann ∷ bob ∷ [];
  state = CommitteeState.init ((bob, info_of 6) ∷ (ann, info_of 5) ∷ []);
}

abbrev parsed : ℕ → Bytes → ℕ → ParsedMemberInfo ℕ ℕ
parsed i address n = record {
  name = "name";
  party_id = i;
  address = address;
  enc_pk = n;
  signing_pk = n;
}

abbrev infos : Table (ParsedMemberInfo ℕ ℕ)
infos = (ann, parsed 0 ann 5) ∷ (bob, parsed 1 bob 6) ∷ []

all_registered : get_members_info ℕ ℕ two_members ≡ ok infos
unfolding get_members_info members_info_of traverse parse_member collect_entries get put bytes_eq
all_registered = refl

bob_there : get infos bob ≡ some (parsed 1 bob 6)
unfolding get bytes_eq
bob_there = refl

get_members_info-get_party_id_example : (get_party_id ℕ ℕ two_members bob ≡ ok 1) × (bob ≡ bob)
get_members_info-get_party_id_example =
    get_members_info-get_party_id ℕ ℕ two_members infos bob (parsed 1 bob 6)
      (((λ e. cc e), tt), (tt, tt)) all_registered bob_there
