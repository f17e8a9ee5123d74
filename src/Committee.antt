-- ===== src/Committee.antt =====
-- crates/seal-committee/src/move_types.rs: the committee and its key server as they stand on the
-- chain. The keys of a member are values of other crates.
pub mod Parties
use Prim.Native.String.{String}
use seal.Base.{
  ℕ, ◌%◌, ◌^◌, List, [], ◌∷◌, Option, some, none, Bool, true, false, Bytes, bytes_eq, has, Table,
  get, put, get_elem?, enumerate, Result, ok, err, traverse, if◌then◌else◌, ◌>>=◌, suc, ok_or,
}

-- Why a call fails.
pub data CommitteeError : Type 0 where
  independent_server party_out_of_range member_not_found : CommitteeError
  not_init not_finalized invalid_state not_registered : CommitteeError

abbrev pub Extracted : Type 0 → Type 0
Extracted A = Result CommitteeError A

module _ (Pk : Type 0) where
  pub record PartialKeyServer : Type 0 where
    pub name : String
    pub url : String
    pub partial_pk : Pk
    pub party_id : ℕ

  pub data ServerType : Type 0 where
    independent : String → ServerType
    -- version, threshold, partial key servers
    committee : ℕ → ℕ → List PartialKeyServer → ServerType

  unfoldable pub extract_committee_info : ServerType → Extracted (ℕ × List PartialKeyServer)
  extract_committee_info (committee version threshold partial_key_servers) =
      ok (threshold, partial_key_servers)
  extract_committee_info (independent url) = err independent_server

  -- The member of a partial key server, with the server.
  unfoldable pub member_of : List Bytes → PartialKeyServer → Extracted (Bytes × PartialKeyServer)
  member_of members partial_ks = do
    member_addr ← ok_or (get_elem? members partial_ks.party_id) party_out_of_range
    ok (member_addr, partial_ks)

-- `collect` into a `HashMap`
unfoldable pub collect_entries : {V : Type 0} → List (Bytes × V) → Table V → Table V
collect_entries [] table = table
collect_entries ((key, v) ∷ entries) table = collect_entries entries (put table key v)

unfoldable pub to_partial_key_servers :
    (Pk : Type 0) → ServerType Pk → List Bytes → Extracted (Table (PartialKeyServer Pk))
to_partial_key_servers Pk (committee version threshold partial_key_servers) members = do
  entries ← traverse (member_of Pk members) partial_key_servers
  ok (collect_entries entries [])
to_partial_key_servers Pk (independent url) members = err independent_server

-- `MemberInfo`; the keys are of other crates.
pub record MemberInfo (Enc Sig : Type 0) : Type 0 where
  pub enc_pk : Enc
  pub signing_pk : Sig
  pub url : String
  pub name : String

pub record ParsedMemberInfo (Enc Sig : Type 0) : Type 0 where
  pub name : String
  pub party_id : ℕ
  pub address : Bytes
  pub enc_pk : Enc
  pub signing_pk : Sig

module _ (Enc Sig : Type 0) where
  pub data CommitteeState : Type 0 where
    init post_dkg : List (Bytes × MemberInfo Enc Sig) → CommitteeState
    finalized : CommitteeState

  pub record SealCommittee : Type 0 where
    pub id : Bytes
    pub threshold : ℕ
    pub members : List Bytes
    pub state : CommitteeState

  -- `iter().position(|addr| addr == member)`, counting from `s`
  unfoldable pub position_from : ℕ → List Bytes → Bytes → Option ℕ
  position_from s [] member = none
  position_from s (x ∷ members) member =
      let rest = position_from (suc s) members member in if bytes_eq x member then some s else rest

  -- The index, cast to 16 bits.
  unfoldable pub get_party_id : SealCommittee → Bytes → Extracted ℕ
  get_party_id c member_addr = do
    idx ← ok_or (position_from 0 c.members member_addr) member_not_found
    ok (idx % 2 ^ 16)

  unfoldable pub is_init : SealCommittee → Extracted (Unit {0})
  is_init c = elim c.state [
    | init members_info ↦ ok tt
    | post_dkg members_info ↦ err not_init
    | finalized ↦ err not_init
  ]

  unfoldable pub is_finalized : SealCommittee → Extracted (Unit {0})
  is_finalized c = elim c.state [
    | init members_info ↦ err not_finalized
    | post_dkg members_info ↦ err not_finalized
    | finalized ↦ ok tt
  ]

  unfoldable pub contains : SealCommittee → Bytes → Bool
  contains c member_addr = has c.members member_addr

  unfoldable pub members_info_of : CommitteeState → Extracted (List (Bytes × MemberInfo Enc Sig))
  members_info_of (init members_info) = ok members_info
  members_info_of (post_dkg members_info) = ok members_info
  members_info_of finalized = err invalid_state

  -- The entry of one member.
  unfoldable pub parse_member :
      Table (MemberInfo Enc Sig) → ℕ × Bytes → Extracted (Bytes × ParsedMemberInfo Enc Sig)
  parse_member info_map (party_id, member_addr) = do
    info ← ok_or (get info_map member_addr) not_registered
    ok (
      member_addr,
      record {
        name = info.name;
        party_id = party_id % 2 ^ 16;
        address = member_addr;
        enc_pk = info.enc_pk;
        signing_pk = info.signing_pk;
      },
    )

  unfoldable pub get_members_info : SealCommittee → Extracted (Table (ParsedMemberInfo Enc Sig))
  get_members_info c = do
    members_info ← members_info_of c.state
    let info_map = collect_entries members_info []
    entries ← traverse (parse_member info_map) (enumerate 0 c.members)
    ok (collect_entries entries [])
