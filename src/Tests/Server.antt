-- ===== src/Tests/Server.antt =====
-- The key server's checks on small transactions, committees and configurations.
use seal.Base.{
  ℕ, ◌≡◌, refl, inr, List, [], ◌∷◌, ◌++◌, Option, none, some, U8, u8, All₂, bytes_eq, ℕ_discrete,
  arith, ok,
}
use seal.KeyServer.ValidPtb.{
  MoveCall, Sui, Ptb, seal_approve, starts_with, get_key_id, any_other, check_command,
  check_commands, try_from, pkg_id, inner_ids,
}
use seal.KeyServer.ValidPtb.Approval.{Approves, IsValid}
use seal.KeyServer.ValidPtb.Restrictions.{try_from-iff-IsValid, inner_ids-try_from}
use seal.KeyServer.Options.{
  ClientConfig, derived, imported, permissioned, CommitteeState, holds, insert, insert_key,
  insert_packages, validate_client, validate_clients, any_missing, validate,
}
use seal.KeyServer.Options.Validation.{AreUnique, validate-AreUnique}
use seal.KeyServer.MasterKeys.{Environment, rotation, load_rotation, load_committee, share_at}
use seal.KeyServer.MasterKeys.Rotation.{share_at-load_committee}

-- An argument is an input or something else, and so on.
abbrev pub sui : Sui
sui = record {
  Argument = Option ℕ;
  CallArg = Option (List U8);
  Command = Option (MoveCall (Option ℕ));
  input_index = λ a. a;
  pure_bytes = λ a. a;
  move_call = λ c. c;
  id_from_bytes = λ b. some b;
}

abbrev pub approve_x : MoveCall (Option ℕ)
approve_x = record {
  package_id = u8 1 ∷ [];
  function = seal_approve ++ (u8 95 ∷ u8 120 ∷ []);
  arguments = some 0 ∷ [];
}

abbrev pub transaction : Ptb sui
transaction = record {
  inputs = some (u8 7 ∷ u8 8 ∷ []) ∷ [];
  commands = some approve_x ∷ some approve_x ∷ [];
}

-- The first input is the id, which may be empty.
Approves-x :
    (id : List U8) (commands : List (Option (MoveCall (Option ℕ))))
    → Approves sui
        (record { inputs = some id ∷ []; commands = commands })
        (u8 1 ∷ [])
        (some approve_x)
        id
Approves-x id commands = record {
  call = approve_x;
  is_call = refl;
  in_package = refl;
  name_rest = u8 95 ∷ u8 120 ∷ [];
  named = refl;
  first = some 0;
  others = [];
  has_arguments = refl;
  inputs_only = ((0, refl), tt);
  index = 0;
  is_input = refl;
  arg = some id;
  at_index = refl;
  bytes = id;
  is_pure = refl;
  decodes = refl;
}

abbrev approving : List U8 → Ptb sui
approving id = record { inputs = some id ∷ []; commands = some approve_x ∷ [] }

transaction-IsValid : IsValid sui transaction
transaction-IsValid =
    let approves = Approves-x (u8 7 ∷ u8 8 ∷ []) transaction.commands in
    record {
      few = omega arith;
      first_input = some (u8 7 ∷ u8 8 ∷ []);
      other_inputs = [];
      some_input = refl;
      first_command = some approve_x;
      other_commands = some approve_x ∷ [];
      some_command = refl;
      pkg = u8 1 ∷ [];
      approved = ((u8 7 ∷ u8 8 ∷ [], approves), ((u8 7 ∷ u8 8 ∷ [], approves), tt));
    }

-- A transaction whose only id is empty is accepted.
empty_id_accepted : try_from sui (approving []) ≡ ok (approving [])
unfolding try_from check_commands check_command get_key_id any_other starts_with bytes_eq ℕ_discrete
empty_id_accepted = refl

try_from-iff-IsValid_example : try_from sui transaction ≡ ok transaction
try_from-iff-IsValid_example = (try_from-iff-IsValid sui transaction).1 transaction-IsValid

accepted : try_from sui transaction ≡ ok transaction
accepted = (try_from-iff-IsValid sui transaction).1 transaction-IsValid

inner_ids-try_from_example :
    (pkg : List U8) × (ids : List (List U8)) × (pkg_id sui transaction ≡ ok pkg)
    × (inner_ids sui transaction ≡ ok ids)
    × All₂ (Approves sui transaction pkg) transaction.commands ids
inner_ids-try_from_example = inner_ids-try_from sui transaction transaction accepted

-- The share of a version is its number.
abbrev numbered : Environment ℕ
numbered = record {
  master_key = none;
  master_key_base64 = none;
  seed = none;
  imported_key = λ var. none;
  master_share = λ version. some version;
}

abbrev no_derivation : List U8 → ℕ → ℕ
no_derivation seed i = i

rotating :
    load_committee numbered no_derivation (CommitteeState.rotation 5) 4 ≡ ok (rotation (some 4) 5 5)
unfolding load_committee load_rotation ℕ_discrete
rotating = refl

served : share_at {Key = ℕ} (rotation (some 4) 5 5) 5 ≡ ok 5
unfolding share_at ℕ_discrete
served = refl

share_at-load_committee_example : numbered.master_share 5 ≡ some 5
share_at-load_committee_example =
    share_at-load_committee numbered no_derivation (CommitteeState.rotation 5) 4 5
      (rotation (some 4) 5 5) 5 rotating (inr tt) served

abbrev alice : ClientConfig
alice = record {
  name = u8 1 ∷ [];
  client_master_key = derived 0;
  key_server_object_id = u8 10 ∷ [];
  package_ids = (u8 11 ∷ []) ∷ (u8 12 ∷ []) ∷ [];
}

abbrev bob : ClientConfig
bob = record {
  name = u8 2 ∷ [];
  client_master_key = imported (u8 5 ∷ []);
  key_server_object_id = u8 20 ∷ [];
  package_ids = (u8 21 ∷ []) ∷ [];
}

alice_and_bob : validate (permissioned (alice ∷ bob ∷ [])) ≡ ok tt
unfolding validate validate_clients validate_client insert insert_key insert_packages holds
    any_missing bytes_eq ℕ_discrete
alice_and_bob = refl

validate-AreUnique_example : AreUnique (alice ∷ bob ∷ [])
validate-AreUnique_example = validate-AreUnique (alice ∷ bob ∷ []) alice_and_bob
