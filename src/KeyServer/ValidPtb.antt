-- ===== src/KeyServer/ValidPtb.antt =====
-- crates/key-server/src/valid_ptb.rs: the programmable transactions that the server evaluates. The
-- commands, arguments and inputs of a transaction are types of `sui_types`, and the decoding of an
-- id is `bcs`: parameters.
pub mod Approval
pub mod Restrictions
use seal.Base.{
  ℕ, List, [], ◌∷◌, map, length, get_elem?, Option, none, some, Bool, true, false, not, ◌&&◌, ◌||◌,
  U8, u8, ◌=8◌, bytes_eq, ltb, expect, expect_some, ok, ok_or, reject_if, traverse, ◌>>=◌, ◌>>◌,
}
use seal.Utils.{is_empty}
use seal.Seal.{create_full_id}
use Prim.Native.String.{String}
use seal.KeyServer.Errors.{InternalError, invalid_ptb, Answer}

abbrev pub too_many_commands : String
too_many_commands = "Too many commands in PTB (more than 100)"

abbrev pub empty_input_or_command : String
empty_input_or_command = "Empty PTB input or command"

abbrev pub invalid_first_command : String
invalid_first_command = "Invalid first command"

abbrev pub non_move_call : String
non_move_call = "Non MoveCall command"

abbrev pub only_pure_inputs : String
only_pure_inputs = "Only pure inputs are allowed"

abbrev pub invalid_function_or_package : String
invalid_function_or_package = "Invalid function or package id"

abbrev pub empty_args : String
empty_args = "Empty args"

abbrev pub invalid_index_for_first : String
invalid_index_for_first = "Invalid index for first argument"

abbrev pub invalid_first_parameter : String
invalid_first_parameter = "Invalid first parameter for seal_approve"

abbrev pub invalid_bcs_for_first : String
invalid_bcs_for_first = "Invalid BCS for first parameter for seal_approve"

-- `ProgrammableMoveCall`, the fields that are read.
pub record MoveCall (Argument : Type 0) : Type 0 where
  pub package_id : List U8
  pub function : List U8
  pub arguments : List Argument

-- The types of a transaction with the patterns that the server matches them against.
pub record Sui : Type 1 where
  pub Argument : Type 0
  pub CallArg : Type 0
  pub Command : Type 0
  -- `Argument::Input(i)`
  pub input_index : Argument → Option ℕ
  -- `CallArg::Pure(bytes)`
  pub pure_bytes : CallArg → Option (List U8)
  -- `Command::MoveCall(call)`
  pub move_call : Command → Option (MoveCall Argument)
  -- `bcs::from_bytes::<Vec<u8>>`
  pub id_from_bytes : List U8 → Option (List U8)

pub record Ptb (s : Sui) : Type 0 where
  pub inputs : List (Sui.CallArg s)
  pub commands : List (Sui.Command s)

abbrev pub max_commands : ℕ
max_commands = 100

-- "seal_approve"
abbrev pub seal_approve : List U8
seal_approve = map u8 (115 ∷ 101 ∷ 97 ∷ 108 ∷ 95 ∷ 97 ∷ 112 ∷ 112 ∷ 114 ∷ 111 ∷ 118 ∷ 101 ∷ [])

-- `text.starts_with(prefix)`, the prefix first
unfoldable pub starts_with : List U8 → List U8 → Bool
starts_with [] text = true
starts_with (x ∷ prefix) [] = false
starts_with (x ∷ prefix) (y ∷ text) = (x =8 y) && starts_with prefix text

abbrev pub is_some : {A : Type 0} → Option A → Bool
is_some none = false
is_some (some a) = true

module _ (s : Sui) where
  open s use {Argument, CallArg, Command, input_index, pure_bytes, move_call, id_from_bytes}

  -- `inputs.get(i)` matched against `Some(CallArg::Pure(id))`
  abbrev pub pure_input : List CallArg → ℕ → Option (List U8)
  pure_input inputs i = elim (get_elem? inputs i) [ none ↦ none | some arg ↦ pure_bytes arg ]

  unfoldable pub get_key_id : Ptb s → MoveCall Argument → Answer (List U8)
  get_key_id ptb cmd = do
    first ← ok_or (get_elem? cmd.arguments 0) (invalid_ptb empty_args)
    arg_idx ← ok_or (input_index first) (invalid_ptb invalid_index_for_first)
    id ← ok_or (pure_input ptb.inputs arg_idx) (invalid_ptb invalid_first_parameter)
    ok_or (id_from_bytes id) (invalid_ptb invalid_bcs_for_first)

  -- Some argument is not an input.
  unfoldable pub any_other : List Argument → Bool
  any_other [] = false
  any_other (arg ∷ args) = not (is_some (input_index arg)) || any_other args

  -- The body of the loop over the commands.
  unfoldable pub check_command : Ptb s → List U8 → Command → Answer (Unit {0})
  check_command ptb pkg_id command = do
    cmd ← ok_or (move_call command) (invalid_ptb non_move_call)
    reject_if (any_other cmd.arguments) (invalid_ptb only_pure_inputs)
    id ← get_key_id ptb cmd
    reject_if (not (starts_with seal_approve cmd.function) || not (bytes_eq cmd.package_id pkg_id))
        (invalid_ptb invalid_function_or_package)

  unfoldable pub check_commands : Ptb s → List U8 → List Command → Answer (Unit {0})
  check_commands ptb pkg_id [] = ok tt
  check_commands ptb pkg_id (command ∷ commands) = do
    checked ← check_command ptb pkg_id command
    check_commands ptb pkg_id commands

  -- `ValidPtb::try_from`; a valid transaction is returned as it is.
  unfoldable pub try_from : Ptb s → Answer (Ptb s)
  try_from ptb = do
    reject_if (ltb max_commands (length ptb.commands)) (invalid_ptb too_many_commands)
    reject_if (is_empty ptb.inputs || is_empty ptb.commands) (invalid_ptb empty_input_or_command)
    first ← expect_some (get_elem? ptb.commands 0)
    first_cmd ← ok_or (move_call first) (invalid_ptb invalid_first_command)
    checked ← check_commands ptb first_cmd.package_id ptb.commands
    ok ptb

  -- The id of a command; the two panics of `inner_ids`.
  unfoldable pub inner_id : Ptb s → Command → Answer (List U8)
  inner_id ptb command = do cmd ← expect_some (move_call command); expect (get_key_id ptb cmd)

  unfoldable pub inner_ids : Ptb s → Answer (List (List U8))
  inner_ids ptb = traverse (inner_id ptb) ptb.commands

  unfoldable pub pkg_id : Ptb s → Answer (List U8)
  pkg_id ptb = do
    first ← expect_some (get_elem? ptb.commands 0)
    cmd ← expect_some (move_call first)
    ok cmd.package_id

  unfoldable pub full_ids : Ptb s → List U8 → Answer (List (List U8))
  full_ids ptb first_pkg_id = do ids ← inner_ids ptb; ok (map (create_full_id first_pkg_id) ids)
