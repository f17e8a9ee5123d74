-- ===== src/KeyServer/MasterKeys.antt =====
-- crates/key-server/src/master_keys.rs: the master keys that a server holds, and the one for the
-- current version of its committee. The environment is a parameter: what decoding a variable gives,
-- and so is the derivation of a key from the seed.
pub mod Rotation
use seal.Base.{
  Result, ◌>>=◌, Table, get, ℕ, ◌+◌, ◌-◌, ◌^◌, List, [], ◌∷◌, ◌++◌, U8, bytes_eq, Option, none,
  some, Bool, true, false, ◌==◌, ◌&&◌, ltb, if◌then◌else◌, err, ok, ok_or, panic,
}
use seal.Utils.{is_empty}
use seal.KeyServer.Options.{
  derived, imported, exported, ClientConfig, ClientKeyType, CommitteeState, ServerMode,
}
use Prim.Native.String.{String}
use seal.KeyServer.Errors.{
  InternalError, failure, unsupported_package_id, invalid_service_id, Answer,
}

pub data CommitteeKeyState (Key : Type 0) : Type 0 where
  active : Key → CommitteeKeyState Key
  -- the old share, the next share, the target version
  rotation : Option Key → Key → ℕ → CommitteeKeyState Key

pub data MasterKeys (Key : Type 0) : Type 0 where
  open_mode : Key → MasterKeys Key
  -- by package, by key server
  permissioned : Table Key → Table Key → MasterKeys Key
  -- with the current version
  committee : CommitteeKeyState Key → ℕ → MasterKeys Key

-- Why `load` fails.
pub data LoadError : Type 0 where
  missing_variable cannot_infer_next target_zero rotation_mismatch no_clients : LoadError

abbrev pub Load : Type 0 → Type 0
Load A = Result LoadError A

-- `u32::checked_add(1)`, `u32::checked_sub(1)`
abbrev pub checked_next : ℕ → Option ℕ
checked_next v = if ltb (v + 1) (2 ^ 32) then some (v + 1) else none

abbrev pub is_next : ℕ → ℕ → Bool
is_next current target = ltb (current + 1) (2 ^ 32) && (current + 1) == target

-- What the variables of the environment decode to.
pub record Environment (Key : Type 0) : Type 0 where
  -- MASTER_KEY in the default encoding, and in Base64
  pub master_key : Option Key
  pub master_key_base64 : Option Key
  -- MASTER_KEY as a seed
  pub seed : Option (List U8)
  pub imported_key : List U8 → Option Key
  -- MASTER_SHARE_V{version}
  pub master_share : ℕ → Option Key

module _ {Key : Type 0} (env : Environment Key) (derive_master_key : List U8 → ℕ → Key) where
  open env use {master_key, master_key_base64, seed, imported_key, master_share}

  -- `CommitteeState::Active` on load: the share of this version, or only that of the next.
  unfoldable pub load_active : ℕ → Load (CommitteeKeyState Key)
  load_active version = elim (master_share version) [
    | some share ↦ ok (active share)
    | none ↦ do
      target ← ok_or (checked_next version) cannot_infer_next
      next ← ok_or (master_share target) missing_variable
      ok (rotation none next target)
  ]

  unfoldable pub load_rotation : ℕ → ℕ → Load (CommitteeKeyState Key)
  load_rotation version target =
      if target == 0
      then err target_zero
      else (if version == target
          then (ok_or (master_share target) missing_variable >>= λ share. ok (active share))
          else (if version == target - 1
              then (ok_or (master_share target) missing_variable >>= λ next.
                  ok (rotation (master_share version) next target))
              else err rotation_mismatch))

  unfoldable pub load_committee : CommitteeState → ℕ → Load (CommitteeKeyState Key)
  load_committee CommitteeState.active version = load_active version
  load_committee (CommitteeState.rotation target) version = load_rotation version target

  -- The loop over the clients of a permissioned server, in order.
  unfoldable pub load_clients :
      List U8 → List ClientConfig → Table Key → Table Key → Load (Table Key × Table Key)
  load_clients seed_bytes [] by_package by_server = ok (by_package, by_server)
  load_clients seed_bytes (config ∷ configs) by_package by_server = elim config.client_master_key [
    | derived i ↦
        let key = derive_master_key seed_bytes i in
        load_clients seed_bytes configs (insert_all key config.package_ids by_package)
          ((config.key_server_object_id, key) ∷ by_server)
    | imported var ↦ do
      key ← ok_or (imported_key var) missing_variable
      load_clients seed_bytes configs (insert_all key config.package_ids by_package)
          ((config.key_server_object_id, key) ∷ by_server)
    | exported i ↦ load_clients seed_bytes configs by_package by_server
  ]
    where
      insert_all : Key → List (List U8) → Table Key → Table Key
      insert_all key [] table = table
      insert_all key (pkg ∷ pkgs) table = insert_all key pkgs ((pkg, key) ∷ table)

  -- `MasterKeys::load`; the version is there in committee mode, or the call panics.
  unfoldable pub load : ServerMode → Option ℕ → Load (MasterKeys Key)
  load (ServerMode.open_mode id) version = elim master_key [
    | some key ↦ ok (open_mode key)
    | none ↦ do key ← ok_or master_key_base64 missing_variable; ok (open_mode key)
  ]
  load (ServerMode.committee member object state name) none = panic
  load (ServerMode.committee member object state name) (some version) = do
    key_state ← load_committee state version
    ok (committee key_state version)
  load (ServerMode.permissioned configs) version = do
    seed_bytes ← ok_or seed missing_variable
    tables ← load_clients seed_bytes configs [] []
    if is_empty tables.0 then err no_clients else ok (permissioned tables.0 tables.1)

abbrev pub rotation_without_old_share : String
rotation_without_old_share =
    "Rotation in progress: onchain version is {}, target is {}. Cannot serve traffic without old share."

abbrev pub invalid_rotation_state : String
invalid_rotation_state = "Invalid rotation state: onchain version is {}, target is {}."

abbrev pub invalid_server_type : String
invalid_server_type = "Invalid server type"

module _ {Key : Type 0} where
  -- The share for the current version.
  unfoldable pub share_at : CommitteeKeyState Key → ℕ → Answer Key
  share_at (active share) current = ok share
  share_at (rotation old next target) current =
      if current == target
      then ok next
      else (if is_next current target
          then ok_or old (failure rotation_without_old_share)
          else err (failure invalid_rotation_state))

  unfoldable pub get_committee_server_master_share : MasterKeys Key → Answer Key
  get_committee_server_master_share (committee state version) = share_at state version
  get_committee_server_master_share (open_mode key) = err (failure invalid_server_type)
  get_committee_server_master_share (permissioned by_package by_server) =
      err (failure invalid_server_type)

  unfoldable pub get_key_for_package : MasterKeys Key → List U8 → Answer Key
  get_key_for_package (open_mode key) package_id = ok key
  get_key_for_package (committee state version) package_id =
      get_committee_server_master_share (committee state version)
  get_key_for_package (permissioned by_package by_server) package_id =
      ok_or (get by_package package_id) unsupported_package_id

  unfoldable pub get_key_for_key_server : MasterKeys Key → List U8 → Answer Key
  get_key_for_key_server (open_mode key) id = ok key
  get_key_for_key_server (committee state version) id =
      get_committee_server_master_share (committee state version)
  get_key_for_key_server (permissioned by_package by_server) id =
      ok_or (get by_server id) invalid_service_id
