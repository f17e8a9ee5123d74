-- ===== src/KeyServer/Options.antt =====
-- crates/key-server/src/key_server_options.rs: the modes of a server and the validation of the
-- clients of a permissioned one. A hash set is the list of what was inserted.
pub mod Inserts
pub mod Validation
use seal.Base.{
  ℕ, List, [], ◌∷◌, ◌++◌, map, filter, length, range, U8, bytes_eq, Bool, true, false, not, ◌&&◌,
  ◌||◌, ◌==◌, if◌then◌else◌, Result, ok, reject_if, ◌>>=◌, ◌>>◌,
}

pub data ClientKeyType : Type 0 where
  derived : ℕ → ClientKeyType
  imported : List U8 → ClientKeyType
  exported : ℕ → ClientKeyType

pub record ClientConfig : Type 0 where
  pub name : List U8
  pub client_master_key : ClientKeyType
  pub key_server_object_id : List U8
  pub package_ids : List (List U8)

pub data CommitteeState : Type 0 where
  active : CommitteeState
  -- the target version
  rotation : ℕ → CommitteeState

pub data ServerMode : Type 0 where
  open_mode : List U8 → ServerMode
  permissioned : List ClientConfig → ServerMode
  -- member address, key server object, state, name
  committee : List U8 → List U8 → CommitteeState → List U8 → ServerMode

pub data ConfigError : Type 0 where
  no_package duplicate_name duplicate_derivation_index duplicate_env_var : ConfigError
  duplicate_key_server duplicate_package not_incremental : ConfigError

abbrev pub Validated : Type 0 → Type 0
Validated A = Result ConfigError A

-- `set.contains(&x)`, by a test for equality
unfoldable pub holds : {A : Type 0} → (A → A → Bool) → List A → A → Bool
holds eq [] x = false
holds eq (y ∷ set) x = eq y x || holds eq set x

-- `if !set.insert(x) { return Err(e) }`; the set with `x`
unfoldable pub insert :
    {A : Type 0} → (A → A → Bool) → List A → A → ConfigError → Validated (List A)
insert eq set x e = do reject_if (holds eq set x) e; ok (x ∷ set)

-- The four sets of `validate`.
pub record Seen : Type 0 where
  pub names : List (List U8)
  pub derivation_indices : List ℕ
  pub env_vars : List (List U8)
  pub obj_ids : List (List U8)

abbrev pub nat_eq : ℕ → ℕ → Bool
nat_eq a b = a == b

-- The `match` on the client's key.
unfoldable pub insert_key : ClientKeyType → Seen → Validated Seen
insert_key (derived i) seen = do
  indices ← insert nat_eq seen.derivation_indices i duplicate_derivation_index
  ok (record {
    names = seen.names;
    derivation_indices = indices;
    env_vars = seen.env_vars;
    obj_ids = seen.obj_ids;
  })
insert_key (exported i) seen = do
  indices ← insert nat_eq seen.derivation_indices i duplicate_derivation_index
  ok (record {
    names = seen.names;
    derivation_indices = indices;
    env_vars = seen.env_vars;
    obj_ids = seen.obj_ids;
  })
insert_key (imported var) seen = do
  vars ← insert bytes_eq seen.env_vars var duplicate_env_var
  ok (record {
    names = seen.names;
    derivation_indices = seen.derivation_indices;
    env_vars = vars;
    obj_ids = seen.obj_ids;
  })

-- The loop over the packages of a client.
unfoldable pub insert_packages : List (List U8) → List (List U8) → Validated (List (List U8))
insert_packages [] set = ok set
insert_packages (pkg ∷ pkgs) set = do
  set' ← insert bytes_eq set pkg duplicate_package
  insert_packages pkgs set'

-- The body of the loop over the clients.
unfoldable pub validate_client : ClientConfig → Seen → Validated Seen
validate_client config seen = do
  reject_if (length config.package_ids == 0) no_package
  names ← insert bytes_eq seen.names config.name duplicate_name
  keyed ← insert_key config.client_master_key seen
  with_server ← insert bytes_eq keyed.obj_ids config.key_server_object_id duplicate_key_server
  obj_ids ← insert_packages config.package_ids with_server
  ok (record {
    names = names;
    derivation_indices = keyed.derivation_indices;
    env_vars = keyed.env_vars;
    obj_ids = obj_ids;
  })

unfoldable pub validate_clients : List ClientConfig → Seen → Validated Seen
validate_clients [] seen = ok seen
validate_clients (config ∷ configs) seen = do
  seen' ← validate_client config seen
  validate_clients configs seen'

-- Some number below the size of the set is not in it.
unfoldable pub any_missing : List ℕ → List ℕ → Bool
any_missing set [] = false
any_missing set (i ∷ is) = not (holds nat_eq set i) || any_missing set is

unfoldable pub validate : ServerMode → Validated (Unit {0})
validate (open_mode id) = ok tt
validate (committee member object state name) = ok tt
validate (permissioned configs) = do
  seen ←
      validate_clients configs
        (record { names = []; derivation_indices = []; env_vars = []; obj_ids = [] })
  reject_if (any_missing seen.derivation_indices (range 0 (length seen.derivation_indices)))
      not_incremental

-- `matches!(key, Derived | Imported)`
abbrev pub is_served : ClientKeyType → Bool
is_served (derived i) = true
is_served (imported var) = true
is_served (exported i) = false

unfoldable pub get_supported_key_server_object_ids : ServerMode → List (List U8)
get_supported_key_server_object_ids (open_mode id) = id ∷ []
get_supported_key_server_object_ids (permissioned configs) =
    map (λ (c : ClientConfig). c.key_server_object_id)
      (filter (λ (c : ClientConfig). is_served c.client_master_key) configs)
get_supported_key_server_object_ids (committee member object state name) = object ∷ []
