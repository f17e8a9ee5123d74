-- ===== src/KeyServer/VersionUpdater.antt =====
-- crates/key-server/src/server.rs, spawn_committee_version_updater: the task that follows the version
-- of the committee on the chain during a rotation. What it observes, and whether the public key on
-- the chain is that of the target share, come from the chain.
pub mod Progress
use seal.Base.{
  ℕ, ◌+◌, ◌≡◌, ◌<◌, ◌^◌, List, [], ◌∷◌, Bool, true, false, ◌==◌, if◌then◌else◌, Option, some, none,
}
use seal.KeyServer.MasterKeys.{CommitteeKeyState, MasterKeys, is_next}

-- The task: watching, ended, or panicked.
pub data Task : Type 0 where
  watching finished panicked : Task

-- The version that requests read, and the task.
pub record Updater : Type 0 where
  pub committee_version : ℕ
  pub task : Task

-- The task is started only in a rotation whose target is not reached.
unfoldable pub spawn_committee_version_updater : {Key : Type 0} → MasterKeys Key → Option Updater
spawn_committee_version_updater
      (MasterKeys.committee (CommitteeKeyState.rotation old next target) version) =
    if version == target
    then none
    else some (record { committee_version = version; task = watching })
spawn_committee_version_updater (MasterKeys.committee (CommitteeKeyState.active share) version) =
    none
spawn_committee_version_updater (MasterKeys.open_mode key) = none
spawn_committee_version_updater (MasterKeys.permissioned by_package by_server) = none

-- One observed version; `valid` is whether `fetch_and_validate_committee_partial_pk` returns.
unfoldable pub observe : ℕ → Bool → ℕ → Updater → Updater
observe target valid version updater =
    if version == target
    then (if valid
        then record { committee_version = target; task = finished }
        else record { committee_version = updater.committee_version; task = panicked })
    else (if is_next version target
        then updater
        else record { committee_version = updater.committee_version; task = panicked })

-- What the task awaits: a change of the watched version, with whether the validation of the partial
-- public key would return; or that its channel closes.
pub data Observation : Type 0 where
  version_changed : ℕ → Bool → Observation
  channel_closed : Observation

-- One turn of the loop, while the task runs.
pub data Step (target : ℕ) : Observation → Updater → Updater → Type 0 where
  changed :
      (u : Updater) (valid : Bool) (version : ℕ)
      → u.task ≡ watching
      → Step target (version_changed version valid) u (observe target valid version u)
  closed :
      (u : Updater)
      → u.task ≡ watching
      → Step target channel_closed u
          (record { committee_version = u.committee_version; task = panicked })

-- The states that the task can reach, with what it has observed, the newest first.
pub data Reach (target : ℕ) (start : Updater) : List Observation → Updater → Type 0 where
  here : Reach target start [] start
  next :
      {seen : List Observation} {o : Observation} {u v : Updater}
      → Reach target start seen u
      → Step target o u v
      → Reach target start (o ∷ seen) v

-- A sequence of observed versions, up to the end of the task.
unfoldable pub observe_all : ℕ → Bool → List ℕ → Updater → Updater
observe_all target valid [] updater = updater
observe_all target valid (version ∷ versions) updater =
    let rest = observe_all target valid versions (observe target valid version updater) in
    elim updater.task [ watching ↦ rest | finished ↦ updater | panicked ↦ updater ]
