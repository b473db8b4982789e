-- ===== src/Publish/Data.antt =====
-- The requests, changes and errors of server/internal/logic/publish.go and the update record of
-- server/internal/repository/snapshot_publish.go.
use kirby.Base.{ℕ, String, List, Option, ℤ}
use kirby.Schema.Types.{Structure, ConfigEnum, Config, Error}
use kirby.Store.{Status, ConfigRow, Snapshot}

-- The statements of one publication, in the order in which they run.
pub data Statement : Type 0 where
  find_snapshot lock_config lock_structures lock_enums lock_snapshots : Statement
  retire_snapshot change_snapshot lock_config_again increment_runtime insert_audit commit :
      Statement

pub data Failure : Type 0 where
  denied database : Failure
  missing unchanged : String → Failure
  conflict invalid : String → Failure
  schema : Error → Failure

pub record Actor : Type 0 where
  pub user_id : ℕ
  pub request_id : String

-- entity.ConfigSnapshot; its tree is not read here.
pub record ConfigSnapshot : Type 0 where
  pub config : Option Config
  pub structures : List (Option Structure)
  pub enums : List (Option ConfigEnum)

pub record PublicationRequest : Type 0 where
  pub actor : Actor
  pub environment_id : ℕ
  pub snapshot_id : ℕ
  pub expected_version : ℕ
  pub status : Status

-- SnapshotPublicationUpdate
pub record PublicationUpdate : Type 0 where
  pub config_id : ℕ
  pub snapshot_id : ℕ
  pub expected_version : ℕ
  pub updated_by : ℕ
  pub changed_at : ℕ

pub record PublicationChange : Type 0 where
  pub request : PublicationRequest
  pub config : ConfigRow
  pub target : Snapshot
  pub released : Option Snapshot
  pub changed_at : ℕ

pub record CleanupKey : Type 0 where
  pub project_id : ℕ
  pub config_key : String
  pub runtime_version : ℤ
