-- ===== src/Snapshots/Remove.antt =====
-- server/internal/logic/snapshot.go: Get, Current, Released and Delete.
-- Parameters: those of Snapshots; `require` is the permission checker's Require for the permission
-- that the call names, `transact` the engine's TX.
use kirby.Base.{ℕ, String, Bool, true, not, ◌==◌, ◌∷◌, Result, ok, ◌>>=◌, ◌>>◌, fail_if}
use kirby.Store.{Status, same_status, Snapshot, AuditLog, Tables}
use kirby.Publish.Data.{Failure, Actor, missing, conflict}
use kirby.Snapshots.{
  SnapshotStatement, attempt, find_by_id, lock_by_id, find_scoped_config, find_current_for_config,
  find_released_for_config, delete,
}

module _ (fault : SnapshotStatement → Bool) (now : ℕ) (require : ℕ → ℕ → Result Failure (Unit {0}))
    (transact : (Tables → Result Failure Tables) → Tables → Result Failure Tables) where
  unfoldable pub get : Actor → ℕ → ℕ → Tables → Result Failure Snapshot
  unfolding find_by_id
  get actor environment_id snapshot_id t = do
    require actor.user_id environment_id
    find_by_id fault now environment_id snapshot_id t

  unfoldable pub current : Actor → ℕ → ℕ → Tables → Result Failure Snapshot
  unfolding find_current_for_config
  current actor environment_id config_id t = do
    require actor.user_id environment_id
    find_current_for_config fault now environment_id config_id t

  unfoldable pub released : Actor → ℕ → ℕ → Tables → Result Failure Snapshot
  unfolding find_released_for_config
  released actor environment_id config_id t = do
    require actor.user_id environment_id
    find_released_for_config fault now environment_id config_id t

  -- snapshotAudit
  unfoldable pub snapshot_audit : Actor → ℕ → String → ℕ → AuditLog
  snapshot_audit actor environment_id action resource_id = record {
    environment_id = environment_id;
    actor_user_id = actor.user_id;
    action = action;
    resource_type = "snapshot";
    resource_id = resource_id;
    succeeded = true;
    request_id = actor.request_id;
  }

  -- The function that Delete hands to TX.
  unfoldable pub remove_body : Actor → ℕ → ℕ → Snapshot → Tables → Result Failure Tables
  unfolding find_scoped_config lock_by_id delete snapshot_audit
  remove_body actor environment_id snapshot_id found t = do
    config ←
        find_scoped_config fault now SnapshotStatement.lock_config environment_id found.config_id t
    locked ← lock_by_id fault now environment_id snapshot_id t
    fail_if (not (locked.config_id == found.config_id)) (missing "snapshot")
    fail_if locked.is_using (conflict "current snapshot cannot be deleted")
    fail_if (same_status locked.status Status.released)
        (conflict "released snapshot cannot be deleted")
    t1 ← delete fault now environment_id snapshot_id actor.user_id t
    attempt fault now SnapshotStatement.audit_row
    ok (record t1 {
      audits = snapshot_audit actor environment_id "snapshot.delete" snapshot_id ∷ t1.audits;
    })

  unfoldable pub remove : Actor → ℕ → ℕ → Tables → Result Failure Tables
  unfolding find_by_id remove_body
  remove actor environment_id snapshot_id t = do
    require actor.user_id environment_id
    found ← find_by_id fault now environment_id snapshot_id t
    transact (remove_body actor environment_id snapshot_id found) t
