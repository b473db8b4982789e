-- ===== src/Snapshots.antt =====
-- server/internal/repository/snapshot.go.
-- Parameters: `fault` says which statement the database fails, `now` is the clock; `next_id` is the
-- ID that the table gives a new row, `ascending` ORDER BY over IDs.
pub mod Current
pub mod Remove
pub mod Removed
use kirby.Base.{
  ℕ, suc, ◌+◌, String, Bool, true, false, not, ◌&&◌, ◌||◌, ◌==◌, List, [], ◌∷◌, ◌++◌, Option, none,
  some, Result, ok, err, ◌>>=◌, ◌>>◌, fail_if, if◌then◌else◌, map,
}
use kirby.Store.{
  Status, same_status, ConfigRow, Snapshot, AuditLog, Tables, find_row, where_rows, update_rows,
  affected_rows, exists_row, in_config_scope, in_snapshot_scope,
}
use kirby.Publish.Data.{Failure, Actor, missing, unchanged, conflict, database}

pub data SnapshotStatement : Type 0 where
  insert_snapshot find_snapshot lock_snapshot search_config list_released : SnapshotStatement
  delete_row find_config lock_config find_member clear_current mark_current audit_row :
      SnapshotStatement

-- OrderBy("s.id DESC") with Get: the last row, since a table lists its rows by ascending ID.
unfoldable pub last_row : {A : Type 0} → List A → Option A
last_row [] = none
last_row (r ∷ []) = some r
last_row (r ∷ q ∷ rows) = last_row (q ∷ rows)

-- DISTINCT over ascending IDs: a value is listed where it is new.
unfoldable pub distinct : List ℕ → List ℕ
distinct [] = []
distinct (i ∷ []) = i ∷ []
distinct (i ∷ j ∷ is) = let rest = distinct (j ∷ is) in if i == j then rest else i ∷ rest

module _ (fault : SnapshotStatement → Bool) (now : ℕ) where
  abbrev pub attempt : SnapshotStatement → Result Failure (Unit {0})
  attempt s = fail_if (fault s) database

  abbrev pub initial : ℕ → ℕ → ℕ → Snapshot → Snapshot
  initial next_id project_id config_id s = record s {
    id = next_id;
    project_id = project_id;
    config_id = config_id;
    status = Status.unreleased;
    is_using = false;
    version = 1;
    updated_at = now;
    deleted = false;
  }

  unfoldable pub create : ℕ → ℕ → ℕ → Snapshot → Tables → Result Failure (Snapshot × Tables)
  create next_id project_id config_id s t = do
    attempt SnapshotStatement.insert_snapshot
    let row = initial next_id project_id config_id s
    ok (row, record t { snapshots = t.snapshots ++ row ∷ [] })

  unfoldable pub find_scoped : SnapshotStatement → ℕ → ℕ → Tables → Result Failure Snapshot
  unfolding find_row in_snapshot_scope
  find_scoped statement environment_id snapshot_id t = do
    attempt statement
    elim (find_row (λ s. in_snapshot_scope t environment_id s && s.id == snapshot_id) t.snapshots) [
      | none ↦ err (missing "snapshot")
      | some s ↦ ok s
    ]

  unfoldable pub find_by_id : ℕ → ℕ → Tables → Result Failure Snapshot
  unfolding find_scoped
  find_by_id environment_id snapshot_id t =
      find_scoped SnapshotStatement.find_snapshot environment_id snapshot_id t

  unfoldable pub lock_by_id : ℕ → ℕ → Tables → Result Failure Snapshot
  unfolding find_scoped
  lock_by_id environment_id snapshot_id t =
      find_scoped SnapshotStatement.lock_snapshot environment_id snapshot_id t

  unfoldable pub find_for_config :
      ℕ → ℕ → (Snapshot → Bool) → String → Tables → Result Failure Snapshot
  unfolding last_row where_rows in_snapshot_scope
  find_for_config environment_id config_id condition resource t = do
    attempt SnapshotStatement.search_config
    elim (last_row (
        where_rows
          (λ s. in_snapshot_scope t environment_id s && s.config_id == config_id && condition s)
          t.snapshots)) [ none ↦ err (missing resource) | some s ↦ ok s ]

  unfoldable pub find_released_for_config : ℕ → ℕ → Tables → Result Failure Snapshot
  unfolding find_for_config
  find_released_for_config environment_id config_id =
      find_for_config environment_id config_id (λ s. same_status s.status Status.released)
        "released snapshot"

  unfoldable pub find_current_for_config : ℕ → ℕ → Tables → Result Failure Snapshot
  unfolding find_for_config
  find_current_for_config environment_id config_id =
      find_for_config environment_id config_id (λ s. s.is_using) "current snapshot"

  unfoldable pub find_any_for_config : ℕ → ℕ → Tables → Result Failure Snapshot
  unfolding find_for_config
  find_any_for_config environment_id config_id =
      find_for_config environment_id config_id (λ s. true) "snapshot"

  unfoldable pub list_released_config_ids :
      (List ℕ → List ℕ) → ℕ → ℕ → Tables → Result Failure (List ℕ)
  unfolding where_rows in_snapshot_scope distinct
  list_released_config_ids ascending environment_id project_id t = do
    attempt SnapshotStatement.list_released
    let rows =
        where_rows
          (λ s.
            in_snapshot_scope t environment_id s
            && s.project_id == project_id
            && same_status s.status Status.released)
          t.snapshots
    ok (distinct (ascending (map (λ s. s.config_id) rows)))

  -- The WHERE clause of Delete.
  unfoldable pub deletable : ℕ → Snapshot → Bool
  deletable snapshot_id s =
      not s.deleted && s.id == snapshot_id && same_status s.status Status.unreleased

  unfoldable pub deleted_by : ℕ → Snapshot → Snapshot
  deleted_by updated_by s = record s {
    version = s.version + 1;
    deleted = true;
    updated_by = updated_by;
    updated_at = now;
  }

  unfoldable pub delete : ℕ → ℕ → ℕ → Tables → Result Failure Tables
  unfolding find_by_id deletable deleted_by affected_rows update_rows
  delete environment_id snapshot_id updated_by t = do
    found ← find_by_id environment_id snapshot_id t
    attempt SnapshotStatement.delete_row
    fail_if (affected_rows (deletable snapshot_id) t.snapshots == 0) (unchanged "snapshot")
    ok (record t {
      snapshots = update_rows (deletable snapshot_id) (deleted_by updated_by) t.snapshots;
    })

  unfoldable pub find_scoped_config : SnapshotStatement → ℕ → ℕ → Tables → Result Failure ConfigRow
  unfolding find_row in_config_scope
  find_scoped_config statement environment_id config_id t = do
    attempt statement
    elim (find_row (in_config_scope t environment_id config_id) t.configs) [
      | none ↦ err (missing "config")
      | some c ↦ ok c
    ]

  abbrev pub belongs : ℕ → ℕ → Snapshot → Bool
  belongs config_id project_id s =
      not s.deleted && s.config_id == config_id && s.project_id == project_id

  unfoldable pub marked : Bool → ℕ → Snapshot → Snapshot
  marked using updated_by s = record s {
    version = s.version + 1;
    is_using = using;
    updated_by = updated_by;
    updated_at = now;
  }

  abbrev pub is_other_current : ℕ → ℕ → ℕ → Snapshot → Bool
  is_other_current config_id project_id snapshot_id s =
      belongs config_id project_id s && not (s.id == snapshot_id) && s.is_using

  abbrev pub is_member : ℕ → ℕ → ℕ → Snapshot → Bool
  is_member config_id project_id snapshot_id s =
      belongs config_id project_id s && s.id == snapshot_id

  unfoldable pub set_current : ℕ → ℕ → ℕ → ℕ → Tables → Result Failure Tables
  unfolding find_scoped_config exists_row update_rows affected_rows marked
  set_current environment_id config_id snapshot_id updated_by t = do
    config ← find_scoped_config SnapshotStatement.find_config environment_id config_id t
    attempt SnapshotStatement.find_member
    fail_if (not (exists_row (is_member config_id config.project_id snapshot_id) t.snapshots))
        (missing "snapshot")
    attempt SnapshotStatement.clear_current
    let cleared =
        update_rows (is_other_current config_id config.project_id snapshot_id)
          (marked false updated_by) t.snapshots
    attempt SnapshotStatement.mark_current
    fail_if (affected_rows (is_member config_id config.project_id snapshot_id) cleared == 0)
        (unchanged "current snapshot")
    ok (record t {
      snapshots =
          update_rows (is_member config_id config.project_id snapshot_id) (marked true updated_by)
            cleared;
    })
