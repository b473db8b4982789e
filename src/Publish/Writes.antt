-- ===== src/Publish/Writes.antt =====
-- The writes of server/internal/logic/publish.go and the statements of
-- server/internal/repository/snapshot_publish.go that run them.
-- Parameters: `fault` says which statement the database fails, `now` is the clock.
use kirby.Base.{
  ℕ, zero, suc, ◌+◌, String, Bool, true, not, ◌&&◌, ◌==◌, ltb, List, ◌∷◌, none, some, ℤ, pos,
  negsuc, max_int64, Result, ok, err, ◌>>=◌, ◌>>◌, fail_if, if◌then◌else◌,
}
use kirby.Store.{
  Status, same_status, ConfigRow, Snapshot, AuditLog, Tables, find_row, where_rows, update_rows,
  affected_rows, exists_row, in_config_scope, in_snapshot_scope,
}
use kirby.Publish.Data.{
  Statement, Failure, PublicationUpdate, PublicationChange, CleanupKey, missing, unchanged,
  conflict, database,
}

unfoldable pub update_for : PublicationChange → Snapshot → PublicationUpdate
update_for c s = record {
  config_id = c.config.id;
  snapshot_id = s.id;
  expected_version = s.version;
  updated_by = c.request.actor.user_id;
  changed_at = c.changed_at;
}

-- The WHERE clause of SetReleased and SetUnreleased; `from` is the status that they replace.
unfoldable pub guards : Status → PublicationUpdate → Snapshot → Bool
guards from u s =
    not s.deleted
    && s.id == u.snapshot_id
    && s.config_id == u.config_id
    && same_status s.status from
    && s.version == u.expected_version

unfoldable pub to_released : PublicationUpdate → Snapshot → Snapshot
to_released u s = record s {
  status = Status.released;
  published_at = some u.changed_at;
  published_by = some u.updated_by;
  updated_by = u.updated_by;
  updated_at = u.changed_at;
  version = u.expected_version + 1;
}

unfoldable pub to_unreleased : PublicationUpdate → Snapshot → Snapshot
to_unreleased u s = record s {
  status = Status.unreleased;
  published_at = none;
  published_by = none;
  updated_by = u.updated_by;
  updated_at = u.changed_at;
  version = u.expected_version + 1;
}

-- A version as a statement increments it, at values below the largest int64; in SQL the sum beyond
-- that is an error of the statement, which is a case of `fault`.
abbrev pub next_version : ℤ → ℤ
next_version (pos n) = pos (n + 1)
next_version (negsuc zero) = pos 0
next_version (negsuc (suc n)) = negsuc n

abbrev below_max : ℤ → Bool
below_max (pos n) = ltb n max_int64
below_max (negsuc n) = true

unfoldable pub audit_action : Status → String
audit_action Status.released = "snapshot.publish"
audit_action _ = "snapshot.unpublish"

unfoldable pub publish_audit : PublicationChange → AuditLog
unfolding audit_action
publish_audit c = record {
  environment_id = c.request.environment_id;
  actor_user_id = c.request.actor.user_id;
  action = audit_action c.request.status;
  resource_type = "snapshot";
  resource_id = c.target.id;
  succeeded = true;
  request_id = c.request.actor.request_id;
}

-- change.result: the committed snapshot as it is returned.
unfoldable pub change_result : PublicationChange → Snapshot
change_result c =
    let is_released = same_status c.request.status Status.released in
    record (c.target) {
      status = c.request.status;
      published_at = (if is_released then some c.changed_at else none);
      published_by = (if is_released then some c.request.actor.user_id else none);
      updated_by = c.request.actor.user_id;
      updated_at = c.changed_at;
      version = c.target.version + 1;
    }

-- The cache entry that the commit makes obsolete.
unfoldable pub cleanup_key : PublicationChange → CleanupKey
cleanup_key c = record {
  project_id = c.config.project_id;
  config_key = c.config.key;
  runtime_version = c.config.runtime_version;
}

abbrev pub increments : ℕ → ConfigRow → Bool
increments config_id c = not c.deleted && c.id == config_id && below_max c.runtime_version

module _ (fault : Statement → Bool) where
  abbrev pub run : Statement → Result Failure Unit
  run s = fail_if (fault s) database

  unfoldable pub set_released : PublicationUpdate → Tables → Result Failure Tables
  unfolding guards to_released affected_rows update_rows
  set_released u t = do
    run Statement.change_snapshot
    fail_if (affected_rows (guards Status.unreleased u) t.snapshots == 0)
        (unchanged "snapshot publication")
    ok (record t {
      snapshots = update_rows (guards Status.unreleased u) (to_released u) t.snapshots;
    })

  unfoldable pub set_unreleased : Statement → PublicationUpdate → Tables → Result Failure Tables
  unfolding guards to_unreleased affected_rows update_rows
  set_unreleased statement u t = do
    run statement
    fail_if (affected_rows (guards Status.released u) t.snapshots == 0)
        (unchanged "snapshot unpublication")
    ok (record t {
      snapshots = update_rows (guards Status.released u) (to_unreleased u) t.snapshots;
    })

  unfoldable pub lock_resources : ℕ → ℕ → Tables → Result Failure (ConfigRow × List Snapshot)
  unfolding find_row in_config_scope where_rows in_snapshot_scope
  lock_resources environment_id config_id t = do
    run Statement.lock_config
    elim (find_row (in_config_scope t environment_id config_id) t.configs) [
      | none ↦ err (missing "config")
      | some config ↦ do
        run Statement.lock_structures
        run Statement.lock_enums
        run Statement.lock_snapshots
        ok (
          config,
          where_rows (λ s. in_snapshot_scope t environment_id s && s.config_id == config_id)
              t.snapshots,
        )
    ]

  unfoldable pub increment_runtime_version : ℕ → ℕ → ℕ → Tables → Result Failure Tables
  unfolding affected_rows update_rows exists_row in_config_scope
  increment_runtime_version now environment_id config_id t = do
    run Statement.lock_config_again
    fail_if (not (exists_row (in_config_scope t environment_id config_id) t.configs))
        (missing "config")
    run Statement.increment_runtime
    fail_if (affected_rows (increments config_id) t.configs == 0)
        (unchanged "config runtime version")
    ok (record t {
      configs =
          update_rows (increments config_id)
            (λ c. record c { runtime_version = next_version c.runtime_version; updated_at = now })
            t.configs;
    })

  -- retireReleasedSnapshot
  unfoldable pub retire_released_snapshot : PublicationChange → Tables → Result Failure Tables
  unfolding set_unreleased update_for
  retire_released_snapshot c t = elim c.released [
    | none ↦ ok t
    | some s ↦
        if s.version == max_int64
        then err (conflict "released snapshot version is exhausted")
        else set_unreleased Statement.retire_snapshot (update_for c s) t
  ]

  unfoldable pub apply_publication_status : PublicationChange → Tables → Result Failure Tables
  unfolding retire_released_snapshot set_released set_unreleased update_for
  apply_publication_status c t =
      if same_status c.request.status Status.unreleased
      then set_unreleased Statement.change_snapshot (update_for c c.target) t
      else (retire_released_snapshot c t >>= set_released (update_for c c.target))

  unfoldable pub persist_publication : ℕ → PublicationChange → Tables → Result Failure Tables
  unfolding apply_publication_status increment_runtime_version publish_audit
  persist_publication now c t = do
    t1 ← apply_publication_status c t
    t2 ← increment_runtime_version now c.request.environment_id c.config.id t1
    run Statement.insert_audit
    ok (record t2 { audits = publish_audit c ∷ t2.audits })
