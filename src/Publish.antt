-- ===== src/Publish.antt =====
-- server/internal/logic/publish.go: Publish and Unpublish, from the permission check to the commit.
-- Parameters: `require` is the permission checker's Require for snapshot.publish, `transact` the
-- engine's TX.
use kirby.Base.{
  ℕ, zero, suc, ◌+◌, String, str_eq, Bool, true, false, not, ◌&&◌, ◌||◌, ◌==◌, ltb, eqz, List, [],
  ◌∷◌, Option, none, some, ℤ, pos, negsuc, is_negative, max_int64, Result, ok, err, ◌>>=◌, ◌>>◌,
  fail_if, if◌then◌else◌,
}
use kirby.Schema.Types.{Structure, ConfigEnum, Config, Checked}
use kirby.Schema.Build.{is_some, new_schema}
use kirby.Schema.Values.{is_nil, validate_config}
use kirby.Store.{
  Status, same_status, ConfigRow, Snapshot, AuditLog, Tables, find_row, where_rows, update_rows,
  affected_rows, exists_row, in_config_scope, in_snapshot_scope,
}
use kirby.Schema.Types.{Json}
use kirby.Publish.Data.{
  Statement, Failure, Actor, ConfigSnapshot, PublicationRequest, PublicationUpdate,
  PublicationChange, CleanupKey, missing, unchanged, conflict, invalid, database, schema,
}
use kirby.Publish.Checks.{publication_state, validate_change}
use kirby.Publish.Writes.{run, lock_resources, persist_publication, change_result, cleanup_key}
pub mod Data
pub mod Checks
pub mod Writes
pub mod Scan
pub mod Written
pub mod Updates
pub mod Release
pub mod Retract
pub mod Outcome
pub mod Committed
pub mod Advance

module _ (range_keys : List String → List String) (decode_json : String → Option Json)
    (decode_content : String → Option ConfigSnapshot) (fault : Statement → Bool) (now : ℕ)
    (require : ℕ → ℕ → Result Failure Unit)
    (transact : (Tables → Result Failure (PublicationChange × Tables))
      → Tables
      → Result Failure PublicationChange × Tables) where
  -- publicationRequest and FindByID
  unfoldable pub authorized_snapshot : PublicationRequest → Tables → Result Failure Snapshot
  unfolding find_row in_snapshot_scope
  authorized_snapshot request t = do
    require request.actor.user_id request.environment_id
    run fault Statement.find_snapshot
    elim (find_row
        (λ s. in_snapshot_scope t request.environment_id s && s.id == request.snapshot_id)
        t.snapshots) [ none ↦ err (missing "snapshot") | some s ↦ ok s ]

  unfoldable pub prepare_publication :
      PublicationRequest → ℕ → Tables → Result Failure PublicationChange
  unfolding lock_resources publication_state validate_change
  prepare_publication request config_id t = do
    (config, snapshots) ← lock_resources fault request.environment_id config_id t
    (target, released) ← publication_state request.snapshot_id none none snapshots
    let change : PublicationChange = record {
      request = request;
      config = config;
      target = target;
      released = released;
      changed_at = now;
    }
    validate_change range_keys decode_json decode_content change
    ok change

  -- The function that changePublication hands to TX.
  unfoldable pub publication_body :
      PublicationRequest → ℕ → Tables → Result Failure (PublicationChange × Tables)
  unfolding prepare_publication persist_publication
  publication_body request config_id t = do
    change ← prepare_publication request config_id t
    t1 ← persist_publication fault now change t
    ok (change, t1)

  -- The caller's result, the tables, and the cache entries to delete.
  unfoldable pub returned :
      Result Failure PublicationChange × Tables
      → Result Failure Snapshot × (Tables × List CleanupKey)
  unfolding change_result cleanup_key
  returned (err e, t) = (err e, (t, []))
  returned (ok change, t) = (ok (change_result change), (t, cleanup_key change ∷ []))

  -- changePublication, from the authorized snapshot on.
  unfoldable pub change_found :
      PublicationRequest
      → Tables
      → Result Failure Snapshot
      → Result Failure Snapshot × (Tables × List CleanupKey)
  unfolding publication_body returned
  change_found request t (err e) = (err e, (t, []))
  change_found request t (ok found) =
      returned (transact (publication_body request found.config_id) t)

  unfoldable pub change_publication :
      PublicationRequest → Tables → Result Failure Snapshot × (Tables × List CleanupKey)
  unfolding authorized_snapshot change_found
  change_publication request t = change_found request t (authorized_snapshot request t)

  unfoldable pub publish :
      Actor → ℕ → ℕ → ℕ → Tables → Result Failure Snapshot × (Tables × List CleanupKey)
  unfolding change_publication
  publish actor environment_id snapshot_id expected_version = change_publication (record {
    actor = actor;
    environment_id = environment_id;
    snapshot_id = snapshot_id;
    expected_version = expected_version;
    status = Status.released;
  })

  unfoldable pub unpublish :
      Actor → ℕ → ℕ → ℕ → Tables → Result Failure Snapshot × (Tables × List CleanupKey)
  unfolding change_publication
  unpublish actor environment_id snapshot_id expected_version = change_publication (record {
    actor = actor;
    environment_id = environment_id;
    snapshot_id = snapshot_id;
    expected_version = expected_version;
    status = Status.unreleased;
  })
