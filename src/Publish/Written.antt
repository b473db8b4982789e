-- ===== src/Publish/Written.antt =====
-- What a publication that succeeds has read and written, statement by statement.
use kirby.Base.{
  ℕ, String, Bool, not, ◌&&◌, ◌==◌, List, ◌∷◌, Option, none, some, ok, ◌≡◌, refl, ap, ◌∙◌, subst,
  >>=-eq-ok, ok-injective, Option-cases, Result, inl, inr, fail_if,
}
use kirby.Schema.Types.{Json}
use kirby.Store.{
  Status, ConfigRow, Snapshot, Tables, find_row, where_rows, update_rows, affected_rows, exists_row,
  in_config_scope, in_snapshot_scope,
}
use kirby.Publish.Data.{
  Statement, Failure, ConfigSnapshot, PublicationRequest, PublicationUpdate, PublicationChange,
  missing, unchanged,
}
use kirby.Publish.Checks.{
  publication_state, validate_change, validate_target, validate_runtime_version,
}
use kirby.Publish.Writes.{
  run, guards, to_released, to_unreleased, increments, next_version, set_released, set_unreleased,
  increment_runtime_version, lock_resources, apply_publication_status, publish_audit,
  persist_publication,
}
use kirby.Publish.Scan.{IsState, publication_state_lem}
use kirby.Publish.{prepare_publication}

abbrev pub of_config : Tables → ℕ → ℕ → Snapshot → Bool
of_config t environment_id config_id s =
    in_snapshot_scope t environment_id s && s.config_id == config_id

-- What preparePublication has established when it returns the change `c`.
pub record IsPrepared (request : PublicationRequest) (config_id : ℕ) (t : Tables)
    (c : PublicationChange) : Type 0 where
  pub asked : c.request ≡ request
  pub located :
      find_row (in_config_scope t request.environment_id config_id) t.configs ≡ some c.config
  pub scanned :
      IsState request.snapshot_id none none
        (where_rows (of_config t request.environment_id config_id) t.snapshots)
        c.target
        c.released
  pub targeted : validate_target c ≡ ok tt
  pub counted : validate_runtime_version c.config.runtime_version ≡ ok tt

abbrev pub bumped : ℕ → ℕ → List ConfigRow → List ConfigRow
bumped now config_id configs =
    update_rows (increments config_id)
      (λ c. record c { runtime_version = next_version c.runtime_version; updated_at = now }) configs

module _ (fault : Statement → Bool) where
  lock_resources_lem :
      (environment_id config_id : ℕ) (t : Tables) {config : ConfigRow} {rows : List Snapshot}
      → lock_resources fault environment_id config_id t ≡ ok (config, rows)
      → (find_row (in_config_scope t environment_id config_id) t.configs ≡ some config)
        × (where_rows (of_config t environment_id config_id) t.snapshots ≡ rows)
  unfolding lock_resources
  lock_resources_lem environment_id config_id t {config = config'} {rows = rows'} h =
      let (_, _, h1) = >>=-eq-ok (run fault Statement.lock_config) _ h in
      elim (Option-cases (find_row (in_config_scope t environment_id config_id) t.configs)) [
        | inl gone ↦ let wrong = rw gone at h1 in cc
        | inr (c, found) ↦
            let (_, _, h2) = >>=-eq-ok (run fault Statement.lock_structures) _ (rw found at h1) in
            let (_, _, h3) = >>=-eq-ok (run fault Statement.lock_enums) _ h2 in
            let (_, _, h4) = >>=-eq-ok (run fault Statement.lock_snapshots) _ h3 in
            let e : (c, where_rows (of_config t environment_id config_id) t.snapshots)
                ≡ (config', rows') =
              ok-injective h4 in
            (
              found ∙ ap (λ (x : ConfigRow × List Snapshot). some (x.0)) e,
              ap (λ (x : ConfigRow × List Snapshot). x.1) e,
            )
      ]

  pub set_released_lem :
      (u : PublicationUpdate) (t : Tables) {t' : Tables}
      → set_released fault u t ≡ ok t'
      → record t {
        snapshots = update_rows (guards Status.unreleased u) (to_released u) t.snapshots;
      }
        ≡ t'
  unfolding set_released
  set_released_lem u t h =
      let (_, _, h1) = >>=-eq-ok (run fault Statement.change_snapshot) _ h in
      let (_, _, h2) =
        >>=-eq-ok
          (fail_if (affected_rows (guards Status.unreleased u) t.snapshots == 0)
            (unchanged "snapshot publication"))
          _ h1 in
      ok-injective h2

  pub set_unreleased_lem :
      (statement : Statement) (u : PublicationUpdate) (t : Tables) {t' : Tables}
      → set_unreleased fault statement u t ≡ ok t'
      → record t {
        snapshots = update_rows (guards Status.released u) (to_unreleased u) t.snapshots;
      }
        ≡ t'
  unfolding set_unreleased
  set_unreleased_lem statement u t h =
      let (_, _, h1) = >>=-eq-ok (run fault statement) _ h in
      let (_, _, h2) =
        >>=-eq-ok
          (fail_if (affected_rows (guards Status.released u) t.snapshots == 0)
            (unchanged "snapshot unpublication"))
          _ h1 in
      ok-injective h2

  pub increment_runtime_version_lem :
      (now environment_id config_id : ℕ) (t : Tables) {t' : Tables}
      → increment_runtime_version fault now environment_id config_id t ≡ ok t'
      → record t { configs = bumped now config_id t.configs } ≡ t'
  unfolding increment_runtime_version
  increment_runtime_version_lem now environment_id config_id t h =
      let (_, _, h1) = >>=-eq-ok (run fault Statement.lock_config_again) _ h in
      let (_, _, h2) =
        >>=-eq-ok
          (fail_if (not (exists_row (in_config_scope t environment_id config_id) t.configs))
            (missing "config"))
          _ h1 in
      let (_, _, h3) = >>=-eq-ok (run fault Statement.increment_runtime) _ h2 in
      let (_, _, h4) =
        >>=-eq-ok
          (fail_if (affected_rows (increments config_id) t.configs == 0)
            (unchanged "config runtime version"))
          _ h3 in
      ok-injective h4

  pub persist_publication_lem :
      (now : ℕ) (c : PublicationChange) (t : Tables) {t' : Tables}
      → persist_publication fault now c t ≡ ok t'
      → (t1 : Tables) × (apply_publication_status fault c t ≡ ok t1)
        × (record t1 {
          configs = bumped now c.config.id t1.configs;
          audits = publish_audit c ∷ t1.audits;
        }
            ≡ t')
  unfolding persist_publication
  persist_publication_lem now c t h =
      let (t1, applied, h1) = >>=-eq-ok (apply_publication_status fault c t) _ h in
      let (t2, counted, h2) =
        >>=-eq-ok (increment_runtime_version fault now c.request.environment_id c.config.id t1) _
          h1 in
      let (_, _, h3) = >>=-eq-ok (run fault Statement.insert_audit) _ h2 in
      let e = increment_runtime_version_lem now c.request.environment_id c.config.id t1 counted in
      (
        t1,
        applied,
        ap (λ (x : Tables). record x { audits = publish_audit c ∷ x.audits }) e ∙ ok-injective h3,
      )

module _ (range_keys : List String → List String) (decode_json : String → Option Json)
    (decode_content : String → Option ConfigSnapshot) (fault : Statement → Bool) (now : ℕ)
    (require : ℕ → ℕ → Result Failure Unit)
    (transact : (Tables → Result Failure (PublicationChange × Tables))
      → Tables
      → Result Failure PublicationChange × Tables) where
  pub prepare_publication-IsPrepared :
      (request : PublicationRequest) (config_id : ℕ) (t : Tables) {c : PublicationChange}
      → prepare_publication range_keys decode_json decode_content fault now require transact request
          config_id t
        ≡ ok c
      → IsPrepared request config_id t c
  unfolding prepare_publication validate_change
  prepare_publication-IsPrepared request config_id t {c = change} h =
      let ((config, rows), locked, h1) =
        >>=-eq-ok (lock_resources fault request.environment_id config_id t) _ h in
      let ((target, released), scanned, h2) =
        >>=-eq-ok (publication_state request.snapshot_id none none rows) _ h1 in
      let candidate : PublicationChange = record {
        request = request;
        config = config;
        target = target;
        released = released;
        changed_at = now;
      } in
      let (_, valid, h3) =
        >>=-eq-ok (validate_change range_keys decode_json decode_content candidate) _ h2 in
      let (_, targeted, valid1) = >>=-eq-ok (validate_target candidate) _ valid in
      let (_, counted, _) = >>=-eq-ok (validate_runtime_version config.runtime_version) _ valid1 in
      let (located, listed) = lock_resources_lem fault request.environment_id config_id t locked in
      subst (IsPrepared request config_id t) (ok-injective h3) (record {
        asked = refl;
        located = located;
        scanned = rw listed (publication_state_lem request.snapshot_id rows none none scanned);
        targeted = targeted;
        counted = counted;
      })
