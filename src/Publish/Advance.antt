-- ===== src/Publish/Advance.antt =====
-- A publication moves the runtime version of its configuration to the next one.
use mathlib.Core.List.{Memᴰ}
use kirby.Base.{
  ℕ, suc, ◌+◌, String, Bool, true, ◌==◌, leb, List, [], ◌∷◌, Option, some, ok, ◌≡◌, refl, sym, ap,
  ◌∙◌, subst, Bool-cases, Result, inl, inr, arith, ◌⊎◌, ℤ, pos, negsuc, max_int64, ◌<◌, err,
}
use kirby.Schema.Types.{Json}
use kirby.Store.{
  Status, same_status, ConfigRow, Snapshot, Tables, find_row, in_config_scope, covers,
}
use kirby.Publish.Data.{
  Statement, Failure, ConfigSnapshot, PublicationRequest, PublicationChange, CleanupKey,
}
use kirby.Publish.Checks.{validate_runtime_version}
use kirby.Publish.Writes.{
  change_result, cleanup_key, increments, next_version, apply_publication_status,
}
use kirby.Store.Rows.{find_row_lem, find_row-update_rows}
use kirby.Publish.Written.{IsPrepared, persist_publication_lem}
use kirby.Publish.Updates.{publish_rows, unpublish_rows}
use kirby.Publish.Committed.{change_publication-IsCommitted}
use kirby.Publish.Outcome.{target_config, written}
use kirby.Publish.{change_publication}

-- The values of a bigint column.
abbrev pub is_int64 : ℤ → Bool
is_int64 (pos n) = leb n max_int64
is_int64 (negsuc n) = leb n max_int64

validate_runtime_version_lem :
    (v : ℤ)
    → is_int64 v ≡ true
    → validate_runtime_version v ≡ ok tt
    → (n : ℕ) × (v ≡ pos n) × (n < max_int64)
unfolding validate_runtime_version
validate_runtime_version_lem (negsuc n) fits h = cc
validate_runtime_version_lem (pos n) fits h = elim (Bool-cases (n == max_int64)) [
  | inl exhausted ↦ let wrong = rw (exhausted, validate_runtime_version) at h in cc
  | inr left ↦ (n, refl, ground (arith, fits, left))
]

-- The configuration had a runtime version that is left, and now has the next; the key of the cache
-- entry to delete is the one it had.
pub record IsAdvanced (environment_id config_id : ℕ) (t t' : Tables) (ks : List CleanupKey)
    : Type 0 where
  pub before : ConfigRow
  pub version : ℕ
  pub located : find_row (in_config_scope t environment_id config_id) t.configs ≡ some before
  pub counted : before.runtime_version ≡ pos version
  pub bounded : version < max_int64
  pub after : ConfigRow
  pub located_after : find_row (in_config_scope t' environment_id config_id) t'.configs ≡ some after
  pub advanced : after.runtime_version ≡ pos (suc version)
  pub obsolete :
      ks
      ≡ record {
        project_id = before.project_id;
        config_key = before.key;
        runtime_version = pos version;
      }
        ∷ []

IsAdvanced-written :
    (now : ℕ) (request : PublicationRequest) (config_id : ℕ) (t : Tables) (c : PublicationChange)
    (rows : List Snapshot)
    → is_int64 c.config.runtime_version ≡ true
    → IsPrepared request config_id t c
    → IsAdvanced request.environment_id config_id t
        (written now c (record t { snapshots = rows }))
        (cleanup_key c ∷ [])
unfolding cleanup_key in_config_scope covers
IsAdvanced-written now request config_id t c rows fits p =
    let (n, counted, bounded) =
      validate_runtime_version_lem c.config.runtime_version fits p.counted in
    let (shown, _) =
      find_row_lem (in_config_scope t request.environment_id config_id) t.configs p.located in
    let hit : increments c.config.id c.config ≡ true =
      rw counted (ground (arith, shown, bounded)) in
    record {
      before = c.config;
      version = n;
      located = p.located;
      counted = counted;
      bounded = bounded;
      after = record (c.config) {
        runtime_version = next_version c.config.runtime_version;
        updated_at = now;
      };
      located_after =
          find_row-update_rows (in_config_scope t request.environment_id config_id)
            (increments c.config.id)
            (λ x. record x { runtime_version = next_version x.runtime_version; updated_at = now })
            (λ x. refl) t.configs p.located
          ∙ rw hit refl;
      advanced = (let e : n + 1 ≡ suc n = omega arith in ap next_version counted ∙ ap pos e);
      obsolete = rw counted refl;
    }

module _ (range_keys : List String → List String) (decode_json : String → Option Json)
    (decode_content : String → Option ConfigSnapshot) (fault : Statement → Bool) (now : ℕ)
    (require : ℕ → ℕ → Result Failure Unit)
    (transact : (Tables → Result Failure (PublicationChange × Tables))
      → Tables
      → Result Failure PublicationChange × Tables)
    -- A transaction fails and leaves the tables, or commits what its body returns.
    (transact_commits : (body : Tables → Result Failure (PublicationChange × Tables)) (t : Tables)
      → ((e : Failure) × (transact body t ≡ (err e, t)))
        ⊎ ((c : PublicationChange) × (t' : Tables) × (body t ≡ ok (c, t'))
            × (transact body t ≡ (ok c, t')))) where
  applied_rows :
      (c : PublicationChange) (t : Tables) {t' : Tables}
      → apply_publication_status fault c t ≡ ok t'
      → (rows : List Snapshot) × (record t { snapshots = rows } ≡ t')
  applied_rows c t h = elim (Bool-cases (same_status c.request.status Status.unreleased)) [
    | inl clearing ↦ (_, unpublish_rows fault c t clearing h)
    | inr publishing ↦ (_, publish_rows fault c t publishing h)
  ]

  -- A change of the publication that returns a snapshot moves the runtime version of its
  -- configuration from a number below the largest int64 to the next, and has the cache entry of the
  -- old version deleted. The versions of the table are int64 values.
  pub change_publication-IsAdvanced :
      (request : PublicationRequest) (t : Tables) {s : Snapshot} {t' : Tables}
      {ks : List CleanupKey}
      → ((c : ConfigRow) → Memᴰ c t.configs → is_int64 c.runtime_version ≡ true)
      → change_publication range_keys decode_json decode_content fault now require transact request
          t
        ≡ (ok s, (t', ks))
      → IsAdvanced request.environment_id s.config_id t t' ks
  unfolding change_result
  change_publication-IsAdvanced request t {t' = left} {ks = keys} fits h =
      let k =
        change_publication-IsCommitted range_keys decode_json decode_content fault now require
          transact transact_commits request t h in
      let c = k.change in
      let (t1, applied, e) = persist_publication_lem fault now c t k.persisted in
      let (rows, same) = applied_rows c t applied in
      let (_, listed) = find_row_lem _ t.configs k.prepared.located in
      let advanced =
        IsAdvanced-written now request k.config_id t c rows (fits c.config listed) k.prepared in
      subst (λ x. IsAdvanced request.environment_id x.config_id t left keys) k.answered
        (subst (λ id. IsAdvanced request.environment_id id t left keys)
          (sym (target_config now request k.config_id t c k.prepared))
          (subst (λ x. IsAdvanced request.environment_id k.config_id t x keys)
            (ap (written now c) same ∙ e)
            (subst (IsAdvanced request.environment_id k.config_id t _) k.obsolete advanced)))
