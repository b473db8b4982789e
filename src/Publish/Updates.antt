-- ===== src/Publish/Updates.antt =====
-- What the updates of a publication make of the rows, and that they leave the scopes alone.
use kirby.Base.{
  ℕ, Bool, true, false, not, ◌&&◌, ◌==◌, List, map, Option, none, some, ok, ◌≡◌, refl, sym, ap, ◌∙◌,
  >>=-eq-ok, ok-injective, Bool-cases, if◌then◌else◌, inl, inr, max_int64,
}
use kirby.Store.{
  Status, same_status, Snapshot, Tables, AuditLog, update_rows, in_snapshot_scope, covers,
}
use kirby.Publish.Data.{Statement, PublicationUpdate, PublicationChange}
use kirby.Publish.Writes.{
  update_for, guards, increments, next_version, to_released, to_unreleased,
  retire_released_snapshot, apply_publication_status,
}
use kirby.Store.Rows.{update_rows-map, map-map, map_id, exists_row-update_rows}
use kirby.Publish.Written.{of_config, set_released_lem, set_unreleased_lem, bumped}

-- What SetReleased and SetUnreleased make of each row.
abbrev pub released_by : PublicationUpdate → Snapshot → Snapshot
released_by u s = if guards Status.unreleased u s then to_released u s else s

abbrev pub unreleased_by : PublicationUpdate → Snapshot → Snapshot
unreleased_by u s = if guards Status.released u s then to_unreleased u s else s

abbrev pub retired_by : PublicationChange → Option Snapshot → Snapshot → Snapshot
retired_by c none s = s
retired_by c (some r) s = unreleased_by (update_for c r) s

-- The configuration's snapshot that is released, as the scope of the environment shows it.
abbrev pub is_published : Tables → ℕ → ℕ → Snapshot → Bool
is_published t environment_id config_id s =
    of_config t environment_id config_id s && same_status s.status Status.released

module _ (fault : Statement → Bool) where
  retired_lem :
      (c : PublicationChange) (r : Option Snapshot) (t : Tables) {t' : Tables}
      → c.released ≡ r
      → retire_released_snapshot fault c t ≡ ok t'
      → record t { snapshots = map (retired_by c r) t.snapshots } ≡ t'
  unfolding retire_released_snapshot
  retired_lem c none t e h =
      let same : t ≡ _ = ok-injective (rw e at h) in rw (map_id t.snapshots) same
  retired_lem c (some r) t e h = elim (Bool-cases (r.version == max_int64)) [
    | inl exhausted ↦ let wrong = rw (e, exhausted, retire_released_snapshot) at h in cc
    | inr counted ↦
        rw
          (← update_rows-map (guards Status.released (update_for c r))
            (to_unreleased (update_for c r)) t.snapshots)
          (set_unreleased_lem fault Statement.retire_snapshot (update_for c r) t
            (rw (e, counted, retire_released_snapshot) at h))
  ]

  pub publish_rows :
      (c : PublicationChange) (t : Tables) {t' : Tables}
      → same_status c.request.status Status.unreleased ≡ false
      → apply_publication_status fault c t ≡ ok t'
      → record t {
        snapshots =
            map (λ s. released_by (update_for c c.target) (retired_by c c.released s)) t.snapshots;
      }
        ≡ t'
  unfolding apply_publication_status
  publish_rows c t publishing h =
      let (t1, retired, h1) =
        >>=-eq-ok (retire_released_snapshot fault c t) _ (rw publishing at h) in
      let old = retired_lem c c.released t refl retired in
      let new = set_released_lem fault (update_for c c.target) t1 h1 in
      let s1 = ap (λ (x : Tables). x.snapshots) old in
      let both =
        update_rows-map (guards Status.unreleased (update_for c c.target))
          (to_released (update_for c c.target)) t1.snapshots
        ∙ ap (map (released_by (update_for c c.target))) (sym s1)
        ∙ map-map (released_by (update_for c c.target)) (retired_by c c.released) t.snapshots in
      ap (λ rows. record t { snapshots = rows }) (sym both)
      ∙ ap
          (λ (x : Tables). record x {
            snapshots =
                update_rows (guards Status.unreleased (update_for c c.target))
                  (to_released (update_for c c.target)) t1.snapshots;
          })
          old
      ∙ new

  pub unpublish_rows :
      (c : PublicationChange) (t : Tables) {t' : Tables}
      → same_status c.request.status Status.unreleased ≡ true
      → apply_publication_status fault c t ≡ ok t'
      → record t { snapshots = map (unreleased_by (update_for c c.target)) t.snapshots } ≡ t'
  unfolding apply_publication_status
  unpublish_rows c t clearing h =
      rw
        (← update_rows-map (guards Status.released (update_for c c.target))
          (to_unreleased (update_for c c.target)) t.snapshots)
        (set_unreleased_lem fault Statement.change_snapshot (update_for c c.target) t
          (rw clearing at h))

module _ (now : ℕ) (t : Tables) (rows : List Snapshot) (log : List AuditLog) where
  abbrev pub after : ℕ → Tables
  after id = record t { snapshots = rows; configs = bumped now id t.configs; audits = log }

  -- The writes of a publication leave the scopes as they are.
  pub of_config-after :
      (environment_id config_id id : ℕ) (s : Snapshot)
      → of_config (after id) environment_id config_id s ≡ of_config t environment_id config_id s
  unfolding in_snapshot_scope covers
  of_config-after environment_id config_id id s =
      rw
        (exists_row-update_rows
          (λ c. c.id == s.config_id && c.project_id == s.project_id && not c.deleted)
          (increments id)
          (λ c. record c { runtime_version = next_version c.runtime_version; updated_at = now })
          (λ c. refl) t.configs)
        refl
