-- ===== src/Publish/Outcome.antt =====
-- The tables that a prepared publication leaves when all of its statements have run.
use mathlib.Core.List.{Memᴰ}
use mathlib.Core.List.Memᴰ
use kirby.Base.{
  ℕ, true, false, ◌&&◌, ◌==◌, ==_iff, List, ◌∷◌, map, ◌≡◌, refl, ap, ◌∙◌, subst, inl, inr, arith,
}
use kirby.Store.{Status, same_status, Snapshot, Tables, AuditLog}
use kirby.Publish.Data.{PublicationRequest, PublicationChange}
use kirby.Publish.Writes.{change_result, update_for, to_released, publish_audit}
use kirby.Publish.Scan.{IsKeyed}
use kirby.Store.Rows.{Memᴰ-where_rows}
use kirby.Publish.Written.{of_config, bumped, IsPrepared}
use kirby.Publish.Updates.{is_published, unreleased_by, of_config-after, after}
use kirby.Publish.Release.{row, row-target, row-published, target_listed, target_named}
use kirby.Publish.Retract.{cleared-unpublished}

-- The snapshots of the tables `t'` after the publication of `id` that returned `s`.
abbrev pub IsReleased : ℕ → ℕ → Snapshot → Tables → Type 0
IsReleased environment_id id s t' =
    Memᴰ s t'.snapshots
    × ((s.id == id) ≡ true)
    × ((r : Snapshot)
        → Memᴰ r t'.snapshots
        → is_published t' environment_id s.config_id r ≡ (r.id == id))

abbrev pub IsCleared : ℕ → Snapshot → Tables → Type 0
IsCleared environment_id s t' =
    (r : Snapshot) → Memᴰ r t'.snapshots → is_published t' environment_id s.config_id r ≡ false

-- The tables after the last two statements.
abbrev pub written : ℕ → PublicationChange → Tables → Tables
written now c t = record t {
  configs = bumped now c.config.id t.configs;
  audits = publish_audit c ∷ t.audits;
}

module _ (now : ℕ) (request : PublicationRequest) (config_id : ℕ) (t : Tables)
    (c : PublicationChange) (p : IsPrepared request config_id t c) where
  pub target_config : c.target.config_id ≡ config_id
  target_config = elim p.scanned.found [
    | inl wrong ↦ cc
    | inr (m, _) ↦
        let shown =
          (Memᴰ-where_rows (of_config t request.environment_id config_id) t.snapshots m).1 in
        (==_iff c.target.config_id config_id).0 (ground (arith, shown))
  ]

  is_published-after :
      (rows : List Snapshot) (log : List AuditLog) (id : ℕ) (r : Snapshot)
      → is_published (after now t rows log id) request.environment_id c.target.config_id r
        ≡ (of_config t request.environment_id config_id r && same_status r.status Status.released)
  is_published-after rows log id r =
      ap (λ b. b && same_status r.status Status.released)
        (of_config-after now t rows log request.environment_id c.target.config_id id r
          ∙ ap (λ k. of_config t request.environment_id k r) target_config)

  pub IsReleased-after :
      (publishing : c.request.status ≡ Status.released)
      → IsKeyed t.snapshots
      → IsReleased request.environment_id request.snapshot_id (change_result c) (
          after now t
            (map (row request config_id t c p publishing) t.snapshots)
            (publish_audit c ∷ t.audits)
            c.config.id)
  unfolding change_result to_released update_for
  IsReleased-after publishing keyed =
      let change = row request config_id t c p publishing in
      let (listed, shown) = target_listed request config_id t c p publishing in
      let answer : to_released (update_for c c.target) c.target ≡ change_result c =
        rw publishing refl in
      (
        subst (λ r. Memᴰ r (map change t.snapshots))
            (row-target request config_id t c p publishing ∙ answer) (Memᴰ.map change listed),
        target_named request config_id t c p publishing,
        λ r m.
            let (q, old, e) = Memᴰ.of_map change t.snapshots m in
            subst
              (λ x.
                is_published
                  (after now t (map change t.snapshots) (publish_audit c ∷ t.audits) c.config.id)
                  request.environment_id c.target.config_id x
                ≡ (x.id == request.snapshot_id))
              e
              (is_published-after (map change t.snapshots) (publish_audit c ∷ t.audits) c.config.id
                  (change q)
                ∙ row-published request config_id t c p publishing keyed q old),
      )

  pub IsCleared-after :
      c.request.status ≡ Status.unreleased
      → IsCleared request.environment_id (change_result c) (
          after now t
            (map (unreleased_by (update_for c c.target)) t.snapshots)
            (publish_audit c ∷ t.audits)
            c.config.id)
  unfolding change_result
  IsCleared-after clearing r m =
      let change = unreleased_by (update_for c c.target) in
      let (q, old, e) = Memᴰ.of_map change t.snapshots m in
      subst
        (λ x.
          is_published
            (after now t (map change t.snapshots) (publish_audit c ∷ t.audits) c.config.id)
            request.environment_id c.target.config_id x
          ≡ false)
        e
        (is_published-after (map change t.snapshots) (publish_audit c ∷ t.audits) c.config.id
            (change q)
          ∙ cleared-unpublished request config_id t c p clearing q old)
