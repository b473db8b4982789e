-- ===== src/Publish/Retract.antt =====
-- After Unpublish no snapshot of the configuration is released.
use mathlib.Core.List.{Memᴰ}
use kirby.Base.{ℕ, true, false, ◌&&◌, ◌==◌, ◌≡◌, subst, Bool-cases, inl, inr, arith}
use kirby.Store.{Status, same_status, Snapshot, Tables, where_rows}
use kirby.Publish.Data.{PublicationRequest, PublicationChange}
use kirby.Publish.Writes.{update_for, guards, to_unreleased}
use kirby.Store.Rows.{where_rows-Memᴰ}
use kirby.Publish.Written.{of_config, IsPrepared}
use kirby.Publish.Updates.{unreleased_by}
use kirby.Publish.Release.{validate_target_lem, released_guarded}

-- The rows after the one update of an unpublication.
module _ (request : PublicationRequest) (config_id : ℕ) (t : Tables) (c : PublicationChange)
    (p : IsPrepared request config_id t c) (clearing : c.request.status ≡ Status.unreleased) where
  target_not_unreleased : same_status c.target.status Status.unreleased ≡ false
  target_not_unreleased = rw (← clearing) (validate_target_lem c p.targeted).0

  pub found_target :
      Memᴰ c.target (where_rows (of_config t request.environment_id config_id) t.snapshots)
      × ((c.target.id == request.snapshot_id) ≡ true)
  found_target = elim p.scanned.found [ inl wrong ↦ cc | inr found ↦ found ]

  pub target_released : same_status c.target.status Status.released ≡ true
  target_released = elim (Bool-cases (same_status c.target.status Status.released)) [
    | inl out ↦ out
    | inr other ↦
        let wrong = p.scanned.supported c.target found_target.0 other in
        let not_it = target_not_unreleased in cc
  ]

  pub cleared-unpublished :
      (s : Snapshot)
      → Memᴰ s t.snapshots
      → (of_config t request.environment_id config_id (unreleased_by (update_for c c.target) s)
          && same_status (unreleased_by (update_for c c.target) s).status Status.released)
        ≡ false
  unfolding to_unreleased
  cleared-unpublished s m = elim (Bool-cases (guards Status.released (update_for c c.target) s)) [
    | inl hit ↦ rw hit (ground arith)
    | inr passed ↦
        rw passed
          (elim (Bool-cases (
            of_config t request.environment_id config_id s
            && same_status s.status Status.released)) [
              | inr hidden ↦ hidden
              | inl shown ↦
                  let q : of_config t request.environment_id config_id s ≡ true =
                    ground (arith, shown) in
                  let out : same_status s.status Status.released ≡ true = ground (arith, shown) in
                  let found =
                    p.scanned.only s
                      (where_rows-Memᴰ (of_config t request.environment_id config_id) t.snapshots m
                        q)
                      out in
                  let target_found = p.scanned.only c.target found_target.0 target_released in
                  let same : c.target ≡ s = cc in
                  let passed' =
                    subst (λ x. guards Status.released (update_for c x) s ≡ false) same passed in
                  let wrong = released_guarded request config_id t c p s q out in cc
            ])
  ]
