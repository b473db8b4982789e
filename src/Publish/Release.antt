-- ===== src/Publish/Release.antt =====
-- After Publish the target is the one released snapshot of its configuration.
use mathlib.Core.List.{Memᴰ}
use kirby.Base.{
  ℕ, true, false, ◌&&◌, ◌==◌, Option, none, some, ok, ◌≡◌, refl, subst, Bool-cases, inl, inr, arith,
}
use kirby.Store.{Status, same_status, Snapshot, Tables, in_config_scope, in_snapshot_scope}
use kirby.Publish.Data.{PublicationRequest, PublicationChange}
use kirby.Publish.Checks.{validate_target}
use kirby.Publish.Writes.{update_for, guards, to_released, to_unreleased}
use kirby.Publish.Scan.{IsKeyed, IsKeyed-unique}
use kirby.Store.Rows.{Memᴰ-where_rows, where_rows-Memᴰ, find_row_lem}
use kirby.Publish.Written.{of_config, IsPrepared}
use kirby.Publish.Updates.{released_by, retired_by}

pub validate_target_lem :
    (c : PublicationChange)
    → validate_target c ≡ ok tt
    → (same_status c.target.status c.request.status ≡ false)
      × ((c.target.config_id == c.config.id) ≡ true)
unfolding validate_target
validate_target_lem c h = elim (Bool-cases (same_status c.target.status c.request.status)) [
  | inl repeated ↦ let wrong = rw (repeated, validate_target) at h in cc
  | inr other ↦ elim (Bool-cases (c.target.version == c.request.expected_version)) [
    | inr stale ↦ let wrong = rw (other, stale, validate_target) at h in cc
    | inl current ↦ elim (Bool-cases (c.target.config_id == c.config.id)) [
      | inl owned ↦ (other, owned)
      | inr foreign ↦ let wrong = rw (other, current, foreign, validate_target) at h in cc
    ]
  ]
]

module _ (request : PublicationRequest) (config_id : ℕ) (t : Tables) (c : PublicationChange)
    (p : IsPrepared request config_id t c) where
  -- The guard of SetUnreleased holds at a released snapshot of the configuration.
  pub released_guarded :
      (s : Snapshot)
      → of_config t request.environment_id config_id s ≡ true
      → same_status s.status Status.released ≡ true
      → guards Status.released (update_for c s) s ≡ true
  unfolding guards update_for in_snapshot_scope in_config_scope
  released_guarded s shown out =
      let located =
        (find_row_lem (in_config_scope t request.environment_id config_id) t.configs p.located).0 in
      ground (arith, shown, out, located)

-- The rows after the two updates of a release.
module _ (request : PublicationRequest) (config_id : ℕ) (t : Tables) (c : PublicationChange)
    (p : IsPrepared request config_id t c) (publishing : c.request.status ≡ Status.released) where
  abbrev pub row : Snapshot → Snapshot
  row s = released_by (update_for c c.target) (retired_by c c.released s)

  target_unreleased : same_status c.target.status Status.released ≡ false
  target_unreleased = rw (← publishing) (validate_target_lem c p.targeted).0

  pub target_listed :
      Memᴰ c.target t.snapshots × (of_config t request.environment_id config_id c.target ≡ true)
  target_listed = elim p.scanned.found [
    | inl wrong ↦ cc
    | inr (m, _) ↦ Memᴰ-where_rows (of_config t request.environment_id config_id) t.snapshots m
  ]

  pub target_named : (c.target.id == request.snapshot_id) ≡ true
  target_named = elim p.scanned.found [ inl wrong ↦ cc | inr (_, same) ↦ same ]

  target_plain : same_status c.target.status Status.unreleased ≡ true
  target_plain = elim p.scanned.found [
    | inl wrong ↦ cc
    | inr (m, _) ↦ p.scanned.supported c.target m target_unreleased
  ]

  -- The guard of SetReleased holds at the target.
  pub target_guarded : guards Status.unreleased (update_for c c.target) c.target ≡ true
  unfolding guards update_for in_snapshot_scope
  target_guarded =
      let shown = target_listed.1 in
      let owned = (validate_target_lem c p.targeted).1 in
      let plain = target_plain in ground (arith, shown, owned, plain)

  retired_id : (r : Option Snapshot) (s : Snapshot) → (retired_by c r s).id ≡ s.id
  unfolding to_unreleased
  retired_id none s = refl
  retired_id (some r) s = elim (Bool-cases (guards Status.released (update_for c r) s)) [
    | inl hit ↦ rw hit refl
    | inr passed ↦ rw passed refl
  ]

  -- No snapshot of the configuration is released once the released one is retired.
  retired-unpublished :
      (r : Option Snapshot)
      → c.released ≡ r
      → (s : Snapshot) → Memᴰ s t.snapshots
      → (of_config t request.environment_id config_id (retired_by c r s)
          && same_status (retired_by c r s).status Status.released)
        ≡ false
  unfolding to_unreleased
  retired-unpublished none e s m =
      elim (Bool-cases
        (of_config t request.environment_id config_id s && same_status s.status Status.released)) [
          | inr hidden ↦ hidden
          | inl shown ↦
              let q : of_config t request.environment_id config_id s ≡ true =
                ground (arith, shown) in
              let out : same_status s.status Status.released ≡ true = ground (arith, shown) in
              let found =
                p.scanned.only s
                  (where_rows-Memᴰ (of_config t request.environment_id config_id) t.snapshots m q)
                  out in
              cc
        ]
  retired-unpublished (some r) e s m =
      elim (Bool-cases (guards Status.released (update_for c r) s)) [
        | inl hit ↦ rw hit (ground arith)
        | inr passed ↦
            rw passed
              (elim (Bool-cases (
                of_config t request.environment_id config_id s
                && same_status s.status Status.released)) [
                  | inr hidden ↦ hidden
                  | inl shown ↦
                      let q : of_config t request.environment_id config_id s ≡ true =
                        ground (arith, shown) in
                      let out : same_status s.status Status.released ≡ true =
                        ground (arith, shown) in
                      let found =
                        p.scanned.only s
                          (where_rows-Memᴰ (of_config t request.environment_id config_id)
                            t.snapshots m q)
                          out in
                      let same : r ≡ s = cc in
                      let wrong = released_guarded request config_id t c p s q out in
                      let passed' =
                        subst (λ x. guards Status.released (update_for c x) s ≡ false) same
                          passed in
                      cc
                ])
      ]

  retired-target : (r : Option Snapshot) → retired_by c r c.target ≡ c.target
  unfolding guards
  retired-target none = refl
  retired-target (some r) = elim (Bool-cases (guards Status.released (update_for c r) c.target)) [
    | inr passed ↦ rw passed refl
    | inl hit ↦ let out = target_unreleased in ground (arith, hit, out)
  ]

  pub row-target : row c.target ≡ to_released (update_for c c.target) c.target
  row-target = rw (retired-target c.released, target_guarded) refl

  passed_over :
      (s : Snapshot)
      → (s.id == request.snapshot_id) ≡ false
      → guards Status.unreleased (update_for c c.target) (retired_by c c.released s) ≡ false
  unfolding guards update_for
  passed_over s other =
      let named = target_named in
      let id = retired_id c.released s in ground (arith, named, id, other)

  pub row-published :
      IsKeyed t.snapshots
      → (s : Snapshot) → Memᴰ s t.snapshots
      → (of_config t request.environment_id config_id (row s)
          && same_status (row s).status Status.released)
        ≡ ((row s).id == request.snapshot_id)
  unfolding to_released in_snapshot_scope
  row-published keyed s m = elim (Bool-cases (s.id == request.snapshot_id)) [
    | inr other ↦
        rw
          (
            passed_over s other,
            retired-unpublished c.released refl s m,
            retired_id c.released s,
            other,
          )
          refl
    | inl here ↦
        let named = target_named in
        let same : s ≡ c.target =
          IsKeyed-unique t.snapshots keyed s c.target m target_listed.0
            (ground (arith, here, named)) in
        let shown : of_config t request.environment_id config_id
              (to_released (update_for c c.target) c.target)
            ≡ true =
          target_listed.1 in
        rw (same, row-target) (ground (arith, shown, named))
  ]
