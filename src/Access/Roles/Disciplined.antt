-- ===== src/Access/Roles/Disciplined.antt =====
-- What UpdatePermissions leaves unchanged: the keys of a generation, and that no role is a system role.
use kirby.Base.{
  ℕ, Bool, false, not, ◌&&◌, ◌==◌, List, [], ◌∷◌, map, ◌≡◌, refl, ap, ◌∙◌, ok, inl, inr, Bool-cases,
  arith,
}
use kirby.Store.{exists_row, where_rows}
use kirby.Store.Rows.{exists_row-update_rows}
use kirby.Store.Exists.{
  exists_row-append, exists_row-where_rows, exists_row-map-false, exists_row-ext,
}
use kirby.Access.Data.{
  Permission, RolePermission, UserEnvironmentRole, Assignment, Grants, GrantAudit, GrantStatement,
}
use kirby.Access.Source.{grants}
use kirby.Access.Generations.{is_system, has_id}
use kirby.Access.Generations.Bumped.{next_version-ne}
use kirby.Access.Discipline.{IsDisciplined, IsHarmless, is_link, granted_keys-eq}
use kirby.Access.Roles.{is_live_role_id, role_link, touched, update_permissions}
use kirby.Access.Roles.Updated.{
  replaced_permissions, role_environments, update_permissions-IsUpdated,
}

module _ (fault : GrantStatement → Bool) (now : ℕ) where
  -- Whoever has the role has it in one of those environments.
  unassigned :
      (r x y : ℕ) (rows : List UserEnvironmentRole)
      → has_id y (role_environments fault now r rows) ≡ false
      → exists_row (is_link r x y) rows ≡ false
  unfolding has_id where_rows exists_row
  unassigned r x y [] h = refl
  unassigned r x y (l ∷ rows) h = elim (Bool-cases (l.role_id == r)) [
    | inl role ↦ ground (arith, unassigned r x y rows)
    | inr other ↦ ground (arith, unassigned r x y rows)
  ]

  -- A grant through a role that the user does not have there is none.
  abbrev granting : Grants → ℕ → ℕ → Permission → RolePermission → Bool
  granting t x y p rp =
      rp.permission_id == p.id
      && exists_row (λ r. r.id == rp.role_id && not r.deleted) t.roles
      && exists_row (is_link rp.role_id x y) t.user_environment_roles

  granting-alien :
      (r : ℕ) (t : Grants) (x y : ℕ) (p : Permission) (rp : RolePermission)
      → exists_row (is_link r x y) t.user_environment_roles ≡ false
      → r ≡ rp.role_id
      → granting t x y p rp ≡ false
  granting-alien r t x y p rp alien same =
      let here : exists_row (is_link rp.role_id x y) t.user_environment_roles ≡ false =
        rw (← same) alien in
      ground arith

  granting-replaced :
      (r a : ℕ) (ids : List ℕ) (t : Grants) (x y : ℕ) (p : Permission)
      → exists_row (is_link r x y) t.user_environment_roles ≡ false
      → exists_row (granting t x y p) (replaced_permissions fault now r ids a t.role_permissions)
        ≡ exists_row (granting t x y p) t.role_permissions
  granting-replaced r a ids t x y p alien =
      let out =
        exists_row-map-false (granting t x y p) (role_link r a)
          (λ i. granting-alien r t x y p (role_link r a i) alien refl) ids in
      let kept =
        exists_row-where_rows (granting t x y p) (λ rp. not (rp.role_id == r))
          (λ rp h. granting-alien r t x y p rp alien (ground arith)) t.role_permissions in
      exists_row-append (granting t x y p)
        (where_rows (λ rp. not (rp.role_id == r)) t.role_permissions) (map (role_link r a) ids)
      ∙ ground (arith, out, kept)

  -- UpdatePermissions, when it succeeds, leaves the keys of every user as they were in each
  -- environment whose generation it leaves as it was.
  pub update_permissions-IsDisciplined :
      (role_id : ℕ) (ids : List ℕ) (a : ℕ) (audit : GrantAudit) (t : Grants)
      {assignments : List Assignment} {t' : Grants}
      → update_permissions fault now role_id ids a audit t ≡ ok (assignments, t')
      → IsDisciplined t t'
  unfolding grants touched
  update_permissions-IsDisciplined role_id ids a audit t {t' = after} h x y v before later =
      let c = update_permissions-IsUpdated fault now role_id ids a audit t h in
      let alien =
        unassigned role_id x y t.user_environment_roles
          (ground (arith, c.versions y, next_version-ne v)) in
      granted_keys-eq t after x y c.permissions (λ p.
        rw (c.role_permissions, c.roles, c.user_environment_roles)
          (exists_row-ext _ (granting t x y p)
              (λ rp.
                ap
                  (λ b.
                    rp.permission_id == p.id
                    && b
                    && exists_row (is_link rp.role_id x y) t.user_environment_roles)
                  (exists_row-update_rows (λ r. r.id == rp.role_id && not r.deleted)
                    (is_live_role_id role_id) (touched fault now a) (λ r. refl) t.roles))
              (replaced_permissions fault now role_id ids a t.role_permissions)
            ∙ granting-replaced role_id a ids t x y p alien))

  exists_replaced :
      (i role_id a : ℕ) (ids : List ℕ) (rows : List RolePermission)
      → exists_row (λ rp. rp.permission_id == i) rows ≡ false
      → has_id i ids ≡ false
      → exists_row (λ rp. rp.permission_id == i) (replaced_permissions fault now role_id ids a rows)
        ≡ false
  unfolding exists_row where_rows has_id
  exists_replaced i role_id a [] [] h k = refl
  exists_replaced i role_id a (j ∷ ids) [] h k = ground (arith, exists_replaced i role_id a ids [])
  exists_replaced i role_id a ids (rp ∷ rows) h k =
      ground (arith, exists_replaced i role_id a ids rows)

  harmless_rows :
      (role_id a : ℕ) (ids : List ℕ) (links : List RolePermission) (rows : List Permission)
      → exists_row (λ p. is_system p && exists_row (λ rp. rp.permission_id == p.id) links) rows
        ≡ false
      → exists_row is_system (where_rows (λ p. has_id p.id ids) rows) ≡ false
      → exists_row
          (λ p.
            is_system p
            && exists_row
                (λ rp. rp.permission_id == p.id)
                (replaced_permissions fault now role_id ids a links))
          rows
        ≡ false
  unfolding exists_row where_rows
  harmless_rows role_id a ids links [] h k = refl
  harmless_rows role_id a ids links (p ∷ rows) h k =
      ground
        (arith, exists_replaced p.id role_id a ids links, harmless_rows role_id a ids links rows)

  -- UpdatePermissions gives no role a system permission.
  pub update_permissions-IsHarmless :
      (role_id : ℕ) (ids : List ℕ) (a : ℕ) (audit : GrantAudit) (t : Grants)
      {assignments : List Assignment} {t' : Grants}
      → IsHarmless t
      → update_permissions fault now role_id ids a audit t ≡ ok (assignments, t')
      → IsHarmless t'
  update_permissions-IsHarmless role_id ids a audit t safe h =
      let c = update_permissions-IsUpdated fault now role_id ids a audit t h in
      rw (c.role_permissions, c.permissions)
        (harmless_rows role_id a ids t.role_permissions t.permissions safe c.harmless)
