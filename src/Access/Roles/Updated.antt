-- ===== src/Access/Roles/Updated.antt =====
-- What UpdatePermissions leaves behind.
use kirby.Base.{
  ℕ, Bool, false, not, ◌&&◌, ◌==◌, List, [], ◌∷◌, ◌++◌, map, none, ◌≡◌, refl, sym, ap, ◌∙◌, ok,
  fail_if, >>=-eq-ok, ok-injective, if◌then◌else◌, arith, length,
}
use kirby.Store.{exists_row, where_rows, affected_rows, update_rows}
use kirby.Access.Data.{
  Permission, RolePermission, UserEnvironmentRole, Assignment, Grants, GrantAudit, GrantStatement,
  unchanged, failed, permission_set_mismatch,
}
use kirby.Access.Generations.{attempt, is_system, has_id, record_audit}
use kirby.Access.Generations.Bumped.{
  live_version, next, IsAdvanced, bump_environment_permission_generations-IsAdvanced,
}
use kirby.Access.Members.{no_ids}
use kirby.Access.Roles.{
  is_live_role_id, is_assigned, assignment, role_link, lock_role, lock_permissions,
  lock_assignments, replace_permissions, touched, advance_permission_generations,
  update_permissions, record_role_audit,
}

module _ (fault : GrantStatement → Bool) (now : ℕ) where
  abbrev pub replaced_permissions : ℕ → List ℕ → ℕ → List RolePermission → List RolePermission
  replaced_permissions role_id ids actor_id rows =
      where_rows (λ rp. not (rp.role_id == role_id)) rows ++ map (role_link role_id actor_id) ids

  -- The environments in which somebody has the role.
  abbrev pub role_environments : ℕ → List UserEnvironmentRole → List ℕ
  role_environments role_id rows =
      map (λ (a : Assignment). a.environment_id)
        (map assignment (where_rows (is_assigned role_id) rows))

  replace_permissions-ok :
      (r a : ℕ) (ids : List ℕ) (t : Grants) {t1 : Grants}
      → replace_permissions fault now r ids a t ≡ ok t1
      → record t { role_permissions = replaced_permissions r ids a t.role_permissions } ≡ t1
  unfolding replace_permissions
  replace_permissions-ok r a ids t h =
      let (_, _, h1) = >>=-eq-ok (attempt fault now GrantStatement.delete_permissions) _ h in
      let (_, _, h2) =
        >>=-eq-ok (fail_if (not (no_ids ids) && fault GrantStatement.insert_permissions) failed) _
          h1 in
      ok-injective h2

  lock_assignments-ok :
      (r : ℕ) (t : Grants) {rows : List Assignment}
      → lock_assignments fault now r t ≡ ok rows
      → map assignment (where_rows (is_assigned r) t.user_environment_roles) ≡ rows
  unfolding lock_assignments
  lock_assignments-ok r t h =
      let (_, _, h1) = >>=-eq-ok (attempt fault now GrantStatement.lock_assignments) _ h in
      ok-injective h1

  -- The environments of the role advance, its permissions are those asked for, none of them a
  -- system permission, and its row stays live.
  pub record IsUpdated (role_id : ℕ) (ids : List ℕ) (actor_id : ℕ) (t t' : Grants) : Type 0 where
    pub versions :
        (e : ℕ)
        → live_version e t'.environments ≡ (
            if has_id e (role_environments role_id t.user_environment_roles)
            then next (live_version e t.environments)
            else live_version e t.environments)
    pub role_permissions :
        t'.role_permissions ≡ replaced_permissions role_id ids actor_id t.role_permissions
    pub harmless : exists_row is_system (where_rows (λ p. has_id p.id ids) t.permissions) ≡ false
    pub roles :
        t'.roles ≡ update_rows (is_live_role_id role_id) (touched fault now actor_id) t.roles
    pub permissions : t'.permissions ≡ t.permissions
    pub user_environment_roles : t'.user_environment_roles ≡ t.user_environment_roles

  lock_permissions-ok :
      (ids : List ℕ) (t : Grants)
      → lock_permissions fault now ids t ≡ ok tt
      → exists_row is_system (where_rows (λ p. has_id p.id ids) t.permissions) ≡ false
  unfolding lock_permissions has_id where_rows exists_row
  lock_permissions-ok [] t h = none_listed t.permissions
    where
      none_listed :
          (rows : List Permission)
          → exists_row is_system (where_rows (λ p. has_id p.id []) rows) ≡ false
      none_listed [] = refl
      none_listed (p ∷ rows) = none_listed rows
  lock_permissions-ok (i ∷ ids) t h =
      let (_, _, h1) = >>=-eq-ok (attempt fault now GrantStatement.lock_permissions) _ h in
      let (_, _, h2) =
        >>=-eq-ok
          (fail_if
            (not (
              length (where_rows (λ (p : Permission). has_id p.id (i ∷ ids)) t.permissions)
              == length (i ∷ ids)))
            permission_set_mismatch)
          _ h1 in
      ground arith

  record_role_audit-ok :
      (role_id : ℕ) (audit : GrantAudit) (t : Grants) {t' : Grants}
      → record_role_audit fault now role_id audit t ≡ ok t'
      → record t {
        audits = record audit { environment_id = none; resource_id = role_id } ∷ t.audits;
      }
        ≡ t'
  unfolding record_role_audit record_audit
  record_role_audit-ok role_id audit t h =
      let (_, _, h1) = >>=-eq-ok (attempt fault now GrantStatement.insert_audit) _ h in
      ok-injective h1

  advance-ok :
      (role_id a : ℕ) (assignments : List Assignment) (t : Grants) {t' : Grants}
      → advance_permission_generations fault now role_id a assignments t ≡ ok t'
      → IsAdvanced
          (map (λ (x : Assignment). x.environment_id) assignments)
          (record t { roles = update_rows (is_live_role_id role_id) (touched fault now a) t.roles })
          t'
  unfolding advance_permission_generations
  advance-ok role_id a assignments t h =
      let (_, _, h1) = >>=-eq-ok (attempt fault now GrantStatement.touch_role) _ h in
      let (_, _, h2) =
        >>=-eq-ok
          (fail_if (affected_rows (is_live_role_id role_id) t.roles == 0) (unchanged "role")) _
          h1 in
      bump_environment_permission_generations-IsAdvanced fault now a
        (map (λ (x : Assignment). x.environment_id) assignments)
        (record t { roles = update_rows (is_live_role_id role_id) (touched fault now a) t.roles })
        h2

  assemble :
      (role_id a : ℕ) (ids : List ℕ) (assignments : List Assignment) (audit : GrantAudit)
      (t t1 t2 t' : Grants)
      → exists_row is_system (where_rows (λ p. has_id p.id ids) t.permissions) ≡ false
      → assignments ≡ map assignment (where_rows (is_assigned role_id) t.user_environment_roles)
      → t1 ≡ record t { role_permissions = replaced_permissions role_id ids a t.role_permissions }
      → IsAdvanced
          (map (λ (x : Assignment). x.environment_id) assignments)
          (record t1 {
            roles = update_rows (is_live_role_id role_id) (touched fault now a) t1.roles;
          })
          t2
      → t' ≡ record t2 { audits = audit ∷ t2.audits }
      → IsUpdated role_id ids a t t'
  assemble role_id a ids assignments audit t t1 t2 t' harmless listed e1 ad e2 =
      let same : t1.environments ≡ t.environments = ap (λ (g : Grants). g.environments) e1 in
      let those : map (λ (x : Assignment). x.environment_id) assignments
          ≡ role_environments role_id t.user_environment_roles =
        ap (map (λ (x : Assignment). x.environment_id)) listed in
      record {
        versions = λ e.
            ap (λ (g : Grants). live_version e g.environments) e2
            ∙ (ad.versions e
                ∙ (ap
                      (λ rows.
                        if has_id e (map (λ (x : Assignment). x.environment_id) assignments)
                        then next (live_version e rows)
                        else live_version e rows)
                      same
                    ∙ ap
                        (λ is.
                          if has_id e is
                          then next (live_version e t.environments)
                          else live_version e t.environments)
                        those));
        role_permissions =
            ap (λ (g : Grants). g.role_permissions) e2
            ∙ (ad.role_permissions ∙ ap (λ (g : Grants). g.role_permissions) e1);
        harmless = harmless;
        roles =
            ap (λ (g : Grants). g.roles) e2
            ∙ (ad.roles
                ∙ ap
                    (λ (g : Grants).
                      update_rows (is_live_role_id role_id) (touched fault now a) g.roles)
                    e1);
        permissions =
            ap (λ (g : Grants). g.permissions) e2
            ∙ (ad.permissions ∙ ap (λ (g : Grants). g.permissions) e1);
        user_environment_roles =
            ap (λ (g : Grants). g.user_environment_roles) e2
            ∙ (ad.user_environment_roles ∙ ap (λ (g : Grants). g.user_environment_roles) e1);
      }

  pub update_permissions-IsUpdated :
      (role_id : ℕ) (ids : List ℕ) (a : ℕ) (audit : GrantAudit) (t : Grants)
      {assignments : List Assignment} {t' : Grants}
      → update_permissions fault now role_id ids a audit t ≡ ok (assignments, t')
      → IsUpdated role_id ids a t t'
  unfolding update_permissions
  update_permissions-IsUpdated role_id ids a audit t {t' = after} h =
      let (_, _, h1) = >>=-eq-ok (lock_role fault now role_id t) _ h in
      let (_, locked, h2) = >>=-eq-ok (lock_permissions fault now ids t) _ h1 in
      let (assignments, listed, h3) = >>=-eq-ok (lock_assignments fault now role_id t) _ h2 in
      let (t1, linked, h4) = >>=-eq-ok (replace_permissions fault now role_id ids a t) _ h3 in
      let (t2, advanced, h5) =
        >>=-eq-ok (advance_permission_generations fault now role_id a assignments t1) _ h4 in
      let (t3, recorded, h6) = >>=-eq-ok (record_role_audit fault now role_id audit t2) _ h5 in
      let last : t3 ≡ after = ap (λ (p : List Assignment × Grants). p.1) (ok-injective h6) in
      assemble role_id a ids assignments
        (record audit { environment_id = none; resource_id = role_id }) t t1 t2 after
        (lock_permissions-ok ids t locked) (sym (lock_assignments-ok role_id t listed))
        (sym (replace_permissions-ok role_id a ids t linked))
        (advance-ok role_id a assignments t1 advanced)
        (sym last ∙ sym (record_role_audit-ok role_id audit t2 recorded))
