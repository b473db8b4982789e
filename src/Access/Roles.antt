-- ===== src/Access/Roles.antt =====
-- server/internal/repository/role.go: the writes.
-- Parameters: `fault` says which statement the database fails, `now` is the clock, `next_id` the ID
-- that the table gives a new row.
pub mod Updated
pub mod Disciplined
use kirby.Base.{
  ℕ, zero, suc, ◌+◌, String, str_eq, Bool, true, false, not, ◌&&◌, ◌||◌, ◌==◌, eqz, List, [], ◌∷◌,
  ◌++◌, map, Option, none, some, ℤ, pos, Result, ok, err, ◌>>=◌, ◌>>◌, fail_if, if◌then◌else◌,
  length,
}
use kirby.Store.{exists_row, find_row, affected_rows, update_rows, where_rows}
use kirby.Publish.Writes.{next_version}
use kirby.Access.Data.{
  Role, Permission, RolePermission, UserEnvironmentRole, Grants, GrantAudit, GrantFailure,
  GrantStatement, Assignment, RoleUpdate, missing, unchanged, failed, key_conflict,
  system_role_permission, permission_set_mismatch, builtin_role, role_in_use,
}
use kirby.Access.Generations.{
  attempt, has_id, is_system, bump_environment_permission_generations, record_audit,
}
use kirby.Access.Members.{no_ids}
use kirby.Access.Normalize.{starts_with}

abbrev pub is_live_role_id : ℕ → Role → Bool
is_live_role_id role_id r = r.id == role_id && not r.deleted

abbrev pub is_assigned : ℕ → UserEnvironmentRole → Bool
is_assigned role_id l = l.role_id == role_id

abbrev pub assignment : UserEnvironmentRole → Assignment
assignment l = record { user_id = l.user_id; environment_id = l.environment_id }

abbrev pub role_link : ℕ → ℕ → ℕ → RolePermission
role_link role_id actor_id permission_id = record {
  role_id = role_id;
  permission_id = permission_id;
  created_by = actor_id;
}

module _ (fault : GrantStatement → Bool) (now : ℕ) where
  unfoldable pub record_role_audit : ℕ → GrantAudit → Grants → Result GrantFailure Grants
  unfolding record_audit
  record_role_audit role_id audit t =
      record_audit fault now (record audit { environment_id = none; resource_id = role_id }) t

  -- The unique key of a role counts deleted rows too.
  unfoldable pub create_role : ℕ → Role → GrantAudit → Grants → Result GrantFailure (Role × Grants)
  unfolding exists_row record_role_audit
  create_role next_id role audit t = do
    attempt fault now GrantStatement.insert_role
    fail_if (exists_row (λ r. str_eq r.key role.key) t.roles) key_conflict
    let inserted = record role {
      id = next_id;
      builtin = false;
      version = pos 1;
      updated_at = now;
      deleted = false;
    }
    t1 ← record_role_audit next_id audit (record t { roles = t.roles ++ inserted ∷ [] })
    ok (inserted, t1)

  unfoldable pub update_role : ℕ → RoleUpdate → GrantAudit → Grants → Result GrantFailure Grants
  unfolding update_rows affected_rows record_role_audit
  update_role role_id u audit t = do
    attempt fault now GrantStatement.update_role
    let guard = λ (r : Role). is_live_role_id role_id r && eqz r.version u.version
    fail_if (affected_rows guard t.roles == 0) (unchanged "role")
    record_role_audit role_id audit (record t {
      roles =
          update_rows guard
            (λ r. record r {
              name = u.name;
              description = u.description;
              updated_by = u.updated_by;
              updated_at = now;
              version = next_version u.version;
            })
            t.roles;
    })

  unfoldable pub lock_role : ℕ → Grants → Result GrantFailure Role
  unfolding find_row
  lock_role role_id t = do
    attempt fault now GrantStatement.lock_role
    elim (find_row (is_live_role_id role_id) t.roles) [
      | none ↦ err (missing "role")
      | some r ↦ ok r
    ]

  unfoldable pub lock_assignments : ℕ → Grants → Result GrantFailure (List Assignment)
  unfolding where_rows
  lock_assignments role_id t = do
    attempt fault now GrantStatement.lock_assignments
    ok (map assignment (where_rows (is_assigned role_id) t.user_environment_roles))

  unfoldable pub removed : ℕ → Role → Role
  removed actor_id r = record r {
    version = next_version r.version;
    deleted = true;
    updated_by = actor_id;
    updated_at = now;
  }

  unfoldable pub delete_role : ℕ → ℕ → GrantAudit → Grants → Result GrantFailure Grants
  unfolding lock_role lock_assignments update_rows affected_rows removed record_role_audit
  delete_role role_id actor_id audit t = do
    role ← lock_role role_id t
    fail_if role.builtin builtin_role
    assignments ← lock_assignments role_id t
    fail_if (not (length assignments == 0)) role_in_use
    attempt fault now GrantStatement.delete_role
    fail_if (affected_rows (is_live_role_id role_id) t.roles == 0) (unchanged "role")
    record_role_audit role_id audit
        (record t { roles = update_rows (is_live_role_id role_id) (removed actor_id) t.roles })

  unfoldable pub lock_permissions : List ℕ → Grants → Result GrantFailure (Unit {0})
  unfolding where_rows exists_row has_id starts_with
  lock_permissions permission_ids t = elim (no_ids permission_ids) [
    | true ↦ ok tt
    | false ↦ do
      attempt fault now GrantStatement.lock_permissions
      let rows = where_rows (λ (p : Permission). has_id p.id permission_ids) t.permissions
      fail_if (not (length rows == length permission_ids)) permission_set_mismatch
      fail_if (exists_row is_system rows) system_role_permission
  ]

  unfoldable pub replace_permissions : ℕ → List ℕ → ℕ → Grants → Result GrantFailure Grants
  unfolding where_rows
  replace_permissions role_id permission_ids actor_id t = do
    attempt fault now GrantStatement.delete_permissions
    let kept = where_rows (λ (rp : RolePermission). not (rp.role_id == role_id)) t.role_permissions
    fail_if (not (no_ids permission_ids) && fault GrantStatement.insert_permissions) failed
    ok (record t { role_permissions = kept ++ map (role_link role_id actor_id) permission_ids })

  unfoldable pub touched : ℕ → Role → Role
  touched actor_id r = record r {
    version = next_version r.version;
    updated_by = actor_id;
    updated_at = now;
  }

  unfoldable pub advance_permission_generations :
      ℕ → ℕ → List Assignment → Grants → Result GrantFailure Grants
  unfolding update_rows affected_rows touched bump_environment_permission_generations
  advance_permission_generations role_id actor_id assignments t = do
    attempt fault now GrantStatement.touch_role
    fail_if (affected_rows (is_live_role_id role_id) t.roles == 0) (unchanged "role")
    bump_environment_permission_generations fault now
        (map (λ (a : Assignment). a.environment_id) assignments) actor_id
        (record t { roles = update_rows (is_live_role_id role_id) (touched actor_id) t.roles })

  unfoldable pub update_permissions :
      ℕ → List ℕ → ℕ → GrantAudit → Grants → Result GrantFailure (List Assignment × Grants)
  unfolding lock_role lock_permissions lock_assignments replace_permissions
      advance_permission_generations record_role_audit
  update_permissions role_id permission_ids actor_id audit t = do
    role ← lock_role role_id t
    lock_permissions permission_ids t
    assignments ← lock_assignments role_id t
    t1 ← replace_permissions role_id permission_ids actor_id t
    t2 ← advance_permission_generations role_id actor_id assignments t1
    t3 ← record_role_audit role_id audit t2
    ok (assignments, t3)
