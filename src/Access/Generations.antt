-- ===== src/Access/Generations.antt =====
-- server/internal/repository/user_environment_role.go: the generations of environments and the
-- system permissions of roles.
-- Parameters: `fault` says which statement the database fails, `now` is the clock, `like_system` is
-- the database's LIKE 'system:%' on the key of a permission, which follows the collation of the
-- column: in PostgreSQL it is exact, in MySQL it does not tell letters of different case apart.
pub mod Ids
pub mod Bumped
use kirby.Base.{
  ℕ, zero, suc, ◌+◌, String, Bool, true, false, not, ◌&&◌, ◌||◌, ◌==◌, ltb, leb, List, [], ◌∷◌,
  Option, none, some, ℤ, pos, negsuc, Result, ok, err, ◌>>=◌, ◌>>◌, fail_if, if◌then◌else◌,
}
use kirby.Store.{exists_row, update_rows, affected_rows}
use kirby.Access.Data.{
  EnvironmentRow, Permission, RolePermission, Grants, GrantAudit, GrantFailure, GrantStatement,
  unchanged, failed, system_role_permission,
}
use kirby.Access.Source.{is_live_environment}
use kirby.Access.Normalize.{starts_with}
use kirby.Publish.Writes.{next_version}

unfoldable pub has_id : ℕ → List ℕ → Bool
has_id i [] = false
has_id i (j ∷ js) = j == i || has_id i js

unfoldable pub insert_id : ℕ → List ℕ → List ℕ
insert_id i [] = i ∷ []
insert_id i (j ∷ js) = if leb i j then i ∷ j ∷ js else j ∷ insert_id i js

-- slices.Sort, up to its algorithm.
unfoldable pub sort_ids : List ℕ → List ℕ
unfolding insert_id
sort_ids [] = []
sort_ids (i ∷ is) = insert_id i (sort_ids is)

abbrev pub is_repeat : Option ℕ → ℕ → Bool
is_repeat none i = false
is_repeat (some j) i = j == i

-- slices.Compact; `last` is the value kept last.
unfoldable pub compact_ids : Option ℕ → List ℕ → List ℕ
compact_ids last [] = []
compact_ids last (i ∷ is) =
    let rest = compact_ids (some i) is in if is_repeat last i then rest else i ∷ rest

abbrev pub is_system : Permission → Bool
is_system p = starts_with "system:" p.key

-- The join of ensureRolesContainNoSystemPermissions.
unfoldable pub has_system_permission : (Permission → Bool) → Grants → List ℕ → Bool
unfolding exists_row has_id
has_system_permission like_system t role_ids =
    exists_row
      (λ p.
        like_system p
        && exists_row (λ rp. rp.permission_id == p.id && has_id rp.role_id role_ids)
            t.role_permissions)
      t.permissions

module _ (fault : GrantStatement → Bool) (now : ℕ) where
  abbrev pub attempt : GrantStatement → Result GrantFailure (Unit {0})
  attempt s = fail_if (fault s) failed

  unfoldable pub ensure_roles_contain_no_system_permissions :
      (Permission → Bool) → List ℕ → Grants → Result GrantFailure (Unit {0})
  unfolding has_system_permission
  ensure_roles_contain_no_system_permissions like_system role_ids t = do
    attempt GrantStatement.find_system_permission
    fail_if (has_system_permission like_system t role_ids) system_role_permission

  unfoldable pub bumped : ℕ → EnvironmentRow → EnvironmentRow
  bumped actor_id e = record e {
    version = next_version e.version;
    updated_by = actor_id;
    updated_at = now;
  }

  unfoldable pub bump_environment_permission_generation :
      ℕ → ℕ → Grants → Result GrantFailure Grants
  unfolding bumped update_rows affected_rows
  bump_environment_permission_generation environment_id actor_id t = do
    attempt GrantStatement.bump_generation
    fail_if (affected_rows (is_live_environment environment_id) t.environments == 0)
        (unchanged "environment permission generation")
    ok (record t {
      environments =
          update_rows (is_live_environment environment_id) (bumped actor_id) t.environments;
    })

  unfoldable pub bump_each : List ℕ → ℕ → Grants → Result GrantFailure Grants
  unfolding bump_environment_permission_generation
  bump_each [] actor_id t = ok t
  bump_each (e ∷ es) actor_id t = do
    t1 ← bump_environment_permission_generation e actor_id t
    bump_each es actor_id t1

  unfoldable pub bump_environment_permission_generations :
      List ℕ → ℕ → Grants → Result GrantFailure Grants
  unfolding bump_each sort_ids compact_ids
  bump_environment_permission_generations environment_ids actor_id t =
      bump_each (compact_ids none (sort_ids environment_ids)) actor_id t

  -- RecordForEnvironment and RecordSystem
  unfoldable pub record_audit : GrantAudit → Grants → Result GrantFailure Grants
  record_audit audit t = do
    attempt GrantStatement.insert_audit
    ok (record t { audits = audit ∷ t.audits })
