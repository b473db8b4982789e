-- ===== src/Access/Members.antt =====
-- server/internal/repository/user_environment_role.go: ReplaceRoles.
-- Parameters: `fault`, `now` and `like_system` are those of Access.Generations. The rows of a
-- table are inserted in one statement.
pub mod Replaced
use kirby.Base.{
  ℕ, zero, suc, ◌+◌, String, Bool, true, false, not, ◌&&◌, ◌||◌, ◌==◌, List, [], ◌∷◌, ◌++◌, map,
  Option, none, some, ℤ, pos, Result, ok, err, ◌>>=◌, ◌>>◌, fail_if, if◌then◌else◌, length,
}
use kirby.Store.{exists_row, affected_rows, where_rows}
use kirby.Access.Data.{
  User, Role, Permission, UserEnvironmentRole, Grants, GrantAudit, GrantFailure, GrantStatement,
  MemberRoleUpdate, missing,
}
use kirby.Access.Source.{is_live_environment, is_membership}
use kirby.Access.Generations.{
  attempt, has_id, ensure_roles_contain_no_system_permissions,
  bump_environment_permission_generations, record_audit,
}

abbrev pub is_live_user : ℕ → User → Bool
is_live_user user_id u = u.id == user_id && not u.deleted

abbrev pub is_live_role : List ℕ → Role → Bool
is_live_role role_ids r = has_id r.id role_ids && not r.deleted

abbrev pub no_ids : List ℕ → Bool
no_ids [] = true
no_ids (_ ∷ _) = false

abbrev pub member_link : ℕ → ℕ → ℕ → ℕ → UserEnvironmentRole
member_link user_id environment_id actor_id role_id = record {
  user_id = user_id;
  environment_id = environment_id;
  role_id = role_id;
  created_by = actor_id;
}

module _ (fault : GrantStatement → Bool) (now : ℕ) where
  unfoldable pub lock_member : ℕ → ℕ → Grants → Result GrantFailure (Unit {0})
  unfolding exists_row
  lock_member environment_id user_id t = do
    attempt fault now GrantStatement.lock_environment
    fail_if (not (exists_row (is_live_environment environment_id) t.environments))
        (missing "environment")
    attempt fault now GrantStatement.lock_user
    fail_if (not (exists_row (is_live_user user_id) t.users)) (missing "environment member")

  unfoldable pub lock_roles : (Permission → Bool) → List ℕ → Grants → Result GrantFailure (Unit {0})
  unfolding affected_rows ensure_roles_contain_no_system_permissions
  lock_roles like_system role_ids t = elim (no_ids role_ids) [
    | true ↦ ok tt
    | false ↦ do
      attempt fault now GrantStatement.lock_roles
      fail_if (not (affected_rows (is_live_role role_ids) t.roles == length role_ids))
          (missing "environment role")
      ensure_roles_contain_no_system_permissions fault now like_system role_ids t
  ]

  unfoldable pub replace_links : ℕ → ℕ → List ℕ → ℕ → Grants → Result GrantFailure Grants
  unfolding where_rows
  replace_links environment_id user_id role_ids actor_id t = do
    attempt fault now GrantStatement.delete_links
    let kept =
        where_rows (λ l. not (is_membership user_id environment_id l)) t.user_environment_roles
    fail_if (not (no_ids role_ids) && fault GrantStatement.insert_links) GrantFailure.failed
    ok (record t {
      user_environment_roles = kept ++ map (member_link user_id environment_id actor_id) role_ids;
    })

  unfoldable pub replace_roles :
      (Permission → Bool) → MemberRoleUpdate → GrantAudit → Grants → Result GrantFailure Grants
  unfolding lock_member lock_roles replace_links bump_environment_permission_generations
      record_audit
  replace_roles like_system u audit t = do
    lock_member u.environment_id u.user_id t
    lock_roles like_system u.role_ids t
    t1 ← replace_links u.environment_id u.user_id u.role_ids u.actor_id t
    t2 ← bump_environment_permission_generations fault now (u.environment_id ∷ []) u.actor_id t1
    record_audit fault now
        (record audit { environment_id = some u.environment_id; resource_id = u.user_id }) t2
