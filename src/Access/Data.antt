-- ===== src/Access/Data.antt =====
-- The rows of server/internal/model/identity.go that authorization reads, the identity of
-- server/internal/repository/permission.go and the errors of server/internal/permission/permission.go.
-- A table is the list of its rows. An environment ID that is not positive is read as 0.
use kirby.Base.{ℕ, String, Bool, List, Option, ℤ}

pub record User : Type 0 where
  pub id : ℕ
  pub enabled : Bool
  pub is_system_admin : Bool
  pub deleted : Bool

pub record EnvironmentRow : Type 0 where
  pub id : ℕ
  pub enabled : Bool
  pub version : ℤ
  pub updated_by : ℕ
  pub updated_at : ℕ
  pub deleted : Bool

pub record Role : Type 0 where
  pub id : ℕ
  pub key : String
  pub name : String
  pub description : String
  pub builtin : Bool
  pub version : ℤ
  pub updated_by : ℕ
  pub updated_at : ℕ
  pub deleted : Bool

pub record Permission : Type 0 where
  pub id : ℕ
  pub key : String

pub record RolePermission : Type 0 where
  pub role_id : ℕ
  pub permission_id : ℕ
  pub created_by : ℕ

pub record UserEnvironmentRole : Type 0 where
  pub user_id : ℕ
  pub environment_id : ℕ
  pub role_id : ℕ
  pub created_by : ℕ

-- An audit record; of a record for the whole system the environment is `none`.
pub record GrantAudit : Type 0 where
  pub environment_id : Option ℕ
  pub actor_user_id : ℕ
  pub action : String
  pub resource_id : ℕ

pub record Grants : Type 0 where
  pub users : List User
  pub environments : List EnvironmentRow
  pub roles : List Role
  pub permissions : List Permission
  pub role_permissions : List RolePermission
  pub user_environment_roles : List UserEnvironmentRole
  pub audits : List GrantAudit

-- PermissionAssignment
pub record Assignment : Type 0 where
  pub user_id : ℕ
  pub environment_id : ℕ

pub record MemberRoleUpdate : Type 0 where
  pub environment_id : ℕ
  pub user_id : ℕ
  pub role_ids : List ℕ
  pub actor_id : ℕ

pub record RoleUpdate : Type 0 where
  pub name : String
  pub description : String
  pub updated_by : ℕ
  pub version : ℤ

pub data GrantFailure : Type 0 where
  missing unchanged : String → GrantFailure
  key_conflict failed system_role_permission permission_set_mismatch : GrantFailure
  builtin_role role_in_use : GrantFailure

-- The statements of the writes of roles and memberships.
pub data GrantStatement : Type 0 where
  lock_environment lock_user lock_roles find_system_permission delete_links insert_links :
      GrantStatement
  bump_generation insert_audit lock_role lock_permissions lock_assignments : GrantStatement
  delete_permissions insert_permissions touch_role insert_role update_role delete_role :
      GrantStatement

pub record PermissionIdentity : Type 0 where
  pub system_admin : Bool
  pub environment_id : ℕ
  pub environment_version : ℤ
  pub environment_enabled : Bool
  pub environment_member : Bool

pub data Denial : Type 0 where
  forbidden environment_not_found concurrent_change : Denial
  invalid_version system_key_required : Denial
  not_found database : Denial

-- The three numbers of permissionContentKey.
pub record ContentKey : Type 0 where
  pub user_id : ℕ
  pub environment_id : ℕ
  pub version : ℤ

-- What the cache answers to Get.
pub data Cached : Type 0 where
  absent unavailable : Cached
  entry : String → Cached

-- What Resolve returns, with the entry that it writes to the cache.
pub record Resolution : Type 0 where
  pub keys : List String
  pub system_admin : Bool
  pub written : Option (ContentKey × List String)
