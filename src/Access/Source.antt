-- ===== src/Access/Source.antt =====
-- server/internal/repository/permission.go: the queries of authorization.
-- Parameters: `view` gives the tables as the database shows them to each query of a call, in the
-- order of the queries, or `none` where the query fails; `ordered` is DISTINCT with ORDER BY.
use kirby.Base.{
  ℕ, ◌+◌, String, Bool, true, false, not, ◌&&◌, ◌==◌, List, Option, none, some, map, pos, Result,
  ok, err, ◌>>=◌,
}
use kirby.Store.{find_row, exists_row, where_rows}
use kirby.Access.Data.{
  User, EnvironmentRow, Permission, UserEnvironmentRole, Grants, PermissionIdentity, Denial,
  not_found, database,
}

-- The joins of KeysForUserEnvironment: a live role of the user there has the permission.
unfoldable pub grants : Grants → ℕ → ℕ → Permission → Bool
unfolding exists_row
grants t user_id environment_id p =
    exists_row
      (λ rp.
        rp.permission_id == p.id
        && exists_row (λ r. r.id == rp.role_id && not r.deleted) t.roles
        && exists_row
            (λ l.
              l.role_id == rp.role_id && l.user_id == user_id && l.environment_id == environment_id)
            t.user_environment_roles)
      t.role_permissions

unfoldable pub granted_keys : Grants → ℕ → ℕ → List String
unfolding grants where_rows
granted_keys t user_id environment_id =
    map (λ p. p.key) (where_rows (grants t user_id environment_id) t.permissions)

abbrev pub is_live_environment : ℕ → EnvironmentRow → Bool
is_live_environment environment_id e = e.id == environment_id && not e.deleted

abbrev pub is_enabled_user : ℕ → User → Bool
is_enabled_user user_id u = u.id == user_id && u.enabled && not u.deleted

abbrev pub is_membership : ℕ → ℕ → UserEnvironmentRole → Bool
is_membership user_id environment_id l = l.user_id == user_id && l.environment_id == environment_id

-- The three fields that a found environment sets.
unfoldable pub with_environment : Option EnvironmentRow → PermissionIdentity → PermissionIdentity
with_environment none i = i
with_environment (some e) i = record i {
  environment_id = e.id;
  environment_version = e.version;
  environment_enabled = e.enabled;
}

module _ (ordered : List String → List String) (view : ℕ → Option Grants) where
  unfoldable pub query : ℕ → Result Denial Grants
  query k = elim (view k) [ none ↦ err database | some t ↦ ok t ]

  unfoldable pub enabled_user : ℕ → ℕ → Result Denial User
  unfolding query find_row
  enabled_user k user_id = do
    t ← query k
    elim (find_row (is_enabled_user user_id) t.users) [ none ↦ err not_found | some u ↦ ok u ]

  -- The second and the third query of Identity.
  unfoldable pub scoped_identity : ℕ → ℕ → ℕ → PermissionIdentity → Result Denial PermissionIdentity
  unfolding query find_row exists_row with_environment
  scoped_identity k user_id environment_id i = do
    t1 ← query k
    let j = with_environment (find_row (is_live_environment environment_id) t1.environments) i
    t2 ← query (k + 1)
    ok (record j {
      environment_member =
          exists_row (is_membership user_id environment_id) t2.user_environment_roles;
    })

  unfoldable pub identity : ℕ → ℕ → ℕ → Result Denial PermissionIdentity
  unfolding enabled_user scoped_identity
  identity k user_id environment_id = do
    u ← enabled_user k user_id
    let i : PermissionIdentity = record {
      system_admin = u.is_system_admin;
      environment_id = 0;
      environment_version = pos 0;
      environment_enabled = false;
      environment_member = false;
    }
    elim (environment_id == 0) [
      | true ↦ ok i
      | false ↦ scoped_identity (k + 1) user_id environment_id i
    ]

  unfoldable pub system_admin : ℕ → ℕ → Result Denial Bool
  unfolding enabled_user
  system_admin k user_id = do u ← enabled_user k user_id; ok u.is_system_admin

  unfoldable pub keys_for_user_environment : ℕ → ℕ → ℕ → Result Denial (List String)
  unfolding query granted_keys
  keys_for_user_environment k user_id environment_id = do
    t ← query k
    ok (ordered (granted_keys t user_id environment_id))

  -- List, as the adapter of the resolver projects it.
  unfoldable pub list_keys : ℕ → Result Denial (List String)
  unfolding query
  list_keys k = do t ← query k; ok (map (λ p. p.key) t.permissions)
