-- ===== src/Access/Members/Replaced.antt =====
-- What ReplaceRoles leaves behind.
use kirby.Base.{
  ℕ, Bool, true, false, not, ◌&&◌, ◌||◌, ◌==◌, List, [], ◌∷◌, ◌++◌, map, some, ℤ, ◌≡◌, sym, ap, ◌∙◌,
  ok, fail_if, >>=-eq-ok, ok-injective, if◌then◌else◌, arith, length,
}
use kirby.Store.{exists_row, where_rows, affected_rows}
use kirby.Store.Exists.{exists_row-false, exists_row-append, exists_row-ext, exists_row-narrow}
use kirby.Access.Data.{
  Permission, UserEnvironmentRole, Grants, GrantAudit, GrantStatement, MemberRoleUpdate, missing,
  failed,
}
use kirby.Access.Source.{grants, is_membership}
use kirby.Access.Generations.{
  attempt, is_system, has_id, has_system_permission, ensure_roles_contain_no_system_permissions,
  bump_environment_permission_generations, record_audit,
}
use kirby.Access.Generations.Bumped.{
  next_version-ne, live_version, next, IsAdvanced,
  bump_environment_permission_generations-IsAdvanced,
}
use kirby.Access.Discipline.{IsDisciplined, is_link, granted_keys-eq}
use kirby.Access.Members.{
  no_ids, member_link, lock_member, lock_roles, replace_links, replace_roles, is_live_role,
}

module _ (fault : GrantStatement → Bool) (now : ℕ) where
  -- The links of the member are those asked for; those of other members and environments stay.
  abbrev replaced_links : ℕ → ℕ → List ℕ → ℕ → List UserEnvironmentRole → List UserEnvironmentRole
  replaced_links environment_id user_id role_ids actor_id rows =
      where_rows (λ l. not (is_membership user_id environment_id l)) rows
      ++ map (member_link user_id environment_id actor_id) role_ids

  exists_new :
      (e u a r x y : ℕ) (ids : List ℕ)
      → exists_row (is_link r x y) (map (member_link u e a) ids)
        ≡ (u == x && e == y && has_id r ids)
  unfolding exists_row has_id
  exists_new e u a r x y [] = ground arith
  exists_new e u a r x y (i ∷ ids) = ground (arith, exists_new e u a r x y ids)

  exists_kept :
      (e u r x y : ℕ) (rows : List UserEnvironmentRole)
      → exists_row (is_link r x y) (where_rows (λ l. not (is_membership u e l)) rows)
        ≡ (not (u == x && e == y) && exists_row (is_link r x y) rows)
  unfolding exists_row where_rows
  exists_kept e u r x y [] = ground arith
  exists_kept e u r x y (l ∷ rows) = ground (arith, exists_kept e u r x y rows)

  replace_links-ok :
      (e u a : ℕ) (ids : List ℕ) (t : Grants) {t1 : Grants}
      → replace_links fault now e u ids a t ≡ ok t1
      → record t { user_environment_roles = replaced_links e u ids a t.user_environment_roles } ≡ t1
  unfolding replace_links
  replace_links-ok e u a ids t h =
      let (_, _, h1) = >>=-eq-ok (attempt fault now GrantStatement.delete_links) _ h in
      let (_, _, h2) =
        >>=-eq-ok (fail_if (not (no_ids ids) && fault GrantStatement.insert_links) failed) _ h1 in
      ok-injective h2

  lock_roles-ok :
      (like : Permission → Bool) (ids : List ℕ) (t : Grants)
      → lock_roles fault now like ids t ≡ ok tt
      → has_system_permission like t ids ≡ false
  unfolding lock_roles ensure_roles_contain_no_system_permissions has_system_permission has_id
  lock_roles-ok like [] t h =
      exists_row-false _
        (λ p. exists_both p (exists_row-false _ (λ rp. ground arith) t.role_permissions))
        t.permissions
    where
      exists_both : (p : Permission) {b : Bool} → b ≡ false → (like p && b) ≡ false
      exists_both p h = ground arith
  lock_roles-ok like (i ∷ ids) t h =
      let (_, _, h1) = >>=-eq-ok (attempt fault now GrantStatement.lock_roles) _ h in
      let (_, _, h2) =
        >>=-eq-ok
          (fail_if (not (affected_rows (is_live_role (i ∷ ids)) t.roles == length (i ∷ ids)))
            (missing "environment role"))
          _ h1 in
      let (_, _, h3) = >>=-eq-ok (attempt fault now GrantStatement.find_system_permission) _ h2 in
      ground arith

  -- After ReplaceRoles the member has exactly the roles asked for, which have no system permission,
  -- and the generation of that environment alone is the next one.
  pub record IsReplaced (like : Permission → Bool) (u : MemberRoleUpdate) (t t' : Grants)
      : Type 0 where
    pub links :
        (r x y : ℕ)
        → exists_row (is_link r x y) t'.user_environment_roles ≡ (
            if u.user_id == x && u.environment_id == y
            then has_id r u.role_ids
            else exists_row (is_link r x y) t.user_environment_roles)
    pub harmless : has_system_permission like t u.role_ids ≡ false
    pub advanced : (v : ℤ) × (live_version u.environment_id t.environments ≡ some v)
    pub versions :
        (e : ℕ)
        → live_version e t'.environments ≡ (
            if u.environment_id == e
            then next (live_version e t.environments)
            else live_version e t.environments)
    pub roles : t'.roles ≡ t.roles
    pub permissions : t'.permissions ≡ t.permissions
    pub role_permissions : t'.role_permissions ≡ t.role_permissions

  audited :
      (audit : GrantAudit) (t : Grants) {t' : Grants}
      → record_audit fault now audit t ≡ ok t'
      → record t { audits = audit ∷ t.audits } ≡ t'
  unfolding record_audit
  audited audit t h =
      let (_, _, h1) = >>=-eq-ok (attempt fault now GrantStatement.insert_audit) _ h in
      ok-injective h1

  assemble :
      (like : Permission → Bool) (u : MemberRoleUpdate) (audit : GrantAudit) (t t1 t2 t' : Grants)
      → has_system_permission like t u.role_ids ≡ false
      → t1 ≡ record t {
        user_environment_roles =
            replaced_links u.environment_id u.user_id u.role_ids u.actor_id
              t.user_environment_roles;
      }
      → IsAdvanced (u.environment_id ∷ []) t1 t2
      → t' ≡ record t2 { audits = audit ∷ t2.audits }
      → IsReplaced like u t t'
  unfolding has_id
  assemble like u audit t t1 t2 t' harmless e1 a e2 = record {
    links = λ r x y.
        ap (λ (g : Grants). exists_row (is_link r x y) g.user_environment_roles) e2
        ∙ (ap (exists_row (is_link r x y)) a.user_environment_roles
            ∙ (ap (λ (g : Grants). exists_row (is_link r x y) g.user_environment_roles) e1
                ∙ (exists_row-append (is_link r x y) _
                      (map (member_link u.user_id u.environment_id u.actor_id) u.role_ids)
                    ∙ ground (
                      arith,
                      exists_new u.environment_id u.user_id u.actor_id r x y u.role_ids,
                      exists_kept u.environment_id u.user_id r x y t.user_environment_roles,
                    ))));
    harmless = harmless;
    advanced =
        let (v, there) = a.live u.environment_id (ground arith) in
        (v, ap (λ (g : Grants). live_version u.environment_id g.environments) (sym e1) ∙ there);
    versions = λ e.
        ap (λ (g : Grants). live_version e g.environments) e2
        ∙ (a.versions e
            ∙ (ap
                  (λ (g : Grants).
                    if u.environment_id == e || false
                    then next (live_version e g.environments)
                    else live_version e g.environments)
                  e1
                ∙ ground arith));
    roles = ap (λ (g : Grants). g.roles) e2 ∙ (a.roles ∙ ap (λ (g : Grants). g.roles) e1);
    permissions =
        ap (λ (g : Grants). g.permissions) e2
        ∙ (a.permissions ∙ ap (λ (g : Grants). g.permissions) e1);
    role_permissions =
        ap (λ (g : Grants). g.role_permissions) e2
        ∙ (a.role_permissions ∙ ap (λ (g : Grants). g.role_permissions) e1);
  }

  replace_roles-IsReplaced_like :
      (like : Permission → Bool) (u : MemberRoleUpdate) (audit : GrantAudit) (t : Grants)
      {t' : Grants}
      → replace_roles fault now like u audit t ≡ ok t'
      → IsReplaced like u t t'
  unfolding replace_roles
  replace_roles-IsReplaced_like like u audit t {t'} h =
      let (_, _, h1) = >>=-eq-ok (lock_member fault now u.environment_id u.user_id t) _ h in
      let (_, locked, h2) = >>=-eq-ok (lock_roles fault now like u.role_ids t) _ h1 in
      let (t1, linked, h3) =
        >>=-eq-ok (replace_links fault now u.environment_id u.user_id u.role_ids u.actor_id t) _
          h2 in
      let (t2, bumped, h4) =
        >>=-eq-ok
          (bump_environment_permission_generations fault now (u.environment_id ∷ []) u.actor_id t1)
          _ h3 in
      let audit' = record audit {
        environment_id = some u.environment_id;
        resource_id = u.user_id;
      } in
      assemble like u audit' t t1 t2 t' (lock_roles-ok like u.role_ids t locked)
        (sym (replace_links-ok u.environment_id u.user_id u.actor_id u.role_ids t linked))
        (bump_environment_permission_generations-IsAdvanced fault now u.actor_id
          (u.environment_id ∷ []) t1 bumped)
        (sym (audited audit' t2 h4))

  -- After a successful ReplaceRoles the member has exactly the roles asked for, none of which has a
  -- system permission, every other membership is as before, the environment was live and its
  -- generation is the next one, and no other generation has moved. LIKE 'system:%' holds of every
  -- key that starts with "system:".
  pub replace_roles-IsReplaced :
      (like_system : Permission → Bool) (u : MemberRoleUpdate) (audit : GrantAudit) (t : Grants)
      {t' : Grants}
      → ((p : Permission) → is_system p ≡ true → like_system p ≡ true)
      → replace_roles fault now like_system u audit t ≡ ok t'
      → IsReplaced is_system u t t'
  unfolding has_system_permission
  replace_roles-IsReplaced like_system u audit t covers h =
      let c = replace_roles-IsReplaced_like like_system u audit t h in
      record {
        links = c.links;
        harmless =
            exists_row-narrow _ _ (λ p found. ground (arith, covers p)) t.permissions c.harmless;
        advanced = c.advanced;
        versions = c.versions;
        roles = c.roles;
        permissions = c.permissions;
        role_permissions = c.role_permissions;
      }

  -- ReplaceRoles changes the keys of no user in an environment whose generation it leaves alone.
  pub replace_roles-IsDisciplined :
      (like_system : Permission → Bool) (u : MemberRoleUpdate) (audit : GrantAudit) (t : Grants)
      {t' : Grants}
      → replace_roles fault now like_system u audit t ≡ ok t'
      → IsDisciplined t t'
  unfolding grants
  replace_roles-IsDisciplined like_system u audit t {t'} h x y v before after =
      let c = replace_roles-IsReplaced_like like_system u audit t h in
      let elsewhere : (u.environment_id == y) ≡ false =
        ground (arith, c.versions y, next_version-ne v) in
      granted_keys-eq t t' x y c.permissions (λ p.
        rw (c.role_permissions, c.roles)
          (exists_row-ext _ _
            (λ rp.
              ap
                (λ b.
                  rp.permission_id == p.id
                  && exists_row (λ r. r.id == rp.role_id && not r.deleted) t.roles
                  && b)
                (same_links (u.user_id == x) (u.environment_id == y)
                  (exists_row (is_link rp.role_id x y) t.user_environment_roles)
                  (has_id rp.role_id u.role_ids) elsewhere (c.links rp.role_id x y)))
            t.role_permissions))
    where
      same_links :
          (b here found new : Bool) {other : Bool}
          → here ≡ false
          → other ≡ (if b && here then new else found)
          → other ≡ found
      same_links b here found new h e = ground arith
