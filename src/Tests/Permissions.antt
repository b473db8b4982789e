-- ===== src/Tests/Permissions.antt =====
-- A member and an administrator, a role with two permissions, and the changes of both.
use kirby.Base.{
  ℕ, String, str_eq, Bool, true, false, not, ◌&&◌, List, [], ◌∷◌, Option, none, some, ℤ, pos, ok,
  err, ◌≡◌, refl, sym, ap, ◌∙◌, subst,
}
use kirby.Keys.{contains}
use kirby.Store.{exists_row, find_row}
use kirby.Access.Data.{
  EnvironmentRow, Role, Grants, GrantAudit, GrantFailure, GrantStatement, MemberRoleUpdate,
  Resolution, ContentKey, Cached, absent, concurrent_change,
}
use kirby.Access.Source.{granted_keys}
use kirby.Access.Normalize.{normalize}
use kirby.Access.Normalize.Order.{IsAscending, normalize_keys}
use kirby.Access.Resolver.{resolve, require}
use kirby.Access.Resolver.Versions.{generation, IsVersioned, IsCoherent}
use kirby.Access.Resolver.Granted.{IsResolved, IsEntitled, resolve-IsResolved, require-IsEntitled}
use kirby.Access.Resolver.Attempts.{IsChanged, resolve-IsChanged}
use kirby.Access.Generations.{is_system}
use kirby.Access.Members.{replace_roles}
use kirby.Access.Members.Replaced.{
  IsReplaced, replace_roles-IsReplaced, replace_roles-IsDisciplined,
}
use kirby.Access.Roles.{update_permissions}
use kirby.Access.Roles.Disciplined.{update_permissions-IsDisciplined, update_permissions-IsHarmless}
use kirby.Access.Discipline.{IsDisciplined, IsHarmless}
use kirby.Access.Normalize.{starts_with}

normalize_keys_example :
    IsAscending (normalize ("config:write" ∷ "" ∷ "asset:write" ∷ "config:write" ∷ []))
    × ((j : String)
        → contains (normalize ("config:write" ∷ "" ∷ "asset:write" ∷ "config:write" ∷ [])) j ≡ (
            contains ("config:write" ∷ "" ∷ "asset:write" ∷ "config:write" ∷ []) j
            && not (str_eq j "")))
normalize_keys_example = normalize_keys ("config:write" ∷ "" ∷ "asset:write" ∷ "config:write" ∷ [])

normalized :
    normalize ("config:write" ∷ "" ∷ "asset:write" ∷ "config:write" ∷ [])
    ≡ "asset:write" ∷ "config:write" ∷ []
unfolding normalize
normalized = refl

abbrev environment : ℤ → EnvironmentRow
environment v = record {
  id = 7;
  enabled = true;
  version = v;
  updated_by = 1;
  updated_at = 5;
  deleted = false;
}

abbrev editor : Role
editor = record {
  id = 4;
  key = "editor";
  name = "Editor";
  description = "";
  builtin = false;
  version = pos 1;
  updated_by = 1;
  updated_at = 5;
  deleted = false;
}

abbrev tables : ℤ → Grants
tables v = record {
  users =
      record { id = 1; enabled = true; is_system_admin = true; deleted = false }
      ∷ record { id = 2; enabled = true; is_system_admin = false; deleted = false }
      ∷ [];
  environments = environment v ∷ [];
  roles = editor ∷ [];
  permissions =
      record { id = 10; key = "config:read" }
      ∷ record { id = 11; key = "config:write" }
      ∷ record { id = 12; key = "system:user:manage" }
      ∷ [];
  role_permissions =
      record { role_id = 4; permission_id = 10; created_by = 1 }
      ∷ record { role_id = 4; permission_id = 11; created_by = 1 }
      ∷ [];
  user_environment_roles =
      record { user_id = 2; environment_id = 7; role_id = 4; created_by = 1 } ∷ [];
  audits = [];
}

abbrev still : ℕ → Option Grants
still _ = some (tables (pos 3))

-- Every query sees a later generation.
abbrev moving : ℕ → Option Grants
moving k = some (tables (pos k))

abbrev as_listed : List String → List String
as_listed ks = ks

abbrev no_cache : ℕ → ContentKey → Cached
no_cache _ _ = absent

abbrev no_text : String → Option (List String)
no_text _ = none

abbrev member_keys : ℤ → String → Bool
member_keys _ j = contains ("config:read" ∷ "config:write" ∷ []) j

abbrev member_resolution : Resolution
member_resolution = record {
  keys = "config:read" ∷ "config:write" ∷ [];
  system_admin = false;
  written = some (
    record { user_id = 2; environment_id = 7; version = pos 3 },
    "config:read" ∷ "config:write" ∷ [],
  );
}

resolved : resolve as_listed still no_cache no_text 2 7 ≡ ok member_resolution
unfolding resolve
resolved = refl

required : require as_listed still no_cache no_text 2 7 ("config:write" ∷ []) ≡ ok tt
unfolding require
required = refl

keys_of_member : (v : ℤ) → granted_keys (tables v) 2 7 ≡ "config:read" ∷ "config:write" ∷ []
unfolding granted_keys
keys_of_member v = refl

some-injective : {x y : Grants} → ◌≡◌ {A = Option Grants} (some x) (some y) → x ≡ y
some-injective h = cc

still-IsVersioned : IsVersioned still 2 7 member_keys
unfolding find_row
still-IsVersioned = record {
  steady = λ i j l v t a b g h shown. ap (generation 7) (sym shown) ∙ g;
  keyed = λ k v t j shown g.
      let same : tables (pos 3) ≡ t = some-injective shown in
      subst (λ x. contains (granted_keys x 2 7) j ≡ member_keys v j) same
        (ap (λ ks. contains ks j) (keys_of_member (pos 3)));
}

no_cache-IsCoherent : IsCoherent as_listed still no_cache no_text 2 7 member_keys
no_cache-IsCoherent k v value keys answer decoded = cc

resolve-IsResolved_example :
    IsResolved as_listed still no_cache no_text 2 7 member_keys still-IsVersioned
      no_cache-IsCoherent
      (λ ks j. refl)
      member_resolution
resolve-IsResolved_example =
    resolve-IsResolved as_listed still no_cache no_text 2 7 member_keys still-IsVersioned
      no_cache-IsCoherent (λ ks j. refl) resolved

require-IsEntitled_example :
    IsEntitled as_listed still no_cache no_text 2 7 member_keys still-IsVersioned
      no_cache-IsCoherent
      (λ ks j. refl)
      ("config:write" ∷ [])
require-IsEntitled_example =
    require-IsEntitled as_listed still no_cache no_text 2 7 member_keys still-IsVersioned
      no_cache-IsCoherent (λ ks j. refl) ("config:write" ∷ []) required

gives_up : resolve as_listed moving no_cache no_text 2 7 ≡ err concurrent_change
unfolding resolve
gives_up = refl

resolve-IsChanged_example :
    IsChanged as_listed moving no_cache no_text 2 7 0
    × IsChanged as_listed moving no_cache no_text 2 7 8
    × IsChanged as_listed moving no_cache no_text 2 7 16
resolve-IsChanged_example = resolve-IsChanged as_listed moving no_cache no_text 2 7 gives_up

abbrev healthy : GrantStatement → Bool
healthy _ = false

abbrev audit : GrantAudit
audit = record {
  environment_id = none;
  actor_user_id = 1;
  action = "environment.member.update";
  resource_id = 0;
}

abbrev dismissal : MemberRoleUpdate
dismissal = record { environment_id = 7; user_id = 2; role_ids = []; actor_id = 1 }

abbrev dismissed : Grants
dismissed = record (tables (pos 3)) {
  environments = record (environment (pos 4)) { updated_at = 9 } ∷ [];
  user_environment_roles = [];
  audits = record audit { environment_id = some 7; resource_id = 2 } ∷ [];
}

dismisses : replace_roles healthy 9 is_system dismissal audit (tables (pos 3)) ≡ ok dismissed
unfolding replace_roles
dismisses = refl

replace_roles-IsReplaced_example :
    IsReplaced healthy 9 is_system dismissal (tables (pos 3)) dismissed
replace_roles-IsReplaced_example =
    replace_roles-IsReplaced healthy 9 is_system dismissal audit (tables (pos 3)) (λ p h. h)
      dismisses

replace_roles-IsDisciplined_example : IsDisciplined (tables (pos 3)) dismissed
replace_roles-IsDisciplined_example =
    replace_roles-IsDisciplined healthy 9 is_system dismissal audit (tables (pos 3)) dismisses

abbrev narrowed : Grants
narrowed = record (tables (pos 3)) {
  environments = record (environment (pos 4)) { updated_at = 9 } ∷ [];
  roles = record editor { version = pos 2; updated_at = 9 } ∷ [];
  role_permissions = record { role_id = 4; permission_id = 10; created_by = 1 } ∷ [];
  audits = record audit { resource_id = 4 } ∷ [];
}

narrows :
    update_permissions healthy 9 4 (10 ∷ []) 1 audit (tables (pos 3))
    ≡ ok (record { user_id = 2; environment_id = 7 } ∷ [], narrowed)
unfolding update_permissions
narrows = refl

refuses :
    update_permissions healthy 9 4 (12 ∷ []) 1 audit (tables (pos 3))
    ≡ err GrantFailure.system_role_permission
unfolding update_permissions
refuses = refl

update_permissions-IsDisciplined_example : IsDisciplined (tables (pos 3)) narrowed
update_permissions-IsDisciplined_example =
    update_permissions-IsDisciplined healthy 9 4 (10 ∷ []) 1 audit (tables (pos 3)) narrows

tables-IsHarmless : IsHarmless (tables (pos 3))
unfolding exists_row starts_with
tables-IsHarmless = refl

update_permissions-IsHarmless_example : IsHarmless narrowed
update_permissions-IsHarmless_example =
    update_permissions-IsHarmless healthy 9 4 (10 ∷ []) 1 audit (tables (pos 3)) tables-IsHarmless
      narrows
