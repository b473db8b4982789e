-- ===== src/Access/Discipline.antt =====
-- The discipline of generations: the keys of a user in an environment change only together with the
-- generation of the environment.
use kirby.Base.{ℕ, Bool, false, ◌&&◌, ◌==◌, List, some, ℤ, ◌≡◌, refl, arith}
use kirby.Store.{exists_row}
use kirby.Store.Exists.{where_rows-ext}
use kirby.Access.Data.{Permission, UserEnvironmentRole, Grants}
use kirby.Access.Source.{grants, granted_keys}
use kirby.Access.Generations.{has_id, is_system}
use kirby.Access.Generations.Bumped.{live_version, next_version-ne, IsAdvanced}

abbrev pub IsDisciplined : Grants → Grants → Type 0
IsDisciplined t t' =
    (user_id environment_id : ℕ) (v : ℤ)
    → live_version environment_id t.environments ≡ some v
    → live_version environment_id t'.environments ≡ some v
    → granted_keys t' user_id environment_id ≡ granted_keys t user_id environment_id

-- The user has the role in the environment.
abbrev pub is_link : ℕ → ℕ → ℕ → UserEnvironmentRole → Bool
is_link role_id user_id environment_id l =
    l.role_id == role_id && l.user_id == user_id && l.environment_id == environment_id

pub granted_keys-eq :
    (t t' : Grants) (user_id environment_id : ℕ)
    → t'.permissions ≡ t.permissions
    → ((p : Permission) → grants t' user_id environment_id p ≡ grants t user_id environment_id p)
    → granted_keys t' user_id environment_id ≡ granted_keys t user_id environment_id
unfolding granted_keys
granted_keys-eq t t' user_id environment_id same h =
    rw
      (
        same,
        where_rows-ext (grants t' user_id environment_id) (grants t user_id environment_id) h
            t.permissions,
      )
      refl

pub advanced-ne :
    (ids : List ℕ) {t t' : Grants} (e : ℕ) (v : ℤ)
    → IsAdvanced ids t t'
    → live_version e t.environments ≡ some v
    → live_version e t'.environments ≡ some v
    → has_id e ids ≡ false
advanced-ne ids e v a before after = ground (arith, a.versions e, next_version-ne v)

-- No role has a permission whose key starts with "system:".
abbrev pub IsHarmless : Grants → Type 0
IsHarmless t =
    exists_row (λ p. is_system p && exists_row (λ rp. rp.permission_id == p.id) t.role_permissions)
      t.permissions
    ≡ false
