-- ===== src/Access/Generations/Bumped.antt =====
-- What an advance of generations does: each listed environment moves to its next version, once.
use kirby.Base.{
  ℕ, suc, zero, Bool, true, false, ◌==◌, ==_iff, List, [], ◌∷◌, Option, none, some, ℤ, pos, negsuc,
  ◌≡◌, ◌≢◌, refl, sym, ap, ◌∙◌, inl, inr, Bool-cases, if◌then◌else◌, arith, ok, fail_if, >>=-eq-ok,
  ok-injective,
}
use kirby.Store.{find_row, update_rows, affected_rows}
use kirby.Store.Exists.{affected_rows-find}
use kirby.Publish.Writes.{next_version}
use kirby.Access.Data.{EnvironmentRow, Grants, GrantStatement, unchanged}
use kirby.Access.Source.{is_live_environment}
use kirby.Access.Generations.{
  has_id, bumped, bump_environment_permission_generation, bump_each,
  bump_environment_permission_generations, sort_ids, compact_ids, attempt,
}
use kirby.Access.Generations.Ids.{
  IsAscending, IsAboveFrom, distinct_ids, has_id-distinct_ids, has_id-above,
}

-- The version of the live environment with an ID.
abbrev pub live_version : ℕ → List EnvironmentRow → Option ℤ
live_version e rows = elim (find_row (is_live_environment e) rows) [
  | none ↦ none
  | some r ↦ some r.version
]

abbrev pub next : Option ℤ → Option ℤ
next none = none
next (some v) = some (next_version v)

pub next_version-ne : (v : ℤ) → next_version v ≢ v
next_version-ne (pos n) h = ground arith
next_version-ne (negsuc zero) h = cc
next_version-ne (negsuc (suc n)) h = ground arith

-- The listed environments are live and get their next version; nothing else changes.
pub record IsAdvanced (ids : List ℕ) (t t' : Grants) : Type 0 where
  pub versions :
      (e : ℕ)
      → live_version e t'.environments ≡ (
          if has_id e ids
          then next (live_version e t.environments)
          else live_version e t.environments)
  pub live : (e : ℕ) → has_id e ids ≡ true → (v : ℤ) × (live_version e t.environments ≡ some v)
  pub users : t'.users ≡ t.users
  pub roles : t'.roles ≡ t.roles
  pub permissions : t'.permissions ≡ t.permissions
  pub role_permissions : t'.role_permissions ≡ t.role_permissions
  pub user_environment_roles : t'.user_environment_roles ≡ t.user_environment_roles

module _ (fault : GrantStatement → Bool) (now : ℕ) (actor_id : ℕ) where
  live_version-update :
      (e x : ℕ) (rows : List EnvironmentRow)
      → live_version x (update_rows (is_live_environment e) (bumped fault now actor_id) rows)
        ≡ (if e == x then next (live_version x rows) else live_version x rows)
  unfolding find_row update_rows bumped
  live_version-update e x [] = ground arith
  live_version-update e x (r ∷ rows) = ground (arith, live_version-update e x rows)

  attempt-ok : (s : GrantStatement) {u : Unit {0}} → attempt fault now s ≡ ok u → fault s ≡ false
  attempt-ok s h = ground arith

  bump-IsAdvanced :
      (e : ℕ) (t : Grants) {t' : Grants}
      → bump_environment_permission_generation fault now e actor_id t ≡ ok t'
      → IsAdvanced (e ∷ []) t t'
  unfolding bump_environment_permission_generation has_id
  bump-IsAdvanced e t {t'} h =
      let (_, _, h1) = >>=-eq-ok (attempt fault now GrantStatement.bump_generation) _ h in
      let (_, some_row, h2) =
        >>=-eq-ok
          (fail_if (affected_rows (is_live_environment e) t.environments == 0)
            (unchanged "environment permission generation"))
          _ h1 in
      let e' : record t {
        environments =
            update_rows (is_live_environment e) (bumped fault now actor_id) t.environments;
      }
          ≡ t' =
        ok-injective h2 in
      record {
        versions = λ x.
            ap (λ (g : Grants). live_version x g.environments) (sym e')
            ∙ (live_version-update e x t.environments ∙ ground arith);
        live = λ x listed.
            let (r, found) =
              affected_rows-find (is_live_environment e) t.environments (λ z. ground arith) in
            let same : e ≡ x = ground arith in
            (r.version, rw (← same) (rw (found, live_version) refl));
        users = ap (λ (g : Grants). g.users) (sym e');
        roles = ap (λ (g : Grants). g.roles) (sym e');
        permissions = ap (λ (g : Grants). g.permissions) (sym e');
        role_permissions = ap (λ (g : Grants). g.role_permissions) (sym e');
        user_environment_roles = ap (λ (g : Grants). g.user_environment_roles) (sym e');
      }

  bump_each-IsAdvanced :
      (ids : List ℕ) (t : Grants) {t' : Grants}
      → IsAscending ids
      → bump_each fault now ids actor_id t ≡ ok t'
      → IsAdvanced ids t t'
  unfolding bump_each has_id
  bump_each-IsAdvanced [] t {t'} a h =
      let same : t ≡ t' = ok-injective h in
      record {
        versions = λ x. ap (λ (g : Grants). live_version x g.environments) (sym same);
        live = λ x listed. absurd (cc listed);
        users = ap (λ (g : Grants). g.users) (sym same);
        roles = ap (λ (g : Grants). g.roles) (sym same);
        permissions = ap (λ (g : Grants). g.permissions) (sym same);
        role_permissions = ap (λ (g : Grants). g.role_permissions) (sym same);
        user_environment_roles = ap (λ (g : Grants). g.user_environment_roles) (sym same);
      }
  bump_each-IsAdvanced (e ∷ es) t {t'} a h =
      let (t1, h1, h2) =
        >>=-eq-ok (bump_environment_permission_generation fault now e actor_id t) _ h in
      let one = bump-IsAdvanced e t h1 in
      let rest = bump_each-IsAdvanced es t1 (IsAscending-tail e es a) h2 in
      record {
        versions = λ x. ground (
          arith,
          one.versions x,
          rest.versions x,
          has_id-above e e es (omega arith) a,
          ==_iff e x,
        );
        live = λ x listed. elim (Bool-cases (e == x)) [
          | inl here ↦ one.live x (rw here refl)
          | inr elsewhere ↦
              let (v, there) = rest.live x (rw elsewhere at listed) in
              let kept : live_version x t1.environments ≡ live_version x t.environments =
                rw elsewhere at (one.versions x) in
              (v, sym kept ∙ there)
        ];
        users = rest.users ∙ one.users;
        roles = rest.roles ∙ one.roles;
        permissions = rest.permissions ∙ one.permissions;
        role_permissions = rest.role_permissions ∙ one.role_permissions;
        user_environment_roles = rest.user_environment_roles ∙ one.user_environment_roles;
      }
    where
      IsAscending-tail : (x : ℕ) (xs : List ℕ) → IsAboveFrom x xs → IsAscending xs
      IsAscending-tail x [] h = tt
      IsAscending-tail x (y ∷ ys) h = h.1

  -- The listed environments advance once each, however often and in whatever order they are listed.
  pub bump_environment_permission_generations-IsAdvanced :
      (ids : List ℕ) (t : Grants) {t' : Grants}
      → bump_environment_permission_generations fault now ids actor_id t ≡ ok t'
      → IsAdvanced ids t t'
  unfolding bump_environment_permission_generations
  bump_environment_permission_generations-IsAdvanced ids t {t'} h =
      let once = compact_ids none (sort_ids ids) in
      let a = bump_each-IsAdvanced once t (distinct_ids ids) h in
      record {
        versions = λ x.
            a.versions x
            ∙ ap
                (λ b.
                  if b then next (live_version x t.environments) else live_version x t.environments)
                (has_id-distinct_ids ids x);
        live = λ x listed. a.live x (has_id-distinct_ids ids x ∙ listed);
        users = a.users;
        roles = a.roles;
        permissions = a.permissions;
        role_permissions = a.role_permissions;
        user_environment_roles = a.user_environment_roles;
      }
