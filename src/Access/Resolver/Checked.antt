-- ===== src/Access/Resolver/Checked.antt =====
-- What a checked identity says of the tables.
use kirby.Base.{
  ℕ, ◌+◌, String, true, false, ◌==◌, List, Option, none, some, pos, Result, ok, >>=-eq-ok,
  ok-injective, ◌≡◌, refl, sym, ap, ◌∙◌, arith, ◌⊎◌, inl, inr, Bool-cases,
}
use kirby.Store.{find_row, exists_row}
use kirby.Access.Data.{User, EnvironmentRow, Grants, PermissionIdentity, Denial, ContentKey, Cached}
use kirby.Access.Source.{
  keys_for_user_environment, granted_keys, identity, enabled_user, scoped_identity, query,
  is_enabled_user, is_live_environment, is_membership, with_environment,
}
use kirby.Access.Resolver.{checked_identity, hide_missing, admit}

-- The three queries from k on show an enabled user and a live environment of version v, and either
-- the user administers the system or the environment is enabled and the user a member of it.
pub record IsChecked (view : ℕ → Option Grants) (k user_id environment_id : ℕ)
    (i : PermissionIdentity) : Type 0 where
  pub first : Grants
  pub second : Grants
  pub third : Grants
  pub user : User
  pub environment : EnvironmentRow
  pub first_shown : view k ≡ some first
  pub second_shown : view (k + 1) ≡ some second
  pub third_shown : view (k + 2) ≡ some third
  pub user_found : find_row (is_enabled_user user_id) first.users ≡ some user
  pub environment_found :
      find_row (is_live_environment environment_id) second.environments ≡ some environment
  pub administers : i.system_admin ≡ user.is_system_admin
  pub generation : i.environment_version ≡ environment.version
  pub allowed :
      (i.system_admin ≡ true)
      ⊎ ((environment.enabled ≡ true)
          × (exists_row (is_membership user_id environment_id) third.user_environment_roles ≡ true))

hide_missing-ok : {A : Type 0} (r : Result Denial A) {a : A} → hide_missing r ≡ ok a → r ≡ ok a
unfolding hide_missing
hide_missing-ok r h = ground arith

admit-ok :
    (i j : PermissionIdentity)
    → admit i ≡ ok j
    → (i ≡ j)
      × ((i.environment_id == 0) ≡ false)
      × ((i.system_admin ≡ true) ⊎ ((i.environment_enabled ≡ true) × (i.environment_member ≡ true)))
unfolding admit
admit-ok i j h = elim (Bool-cases i.system_admin) [
  | inl admin ↦ (ground arith, ground arith, inl admin)
  | inr member ↦ (ground arith, ground arith, inr (ground arith, ground arith))
]

query-ok :
    (ordered : List String → List String) (view : ℕ → Option Grants) (k : ℕ) {t : Grants}
    → query ordered view k ≡ ok t
    → view k ≡ some t
unfolding query
query-ok ordered view k h = ground arith

module _ (ordered : List String → List String) (view : ℕ → Option Grants)
    (user_id environment_id : ℕ) where
  enabled_user-ok :
      (k : ℕ) {u : User}
      → enabled_user ordered view k user_id ≡ ok u
      → (t : Grants) × (view k ≡ some t) × (find_row (is_enabled_user user_id) t.users ≡ some u)
  unfolding enabled_user
  enabled_user-ok k h =
      let (t, q, f) = >>=-eq-ok (query ordered view k) _ h in
      (t, query-ok ordered view k q, ground arith)

  scoped_identity-ok :
      (k : ℕ) (i : PermissionIdentity) {j : PermissionIdentity}
      → scoped_identity ordered view k user_id environment_id i ≡ ok j
      → (t1 : Grants) × (t2 : Grants) × (view k ≡ some t1)
        × (view (k + 1) ≡ some t2)
        × (j
            ≡ record (with_environment
                (find_row (is_live_environment environment_id) t1.environments)
                i) {
                  environment_member =
                      exists_row (is_membership user_id environment_id) t2.user_environment_roles;
                })
  unfolding scoped_identity
  scoped_identity-ok k i h =
      let (t1, q1, f1) = >>=-eq-ok (query ordered view k) _ h in
      let (t2, q2, f2) = >>=-eq-ok (query ordered view (k + 1)) _ f1 in
      (t1, t2, query-ok ordered view k q1, query-ok ordered view (k + 1) q2, sym (ok-injective f2))

  pub keys_for_user_environment-ok :
      (k : ℕ) {keys : List String}
      → keys_for_user_environment ordered view k user_id environment_id ≡ ok keys
      → (t : Grants) × (view k ≡ some t) × (ordered (granted_keys t user_id environment_id) ≡ keys)
  unfolding keys_for_user_environment
  keys_for_user_environment-ok k h =
      let (t, q, f) = >>=-eq-ok (query ordered view k) _ h in
      (t, query-ok ordered view k q, ok-injective f)

  abbrev blank : User → PermissionIdentity
  blank u = record {
    system_admin = u.is_system_admin;
    environment_id = 0;
    environment_version = pos 0;
    environment_enabled = false;
    environment_member = false;
  }

  found-IsChecked :
      (k : ℕ) (u : User) (t0 t1 t2 : Grants) (o : Option EnvironmentRow) {i j : PermissionIdentity}
      → view k ≡ some t0
      → find_row (is_enabled_user user_id) t0.users ≡ some u
      → view (k + 1) ≡ some t1
      → view (k + 2) ≡ some t2
      → find_row (is_live_environment environment_id) t1.environments ≡ o
      → i ≡ record (with_environment o (blank u)) {
        environment_member =
            exists_row (is_membership user_id environment_id) t2.user_environment_roles;
      }
      → admit i ≡ ok j
      → IsChecked view k user_id environment_id j
  unfolding with_environment
  found-IsChecked k u t0 t1 t2 none {i} {j} s0 f s1 s2 there shape admitted =
      let (same, live, allowed) = admit-ok i j admitted in
      let nowhere : i.environment_id ≡ 0 =
        ap (λ (x : PermissionIdentity). x.environment_id) shape in
      absurd (ground arith)
  found-IsChecked k u t0 t1 t2 (some e) {i} {j} s0 f s1 s2 there shape admitted =
      let (same, live, allowed) = admit-ok i j admitted in
      let shape' = sym same ∙ shape in
      record {
        first = t0;
        second = t1;
        third = t2;
        user = u;
        environment = e;
        first_shown = s0;
        second_shown = s1;
        third_shown = s2;
        user_found = f;
        environment_found = there;
        administers = ap (λ (x : PermissionIdentity). x.system_admin) shape';
        generation = ap (λ (x : PermissionIdentity). x.environment_version) shape';
        allowed = elim allowed [
          | inl a ↦ inl (ap (λ (x : PermissionIdentity). x.system_admin) (sym same) ∙ a)
          | inr (enabled, member) ↦ inr (
            sym (ap (λ (x : PermissionIdentity). x.environment_enabled) shape) ∙ enabled,
            sym (ap (λ (x : PermissionIdentity). x.environment_member) shape) ∙ member,
          )
        ];
      }

  admitted-IsChecked :
      (k : ℕ) (u : User) (t0 : Grants) {i j : PermissionIdentity}
      → view k ≡ some t0
      → find_row (is_enabled_user user_id) t0.users ≡ some u
      → scoped_identity ordered view (k + 1) user_id environment_id (blank u) ≡ ok i
      → admit i ≡ ok j
      → IsChecked view k user_id environment_id j
  admitted-IsChecked k u t0 shown found scoped admitted =
      let (t1, t2, s1, s2, shape) = scoped_identity-ok (k + 1) (blank u) scoped in
      let step : k + 1 + 1 ≡ k + 2 = omega arith in
      found-IsChecked k u t0 t1 t2 (find_row (is_live_environment environment_id) t1.environments)
        shown found s1 (rw step at s2) refl shape admitted

  module _ (cached : ℕ → ContentKey → Cached) (decode_keys : String → Option (List String)) where
    pub checked_identity-IsChecked :
        (k : ℕ) {i : PermissionIdentity}
        → checked_identity ordered view cached decode_keys k user_id environment_id ≡ ok i
        → IsChecked view k user_id environment_id i
    unfolding checked_identity identity
    checked_identity-IsChecked k {i} h =
        let (i0, hidden, admitted) =
          >>=-eq-ok (hide_missing (identity ordered view k user_id environment_id)) admit h in
        let (u, enabled, rest) =
          >>=-eq-ok (enabled_user ordered view k user_id) _ (hide_missing-ok _ hidden) in
        let (t0, shown, found) = enabled_user-ok k enabled in
        elim (Bool-cases (environment_id == 0)) [
          | inl nowhere ↦
              let rest' : ok (blank u) ≡ ok i0 = rw nowhere at rest in
              let (same, live, allowed) = admit-ok i0 i admitted in absurd (ground arith)
          | inr some_id ↦ admitted-IsChecked k u t0 shown found (rw some_id at rest) admitted
        ]
