-- ===== src/Access/Resolver/Attempts.antt =====
-- When Resolve gives up.
use kirby.Base.{
  ℕ, suc, ◌+◌, String, Bool, true, eqz, eqz_iff, List, Option, Result, ok, err, >>=-eq-err, ◌≡◌,
  ◌≢◌, refl, sym, arith, inl, inr, Bool-cases,
}
use kirby.Access.Data.{
  Grants, PermissionIdentity, Denial, ContentKey, Cached, Resolution, concurrent_change,
}
use kirby.Access.Source.{
  identity, enabled_user, scoped_identity, query, keys_for_user_environment, list_keys,
}
use kirby.Access.Resolver.{
  content_key, checked_identity, hide_missing, admit, load_permissions, all_permission_keys,
  resolve_admin, settle, resolve_member, resolve_attempt, resolve_from, resolve, retry,
}
use kirby.Access.Resolver.Checked.{IsChecked, checked_identity-IsChecked}

hide_missing-err :
    (r : Result Denial PermissionIdentity)
    → hide_missing r ≡ err concurrent_change
    → r ≡ err concurrent_change
unfolding hide_missing
hide_missing-err r h = ground arith

module _ (ordered : List String → List String) (view : ℕ → Option Grants)
    (cached : ℕ → ContentKey → Cached) (decode_keys : String → Option (List String))
    (user_id environment_id : ℕ) where
  -- Two identities, four queries apart, show different versions of the environment.
  pub record IsChanged (k : ℕ) : Type 0 where
    pub before : PermissionIdentity
    pub after : PermissionIdentity
    pub first : IsChecked view k user_id environment_id before
    pub second : IsChecked view (k + 4) user_id environment_id after
    pub differ : before.environment_version ≢ after.environment_version

  query-ne-concurrent : (k : ℕ) → query ordered view k ≢ err concurrent_change
  unfolding query
  query-ne-concurrent k h = ground arith

  identity-ne-concurrent :
      (k : ℕ) → identity ordered view k user_id environment_id ≢ err concurrent_change
  unfolding identity enabled_user scoped_identity query
  identity-ne-concurrent k h = ground arith

  admit-ne-concurrent : (i : PermissionIdentity) → admit i ≢ err concurrent_change
  unfolding admit
  admit-ne-concurrent i h = ground arith

  checked_identity-ne-concurrent :
      (k : ℕ)
      → checked_identity ordered view cached decode_keys k user_id environment_id
        ≢ err concurrent_change
  unfolding checked_identity hide_missing
  checked_identity-ne-concurrent k h =
      elim (>>=-eq-err (hide_missing (identity ordered view k user_id environment_id)) admit h) [
        | inl early ↦ identity-ne-concurrent k (hide_missing-err _ early)
        | inr (i, _, refused) ↦ admit-ne-concurrent i refused
      ]

  load_permissions-ne-concurrent :
      (k : ℕ) (key : ContentKey)
      → load_permissions ordered view cached decode_keys k key ≢ err concurrent_change
  unfolding load_permissions keys_for_user_environment query
  load_permissions-ne-concurrent k key h = ground arith

  resolve_admin-ne-concurrent :
      (k : ℕ) → resolve_admin ordered view cached decode_keys k ≢ err concurrent_change
  unfolding resolve_admin all_permission_keys list_keys query
  resolve_admin-ne-concurrent k h = ground arith

  settle-IsChanged :
      (k : ℕ) (key : ContentKey) (loaded : List String × Bool) (i : PermissionIdentity)
      → settle ordered view cached decode_keys k key loaded i ≡ err concurrent_change
      → i.environment_version ≢ key.version
  unfolding settle
  settle-IsChanged k key (keys, hit) i h same = elim (Bool-cases i.system_admin) [
    | inl admin ↦ resolve_admin-ne-concurrent k (rw admin at h)
    | inr member ↦
        let equal : eqz i.environment_version key.version ≡ true =
          (eqz_iff i.environment_version key.version).1 same in
        let e = rw (member, equal) at h in absurd (cc e)
  ]

  resolve_member-IsChanged :
      (k : ℕ) (i : PermissionIdentity)
      → IsChecked view k user_id environment_id i
      → resolve_member ordered view cached decode_keys
          (k + 3)
          (content_key user_id environment_id i.environment_version)
        ≡ err concurrent_change
      → IsChanged k
  unfolding resolve_member
  resolve_member-IsChanged k i c h =
      let key = content_key user_id environment_id i.environment_version in
      elim (>>=-eq-err (load_permissions ordered view cached decode_keys (k + 3) key) _ h) [
        | inl early ↦ absurd (load_permissions-ne-concurrent (k + 3) key early)
        | inr (loaded, _, h1) ↦
            elim (>>=-eq-err
              (checked_identity ordered view cached decode_keys (k + 3 + 1) user_id environment_id)
              _ h1) [
                | inl early ↦ absurd (checked_identity-ne-concurrent (k + 3 + 1) early)
                | inr (j, second, h2) ↦
                    let step : k + 3 + 1 ≡ k + 4 = omega arith in
                    let d =
                      checked_identity-IsChecked ordered view user_id environment_id cached
                        decode_keys (k + 3 + 1) second in
                    record {
                      before = i;
                      after = j;
                      first = c;
                      second = rw step at d;
                      differ = λ same. settle-IsChanged (k + 3 + 4) key loaded j h2 (sym same);
                    }
              ]
      ]

  resolve_attempt-IsChanged :
      (k : ℕ)
      → resolve_attempt ordered view cached decode_keys k user_id environment_id
        ≡ err concurrent_change
      → IsChanged k
  unfolding resolve_attempt
  resolve_attempt-IsChanged k h =
      elim (>>=-eq-err (checked_identity ordered view cached decode_keys k user_id environment_id) _
        h) [
          | inl early ↦ absurd (checked_identity-ne-concurrent k early)
          | inr (i, first, h1) ↦ elim (Bool-cases i.system_admin) [
            | inl admin ↦ absurd (resolve_admin-ne-concurrent (k + 3) (rw admin at h1))
            | inr member ↦
                resolve_member-IsChanged k i
                  (checked_identity-IsChecked ordered view user_id environment_id cached decode_keys
                    k first)
                  (rw member at h1)
          ]
        ]

  retry-concurrent :
      (first rest : Result Denial Resolution)
      → retry first rest ≡ err concurrent_change
      → (first ≡ err concurrent_change) × (rest ≡ err concurrent_change)
  retry-concurrent (ok x) rest h = absurd (cc)
  retry-concurrent (err concurrent_change) rest h = (refl, h)
  retry-concurrent (err other) rest h = ground arith

  resolve_from-concurrent :
      (attempts k : ℕ)
      → resolve_from ordered view cached decode_keys (suc attempts) k user_id environment_id
        ≡ err concurrent_change
      → IsChanged k
        × (resolve_from ordered view cached decode_keys attempts (k + 8) user_id environment_id
            ≡ err concurrent_change)
  unfolding resolve_from
  resolve_from-concurrent attempts k h =
      let (first, rest) = retry-concurrent _ _ h in (resolve_attempt-IsChanged k first, rest)

  -- Resolve reports a concurrent change only if in each of its three attempts the version of the
  -- environment differed between the two identities.
  pub resolve-IsChanged :
      resolve ordered view cached decode_keys user_id environment_id ≡ err concurrent_change
      → IsChanged 0 × IsChanged 8 × IsChanged 16
  unfolding resolve
  resolve-IsChanged h =
      let (a, h1) = resolve_from-concurrent 2 0 h in
      let (b, h2) = resolve_from-concurrent 1 8 h1 in
      let (c, _) = resolve_from-concurrent 0 16 h2 in (a, b, c)
