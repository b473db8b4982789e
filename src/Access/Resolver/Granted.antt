-- ===== src/Access/Resolver/Granted.antt =====
-- What Resolve returns, and what Require lets pass, where the generation of an environment stands for
-- the permissions that its members have.
use kirby.Base.{
  ℕ, suc, zero, ◌+◌, String, Bool, true, false, List, [], ◌∷◌, Option, none, some, ℤ, Result, All,
  All-map, ok, err, >>=-eq-ok, if◌then◌else◌, ◌≡◌, sym, ap, subst, ◌∙◌, arith, ◌⊎◌, inl, inr,
  Bool-cases,
}
use kirby.Keys.{contains}
use kirby.Access.Data.{
  Grants, PermissionIdentity, Denial, ContentKey, Cached, Resolution, concurrent_change,
}
use kirby.Access.Source.{granted_keys}
use kirby.Access.Resolver.{
  content_key, checked_identity, load_permissions, resolve_member, resolve_attempt, resolve_from,
  resolve, require, retry, all_available,
}
use kirby.Access.Resolver.Checked.{IsChecked, checked_identity-IsChecked}
use kirby.Access.Resolver.Settled.{IsCatalog, resolve_admin-ok, settle-ok}
use kirby.Access.Resolver.Versions.{
  generation, AreKeysOf, IsVersioned, IsCoherent, IsChecked-generation, load_permissions-AreKeysOf,
}

module _ (ordered : List String → List String) (view : ℕ → Option Grants)
    (cached : ℕ → ContentKey → Cached) (decode_keys : String → Option (List String))
    (user_id environment_id : ℕ) (granted_at : ℤ → String → Bool)
    (versioned : IsVersioned view user_id environment_id granted_at)
    (coherent : IsCoherent ordered view cached decode_keys user_id environment_id granted_at)
    (distinct : (ks : List String) (j : String) → contains (ordered ks) j ≡ contains ks j) where
  -- The identity that confirms a result, and what the result says: every key that the user has at
  -- that generation, or those of the catalog for an administrator.
  pub record IsResolved (r : Resolution) : Type 0 where
    pub at : ℕ
    pub confirmed : PermissionIdentity
    pub checked : IsChecked view at user_id environment_id confirmed
    pub outcome :
        ((r.system_admin ≡ true)
          × (confirmed.system_admin ≡ true)
          × (r.written ≡ none)
          × IsCatalog ordered view cached decode_keys (at + 3) r.keys)
        ⊎ ((r.system_admin ≡ false)
            × AreKeysOf (granted_at confirmed.environment_version) r.keys
            × ((r.written ≡ none)
                ⊎ (r.written
                    ≡ some (
                      content_key user_id environment_id confirmed.environment_version,
                      r.keys,
                    ))))

  store_of :
      (key : ContentKey) (keys : List String) (hit : Bool) (key' : ContentKey) (r : Resolution)
      → key' ≡ key
      → r.keys ≡ keys
      → r.written ≡ (if hit then none else some (key, keys))
      → (r.written ≡ none) ⊎ (r.written ≡ some (key', r.keys))
  store_of key keys true key' r k e w = inl w
  store_of key keys false key' r k e w = inr (rw (k, e) w)

  -- The keys of a member are those of the generation that both identities see.
  resolve_member-IsResolved :
      (k : ℕ) (i : PermissionIdentity) {r : Resolution}
      → IsChecked view k user_id environment_id i
      → resolve_member ordered view cached decode_keys
          (k + 3)
          (content_key user_id environment_id i.environment_version)
        ≡ ok r
      → IsResolved r
  unfolding resolve_member
  resolve_member-IsResolved k i {r} c h =
      let key = content_key user_id environment_id i.environment_version in
      let ((keys, hit), loaded, h1) =
        >>=-eq-ok (load_permissions ordered view cached decode_keys (k + 3) key) _ h in
      let (j, second, h2) =
        >>=-eq-ok
          (checked_identity ordered view cached decode_keys (k + 3 + 1) user_id environment_id) _
          h1 in
      let d =
        checked_identity-IsChecked ordered view user_id environment_id cached decode_keys
          (k + 3 + 1) second in
      record {
        at = k + 3 + 1;
        confirmed = j;
        checked = d;
        outcome = elim (settle-ok ordered view cached decode_keys (k + 3 + 4) key keys hit j h2) [
          | inl (a, admin, w, listed) ↦ inl (
            a,
            admin,
            w,
            subst (λ n. IsCatalog ordered view cached decode_keys n r.keys) (omega arith) listed,
          )
          | inr (member, same, e, written) ↦ inr (
            member,
            rw (e, same)
                (load_permissions-AreKeysOf ordered view cached decode_keys user_id environment_id
                  granted_at versioned coherent distinct (k + 3) i.environment_version keys hit
                  loaded
                  (λ t shown.
                    versioned.steady (k + 1) (k + 3) (k + 3 + 1 + 1) i.environment_version t
                      (omega arith) (omega arith) (IsChecked-generation c)
                      (IsChecked-generation d ∙ ap some same) shown)),
            store_of key keys hit (content_key user_id environment_id j.environment_version) r
                (ap (content_key user_id environment_id) same) e written,
          )
        ];
      }

  resolve_attempt-IsResolved :
      (k : ℕ) {r : Resolution}
      → resolve_attempt ordered view cached decode_keys k user_id environment_id ≡ ok r
      → IsResolved r
  unfolding resolve_attempt
  resolve_attempt-IsResolved k {r} h =
      let (i, first, h1) =
        >>=-eq-ok (checked_identity ordered view cached decode_keys k user_id environment_id) _ h in
      let c =
        checked_identity-IsChecked ordered view user_id environment_id cached decode_keys k first in
      elim (Bool-cases i.system_admin) [
        | inl admin ↦ record {
          at = k;
          confirmed = i;
          checked = c;
          outcome =
              (let (a, w, d) =
                  resolve_admin-ok ordered view cached decode_keys (k + 3) (rw admin at h1) in
                inl (a, admin, w, d));
        }
        | inr member ↦ resolve_member-IsResolved k i c (rw member at h1)
      ]

  retry-ok :
      (first rest : Result Denial Resolution) {r : Resolution}
      → retry first rest ≡ ok r
      → (first ≡ ok r) ⊎ (rest ≡ ok r)
  retry-ok (ok x) rest h = inl h
  retry-ok (err concurrent_change) rest h = inr h
  retry-ok (err other) rest h = inl (ground arith)

  resolve_from-IsResolved :
      (attempts k : ℕ) {r : Resolution}
      → resolve_from ordered view cached decode_keys attempts k user_id environment_id ≡ ok r
      → IsResolved r
  unfolding resolve_from
  resolve_from-IsResolved zero k h = absurd (cc)
  resolve_from-IsResolved (suc attempts) k h = elim (retry-ok _ _ h) [
    | inl now ↦ resolve_attempt-IsResolved k now
    | inr later ↦ resolve_from-IsResolved attempts (k + 8) later
  ]

  -- A result of Resolve is confirmed by an identity check of the call: for a member it holds exactly
  -- the nonempty keys of the generation that the check saw, and is written to the cache, if at all,
  -- under the key of that generation; for a system administrator, and nobody else is answered as one,
  -- it holds exactly the nonempty keys of the catalog that the next query after the check lists, and
  -- nothing is written. A generation of the environment determines the keys and is not left and
  -- entered again during the call, the cache holds the keys of their generations, and DISTINCT keeps
  -- the keys.
  pub resolve-IsResolved :
      {r : Resolution}
      → resolve ordered view cached decode_keys user_id environment_id ≡ ok r
      → IsResolved r
  unfolding resolve
  resolve-IsResolved h = resolve_from-IsResolved 3 0 h

  all_available-All :
      (keys required : List String) (granted : String → Bool)
      → AreKeysOf granted keys
      → all_available keys required ≡ true
      → All (λ j. granted j ≡ true) required
  unfolding all_available
  all_available-All keys [] granted own h = tt
  all_available-All keys (j ∷ js) granted own h =
      (ground (arith, own j), all_available-All keys js granted own (ground arith))

  -- The user administers the system, or has every required key at the confirming query.
  pub record IsEntitled (required : List String) : Type 0 where
    pub at : ℕ
    pub confirmed : PermissionIdentity
    pub checked : IsChecked view at user_id environment_id confirmed
    pub allowed :
        (confirmed.system_admin ≡ true)
        ⊎ All (λ j. contains (granted_keys checked.second user_id environment_id) j ≡ true) required

  -- If Require returns no error, then at one query of the call the user was enabled, at the next the
  -- environment was live, and the user administers the system, or at that query had every required
  -- key, the environment was enabled and at the query after it the user a member.
  pub require-IsEntitled :
      (required : List String)
      → require ordered view cached decode_keys user_id environment_id required ≡ ok tt
      → IsEntitled required
  unfolding require
  require-IsEntitled required h =
      let (r, resolved, rest) =
        >>=-eq-ok (resolve ordered view cached decode_keys user_id environment_id) _ h in
      let s = resolve-IsResolved resolved in
      record {
        at = s.at;
        confirmed = s.confirmed;
        checked = s.checked;
        allowed = elim s.outcome [
          | inl (_, admin, _, _) ↦ inl admin
          | inr (member, own, _) ↦ inr (
              All-map
                (λ j g.
                  versioned.keyed (s.at + 1) s.confirmed.environment_version s.checked.second j
                    s.checked.second_shown
                    (ap (generation environment_id) (sym s.checked.second_shown)
                      ∙ IsChecked-generation s.checked)
                  ∙ g)
                required
                (all_available-All r.keys required (granted_at s.confirmed.environment_version) own
                  (ground arith)))
        ];
      }
