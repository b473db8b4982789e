-- ===== src/Access/Resolver/Settled.antt =====
-- The end of an attempt of Resolve: what a member and an administrator are answered.
use kirby.Base.{
  ℕ, String, Bool, true, false, eqz, eqz_iff, List, Option, none, some, ok, >>=-eq-ok, ok-injective,
  if◌then◌else◌, ◌≡◌, sym, ap, subst, map, ◌∙◌, arith, ◌⊎◌, inl, inr, Bool-cases,
}
use kirby.Keys.{contains}
use kirby.Access.Data.{Grants, PermissionIdentity, ContentKey, Cached, Resolution}
use kirby.Access.Normalize.{normalize}
use kirby.Access.Normalize.Order.{normalize_keys}
use kirby.Access.Source.{list_keys, query}
use kirby.Access.Resolver.{all_permission_keys, resolve_admin, settle}
use kirby.Access.Resolver.Versions.{AreKeysOf}

module _ (ordered : List String → List String) (view : ℕ → Option Grants)
    (cached : ℕ → ContentKey → Cached) (decode_keys : String → Option (List String)) where
  -- The keys of the catalog, as a query lists them.
  pub record IsCatalog (k : ℕ) (keys : List String) : Type 0 where
    pub tables : Grants
    pub shown : view k ≡ some tables
    pub listed : AreKeysOf (contains (map (λ p. p.key) tables.permissions)) keys

  all_permission_keys-IsCatalog :
      (k : ℕ) {keys : List String}
      → all_permission_keys ordered view cached decode_keys k ≡ ok keys
      → IsCatalog k keys
  unfolding all_permission_keys list_keys query
  all_permission_keys-IsCatalog k h =
      let (raw, listed, e) = >>=-eq-ok (list_keys ordered view k) _ h in
      let (t, asked, e') = >>=-eq-ok (query ordered view k) _ listed in
      record {
        tables = t;
        shown = ground arith;
        listed =
            subst (AreKeysOf (contains (map (λ p. p.key) t.permissions)))
              (ap normalize (ok-injective e') ∙ ok-injective e)
              ((normalize_keys (map (λ p. p.key) t.permissions)).1);
      }

  pub resolve_admin-ok :
      (k : ℕ) {r : Resolution}
      → resolve_admin ordered view cached decode_keys k ≡ ok r
      → (r.system_admin ≡ true) × (r.written ≡ none) × IsCatalog k r.keys
  unfolding resolve_admin
  resolve_admin-ok k h =
      let (keys, listed, e) =
        >>=-eq-ok (all_permission_keys ordered view cached decode_keys k) _ h in
      (
        ap (λ (x : Resolution). x.system_admin) (sym (ok-injective e)),
        ap (λ (x : Resolution). x.written) (sym (ok-injective e)),
        subst (IsCatalog k) (ap (λ (x : Resolution). x.keys) (ok-injective e))
            (all_permission_keys-IsCatalog k listed),
      )

  pub settle-ok :
      (k : ℕ) (key : ContentKey) (keys : List String) (hit : Bool) (i : PermissionIdentity)
      {r : Resolution}
      → settle ordered view cached decode_keys k key (keys, hit) i ≡ ok r
      → ((r.system_admin ≡ true)
          × (i.system_admin ≡ true)
          × (r.written ≡ none)
          × IsCatalog k r.keys)
        ⊎ ((r.system_admin ≡ false)
            × (i.environment_version ≡ key.version)
            × (r.keys ≡ keys)
            × (r.written ≡ (if hit then none else some (key, keys))))
  unfolding settle
  settle-ok k key keys hit i {r} h = elim (Bool-cases i.system_admin) [
    | inl admin ↦ let (a, w, c) = resolve_admin-ok k (rw admin at h) in inl (a, admin, w, c)
    | inr member ↦ elim (Bool-cases (eqz i.environment_version key.version)) [
      | inl same ↦
          let e : ok (record {
            keys = keys;
            system_admin = false;
            written = if hit then none else some (key, keys);
          })
              ≡ ok r =
            rw (member, same) at h in
          inr (
            ground arith,
            (eqz_iff i.environment_version key.version).0 same,
            ground arith,
            ground arith,
          )
      | inr changed ↦ let e = rw (member, changed) at h in absurd (cc e)
    ]
  ]
