-- ===== src/Access/Resolver/Versions.antt =====
-- Generations: the version of an environment stands for the permissions that its members have.
use kirby.Base.{
  ℕ, ◌+◌, ◌≤◌, String, str_eq, Bool, not, ◌&&◌, List, Option, none, some, ℤ, ok, >>=-eq-ok,
  ok-injective, ◌≡◌, refl, sym, ap, ◌∙◌, subst, inl, inr, Option-cases,
}
use kirby.Keys.{contains}
use kirby.Store.{find_row}
use kirby.Access.Data.{Grants, PermissionIdentity, ContentKey, Cached, absent, unavailable, entry}
use kirby.Access.Source.{is_live_environment, granted_keys, keys_for_user_environment, query}
use kirby.Access.Normalize.{normalize}
use kirby.Access.Normalize.Order.{normalize_keys}
use kirby.Access.Resolver.{content_key, decode_permissions, cached_permissions, load_permissions}
use kirby.Access.Resolver.Checked.{IsChecked, keys_for_user_environment-ok}

-- The version of the live environment in the tables of a query.
abbrev pub generation : ℕ → Option Grants → Option ℤ
generation environment_id none = none
generation environment_id (some t) =
    elim (find_row (is_live_environment environment_id) t.environments) [
      | none ↦ none
      | some e ↦ some e.version
    ]

-- The keys are those of the set, without the empty one.
abbrev pub AreKeysOf : (String → Bool) → List String → Type 0
AreKeysOf granted keys = (j : String) → contains keys j ≡ (granted j && not (str_eq j ""))

-- Two queries that see one generation enclose none that sees another, and a generation determines
-- which keys the user has.
pub record IsVersioned (view : ℕ → Option Grants) (user_id environment_id : ℕ)
    (granted_at : ℤ → String → Bool) : Type 0 where
  pub steady :
      (i j l : ℕ) (v : ℤ) (t : Grants)
      → i ≤ j
      → j ≤ l
      → generation environment_id (view i) ≡ some v
      → generation environment_id (view l) ≡ some v
      → view j ≡ some t
      → generation environment_id (some t) ≡ some v
  pub keyed :
      (k : ℕ) (v : ℤ) (t : Grants) (j : String)
      → view k ≡ some t
      → generation environment_id (some t) ≡ some v
      → contains (granted_keys t user_id environment_id) j ≡ granted_at v j

pub IsChecked-generation :
    {view : ℕ → Option Grants} {k user_id environment_id : ℕ} {i : PermissionIdentity}
    → IsChecked view k user_id environment_id i
    → generation environment_id (view (k + 1)) ≡ some i.environment_version
IsChecked-generation c =
    rw (c.second_shown, c.environment_found, generation) (ap some (sym c.generation))

module _ (ordered : List String → List String) (view : ℕ → Option Grants)
    (cached : ℕ → ContentKey → Cached) (decode_keys : String → Option (List String))
    (user_id environment_id : ℕ) (granted_at : ℤ → String → Bool) where
  -- Every entry of the cache holds the keys of its generation.
  abbrev pub IsCoherent : Type 0
  IsCoherent =
      (k : ℕ) (v : ℤ) (value : String) (keys : List String)
      → cached k (content_key user_id environment_id v) ≡ entry value
      → decode_permissions ordered view cached decode_keys value ≡ some keys
      → AreKeysOf (granted_at v) keys

  cached_permissions-some :
      (c : Cached) {keys : List String}
      → cached_permissions ordered view cached decode_keys c ≡ some keys
      → (value : String) × (c ≡ entry value)
        × (decode_permissions ordered view cached decode_keys value ≡ some keys)
  unfolding cached_permissions
  cached_permissions-some absent h = cc
  cached_permissions-some unavailable h = cc
  cached_permissions-some (entry value) h = (value, refl, h)

  module _ (versioned : IsVersioned view user_id environment_id granted_at) (coherent : IsCoherent)
      (distinct : (ks : List String) (j : String) → contains (ordered ks) j ≡ contains ks j) where
    normalized :
        (k : ℕ) (v : ℤ) (t : Grants)
        → view k ≡ some t
        → generation environment_id (some t) ≡ some v
        → AreKeysOf (granted_at v) (normalize (ordered (granted_keys t user_id environment_id)))
    normalized k v t shown g j =
        (normalize_keys (ordered (granted_keys t user_id environment_id))).1 j
        ∙ ap (λ b. b && not (str_eq j ""))
            (distinct (granted_keys t user_id environment_id) j ∙ versioned.keyed k v t j shown g)

    -- The keys loaded are those of the generation, if the query falls into it.
    pub load_permissions-AreKeysOf :
        (k : ℕ) (v : ℤ) (keys : List String) (hit : Bool)
        → load_permissions ordered view cached decode_keys k (content_key user_id environment_id v)
          ≡ ok (keys, hit)
        → ((t : Grants) → view k ≡ some t → generation environment_id (some t) ≡ some v)
        → AreKeysOf (granted_at v) keys
    unfolding load_permissions keys_for_user_environment query
    load_permissions-AreKeysOf k v keys hit h inside =
        elim (Option-cases (
          cached_permissions ordered view cached decode_keys
            (cached k (content_key user_id environment_id v)))) [
              | inl miss ↦
                  let (raw, asked, e) =
                    >>=-eq-ok (keys_for_user_environment ordered view k user_id environment_id) _
                      (rw (miss, load_permissions) at h) in
                  let (t, shown, e') =
                    keys_for_user_environment-ok ordered view user_id environment_id k asked in
                  let same : normalize (ordered (granted_keys t user_id environment_id)) ≡ keys =
                    ap normalize e' ∙ ap (λ (p : List String × Bool). p.0) (ok-injective e) in
                  subst (AreKeysOf (granted_at v)) same (normalized k v t shown (inside t shown))
              | inr (found, e) ↦
                  let same : found ≡ keys =
                    ap (λ (p : List String × Bool). p.0)
                      (ok-injective (rw (e, load_permissions) at h)) in
                  let (value, answer, decoded) = cached_permissions-some _ e in
                  subst (AreKeysOf (granted_at v)) same (coherent k v value found answer decoded)
            ]
