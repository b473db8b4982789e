-- ===== src/Access/Resolver.antt =====
-- server/internal/permission/permission.go: Resolver.
-- Parameters: those of Access/Source.antt; `cached` is the answer of the cache to a Get at each
-- query number; `decode_keys` is json.Unmarshal of a list of texts. An attempt uses at most eight
-- queries, and the attempts of a call follow one another in time.
pub mod Checked
pub mod Versions
pub mod Settled
pub mod Granted
pub mod Attempts
use kirby.Base.{
  ℕ, zero, suc, ◌+◌, String, Bool, true, false, not, ◌&&◌, ◌||◌, ◌==◌, eqz, List, [], ◌∷◌, Option,
  none, some, ℤ, pos, negsuc, is_negative, Result, ok, err, ◌>>=◌, ◌>>◌, fail_if, if◌then◌else◌,
}
use kirby.Keys.{contains}
use kirby.Access.Data.{
  Grants, PermissionIdentity, Denial, ContentKey, Cached, Resolution, forbidden,
  environment_not_found, concurrent_change, invalid_version, system_key_required, not_found, absent,
  unavailable, entry,
}
use kirby.Access.Source.{identity, system_admin, keys_for_user_environment, list_keys}
use kirby.Access.Normalize.{normalize, starts_with}

-- A missing account is a denial.
unfoldable pub hide_missing : {A : Type 0} → Result Denial A → Result Denial A
hide_missing (err not_found) = err forbidden
hide_missing r = r

-- The tests of the resolver's identity.
unfoldable pub admit : PermissionIdentity → Result Denial PermissionIdentity
admit i = do
  fail_if (i.environment_id == 0) (if i.system_admin then environment_not_found else forbidden)
  fail_if (not i.system_admin && (not i.environment_enabled || not i.environment_member)) forbidden
  fail_if (is_negative i.environment_version) invalid_version
  ok i

-- Every required key is available.
unfoldable pub all_available : List String → List String → Bool
unfolding contains
all_available keys [] = true
all_available keys (k ∷ ks) = contains keys k && all_available keys ks

-- The loop of Resolve goes on only after a concurrent change.
abbrev pub retry : Result Denial Resolution → Result Denial Resolution → Result Denial Resolution
retry (err concurrent_change) rest = rest
retry r rest = r

abbrev pub max_resolve_retry : ℕ
max_resolve_retry = 3

abbrev pub content_key : ℕ → ℕ → ℤ → ContentKey
content_key user_id environment_id version = record {
  user_id = user_id;
  environment_id = environment_id;
  version = version;
}

-- The generation before this one, if there is one.
unfoldable pub stale_version : ℤ → Option ℤ
stale_version (pos (suc n)) = some (pos n)
stale_version _ = none

module _ (ordered : List String → List String) (view : ℕ → Option Grants)
    (cached : ℕ → ContentKey → Cached) (decode_keys : String → Option (List String)) where
  unfoldable pub checked_identity : ℕ → ℕ → ℕ → Result Denial PermissionIdentity
  unfolding identity hide_missing admit
  checked_identity k user_id environment_id =
      hide_missing (identity ordered view k user_id environment_id) >>= admit

  unfoldable pub decode_permissions : String → Option (List String)
  unfolding normalize
  decode_permissions value = elim (decode_keys value) [
    | none ↦ none
    | some keys ↦ some (normalize keys)
  ]

  unfoldable pub cached_permissions : Cached → Option (List String)
  unfolding decode_permissions
  cached_permissions (entry value) = decode_permissions value
  cached_permissions _ = none

  -- The keys, and whether they come from the cache.
  unfoldable pub load_permissions : ℕ → ContentKey → Result Denial (List String × Bool)
  unfolding cached_permissions keys_for_user_environment normalize
  load_permissions k key = elim (cached_permissions (cached k key)) [
    | some keys ↦ ok (keys, true)
    | none ↦ do
      keys ← keys_for_user_environment ordered view k key.user_id key.environment_id
      ok (normalize keys, false)
  ]

  unfoldable pub all_permission_keys : ℕ → Result Denial (List String)
  unfolding list_keys normalize
  all_permission_keys k = do keys ← list_keys ordered view k; ok (normalize keys)

  unfoldable pub resolve_admin : ℕ → Result Denial Resolution
  unfolding all_permission_keys
  resolve_admin k = do
    keys ← all_permission_keys k
    ok (record { keys = keys; system_admin = true; written = none })

  -- The rest of resolveAttempt after the second identity.
  unfoldable pub settle :
      ℕ → ContentKey → List String × Bool → PermissionIdentity → Result Denial Resolution
  unfolding resolve_admin
  settle k key (keys, hit) confirmed = elim confirmed.system_admin [
    | true ↦ resolve_admin k
    | false ↦ do
      fail_if (not (eqz confirmed.environment_version key.version)) concurrent_change
      ok (record {
        keys = keys;
        system_admin = false;
        written = if hit then none else some (key, keys);
      })
  ]

  unfoldable pub resolve_member : ℕ → ContentKey → Result Denial Resolution
  unfolding load_permissions checked_identity settle
  resolve_member k key = do
    loaded ← load_permissions k key
    confirmed ← checked_identity (k + 1) key.user_id key.environment_id
    settle (k + 4) key loaded confirmed

  unfoldable pub resolve_attempt : ℕ → ℕ → ℕ → Result Denial Resolution
  unfolding checked_identity resolve_admin resolve_member
  resolve_attempt k user_id environment_id = do
    i ← checked_identity k user_id environment_id
    elim i.system_admin [
      | true ↦ resolve_admin (k + 3)
      | false ↦ resolve_member (k + 3) (content_key user_id environment_id i.environment_version)
    ]

  -- The attempts that are left, the first at query k.
  unfoldable pub resolve_from : ℕ → ℕ → ℕ → ℕ → Result Denial Resolution
  unfolding resolve_attempt
  resolve_from zero k user_id environment_id = err concurrent_change
  resolve_from (suc attempts) k user_id environment_id =
      let rest = resolve_from attempts (k + 8) user_id environment_id in
      retry (resolve_attempt k user_id environment_id) rest

  unfoldable pub resolve : ℕ → ℕ → Result Denial Resolution
  unfolding resolve_from
  resolve user_id environment_id = resolve_from max_resolve_retry 0 user_id environment_id

  unfoldable pub require : ℕ → ℕ → List String → Result Denial (Unit {0})
  unfolding resolve all_available
  require user_id environment_id required = do
    r ← resolve user_id environment_id
    fail_if (not r.system_admin && not (all_available r.keys required)) forbidden

  unfoldable pub require_system : ℕ → String → Result Denial (Unit {0})
  unfolding system_admin hide_missing starts_with
  require_system user_id required = do
    fail_if (not (starts_with "system:" required)) system_key_required
    is_admin ← hide_missing (system_admin ordered view 0 user_id)
    fail_if (not is_admin) forbidden

  -- The cache entry that Invalidate deletes, if any.
  unfoldable pub invalidate : ℕ → ℕ → Result Denial (Option ContentKey)
  unfolding identity stale_version
  invalidate user_id environment_id = elim (identity ordered view 0 user_id environment_id) [
    | err not_found ↦ ok none
    | err failure ↦ err failure
    | ok i ↦ elim (stale_version i.environment_version) [
      | none ↦ ok none
      | some v ↦ ok (some (content_key user_id environment_id v))
    ]
  ]
