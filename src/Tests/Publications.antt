-- ===== src/Tests/Publications.antt =====
-- Publications of a configuration with a released and an unreleased snapshot.
use mathlib.Core.List.{Memᴰ}
use mathlib.Core.List.Memᴰ
use kirby.Base.{
  ℕ, String, Bool, true, false, List, [], ◌∷◌, Option, none, some, pos, Result, ok, err,
  Result-cases, ◌≡◌, refl, inl, inr, ◌⊎◌,
}
use kirby.Keys.{contains, add, remove}
use kirby.Dict.{lookup, insert, keys}
use kirby.Schema.Texts.{valid_key, valid_name, enum_value_pattern}
use kirby.Schema.Build.{
  new_schema, well_labelled, validate_enum_values, validate_structure_fields, validate_type,
  supported,
}
use kirby.Schema.Values.{validate_config}
use kirby.Store.{Status, ConfigRow, Snapshot, AuditLog, Tables}
use kirby.Publish.Data.{
  Statement, Failure, Actor, ConfigSnapshot, PublicationRequest, PublicationChange, CleanupKey,
}
use kirby.Publish.Scan.{IsKeyed, IsState, publication_state_lem}
use kirby.Publish.Checks.{publication_state}
use kirby.Publish.Committed.{publish-releases, unpublish-clears}
use kirby.Publish.Outcome.{IsReleased, IsCleared}
use kirby.Publish.Advance.{change_publication-IsAdvanced, IsAdvanced, is_int64}
use kirby.Publish.{publish, unpublish, change_publication}
use kirby.Tests.People.{person, address, moods, owner, decode}

abbrev pub first : Snapshot
first = record {
  id = 11;
  project_id = 4;
  config_id = 7;
  config_key = "owner";
  description = "";
  content = "first.json";
  status = Status.released;
  is_using = false;
  published_at = some 50;
  published_by = some 3;
  updated_by = 3;
  updated_at = 50;
  version = 2;
  deleted = false;
}

abbrev pub second : Snapshot
second = record {
  id = 12;
  project_id = 4;
  config_id = 7;
  config_key = "owner";
  description = "";
  content = "second.json";
  status = Status.unreleased;
  is_using = false;
  published_at = none;
  published_by = none;
  updated_by = 3;
  updated_at = 60;
  version = 1;
  deleted = false;
}

abbrev pub row : ConfigRow
row = record {
  id = 7;
  project_id = 4;
  key = "owner";
  description = "";
  is_array = false;
  type_json = "type.json";
  value = "owner.json";
  runtime_version = pos 5;
  version = 1;
  updated_at = 40;
  deleted = false;
}

abbrev pub tables : Tables
tables = record {
  environments = record { id = 9; project_id = 4; deleted = false } ∷ [];
  projects = record { id = 4; deleted = false } ∷ [];
  configs = row ∷ [];
  snapshots = first ∷ second ∷ [];
  audits = [];
}

abbrev pub admin : Actor
admin = record { user_id = 3; request_id = "r1" }

abbrev decode_content : String → Option ConfigSnapshot
decode_content _ = some (record {
  config = some owner;
  structures = some person ∷ some address ∷ [];
  enums = some moods ∷ [];
})

abbrev listed : List String → List String
listed ks = ks

abbrev healthy : Statement → Bool
healthy _ = false

abbrev allowed : ℕ → ℕ → Result Failure Unit
allowed _ _ = ok tt

abbrev settle :
    Result Failure (PublicationChange × Tables) → Tables → Result Failure PublicationChange × Tables
settle (err e) t = (err e, t)
settle (ok (c, left)) t = (ok c, left)

abbrev transact :
    (Tables → Result Failure (PublicationChange × Tables))
    → Tables
    → Result Failure PublicationChange × Tables
transact body t = settle (body t) t

transact_commits :
    (body : Tables → Result Failure (PublicationChange × Tables)) (t : Tables)
    → ((e : Failure) × (transact body t ≡ (err e, t)))
      ⊎ ((c : PublicationChange) × (left : Tables) × (body t ≡ ok (c, left))
          × (transact body t ≡ (ok c, left)))
transact_commits body t = elim (Result-cases (body t)) [
  | inl (e, failed) ↦ inl (e, rw failed refl)
  | inr ((c, left), done) ↦ inr (c, left, done, rw done refl)
]

abbrev bumped_row : ConfigRow
bumped_row = record row { runtime_version = pos 6; updated_at = 100 }

abbrev retired : Snapshot
retired = record first {
  status = Status.unreleased;
  published_at = none;
  published_by = none;
  updated_at = 100;
  version = 3;
}

abbrev published : Snapshot
published = record second {
  status = Status.released;
  published_at = some 100;
  published_by = some 3;
  updated_at = 100;
  version = 2;
}

abbrev pub log_of : String → ℕ → AuditLog
log_of action id = record {
  environment_id = 9;
  actor_user_id = 3;
  action = action;
  resource_type = "snapshot";
  resource_id = id;
  succeeded = true;
  request_id = "r1";
}

abbrev published_tables : Tables
published_tables = record tables {
  configs = bumped_row ∷ [];
  snapshots = retired ∷ published ∷ [];
  audits = log_of "snapshot.publish" 12 ∷ [];
}

abbrev cleared_tables : Tables
cleared_tables = record tables {
  configs = bumped_row ∷ [];
  snapshots = retired ∷ second ∷ [];
  audits = log_of "snapshot.unpublish" 11 ∷ [];
}

abbrev stale : List CleanupKey
stale = record { project_id = 4; config_key = "owner"; runtime_version = pos 5 } ∷ []

tables-IsKeyed : IsKeyed tables.snapshots
tables-IsKeyed = (
  (λ r m. elim (Memᴰ.cases_cons m) [
    | inl e ↦ rw e refl
    | inr none_left ↦ absurd (Memᴰ.not-nil none_left)
  ]),
  ((λ r m. absurd (Memᴰ.not-nil m)), tt),
)

tables_fit : (c : ConfigRow) → Memᴰ c tables.configs → is_int64 c.runtime_version ≡ true
tables_fit c m = elim (Memᴰ.cases_cons m) [
  | inl e ↦ rw e refl
  | inr none_left ↦ absurd (Memᴰ.not-nil none_left)
]

second_published :
    publish listed decode decode_content healthy 100 allowed transact admin 9 12 1 tables
    ≡ (ok published, (published_tables, stale))
unfolding publish new_schema well_labelled valid_key valid_name lookup insert validate_enum_values
    enum_value_pattern contains validate_structure_fields validate_type add supported keys remove
    validate_config
second_published = refl

first_cleared :
    unpublish listed decode decode_content healthy 100 allowed transact admin 9 11 2 tables
    ≡ (ok retired, (cleared_tables, stale))
unfolding unpublish
first_cleared = refl

publish-releases_example : IsReleased 9 12 published published_tables
publish-releases_example =
    publish-releases listed decode decode_content healthy 100 allowed transact transact_commits
      admin 9 12 1 tables tables-IsKeyed second_published

unpublish-clears_example : IsCleared 9 retired cleared_tables
unpublish-clears_example =
    unpublish-clears listed decode decode_content healthy 100 allowed transact transact_commits
      admin 9 11 2 tables first_cleared

abbrev clearing : PublicationRequest
clearing = record {
  actor = admin;
  environment_id = 9;
  snapshot_id = 11;
  expected_version = 2;
  status = Status.unreleased;
}

clearing_done :
    change_publication listed decode decode_content healthy 100 allowed transact clearing tables
    ≡ (ok retired, (cleared_tables, stale))
unfolding change_publication
clearing_done = refl

change_publication-IsAdvanced_example : IsAdvanced 9 7 tables cleared_tables stale
change_publication-IsAdvanced_example =
    change_publication-IsAdvanced listed decode decode_content healthy 100 allowed transact
      transact_commits clearing tables tables_fit clearing_done

scanned : publication_state 12 none none (first ∷ second ∷ []) ≡ ok (second, some first)
unfolding publication_state
scanned = refl

publication_state_lem_example : IsState 12 none none (first ∷ second ∷ []) second (some first)
publication_state_lem_example = publication_state_lem 12 (first ∷ second ∷ []) none none scanned
