-- ===== src/Store.antt =====
-- The tables that publication reads and writes (server/internal/model) and the scopes of
-- server/internal/repository/scope.go. A table is the list of its rows by ascending ID. IDs are
-- only compared here, so they are natural numbers; so are instants. Of a nullable `deleted_at` only
-- whether it is set is kept.
pub mod Rows
pub mod Exists
use kirby.Base.{
  ℕ, suc, String, Bool, true, false, not, ◌&&◌, ◌||◌, ◌==◌, List, [], ◌∷◌, Option, none, some, ℤ,
  if◌then◌else◌,
}

pub data Status : Type 0 where
  unreleased released : Status
  unsupported : ℕ → Status

abbrev pub same_status : Status → Status → Bool
same_status Status.unreleased Status.unreleased = true
same_status Status.released Status.released = true
same_status (Status.unsupported a) (Status.unsupported b) = a == b
same_status _ _ = false

pub record Environment : Type 0 where
  pub id : ℕ
  pub project_id : ℕ
  pub deleted : Bool

pub record Project : Type 0 where
  pub id : ℕ
  pub deleted : Bool

pub record ConfigRow : Type 0 where
  pub id : ℕ
  pub project_id : ℕ
  pub key : String
  pub description : String
  pub is_array : Bool
  pub type_json : String
  pub value : String
  pub runtime_version : ℤ
  pub version : ℕ
  pub updated_at : ℕ
  pub deleted : Bool

pub record Snapshot : Type 0 where
  pub id : ℕ
  pub project_id : ℕ
  pub config_id : ℕ
  pub config_key : String
  pub description : String
  pub content : String
  pub status : Status
  pub is_using : Bool
  pub published_at : Option ℕ
  pub published_by : Option ℕ
  pub updated_by : ℕ
  pub updated_at : ℕ
  pub version : ℕ
  pub deleted : Bool

pub record AuditLog : Type 0 where
  pub environment_id : ℕ
  pub actor_user_id : ℕ
  pub action : String
  pub resource_type : String
  pub resource_id : ℕ
  pub succeeded : Bool
  pub request_id : String

pub record Tables : Type 0 where
  pub environments : List Environment
  pub projects : List Project
  pub configs : List ConfigRow
  pub snapshots : List Snapshot
  pub audits : List AuditLog

module _ {A : Type 0} where
  unfoldable pub exists_row : (A → Bool) → List A → Bool
  exists_row p [] = false
  exists_row p (r ∷ rows) = p r || exists_row p rows

  unfoldable pub find_row : (A → Bool) → List A → Option A
  find_row p [] = none
  find_row p (r ∷ rows) = if p r then some r else find_row p rows

  unfoldable pub where_rows : (A → Bool) → List A → List A
  where_rows p [] = []
  where_rows p (r ∷ rows) = if p r then r ∷ where_rows p rows else where_rows p rows

  -- UPDATE: the rows that the condition selects are changed, and counted.
  unfoldable pub update_rows : (A → Bool) → (A → A) → List A → List A
  update_rows p f [] = []
  update_rows p f (r ∷ rows) = (if p r then f r else r) ∷ update_rows p f rows

  unfoldable pub affected_rows : (A → Bool) → List A → ℕ
  affected_rows p [] = 0
  affected_rows p (r ∷ rows) = if p r then suc (affected_rows p rows) else affected_rows p rows

-- The inner joins with projects and environments, neither of them deleted.
unfoldable pub covers : Tables → ℕ → ℕ → Bool
unfolding exists_row
covers t environment_id project_id =
    exists_row (λ p. p.id == project_id && not p.deleted) t.projects
    && exists_row (λ e. e.id == environment_id && e.project_id == project_id && not e.deleted)
        t.environments

-- configScope with c.id
unfoldable pub in_config_scope : Tables → ℕ → ℕ → ConfigRow → Bool
unfolding covers
in_config_scope t environment_id config_id c =
    c.id == config_id && not c.deleted && covers t environment_id c.project_id

-- snapshotScope; the row joins its config of the same project.
unfoldable pub in_snapshot_scope : Tables → ℕ → Snapshot → Bool
unfolding covers exists_row
in_snapshot_scope t environment_id s =
    not s.deleted
    && exists_row (λ c. c.id == s.config_id && c.project_id == s.project_id && not c.deleted)
        t.configs
    && covers t environment_id s.project_id
