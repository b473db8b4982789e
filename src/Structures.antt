-- ===== src/Structures.antt =====
-- The rows of structures and enums (server/internal/model/configuration.go), and
-- server/internal/repository/structure.go. IDs are positive here, as those of a database are.
-- Parameters: `fault` says which statement the database fails, `now` is the clock; `next_id` is the
-- ID that the table gives a new row, `same_key` the comparison of keys under the collation of their
-- column, which in MySQL does not tell letters of different case apart and in PostgreSQL is exact. The
-- rows of a table stand in the order of their IDs.
pub mod Convert
pub mod Edit
pub mod Kept
pub mod Dropped
pub mod Written
pub mod Changed
pub mod Left
pub mod Checked
pub mod Edited
use kirby.Base.{
  ℕ, suc, ◌+◌, String, str_eq, Bool, true, false, not, ◌&&◌, ◌||◌, ◌==◌, List, [], ◌∷◌, ◌++◌,
  Option, none, some, ℤ, pos, eqz, Result, ok, err, ◌>>=◌, ◌>>◌, fail_if, if◌then◌else◌,
}
use kirby.Keys.{contains}
use kirby.Store.{
  ConfigRow, Tables, find_row, where_rows, update_rows, affected_rows, exists_row, covers,
  in_config_scope,
}
use kirby.Publish.Data.{Failure, missing, unchanged, conflict, database}
use kirby.Publish.Writes.{next_version}

-- A structure or an enum; `content` is the JSON of its fields or values.
pub record ChildRow : Type 0 where
  pub id : ℕ
  pub config_id : ℕ
  pub key : String
  pub name : String
  pub description : String
  pub content : String
  pub version : ℤ
  pub created_by : ℕ
  pub updated_by : ℕ
  pub updated_at : ℕ
  pub deleted : Bool

-- StructureUpdate
pub record ChildUpdate : Type 0 where
  pub key : String
  pub name : String
  pub description : String
  pub content : String
  pub updated_by : ℕ
  pub version : ℤ

pub data ChildStatement : Type 0 where
  lock_parent find_key restore_row insert_row find_child lock_children update_row delete_row :
      ChildStatement
  insert_log : ChildStatement

-- The joins of structureScopeIncludingDeleted, the environment given.
unfoldable pub in_child_scope : Tables → ℕ → ChildRow → Bool
unfolding exists_row covers
in_child_scope t environment_id s =
    exists_row (λ c. c.id == s.config_id && not c.deleted && covers t environment_id c.project_id)
      t.configs

module _ (fault : ChildStatement → Bool) (now : ℕ) where
  abbrev pub attempt : ChildStatement → Result Failure (Unit {0})
  attempt s = fail_if (fault s) database

  -- lockScopedConfig
  unfoldable pub lock_scoped_config : Tables → ℕ → ℕ → Result Failure (Unit {0})
  unfolding exists_row in_config_scope
  lock_scoped_config t environment_id config_id = do
    attempt ChildStatement.lock_parent
    fail_if (not (exists_row (in_config_scope t environment_id config_id) t.configs))
        (missing "config")

  unfoldable pub restored : ChildRow → ℤ → ChildRow → ChildRow
  restored item version r = record r {
    name = item.name;
    description = item.description;
    content = item.content;
    created_by = item.created_by;
    updated_by = item.updated_by;
    updated_at = now;
    version = next_version version;
    deleted = false;
  }

  unfoldable pub restore : ChildRow → ChildRow → List ChildRow → Result Failure (List ChildRow)
  unfolding update_rows affected_rows restored
  restore existing item rows = do
    fail_if (not existing.deleted) (conflict "key")
    attempt ChildStatement.restore_row
    fail_if (affected_rows (λ r. r.id == existing.id) rows == 0) (unchanged "structure")
    ok (update_rows (λ r. r.id == existing.id) (restored item existing.version) rows)

  abbrev pub has_key : (String → String → Bool) → ℕ → String → ChildRow → Bool
  has_key same_key config_id key r = r.config_id == config_id && same_key r.key key

  -- The row that PrepareInsert and the insertion leave.
  unfoldable pub inserted : ℕ → ℕ → ChildRow → ChildRow
  inserted next_id config_id item = record item {
    id = next_id;
    config_id = config_id;
    version = pos 1;
    updated_at = now;
    deleted = false;
  }

  unfoldable pub create :
      (String → String → Bool)
      → Tables
      → ℕ
      → ℕ
      → ℕ
      → ChildRow
      → List ChildRow
      → Result Failure (List ChildRow)
  unfolding lock_scoped_config find_row restore inserted
  create same_key t next_id environment_id config_id item rows = do
    lock_scoped_config t environment_id config_id
    attempt ChildStatement.find_key
    elim (find_row (has_key same_key config_id item.key) rows) [
      | some existing ↦ restore existing item rows
      | none ↦ do
        attempt ChildStatement.insert_row
        ok (rows ++ inserted next_id config_id item ∷ [])
    ]

  unfoldable pub find_by_id : Tables → ℕ → ℕ → List ChildRow → Result Failure ChildRow
  unfolding find_row in_child_scope
  find_by_id t environment_id item_id rows = do
    attempt ChildStatement.find_child
    elim (find_row (λ r. not r.deleted && in_child_scope t environment_id r && r.id == item_id)
        rows) [ none ↦ err (missing "structure") | some r ↦ ok r ]

  unfoldable pub list_for_config : Tables → ℕ → ℕ → List ChildRow → Result Failure (List ChildRow)
  unfolding where_rows in_child_scope
  list_for_config t environment_id config_id rows = do
    attempt ChildStatement.lock_children
    ok (
        where_rows (λ r. not r.deleted)
          (where_rows (λ r. in_child_scope t environment_id r && r.config_id == config_id) rows))

  -- The WHERE clause of Update, and what it sets.
  abbrev pub at_version : ℕ → ℤ → ChildRow → Bool
  at_version item_id version r = r.id == item_id && not r.deleted && eqz r.version version

  unfoldable pub changed : ChildUpdate → ChildRow → ChildRow
  changed u r = record r {
    key = u.key;
    name = u.name;
    description = u.description;
    content = u.content;
    updated_by = u.updated_by;
    updated_at = now;
    version = next_version u.version;
  }

  -- The unique key of a configuration counts deleted rows too.
  abbrev pub is_taken : (String → String → Bool) → ℕ → ℕ → String → ChildRow → Bool
  is_taken same_key config_id item_id key r =
      has_key same_key config_id key r && not (r.id == item_id)

  unfoldable pub update :
      (String → String → Bool)
      → Tables
      → ℕ
      → ℕ
      → ChildUpdate
      → List ChildRow
      → Result Failure (List ChildRow)
  unfolding find_by_id update_rows affected_rows changed exists_row
  update same_key t environment_id item_id u rows = do
    found ← find_by_id t environment_id item_id rows
    attempt ChildStatement.update_row
    fail_if
        (not (affected_rows (at_version item_id u.version) rows == 0)
          && exists_row (is_taken same_key found.config_id item_id u.key) rows)
        (conflict "key")
    fail_if (affected_rows (at_version item_id u.version) rows == 0) (unchanged "structure")
    ok (update_rows (at_version item_id u.version) (changed u) rows)

  abbrev pub is_live_child : ℕ → ChildRow → Bool
  is_live_child item_id r = r.id == item_id && not r.deleted

  unfoldable pub dropped : ℕ → ChildRow → ChildRow
  dropped updated_by r = record r {
    deleted = true;
    updated_by = updated_by;
    updated_at = now;
    version = next_version r.version;
  }

  unfoldable pub delete : Tables → ℕ → ℕ → ℕ → List ChildRow → Result Failure (List ChildRow)
  unfolding find_by_id update_rows affected_rows dropped
  delete t environment_id item_id updated_by rows = do
    found ← find_by_id t environment_id item_id rows
    attempt ChildStatement.delete_row
    fail_if (affected_rows (is_live_child item_id) rows == 0) (unchanged "structure")
    ok (update_rows (is_live_child item_id) (dropped updated_by) rows)
