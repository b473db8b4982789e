-- ===== src/Structures/Edit.antt =====
-- server/internal/logic/structure.go (Update, Delete) with the resources of
-- server/internal/logic/config_resources.go.
-- Parameters: those of Structures and Structures.Convert; `decode_type` and `encode_fields` are the
-- JSON of protocol messages too;
-- `range_keys` is that of NewSchema, `require` the permission checker's Require, `transact` the
-- engine's TX.
use kirby.Base.{
  ℕ, String, str_eq, Bool, true, false, not, ◌&&◌, ◌||◌, List, [], ◌∷◌, map, Option, none, some, ℤ,
  pos, eqz, Result, ok, err, ◌>>=◌, ◌>>◌, fail_if, if◌then◌else◌,
}
use kirby.Schema.Types.{
  Structure, ConfigEnum, Field, FieldType, SelectOption, Schema, Checked, get_type,
  get_structure_key,
}
use kirby.Schema.Build.{new_schema}
use kirby.Store.{ConfigRow, Tables, AuditLog, find_row, in_config_scope}
use kirby.Publish.Data.{Failure, Actor, missing, conflict, invalid, schema}
use kirby.SafeInt.{uint32_from_int64}
use kirby.Structures.Convert.{internal, as_version, structures_to_proto, enums_to_proto}
use kirby.Structures.{
  ChildRow, ChildStatement, attempt, find_by_id, list_for_config, update, delete,
}

-- The tables that an edit reads and writes.
pub record Workspace : Type 0 where
  pub tables : Tables
  pub structures : List ChildRow
  pub enums : List ChildRow

pub record StructureInput : Type 0 where
  pub key : String
  pub name : String
  pub description : String
  pub fields : List (Option Field)
  pub version : ℤ

-- What configResources.lock returns.
pub record Resources : Type 0 where
  pub config : ConfigRow
  pub structures : List Structure
  pub enums : List ConfigEnum

abbrev pub checked_schema : Checked Schema → Result Failure Schema
checked_schema (ok s) = ok s
checked_schema (err e) = err (schema e)

unfoldable pub find_structure : List Structure → ℤ → Result Failure Structure
find_structure [] id = err (missing "structure")
find_structure (s ∷ items) id = if eqz s.id id then ok s else find_structure items id

unfoldable pub fields_reference_structure : List (Option Field) → String → Bool
fields_reference_structure [] key = false
fields_reference_structure (f ∷ fields) key =
    str_eq (get_structure_key (get_type f)) key || fields_reference_structure fields key

unfoldable pub some_other_references : List Structure → String → ℤ → Bool
unfolding fields_reference_structure
some_other_references [] key ignored = false
some_other_references (s ∷ items) key ignored =
    (not (eqz s.id ignored) && fields_reference_structure s.fields key)
    || some_other_references items key ignored

-- The structures without the one of the ID.
unfoldable pub others : ℤ → List Structure → List Structure
others id [] = []
others id (s ∷ items) = if eqz s.id id then others id items else s ∷ others id items

unfoldable pub replaced : Structure → List Structure → List Structure
replaced candidate [] = []
replaced candidate (s ∷ items) =
    (if eqz s.id candidate.id then candidate else s) ∷ replaced candidate items

unfoldable pub structure_audit : Actor → ℕ → String → ℕ → AuditLog
structure_audit actor environment_id action resource_id = record {
  environment_id = environment_id;
  actor_user_id = actor.user_id;
  action = action;
  resource_type = "structure";
  resource_id = resource_id;
  succeeded = true;
  request_id = actor.request_id;
}

module _ (decode_fields : String → Option (List (Option Field)))
    (decode_values : String → Option (List (Option SelectOption)))
    (decode_type : String → Option (Option FieldType)) where
  unfoldable pub referenced_structure :
      ConfigRow → List Structure → String → ℤ → Result Failure Bool
  unfolding some_other_references
  referenced_structure config structures key ignored = do
    type ← internal (decode_type config.type_json)
    ok (str_eq (get_structure_key type) key || some_other_references structures key ignored)

  module _ (fault : ChildStatement → Bool) (now : ℕ) where
    unfoldable pub lock : ℕ → ℕ → Workspace → Result Failure Resources
    unfolding find_row in_config_scope list_for_config structures_to_proto enums_to_proto
    lock environment_id config_id w = do
      attempt fault now ChildStatement.lock_parent
      config ←
          elim (find_row (in_config_scope w.tables environment_id config_id) w.tables.configs) [
            | none ↦ err (missing "config")
            | some c ↦ ok c
          ]
      structure_rows ← list_for_config fault now w.tables environment_id config_id w.structures
      enum_rows ← list_for_config fault now w.tables environment_id config_id w.enums
      structures ← structures_to_proto decode_fields decode_values structure_rows
      enums ← enums_to_proto decode_fields decode_values enum_rows
      ok (record { config = config; structures = structures; enums = enums })

    -- The rows of an edit and its audit.
    unfoldable pub recorded : AuditLog → List ChildRow → Workspace → Result Failure Workspace
    recorded audit rows w = do
      attempt fault now ChildStatement.insert_log
      ok (record w {
        structures = rows;
        tables = record (w.tables) { audits = audit ∷ w.tables.audits };
      })

    module _ (range_keys : List String → List String) (require : ℕ → ℕ → Result Failure (Unit {0}))
        (transact : (Workspace → Result Failure Workspace)
          → Workspace
          → Result Failure Workspace) where
      unfoldable pub candidate_of_input : ℤ → ℤ → ℕ → StructureInput → Structure
      candidate_of_input id config_id version input = record {
        id = id;
        config_id = config_id;
        key = input.key;
        name = input.name;
        description = input.description;
        fields = input.fields;
        version = version;
      }

      -- The schema that an edit would leave.
      unfoldable pub accepted : List Structure → List ConfigEnum → Result Failure Schema
      unfolding new_schema
      accepted structures enums =
          checked_schema (new_schema range_keys (map some structures) (map some enums))

      -- validateUpdate
      unfoldable pub validate_update :
          ℕ → ℕ → ℕ → StructureInput → Workspace → Result Failure Schema
      unfolding lock find_structure referenced_structure uint32_from_int64 replaced accepted
          candidate_of_input
      validate_update environment_id config_id structure_id input w = do
        resources ← lock environment_id config_id w
        locked ← find_structure resources.structures (pos structure_id)
        referenced ← referenced_structure resources.config resources.structures locked.key locked.id
        fail_if (not (str_eq locked.key input.key) && referenced)
            (conflict "referenced structure key cannot be changed")
        version ← as_version (invalid "invalid structure version") (uint32_from_int64 input.version)
        accepted
            (replaced (candidate_of_input locked.id locked.config_id version input)
              resources.structures)
            resources.enums

      -- saveUpdate
      unfoldable pub save_update :
          (String → String → Bool)
          → Actor
          → ℕ
          → ℕ
          → StructureInput
          → String
          → Workspace
          → Result Failure Workspace
      unfolding update structure_audit recorded
      save_update same_key actor environment_id structure_id input content w = do
        rows ←
            update fault now same_key w.tables environment_id structure_id
              (record {
                key = input.key;
                name = input.name;
                description = input.description;
                content = content;
                updated_by = actor.user_id;
                version = input.version;
              })
              w.structures
        recorded (structure_audit actor environment_id "structure.update" structure_id) rows w

      -- The functions that Update and Delete hand to TX.
      unfoldable pub edit_body :
          (String → String → Bool)
          → Actor
          → ℕ
          → ℕ
          → ℕ
          → StructureInput
          → String
          → Workspace
          → Result Failure Workspace
      unfolding validate_update save_update
      edit_body same_key actor environment_id config_id structure_id input content w = do
        s ← validate_update environment_id config_id structure_id input w
        save_update same_key actor environment_id structure_id input content w

      unfoldable pub remove_body : Actor → ℕ → ℕ → ℕ → Workspace → Result Failure Workspace
      unfolding lock find_structure referenced_structure others accepted delete structure_audit
          recorded
      remove_body actor environment_id config_id structure_id w = do
        resources ← lock environment_id config_id w
        locked ← find_structure resources.structures (pos structure_id)
        referenced ← referenced_structure resources.config resources.structures locked.key locked.id
        fail_if referenced (conflict "referenced structure cannot be deleted")
        s ← accepted (others locked.id resources.structures) resources.enums
        rows ← delete fault now w.tables environment_id structure_id actor.user_id w.structures
        recorded (structure_audit actor environment_id "structure.delete" structure_id) rows w

      -- Update, up to its return of the row, which find_by_id reads after the commit.
      unfoldable pub edit_structure :
          (String → String → Bool)
          → (List (Option Field) → Option String)
          → Actor
          → ℕ
          → ℕ
          → StructureInput
          → Workspace
          → Result Failure Workspace
      unfolding find_by_id edit_body
      edit_structure same_key encode_fields actor environment_id structure_id input w = do
        require actor.user_id environment_id
        found ← find_by_id fault now w.tables environment_id structure_id w.structures
        content ← elim (encode_fields input.fields) [
          | none ↦ err (invalid "invalid structure fields")
          | some text ↦ ok text
        ]
        transact
            (edit_body same_key actor environment_id found.config_id structure_id input content) w

      unfoldable pub remove_structure : Actor → ℕ → ℕ → Workspace → Result Failure Workspace
      unfolding find_by_id remove_body
      remove_structure actor environment_id structure_id w = do
        require actor.user_id environment_id
        found ← find_by_id fault now w.tables environment_id structure_id w.structures
        transact (remove_body actor environment_id found.config_id structure_id) w
