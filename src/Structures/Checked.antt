-- ===== src/Structures/Checked.antt =====
-- What the update of a structure is checked against.
use kirby.Base.{
  str_eq, not, err, ◌&&◌, ℕ, String, Bool, false, List, map, Option, some, pos, Result, ok, err,
  fail_if, >>=-eq-ok, ok-injective, ◌≡◌, ap, ◌∙◌,
}
use kirby.Keys.{contains}
use kirby.Schema.Types.{Structure, Field, FieldType, SelectOption, Schema}
use kirby.Schema.Build.{new_schema}
use kirby.Schema.Build.WellFormed.{IsWellFormed}
use kirby.Schema.Build.Accepts.{new_schema-IsWellFormed}
use kirby.Publish.Data.{invalid, Failure, conflict}
use kirby.Structures.{ChildStatement}
use kirby.Structures.Convert.{as_version}
use kirby.Structures.Edit.{
  StructureInput, candidate_of_input, replaced, validate_update, Workspace, Resources,
  find_structure, referenced_structure, lock, accepted,
}
use kirby.Structures.Kept.{checked_schema-ok, fail_if-passed}
use kirby.SafeInt.{Misfit, uint32_from_int64}

as_version-ok : (e : Failure) (r : Result Misfit ℕ) {n : ℕ} → as_version e r ≡ ok n → r ≡ ok n
as_version-ok e (ok n) h = ap ok (ok-injective h)
as_version-ok e (err _) h = cc

module _ (fault : ChildStatement → Bool) (now : ℕ) where
  module _ (decode_fields : String → Option (List (Option Field)))
      (decode_values : String → Option (List (Option SelectOption)))
      (decode_type : String → Option (Option FieldType)) (range_keys : List String → List String)
      (require : ℕ → ℕ → Result Failure (Unit {0}))
      (transact : (Workspace → Result Failure Workspace)
        → Workspace
        → Result Failure Workspace) where
    -- The definitions that the update would leave are a schema, and a key that changes is not
    -- referenced.
    pub record IsChecked (e c item : ℕ) (input : StructureInput) (w : Workspace) : Type 0 where
      pub before : Resources
      pub held : lock decode_fields decode_values decode_type fault now e c w ≡ ok before
      pub locked : Structure
      pub found : find_structure before.structures (pos item) ≡ ok locked
      pub unreferenced :
          str_eq locked.key input.key ≡ false
          → referenced_structure decode_fields decode_values decode_type before.config
              before.structures locked.key locked.id
            ≡ ok false
      pub version : ℕ
      pub narrowed : uint32_from_int64 input.version ≡ ok version
      pub made : Schema
      pub accepted_by :
          new_schema range_keys
            (map some (
              replaced
                (candidate_of_input decode_fields decode_values decode_type fault now range_keys
                  require transact locked.id locked.config_id version input)
                before.structures))
            (map some before.enums)
          ≡ ok made
      pub well_formed : IsWellFormed made

    pub validate_update-IsChecked :
        ((ks : List String) (k : String) → contains (range_keys ks) k ≡ contains ks k)
        → (e c item : ℕ) (input : StructureInput) (w : Workspace) {s : Schema}
        → validate_update decode_fields decode_values decode_type fault now range_keys require
            transact e c item input w
          ≡ ok s
        → IsChecked e c item input w
    unfolding validate_update accepted
    validate_update-IsChecked range_lists e c item input w {s} h =
        let (before, held, h1) =
          >>=-eq-ok (lock decode_fields decode_values decode_type fault now e c w) _ h in
        let (locked, found, h2) = >>=-eq-ok (find_structure before.structures (pos item)) _ h1 in
        let (referenced, told, h3) =
          >>=-eq-ok
            (referenced_structure decode_fields decode_values decode_type before.config
              before.structures locked.key locked.id)
            _ h2 in
        let (_, free, h4) =
          >>=-eq-ok
            (fail_if (not (str_eq locked.key input.key) && referenced)
              (conflict "referenced structure key cannot be changed"))
            _ h3 in
        let (version, narrow, h5) =
          >>=-eq-ok
            (as_version (invalid "invalid structure version") (uint32_from_int64 input.version)) _
            h4 in
        let both = fail_if-passed (not (str_eq locked.key input.key) && referenced) _ free in
        let by = checked_schema-ok _ h5 in
        record {
          before = before;
          held = held;
          locked = locked;
          found = found;
          unreferenced = λ differs. told ∙ ap ok (rw differs at both);
          version = version;
          narrowed = as_version-ok _ _ narrow;
          made = s;
          accepted_by = by;
          well_formed = new_schema-IsWellFormed range_keys range_lists _ _ s by;
        }
