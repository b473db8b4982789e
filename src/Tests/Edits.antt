-- ===== src/Tests/Edits.antt =====
-- A structure that is deleted from a configuration, and one that is still referenced.
use mathlib.Core.List.Memᴰ
use kirby.Base.{
  sym, ◌∙◌, inl, inr, ◌==◌, arith, ℕ, String, Bool, true, false, List, [], ◌∷◌, Option, none, some,
  pos, Result, ok, err, ◌≡◌, refl, str_eq, if◌then◌else◌,
}
use kirby.Keys.{contains, add, remove}
use kirby.Dict.{lookup, insert, keys}
use kirby.Schema.Texts.{valid_key, valid_name}
use kirby.Schema.Build.{well_labelled, validate_structure_fields, validate_type}
use kirby.Schema.Types.{Field, FieldType, Kind, SelectOption}
use kirby.Publish.Data.{Failure, conflict, unchanged}
use kirby.Structures.{ChildRow, ChildStatement, find_by_id}
use kirby.Structures.Edit.{Workspace, StructureInput, edit_structure, remove_structure}
use kirby.Structures.Dropped.{IsDropped, remove_structure-IsDropped}
use kirby.Structures.Left.{HasDistinctIds}
use kirby.Structures.Edited.{IsEdited, edit_structure-IsChecked}
use kirby.Tests.Publications.{tables, admin, log_of}

abbrev healthy : ChildStatement → Bool
healthy _ = false

abbrev row_of : ℕ → String → String → ChildRow
row_of id key content = record {
  id = id;
  config_id = 7;
  key = key;
  name = key;
  description = "";
  content = content;
  version = pos 1;
  created_by = 3;
  updated_by = 3;
  updated_at = 10;
  deleted = false;
}

abbrev at_home : Option Field
at_home = some (record {
  key = "home";
  name = "home";
  description = "";
  is_array = false;
  type = some (record { kind = some (Kind.structure_key "address") });
})

abbrev decode_fields : String → Option (List (Option Field))
decode_fields text = if str_eq text "home" then some (at_home ∷ []) else some []

abbrev decode_values : String → Option (List (Option SelectOption))
decode_values _ = some []

abbrev decode_type : String → Option (Option FieldType)
decode_type _ = some none

abbrev before : Workspace
before = record {
  tables = tables;
  structures = row_of 1 "person" "home" ∷ row_of 2 "address" "[]" ∷ [];
  enums = [];
}

abbrev as_listed : List String → List String
as_listed ks = ks

abbrev allowed : ℕ → ℕ → Result Failure (Unit {0})
allowed _ _ = ok tt

abbrev transact : (Workspace → Result Failure Workspace) → Workspace → Result Failure Workspace
transact body w = body w

abbrev after : Workspace
after = record before {
  tables = record tables {
    audits = record (log_of "structure.delete" 1) { resource_type = "structure" } ∷ [];
  };
  structures =
      record (row_of 1 "person" "home") { deleted = true; updated_at = 100; version = pos 2 }
      ∷ row_of 2 "address" "[]"
      ∷ [];
}

deletes :
    remove_structure decode_fields decode_values decode_type healthy 100 as_listed allowed transact
      admin 9 1 before
    ≡ ok after
unfolding remove_structure well_labelled valid_key valid_name lookup validate_structure_fields keys
    insert contains
deletes = refl

keeps_referenced :
    remove_structure decode_fields decode_values decode_type healthy 100 as_listed allowed transact
      admin 9 2 before
    ≡ err (conflict "referenced structure cannot be deleted")
unfolding remove_structure
keeps_referenced = refl

remove_structure-IsDropped_example :
    (row : ChildRow) × (find_by_id healthy 100 tables 9 1 before.structures ≡ ok row)
    × IsDropped healthy 100 decode_fields decode_values decode_type as_listed allowed transact 9
        row.config_id 1 3 before after
remove_structure-IsDropped_example =
    remove_structure-IsDropped healthy 100 decode_fields decode_values decode_type as_listed allowed
      transact admin 9 1 before (λ ks k. refl) (λ body x y h. h) deletes

abbrev encode_fields : List (Option Field) → Option String
encode_fields _ = some "home"

abbrev renaming : StructureInput
renaming = record {
  key = "human";
  name = "human";
  description = "Who";
  fields = at_home ∷ [];
  version = pos 1;
}

abbrev renamed : Workspace
renamed = record before {
  tables = record tables {
    audits = record (log_of "structure.update" 1) { resource_type = "structure" } ∷ [];
  };
  structures =
      record (row_of 1 "human" "home") { description = "Who"; updated_at = 100; version = pos 2 }
      ∷ row_of 2 "address" "[]"
      ∷ [];
}

renames :
    edit_structure decode_fields decode_values decode_type healthy 100 as_listed allowed transact
      str_eq encode_fields admin 9 1 renaming before
    ≡ ok renamed
unfolding edit_structure well_labelled valid_key valid_name lookup validate_structure_fields keys
    insert contains validate_type add remove
renames = refl

rejects_stale :
    edit_structure decode_fields decode_values decode_type healthy 100 as_listed allowed transact
      str_eq encode_fields admin 9 1
      (record renaming { version = pos 0 })
      before
    ≡ err (unchanged "structure")
unfolding edit_structure well_labelled valid_key valid_name lookup validate_structure_fields keys
    insert contains validate_type add remove
rejects_stale = refl

reads_back :
    (text : String)
    → encode_fields renaming.fields ≡ some text
    → decode_fields text ≡ some renaming.fields
reads_back text h = let e : "home" ≡ text = cc in rw (← e) refl

distinct_rows : HasDistinctIds healthy 100 before.structures
distinct_rows r s m n same = elim (Memᴰ.cases_cons m) [
  | inl first ↦ elim (Memᴰ.cases_cons n) [
    | inl first' ↦ first ∙ sym first'
    | inr later ↦ elim (Memᴰ.cases_cons later) [
      | inl second' ↦ let wrong : (1 == 2) ≡ true = rw (first, second') at same in absurd (cc wrong)
      | inr none_left ↦ absurd (Memᴰ.not-nil none_left)
    ]
  ]
  | inr beyond ↦ elim (Memᴰ.cases_cons beyond) [
    | inl second ↦ elim (Memᴰ.cases_cons n) [
      | inl first' ↦ let wrong : (2 == 1) ≡ true = rw (second, first') at same in absurd (cc wrong)
      | inr later ↦ elim (Memᴰ.cases_cons later) [
        | inl second' ↦ second ∙ sym second'
        | inr none_left ↦ absurd (Memᴰ.not-nil none_left)
      ]
    ]
    | inr none_left ↦ absurd (Memᴰ.not-nil none_left)
  ]
]

edit_structure-IsChecked_example :
    (row : ChildRow) × (find_by_id healthy 100 tables 9 1 before.structures ≡ ok row)
    × (content : String) × (encode_fields renaming.fields ≡ some content)
    × IsEdited healthy 100 decode_fields decode_values decode_type as_listed allowed transact str_eq
        (λ j k h. h)
        admin
        9
        row.config_id
        1
        renaming
        content
        before
        renamed
edit_structure-IsChecked_example =
    edit_structure-IsChecked healthy 100 decode_fields decode_values decode_type as_listed allowed
      transact str_eq (λ j k h. h) encode_fields admin 9 1 renaming before (λ ks k. refl)
      (λ body x y h. h) reads_back distinct_rows (omega arith) renames
