-- ===== src/Tests/Schemas.antt =====
-- The theorems on schemas at the schema of people and at a schema with a cycle.
use mathlib.Core.List.{Memᴰ}
use kirby.Base.{String, ◌≡◌, refl, false, List, [], ◌∷◌, some, ok, err, ◌⊎◌, ◌↔◌, pos}
use kirby.Keys.{contains, add, remove}
use kirby.Dict.{lookup, insert, keys}
use kirby.Schema.Types.{Structure, Message, conflict, Json}
use kirby.Schema.Texts.{valid_key, valid_name, enum_value_pattern}
use kirby.Schema.Build.{
  new_schema, validate_all_fields, add_structures, add_enums, well_labelled, validate_enum_values,
  validate_structure_fields, validate_type, supported,
}
use kirby.Schema.Build.Graph.{Reaches}
use kirby.Schema.Build.WellFormed.{IsWellFormed, IsLoaded}
use kirby.Schema.Build.Accepts.{new_schema-IsWellFormed, new_schema-decides-cycles}
use kirby.Schema.Values.{validate_config}
use kirby.Schema.Values.Exact.{validate_config_iff, IsValidConfig}
use kirby.Schema.Expand.{default_value, build_tree, TreeNode}
use kirby.Schema.Expand.Total.{default_value_total, build_tree_total}
use kirby.Schema.Choices.{filter_structure_choices, find_id}
use kirby.Schema.Choices.Exact.{filter_structure_choices_exact}
use kirby.Schema.Choices.Pass.{IsRejected}
use kirby.Tests.People.{person, address, moods, people, owner, decode, folder, of_structure}

abbrev as_listed : List String → List String
as_listed ks = ks

people_loaded : IsLoaded (some person ∷ some address ∷ []) (some moods ∷ []) people
unfolding add_structures add_enums validate_all_fields well_labelled valid_key valid_name lookup
    insert validate_enum_values enum_value_pattern contains validate_structure_fields validate_type
    add supported
people_loaded = record { structure_map = refl; enum_map = refl; fields_valid = refl }

people_accepted :
    new_schema as_listed (some person ∷ some address ∷ []) (some moods ∷ []) ≡ ok people
unfolding new_schema well_labelled valid_key valid_name lookup insert validate_enum_values
    enum_value_pattern contains validate_structure_fields validate_type add supported keys remove
people_accepted = refl

folder_refused :
    new_schema as_listed (some folder ∷ []) []
    ≡ err (conflict (Message.structure_cycle ("folder" ∷ "folder" ∷ [])))
unfolding new_schema well_labelled valid_key valid_name lookup insert validate_enum_values
    enum_value_pattern contains validate_structure_fields validate_type add supported keys remove
folder_refused = refl

new_schema-IsWellFormed_example : IsWellFormed people
new_schema-IsWellFormed_example =
    new_schema-IsWellFormed as_listed (λ ks k. refl) (some person ∷ some address ∷ [])
      (some moods ∷ []) people people_accepted

new_schema-decides-cycles_example :
    (new_schema as_listed (some person ∷ some address ∷ []) (some moods ∷ []) ≡ ok people)
      × ((k : String) → ¬ Reaches people.structures k k)
    ⊎ ((path : List String) × (k : String) × (new_schema as_listed
            (some person ∷ some address ∷ [])
            (some moods ∷ [])
          ≡ err (conflict (Message.structure_cycle path)))
        × Reaches people.structures k k)
new_schema-decides-cycles_example =
    new_schema-decides-cycles as_listed (λ ks k. refl) (some person ∷ some address ∷ [])
      (some moods ∷ []) people people_loaded

people-IsWellFormed : IsWellFormed people
people-IsWellFormed =
    new_schema-IsWellFormed as_listed (λ ks k. refl) (some person ∷ some address ∷ [])
      (some moods ∷ []) people people_accepted

validate_config_iff_example :
    (validate_config people decode (some owner) ≡ ok tt) ↔ IsValidConfig people decode owner
validate_config_iff_example = validate_config_iff people decode owner people-IsWellFormed

person_typed : validate_type people (of_structure "person") ≡ ok tt
unfolding validate_type lookup
person_typed = refl

default_value_total_example :
    (v : Json) × (default_value people (of_structure "person") false ≡ ok v)
default_value_total_example =
    default_value_total people people-IsWellFormed (of_structure "person") false person_typed

build_tree_total_example : (tree : TreeNode) × (build_tree people (some owner) ≡ ok tree)
build_tree_total_example = build_tree_total people people-IsWellFormed owner person_typed

address_found : find_id (person ∷ address ∷ []) (pos 1) ≡ some address
unfolding find_id
address_found = refl

filter_structure_choices_exact_example :
    (kept : List Structure) × (filter_structure_choices (person ∷ address ∷ []) (pos 1) ≡ ok kept)
    × ((item : Structure)
        → Memᴰ item kept ↔ (
            Memᴰ item (person ∷ address ∷ [])
            × (¬ IsRejected (person ∷ address ∷ []) "address" item.key)))
filter_structure_choices_exact_example =
    filter_structure_choices_exact (person ∷ address ∷ []) (pos 1) address refl address_found
