-- ===== src/Schema/Build.antt =====
-- server/internal/entity/schema.go: NewSchema and what it calls, FilterStructureChoices excepted.
-- Go ranges over a map in no fixed order: `range_keys` gives the order of the keys of
-- `s.structures` in the last loop of validateCycles.
pub mod Graph
pub mod Acyclic
pub mod Complete
pub mod Tables
pub mod WellFormed
pub mod Accepts
use kirby.Base.{
  ℕ, zero, suc, String, str_eq, Bool, true, false, not, ◌&&◌, ◌||◌, List, [], ◌∷◌, ◌++◌, Option,
  none, some, ok, err, ◌>>=◌, ◌>>◌, fail_if, if◌then◌else◌, length,
}
use kirby.Keys.{contains, add, remove}
use kirby.Dict.{Dict, lookup, insert, keys}
use kirby.Schema.Types.{
  BaseType, Kind, FieldType, Field, Structure, SelectOption, ConfigEnum, Schema, Message, invalid,
  conflict, panic, out_of_fuel, Checked, get_type, get_structure_key,
}
use kirby.Schema.Texts.{valid_key, valid_name, too_long, enum_value_pattern}

-- key, name and description of a structure, an enum or a field.
unfoldable pub well_labelled : String → String → String → Bool
well_labelled key name description = valid_key key && valid_name name && not (too_long description)

abbrev pub is_some : {A : Type 0} → Option A → Bool
is_some none = false
is_some (some _) = true

abbrev pub is_empty : {A : Type 0} → List A → Bool
is_empty [] = true
is_empty (_ ∷ _) = false

-- STRING ≤ value ≤ FILE
unfoldable pub supported : BaseType → Bool
supported BaseType.unspecified = false
supported (BaseType.unknown _) = false
supported _ = true

unfoldable pub validate_enum_values :
    String → List String → List (Option SelectOption) → Checked Unit
validate_enum_values key seen [] = ok tt
validate_enum_values key seen (none ∷ options) = err (invalid (Message.invalid_enum_value key))
validate_enum_values key seen (some o ∷ options) =
    if not (enum_value_pattern o.value)
      || not (valid_name o.label)
      || too_long o.description
      || contains seen o.value
    then err (invalid (Message.invalid_enum_value key))
    else validate_enum_values key (add o.value seen) options

module _ (s : Schema) where
  unfoldable pub validate_kind : Kind → Checked Unit
  validate_kind (Kind.base_type b) =
      fail_if (not (supported b)) (invalid Message.unsupported_base_type)
  validate_kind (Kind.structure_key k) =
      fail_if (not (is_some (lookup s.structures k))) (invalid (Message.missing_structure k))
  validate_kind (Kind.enum_key k) =
      fail_if (not (is_some (lookup s.enums k))) (invalid (Message.missing_enum k))

  abbrev validate_kind? : Option Kind → Checked Unit
  validate_kind? none = err (invalid Message.field_type_required)
  validate_kind? (some k) = validate_kind k

  unfoldable pub validate_type : Option FieldType → Checked Unit
  unfolding validate_kind
  validate_type none = err (invalid Message.field_type_required)
  validate_type (some t) = validate_kind? t.kind

  -- The loop of validateStructureFields; `key` is the structure's.
  unfoldable pub validate_fields : String → List String → List (Option Field) → Checked Unit
  validate_fields key seen [] = ok tt
  validate_fields key seen (none ∷ fields) = err (invalid (Message.invalid_field key))
  validate_fields key seen (some f ∷ fields) =
      if not (well_labelled f.key f.name f.description) || contains seen f.key
      then err (invalid (Message.invalid_field key))
      else (validate_type f.type >> validate_fields key (add f.key seen) fields)

  unfoldable pub validate_structure_fields : Structure → Checked Unit
  unfolding validate_fields
  validate_structure_fields item = validate_fields item.key [] item.fields

-- The first two loops of NewSchema, which fill the maps.
unfoldable pub add_structures : Dict Structure → List (Option Structure) → Checked (Dict Structure)
add_structures m [] = ok m
add_structures m (none ∷ items) = err (invalid Message.structure_key_required)
add_structures m (some i ∷ items) =
    if not (well_labelled i.key i.name i.description)
    then err (invalid Message.structure_key_required)
    else if is_some (lookup m i.key)
    then err (conflict (Message.duplicate_structure_key i.key))
    else add_structures (insert i.key i m) items

unfoldable pub add_enums : Dict ConfigEnum → List (Option ConfigEnum) → Checked (Dict ConfigEnum)
add_enums m [] = ok m
add_enums m (none ∷ items) = err (invalid Message.enum_key_and_values_required)
add_enums m (some i ∷ items) =
    if not (well_labelled i.key i.name i.description) || is_empty i.values
    then err (invalid Message.enum_key_and_values_required)
    else if is_some (lookup m i.key)
    then err (conflict (Message.duplicate_enum_key i.key))
    else (validate_enum_values i.key [] i.values >> add_enums (insert i.key i m) items)

-- The third loop.
unfoldable pub validate_all_fields : Schema → List (Option Structure) → Checked Unit
validate_all_fields s [] = ok tt
validate_all_fields s (none ∷ items) = err panic
validate_all_fields s (some i ∷ items) =
    validate_structure_fields s i >> validate_all_fields s items

-- The two sets of validateCycles.
pub record Marks : Type 0 where
  pub visiting : List String
  pub visited : List String

-- The loop over the fields in `walk`; `visit` is the recursive call.
unfoldable pub walk_fields :
    (String → Marks → Checked Marks) → List (Option Field) → Marks → Checked Marks
walk_fields visit [] m = ok m
walk_fields visit (f ∷ fields) m =
    let dependency = get_structure_key (get_type f) in
    (if str_eq dependency "" then ok m else visit dependency m) >>= walk_fields visit fields

module _ (structures : Dict Structure) where
  -- `walk key path`, with fuel for the depth of the recursion.
  unfoldable pub walk : ℕ → List String → String → Marks → Checked Marks
  unfolding walk_fields
  walk zero path key m = err out_of_fuel
  walk (suc fuel) path key m =
      if contains m.visiting key
      then err (conflict (Message.structure_cycle (path ++ key ∷ [])))
      else if contains m.visited key
      then ok m
      else elim (lookup structures key) [
        | none ↦ err panic
        | some item ↦ do
          after ←
              walk_fields (walk fuel (path ++ key ∷ [])) item.fields
                (record m { visiting = add key m.visiting })
          ok (record { visiting = remove key after.visiting; visited = add key after.visited })
      ]

  unfoldable pub walk_all : ℕ → List String → Marks → Checked Marks
  unfolding walk
  walk_all fuel [] m = ok m
  walk_all fuel (key ∷ rest) m = walk fuel [] key m >>= walk_all fuel rest

module _ (range_keys : List String → List String) where
  unfoldable pub validate_cycles : Schema → Checked Unit
  unfolding walk_all
  validate_cycles s = do
    _ ←
        walk_all s.structures (suc (length (keys s.structures))) (range_keys (keys s.structures))
          (record { visiting = []; visited = [] })
    ok tt

  unfoldable pub new_schema : List (Option Structure) → List (Option ConfigEnum) → Checked Schema
  unfolding validate_cycles validate_all_fields add_structures add_enums
  new_schema structures enums = do
    structure_map ← add_structures [] structures
    enum_map ← add_enums [] enums
    let s : Schema = record { structures = structure_map; enums = enum_map }
    validate_all_fields s structures
    validate_cycles s
    ok s
