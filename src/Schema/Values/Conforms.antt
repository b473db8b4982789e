-- ===== src/Schema/Values/Conforms.antt =====
-- What it means for a JSON value to be of a declared type, stated without paths, sets or fuel.
use mathlib.Core.List.{Memᴰ}
use kirby.Base.{String, ◌≡◌, true, false, List, [], ◌∷◌, Option, some, length}
use kirby.Dict.{lookup}
use kirby.Schema.Types.{
  BaseType, Kind, FieldType, Field, Structure, SelectOption, ConfigEnum, Json, Items, Members,
  Schema,
}
use kirby.Schema.Values.{length_members, find_member, valid_base}

-- `t` is the value of one of the options.
abbrev pub IsChoice : List (Option SelectOption) → String → Type 0
IsChoice options t = (o : SelectOption) × Memᴰ (some o) options × (o.value ≡ t)

mutual
  pub data Fits (s : Schema) : Option FieldType → Json → Type 0 where
    base :
        {t : FieldType} {v : Json} (b : BaseType)
        → t.kind ≡ some (Kind.base_type b)
        → valid_base b v ≡ true
        → Fits s (some t) v
    choice :
        {t : FieldType} {text : String} (k : String) (e : ConfigEnum)
        → t.kind ≡ some (Kind.enum_key k)
        → lookup s.enums k ≡ some e
        → IsChoice e.values text
        → Fits s (some t) (Json.text text)
    -- As many members as fields, and each field has one of its type.
    structure :
        {t : FieldType} {object : Members} (k : String) (definition : Structure)
        → t.kind ≡ some (Kind.structure_key k)
        → lookup s.structures k ≡ some definition
        → length_members object ≡ length definition.fields
        → FitsAll s definition.fields object
        → Fits s (some t) (Json.object object)

  pub data FitsField (s : Schema) : Field → Json → Type 0 where
    single : {f : Field} {v : Json} → f.is_array ≡ false → Fits s f.type v → FitsField s f v
    many :
        {f : Field} {vs : Items}
        → f.is_array ≡ true
        → FitsItems s f.type vs
        → FitsField s f (Json.array vs)

  pub data FitsItems (s : Schema) : Option FieldType → Items → Type 0 where
    none_left : {t : Option FieldType} → FitsItems s t Items.nil
    next :
        {t : Option FieldType} {v : Json} {vs : Items}
        → Fits s t v
        → FitsItems s t vs
        → FitsItems s t (Items.cons v vs)

  pub data FitsAll (s : Schema) : List (Option Field) → Members → Type 0 where
    no_field : {object : Members} → FitsAll s [] object
    field :
        {f : Field} {fields : List (Option Field)} {object : Members} (v : Json)
        → find_member object f.key ≡ some v
        → FitsField s f v
        → FitsAll s fields object
        → FitsAll s (some f ∷ fields) object
