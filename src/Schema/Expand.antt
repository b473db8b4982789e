-- ===== src/Schema/Expand.antt =====
-- server/internal/entity/schema.go: DefaultValue and BuildTree with what they call. A set of
-- structures that Go changes and restores by `defer` is passed down instead.
pub mod Ready
pub mod Total
use kirby.Base.{
  ℕ, zero, suc, String, str_eq, Bool, true, false, ◌||◌, List, [], ◌∷◌, Option, none, some, ok, err,
  ◌>>=◌, ◌>>◌, if◌then◌else◌, pos, length,
}
use kirby.Keys.{contains, add}
use kirby.Dict.{lookup, keys}
use kirby.Schema.Types.{
  BaseType, Kind, FieldType, Field, Structure, SelectOption, Config, Number, Json, Items, Members,
  Schema, Message, invalid, conflict, panic, out_of_fuel, Checked, get_structure_key,
}
use kirby.Schema.Build.{validate_type}
use kirby.Schema.Values.{is_nil, enough_fuel}

mutual
  pub data TreeNode : Type 0 where
    node : Field → Nodes → TreeNode

  pub data Nodes : Type 0 where
    nil : Nodes
    cons : TreeNode → Nodes → Nodes

-- The loop of `children` over a structure's fields.
unfoldable pub expand_fields :
    (Option FieldType → Checked Nodes) → List (Option Field) → Checked Nodes
expand_fields expand [] = ok Nodes.nil
expand_fields expand (none ∷ fields) = err panic
expand_fields expand (some f ∷ fields) = do
  below ← expand f.type
  rest ← expand_fields expand fields
  ok (Nodes.cons (node f below) rest)

-- `object[key] = value`
unfoldable pub set_member : String → Json → Members → Members
set_member k v Members.end = Members.member k v Members.end
set_member k v (Members.member j w ms) =
    if str_eq j k then Members.member k v ms else Members.member j w (set_member k v ms)

-- The loop of defaultStructureValue; `result` is filled on the way.
unfoldable pub default_members :
    (Field → Checked Json) → Members → List (Option Field) → Checked Members
unfolding set_member
default_members default result [] = ok result
default_members default result (none ∷ fields) = err panic
default_members default result (some f ∷ fields) =
    default f >>= λ v. default_members default (set_member f.key v result) fields

abbrev pub zero_number : Number
zero_number = record { negative = false; integer = 0; fraction = none; exponent = none }

unfoldable pub default_base : BaseType → Json
default_base BaseType.int = Json.number zero_number
default_base BaseType.decimal = Json.number zero_number
default_base BaseType.boolean = Json.bool false
default_base BaseType.time_range = Json.array Items.nil
default_base BaseType.date_range = Json.array Items.nil
default_base BaseType.datetime_range = Json.array Items.nil
default_base _ = Json.text ""

-- Values[0].Value
unfoldable pub first_option : List (Option SelectOption) → Checked Json
first_option (some o ∷ _) = ok (Json.text o.value)
first_option _ = err panic

module _ (s : Schema) where
  -- `children`, with fuel for its depth.
  unfoldable pub children : ℕ → List String → Option FieldType → Checked Nodes
  unfolding expand_fields
  children zero path t = err out_of_fuel
  children (suc fuel) path t =
      if str_eq (get_structure_key t) ""
      then ok Nodes.nil
      else if contains path (get_structure_key t)
      then err (conflict (Message.structure_cycle_contains (get_structure_key t)))
      else elim (lookup s.structures (get_structure_key t)) [
        | none ↦ err panic
        | some definition ↦
            expand_fields (children fuel (add (get_structure_key t) path)) definition.fields
      ]

  unfoldable pub build_tree : Option Config → Checked TreeNode
  unfolding children
  build_tree none = err (invalid Message.config_and_type_required)
  build_tree (some c) = if is_nil c.type then err (invalid Message.config_and_type_required) else do
    validate_type s c.type
    below ← children (enough_fuel s) [] c.type
    ok (
        node
          (record {
            key = c.key;
            name = "配置值";
            description = c.description;
            is_array = c.is_array;
            type = c.type;
          })
          below)

  -- The switch of defaultValue, and defaultStructureValue, with fuel for the depth.
  unfoldable pub default_single : ℕ → List String → Option FieldType → Checked Json
  unfolding default_base first_option default_members
  default_single zero structures t = err out_of_fuel
  default_single (suc fuel) structures none = err panic
  default_single (suc fuel) structures (some t) = elim t.kind [
    | none ↦ err (invalid Message.field_type_required)
    | some (Kind.base_type b) ↦ ok (default_base b)
    | some (Kind.enum_key k) ↦ elim (lookup s.enums k) [
      | none ↦ err panic
      | some e ↦ first_option e.values
    ]
    | some (Kind.structure_key k) ↦
        if contains structures k
        then err (conflict (Message.structure_cycle_contains k))
        else elim (lookup s.structures k) [
          | none ↦ err panic
          | some definition ↦ do
            object ←
                default_members
                  (λ f.
                    if f.is_array
                    then ok (Json.array Items.nil)
                    else default_single fuel (add k structures) f.type)
                  Members.end definition.fields
            ok (Json.object object)
        ]
  ]

  -- defaultValue; its recursive calls are written out in `default_single`.
  unfoldable pub default_field : ℕ → List String → Field → Checked Json
  unfolding default_single
  default_field fuel structures f =
      if f.is_array then ok (Json.array Items.nil) else default_single fuel structures f.type

  -- DefaultValue, up to json.Marshal, which turns the value into text.
  unfoldable pub default_value : Option FieldType → Bool → Checked Json
  unfolding default_field
  default_value t is_array = do
    validate_type s t
    default_field (enough_fuel s) []
        (record { key = "value"; name = "value"; description = ""; is_array = is_array; type = t })
