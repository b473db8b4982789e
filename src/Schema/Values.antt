-- ===== src/Schema/Values.antt =====
-- server/internal/entity/schema.go: ValidateConfig and what it calls. `decode_json` stands for
-- decodeJSON, which is encoding/json's decoder with a check that nothing follows the value.
pub mod Conforms
pub mod Sound
pub mod Exact
pub mod Complete
use kirby.Base.{
  ℕ, zero, suc, ◌+◌, ◌*◌, ◌^◌, ◌-◌, ◌≤◌, String, str_eq, ltb, leb, ◌==◌, Bool, true, false, not,
  ◌&&◌, ◌||◌, List, [], ◌∷◌, Option, none, some, ok, err, ◌>>=◌, ◌>>◌, fail_if, if◌then◌else◌,
  length, ℤ, pos, negsuc, max_int64,
}
use kirby.Keys.{contains, add}
use kirby.Dict.{lookup, keys}
use kirby.Schema.Types.{
  BaseType, Kind, FieldType, Field, Structure, SelectOption, ConfigEnum, Config, Number, Json,
  Items, Members, ValuePath, Schema, Message, invalid, conflict, panic, out_of_fuel, Checked,
}
use kirby.Schema.Texts.{valid_key}
use kirby.Schema.Times.{Layout, parses}
use kirby.Schema.Build.{validate_type}

-- len(items) and len(object).
unfoldable pub length_items : Items → ℕ
length_items Items.nil = 0
length_items (Items.cons v vs) = suc (length_items vs)

unfoldable pub length_members : Members → ℕ
length_members Members.end = 0
length_members (Members.member k v ms) = suc (length_members ms)

-- `value, exists := object[key]`
unfoldable pub find_member : Members → String → Option Json
find_member Members.end k = none
find_member (Members.member j v ms) k = if str_eq j k then some v else find_member ms k

-- strconv.ParseInt(number.String(), 10, 64) succeeds: digits alone, within int64.
unfoldable pub parses_int : Number → Bool
parses_int n = elim n.fraction [
  | some _ ↦ false
  | none ↦ elim n.exponent [
    | some _ ↦ false
    | none ↦ if n.negative then leb n.integer (max_int64 + 1) else leb n.integer max_int64
  ]
]

-- strconv.ParseFloat(number.String(), 64) fails only for a magnitude that rounds beyond the
-- largest float64: from half a unit above it, 2^1024 - 2^970, on.
abbrev pub float_limit : ℕ
float_limit = 2 ^ 1024 - 2 ^ 970

-- digits · 10^-places · 10^exponent is below the limit.
unfoldable pub below_float_limit : ℕ → ℕ → ℤ → Bool
below_float_limit digits places (pos e) = ltb (digits * 10 ^ e) (float_limit * 10 ^ places)
below_float_limit digits places (negsuc e) = ltb digits (float_limit * 10 ^ (places + e + 1))

abbrev exponent_of : Option ℤ → ℤ
exponent_of none = pos 0
exponent_of (some e) = e

unfoldable pub parses_float : Number → Bool
unfolding below_float_limit
parses_float n = elim n.fraction [
  | none ↦ below_float_limit n.integer 0 (exponent_of n.exponent)
  | some (places, digits) ↦
      below_float_limit (n.integer * 10 ^ places + digits) places (exponent_of n.exponent)
]

unfoldable pub valid_time : Layout → Json → Bool
valid_time layout (Json.text t) = parses layout t
valid_time layout _ = false

unfoldable pub valid_range : Layout → Json → Bool
unfolding valid_time
valid_range layout (Json.array (Items.cons a (Items.cons b Items.nil))) =
    valid_time layout a && valid_time layout b
valid_range layout _ = false

abbrev pub is_text : Json → Bool
is_text (Json.text _) = true
is_text _ = false

abbrev pub is_bool : Json → Bool
is_bool (Json.bool _) = true
is_bool _ = false

abbrev pub is_number : (Number → Bool) → Json → Bool
is_number p (Json.number n) = p n
is_number p _ = false

-- The switch of validateBaseValue.
unfoldable pub valid_base : BaseType → Json → Bool
unfolding parses_int parses_float valid_time valid_range
valid_base BaseType.string v = is_text v
valid_base BaseType.image v = is_text v
valid_base BaseType.video v = is_text v
valid_base BaseType.file v = is_text v
valid_base BaseType.int v = is_number parses_int v
valid_base BaseType.decimal v = is_number parses_float v
valid_base BaseType.boolean v = is_bool v
valid_base BaseType.date v = valid_time Layout.date_only v
valid_base BaseType.time v = valid_time Layout.time_only v
valid_base BaseType.datetime v = valid_time Layout.date_time v
valid_base BaseType.date_range v = valid_range Layout.date_only v
valid_base BaseType.time_range v = valid_range Layout.time_only v
valid_base BaseType.datetime_range v = valid_range Layout.date_time v
valid_base BaseType.unspecified v = false
valid_base (BaseType.unknown _) v = false

unfoldable pub validate_base_value : BaseType → Json → ValuePath → Checked Unit
unfolding valid_base
validate_base_value b v path =
    fail_if (not (valid_base b v)) (invalid (Message.does_not_match path b))

-- The loop of validateEnumValue over the options.
unfoldable pub validate_options : List (Option SelectOption) → String → ValuePath → Checked Unit
validate_options [] t path = err (invalid (Message.unknown_enum_value path))
validate_options (none ∷ options) t path = err panic
validate_options (some o ∷ options) t path =
    if str_eq o.value t then ok tt else validate_options options t path

-- A value of a type that is no array, below a structure's field.
abbrev Validate : Type 0
Validate = Option FieldType → Json → ValuePath → Checked Unit

module _ (validate : Validate) where
  -- The loop of validateArrayValue; the item field is no array.
  unfoldable pub validate_items : Option FieldType → Items → ValuePath → ℕ → Checked Unit
  validate_items t Items.nil path index = ok tt
  validate_items t (Items.cons v vs) path index =
      validate t v (ValuePath.item path index) >> validate_items t vs path (suc index)

  unfoldable pub validate_array_value : Option FieldType → Json → ValuePath → Checked Unit
  unfolding validate_items
  validate_array_value t (Json.array vs) path = validate_items t vs path 0
  validate_array_value t _ path = err (invalid (Message.must_be_array path))

  -- validateValue; `validate` is its switch.
  unfoldable pub validate_field_value : Field → Json → ValuePath → Checked Unit
  unfolding validate_array_value
  validate_field_value f v path =
      if f.is_array then validate_array_value f.type v path else validate f.type v path

  -- The loop of validateStructureValue over the definition's fields.
  unfoldable pub validate_members : List (Option Field) → Members → ValuePath → Checked Unit
  unfolding validate_field_value
  validate_members [] object path = ok tt
  validate_members (none ∷ fields) object path = err panic
  validate_members (some f ∷ fields) object path = elim (find_member object f.key) [
    | none ↦ err (invalid (Message.is_required path f.key))
    | some v ↦
        validate_field_value f v (ValuePath.child path f.key) >> validate_members fields object path
  ]

  unfoldable pub validate_object : String → Structure → Json → ValuePath → Checked Unit
  unfolding validate_members length_members find_member
  validate_object key definition (Json.object object) path =
      if not (length_members object == length definition.fields)
      then err (invalid (Message.does_not_match_structure path key))
      else validate_members definition.fields object path
  validate_object key definition _ path = err (invalid (Message.must_be_object path))

abbrev pub is_nil : {A : Type 0} → Option A → Bool
is_nil none = true
is_nil (some _) = false

abbrev pub is_object : Json → Bool
is_object (Json.object _) = true
is_object _ = false

module _ (s : Schema) where
  unfoldable pub validate_enum_value : String → Json → ValuePath → Checked Unit
  unfolding validate_options
  validate_enum_value key (Json.text t) path = elim (lookup s.enums key) [
    | none ↦ err panic
    | some e ↦ validate_options e.values t path
  ]
  validate_enum_value key _ path = err (invalid (Message.must_be_enum_string path))

  -- The switch of validateValue and validateStructureValue, with fuel for the depth of the
  -- structures; `structures` is the set of those that the value lies in.
  unfoldable pub validate_value : ℕ → List String → Validate
  unfolding validate_object validate_enum_value validate_base_value
  validate_value zero structures t v path = err out_of_fuel
  validate_value (suc fuel) structures none v path = err panic
  validate_value (suc fuel) structures (some t) v path = elim t.kind [
    | none ↦ err (invalid (Message.no_field_type path))
    | some (Kind.base_type b) ↦ validate_base_value b v path
    | some (Kind.enum_key k) ↦ validate_enum_value k v path
    | some (Kind.structure_key k) ↦
        if not (is_object v)
        then err (invalid (Message.must_be_object path))
        else if contains structures k
        then err (conflict (Message.structure_cycle_contains k))
        else elim (lookup s.structures k) [
          | none ↦ err panic
          | some definition ↦
              validate_object (validate_value fuel (add k structures)) k definition v path
        ]
  ]

  -- Each level adds a defined key to `structures`, so that one more level than keys is enough.
  abbrev pub enough_fuel : ℕ
  enough_fuel = suc (length (keys s.structures))

  module _ (decode_json : String → Option Json) where
    unfoldable pub validate_config : Option Config → Checked Unit
    unfolding validate_value validate_field_value
    validate_config none = err (invalid Message.config_and_type_required)
    validate_config (some c) =
        if is_nil c.type || not (valid_key c.key)
        then err (invalid Message.config_and_type_required)
        else (validate_type s c.type >> elim (decode_json c.value) [
          | none ↦ err (invalid Message.not_json)
          | some v ↦
              validate_field_value (validate_value enough_fuel [])
                (record {
                  key = c.key;
                  name = c.key;
                  description = "";
                  is_array = c.is_array;
                  type = c.type;
                })
                v ValuePath.root
        ])
