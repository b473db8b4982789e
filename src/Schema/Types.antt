-- ===== src/Schema/Types.antt =====
-- The messages of server/api/common that a schema is made of, JSON values as encoding/json
-- decodes them into `any`, and the errors of server/internal/entity. A Go pointer that the code
-- tests for nil is an `Option`.
use kirby.Base.{ℕ, String, Bool, List, Option, none, some, ℤ, Result}
use kirby.Dict.{Dict}

pub data BaseType : Type 0 where
  unspecified string int decimal boolean time date datetime : BaseType
  time_range date_range datetime_range image video file : BaseType
  -- A number of the wire that no name of the enum stands for.
  unknown : ℤ → BaseType

pub data Kind : Type 0 where
  base_type : BaseType → Kind
  structure_key : String → Kind
  enum_key : String → Kind

-- Field_Type; its oneof may be unset.
pub record FieldType : Type 0 where
  pub kind : Option Kind

pub record Field : Type 0 where
  pub key : String
  pub name : String
  pub description : String
  pub is_array : Bool
  pub type : Option FieldType

pub record Structure : Type 0 where
  pub id : ℤ
  pub config_id : ℤ
  pub key : String
  pub name : String
  pub description : String
  pub fields : List (Option Field)
  pub version : ℕ

pub record SelectOption : Type 0 where
  pub label : String
  pub value : String
  pub description : String

pub record ConfigEnum : Type 0 where
  pub id : ℤ
  pub config_id : ℤ
  pub key : String
  pub name : String
  pub description : String
  pub values : List (Option SelectOption)
  pub version : ℕ

pub record Config : Type 0 where
  pub id : ℤ
  pub project_id : ℤ
  pub key : String
  pub description : String
  pub is_array : Bool
  pub type : Option FieldType
  pub value : String

-- json.Number: the literal's sign, digits, and fraction and exponent where it has them.
pub record Number : Type 0 where
  pub negative : Bool
  pub integer : ℕ
  pub fraction : Option (ℕ × ℕ)  -- how many digits, and their value
  pub exponent : Option ℤ

mutual
  pub data Json : Type 0 where
    null : Json
    bool : Bool → Json
    number : Number → Json
    text : String → Json
    array : Items → Json
    object : Members → Json

  pub data Items : Type 0 where
    nil : Items
    cons : Json → Items → Items

  -- The entries of a map[string]any, whose keys are distinct.
  pub data Members : Type 0 where
    end : Members
    member : String → Json → Members → Members

-- Where in a value an error was met: `$`, `path.key`, `path[index]`.
pub data ValuePath : Type 0 where
  root : ValuePath
  child : ValuePath → String → ValuePath
  item : ValuePath → ℕ → ValuePath

-- One constructor for each message that schema.go formats, with the values that it prints.
pub data Message : Type 0 where
  structure_key_required enum_key_and_values_required config_and_type_required : Message
  duplicate_structure_key duplicate_enum_key : String → Message
  invalid_enum_value invalid_field : String → Message
  field_type_required unsupported_base_type unsupported_field_type : Message
  missing_structure missing_enum : String → Message
  structure_cycle : List String → Message
  structure_cycle_contains : String → Message
  not_json : Message
  no_field_type must_be_array must_be_enum_string unknown_enum_value : ValuePath → Message
  must_be_object : ValuePath → Message
  does_not_match_structure : ValuePath → String → Message
  is_required : ValuePath → String → Message
  does_not_match : ValuePath → BaseType → Message

-- `invalid` and `conflict` wrap ErrInvalid and ErrConflict. `panic` is the panic of a
-- selector on a nil pointer or of an index out of range, and `out_of_fuel` ends a recursion of the model that the code has
-- no bound for.
pub data Error : Type 0 where
  invalid : Message → Error
  conflict : Message → Error
  panic : Error
  out_of_fuel : Error

abbrev pub Checked : Type 0 → Type 0
Checked A = Result Error A

pub record Schema : Type 0 where
  pub structures : Dict Structure
  pub enums : Dict ConfigEnum

-- field.GetType(): nil-safe.
abbrev pub get_type : Option Field → Option FieldType
get_type none = none
get_type (some f) = f.type

-- type.GetStructureKey(): "" unless the oneof holds a structure key.
abbrev pub key_of_kind : Option Kind → String
key_of_kind (some (structure_key k)) = k
key_of_kind _ = ""

abbrev pub get_structure_key : Option FieldType → String
get_structure_key none = ""
get_structure_key (some t) = key_of_kind t.kind
