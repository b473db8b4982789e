-- ===== src/Tests/People.antt =====
-- A schema of people with addresses, and a value of it.
use kirby.Base.{String, true, false, [], ◌∷◌, Option, some, pos}
use kirby.Schema.Types.{
  BaseType, Kind, FieldType, Field, Structure, ConfigEnum, Config, Json, Items, Members, Schema,
}

abbrev pub of_base : BaseType → Option FieldType
of_base b = some (record { kind = some (Kind.base_type b) })

abbrev pub of_structure : String → Option FieldType
of_structure k = some (record { kind = some (Kind.structure_key k) })

abbrev pub of_enum : String → Option FieldType
of_enum k = some (record { kind = some (Kind.enum_key k) })

abbrev pub city : Field
city = record {
  key = "city";
  name = "City";
  description = "";
  is_array = false;
  type = of_base BaseType.string;
}

abbrev pub home : Field
home = record {
  key = "homes";
  name = "Homes";
  description = "";
  is_array = true;
  type = of_structure "address";
}

abbrev pub mood : Field
mood = record {
  key = "mood";
  name = "Mood";
  description = "";
  is_array = false;
  type = of_enum "mood";
}

abbrev pub address : Structure
address = record {
  id = pos 1;
  config_id = pos 7;
  key = "address";
  name = "Address";
  description = "";
  fields = some city ∷ [];
  version = 1;
}

abbrev pub person : Structure
person = record {
  id = pos 2;
  config_id = pos 7;
  key = "person";
  name = "Person";
  description = "";
  fields = some mood ∷ some home ∷ [];
  version = 1;
}

abbrev pub moods : ConfigEnum
moods = record {
  id = pos 3;
  config_id = pos 7;
  key = "mood";
  name = "Mood";
  description = "";
  values = some (record { label = "Good"; value = "GOOD"; description = "" }) ∷ [];
  version = 1;
}

abbrev pub people : Schema
people = record {
  structures = ("person", person) ∷ ("address", address) ∷ [];
  enums = ("mood", moods) ∷ [];
}

abbrev pub owner : Config
owner = record {
  id = pos 7;
  project_id = pos 4;
  key = "owner";
  description = "";
  is_array = false;
  type = of_structure "person";
  value = "owner.json";
}

abbrev pub owner_value : Json
owner_value = Json.object (
    Members.member "mood" (Json.text "GOOD") (
      Members.member "homes"
        (Json.array (
          Items.cons (Json.object (Members.member "city" (Json.text "Oslo") Members.end))
            Items.nil))
        Members.end))

abbrev pub decode : String → Option Json
decode _ = some owner_value

-- A structure that holds a list of itself.
abbrev pub folder : Structure
folder = record {
  id = pos 1;
  config_id = pos 7;
  key = "folder";
  name = "Folder";
  description = "";
  fields =
      some (record {
        key = "inner";
        name = "Inner";
        description = "";
        is_array = true;
        type = of_structure "folder";
      })
      ∷ [];
  version = 1;
}
