-- ===== src/Structures/Convert.antt =====
-- The rows of structures and enums as protocol messages: server/internal/converter/structure.go
-- (StructureToProto, StructuresToProto), enum.go (EnumToProto, EnumsToProto) and common.go (meta).
-- Parameters: `decode_fields` and `decode_values` are the JSON of protocol messages (protojson). A
-- converter's error is internal, as one of the database is.
use kirby.Base.{
  ℕ, String, ◌==◌, List, [], ◌∷◌, Option, none, some, ℤ, pos, Result, ok, err, ◌>>=◌, if◌then◌else◌,
}
use kirby.Schema.Types.{Structure, ConfigEnum, Field, SelectOption}
use kirby.Publish.Data.{Failure, database}
use kirby.SafeInt.{Misfit, uint32_from_int64}
use kirby.Structures.{ChildRow}

abbrev pub internal : {A : Type 0} → Option A → Result Failure A
internal none = err database
internal (some a) = ok a

abbrev pub as_version : Failure → Result Misfit ℕ → Result Failure ℕ
as_version e (ok n) = ok n
as_version e (err _) = err e

unfoldable pub valid_meta : ℕ → ℤ → Result Failure ℕ
unfolding uint32_from_int64
valid_meta id version =
    if id == 0 then err database else as_version database (uint32_from_int64 version)

module _ (decode_fields : String → Option (List (Option Field)))
    (decode_values : String → Option (List (Option SelectOption))) where
  unfoldable pub structure_to_proto : ChildRow → Result Failure Structure
  unfolding valid_meta
  structure_to_proto r = do
    version ← valid_meta r.id r.version
    fields ← internal (decode_fields r.content)
    ok (record {
      id = pos r.id;
      config_id = pos r.config_id;
      key = r.key;
      name = r.name;
      description = r.description;
      fields = fields;
      version = version;
    })

  unfoldable pub structures_to_proto : List ChildRow → Result Failure (List Structure)
  unfolding structure_to_proto
  structures_to_proto [] = ok []
  structures_to_proto (r ∷ rows) = do
    s ← structure_to_proto r
    rest ← structures_to_proto rows
    ok (s ∷ rest)

  unfoldable pub enum_to_proto : ChildRow → Result Failure ConfigEnum
  unfolding valid_meta
  enum_to_proto r = do
    version ← valid_meta r.id r.version
    values ← internal (decode_values r.content)
    ok (record {
      id = pos r.id;
      config_id = pos r.config_id;
      key = r.key;
      name = r.name;
      description = r.description;
      values = values;
      version = version;
    })

  unfoldable pub enums_to_proto : List ChildRow → Result Failure (List ConfigEnum)
  unfolding enum_to_proto
  enums_to_proto [] = ok []
  enums_to_proto (r ∷ rows) = do e ← enum_to_proto r; rest ← enums_to_proto rows; ok (e ∷ rest)
