-- ===== src/Publish/Checks.antt =====
-- What server/internal/logic/publish.go checks on the locked rows before it writes.
-- Parameters: `decode_content` is entity.DecodeConfigSnapshot; `range_keys` and `decode_json` are
-- those of the schema.
use kirby.Base.{
  ℕ, String, str_eq, Bool, true, false, not, ◌&&◌, ◌||◌, ◌==◌, eqz, List, [], ◌∷◌, Option, none,
  some, ℤ, pos, is_negative, max_int64, Result, ok, err, ◌>>=◌, ◌>>◌, if◌then◌else◌,
}
use kirby.Schema.Types.{Structure, ConfigEnum, Config, Checked}
use kirby.Schema.Build.{is_some, new_schema}
use kirby.Schema.Values.{is_nil, validate_config}
use kirby.Store.{Status, same_status, ConfigRow, Snapshot}
use kirby.Schema.Types.{Json}
use kirby.Publish.Data.{
  Failure, ConfigSnapshot, PublicationChange, missing, conflict, invalid, schema,
}

-- publicationState: the target and the released snapshot among the locked ones.
unfoldable pub publication_state :
    ℕ
    → Option Snapshot
    → Option Snapshot
    → List Snapshot
    → Result Failure (Snapshot × Option Snapshot)
publication_state id none released [] = err (missing "snapshot")
publication_state id (some t) released [] = ok (t, released)
publication_state id target released (s ∷ rows) =
    if not (same_status s.status Status.unreleased) && not (same_status s.status Status.released)
    then err (conflict "snapshot has unsupported status")
    else if same_status s.status Status.released && is_some released
    then err (conflict "config has multiple released snapshots")
    else publication_state id (if s.id == id then some s else target)
        (if same_status s.status Status.released then some s else released) rows

-- validateRuntimeVersion
unfoldable pub validate_runtime_version : ℤ → Result Failure Unit
validate_runtime_version v =
    if is_negative v
    then err (conflict "config runtime version is invalid")
    else if eqz v (pos max_int64)
    then err (conflict "config runtime version is exhausted")
    else ok tt

unfoldable pub repeated_publication : Status → Failure
repeated_publication Status.released = conflict "snapshot is already released"
repeated_publication _ = conflict "snapshot is already unreleased"

unfoldable pub validate_target : PublicationChange → Result Failure Unit
unfolding repeated_publication
validate_target c =
    if same_status c.target.status c.request.status
    then err (repeated_publication c.request.status)
    else if not (c.target.version == c.request.expected_version)
    then err (conflict "snapshot version is stale")
    else if not (c.target.config_id == c.config.id)
        || not (c.target.project_id == c.config.project_id)
        || not (str_eq c.target.config_key c.config.key)
    then err (conflict "snapshot does not belong to config")
    else ok tt

abbrev lift : {A : Type 0} → Checked A → Result Failure A
lift (ok a) = ok a
lift (err e) = err (schema e)

-- The loops of validateSnapshot over the structures and enums of the content.
unfoldable pub structures_belong : List (Option Structure) → ℕ → Bool
structures_belong [] id = true
structures_belong (none ∷ items) id = false
structures_belong (some s ∷ items) id = eqz s.config_id (pos id) && structures_belong items id

unfoldable pub enums_belong : List (Option ConfigEnum) → ℕ → Bool
enums_belong [] id = true
enums_belong (none ∷ items) id = false
enums_belong (some e ∷ items) id = eqz e.config_id (pos id) && enums_belong items id

module _ (range_keys : List String → List String) (decode_json : String → Option Json)
    (decode_content : String → Option ConfigSnapshot) where
  unfoldable pub validate_content : ConfigSnapshot → Config → ConfigRow → Result Failure Unit
  unfolding structures_belong enums_belong
  validate_content content c row =
      if not (eqz c.id (pos row.id))
        || not (eqz c.project_id (pos row.project_id))
        || not (str_eq c.key row.key)
      then err (conflict "snapshot content does not belong to config")
      else if not (structures_belong content.structures row.id)
      then err (invalid "snapshot structure belongs to another config")
      else if not (enums_belong content.enums row.id)
      then err (invalid "snapshot enum belongs to another config")
      else lift (
          new_schema range_keys content.structures content.enums >>= λ s.
          validate_config s decode_json (some c))

  unfoldable pub validate_snapshot : Snapshot → ConfigRow → Result Failure Unit
  unfolding validate_content
  validate_snapshot s row = elim (decode_content s.content) [
    | none ↦ err (invalid "snapshot content is invalid")
    | some content ↦ elim content.config [
      | none ↦ err (invalid "snapshot content is incomplete")
      | some c ↦
          if is_nil c.type
          then err (invalid "snapshot content is incomplete")
          else validate_content content c row
    ]
  ]

  -- change.validate
  unfoldable pub validate_change : PublicationChange → Result Failure Unit
  unfolding validate_target validate_runtime_version validate_snapshot
  validate_change c = do
    validate_target c
    validate_runtime_version c.config.runtime_version
    if same_status c.request.status Status.unreleased
        then ok tt
        else validate_snapshot c.target c.config
