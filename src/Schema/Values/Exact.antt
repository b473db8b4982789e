-- ===== src/Schema/Values/Exact.antt =====
-- ValidateConfig decides the declared type.
use kirby.Base.{
  String, ◌≡◌, refl, ◌↔◌, true, false, not, ◌||◌, [], Option, none, some, ok, >>=-eq-ok, Bool-cases,
  Option-cases, inl, inr, arith,
}
use kirby.Keys.{contains, remaining-le}
use kirby.Dict.{keys}
use kirby.Schema.Types.{Config, Field, FieldType, Json, Schema, ValuePath}
use kirby.Schema.Texts.{valid_key}
use kirby.Schema.Build.{validate_type}
use kirby.Schema.Build.WellFormed.{IsWellFormed}
use kirby.Schema.Values.{is_nil, validate_value, enough_fuel, validate_config}
use kirby.Schema.Values.Conforms.{FitsField}
use kirby.Schema.Values.Sound.{validate_field_value_sound, validate_value_sound}
use kirby.Schema.Values.Complete.{complete_field}

-- The field that stands for the whole configuration.
abbrev pub root_field : Config → Field
root_field c = record {
  key = c.key;
  name = c.key;
  description = "";
  is_array = c.is_array;
  type = c.type;
}

-- The key is well formed, the type resolves, and the text decodes to a value of the type.
abbrev pub IsValidConfig : Schema → (String → Option Json) → Config → Type 0
IsValidConfig s decode_json c =
    (valid_key c.key ≡ true)
    × (validate_type s c.type ≡ ok tt)
    × (v : Json) × (decode_json c.value ≡ some v)
    × FitsField s (root_field c) v

pub type_is_set : (s : Schema) (t : Option FieldType) → validate_type s t ≡ ok tt → is_nil t ≡ false
unfolding validate_type
type_is_set s none h = cc
type_is_set s (some t) h = refl

module _ (s : Schema) (decode_json : String → Option Json) (c : Config) where
  validate_config_sound :
      validate_config s decode_json (some c) ≡ ok tt → IsValidConfig s decode_json c
  unfolding validate_config
  validate_config_sound h = elim (Bool-cases (is_nil c.type || not (valid_key c.key))) [
    | inl bad ↦ let wrong = rw (bad, validate_config) at h in cc
    | inr good ↦
        let (_, typed, rest) =
          >>=-eq-ok (validate_type s c.type) _ (rw (good, validate_config) at h) in
        elim (Option-cases (decode_json c.value)) [
          | inl malformed ↦ let wrong = rw malformed at rest in cc
          | inr (v, decoded) ↦ (
            ground (arith, good),
            typed,
            v,
            decoded,
            validate_field_value_sound s (validate_value s (enough_fuel s) [])
                (validate_value_sound s (enough_fuel s) []) (root_field c) v ValuePath.root
                (rw decoded at rest),
          )
        ]
  ]

  validate_config_complete :
      IsWellFormed s
      → IsValidConfig s decode_json c
      → validate_config s decode_json (some c) ≡ ok tt
  unfolding validate_config contains
  validate_config_complete wf (keyed, typed, v, decoded, fits) =
      rw (type_is_set s c.type typed, keyed, typed, decoded)
        (complete_field s wf fits (enough_fuel s) [] ValuePath.root
          (omega (arith, remaining-le (keys s.structures) [])) (λ x d busy named. cc))

  -- In a well-formed schema a configuration is accepted exactly when its key is well formed, its
  -- type resolves and its text decodes to a value of that type.
  pub validate_config_iff :
      IsWellFormed s
      → (validate_config s decode_json (some c) ≡ ok tt) ↔ IsValidConfig s decode_json c
  validate_config_iff wf = (validate_config_sound, validate_config_complete wf)
