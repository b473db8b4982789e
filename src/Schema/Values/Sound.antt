-- ===== src/Schema/Values/Sound.antt =====
-- What ValidateConfig's walk accepts is of the declared type.
use mathlib.Core.List.{Memᴰ}
use kirby.Base.{
  ℕ, zero, suc, String, str_eq, eq_iff, ==_iff, ◌==◌, ◌≡◌, refl, true, List, [], ◌∷◌, Option, none,
  some, ok, >>=-eq-ok, fail_if, Bool-cases, Option-cases, inl, inr, length,
}
use kirby.Keys.{contains, add}
use kirby.Dict.{lookup}
use kirby.Schema.Types.{
  Kind, BaseType, FieldType, Field, Structure, SelectOption, Json, Items, Members, ValuePath,
  Schema, Checked,
}
use kirby.Schema.Values.{
  length_members, find_member, valid_base, validate_base_value, validate_options, validate_items,
  validate_array_value, validate_field_value, validate_members, validate_object,
  validate_enum_value, validate_value, is_object,
}
use kirby.Schema.Values.Conforms.{
  IsChoice, Fits, base, choice, structure, FitsField, single, many, FitsItems, none_left, next,
  FitsAll, no_field, field,
}

validate_options_sound :
    (options : List (Option SelectOption)) (t : String) (path : ValuePath)
    → validate_options options t path ≡ ok tt
    → IsChoice options t
unfolding validate_options
validate_options_sound [] t path h = cc
validate_options_sound (none ∷ options) t path h = cc
validate_options_sound (some o ∷ options) t path h = elim (Bool-cases (str_eq o.value t)) [
  | inl same ↦ (o, Memᴰ.head refl, (eq_iff o.value t).0 same)
  | inr other ↦
      let (o', listed, e) =
        validate_options_sound options t path (rw (other, validate_options) at h) in
      (o', Memᴰ.tail listed, e)
]

validate_base_value_sound :
    (b : BaseType) (v : Json) (path : ValuePath)
    → validate_base_value b v path ≡ ok tt
    → valid_base b v ≡ true
unfolding validate_base_value
validate_base_value_sound b v path h = elim (Bool-cases (valid_base b v)) [
  | inl valid ↦ valid
  | inr not_valid ↦ let wrong = rw (not_valid, fail_if) at h in cc
]

module _ (s : Schema) (validate : Option FieldType → Json → ValuePath → Checked Unit)
    (sound : (t : Option FieldType) (v : Json) (path : ValuePath)
      → validate t v path ≡ ok tt
      → Fits s t v) where
  validate_items_sound :
      (t : Option FieldType) (vs : Items) (path : ValuePath) (index : ℕ)
      → validate_items validate t vs path index ≡ ok tt
      → FitsItems s t vs
  unfolding validate_items
  validate_items_sound t Items.nil path index h = none_left
  validate_items_sound t (Items.cons v vs) path index h =
      let (_, now, later) = >>=-eq-ok (validate t v (ValuePath.item path index)) _ h in
      next (sound t v _ now) (validate_items_sound t vs path (suc index) later)

  validate_array_value_sound :
      (f : Field) (v : Json) (path : ValuePath)
      → f.is_array ≡ true
      → validate_array_value validate f.type v path ≡ ok tt
      → FitsField s f v
  unfolding validate_array_value
  validate_array_value_sound f (Json.array vs) path e h =
      many e (validate_items_sound f.type vs path 0 h)
  validate_array_value_sound f Json.null path e h = cc
  validate_array_value_sound f (Json.bool _) path e h = cc
  validate_array_value_sound f (Json.number _) path e h = cc
  validate_array_value_sound f (Json.text _) path e h = cc
  validate_array_value_sound f (Json.object _) path e h = cc

  pub validate_field_value_sound :
      (f : Field) (v : Json) (path : ValuePath)
      → validate_field_value validate f v path ≡ ok tt
      → FitsField s f v
  unfolding validate_field_value
  validate_field_value_sound f v path h = elim (Bool-cases f.is_array) [
    | inl e ↦ validate_array_value_sound f v path e (rw (e, validate_field_value) at h)
    | inr e ↦ single e (sound f.type v path (rw (e, validate_field_value) at h))
  ]

  validate_members_sound :
      (fields : List (Option Field)) (object : Members) (path : ValuePath)
      → validate_members validate fields object path ≡ ok tt
      → FitsAll s fields object
  unfolding validate_members
  validate_members_sound [] object path h = no_field
  validate_members_sound (none ∷ fields) object path h = cc
  validate_members_sound (some f ∷ fields) object path h =
      elim (Option-cases (find_member object f.key)) [
        | inl missing ↦ let wrong = rw (missing, validate_members) at h in cc
        | inr (v, found) ↦
            let (_, now, later) =
              >>=-eq-ok (validate_field_value validate f v (ValuePath.child path f.key)) _
                (rw (found, validate_members) at h) in
            field v found (validate_field_value_sound f v _ now)
              (validate_members_sound fields object path later)
      ]

  pub validate_object_sound :
      {t : FieldType} (k : String) (definition : Structure) (v : Json) (path : ValuePath)
      → t.kind ≡ some (Kind.structure_key k)
      → lookup s.structures k ≡ some definition
      → validate_object validate k definition v path ≡ ok tt
      → Fits s (some t) v
  unfolding validate_object
  validate_object_sound k definition (Json.object object) path e found h =
      elim (Bool-cases (length_members object == length definition.fields)) [
        | inr wrong ↦ let no_way = rw (wrong, validate_object) at h in cc
        | inl same ↦
            structure k definition e found ((==_iff _ _).0 same) (
              validate_members_sound definition.fields object path
                (rw (same, validate_object) at h))
      ]
  validate_object_sound k definition Json.null path e found h = cc
  validate_object_sound k definition (Json.bool _) path e found h = cc
  validate_object_sound k definition (Json.number _) path e found h = cc
  validate_object_sound k definition (Json.text _) path e found h = cc
  validate_object_sound k definition (Json.array _) path e found h = cc

module _ (s : Schema) where
  validate_enum_value_sound :
      {t : FieldType} (k : String) (v : Json) (path : ValuePath)
      → t.kind ≡ some (Kind.enum_key k)
      → validate_enum_value s k v path ≡ ok tt
      → Fits s (some t) v
  unfolding validate_enum_value
  validate_enum_value_sound k (Json.text text) path e h = elim (Option-cases (lookup s.enums k)) [
    | inl missing ↦ let wrong = rw (missing, validate_enum_value) at h in cc
    | inr (c, found) ↦
        choice k c e found
          (validate_options_sound c.values text path (rw (found, validate_enum_value) at h))
  ]
  validate_enum_value_sound k Json.null path e h = cc
  validate_enum_value_sound k (Json.bool _) path e h = cc
  validate_enum_value_sound k (Json.number _) path e h = cc
  validate_enum_value_sound k (Json.array _) path e h = cc
  validate_enum_value_sound k (Json.object _) path e h = cc

  pub validate_value_sound :
      (fuel : ℕ) (structures : List String) (t : Option FieldType) (v : Json) (path : ValuePath)
      → validate_value s fuel structures t v path ≡ ok tt
      → Fits s t v
  unfolding validate_value
  validate_value_sound zero structures t v path h = cc
  validate_value_sound (suc fuel) structures none v path h = cc
  validate_value_sound (suc fuel) structures (some t) v path h = elim (Option-cases t.kind) [
    | inl unset ↦ let wrong = rw (unset, validate_value) at h in cc
    | inr (Kind.base_type b, e) ↦
        base b e (validate_base_value_sound b v path (rw (e, validate_value) at h))
    | inr (Kind.enum_key k, e) ↦ validate_enum_value_sound k v path e (rw (e, validate_value) at h)
    | inr (Kind.structure_key k, e) ↦ elim (Bool-cases (is_object v)) [
      | inr other ↦ let wrong = rw (e, other, validate_value) at h in cc
      | inl shape ↦ elim (Bool-cases (contains structures k)) [
        | inl busy ↦ let wrong = rw (e, shape, busy, validate_value) at h in cc
        | inr fresh ↦ elim (Option-cases (lookup s.structures k)) [
          | inl missing ↦ let wrong = rw (e, shape, fresh, missing, validate_value) at h in cc
          | inr (definition, found) ↦
              validate_object_sound s (validate_value s fuel (add k structures))
                (validate_value_sound fuel (add k structures)) k definition v path e found
                (rw (e, shape, fresh, found, validate_value) at h)
        ]
      ]
    ]
  ]
