-- ===== src/Schema/Build/WellFormed.antt =====
-- What every schema that NewSchema returns guarantees to the functions that walk it, and when
-- NewSchema reports a cycle.
use kirby.Base.{
  String, str_eq, ◌≡◌, refl, sym, ◌∙◌, ap, eq_iff, subst, true, false, List, [], ◌∷◌, Option, none,
  some, ok, Bool-cases, Option-cases, inl, inr, arith, All,
}
use kirby.Keys.{contains}
use kirby.Dict.{lookup, keys, contains-keys_of_some}
use kirby.Schema.Types.{
  Field, FieldType, Kind, Structure, ConfigEnum, Schema, get_type, get_structure_key,
}
use kirby.Schema.Texts.{valid_key, valid_key-ne-empty}
use kirby.Schema.Build.{
  well_labelled, validate_type, validate_kind, validate_structure_fields, add_structures, add_enums,
  validate_all_fields,
}
use kirby.Schema.Build.Graph.{dependencies, References, Reaches}
use kirby.Schema.Build.Tables.{
  IsField, IsEnum, validate_fields-IsField, add_structures-IsListed, validate_all_fields-lem,
  add_enums-IsEnum,
}

well_labelled-valid_key :
    (key name description : String)
    → well_labelled key name description ≡ true
    → valid_key key ≡ true
unfolding well_labelled
well_labelled-valid_key key name description h = ground arith

-- Every field of every structure has a type that the schema resolves, and every enum an option.
pub record IsResolved (s : Schema) : Type 0 where
  pub fields :
      (k : String) (item : Structure)
      → lookup s.structures k ≡ some item
      → All (IsField s) item.fields
  pub enums : (k : String) (e : ConfigEnum) → lookup s.enums k ≡ some e → IsEnum e
  pub no_empty_key : lookup s.structures "" ≡ none

pub record IsWellFormed (s : Schema) : Type 0 where
  pub resolved : IsResolved s
  pub acyclic : (k : String) → ¬ Reaches s.structures k k

module _ (structures : List (Option Structure)) (enums : List (Option ConfigEnum))
    (s : Schema) where
  -- The loops before validateCycles succeed and fill the maps of `s`.
  pub record IsLoaded : Type 0 where
    pub structure_map : add_structures [] structures ≡ ok s.structures
    pub enum_map : add_enums [] enums ≡ ok s.enums
    pub fields_valid : validate_all_fields s structures ≡ ok tt

  pub IsLoaded-IsResolved : IsLoaded → IsResolved s
  unfolding lookup validate_structure_fields
  IsLoaded-IsResolved l = record {
    fields = λ k item found.
        elim (add_structures-IsListed structures [] s.structures k item l.structure_map found) [
          | inl wrong ↦ cc
          | inr from ↦
              validate_fields-IsField s item.key [] item.fields
                (validate_all_fields-lem s structures item l.fields_valid from.listed)
        ];
    enums = λ k e found. elim (add_enums-IsEnum enums [] s.enums k e l.enum_map found) [
      | inl wrong ↦ cc
      | inr h ↦ h
    ];
    no_empty_key = elim (Option-cases (lookup s.structures "")) [
      | inl e ↦ e
      | inr (item, found) ↦
          elim (add_structures-IsListed structures [] s.structures "" item l.structure_map found) [
            | inl wrong ↦ cc
            | inr from ↦
                let empty : valid_key "" ≡ true =
                  subst (λ k. valid_key k ≡ true) from.keyed
                    (well_labelled-valid_key item.key item.name item.description from.labelled) in
                cc (empty, valid_key-ne-empty)
          ]
    ];
  }

kind-resolved :
    (s : Schema) (t : FieldType) (kind : Option Kind)
    → t.kind ≡ kind
    → validate_type s (some t) ≡ ok tt
    → str_eq (get_structure_key (some t)) "" ≡ false
    → (item : Structure) × (lookup s.structures (get_structure_key (some t)) ≡ some item)
unfolding validate_type validate_kind
kind-resolved s t none e h n = cc
kind-resolved s t (some (Kind.base_type b)) e h n = let wrong = rw e at n in cc
kind-resolved s t (some (Kind.enum_key k)) e h n = let wrong = rw e at n in cc
kind-resolved s t (some (Kind.structure_key k)) e h n =
    rw e (elim (Option-cases (lookup s.structures k)) [
      | inl missing ↦ let wrong = rw (e, missing, validate_kind) at h in cc
      | inr found ↦ found
    ])

pub type-resolved :
    (s : Schema) (t : Option FieldType)
    → validate_type s t ≡ ok tt
    → str_eq (get_structure_key t) "" ≡ false
    → (item : Structure) × (lookup s.structures (get_structure_key t) ≡ some item)
unfolding validate_type
type-resolved s none h n = cc
type-resolved s (some t) h n = kind-resolved s t t.kind refl h n

dependencies-resolved :
    (s : Schema) (fields : List (Option Field)) (d : String)
    → All (IsField s) fields
    → contains (dependencies fields) d ≡ true
    → contains (keys s.structures) d ≡ true
unfolding dependencies contains
dependencies-resolved s [] d h m = cc
dependencies-resolved s (f ∷ fields) d h m =
    elim (Bool-cases (str_eq (get_structure_key (get_type f)) "")) [
      | inl unset ↦ dependencies-resolved s fields d h.1 (rw (unset, dependencies) at m)
      | inr set ↦ elim (Bool-cases (str_eq (get_structure_key (get_type f)) d)) [
        | inr other ↦
            dependencies-resolved s fields d h.1 (rw (set, dependencies, other, contains) at m)
        | inl same ↦
            let (g, e, typed) = h.0 in
            let e' : get_type f ≡ g.type = cc in
            let (item, found) = type-resolved s g.type typed (rw e' at set) in
            contains-keys_of_some d s.structures {v = item} (
              subst (λ k. lookup s.structures k ≡ some item)
                (ap get_structure_key (sym e') ∙ (eq_iff _ d).0 same) found)
      ]
    ]

pub References-resolved :
    (s : Schema)
    → IsResolved s
    → (k d : String) → References s.structures k d
    → contains (keys s.structures) d ≡ true
References-resolved s r k d (item, found, named) =
    dependencies-resolved s item.fields d (r.fields k item found) named
