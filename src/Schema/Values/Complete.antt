-- ===== src/Schema/Values/Complete.antt =====
-- ValidateConfig's walk accepts every value of the declared type: in a well-formed schema neither
-- the cycle check nor the fuel gets in its way.
use mathlib.Core.List.{Memᴰ}
use kirby.Base.{
  ℕ, zero, suc, ◌<◌, String, str_eq, eq_iff, ==_iff, ◌≡◌, refl, subst, true, false, List, [], ◌∷◌,
  Option, some, ok, Bool-cases, inl, inr, arith, All,
}
use kirby.Keys.{
  contains, add_fresh, remaining, remaining-cons-lt, contains-cons, contains-cons_self,
}
use kirby.Dict.{Dict, lookup, keys, contains-keys_of_some}
use kirby.Schema.Types.{
  Kind, BaseType, FieldType, Field, Structure, SelectOption, Json, Items, Members, ValuePath,
  Schema, get_type, get_structure_key,
}
use kirby.Schema.Build.Graph.{dependencies, References, Reaches, one, Reaches-snoc}
use kirby.Schema.Build.Tables.{IsOption}
use kirby.Schema.Build.WellFormed.{IsWellFormed}
use kirby.Schema.Values.{
  valid_base, validate_base_value, validate_options, validate_items, validate_array_value,
  validate_field_value, validate_members, validate_object, validate_enum_value, validate_value,
}
use kirby.Schema.Values.Conforms.{
  IsChoice, Fits, base, choice, structure, FitsField, single, many, FitsItems, none_left, next,
  FitsAll, no_field, field,
}

validate_options_complete :
    (options : List (Option SelectOption)) (t : String) (path : ValuePath)
    → All IsOption options
    → IsChoice options t
    → validate_options options t path ≡ ok tt
unfolding validate_options
validate_options_complete [] t path h (o, m, e) = elim m [ ]
validate_options_complete (v ∷ options) t path ((o, there), h) (c, Memᴰ.head same, e) =
    let e' : o.value ≡ t = cc in rw there (rw ((eq_iff o.value t).1 e'))
validate_options_complete (v ∷ options) t path ((o, there), h) (c, Memᴰ.tail m, e) =
    rw there (elim (Bool-cases (str_eq o.value t)) [
      | inl same ↦ rw same
      | inr other ↦ rw other (validate_options_complete options t path h (c, m, e))
    ])

-- The keys of the structures that a value lies in reach every key that its type names.
abbrev pub Above : Dict Structure → List String → (String → Type 0) → Type 0
Above m structures named = (x d : String) → contains structures x ≡ true → named d → Reaches m x d

-- The structure key that a type names, if it is set.
abbrev pub Names : Option FieldType → String → Type 0
Names t d = (get_structure_key t ≡ d) × (str_eq d "" ≡ false)

abbrev pub NamesAny : List (Option Field) → String → Type 0
NamesAny fields d = contains (dependencies fields) d ≡ true

pub Names-NamesAny :
    (f : Field) (fields : List (Option Field)) (d : String)
    → Names f.type d
    → NamesAny (some f ∷ fields) d
unfolding dependencies
Names-NamesAny f fields d (e, set) = rw (e, set) (contains-cons_self d _)

pub NamesAny-cons :
    (f : Option Field) (fields : List (Option Field)) (d : String)
    → NamesAny fields d
    → NamesAny (f ∷ fields) d
unfolding dependencies
NamesAny-cons f fields d h = elim (Bool-cases (str_eq (get_structure_key (get_type f)) "")) [
  | inl unset ↦ rw unset h
  | inr set ↦ rw set (contains-cons _ d _ h)
]

validate_base_value_complete :
    (b : BaseType) (v : Json) (path : ValuePath)
    → valid_base b v ≡ true
    → validate_base_value b v path ≡ ok tt
unfolding validate_base_value
validate_base_value_complete b v path h = rw h

module _ (s : Schema) (wf : IsWellFormed s) where
  -- Inside the structure `k` everything above it, and `k` itself, reach what its fields name.
  pub Above-enter :
      (structures : List String) (t : FieldType) (k : String) (definition : Structure)
      → get_structure_key (some t) ≡ k
      → str_eq k "" ≡ false
      → lookup s.structures k ≡ some definition
      → Above s.structures structures (Names (some t))
      → Above s.structures (k ∷ structures) (NamesAny definition.fields)
  unfolding contains
  Above-enter structures t k definition e set found above x d listed named =
      let r : References s.structures k d = (definition, found, named) in
      elim (Bool-cases (str_eq k x)) [
        | inl same ↦ one (subst (λ y. References s.structures y d) ((eq_iff k x).0 same) r)
        | inr other ↦ Reaches-snoc s.structures (above x k (rw other at listed) (e, set)) r
      ]

  pub no_empty :
      (k : String) (definition : Structure)
      → lookup s.structures k ≡ some definition
      → str_eq k "" ≡ false
  no_empty k definition found = elim (Bool-cases (str_eq k "")) [
    | inr set ↦ set
    | inl unset ↦
        let wrong : lookup s.structures "" ≡ some definition =
          subst (λ x. lookup s.structures x ≡ some definition) ((eq_iff k "").0 unset) found in
        cc (wf.resolved.no_empty_key)
  ]

  pub key_of :
      (t : FieldType) (k : String)
      → t.kind ≡ some (Kind.structure_key k)
      → get_structure_key (some t) ≡ k
  key_of t k e = rw e

  mutual
    unfolding validate_value validate_field_value validate_items validate_members validate_object
        validate_array_value validate_enum_value

    complete :
        {t : Option FieldType} {v : Json}
        → Fits s t v
        → (fuel : ℕ) (structures : List String) (path : ValuePath)
        → remaining (keys s.structures) structures < fuel
        → Above s.structures structures (Names t)
        → validate_value s fuel structures t v path ≡ ok tt
    complete (base b e h) zero structures path enough above = absurd (omega arith)
    complete (base {v = v} b e h) (suc fuel) structures path enough above =
        rw (e, validate_value) (validate_base_value_complete b v path h)
    complete (choice k c e found h) zero structures path enough above = absurd (omega arith)
    complete (choice {text = text} k c e found h) (suc fuel) structures path enough above =
        rw (e, validate_value)
          (rw (found, validate_enum_value)
            (validate_options_complete c.values text path (wf.resolved.enums k c found).options h))
    complete (structure k definition e found size h) zero structures path enough above =
        absurd (omega arith)
    complete (structure {t = t} {object = object} k definition e found size h) (suc fuel) structures
          path enough above =
        let set = no_empty k definition found in
        let named = key_of t k e in
        let known = contains-keys_of_some k s.structures {v = definition} found in
        elim (Bool-cases (contains structures k)) [
          | inl busy ↦ absurd (wf.acyclic k (above k k busy (named, set)))
          | inr fresh ↦
              rw (e, fresh, found, validate_value)
                (rw ((==_iff _ _).1 size) (
                  rw (add_fresh k structures fresh) (
                    complete_all h fuel (k ∷ structures) path
                      (omega
                        (arith, remaining-cons-lt (keys s.structures) k structures known fresh))
                      (Above-enter structures t k definition named set found above))))
        ]

    pub complete_field :
        {f : Field} {v : Json}
        → FitsField s f v
        → (fuel : ℕ) (structures : List String) (path : ValuePath)
        → remaining (keys s.structures) structures < fuel
        → Above s.structures structures (Names f.type)
        → validate_field_value (validate_value s fuel structures) f v path ≡ ok tt
    complete_field (single e h) fuel structures path enough above =
        rw e (complete h fuel structures path enough above)
    complete_field (many e h) fuel structures path enough above =
        rw e (complete_items h fuel structures path 0 enough above)

    complete_items :
        {t : Option FieldType} {vs : Items}
        → FitsItems s t vs
        → (fuel : ℕ) (structures : List String) (path : ValuePath) (index : ℕ)
        → remaining (keys s.structures) structures < fuel
        → Above s.structures structures (Names t)
        → validate_items (validate_value s fuel structures) t vs path index ≡ ok tt
    complete_items none_left fuel structures path index enough above = refl
    complete_items (next h hs) fuel structures path index enough above =
        rw (complete h fuel structures (ValuePath.item path index) enough above)
          (complete_items hs fuel structures path (suc index) enough above)

    complete_all :
        {fields : List (Option Field)} {object : Members}
        → FitsAll s fields object
        → (fuel : ℕ) (structures : List String) (path : ValuePath)
        → remaining (keys s.structures) structures < fuel
        → Above s.structures structures (NamesAny fields)
        → validate_members (validate_value s fuel structures) fields object path ≡ ok tt
    complete_all no_field fuel structures path enough above = refl
    complete_all (field {f} {fields} v found h hs) fuel structures path enough above =
        rw (found, validate_members)
          (rw
            (complete_field h fuel structures (ValuePath.child path f.key) enough
              (λ x d busy named. above x d busy (Names-NamesAny f fields d named)))
            (complete_all hs fuel structures path enough
              (λ x d busy named. above x d busy (NamesAny-cons (some f) fields d named))))
