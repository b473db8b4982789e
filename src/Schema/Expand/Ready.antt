-- ===== src/Schema/Expand/Ready.antt =====
-- What the functions that expand a type recursively may rely on in a well-formed schema, at
-- each level of the recursion.
use kirby.Base.{
  ℕ, suc, ◌<◌, String, str_eq, ◌≡◌, refl, subst, ◌≢◌, false, List, [], ◌∷◌, Option, none, some, ok,
  Bool-cases, Option-cases, inl, inr, arith, All,
}
use kirby.Keys.{contains, remaining, remaining-le, remaining-cons-lt}
use kirby.Dict.{lookup, keys, contains-keys_of_some}
use kirby.Schema.Types.{Kind, FieldType, Field, Structure, ConfigEnum, Schema, get_structure_key}
use kirby.Schema.Build.{validate_type, validate_kind}
use kirby.Schema.Build.Tables.{IsField}
use kirby.Schema.Build.WellFormed.{IsWellFormed, type-resolved}
use kirby.Schema.Values.{enough_fuel}
use kirby.Schema.Values.Complete.{
  Above, Names, NamesAny, Names-NamesAny, NamesAny-cons, Above-enter, no_empty, key_of,
}

pub structure_kind-found :
    (s : Schema) (t : FieldType) (k : String)
    → t.kind ≡ some (Kind.structure_key k)
    → validate_type s (some t) ≡ ok tt
    → (item : Structure) × (lookup s.structures k ≡ some item)
unfolding validate_type
structure_kind-found s t k e typed = elim (Option-cases (lookup s.structures k)) [
  | inl missing ↦ let wrong = rw (e, missing, validate_kind) at typed in cc
  | inr found ↦ found
]

pub enum_kind-found :
    (s : Schema) (t : FieldType) (k : String)
    → t.kind ≡ some (Kind.enum_key k)
    → validate_type s (some t) ≡ ok tt
    → (e : ConfigEnum) × (lookup s.enums k ≡ some e)
unfolding validate_type
enum_kind-found s t k e typed = elim (Option-cases (lookup s.enums k)) [
  | inl missing ↦ let wrong = rw (e, missing, validate_kind) at typed in cc
  | inr found ↦ found
]

pub kind-is_set : (s : Schema) (t : FieldType) → validate_type s (some t) ≡ ok tt → t.kind ≢ none
unfolding validate_type
kind-is_set s t typed unset = let wrong = rw unset at typed in cc

pub type-is_set : (s : Schema) → validate_type s none ≢ ok tt
unfolding validate_type
type-is_set s typed = cc

module _ (s : Schema) (wf : IsWellFormed s) where
  -- What a call for the type `t` inside `structures` with `fuel` may rely on.
  pub record IsReady (fuel : ℕ) (structures : List String) (t : Option FieldType) : Type 0 where
    pub typed : validate_type s t ≡ ok tt
    pub enough : remaining (keys s.structures) structures < fuel
    pub above : Above s.structures structures (Names t)

  -- The same for the fields of a structure.
  pub record AreReady (fuel : ℕ) (structures : List String) (fields : List (Option Field))
      : Type 0 where
    pub typed : All (IsField s) fields
    pub enough : remaining (keys s.structures) structures < fuel
    pub above : Above s.structures structures (NamesAny fields)

  pub AreReady-head :
      {fuel : ℕ} {structures : List String} (f : Field) {fields : List (Option Field)}
      → AreReady fuel structures (some f ∷ fields)
      → IsReady fuel structures f.type
  AreReady-head f {fields = fields} r = record {
    typed = let (g, e, typed) = r.typed.0 in let e' : g ≡ f = cc in rw (← e') typed;
    enough = r.enough;
    above = λ x d busy named. r.above x d busy (Names-NamesAny f fields d named);
  }

  pub AreReady-tail :
      {fuel : ℕ} {structures : List String} (f : Option Field) {fields : List (Option Field)}
      → AreReady fuel structures (f ∷ fields)
      → AreReady fuel structures fields
  AreReady-tail f {fields = fields} r = record {
    typed = r.typed.1;
    enough = r.enough;
    above = λ x d busy named. r.above x d busy (NamesAny-cons f fields d named);
  }

  -- A structure's key is not in the set, and its fields are ready inside it.
  pub record Enters (fuel : ℕ) (structures : List String) (k : String) : Type 0 where
    pub definition : Structure
    pub found : lookup s.structures k ≡ some definition
    pub fresh : contains structures k ≡ false
    pub inside : AreReady fuel (k ∷ structures) definition.fields

  pub IsReady-Enters :
      (fuel : ℕ) (structures : List String) (t : FieldType)
      → IsReady (suc fuel) structures (some t)
      → str_eq (get_structure_key (some t)) "" ≡ false
      → Enters fuel structures (get_structure_key (some t))
  IsReady-Enters fuel structures t r set =
      let k = get_structure_key (some t) in
      let (definition, found) = type-resolved s (some t) r.typed set in
      elim (Bool-cases (contains structures k)) [
        | inl busy ↦ absurd (wf.acyclic k (r.above k k busy (refl, set)))
        | inr fresh ↦ record {
          definition = definition;
          found = found;
          fresh = fresh;
          inside = record {
            typed = wf.resolved.fields k definition found;
            enough = omega (
              arith,
              r.enough,
              remaining-cons-lt (keys s.structures) k structures
                  (contains-keys_of_some k s.structures {v = definition} found) fresh,
            );
            above = Above-enter s wf structures t k definition refl set found r.above;
          };
        }
      ]

  pub IsReady-Enters_kind :
      (fuel : ℕ) (structures : List String) (t : FieldType) (k : String)
      → IsReady (suc fuel) structures (some t)
      → t.kind ≡ some (Kind.structure_key k)
      → Enters fuel structures k
  IsReady-Enters_kind fuel structures t k r e =
      let (item, found) = structure_kind-found s t k e r.typed in
      let named = key_of s wf t k e in
      subst (Enters fuel structures) named
        (IsReady-Enters fuel structures t r (rw named (no_empty s wf k item found)))

  pub IsReady_start :
      (t : Option FieldType) → validate_type s t ≡ ok tt → IsReady (enough_fuel s) [] t
  unfolding contains
  IsReady_start t typed = record {
    typed = typed;
    enough = omega (arith, remaining-le (keys s.structures) []);
    above = λ x d busy named. cc;
  }
