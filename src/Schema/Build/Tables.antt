-- ===== src/Schema/Build/Tables.antt =====
-- What the first three loops of NewSchema leave in the two maps.
use mathlib.Core.List.{Memᴰ}
use kirby.Base.{
  String, str_eq, eq_iff, ◌≡◌, refl, sym, ap, subst, true, false, not, ◌||◌, List, [], ◌∷◌, Option,
  none, some, ok, >>=-eq-ok, ok-injective, Bool-cases, ◌⊎◌, inl, inr, arith, All,
}
use kirby.Keys.{contains, add}
use kirby.Dict.{Dict, lookup, insert, lookup-insert}
use kirby.Schema.Types.{Field, Structure, SelectOption, ConfigEnum, Schema}
use kirby.Schema.Texts.{enum_value_pattern, valid_name, too_long}
use kirby.Schema.Build.{
  is_some, is_empty, well_labelled, validate_type, validate_fields, validate_structure_fields,
  validate_enum_values, add_structures, add_enums, validate_all_fields,
}

-- A field that is there and whose type the schema resolves.
abbrev pub IsField : Schema → Option Field → Type 0
IsField s f = (g : Field) × (f ≡ some g) × (validate_type s g.type ≡ ok tt)

pub validate_fields-IsField :
    (s : Schema) (key : String) (seen : List String) (fields : List (Option Field))
    → validate_fields s key seen fields ≡ ok tt
    → All (IsField s) fields
unfolding validate_fields
validate_fields-IsField s key seen [] h = tt
validate_fields-IsField s key seen (none ∷ fields) h = cc
validate_fields-IsField s key seen (some f ∷ fields) h =
    elim (Bool-cases (not (well_labelled f.key f.name f.description) || contains seen f.key)) [
      | inl bad ↦ let wrong = rw (bad, validate_fields) at h in cc
      | inr good ↦
          let (_, typed, rest) =
            >>=-eq-ok (validate_type s f.type) (λ _. validate_fields s key (add f.key seen) fields)
              (rw (good, validate_fields) at h) in
          ((f, refl, typed), validate_fields-IsField s key (add f.key seen) fields rest)
    ]

-- Where an entry of the table of structures comes from.
pub record IsListed (items : List (Option Structure)) (k : String) (item : Structure) : Type 0 where
  pub listed : Memᴰ (some item) items
  pub keyed : item.key ≡ k
  pub labelled : well_labelled item.key item.name item.description ≡ true

IsListed-cons :
    {items : List (Option Structure)} {k : String} {item : Structure} (i : Option Structure)
    → IsListed items k item
    → IsListed (i ∷ items) k item
IsListed-cons i h = record { listed = Memᴰ.tail h.listed; keyed = h.keyed; labelled = h.labelled }

pub add_structures-IsListed :
    (items : List (Option Structure)) (m m' : Dict Structure) (k : String) (item : Structure)
    → add_structures m items ≡ ok m'
    → lookup m' k ≡ some item
    → (lookup m k ≡ some item) ⊎ IsListed items k item
unfolding add_structures
add_structures-IsListed [] m m' k item h found = let e : m ≡ m' = ok-injective h in inl (rw e found)
add_structures-IsListed (none ∷ items) m m' k item h found = cc
add_structures-IsListed (some i ∷ items) m m' k item h found =
    elim (Bool-cases (well_labelled i.key i.name i.description)) [
      | inr bad ↦ let wrong = rw (bad, add_structures) at h in cc
      | inl good ↦ elim (Bool-cases (is_some (lookup m i.key))) [
        | inl twice ↦ let wrong = rw (good, twice, add_structures) at h in cc
        | inr new ↦
            elim (add_structures-IsListed items (insert i.key i m) m' k item
              (rw (good, new, add_structures) at h) found) [
                | inr later ↦ inr (IsListed-cons (some i) later)
                | inl now ↦ elim (Bool-cases (str_eq i.key k)) [
                  | inr other ↦ inl (rw (lookup-insert i.key k i m, other) at now)
                  | inl same ↦
                      let e : i ≡ item =
                        let e' = rw (lookup-insert i.key k i m, same) at now in cc in
                      inr (record {
                        listed = Memᴰ.head (ap some (sym e));
                        keyed = subst (λ (x : Structure). x.key ≡ k) e ((eq_iff i.key k).0 same);
                        labelled =
                            subst
                              (λ (x : Structure). well_labelled x.key x.name x.description ≡ true) e
                              good;
                      })
                ]
              ]
      ]
    ]

pub validate_all_fields-lem :
    (s : Schema) (items : List (Option Structure)) (item : Structure)
    → validate_all_fields s items ≡ ok tt
    → Memᴰ (some item) items
    → validate_structure_fields s item ≡ ok tt
unfolding validate_all_fields
validate_all_fields-lem s [] item h m = elim m [ ]
validate_all_fields-lem s (none ∷ items) item h m = cc
validate_all_fields-lem s (some i ∷ items) item h (Memᴰ.head e) =
    let (_, now, _) =
      >>=-eq-ok (validate_structure_fields s i) (λ _. validate_all_fields s items) h in
    let e' : i ≡ item = cc in rw (← e') now
validate_all_fields-lem s (some i ∷ items) item h (Memᴰ.tail m) =
    let (_, _, rest) =
      >>=-eq-ok (validate_structure_fields s i) (λ _. validate_all_fields s items) h in
    validate_all_fields-lem s items item rest m

abbrev pub IsOption : Option SelectOption → Type 0
IsOption v = (o : SelectOption) × (v ≡ some o)

validate_enum_values-IsOption :
    (key : String) (seen : List String) (options : List (Option SelectOption))
    → validate_enum_values key seen options ≡ ok tt
    → All IsOption options
unfolding validate_enum_values
validate_enum_values-IsOption key seen [] h = tt
validate_enum_values-IsOption key seen (none ∷ options) h = cc
validate_enum_values-IsOption key seen (some o ∷ options) h =
    elim (Bool-cases (
      not (enum_value_pattern o.value)
      || not (valid_name o.label)
      || too_long o.description
      || contains seen o.value)) [
        | inl bad ↦ let wrong = rw (bad, validate_enum_values) at h in cc
        | inr good ↦ (
          (o, refl),
          validate_enum_values-IsOption key (add o.value seen) options
              (rw (good, validate_enum_values) at h),
        )
      ]

-- An enum has an option, and no nil one.
pub record IsEnum (e : ConfigEnum) : Type 0 where
  pub filled : is_empty e.values ≡ false
  pub options : All IsOption e.values

pub add_enums-IsEnum :
    (items : List (Option ConfigEnum)) (m m' : Dict ConfigEnum) (k : String) (e : ConfigEnum)
    → add_enums m items ≡ ok m'
    → lookup m' k ≡ some e
    → (lookup m k ≡ some e) ⊎ IsEnum e
unfolding add_enums
add_enums-IsEnum [] m m' k e h found = let same : m ≡ m' = ok-injective h in inl (rw same found)
add_enums-IsEnum (none ∷ items) m m' k e h found = cc
add_enums-IsEnum (some i ∷ items) m m' k e h found =
    elim (Bool-cases (not (well_labelled i.key i.name i.description) || is_empty i.values)) [
      | inl bad ↦ let wrong = rw (bad, add_enums) at h in cc
      | inr good ↦ elim (Bool-cases (is_some (lookup m i.key))) [
        | inl twice ↦ let wrong = rw (good, twice, add_enums) at h in cc
        | inr new ↦
            let (_, checked, rest) =
              >>=-eq-ok (validate_enum_values i.key [] i.values)
                (λ _. add_enums (insert i.key i m) items) (rw (good, new, add_enums) at h) in
            elim (add_enums-IsEnum items (insert i.key i m) m' k e rest found) [
              | inr later ↦ inr later
              | inl now ↦ elim (Bool-cases (str_eq i.key k)) [
                | inr other ↦ inl (rw (lookup-insert i.key k i m, other) at now)
                | inl same ↦
                    let e' : i ≡ e = let e' = rw (lookup-insert i.key k i m, same) at now in cc in
                    inr (
                      subst IsEnum e' (record {
                        filled = ground (arith, good);
                        options = validate_enum_values-IsOption i.key [] i.values checked;
                      }))
              ]
            ]
      ]
    ]
