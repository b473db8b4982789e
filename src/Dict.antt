-- ===== src/Dict.antt =====
-- Go's map[string]V as an association list: `lookup` is `value, exists := m[key]`, `insert` is
-- `m[key] = value`.
use kirby.Base.{
  String, str_eq, eq_iff, ◌≡◌, refl, true, List, [], ◌∷◌, Option, none, some, arith, if◌then◌else◌,
  Bool-cases, inl, inr,
}
use kirby.Keys.{contains}

abbrev pub Dict : Type 0 → Type 0
Dict V = List (String × V)

module _ {V : Type 0} where
  unfoldable pub lookup : Dict V → String → Option V
  lookup [] k = none
  lookup ((j, v) ∷ m) k = if str_eq j k then some v else lookup m k

  unfoldable pub insert : String → V → Dict V → Dict V
  insert k v [] = (k, v) ∷ []
  insert k v ((j, w) ∷ m) = if str_eq j k then (k, v) ∷ m else (j, w) ∷ insert k v m

  -- delete(m, key)
  unfoldable pub delete : String → Dict V → Dict V
  delete k [] = []
  delete k ((j, v) ∷ m) = if str_eq j k then delete k m else (j, v) ∷ delete k m

  unfoldable pub keys : Dict V → List String
  keys [] = []
  keys ((j, v) ∷ m) = j ∷ keys m

  pub lookup-insert :
      (k j : String) (v : V) (m : Dict V)
      → lookup (insert k v m) j ≡ (if str_eq k j then some v else lookup m j)
  unfolding lookup insert
  lookup-insert k j v [] = refl
  lookup-insert k j v ((i, w) ∷ m) =
      ground (arith, eq_iff k j, eq_iff i k, eq_iff i j, lookup-insert k j v m)

  pub lookup-delete :
      (k j : String) (m : Dict V)
      → lookup (delete k m) j ≡ (if str_eq k j then none else lookup m j)
  unfolding lookup delete
  lookup-delete k j [] = ground arith
  lookup-delete k j ((i, w) ∷ m) =
      ground (arith, eq_iff k j, eq_iff i k, eq_iff i j, lookup-delete k j m)

  -- A key is listed exactly when it has a value.
  pub contains-keys_of_some :
      (k : String) (m : Dict V) {v : V} → lookup m k ≡ some v → contains (keys m) k ≡ true
  unfolding lookup keys contains
  contains-keys_of_some k [] h = cc
  contains-keys_of_some k ((j, w) ∷ m) {v} h = elim (Bool-cases (str_eq j k)) [
    | inl same ↦ rw same
    | inr other ↦ rw other (contains-keys_of_some k m (rw (other, lookup) at h))
  ]

  pub lookup_of_contains-keys :
      (k : String) (m : Dict V) → contains (keys m) k ≡ true → (v : V) × (lookup m k ≡ some v)
  unfolding lookup keys contains
  lookup_of_contains-keys k [] h = cc
  lookup_of_contains-keys k ((j, w) ∷ m) h = elim (Bool-cases (str_eq j k)) [
    | inl same ↦ (w, rw same)
    | inr other ↦
        let (v, found) = lookup_of_contains-keys k m (rw (other, contains) at h) in
        (v, rw other found)
  ]
