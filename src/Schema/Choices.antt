-- ===== src/Schema/Choices.antt =====
-- server/internal/entity/schema.go: FilterStructureChoices. Its items are messages that a
-- repository returned, never nil.
pub mod Exact
pub mod Pass
use kirby.Base.{
  ℕ, zero, suc, String, str_eq, Bool, true, false, not, ◌&&◌, ◌||◌, List, [], ◌∷◌, Option, none,
  some, Result, ok, err, length, ℤ, eqz, is_positive, if◌then◌else◌,
}
use kirby.Keys.{contains, add}
use kirby.Schema.Types.{Field, Structure, Error, out_of_fuel, Checked, get_type, get_structure_key}

-- The loop of referencesRejectedStructure.
unfoldable pub references_rejected : List (Option Field) → List String → Bool
references_rejected [] rejected = false
references_rejected (f ∷ fields) rejected =
    contains rejected (get_structure_key (get_type f)) || references_rejected fields rejected

-- The `continue` of rejectDependentStructures.
unfoldable pub skips : Structure → List String → Bool
unfolding references_rejected
skips item rejected = contains rejected item.key || not (references_rejected item.fields rejected)

-- rejectDependentStructures: whether a key was added, and the set.
unfoldable pub reject_dependents : List Structure → List String → Bool → Bool × List String
reject_dependents [] rejected changed = (changed, rejected)
reject_dependents (item ∷ items) rejected changed =
    let skipped = skips item rejected in
    reject_dependents items (if skipped then rejected else add item.key rejected)
      (if skipped then changed else true)

-- `for rejectDependentStructures(items, rejected) {}`
unfoldable pub reject_all : ℕ → List Structure → List String → Checked (List String)
unfolding reject_dependents
reject_all zero items rejected = err out_of_fuel
reject_all (suc fuel) items rejected =
    let (changed, more) = reject_dependents items rejected false in
    elim changed [ true ↦ reject_all fuel items more | false ↦ ok more ]

unfoldable pub keep_others : List Structure → List String → List Structure
keep_others [] rejected = []
keep_others (item ∷ items) rejected =
    if contains rejected item.key
    then keep_others items rejected
    else item ∷ keep_others items rejected

unfoldable pub find_id : List Structure → ℤ → Option Structure
find_id [] id = none
find_id (item ∷ items) id = if eqz item.id id then some item else find_id items id

-- Each pass that changes the set adds the key of an item, so one more pass than items is enough.
unfoldable pub filter_structure_choices : List Structure → ℤ → Checked (List Structure)
unfolding reject_all keep_others find_id
filter_structure_choices items ignore_id =
    if not (is_positive ignore_id) then ok items else elim (find_id items ignore_id) [
      | none ↦ ok items
      | some ignored ↦ elim (reject_all (suc (length items)) items (ignored.key ∷ [])) [
        | ok rejected ↦ ok (keep_others items rejected)
        | err e ↦ err e
      ]
    ]
