-- ===== src/Structures/Written.antt =====
-- What the update of a row in server/internal/repository/structure.go finds and writes.
use mathlib.Core.List.{Memᴰ}
use kirby.Store.Rows.{exists_row-Memᴰ}
use kirby.Base.{
  str_eq, true, Bool-cases, inl, inr, arith, not, ◌==◌, ◌&&◌, ℕ, String, Bool, false, List, ok,
  fail_if, >>=-eq-ok, ok-injective, ◌≡◌, sym,
}
use kirby.Store.{affected_rows, exists_row, update_rows}
use kirby.Publish.Data.{unchanged, Actor, conflict}
use kirby.Structures.{
  ChildUpdate, at_version, is_taken, changed, update, ChildRow, ChildStatement, attempt, find_by_id,
}
use kirby.Structures.Edit.{StructureInput}
use kirby.Structures.Kept.{fail_if-passed}
use kirby.Store.{Tables}

abbrev pub written : Actor → StructureInput → String → ChildUpdate
written actor input content = record {
  key = input.key;
  name = input.name;
  description = input.description;
  content = content;
  updated_by = actor.user_id;
  version = input.version;
}

module _ (fault : ChildStatement → Bool) (now : ℕ) where
  -- A row had the version that the caller read, no other row of the configuration has the key, and
  -- the rows with the ID and the version are changed.
  pub record IsWritten (t : Tables) (e item : ℕ) (u : ChildUpdate) (rows rows' : List ChildRow)
      : Type 0 where
    pub row : ChildRow
    pub found : find_by_id fault now t e item rows ≡ ok row
    pub current : (affected_rows (at_version fault now item u.version) rows == 0) ≡ false
    pub free :
        (r : ChildRow)
        → Memᴰ r rows
        → (r.config_id == row.config_id) ≡ true
        → (r.id == item) ≡ false
        → str_eq r.key u.key ≡ false
    pub changes :
        rows' ≡ update_rows (at_version fault now item u.version) (changed fault now u) rows

  module _ (same_key : String → String → Bool)
      (alike : (j k : String) → str_eq j k ≡ true → same_key j k ≡ true) where
    not_taken :
        (c item : ℕ) (key : String) (rows : List ChildRow)
        → exists_row (is_taken fault now same_key c item key) rows ≡ false
        → (r : ChildRow) → Memᴰ r rows
        → (r.config_id == c) ≡ true
        → (r.id == item) ≡ false
        → str_eq r.key key ≡ false
    not_taken c item key rows none_there r m home other = elim (Bool-cases (str_eq r.key key)) [
      | inr differs ↦ differs
      | inl equal ↦
          let taken : is_taken fault now same_key c item key r ≡ true =
            ground (arith, alike r.key key equal) in
          absurd
            (ground (arith, exists_row-Memᴰ (is_taken fault now same_key c item key) rows m taken))
    ]

    pub update-IsWritten :
        (t : Tables) (e item : ℕ) (u : ChildUpdate) (rows : List ChildRow) {rows' : List ChildRow}
        → update fault now same_key t e item u rows ≡ ok rows'
        → IsWritten t e item u rows rows'
    unfolding update
    update-IsWritten t e item u rows h =
        let (row, found, h1) = >>=-eq-ok (find_by_id fault now t e item rows) _ h in
        let (_, _, h2) = >>=-eq-ok (attempt fault now ChildStatement.update_row) _ h1 in
        let none_changed = affected_rows (at_version fault now item u.version) rows == 0 in
        let taken = exists_row (is_taken fault now same_key row.config_id item u.key) rows in
        let (_, apart, h3) =
          >>=-eq-ok (fail_if (not none_changed && taken) (conflict "key")) _ h2 in
        let (_, some_changed, h4) = >>=-eq-ok (fail_if none_changed (unchanged "structure")) _ h3 in
        let current = fail_if-passed none_changed _ some_changed in
        let both = fail_if-passed (not none_changed && taken) _ apart in
        record {
          row = row;
          found = found;
          current = current;
          free = not_taken row.config_id item u.key rows (rw current at both);
          changes = sym (ok-injective h4);
        }
