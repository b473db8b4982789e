-- ===== src/Structures/Left.antt =====
-- What the update of a structure leaves to the next edit.
use mathlib.Core.List.{Memᴰ}
use kirby.Base.{
  pos_part, ℕ, suc, ◌<◌, String, Bool, true, false, ◌==◌, List, Option, some, ℤ, pos, negsuc, ok,
  >>=-eq-ok, ok-injective, ◌≡◌, refl, sym, ap, ◌∙◌, arith,
}
use kirby.Schema.Types.{Structure, Field, FieldType, SelectOption}
use kirby.Store.{AuditLog, update_rows, affected_rows}
use kirby.Store.Rows.{find_row_lem}
use kirby.Store.Exists.{affected_rows-find}
use kirby.Publish.Writes.{next_version}
use kirby.SafeInt.{max_uint32, uint32_from_int64}
use kirby.Structures.{
  ChildRow, ChildUpdate, ChildStatement, attempt, list_for_config, at_version, changed,
}
use kirby.Structures.Convert.{valid_meta, structure_to_proto}
use kirby.Structures.Edit.{Workspace, Resources, find_structure, replaced, lock}
use kirby.Structures.Kept.{live_rows, lock-changed, find_structure-id}
use kirby.Structures.Changed.{
  structure_to_proto-row, structures_to_proto-Memᴰ, find_structure-row, is_named, live_rows-changed,
  Memᴰ-live_rows, structures_to_proto-replaced,
}

module _ (fault : ChildStatement → Bool) (now : ℕ) where
  uint32_from_int64-next :
      (v : ℤ) (n : ℕ)
      → uint32_from_int64 v ≡ ok n
      → n < max_uint32
      → uint32_from_int64 (next_version v) ≡ ok (suc n)
  unfolding uint32_from_int64
  uint32_from_int64-next (pos k) n h room = ground arith
  uint32_from_int64-next (negsuc k) n h room = cc

  pub uint32_from_int64-below :
      (v : ℤ) (n : ℕ) → uint32_from_int64 v ≡ ok n → pos_part v < max_uint32 → n < max_uint32
  unfolding uint32_from_int64
  uint32_from_int64-below (pos k) n h room = ground arith
  uint32_from_int64-below (negsuc k) n h room = cc

  -- The definition that a changed row is converted to.
  abbrev pub definition : ℤ → ℤ → ChildUpdate → List (Option Field) → ℕ → Structure
  definition id config_id u fields version = record {
    id = id;
    config_id = config_id;
    key = u.key;
    name = u.name;
    description = u.description;
    fields = fields;
    version = version;
  }

  -- No two rows share an ID.
  abbrev pub HasDistinctIds : List ChildRow → Type 0
  HasDistinctIds rows = (r s : ChildRow) → Memᴰ r rows → Memᴰ s rows → (r.id == s.id) ≡ true → r ≡ s

  module _ (decode_fields : String → Option (List (Option Field)))
      (decode_values : String → Option (List (Option SelectOption)))
      (decode_type : String → Option (Option FieldType)) where
    structure_to_proto-changed :
        (u : ChildUpdate) (fields : List (Option Field)) (version : ℕ) (r : ChildRow)
        → decode_fields u.content ≡ some fields
        → uint32_from_int64 u.version ≡ ok version
        → version < max_uint32
        → (r.id == 0) ≡ false
        → structure_to_proto decode_fields decode_values (changed fault now u r)
          ≡ ok (definition (pos r.id) (pos r.config_id) u fields (suc version))
    unfolding structure_to_proto valid_meta changed
    structure_to_proto-changed u fields version r decoded narrow room positive =
        rw (positive, uint32_from_int64-next u.version version narrow room, decoded) refl

    pub lock-changed_row :
        (e c item : ℕ) (audits : List AuditLog) (u : ChildUpdate) (fields : List (Option Field))
        (version : ℕ) (w : Workspace) {r : Resources} {locked : Structure}
        → HasDistinctIds w.structures
        → (affected_rows (at_version fault now item u.version) w.structures == 0) ≡ false
        → decode_fields u.content ≡ some fields
        → uint32_from_int64 u.version ≡ ok version
        → version < max_uint32
        → lock decode_fields decode_values decode_type fault now e c w ≡ ok r
        → find_structure r.structures (pos item) ≡ ok locked
        → lock decode_fields decode_values decode_type fault now e c (record w {
          structures =
              update_rows (at_version fault now item u.version) (changed fault now u) w.structures;
          tables = record (w.tables) { audits = audits };
        })
          ≡ ok (record r {
            structures =
                replaced
                  (definition locked.id locked.config_id u fields (suc version))
                  r.structures;
          })
    unfolding list_for_config
    lock-changed_row e c item audits u fields version w {r} {locked} distinct current decoded narrow
          room held found =
        let (row, chosen) =
          affected_rows-find (at_version fault now item u.version) w.structures (ground arith) in
        let (holds, m) = find_row_lem (at_version fault now item u.version) w.structures chosen in
        let candidate = definition locked.id locked.config_id u fields (suc version) in
        lock-changed fault now decode_fields decode_values decode_type e c audits _ w
          (replaced candidate r.structures) held
          (λ listing listed read.
            let (_, passed, h1) =
              >>=-eq-ok (attempt fault now ChildStatement.lock_children) _ listed in
            let live : live_rows fault now w.tables e c w.structures ≡ listing = ok-injective h1 in
            let is_row = λ (x : ChildRow) (n : Memᴰ x w.structures) (here : (x.id == item) ≡ true).
              distinct x row n m (ground arith) in
            let same_id : locked.id ≡ pos item = find_structure-id r.structures (pos item) found in
            let (x0, n0, made) =
              find_structure-row decode_fields decode_values listing (pos item) read found in
            let within = λ (x : ChildRow) (n : Memᴰ x listing).
              Memᴰ-live_rows fault now w.tables e c w.structures x (rw live n) in
            let home : locked.config_id ≡ pos c =
              (structure_to_proto-row decode_fields decode_values x0 made).1
              ∙ ap pos ((within x0 n0).1) in
            (
              update_rows (is_named fault now item) (changed fault now u) listing,
              rw (passed, ← live)
                  (ap ok (
                    live_rows-changed fault now w.tables e c item u w.structures
                      (λ x n here. rw (is_row x n here) holds))),
              structures_to_proto-replaced fault now decode_fields decode_values item u candidate
                  listing same_id
                  (λ x n here.
                    let (q, eq) =
                      structures_to_proto-Memᴰ decode_fields decode_values listing read n in
                    let (positive, _) = structure_to_proto-row decode_fields decode_values x eq in
                    let a : pos x.id ≡ locked.id = ap pos (ground arith) ∙ sym same_id in
                    let b : pos x.config_id ≡ locked.config_id =
                      ap pos ((within x n).1) ∙ sym home in
                    structure_to_proto-changed u fields version x decoded narrow room positive
                    ∙ (ap (λ i. ok (definition i (pos x.config_id) u fields (suc version))) a
                        ∙ ap (λ j. ok (definition locked.id j u fields (suc version))) b))
                  read,
            ))
