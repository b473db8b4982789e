-- ===== src/Structures/Edited.antt =====
-- The update of a structure as a whole: what it is checked against, and what it leaves.
use kirby.Base.{
  str_eq, suc, ◌<◌, pos_part, none, err, ℕ, String, Bool, true, List, ◌∷◌, Option, some, Result, ok,
  >>=-eq-ok, ok-injective, ◌≡◌, sym, ap, subst, ◌∙◌,
}
use kirby.Keys.{contains}
use kirby.Schema.Types.{Field, FieldType, SelectOption}
use kirby.Publish.Data.{invalid, Failure, Actor}
use kirby.Structures.{update, ChildRow, ChildStatement, attempt, find_by_id}
use kirby.Store.{AuditLog}
use kirby.Structures.Edit.{
  structure_audit, StructureInput, candidate_of_input, replaced, validate_update, save_update,
  edit_body, edit_structure, Workspace, lock, recorded,
}
use kirby.SafeInt.{max_uint32}
use kirby.Structures.Written.{written, IsWritten, update-IsWritten}
use kirby.Structures.Checked.{IsChecked, validate_update-IsChecked}
use kirby.Structures.Left.{lock-changed_row, uint32_from_int64-below, HasDistinctIds}

module _ (fault : ChildStatement → Bool) (now : ℕ) where
  module _ (decode_fields : String → Option (List (Option Field)))
      (decode_values : String → Option (List (Option SelectOption)))
      (decode_type : String → Option (Option FieldType)) (range_keys : List String → List String)
      (require : ℕ → ℕ → Result Failure (Unit {0}))
      (transact : (Workspace → Result Failure Workspace) → Workspace → Result Failure Workspace)
      (same_key : String → String → Bool)
      (alike : (j k : String) → str_eq j k ≡ true → same_key j k ≡ true) where
    save_update-IsWritten :
        (actor : Actor) (e item : ℕ) (input : StructureInput) (content : String) (w : Workspace)
        {w' : Workspace}
        → save_update decode_fields decode_values decode_type fault now range_keys require transact
            same_key actor e item input content w
          ≡ ok w'
        → IsWritten fault now w.tables e item
            (written actor input content)
            w.structures
            w'.structures
          × (audits : List AuditLog) × (record w {
            structures = w'.structures;
            tables = record (w.tables) { audits = audits };
          }
              ≡ w')
    unfolding save_update recorded
    save_update-IsWritten actor e item input content w {w'} h =
        let u = written actor input content in
        let (rows, updated, h1) =
          >>=-eq-ok (update fault now same_key w.tables e item u w.structures) _ h in
        let (_, _, h2) = >>=-eq-ok (attempt fault now ChildStatement.insert_log) _ h1 in
        let audits = structure_audit actor e "structure.update" item ∷ w.tables.audits in
        let last : record w { structures = rows; tables = record (w.tables) { audits = audits } }
            ≡ w' =
          ok-injective h2 in
        let same : rows ≡ w'.structures = ap (λ (x : Workspace). x.structures) last in
        (
          subst (IsWritten fault now w.tables e item u w.structures) same
              (update-IsWritten fault now same_key alike w.tables e item u w.structures updated),
          audits,
          ap (λ x. record w { structures = x; tables = record (w.tables) { audits = audits } })
                (sym same)
              ∙ last,
        )

    -- What the next edit locks: the accepted definitions, the edited one at the next version.
    abbrev Leaves :
        (e c item : ℕ) (input : StructureInput) (w w' : Workspace)
        → IsChecked fault now decode_fields decode_values decode_type range_keys require transact e
            c item input w
        → Type 0
    Leaves e c item input w w' checked =
        lock decode_fields decode_values decode_type fault now e c w'
        ≡ ok (record (checked.before) {
          structures =
              replaced
                (candidate_of_input decode_fields decode_values decode_type fault now range_keys
                  require transact checked.locked.id checked.locked.config_id (suc checked.version)
                  input)
                checked.before.structures;
        })

    -- What a successful update has written, was checked against and leaves.
    abbrev pub IsEdited :
        (actor : Actor) (e c item : ℕ) (input : StructureInput) (content : String)
        (w w' : Workspace)
        → Type 0
    IsEdited actor e c item input content w w' =
        IsWritten fault now w.tables e item (written actor input content) w.structures w'.structures
        × (checked : IsChecked fault now decode_fields decode_values decode_type range_keys require
            transact e c item input w)
        × Leaves e c item input w w' checked

    edit_body-IsEdited :
        ((ks : List String) (k : String) → contains (range_keys ks) k ≡ contains ks k)
        → (actor : Actor) (e c item : ℕ) (input : StructureInput) (content : String) (w : Workspace)
          {w' : Workspace}
        → HasDistinctIds fault now w.structures
        → pos_part input.version < max_uint32
        → decode_fields content ≡ some input.fields
        → edit_body decode_fields decode_values decode_type fault now range_keys require transact
            same_key actor e c item input content w
          ≡ ok w'
        → IsEdited actor e c item input content w w'
    unfolding edit_body candidate_of_input
    edit_body-IsEdited range_lists actor e c item input content w {w'} distinct room decoded h =
        let (_, accepted_here, h1) =
          >>=-eq-ok
            (validate_update decode_fields decode_values decode_type fault now range_keys require
              transact e c item input w)
            _ h in
        let (by, audits, last) = save_update-IsWritten actor e item input content w h1 in
        let checked =
          validate_update-IsChecked fault now decode_fields decode_values decode_type range_keys
            require transact range_lists e c item input w accepted_here in
        let u = written actor input content in
        let next =
          lock-changed_row fault now decode_fields decode_values decode_type e c item audits u
            input.fields checked.version w distinct by.current decoded checked.narrowed
            (uint32_from_int64-below fault now input.version checked.version checked.narrowed room)
            checked.held checked.found in
        let rows =
          ap
            (λ x.
              lock decode_fields decode_values decode_type fault now e c
                (record w { structures = x; tables = record (w.tables) { audits = audits } }))
            by.changes in
        (
          by,
          checked,
          ap (lock decode_fields decode_values decode_type fault now e c) (sym last)
              ∙ (rows ∙ next),
        )

    encoded : Option String → Result Failure String
    encoded none = err (invalid "invalid structure fields")
    encoded (some text) = ok text

    encoded-ok : (o : Option String) {text : String} → encoded o ≡ ok text → o ≡ some text
    unfolding encoded
    encoded-ok none h = cc
    encoded-ok (some text) h = ap some (ok-injective h)

    -- A successful Update of a structure finds the definitions of the configuration, with the input
    -- in place of the one edited, accepted by NewSchema, and so well formed, and leaves these: with
    -- the database as it answered, the next edit locks them, the edited one at the next version,
    -- beside the same configuration and enums. It changes the key only if neither the type of the
    -- configuration nor another structure references it, finds a live row with the ID and the version
    -- of the caller and no other row of the configuration with the new key, and changes the rows with
    -- that ID and version alone. The order in which NewSchema ranges over keys has the keys of the
    -- map, TX commits what its function leaves when it returns no error, the fields are decoded as
    -- they were encoded, the collation takes equal keys for equal, IDs are distinct, and the version
    -- is below the largest uint32.
    pub edit_structure-IsChecked :
        (encode_fields : List (Option Field) → Option String) (actor : Actor) (e item : ℕ)
        (input : StructureInput) (w : Workspace) {w' : Workspace}
        → ((ks : List String) (k : String) → contains (range_keys ks) k ≡ contains ks k)
        → ((body : Workspace → Result Failure Workspace) (x : Workspace) (y : Workspace)
            → transact body x ≡ ok y
            → body x ≡ ok y)
        → ((text : String)
            → encode_fields input.fields ≡ some text
            → decode_fields text ≡ some input.fields)
        → HasDistinctIds fault now w.structures
        → pos_part input.version < max_uint32
        → edit_structure decode_fields decode_values decode_type fault now range_keys require
            transact same_key encode_fields actor e item input w
          ≡ ok w'
        → (row : ChildRow) × (find_by_id fault now w.tables e item w.structures ≡ ok row)
          × (content : String) × (encode_fields input.fields ≡ some content)
          × IsEdited actor e row.config_id item input content w w'
    unfolding edit_structure encoded
    edit_structure-IsChecked encode_fields actor e item input w range_lists commits read_back
          distinct room h =
        let (_, _, h1) = >>=-eq-ok (require actor.user_id e) _ h in
        let (row, there, h2) = >>=-eq-ok (find_by_id fault now w.tables e item w.structures) _ h1 in
        let (content, text, h3) = >>=-eq-ok (encoded (encode_fields input.fields)) _ h2 in
        let written_as = encoded-ok (encode_fields input.fields) text in
        (
          row,
          there,
          content,
          written_as,
          edit_body-IsEdited range_lists actor e row.config_id item input content w distinct room
              (read_back content written_as)
              (commits
                (edit_body decode_fields decode_values decode_type fault now range_keys require
                  transact same_key actor e row.config_id item input content)
                w _ h3),
        )
