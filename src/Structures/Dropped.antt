-- ===== src/Structures/Dropped.antt =====
-- What the deletion of a structure removes, and what the next edit finds.
use kirby.Base.{
  ℕ, String, Bool, false, List, ◌∷◌, map, Option, some, pos, Result, ok, fail_if, >>=-eq-ok,
  ok-injective, ◌≡◌, sym, ap, subst, ◌∙◌,
}
use kirby.Keys.{contains}
use kirby.Schema.Types.{Structure, Field, FieldType, SelectOption, Schema}
use kirby.Schema.Build.{new_schema}
use kirby.Schema.Build.WellFormed.{IsWellFormed}
use kirby.Schema.Build.Accepts.{new_schema-IsWellFormed}
use kirby.Store.{AuditLog, update_rows}
use kirby.Publish.Data.{Failure, Actor, conflict}
use kirby.Structures.{ChildRow, ChildStatement, attempt, find_by_id, is_live_child, dropped, delete}
use kirby.Structures.Edit.{
  Workspace, Resources, others, find_structure, referenced_structure, lock, accepted, recorded,
  structure_audit, remove_body, remove_structure, checked_schema,
}
use kirby.Structures.Kept.{
  checked_schema-ok, fail_if-passed, find_structure-id, delete-ok, lock-others,
}

module _ (fault : ChildStatement → Bool) (now : ℕ) where
  module _ (decode_fields : String → Option (List (Option Field)))
      (decode_values : String → Option (List (Option SelectOption)))
      (decode_type : String → Option (Option FieldType)) where
    module _ (range_keys : List String → List String) (require : ℕ → ℕ → Result Failure (Unit {0}))
        (transact : (Workspace → Result Failure Workspace)
          → Workspace
          → Result Failure Workspace) where
      -- What the edits of the configuration lock before and after differs in the structure, which
      -- nothing referenced; what is left is a schema, and it is well formed.
      pub record IsDropped (e c item u : ℕ) (w w' : Workspace) : Type 0 where
        pub before : Resources
        pub held : lock decode_fields decode_values decode_type fault now e c w ≡ ok before
        pub gone : Structure
        pub found : find_structure before.structures (pos item) ≡ ok gone
        pub unreferenced :
            referenced_structure decode_fields decode_values decode_type before.config
              before.structures gone.key
              (pos item)
            ≡ ok false
        pub left :
            lock decode_fields decode_values decode_type fault now e c w'
            ≡ ok (record before { structures = others (pos item) before.structures })
        pub made : Schema
        pub accepted_by :
            new_schema range_keys
              (map some (others (pos item) before.structures))
              (map some before.enums)
            ≡ ok made
        pub well_formed : IsWellFormed made
        pub rows :
            w'.structures
            ≡ update_rows (is_live_child fault now item) (dropped fault now u) w.structures

      IsDropped-made :
          (range_lists : (ks : List String) (k : String)
            → contains (range_keys ks) k ≡ contains ks k)
          (e c item u : ℕ) (audits : List AuditLog) (w w' : Workspace) (before : Resources)
          (gone : Structure) (made : Schema)
          → lock decode_fields decode_values decode_type fault now e c w ≡ ok before
          → find_structure before.structures (pos item) ≡ ok gone
          → referenced_structure decode_fields decode_values decode_type before.config
              before.structures gone.key gone.id
            ≡ ok false
          → accepted decode_fields decode_values decode_type fault now range_keys require transact
              (others gone.id before.structures)
              before.enums
            ≡ ok made
          → record w {
            structures =
                update_rows (is_live_child fault now item) (dropped fault now u) w.structures;
            tables = record (w.tables) { audits = audits };
          }
            ≡ w'
          → IsDropped e c item u w w'
      unfolding accepted
      IsDropped-made range_lists e c item u audits w w' before gone made held found free h last =
          let same = find_structure-id before.structures (pos item) found in
          let by : new_schema range_keys (map some (others (pos item) before.structures))
                (map some before.enums)
              ≡ ok made =
            checked_schema-ok _ (
              subst
                (λ id.
                  checked_schema (
                    new_schema range_keys (map some (others id before.structures))
                      (map some before.enums))
                  ≡ ok made)
                same h) in
          record {
            before = before;
            held = held;
            gone = gone;
            found = found;
            unreferenced =
                subst
                  (λ id.
                    referenced_structure decode_fields decode_values decode_type before.config
                      before.structures gone.key id
                    ≡ ok false)
                  same free;
            left =
                subst
                  (λ x.
                    lock decode_fields decode_values decode_type fault now e c x
                    ≡ ok (record before { structures = others (pos item) before.structures }))
                  last
                  (lock-others fault now decode_fields decode_values decode_type e c item u audits w
                    held);
            made = made;
            accepted_by = by;
            well_formed = new_schema-IsWellFormed range_keys range_lists _ _ made by;
            rows = ap (λ (x : Workspace). x.structures) (sym last);
          }

      remove_body-IsDropped :
          (range_lists : (ks : List String) (k : String)
            → contains (range_keys ks) k ≡ contains ks k)
          (actor : Actor) (e c item : ℕ) (w : Workspace) {w' : Workspace}
          → remove_body decode_fields decode_values decode_type fault now range_keys require
              transact actor e c item w
            ≡ ok w'
          → IsDropped e c item actor.user_id w w'
      unfolding remove_body recorded
      remove_body-IsDropped range_lists actor e c item w {w'} h =
          let (before, held, h1) =
            >>=-eq-ok (lock decode_fields decode_values decode_type fault now e c w) _ h in
          let (gone, found, h2) = >>=-eq-ok (find_structure before.structures (pos item)) _ h1 in
          let (referenced, told, h3) =
            >>=-eq-ok
              (referenced_structure decode_fields decode_values decode_type before.config
                before.structures gone.key gone.id)
              _ h2 in
          let (_, free, h4) =
            >>=-eq-ok (fail_if referenced (conflict "referenced structure cannot be deleted")) _
              h3 in
          let (made, by, h5) =
            >>=-eq-ok
              (accepted decode_fields decode_values decode_type fault now range_keys require
                transact (others gone.id before.structures) before.enums)
              _ h4 in
          let (rows, deleted, h6) =
            >>=-eq-ok (delete fault now w.tables e item actor.user_id w.structures) _ h5 in
          let (_, _, h7) = >>=-eq-ok (attempt fault now ChildStatement.insert_log) _ h6 in
          let audits = structure_audit actor e "structure.delete" item ∷ w.tables.audits in
          IsDropped-made range_lists e c item actor.user_id audits w w' before gone made held found
            (told ∙ ap ok (fail_if-passed referenced _ free)) by
            (ap (λ r. record w { structures = r; tables = record (w.tables) { audits = audits } })
                (delete-ok fault now w.tables e item actor.user_id w.structures deleted)
              ∙ ok-injective h7)

      -- A successful Delete of a structure removes a definition that neither the type of the
      -- configuration nor another structure references: with the database as it answered, the next
      -- edit locks the same configuration and enums, and the same structures less that one. NewSchema
      -- accepts them, and the schema is well formed. `range_keys` has the keys of its list, and TX
      -- commits what its function leaves when it returns no error.
      pub remove_structure-IsDropped :
          (actor : Actor) (e item : ℕ) (w : Workspace) {w' : Workspace}
          → ((ks : List String) (k : String) → contains (range_keys ks) k ≡ contains ks k)
          → ((body : Workspace → Result Failure Workspace) (x : Workspace) (y : Workspace)
              → transact body x ≡ ok y
              → body x ≡ ok y)
          → remove_structure decode_fields decode_values decode_type fault now range_keys require
              transact actor e item w
            ≡ ok w'
          → (row : ChildRow) × (find_by_id fault now w.tables e item w.structures ≡ ok row)
            × IsDropped e row.config_id item actor.user_id w w'
      unfolding remove_structure
      remove_structure-IsDropped actor e item w range_lists commits h =
          let (_, _, h1) = >>=-eq-ok (require actor.user_id e) _ h in
          let (row, there, h2) =
            >>=-eq-ok (find_by_id fault now w.tables e item w.structures) _ h1 in
          (
            row,
            there,
            remove_body-IsDropped range_lists actor e row.config_id item w (
                commits
                  (remove_body decode_fields decode_values decode_type fault now range_keys require
                    transact actor e row.config_id item)
                  w _ h2),
          )
