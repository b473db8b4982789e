-- ===== src/Structures/Kept.antt =====
-- The live definitions after the deletion of a structure, as they are locked and converted.
use kirby.Base.{
  ℕ, String, Bool, false, not, ◌&&◌, ◌==◌, List, [], ◌∷◌, Option, none, some, ℤ, pos, eqz, eqz_iff,
  Result, ok, err, fail_if, >>=-eq-ok, ok-injective, ◌>>=◌, ◌≡◌, refl, sym, ap, ◌∙◌, arith,
  Bool-cases, inl, inr,
}
use kirby.Schema.Types.{Structure, Field, FieldType, SelectOption, Schema, Checked}
use kirby.Store.{
  AuditLog, Tables, where_rows, update_rows, affected_rows, find_row, in_config_scope, covers,
}
use kirby.Publish.Data.{Failure, unchanged, missing}
use kirby.Structures.{
  ChildRow, ChildStatement, attempt, in_child_scope, find_by_id, list_for_config, is_live_child,
  dropped, delete,
}
use kirby.Structures.Convert.{
  internal, valid_meta, structure_to_proto, structures_to_proto, enums_to_proto,
}
use kirby.Structures.Edit.{Workspace, Resources, others, find_structure, lock, checked_schema}

pub >>=-ok :
    {A B : Type 0} (first : Result Failure A) (next : A → Result Failure B) {a : A} {b : B}
    → first ≡ ok a
    → next a ≡ ok b
    → (first >>= next) ≡ ok b
>>=-ok first next e h = rw e h

pub checked_schema-ok : (r : Checked Schema) {s : Schema} → checked_schema r ≡ ok s → r ≡ ok s
checked_schema-ok (ok s) h = ap ok (ok-injective h)
checked_schema-ok (err e) h = cc

pub fail_if-passed : (b : Bool) (e : Failure) {u : Unit {0}} → fail_if b e ≡ ok u → b ≡ false
fail_if-passed b e h = ground arith

abbrev is_other : ℕ → ChildRow → Bool
is_other item_id r = not (r.id == item_id)

pub find_structure-id :
    (items : List Structure) (id : ℤ) {s : Structure} → find_structure items id ≡ ok s → s.id ≡ id
unfolding find_structure
find_structure-id [] id h = cc
find_structure-id (q ∷ items) id {s} h = elim (Bool-cases (eqz q.id id)) [
  | inl yes_it_is ↦
      let e : q ≡ s = ok-injective (rw (yes_it_is, find_structure) at h) in
      let (there, _) = eqz_iff q.id id in ap (λ (x : Structure). x.id) (sym e) ∙ there yes_it_is
  | inr not_it ↦ find_structure-id items id (rw (not_it, find_structure) at h)
]

module _ (fault : ChildStatement → Bool) (now : ℕ) where
  -- The live rows of a configuration, as ListForConfig reads them.
  abbrev pub live_rows : Tables → ℕ → ℕ → List ChildRow → List ChildRow
  live_rows t e c rows =
      where_rows (λ r. not r.deleted)
        (where_rows (λ r. in_child_scope t e r && r.config_id == c) rows)

  in_child_scope-dropped :
      (t : Tables) (e u : ℕ) (r : ChildRow)
      → in_child_scope t e (dropped fault now u r) ≡ in_child_scope t e r
  unfolding in_child_scope dropped
  in_child_scope-dropped t e u r = refl

  live_rows-dropped :
      (t : Tables) (e c item u : ℕ) (rows : List ChildRow)
      → live_rows t e c (update_rows (is_live_child fault now item) (dropped fault now u) rows)
        ≡ where_rows (is_other item) (live_rows t e c rows)
  unfolding where_rows update_rows dropped in_child_scope
  live_rows-dropped t e c item u [] = refl
  live_rows-dropped t e c item u (r ∷ rows) =
      let rest = live_rows-dropped t e c item u rows in
      elim (Bool-cases (in_child_scope t e r && r.config_id == c)) [
        | inr out ↦ elim (Bool-cases (is_live_child fault now item r)) [
          | inl live ↦ rw (live, out) rest
          | inr dead ↦ rw (dead, out) rest
        ]
        | inl within ↦ elim (Bool-cases r.deleted) [
          | inl gone ↦
              let dead : is_live_child fault now item r ≡ false = ground arith in
              rw (dead, within, gone) rest
          | inr alive ↦ elim (Bool-cases (r.id == item)) [
            | inl same ↦ rw (same, alive, within, same) rest
            | inr other ↦ simp (other, alive, within) (ap (λ z. r ∷ z) rest)
          ]
        ]
      ]

  pub structure_to_proto-id :
      (decode_fields : String → Option (List (Option Field)))
      (decode_values : String → Option (List (Option SelectOption))) (r : ChildRow) {s : Structure}
      → structure_to_proto decode_fields decode_values r ≡ ok s
      → s.id ≡ pos r.id
  unfolding structure_to_proto
  structure_to_proto-id df dv r h =
      let (_, _, h1) = >>=-eq-ok (valid_meta r.id r.version) _ h in
      let (_, _, h2) = >>=-eq-ok (internal (df r.content)) _ h1 in
      ap (λ (x : Structure). x.id) (sym (ok-injective h2))

  structures_to_proto-others :
      (decode_fields : String → Option (List (Option Field)))
      (decode_values : String → Option (List (Option SelectOption))) (item : ℕ)
      (rows : List ChildRow) {s : List Structure}
      → structures_to_proto decode_fields decode_values rows ≡ ok s
      → structures_to_proto decode_fields decode_values (where_rows (is_other item) rows)
        ≡ ok (others (pos item) s)
  unfolding structures_to_proto where_rows others
  structures_to_proto-others df dv item [] h = rw (← ok-injective h) refl
  structures_to_proto-others df dv item (r ∷ rows) {s} h =
      let (q, eq, h1) = >>=-eq-ok (structure_to_proto df dv r) _ h in
      let (qs, eqs, h2) = >>=-eq-ok (structures_to_proto df dv rows) _ h1 in
      let rest = structures_to_proto-others df dv item rows eqs in
      let e : q ∷ qs ≡ s = ok-injective h2 in
      let id : q.id ≡ pos r.id = structure_to_proto-id df dv r eq in
      elim (Bool-cases (r.id == item)) [
        | inl same ↦ rw (← e, same, id, same) rest
        | inr other ↦ rw (← e, other, id, other, eq, rest) refl
      ]

  pub delete-ok :
      (t : Tables) (e item u : ℕ) (rows : List ChildRow) {rows' : List ChildRow}
      → delete fault now t e item u rows ≡ ok rows'
      → update_rows (is_live_child fault now item) (dropped fault now u) rows ≡ rows'
  unfolding delete
  delete-ok t e item u rows h =
      let (_, _, h1) = >>=-eq-ok (find_by_id fault now t e item rows) _ h in
      let (_, _, h2) = >>=-eq-ok (attempt fault now ChildStatement.delete_row) _ h1 in
      let (_, _, h3) =
        >>=-eq-ok
          (fail_if (affected_rows (is_live_child fault now item) rows == 0) (unchanged "structure"))
          _ h2 in
      ok-injective h3

  list_for_config-dropped :
      (t : Tables) (e c item u : ℕ) (rows : List ChildRow) {found : List ChildRow}
      → list_for_config fault now t e c rows ≡ ok found
      → list_for_config fault now t e c
          (update_rows (is_live_child fault now item) (dropped fault now u) rows)
        ≡ ok (where_rows (is_other item) found)
  unfolding list_for_config
  list_for_config-dropped t e c item u rows h =
      let (_, passed, h1) = >>=-eq-ok (attempt fault now ChildStatement.lock_children) _ h in
      rw (passed, live_rows-dropped t e c item u rows, ok-injective h1) refl

  module _ (decode_fields : String → Option (List (Option Field)))
      (decode_values : String → Option (List (Option SelectOption)))
      (decode_type : String → Option (Option FieldType)) where
    -- Rows that convert to other structures change what is locked by these alone.
    pub lock-changed :
        (e c : ℕ) (audits : List AuditLog) (left : List ChildRow) (w : Workspace)
        (s' : List Structure) {r : Resources}
        → lock decode_fields decode_values decode_type fault now e c w ≡ ok r
        → ((found : List ChildRow)
            → list_for_config fault now w.tables e c w.structures ≡ ok found
            → structures_to_proto decode_fields decode_values found ≡ ok r.structures
            → (found' : List ChildRow) × (list_for_config fault now w.tables e c left ≡ ok found')
              × (structures_to_proto decode_fields decode_values found' ≡ ok s'))
        → lock decode_fields decode_values decode_type fault now e c
            (record w { structures = left; tables = record (w.tables) { audits = audits } })
          ≡ ok (record r { structures = s' })
    unfolding lock list_for_config in_child_scope in_config_scope covers find_row
    lock-changed e c audits left w s' {r} h change =
        let (_, attempted, h1) = >>=-eq-ok (attempt fault now ChildStatement.lock_parent) _ h in
        let (config, configured, h2) =
          >>=-eq-ok
            (elim (find_row (in_config_scope w.tables e c) w.tables.configs) [
              | none ↦ err (missing "config")
              | some x ↦ ok x
            ])
            _ h1 in
        let (rows, listed, h3) =
          >>=-eq-ok (list_for_config fault now w.tables e c w.structures) _ h2 in
        let (enum_rows, listed_enums, h4) =
          >>=-eq-ok (list_for_config fault now w.tables e c w.enums) _ h3 in
        let (s, read, h5) = >>=-eq-ok (structures_to_proto decode_fields decode_values rows) _ h4 in
        let (enums, read_enums, h6) =
          >>=-eq-ok (enums_to_proto decode_fields decode_values enum_rows) _ h5 in
        let (_, listed', read') =
          change rows listed (read ∙ ap (λ (x : Resources). ok x.structures) (ok-injective h6)) in
        >>=-ok _ _ attempted (
          >>=-ok _ _ configured (
            >>=-ok _ _ listed' (
              >>=-ok _ _ listed_enums (
                >>=-ok _ _ read' (
                  >>=-ok _ _ read_enums (
                    ap (λ (x : Resources). ok (record x { structures = s' }))
                      (ok-injective h6)))))))

    pub lock-others :
        (e c item u : ℕ) (audits : List AuditLog) (w : Workspace) {r : Resources}
        → lock decode_fields decode_values decode_type fault now e c w ≡ ok r
        → lock decode_fields decode_values decode_type fault now e c (record w {
          structures =
              update_rows (is_live_child fault now item) (dropped fault now u) w.structures;
          tables = record (w.tables) { audits = audits };
        })
          ≡ ok (record r { structures = others (pos item) r.structures })
    lock-others e c item u audits w {r} h =
        lock-changed e c audits _ w (others (pos item) r.structures) h (λ found listed read. (
          where_rows (is_other item) found,
          list_for_config-dropped w.tables e c item u w.structures listed,
          structures_to_proto-others decode_fields decode_values item found read,
        ))
