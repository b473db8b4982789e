-- ===== src/Structures/Changed.antt =====
-- The live rows after the update of a structure, and what they are converted to.
use mathlib.Core.List.{Memᴰ}
use mathlib.Core.List.Memᴰ
use kirby.Base.{
  ℕ, String, Bool, true, false, not, ◌&&◌, ◌==◌, List, [], ◌∷◌, Option, ℤ, pos, eqz, ok, >>=-eq-ok,
  ok-injective, ◌≡◌, refl, sym, ap, ◌∙◌, arith, Bool-cases, inl, inr,
}
use kirby.Schema.Types.{Structure, Field, SelectOption}
use kirby.Store.{Tables, where_rows, update_rows}
use kirby.Store.Rows.{Memᴰ-where_rows}
use kirby.Structures.{ChildRow, ChildUpdate, ChildStatement, in_child_scope, at_version, changed}
use kirby.Structures.Convert.{internal, valid_meta, structure_to_proto, structures_to_proto}
use kirby.Structures.Edit.{find_structure, replaced}
use kirby.Structures.Kept.{live_rows, structure_to_proto-id}

module _ (decode_fields : String → Option (List (Option Field)))
    (decode_values : String → Option (List (Option SelectOption))) where
  -- A converted row has a positive ID, and the structure is in its configuration.
  pub structure_to_proto-row :
      (r : ChildRow) {s : Structure}
      → structure_to_proto decode_fields decode_values r ≡ ok s
      → ((r.id == 0) ≡ false) × (s.config_id ≡ pos r.config_id)
  unfolding structure_to_proto valid_meta
  structure_to_proto-row r h =
      let (_, valid, h1) = >>=-eq-ok (valid_meta r.id r.version) _ h in
      let (_, _, h2) = >>=-eq-ok (internal (decode_fields r.content)) _ h1 in
      (ground arith, ap (λ (x : Structure). x.config_id) (sym (ok-injective h2)))

  pub structures_to_proto-Memᴰ :
      (rows : List ChildRow) {s : List Structure} {r : ChildRow}
      → structures_to_proto decode_fields decode_values rows ≡ ok s
      → Memᴰ r rows
      → (q : Structure) × (structure_to_proto decode_fields decode_values r ≡ ok q)
  unfolding structures_to_proto
  structures_to_proto-Memᴰ [] h m = absurd (Memᴰ.not-nil m)
  structures_to_proto-Memᴰ (r ∷ rows) h m =
      let (q, eq, h1) = >>=-eq-ok (structure_to_proto decode_fields decode_values r) _ h in
      let (qs, eqs, h2) = >>=-eq-ok (structures_to_proto decode_fields decode_values rows) _ h1 in
      elim (Memᴰ.cases_cons m) [
        | inl e ↦ (q, rw e eq)
        | inr later ↦ structures_to_proto-Memᴰ rows eqs later
      ]

  pub find_structure-row :
      (rows : List ChildRow) (id : ℤ) {s : List Structure} {q : Structure}
      → structures_to_proto decode_fields decode_values rows ≡ ok s
      → find_structure s id ≡ ok q
      → (r : ChildRow) × Memᴰ r rows × (structure_to_proto decode_fields decode_values r ≡ ok q)
  unfolding structures_to_proto find_structure
  find_structure-row [] id h found = let e = rw (← ok-injective h) at found in absurd (cc e)
  find_structure-row (r ∷ rows) id {s} {q} h found =
      let (x, ex, h1) = >>=-eq-ok (structure_to_proto decode_fields decode_values r) _ h in
      let (xs, exs, h2) = >>=-eq-ok (structures_to_proto decode_fields decode_values rows) _ h1 in
      let found' : find_structure (x ∷ xs) id ≡ ok q =
        ap (λ l. find_structure l id) (ok-injective h2) ∙ found in
      elim (Bool-cases (eqz x.id id)) [
        | inl here ↦
            let e : x ≡ q = ok-injective (rw (here, find_structure) at found') in
            (r, Memᴰ.head refl, ex ∙ ap ok e)
        | inr not_it ↦
            let (row, m, converts) =
              find_structure-row rows id exs (rw (not_it, find_structure) at found') in
            (row, Memᴰ.tail m, converts)
      ]

module _ (fault : ChildStatement → Bool) (now : ℕ) where
  abbrev pub is_named : ℕ → ChildRow → Bool
  is_named item r = r.id == item

  pub live_rows-changed :
      (t : Tables) (e c item : ℕ) (u : ChildUpdate) (rows : List ChildRow)
      → ((r : ChildRow)
          → Memᴰ r rows
          → (r.id == item) ≡ true
          → at_version fault now item u.version r ≡ true)
      → live_rows fault now t e c
          (update_rows (at_version fault now item u.version) (changed fault now u) rows)
        ≡ update_rows (is_named item) (changed fault now u) (live_rows fault now t e c rows)
  unfolding where_rows update_rows changed in_child_scope
  live_rows-changed t e c item u [] only = refl
  live_rows-changed t e c item u (r ∷ rows) only =
      let rest = live_rows-changed t e c item u rows (λ q m. only q (Memᴰ.tail m)) in
      let mine = only r (Memᴰ.head refl) in
      elim (Bool-cases (r.id == item)) [
        | inl same ↦
            let hit = mine same in
            let alive : r.deleted ≡ false = ground arith in
            let current : eqz r.version u.version ≡ true = ground arith in
            elim (Bool-cases (in_child_scope t e r && r.config_id == c)) [
              | inl within ↦
                  simp (current, within, alive, same)
                    (ap (λ z. record (changed fault now u r) { deleted = false } ∷ z) rest)
              | inr out ↦ rw (hit, out) rest
            ]
        | inr other ↦
            let miss : at_version fault now item u.version r ≡ false = ground arith in
            elim (Bool-cases (in_child_scope t e r && r.config_id == c)) [
              | inl within ↦ elim (Bool-cases r.deleted) [
                | inl gone ↦ rw (miss, within, gone) rest
                | inr alive ↦ simp (miss, within, alive, other) (ap (λ z. r ∷ z) rest)
              ]
              | inr out ↦ rw (miss, out) rest
            ]
      ]

  pub Memᴰ-live_rows :
      (t : Tables) (e c : ℕ) (rows : List ChildRow) (r : ChildRow)
      → Memᴰ r (live_rows fault now t e c rows)
      → Memᴰ r rows × (r.config_id ≡ c)
  Memᴰ-live_rows t e c rows r m =
      let (m1, _) = Memᴰ-where_rows (λ x. not x.deleted) _ m in
      let (m2, scoped) = Memᴰ-where_rows (λ x. in_child_scope t e x && x.config_id == c) rows m1 in
      (m2, ground arith)

  pub structures_to_proto-replaced :
      (decode_fields : String → Option (List (Option Field)))
      (decode_values : String → Option (List (Option SelectOption))) (item : ℕ) (u : ChildUpdate)
      (candidate : Structure) (rows : List ChildRow) {s : List Structure}
      → candidate.id ≡ pos item
      → ((r : ChildRow)
          → Memᴰ r rows
          → (r.id == item) ≡ true
          → structure_to_proto decode_fields decode_values (changed fault now u r) ≡ ok candidate)
      → structures_to_proto decode_fields decode_values rows ≡ ok s
      → structures_to_proto decode_fields decode_values
          (update_rows (is_named item) (changed fault now u) rows)
        ≡ ok (replaced candidate s)
  unfolding structures_to_proto update_rows replaced
  structures_to_proto-replaced df dv item u x [] named good h = rw (← ok-injective h) refl
  structures_to_proto-replaced df dv item u x (r ∷ rows) {s} named good h =
      let (q, eq, h1) = >>=-eq-ok (structure_to_proto df dv r) _ h in
      let (qs, eqs, h2) = >>=-eq-ok (structures_to_proto df dv rows) _ h1 in
      let rest =
        structures_to_proto-replaced df dv item u x rows named (λ y m. good y (Memᴰ.tail m)) eqs in
      let e : q ∷ qs ≡ s = ok-injective h2 in
      let id : q.id ≡ pos r.id = structure_to_proto-id fault now df dv r eq in
      elim (Bool-cases (r.id == item)) [
        | inl same ↦
            let good' = good r (Memᴰ.head refl) same in
            let matches : eqz q.id x.id ≡ true = rw (id, named) same in
            rw (← e, same, matches, good', rest) refl
        | inr other ↦
            let differs : eqz q.id x.id ≡ false = rw (id, named) other in
            rw (← e, other, differs, eq, rest) refl
      ]
