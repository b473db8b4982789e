-- ===== src/Snapshots/Current.antt =====
-- What SetCurrent leaves behind.
use mathlib.Core.List.{Memᴰ}
use kirby.Base.{
  ℕ, Bool, true, false, not, ◌==◌, List, [], ◌∷◌, ok, fail_if, >>=-eq-ok, ok-injective,
  if◌then◌else◌, ◌≡◌, ◌≢◌, refl, sym, ap, ◌∙◌, arith, Bool-cases, inl, inr, some,
}
use kirby.Store.{
  ConfigRow, Snapshot, Tables, find_row, update_rows, affected_rows, exists_row, in_config_scope,
}
use kirby.Store.Rows.{Memᴰ-update_rows}
use kirby.Publish.Data.{missing, unchanged}
use kirby.Snapshots.{
  SnapshotStatement, attempt, find_scoped_config, belongs, is_other_current, is_member, marked,
  set_current,
}

module _ (fault : SnapshotStatement → Bool) (now : ℕ) where
  -- Of the live snapshots of the configuration exactly the one with the ID is in use.
  pub record IsSelected (config_id project_id snapshot_id : ℕ) (t : Tables) : Type 0 where
    pub only :
        (r : Snapshot)
        → Memᴰ r t.snapshots
        → belongs fault now config_id project_id r ≡ true
        → r.is_using ≡ (r.id == snapshot_id)
    pub present :
        (r : Snapshot) × Memᴰ r t.snapshots
        × (belongs fault now config_id project_id r ≡ true)
        × (r.id ≡ snapshot_id)
        × (r.is_using ≡ true)

  -- What the two updates do to a row.
  abbrev cleared : ℕ → ℕ → ℕ → ℕ → Snapshot → Snapshot
  cleared c p s u r = if is_other_current fault now c p s r then marked fault now false u r else r

  abbrev selected : ℕ → ℕ → ℕ → ℕ → Snapshot → Snapshot
  selected c p s u r = if is_member fault now c p s r then marked fault now true u r else r

  cleared_lem :
      (c p s u : ℕ) (r q : Snapshot)
      → q ≡ cleared c p s u r
      → belongs fault now c p q ≡ true
      → (q.id == s) ≡ false
      → q.is_using ≡ false
  unfolding marked
  cleared_lem c p s u r q e b other = elim (Bool-cases (is_other_current fault now c p s r)) [
    | inl hit ↦
        let same : q ≡ marked fault now false u r = e ∙ rw hit refl in
        ap (λ (x : Snapshot). x.is_using) same
    | inr kept ↦
        let same : q ≡ r = e ∙ rw kept refl in
        let b' : belongs fault now c p r ≡ true = rw (← same) b in
        let other' : (r.id == s) ≡ false = rw (← same) other in
        ap (λ (x : Snapshot). x.is_using) same ∙ ground arith
  ]

  selected_lem :
      (c p s u : ℕ) (q z : Snapshot)
      → (belongs fault now c p q ≡ true → (q.id == s) ≡ false → q.is_using ≡ false)
      → z ≡ selected c p s u q
      → belongs fault now c p z ≡ true
      → z.is_using ≡ (z.id == s)
  unfolding marked
  selected_lem c p s u q z before e b = elim (Bool-cases (is_member fault now c p s q)) [
    | inl hit ↦
        let same : z ≡ marked fault now true u q = e ∙ rw hit refl in
        let here : (q.id == s) ≡ true = ground arith in
        ap (λ (x : Snapshot). x.is_using) same
        ∙ (sym here ∙ sym (ap (λ (x : Snapshot). x.id == s) same))
    | inr missed ↦
        let same : z ≡ q = e ∙ rw missed refl in
        let b' : belongs fault now c p q ≡ true = rw same at b in
        let other : (q.id == s) ≡ false = ground arith in
        ap (λ (x : Snapshot). x.is_using) same
        ∙ (before b' other ∙ (sym other ∙ sym (ap (λ (x : Snapshot). x.id == s) same)))
  ]

  updates_only :
      (c p s u : ℕ) (rows : List Snapshot) (z : Snapshot)
      → Memᴰ z (
          update_rows
            (is_member fault now c p s)
            (marked fault now true u)
            (update_rows (is_other_current fault now c p s) (marked fault now false u) rows))
      → belongs fault now c p z ≡ true
      → z.is_using ≡ (z.id == s)
  updates_only c p s u rows z m b =
      let (q, n, e) = Memᴰ-update_rows (is_member fault now c p s) (marked fault now true u) _ m in
      let (r, _, e') =
        Memᴰ-update_rows (is_other_current fault now c p s) (marked fault now false u) rows n in
      selected_lem c p s u q z (cleared_lem c p s u r q e') e b

  updates_present :
      (c p s u : ℕ) (rows : List Snapshot)
      → affected_rows (is_member fault now c p s) rows ≢ 0
      → (z : Snapshot) × Memᴰ z
          (update_rows (is_member fault now c p s) (marked fault now true u) rows)
        × (belongs fault now c p z ≡ true)
        × (z.id ≡ s)
        × (z.is_using ≡ true)
  unfolding affected_rows update_rows marked
  updates_present c p s u [] some_row = absurd (some_row refl)
  updates_present c p s u (r ∷ rows) some_row = elim (Bool-cases (is_member fault now c p s r)) [
    | inl hit ↦
        (marked fault now true u r, rw hit (Memᴰ.head refl), ground arith, ground arith, refl)
    | inr missed ↦
        let (z, m, b, i, using) = updates_present c p s u rows (rw missed at some_row) in
        (z, Memᴰ.tail m, b, i, using)
  ]

  -- After SetCurrent exactly the chosen snapshot of the configuration is in use.
  pub set_current-IsSelected :
      (environment_id config_id snapshot_id updated_by : ℕ) (t : Tables) {t' : Tables}
      → set_current fault now environment_id config_id snapshot_id updated_by t ≡ ok t'
      → (config : ConfigRow) × (find_row (in_config_scope t environment_id config_id) t.configs
          ≡ some config)
        × IsSelected config_id config.project_id snapshot_id t'
  unfolding set_current find_scoped_config
  set_current-IsSelected e c s u t {t'} h =
      let (config, found, h1) =
        >>=-eq-ok (find_scoped_config fault now SnapshotStatement.find_config e c t) _ h in
      let (_, _, h2) = >>=-eq-ok (attempt fault now SnapshotStatement.find_member) _ h1 in
      let (_, _, h3) =
        >>=-eq-ok
          (fail_if (not (exists_row (is_member fault now c config.project_id s) t.snapshots))
            (missing "snapshot"))
          _ h2 in
      let (_, _, h4) = >>=-eq-ok (attempt fault now SnapshotStatement.clear_current) _ h3 in
      let (_, _, h5) = >>=-eq-ok (attempt fault now SnapshotStatement.mark_current) _ h4 in
      let rows =
        update_rows (is_other_current fault now c config.project_id s) (marked fault now false u)
          t.snapshots in
      let (_, hit, h6) =
        >>=-eq-ok
          (fail_if (affected_rows (is_member fault now c config.project_id s) rows == 0)
            (unchanged "current snapshot"))
          _ h5 in
      let same : record t {
        snapshots =
            update_rows (is_member fault now c config.project_id s) (marked fault now true u) rows;
      }
          ≡ t' =
        ok-injective h6 in
      (
        config,
        found_config e c t found,
        rw (← same) (record {
          only = λ z m b. updates_only c config.project_id s u t.snapshots z m b;
          present = updates_present c config.project_id s u rows (λ none_hit. ground arith);
        }),
      )
    where
      found_config :
          (x y : ℕ) (tables : Tables) {row : ConfigRow}
          → find_scoped_config fault now SnapshotStatement.find_config x y tables ≡ ok row
          → find_row (in_config_scope tables x y) tables.configs ≡ some row
      found_config x y tables h = ground arith
