-- ===== src/Tests/Drafts.antt =====
-- A snapshot that is selected, and one that is deleted.
use mathlib.Core.List.Memᴰ
use kirby.Base.{ℕ, Bool, true, false, [], ◌∷◌, some, Result, ok, err, ◌≡◌, refl, inl, inr}
use kirby.Store.{ConfigRow, Tables, find_row, in_config_scope}
use kirby.Publish.Data.{Failure, conflict}
use kirby.Publish.Scan.{IsKeyed}
use kirby.Snapshots.{SnapshotStatement, set_current}
use kirby.Snapshots.Current.{IsSelected, set_current-IsSelected}
use kirby.Snapshots.Remove.{remove}
use kirby.Snapshots.Removed.{IsRemoved, remove-IsRemoved}
use kirby.Tests.Publications.{first, second, tables, admin, log_of}

abbrev healthy : SnapshotStatement → Bool
healthy _ = false

abbrev selected_tables : Tables
selected_tables = record tables {
  snapshots = first ∷ record second { is_using = true; version = 2; updated_at = 100 } ∷ [];
}

selects : set_current healthy 100 9 7 12 3 tables ≡ ok selected_tables
unfolding set_current
selects = refl

set_current-IsSelected_example :
    (config : ConfigRow) × (find_row (in_config_scope tables 9 7) tables.configs ≡ some config)
    × IsSelected healthy 100 7 config.project_id 12 selected_tables
set_current-IsSelected_example = set_current-IsSelected healthy 100 9 7 12 3 tables selects

abbrev allowed : ℕ → ℕ → Result Failure (Unit {0})
allowed _ _ = ok tt

abbrev transact : (Tables → Result Failure Tables) → Tables → Result Failure Tables
transact body t = body t

abbrev left_tables : Tables
left_tables = record tables {
  snapshots = first ∷ record second { deleted = true; version = 2; updated_at = 100 } ∷ [];
  audits = log_of "snapshot.delete" 12 ∷ [];
}

removes : remove healthy 100 allowed transact admin 9 12 tables ≡ ok left_tables
unfolding remove
removes = refl

keeps_released :
    remove healthy 100 allowed transact admin 9 11 tables
    ≡ err (conflict "released snapshot cannot be deleted")
unfolding remove
keeps_released = refl

tables-IsKeyed : IsKeyed tables.snapshots
tables-IsKeyed = (
  λ r m. elim (Memᴰ.cases_cons m) [ inl e ↦ rw e refl | inr n ↦ absurd (Memᴰ.not-nil n) ],
  ((λ r m. absurd (Memᴰ.not-nil m)), tt),
)

remove-IsRemoved_example : IsRemoved healthy 100 12 tables left_tables
remove-IsRemoved_example =
    remove-IsRemoved healthy 100 allowed transact admin 9 12 tables (λ body before after h. h)
      tables-IsKeyed removes
