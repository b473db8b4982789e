-- ===== src/Snapshots/Removed.antt =====
-- What Delete removes, and what it never does.
use mathlib.Core.List.{Memᴰ}
use mathlib.Core.List.Memᴰ
use kirby.Base.{
  ℕ, Bool, true, false, not, ◌&&◌, ◌||◌, ◌==◌, List, [], ◌∷◌, Result, ok, fail_if, >>=-eq-ok,
  ok-injective, ◌≡◌, ◌↔◌, refl, sym, ap, ◌∙◌, arith, Bool-cases, inl, inr, some,
}
use kirby.Store.{
  Status, same_status, Snapshot, Tables, find_row, update_rows, affected_rows, in_snapshot_scope,
}
use kirby.Store.Rows.{find_row_lem, Memᴰ-update_rows}
use kirby.Store.Exists.{affected_rows-find}
use kirby.Publish.Data.{Failure, Actor, missing, unchanged, conflict}
use kirby.Publish.Scan.{IsKeyed, IsKeyed-unique}
use kirby.Snapshots.{
  SnapshotStatement, attempt, find_by_id, lock_by_id, find_scoped, find_scoped_config, delete,
  deletable, deleted_by,
}
use kirby.Snapshots.Remove.{remove_body, remove, snapshot_audit}

-- A snapshot that must not disappear.
abbrev pub is_kept : Snapshot → Bool
is_kept s = s.is_using || same_status s.status Status.released

module _ (fault : SnapshotStatement → Bool) (now : ℕ) where
  -- A live snapshot with the ID, neither in use nor released, is deleted, and nothing else changes.
  pub record IsRemoved (snapshot_id : ℕ) (t t' : Tables) : Type 0 where
    pub victim : Snapshot
    pub held : Memᴰ victim t.snapshots
    pub named : (victim.id == snapshot_id) ≡ true
    pub live : victim.deleted ≡ false
    pub free : is_kept victim ≡ false
    pub gone :
        (r : Snapshot) → Memᴰ r t'.snapshots → (r.id == snapshot_id) ≡ true → r.deleted ≡ true
    pub others :
        (r : Snapshot) → (r.id == snapshot_id) ≡ false → Memᴰ r t.snapshots ↔ Memᴰ r t'.snapshots
    pub kept : (r : Snapshot) → Memᴰ r t.snapshots → is_kept r ≡ true → Memᴰ r t'.snapshots
    pub configs : t'.configs ≡ t.configs

  update_rows-Memᴰ :
      (p : Snapshot → Bool) (f : Snapshot → Snapshot) (rows : List Snapshot) (r : Snapshot)
      → Memᴰ r rows
      → p r ≡ false
      → Memᴰ r (update_rows p f rows)
  unfolding update_rows
  update_rows-Memᴰ p f [] r m h = absurd (Memᴰ.not-nil m)
  update_rows-Memᴰ p f (q ∷ rows) r (Memᴰ.head e) h = rw (← e, h) (Memᴰ.head refl)
  update_rows-Memᴰ p f (q ∷ rows) r (Memᴰ.tail m) h = Memᴰ.tail (update_rows-Memᴰ p f rows r m h)

  -- The rows that Delete of the repository leaves, and the row that it selects.
  delete-ok :
      (e s u : ℕ) (t : Tables) {t' : Tables}
      → delete fault now e s u t ≡ ok t'
      → (record t {
        snapshots = update_rows (deletable fault now s) (deleted_by fault now u) t.snapshots;
      }
          ≡ t')
        × (victim : Snapshot) × Memᴰ victim t.snapshots
        × (deletable fault now s victim ≡ true)
  unfolding delete
  delete-ok e s u t h =
      let none_there = affected_rows (deletable fault now s) t.snapshots == 0 in
      let (_, _, h1) = >>=-eq-ok (find_by_id fault now e s t) _ h in
      let (_, _, h2) = >>=-eq-ok (attempt fault now SnapshotStatement.delete_row) _ h1 in
      let (_, some_there, h3) = >>=-eq-ok (fail_if none_there (unchanged "snapshot")) _ h2 in
      let (victim, found) = affected_rows-find (deletable fault now s) t.snapshots (ground arith) in
      let (holds, m) = find_row_lem (deletable fault now s) t.snapshots found in
      (ok-injective h3, victim, m, holds)

  lock_by_id-ok :
      (e s : ℕ) (t : Tables) {r : Snapshot}
      → lock_by_id fault now e s t ≡ ok r
      → Memᴰ r t.snapshots × ((r.id == s) ≡ true)
  unfolding lock_by_id find_scoped
  lock_by_id-ok e s t {r} h =
      let found : find_row (λ x. in_snapshot_scope t e x && x.id == s) t.snapshots ≡ some r =
        ground arith in
      let (holds, m) = find_row_lem (λ x. in_snapshot_scope t e x && x.id == s) t.snapshots found in
      (m, ground arith)

  module _ (s u : ℕ) (rows : List Snapshot) (keyed : IsKeyed rows) (victim : Snapshot)
      (held : Memᴰ victim rows) (chosen : deletable fault now s victim ≡ true) where
    abbrev rest : List Snapshot
    rest = update_rows (deletable fault now s) (deleted_by fault now u) rows

    -- The row with the ID is the one selected.
    only : (r : Snapshot) → Memᴰ r rows → (r.id == s) ≡ true → r ≡ victim
    unfolding deletable
    only r m here = IsKeyed-unique rows keyed r victim m held (ground arith)

    rest-gone : (r : Snapshot) → Memᴰ r rest → (r.id == s) ≡ true → r.deleted ≡ true
    unfolding deleted_by
    rest-gone r m here =
        let (q, before, e) =
          Memᴰ-update_rows (deletable fault now s) (deleted_by fault now u) rows m in
        elim (Bool-cases (deletable fault now s q)) [
          | inl hit ↦
              let e' : r ≡ deleted_by fault now u q = rw hit at e in
              ap (λ (x : Snapshot). x.deleted) e'
          | inr miss ↦
              let e' : r ≡ q = rw miss at e in
              let same = only q before (rw e' at here) in absurd (ground (arith, rw same at miss))
        ]

    rest-others : (r : Snapshot) → (r.id == s) ≡ false → Memᴰ r rows ↔ Memᴰ r rest
    unfolding deletable deleted_by
    rest-others r other = (
      λ m.
          update_rows-Memᴰ (deletable fault now s) (deleted_by fault now u) rows r m (ground arith),
      λ m.
          let (q, before, e) =
            Memᴰ-update_rows (deletable fault now s) (deleted_by fault now u) rows m in
          elim (Bool-cases (deletable fault now s q)) [
            | inl hit ↦
                let e' : r ≡ deleted_by fault now u q = rw hit at e in
                let same : r.id ≡ q.id = ap (λ (x : Snapshot). x.id) e' in absurd (ground arith)
            | inr miss ↦ let e' : r ≡ q = rw miss at e in rw e' before
          ],
    )

    rest-kept :
        is_kept victim ≡ false → (r : Snapshot) → Memᴰ r rows → is_kept r ≡ true → Memᴰ r rest
    rest-kept free r m kept = elim (Bool-cases (r.id == s)) [
      | inl here ↦ let wrong = rw (only r m here) at kept in absurd (ground arith)
      | inr other ↦ (rest-others r other).0 m
    ]

    rest-IsRemoved :
        (t t' : Tables)
        → t.snapshots ≡ rows
        → t'.snapshots ≡ rest
        → t'.configs ≡ t.configs
        → is_kept victim ≡ false
        → IsRemoved s t t'
    unfolding deletable
    rest-IsRemoved t t' before after configs free = record {
      victim = victim;
      held = rw before held;
      named = ground arith;
      live = ground arith;
      free = free;
      gone = rw after rest-gone;
      others = rw (before, after) rest-others;
      kept = rw (before, after) (rest-kept free);
      configs = configs;
    }

  module _ (require : ℕ → ℕ → Result Failure (Unit {0}))
      (transact : (Tables → Result Failure Tables) → Tables → Result Failure Tables) where
    remove_body-IsRemoved :
        (actor : Actor) (e s : ℕ) (found : Snapshot) (t : Tables) {t' : Tables}
        → IsKeyed t.snapshots
        → remove_body fault now require transact actor e s found t ≡ ok t'
        → IsRemoved s t t'
    unfolding remove_body
    remove_body-IsRemoved actor e s found t {t'} keyed h =
        let (config, _, h1) =
          >>=-eq-ok (find_scoped_config fault now SnapshotStatement.lock_config e found.config_id t)
            _ h in
        let (locked, held, h2) = >>=-eq-ok (lock_by_id fault now e s t) _ h1 in
        let (_, _, h3) =
          >>=-eq-ok (fail_if (not (locked.config_id == found.config_id)) (missing "snapshot")) _
            h2 in
        let (_, idle, h4) =
          >>=-eq-ok (fail_if locked.is_using (conflict "current snapshot cannot be deleted")) _
            h3 in
        let (_, open_to, h5) =
          >>=-eq-ok
            (fail_if (same_status locked.status Status.released)
              (conflict "released snapshot cannot be deleted"))
            _ h4 in
        let (t1, deleted, h6) = >>=-eq-ok (delete fault now e s actor.user_id t) _ h5 in
        let (_, _, h7) = >>=-eq-ok (attempt fault now SnapshotStatement.audit_row) _ h6 in
        let audits =
          snapshot_audit fault now require transact actor e "snapshot.delete" s ∷ t1.audits in
        let last : record t1 { audits = audits } ≡ t' = ok-injective h7 in
        let (left, victim, there, chosen) = delete-ok e s actor.user_id t deleted in
        let (m, here) = lock_by_id-ok e s t held in
        let same : locked ≡ victim =
          only s actor.user_id t.snapshots keyed victim there chosen locked m here in
        rest-IsRemoved s actor.user_id t.snapshots keyed victim there chosen t t' refl
          (ap (λ (x : Tables). x.snapshots) (sym last)
            ∙ ap (λ (x : Tables). x.snapshots) (sym left))
          (ap (λ (x : Tables). x.configs) (sym last) ∙ ap (λ (x : Tables). x.configs) (sym left))
          (ap is_kept (sym same) ∙ ground arith)

    -- Delete of a snapshot, when it succeeds, leaves a snapshot deleted that was live and neither in
    -- use nor released, the one with the ID given; the rows with other IDs stay as they are and no
    -- other appears, every snapshot that is in use or released stays, and so do the configurations.
    -- The IDs are distinct, and TX commits what its function leaves when it returns no error.
    pub remove-IsRemoved :
        (actor : Actor) (e s : ℕ) (t : Tables) {t' : Tables}
        → ((body : Tables → Result Failure Tables) (before : Tables) (after : Tables)
            → transact body before ≡ ok after
            → body before ≡ ok after)
        → IsKeyed t.snapshots
        → remove fault now require transact actor e s t ≡ ok t'
        → IsRemoved s t t'
    unfolding remove
    remove-IsRemoved actor e s t commits keyed h =
        let (_, _, h1) = >>=-eq-ok (require actor.user_id e) _ h in
        let (found, _, h2) = >>=-eq-ok (find_by_id fault now e s t) _ h1 in
        remove_body-IsRemoved actor e s found t keyed
          (commits (remove_body fault now require transact actor e s found) t _ h2)
