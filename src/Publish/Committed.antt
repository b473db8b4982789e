-- ===== src/Publish/Committed.antt =====
-- Publish and Unpublish as a whole: what a call that succeeds leaves in the tables.
use kirby.Base.{
  ℕ, String, Bool, List, [], ◌∷◌, Option, ok, err, ◌≡◌, refl, sym, ap, ◌∙◌, subst, >>=-eq-ok,
  ok-injective, Result, inl, inr, ◌⊎◌,
}
use kirby.Schema.Types.{Json}
use kirby.Store.{Snapshot, Tables}
use kirby.Publish.Data.{
  Statement, Failure, Actor, ConfigSnapshot, PublicationRequest, PublicationChange, CleanupKey,
}
use kirby.Publish.Writes.{persist_publication, change_result, cleanup_key}
use kirby.Publish.Scan.{IsKeyed}
use kirby.Publish.Written.{IsPrepared, prepare_publication-IsPrepared, persist_publication_lem}
use kirby.Publish.Updates.{publish_rows, unpublish_rows}
use kirby.Publish.{
  authorized_snapshot, prepare_publication, publication_body, returned, change_found,
  change_publication, publish, unpublish,
}
use kirby.Publish.Outcome.{IsReleased, IsCleared, written, IsReleased-after, IsCleared-after}

pair_lem : {A B : Type 0} {x y : A × B} → x ≡ y → (x.0 ≡ y.0) × (x.1 ≡ y.1)
pair_lem e = (ap (λ z. z.0) e, ap (λ z. z.1) e)

module _ (range_keys : List String → List String) (decode_json : String → Option Json)
    (decode_content : String → Option ConfigSnapshot) (fault : Statement → Bool) (now : ℕ)
    (require : ℕ → ℕ → Result Failure Unit)
    (transact : (Tables → Result Failure (PublicationChange × Tables))
      → Tables
      → Result Failure PublicationChange × Tables)
    -- A transaction fails and leaves the tables, or commits what its body returns.
    (transact_commits : (body : Tables → Result Failure (PublicationChange × Tables)) (t : Tables)
      → ((e : Failure) × (transact body t ≡ (err e, t)))
        ⊎ ((c : PublicationChange) × (t' : Tables) × (body t ≡ ok (c, t'))
            × (transact body t ≡ (ok c, t')))) where
  -- What a call that returns a snapshot has done.
  pub record IsCommitted (request : PublicationRequest) (t : Tables) (s : Snapshot) (t' : Tables)
      (ks : List CleanupKey) : Type 0 where
    pub config_id : ℕ
    pub change : PublicationChange
    pub prepared : IsPrepared request config_id t change
    pub persisted : persist_publication fault now change t ≡ ok t'
    pub answered : change_result change ≡ s
    pub obsolete : cleanup_key change ∷ [] ≡ ks

  IsCommitted-of :
      (request : PublicationRequest) (t : Tables) (config_id : ℕ) (c : PublicationChange)
      {t1 t' : Tables} {s : Snapshot} {ks : List CleanupKey}
      → IsPrepared request config_id t c × (persist_publication fault now c t ≡ ok t1)
      → ◌≡◌ {A = Result Failure Snapshot × (Tables × List CleanupKey)}
          (ok (change_result c), (t1, cleanup_key c ∷ []))
          (ok s, (t', ks))
      → IsCommitted request t s t' ks
  IsCommitted-of request t id c (prepared, persisted) e =
      let (answer, below) = pair_lem e in
      let (left, obsolete) = pair_lem below in
      record {
        config_id = id;
        change = c;
        prepared = prepared;
        persisted = persisted ∙ ap ok left;
        answered = ok-injective answer;
        obsolete = obsolete;
      }

  publication_body_lem :
      (request : PublicationRequest) (config_id : ℕ) (t : Tables) {c : PublicationChange}
      {t' : Tables}
      → publication_body range_keys decode_json decode_content fault now require transact request
          config_id t
        ≡ ok (c, t')
      → IsPrepared request config_id t c × (persist_publication fault now c t ≡ ok t')
  unfolding publication_body
  publication_body_lem request config_id t {c = c'} {t' = after'} done =
      let (c1, prepared, h1) =
        >>=-eq-ok
          (prepare_publication range_keys decode_json decode_content fault now require transact
            request config_id t)
          _ done in
      let (t2, persisted, h2) = >>=-eq-ok (persist_publication fault now c1 t) _ h1 in
      let (same, left) = pair_lem (ok-injective h2) in
      (
        subst (IsPrepared request config_id t) same (
            prepare_publication-IsPrepared range_keys decode_json decode_content fault now require
              transact request config_id t prepared),
        subst (λ x. persist_publication fault now x t ≡ ok after') same (persisted ∙ ap ok left),
      )

  change_found-IsCommitted :
      (request : PublicationRequest) (t : Tables) (found : Result Failure Snapshot) {s : Snapshot}
      {t' : Tables} {ks : List CleanupKey}
      → change_found range_keys decode_json decode_content fault now require transact request t
          found
        ≡ (ok s, (t', ks))
      → IsCommitted request t s t' ks
  unfolding change_found returned
  change_found-IsCommitted request t (err e) h = let (wrong, _) = pair_lem h in cc
  change_found-IsCommitted request t (ok found) h =
      elim (transact_commits
        (publication_body range_keys decode_json decode_content fault now require transact request
          found.config_id)
        t) [
          | inl (e, rolled_back) ↦
              let (wrong, _) = pair_lem (
                sym (
                  ap (returned range_keys decode_json decode_content fault now require transact)
                    rolled_back)
                ∙ h) in
              cc
          | inr (c, t1, done, committed) ↦
              IsCommitted-of request t found.config_id c
                (publication_body_lem request found.config_id t done)
                (sym (
                    ap (returned range_keys decode_json decode_content fault now require transact)
                      committed)
                  ∙ h)
        ]

  pub change_publication-IsCommitted :
      (request : PublicationRequest) (t : Tables) {s : Snapshot} {t' : Tables}
      {ks : List CleanupKey}
      → change_publication range_keys decode_json decode_content fault now require transact request
          t
        ≡ (ok s, (t', ks))
      → IsCommitted request t s t' ks
  unfolding change_publication
  change_publication-IsCommitted request t h =
      change_found-IsCommitted request t
        (authorized_snapshot range_keys decode_json decode_content fault now require transact
          request t)
        h

  -- Publish, when it returns a snapshot, has stored it under the requested ID, and the snapshots of
  -- its configuration that are released and in scope are exactly those of that ID. The IDs of the
  -- snapshots are distinct beforehand.
  pub publish-releases :
      (actor : Actor) (environment_id snapshot_id expected_version : ℕ) (t : Tables) {s : Snapshot}
      {t' : Tables} {ks : List CleanupKey}
      → IsKeyed t.snapshots
      → publish range_keys decode_json decode_content fault now require transact actor
          environment_id snapshot_id expected_version t
        ≡ (ok s, (t', ks))
      → IsReleased environment_id snapshot_id s t'
  unfolding publish
  publish-releases actor environment_id snapshot_id expected_version t {t' = left} keyed h =
      let k = change_publication-IsCommitted _ t h in
      let publishing = ap (λ (x : PublicationRequest). x.status) k.prepared.asked in
      let (t1, applied, e) = persist_publication_lem fault now k.change t k.persisted in
      let rows = publish_rows fault k.change t (rw publishing refl) applied in
      subst (λ x. IsReleased environment_id snapshot_id x left) k.answered
        (subst (IsReleased environment_id snapshot_id (change_result k.change))
          (ap (written now k.change) rows ∙ e)
          (IsReleased-after now _ k.config_id t k.change k.prepared publishing keyed))

  -- Unpublish, when it returns a snapshot, has left its configuration without a released snapshot in
  -- scope.
  pub unpublish-clears :
      (actor : Actor) (environment_id snapshot_id expected_version : ℕ) (t : Tables) {s : Snapshot}
      {t' : Tables} {ks : List CleanupKey}
      → unpublish range_keys decode_json decode_content fault now require transact actor
          environment_id snapshot_id expected_version t
        ≡ (ok s, (t', ks))
      → IsCleared environment_id s t'
  unfolding unpublish
  unpublish-clears actor environment_id snapshot_id expected_version t {t' = left} h =
      let k = change_publication-IsCommitted _ t h in
      let clearing = ap (λ (x : PublicationRequest). x.status) k.prepared.asked in
      let (t1, applied, e) = persist_publication_lem fault now k.change t k.persisted in
      let rows = unpublish_rows fault k.change t (rw clearing refl) applied in
      subst (λ x. IsCleared environment_id x left) k.answered
        (subst (IsCleared environment_id (change_result k.change))
          (ap (written now k.change) rows ∙ e)
          (IsCleared-after now _ k.config_id t k.change k.prepared clearing))
