-- ===== src/Session/Replay.antt =====
-- What the revocation of a session leaves, and what follows the replay of a consumed token.
use mathlib.Core.List.{Memᴰ}
use kirby.Base.{
  ℕ, String, Bool, true, false, ◌&&◌, ◌==◌, List, some, ok, err, ◌≡◌, refl, sym, ap, ◌∙◌, subst,
  length, ◌⊎◌, inl, inr, arith, Bool-cases,
}
use kirby.Store.{find_row}
use kirby.Store.Rows.{Memᴰ-update_rows}
use kirby.Session.{
  Statement, SessionError, RefreshToken, Outcome, same_bytes, is_unset, in_session, revoke,
  revoke_session, lock_token_by_hash, revoke_found, revoke_session_by_token_hash,
  revoke_in_transaction, after_revocation, settle_rotation, rotate, rotate_refresh, replay,
  database,
}

-- No token of the session is live.
abbrev pub IsRevoked : ℕ → String → List RefreshToken → Type 0
IsRevoked user_id session_id rows =
    (r : RefreshToken)
    → Memᴰ r rows
    → in_session user_id session_id r ≡ true
    → is_unset r.revoked_at ≡ false

module _ (fault : Statement → Bool) where
  revoke_session-IsRevoked :
      (user_id : ℕ) (session_id : String) (now : ℕ) (rows : List RefreshToken)
      → ((revoke_session fault user_id session_id now rows).0 ≡ ok tt)
      → IsRevoked user_id session_id (revoke_session fault user_id session_id now rows).1
  unfolding revoke_session
  revoke_session-IsRevoked user_id session_id now rows h =
      elim (Bool-cases (fault Statement.revoke_live)) [
        | inl failed ↦ let wrong = rw (failed, revoke_session) at h in cc
        | inr done ↦ rw done (λ r m owned.
            let (q, old, e) =
              Memᴰ-update_rows (λ x. in_session user_id session_id x && is_unset x.revoked_at)
                (revoke now) rows m in
            elim (Bool-cases (in_session user_id session_id q && is_unset q.revoked_at)) [
              | inl hit ↦ let e' : r ≡ revoke now q = (let h = rw hit at e in h) in rw e' refl
              | inr passed ↦
                  let e' : r ≡ q = (let h = rw passed at e in h) in
                  let owned' : in_session user_id session_id q ≡ true = rw (← e') owned in
                  rw e' (ground (arith, passed, owned'))
            ])
      ]

  revoke_session_by_token_hash-IsRevoked :
      (hash : List ℕ) (now : ℕ) (rows : List RefreshToken) (c : RefreshToken)
      → (length hash == 32) ≡ true
      → find_row (λ r. same_bytes r.token_hash hash) rows ≡ some c
      → (revoke_session_by_token_hash fault hash now rows).0 ≡ ok tt
      → IsRevoked c.user_id c.session_id (revoke_session_by_token_hash fault hash now rows).1
  unfolding revoke_session_by_token_hash lock_token_by_hash revoke_found
  revoke_session_by_token_hash-IsRevoked hash now rows c sized found h =
      elim (Bool-cases (fault Statement.lock_token)) [
        | inl failed ↦ let wrong = rw (sized, failed) at h in cc
        | inr done ↦
            rw (sized, done, found)
              (revoke_session-IsRevoked c.user_id c.session_id now rows
                (rw (sized, done, found) at h))
      ]

-- What a transaction makes of the outcome of its body.
abbrev pub settle : {A : Type 0} → List RefreshToken → Outcome A → Outcome A
settle rows (ok a, left) = (ok a, left)
settle rows (err e, left) = (err e, rows)

module _ (fault : Statement → Bool)
    (transact : (A : Type 0) → (List RefreshToken → Outcome A) → List RefreshToken → Outcome A)
    -- A transaction does what its body did, or, where that or the database fails, nothing.
    (transact_settles : (A : Type 0) (body : List RefreshToken → Outcome A)
        (rows : List RefreshToken)
      → (transact A body rows ≡ (err database, rows))
        ⊎ (transact A body rows ≡ settle rows (body rows))) where
  settle_ok :
      (rows left : List RefreshToken) (o : Outcome Unit)
      → settle rows o ≡ (ok tt, left)
      → o ≡ (ok tt, left)
  settle_ok rows left (ok _, after) h = h
  settle_ok rows left (err e, after) h = let wrong = ap (λ (x : Outcome Unit). x.0) h in cc

  revoke_in_transaction-IsRevoked :
      (hash : List ℕ) (now : ℕ) (rows left : List RefreshToken) (c : RefreshToken)
      → (length hash == 32) ≡ true
      → find_row (λ r. same_bytes r.token_hash hash) rows ≡ some c
      → revoke_in_transaction fault transact hash now rows ≡ (ok tt, left)
      → IsRevoked c.user_id c.session_id left
  unfolding revoke_in_transaction
  revoke_in_transaction-IsRevoked hash now rows left c sized found h =
      elim (transact_settles Unit (revoke_session_by_token_hash fault hash now) rows) [
        | inl failed ↦ let wrong = ap (λ (x : Outcome Unit). x.0) (sym failed ∙ h) in cc
        | inr settled ↦
            let done =
              settle_ok rows left (revoke_session_by_token_hash fault hash now rows)
                (sym settled ∙ h) in
            subst (IsRevoked c.user_id c.session_id) (ap (λ (x : Outcome Unit). x.1) done) (
              revoke_session_by_token_hash-IsRevoked fault hash now rows c sized found
                (ap (λ (x : Outcome Unit). x.0) done))
      ]

  after_revocation_replay :
      (o : Outcome Unit) (left : List RefreshToken)
      → after_revocation fault transact o ≡ (err replay, left)
      → o ≡ (ok tt, left)
  unfolding after_revocation
  after_revocation_replay (ok _, rows) left h =
      ap (λ x. (ok tt, x)) (ap (λ (x : Outcome RefreshToken). x.1) h)
  after_revocation_replay (err e, rows) left h =
      let wrong = ap (λ (x : Outcome RefreshToken). x.0) h in cc

  settle_rotation_replay :
      (hash : List ℕ) (now : ℕ) (o : Outcome RefreshToken) (left : List RefreshToken)
      → settle_rotation fault transact hash now o ≡ (err replay, left)
      → (o.0 ≡ err replay) × (revoke_in_transaction fault transact hash now o.1 ≡ (ok tt, left))
  unfolding settle_rotation
  settle_rotation_replay hash now (err SessionError.replay, rows) left h =
      (refl, after_revocation_replay _ left h)
  settle_rotation_replay hash now (err SessionError.not_found, rows) left h =
      let wrong = ap (λ (x : Outcome RefreshToken). x.0) h in cc
  settle_rotation_replay hash now (err SessionError.expired, rows) left h =
      let wrong = ap (λ (x : Outcome RefreshToken). x.0) h in cc
  settle_rotation_replay hash now (err SessionError.bad_replacement, rows) left h =
      let wrong = ap (λ (x : Outcome RefreshToken). x.0) h in cc
  settle_rotation_replay hash now (err SessionError.changed, rows) left h =
      let wrong = ap (λ (x : Outcome RefreshToken). x.0) h in cc
  settle_rotation_replay hash now (err SessionError.database, rows) left h =
      let wrong = ap (λ (x : Outcome RefreshToken). x.0) h in cc
  settle_rotation_replay hash now (err (SessionError.unavailable e e2), rows) left h =
      let wrong = ap (λ (x : Outcome RefreshToken). x.0) h in cc
  settle_rotation_replay hash now (ok t, rows) left h =
      let wrong = ap (λ (x : Outcome RefreshToken). x.0) h in cc

  settle_rows :
      (rows : List RefreshToken) (o : Outcome RefreshToken)
      → (settle rows o).0 ≡ err replay
      → (settle rows o).1 ≡ rows
  settle_rows rows (ok t, left) h = cc
  settle_rows rows (err e, left) h = refl

  -- If a refresh ends in the replay error, then no token of the session that the presented token
  -- belongs to is live, although the rotation itself was rolled back. The hash has 32 bytes.
  pub rotate_refresh-IsRevoked :
      (new_id : ℕ) (hash : List ℕ) (next : RefreshToken) (now : ℕ) (rows left : List RefreshToken)
      (c : RefreshToken)
      → (length hash == 32) ≡ true
      → find_row (λ r. same_bytes r.token_hash hash) rows ≡ some c
      → rotate_refresh fault transact new_id hash next now rows ≡ (err replay, left)
      → IsRevoked c.user_id c.session_id left
  unfolding rotate_refresh
  rotate_refresh-IsRevoked new_id hash next now rows left c sized found h =
      let (refused, revoked) =
        settle_rotation_replay hash now
          (transact RefreshToken (rotate fault new_id hash next now) rows) left h in
      elim (transact_settles RefreshToken (rotate fault new_id hash next now) rows) [
        | inl failed ↦
            let wrong = sym (ap (λ (x : Outcome RefreshToken). x.0) failed) ∙ refused in cc
        | inr settled ↦
            let kept =
              ap (λ (x : Outcome RefreshToken). x.1) settled
              ∙ settle_rows rows (rotate fault new_id hash next now rows)
                  (sym (ap (λ (x : Outcome RefreshToken). x.0) settled) ∙ refused) in
            revoke_in_transaction-IsRevoked hash now rows left c sized found (
              subst (λ x. revoke_in_transaction fault transact hash now x ≡ (ok tt, left)) kept
                revoked)
      ]
