-- ===== src/Session.antt =====
-- server/internal/repository/refresh_token.go and the refresh of a session in
-- server/internal/logic/auth.go, over the table of refresh tokens.
-- Parameters: `fault` says which statement the database fails, `new_id` is the ID that it gives to
-- the inserted row, `transact` is the engine's TX.
use kirby.Base.{
  ℕ, String, str_eq, Bool, true, false, not, ◌&&◌, ◌||◌, ◌==◌, ltb, List, [], ◌∷◌, ◌++◌, Option,
  none, some, Result, ok, err, if◌then◌else◌, length,
}
use kirby.Store.{find_row, update_rows, affected_rows}
pub mod Replay
pub mod Rotation

pub data Statement : Type 0 where
  lock_token revoke_live insert_token mark_consumed : Statement

pub data SessionError : Type 0 where
  not_found expired replay bad_replacement changed database : SessionError
  -- ErrAuthUnavailable over the two errors that it joins.
  unavailable : SessionError → SessionError → SessionError

pub record RefreshToken : Type 0 where
  pub id : ℕ
  pub user_id : ℕ
  pub session_id : String
  pub token_hash : List ℕ
  pub expires_at : ℕ
  pub last_used_at : Option ℕ
  pub revoked_at : Option ℕ
  pub replaced_by_id : Option ℕ
  pub updated_at : ℕ

-- A statement or a method leaves its rows whether it fails or not.
abbrev pub Outcome : Type 0 → Type 0
Outcome A = Result SessionError A × List RefreshToken

abbrev pub same_bytes : List ℕ → List ℕ → Bool
same_bytes [] [] = true
same_bytes (a ∷ xs) (b ∷ ys) = a == b && same_bytes xs ys
same_bytes _ _ = false

abbrev pub is_unset : Option ℕ → Bool
is_unset none = true
is_unset (some _) = false

abbrev pub in_session : ℕ → String → RefreshToken → Bool
in_session user_id session_id r = r.user_id == user_id && str_eq r.session_id session_id

abbrev pub revoke : ℕ → RefreshToken → RefreshToken
revoke now r = record r { revoked_at = some now; updated_at = now }

abbrev pub consume : ℕ → ℕ → RefreshToken → RefreshToken
consume next_id now r = record r {
  last_used_at = some now;
  revoked_at = some now;
  replaced_by_id = some next_id;
  updated_at = now;
}

module _ (fault : Statement → Bool) where
  unfoldable pub revoke_session : ℕ → String → ℕ → List RefreshToken → Outcome Unit
  unfolding update_rows
  revoke_session user_id session_id now rows =
      if fault Statement.revoke_live then (err database, rows) else (
        ok tt,
        update_rows (λ r. in_session user_id session_id r && is_unset r.revoked_at) (revoke now)
            rows,
      )

  unfoldable pub lock_token_by_hash :
      List ℕ → List RefreshToken → Result SessionError (Option RefreshToken)
  unfolding find_row
  lock_token_by_hash hash rows =
      if fault Statement.lock_token
      then err database
      else ok (find_row (λ r. same_bytes r.token_hash hash) rows)

  unfoldable pub revoke_found :
      ℕ → List RefreshToken → Result SessionError (Option RefreshToken) → Outcome Unit
  unfolding revoke_session
  revoke_found now rows (err e) = (err e, rows)
  revoke_found now rows (ok none) = (ok tt, rows)
  revoke_found now rows (ok (some current)) =
      revoke_session current.user_id current.session_id now rows

  unfoldable pub revoke_session_by_token_hash : List ℕ → ℕ → List RefreshToken → Outcome Unit
  unfolding lock_token_by_hash revoke_found
  revoke_session_by_token_hash hash now rows =
      if not (length hash == 32)
      then (ok tt, rows)
      else revoke_found now rows (lock_token_by_hash hash rows)

  -- `return ErrRefreshTokenReplay` after the revocation, unless that failed.
  abbrev replayed : Outcome Unit → Outcome Unit
  replayed (err e, rows) = (err e, rows)
  replayed (ok _, rows) = (err replay, rows)

  unfoldable pub check_rotation : Option RefreshToken → ℕ → List RefreshToken → Outcome Unit
  unfolding revoke_session
  check_rotation none now rows = (err not_found, rows)
  check_rotation (some current) now rows =
      if is_unset current.revoked_at && not (ltb now current.expires_at)
      then (err expired, rows)
      else if is_unset current.revoked_at
      then (ok tt, rows)
      else if is_unset current.replaced_by_id
      then (err not_found, rows)
      else replayed (revoke_session current.user_id current.session_id now rows)

  unfoldable pub consume_token : ℕ → ℕ → ℕ → List RefreshToken → Outcome Unit
  unfolding update_rows affected_rows
  consume_token current_id next_id now rows =
      if fault Statement.mark_consumed
      then (err database, rows)
      else if not (affected_rows (λ r. r.id == current_id && is_unset r.revoked_at) rows == 1)
      then (
        err changed,
        update_rows (λ r. r.id == current_id && is_unset r.revoked_at) (consume next_id now) rows,
      )
      else (
        ok tt,
        update_rows (λ r. r.id == current_id && is_unset r.revoked_at) (consume next_id now) rows,
      )

  unfoldable pub inserted : RefreshToken → Outcome Unit → Outcome RefreshToken
  inserted filled (err e, left) = (err e, left)
  inserted filled (ok _, left) = (ok filled, left)

  -- Rotate after checkRotation; `next` has its user and session, and gets the ID `new_id`.
  unfoldable pub replace_token :
      ℕ → RefreshToken → RefreshToken → ℕ → List RefreshToken → Outcome RefreshToken
  unfolding consume_token inserted
  replace_token new_id current next now rows =
      let filled : RefreshToken = record next {
        id = new_id;
        user_id = current.user_id;
        session_id = current.session_id;
      } in
      if fault Statement.insert_token
      then (err database, rows)
      else inserted filled (consume_token current.id new_id now (rows ++ filled ∷ []))

  -- The rest of Rotate after the lock, by the outcome of checkRotation.
  unfoldable pub rotate_checked :
      ℕ → Option RefreshToken → RefreshToken → ℕ → Outcome Unit → Outcome RefreshToken
  unfolding replace_token
  rotate_checked new_id current next now (err e, rows) = (err e, rows)
  rotate_checked new_id none next now (ok _, rows) = (err not_found, rows)
  rotate_checked new_id (some current) next now (ok _, rows) =
      replace_token new_id current next now rows

  unfoldable pub rotate_found :
      ℕ
      → RefreshToken
      → ℕ
      → List RefreshToken
      → Result SessionError (Option RefreshToken)
      → Outcome RefreshToken
  unfolding check_rotation rotate_checked
  rotate_found new_id next now rows (err e) = (err e, rows)
  rotate_found new_id next now rows (ok current) =
      rotate_checked new_id current next now (check_rotation current now rows)

  -- Rotate. A nil `next` does not occur: Refresh builds one.
  unfoldable pub rotate : ℕ → List ℕ → RefreshToken → ℕ → List RefreshToken → Outcome RefreshToken
  unfolding lock_token_by_hash rotate_found
  rotate new_id hash next now rows =
      if not (length hash == 32)
      then (err not_found, rows)
      else if not (length next.token_hash == 32) || not (ltb now next.expires_at)
      then (err bad_replacement, rows)
      else rotate_found new_id next now rows (lock_token_by_hash hash rows)

  module _
      (transact : (A : Type 0)
        → (List RefreshToken → Outcome A)
        → List RefreshToken
        → Outcome A) where
    -- revokeSession of the logic.
    unfoldable pub revoke_in_transaction : List ℕ → ℕ → List RefreshToken → Outcome Unit
    unfolding revoke_session_by_token_hash
    revoke_in_transaction hash now rows = transact Unit (revoke_session_by_token_hash hash now) rows

    -- What rotateRefresh returns once the replayed session is revoked.
    unfoldable pub after_revocation : Outcome Unit → Outcome RefreshToken
    after_revocation (err e, rows) = (err (unavailable replay e), rows)
    after_revocation (ok _, rows) = (err replay, rows)

    unfoldable pub settle_rotation : List ℕ → ℕ → Outcome RefreshToken → Outcome RefreshToken
    unfolding revoke_in_transaction after_revocation
    settle_rotation hash now (err replay, rows) =
        after_revocation (revoke_in_transaction hash now rows)
    settle_rotation hash now (outcome, rows) = (outcome, rows)

    unfoldable pub rotate_refresh :
        ℕ → List ℕ → RefreshToken → ℕ → List RefreshToken → Outcome RefreshToken
    unfolding rotate settle_rotation
    rotate_refresh new_id hash next now rows =
        settle_rotation hash now (transact RefreshToken (rotate new_id hash next now) rows)
