-- ===== src/Session/Rotation.antt =====
-- A rotation that succeeds consumes the presented token.
use mathlib.Core.List.{Memᴰ}
use kirby.Base.{
  ℕ, Bool, true, false, not, ◌&&◌, ◌||◌, ◌==◌, ltb, List, [], ◌∷◌, ◌++◌, some, ok, err, ◌≡◌, refl,
  sym, ap, subst, length, inl, inr, arith, Bool-cases, Option-cases,
}
use kirby.Store.{find_row, affected_rows}
use kirby.Store.Rows.{Memᴰ-update_rows}
use kirby.Session.{
  Statement, RefreshToken, Outcome, same_bytes, is_unset, consume, consume_token, check_rotation,
  lock_token_by_hash, inserted, replace_token, rotate_checked, rotate_found, rotate, revoke_session,
}

-- The presented token `c` was live and had time left; the new one `t` is of its session, and no row
-- with the ID of `c` is live afterwards.
pub record IsRotated (hash : List ℕ) (now : ℕ) (rows left : List RefreshToken) (t : RefreshToken)
    : Type 0 where
  pub presented : RefreshToken
  pub found : find_row (λ r. same_bytes r.token_hash hash) rows ≡ some presented
  pub live : is_unset presented.revoked_at ≡ true
  pub in_time : ltb now presented.expires_at ≡ true
  pub same_user : t.user_id ≡ presented.user_id
  pub same_session : t.session_id ≡ presented.session_id
  pub consumed :
      (r : RefreshToken)
      → Memᴰ r left
      → (r.id == presented.id) ≡ true
      → is_unset r.revoked_at ≡ false

module _ (fault : Statement → Bool) where
  consume_token-consumed :
      (id next_id now : ℕ) (rows : List RefreshToken)
      → (consume_token fault id next_id now rows).0 ≡ ok tt
      → (r : RefreshToken) → Memᴰ r (consume_token fault id next_id now rows).1
      → (r.id == id) ≡ true
      → is_unset r.revoked_at ≡ false
  unfolding consume_token
  consume_token-consumed id next_id now rows h = elim (Bool-cases (fault Statement.mark_consumed)) [
    | inl failed ↦ let wrong = rw failed at h in cc
    | inr ran ↦
        elim (Bool-cases (affected_rows (λ r. r.id == id && is_unset r.revoked_at) rows == 1)) [
          | inr changed ↦ let wrong = rw (ran, changed) at h in cc
          | inl one ↦
              rw (ran, one)
                (λ r m named.
                  let (q, old, e) =
                    Memᴰ-update_rows (λ x. x.id == id && is_unset x.revoked_at)
                      (consume next_id now) rows m in
                  elim (Bool-cases (q.id == id && is_unset q.revoked_at)) [
                    | inl hit ↦
                        let e' : r ≡ consume next_id now q = (let h' = rw hit at e in h') in
                        rw e' refl
                    | inr passed ↦
                        let e' : r ≡ q = (let h' = rw passed at e in h') in
                        let named' : (q.id == id) ≡ true = rw (← e') named in
                        rw e' (ground (arith, passed, named'))
                  ])
        ]
  ]

  check_rotation_lem :
      (c : RefreshToken) (now : ℕ) (rows : List RefreshToken)
      → (check_rotation fault (some c) now rows).0 ≡ ok tt
      → (is_unset c.revoked_at ≡ true) × (ltb now c.expires_at ≡ true)
  unfolding check_rotation revoke_session
  check_rotation_lem c now rows h = elim (Bool-cases (is_unset c.revoked_at)) [
    | inl live ↦ elim (Bool-cases (ltb now c.expires_at)) [
      | inl in_time ↦ (live, in_time)
      | inr late ↦ let wrong = rw (live, late) at h in cc
    ]
    | inr revoked ↦ elim (Bool-cases (is_unset c.replaced_by_id)) [
      | inl dropped ↦ let wrong = rw (revoked, dropped) at h in cc
      | inr replaced ↦ elim (Bool-cases (fault Statement.revoke_live)) [
        | inl failed ↦ let wrong = rw (revoked, replaced, failed) at h in cc
        | inr done ↦ let wrong = rw (revoked, replaced, done) at h in cc
      ]
    ]
  ]

  inserted_lem :
      (filled : RefreshToken) (o : Outcome Unit) {t : RefreshToken} {left : List RefreshToken}
      → inserted fault filled o ≡ (ok t, left)
      → (o.0 ≡ ok tt) × (filled ≡ t) × (o.1 ≡ left)
  unfolding inserted
  inserted_lem filled (err e, rows) h = let wrong = ap (λ (x : Outcome RefreshToken). x.0) h in cc
  inserted_lem filled (ok _, rows) h =
      let e = ap (λ (x : Outcome RefreshToken). x.0) h in
      (refl, cc, ap (λ (x : Outcome RefreshToken). x.1) h)

  rotate_checked_lem :
      (new_id : ℕ) (c next : RefreshToken) (now : ℕ) (o : Outcome Unit) {t : RefreshToken}
      {left : List RefreshToken}
      → rotate_checked fault new_id (some c) next now o ≡ (ok t, left)
      → (o.0 ≡ ok tt) × (replace_token fault new_id c next now o.1 ≡ (ok t, left))
  unfolding rotate_checked
  rotate_checked_lem new_id c next now (err e, rows) h =
      let wrong = ap (λ (x : Outcome RefreshToken). x.0) h in cc
  rotate_checked_lem new_id c next now (ok _, rows) h = (refl, h)

  abbrev filled_by : ℕ → RefreshToken → RefreshToken → RefreshToken
  filled_by new_id c next = record next {
    id = new_id;
    user_id = c.user_id;
    session_id = c.session_id;
  }

  replace_token_lem :
      (new_id : ℕ) (c next : RefreshToken) (now : ℕ) (rows : List RefreshToken) {t : RefreshToken}
      {left : List RefreshToken}
      → replace_token fault new_id c next now rows ≡ (ok t, left)
      → (filled_by new_id c next ≡ t)
        × ((r : RefreshToken) → Memᴰ r left → (r.id == c.id) ≡ true → is_unset r.revoked_at ≡ false)
  unfolding replace_token
  replace_token_lem new_id c next now rows h = elim (Bool-cases (fault Statement.insert_token)) [
    | inl failed ↦ let wrong = ap (λ (x : Outcome RefreshToken). x.0) (rw failed at h) in cc
    | inr ran ↦
        let after = rows ++ filled_by new_id c next ∷ [] in
        let (done, same, kept) =
          inserted_lem (filled_by new_id c next) (consume_token fault c.id new_id now after)
            (rw ran at h) in
        (
          same,
          subst
              (λ x.
                (r : RefreshToken)
                → Memᴰ r x
                → (r.id == c.id) ≡ true
                → is_unset r.revoked_at ≡ false)
              kept (consume_token-consumed c.id new_id now after done),
        )
  ]

  rotate_found_lem :
      (new_id : ℕ) (hash : List ℕ) (next : RefreshToken) (now : ℕ) (rows left : List RefreshToken)
      (t : RefreshToken)
      → rotate_found fault new_id next now rows (lock_token_by_hash fault hash rows) ≡ (ok t, left)
      → IsRotated hash now rows left t
  unfolding rotate_found lock_token_by_hash check_rotation rotate_checked
  rotate_found_lem new_id hash next now rows left t h =
      elim (Bool-cases (fault Statement.lock_token)) [
        | inl failed ↦ let wrong = ap (λ (x : Outcome RefreshToken). x.0) (rw failed at h) in cc
        | inr ran ↦
            elim (Option-cases
              (find_row (λ (r : RefreshToken). same_bytes r.token_hash hash) rows)) [
                | inl unknown ↦
                    let wrong = ap (λ (x : Outcome RefreshToken). x.0) (rw (ran, unknown) at h) in
                    cc
                | inr (c, found) ↦
                    let (checked, replaced) =
                      rotate_checked_lem new_id c next now (check_rotation fault (some c) now rows)
                        (rw (ran, found) at h) in
                    let (live, in_time) = check_rotation_lem c now rows checked in
                    let (same, consumed) =
                      replace_token_lem new_id c next now (check_rotation fault (some c) now rows).1
                        replaced in
                    record {
                      presented = c;
                      found = found;
                      live = live;
                      in_time = in_time;
                      same_user = ap (λ (x : RefreshToken). x.user_id) (sym same);
                      same_session = ap (λ (x : RefreshToken). x.session_id) (sym same);
                      consumed = consumed;
                    }
              ]
      ]

  -- A rotation that returns a token has found the presented one live and in time, gives the new one
  -- its user and session, and leaves no live row with the ID of the presented one.
  pub rotate-IsRotated :
      (new_id : ℕ) (hash : List ℕ) (next : RefreshToken) (now : ℕ) (rows left : List RefreshToken)
      (t : RefreshToken)
      → rotate fault new_id hash next now rows ≡ (ok t, left)
      → IsRotated hash now rows left t
  unfolding rotate
  rotate-IsRotated new_id hash next now rows left t h = elim (Bool-cases (length hash == 32)) [
    | inr short ↦ let wrong = ap (λ (x : Outcome RefreshToken). x.0) (rw short at h) in cc
    | inl sized ↦
        elim (Bool-cases (not (length next.token_hash == 32) || not (ltb now next.expires_at))) [
          | inl bad ↦
              let wrong = ap (λ (x : Outcome RefreshToken). x.0) (rw (sized, bad) at h) in cc
          | inr good ↦ rotate_found_lem new_id hash next now rows left t (rw (sized, good) at h)
        ]
  ]
