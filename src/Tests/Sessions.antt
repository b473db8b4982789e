-- ===== src/Tests/Sessions.antt =====
-- A session whose first token has been consumed by a rotation, and its replay.
use kirby.Base.{ℕ, Bool, false, List, [], ◌∷◌, none, some, ok, err, ◌≡◌, refl, inr}
use kirby.Store.{find_row}
use kirby.Session.{Statement, RefreshToken, Outcome, same_bytes, rotate, rotate_refresh, replay}
use kirby.Session.Replay.{settle, IsRevoked, rotate_refresh-IsRevoked}
use kirby.Session.Rotation.{IsRotated, rotate-IsRotated}

abbrev bytes : ℕ → List ℕ
bytes n =
    n ∷ n ∷ n ∷ n ∷ n ∷ n ∷ n ∷ n ∷ n ∷ n ∷ n ∷ n ∷ n ∷ n ∷ n ∷ n ∷ n ∷ n ∷ n ∷ n ∷ n ∷ n ∷ n ∷ n
    ∷ n ∷ n ∷ n ∷ n ∷ n ∷ n ∷ n ∷ n ∷ []

abbrev old_token : RefreshToken
old_token = record {
  id = 1;
  user_id = 3;
  session_id = "s1";
  token_hash = bytes 1;
  expires_at = 900;
  last_used_at = none;
  revoked_at = none;
  replaced_by_id = none;
  updated_at = 10;
}

abbrev draft : ℕ → RefreshToken
draft n = record {
  id = 0;
  user_id = 0;
  session_id = "";
  token_hash = bytes n;
  expires_at = 950;
  last_used_at = none;
  revoked_at = none;
  replaced_by_id = none;
  updated_at = 20;
}

abbrev new_token : RefreshToken
new_token = record (draft 2) { id = 2; user_id = 3; session_id = "s1" }

abbrev used_token : RefreshToken
used_token = record old_token {
  last_used_at = some 20;
  revoked_at = some 20;
  replaced_by_id = some 2;
  updated_at = 20;
}

abbrev healthy : Statement → Bool
healthy _ = false

abbrev transact : (A : Type 0) → (List RefreshToken → Outcome A) → List RefreshToken → Outcome A
transact A body rows = settle rows (body rows)

rotated :
    rotate healthy 2 (bytes 1) (draft 2) 20 (old_token ∷ [])
    ≡ (ok new_token, used_token ∷ new_token ∷ [])
unfolding rotate
rotated = refl

replayed :
    rotate_refresh healthy transact 3 (bytes 1) (draft 3) 30 (used_token ∷ new_token ∷ [])
    ≡ (err replay, used_token ∷ record new_token { revoked_at = some 30; updated_at = 30 } ∷ [])
unfolding rotate_refresh
replayed = refl

used_found :
    find_row (λ (r : RefreshToken). same_bytes r.token_hash (bytes 1)) (used_token ∷ new_token ∷ [])
    ≡ some used_token
unfolding find_row
used_found = refl

rotate-IsRotated_example :
    IsRotated (bytes 1) 20 (old_token ∷ []) (used_token ∷ new_token ∷ []) new_token
rotate-IsRotated_example =
    rotate-IsRotated healthy 2 (bytes 1) (draft 2) 20 (old_token ∷ []) (used_token ∷ new_token ∷ [])
      new_token rotated

rotate_refresh-IsRevoked_example :
    IsRevoked 3 "s1" (used_token ∷ record new_token { revoked_at = some 30; updated_at = 30 } ∷ [])
rotate_refresh-IsRevoked_example =
    rotate_refresh-IsRevoked healthy transact (λ A body rows. inr refl) 3 (bytes 1) (draft 3) 30
      (used_token ∷ new_token ∷ [])
      (used_token ∷ record new_token { revoked_at = some 30; updated_at = 30 } ∷ []) used_token refl
      used_found replayed
