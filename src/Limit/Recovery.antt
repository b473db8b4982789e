-- ===== src/Limit/Recovery.antt =====
-- No identity is locked out by its earlier requests.
use kirby.Base.{
  ℕ, ◌≤◌, ◌<◌, String, str_eq, Bool, true, false, not, ◌||◌, ltb, List, [], ◌∷◌, Option, none, some,
  ℤ, pos, max_int64, is_positive, eqz, Result, ok, err, ◌≡◌, ◌≢◌, refl, sym, ap, ◌∙◌, arith,
  Bool-cases, Option-cases, inl, inr, All,
}
use kirby.Dict.{lookup, insert, delete, lookup-insert, lookup-delete}
use kirby.Decimal.{parse_int}
use kirby.Cache.{
  MemoryEntry, MemoryStore, Outcome, after, open_store, is_expired, increment, increment_found,
  start_counter, advance_counter,
}
use kirby.Cache.Live.{live}
use kirby.Limit.{LimitError, compare_count, rate_key, fixed_window_rate_limit}
use kirby.Limit.Quota.{increment-starts, limit_lem}

-- A request as the middleware sees it.
pub record Request : Type 0 where
  pub namespace : String
  pub identity : String
  pub limit : ℤ
  pub window : ℤ
  pub canceled : Bool
  pub now : ℕ

-- Every entry ends, at an instant of the bound at the latest.
abbrev Ends : ℕ → MemoryStore → Type 0
Ends bound m =
    (key : String) (e : MemoryEntry)
    → lookup m key ≡ some e
    → (end : ℕ) × (e.expires_at ≡ some end) × (end ≤ bound)

insert-Ends :
    (bound end : ℕ) (k : String) (e : MemoryEntry) (m : MemoryStore)
    → Ends bound m
    → e.expires_at ≡ some end
    → end ≤ bound
    → Ends bound (insert k e m)
insert-Ends bound end k e m ends at below key x found = elim (Bool-cases (str_eq k key)) [
  | inl same ↦
      let e1 : some e ≡ some x = rw same at (sym (lookup-insert k key e m) ∙ found) in
      let e2 : e ≡ x = cc in (end, ap (λ (y : MemoryEntry). y.expires_at) (sym e2) ∙ at, below)
  | inr apart ↦ ends key x (rw apart at (sym (lookup-insert k key e m) ∙ found))
]

delete-Ends : (bound : ℕ) (k : String) (m : MemoryStore) → Ends bound m → Ends bound (delete k m)
delete-Ends bound k m ends key x found = elim (Bool-cases (str_eq k key)) [
  | inl same ↦
      let none_left : none ≡ some x = rw same at (sym (lookup-delete k key m) ∙ found) in cc
  | inr apart ↦ ends key x (rw apart at (sym (lookup-delete k key m) ∙ found))
]

increment_found-Ends :
    (bound now : ℕ) (key : String) (ttl : ℤ) (c : Bool) (m : MemoryStore)
    → after now ttl ≤ bound
    → Ends bound m
    → Ends bound (increment_found c now key ttl m (lookup m key)).1
unfolding increment_found start_counter advance_counter
increment_found-Ends bound now key ttl c m below ends = elim (Option-cases (lookup m key)) [
  | inl absent ↦ rw absent (insert-Ends bound (after now ttl) key _ m ends refl below)
  | inr (e, found) ↦ elim (Bool-cases (is_expired now e)) [
    | inl old ↦
        rw (found, old)
          (insert-Ends bound (after now ttl) key _ (delete key m) (delete-Ends bound key m ends)
            refl below)
    | inr fresh ↦ rw (found, fresh) (advance_counter-Ends e (parse_int e.value) (ends key e found))
  ]
]
  where
    advance_counter-Ends :
        (e : MemoryEntry) (o : Option ℤ)
        → (end : ℕ) × (e.expires_at ≡ some end) × (end ≤ bound)
        → Ends bound (advance_counter c now key e m o).1
    advance_counter-Ends e none _ = ends
    advance_counter-Ends e (some current) (end, at, early) =
        elim (Bool-cases (eqz current (pos max_int64))) [
          | inl full ↦ rw full ends
          | inr room ↦ rw room (insert-Ends bound end key _ m ends at early)
        ]

increment-Ends :
    (bound now : ℕ) (key : String) (ttl : ℤ) (c : Bool) (m : MemoryStore)
    → after now ttl ≤ bound
    → Ends bound m
    → Ends bound (increment c now key ttl m).1
unfolding increment
increment-Ends bound now key ttl true m below ends = ends
increment-Ends bound now key ttl false m below ends = elim (Bool-cases (is_positive ttl)) [
  | inl positive ↦ rw positive (increment_found-Ends bound now key ttl false m below ends)
  | inr empty ↦ rw empty ends
]

compare_count-keeps : (limit : ℤ) (o : Outcome ℤ) → (compare_count limit o).1 ≡ o.1
unfolding compare_count
compare_count-keeps limit (err _, m) = refl
compare_count-keeps limit (ok n, m) = refl

module _ (digest : String → String) where
  abbrev serve : Request → MemoryStore → Result LimitError (Unit {0}) × MemoryStore
  serve r m =
      fixed_window_rate_limit digest r.namespace r.limit r.window r.identity r.canceled r.now m

  -- The store after requests, from the first one on.
  unfoldable pub served : List Request → MemoryStore → MemoryStore
  unfolding fixed_window_rate_limit
  served [] m = m
  served (r ∷ later) m = served later (serve r m).1

  serve-Ends :
      (bound : ℕ) (r : Request) (m : MemoryStore)
      → after r.now r.window ≤ bound
      → Ends bound m
      → Ends bound (serve r m).1
  unfolding fixed_window_rate_limit
  serve-Ends bound r m below ends =
      elim (Bool-cases
        (str_eq r.namespace "" || not (is_positive r.limit) || not (is_positive r.window))) [
          | inl refused ↦ rw refused ends
          | inr taken ↦ rw taken (
              rw
                (compare_count-keeps r.limit
                  (increment r.canceled r.now (rate_key digest r.namespace r.identity) r.window m))
                (increment-Ends bound r.now (rate_key digest r.namespace r.identity) r.window
                  r.canceled m below ends))
        ]

  served-Ends :
      (bound : ℕ) (rs : List Request) (m : MemoryStore)
      → All (λ r. after r.now r.window ≤ bound) rs
      → Ends bound m
      → Ends bound (served rs m)
  unfolding served
  served-Ends bound [] m below ends = ends
  served-Ends bound (r ∷ rs) m below ends =
      served-Ends bound rs _ below.1 (serve-Ends bound r m below.0 ends)

  -- Whatever requests the store has served since it was opened, of whatever identities and with
  -- whatever limits, a request that comes when the windows that could have begun with them are over
  -- passes. Its limit and its window are positive and its namespace is not empty.
  pub serves_again :
      (namespace identity : String) (l w now : ℕ) (rs : List Request)
      → namespace ≢ ""
      → 0 < l
      → 0 < w
      → All (λ r. after r.now r.window ≤ now) rs
      → (fixed_window_rate_limit digest namespace
          (pos l)
          (pos w)
          identity
          false
          now
          (served rs open_store)).0
        ≡ ok tt
  unfolding live is_expired open_store lookup
  serves_again namespace identity l w now rs named some_limit some_window over =
      let key = rate_key digest namespace identity in
      let m = served rs open_store in
      let ends : Ends now m = served-Ends now rs open_store over (λ k e found. cc) in
      let dead : live now m key ≡ none = elim (Option-cases (lookup m key)) [
        | inl absent ↦ rw absent refl
        | inr (e, found) ↦
            let (end, at, early) = ends key e found in
            let late : ltb now end ≡ false = ground arith in rw (found, at, late) refl
      ] in
      let (m', counted, _) = increment-starts key w now m some_window dead in
      let first : ltb l 1 ≡ false = ground arith in
      ap (λ x. x.0)
        (limit_lem digest namespace identity l w named some_limit some_window now 1 m m' counted)
      ∙ rw first refl
