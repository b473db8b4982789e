-- ===== src/Limit/Quota.antt =====
-- How many requests pass in one window.
use kirby.Base.{
  ℕ, ◌+◌, ◌-◌, ◌≤◌, ◌<◌, String, str_eq, eq_iff, eq_refl, true, false, ltb, leb, List, [], ◌∷◌,
  none, some, pos, max_int64, eqz, ok, err, if◌then◌else◌, ◌≡◌, ◌≢◌, refl, sym, ap, ◌∙◌, arith,
  Option-cases, inl, inr, length, All,
}
use kirby.Dict.{lookup, insert, delete, lookup-insert}
use kirby.Decimal.{format_int}
use kirby.Decimal.Reads.{parse_int-format_pos}
use kirby.Cache.{
  MemoryEntry, MemoryStore, is_expired, increment, increment_found, start_counter, advance_counter,
}
use kirby.Cache.Live.{live, counter, unless_expired}
use kirby.Limit.{
  too_many_requests, exceeds, compare_count, rate_key, fixed_window_rate_limit, admitted,
}

abbrev at_most : ℕ → ℕ → ℕ
at_most l n = if leb n l then n else l

-- The counter of a window that has begun.
abbrev Counts : String → ℕ → ℕ → MemoryStore → Type 0
Counts key n end m = lookup m key ≡ some (counter (format_int (pos n)) (some end))

increment-Counts :
    (key : String) (n end w now : ℕ) (m : MemoryStore)
    → n < max_int64
    → 0 < w
    → now < end
    → Counts key n end m
    → (m' : MemoryStore) × (increment false now key (pos w) m ≡ (ok (pos (n + 1)), m'))
      × Counts key (n + 1) end m'
unfolding increment increment_found advance_counter is_expired
increment-Counts key n end w now m room pos_w early c =
    let positive_w : ltb 0 w ≡ true = ground arith in
    let fresh : is_expired now (counter (format_int (pos n)) (some end)) ≡ false = ground arith in
    let below : eqz (pos n) (pos max_int64) ≡ false = ground arith in
    let m' = insert key (counter (format_int (pos (n + 1))) (some end)) m in
    let here : lookup m' key ≡ some (counter (format_int (pos (n + 1))) (some end)) =
      lookup-insert key key (counter (format_int (pos (n + 1))) (some end)) m
      ∙ rw (eq_refl key) refl in
    (m', rw (positive_w, c, fresh, parse_int-format_pos n (omega arith), below) refl, here)

printed_one : "1" ≡ format_int (pos 1)
unfolding format_int
printed_one = refl

start-Counts :
    (key : String) (w now : ℕ) (m : MemoryStore)
    → Counts key 1 (now + w) (insert key (counter "1" (some (now + w))) m)
start-Counts key w now m =
    lookup-insert key key (counter "1" (some (now + w))) m
    ∙ rw (eq_refl key) (ap (λ v. some (counter v (some (now + w)))) printed_one)

-- A request whose key has no live counter begins a window.
pub increment-starts :
    (key : String) (w now : ℕ) (m : MemoryStore)
    → 0 < w
    → live now m key ≡ none
    → (m' : MemoryStore) × (increment false now key (pos w) m ≡ (ok (pos 1), m'))
      × Counts key 1 (now + w) m'
unfolding increment increment_found start_counter live
increment-starts key w now m pos_w dead =
    let positive_w : ltb 0 w ≡ true = ground arith in
    elim (Option-cases (lookup m key)) [
      | inl absent ↦ (
        insert key (counter "1" (some (now + w))) m,
        rw (positive_w, absent) refl,
        start-Counts key w now m,
      )
      | inr (e, found) ↦
          let old : is_expired now e ≡ true =
            was_expired now e (ap (unless_expired now) (sym found) ∙ dead) in
          (
            insert key (counter "1" (some (now + w))) (delete key m),
            rw (positive_w, found, old) refl,
            start-Counts key w now (delete key m),
          )
    ]
  where
    was_expired :
        (at : ℕ) (x : MemoryEntry) → unless_expired at (some x) ≡ none → is_expired at x ≡ true
    was_expired at x h = ground arith

module _ (digest : String → String) (namespace identity : String) (l w : ℕ) (named : namespace ≢ "")
    (pos_l : 0 < l) (pos_w : 0 < w) where
  abbrev key : String
  key = rate_key digest namespace identity

  pub limit_lem :
      (now n : ℕ) (m m' : MemoryStore)
      → increment false now key (pos w) m ≡ (ok (pos n), m')
      → fixed_window_rate_limit digest namespace (pos l) (pos w) identity false now m
        ≡ (if ltb l n then err too_many_requests else ok tt, m')
  unfolding fixed_window_rate_limit compare_count exceeds
  limit_lem now n m m' h =
      let named' : str_eq namespace "" ≡ false = ground (arith, eq_iff namespace "") in
      let some_limit : ltb 0 l ≡ true = ground arith in
      let some_window : ltb 0 w ≡ true = ground arith in
      rw (named', some_limit, some_window, h)
        (ap (λ b. (if b then err too_many_requests else ok tt, m')) (ground arith))

  admitted-Counts :
      (end n : ℕ) (times : List ℕ) (m : MemoryStore)
      → Counts key n end m
      → All (λ now. now < end) times
      → n + length times ≤ max_int64
      → admitted digest namespace (pos l) (pos w) identity times m ≡ at_most (l - n) (length times)
  unfolding admitted
  admitted-Counts end n [] m c early room = ground arith
  admitted-Counts end n (now ∷ times) m c early room =
      let (m', counted, c') = increment-Counts key n end w now m (omega arith) pos_w early.0 c in
      let rest = admitted-Counts end (n + 1) times m' c' early.1 (omega arith) in
      rw (limit_lem now (n + 1) m m' counted) (ground (arith, rest))

  -- Of requests of one identity in the window that the first of them begins, as many pass as the
  -- limit says, or all if they are fewer. The namespace is not empty, the limit and the window are
  -- positive, the first request finds no live counter, and fewer than the largest int64 follow.
  pub admitted-eq-limit :
      (first : ℕ) (later : List ℕ) (m : MemoryStore)
      → live first m key ≡ none
      → All (λ now. now < first + w) later
      → length later < max_int64
      → admitted digest namespace (pos l) (pos w) identity (first ∷ later) m
        ≡ at_most l (length (first ∷ later))
  unfolding admitted
  admitted-eq-limit first later m dead early room =
      let (m', counted, c) = increment-starts key w first m pos_w dead in
      let rest = admitted-Counts (first + w) 1 later m' c early (omega arith) in
      rw (limit_lem first 1 m m' counted) (ground (arith, rest))
