-- ===== src/Cache/Live.antt =====
-- The store as a map of the values that are live at an instant, and its operations on that map.
use kirby.Base.{
  ℕ, ◌≤◌, String, str_eq, eq_iff, eq_refl, true, false, not, ◌&&◌, ltb, Option, none, some, ℤ, pos,
  max_int64, is_negative, is_positive, eqz, Result, ok, err, if◌then◌else◌, ◌≡◌, refl, sym, ap, ◌∙◌,
  arith, Bool-cases, inl, inr,
}
use kirby.Dict.{lookup, insert, delete, lookup-insert, lookup-delete}
use kirby.Decimal.{format_int, parse_int}
use kirby.Publish.Writes.{next_version}
use kirby.Cache.{
  MemoryEntry, CacheError, not_an_integer, counter_overflow, negative_ttl, invalid_ttl, MemoryStore,
  not_found, is_expired, after, get_found, get, set, start_counter, advance_counter,
  increment_found, increment, remove,
}

-- The entry of a key, unless it has expired.
abbrev pub unless_expired : ℕ → Option MemoryEntry → Option MemoryEntry
unless_expired at none = none
unless_expired at (some e) = if is_expired at e then none else some e

unfoldable pub live : ℕ → MemoryStore → String → Option MemoryEntry
live at entries key = unless_expired at (lookup entries key)

live-insert :
    (at : ℕ) (k j : String) (e : MemoryEntry) (m : MemoryStore)
    → live at (insert k e m) j ≡ (if str_eq k j then unless_expired at (some e) else live at m j)
unfolding live
live-insert at k j e m = rw (lookup-insert k j e m) (ground arith)

live-delete :
    (at : ℕ) (k j : String) (m : MemoryStore)
    → live at (delete k m) j ≡ (if str_eq k j then none else live at m j)
unfolding live
live-delete at k j m = rw (lookup-delete k j m) (ground arith)

-- What has expired stays so.
expired_later :
    (now at : ℕ) (e : MemoryEntry) → now ≤ at → is_expired now e ≡ true → is_expired at e ≡ true
unfolding is_expired
expired_later now at e h = ground arith

live_expired :
    (now at : ℕ) (k : String) (m : MemoryStore) (x : MemoryEntry)
    → lookup m k ≡ some x
    → is_expired now x ≡ true
    → now ≤ at
    → live at m k ≡ none
unfolding live
live_expired now at k m x e old h = rw e (rw (expired_later now at x h old) refl)

-- The operations of the interface Store, with their answers.
pub data Operation : Type 0 where
  get_key : String → Operation
  set_key : String → String → ℤ → Operation
  increment_key : String → ℤ → Operation
  delete_key : String → Operation

pub data Answer : Type 0 where
  text : String → Answer
  count : ℤ → Answer
  done : Answer

abbrev pub Reply : Type 0
Reply = Result CacheError Answer

abbrev answer_with : {A : Type 0} → (A → Answer) → Result CacheError A → Reply
answer_with f (ok a) = ok (f a)
answer_with f (err e) = err e

unfoldable pub perform : ℕ → Operation → MemoryStore → Reply × MemoryStore
unfolding get set increment remove
perform now (get_key k) m = let (r, m') = get false now k m in (answer_with text r, m')
perform now (set_key k v ttl) m =
    let (r, m') = set false now k v ttl m in (answer_with (λ _. done) r, m')
perform now (increment_key k ttl) m =
    let (r, m') = increment false now k ttl m in (answer_with count r, m')
perform now (delete_key k) m = let (r, m') = remove false now k m in (answer_with (λ _. done) r, m')

-- What a cache promises: at every instant a key has at most one value, which nobody sees once its
-- instant has come.
abbrev pub View : Type 0
View = ℕ → String → Option MemoryEntry

abbrev pub put : String → Option MemoryEntry → View → View
put k o V at j = if str_eq k j then unless_expired at o else V at j

abbrev pub counter : String → Option ℕ → MemoryEntry
counter v at = record { value = v; expires_at = at }

abbrev advance_view : String → MemoryEntry → View → Option ℤ → Reply × View
advance_view k e V none = (err not_an_integer, V)
advance_view k e V (some n) = if eqz n (pos max_int64) then (err counter_overflow, V) else (
  ok (count (next_version n)),
  put k (some (counter (format_int (next_version n)) e.expires_at)) V,
)

abbrev increment_view : ℕ → String → ℤ → View → Option MemoryEntry → Reply × View
increment_view now k ttl V none =
    (ok (count (pos 1)), put k (some (counter "1" (some (after now ttl)))) V)
increment_view now k ttl V (some e) = advance_view k e V (parse_int e.value)

abbrev get_view : Option MemoryEntry → Reply
get_view none = err not_found
get_view (some e) = ok (text e.value)

unfoldable pub promised : ℕ → Operation → View → Reply × View
promised now (get_key k) V = (get_view (V now k), V)
promised now (set_key k v ttl) V = if is_negative ttl then (err negative_ttl, V) else (
  ok done,
  put k (some (counter v (if is_positive ttl then some (after now ttl) else none))) V,
)
promised now (increment_key k ttl) V =
    if not (is_positive ttl) then (err invalid_ttl, V) else increment_view now k ttl V (V now k)
promised now (delete_key k) V = (ok done, put k none V)

-- A reply and a store stand for a reply and a view, from an instant on.
abbrev pub Refines : ℕ → Reply × MemoryStore → Reply × View → Type 0
Refines now (r, m) (s, V) = (r ≡ s) × ((at : ℕ) (j : String) → now ≤ at → live at m j ≡ V at j)

delete_expired :
    (now at : ℕ) (k j : String) (m : MemoryStore) (x : MemoryEntry)
    → lookup m k ≡ some x
    → is_expired now x ≡ true
    → now ≤ at
    → live at (delete k m) j ≡ live at m j
delete_expired now at k j m x e old h = elim (Bool-cases (str_eq k j)) [
  | inl same ↦
      let gone : live at m j ≡ none =
        rw (← (eq_iff k j).0 same) (live_expired now at k m x e old h) in
      live-delete at k j m ∙ (rw same (sym gone))
  | inr other ↦ live-delete at k j m ∙ rw other refl
]

abbrev pub view_of : MemoryStore → View
view_of m at j = live at m j

get_lem :
    (now : ℕ) (k : String) (m : MemoryStore) (o : Option MemoryEntry)
    → lookup m k ≡ o
    → Refines now
        (let (r, m') = get_found false now k m o in (answer_with text r, m'))
        (get_view (unless_expired now o), λ at j. live at m j)
unfolding get_found
get_lem now k m none e = (refl, λ at j h. refl)
get_lem now k m (some x) e = elim (Bool-cases (is_expired now x)) [
  | inl old ↦ rw old (refl, λ at j h. delete_expired now at k j m x e old h)
  | inr fresh ↦ rw fresh (refl, λ at j h. refl)
]

start_lem :
    (now : ℕ) (k : String) (ttl : ℤ) (m m' : MemoryStore)
    → ((at : ℕ) (j : String) → now ≤ at → live at m' j ≡ live at m j)
    → Refines now
        (let (r, n) = start_counter false now k ttl m' in (answer_with count r, n))
        (increment_view now k ttl (view_of m) none)
unfolding start_counter
start_lem now k ttl m m' same = (
  refl,
  λ at j h.
      live-insert at k j (counter "1" (some (after now ttl))) m'
      ∙ ap
          (λ o.
            if str_eq k j then unless_expired at (some (counter "1" (some (after now ttl)))) else o)
          (same at j h),
)

advance_lem :
    (now : ℕ) (k : String) (e : MemoryEntry) (m : MemoryStore) (o : Option ℤ)
    → Refines now
        (let (r, n) = advance_counter false now k e m o in (answer_with count r, n))
        (advance_view k e (view_of m) o)
unfolding advance_counter
advance_lem now k e m none = (refl, λ at j h. refl)
advance_lem now k e m (some n) = elim (Bool-cases (eqz n (pos max_int64))) [
  | inl full ↦ rw full (refl, λ at j h. refl)
  | inr room ↦
      rw room
        (refl, λ at j h. live-insert at k j (counter (format_int (next_version n)) e.expires_at) m)
]

increment_lem :
    (now : ℕ) (k : String) (ttl : ℤ) (m : MemoryStore) (o : Option MemoryEntry)
    → lookup m k ≡ o
    → Refines now
        (let (r, n) = increment_found false now k ttl m o in (answer_with count r, n))
        (increment_view now k ttl (view_of m) (unless_expired now o))
unfolding increment_found
increment_lem now k ttl m none e = start_lem now k ttl m m (λ at j h. refl)
increment_lem now k ttl m (some x) e = elim (Bool-cases (is_expired now x)) [
  | inl old ↦
      rw old (start_lem now k ttl m (delete k m) (λ at j h. delete_expired now at k j m x e old h))
  | inr fresh ↦ rw fresh (advance_lem now k x m (parse_int x.value))
]

-- Every operation of the memory store answers as the promised cache does, and leaves a store that
-- shows the values of the promised cache at every instant from then on.
pub perform-Refines :
    (now : ℕ) (op : Operation) (m : MemoryStore)
    → Refines now (perform now op m) (promised now op (view_of m))
unfolding perform promised get set increment remove live
perform-Refines now (get_key k) m = get_lem now k m (lookup m k) refl
perform-Refines now (set_key k v ttl) m = elim (Bool-cases (is_negative ttl)) [
  | inl wrong ↦ rw wrong (refl, λ at j h. refl)
  | inr fine ↦ rw fine (
    refl,
    λ at j h.
        live-insert at k j (counter v (if is_positive ttl then some (after now ttl) else none)) m,
  )
]
perform-Refines now (increment_key k ttl) m = elim (Bool-cases (is_positive ttl)) [
  | inl fine ↦ rw fine (increment_lem now k ttl m (lookup m k) refl)
  | inr wrong ↦ rw wrong (refl, λ at j h. refl)
]
perform-Refines now (delete_key k) m = (refl, λ at j h. live-delete at k j m)

-- A value that is set is read back until its duration is over, and for ever where that is zero.
pub get-set :
    (now at : ℕ) (k v : String) (ttl : ℤ) (m : MemoryStore)
    → now ≤ at
    → is_negative ttl ≡ false
    → (perform at (get_key k) (perform now (set_key k v ttl) m).1).0
      ≡ (if is_positive ttl && not (ltb at (after now ttl)) then err not_found else ok (text v))
unfolding perform get set get_found is_expired
get-set now at k v ttl m later fine =
    let e = counter v (if is_positive ttl then some (after now ttl) else none) in
    let here : lookup (insert k e m) k ≡ some e = lookup-insert k k e m ∙ rw (eq_refl k) refl in
    rw (fine, here) (ground arith)
