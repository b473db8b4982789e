-- ===== src/Cache.antt =====
-- server/internal/infra/cache/cache.go: memoryStore. An instant is a number and a duration an
-- integer; an entry without an instant never expires. The lock of the store makes each operation one
-- step. Parameters: `canceled` says whether the context is, `now` is the clock.
pub mod Live
use kirby.Base.{
  ℕ, ◌+◌, String, Bool, true, false, not, ◌&&◌, ◌==◌, ltb, Option, none, some, ℤ, pos, negsuc,
  max_int64, is_negative, is_positive, eqz, Result, ok, err, if◌then◌else◌, [],
}
use kirby.Dict.{Dict, lookup, insert, delete}
use kirby.Decimal.{format_int, parse_int}
use kirby.Publish.Writes.{next_version}

pub record MemoryEntry : Type 0 where
  pub value : String
  pub expires_at : Option ℕ

pub data CacheError : Type 0 where
  not_found invalid_ttl negative_ttl not_an_integer counter_overflow canceled : CacheError

abbrev pub MemoryStore : Type 0
MemoryStore = Dict MemoryEntry

-- An operation returns its result and leaves the entries.
abbrev pub Outcome : Type 0 → Type 0
Outcome A = Result CacheError A × MemoryStore

-- !entry.expiresAt.IsZero() && !now.Before(entry.expiresAt)
unfoldable pub is_expired : ℕ → MemoryEntry → Bool
is_expired now e = elim e.expires_at [ none ↦ false | some at ↦ not (ltb now at) ]

-- s.now().Add(ttl) for a duration that is positive
abbrev pub after : ℕ → ℤ → ℕ
after now (pos n) = now + n
after now (negsuc n) = now

unfoldable pub open_store : MemoryStore
open_store = []

module _ (is_canceled : Bool) (now : ℕ) where
  unfoldable pub get_found : String → MemoryStore → Option MemoryEntry → Outcome String
  unfolding is_expired delete
  get_found key entries none = (err not_found, entries)
  get_found key entries (some e) =
      if is_expired now e then (err not_found, delete key entries) else (ok e.value, entries)

  unfoldable pub get : String → MemoryStore → Outcome String
  unfolding get_found lookup
  get key entries =
      if is_canceled then (err canceled, entries) else get_found key entries (lookup entries key)

  unfoldable pub set : String → String → ℤ → MemoryStore → Outcome (Unit {0})
  unfolding insert
  set key value ttl entries =
      if is_canceled
      then (err canceled, entries)
      else if is_negative ttl
      then (err negative_ttl, entries)
      else (
        ok tt,
        insert key
            (record {
              value = value;
              expires_at = if is_positive ttl then some (after now ttl) else none;
            })
            entries,
      )

  -- The first request of a window.
  unfoldable pub start_counter : String → ℤ → MemoryStore → Outcome ℤ
  unfolding insert
  start_counter key ttl entries =
      (ok (pos 1), insert key (record { value = "1"; expires_at = some (after now ttl) }) entries)

  unfoldable pub advance_counter : String → MemoryEntry → MemoryStore → Option ℤ → Outcome ℤ
  unfolding insert
  advance_counter key e entries none = (err not_an_integer, entries)
  advance_counter key e entries (some current) =
      if eqz current (pos max_int64) then (err counter_overflow, entries) else (
        ok (next_version current),
        insert key (record e { value = format_int (next_version current) }) entries,
      )

  unfoldable pub increment_found : String → ℤ → MemoryStore → Option MemoryEntry → Outcome ℤ
  unfolding is_expired start_counter advance_counter delete
  increment_found key ttl entries none = start_counter key ttl entries
  increment_found key ttl entries (some e) =
      if is_expired now e
      then start_counter key ttl (delete key entries)
      else advance_counter key e entries (parse_int e.value)

  unfoldable pub increment : String → ℤ → MemoryStore → Outcome ℤ
  unfolding increment_found lookup
  increment key ttl entries =
      if is_canceled
      then (err canceled, entries)
      else if not (is_positive ttl)
      then (err invalid_ttl, entries)
      else increment_found key ttl entries (lookup entries key)

  unfoldable pub remove : String → MemoryStore → Outcome (Unit {0})
  unfolding delete
  remove key entries = if is_canceled then (err canceled, entries) else (ok tt, delete key entries)
