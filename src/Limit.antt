-- ===== src/Limit.antt =====
-- server/internal/middleware/rate_limit.go: FixedWindowRateLimit over the memory store. A result
-- without an error stands for the call of the next handler.
-- Parameters: `digest` is digestIdentity, which is SHA-256 of a text in hexadecimal; `canceled` says
-- whether the context is, `now` is the clock.
pub mod Quota
pub mod Recovery
use kirby.Base.{
  ℕ, ◌+◌, String, str_eq, Bool, true, false, not, ◌&&◌, ◌||◌, ltb, List, [], ◌∷◌, Option, none,
  some, ℤ, pos, negsuc, pos_part, neg_part, is_positive, Result, ok, err, if◌then◌else◌, zero, suc,
}
use Prim.Native.String.{◌++◌}
use kirby.Cache.{MemoryEntry, CacheError, MemoryStore, Outcome, increment}

pub data LimitError : Type 0 where
  unavailable too_many_requests : LimitError

unfoldable pub exceeds : ℤ → ℤ → Bool
exceeds a b = ltb (pos_part b + neg_part a) (pos_part a + neg_part b)

unfoldable pub compare_count : ℤ → Outcome ℤ → Result LimitError (Unit {0}) × MemoryStore
unfolding exceeds
compare_count limit (err _, m) = (err unavailable, m)
compare_count limit (ok count, m) =
    (if exceeds count limit then err too_many_requests else ok tt, m)

module _ (digest : String → String) where
  unfoldable pub rate_key : String → String → String
  rate_key namespace identity = ("rate:" ++ namespace) ++ (":" ++ digest identity)

  unfoldable pub fixed_window_rate_limit :
      String → ℤ → ℤ → String → Bool → ℕ → MemoryStore → Result LimitError (Unit {0}) × MemoryStore
  unfolding compare_count rate_key
  fixed_window_rate_limit namespace limit window identity canceled now m =
      if str_eq namespace "" || not (is_positive limit) || not (is_positive window)
      then (err unavailable, m)
      else compare_count limit (increment canceled now (rate_key namespace identity) window m)

  abbrev admits : Result LimitError (Unit {0}) → ℕ
  admits (ok _) = 1
  admits (err _) = 0

  -- How many requests of one identity pass, that come at these instants.
  unfoldable pub admitted : String → ℤ → ℤ → String → List ℕ → MemoryStore → ℕ
  unfolding fixed_window_rate_limit
  admitted namespace limit window identity [] m = 0
  admitted namespace limit window identity (now ∷ later) m =
      let (r, m') = fixed_window_rate_limit namespace limit window identity false now m in
      admits r + admitted namespace limit window identity later m'
