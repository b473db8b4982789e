-- ===== src/SafeInt.antt =====
-- server/internal/util/safeint/safeint.go on a platform whose int has 64 bits, strconv.IntSize being
-- 64. Unsigned values are numbers below the power of two of their type.
pub mod Exact
use kirby.Base.{
  ℕ, Bool, ◌||◌, ◌&&◌, ltb, ◌==◌, ◌%◌, ◌^◌, ℤ, pos, negsuc, is_negative, pos_part, max_int64,
  Result, ok, err, if◌then◌else◌,
}

-- The error, with the value that does not fit.
pub data Misfit : Type 0 where
  does_not_fit : ℤ → Misfit

abbrev pub max_uint32 : ℕ
max_uint32 = 4294967295

abbrev pub max_int32 : ℕ
max_int32 = 2147483647

abbrev pub int_size : ℕ
int_size = 64

-- uint32(value): the low 32 bits of a value that is not negative.
abbrev pub low_32 : ℤ → ℕ
low_32 v = pos_part v % 4294967296

abbrev pub above : ℤ → ℕ → Bool
above v bound = ltb bound (pos_part v)

unfoldable pub uint32_from_int64 : ℤ → Result Misfit ℕ
uint32_from_int64 v =
    if is_negative v || above v max_uint32 then err (does_not_fit v) else ok (low_32 v)

unfoldable pub uint32_from_int : ℤ → Result Misfit ℕ
uint32_from_int v =
    if is_negative v || (int_size == 64 && above v max_uint32)
    then err (does_not_fit v)
    else ok (low_32 v)

unfoldable pub uint64_from_int64 : ℤ → Result Misfit ℕ
uint64_from_int64 v = if is_negative v then err (does_not_fit v) else ok (pos_part v)

unfoldable pub uint64_from_int : ℤ → Result Misfit ℕ
uint64_from_int v = if is_negative v then err (does_not_fit v) else ok (pos_part v)

unfoldable pub int64_from_uint64 : ℕ → Result Misfit ℤ
int64_from_uint64 n = if ltb max_int64 n then err (does_not_fit (pos n)) else ok (pos n)

unfoldable pub int_from_uint64 : ℕ → Result Misfit ℤ
int_from_uint64 n =
    if (int_size == 32 && ltb max_int32 n) || (int_size == 64 && ltb max_int64 n)
    then err (does_not_fit (pos n))
    else ok (pos n)

unfoldable pub int_from_uint32 : ℕ → Result Misfit ℤ
int_from_uint32 n =
    if int_size == 32 && ltb max_int32 n then err (does_not_fit (pos n)) else ok (pos n)
