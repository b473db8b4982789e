-- ===== src/SafeInt/Exact.antt =====
-- The conversions keep the value, and refuse exactly the values outside the other type.
use kirby.Base.{
  ℕ, ◌≤◌, Bool, false, leb, ℤ, pos, negsuc, pos_part, max_int64, Result, ok, err, if◌then◌else◌,
  ◌≡◌, refl, arith,
}
use kirby.SafeInt.{
  Misfit, does_not_fit, max_uint32, uint32_from_int64, uint32_from_int, uint64_from_int64,
  uint64_from_int, int64_from_uint64, int_from_uint64, int_from_uint32,
}

-- The value lies between the two bounds, both of them values of the target.
abbrev pub fits : ℕ → ℤ → Bool
fits bound (pos n) = leb n bound
fits bound (negsuc n) = false

-- The conversion of a value to a range of the natural numbers without truncation.
abbrev pub exactly : ℕ → ℤ → Result Misfit ℕ
exactly bound v = if fits bound v then ok (pos_part v) else err (does_not_fit v)

abbrev pub exactly_int : ℕ → ℕ → Result Misfit ℤ
exactly_int bound n = if leb n bound then ok (pos n) else err (does_not_fit (pos n))

-- Each conversion of an int64 or int, and of an unsigned value of its type, gives the same number
-- where the target has it, and an error where it has not.
pub conversions_keep_values :
    (v : ℤ) (n : ℕ)
    → pos_part v ≤ max_int64
    → n ≤ 18446744073709551615
    → (uint32_from_int64 v ≡ exactly max_uint32 v)
      × (uint32_from_int v ≡ exactly max_uint32 v)
      × (uint64_from_int64 v ≡ exactly 18446744073709551615 v)
      × (uint64_from_int v ≡ exactly 18446744073709551615 v)
      × (int64_from_uint64 n ≡ exactly_int max_int64 n)
      × (int_from_uint64 n ≡ exactly_int max_int64 n)
      × (n ≤ max_uint32 → int_from_uint32 n ≡ ok (pos n))
unfolding uint32_from_int64 uint32_from_int uint64_from_int64 uint64_from_int int64_from_uint64
    int_from_uint64 int_from_uint32
conversions_keep_values (pos k) n hv hn =
    (ground arith, ground arith, ground arith, ground arith, ground arith, ground arith, λ h. refl)
conversions_keep_values (negsuc k) n hv hn =
    (refl, refl, refl, refl, ground arith, ground arith, λ h. refl)
