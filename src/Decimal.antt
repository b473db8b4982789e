-- ===== src/Decimal.antt =====
-- strconv.FormatInt and strconv.ParseInt at base 10 and 64 bits, as server/internal/infra/cache and
-- server/internal/infra/object use them.
pub mod Reads
use kirby.Base.{
  ℕ, zero, suc, ◌+◌, ◌-◌, ◌*◌, ◌/◌, ◌%◌, String, Char, code, Bool, ◌&&◌, ◌==◌, ltb, leb, Option,
  none, some, ℤ, pos, negsuc, max_int64, if◌then◌else◌,
}

abbrev pub digit_char : ℕ → Char
digit_char d =
    if d == 0
    then "0"
    else (if d == 1
        then "1"
        else (if d == 2
            then "2"
            else (if d == 3
                then "3"
                else (if d == 4
                    then "4"
                    else (if d == 5
                        then "5"
                        else (if d == 6
                            then "6"
                            else (if d == 7 then "7" else (if d == 8 then "8" else "9"))))))))

-- The digits of a number before a text.
unfoldable pub digits : ℕ → ℕ → String → String
digits zero n rest = rest
digits (suc fuel) n rest =
    let longer = digits fuel (n / 10) (String.◌∷◌ (digit_char (n % 10)) rest) in
    if ltb n 10 then String.◌∷◌ (digit_char n) rest else longer

unfoldable pub format_nat : ℕ → String
unfolding digits
format_nat n = digits (suc n) n ""

unfoldable pub format_int : ℤ → String
unfolding format_nat
format_int (pos n) = format_nat n
format_int (negsuc n) = String.◌∷◌ "-" (format_nat (suc n))

abbrev pub is_digit : Char → Bool
is_digit c = leb b'0' (code c) && leb (code c) b'9'

unfoldable pub read_digits : ℕ → String → Option ℕ
read_digits n String.[] = some n
read_digits n (String.◌∷◌ c s) =
    let more = read_digits (n * 10 + (code c - b'0')) s in if is_digit c then more else none

unfoldable pub parse_nat : String → Option ℕ
unfolding read_digits
parse_nat String.[] = none
parse_nat (String.◌∷◌ c s) = read_digits 0 (String.◌∷◌ c s)

abbrev pub positive : Option ℕ → Option ℤ
positive none = none
positive (some n) = if leb n max_int64 then some (pos n) else none

abbrev pub negative : Option ℕ → Option ℤ
negative none = none
negative (some zero) = some (pos 0)
negative (some (suc n)) = if leb n max_int64 then some (negsuc n) else none

unfoldable pub parse_int : String → Option ℤ
unfolding parse_nat
parse_int String.[] = none
parse_int (String.◌∷◌ c s) =
    if code c == b'-'
    then negative (parse_nat s)
    else if code c == b'+'
    then positive (parse_nat s)
    else positive (parse_nat (String.◌∷◌ c s))
