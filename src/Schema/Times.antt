-- ===== src/Schema/Times.antt =====
-- time.Parse of the Go standard library at the three layouts of schema.go, "2006-01-02",
-- "15:04:05" and "2006-01-02 15:04:05", over the code points of the text. Only whether it fails is
-- modelled. The hour may have one digit, and the second may carry a fraction.
use kirby.Base.{
  ℕ, ◌+◌, ◌-◌, ◌*◌, ◌%◌, ◌/◌, Bool, true, false, not, ◌&&◌, ◌||◌, ◌==◌, String, List, [], ◌∷◌,
  Option, none, some, if◌then◌else◌, ◌≡◌, refl,
}
use kirby.Schema.Texts.{codes, between, is_digit}

-- A number that was read, and what follows it.
abbrev Scan : Type 0
Scan = Option (ℕ × List ℕ)

abbrev digit : ℕ → ℕ
digit c = c - b'0'

-- getnum(s, true)
two_digits : List ℕ → Scan
two_digits (a ∷ b ∷ rest) =
    if is_digit a && is_digit b then some (digit a * 10 + digit b, rest) else none
two_digits _ = none

-- getnum(s, false)
one_or_two_digits : List ℕ → Scan
one_or_two_digits (a ∷ b ∷ rest) =
    if not (is_digit a)
    then none
    else if is_digit b
    then some (digit a * 10 + digit b, rest)
    else some (digit a, b ∷ rest)
one_or_two_digits (a ∷ []) = if is_digit a then some (digit a, []) else none
one_or_two_digits [] = none

four_digits : List ℕ → Scan
four_digits (a ∷ b ∷ c ∷ d ∷ rest) =
    if is_digit a && is_digit b && is_digit c && is_digit d
    then some (digit a * 1000 + digit b * 100 + digit c * 10 + digit d, rest)
    else none
four_digits _ = none

-- The value read must lie in the range.
within : ℕ → ℕ → Scan → Scan
within lo hi none = none
within lo hi (some (n, rest)) = if between lo hi n then some (n, rest) else none

-- A literal character of the layout.
skip : ℕ → List ℕ → Option (List ℕ)
skip c [] = none
skip c (x ∷ rest) = if x == c then some rest else none

cut_space : List ℕ → List ℕ
cut_space [] = []
cut_space (c ∷ rest) = if c == b' ' then cut_space rest else c ∷ rest

-- A space of the layout stands for any number of them, for none at the end of the text.
skip_space : List ℕ → Option (List ℕ)
unfolding cut_space
skip_space [] = some []
skip_space (c ∷ rest) = if c == b' ' then some (cut_space rest) else none

cut_digits : List ℕ → List ℕ
cut_digits [] = []
cut_digits (c ∷ rest) = if is_digit c then cut_digits rest else c ∷ rest

-- A fraction of a second may follow although the layout has none.
cut_fraction : List ℕ → List ℕ
unfolding cut_digits
cut_fraction (p ∷ d ∷ rest) =
    if (p == b'.' || p == b',') && is_digit d then cut_digits rest else p ∷ d ∷ rest
cut_fraction other = other

is_leap : ℕ → Bool
is_leap year = year % 4 == 0 && (not (year % 100 == 0) || year % 400 == 0)

-- daysIn
days_in : ℕ → ℕ → ℕ
unfolding is_leap
days_in month year =
    if month == 2 then (if is_leap year then 29 else 28) else 30 + (month + month / 8) % 2

infixl 5 ◌>>=◌
abbrev ◌>>=◌ : {A B : Type 0} → Option A → (A → Option B) → Option B
none >>= f = none
some a >>= f = f a

scan_date : List ℕ → Option (List ℕ)
unfolding four_digits two_digits within skip days_in
scan_date s = do
  (year, s1) ← four_digits s
  s2 ← skip b'-' s1
  (month, s3) ← within 1 12 (two_digits s2)
  s4 ← skip b'-' s3
  (day, s5) ← two_digits s4
  if between 1 (days_in month year) day then some s5 else none

scan_time : List ℕ → Option (List ℕ)
unfolding one_or_two_digits two_digits within skip cut_fraction
scan_time s = do
  (hour, s1) ← within 0 23 (one_or_two_digits s)
  s2 ← skip b':' s1
  (minute, s3) ← within 0 59 (two_digits s2)
  s4 ← skip b':' s3
  (second, s5) ← within 0 59 (two_digits s4)
  some (cut_fraction s5)

scan_datetime : List ℕ → Option (List ℕ)
unfolding scan_date skip_space scan_time
scan_datetime s = do s1 ← scan_date s; s2 ← skip_space s1; scan_time s2

pub data Layout : Type 0 where
  date_only time_only date_time : Layout

scan : Layout → List ℕ → Option (List ℕ)
unfolding scan_date scan_time scan_datetime
scan Layout.date_only = scan_date
scan Layout.time_only = scan_time
scan Layout.date_time = scan_datetime

-- All of the text is read.
abbrev is_end : Option (List ℕ) → Bool
is_end (some []) = true
is_end _ = false

-- `_, err := time.Parse(layout, text); err == nil`
unfoldable pub parses : Layout → String → Bool
unfolding scan
parses layout text = is_end (scan layout (codes text))

parses_leap_day : parses Layout.date_only "2024-02-29" ≡ true
unfolding parses
parses_leap_day = refl

refuses_leap_day : parses Layout.date_only "2023-02-29" ≡ false
unfolding parses
refuses_leap_day = refl

parses_short_hour : parses Layout.date_time "2023-12-31  7:04:05.25" ≡ true
unfolding parses
parses_short_hour = refl

pub refuses_empty : (layout : Layout) → parses layout "" ≡ false
unfolding parses
refuses_empty Layout.date_only = refl
refuses_empty Layout.time_only = refl
refuses_empty Layout.date_time = refl
