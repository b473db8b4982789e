-- ===== src/Decimal/Reads.antt =====
-- Reading a printed number gives it back.
use kirby.Base.{
  ℕ, zero, suc, ◌+◌, ◌-◌, ◌*◌, ◌/◌, ◌%◌, ◌<◌, ◌≤◌, String, Char, code, true, ltb, some, ℤ, pos,
  negsuc, pos_part, neg_part, max_int64, ◌≡◌, refl, ap, ◌∙◌, arith, Bool-cases, inl, inr,
}
use kirby.Decimal.{
  digit_char, digits, format_nat, format_int, is_digit, read_digits, parse_nat, positive, negative,
  parse_int,
}

code-digit_char : (d : ℕ) → d < 10 → code (digit_char d) ≡ 48 + d
code-digit_char zero h = refl
code-digit_char (suc zero) h = refl
code-digit_char (suc (suc zero)) h = refl
code-digit_char (suc (suc (suc zero))) h = refl
code-digit_char (suc (suc (suc (suc zero)))) h = refl
code-digit_char (suc (suc (suc (suc (suc zero))))) h = refl
code-digit_char (suc (suc (suc (suc (suc (suc zero)))))) h = refl
code-digit_char (suc (suc (suc (suc (suc (suc (suc zero))))))) h = refl
code-digit_char (suc (suc (suc (suc (suc (suc (suc (suc zero)))))))) h = refl
code-digit_char (suc (suc (suc (suc (suc (suc (suc (suc (suc zero))))))))) h = refl
code-digit_char (suc (suc (suc (suc (suc (suc (suc (suc (suc (suc d)))))))))) h =
    absurd (omega arith)

read_digit :
    (n d : ℕ) (rest : String)
    → d < 10
    → read_digits n (String.◌∷◌ (digit_char d) rest) ≡ read_digits (n * 10 + d) rest
unfolding read_digits
read_digit n d rest h =
    let c = code-digit_char d h in
    let digit : is_digit (digit_char d) ≡ true = ground arith in
    let value : code (digit_char d) - 48 ≡ d = omega arith in rw (digit, value) refl

read-digits :
    (fuel n : ℕ) (rest : String)
    → n < fuel
    → read_digits 0 (digits fuel n rest) ≡ read_digits n rest
unfolding digits
read-digits zero n rest h = elim h [ ]
read-digits (suc fuel) n rest h = elim (Bool-cases (ltb n 10)) [
  | inl last ↦
      rw last (read_digit 0 n rest (ground arith) ∙ ap (λ k. read_digits k rest) (omega arith))
  | inr more ↦ rw more (
      read-digits fuel (n / 10) (String.◌∷◌ (digit_char (n % 10)) rest) (ground arith)
      ∙ (read_digit (n / 10) (n % 10) rest (omega arith)
          ∙ ap (λ k. read_digits k rest) (omega arith)))
]

digits-head :
    (fuel n : ℕ) (rest : String)
    → n < fuel
    → (c : Char) × (s : String) × (digits fuel n rest ≡ String.◌∷◌ c s) × (is_digit c ≡ true)
unfolding digits
digits-head zero n rest h = elim h [ ]
digits-head (suc fuel) n rest h = elim (Bool-cases (ltb n 10)) [
  | inl last ↦
      let c = code-digit_char n (ground arith) in (digit_char n, rest, rw last refl, ground arith)
  | inr more ↦
      let (c, s, e, digit) =
        digits-head fuel (n / 10) (String.◌∷◌ (digit_char (n % 10)) rest) (ground arith) in
      (c, s, rw more e, digit)
]

parse-cons :
    (c : Char) (s : String)
    → is_digit c ≡ true
    → parse_int (String.◌∷◌ c s) ≡ positive (read_digits 0 (String.◌∷◌ c s))
unfolding parse_int parse_nat
parse-cons c s h = ground arith

read_digits-format_nat : (n : ℕ) → read_digits 0 (format_nat n) ≡ some n
unfolding format_nat read_digits
read_digits-format_nat n = read-digits (suc n) n "" (omega arith) ∙ nothing_left n
  where
    nothing_left : (k : ℕ) → read_digits k "" ≡ some k
    nothing_left k = refl

format_nat-head :
    (n : ℕ) → (c : Char) × (s : String) × (format_nat n ≡ String.◌∷◌ c s) × (is_digit c ≡ true)
unfolding format_nat
format_nat-head n = digits-head (suc n) n "" (omega arith)

pub parse_int-format_pos : (n : ℕ) → n ≤ max_int64 → parse_int (format_int (pos n)) ≡ some (pos n)
unfolding format_int
parse_int-format_pos n h =
    let (c, s, e, digit) = format_nat-head n in
    let read : read_digits 0 (String.◌∷◌ c s) ≡ some n = rw (← e) (read_digits-format_nat n) in
    rw e (parse-cons c s digit ∙ rw read (ground arith))

parse_int-minus :
    (c : Char) (s : String)
    → parse_int (String.◌∷◌ "-" (String.◌∷◌ c s)) ≡ negative (read_digits 0 (String.◌∷◌ c s))
unfolding parse_int parse_nat
parse_int-minus c s = refl

-- A printed int64 value is read back as itself.
pub parse_int-format_int :
    (v : ℤ)
    → (pos_part v ≤ max_int64) × (neg_part v ≤ max_int64 + 1)
    → parse_int (format_int v) ≡ some v
unfolding format_int
parse_int-format_int (pos n) h = parse_int-format_pos n h.0
parse_int-format_int (negsuc n) h =
    let (c, s, e, digit) = format_nat-head (suc n) in
    let read : read_digits 0 (String.◌∷◌ c s) ≡ some (suc n) =
      rw (← e) (read_digits-format_nat (suc n)) in
    rw e (parse_int-minus c s ∙ rw read (ground arith))
