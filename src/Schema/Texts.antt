-- ===== src/Schema/Texts.antt =====
-- server/internal/entity/schema.go: validKey, validName and the two patterns, over the code points
-- of a text. `len` counts bytes and `count` code points, as Go's len and utf8.RuneCountInString do.
use Prim.Native.String.{len, count}
use kirby.Base.{
  ℕ, String, Bool, true, false, not, ◌&&◌, ◌||◌, ltb, leb, ◌==◌, code, List, [], ◌∷◌, ◌≡◌, refl,
}

abbrev pub codes : String → List ℕ
codes String.[] = []
codes (String.◌∷◌ c s) = code c ∷ codes s

abbrev pub between : ℕ → ℕ → ℕ → Bool
between lo hi c = leb lo c && leb c hi

abbrev pub is_upper : ℕ → Bool
is_upper c = between b'A' b'Z' c

abbrev pub is_letter : ℕ → Bool
is_letter c = is_upper c || between b'a' b'z' c

abbrev pub is_digit : ℕ → Bool
is_digit c = between b'0' b'9' c

every : (ℕ → Bool) → List ℕ → Bool
every p [] = true
every p (c ∷ cs) = p c && every p cs

-- ^first rest*$
matches : (ℕ → Bool) → (ℕ → Bool) → List ℕ → Bool
unfolding every
matches first rest [] = false
matches first rest (c ∷ cs) = first c && every rest cs

-- ^[A-Za-z][A-Za-z0-9]*$
unfoldable pub schema_key_pattern : String → Bool
unfolding matches
schema_key_pattern s = matches is_letter (λ c. is_letter c || is_digit c) (codes s)

-- ^[A-Z][A-Z0-9_]*$
unfoldable pub enum_value_pattern : String → Bool
unfolding matches
enum_value_pattern s = matches is_upper (λ c. is_upper c || is_digit c || c == b'_') (codes s)

-- unicode.IsSpace
is_space : ℕ → Bool
is_space c =
    between 0x9 0xd c
    || c == 0x20
    || c == 0x85
    || c == 0xa0
    || c == 0x1680
    || between 0x2000 0x200a c
    || c == 0x2028
    || c == 0x2029
    || c == 0x202f
    || c == 0x205f
    || c == 0x3000

-- strings.TrimSpace(value) == "": nothing but spaces.
pub is_blank : String → Bool
unfolding every is_space
is_blank s = every is_space (codes s)

unfoldable pub valid_key : String → Bool
unfolding schema_key_pattern
valid_key s = leb (len s) 64 && schema_key_pattern s

unfoldable pub valid_name : String → Bool
unfolding is_blank
valid_name s = not (is_blank s) && leb (count s) 64

-- utf8.RuneCountInString(value) > 255
abbrev pub too_long : String → Bool
too_long s = ltb 255 (count s)

pub valid_key-ne-empty : valid_key "" ≡ false
unfolding valid_key
valid_key-ne-empty = refl

valid_key_accepts : valid_key "timeout2" ≡ true
unfolding valid_key
valid_key_accepts = refl

valid_key_refuses : valid_key "2nd" ≡ false
unfolding valid_key
valid_key_refuses = refl
