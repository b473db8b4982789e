-- ===== src/Text.antt =====
-- strings.Split at one character, strings.Join and strings.TrimSpace.
use kirby.Base.{ℕ, String, Char, code, Bool, ◌||◌, ◌&&◌, ◌==◌, leb, List, [], ◌∷◌, if◌then◌else◌}
use Prim.Native.String.{◌++◌}

unfoldable pub join : String → List String → String
join separator [] = ""
join separator (s ∷ []) = s
join separator (s ∷ t ∷ rest) = s ++ (separator ++ join separator (t ∷ rest))

-- A character before the first of the parts.
abbrev pub prepend : Char → List String → List String
prepend c [] = String.◌∷◌ c "" ∷ []
prepend c (s ∷ rest) = String.◌∷◌ c s ∷ rest

unfoldable pub split : ℕ → String → List String
split at String.[] = "" ∷ []
split at (String.◌∷◌ c s) =
    let rest = split at s in if code c == at then "" ∷ rest else prepend c rest

-- unicode.IsSpace
unfoldable pub is_space : Char → Bool
is_space c =
    (leb 9 (code c) && leb (code c) 13)
    || code c == 32
    || code c == 0x85
    || code c == 0xA0
    || code c == 0x1680
    || (leb 0x2000 (code c) && leb (code c) 0x200A)
    || code c == 0x2028
    || code c == 0x2029
    || code c == 0x202F
    || code c == 0x205F
    || code c == 0x3000

unfoldable pub trim_left : String → String
unfolding is_space
trim_left String.[] = ""
trim_left (String.◌∷◌ c s) = let rest = trim_left s in if is_space c then rest else String.◌∷◌ c s

-- Without the spaces at the end.
abbrev pub keep_before : Char → String → String
keep_before c String.[] = if is_space c then "" else String.◌∷◌ c ""
keep_before c (String.◌∷◌ d s) = String.◌∷◌ c (String.◌∷◌ d s)

unfoldable pub trim_right : String → String
trim_right String.[] = ""
trim_right (String.◌∷◌ c s) = keep_before c (trim_right s)

unfoldable pub trim_space : String → String
unfolding trim_left trim_right
trim_space s = trim_right (trim_left s)
