-- ===== src/Access/Normalize.antt =====
-- server/internal/permission/permission.go: normalize. sort.Strings sorts by bytes, which for UTF-8
-- is the order of the code points.
pub mod Order
use kirby.Base.{
  String, Char, code, str_eq, Bool, true, false, ◌&&◌, ◌||◌, ◌==◌, ltb, List, [], ◌∷◌, Option, none,
  some, if◌then◌else◌,
}

unfoldable pub str_le : String → String → Bool
str_le String.[] t = true
str_le (String.◌∷◌ c s) String.[] = false
str_le (String.◌∷◌ c s) (String.◌∷◌ d t) = ltb (code c) (code d) || (code c == code d && str_le s t)

-- strings.HasPrefix, the prefix first.
unfoldable pub starts_with : String → String → Bool
starts_with String.[] s = true
starts_with (String.◌∷◌ c p) String.[] = false
starts_with (String.◌∷◌ c p) (String.◌∷◌ d s) = code c == code d && starts_with p s

unfoldable pub insert_sorted : String → List String → List String
unfolding str_le
insert_sorted k [] = k ∷ []
insert_sorted k (j ∷ js) = if str_le k j then k ∷ j ∷ js else j ∷ insert_sorted k js

-- sort.Strings, up to its algorithm.
unfoldable pub sort_strings : List String → List String
unfolding insert_sorted
sort_strings [] = []
sort_strings (k ∷ ks) = insert_sorted k (sort_strings ks)

abbrev pub is_last : Option String → String → Bool
is_last none k = false
is_last (some j) k = str_eq j k

-- The loop of normalize; `last` is the key written last.
unfoldable pub compact : Option String → List String → List String
compact last [] = []
compact last (k ∷ ks) =
    let skipped = str_eq k "" || is_last last k in
    let rest = compact (if skipped then last else some k) ks in if skipped then rest else k ∷ rest

unfoldable pub normalize : List String → List String
unfolding sort_strings compact
normalize ks = compact none (sort_strings ks)
