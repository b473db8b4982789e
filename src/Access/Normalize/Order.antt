-- ===== src/Access/Normalize/Order.antt =====
-- What normalize returns: the keys without the empty one, ascending and each once.
use kirby.Base.{
  String, str_eq, eq_iff, true, false, not, ◌&&◌, ◌||◌, List, [], ◌∷◌, Option, none, some, ◌≡◌,
  refl, sym, ap, ◌∙◌, subst, Bool-cases, inl, inr, arith,
}
use kirby.Keys.{contains}
use kirby.Access.Normalize.{str_le, insert_sorted, sort_strings, is_last, compact, normalize}

str_le_total : (a b : String) → str_le a b ≡ false → str_le b a ≡ true
unfolding str_le
str_le_total String.[] b h = cc
str_le_total (String.◌∷◌ c s) String.[] h = refl
str_le_total (String.◌∷◌ c s) (String.◌∷◌ d t) h = ground (arith, str_le_total s t)

str_le_empty : (k : String) → str_le k "" ≡ true → str_eq k "" ≡ true
unfolding str_le
str_le_empty String.[] h = refl
str_le_empty (String.◌∷◌ c s) h = cc

-- Each key is at most the next one.
abbrev IsSortedFrom : String → List String → Type 0
IsSortedFrom k [] = Unit
IsSortedFrom k (j ∷ js) = (str_le k j ≡ true) × IsSortedFrom j js

abbrev IsSorted : List String → Type 0
IsSorted [] = Unit
IsSorted (k ∷ ks) = IsSortedFrom k ks

-- Each key is less than the next one.
abbrev pub IsAscendingFrom : String → List String → Type 0
IsAscendingFrom k [] = Unit
IsAscendingFrom k (j ∷ js) = (str_le k j ≡ true) × (str_eq k j ≡ false) × IsAscendingFrom j js

abbrev pub IsAscending : List String → Type 0
IsAscending [] = Unit
IsAscending (k ∷ ks) = IsAscendingFrom k ks

insert_sorted-from :
    (i k : String) (ks : List String)
    → str_le i k ≡ true
    → IsSortedFrom i ks
    → IsSortedFrom i (insert_sorted k ks)
unfolding insert_sorted
insert_sorted-from i k [] h s = (h, tt)
insert_sorted-from i k (j ∷ js) h s = elim (Bool-cases (str_le k j)) [
  | inl before ↦ rw before (h, (before, s.1))
  | inr after ↦ rw after (s.0, insert_sorted-from j k js (str_le_total k j after) s.1)
]

insert_sorted-IsSorted :
    (k : String) (ks : List String) → IsSorted ks → IsSorted (insert_sorted k ks)
unfolding insert_sorted
insert_sorted-IsSorted k [] s = tt
insert_sorted-IsSorted k (j ∷ js) s = elim (Bool-cases (str_le k j)) [
  | inl before ↦ rw before (before, s)
  | inr after ↦ rw after (insert_sorted-from j k js (str_le_total k j after) s)
]

sort_strings-IsSorted : (ks : List String) → IsSorted (sort_strings ks)
unfolding sort_strings
sort_strings-IsSorted [] = tt
sort_strings-IsSorted (k ∷ ks) =
    insert_sorted-IsSorted k (sort_strings ks) (sort_strings-IsSorted ks)

contains-insert_sorted :
    (k j : String) (ks : List String)
    → contains (insert_sorted k ks) j ≡ (str_eq k j || contains ks j)
unfolding insert_sorted contains
contains-insert_sorted k j [] = refl
contains-insert_sorted k j (i ∷ is) = elim (Bool-cases (str_le k i)) [
  | inl before ↦ rw before refl
  | inr after ↦ rw (after, contains-insert_sorted k j is) (ground arith)
]

contains-sort_strings :
    (ks : List String) (j : String) → contains (sort_strings ks) j ≡ contains ks j
unfolding sort_strings contains
contains-sort_strings [] j = refl
contains-sort_strings (k ∷ ks) j =
    contains-insert_sorted k j (sort_strings ks)
    ∙ ap (λ b. str_eq k j || b) (contains-sort_strings ks j)

compact-from :
    (k : String) (ks : List String)
    → str_eq k "" ≡ false
    → IsSortedFrom k ks
    → IsAscendingFrom k (compact (some k) ks)
unfolding compact
compact-from k [] full s = tt
compact-from k (j ∷ js) full s = elim (Bool-cases (str_eq j "")) [
  | inl empty ↦
      let e : j ≡ "" = (eq_iff j "").0 empty in
      let below : str_le k "" ≡ true = rw (← e) s.0 in let wrong = str_le_empty k below in cc
  | inr filled ↦ elim (Bool-cases (str_eq k j)) [
    | inl same ↦
        let e : k ≡ j = (eq_iff k j).0 same in
        rw (filled, same) (compact-from k js full (subst (λ x. IsSortedFrom x js) (sym e) s.1))
    | inr other ↦ rw (filled, other) (s.0, other, compact-from j js filled s.1)
  ]
]

compact-IsAscending : (ks : List String) → IsSorted ks → IsAscending (compact none ks)
unfolding compact
compact-IsAscending [] s = tt
compact-IsAscending (k ∷ ks) s = elim (Bool-cases (str_eq k "")) [
  | inl empty ↦ rw empty (compact-IsAscending ks (IsSorted-tail k ks s))
  | inr filled ↦ rw filled (compact-from k ks filled s)
]
  where
    IsSorted-tail : (x : String) (xs : List String) → IsSortedFrom x xs → IsSorted xs
    IsSorted-tail x [] h = tt
    IsSorted-tail x (y ∷ ys) h = h.1

is_last-eq :
    (last : Option String) (k j : String) → is_last last k ≡ true → is_last last j ≡ str_eq k j
is_last-eq none k j h = cc
is_last-eq (some i) k j h = let e : i ≡ k = (eq_iff i k).0 h in rw e refl

contains-compact :
    (last : Option String) (ks : List String) (j : String)
    → (is_last last j || contains (compact last ks) j)
      ≡ (is_last last j || (contains ks j && not (str_eq j "")))
unfolding compact contains
contains-compact last [] j = refl
contains-compact last (k ∷ ks) j = elim (Bool-cases (str_eq k "")) [
  | inl empty ↦
      rw empty (ground (arith, contains-compact last ks j, eq_iff k j, eq_iff k "", eq_iff j ""))
  | inr filled ↦ elim (Bool-cases (is_last last k)) [
    | inl same ↦
        rw (filled, same)
          (ground
            (arith, contains-compact last ks j, is_last-eq last k j same, eq_iff k j, eq_iff k ""))
    | inr other ↦
        rw (filled, other)
          (ground (arith, contains-compact (some k) ks j, eq_iff k j, eq_iff k "", eq_iff j ""))
  ]
]

-- The result is strictly ascending, and a key is in it exactly when it was given and is not empty.
pub normalize_keys :
    (ks : List String)
    → IsAscending (normalize ks)
      × ((j : String) → contains (normalize ks) j ≡ (contains ks j && not (str_eq j "")))
unfolding normalize
normalize_keys ks = (
  compact-IsAscending (sort_strings ks) (sort_strings-IsSorted ks),
  λ j.
      contains-compact none (sort_strings ks) j
      ∙ ap (λ b. b && not (str_eq j "")) (contains-sort_strings ks j),
)
