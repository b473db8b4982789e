-- ===== src/Access/Generations/Ids.antt =====
-- The sorted IDs: the same ones, each once.
use kirby.Base.{
  ℕ, ◌<◌, ◌≤◌, true, false, ◌||◌, ◌==◌, leb, ==_iff, List, [], ◌∷◌, Option, none, some, ◌≡◌, refl,
  ap, ◌∙◌, inl, inr, Bool-cases, arith,
}
use kirby.Access.Generations.{has_id, insert_id, sort_ids, is_repeat, compact_ids}

abbrev IsSortedFrom : ℕ → List ℕ → Type 0
IsSortedFrom i [] = Unit
IsSortedFrom i (j ∷ js) = (i ≤ j) × IsSortedFrom j js

abbrev IsSorted : List ℕ → Type 0
IsSorted [] = Unit
IsSorted (i ∷ is) = IsSortedFrom i is

abbrev pub IsAboveFrom : ℕ → List ℕ → Type 0
IsAboveFrom i [] = Unit
IsAboveFrom i (j ∷ js) = (i < j) × IsAboveFrom j js

abbrev pub IsAscending : List ℕ → Type 0
IsAscending [] = Unit
IsAscending (i ∷ is) = IsAboveFrom i is

insert_id-from :
    (i k : ℕ) (ks : List ℕ) → i ≤ k → IsSortedFrom i ks → IsSortedFrom i (insert_id k ks)
unfolding insert_id
insert_id-from i k [] h s = (h, tt)
insert_id-from i k (j ∷ js) h s = elim (Bool-cases (leb k j)) [
  | inl before ↦ rw before (h, (ground arith, s.1))
  | inr after ↦ rw after (s.0, insert_id-from j k js (ground arith) s.1)
]

insert_id-IsSorted : (k : ℕ) (ks : List ℕ) → IsSorted ks → IsSorted (insert_id k ks)
unfolding insert_id
insert_id-IsSorted k [] s = tt
insert_id-IsSorted k (j ∷ js) s = elim (Bool-cases (leb k j)) [
  | inl before ↦ rw before (ground arith, s)
  | inr after ↦ rw after (insert_id-from j k js (ground arith) s)
]

sort_ids-IsSorted : (ks : List ℕ) → IsSorted (sort_ids ks)
unfolding sort_ids
sort_ids-IsSorted [] = tt
sort_ids-IsSorted (k ∷ ks) = insert_id-IsSorted k (sort_ids ks) (sort_ids-IsSorted ks)

has_id-insert_id : (k j : ℕ) (ks : List ℕ) → has_id j (insert_id k ks) ≡ (k == j || has_id j ks)
unfolding has_id insert_id
has_id-insert_id k j [] = refl
has_id-insert_id k j (i ∷ is) = ground (arith, has_id-insert_id k j is)

has_id-sort_ids : (ks : List ℕ) (j : ℕ) → has_id j (sort_ids ks) ≡ has_id j ks
unfolding has_id sort_ids
has_id-sort_ids [] j = refl
has_id-sort_ids (k ∷ ks) j =
    has_id-insert_id k j (sort_ids ks) ∙ ap (λ b. k == j || b) (has_id-sort_ids ks j)

compact_ids-above :
    (k : ℕ) (ks : List ℕ) → IsSortedFrom k ks → IsAboveFrom k (compact_ids (some k) ks)
unfolding compact_ids
compact_ids-above k [] s = tt
compact_ids-above k (j ∷ js) s = elim (Bool-cases (k == j)) [
  | inl same ↦ let e : k ≡ j = (==_iff k j).0 same in rw (e, ==_self j) (compact_ids-above j js s.1)
  | inr other ↦ rw other (ground arith, compact_ids-above j js s.1)
]
  where
    ==_self : (n : ℕ) → (n == n) ≡ true
    ==_self n = ground arith

compact_ids-IsAscending : (ks : List ℕ) → IsSorted ks → IsAscending (compact_ids none ks)
unfolding compact_ids
compact_ids-IsAscending [] s = tt
compact_ids-IsAscending (k ∷ ks) s = compact_ids-above k ks s

has_id-compact_ids :
    (last : Option ℕ) (ks : List ℕ) (j : ℕ)
    → (is_repeat last j || has_id j (compact_ids last ks)) ≡ (is_repeat last j || has_id j ks)
unfolding has_id compact_ids
has_id-compact_ids last [] j = refl
has_id-compact_ids none (k ∷ ks) j = ground (arith, has_id-compact_ids (some k) ks j)
has_id-compact_ids (some l) (k ∷ ks) j = ground (arith, has_id-compact_ids (some k) ks j)

pub distinct_ids : (ks : List ℕ) → IsAscending (compact_ids none (sort_ids ks))
distinct_ids ks = compact_ids-IsAscending (sort_ids ks) (sort_ids-IsSorted ks)

pub has_id-distinct_ids :
    (ks : List ℕ) (j : ℕ) → has_id j (compact_ids none (sort_ids ks)) ≡ has_id j ks
has_id-distinct_ids ks j = has_id-compact_ids none (sort_ids ks) j ∙ has_id-sort_ids ks j

-- What stands at or below the first of ascending IDs is none of the later ones.
pub has_id-above : (i k : ℕ) (ks : List ℕ) → i ≤ k → IsAboveFrom k ks → has_id i ks ≡ false
unfolding has_id
has_id-above i k [] h a = refl
has_id-above i k (j ∷ js) h a = ground (arith, has_id-above i j js)
