-- ===== src/Keys.antt =====
-- server/internal/util/set/hashset.go at `string`: a set of keys is the list of its members.
use kirby.Base.{
  ℕ, suc, ◌<◌, ◌≤◌, String, str_eq, eq_iff, eq_refl, ◌≡◌, refl, Bool, true, false, not, ◌&&◌, ◌||◌,
  List, [], ◌∷◌, arith, if◌then◌else◌, length,
}

unfoldable pub contains : List String → String → Bool
contains [] k = false
contains (x ∷ xs) k = str_eq x k || contains xs k

-- `Add` leaves a member alone.
unfoldable pub add : String → List String → List String
add k s = if contains s k then s else k ∷ s

unfoldable pub remove : String → List String → List String
remove k [] = []
remove k (x ∷ xs) = if str_eq x k then remove k xs else x ∷ remove k xs

pub contains-cons :
    (k j : String) (s : List String) → contains s j ≡ true → contains (k ∷ s) j ≡ true
unfolding contains
contains-cons k j s h = ground arith

pub contains-cons_self : (k : String) (s : List String) → contains (k ∷ s) k ≡ true
unfolding contains
contains-cons_self k s = rw (eq_refl k)

pub contains-add :
    (k j : String) (s : List String) → contains (add k s) j ≡ (str_eq k j || contains s j)
unfolding contains add
contains-add k j s = ground (arith, eq_iff k j)

pub add_fresh : (k : String) (s : List String) → contains s k ≡ false → add k s ≡ k ∷ s
unfolding add
add_fresh k s h = rw h

pub contains-add_self : (k : String) (s : List String) → contains (add k s) k ≡ true
contains-add_self k s = rw (contains-add k k s) (rw (eq_refl k))

pub contains-add_old :
    (k j : String) (s : List String) → contains s j ≡ true → contains (add k s) j ≡ true
contains-add_old k j s h = rw (contains-add k j s) (ground (arith, h))

pub contains-remove :
    (k j : String) (s : List String) → contains (remove k s) j ≡ (not (str_eq k j) && contains s j)
unfolding contains remove
contains-remove k j [] = ground arith
contains-remove k j (x ∷ s) =
    ground (arith, eq_iff x k, eq_iff x j, eq_iff k j, contains-remove k j s)

pub remove_absent : (k : String) (s : List String) → contains s k ≡ false → remove k s ≡ s
unfolding contains remove
remove_absent k [] h = refl
remove_absent k (x ∷ s) h = ground (arith, eq_iff x k, remove_absent k s)

pub remove-cons_self : (k : String) (s : List String) → contains s k ≡ false → remove k (k ∷ s) ≡ s
unfolding remove
remove-cons_self k s h = ground (arith, eq_refl k, remove_absent k s)

-- How many of the listed keys are not in the set.
unfoldable pub remaining : List String → List String → ℕ
remaining [] s = 0
remaining (x ∷ xs) s = if contains s x then remaining xs s else suc (remaining xs s)

pub remaining-le : (ks : List String) (s : List String) → remaining ks s ≤ length ks
unfolding remaining
remaining-le [] s = omega arith
remaining-le (x ∷ ks) s = ground (arith, remaining-le ks s)

pub remaining-cons-le :
    (ks : List String) (k : String) (s : List String) → remaining ks (k ∷ s) ≤ remaining ks s
unfolding remaining contains
remaining-cons-le [] k s = omega arith
remaining-cons-le (x ∷ ks) k s = ground (arith, remaining-cons-le ks k s)

-- A listed key that joins the set leaves fewer.
pub remaining-cons-lt :
    (ks : List String) (k : String) (s : List String)
    → contains ks k ≡ true
    → contains s k ≡ false
    → remaining ks (k ∷ s) < remaining ks s
unfolding remaining contains
remaining-cons-lt [] k s h n = ground arith
remaining-cons-lt (x ∷ ks) k s h n =
    ground (arith, eq_iff x k, eq_iff k x, remaining-cons-le ks k s, remaining-cons-lt ks k s)
