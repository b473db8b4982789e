-- ===== src/Schema/Build/Graph.antt =====
-- The graph that the structures' fields span, and the loops of validateCycles as walks over keys.
use kirby.Base.{
  ℕ, suc, String, str_eq, ◌≡◌, refl, sym, ◌∙◌, true, false, List, [], ◌∷◌, ◌++◌, Option, some, ok,
  ◌>>=◌, >>=-eq-ok, ok-injective, if◌then◌else◌, Bool-cases, Option-cases, ◌⊎◌, inl, inr,
}
use kirby.Keys.{contains, add, remove}
use kirby.Dict.{Dict, lookup}
use kirby.Schema.Types.{Field, Structure, Checked, get_type, get_structure_key}
use kirby.Schema.Build.{Marks, walk_fields, walk, walk_all}

-- The structure keys that a list of fields names.
unfoldable pub dependencies : List (Option Field) → List String
dependencies [] = []
dependencies (f ∷ fields) =
    let dependency = get_structure_key (get_type f) in
    if str_eq dependency "" then dependencies fields else dependency ∷ dependencies fields

-- A field of the structure `k` has the type `d`.
abbrev pub References : Dict Structure → String → String → Type 0
References m k d =
    (item : Structure) × (lookup m k ≡ some item) × (contains (dependencies item.fields) d ≡ true)

-- A chain of one or more references.
pub data Reaches (m : Dict Structure) : String → String → Type 0 where
  one : {k d : String} → References m k d → Reaches m k d
  more : {k d e : String} → References m k d → Reaches m d e → Reaches m k e

pub Reaches-snoc :
    (m : Dict Structure) {k d e : String} → Reaches m k d → References m d e → Reaches m k e
Reaches-snoc m (one r) l = more r (one l)
Reaches-snoc m (more r s) l = more r (Reaches-snoc m s l)

unfoldable pub walk_keys : (String → Marks → Checked Marks) → List String → Marks → Checked Marks
walk_keys visit [] m = ok m
walk_keys visit (k ∷ ks) m = visit k m >>= walk_keys visit ks

pub walk_fields-eq :
    (visit : String → Marks → Checked Marks) (fields : List (Option Field)) (m : Marks)
    → walk_fields visit fields m ≡ walk_keys visit (dependencies fields) m
unfolding walk_fields walk_keys dependencies
walk_fields-eq visit [] m = refl
walk_fields-eq visit (f ∷ fields) m =
    elim (Bool-cases (str_eq (get_structure_key (get_type f)) "")) [
      | inl e ↦ rw e (walk_fields-eq visit fields m)
      | inr e ↦
          rw e (λ i.
            visit (get_structure_key (get_type f)) m >>= λ m'. walk_fields-eq visit fields m' i)
    ]

pub walk_all-eq :
    (s : Dict Structure) (fuel : ℕ) (ks : List String) (m : Marks)
    → walk_all s fuel ks m ≡ walk_keys (walk s fuel []) ks m
unfolding walk_all walk_keys
walk_all-eq s fuel [] m = refl
walk_all-eq s fuel (k ∷ ks) m = λ i. walk s fuel [] k m >>= λ m'. walk_all-eq s fuel ks m' i

-- One call of `walk` that succeeds: the key was visited before, or its dependencies are walked.
pub record Entered (s : Dict Structure) (fuel : ℕ) (path : List String) (k : String) (m m' : Marks)
    : Type 0 where
  pub item : Structure
  pub after : Marks
  pub found : lookup s k ≡ some item
  pub fresh : contains m.visiting k ≡ false
  pub walked :
      walk_keys
        (walk s fuel (path ++ k ∷ []))
        (dependencies item.fields)
        (record m { visiting = add k m.visiting })
      ≡ ok after
  pub left : m' ≡ record { visiting = remove k after.visiting; visited = add k after.visited }

pub walk_cases :
    (s : Dict Structure) (fuel : ℕ) (path : List String) (k : String) (m m' : Marks)
    → walk s (suc fuel) path k m ≡ ok m'
    → (contains m.visited k ≡ true) × (m' ≡ m) ⊎ Entered s fuel path k m m'
unfolding walk
walk_cases s fuel path k m m' h = elim (Bool-cases (contains m.visiting k)) [
  | inl busy ↦ let wrong = rw (busy, walk) at h in cc
  | inr fresh ↦ elim (Bool-cases (contains m.visited k)) [
    | inl old ↦ inl (old, sym (ok-injective (rw (fresh, old, walk) at h)))
    | inr new ↦ elim (Option-cases (lookup s k)) [
      | inl missing ↦ let wrong = rw (fresh, new, missing, walk) at h in cc
      | inr (item, found) ↦
          let (after, walked, left) = >>=-eq-ok _ _ (rw (fresh, new, found, walk) at h) in
          inr (record {
            item = item;
            after = after;
            found = found;
            fresh = fresh;
            walked = sym (walk_fields-eq _ item.fields _) ∙ walked;
            left = sym (ok-injective left);
          })
    ]
  ]
]
