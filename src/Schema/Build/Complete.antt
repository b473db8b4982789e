-- ===== src/Schema/Build/Complete.antt =====
-- The walk of validateCycles ends within its fuel and its only error is that of a real cycle.
use kirby.Base.{
  ℕ, zero, suc, ◌<◌, String, str_eq, eq_iff, ◌≡◌, refl, ◌∙◌, subst, true, false, List, [], ◌∷◌,
  ◌++◌, ok, err, ◌>>=◌, Bool-cases, ◌⊎◌, inl, inr, arith, ap,
}
use kirby.Keys.{
  contains, contains-cons, contains-cons_self, add, remove, add_fresh, remove-cons_self, remaining,
  remaining-cons-lt,
}
use kirby.Dict.{Dict, keys, lookup_of_contains-keys}
use kirby.Schema.Types.{Structure, Checked, Message, conflict}
use kirby.Schema.Build.{Marks, walk}
use kirby.Schema.Build.Graph.{
  dependencies, References, Reaches, one, Reaches-snoc, walk_keys, walk_fields-eq,
}

module _ (s : Dict Structure) where
  -- Success that leaves the path as it was, or the report of a cycle that is there.
  abbrev pub IsOutcome : List String → Checked Marks → Type 0
  IsOutcome v r =
      ((m : Marks) × (r ≡ ok m) × (m.visiting ≡ v))
      ⊎ ((path : List String) × (k : String) × (r ≡ err (conflict (Message.structure_cycle path)))
          × Reaches s k k)

  pub walk_keys-IsOutcome :
      (visit : String → Marks → Checked Marks) (v : List String) (ks : List String)
      → ((d : String) (m : Marks) → contains ks d ≡ true → m.visiting ≡ v → IsOutcome v (visit d m))
      → (m : Marks) → m.visiting ≡ v
      → IsOutcome v (walk_keys visit ks m)
  unfolding walk_keys
  walk_keys-IsOutcome visit v [] step m e = inl (m, refl, e)
  walk_keys-IsOutcome visit v (k ∷ ks) step m e = elim (step k m (contains-cons_self k ks) e) [
    | inl (m1, done, e1) ↦ rw done (
        walk_keys-IsOutcome visit v ks (λ d m2 listed. step d m2 (contains-cons k d ks listed)) m1
          e1)
    | inr (path, c, failed, cycle) ↦ inr (path, c, rw failed, cycle)
  ]

  finish-IsOutcome :
      (key : String) (v : List String) (r : Checked Marks)
      → contains v key ≡ false
      → IsOutcome (key ∷ v) r
      → IsOutcome v (
          r >>= λ after.
          ok (record { visiting = remove key after.visiting; visited = add key after.visited }))
  finish-IsOutcome key v r fresh (inl (m, done, e)) =
      rw done (inl (_, refl, ap (remove key) e ∙ remove-cons_self key v fresh))
  finish-IsOutcome key v r fresh (inr (path, k, failed, cycle)) = inr (path, k, rw failed, cycle)

  -- The keys on the path above a reference of `key` reach what it references.
  above-cons :
      (key d : String) (v : List String)
      → ((x : String) → contains v x ≡ true → Reaches s x key)
      → References s key d
      → (x : String) → contains (key ∷ v) x ≡ true
      → Reaches s x d
  unfolding contains
  above-cons key d v above r x listed = elim (Bool-cases (str_eq key x)) [
    | inl same ↦ one (subst (λ y. References s y d) ((eq_iff key x).0 same) r)
    | inr other ↦ Reaches-snoc s (above x (rw other at listed)) r
  ]

  module _ (defined : (k d : String) → References s k d → contains (keys s) d ≡ true) where
    pub walk-IsOutcome :
        (fuel : ℕ) (path : List String) (key : String) (m : Marks)
        → contains (keys s) key ≡ true
        → remaining (keys s) m.visiting < fuel
        → ((x : String) → contains m.visiting x ≡ true → Reaches s x key)
        → IsOutcome m.visiting (walk s fuel path key m)
    unfolding walk
    walk-IsOutcome zero path key m known enough above = absurd (omega arith)
    walk-IsOutcome (suc fuel) path key m known enough above =
        elim (Bool-cases (contains m.visiting key)) [
          | inl busy ↦ inr (path ++ key ∷ [], key, rw (busy, walk), above key busy)
          | inr fresh ↦ elim (Bool-cases (contains m.visited key)) [
            | inl old ↦ inl (m, rw (fresh, old, walk), refl)
            | inr new ↦
                let (item, found) = lookup_of_contains-keys key s known in
                let inner : List String = key ∷ m.visiting in
                rw (fresh, new, found, walk, walk_fields-eq, add_fresh key m.visiting fresh)
                  (finish-IsOutcome key m.visiting _ fresh (
                    walk_keys-IsOutcome (walk s fuel (path ++ key ∷ [])) inner
                      (dependencies item.fields)
                      (λ d m2 listed e.
                        let r : References s key d = (item, found, listed) in
                        subst (λ v. IsOutcome v (walk s fuel (path ++ key ∷ []) d m2)) e
                          (walk-IsOutcome fuel (path ++ key ∷ []) d m2 (defined key d r)
                            (rw e (
                              omega (arith, remaining-cons-lt (keys s) key m.visiting known fresh)))
                            (rw e (above-cons key d m.visiting above r))))
                      _ refl))
          ]
        ]
