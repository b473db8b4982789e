-- ===== src/Schema/Build/Acyclic.antt =====
-- What validateCycles accepts has no cycle: the keys are visited in a topological order.
use kirby.Base.{
  ℕ, zero, suc, String, str_eq, eq_iff, ◌≡◌, sym, ◌∙◌, true, false, List, [], ◌∷◌, ◌++◌, some, ok,
  >>=-eq-ok, ok-injective, subst, Bool-cases, inl, inr,
}
use kirby.Keys.{contains, contains-cons, add, contains-add_old, contains-add_self}
use kirby.Dict.{Dict, lookup}
use kirby.Schema.Types.{Structure, Checked}
use kirby.Schema.Build.{Marks, walk, walk_all}
use kirby.Schema.Build.Graph.{
  dependencies, References, Reaches, one, more, walk_keys, walk_all-eq, walk_cases,
}

module _ (s : Dict Structure) where
  -- Latest first: each key stands before all that it references.
  abbrev pub IsTopological : List String → Type 0
  IsTopological [] = Unit
  IsTopological (k ∷ rest) =
      ((d : String) → References s k d → contains rest d ≡ true)
      × (contains rest k ≡ false)
      × IsTopological rest

  abbrev Grows : List String → List String → Type 0
  Grows xs ys = (k : String) → contains xs k ≡ true → contains ys k ≡ true

  abbrev Visits : (String → Marks → Checked Marks) → Type 0
  Visits visit =
      (k : String) (m m' : Marks)
      → visit k m ≡ ok m'
      → IsTopological m.visited
      → IsTopological m'.visited × Grows m.visited m'.visited × (contains m'.visited k ≡ true)

  walk_keys-Visits :
      (visit : String → Marks → Checked Marks)
      → Visits visit
      → (ks : List String) (m m' : Marks) → walk_keys visit ks m ≡ ok m'
      → IsTopological m.visited
      → IsTopological m'.visited
        × Grows m.visited m'.visited
        × ((k : String) → contains ks k ≡ true → contains m'.visited k ≡ true)
  unfolding walk_keys contains
  walk_keys-Visits visit step [] m m' h t =
      let e : m ≡ m' = ok-injective h in rw (← e) (t, λ k old. old, λ k wrong. cc)
  walk_keys-Visits visit step (k ∷ ks) m m' h t =
      let (m1, visited, rest) = >>=-eq-ok (visit k m) _ h in
      let (t1, g1, has) = step k m m1 visited t in
      let (t2, g2, all) = walk_keys-Visits visit step ks m1 m' rest t1 in
      (
        t2,
        λ j old. g2 j (g1 j old),
        λ j listed. elim (Bool-cases (str_eq k j)) [
          | inl same ↦ g2 j (subst (λ x. contains m1.visited x ≡ true) ((eq_iff k j).0 same) has)
          | inr other ↦ all j (rw other at listed)
        ],
      )

  IsTopological-add :
      (k : String) (vs : List String)
      → ((d : String) → References s k d → contains vs d ≡ true)
      → IsTopological vs
      → IsTopological (add k vs)
  unfolding add
  IsTopological-add k vs refs t = elim (Bool-cases (contains vs k)) [
    | inl old ↦ rw old t
    | inr new ↦ rw new (refs, new, t)
  ]

  dependency-named :
      (k d : String) {item : Structure}
      → lookup s k ≡ some item
      → References s k d
      → contains (dependencies item.fields) d ≡ true
  dependency-named k d {item = item'} found (other, found', named) =
      let e : other ≡ item' = cc in
      subst (λ (i : Structure). contains (dependencies i.fields) d ≡ true) e named

  walk-Visits : (fuel : ℕ) (path : List String) → Visits (walk s fuel path)
  unfolding walk
  walk-Visits zero path k m m' h t = cc
  walk-Visits (suc fuel) path k m m' h t = elim (walk_cases s fuel path k m m' h) [
    | inl (old, e) ↦ rw e (t, λ j before. before, old)
    | inr w ↦
        let (t', grows, all) =
          walk_keys-Visits (walk s fuel (path ++ k ∷ [])) (walk-Visits fuel (path ++ k ∷ []))
            (dependencies w.item.fields) _ w.after w.walked t in
        rw w.left (
          IsTopological-add k w.after.visited (λ d r. all d (dependency-named k d w.found r)) t',
          λ j before. contains-add_old k j w.after.visited (grows j before),
          contains-add_self k w.after.visited,
        )
  ]

-- Along the references of a topological order no key comes back.
module _ (s : Dict Structure) where
  References-later :
      (vs : List String) (k d : String)
      → IsTopological s vs
      → contains vs k ≡ true
      → References s k d
      → contains vs d ≡ true
  unfolding contains
  References-later [] k d t m r = cc
  References-later (v ∷ vs) k d t m r = elim (Bool-cases (str_eq v k)) [
    | inl same ↦
        contains-cons v d vs (t.0 d (subst (λ x. References s x d) (sym ((eq_iff v k).0 same)) r))
    | inr other ↦ contains-cons v d vs (References-later vs k d t.2 (rw other at m) r)
  ]

  Reaches-later :
      (vs : List String) {k d : String}
      → IsTopological s vs
      → contains vs k ≡ true
      → Reaches s k d
      → contains vs d ≡ true
  Reaches-later vs t m (one {k} {d} r) = References-later vs k d t m r
  Reaches-later vs t m (more {k} {d} r rest) =
      Reaches-later vs t (References-later vs k d t m r) rest

  Reaches-head :
      (v : String) (vs : List String) {d : String}
      → IsTopological s (v ∷ vs)
      → Reaches s v d
      → contains vs d ≡ true
  Reaches-head v vs t (one {d = d} r) = t.0 d r
  Reaches-head v vs t (more {d = d} r rest) = Reaches-later vs t.2 (t.0 d r) rest

  pub IsTopological-acyclic :
      (vs : List String) (k : String) → IsTopological s vs → contains vs k ≡ true → ¬ Reaches s k k
  unfolding contains
  IsTopological-acyclic [] k t m r = cc
  IsTopological-acyclic (v ∷ vs) k t m r = elim (Bool-cases (str_eq v k)) [
    | inl same ↦
        let e : v ≡ k = (eq_iff v k).0 same in
        let again : contains vs k ≡ true =
          Reaches-head v vs t (subst (λ x. Reaches s x k) (sym e) r) in
        let absent : contains vs k ≡ false = subst (λ x. contains vs x ≡ false) e t.1 in cc
    | inr other ↦ IsTopological-acyclic vs k t.2 (rw other at m) r
  ]

  -- A walk of every key leaves all of them in a topological order.
  pub walk_all-acyclic :
      (fuel : ℕ) (ks : List String) (m : Marks)
      → walk_all s fuel ks (record { visiting = []; visited = [] }) ≡ ok m
      → (k : String) → contains ks k ≡ true
      → ¬ Reaches s k k
  walk_all-acyclic fuel ks m h k listed =
      let start : Marks = record { visiting = []; visited = [] } in
      let (t, _, all) =
        walk_keys-Visits s (walk s fuel []) (walk-Visits s fuel []) ks start m
          (sym (walk_all-eq s fuel ks start) ∙ h) tt in
      IsTopological-acyclic m.visited k t (all k listed)
