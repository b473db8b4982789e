-- ===== src/Schema/Build/Accepts.antt =====
-- NewSchema as a whole: what it accepts is well formed, and it accepts all that it should.
use kirby.Base.{
  suc, String, ◌≡◌, refl, sym, ◌∙◌, subst, true, List, [], Option, Result, ok, err, >>=-eq-ok,
  ok-injective, ◌⊎◌, inl, inr, arith, length,
}
use kirby.Keys.{contains, remaining-le}
use kirby.Dict.{Dict, keys, contains-keys_of_some}
use kirby.Schema.Types.{Structure, ConfigEnum, Schema, Error, Message, conflict}
use kirby.Schema.Build.{
  Marks, add_structures, add_enums, validate_all_fields, walk, walk_all, validate_cycles,
  new_schema,
}
use kirby.Schema.Build.Graph.{Reaches, one, more, walk_all-eq}
use kirby.Schema.Build.Acyclic.{walk_all-acyclic}
use kirby.Schema.Build.Complete.{walk_keys-IsOutcome, walk-IsOutcome, IsOutcome}
use kirby.Schema.Build.WellFormed.{
  IsResolved, IsWellFormed, IsLoaded, IsLoaded-IsResolved, References-resolved,
}

abbrev start : Marks
start = record { visiting = []; visited = [] }

-- A key on a cycle is in the table.
Reaches-known : (m : Dict Structure) {k d : String} → Reaches m k d → contains (keys m) k ≡ true
Reaches-known m (one {k} (item, found, _)) = contains-keys_of_some k m found
Reaches-known m (more {k} (item, found, _) _) = contains-keys_of_some k m found

module _ (range_keys : List String → List String)
    (range_lists : (ks : List String) (k : String)
      → contains (range_keys ks) k ≡ contains ks k) where
  module _ (s : Schema) where
    abbrev cycle_walk : Result Error Marks
    cycle_walk =
        walk_all s.structures (suc (length (keys s.structures))) (range_keys (keys s.structures))
          start

    cycle_walk-IsOutcome : IsResolved s → IsOutcome s.structures [] cycle_walk
    unfolding contains
    cycle_walk-IsOutcome r = rw walk_all-eq (
        walk_keys-IsOutcome s.structures (walk s.structures (suc (length (keys s.structures))) [])
          [] _
          (λ d m listed e.
            subst
              (λ v.
                IsOutcome s.structures v
                  (walk s.structures (suc (length (keys s.structures))) [] d m))
              e
              (walk-IsOutcome s.structures (References-resolved s r)
                (suc (length (keys s.structures))) [] d m
                (sym (range_lists (keys s.structures) d) ∙ listed)
                (omega (arith, remaining-le (keys s.structures) m.visiting))
                (λ x busy. let wrong = rw (e, contains) at busy in cc)))
          start refl)

    -- validateCycles accepts a table without cycles, and reports a cycle that is there otherwise.
    validate_cycles_cases :
        IsResolved s
        → (validate_cycles range_keys s ≡ ok tt) × ((k : String) → ¬ Reaches s.structures k k)
          ⊎ ((path : List String) × (k : String) × (validate_cycles range_keys s
                ≡ err (conflict (Message.structure_cycle path)))
              × Reaches s.structures k k)
    unfolding validate_cycles
    validate_cycles_cases r = elim (cycle_walk-IsOutcome r) [
      | inl (m, done, _) ↦ inl (
        rw done,
        λ k loop.
            walk_all-acyclic s.structures (suc (length (keys s.structures)))
              (range_keys (keys s.structures)) m done k
              (range_lists (keys s.structures) k ∙ Reaches-known s.structures loop) loop,
      )
      | inr (path, k, failed, loop) ↦ inr (path, k, rw failed, loop)
    ]

  module _ (structures : List (Option Structure)) (enums : List (Option ConfigEnum)) where
    new_schema_cases :
        (s : Schema)
        → new_schema range_keys structures enums ≡ ok s
        → IsLoaded structures enums s × (validate_cycles range_keys s ≡ ok tt)
    unfolding new_schema
    new_schema_cases s h =
        let (m, maps, h1) = >>=-eq-ok (add_structures [] structures) _ h in
        let (n, filled, h2) = >>=-eq-ok (add_enums [] enums) _ h1 in
        let t : Schema = record { structures = m; enums = n } in
        let (_, valid, h3) = >>=-eq-ok (validate_all_fields t structures) _ h2 in
        let (_, acyclic, h4) = >>=-eq-ok (validate_cycles range_keys t) _ h3 in
        let e : t ≡ s = ok-injective h4 in
        rw (← e) (record { structure_map = maps; enum_map = filled; fields_valid = valid }, acyclic)

    -- A schema that NewSchema returns resolves all of its references and has no cycle of them.
    pub new_schema-IsWellFormed :
        (s : Schema) → new_schema range_keys structures enums ≡ ok s → IsWellFormed s
    new_schema-IsWellFormed s h =
        let (loaded, accepted) = new_schema_cases s h in
        let r = IsLoaded-IsResolved structures enums s loaded in
        record {
          resolved = r;
          acyclic = elim (validate_cycles_cases s r) [
            | inl (_, acyclic) ↦ acyclic
            | inr (path, k, failed, loop) ↦ let wrong = sym accepted ∙ failed in cc
          ];
        }

    -- Definitions that pass the other checks are accepted if no structure reaches itself, and
    -- rejected as a cycle if one does.
    pub new_schema-decides-cycles :
        (s : Schema)
        → IsLoaded structures enums s
        → (new_schema range_keys structures enums ≡ ok s)
            × ((k : String) → ¬ Reaches s.structures k k)
          ⊎ ((path : List String) × (k : String) × (new_schema range_keys structures enums
                ≡ err (conflict (Message.structure_cycle path)))
              × Reaches s.structures k k)
    unfolding new_schema
    new_schema-decides-cycles s l =
        elim (validate_cycles_cases s (IsLoaded-IsResolved structures enums s l)) [
          | inl (accepted, acyclic) ↦
              inl (rw (l.structure_map, l.enum_map, l.fields_valid, accepted), acyclic)
          | inr (path, k, failed, loop) ↦
              inr (path, k, rw (l.structure_map, l.enum_map, l.fields_valid, failed), loop)
        ]
