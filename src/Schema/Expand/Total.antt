-- ===== src/Schema/Expand/Total.antt =====
-- In a schema that NewSchema returned, DefaultValue and BuildTree succeed for every type that
-- resolves: the cycle checks never fire, nothing panics and the fuel suffices.
use kirby.Base.{
  ℕ, zero, suc, String, str_eq, ◌≡◌, refl, true, false, Bool, List, [], ◌∷◌, Option, none, some, ok,
  Bool-cases, Option-cases, inl, inr, arith, All, if◌then◌else◌,
}
use kirby.Keys.{add_fresh}
use kirby.Schema.Types.{
  Kind, FieldType, Field, SelectOption, Config, Json, Items, Members, Schema, Checked,
  get_structure_key,
}
use kirby.Schema.Build.{is_empty, validate_type}
use kirby.Schema.Build.Tables.{IsOption}
use kirby.Schema.Build.WellFormed.{IsWellFormed}
use kirby.Schema.Values.{enough_fuel}
use kirby.Schema.Values.Exact.{type_is_set}
use kirby.Schema.Expand.{
  TreeNode, Nodes, node, expand_fields, set_member, default_members, default_base, first_option,
  children, build_tree, default_single, default_value,
}
use kirby.Schema.Expand.Ready.{
  enum_kind-found, kind-is_set, type-is_set, IsReady, AreReady, AreReady-head, AreReady-tail,
  IsReady-Enters, IsReady-Enters_kind, IsReady_start,
}

abbrev pub Succeeds : {A : Type 0} → Checked A → Type 0
Succeeds {A} r = (a : A) × (r ≡ ok a)

first_option-Succeeds :
    (options : List (Option SelectOption))
    → is_empty options ≡ false
    → All IsOption options
    → Succeeds (first_option options)
unfolding first_option
first_option-Succeeds [] h o = cc
first_option-Succeeds (v ∷ options) h ((o, e), _) = rw e (Json.text o.value, refl)

module _ (s : Schema) (wf : IsWellFormed s) where
  default_members-Succeeds :
      (fuel : ℕ) (structures : List String) (default : Field → Checked Json)
      → ((f : Field) → IsReady s wf fuel structures f.type → Succeeds (default f))
      → (fields : List (Option Field)) (result : Members) → AreReady s wf fuel structures fields
      → Succeeds (default_members default result fields)
  unfolding default_members
  default_members-Succeeds fuel structures default step [] result r = (result, refl)
  default_members-Succeeds fuel structures default step (none ∷ fields) result r =
      let (g, e, typed) = r.typed.0 in cc
  default_members-Succeeds fuel structures default step (some f ∷ fields) result r =
      let (v, done) = step f (AreReady-head s wf f r) in
      rw done (
        default_members-Succeeds fuel structures default step fields (set_member f.key v result)
          (AreReady-tail s wf (some f) r))

  default_single-Succeeds :
      (fuel : ℕ) (structures : List String) (t : Option FieldType)
      → IsReady s wf fuel structures t
      → Succeeds (default_single s fuel structures t)
  unfolding default_single
  default_single-Succeeds zero structures t r = absurd (omega arith)
  default_single-Succeeds (suc fuel) structures none r = absurd (type-is_set s r.typed)
  default_single-Succeeds (suc fuel) structures (some t) r = elim (Option-cases t.kind) [
    | inl unset ↦ absurd (kind-is_set s t r.typed unset)
    | inr (Kind.base_type b, e) ↦ rw (e, default_single) (default_base b, refl)
    | inr (Kind.enum_key k, e) ↦
        let (c, found) = enum_kind-found s t k e r.typed in
        let choices = wf.resolved.enums k c found in
        rw (e, default_single)
          (rw found (first_option-Succeeds c.values choices.filled choices.options))
    | inr (Kind.structure_key k, e) ↦
        let n = IsReady-Enters_kind s wf fuel structures t k r e in
        let (object, done) =
          default_members-Succeeds fuel (k ∷ structures)
            (λ f.
              if f.is_array
              then ok (Json.array Items.nil)
              else default_single s fuel (k ∷ structures) f.type)
            (λ f ready. elim (Bool-cases f.is_array) [
              | inl many ↦ rw many (Json.array Items.nil, refl)
              | inr single ↦ rw single (default_single-Succeeds fuel (k ∷ structures) f.type ready)
            ])
            n.definition.fields Members.end n.inside in
        rw (e, default_single)
          (rw (n.fresh, n.found, add_fresh k structures n.fresh)
            (rw done (Json.object object, refl)))
  ]

  expand_fields-Succeeds :
      (fuel : ℕ) (structures : List String) (expand : Option FieldType → Checked Nodes)
      → ((t : Option FieldType) → IsReady s wf fuel structures t → Succeeds (expand t))
      → (fields : List (Option Field)) → AreReady s wf fuel structures fields
      → Succeeds (expand_fields expand fields)
  unfolding expand_fields
  expand_fields-Succeeds fuel structures expand step [] r = (Nodes.nil, refl)
  expand_fields-Succeeds fuel structures expand step (none ∷ fields) r =
      let (g, e, typed) = r.typed.0 in cc
  expand_fields-Succeeds fuel structures expand step (some f ∷ fields) r =
      let (below, done) = step f.type (AreReady-head s wf f r) in
      let (rest, done') =
        expand_fields-Succeeds fuel structures expand step fields (AreReady-tail s wf (some f) r) in
      (Nodes.cons (node f below) rest, rw (done, done'))

  children-Succeeds :
      (fuel : ℕ) (path : List String) (t : Option FieldType)
      → IsReady s wf fuel path t
      → Succeeds (children s fuel path t)
  unfolding children
  children-Succeeds zero path t r = absurd (omega arith)
  children-Succeeds (suc fuel) path none r = absurd (type-is_set s r.typed)
  children-Succeeds (suc fuel) path (some t) r =
      elim (Bool-cases (str_eq (get_structure_key (some t)) "")) [
        | inl unset ↦ rw unset (Nodes.nil, refl)
        | inr set ↦
            let k = get_structure_key (some t) in
            let n = IsReady-Enters s wf fuel path t r set in
            let below =
              expand_fields-Succeeds fuel (k ∷ path) (children s fuel (k ∷ path))
                (children-Succeeds fuel (k ∷ path)) n.definition.fields n.inside in
            rw (set, n.fresh, n.found, add_fresh k path n.fresh) below
      ]

  -- DefaultValue returns a value for every type that resolves.
  pub default_value_total :
      (t : Option FieldType) (is_array : Bool)
      → validate_type s t ≡ ok tt
      → (v : Json) × (default_value s t is_array ≡ ok v)
  unfolding default_value
  default_value_total t true typed = rw typed (Json.array Items.nil, refl)
  default_value_total t false typed =
      rw typed (default_single-Succeeds (enough_fuel s) [] t (IsReady_start s wf t typed))

  -- BuildTree returns a tree for every configuration whose type resolves.
  pub build_tree_total :
      (c : Config)
      → validate_type s c.type ≡ ok tt
      → (tree : TreeNode) × (build_tree s (some c) ≡ ok tree)
  unfolding build_tree
  build_tree_total c typed =
      let (below, done) =
        children-Succeeds (enough_fuel s) [] c.type (IsReady_start s wf c.type typed) in
      (
        node
            (record {
              key = c.key;
              name = "配置值";
              description = c.description;
              is_array = c.is_array;
              type = c.type;
            })
            below,
        rw (type_is_set s c.type typed, typed, done),
      )
