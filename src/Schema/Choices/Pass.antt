-- ===== src/Schema/Choices/Pass.antt =====
-- The chain of dependents that FilterStructureChoices drops, and one pass over the items.
use mathlib.Core.List.{Memᴰ}
use kirby.Base.{
  ◌<◌, ◌≤◌, String, str_eq, eq_iff, ◌≡◌, refl, sym, subst, true, false, Bool, List, [], ◌∷◌, map,
  Option, Bool-cases, inl, inr, ◌⊎◌, arith, All,
}
use kirby.Keys.{
  contains, add, add_fresh, contains-add_old, contains-cons, contains-cons_self, remaining,
  remaining-cons-le, remaining-cons-lt,
}
use kirby.Schema.Types.{Field, Structure, get_type, get_structure_key}
use kirby.Schema.Choices.{references_rejected, skips, reject_dependents}

-- The structure keys that the types of the fields name ("" where a type names none).
abbrev pub type_keys : List (Option Field) → List String
type_keys fields = map (λ f. get_structure_key (get_type f)) fields

-- The key is the ignored one, or one of an item with a field whose type is rejected.
pub data IsRejected (items : List Structure) (ignored : String) : String → Type 0 where
  self : IsRejected items ignored ignored
  dependent :
      {d : String} (item : Structure)
      → Memᴰ item items
      → contains (type_keys item.fields) d ≡ true
      → IsRejected items ignored d
      → IsRejected items ignored item.key

pub references_rejected_sound :
    (fields : List (Option Field)) (rejected : List String)
    → references_rejected fields rejected ≡ true
    → (d : String) × (contains (type_keys fields) d ≡ true) × (contains rejected d ≡ true)
unfolding references_rejected
references_rejected_sound [] rejected h = cc
references_rejected_sound (f ∷ fields) rejected h =
    let key = get_structure_key (get_type f) in
    elim (Bool-cases (contains rejected key)) [
      | inl hit ↦ (key, contains-cons_self key (type_keys fields), hit)
      | inr miss ↦
          let (d, named, hit) =
            references_rejected_sound fields rejected (rw (miss, references_rejected) at h) in
          (d, contains-cons key d (type_keys fields) named, hit)
    ]

pub references_rejected_complete :
    (fields : List (Option Field)) (rejected : List String) (d : String)
    → contains (type_keys fields) d ≡ true
    → contains rejected d ≡ true
    → references_rejected fields rejected ≡ true
unfolding references_rejected contains
references_rejected_complete [] rejected d named hit = cc
references_rejected_complete (f ∷ fields) rejected d named hit =
    let key = get_structure_key (get_type f) in
    elim (Bool-cases (str_eq key d)) [
      | inl same ↦ rw (subst (λ k. contains rejected k ≡ true) (sym ((eq_iff key d).0 same)) hit)
      | inr other ↦ elim (Bool-cases (contains rejected key)) [
        | inl now ↦ rw now
        | inr later ↦
            rw later
              (references_rejected_complete fields rejected d (rw (other, contains) at named) hit)
      ]
    ]

-- An item is skipped, or its key is new to the set and it references a member.
pub skips_cases :
    (item : Structure) (rejected : List String)
    → (skips item rejected ≡ true)
        × (references_rejected item.fields rejected ≡ true → contains rejected item.key ≡ true)
      ⊎ (skips item rejected ≡ false)
        × (contains rejected item.key ≡ false)
        × (references_rejected item.fields rejected ≡ true)
unfolding skips
skips_cases item rejected = ground arith

abbrev pub IsClosed : List String → List Structure → Type 0
IsClosed rejected = All (λ (item : Structure).
    references_rejected item.fields rejected ≡ true → contains rejected item.key ≡ true)

abbrev pub AreListed : List String → List Structure → Type 0
AreListed ks = All (λ (item : Structure). contains ks item.key ≡ true)

pub reject_changed :
    (items : List Structure) (r : List String) → (reject_dependents items r true).0 ≡ true
unfolding reject_dependents
reject_changed [] r = refl
reject_changed (item ∷ items) r = elim (skips_cases item r) [
  | inl (e, _) ↦ rw (e, reject_dependents) (reject_changed items r)
  | inr (e, _, _) ↦ rw (e, reject_dependents) (reject_changed items (add item.key r))
]

-- A pass that reports no change leaves the set as it is, closed under dependents.
pub reject_unchanged :
    (items : List Structure) (r : List String)
    → (reject_dependents items r false).0 ≡ false
    → ((reject_dependents items r false).1 ≡ r) × IsClosed r items
unfolding reject_dependents
reject_unchanged [] r h = (refl, tt)
reject_unchanged (item ∷ items) r h = elim (skips_cases item r) [
  | inl (e, closed) ↦
      let (same, all) = reject_unchanged items r (rw (e, reject_dependents) at h) in
      (rw (e, reject_dependents) same, (closed, all))
  | inr (e, _, _) ↦
      let wrong : (reject_dependents items (add item.key r) true).0 ≡ false =
        rw (e, reject_dependents) at h in
      cc (reject_changed items (add item.key r))
]

pub remaining-reject-le :
    (ks : List String) (items : List Structure) (r : List String) (c : Bool)
    → remaining ks (reject_dependents items r c).1 ≤ remaining ks r
unfolding reject_dependents
remaining-reject-le ks [] r c = omega arith
remaining-reject-le ks (item ∷ items) r c = elim (skips_cases item r) [
  | inl (e, _) ↦ rw (e, reject_dependents) (remaining-reject-le ks items r c)
  | inr (e, new, _) ↦
      rw (e, add_fresh item.key r new, reject_dependents)
        (omega (
          arith,
          remaining-reject-le ks items (item.key ∷ r) true,
          remaining-cons-le ks item.key r,
        ))
]

-- A pass that reports a change has added a key that was missing.
pub remaining-reject-lt :
    (ks : List String) (items : List Structure) (r : List String)
    → AreListed ks items
    → (reject_dependents items r false).0 ≡ true
    → remaining ks (reject_dependents items r false).1 < remaining ks r
unfolding reject_dependents
remaining-reject-lt ks [] r listed h = cc
remaining-reject-lt ks (item ∷ items) r listed h = elim (skips_cases item r) [
  | inl (e, _) ↦
      rw (e, reject_dependents)
        (remaining-reject-lt ks items r listed.1 (rw (e, reject_dependents) at h))
  | inr (e, new, _) ↦
      rw (e, add_fresh item.key r new, reject_dependents)
        (omega (
          arith,
          remaining-reject-le ks items (item.key ∷ r) true,
          remaining-cons-lt ks item.key r listed.0 new,
        ))
]

pub reject-grows :
    (items : List Structure) (r : List String) (c : Bool) (k : String)
    → contains r k ≡ true
    → contains (reject_dependents items r c).1 k ≡ true
unfolding reject_dependents
reject-grows [] r c k h = h
reject-grows (item ∷ items) r c k h = elim (skips_cases item r) [
  | inl (e, _) ↦ rw (e, reject_dependents) (reject-grows items r c k h)
  | inr (e, _, _) ↦
      rw (e, reject_dependents)
        (reject-grows items (add item.key r) true k (contains-add_old item.key k r h))
]
