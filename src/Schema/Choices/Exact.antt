-- ===== src/Schema/Choices/Exact.antt =====
-- FilterStructureChoices ends, and keeps exactly the structures that do not depend on the ignored
-- one, directly or through others.
use mathlib.Core.List.{Memᴰ}
use mathlib.Core.List.Memᴰ
use kirby.Base.{
  ℕ, zero, suc, ◌<◌, String, str_eq, eq_iff, is_positive, ℤ, ◌≡◌, refl, subst, ◌↔◌, true, false,
  Bool, List, [], ◌∷◌, map, some, ok, Bool-cases, inl, inr, arith, length, length-map, All-map,
}
use kirby.Keys.{
  contains, add, contains-add, contains-cons, contains-cons_self, remaining, remaining-le,
}
use kirby.Schema.Types.{Structure}
use kirby.Schema.Choices.{
  references_rejected, reject_dependents, reject_all, keep_others, find_id,
  filter_structure_choices,
}
use kirby.Schema.Choices.Pass.{
  IsRejected, self, dependent, references_rejected_sound, references_rejected_complete, skips_cases,
  IsClosed, AreListed, reject_unchanged, remaining-reject-lt, reject-grows,
}

module _ (all : List Structure) (ignored : String) where
  abbrev AllRejected : List String → Type 0
  AllRejected r = (k : String) → contains r k ≡ true → IsRejected all ignored k

  AllRejected-add :
      (item : Structure) (r : List String)
      → Memᴰ item all
      → references_rejected item.fields r ≡ true
      → AllRejected r
      → AllRejected (add item.key r)
  AllRejected-add item r m refs inv k h = elim (Bool-cases (str_eq item.key k)) [
    | inl same ↦
        let (d, named, hit) = references_rejected_sound item.fields r refs in
        subst (IsRejected all ignored) ((eq_iff item.key k).0 same)
          (dependent item m named (inv d hit))
    | inr other ↦ inv k (let h' = rw (contains-add item.key k r, other) at h in h')
  ]

  AllRejected-reject :
      (items : List Structure) (r : List String) (c : Bool)
      → ((item : Structure) → Memᴰ item items → Memᴰ item all)
      → AllRejected r
      → AllRejected (reject_dependents items r c).1
  unfolding reject_dependents
  AllRejected-reject [] r c sub inv = inv
  AllRejected-reject (item ∷ items) r c sub inv = elim (skips_cases item r) [
    | inl (e, _) ↦
        rw (e, reject_dependents) (AllRejected-reject items r c (λ i m. sub i (Memᴰ.tail m)) inv)
    | inr (e, new, refs) ↦
        rw (e, reject_dependents)
          (AllRejected-reject items (add item.key r) true (λ i m. sub i (Memᴰ.tail m))
            (AllRejected-add item r (sub item (Memᴰ.head refl)) refs inv))
  ]

  -- What the set holds when the passes end.
  record IsFinal (r : List String) : Type 0 where
    sound : AllRejected r
    start : contains r ignored ≡ true
    closed : IsClosed r all

  reject_all-IsFinal :
      (ks : List String)
      → AreListed ks all
      → (fuel : ℕ) (r : List String) → remaining ks r < fuel
      → AllRejected r
      → contains r ignored ≡ true
      → (final : List String) × (reject_all fuel all r ≡ ok final) × IsFinal final
  unfolding reject_all
  reject_all-IsFinal ks listed zero r enough inv start = absurd (omega arith)
  reject_all-IsFinal ks listed (suc fuel) r enough inv start =
      let more = (reject_dependents all r false).1 in
      elim (Bool-cases (reject_dependents all r false).0) [
        | inl changed ↦
            let (final, done, is_final) =
              reject_all-IsFinal ks listed fuel more
                (omega (arith, remaining-reject-lt ks all r listed changed))
                (AllRejected-reject all r false (λ i m. m) inv)
                (reject-grows all r false ignored start) in
            (final, rw (changed, reject_all) done, is_final)
        | inr stopped ↦
            let (same, closed) = reject_unchanged all r stopped in
            (
              r,
              rw (stopped, reject_all) (rw same),
              record { sound = inv; start = start; closed = closed },
            )
      ]

  IsClosed-at :
      (items : List Structure) (r : List String) (item : Structure)
      → IsClosed r items
      → Memᴰ item items
      → references_rejected item.fields r ≡ true
      → contains r item.key ≡ true
  IsClosed-at [] r item h m = elim m [ ]
  IsClosed-at (i ∷ items) r item h (Memᴰ.head e) = rw e h.0
  IsClosed-at (i ∷ items) r item h (Memᴰ.tail m) = IsClosed-at items r item h.1 m

  IsFinal-complete :
      {k : String} (r : List String) → IsFinal r → IsRejected all ignored k → contains r k ≡ true
  IsFinal-complete r f self = f.start
  IsFinal-complete r f (dependent {d} item m named rest) =
      IsClosed-at all r item f.closed m
        (references_rejected_complete item.fields r d named (IsFinal-complete r f rest))

keep_others_sound :
    (items : List Structure) (r : List String) (item : Structure)
    → Memᴰ item (keep_others items r)
    → Memᴰ item items × (contains r item.key ≡ false)
unfolding keep_others
keep_others_sound [] r item m = elim m [ ]
keep_others_sound (i ∷ items) r item m = elim (Bool-cases (contains r i.key)) [
  | inl out ↦
      let (listed, kept) = keep_others_sound items r item (rw (out, keep_others) at m) in
      (Memᴰ.tail listed, kept)
  | inr in_list ↦ elim (Memᴰ.cases_cons (rw (in_list, keep_others) at m)) [
    | inl e ↦ (Memᴰ.head e, rw e in_list)
    | inr later ↦
        let (listed, kept) = keep_others_sound items r item later in (Memᴰ.tail listed, kept)
  ]
]

keep_others_complete :
    (items : List Structure) (r : List String) (item : Structure)
    → Memᴰ item items
    → contains r item.key ≡ false
    → Memᴰ item (keep_others items r)
unfolding keep_others
keep_others_complete [] r item m out = elim m [ ]
keep_others_complete (i ∷ items) r item (Memᴰ.head e) out =
    rw (← e) (rw (out, keep_others) (Memᴰ.head refl))
keep_others_complete (i ∷ items) r item (Memᴰ.tail m) out = elim (Bool-cases (contains r i.key)) [
  | inl gone ↦ rw gone (keep_others_complete items r item m out)
  | inr kept ↦ rw kept (Memᴰ.tail (keep_others_complete items r item m out))
]

AreListed-cons :
    (k : String) (ks : List String) (items : List Structure)
    → AreListed ks items
    → AreListed (k ∷ ks) items
AreListed-cons k ks = All-map (λ (item : Structure) h. contains-cons k item.key ks h)

item_keys-AreListed :
    (items : List Structure) → AreListed (map (λ (item : Structure). item.key) items) items
item_keys-AreListed [] = tt
item_keys-AreListed (item ∷ items) =
    (contains-cons_self item.key _, AreListed-cons item.key _ items (item_keys-AreListed items))

not-contains : (r : List String) (k : String) → ¬ (contains r k ≡ true) → contains r k ≡ false
not-contains r k h = elim (Bool-cases (contains r k)) [
  | inl yes_it_is ↦ absurd (h yes_it_is)
  | inr not_it ↦ not_it
]

-- For the ID of a listed structure the call returns exactly the items whose keys are not rejected
-- by the chain of dependents that starts at its key.
pub filter_structure_choices_exact :
    (items : List Structure) (id : ℤ) (ignored : Structure)
    → is_positive id ≡ true
    → find_id items id ≡ some ignored
    → (kept : List Structure) × (filter_structure_choices items id ≡ ok kept)
      × ((item : Structure)
          → Memᴰ item kept ↔ (Memᴰ item items × (¬ IsRejected items ignored.key item.key)))
unfolding filter_structure_choices contains
filter_structure_choices_exact items id ignored positive found =
    let ks = map (λ (item : Structure). item.key) items in
    let (final, done, f) =
      reject_all-IsFinal items ignored.key ks (item_keys-AreListed items) (suc (length items))
        (ignored.key ∷ [])
        (omega (
          arith,
          remaining-le ks (ignored.key ∷ []),
          length-map (λ (item : Structure). item.key) items,
        ))
        (λ k h. elim (Bool-cases (str_eq ignored.key k)) [
          | inl same ↦ subst (IsRejected items ignored.key) ((eq_iff ignored.key k).0 same) self
          | inr other ↦ let wrong = rw other at h in cc
        ])
        (contains-cons_self ignored.key []) in
    (
      keep_others items final,
      rw (positive, found, done),
      λ item. (
        λ m.
            let (listed, out) = keep_others_sound items final item m in
            (listed, λ r. cc (IsFinal-complete items ignored.key final f r)),
        λ h.
            keep_others_complete items final item h.0
              (not-contains final item.key (λ busy. h.1 (f.sound item.key busy))),
      ),
    )
