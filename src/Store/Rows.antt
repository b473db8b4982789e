-- ===== src/Store/Rows.antt =====
-- What an update, a search and a condition do to the rows of a table.
use mathlib.Core.List.{Memᴰ}
use mathlib.Core.List.Memᴰ
use kirby.Base.{
  Bool, true, List, [], ◌∷◌, map, some, ◌≡◌, refl, inl, inr, Bool-cases, arith, if◌then◌else◌,
}
use kirby.Store.{exists_row, find_row, where_rows, update_rows}

module _ {A : Type 0} where
  pub find_row_lem :
      (p : A → Bool) (rows : List A) {r : A} → find_row p rows ≡ some r → (p r ≡ true) × Memᴰ r rows
  unfolding find_row
  find_row_lem p [] h = cc
  find_row_lem p (q ∷ rows) {r = found} h = elim (Bool-cases (p q)) [
    | inl yes_it_is ↦
        let e : found ≡ q = (let h' = rw (yes_it_is, find_row) at h in cc) in
        (rw e yes_it_is, Memᴰ.head e)
    | inr not_it ↦
        let (holds, m) = find_row_lem p rows (rw (not_it, find_row) at h) in (holds, Memᴰ.tail m)
  ]

  pub where_rows-Memᴰ :
      (p : A → Bool) (rows : List A) {r : A} → Memᴰ r rows → p r ≡ true → Memᴰ r (where_rows p rows)
  unfolding where_rows
  where_rows-Memᴰ p [] m h = absurd (Memᴰ.not-nil m)
  where_rows-Memᴰ p (q ∷ rows) (Memᴰ.head e) h = rw (← e, h) (Memᴰ.head refl)
  where_rows-Memᴰ p (q ∷ rows) (Memᴰ.tail m) h = elim (Bool-cases (p q)) [
    | inl yes_it_is ↦ rw yes_it_is (Memᴰ.tail (where_rows-Memᴰ p rows m h))
    | inr not_it ↦ rw not_it (where_rows-Memᴰ p rows m h)
  ]

  pub Memᴰ-where_rows :
      (p : A → Bool) (rows : List A) {r : A}
      → Memᴰ r (where_rows p rows)
      → Memᴰ r rows × (p r ≡ true)
  unfolding where_rows
  Memᴰ-where_rows p [] m = absurd (Memᴰ.not-nil m)
  Memᴰ-where_rows p (q ∷ rows) {r = found} m = elim (Bool-cases (p q)) [
    | inr not_it ↦
        let (below, holds) = Memᴰ-where_rows p rows (rw (not_it, where_rows) at m) in
        (Memᴰ.tail below, holds)
    | inl yes_it_is ↦ elim (Memᴰ.cases_cons (rw (yes_it_is, where_rows) at m)) [
      | inl e ↦ (Memᴰ.head e, rw e yes_it_is)
      | inr later ↦ let (below, holds) = Memᴰ-where_rows p rows later in (Memᴰ.tail below, holds)
    ]
  ]

  pub exists_row-Memᴰ :
      (p : A → Bool) (rows : List A) {r : A} → Memᴰ r rows → p r ≡ true → exists_row p rows ≡ true
  unfolding exists_row
  exists_row-Memᴰ p [] m h = absurd (Memᴰ.not-nil m)
  exists_row-Memᴰ p (q ∷ rows) (Memᴰ.head e) h = rw (← e, h) refl
  exists_row-Memᴰ p (q ∷ rows) (Memᴰ.tail m) h = ground (arith, exists_row-Memᴰ p rows m h)

  pub Memᴰ-update_rows :
      (p : A → Bool) (f : A → A) (rows : List A) {r : A}
      → Memᴰ r (update_rows p f rows)
      → (q : A) × Memᴰ q rows × (r ≡ (if p q then f q else q))
  unfolding update_rows
  Memᴰ-update_rows p f [] m = absurd (Memᴰ.not-nil m)
  Memᴰ-update_rows p f (q ∷ rows) m = elim (Memᴰ.cases_cons m) [
    | inl e ↦ (q, Memᴰ.head refl, e)
    | inr later ↦ let (old, below, e) = Memᴰ-update_rows p f rows later in (old, Memᴰ.tail below, e)
  ]

  pub exists_row-update_rows :
      (p q : A → Bool) (f : A → A)
      → ((r : A) → p (f r) ≡ p r)
      → (rows : List A) → exists_row p (update_rows q f rows) ≡ exists_row p rows
  unfolding exists_row update_rows
  exists_row-update_rows p q f same [] = refl
  exists_row-update_rows p q f same (r ∷ rows) = elim (Bool-cases (q r)) [
    | inl yes_it_is ↦ rw (yes_it_is, same r, exists_row-update_rows p q f same rows)
    | inr not_it ↦ rw (not_it, exists_row-update_rows p q f same rows)
  ]

module _ {A : Type 0} (p q : A → Bool) (f : A → A) (same : (r : A) → p (f r) ≡ p r) where
  -- An update that keeps the condition of a search changes the row that the search finds.
  pub find_row-update_rows :
      (rows : List A) {r : A}
      → find_row p rows ≡ some r
      → find_row p (update_rows q f rows) ≡ some (if q r then f r else r)
  unfolding find_row update_rows
  find_row-update_rows [] h = cc
  find_row-update_rows (x ∷ rows) {r = found} h = elim (Bool-cases (p x)) [
    | inl hit ↦
        let e : x ≡ found = (let h' = rw (hit, find_row) at h in cc) in
        let hit' : p found ≡ true = rw (← e) hit in
        elim (Bool-cases (q found)) [
          | inl changed ↦ rw (e, changed, same found, hit') refl
          | inr kept ↦ rw (e, kept, hit') refl
        ]
    | inr passed ↦ elim (Bool-cases (q x)) [
      | inl changed ↦
          rw (changed, same x, passed) (find_row-update_rows rows (rw (passed, find_row) at h))
      | inr kept ↦ rw (kept, passed) (find_row-update_rows rows (rw (passed, find_row) at h))
    ]
  ]

pub update_rows-map :
    {A : Type 0} (p : A → Bool) (f : A → A) (rows : List A)
    → update_rows p f rows ≡ map (λ r. if p r then f r else r) rows
unfolding update_rows
update_rows-map p f [] = refl
update_rows-map p f (r ∷ rows) = rw (update_rows-map p f rows) refl

pub map-map :
    {A : Type 0} (f g : A → A) (rows : List A) → map f (map g rows) ≡ map (λ r. f (g r)) rows
map-map f g [] = refl
map-map f g (r ∷ rows) = rw (map-map f g rows) refl

pub map_id : {A : Type 0} (rows : List A) → map (λ r. r) rows ≡ rows
map_id [] = refl
map_id (r ∷ rows) = rw (map_id rows) refl
