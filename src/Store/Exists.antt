-- ===== src/Store/Exists.antt =====
-- When a condition holds of some row of a table.
use kirby.Base.{
  true, Bool, false, ◌||◌, List, [], ◌∷◌, ◌++◌, map, some, ◌≡◌, ◌≢◌, refl, inl, inr, Bool-cases,
  arith,
}
use kirby.Store.{exists_row, find_row, where_rows, affected_rows}

module _ {A : Type 0} where
  pub exists_row-ext :
      (p q : A → Bool)
      → ((r : A) → p r ≡ q r)
      → (rows : List A) → exists_row p rows ≡ exists_row q rows
  unfolding exists_row
  exists_row-ext p q same [] = refl
  exists_row-ext p q same (r ∷ rows) = rw (same r, exists_row-ext p q same rows) refl

  pub where_rows-ext :
      (p q : A → Bool)
      → ((r : A) → p r ≡ q r)
      → (rows : List A) → where_rows p rows ≡ where_rows q rows
  unfolding where_rows
  where_rows-ext p q same [] = refl
  where_rows-ext p q same (r ∷ rows) = rw (same r, where_rows-ext p q same rows) refl

  pub exists_row-narrow :
      (p q : A → Bool)
      → ((r : A) → p r ≡ true → q r ≡ true)
      → (rows : List A) → exists_row q rows ≡ false
      → exists_row p rows ≡ false
  unfolding exists_row
  exists_row-narrow p q within [] h = refl
  exists_row-narrow p q within (r ∷ rows) h =
      ground (arith, within r, exists_row-narrow p q within rows (ground arith))

  pub exists_row-append :
      (p : A → Bool) (rows more : List A)
      → exists_row p (rows ++ more) ≡ (exists_row p rows || exists_row p more)
  unfolding exists_row
  exists_row-append p [] more = refl
  exists_row-append p (r ∷ rows) more = ground (arith, exists_row-append p rows more)

  -- Rows outside the condition that are left out do not count, where the search passes them over.
  pub exists_row-where_rows :
      (p q : A → Bool)
      → ((r : A) → q r ≡ false → p r ≡ false)
      → (rows : List A) → exists_row p (where_rows q rows) ≡ exists_row p rows
  unfolding exists_row where_rows
  exists_row-where_rows p q out [] = refl
  exists_row-where_rows p q out (r ∷ rows) = elim (Bool-cases (q r)) [
    | inl kept ↦ rw (kept, exists_row-where_rows p q out rows) refl
    | inr left ↦ rw (left, out r left, exists_row-where_rows p q out rows) refl
  ]

  pub exists_row-false :
      (p : A → Bool) → ((r : A) → p r ≡ false) → (rows : List A) → exists_row p rows ≡ false
  unfolding exists_row
  exists_row-false p out [] = refl
  exists_row-false p out (r ∷ rows) = rw (out r, exists_row-false p out rows) refl

  -- A row that an update counts is found.
  pub affected_rows-find :
      (p : A → Bool) (rows : List A)
      → affected_rows p rows ≢ 0
      → (r : A) × (find_row p rows ≡ some r)
  unfolding affected_rows find_row
  affected_rows-find p [] h = absurd (h refl)
  affected_rows-find p (r ∷ rows) h = elim (Bool-cases (p r)) [
    | inl hit ↦ (r, rw hit)
    | inr passed ↦
        let (s, found) = affected_rows-find p rows (rw passed at h) in (s, rw passed found)
  ]

pub exists_row-map-false :
    {A B : Type 0} (p : B → Bool) (f : A → B)
    → ((x : A) → p (f x) ≡ false)
    → (xs : List A) → exists_row p (map f xs) ≡ false
unfolding exists_row
exists_row-map-false p f out [] = refl
exists_row-map-false p f out (x ∷ xs) = rw (out x, exists_row-map-false p f out xs) refl
