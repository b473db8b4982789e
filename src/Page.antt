-- ===== src/Page.antt =====
-- server/internal/repository/page.go: the pagination defaults and bounds.
use kirby.Base.{
  ℕ, ◌≡◌, refl, ltb, ℤ, pos, negsuc, if◌then◌else◌, is_negative, is_positive, Bool, true, false,
  Bool-cases, inl, inr,
}

pub record PageRequest : Type 0 where
  pub offset : ℤ
  pub limit : ℤ

abbrev pub default_page_size : ℕ
default_page_size = 20

abbrev pub max_page_size : ℕ
max_page_size = 100

abbrev exceeds : ℤ → ℕ → Bool
exceeds (pos n) m = ltb m n
exceeds (negsuc _) m = false

abbrev bound_limit : ℤ → ℤ
bound_limit limit = if exceeds limit max_page_size then pos max_page_size else limit

unfoldable pub normalize_page : PageRequest → PageRequest
normalize_page page = record {
  offset = (if is_negative page.offset then pos 0 else page.offset);
  limit = bound_limit (if is_positive page.limit then page.limit else pos default_page_size);
}

-- An offset that is not negative and a limit from one to the largest page.
pub record IsBounded (page : PageRequest) : Type 0 where
  pub from_start : is_negative page.offset ≡ false
  pub some_rows : is_positive page.limit ≡ true
  pub few_rows : exceeds page.limit max_page_size ≡ false

not_negative : (o : ℤ) → is_negative (if is_negative o then pos 0 else o) ≡ false
not_negative (pos n) = refl
not_negative (negsuc n) = refl

bounded :
    (l : ℤ)
    → (is_positive (bound_limit (if is_positive l then l else pos default_page_size)) ≡ true)
      × (exceeds (bound_limit (if is_positive l then l else pos default_page_size)) max_page_size
          ≡ false)
bounded (negsuc n) = (refl, refl)
bounded (pos n) = elim (Bool-cases (ltb 0 n)) [
  | inr empty ↦ rw empty (refl, refl)
  | inl some_rows ↦ elim (Bool-cases (ltb max_page_size n)) [
    | inl many ↦ rw (some_rows, many) (refl, refl)
    | inr few ↦ rw (some_rows, few) (some_rows, few)
  ]
]

-- NormalizePage returns an offset that is not negative and a limit from one to the largest page,
-- and leaves a request that has these as it is.
pub normalize_page-IsBounded :
    (page : PageRequest)
    → IsBounded (normalize_page page) × (IsBounded page → normalize_page page ≡ page)
unfolding normalize_page
normalize_page-IsBounded page = (
  record {
    from_start = not_negative page.offset;
    some_rows = (bounded page.limit).0;
    few_rows = (bounded page.limit).1;
  },
  λ h. rw (h.from_start, h.some_rows, h.few_rows) refl,
)
