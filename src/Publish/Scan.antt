-- ===== src/Publish/Scan.antt =====
-- The distinct IDs of the snapshots, and what publicationState finds among the locked ones.
use mathlib.Core.List.{Memᴰ}
use mathlib.Core.List.Memᴰ
use kirby.Base.{
  ℕ, true, false, not, ◌&&◌, ◌==◌, List, [], ◌∷◌, Option, none, some, ok, ◌≡◌, refl, sym, ap, ◌∙◌,
  ok-injective, Bool-cases, Option-cases, if◌then◌else◌, inl, inr, arith, ◌⊎◌,
}
use kirby.Schema.Build.{is_some}
use kirby.Store.{Status, same_status, Snapshot}
use kirby.Publish.Checks.{publication_state}

-- The IDs of the rows are distinct, as those of a primary key are.
abbrev pub IsKeyed : List Snapshot → Type 0
IsKeyed [] = Unit
IsKeyed (s ∷ rows) = ((r : Snapshot) → Memᴰ r rows → (r.id == s.id) ≡ false) × IsKeyed rows

pub IsKeyed-unique :
    (rows : List Snapshot)
    → IsKeyed rows
    → (r s : Snapshot) → Memᴰ r rows
    → Memᴰ s rows
    → (r.id == s.id) ≡ true
    → r ≡ s
IsKeyed-unique [] keyed r s m n same = absurd (Memᴰ.not-nil m)
IsKeyed-unique (q ∷ rows) keyed r s m n same = elim (Memᴰ.cases_cons m) [
  | inl e ↦ elim (Memᴰ.cases_cons n) [
    | inl e' ↦ e ∙ sym e'
    | inr later ↦
        let other = keyed.0 s later in
        let same' : (q.id == s.id) ≡ true = rw (← e) same in ground (arith, other, same')
  ]
  | inr before ↦ elim (Memᴰ.cases_cons n) [
    | inl e' ↦
        let other = keyed.0 r before in
        let same' : (r.id == q.id) ≡ true = rw (← e') same in ground (arith, other, same')
    | inr later ↦ IsKeyed-unique rows keyed.1 r s before later same
  ]
]

-- What the scan of the locked snapshots has found.
pub record IsState (id : ℕ) (target : Option Snapshot) (released : Option Snapshot)
    (rows : List Snapshot) (t : Snapshot) (r : Option Snapshot) : Type 0 where
  pub only : (s : Snapshot) → Memᴰ s rows → same_status s.status Status.released ≡ true → r ≡ some s
  pub kept : (s : Snapshot) → released ≡ some s → r ≡ some s
  pub supported :
      (s : Snapshot)
      → Memᴰ s rows
      → same_status s.status Status.released ≡ false
      → same_status s.status Status.unreleased ≡ true
  pub found : (target ≡ some t) ⊎ (Memᴰ t rows × ((t.id == id) ≡ true))
  pub origin :
      (r ≡ released)
      ⊎ ((s : Snapshot) × (r ≡ some s)
          × Memᴰ s rows
          × (same_status s.status Status.released ≡ true))

IsState-cons :
    (id : ℕ) (target released : Option Snapshot) (q : Snapshot) (rows : List Snapshot)
    {t : Snapshot} {r : Option Snapshot}
    → (same_status q.status Status.released ≡ false → same_status q.status Status.unreleased ≡ true)
    → (same_status q.status Status.released ≡ true → released ≡ none)
    → IsState id
        (if q.id == id then some q else target)
        (if same_status q.status Status.released then some q else released)
        rows
        t
        r
    → IsState id target released (q ∷ rows) t r
IsState-cons id target released q rows {t = t'} {r = r'} plain first below = record {
  only = λ s m out. elim (Memᴰ.cases_cons m) [
    | inl e ↦
        let out' : same_status q.status Status.released ≡ true = rw (← e) out in
        rw e (below.kept q (rw out' refl))
    | inr later ↦ below.only s later out
  ];
  kept = λ s set. elim (Bool-cases (same_status q.status Status.released)) [
    | inl out ↦ let none_yet = first out in cc
    | inr other ↦ below.kept s (rw other set)
  ];
  supported = λ s m other. elim (Memᴰ.cases_cons m) [
    | inl e ↦ rw e (plain (rw (← e) other))
    | inr later ↦ below.supported s later other
  ];
  found = elim below.found [
    | inr (later, same) ↦ inr (Memᴰ.tail later, same)
    | inl e ↦ elim (Bool-cases (q.id == id)) [
      | inl here ↦ let e' : t' ≡ q = (let h = rw here at e in cc) in inr (Memᴰ.head e', rw e' here)
      | inr elsewhere ↦ inl (rw elsewhere at e)
    ]
  ];
  origin = elim below.origin [
    | inr (s, set, later, out) ↦ inr (s, set, Memᴰ.tail later, out)
    | inl e ↦ elim (Bool-cases (same_status q.status Status.released)) [
      | inl out ↦ inr (q, (rw out at e), Memᴰ.head refl, out)
      | inr other ↦ inl (rw other at e)
    ]
  ];
}

-- If the scan of `rows` succeeds, then every released row is the released snapshot that it returns,
-- every other row is unreleased, the released snapshot that it started with is kept and the one it
-- returns is that or a released row, and its target is the one given or a row with the ID.
pub publication_state_lem :
    (id : ℕ) (rows : List Snapshot) (target released : Option Snapshot) {t : Snapshot}
    {r : Option Snapshot}
    → publication_state id target released rows ≡ ok (t, r)
    → IsState id target released rows t r
unfolding publication_state
publication_state_lem id [] none released h = cc
publication_state_lem id [] (some t) released {t = t'} {r = r'} h =
    let e : (t, released) ≡ (t', r') = ok-injective h in
    let same : r' ≡ released = sym (ap (λ (x : Snapshot × Option Snapshot). x.1) e) in
    record {
      only = λ s m. absurd (Memᴰ.not-nil m);
      kept = λ s set. same ∙ set;
      supported = λ s m. absurd (Memᴰ.not-nil m);
      found = inl (ap (λ (x : Snapshot × Option Snapshot). some (x.0)) e);
      origin = inl same;
    }
publication_state_lem id (q ∷ rows) target released h =
    elim (Bool-cases (
      not (same_status q.status Status.unreleased) && not (same_status q.status Status.released))) [
        | inl neither ↦ let wrong = rw (neither, publication_state) at h in cc
        | inr supported ↦
            elim (Bool-cases (same_status q.status Status.released && is_some released)) [
              | inl second ↦ let wrong = rw (supported, second, publication_state) at h in cc
              | inr first ↦
                  IsState-cons id target released q rows (λ other. ground (arith, supported, other))
                    (λ out. elim (Option-cases released) [
                      | inl e ↦ e
                      | inr (s, e) ↦ let wrong = rw (e, out) at first in cc
                    ])
                    (publication_state_lem id rows _ _
                      (rw (supported, first, publication_state) at h))
            ]
      ]
