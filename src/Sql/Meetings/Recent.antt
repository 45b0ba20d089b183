-- ===== src/Sql/Meetings/Recent.antt =====
-- The order of the minutes that the database lists: the newest first.
use office_mult_agent.Base.{
  ℕ, ◌<◌, Bool, List, [], ◌∷◌, ◌++◌, ◌≡◌, refl, ap, ◌∙◌, arith, filter, reverse, All, Bool-cases,
  inl, inr, All-append,
}
use office_mult_agent.Sql.Rows.{change_where, All-change}
use office_mult_agent.Sql.Rows.Filters.{All-filter}
use office_mult_agent.Sql.Meetings.{MinutesRow, insert_desc, sort_desc}

-- Every row was created later than those before it.
abbrev pub Increasing : List MinutesRow → Type 0
Increasing [] = Unit
Increasing (r ∷ rows) = All (λ s. r.created_at < s.created_at) rows × Increasing rows

insert-oldest :
    (r : MinutesRow) (rows : List MinutesRow)
    → All (λ s. r.created_at < s.created_at) rows
    → insert_desc r rows ≡ rows ++ r ∷ []
unfolding insert_desc
insert-oldest r [] h = refl
insert-oldest r (s ∷ rows) h = ground (arith, h.0, insert-oldest r rows h.1)

All-reverse : (P : MinutesRow → Type 0) (rows : List MinutesRow) → All P rows → All P (reverse rows)
All-reverse P [] h = tt
All-reverse P (r ∷ rows) h = All-append P (reverse rows) (r ∷ []) (All-reverse P rows h.1) (h.0, tt)

pub sort-Increasing : (rows : List MinutesRow) → Increasing rows → sort_desc rows ≡ reverse rows
unfolding sort_desc
sort-Increasing [] h = refl
sort-Increasing (r ∷ rows) h =
    ap (insert_desc r) (sort-Increasing rows h.1)
    ∙ insert-oldest r (reverse rows) (All-reverse (λ s. r.created_at < s.created_at) rows h.0)

pub Increasing-filter :
    (p : MinutesRow → Bool) (rows : List MinutesRow) → Increasing rows → Increasing (filter p rows)
Increasing-filter p [] h = tt
Increasing-filter p (r ∷ rows) h = elim (Bool-cases (p r)) [
  | inl hit ↦
      rw hit
        (All-filter (λ s. r.created_at < s.created_at) p rows h.0, Increasing-filter p rows h.1)
  | inr miss ↦ rw miss (Increasing-filter p rows h.1)
]

pub Increasing-append :
    (r : MinutesRow) (rows : List MinutesRow)
    → Increasing rows
    → All (λ s. s.created_at < r.created_at) rows
    → Increasing (rows ++ r ∷ [])
Increasing-append r [] h later = (tt, tt)
Increasing-append r (s ∷ rows) h later = (
  All-append (λ t. s.created_at < t.created_at) rows (r ∷ []) h.0 (later.0, tt),
  Increasing-append r rows h.1 later.1,
)

-- A change that leaves the times alone.
module _ (test : MinutesRow → Bool) (change : MinutesRow → MinutesRow)
    (keeps : (r : MinutesRow) → (change r).created_at ≡ r.created_at) where
  All-later :
      (t : ℕ) (rows : List MinutesRow)
      → All (λ s. t < s.created_at) rows
      → All (λ s. t < s.created_at) (change_where test change rows)
  All-later t rows h =
      All-change (λ s. t < s.created_at) test change rows h (λ r m p hit. omega (arith, keeps r, p))

  pub Increasing-change :
      (rows : List MinutesRow) → Increasing rows → Increasing (change_where test change rows)
  unfolding change_where
  Increasing-change [] h = tt
  Increasing-change (r ∷ rows) h = elim (Bool-cases (test r)) [
    | inl hit ↦ rw (hit, keeps r) (All-later r.created_at rows h.0, Increasing-change rows h.1)
    | inr miss ↦ rw miss (All-later r.created_at rows h.0, Increasing-change rows h.1)
  ]
