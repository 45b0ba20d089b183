-- ===== src/Sql/Rows/Filters.antt =====
-- Selected rows: filters on tables, and the rows that they leave of a key.
use office_mult_agent.Base.{
  Bool, true, false, not, ◌&&◌, none, List, [], ◌∷◌, ◌++◌, map, ◌≡◌, refl, ap, subst, ◌⊎◌, inl, inr,
  arith, HasEq, ◌==◌, ==_iff, All, filter, reverse, if◌then◌else◌, Bool-cases, In,
}
use office_mult_agent.Sql.Rows.{row_at, Unique, keep_if, row_at-none}

module _ {Row : Type 0} where
  pub filter-filter :
      (p q : Row → Bool) (rows : List Row)
      → filter p (filter q rows) ≡ filter (λ r. p r && q r) rows
  filter-filter p q [] = refl
  filter-filter p q (r ∷ rows) = ground (arith, filter-filter p q rows)

  filter-hit :
      (p : Row → Bool) (r : Row) (rows : List Row)
      → p r ≡ true
      → filter p (r ∷ rows) ≡ r ∷ filter p rows
  filter-hit p r rows hit = rw hit refl

  filter-miss :
      (p : Row → Bool) (r : Row) (rows : List Row)
      → p r ≡ false
      → filter p (r ∷ rows) ≡ filter p rows
  filter-miss p r rows miss = rw miss refl

  pub filter-append :
      (p : Row → Bool) (rows more : List Row)
      → filter p (rows ++ more) ≡ filter p rows ++ filter p more
  filter-append p [] more = refl
  filter-append p (r ∷ rows) more = ground (arith, filter-append p rows more)

  append_empty : (rows : List Row) → rows ++ [] ≡ rows
  append_empty [] = refl
  append_empty (r ∷ rows) = ap (λ l. r ∷ l) (append_empty rows)

  pub filter-reverse :
      (p : Row → Bool) (rows : List Row) → filter p (reverse rows) ≡ reverse (filter p rows)
  filter-reverse p [] = refl
  filter-reverse p (r ∷ rows) = elim (Bool-cases (p r)) [
    | inl hit ↦ rw (filter-append p (reverse rows) (r ∷ []), filter-reverse p rows, hit) refl
    | inr miss ↦
        rw (filter-append p (reverse rows) (r ∷ []), filter-reverse p rows, miss)
          (append_empty (reverse (filter p rows)))
  ]

module _ {Row : Type 0} (P : Row → Type 0) where
  pub All-filter : (p : Row → Bool) (rows : List Row) → All P rows → All P (filter p rows)
  All-filter p [] h = tt
  All-filter p (r ∷ rows) h = elim (Bool-cases (p r)) [
    | inl hit ↦ rw hit (h.0, All-filter p rows h.1)
    | inr miss ↦ rw miss (All-filter p rows h.1)
  ]

module _ {Row K : Type 0} ⦃e : HasEq K⦄ (key : Row → K) where
  keys-filter :
      (p : Row → Bool) (k : K) (rows : List Row)
      → In k (map key (filter p rows))
      → In k (map key rows)
  keys-filter p k [] m = m
  keys-filter p k (r ∷ rows) m = elim (Bool-cases (p r)) [
    | inl hit ↦
        let here : (k ≡ key r) ⊎ In k (map key (filter p rows)) =
          subst (λ l. In k (map key l)) (filter-hit p r rows hit) m in
        elim (here) [ inl is ↦ inl is | inr later ↦ inr (keys-filter p k rows later) ]
    | inr miss ↦
        inr (keys-filter p k rows (subst (λ l. In k (map key l)) (filter-miss p r rows miss) m))
  ]

  pub Unique-filter :
      (p : Row → Bool) (rows : List Row) → Unique key rows → Unique key (filter p rows)
  Unique-filter p [] u = tt
  Unique-filter p (r ∷ rows) u = elim (Bool-cases (p r)) [
    | inl hit ↦ rw hit ((λ m. u.0 (keys-filter p (key r) rows m)), Unique-filter p rows u.1)
    | inr miss ↦ rw miss (Unique-filter p rows u.1)
  ]

  -- Without the rows of one key, every other key has its row still.
  pub row_at-filter :
      (k j : K) (rows : List Row)
      → row_at key j (filter (λ r. not (key r == k)) rows)
        ≡ (if k == j then none else row_at key j rows)
  row_at-filter k j [] = ground arith
  row_at-filter k j (r ∷ rows) =
      ground
        (arith, row_at-filter k j rows, e.test_iff (key r) k, e.test_iff k j, e.test_iff (key r) j)

  -- A filter keeps the row of a unique key, or leaves none.
  pub row_at-filter-Unique :
      (p : Row → Bool) (j : K) (rows : List Row)
      → Unique key rows
      → row_at key j (filter p rows) ≡ keep_if p (row_at key j rows)
  row_at-filter-Unique p j [] u = refl
  row_at-filter-Unique p j (r ∷ rows) u = elim (Bool-cases (key r == j)) [
    | inl here ↦
        let fresh : ¬ In j (map key rows) =
          subst (λ k. ¬ In k (map key rows)) ((==_iff (key r) j).0 here) u.0 in
        ground (arith, here, row_at-none key j rows fresh, row_at-filter-Unique p j rows u.1)
    | inr other ↦ ground (arith, other, row_at-filter-Unique p j rows u.1)
  ]
