-- ===== src/Sql/Rows.antt =====
-- What the SQL repositories use of a session: selecting rows, changing them, and the one row of a
-- unique key.
pub mod Filters
use office_mult_agent.Base.{
  Bool, true, false, ◌&&◌, Option, none, some, List, [], ◌∷◌, ◌++◌, map, ◌≡◌, refl, ap, ◌≢◌, ◌⊎◌,
  sym, subst, inl, inr, arith, HasEq, ◌==◌, ==_iff, ==_refl, All, filter, if◌then◌else◌, Result, ok,
  err, multiple_results, integrity_error, Exec, is_some, Bool-cases, In, AllDifferent, In-map,
}

module _ {Row : Type 0} where
  -- `result.scalar_one_or_none()`
  abbrev pub scalar_one_or_none : List Row → Result (Option Row)
  scalar_one_or_none [] = ok none
  scalar_one_or_none (r ∷ []) = ok (some r)
  scalar_one_or_none (r ∷ s ∷ rows) = err multiple_results

  -- What a commit writes: the selected rows, changed.
  unfoldable pub change_where : (Row → Bool) → (Row → Row) → List Row → List Row
  change_where test change [] = []
  change_where test change (r ∷ rows) =
      (if test r then change r else r) ∷ change_where test change rows

abbrev pub map_option : {A B : Type 0} → (A → B) → Option A → Option B
map_option f none = none
map_option f (some a) = some (f a)

abbrev pub keep_if : {A : Type 0} → (A → Bool) → Option A → Option A
keep_if test none = none
keep_if test (some a) = if test a then some a else none

module _ {Row : Type 0} (P : Row → Type 0) (test : Row → Bool) (change : Row → Row) where
  pub All-change :
      (rows : List Row)
      → All P rows
      → ((r : Row) → In r rows → P r → test r ≡ true → P (change r))
      → All P (change_where test change rows)
  unfolding change_where
  All-change [] h step = tt
  All-change (r ∷ rows) h step = elim (Bool-cases (test r)) [
    | inl hit ↦ rw hit (step r (inl refl) h.0 hit, All-change rows h.1 (λ s m. step s (inr m)))
    | inr miss ↦ rw miss (h.0, All-change rows h.1 (λ s m. step s (inr m)))
  ]

module _ {Row K : Type 0} ⦃e : HasEq K⦄ (key : Row → K) where
  -- The first row with a key.
  abbrev pub row_at : K → List Row → Option Row
  row_at k [] = none
  row_at k (r ∷ rows) = if key r == k then some r else row_at k rows

  -- The commit of one more row, under a unique constraint on the key.
  unfoldable pub insert_row : Row → Exec (List Row) (Unit {0})
  insert_row r rows =
      if is_some (row_at (key r) rows) then (err integrity_error, rows) else (ok tt, rows ++ r ∷ [])

  -- What a unique constraint on the key promises.
  abbrev pub Unique : List Row → Type 0
  Unique rows = AllDifferent (map key rows)

  pub row_at-none : (k : K) (rows : List Row) → ¬ In k (map key rows) → row_at k rows ≡ none
  row_at-none k [] h = refl
  row_at-none k (r ∷ rows) h =
      let ne : k ≢ key r = λ q. h (inl q) in
      ground (arith, ne, e.test_iff (key r) k, row_at-none k rows (λ m. h (inr m)))

  filter-none :
      (k : K) (rows : List Row) → ¬ In k (map key rows) → filter (λ r. key r == k) rows ≡ []
  filter-none k [] h = refl
  filter-none k (r ∷ rows) h =
      let ne : k ≢ key r = λ q. h (inl q) in
      ground (arith, ne, e.test_iff (key r) k, filter-none k rows (λ m. h (inr m)))

  filter_and-none :
      (k : K) (test : Row → Bool) (rows : List Row)
      → ¬ In k (map key rows)
      → filter (λ r. key r == k && test r) rows ≡ []
  filter_and-none k test [] h = refl
  filter_and-none k test (r ∷ rows) h =
      let ne : k ≢ key r = λ q. h (inl q) in
      ground (arith, ne, e.test_iff (key r) k, filter_and-none k test rows (λ m. h (inr m)))

  pub none→fresh : (k : K) (rows : List Row) → row_at k rows ≡ none → ¬ In k (map key rows)
  none→fresh k [] h m = m
  none→fresh k (r ∷ rows) h m = elim m [
    | inl q ↦ ground (arith, h, q, e.test_iff (key r) k)
    | inr later ↦ none→fresh k rows (ground (arith, h)) later
  ]

  pub change_where-none :
      (k : K) (change : Row → Row) (rows : List Row)
      → ¬ In k (map key rows)
      → change_where (λ r. key r == k) change rows ≡ rows
  unfolding change_where
  change_where-none k change [] h = refl
  change_where-none k change (r ∷ rows) h =
      let ne : k ≢ key r = λ q. h (inl q) in
      ground (arith, ne, e.test_iff (key r) k, change_where-none k change rows (λ m. h (inr m)))

  pub row_at-All :
      (P : Row → Type 0) (k : K) (rows : List Row) {r : Row}
      → All P rows
      → row_at k rows ≡ some r
      → P r
  row_at-All P k [] h found = cc
  row_at-All P k (s ∷ rows) {r} h found = elim (Bool-cases (key s == k)) [
    | inl hit ↦ let is : s ≡ r = ground (arith, hit, found) in subst P (is) h.0
    | inr miss ↦ row_at-All P k rows h.1 (ground (arith, miss, found))
  ]

  pub row_at-key : (k : K) (rows : List Row) {r : Row} → row_at k rows ≡ some r → key r ≡ k
  row_at-key k [] found = cc
  row_at-key k (s ∷ rows) {r} found = elim (Bool-cases (key s == k)) [
    | inl hit ↦ ground (arith, hit, found, e.test_iff (key s) k)
    | inr miss ↦ row_at-key k rows (ground (arith, miss, found))
  ]

  -- Selecting by a unique key gives the one row, or none.
  pub scalar-select :
      (k : K) (rows : List Row)
      → Unique rows
      → scalar_one_or_none (filter (λ r. key r == k) rows) ≡ ok (row_at k rows)
  scalar-select k [] u = refl
  scalar-select k (r ∷ rows) u = elim (Bool-cases (key r == k)) [
    | inl same ↦
        let fresh : ¬ In k (map key rows) =
          subst (λ j. ¬ In j (map key rows)) ((==_iff (key r) k).0 same) u.0 in
        rw (same, filter-none k rows fresh) refl
    | inr other ↦ ground (arith, scalar-select k rows u.1)
  ]

  pub In→row_at :
      (r : Row) (rows : List Row) → Unique rows → In r rows → row_at (key r) rows ≡ some r
  In→row_at r [] u m = absurd m
  In→row_at r (s ∷ rows) u (inl is) = ground (arith, is, e.test_iff (key s) (key r))
  In→row_at r (s ∷ rows) u (inr m) =
      let ne : key s ≢ key r =
        λ q. u.0 (subst (λ k. In k (map key rows)) (sym q) (In-map key r rows m)) in
      ground (arith, ne, e.test_iff (key s) (key r), In→row_at r rows u.1 m)

  -- A further condition keeps the row or drops it.
  pub scalar-select_and :
      (k : K) (test : Row → Bool) (rows : List Row)
      → Unique rows
      → scalar_one_or_none (filter (λ r. key r == k && test r) rows)
        ≡ ok (keep_if test (row_at k rows))
  scalar-select_and k test [] u = refl
  scalar-select_and k test (r ∷ rows) u = elim (Bool-cases (key r == k)) [
    | inl same ↦
        let fresh : ¬ In k (map key rows) =
          subst (λ j. ¬ In j (map key rows)) ((==_iff (key r) k).0 same) u.0 in
        ground (arith, same, filter_and-none k test rows fresh)
    | inr other ↦ ground (arith, scalar-select_and k test rows u.1)
  ]

  pub row_at-append :
      (r : Row) (k : K) (rows : List Row)
      → row_at (key r) rows ≡ none
      → row_at k (rows ++ r ∷ []) ≡ (if key r == k then some r else row_at k rows)
  row_at-append r k [] h = refl
  row_at-append r k (s ∷ rows) h = ground (
    arith,
    h,
    row_at-append r k rows,
    e.test_iff (key s) k,
    e.test_iff (key r) k,
    e.test_iff (key s) (key r),
  )

  In-keys-append :
      (k : K) (r : Row) (rows : List Row)
      → In k (map key (rows ++ r ∷ []))
      → In k (map key rows) ⊎ (k ≡ key r)
  In-keys-append k r [] (inl q) = inr q
  In-keys-append k r [] (inr m) = absurd m
  In-keys-append k r (s ∷ rows) (inl q) = inl (inl q)
  In-keys-append k r (s ∷ rows) (inr m) = elim (In-keys-append k r rows m) [
    | inl before ↦ inl (inr before)
    | inr last ↦ inr last
  ]

  pub Unique-append :
      (r : Row) (rows : List Row)
      → Unique rows
      → row_at (key r) rows ≡ none
      → Unique (rows ++ r ∷ [])
  Unique-append r [] u h = (λ m. m, tt)
  Unique-append r (s ∷ rows) u h = (not-later, Unique-append r rows u.1 (ground (arith, h)))
    where
      not-later : ¬ In (key s) (map key (rows ++ r ∷ []))
      not-later m = elim (In-keys-append (key s) r rows m) [
        | inl before ↦ u.0 before
        | inr last ↦ ground (arith, h, last, e.test_iff (key s) (key r))
      ]

  module _ (k : K) (change : Row → Row) (keeps : (r : Row) → key (change r) ≡ key r) where
    pub row_at-change :
        (j : K) (rows : List Row)
        → row_at j (change_where (λ r. key r == k) change rows)
          ≡ (if k == j then map_option change (row_at j rows) else row_at j rows)
    unfolding change_where
    row_at-change j [] = ground arith
    row_at-change j (r ∷ rows) = elim (Bool-cases (key r == k)) [
      | inl hit ↦ ground (
        arith,
        hit,
        keeps r,
        row_at-change j rows,
        e.test_iff (key r) k,
        e.test_iff k j,
        e.test_iff (key r) j,
      )
      | inr miss ↦ ground (
        arith,
        miss,
        row_at-change j rows,
        e.test_iff (key r) k,
        e.test_iff k j,
        e.test_iff (key r) j,
      )
    ]

  pub keys-change :
      (test : Row → Bool) (change : Row → Row) (keeps : (r : Row) → key (change r) ≡ key r)
      (rows : List Row)
      → map key (change_where test change rows) ≡ map key rows
  unfolding change_where
  keys-change test change keeps [] = refl
  keys-change test change keeps (r ∷ rows) = elim (Bool-cases (test r)) [
    | inl hit ↦ rw (hit, keeps r, keys-change test change keeps rows) refl
    | inr miss ↦ rw (miss, keys-change test change keeps rows) refl
  ]
