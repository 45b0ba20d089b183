-- ===== src/Sql/Tasks/Draining.antt =====
-- Claims at one moment come to an end (app/repositories/runtime.py, claim_next_task): a call may hand
-- out nothing while other tasks wait, but each call settles one row.
use office_mult_agent.Base.{
  ℕ, zero, suc, ◌≤◌, ◌<◌, String, Bool, true, false, not, ◌&&◌, none, some, List, [], ◌∷◌, ◌≡◌,
  refl, arith, eq_iff, In-filter, subst, ◌∙◌, AllDifferent, string_eq, filter, length, map, ap, sym,
  contains, if◌then◌else◌, In, inl, inr, Bool-cases, Option-cases, List-cases,
}
use office_mult_agent.Sql.Rows.{change_where, Unique, In→row_at, keys-change}
use office_mult_agent.Sql.Tasks.{
  BackgroundTaskRecord, Table, can_claim, earliest, claim_record, candidates, claim_next_row,
  has_id,
}
use office_mult_agent.Sql.Tasks.Claims.{earliest-In, none-In}

-- The row is due, and no other transaction has locked it.
abbrev pub waits : ℕ → ℕ → List String → BackgroundTaskRecord → Bool
waits now lease held r = can_claim now lease r && not (contains held r.id)

-- What a row is after its turn, if it waits for one.
abbrev pub served : String → ℕ → ℕ → List String → BackgroundTaskRecord → BackgroundTaskRecord
served worker now lease held r = if waits now lease held r then (claim_record worker now r).1 else r

-- That many claims, one after another.
pub claims : String → ℕ → ℕ → List String → ℕ → Table → Table
claims worker now lease held zero rows = rows
claims worker now lease held (suc n) rows =
    claims worker now lease held n (claim_next_row worker now lease held rows).1

module _ (worker : String) (now lease : ℕ) (leases : 0 < lease) where
  -- What a claim leaves of a row is not claimed again at the same moment.
  settled :
      (row : BackgroundTaskRecord) → can_claim now lease (claim_record worker now row).1 ≡ false
  unfolding can_claim claim_record
  settled row = ground arith

  module _ (held : List String) where
    change-le :
        (test : BackgroundTaskRecord → Bool) (rows : Table)
        → length (
            filter
              (waits now lease held)
              (change_where test (λ r. (claim_record worker now r).1) rows))
          ≤ length (filter (waits now lease held) rows)
    unfolding change_where
    change-le test [] = omega arith
    change-le test (r ∷ rows) = ground (arith, settled r, change-le test rows)

    change-lt :
        (test : BackgroundTaskRecord → Bool) (row : BackgroundTaskRecord) (rows : Table)
        → In row rows
        → test row ≡ true
        → waits now lease held row ≡ true
        → length (
            filter
              (waits now lease held)
              (change_where test (λ r. (claim_record worker now r).1) rows))
          < length (filter (waits now lease held) rows)
    unfolding change_where
    change-lt test row [] m hit waiting = absurd m
    change-lt test row (r ∷ rows) (inl is) hit waiting =
        ground (arith, is, hit, waiting, settled r, change-le test rows)
    change-lt test row (r ∷ rows) (inr m) hit waiting =
        ground (arith, settled r, change-lt test row rows m hit waiting)

    served-claim_record :
        (r : BackgroundTaskRecord)
        → (served worker now lease held) (claim_record worker now r).1
          ≡ (claim_record worker now r).1
    served-claim_record r = rw (settled r) refl

    served_waiting :
        (r : BackgroundTaskRecord)
        → waits now lease held r ≡ true
        → (served worker now lease held) r ≡ (claim_record worker now r).1
    served_waiting r waiting = rw waiting refl

    map-served-change :
        (test : BackgroundTaskRecord → Bool) (rows : Table)
        → ((r : BackgroundTaskRecord) → In r rows → test r ≡ true → waits now lease held r ≡ true)
        → map
            (served worker now lease held)
            (change_where test (λ r. (claim_record worker now r).1) rows)
          ≡ map (served worker now lease held) rows
    unfolding change_where
    map-served-change test [] h = refl
    map-served-change test (r ∷ rows) h =
        let later = map-served-change test rows (λ s m. h s (inr m)) in
        elim (Bool-cases (test r)) [
          | inl hit ↦
              rw (hit, later, served-claim_record r)
                (ap (λ s. s ∷ map (served worker now lease held) rows)
                  (sym (served_waiting r (h r (inl refl) hit))))
          | inr miss ↦ rw (miss, later) refl
        ]

    map-served-none :
        (rows : Table)
        → length (filter (waits now lease held) rows) ≤ 0
        → map (served worker now lease held) rows ≡ rows
    map-served-none [] h = refl
    map-served-none (r ∷ rows) h = ground (arith, map-served-none rows)

    only_it :
        (row : BackgroundTaskRecord) (rows : Table)
        → Unique (λ (r : BackgroundTaskRecord). r.id) rows
        → In row rows
        → waits now lease held row ≡ true
        → (r : BackgroundTaskRecord) → In r rows
        → has_id row.id r ≡ true
        → waits now lease held r ≡ true
    only_it row rows unique m waiting r m' hit =
        let there = In→row_at (λ (r : BackgroundTaskRecord). r.id) row rows unique m in
        let here = In→row_at (λ (r : BackgroundTaskRecord). r.id) r rows unique m' in
        let same : r.id ≡ row.id = ground (arith, hit, eq_iff r.id row.id) in
        ground (arith, there, here, same, waiting)

    after_one :
        (row : BackgroundTaskRecord) (rows : Table)
        → earliest (candidates now lease held rows) ≡ some row
        → (claim_next_row worker now lease held rows).1
          ≡ change_where (has_id row.id) (λ r. (claim_record worker now r).1) rows
    unfolding claim_next_row
    after_one row rows found = rw (found, claim_next_row) refl

    keeps_id : (r : BackgroundTaskRecord) → (claim_record worker now r).1.id ≡ r.id
    unfolding claim_record
    keeps_id r = ground arith

    idle :
        (rows : Table)
        → earliest (candidates now lease held rows) ≡ none
        → (claim_next_row worker now lease held rows).1 ≡ rows
    unfolding claim_next_row
    idle rows empty = rw (empty, claim_next_row) refl

    idle-length :
        (rows : Table)
        → earliest (candidates now lease held rows) ≡ none
        → length (filter (waits now lease held) rows) ≤ 0
    idle-length rows empty = elim (List-cases (filter (waits now lease held) rows)) [
      | inl no_rows ↦ rw no_rows (omega arith)
      | inr (r, rest, is) ↦ absurd (
          none-In (filter (waits now lease held) rows) r empty
            (subst (λ l. In r l) (sym is) (inl refl)))
    ]

    -- Where the ids of the rows are all different and a lease is not zero, as many claims as there are
    -- due rows outside other transactions' locks serve each of them: afterwards the table is the one
    -- before with each such row handed out, cancelled or failed, and every other row as it was.
    pub claims_drain :
        (n : ℕ) (rows : Table)
        → Unique (λ (r : BackgroundTaskRecord). r.id) rows
        → length (filter (waits now lease held) rows) ≤ n
        → claims worker now lease held n rows ≡ map (served worker now lease held) rows
    unfolding claims
    claims_drain zero rows unique enough = sym (map-served-none rows enough)
    claims_drain (suc n) rows unique enough =
        elim (Option-cases (earliest (candidates now lease held rows))) [
          | inl empty ↦
              rw (idle rows empty)
                (claims_drain n rows unique (omega (arith, idle-length rows empty)))
          | inr (row, found) ↦
              let (here, waiting) =
                In-filter (waits now lease held) row rows
                  (earliest-In (filter (waits now lease held) rows) found) in
              let fewer =
                change-lt (has_id row.id) row rows here (ground (arith, eq_iff row.id row.id))
                  waiting in
              let kept =
                keys-change (λ (r : BackgroundTaskRecord). r.id) (has_id row.id)
                  (λ r. (claim_record worker now r).1) keeps_id rows in
              rw (after_one row rows found) (
                claims_drain n
                  (change_where (has_id row.id) (λ r. (claim_record worker now r).1) rows)
                  (subst AllDifferent (sym kept) unique) (omega (arith, fewer))
                ∙ map-served-change (has_id row.id) rows (only_it row rows unique here waiting))
        ]
