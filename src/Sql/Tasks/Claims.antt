-- ===== src/Sql/Tasks/Claims.antt =====
-- What a claim of the database hands out, against the in-memory claim of Tasks/Object.
use office_mult_agent.Base.{
  ℕ, String, true, false, not, ◌&&◌, none, some, List, [], ◌∷◌, ◌≡◌, refl, arith, ◌==◌, string_eq,
  nat_eq, contains, if◌then◌else◌, In, In-filter, filter-In, In→All, inl, inr, ◌⊎◌, Bool-cases,
  Option-cases, All, eq_iff,
}
use office_mult_agent.Tasks.Object.{is_due, stale_running, claim_one}
use office_mult_agent.Sql.Rows.{row_at, Unique, In→row_at, change_where, map_option, row_at-change}
use office_mult_agent.Sql.Tasks.{
  BackgroundTaskRecord, Table, to_task, can_claim, before, earliest, claim_record, candidates,
  claim_next_row, has_id,
}

-- The query selects the rows whose tasks are due.
can_claim-is_due :
    (now lease : ℕ) (row : BackgroundTaskRecord)
    → can_claim now lease row ≡ is_due now lease (to_task row)
unfolding can_claim is_due stale_running
can_claim-is_due now lease row = ground arith

-- A selected row is changed as the in-memory claim changes its task.
claim_record-claim_one :
    (worker : String) (now lease : ℕ) (row : BackgroundTaskRecord)
    → can_claim now lease row ≡ true
    → ((claim_record worker now row).0 ≡ (claim_one worker now lease (to_task row)).0)
      × (to_task (claim_record worker now row).1 ≡ (claim_one worker now lease (to_task row)).1)
unfolding can_claim claim_record claim_one is_due stale_running
claim_record-claim_one worker now lease row due = (ground arith, ground arith)

pub earliest-In : (rows : Table) {r : BackgroundTaskRecord} → earliest rows ≡ some r → In r rows
unfolding earliest
earliest-In [] e = cc
earliest-In (s ∷ rows) {r} e = elim (Option-cases (earliest rows)) [
  | inl empty ↦ inl (ground (arith, e, empty))
  | inr (t, rest) ↦ elim (Bool-cases (before t s)) [
    | inl later ↦ inr (earliest-In rows (ground (arith, e, rest, later)))
    | inr first ↦ inl (ground (arith, e, rest, first))
  ]
]

pub none-In : (rows : Table) (s : BackgroundTaskRecord) → earliest rows ≡ none → ¬ In s rows
unfolding earliest
none-In [] s e m = m
none-In (t ∷ rows) s e m = elim (Option-cases (earliest rows)) [
  | inl empty ↦ cc
  | inr (u, rest) ↦ ground (arith, e, rest)
]

-- Nothing in the list comes before its earliest row.
earliest-first :
    (rows : Table) (r s : BackgroundTaskRecord)
    → earliest rows ≡ some r
    → In s rows
    → before s r ≡ false
unfolding earliest
earliest-first [] r s e m = absurd m
earliest-first (t ∷ rows) r s e (inl is) = elim (Option-cases (earliest rows)) [
  | inl empty ↦ ground (arith, e, empty, is)
  | inr (u, rest) ↦ ground (arith, e, rest, is)
]
earliest-first (t ∷ rows) r s e (inr m) = elim (Option-cases (earliest rows)) [
  | inl empty ↦ absurd (none-In rows s empty m)
  | inr (u, rest) ↦ ground (arith, e, rest, earliest-first rows u s rest m)
]

-- A row that the query may return.
abbrev pub IsCandidate : ℕ → ℕ → List String → BackgroundTaskRecord → Type 0
IsCandidate now lease held row =
    (is_due now lease (to_task row) ≡ true) × (contains held row.id ≡ false)

candidates-IsCandidate :
    (now lease : ℕ) (held : List String) (rows : Table) (row : BackgroundTaskRecord)
    → In row (candidates now lease held rows)
    → In row rows × IsCandidate now lease held row
candidates-IsCandidate now lease held rows row m =
    let (here, passes) =
      In-filter (λ r. can_claim now lease r && not (contains held r.id)) row rows m in
    (
      here,
      (
        ground (arith, passes, can_claim-is_due now lease row),
        ground (arith, passes, can_claim-is_due now lease row),
      ),
    )

-- What a claim did, if it found the row: it hands out what the in-memory claim makes of the row's
-- task, and the table holds that task under the row's id and every other row as before.
pub record Claimed (worker : String) (now lease : ℕ) (held : List String) (rows : Table)
    (row : BackgroundTaskRecord) : Type 0 where
  pub here : In row rows
  pub is_candidate : IsCandidate now lease held row
  pub first :
      All
        (λ s. (is_due now lease (to_task s) && (not (contains held s.id) && before s row)) ≡ false)
        rows
  pub handed : (claim_next_row worker now lease held rows).0 ≡ (
      if (claim_one worker now lease (to_task row)).0
      then some (claim_one worker now lease (to_task row)).1
      else none)
  pub stored :
      (j : String)
      → map_option to_task (row_at (λ r. r.id) j (claim_next_row worker now lease held rows).1) ≡ (
          if row.id == j
          then some (claim_one worker now lease (to_task row)).1
          else map_option to_task (row_at (λ r. r.id) j rows))

-- No row is due and nothing changes, or a row is claimed.
abbrev pub ClaimOutcome : String → ℕ → ℕ → List String → Table → Type 0
ClaimOutcome worker now lease held rows =
    ((claim_next_row worker now lease held rows ≡ (none, rows))
      × All (λ s. (is_due now lease (to_task s) && not (contains held s.id)) ≡ false) rows)
    ⊎ ((row : BackgroundTaskRecord) × Claimed worker now lease held rows row)

module _ (worker : String) (now lease : ℕ) (held : List String) (rows : Table)
    (unique : Unique (λ (r : BackgroundTaskRecord). r.id) rows) where
  module _ (row : BackgroundTaskRecord)
      (found : earliest (candidates now lease held rows) ≡ some row) where
    found_here : In row rows × IsCandidate now lease held row
    found_here =
        candidates-IsCandidate now lease held rows row
          (earliest-In (candidates now lease held rows) found)

    same_claim :
        ((claim_record worker now row).0 ≡ (claim_one worker now lease (to_task row)).0)
        × (to_task (claim_record worker now row).1 ≡ (claim_one worker now lease (to_task row)).1)
    same_claim =
        claim_record-claim_one worker now lease row
          (ground (arith, found_here.1, can_claim-is_due now lease row))

    none_before :
        (s : BackgroundTaskRecord)
        → In s rows
        → (is_due now lease (to_task s) && (not (contains held s.id) && before s row)) ≡ false
    none_before s m = elim (Bool-cases (can_claim now lease s && not (contains held s.id))) [
      | inl candidate ↦
          let member =
            filter-In (λ r. can_claim now lease r && not (contains held r.id)) s rows m candidate in
          ground (arith, earliest-first (candidates now lease held rows) row s found member)
      | inr other ↦ ground (arith, other, can_claim-is_due now lease s)
    ]

    claim-result : claim_next_row worker now lease held rows ≡ (
      if (claim_record worker now row).0
          then some (to_task (claim_record worker now row).1)
          else none,
      change_where (has_id row.id) (λ r. (claim_record worker now r).1) rows,
    )
    unfolding claim_next_row
    claim-result = rw (found, claim_next_row) refl

    keeps_id : (r : BackgroundTaskRecord) → (claim_record worker now r).1.id ≡ r.id
    unfolding claim_record
    keeps_id r = ground arith

    stored_at :
        (j : String)
        → map_option to_task (row_at (λ r. r.id) j (claim_next_row worker now lease held rows).1)
          ≡ (if row.id == j
              then some (claim_one worker now lease (to_task row)).1
              else map_option to_task (row_at (λ r. r.id) j rows))
    stored_at j =
        let changed =
          row_at-change (λ (r : BackgroundTaskRecord). r.id) row.id
            (λ r. (claim_record worker now r).1) keeps_id j rows in
        ground (
          arith,
          claim-result,
          changed,
          same_claim,
          In→row_at (λ (r : BackgroundTaskRecord). r.id) row rows unique found_here.0,
          eq_iff row.id j,
        )

    claim-Claimed : Claimed worker now lease held rows row
    claim-Claimed = record {
      here = found_here.0;
      is_candidate = found_here.1;
      first =
          In→All
            (λ s.
              (is_due now lease (to_task s) && (not (contains held s.id) && before s row)) ≡ false)
            rows none_before;
      handed = ground (arith, claim-result, same_claim);
      stored = λ j. stored_at j;
    }

  none_candidate :
      earliest (candidates now lease held rows) ≡ none
      → (s : BackgroundTaskRecord) → In s rows
      → (is_due now lease (to_task s) && not (contains held s.id)) ≡ false
  none_candidate empty s m = elim (Bool-cases (can_claim now lease s && not (contains held s.id))) [
    | inl candidate ↦ absurd (
        none-In (candidates now lease held rows) s empty
          (filter-In (λ r. can_claim now lease r && not (contains held r.id)) s rows m candidate))
    | inr other ↦ ground (arith, other, can_claim-is_due now lease s)
  ]

  -- A claim of the database either changes nothing, as no row outside other transactions' locks is due;
  -- or it takes a due one before which no other due one comes by available_at and created_at, hands
  -- out what the in-memory claim makes of the row's task, stores that task, and leaves every other.
  pub claim_next_row-Claimed : ClaimOutcome worker now lease held rows
  unfolding claim_next_row
  claim_next_row-Claimed = elim (Option-cases (earliest (candidates now lease held rows))) [
    | inl empty ↦ inl (
      rw (empty, claim_next_row) refl,
      In→All (λ s. (is_due now lease (to_task s) && not (contains held s.id)) ≡ false) rows
          (none_candidate empty),
    )
    | inr (row, found) ↦ inr (row, claim-Claimed row found)
  ]
