-- ===== src/Sql/Meetings/Saves.antt =====
-- A save of minutes, in the database and in the in-memory repository (app/repositories/meetings.py).
use office_mult_agent.Base.{
  ℕ, ◌<◌, String, true, false, none, some, List, [], ◌∷◌, ◌++◌, map, ◌≡◌, refl, ap, sym, subst,
  arith, ◌==◌, string_eq, pair_eq, ==_iff, ok, Bool-cases, Option-cases, inl, inr, In, AllDifferent,
  All,
}
use office_mult_agent.Base.Dict.{lookup, insert, lookup-insert}
use office_mult_agent.Context.{RequestContext}
use office_mult_agent.Meetings.Draft.{MeetingMinutesDraft}
use office_mult_agent.Meetings.Service.{Minutes, save_minutes, get_minutes, list_recent}
use office_mult_agent.Sql.Rows.{
  row_at, Unique, change_where, scalar-select, row_at-append, row_at-change, Unique-append,
  keys-change, change_where-none, row_at-key,
}
use office_mult_agent.Sql.Meetings.{
  Codec, MinutesRow, meeting_key, new_minutes, overwrite_minutes, save_minutes_row, get_minutes_row,
  list_recent_rows,
}
use office_mult_agent.Sql.Meetings.Recent.{Increasing-append, Increasing-change}
use office_mult_agent.Sql.Meetings.Refines.{
  Drafts, Same, Agrees, get_row-get_minutes, list_rows-list_recent,
}

module _ (codec : Codec) (uuid : String) (now : ℕ) (d : MeetingMinutesDraft)
    (validates : codec.validate (codec.dump d) ≡ ok d) (context : RequestContext) where
  abbrev key : String × String
  key = (context.tenant_id, d.meeting_id)

  abbrev new_row : MinutesRow
  new_row = new_minutes codec uuid now d context

  Same-insert_new :
      (rows : List MinutesRow) (drafts : Drafts)
      → Same codec rows drafts
      → row_at meeting_key key rows ≡ none
      → Same codec (rows ++ new_row ∷ []) (insert key d drafts)
  unfolding insert
  Same-insert_new [] [] same unused = ((refl, validates), tt)
  Same-insert_new (r ∷ rows) ((k, w) ∷ drafts) same unused =
      let miss : (k == key) ≡ false = ground (arith, same.0.0, unused) in
      rw miss (same.0, Same-insert_new rows drafts same.1 (ground (arith, same.0.0, unused)))
  Same-insert_new [] (e ∷ drafts) same unused = absurd same
  Same-insert_new (r ∷ rows) [] same unused = absurd same

  Same-overwrite :
      (old : MinutesRow) (rows : List MinutesRow) (drafts : Drafts)
      → Same codec rows drafts
      → Unique meeting_key rows
      → row_at meeting_key key rows ≡ some old
      → Same codec
          (change_where (λ r. meeting_key r == key) (overwrite_minutes codec d) rows)
          (insert key d drafts)
  unfolding insert change_where
  Same-overwrite old [] [] same u found = cc
  Same-overwrite old (r ∷ rows) ((k, w) ∷ drafts) same u found = elim (Bool-cases (k == key)) [
    | inl hit ↦
        let at_row : (meeting_key r == key) ≡ true = ground (arith, hit, same.0.0) in
        let is : meeting_key r ≡ key = (==_iff (meeting_key r) key).0 at_row in
        let fresh : ¬ In key (map meeting_key rows) =
          subst (λ j. ¬ In j (map meeting_key rows)) (is) u.0 in
        rw (hit, at_row, change_where-none meeting_key key (overwrite_minutes codec d) rows fresh)
          ((same.0.0, validates), same.1)
    | inr miss ↦
        let off_row : (meeting_key r == key) ≡ false = ground (arith, miss, same.0.0) in
        rw (miss, off_row)
          (same.0, Same-overwrite old rows drafts same.1 u.1 (ground (arith, off_row, found)))
  ]
  Same-overwrite old [] (e ∷ drafts) same u found = absurd same
  Same-overwrite old (r ∷ rows) [] same u found = absurd same

  module _ (rows : List MinutesRow) (s : Minutes) (agrees : Agrees codec rows s) where
    save-unused :
        row_at meeting_key key rows ≡ none
        → save_minutes_row codec uuid now d context rows ≡ (ok d, rows ++ new_row ∷ [])
    unfolding save_minutes_row
    save-unused unused = rw (scalar-select meeting_key key rows agrees.unique, unused) refl

    save-found :
        (old : MinutesRow)
        → row_at meeting_key key rows ≡ some old
        → save_minutes_row codec uuid now d context rows
          ≡ (ok d, change_where (λ r. meeting_key r == key) (overwrite_minutes codec d) rows)
    unfolding save_minutes_row
    save-found old found =
        let at_key : meeting_key old ≡ key = row_at-key meeting_key key rows found in
        rw (scalar-select meeting_key key rows agrees.unique, found)
          (ap (λ k. (ok d, change_where (λ r. meeting_key r == k) (overwrite_minutes codec d) rows))
            (at_key))

    Agrees-unused :
        row_at meeting_key key rows ≡ none
        → All (λ r. r.created_at < now) rows
        → Agrees codec (rows ++ new_row ∷ []) (save_minutes d context s).1
    unfolding save_minutes
    Agrees-unused unused later = record {
      unique = Unique-append meeting_key new_row rows agrees.unique unused;
      entries = Same-insert_new rows s.drafts agrees.entries unused;
      owners = λ k. ground (
        arith,
        agrees.owners k,
        agrees.owners key,
        unused,
        row_at-append meeting_key new_row k rows unused,
        lookup-insert key k context.operator_id s.owners,
      );
      increasing = Increasing-append new_row rows agrees.increasing later;
    }

    Agrees-found :
        (old : MinutesRow)
        → row_at meeting_key key rows ≡ some old
        → Agrees codec
            (change_where (λ r. meeting_key r == key) (overwrite_minutes codec d) rows)
            (save_minutes d context s).1
    unfolding save_minutes
    Agrees-found old found = record {
      unique =
          subst AllDifferent
            (sym (
              keys-change meeting_key (λ r. meeting_key r == key) (overwrite_minutes codec d)
                (λ r. refl) rows))
            agrees.unique;
      entries = Same-overwrite old rows s.drafts agrees.entries agrees.unique found;
      owners = λ k. ground (
        arith,
        agrees.owners k,
        agrees.owners key,
        found,
        row_at-change meeting_key key (overwrite_minutes codec d) (λ r. refl) k rows,
      );
      increasing =
          Increasing-change (λ r. meeting_key r == key) (overwrite_minutes codec d) (λ r. refl) rows
            agrees.increasing;
    }

    save-Agrees :
        All (λ r. r.created_at < now) rows
        → Agrees codec
            (save_minutes_row codec uuid now d context rows).1
            (save_minutes d context s).1
    save-Agrees later = elim (Option-cases (row_at meeting_key key rows)) [
      | inl unused ↦ rw (save-unused unused) (Agrees-unused unused later)
      | inr (old, found) ↦ rw (save-found old found) (Agrees-found old found)
    ]

-- A save, with the id and the time that the database gives a new row.
pub record Save : Type 0 where
  pub uuid : String
  pub now : ℕ
  pub draft : MeetingMinutesDraft
  pub context : RequestContext

module _ (codec : Codec) where
  pub save_rows : List Save → List MinutesRow → List MinutesRow
  save_rows [] rows = rows
  save_rows (a ∷ rest) rows =
      save_rows rest (save_minutes_row codec a.uuid a.now a.draft a.context rows).1

  -- Each save comes later than every row that it finds.
  abbrev pub Ticks : List Save → List MinutesRow → Type 0
  Ticks [] rows = Unit
  Ticks (a ∷ rest) rows =
      All (λ r. r.created_at < a.now) rows
      × Ticks rest (save_minutes_row codec a.uuid a.now a.draft a.context rows).1

pub save_entries : List Save → Minutes → Minutes
save_entries [] s = s
save_entries (a ∷ rest) s = save_entries rest (save_minutes a.draft a.context s).1

module _ (codec : Codec) where
  -- Each draft is read back from its dump as it was.
  abbrev pub ReadBack : List Save → Type 0
  ReadBack = All (λ a. codec.validate (codec.dump a.draft) ≡ ok a.draft)

  save_rows-Agrees :
      (saves : List Save) (rows : List MinutesRow) (s : Minutes)
      → Agrees codec rows s
      → ReadBack saves
      → Ticks codec saves rows
      → Agrees codec (save_rows codec saves rows) (save_entries saves s)
  unfolding save_rows save_entries
  save_rows-Agrees [] rows s agrees read_back ticks = agrees
  save_rows-Agrees (a ∷ rest) rows s agrees read_back ticks =
      save_rows-Agrees rest (save_minutes_row codec a.uuid a.now a.draft a.context rows).1
        (save_minutes a.draft a.context s).1
        (save-Agrees codec a.uuid a.now a.draft read_back.0 a.context rows s agrees ticks.0)
        read_back.1 ticks.1

  -- After any saves into empty stores, each later than the rows that it finds, and where minutes are
  -- read back from their dump as they were, the database lists a caller the same minutes in the same
  -- order as the in-memory repository, for any limit, and finds the same minutes of any meeting.
  pub list_recent_rows-list_recent :
      (saves : List Save) (s : Minutes) (context : RequestContext) (limit : ℕ) (meeting_id : String)
      → s.drafts ≡ []
      → s.owners ≡ []
      → ReadBack saves
      → Ticks codec saves []
      → (list_recent_rows codec context limit (save_rows codec saves [])
          ≡ ok (list_recent context limit (save_entries saves s)))
        × (get_minutes_row codec meeting_id context (save_rows codec saves [])
            ≡ ok (get_minutes meeting_id context (save_entries saves s)))
  unfolding lookup
  list_recent_rows-list_recent saves s context limit meeting_id no_drafts no_owners read_back
        ticks =
      let empty : Agrees codec [] s = record {
        unique = tt;
        entries = rw no_drafts tt;
        owners = λ k. rw no_owners refl;
        increasing = tt;
      } in
      let agrees = save_rows-Agrees saves [] s empty read_back ticks in
      (
        list_rows-list_recent codec (save_rows codec saves []) (save_entries saves s) agrees context
            limit,
        get_row-get_minutes codec (save_rows codec saves []) (save_entries saves s) agrees
            meeting_id context,
      )
