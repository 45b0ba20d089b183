-- ===== src/Sql/Meetings/Refines.antt =====
-- The table of minutes behaves as the dicts of InMemoryMeetingMinutesRepository.
use office_mult_agent.Base.{
  ℕ, zero, suc, String, Bool, List, [], ◌∷◌, ◌++◌, map, ◌≡◌, refl, ap, sym, subst, ◌∙◌, arith,
  string_eq, pair_eq, option_eq, filter, reverse, take, ok, Bool-cases, inl, inr, In, In-reverse,
}
use office_mult_agent.Base.Dict.{Dict, lookup}
use office_mult_agent.Context.{RequestContext}
use office_mult_agent.Meetings.Draft.{MeetingMinutesDraft}
use office_mult_agent.Meetings.Service.{Minutes, get_minutes, is_owned, list_recent}
use office_mult_agent.Sql.Rows.{row_at, Unique, map_option, scalar-select, In→row_at}
use office_mult_agent.Sql.Rows.Filters.{filter-reverse}
use office_mult_agent.Sql.Meetings.{
  Codec, MinutesRow, meeting_key, is_own_row, get_minutes_row, validate_found, validate_all,
  list_recent_rows,
}
use office_mult_agent.Sql.Meetings.Recent.{Increasing, sort-Increasing, Increasing-filter}

abbrev pub Drafts : Type 0
Drafts = Dict (String × String) MeetingMinutesDraft

module _ (codec : Codec) where
  -- Row for entry, with the draft that the payload reads as.
  abbrev pub Same : List MinutesRow → Drafts → Type 0
  Same [] [] = Unit
  Same (r ∷ rows) ((k, d) ∷ drafts) =
      ((meeting_key r ≡ k) × (codec.validate r.payload ≡ ok d)) × Same rows drafts
  Same _ _ = ⊥

  pub record Agrees (rows : List MinutesRow) (s : Minutes) : Type 0 where
    pub unique : Unique meeting_key rows
    pub entries : Same rows s.drafts
    pub owners :
        (k : String × String)
        → lookup k s.owners ≡ map_option (λ r. r.created_by) (row_at meeting_key k rows)
    pub increasing : Increasing rows

  Same-append :
      (rows more : List MinutesRow) (drafts extra : Drafts)
      → Same rows drafts
      → Same more extra
      → Same (rows ++ more) (drafts ++ extra)
  Same-append [] more [] extra same later = later
  Same-append (r ∷ rows) more (e ∷ drafts) extra same later =
      (same.0, Same-append rows more drafts extra same.1 later)
  Same-append [] more (e ∷ drafts) extra same later = absurd same
  Same-append (r ∷ rows) more [] extra same later = absurd same

  Same-reverse :
      (rows : List MinutesRow) (drafts : Drafts)
      → Same rows drafts
      → Same (reverse rows) (reverse drafts)
  Same-reverse [] [] same = tt
  Same-reverse (r ∷ rows) (e ∷ drafts) same =
      Same-append (reverse rows) (r ∷ []) (reverse drafts) (e ∷ [])
        (Same-reverse rows drafts same.1) (same.0, tt)
  Same-reverse [] (e ∷ drafts) same = absurd same
  Same-reverse (r ∷ rows) [] same = absurd same

  -- Tests that agree on the rows and entries keep matching ones.
  Same-filter :
      (p : MinutesRow → Bool) (q : (String × String) × MeetingMinutesDraft → Bool)
      (rows : List MinutesRow) (drafts : Drafts)
      → ((r : MinutesRow) → In r rows → (d : MeetingMinutesDraft) → p r ≡ q (meeting_key r, d))
      → Same rows drafts
      → Same (filter p rows) (filter q drafts)
  Same-filter p q [] [] agree same = tt
  Same-filter p q (r ∷ rows) ((k, d) ∷ drafts) agree same =
      let later = Same-filter p q rows drafts (λ s m. agree s (inr m)) same.1 in
      let tests : p r ≡ q (k, d) = subst (λ j. p r ≡ q (j, d)) same.0.0 (agree r (inl refl) d) in
      elim (Bool-cases (p r)) [
        | inl hit ↦ rw (hit, sym tests ∙ hit) (same.0, later)
        | inr miss ↦ rw (miss, sym tests ∙ miss) later
      ]
  Same-filter p q [] (e ∷ drafts) agree same = absurd same
  Same-filter p q (r ∷ rows) [] agree same = absurd same

  validate-take :
      (n : ℕ) (rows : List MinutesRow) (drafts : Drafts)
      → Same rows drafts
      → validate_all codec (take n rows) ≡ ok (take n (map (λ e. e.1) drafts))
  unfolding validate_all
  validate-take zero rows drafts same = refl
  validate-take (suc n) [] [] same = refl
  validate-take (suc n) (r ∷ rows) ((k, d) ∷ drafts) same =
      ground (arith, same.0, validate-take n rows drafts same.1)
  validate-take (suc n) [] (e ∷ drafts) same = absurd same
  validate-take (suc n) (r ∷ rows) [] same = absurd same

  Same-lookup :
      (k : String × String) (rows : List MinutesRow) (drafts : Drafts)
      → Same rows drafts
      → validate_found codec (ok (row_at meeting_key k rows)) ≡ ok (lookup k drafts)
  unfolding lookup
  Same-lookup k [] [] same = refl
  Same-lookup k (r ∷ rows) ((j, d) ∷ drafts) same =
      ground (arith, same.0, Same-lookup k rows drafts same.1)
  Same-lookup k [] (e ∷ drafts) same = absurd same
  Same-lookup k (r ∷ rows) [] same = absurd same

  module _ (rows : List MinutesRow) (s : Minutes) (agrees : Agrees rows s) where
    pub get_row-get_minutes :
        (meeting_id : String) (context : RequestContext)
        → get_minutes_row codec meeting_id context rows ≡ ok (get_minutes meeting_id context s)
    unfolding get_minutes_row get_minutes
    get_row-get_minutes meeting_id context =
        ap (validate_found codec)
          (scalar-select meeting_key (context.tenant_id, meeting_id) rows agrees.unique)
        ∙ Same-lookup (context.tenant_id, meeting_id) rows s.drafts agrees.entries

    tests-agree :
        (context : RequestContext) (r : MinutesRow)
        → In r (reverse rows)
        → (d : MeetingMinutesDraft)
        → is_own_row context r ≡ is_owned context s.owners (meeting_key r, d)
    tests-agree context r m d =
        let there = In→row_at meeting_key r rows agrees.unique (In-reverse r rows m) in
        ground (arith, agrees.owners (meeting_key r), there)

    pub list_rows-list_recent :
        (context : RequestContext) (limit : ℕ)
        → list_recent_rows codec context limit rows ≡ ok (list_recent context limit s)
    unfolding list_recent_rows list_recent
    list_rows-list_recent context limit =
        let sorted =
          sort-Increasing (filter (is_own_row context) rows)
            (Increasing-filter (is_own_row context) rows agrees.increasing) in
        let listed =
          Same-filter (is_own_row context) (is_owned context s.owners) (reverse rows)
            (reverse s.drafts) (tests-agree context) (Same-reverse rows s.drafts agrees.entries) in
        rw (sorted, ← filter-reverse (is_own_row context) rows)
          (validate-take limit (filter (is_own_row context) (reverse rows))
            (filter (is_owned context s.owners) (reverse s.drafts)) listed)
