-- ===== src/Reports/Dedup.antt =====
-- What _deduplicate of ReportService (app/domain/reports.py) keeps.
use office_mult_agent.Base.{
  ℕ, ◌≤◌, Option, none, some, List, [], ◌∷◌, ◌≡◌, ◌≢◌, refl, sym, ◌∙◌, ap, inl, inr, arith, All, In,
  option_eq, pair_eq, string_eq, ◌==◌, ==_iff, ==_refl, if◌then◌else◌, Bool-cases, subst, map,
  AllDifferent, if_both,
}
use office_mult_agent.Base.Dict.{
  Dict, lookup, insert, values, lookup-insert, Distinct, All-insert, insert-Distinct, lookup-In,
}
use office_mult_agent.Events.{WorkEvent}
use office_mult_agent.Reports.Draft.{
  Letters, EventKey, event_key, improves, select_from, deduplicate,
}

module _ (l : Letters) where
  -- One step of the loop, as one key sees it.
  abbrev better : EventKey → Option WorkEvent → WorkEvent → Option WorkEvent
  better k current e =
      if event_key l e == k then (if improves current e then some e else current) else current

  -- The loop, as one key sees it.
  abbrev best : EventKey → Option WorkEvent → List WorkEvent → Option WorkEvent
  best k current [] = current
  best k current (e ∷ es) = best k (better k current e) es

  abbrev next_selected : Dict EventKey WorkEvent → WorkEvent → Dict EventKey WorkEvent
  next_selected sel e =
      if improves (lookup (event_key l e) sel) e then insert (event_key l e) e sel else sel

  lookup-next_selected :
      (k : EventKey) (sel : Dict EventKey WorkEvent) (e : WorkEvent)
      → lookup k (next_selected sel e) ≡ better k (lookup k sel) e
  lookup-next_selected k sel e = elim (Bool-cases (event_key l e == k)) [
    | inl same ↦
        let here : event_key l e ≡ k = (==_iff (event_key l e) k).0 same in
        ground (arith, here, same, lookup-insert (event_key l e) k e sel)
    | inr other ↦ ground (arith, other, lookup-insert (event_key l e) k e sel)
  ]

  lookup-select_from :
      (k : EventKey) (es : List WorkEvent) (sel : Dict EventKey WorkEvent)
      → lookup k (select_from l sel es) ≡ best k (lookup k sel) es
  unfolding select_from
  lookup-select_from k [] sel = refl
  lookup-select_from k (e ∷ es) sel =
      lookup-select_from k es (next_selected sel e)
      ∙ ap (λ o. best k o es) (lookup-next_selected k sel e)

  -- The event at a key is at least as trusted as `c`.
  abbrev Covers : ℕ → Option WorkEvent → Type 0
  Covers c none = ⊥
  Covers c (some e) = c ≤ e.confidence

  Covers-better :
      (k : EventKey) (c : ℕ) (o : Option WorkEvent) (e : WorkEvent)
      → Covers c o
      → Covers c (better k o e)
  Covers-better k c none e h = absurd h
  Covers-better k c (some x) e h = ground (arith, h)

  Covers-best :
      (k : EventKey) (c : ℕ) (es : List WorkEvent) (o : Option WorkEvent)
      → Covers c o
      → Covers c (best k o es)
  Covers-best k c [] o h = h
  Covers-best k c (e ∷ es) o h = Covers-best k c es (better k o e) (Covers-better k c o e h)

  better_self :
      (o : Option WorkEvent) (e : WorkEvent) → Covers e.confidence (better (event_key l e) o e)
  better_self none e = ground (arith, ==_refl (event_key l e))
  better_self (some x) e = ground (arith, ==_refl (event_key l e))

  In-Covers :
      (e : WorkEvent) (es : List WorkEvent) (o : Option WorkEvent)
      → In e es
      → Covers e.confidence (best (event_key l e) o es)
  In-Covers e [] o h = absurd h
  In-Covers e (x ∷ es) o (inl is) =
      subst (λ y. Covers e.confidence (best (event_key l e) (better (event_key l e) o y) es)) is
        (Covers-best (event_key l e) e.confidence es (better (event_key l e) o e) (better_self o e))
  In-Covers e (x ∷ es) o (inr h) = In-Covers e es (better (event_key l e) o x) h

  -- What is found at a key has that key.
  abbrev HasKey : EventKey → Option WorkEvent → Type 0
  HasKey k none = Unit
  HasKey k (some e) = event_key l e ≡ k

  HasKey-better :
      (k : EventKey) (o : Option WorkEvent) (e : WorkEvent) → HasKey k o → HasKey k (better k o e)
  HasKey-better k none e h = ground (arith, ==_iff (event_key l e) k)
  HasKey-better k (some x) e h = ground (arith, ==_iff (event_key l e) k, h)

  HasKey-best :
      (k : EventKey) (es : List WorkEvent) (o : Option WorkEvent)
      → HasKey k o
      → HasKey k (best k o es)
  HasKey-best k [] o h = h
  HasKey-best k (e ∷ es) o h = HasKey-best k es (better k o e) (HasKey-better k o e h)

  -- Every entry of the selection stands under its own key and comes from the events.
  abbrev FromList : List WorkEvent → EventKey × WorkEvent → Type 0
  FromList es (k, e) = (event_key l e ≡ k) × In e es

  select_from-FromList :
      (all es : List WorkEvent) (sel : Dict EventKey WorkEvent)
      → All (FromList all) sel
      → ((e : WorkEvent) → In e es → In e all)
      → All (FromList all) (select_from l sel es)
  unfolding select_from
  select_from-FromList all [] sel h sub = h
  select_from-FromList all (e ∷ es) sel h sub =
      select_from-FromList all es (next_selected sel e)
        (if_both (All (FromList all)) (improves (lookup (event_key l e) sel) e)
          (All-insert (FromList all) (event_key l e) e sel h (refl, sub e (inl refl))) h)
        (λ x m. sub x (inr m))

  select_from-Distinct :
      (es : List WorkEvent) (sel : Dict EventKey WorkEvent)
      → Distinct sel
      → Distinct (select_from l sel es)
  unfolding select_from
  select_from-Distinct [] sel h = h
  select_from-Distinct (e ∷ es) sel h = select_from-Distinct es (next_selected sel e) (
      if_both Distinct (improves (lookup (event_key l e) sel) e)
        (insert-Distinct (event_key l e) e sel h) h)

  entries_keys :
      (d : Dict EventKey WorkEvent) (all : List WorkEvent)
      → All (FromList all) d
      → Distinct d
      → AllDifferent (map (event_key l) (values d))
  entries_keys [] all h u = tt
  entries_keys ((k, e) ∷ d) all h u = (not_in d h.1 (rw h.0.0 u.0), entries_keys d all h.1 u.1)
    where
      not_in :
          (d : Dict EventKey WorkEvent)
          → All (FromList all) d
          → All (λ p. p.0 ≢ event_key l e) d
          → ¬ In (event_key l e) (map (event_key l) (values d))
      not_in [] h f m = m
      not_in ((j, x) ∷ d) h f (inl is) = f.0 (sym h.0.0 ∙ sym is)
      not_in ((j, x) ∷ d) h f (inr m) = not_in d h.1 f.1 m

  entries_In :
      (d : Dict EventKey WorkEvent) (all : List WorkEvent) (e : WorkEvent)
      → All (FromList all) d
      → In e (values d)
      → In e all
  entries_In [] all e h m = absurd m
  entries_In ((k, x) ∷ d) all e h (inl is) = subst (λ y. In y all) (sym is) h.0.1
  entries_In ((k, x) ∷ d) all e h (inr m) = entries_In d all e h.1 m

  found-Covers :
      (k : EventKey) (c : ℕ) (d : Dict EventKey WorkEvent) (o : Option WorkEvent)
      → lookup k d ≡ o
      → Covers c o
      → HasKey k o
      → (kept : WorkEvent) × In kept (values d) × (event_key l kept ≡ k) × (c ≤ kept.confidence)
  found-Covers k c d none is h same = absurd h
  found-Covers k c d (some x) is h same = (x, lookup-In k x d is, same, h)

  -- Every event that was collected is represented in the report: an event with the same project and
  -- normalised title is kept, with at least its confidence.
  pub deduplicate-covers :
      (events : List WorkEvent) (e : WorkEvent)
      → In e events
      → (kept : WorkEvent) × In kept (deduplicate l events)
        × (event_key l kept ≡ event_key l e)
        × (e.confidence ≤ kept.confidence)
  unfolding deduplicate lookup
  deduplicate-covers events e m =
      found-Covers (event_key l e) e.confidence (select_from l [] events)
        (best (event_key l e) none events) (lookup-select_from (event_key l e) events [])
        (In-Covers e events none m) (HasKey-best (event_key l e) events none tt)

  from_events : (events : List WorkEvent) → All (FromList events) (select_from l [] events)
  from_events events = select_from-FromList events events [] tt (λ e m. m)

  -- Every event that is kept is one of the collected ones.
  pub deduplicate-In :
      (events : List WorkEvent) (e : WorkEvent) → In e (deduplicate l events) → In e events
  unfolding deduplicate
  deduplicate-In events e m = entries_In (select_from l [] events) events e (from_events events) m

  -- No two of the events that are kept have the same project and normalised title.
  pub deduplicate-AllDifferent :
      (events : List WorkEvent) → AllDifferent (map (event_key l) (deduplicate l events))
  unfolding deduplicate
  deduplicate-AllDifferent events =
      entries_keys (select_from l [] events) events (from_events events)
        (select_from-Distinct events [] tt)
