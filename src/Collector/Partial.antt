-- ===== src/Collector/Partial.antt =====
-- What is left when sources fail (app/services/work_events.py).
use office_mult_agent.Base.{
  String, true, false, some, List, [], ◌∷◌, ◌++◌, length, ◌≡◌, refl, ap, arith, string_eq, Error,
  Result, ok, err,
}
use office_mult_agent.Base.Dict.{lookup, insert}
use office_mult_agent.Context.{RequestContext}
use office_mult_agent.Events.{WorkEvent}
use office_mult_agent.Meetings.Service.{Minutes}
use office_mult_agent.Collector.Merge.{
  Sources, Gathered, WorkEventCollection, is_tolerated, safe_collect, unavailable, nothing, gather,
  merge, then_map, collect, collect_gitlab, collect_tasks, collect_email, collect_meetings,
}

-- The source answers, or fails with an error that is caught.
abbrev pub IsTolerable : Result Gathered → Type 0
IsTolerable (ok g) = Unit
IsTolerable (err e) = is_tolerated e ≡ true

-- The events of a source that answers.
abbrev pub events_of : Result Gathered → List WorkEvent
events_of (ok g) = g.0
events_of (err e) = []

abbrev pub warnings_of : String → Result Gathered → List String
warnings_of source (ok g) = g.1
warnings_of source (err e) = unavailable source

safe_collect_tolerated :
    (source : String) (r : Result Gathered)
    → IsTolerable r
    → safe_collect source r ≡ ok (source, (events_of r, warnings_of source r))
unfolding safe_collect
safe_collect_tolerated source (ok g) h = refl
safe_collect_tolerated source (err e) h = ground (arith, h)

-- The four sources, whatever they give.
abbrev entry : String → Result Gathered → String × Gathered
entry source r = (source, (events_of r, warnings_of source r))

gather_tolerated :
    (g t e m : Result Gathered)
    → IsTolerable g
    → IsTolerable t
    → IsTolerable e
    → IsTolerable m
    → gather (
        safe_collect "gitlab" g
        ∷ safe_collect "task" t
        ∷ safe_collect "email" e
        ∷ safe_collect "meeting" m
        ∷ [])
      ≡ ok (entry "gitlab" g ∷ entry "task" t ∷ entry "email" e ∷ entry "meeting" m ∷ [])
gather_tolerated g t e m hg ht he hm =
    rw
      (
        safe_collect_tolerated "gitlab" g hg,
        safe_collect_tolerated "task" t ht,
        safe_collect_tolerated "email" e he,
        safe_collect_tolerated "meeting" m hm,
      )
      refl

module _ (o : Sources) (date_from date_to : String) (context : RequestContext) (s : Minutes) where
  abbrev pub gitlab : Result Gathered
  gitlab = collect_gitlab o date_from date_to context s

  abbrev pub tasks : Result Gathered
  tasks = collect_tasks o date_from date_to context s

  abbrev pub email : Result Gathered
  email = collect_email o date_from date_to context s

  abbrev pub meetings : Result Gathered
  meetings = collect_meetings o date_from date_to context s

  -- Where the errors of the sources, if any, are of the kinds that are caught, the collection
  -- succeeds: it has the events of all sources that answered, in the order of the sources, their
  -- warnings and one warning for each source that failed, and for every source the number of its
  -- events, 0 where it failed.
  pub collect_partial :
      IsTolerable gitlab
      → IsTolerable tasks
      → IsTolerable email
      → (c : WorkEventCollection) × (collect o date_from date_to context s ≡ ok c)
        × (c.events
            ≡ ((events_of gitlab ++ events_of tasks) ++ events_of email) ++ events_of meetings)
        × (c.source_warnings
            ≡ ((warnings_of "gitlab" gitlab ++ warnings_of "task" tasks)
                ++ warnings_of "email" email)
              ++ warnings_of "meeting" meetings)
        × (lookup "gitlab" c.source_counts ≡ some (length (events_of gitlab)))
        × (lookup "task" c.source_counts ≡ some (length (events_of tasks)))
        × (lookup "email" c.source_counts ≡ some (length (events_of email)))
        × (lookup "meeting" c.source_counts ≡ some (length (events_of meetings)))
  unfolding collect merge lookup insert
  collect_partial hg ht he = (
    merge
        (entry "gitlab" gitlab
          ∷ entry "task" tasks
          ∷ entry "email" email
          ∷ entry "meeting" meetings
          ∷ [])
        nothing,
    ap (then_map (λ rs. merge rs nothing))
        (gather_tolerated gitlab tasks email meetings hg ht he tt),
    refl,
    refl,
    refl,
    refl,
    refl,
    refl,
  )

  -- An error of GitLab that is not caught, as a KeyError, ends the whole collection with it.
  collect_stops :
      (e : Error)
      → gitlab ≡ err e
      → is_tolerated e ≡ false
      → collect o date_from date_to context s ≡ err e
  unfolding collect safe_collect
  collect_stops e h uncaught = ground (arith, h, uncaught)
