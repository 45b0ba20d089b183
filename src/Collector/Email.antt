-- ===== src/Collector/Email.antt =====
-- The loop of _collect_email (app/services/work_events.py) over the activities.
use Prim.Native.String.{◌++◌ as join_text}
use office_mult_agent.Base.{
  ℕ, ◌+◌, suc, String, Bool, true, false, ◌||◌, not, Option, none, some, List, [], ◌∷◌, ◌++◌,
  length, if◌then◌else◌, ◌≡◌, refl, arith, In, ◌⊎◌, inl, inr, Option-cases, Bool-cases,
}
use office_mult_agent.Value.{Fields}
use office_mult_agent.Events.{WorkEvent, completed, collaboration, work_event}
use office_mult_agent.Events.{SourceType}
use office_mult_agent.SensitiveData.{Patterns}
use office_mult_agent.Collector.Sources.{non_empty, is_clean, count_warning}

pub record EmailActivity : Type 0 where
  pub message_id : String
  pub subject : String
  pub summary : String
  pub occurred_at : Option ℕ
  pub sensitive : Bool

abbrev pub activity_text : EmailActivity → String
activity_text a = join_text a.subject (join_text "\n" a.summary)

abbrev pub is_withheld : Patterns → EmailActivity → Bool
is_withheld patterns a = a.sensitive || not (is_clean patterns (activity_text a))

unfoldable pub email_event : EmailActivity → WorkEvent
email_event a =
    record (work_event (join_text "email:" a.message_id) (join_text "邮件协作：" a.subject) completed) {
      description = non_empty a.summary;
      event_type = collaboration;
      event_time = a.occurred_at;
      source_type = SourceType.email;
      source_id = some a.message_id;
      evidence_url = some (join_text "connector://email/" a.message_id);
    }

-- What the loop has gathered.
pub record Tally : Type 0 where
  pub events : List WorkEvent
  pub invalid : ℕ
  pub withheld : ℕ

module _ (validate : Fields → Option EmailActivity) (patterns : Patterns) where
  -- One round: the rest of the list follows.
  abbrev pub add_activity : Option EmailActivity → Tally → Tally
  add_activity none t = record t { invalid = suc t.invalid }
  add_activity (some a) t =
      if is_withheld patterns a
      then record t { withheld = suc t.withheld }
      else record t { events = email_event a ∷ t.events }

  unfoldable pub tally : List Fields → Tally
  tally [] = record { events = []; invalid = 0; withheld = 0 }
  tally (x ∷ xs) = add_activity (validate x) (tally xs)

  unfoldable pub email_events : (ℕ → String) → List Fields → List WorkEvent × List String
  unfolding tally
  email_events decimal activity =
      let t = tally activity in
      (
        t.events,
        count_warning decimal t.invalid " 条格式无效的邮件活动。"
            ++ count_warning decimal t.withheld " 条包含敏感标记的邮件活动。",
      )

  -- Every mail activity is accounted for: it is an event, or is counted as invalid, or as withheld.
  pub tally-total :
      (xs : List Fields)
      → length (tally xs).events + (tally xs).invalid + (tally xs).withheld ≡ length xs
  unfolding tally
  tally-total [] = refl
  tally-total (x ∷ xs) = ground (arith, tally-total xs)

  -- Where an event of a mail comes from.
  pub record IsShareable (xs : List Fields) (e : WorkEvent) : Type 0 where
    pub item : Fields
    pub activity : EmailActivity
    pub listed : In item xs
    pub valid : validate item ≡ some activity
    pub is : e ≡ email_event activity
    pub unmarked : activity.sensitive ≡ false
    pub clean : is_clean patterns (activity_text activity) ≡ true

  later :
      (x : Fields) (xs : List Fields) (e : WorkEvent) → IsShareable xs e → IsShareable (x ∷ xs) e
  later x xs e h = record {
    item = h.item;
    activity = h.activity;
    listed = inr h.listed;
    valid = h.valid;
    is = h.is;
    unmarked = h.unmarked;
    clean = h.clean;
  }

  -- One round keeps the events of the others, and adds one only if it may be shown.
  In-add_activity :
      (x : Fields) (xs : List Fields) (e : WorkEvent)
      → In e (add_activity (validate x) (tally xs)).events
      → In e (tally xs).events ⊎ IsShareable (x ∷ xs) e
  In-add_activity x xs e m = elim (Option-cases (validate x)) [
    | inl invalid ↦ inl (rw invalid at m)
    | inr (a, valid) ↦ elim (Bool-cases (is_withheld patterns a)) [
      | inl withheld ↦ inl (rw (valid, withheld) at m)
      | inr shown ↦
          let here : In e (email_event a ∷ (tally xs).events) = rw (valid, shown) at m in
          elim here [
            | inr old ↦ inl old
            | inl is ↦ inr (record {
              item = x;
              activity = a;
              listed = inl refl;
              valid = valid;
              is = is;
              unmarked = ground (arith, shown);
              clean = ground (arith, shown);
            })
          ]
    ]
  ]

  -- Every mail event comes from a valid activity that is not marked sensitive and in whose subject
  -- and summary none of the sensitive patterns is found.
  pub email_events-IsShareable :
      (decimal : ℕ → String) (xs : List Fields) (e : WorkEvent)
      → In e (email_events decimal xs).0
      → IsShareable xs e
  unfolding email_events tally
  email_events-IsShareable decimal [] e m = absurd m
  email_events-IsShareable decimal (x ∷ xs) e m = elim (In-add_activity x xs e m) [
    | inl old ↦ later x xs e (email_events-IsShareable decimal xs e old)
    | inr new ↦ new
  ]
