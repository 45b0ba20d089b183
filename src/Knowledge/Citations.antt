-- ===== src/Knowledge/Citations.antt =====
-- No answer of the knowledge service goes without a source (app/domain/knowledge.py).
use office_mult_agent.Base.{
  ◌<◌, String, true, Option, some, List, [], ◌∷◌, ◌≡◌, arith, length, ◌⊎◌, inl, inr, ◌>>=◌, lift,
  ok, Option-cases, Bool-cases, Result-cases,
}
use office_mult_agent.Value.{Value, Fields, Items, get_field, arr, item}
use office_mult_agent.Context.{RequestContext}
use office_mult_agent.Orchestration.Approval.{is_truthy}
use office_mult_agent.Knowledge.{
  Outside, Cache, KnowledgeAnswer, KnowledgeCitation, no_answer, valid_citations, citations_of,
  validated, judge, cached_answer, answer_query, authenticate,
}

module _ (o : Outside) where
  valid_citations-nonempty :
      (v : Value) (rest : Items) (cs : List KnowledgeCitation)
      → valid_citations o (item v rest) ≡ some cs
      → 0 < length cs
  unfolding valid_citations
  valid_citations-nonempty v rest [] valid = ground (arith, valid)
  valid_citations-nonempty v rest (c ∷ cs) valid = omega arith

  cited :
      (citations : Value) (text : Option String) (a : KnowledgeAnswer)
      → is_truthy citations ≡ true
      → validated o text (citations_of o citations) ≡ ok a
      → 0 < length a.citations
  unfolding valid_citations
  cited (arr (item v rest)) (some text) a truthy valid =
      elim (Option-cases (valid_citations o (item v rest))) [
        | inl invalid ↦ ground (arith, valid, invalid)
        | inr (cs, is) ↦ ground (arith, valid, is, valid_citations-nonempty v rest cs is)
      ]
  cited _ _ a truthy valid = ground (arith, truthy, valid)

  judge-cited :
      (response : Fields) (a : KnowledgeAnswer)
      → judge o response ≡ ok a
      → (a ≡ no_answer o) ⊎ (0 < length a.citations)
  unfolding judge
  judge-cited response a judged = elim (Option-cases (get_field "citations" response)) [
    | inl missing ↦ inl (ground (arith, judged, missing))
    | inr (citations, found) ↦ elim (Bool-cases (is_truthy citations)) [
      | inl truthy ↦ elim (Option-cases (get_field "answer" response)) [
        | inl missing ↦ absurd (ground (arith, judged, found, truthy, missing))
        | inr (text, there) ↦ inr (
            cited citations (o.valid_text text) a truthy
              (ground (arith, judged, found, truthy, there)))
      ]
      | inr falsy ↦ inl (ground (arith, judged, found, falsy))
    ]
  ]

  -- What a caller is answered, out of the cache or not, is the fixed text that says that there is not
  -- enough evidence, or names at least one citation; and the token provider has let the caller pass.
  pub answer_query-cited :
      (query : String) (context : RequestContext) (cache : Cache) (a : KnowledgeAnswer)
      → (answer_query o query context cache).0 ≡ ok a
      → ((authenticate o context cache).0 ≡ ok tt) × ((a ≡ no_answer o) ⊎ (0 < length a.citations))
  unfolding answer_query
  answer_query-cited query context cache a given = elim (Option-cases o.get_access_token) [
    | inl open_to_all ↦
        (ground (arith, open_to_all), from_response (ground (arith, given, open_to_all)))
    | inr (provider, guarded) ↦ elim (Result-cases (provider context)) [
      | inl (token, passes) ↦
          (ground (arith, guarded, passes), from_response (ground (arith, given, guarded, passes)))
      | inr (e, refused) ↦ absurd (ground (arith, given, guarded, refused))
    ]
  ]
    where
      from_response :
          ((cached_answer o query context >>= (λ response. lift (judge o response))) cache).0 ≡ ok a
          → (a ≡ no_answer o) ⊎ (0 < length a.citations)
      from_response h = elim (Result-cases (cached_answer o query context cache).0) [
        | inl (response, came) ↦ judge-cited response a (ground (arith, h, came))
        | inr (e, failed) ↦ absurd (ground (arith, h, failed))
      ]
