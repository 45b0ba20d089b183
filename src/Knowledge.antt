-- ===== src/Knowledge.antt =====
-- Answers from the knowledge base: KnowledgeService (app/domain/knowledge.py) over a connector, with
-- or without CachedKnowledgeConnector (app/connectors/cached.py) in front of it. The cache is
-- InMemoryJsonCache of app/services/cache.py.
pub mod Citations
pub mod Sharing
use office_mult_agent.Base.{
  ℕ, String, Bool, true, false, Option, none, some, List, [], ◌∷◌, ◌==◌, string_eq, ltb, or_else,
  if◌then◌else◌, Error, key_error, value_error, Result, ok, err, Exec, lift, gets, pure, modify,
  ◌>>=◌, ◌>>◌,
}
use office_mult_agent.Base.Dict.{Dict, lookup, insert}
use office_mult_agent.Base.Text.{strip, sort_names}
use office_mult_agent.Cache.{Hashing, scoped_cache_key}
use office_mult_agent.Value.{Value, Fields, Items, str, obj, arr, null, item, nil, get_field}
use office_mult_agent.Context.{RequestContext}
use office_mult_agent.Memories.{cache_set}
use office_mult_agent.Orchestration.Approval.{is_truthy}

pub record KnowledgeCitation : Type 0 where
  pub document_id : String
  pub chunk_id : String
  pub title : String

pub data AnswerStatus : Type 0 where
  completed insufficient_evidence : AnswerStatus

pub record KnowledgeAnswer : Type 0 where
  pub answer : String
  pub citations : List KnowledgeCitation
  pub warnings : List String
  pub status : AnswerStatus

-- What the code calls: the token provider if there is one, the knowledge base, pydantic's validation
-- of a citation and of an answer's text, `json.dumps` of an object of the sorted roles and the sorted
-- scopes, and the hashing of cache keys with their prefix.
pub record Outside : Type 0 where
  pub get_access_token : Option (RequestContext → Result (Unit {0}))
  pub ask : String → RequestContext → Result Fields
  pub valid_text : Value → Option String
  pub valid_citation : Value → Option KnowledgeCitation
  pub dump_permissions : List String → List String → String
  pub hashing : Hashing
  pub key_prefix : String
  pub ttl_seconds : ℕ

abbrev pub Cache : Type 0
Cache = Dict String Value

module _ (o : Outside) where
  unfoldable pub permission_fingerprint : RequestContext → String
  permission_fingerprint context =
      o.dump_permissions (sort_names context.role_ids) (sort_names context.permission_scopes)

  abbrev pub key_parts : String → RequestContext → List String
  key_parts query context =
      context.operator_id
      ∷ or_else context.employee_id ""
      ∷ permission_fingerprint context
      ∷ strip query
      ∷ []

  unfoldable pub knowledge_key : String → RequestContext → String
  knowledge_key query context =
      scoped_cache_key o.hashing o.key_prefix "knowledge-answer" context.tenant_id
        (key_parts query context)

  -- `isinstance(citations, list) and citations`
  abbrev pub has_citations : Option Value → Bool
  has_citations (some (arr (item v rest))) = true
  has_citations _ = false

  -- The answer of the knowledge base, remembered if it has citations.
  abbrev pub remember_answer : String → Result Fields → Exec Cache Fields
  remember_answer key (err e) cache = (err e, cache)
  remember_answer key (ok response) cache = (
    ok response,
    if has_citations (get_field "citations" response)
        then (if ltb o.ttl_seconds 1 then cache else insert key (obj response) cache)
        else cache,
  )

  -- CachedKnowledgeConnector.answer
  unfoldable pub cached_answer : String → RequestContext → Exec Cache Fields
  unfolding knowledge_key
  cached_answer query context cache = elim (lookup (knowledge_key query context) cache) [
    | some (obj fields) ↦ (ok fields, cache)
    | _ ↦ remember_answer (knowledge_key query context) (o.ask query context) cache
  ]

  abbrev pub no_answer : KnowledgeAnswer
  no_answer = record {
    answer = "知识库未返回可验证的引用，本次不生成答案。";
    citations = [];
    warnings = "知识库结果缺少引用" ∷ [];
    status = insufficient_evidence;
  }

  abbrev pub add_citation :
      Option KnowledgeCitation → Option (List KnowledgeCitation) → Option (List KnowledgeCitation)
  add_citation (some c) (some cs) = some (c ∷ cs)
  add_citation _ _ = none

  unfoldable pub valid_citations : Items → Option (List KnowledgeCitation)
  valid_citations nil = some []
  valid_citations (item v rest) = add_citation (o.valid_citation v) (valid_citations rest)

  abbrev pub citations_of : Value → Option (List KnowledgeCitation)
  citations_of (arr items) = valid_citations items
  citations_of _ = none

  -- KnowledgeAnswer.model_validate: a ValidationError is a ValueError.
  abbrev pub validated : Option String → Option (List KnowledgeCitation) → Result KnowledgeAnswer
  validated (some text) (some citations) =
      ok (record { answer = text; citations = citations; warnings = []; status = completed })
  validated _ _ = err (value_error "validation error")

  -- `response["answer"]`, which the code reads only where there are citations
  abbrev pub answer_of : Fields → Value → Result KnowledgeAnswer
  answer_of response citations = elim (get_field "answer" response) [
    | none ↦ err (key_error "answer")
    | some text ↦ validated (o.valid_text text) (citations_of citations)
  ]

  -- What the service makes of a response.
  unfoldable pub judge : Fields → Result KnowledgeAnswer
  unfolding valid_citations
  judge response = elim (get_field "citations" response) [
    | none ↦ ok no_answer
    | some citations ↦ if is_truthy citations then answer_of response citations else ok no_answer
  ]

  abbrev pub authenticate : RequestContext → Exec Cache (Unit {0})
  authenticate context = elim o.get_access_token [
    | none ↦ pure tt
    | some provider ↦ lift (provider context)
  ]

  -- KnowledgeService.answer, over the cached connector.
  unfoldable pub answer_query : String → RequestContext → Exec Cache KnowledgeAnswer
  unfolding cached_answer judge
  answer_query query context = do
    authenticate context
    response ← cached_answer query context
    lift (judge response)
