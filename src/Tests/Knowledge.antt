-- ===== src/Tests/Knowledge.antt =====
-- Answers of the knowledge base (app/domain/knowledge.py and app/connectors/cached.py).
use office_mult_agent.Base.{
  String, ◌<◌, some, List, [], ◌∷◌, ◌≡◌, ◌⊎◌, refl, length, In, list_eq, string_eq, ok,
}
use office_mult_agent.Base.Dict.{lookup, insert}
use office_mult_agent.Base.Text.{strip, lstrip, rstrip, is_space}
use office_mult_agent.Value.{Fields, field, str, arr, item, nil, end}
use office_mult_agent.Knowledge.{
  Outside, KnowledgeCitation, completed, knowledge_key, permission_fingerprint, cached_answer,
  answer_query, authenticate, no_answer,
}
use office_mult_agent.Knowledge.Citations.{answer_query-cited}
use office_mult_agent.Knowledge.Sharing.{Query, SameQuestion, ask_all, cached_answer-shared}
use office_mult_agent.Cache.{scoped_cache_key}
use office_mult_agent.Tests.Memories.{pair_code, pair_code_lem, list_code, list_code_lem}
use office_mult_agent.Tests.Samples.{ann}

abbrev source : KnowledgeCitation
source = record { document_id = "d1"; chunk_id = "c1"; title = "rules" }

abbrev response : Fields
response = field "answer" (str "yes") (field "citations" (arr (item (str "d1") nil)) end)

-- A prefix code in the place of json.dumps, and no hash.
abbrev base : Outside
base = record {
  get_access_token = some (λ context. ok tt);
  ask = λ query context. ok response;
  valid_text = λ v. some "yes";
  valid_citation = λ v. some source;
  dump_permissions = λ roles scopes. pair_code (list_code roles) (list_code scopes);
  hashing = record { dumps = list_code; sha256 = λ s. s };
  key_prefix = "office";
  ttl_seconds = 60;
}

answered_once :
    (answer_query base "leave" ann []).0
    ≡ ok (record { answer = "yes"; citations = source ∷ []; warnings = []; status = completed })
unfolding answer_query lookup
answered_once = refl

answer_query-cited_example :
    ((authenticate base ann []).0 ≡ ok tt)
    × (((record { answer = "yes"; citations = source ∷ []; warnings = []; status = completed })
          ≡ no_answer base)
        ⊎ (0 < length (source ∷ [])))
answer_query-cited_example =
    answer_query-cited base "leave" ann []
      (record { answer = "yes"; citations = source ∷ []; warnings = []; status = completed })
      answered_once

abbrev asked : List Query
asked = ("leave", ann) ∷ []

given_again : (cached_answer base "leave" ann (ask_all base asked [])).0 ≡ ok response
unfolding cached_answer ask_all knowledge_key lookup strip lstrip rstrip is_space insert
    scoped_cache_key permission_fingerprint
given_again = refl

permission_codes :
    (roles roles' scopes scopes' : List String)
    → base.dump_permissions roles scopes ≡ base.dump_permissions roles' scopes'
    → (roles ≡ roles') × (scopes ≡ scopes')
permission_codes roles roles' scopes scopes' same =
    let (first, second) =
      pair_code_lem (list_code roles) (list_code roles') (list_code scopes) (list_code scopes')
        same in
    (list_code_lem roles roles' first, list_code_lem scopes scopes' second)

cached_answer-shared_example :
    (p : Query) × In p (("leave", ann) ∷ asked)
    × SameQuestion base p ("leave", ann)
    × (base.ask p.0 p.1 ≡ ok response)
cached_answer-shared_example =
    cached_answer-shared base list_code_lem permission_codes asked ("leave", ann) response
      (λ p m same. same) given_again
