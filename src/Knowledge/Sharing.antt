-- ===== src/Knowledge/Sharing.antt =====
-- Who is given a cached answer (app/connectors/cached.py).
use office_mult_agent.Base.{
  String, Option, some, List, [], ◌∷◌, ◌≡◌, refl, sym, arith, ◌⊎◌, inl, inr, In, All, ltb, or_else,
  string_eq, if_both, ok, Result-cases,
}
use office_mult_agent.Base.Dict.{lookup, lookup-All, All-insert}
use office_mult_agent.Base.Text.{strip, sort_names}
use office_mult_agent.Cache.{scoped_cache_key-sha256}
use office_mult_agent.Value.{Value, Fields, obj, get_field}
use office_mult_agent.Context.{RequestContext}
use office_mult_agent.Knowledge.{
  Outside, Cache, permission_fingerprint, key_parts, knowledge_key, cached_answer, remember_answer,
  has_citations,
}

abbrev pub Query : Type 0
Query = String × RequestContext

module _ (o : Outside) where
  -- An entry is what the knowledge base answered to one of the queries, under that query's key.
  abbrev pub IsAnswer : List Query → String × Value → Type 0
  IsAnswer asked (key, value) =
      (q : Query) × (fields : Fields) × In q asked
      × (key ≡ knowledge_key o q.0 q.1)
      × (value ≡ obj fields)
      × (o.ask q.0 q.1 ≡ ok fields)

  unfoldable pub ask_all : List Query → Cache → Cache
  ask_all [] cache = cache
  ask_all (q ∷ asked) cache = (cached_answer o q.0 q.1 (ask_all asked cache)).1

  IsAnswer-later :
      (q : Query) (asked : List Query) (entry : String × Value)
      → IsAnswer asked entry
      → IsAnswer (q ∷ asked) entry
  IsAnswer-later q asked entry (p, fields, m, k, v, a) = (p, fields, inr m, k, v, a)

  All-later :
      (q : Query) (asked : List Query) (cache : Cache)
      → All (IsAnswer asked) cache
      → All (IsAnswer (q ∷ asked)) cache
  All-later q asked [] h = tt
  All-later q asked (entry ∷ cache) h =
      (IsAnswer-later q asked entry h.0, All-later q asked cache h.1)

  remember-IsAnswer :
      (q : Query) (asked : List Query) (cache : Cache)
      → All (IsAnswer (q ∷ asked)) cache
      → All
          (IsAnswer (q ∷ asked))
          (remember_answer o (knowledge_key o q.0 q.1) (o.ask q.0 q.1) cache).1
  remember-IsAnswer q asked cache h = elim (Result-cases (o.ask q.0 q.1)) [
    | inr (e, failed) ↦ rw failed h
    | inl (fields, answered) ↦ rw answered (
        if_both (All (IsAnswer (q ∷ asked))) (has_citations o (get_field "citations" fields))
          (if_both (All (IsAnswer (q ∷ asked))) (ltb o.ttl_seconds 1) h (
            All-insert (IsAnswer (q ∷ asked)) (knowledge_key o q.0 q.1) (obj fields) cache h
              (q, fields, inl refl, refl, refl, answered)))
          h)
  ]

  -- A call is answered from the cache, or by the knowledge base.
  answered_by :
      (q : Query) (cache : Cache)
      → ((fields : Fields) × (lookup (knowledge_key o q.0 q.1) cache ≡ some (obj fields))
          × (cached_answer o q.0 q.1 cache ≡ (ok fields, cache)))
        ⊎ (cached_answer o q.0 q.1 cache
            ≡ remember_answer o (knowledge_key o q.0 q.1) (o.ask q.0 q.1) cache)
  unfolding cached_answer
  answered_by q cache = of_value (lookup (knowledge_key o q.0 q.1) cache) refl
    where
      of_value :
          (found : Option Value)
          → lookup (knowledge_key o q.0 q.1) cache ≡ found
          → ((fields : Fields) × (lookup (knowledge_key o q.0 q.1) cache ≡ some (obj fields))
              × (cached_answer o q.0 q.1 cache ≡ (ok fields, cache)))
            ⊎ (cached_answer o q.0 q.1 cache
                ≡ remember_answer o (knowledge_key o q.0 q.1) (o.ask q.0 q.1) cache)
      of_value (some (obj fields)) is = inl (fields, is, ground (arith, is))
      of_value _ is = inr (ground (arith, is))

  cached-IsAnswer :
      (q : Query) (asked : List Query) (cache : Cache)
      → All (IsAnswer (q ∷ asked)) cache
      → All (IsAnswer (q ∷ asked)) (cached_answer o q.0 q.1 cache).1
  cached-IsAnswer q asked cache h = elim (answered_by q cache) [
    | inl (fields, here, is) ↦ rw is h
    | inr is ↦ rw is (remember-IsAnswer q asked cache h)
  ]

  ask_all-IsAnswer : (asked : List Query) → All (IsAnswer asked) (ask_all asked [])
  unfolding ask_all
  ask_all-IsAnswer [] = tt
  ask_all-IsAnswer (q ∷ asked) =
      cached-IsAnswer q asked (ask_all asked [])
        (All-later q asked (ask_all asked []) (ask_all-IsAnswer asked))

  -- What is hashed for a query.
  abbrev pub hashed_text : Query → String
  hashed_text (query, context) = o.hashing.dumps (context.tenant_id ∷ key_parts o query context)

  -- Both queries are of the same tenant, operator and employee (where there is one), with the same roles
  -- and the same scopes, and of the same text, without the blanks at its ends.
  pub record SameQuestion (p q : Query) : Type 0 where
    pub tenant_id : p.1.tenant_id ≡ q.1.tenant_id
    pub operator_id : p.1.operator_id ≡ q.1.operator_id
    pub employee_id : or_else p.1.employee_id "" ≡ or_else q.1.employee_id ""
    pub roles : sort_names p.1.role_ids ≡ sort_names q.1.role_ids
    pub scopes : sort_names p.1.permission_scopes ≡ sort_names q.1.permission_scopes
    pub text : strip p.0 ≡ strip q.0

  module _ (faithful : (xs ys : List String) → o.hashing.dumps xs ≡ o.hashing.dumps ys → xs ≡ ys)
      (permissions : (roles roles' scopes scopes' : List String)
        → o.dump_permissions roles scopes ≡ o.dump_permissions roles' scopes'
        → (roles ≡ roles') × (scopes ≡ scopes')) where
    same_key-SameQuestion :
        (p q : Query)
        → (o.hashing.sha256 (hashed_text p) ≡ o.hashing.sha256 (hashed_text q)
            → hashed_text p ≡ hashed_text q)
        → knowledge_key o p.0 p.1 ≡ knowledge_key o q.0 q.1
        → SameQuestion p q
    unfolding knowledge_key permission_fingerprint
    same_key-SameQuestion p q no_collision same =
        let lists : p.1.tenant_id ∷ key_parts o p.0 p.1 ≡ q.1.tenant_id ∷ key_parts o q.0 q.1 =
          faithful (p.1.tenant_id ∷ key_parts o p.0 p.1) (q.1.tenant_id ∷ key_parts o q.0 q.1) (
            no_collision (
              scoped_cache_key-sha256 o.hashing o.key_prefix "knowledge-answer" p.1.tenant_id
                q.1.tenant_id (key_parts o p.0 p.1) (key_parts o q.0 q.1) same)) in
        let prints : permission_fingerprint o p.1 ≡ permission_fingerprint o q.1 = cc in
        let (roles, scopes) =
          permissions (sort_names p.1.role_ids) (sort_names q.1.role_ids)
            (sort_names p.1.permission_scopes) (sort_names q.1.permission_scopes) prints in
        record {
          tenant_id = cc;
          operator_id = cc;
          employee_id = cc;
          roles = roles;
          scopes = scopes;
          text = cc;
        }

    -- Where json.dumps of different lists of texts, and of different roles or scopes, differs, and
    -- SHA-256 has no collision between this query's key and those of the earlier ones: after any
    -- queries, a caller is given what the knowledge base answered to that query itself, or to an earlier
    -- one of the same tenant, operator, employee, roles, scopes and text (without the blanks at its
    -- ends).
    pub cached_answer-shared :
        (asked : List Query) (q : Query) (fields : Fields)
        → ((p : Query)
            → In p asked
            → o.hashing.sha256 (hashed_text p) ≡ o.hashing.sha256 (hashed_text q)
            → hashed_text p ≡ hashed_text q)
        → (cached_answer o q.0 q.1 (ask_all asked [])).0 ≡ ok fields
        → (p : Query) × In p (q ∷ asked) × SameQuestion p q × (o.ask p.0 p.1 ≡ ok fields)
    cached_answer-shared asked q fields no_collision given =
        elim (answered_by q (ask_all asked [])) [
          | inl (cached, here, is) ↦
              let (p, kept, m, same_key, same_value, asked_p) =
                lookup-All (IsAnswer asked) (knowledge_key o q.0 q.1) (obj cached)
                  (ask_all asked []) (ask_all-IsAnswer asked) here in
              let same : cached ≡ fields = ground (arith, is, given) in
              (
                p,
                inr m,
                same_key-SameQuestion p q (no_collision p m) (sym same_key),
                ground (arith, asked_p, same_value, same),
              )
          | inr is ↦ (
            q,
            inl refl,
            record {
              tenant_id = refl;
              operator_id = refl;
              employee_id = refl;
              roles = refl;
              scopes = refl;
              text = refl;
            },
            asked_now (ground (arith, is, given)),
          )
        ]
      where
        asked_now :
            (remember_answer o (knowledge_key o q.0 q.1) (o.ask q.0 q.1) (ask_all asked [])).0
              ≡ ok fields
            → o.ask q.0 q.1 ≡ ok fields
        asked_now h = elim (Result-cases (o.ask q.0 q.1)) [
          | inl (response, answered) ↦ ground (arith, h, answered)
          | inr (e, failed) ↦ absurd (ground (arith, h, failed))
        ]
