-- ===== src/Memories/Coherence.antt =====
-- The cache of memories is transparent (app/services/runtime_state.py, MemoryService).
use office_mult_agent.Base.{
  ℕ, String, Bool, true, false, none, some, List, [], ◌∷◌, In, In→All, All-In, map, All, ltb, ◌≡◌,
  ◌⊎◌, inl, inr, refl, sym, ap, ◌∙◌, subst, arith, ◌==◌, ==_iff, string_eq, triple_eq, eq_iff,
  Bool-cases, Option-cases, if_both, ok,
}
use office_mult_agent.Base.Dict.{
  Dict, lookup, insert, remove, lookup-insert, lookup-remove, All-insert, filter-insert_other,
}
use office_mult_agent.Value.{Value, arr}
use office_mult_agent.Context.{RequestContext}
use office_mult_agent.Cache.{scoped_cache_key-sha256}
use office_mult_agent.Delivery.{after_all}
use office_mult_agent.Memories.{
  ConfirmedMemory, Formats, MemoryKey, MemoryStore, memory_key, save_memory, is_own, own_memories,
  list_memories, dump_memories, loaded, is_list, cache_key, user_key, cache_set, remember_memory,
  dropped, list_for,
}
use office_mult_agent.Memories.Entries.{IsHonest, own_memories-IsOf, load-dump}

-- A call of the service.
pub data MemoryCall : Type 0 where
  remember_call :
      (uuid : String) (now : ℕ) (key value : String) (confirmed : Bool) (context : RequestContext)
      → MemoryCall
  list_call : (context : RequestContext) → MemoryCall

abbrev pub after_call : Formats → MemoryCall → MemoryStore → MemoryStore
after_call f (remember_call uuid now key value confirmed context) s =
    (remember_memory f uuid now key value confirmed context s).1
after_call f (list_call context) s = (list_for f context s).1

-- A tenant and an operator.
abbrev pub User : Type 0
User = String × String

abbrev pub user_of : MemoryCall → User
user_of (remember_call uuid now key value confirmed context) =
    (context.tenant_id, context.operator_id)
user_of (list_call context) = (context.tenant_id, context.operator_id)

abbrev pub hash_of : Formats → User → String
hash_of f (t, o) = f.hashing.sha256 (f.hashing.dumps (t ∷ o ∷ []))

-- The time format can be read back.
module _ (f : Formats) (parses : (t : ℕ) → f.fromisoformat (f.isoformat t) ≡ some t)
    (users : List User) where
  -- Nothing is cached for the user, or the user's memories.
  abbrev pub HoldsAt : Dict String Value → Dict MemoryKey ConfirmedMemory → User → Type 0
  HoldsAt cache memories (tenant_id, operator_id) =
      (lookup (user_key f tenant_id operator_id) cache ≡ none)
      ⊎ (lookup (user_key f tenant_id operator_id) cache
          ≡ some (arr (dump_memories f (own_memories tenant_id operator_id memories))))

  abbrev pub Coherent : MemoryStore → Type 0
  Coherent s = All (HoldsAt s.cache s.memories) users

  -- Honest entries and a coherent cache.
  abbrev pub IsSound : MemoryStore → Type 0
  IsSound s = All IsHonest s.memories × Coherent s

  pub list_for_fresh :
      (context : RequestContext) (s : MemoryStore)
      → In (context.tenant_id, context.operator_id) users
      → IsSound s
      → (list_for f context s).0 ≡ ok (list_memories context s)
  unfolding list_for list_memories
  list_for_fresh context s member h = elim (All-In (HoldsAt s.cache s.memories) users h.1 member) [
    | inl empty ↦ ground (arith, empty)
    | inr cached ↦
        let all = own_memories context.tenant_id context.operator_id s.memories in
        let back =
          load-dump f parses context all
            (own_memories-IsOf context.tenant_id context.operator_id s.memories h.0) in
        ground (arith, cached, back)
  ]

  -- What is left in the cache when an unreadable list is dropped.
  lookup-dropped :
      (context : RequestContext) (k : String) (s : MemoryStore)
      → (lookup k (dropped f context s) ≡ none)
        ⊎ (lookup k (dropped f context s) ≡ lookup k s.cache)
  lookup-dropped context k s = elim (Bool-cases (is_list (lookup (cache_key f context) s.cache))) [
    | inr kept ↦ inr (ground (arith, kept))
    | inl list ↦ elim (Bool-cases (cache_key f context == k)) [
      | inl same ↦ inl (ground (arith, list, same, lookup-remove (cache_key f context) k s.cache))
      | inr other ↦ inr (ground (arith, list, other, lookup-remove (cache_key f context) k s.cache))
    ]
  ]

  own_after :
      (context : RequestContext) (m : ConfirmedMemory) (s : MemoryStore)
      (tenant_id operator_id : String)
      → (user_key f context.tenant_id context.operator_id == user_key f tenant_id operator_id)
        ≡ false
      → own_memories tenant_id operator_id (insert (memory_key context m) m s.memories)
        ≡ own_memories tenant_id operator_id s.memories
  own_after context m s tenant_id operator_id differ = ap (map (λ e. e.1)) (
      filter-insert_other (is_own tenant_id operator_id) (memory_key context m) m s.memories
        (elim (Bool-cases (is_own tenant_id operator_id (memory_key context m))) [
          | inr no_match ↦ no_match
          | inl own ↦ absurd (clash own)
        ]))
    where
      clash : is_own tenant_id operator_id (memory_key context m) ≡ true → ⊥
      clash own =
          let t : context.tenant_id ≡ tenant_id = ground (
            arith,
            own,
            eq_iff context.tenant_id tenant_id,
            eq_iff context.operator_id operator_id,
          ) in
          let o : context.operator_id ≡ operator_id = ground (
            arith,
            own,
            eq_iff context.tenant_id tenant_id,
            eq_iff context.operator_id operator_id,
          ) in
          let same : user_key f context.tenant_id context.operator_id
              ≡ user_key f tenant_id operator_id =
            rw (t, o) refl in
          ground (
            arith,
            differ,
            (==_iff (user_key f context.tenant_id context.operator_id)
                  (user_key f tenant_id operator_id)).1
                same,
          )

  remember-IsSound :
      (uuid : String) (now : ℕ) (key value : String) (confirmed : Bool) (context : RequestContext)
      (s : MemoryStore)
      → IsSound s
      → IsSound (remember_memory f uuid now key value confirmed context s).1
  unfolding remember_memory save_memory
  remember-IsSound uuid now key value false context s h = h
  remember-IsSound uuid now key value true context s h =
      let m : ConfirmedMemory = record {
        memory_id = uuid;
        tenant_id = context.tenant_id;
        operator_id = context.operator_id;
        key = key;
        value = value;
        confirmed_at = now;
      } in
      (
        All-insert IsHonest (memory_key context m) m s.memories h.0 (refl, refl),
        In→All
            (HoldsAt (remember_memory f uuid now key value true context s).1.cache
              (remember_memory f uuid now key value true context s).1.memories)
            users (λ u at_user. kept u (All-In (HoldsAt s.cache s.memories) users h.1 at_user)),
      )
    where
      kept :
          (u : User)
          → HoldsAt s.cache s.memories u
          → HoldsAt
              (remove (cache_key f context) s.cache)
              (insert
                (context.tenant_id, context.operator_id, key)
                (record {
                  memory_id = uuid;
                  tenant_id = context.tenant_id;
                  operator_id = context.operator_id;
                  key = key;
                  value = value;
                  confirmed_at = now;
                })
                s.memories)
              u
      kept (tenant_id, operator_id) before =
          let m : ConfirmedMemory = record {
            memory_id = uuid;
            tenant_id = context.tenant_id;
            operator_id = context.operator_id;
            key = key;
            value = value;
            confirmed_at = now;
          } in
          let k = user_key f tenant_id operator_id in
          elim (Bool-cases (cache_key f context == k)) [
            | inl same ↦ inl (lookup-remove (cache_key f context) k s.cache ∙ rw same)
            | inr differ ↦
                rw
                  (
                    lookup-remove (cache_key f context) k s.cache,
                    differ,
                    own_after context m s tenant_id operator_id differ,
                  )
                  before
          ]

  dropped-HoldsAt :
      (context : RequestContext) (s : MemoryStore) (tenant_id operator_id : String)
      → HoldsAt s.cache s.memories (tenant_id, operator_id)
      → HoldsAt (dropped f context s) s.memories (tenant_id, operator_id)
  dropped-HoldsAt context s tenant_id operator_id h =
      elim (lookup-dropped context (user_key f tenant_id operator_id) s) [
        | inl gone ↦ inl gone
        | inr kept ↦ elim h [ inl empty ↦ inl (kept ∙ empty) | inr cached ↦ inr (kept ∙ cached) ]
      ]

  -- json.dumps of different lists of texts differs, and the hash of the texts for the users at hand has
  -- no collision.
  module _ (faithful : (xs ys : List String) → f.hashing.dumps xs ≡ f.hashing.dumps ys → xs ≡ ys)
      (no_collision : (u v : User)
        → In u users
        → In v users
        → hash_of f u ≡ hash_of f v
        → f.hashing.dumps (u.0 ∷ u.1 ∷ []) ≡ f.hashing.dumps (v.0 ∷ v.1 ∷ [])) where
    distinct :
        (t t' o o' : String)
        → In (t, o) users
        → In (t', o') users
        → user_key f t o ≡ user_key f t' o'
        → (t ≡ t') × (o ≡ o')
    distinct t t' o o' here there same =
        let lists : t ∷ o ∷ [] ≡ t' ∷ o' ∷ [] = faithful (t ∷ o ∷ []) (t' ∷ o' ∷ []) (
          no_collision (t, o) (t', o') here there
            (scoped_cache_key-sha256 f.hashing f.key_prefix "confirmed-memory" t t' (o ∷ [])
              (o' ∷ []) same)) in
        (cc, cc)

    insert-HoldsAt :
        (context : RequestContext) (s : MemoryStore) (tenant_id operator_id : String)
        → In (context.tenant_id, context.operator_id) users
        → In (tenant_id, operator_id) users
        → HoldsAt s.cache s.memories (tenant_id, operator_id)
        → HoldsAt
            (insert
              (cache_key f context)
              (arr
                (dump_memories f (own_memories context.tenant_id context.operator_id s.memories)))
              (dropped f context s))
            s.memories
            (tenant_id, operator_id)
    insert-HoldsAt context s tenant_id operator_id caller member h =
        let k = user_key f tenant_id operator_id in
        let own = own_memories context.tenant_id context.operator_id s.memories in
        let found =
          lookup-insert (cache_key f context) k (arr (dump_memories f own)) (dropped f context s) in
        elim (Bool-cases (cache_key f context == k)) [
          | inr differ ↦ rw (found, differ) (dropped-HoldsAt context s tenant_id operator_id h)
          | inl same ↦
              let (t, o) =
                distinct context.tenant_id tenant_id context.operator_id operator_id caller member
                  ((==_iff (cache_key f context) k).0 same) in
              let moved : some (arr (dump_memories f own))
                  ≡ some (arr (dump_memories f (own_memories tenant_id operator_id s.memories))) =
                ap
                  (λ x.
                    some (arr (dump_memories f (own_memories x context.operator_id s.memories))))
                  t
                ∙ ap (λ y. some (arr (dump_memories f (own_memories tenant_id y s.memories)))) o in
              inr (found ∙ rw same moved)
        ]

    list_for_hit :
        (context : RequestContext) (s : MemoryStore) (memories : List ConfirmedMemory)
        → loaded f context (lookup (cache_key f context) s.cache) ≡ some memories
        → list_for f context s ≡ (ok memories, s)
    unfolding list_for
    list_for_hit context s memories h = ground (arith, h)

    list_for_miss :
        (context : RequestContext) (s : MemoryStore)
        → loaded f context (lookup (cache_key f context) s.cache) ≡ none
        → list_for f context s ≡ (
          ok (list_memories context s),
          record s {
            cache =
                cache_set f
                  (cache_key f context)
                  (arr (dump_memories f (list_memories context s)))
                  (dropped f context s);
          },
        )
    unfolding list_for
    list_for_miss context s h = ground (arith, h)

    list_for-IsSound :
        (context : RequestContext) (s : MemoryStore)
        → In (context.tenant_id, context.operator_id) users
        → IsSound s
        → IsSound (list_for f context s).1
    unfolding list_for list_memories cache_set
    list_for-IsSound context s caller h =
        elim (Option-cases (loaded f context (lookup (cache_key f context) s.cache))) [
          | inr (memories, hit) ↦
              subst IsSound (sym (ap (λ r. r.1) (list_for_hit context s memories hit))) h
          | inl miss ↦ subst IsSound (sym (ap (λ r. r.1) (list_for_miss context s miss))) (
            h.0,
            In→All
                (HoldsAt
                  (cache_set f (cache_key f context)
                    (arr (
                      dump_memories f
                        (own_memories context.tenant_id context.operator_id s.memories)))
                    (dropped f context s))
                  s.memories)
                users set_holds,
          )
        ]
      where
        set_holds :
            (u : User)
            → In u users
            → HoldsAt
                (cache_set f
                  (cache_key f context)
                  (arr (
                    dump_memories f
                      (own_memories context.tenant_id context.operator_id s.memories)))
                  (dropped f context s))
                s.memories
                u
        set_holds (tenant_id, operator_id) member =
            let before = All-In (HoldsAt s.cache s.memories) users h.1 member in
            if_both (λ cache. HoldsAt cache s.memories (tenant_id, operator_id))
              (ltb f.ttl_seconds 1) (dropped-HoldsAt context s tenant_id operator_id before)
              (insert-HoldsAt context s tenant_id operator_id caller member before)

    after_call-IsSound :
        (c : MemoryCall) (s : MemoryStore)
        → In (user_of c) users
        → IsSound s
        → IsSound (after_call f c s)
    after_call-IsSound (remember_call uuid now key value confirmed context) s member h =
        remember-IsSound uuid now key value confirmed context s h
    after_call-IsSound (list_call context) s member h = list_for-IsSound context s member h

    after_all-IsSound :
        (calls : List MemoryCall) (s : MemoryStore)
        → All (λ c. In (user_of c) users) calls
        → IsSound s
        → IsSound (after_all (after_call f) calls s)
    after_all-IsSound [] s members h = h
    after_all-IsSound (c ∷ calls) s members h =
        after_all-IsSound calls (after_call f c s) members.1 (after_call-IsSound c s members.0 h)

    -- Where times can be read back from their format, json.dumps of different lists of texts differs, and
    -- SHA-256 has no collision among the cache keys of some users, the cache does not show: after any
    -- calls of these users from a sound state, as the empty one, a list that one of them asks for is this
    -- user's memories in the repository.
    pub list_for_after :
        (calls : List MemoryCall) (s : MemoryStore) (context : RequestContext)
        → All (λ c. In (user_of c) users) calls
        → In (context.tenant_id, context.operator_id) users
        → IsSound s
        → (list_for f context (after_all (after_call f) calls s)).0
          ≡ ok (list_memories context (after_all (after_call f) calls s))
    list_for_after calls s context members member h =
        list_for_fresh context (after_all (after_call f) calls s) member
          (after_all-IsSound calls s members h)
