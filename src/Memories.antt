-- ===== src/Memories.antt =====
-- Confirmed memories and schedules (app/services/runtime_state.py): the in-memory repository,
-- MemoryService with a cache, and ScheduleService. The cache is InMemoryJsonCache of
-- app/services/cache.py, whose entries do not expire.
pub mod Entries
pub mod Coherence
use office_mult_agent.Base.{
  ℕ, String, Bool, true, false, not, ◌&&◌, Option, none, some, List, [], ◌∷◌, map, filter, length,
  ltb, ◌==◌, nat_eq, string_eq, pair_eq, triple_eq, if◌then◌else◌, Error, permission_error,
  value_error, Result, ok, err, Exec,
}
use office_mult_agent.Base.Dict.{Dict, lookup, insert, remove}
use office_mult_agent.Base.Text.{split}
use office_mult_agent.Value.{
  Value, Fields, Items, str, obj, arr, field, end, item, nil, get_field, as_dict, to_str,
}
use office_mult_agent.Context.{RequestContext}
use office_mult_agent.Cache.{Hashing, scoped_cache_key}

pub record ConfirmedMemory : Type 0 where
  pub memory_id : String
  pub tenant_id : String
  pub operator_id : String
  pub key : String
  pub value : String
  pub confirmed_at : ℕ

pub record Schedule : Type 0 where
  pub schedule_id : String
  pub tenant_id : String
  pub name : String
  pub cron : String
  pub task_type : String
  pub enabled : Bool

-- What the service takes from outside: the hashing of cache keys and their prefix, the ISO format of a time and its
-- parser, and `str` of a value that is no text; and how long an entry is to live.
pub record Formats : Type 0 where
  pub hashing : Hashing
  pub key_prefix : String
  pub isoformat : ℕ → String
  pub fromisoformat : String → Option ℕ
  pub repr : Value → String
  pub ttl_seconds : ℕ

-- `(tenant_id, operator_id, key)`
abbrev pub MemoryKey : Type 0
MemoryKey = String × String × String

pub record MemoryStore : Type 0 where
  pub memories : Dict MemoryKey ConfirmedMemory
  pub schedules : Dict (String × String) Schedule
  pub cache : Dict String Value

abbrev pub memory_key : RequestContext → ConfirmedMemory → MemoryKey
memory_key context m = (context.tenant_id, context.operator_id, m.key)

unfoldable pub save_memory : ConfirmedMemory → RequestContext → Exec MemoryStore ConfirmedMemory
save_memory m context s = (ok m, record s { memories = insert (memory_key context m) m s.memories })

abbrev pub is_own : String → String → MemoryKey → Bool
is_own tenant_id operator_id k = k.0 == tenant_id && k.1 == operator_id

abbrev pub own_memories : String → String → Dict MemoryKey ConfirmedMemory → List ConfirmedMemory
own_memories tenant_id operator_id d =
    map (λ e. e.1) (filter (λ e. is_own tenant_id operator_id e.0) d)

unfoldable pub list_memories : RequestContext → MemoryStore → List ConfirmedMemory
list_memories context s = own_memories context.tenant_id context.operator_id s.memories

abbrev pub dump_memory : Formats → ConfirmedMemory → Fields
dump_memory f m = field "memory_id" (str m.memory_id) (
    field "key" (str m.key)
      (field "value" (str m.value) (field "confirmed_at" (str (f.isoformat m.confirmed_at)) end)))

abbrev pub dump_memories : Formats → List ConfirmedMemory → Items
dump_memories f [] = nil
dump_memories f (m ∷ ms) = item (obj (dump_memory f m)) (dump_memories f ms)

abbrev pub read_text : Formats → String → Fields → Option String
read_text f key fields = elim (get_field key fields) [
  | none ↦ none
  | some v ↦ some (to_str f.repr v)
]

abbrev pub read_time : Formats → Fields → Option ℕ
read_time f fields = elim (read_text f "confirmed_at" fields) [
  | none ↦ none
  | some text ↦ f.fromisoformat text
]

abbrev pub build_memory :
    RequestContext
    → Option String
    → Option String
    → Option String
    → Option ℕ
    → Option ConfirmedMemory
build_memory context (some memory_id) (some key) (some value) (some confirmed_at) = some (record {
  memory_id = memory_id;
  tenant_id = context.tenant_id;
  operator_id = context.operator_id;
  key = key;
  value = value;
  confirmed_at = confirmed_at;
})
build_memory context _ _ _ _ = none

-- A cached entry as a memory, unless a KeyError, TypeError or ValueError is raised.
abbrev pub load_memory : Formats → RequestContext → Value → Option ConfirmedMemory
load_memory f context (obj fields) =
    build_memory context (read_text f "memory_id" fields) (read_text f "key" fields)
      (read_text f "value" fields) (read_time f fields)
load_memory f context _ = none

abbrev pub add_loaded :
    Option ConfirmedMemory → Option (List ConfirmedMemory) → Option (List ConfirmedMemory)
add_loaded (some m) (some ms) = some (m ∷ ms)
add_loaded _ _ = none

unfoldable pub load_memories : Formats → RequestContext → Items → Option (List ConfirmedMemory)
load_memories f context nil = some []
load_memories f context (item v rest) =
    add_loaded (load_memory f context v) (load_memories f context rest)

-- What the cache holds for a list, if it is a list at all and can be read.
abbrev pub loaded : Formats → RequestContext → Option Value → Option (List ConfirmedMemory)
loaded f context (some (arr items)) = load_memories f context items
loaded f context _ = none

-- Whether a cached list could not be read, and is dropped.
abbrev pub is_list : Option Value → Bool
is_list (some (arr items)) = true
is_list _ = false

module _ (f : Formats) where
  abbrev pub user_key : String → String → String
  user_key tenant_id operator_id =
      scoped_cache_key f.hashing f.key_prefix "confirmed-memory" tenant_id (operator_id ∷ [])

  abbrev pub cache_key : RequestContext → String
  cache_key context = user_key context.tenant_id context.operator_id

  -- InMemoryJsonCache.set
  unfoldable pub cache_set : String → Value → Dict String Value → Dict String Value
  cache_set key value cache = if ltb f.ttl_seconds 1 then cache else insert key value cache

  unfoldable pub remember_memory :
      String → ℕ → String → String → Bool → RequestContext → Exec MemoryStore ConfirmedMemory
  unfolding save_memory
  remember_memory uuid now key value confirmed context s =
      let m : ConfirmedMemory = record {
        memory_id = uuid;
        tenant_id = context.tenant_id;
        operator_id = context.operator_id;
        key = key;
        value = value;
        confirmed_at = now;
      } in
      if confirmed
      then (ok m, record (save_memory m context s).1 { cache = remove (cache_key context) s.cache })
      else (err (permission_error "memory requires explicit user confirmation"), s)

  abbrev pub dropped : RequestContext → MemoryStore → Dict String Value
  dropped context s =
      if is_list (lookup (cache_key context) s.cache)
      then remove (cache_key context) s.cache
      else s.cache

  unfoldable pub list_for : RequestContext → Exec MemoryStore (List ConfirmedMemory)
  unfolding list_memories load_memories cache_set
  list_for context s = elim (loaded f context (lookup (cache_key context) s.cache)) [
    | some memories ↦ (ok memories, s)
    | none ↦
        let memories = list_memories context s in
        (
          ok memories,
          record s {
            cache =
                cache_set (cache_key context) (arr (dump_memories f memories)) (dropped context s);
          },
        )
  ]

-- ScheduleService.create
unfoldable pub create_schedule :
    String → String → String → String → RequestContext → Exec MemoryStore Schedule
create_schedule uuid name cron task_type context s =
    let schedule : Schedule = record {
      schedule_id = uuid;
      tenant_id = context.tenant_id;
      name = name;
      cron = cron;
      task_type = task_type;
      enabled = true;
    } in
    if length (split cron) == 5
    then (
      ok schedule,
      record s { schedules = insert (context.tenant_id, uuid) schedule s.schedules },
    )
    else (err (value_error "cron expression must contain five fields"), s)

unfoldable pub list_schedules : RequestContext → MemoryStore → List Schedule
list_schedules context s = map (λ e. e.1) (filter (λ e. e.0.0 == context.tenant_id) s.schedules)
