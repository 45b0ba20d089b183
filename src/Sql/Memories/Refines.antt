-- ===== src/Sql/Memories/Refines.antt =====
-- The table of memories behaves as the dict of InMemoryRuntimeStateRepository, up to the id and the
-- time of a memory that is written again.
use office_mult_agent.Base.{
  ℕ, String, true, false, ==_iff, subst, ap, none, some, List, [], ◌∷◌, ◌++◌, map, ◌≡◌, refl, arith,
  ◌==◌, string_eq, triple_eq, ok, In, AllDifferent, sym, inl, inr, Bool-cases, Option-cases, ◌↔◌,
}
use office_mult_agent.Base.Dict.{Dict, insert}
use office_mult_agent.Context.{RequestContext}
use office_mult_agent.Memories.{
  ConfirmedMemory, MemoryKey, MemoryStore, memory_key, own_memories, list_memories, save_memory,
}
use office_mult_agent.Sql.Rows.{
  row_at, Unique, change_where, change_where-none, scalar-select, insert_row, row_at-key,
  keys-change, Unique-append,
}
use office_mult_agent.Sql.Memories.{
  UserMemory, user_key, new_memory, overwrite_memory, save_memory_row, write_memory,
  list_memory_rows,
}

abbrev pub Holds : UserMemory → MemoryKey × ConfirmedMemory → Type 0
Holds r (k, m) =
    (user_key r ≡ k) × (r.memory_key ≡ m.key) × (r.memory_value ≡ m.value) × (r.confirmed ≡ true)

-- Row for entry, a table and a dict hold the same values.
abbrev pub Same : List UserMemory → Dict MemoryKey ConfirmedMemory → Type 0
Same [] [] = Unit
Same (r ∷ rows) (entry ∷ d) = Holds r entry × Same rows d
Same _ _ = ⊥

module _ (m : ConfirmedMemory) (now : ℕ) (context : RequestContext) where
  abbrev key : MemoryKey
  key = (context.tenant_id, context.operator_id, m.key)

  Same-insert_new :
      (rows : List UserMemory) (d : Dict MemoryKey ConfirmedMemory)
      → Same rows d
      → row_at user_key key rows ≡ none
      → Same (rows ++ new_memory m now context ∷ []) (insert key m d)
  unfolding insert
  Same-insert_new [] [] same unused = ((refl, refl, refl, refl), tt)
  Same-insert_new (r ∷ rows) ((k, w) ∷ d) same unused =
      let miss : (k == key) ≡ false = ground (arith, same.0.0, unused) in
      rw miss (same.0, Same-insert_new rows d same.1 (ground (arith, same.0.0, unused)))
  Same-insert_new [] (entry ∷ d) same unused = absurd same
  Same-insert_new (r ∷ rows) [] same unused = absurd same

  Same-overwrite :
      (old : UserMemory) (rows : List UserMemory) (d : Dict MemoryKey ConfirmedMemory)
      → Same rows d
      → Unique user_key rows
      → row_at user_key key rows ≡ some old
      → Same (change_where (λ r. user_key r == key) (overwrite_memory m now) rows) (insert key m d)
  unfolding insert change_where
  Same-overwrite old [] [] same u found = cc
  Same-overwrite old (r ∷ rows) ((k, w) ∷ d) same u found = elim (Bool-cases (k == key)) [
    | inl hit ↦
        let at_row : (user_key r == key) ≡ true = ground (arith, hit, same.0.0) in
        let is : user_key r ≡ key = (==_iff (user_key r) key).0 at_row in
        let fresh : ¬ In key (map user_key rows) =
          subst (λ j. ¬ In j (map user_key rows)) (is) u.0 in
        rw (hit, at_row, change_where-none user_key key (overwrite_memory m now) rows fresh)
          ((same.0.0, ground (arith, is), refl, refl), same.1)
    | inr miss ↦
        let off_row : (user_key r == key) ≡ false = ground (arith, miss, same.0.0) in
        rw (miss, off_row)
          (same.0, Same-overwrite old rows d same.1 u.1 (ground (arith, off_row, found)))
  ]
  Same-overwrite old [] (entry ∷ d) same u found = absurd same
  Same-overwrite old (r ∷ rows) [] same u found = absurd same

  module _ (rows : List UserMemory) (d : Dict MemoryKey ConfirmedMemory) (same : Same rows d)
      (unique : Unique user_key rows) where
    save-found :
        (old : UserMemory)
        → row_at user_key key rows ≡ some old
        → save_memory_row m now context rows
          ≡ (ok m, change_where (λ r. user_key r == key) (overwrite_memory m now) rows)
    unfolding save_memory_row write_memory
    save-found old found =
        let at_key : user_key old ≡ key = row_at-key user_key key rows found in
        rw (scalar-select user_key key rows unique, found)
          (ap (λ k. (ok m, change_where (λ r. user_key r == k) (overwrite_memory m now) rows))
            (at_key))

    save-unused :
        row_at user_key key rows ≡ none
        → row_at (λ r. r.id) m.memory_id rows ≡ none
        → save_memory_row m now context rows ≡ (ok m, rows ++ new_memory m now context ∷ [])
    unfolding save_memory_row write_memory insert_row
    save-unused unused new_id =
        ground (arith, scalar-select user_key key rows unique, unused, new_id)

    -- A save
    save-Same :
        row_at (λ r. r.id) m.memory_id rows ≡ none
        → ((save_memory_row m now context rows).0 ≡ ok m)
          × Same (save_memory_row m now context rows).1 (insert (memory_key context m) m d)
          × Unique user_key (save_memory_row m now context rows).1
    save-Same new_id = elim (Option-cases (row_at user_key key rows)) [
      | inl unused ↦ rw (save-unused unused new_id) (
        refl,
        Same-insert_new rows d same unused,
        Unique-append user_key (new_memory m now context) rows unique unused,
      )
      | inr (old, found) ↦
          rw (save-found old found) (refl, Same-overwrite old rows d same unique found, kept)
    ]
      where
        kept : Unique user_key (change_where (λ r. user_key r == key) (overwrite_memory m now) rows)
        kept =
            subst AllDifferent
              (sym (
                keys-change user_key (λ r. user_key r == key) (overwrite_memory m now) (λ r. refl)
                  rows))
              unique

-- What a user reads of a memory.
abbrev pub text_of : ConfirmedMemory → String × String
text_of m = (m.key, m.value)

Same-list :
    (context : RequestContext) (rows : List UserMemory) (d : Dict MemoryKey ConfirmedMemory)
    → Same rows d
    → map text_of (list_memory_rows context rows)
      ≡ map text_of (own_memories context.tenant_id context.operator_id d)
unfolding list_memory_rows
Same-list context [] [] same = refl
Same-list context (r ∷ rows) ((k, m) ∷ d) same =
    ground (arith, same.0, Same-list context rows d same.1)
Same-list context [] (entry ∷ d) same = absurd same
Same-list context (r ∷ rows) [] same = absurd same

-- A save, with the time of the database.
abbrev pub Save : Type 0
Save = ConfirmedMemory × ℕ × RequestContext

pub save_rows : List Save → List UserMemory → List UserMemory
save_rows [] rows = rows
save_rows ((m, now, context) ∷ rest) rows = save_rows rest (save_memory_row m now context rows).1

pub save_entries : List Save → MemoryStore → MemoryStore
save_entries [] s = s
save_entries ((m, now, context) ∷ rest) s = save_entries rest (save_memory m context s).1

-- Every save brings an id that no row has.
abbrev pub NewIds : List Save → List UserMemory → Type 0
NewIds [] rows = Unit
NewIds ((m, now, context) ∷ rest) rows =
    (row_at (λ r. r.id) m.memory_id rows ≡ none)
    × NewIds rest (save_memory_row m now context rows).1

save_rows-Same :
    (saves : List Save) (rows : List UserMemory) (s : MemoryStore)
    → Same rows s.memories
    → Unique user_key rows
    → NewIds saves rows
    → Same (save_rows saves rows) (save_entries saves s).memories
unfolding save_rows save_entries save_memory
save_rows-Same [] rows s same unique new_ids = same
save_rows-Same ((m, now, context) ∷ rest) rows s same unique new_ids =
    let one = save-Same m now context rows s.memories same unique new_ids.0 in
    save_rows-Same rest (save_memory_row m now context rows).1 (save_memory m context s).1 one.1
      one.2 new_ids.1

-- After any saves into empty stores, each with an id of its own, a user is listed the same keys and
-- values by the database as by the in-memory repository.
pub list_rows-list_memories :
    (saves : List Save) (context : RequestContext) (s : MemoryStore)
    → s.memories ≡ []
    → NewIds saves []
    → (text : String × String)
    → In text (map text_of (list_memory_rows context (save_rows saves [])))
      ↔ In text (map text_of (list_memories context (save_entries saves s)))
unfolding list_memories
list_rows-list_memories saves context s empty new_ids text =
    let same = save_rows-Same saves [] s (rw empty tt) tt new_ids in
    let lists = Same-list context (save_rows saves []) (save_entries saves s).memories same in
    rw lists ((λ h. h), (λ h. h))
