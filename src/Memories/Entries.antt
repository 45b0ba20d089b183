-- ===== src/Memories/Entries.antt =====
-- What a user's entries are, and how the cache gives them back (app/services/runtime_state.py).
use office_mult_agent.Base.{
  ℕ, String, some, List, [], ◌∷◌, All, ◌≡◌, inl, inr, refl, arith, string_eq, triple_eq, eq_iff,
  Bool-cases,
}
use office_mult_agent.Base.Dict.{Dict}
use office_mult_agent.Context.{RequestContext}
use office_mult_agent.Memories.{
  ConfirmedMemory, Formats, MemoryKey, is_own, own_memories, dump_memories, load_memories,
}

-- A memory stands under its own tenant and operator.
abbrev pub IsHonest : MemoryKey × ConfirmedMemory → Type 0
IsHonest (k, m) = (m.tenant_id ≡ k.0) × (m.operator_id ≡ k.1)

abbrev pub IsOf : String → String → ConfirmedMemory → Type 0
IsOf tenant_id operator_id m = (m.tenant_id ≡ tenant_id) × (m.operator_id ≡ operator_id)

pub own_memories-IsOf :
    (tenant_id operator_id : String) (d : Dict MemoryKey ConfirmedMemory)
    → All IsHonest d
    → All (IsOf tenant_id operator_id) (own_memories tenant_id operator_id d)
own_memories-IsOf tenant_id operator_id [] h = tt
own_memories-IsOf tenant_id operator_id ((k, m) ∷ d) h =
    elim (Bool-cases (is_own tenant_id operator_id k)) [
      | inl own ↦ rw own (
        (
          ground (arith, h.0, own, eq_iff k.0 tenant_id, eq_iff k.1 operator_id),
          ground (arith, h.0, own, eq_iff k.0 tenant_id, eq_iff k.1 operator_id),
        ),
        own_memories-IsOf tenant_id operator_id d h.1,
      )
      | inr other ↦ rw other (own_memories-IsOf tenant_id operator_id d h.1)
    ]

module _ (f : Formats) (parses : (t : ℕ) → f.fromisoformat (f.isoformat t) ≡ some t) where
  -- A list that was written to the cache is read as it was.
  pub load-dump :
      (context : RequestContext) (ms : List ConfirmedMemory)
      → All (IsOf context.tenant_id context.operator_id) ms
      → load_memories f context (dump_memories f ms) ≡ some ms
  unfolding load_memories
  load-dump context [] h = refl
  load-dump context (m ∷ ms) h =
      ground (arith, h.0, parses m.confirmed_at, load-dump context ms h.1)
