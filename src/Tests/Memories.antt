-- ===== src/Tests/Memories.antt =====
-- Memories behind the cache (app/services/runtime_state.py). The formats are simple ones that satisfy
-- what is asked of them: a prefix code for the cache keys, and times in unary.
use Prim.Native.Char.{code}
use office_mult_agent.Base.{
  ℕ, zero, suc, String, true, some, List, [], ◌∷◌, ◌≡◌, refl, ap, ap₂, inl, arith, ok,
}
use office_mult_agent.Base.Dict.{lookup}
use office_mult_agent.Delivery.{after_all}
use office_mult_agent.Memories.{Formats, MemoryStore, list_memories, list_for}
use office_mult_agent.Memories.Coherence.{
  MemoryCall, remember_call, list_call, after_call, list_for_after,
}
use office_mult_agent.Tests.Samples.{ann}

abbrev pub pair_code : String → String → String
pair_code String.[] o = String.◌∷◌ "0" o
pair_code (String.◌∷◌ c s) o = String.◌∷◌ "1" (String.◌∷◌ c (pair_code s o))

abbrev first_code : String → ℕ
first_code String.[] = 0
first_code (String.◌∷◌ c s) = code c

pub pair_code_lem : (t t' o o' : String) → pair_code t o ≡ pair_code t' o' → (t ≡ t') × (o ≡ o')
pair_code_lem String.[] String.[] o o' h = ground (arith, h)
pair_code_lem String.[] (String.◌∷◌ d t') o o' h = absurd (omega (arith, ap first_code h))
pair_code_lem (String.◌∷◌ c t) String.[] o o' h = absurd (omega (arith, ap first_code h))
pair_code_lem (String.◌∷◌ c t) (String.◌∷◌ d t') o o' h = ground (arith, h, pair_code_lem t t' o o')

-- A prefix code in the place of json.dumps.
abbrev pub list_code : List String → String
list_code [] = "0"
list_code (s ∷ ss) = String.◌∷◌ "1" (pair_code s (list_code ss))

pub list_code_lem : (xs ys : List String) → list_code xs ≡ list_code ys → xs ≡ ys
list_code_lem [] [] h = refl
list_code_lem [] (y ∷ ys) h = absurd (omega (arith, ap first_code h))
list_code_lem (x ∷ xs) [] h = absurd (omega (arith, ap first_code h))
list_code_lem (x ∷ xs) (y ∷ ys) h =
    let codes : pair_code x (list_code xs) ≡ pair_code y (list_code ys) = ground (arith, h) in
    let (first, others) = pair_code_lem x y (list_code xs) (list_code ys) codes in
    ap₂ (λ s ss. s ∷ ss) first (list_code_lem xs ys others)

abbrev pub unary : ℕ → String
unary zero = String.[]
unary (suc n) = String.◌∷◌ "1" (unary n)

abbrev pub count : String → ℕ
count String.[] = zero
count (String.◌∷◌ c s) = suc (count s)

pub count-unary : (n : ℕ) → count (unary n) ≡ n
count-unary zero = refl
count-unary (suc n) = ap suc (count-unary n)

abbrev pub formats : Formats
formats = record {
  hashing = record { dumps = list_code; sha256 = λ s. s };
  key_prefix = "office";
  isoformat = unary;
  fromisoformat = λ s. some (count s);
  repr = λ v. "?";
  ttl_seconds = 300;
}

abbrev pub no_memories : MemoryStore
no_memories = record { memories = []; schedules = []; cache = [] }

abbrev memory_calls : List MemoryCall
memory_calls =
    remember_call "u1" 3 "tone" "short" true ann
    ∷ list_call ann
    ∷ remember_call "u2" 4 "tone" "long" true ann
    ∷ []

list_for_after_example :
    (list_for formats ann (after_all (after_call formats) memory_calls no_memories)).0
    ≡ ok (list_memories ann (after_all (after_call formats) memory_calls no_memories))
unfolding lookup
list_for_after_example =
    list_for_after formats (λ n. ap some (count-unary n)) (("acme", "ann") ∷ []) list_code_lem
      (λ u v here there same. same) memory_calls no_memories ann
      (inl refl, (inl refl, (inl refl, tt))) (inl refl) (tt, (inl refl, tt))
