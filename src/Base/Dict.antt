-- ===== src/Base/Dict.antt =====
-- Python's dict as an association list in insertion order: a write to a known key keeps its place.
use mathlib.Core.Path.{◌≡◌, refl, sym, subst, ap, ◌∙◌}
use mathlib.Core.Logic.{◌≢◌, inl, inr}
use mathlib.Core.Bool.{Bool, false}
use mathlib.Core.Option.{Option, none, some}
use mathlib.Core.List.{List, [], ◌∷◌, map}
use native.Mathlib.Omega.{arith}
use office_mult_agent.Base.Tests.{if◌then◌else◌, Bool-cases}
use office_mult_agent.Base.Lists.{All, filter}
use office_mult_agent.Base.Members.{In}
use office_mult_agent.Base.Equality.{HasEq, ◌==◌, ==_refl, ==_iff}

abbrev pub Dict {ℓ κ} : Type ℓ → Type κ → Type (ℓ ⊔ κ)
Dict K V = List (K × V)

module _ {ℓ κ} {K : Type ℓ} {V : Type κ} where
  -- `d.values()`
  abbrev pub values : Dict K V → List V
  values = map (λ e. e.1)

module _ {ℓ κ} {K : Type ℓ} {V : Type κ} ⦃e : HasEq K⦄ where
  -- `d.get(k)`
  unfoldable pub lookup : K → Dict K V → Option V
  lookup k [] = none
  lookup k ((j, v) ∷ d) = if j == k then some v else lookup k d

  -- `d[k] = v`
  unfoldable pub insert : K → V → Dict K V → Dict K V
  insert k v [] = (k, v) ∷ []
  insert k v ((j, w) ∷ d) = if j == k then (j, v) ∷ d else (j, w) ∷ insert k v d

  -- `d.pop(k, None)`
  unfoldable pub remove : K → Dict K V → Dict K V
  remove k [] = []
  remove k ((j, w) ∷ d) = let rest = remove k d in if j == k then rest else (j, w) ∷ rest

  pub lookup-insert :
      (k j : K) (v : V) (d : Dict K V)
      → lookup j (insert k v d) ≡ (if k == j then some v else lookup j d)
  unfolding lookup insert
  lookup-insert k j v [] = refl
  lookup-insert k j v ((i, w) ∷ d) =
      ground (arith, e.test_iff k j, e.test_iff i k, e.test_iff i j, lookup-insert k j v d)

  pub lookup-insert_self : (k : K) (v : V) (d : Dict K V) → lookup k (insert k v d) ≡ some v
  lookup-insert_self k v d = ground (arith, lookup-insert k k v d, ==_refl k)

  pub lookup-insert_ne :
      (k j : K) (v : V) (d : Dict K V) → k ≢ j → lookup j (insert k v d) ≡ lookup j d
  lookup-insert_ne k j v d h = ground (arith, lookup-insert k j v d, e.test_iff k j)

  pub lookup-remove :
      (k j : K) (d : Dict K V) → lookup j (remove k d) ≡ (if k == j then none else lookup j d)
  unfolding lookup remove
  lookup-remove k j [] = ground arith
  lookup-remove k j ((i, w) ∷ d) =
      ground (arith, e.test_iff k j, e.test_iff i k, e.test_iff i j, lookup-remove k j d)

-- A predicate on all entries, of which each is written under its own key.
module _ {K V : Type 0} ⦃e : HasEq K⦄ where
  pub All-insert :
      (P : K × V → Type 0) (k : K) (v : V) (d : Dict K V)
      → All P d
      → P (k, v)
      → All P (insert k v d)
  unfolding insert
  All-insert P k v [] h p = (p, tt)
  All-insert P k v ((j, w) ∷ d) h p = elim (Bool-cases (j == k)) [
    | inl same ↦ rw same (subst (λ i. P (i, v)) (sym ((==_iff j k).0 same)) p, h.1)
    | inr other ↦ rw other (h.0, All-insert P k v d h.1 p)
  ]

  -- The keys are pairwise different.
  abbrev pub Distinct : Dict K V → Type 0
  Distinct [] = Unit
  Distinct ((j, w) ∷ d) = All (λ p. p.0 ≢ j) d × Distinct d

  pub insert-Distinct : (k : K) (v : V) (d : Dict K V) → Distinct d → Distinct (insert k v d)
  unfolding insert
  insert-Distinct k v [] h = (tt, tt)
  insert-Distinct k v ((j, w) ∷ d) h = elim (Bool-cases (j == k)) [
    | inl same ↦ rw same h
    | inr other ↦
        rw other (
          All-insert (λ p. p.0 ≢ j) k v d h.0 (ground (arith, ==_refl k)),
          insert-Distinct k v d h.1,
        )
  ]

  pub lookup-In : (k : K) (v : V) (d : Dict K V) → lookup k d ≡ some v → In v (values d)
  unfolding lookup
  lookup-In k v [] h = ground arith
  lookup-In k v ((j, w) ∷ d) h = ground (arith, lookup-In k v d)

  pub lookup-All :
      (P : K × V → Type 0) (k : K) (v : V) (d : Dict K V) → All P d → lookup k d ≡ some v → P (k, v)
  unfolding lookup
  lookup-All P k v [] h e = ground arith
  lookup-All P k v ((j, w) ∷ d) h e = elim (Bool-cases (j == k)) [
    | inl same ↦
        let is : w ≡ v = ground (arith, e, same) in
        subst (λ i. P (i, v)) ((==_iff j k).0 same) (subst (λ x. P (j, x)) is h.0)
    | inr other ↦ lookup-All P k v d h.1 (ground (arith, e, other))
  ]

  -- A write under a key that a filter on keys drops does not show in the filtered dict.
  pub filter-insert_other :
      (p : K → Bool) (k : K) (v : V) (d : Dict K V)
      → p k ≡ false
      → filter (λ e. p e.0) (insert k v d) ≡ filter (λ e. p e.0) d
  unfolding insert
  filter-insert_other p k v [] h = rw h
  filter-insert_other p k v ((j, w) ∷ d) h = elim (Bool-cases (j == k)) [
    | inl same ↦ let drops : p j ≡ false = ap p ((==_iff j k).0 same) ∙ h in rw (same, drops)
    | inr other ↦ rw (other, filter-insert_other p k v d h)
  ]
