-- ===== src/Prelude/Dicts.antt =====
-- A Python dict in insertion order: assignment keeps the place of a key that is there.
use mathlib.Core.Path.{◌≡◌, refl, sym, subst}
use mathlib.Core.Bool.{Bool, true}
use mathlib.Core.Logic.{inl, inr}
use mathlib.Core.List.{List, [], ◌∷◌}
use mathlib.Core.Option.{Option, none, some}
use native.Mathlib.Omega.{arith}
use predictive_autoscaler.Prelude.Tests.{Comparable, ◌==◌, if◌then◌else◌, is_some, Bool-cases}
use predictive_autoscaler.Prelude.Lists.{All}

abbrev pub Dict {ℓ κ} : Type ℓ → Type κ → Type (ℓ ⊔ κ)
Dict K V = List (K × V)

module _ {ℓ κ} {K : Type ℓ} {V : Type κ} where
  -- `{k: v for k, v in d.items() if p(k)}`
  abbrev pub keep_keys : (K → Bool) → Dict K V → Dict K V
  keep_keys p [] = []
  keep_keys p ((j, v) ∷ d) = let rest = keep_keys p d in if p j then (j, v) ∷ rest else rest

  pub All-keep_keys {ρ} :
      (P : K × V → Type ρ) (p : K → Bool) (d : Dict K V) → All P d → All P (keep_keys p d)
  All-keep_keys P p [] h = h
  All-keep_keys P p ((j, v) ∷ d) h = elim (Bool-cases (p j)) [
    | inl e ↦ rw e (h.0, All-keep_keys P p d h.1)
    | inr e ↦ rw e (All-keep_keys P p d h.1)
  ]

  -- What is kept has a key that passes.
  pub All-keep_keys_self : (p : K → Bool) (d : Dict K V) → All (λ e. p e.0 ≡ true) (keep_keys p d)
  All-keep_keys_self p [] = tt
  All-keep_keys_self p ((j, v) ∷ d) = elim (Bool-cases (p j)) [
    | inl e ↦ rw e (e, All-keep_keys_self p d)
    | inr e ↦ rw e (All-keep_keys_self p d)
  ]

module _ {ℓ κ} {K : Type ℓ} {V : Type κ} ⦃e : Comparable K⦄ where
  -- `d.get(k)`
  abbrev pub lookup : K → Dict K V → Option V
  lookup k [] = none
  lookup k ((j, v) ∷ d) = if j == k then some v else lookup k d

  -- `d[k] = v`
  abbrev pub insert : K → V → Dict K V → Dict K V
  insert k v [] = (k, v) ∷ []
  insert k v ((j, w) ∷ d) = if j == k then (j, v) ∷ d else (j, w) ∷ insert k v d

  -- `d.pop(k, None)`
  abbrev pub erase : K → Dict K V → Dict K V
  erase k [] = []
  erase k ((j, w) ∷ d) = let rest = erase k d in if j == k then rest else (j, w) ∷ rest

  -- `k in d`
  abbrev pub contains : K → Dict K V → Bool
  contains k d = is_some (lookup k d)

  -- `d.setdefault(k, v)`
  abbrev pub set_default : K → V → Dict K V → Dict K V
  set_default k v d = if contains k d then d else insert k v d

  pub lookup-insert :
      (k j : K) (v : V) (d : Dict K V)
      → lookup j (insert k v d) ≡ (if k == j then some v else lookup j d)
  lookup-insert k j v [] = refl
  lookup-insert k j v ((i, w) ∷ d) =
      ground (arith, e.same_iff k j, e.same_iff i k, e.same_iff i j, lookup-insert k j v d)

  pub lookup-erase :
      (k j : K) (d : Dict K V) → lookup j (erase k d) ≡ (if k == j then none else lookup j d)
  lookup-erase k j [] = ground arith
  lookup-erase k j ((i, w) ∷ d) =
      ground (arith, e.same_iff k j, e.same_iff i k, e.same_iff i j, lookup-erase k j d)

  pub lookup-keep_keys :
      (p : K → Bool) (j : K) (d : Dict K V)
      → lookup j (keep_keys p d) ≡ (if p j then lookup j d else none)
  lookup-keep_keys p j [] = ground arith
  lookup-keep_keys p j ((i, w) ∷ d) = ground (arith, e.same_iff i j, lookup-keep_keys p j d)

pub ruleset dict_laws = (lookup-insert, lookup-erase, lookup-keep_keys)

module _ {ℓ κ ρ} {K : Type ℓ} {V : Type κ} ⦃e : Comparable K⦄ (P : K × V → Type ρ) where
  pub All-insert : (k : K) (v : V) (d : Dict K V) → P (k, v) → All P d → All P (insert k v d)
  All-insert k v [] p h = (p, tt)
  All-insert k v ((j, w) ∷ d) p h = elim (Bool-cases (j == k)) [
    | inl q ↦
        let same : j ≡ k = (e.same_iff j k).0 q in rw q (subst (λ i. P (i, v)) (sym same) p, h.1)
    | inr q ↦ rw q (h.0, All-insert k v d p h.1)
  ]

  pub All-erase : (k : K) (d : Dict K V) → All P d → All P (erase k d)
  All-erase k [] h = h
  All-erase k ((j, w) ∷ d) h = elim (Bool-cases (j == k)) [
    | inl q ↦ rw q (All-erase k d h.1)
    | inr q ↦ rw q (h.0, All-erase k d h.1)
  ]

  pub All-lookup : (k : K) (v : V) (d : Dict K V) → lookup k d ≡ some v → All P d → P (k, v)
  All-lookup k v [] q h = absurd (ground (arith, q))
  All-lookup k v ((j, w) ∷ d) q h = elim (Bool-cases (j == k)) [
    | inl s ↦
        let key : j ≡ k = (e.same_iff j k).0 s in
        let found : some w ≡ some v = rw s at q in
        let value : w ≡ v = cc in subst (λ i. P (i, v)) key (subst (λ x. P (j, x)) value h.0)
    | inr s ↦ All-lookup k v d (rw s at q) h.1
  ]
