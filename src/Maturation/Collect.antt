-- ===== src/Maturation/Collect.antt =====
-- The loop of `window_outcome` over the targets: the values received by the cutoff, the targets
-- that were not, and the latest receipt.
use predictive_autoscaler.Prelude.{
  ℕ, max, Option, none, some, List, [], ◌∷◌, ◌++◌, Dict, lookup, ltb, Float, fmax, nat_eq,
  if◌then◌else◌,
}

pub record Scan (F : Type 0) : Type 0 where
  pub values : List F
  pub missing : List ℕ
  pub completed : ℕ

abbrev pub nothing_scanned : {F : Type 0} → Scan F
nothing_scanned = record { values = []; missing = []; completed = 0 }

module _ {F : Type 0} where
  -- `got is None or got[1] > cutoff`
  unfoldable pub admit : ℕ → ℕ → Option (F × ℕ) → Scan F → Scan F
  admit cutoff t none s = record s { missing = s.missing ++ t ∷ [] }
  admit cutoff t (some (v, at_ms)) s =
      if ltb cutoff at_ms
      then record s { missing = s.missing ++ t ∷ [] }
      else record s { values = s.values ++ v ∷ []; completed = max s.completed at_ms }

  unfoldable pub scan : Dict ℕ (F × ℕ) → ℕ → List ℕ → Scan F → Scan F
  scan received cutoff [] s = s
  scan received cutoff (t ∷ ts) s = scan received cutoff ts (admit cutoff t (lookup t received) s)

-- `max(values)`: the first of the largest. It is called on at least one value.
module _ {F : Type 0} ⦃fl : Float F⦄ where
  unfoldable pub max_from : F → List F → F
  max_from m [] = m
  max_from m (v ∷ vs) = max_from (fmax m v) vs

  unfoldable pub max_values : List F → F
  unfolding max_from
  max_values [] = fl.of_int 0
  max_values (v ∷ vs) = max_from v vs
