-- ===== src/Gapfill.antt =====
-- Which gaps of a grid series are filled (ml-engine/data/gapfill.py: the loop over the gaps of
-- fill_interior_gaps, and _partition). Times are seconds of the epoch.
pub mod Safe
use predictive_autoscaler.Prelude.{
  ℕ, zero, suc, ◌+◌, ◌-◌, ◌*◌, ◌/◌, ◌%◌, Bool, true, false, not, ◌&&◌, ◌||◌, Option, none, some,
  List, [], ◌∷◌, ◌++◌, any, sum_by, to_int, ltb, leb, ◌==◌, nat_eq, if◌then◌else◌, sort_by, Float,
  ◌⊕◌, ◌⊖◌, ◌⊗◌, ◌⊘◌, ◌≤?◌,
}

-- The arguments that decide on a gap.
pub record GapRule : Type 0 where
  pub cutoff : Option ℕ
  pub boundaries : List ℕ
  pub grid_s : ℕ
  pub max_missing : ℕ
  pub forbidden : List (ℕ × ℕ)

-- No gap, or what becomes of it: a refusal with the record's reason, or the slots that are missing.
pub data Decision : Type 0 where
  no_gap off_grid too_long after_cutoff crosses_boundary masked : Decision
  filled : ℕ → Decision

unfoldable pub partition : ℕ → List ℕ → ℕ
partition t bs = sum_by (λ b. to_int (leb b t)) bs

abbrev pub beyond : Option ℕ → ℕ → Bool
beyond none t1 = false
beyond (some c) t1 = ltb c t1

unfoldable pub overlaps : GapRule → ℕ → ℕ → Bool
overlaps r t0 t1 =
    any (λ (i : ℕ × ℕ). leb i.0 (t1 - r.grid_s) && leb (t0 + r.grid_s) i.1) r.forbidden

-- Without boundaries both partitions are 0, so that the source's test of `boundaries` is left out.
unfoldable pub decide : GapRule → ℕ → ℕ → Decision
decide r t0 t1 =
    let missing = (t1 - t0) / r.grid_s - 1 in
    if leb (t1 - t0) r.grid_s
    then no_gap
    else if not ((t1 - t0) % r.grid_s == 0)
    then off_grid
    else if ltb r.max_missing missing
    then too_long
    else if beyond r.cutoff t1
    then after_cutoff
    else if not (partition t0 r.boundaries == partition t1 r.boundaries)
    then crosses_boundary
    else if overlaps r t0 t1
    then masked
    else filled missing

module _ {F : Type 0} ⦃fl : Float F⦄ where
  -- `for k in range(1, missing + 1)`, from k = missing + 1 - left.
  unfoldable pub slots : ℕ → ℕ → ℕ → F → F → ℕ → ℕ → List (ℕ × F)
  slots grid t0 missing v0 v1 k zero = []
  slots grid t0 missing v0 v1 k (suc left) =
      (t0 + k * grid, v0 ⊕ (v1 ⊖ v0) ⊗ (fl.of_int k ⊘ fl.of_int (missing + 1)))
      ∷ slots grid t0 missing v0 v1 (k + 1) left

  unfoldable pub fill_by : Decision → GapRule → ℕ × F → ℕ × F → List (ℕ × F)
  fill_by (filled missing) r (t0, v0) (t1, v1) = slots r.grid_s t0 missing v0 v1 1 missing
  fill_by _ r p q = []

  unfoldable pub fill_gap : GapRule → ℕ × F → ℕ × F → List (ℕ × F)
  fill_gap r p q = fill_by (decide r p.0 q.0) r p q

  unfoldable pub fill_gaps : GapRule → List (ℕ × F) → List (ℕ × F)
  fill_gaps r [] = []
  fill_gaps r (p ∷ []) = []
  fill_gaps r (p ∷ q ∷ ps) = fill_gap r p q ++ fill_gaps r (q ∷ ps)

  -- Tuples in order: by time, then by value.
  abbrev pub point_le : ℕ × F → ℕ × F → Bool
  point_le p q = ltb p.0 q.0 || p.0 == q.0 && (p.1 ≤? q.1)

  unfoldable pub fills : GapRule → List (ℕ × F) → List (ℕ × F)
  fills r points = fill_gaps r (sort_by point_le points)
