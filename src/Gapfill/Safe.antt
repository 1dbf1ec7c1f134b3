-- ===== src/Gapfill/Safe.antt =====
-- Filled slots of gapfill.py lie inside short gaps, and break no rule.
use predictive_autoscaler.Prelude.{
  ℕ, zero, suc, ◌+◌, ◌-◌, ◌*◌, ◌/◌, ◌%◌, ◌≤◌, ◌<◌, ◌≡◌, refl, ap, ◌∙◌, false, ◌&&◌, List, [], ◌∷◌,
  All, All-map, All-append, any, leb, nat_eq, arith, sort_by, Float,
}
use native.Mathlib.Nat.{mod-add-div', mul-le-mul_right}
use predictive_autoscaler.Gapfill.{
  GapRule, Decision, filled, partition, beyond, overlaps, decide, slots, fill_by, fill_gap,
  fill_gaps, point_le, fills,
}

partition_mono : (s t : ℕ) (bs : List ℕ) → s ≤ t → partition s bs ≤ partition t bs
unfolding partition
partition_mono s t [] h = omega arith
partition_mono s t (b ∷ bs) h = ground (arith, partition_mono s t bs h)

-- What a decision to fill says of the gap.
pub record IsGap (r : GapRule) (t0 t1 missing : ℕ) : Type 0 where
  pub whole : t1 ≡ t0 + missing * r.grid_s + r.grid_s
  pub short : missing ≤ r.max_missing
  pub known : beyond r.cutoff t1 ≡ false
  pub same_part : partition t0 r.boundaries ≡ partition t1 r.boundaries
  pub clear : overlaps r t0 t1 ≡ false

whole_by : (d g q : ℕ) → d ≡ q * g → g < d → d ≡ (q - 1) * g + g
whole_by d g zero e h = absurd (omega (arith, e, h))
whole_by d g (suc q) e h =
    let count : suc q - 1 ≡ q = omega arith in
    let back = ap (λ n. n * g + g) count in omega (arith, e, back)

-- A width that the grid divides, and that is larger, is one grid step more than its missing slots.
whole_gap : (d g : ℕ) → d % g ≡ 0 → g < d → d ≡ (d / g - 1) * g + g
whole_gap d g e h = whole_by d g (d / g) (omega (arith, mod-add-div' d g, e)) h

decide-IsGap :
    (r : GapRule) (t0 t1 missing : ℕ) → decide r t0 t1 ≡ filled missing → IsGap r t0 t1 missing
unfolding decide
decide-IsGap r t0 t1 missing e =
    let wide : r.grid_s < t1 - t0 = ground (arith, e) in
    let aligned : (t1 - t0) % r.grid_s ≡ 0 = ground (arith, e) in
    let count : (t1 - t0) / r.grid_s - 1 ≡ missing = ground (arith, e) in
    let width =
      whole_gap (t1 - t0) r.grid_s aligned wide ∙ ap (λ n. n * r.grid_s + r.grid_s) count in
    record {
      whole = omega (arith, width, wide);
      short = ground (arith, e);
      known = ground (arith, e);
      same_part = ground (arith, e);
      clear = ground (arith, e);
    }

-- A slot at t may be filled: it is strictly between the observed times t0 and t1, whole grid steps
-- from t0, and so is t1; at most `max_missing` slots are missing between them; t1 is not after the cutoff; t is of the partition of both; and no
-- forbidden interval holds t.
pub record IsSafe (r : GapRule) (t0 t1 t : ℕ) : Type 0 where
  pub on_grid : (k : ℕ) × (t ≡ t0 + k * r.grid_s)
  pub right_on_grid : (m : ℕ) × (t1 ≡ t0 + m * r.grid_s)
  pub after : t0 < t
  pub before : t < t1
  pub near : t1 ≤ t0 + (r.max_missing + 1) * r.grid_s
  pub known : beyond r.cutoff t1 ≡ false
  pub left_part : partition t r.boundaries ≡ partition t0 r.boundaries
  pub right_part : partition t r.boundaries ≡ partition t1 r.boundaries
  pub clear : any (λ (i : ℕ × ℕ). leb i.0 t && leb t i.1) r.forbidden ≡ false

no_mask :
    (g t0 t1 t : ℕ) (is : List (ℕ × ℕ))
    → t0 + g ≤ t
    → t ≤ t1 - g
    → any (λ (i : ℕ × ℕ). leb i.0 (t1 - g) && leb (t0 + g) i.1) is ≡ false
    → any (λ (i : ℕ × ℕ). leb i.0 t && leb t i.1) is ≡ false
no_mask g t0 t1 t [] lo hi e = refl
no_mask g t0 t1 t ((a, b) ∷ is) lo hi e = ground (arith, no_mask g t0 t1 t is lo hi, e)

slot-IsSafe :
    (r : GapRule) (t0 t1 missing k : ℕ)
    → 0 < r.grid_s
    → IsGap r t0 t1 missing
    → 1 ≤ k
    → k ≤ missing
    → IsSafe r t0 t1 (t0 + k * r.grid_s)
unfolding overlaps
slot-IsSafe r t0 t1 missing k pos h one few =
    let g = r.grid_s in
    let lower : 1 * g ≤ k * g = mul-le-mul_right g one in
    let upper : k * g ≤ missing * g = mul-le-mul_right g few in
    let most : missing * g ≤ r.max_missing * g = mul-le-mul_right g h.short in
    let after : t0 < t0 + k * g = omega (arith, lower, pos) in
    let before : t0 + k * g < t1 = omega (arith, upper, h.whole, pos) in
    let left = partition_mono t0 (t0 + k * g) r.boundaries (omega arith) in
    let right = partition_mono (t0 + k * g) t1 r.boundaries (omega (arith, before)) in
    record {
      on_grid = (k, refl);
      right_on_grid = (missing + 1, omega (arith, h.whole));
      after = after;
      before = before;
      near = omega (arith, most, h.whole);
      known = h.known;
      left_part = omega (arith, left, right, h.same_part);
      right_part = omega (arith, left, right, h.same_part);
      clear =
          no_mask g t0 t1 (t0 + k * g) r.forbidden (omega (arith, lower))
            (omega (arith, upper, h.whole)) h.clear;
    }

module _ {F : Type 0} ⦃fl : Float F⦄ (r : GapRule) (pos : 0 < r.grid_s) where
  -- Two points that stand next to each other.
  pub data Neighbours (p q : ℕ × F) : List (ℕ × F) → Type 0 where
    here : {ps : List (ℕ × F)} → Neighbours p q (p ∷ q ∷ ps)
    there : {o : ℕ × F} {ps : List (ℕ × F)} → Neighbours p q ps → Neighbours p q (o ∷ ps)

  -- A filled slot stands safely between two neighbouring observations.
  abbrev pub Between : List (ℕ × F) → ℕ × F → Type 0
  Between ps s = (p : ℕ × F) × (q : ℕ × F) × Neighbours p q ps × IsSafe r p.0 q.0 s.0

  slots-IsSafe :
      (t0 t1 missing k left : ℕ) (v0 v1 : F)
      → IsGap r t0 t1 missing
      → 1 ≤ k
      → k + left ≡ missing + 1
      → All (λ s. IsSafe r t0 t1 s.0) (slots r.grid_s t0 missing v0 v1 k left)
  unfolding slots
  slots-IsSafe t0 t1 missing k zero v0 v1 h one e = tt
  slots-IsSafe t0 t1 missing k (suc left) v0 v1 h one e = (
    slot-IsSafe r t0 t1 missing k pos h one (omega (arith, e)),
    slots-IsSafe t0 t1 missing (k + 1) left v0 v1 h (omega arith) (omega (arith, e)),
  )

  fill_by-IsSafe :
      (d : Decision) (t0 t1 : ℕ) (v0 v1 : F)
      → decide r t0 t1 ≡ d
      → All (λ s. IsSafe r t0 t1 s.0) (fill_by d r (t0, v0) (t1, v1))
  unfolding fill_by
  fill_by-IsSafe (filled missing) t0 t1 v0 v1 e =
      slots-IsSafe t0 t1 missing 1 missing v0 v1 (decide-IsGap r t0 t1 missing e) (omega arith)
        (omega arith)
  fill_by-IsSafe _ t0 t1 v0 v1 e = tt

  fill_gap-IsSafe : (p q : ℕ × F) → All (λ s. IsSafe r p.0 q.0 s.0) (fill_gap r p q)
  unfolding fill_gap
  fill_gap-IsSafe (t0, v0) (t1, v1) = fill_by-IsSafe (decide r t0 t1) t0 t1 v0 v1 refl

  fill_gaps-Between : (ps : List (ℕ × F)) → All (Between ps) (fill_gaps r ps)
  unfolding fill_gaps
  fill_gaps-Between [] = tt
  fill_gaps-Between (p ∷ []) = tt
  fill_gaps-Between (p ∷ q ∷ ps) =
      All-append (Between (p ∷ q ∷ ps)) (fill_gap r p q) (fill_gaps r (q ∷ ps))
        (All-map (λ s. IsSafe r p.0 q.0 s.0) (Between (p ∷ q ∷ ps)) (λ s h. (p, q, here, h))
          (fill_gap r p q) (fill_gap-IsSafe p q))
        (All-map (Between (q ∷ ps)) (Between (p ∷ q ∷ ps)) (λ s (a, b, n, h). (a, b, there n, h))
          (fill_gaps r (q ∷ ps)) (fill_gaps-Between (q ∷ ps)))

  -- Every filled slot lies strictly between two neighbouring observations, a whole number of grid steps
  -- from the left one, and the right one is a whole number of steps from it too: the gap has at most `max_missing` missing slots, its right end is not after the cutoff, the slot is of the
  -- partition of both its ends, and no forbidden interval holds it.
  pub fills-Between :
      (points : List (ℕ × F)) → All (Between (sort_by point_le points)) (fills r points)
  unfolding fills
  fills-Between points = fill_gaps-Between (sort_by point_le points)
