-- ===== src/Calibration/Answer.antt =====
-- What upper_bound of calibration.py answers: a bound, or why there is none.
use predictive_autoscaler.Prelude.{
  ℕ, ◌-◌, ◌≤◌, ◌<◌, ◌≡◌, refl, true, false, Float, ◌⊕◌, ◌⊘◌, ◌≤?◌, ◌<?◌, fmax, ok, Bool-cases, inl,
  inr, arith, length, ltb, get_elem?-some, count-sort_by, sort_by-IsSorted, order_statistic,
  order_statistic_below, count,
}
use predictive_autoscaler.Calibration.{
  CalibrationPolicy, CalibrationState, BoundInfo, available, unavailable, calibration_insufficient,
  rank_overflow, E8, rank, buffered_scores, bound_of, upper_bound,
}
use predictive_autoscaler.Calibration.Bound.{
  rank_pos, score_count, sorted_scores, length-sorted_scores,
}

module _ {F : Type 0} ⦃fl : Float F⦄ (s : CalibrationState F) (p : CalibrationPolicy) (base : F)
    (now : ℕ) where
  abbrev pub wanted : ℕ
  wanted = rank (score_count s p base now) s.a_e8

  -- The answer by what the buffer holds: too few scores, too few for the rank, or enough for both, and
  -- then a score q that stands at the rank among them, counted from the smallest.
  pub data Answer : BoundInfo F → Type 0 where
    too_few :
        score_count s p base now < p.min_windows → Answer (unavailable calibration_insufficient)
    too_high :
        p.min_windows ≤ score_count s p base now
        → score_count s p base now < wanted
        → Answer (unavailable rank_overflow)
    at_rank :
        (q : F)
        → p.min_windows ≤ score_count s p base now
        → wanted ≤ score_count s p base now
        → wanted ≤ count (λ e. e ≤? q) (buffered_scores s p now)
        → count (λ e. e <? q) (buffered_scores s p now) < wanted
        → Answer (available (fmax (fl.of_int 0) (base ⊕ q)) q)

  module _ (total : (x y : F) → (x ≤? y) ≡ false → (y ≤? x) ≡ true)
      (trans : (x y z : F) → (x ≤? y) ≡ true → (y ≤? z) ≡ true → (x ≤? z) ≡ true) where
    enough-Answer :
        s.a_e8 < E8
        → p.min_windows ≤ score_count s p base now
        → wanted ≤ score_count s p base now
        → Answer (bound_of p base wanted (sorted_scores s p base now))
    unfolding bound_of
    enough-Answer below enough fits =
        let scores = sorted_scores s p base now in
        let e = length-sorted_scores s p base now in
        let pos = rank_pos (score_count s p base now) s.a_e8 below in
        let (q, found) = get_elem?-some scores (wanted - 1) (omega (arith, e, pos, fits)) in
        let sorted = sort_by-IsSorted ◌≤?◌ total trans (buffered_scores s p now) in
        let lower = order_statistic ◌≤?◌ total trans scores (wanted - 1) q sorted found in
        let upper = order_statistic_below ◌≤?◌ total trans scores (wanted - 1) q sorted found in
        let same = count-sort_by ◌≤?◌ (λ e. e ≤? q) (buffered_scores s p now) in
        let same' = count-sort_by ◌≤?◌ (λ e. e <? q) (buffered_scores s p now) in
        let many : ltb (length scores) p.min_windows ≡ false = ground (arith, e, enough) in
        let ranked : ltb (length scores) wanted ≡ false = ground (arith, e, fits) in
        rw (many, ranked, found)
          (at_rank q enough fits (omega (arith, lower, same, pos))
            (omega (arith, upper, same', pos)))

    bound_of-Answer : s.a_e8 < E8 → Answer (bound_of p base wanted (sorted_scores s p base now))
    unfolding bound_of
    bound_of-Answer below =
        let scores = sorted_scores s p base now in
        let e = length-sorted_scores s p base now in
        elim (Bool-cases (ltb (length scores) p.min_windows)) [
          | inl few ↦ rw few (too_few (ground (arith, few, e)))
          | inr many ↦ elim (Bool-cases (ltb (length scores) wanted)) [
            | inl high ↦
                rw (many, high) (too_high (ground (arith, many, e)) (ground (arith, high, e)))
            | inr low ↦ enough-Answer below (ground (arith, many, e)) (ground (arith, low, e))
          ]
        ]

    -- On totally ordered scores, for a finite point maximum that is not negative and a level below
    -- one, an answer is given, with the number of scores in the buffer, the rank and the level. It
    -- is no bound when the scores are fewer than `min_windows`, or else fewer than the rank k;
    -- otherwise it is the base plus a score q, cut at zero, where q is the k-th smallest: at least
    -- k scores are not above it, and fewer than k are below it.
    pub upper_bound-Answer :
        fl.is_finite base ≡ true
        → (base <? fl.of_int 0) ≡ false
        → s.a_e8 < E8
        → (info : BoundInfo F) × (upper_bound s p base now
            ≡ ok (score_count s p base now, wanted, fl.of_int s.a_e8 ⊘ fl.of_int E8, info))
          × Answer info
    unfolding upper_bound
    upper_bound-Answer finite nonneg below =
        let e = length-sorted_scores s p base now in
        (
          bound_of p base wanted (sorted_scores s p base now),
          rw (finite, nonneg, e) refl,
          bound_of-Answer below,
        )
