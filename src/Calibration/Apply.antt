-- ===== src/Calibration/Apply.antt =====
-- `apply` of calibration.py: what one matured record does to the state.
use predictive_autoscaler.Prelude.{
  ℕ, ◌+◌, ◌-◌, ◌*◌, min, max, not, ◌&&◌, ◌||◌, Option, none, some, List, [], ◌∷◌, ◌++◌, ltb, leb,
  ◌==◌, nat_eq, string_eq, if◌then◌else◌, last_n, filterb, sort_by, or_else, to_int, Float, ◌⊕◌,
  ◌⊖◌, ◌⊘◌, ◌≤?◌, ◌<?◌, Result, ok, err, raise_if, ◌>>◌,
}
use predictive_autoscaler.Calibration.{
  CalibrationError, other_epoch, other_model, unknown_status, bad_truth, CalibrationPolicy,
  Diagnostics, CalibrationState, CalibrationRecord, bps, in_cohort, pinball_rps, nominal_ratio,
}

-- `clip`: the level after a window with an issued bound. The source's unclipped level
-- a + eta * (nominal - miss * bps) may be negative; the lower limit is not, so that stopping at 0
-- gives the same clipped level and the same test against the limits.
unfoldable pub moved_level : CalibrationPolicy → ℕ → ℕ → ℕ
moved_level policy a_e8 miss =
    a_e8 + policy.eta_bps * policy.nominal_bps - policy.eta_bps * (miss * bps)

unfoldable pub clip : CalibrationPolicy → ℕ → ℕ
clip policy a = min (policy.max_bps * bps) (max (policy.min_bps * bps) a)

module _ {F : Type 0} where
  -- The buffer with one more score, in window-end order, cut to the retention and to `max_scores`.
  unfoldable pub trim_scores : CalibrationPolicy → ℕ → List (ℕ × F) → List (ℕ × F)
  trim_scores policy newest scores = last_n policy.max_scores (
      filterb (λ (x : ℕ × F). ltb newest (x.0 + policy.retention_seconds))
        (sort_by (λ (x y : ℕ × F). leb x.0 y.0) scores))

module _ {F : Type 0} ⦃fl : Float F⦄ where
  -- `int(y <= u)` for an issued bound; a window issued without one counts nowhere.
  unfoldable pub count_bound : F → Option F → Diagnostics F → Diagnostics F
  count_bound y none d = d
  count_bound y (some u) d = record d {
    bounded = d.bounded + 1;
    covered = d.covered + to_int (y ≤? u);
  }

  unfoldable pub count_scored : F → F → Option F → Diagnostics F → Diagnostics F
  count_scored y b u d =
      count_bound y u
        (record d { scored = d.scored + 1; error_sum_rps = d.error_sum_rps ⊕ fl.abs (y ⊖ b) })

  unfoldable pub add_score : CalibrationPolicy → ℕ → F → CalibrationState F → CalibrationState F
  add_score policy window_end e s =
      let newest = max window_end (or_else s.newest_window_end window_end) in
      record s {
        newest_window_end = some newest;
        scores = trim_scores policy newest (s.scores ++ (window_end, e) ∷ []);
        gate = record s.gate { scored = s.gate.scored + 1 };
      }

  -- Only a bound that was issued moves the level.
  unfoldable pub move_level : CalibrationPolicy → F → F → CalibrationState F → CalibrationState F
  move_level policy y u s =
      let miss = to_int (u <? y) in
      let a = moved_level policy s.a_e8 miss in
      record s {
        gate = record s.gate {
          bounded = s.gate.bounded + 1;
          covered = s.gate.covered + (1 - miss);
          error_sum_rps = s.gate.error_sum_rps ⊕ pinball_rps y u (nominal_ratio policy);
        };
        at_bound =
            s.at_bound + to_int (leb a (policy.min_bps * bps) || leb (policy.max_bps * bps) a);
        a_e8 = clip policy a;
        level_updates = s.level_updates + 1;
      }

  unfoldable pub apply_cohort :
      CalibrationPolicy → ℕ → F → F → Option F → CalibrationState F → CalibrationState F
  apply_cohort policy window_end y b none s = add_score policy window_end (y ⊖ b) s
  apply_cohort policy window_end y b (some u) s =
      move_level policy y u (add_score policy window_end (y ⊖ b) s)

  unfoldable pub apply_scored :
      CalibrationPolicy → CalibrationRecord F → F → CalibrationState F → CalibrationState F
  apply_scored policy r y s =
      let s' = record s { all_windows = count_scored y r.base_rps r.upper_rps s.all_windows } in
      if in_cohort r.decision_origin policy.lead_seconds
      then apply_cohort policy r.window_end y r.base_rps r.upper_rps s'
      else s'

  unfoldable pub apply_unscorable :
      CalibrationPolicy → CalibrationRecord F → CalibrationState F → CalibrationState F
  apply_unscorable policy r s =
      let cohort = to_int (in_cohort r.decision_origin policy.lead_seconds) in
      record s {
        all_windows = record s.all_windows { unscorable = s.all_windows.unscorable + 1 };
        gate = record s.gate { unscorable = s.gate.unscorable + cohort };
      }

  -- A scored record carries a finite Y.
  unfoldable pub apply_truth :
      CalibrationPolicy
      → CalibrationRecord F
      → Option F
      → CalibrationState F
      → Result CalibrationError (CalibrationState F)
  apply_truth policy r none s = err bad_truth
  apply_truth policy r (some y) s =
      if fl.is_finite y then ok (apply_scored policy r y s) else err bad_truth

  unfoldable pub apply_new :
      CalibrationPolicy
      → CalibrationRecord F
      → CalibrationState F
      → Result CalibrationError (CalibrationState F)
  apply_new policy r state =
      let s = record state { last_seq = r.seq } in
      if r.status == "unscorable"
      then ok (apply_unscorable policy r s)
      else if r.status == "scored"
      then apply_truth policy r r.y_rps s
      else err unknown_status

  -- `apply`: a record at or below the last applied sequence number changes nothing.
  unfoldable pub apply :
      CalibrationState F
      → CalibrationRecord F
      → CalibrationPolicy
      → Result CalibrationError (CalibrationState F)
  apply state r policy = do
    raise_if (not (r.epoch == state.epoch)) other_epoch
    raise_if (not (r.model == state.model && r.recipe == state.recipe)) other_model
    if leb r.seq state.last_seq then ok state else apply_new policy r state

  -- `coverage`: covered, bounded and their ratio, none when nothing was bounded.
  unfoldable pub coverage : Diagnostics F → ℕ × ℕ × Option F
  coverage c = (
    c.covered,
    c.bounded,
    if c.bounded == 0 then none else some (fl.of_int c.covered ⊘ fl.of_int c.bounded),
  )
