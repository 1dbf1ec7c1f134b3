-- ===== src/Calibration/Invariant.antt =====
-- The invariant of a calibration state: what every state that `apply` can reach satisfies.
use predictive_autoscaler.Prelude.{
  ℕ, ◌+◌, ◌-◌, ◌≤◌, ◌<◌, ◌≡◌, refl, Bool, true, false, Option, none, some, List, [], ◌∷◌, ◌++◌,
  Float, ◌≤?◌, ◌<?◌, ok, Bool-cases, inl, inr, arith, to_int, leb, ltb, length, filterb, sort_by,
  All, IsSorted, String, sort_by-IsSorted, IsSorted-filterb, IsSorted-drop, length-last_n,
  length-filterb-le, length-sort_by, length-append, All-filterb_self, All-drop, All-map,
}
use predictive_autoscaler.Calibration.{
  CalibrationPolicy, CalibrationState, CalibrationRecord, Diagnostics, initial, in_cohort,
}
use predictive_autoscaler.Calibration.Apply.{
  move_level, add_score, trim_scores, count_bound, count_scored, apply_cohort, apply_scored,
  apply_unscorable,
}
use predictive_autoscaler.Calibration.Level.{IsPolicy, InRange, clip-InRange}
use predictive_autoscaler.Calibration.Record.{
  Applied, replayed, closed, matured, apply_all, apply_all_induction,
}

abbrev pub newest_or_zero : Option ℕ → ℕ
newest_or_zero none = 0
newest_or_zero (some n) = n

to_int-le-one : (b : Bool) → to_int b ≤ 1
to_int-le-one true = omega arith
to_int-le-one false = omega arith

module _ {F : Type 0} where
  abbrev pub by_end : ℕ × F → ℕ × F → Bool
  by_end x y = leb x.0 y.0

  -- At most `max_scores` scores, in window-end order, all within the retention before the newest.
  pub record IsBuffer (p : CalibrationPolicy) (newest : ℕ) (scores : List (ℕ × F)) : Type 0 where
    pub few : length scores ≤ p.max_scores
    pub ordered : IsSorted by_end scores
    pub fresh : All (λ (x : ℕ × F). newest < x.0 + p.retention_seconds) scores

  -- The counts of the two cohorts agree with one another.
  pub record IsCounted (a g : Diagnostics F) : Type 0 where
    pub gate_covered : g.covered ≤ g.bounded
    pub gate_bounded : g.bounded ≤ g.scored
    pub all_covered : a.covered ≤ a.bounded
    pub all_bounded : a.bounded ≤ a.scored
    pub scored_in_all : g.scored ≤ a.scored
    pub bounded_in_all : g.bounded ≤ a.bounded
    pub covered_in_all : g.covered ≤ a.covered
    pub missed_in_all : g.bounded + a.covered ≤ a.bounded + g.covered
    pub unscorable_in_all : g.unscorable ≤ a.unscorable

  pub record IsWell (p : CalibrationPolicy) (s : CalibrationState F) : Type 0 where
    pub level : InRange p s.a_e8
    pub buffer : IsBuffer p (newest_or_zero s.newest_window_end) s.scores
    pub counts : IsCounted s.all_windows s.gate
    pub seeded : length s.scores ≤ s.gate.scored
    pub moves : s.level_updates ≡ s.gate.bounded
    pub touches : s.at_bound ≤ s.level_updates

  pub trim_scores-IsBuffer :
      (p : CalibrationPolicy) (newest : ℕ) (xs : List (ℕ × F))
      → IsBuffer p newest (trim_scores p newest xs)
  unfolding trim_scores
  trim_scores-IsBuffer p newest xs =
      let kept = λ (x : ℕ × F). ltb newest (x.0 + p.retention_seconds) in
      let sorted = sort_by by_end xs in
      record {
        few = omega (arith, length-last_n p.max_scores (filterb kept sorted));
        ordered = IsSorted-drop by_end _ (filterb kept sorted) (
            IsSorted-filterb by_end kept sorted
              (sort_by-IsSorted by_end (λ x y h. ground arith) (λ x y z h k. ground arith) xs));
        fresh = All-drop _ _ (filterb kept sorted) (
            All-map _ _ (λ x h. ground arith) (filterb kept sorted) (All-filterb_self kept sorted));
      }

  length-trim_scores :
      (p : CalibrationPolicy) (newest : ℕ) (xs : List (ℕ × F))
      → length (trim_scores p newest xs) ≤ length xs
  unfolding trim_scores
  length-trim_scores p newest xs =
      let kept = λ (x : ℕ × F). ltb newest (x.0 + p.retention_seconds) in
      let sorted = sort_by by_end xs in
      omega (
        arith,
        length-last_n p.max_scores (filterb kept sorted),
        length-filterb-le kept sorted,
        length-sort_by by_end xs,
      )

  length-seeded :
      (p : CalibrationPolicy) (newest w : ℕ) (e : F) (xs : List (ℕ × F)) (n : ℕ)
      → length xs ≤ n
      → length (trim_scores p newest (xs ++ (w, e) ∷ [])) ≤ n + 1
  length-seeded p newest w e xs n h =
      omega (arith, length-trim_scores p newest (xs ++ (w, e) ∷ []), length-append xs ((w, e) ∷ []))

module _ {F : Type 0} ⦃fl : Float F⦄ where
  IsCounted-outside :
      (y b : F) (u : Option F) (a g : Diagnostics F)
      → IsCounted a g
      → IsCounted (count_scored y b u a) g
  unfolding count_scored count_bound
  IsCounted-outside y b none a g h = ground arith
  IsCounted-outside y b (some u) a g h = elim (Bool-cases (y ≤? u)) [
    | inl e ↦ rw e (omega arith)
    | inr e ↦ rw e (omega arith)
  ]

  IsCounted-seed :
      (y b : F) (a g : Diagnostics F)
      → IsCounted a g
      → IsCounted (count_scored y b none a) (record g { scored = g.scored + 1 })
  unfolding count_scored count_bound
  IsCounted-seed y b a g h = omega arith

  -- A bounded cohort window counts as covered in the gate exactly when it does in all windows.
  IsCounted-inside :
      (y b u e : F) (a g : Diagnostics F)
      → IsCounted a g
      → IsCounted (count_scored y b (some u) a) (record g {
        scored = g.scored + 1;
        bounded = g.bounded + 1;
        covered = g.covered + (1 - to_int (u <? y));
        error_sum_rps = e;
      })
  unfolding count_scored count_bound
  IsCounted-inside y b u e a g h = elim (Bool-cases (y ≤? u)) [
    | inl held ↦ rw held (omega arith)
    | inr missed ↦ rw missed (omega arith)
  ]

  apply_cohort-IsWell :
      (p : CalibrationPolicy) (r : CalibrationRecord F) (y : F) (u : Option F)
      (s : CalibrationState F)
      → IsPolicy p
      → IsWell p s
      → IsWell p (
          apply_cohort p r.window_end y r.base_rps u (record s {
            last_seq = r.seq;
            all_windows = count_scored y r.base_rps u s.all_windows;
          }))
  unfolding apply_cohort add_score move_level
  apply_cohort-IsWell p r y none s v h = record {
    level = h.level;
    buffer = trim_scores-IsBuffer p _ _;
    counts = IsCounted-seed y r.base_rps s.all_windows s.gate h.counts;
    seeded = length-seeded p _ _ _ s.scores s.gate.scored h.seeded;
    moves = h.moves;
    touches = h.touches;
  }
  apply_cohort-IsWell p r y (some u) s v h = record {
    level = clip-InRange p _ v;
    buffer = trim_scores-IsBuffer p _ _;
    counts = IsCounted-inside y r.base_rps u _ s.all_windows s.gate h.counts;
    seeded = length-seeded p _ _ _ s.scores s.gate.scored h.seeded;
    moves = omega (arith, h.moves);
    touches = omega (arith, to_int-le-one _, h.touches);
  }

  unscorable-IsWell :
      (p : CalibrationPolicy) (r : CalibrationRecord F) (s : CalibrationState F)
      → IsWell p s
      → IsWell p (apply_unscorable p r (record s { last_seq = r.seq }))
  unfolding apply_unscorable
  unscorable-IsWell p r s h = record {
    level = h.level;
    buffer = h.buffer;
    counts =
        let c = to_int-le-one (in_cohort r.decision_origin p.lead_seconds) in
        omega (arith, c, h.counts);
    seeded = h.seeded;
    moves = h.moves;
    touches = h.touches;
  }

  scored-IsWell :
      (p : CalibrationPolicy) (r : CalibrationRecord F) (y : F) (s : CalibrationState F)
      → IsPolicy p
      → IsWell p s
      → IsWell p (apply_scored p r y (record s { last_seq = r.seq }))
  unfolding apply_scored
  scored-IsWell p r y s v h = elim (Bool-cases (in_cohort r.decision_origin p.lead_seconds)) [
    | inl e ↦ rw e (apply_cohort-IsWell p r y r.upper_rps s v h)
    | inr e ↦ rw e (record {
      level = h.level;
      buffer = h.buffer;
      counts = IsCounted-outside y r.base_rps r.upper_rps s.all_windows s.gate h.counts;
      seeded = h.seeded;
      moves = h.moves;
      touches = h.touches;
    })
  ]

  Applied-IsWell :
      (p : CalibrationPolicy)
      → IsPolicy p
      → (r : CalibrationRecord F) (s s' : CalibrationState F) → Applied p r s s'
      → IsWell p s
      → IsWell p s'
  Applied-IsWell p v r s s' (replayed old e) h = rw e h
  Applied-IsWell p v r s s' (closed new u e) h = rw e (unscorable-IsWell p r s h)
  Applied-IsWell p v r s s' (matured y new sc o e) h = rw e (scored-IsWell p r y s v h)

  pub initial-IsWell :
      (p : CalibrationPolicy) (epoch model recipe : String)
      → IsPolicy p
      → IsWell {F = F} p (initial p epoch model recipe)
  unfolding initial
  initial-IsWell p epoch model recipe v = record {
    level = omega (arith, v);
    buffer = record { few = omega arith; ordered = tt; fresh = tt };
    counts = omega arith;
    seeded = omega arith;
    moves = refl;
    touches = omega arith;
  }

  pub apply_all-IsWell :
      (p : CalibrationPolicy) (epoch model recipe : String) (rs : List (CalibrationRecord F))
      (s : CalibrationState F)
      → IsPolicy p
      → apply_all (initial p epoch model recipe) rs p ≡ ok s
      → IsWell p s
  apply_all-IsWell p epoch model recipe rs s v e =
      apply_all_induction (IsWell p) p (Applied-IsWell p v) (initial p epoch model recipe) s rs e
        (initial-IsWell p epoch model recipe v)
