-- ===== src/Tests/Paired.antt =====
-- Paired evidence that takes a bound of the challenger.
use predictive_autoscaler.Prelude.{ℕ, ◌≡◌, refl, some, none, [], ◌∷◌, Result, ok, err}
use predictive_autoscaler.Calibration.{in_cohort, pinball_rps}
use predictive_autoscaler.Trust.Types.{TrustError, EvidenceRecord}
use predictive_autoscaler.Trust.Pairs.{
  Pairs, new_pairs, note_pair, note_bound, pair_up, wait, prune_pairs,
}
use predictive_autoscaler.Trust.Pairs.Once.{note_pairs, note_pair_once}
use predictive_autoscaler.Tests.Numbers.{nat_float}

abbrev no_pairs : Pairs ℕ
no_pairs = new_pairs "e" "lstm" "r" "q" "seasonal_naive"

abbrev challenge : EvidenceRecord ℕ
challenge = record {
  cal = record {
    seq = 4;
    epoch = "e";
    model = "lstm";
    recipe = "r";
    issuance_id = "i1";
    decision_origin = 3600;
    window_end = 3720;
    base_rps = 5;
    upper_rps = some 8;
    status = "scored";
    y_rps = some 7;
  };
  mode = "prospective";
  committed_at_ms = 3_800_000;
  step_abs_errors = none;
}

abbrev taken_pairs : Result TrustError (Pairs ℕ) → Pairs ℕ
taken_pairs (ok p) = p
taken_pairs (err e) = no_pairs

abbrev one_half : Pairs ℕ
one_half = taken_pairs (note_pair no_pairs challenge 60 0 604_800)

half_taken : note_pair no_pairs challenge 60 0 604_800 ≡ ok one_half
unfolding note_pair note_bound pair_up wait prune_pairs new_pairs in_cohort pinball_rps
half_taken = refl

-- The next window's bound, taken after it.
abbrev next_challenge : EvidenceRecord ℕ
next_challenge = record challenge {
  cal = record challenge.cal {
    seq = 5;
    issuance_id = "i2";
    decision_origin = 3660;
    window_end = 3780;
  };
}

abbrev two_halves : Pairs ℕ
two_halves = taken_pairs (note_pair one_half next_challenge 60 0 604_800)

next_taken : note_pairs 60 0 604_800 one_half (next_challenge ∷ []) ≡ ok two_halves
unfolding note_pairs note_pair note_bound pair_up wait prune_pairs new_pairs in_cohort pinball_rps
next_taken = refl

note_pair_once_example : note_pair two_halves challenge 60 0 604_800 ≡ ok two_halves
note_pair_once_example =
    note_pair_once 60 0 604_800 no_pairs one_half two_halves challenge (next_challenge ∷ [])
      half_taken next_taken
