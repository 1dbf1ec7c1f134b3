-- ===== src/Tests/Clocks.antt =====
-- A receipt clock over a wall clock that steps back.
use predictive_autoscaler.Prelude.{ℕ, ◌≡◌, refl, Option, some, List, [], ◌∷◌, ok, leb, IsSorted}
use predictive_autoscaler.Clock.{receipt_clock, now_ms}
use predictive_autoscaler.Clock.Monotone.{read_all, Follows, read_all_monotone}

abbrev shown : List (Option ℕ)
shown = some 5 ∷ some 3 ∷ some 8 ∷ []

stepped_back : read_all shown receipt_clock ≡ ok (5 ∷ 5 ∷ 8 ∷ [])
unfolding read_all now_ms receipt_clock
stepped_back = refl

read_all_monotone_example : IsSorted leb (5 ∷ 5 ∷ 8 ∷ []) × Follows shown (5 ∷ 5 ∷ 8 ∷ [])
read_all_monotone_example = read_all_monotone shown (5 ∷ 5 ∷ 8 ∷ []) stepped_back
