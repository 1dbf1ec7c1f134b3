-- ===== src/Maturation/Window.antt =====
-- The exact window of maturation.py: grid times at one positive step.
use predictive_autoscaler.Prelude.{
  ℕ, zero, ◌-◌, Bool, ◌&&◌, List, [], ◌∷◌, all, ltb, Result, ok, err, ◌==◌, nat_eq, if◌then◌else◌,
}

pub data WindowError : Type 0 where
  no_targets uneven_targets : WindowError

-- The differences of neighbours. A step that is not positive shows as 0: `check_window` refuses 0.
unfoldable pub steps : List ℕ → List ℕ
steps [] = []
steps (a ∷ []) = []
steps (a ∷ b ∷ ts) = (b - a) ∷ steps (b ∷ ts)

unfoldable pub evenly_spaced : List ℕ → Bool
evenly_spaced [] = Bool.true
evenly_spaced (d ∷ ds) = ltb 0 d && all (λ e. e == d) ds

unfoldable pub check_window : List ℕ → Result WindowError (Unit {0})
unfolding steps evenly_spaced
check_window [] = err no_targets
check_window (t ∷ ts) = if evenly_spaced (steps (t ∷ ts)) then ok tt else err uneven_targets

-- `targets[-1]`
unfoldable pub last_target : List ℕ → ℕ
last_target [] = zero
last_target (t ∷ []) = t
last_target (t ∷ u ∷ ts) = last_target (u ∷ ts)
