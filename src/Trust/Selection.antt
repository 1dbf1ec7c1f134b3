-- ===== src/Trust/Selection.antt =====
-- `select` of trust.py: which candidate is selected, with hysteresis. The source's text key
-- "model:recipe" of an entry time is a pair here.
pub mod Entry
pub mod Safe
use predictive_autoscaler.Prelude.{
  ℕ, ◌+◌, ◌*◌, String, Bool, true, false, not, ◌&&◌, ◌||◌, Option, none, some, List, [], ◌∷◌, Dict,
  lookup, insert, erase, set_default, leb, ◌==◌, nat_eq, string_eq, pair_eq, if◌then◌else◌, Float,
}
use predictive_autoscaler.Trust.Types.{hour}
use predictive_autoscaler.Trust.Candidate.{TrustSettings, CandidateVerdict}
use predictive_autoscaler.Trust.Pairs.{Pairs, challenger_promoted, challenger_retained}

abbrev pub naive : String
naive = "seasonal_naive"

abbrev pub fallback_order : List String
fallback_order = "lstm" ∷ "statistical" ∷ "seasonal_naive" ∷ []

pub record Selection : Type 0 where
  pub epoch : Option String
  pub selected : Option String
  pub recipe : Option String
  pub since_s : Option ℕ
  pub switches : ℕ
  pub entry_since : Dict (String × String) ℕ

unfoldable pub new_selection : Option String → Selection
new_selection epoch = record {
  epoch = epoch;
  selected = none;
  recipe = none;
  since_s = none;
  switches = 0;
  entry_since = [];
}

abbrev pub is_name : Option String → String → Bool
is_name none m = false
is_name (some n) m = n == m

-- `since is not None and now_s - since >= hours * hour`
unfoldable pub entry_held : Option ℕ → ℕ → TrustSettings → Bool
entry_held none now_s t = false
entry_held (some since) now_s t = leb (since + t.repromotion_hours * hour) now_s

abbrev pub same_name : Option String → Option String → Bool
same_name none none = true
same_name none (some b) = false
same_name (some a) none = false
same_name (some a) (some b) = a == b

-- The flag of one challenger, and its entry time: set when it passes, dropped when it does not.
unfoldable pub enter :
    Bool → String → String → ℕ → Dict (String × String) ℕ → Dict (String × String) ℕ
enter passed m recipe now_s entry_since =
    if passed then set_default (m, recipe) now_s entry_since else erase (m, recipe) entry_since

module _ {F : Type 0} where
  abbrev pub trusted_of : Option (CandidateVerdict F) → Bool
  trusted_of none = false
  trusted_of (some v) = v.trusted

  -- `naive_ok`
  abbrev pub naive_trusted : Dict String (CandidateVerdict F) → Bool
  naive_trusted verdicts = trusted_of (lookup naive verdicts)

  -- The test of a trusted candidate m of the fallback order.
  unfoldable pub eligible :
      Dict (String × String) ℕ
      → Option String
      → Bool
      → ℕ
      → TrustSettings
      → String
      → CandidateVerdict F
      → Bool
  eligible entry_since current naive_ok now_s t m v =
      v.trusted
      && (m == naive
          || (is_name current m && naive_ok)
          || entry_held (lookup (m, v.recipe) entry_since) now_s t)

  -- The first candidate of the order that passes.
  unfoldable pub choose :
      Dict (String × String) ℕ
      → Option String
      → Bool
      → ℕ
      → TrustSettings
      → Dict String (CandidateVerdict F)
      → List String
      → Option String
  choose entry_since current naive_ok now_s t verdicts [] = none
  choose entry_since current naive_ok now_s t verdicts (m ∷ ms) =
      let rest = choose entry_since current naive_ok now_s t verdicts ms in
      elim (lookup m verdicts) [
        | none ↦ rest
        | some v ↦ if eligible entry_since current naive_ok now_s t m v then some m else rest
      ]

  abbrev pub recipe_of : Option String → Dict String (CandidateVerdict F) → Option String
  recipe_of none verdicts = none
  recipe_of (some m) verdicts = elim (lookup m verdicts) [ none ↦ none | some v ↦ some v.recipe ]

  unfoldable pub switch :
      Selection → Option String → Dict String (CandidateVerdict F) → ℕ → Selection
  switch s target verdicts now_s = if same_name target s.selected then s else record s {
    selected = target;
    recipe = recipe_of target verdicts;
    since_s = some now_s;
    switches = s.switches + 1;
  }

  -- The loop over the verdicts: the naive is no challenger.
  unfoldable pub enter_all :
      (String → Bool)
      → ℕ
      → Dict String (CandidateVerdict F)
      → Dict (String × String) ℕ × Dict String Bool
      → Dict (String × String) ℕ × Dict String Bool
  enter_all flag now_s [] acc = acc
  enter_all flag now_s ((m, v) ∷ verdicts) (entry_since, entry) = enter_all flag now_s verdicts (
      if m == naive
      then (entry_since, entry)
      else (enter (flag m) m v.recipe now_s entry_since, insert m (flag m) entry))

module _ {F : Type 0} ⦃fl : Float F⦄ where
  unfoldable pub entry_flag :
      Dict String (Pairs F)
      → Dict String (Dict String (F × F))
      → Bool
      → ℕ
      → TrustSettings
      → String
      → Bool
  entry_flag pairs costs naive_ok now_s t m =
      naive_ok && challenger_promoted (lookup m pairs) now_s t (lookup m costs)

  -- The selected candidate, if it is safe and its evidence is within the exit band.
  unfoldable pub stays :
      Selection
      → Dict String (Pairs F)
      → Dict String (Dict String (F × F))
      → Bool
      → ℕ
      → TrustSettings
      → String
      → Option (CandidateVerdict F)
      → Bool
  stays s pairs costs naive_ok now_s t current none = false
  stays s pairs costs naive_ok now_s t current (some v) =
      v.trusted
      && is_name s.recipe v.recipe
      && (current == naive || naive_ok)
      && (current == naive
          || challenger_retained (lookup current pairs) now_s t (lookup current costs))

  unfoldable pub kept_current :
      Selection
      → Dict String (CandidateVerdict F)
      → Dict String (Pairs F)
      → Dict String (Dict String (F × F))
      → Bool
      → ℕ
      → TrustSettings
      → Option String
      → Option String
  kept_current s verdicts pairs costs naive_ok now_s t none = none
  kept_current s verdicts pairs costs naive_ok now_s t (some current) =
      if stays s pairs costs naive_ok now_s t current (lookup current verdicts)
      then some current
      else none

  unfoldable pub select :
      Selection
      → Dict String (CandidateVerdict F)
      → Dict String (Pairs F)
      → Dict String (Dict String (F × F))
      → ℕ
      → TrustSettings
      → Selection × Dict String Bool
  select sel verdicts pairs costs now_s t =
      let naive_ok = naive_trusted verdicts in
      let entered =
        enter_all (entry_flag pairs costs naive_ok now_s t) now_s verdicts (sel.entry_since, []) in
      let s = record sel { entry_since = entered.0 } in
      let current = kept_current s verdicts pairs costs naive_ok now_s t s.selected in
      let target = choose s.entry_since current naive_ok now_s t verdicts fallback_order in
      (switch s target verdicts now_s, entered.1)
