-- ===== src/Trust/Windows.antt =====
-- Trailing windows of trust.py over a ledger's hourly buckets: sums, overdue windows, availability and
-- the coverage of each UTC day.
use predictive_autoscaler.Prelude.{
  ℕ, ◌+◌, ◌-◌, ◌*◌, ◌/◌, min, max, Bool, ◌&&◌, Option, none, some, [], ◌∷◌, Dict, lookup, insert,
  leb, ◌==◌, nat_eq, if◌then◌else◌, sort_by, Float, ◌⊕◌, ◌⊘◌,
}
use predictive_autoscaler.Trust.Types.{hour, day, Bucket, Ledger}
use predictive_autoscaler.Trust.Ledger.{empty_bucket}

-- `_hours`: from the first whole hour at or after now - seconds to the hour that holds now. Where
-- now - seconds is below zero the source's first hour is at most 0, and 0 here: hours are not
-- negative, so the same buckets are in the window.
unfoldable pub first_hour : ℕ → ℕ → ℕ
first_hour now_s seconds = (now_s - seconds + (hour - 1)) / hour

unfoldable pub last_hour : ℕ → ℕ
last_hour now_s = now_s / hour

unfoldable pub in_window : ℕ → ℕ → ℕ → Bool
unfolding first_hour last_hour
in_window now_s seconds k = leb (first_hour now_s seconds) k && leb k (last_hour now_s)

-- `sum(1 for end, deadline in pending.items() if ...)`
unfoldable pub overdue_in : ℕ → ℕ → Dict ℕ ℕ → ℕ
overdue_in now_s seconds [] = 0
overdue_in now_s seconds ((end_s, deadline) ∷ d) =
    let rest = overdue_in now_s seconds d in
    if in_window now_s seconds (end_s / hour) && leb deadline now_s then 1 + rest else rest

-- A time rounded up to the grid.
unfoldable pub grid_up : ℕ → ℕ → ℕ
grid_up t dt = (t + (dt - 1)) / dt * dt

unfoldable pub opportunities : Option ℕ → ℕ → ℕ → ℕ → ℕ
opportunities none dt now_s seconds = 0
opportunities (some first) dt now_s seconds =
    let start = grid_up (max (first_hour now_s seconds * hour) first) dt in
    let end_s = now_s / dt * dt in if leb start end_s then (end_s - start) / dt + 1 else 0

unfoldable pub day_counts : ℕ → Dict ℕ (ℕ × ℕ) → ℕ × ℕ
day_counts d days = elim (lookup d days) [ none ↦ (0, 0) | some c ↦ c ]

module _ {F : Type 0} where
  unfoldable pub overdue : Ledger F → ℕ → ℕ → ℕ
  overdue ledger now_s seconds = overdue_in now_s seconds ledger.pending

  unfoldable pub expected_opportunities : Ledger F → ℕ → ℕ → ℕ
  expected_opportunities ledger now_s seconds =
      opportunities ledger.first_issue_s ledger.interval_s now_s seconds

  -- The bounded and covered gate windows of each UTC day, in the order of the days.
  unfoldable pub add_day : Bucket F → ℕ × ℕ → ℕ × ℕ
  add_day b (bd, cv) = (bd + b.g_bd, cv + b.g_cv)

  unfoldable pub collect_days : ℕ → ℕ → Dict ℕ (Bucket F) → Dict ℕ (ℕ × ℕ) → Dict ℕ (ℕ × ℕ)
  collect_days now_s seconds [] days = days
  collect_days now_s seconds ((k, b) ∷ buckets) days = collect_days now_s seconds buckets (
      if in_window now_s seconds k
      then (let d = k * hour / day in insert d (add_day b (day_counts d days)) days)
      else days)

  unfoldable pub daily_gate_coverage : Ledger F → ℕ → ℕ → Dict ℕ (ℕ × ℕ)
  daily_gate_coverage ledger now_s seconds =
      sort_by (λ (x y : ℕ × (ℕ × ℕ)). leb x.0 y.0) (collect_days now_s seconds ledger.buckets [])

pub record Availability (F : Type 0) : Type 0 where
  pub outcomes : Option F
  pub predictions : Option F
  pub overdue_windows : ℕ

module _ {F : Type 0} ⦃fl : Float F⦄ where
  unfoldable pub add_bucket : Bucket F → Bucket F → Bucket F
  add_bucket o b = record {
    iss = o.iss + b.iss;
    g_iss = o.g_iss + b.g_iss;
    sc = o.sc + b.sc;
    un = o.un + b.un;
    g_sc = o.g_sc + b.g_sc;
    g_un = o.g_un + b.g_un;
    a_bd = o.a_bd + b.a_bd;
    a_cv = o.a_cv + b.a_cv;
    g_bd = o.g_bd + b.g_bd;
    g_cv = o.g_cv + b.g_cv;
    n_step = o.n_step + b.n_step;
    pin = o.pin ⊕ b.pin;
    abs_sum = o.abs_sum ⊕ b.abs_sum;
    bias = o.bias ⊕ b.bias;
    st0 = o.st0 ⊕ b.st0;
    st1 = o.st1 ⊕ b.st1;
    st2 = o.st2 ⊕ b.st2;
    r_iss = o.r_iss + b.r_iss;
    r_sc = o.r_sc + b.r_sc;
    r_un = o.r_un + b.r_un;
    r_bd = o.r_bd + b.r_bd;
    r_cv = o.r_cv + b.r_cv;
  }

  unfoldable pub sum_buckets : ℕ → ℕ → Dict ℕ (Bucket F) → Bucket F → Bucket F
  sum_buckets now_s seconds [] out = out
  sum_buckets now_s seconds ((k, b) ∷ buckets) out =
      sum_buckets now_s seconds buckets
        (if in_window now_s seconds k then add_bucket out b else out)

  unfoldable pub window_sums : Ledger F → ℕ → ℕ → Bucket F
  window_sums ledger now_s seconds = sum_buckets now_s seconds ledger.buckets empty_bucket

  -- `_ratio`: none when there is nothing to count.
  unfoldable pub ratio : ℕ → ℕ → Option F
  ratio num den = if den == 0 then none else some (fl.of_int num ⊘ fl.of_int den)

  unfoldable pub availability : Ledger F → ℕ → ℕ → Availability F
  availability ledger now_s seconds =
      let w = window_sums ledger now_s seconds in
      let late = overdue ledger now_s seconds in
      let expected = expected_opportunities ledger now_s seconds in
      record {
        outcomes = ratio w.sc (w.sc + w.un + late);
        predictions = ratio (min w.iss expected) expected;
        overdue_windows = late;
      }
