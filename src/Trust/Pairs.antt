-- ===== src/Trust/Pairs.antt =====
-- Paired challenger evidence of trust.py: the bounds of a challenger and of the naive at one issuance.
pub mod Once
use predictive_autoscaler.Prelude.{
  ℕ, ◌+◌, ◌-◌, ◌*◌, ◌/◌, min, max, String, Bool, true, false, not, ◌&&◌, ◌||◌, Option, none, some,
  [], ◌∷◌, Dict, lookup, insert, erase, keep_keys, contains, ltb, leb, ◌==◌, nat_eq, string_eq,
  if◌then◌else◌, Float, ◌⊕◌, ◌⊗◌, ◌⊘◌, ◌≤?◌, ◌<?◌, Result, ok, err, raise_if, ◌>>◌,
}
use predictive_autoscaler.Calibration.{CalibrationRecord, in_cohort, pinball_rps}
use predictive_autoscaler.Trust.Types.{
  TrustError, other_recipe, no_truth, hour, day, EvidenceRecord,
}
use predictive_autoscaler.Trust.Windows.{in_window}
use predictive_autoscaler.Trust.Candidate.{TrustSettings}

pub record PairBucket (F : Type 0) : Type 0 where
  pub n : ℕ
  pub chal : F
  pub base : F
  pub first : ℕ
  pub last : ℕ

-- A pending bound: its model, its loss and its issuance.
pub record Half (F : Type 0) : Type 0 where
  pub model : String
  pub loss : F
  pub issuance_id : String

pub record Pairs (F : Type 0) : Type 0 where
  pub epoch : String
  pub challenger : String
  pub baseline : String
  pub recipes : Dict String String
  pub pending : Dict ℕ (Half F)
  pub buckets : Dict ℕ (PairBucket F)
  pub last_seq : ℕ

pub record PairSums (F : Type 0) : Type 0 where
  pub n : ℕ
  pub chal : F
  pub base : F
  pub first : Option ℕ
  pub last : Option ℕ

abbrev pub distance : Option ℕ → Option ℕ → ℕ
distance (some a) (some b) = b - a
distance (some a) none = 0
distance none b = 0

-- `c.recipe != pairs["recipes"][c.model]`
abbrev pub other_than : Option String → String → Bool
other_than none recipe = true
other_than (some r) recipe = not (recipe == r)

module _ {F : Type 0} where
  unfoldable pub new_pairs : String → String → String → String → String → Pairs F
  new_pairs epoch challenger challenger_recipe baseline_recipe baseline = record {
    epoch = epoch;
    challenger = challenger;
    baseline = baseline;
    recipes = insert baseline baseline_recipe (insert challenger challenger_recipe []);
    pending = [];
    buckets = [];
    last_seq = 0;
  }

  -- `out["last"] - out["first"] if out["n"] else 0`
  unfoldable pub span : PairSums F → ℕ
  span s = if s.n == 0 then 0 else distance s.first s.last

  -- The hour and day that the retention keeps, as in the ledger's pruning.
  unfoldable pub prune_pairs : ℕ → ℕ → Pairs F → Pairs F
  prune_pairs window_end retention_s s = record s {
    buckets = keep_keys (λ k. ltb window_end (k * hour + retention_s)) s.buckets;
    pending = keep_keys (λ k. ltb window_end (k + day)) s.pending;
  }

module _ {F : Type 0} ⦃fl : Float F⦄ where
  unfoldable pub pair_bucket : ℕ → Option (PairBucket F) → PairBucket F
  pair_bucket window_end none = record {
    n = 0;
    chal = fl.of_int 0;
    base = fl.of_int 0;
    first = window_end;
    last = window_end;
  }
  pair_bucket window_end (some b) = b

  unfoldable pub add_pair : ℕ → F → F → PairBucket F → PairBucket F
  add_pair window_end chal base b = record {
    n = b.n + 1;
    chal = b.chal ⊕ chal;
    base = b.base ⊕ base;
    first = min b.first window_end;
    last = max b.last window_end;
  }

  -- A bound waits for its partner of the same issuance, or meets it.
  unfoldable pub wait : CalibrationRecord F → F → Pairs F → Pairs F
  wait c loss s = record s {
    pending =
        insert c.window_end (record { model = c.model; loss = loss; issuance_id = c.issuance_id })
          (erase c.window_end s.pending);
  }

  unfoldable pub meet : CalibrationRecord F → F → F → Pairs F → Pairs F
  meet c loss other s =
      let k = c.window_end / hour in
      let own = c.model == s.challenger in
      record s {
        pending = erase c.window_end s.pending;
        buckets =
            insert k
              (add_pair c.window_end (if own then loss else other) (if own then other else loss)
                (pair_bucket c.window_end (lookup k s.buckets)))
              s.buckets;
      }

  unfoldable pub pair_up : CalibrationRecord F → F → Option (Half F) → Pairs F → Pairs F
  pair_up c loss none s = wait c loss s
  pair_up c loss (some o) s =
      if o.model == c.model || not (o.issuance_id == c.issuance_id)
      then wait c loss s
      else meet c loss o.loss s

  -- A prospective gate bound; a scored record carries its Y.
  unfoldable pub note_bound :
      CalibrationRecord F → F → ℕ → Option F → Option F → Pairs F → Result TrustError (Pairs F)
  note_bound c nominal_miscoverage retention_s y none s = ok s
  note_bound c nominal_miscoverage retention_s none (some u) s = err no_truth
  note_bound c nominal_miscoverage retention_s (some y) (some u) s = ok (
      prune_pairs c.window_end retention_s
        (pair_up c (pinball_rps y u nominal_miscoverage) (lookup c.window_end s.pending) s))

  unfoldable pub note_pair : Pairs F → EvidenceRecord F → ℕ → F → ℕ → Result TrustError (Pairs F)
  note_pair pairs r lead_s nominal_miscoverage retention_s =
      let c = r.cal in
      if not (c.epoch == pairs.epoch)
        || not (contains c.model pairs.recipes)
        || leb c.seq pairs.last_seq
      then ok pairs
      else do
        raise_if (other_than (lookup c.model pairs.recipes) c.recipe) other_recipe
        let s = record pairs { last_seq = c.seq }
        if r.mode == "prospective" && c.status == "scored" && in_cohort c.decision_origin lead_s
            then note_bound c nominal_miscoverage retention_s c.y_rps c.upper_rps s
            else ok s

  unfoldable pub add_sums : PairSums F → PairBucket F → PairSums F
  add_sums o b = record {
    n = o.n + b.n;
    chal = o.chal ⊕ b.chal;
    base = o.base ⊕ b.base;
    first = some (elim o.first [ none ↦ b.first | some t ↦ min t b.first ]);
    last = some (elim o.last [ none ↦ b.last | some t ↦ max t b.last ]);
  }

  unfoldable pub sum_pairs : ℕ → ℕ → Dict ℕ (PairBucket F) → PairSums F → PairSums F
  sum_pairs now_s seconds [] out = out
  sum_pairs now_s seconds ((k, b) ∷ d) out =
      sum_pairs now_s seconds d (if in_window now_s seconds k then add_sums out b else out)

  unfoldable pub pair_sums : Pairs F → ℕ → ℕ → PairSums F
  pair_sums pairs now_s seconds =
      sum_pairs now_s seconds pairs.buckets
        (record { n = 0; chal = fl.of_int 0; base = fl.of_int 0; first = none; last = none })

  -- A replay cost: the challenger's and the naive's. Both are finite, and the challenger's is within
  -- the ratio.
  unfoldable pub cost_ok : TrustSettings → Option (F × F) → Bool
  cost_ok t none = false
  cost_ok t (some (chal, base)) =
      fl.is_finite chal
      && fl.is_finite base
      && (chal ≤? ((fl.of_int t.challenger_cost_ratio_bps ⊘ fl.of_int 10_000) ⊗ base))

  unfoldable pub sums_ok : PairSums F → TrustSettings → ℕ → Bool
  sums_ok ps t loss_ratio_bps =
      leb t.challenger_min_pairs ps.n
      && leb (t.challenger_min_hours * hour) (span ps)
      && (fl.of_int 0 <? ps.base)
      && ((ps.chal ⊘ fl.of_int ps.n)
          ≤? ((fl.of_int loss_ratio_bps ⊘ fl.of_int 10_000) ⊗ ps.base ⊘ fl.of_int ps.n))

  unfoldable pub paired_ok :
      Option (Pairs F) → ℕ → TrustSettings → Option (Dict String (F × F)) → ℕ → Bool
  paired_ok none now_s t costs loss_ratio_bps = false
  paired_ok (some pairs) now_s t none loss_ratio_bps = false
  paired_ok (some pairs) now_s t (some costs) loss_ratio_bps =
      sums_ok (pair_sums pairs now_s (7 * day)) t loss_ratio_bps
      && cost_ok t (lookup "shortage" costs)
      && cost_ok t (lookup "replica_time" costs)

  unfoldable pub challenger_promoted :
      Option (Pairs F) → ℕ → TrustSettings → Option (Dict String (F × F)) → Bool
  challenger_promoted pairs now_s t costs =
      paired_ok pairs now_s t costs t.challenger_loss_ratio_bps

  unfoldable pub challenger_retained :
      Option (Pairs F) → ℕ → TrustSettings → Option (Dict String (F × F)) → Bool
  challenger_retained pairs now_s t costs =
      paired_ok pairs now_s t costs t.challenger_exit_loss_ratio_bps
