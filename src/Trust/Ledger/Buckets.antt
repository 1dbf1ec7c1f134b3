-- ===== src/Trust/Ledger/Buckets.antt =====
-- The counts of an hourly bucket of trust.py agree, whatever is counted in it.
use predictive_autoscaler.Prelude.{
  ℕ, ◌+◌, ◌/◌, ◌≤◌, ◌≡◌, refl, Bool, true, false, Option, none, some, Dict, lookup, nat_eq, All,
  All-insert, All-lookup, to_int, Float, arith,
}
use predictive_autoscaler.Trust.Types.{hour, Bucket, EvidenceRecord}
use predictive_autoscaler.Trust.Ledger.{or_empty, bucket_at, update_bucket}
use predictive_autoscaler.Trust.Ledger.Outcome.{
  replay_bucket, error_bucket, step_bucket, bound_bucket,
}

pub to_int-le-one : (b : Bool) → to_int b ≤ 1
to_int-le-one true = omega arith
to_int-le-one false = omega arith

module _ {F : Type 0} where
  -- The gate cohort is part of all windows, what is covered was bounded, what is bounded was scored.
  pub record IsBucket (b : Bucket F) : Type 0 where
    pub gate_issued : b.g_iss ≤ b.iss
    pub gate_scored : b.g_sc ≤ b.sc
    pub gate_unscorable : b.g_un ≤ b.un
    pub gate_covered : b.g_cv ≤ b.g_bd
    pub all_covered : b.a_cv ≤ b.a_bd
    pub gate_bounded : b.g_bd ≤ b.g_sc
    pub all_bounded : b.a_bd ≤ b.sc
    pub bounded_in_all : b.g_bd ≤ b.a_bd
    pub covered_in_all : b.g_cv ≤ b.a_cv
    pub replay_covered : b.r_cv ≤ b.r_bd
    pub replay_bounded : b.r_bd ≤ b.r_sc

module _ {F : Type 0} ⦃fl : Float F⦄ where
  pub replay_bucket-IsBucket :
      (s g : Bool) (u : Option F) (c : Bool) (b : Bucket F)
      → IsBucket b
      → IsBucket (replay_bucket s g u c b)
  unfolding replay_bucket
  replay_bucket-IsBucket false g u c b h = omega arith
  replay_bucket-IsBucket true false u c b h = omega arith
  replay_bucket-IsBucket true true none c b h = omega arith
  replay_bucket-IsBucket true true (some u) c b h = omega (arith, to_int-le-one c)

  -- A bucket that has just counted a scored window has room for its bound.
  pub record HasRoom (g : Bool) (b : Bucket F) : Type 0 where
    pub counts : IsBucket b
    pub room : b.a_bd + 1 ≤ b.sc
    pub gate_room : b.g_bd + to_int g ≤ b.g_sc

  step_bucket-HasRoom :
      (g : Bool) (o : Option (F × F × F)) (b : Bucket F) → HasRoom g b → HasRoom g (step_bucket o b)
  unfolding step_bucket
  step_bucket-HasRoom g none b h = h
  step_bucket-HasRoom g (some (e0, e1, e2)) b h = omega arith

  pub error_bucket-HasRoom :
      (r : EvidenceRecord F) (g : Bool) (y : F) (b : Bucket F)
      → IsBucket b
      → HasRoom g (error_bucket r g y b)
  unfolding error_bucket
  error_bucket-HasRoom r g y b h =
      step_bucket-HasRoom g r.step_abs_errors _ (omega (arith, to_int-le-one g))

  pub bound_bucket-IsBucket :
      (g c : Bool) (y u nominal : F) (b : Bucket F)
      → HasRoom g b
      → IsBucket (bound_bucket g c y u nominal b)
  unfolding bound_bucket
  bound_bucket-IsBucket true c y u nominal b h = omega (arith, to_int-le-one c)
  bound_bucket-IsBucket false c y u nominal b h = omega (arith, to_int-le-one c)

  pub update_bucket-All :
      (t : ℕ) (f : Bucket F → Bucket F) (d : Dict ℕ (Bucket F))
      → ((b : Bucket F) → IsBucket b → IsBucket (f b))
      → All (λ (e : ℕ × Bucket F). IsBucket e.1) d
      → All (λ (e : ℕ × Bucket F). IsBucket e.1) (update_bucket t f d)
  unfolding update_bucket
  update_bucket-All t f d keep h =
      All-insert (λ (e : ℕ × Bucket F). IsBucket e.1) (t / hour) _ d
        (keep (bucket_at (t / hour) d) (found (lookup (t / hour) d) refl)) h
    where
      found : (o : Option (Bucket F)) → lookup (t / hour) d ≡ o → IsBucket {F = F} (or_empty o)
      found none q = omega arith
      found (some b) q = All-lookup (λ (e : ℕ × Bucket F). IsBucket e.1) (t / hour) b d q h
