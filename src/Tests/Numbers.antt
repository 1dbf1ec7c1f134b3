-- ===== src/Tests/Numbers.antt =====
-- Whole numbers as the floating-point numbers of the tests, and digests that are constant.
use predictive_autoscaler.Prelude.{ℕ, ◌+◌, ◌-◌, ◌*◌, ◌/◌, ◌≡◌, true, false, leb, Float, arith}
use predictive_autoscaler.Maturation.{Digests}

instance abbrev pub nat_float : Float ℕ
nat_float = record {
  of_int = λ n. n;
  add = ◌+◌;
  sub = ◌-◌;
  mul = ◌*◌;
  div = ◌/◌;
  le = leb;
  abs = λ n. n;
  is_finite = λ n. true;
}

abbrev pub digests : Digests ℕ
digests = record { targets_sha256 = λ ts. "grid"; values_sha256 = λ vs. "values" }

pub nat_total : (x y : ℕ) → leb x y ≡ false → leb y x ≡ true
nat_total x y h = ground (arith, h)

pub nat_trans : (x y z : ℕ) → leb x y ≡ true → leb y z ≡ true → leb x z ≡ true
nat_trans x y z h k = ground (arith, h, k)
