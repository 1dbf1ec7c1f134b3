-- ===== src/History/Cover.antt =====
-- The chunks of a plan are the grid, cut into pieces.
use predictive_autoscaler.Prelude.{
  ℕ, zero, suc, ◌+◌, ◌-◌, ◌*◌, ◌/◌, ◌%◌, ◌≤◌, ◌<◌, min, ◌≡◌, refl, sym, ap, ◌∙◌, true, false, List,
  [], ◌∷◌, ◌++◌, All, leb, inl, inr, Bool-cases, arith, ok,
}
use native.Mathlib.Nat.{mul-div_cancel, add-mul, mul-mod_left}
use predictive_autoscaler.History.{chunks_from, plan_chunks}

-- k grid points from s on.
abbrev pub grid : ℕ → ℕ → ℕ → List ℕ
grid i s zero = []
grid i s (suc k) = s ∷ grid i (s + i) k

abbrev pub size : ℕ → ℕ × ℕ → ℕ
size i (s, e) = (e - s) / i + 1

-- The grid points of the chunks, one chunk after the other.
abbrev pub points : ℕ → List (ℕ × ℕ) → List ℕ
points i [] = []
points i ((s, e) ∷ cs) = grid i s (size i (s, e)) ++ points i cs

grid-append : (i s m k : ℕ) → grid i s (m + k) ≡ grid i s m ++ grid i (s + m * i) k
grid-append i s zero k =
    let count : 0 + k ≡ k = omega arith in
    let start : s ≡ s + 0 * i = omega arith in ap (grid i s) count ∙ ap (λ t. grid i t k) start
grid-append i s (suc m) k =
    let count : suc m + k ≡ suc (m + k) = omega arith in
    let moved : s + i + m * i ≡ s + suc m * i = omega arith in
    ap (grid i s) count
    ∙ ap (λ ts. s ∷ ts) (grid-append i (s + i) m k ∙ ap (λ t. grid i (s + i) m ++ grid i t k) moved)

size_of : (i s n : ℕ) → 0 < i → size i (s, s + n * i) ≡ n + 1
size_of i s n h =
    let diff : s + n * i - s ≡ n * i = omega arith in
    ap (λ d. d / i + 1) diff ∙ ap (λ q. q + 1) (mul-div_cancel n h)

-- One chunk of n + 1 points, and the points of the chunks after it.
cons-points :
    (i s n k : ℕ) (cs : List (ℕ × ℕ))
    → 0 < i
    → points i cs ≡ grid i (s + suc n * i) k
    → points i ((s, s + n * i) ∷ cs) ≡ grid i s (suc n + k)
cons-points i s n k cs pos h =
    let whole : size i (s, s + n * i) ≡ suc n = size_of i s n pos ∙ omega arith in
    ap (λ c. grid i s c ++ points i cs) whole
    ∙ ap (λ ts. grid i s (suc n) ++ ts) h
    ∙ sym (grid-append i s (suc n) k)

product_split : (k m i : ℕ) → m ≤ k → k * i ≡ m * i + (k - m) * i
product_split k m i h =
    let whole : k ≡ m + (k - m) = omega (arith, h) in ap (λ j. j * i) whole ∙ add-mul m (k - m) i

-- With k points left from s on, and at least as much fuel.
chunks_from-points :
    (fuel k s end_s i m : ℕ)
    → 0 < i
    → k ≤ fuel
    → s + k * i ≡ end_s + i
    → (points i (chunks_from fuel s end_s i (suc m)) ≡ grid i s k)
      × All (λ c. size i c ≤ suc m) (chunks_from fuel s end_s i (suc m))
unfolding chunks_from
chunks_from-points zero zero s end_s i m pos few left = (refl, tt)
chunks_from-points zero (suc k) s end_s i m pos few left = absurd (omega (arith, few))
chunks_from-points (suc fuel) zero s end_s i m pos few left =
    let past : leb s end_s ≡ false = ground (arith, left, pos) in rw past (refl, tt)
chunks_from-points (suc fuel) (suc k) s end_s i m pos few left =
    let reach : s + k * i ≡ end_s = omega (arith, left) in
    let here : leb s end_s ≡ true = ground (arith, reach) in
    let most : (suc m - 1) * i ≡ m * i = ap (λ j. j * i) (omega arith) in
    elim (Bool-cases (leb m k)) [
      | inl full ↦
          let split = product_split k m i (ground (arith, full)) in
          let cut : min end_s (s + (suc m - 1) * i) ≡ s + m * i =
            omega (arith, reach, most, split) in
          let (rest, small) =
            chunks_from-points fuel (k - m) (s + m * i + i) end_s i m pos (omega (arith, few))
              (omega (arith, reach, split)) in
          let count : suc m + (k - m) ≡ suc k = ground (arith, full) in
          rw (here, cut)
            (
              cons-points i s m (k - m) _ pos (rest ∙ ap (λ t. grid i t (k - m)) (omega arith))
                  ∙ ap (grid i s) count,
              (omega (arith, size_of i s m pos), small),
            )
      | inr last ↦
          let split = product_split m k i (ground (arith, last)) in
          let cut : min end_s (s + (suc m - 1) * i) ≡ s + k * i =
            omega (arith, reach, most, split) in
          let (rest, small) =
            chunks_from-points fuel zero (s + k * i + i) end_s i m pos (omega arith)
              (omega (arith, reach)) in
          let count : suc k + zero ≡ suc k = omega arith in
          rw (here, cut)
            (
              cons-points i s k zero _ pos rest ∙ ap (grid i s) count,
              (ground (arith, size_of i s k pos, last), small),
            )
    ]

-- A plan of grid-aligned bounds with a positive chunk size is made, and its chunks are the grid: every
-- grid point from start to end is in exactly one chunk, in order, and no chunk has more than
-- `max_points` points.
pub plan_chunks-covers :
    (start n i m : ℕ)
    → 0 < i
    → (cs : List (ℕ × ℕ)) × (plan_chunks start (start + n * i) i (suc m) ≡ ok cs)
      × (points i cs ≡ grid i start (suc n))
      × All (λ c. size i c ≤ suc m) cs
unfolding plan_chunks
plan_chunks-covers start n i m pos =
    let diff : start + n * i - start ≡ n * i = omega arith in
    let rem : (start + n * i - start) % i ≡ 0 = ap (λ d. d % i) diff ∙ mul-mod_left n i in
    let quot : (start + n * i - start) / i ≡ n = ap (λ d. d / i) diff ∙ mul-div_cancel n pos in
    let fuel = (start + n * i - start) / i + 1 in
    let (covers, small) =
      chunks_from-points fuel (suc n) start (start + n * i) i m pos (omega (arith, quot))
        (omega arith) in
    (_, ground (arith, rem), covers, small)
