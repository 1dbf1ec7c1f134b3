-- ===== src/Calibration/Bound.antt =====
-- The rank and the upper bound of calibration.py: when there is a bound, and which scores it covers.
use predictive_autoscaler.Prelude.{
  ℕ, ◌+◌, ◌-◌, ◌*◌, ◌≤◌, ◌<◌, ◌≡◌, ap, sym, ◌∙◌, true, false, some, List, Float, ◌⊕◌, ◌≤?◌, fmax,
  ok, Option-cases, inl, inr, arith, length, get_elem?, sort_by, length-sort_by, count-sort_by,
  sort_by-IsSorted, order_statistic, count,
}
use predictive_autoscaler.Calibration.{
  CalibrationPolicy, CalibrationState, BoundInfo, available, E8, rank, buffered_scores, bound_of,
  upper_bound,
}

-- `rank` is the quotient (n + 1)(1 - a) rounded up.
pub rank_bounds :
    (n a : ℕ) → ((n + 1) * (E8 - a) ≤ rank n a * E8) × (rank n a * E8 < (n + 1) * (E8 - a) + E8)
unfolding rank
rank_bounds n a = omega arith

pub rank_pos : (n a : ℕ) → a < E8 → 0 < rank n a
rank_pos n a h =
    let slack : 0 < (n + 1) * (E8 - a) = grind arith in omega (arith, rank_bounds n a, slack)

module _ {F : Type 0} ⦃fl : Float F⦄ where
  bound_of-available :
      (p : CalibrationPolicy) (base : F) (k : ℕ) (xs : List F) (u q : F)
      → bound_of p base k xs ≡ available u q
      → (p.min_windows ≤ length xs)
        × (k ≤ length xs)
        × (get_elem? xs (k - 1) ≡ some q)
        × (u ≡ fmax (fl.of_int 0) (base ⊕ q))
  unfolding bound_of
  bound_of-available p base k xs u q h = elim (Option-cases (get_elem? xs (k - 1))) [
    | inl e ↦ absurd (ground (arith, h, e))
    | inr (x, e) ↦
        (ground (arith, h, e), ground (arith, h, e), ground (arith, h, e), ground (arith, h, e))
  ]

  module _ (s : CalibrationState F) (p : CalibrationPolicy) (base : F) (now : ℕ) where
    abbrev pub sorted_scores : List F
    sorted_scores = sort_by ◌≤?◌ (buffered_scores s p now)

    abbrev pub score_count : ℕ
    score_count = length (buffered_scores s p now)

    pub length-sorted_scores : length sorted_scores ≡ score_count
    length-sorted_scores = length-sort_by ◌≤?◌ (buffered_scores s p now)

    upper_bound-bound_of :
        (n k : ℕ) (level : F) (info : BoundInfo F)
        → upper_bound s p base now ≡ ok (n, k, level, info)
        → (n ≡ score_count)
          × (k ≡ rank score_count s.a_e8)
          × (info ≡ bound_of p base k sorted_scores)
    unfolding upper_bound
    upper_bound-bound_of n k level info h =
        let fixed : n ≡ length sorted_scores = ground (arith, h) in
        let ranked : k ≡ rank (length sorted_scores) s.a_e8 = ground (arith, h) in
        let found : info ≡ bound_of p base (rank (length sorted_scores) s.a_e8) sorted_scores =
          ground (arith, h) in
        (fixed ∙ length-sorted_scores, ranked ∙ ap (λ m. rank m s.a_e8) length-sorted_scores, cc)

    module _ (total : (x y : F) → (x ≤? y) ≡ false → (y ≤? x) ≡ true)
        (trans : (x y z : F) → (x ≤? y) ≡ true → (y ≤? z) ≡ true → (x ≤? z) ≡ true) where
      pub upper_bound_coverage :
          (n k : ℕ) (level u q : F)
          → s.a_e8 < E8
          → upper_bound s p base now ≡ ok (n, k, level, available u q)
          → (p.min_windows ≤ n)
            × (n ≡ score_count)
            × ((n + 1) * (E8 - s.a_e8) ≤ count (λ e. e ≤? q) (buffered_scores s p now) * E8)
            × (u ≡ fmax (fl.of_int 0) (base ⊕ q))
      upper_bound_coverage n k level u q below h =
          let (en, ek, found) = upper_bound-bound_of n k level (available u q) h in
          let (enough, fits, at_rank, eu) =
            bound_of-available p base k sorted_scores u q (sym found) in
          let pos = rank_pos score_count s.a_e8 below in
          let stat =
            order_statistic ◌≤?◌ total trans sorted_scores (k - 1) q
              (sort_by-IsSorted ◌≤?◌ total trans (buffered_scores s p now)) at_rank in
          let same = count-sort_by ◌≤?◌ (λ e. e ≤? q) (buffered_scores s p now) in
          let bounds = rank_bounds n s.a_e8 in
          let ek' : k ≡ rank n s.a_e8 = ek ∙ ap (λ m. rank m s.a_e8) (sym en) in
          (
            omega (arith, enough, en, length-sorted_scores),
            en,
            omega (arith, stat, same, bounds, ek', ek, pos),
            eu,
          )
