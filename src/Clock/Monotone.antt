-- ===== src/Clock/Monotone.antt =====
-- The receipt clock never goes backwards and never shows less than the wall clock.
use predictive_autoscaler.Prelude.{
  ℕ, ◌≤◌, ◌≡◌, Option, none, some, List, [], ◌∷◌, leb, true, All, All-map, subst, IsSorted, Result,
  ok, err, Result-cases, inl, inr, arith, ◌>>=◌,
}
use predictive_autoscaler.Clock.{ClockError, ReceiptClock, receipt_clock, not_before, now_ms}

-- The readings of a run, one for each time that the wall clock shows.
unfoldable pub read_all : List (Option ℕ) → ReceiptClock → Result ClockError (List ℕ)
read_all [] c = ok []
read_all (v ∷ vs) c = do
  (reading, c') ← now_ms v c
  readings ← read_all vs c'
  ok (reading ∷ readings)

abbrev pub AtLeast : Option ℕ → ℕ → Type 0
AtLeast none t = Unit
AtLeast (some l) t = l ≤ t

-- Each reading is at least what the wall clock showed.
abbrev pub Follows : List (Option ℕ) → List ℕ → Type 0
Follows [] [] = Unit
Follows [] (t ∷ ts) = Unit
Follows (v ∷ vs) [] = Unit
Follows (v ∷ vs) (t ∷ ts) = AtLeast v t × Follows vs ts

at_least : (o : Option ℕ) (v t : ℕ) → not_before o v ≤ t → AtLeast o t
at_least none v t h = tt
at_least (some l) v t h = omega arith

source_at_least : (o : Option ℕ) (v : ℕ) → v ≤ not_before o v
source_at_least none v = omega arith
source_at_least (some l) v = omega arith

-- A run that raises nothing has readings in order, none before the clock's last one.
read_all-sorted :
    (vs : List (Option ℕ)) (c : ReceiptClock) (ts : List ℕ)
    → read_all vs c ≡ ok ts
    → IsSorted leb ts × All (λ t. AtLeast c.last t) ts × Follows vs ts
unfolding read_all now_ms
read_all-sorted [] c ts e = let same : [] ≡ ts = cc in rw (← same) (tt, tt, tt)
read_all-sorted (none ∷ vs) c ts e = cc
read_all-sorted (some v ∷ vs) c ts e =
    let m = not_before c.last v in
    elim (Result-cases (read_all vs (record { last = some m }))) [
      | inr (x, f) ↦ let failed : err x ≡ ok ts = rw f at e in cc
      | inl (us, f) ↦
          let found : ok (m ∷ us) ≡ ok ts = rw f at e in
          let same : (m ∷ us) ≡ ts = cc in
          let (sorted, above, follows) = read_all-sorted vs (record { last = some m }) us f in
          subst (λ ts. IsSorted leb ts × All (λ t. AtLeast c.last t) ts × Follows (some v ∷ vs) ts)
            same
            (
              (All-map (λ t. m ≤ t) (λ t. leb m t ≡ true) (λ t h. ground arith) us above, sorted),
              (
                at_least c.last v m (omega arith),
                All-map (λ t. m ≤ t) (λ t. AtLeast c.last t) (at_least c.last v) us above,
              ),
              (source_at_least c.last v, follows),
            )
    ]

-- Whatever the wall clock shows, the readings of a receipt clock never go backwards, and each is at
-- least what the wall clock showed at it.
pub read_all_monotone :
    (vs : List (Option ℕ)) (ts : List ℕ)
    → read_all vs receipt_clock ≡ ok ts
    → IsSorted leb ts × Follows vs ts
read_all_monotone vs ts e =
    let (sorted, _, follows) = read_all-sorted vs receipt_clock ts e in (sorted, follows)
