-- ===== src/Trust/Selection/Entry.antt =====
-- The entry times of `select` of trust.py: a challenger that fails its test has none.
use predictive_autoscaler.Prelude.{
  ℕ, ◌≡◌, ◌≢◌, sym, ◌∙◌, Bool, true, false, none, some, String, [], ◌∷◌, Dict, lookup, insert,
  lookup-insert, lookup-erase, ◌==◌, string_eq, pair_eq, Bool-cases, inl, inr, arith, if◌then◌else◌,
  is_some,
}
use predictive_autoscaler.Trust.Candidate.{CandidateVerdict}
use predictive_autoscaler.Trust.Selection.{naive, enter, enter_all}

abbrev Key : Type 0
Key = String × String

key_ne : (m n r q : String) → m ≢ n → (◌==◌ {A = Key} (m, r) (n, q)) ≡ false
key_ne m n r q h = ground (arith, string_eq.same_iff m n)

-- Another key's entry is left alone.
lookup-enter_ne :
    (passed : Bool) (m n r q : String) (now : ℕ) (d : Dict Key ℕ)
    → m ≢ n
    → lookup {K = Key} (n, q) (enter passed m r now d) ≡ lookup {K = Key} (n, q) d
unfolding enter
lookup-enter_ne false m n r q now d h = simp (lookup-erase, key_ne m n r q h)
lookup-enter_ne true m n r q now d h = elim (Bool-cases (is_some (lookup {K = Key} (m, r) d))) [
  | inl e ↦ rw e
  | inr e ↦ rw e (simp (lookup-insert, key_ne m n r q h))
]

-- A failed test leaves no entry where there was none, and drops its own.
lookup-enter_failed :
    (m r q : String) (now : ℕ) (d : Dict Key ℕ)
    → lookup {K = Key} (m, q) d ≡ none
    → lookup {K = Key} (m, q) (enter false m r now d) ≡ none
unfolding enter
lookup-enter_failed m r q now d h = rw (lookup-erase {K = Key} (m, r) (m, q) d) (ground (arith, h))

lookup-enter_own :
    (m r : String) (now : ℕ) (d : Dict Key ℕ)
    → lookup {K = Key} (m, r) (enter false m r now d) ≡ none
unfolding enter
lookup-enter_own m r now d =
    rw (lookup-erase {K = Key} (m, r) (m, r) d)
      (ground (arith, string_eq.same_iff m m, string_eq.same_iff r r))

abbrev Acc : Type 0
Acc = Dict Key ℕ × Dict String Bool

module _ {F : Type 0} where
  -- One round of the loop.
  abbrev round : (String → Bool) → ℕ → String → CandidateVerdict F → Acc → Acc
  round flag now n v (d, entry) =
      if n == naive then (d, entry) else (enter (flag n) n v.recipe now d, insert n (flag n) entry)

  round_absent :
      (flag : String → Bool) (now : ℕ) (m q n : String) (v : CandidateVerdict F) (acc : Acc)
      → flag m ≡ false
      → lookup {K = Key} (m, q) acc.0 ≡ none
      → lookup {K = Key} (m, q) (round flag now n v acc).0 ≡ none
  round_absent flag now m q n v (d, entry) f h = elim (Bool-cases (n == naive)) [
    | inl e ↦ rw e h
    | inr e ↦ rw e (elim (Bool-cases (n == m)) [
      | inl same ↦
          let key : m ≡ n = sym ((string_eq.same_iff n m).0 same) in
          rw (← key) (rw f (lookup-enter_failed m v.recipe q now d h))
      | inr other ↦
          let apart : n ≢ m = λ p. cc ((string_eq.same_iff n m).1 p, other) in
          lookup-enter_ne (flag n) n m v.recipe q now d apart ∙ h
    ])
  ]

  enter_all_absent :
      (flag : String → Bool) (now : ℕ) (m q : String) (vs : Dict String (CandidateVerdict F))
      (acc : Acc)
      → flag m ≡ false
      → lookup {K = Key} (m, q) acc.0 ≡ none
      → lookup {K = Key} (m, q) (enter_all flag now vs acc).0 ≡ none
  unfolding enter_all
  enter_all_absent flag now m q [] acc f h = h
  enter_all_absent flag now m q ((n, v) ∷ vs) (d, entry) f h =
      enter_all_absent flag now m q vs (round flag now n v (d, entry)) f
        (round_absent flag now m q n v (d, entry) f h)

  -- A challenger among the verdicts whose test fails has no entry time afterwards.
  pub enter_all_failed :
      (flag : String → Bool) (now : ℕ) (m : String) (v : CandidateVerdict F)
      (vs : Dict String (CandidateVerdict F)) (acc : Acc)
      → (m == naive) ≡ false
      → flag m ≡ false
      → lookup m vs ≡ some v
      → lookup {K = Key} (m, v.recipe) (enter_all flag now vs acc).0 ≡ none
  unfolding enter_all
  enter_all_failed flag now m v [] acc nn f h = absurd (ground (arith, h))
  enter_all_failed flag now m v ((n, w) ∷ vs) (d, entry) nn f h = elim (Bool-cases (n == m)) [
    | inl same ↦
        let key : m ≡ n = sym ((string_eq.same_iff n m).0 same) in
        let found : some w ≡ some v = rw same at h in
        let value : v ≡ w = cc in
        enter_all_absent flag now m v.recipe vs (round flag now n w (d, entry)) f
          (rw (← key, nn, f, value) (lookup-enter_own m w.recipe now d))
    | inr other ↦
        enter_all_failed flag now m v vs (round flag now n w (d, entry)) nn f (rw other at h)
  ]
