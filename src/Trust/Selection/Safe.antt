-- ===== src/Trust/Selection/Safe.antt =====
-- What `select` of trust.py may select.
use predictive_autoscaler.Prelude.{
  ℕ, ◌+◌, ◌*◌, ◌≤◌, ◌≡◌, refl, sym, ap, subst, ◌∙◌, ◌⊎◌, inl, inr, Bool, true, false, ◌&&◌, Option,
  none, some, String, List, [], ◌∷◌, Dict, lookup, ◌==◌, string_eq, pair_eq, Bool-cases,
  Option-cases, arith, any, Float,
}
use predictive_autoscaler.Trust.Types.{hour}
use predictive_autoscaler.Trust.Candidate.{TrustSettings, CandidateVerdict}
use predictive_autoscaler.Trust.Pairs.{Pairs, challenger_promoted, challenger_retained}
use predictive_autoscaler.Trust.Selection.{
  naive, fallback_order, Selection, is_name, trusted_of, naive_trusted, entry_held, eligible,
  choose, same_name, switch, enter_all, entry_flag, stays, kept_current, select,
}
use predictive_autoscaler.Trust.Selection.Entry.{enter_all_failed}

same_name→eq : (a b : Option String) → same_name a b ≡ true → a ≡ b
same_name→eq none none h = refl
same_name→eq none (some b) h = cc
same_name→eq (some a) none h = cc
same_name→eq (some a) (some b) h = ap some ((string_eq.same_iff a b).0 h)

module _ {F : Type 0} where
  choose-eligible :
      (es : Dict (String × String) ℕ) (cur : Option String) (nok : Bool) (now : ℕ)
      (t : TrustSettings) (vs : Dict String (CandidateVerdict F)) (order : List String) (m : String)
      → choose es cur nok now t vs order ≡ some m
      → (v : CandidateVerdict F) × (lookup m vs ≡ some v) × (eligible es cur nok now t m v ≡ true)
  unfolding choose
  choose-eligible es cur nok now t vs [] m h = absurd (ground (arith, h))
  choose-eligible es cur nok now t vs (n ∷ ns) m h = elim (Option-cases (lookup n vs)) [
    | inl e ↦ choose-eligible es cur nok now t vs ns m (ground (arith, h, e))
    | inr (v, e) ↦ elim (Bool-cases (eligible es cur nok now t n v)) [
      | inl ok_n ↦
          let here : n ≡ m = ground (arith, h, e, ok_n) in
          (
            v,
            ap (λ k. lookup k vs) (sym here) ∙ e,
            ap (λ k. eligible es cur nok now t k v) (sym here) ∙ ok_n,
          )
      | inr no_n ↦ choose-eligible es cur nok now t vs ns m (ground (arith, h, e, no_n))
    ]
  ]

  choose-naive :
      (es : Dict (String × String) ℕ) (cur : Option String) (nok : Bool) (now : ℕ)
      (t : TrustSettings) (vs : Dict String (CandidateVerdict F)) (order : List String)
      (w : CandidateVerdict F)
      → lookup naive vs ≡ some w
      → w.trusted ≡ true
      → any (λ m. m == naive) order ≡ true
      → (m : String) × (choose es cur nok now t vs order ≡ some m)
  unfolding choose eligible
  choose-naive es cur nok now t vs [] w e h q = cc
  choose-naive es cur nok now t vs (n ∷ ns) w e h q = elim (Bool-cases (n == naive)) [
    | inl named ↦
        let same : n ≡ naive = (string_eq.same_iff n naive).0 named in
        let found : lookup n vs ≡ some w = ap (λ k. lookup k vs) same ∙ e in
        (n, ground (arith, found, h, named))
    | inr other ↦
        let (m, rest) = choose-naive es cur nok now t vs ns w e h (rw other at q) in
        elim (Option-cases (lookup n vs)) [
          | inl none_here ↦ (m, ground (arith, none_here, rest))
          | inr (v, some_here) ↦ elim (Bool-cases (eligible es cur nok now t n v)) [
            | inl passes ↦ (n, ground (arith, some_here, passes))
            | inr fails ↦ (m, ground (arith, some_here, fails, rest))
          ]
        ]
  ]

  -- What is selected after a switch is the target.
  selected-switch :
      (s : Selection) (target : Option String) (vs : Dict String (CandidateVerdict F)) (now : ℕ)
      → (switch s target vs now).selected ≡ target
  unfolding switch
  selected-switch s target vs now = elim (Bool-cases (same_name target s.selected)) [
    | inl e ↦ rw e (sym (same_name→eq target s.selected e))
    | inr e ↦ rw e
  ]

module _ {F : Type 0} ⦃fl : Float F⦄ where
  module _ (sel : Selection) (vs : Dict String (CandidateVerdict F)) (pairs : Dict String (Pairs F))
      (costs : Dict String (Dict String (F × F))) (now : ℕ) (t : TrustSettings) where
    abbrev pub entered : Dict (String × String) ℕ
    entered =
        (enter_all (entry_flag pairs costs (naive_trusted vs) now t) now vs (sel.entry_since, [])).0

    abbrev current : Option String
    current =
        kept_current (record sel { entry_since = entered }) vs pairs costs (naive_trusted vs) now t
          sel.selected

    select-eligible :
        (m : String)
        → (select sel vs pairs costs now t).0.selected ≡ some m
        → (v : CandidateVerdict F) × (lookup m vs ≡ some v)
          × (eligible entered current (naive_trusted vs) now t m v ≡ true)
    unfolding select
    select-eligible m h =
        let target = choose entered current (naive_trusted vs) now t vs fallback_order in
        choose-eligible entered current (naive_trusted vs) now t vs fallback_order m
          (sym (selected-switch (record sel { entry_since = entered }) target vs now) ∙ h)

    -- What is selected has a verdict, and that verdict is trusted.
    pub select_trusted :
        (m : String)
        → (select sel vs pairs costs now t).0.selected ≡ some m
        → (v : CandidateVerdict F) × (lookup m vs ≡ some v) × (v.trusted ≡ true)
    unfolding eligible
    select_trusted m h = let (v, e, q) = select-eligible m h in (v, e, ground (arith, q))

    stays-parts :
        (o : Option String) (m : String) (v : CandidateVerdict F)
        → (m == naive) ≡ false
        → lookup m vs ≡ some v
        → is_name
            (kept_current
              (record sel { entry_since = entered })
              vs
              pairs
              costs
              (naive_trusted vs)
              now
              t
              o)
            m
          ≡ true
        → (o ≡ some m)
          × (is_name sel.recipe v.recipe ≡ true)
          × (naive_trusted vs ≡ true)
          × (challenger_retained (lookup m pairs) now t (lookup m costs) ≡ true)
    unfolding kept_current stays
    stays-parts none m v nn e h = cc
    stays-parts (some n) m v nn e h =
        let s = record sel { entry_since = entered } in
        elim (Bool-cases (stays s pairs costs (naive_trusted vs) now t n (lookup n vs))) [
          | inr out ↦ let gone : false ≡ true = rw out at h in cc
          | inl in_band ↦
              let named : (n == m) ≡ true = rw in_band at h in
              let same : n ≡ m = (string_eq.same_iff n m).0 named in
              let held : stays s pairs costs (naive_trusted vs) now t m (some v) ≡ true = rw e at (
                subst (λ k. stays s pairs costs (naive_trusted vs) now t k (lookup k vs) ≡ true)
                  same in_band) in
              (
                ap some same,
                ground (arith, held),
                ground (arith, held, nn),
                ground (arith, held, nn),
              )
        ]

    held-entry :
        (m : String) (v : CandidateVerdict F) (o : Option ℕ)
        → lookup (m, v.recipe) entered ≡ o
        → entry_held o now t ≡ true
        → (since : ℕ) × (lookup (m, v.recipe) entered ≡ some since)
          × (since + t.repromotion_hours * hour ≤ now)
    unfolding entry_held
    held-entry m v none e h = cc
    held-entry m v (some since) e h = (since, e, ground (arith, h))

    flag-parts :
        (m : String) (v : CandidateVerdict F) (since : ℕ)
        → (m == naive) ≡ false
        → lookup m vs ≡ some v
        → lookup (m, v.recipe) entered ≡ some since
        → (naive_trusted vs ≡ true)
          × (challenger_promoted (lookup m pairs) now t (lookup m costs) ≡ true)
    unfolding entry_flag
    flag-parts m v since nn e h =
        let flag = entry_flag pairs costs (naive_trusted vs) now t in
        elim (Bool-cases (flag m)) [
          | inl passed ↦ (ground (arith, passed), ground (arith, passed))
          | inr failed ↦
              let absent = enter_all_failed flag now m v vs (sel.entry_since, []) nn failed e in
              absurd (ground (arith, h, absent))
        ]

    -- A challenger is selected only beside a trusted naive. Either it was selected before, under the same
    -- recipe, and its pairs and costs are within the exit band; or they pass the entry test in this
    -- evaluation, and the entry times hold one under the challenger's recipe that is at least the
    -- settings' hours ago. What the test found between the two is not stated.
    pub select-challenger :
        (m : String)
        → (m == naive) ≡ false
        → (select sel vs pairs costs now t).0.selected ≡ some m
        → (v : CandidateVerdict F) × (lookup m vs ≡ some v)
          × (naive_trusted vs ≡ true)
          × ((sel.selected ≡ some m)
                × (is_name sel.recipe v.recipe ≡ true)
                × (challenger_retained (lookup m pairs) now t (lookup m costs) ≡ true)
              ⊎ (challenger_promoted (lookup m pairs) now t (lookup m costs) ≡ true)
                × ((since : ℕ) × (lookup (m, v.recipe) entered ≡ some since)
                    × (since + t.repromotion_hours * hour ≤ now)))
    unfolding eligible
    select-challenger m nn h =
        let (v, e, q) = select-eligible m h in
        elim (Bool-cases (is_name current m && naive_trusted vs)) [
          | inl stay ↦
              let (was, recipe, beside, retained) =
                stays-parts sel.selected m v nn e (ground (arith, stay)) in
              (v, e, beside, inl (was, recipe, retained))
          | inr left ↦
              let long : entry_held (lookup (m, v.recipe) entered) now t ≡ true =
                ground (arith, q, left, nn) in
              let (since, found, enough) =
                held-entry m v (lookup (m, v.recipe) entered) refl long in
              let (beside, passed) = flag-parts m v since nn e found in
              (v, e, beside, inr (passed, (since, found, enough)))
        ]

    -- With a trusted naive there is always a selection.
    pub select_fallback :
        naive_trusted vs ≡ true
        → (m : String) × ((select sel vs pairs costs now t).0.selected ≡ some m)
    unfolding select
    select_fallback h = elim (Option-cases (lookup naive vs)) [
      | inl e ↦ let absent : false ≡ true = rw (e, trusted_of) at h in cc
      | inr (w, e) ↦
          let trusted_naive : w.trusted ≡ true = rw (e, trusted_of) at h in
          let s = record sel { entry_since = entered } in
          let (m, found) =
            choose-naive entered current (naive_trusted vs) now t vs fallback_order w e
              trusted_naive refl in
          (
            m,
            selected-switch s (choose entered current (naive_trusted vs) now t vs fallback_order) vs
                  now
                ∙ found,
          )
    ]
