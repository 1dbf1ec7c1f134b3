-- ===== src/Trust/Evaluate/Ready.antt =====
-- What a positive verdict of trust.py rests on.
use predictive_autoscaler.Prelude.{
  ◌≡◌, refl, sym, ap, subst, ◌∙◌, Bool, true, Option, none, some, String, List, [], ◌∷◌, Dict,
  lookup, insert, lookup-insert, ◌==◌, string_eq, Bool-cases, inl, inr, arith, Float, ok,
}
use predictive_autoscaler.Trust.Candidate.{
  TrustSettings, CandidateInputs, Global, all_gates, CandidateVerdict, Verdict,
}
use predictive_autoscaler.Trust.Hysteresis.{Hysteresis, step}
use predictive_autoscaler.Trust.Hysteresis.Safety.{step-gates_ok}
use predictive_autoscaler.Trust.Pairs.{Pairs}
use predictive_autoscaler.Trust.Selection.{select}
use predictive_autoscaler.Trust.Selection.Safe.{select_trusted}
use predictive_autoscaler.Trust.Evaluate.{
  TrustState, by_model, epoch_of, evaluation, prior_of, candidate_verdict, judge, prior_selection,
  verdict_of, known, one_epoch, pairs_match, evaluate,
}

module _ {F : Type 0} ⦃fl : Float F⦄ (g : Global F) (t : TrustSettings) where
  -- A verdict that trusts its candidate has every gate.
  abbrev pub IsSound : CandidateVerdict F → Type 0
  IsSound v = v.trusted ≡ true → all_gates v.gates ≡ true

  abbrev AllSound : Dict String (CandidateVerdict F) → Type 0
  AllSound vs = (m : String) (v : CandidateVerdict F) → lookup m vs ≡ some v → IsSound v

  candidate_verdict-IsSound :
      (ci : CandidateInputs F) (h : Hysteresis)
      → IsSound (candidate_verdict ci (step h (evaluation ci g t) t) g t)
  unfolding candidate_verdict evaluation
  candidate_verdict-IsSound ci h trusted = step-gates_ok h _ t trusted

  insert-AllSound :
      (n : String) (w : CandidateVerdict F) (vs : Dict String (CandidateVerdict F))
      → IsSound w
      → AllSound vs
      → AllSound (insert n w vs)
  insert-AllSound n w vs sound all m v e = elim (Bool-cases (n == m)) [
    | inl same ↦
        let found : some w ≡ some v = sym (lookup-insert n m w vs ∙ rw same) ∙ e in
        let value : w ≡ v = cc in subst IsSound value sound
    | inr other ↦ all m v (sym (lookup-insert n m w vs ∙ rw other) ∙ e)
  ]

  judge-AllSound :
      (cands : Dict String (CandidateInputs F)) (hyst : Dict String Hysteresis)
      (acc : Dict String Hysteresis × Dict String (CandidateVerdict F))
      → AllSound acc.1
      → AllSound (judge cands hyst g t acc).1
  unfolding judge
  judge-AllSound [] hyst acc h = h
  judge-AllSound ((m, ci) ∷ cands) hyst (new_h, vs) h =
      judge-AllSound cands hyst _
        (insert-AllSound m _ vs (candidate_verdict-IsSound ci (prior_of (lookup m hyst) ci)) h)

  verdict_of-ready :
      (o : Option String) (vs : Dict String (CandidateVerdict F)) (promoted : Dict String Bool)
      → (verdict_of o g vs promoted).prediction_ready ≡ true
      → (m : String) × (o ≡ some m)
        × (g.replay_suite_passed ≡ true)
        × (g.startup_budget_valid ≡ true)
  unfolding verdict_of
  verdict_of-ready none vs promoted h = cc
  verdict_of-ready (some m) vs promoted h = (m, refl, ground (arith, h), ground (arith, h))

  verdict_of-parts :
      (o : Option String) (vs : Dict String (CandidateVerdict F)) (promoted : Dict String Bool)
      → ((verdict_of o g vs promoted).selected ≡ o) × ((verdict_of o g vs promoted).candidates ≡ vs)
  unfolding verdict_of
  verdict_of-parts none vs promoted = (refl, refl)
  verdict_of-parts (some m) vs promoted = (refl, refl)

  -- A verdict that is ready to activate has a selected candidate with a verdict that trusts it and whose
  -- every gate holds at this evaluation, a passed replay suite and a valid startup budget.
  pub evaluate_ready :
      (cands : List (CandidateInputs F)) (state state' : TrustState) (pairs : Dict String (Pairs F))
      (costs : Dict String (Dict String (F × F))) (out : Verdict F)
      → evaluate cands state g t pairs costs ≡ ok (out, state')
      → out.prediction_ready ≡ true
      → (m : String) × (v : CandidateVerdict F) × (out.selected ≡ some m)
        × (lookup m out.candidates ≡ some v)
        × (v.trusted ≡ true)
        × (all_gates v.gates ≡ true)
        × (g.replay_suite_passed ≡ true)
        × (g.startup_budget_valid ≡ true)
  unfolding evaluate
  evaluate_ready cands state state' pairs costs out h r =
      let judged = judge (by_model cands []) state.hyst g t ([], []) in
      let sel = prior_selection state.selection (epoch_of cands) in
      let chosen = select sel judged.1 pairs costs g.now_s t in
      let is_out : verdict_of chosen.0.selected g judged.1 chosen.1 ≡ out =
        elim (Bool-cases (known (by_model cands []))) [
          | inr bad ↦ absurd (ground (arith, h, bad))
          | inl fine ↦ elim (Bool-cases (one_epoch cands)) [
            | inr bad ↦ absurd (ground (arith, h, fine, bad))
            | inl one ↦ elim (Bool-cases (pairs_match (epoch_of cands) (by_model cands []) pairs)) [
              | inr bad ↦ absurd (ground (arith, h, fine, one, bad))
              | inl paired ↦ ground (arith, h, fine, one, paired)
            ]
          ]
        ] in
      let (has_selected, has_verdicts) = verdict_of-parts chosen.0.selected judged.1 chosen.1 in
      let (m, picked, replay, startup) =
        verdict_of-ready chosen.0.selected judged.1 chosen.1
          (ap (λ (w : Verdict F). w.prediction_ready) is_out ∙ r) in
      let (v, found, trusted) = select_trusted sel judged.1 pairs costs g.now_s t m picked in
      (
        m,
        v,
        ap (λ (w : Verdict F). w.selected) (sym is_out) ∙ has_selected ∙ picked,
        ap (λ (w : Verdict F). lookup m w.candidates) (sym is_out)
            ∙ ap (lookup m) has_verdicts
            ∙ found,
        trusted,
        judge-AllSound (by_model cands []) state.hyst ([], []) (λ n w e. cc) m v found trusted,
        replay,
        startup,
      )
