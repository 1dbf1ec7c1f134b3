-- ===== src/Journal/Success.antt =====
-- How a guarded operation can have succeeded (store.py: _guard, _tx).
use predictive_autoscaler.Prelude.{◌≡◌, ◌⊎◌, refl, ap, inl, inr, arith, string_eq, Result, ok, err}
use predictive_autoscaler.Journal.Types.{StoreError, Journal, Database}
use predictive_autoscaler.Journal.Guard.{
  Moment, smooth, at_read, at_commit, after_commit, Plan, answer, write, guard, checked, commit_at,
  read_at, report, error_of, read_error,
}
use predictive_autoscaler.Journal.Commit.{unless_refused}

module _ {F A : Type 0} where
  -- How an operation can have succeeded.
  abbrev pub Ended : Plan F A → A → Journal F → Journal F → Type 0
  Ended p a j after =
      ((p ≡ answer (ok a)) × (j ≡ after))
      ⊎ ((d : Database F) × (p ≡ write (ok a) d) × (record j { db = d } ≡ after))

  report-ok :
      (r : Result StoreError A) (a : A) (j after : Journal F)
      → report r j ≡ (ok a, after)
      → (r ≡ ok a) × (j ≡ after)
  unfolding report
  report-ok (ok b) a j after e = (ap (λ p. p.0) e, ap (λ p. p.1) e)
  report-ok (err x) a j after e =
      let bad : err x ≡ ok a = ap (λ p. p.0) e in absurd (ground (arith, bad))

  pub guard-ok :
      (m : Moment) (p : Plan F A) (a : A) (j after : Journal F)
      → guard m p j ≡ (ok a, after)
      → Ended p a j after
  unfolding guard commit_at read_at
  guard-ok smooth (answer r) a j after e =
      let (e1, e2) = report-ok r a j after e in inl (ap answer e1, e2)
  guard-ok (at_read f) (answer r) a j after e =
      let (e1, e2) = report-ok (err (read_error f r)) a j after e in absurd (ground (arith, e1))
  guard-ok (at_commit f) (answer r) a j after e =
      let (e1, e2) = report-ok r a j after e in inl (ap answer e1, e2)
  guard-ok (after_commit f) (answer r) a j after e =
      let (e1, e2) = report-ok r a j after e in inl (ap answer e1, e2)
  guard-ok smooth (write r d) a j after e =
      let (e1, e2) = report-ok r a (record j { db = d }) after e in
      inr (d, ap (λ r. write r d) e1, e2)
  guard-ok (at_read f) (write r d) a j after e =
      let (e1, e2) = report-ok (err (error_of f)) a j after e in absurd (ground (arith, e1))
  guard-ok (at_commit f) (write r d) a j after e =
      let (e1, e2) = report-ok (err (error_of f)) a j after e in absurd (ground (arith, e1))
  guard-ok (after_commit f) (write r d) a j after e =
      let (e1, e2) = report-ok (err (error_of f)) a (record j { db = d }) after e in
      absurd (ground (arith, e1))

  pub checked-ok :
      {X : Type 0} (m : Moment) (r : Result StoreError X) (body : X → Plan F A) (a : A)
      (j after : Journal F)
      → checked m r body j ≡ (ok a, after)
      → (x : X) × (r ≡ ok x) × (guard m (body x) j ≡ (ok a, after))
  unfolding checked
  checked-ok m (ok x) body a j after e = (x, refl, e)
  checked-ok m (err x) body a j after e =
      let bad : err x ≡ ok a = ap (λ p. p.0) e in absurd (ground (arith, bad))

  pub unless_refused-answer :
      {B : Type 0} (r : Result StoreError B) (f : B → Plan F A) (a : A)
      → unless_refused r f ≡ answer (ok a)
      → (b : B) × (r ≡ ok b) × (f b ≡ answer (ok a))
  unfolding unless_refused
  unless_refused-answer (ok b) f a e = (b, refl, e)
  unless_refused-answer (err x) f a e = absurd (ground (arith, e))

  pub unless_refused-write :
      {B : Type 0} (r : Result StoreError B) (f : B → Plan F A) (s : Result StoreError A)
      (d : Database F)
      → unless_refused r f ≡ write s d
      → (b : B) × (r ≡ ok b) × (f b ≡ write s d)
  unfolding unless_refused
  unless_refused-write (ok b) f s d e = (b, refl, e)
  unless_refused-write (err x) f s d e = absurd (ground (arith, e))
