-- ===== src/Journal/Writes.antt =====
-- What a guarded operation leaves in the file, by what its transaction writes (store.py: _guard, _tx).
use predictive_autoscaler.Prelude.{
  ◌≡◌, refl, sym, subst, inl, inr, Bool-cases, nat_eq, string_eq, Result, ok, err,
}
use predictive_autoscaler.Journal.Types.{StoreError, is_unavailable, Journal, Database}
use predictive_autoscaler.Journal.Guard.{
  report, commit_at, read_at, Moment, smooth, at_read, at_commit, after_commit, Plan, answer, write,
  guard, checked, mark, error_of, read_error,
}
use predictive_autoscaler.Journal.Commit.{unless_refused}

module _ {F : Type 0} where
  pub db-mark : (e : StoreError) (j : Journal F) → (mark e j).db ≡ j.db
  unfolding mark
  db-mark e j = elim (Bool-cases (is_unavailable e)) [ inl u ↦ rw u refl | inr u ↦ rw u refl ]

module _ {F A : Type 0} (P : Database F → Type 0) where
  -- What a plan writes has the property.
  abbrev pub Writes : Plan F A → Type 0
  Writes (answer r) = Unit
  Writes (write r d) = P d

  pub Writes-unless_refused :
      {B : Type 0} (r : Result StoreError B) (f : B → Plan F A)
      → ((b : B) → r ≡ ok b → Writes (f b))
      → Writes (unless_refused r f)
  unfolding unless_refused
  Writes-unless_refused (ok b) f h = h b refl
  Writes-unless_refused (err e) f h = tt

module _ {F A : Type 0} (P : Database F → Type 0) where
  pub report-keeps : (r : Result StoreError A) (j : Journal F) → P j.db → P (report r j).1.db
  unfolding report
  report-keeps (ok a) j h = h
  report-keeps (err e) j h = subst P (sym (db-mark e j)) h

  -- A guarded block leaves the file as it was, or as its transaction wrote it.
  pub guard-keeps :
      (m : Moment) (p : Plan F A) (j : Journal F) → P j.db → Writes P p → P (guard m p j).1.db
  unfolding guard commit_at read_at
  guard-keeps smooth (answer r) j h w = report-keeps r j h
  guard-keeps (at_read f) (answer r) j h w = report-keeps (err (read_error f r)) j h
  guard-keeps (at_commit f) (answer r) j h w = report-keeps r j h
  guard-keeps (after_commit f) (answer r) j h w = report-keeps r j h
  guard-keeps smooth (write r d) j h w = report-keeps r (record j { db = d }) w
  guard-keeps (at_read f) (write r d) j h w = report-keeps (err (error_of f)) j h
  guard-keeps (at_commit f) (write r d) j h w = report-keeps (err (error_of f)) j h
  guard-keeps (after_commit f) (write r d) j h w =
      report-keeps (err (error_of f)) (record j { db = d }) w

  pub checked-keeps :
      {X : Type 0} (m : Moment) (r : Result StoreError X) (body : X → Plan F A) (j : Journal F)
      → P j.db
      → ((x : X) → r ≡ ok x → Writes P (body x))
      → P (checked m r body j).1.db
  unfolding checked
  checked-keeps m (ok x) body j h w = guard-keeps m (body x) j h (w x refl)
  checked-keeps m (err e) body j h w = h
