-- ===== src/Journal/Forever.antt =====
-- What was answered once is answered for good (store.py: commit_issuance, over the life of the journal).
use predictive_autoscaler.Prelude.{
  bind-ok, ◌≡◌, ◌⊎◌, refl, subst, ap, ◌∙◌, inl, inr, arith, Bool, true, false, Option, none, some,
  Option-cases, List, String, Float, ok, err,
}
use predictive_autoscaler.Journal.Types.{
  retired_key, IssuanceKey, Issuance, Journal, StoreSettings, Codec,
}
use predictive_autoscaler.Journal.Guard.{Env, smooth, checked, guard, require_healthy}
use predictive_autoscaler.Journal.Reads.{
  get_issuance, issuance_row, on_row, row_to_issuance, models_of,
}
use predictive_autoscaler.Journal.Commit.{
  checked_issuance, commit_issuance, issuance_plan, refuse_retired,
}
use predictive_autoscaler.Journal.Types.{encode_bounded}
use predictive_autoscaler.Journal.Ops.{Op, commit_issuance_op, perform, run}
use predictive_autoscaler.Journal.Change.{perform-Change}
use predictive_autoscaler.Journal.Wellformed.{Wellformed, core}
use predictive_autoscaler.Journal.Invariant.{Change-Wellformed}
use predictive_autoscaler.Journal.Standing.{
  Standing, committed, lapsed, standing_of, standing, Evolves, keeps, commits, lapses, goes,
  CollisionFree, run-Evolves,
}
use predictive_autoscaler.Journal.Success.{checked-ok}
use predictive_autoscaler.Journal.Names.{NamesOrdered, models_of-again}
use predictive_autoscaler.Journal.Retry.{commit-Answers, retry-Answers}

from-committed :
    {key : IssuanceKey} {a b : Standing} (x : Issuance)
    → Evolves key a b
    → a ≡ committed x
    → (b ≡ committed x) ⊎ (b ≡ lapsed)
from-committed x keeps e = inl e
from-committed x (commits i k) e = absurd (ground (arith, e))
from-committed x lapses e = absurd (ground (arith, e))
from-committed x (goes i) e = inr refl

of-committed :
    (o : Option Issuance) (late : Bool) (x : Issuance)
    → standing_of o late ≡ committed x
    → o ≡ some x
of-committed (some y) late x e = ground (arith, e)
of-committed none true x e = absurd (ground (arith, e))
of-committed none false x e = absurd (ground (arith, e))

of-lapsed :
    (o : Option Issuance) (late : Bool) → standing_of o late ≡ lapsed → (o ≡ none) × (late ≡ true)
of-lapsed (some y) late e = absurd (ground (arith, e))
of-lapsed none true e = (refl, refl)
of-lapsed none false e = absurd (ground (arith, e))

module _ {J F : Type 0} ⦃fl : Float F⦄ (cx : Codec J) (st : StoreSettings) where
  -- An issuance that can be read stays readable, with the same bytes, or its key is retired.
  pub kept-or-retired :
      (ops : List (Env × Op J F)) (j : Journal F) (key : IssuanceKey) (i : Issuance)
      → CollisionFree cx key
      → Wellformed cx st (core j.db)
      → get_issuance cx key j.db ≡ ok (some i)
      → (get_issuance cx key (run cx st ops j).db ≡ ok (some i))
        ⊎ ((get_issuance cx key (run cx st ops j).db ≡ ok none)
            × (refuse_retired key (run cx st ops j).db ≡ err retired_key))
  unfolding get_issuance standing refuse_retired
  kept-or-retired ops j key i inj w read =
      let after = (run cx st ops j).db in
      let way = run-Evolves cx st ops j key inj w in
      elim (Option-cases (issuance_row cx key j.db)) [
        | inl nothing ↦ absurd (ground (arith, rw nothing at read))
        | inr (x, found) ↦
            let start : standing cx key j.db ≡ committed x = rw found refl in
            elim (from-committed x way start) [
              | inl e ↦
                  let still = of-committed (issuance_row cx key after) _ x e in
                  let read_x : on_row (row_to_issuance cx) (some x) ≡ ok (some i) =
                    rw found at read in
                  inl (ap (on_row (row_to_issuance cx)) still ∙ read_x)
              | inr e ↦
                  let (gone, late) = of-lapsed (issuance_row cx key after) _ e in
                  inr (ap (on_row (row_to_issuance cx)) gone, rw late refl)
            ]
      ]

  -- Once a commit has returned a record, then after any further calls, with any failures, that
  -- leave the journal healthy, the same commit returns the same record as not created and changes
  -- nothing, or the key is retired and no issuance is found under it. The journal is well-formed at
  -- first, no other key has the digest of this one, the names' order is total and transitive, and
  -- the retry itself does not fail.
  pub commit-again :
      (env : Env) (key : IssuanceKey) (payload : J) (models : List String) (j after : Journal F)
      (i : Issuance) (c : Bool) (ops : List (Env × Op J F)) (again : Env)
      → CollisionFree cx key
      → NamesOrdered cx
      → Wellformed cx st (core j.db)
      → commit_issuance cx st env key payload models j ≡ (ok (i, c), after)
      → require_healthy (run cx st ops after) ≡ ok tt
      → again.moment ≡ smooth
      → (commit_issuance cx st again key payload models (run cx st ops after)
          ≡ (ok (i, false), run cx st ops after))
        ⊎ ((get_issuance cx key (run cx st ops after).db ≡ ok none)
            × (refuse_retired key (run cx st ops after).db ≡ err retired_key))
  unfolding commit_issuance checked_issuance checked perform
  commit-again env key payload models j after i c ops again inj ordered w e healthy calm =
      let (args, e1, e2) =
        checked-ok env.moment (checked_issuance cx st payload models) _ (i, c) j after e in
      let (bundle, e3, e4) = bind-ok (encode_bounded cx payload st.max_bundle_bytes) _ args e1 in
      let (expected, e5, e6) = bind-ok (models_of cx models) _ args e4 in
      let same : (bundle, expected) ≡ args = ground (arith, e6) in
      let again_ok = models_of-again cx models expected ordered e5 in
      let done : guard env.moment (issuance_plan cx st env key bundle expected j) j
          ≡ (ok (i, c), after) =
        ap
          (λ (p : String × List String). guard env.moment (issuance_plan cx st env key p.0 p.1 j) j)
          same
        ∙ e2 in
      let (well, read, own) =
        commit-Answers cx st env key bundle expected j after i c again_ok done in
      let w_after : Wellformed cx st (core after.db) =
        subst (λ (k : Journal F). Wellformed cx st (core k.db)) (ap (λ p. p.1) e)
          (Change-Wellformed cx st j.db
            (perform cx st env (commit_issuance_op key payload models) j).db
            (perform-Change cx st env (commit_issuance_op key payload models) j) w) in
      elim (kept-or-retired ops after key i inj w_after read) [
        | inr gone ↦ inr gone
        | inl still ↦
            let last =
              retry-Answers cx st again key bundle expected (run cx st ops after) i calm
                (healthy, still, own) in
            inl (rw (e3, e5) last)
      ]
