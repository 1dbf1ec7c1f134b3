-- ===== src/Journal/Retry.antt =====
-- A retry of a committed issuance is answered with the committed record (store.py: commit_issuance).
use predictive_autoscaler.Prelude.{
  bind-ok, ℕ, ◌≡◌, refl, sym, subst, ap, ◌∙◌, inl, inr, arith, Bool, true, false, not, ◌||◌,
  Bool-cases, Option, none, some, List, [], ◌∷◌, ◌++◌, ◌==◌, string_eq, String, Result, ok, err,
  raise_if, ◌>>=◌, ◌>>◌,
}
use predictive_autoscaler.Journal.Types.{
  StoreError, store_corrupt, IssuanceKey, Issuance, Journal, Database, StoreSettings, Codec,
  key_sha,
}
use predictive_autoscaler.Journal.Guard.{
  Env, smooth, answer, write, guard, read_at, report, require_healthy,
}
use predictive_autoscaler.Journal.Reads.{
  find, get_issuance, issuance_row, on_row, row_to_issuance, models_of, or_corrupt,
}
use predictive_autoscaler.Journal.Commit.{
  present, with_flag, same_names, same_issuance, unless_refused, new_issuance, append_issuance,
  insert_issuance, issue_row, commit_new, commit_found, issuance_plan,
}
use predictive_autoscaler.Journal.Finds.{find-append_none}
use predictive_autoscaler.Journal.Wellformed.{insert_issuance-ok}
use predictive_autoscaler.Journal.Success.{guard-ok, unless_refused-answer, unless_refused-write}

same_names_iff : (xs ys : List String) → xs ≡ ys → same_names xs ys ≡ true
unfolding same_names
same_names_iff [] ys e = subst (λ zs. same_names [] zs ≡ true) e refl
same_names_iff (x ∷ xs) ys e =
    let here : (x == x) ≡ true = (string_eq.same_iff x x).1 refl in
    subst (λ zs. same_names (x ∷ xs) zs ≡ true) e (rw here (same_names_iff xs xs refl))

module _ {J : Type 0} (cx : Codec J) where
  or_corrupt-ok : {A : Type 0} (r : Result StoreError A) (a : A) → or_corrupt cx r ≡ ok a → r ≡ ok a
  or_corrupt-ok (ok b) a e = e
  or_corrupt-ok (err x) a e = absurd (ground (arith, e))

  -- A row that was committed with an accepted set of models is read as it stands.
  read-row :
      (row i : Issuance)
      → models_of cx row.models ≡ ok row.models
      → row_to_issuance cx row ≡ ok i
      → row ≡ i
  unfolding row_to_issuance
  read-row row i m e =
      let (u, e1, e2) =
        bind-ok (raise_if (not (cx.sha256 row.bundle == row.bundle_sha256)) store_corrupt) _ i e in
      let (models, e3, e4) = bind-ok (or_corrupt cx (models_of cx row.models)) _ i e2 in
      let e5 = or_corrupt-ok (models_of cx row.models) models e3 in
      let same : row.models ≡ models = ground (arith, sym m ∙ e5) in
      let kept : record row { models = models } ≡ i = ground (arith, e4) in
      ap (λ ms. record row { models = ms }) same ∙ kept

pub with_flag-ok :
    {A : Type 0} (c d : Bool) (r : Result StoreError A) (a : A)
    → with_flag c r ≡ ok (a, d)
    → (r ≡ ok a) × (c ≡ d)
with_flag-ok c d (ok b) a e =
    let value : b ≡ a = ground (arith, e) in
    let flag : c ≡ d = ground (arith, e) in (ap ok value, flag)
with_flag-ok c d (err x) a e = absurd (ground (arith, e))

pub present-ok :
    {A : Type 0} (r : Result StoreError (Option A)) (a : A) → present r ≡ ok a → r ≡ ok (some a)
unfolding present
present-ok (ok (some b)) a e = ap (λ r. r >>= λ b. ok (some b)) e
present-ok (ok none) a e = absurd (ground (arith, e))
present-ok (err x) a e = absurd (ground (arith, e))

on_row-none :
    {A B : Type 0} (f : A → Result StoreError B) (o : Option A) → on_row f o ≡ ok none → o ≡ none
on_row-none f none e = refl
on_row-none f (some a) e =
    let (b, e1, e2) = bind-ok (f a) (λ y. ok (some y)) none e in absurd (ground (arith, e2))

pub on_row-some :
    {A B : Type 0} (f : A → Result StoreError B) (a : A) (b : B)
    → on_row f (some a) ≡ ok (some b)
    → f a ≡ ok b
on_row-some f a b e =
    let (c, e1, e2) = bind-ok (f a) (λ y. ok (some y)) (some b) e in
    let same : c ≡ b = ground (arith, e2) in e1 ∙ ap ok same

same_issuance-ok :
    (x i : Issuance) (bundle : String) (models : List String)
    → same_issuance x bundle models ≡ ok i
    → x ≡ i
unfolding same_issuance
same_issuance-ok x i bundle models e =
    elim (Bool-cases (not (x.bundle == bundle) || not (same_names x.models models))) [
      | inl differs ↦ absurd (ground (arith, rw differs at e))
      | inr same ↦ let kept : ok x ≡ ok i = rw same at e in ground (arith, kept)
    ]

module _ {J F : Type 0} (cx : Codec J) (st : StoreSettings) where
  -- The journal holds the issuance, readable, for these bytes and these models.
  abbrev pub Answers : IssuanceKey → String → List String → Journal F → Issuance → Type 0
  Answers key bundle models j i =
      (require_healthy j ≡ ok tt)
      × (get_issuance cx key j.db ≡ ok (some i))
      × (same_issuance i bundle models ≡ ok i)

  healthy-then :
      {A : Type 0} (j : Journal F) (k : Result StoreError A) (a : A)
      → (require_healthy j >> k) ≡ ok a
      → (require_healthy j ≡ ok tt) × (k ≡ ok a)
  healthy-then j k a e = let (u, e1, e2) = bind-ok (require_healthy j) (λ v. k) a e in (e1, e2)

  -- The record read back after the INSERT is the row that was inserted.
  inserted-Answers :
      (now_ms : ℕ) (key : IssuanceKey) (bundle : String) (models : List String)
      (d after : Database F) (i : Issuance)
      → models_of cx models ≡ ok models
      → get_issuance cx key d ≡ ok none
      → insert_issuance (new_issuance cx st now_ms key bundle models d) d ≡ ok after
      → get_issuance cx key after ≡ ok (some i)
      → new_issuance cx st now_ms key bundle models d ≡ i
  unfolding get_issuance issuance_row append_issuance new_issuance
  inserted-Answers now_ms key bundle models d after i m e1 e2 e3 =
      let row = new_issuance cx st now_ms key bundle models d in
      let mine = λ (i : Issuance). i.key_sha256 == key_sha cx key in
      let (vacant, early, same) = insert_issuance-ok row d after e2 in
      let nothing = on_row-none (row_to_issuance cx) (find mine d.issuances) e1 in
      let hit : (key_sha cx key == key_sha cx key) ≡ true =
        (string_eq.same_iff (key_sha cx key) (key_sha cx key)).1 refl in
      let found : find mine (d.issuances ++ row ∷ []) ≡ some row =
        find-append_none mine d.issuances row nothing ∙ rw hit refl in
      let read : on_row (row_to_issuance cx) (find mine (d.issuances ++ row ∷ [])) ≡ ok (some i) =
        subst (λ (a : Database F). get_issuance cx key a ≡ ok (some i)) (sym same) e3 in
      read-row cx row i m (on_row-some (row_to_issuance cx) row i (rw found at read))

  found-answer :
      (env : Env) (key : IssuanceKey) (bundle : String) (models : List String) (d : Database F)
      (found : Option Issuance) (i : Issuance) (c : Bool)
      → commit_found cx st env key bundle models d found ≡ answer (ok (i, c))
      → (found ≡ some i) × (same_issuance i bundle models ≡ ok i)
  unfolding commit_found commit_new issue_row
  found-answer env key bundle models d (some x) i c e =
      let read : with_flag false (same_issuance x bundle models) ≡ ok (i, c) = ground (arith, e) in
      let (e1, e2) = with_flag-ok false c (same_issuance x bundle models) i read in
      let same = same_issuance-ok x i bundle models e1 in
      (ap some same, subst (λ y. same_issuance y bundle models ≡ ok i) same e1)
  found-answer env key bundle models d none i c e =
      let (u, e1, e2) = unless_refused-answer _ _ (i, c) e in
      let (after, e3, e4) = unless_refused-answer _ _ (i, c) e2 in absurd (ground (arith, e4))

  found-write :
      (env : Env) (key : IssuanceKey) (bundle : String) (models : List String)
      (d after : Database F) (found : Option Issuance) (i : Issuance) (c : Bool)
      → commit_found cx st env key bundle models d found ≡ write (ok (i, c)) after
      → (found ≡ none)
        × (c ≡ true)
        × (get_issuance cx key after ≡ ok (some i))
        × (insert_issuance (new_issuance cx st env.now_ms key bundle models d) d ≡ ok after)
  unfolding commit_found commit_new issue_row
  found-write env key bundle models d after (some x) i c e = absurd (ground (arith, e))
  found-write env key bundle models d after none i c e =
      let (u, e1, e2) = unless_refused-write _ _ (ok (i, c)) after e in
      let (db, e3, e4) = unless_refused-write _ _ (ok (i, c)) after e2 in
      let read : with_flag true (present (get_issuance cx key db)) ≡ ok (i, c) =
        ground (arith, e4) in
      let same : db ≡ after = ground (arith, e4) in
      let (e5, e6) = with_flag-ok true c (present (get_issuance cx key db)) i read in
      let got = present-ok (get_issuance cx key db) i e5 in
      (refl, sym e6, subst (λ a. get_issuance cx key a ≡ ok (some i)) same got, e3 ∙ ap ok same)

  -- What a successful commit leaves: the answer is the record for its bytes and models.
  pub commit-Answers :
      (env : Env) (key : IssuanceKey) (bundle : String) (models : List String) (j after : Journal F)
      (i : Issuance) (c : Bool)
      → models_of cx models ≡ ok models
      → guard env.moment (issuance_plan cx st env key bundle models j) j ≡ (ok (i, c), after)
      → Answers key bundle models after i
  unfolding issuance_plan require_healthy new_issuance same_issuance
  commit-Answers env key bundle models j after i c m e =
      elim (guard-ok env.moment (issuance_plan cx st env key bundle models j) (i, c) j after e) [
        | inl (e1, e2) ↦
            let (found, e3, e4) = unless_refused-answer _ _ (i, c) e1 in
            let (healthy, read) = healthy-then j (get_issuance cx key j.db) found e3 in
            let (e5, e6) = found-answer env key bundle models j.db found i c e4 in
            subst (λ k. Answers key bundle models k i) e2 (healthy, read ∙ ap ok e5, e6)
        | inr (d, e1, e2) ↦
            let (found, e3, e4) = unless_refused-write _ _ (ok (i, c)) d e1 in
            let (healthy, read) = healthy-then j (get_issuance cx key j.db) found e3 in
            let (e5, e6, e7, e8) = found-write env key bundle models j.db d found i c e4 in
            let row =
              inserted-Answers env.now_ms key bundle models j.db d i m (read ∙ ap ok e5) e8 e7 in
            let same_bytes : (bundle == bundle) ≡ true =
              (string_eq.same_iff bundle bundle).1 refl in
            let own : same_issuance (new_issuance cx st env.now_ms key bundle models j.db) bundle
                  models
                ≡ ok (new_issuance cx st env.now_ms key bundle models j.db) =
              rw (same_bytes, same_names_iff models models refl) refl in
            subst (λ k. Answers key bundle models k i) e2
              (healthy, e7, subst (λ r. same_issuance r bundle models ≡ ok r) row own)
      ]

  pub retry-Answers :
      (env : Env) (key : IssuanceKey) (bundle : String) (models : List String) (j : Journal F)
      (i : Issuance)
      → env.moment ≡ smooth
      → Answers key bundle models j i
      → guard env.moment (issuance_plan cx st env key bundle models j) j ≡ (ok (i, false), j)
  unfolding issuance_plan unless_refused commit_found guard read_at report
  retry-Answers env key bundle models j i calm (healthy, read, same) =
      rw (healthy, read, same, calm) refl
