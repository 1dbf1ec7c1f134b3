-- ===== src/Journal/Names.antt =====
-- The expected model set of an issuance is read back as it was written (store.py: _models).
use predictive_autoscaler.Prelude.{
  ◌+◌, ◌≤◌, ◌≡◌, refl, sym, subst, ap, ◌∙◌, inl, inr, arith, Bool, true, false, Bool-cases, List,
  [], ◌∷◌, ◌==◌, string_eq, String, length, any, all, All, count, none-count, count-none, ltb,
  insert_sorted, sort_by, IsSorted, length-sort_by, count-sort_by, All-sort_by, sort_by-IsSorted,
  ok,
}
use predictive_autoscaler.Journal.Types.{Codec, max_models}
use predictive_autoscaler.Journal.Reads.{distinct, models_of}

-- What the order of names is relied on for: any two names are comparable, and it is transitive.
abbrev pub NamesOrdered : {J : Type 0} → Codec J → Type 0
NamesOrdered cx =
    ((a b : String) → cx.name_le a b ≡ false → cx.name_le b a ≡ true)
    × ((a b c : String) → cx.name_le a b ≡ true → cx.name_le b c ≡ true → cx.name_le a c ≡ true)

sorted-fixed :
    (le : String → String → Bool) (xs : List String) → IsSorted le xs → sort_by le xs ≡ xs
unfolding sort_by insert_sorted
sorted-fixed le [] h = refl
sorted-fixed le (x ∷ []) h = refl
sorted-fixed le (x ∷ y ∷ ys) h =
    ap (insert_sorted le x) (sorted-fixed le (y ∷ ys) h.1) ∙ rw (h.0.0) refl

distinct-count : (xs : List String) → distinct xs ≡ true → (y : String) → count (λ z. y == z) xs ≤ 1
unfolding distinct
distinct-count [] e y = omega arith
distinct-count (x ∷ xs) e y =
    let rest = distinct-count xs (ground (arith, e)) y in
    let others : any (λ z. x == z) xs ≡ false = ground (arith, e) in
    elim (Bool-cases (y == x)) [
      | inr f ↦ rw f (omega (arith, rest))
      | inl t ↦
          let same : x ≡ y = sym ((string_eq.same_iff y x).0 t) in
          let zero_left : count (λ z. y == z) xs ≡ 0 =
            subst (λ w. count (λ z. w == z) xs ≡ 0) same (none-count (λ z. x == z) xs others) in
          rw t (omega (arith, zero_left))
    ]

count-distinct :
    (xs : List String) → ((y : String) → count (λ z. y == z) xs ≤ 1) → distinct xs ≡ true
unfolding distinct
count-distinct [] h = refl
count-distinct (x ∷ xs) h =
    let here : (x == x) ≡ true = (string_eq.same_iff x x).1 refl in
    let once : 1 + count (λ z. x == z) xs ≤ 1 = rw here at (h x) in
    let others : any (λ z. x == z) xs ≡ false = count-none (λ z. x == z) xs (omega (arith, once)) in
    let rest = count-distinct xs (λ y. omega (arith, h y)) in rw (others, rest) refl

all-All : (p : String → Bool) (xs : List String) → all p xs ≡ true → All (λ x. p x ≡ true) xs
all-All p [] e = tt
all-All p (x ∷ xs) e = (ground (arith, e), all-All p xs (ground (arith, e)))

All-all : (p : String → Bool) (xs : List String) → All (λ x. p x ≡ true) xs → all p xs ≡ true
All-all p [] h = refl
All-all p (x ∷ xs) h = rw (h.0, All-all p xs h.1) refl

module _ {J : Type 0} (cx : Codec J) where
  models_of-ok :
      (ms : List String) (distinct_names : distinct ms ≡ true)
      (length_small : length ms ≤ max_models) (length_large : 1 ≤ length ms)
      → all cx.is_model ms ≡ true
      → models_of cx ms ≡ ok (sort_by cx.name_le ms)
  unfolding models_of
  models_of-ok ms d small large named =
      let few : ltb (length ms) 1 ≡ false = ground (arith, large) in
      let many : ltb max_models (length ms) ≡ false = ground (arith, small) in
      rw (d, few, many, named) refl

  -- An accepted set is its own sorted form.
  pub models_of-again :
      (ms out : List String)
      → NamesOrdered cx
      → models_of cx ms ≡ ok out
      → models_of cx out ≡ ok out
  unfolding models_of
  models_of-again ms out (total, trans) e = elim (Bool-cases (distinct ms)) [
    | inr d ↦ absurd (ground (arith, rw d at e))
    | inl d ↦ elim (Bool-cases (all cx.is_model ms)) [
      | inr n ↦ absurd (ground (arith, rw (d, n) at e))
      | inl named ↦
          let few : ltb (length ms) 1 ≡ false = ground (arith, e, d, named) in
          let many : ltb max_models (length ms) ≡ false = ground (arith, e, d, named) in
          let same : sort_by cx.name_le ms ≡ out = ground (arith, e, d, named, few, many) in
          let sorted = sort_by-IsSorted cx.name_le total trans ms in
          let fixed = sorted-fixed cx.name_le (sort_by cx.name_le ms) sorted in
          subst (λ o. models_of cx o ≡ ok o) same
            (models_of-ok (sort_by cx.name_le ms)
                (count-distinct (sort_by cx.name_le ms) (λ y.
                  omega (arith, count-sort_by cx.name_le (λ z. y == z) ms, distinct-count ms d y)))
                (ground (arith, many, length-sort_by cx.name_le ms))
                (ground (arith, few, length-sort_by cx.name_le ms))
                (All-all cx.is_model (sort_by cx.name_le ms) (
                  All-sort_by (λ x. cx.is_model x ≡ true) cx.name_le ms
                    (all-All cx.is_model ms named)))
              ∙ ap ok fixed)
    ]
  ]
